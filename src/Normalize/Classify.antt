-- ===== src/Normalize/Classify.antt =====
-- plancontract/normalize.go: metadata of a plan node, and its operator family.
pub mod Laws
use spanalyzer.Prelude.{
  String, List, [], ◌∷◌, Bool, true, false, not, ◌&&◌, ◌||◌, Option, none, some, if◌then◌else◌,
  ◌==◌, string_eq, contains,
}
use spanalyzer.Prelude.Maps.{Map, lookup}
use spanalyzer.Prelude.Switch.{switch, first_case}
use spanalyzer.Text.{to_lower, trim_space, contains_text, dashes_to_underscores}
use spanalyzer.PlanContract.Plan.{Kind, kind_unspecified, relational, scalar, other_kind, PlanNode}
use spanalyzer.PlanContract.Matching.{normalize_operator_name}

-- A metadata value as it is printed; "" for a missing key and for a nil value.
printed : Option (Option String) → String
printed none = ""
printed (some none) = ""
printed (some (some text)) = trim_space text

unfoldable pub node_metadata_raw_string : PlanNode → String → String
unfolding printed
node_metadata_raw_string node key = printed (lookup key node.metadata)

unfoldable pub node_metadata_string : PlanNode → String → String
node_metadata_string node key = to_lower (node_metadata_raw_string node key)

unfoldable pub node_metadata_bool : PlanNode → String → Bool
node_metadata_bool node key = node_metadata_string node key == "true"

unfoldable pub canonical_scan_type : String → String
canonical_scan_type value =
    switch value
      (("tablescan" ∷ [], "table_scan")
        ∷ ("indexscan" ∷ [], "index_scan")
        ∷ ("batchscan" ∷ [], "batch_scan")
        ∷ ("searchindexscan" ∷ [], "search_index_scan")
        ∷ ("vectorindexmetadatascan" ∷ [], "vector_index_metadata_scan")
        ∷ ("vectorindexrootscan" ∷ [], "vector_index_root_scan")
        ∷ ("vectorindexleafscan" ∷ [], "vector_index_leaf_scan")
        ∷ ("filterscan" ∷ "filter scan" ∷ [], "filter_scan")
        ∷ [])
      value

unfoldable pub operator_metadata_string : PlanNode → String → String
operator_metadata_string node key =
    let value = node_metadata_string node key in
    switch key
      (("scan_type" ∷ [], canonical_scan_type value)
        ∷ ("join_configuration" ∷ [], to_lower (dashes_to_underscores value))
        ∷ [])
      value

unfoldable pub node_tvf_name : PlanNode → String
node_tvf_name node =
    let name = node_metadata_raw_string node "Name" in
    if not (normalize_operator_name node.display_name == "tvf")
    then ""
    else if name == ""
    then node_metadata_raw_string node "name"
    else name

abbrev pub aggregate_families : List (List String × String)
aggregate_families = ("hash" ∷ [], "hash_aggregate") ∷ ("stream" ∷ [], "stream_aggregate") ∷ []

unfoldable pub aggregate_family : PlanNode → String
aggregate_family node =
    switch (node_metadata_string node "iterator_type") aggregate_families "aggregate"

-- The `default` case: by parts of the display name, then of the description.
abbrev pub guesses : String → String → List (Bool × String)
guesses display_name description =
    (contains_text display_name "hash aggregate", "hash_aggregate")
    ∷ (contains_text display_name "stream aggregate", "stream_aggregate")
    ∷ (contains_text display_name "push broadcast hash join", "push_broadcast_hash_join")
    ∷ (contains_text display_name "hash join", "hash_join")
    ∷ (contains_text display_name "apply", "apply_join")
    ∷ (contains_text display_name "merge join", "merge_join")
    ∷ (
      contains_text display_name "sort",
      if contains_text display_name "minor sort" then "minor_sort" else "full_sort",
    )
    ∷ (contains_text display_name "scan", "scan")
    ∷ (contains_text display_name "join", "join")
    ∷ (contains_text display_name "aggregate", "aggregate")
    ∷ (contains_text description "hash aggregate", "hash_aggregate")
    ∷ (contains_text description "stream aggregate", "stream_aggregate")
    ∷ []

unfoldable pub guessed_family : String → String → String
guessed_family display_name description = first_case (guesses display_name description) "unknown"

-- The cases of the `switch` of `OperatorFamily` over the normalized display name.
abbrev pub named_families : PlanNode → List (List String × String)
named_families node =
    ("apply mutations" ∷ [], "apply_mutations")
    ∷ ("sort" ∷ "sort limit" ∷ "local sort" ∷ "local sort limit" ∷ [], "full_sort")
    ∷ (
      "minor sort" ∷ "minor sort limit" ∷ "local minor sort" ∷ "local minor sort limit" ∷ [],
      "minor_sort",
    )
    ∷ ("global limit" ∷ "limit" ∷ "local limit" ∷ [], "limit")
    ∷ ("hash join" ∷ [], "hash_join")
    ∷ (
      "push broadcast hash join" ∷ "push broadcast hash join outer apply"
          ∷ "push broadcast hash join semi apply" ∷ "push broadcast hash join anti semi apply" ∷ [],
      "push_broadcast_hash_join",
    )
    ∷ ("anti-semi apply" ∷ "anti semi apply" ∷ [], "anti_semi_apply")
    ∷ ("semi apply" ∷ [], "semi_apply")
    ∷ ("apply join" ∷ "cross apply" ∷ "outer apply" ∷ [], "apply_join")
    ∷ (
      "distributed cross apply" ∷ "distributed outer apply" ∷ "distributed apply" ∷ [],
      "distributed_cross_apply",
    )
    ∷ ("distributed semi apply" ∷ [], "distributed_semi_apply")
    ∷ ("distributed anti semi apply" ∷ [], "distributed_anti_semi_apply")
    ∷ ("merge join" ∷ [], "merge_join")
    ∷ ("aggregate" ∷ [], aggregate_family node)
    ∷ ("array subquery" ∷ [], "array_subquery")
    ∷ ("array unnest" ∷ [], "array_unnest")
    ∷ ("bloomfilterbuild" ∷ [], "bloom_filter_build")
    ∷ ("changestream tvf" ∷ [], "change_stream_tvf")
    ∷ ("compute" ∷ [], "compute")
    ∷ ("compute struct" ∷ [], "compute_struct")
    ∷ ("create batch" ∷ [], "create_batch")
    ∷ ("crowd" ∷ [], "crowd")
    ∷ ("datablocktorow" ∷ "datablocktorowadapter" ∷ [], "data_block_to_row")
    ∷ ("empty relation" ∷ [], "empty_relation")
    ∷ ("filter" ∷ [], "filter")
    ∷ ("keyrangeaccumulator" ∷ [], "key_range_accumulator")
    ∷ ("minibatchassign" ∷ [], "mini_batch_assign")
    ∷ ("minibatchkeyorder" ∷ [], "mini_batch_key_order")
    ∷ ("random id assign" ∷ [], "random_id_assign")
    ∷ ("recursive spool scan" ∷ [], "recursive_spool_scan")
    ∷ ("rowcount" ∷ [], "row_count")
    ∷ ("rowtodatablock" ∷ "rowtodatablockadapter" ∷ [], "row_to_data_block")
    ∷ ("scalar subquery" ∷ [], "scalar_subquery")
    ∷ ("search predicate" ∷ [], "search_predicate")
    ∷ ("spoolbuild" ∷ [], "spool_build")
    ∷ ("spoolscan" ∷ [], "spool_scan")
    ∷ (
      "scan" ∷ "table scan" ∷ "index scan" ∷ [],
      if operator_metadata_string node "scan_type" == "filter_scan" then "filter_scan" else "scan",
    )
    ∷ ("filter scan" ∷ "filterscan" ∷ [], "filter_scan")
    ∷ ("generate relation" ∷ [], "generate_relation")
    ∷ ("local split union" ∷ [], "local_split_union")
    ∷ ("serialize result" ∷ [], "serialize_result")
    ∷ (
      "distributed union" ∷ [],
      if node_metadata_bool node "preserve_subquery_order"
          then "distributed_merge_union"
          else "distributed_union",
    )
    ∷ ("distributed merge union" ∷ [], "distributed_merge_union")
    ∷ ("union all" ∷ [], "union_all")
    ∷ ("union input" ∷ [], "union_input")
    ∷ ("recursive union" ∷ [], "recursive_union")
    ∷ (
      "tvf" ∷ [],
      if normalize_operator_name (node_tvf_name node) == "search query conversion"
          then "search_query_conversion_tvf"
          else "tvf",
    )
    ∷ ("unit relation" ∷ [], "unit_relation")
    ∷ ("verifydeterminism" ∷ [], "verify_determinism")
    ∷ []

unfoldable pub named_family : PlanNode → String → String
named_family node display_name =
    switch display_name (named_families node)
      (guessed_family display_name (normalize_operator_name node.description))

unfoldable pub operator_family : PlanNode → String
operator_family node = named_family node (normalize_operator_name node.display_name)

pub record OperatorContext : Type 0 where
  pub push_broadcast_internal_hash_join : Bool
  pub distributed_cross_apply_internal : Bool
  pub distributed_semi_apply_internal : Bool
  pub distributed_anti_semi_apply_internal : Bool

abbrev pub no_context : OperatorContext
no_context = record {
  push_broadcast_internal_hash_join = false;
  distributed_cross_apply_internal = false;
  distributed_semi_apply_internal = false;
  distributed_anti_semi_apply_internal = false;
}

abbrev is_semi_apply : String → Bool
is_semi_apply name = contains ("semi apply" ∷ "anti-semi apply" ∷ "anti semi apply" ∷ []) name

abbrev pub internal_families : String → OperatorContext → List (Bool × String)
internal_families name context =
    (
      context.push_broadcast_internal_hash_join && name == "hash join",
      "push_broadcast_hash_join_internal_hash_join",
    )
    ∷ (
      context.distributed_cross_apply_internal && (name == "cross apply" || name == "outer apply"),
      "distributed_cross_apply_internal_apply",
    )
    ∷ (
      context.distributed_semi_apply_internal && is_semi_apply name,
      "distributed_semi_apply_internal_apply",
    )
    ∷ (
      context.distributed_anti_semi_apply_internal && is_semi_apply name,
      "distributed_anti_semi_apply_internal_apply",
    )
    ∷ []

unfoldable pub operator_family_with_context : PlanNode → OperatorContext → String
operator_family_with_context node context =
    first_case (internal_families (normalize_operator_name node.display_name) context)
      (operator_family node)

abbrev pub is_scalar : Kind → Bool
is_scalar scalar = true
is_scalar _ = false

unfoldable pub node_operator_family : PlanNode → OperatorContext → String
node_operator_family node context =
    let family = operator_family_with_context node context in
    if family == "unknown" && is_scalar node.kind then "scalar" else family

-- The display names that stand for relational operators where a plan does not record kinds.
unfoldable pub is_relational_name : String → Bool
is_relational_name name =
    contains
      ("aggregate" ∷ "anti-semi apply" ∷ "array unnest" ∷ "apply join" ∷ "compute"
        ∷ "compute struct" ∷ "create batch" ∷ "cross apply" ∷ "datablocktorow"
        ∷ "datablocktorowadapter" ∷ "distributed apply" ∷ "distributed cross apply"
        ∷ "distributed merge union" ∷ "distributed outer apply" ∷ "distributed semi apply"
        ∷ "distributed anti semi apply" ∷ "distributed union" ∷ "empty relation" ∷ "filter"
        ∷ "filter scan" ∷ "filterscan" ∷ "generate relation" ∷ "hash join" ∷ "index scan" ∷ "limit"
        ∷ "local split union" ∷ "merge join" ∷ "outer apply" ∷ "push broadcast hash join"
        ∷ "push broadcast hash join outer apply" ∷ "push broadcast hash join semi apply"
        ∷ "push broadcast hash join anti semi apply" ∷ "recursive spool scan" ∷ "random id assign"
        ∷ "recursive union" ∷ "rowtodatablock" ∷ "rowtodatablockadapter" ∷ "scan"
        ∷ "serialize result" ∷ "semi apply" ∷ "sort" ∷ "sort limit" ∷ "spoolbuild" ∷ "spoolscan"
        ∷ "table scan" ∷ "tvf" ∷ "union all" ∷ "unit relation" ∷ [])
      name

unfoldable pub is_relational_plan_node : PlanNode → Bool
is_relational_plan_node node = elim node.kind [
  | relational ↦ true
  | scalar ↦ false
  | kind_unspecified ↦ is_relational_name (normalize_operator_name node.display_name)
  | other_kind k ↦ false
]
