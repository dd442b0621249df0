-- ===== src/PlanContract/Families.antt =====
-- plancontract/plancontract.go: the operator families, the umbrella families and their counts.
pub mod Laws
pub mod Derived
use spanalyzer.Prelude.{
  String, List, [], ◌∷◌, ◌++◌, ℕ, ◌+◌, Bool, true, false, ◌&&◌, ◌||◌, not, if◌then◌else◌, ◌==◌,
  string_eq, contains, select, ltb, map,
}
use spanalyzer.Prelude.Maps.{Map, lookup_or, insert}
use spanalyzer.Prelude.Sorting.{sort}
use spanalyzer.Prelude.Order.{string_ord}
use spanalyzer.PlanContract.Report.{Operator, zero_operator}

unfoldable pub known_operator_families : List String
known_operator_families =
    "aggregate" ∷ "anti_semi_apply" ∷ "apply_mutations" ∷ "array_subquery" ∷ "array_unnest"
    ∷ "bloom_filter_build" ∷ "blocking_operator" ∷ "change_stream_tvf" ∷ "compute"
    ∷ "compute_struct" ∷ "create_batch" ∷ "crowd" ∷ "data_block_to_row" ∷ "apply_join"
    ∷ "distributed_anti_semi_apply" ∷ "distributed_anti_semi_apply_internal_apply"
    ∷ "distributed_merge_union" ∷ "distributed_cross_apply"
    ∷ "distributed_cross_apply_internal_apply" ∷ "distributed_semi_apply"
    ∷ "distributed_semi_apply_internal_apply" ∷ "distributed_union" ∷ "empty_relation"
    ∷ "explicit_sort" ∷ "filter" ∷ "filter_scan" ∷ "full_sort" ∷ "generate_relation"
    ∷ "hash_aggregate" ∷ "hash_join" ∷ "join" ∷ "key_range_accumulator" ∷ "limit"
    ∷ "local_split_union" ∷ "merge_join" ∷ "mini_batch_assign" ∷ "mini_batch_key_order"
    ∷ "minor_sort" ∷ "push_broadcast_hash_join" ∷ "push_broadcast_hash_join_internal_hash_join"
    ∷ "recursive_spool_scan" ∷ "random_id_assign" ∷ "recursive_union" ∷ "row_count"
    ∷ "row_to_data_block" ∷ "scalar" ∷ "scan" ∷ "scalar_subquery" ∷ "search_predicate"
    ∷ "search_query_conversion_tvf" ∷ "serialize_result" ∷ "semi_apply" ∷ "spool_build"
    ∷ "spool_scan" ∷ "stream_aggregate" ∷ "tvf" ∷ "union_all" ∷ "union_input" ∷ "unit_relation"
    ∷ "verify_determinism" ∷ "unknown" ∷ []

-- `KnownOperatorFamily`
unfoldable pub known_operator_family : String → Bool
unfolding known_operator_families
known_operator_family family = contains known_operator_families family

is_umbrella : String → Bool
is_umbrella family = family == "explicit_sort" || family == "blocking_operator"

unfoldable pub concrete_operator_families : List String
unfolding known_operator_families is_umbrella
concrete_operator_families = select (λ family. not (is_umbrella family)) known_operator_families

unfoldable pub stream_blocking_operator_family : String → Bool
stream_blocking_operator_family family =
    contains
      ("aggregate" ∷ "bloom_filter_build" ∷ "blocking_operator" ∷ "full_sort" ∷ "hash_aggregate"
        ∷ "hash_join" ∷ "join" ∷ "push_broadcast_hash_join" ∷ "spool_build" ∷ [])
      family

unfoldable pub blocking_operator : Operator → Bool
blocking_operator operator =
    stream_blocking_operator_family operator.family
    || (operator.family == "stream_aggregate" && operator.scalar_aggregate)

unfoldable pub operator_matches_family : Operator → String → Bool
operator_matches_family operator want =
    if operator.family == want
    then true
    else if want == "explicit_sort"
    then operator.family == "full_sort" || operator.family == "minor_sort"
    else if want == "blocking_operator"
    then blocking_operator operator
    else false

unfoldable pub derived_operator_families_for_operator : Operator → List String
derived_operator_families_for_operator operator =
    let sorts =
      if operator.family == "full_sort" || operator.family == "minor_sort"
      then "explicit_sort" ∷ []
      else [] in
    let blocking =
      if not (operator.family == "blocking_operator") && blocking_operator operator
      then "blocking_operator" ∷ []
      else [] in
    sort (sorts ++ blocking)

unfoldable pub derived_operator_families : String → List String
derived_operator_families family =
    derived_operator_families_for_operator (record zero_operator { family = family })

-- `counts[family] = 0` for each of a list of families
zero_counts : List String → Map String ℕ → Map String ℕ
zero_counts [] counts = counts
zero_counts (family ∷ families) counts = zero_counts families (insert family 0 counts)

unfoldable pub zero_operator_family_counts : Map String ℕ
unfolding zero_counts known_operator_families
zero_operator_family_counts = zero_counts known_operator_families []

-- `counts[family]++`
pub increment : Map String ℕ → String → Map String ℕ
increment counts family = insert family (lookup_or 0 family counts + 1) counts

pub increment_all : Map String ℕ → List String → Map String ℕ
increment_all counts [] = counts
increment_all counts (family ∷ families) = increment_all (increment counts family) families

-- The body of the counting loops of `OperatorFamilyCounts` and `subtreeFamilyCounts`.
unfoldable pub count_operator : Map String ℕ → Operator → Map String ℕ
unfolding increment increment_all
count_operator counts operator =
    if operator.family == ""
    then counts
    else increment_all (increment counts operator.family)
        (derived_operator_families_for_operator operator)

pub count_operators : Map String ℕ → List Operator → Map String ℕ
count_operators counts [] = counts
count_operators counts (operator ∷ operators) =
    count_operators (count_operator counts operator) operators

unfoldable pub operator_family_counts : List Operator → Map String ℕ
unfolding count_operators
operator_family_counts operators = count_operators zero_operator_family_counts operators

-- The loop over `counts` that sums the families that block, without the umbrella itself.
blocking_sum : Map String ℕ → ℕ
blocking_sum [] = 0
blocking_sum ((family, count) ∷ counts) =
    let rest = blocking_sum counts in
    if family == "blocking_operator"
    then rest
    else if stream_blocking_operator_family family
    then count + rest
    else rest

unfoldable pub add_derived_operator_family_counts : Map String ℕ → Map String ℕ
unfolding blocking_sum
add_derived_operator_family_counts counts =
    let counts' =
      insert "explicit_sort" (lookup_or 0 "full_sort" counts + lookup_or 0 "minor_sort" counts)
        counts in
    let metadata_aware = lookup_or 0 "blocking_operator" counts' in
    let total = blocking_sum counts' in
    insert "blocking_operator" (if ltb total metadata_aware then metadata_aware else total) counts'

-- `out[family] = count` for each entry
copy_counts : Map String ℕ → Map String ℕ → Map String ℕ
copy_counts [] out = out
copy_counts ((family, count) ∷ counts) out = copy_counts counts (insert family count out)

unfoldable pub operator_family_counts_or_empty : Map String ℕ → Map String ℕ
unfolding copy_counts
operator_family_counts_or_empty counts =
    add_derived_operator_family_counts (copy_counts counts zero_operator_family_counts)
