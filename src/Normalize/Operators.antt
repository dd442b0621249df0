-- ===== src/Normalize/Operators.antt =====
-- plancontract/normalize.go: operator contexts, `NormalizeOperators`, edges and warnings.
pub mod Laws
use Prim.Native.String
use spanalyzer.Prelude.{
  String, List, [], ◌∷◌, ◌++◌, ℕ, Bool, true, false, not, ◌&&◌, ◌||◌, Option, none, some, map,
  if◌then◌else◌, ◌==◌, string_eq, contains, add_new,
}
use spanalyzer.Prelude.Int.{ℤ, int_eq}
use spanalyzer.Prelude.Order.{int_ord, string_ord}
use spanalyzer.Prelude.Maps.{Map, lookup, insert, lookup_or}
use spanalyzer.Prelude.Sorting.{sort_by, sort}
use spanalyzer.Prelude.Switch.{switch}
use spanalyzer.Text.{trim_space, equal_fold, join, print_int}
use spanalyzer.PlanContract.Plan.{PlanNode, ChildLink, QueryPlan}
use spanalyzer.PlanContract.Report.{Operator, OperatorEdge, Diagnostic, zero_operator}
use spanalyzer.PlanContract.Families.{zero_operator_family_counts, count_operator}
use spanalyzer.PlanContract.Matching.{normalize_operator_name}
use spanalyzer.Normalize.Classify.{
  OperatorContext, no_context, node_operator_family, operator_metadata_string,
  node_metadata_raw_string, node_metadata_bool, node_tvf_name,
}
use spanalyzer.Normalize.Walk.{
  operator_child_indexes, index_nodes, children_by_index, nodes_by_index, descendant_indexes,
  find_wrapper_internal_operator, operator_consumes_batch_scan,
}

-- `sort.Slice` by index; the indexes of a plan's nodes differ.
unfoldable pub sorted_plan_nodes : QueryPlan → List PlanNode
sorted_plan_nodes plan = sort_by (λ node. node.index) plan.plan_nodes

-- What a wrapper operator looks for behind its `Map` links, and the flag that it sets there.
pub record Wrapper : Type 0 where
  pub internal_names : List String
  pub set_flag : OperatorContext → OperatorContext

-- The cases of the `switch` in `operatorContexts`.
unfoldable pub wrapper_of : String → Option Wrapper
wrapper_of display_name =
    switch display_name
      ((
        "push broadcast hash join" ∷ "push broadcast hash join outer apply"
            ∷ "push broadcast hash join semi apply" ∷ "push broadcast hash join anti semi apply"
            ∷ [],
        some (record {
          internal_names = "hash join" ∷ [];
          set_flag = λ context. record context { push_broadcast_internal_hash_join = true };
        }),
      )
        ∷ (
          "distributed cross apply" ∷ "distributed outer apply" ∷ "distributed apply" ∷ [],
          some (record {
            internal_names = "cross apply" ∷ "outer apply" ∷ [];
            set_flag = λ context. record context { distributed_cross_apply_internal = true };
          }),
        )
        ∷ (
          "distributed semi apply" ∷ [],
          some (record {
            internal_names = "semi apply" ∷ "anti-semi apply" ∷ "anti semi apply" ∷ [];
            set_flag = λ context. record context { distributed_semi_apply_internal = true };
          }),
        )
        ∷ (
          "distributed anti semi apply" ∷ [],
          some (record {
            internal_names = "semi apply" ∷ "anti-semi apply" ∷ "anti semi apply" ∷ [];
            set_flag = λ context. record context { distributed_anti_semi_apply_internal = true };
          }),
        )
        ∷ [])
      none

abbrev pub Contexts : Type 0
Contexts = Map ℤ OperatorContext

-- `operatorConsumesBatchScan(nodesByIndex, nodesByIndex[index])`
abbrev consumes_batch_scan : Map ℤ PlanNode → ℤ → Bool
consumes_batch_scan nodes i = elim (lookup i nodes) [
  | none ↦ false
  | some candidate ↦ operator_consumes_batch_scan nodes candidate
]

set_context : Wrapper → ℤ → Contexts → Contexts
set_context wrapper i contexts =
    insert i (wrapper.set_flag (lookup_or no_context i contexts)) contexts

-- The body of the loops over the links of a wrapper.
mark_link : Map ℤ PlanNode → Wrapper → ChildLink → Contexts → Contexts
unfolding set_context
mark_link nodes wrapper link contexts =
    if not (equal_fold (trim_space link.type_name) "Map")
    then contexts
    else elim (find_wrapper_internal_operator nodes link.child_index wrapper.internal_names) [
      | none ↦ contexts
      | some i ↦ if consumes_batch_scan nodes i then set_context wrapper i contexts else contexts
    ]

mark_links : Map ℤ PlanNode → Wrapper → List ChildLink → Contexts → Contexts
mark_links nodes wrapper [] contexts = contexts
mark_links nodes wrapper (link ∷ links) contexts =
    mark_links nodes wrapper links (mark_link nodes wrapper link contexts)

mark_node : Map ℤ PlanNode → PlanNode → Contexts → Contexts
unfolding mark_links mark_link
mark_node nodes node contexts = elim (wrapper_of (normalize_operator_name node.display_name)) [
  | none ↦ contexts
  | some wrapper ↦ mark_links nodes wrapper node.child_links contexts
]

mark_nodes : Map ℤ PlanNode → List PlanNode → Contexts → Contexts
unfolding mark_node
mark_nodes nodes [] contexts = contexts
mark_nodes nodes (node ∷ rest) contexts = mark_nodes nodes rest (mark_node nodes node contexts)

unfoldable pub operator_contexts : QueryPlan → Contexts
unfolding mark_nodes
operator_contexts plan = mark_nodes (nodes_by_index plan) plan.plan_nodes []

-- The closure `add` of `subtreeFamilyCounts`.
unfoldable pub add_subtree : Map ℤ String → Map ℤ Bool → Map String ℕ → ℤ → Map String ℕ
add_subtree families scalars counts i = count_operator counts (record zero_operator {
  family = lookup_or "" i families;
  scalar_aggregate = lookup_or false i scalars;
})

add_subtrees : Map ℤ String → Map ℤ Bool → Map String ℕ → List ℤ → Map String ℕ
add_subtrees families scalars counts [] = counts
add_subtrees families scalars counts (i ∷ is) =
    add_subtrees families scalars (add_subtree families scalars counts i) is

unfoldable pub subtree_family_counts : ℤ → List ℤ → Map ℤ String → Map ℤ Bool → Map String ℕ
unfolding add_subtrees
subtree_family_counts root descendants families scalars =
    add_subtrees families scalars (add_subtree families scalars zero_operator_family_counts root)
      descendants

-- The maps that the first loop of `NormalizeOperators` fills.
unfoldable pub family_by_index : Contexts → List PlanNode → Map ℤ String
family_by_index contexts nodes =
    index_nodes (λ node. node_operator_family node (lookup_or no_context node.index contexts)) nodes
      []

unfoldable pub scalar_aggregate_by_index : List PlanNode → Map ℤ Bool
scalar_aggregate_by_index nodes =
    index_nodes (λ node. node_metadata_bool node "scalar_aggregate") nodes []

-- The body of the second loop.
unfoldable pub normalize_node : Map ℤ (List ℤ) → Map ℤ String → Map ℤ Bool → PlanNode → Operator
normalize_node children families scalars node =
    let descendants = descendant_indexes node.index children in
    record {
      index = node.index;
      display_name = node.display_name;
      family = lookup_or "" node.index families;
      execution_method = operator_metadata_string node "execution_method";
      iterator_type = operator_metadata_string node "iterator_type";
      scan_method = operator_metadata_string node "scan_method";
      scan_format = operator_metadata_string node "scan_format";
      scan_type = operator_metadata_string node "scan_type";
      scan_target = node_metadata_raw_string node "scan_target";
      seekable_key_size = node_metadata_raw_string node "seekable_key_size";
      join_type = operator_metadata_string node "join_type";
      join_configuration = operator_metadata_string node "join_configuration";
      call_type = operator_metadata_string node "call_type";
      distribution_table = node_metadata_raw_string node "distribution_table";
      subquery_cluster_node = node_metadata_raw_string node "subquery_cluster_node";
      spool_name = node_metadata_raw_string node "spool_name";
      tvf_name = node_tvf_name node;
      scalar_aggregate = lookup_or false node.index scalars;
      full_scan = node_metadata_bool node "Full scan";
      child_indexes = operator_child_indexes node;
      descendant_indexes = descendants;
      subtree_family_counts = subtree_family_counts node.index descendants families scalars;
    }

abbrev normalize_nodes : Map ℤ (List ℤ) → Contexts → List PlanNode → List Operator
normalize_nodes children contexts nodes =
    map
      (λ node.
        normalize_node children (family_by_index contexts nodes) (scalar_aggregate_by_index nodes)
          node)
      nodes

-- A nil plan has no operators.
unfoldable pub normalize_operators : Option QueryPlan → List Operator
normalize_operators none = []
normalize_operators (some plan) =
    normalize_nodes (children_by_index plan) (operator_contexts plan) (sorted_plan_nodes plan)

node_edges : PlanNode → List OperatorEdge
node_edges node =
    map
      (λ link. record {
        parent_index = node.index;
        child_index = link.child_index;
        type_name = link.type_name;
        variable = link.variable;
      })
      node.child_links

edges_of : List PlanNode → List OperatorEdge
edges_of [] = []
edges_of (node ∷ nodes) = node_edges node ++ edges_of nodes

unfoldable pub normalize_operator_edges : Option QueryPlan → List OperatorEdge
unfolding node_edges edges_of
normalize_operator_edges none = []
normalize_operator_edges (some plan) = edges_of (sorted_plan_nodes plan)

abbrev sprint : List String → String
sprint texts = join texts ""

abbrev iterator_type_text : (String → String) → Operator → String
iterator_type_text quote operator =
    if operator.iterator_type == ""
    then " iterator_type metadata is missing."
    else sprint (" iterator_type metadata is " ∷ quote operator.iterator_type ∷ "." ∷ [])

-- The warning about one operator, if there is one; `quote` is how `fmt` prints a text under `%q`.
unfoldable pub classification_warning : (String → String) → Operator → Option Diagnostic
unfolding join
classification_warning quote operator =
    let named =
      sprint
        (print_int operator.index ∷ " with display name " ∷ quote operator.display_name ∷ []) in
    if operator.family == "unknown"
    then some (record {
      id = "operator_family_unknown";
      message =
          sprint
            ("PlanNode " ∷ named ∷ " could not be classified into a known operator family." ∷ []);
    })
    else if operator.family == "join"
    then some (record {
      id = "join_family_unknown";
      message = sprint (
          "Join-like PlanNode " ∷ named ∷ " could not be classified into a specific join family."
          ∷ []);
    })
    else if not (normalize_operator_name operator.display_name == "aggregate")
        || not (operator.family == "aggregate")
    then none
    else some (record {
      id = "aggregate_iterator_type_unknown";
      message = sprint (
          "Aggregate PlanNode "
          ∷ print_int operator.index
          ∷ " could not be classified as hash_aggregate or stream_aggregate."
          ∷ iterator_type_text quote operator
          ∷ []);
    })

unfoldable pub classification_warnings : (String → String) → List Operator → List Diagnostic
unfolding classification_warning
classification_warnings quote [] = []
classification_warnings quote (operator ∷ operators) =
    let rest = classification_warnings quote operators in
    elim (classification_warning quote operator) [ none ↦ rest | some warning ↦ warning ∷ rest ]

observed : List String → List Operator → List String
observed seen [] = seen
observed seen (operator ∷ operators) =
    observed (if operator.family == "" then seen else add_new seen operator.family) operators

unfoldable pub observed_operator_families : List Operator → List String
unfolding observed
observed_operator_families operators = sort (observed [] operators)
