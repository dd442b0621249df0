-- ===== src/Normalize/Walk.antt =====
-- plancontract/normalize.go: the walks over the nodes of a plan. A recursion or a loop whose end the
-- `seen` map secures takes fuel; one more than the number of nodes is enough (`Walk/Descendants`).
pub mod Descendants
use spanalyzer.Prelude.{
  String, List, [], ◌∷◌, ◌++◌, ℕ, zero, suc, Bool, true, false, not, ◌&&◌, ◌||◌, Option, none, some,
  if◌then◌else◌, ◌==◌, string_eq, contains, length, map, select, any,
}
use spanalyzer.Prelude.Int.{ℤ, int_eq}
use spanalyzer.Prelude.Maps.{Map, lookup, insert, lookup_or}
use spanalyzer.Text.{has_prefix}
use spanalyzer.PlanContract.Plan.{PlanNode, ChildLink, QueryPlan}
use spanalyzer.PlanContract.Matching.{normalize_operator_name}
use spanalyzer.Normalize.Classify.{
  operator_metadata_string, node_metadata_raw_string, is_relational_plan_node,
}

unfoldable pub operator_child_indexes : PlanNode → List ℤ
operator_child_indexes node = map (λ link. link.child_index) node.child_links

-- `m[node.GetIndex()] = f(node)` for each node
unfoldable pub index_nodes {ℓ} : {A : Type ℓ} → (PlanNode → A) → List PlanNode → Map ℤ A → Map ℤ A
index_nodes f [] m = m
index_nodes f (node ∷ nodes) m = index_nodes f nodes (insert node.index (f node) m)

unfoldable pub children_by_index : QueryPlan → Map ℤ (List ℤ)
children_by_index plan = index_nodes operator_child_indexes plan.plan_nodes []

unfoldable pub nodes_by_index : QueryPlan → Map ℤ PlanNode
nodes_by_index plan = index_nodes (λ node. node) plan.plan_nodes []

-- `childrenByIndex[i]`
abbrev pub children_of : Map ℤ (List ℤ) → ℤ → List ℤ
children_of children i = lookup_or [] i children

-- `seen` and `out` of `descendantIndexes`.
pub record Visit : Type 0 where
  pub seen : List ℤ
  pub out : List ℤ

abbrev pub mark : Visit → ℤ → Visit
mark v i = record { seen = i ∷ v.seen; out = v.out ++ i ∷ [] }

-- `walk`, by the children that are still to visit; the fuel bounds the depth of the recursion.
unfoldable pub walk : Map ℤ (List ℤ) → ℕ → List ℤ → Visit → Visit
walk children zero pending v = v
walk children (suc fuel) [] v = v
walk children (suc fuel) (i ∷ pending) v =
    let deeper =
      walk children (suc fuel) pending (walk children fuel (children_of children i) (mark v i)) in
    let passed = walk children (suc fuel) pending v in if contains v.seen i then passed else deeper

unfoldable pub descendant_indexes : ℤ → Map ℤ (List ℤ) → List ℤ
unfolding walk
descendant_indexes root children =
    (walk children (suc (length children)) (children_of children root)
      (record { seen = root ∷ []; out = [] })).out

unfoldable pub relational_child_indexes : Map ℤ PlanNode → PlanNode → List ℤ
relational_child_indexes nodes node =
    select
      (λ i. elim (lookup i nodes) [ none ↦ false | some child ↦ is_relational_plan_node child ])
      (operator_child_indexes node)

abbrev single : List ℤ → Option ℤ
single (i ∷ []) = some i
single _ = none

-- The loop of `findWrapperInternalOperator`.
find_internal : Map ℤ PlanNode → List String → ℕ → List ℤ → ℤ → Option ℤ
find_internal nodes names zero seen start = none
find_internal nodes names (suc fuel) seen start =
    if contains seen start then none else elim (lookup start nodes) [
      | none ↦ none
      | some node ↦
          if not (is_relational_plan_node node)
          then none
          else if contains names (normalize_operator_name node.display_name)
          then some start
          else elim (single (relational_child_indexes nodes node)) [
            | none ↦ none
            | some child ↦ find_internal nodes names fuel (start ∷ seen) child
          ]
    ]

unfoldable pub find_wrapper_internal_operator : Map ℤ PlanNode → ℤ → List String → Option ℤ
unfolding find_internal
find_wrapper_internal_operator nodes start names =
    find_internal nodes names (suc (length nodes)) [] start

-- A node that scans a batch by itself.
unfoldable pub is_batch_scan : PlanNode → Bool
is_batch_scan node =
    operator_metadata_string node "scan_type" == "batch_scan"
    || (operator_metadata_string node "scan_method" == "batch"
        && has_prefix (node_metadata_raw_string node "scan_target") "$")

-- `subtreeHasBatchScan` on each of a list of indexes, until one has: the answer, and `seen`.
has_batch_scan : Map ℤ PlanNode → ℕ → List ℤ → List ℤ → Bool × List ℤ
has_batch_scan nodes zero pending seen = (false, seen)
has_batch_scan nodes (suc fuel) [] seen = (false, seen)
has_batch_scan nodes (suc fuel) (i ∷ pending) seen =
    let passed = has_batch_scan nodes (suc fuel) pending seen in
    let dangling = has_batch_scan nodes (suc fuel) pending (i ∷ seen) in
    if contains seen i then passed else elim (lookup i nodes) [
      | none ↦ dangling
      | some node ↦
          let below = has_batch_scan nodes fuel (operator_child_indexes node) (i ∷ seen) in
          let after = has_batch_scan nodes (suc fuel) pending below.1 in
          if is_batch_scan node then (true, i ∷ seen) else if below.0 then below else after
    ]

unfoldable pub subtree_has_batch_scan : Map ℤ PlanNode → ℤ → Bool
unfolding has_batch_scan
subtree_has_batch_scan nodes i = (has_batch_scan nodes (suc (suc (length nodes))) (i ∷ []) []).0

-- Each link starts with an empty `seen`.
unfoldable pub operator_consumes_batch_scan : Map ℤ PlanNode → PlanNode → Bool
operator_consumes_batch_scan nodes node =
    any (λ i. subtree_has_batch_scan nodes i) (operator_child_indexes node)
