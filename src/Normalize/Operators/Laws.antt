-- ===== src/Normalize/Operators/Laws.antt =====
-- The normalized operators of a plan: their families and their order.
use text.Mathlib.TextEquality.{eq_iff}
use spanalyzer.Prelude.{
  String, List, [], ◌∷◌, ◌≡◌, ◌≢◌, refl, sym, ◌∙◌, subst, Bool, true, false, Option, none, some,
  map, ◌==◌, string_eq, arith, All, Bool-cases, Option-cases, inl, inr, count_if, if◌then◌else◌,
}
use spanalyzer.Prelude.Int.{ℤ, int_eq}
use spanalyzer.Prelude.Order.{int_ord, le}
use spanalyzer.Prelude.Maps.{Map, lookup, insert, lookup_or, lookup-insert}
use spanalyzer.Prelude.Sorting.{IsSorted, sort_by-IsSorted, count_if-sort_by}
use spanalyzer.Prelude.Switch.{false_ne_true}
use spanalyzer.PlanContract.Plan.{PlanNode, QueryPlan}
use spanalyzer.PlanContract.Report.{Operator}
use spanalyzer.PlanContract.Families.{
  concrete_operator_families, operator_family_counts, add_derived_operator_family_counts,
}
use spanalyzer.PlanContract.Families.Laws.{count_of}
use spanalyzer.PlanContract.Families.Derived.{IsConcrete, add_derived-operator_family_counts}
use spanalyzer.Normalize.Classify.{
  node_operator_family, no_context, operator_metadata_string, node_metadata_bool,
}
use spanalyzer.Normalize.Classify.Laws.{Concrete, node_operator_family-Concrete}
use spanalyzer.Normalize.Walk.{index_nodes, children_by_index, operator_child_indexes}
use spanalyzer.Normalize.Operators.{
  sorted_plan_nodes, family_by_index, normalize_node, normalize_operators, operator_contexts,
  scalar_aggregate_by_index,
}

-- What holds of every value of a map, and of the default, holds of a lookup.
abbrev AllValues : {A : Type 0} → (A → Type 0) → Map ℤ A → Type 0
AllValues {A = A} P m = (i : ℤ) (a : A) → lookup i m ≡ some a → P a

some_injective : {A : Type 0} (x y : A) → ◌≡◌ {A = Option A} (some x) (some y) → x ≡ y
some_injective x y e = cc

module _ {A : Type 0} (P : A → Type 0) where
  insert-AllValues :
      (k : ℤ) (v : A) (m : Map ℤ A) → P v → AllValues P m → AllValues P (insert k v m)
  insert-AllValues k v m h all i a e =
      let found : lookup i (insert k v m) ≡ (if k == i then some v else lookup i m) =
        lookup-insert k i v m in
      elim (Bool-cases (k == i)) [
        | inl same ↦ subst P (some_injective v a (sym (rw same at found) ∙ e)) h
        | inr other ↦ all i a (ground (arith, lookup-insert k i v m))
      ]

  index_nodes-AllValues :
      (f : PlanNode → A) (nodes : List PlanNode) (m : Map ℤ A)
      → ((node : PlanNode) → P (f node))
      → AllValues P m
      → AllValues P (index_nodes f nodes m)
  unfolding index_nodes
  index_nodes-AllValues f [] m h all = all
  index_nodes-AllValues f (node ∷ nodes) m h all =
      index_nodes-AllValues f nodes (insert node.index (f node) m) h
        (insert-AllValues node.index (f node) m (h node) all)

  lookup_or-AllValues : (d : A) (i : ℤ) (m : Map ℤ A) → P d → AllValues P m → P (lookup_or d i m)
  lookup_or-AllValues d i m h all = elim (Option-cases (lookup i m)) [
    | inl missing ↦ rw (missing, lookup_or) h
    | inr (a, found) ↦ rw (found, lookup_or) (all i a found)
  ]

-- Not the family of an umbrella.
abbrev NotUmbrella : String → Type 0
NotUmbrella family = (family ≢ "explicit_sort") × (family ≢ "blocking_operator")

Concrete-NotUmbrella : (family : String) → Concrete family → NotUmbrella family
unfolding concrete_operator_families
Concrete-NotUmbrella family h = ((λ e. false_ne_true (rw e at h)), (λ e. false_ne_true (rw e at h)))

blank_not_umbrella : (family : String) → ("" == family) ≡ false → "" ≢ family
blank_not_umbrella family h e = ground (arith, eq_iff "" family)

normalize_nodes-IsConcrete :
    (children : Map ℤ (List ℤ)) (families : Map ℤ String) (scalars : Map ℤ Bool)
    (nodes : List PlanNode)
    → AllValues NotUmbrella families
    → All IsConcrete (map (λ node. normalize_node children families scalars node) nodes)
unfolding normalize_node
normalize_nodes-IsConcrete children families scalars [] h = tt
normalize_nodes-IsConcrete children families scalars (node ∷ nodes) h = (
  lookup_or-AllValues NotUmbrella "" node.index families
      (
        (λ e. blank_not_umbrella "explicit_sort" refl e),
        (λ e. blank_not_umbrella "blocking_operator" refl e),
      )
      h,
  normalize_nodes-IsConcrete children families scalars nodes h,
)

normalize_operators-IsConcrete :
    (plan : Option QueryPlan) → All IsConcrete (normalize_operators plan)
unfolding normalize_operators family_by_index
normalize_operators-IsConcrete none = tt
normalize_operators-IsConcrete (some plan) =
    let nodes = sorted_plan_nodes plan in
    let contexts = operator_contexts plan in
    normalize_nodes-IsConcrete (children_by_index plan) (family_by_index contexts nodes)
      (scalar_aggregate_by_index nodes) nodes
      (index_nodes-AllValues NotUmbrella
        (λ node. node_operator_family node (lookup_or no_context node.index contexts)) nodes []
        (λ node.
          Concrete-NotUmbrella
            (node_operator_family node (lookup_or no_context node.index contexts))
            (node_operator_family-Concrete node (lookup_or no_context node.index contexts)))
        (λ i a e. cc))

-- The counts over the operators that `NormalizeOperators` gives already hold the umbrella families, so
-- that `AddDerivedOperatorFamilyCounts` changes no count of them.
pub normalize_operators-derived_counts :
    (plan : Option QueryPlan) (family : String)
    → count_of family
        (add_derived_operator_family_counts (operator_family_counts (normalize_operators plan)))
      ≡ count_of family (operator_family_counts (normalize_operators plan))
normalize_operators-derived_counts plan family =
    add_derived-operator_family_counts (normalize_operators plan) family
      (normalize_operators-IsConcrete plan)

below_map :
    (f : PlanNode → Operator) (node : PlanNode) (nodes : List PlanNode)
    → ((node : PlanNode) → (f node).index ≡ node.index)
    → All (λ other. le node.index other.index ≡ true) nodes
    → All (λ o. le (f node).index o.index ≡ true) (map f nodes)
below_map f node [] h all = tt
below_map f node (other ∷ nodes) h (one, all) =
    (rw (h node, h other) one, below_map f node nodes h all)

map-IsSorted :
    (f : PlanNode → Operator) (nodes : List PlanNode)
    → ((node : PlanNode) → (f node).index ≡ node.index)
    → IsSorted (λ node. node.index) nodes
    → IsSorted (λ o. o.index) (map f nodes)
map-IsSorted f [] h s = tt
map-IsSorted f (node ∷ nodes) h (below, s) =
    (below_map f node nodes h below, map-IsSorted f nodes h s)

count_if-map :
    {A B : Type 0} (f : A → B) (p : B → Bool) (xs : List A)
    → count_if p (map f xs) ≡ count_if (λ x. p (f x)) xs
count_if-map f p [] = refl
count_if-map f p (x ∷ xs) = ground (arith, count_if-map f p xs)

-- What an operator takes over from its node: its place, its name and what its metadata say.
abbrev pub Taken : Type 0
Taken = ℤ × String × String × String × Bool × List ℤ

abbrev pub taken_from_node : PlanNode → Taken
taken_from_node node = (
  node.index,
  node.display_name,
  operator_metadata_string node "iterator_type",
  operator_metadata_string node "scan_method",
  node_metadata_bool node "Full scan",
  operator_child_indexes node,
)

abbrev pub taken_by : Operator → Taken
taken_by o = (o.index, o.display_name, o.iterator_type, o.scan_method, o.full_scan, o.child_indexes)

-- The normalized operators are in ascending order of their indexes, and they are the nodes of the
-- plan, each as often as it stands there: whatever is asked of index, name, iterator type, scan
-- method, full scan and children, as many operators answer it as nodes do.
pub normalize_operators-IsSorted :
    (plan : QueryPlan)
    → IsSorted (λ o. o.index) (normalize_operators (some plan))
      × ((asked : Taken → Bool)
          → count_if (λ o. asked (taken_by o)) (normalize_operators (some plan))
            ≡ count_if (λ node. asked (taken_from_node node)) plan.plan_nodes)
unfolding normalize_operators normalize_node sorted_plan_nodes
normalize_operators-IsSorted plan = (
  map-IsSorted _ (sorted_plan_nodes plan) (λ node. refl)
      (sort_by-IsSorted (λ node. node.index) plan.plan_nodes),
  λ asked.
      count_if-map _ (λ o. asked (taken_by o)) (sorted_plan_nodes plan)
      ∙ count_if-sort_by (λ node. node.index) (λ node. asked (taken_from_node node))
          plan.plan_nodes,
)
