-- ===== src/PlanContract/Matching/Timestamps.antt =====
-- Which scans a Timestamp Condition protects.
use spanalyzer.Prelude.{
  List, [], ◌∷◌, ◌≡◌, ◌∙◌, ap, Bool, true, false, ◌&&◌, ◌||◌, not, none, some, ◌==◌, string_eq,
  arith, contains, add_new, any, select, contains-add_new, any-witness, any_mono, Bool-cases,
  Option-cases, inl, inr, eq_of_beq, beq_refl, sym,
}
use spanalyzer.Prelude.Int.{ℤ, int_eq}
use spanalyzer.Prelude.Order.{int_ord}
use spanalyzer.Prelude.Maps.{Map, lookup, insert, lookup-insert}
use spanalyzer.Prelude.Sorting.{any-sort, sort-IsAscending, IsAscending}
use spanalyzer.PlanContract.Report.{Operator, OperatorEdge, Query}
use spanalyzer.PlanContract.Matching.{
  scan_like_operator, index_operators, operators_by_index, TimestampSets, timestamp_parent,
  is_timestamp_edge, timestamp_edge, timestamp_edges, timestamp_condition_indexes,
  timestamp_condition_operator_indexes, full_scan_without_timestamp_condition_operator_indexes,
  full_scan_operator_indexes, child_is_scan, add_single, own_scan,
}
use spanalyzer.PlanContract.Matching.Laws.{contains-sort-indexes_where}

-- An operator that a map holds stands at its own index.
abbrev IsIndexed : Map ℤ Operator → Type 0
IsIndexed m = (i : ℤ) (o : Operator) → lookup i m ≡ some o → o.index ≡ i

insert-IsIndexed :
    (m : Map ℤ Operator) (o : Operator) → IsIndexed m → IsIndexed (insert o.index o m)
insert-IsIndexed m o h i p e = elim (Bool-cases (o.index == i)) [
  | inl same ↦ ground (arith, lookup-insert o.index i o m, eq_of_beq o.index i same)
  | inr other ↦ h i p (ground (arith, lookup-insert o.index i o m))
]

index_operators-IsIndexed :
    (os : List Operator) (m : Map ℤ Operator) → IsIndexed m → IsIndexed (index_operators os m)
unfolding index_operators
index_operators-IsIndexed [] m h = h
index_operators-IsIndexed (o ∷ os) m h =
    index_operators-IsIndexed os (insert o.index o m) (insert-IsIndexed m o h)

operators_by_index-IsIndexed : (query : Query) → IsIndexed (operators_by_index query)
unfolding operators_by_index
operators_by_index-IsIndexed query =
    index_operators-IsIndexed query.normalized_operators [] (λ i o e. cc)

-- A scan-like operator of the report at an index.
abbrev pub scan_like_at : Map ℤ Operator → ℤ → Bool
scan_like_at by_index i = elim (lookup i by_index) [ none ↦ false | some o ↦ scan_like_operator o ]

module _ (by_index : Map ℤ Operator) (indexed : IsIndexed by_index) (i : ℤ) where
  owners-parent :
      (parent : Operator) (sets : TimestampSets)
      → contains (timestamp_parent by_index parent sets).owners i
        ≡ (contains sets.owners i || (scan_like_operator parent && parent.index == i))
  unfolding timestamp_parent scan_like_operator own_scan
  owners-parent parent sets = ground (arith, contains-add_new sets.owners parent.index i)

  owners-edge :
      (edge : OperatorEdge) (sets : TimestampSets)
      → contains (timestamp_edge by_index edge sets).owners i ≡ (
          contains sets.owners i
          || (scan_like_at by_index i && (is_timestamp_edge edge && edge.parent_index == i)))
  unfolding timestamp_edge
  owners-edge edge sets = elim (Option-cases (lookup edge.parent_index by_index)) [
    | inl missing ↦ elim (Bool-cases (edge.parent_index == i)) [
      | inl same ↦ ground (arith, ap (λ j. lookup j by_index) (eq_of_beq edge.parent_index i same))
      | inr other ↦ ground arith
    ]
    | inr (parent, found) ↦ elim (Bool-cases (edge.parent_index == i)) [
      | inl same ↦ ground (
        arith,
        owners-parent parent sets,
        indexed edge.parent_index parent found,
        ap (λ j. lookup j by_index) (eq_of_beq edge.parent_index i same),
        beq_refl i,
      )
      | inr other ↦
          ground (arith, owners-parent parent sets, indexed edge.parent_index parent found)
    ]
  ]

  owners-edges :
      (edges : List OperatorEdge) (sets : TimestampSets)
      → contains (timestamp_edges by_index edges sets).owners i ≡ (
          contains sets.owners i
          || (scan_like_at by_index i
              && any (λ edge. is_timestamp_edge edge && edge.parent_index == i) edges))
  unfolding timestamp_edges
  owners-edges [] sets = ground arith
  owners-edges (edge ∷ edges) sets =
      owners-edges edges (timestamp_edge by_index edge sets) ∙ ground (arith, owners-edge edge sets)

  -- What owns a condition is protected by it.
  abbrev OwnersAreScans : TimestampSets → Type 0
  OwnersAreScans sets = contains sets.owners i ≡ true → contains sets.scans i ≡ true

  add_single_mono :
      (direct scans : List ℤ)
      → contains scans i ≡ true
      → contains (add_single direct scans) i ≡ true
  unfolding add_single
  add_single_mono [] scans h = h
  add_single_mono (j ∷ []) scans h = ground (arith, contains-add_new scans j i)
  add_single_mono (j ∷ k ∷ js) scans h = h

  OwnersAreScans-parent :
      (parent : Operator) (sets : TimestampSets)
      → OwnersAreScans sets
      → OwnersAreScans (timestamp_parent by_index parent sets)
  unfolding timestamp_parent own_scan
  OwnersAreScans-parent parent sets h k = ground (
    arith,
    contains-add_new sets.owners parent.index i,
    contains-add_new sets.scans parent.index i,
    add_single_mono (select (child_is_scan by_index) parent.child_indexes)
        (add_new sets.scans parent.index),
  )

  OwnersAreScans-edge :
      (edge : OperatorEdge) (sets : TimestampSets)
      → OwnersAreScans sets
      → OwnersAreScans (timestamp_edge by_index edge sets)
  unfolding timestamp_edge
  OwnersAreScans-edge edge sets h k = elim (Option-cases (lookup edge.parent_index by_index)) [
    | inl missing ↦ ground (arith, h)
    | inr (parent, found) ↦ ground (arith, h, OwnersAreScans-parent parent sets h)
  ]

  OwnersAreScans-edges :
      (edges : List OperatorEdge) (sets : TimestampSets)
      → OwnersAreScans sets
      → OwnersAreScans (timestamp_edges by_index edges sets)
  unfolding timestamp_edges
  OwnersAreScans-edges [] sets h = h
  OwnersAreScans-edges (edge ∷ edges) sets h =
      OwnersAreScans-edges edges (timestamp_edge by_index edge sets)
        (OwnersAreScans-edge edge sets h)

-- `require_timestamp_condition` reports an index exactly if the operator of that index is a scan or
-- a filter scan and owns an edge whose type is, up to case and outer blanks, Timestamp Condition.
pub timestamp_condition_operator_indexes_exact :
    (query : Query) (i : ℤ)
    → (contains (timestamp_condition_operator_indexes query) i ≡ (
        scan_like_at (operators_by_index query) i
        && any (λ edge. is_timestamp_edge edge && edge.parent_index == i) query.operator_edges))
      × IsAscending (timestamp_condition_operator_indexes query)
unfolding timestamp_condition_operator_indexes timestamp_condition_indexes
timestamp_condition_operator_indexes_exact query i =
    let start : TimestampSets = record { owners = []; scans = [] } in
    let by_index = operators_by_index query in
    let sets = timestamp_edges by_index query.operator_edges start in
    (
      any-sort (λ j. j == i) sets.owners
          ∙ owners-edges by_index (operators_by_index-IsIndexed query) i query.operator_edges start,
      sort-IsAscending sets.owners,
    )

not_owner :
    (query : Query) (i : ℤ)
    → contains (timestamp_condition_indexes query).scans i ≡ false
    → contains (timestamp_condition_operator_indexes query) i ≡ false
unfolding timestamp_condition_operator_indexes timestamp_condition_indexes
not_owner query i h =
    let start : TimestampSets = record { owners = []; scans = [] } in
    let by_index = operators_by_index query in
    let sets = timestamp_edges by_index query.operator_edges start in
    any-sort (λ j. j == i) sets.owners
    ∙ ground (
      arith,
      OwnersAreScans-edges by_index (operators_by_index-IsIndexed query) i query.operator_edges
          start (λ e. cc),
    )

-- `no_full_scan_without_timestamp_condition` never reports a scan that `no_full_scan` does not
-- report, nor one that owns a timestamp condition.
pub full_scan_without_timestamp_sound :
    (query : Query) (i : ℤ)
    → contains (full_scan_without_timestamp_condition_operator_indexes query) i ≡ true
    → (contains (full_scan_operator_indexes query) i ≡ true)
      × (contains (timestamp_condition_operator_indexes query) i ≡ false)
unfolding full_scan_without_timestamp_condition_operator_indexes full_scan_operator_indexes
full_scan_without_timestamp_sound query i h =
    let start : TimestampSets = record { owners = []; scans = [] } in
    let by_index = operators_by_index query in
    let scans = (timestamp_condition_indexes query).scans in
    let full = λ (o : Operator). scan_like_operator o && o.full_scan in
    let bare =
      λ (o : Operator). scan_like_operator o && o.full_scan && not (contains scans o.index) in
    let os = query.normalized_operators in
    let found = sym (contains-sort-indexes_where bare os i) ∙ h in
    let (o, hit) = any-witness (λ o. bare o && o.index == i) os found in
    (
      contains-sort-indexes_where full os i
          ∙ any_mono (λ o. bare o && o.index == i) (λ o. full o && o.index == i) os
              (λ o k. ground arith) found,
      not_owner query i (ground (arith, eq_of_beq o.index i)),
    )
