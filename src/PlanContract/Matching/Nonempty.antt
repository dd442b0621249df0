-- ===== src/PlanContract/Matching/Nonempty.antt =====
-- When the lists of matched operators are not empty.
use spanalyzer.Prelude.{
  List, [], ◌∷◌, ◌≡◌, ◌∙◌, Bool, ◌&&◌, ◌||◌, not, string_eq, arith, contains, any, nonempty,
  nonempty-select, nonempty-map, nonempty-add_new, add_new, Option-cases, Bool-cases, inl, inr,
}
use spanalyzer.Prelude.Int.{ℤ, int_eq}
use spanalyzer.Prelude.Order.{int_ord}
use spanalyzer.Prelude.Maps.{Map, lookup}
use spanalyzer.Prelude.Sorting.{sort, nonempty-sort}
use spanalyzer.PlanContract.Report.{Operator, OperatorEdge, Query}
use spanalyzer.PlanContract.Matching.{
  indexes_where, scan_like_operator, limit_or_sort_limit_operator, operators_by_index, blocking_at,
  collect_blocking, collect_limits, blocking_operator_under_limit_indexes,
  full_scan_operator_indexes, TimestampSets, timestamp_parent, own_scan, timestamp_edge,
  timestamp_edges, is_timestamp_edge, timestamp_condition_indexes,
  timestamp_condition_operator_indexes, full_scan_without_timestamp_condition_operator_indexes,
}
use spanalyzer.PlanContract.Matching.Timestamps.{scan_like_at}

-- When each rule is violated, by the operators and edges of the query.
module _ (query : Query) where
  abbrev pub some_full_scan : Bool
  some_full_scan = any (λ o. scan_like_operator o && o.full_scan) query.normalized_operators

  abbrev pub some_bare_full_scan : Bool
  some_bare_full_scan =
      any
        (λ o.
          scan_like_operator o
          && o.full_scan
          && not (contains (timestamp_condition_indexes query).scans o.index))
        query.normalized_operators

  abbrev pub some_blocking_under_limit : Bool
  some_blocking_under_limit =
      any
        (λ o.
          limit_or_sort_limit_operator o
          && any (blocking_at (operators_by_index query)) o.descendant_indexes)
        query.normalized_operators

  abbrev pub some_timestamp_condition : Bool
  some_timestamp_condition =
      any
        (λ edge.
          is_timestamp_edge edge && scan_like_at (operators_by_index query) edge.parent_index)
        query.operator_edges

nonempty-indexes_where :
    (p : Operator → Bool) (os : List Operator) → nonempty (sort (indexes_where p os)) ≡ any p os
nonempty-indexes_where p os =
    nonempty-sort (indexes_where p os) ∙ nonempty-map (λ o. o.index) _ ∙ nonempty-select p os

pub nonempty-full_scan :
    (query : Query) → nonempty (full_scan_operator_indexes query) ≡ some_full_scan query
unfolding full_scan_operator_indexes
nonempty-full_scan query =
    nonempty-indexes_where (λ o. scan_like_operator o && o.full_scan) query.normalized_operators

pub nonempty-bare_full_scan :
    (query : Query)
    → nonempty (full_scan_without_timestamp_condition_operator_indexes query)
      ≡ some_bare_full_scan query
unfolding full_scan_without_timestamp_condition_operator_indexes
nonempty-bare_full_scan query =
    nonempty-indexes_where
      (λ o.
        scan_like_operator o
        && o.full_scan
        && not (contains (timestamp_condition_indexes query).scans o.index))
      query.normalized_operators

module _ (by_index : Map ℤ Operator) where
  nonempty-collect_blocking :
      (is seen : List ℤ)
      → nonempty (collect_blocking by_index is seen)
        ≡ (nonempty seen || any (blocking_at by_index) is)
  unfolding collect_blocking
  nonempty-collect_blocking [] seen = ground arith
  nonempty-collect_blocking (i ∷ is) seen = elim (Bool-cases (blocking_at by_index i)) [
    | inl blocks ↦
        ground (arith, nonempty-collect_blocking is (add_new seen i), nonempty-add_new seen i)
    | inr other ↦ ground (arith, nonempty-collect_blocking is seen)
  ]

  nonempty-collect_limits :
      (os : List Operator) (seen : List ℤ)
      → nonempty (collect_limits by_index os seen) ≡ (
          nonempty seen
          || any
              (λ o.
                limit_or_sort_limit_operator o && any (blocking_at by_index) o.descendant_indexes)
              os)
  unfolding collect_limits
  nonempty-collect_limits [] seen = ground arith
  nonempty-collect_limits (o ∷ os) seen = elim (Bool-cases (limit_or_sort_limit_operator o)) [
    | inl limits ↦ ground (
      arith,
      nonempty-collect_limits os (collect_blocking by_index o.descendant_indexes seen),
      nonempty-collect_blocking o.descendant_indexes seen,
    )
    | inr other ↦ ground (arith, nonempty-collect_limits os seen)
  ]

  nonempty-owners_edge :
      (edge : OperatorEdge) (sets : TimestampSets)
      → nonempty (timestamp_edge by_index edge sets).owners ≡ (
          nonempty sets.owners
          || (is_timestamp_edge edge && scan_like_at by_index edge.parent_index))
  unfolding timestamp_edge timestamp_parent own_scan scan_like_operator
  nonempty-owners_edge edge sets = elim (Option-cases (lookup edge.parent_index by_index)) [
    | inl missing ↦ ground arith
    | inr (parent, found) ↦ ground (arith, nonempty-add_new sets.owners parent.index)
  ]

  nonempty-owners_edges :
      (edges : List OperatorEdge) (sets : TimestampSets)
      → nonempty (timestamp_edges by_index edges sets).owners ≡ (
          nonempty sets.owners
          || any (λ edge. is_timestamp_edge edge && scan_like_at by_index edge.parent_index) edges)
  unfolding timestamp_edges
  nonempty-owners_edges [] sets = ground arith
  nonempty-owners_edges (edge ∷ edges) sets = ground (
    arith,
    nonempty-owners_edges edges (timestamp_edge by_index edge sets),
    nonempty-owners_edge edge sets,
  )

pub nonempty-blocking_under_limit :
    (query : Query)
    → nonempty (blocking_operator_under_limit_indexes query) ≡ some_blocking_under_limit query
unfolding blocking_operator_under_limit_indexes
nonempty-blocking_under_limit query =
    nonempty-sort (collect_limits (operators_by_index query) query.normalized_operators [])
    ∙ nonempty-collect_limits (operators_by_index query) query.normalized_operators []

pub nonempty-timestamp_condition :
    (query : Query)
    → nonempty (timestamp_condition_operator_indexes query) ≡ some_timestamp_condition query
unfolding timestamp_condition_operator_indexes timestamp_condition_indexes
nonempty-timestamp_condition query =
    nonempty-sort _
    ∙ nonempty-owners_edges (operators_by_index query) query.operator_edges
        (record { owners = []; scans = [] })
