-- ===== src/PlanContract/Matching/Laws.antt =====
-- Exactly which operators the structural rules report.
use spanalyzer.Prelude.{
  List, [], ◌∷◌, ◌≡◌, ◌∙◌, ap, Bool, ◌&&◌, ◌||◌, if◌then◌else◌, ◌==◌, arith, contains, add_new, any,
  select, any-select, any-map, contains-add_new, Distinct, Distinct-add_new, Bool-cases, inl, inr,
  eq_of_beq, length, length-map, length-select, count_if,
}
use spanalyzer.Prelude.Int.{ℤ, int_eq}
use spanalyzer.Prelude.Order.{int_ord}
use spanalyzer.Prelude.Maps.{Map}
use spanalyzer.Prelude.Sorting.{
  sort, any-sort, sort-IsAscending, IsAscending, Distinct-sort, length-sort,
}
use spanalyzer.PlanContract.Report.{Operator, Query}
use spanalyzer.PlanContract.Matching.{
  indexes_where, scan_like_operator, limit_or_sort_limit_operator, operators_by_index, blocking_at,
  collect_blocking, collect_limits, blocking_operator_under_limit_indexes,
  full_scan_operator_indexes,
}

contains-indexes_where :
    (p : Operator → Bool) (operators : List Operator) (i : ℤ)
    → contains (indexes_where p operators) i ≡ any (λ o. p o && o.index == i) operators
contains-indexes_where p os i =
    any-map (λ j. j == i) (λ o. o.index) (select p os) ∙ any-select p (λ o. o.index == i) os

pub contains-sort-indexes_where :
    (p : Operator → Bool) (operators : List Operator) (i : ℤ)
    → contains (sort (indexes_where p operators)) i ≡ any (λ o. p o && o.index == i) operators
contains-sort-indexes_where p os i =
    any-sort (λ j. j == i) (indexes_where p os) ∙ contains-indexes_where p os i

pub length-sort-indexes_where :
    (p : Operator → Bool) (operators : List Operator)
    → length (sort (indexes_where p operators)) ≡ count_if p operators
length-sort-indexes_where p os =
    length-sort (indexes_where p os) ∙ length-map (λ o. o.index) (select p os) ∙ length-select p os

-- `no_full_scan` reports an index exactly if it is the index of a scan or filter scan that is full,
-- one entry for each such operator, in ascending order.
pub full_scan_operator_indexes_exact :
    (query : Query) (i : ℤ)
    → (contains (full_scan_operator_indexes query) i
        ≡ any
            (λ o. (scan_like_operator o && o.full_scan) && o.index == i)
            query.normalized_operators)
      × (length (full_scan_operator_indexes query)
          ≡ count_if (λ o. scan_like_operator o && o.full_scan) query.normalized_operators)
      × IsAscending (full_scan_operator_indexes query)
unfolding full_scan_operator_indexes
full_scan_operator_indexes_exact query i = (
  contains-sort-indexes_where (λ o. scan_like_operator o && o.full_scan) query.normalized_operators
      i,
  length-sort-indexes_where (λ o. scan_like_operator o && o.full_scan) query.normalized_operators,
  sort-IsAscending
      (indexes_where (λ o. scan_like_operator o && o.full_scan) query.normalized_operators),
)

module _ (by_index : Map ℤ Operator) (i : ℤ) where
  collect_blocking-step :
      (j : ℤ) (seen : List ℤ)
      → contains (if blocking_at by_index j then add_new seen j else seen) i
        ≡ (contains seen i || (blocking_at by_index i && j == i))
  collect_blocking-step j seen = elim (Bool-cases (j == i)) [
    | inl same ↦
        ground (arith, contains-add_new seen j i, ap (blocking_at by_index) (eq_of_beq j i same))
    | inr other ↦ ground (arith, contains-add_new seen j i)
  ]

  contains-collect_blocking :
      (is seen : List ℤ)
      → contains (collect_blocking by_index is seen) i
        ≡ (contains seen i || (blocking_at by_index i && contains is i))
  unfolding collect_blocking
  contains-collect_blocking [] seen = ground arith
  contains-collect_blocking (j ∷ is) seen =
      contains-collect_blocking is (if blocking_at by_index j then add_new seen j else seen)
      ∙ ground (arith, collect_blocking-step j seen)

  contains-collect_limits :
      (operators : List Operator) (seen : List ℤ)
      → contains (collect_limits by_index operators seen) i ≡ (
          contains seen i
          || (blocking_at by_index i
              && any
                  (λ o. limit_or_sort_limit_operator o && contains o.descendant_indexes i)
                  operators))
  unfolding collect_limits
  contains-collect_limits [] seen = ground arith
  contains-collect_limits (o ∷ os) seen =
      contains-collect_limits os (
        if limit_or_sort_limit_operator o
        then collect_blocking by_index o.descendant_indexes seen
        else seen)
      ∙ ground (arith, contains-collect_blocking o.descendant_indexes seen)

module _ (by_index : Map ℤ Operator) where
  Distinct-collect_blocking :
      (is seen : List ℤ) → Distinct seen → Distinct (collect_blocking by_index is seen)
  unfolding collect_blocking
  Distinct-collect_blocking [] seen d = d
  Distinct-collect_blocking (j ∷ is) seen d = elim (Bool-cases (blocking_at by_index j)) [
    | inl blocks ↦
        rw blocks (Distinct-collect_blocking is (add_new seen j) (Distinct-add_new seen j d))
    | inr passes ↦ rw passes (Distinct-collect_blocking is seen d)
  ]

  Distinct-collect_limits :
      (os : List Operator) (seen : List ℤ)
      → Distinct seen
      → Distinct (collect_limits by_index os seen)
  unfolding collect_limits
  Distinct-collect_limits [] seen d = d
  Distinct-collect_limits (o ∷ os) seen d = elim (Bool-cases (limit_or_sort_limit_operator o)) [
    | inl limits ↦ rw limits (
        Distinct-collect_limits os (collect_blocking by_index o.descendant_indexes seen)
          (Distinct-collect_blocking o.descendant_indexes seen d))
    | inr other ↦ rw other (Distinct-collect_limits os seen d)
  ]

-- `no_blocking_operator_under_limit` reports an index exactly if the operator of that index blocks
-- and stands among the descendants of some limit or sort limit; each index once, in ascending order.
pub blocking_operator_under_limit_indexes_exact :
    (query : Query) (i : ℤ)
    → (contains (blocking_operator_under_limit_indexes query) i ≡ (
        blocking_at (operators_by_index query) i
        && any
            (λ o. limit_or_sort_limit_operator o && contains o.descendant_indexes i)
            query.normalized_operators))
      × Distinct (blocking_operator_under_limit_indexes query)
      × IsAscending (blocking_operator_under_limit_indexes query)
unfolding blocking_operator_under_limit_indexes
blocking_operator_under_limit_indexes_exact query i =
    let by_index = operators_by_index query in
    let found = collect_limits by_index query.normalized_operators [] in
    (
      any-sort (λ j. j == i) found
          ∙ contains-collect_limits by_index i query.normalized_operators [],
      Distinct-sort found (Distinct-collect_limits by_index query.normalized_operators [] tt),
      sort-IsAscending found,
    )
