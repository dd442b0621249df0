-- ===== src/PlanContract/Families/Derived.antt =====
-- The two ways to count the umbrella families: while counting, and from the finished counts.
use text.Mathlib.TextEquality.{eq_iff}
use spanalyzer.Prelude.{
  String, List, [], ◌∷◌, ◌++◌, ℕ, ◌+◌, ◌≤◌, ◌≡◌, ◌≢◌, refl, Bool, true, false, ◌&&◌, not,
  if◌then◌else◌, ◌==◌, string_eq, arith, count_if, All, All-append, ltb,
}
use spanalyzer.Prelude.Order.{string_ord}
use spanalyzer.Prelude.Maps.{Map, insert}
use spanalyzer.Prelude.Sorting.{All-sort}
use spanalyzer.PlanContract.Report.{Operator}
use spanalyzer.PlanContract.Families.{
  stream_blocking_operator_family, blocking_operator, operator_matches_family,
  derived_operator_families_for_operator, zero_operator_family_counts, increment, increment_all,
  count_operator, count_operators, operator_family_counts, blocking_sum,
  add_derived_operator_family_counts,
}
use spanalyzer.PlanContract.Families.Laws.{
  count_of, operator_family_counts-count_if, count_of-insert, one_if, is_sort, blocking_umbrella,
}

-- The part of an operator's family in the sum of the blocking families.
abbrev sums : String → ℕ
sums f = if f == "blocking_operator" then 0 else if stream_blocking_operator_family f then 1 else 0

blocking_sum-increment :
    (m : Map String ℕ) (k : String) → blocking_sum (increment m k) ≡ blocking_sum m + sums k
unfolding blocking_sum increment
blocking_sum-increment [] k = ground arith
blocking_sum-increment ((j, n) ∷ m) k = ground (arith, blocking_sum-increment m k, eq_iff j k)

blocking_sum-increment_all :
    (m : Map String ℕ) (fs : List String)
    → All (λ f. sums f ≡ 0) fs
    → blocking_sum (increment_all m fs) ≡ blocking_sum m
unfolding increment_all
blocking_sum-increment_all m [] h = refl
blocking_sum-increment_all m (f ∷ fs) (h, hs) =
    ground (arith, blocking_sum-increment_all (increment m f) fs hs, blocking_sum-increment m f)

All-one_if : (P : String → Type 0) (b : Bool) (s : String) → P s → All P (one_if b s)
All-one_if P true s h = (h, tt)
All-one_if P false s h = tt

sums-derived : (o : Operator) → All (λ f. sums f ≡ 0) (derived_operator_families_for_operator o)
unfolding derived_operator_families_for_operator stream_blocking_operator_family
sums-derived o =
    let blocks = not (o.family == "blocking_operator") && blocking_operator o in
    All-sort (λ f. sums f ≡ 0)
      (one_if (is_sort o) "explicit_sort" ++ one_if blocks "blocking_operator")
      (All-append (λ f. sums f ≡ 0) (one_if (is_sort o) "explicit_sort")
        (one_if blocks "blocking_operator")
        (All-one_if (λ f. sums f ≡ 0) (is_sort o) "explicit_sort" refl)
        (All-one_if (λ f. sums f ≡ 0) blocks "blocking_operator" refl))

blocking_sum-count_operator :
    (m : Map String ℕ) (o : Operator)
    → blocking_sum (count_operator m o) ≤ blocking_sum m + (if blocking_operator o then 1 else 0)
unfolding count_operator blocking_operator
blocking_sum-count_operator m o = ground (
  arith,
  blocking_sum-increment_all (increment m o.family) (derived_operator_families_for_operator o)
      (sums-derived o),
  blocking_sum-increment m o.family,
)

blocking_sum-count_operators :
    (m : Map String ℕ) (os : List Operator)
    → blocking_sum (count_operators m os) ≤ blocking_sum m + count_if blocking_operator os
unfolding count_operators
blocking_sum-count_operators m [] = omega arith
blocking_sum-count_operators m (o ∷ os) =
    ground
      (arith, blocking_sum-count_operators (count_operator m o) os, blocking_sum-count_operator m o)

blocking_sum-insert :
    (m : Map String ℕ) (k : String) (n : ℕ)
    → sums k ≡ 0
    → blocking_sum (insert k n m) ≡ blocking_sum m
unfolding blocking_sum
blocking_sum-insert [] k n h = ground arith
blocking_sum-insert ((j, w) ∷ m) k n h = ground (arith, blocking_sum-insert m k n h, eq_iff j k)

sums_explicit_sort : sums "explicit_sort" ≡ 0
unfolding stream_blocking_operator_family
sums_explicit_sort = refl

zero_blocking_sum : blocking_sum zero_operator_family_counts ≡ 0
unfolding blocking_sum zero_operator_family_counts stream_blocking_operator_family
zero_blocking_sum = refl

-- No operator carries the family of an umbrella, which only counts.
abbrev pub IsConcrete : Operator → Type 0
IsConcrete o = (o.family ≢ "explicit_sort") × (o.family ≢ "blocking_operator")

count_if-explicit_sort :
    (os : List Operator)
    → All IsConcrete os
    → count_if (λ o. operator_matches_family o "explicit_sort") os
      ≡ count_if (λ o. operator_matches_family o "full_sort") os
        + count_if (λ o. operator_matches_family o "minor_sort") os
unfolding operator_matches_family
count_if-explicit_sort [] h = omega arith
count_if-explicit_sort (o ∷ os) (h, hs) = ground (
  arith,
  count_if-explicit_sort os hs,
  eq_iff o.family "explicit_sort",
  eq_iff o.family "full_sort",
  eq_iff o.family "minor_sort",
  eq_iff "full_sort" "minor_sort",
)

count_if-blocking :
    (os : List Operator)
    → count_if (λ o. operator_matches_family o "blocking_operator") os
      ≡ count_if blocking_operator os
unfolding operator_matches_family
count_if-blocking [] = refl
count_if-blocking (o ∷ os) =
    ground (arith, count_if-blocking os, eq_iff o.family "blocking_operator", blocking_umbrella o)

module _ (os : List Operator) where
  counts_explicit_sort :
      All IsConcrete os
      → count_of "full_sort" (operator_family_counts os)
          + count_of "minor_sort" (operator_family_counts os)
        ≡ count_of "explicit_sort" (operator_family_counts os)
  counts_explicit_sort h = omega (
    arith,
    operator_family_counts-count_if os "full_sort" (ground (arith, eq_iff "full_sort" "")),
    operator_family_counts-count_if os "minor_sort" (ground (arith, eq_iff "minor_sort" "")),
    operator_family_counts-count_if os "explicit_sort" (ground (arith, eq_iff "explicit_sort" "")),
    count_if-explicit_sort os h,
  )

  counts_blocking :
      blocking_sum (operator_family_counts os)
      ≤ count_of "blocking_operator" (operator_family_counts os)
  unfolding operator_family_counts
  counts_blocking =
      let none_yet : blocking_sum zero_operator_family_counts ≡ 0 = zero_blocking_sum in
      omega (
        arith,
        none_yet,
        blocking_sum-count_operators zero_operator_family_counts os,
        operator_family_counts-count_if os "blocking_operator"
            (ground (arith, eq_iff "blocking_operator" "")),
        count_if-blocking os,
      )

-- `AddDerivedOperatorFamilyCounts` changes no count that `OperatorFamilyCounts` records, for
-- operators of concrete families: the two ways to count the umbrella families agree, also where a
-- scalar stream aggregate blocks.
pub add_derived-operator_family_counts :
    (operators : List Operator) (family : String)
    → All IsConcrete operators
    → count_of family (add_derived_operator_family_counts (operator_family_counts operators))
      ≡ count_of family (operator_family_counts operators)
unfolding add_derived_operator_family_counts
add_derived-operator_family_counts os f h =
    let m = operator_family_counts os in
    let explicit = count_of "full_sort" m + count_of "minor_sort" m in
    let m' = insert "explicit_sort" explicit m in
    let meta = count_of "blocking_operator" m' in
    let total = if ltb (blocking_sum m') meta then meta else blocking_sum m' in
    ground (
      arith,
      counts_explicit_sort os h,
      counts_blocking os,
      count_of-insert "explicit_sort" f explicit m,
      count_of-insert "explicit_sort" "blocking_operator" explicit m,
      count_of-insert "blocking_operator" f total m',
      eq_iff "explicit_sort" f,
      eq_iff "blocking_operator" f,
      blocking_sum-insert m "explicit_sort" explicit sums_explicit_sort,
    )
