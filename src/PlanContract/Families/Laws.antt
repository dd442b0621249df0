-- ===== src/PlanContract/Families/Laws.antt =====
-- The counts of operator families, against the operators that they count.
use text.Mathlib.TextEquality.{eq_iff}
use spanalyzer.Prelude.{
  String, List, [], ◌∷◌, ◌++◌, ℕ, ◌+◌, ◌≡◌, ◌≢◌, refl, ◌∙◌, Bool, true, ◌&&◌, ◌||◌, not,
  if◌then◌else◌, ◌==◌, string_eq, arith, count_if, count_if-append, Bool-cases, inl, inr,
}
use spanalyzer.Prelude.Order.{string_ord}
use spanalyzer.Prelude.Maps.{Map, lookup_or, insert, lookup-insert}
use spanalyzer.Prelude.Sorting.{count_if-sort}
use spanalyzer.PlanContract.Report.{Operator}
use spanalyzer.PlanContract.Families.{
  known_operator_families, stream_blocking_operator_family, blocking_operator,
  operator_matches_family, derived_operator_families_for_operator, zero_counts,
  zero_operator_family_counts, increment, increment_all, count_operator, count_operators,
  operator_family_counts,
}

abbrev pub count_of : String → Map String ℕ → ℕ
count_of family counts = lookup_or 0 family counts

pub count_of-insert :
    (k f : String) (n : ℕ) (m : Map String ℕ)
    → count_of f (insert k n m) ≡ (if k == f then n else count_of f m)
count_of-insert k f n m = ground (arith, lookup-insert k f n m)

abbrev pub occurrences : String → List String → ℕ
occurrences f fs = count_if (λ g. g == f) fs

count_of-increment :
    (m : Map String ℕ) (k f : String)
    → count_of f (increment m k) ≡ count_of f m + (if k == f then 1 else 0)
unfolding increment
count_of-increment m k f = ground (arith, count_of-insert k f (count_of k m + 1) m, eq_iff k f)

count_of-increment_all :
    (m : Map String ℕ) (fs : List String) (f : String)
    → count_of f (increment_all m fs) ≡ count_of f m + occurrences f fs
unfolding increment_all
count_of-increment_all m [] f = omega arith
count_of-increment_all m (k ∷ fs) f =
    ground (arith, count_of-increment_all (increment m k) fs f, count_of-increment m k f)

-- What the derived families of an operator are: the umbrellas that it matches beside its own.
abbrev pub is_sort : Operator → Bool
is_sort o = o.family == "full_sort" || o.family == "minor_sort"

abbrev pub one_if : Bool → String → List String
one_if b s = if b then s ∷ [] else []

occurrences-one_if :
    (b : Bool) (s f : String) → occurrences f (one_if b s) ≡ (if b && s == f then 1 else 0)
occurrences-one_if b s f = ground arith

occurrences-derived :
    (o : Operator) (f : String)
    → occurrences f (derived_operator_families_for_operator o)
      ≡ (if is_sort o && "explicit_sort" == f then 1 else 0)
        + (if not (o.family == "blocking_operator")
              && blocking_operator o
              && "blocking_operator" == f
            then 1
            else 0)
unfolding derived_operator_families_for_operator
occurrences-derived o f =
    let blocks = not (o.family == "blocking_operator") && blocking_operator o in
    count_if-sort (λ g. g == f)
      (one_if (is_sort o) "explicit_sort" ++ one_if blocks "blocking_operator")
    ∙ count_if-append (λ g. g == f) (one_if (is_sort o) "explicit_sort")
        (one_if blocks "blocking_operator")
    ∙ ground (
      arith,
      occurrences-one_if (is_sort o) "explicit_sort" f,
      occurrences-one_if blocks "blocking_operator" f,
    )

pub blocking_umbrella : (o : Operator) → o.family ≡ "blocking_operator" → blocking_operator o ≡ true
unfolding blocking_operator stream_blocking_operator_family
blocking_umbrella o h = rw h refl

matches-parts :
    (o : Operator) (f : String)
    → (if operator_matches_family o f then 1 else 0)
      ≡ (if o.family == f then 1 else 0)
        + ((if is_sort o && "explicit_sort" == f then 1 else 0)
            + (if not (o.family == "blocking_operator")
                  && blocking_operator o
                  && "blocking_operator" == f
                then 1
                else 0))
unfolding operator_matches_family
matches-parts o f = ground (
  arith,
  eq_iff o.family f,
  eq_iff f "explicit_sort",
  eq_iff "explicit_sort" f,
  eq_iff f "blocking_operator",
  eq_iff "blocking_operator" f,
  eq_iff o.family "full_sort",
  eq_iff o.family "minor_sort",
  eq_iff o.family "blocking_operator",
  eq_iff "explicit_sort" "full_sort",
  eq_iff "explicit_sort" "minor_sort",
  eq_iff "explicit_sort" "blocking_operator",
  blocking_umbrella o,
)

-- One operator counts once for a family that it matches.
count_of-count_operator :
    (m : Map String ℕ) (o : Operator) (f : String)
    → o.family ≢ ""
    → count_of f (count_operator m o)
      ≡ count_of f m + (if operator_matches_family o f then 1 else 0)
unfolding count_operator
count_of-count_operator m o f h = ground (
  arith,
  eq_iff o.family "",
  count_of-increment_all (increment m o.family) (derived_operator_families_for_operator o) f,
  count_of-increment m o.family f,
  occurrences-derived o f,
  matches-parts o f,
)

count_of-blank :
    (m : Map String ℕ) (o : Operator) (f : String)
    → o.family ≡ ""
    → f ≢ ""
    → count_of f (count_operator m o)
      ≡ count_of f m + (if operator_matches_family o f then 1 else 0)
unfolding count_operator operator_matches_family blocking_operator stream_blocking_operator_family
count_of-blank m o f h k =
    rw h (ground (arith, eq_iff "" f, eq_iff f "explicit_sort", eq_iff f "blocking_operator"))

count_of-count_operators :
    (m : Map String ℕ) (os : List Operator) (f : String)
    → f ≢ ""
    → count_of f (count_operators m os)
      ≡ count_of f m + count_if (λ o. operator_matches_family o f) os
unfolding count_operators
count_of-count_operators m [] f k = omega arith
count_of-count_operators m (o ∷ os) f k =
    let ih = count_of-count_operators (count_operator m o) os f k in
    elim (Bool-cases (o.family == "")) [
      | inl blank ↦ ground (arith, ih, count_of-blank m o f ((eq_iff o.family "").0 blank) k)
      | inr named ↦ ground (arith, ih, count_of-count_operator m o f, eq_iff o.family "")
    ]

count_of-zero_counts :
    (fs : List String) (m : Map String ℕ) (f : String)
    → count_of f m ≡ 0
    → count_of f (zero_counts fs m) ≡ 0
unfolding zero_counts
count_of-zero_counts [] m f h = h
count_of-zero_counts (k ∷ fs) m f h =
    count_of-zero_counts fs (insert k 0 m) f (ground (arith, count_of-insert k f 0 m))

pub operator_family_counts-count_if :
    (operators : List Operator) (family : String)
    → family ≢ ""
    → count_of family (operator_family_counts operators)
      ≡ count_if (λ operator. operator_matches_family operator family) operators
unfolding operator_family_counts zero_operator_family_counts
operator_family_counts-count_if operators family h = ground (
  arith,
  count_of-count_operators zero_operator_family_counts operators family h,
  count_of-zero_counts known_operator_families [] family refl,
)
