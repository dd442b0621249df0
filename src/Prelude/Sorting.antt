-- ===== src/Prelude/Sorting.antt =====
-- `sort.Slice`, `sort.Strings` and `sort.SliceStable` by a key: a stable insertion sort. Where the
-- keys differ the ascending rearrangement is unique, so that any sort gives this list.
use Prim.Native.Nat.{suc}
use mathlib.Core.Path.{◌≡◌, refl, ap, sym, ◌∙◌}
use mathlib.Core.Logic.{inl, inr}
use mathlib.Core.Bool.{Bool, true, false, ◌||◌}
use mathlib.Core.List.{List, [], ◌∷◌}
use native.Mathlib.Omega.{arith}
use spanalyzer.Prelude.Tests.{if◌then◌else◌, Eq, ◌==◌, Bool-cases}
use spanalyzer.Prelude.Lists.{
  length, any, count_if, nonempty, nonempty-any, All, contains, Distinct,
}
use spanalyzer.Prelude.Order.{Ord, le}

module _ {ℓ κ} {A : Type ℓ} {K : Type κ} ⦃o : Ord K⦄ (key : A → K) where
  unfoldable pub insert_by : A → List A → List A
  insert_by x [] = x ∷ []
  insert_by x (y ∷ ys) =
      let later = y ∷ insert_by x ys in if le (key x) (key y) then x ∷ y ∷ ys else later

  unfoldable pub sort_by : List A → List A
  unfolding insert_by
  sort_by [] = []
  sort_by (x ∷ xs) = insert_by x (sort_by xs)

  abbrev pub IsSorted : List A → Type 0
  IsSorted [] = Unit
  IsSorted (x ∷ xs) = All (λ y. le (key x) (key y) ≡ true) xs × IsSorted xs

  any-insert_by : (p : A → Bool) (x : A) (xs : List A) → any p (insert_by x xs) ≡ (p x || any p xs)
  unfolding insert_by
  any-insert_by p x [] = refl
  any-insert_by p x (y ∷ ys) = ground (arith, any-insert_by p x ys)

  pub any-sort_by : (p : A → Bool) (xs : List A) → any p (sort_by xs) ≡ any p xs
  unfolding sort_by
  any-sort_by p [] = refl
  any-sort_by p (x ∷ xs) = rw (any-insert_by p x (sort_by xs), any-sort_by p xs) refl

  count_if-insert_by :
      (p : A → Bool) (x : A) (xs : List A) → count_if p (insert_by x xs) ≡ count_if p (x ∷ xs)
  unfolding insert_by
  count_if-insert_by p x [] = refl
  count_if-insert_by p x (y ∷ ys) = ground (arith, count_if-insert_by p x ys)

  pub count_if-sort_by : (p : A → Bool) (xs : List A) → count_if p (sort_by xs) ≡ count_if p xs
  unfolding sort_by
  count_if-sort_by p [] = refl
  count_if-sort_by p (x ∷ xs) =
      ground (arith, count_if-insert_by p x (sort_by xs), count_if-sort_by p xs)

  length-insert_by : (x : A) (xs : List A) → length (insert_by x xs) ≡ suc (length xs)
  unfolding insert_by
  length-insert_by x [] = refl
  length-insert_by x (y ∷ ys) = ground (arith, length-insert_by x ys)

  pub length-sort_by : (xs : List A) → length (sort_by xs) ≡ length xs
  unfolding sort_by
  length-sort_by [] = refl
  length-sort_by (x ∷ xs) = length-insert_by x (sort_by xs) ∙ ap suc (length-sort_by xs)

  All-insert_by {μ} :
      (P : A → Type μ) (x : A) (xs : List A) → P x → All P xs → All P (insert_by x xs)
  unfolding insert_by
  All-insert_by P x [] h k = (h, tt)
  All-insert_by P x (y ∷ ys) h (k, ks) = elim (Bool-cases (le (key x) (key y))) [
    | inl first ↦ rw first (h, (k, ks))
    | inr after ↦ rw after (k, All-insert_by P x ys h ks)
  ]

  pub All-sort_by {μ} : (P : A → Type μ) (xs : List A) → All P xs → All P (sort_by xs)
  unfolding sort_by
  All-sort_by P [] h = tt
  All-sort_by P (x ∷ xs) (h, hs) = All-insert_by P x (sort_by xs) h (All-sort_by P xs hs)

  All-trans :
      (x y : A) (ys : List A)
      → le (key x) (key y) ≡ true
      → All (λ z. le (key y) (key z) ≡ true) ys
      → All (λ z. le (key x) (key z) ≡ true) ys
  All-trans x y [] h k = tt
  All-trans x y (z ∷ zs) h (k, ks) = (o.trans _ _ _ h k, All-trans x y zs h ks)

  insert_by-IsSorted : (x : A) (xs : List A) → IsSorted xs → IsSorted (insert_by x xs)
  unfolding insert_by
  insert_by-IsSorted x [] s = (tt, tt)
  insert_by-IsSorted x (y ∷ ys) (below, s) = elim (Bool-cases (le (key x) (key y))) [
    | inl first ↦ rw first ((first, All-trans x y ys first below), (below, s))
    | inr after ↦ rw after (
      All-insert_by (λ z. le (key y) (key z) ≡ true) x ys (o.total (key x) (key y) after) below,
      insert_by-IsSorted x ys s,
    )
  ]

  pub sort_by-IsSorted : (xs : List A) → IsSorted (sort_by xs)
  unfolding sort_by
  sort_by-IsSorted [] = tt
  sort_by-IsSorted (x ∷ xs) = insert_by-IsSorted x (sort_by xs) (sort_by-IsSorted xs)

module _ {ℓ} {A : Type ℓ} ⦃o : Ord A⦄ where
  -- `sort.Strings`, and `sort.Slice` by the value itself
  unfoldable pub sort : List A → List A
  unfolding sort_by
  sort xs = sort_by (λ x. x) xs

  abbrev pub IsAscending : List A → Type 0
  IsAscending xs = IsSorted (λ x. x) xs

  pub any-sort : (p : A → Bool) (xs : List A) → any p (sort xs) ≡ any p xs
  unfolding sort
  any-sort p xs = any-sort_by (λ x. x) p xs

  pub count_if-sort : (p : A → Bool) (xs : List A) → count_if p (sort xs) ≡ count_if p xs
  unfolding sort
  count_if-sort p xs = count_if-sort_by (λ x. x) p xs

  pub All-sort {μ} : (P : A → Type μ) (xs : List A) → All P xs → All P (sort xs)
  unfolding sort
  All-sort P xs h = All-sort_by (λ x. x) P xs h

  pub nonempty-sort : (xs : List A) → nonempty (sort xs) ≡ nonempty xs
  nonempty-sort xs = sym (nonempty-any (sort xs)) ∙ any-sort (λ x. true) xs ∙ nonempty-any xs

  pub length-sort : (xs : List A) → length (sort xs) ≡ length xs
  unfolding sort
  length-sort xs = length-sort_by (λ x. x) xs

  pub sort-IsAscending : (xs : List A) → IsAscending (sort xs)
  unfolding sort
  sort-IsAscending xs = sort_by-IsSorted (λ x. x) xs

module _ {ℓ} {A : Type ℓ} ⦃o : Ord A⦄ ⦃e : Eq A⦄ where
  Distinct-insert_by :
      (x : A) (xs : List A)
      → contains xs x ≡ false
      → Distinct xs
      → Distinct (insert_by (λ y. y) x xs)
  unfolding insert_by
  Distinct-insert_by x [] h d = (refl, tt)
  Distinct-insert_by x (y ∷ ys) h (k, d) = elim (Bool-cases (le x y)) [
    | inl first ↦ rw first (h, (k, d))
    | inr after ↦ rw after (
      any-insert_by (λ z. z) (λ z. z == y) x ys ∙ ground (arith, e.beq_iff x y, e.beq_iff y x),
      Distinct-insert_by x ys (ground arith) d,
    )
  ]

  pub Distinct-sort : (xs : List A) → Distinct xs → Distinct (sort xs)
  unfolding sort sort_by
  Distinct-sort [] d = tt
  Distinct-sort (x ∷ xs) (h, d) =
      Distinct-insert_by x (sort xs) (any-sort (λ y. y == x) xs ∙ h) (Distinct-sort xs d)
