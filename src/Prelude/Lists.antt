-- ===== src/Prelude/Lists.antt =====
-- Lists under native numbers, Boolean search in a list, and predicates on all elements.
use Prim.Native.Nat.{ℕ, suc, ◌+◌, ◌≤◌}
use mathlib.Core.Path.{◌≡◌, refl, ap}
use mathlib.Core.Logic.{inl, inr}
use mathlib.Core.Bool.{Bool, true, false, ◌&&◌, ◌||◌}
use mathlib.Core.List.{List, [], ◌∷◌, ◌++◌, map}
use native.Mathlib.Omega.{arith}
use spanalyzer.Prelude.Tests.{ltb, if◌then◌else◌, Eq, ◌==◌, Bool-cases, eq_of_beq}

module _ {ℓ} {A : Type ℓ} where
  abbrev pub length : List A → ℕ
  length [] = 0
  length (x ∷ xs) = suc (length xs)

  abbrev pub any : (A → Bool) → List A → Bool
  any p [] = false
  any p (x ∷ xs) = p x || any p xs

  abbrev pub all : (A → Bool) → List A → Bool
  all p [] = true
  all p (x ∷ xs) = p x && all p xs

  -- The elements that pass a test, in order: the source's loops with a `continue`.
  abbrev pub select : (A → Bool) → List A → List A
  select p [] = []
  select p (x ∷ xs) = let rest = select p xs in if p x then x ∷ rest else rest

  -- How many elements pass a test: a loop with a counter.
  abbrev pub count_if : (A → Bool) → List A → ℕ
  count_if p [] = 0
  count_if p (x ∷ xs) = let rest = count_if p xs in if p x then suc rest else rest

  pub length-append : (xs ys : List A) → length (xs ++ ys) ≡ length xs + length ys
  length-append [] ys = omega arith
  length-append (x ∷ xs) ys = omega (arith, length-append xs ys)

  pub any-append : (p : A → Bool) (xs ys : List A) → any p (xs ++ ys) ≡ (any p xs || any p ys)
  any-append p [] ys = refl
  any-append p (x ∷ xs) ys = ground (arith, any-append p xs ys)

  -- Whether a list has elements.
  abbrev pub nonempty : List A → Bool
  nonempty [] = false
  nonempty (x ∷ xs) = true

  pub nonempty-append : (xs ys : List A) → nonempty (xs ++ ys) ≡ (nonempty xs || nonempty ys)
  nonempty-append [] ys = refl
  nonempty-append (x ∷ xs) ys = refl

  pub ltb-length : (xs : List A) → ltb 0 (length xs) ≡ nonempty xs
  ltb-length [] = refl
  ltb-length (x ∷ xs) = ground arith

  pub nonempty-any : (xs : List A) → any (λ x. true) xs ≡ nonempty xs
  nonempty-any [] = refl
  nonempty-any (x ∷ xs) = refl

  pub nonempty-select : (p : A → Bool) (xs : List A) → nonempty (select p xs) ≡ any p xs
  nonempty-select p [] = refl
  nonempty-select p (x ∷ xs) = ground (arith, nonempty-select p xs)

  pub any-witness : (p : A → Bool) (xs : List A) → any p xs ≡ true → (x : A) × (p x ≡ true)
  any-witness p (x ∷ xs) h = elim (Bool-cases (p x)) [
    | inl hit ↦ (x, hit)
    | inr miss ↦ any-witness p xs (ground arith)
  ]
  any-witness p [] h = absurd (cc)

  pub any_mono :
      (p q : A → Bool) (xs : List A)
      → ((x : A) → p x ≡ true → q x ≡ true)
      → any p xs ≡ true
      → any q xs ≡ true
  any_mono p q [] h k = cc
  any_mono p q (x ∷ xs) h k = ground (arith, h x, any_mono p q xs h)

  pub any-select : (p q : A → Bool) (xs : List A) → any q (select p xs) ≡ any (λ x. p x && q x) xs
  any-select p q [] = refl
  any-select p q (x ∷ xs) = ground (arith, any-select p q xs)

  pub length-select : (p : A → Bool) (xs : List A) → length (select p xs) ≡ count_if p xs
  length-select p [] = refl
  length-select p (x ∷ xs) = ground (arith, length-select p xs)

  pub count_if-append :
      (p : A → Bool) (xs ys : List A) → count_if p (xs ++ ys) ≡ count_if p xs + count_if p ys
  count_if-append p [] ys = omega arith
  count_if-append p (x ∷ xs) ys = ground (arith, count_if-append p xs ys)

  pub count_if-le-length : (p : A → Bool) (xs : List A) → count_if p xs ≤ length xs
  count_if-le-length p [] = omega arith
  count_if-le-length p (x ∷ xs) = ground (arith, count_if-le-length p xs)

module _ {ℓ κ} {A : Type ℓ} {B : Type κ} where
  pub nonempty-map : (f : A → B) (xs : List A) → nonempty (map f xs) ≡ nonempty xs
  nonempty-map f [] = refl
  nonempty-map f (x ∷ xs) = refl

  pub any-map : (p : B → Bool) (f : A → B) (xs : List A) → any p (map f xs) ≡ any (λ x. p (f x)) xs
  any-map p f [] = refl
  any-map p f (x ∷ xs) = ground (arith, any-map p f xs)

  pub length-map : (f : A → B) (xs : List A) → length (map f xs) ≡ length xs
  length-map f [] = refl
  length-map f (x ∷ xs) = ap suc (length-map f xs)

module _ {ℓ κ} {A : Type ℓ} (P : A → Type κ) where
  abbrev pub All : List A → Type κ
  All [] = Unit
  All (x ∷ xs) = P x × All xs

  pub All-append : (xs ys : List A) → All xs → All ys → All (xs ++ ys)
  All-append [] ys h k = k
  All-append (x ∷ xs) ys (p, h) k = (p, All-append xs ys h k)

  pub All-of : ((x : A) → P x) → (xs : List A) → All xs
  All-of h [] = tt
  All-of h (x ∷ xs) = (h x, All-of h xs)

module _ {ℓ} {A : Type ℓ} ⦃e : Eq A⦄ where
  abbrev pub contains : List A → A → Bool
  contains xs a = any (λ x. x == a) xs

  -- `if !seen[x] { seen[x] = true; out = append(out, x) }`
  abbrev pub add_new : List A → A → List A
  add_new xs a = if contains xs a then xs else xs ++ a ∷ []

  -- No element stands twice.
  abbrev pub Distinct : List A → Type 0
  Distinct [] = Unit
  Distinct (x ∷ xs) = (contains xs x ≡ false) × Distinct xs

  pub add_new_old : (xs : List A) (a : A) → contains xs a ≡ true → add_new xs a ≡ xs
  add_new_old xs a h = rw h refl

  pub add_new_fresh : (xs : List A) (a : A) → contains xs a ≡ false → add_new xs a ≡ xs ++ a ∷ []
  add_new_fresh xs a h = rw h refl

  pub nonempty-add_new : (xs : List A) (a : A) → nonempty (add_new xs a) ≡ true
  nonempty-add_new [] a = refl
  nonempty-add_new (x ∷ xs) a = ground arith

  pub contains-add_new :
      (xs : List A) (a b : A) → contains (add_new xs a) b ≡ (contains xs b || a == b)
  contains-add_new xs a b = elim (Bool-cases (contains xs a)) [
    | inl old ↦ elim (Bool-cases (a == b)) [
      | inl same ↦ ground (arith, eq_of_beq a b)
      | inr other ↦ ground arith
    ]
    | inr new ↦ ground (arith, any-append (λ x. x == b) xs (a ∷ []))
  ]

  pub Distinct-concat :
      (xs : List A) (a : A) → contains xs a ≡ false → Distinct xs → Distinct (xs ++ a ∷ [])
  Distinct-concat [] a h d = (refl, tt)
  Distinct-concat (x ∷ xs) a h (k, d) = (
    ground (arith, any-append (λ y. y == x) xs (a ∷ []), e.beq_iff a x, e.beq_iff x a),
    Distinct-concat xs a (ground arith) d,
  )

  pub Distinct-add_new : (xs : List A) (a : A) → Distinct xs → Distinct (add_new xs a)
  Distinct-add_new xs a d = elim (Bool-cases (contains xs a)) [
    | inl old ↦ rw old d
    | inr new ↦ rw new (Distinct-concat xs a new d)
  ]
