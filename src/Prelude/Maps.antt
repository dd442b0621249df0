-- ===== src/Prelude/Maps.antt =====
-- Go maps as association lists. A write replaces the entry of its key or adds one at the end; the
-- source never depends on the order in which a map is ranged over, except to sort the result.
use mathlib.Core.Path.{◌≡◌, refl}
use mathlib.Core.Logic.{inl, inr}
use mathlib.Core.Bool.{false}
use mathlib.Core.Option.{Option, none, some}
use mathlib.Core.List.{List, [], ◌∷◌, map}
use native.Mathlib.Omega.{arith}
use spanalyzer.Prelude.Tests.{if◌then◌else◌, Eq, ◌==◌, Bool-cases}
use spanalyzer.Prelude.Lists.{contains, Distinct, any}

abbrev pub Map {ℓ κ} : Type ℓ → Type κ → Type (ℓ ⊔ κ)
Map K V = List (K × V)

module _ {ℓ κ} {K : Type ℓ} {V : Type κ} ⦃e : Eq K⦄ where
  -- `v, ok := m[k]`
  abbrev pub lookup : K → Map K V → Option V
  lookup k [] = none
  lookup k ((j, v) ∷ m) = if j == k then some v else lookup k m

  -- `m[k] = v`
  abbrev pub insert : K → V → Map K V → Map K V
  insert k v [] = (k, v) ∷ []
  insert k v ((j, w) ∷ m) = if j == k then (j, v) ∷ m else (j, w) ∷ insert k v m

  -- `m[k]`, which is the zero value where the key is missing
  abbrev pub lookup_or : V → K → Map K V → V
  lookup_or d k m = elim (lookup k m) [ none ↦ d | some v ↦ v ]

  abbrev pub keys : Map K V → List K
  keys m = map (λ p. p.0) m

  pub lookup-insert :
      (k j : K) (v : V) (m : Map K V)
      → lookup j (insert k v m) ≡ (if k == j then some v else lookup j m)
  lookup-insert k j v [] = refl
  lookup-insert k j v ((i, w) ∷ m) =
      ground (arith, e.beq_iff k j, e.beq_iff i k, e.beq_iff i j, lookup-insert k j v m)

  pub contains-keys-insert :
      (k j : K) (v : V) (m : Map K V)
      → contains (keys (insert k v m)) j ≡ any (λ b. b) ((k == j) ∷ contains (keys m) j ∷ [])
  contains-keys-insert k j v [] = refl
  contains-keys-insert k j v ((i, w) ∷ m) =
      ground (arith, e.beq_iff k j, e.beq_iff i k, e.beq_iff i j, contains-keys-insert k j v m)

  pub Distinct-keys-insert :
      (k : K) (v : V) (m : Map K V) → Distinct (keys m) → Distinct (keys (insert k v m))
  Distinct-keys-insert k v [] d = (refl, tt)
  Distinct-keys-insert k v ((i, w) ∷ m) (h, d) = elim (Bool-cases (i == k)) [
    | inl same ↦ rw same (h, d)
    | inr other ↦ rw other (
      ground (arith, contains-keys-insert k i v m, e.beq_iff k i, e.beq_iff i k),
      Distinct-keys-insert k v m d,
    )
  ]

  pub lookup-none_of_keys : (k : K) (m : Map K V) → contains (keys m) k ≡ false → lookup k m ≡ none
  lookup-none_of_keys k [] h = refl
  lookup-none_of_keys k ((i, w) ∷ m) h = ground (arith, lookup-none_of_keys k m)

  pub lookup_or-cons :
      (d : V) (k j : K) (v : V) (m : Map K V)
      → lookup_or d k ((j, v) ∷ m) ≡ (if j == k then v else lookup_or d k m)
  lookup_or-cons d k j v m = ground arith
