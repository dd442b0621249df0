-- ===== src/Prelude/Switch.antt =====
-- Go's `switch` over strings, and its `switch` over conditions.
use Prim.Native.String.{String}
use mathlib.Core.Path.{◌≡◌}
use mathlib.Core.Logic.{inl, inr}
use mathlib.Core.Bool.{Bool, true, false}
use mathlib.Core.List.{List, [], ◌∷◌}
use spanalyzer.Prelude.Tests.{if◌then◌else◌, string_eq, Bool-cases}
use spanalyzer.Prelude.Lists.{contains, All, any}

module _ {ℓ} {A : Type ℓ} where
  -- `switch s { case "a", "b": v; … default: d }`
  abbrev pub switch : String → List (List String × A) → A → A
  switch s [] d = d
  switch s ((names, v) ∷ cases) d =
      let rest = switch s cases d in if contains names s then v else rest

  -- `switch { case b: v; … default: d }`
  abbrev pub first_case : List (Bool × A) → A → A
  first_case [] d = d
  first_case ((b, v) ∷ cases) d = let rest = first_case cases d in if b then v else rest

pub false_ne_true : false ≡ true → ⊥
false_ne_true h = cc

module _ {ℓ κ} {A : Type ℓ} (P : A → Type κ) where
  pub switch_all :
      (s : String) (cases : List (List String × A)) (d : A)
      → All (λ c. P c.1) cases
      → P d
      → P (switch s cases d)
  switch_all s [] d h k = k
  switch_all s ((names, v) ∷ cases) d (h, hs) k = elim (Bool-cases (contains names s)) [
    | inl hit ↦ rw hit h
    | inr miss ↦ rw miss (switch_all s cases d hs k)
  ]

  -- Where a case is taken the default does not matter.
  pub switch_all_hit :
      (s : String) (cases : List (List String × A)) (d : A)
      → any (λ c. contains c.0 s) cases ≡ true
      → All (λ c. P c.1) cases
      → P (switch s cases d)
  switch_all_hit s [] d e h = absurd (false_ne_true e)
  switch_all_hit s ((names, v) ∷ cases) d e (h, hs) = elim (Bool-cases (contains names s)) [
    | inl hit ↦ rw hit h
    | inr miss ↦ rw miss (switch_all_hit s cases d (rw miss at e) hs)
  ]

  pub first_case_all :
      (cases : List (Bool × A)) (d : A) → All (λ c. P c.1) cases → P d → P (first_case cases d)
  first_case_all [] d h k = k
  first_case_all ((true, v) ∷ cases) d (h, hs) k = h
  first_case_all ((false, v) ∷ cases) d (h, hs) k = first_case_all cases d hs k

module _ {ℓ κ} {A : Type ℓ} {B : Type κ} (R : A → B → Type 0) where
  -- Two tables with the same names, and related values.
  abbrev pub Related : List (List String × A) → List (List String × B) → Type 0
  Related [] [] = Unit
  Related [] (d ∷ ds) = ⊥
  Related (c ∷ cs) [] = ⊥
  Related ((names, a) ∷ cs) ((others, b) ∷ ds) = (names ≡ others) × (R a b × Related cs ds)

  pub switch_related :
      (s : String) (cs : List (List String × A)) (ds : List (List String × B)) (a : A) (b : B)
      → Related cs ds
      → R a b
      → R (switch s cs a) (switch s ds b)
  switch_related s [] [] a b h k = k
  switch_related s [] (d ∷ ds) a b h k = elim h [ ]
  switch_related s ((names, v) ∷ cs) [] a b h k = elim h [ ]
  switch_related s ((names, v) ∷ cs) ((others, w) ∷ ds) a b (e, (r, h)) k =
      elim (Bool-cases (contains names s)) [
        | inl hit ↦ rw (hit, ← e, hit) r
        | inr miss ↦ rw (miss, ← e, miss) (switch_related s cs ds a b h k)
      ]
