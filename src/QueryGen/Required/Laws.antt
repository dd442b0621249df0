-- ===== src/QueryGen/Required/Laws.antt =====
-- What required fields and merged parameters guarantee.
use spanalyzer.Prelude.{
  String, List, [], ◌∷◌, ◌≡◌, refl, sym, ◌∙◌, Bool, true, false, not, ◌&&◌, ◌||◌, ◌==◌, ◌⊎◌,
  string_eq, arith, contains, map, Bool-cases, inl, inr, if◌then◌else◌, eq_of_beq, beq_refl,
  beq_comm,
}
use spanalyzer.Prelude.Results.{ok, fail_if, ◌>>◌, with_ok, ok_injective}
use spanalyzer.Text.{to_lower}
use spanalyzer.QueryGen.Fields.{
  GoField, GoFields, no_more, go_field, next_field, name_of, is_nullable, set_nullable,
  nullability_not_proven, unsupported_policy,
}
use spanalyzer.QueryGen.Required.{without, none_missing, require_fields, apply_required_fields}

-- Whether some field of the name is there that may not be null.
abbrev pub has_required : String → GoFields → Bool
has_required key no_more = false
has_required key (next_field first rest) =
    (to_lower (name_of first) == key && not (is_nullable first)) || has_required key rest

-- The same fields, but that one of a name of the list may have become required.
abbrev pub Tightens : List String → GoFields → GoFields → Type 0
Tightens names no_more no_more = Unit
Tightens names no_more (next_field g gs) = ⊥
Tightens names (next_field f fs) no_more = ⊥
Tightens names (next_field f fs) (next_field g gs) =
    ((f ≡ g) ⊎ ((contains names (to_lower (name_of f)) ≡ true) × (g ≡ set_nullable false f)))
    × Tightens names fs gs

contains-without :
    (key k : String) (names : List String)
    → contains (without key names) k ≡ (contains names k && not (key == k))
contains-without key k [] = refl
contains-without key k (n ∷ names) = elim (Bool-cases (n == key)) [
  | inl same ↦
      rw same (contains-without key k names ∙ ground (arith, eq_of_beq n key same, beq_refl k))
  | inr other ↦
      rw other (ground (arith, contains-without key k names, eq_of_beq n k, beq_comm n key))
]

set_nullable-facts :
    (f : GoField) (b : Bool)
    → (name_of (set_nullable b f) ≡ name_of f) × (is_nullable (set_nullable b f) ≡ b)
set_nullable-facts (go_field name kind repeated nullable fields) b = (refl, refl)

none_missing-eq-ok :
    (names : List String) {out : GoFields}
    → none_missing names ≡ ok out
    → (names ≡ []) × (out ≡ no_more)
none_missing-eq-ok [] {out} e = (refl, sym (ok_injective no_more out e))
none_missing-eq-ok (n ∷ names) e = absurd (cc)

-- What the loop has done: each name of the list is met, and nothing else has changed.
abbrev pub Requires : List String → GoFields → GoFields → Type 0
Requires names fields out =
    ((key : String) → contains names key ≡ true → has_required key out ≡ true)
    × Tightens names fields out

Tightens-without :
    (key : String) (names : List String) (fields out : GoFields)
    → Tightens (without key names) fields out
    → Tightens names fields out
Tightens-without key names no_more no_more t = tt
Tightens-without key names no_more (next_field g gs) t = absurd t
Tightens-without key names (next_field f fs) no_more t = absurd t
Tightens-without key names (next_field f fs) (next_field g gs) (inl same, t) =
    (inl same, Tightens-without key names fs gs t)
Tightens-without key names (next_field f fs) (next_field g gs) (inr (h, e), t) = (
  inr (ground (arith, contains-without key (to_lower (name_of f)) names, h), e),
  Tightens-without key names fs gs t,
)

require_fields-Requires :
    (policy : String) (names : List String) (fields : GoFields) {out : GoFields}
    → require_fields policy names fields ≡ ok out
    → Requires names fields out
unfolding require_fields
require_fields-Requires policy names no_more {out} e =
    let (empty, done) = none_missing-eq-ok names {out = out} e in
    rw (empty, done) (λ key h. absurd (cc), tt)
require_fields-Requires policy names (next_field first rest) {out} e =
    let k = to_lower (name_of first) in
    elim (Bool-cases (contains names k)) [
      | inl wanted ↦
          with_ok
            (fail_if (policy == "strict" && is_nullable first)
                (nullability_not_proven (name_of first))
              >> fail_if (not (policy == "override") && not (policy == "strict"))
                  (unsupported_policy policy))
            _ (rw wanted at e)
            (λ _ _ e. with_ok (require_fields policy (without k names) rest) _ e (λ fs looped e.
              let (met, t) = require_fields-Requires policy (without k names) rest looped in
              let (name, nullable) = set_nullable-facts first false in
              rw (← ok_injective (next_field (set_nullable false first) fs) out e) (
                λ key h. elim (Bool-cases (k == key)) [
                  | inl here ↦ ground (arith, name, nullable, here)
                  | inr there ↦
                      ground
                        (arith, met key (contains-without k key names ∙ ground (arith, h, there)))
                ],
                (inr (wanted, refl), Tightens-without k names rest fs t),
              )))
      | inr passed ↦ with_ok (require_fields policy names rest) _ (rw passed at e) (λ fs looped e.
          let (met, t) = require_fields-Requires policy names rest looped in
          rw (← ok_injective (next_field first fs) out e)
            (λ key h. ground (arith, met key h), (inl refl, t)))
    ]

Tightens-refl : (names : List String) (fields : GoFields) → Tightens names fields fields
Tightens-refl names no_more = tt
Tightens-refl names (next_field f fs) = (inl refl, Tightens-refl names fs)

-- Where `applyRequiredFields` succeeds, every required name, ignoring case, is that of a field that
-- may not be null, and the fields are the query's, in order, unchanged but for required names.
pub apply_required_fields-Requires :
    (fields : GoFields) (required : List String) (policy : String) {out : GoFields}
    → apply_required_fields fields required policy ≡ ok out
    → Requires (map to_lower required) fields out
unfolding apply_required_fields
apply_required_fields-Requires fields [] policy {out} e =
    rw (← ok_injective fields out e) (λ key h. absurd (cc), Tightens-refl [] fields)
apply_required_fields-Requires fields (name ∷ names) policy e =
    require_fields-Requires (to_lower (if policy == "" then "override" else policy))
      (map to_lower (name ∷ names)) fields e
