-- ===== src/OptParam/Fields/Laws.antt =====
-- The parameters that have a gated or a required field in the generated struct.
use spanalyzer.Prelude.{
  String, List, [], ◌∷◌, ◌++◌, ◌≡◌, refl, ◌∙◌, true, false, not, ◌&&◌, ◌||◌, ◌==◌, string_eq, arith,
  contains, any-append, Bool-cases, inl, inr, Distinct, beq_refl, eq_of_beq, any,
}
use spanalyzer.Prelude.Order.{string_ord}
use spanalyzer.Prelude.Sorting.{any-sort, Distinct-sort, sort-IsAscending, IsAscending}
use spanalyzer.OptParam.Param.{Param, Segment, mode_beq, mode_required}
use spanalyzer.OptParam.Fields.{
  is_fixed, params_on, params_on_segments, required_params, field_names,
}

-- Names that are new, each once.
abbrev Fresh : List String → List String → Type 0
Fresh seen names =
    Distinct names × ((x : String) → contains names x ≡ true → contains seen x ≡ false)

Fresh-cons :
    (seen : List String) (x : String) (names : List String)
    → contains seen x ≡ false
    → Fresh (x ∷ seen) names
    → Fresh seen (x ∷ names)
Fresh-cons seen x names new (distinct, fresh) = (
  (
    elim (Bool-cases (contains names x)) [
      | inl old ↦ ground (arith, fresh x old, beq_refl x)
      | inr gone ↦ gone
    ],
    distinct,
  ),
  λ y h. elim (Bool-cases (x == y)) [
    | inl same ↦ ground (arith, eq_of_beq x y same)
    | inr other ↦ ground (arith, fresh y)
  ],
)

params_on-Fresh :
    (seen : List String) (segments : List Segment) → Fresh seen (params_on seen segments)
unfolding params_on
params_on-Fresh seen [] = (tt, λ x h. cc)
params_on-Fresh seen (s ∷ segments) = elim (Bool-cases (is_fixed s.kind || contains seen s.param)) [
  | inl passed ↦ rw passed (params_on-Fresh seen segments)
  | inr added ↦ rw added (
      Fresh-cons seen s.param (params_on (s.param ∷ seen) segments) (ground arith)
        (params_on-Fresh (s.param ∷ seen) segments))
]

required_params-Fresh :
    (params : List Param) (seen : List String) → Fresh seen (required_params params seen)
unfolding required_params
required_params-Fresh [] seen = (tt, λ x h. cc)
required_params-Fresh (p ∷ params) seen =
    elim (Bool-cases (not (mode_beq p.mode mode_required) || contains seen p.name)) [
      | inl passed ↦ rw passed (required_params-Fresh params seen)
      | inr added ↦ rw added (
          Fresh-cons seen p.name (required_params params (p.name ∷ seen)) (ground arith)
            (required_params-Fresh params (p.name ∷ seen)))
    ]

contains-params_on :
    (seen : List String) (segments : List Segment) (name : String)
    → contains (params_on seen segments) name
      ≡ (any (λ s. not (is_fixed s.kind) && s.param == name) segments && not (contains seen name))
unfolding params_on
contains-params_on seen [] name = refl
contains-params_on seen (s ∷ segments) name = elim (Bool-cases (s.param == name)) [
  | inl same ↦ ground (
    arith,
    contains-params_on seen segments name,
    contains-params_on (s.param ∷ seen) segments name,
    eq_of_beq s.param name same,
  )
  | inr other ↦ ground (
    arith,
    contains-params_on seen segments name,
    contains-params_on (s.param ∷ seen) segments name,
  )
]

contains-required_params :
    (params : List Param) (seen : List String) (name : String)
    → contains (required_params params seen) name ≡ (
        any (λ p. mode_beq p.mode mode_required && p.name == name) params
        && not (contains seen name))
unfolding required_params
contains-required_params [] seen name = refl
contains-required_params (p ∷ params) seen name = elim (Bool-cases (p.name == name)) [
  | inl same ↦ ground (
    arith,
    contains-required_params params seen name,
    contains-required_params params (p.name ∷ seen) name,
    eq_of_beq p.name name same,
  )
  | inr other ↦ ground (
    arith,
    contains-required_params params seen name,
    contains-required_params params (p.name ∷ seen) name,
  )
]

pub Distinct-append :
    (xs ys : List String)
    → Distinct xs
    → Distinct ys
    → ((x : String) → contains ys x ≡ true → contains xs x ≡ false)
    → Distinct (xs ++ ys)
Distinct-append [] ys dx dy apart = dy
Distinct-append (x ∷ xs) ys (h, dx) dy apart = (
  any-append (λ y. y == x) xs ys ∙ elim (Bool-cases (contains ys x)) [
    | inl there ↦ ground (arith, apart x there, beq_refl x)
    | inr away ↦ ground arith
  ],
  Distinct-append xs ys dx dy (λ y k. ground (arith, apart y k)),
)

-- The parameters that `EmitGoBuilder` declares first, as fields that are not nullable, are in
-- ascending order and none stands twice, and a name is among them exactly if an optional segment has
-- it or it is that of a required parameter.
pub field_names-Distinct :
    (segments : List Segment) (params : List Param)
    → IsAscending (field_names segments params)
      × Distinct (field_names segments params)
      × ((name : String)
          → contains (field_names segments params) name ≡ (
              any (λ s. not (is_fixed s.kind) && s.param == name) segments
              || any (λ p. mode_beq p.mode mode_required && p.name == name) params))
unfolding field_names params_on_segments
field_names-Distinct segments params =
    let gated = params_on [] segments in
    let (distinct, _) = params_on-Fresh [] segments in
    let (others, apart) = required_params-Fresh params gated in
    (
      sort-IsAscending (gated ++ required_params params gated),
      Distinct-sort (gated ++ required_params params gated)
          (Distinct-append gated (required_params params gated) distinct others apart),
      λ name.
          any-sort (λ x. x == name) (gated ++ required_params params gated)
          ∙ any-append (λ x. x == name) gated (required_params params gated)
          ∙ ground (
            arith,
            contains-params_on [] segments name,
            contains-required_params params gated name,
          ),
    )
