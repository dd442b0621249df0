-- ===== src/OptParam/Enumerate/Laws.antt =====
-- The variants of a product compose again from their own parameters.
use spanalyzer.Prelude.{
  String, List, [], ◌∷◌, ℕ, zero, suc, ◌/◌, ◌≡◌, refl, sym, ap, Bool, true, ◌&&◌, none, ◌==◌,
  string_eq, arith, contains, select, Bool-cases, inl, inr, All, All-append, eq_of_beq, beq_refl,
  ltb,
}
use spanalyzer.Prelude.Order.{string_ord}
use spanalyzer.Prelude.Sorting.{All-sort_by}
use spanalyzer.Prelude.Results.{ok, fail_if, bind-eq-ok, ok_injective}
use spanalyzer.OptParam.Param.{Segment, Variant, variant_limit}
use spanalyzer.OptParam.Compose.{compose_variant, key, segment_axes}
use spanalyzer.OptParam.Compose.Laws.{compose_variant-cong}
use spanalyzer.OptParam.Enumerate.{
  max_enumerated_variants, ChoiceAxis, choice_axes, presence_total, choice_total, present_names,
  assign_choices, variant_at, variants_for, all_variants, enumerate_segments,
}
use spanalyzer.OptParam.Verify.{verify_builder_round_trip}

present_names-contained :
    (names : List String) (mask : ℕ) (name : String)
    → contains (present_names names mask) name ≡ true
    → contains names name ≡ true
unfolding present_names
present_names-contained [] mask name h = h
present_names-contained (n ∷ names) mask name h =
    ground (arith, present_names-contained names (mask / 2) name)

contains-select :
    (p : String → Bool) (names : List String) (name : String)
    → contains (select p names) name ≡ (contains names name && p name)
contains-select p [] name = refl
contains-select p (n ∷ names) name = elim (Bool-cases (n == name)) [
  | inl same ↦ ground (arith, contains-select p names name, ap p (eq_of_beq n name same))
  | inr other ↦ ground (arith, contains-select p names name)
]

-- Selecting the present names among the gateable ones gives the same set.
select-present :
    (gateable : List String) (mask : ℕ) (name : String)
    → contains (present_names gateable mask) name
      ≡ contains (select (λ n. contains (present_names gateable mask) n) gateable) name
select-present gateable mask name =
    let present = present_names gateable mask in
    elim (Bool-cases (contains present name)) [
      | inl there ↦ ground (
        arith,
        contains-select (λ n. contains present n) gateable name,
        present_names-contained gateable mask name there,
      )
      | inr away ↦ ground (arith, contains-select (λ n. contains present n) gateable name)
    ]

-- A variant's SQL is what its own parameters and choices compose to.
abbrev pub IsComposed : List Segment → Variant → Type 0
IsComposed segments v =
    compose_variant segments (record { present = v.present_params; choices = v.choice_assignments })
    ≡ v.sql

variant_at-IsComposed :
    (segments : List Segment) (gateable : List String) (axes : List ChoiceAxis) (mask c : ℕ)
    → IsComposed segments (variant_at segments gateable axes mask c)
unfolding variant_at
variant_at-IsComposed segments gateable axes mask c = sym (
    compose_variant-cong (present_names gateable mask)
      (select (λ n. contains (present_names gateable mask) n) gateable) (assign_choices axes c [])
      (select-present gateable mask) segments)

module _ (P : Variant → Type 0) where
  All-variants_for : (f : ℕ → Variant) (n : ℕ) → ((c : ℕ) → P (f c)) → All P (variants_for f n)
  unfolding variants_for
  All-variants_for f zero h = tt
  All-variants_for f (suc n) h =
      All-append P (variants_for f n) (f n ∷ []) (All-variants_for f n h) (h n, tt)

  All-all_variants :
      (f : ℕ → ℕ → Variant) (n choices : ℕ)
      → ((mask c : ℕ) → P (f mask c))
      → All P (all_variants f n choices)
  unfolding all_variants
  All-all_variants f zero choices h = tt
  All-all_variants f (suc n) choices h =
      All-append P (all_variants f n choices) (variants_for (f n) choices)
        (All-all_variants f n choices h) (All-variants_for (f n) choices (h n))

verify-IsComposed :
    (segments : List Segment) (variants : List Variant)
    → All (IsComposed segments) variants
    → verify_builder_round_trip segments variants ≡ none
unfolding verify_builder_round_trip
verify-IsComposed segments [] h = refl
verify-IsComposed segments (v ∷ variants) (one, all) =
    rw (one, beq_refl v.sql) (verify-IsComposed segments variants all)

-- Whatever `EnumerateVariants` gives for some segments passes `VerifyBuilderRoundTrip` on them: every
-- variant's SQL is composed again from the parameters and choices that the variant records.
pub enumerate_segments-verify :
    (segments : List Segment) (variants : List Variant)
    → enumerate_segments segments ≡ ok variants
    → verify_builder_round_trip segments variants ≡ none
unfolding enumerate_segments
enumerate_segments-verify segments variants e =
    let axes = segment_axes segments in
    let choices = choice_axes segments axes.choiceable in
    let (presences, _, e₁) = bind-eq-ok (presence_total axes.gateable 1) _ e in
    let (combinations, _, e₂) = bind-eq-ok (choice_total choices 1) _ e₁ in
    let (_, _, e₃) =
      bind-eq-ok (fail_if (ltb (max_enumerated_variants / combinations) presences) variant_limit) _
        e₂ in
    verify-IsComposed segments variants (
      rw (← ok_injective _ variants e₃) (
        All-sort_by key (IsComposed segments)
          (all_variants (variant_at segments axes.gateable choices) presences combinations)
          (All-all_variants (IsComposed segments) (variant_at segments axes.gateable choices)
            presences combinations (variant_at-IsComposed segments axes.gateable choices))))
