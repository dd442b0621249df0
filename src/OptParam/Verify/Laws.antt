-- ===== src/OptParam/Verify/Laws.antt =====
-- What verified variants share, and which variant is canonical.
use spanalyzer.Prelude.{
  String, List, [], ◌∷◌, ◌≡◌, refl, sym, ap, ◌∙◌, subst, true, false, none, some, if◌then◌else◌,
  arith, All, Bool-cases, Option-cases, inl, inr,
}
use spanalyzer.Prelude.Order.{str_le_trans, str_le_total}
use spanalyzer.Prelude.Results.{Result, ok, err, ◌>>◌, bind-eq-ok, ok_injective}
use spanalyzer.OptParam.Param.{Param, Variant, Error, analysis_failed, row_type_mismatch}
use spanalyzer.OptParam.NullIsNull.{Lexer}
use spanalyzer.OptParam.Compose.{key}
use spanalyzer.OptParam.Enumerate.{enumerate_variants}
use spanalyzer.OptParam.Verify.{
  RowTypes, agree_with, verify_all, verify_variants, PlanVariant, is_better, pick_canonical_variant,
}

-- What a candidate improves on does not improve on it.
not_better_back : (a b : PlanVariant) → is_better a b ≡ true → is_better b a ≡ false
unfolding is_better
not_better_back a b h = ground (arith, str_le_total b.label a.label)

-- What does not improve on a candidate does not improve on what that does not improve on.
not_better_trans :
    (a b c : PlanVariant) → is_better a b ≡ false → is_better b c ≡ false → is_better a c ≡ false
unfolding is_better
not_better_trans a b c h k = ground (arith, str_le_trans c.label b.label a.label)

not_better_self : (a : PlanVariant) → is_better a a ≡ false
unfolding is_better
not_better_self a = ground (arith, str_le_total a.label a.label)

-- No candidate is better than the canonical variant: none has more present
-- parameters, and of those with as many it has the least label.
pub pick_canonical_variant-best :
    (best : PlanVariant) (variants : List PlanVariant)
    → All (λ v. is_better v (pick_canonical_variant best variants) ≡ false) (best ∷ variants)
unfolding pick_canonical_variant
pick_canonical_variant-best best [] = (not_better_self best, tt)
pick_canonical_variant-best best (v ∷ variants) = elim (Bool-cases (is_better v best)) [
  | inl better ↦
      let (kept, rest) = pick_canonical_variant-best v variants in
      let same : pick_canonical_variant best (v ∷ variants) ≡ pick_canonical_variant v variants =
        rw better refl in
      subst (λ r. All (λ w. is_better w r ≡ false) (best ∷ v ∷ variants)) (sym same)
        (
          not_better_trans best v (pick_canonical_variant v variants)
              (not_better_back v best better) kept,
          (kept, rest),
        )
  | inr worse ↦
      let (kept, rest) = pick_canonical_variant-best best variants in
      let same : pick_canonical_variant best (v ∷ variants) ≡ pick_canonical_variant best variants =
        rw worse refl in
      subst (λ r. All (λ w. is_better w r ≡ false) (best ∷ v ∷ variants)) (sym same)
        (kept, (not_better_trans v best (pick_canonical_variant best variants) worse kept, rest))
]

-- The canonical variant is one of the candidates: what holds of all of them holds of it.
pub pick_canonical_variant-member :
    (P : PlanVariant → Type 0) (best : PlanVariant) (variants : List PlanVariant)
    → All P (best ∷ variants)
    → P (pick_canonical_variant best variants)
unfolding pick_canonical_variant
pick_canonical_variant-member P best [] (h, _) = h
pick_canonical_variant-member P best (v ∷ variants) (h, (k, hs)) =
    elim (Bool-cases (is_better v best)) [
      | inl better ↦ rw better (pick_canonical_variant-member P v variants (k, hs))
      | inr worse ↦ rw worse (pick_canonical_variant-member P best variants (h, hs))
    ]

err_not_ok : {A : Type 0} {e : Error} {a : A} → ◌≡◌ {A = Result Error A} (err e) (ok a) → ⊥
err_not_ok h = cc

module _ (frontend : RowTypes) where
  open frontend use {RowType}

  -- The analyzer gives a variant's SQL a row type that is the same as `t`.
  abbrev pub HasRowType : RowType → Variant → Type 0
  HasRowType t v = (u : RowType) × (frontend.row_type v.sql ≡ some u) × (frontend.same t u ≡ true)

  step_missing :
      (t : RowType) (v : Variant) (variants : List Variant)
      → frontend.row_type v.sql ≡ none
      → agree_with frontend t (v ∷ variants) ≡ err (analysis_failed (key v))
  unfolding agree_with
  step_missing t v variants missing = rw (missing, agree_with) refl

  step :
      (t : RowType) (v : Variant) (variants : List Variant) (u : RowType)
      → frontend.row_type v.sql ≡ some u
      → agree_with frontend t (v ∷ variants) ≡ (
          if frontend.same t u
          then agree_with frontend t variants
          else err (row_type_mismatch (key v)))
  unfolding agree_with
  step t v variants u found = rw (found, agree_with) refl

  agree_with-HasRowType :
      (t : RowType) (variants : List Variant)
      → agree_with frontend t variants ≡ ok tt
      → All (HasRowType t) variants
  unfolding agree_with
  agree_with-HasRowType t [] e = tt
  agree_with-HasRowType t (v ∷ variants) e = elim (Option-cases (frontend.row_type v.sql)) [
    | inl missing ↦ absurd (err_not_ok (sym (step_missing t v variants missing) ∙ e))
    | inr (u, found) ↦ elim (Bool-cases (frontend.same t u)) [
      | inl same ↦ (
        (u, found, same),
        agree_with-HasRowType t variants (sym (step t v variants u found ∙ rw same refl) ∙ e),
      )
      | inr other ↦ absurd (
          err_not_ok {e = row_type_mismatch (key v)}
            (sym (step t v variants u found ∙ rw other refl) ∙ e))
    ]
  ]

  verify_all-HasRowType :
      (v : Variant) (variants : List Variant) (t : RowType)
      → verify_all frontend (v ∷ variants) ≡ ok t
      → (frontend.row_type v.sql ≡ some t) × All (HasRowType t) variants
  unfolding verify_all
  verify_all-HasRowType v variants t e = elim (Option-cases (frontend.row_type v.sql)) [
    | inl missing ↦
        let stop : verify_all frontend (v ∷ variants) ≡ err (analysis_failed (key v)) =
          rw (missing, verify_all) refl in
        absurd (err_not_ok (sym stop ∙ e))
    | inr (u, found) ↦
        let go : verify_all frontend (v ∷ variants) ≡ (agree_with frontend u variants >> ok u) =
          rw (found, verify_all) refl in
        let (_, agrees, same) = bind-eq-ok (agree_with frontend u variants) _ (sym go ∙ e) in
        rw (← ok_injective u t same) (found, agree_with-HasRowType u variants agrees)
  ]

  -- Where `VerifyVariants` succeeds the variants are those of `EnumerateVariants`, and the row type that it
  -- gives is the first variant's, with which every other variant's agrees.
  pub verify_variants-HasRowType :
      (lexer : Lexer) (sql : String) (params : List Param) (v : Variant) (variants : List Variant)
      (t : RowType)
      → verify_variants frontend lexer sql params ≡ ok (v ∷ variants, t)
      → (enumerate_variants lexer sql params ≡ ok (v ∷ variants))
        × (frontend.row_type v.sql ≡ some t)
        × All (HasRowType t) variants
  unfolding verify_variants
  verify_variants-HasRowType lexer sql params v variants t e =
      let (vs, enumerated, e₁) = bind-eq-ok (enumerate_variants lexer sql params) _ e in
      let (u, verified, e₂) = bind-eq-ok (verify_all frontend vs) _ e₁ in
      let same = ok_injective (vs, u) (v ∷ variants, t) e₂ in
      let vs_same : vs ≡ v ∷ variants = ap (λ p. p.0) same in
      let u_same : u ≡ t = ap (λ p. p.1) same in
      let (first, others) =
        verify_all-HasRowType v variants t
          (ap (λ vs. verify_all frontend vs) (sym vs_same) ∙ verified ∙ ap ok u_same) in
      (enumerated ∙ ap ok vs_same, first, others)
