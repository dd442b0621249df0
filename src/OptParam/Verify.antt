-- ===== src/OptParam/Verify.antt =====
-- internal/optparam/verify.go and emit.go, internal/querygen/optparam_bridge.go: that all variants
-- have one row type, that segments compose to them again, and the choice of the canonical variant.
pub mod Laws
use spanalyzer.Prelude.{
  String, List, [], ◌∷◌, ℕ, Bool, true, false, not, ◌&&◌, ◌||◌, Option, none, some, map,
  if◌then◌else◌, ◌==◌, string_eq, length, ltb, nat_beq,
}
use spanalyzer.Prelude.Maps.{Map}
use spanalyzer.Prelude.Order.{str_le}
use spanalyzer.Prelude.Results.{Result, ok, err, ◌>>=◌, ◌>>◌, fail_if}
use spanalyzer.Text.{to_lower, trim_space}
use spanalyzer.OptParam.Param.{
  Mode, mode_required, mode_null_is_null, mode_omit_when_null, mode_omit_when_empty,
  mode_order_by_choice, Param, Segment, Variant, Error, no_variants, round_trip_mismatch,
  analysis_failed, row_type_mismatch,
}
use spanalyzer.OptParam.NullIsNull.{Lexer}
use spanalyzer.OptParam.Compose.{Presence, compose_variant, key}
use spanalyzer.OptParam.Enumerate.{enumerate_variants}

-- `VerifyBuilderRoundTrip`: the first variant that its segments do not compose to.
unfoldable pub verify_builder_round_trip : List Segment → List Variant → Option Error
verify_builder_round_trip segments [] = none
verify_builder_round_trip segments (v ∷ variants) =
    let rest = verify_builder_round_trip segments variants in
    let composed =
      compose_variant segments
        (record { present = v.present_params; choices = v.choice_assignments }) in
    if composed == v.sql then rest else some (round_trip_mismatch (key v))

-- The analyzer of the GoogleSQL frontend, with the declared parameters added: the row type of a
-- statement, or nothing. `same` is `proto.Equal`.
pub record RowTypes : Type 1 where
  pub RowType : Type 0
  pub row_type : String → Option RowType
  pub same : RowType → RowType → Bool

module _ (frontend : RowTypes) where
  open frontend use {RowType}

  -- The loop from the second variant on, with the first row type.
  unfoldable pub agree_with : RowType → List Variant → Result Error (Unit {0})
  agree_with first [] = ok tt
  agree_with first (v ∷ variants) =
      let rest = agree_with first variants in
      elim (frontend.row_type v.sql) [
        | none ↦ err (analysis_failed (key v))
        | some t ↦ if frontend.same first t then rest else err (row_type_mismatch (key v))
      ]

  unfoldable pub verify_all : List Variant → Result Error RowType
  verify_all [] = err no_variants
  verify_all (v ∷ variants) = elim (frontend.row_type v.sql) [
    | none ↦ err (analysis_failed (key v))
    | some t ↦ do agree_with t variants; ok t
  ]

  -- `VerifyVariants`
  unfoldable pub verify_variants :
      Lexer → String → List Param → Result Error (List Variant × RowType)
  verify_variants lexer sql params = do
    variants ← enumerate_variants lexer sql params
    t ← verify_all variants
    ok (variants, t)

-- `optParamMode`, by the field `Optional` of a query's parameter
unfoldable pub opt_param_mode : String → Mode
opt_param_mode optional =
    let name = to_lower (trim_space optional) in
    if name == "null_is_null"
    then mode_null_is_null
    else if name == "omit_when_null"
    then mode_omit_when_null
    else if name == "omit_when_empty"
    then mode_omit_when_empty
    else if name == "orderby_choice"
    then mode_order_by_choice
    else mode_required

-- `QueryCodegenPlanQueryVariant`, by the fields that the choice of the canonical variant reads.
pub record PlanVariant : Type 0 where
  pub label : String
  pub sql : String
  pub present_params : List String

-- Whether `v` replaces `best`.
unfoldable pub is_better : PlanVariant → PlanVariant → Bool
is_better v best =
    ltb (length best.present_params) (length v.present_params)
    || (nat_beq (length v.present_params) (length best.present_params)
        && not (str_le best.label v.label))

-- The loop of `pickCanonicalVariant` over the variants behind the first.
unfoldable pub pick_canonical_variant : PlanVariant → List PlanVariant → PlanVariant
pick_canonical_variant best [] = best
pick_canonical_variant best (v ∷ variants) =
    pick_canonical_variant (if is_better v best then v else best) variants
