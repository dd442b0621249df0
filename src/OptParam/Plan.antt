-- ===== src/OptParam/Plan.antt =====
-- internal/optparam/plan.go and internal/querygen/optparam_bridge.go: the variants as they stand in
-- the code generation plan, and the parameters as the configuration gives them.
pub mod Laws
use spanalyzer.Prelude.{
  String, List, [], ◌∷◌, Bool, true, false, not, ◌&&◌, map, if◌then◌else◌, ◌==◌, string_eq,
}
use spanalyzer.Prelude.Maps.{Map}
use spanalyzer.Prelude.Results.{Result, ok, err, fail_if, ◌>>=◌, ◌>>◌}
use spanalyzer.Text.{to_lower, trim_space}
use spanalyzer.OptParam.Param.{mode_required, Param, Variant, mode_beq}
use spanalyzer.OptParam.Compose.{key}
use spanalyzer.OptParam.Verify.{opt_param_mode}

-- `PlanQueryVariant`
pub record PlanQueryVariant : Type 0 where
  pub label : String
  pub sql : String
  pub sql_sha256 : String
  pub present_params : List String
  pub absent_params : List String

-- `QueryCodegenPlanQueryVariant`
pub record CodegenVariant : Type 0 where
  pub label : String
  pub sql : String
  pub sql_sha256 : String
  pub present_params : List String
  pub absent_params : List String
  pub choice_assignments : Map String String

-- `cloneChoices`: the choices of the first variant with the label
unfoldable pub clone_choices : List Variant → String → Map String String
clone_choices [] label = []
clone_choices (v ∷ variants) label =
    let rest = clone_choices variants label in if key v == label then v.choice_assignments else rest

-- `sha256Hex` is the hash function of the Go library, in hexadecimal.
module _ (sha256_hex : String → String) where
  abbrev pub plan_variant : Variant → PlanQueryVariant
  plan_variant v = record {
    label = key v;
    sql = v.sql;
    sql_sha256 = sha256_hex v.sql;
    present_params = v.present_params;
    absent_params = v.absent_params;
  }

  unfoldable pub build_plan_variants : List Variant → List PlanQueryVariant
  build_plan_variants variants = map plan_variant variants

  abbrev pub codegen_variant : List Variant → PlanQueryVariant → CodegenVariant
  codegen_variant variants v = record {
    label = v.label;
    sql = v.sql;
    sql_sha256 = v.sql_sha256;
    present_params = v.present_params;
    absent_params = v.absent_params;
    choice_assignments = clone_choices variants v.label;
  }

  unfoldable pub to_plan_query_variants : List Variant → List CodegenVariant
  unfolding build_plan_variants
  to_plan_query_variants variants = map (codegen_variant variants) (build_plan_variants variants)

-- `QueryCodegenParam`
pub record QueryParam : Type 0 where
  pub name : String
  pub type_spec : String
  pub scope : String
  pub optional : String
  pub choices : Map String String
  pub default : String

pub data ParamError : Type 0 where
  unsupported_optional : String → String → ParamError
  param_name_required : ParamError
  duplicate_override : String → ParamError

unfoldable pub to_opt_param_params : List QueryParam → Result ParamError (List Param)
to_opt_param_params [] = ok []
to_opt_param_params (p ∷ params) = do
  let mode = opt_param_mode p.optional
  fail_if
      (mode_beq mode mode_required
        && not (trim_space p.optional == "")
        && not (to_lower (trim_space p.optional) == "required"))
      (unsupported_optional p.name p.optional)
  rest ← to_opt_param_params params
  ok (
      record {
        name = p.name;
        type_spec = p.type_spec;
        mode = mode;
        choices = p.choices;
        default = p.default;
      }
      ∷ rest)
