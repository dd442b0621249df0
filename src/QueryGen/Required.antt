-- ===== src/QueryGen/Required.antt =====
-- internal/querygen/querygen.go: fields that a query declares as required, names of fields that must
-- differ, and the parameters that a query adds to generated ones.
pub mod Laws
pub mod Params
use Prim.Native.String
use spanalyzer.Prelude.{
  String, List, [], ◌∷◌, ◌++◌, Bool, true, false, not, ◌&&◌, ◌||◌, if◌then◌else◌, ◌==◌, string_eq,
  any, contains, select, map,
}
use spanalyzer.Prelude.Results.{Result, ok, err, fail_if, ◌>>=◌, ◌>>◌}
use spanalyzer.Text.{to_lower, trim_space}
use spanalyzer.OptParam.Plan.{QueryParam, ParamError, param_name_required, duplicate_override}
use spanalyzer.QueryGen.Fields.{
  GoField, GoFields, no_more, go_field, next_field, name_of, is_nullable, set_nullable, fields_of,
  FieldError, nullability_not_proven, unsupported_policy, required_not_present, duplicate_name,
  is_empty,
}

-- `delete(requiredSet, key)`
abbrev pub without : String → List String → List String
without key names = select (λ name. not (name == key)) names

-- What the loop of `applyRequiredFields` answers in the end for the names that are left.
abbrev none_missing : List String → Result FieldError GoFields
none_missing [] = ok no_more
none_missing (name ∷ names) = err (required_not_present name)

-- The loop of `applyRequiredFields`; `names` is the set of the required names not yet met.
unfoldable pub require_fields : String → List String → GoFields → Result FieldError GoFields
require_fields policy names no_more = none_missing names
require_fields policy names (next_field first rest) =
    let key = to_lower (name_of first) in
    let others = require_fields policy names rest in
    let fewer = require_fields policy (without key names) rest in
    let met =
      fail_if (policy == "strict" && is_nullable first) (nullability_not_proven (name_of first))
      >> fail_if (not (policy == "override") && not (policy == "strict"))
          (unsupported_policy policy)
      >> (fewer >>= λ fs. ok (next_field (set_nullable false first) fs)) in
    if contains names key then met else (others >>= λ fs. ok (next_field first fs))

unfoldable pub apply_required_fields : GoFields → List String → String → Result FieldError GoFields
unfolding require_fields
apply_required_fields fields [] policy = ok fields
apply_required_fields fields (name ∷ names) policy =
    require_fields (to_lower (if policy == "" then "override" else policy))
      (map to_lower (name ∷ names)) fields

-- `validateUniqueQueryResultFieldNames`; `seen` has the keys of the fields before, and the path in
-- the error's text is left out.
unfoldable mutual
  pub validate_unique_field : GoField → Result FieldError (Unit {0})
  validate_unique_field (go_field name kind repeated nullable nested) =
      validate_unique_field_names [] nested

  pub validate_unique_field_names : List String → GoFields → Result FieldError (Unit {0})
  validate_unique_field_names seen no_more = ok tt
  validate_unique_field_names seen (next_field first rest) =
      let key = to_lower (name_of first) in
      fail_if (contains seen key) (duplicate_name (name_of first))
      >> validate_unique_field first
      >> validate_unique_field_names (key ∷ seen) rest

abbrev pub param_key : QueryParam → String
param_key p = to_lower p.name

-- What a parameter of the configuration makes of the generated one of its name.
abbrev pub override : QueryParam → QueryParam → QueryParam
override old new = record new {
  name = old.name;
  type_spec = if trim_space new.type_spec == "" then old.type_spec else new.type_spec;
  scope = if trim_space new.scope == "" then old.scope else new.scope;
}

-- `out[i] = merged`, where `i` is the index of the last parameter of that key
unfoldable pub replace_param : QueryParam → List QueryParam → List QueryParam
replace_param new [] = []
replace_param new (old ∷ params) =
    let later = replace_param new params in
    if any (λ p. param_key p == param_key new) params
    then old ∷ later
    else if param_key old == param_key new
    then override old new ∷ params
    else old ∷ params

unfoldable pub check_names : List QueryParam → Result ParamError (Unit {0})
check_names [] = ok tt
check_names (p ∷ params) = fail_if (param_key p == "") param_name_required >> check_names params

-- The loop over the overrides, from the parameters `out` so far.
unfoldable pub override_params :
    List QueryParam → List String → List QueryParam → Result ParamError (List QueryParam)
unfolding replace_param
override_params out seen [] = ok out
override_params out seen (new ∷ overrides) =
    let key = param_key new in
    let out' =
      if any (λ p. param_key p == key) out then replace_param new out else out ++ new ∷ [] in
    fail_if (key == "") param_name_required
    >> fail_if (contains seen key) (duplicate_override new.name)
    >> override_params out' (key ∷ seen) overrides

unfoldable pub merge_query_codegen_params :
    List QueryParam → List QueryParam → Result ParamError (List QueryParam)
unfolding check_names override_params
merge_query_codegen_params defaults overrides =
    check_names defaults >> override_params defaults [] overrides
