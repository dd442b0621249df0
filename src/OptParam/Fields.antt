-- ===== src/OptParam/Fields.antt =====
-- internal/optparam/emit.go: the fields of the generated parameters struct and their Go types.
pub mod Laws
pub mod Struct
use Prim.Native.Char.{Char, code}
use Prim.Native.String
use spanalyzer.Prelude.{
  Option, none, some, String, List, [], ◌∷◌, ◌++◌, Bool, true, false, not, ◌&&◌, ◌||◌,
  if◌then◌else◌, ◌==◌, string_eq, contains, nat_beq,
}
use spanalyzer.Prelude.Order.{string_ord}
use spanalyzer.Prelude.Sorting.{sort}
use spanalyzer.Prelude.Switch.{switch}
use spanalyzer.Prelude.Results.{Result, ok, err, ◌>>=◌, traverse}
use spanalyzer.Text.{
  trim_space, to_upper, has_prefix, has_suffix, trim_prefix, trim_suffix, ascii_upper_char,
}
use spanalyzer.OptParam.Param.{
  Mode, mode_required, mode_null_is_null, mode_omit_when_null, mode_omit_when_empty,
  mode_order_by_choice, Param, SegmentKind, seg_fixed, Segment, Error, unmapped_type,
  unsupported_mode, not_an_array, no_param_entry, mode_beq,
}

abbrev pub is_fixed : SegmentKind → Bool
is_fixed seg_fixed = true
is_fixed _ = false

params_on : List String → List Segment → List String
params_on seen [] = []
params_on seen (s ∷ segments) =
    let passed = params_on seen segments in
    let added = s.param ∷ params_on (s.param ∷ seen) segments in
    if is_fixed s.kind || contains seen s.param then passed else added

unfoldable pub params_on_segments : List Segment → List String
unfolding params_on
params_on_segments segments = params_on [] segments

unfoldable pub null_is_null_params : List Param → List String
null_is_null_params [] = []
null_is_null_params (p ∷ params) =
    let rest = null_is_null_params params in
    if mode_beq p.mode mode_null_is_null then p.name ∷ rest else rest

unfoldable pub required_params : List Param → List String → List String
required_params [] seen = []
required_params (p ∷ params) seen =
    let passed = required_params params seen in
    let added = p.name ∷ required_params params (p.name ∷ seen) in
    if not (mode_beq p.mode mode_required) || contains seen p.name then passed else added

-- The fields of the struct, without the nullable ones.
unfoldable pub field_names : List Segment → List Param → List String
field_names segments params =
    let gated = params_on_segments segments in sort (gated ++ required_params params gated)

abbrev spec_of : Param → String
spec_of p = to_upper (trim_space p.type_spec)

abbrev is_array : String → Bool
is_array upper = has_prefix upper "ARRAY<" && has_suffix upper ">"

unfoldable pub go_slice_type : Param → Result Error String
go_slice_type p =
    let upper = spec_of p in
    let element = trim_suffix (trim_prefix upper "ARRAY<") ">" in
    if not (is_array upper)
    then err (not_an_array p.name)
    else switch element
        (("STRING" ∷ [], ok "[]string")
          ∷ ("INT64" ∷ [], ok "[]int64")
          ∷ ("BOOL" ∷ [], ok "[]bool")
          ∷ ("FLOAT64" ∷ [], ok "[]float64")
          ∷ [])
        (err (unmapped_type p.name))

unfoldable pub go_required_type : Param → Result Error String
go_required_type p =
    if is_array (spec_of p)
    then go_slice_type p
    else switch (spec_of p)
        (("STRING" ∷ [], ok "string")
          ∷ ("INT64" ∷ [], ok "int64")
          ∷ ("BOOL" ∷ [], ok "bool")
          ∷ ("FLOAT64" ∷ [], ok "float64")
          ∷ ("BYTES" ∷ [], ok "[]byte")
          ∷ [])
        (err (unmapped_type p.name))

unfoldable pub go_pointer_type : Param → Result Error String
go_pointer_type p =
    switch (spec_of p)
      (("STRING" ∷ [], ok "*string")
        ∷ ("INT64" ∷ [], ok "*int64")
        ∷ ("BOOL" ∷ [], ok "*bool")
        ∷ ("FLOAT64" ∷ [], ok "*float64")
        ∷ ("BYTES" ∷ [], ok "*[]byte")
        ∷ [])
      (err (unmapped_type p.name))

unfoldable pub go_nullable_type : Param → Result Error String
go_nullable_type p =
    switch (spec_of p)
      (("STRING" ∷ [], ok "spanner.NullString")
        ∷ ("INT64" ∷ [], ok "spanner.NullInt64")
        ∷ ("BOOL" ∷ [], ok "spanner.NullBool")
        ∷ ("FLOAT64" ∷ [], ok "spanner.NullFloat64")
        ∷ [])
      (err (unmapped_type p.name))

abbrev pub type_by_mode : Mode → Param → Result Error String
type_by_mode mode_required p = go_required_type p
type_by_mode mode_omit_when_null p = go_pointer_type p
type_by_mode mode_omit_when_empty p = go_slice_type p
type_by_mode mode_order_by_choice p = ok "string"
type_by_mode mode_null_is_null p = err (unsupported_mode p.name)

unfoldable pub go_field_type : Param → Result Error String
go_field_type p = type_by_mode p.mode p

export_from : Bool → String → String
export_from upper String.[] = ""
export_from upper (String.◌∷◌ c s) =
    let next = export_from true s in
    let raised = String.◌∷◌ (ascii_upper_char c) (export_from false s) in
    let same = String.◌∷◌ c (export_from false s) in
    if nat_beq (code c) b'_' then next else if upper then raised else same

unfoldable pub export_ident : String → String
unfolding export_from ascii_upper_char
export_ident name = export_from true name

-- `byName[name]`: a later parameter of the same name replaces an earlier one.
unfoldable pub param_named : String → List Param → Option Param
param_named name [] = none
param_named name (p ∷ params) = elim (param_named name params) [
  | none ↦ if p.name == name then some p else none
  | some q ↦ some q
]

abbrev pub declared :
    (Param → Result Error String) → String → Option Param → Result Error (String × String)
declared type_of name none = err (no_param_entry name)
declared type_of name (some p) = type_of p >>= λ go_type. ok (export_ident name, go_type)

unfoldable pub declare :
    (Param → Result Error String) → List Param → String → Result Error (String × String)
unfolding export_ident param_named
declare type_of params name = declared type_of name (param_named name params)

-- The fields of the struct that `EmitGoBuilder` writes, each with its Go type. Every nullable
-- parameter has an entry, so that the error for a missing one is met only in the first loop.
unfoldable pub struct_fields : List Segment → List Param → Result Error (List (String × String))
unfolding field_names null_is_null_params declare go_field_type go_nullable_type
struct_fields segments params =
    traverse (declare go_field_type params) (field_names segments params) >>= λ gated.
    traverse (declare go_nullable_type params) (sort (null_is_null_params params)) >>= λ nullable.
    ok (gated ++ nullable)
