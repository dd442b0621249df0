-- ===== src/QueryGen/Fields.antt =====
-- internal/querygen/gostruct.go and querygen.go: the fields of generated structs.
pub mod Laws
use spanalyzer.Prelude.{
  String, List, [], ◌∷◌, Bool, true, false, not, ◌&&◌, ◌||◌, if◌then◌else◌, ◌==◌, string_eq,
  contains, map, Option, none, some, bool_eq,
}
use spanalyzer.Prelude.Results.{Result, ok, err, fail_if, ◌>>=◌, ◌>>◌}
use spanalyzer.Prelude.Switch.{switch}
use spanalyzer.Text.{to_lower, to_upper}
use spanalyzer.QueryGen.Types.{
  TypeCode, PbType, no_type, pb_type, PbStruct, no_struct, pb_struct, PbFields, no_pb_fields,
  nil_pb_field, pb_field, TypeError, nil_field_panic, code_bool, code_int64, code_float32,
  code_float64, code_timestamp, code_date, code_string, code_bytes, code_numeric, code_json,
  code_uuid, code_proto, code_enum, code_array, code_struct, code_other,
}

-- `goResultField` and a slice of them
mutual
  pub data GoField : Type 0 where
    go_field :
        (name : String) (kind : String) (repeated : Bool) (nullable : Bool) (fields : GoFields)
        → GoField

  pub data GoFields : Type 0 where
    no_more : GoFields
    next_field : (first : GoField) (rest : GoFields) → GoFields

abbrev pub name_of : GoField → String
name_of (go_field name kind repeated nullable fields) = name

abbrev pub is_nullable : GoField → Bool
is_nullable (go_field name kind repeated nullable fields) = nullable

abbrev pub set_nullable : Bool → GoField → GoField
set_nullable b (go_field name kind repeated nullable fields) = go_field name kind repeated b fields

abbrev set_repeated : GoField → GoField
set_repeated (go_field name kind repeated nullable fields) = go_field name kind true nullable fields

abbrev kind_of : TypeCode → String
kind_of code_bool = "BOOL"
kind_of code_int64 = "INT64"
kind_of code_float32 = "FLOAT32"
kind_of code_float64 = "FLOAT64"
kind_of code_timestamp = "TIMESTAMP"
kind_of code_date = "DATE"
kind_of code_string = "STRING"
kind_of code_bytes = "BYTES"
kind_of code_numeric = "NUMERIC"
kind_of code_json = "JSON"
kind_of code_uuid = "UUID"
kind_of code_proto = "PROTO"
kind_of code_enum = "ENUM"
kind_of code_array = "ARRAY"
kind_of code_struct = "STRUCT"
kind_of (code_other name) = name

-- The `switch` of `goResultFieldFromSpanner`, over the element's field and the struct's fields.
abbrev field_of :
    String
    → TypeCode
    → Result TypeError GoField
    → Result TypeError GoFields
    → Result TypeError GoField
field_of name code_array element fields = do e ← element; ok (set_repeated e)
field_of name code_struct element fields = do fs ← fields; ok (go_field name "STRUCT" false true fs)
field_of name code element fields = ok (go_field name (kind_of code) false true no_more)

-- A struct field that is nil makes the source panic.
unfoldable mutual
  pub go_result_field_from_spanner : String → PbType → Result TypeError GoField
  go_result_field_from_spanner name no_type = ok (go_field name "UNKNOWN" false true no_more)
  go_result_field_from_spanner name (pb_type code element struct_type annotation fqn) =
      field_of name code (go_result_field_from_spanner name element)
        (go_fields_from_struct struct_type)

  pub go_fields_from_struct : PbStruct → Result TypeError GoFields
  go_fields_from_struct no_struct = ok no_more
  go_fields_from_struct (pb_struct fields) = go_fields_from_spanner fields

  pub go_fields_from_spanner : PbFields → Result TypeError GoFields
  go_fields_from_spanner no_pb_fields = ok no_more
  go_fields_from_spanner (nil_pb_field rest) = err nil_field_panic
  go_fields_from_spanner (pb_field name type rest) = do
    f ← go_result_field_from_spanner name type
    fs ← go_fields_from_spanner rest
    ok (next_field f fs)

-- The errors of merging and of `applyRequiredFields`.
pub data FieldError : Type 0 where
  conflicting_types : String → FieldError
  nullability_not_proven : String → FieldError
  unsupported_policy required_not_present duplicate_name : String → FieldError

unfoldable pub canonical_go_result_kind : String → String
canonical_go_result_kind kind =
    switch (to_upper kind)
      (("INTEGER" ∷ [], "INT64")
        ∷ ("FLOAT" ∷ "DOUBLE" ∷ [], "FLOAT64")
        ∷ ("BOOLEAN" ∷ [], "BOOL")
        ∷ ("RECORD" ∷ [], "STRUCT")
        ∷ [])
      (to_upper kind)

unfoldable pub same_go_result_shape : GoField → GoField → Bool
unfolding canonical_go_result_kind
same_go_result_shape (go_field n k r b fs) (go_field n' k' r' b' fs') =
    canonical_go_result_kind k == canonical_go_result_kind k' && r == r'

abbrev pub is_empty : GoFields → Bool
is_empty no_more = true
is_empty (next_field first rest) = false

abbrev pub force_nullable : GoField → GoField
force_nullable f = set_nullable true f

-- The last field of a name, which is the one that the index map leads to.
unfoldable pub find_field : String → GoFields → Option GoField
find_field key no_more = none
find_field key (next_field first rest) = elim (find_field key rest) [
  | some later ↦ some later
  | none ↦ if to_lower (name_of first) == key then some first else none
]

abbrev pub has_field : String → GoFields → Bool
has_field key no_more = false
has_field key (next_field first rest) = to_lower (name_of first) == key || has_field key rest

-- `out[i] = merged`, where `i` is the index of the last field of that name
unfoldable pub set_field : String → GoField → GoFields → GoFields
set_field key new no_more = no_more
set_field key new (next_field first rest) =
    if has_field key rest
    then next_field first (set_field key new rest)
    else if to_lower (name_of first) == key
    then next_field new rest
    else next_field first rest

unfoldable pub append_field : GoFields → GoField → GoFields
append_field no_more new = next_field new no_more
append_field (next_field first rest) new = next_field first (append_field rest new)

-- The last loop of `mergeGoResultFields`.
unfoldable pub relax_unseen : GoFields → GoFields → GoFields
relax_unseen next no_more = no_more
relax_unseen next (next_field first rest) =
    let more = relax_unseen next rest in
    if has_field (to_lower (name_of first)) next
    then next_field first more
    else next_field (force_nullable first) more

abbrev pub with_fields : GoField → Bool → GoFields → GoField
with_fields (go_field name kind repeated nullable fields) other merged =
    go_field name kind repeated (nullable || other) merged

abbrev pub fields_of : GoField → GoFields
fields_of (go_field name kind repeated nullable fields) = fields

-- What the loop does with a field of which there is none yet, or one to merge with.
abbrev pub place :
    GoFields → GoField → Option GoField → Result FieldError GoField → Result FieldError GoFields
place out next none merged = ok (append_field out (force_nullable next))
place out next (some old) merged = do m ← merged; ok (set_field (to_lower (name_of next)) m out)

abbrev pub or_first : Option GoField → GoField → GoField
or_first none f = f
or_first (some old) f = old

abbrev pub finish : GoFields → GoFields → Result FieldError GoFields → Result FieldError GoFields
finish no_more next merged = ok next
finish (next_field first rest) next merged = do out ← merged; ok (relax_unseen next out)

unfoldable mutual
  unfolding same_go_result_shape find_field set_field append_field relax_unseen

  pub merge_go_result_field : GoField → GoField → Result FieldError GoField
  merge_go_result_field existing (go_field name kind repeated nullable fields) =
      let next = go_field name kind repeated nullable fields in
      let nested = finish (fields_of existing) fields (merge_loop (fields_of existing) fields) in
      fail_if (not (same_go_result_shape existing next)) (conflicting_types name)
      >> (if is_empty (fields_of existing) && is_empty fields
          then ok (with_fields existing nullable (fields_of existing))
          else (nested >>= λ fs. ok (with_fields existing nullable fs)))

  -- The loop over the fields of `next`, from the fields `out` so far.
  pub merge_loop : GoFields → GoFields → Result FieldError GoFields
  merge_loop out no_more = ok out
  merge_loop out (next_field next rest) =
      let old = find_field (to_lower (name_of next)) out in
      let merged = merge_go_result_field (or_first old next) next in
      place out next old merged >>= λ more. merge_loop more rest

unfoldable pub merge_go_result_fields : GoFields → GoFields → Result FieldError GoFields
unfolding merge_loop
merge_go_result_fields existing next = finish existing next (merge_loop existing next)
