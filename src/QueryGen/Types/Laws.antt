-- ===== src/QueryGen/Types/Laws.antt =====
-- What the conversions between the two kinds of types keep.
use spanalyzer.Prelude.{String, ℕ, suc, ◌≡◌, refl, true, false, none}
use spanalyzer.Prelude.Results.{ok, bind-eq-ok, ok_injective}
use spanalyzer.QueryGen.Types.{
  TypeCode, code_bool, code_int64, code_float32, code_float64, code_timestamp, code_date,
  code_string, code_bytes, code_numeric, code_json, code_uuid, code_proto, code_enum, code_array,
  code_struct, code_other, TypeSpec, no_spec, type_spec, StructFields, none_left, field, PbType,
  no_type, pb_type, PbStruct, no_struct, pb_struct, PbFields, no_pb_fields, nil_pb_field, pb_field,
  only_code, only_spec, spanner_pb, spanner_pb_fields, type_spec_from_spanner_pb,
  fields_from_struct, fields_from_spanner_pb,
}

-- What a protobuf type says of a schema type: no lengths, and only the parts that its code uses.
abbrev plain_by : TypeCode → TypeSpec → StructFields → String → TypeSpec
plain_by code_array element fields fqn = type_spec code_array false element none_left "" none false
plain_by code_struct element fields fqn = type_spec code_struct false no_spec fields "" none false
plain_by code_proto element fields fqn = type_spec code_proto false no_spec none_left fqn none false
plain_by code_enum element fields fqn = type_spec code_enum false no_spec none_left fqn none false
plain_by code element fields fqn = only_spec code

mutual
  pub plain : TypeSpec → TypeSpec
  plain no_spec = no_spec
  plain (type_spec code tokenlist element fields fqn length max) =
      plain_by code (plain element) (plain_fields fields) fqn

  pub plain_fields : StructFields → StructFields
  plain_fields none_left = none_left
  plain_fields (field name type rest) = field name (plain type) (plain_fields rest)

mutual
  unfolding spanner_pb spanner_pb_fields type_spec_from_spanner_pb fields_from_struct
      fields_from_spanner_pb plain plain_fields

  pb_round :
      (t : TypeSpec) (p : PbType) → spanner_pb t ≡ ok p → type_spec_from_spanner_pb p ≡ ok (plain t)
  pb_round no_spec p e = cc
  pb_round (type_spec code true element fields fqn length max) p e = cc
  pb_round (type_spec code_array false element fields fqn length max) p e =
      let (q, h, k) = bind-eq-ok (spanner_pb element) _ e in
      rw (← ok_injective _ p k, pb_round element q h) refl
  pb_round (type_spec code_struct false element fields fqn length max) p e =
      let (qs, h, k) = bind-eq-ok (spanner_pb_fields fields) _ e in
      rw (← ok_injective _ p k, fields_round 0 fields qs h) refl
  pb_round (type_spec code_bool false element fields fqn length max) p e =
      rw (← ok_injective _ p e) refl
  pb_round (type_spec code_int64 false element fields fqn length max) p e =
      rw (← ok_injective _ p e) refl
  pb_round (type_spec code_float32 false element fields fqn length max) p e =
      rw (← ok_injective _ p e) refl
  pb_round (type_spec code_float64 false element fields fqn length max) p e =
      rw (← ok_injective _ p e) refl
  pb_round (type_spec code_timestamp false element fields fqn length max) p e =
      rw (← ok_injective _ p e) refl
  pb_round (type_spec code_date false element fields fqn length max) p e =
      rw (← ok_injective _ p e) refl
  pb_round (type_spec code_string false element fields fqn length max) p e =
      rw (← ok_injective _ p e) refl
  pb_round (type_spec code_bytes false element fields fqn length max) p e =
      rw (← ok_injective _ p e) refl
  pb_round (type_spec code_numeric false element fields fqn length max) p e =
      rw (← ok_injective _ p e) refl
  pb_round (type_spec code_json false element fields fqn length max) p e =
      rw (← ok_injective _ p e) refl
  pb_round (type_spec code_uuid false element fields fqn length max) p e =
      rw (← ok_injective _ p e) refl
  pb_round (type_spec code_proto false element fields fqn length max) p e =
      rw (← ok_injective _ p e) refl
  pb_round (type_spec code_enum false element fields fqn length max) p e =
      rw (← ok_injective _ p e) refl
  pb_round (type_spec (code_other n) false element fields fqn length max) p e =
      rw (← ok_injective _ p e) refl

  fields_round :
      (i : ℕ) (fs : StructFields) (ps : PbFields)
      → spanner_pb_fields fs ≡ ok ps
      → fields_from_spanner_pb i ps ≡ ok (plain_fields fs)
  fields_round i none_left ps e = rw (← ok_injective _ ps e) refl
  fields_round i (field name type rest) ps e =
      let (q, h, k) = bind-eq-ok (spanner_pb type) _ e in
      let (qs, h', k') = bind-eq-ok (spanner_pb_fields rest) _ k in
      rw (← ok_injective _ ps k', pb_round type q h, fields_round (suc i) rest qs h') refl

-- What is left of a protobuf type: no annotation, and only the parts that its code uses.
abbrev canonical_by : TypeCode → PbType → PbFields → String → PbType
canonical_by code_array element fields fqn = pb_type code_array element no_struct 0 ""
canonical_by code_struct element fields fqn = pb_type code_struct no_type (pb_struct fields) 0 ""
canonical_by code_proto element fields fqn = pb_type code_proto no_type no_struct 0 fqn
canonical_by code_enum element fields fqn = pb_type code_enum no_type no_struct 0 fqn
canonical_by code element fields fqn = only_code code

mutual
  pub canonical : PbType → PbType
  canonical no_type = no_type
  canonical (pb_type code element struct_type annotation fqn) =
      canonical_by code (canonical element) (canonical_struct struct_type) fqn

  pub canonical_struct : PbStruct → PbFields
  canonical_struct no_struct = no_pb_fields
  canonical_struct (pb_struct fields) = canonical_fields fields

  pub canonical_fields : PbFields → PbFields
  canonical_fields no_pb_fields = no_pb_fields
  canonical_fields (nil_pb_field rest) = nil_pb_field (canonical_fields rest)
  canonical_fields (pb_field name type rest) =
      pb_field name (canonical type) (canonical_fields rest)

mutual
  unfolding spanner_pb spanner_pb_fields type_spec_from_spanner_pb fields_from_struct
      fields_from_spanner_pb canonical canonical_struct canonical_fields

  spec_round :
      (p : PbType) (t : TypeSpec)
      → type_spec_from_spanner_pb p ≡ ok t
      → spanner_pb t ≡ ok (canonical p)
  spec_round no_type t e = cc
  spec_round (pb_type code_array element struct_type annotation fqn) t e =
      let (q, h, k) = bind-eq-ok (type_spec_from_spanner_pb element) _ e in
      rw (← ok_injective _ t k, spec_round element q h) refl
  spec_round (pb_type code_struct element struct_type annotation fqn) t e =
      let (qs, h, k) = bind-eq-ok (fields_from_struct struct_type) _ e in
      rw (← ok_injective _ t k, struct_round struct_type qs h) refl
  spec_round (pb_type code_bool element struct_type annotation fqn) t e =
      rw (← ok_injective _ t e) refl
  spec_round (pb_type code_int64 element struct_type annotation fqn) t e =
      rw (← ok_injective _ t e) refl
  spec_round (pb_type code_float32 element struct_type annotation fqn) t e =
      rw (← ok_injective _ t e) refl
  spec_round (pb_type code_float64 element struct_type annotation fqn) t e =
      rw (← ok_injective _ t e) refl
  spec_round (pb_type code_timestamp element struct_type annotation fqn) t e =
      rw (← ok_injective _ t e) refl
  spec_round (pb_type code_date element struct_type annotation fqn) t e =
      rw (← ok_injective _ t e) refl
  spec_round (pb_type code_string element struct_type annotation fqn) t e =
      rw (← ok_injective _ t e) refl
  spec_round (pb_type code_bytes element struct_type annotation fqn) t e =
      rw (← ok_injective _ t e) refl
  spec_round (pb_type code_numeric element struct_type annotation fqn) t e =
      rw (← ok_injective _ t e) refl
  spec_round (pb_type code_json element struct_type annotation fqn) t e =
      rw (← ok_injective _ t e) refl
  spec_round (pb_type code_uuid element struct_type annotation fqn) t e =
      rw (← ok_injective _ t e) refl
  spec_round (pb_type code_proto element struct_type annotation fqn) t e =
      rw (← ok_injective _ t e) refl
  spec_round (pb_type code_enum element struct_type annotation fqn) t e =
      rw (← ok_injective _ t e) refl
  spec_round (pb_type (code_other n) element struct_type annotation fqn) t e =
      rw (← ok_injective _ t e) refl

  struct_round :
      (s : PbStruct) (fs : StructFields)
      → fields_from_struct s ≡ ok fs
      → spanner_pb_fields fs ≡ ok (canonical_struct s)
  struct_round no_struct fs e = rw (← ok_injective _ fs e) refl
  struct_round (pb_struct fields) fs e = pb_fields_round 0 fields fs e

  pb_fields_round :
      (i : ℕ) (ps : PbFields) (fs : StructFields)
      → fields_from_spanner_pb i ps ≡ ok fs
      → spanner_pb_fields fs ≡ ok (canonical_fields ps)
  pb_fields_round i no_pb_fields fs e = rw (← ok_injective _ fs e) refl
  pb_fields_round i (nil_pb_field rest) fs e = cc
  pb_fields_round i (pb_field name type rest) fs e =
      let (q, h, k) = bind-eq-ok (type_spec_from_spanner_pb type) _ e in
      let (qs, h', k') = bind-eq-ok (fields_from_spanner_pb (suc i) rest) _ k in
      rw (← ok_injective _ fs k', spec_round type q h, pb_fields_round (suc i) rest qs h') refl

-- A protobuf type that `TypeSpecFromSpannerPB` reads is written by `SpannerPB` as the same type
-- without annotations and without the parts that its code does not use, and reading that again
-- gives what was read first.
pub type_spec_from_spanner_pb-round :
    (p : PbType) (t : TypeSpec)
    → type_spec_from_spanner_pb p ≡ ok t
    → (spanner_pb t ≡ ok (canonical p)) × (type_spec_from_spanner_pb (canonical p) ≡ ok (plain t))
type_spec_from_spanner_pb-round p t e =
    (spec_round p t e, pb_round t (canonical p) (spec_round p t e))
