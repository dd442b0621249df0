-- ===== src/QueryGen/Types.antt =====
-- catalog.go, spannerpb.go, resultconv.go: schema types and the protobuf types of Cloud Spanner.
pub mod Laws
use spanalyzer.Prelude.{String, ℕ, Bool, true, false, Option, none, some, if◌then◌else◌}
use spanalyzer.Prelude.Results.{Result, ok, err, ◌>>=◌}

-- `spannerpb.TypeCode`, an open enumeration; any other code is here by its name.
pub data TypeCode : Type 0 where
  code_bool code_int64 code_float32 code_float64 code_timestamp code_date code_string : TypeCode
  code_bytes code_numeric code_json code_uuid code_proto code_enum code_array : TypeCode
  code_struct : TypeCode
  code_other : String → TypeCode

-- `TypeSpec`; a nil pointer is `no_spec`.
mutual
  pub data TypeSpec : Type 0 where
    no_spec : TypeSpec
    type_spec :
        (code : TypeCode) (tokenlist : Bool) (array_element : TypeSpec)
        (struct_fields : StructFields) (proto_type_fqn : String) (length : Option ℕ) (max : Bool)
        → TypeSpec

  pub data StructFields : Type 0 where
    none_left : StructFields
    field : (name : String) (type : TypeSpec) (rest : StructFields) → StructFields

-- `spannerpb.Type`, `spannerpb.StructType` and its fields, of which each may be nil. The source
-- neither reads nor writes the type annotation.
mutual
  pub data PbType : Type 0 where
    no_type : PbType
    pb_type :
        (code : TypeCode) (array_element_type : PbType) (struct_type : PbStruct) (annotation : ℕ)
        (proto_type_fqn : String)
        → PbType

  pub data PbStruct : Type 0 where
    no_struct : PbStruct
    pb_struct : (fields : PbFields) → PbStruct

  pub data PbFields : Type 0 where
    no_pb_fields : PbFields
    nil_pb_field : (rest : PbFields) → PbFields
    pb_field : (name : String) (type : PbType) (rest : PbFields) → PbFields

pub data TypeError : Type 0 where
  nil_type_spec tokenlist_not_representable nil_pb_type nil_field_panic : TypeError
  nil_struct_field : ℕ → TypeError

-- A type of one code, and of nothing else.
abbrev pub only_code : TypeCode → PbType
only_code code = pb_type code no_type no_struct 0 ""

abbrev array_of : PbType → PbType
array_of element = pb_type code_array element no_struct 0 ""

abbrev struct_of : PbFields → PbType
struct_of fields = pb_type code_struct no_type (pb_struct fields) 0 ""

-- The `switch` of `SpannerPB`, over the conversions of the element and of the fields.
abbrev pb_of :
    TypeCode
    → Result TypeError PbType
    → Result TypeError PbFields
    → String
    → Result TypeError PbType
pb_of code_array element fields fqn = do e ← element; ok (array_of e)
pb_of code_struct element fields fqn = do fs ← fields; ok (struct_of fs)
pb_of code_proto element fields fqn = ok (pb_type code_proto no_type no_struct 0 fqn)
pb_of code_enum element fields fqn = ok (pb_type code_enum no_type no_struct 0 fqn)
pb_of code element fields fqn = ok (only_code code)

unfoldable mutual
  -- `TypeSpec.SpannerPB`
  pub spanner_pb : TypeSpec → Result TypeError PbType
  spanner_pb no_spec = err nil_type_spec
  spanner_pb (type_spec code true element fields fqn length max) = err tokenlist_not_representable
  spanner_pb (type_spec code false element fields fqn length max) =
      pb_of code (spanner_pb element) (spanner_pb_fields fields) fqn

  pub spanner_pb_fields : StructFields → Result TypeError PbFields
  spanner_pb_fields none_left = ok no_pb_fields
  spanner_pb_fields (field name type rest) = do
    t ← spanner_pb type
    ts ← spanner_pb_fields rest
    ok (pb_field name t ts)

abbrev pub only_spec : TypeCode → TypeSpec
only_spec code = type_spec code false no_spec none_left "" none false

abbrev spec_of :
    TypeCode
    → Result TypeError TypeSpec
    → Result TypeError StructFields
    → String
    → Result TypeError TypeSpec
spec_of code_array element fields fqn = do
  e ← element
  ok (type_spec code_array false e none_left "" none false)
spec_of code_struct element fields fqn = do
  fs ← fields
  ok (type_spec code_struct false no_spec fs "" none false)
spec_of code_proto element fields fqn =
    ok (type_spec code_proto false no_spec none_left fqn none false)
spec_of code_enum element fields fqn =
    ok (type_spec code_enum false no_spec none_left fqn none false)
spec_of code element fields fqn = ok (only_spec code)

unfoldable mutual
  -- `TypeSpecFromSpannerPB`; the number is the index of the field.
  pub type_spec_from_spanner_pb : PbType → Result TypeError TypeSpec
  type_spec_from_spanner_pb no_type = err nil_pb_type
  type_spec_from_spanner_pb (pb_type code element struct_type annotation fqn) =
      spec_of code (type_spec_from_spanner_pb element) (fields_from_struct struct_type) fqn

  pub fields_from_struct : PbStruct → Result TypeError StructFields
  fields_from_struct no_struct = ok none_left
  fields_from_struct (pb_struct fields) = fields_from_spanner_pb 0 fields

  pub fields_from_spanner_pb : ℕ → PbFields → Result TypeError StructFields
  fields_from_spanner_pb i no_pb_fields = ok none_left
  fields_from_spanner_pb i (nil_pb_field rest) = err (nil_struct_field i)
  fields_from_spanner_pb i (pb_field name type rest) = do
    t ← type_spec_from_spanner_pb type
    ts ← fields_from_spanner_pb (ℕ.suc i) rest
    ok (field name t ts)
