-- ===== src/QueryGen/Tests.antt =====
-- Runs of the conversions, of merging and of resolving a write on small inputs.
use spanalyzer.Prelude.{String, [], ◌∷◌, ◌≡◌, refl, Bool, true, false, none, some, map, string_eq}
use spanalyzer.Prelude.Results.{ok, err}
use spanalyzer.Text.{to_lower, equal_fold, trim_space}
use spanalyzer.QueryGen.Types.{
  TypeSpec, PbType, code_string, code_array, code_struct, code_int64, no_spec, type_spec, none_left,
  field, only_code, only_spec, no_type, no_struct, pb_type, pb_struct, pb_field, no_pb_fields,
  spanner_pb,
}
use spanalyzer.QueryGen.Fields.{
  GoFields, go_field, no_more, next_field, go_result_field_from_spanner,
}
use spanalyzer.QueryGen.Columns.{
  Column, Table, insert_row, insert_or_update_row, update_row, resolve_write_columns,
  non_key_column_names, selectable_column_names, validate_resolved_write_columns,
  append_missing_columns, required_insert_columns,
}
use spanalyzer.OptParam.Plan.{QueryParam}
use spanalyzer.QueryGen.Required.{apply_required_fields, merge_query_codegen_params}
use spanalyzer.QueryGen.Required.Laws.{Requires, apply_required_fields-Requires}
use spanalyzer.QueryGen.Required.Params.{Extends, merge_query_codegen_params-Extends}
use spanalyzer.QueryGen.Writes.{Write, WriteSpec, resolve_write}
use spanalyzer.QueryGen.Writes.Laws.{IsSound, resolve_write-IsSound}
use spanalyzer.QueryGen.Config.{WriteConfig, SpannerEmit, normalize, insert_only_column}

-- ARRAY<STRUCT<a STRING(10)>>
abbrev sample_type : TypeSpec
sample_type =
    type_spec code_array false
      (type_spec code_struct false no_spec
        (field "a" (type_spec code_string false no_spec none_left "" (some 10) false) none_left) ""
        none false)
      none_left "" none false

abbrev sample_pb : PbType
sample_pb =
    pb_type code_array
      (pb_type code_struct no_type (pb_struct (pb_field "a" (only_code code_string) no_pb_fields)) 0
        "")
      no_struct 0 ""

-- The struct has `a`, without nulls; the result has `A`, which may be null, and `b`.
abbrev struct_fields : GoFields
struct_fields = next_field (go_field "a" "INT64" false false no_more) no_more

abbrev result_fields : GoFields
result_fields =
    next_field (go_field "A" "INTEGER" false true no_more)
      (next_field (go_field "b" "STRING" false false no_more) no_more)

abbrev merged_fields : GoFields
merged_fields =
    next_field (go_field "a" "INT64" false true no_more)
      (next_field (go_field "b" "STRING" false true no_more) no_more)

abbrev column_of : String → Bool → Column
column_of name primary_key = record {
  name = name;
  type = only_spec code_int64;
  not_null = true;
  hidden = false;
  primary_key = primary_key;
  default_sql = "";
  generated_sql = "";
  on_update_sql = "";
  allow_commit_timestamp = false;
}

abbrev sample_table : Table
sample_table = record {
  name_parts = "Singers" ∷ [];
  columns = column_of "Id" true ∷ column_of "Age" false ∷ [];
  primary_key = record { name = "Id"; desc = false } ∷ [];
  synonyms = [];
}

abbrev sample_write : Write
sample_write = record {
  name = "SetAge";
  table = "Singers";
  operation = "Update";
  keys = [];
  insert_columns = [];
  update_columns = "auto_all_non_key_columns" ∷ [];
  methods = "DML" ∷ [];
  emit_explicit = false;
}

abbrev sample_spec : WriteSpec
sample_spec = record {
  operation = update_row;
  all_columns = sample_table.columns;
  insert_columns = column_of "Id" true ∷ [];
  update_columns = column_of "Age" false ∷ [];
  input_columns = column_of "Age" false ∷ column_of "Id" true ∷ [];
  keys = column_of "Id" true ∷ [];
  fields =
      go_field "Age" "INT64" false false no_more ∷ go_field "Id" "INT64" false false no_more ∷ [];
  methods = "dml" ∷ [];
}

write_resolves : resolve_write sample_table sample_write ≡ ok sample_spec
unfolding resolve_write to_lower resolve_write_columns equal_fold non_key_column_names
    selectable_column_names validate_resolved_write_columns append_missing_columns spanner_pb
    go_result_field_from_spanner
write_resolves = refl

-- An insert of an age alone resolves, though the key has no default and may not be null: the test
-- for required columns skips key columns.
abbrev key_omitted : Write
key_omitted = record sample_write {
  operation = "insert";
  insert_columns = "Age" ∷ [];
  update_columns = [];
}

abbrev key_omitted_spec : WriteSpec
key_omitted_spec = record sample_spec {
  operation = insert_row;
  insert_columns = column_of "Age" false ∷ [];
  update_columns = [];
  input_columns = column_of "Age" false ∷ [];
  fields = go_field "Age" "INT64" false false no_more ∷ [];
}

key_omitted_resolves : resolve_write sample_table key_omitted ≡ ok key_omitted_spec
unfolding resolve_write to_lower resolve_write_columns equal_fold non_key_column_names
    selectable_column_names validate_resolved_write_columns append_missing_columns spanner_pb
    go_result_field_from_spanner required_insert_columns
key_omitted_resolves = refl

-- So does an upsert of an age alone: the key is a column of the input struct, but none of the
-- columns that are inserted.
abbrev upsert_without_key : Write
upsert_without_key = record key_omitted {
  operation = "insert_or_update";
  update_columns = "Age" ∷ [];
}

abbrev upsert_without_key_spec : WriteSpec
upsert_without_key_spec = record sample_spec {
  operation = insert_or_update_row;
  insert_columns = column_of "Age" false ∷ [];
}

upsert_without_key_resolves :
    resolve_write sample_table upsert_without_key ≡ ok upsert_without_key_spec
unfolding resolve_write to_lower resolve_write_columns equal_fold non_key_column_names
    selectable_column_names validate_resolved_write_columns append_missing_columns spanner_pb
    go_result_field_from_spanner required_insert_columns
upsert_without_key_resolves = refl

resolve_write-IsSound_example : IsSound sample_table sample_spec
resolve_write-IsSound_example =
    resolve_write-IsSound sample_table sample_write {spec = sample_spec} write_resolves

-- An upsert of the public YAML with its key written.
abbrev upsert_config : WriteConfig
upsert_config = record {
  name = "SetAge";
  catalog = "app";
  table = "Singers";
  operation = " Upsert";
  key_columns = "id" ∷ [];
  insert_columns = "Age" ∷ "Id" ∷ [];
  update_columns = "Age" ∷ [];
  all_non_key_columns = false;
  conflict_strategy = "";
}

abbrev all_methods : SpannerEmit
all_methods = record { query_methods = true; mutations = true; dml = true }

abbrev upsert_write : Write
upsert_write = record {
  name = "SetAge";
  table = "Singers";
  operation = "insert_or_update";
  keys = "id" ∷ [];
  insert_columns = "Age" ∷ "Id" ∷ [];
  update_columns = "Age" ∷ [];
  methods = "mutation" ∷ "dml" ∷ [];
  emit_explicit = true;
}

-- With its key omitted the same upsert is refused, and accepted without the key's column.
upsert_key_refused :
    normalize all_methods (record upsert_config { key_columns = [] })
    ≡ err (insert_only_column "Id")
unfolding normalize to_lower trim_space
upsert_key_refused = refl

upsert_without_key_normalizes :
    normalize all_methods (record upsert_config { key_columns = []; insert_columns = "Age" ∷ [] })
    ≡ ok (record upsert_write { keys = []; insert_columns = "Age" ∷ [] })
unfolding normalize to_lower trim_space
upsert_without_key_normalizes = refl

abbrev required_fields : GoFields
required_fields =
    next_field (go_field "A" "INTEGER" false false no_more)
      (next_field (go_field "b" "STRING" false false no_more) no_more)

fields_required : apply_required_fields result_fields ("a" ∷ []) "" ≡ ok required_fields
unfolding apply_required_fields to_lower
fields_required = refl

apply_required_fields-Requires_example :
    Requires (map to_lower ("a" ∷ [])) result_fields required_fields
apply_required_fields-Requires_example =
    apply_required_fields-Requires result_fields ("a" ∷ []) "" {out = required_fields}
      fields_required

abbrev param_of : String → String → QueryParam
param_of name t = record {
  name = name;
  type_spec = t;
  scope = "";
  optional = "";
  choices = [];
  default = "";
}

-- The query makes the generated parameter optional and adds another.
params_merge :
    merge_query_codegen_params
      (param_of "Id" "INT64" ∷ [])
      (record (param_of "id" "") { optional = "omit_when_null" } ∷ param_of "limit" "INT64" ∷ [])
    ≡ ok (
        record (param_of "Id" "INT64") { optional = "omit_when_null" }
        ∷ param_of "limit" "INT64"
        ∷ [])
unfolding merge_query_codegen_params to_lower trim_space
params_merge = refl

merge_query_codegen_params-Extends_example :
    Extends
      (param_of "Id" "INT64" ∷ [])
      (record (param_of "id" "") { optional = "omit_when_null" } ∷ param_of "limit" "INT64" ∷ [])
      (record (param_of "Id" "INT64") { optional = "omit_when_null" }
        ∷ param_of "limit" "INT64"
        ∷ [])
merge_query_codegen_params-Extends_example =
    merge_query_codegen_params-Extends (param_of "Id" "INT64" ∷ [])
      (record (param_of "id" "") { optional = "omit_when_null" } ∷ param_of "limit" "INT64" ∷ [])
      params_merge
