-- ===== src/QueryGen/Writes.antt =====
-- internal/querygen/querygen.go: `resolveWriteSpec` behind the lookup of the table, and the columns
-- that a write binds.
pub mod Laws
use Prim.Native.String
use spanalyzer.Prelude.{
  String, List, [], ◌∷◌, ◌++◌, Bool, true, false, not, ◌&&◌, ◌||◌, Option, none, some, map,
  if◌then◌else◌, ◌==◌, string_eq, contains, nonempty,
}
use spanalyzer.Prelude.Results.{Result, ok, err, fail_if, ◌>>=◌, ◌>>◌}
use spanalyzer.Prelude.Switch.{switch}
use spanalyzer.Text.{to_lower, join}
use spanalyzer.QueryGen.Types.{PbType, TypeError, spanner_pb}
use spanalyzer.QueryGen.Fields.{GoField, go_field, go_result_field_from_spanner}
use spanalyzer.QueryGen.Columns.{
  Column, Table, WriteError, unsupported_operation, unsupported_method, duplicate_method,
  no_dml_for_replace, keys_not_primary_key, columns_not_allowed, update_columns_required,
  unsupported_type, Operation, insert_row, update_row, insert_or_update_row, replace_row,
  delete_row, resolve_write_columns, append_missing_columns, non_key_column_names,
  selectable_column_names, primary_key_column_names, column_names_from_columns, same_name_set,
  validate_resolved_write_columns,
}

-- `QueryCodegenWrite`, but for its catalog, input struct, conflict clause and suppressions
pub record Write : Type 0 where
  pub name : String
  pub table : String
  pub operation : String
  pub keys : List String
  pub insert_columns : List String
  pub update_columns : List String
  pub methods : List String
  pub emit_explicit : Bool

pub record WriteSpec : Type 0 where
  pub operation : Operation
  pub all_columns : List Column
  pub insert_columns : List Column
  pub update_columns : List Column
  pub input_columns : List Column
  pub keys : List Column
  pub fields : List GoField
  pub methods : List String

abbrev pub empty_default : String → String → String
empty_default value fallback = if value == "" then fallback else value

abbrev unwrap : String → Option Operation → Result WriteError Operation
unwrap name none = err (unsupported_operation name)
unwrap name (some operation) = ok operation

-- `validateWriteOperation`, with the operation itself
unfoldable pub write_operation : String → Result WriteError Operation
write_operation name = unwrap name (
    switch name
      (("insert" ∷ [], some insert_row)
        ∷ ("update" ∷ [], some update_row)
        ∷ ("insert_or_update" ∷ [], some insert_or_update_row)
        ∷ ("replace" ∷ [], some replace_row)
        ∷ ("delete" ∷ [], some delete_row)
        ∷ [])
      none)

abbrev pub is_replace : Operation → Bool
is_replace replace_row = true
is_replace _ = false

-- The loop of `resolveWriteMethods`.
unfoldable pub resolve_methods :
    Operation → List String → List String → Result WriteError (List String)
resolve_methods operation seen [] = ok []
resolve_methods operation seen (raw ∷ methods) =
    let method = to_lower raw in
    let rest = resolve_methods operation (method ∷ seen) methods in
    fail_if (not (method == "mutation" || method == "dml")) (unsupported_method method)
    >> fail_if (is_replace operation && method == "dml") no_dml_for_replace
    >> fail_if (contains seen method) (duplicate_method method)
    >> (rest >>= λ more. ok (method ∷ more))

unfoldable pub resolve_write_methods :
    Operation → List String → Bool → Result WriteError (List String)
unfolding resolve_methods
resolve_write_methods operation [] explicit = ok (
    if explicit
    then []
    else if is_replace operation
    then "mutation" ∷ []
    else "mutation" ∷ "dml" ∷ [])
resolve_write_methods operation (method ∷ methods) explicit =
    resolve_methods operation [] (method ∷ methods)

abbrev constrain : Bool → GoField → GoField
constrain not_null (go_field name kind true nullable fields) =
    go_field name kind true nullable fields
constrain not_null (go_field name kind false nullable fields) =
    go_field name kind false (not not_null) fields

abbrev typed : Column → Result TypeError GoField → Result WriteError GoField
typed column (ok f) = ok (constrain column.not_null f)
typed column (err e) = err (unsupported_type column.name)

unfoldable pub go_result_field_from_column : Column → Result WriteError GoField
go_result_field_from_column column =
    typed column (do t ← spanner_pb column.type; go_result_field_from_spanner column.name t)

unfoldable pub fields_from_columns : List Column → Result WriteError (List GoField)
unfolding go_result_field_from_column
fields_from_columns [] = ok []
fields_from_columns (column ∷ columns) = do
  f ← go_result_field_from_column column
  fs ← fields_from_columns columns
  ok (f ∷ fs)

unfoldable pub validate_write_keys_are_primary_key_set :
    Write → List Column → List String → Result WriteError (Unit {0})
validate_write_keys_are_primary_key_set write keys primary_key_names =
    fail_if
      (nonempty write.keys
        && not (same_name_set (column_names_from_columns keys) primary_key_names))
      keys_not_primary_key

abbrev pub auto_all_non_key_columns : String
auto_all_non_key_columns = "auto_all_non_key_columns"

-- The column names of the update, where one name may stand for all columns but the keys.
abbrev pub update_names : Table → List Column → List String → List String
update_names table keys [] = []
update_names table keys (name ∷ []) =
    if name == auto_all_non_key_columns
    then non_key_column_names (selectable_column_names table) keys
    else name ∷ []
update_names table keys (name ∷ other ∷ names) = name ∷ other ∷ names

abbrev pub is_update : Operation → Bool
is_update update_row = true
is_update _ = false

abbrev pub takes_no_insert_columns : Operation → Bool
takes_no_insert_columns update_row = true
takes_no_insert_columns delete_row = true
takes_no_insert_columns _ = false

abbrev is_insert_or_update : Operation → Bool
is_insert_or_update insert_or_update_row = true
is_insert_or_update _ = false

abbrev pub takes_keys : Operation → Bool
takes_keys update_row = true
takes_keys insert_or_update_row = true
takes_keys delete_row = true
takes_keys _ = false

unfoldable pub input_columns_for : Operation → List Column → List Column → List Column → List Column
input_columns_for operation insert_columns update_columns keys =
    let chosen = if is_update operation then update_columns else insert_columns in
    if takes_keys operation then append_missing_columns chosen keys else chosen

unfoldable pub insert_columns_for :
    Operation → List String → List Column → List Column → List Column → List Column
insert_columns_for operation names resolved keys update_columns =
    if is_insert_or_update operation && not (nonempty names)
    then append_missing_columns keys update_columns
    else resolved

-- `resolveWriteSpec`, from the validation of the columns on
unfoldable pub complete_write :
    Table
    → Write
    → Operation
    → List Column
    → List Column
    → List Column
    → Result WriteError WriteSpec
unfolding resolve_write_methods fields_from_columns input_columns_for
complete_write table write operation keys insert_columns update_columns = do
  validate_resolved_write_columns table operation insert_columns update_columns keys
  let input_columns = input_columns_for operation insert_columns update_columns keys
  fields ← fields_from_columns input_columns
  methods ← resolve_write_methods operation write.methods write.emit_explicit
  ok (record {
    operation = operation;
    all_columns = table.columns;
    insert_columns = insert_columns;
    update_columns = update_columns;
    input_columns = input_columns;
    keys = keys;
    fields = fields;
    methods = methods;
  })

unfoldable pub resolve_write : Table → Write → Result WriteError WriteSpec
unfolding write_operation validate_write_keys_are_primary_key_set insert_columns_for complete_write
resolve_write table write = do
  operation ← write_operation (to_lower (empty_default write.operation "insert_or_update"))
  keys ← resolve_write_columns table write.keys (primary_key_column_names table)
  validate_write_keys_are_primary_key_set write keys (primary_key_column_names table)
  fail_if (takes_no_insert_columns operation && nonempty write.insert_columns) columns_not_allowed
  fail_if (is_update operation && not (nonempty write.update_columns)) update_columns_required
  resolved ← resolve_write_columns table write.insert_columns (primary_key_column_names table)
  update_columns ← resolve_write_columns table (update_names table keys write.update_columns) []
  complete_write table write operation keys
      (insert_columns_for operation write.insert_columns resolved keys update_columns)
      update_columns

abbrev pub bound_by : Operation → List Column → List Column → List Column → List Column
bound_by insert_row inserts updates keys = inserts
bound_by insert_or_update_row inserts updates keys = inserts
bound_by update_row inserts updates keys = updates ++ keys
bound_by delete_row inserts updates keys = keys
bound_by replace_row inserts updates keys = []

-- The columns whose parameters `writeDMLSQL` names in the statement.
unfoldable pub bound_columns : WriteSpec → List Column
bound_columns spec = bound_by spec.operation spec.insert_columns spec.update_columns spec.keys
