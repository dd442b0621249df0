-- ===== src/QueryGen/Columns.antt =====
-- internal/querygen/querygen.go and catalog.go: the columns of a table that a write names.
pub mod Laws
use Prim.Native.String
use spanalyzer.Prelude.{
  String, List, [], ◌∷◌, ◌++◌, ℕ, suc, ◌-◌, Bool, true, false, not, ◌&&◌, ◌||◌, Option, none, some,
  map, if◌then◌else◌, ◌==◌, string_eq, nat_eq, any, contains, select, length, nonempty, count_if,
}
use spanalyzer.Prelude.Maps.{Map, lookup_or, insert}
use spanalyzer.Prelude.Results.{Result, ok, err, fail_if, ◌>>=◌, ◌>>◌}
use spanalyzer.Text.{to_lower, equal_fold}
use spanalyzer.QueryGen.Types.{TypeSpec}

pub record Column : Type 0 where
  pub name : String
  pub type : TypeSpec
  pub not_null : Bool
  pub hidden : Bool
  pub primary_key : Bool
  pub default_sql : String
  pub generated_sql : String
  pub on_update_sql : String
  pub allow_commit_timestamp : Bool

pub record KeyPart : Type 0 where
  pub name : String
  pub desc : Bool

pub record Table : Type 0 where
  pub name_parts : List String
  pub columns : List Column
  pub primary_key : List KeyPart
  pub synonyms : List String

-- The errors of resolving a write.
pub data WriteError : Type 0 where
  unsupported_operation unsupported_method duplicate_method : String → WriteError
  missing_column duplicate_column not_insertable not_updatable : String → WriteError
  primary_key_updated insert_value_required : String → WriteError
  keys_not_primary_key columns_not_allowed update_columns_required no_dml_for_replace : WriteError
  unsupported_type : String → WriteError

-- `Table.Column`: the first column of the name
unfoldable pub find_column : String → List Column → Option Column
find_column name [] = none
find_column name (column ∷ columns) =
    let rest = find_column name columns in if equal_fold column.name name then some column else rest

abbrev pub column_key : String → String
column_key name = to_lower name

abbrev found : String → Option Column → Result WriteError Column
found name none = err (missing_column name)
found name (some column) = ok column

-- The loop of `resolveWriteColumns`; `seen` has the keys of the columns so far.
unfoldable pub resolve_names :
    List Column → List String → List String → Result WriteError (List Column)
unfolding find_column
resolve_names columns seen [] = ok []
resolve_names columns seen (name ∷ names) = do
  column ← found name (find_column name columns)
  fail_if (contains seen (column_key column.name)) (duplicate_column column.name)
  rest ← resolve_names columns (column_key column.name ∷ seen) names
  ok (column ∷ rest)

unfoldable pub resolve_write_columns :
    Table → List String → List String → Result WriteError (List Column)
unfolding resolve_names
resolve_write_columns table names default_names =
    resolve_names table.columns [] (if nonempty names then names else default_names)

unfoldable pub contains_column : List Column → String → Bool
contains_column columns name = any (λ c. equal_fold c.name name) columns

unfoldable pub append_missing_columns : List Column → List Column → List Column
unfolding contains_column
append_missing_columns columns [] = columns
append_missing_columns columns (column ∷ extra) =
    append_missing_columns
      (if contains_column columns column.name then columns else columns ++ column ∷ []) extra

abbrev pub column_insertable : Column → Bool
column_insertable column = not column.hidden && column.generated_sql == ""

abbrev pub column_updatable : Column → Bool
column_updatable column = column_insertable column && not column.primary_key

-- The two `continue`s of `requiredInsertColumns`.
abbrev pub is_required_insert : List Column → Column → Bool
is_required_insert key_columns column =
    column.not_null
    && not (contains_column key_columns column.name)
    && column.default_sql == ""
    && column.generated_sql == ""
    && not column.hidden

unfoldable pub required_insert_columns : Table → List Column → List Column
unfolding contains_column
required_insert_columns table key_columns = select (is_required_insert key_columns) table.columns

unfoldable pub selectable_column_names : Table → List String
selectable_column_names table = map (λ c. c.name) (select (λ c. not c.hidden) table.columns)

unfoldable pub non_key_column_names : List String → List Column → List String
unfolding contains_column
non_key_column_names names keys = select (λ name. not (contains_column keys name)) names

abbrev pub primary_key_column_names : Table → List String
primary_key_column_names table = map (λ key. key.name) table.primary_key

abbrev pub column_names_from_columns : List Column → List String
column_names_from_columns columns = map (λ c. c.name) columns

unfoldable pub count_names : List String → Map String ℕ → Map String ℕ
count_names [] seen = seen
count_names (name ∷ names) seen =
    count_names names (insert (column_key name) (suc (lookup_or 0 (column_key name) seen)) seen)

-- The second loop of `sameNameSet`; `none` is the early `return false`.
unfoldable pub take_names : List String → Map String ℕ → Option (Map String ℕ)
take_names [] seen = some seen
take_names (name ∷ names) seen =
    let count = lookup_or 0 (column_key name) seen in
    let rest = take_names names (insert (column_key name) (count - 1) seen) in
    if count == 0 then none else rest

abbrev none_left : Option (Map String ℕ) → Bool
none_left none = false
none_left (some seen) = not (any (λ p. not (p.1 == 0)) seen)

unfoldable pub same_name_set : List String → List String → Bool
unfolding count_names take_names
same_name_set a b =
    if length a == length b then none_left (take_names b (count_names a [])) else false

check_insertable : List Column → Result WriteError (Unit {0})
check_insertable [] = ok tt
check_insertable (column ∷ columns) =
    fail_if (not (column_insertable column)) (not_insertable column.name)
    >> check_insertable columns

check_required : List Column → List Column → Result WriteError (Unit {0})
unfolding contains_column
check_required insert_columns [] = ok tt
check_required insert_columns (column ∷ columns) =
    fail_if (not (contains_column insert_columns column.name)) (insert_value_required column.name)
    >> check_required insert_columns columns

check_updatable : List Column → Result WriteError (Unit {0})
check_updatable [] = ok tt
check_updatable (column ∷ columns) =
    fail_if column.primary_key (primary_key_updated column.name)
    >> fail_if (not (column_updatable column)) (not_updatable column.name)
    >> check_updatable columns

-- The operations that `validateWriteOperation` accepts.
pub data Operation : Type 0 where
  insert_row update_row insert_or_update_row replace_row delete_row : Operation

unfoldable pub validate_resolved_write_columns :
    Table → Operation → List Column → List Column → List Column → Result WriteError (Unit {0})
unfolding check_insertable check_required check_updatable
validate_resolved_write_columns table insert_row insert_columns update_columns key_columns =
    check_insertable insert_columns
    >> check_required insert_columns (required_insert_columns table key_columns)
validate_resolved_write_columns table replace_row insert_columns update_columns key_columns =
    check_insertable insert_columns
    >> check_required insert_columns (required_insert_columns table key_columns)
validate_resolved_write_columns table update_row insert_columns update_columns key_columns =
    check_updatable update_columns
validate_resolved_write_columns table insert_or_update_row insert_columns update_columns
      key_columns =
    check_insertable insert_columns
    >> check_updatable update_columns
    >> check_required insert_columns (required_insert_columns table key_columns)
validate_resolved_write_columns table delete_row insert_columns update_columns key_columns = ok tt
