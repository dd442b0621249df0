-- ===== src/QueryGen/Config.antt =====
-- internal/querygen/querygen_config.go: how a write of the public YAML (v1alpha) becomes a
-- `QueryCodegenWrite`. The reading of the YAML is input and not modelled; the texts of errors are
-- reduced to what they name.
pub mod Upsert
pub mod Laws
use Prim.Native.Char.{Char, code}
use Prim.Native.String
use spanalyzer.Prelude.{
  String, List, [], ◌∷◌, ◌++◌, Bool, true, false, not, ◌&&◌, ◌||◌, Option, none, some, leb, nat_beq,
  if◌then◌else◌, ◌==◌, string_eq, nonempty, contains,
}
use spanalyzer.Prelude.Results.{Result, ok, err, fail_if, ◌>>=◌, ◌>>◌}
use spanalyzer.Prelude.Switch.{switch}
use spanalyzer.Prelude.Maps.{Map, lookup_or, insert}
use spanalyzer.Prelude.Order.{string_ord}
use spanalyzer.Prelude.Sorting.{sort}
use spanalyzer.Text.{to_lower, trim_space}
use spanalyzer.QueryGen.Columns.{
  Operation, insert_row, update_row, insert_or_update_row, replace_row, delete_row,
}
use spanalyzer.QueryGen.Writes.{Write, auto_all_non_key_columns}

-- `QueryCodegenV1AlphaSpannerEmit`
pub record SpannerEmit : Type 0 where
  pub query_methods : Bool
  pub mutations : Bool
  pub dml : Bool

-- `QueryCodegenV1AlphaWrite`, but for the name of the input struct
pub record WriteConfig : Type 0 where
  pub name : String
  pub catalog : String
  pub table : String
  pub operation : String
  pub key_columns : List String
  pub insert_columns : List String
  pub update_columns : List String
  pub all_non_key_columns : Bool
  pub conflict_strategy : String

pub data ConfigError : Type 0 where
  catalog_required : ConfigError
  invalid_reference : String → ConfigError
  conflict_not_supported : ConfigError
  unknown_operation : String → ConfigError
  insert_columns_required : ConfigError
  insert_not_supported : ConfigError
  update_columns_required : ConfigError
  update_not_supported : ConfigError
  update_columns_exclusive : ConfigError
  all_columns_not_supported : ConfigError
  duplicate_insert_column : String → ConfigError
  insert_only_column : String → ConfigError
  missing_insert_columns : List String → ConfigError

abbrev is_letter : Char → Bool
is_letter c =
    let n = code c in (leb b'A' n && leb n b'Z') || (leb b'a' n && leb n b'z') || nat_beq n b'_'

abbrev is_word : Char → Bool
is_word c = is_letter c || (leb b'0' (code c) && leb (code c) b'9')

are_words : String → Bool
are_words String.[] = true
are_words (String.◌∷◌ c s) = is_word c && are_words s

-- `queryCodegenV1AlphaIdentifierRegexp`
unfoldable pub is_identifier : String → Bool
unfolding are_words
is_identifier String.[] = false
is_identifier (String.◌∷◌ c s) = is_letter c && are_words s

unfoldable pub require_identifier_reference : String → Result ConfigError (Unit {0})
unfolding trim_space is_identifier
require_identifier_reference name =
    let trimmed = trim_space name in
    fail_if (not (trimmed == "") && not (is_identifier trimmed)) (invalid_reference trimmed)

abbrev known_operation : String → Option Operation → Result ConfigError Operation
known_operation name none = err (unknown_operation name)
known_operation name (some operation) = ok operation

-- The cases of the `switch` of `validateV1AlphaWriteShape`; an upsert is an insert_or_update.
unfoldable pub config_operation : String → Result ConfigError Operation
config_operation name = known_operation name (
    switch name
      (("insert" ∷ [], some insert_row)
        ∷ ("update" ∷ [], some update_row)
        ∷ ("upsert" ∷ [], some insert_or_update_row)
        ∷ ("replace" ∷ [], some replace_row)
        ∷ ("delete" ∷ [], some delete_row)
        ∷ [])
      none)

unfoldable pub check_shape : Operation → WriteConfig → Result ConfigError (Unit {0})
check_shape insert_row w =
    fail_if (not (nonempty w.insert_columns)) insert_columns_required
    >> fail_if (nonempty w.update_columns || w.all_non_key_columns) update_not_supported
check_shape update_row w =
    fail_if (nonempty w.insert_columns) insert_not_supported
    >> fail_if (nonempty w.update_columns && w.all_non_key_columns) update_columns_exclusive
    >> fail_if (not (nonempty w.update_columns || w.all_non_key_columns)) update_columns_required
check_shape insert_or_update_row w =
    fail_if (not (nonempty w.insert_columns)) insert_columns_required
    >> fail_if (not (nonempty w.update_columns)) update_columns_required
    >> fail_if w.all_non_key_columns all_columns_not_supported
check_shape replace_row w =
    fail_if (not (nonempty w.insert_columns)) insert_columns_required
    >> fail_if (nonempty w.update_columns || w.all_non_key_columns) update_not_supported
check_shape delete_row w =
    fail_if (nonempty w.insert_columns) insert_not_supported
    >> fail_if (nonempty w.update_columns || w.all_non_key_columns) update_not_supported

-- `validateV1AlphaWriteShape`, with the operation that it finds
unfoldable pub validate_shape : WriteConfig → String → Result ConfigError Operation
unfolding trim_space require_identifier_reference config_operation check_shape
validate_shape w name = do
  fail_if (trim_space w.catalog == "") catalog_required
  require_identifier_reference w.catalog
  fail_if (not (trim_space w.conflict_strategy == "")) conflict_not_supported
  operation ← config_operation name
  check_shape operation w
  ok operation

-- `m[strings.ToLower(name)] = name` for each name
unfoldable pub add_names : Map String String → List String → Map String String
unfolding to_lower
add_names m [] = m
add_names m (name ∷ names) = add_names (insert (to_lower name) name m) names

-- The loop of `validateV1AlphaUpsertInsertColumns` over the insert columns.
unfoldable pub collect_inserts :
    Map String String → Map String String → List String → Result ConfigError (Map String String)
unfolding to_lower
collect_inserts required actual [] = ok actual
collect_inserts required actual (name ∷ names) =
    let key = to_lower name in
    let rest = collect_inserts required (insert key name actual) names in
    fail_if (not (lookup_or "" key actual == "")) (duplicate_insert_column name)
    >> fail_if (lookup_or "" key required == "") (insert_only_column name)
    >> rest

unfoldable pub missing_names : Map String String → Map String String → List String
missing_names actual [] = []
missing_names actual ((key, name) ∷ required) =
    let rest = missing_names actual required in
    if lookup_or "" key actual == "" then name ∷ rest else rest

unfoldable pub validate_upsert_insert_columns : WriteConfig → Result ConfigError (Unit {0})
unfolding add_names collect_inserts missing_names
validate_upsert_insert_columns w = do
  fail_if (not (nonempty w.insert_columns)) insert_columns_required
  let required = add_names (add_names [] w.key_columns) w.update_columns
  actual ← collect_inserts required [] w.insert_columns
  let missing = missing_names actual required
  fail_if (nonempty missing) (missing_insert_columns (sort missing))

unfoldable pub spanner_write_methods : SpannerEmit → List String
spanner_write_methods emit =
    (if emit.mutations then "mutation" ∷ [] else []) ++ (if emit.dml then "dml" ∷ [] else [])

unfoldable pub mutation_only : List String → List String
mutation_only methods = if contains methods "mutation" then "mutation" ∷ [] else []

-- The operation of a `QueryCodegenWrite`.
abbrev pub operation_name : Operation → String
operation_name insert_row = "insert"
operation_name update_row = "update"
operation_name insert_or_update_row = "insert_or_update"
operation_name replace_row = "replace"
operation_name delete_row = "delete"

abbrev pub sets_columns : Operation → Bool
sets_columns update_row = true
sets_columns insert_or_update_row = true
sets_columns _ = false

abbrev pub methods_for : Operation → List String → List String
methods_for replace_row methods = mutation_only methods
methods_for _ methods = methods

abbrev pub build_write : SpannerEmit → WriteConfig → Operation → List String → List String → Write
build_write emit w operation inserts updates = record {
  name = w.name;
  table = w.table;
  operation = operation_name operation;
  keys = w.key_columns;
  insert_columns = inserts;
  update_columns = updates;
  methods = methods_for operation (spanner_write_methods emit);
  emit_explicit = true;
}

-- The last `switch` of `normalize`.
unfoldable pub write_for :
    SpannerEmit → WriteConfig → Operation → List String → Result ConfigError Write
unfolding validate_upsert_insert_columns spanner_write_methods mutation_only
write_for emit w insert_row updates = ok (build_write emit w insert_row w.insert_columns [])
write_for emit w replace_row updates = ok (build_write emit w replace_row w.insert_columns [])
write_for emit w update_row updates = ok (build_write emit w update_row [] updates)
write_for emit w insert_or_update_row updates =
    validate_upsert_insert_columns w
    >> ok (build_write emit w insert_or_update_row w.insert_columns updates)
write_for emit w delete_row updates = ok (build_write emit w delete_row [] [])

abbrev pub update_columns_of : WriteConfig → List String
update_columns_of w =
    if w.all_non_key_columns then auto_all_non_key_columns ∷ [] else w.update_columns

-- `QueryCodegenV1AlphaWrite.normalize`
unfoldable pub normalize : SpannerEmit → WriteConfig → Result ConfigError Write
unfolding trim_space to_lower validate_shape write_for
normalize emit w = do
  operation ← validate_shape w (to_lower (trim_space w.operation))
  fail_if (not (trim_space w.conflict_strategy == "")) conflict_not_supported
  fail_if (w.all_non_key_columns && nonempty w.update_columns) update_columns_exclusive
  fail_if (sets_columns operation && not (nonempty (update_columns_of w))) update_columns_required
  write_for emit w operation (update_columns_of w)
