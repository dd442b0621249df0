-- ===== src/QueryGen/Config/Laws.antt =====
-- What a write of the public YAML guarantees once it is accepted.
use spanalyzer.Prelude.{
  ◌||◌, String, List, [], ◌∷◌, ◌++◌, ◌≡◌, Bool, true, false, not, ◌&&◌, ◌==◌, string_eq, nonempty,
  if◌then◌else◌,
}
use spanalyzer.Prelude.Results.{ok}
use spanalyzer.Text.{to_lower, trim_space}
use spanalyzer.QueryGen.Columns.{
  Operation, insert_row, update_row, insert_or_update_row, replace_row, delete_row,
}
use spanalyzer.QueryGen.Writes.{
  Write, empty_default, write_operation, takes_no_insert_columns, is_update, resolve_write_methods,
}
use spanalyzer.QueryGen.Config.{WriteConfig, methods_for}
use spanalyzer.QueryGen.Config.Upsert.{IsUpsert}

-- Which columns a write of each operation names.
abbrev pub HasColumns : Operation → Write → Type 0
HasColumns insert_row write = (nonempty write.insert_columns ≡ true) × (write.update_columns ≡ [])
HasColumns replace_row write = (nonempty write.insert_columns ≡ true) × (write.update_columns ≡ [])
HasColumns update_row write = (write.insert_columns ≡ []) × (nonempty write.update_columns ≡ true)
HasColumns insert_or_update_row write =
    (nonempty write.keys ≡ true) × IsUpsert write.keys write.insert_columns write.update_columns
HasColumns delete_row write = (write.insert_columns ≡ []) × (write.update_columns ≡ [])

-- A write that passes every test of `resolveWriteSpec` that does not look at the table, and whose
-- methods are resolved to themselves.
abbrev pub IsReady : Operation → Write → Type 0
IsReady operation write =
    (write_operation (to_lower (empty_default write.operation "insert_or_update")) ≡ ok operation)
    × ((takes_no_insert_columns operation && nonempty write.insert_columns) ≡ false)
    × ((is_update operation && not (nonempty write.update_columns)) ≡ false)
    × (resolve_write_methods operation write.methods write.emit_explicit ≡ ok write.methods)
    × HasColumns operation write

abbrev emitted : Operation → Bool → Bool → List String
emitted operation mutations dml =
    methods_for operation
      ((if mutations then "mutation" ∷ [] else []) ++ (if dml then "dml" ∷ [] else []))

abbrev Kept : Operation → Bool → Bool → Type 0
Kept operation mutations dml =
    resolve_write_methods operation (emitted operation mutations dml) true
    ≡ ok (emitted operation mutations dml)

-- An upsert names its key; without one its insert columns are compared with its update alone.
abbrev pub upsert_has_key : WriteConfig → Bool
upsert_has_key w = not (to_lower (trim_space w.operation) == "upsert") || nonempty w.key_columns
