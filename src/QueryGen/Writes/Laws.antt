-- ===== src/QueryGen/Writes/Laws.antt =====
-- What resolving a write guarantees.
use spanalyzer.Prelude.{
  String, List, [], ◌∷◌, ◌≡◌, refl, Bool, true, false, not, ◌&&◌, ◌||◌, ◌==◌, string_eq, arith, All,
  All-append, contains, Distinct, Bool-cases, inl, inr, nonempty, beq_comm,
}
use spanalyzer.Prelude.Results.{
  ok, fail_if, ◌>>=◌, ◌>>◌, bind-eq-ok, with_ok, fail_if-eq-ok, ok_injective,
}
use spanalyzer.Text.{to_lower}
use spanalyzer.QueryGen.Columns.{
  Column, Table, Operation, insert_row, update_row, insert_or_update_row, replace_row, delete_row,
  append_missing_columns, unsupported_method, no_dml_for_replace, duplicate_method,
  resolve_write_columns, primary_key_column_names, columns_not_allowed, update_columns_required,
  validate_resolved_write_columns,
}
use spanalyzer.QueryGen.Columns.Laws.{
  IsIn, All-self, All-append_missing_columns, append_missing_columns-All, CanWrite,
  validate_resolved_write_columns-CanWrite,
}
use spanalyzer.QueryGen.Writes.{
  Write, WriteSpec, is_replace, resolve_methods, resolve_write_methods, write_operation,
  empty_default, takes_no_insert_columns, is_update, update_names, insert_columns_for,
  input_columns_for, fields_from_columns, validate_write_keys_are_primary_key_set, resolve_write,
  bound_columns, bound_by, complete_write,
}

input_columns_for-bound :
    (operation : Operation) (inserts updates keys : List Column)
    → All
        (IsIn (input_columns_for operation inserts updates keys))
        (bound_by operation inserts updates keys)
unfolding input_columns_for
input_columns_for-bound insert_row inserts updates keys = All-self inserts
input_columns_for-bound insert_or_update_row inserts updates keys =
    All-append_missing_columns inserts keys inserts (All-self inserts)
input_columns_for-bound update_row inserts updates keys =
    All-append (IsIn (append_missing_columns updates keys)) updates keys
      (All-append_missing_columns updates keys updates (All-self updates))
      (append_missing_columns-All updates keys)
input_columns_for-bound delete_row inserts updates keys = append_missing_columns-All inserts keys
input_columns_for-bound replace_row inserts updates keys = tt

-- Methods are known, each once, and none is a statement where the operation has none.
abbrev pub AreMethods : Operation → List String → Type 0
AreMethods operation methods =
    Distinct methods
    × All (λ m. (m == "mutation" || (not (is_replace operation) && m == "dml")) ≡ true) methods

abbrev Unseen : List String → List String → Type 0
Unseen seen methods = All (λ m. contains seen m ≡ false) methods

Unseen-tail :
    (m : String) (seen methods : List String)
    → Unseen (m ∷ seen) methods
    → Unseen seen methods × (contains methods m ≡ false)
Unseen-tail m seen [] h = (tt, refl)
Unseen-tail m seen (x ∷ xs) (h, hs) =
    let (rest, gone) = Unseen-tail m seen xs hs in
    ((ground arith, rest), ground (arith, gone, beq_comm x m))

resolve_methods-AreMethods :
    (operation : Operation) (seen raw : List String) {methods : List String}
    → resolve_methods operation seen raw ≡ ok methods
    → AreMethods operation methods × Unseen seen methods
unfolding resolve_methods
resolve_methods-AreMethods operation seen [] {methods} e =
    rw (← ok_injective [] methods e) ((tt, tt), tt)
resolve_methods-AreMethods operation seen (raw ∷ more) {methods} e =
    let m = to_lower raw in
    let later = resolve_methods operation (m ∷ seen) more in
    let odd = not (m == "mutation" || m == "dml") in
    let refused = is_replace operation && m == "dml" in
    let known = fail_if odd (unsupported_method m) in
    let allowed = fail_if refused no_dml_for_replace in
    let fresh = fail_if (contains seen m) (duplicate_method m) in
    let (_, checks, built) =
      bind-eq-ok (known >> allowed >> fresh) (λ _. later >>= λ rest. ok (m ∷ rest)) e in
    let (_, both, new) = bind-eq-ok (known >> allowed) (λ _. fresh) checks in
    let (_, is_known, is_allowed) = bind-eq-ok known (λ _. allowed) both in
    let (rest, resolved, whole) = bind-eq-ok later (λ rest. ok (m ∷ rest)) built in
    let ((distinct, good), unseen) =
      resolve_methods-AreMethods operation (m ∷ seen) more {methods = rest} resolved in
    let (others, gone) = Unseen-tail m seen rest unseen in
    let first : (m == "mutation" || (not (is_replace operation) && m == "dml")) ≡ true = ground (
      arith,
      fail_if-eq-ok odd (unsupported_method m) is_known,
      fail_if-eq-ok refused no_dml_for_replace is_allowed,
    ) in
    rw (← ok_injective (m ∷ rest) methods whole) (
      ((gone, distinct), (first, good)),
      (fail_if-eq-ok (contains seen m) (duplicate_method m) new, others),
    )

resolve_write_methods-AreMethods :
    (operation : Operation) (raw : List String) (explicit : Bool) {methods : List String}
    → resolve_write_methods operation raw explicit ≡ ok methods
    → AreMethods operation methods
unfolding resolve_write_methods
resolve_write_methods-AreMethods operation [] true {methods} e =
    rw (← ok_injective [] methods e) (tt, tt)
resolve_write_methods-AreMethods operation [] false {methods} e =
    elim (Bool-cases (is_replace operation)) [
      | inl replaces ↦
          let same = ok_injective ("mutation" ∷ []) methods (rw replaces at e) in
          rw (← same) ((refl, tt), (refl, tt))
      | inr other ↦
          let same = ok_injective ("mutation" ∷ "dml" ∷ []) methods (rw other at e) in
          rw (← same) ((refl, (refl, tt)), (refl, (ground (arith, other), tt)))
    ]
resolve_write_methods-AreMethods operation (m ∷ raw) explicit e =
    (resolve_methods-AreMethods operation [] (m ∷ raw) e).0

-- A write that the generator may emit.
abbrev pub IsSound : Table → WriteSpec → Type 0
IsSound table spec =
    CanWrite spec.operation table spec.insert_columns spec.update_columns spec.keys
    × All (IsIn spec.input_columns) (bound_columns spec)
    × AreMethods spec.operation spec.methods

complete-IsSound :
    (table : Table) (write : Write) (operation : Operation) (keys inserts updates : List Column)
    {spec : WriteSpec}
    → complete_write table write operation keys inserts updates ≡ ok spec
    → IsSound table spec
unfolding complete_write bound_columns
complete-IsSound table write operation keys inserts updates {spec} e =
    let inputs = input_columns_for operation inserts updates keys in
    with_ok (validate_resolved_write_columns table operation inserts updates keys) _ e (λ _ valid e.
      with_ok (fields_from_columns inputs) _ e (λ fields _ e.
        with_ok (resolve_write_methods operation write.methods write.emit_explicit) _ e
          (λ methods named e. rw (← ok_injective _ spec e) (
            validate_resolved_write_columns-CanWrite operation table inserts updates keys valid,
            input_columns_for-bound operation inserts updates keys,
            resolve_write_methods-AreMethods operation write.methods write.emit_explicit named,
          ))))

-- A write that resolves is sound. An insert, a replace and an insert_or_update insert no column
-- that is hidden or computed, and every column of the table that is not one of the key columns,
-- may not be null, has no default and is neither computed nor hidden (of the key columns this says
-- nothing). An update and an insert_or_update set no column that is hidden, computed or of the
-- primary key. Every column that the statement binds is one of the input struct; and the methods
-- are known, each once, with no statement for a replace.
pub resolve_write-IsSound :
    (table : Table) (write : Write) {spec : WriteSpec}
    → resolve_write table write ≡ ok spec
    → IsSound table spec
unfolding resolve_write bound_columns
resolve_write-IsSound table write {spec} e =
    let primary = primary_key_column_names table in
    with_ok (write_operation (to_lower (empty_default write.operation "insert_or_update"))) _ e
      (λ operation _ e. with_ok (resolve_write_columns table write.keys primary) _ e (λ keys _ e.
        with_ok (validate_write_keys_are_primary_key_set write keys primary) _ e (λ _ _ e.
          with_ok
            (fail_if (takes_no_insert_columns operation && nonempty write.insert_columns)
              columns_not_allowed)
            _ e
            (λ _ _ e.
              with_ok
                (fail_if (is_update operation && not (nonempty write.update_columns))
                  update_columns_required)
                _ e
                (λ _ _ e.
                  with_ok (resolve_write_columns table write.insert_columns primary) _ e
                    (λ resolved _ e.
                      with_ok
                        (resolve_write_columns table (update_names table keys write.update_columns)
                          [])
                        _ e
                        (λ updates _ e.
                          complete-IsSound table write operation keys
                            (insert_columns_for operation write.insert_columns resolved keys
                              updates)
                            updates e)))))))
