-- ===== src/QueryGen/Columns/Laws.antt =====
-- What resolving columns guarantees.
use spanalyzer.Prelude.{
  String, List, [], ◌∷◌, ◌++◌, ◌≡◌, sym, subst, ◌∙◌, Bool, true, false, not, ◌||◌, ◌==◌, select,
  eq_of_beq, string_eq, arith, All, any-append, Bool-cases, inl, inr, if◌then◌else◌, beq_refl,
}
use spanalyzer.Prelude.Results.{ok, fail_if, ◌>>◌, bind-eq-ok, fail_if-eq-ok}
use spanalyzer.Text.{equal_fold}
use spanalyzer.QueryGen.Columns.{
  Column, Table, not_insertable, not_updatable, primary_key_updated, insert_value_required,
  column_insertable, column_updatable, is_required_insert, contains_column, append_missing_columns,
  check_insertable, check_required, check_updatable, required_insert_columns, Operation, insert_row,
  update_row, insert_or_update_row, replace_row, delete_row, validate_resolved_write_columns,
}

pub equal_fold_refl : (s : String) → equal_fold s s ≡ true
unfolding equal_fold
equal_fold_refl s = beq_refl {A = String} _

abbrev pub IsIn : List Column → Column → Type 0
IsIn columns c = contains_column columns c.name ≡ true

IsIn-append : (xs ys : List Column) (c : Column) → IsIn xs c → IsIn (xs ++ ys) c
unfolding contains_column
IsIn-append xs ys c h = any-append (λ d. equal_fold d.name c.name) xs ys ∙ ground arith

IsIn-last : (xs : List Column) (c : Column) → IsIn (xs ++ c ∷ []) c
unfolding contains_column
IsIn-last xs c =
    any-append (λ d. equal_fold d.name c.name) xs (c ∷ []) ∙ ground (arith, equal_fold_refl c.name)

pub IsIn-append_missing_columns :
    (xs ys : List Column) (c : Column) → IsIn xs c → IsIn (append_missing_columns xs ys) c
unfolding append_missing_columns
IsIn-append_missing_columns xs [] c h = h
IsIn-append_missing_columns xs (y ∷ ys) c h = elim (Bool-cases (contains_column xs y.name)) [
  | inl old ↦ rw old (IsIn-append_missing_columns xs ys c h)
  | inr new ↦ rw new (IsIn-append_missing_columns (xs ++ y ∷ []) ys c (IsIn-append xs (y ∷ []) c h))
]

-- The columns that are appended are all there.
pub append_missing_columns-All :
    (xs ys : List Column) → All (IsIn (append_missing_columns xs ys)) ys
unfolding append_missing_columns
append_missing_columns-All xs [] = tt
append_missing_columns-All xs (y ∷ ys) =
    let with : List Column = xs ++ y ∷ [] in
    let Goal : Bool → Type 0 =
      λ b. All (IsIn (append_missing_columns (if b then xs else with) ys)) (y ∷ ys) in
    elim (Bool-cases (contains_column xs y.name)) [
      | inl old ↦
          subst Goal (sym old)
            (IsIn-append_missing_columns xs ys y old, append_missing_columns-All xs ys)
      | inr new ↦ subst Goal (sym new) (
        IsIn-append_missing_columns with ys y (IsIn-last xs y),
        append_missing_columns-All with ys,
      )
    ]

All-cons_IsIn : (c : Column) (xs ys : List Column) → All (IsIn xs) ys → All (IsIn (c ∷ xs)) ys
unfolding contains_column
All-cons_IsIn c xs [] h = tt
All-cons_IsIn c xs (y ∷ ys) (h, hs) = (ground arith, All-cons_IsIn c xs ys hs)

pub All-self : (xs : List Column) → All (IsIn xs) xs
unfolding contains_column
All-self [] = tt
All-self (x ∷ xs) = (ground (arith, equal_fold_refl x.name), All-cons_IsIn x xs xs (All-self xs))

pub All-append_missing_columns :
    (xs ys cs : List Column) → All (IsIn xs) cs → All (IsIn (append_missing_columns xs ys)) cs
All-append_missing_columns xs ys [] h = tt
All-append_missing_columns xs ys (c ∷ cs) (h, hs) =
    (IsIn-append_missing_columns xs ys c h, All-append_missing_columns xs ys cs hs)

-- A column that takes a value: it is not hidden and not computed.
abbrev pub TakesValue : Column → Type 0
TakesValue c = (c.hidden ≡ false) × (c.generated_sql ≡ "")

-- A column that is written, or need not be: it is a key, may be null, has a default, is computed or
-- is hidden.
abbrev pub is_supplied : List Column → List Column → Column → Bool
is_supplied keys inserts c =
    contains_column inserts c.name
    || contains_column keys c.name
    || not c.not_null
    || not (c.default_sql == "")
    || not (c.generated_sql == "")
    || c.hidden

insertable-TakesValue : (c : Column) → column_insertable c ≡ true → TakesValue c
insertable-TakesValue c h = (ground arith, eq_of_beq c.generated_sql "" (ground arith))

check_insertable-All :
    (columns : List Column) → check_insertable columns ≡ ok tt → All TakesValue columns
unfolding check_insertable
check_insertable-All [] e = tt
check_insertable-All (c ∷ cs) e =
    let bad = not (column_insertable c) in
    let (_, good, more) = bind-eq-ok (fail_if bad (not_insertable c.name)) _ e in
    (
      insertable-TakesValue c (ground (arith, fail_if-eq-ok bad (not_insertable c.name) good)),
      check_insertable-All cs more,
    )

check_required-All :
    (insert_columns required : List Column)
    → check_required insert_columns required ≡ ok tt
    → All (IsIn insert_columns) required
unfolding check_required
check_required-All insert_columns [] e = tt
check_required-All insert_columns (c ∷ cs) e =
    let bad = not (contains_column insert_columns c.name) in
    let (_, good, more) = bind-eq-ok (fail_if bad (insert_value_required c.name)) _ e in
    (
      ground (arith, fail_if-eq-ok bad (insert_value_required c.name) good),
      check_required-All insert_columns cs more,
    )

check_updatable-All :
    (columns : List Column)
    → check_updatable columns ≡ ok tt
    → All (λ c. TakesValue c × (c.primary_key ≡ false)) columns
unfolding check_updatable
check_updatable-All [] e = tt
check_updatable-All (c ∷ cs) e =
    let bad = not (column_updatable c) in
    let first =
      fail_if c.primary_key (primary_key_updated c.name) >> fail_if bad (not_updatable c.name) in
    let (_, checked, more) = bind-eq-ok first _ e in
    let (_, other, good) =
      bind-eq-ok (fail_if c.primary_key (primary_key_updated c.name)) _ checked in
    (
      (
        insertable-TakesValue c (ground (arith, fail_if-eq-ok bad (not_updatable c.name) good)),
        fail_if-eq-ok c.primary_key (primary_key_updated c.name) other,
      ),
      check_updatable-All cs more,
    )

-- What an operation may write, and must.
abbrev pub CanInsert : Table → List Column → List Column → Type 0
CanInsert table keys inserts =
    All TakesValue inserts × All (λ c. is_supplied keys inserts c ≡ true) table.columns

abbrev pub CanUpdate : List Column → Type 0
CanUpdate updates = All (λ c. TakesValue c × (c.primary_key ≡ false)) updates

abbrev pub CanWrite : Operation → Table → List Column → List Column → List Column → Type 0
CanWrite insert_row table inserts updates keys = CanInsert table keys inserts
CanWrite replace_row table inserts updates keys = CanInsert table keys inserts
CanWrite update_row table inserts updates keys = CanUpdate updates
CanWrite insert_or_update_row table inserts updates keys =
    CanInsert table keys inserts × CanUpdate updates
CanWrite delete_row table inserts updates keys = Unit

All-is_supplied :
    (keys inserts columns : List Column)
    → All (IsIn inserts) (select (is_required_insert keys) columns)
    → All (λ c. is_supplied keys inserts c ≡ true) columns
All-is_supplied keys inserts [] h = tt
All-is_supplied keys inserts (c ∷ cs) h = elim (Bool-cases (is_required_insert keys c)) [
  | inl needed ↦
      let (here, more) = rw needed at h in
      (ground (arith, here), All-is_supplied keys inserts cs more)
  | inr free ↦ (ground (arith, free), All-is_supplied keys inserts cs (rw free at h))
]

inserts-CanInsert :
    (table : Table) (inserts keys : List Column)
    → check_insertable inserts >> check_required inserts (required_insert_columns table keys)
      ≡ ok tt
    → CanInsert table keys inserts
unfolding required_insert_columns
inserts-CanInsert table inserts keys e =
    let (_, first, second) = bind-eq-ok (check_insertable inserts) _ e in
    (
      check_insertable-All inserts first,
      All-is_supplied keys inserts table.columns
          (check_required-All inserts (required_insert_columns table keys) second),
    )

pub validate_resolved_write_columns-CanWrite :
    (operation : Operation) (table : Table) (inserts updates keys : List Column)
    → validate_resolved_write_columns table operation inserts updates keys ≡ ok tt
    → CanWrite operation table inserts updates keys
unfolding validate_resolved_write_columns required_insert_columns
validate_resolved_write_columns-CanWrite insert_row table inserts updates keys e =
    inserts-CanInsert table inserts keys e
validate_resolved_write_columns-CanWrite replace_row table inserts updates keys e =
    inserts-CanInsert table inserts keys e
validate_resolved_write_columns-CanWrite update_row table inserts updates keys e =
    check_updatable-All updates e
validate_resolved_write_columns-CanWrite insert_or_update_row table inserts updates keys e =
    let (_, both, third) = bind-eq-ok (check_insertable inserts >> check_updatable updates) _ e in
    let (_, first, second) = bind-eq-ok (check_insertable inserts) _ both in
    (
      (
        check_insertable-All inserts first,
        All-is_supplied keys inserts table.columns
            (check_required-All inserts (required_insert_columns table keys) third),
      ),
      check_updatable-All updates second,
    )
validate_resolved_write_columns-CanWrite delete_row table inserts updates keys e = tt
