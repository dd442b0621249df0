-- ===== src/QueryGen/Config/Upsert.antt =====
-- What the test of the insert columns of an upsert guarantees.
use spanalyzer.Prelude.{
  String, List, [], ◌∷◌, ◌++◌, ◌≡◌, refl, sym, ◌∙◌, Bool, true, false, not, ◌||◌, ◌==◌, string_eq,
  arith, All, contains, Bool-cases, inl, inr, nonempty, map, subst, eq_of_beq, beq_refl,
}
use spanalyzer.Prelude.Results.{ok, fail_if, ◌>>◌, bind-eq-ok, with_ok, fail_if-eq-ok, ok_injective}
use spanalyzer.Prelude.Maps.{
  Map, keys, lookup_or, insert, contains-keys-insert, lookup-none_of_keys,
}
use spanalyzer.Prelude.Order.{string_ord}
use spanalyzer.Prelude.Sorting.{sort}
use spanalyzer.Text.{to_lower}
use spanalyzer.QueryGen.Config.{
  WriteConfig, add_names, collect_inserts, missing_names, validate_upsert_insert_columns,
  insert_columns_required, duplicate_insert_column, insert_only_column, missing_insert_columns,
}

-- Ignoring case, every one of the names is among the others.
abbrev Covers : List String → List String → Type 0
Covers others names = All (λ name. contains (map to_lower others) (to_lower name) ≡ true) names

abbrev has : Map String String → String → Bool
has m key = not (lookup_or "" key m == "")

has-contains :
    (key : String) (m : Map String String) → has m key ≡ true → contains (keys m) key ≡ true
has-contains key m h = elim (Bool-cases (contains (keys m) key)) [
  | inl found ↦ found
  | inr missing ↦ absurd (cc (h, lookup-none_of_keys key m missing))
]

contains-keys-add_names :
    (m : Map String String) (names : List String) (key : String)
    → contains (keys (add_names m names)) key
      ≡ (contains (keys m) key || contains (map to_lower names) key)
unfolding add_names
contains-keys-add_names m [] key = ground arith
contains-keys-add_names m (name ∷ names) key = ground (
  arith,
  contains-keys-add_names (insert (to_lower name) name m) names key,
  contains-keys-insert (to_lower name) key name m,
)

collect_inserts-adds :
    (required actual : Map String String) (names : List String) {out : Map String String}
    → collect_inserts required actual names ≡ ok out
    → (out ≡ add_names actual names) × All (λ name. has required (to_lower name) ≡ true) names
unfolding collect_inserts add_names
collect_inserts-adds required actual [] {out} e = (sym (ok_injective actual out e), tt)
collect_inserts-adds required actual (name ∷ names) {out} e =
    let key = to_lower name in
    let twice = fail_if (has actual key) (duplicate_insert_column name) in
    let odd = lookup_or "" key required == "" in
    let (_, checks, rest) = bind-eq-ok (twice >> fail_if odd (insert_only_column name)) _ e in
    let (_, _, known) = bind-eq-ok twice _ checks in
    let (same, all) =
      collect_inserts-adds required (insert key name actual) names {out = out} rest in
    (same, (ground (arith, fail_if-eq-ok odd (insert_only_column name) known), all))

missing_names-none :
    (actual required : Map String String)
    → nonempty (missing_names actual required) ≡ false
    → All (λ key. has actual key ≡ true) (keys required)
unfolding missing_names
missing_names-none actual [] h = tt
missing_names-none actual ((key, name) ∷ required) h =
    elim (Bool-cases (lookup_or "" key actual == "")) [
      | inl missing ↦ absurd (cc (rw missing at h))
      | inr found ↦ (ground (arith, found), missing_names-none actual required (rw found at h))
    ]

All-contains :
    (P : String → Bool) (key : String) (names : List String)
    → All (λ name. P name ≡ true) names
    → contains names key ≡ true
    → P key ≡ true
All-contains P key [] all h = cc
All-contains P key (name ∷ names) (here, all) h = elim (Bool-cases (name == key)) [
  | inl same ↦ subst (λ s. P s ≡ true) (eq_of_beq name key same) here
  | inr other ↦ All-contains P key names all (rw other at h)
]

Covers-of_contains :
    (others names : List String)
    → ((key : String)
        → contains (map to_lower names) key ≡ true
        → contains (map to_lower others) key ≡ true)
    → Covers others names
Covers-of_contains others [] h = tt
Covers-of_contains others (name ∷ names) h = (
  h (to_lower name) (ground (arith, beq_refl (to_lower name))),
  Covers-of_contains others names (λ key k. h key (ground (arith, k))),
)

All-implies :
    {P Q : String → Type 0} (names : List String)
    → ((name : String) → P name → Q name)
    → All P names
    → All Q names
All-implies [] f h = tt
All-implies (name ∷ names) f (h, hs) = (f name h, All-implies names f hs)

contains-map-append :
    (keys updates : List String) (key : String)
    → contains (map to_lower (keys ++ updates)) key
      ≡ (contains (map to_lower keys) key || contains (map to_lower updates) key)
contains-map-append [] updates key = refl
contains-map-append (name ∷ names) updates key =
    ground (arith, contains-map-append names updates key)

-- The insert columns of an upsert are those of its key and its update, ignoring case.
abbrev pub IsUpsert : List String → List String → List String → Type 0
IsUpsert key_columns insert_columns update_columns =
    Covers (key_columns ++ update_columns) insert_columns
    × Covers insert_columns (key_columns ++ update_columns)

abbrev required_columns : WriteConfig → Map String String
required_columns w = add_names (add_names [] w.key_columns) w.update_columns

contains-keys-required :
    (w : WriteConfig) (key : String)
    → contains (keys (required_columns w)) key
      ≡ contains (map to_lower (w.key_columns ++ w.update_columns)) key
contains-keys-required w key =
    contains-keys-add_names (add_names [] w.key_columns) w.update_columns key
    ∙ (ground (
      arith,
      contains-keys-add_names [] w.key_columns key,
      contains-map-append w.key_columns w.update_columns key,
    ))

pub validate_upsert_insert_columns-IsUpsert :
    (w : WriteConfig) {u : Unit {0}}
    → validate_upsert_insert_columns w ≡ ok u
    → IsUpsert w.key_columns w.insert_columns w.update_columns
unfolding validate_upsert_insert_columns
validate_upsert_insert_columns-IsUpsert w {u} e =
    let required = required_columns w in
    with_ok (fail_if (not (nonempty w.insert_columns)) insert_columns_required) _ e (λ _ _ e.
      with_ok (collect_inserts required [] w.insert_columns) _ e (λ actual collected e.
        let missing = missing_names actual required in
        let (same, known) =
          collect_inserts-adds required [] w.insert_columns {out = actual} collected in
        let present =
          missing_names-none actual required
            (fail_if-eq-ok (nonempty missing) (missing_insert_columns (sort missing)) e) in
        (
          All-implies w.insert_columns
              (λ name h.
                sym (contains-keys-required w (to_lower name))
                ∙ has-contains (to_lower name) required h)
              known,
          Covers-of_contains w.insert_columns (w.key_columns ++ w.update_columns) (λ key h.
              sym (contains-keys-add_names [] w.insert_columns key)
              ∙ rw (← same) (
                  has-contains key actual (
                    All-contains (has actual) key (keys required) present
                      (contains-keys-required w key ∙ h)))),
        )))
