-- ===== src/QueryGen/Fields/Laws.antt =====
-- What merging the fields of two results keeps.
use spanalyzer.Prelude.{
  String, ◌≡◌, Bool, true, false, not, ◌&&◌, ◌||◌, ◌==◌, string_eq, Option, none, some,
}
use spanalyzer.Text.{to_lower}
use spanalyzer.QueryGen.Fields.{
  GoField, GoFields, no_more, next_field, name_of, is_nullable, find_field, has_field,
}

-- Whether the field of a name is there and may not be null.
abbrev pub is_required : Option GoField → Bool
is_required none = false
is_required (some f) = not (is_nullable f)

abbrev pub requires : String → GoFields → Bool
requires key fields = is_required (find_field key fields)

-- Whether no field of a name may be null.
abbrev pub never_null : String → GoFields → Bool
never_null key no_more = true
never_null key (next_field first rest) =
    (not (to_lower (name_of first) == key) || not (is_nullable first)) && never_null key rest

abbrev is_some : Option GoField → Bool
is_some none = false
is_some (some f) = true

-- What a loop has done to a set of fields: the names are added, and what may be null stays so.
abbrev Merged : GoFields → GoFields → GoFields → Type 0
Merged out next after =
    (key : String)
    → (has_field key after ≡ (has_field key out || has_field key next))
      × (requires key after ≡ (requires key out && never_null key next))
