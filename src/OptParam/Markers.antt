-- ===== src/OptParam/Markers.antt =====
-- internal/optparam/optparam.go: `markerRegexp` and `FindAllStringSubmatchIndex`, as a scan from the
-- left. A marker is `/*?kind:name*/`, a body that is as short as possible, and `/*?end*/`.
pub mod Laws
pub mod Complete
pub mod Leftmost
use Prim.Native.Char.{Char}
use Prim.Native.String
use spanalyzer.Prelude.{
  String, List, [], ◌∷◌, ℕ, zero, suc, Bool, true, false, Option, none, some, if◌then◌else◌, ◌==◌,
  string_eq,
}
use spanalyzer.Text.{cut_prefix, is_identifier_start, identifier_byte}

infixl 5 ◌>>=◌
abbrev ◌>>=◌ {ℓ κ} : {A : Type ℓ} {B : Type κ} → Option A → (A → Option B) → Option B
none >>= k = none
some a >>= k = k a

-- An occurrence here, by what follows it, or one that begins at a later character.
abbrev pub base_of : Option String → Option (String × String)
base_of none = none
base_of (some rest) = some ("", rest)

abbrev pub grow : Char → Option (String × String) → Option (String × String)
grow c none = none
grow c (some (before, rest)) = some (String.◌∷◌ c before, rest)

abbrev pub step_of : Char → Option String → Option (String × String) → Option (String × String)
step_of c (some rest) later = some ("", rest)
step_of c none later = grow c later

-- The text before and behind the first occurrence of `pattern`.
unfoldable pub split_first : String → String → Option (String × String)
split_first String.[] pattern = base_of (cut_prefix "" pattern)
split_first (String.◌∷◌ c s) pattern =
    step_of c (cut_prefix (String.◌∷◌ c s) pattern) (split_first s pattern)

-- The longest run of identifier bytes, and what follows it.
unfoldable pub span_identifier : String → String × String
span_identifier String.[] = ("", "")
span_identifier (String.◌∷◌ c s) =
    let (word, rest) = span_identifier s in
    if identifier_byte c then (String.◌∷◌ c word, rest) else ("", String.◌∷◌ c s)

-- `([A-Za-z_][A-Za-z0-9_]*)`
unfoldable pub read_identifier : String → Option (String × String)
read_identifier String.[] = none
read_identifier (String.◌∷◌ c s) =
    let all = some (span_identifier (String.◌∷◌ c s)) in if is_identifier_start c then all else none

abbrev pub kind_of : String → Option String → Option (String × String) → Option (String × String)
kind_of kind (some rest) later = some (kind, rest)
kind_of kind none later = later

-- `(optional|empty|null_is_null|orderby):`
unfoldable pub read_kind : List String → String → Option (String × String)
read_kind [] s = none
read_kind (kind ∷ kinds) s = kind_of kind (cut_prefix s (String.◌++◌ kind ":")) (read_kind kinds s)

abbrev pub marker_kinds : List String
marker_kinds = "optional" ∷ "empty" ∷ "null_is_null" ∷ "orderby" ∷ []

pub record Marker : Type 0 where
  pub kind : String
  pub name : String
  pub body : String

-- A match that begins here, and the text behind it.
unfoldable pub marker_at : String → Option (Marker × String)
marker_at s = do
  opened ← cut_prefix s "/*?"
  (kind, after_kind) ← read_kind marker_kinds opened
  (name, after_name) ← read_identifier after_kind
  body_on ← cut_prefix after_name "*/"
  (body, rest) ← split_first body_on "/*?end*/"
  some (record { kind = kind; name = name; body = body }, rest)

abbrev pub grow_marker :
    Char → Option (String × Marker × String) → Option (String × Marker × String)
grow_marker c none = none
grow_marker c (some (before, marker, rest)) = some (String.◌∷◌ c before, marker, rest)

abbrev pub first_marker :
    Char
    → Option (Marker × String)
    → Option (String × Marker × String)
    → Option (String × Marker × String)
first_marker c (some (marker, rest)) later = some ("", marker, rest)
first_marker c none later = grow_marker c later

-- The text before the leftmost match, the match and the text behind it.
unfoldable pub next_marker : String → Option (String × Marker × String)
next_marker String.[] = none
next_marker (String.◌∷◌ c s) = first_marker c (marker_at (String.◌∷◌ c s)) (next_marker s)

unfoldable pub text_length : String → ℕ
text_length String.[] = 0
text_length (String.◌∷◌ c s) = suc (text_length s)

-- All matches, each with the text since the match before, and the text behind the last. A match is
-- not empty, so the number of characters is fuel enough.
unfoldable pub find_markers : ℕ → String → List (String × Marker) × String
find_markers zero s = ([], s)
find_markers (suc fuel) s = elim (next_marker s) [
  | none ↦ ([], s)
  | some (before, marker, rest) ↦
      let (found, tail) = find_markers fuel rest in ((before, marker) ∷ found, tail)
]

unfoldable pub find_all_markers : String → List (String × Marker) × String
unfolding find_markers text_length next_marker marker_at read_kind read_identifier span_identifier
    split_first
find_all_markers sql = find_markers (text_length sql) sql
