-- ===== src/Text.antt =====
-- The functions of Go's `strings` package that the source calls, over texts as sequences of
-- characters (valid UTF-8). Case mapping is that of `unicode` wherever it yields an ASCII letter:
-- A-Z, the Kelvin sign and the dotted capital I. All comparisons of the source are with ASCII
-- texts, so their outcomes are exact; other characters are left as they are.
pub mod Laws
use Prim.Native.Nat.{ℕ, compare, Ordering}
use Prim.Native.Char.{Char, code}
use Prim.Native.String
use spanalyzer.Prelude.{
  String, Bool, true, false, ◌&&◌, ◌||◌, List, [], ◌∷◌, ◌-◌, ◌%◌, ◌/◌, ltb, Option, none, some,
  if◌then◌else◌, leb, nat_beq, ◌==◌, string_eq,
}
use spanalyzer.Prelude.Int.{ℤ, pos, negsuc}

-- `unicode.IsSpace`
unfoldable pub is_space : Char → Bool
is_space c =
    let n = code c in
    (leb 0x09 n && leb n 0x0d)
    || nat_beq n 0x20
    || nat_beq n 0x85
    || nat_beq n 0xa0
    || nat_beq n 0x1680
    || (leb 0x2000 n && leb n 0x200a)
    || nat_beq n 0x2028
    || nat_beq n 0x2029
    || nat_beq n 0x202f
    || nat_beq n 0x205f
    || nat_beq n 0x3000

abbrev lower_letters : String
lower_letters = "abcdefghijklmnopqrstuvwxyz"

nth : String → ℕ → Char → Char
nth String.[] n d = d
nth (String.◌∷◌ c s) ℕ.zero d = c
nth (String.◌∷◌ c s) (ℕ.suc n) d = nth s n d

abbrev is_upper_letter : Char → Bool
is_upper_letter c = leb b'A' (code c) && leb (code c) b'Z'

-- `unicode.ToLower`, where the result is ASCII
unfoldable pub lower_char : Char → Char
unfolding nth
lower_char c =
    if is_upper_letter c
    then nth lower_letters (code c - b'A') c
    else if nat_beq (code c) 0x130
    then "i"
    else if nat_beq (code c) 0x212a
    then "k"
    else c

-- The ASCII member of a character's orbit under `unicode.SimpleFold`.
unfoldable pub fold_char : Char → Char
unfolding nth
fold_char c =
    if is_upper_letter c
    then nth lower_letters (code c - b'A') c
    else if nat_beq (code c) 0x17f
    then "s"
    else if nat_beq (code c) 0x212a
    then "k"
    else c

map_chars : (Char → Char) → String → String
map_chars f String.[] = ""
map_chars f (String.◌∷◌ c s) = String.◌∷◌ (f c) (map_chars f s)

-- `strings.ToLower`
unfoldable pub to_lower : String → String
unfolding map_chars lower_char
to_lower s = map_chars lower_char s

-- `strings.EqualFold`
unfoldable pub equal_fold : String → String → Bool
unfolding map_chars fold_char
equal_fold s t = map_chars fold_char s == map_chars fold_char t

trim_left : String → String
trim_left String.[] = ""
trim_left (String.◌∷◌ c s) = let rest = trim_left s in if is_space c then rest else String.◌∷◌ c s

trim_right : String → String
trim_right String.[] = ""
trim_right (String.◌∷◌ c s) =
    let rest = trim_right s in if is_space c && rest == "" then "" else String.◌∷◌ c rest

-- `strings.TrimSpace`
unfoldable pub trim_space : String → String
unfolding trim_left trim_right is_space
trim_space s = trim_right (trim_left s)

-- The words behind `word`, which is the word that is being read.
fields_from : String → String → List String
fields_from word String.[] = if word == "" then [] else word ∷ []
fields_from word (String.◌∷◌ c s) =
    let more = fields_from (String.◌++◌ word (String.◌∷◌ c "")) s in
    let next = fields_from "" s in
    if is_space c then (if word == "" then next else word ∷ next) else more

-- `strings.Fields`
unfoldable pub fields : String → List String
unfolding fields_from is_space
fields s = fields_from "" s

-- `strings.Join`
unfoldable pub join : List String → String → String
join [] sep = ""
join (s ∷ []) sep = s
join (s ∷ t ∷ more) sep = String.◌++◌ s (String.◌++◌ sep (join (t ∷ more) sep))

-- `strings.HasPrefix`, by what is left behind the prefix
unfoldable pub cut_prefix : String → String → Option String
cut_prefix s String.[] = some s
cut_prefix String.[] (String.◌∷◌ d t) = none
cut_prefix (String.◌∷◌ c s) (String.◌∷◌ d t) =
    let rest = cut_prefix s t in if nat_beq (code c) (code d) then rest else none

abbrev is_some : Option String → Bool
is_some none = false
is_some (some s) = true

unfoldable pub has_prefix : String → String → Bool
unfolding cut_prefix
has_prefix s t = is_some (cut_prefix s t)

-- `strings.HasSuffix`
unfoldable pub has_suffix : String → String → Bool
has_suffix String.[] t = t == ""
has_suffix (String.◌∷◌ c s) t = String.◌∷◌ c s == t || has_suffix s t

-- `strings.Contains`
unfoldable pub contains_text : String → String → Bool
unfolding has_prefix
contains_text String.[] t = t == ""
contains_text (String.◌∷◌ c s) t = has_prefix (String.◌∷◌ c s) t || contains_text s t

-- `strings.ReplaceAll(s, "-", "_")`
unfoldable pub dashes_to_underscores : String → String
unfolding map_chars
dashes_to_underscores s = map_chars (λ c. if nat_beq (code c) b'-' then "_" else c) s

decimal_from : ℕ → ℕ → String → String
unfolding nth
decimal_from ℕ.zero n s = s
decimal_from (ℕ.suc fuel) n s =
    let t = String.◌∷◌ (nth "0123456789" (n % 10) "0") s in
    let more = decimal_from fuel (n / 10) t in if ltb n 10 then t else more

-- `%d` of a number that is not negative; a number has at most as many digits as its successor says.
unfoldable pub decimal : ℕ → String
unfolding decimal_from
decimal n = decimal_from (ℕ.suc n) n ""

-- `[A-Za-z_]`
unfoldable pub is_identifier_start : Char → Bool
is_identifier_start c =
    let n = code c in (leb b'a' n && leb n b'z') || (leb b'A' n && leb n b'Z') || nat_beq n b'_'

-- `[A-Za-z0-9_]`, and `identifierByte`
unfoldable pub identifier_byte : Char → Bool
identifier_byte c =
    let n = code c in
    (leb b'a' n && leb n b'z')
    || (leb b'A' n && leb n b'Z')
    || (leb b'0' n && leb n b'9')
    || nat_beq n b'_'

unfoldable pub skip_identifier_bytes : String → String
skip_identifier_bytes String.[] = ""
skip_identifier_bytes (String.◌∷◌ c s) =
    let rest = skip_identifier_bytes s in if identifier_byte c then rest else String.◌∷◌ c s

-- What `IdentifierPattern` leaves behind its longest match, if it matches at all.
unfoldable pub after_identifier : String → Option String
after_identifier String.[] = none
after_identifier (String.◌∷◌ c s) =
    let rest = some (skip_identifier_bytes s) in if is_identifier_start c then rest else none

abbrev upper_letters : String
upper_letters = "ABCDEFGHIJKLMNOPQRSTUVWXYZ"

abbrev is_lower_letter : Char → Bool
is_lower_letter c = leb b'a' (code c) && leb (code c) b'z'

-- The source's own `toUpper`, on ASCII letters alone.
unfoldable pub ascii_upper_char : Char → Char
unfolding nth
ascii_upper_char c = if is_lower_letter c then nth upper_letters (code c - b'a') c else c

-- `unicode.ToUpper`, where the result is ASCII
unfoldable pub upper_char : Char → Char
unfolding ascii_upper_char
upper_char c =
    if nat_beq (code c) 0x131
    then "I"
    else if nat_beq (code c) 0x17f
    then "S"
    else ascii_upper_char c

-- `strings.ToUpper`
unfoldable pub to_upper : String → String
unfolding map_chars upper_char
to_upper s = map_chars upper_char s

-- `strings.TrimPrefix`
unfoldable pub trim_prefix : String → String → String
trim_prefix s t = elim (cut_prefix s t) [ none ↦ s | some rest ↦ rest ]

-- `strings.TrimSuffix`
unfoldable pub trim_suffix : String → String → String
trim_suffix String.[] t = ""
trim_suffix (String.◌∷◌ c s) t =
    let rest = String.◌∷◌ c (trim_suffix s t) in if String.◌∷◌ c s == t then "" else rest

abbrev pub print_int : ℤ → String
print_int (pos n) = decimal n
print_int (negsuc n) = String.◌++◌ "-" (decimal (ℕ.suc n))
