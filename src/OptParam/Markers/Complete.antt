-- ===== src/OptParam/Markers/Complete.antt =====
-- Which markers are found: the leftmost, one behind the other, and none is left over.
use Prim.Native.Char.{Char, code}
use text.Mathlib.TextLemmas.{append-eq-nil_iff, append_assoc, nil-append, cons-append}
use spanalyzer.Prelude.{
  String, [], ◌∷◌, ◌≡◌, refl, sym, ◌∙◌, ap, Bool, true, false, ◌&&◌, Option, none, some, arith,
  Bool-cases, Option-cases, inl, inr, nat_beq, contains, string_eq, ◌==◌, eq_of_beq, subst,
}
use spanalyzer.Text.{cut_prefix, is_identifier_start, identifier_byte}
use spanalyzer.PlanContract.Target.{◌+++◌}
use spanalyzer.OptParam.Markers.{
  Marker, split_first, span_identifier, read_identifier, read_kind, marker_kinds, marker_at,
  step_of,
}
use spanalyzer.OptParam.Markers.Laws.{
  show_marker, split-base, split-step, split_first-append, some_injective,
}

some_ne_none : {A : Type 0} {a : A} → ◌≡◌ {A = Option A} (some a) none → ⊥
some_ne_none h = cc

cut_prefix-of : (t rest : String) → cut_prefix (t +++ rest) t ≡ some rest
unfolding cut_prefix
cut_prefix-of String.[] rest = ap some (nil-append rest)
cut_prefix-of (String.◌∷◌ c t) rest =
    rw (cons-append c t rest) (ground (arith, cut_prefix-of t rest))

unfoldable pub are_bytes : String → Bool
are_bytes String.[] = true
are_bytes (String.◌∷◌ c s) = identifier_byte c && are_bytes s

-- `[A-Za-z_][A-Za-z0-9_]*`
abbrev pub is_name : String → Bool
is_name String.[] = false
is_name (String.◌∷◌ c s) = is_identifier_start c && are_bytes (String.◌∷◌ c s)

-- Texts that differ at their first or second character.
first_differs :
    (c d : Char) (s t x : String)
    → nat_beq (code c) (code d) ≡ false
    → cut_prefix (String.◌∷◌ c s +++ x) (String.◌∷◌ d t) ≡ none
unfolding cut_prefix
first_differs c d s t x h = rw (cons-append c s x) (ground (arith, h))

second_differs :
    (b c d : Char) (s t x : String)
    → nat_beq (code c) (code d) ≡ false
    → cut_prefix (String.◌∷◌ b (String.◌∷◌ c s) +++ x) (String.◌∷◌ b (String.◌∷◌ d t)) ≡ none
unfolding cut_prefix
second_differs b c d s t x h =
    rw (cons-append b (String.◌∷◌ c s) x) (ground (arith, first_differs c d s t x h))

cut_kind : (kind x : String) → cut_prefix (kind +++ ":" +++ x) (kind +++ ":") ≡ some x
cut_kind kind x =
    ap (λ y. cut_prefix y (kind +++ ":")) (sym (append_assoc kind ":" x))
    ∙ cut_prefix-of (kind +++ ":") x

abbrev IsRead : String → String → Type 0
IsRead x kind = read_kind marker_kinds (kind +++ ":" +++ x) ≡ some (kind, x)

IsRead-optional : (x : String) → IsRead x "optional"
unfolding read_kind
IsRead-optional x = rw (cut_kind "optional" x) refl

IsRead-empty : (x : String) → IsRead x "empty"
unfolding read_kind
IsRead-empty x =
    rw (first_differs "e" "o" "mpty" "ptional:" (":" +++ x) refl, cut_kind "empty" x) refl

IsRead-null_is_null : (x : String) → IsRead x "null_is_null"
unfolding read_kind
IsRead-null_is_null x =
    rw
      (
        first_differs "n" "o" "ull_is_null" "ptional:" (":" +++ x) refl,
        first_differs "n" "e" "ull_is_null" "mpty:" (":" +++ x) refl,
        cut_kind "null_is_null" x,
      )
      refl

IsRead-orderby : (x : String) → IsRead x "orderby"
unfolding read_kind
IsRead-orderby x =
    rw
      (
        second_differs "o" "r" "p" "derby" "tional:" (":" +++ x) refl,
        first_differs "o" "e" "rderby" "mpty:" (":" +++ x) refl,
        first_differs "o" "n" "rderby" "ull_is_null:" (":" +++ x) refl,
        cut_kind "orderby" x,
      )
      refl

IsRead-known : (kind x : String) → contains marker_kinds kind ≡ true → IsRead x kind
IsRead-known kind x h = elim (Bool-cases ("optional" == kind)) [
  | inl e ↦ subst (IsRead x) (eq_of_beq "optional" kind e) (IsRead-optional x)
  | inr one ↦ elim (Bool-cases ("empty" == kind)) [
    | inl e ↦ subst (IsRead x) (eq_of_beq "empty" kind e) (IsRead-empty x)
    | inr two ↦ elim (Bool-cases ("null_is_null" == kind)) [
      | inl e ↦ subst (IsRead x) (eq_of_beq "null_is_null" kind e) (IsRead-null_is_null x)
      | inr three ↦
          let last : contains ("orderby" ∷ []) kind ≡ true = rw (one, two, three) at h in
          subst (IsRead x) (eq_of_beq "orderby" kind (ground (arith, last))) (IsRead-orderby x)
    ]
  ]
]

span_identifier-of :
    (name rest : String)
    → are_bytes name ≡ true
    → span_identifier (name +++ "*/" +++ rest) ≡ (name, "*/" +++ rest)
unfolding span_identifier are_bytes identifier_byte
span_identifier-of String.[] rest h = rw nil-append (
    ap span_identifier (cons-append "*" "/" rest)
    ∙ ap (λ y. ("", y)) (sym (cons-append "*" "/" rest)))
span_identifier-of (String.◌∷◌ c s) rest h =
    rw (cons-append c s ("*/" +++ rest)) (ground (arith, span_identifier-of s rest))

split_first-here :
    (s pattern rest : String)
    → cut_prefix s pattern ≡ some rest
    → split_first s pattern ≡ some ("", rest)
unfolding split_first
split_first-here String.[] pattern rest h = rw h refl
split_first-here (String.◌∷◌ c s) pattern rest h = rw h refl

-- A pattern that occurs is found.
split_first-finds :
    (before pattern rest : String)
    → (p : String × String) × (split_first (before +++ pattern +++ rest) pattern ≡ some p)
unfolding split_first
split_first-finds String.[] pattern rest =
    rw (nil-append (pattern +++ rest))
      (("", rest), split_first-here (pattern +++ rest) pattern rest (cut_prefix-of pattern rest))
split_first-finds (String.◌∷◌ c s) pattern rest =
    let ((b, r), found) = split_first-finds s pattern rest in
    rw (cons-append c s (pattern +++ rest), found)
      (elim (cut_prefix (String.◌∷◌ c (s +++ pattern +++ rest)) pattern)
        as (λ o. (p : String × String) × (step_of c o (some (b, r)) ≡ some p)) [
          | none ↦ ((String.◌∷◌ c b, r), refl)
          | some x ↦ (("", x), refl)
        ])

read_identifier-of :
    (name rest : String)
    → is_name name ≡ true
    → read_identifier (name +++ "*/" +++ rest) ≡ some (name, "*/" +++ rest)
unfolding read_identifier
read_identifier-of String.[] rest h = cc
read_identifier-of (String.◌∷◌ c s) rest h =
    let bytes : are_bytes (String.◌∷◌ c s) ≡ true = ground arith in
    let start : is_identifier_start c ≡ true = ground arith in
    let whole = span_identifier-of (String.◌∷◌ c s) rest bytes in
    rw (cons-append c s ("*/" +++ rest), start)
      (ap (λ y. some (span_identifier y)) (sym (cons-append c s ("*/" +++ rest))) ∙ ap some whole)

-- The text does not hold the pattern.
abbrev pub Lacks : String → String → Type 0
Lacks pattern s = (a b : String) → s ≡ a +++ pattern +++ b → ⊥

Lacks-empty : (pattern : String) → (pattern ≡ "" → ⊥) → Lacks pattern ""
Lacks-empty pattern h a b e = h ((append-eq-nil_iff.0 (append-eq-nil_iff.0 (sym e)).1).0)

cons_tail : (c d : Char) (s t : String) → String.◌∷◌ c s ≡ String.◌∷◌ d t → s ≡ t
cons_tail c d s t e = cc

-- The first occurrence: the text before it holds none.
pub split_first-Lacks :
    (s pattern before rest : String)
    → (pattern ≡ "" → ⊥)
    → split_first s pattern ≡ some (before, rest)
    → Lacks pattern before
unfolding split_first
split_first-Lacks String.[] pattern before rest filled h =
    let (nothing, _) = split-base (cut_prefix "" pattern) before rest h in
    rw nothing (Lacks-empty pattern filled)
split_first-Lacks (String.◌∷◌ c s) pattern before rest filled h =
    elim (Option-cases (cut_prefix (String.◌∷◌ c s) pattern)) [
      | inl missing ↦
          elim (split-step c none (split_first s pattern) before rest (rw missing at h)) [
            | inl (_, found) ↦ absurd (cc)
            | inr (b, more, later) ↦ rw more (
                later_Lacks c s pattern b rest missing later
                  (split_first-Lacks s pattern b rest filled later))
          ]
      | inr (r, here) ↦
          let same = some_injective ("", r) (before, rest) (rw here at h) in
          rw (← ap (λ p. p.0) same) (Lacks-empty pattern filled)
    ]
  where
    later_Lacks :
        (c : Char) (s pattern before rest : String)
        → cut_prefix (String.◌∷◌ c s) pattern ≡ none
        → split_first s pattern ≡ some (before, rest)
        → Lacks pattern before
        → Lacks pattern (String.◌∷◌ c before)
    later_Lacks c s pattern before rest missing later h String.[] b e =
        let whole =
          ap (String.◌∷◌ c) (split_first-append s pattern before rest later)
          ∙ sym (cons-append c before (pattern +++ rest))
          ∙ ap (λ x. x +++ pattern +++ rest) (e ∙ nil-append (pattern +++ b))
          ∙ append_assoc pattern b (pattern +++ rest) in
        some_ne_none (
          sym (cut_prefix-of pattern (b +++ pattern +++ rest))
          ∙ ap (λ x. cut_prefix x pattern) (sym whole)
          ∙ missing)
    later_Lacks c s pattern before rest missing later h (String.◌∷◌ d a) b e =
        h a b (cons_tail c d before (a +++ pattern +++ b) (e ∙ cons-append d a (pattern +++ b)))

-- A marker that can be written.
abbrev pub IsMarker : Marker → Type 0
IsMarker m = (contains marker_kinds m.kind ≡ true) × (is_name m.name ≡ true)

-- A text that begins with a marker.
abbrev pub Begins : String → Type 0
Begins s = (m : Marker) × (rest : String) × IsMarker m × (s ≡ show_marker m +++ rest)

spell : (m : Marker) (rest : String) → String
spell m rest = m.body +++ "/*?end*/" +++ rest

show_marker-spell :
    (m : Marker) (rest : String)
    → show_marker m +++ rest ≡ "/*?" +++ m.kind +++ ":" +++ m.name +++ "*/" +++ spell m rest
unfolding spell
show_marker-spell m rest = simp append_assoc refl

-- Where a marker begins the scan finds one.
marker_at-of :
    (m : Marker) (rest : String)
    → IsMarker m
    → (p : Marker × String) × (marker_at (show_marker m +++ rest) ≡ some p)
unfolding marker_at spell
marker_at-of m rest (kind, name) =
    let behind = spell m rest in
    let ((body, tail), found) = split_first-finds m.body "/*?end*/" rest in
    rw
      (
        show_marker-spell m rest,
        cut_prefix-of "/*?" (m.kind +++ ":" +++ m.name +++ "*/" +++ behind),
        IsRead-known m.kind (m.name +++ "*/" +++ behind) kind,
        read_identifier-of m.name behind name,
        cut_prefix-of "*/" behind,
        found,
      )
      ((record { kind = m.kind; name = m.name; body = body }, tail), refl)

pub marker_at-none : (s : String) → marker_at s ≡ none → Begins s → ⊥
marker_at-none s h (m, rest, good, e) =
    let (p, found) = marker_at-of m rest good in some_ne_none (sym found ∙ ap marker_at (sym e) ∙ h)
