-- ===== src/OptParam/Markers/Laws.antt =====
-- No text of a template is lost: the markers and the text between them spell it again.
use Prim.Native.Char.{Char, code}
use text.Mathlib.TextEquality.{Char-path}
use text.Mathlib.TextLemmas.{append_assoc, nil-append, cons-append}
use spanalyzer.Prelude.{
  String, List, [], ◌∷◌, ℕ, zero, suc, ◌+◌, ◌<◌, ◌≤◌, ◌≡◌, ◌⊎◌, refl, sym, ◌∙◌, ap, ap₂, Option,
  none, some, arith, Bool-cases, Option-cases, inl, inr, nat_beq,
}
use spanalyzer.Text.{cut_prefix, is_identifier_start, identifier_byte}
use spanalyzer.PlanContract.Target.{◌+++◌}
use spanalyzer.OptParam.Markers.{
  Marker, ◌>>=◌, split_first, span_identifier, read_identifier, read_kind, marker_kinds, marker_at,
  next_marker, base_of, step_of, kind_of, first_marker, text_length, find_markers, find_all_markers,
}

none_not_some : {A : Type 0} {a : A} → ◌≡◌ {A = Option A} none (some a) → ⊥
none_not_some h = cc

pub bind-eq-some {ℓ κ} :
    {A : Type ℓ} {B : Type κ} (m : Option A) (f : A → Option B) {b : B}
    → (m >>= f) ≡ some b
    → (a : A) × (m ≡ some a) × (f a ≡ some b)
bind-eq-some (some a) f h = (a, refl, h)
bind-eq-some none f h = cc

pub some_injective {ℓ} : {A : Type ℓ} (x y : A) → ◌≡◌ {A = Option A} (some x) (some y) → x ≡ y
some_injective x y e = cc

cut_prefix-append : (s t rest : String) → cut_prefix s t ≡ some rest → s ≡ t +++ rest
unfolding cut_prefix
cut_prefix-append s String.[] rest h = some_injective s rest h ∙ sym (nil-append rest)
cut_prefix-append String.[] (String.◌∷◌ d t) rest h = cc
cut_prefix-append (String.◌∷◌ c s) (String.◌∷◌ d t) rest h =
    elim (Bool-cases (nat_beq (code c) (code d))) [
      | inl same ↦
          ap₂ String.◌∷◌ (Char-path c d (ground arith)) (cut_prefix-append s t rest (ground arith))
          ∙ sym (cons-append d t rest)
      | inr other ↦ ground arith
    ]

-- The two ends of the search, on the result of `cutPrefix`.
pub split-base :
    (found : Option String) (before rest : String)
    → base_of found ≡ some (before, rest)
    → (before ≡ "") × (found ≡ some rest)
split-base none before rest h = cc
split-base (some r) before rest h =
    let same = some_injective ("", r) (before, rest) h in
    (ap (λ p. p.0) (sym same), ap (λ p. some p.1) same)

pub split-step :
    (c : Char) (found : Option String) (later : Option (String × String)) (before rest : String)
    → step_of c found later ≡ some (before, rest)
    → ((before ≡ "") × (found ≡ some rest))
      ⊎ ((b : String) × (before ≡ String.◌∷◌ c b) × (later ≡ some (b, rest)))
split-step c (some r) later before rest h =
    let same = some_injective ("", r) (before, rest) h in
    inl (ap (λ p. p.0) (sym same), ap (λ p. some p.1) same)
split-step c none none before rest h = cc
split-step c none (some (b, r)) before rest h =
    let same = some_injective (String.◌∷◌ c b, r) (before, rest) h in
    inr (b, ap (λ p. p.0) (sym same), ap (λ p. some (b, p.1)) same)

pub split_first-append :
    (s pattern before rest : String)
    → split_first s pattern ≡ some (before, rest)
    → s ≡ before +++ pattern +++ rest
unfolding split_first
split_first-append String.[] pattern before rest h =
    let (nothing, found) = split-base (cut_prefix "" pattern) before rest h in
    rw nothing (cut_prefix-append "" pattern rest found ∙ sym (nil-append (pattern +++ rest)))
split_first-append (String.◌∷◌ c s) pattern before rest h =
    elim (split-step c (cut_prefix (String.◌∷◌ c s) pattern) (split_first s pattern) before rest
      h) [
        | inl (nothing, found) ↦ rw nothing (
            cut_prefix-append (String.◌∷◌ c s) pattern rest found
            ∙ sym (nil-append (pattern +++ rest)))
        | inr (b, more, later) ↦ rw more (
            ap (String.◌∷◌ c) (split_first-append s pattern b rest later)
            ∙ sym (cons-append c b (pattern +++ rest)))
      ]

span_identifier-append : (s : String) → s ≡ (span_identifier s).0 +++ (span_identifier s).1
unfolding span_identifier
span_identifier-append String.[] = sym (nil-append "")
span_identifier-append (String.◌∷◌ c s) = elim (Bool-cases (identifier_byte c)) [
  | inl word ↦ rw word (
      ap (String.◌∷◌ c) (span_identifier-append s)
      ∙ sym (cons-append c (span_identifier s).0 (span_identifier s).1))
  | inr other ↦ rw other (sym (nil-append (String.◌∷◌ c s)))
]

read_identifier-append :
    (s name rest : String) → read_identifier s ≡ some (name, rest) → s ≡ name +++ rest
unfolding read_identifier
read_identifier-append String.[] name rest h = cc
read_identifier-append (String.◌∷◌ c s) name rest h = elim (Bool-cases (is_identifier_start c)) [
  | inr other ↦ absurd (none_not_some (rw other at h))
  | inl start ↦
      let same = some_injective (span_identifier (String.◌∷◌ c s)) (name, rest) (rw start at h) in
      span_identifier-append (String.◌∷◌ c s) ∙ ap₂ ◌+++◌ (ap (λ p. p.0) same) (ap (λ p. p.1) same)
]

pub kind-step :
    (k : String) (found : Option String) (later : Option (String × String)) (kind rest : String)
    → kind_of k found later ≡ some (kind, rest)
    → ((k ≡ kind) × (found ≡ some rest)) ⊎ (later ≡ some (kind, rest))
kind-step k (some r) later kind rest h =
    let same = some_injective (k, r) (kind, rest) h in
    inl (ap (λ p. p.0) same, ap (λ p. some p.1) same)
kind-step k none later kind rest h = inr h

read_kind-append :
    (kinds : List String) (s kind rest : String)
    → read_kind kinds s ≡ some (kind, rest)
    → s ≡ kind +++ ":" +++ rest
unfolding read_kind
read_kind-append [] s kind rest h = cc
read_kind-append (k ∷ kinds) s kind rest h =
    elim (kind-step k (cut_prefix s (k +++ ":")) (read_kind kinds s) kind rest h) [
      | inl (same, found) ↦
          cut_prefix-append s (k +++ ":") rest found
          ∙ append_assoc k ":" rest
          ∙ ap (λ k. k +++ ":" +++ rest) same
      | inr later ↦ read_kind-append kinds s kind rest later
    ]

-- How a marker is written.
abbrev pub show_marker : Marker → String
show_marker m = "/*?" +++ m.kind +++ ":" +++ m.name +++ "*/" +++ m.body +++ "/*?end*/"

marker_at-append :
    (s : String) (m : Marker) (rest : String)
    → marker_at s ≡ some (m, rest)
    → s ≡ show_marker m +++ rest
unfolding marker_at
marker_at-append s m rest h =
    let (opened, h₁, e₁) = bind-eq-some (cut_prefix s "/*?") _ h in
    let ((kind, after_kind), h₂, e₂) = bind-eq-some (read_kind marker_kinds opened) _ e₁ in
    let ((name, after_name), h₃, e₃) = bind-eq-some (read_identifier after_kind) _ e₂ in
    let (body_on, h₄, e₄) = bind-eq-some (cut_prefix after_name "*/") _ e₃ in
    let ((body, tail), h₅, e₅) = bind-eq-some (split_first body_on "/*?end*/") _ e₄ in
    let made : Marker = record { kind = kind; name = name; body = body } in
    let same = some_injective (made, tail) (m, rest) e₅ in
    cut_prefix-append s "/*?" opened h₁
    ∙ ap (λ x. "/*?" +++ x) (read_kind-append marker_kinds opened kind after_kind h₂)
    ∙ ap (λ x. "/*?" +++ kind +++ ":" +++ x) (read_identifier-append after_kind name after_name h₃)
    ∙ ap (λ x. "/*?" +++ kind +++ ":" +++ name +++ x) (cut_prefix-append after_name "*/" body_on h₄)
    ∙ ap (λ x. "/*?" +++ kind +++ ":" +++ name +++ "*/" +++ x)
        (split_first-append body_on "/*?end*/" body tail h₅)
    ∙ simp append_assoc refl
    ∙ ap (λ (p : Marker × String). show_marker p.0 +++ p.1) same

pub first-step :
    (c : Char) (here : Option (Marker × String)) (later : Option (String × Marker × String))
    (before : String) (m : Marker) (rest : String)
    → first_marker c here later ≡ some (before, m, rest)
    → ((before ≡ "") × (here ≡ some (m, rest)))
      ⊎ ((b : String) × (before ≡ String.◌∷◌ c b) × (later ≡ some (b, m, rest)))
first-step c (some (n, r)) later before m rest h =
    let same = some_injective ("", n, r) (before, m, rest) h in
    inl (ap (λ p. p.0) (sym same), ap (λ p. some (p.1, p.2)) same)
first-step c none none before m rest h = cc
first-step c none (some (b, n, r)) before m rest h =
    let same = some_injective (String.◌∷◌ c b, n, r) (before, m, rest) h in
    inr (b, ap (λ p. p.0) (sym same), ap (λ p. some (b, p.1, p.2)) same)

pub next_marker-append :
    (s before : String) (m : Marker) (rest : String)
    → next_marker s ≡ some (before, m, rest)
    → s ≡ before +++ show_marker m +++ rest
unfolding next_marker
next_marker-append String.[] before m rest h = cc
next_marker-append (String.◌∷◌ c s) before m rest h =
    elim (first-step c (marker_at (String.◌∷◌ c s)) (next_marker s) before m rest h) [
      | inl (nothing, found) ↦ rw nothing (
          marker_at-append (String.◌∷◌ c s) m rest found
          ∙ sym (nil-append (show_marker m +++ rest)))
      | inr (b, more, later) ↦ rw more (
          ap (String.◌∷◌ c) (next_marker-append s b m rest later)
          ∙ sym (cons-append c b (show_marker m +++ rest)))
    ]

-- The text that a list of markers and the text around them spell.
abbrev pub show_found : List (String × Marker) → String → String
show_found [] tail = tail
show_found ((before, m) ∷ found) tail = before +++ show_marker m +++ show_found found tail

pub find_markers-append :
    (fuel : ℕ) (s : String) → show_found (find_markers fuel s).0 (find_markers fuel s).1 ≡ s
unfolding find_markers
find_markers-append zero s = refl
find_markers-append (suc fuel) s = elim (Option-cases (next_marker s)) [
  | inl nothing ↦ rw (nothing, find_markers) refl
  | inr ((before, m, rest), found) ↦
      let split = next_marker-append s before m rest found in
      rw (found, find_markers)
        (ap (λ x. before +++ show_marker m +++ x) (find_markers-append fuel rest) ∙ sym split)
]

-- Splitting a SQL text into markers loses nothing: the texts before the markers, the markers as they are
-- written and the text behind the last spell the SQL text again.
pub find_all_markers-show_found :
    (sql : String) → show_found (find_all_markers sql).0 (find_all_markers sql).1 ≡ sql
unfolding find_all_markers
find_all_markers-show_found sql = find_markers-append (text_length sql) sql

text_length-append : (s t : String) → text_length (s +++ t) ≡ text_length s + text_length t
unfolding text_length
text_length-append String.[] t = rw (nil-append t) omega arith
text_length-append (String.◌∷◌ c s) t =
    rw (cons-append c s t) (omega (arith, text_length-append s t))

opening_length : (s : String) → 0 < text_length ("/*?" +++ s)
unfolding text_length
opening_length s =
    let opening : text_length "/*?" ≡ 3 = refl in omega (arith, text_length-append "/*?" s, opening)

marker-shorter :
    (s before : String) (m : Marker) (rest : String)
    → next_marker s ≡ some (before, m, rest)
    → text_length rest < text_length s
marker-shorter s before m rest h =
    let split = ap text_length (next_marker-append s before m rest h) in
    omega (
      arith,
      split,
      text_length-append before (show_marker m +++ rest),
      text_length-append (show_marker m) rest,
      opening_length (m.kind +++ ":" +++ m.name +++ "*/" +++ m.body +++ "/*?end*/"),
    )

find_markers-done :
    (fuel : ℕ) (s : String) → text_length s ≤ fuel → next_marker (find_markers fuel s).1 ≡ none
unfolding find_markers next_marker text_length
find_markers-done zero String.[] h = refl
find_markers-done zero (String.◌∷◌ c s) h = absurd (omega (arith, h))
find_markers-done (suc fuel) s h = elim (Option-cases (next_marker s)) [
  | inl nothing ↦ rw (nothing, find_markers) nothing
  | inr ((before, m, rest), found) ↦
      rw (found, find_markers)
        (find_markers-done fuel rest (omega (arith, marker-shorter s before m rest found, h)))
]

-- There is fuel enough: behind the last marker the search for another finds none.
pub find_all_markers-done : (sql : String) → next_marker (find_all_markers sql).1 ≡ none
unfolding find_all_markers
find_all_markers-done sql = find_markers-done (text_length sql) sql (omega arith)
