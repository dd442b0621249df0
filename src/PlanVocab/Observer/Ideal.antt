-- ===== src/PlanVocab/Observer/Ideal.antt =====
-- The ideal observer, which knows every fingerprint that comes.
use mathlib.Core.List.{append-nil, append_assoc}
use spanalyzer.Prelude.{
  String, List, [], ◌∷◌, ◌++◌, ℕ, zero, suc, ◌+◌, ◌≤◌, ◌≡◌, refl, sym, ◌∙◌, ap, true, false, not,
  if◌then◌else◌, string_eq, contains, add_new, add_new_old, add_new_fresh, count_if, length,
  length-append, arith, Bool-cases, inl, inr, map,
}
use spanalyzer.PlanVocab.Shapes.{Finding}
use spanalyzer.PlanVocab.Observer.{
  Recorded, LogRecord, unknown_vocabulary, vocabulary_suppressed, log_recorded,
}

-- The ideal observer: the fingerprints in the order in which they first come, of which it retains
-- as many as the bound says.
abbrev pub firsts : List String → List String → List String
firsts old [] = old
firsts old (f ∷ fs) = firsts (add_new old f) fs

abbrev pub take : ℕ → List String → List String
take zero xs = []
take (suc n) [] = []
take (suc n) (x ∷ xs) = x ∷ take n xs

abbrev pub retained : ℕ → List String → List String
retained bound fs = take bound (firsts [] fs)

-- How many of the fingerprints are not among those that are kept.
abbrev pub missed : List String → List String → ℕ
missed kept fs = count_if (λ f. not (contains kept f)) fs

-- What a log says: the fingerprints of its findings, and how often it says that more are suppressed.
abbrev pub logged : List LogRecord → List String
logged [] = []
logged (unknown_vocabulary finding ∷ log) = finding.fingerprint ∷ logged log
logged (vocabulary_suppressed bound count ∷ log) = logged log

abbrev pub suppressions : List LogRecord → ℕ
suppressions [] = 0
suppressions (unknown_vocabulary finding ∷ log) = suppressions log
suppressions (vocabulary_suppressed bound count ∷ log) = suc (suppressions log)

pub firsts-extends : (old fs : List String) → (new : List String) × (firsts old fs ≡ old ++ new)
firsts-extends old [] = ([], sym (append-nil old))
firsts-extends old (f ∷ fs) = elim (Bool-cases (contains old f)) [
  | inl known ↦ rw (add_new_old old f known) (firsts-extends old fs)
  | inr fresh ↦
      let (new, e) = firsts-extends (old ++ f ∷ []) fs in
      rw (add_new_fresh old f fresh) (f ∷ new, e ∙ append_assoc old (f ∷ []) new)
]

pub take-length : (xs ys : List String) → take (length xs) (xs ++ ys) ≡ xs
take-length [] ys = refl
take-length (x ∷ xs) ys = ap (◌∷◌ x) (take-length xs ys)

pub take_full : (n : ℕ) (xs fs : List String) → length xs ≡ n → take n (firsts xs fs) ≡ xs
take_full n xs fs h = let (new, e) = firsts-extends xs fs in rw (← h, e) (take-length xs new)

pub take_short : (n : ℕ) (xs : List String) → length xs ≤ n → take n xs ≡ xs
take_short zero [] h = refl
take_short zero (x ∷ xs) h = absurd (omega arith)
take_short (suc n) [] h = refl
take_short (suc n) (x ∷ xs) h = ap (◌∷◌ x) (take_short n xs (omega arith))

pub firsts_old :
    (old : List String) (f : String) (fs : List String)
    → contains old f ≡ true
    → firsts old (f ∷ fs) ≡ firsts old fs
firsts_old old f fs h = ap (λ xs. firsts xs fs) (add_new_old old f h)

pub firsts_new :
    (old : List String) (f : String) (fs : List String)
    → contains old f ≡ false
    → firsts old (f ∷ fs) ≡ firsts (old ++ f ∷ []) fs
firsts_new old f fs h = ap (λ xs. firsts xs fs) (add_new_fresh old f h)

abbrev pub prints : List Finding → List String
prints findings = map (λ f. f.fingerprint) findings

pub logged-append : (xs ys : List LogRecord) → logged (xs ++ ys) ≡ logged xs ++ logged ys
logged-append [] ys = refl
logged-append (unknown_vocabulary finding ∷ xs) ys =
    ap (◌∷◌ finding.fingerprint) (logged-append xs ys)
logged-append (vocabulary_suppressed bound count ∷ xs) ys = logged-append xs ys

pub suppressions-append :
    (xs ys : List LogRecord) → suppressions (xs ++ ys) ≡ suppressions xs + suppressions ys
suppressions-append [] ys = omega arith
suppressions-append (unknown_vocabulary finding ∷ xs) ys = suppressions-append xs ys
suppressions-append (vocabulary_suppressed bound count ∷ xs) ys =
    omega (arith, suppressions-append xs ys)

pub missed-skip :
    (kept : List String) (f : String) (fs : List String)
    → contains kept f ≡ true
    → missed kept (f ∷ fs) ≡ missed kept fs
missed-skip kept f fs h = rw h refl

pub missed-count :
    (kept : List String) (f : String) (fs : List String)
    → contains kept f ≡ false
    → missed kept (f ∷ fs) ≡ suc (missed kept fs)
missed-count kept f fs h = rw h refl

-- What one finding adds to a log.
pub logged-log_recorded :
    (bound : ℕ) (finding : Finding) (r : Recorded)
    → logged (log_recorded bound finding r)
      ≡ (if r.log_finding then finding.fingerprint ∷ [] else [])
unfolding log_recorded
logged-log_recorded bound finding r = ground arith

pub suppressions-log_recorded :
    (bound : ℕ) (finding : Finding) (r : Recorded)
    → suppressions (log_recorded bound finding r) ≡ (if r.log_suppression then 1 else 0)
unfolding log_recorded
suppressions-log_recorded bound finding r = ground arith

pub length-firsts-le : (old fs : List String) → length (firsts old fs) ≤ length old + length fs
length-firsts-le old [] = omega arith
length-firsts-le old (f ∷ fs) = elim (Bool-cases (contains old f)) [
  | inl known ↦ rw (add_new_old old f known) (omega (arith, length-firsts-le old fs))
  | inr fresh ↦
      rw (add_new_fresh old f fresh)
        (omega (arith, length-firsts-le (old ++ f ∷ []) fs, length-append old (f ∷ [])))
]
