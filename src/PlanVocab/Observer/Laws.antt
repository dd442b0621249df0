-- ===== src/PlanVocab/Observer/Laws.antt =====
-- The observer against an ideal one that remembers every fingerprint.
use mathlib.Core.List.{append-nil, append_assoc}
use native.Mathlib.Nat.{mod-mod, mod-add-mod}
use spanalyzer.Prelude.{
  String, List, [], ◌∷◌, ◌++◌, ℕ, ◌+◌, ◌^◌, ◌%◌, ◌≤◌, ◌≡◌, refl, sym, ◌∙◌, ap, subst, true, false,
  not, ◌==◌, if◌then◌else◌, string_eq, contains, any-append, length, length-append, ltb, arith,
  Bool-cases, inl, inr, beq_refl,
}
use spanalyzer.Prelude.Int.{ℤ}
use spanalyzer.PlanVocab.Shapes.{Finding}
use spanalyzer.PlanVocab.Shapes.Laws.{at_most_one}
use spanalyzer.PlanVocab.Observer.{
  Observer, Recorded, new_observer, record_fingerprint, LogRecord, log_recorded, observe_findings,
  bound_of, suppress, quiet,
}
use spanalyzer.PlanVocab.Observer.Ideal.{
  firsts, take, retained, missed, logged, suppressions, take_full, take_short, firsts_old,
  firsts_new, prints, logged-append, suppressions-append, missed-skip, missed-count,
  logged-log_recorded, suppressions-log_recorded,
}

-- What `recordFingerprint` answers without room: the first time this is said in the log.
abbrev refusal : Observer → Recorded
refusal o = record {
  log_finding = false;
  log_suppression = not o.suppression_logged;
  suppressed_count = (suppress o).suppressed;
}

module _ (o : Observer) (f : String) where
  record_old : contains o.seen f ≡ true → record_fingerprint o f ≡ (o, quiet o)
  unfolding record_fingerprint
  record_old h = rw h refl

  -- With room in the set a new fingerprint is logged.
  abbrev kept : Observer
  kept = record o { seen = o.seen ++ f ∷ [] }

  record_new :
      contains o.seen f ≡ false
      → ltb (length o.seen) o.max_fingerprints ≡ true
      → record_fingerprint o f ≡ (kept, record (quiet o) { log_finding = true })
  unfolding record_fingerprint
  record_new h r = rw (h, r) refl

  record_full :
      contains o.seen f ≡ false
      → ltb (length o.seen) o.max_fingerprints ≡ false
      → record_fingerprint o f ≡ (suppress o, refusal o)
  unfolding record_fingerprint
  record_full h r = rw (h, r) refl

abbrev seen_of : Observer → List Finding → List String
seen_of o findings = (observe_findings o findings).0.seen

seen_of-retained :
    (o : Observer) (findings : List Finding)
    → length o.seen ≤ o.max_fingerprints
    → seen_of o findings ≡ take o.max_fingerprints (firsts o.seen (prints findings))
unfolding observe_findings
seen_of-retained o [] h = sym (take_short o.max_fingerprints o.seen h)
seen_of-retained o (finding ∷ findings) h =
    let f = finding.fingerprint in
    let fs = prints findings in
    elim (Bool-cases (contains o.seen f)) [
      | inl old ↦ rw (record_old o f old) (
          seen_of-retained o findings h
          ∙ ap (take o.max_fingerprints) (sym (firsts_old o.seen f fs old)))
      | inr new ↦ elim (Bool-cases (ltb (length o.seen) o.max_fingerprints)) [
        | inl room ↦ rw (record_new o f new room) (
            seen_of-retained (kept o f) findings (ground (arith, length-append o.seen (f ∷ [])))
            ∙ ap (take o.max_fingerprints) (sym (firsts_new o.seen f fs new)))
        | inr full ↦
            let e : length o.seen ≡ o.max_fingerprints = ground arith in
            rw (record_full o f new full) (
              seen_of-retained (suppress o) findings h
              ∙ take_full o.max_fingerprints o.seen fs e
              ∙ sym (take_full o.max_fingerprints o.seen (f ∷ fs) e))
      ]
    ]

abbrev log_of : Observer → List Finding → List LogRecord
log_of o findings = (observe_findings o findings).1

record_fingerprint-seen :
    (o : Observer) (finding : Finding)
    → (record_fingerprint o finding.fingerprint).0.seen
      ≡ o.seen
        ++ logged
            (log_recorded o.max_fingerprints finding (record_fingerprint o finding.fingerprint).1)
unfolding record_fingerprint
record_fingerprint-seen o finding = ground (
  arith,
  append-nil o.seen,
  logged-log_recorded o.max_fingerprints finding (record_fingerprint o finding.fingerprint).1,
)

-- Whatever is logged is added to the set.
logged-seen_of :
    (o : Observer) (findings : List Finding)
    → seen_of o findings ≡ o.seen ++ logged (log_of o findings)
unfolding observe_findings
logged-seen_of o [] = sym (append-nil o.seen)
logged-seen_of o (finding ∷ findings) =
    let r = record_fingerprint o finding.fingerprint in
    let entries = log_recorded o.max_fingerprints finding r.1 in
    let rest = log_of r.0 findings in
    logged-seen_of r.0 findings
    ∙ ap (λ xs. xs ++ logged rest) (record_fingerprint-seen o finding)
    ∙ append_assoc o.seen (logged entries) (logged rest)
    ∙ ap (◌++◌ o.seen) (sym (logged-append entries rest))

seen_of-contains :
    (o : Observer) (findings : List Finding) (f : String)
    → contains o.seen f ≡ true
    → contains (seen_of o findings) f ≡ true
seen_of-contains o findings f h =
    rw (logged-seen_of o findings)
      (any-append (λ x. x == f) o.seen (logged (log_of o findings)) ∙ ground arith)

seen_of_full :
    (o : Observer) (findings : List Finding)
    → length o.seen ≡ o.max_fingerprints
    → seen_of o findings ≡ o.seen
seen_of_full o findings e =
    seen_of-retained o findings (omega arith)
    ∙ take_full o.max_fingerprints o.seen (prints findings) e

contains-last : (xs : List String) (f : String) → contains (xs ++ f ∷ []) f ≡ true
contains-last xs f = any-append (λ x. x == f) xs (f ∷ []) ∙ ground (arith, beq_refl f)

abbrev modulus : ℕ
modulus = 2 ^ 64

-- Each finding counts as suppressed whose fingerprint does not make it into the set.
abbrev Misses : Observer → List String → Observer → Type 0
Misses o fs last = last.suppressed ≡ (o.suppressed + missed last.seen fs) % modulus

observe_findings-Misses :
    (o : Observer) (findings : List Finding)
    → length o.seen ≤ o.max_fingerprints
    → o.suppressed % modulus ≡ o.suppressed
    → Misses o (prints findings) (observe_findings o findings).0
unfolding observe_findings
observe_findings-Misses o [] h w = sym w ∙ ap (λ n. n % modulus) (omega arith)
observe_findings-Misses o (finding ∷ findings) h w =
    let f = finding.fingerprint in
    let fs = prints findings in
    let Goal : Observer × Recorded → Type 0 =
      λ r. Misses o (f ∷ fs) (observe_findings r.0 findings).0 in
    elim (Bool-cases (contains o.seen f)) [
      | inl old ↦ subst Goal (sym (record_old o f old)) (
          observe_findings-Misses o findings h w
          ∙ ap (λ n. (o.suppressed + n) % modulus)
              (sym (missed-skip (seen_of o findings) f fs (seen_of-contains o findings f old))))
      | inr new ↦ elim (Bool-cases (ltb (length o.seen) o.max_fingerprints)) [
        | inl room ↦ subst Goal (sym (record_new o f new room)) (
            observe_findings-Misses (kept o f) findings
              (ground (arith, length-append o.seen (f ∷ []))) w
            ∙ ap (λ n. (o.suppressed + n) % modulus)
                (sym (
                  missed-skip (seen_of (kept o f) findings) f fs
                    (seen_of-contains (kept o f) findings f (contains-last o.seen f)))))
        | inr full ↦
            let e : length o.seen ≡ o.max_fingerprints = ground arith in
            let n = missed (seen_of (suppress o) findings) fs in
            subst Goal (sym (record_full o f new full)) (
              observe_findings-Misses (suppress o) findings h (mod-mod (o.suppressed + 1) modulus)
              ∙ mod-add-mod (o.suppressed + 1) modulus n
              ∙ ap (λ n. n % modulus)
                  (omega (
                    arith,
                    missed-count (seen_of (suppress o) findings) f fs
                        (ap (λ s. contains s f) (seen_of_full (suppress o) findings e) ∙ new),
                  )))
      ]
    ]

-- At most one record of suppression is written, the first time a finding is suppressed.
abbrev Announces : Observer → List String → Observer × List LogRecord → Type 0
Announces o fs (last, log) =
    suppressions log ≡ (if o.suppression_logged then 0 else at_most_one (missed last.seen fs))

observe_findings-Announces :
    (o : Observer) (findings : List Finding)
    → length o.seen ≤ o.max_fingerprints
    → Announces o (prints findings) (observe_findings o findings)
unfolding observe_findings
observe_findings-Announces o [] h = ground arith
observe_findings-Announces o (finding ∷ findings) h =
    let f = finding.fingerprint in
    let fs = prints findings in
    let entries : Recorded → List LogRecord = log_recorded o.max_fingerprints finding in
    let Goal : Observer × Recorded → Type 0 = λ r.
      Announces o (f ∷ fs)
        ((observe_findings r.0 findings).0, entries r.1 ++ (observe_findings r.0 findings).1) in
    elim (Bool-cases (contains o.seen f)) [
      | inl old ↦
          let last = seen_of o findings in
          subst Goal (sym (record_old o f old)) (
            suppressions-append (entries (quiet o)) (log_of o findings)
            ∙ ground (
              arith,
              suppressions-log_recorded o.max_fingerprints finding (quiet o),
              observe_findings-Announces o findings h,
              missed-skip last f fs (seen_of-contains o findings f old),
            ))
      | inr new ↦ elim (Bool-cases (ltb (length o.seen) o.max_fingerprints)) [
        | inl room ↦
            let last = seen_of (kept o f) findings in
            let r : Recorded = record (quiet o) { log_finding = true } in
            subst Goal (sym (record_new o f new room)) (
              suppressions-append (entries r) (log_of (kept o f) findings)
              ∙ ground (
                arith,
                suppressions-log_recorded o.max_fingerprints finding r,
                observe_findings-Announces (kept o f) findings
                    (ground (arith, length-append o.seen (f ∷ []))),
                missed-skip last f fs
                    (seen_of-contains (kept o f) findings f (contains-last o.seen f)),
              ))
        | inr full ↦
            let e : length o.seen ≡ o.max_fingerprints = ground arith in
            let last = seen_of (suppress o) findings in
            subst Goal (sym (record_full o f new full)) (
              suppressions-append (entries (refusal o)) (log_of (suppress o) findings)
              ∙ ground (
                arith,
                suppressions-log_recorded o.max_fingerprints finding (refusal o),
                observe_findings-Announces (suppress o) findings h,
                missed-count last f fs
                    (ap (λ s. contains s f) (seen_of_full (suppress o) findings e) ∙ new),
              ))
      ]
    ]

-- The observer refines the ideal one. A new observer retains and logs the first distinct
-- fingerprints, as many as its bound, each once and in the order of their first findings; it counts
-- every finding with another fingerprint as suppressed, modulo 2^64; and it writes one record of
-- suppression if there is such a finding, and none otherwise.
pub observe_findings-retained :
    (bound : ℤ) (findings : List Finding)
    → let result = observe_findings (new_observer bound) findings in
      let kept = retained (bound_of bound) (prints findings) in
      (result.0.seen ≡ kept)
      × (logged result.1 ≡ kept)
      × (result.0.suppressed ≡ missed kept (prints findings) % 2 ^ 64)
      × (suppressions result.1 ≡ at_most_one (missed kept (prints findings)))
unfolding new_observer
observe_findings-retained bound findings =
    let o = new_observer bound in
    let e = seen_of-retained o findings (omega arith) in
    (
      e,
      sym (logged-seen_of o findings) ∙ e,
      observe_findings-Misses o findings (omega arith) refl
          ∙ ap (λ kept. (0 + missed kept (prints findings)) % modulus) e
          ∙ ap (λ n. n % modulus) (omega arith),
      observe_findings-Announces o findings (omega arith)
          ∙ ap (λ kept. at_most_one (missed kept (prints findings))) e,
    )
