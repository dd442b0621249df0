-- ===== src/PlanVocab/Observer.antt =====
-- plancontract/planvocab/observer.go: the `Observer`, which logs each unknown fingerprint once.
pub mod Ideal
pub mod Laws
pub mod Session
use spanalyzer.Prelude.{
  String, List, [], ◌∷◌, ◌++◌, ℕ, ◌+◌, ◌^◌, ◌%◌, Bool, true, false, not, Option, if◌then◌else◌,
  string_eq, contains, length, ltb,
}
use spanalyzer.Prelude.Int.{ℤ, pos, negsuc}
use spanalyzer.PlanVocab.Shapes.{Finding, Plan}
use spanalyzer.PlanVocab.Inspect.{Vocabulary, inspect}

abbrev default_max_fingerprints : ℕ
default_max_fingerprints = 1024

pub record Observer : Type 0 where
  pub max_fingerprints : ℕ
  pub seen : List String
  pub suppressed : ℕ
  pub suppression_logged : Bool

abbrev pub bound_of : ℤ → ℕ
bound_of (pos ℕ.zero) = default_max_fingerprints
bound_of (pos (ℕ.suc n)) = ℕ.suc n
bound_of (negsuc n) = default_max_fingerprints

-- `NewObserverWithOptions`, but for the logger
unfoldable pub new_observer : ℤ → Observer
new_observer max_fingerprints = record {
  max_fingerprints = bound_of max_fingerprints;
  seen = [];
  suppressed = 0;
  suppression_logged = false;
}

-- The results of `recordFingerprint`.
pub record Recorded : Type 0 where
  pub log_finding : Bool
  pub log_suppression : Bool
  pub suppressed_count : ℕ

abbrev pub quiet : Observer → Recorded
quiet o = record { log_finding = false; log_suppression = false; suppressed_count = o.suppressed }

-- `o.suppressed++` on a `uint64`, and the flag
abbrev pub suppress : Observer → Observer
suppress o = record o { suppressed = (o.suppressed + 1) % 2 ^ 64; suppression_logged = true }

-- The body of `recordFingerprint`, which runs under the mutex.
unfoldable pub record_fingerprint : Observer → String → Observer × Recorded
record_fingerprint o fingerprint =
    if contains o.seen fingerprint
    then (o, quiet o)
    else if ltb (length o.seen) o.max_fingerprints
    then (record o { seen = o.seen ++ fingerprint ∷ [] }, record (quiet o) { log_finding = true })
    else (
      suppress o,
      record {
        log_finding = false;
        log_suppression = not o.suppression_logged;
        suppressed_count = (suppress o).suppressed;
      },
    )

-- The records of the logger: a finding, or the bound and the count of what is suppressed.
pub data LogRecord : Type 0 where
  unknown_vocabulary : Finding → LogRecord
  vocabulary_suppressed : ℕ → ℕ → LogRecord

abbrev when : Bool → LogRecord → List LogRecord
when b entry = if b then entry ∷ [] else []

unfoldable pub log_recorded : ℕ → Finding → Recorded → List LogRecord
log_recorded max_fingerprints finding recorded =
    when recorded.log_suppression (vocabulary_suppressed max_fingerprints recorded.suppressed_count)
    ++ when recorded.log_finding (unknown_vocabulary finding)

unfoldable pub observe_findings : Observer → List Finding → Observer × List LogRecord
unfolding record_fingerprint log_recorded
observe_findings o [] = (o, [])
observe_findings o (finding ∷ findings) =
    let (after, recorded) = record_fingerprint o finding.fingerprint in
    let (last, log) = observe_findings after findings in
    (last, log_recorded o.max_fingerprints finding recorded ++ log)

-- `Observe`: the findings, the observer behind, and what is logged
unfoldable pub observe :
    Vocabulary → Observer → Option Plan → List Finding × (Observer × List LogRecord)
unfolding observe_findings
observe vocabulary o plan =
    let findings = inspect vocabulary plan in (findings, observe_findings o findings)

-- `SuppressedCount`
abbrev pub suppressed_count : Observer → ℕ
suppressed_count o = o.suppressed
