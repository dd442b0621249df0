-- ===== src/PlanVocab/Observer/Session.antt =====
-- An observer over the plans of a session, while its set has room.
use spanalyzer.Prelude.{
  String, List, [], ◌∷◌, ◌++◌, ℕ, ◌+◌, ◌%◌, ◌^◌, ◌≤◌, ◌≡◌, refl, sym, ◌∙◌, ap, true, ◌||◌, ◌==◌,
  Option, string_eq, contains, add_new, add_new_old, add_new_fresh, contains-add_new, count_if,
  count_if-append, length, length-append, length-map, none, some, ltb, arith, Bool-cases, inl, inr,
  beq_refl, eq_of_beq,
}
use mathlib.Core.List.{append_assoc}
use spanalyzer.Prelude.Int.{ℤ}
use spanalyzer.PlanVocab.Shapes.{Finding, Plan}
use spanalyzer.PlanVocab.Shapes.Laws.{at_most_one}
use spanalyzer.PlanVocab.Inspect.{Vocabulary, inspect}
use spanalyzer.PlanVocab.Inspect.Laws.{length-inspect-le}
use spanalyzer.PlanVocab.Observer.{
  Observer, LogRecord, new_observer, record_fingerprint, log_recorded, observe_findings, observe,
  bound_of,
}
use spanalyzer.PlanVocab.Observer.Ideal.{
  firsts, take_short, retained, missed, logged, suppressions, prints,
}
use spanalyzer.PlanVocab.Observer.Laws.{observe_findings-retained}

-- Calls of `Observe` one behind the other.
abbrev pub observe_plans : Vocabulary → Observer → List (Option Plan) → Observer × List LogRecord
observe_plans vocabulary o [] = (o, [])
observe_plans vocabulary o (plan ∷ plans) =
    let (_, (after, log)) = observe vocabulary o plan in
    let (last, more) = observe_plans vocabulary after plans in (last, log ++ more)

abbrev pub all_findings : Vocabulary → List (Option Plan) → List Finding
all_findings vocabulary [] = []
all_findings vocabulary (plan ∷ plans) = inspect vocabulary plan ++ all_findings vocabulary plans

observe_findings-append :
    (o : Observer) (xs ys : List Finding)
    → observe_findings o (xs ++ ys) ≡ (
      (observe_findings (observe_findings o xs).0 ys).0,
      (observe_findings o xs).1 ++ (observe_findings (observe_findings o xs).0 ys).1,
    )
unfolding observe_findings
observe_findings-append o [] ys = refl
observe_findings-append o (x ∷ xs) ys =
    let r = record_fingerprint o x.fingerprint in
    let entries = log_recorded o.max_fingerprints x r.1 in
    rw (observe_findings-append r.0 xs ys) (
      ap (λ log. ((observe_findings (observe_findings r.0 xs).0 ys).0, log))
        (sym (append_assoc entries (observe_findings r.0 xs).1 _)))

observe_plans-all_findings :
    (vocabulary : Vocabulary) (o : Observer) (plans : List (Option Plan))
    → observe_plans vocabulary o plans ≡ observe_findings o (all_findings vocabulary plans)
unfolding observe observe_findings
observe_plans-all_findings vocabulary o [] = refl
observe_plans-all_findings vocabulary o (plan ∷ plans) =
    let after = (observe_findings o (inspect vocabulary plan)).0 in
    rw
      (
        observe_findings-append o (inspect vocabulary plan) (all_findings vocabulary plans),
        observe_plans-all_findings vocabulary after plans,
      )
      refl

contains-firsts :
    (old fs : List String) (f : String)
    → contains (firsts old fs) f ≡ (contains old f || contains fs f)
contains-firsts old [] f = ground arith
contains-firsts old (g ∷ fs) f =
    contains-firsts (add_new old g) fs f ∙ ground (arith, contains-add_new old g f)

missed-none :
    (kept fs : List String)
    → ((f : String) → contains fs f ≡ true → contains kept f ≡ true)
    → missed kept fs ≡ 0
missed-none kept [] h = refl
missed-none kept (f ∷ fs) h =
    let rest = missed-none kept fs (λ g k. h g (ground arith)) in ground (arith, h f, beq_refl f)

abbrev pub times : String → List String → ℕ
times f fs = count_if (λ g. g == f) fs

contains-times : (fs : List String) (f : String) → contains fs f ≡ ltb 0 (times f fs)
contains-times [] f = refl
contains-times (g ∷ fs) f = ground (arith, contains-times fs f)

times-firsts :
    (old fs : List String) (f : String)
    → times f old ≡ at_most_one (times f old)
    → times f (firsts old fs) ≡ at_most_one (times f old + times f fs)
times-firsts old [] f h = ground arith
times-firsts old (g ∷ fs) f h = elim (Bool-cases (contains old g)) [
  | inl known ↦
      rw (add_new_old old g known)
        (times-firsts old fs f h ∙ ground (arith, contains-times old f, eq_of_beq g f))
  | inr fresh ↦
      let e = count_if-append (λ x. x == f) old (g ∷ []) in
      rw (add_new_fresh old g fresh) (
        times-firsts (old ++ g ∷ []) fs f (ground (arith, e, contains-times old f, eq_of_beq g f))
        ∙ ground (arith, e))
]

-- As long as the findings of a session have no more distinct fingerprints than the observer's
-- bound, every finding of every plan is logged at last: each fingerprint that `Inspect` gives is in
-- the log exactly once, no other is, nothing is suppressed, and no record says so.
pub observe_plans-logs_all :
    (vocabulary : Vocabulary) (bound : ℤ) (plans : List (Option Plan))
    → length (firsts [] (prints (all_findings vocabulary plans))) ≤ bound_of bound
    → let (last, log) = observe_plans vocabulary (new_observer bound) plans in
      ((f : String)
        → times f (logged log) ≡ at_most_one (times f (prints (all_findings vocabulary plans))))
      × (last.suppressed ≡ 0)
      × (suppressions log ≡ 0)
observe_plans-logs_all vocabulary bound plans h =
    let fs = prints (all_findings vocabulary plans) in
    let r = observe_findings-retained bound (all_findings vocabulary plans) in
    let e : retained (bound_of bound) fs ≡ firsts [] fs = take_short (bound_of bound) _ h in
    let none_missed : missed (retained (bound_of bound) fs) fs ≡ 0 =
      rw e (missed-none (firsts [] fs) fs (λ f k. contains-firsts [] fs f ∙ k)) in
    rw (observe_plans-all_findings vocabulary (new_observer bound) plans) (
      λ f. ap (times f) (r.1 ∙ e) ∙ times-firsts [] fs f refl ∙ ap at_most_one (omega arith),
      r.2 ∙ ap (λ n. n % 2 ^ 64) none_missed,
      r.3 ∙ ap at_most_one none_missed,
    )

abbrev pub nodes_in : List (Option Plan) → ℕ
nodes_in [] = 0
nodes_in (none ∷ plans) = nodes_in plans
nodes_in (some plan ∷ plans) = length plan + nodes_in plans

-- No more findings than nodes.
pub length-all_findings-le :
    (vocabulary : Vocabulary) (plans : List (Option Plan))
    → length (prints (all_findings vocabulary plans)) ≤ nodes_in plans
unfolding inspect
length-all_findings-le vocabulary [] = omega arith
length-all_findings-le vocabulary (none ∷ plans) = length-all_findings-le vocabulary plans
length-all_findings-le vocabulary (some plan ∷ plans) = omega (
  arith,
  length-inspect-le vocabulary plan,
  length-append (inspect vocabulary (some plan)) (all_findings vocabulary plans),
  length-map (λ f. f.fingerprint) (all_findings vocabulary (some plan ∷ plans)),
  length-map (λ f. f.fingerprint) (all_findings vocabulary plans),
  length-all_findings-le vocabulary plans,
)
