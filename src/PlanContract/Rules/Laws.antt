-- ===== src/PlanContract/Rules/Laws.antt =====
-- The rules against their specification: when a predicate fails on a query.
use spanalyzer.Prelude.{
  String, List, [], ◌∷◌, ◌≡◌, refl, subst, Bool, true, false, ◌||◌, not, if◌then◌else◌, ◌==◌,
  string_eq, arith, contains, Bool-cases, inl, inr, nonempty, ltb-length,
}
use spanalyzer.Prelude.Int.{ℤ, pos, ltb_ℤ, int_eq}
use spanalyzer.Prelude.Order.{int_ord}
use spanalyzer.Prelude.Switch.{switch, switch_all_hit, switch_related, Related}
use spanalyzer.Prelude.Results.{Result, ok, err}
use spanalyzer.PlanContract.Report.{Query}
use spanalyzer.PlanContract.Matching.{operator_family_count, predicate_classification_unknown}
use spanalyzer.PlanContract.Matching.Nonempty.{
  some_full_scan, some_bare_full_scan, some_blocking_under_limit, some_timestamp_condition,
  nonempty-full_scan, nonempty-bare_full_scan, nonempty-blocking_under_limit,
  nonempty-timestamp_condition,
}
use spanalyzer.PlanContract.Remediation.{Remediation}
use spanalyzer.PlanContract.Contract.{ResolvedPredicate, RuleResult, Error, unsupported_rule}
use spanalyzer.PlanContract.Predicates.{
  rule_forbid_operator_family, rule_forbid_blocking_operator_under_limit, rule_forbid_full_scan,
  rule_forbid_full_scan_without_timestamp, rule_require_timestamp_condition,
}
use spanalyzer.PlanContract.Predicates.Laws.{rules, IsResolved, Ensures}
use spanalyzer.PlanContract.Rules.{
  status_pass, status_fail, evaluate_forbid, evaluate_none_of, evaluate_some_of, rule_cases,
  evaluate_predicate,
}

abbrev Succeeds : Result Error RuleResult → Type 0
Succeeds m = (r : RuleResult) × (m ≡ ok r)

rule_or_default :
    (rule : String)
    → contains rules rule ≡ true
    → contains rules (if rule == "" then rule_forbid_operator_family else rule) ≡ true
rule_or_default rule h = elim (Bool-cases (rule == "")) [
  | inl blank ↦ rw blank refl
  | inr given ↦ rw given h
]

or_false : (b : Bool) → (b || false) ≡ b
or_false true = refl
or_false false = refl

-- A predicate that `predicates` made never meets the error of an unsupported rule.
pub evaluate_predicate_total :
    (query : Query) (predicate : ResolvedPredicate)
    → IsResolved predicate
    → (r : RuleResult) × (evaluate_predicate query predicate ≡ ok r)
unfolding evaluate_predicate
evaluate_predicate_total query predicate h =
    let rule = if predicate.rule == "" then rule_forbid_operator_family else predicate.rule in
    switch_all_hit Succeeds rule (rule_cases query predicate) (err (unsupported_rule rule))
      (simp or_false (rw or_false at (rule_or_default predicate.rule h.rule_known)))
      ((_, refl), ((_, refl), ((_, refl), ((_, refl), ((_, refl), tt)))))

-- What each rule forbids or requires.
abbrev pub violations : Query → ResolvedPredicate → List (List String × Bool)
violations query predicate =
    (
      rule_forbid_operator_family ∷ [],
      ltb_ℤ predicate.max_count (pos (operator_family_count query predicate.operator_family))
          || predicate_classification_unknown query predicate.operator_family,
    )
    ∷ (rule_forbid_blocking_operator_under_limit ∷ [], some_blocking_under_limit query)
    ∷ (rule_forbid_full_scan ∷ [], some_full_scan query)
    ∷ (rule_forbid_full_scan_without_timestamp ∷ [], some_bare_full_scan query)
    ∷ (rule_require_timestamp_condition ∷ [], not (some_timestamp_condition query))
    ∷ []

abbrev pub violated : Query → ResolvedPredicate → Bool
violated query predicate =
    switch (if predicate.rule == "" then rule_forbid_operator_family else predicate.rule)
      (violations query predicate) false

abbrev pub verdict : Bool → String
verdict b = if b then status_fail else status_pass

abbrev Judges : Result Error RuleResult → Bool → Type 0
Judges m b = Ensures (λ r. r.status ≡ verdict b) m

judges-none_of :
    (rule : String) (predicate : ResolvedPredicate) (matched : List ℤ) (fix : List Remediation)
    (b : Bool)
    → nonempty matched ≡ b
    → (evaluate_none_of rule predicate matched fix).status ≡ verdict b
unfolding evaluate_none_of
judges-none_of rule predicate matched fix b h = ground (arith, ltb-length matched)

judges-some_of :
    (rule : String) (predicate : ResolvedPredicate) (matched : List ℤ) (fix : List Remediation)
    (b : Bool)
    → nonempty matched ≡ b
    → (evaluate_some_of rule predicate matched fix).status ≡ verdict (not b)
unfolding evaluate_some_of
judges-some_of rule predicate matched fix b h = ground (arith, ltb-length matched)

judges-forbid :
    (query : Query) (predicate : ResolvedPredicate)
    → (evaluate_forbid query predicate).status
      ≡ verdict (
          ltb_ℤ predicate.max_count (pos (operator_family_count query predicate.operator_family))
          || predicate_classification_unknown query predicate.operator_family)
unfolding evaluate_forbid
judges-forbid query predicate = ground arith

rule_cases-violations :
    (query : Query) (predicate : ResolvedPredicate)
    → Related Judges (rule_cases query predicate) (violations query predicate)
rule_cases-violations query predicate = (
  refl,
  (
    judges-forbid query predicate,
    (
      refl,
      (
        judges-none_of _ predicate _ _ _ (nonempty-blocking_under_limit query),
        (
          refl,
          (
            judges-none_of _ predicate _ _ _ (nonempty-full_scan query),
            (
              refl,
              (
                judges-none_of _ predicate _ _ _ (nonempty-bare_full_scan query),
                (refl, (judges-some_of _ predicate _ _ _ (nonempty-timestamp_condition query), tt)),
              ),
            ),
          ),
        ),
      ),
    ),
  ),
)

-- A result of `evaluatePredicate` passes or fails, and it fails exactly where the rule is violated: for
-- a family, if more operators than `max_count` are of it or if the report warns that operators of it may
-- have gone unrecognized; else if some scan is full, if some full scan has no timestamp condition, if
-- some blocking operator is below a limit, or if no scan has a timestamp condition.
pub evaluate_predicate-violated :
    (query : Query) (predicate : ResolvedPredicate) (r : RuleResult)
    → evaluate_predicate query predicate ≡ ok r
    → r.status ≡ (if violated query predicate then status_fail else status_pass)
unfolding evaluate_predicate
evaluate_predicate-violated query predicate r e =
    let rule = if predicate.rule == "" then rule_forbid_operator_family else predicate.rule in
    subst (λ m. Judges m (violated query predicate)) e
      (switch_related Judges rule (rule_cases query predicate) (violations query predicate)
        (err (unsupported_rule rule)) false (rule_cases-violations query predicate) tt)
