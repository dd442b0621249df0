-- ===== src/PlanContract/Rules.antt =====
-- plancontract/plancontract.go: `evaluatePredicate`, the result of one rule on one query.
pub mod Laws
use spanalyzer.Prelude.{
  String, List, [], ◌∷◌, ◌++◌, ℕ, zero, Bool, true, false, Option, some, none, if◌then◌else◌, ◌==◌,
  string_eq, length, ltb,
}
use spanalyzer.Prelude.Int.{ℤ, pos, ltb_ℤ}
use spanalyzer.Prelude.Switch.{switch}
use spanalyzer.Prelude.Results.{Result, ok, err}
use spanalyzer.PlanContract.Report.{Query}
use spanalyzer.PlanContract.Matching.{
  operator_family_count, predicate_matched_operator_indexes, predicate_classification_unknown,
  blocking_operator_under_limit_indexes, full_scan_operator_indexes,
  full_scan_without_timestamp_condition_operator_indexes, timestamp_condition_operator_indexes,
}
use spanalyzer.PlanContract.Remediation.{
  Remediation, remediation_for, classification_unknown_diagnostic_id,
  classification_unknown_remediation, blocking_operator_under_limit_remediation,
  full_scan_remediation, full_scan_without_timestamp_condition_remediation,
  timestamp_condition_remediation,
}
use spanalyzer.PlanContract.Contract.{ResolvedPredicate, RuleResult, Error, unsupported_rule}
use spanalyzer.PlanContract.Predicates.{
  rule_forbid_operator_family, rule_forbid_blocking_operator_under_limit, rule_forbid_full_scan,
  rule_forbid_full_scan_without_timestamp, rule_require_timestamp_condition,
}

abbrev pub status_pass : String
status_pass = "pass"

abbrev pub status_fail : String
status_fail = "fail"

abbrev pub failure_kind_violation : String
failure_kind_violation = "violation"

abbrev pub failure_kind_classification_unknown : String
failure_kind_classification_unknown = "classification_unknown"

-- `RuleResult{…}` with a status, and the failure's three fields
abbrev pub violation : RuleResult → List Remediation → RuleResult
violation result remediation = record result {
  status = status_fail;
  failure_kind = failure_kind_violation;
  remediation = remediation;
}

-- The result that passes, over the matched indexes.
abbrev pub passing : ResolvedPredicate → String → ℕ → ℤ → String → List ℤ → RuleResult
passing predicate rule observed maximum family matched = record {
  rule = rule;
  source = predicate.source;
  predefined = predicate.predefined;
  expression = "";
  operator_family = family;
  status = status_pass;
  failure_kind = "";
  diagnostic_id = "";
  observed_count = observed;
  max_count = maximum;
  matched_operator_indexes = some matched;
  remediation = [];
}

-- The case `ruleForbidOperatorFamily`; the second test comes after the first and overrides it.
unfoldable pub evaluate_forbid : Query → ResolvedPredicate → RuleResult
evaluate_forbid query predicate =
    let family = predicate.operator_family in
    let count = operator_family_count query family in
    let base =
      passing predicate rule_forbid_operator_family count predicate.max_count family
        (predicate_matched_operator_indexes query family) in
    let counted =
      if ltb_ℤ predicate.max_count (pos count)
      then violation base (remediation_for family)
      else base in
    if predicate_classification_unknown query family
    then record counted {
      status = status_fail;
      failure_kind = failure_kind_classification_unknown;
      diagnostic_id = classification_unknown_diagnostic_id family;
      remediation = counted.remediation ++ classification_unknown_remediation family;
    }
    else counted

-- The cases that fail where some operator matches.
unfoldable pub evaluate_none_of :
    String → ResolvedPredicate → List ℤ → List Remediation → RuleResult
evaluate_none_of rule predicate matched remediation =
    let base = passing predicate rule (length matched) (pos 0) "" matched in
    if ltb 0 (length matched) then violation base remediation else base

-- The case `ruleRequireTimestampCondition`, which fails where none does.
unfoldable pub evaluate_some_of :
    String → ResolvedPredicate → List ℤ → List Remediation → RuleResult
evaluate_some_of rule predicate matched remediation =
    let base = passing predicate rule (length matched) (pos 0) "" matched in
    if ltb 0 (length matched) then base else violation base remediation

-- The cases of the `switch rule`.
abbrev pub rule_cases : Query → ResolvedPredicate → List (List String × Result Error RuleResult)
rule_cases query predicate =
    (rule_forbid_operator_family ∷ [], ok (evaluate_forbid query predicate))
    ∷ (
      rule_forbid_blocking_operator_under_limit ∷ [],
      ok (
          evaluate_none_of rule_forbid_blocking_operator_under_limit predicate
            (blocking_operator_under_limit_indexes query)
            blocking_operator_under_limit_remediation),
    )
    ∷ (
      rule_forbid_full_scan ∷ [],
      ok (
          evaluate_none_of rule_forbid_full_scan predicate (full_scan_operator_indexes query)
            full_scan_remediation),
    )
    ∷ (
      rule_forbid_full_scan_without_timestamp ∷ [],
      ok (
          evaluate_none_of rule_forbid_full_scan_without_timestamp predicate
            (full_scan_without_timestamp_condition_operator_indexes query)
            full_scan_without_timestamp_condition_remediation),
    )
    ∷ (
      rule_require_timestamp_condition ∷ [],
      ok (
          evaluate_some_of rule_require_timestamp_condition predicate
            (timestamp_condition_operator_indexes query) timestamp_condition_remediation),
    )
    ∷ []

unfoldable pub evaluate_predicate : Query → ResolvedPredicate → Result Error RuleResult
evaluate_predicate query predicate =
    let rule = if predicate.rule == "" then rule_forbid_operator_family else predicate.rule in
    switch rule (rule_cases query predicate) (err (unsupported_rule rule))
