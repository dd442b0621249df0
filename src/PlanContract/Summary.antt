-- ===== src/PlanContract/Summary.antt =====
-- plancontract/plancontract.go: summaries of evaluations and the warnings about the environment.
pub mod Laws
use spanalyzer.Prelude.{
  String, List, [], ◌∷◌, ◌++◌, ℕ, suc, ◌+◌, Bool, true, false, not, ◌&&◌, ◌||◌, if◌then◌else◌, ◌==◌,
  string_eq, contains, add_new, length, count_if, any, select,
}
use spanalyzer.Prelude.Switch.{switch}
use spanalyzer.Text.{trim_space, to_lower, equal_fold}
use spanalyzer.PlanContract.Report.{Query, Report, OptimizerEnvironment}
use spanalyzer.PlanContract.Contract.{RuleResult, Evaluation, EvaluationSummary}
use spanalyzer.PlanContract.Rules.{status_pass, status_fail}

abbrev pub status_not_evaluated : String
status_not_evaluated = "not_evaluated"

-- The body of the loop of `Summarize`.
unfoldable pub summarize_one : EvaluationSummary → Evaluation → EvaluationSummary
summarize_one summary evaluation =
    switch evaluation.status
      ((status_fail ∷ [], record summary { status = status_fail; failed = summary.failed + 1 })
        ∷ (
          status_not_evaluated ∷ [],
          record summary { status = status_fail; not_evaluated = summary.not_evaluated + 1 },
        )
        ∷ [])
      (record summary { passed = summary.passed + 1 })

unfoldable pub summarize_all : EvaluationSummary → List Evaluation → EvaluationSummary
summarize_all summary [] = summary
summarize_all summary (evaluation ∷ evaluations) =
    summarize_all (summarize_one summary evaluation) evaluations

unfoldable pub summarize : List Evaluation → EvaluationSummary
summarize evaluations =
    summarize_all
      (record {
        status = status_pass;
        contracts = length evaluations;
        passed = 0;
        failed = 0;
        not_evaluated = 0;
        environment_warnings = [];
      })
      evaluations

-- The number of failed results of one evaluation.
abbrev pub failed_results : List RuleResult → ℕ
failed_results results = count_if (λ result. result.status == status_fail) results

unfoldable pub violation_count : List Evaluation → ℕ
violation_count [] = 0
violation_count (evaluation ∷ evaluations) =
    failed_results evaluation.results + violation_count evaluations

unfoldable pub check_failure_count : List Evaluation → ℕ
check_failure_count evaluations =
    count_if (λ evaluation. not (evaluation.status == status_pass)) evaluations

unfoldable pub optimizer_value_pinned : String → Bool
optimizer_value_pinned value = not (
    contains
      ("" ∷ "not_pinned" ∷ "not_recorded" ∷ "latest" ∷ "latest_version" ∷ "default_version" ∷ [])
      (to_lower (trim_space value)))

-- `OptimizerVersionPinned` and `OptimizerStatisticsPackagePinned` are both `optimizerValuePinned`.
unfoldable pub optimizer_environment_pinned : OptimizerEnvironment → Bool
optimizer_environment_pinned optimizer =
    optimizer_value_pinned optimizer.version && optimizer_value_pinned optimizer.statistics_package

-- `if b { add(warning) }`
unfoldable pub add_if : Bool → String → List String → List String
add_if b warning warnings = if b then add_new warnings warning else warnings

abbrev has_notes {ℓ} : {A : Type ℓ} → List A → Bool
has_notes [] = false
has_notes (x ∷ xs) = true

-- The body of the loop over the queries.
unfoldable pub query_warnings : List String → Query → List String
unfolding add_if
query_warnings warnings query =
    add_if (has_notes query.classification_notes) "operator_classification_unknown"
      (add_if query.optimizer_not_pinned "query_optimizer_not_pinned" warnings)

unfoldable pub queries_warnings : List String → List Query → List String
queries_warnings warnings [] = warnings
queries_warnings warnings (query ∷ queries) =
    queries_warnings (query_warnings warnings query) queries

unfoldable pub backend_not_recorded : Report → Bool
backend_not_recorded report =
    equal_fold report.backend_identity.version "not_recorded"
    || equal_fold report.backend_identity.image_digest "not_recorded"

unfoldable pub environment_warnings : Report → List String
environment_warnings report =
    let requested = report.optimizer.requested in
    queries_warnings
      (add_if (backend_not_recorded report) "backend_identity_not_recorded" (
        add_if (not (optimizer_value_pinned requested.statistics_package))
          "statistics_package_not_pinned"
          (add_if (not (optimizer_value_pinned requested.version)) "optimizer_not_pinned" [])))
      report.queries

unfoldable pub optimizer_pinning_warnings : Report → List String
optimizer_pinning_warnings report =
    select
      (λ warning.
        contains
          ("optimizer_not_pinned" ∷ "statistics_package_not_pinned" ∷ "query_optimizer_not_pinned"
            ∷ [])
          warning)
      (environment_warnings report)

-- `AddCheckWarnings`: the loop returns at the first contract on the raw plan.
unfoldable pub add_check_warnings : EvaluationSummary → List Evaluation → EvaluationSummary
add_check_warnings summary [] = summary
add_check_warnings summary (evaluation ∷ evaluations) =
    let rest = add_check_warnings summary evaluations in
    if evaluation.stability.tier == "raw_query_plan"
    then record summary {
      environment_warnings =
          add_new summary.environment_warnings "raw_query_plan_contract_used_in_check";
    }
    else rest
