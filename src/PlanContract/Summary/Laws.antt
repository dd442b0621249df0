-- ===== src/PlanContract/Summary/Laws.antt =====
-- What a summary counts, and which warnings it holds.
use spanalyzer.Prelude.{
  String, List, [], ◌∷◌, ℕ, ◌+◌, ◌≡◌, refl, ◌∙◌, Bool, true, false, ◌&&◌, ◌||◌, not, if◌then◌else◌,
  ◌==◌, string_eq, arith, contains, any, count_if, length, contains-add_new, Distinct,
  Distinct-add_new, eq_of_beq, beq_comm,
}
use spanalyzer.PlanContract.Report.{Query, Report}
use spanalyzer.PlanContract.Contract.{Evaluation, EvaluationSummary}
use spanalyzer.PlanContract.Rules.{status_pass, status_fail}
use spanalyzer.PlanContract.Summary.{
  status_not_evaluated, summarize_one, summarize_all, summarize, add_if, has_notes, query_warnings,
  queries_warnings, backend_not_recorded, environment_warnings, optimizer_value_pinned,
}

-- How many evaluations have a status.
abbrev pub with_status : String → List Evaluation → ℕ
with_status status evaluations = count_if (λ evaluation. evaluation.status == status) evaluations

-- Neither failed nor left out.
abbrev pub passes : Evaluation → Bool
passes evaluation =
    not (evaluation.status == status_fail) && not (evaluation.status == status_not_evaluated)

-- `summary` is `start` with the evaluations counted.
abbrev pub Counts : EvaluationSummary → List Evaluation → EvaluationSummary → Type 0
Counts start evaluations summary =
    (summary.failed ≡ start.failed + with_status status_fail evaluations)
    × (summary.not_evaluated ≡ start.not_evaluated + with_status status_not_evaluated evaluations)
    × (summary.passed ≡ start.passed + count_if passes evaluations)
    × (summary.status
        ≡ (if any (λ e. not (passes e)) evaluations then status_fail else start.status))
    × (summary.contracts ≡ start.contracts)

failed_not_left_out : (s : String) → (s == status_fail) ≡ true → (s == status_not_evaluated) ≡ false
failed_not_left_out s h = rw (eq_of_beq s status_fail h) refl

summarize_one-status :
    (start : EvaluationSummary) (evaluation : Evaluation)
    → Counts start (evaluation ∷ []) (summarize_one start evaluation)
unfolding summarize_one
summarize_one-status start evaluation =
    let failed = beq_comm evaluation.status status_fail in
    let left_out = beq_comm evaluation.status status_not_evaluated in
    let exclusive = failed_not_left_out evaluation.status in
    (
      ground (arith, failed, left_out, exclusive),
      ground (arith, failed, left_out, exclusive),
      ground (arith, failed, left_out),
      ground (arith, failed, left_out),
      ground (arith, failed, left_out),
    )

summarize_all-Counts :
    (start : EvaluationSummary) (evaluations : List Evaluation)
    → Counts start evaluations (summarize_all start evaluations)
unfolding summarize_all
summarize_all-Counts start [] = (omega arith, omega arith, omega arith, refl, refl)
summarize_all-Counts start (evaluation ∷ evaluations) =
    let (f, n, p, s, c) = summarize_one-status start evaluation in
    let (fs, ns, ps, ss, cs) = summarize_all-Counts (summarize_one start evaluation) evaluations in
    (ground arith, ground arith, ground arith, ground arith, cs ∙ c)

partition :
    (evaluations : List Evaluation)
    → count_if passes evaluations
        + with_status status_fail evaluations
        + with_status status_not_evaluated evaluations
      ≡ length evaluations
partition [] = omega arith
partition (evaluation ∷ evaluations) =
    ground (arith, partition evaluations, failed_not_left_out evaluation.status)

-- A summary counts every evaluation once, as failed, not evaluated or passed, and it fails exactly if
-- some evaluation failed or was not evaluated.
pub summarize-counts :
    (evaluations : List Evaluation)
    → ((summarize evaluations).failed ≡ with_status status_fail evaluations)
      × ((summarize evaluations).not_evaluated ≡ with_status status_not_evaluated evaluations)
      × ((summarize evaluations).passed ≡ count_if passes evaluations)
      × ((summarize evaluations).status
          ≡ (if any (λ e. not (passes e)) evaluations then status_fail else status_pass))
      × ((summarize evaluations).contracts ≡ length evaluations)
      × ((summarize evaluations).passed
            + (summarize evaluations).failed
            + (summarize evaluations).not_evaluated
          ≡ length evaluations)
unfolding summarize
summarize-counts evaluations =
    let start : EvaluationSummary = record {
      status = status_pass;
      contracts = length evaluations;
      passed = 0;
      failed = 0;
      not_evaluated = 0;
      environment_warnings = [];
    } in
    let (f, n, p, s, c) = summarize_all-Counts start evaluations in
    (
      omega (arith, f),
      omega (arith, n),
      omega (arith, p),
      s,
      c,
      omega (arith, f, n, p, partition evaluations),
    )

-- `add` in `environment_warnings`
contains-add_if :
    (b : Bool) (warning : String) (warnings : List String) (w : String)
    → contains (add_if b warning warnings) w ≡ (contains warnings w || (b && warning == w))
unfolding add_if
contains-add_if true warning warnings w = contains-add_new warnings warning w
contains-add_if false warning warnings w = ground arith

Distinct-add_if :
    (b : Bool) (warning : String) (warnings : List String)
    → Distinct warnings
    → Distinct (add_if b warning warnings)
unfolding add_if
Distinct-add_if true warning warnings d = Distinct-add_new warnings warning d
Distinct-add_if false warning warnings d = d

-- What one query, and the whole report, give reason to warn of.
abbrev pub warns : Query → String → Bool
warns query w =
    (query.optimizer_not_pinned && "query_optimizer_not_pinned" == w)
    || (has_notes query.classification_notes && "operator_classification_unknown" == w)

abbrev pub report_warns : Report → String → Bool
report_warns report w =
    (not (optimizer_value_pinned report.optimizer.requested.version) && "optimizer_not_pinned" == w)
    || (not (optimizer_value_pinned report.optimizer.requested.statistics_package)
        && "statistics_package_not_pinned" == w)
    || (backend_not_recorded report && "backend_identity_not_recorded" == w)
    || any (λ query. warns query w) report.queries

contains-query_warnings :
    (warnings : List String) (query : Query) (w : String)
    → contains (query_warnings warnings query) w ≡ (contains warnings w || warns query w)
unfolding query_warnings
contains-query_warnings warnings query w = ground (
  arith,
  contains-add_if (has_notes query.classification_notes) "operator_classification_unknown"
      (add_if query.optimizer_not_pinned "query_optimizer_not_pinned" warnings) w,
  contains-add_if query.optimizer_not_pinned "query_optimizer_not_pinned" warnings w,
)

contains-queries_warnings :
    (warnings : List String) (queries : List Query) (w : String)
    → contains (queries_warnings warnings queries) w
      ≡ (contains warnings w || any (λ query. warns query w) queries)
unfolding queries_warnings
contains-queries_warnings warnings [] w = ground arith
contains-queries_warnings warnings (query ∷ queries) w = ground (
  arith,
  contains-queries_warnings (query_warnings warnings query) queries w,
  contains-query_warnings warnings query w,
)

Distinct-query_warnings :
    (warnings : List String) (query : Query)
    → Distinct warnings
    → Distinct (query_warnings warnings query)
unfolding query_warnings
Distinct-query_warnings warnings query d =
    let pinned = add_if query.optimizer_not_pinned "query_optimizer_not_pinned" warnings in
    Distinct-add_if (has_notes query.classification_notes) "operator_classification_unknown" pinned
      (Distinct-add_if query.optimizer_not_pinned "query_optimizer_not_pinned" warnings d)

Distinct-queries_warnings :
    (warnings : List String) (queries : List Query)
    → Distinct warnings
    → Distinct (queries_warnings warnings queries)
unfolding queries_warnings
Distinct-queries_warnings warnings [] d = d
Distinct-queries_warnings warnings (query ∷ queries) d =
    Distinct-queries_warnings (query_warnings warnings query) queries
      (Distinct-query_warnings warnings query d)

-- The warnings about the environment stand in the summary once each, and a warning is among them exactly
-- if the report gives reason for it: an optimizer version or a statistics package that is not pinned, a
-- backend that is not recorded, or a query with either warning.
pub environment_warnings_exact :
    (report : Report)
    → Distinct (environment_warnings report)
      × ((w : String) → contains (environment_warnings report) w ≡ report_warns report w)
unfolding environment_warnings
environment_warnings_exact report =
    let requested = report.optimizer.requested in
    let version =
      add_if (not (optimizer_value_pinned requested.version)) "optimizer_not_pinned" [] in
    let statistics =
      add_if (not (optimizer_value_pinned requested.statistics_package))
        "statistics_package_not_pinned" version in
    let backend = add_if (backend_not_recorded report) "backend_identity_not_recorded" statistics in
    (
      Distinct-queries_warnings backend report.queries (
          Distinct-add_if (backend_not_recorded report) "backend_identity_not_recorded" statistics (
            Distinct-add_if (not (optimizer_value_pinned requested.statistics_package))
              "statistics_package_not_pinned" version
              (Distinct-add_if (not (optimizer_value_pinned requested.version))
                "optimizer_not_pinned" [] tt))),
      λ w. ground (
        arith,
        contains-queries_warnings backend report.queries w,
        contains-add_if (backend_not_recorded report) "backend_identity_not_recorded" statistics w,
        contains-add_if (not (optimizer_value_pinned requested.statistics_package))
            "statistics_package_not_pinned" version w,
        contains-add_if (not (optimizer_value_pinned requested.version)) "optimizer_not_pinned" []
            w,
      ),
    )
