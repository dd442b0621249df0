-- ===== src/PlanContract/QueryTests.antt =====
-- The rules, targets and summaries on a sample.
use text.Mathlib.TextEquality.{eq_iff}
use spanalyzer.Prelude.{
  String, List, [], ◌∷◌, ◌≡◌, ◌≢◌, refl, true, false, ◌&&◌, not, All, Distinct, string_eq, arith,
  ◌==◌, ◌+◌, contains, any, count_if, if◌then◌else◌,
}
use spanalyzer.Prelude.Int.{pos, int_eq}
use spanalyzer.Prelude.Order.{int_ord}
use spanalyzer.Prelude.Sorting.{IsAscending, sort}
use spanalyzer.Text.{
  trim_space, equal_fold, after_identifier, is_identifier_start, skip_identifier_bytes,
  identifier_byte,
}
use spanalyzer.PlanContract.Samples.{
  sort_operator, scan_operator, sample_query, sample_report, toy_cel, no_full_sort, few_scans,
}
use spanalyzer.PlanContract.Families.{operator_family_counts, add_derived_operator_family_counts}
use spanalyzer.PlanContract.Families.Laws.{count_of}
use spanalyzer.PlanContract.Families.Derived.{IsConcrete, add_derived-operator_family_counts}
use spanalyzer.PlanContract.Target.{is_identifier}
use spanalyzer.PlanContract.Matching.{
  full_scan_operator_indexes, full_scan_without_timestamp_condition_operator_indexes,
  scan_like_operator, blocking_operator_under_limit_indexes, blocking_at, operators_by_index,
  limit_or_sort_limit_operator, timestamp_condition_operator_indexes, is_timestamp_edge,
  timestamp_condition_indexes,
}
use spanalyzer.PlanContract.Matching.Laws.{blocking_operator_under_limit_indexes_exact}
use spanalyzer.PlanContract.Matching.Timestamps.{
  scan_like_at, timestamp_condition_operator_indexes_exact, full_scan_without_timestamp_sound,
}
use spanalyzer.PlanContract.Contract.{Evaluation}
use spanalyzer.PlanContract.Rules.{status_pass, status_fail}
use spanalyzer.PlanContract.Summary.{summarize, environment_warnings, status_not_evaluated}
use spanalyzer.PlanContract.Summary.Laws.{
  with_status, passes, report_warns, summarize-counts, environment_warnings_exact,
}
use spanalyzer.PlanContract.Evaluate.{base_evaluation}

differs : (a b : String) → (a == b) ≡ false → a ≢ b
differs a b h e = ground (arith, eq_iff a b)

sample-IsConcrete : All IsConcrete (sort_operator ∷ scan_operator ∷ [])
sample-IsConcrete = (
  (differs "full_sort" "explicit_sort" refl, differs "full_sort" "blocking_operator" refl),
  ((differs "scan" "explicit_sort" refl, differs "scan" "blocking_operator" refl), tt),
)

add_derived-operator_family_counts_example :
    count_of "explicit_sort" (
      add_derived_operator_family_counts
        (operator_family_counts (sort_operator ∷ scan_operator ∷ [])))
    ≡ count_of "explicit_sort" (operator_family_counts (sort_operator ∷ scan_operator ∷ []))
add_derived-operator_family_counts_example =
    add_derived-operator_family_counts (sort_operator ∷ scan_operator ∷ []) "explicit_sort"
      sample-IsConcrete

recent_identifier : is_identifier "recent" ≡ true
unfolding is_identifier after_identifier is_identifier_start skip_identifier_bytes identifier_byte
recent_identifier = refl

blocking_operator_under_limit_indexes_exact_example :
    (contains (blocking_operator_under_limit_indexes sample_query) (pos 1) ≡ (
      blocking_at (operators_by_index sample_query) (pos 1)
      && any
          (λ o. limit_or_sort_limit_operator o && contains o.descendant_indexes (pos 1))
          sample_query.normalized_operators))
    × Distinct (blocking_operator_under_limit_indexes sample_query)
    × IsAscending (blocking_operator_under_limit_indexes sample_query)
blocking_operator_under_limit_indexes_exact_example =
    blocking_operator_under_limit_indexes_exact sample_query (pos 1)

timestamp_condition_operator_indexes_exact_example :
    (contains (timestamp_condition_operator_indexes sample_query) (pos 2) ≡ (
      scan_like_at (operators_by_index sample_query) (pos 2)
      && any
          (λ edge. is_timestamp_edge edge && edge.parent_index == pos 2)
          sample_query.operator_edges))
    × IsAscending (timestamp_condition_operator_indexes sample_query)
timestamp_condition_operator_indexes_exact_example =
    timestamp_condition_operator_indexes_exact sample_query (pos 2)

filter_unprotected :
    contains (full_scan_without_timestamp_condition_operator_indexes sample_query) (pos 3) ≡ true
unfolding full_scan_without_timestamp_condition_operator_indexes sort scan_like_operator
    timestamp_condition_indexes equal_fold trim_space operators_by_index
filter_unprotected = refl

full_scan_without_timestamp_sound_example :
    (contains (full_scan_operator_indexes sample_query) (pos 3) ≡ true)
    × (contains (timestamp_condition_operator_indexes sample_query) (pos 3) ≡ false)
full_scan_without_timestamp_sound_example =
    full_scan_without_timestamp_sound sample_query (pos 3) filter_unprotected

abbrev sample_evaluations : List Evaluation
sample_evaluations =
    (record (base_evaluation toy_cel no_full_sort) { status = "fail" })
    ∷ base_evaluation toy_cel few_scans
    ∷ []

summarize-counts_example :
    ((summarize sample_evaluations).failed ≡ with_status status_fail sample_evaluations)
    × ((summarize sample_evaluations).not_evaluated
        ≡ with_status status_not_evaluated sample_evaluations)
    × ((summarize sample_evaluations).passed ≡ count_if passes sample_evaluations)
    × ((summarize sample_evaluations).status
        ≡ (if any (λ e. not (passes e)) sample_evaluations then status_fail else status_pass))
    × ((summarize sample_evaluations).contracts ≡ 2)
    × ((summarize sample_evaluations).passed
          + (summarize sample_evaluations).failed
          + (summarize sample_evaluations).not_evaluated
        ≡ 2)
summarize-counts_example = summarize-counts sample_evaluations

environment_warnings_exact_example :
    Distinct (environment_warnings sample_report)
    × ((w : String)
        → contains (environment_warnings sample_report) w ≡ report_warns sample_report w)
environment_warnings_exact_example = environment_warnings_exact sample_report
