-- ===== src/PlanContract/Tests.antt =====
-- Runs of the evaluator on a sample.
use spanalyzer.Prelude.{
  List, [], ◌∷◌, ◌≡◌, refl, Bool, none, All, map, Distinct, string_eq, if◌then◌else◌,
}
use spanalyzer.Prelude.Int.{int_eq}
use spanalyzer.Prelude.Order.{int_ord}
use spanalyzer.Prelude.Results.{ok}
use spanalyzer.Text.{
  trim_space, to_lower, decimal, cut_prefix, after_identifier, is_identifier_start,
  skip_identifier_bytes, identifier_byte, is_space, lower_char,
}
use spanalyzer.PlanContract.Samples.{
  sample_query, sample_report, sample_file, toy_cel, no_full_sort, few_scans, forbid_full_sort,
  forbid_scan,
}
use spanalyzer.PlanContract.Families.{known_operator_families, known_operator_family}
use spanalyzer.PlanContract.Target.{
  is_identifier, is_target_id, target_id, canonical_scope, find_target, query_target_id,
}
use spanalyzer.PlanContract.Contract.{CompiledContract, Evaluation, ApplyResult, RuleResult}
use spanalyzer.PlanContract.Predicates.{
  predicates, modes, expand_use, expand_predefined, resolve_forbid,
}
use spanalyzer.PlanContract.Predicates.Laws.{IsResolved, predicates-IsResolved}
use spanalyzer.PlanContract.Compile.{
  compile_contracts, compile_loop, compile_contract, compile_expression, duplicate_forbid_family,
}
use spanalyzer.PlanContract.Compile.Laws.{name_of, IsAccepted, compile_contracts-valid}
use spanalyzer.PlanContract.Rules.{evaluate_predicate, evaluate_forbid}
use spanalyzer.PlanContract.Rules.Laws.{
  violated, evaluate_predicate_total, evaluate_predicate-violated,
}
use spanalyzer.PlanContract.Evaluate.{
  evaluate, evaluate_contract, base_evaluation, find_contract_target,
}
use spanalyzer.PlanContract.Evaluate.Laws.{verdict_of, evaluate_contract-verdict, evaluate_verdicts}
use spanalyzer.PlanContract.Evaluate.Totality.{evaluate_total}

sample_predicates : predicates few_scans ≡ ok (forbid_scan ∷ [])
unfolding predicates modes trim_space resolve_forbid known_operator_family decimal
sample_predicates = refl

abbrev sample_compiled : List (CompiledContract Bool)
sample_compiled =
    (record { contract = no_full_sort; predicates = forbid_full_sort ∷ []; program = none })
    ∷ (record { contract = few_scans; predicates = forbid_scan ∷ []; program = none })
    ∷ []

sample_compiles : compile_contracts toy_cel sample_file ≡ ok sample_compiled
unfolding compile_contracts trim_space compile_loop compile_contract is_identifier after_identifier
    is_identifier_start skip_identifier_bytes identifier_byte is_target_id cut_prefix
    duplicate_forbid_family predicates modes expand_use expand_predefined to_lower
    compile_expression known_operator_families known_operator_family resolve_forbid decimal is_space
    lower_char
sample_compiles = refl

compile_contracts-valid_example :
    Distinct (map name_of (no_full_sort ∷ few_scans ∷ []))
    × All IsAccepted (no_full_sort ∷ few_scans ∷ [])
    × (map (λ c. c.contract) sample_compiled ≡ no_full_sort ∷ few_scans ∷ [])
    × All (λ c. All IsResolved c.predicates) sample_compiled
compile_contracts-valid_example =
    compile_contracts-valid toy_cel sample_file sample_compiled sample_compiles

sample_without_cel : All (λ c. trim_space c.cel ≡ "") sample_file.contracts
unfolding trim_space
sample_without_cel = (refl, (refl, tt))

evaluate_total_example :
    (result : ApplyResult) × (evaluate toy_cel sample_report sample_file ≡ ok result)
evaluate_total_example =
    evaluate_total toy_cel sample_report sample_file sample_compiled sample_compiles
      sample_without_cel

-- A second run, for the witness that names its result.
sample_run : (result : ApplyResult) × (evaluate toy_cel sample_report sample_file ≡ ok result)
sample_run =
    evaluate_total toy_cel sample_report sample_file sample_compiled sample_compiles
      sample_without_cel

evaluate_verdicts_example :
    (map (λ e. e.name) sample_run.0.evaluations ≡ "NoFullSort" ∷ "FewScans" ∷ [])
    × (cs : List (CompiledContract Bool)) × (compile_contracts toy_cel sample_file ≡ ok cs)
    × (map (λ e. e.status) sample_run.0.evaluations
        ≡ map (λ c. verdict_of toy_cel sample_report c) cs)
evaluate_verdicts_example =
    evaluate_verdicts toy_cel sample_report sample_file sample_run.0 sample_run.1

abbrev lost_contract : CompiledContract Bool
lost_contract = record {
  contract = record no_full_sort { target = "query/gone" };
  predicates = forbid_full_sort ∷ [];
  program = none;
}

abbrev lost_evaluation : Evaluation
lost_evaluation = record (base_evaluation toy_cel lost_contract.contract) {
  status = "not_evaluated";
  reason = "target_not_found";
}

lost_evaluates : evaluate_contract toy_cel sample_report lost_contract ≡ ok lost_evaluation
unfolding evaluate_contract trim_space find_contract_target find_target query_target_id target_id
    canonical_scope to_lower
lost_evaluates = refl

evaluate_contract-verdict_example :
    (lost_evaluation.status ≡ verdict_of toy_cel sample_report lost_contract)
    × (lost_evaluation.name ≡ "NoFullSort")
evaluate_contract-verdict_example =
    evaluate_contract-verdict toy_cel sample_report lost_contract lost_evaluation lost_evaluates

predicates-IsResolved_example : All IsResolved (forbid_scan ∷ [])
predicates-IsResolved_example = predicates-IsResolved few_scans (forbid_scan ∷ []) sample_predicates

scan-IsResolved : IsResolved forbid_scan
unfolding known_operator_family
scan-IsResolved = record { rule_known = refl; family_known = λ e. refl; bounded = refl }

evaluate_predicate_total_example :
    (r : RuleResult) × (evaluate_predicate sample_query forbid_scan ≡ ok r)
evaluate_predicate_total_example = evaluate_predicate_total sample_query forbid_scan scan-IsResolved

full_sort_result :
    evaluate_predicate sample_query forbid_full_sort
    ≡ ok (evaluate_forbid sample_query forbid_full_sort)
unfolding evaluate_predicate
full_sort_result = refl

evaluate_predicate-violated_example :
    (evaluate_forbid sample_query forbid_full_sort).status
    ≡ (if violated sample_query forbid_full_sort then "fail" else "pass")
evaluate_predicate-violated_example =
    evaluate_predicate-violated sample_query forbid_full_sort
      (evaluate_forbid sample_query forbid_full_sort) full_sort_result
