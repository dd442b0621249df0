-- ===== src/PlanContract/Evaluate.antt =====
-- plancontract/plancontract.go: `stabilityFor`, `evaluateCEL`, `evaluateContract` and `Evaluate`.
pub mod Laws
pub mod Totality
use spanalyzer.Prelude.{
  String, List, [], ◌∷◌, ◌++◌, Bool, true, false, not, ◌&&◌, ◌||◌, Option, none, some,
  if◌then◌else◌, ◌==◌, string_eq, contains, select,
}
use spanalyzer.Prelude.Int.{pos}
use spanalyzer.Prelude.Results.{Result, ok, err, ◌>>=◌, ◌>>◌, fail_if}
use spanalyzer.Text.{trim_space, join}
use spanalyzer.PlanContract.Report.{Query, Report}
use spanalyzer.PlanContract.Target.{query_target_id, find_target, ◌+++◌}
use spanalyzer.PlanContract.Cel.{
  Cel, CelValue, bool_value, other_value, env_error, issues, compiled, collect_cel_identifiers,
  references_identifier,
}
use spanalyzer.PlanContract.Remediation.{cel_remediation}
use spanalyzer.PlanContract.Contract.{
  Contract, File, CompiledContract, ResolvedPredicate, Stability, RuleResult, Evaluation,
  ApplyResult, Error, name_required, target_required, cel_eval, not_bool, in_contract,
  in_contract_cel,
}
use spanalyzer.PlanContract.Compile.{compile_contracts, wrap}
use spanalyzer.PlanContract.Rules.{
  evaluate_predicate, status_pass, status_fail, failure_kind_violation,
}
use spanalyzer.PlanContract.Summary.{summarize, environment_warnings, status_not_evaluated}

abbrev pub evaluator_version_v1 : String
evaluator_version_v1 = "v1"

abbrev pub stability_normalized : String
stability_normalized = "normalized_operator"

abbrev pub stability_raw_plan : String
stability_raw_plan = "raw_query_plan"

abbrev pub reason_target_not_found : String
reason_target_not_found = "target_not_found"

abbrev pub reason_target_error : String
reason_target_error = "target_error"

abbrev metadata_fields : List String
metadata_fields =
    "call_type" ∷ "distribution_table" ∷ "execution_method" ∷ "full_scan" ∷ "iterator_type"
    ∷ "join_configuration" ∷ "join_type" ∷ "scan_format" ∷ "scan_method" ∷ "scan_target"
    ∷ "scan_type" ∷ "scalar_aggregate" ∷ "seekable_key_size" ∷ "spool_name"
    ∷ "subquery_cluster_node" ∷ "tvf_name" ∷ []

-- Whether an expression mentions a name: by its checked form, or textually if it has none.
unfoldable pub mentions : String → Option (List String) → String → Bool
mentions expression none name = references_identifier expression name
mentions expression (some identifiers) name = contains identifiers name

unfoldable pub referenced_metadata_derived_operator_fields :
    String → Option (List String) → List String
referenced_metadata_derived_operator_fields expression identifiers =
    select (λ field. mentions expression identifiers field) metadata_fields

abbrev pub normalized_stability : Stability
normalized_stability = record {
  tier = stability_normalized;
  reasons = "contract uses the normalized plan-report view" ∷ [];
  check_recommended = true;
  replayable_from_report = true;
}

abbrev pub raw_plan_stability : Stability
raw_plan_stability = record {
  tier = stability_raw_plan;
  reasons =
      "CEL expression references raw QueryPlan or PlanNode inputs"
      ∷ "raw QueryPlan CEL is not replayable from the serialized report alone" ∷ [];
  check_recommended = false;
  replayable_from_report = false;
}

add_field_reason : List String → Stability
add_field_reason [] = normalized_stability
add_field_reason (field ∷ fields) = record normalized_stability {
  reasons =
      normalized_stability.reasons
      ++ ("contract reads metadata-derived normalized fields: " +++ join (field ∷ fields) ", ")
        ∷ [];
}

-- `findTarget`
unfoldable pub find_contract_target : Report → Contract → Result Error (Option Query)
find_contract_target report contract = do
  fail_if (trim_space contract.target == "") target_required
  ok (find_target report (trim_space contract.target))

-- `append(evaluation.Results, result)`, with the status that follows
unfoldable pub add_result : Evaluation → RuleResult → Evaluation
add_result evaluation result = record evaluation {
  status = if result.status == status_fail then status_fail else evaluation.status;
  results = evaluation.results ++ result ∷ [];
}

-- The loop over the predicates.
unfoldable pub run_predicates :
    Query → List ResolvedPredicate → Evaluation → Result Error Evaluation
run_predicates query [] evaluation = ok evaluation
run_predicates query (predicate ∷ predicates) evaluation = do
  result ← evaluate_predicate query predicate
  run_predicates query predicates (add_result evaluation result)

unfoldable pub cel_result : String → Bool → RuleResult
cel_result expression matched =
    let base : RuleResult = record {
      rule = "cel";
      source = "cel";
      predefined = "";
      expression = expression;
      operator_family = "";
      status = status_pass;
      failure_kind = "";
      diagnostic_id = "";
      observed_count = 0;
      max_count = pos 0;
      matched_operator_indexes = none;
      remediation = [];
    } in
    if matched then base else record base {
      status = status_fail;
      failure_kind = failure_kind_violation;
      remediation = cel_remediation;
    }

abbrev is_analyzed : Query → Bool
is_analyzed query = query.status == "" || query.status == "ok"

module _ (cel : Cel) where
  open cel use {Program}

  unfoldable pub referenced_cel_identifiers : String → Option (List String)
  referenced_cel_identifiers expression = elim (cel.compile expression) [
    | env_error ↦ none
    | issues ↦ none
    | compiled ast ↦ elim (cel.ast_to_checked_expr ast) [
      | none ↦ none
      | some checked ↦ some (collect_cel_identifiers checked [])
    ]
  ]

  unfoldable pub stability_for : Contract → Stability
  unfolding add_field_reason
  stability_for contract =
      let expression = trim_space contract.cel in
      let identifiers = referenced_cel_identifiers expression in
      if expression == ""
      then normalized_stability
      else if mentions expression identifiers "raw_plan"
          || mentions expression identifiers "raw_nodes"
      then raw_plan_stability
      else add_field_reason (referenced_metadata_derived_operator_fields expression identifiers)

  -- A contract with an expression always comes with its program; without one the library panics.
  unfoldable pub evaluate_cel : Report → Query → Option Program → Result Error Bool
  evaluate_cel report query none = err cel_eval
  evaluate_cel report query (some program) = elim (cel.eval program report query) [
    | none ↦ err cel_eval
    | some (bool_value matched) ↦ ok matched
    | some (other_value t) ↦ err (not_bool t)
  ]

  unfoldable pub base_evaluation : Contract → Evaluation
  base_evaluation contract = record {
    name = contract.name;
    query = "";
    target_id = trim_space contract.target;
    scope = "";
    status = status_pass;
    reason = "";
    error = none;
    stability = stability_for contract;
    results = [];
  }

  -- The fields that name the target.
  abbrev pub with_target : Evaluation → Query → Evaluation
  with_target evaluation query = record evaluation {
    query = query.name;
    target_id = query_target_id query;
    scope = query.scope;
  }

  -- The last part of `evaluateContract`, on the expression.
  unfoldable pub run_cel :
      Report → Query → CompiledContract Program → Evaluation → Result Error Evaluation
  run_cel report query contract evaluation =
      let expression = trim_space contract.contract.cel in
      if expression == "" then ok evaluation else do
        matched ←
            wrap (in_contract_cel contract.contract.name)
              (evaluate_cel report query contract.program)
        ok (add_result evaluation (cel_result expression matched))

  -- `evaluateContract` behind the lookup of the target
  unfoldable pub evaluate_found :
      Report → CompiledContract Program → Option Query → Result Error Evaluation
  evaluate_found report contract none = ok (record (base_evaluation contract.contract) {
    status = status_not_evaluated;
    reason = reason_target_not_found;
  })
  evaluate_found report contract (some query) =
      let target = with_target (base_evaluation contract.contract) query in
      if not (is_analyzed query)
      then ok (record target {
        status = status_not_evaluated;
        reason = reason_target_error;
        error = some (query.status, query.error);
      })
      else do
        evaluation ← run_predicates query contract.predicates target
        run_cel report query contract evaluation

  unfoldable pub evaluate_contract : Report → CompiledContract Program → Result Error Evaluation
  unfolding evaluate_found
  evaluate_contract report contract = do
    fail_if (trim_space contract.contract.name == "") name_required
    found ←
        wrap (in_contract contract.contract.name) (find_contract_target report contract.contract)
    evaluate_found report contract found

  unfoldable pub evaluate_contracts :
      Report → List (CompiledContract Program) → Result Error (List Evaluation)
  evaluate_contracts report [] = ok []
  evaluate_contracts report (contract ∷ contracts) = do
    evaluation ← evaluate_contract report contract
    evaluations ← evaluate_contracts report contracts
    ok (evaluation ∷ evaluations)

  abbrev apply_result : Report → File → List Evaluation → ApplyResult
  apply_result report file evaluations = record {
    file_version = file.version;
    evaluator_version = evaluator_version_v1;
    evaluations = evaluations;
    summary = record (summarize evaluations) { environment_warnings = environment_warnings report };
  }

  unfoldable pub evaluate : Report → File → Result Error ApplyResult
  evaluate report file = do
    all ← compile_contracts cel file
    evaluations ← evaluate_contracts report all
    ok (apply_result report file evaluations)
