-- ===== src/PlanContract/Contract.antt =====
-- plancontract/plancontract.go: contract files, resolved predicates, results and errors.
use spanalyzer.Prelude.{String, List, ℕ, Bool, Option}
use spanalyzer.Prelude.Int.{ℤ}
use spanalyzer.PlanContract.Remediation.{Remediation}

pub record Predicate : Type 0 where
  pub operator_family : String
  pub max_count : ℤ

-- The field `Use` is a list of names.
pub record Contract : Type 0 where
  pub name : String
  pub target : String
  pub uses : List String
  pub forbid : List Predicate
  pub cel : String

pub record File : Type 0 where
  pub version : String
  pub contracts : List Contract

pub record ResolvedPredicate : Type 0 where
  pub operator_family : String
  pub max_count : ℤ
  pub rule : String
  pub source : String
  pub predefined : String

pub record CompiledContract (Program : Type 0) : Type 0 where
  pub contract : Contract
  pub predicates : List ResolvedPredicate
  pub program : Option Program

pub record Stability : Type 0 where
  pub tier : String
  pub reasons : List String
  pub check_recommended : Bool
  pub replayable_from_report : Bool

pub record RuleResult : Type 0 where
  pub rule : String
  pub source : String
  pub predefined : String
  pub expression : String
  pub operator_family : String
  pub status : String
  pub failure_kind : String
  pub diagnostic_id : String
  pub observed_count : ℕ
  pub max_count : ℤ
  pub matched_operator_indexes : Option (List ℤ)
  pub remediation : List Remediation

-- `Error` is the text of the evaluation's own error, with its status and message as in the source.
pub record Evaluation : Type 0 where
  pub name : String
  pub query : String
  pub target_id : String
  pub scope : String
  pub status : String
  pub reason : String
  pub error : Option (String × String)
  pub stability : Stability
  pub results : List RuleResult

pub record EvaluationSummary : Type 0 where
  pub status : String
  pub contracts : ℕ
  pub passed : ℕ
  pub failed : ℕ
  pub not_evaluated : ℕ
  pub environment_warnings : List String

pub record ApplyResult : Type 0 where
  pub file_version : String
  pub evaluator_version : String
  pub evaluations : List Evaluation
  pub summary : EvaluationSummary

-- One constructor for each `fmt.Errorf` and each error that is passed on.
pub data Error : Type 0 where
  unsupported_version : String → Error
  no_contracts name_required target_required family_required one_mode_required : Error
  bad_name duplicate_name contract_target_required : String → Error
  bad_target duplicate_forbid : String → String → Error
  unsupported_predefined unsupported_family unsupported_rule : String → Error
  negative_max_count : String → Error
  execution_stats_unsupported cel_environment cel_issues cel_ast cel_program cel_eval : Error
  not_bool : String → Error
  in_contract in_contract_cel : String → Error → Error
