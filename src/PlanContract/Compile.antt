-- ===== src/PlanContract/Compile.antt =====
-- plancontract/plancontract.go: `compileContracts`, `compileCELProgram` and `Validate`.
pub mod Laws
use spanalyzer.Prelude.{
  String, List, [], ◌∷◌, Bool, true, false, not, Option, none, some, if◌then◌else◌, ◌==◌, string_eq,
  contains, Distinct, add_new,
}
use spanalyzer.Prelude.Results.{Result, ok, err, ◌>>=◌, ◌>>◌, fail_if}
use spanalyzer.Text.{trim_space, to_lower}
use spanalyzer.PlanContract.Target.{is_identifier, is_target_id}
use spanalyzer.PlanContract.Predicates.{predicates}
use spanalyzer.PlanContract.Cel.{
  Cel, Compilation, env_error, issues, compiled, OutputType, bool_type, dyn_type, other_type,
  collect_cel_identifiers, references_identifier,
}
use spanalyzer.PlanContract.Contract.{
  Predicate, Contract, File, CompiledContract, Error, unsupported_version, no_contracts,
  name_required, bad_name, duplicate_name, contract_target_required, bad_target, duplicate_forbid,
  in_contract, in_contract_cel, execution_stats_unsupported, cel_environment, cel_issues, cel_ast,
  cel_program, not_bool,
}

abbrev pub file_version_v1alpha : String
file_version_v1alpha = "v1alpha-plan-contracts"

-- `%w`: the error of an inner call, wrapped
abbrev pub wrap {ℓ} : {A : Type ℓ} → (Error → Error) → Result Error A → Result Error A
wrap f (ok a) = ok a
wrap f (err e) = err (f e)

-- The result of a call of the library that fails with `e`.
abbrev pub or_error {ℓ} : {A : Type ℓ} → Error → Option A → Result Error A
or_error e none = err e
or_error e (some a) = ok a

-- The loop with `forbidSeen`: the first family that stands twice; blank families are passed over.
unfoldable pub duplicate_forbid_family : List String → List Predicate → Option String
duplicate_forbid_family seen [] = none
duplicate_forbid_family seen (predicate ∷ predicates) =
    let family = trim_space predicate.operator_family in
    let passed = duplicate_forbid_family seen predicates in
    let later = duplicate_forbid_family (family ∷ seen) predicates in
    if family == "" then passed else if contains seen family then some family else later

abbrev pub check_duplicate_forbid : String → Option String → Result Error (Unit {0})
check_duplicate_forbid name none = ok tt
check_duplicate_forbid name (some family) = err (duplicate_forbid name family)

-- The output type must be `bool` or `dyn`.
abbrev pub check_output_type : OutputType → Result Error (Unit {0})
check_output_type bool_type = ok tt
check_output_type dyn_type = ok tt
check_output_type (other_type t) = err (not_bool t)

abbrev pub check_nonempty : List Contract → Result Error (Unit {0})
check_nonempty [] = err no_contracts
check_nonempty (contract ∷ contracts) = ok tt

module _ (cel : Cel) where
  open cel use {Ast, Program}

  unfoldable pub compile_cel_program : String → Result Error Program
  compile_cel_program expression = elim (cel.compile expression) [
    | env_error ↦ err cel_environment
    | issues ↦ err (
        if references_identifier (to_lower expression) "execution_stats"
        then execution_stats_unsupported
        else cel_issues)
    | compiled ast ↦ do
      checked ← or_error cel_ast (cel.ast_to_checked_expr ast)
      fail_if (contains (collect_cel_identifiers checked []) "execution_stats")
          execution_stats_unsupported
      check_output_type (cel.output_type ast)
      or_error cel_program (cel.program ast)
  ]

  -- `if expression := …; expression != "" { program, err = … }`
  unfoldable pub compile_expression : String → String → Result Error (Option Program)
  compile_expression name expression =
      if expression == ""
      then ok none
      else wrap (in_contract_cel name)
          (do program ← compile_cel_program expression; ok (some program))

  -- The body of the loop over the contracts; `seen` are the names before.
  unfoldable pub compile_contract : List String → Contract → Result Error (CompiledContract Program)
  compile_contract seen contract = do
    let name = trim_space contract.name
    fail_if (name == "") name_required
    fail_if (not (is_identifier name)) (bad_name name)
    fail_if (contains seen name) (duplicate_name name)
    let target = trim_space contract.target
    fail_if (target == "") (contract_target_required name)
    fail_if (not (is_target_id target)) (bad_target name target)
    check_duplicate_forbid name (duplicate_forbid_family [] contract.forbid)
    resolved ← wrap (in_contract name) (predicates contract)
    program ← compile_expression name (trim_space contract.cel)
    ok (record { contract = contract; predicates = resolved; program = program })

  unfoldable pub compile_loop :
      List String → List Contract → Result Error (List (CompiledContract Program))
  compile_loop seen [] = ok []
  compile_loop seen (contract ∷ contracts) = do
    here ← compile_contract seen contract
    rest ← compile_loop (trim_space contract.name ∷ seen) contracts
    ok (here ∷ rest)

  unfoldable pub compile_contracts : File → Result Error (List (CompiledContract Program))
  compile_contracts file = do
    fail_if (not (trim_space file.version == file_version_v1alpha))
        (unsupported_version file.version)
    check_nonempty file.contracts
    compile_loop [] file.contracts

  -- `Validate`: the error, if there is one
  unfoldable pub validate : File → Option Error
  validate file = elim (compile_contracts file) [ ok all ↦ none | err e ↦ some e ]
