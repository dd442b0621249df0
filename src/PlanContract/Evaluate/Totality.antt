-- ===== src/PlanContract/Evaluate/Totality.antt =====
-- A file without expressions that compiles is evaluated on every report.
use spanalyzer.Prelude.{
  String, List, [], ◌∷◌, ◌≡◌, refl, true, false, Option, none, some, ◌==◌, string_eq, Bool-cases,
  inl, inr, All, eq_of_beq,
}
use spanalyzer.Prelude.Results.{Result, ok}
use spanalyzer.Prelude.Switch.{false_ne_true}
use spanalyzer.Text.{trim_space, after_identifier, cut_prefix}
use spanalyzer.PlanContract.Report.{Query, Report}
use spanalyzer.PlanContract.Target.{find_target, is_identifier, is_target_id}
use spanalyzer.PlanContract.Cel.{Cel}
use spanalyzer.PlanContract.Contract.{
  Contract, File, CompiledContract, ResolvedPredicate, Evaluation, ApplyResult, Error,
}
use spanalyzer.PlanContract.Compile.{compile_contracts}
use spanalyzer.PlanContract.Compile.Laws.{compile_contracts-AllCompiled, AllCompiled, IsAccepted}
use spanalyzer.PlanContract.Rules.Laws.{evaluate_predicate_total}
use spanalyzer.PlanContract.Predicates.Laws.{IsResolved}
use spanalyzer.PlanContract.Evaluate.{
  find_contract_target, add_result, run_predicates, is_analyzed, base_evaluation, with_target,
  run_cel, evaluate_found, evaluate_contract, evaluate_contracts, evaluate,
}

-- The call returns a value and no error.
abbrev pub Returns {ℓ} : {A : Type ℓ} → Result Error A → Type ℓ
Returns {A = A} m = (a : A) × (m ≡ ok a)

run_predicates_total :
    (query : Query) (ps : List ResolvedPredicate) (start : Evaluation)
    → All IsResolved ps
    → Returns (run_predicates query ps start)
unfolding run_predicates
run_predicates_total query [] start all = (start, refl)
run_predicates_total query (p ∷ ps) start (one, all) =
    let (r, here) = evaluate_predicate_total query p one in
    rw here (run_predicates_total query ps (add_result start r) all)

blank_not_identifier : (name : String) → is_identifier name ≡ true → (name == "") ≡ false
unfolding is_identifier after_identifier
blank_not_identifier name h = elim (Bool-cases (name == "")) [
  | inl blank ↦ absurd (false_ne_true (rw (eq_of_beq name "" blank) at h))
  | inr given ↦ given
]

blank_not_target : (target : String) → is_target_id target ≡ true → (target == "") ≡ false
unfolding is_target_id cut_prefix
blank_not_target target h = elim (Bool-cases (target == "")) [
  | inl blank ↦ absurd (false_ne_true (rw (eq_of_beq target "" blank) at h))
  | inr given ↦ given
]

module _ (cel : Cel) where
  open cel use {Program}

  evaluate_found_total :
      (report : Report) (c : CompiledContract Program) (found : Option Query)
      → All IsResolved c.predicates
      → trim_space c.contract.cel ≡ ""
      → Returns (evaluate_found cel report c found)
  unfolding evaluate_found run_cel
  evaluate_found_total report c none resolved blank = (_, refl)
  evaluate_found_total report c (some query) resolved blank =
      elim (Bool-cases (is_analyzed query)) [
        | inr failed ↦ rw failed (_, refl)
        | inl analyzed ↦
            let start = with_target cel (base_evaluation cel c.contract) query in
            let (middle, ran) = run_predicates_total query c.predicates start resolved in
            rw (analyzed, ran, blank) (middle, refl)
      ]

  evaluate_contract_total :
      (report : Report) (c : CompiledContract Program)
      → IsAccepted c.contract
      → All IsResolved c.predicates
      → trim_space c.contract.cel ≡ ""
      → Returns (evaluate_contract cel report c)
  unfolding evaluate_contract find_contract_target
  evaluate_contract_total report c accepted resolved blank =
      let found = find_target report (trim_space c.contract.target) in
      rw (blank_not_identifier _ accepted.name_ok, blank_not_target _ accepted.target_ok)
        (evaluate_found_total report c found resolved blank)

  evaluate_contracts_total :
      (report : Report) (seen : List String) (contracts : List Contract)
      (cs : List (CompiledContract Program))
      → AllCompiled cel seen contracts cs
      → All (λ c. trim_space c.cel ≡ "") contracts
      → Returns (evaluate_contracts cel report cs)
  unfolding evaluate_contracts
  evaluate_contracts_total report seen [] [] all blank = ([], refl)
  evaluate_contracts_total report seen [] (c ∷ cs) all blank = elim all [ ]
  evaluate_contracts_total report seen (contract ∷ contracts) [] all blank = elim all [ ]
  evaluate_contracts_total report seen (contract ∷ contracts) (c ∷ cs) (one, all) (b, blank) =
      let (e, here) =
        evaluate_contract_total report c (rw one.same one.accepted) one.resolved (rw one.same b) in
      let (es, more) =
        evaluate_contracts_total report (trim_space contract.name ∷ seen) contracts cs all blank in
      rw (here, more) (e ∷ es, refl)

  -- Once a file compiles, and where no contract has an expression, `Evaluate` returns a result on every
  -- report: no predicate, target or name that the compiler accepted makes it fail.
  pub evaluate_total :
      (report : Report) (file : File) (cs : List (CompiledContract Program))
      → compile_contracts cel file ≡ ok cs
      → All (λ c. trim_space c.cel ≡ "") file.contracts
      → (result : ApplyResult) × (evaluate cel report file ≡ ok result)
  unfolding evaluate
  evaluate_total report file cs compiles blank =
      let (es, evaluates) =
        evaluate_contracts_total report [] file.contracts cs
          (compile_contracts-AllCompiled cel file cs compiles) blank in
      rw (compiles, evaluates) (_, refl)
