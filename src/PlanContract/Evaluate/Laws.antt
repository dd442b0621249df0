-- ===== src/PlanContract/Evaluate/Laws.antt =====
-- The status of an evaluation, against what its contract asks for.
use spanalyzer.Prelude.{
  String, List, [], ◌∷◌, ◌≡◌, refl, ◌∙◌, ap, ap₂, Bool, true, false, ◌||◌, not, Option, none, some,
  map, if◌then◌else◌, ◌==◌, string_eq, any, Bool-cases, inl, inr,
}
use spanalyzer.Prelude.Results.{ok, err, fail_if, bind-eq-ok, ok_injective}
use spanalyzer.Text.{trim_space}
use spanalyzer.PlanContract.Report.{Query, Report}
use spanalyzer.PlanContract.Target.{find_target}
use spanalyzer.PlanContract.Cel.{Cel}
use spanalyzer.PlanContract.Contract.{
  File, CompiledContract, ResolvedPredicate, RuleResult, Evaluation, ApplyResult, name_required,
  target_required, in_contract, in_contract_cel,
}
use spanalyzer.PlanContract.Compile.{compile_contracts, wrap}
use spanalyzer.PlanContract.Compile.Laws.{wrap-eq-ok, compile_contracts-valid}
use spanalyzer.PlanContract.Rules.{evaluate_predicate, status_pass, status_fail}
use spanalyzer.PlanContract.Rules.Laws.{violated, evaluate_predicate-violated}
use spanalyzer.PlanContract.Summary.{status_not_evaluated}
use spanalyzer.PlanContract.Evaluate.{
  find_contract_target, add_result, run_predicates, cel_result, is_analyzed, evaluate_cel,
  base_evaluation, with_target, run_cel, evaluate_found, evaluate_contract, evaluate_contracts,
  evaluate,
}

abbrev pub judge : Bool → String → String
judge b status = if b then status_fail else status

judge_or : (a b : Bool) (s : String) → judge a (judge b s) ≡ judge (b || a) s
judge_or true true s = refl
judge_or true false s = refl
judge_or false true s = refl
judge_or false false s = refl

add_result-status :
    (evaluation : Evaluation) (result : RuleResult) (b : Bool)
    → result.status ≡ judge b status_pass
    → (add_result evaluation result).status ≡ judge b evaluation.status
unfolding add_result
add_result-status evaluation result true h = rw h refl
add_result-status evaluation result false h = rw h refl

add_result-name :
    (evaluation : Evaluation) (result : RuleResult)
    → (add_result evaluation result).name ≡ evaluation.name
unfolding add_result
add_result-name evaluation result = refl

run_predicates-status :
    (query : Query) (ps : List ResolvedPredicate) (start e : Evaluation)
    → run_predicates query ps start ≡ ok e
    → (e.status ≡ judge (any (violated query) ps) start.status) × (e.name ≡ start.name)
unfolding run_predicates
run_predicates-status query [] start e h = rw (← ok_injective start e h) (refl, refl)
run_predicates-status query (p ∷ ps) start e h =
    let (r, here, h') = bind-eq-ok (evaluate_predicate query p) _ h in
    let (status, name) = run_predicates-status query ps (add_result start r) e h' in
    let one =
      add_result-status start r (violated query p) (evaluate_predicate-violated query p r here) in
    let later = any (violated query) ps in
    (
      status ∙ ap (judge later) one ∙ judge_or later (violated query p) start.status,
      name ∙ add_result-name start r,
    )

cel_result-status :
    (expression : String) (matched : Bool)
    → (cel_result expression matched).status ≡ judge (not matched) status_pass
unfolding cel_result
cel_result-status expression true = refl
cel_result-status expression false = refl

names_of_contracts :
    {Program : Type 0} (cs : List (CompiledContract Program))
    → map (λ c. c.contract.name) cs ≡ map (λ c. c.name) (map (λ c. c.contract) cs)
names_of_contracts [] = refl
names_of_contracts (c ∷ cs) = ap (◌∷◌ c.contract.name) (names_of_contracts cs)

module _ (cel : Cel) where
  open cel use {Program}

  -- The expression of a contract evaluates to `false`.
  abbrev pub cel_fails : Report → Query → CompiledContract Program → Bool
  cel_fails report query contract =
      if trim_space contract.contract.cel == ""
      then false
      else elim (evaluate_cel cel report query contract.program) [
        | ok matched ↦ not matched
        | err e ↦ false
      ]

  -- The status that a contract should have on a report.
  abbrev pub verdict_found : Report → CompiledContract Program → Option Query → String
  verdict_found report contract none = status_not_evaluated
  verdict_found report contract (some query) =
      if not (is_analyzed query)
      then status_not_evaluated
      else judge (any (violated query) contract.predicates || cel_fails report query contract)
          status_pass

  abbrev pub verdict_of : Report → CompiledContract Program → String
  verdict_of report contract =
      verdict_found report contract (find_target report (trim_space contract.contract.target))

  run_cel-status :
      (report : Report) (query : Query) (contract : CompiledContract Program) (start e : Evaluation)
      → run_cel cel report query contract start ≡ ok e
      → (e.status ≡ judge (cel_fails report query contract) start.status) × (e.name ≡ start.name)
  unfolding run_cel
  run_cel-status report query contract start e h =
      let expression = trim_space contract.contract.cel in
      elim (Bool-cases (expression == "")) [
        | inl blank ↦ rw (blank, ← ok_injective start e (rw blank at h)) (refl, refl)
        | inr given ↦
            let (matched, run, h') =
              bind-eq-ok
                (wrap (in_contract_cel contract.contract.name)
                  (evaluate_cel cel report query contract.program))
                _ (rw given at h) in
            let value =
              wrap-eq-ok (in_contract_cel contract.contract.name)
                (evaluate_cel cel report query contract.program) matched run in
            rw
              (given, value, ← ok_injective (add_result start (cel_result expression matched)) e h')
              (
                add_result-status start (cel_result expression matched) (not matched)
                    (cel_result-status expression matched),
                add_result-name start (cel_result expression matched),
              )
      ]

  evaluate_found-status :
      (report : Report) (contract : CompiledContract Program) (found : Option Query)
      (e : Evaluation)
      → evaluate_found cel report contract found ≡ ok e
      → (e.status ≡ verdict_found report contract found) × (e.name ≡ contract.contract.name)
  unfolding evaluate_found base_evaluation
  evaluate_found-status report contract none e h = rw (← ok_injective _ e h) (refl, refl)
  evaluate_found-status report contract (some query) e h = elim (Bool-cases (is_analyzed query)) [
    | inr failed ↦ rw (failed, ← ok_injective _ e (rw failed at h)) (refl, refl)
    | inl analyzed ↦
        let start = with_target cel (base_evaluation cel contract.contract) query in
        let (middle, ran, h') =
          bind-eq-ok (run_predicates query contract.predicates start) _ (rw analyzed at h) in
        let (status, name) = run_predicates-status query contract.predicates start middle ran in
        let (status', name') = run_cel-status report query contract middle e h' in
        let by_cel = cel_fails report query contract in
        rw analyzed (
          status'
              ∙ ap (judge by_cel) status
              ∙ judge_or by_cel (any (violated query) contract.predicates) status_pass,
          name' ∙ name,
        )
  ]

  -- A contract that is evaluated at all has the status that its definition asks for, under its own name:
  -- it is not evaluated where its target is missing or has an error, else it fails exactly if one of its
  -- predicates is violated or its expression is false, and passes otherwise.
  pub evaluate_contract-verdict :
      (report : Report) (contract : CompiledContract Program) (e : Evaluation)
      → evaluate_contract cel report contract ≡ ok e
      → (e.status ≡ verdict_of report contract) × (e.name ≡ contract.contract.name)
  unfolding evaluate_contract find_contract_target
  evaluate_contract-verdict report contract e h =
      let c = contract.contract in
      let (_, _, h₁) = bind-eq-ok (fail_if (trim_space c.name == "") name_required) _ h in
      let (found, looked, h₂) =
        bind-eq-ok (wrap (in_contract c.name) (find_contract_target report c)) _ h₁ in
      let lookup = wrap-eq-ok (in_contract c.name) (find_contract_target report c) found looked in
      let (_, _, same) =
        bind-eq-ok (fail_if (trim_space c.target == "") target_required) _ lookup in
      rw (ok_injective (find_target report (trim_space c.target)) found same)
        (evaluate_found-status report contract found e h₂)

  -- The evaluations of a list of contracts, in order.
  abbrev pub Verdicts : Report → List (CompiledContract Program) → List Evaluation → Type 0
  Verdicts report cs es =
      (map (λ e. e.status) es ≡ map (λ c. verdict_of report c) cs)
      × (map (λ e. e.name) es ≡ map (λ c. c.contract.name) cs)

  evaluate_contracts-Verdicts :
      (report : Report) (cs : List (CompiledContract Program)) (es : List Evaluation)
      → evaluate_contracts cel report cs ≡ ok es
      → Verdicts report cs es
  unfolding evaluate_contracts
  evaluate_contracts-Verdicts report [] es h = rw (← ok_injective [] es h) (refl, refl)
  evaluate_contracts-Verdicts report (c ∷ cs) es h =
      let (e, here, h₁) = bind-eq-ok (evaluate_contract cel report c) _ h in
      let (rest, more, h₂) = bind-eq-ok (evaluate_contracts cel report cs) _ h₁ in
      let (status, name) = evaluate_contract-verdict report c e here in
      let (statuses, names) = evaluate_contracts-Verdicts report cs rest more in
      rw (← ok_injective (e ∷ rest) es h₂) (ap₂ ◌∷◌ status statuses, ap₂ ◌∷◌ name names)

  -- The result of `Evaluate` holds one evaluation for each contract of the file, in order: the status is
  -- the one that the compiled contract asks for on the report.
  pub evaluate_verdicts :
      (report : Report) (file : File) (result : ApplyResult)
      → evaluate cel report file ≡ ok result
      → (map (λ e. e.name) result.evaluations ≡ map (λ c. c.name) file.contracts)
        × (cs : List (CompiledContract Program)) × (compile_contracts cel file ≡ ok cs)
        × (map (λ e. e.status) result.evaluations ≡ map (λ c. verdict_of report c) cs)
  unfolding evaluate
  evaluate_verdicts report file result h =
      let (cs, compiles, h₁) = bind-eq-ok (compile_contracts cel file) _ h in
      let (es, evaluates, h₂) = bind-eq-ok (evaluate_contracts cel report cs) _ h₁ in
      let (statuses, names) = evaluate_contracts-Verdicts report cs es evaluates in
      let (_, _, same, _) = compile_contracts-valid cel file cs compiles in
      rw (← ok_injective _ result h₂)
        (names ∙ names_of_contracts cs ∙ ap (map (λ c. c.name)) same, cs, compiles, statuses)
