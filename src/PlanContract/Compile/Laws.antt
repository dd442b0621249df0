-- ===== src/PlanContract/Compile/Laws.antt =====
-- What a file that compiles is known to hold.
use spanalyzer.Prelude.{
  String, List, [], ◌∷◌, ◌≡◌, refl, ap₂, Bool, true, false, not, Option, none, some, map, ◌==◌,
  string_eq, arith, contains, Distinct, All, Bool-cases, inl, inr, beq_refl, eq_of_beq, nat_beq,
  select,
}
use spanalyzer.Prelude.Results.{Result, ok, err, fail_if, bind-eq-ok, fail_if-eq-ok, ok_injective}
use spanalyzer.Text.{trim_space}
use spanalyzer.PlanContract.Target.{is_identifier, is_target_id}
use spanalyzer.PlanContract.Cel.{Cel}
use spanalyzer.PlanContract.Predicates.{predicates, modes}
use spanalyzer.PlanContract.Predicates.Laws.{IsResolved, predicates-IsResolved}
use spanalyzer.PlanContract.Contract.{
  Contract, Predicate, File, CompiledContract, ResolvedPredicate, Error, unsupported_version,
  name_required, bad_name, duplicate_name, contract_target_required, bad_target, in_contract,
  one_mode_required,
}
use spanalyzer.PlanContract.Compile.{
  file_version_v1alpha, wrap, duplicate_forbid_family, check_duplicate_forbid, compile_expression,
  compile_contract, compile_loop, compile_contracts, check_nonempty,
}

-- The name that identifies a contract in its file.
abbrev pub name_of : Contract → String
name_of contract = trim_space contract.name

-- The families that a contract forbids; a predicate without a family names none.
abbrev pub forbidden_families : List Predicate → List String
forbidden_families ps =
    select (λ family. not (family == "")) (map (λ p. trim_space p.operator_family) ps)

-- What the compiler has checked of one contract.
pub record IsAccepted (contract : Contract) : Type 0 where
  pub name_ok : is_identifier (name_of contract) ≡ true
  pub target_ok : is_target_id (trim_space contract.target) ≡ true
  pub forbid_ok : Distinct (forbidden_families contract.forbid)
  pub one_mode : modes contract ≡ 1

pub wrap-eq-ok {ℓ} :
    {A : Type ℓ} (f : Error → Error) (m : Result Error A) (a : A) → wrap f m ≡ ok a → m ≡ ok a
wrap-eq-ok f (ok b) a h = h
wrap-eq-ok f (err e) a h = cc

some_ne_none : {A : Type 0} {a : A} → ◌≡◌ {A = Option A} (some a) none → ⊥
some_ne_none h = cc

check_duplicate_forbid-none :
    (name : String) (found : Option String)
    → check_duplicate_forbid name found ≡ ok tt
    → found ≡ none
check_duplicate_forbid-none name none h = refl
check_duplicate_forbid-none name (some family) h = cc

-- A loop that finds no duplicate meets no family that it has seen, nor any twice.
duplicate_forbid_family-fresh :
    (seen : List String) (ps : List Predicate)
    → duplicate_forbid_family seen ps ≡ none
    → Distinct (forbidden_families ps)
      × ((family : String)
          → contains (forbidden_families ps) family ≡ true
          → contains seen family ≡ false)
unfolding duplicate_forbid_family
duplicate_forbid_family-fresh seen [] h = (tt, λ family k. cc)
duplicate_forbid_family-fresh seen (p ∷ ps) h =
    let name = trim_space p.operator_family in
    elim (Bool-cases (name == "")) [
      | inl blank ↦ rw blank (duplicate_forbid_family-fresh seen ps (rw blank at h))
      | inr named ↦ elim (Bool-cases (contains seen name)) [
        | inl old ↦ absurd (some_ne_none (rw (named, old) at h))
        | inr new ↦
            let (distinct, fresh) =
              duplicate_forbid_family-fresh (name ∷ seen) ps (rw (named, new) at h) in
            rw named (
              (
                elim (Bool-cases (contains (forbidden_families ps) name)) [
                  | inl again ↦ ground (arith, fresh name again, beq_refl name)
                  | inr gone ↦ gone
                ],
                distinct,
              ),
              λ family k. elim (Bool-cases (name == family)) [
                | inl same ↦ ground (arith, new, eq_of_beq name family same)
                | inr other ↦ ground (arith, fresh family)
              ],
            )
      ]
    ]

duplicate_forbid_family-Distinct :
    (ps : List Predicate) → duplicate_forbid_family [] ps ≡ none → Distinct (forbidden_families ps)
duplicate_forbid_family-Distinct ps h = (duplicate_forbid_family-fresh [] ps h).0

predicates-modes :
    (contract : Contract) (rs : List ResolvedPredicate)
    → predicates contract ≡ ok rs
    → modes contract ≡ 1
unfolding predicates
predicates-modes contract rs e =
    let (_, one, _) =
      bind-eq-ok (fail_if (not (nat_beq (modes contract) 1)) one_mode_required) _ e in
    let h = fail_if-eq-ok (not (nat_beq (modes contract) 1)) one_mode_required one in ground arith

not-true : {b : Bool} → not b ≡ false → b ≡ true
not-true h = ground arith

module _ (cel : Cel) where
  open cel use {Program}

  -- The record that one contract is compiled to.
  pub record IsCompiled (seen : List String) (contract : Contract) (c : CompiledContract Program)
      : Type 0 where
    pub accepted : IsAccepted contract
    pub fresh : contains seen (name_of contract) ≡ false
    pub same : c.contract ≡ contract
    pub resolved : All IsResolved c.predicates
    pub program : compile_expression cel (name_of contract) (trim_space contract.cel) ≡ ok c.program

  compile_contract-IsCompiled :
      (seen : List String) (contract : Contract) (c : CompiledContract Program)
      → compile_contract cel seen contract ≡ ok c
      → IsCompiled seen contract c
  unfolding compile_contract
  compile_contract-IsCompiled seen contract c e =
      let name = name_of contract in
      let target = trim_space contract.target in
      let (_, h₁, e₁) = bind-eq-ok (fail_if (name == "") name_required) _ e in
      let (_, h₂, e₂) = bind-eq-ok (fail_if (not (is_identifier name)) (bad_name name)) _ e₁ in
      let (_, h₃, e₃) = bind-eq-ok (fail_if (contains seen name) (duplicate_name name)) _ e₂ in
      let (_, h₄, e₄) = bind-eq-ok (fail_if (target == "") (contract_target_required name)) _ e₃ in
      let (_, h₅, e₅) =
        bind-eq-ok (fail_if (not (is_target_id target)) (bad_target name target)) _ e₄ in
      let (_, h₆, e₆) =
        bind-eq-ok (check_duplicate_forbid name (duplicate_forbid_family [] contract.forbid)) _
          e₅ in
      let (resolved, h₇, e₇) = bind-eq-ok (wrap (in_contract name) (predicates contract)) _ e₆ in
      let (program, h₈, e₈) =
        bind-eq-ok (compile_expression cel name (trim_space contract.cel)) _ e₇ in
      let found = wrap-eq-ok (in_contract name) (predicates contract) resolved h₇ in
      rw (← ok_injective _ c e₈) (record {
        accepted = record {
          name_ok = not-true (fail_if-eq-ok (not (is_identifier name)) (bad_name name) h₂);
          target_ok =
              not-true (fail_if-eq-ok (not (is_target_id target)) (bad_target name target) h₅);
          forbid_ok =
              duplicate_forbid_family-Distinct contract.forbid
                (check_duplicate_forbid-none name (duplicate_forbid_family [] contract.forbid) h₆);
          one_mode = predicates-modes contract resolved found;
        };
        fresh = fail_if-eq-ok (contains seen name) (duplicate_name name) h₃;
        same = refl;
        resolved = predicates-IsResolved contract resolved found;
        program = h₈;
      })

  -- Every contract of a list, with its compilation, the names before it counted.
  abbrev pub AllCompiled : List String → List Contract → List (CompiledContract Program) → Type 0
  AllCompiled seen [] [] = Unit
  AllCompiled seen [] (c ∷ cs) = ⊥
  AllCompiled seen (contract ∷ contracts) [] = ⊥
  AllCompiled seen (contract ∷ contracts) (c ∷ cs) =
      IsCompiled seen contract c × AllCompiled (name_of contract ∷ seen) contracts cs

  compile_loop-AllCompiled :
      (seen : List String) (contracts : List Contract) (cs : List (CompiledContract Program))
      → compile_loop cel seen contracts ≡ ok cs
      → AllCompiled seen contracts cs
  unfolding compile_loop
  compile_loop-AllCompiled seen [] cs e = rw (← ok_injective [] cs e) tt
  compile_loop-AllCompiled seen (contract ∷ contracts) cs e =
      let (c, here, e₁) = bind-eq-ok (compile_contract cel seen contract) _ e in
      let (rest, more, e₂) =
        bind-eq-ok (compile_loop cel (name_of contract ∷ seen) contracts) _ e₁ in
      rw (← ok_injective (c ∷ rest) cs e₂) (
        compile_contract-IsCompiled seen contract c here,
        compile_loop-AllCompiled (name_of contract ∷ seen) contracts rest more,
      )

  pub compile_contracts-AllCompiled :
      (file : File) (cs : List (CompiledContract Program))
      → compile_contracts cel file ≡ ok cs
      → AllCompiled [] file.contracts cs
  unfolding compile_contracts
  compile_contracts-AllCompiled file cs e =
      let (_, _, e₁) =
        bind-eq-ok
          (fail_if (not (trim_space file.version == file_version_v1alpha))
            (unsupported_version file.version))
          _ e in
      let (_, _, e₂) = bind-eq-ok (check_nonempty file.contracts) _ e₁ in
      compile_loop-AllCompiled [] file.contracts cs e₂

  AllCompiled-fresh :
      (seen : List String) (contracts : List Contract) (cs : List (CompiledContract Program))
      (name : String)
      → contains seen name ≡ true
      → AllCompiled seen contracts cs
      → contains (map name_of contracts) name ≡ false
  AllCompiled-fresh seen [] cs name h all = refl
  AllCompiled-fresh seen (contract ∷ contracts) [] name h all = elim all [ ]
  AllCompiled-fresh seen (contract ∷ contracts) (c ∷ cs) name h (one, all) =
      let rest = AllCompiled-fresh (name_of contract ∷ seen) contracts cs name (ground arith) all in
      elim (Bool-cases (name_of contract == name)) [
        | inl same ↦ ground (arith, one.fresh, eq_of_beq (name_of contract) name same)
        | inr other ↦ ground arith
      ]

  AllCompiled-Distinct :
      (seen : List String) (contracts : List Contract) (cs : List (CompiledContract Program))
      → AllCompiled seen contracts cs
      → Distinct (map name_of contracts)
  AllCompiled-Distinct seen [] cs all = tt
  AllCompiled-Distinct seen (contract ∷ contracts) [] all = elim all [ ]
  AllCompiled-Distinct seen (contract ∷ contracts) (c ∷ cs) (one, all) = (
    AllCompiled-fresh (name_of contract ∷ seen) contracts cs (name_of contract)
        (ground (arith, beq_refl (name_of contract))) all,
    AllCompiled-Distinct (name_of contract ∷ seen) contracts cs all,
  )

  AllCompiled-IsAccepted :
      (seen : List String) (contracts : List Contract) (cs : List (CompiledContract Program))
      → AllCompiled seen contracts cs
      → All IsAccepted contracts
  AllCompiled-IsAccepted seen [] cs all = tt
  AllCompiled-IsAccepted seen (contract ∷ contracts) [] all = elim all [ ]
  AllCompiled-IsAccepted seen (contract ∷ contracts) (c ∷ cs) (one, all) =
      (one.accepted, AllCompiled-IsAccepted (name_of contract ∷ seen) contracts cs all)

  AllCompiled-same :
      (seen : List String) (contracts : List Contract) (cs : List (CompiledContract Program))
      → AllCompiled seen contracts cs
      → (map (λ c. c.contract) cs ≡ contracts) × All (λ c. All IsResolved c.predicates) cs
  AllCompiled-same seen [] [] all = (refl, tt)
  AllCompiled-same seen [] (c ∷ cs) all = elim all [ ]
  AllCompiled-same seen (contract ∷ contracts) [] all = elim all [ ]
  AllCompiled-same seen (contract ∷ contracts) (c ∷ cs) (one, all) =
      let (same, resolved) = AllCompiled-same (name_of contract ∷ seen) contracts cs all in
      (ap₂ ◌∷◌ one.same same, (one.resolved, resolved))

  -- A file that compiles has contracts with distinct names, each an identifier, with a valid target, one
  -- mode and no family forbidden twice (names are compared without the space around them); its compilation keeps the contracts and their order, and holds
  -- predicates that the evaluator can run.
  pub compile_contracts-valid :
      (file : File) (cs : List (CompiledContract Program))
      → compile_contracts cel file ≡ ok cs
      → Distinct (map name_of file.contracts)
        × All IsAccepted file.contracts
        × (map (λ c. c.contract) cs ≡ file.contracts)
        × All (λ c. All IsResolved c.predicates) cs
  compile_contracts-valid file cs e =
      let all = compile_contracts-AllCompiled file cs e in
      let (same, resolved) = AllCompiled-same [] file.contracts cs all in
      (
        AllCompiled-Distinct [] file.contracts cs all,
        AllCompiled-IsAccepted [] file.contracts cs all,
        same,
        resolved,
      )
