-- ===== src/PlanContract/Predicates/Laws.antt =====
-- What `predicates` accepts, and what it expands to.
use text.Mathlib.TextEquality.{eq_iff}
use spanalyzer.Prelude.{
  String, List, [], ◌∷◌, ◌++◌, ℕ, ◌+◌, ◌≡◌, refl, ◌∙◌, subst, Bool, true, false, ◌||◌, not, ◌==◌,
  string_eq, arith, contains, any, Bool-cases, inl, inr, All, All-append, nat_beq,
}
use spanalyzer.Prelude.Int.{pos, ltb_ℤ}
use spanalyzer.Prelude.Switch.{switch, switch_all}
use spanalyzer.Prelude.Results.{Result, ok, err, fail_if, bind-eq-ok, ok_injective}
use spanalyzer.Text.{trim_space, to_lower}
use spanalyzer.PlanContract.Families.{known_operator_family}
use spanalyzer.PlanContract.Contract.{
  Predicate, Contract, ResolvedPredicate, Error, unsupported_predefined, one_mode_required,
}
use spanalyzer.PlanContract.Predicates.{
  rule_forbid_operator_family, rule_forbid_blocking_operator_under_limit, rule_forbid_full_scan,
  rule_forbid_full_scan_without_timestamp, rule_require_timestamp_condition, predefined_family,
  predefined_rule, predefined_cases, expand_predefined, expand_use, expand_uses, resolve_forbid,
  resolve_forbids, modes, predicates, predefined_names,
}

abbrev pub rules : List String
rules =
    rule_forbid_operator_family ∷ rule_forbid_blocking_operator_under_limit ∷ rule_forbid_full_scan
    ∷ rule_forbid_full_scan_without_timestamp ∷ rule_require_timestamp_condition ∷ []

-- A predicate that the evaluator can run: its rule is one of the five, a rule about a family names a
-- known one, and its bound is not negative.
pub record IsResolved (p : ResolvedPredicate) : Type 0 where
  pub rule_known : contains rules p.rule ≡ true
  pub family_known :
      p.rule ≡ rule_forbid_operator_family → known_operator_family p.operator_family ≡ true
  pub bounded : ltb_ℤ p.max_count (pos 0) ≡ false

predefined_family-IsResolved :
    (predefined family : String)
    → known_operator_family family ≡ true
    → IsResolved (predefined_family predefined family)
unfolding predefined_family
predefined_family-IsResolved predefined family h = record {
  rule_known = refl;
  family_known = λ e. h;
  bounded = refl;
}

predefined_rule-IsResolved :
    (predefined rule : String)
    → contains rules rule ≡ true
    → (rule == rule_forbid_operator_family) ≡ false
    → IsResolved (predefined_rule predefined rule)
unfolding predefined_rule
predefined_rule-IsResolved predefined rule h k = record {
  rule_known = h;
  family_known = λ e. ground (arith, eq_iff rule rule_forbid_operator_family);
  bounded = refl;
}

-- A postcondition of a result.
abbrev pub Ensures {ℓ} : {A : Type ℓ} → (A → Type 0) → Result Error A → Type 0
Ensures P (ok a) = P a
Ensures P (err e) = Unit

resolve_forbid-IsResolved :
    (i : ℕ) (p : Predicate) (r : ResolvedPredicate) → resolve_forbid i p ≡ ok r → IsResolved r
unfolding resolve_forbid
resolve_forbid-IsResolved i p r e = record {
  rule_known = let forbids : r.rule ≡ rule_forbid_operator_family = ground arith in rw forbids refl;
  family_known = λ h. ground arith;
  bounded = ground arith;
}

resolve_forbids-IsResolved :
    (i : ℕ) (ps : List Predicate) (rs : List ResolvedPredicate)
    → resolve_forbids i ps ≡ ok rs
    → All IsResolved rs
unfolding resolve_forbids
resolve_forbids-IsResolved i [] rs e = rw (← ok_injective [] rs e) tt
resolve_forbids-IsResolved i (p ∷ ps) rs e =
    let (r, first, e') = bind-eq-ok (resolve_forbid i p) _ e in
    let (rest, more, e'') = bind-eq-ok (resolve_forbids (i + 1) ps) _ e' in
    rw (← ok_injective (r ∷ rest) rs e'')
      (resolve_forbid-IsResolved i p r first, resolve_forbids-IsResolved (i + 1) ps rest more)

All-cases :
    (predefined : String) → All (λ c. Ensures (All IsResolved) c.1) (predefined_cases predefined)
unfolding known_operator_family
All-cases predefined =
    let family = predefined_family-IsResolved predefined in
    let rule = predefined_rule-IsResolved predefined in
    (
      (family "explicit_sort" refl, tt),
      (
        (family "full_sort" refl, tt),
        (
          (family "minor_sort" refl, tt),
          (
            (family "hash_join" refl, (family "push_broadcast_hash_join" refl, tt)),
            (
              (family "hash_join" refl, tt),
              (
                (family "push_broadcast_hash_join" refl, tt),
                (
                  (
                    family "apply_join" refl,
                    (
                      family "anti_semi_apply" refl,
                      (
                        family "semi_apply" refl,
                        (
                          family "distributed_cross_apply" refl,
                          (
                            family "distributed_anti_semi_apply" refl,
                            (family "distributed_semi_apply" refl, tt),
                          ),
                        ),
                      ),
                    ),
                  ),
                  (
                    (
                      family "apply_join" refl,
                      (family "anti_semi_apply" refl, (family "semi_apply" refl, tt)),
                    ),
                    (
                      (family "distributed_cross_apply" refl, tt),
                      (
                        (family "merge_join" refl, tt),
                        (
                          (family "hash_aggregate" refl, tt),
                          (
                            (family "stream_aggregate" refl, tt),
                            (
                              (rule rule_forbid_full_scan refl refl, tt),
                              (
                                (rule rule_forbid_full_scan_without_timestamp refl refl, tt),
                                (
                                  (rule rule_require_timestamp_condition refl refl, tt),
                                  (
                                    (rule rule_forbid_blocking_operator_under_limit refl refl, tt),
                                    tt,
                                  ),
                                ),
                              ),
                            ),
                          ),
                        ),
                      ),
                    ),
                  ),
                ),
              ),
            ),
          ),
        ),
      ),
    )

expand_use-IsResolved :
    (name : String) (rs : List ResolvedPredicate) → expand_use name ≡ ok rs → All IsResolved rs
unfolding expand_use expand_predefined
expand_use-IsResolved name rs e =
    let predefined = to_lower (trim_space name) in
    let unsupported : Result Error (List ResolvedPredicate) = err (unsupported_predefined name) in
    subst (Ensures (All IsResolved)) e (
      switch_all (Ensures (All IsResolved)) predefined (predefined_cases predefined) unsupported
        (All-cases predefined) tt)

expand_uses-IsResolved :
    (names : List String) (rs : List ResolvedPredicate)
    → expand_uses names ≡ ok rs
    → All IsResolved rs
unfolding expand_uses
expand_uses-IsResolved [] rs e = rw (← ok_injective [] rs e) tt
expand_uses-IsResolved (name ∷ names) rs e =
    let (here, first, e') = bind-eq-ok (expand_use name) _ e in
    let (rest, more, e'') = bind-eq-ok (expand_uses names) _ e' in
    rw (← ok_injective (here ++ rest) rs e'') (
      All-append IsResolved here rest (expand_use-IsResolved name here first)
        (expand_uses-IsResolved names rest more))

-- Whatever `predicates` accepts it expands to predicates that the evaluator can run: each has one of
-- the five rules, a rule about a family names a known one, and no bound is negative.
pub predicates-IsResolved :
    (contract : Contract) (rs : List ResolvedPredicate)
    → predicates contract ≡ ok rs
    → All IsResolved rs
unfolding predicates
predicates-IsResolved contract rs e =
    let (_, one_mode, e₁) =
      bind-eq-ok (fail_if (not (nat_beq (modes contract) 1)) one_mode_required) _ e in
    let (used, first, e₂) = bind-eq-ok (expand_uses contract.uses) _ e₁ in
    let (forbidden, more, e₃) = bind-eq-ok (resolve_forbids 0 contract.forbid) _ e₂ in
    rw (← ok_injective (used ++ forbidden) rs e₃) (
      All-append IsResolved used forbidden (expand_uses-IsResolved contract.uses used first)
        (resolve_forbids-IsResolved 0 contract.forbid forbidden more))

abbrev pub is_ok : Result Error (List ResolvedPredicate) → Bool
is_ok (ok rs) = true
is_ok (err e) = false

is_ok-switch :
    (s : String) (cases : List (List String × Result Error (List ResolvedPredicate)))
    (d : Result Error (List ResolvedPredicate))
    → All (λ c. is_ok c.1 ≡ true) cases
    → is_ok (switch s cases d) ≡ (any (λ c. contains c.0 s) cases || is_ok d)
is_ok-switch s [] d h = refl
is_ok-switch s ((names, v) ∷ cases) d (h, hs) = elim (Bool-cases (contains names s)) [
  | inl hit ↦ rw hit h
  | inr miss ↦ rw miss (is_ok-switch s cases d hs)
]

or_false : (b : Bool) → (b || false) ≡ b
or_false true = refl
or_false false = refl

-- `predicates` accepts a name in a `use` list exactly if it is, up to case and outer blanks, one of
-- `PredefinedNames`.
pub expand_use-predefined_names :
    (name : String)
    → is_ok (expand_use name) ≡ contains predefined_names (to_lower (trim_space name))
unfolding expand_use expand_predefined predefined_names
expand_use-predefined_names name =
    let predefined = to_lower (trim_space name) in
    is_ok-switch predefined (predefined_cases predefined) (err (unsupported_predefined name)) (
      refl,
      (
        refl,
        (
          refl,
          (
            refl,
            (
              refl,
              (
                refl,
                (refl, (refl, (refl, (refl, (refl, (refl, (refl, (refl, (refl, (refl, tt)))))))))),
              ),
            ),
          ),
        ),
      ),
    )
    ∙ simp or_false
