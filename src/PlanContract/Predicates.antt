-- ===== src/PlanContract/Predicates.antt =====
-- plancontract/plancontract.go: `predicates`, which expands the names of a contract's `use` list and
-- checks its `forbid` list.
pub mod Laws
use Prim.Native.String
use spanalyzer.Prelude.{
  String, List, [], ◌∷◌, ◌++◌, ℕ, zero, suc, ◌+◌, Bool, true, false, not, if◌then◌else◌, ◌==◌,
  string_eq, nat_beq, map,
}
use spanalyzer.Prelude.Int.{ℤ, pos, ltb_ℤ}
use spanalyzer.Prelude.Switch.{switch}
use spanalyzer.Prelude.Results.{Result, ok, err, ◌>>=◌, ◌>>◌, fail_if}
use spanalyzer.Text.{trim_space, to_lower, decimal}
use spanalyzer.PlanContract.Families.{known_operator_family}
use spanalyzer.PlanContract.Target.{◌+++◌}
use spanalyzer.PlanContract.Contract.{
  Predicate, Contract, ResolvedPredicate, Error, one_mode_required, unsupported_predefined,
  family_required, negative_max_count, unsupported_family,
}

abbrev pub rule_forbid_operator_family : String
rule_forbid_operator_family = "forbid_operator_family"

abbrev pub rule_forbid_blocking_operator_under_limit : String
rule_forbid_blocking_operator_under_limit = "forbid_blocking_operator_under_limit"

abbrev pub rule_forbid_full_scan : String
rule_forbid_full_scan = "forbid_full_scan"

abbrev pub rule_forbid_full_scan_without_timestamp : String
rule_forbid_full_scan_without_timestamp = "forbid_full_scan_without_timestamp_condition"

abbrev pub rule_require_timestamp_condition : String
rule_require_timestamp_condition = "require_timestamp_condition"

-- `appendPredefined` and `appendPredefinedRule`, by what they append
pub predefined_family : String → String → ResolvedPredicate
predefined_family predefined family = record {
  operator_family = family;
  max_count = pos 0;
  rule = rule_forbid_operator_family;
  source = "use/" +++ predefined;
  predefined = predefined;
}

pub predefined_rule : String → String → ResolvedPredicate
predefined_rule predefined rule = record {
  operator_family = "";
  max_count = pos 0;
  rule = rule;
  source = "use/" +++ predefined;
  predefined = predefined;
}

-- The cases of the `switch` over the predefined names: what each appends, as families and as rules.
abbrev pub predefined_cases : String → List (List String × Result Error (List ResolvedPredicate))
predefined_cases predefined =
    ("no_explicit_sort" ∷ [], ok (predefined_family predefined "explicit_sort" ∷ []))
    ∷ ("no_full_sort" ∷ [], ok (predefined_family predefined "full_sort" ∷ []))
    ∷ ("no_minor_sort" ∷ [], ok (predefined_family predefined "minor_sort" ∷ []))
    ∷ (
      "no_hash_join" ∷ [],
      ok (
          predefined_family predefined "hash_join"
          ∷ predefined_family predefined "push_broadcast_hash_join"
          ∷ []),
    )
    ∷ ("no_standalone_hash_join" ∷ [], ok (predefined_family predefined "hash_join" ∷ []))
    ∷ (
      "no_push_broadcast_hash_join" ∷ [],
      ok (predefined_family predefined "push_broadcast_hash_join" ∷ []),
    )
    ∷ (
      "no_apply_join" ∷ [],
      ok (
          predefined_family predefined "apply_join"
          ∷ predefined_family predefined "anti_semi_apply"
          ∷ predefined_family predefined "semi_apply"
          ∷ predefined_family predefined "distributed_cross_apply"
          ∷ predefined_family predefined "distributed_anti_semi_apply"
          ∷ predefined_family predefined "distributed_semi_apply"
          ∷ []),
    )
    ∷ (
      "no_standalone_apply_join" ∷ [],
      ok (
          predefined_family predefined "apply_join"
          ∷ predefined_family predefined "anti_semi_apply"
          ∷ predefined_family predefined "semi_apply"
          ∷ []),
    )
    ∷ (
      "no_distributed_cross_apply" ∷ [],
      ok (predefined_family predefined "distributed_cross_apply" ∷ []),
    )
    ∷ ("no_merge_join" ∷ [], ok (predefined_family predefined "merge_join" ∷ []))
    ∷ ("no_hash_aggregate" ∷ [], ok (predefined_family predefined "hash_aggregate" ∷ []))
    ∷ ("no_stream_aggregate" ∷ [], ok (predefined_family predefined "stream_aggregate" ∷ []))
    ∷ ("no_full_scan" ∷ [], ok (predefined_rule predefined rule_forbid_full_scan ∷ []))
    ∷ (
      "no_full_scan_without_timestamp_condition" ∷ [],
      ok (predefined_rule predefined rule_forbid_full_scan_without_timestamp ∷ []),
    )
    ∷ (
      "require_timestamp_condition" ∷ [],
      ok (predefined_rule predefined rule_require_timestamp_condition ∷ []),
    )
    ∷ (
      "no_blocking_operator_under_limit" ∷ [],
      ok (predefined_rule predefined rule_forbid_blocking_operator_under_limit ∷ []),
    )
    ∷ []

unfoldable pub expand_predefined :
    String → Result Error (List ResolvedPredicate) → Result Error (List ResolvedPredicate)
unfolding predefined_family predefined_rule
expand_predefined predefined unsupported =
    switch predefined (predefined_cases predefined) unsupported

-- One round of the loop over `contract.Use`.
unfoldable pub expand_use : String → Result Error (List ResolvedPredicate)
expand_use name = expand_predefined (to_lower (trim_space name)) (err (unsupported_predefined name))

expand_uses : List String → Result Error (List ResolvedPredicate)
expand_uses [] = ok []
expand_uses (name ∷ names) = do here ← expand_use name; rest ← expand_uses names; ok (here ++ rest)

-- One round of the loop over `contract.Forbid`, at index `i`.
unfoldable pub resolve_forbid : ℕ → Predicate → Result Error ResolvedPredicate
resolve_forbid i predicate = do
  fail_if (trim_space predicate.operator_family == "") family_required
  fail_if (ltb_ℤ predicate.max_count (pos 0)) (negative_max_count predicate.operator_family)
  let family = trim_space predicate.operator_family
  fail_if (not (known_operator_family family)) (unsupported_family family)
  ok (record {
    operator_family = family;
    max_count = predicate.max_count;
    rule = rule_forbid_operator_family;
    source = "forbid[" +++ decimal i +++ "]";
    predefined = "";
  })

resolve_forbids : ℕ → List Predicate → Result Error (List ResolvedPredicate)
resolve_forbids i [] = ok []
resolve_forbids i (predicate ∷ predicates) = do
  here ← resolve_forbid i predicate
  rest ← resolve_forbids (i + 1) predicates
  ok (here ∷ rest)

-- 1 for a list that is not empty, as `modes++`
abbrev pub mode_of {ℓ} : {A : Type ℓ} → List A → ℕ
mode_of [] = 0
mode_of (x ∷ xs) = 1

unfoldable pub modes : Contract → ℕ
modes contract =
    mode_of contract.uses
    + mode_of contract.forbid
    + (if trim_space contract.cel == "" then 0 else 1)

unfoldable pub predicates : Contract → Result Error (List ResolvedPredicate)
unfolding expand_uses resolve_forbids
predicates contract = do
  fail_if (not (nat_beq (modes contract) 1)) one_mode_required
  used ← expand_uses contract.uses
  forbidden ← resolve_forbids 0 contract.forbid
  ok (used ++ forbidden)

unfoldable pub predefined_names : List String
predefined_names =
    "no_explicit_sort" ∷ "no_full_sort" ∷ "no_minor_sort" ∷ "no_hash_join"
    ∷ "no_standalone_hash_join" ∷ "no_push_broadcast_hash_join" ∷ "no_apply_join"
    ∷ "no_standalone_apply_join" ∷ "no_distributed_cross_apply" ∷ "no_merge_join"
    ∷ "no_hash_aggregate" ∷ "no_stream_aggregate" ∷ "no_full_scan"
    ∷ "no_full_scan_without_timestamp_condition" ∷ "require_timestamp_condition"
    ∷ "no_blocking_operator_under_limit" ∷ []
