-- ===== src/PlanContract/Remediation.antt =====
-- plancontract/plancontract.go: the follow-ups that a failed rule suggests.
use spanalyzer.Prelude.{String, List, [], ◌∷◌, Bool, false, string_eq, if◌then◌else◌}
use spanalyzer.Prelude.Switch.{switch}
use spanalyzer.PlanContract.Matching.{
  aggregate_classification_unknown_family, join_classification_unknown_family,
}

pub record Remediation : Type 0 where
  pub kind : String
  pub applies_to : String
  pub confidence : String
  pub auto_fix : Bool
  pub message : String

-- A literal without `AutoFix`, which is then false.
abbrev pub remedy : String → String → String → String → Remediation
remedy kind applies_to confidence message = record {
  kind = kind;
  applies_to = applies_to;
  confidence = confidence;
  auto_fix = false;
  message = message;
}

unfoldable pub aggregate_unknown_remediation : List Remediation
aggregate_unknown_remediation =
    (remedy "operator_classification_unknown" "contract" "medium"
      "This aggregate contract depends on hash/stream aggregate classification, but at least one Aggregate PlanNode has unknown iterator_type metadata.")
    ∷ []

unfoldable pub join_unknown_remediation : List Remediation
join_unknown_remediation =
    (remedy "operator_classification_unknown" "contract" "medium"
      "This join contract depends on a specific join-family classification, but at least one join-like PlanNode could not be classified.")
    ∷ []

unfoldable pub blocking_operator_under_limit_remediation : List Remediation
blocking_operator_under_limit_remediation =
    (remedy "query_shape" "sql" "medium"
      "Review blocking descendants under Limit or Sort Limit; prefer an order-preserving access path, grouped (non-scalar) stream aggregate, merge/apply join, or remove the LIMIT/ORDER BY requirement when it is not needed.")
    ∷ []

unfoldable pub full_scan_remediation : List Remediation
full_scan_remediation =
    (remedy "index_design" "ddl" "medium"
      "Review whether a table or secondary index key can satisfy the query predicates as Seek Conditions instead of a full scan.")
    ∷ (remedy "query_shape" "sql" "medium"
        "Check whether important filters are residual conditions; for sharded timestamp queries, prefer equality probes per shard when timestamp range seekability matters. For recent-data commit timestamp reads, a full scan with Timestamp Condition can still be intentional; consider require_timestamp_condition instead of no_full_scan for that case.")
    ∷ []

unfoldable pub full_scan_without_timestamp_condition_remediation : List Remediation
full_scan_without_timestamp_condition_remediation =
    (remedy "index_design" "ddl" "medium"
      "Review whether a table or secondary index key can satisfy the query predicates as Seek Conditions, or whether this query should intentionally rely on commit timestamp predicate pushdown.")
    ∷ (remedy "query_shape" "sql" "medium"
        "If this is a recent-data commit timestamp read, make sure the predicate qualifies for Timestamp Condition; otherwise treat the full scan as unpruned.")
    ∷ []

unfoldable pub timestamp_condition_remediation : List Remediation
timestamp_condition_remediation =
    (remedy "query_shape" "sql" "medium"
      "Use a > or >= predicate on an allow_commit_timestamp column with a constant expression, and avoid OR in the qualifying predicate.")
    ∷ (remedy "contract" "contract" "medium"
        "Use this contract only for queries where commit timestamp predicate pushdown is expected; older-data or non-commit-timestamp filters may legitimately lack Timestamp Condition.")
    ∷ []

unfoldable pub cel_remediation : List Remediation
cel_remediation =
    (remedy "cel_contract" "contract" "low"
      "Review the CEL expression against the normalized and raw plan-report inputs, then adjust the query, hints, index design, or contract.")
    ∷ []

unfoldable pub remediation_for : String → List Remediation
remediation_for family =
    switch family
      (("blocking_operator" ∷ [], blocking_operator_under_limit_remediation)
        ∷ (
          "explicit_sort" ∷ "full_sort" ∷ [],
          (remedy "config_change" "config" "high"
                "For generated table/index shorthand, consider order_by: none if result order is not required.")
              ∷ (remedy "index_design" "ddl" "medium"
                  "If ordering is required, consider an index whose key order satisfies the requested ORDER BY.")
              ∷ [],
        )
        ∷ (
          "minor_sort" ∷ [],
          (remedy "index_design" "ddl" "medium"
                "If minor sort is not acceptable, consider an index whose full key order satisfies the requested ORDER BY or stream aggregate keys.")
              ∷ (remedy "contract" "contract" "medium"
                  "If minor sort is acceptable for this query, prefer no_full_sort instead of no_explicit_sort.")
              ∷ [],
        )
        ∷ (
          "hash_aggregate" ∷ [],
          (remedy "sql_hint" "sql" "medium"
                "If a stream aggregate is required, consider GROUP@{GROUP_METHOD=STREAM_GROUP} BY after reviewing the query plan.")
              ∷ (remedy "index_design" "ddl" "medium"
                  "If stream aggregation is intended, consider an input order that satisfies the GROUP BY keys.")
              ∷ [],
        )
        ∷ (
          "hash_join" ∷ [],
          (remedy "sql_hint" "sql" "medium"
                "If a hash join is not acceptable, review JOIN@{JOIN_METHOD=APPLY_JOIN} or JOIN@{JOIN_METHOD=MERGE_JOIN}; validate the resulting plan and latency before relying on it.")
              ∷ [],
        )
        ∷ (
          "push_broadcast_hash_join" ∷ [],
          (remedy "sql_hint" "sql" "medium"
                "If push broadcast hash join is not acceptable, review JOIN@{JOIN_METHOD=HASH_JOIN}, APPLY_JOIN, or MERGE_JOIN and validate the resulting plan.")
              ∷ [],
        )
        ∷ (
          "apply_join" ∷ [],
          (remedy "sql_hint" "sql" "medium"
                "If apply join is not acceptable, review JOIN@{JOIN_METHOD=HASH_JOIN} or MERGE_JOIN and validate the resulting plan.")
              ∷ [],
        )
        ∷ (
          "distributed_cross_apply" ∷ [],
          (remedy "sql_hint" "sql" "medium"
                "If distributed cross apply is not acceptable, review JOIN@{JOIN_METHOD=HASH_JOIN}, PUSH_BROADCAST_HASH_JOIN, or MERGE_JOIN and validate the resulting plan.")
              ∷ [],
        )
        ∷ (
          "merge_join" ∷ [],
          (remedy "sql_hint" "sql" "medium"
                "If merge join is not acceptable, review JOIN@{JOIN_METHOD=HASH_JOIN} or APPLY_JOIN; merge joins can introduce Sort operators when inputs are not already ordered.")
              ∷ [],
        )
        ∷ (
          "stream_aggregate" ∷ [],
          (remedy "sql_hint" "sql" "medium"
                "If a hash aggregate is required, consider GROUP@{GROUP_METHOD=HASH_GROUP} BY after reviewing the query plan.")
              ∷ [],
        )
        ∷ [])
      []

unfoldable pub classification_unknown_diagnostic_id : String → String
classification_unknown_diagnostic_id family =
    if aggregate_classification_unknown_family family
    then "plan.aggregate_classification_unknown"
    else if join_classification_unknown_family family
    then "plan.join_classification_unknown"
    else "plan.operator_classification_unknown"

unfoldable pub classification_unknown_remediation : String → List Remediation
classification_unknown_remediation family =
    if aggregate_classification_unknown_family family
    then aggregate_unknown_remediation
    else if join_classification_unknown_family family
    then join_unknown_remediation
    else []
