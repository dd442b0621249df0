-- ===== src/PlanContract/Matching.antt =====
-- plancontract/plancontract.go: which operators of a query a rule is about.
pub mod Laws
pub mod Nonempty
pub mod Timestamps
use spanalyzer.Prelude.{
  String, List, [], ◌∷◌, ◌++◌, ℕ, Bool, true, false, ◌&&◌, ◌||◌, not, Option, none, some, map,
  if◌then◌else◌, ◌==◌, string_eq, contains, add_new, select, count_if, any, length, nat_beq,
}
use spanalyzer.Prelude.Int.{ℤ, int_eq}
use spanalyzer.Prelude.Order.{int_ord}
use spanalyzer.Prelude.Maps.{Map, lookup, insert}
use spanalyzer.Prelude.Sorting.{sort}
use spanalyzer.Prelude.Switch.{switch}
use spanalyzer.Text.{trim_space, to_lower, fields, join, has_suffix, equal_fold}
use spanalyzer.PlanContract.Report.{Operator, OperatorEdge, Query, Diagnostic}
use spanalyzer.PlanContract.Families.{operator_matches_family, blocking_operator}

unfoldable pub normalize_operator_name : String → String
normalize_operator_name name = to_lower (join (fields name) " ")

unfoldable pub operator_family_count : Query → String → ℕ
operator_family_count query family =
    count_if (λ operator. operator_matches_family operator family) query.normalized_operators

-- The indexes of the operators that pass a test, in the order of the report.
abbrev pub indexes_where : (Operator → Bool) → List Operator → List ℤ
indexes_where p operators = map (λ operator. operator.index) (select p operators)

unfoldable pub query_has_classification_warning : Query → String → Bool
query_has_classification_warning query id =
    any (λ warning. warning.id == id) query.classification_notes

unfoldable pub aggregate_classification_unknown_family : String → Bool
aggregate_classification_unknown_family family =
    contains ("hash_aggregate" ∷ "stream_aggregate" ∷ []) family

unfoldable pub join_classification_unknown_family : String → Bool
join_classification_unknown_family family =
    contains
      ("hash_join" ∷ "push_broadcast_hash_join" ∷ "apply_join" ∷ "semi_apply" ∷ "anti_semi_apply"
        ∷ "distributed_cross_apply" ∷ "distributed_semi_apply" ∷ "distributed_anti_semi_apply"
        ∷ "merge_join" ∷ [])
      family

unfoldable pub predicate_classification_unknown : Query → String → Bool
predicate_classification_unknown query family =
    switch family
      ((
        "hash_aggregate" ∷ "stream_aggregate" ∷ [],
        query_has_classification_warning query "aggregate_iterator_type_unknown",
      )
        ∷ (
          "hash_join" ∷ "push_broadcast_hash_join" ∷ "apply_join" ∷ "semi_apply" ∷ "anti_semi_apply"
              ∷ "distributed_cross_apply" ∷ "distributed_semi_apply" ∷ "distributed_anti_semi_apply"
              ∷ "merge_join" ∷ [],
          query_has_classification_warning query "join_family_unknown",
        )
        ∷ [])
      false

unfoldable pub aggregate_classification_unknown_operator_indexes : Query → List ℤ
aggregate_classification_unknown_operator_indexes query =
    indexes_where
      (λ operator.
        normalize_operator_name operator.display_name == "aggregate"
        && operator.family == "aggregate")
      query.normalized_operators

unfoldable pub join_classification_unknown_operator_indexes : Query → List ℤ
join_classification_unknown_operator_indexes query =
    indexes_where (λ operator. operator.family == "join") query.normalized_operators

-- `indexes`, or what follows the `switch` where there are none
or_else : List ℤ → List ℤ → List ℤ
or_else [] fallback = fallback
or_else (index ∷ indexes) fallback = index ∷ indexes

-- A nil slice is the empty list; the caller replaces nil by an empty slice.
unfoldable pub predicate_matched_operator_indexes : Query → String → List ℤ
unfolding or_else
predicate_matched_operator_indexes query family =
    let matching =
      indexes_where (λ operator. operator_matches_family operator family)
        query.normalized_operators in
    if predicate_classification_unknown query family
    then (if aggregate_classification_unknown_family family
        then or_else (aggregate_classification_unknown_operator_indexes query) matching
        else if join_classification_unknown_family family
        then or_else (join_classification_unknown_operator_indexes query) matching
        else matching)
    else matching

unfoldable pub scan_like_operator : Operator → Bool
scan_like_operator operator = operator.family == "scan" || operator.family == "filter_scan"

unfoldable pub limit_or_sort_limit_operator : Operator → Bool
limit_or_sort_limit_operator operator =
    if operator.family == "limit"
    then true
    else has_suffix (normalize_operator_name operator.display_name) "sort limit"

-- `operatorsByIndex[operator.Index] = operator` for each operator
index_operators : List Operator → Map ℤ Operator → Map ℤ Operator
index_operators [] m = m
index_operators (operator ∷ operators) m =
    index_operators operators (insert operator.index operator m)

unfoldable pub operators_by_index : Query → Map ℤ Operator
unfolding index_operators
operators_by_index query = index_operators query.normalized_operators []

-- A descendant that is an operator of the report and blocks.
pub blocking_at : Map ℤ Operator → ℤ → Bool
blocking_at by_index i = elim (lookup i by_index) [
  | none ↦ false
  | some descendant ↦ blocking_operator descendant
]

-- The inner loop: blocking descendants of one limit.
collect_blocking : Map ℤ Operator → List ℤ → List ℤ → List ℤ
unfolding blocking_at
collect_blocking by_index [] seen = seen
collect_blocking by_index (i ∷ is) seen =
    collect_blocking by_index is (if blocking_at by_index i then add_new seen i else seen)

-- The outer loop, over the operators.
collect_limits : Map ℤ Operator → List Operator → List ℤ → List ℤ
unfolding collect_blocking
collect_limits by_index [] seen = seen
collect_limits by_index (operator ∷ operators) seen = collect_limits by_index operators (
    if limit_or_sort_limit_operator operator
    then collect_blocking by_index operator.descendant_indexes seen
    else seen)

unfoldable pub blocking_operator_under_limit_indexes : Query → List ℤ
unfolding collect_limits
blocking_operator_under_limit_indexes query =
    sort (collect_limits (operators_by_index query) query.normalized_operators [])

unfoldable pub full_scan_operator_indexes : Query → List ℤ
full_scan_operator_indexes query = sort (
    indexes_where (λ operator. scan_like_operator operator && operator.full_scan)
      query.normalized_operators)

-- `owners` and `scans`, the sets that the loop over the edges fills.
pub record TimestampSets : Type 0 where
  pub owners : List ℤ
  pub scans : List ℤ

child_is_scan : Map ℤ Operator → ℤ → Bool
child_is_scan by_index i = elim (lookup i by_index) [
  | none ↦ false
  | some child ↦ child.family == "scan"
]

-- `if len(directScans) == 1 { scans[directScans[0]] = true }`
add_single : List ℤ → List ℤ → List ℤ
add_single (i ∷ []) scans = add_new scans i
add_single direct scans = scans

own_scan : TimestampSets → Operator → TimestampSets
own_scan sets parent = record {
  owners = add_new sets.owners parent.index;
  scans = add_new sets.scans parent.index;
}

-- The body of the loop, for an edge whose parent is an operator of the report.
timestamp_parent : Map ℤ Operator → Operator → TimestampSets → TimestampSets
unfolding child_is_scan add_single own_scan
timestamp_parent by_index parent sets =
    if parent.family == "scan"
    then own_scan sets parent
    else if parent.family == "filter_scan"
    then record {
      owners = add_new sets.owners parent.index;
      scans =
          add_single (select (child_is_scan by_index) parent.child_indexes)
            (add_new sets.scans parent.index);
    }
    else sets

unfoldable pub is_timestamp_edge : OperatorEdge → Bool
is_timestamp_edge edge = equal_fold (trim_space edge.type_name) "Timestamp Condition"

timestamp_edge : Map ℤ Operator → OperatorEdge → TimestampSets → TimestampSets
unfolding timestamp_parent is_timestamp_edge
timestamp_edge by_index edge sets =
    if not (is_timestamp_edge edge) then sets else elim (lookup edge.parent_index by_index) [
      | none ↦ sets
      | some parent ↦ timestamp_parent by_index parent sets
    ]

timestamp_edges : Map ℤ Operator → List OperatorEdge → TimestampSets → TimestampSets
unfolding timestamp_edge
timestamp_edges by_index [] sets = sets
timestamp_edges by_index (edge ∷ edges) sets =
    timestamp_edges by_index edges (timestamp_edge by_index edge sets)

-- The sorted owners, and the scans.
unfoldable pub timestamp_condition_indexes : Query → TimestampSets
unfolding timestamp_edges
timestamp_condition_indexes query =
    let sets =
      timestamp_edges (operators_by_index query) query.operator_edges
        (record { owners = []; scans = [] }) in
    record { owners = sort sets.owners; scans = sets.scans }

unfoldable pub timestamp_condition_operator_indexes : Query → List ℤ
timestamp_condition_operator_indexes query = (timestamp_condition_indexes query).owners

unfoldable pub full_scan_without_timestamp_condition_operator_indexes : Query → List ℤ
full_scan_without_timestamp_condition_operator_indexes query =
    let scans = (timestamp_condition_indexes query).scans in
    sort (
      indexes_where
        (λ operator.
          scan_like_operator operator && operator.full_scan && not (contains scans operator.index))
        query.normalized_operators)
