-- ===== src/PlanVocab/Tests.antt =====
-- Runs of the observer and of the matcher on a small catalog and a small plan.
use spanalyzer.Prelude.{
  String, List, [], ◌∷◌, ◌≡◌, refl, Bool, true, false, not, ◌||◌, Option, none, some, string_eq,
  arith, nonempty, ◌==◌, map, ◌%◌, ◌^◌, inl, inr, Distinct, All,
}
use spanalyzer.Prelude.Int.{pos, int_eq}
use spanalyzer.Prelude.Maps.{lookup, keys}
use spanalyzer.Prelude.Results.{ok}
use spanalyzer.Prelude.Order.{str_le, int_ord}
use spanalyzer.Prelude.Sorting.{sort_by, sort, IsSorted}
use spanalyzer.Text.{
  to_lower, join, fields, trim_space, equal_fold, has_suffix, has_prefix, trim_suffix,
}
use spanalyzer.PlanContract.Plan.{kind_unspecified, relational}
use spanalyzer.PlanContract.Report.{zero_operator, Operator}
use spanalyzer.Normalize.Operators.{classification_warnings, classification_warning}
use spanalyzer.PlanContract.Matching.{normalize_operator_name}
use spanalyzer.PlanVocab.Shapes.{
  Value, string_value, Node, Plan, ChildLinkShape, aggregate_child_links, normalize_token, Finding,
  sorted_nodes, MetadataShape, kind_name, sorted_unique_strings, sorted_unique_metadata,
}
use spanalyzer.PlanVocab.Shapes.Laws.{Merges, at_most_one, aggregate_child_links-Merges}
use spanalyzer.PlanVocab.Catalog.{
  EmbeddedCatalog, OperatorRule, must_load_catalog, match_child_link, metadata_rules_for,
  known_metadata_value, kind_matches, metadata_shape_value, metadata_value_kind,
}
use spanalyzer.PlanVocab.Catalog.Laws.{HasNames, IsComplete, must_load_catalog-HasNames}
use spanalyzer.PlanVocab.Inspect.{Vocabulary, nodes_by_index, inspect_node}
use spanalyzer.PlanVocab.Inspect.Laws.{is_reported, is_known_node, inspect_node-is_known_node}
use spanalyzer.PlanVocab.Inspect.Redaction.{undiagnosed, inspect_node-redacts}
use spanalyzer.PlanVocab.Observer.{new_observer, observe_findings}
use spanalyzer.PlanVocab.Observer.Ideal.{
  length-firsts-le, retained, missed, logged, suppressions, prints,
}
use spanalyzer.PlanVocab.Observer.Laws.{observe_findings-retained}
use spanalyzer.PlanVocab.Observer.Session.{
  observe_plans, all_findings, length-all_findings-le, times, observe_plans-logs_all,
}
use spanalyzer.PlanVocab.Matcher.{
  safe_metadata_diagnostic_value, OperatorPattern, variable_any, find_matching_operators,
  MatchResult, families_of,
}
use spanalyzer.PlanVocab.Matcher.Laws.{Splits, find_matching_operators-Splits}

abbrev sort_rule : OperatorRule
sort_rule = record {
  names = "Sort" ∷ "Minor Sort" ∷ [];
  kind = "RELATIONAL";
  metadata =
      record { key = "limit_type"; values = "full" ∷ [] }
      ∷ record { key = "order"; values = [] }
      ∷ [];
  child_links =
      record { kind = "RELATIONAL"; type_name = ""; variable = "any"; multiple = some false } ∷ [];
}

abbrev written : EmbeddedCatalog
written = record {
  info = record {
    version = "v0";
    repository = "";
    revision = "";
    path = "";
    blob = "";
    local_evidence = [];
    compatibility = "";
    generated_by = "tool";
    inputs = record { path = "a"; sha256 = "b" } ∷ [];
  };
  common_metadata = record { key = "execution_method"; values = "row" ∷ "batch" ∷ [] } ∷ [];
  operators = sort_rule ∷ [];
  by_name = [];
}

abbrev loaded : EmbeddedCatalog
loaded = record written { by_name = ("sort", sort_rule) ∷ ("minor sort", sort_rule) ∷ [] }

written_loads : must_load_catalog written ≡ ok loaded
unfolding must_load_catalog normalize_token to_lower join fields trim_space
written_loads = refl

must_load_catalog-HasNames_example :
    (loaded ≡ record written { by_name = loaded.by_name })
    × Distinct (keys loaded.by_name)
    × All (λ operator. HasNames loaded.by_name operator × IsComplete operator) written.operators
must_load_catalog-HasNames_example =
    must_load_catalog-HasNames written {loaded = loaded} written_loads

-- A digest that keeps the operator, and values that print as texts.
abbrev print_text : Value → Option String
print_text (string_value s) = some s
print_text _ = none

abbrev equal_text : Value → Value → Bool
equal_text (string_value s) (string_value t) = s == t
equal_text _ _ = false

abbrev sample : Vocabulary
sample = record {
  catalog = loaded;
  protobuf = record { equal = equal_text; format_float = λ n. "1"; print = print_text };
  digest = λ payload. payload.operator;
  quote = λ s. s;
}

abbrev sort_node : Node
sort_node = record {
  index = pos 0;
  kind = relational;
  display_name = "Sort";
  child_links = some (record { child_index = pos 1; type_name = ""; variable = "v" }) ∷ [];
  description = "";
  metadata = ("order", string_value "secret") ∷ ("limit_type", string_value "partial") ∷ [];
}

abbrev scan_node : Node
scan_node = record {
  index = pos 1;
  kind = relational;
  display_name = "Table Scan";
  child_links = [];
  description = "";
  metadata = [];
}

abbrev sample_plan : Plan
sample_plan = some sort_node ∷ none ∷ some scan_node ∷ []

abbrev shape : Bool → ChildLinkShape
shape has_variable = record {
  kind = "SCALAR";
  type_name = "";
  has_variable = has_variable;
  repeated = false;
}

aggregate_child_links_run :
    aggregate_child_links (shape true ∷ shape false ∷ shape true ∷ [])
    ≡ shape false ∷ record (shape true) { repeated = true } ∷ []
unfolding aggregate_child_links sort_by str_le
aggregate_child_links_run = refl

aggregate_child_links-Merges_example :
    Merges
      (shape true ∷ shape false ∷ shape true ∷ [])
      (aggregate_child_links (shape true ∷ shape false ∷ shape true ∷ []))
aggregate_child_links-Merges_example =
    (aggregate_child_links-Merges (shape true ∷ shape false ∷ shape true ∷ [])).1

abbrev summary_of : Option Finding → Option (List String × List MetadataShape)
summary_of none = none
summary_of (some f) = some (f.reasons, f.unknown_metadata_values)

abbrev sort_operator : Operator
sort_operator = record zero_operator { family = "sort" }

-- The value of `limit_type` is not listed, and the link may not carry the name of its variable.
inspect_node_run :
    summary_of (inspect_node sample sort_node (nodes_by_index sample_plan []) sort_operator)
    ≡ some ("unknown_metadata_value" ∷ [], record { key = "limit_type"; value = "partial" } ∷ [])
unfolding inspect_node nodes_by_index sorted_unique_strings sorted_unique_metadata sort sort_by
    normalize_token to_lower join fields trim_space aggregate_child_links match_child_link kind_name
    equal_fold has_suffix str_le metadata_rules_for known_metadata_value classification_warnings
    kind_matches metadata_shape_value has_prefix trim_suffix classification_warning
    normalize_operator_name
inspect_node_run = refl

inspect_node-is_known_node_example :
    is_reported (inspect_node sample sort_node (nodes_by_index sample_plan []) sort_operator) ≡ (
      nonempty (classification_warnings sample.quote (sort_operator ∷ []))
      || not (
          is_known_node sample
            (lookup (normalize_token "Sort") loaded.by_name)
            (nodes_by_index sample_plan [])
            sort_node))
inspect_node-is_known_node_example =
    inspect_node-is_known_node sample sort_node (nodes_by_index sample_plan []) sort_operator

abbrev other_sort : Node
other_sort = record sort_node {
  child_links = some (record { child_index = pos 1; type_name = ""; variable = "other" }) ∷ [];
  metadata = ("order", string_value "hidden") ∷ ("limit_type", string_value "partial") ∷ [];
}

-- The normalizer finds no fault with either operator.
abbrev other_operator : Operator
other_operator = record sort_operator { iterator_type = "other" }

inspect_node-redacts_example :
    undiagnosed (inspect_node sample sort_node (nodes_by_index sample_plan []) sort_operator)
    ≡ undiagnosed (inspect_node sample other_sort (nodes_by_index sample_plan []) other_operator)
unfolding normalize_token to_lower join fields trim_space metadata_rules_for metadata_value_kind
    classification_warnings classification_warning normalize_operator_name
inspect_node-redacts_example =
    inspect_node-redacts sample sort_node other_sort.metadata other_sort.child_links ""
      (nodes_by_index sample_plan []) sort_operator other_operator refl
      ((refl, (inr (refl, refl), (refl, (inl refl, tt))))) ((refl, (refl, refl)), tt)

abbrev finding_of : String → Finding
finding_of fingerprint = record {
  node_index = pos 0;
  display_name = "";
  kind = "";
  fingerprint = fingerprint;
  reasons = [];
  metadata = [];
  child_links = [];
  unknown_metadata_keys = [];
  unknown_metadata_values = [];
  unknown_child_links = [];
  diagnostics = [];
}

abbrev five : List Finding
five = map finding_of ("a" ∷ "b" ∷ "a" ∷ "c" ∷ "d" ∷ [])

-- With room for two the other two are suppressed.
observe_findings_run :
    ((observe_findings (new_observer (pos 2)) five).0.suppressed ≡ 2)
    × (logged (observe_findings (new_observer (pos 2)) five).1 ≡ "a" ∷ "b" ∷ [])
    × (suppressions (observe_findings (new_observer (pos 2)) five).1 ≡ 1)
unfolding observe_findings new_observer
observe_findings_run = (refl, refl, refl)

observe_findings-retained_example :
    let result = observe_findings (new_observer (pos 2)) five in
    let kept = retained 2 (prints five) in
    (result.0.seen ≡ kept)
    × (logged result.1 ≡ kept)
    × (result.0.suppressed ≡ missed kept (prints five) % 2 ^ 64)
    × (suppressions result.1 ≡ at_most_one (missed kept (prints five)))
observe_findings-retained_example = observe_findings-retained (pos 2) five

observe_plans-logs_all_example :
    let fs = prints (all_findings sample (some sample_plan ∷ none ∷ some sample_plan ∷ [])) in
    let (last, log) =
      observe_plans sample
        (new_observer (pos 10))
        (some sample_plan ∷ none ∷ some sample_plan ∷ []) in
    ((f : String) → times f (logged log) ≡ at_most_one (times f fs))
    × (last.suppressed ≡ 0)
    × (suppressions log ≡ 0)
observe_plans-logs_all_example =
    observe_plans-logs_all sample (pos 10) (some sample_plan ∷ none ∷ some sample_plan ∷ []) (
      omega (
        arith,
        length-firsts-le []
            (prints (all_findings sample (some sample_plan ∷ none ∷ some sample_plan ∷ []))),
        length-all_findings-le sample (some sample_plan ∷ none ∷ some sample_plan ∷ []),
      ))

abbrev sort_pattern : OperatorPattern
sort_pattern = record {
  display_name = "Sort";
  family = "";
  metadata = record { key = "limit_type"; value = some (string_value "full") } ∷ [];
  child_links =
      record { kind = kind_unspecified; type_name = ""; variable = variable_any; min_count = pos 0 }
      ∷ [];
}

abbrev sort_result : MatchResult
sort_result = record {
  node_indexes = [];
  mismatches =
      record {
        node_index = pos 0;
        reasons = "metadata key limit_type did not match (observed string)" ∷ [];
      }
      ∷ [];
}

sort_pattern_matches :
    find_matching_operators sample (some sample_plan) sort_pattern ≡ ok sort_result
unfolding find_matching_operators sorted_nodes sort_by sort join safe_metadata_diagnostic_value
    metadata_rules_for normalize_token to_lower fields trim_space known_metadata_value
    metadata_value_kind
sort_pattern_matches = refl

find_matching_operators-Splits_example :
    Splits sample sort_pattern
      (nodes_by_index sample_plan [])
      (families_of sample sample_plan)
      (sorted_nodes sample_plan)
      sort_result
    × IsSorted (λ n. n.index) (sorted_nodes sample_plan)
find_matching_operators-Splits_example =
    find_matching_operators-Splits sample sample_plan sort_pattern {result = sort_result}
      sort_pattern_matches
