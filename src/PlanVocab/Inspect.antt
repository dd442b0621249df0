-- ===== src/PlanVocab/Inspect.antt =====
-- plancontract/planvocab/observer.go: `Inspect`, which finds the nodes with unknown vocabulary.
pub mod Laws
pub mod Redaction
use spanalyzer.Prelude.{
  String, List, [], ◌∷◌, ◌++◌, Bool, true, false, not, ◌&&◌, Option, none, some, map, if◌then◌else◌,
  ◌==◌, string_eq, nonempty,
}
use spanalyzer.Prelude.Int.{ℤ, int_eq}
use spanalyzer.Prelude.Order.{string_ord}
use spanalyzer.Prelude.Maps.{Map, lookup, lookup_or, insert, keys}
use spanalyzer.Prelude.Sorting.{sort}
use spanalyzer.Text.{trim_space, to_lower}
use spanalyzer.PlanContract.Plan.{ChildLink}
use spanalyzer.PlanContract.Report.{Operator, zero_operator}
use spanalyzer.Normalize.Operators.{normalize_operators, classification_warnings}
use spanalyzer.PlanVocab.Shapes.{
  Value, unset, null_value, Protobuf, Node, Plan, plain_plan, kind_name, MetadataShape,
  ChildLinkShape, Finding, normalize_token, sorted_nodes, sorted_unique_strings,
  sorted_unique_metadata, aggregate_child_links,
}
use spanalyzer.PlanVocab.Catalog.{
  EmbeddedCatalog, OperatorRule, MetadataRule, ChildRule, zero_rule, metadata_rules_for,
  metadata_shape_value, known_metadata_value, kind_matches, match_child_link,
}

-- What `findingFingerprint` encodes as JSON and hashes.
pub record Payload : Type 0 where
  pub operator : String
  pub kind : String
  pub reasons : List String
  pub metadata : List MetadataShape
  pub child_links : List ChildLinkShape

-- The catalog that is embedded, the protobuf library, SHA-256 over the JSON text in hexadecimal, and
-- how `fmt` prints a text under `%q`.
pub record Vocabulary : Type 0 where
  pub catalog : EmbeddedCatalog
  pub protobuf : Protobuf
  pub digest : Payload → String
  pub quote : String → String

abbrev give_reason : String → Finding → Finding
give_reason reason finding = record finding { reasons = finding.reasons ++ reason ∷ [] }

-- Whether the loop of `inspectMetadata` skips the value.
unfoldable pub is_void : Value → Bool
is_void unset = true
is_void null_value = true
is_void _ = false

-- The checks of a known operator's field, behind the recording of its shape.
unfoldable pub check_field :
    Vocabulary → String → Value → Option MetadataRule → MetadataShape → Finding → Finding
check_field vocabulary key value none shape finding =
    record (give_reason "unknown_metadata_key" finding) {
      unknown_metadata_keys = finding.unknown_metadata_keys ++ key ∷ [];
    }
check_field vocabulary key value (some rule) shape finding =
    if nonempty rule.values && not (known_metadata_value vocabulary.protobuf value rule.values)
    then record (give_reason "unknown_metadata_value" finding) {
      unknown_metadata_values = finding.unknown_metadata_values ++ shape ∷ [];
    }
    else finding

unfoldable pub inspect_field :
    Vocabulary → Map String MetadataRule → Bool → String → Value → Finding → Finding
unfolding is_void check_field
inspect_field vocabulary rules known_operator key value finding =
    let rule = lookup key rules in
    let shape : MetadataShape = record {
      key = key;
      value = metadata_shape_value vocabulary.protobuf value rule;
    } in
    let recorded = record finding { metadata = finding.metadata ++ shape ∷ [] } in
    if is_void value
    then finding
    else if known_operator
    then check_field vocabulary key value rule shape recorded
    else recorded

unfoldable pub inspect_keys :
    Vocabulary → Map String Value → Map String MetadataRule → Bool → List String → Finding → Finding
unfolding inspect_field
inspect_keys vocabulary metadata rules known_operator [] finding = finding
inspect_keys vocabulary metadata rules known_operator (key ∷ more) finding =
    inspect_keys vocabulary metadata rules known_operator more
      (inspect_field vocabulary rules known_operator key (lookup_or unset key metadata) finding)

unfoldable pub inspect_metadata :
    Vocabulary → Map String Value → Map String MetadataRule → Bool → Finding → Finding
unfolding inspect_keys
inspect_metadata vocabulary metadata rules known_operator finding =
    inspect_keys vocabulary metadata rules known_operator (sort (keys metadata)) finding

abbrev pub shape_of : ChildLink → Node → ChildLinkShape
shape_of link child = record {
  kind = kind_name child.kind;
  type_name = trim_space link.type_name;
  has_variable = not (trim_space link.variable == "");
  repeated = false;
}

abbrev pub add_shape : ChildLink → Option Node → List ChildLinkShape → List ChildLinkShape
add_shape link none shapes = shapes
add_shape link (some child) shapes = shape_of link child ∷ shapes

-- The loop that observes the links of a node; a link that dangles or is nil is passed over.
unfoldable pub observed_links : Map ℤ Node → List (Option ChildLink) → List ChildLinkShape
observed_links nodes [] = []
observed_links nodes (none ∷ links) = observed_links nodes links
observed_links nodes (some link ∷ links) =
    add_shape link (lookup link.child_index nodes) (observed_links nodes links)

abbrev report_link : String → ChildLinkShape → Finding → Finding
report_link reason shape finding = record (give_reason reason finding) {
  unknown_child_links = finding.unknown_child_links ++ shape ∷ [];
}

abbrev forbids_multiple : Option Bool → Bool
forbids_multiple none = false
forbids_multiple (some multiple) = not multiple

unfoldable pub check_link : Option ChildRule → ChildLinkShape → Finding → Finding
check_link none shape finding = report_link "unknown_child_link" shape finding
check_link (some rule) shape finding =
    if shape.repeated && forbids_multiple rule.multiple
    then report_link "unexpected_child_link_multiplicity" shape finding
    else finding

unfoldable pub check_links : List ChildRule → List ChildLinkShape → Finding → Finding
unfolding check_link
check_links rules [] finding = finding
check_links rules (shape ∷ shapes) finding =
    check_links rules shapes (check_link (match_child_link shape rules) shape finding)

unfoldable pub inspect_child_links : Node → Map ℤ Node → List ChildRule → Bool → Finding → Finding
unfolding observed_links check_links
inspect_child_links node nodes rules known_operator finding =
    let shapes = aggregate_child_links (observed_links nodes node.child_links) in
    let recorded = record finding { child_links = shapes } in
    if known_operator then check_links rules shapes recorded else recorded

unfoldable pub finding_fingerprint : Vocabulary → Finding → String
finding_fingerprint vocabulary finding = vocabulary.digest (record {
  operator = normalize_token finding.display_name;
  kind = to_lower finding.kind;
  reasons = finding.reasons;
  metadata = finding.metadata;
  child_links = finding.child_links;
})

-- The finding with which `inspectNode` starts, with the identifiers of the warnings; the warnings
-- themselves, which the steps up to the result leave alone, are added there.
abbrev pub first_finding : Node → List String → Finding
first_finding node ids = record {
  node_index = node.index;
  display_name = trim_space node.display_name;
  kind = kind_name node.kind;
  fingerprint = "";
  reasons = ids;
  metadata = [];
  child_links = [];
  unknown_metadata_keys = [];
  unknown_metadata_values = [];
  unknown_child_links = [];
  diagnostics = [];
}

abbrev pub is_known : Option OperatorRule → Bool
is_known none = false
is_known (some rule) = true

abbrev pub rule_or_zero : Option OperatorRule → OperatorRule
rule_or_zero none = zero_rule
rule_or_zero (some rule) = rule

unfoldable pub check_operator : Node → Option OperatorRule → List String → Finding → Finding
check_operator node none ids finding =
    if nonempty ids then finding else give_reason "catalog_entry_missing" finding
check_operator node (some rule) ids finding =
    if kind_matches rule.kind node.kind
    then finding
    else give_reason "unexpected_operator_kind" finding

unfoldable pub gather : Vocabulary → Node → Map ℤ Node → Option OperatorRule → List String → Finding
unfolding check_operator inspect_metadata inspect_child_links
gather vocabulary node nodes found ids =
    let rule = rule_or_zero found in
    let rules = metadata_rules_for vocabulary.catalog rule (is_known found) in
    inspect_child_links node nodes rule.child_links (is_known found) (
      inspect_metadata vocabulary node.metadata rules (is_known found)
        (check_operator node found ids (first_finding node ids)))

unfoldable pub tidy : Finding → Finding
tidy finding = record finding {
  reasons = sorted_unique_strings finding.reasons;
  metadata = sorted_unique_metadata finding.metadata;
  child_links = aggregate_child_links finding.child_links;
  unknown_metadata_keys = sorted_unique_strings finding.unknown_metadata_keys;
  unknown_metadata_values = sorted_unique_metadata finding.unknown_metadata_values;
  unknown_child_links = aggregate_child_links finding.unknown_child_links;
}

-- `none` is the result of a node with nothing unknown.
unfoldable pub inspect_node : Vocabulary → Node → Map ℤ Node → Operator → Option Finding
unfolding gather tidy finding_fingerprint
inspect_node vocabulary node nodes operator =
    let found = lookup (normalize_token node.display_name) vocabulary.catalog.by_name in
    let warnings = classification_warnings vocabulary.quote (operator ∷ []) in
    let finding = tidy (gather vocabulary node nodes found (map (λ w. w.id) warnings)) in
    if nonempty finding.reasons
    then some (record finding {
      fingerprint = finding_fingerprint vocabulary finding;
      diagnostics = warnings;
    })
    else none

unfoldable pub nodes_by_index : Plan → Map ℤ Node → Map ℤ Node
nodes_by_index [] m = m
nodes_by_index (none ∷ nodes) m = nodes_by_index nodes m
nodes_by_index (some node ∷ nodes) m = nodes_by_index nodes (insert node.index node m)

unfoldable pub index_operators : List Operator → Map ℤ Operator → Map ℤ Operator
index_operators [] m = m
index_operators (operator ∷ operators) m =
    index_operators operators (insert operator.index operator m)

abbrev pub add_finding : Option Finding → List Finding → List Finding
add_finding none findings = findings
add_finding (some finding) findings = finding ∷ findings

unfoldable pub inspect_nodes : Vocabulary → Map ℤ Node → Map ℤ Operator → List Node → List Finding
unfolding inspect_node
inspect_nodes vocabulary nodes operators [] = []
inspect_nodes vocabulary nodes operators (node ∷ more) =
    add_finding (inspect_node vocabulary node nodes (lookup_or zero_operator node.index operators))
      (inspect_nodes vocabulary nodes operators more)

unfoldable pub inspect : Vocabulary → Option Plan → List Finding
unfolding inspect_nodes nodes_by_index index_operators
inspect vocabulary none = []
inspect vocabulary (some plan) =
    inspect_nodes vocabulary (nodes_by_index plan [])
      (index_operators (normalize_operators (some (plain_plan vocabulary.protobuf plan))) [])
      (sorted_nodes plan)
