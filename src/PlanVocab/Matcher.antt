-- ===== src/PlanVocab/Matcher.antt =====
-- plancontract/planvocab/matcher.go: nodes that satisfy a pattern, and why others do not.
pub mod Laws
use spanalyzer.Prelude.{
  String, List, [], ◌∷◌, ◌++◌, ℕ, ◌≤◌, Bool, true, false, not, ◌&&◌, ◌||◌, Option, none, some, map,
  if◌then◌else◌, ◌==◌, string_eq, contains, nonempty, count_if, leb,
}
use spanalyzer.Prelude.Int.{ℤ, pos, negsuc, int_eq}
use spanalyzer.Prelude.Order.{string_ord}
use spanalyzer.Prelude.Maps.{Map, lookup, lookup_or, insert}
use spanalyzer.Prelude.Sorting.{sort}
use spanalyzer.Prelude.Results.{Result, ok, err, fail_if, ◌>>=◌, ◌>>◌}
use spanalyzer.Text.{print_int, trim_space, join, decimal}
use spanalyzer.PlanContract.Plan.{Kind, kind_unspecified, relational, scalar, other_kind, ChildLink}
use spanalyzer.PlanContract.Report.{Operator}
use spanalyzer.PlanContract.Families.{concrete_operator_families}
use spanalyzer.Normalize.Operators.{normalize_operators}
use spanalyzer.PlanVocab.Shapes.{
  Value, unset, null_value, Node, Plan, plain_plan, kind_name, sorted_nodes, normalize_token,
}
use spanalyzer.PlanVocab.Catalog.{
  MetadataRule, metadata_rules_for, known_metadata_value, normalize_metadata_value,
  metadata_value_kind,
}
use spanalyzer.PlanVocab.Inspect.{Vocabulary, is_known, rule_or_zero, nodes_by_index}

-- `VariablePresence`, a byte of which three values have names
pub data VariablePresence : Type 0 where
  variable_any variable_absent variable_present : VariablePresence
  invalid_presence : ℕ → VariablePresence

pub record MetadataRequirement : Type 0 where
  pub key : String
  pub value : Option Value

pub record ChildLinkRequirement : Type 0 where
  pub kind : Kind
  pub type_name : String
  pub variable : VariablePresence
  pub min_count : ℤ

pub record OperatorPattern : Type 0 where
  pub display_name : String
  pub family : String
  pub metadata : List MetadataRequirement
  pub child_links : List ChildLinkRequirement

pub record CandidateMismatch : Type 0 where
  pub node_index : ℤ
  pub reasons : List String

pub record MatchResult : Type 0 where
  pub node_indexes : List ℤ
  pub mismatches : List CandidateMismatch

-- The errors of `validatePattern`.
pub data PatternError : Type 0 where
  name_or_family_required empty_key : PatternError
  family_not_concrete unset_value value_is_null : String → PatternError
  unknown_kind negative_min_count : ℤ → PatternError
  invalid_variable : ℕ → PatternError

abbrev pub has_matches : MatchResult → Bool
has_matches result = nonempty result.node_indexes

-- The parts of a formatted text.
abbrev sprint : List String → String
sprint parts = join parts ""

abbrev print_mismatch : CandidateMismatch → String
print_mismatch candidate =
    sprint ("node " ∷ print_int candidate.node_index ∷ ": " ∷ join candidate.reasons "; " ∷ [])

-- `MatchResult.String`; `%v` prints the indexes in brackets with blanks between.
unfoldable pub print_result : MatchResult → String
print_result result =
    if has_matches result
    then sprint ("matched plan nodes [" ∷ join (map print_int result.node_indexes) " " ∷ "]" ∷ [])
    else if nonempty result.mismatches
    then sprint ("no plan node matched: " ∷ join (map print_mismatch result.mismatches) " | " ∷ [])
    else "no operator candidates matched the pattern"

check_value : String → Option Value → Result PatternError (Unit {0})
check_value key none = ok tt
check_value key (some unset) = err (unset_value key)
check_value key (some null_value) = err (value_is_null key)
check_value key (some _) = ok tt

check_metadata : List MetadataRequirement → Result PatternError (Unit {0})
unfolding check_value
check_metadata [] = ok tt
check_metadata (requirement ∷ requirements) =
    fail_if (requirement.key == "") empty_key
    >> check_value requirement.key requirement.value
    >> check_metadata requirements

check_kind : Kind → Result PatternError (Unit {0})
check_kind (other_kind n) = err (unknown_kind n)
check_kind _ = ok tt

check_presence : VariablePresence → Result PatternError (Unit {0})
check_presence (invalid_presence n) = err (invalid_variable n)
check_presence _ = ok tt

check_min_count : ℤ → Result PatternError (Unit {0})
check_min_count (pos n) = ok tt
check_min_count (negsuc n) = err (negative_min_count (negsuc n))

check_child_links : List ChildLinkRequirement → Result PatternError (Unit {0})
unfolding check_kind check_presence check_min_count
check_child_links [] = ok tt
check_child_links (requirement ∷ requirements) =
    check_kind requirement.kind
    >> check_presence requirement.variable
    >> check_min_count requirement.min_count
    >> check_child_links requirements

unfoldable pub validate_pattern : OperatorPattern → Result PatternError (Unit {0})
unfolding check_metadata check_child_links
validate_pattern pattern =
    fail_if (pattern.display_name == "" && pattern.family == "") name_or_family_required
    >> fail_if
        (not (pattern.family == "") && not (contains concrete_operator_families pattern.family))
        (family_not_concrete pattern.family)
    >> check_metadata pattern.metadata
    >> check_child_links pattern.child_links

-- `safeMetadataDiagnosticValue`: a value is named only where the catalog lists it.
abbrev name_value : Vocabulary → Value → Option MetadataRule → String
name_value vocabulary value none = metadata_value_kind value
name_value vocabulary value (some rule) =
    if nonempty rule.values && known_metadata_value vocabulary.protobuf value rule.values
    then normalize_metadata_value vocabulary.protobuf value
    else metadata_value_kind value

unfoldable pub safe_metadata_diagnostic_value : Vocabulary → Node → String → Value → String
safe_metadata_diagnostic_value vocabulary node key value =
    let found = lookup (normalize_token node.display_name) vocabulary.catalog.by_name in
    let rules = metadata_rules_for vocabulary.catalog (rule_or_zero found) (is_known found) in
    name_value vocabulary value (lookup key rules)

abbrev key_reason : Vocabulary → String → String → List String
key_reason vocabulary key text = sprint ("metadata key " ∷ vocabulary.quote key ∷ text ∷ []) ∷ []

abbrev pub is_unequal : Vocabulary → Value → Option Value → Bool
is_unequal vocabulary value none = false
is_unequal vocabulary value (some wanted) = not (vocabulary.protobuf.equal value wanted)

abbrev differing : Vocabulary → Node → MetadataRequirement → Value → List String
differing vocabulary node requirement value =
    if is_unequal vocabulary value requirement.value
    then key_reason vocabulary requirement.key (
        sprint (
          " did not match (observed "
          ∷ safe_metadata_diagnostic_value vocabulary node requirement.key value
          ∷ ")"
          ∷ []))
    else []

-- What one metadata requirement adds to the reasons.
unfoldable pub metadata_reasons : Vocabulary → Node → MetadataRequirement → Value → List String
metadata_reasons vocabulary node requirement unset =
    key_reason vocabulary requirement.key " is missing"
metadata_reasons vocabulary node requirement null_value =
    key_reason vocabulary requirement.key " is null"
metadata_reasons vocabulary node requirement value = differing vocabulary node requirement value

-- The tests of `matchingChildLinkCount`.
abbrev variable_matches : VariablePresence → Bool → Bool
variable_matches variable_absent has_variable = not has_variable
variable_matches variable_present has_variable = has_variable
variable_matches _ has_variable = true

abbrev beq_kind : Kind → Kind → Bool
beq_kind kind_unspecified kind_unspecified = true
beq_kind relational relational = true
beq_kind scalar scalar = true
beq_kind (other_kind m) (other_kind n) = m == n
beq_kind _ _ = false

abbrev has_kind : Option Node → Kind → Bool
has_kind none kind = false
has_kind (some child) kind = beq_kind child.kind kind

abbrev child_matches : Option Node → Kind → Bool
child_matches child kind_unspecified = true
child_matches child kind = has_kind child kind

unfoldable pub link_counts : Map ℤ Node → ChildLinkRequirement → Option ChildLink → Bool
link_counts nodes requirement none = false
link_counts nodes requirement (some link) =
    link.type_name == requirement.type_name
    && variable_matches requirement.variable (not (trim_space link.variable == ""))
    && child_matches (lookup link.child_index nodes) requirement.kind

unfoldable pub matching_child_link_count : Node → Map ℤ Node → ChildLinkRequirement → ℕ
unfolding link_counts
matching_child_link_count node nodes requirement =
    count_if (link_counts nodes requirement) node.child_links

abbrev pub minimum_of : ℤ → ℕ
minimum_of (pos ℕ.zero) = 1
minimum_of (pos (ℕ.suc n)) = ℕ.suc n
minimum_of (negsuc n) = 0

abbrev child_requirement_kind : Kind → String
child_requirement_kind kind_unspecified = "any"
child_requirement_kind kind = kind_name kind

-- `VariablePresence.String`
unfoldable pub presence_name : VariablePresence → String
presence_name variable_any = "any"
presence_name variable_absent = "absent"
presence_name variable_present = "present"
presence_name (invalid_presence n) = sprint ("unknown(" ∷ decimal n ∷ ")" ∷ [])

unfoldable pub link_reasons : Vocabulary → Node → Map ℤ Node → ChildLinkRequirement → List String
unfolding matching_child_link_count
link_reasons vocabulary node nodes requirement =
    let count = matching_child_link_count node nodes requirement in
    let minimum = minimum_of requirement.min_count in
    if leb minimum count
    then []
    else sprint (
        "child link kind="
        ∷ child_requirement_kind requirement.kind
        ∷ " type="
        ∷ vocabulary.quote requirement.type_name
        ∷ " variable="
        ∷ presence_name requirement.variable
        ∷ " count="
        ∷ decimal count
        ∷ ", want at least "
        ∷ decimal minimum
        ∷ [])
      ∷ []

all_metadata_reasons : Vocabulary → Node → List MetadataRequirement → List String
unfolding metadata_reasons
all_metadata_reasons vocabulary node [] = []
all_metadata_reasons vocabulary node (requirement ∷ requirements) =
    metadata_reasons vocabulary node requirement (lookup_or unset requirement.key node.metadata)
    ++ all_metadata_reasons vocabulary node requirements

all_link_reasons : Vocabulary → Node → Map ℤ Node → List ChildLinkRequirement → List String
unfolding link_reasons
all_link_reasons vocabulary node nodes [] = []
all_link_reasons vocabulary node nodes (requirement ∷ requirements) =
    link_reasons vocabulary node nodes requirement
    ++ all_link_reasons vocabulary node nodes requirements

unfoldable pub match_node_requirements :
    Vocabulary → Node → Map ℤ Node → OperatorPattern → List String
unfolding all_metadata_reasons all_link_reasons
match_node_requirements vocabulary node nodes pattern = sort (
    all_metadata_reasons vocabulary node pattern.metadata
    ++ all_link_reasons vocabulary node nodes pattern.child_links)

unfoldable pub families_by_index : List Operator → Map ℤ String → Map ℤ String
families_by_index [] m = m
families_by_index (operator ∷ operators) m =
    families_by_index operators (insert operator.index operator.family m)

-- The two `continue`s of the loop.
unfoldable pub is_candidate : OperatorPattern → Map ℤ String → Node → Bool
is_candidate pattern families node =
    (pattern.display_name == "" || node.display_name == pattern.display_name)
    && (pattern.family == "" || lookup_or "" node.index families == pattern.family)

abbrev pub add_candidate : Node → List String → MatchResult → MatchResult
add_candidate node [] result = record result { node_indexes = node.index ∷ result.node_indexes }
add_candidate node reasons result = record result {
  mismatches = record { node_index = node.index; reasons = reasons } ∷ result.mismatches;
}

unfoldable pub match_nodes :
    Vocabulary → OperatorPattern → Map ℤ Node → Map ℤ String → List Node → MatchResult
unfolding match_node_requirements is_candidate
match_nodes vocabulary pattern nodes families [] = record { node_indexes = []; mismatches = [] }
match_nodes vocabulary pattern nodes families (node ∷ more) =
    let rest = match_nodes vocabulary pattern nodes families more in
    if is_candidate pattern families node
    then add_candidate node (match_node_requirements vocabulary node nodes pattern) rest
    else rest

abbrev pub families_of : Vocabulary → Plan → Map ℤ String
families_of vocabulary plan =
    families_by_index (normalize_operators (some (plain_plan vocabulary.protobuf plan))) []

abbrev match_plan : Vocabulary → OperatorPattern → Option Plan → MatchResult
match_plan vocabulary pattern none = record { node_indexes = []; mismatches = [] }
match_plan vocabulary pattern (some plan) =
    match_nodes vocabulary pattern (nodes_by_index plan []) (families_of vocabulary plan)
      (sorted_nodes plan)

unfoldable pub find_matching_operators :
    Vocabulary → Option Plan → OperatorPattern → Result PatternError MatchResult
unfolding validate_pattern match_nodes nodes_by_index families_by_index
find_matching_operators vocabulary plan pattern =
    validate_pattern pattern >> ok (match_plan vocabulary pattern plan)
