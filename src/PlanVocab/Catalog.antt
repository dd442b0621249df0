-- ===== src/PlanVocab/Catalog.antt =====
-- plancontract/planvocab/observer.go: the catalog of known vocabulary and what matches its rules.
pub mod Laws
use Prim.Native.String
use spanalyzer.Prelude.{
  String, List, [], ◌∷◌, Bool, true, false, not, ◌&&◌, ◌||◌, Option, none, some, if◌then◌else◌,
  ◌==◌, string_eq, any, contains, nonempty, bool_eq,
}
use spanalyzer.Prelude.Maps.{Map, lookup, insert, keys}
use spanalyzer.Prelude.Results.{Result, ok, err, fail_if, ◌>>=◌, ◌>>◌}
use spanalyzer.Text.{has_suffix, has_prefix, trim_suffix, equal_fold}
use spanalyzer.PlanContract.Plan.{Kind, kind_unspecified}
use spanalyzer.PlanVocab.Shapes.{
  ChildLinkShape, Value, string_value, number_value, bool_value, null_value, list_value,
  struct_value, Protobuf, kind_name, normalize_token,
}

pub record CatalogInput : Type 0 where
  pub path : String
  pub sha256 : String

pub record CatalogInfo : Type 0 where
  pub version : String
  pub repository : String
  pub revision : String
  pub path : String
  pub blob : String
  pub local_evidence : List String
  pub compatibility : String
  pub generated_by : String
  pub inputs : List CatalogInput

pub record MetadataRule : Type 0 where
  pub key : String
  pub values : List String

pub record ChildRule : Type 0 where
  pub kind : String
  pub type_name : String
  pub variable : String
  pub multiple : Option Bool

pub record OperatorRule : Type 0 where
  pub names : List String
  pub kind : String
  pub metadata : List MetadataRule
  pub child_links : List ChildRule

pub record EmbeddedCatalog : Type 0 where
  pub info : CatalogInfo
  pub common_metadata : List MetadataRule
  pub operators : List OperatorRule
  pub by_name : Map String OperatorRule

-- The panics of `mustLoadCatalog`.
pub data Panic : Type 0 where
  missing_provenance missing_kind_or_names : Panic
  invalid_variable_policy duplicate_operator : String → Panic

unfoldable pub is_variable_policy : String → Bool
is_variable_policy policy = contains ("absent" ∷ "present" ∷ "any" ∷ []) policy

check_policies : List ChildRule → Result Panic (Unit {0})
unfolding is_variable_policy
check_policies [] = ok tt
check_policies (child ∷ children) =
    fail_if (not (is_variable_policy child.variable)) (invalid_variable_policy child.variable)
    >> check_policies children

unfoldable pub load_names :
    OperatorRule → List String → Map String OperatorRule → Result Panic (Map String OperatorRule)
load_names operator [] by_name = ok by_name
load_names operator (name ∷ names) by_name =
    fail_if (contains (keys by_name) (normalize_token name)) (duplicate_operator name)
    >> load_names operator names (insert (normalize_token name) operator by_name)

unfoldable pub load_operators :
    List OperatorRule → Map String OperatorRule → Result Panic (Map String OperatorRule)
unfolding check_policies load_names
load_operators [] by_name = ok by_name
load_operators (operator ∷ operators) by_name =
    fail_if (operator.kind == "" || not (nonempty operator.names)) missing_kind_or_names
    >> check_policies operator.child_links
    >> (load_names operator operator.names by_name >>= load_operators operators)

abbrev pub missing_info : EmbeddedCatalog → Bool
missing_info catalog =
    catalog.info.version == ""
    || not (nonempty catalog.operators)
    || catalog.info.generated_by == ""
    || not (nonempty catalog.info.inputs)

-- `mustLoadCatalog`, behind the decoding of the JSON text
unfoldable pub must_load_catalog : EmbeddedCatalog → Result Panic EmbeddedCatalog
unfolding load_operators
must_load_catalog catalog =
    fail_if (missing_info catalog) missing_provenance
    >> (load_operators catalog.operators [] >>= λ by_name.
        ok (record catalog { by_name = by_name }))

abbrev pub zero_rule : OperatorRule
zero_rule = record { names = []; kind = ""; metadata = []; child_links = [] }

unfoldable pub add_rules : List MetadataRule → Map String MetadataRule → Map String MetadataRule
add_rules [] rules = rules
add_rules (metadata ∷ more) rules = add_rules more (insert metadata.key metadata rules)

unfoldable pub metadata_rules_for : EmbeddedCatalog → OperatorRule → Bool → Map String MetadataRule
unfolding add_rules
metadata_rules_for catalog rule known_operator =
    let common = add_rules catalog.common_metadata [] in
    if known_operator then add_rules rule.metadata common else common

unfoldable pub normalize_metadata_value : Protobuf → Value → String
normalize_metadata_value protobuf (string_value s) = normalize_token s
normalize_metadata_value protobuf (number_value n) = protobuf.format_float n
normalize_metadata_value protobuf (bool_value true) = "true"
normalize_metadata_value protobuf (bool_value false) = "false"
normalize_metadata_value protobuf null_value = "null"
normalize_metadata_value protobuf (list_value vs) = "list"
normalize_metadata_value protobuf (struct_value fs) = "object"
normalize_metadata_value protobuf Value.unset = "unknown"

unfoldable pub metadata_value_kind : Value → String
metadata_value_kind (string_value s) = "string"
metadata_value_kind (number_value n) = "number"
metadata_value_kind (bool_value b) = "bool"
metadata_value_kind null_value = "null"
metadata_value_kind (list_value vs) = "list"
metadata_value_kind (struct_value fs) = "object"
metadata_value_kind Value.unset = "unknown"

unfoldable pub known_metadata_value : Protobuf → Value → List String → Bool
unfolding normalize_metadata_value
known_metadata_value protobuf value known =
    any (λ candidate. normalize_metadata_value protobuf value == normalize_token candidate) known

unfoldable pub metadata_shape_value : Protobuf → Value → Option MetadataRule → String
unfolding normalize_metadata_value metadata_value_kind
metadata_shape_value protobuf value (some rule) =
    if nonempty rule.values
    then normalize_metadata_value protobuf value
    else metadata_value_kind value
metadata_shape_value protobuf value none = metadata_value_kind value

unfoldable pub match_rule_token : String → String → Bool
match_rule_token actual rule =
    let a = normalize_token actual in
    let r = normalize_token rule in
    if has_suffix r "*" then has_prefix a (trim_suffix r "*") else a == r

unfoldable pub kind_matches : String → Kind → Bool
kind_matches known kind_unspecified = true
kind_matches known actual = equal_fold known (kind_name actual)

-- The condition of `matchChildLink` on one rule.
unfoldable pub link_matches : ChildLinkShape → ChildRule → Bool
unfolding match_rule_token
link_matches shape rule =
    (shape.kind == kind_name kind_unspecified || equal_fold shape.kind rule.kind)
    && match_rule_token shape.type_name rule.type_name
    && (rule.variable == "any" || (rule.variable == "present") == shape.has_variable)

unfoldable pub match_child_link : ChildLinkShape → List ChildRule → Option ChildRule
unfolding link_matches
match_child_link shape [] = none
match_child_link shape (rule ∷ rules) =
    let rest = match_child_link shape rules in if link_matches shape rule then some rule else rest
