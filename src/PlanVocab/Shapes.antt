-- ===== src/PlanVocab/Shapes.antt =====
-- plancontract/planvocab/observer.go: the raw plan, the shapes that findings hold, and their sorting.
pub mod Laws
use Prim.Native.String
use spanalyzer.Prelude.{
  String, List, [], ◌∷◌, ℕ, Bool, true, false, Option, none, some, map, if◌then◌else◌, ◌==◌,
  string_eq, Eq, pair_eq, bool_eq,
}
use spanalyzer.Prelude.Int.{ℤ, pos, negsuc}
use spanalyzer.Prelude.Order.{Ord, string_ord, pair_ord, bool_ord, int_ord}
use spanalyzer.Prelude.Maps.{Map}
use spanalyzer.Prelude.Sorting.{sort_by, sort}
use spanalyzer.Text.{trim_space, to_lower, fields, join, print_int}
use spanalyzer.PlanContract.Report.{Diagnostic}
use spanalyzer.PlanContract.Plan.{
  Kind, kind_unspecified, relational, scalar, other_kind, ChildLink, PlanNode, QueryPlan,
}

-- `structpb.Value`; `unset` is the nil value and a value without a kind. A number is its 64 bits.
mutual
  pub data Value : Type 0 where
    unset null_value : Value
    string_value : String → Value
    number_value : ℕ → Value
    bool_value : Bool → Value
    list_value : Values → Value
    struct_value : Fields → Value

  pub data Values : Type 0 where
    no_values : Values
    next_value : Value → Values → Values

  pub data Fields : Type 0 where
    no_fields : Fields
    next_field : String → Value → Fields → Fields

-- What the source calls of the protobuf library and of `strconv`: `proto.Equal`,
-- `FormatFloat(v, 'g', -1, 64)`, and what `fmt.Sprint` prints of `AsInterface`.
pub record Protobuf : Type 0 where
  pub equal : Value → Value → Bool
  pub format_float : ℕ → String
  pub print : Value → Option String

-- A node with its metadata as they are; a link or a node that is nil is `none`.
pub record Node : Type 0 where
  pub index : ℤ
  pub kind : Kind
  pub display_name : String
  pub child_links : List (Option ChildLink)
  pub description : String
  pub metadata : Map String Value

abbrev pub Plan : Type 0
Plan = List (Option Node)

abbrev zero_link : ChildLink
zero_link = record { child_index = pos 0; type_name = ""; variable = "" }

abbrev plain_link : Option ChildLink → ChildLink
plain_link none = zero_link
plain_link (some link) = link

-- The same node as `plancontract` reads it, by the getters.
abbrev pub plain_node : Protobuf → Option Node → PlanNode
plain_node protobuf none = record {
  index = pos 0;
  kind = kind_unspecified;
  display_name = "";
  child_links = [];
  description = "";
  metadata = [];
}
plain_node protobuf (some node) = record {
  index = node.index;
  kind = node.kind;
  display_name = node.display_name;
  child_links = map plain_link node.child_links;
  description = node.description;
  metadata = map (λ p. (p.0, protobuf.print p.1)) node.metadata;
}

abbrev pub plain_plan : Protobuf → Plan → QueryPlan
plain_plan protobuf plan = record { plan_nodes = map (plain_node protobuf) plan }

-- `PlanNode_Kind.String`
unfoldable pub kind_name : Kind → String
kind_name kind_unspecified = "KIND_UNSPECIFIED"
kind_name relational = "RELATIONAL"
kind_name scalar = "SCALAR"
kind_name (other_kind n) = print_int n

pub record MetadataShape : Type 0 where
  pub key : String
  pub value : String

pub record ChildLinkShape : Type 0 where
  pub kind : String
  pub type_name : String
  pub has_variable : Bool
  pub repeated : Bool

pub record Finding : Type 0 where
  pub node_index : ℤ
  pub display_name : String
  pub kind : String
  pub fingerprint : String
  pub reasons : List String
  pub metadata : List MetadataShape
  pub child_links : List ChildLinkShape
  pub unknown_metadata_keys : List String
  pub unknown_metadata_values : List MetadataShape
  pub unknown_child_links : List ChildLinkShape
  pub diagnostics : List Diagnostic

unfoldable pub normalize_token : String → String
normalize_token value = to_lower (join (fields (trim_space value)) " ")

unfoldable pub present : Plan → List Node
present [] = []
present (none ∷ nodes) = present nodes
present (some node ∷ nodes) = node ∷ present nodes

unfoldable pub sorted_nodes : Plan → List Node
unfolding present
sorted_nodes nodes = sort_by (λ node. node.index) (present nodes)

module _ {ℓ κ} {A : Type ℓ} {K : Type κ} ⦃e : Eq K⦄ (key : A → K) where
  -- The loop that appends a value unless it equals the last one.
  unfoldable pub compact_after : A → List A → List A
  compact_after last [] = []
  compact_after last (value ∷ values) =
      let same = compact_after last values in
      let new = value ∷ compact_after value values in if key value == key last then same else new

  unfoldable pub compact : List A → List A
  unfolding compact_after
  compact [] = []
  compact (value ∷ values) = value ∷ compact_after value values

unfoldable pub compact_strings : List String → List String
unfolding compact
compact_strings values = compact (λ value. value) values

unfoldable pub sorted_unique_strings : List String → List String
unfolding compact_strings
sorted_unique_strings values = compact_strings (sort values)

abbrev pub shape_fields : MetadataShape → String × String
shape_fields shape = (shape.key, shape.value)

unfoldable pub sorted_unique_metadata : List MetadataShape → List MetadataShape
unfolding compact
sorted_unique_metadata values = compact shape_fields (sort_by shape_fields values)

-- What `sameChildLinkBase` compares, and the order of the sort.
abbrev pub link_base : ChildLinkShape → String × (String × Bool)
link_base shape = (shape.kind, (shape.type_name, shape.has_variable))

unfoldable pub same_child_link_base : ChildLinkShape → ChildLinkShape → Bool
same_child_link_base left right = link_base left == link_base right

-- The loop of `aggregateChildLinks`; `last` is the last entry of `compacted`.
unfoldable pub merge_links : ChildLinkShape → List ChildLinkShape → List ChildLinkShape
unfolding same_child_link_base
merge_links last [] = last ∷ []
merge_links last (value ∷ values) =
    let same = merge_links (record last { repeated = true }) values in
    let new = last ∷ merge_links value values in
    if same_child_link_base value last then same else new

merge_sorted : List ChildLinkShape → List ChildLinkShape
unfolding merge_links
merge_sorted [] = []
merge_sorted (value ∷ values) = merge_links value values

unfoldable pub aggregate_child_links : List ChildLinkShape → List ChildLinkShape
unfolding merge_sorted
aggregate_child_links values = merge_sorted (sort_by link_base values)
