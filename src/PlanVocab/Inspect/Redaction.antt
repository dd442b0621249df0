-- ===== src/PlanVocab/Inspect/Redaction.antt =====
-- What a finding does not depend on: metadata values and variable names that are redacted.
use spanalyzer.Prelude.{
  map, false, if◌then◌else◌, String, List, [], ◌∷◌, ◌≡◌, refl, sym, ◌∙◌, ap, ap₂, Bool, true, not,
  ◌||◌, ◌==◌, ◌⊎◌, inl, inr, Option, none, some, string_eq, arith, nonempty, Bool-cases, eq_of_beq,
}
use spanalyzer.Prelude.Int.{ℤ, int_eq}
use spanalyzer.Prelude.Order.{string_ord}
use spanalyzer.Prelude.Maps.{Map, lookup, lookup_or, lookup_or-cons, keys}
use spanalyzer.Prelude.Sorting.{sort}
use spanalyzer.Text.{trim_space}
use spanalyzer.PlanContract.Plan.{ChildLink}
use spanalyzer.PlanContract.Report.{Operator, Diagnostic}
use spanalyzer.Normalize.Operators.{classification_warnings}
use spanalyzer.PlanVocab.Shapes.{
  Value, null_value, string_value, number_value, bool_value, list_value, struct_value, Node,
  Finding, MetadataShape, ChildLinkShape, normalize_token,
}
use spanalyzer.PlanVocab.Catalog.{
  MetadataRule, metadata_rules_for, metadata_value_kind, metadata_shape_value,
}
use spanalyzer.PlanVocab.Inspect.{
  Vocabulary, is_void, check_field, inspect_field, inspect_keys, inspect_metadata, observed_links,
  inspect_child_links, check_operator, gather, is_known, rule_or_zero, inspect_node, add_shape,
  tidy, finding_fingerprint,
}

-- The values of a key are shown where the catalog lists them, and only their kinds elsewhere.
abbrev pub is_hidden : Option MetadataRule → Bool
is_hidden none = true
is_hidden (some rule) = not (nonempty rule.values)

abbrev pub SameShown : Option MetadataRule → Value → Value → Type 0
SameShown rule v w =
    (v ≡ w) ⊎ ((is_hidden rule ≡ true) × (metadata_value_kind v ≡ metadata_value_kind w))

-- The same keys, in the same order, with values that are shown alike.
abbrev pub SameFields : Map String MetadataRule → Map String Value → Map String Value → Type 0
SameFields rules [] [] = Unit
SameFields rules [] (q ∷ n) = ⊥
SameFields rules (p ∷ m) [] = ⊥
SameFields rules ((k, v) ∷ m) ((j, w) ∷ n) =
    (k ≡ j) × (SameShown (lookup k rules) v w × SameFields rules m n)

abbrev pub SameLink : Option ChildLink → Option ChildLink → Type 0
SameLink none none = Unit
SameLink none (some b) = ⊥
SameLink (some a) none = ⊥
SameLink (some a) (some b) =
    (a.child_index ≡ b.child_index)
    × ((a.type_name ≡ b.type_name)
        × ((trim_space a.variable == "") ≡ (trim_space b.variable == "")))

abbrev pub SameLinks : List (Option ChildLink) → List (Option ChildLink) → Type 0
SameLinks [] [] = Unit
SameLinks [] (b ∷ bs) = ⊥
SameLinks (a ∷ xs) [] = ⊥
SameLinks (a ∷ xs) (b ∷ bs) = SameLink a b × SameLinks xs bs

is_void-kind :
    (v : Value)
    → is_void v ≡ (metadata_value_kind v == "null" || metadata_value_kind v == "unknown")
unfolding is_void metadata_value_kind
is_void-kind Value.unset = refl
is_void-kind null_value = refl
is_void-kind (string_value s) = refl
is_void-kind (number_value n) = refl
is_void-kind (bool_value b) = refl
is_void-kind (list_value vs) = refl
is_void-kind (struct_value fs) = refl

module _ (vocabulary : Vocabulary) (rules : Map String MetadataRule) where
  hidden-shape :
      (rule : Option MetadataRule) (v w : Value)
      → is_hidden rule ≡ true
      → metadata_value_kind v ≡ metadata_value_kind w
      → metadata_shape_value vocabulary.protobuf v rule
        ≡ metadata_shape_value vocabulary.protobuf w rule
  unfolding metadata_shape_value
  hidden-shape none v w h k = k
  hidden-shape (some rule) v w h k = ground (arith, k)

  hidden-check_field :
      (key : String) (rule : Option MetadataRule) (v w : Value) (shape : MetadataShape)
      → is_hidden rule ≡ true
      → (f : Finding)
      → check_field vocabulary key v rule shape f ≡ check_field vocabulary key w rule shape f
  unfolding check_field
  hidden-check_field key none v w shape h f = refl
  hidden-check_field key (some rule) v w shape h f = elim (Bool-cases (nonempty rule.values)) [
    | inl shown ↦ ground arith
    | inr hidden ↦ rw hidden refl
  ]

  is_void-SameShown :
      (v w : Value) → metadata_value_kind v ≡ metadata_value_kind w → is_void v ≡ is_void w
  is_void-SameShown v w k =
      is_void-kind v ∙ ap (λ s. s == "null" || s == "unknown") k ∙ sym (is_void-kind w)

  inspect_field-SameShown :
      (key : String) (v w : Value)
      → SameShown (lookup key rules) v w
      → (known : Bool) (f : Finding)
      → inspect_field vocabulary rules known key v f ≡ inspect_field vocabulary rules known key w f
  unfolding inspect_field
  inspect_field-SameShown key v w (inl same) known f =
      ap (λ x. inspect_field vocabulary rules known key x f) same
  inspect_field-SameShown key v w (inr (h, k)) known f =
      rw
        (
          is_void-SameShown v w k,
          hidden-shape (lookup key rules) v w h k,
          hidden-check_field key (lookup key rules) v w _ h,
        )
        refl

  keys-SameFields : (m n : Map String Value) → SameFields rules m n → keys m ≡ keys n
  keys-SameFields [] [] h = refl
  keys-SameFields [] (q ∷ n) h = absurd h
  keys-SameFields (p ∷ m) [] h = absurd h
  keys-SameFields (p ∷ m) (q ∷ n) (e, (s, h)) = ap₂ ◌∷◌ e (keys-SameFields m n h)

  lookup-SameFields :
      (key : String) (m n : Map String Value)
      → SameFields rules m n
      → SameShown (lookup key rules) (lookup_or Value.unset key m) (lookup_or Value.unset key n)
  lookup-SameFields key [] [] h = inl refl
  lookup-SameFields key [] (q ∷ n) h = absurd h
  lookup-SameFields key (p ∷ m) [] h = absurd h
  lookup-SameFields key ((k, v) ∷ m) ((j, w) ∷ n) (e, (s, h)) =
      rw (lookup_or-cons Value.unset key k v m, lookup_or-cons Value.unset key j w n, ← e)
        (elim (Bool-cases (k == key)) [
          | inl here ↦ rw (here, ← eq_of_beq k key here) s
          | inr gone ↦ rw gone (lookup-SameFields key m n h)
        ])

  inspect_keys-SameFields :
      (m n : Map String Value)
      → SameFields rules m n
      → (known : Bool) (ks : List String) (f : Finding)
      → inspect_keys vocabulary m rules known ks f ≡ inspect_keys vocabulary n rules known ks f
  unfolding inspect_keys
  inspect_keys-SameFields m n h known [] f = refl
  inspect_keys-SameFields m n h known (key ∷ ks) f =
      rw
        (inspect_field-SameShown key (lookup_or Value.unset key m) (lookup_or Value.unset key n)
          (lookup-SameFields key m n h) known f)
        (inspect_keys-SameFields m n h known ks _)

  inspect_metadata-SameFields :
      (m n : Map String Value)
      → SameFields rules m n
      → (known : Bool) (f : Finding)
      → inspect_metadata vocabulary m rules known f ≡ inspect_metadata vocabulary n rules known f
  unfolding inspect_metadata
  inspect_metadata-SameFields m n h known f =
      rw (keys-SameFields m n h) (inspect_keys-SameFields m n h known (sort (keys n)) f)

add_shape-SameLink :
    (a b : ChildLink) (child : Option Node) (shapes : List ChildLinkShape)
    → a.type_name ≡ b.type_name
    → (trim_space a.variable == "") ≡ (trim_space b.variable == "")
    → add_shape a child shapes ≡ add_shape b child shapes
add_shape-SameLink a b none shapes t v = refl
add_shape-SameLink a b (some child) shapes t v = rw (t, v) refl

observed_links-SameLinks :
    (nodes : Map ℤ Node) (xs ys : List (Option ChildLink))
    → SameLinks xs ys
    → observed_links nodes xs ≡ observed_links nodes ys
unfolding observed_links
observed_links-SameLinks nodes [] [] h = refl
observed_links-SameLinks nodes [] (y ∷ ys) h = absurd h
observed_links-SameLinks nodes (x ∷ xs) [] h = absurd h
observed_links-SameLinks nodes (none ∷ xs) (none ∷ ys) (e, h) =
    observed_links-SameLinks nodes xs ys h
observed_links-SameLinks nodes (none ∷ xs) (some b ∷ ys) (e, h) = absurd e
observed_links-SameLinks nodes (some a ∷ xs) (none ∷ ys) (e, h) = absurd e
observed_links-SameLinks nodes (some a ∷ xs) (some b ∷ ys) ((i, (t, v)), h) =
    rw (i, observed_links-SameLinks nodes xs ys h)
      (add_shape-SameLink a b (lookup b.child_index nodes) _ t v)

-- The rules that the catalog has for the fields of a node.
abbrev pub rules_of : Vocabulary → Node → Map String MetadataRule
rules_of vocabulary node =
    let found = lookup (normalize_token node.display_name) vocabulary.catalog.by_name in
    metadata_rules_for vocabulary.catalog (rule_or_zero found) (is_known found)

-- The kinds of warning that the normalizer has for an operator; their messages quote its name and
-- iterator type.
abbrev pub warning_ids : Vocabulary → Operator → List String
warning_ids vocabulary operator =
    map (λ w. w.id) (classification_warnings vocabulary.quote (operator ∷ []))

-- A finding without the messages of the normalizer's warnings.
abbrev pub undiagnosed : Option Finding → Option Finding
undiagnosed none = none
undiagnosed (some finding) = some (record finding { diagnostics = [] })

undiagnosed-if :
    (reported : Bool) (finding : Finding) (ds es : List Diagnostic)
    → undiagnosed (if reported then some (record finding { diagnostics = ds }) else none)
      ≡ undiagnosed (if reported then some (record finding { diagnostics = es }) else none)
undiagnosed-if true finding ds es = refl
undiagnosed-if false finding ds es = refl

-- Redaction: a node is reported or not, and its finding is the same with its fingerprint but for
-- the warnings' messages, whatever is written in a metadata value whose key has no listed values, as
-- long as the kind of the value is the same, whatever the names of the child variables are, as long
-- as the same links have one, and whatever the description is, as long as the operators that the
-- normalizer makes of the node before and after get the same kinds of warning.
pub inspect_node-redacts :
    (vocabulary : Vocabulary) (node : Node) (metadata : Map String Value)
    (child_links : List (Option ChildLink)) (description : String) (nodes : Map ℤ Node)
    (operator other : Operator)
    → warning_ids vocabulary operator ≡ warning_ids vocabulary other
    → SameFields (rules_of vocabulary node) node.metadata metadata
    → SameLinks node.child_links child_links
    → undiagnosed (inspect_node vocabulary node nodes operator)
      ≡ undiagnosed (
          inspect_node vocabulary
            (record node {
              metadata = metadata;
              child_links = child_links;
              description = description;
            })
            nodes
            other)
unfolding inspect_node gather inspect_child_links check_operator
inspect_node-redacts vocabulary node metadata child_links description nodes operator other ids h l =
    let changed = record node {
      metadata = metadata;
      child_links = child_links;
      description = description;
    } in
    let found = lookup (normalize_token node.display_name) vocabulary.catalog.by_name in
    let finding = tidy (gather vocabulary changed nodes found (warning_ids vocabulary other)) in
    rw
      (
        ids,
        observed_links-SameLinks nodes node.child_links child_links l,
        inspect_metadata-SameFields vocabulary (rules_of vocabulary node) node.metadata metadata h,
      )
      (undiagnosed-if (nonempty finding.reasons)
        (record finding { fingerprint = finding_fingerprint vocabulary finding }) _ _)
