-- ===== src/PlanVocab/Inspect/Laws.antt =====
-- When a node is reported.
use spanalyzer.Prelude.{
  map, nonempty-map, String, suc, ◌≤◌, length, List, [], ◌∷◌, ◌++◌, ◌≡◌, refl, ◌∙◌, Bool, true,
  false, not, ◌&&◌, ◌||◌, Option, none, some, string_eq, arith, any, nonempty, Bool-cases, inl, inr,
}
use spanalyzer.Prelude.Int.{ℤ, int_eq}
use spanalyzer.Prelude.Order.{string_ord, int_ord}
use spanalyzer.Prelude.Maps.{Map, lookup, lookup_or, keys}
use spanalyzer.Prelude.Sorting.{sort, any-sort, nonempty-sort, length-sort_by}
use spanalyzer.PlanContract.Report.{Diagnostic, Operator, zero_operator}
use spanalyzer.Normalize.Operators.{classification_warnings}
use spanalyzer.PlanVocab.Shapes.{
  Value, Node, Plan, present, sorted_nodes, ChildLinkShape, MetadataShape, Finding, normalize_token,
  compact, compact_strings, sorted_unique_strings, aggregate_child_links,
}
use spanalyzer.PlanVocab.Catalog.{
  OperatorRule, MetadataRule, ChildRule, zero_rule, metadata_rules_for, known_metadata_value,
  kind_matches, match_child_link,
}
use spanalyzer.PlanVocab.Inspect.{
  Vocabulary, is_void, check_field, inspect_field, inspect_keys, inspect_metadata, observed_links,
  forbids_multiple, check_link, check_links, inspect_child_links, check_operator, gather, tidy,
  first_finding, inspect_node, inspect_nodes, nodes_by_index, inspect, add_finding,
}

nonempty-concat : (xs : List String) (x : String) → nonempty (xs ++ x ∷ []) ≡ (nonempty xs || true)
nonempty-concat [] x = refl
nonempty-concat (y ∷ ys) x = refl

nonempty-compact : (xs : List String) → nonempty (compact (λ x. x) xs) ≡ nonempty xs
unfolding compact
nonempty-compact [] = refl
nonempty-compact (x ∷ xs) = refl

nonempty-sorted_unique_strings :
    (xs : List String) → nonempty (sorted_unique_strings xs) ≡ nonempty xs
unfolding sorted_unique_strings compact_strings
nonempty-sorted_unique_strings xs = nonempty-compact (sort xs) ∙ nonempty-sort xs

abbrev pub is_reported : Option Finding → Bool
is_reported none = false
is_reported (some finding) = true

module _ (vocabulary : Vocabulary) where
  -- Whether the catalog does not know a field of a known operator.
  abbrev pub is_unknown_value : Value → Option MetadataRule → Bool
  is_unknown_value value none = true
  is_unknown_value value (some rule) =
      nonempty rule.values && not (known_metadata_value vocabulary.protobuf value rule.values)

  abbrev pub is_unknown_field : Map String Value → Map String MetadataRule → String → Bool
  is_unknown_field metadata rules key =
      let value = lookup_or Value.unset key metadata in
      not (is_void value) && is_unknown_value value (lookup key rules)

  -- Whether the catalog does not know a link of a known operator, or not that it is repeated.
  abbrev is_unexpected : Option ChildRule → Bool → Bool
  is_unexpected none repeated = true
  is_unexpected (some rule) repeated = repeated && forbids_multiple rule.multiple

  abbrev pub is_unknown_link : List ChildRule → ChildLinkShape → Bool
  is_unknown_link rules shape = is_unexpected (match_child_link shape rules) shape.repeated

  check_field-reasons :
      (key : String) (value : Value) (rule : Option MetadataRule) (shape : MetadataShape)
      (f : Finding)
      → nonempty (check_field vocabulary key value rule shape f).reasons
        ≡ (nonempty f.reasons || is_unknown_value value rule)
  unfolding check_field
  check_field-reasons key value none shape f = nonempty-concat f.reasons "unknown_metadata_key"
  check_field-reasons key value (some rule) shape f =
      ground (arith, nonempty-concat f.reasons "unknown_metadata_value")

  inspect_field-reasons :
      (rules : Map String MetadataRule) (known : Bool) (key : String) (value : Value) (f : Finding)
      → nonempty (inspect_field vocabulary rules known key value f).reasons ≡ (
          nonempty f.reasons
          || (known && (not (is_void value) && is_unknown_value value (lookup key rules))))
  unfolding inspect_field
  inspect_field-reasons rules known key value f = elim (Bool-cases (is_void value)) [
    | inl void ↦ rw void (ground arith)
    | inr holds ↦ elim (Bool-cases known) [
      | inl here ↦ rw (holds, here) (check_field-reasons key value (lookup key rules) _ _)
      | inr gone ↦ rw (holds, gone) (ground arith)
    ]
  ]

  inspect_keys-reasons :
      (metadata : Map String Value) (rules : Map String MetadataRule) (known : Bool)
      (ks : List String) (f : Finding)
      → nonempty (inspect_keys vocabulary metadata rules known ks f).reasons
        ≡ (nonempty f.reasons || (known && any (is_unknown_field metadata rules) ks))
  unfolding inspect_keys
  inspect_keys-reasons metadata rules known [] f = ground arith
  inspect_keys-reasons metadata rules known (key ∷ ks) f =
      let value = lookup_or Value.unset key metadata in
      inspect_keys-reasons metadata rules known ks
        (inspect_field vocabulary rules known key value f)
      ∙ ground (arith, inspect_field-reasons rules known key value f)

  check_link-reasons :
      (rule : Option ChildRule) (shape : ChildLinkShape) (f : Finding)
      → nonempty (check_link rule shape f).reasons
        ≡ (nonempty f.reasons || is_unexpected rule shape.repeated)
  unfolding check_link
  check_link-reasons none shape f = nonempty-concat f.reasons "unknown_child_link"
  check_link-reasons (some rule) shape f =
      ground (arith, nonempty-concat f.reasons "unexpected_child_link_multiplicity")

  check_links-reasons :
      (rules : List ChildRule) (shapes : List ChildLinkShape) (f : Finding)
      → nonempty (check_links rules shapes f).reasons
        ≡ (nonempty f.reasons || any (is_unknown_link rules) shapes)
  unfolding check_links
  check_links-reasons rules [] f = ground arith
  check_links-reasons rules (shape ∷ shapes) f =
      let rule = match_child_link shape rules in
      check_links-reasons rules shapes (check_link rule shape f)
      ∙ ground (arith, check_link-reasons rule shape f)

  -- The links of a node, as the catalog's rules see them.
  abbrev pub links_of : Map ℤ Node → Node → List ChildLinkShape
  links_of nodes node = aggregate_child_links (observed_links nodes node.child_links)

  -- What the catalog must know of a node: its operator, of this kind, all fields and all links.
  abbrev pub is_covered_by : OperatorRule → Map ℤ Node → Node → Bool
  is_covered_by rule nodes node =
      kind_matches rule.kind node.kind
      && not (
          any (is_unknown_field node.metadata (metadata_rules_for vocabulary.catalog rule true))
            (keys node.metadata))
      && not (any (is_unknown_link rule.child_links) (links_of nodes node))

  abbrev pub is_known_node : Option OperatorRule → Map ℤ Node → Node → Bool
  is_known_node none nodes node = false
  is_known_node (some rule) nodes node = is_covered_by rule nodes node

  gather-reasons :
      (node : Node) (nodes : Map ℤ Node) (found : Option OperatorRule) (warnings : List String)
      → nonempty (gather vocabulary node nodes found warnings).reasons
        ≡ (nonempty warnings || not (is_known_node found nodes node))
  unfolding gather check_operator inspect_metadata inspect_child_links
  gather-reasons node nodes none warnings =
      let start = check_operator node none warnings (first_finding node warnings) in
      let rules = metadata_rules_for vocabulary.catalog zero_rule false in
      inspect_keys-reasons node.metadata rules false (sort (keys node.metadata)) start
      ∙ ground (arith, nonempty-concat warnings "catalog_entry_missing")
  gather-reasons node nodes (some rule) warnings =
      let start = check_operator node (some rule) warnings (first_finding node warnings) in
      let rules = metadata_rules_for vocabulary.catalog rule true in
      let ks = sort (keys node.metadata) in
      let fields = inspect_keys vocabulary node.metadata rules true ks start in
      let links = links_of nodes node in
      check_links-reasons rule.child_links links (record fields { child_links = links })
      ∙ ground (
        arith,
        inspect_keys-reasons node.metadata rules true ks start,
        any-sort (is_unknown_field node.metadata rules) (keys node.metadata),
        nonempty-concat warnings "unexpected_operator_kind",
      )

  -- `Inspect` reports a node exactly if the normalizer warns about its operator or the catalog does
  -- not cover it: the catalog has no entry of its name, or the entry is of another kind, or some
  -- field with a value has an unknown key or a value that is not listed, or some link has no rule
  -- or is repeated against its rule.
  pub inspect_node-is_known_node :
      (node : Node) (nodes : Map ℤ Node) (operator : Operator)
      → is_reported (inspect_node vocabulary node nodes operator) ≡ (
          nonempty (classification_warnings vocabulary.quote (operator ∷ []))
          || not (
              is_known_node
                (lookup (normalize_token node.display_name) vocabulary.catalog.by_name)
                nodes
                node))
  unfolding inspect_node tidy
  inspect_node-is_known_node node nodes operator =
      let found = lookup (normalize_token node.display_name) vocabulary.catalog.by_name in
      let warnings = classification_warnings vocabulary.quote (operator ∷ []) in
      let ids = map (λ w. w.id) warnings in
      let finding = gather vocabulary node nodes found ids in
      ground (
        arith,
        nonempty-sorted_unique_strings finding.reasons,
        gather-reasons node nodes found ids,
        nonempty-map (λ (w : Diagnostic). w.id) warnings,
      )

  add_finding-length :
      (o : Option Finding) (xs : List Finding) → length (add_finding o xs) ≤ suc (length xs)
  add_finding-length none xs = omega arith
  add_finding-length (some finding) xs = omega arith

  inspect_nodes-length :
      (nodes : Map ℤ Node) (operators : Map ℤ Operator) (more : List Node)
      → length (inspect_nodes vocabulary nodes operators more) ≤ length more
  unfolding inspect_nodes
  inspect_nodes-length nodes operators [] = omega arith
  inspect_nodes-length nodes operators (node ∷ more) =
      let found =
        inspect_node vocabulary node nodes (lookup_or zero_operator node.index operators) in
      omega (
        arith,
        add_finding-length found (inspect_nodes vocabulary nodes operators more),
        inspect_nodes-length nodes operators more,
      )

  length-present-le : (plan : Plan) → length (present plan) ≤ length plan
  unfolding present
  length-present-le [] = omega arith
  length-present-le (none ∷ plan) = omega (arith, length-present-le plan)
  length-present-le (some node ∷ plan) = omega (arith, length-present-le plan)

  -- There are no more findings than nodes.
  pub length-inspect-le : (plan : Plan) → length (inspect vocabulary (some plan)) ≤ length plan
  unfolding inspect sorted_nodes
  length-inspect-le plan = omega (
    arith,
    inspect_nodes-length (nodes_by_index plan []) _ (sorted_nodes plan),
    length-sort_by (λ n. n.index) (present plan),
    length-present-le plan,
  )
