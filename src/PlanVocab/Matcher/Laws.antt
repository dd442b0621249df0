-- ===== src/PlanVocab/Matcher/Laws.antt =====
-- Which nodes match a pattern.
use spanalyzer.Prelude.{
  String, List, [], ◌∷◌, ◌≡◌, refl, ◌∙◌, subst, Bool, true, not, ◌&&◌, some, string_eq, arith, All,
  all, nonempty, nonempty-append, select, map, if◌then◌else◌, Bool-cases, inl, inr, leb,
}
use spanalyzer.Prelude.Int.{ℤ, int_eq}
use spanalyzer.Prelude.Order.{string_ord, int_ord}
use spanalyzer.Prelude.Maps.{Map, lookup_or}
use spanalyzer.Prelude.Sorting.{nonempty-sort, IsSorted, sort_by-IsSorted}
use spanalyzer.Prelude.Results.{ok, bind-eq-ok, ok_injective}
use spanalyzer.PlanVocab.Shapes.{
  Value, unset, null_value, string_value, number_value, bool_value, list_value, struct_value, Node,
  Plan, sorted_nodes, present,
}
use spanalyzer.PlanVocab.Inspect.{Vocabulary, is_void, nodes_by_index}
use spanalyzer.PlanVocab.Matcher.{
  OperatorPattern, MetadataRequirement, ChildLinkRequirement, MatchResult, validate_pattern,
  metadata_reasons, link_reasons, all_metadata_reasons, all_link_reasons, is_unequal,
  matching_child_link_count, minimum_of, match_node_requirements, is_candidate, add_candidate,
  match_nodes, families_of, find_matching_operators,
}

module _ (vocabulary : Vocabulary) where
  -- Whether a node satisfies a requirement: the field has a value, which is the wanted one, or there
  -- are as many links of the kind, type and presence of a variable as are wanted.
  abbrev pub has_field : Node → MetadataRequirement → Bool
  has_field node requirement =
      let value = lookup_or unset requirement.key node.metadata in
      not (is_void value) && not (is_unequal vocabulary value requirement.value)

  abbrev pub has_links : Node → Map ℤ Node → ChildLinkRequirement → Bool
  has_links node nodes requirement =
      leb (minimum_of requirement.min_count) (matching_child_link_count node nodes requirement)

  abbrev pub satisfies : OperatorPattern → Map ℤ Node → Node → Bool
  satisfies pattern nodes node =
      all (has_field node) pattern.metadata && all (has_links node nodes) pattern.child_links

  metadata_reasons-none :
      (node : Node) (requirement : MetadataRequirement) (value : Value)
      → nonempty (metadata_reasons vocabulary node requirement value)
        ≡ not (not (is_void value) && not (is_unequal vocabulary value requirement.value))
  unfolding metadata_reasons is_void
  metadata_reasons-none node requirement unset = refl
  metadata_reasons-none node requirement null_value = refl
  metadata_reasons-none node requirement (string_value s) = ground arith
  metadata_reasons-none node requirement (number_value n) = ground arith
  metadata_reasons-none node requirement (bool_value b) = ground arith
  metadata_reasons-none node requirement (list_value vs) = ground arith
  metadata_reasons-none node requirement (struct_value fs) = ground arith

  link_reasons-none :
      (node : Node) (nodes : Map ℤ Node) (requirement : ChildLinkRequirement)
      → nonempty (link_reasons vocabulary node nodes requirement)
        ≡ not (has_links node nodes requirement)
  unfolding link_reasons
  link_reasons-none node nodes requirement = ground arith

  all_metadata_reasons-none :
      (node : Node) (requirements : List MetadataRequirement)
      → nonempty (all_metadata_reasons vocabulary node requirements)
        ≡ not (all (has_field node) requirements)
  unfolding all_metadata_reasons
  all_metadata_reasons-none node [] = refl
  all_metadata_reasons-none node (requirement ∷ requirements) =
      let value = lookup_or unset requirement.key node.metadata in
      nonempty-append (metadata_reasons vocabulary node requirement value) _
      ∙ ground (
        arith,
        metadata_reasons-none node requirement value,
        all_metadata_reasons-none node requirements,
      )

  all_link_reasons-none :
      (node : Node) (nodes : Map ℤ Node) (requirements : List ChildLinkRequirement)
      → nonempty (all_link_reasons vocabulary node nodes requirements)
        ≡ not (all (has_links node nodes) requirements)
  unfolding all_link_reasons
  all_link_reasons-none node nodes [] = refl
  all_link_reasons-none node nodes (requirement ∷ requirements) =
      nonempty-append (link_reasons vocabulary node nodes requirement) _
      ∙ ground (
        arith,
        link_reasons-none node nodes requirement,
        all_link_reasons-none node nodes requirements,
      )

  match_node_requirements-satisfies :
      (node : Node) (nodes : Map ℤ Node) (pattern : OperatorPattern)
      → nonempty (match_node_requirements vocabulary node nodes pattern)
        ≡ not (satisfies pattern nodes node)
  unfolding match_node_requirements
  match_node_requirements-satisfies node nodes pattern =
      nonempty-sort _
      ∙ nonempty-append (all_metadata_reasons vocabulary node pattern.metadata) _
      ∙ ground (
        arith,
        all_metadata_reasons-none node pattern.metadata,
        all_link_reasons-none node nodes pattern.child_links,
      )

  -- The candidates of a pattern that satisfy it, and those that do not with a reason each.
  abbrev pub Splits : OperatorPattern → Map ℤ Node → Map ℤ String → List Node → MatchResult → Type 0
  Splits pattern nodes families candidates result =
      (result.node_indexes
        ≡ map (λ n. n.index)
            (select (λ n. is_candidate pattern families n && satisfies pattern nodes n) candidates))
      × ((map (λ m. m.node_index) result.mismatches
            ≡ map (λ n. n.index)
                (select (λ n. is_candidate pattern families n && not (satisfies pattern nodes n))
                  candidates))
          × All (λ m. nonempty m.reasons ≡ true) result.mismatches)

  add_candidate-node_indexes :
      (node : Node) (reasons : List String) (result : MatchResult)
      → (add_candidate node reasons result).node_indexes
        ≡ (if nonempty reasons then result.node_indexes else node.index ∷ result.node_indexes)
  add_candidate-node_indexes node [] result = refl
  add_candidate-node_indexes node (r ∷ rs) result = refl

  add_candidate-mismatches :
      (node : Node) (reasons : List String) (result : MatchResult)
      → map (λ m. m.node_index) (add_candidate node reasons result).mismatches ≡ (
          if nonempty reasons
          then node.index ∷ map (λ m. m.node_index) result.mismatches
          else map (λ m. m.node_index) result.mismatches)
  add_candidate-mismatches node [] result = refl
  add_candidate-mismatches node (r ∷ rs) result = refl

  add_candidate-reasons :
      (node : Node) (reasons : List String) (result : MatchResult)
      → All (λ m. nonempty m.reasons ≡ true) result.mismatches
      → All (λ m. nonempty m.reasons ≡ true) (add_candidate node reasons result).mismatches
  add_candidate-reasons node [] result h = h
  add_candidate-reasons node (r ∷ rs) result h = (refl, h)

  match_nodes-Splits :
      (pattern : OperatorPattern) (nodes : Map ℤ Node) (families : Map ℤ String)
      (candidates : List Node)
      → Splits pattern nodes families candidates
          (match_nodes vocabulary pattern nodes families candidates)
  unfolding match_nodes
  match_nodes-Splits pattern nodes families [] = (refl, (refl, tt))
  match_nodes-Splits pattern nodes families (node ∷ more) =
      elim (Bool-cases (is_candidate pattern families node)) [
        | inl here ↦
            let reasons = match_node_requirements vocabulary node nodes pattern in
            let rest = match_nodes vocabulary pattern nodes families more in
            let (found, (missed, told)) = match_nodes-Splits pattern nodes families more in
            let e = match_node_requirements-satisfies node nodes pattern in
            elim (Bool-cases (satisfies pattern nodes node)) [
              | inl good ↦
                  rw (here, good)
                    (
                      add_candidate-node_indexes node reasons rest ∙ ground (arith, e),
                      (
                        add_candidate-mismatches node reasons rest ∙ ground (arith, e),
                        add_candidate-reasons node reasons rest told,
                      ),
                    )
              | inr bad ↦
                  rw (here, bad)
                    (
                      add_candidate-node_indexes node reasons rest ∙ ground (arith, e),
                      (
                        add_candidate-mismatches node reasons rest ∙ ground (arith, e),
                        add_candidate-reasons node reasons rest told,
                      ),
                    )
            ]
        | inr gone ↦ rw gone (match_nodes-Splits pattern nodes families more)
      ]

-- `FindMatchingOperators` sorts out the candidates: a pattern that is valid matches exactly the
-- nodes of its name and family that satisfy all its requirements, and every other node of its
-- name and family is a mismatch with a reason; both in ascending order of the nodes' indexes.
pub find_matching_operators-Splits :
    (vocabulary : Vocabulary) (plan : Plan) (pattern : OperatorPattern) {result : MatchResult}
    → find_matching_operators vocabulary (some plan) pattern ≡ ok result
    → Splits vocabulary pattern
        (nodes_by_index plan [])
        (families_of vocabulary plan)
        (sorted_nodes plan)
        result
      × IsSorted (λ n. n.index) (sorted_nodes plan)
unfolding find_matching_operators sorted_nodes
find_matching_operators-Splits vocabulary plan pattern {result} e =
    let (_, _, e₁) = bind-eq-ok (validate_pattern pattern) _ e in
    let same = ok_injective _ result e₁ in
    (
      subst
          (Splits vocabulary pattern (nodes_by_index plan []) (families_of vocabulary plan)
            (sorted_nodes plan))
          same
          (match_nodes-Splits vocabulary pattern (nodes_by_index plan [])
            (families_of vocabulary plan) (sorted_nodes plan)),
      sort_by-IsSorted (λ n. n.index) (present plan),
    )
