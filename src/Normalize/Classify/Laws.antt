-- ===== src/Normalize/Classify/Laws.antt =====
-- The families that the classification can give.
use spanalyzer.Prelude.{
  String, ◌≡◌, refl, Bool, true, false, ◌&&◌, if◌then◌else◌, ◌==◌, string_eq, contains,
}
use spanalyzer.Prelude.Switch.{switch_all, first_case_all}
use spanalyzer.Text.{contains_text}
use spanalyzer.PlanContract.Plan.{PlanNode}
use spanalyzer.PlanContract.Families.{concrete_operator_families}
use spanalyzer.PlanContract.Matching.{normalize_operator_name}
use spanalyzer.Normalize.Classify.{
  operator_metadata_string, node_metadata_bool, node_tvf_name, aggregate_family, guessed_family,
  named_family, operator_family, OperatorContext, operator_family_with_context,
  node_operator_family, node_metadata_string, named_families, guesses, internal_families,
  aggregate_families, is_scalar,
}

-- A family that a normalized operator may have.
abbrev pub Concrete : String → Type 0
Concrete family = contains concrete_operator_families family ≡ true

Concrete-if : (b : Bool) (x y : String) → Concrete x → Concrete y → Concrete (if b then x else y)
Concrete-if true x y h k = h
Concrete-if false x y h k = k

Concrete-aggregate_family : (node : PlanNode) → Concrete (aggregate_family node)
unfolding aggregate_family concrete_operator_families
Concrete-aggregate_family node =
    switch_all Concrete (node_metadata_string node "iterator_type") aggregate_families "aggregate"
      (refl, (refl, tt)) refl

Concrete-guessed_family : (name description : String) → Concrete (guessed_family name description)
unfolding guessed_family concrete_operator_families
Concrete-guessed_family name description =
    let sorted = Concrete-if (contains_text name "minor sort") "minor_sort" "full_sort" refl refl in
    first_case_all Concrete (guesses name description) "unknown"
      (
        refl,
        (
          refl,
          (refl, (refl, (refl, (refl, (sorted, (refl, (refl, (refl, (refl, (refl, tt)))))))))),
        ),
      )
      refl

Concrete-named_family : (node : PlanNode) (name : String) → Concrete (named_family node name)
unfolding named_family concrete_operator_families
Concrete-named_family node name =
    switch_all Concrete name (named_families node)
      (guessed_family name (normalize_operator_name node.description))
      (
        refl,
        (
          refl,
          (
            refl,
            (
              refl,
              (
                refl,
                (
                  refl,
                  (
                    refl,
                    (
                      refl,
                      (
                        refl,
                        (
                          refl,
                          (
                            refl,
                            (
                              refl,
                              (
                                refl,
                                (
                                  Concrete-aggregate_family node,
                                  (
                                    refl,
                                    (
                                      refl,
                                      (
                                        refl,
                                        (
                                          refl,
                                          (
                                            refl,
                                            (
                                              refl,
                                              (
                                                refl,
                                                (
                                                  refl,
                                                  (
                                                    refl,
                                                    (
                                                      refl,
                                                      (
                                                        refl,
                                                        (
                                                          refl,
                                                          (
                                                            refl,
                                                            (
                                                            refl,
                                                            (
                                                            refl,
                                                            (
                                                            refl,
                                                            (
                                                            refl,
                                                            (
                                                            refl,
                                                            (
                                                            refl,
                                                            (
                                                            refl,
                                                            (
                                                            refl,
                                                            (
                                                            refl,
                                                            (
                                                            Concrete-if
                                                            (operator_metadata_string node
                                                            "scan_type"
                                                            == "filter_scan")
                                                            "filter_scan" "scan" refl refl,
                                                            (
                                                            refl,
                                                            (
                                                            refl,
                                                            (
                                                            refl,
                                                            (
                                                            refl,
                                                            (
                                                            Concrete-if
                                                            (node_metadata_bool node
                                                            "preserve_subquery_order")
                                                            "distributed_merge_union"
                                                            "distributed_union" refl refl,
                                                            (
                                                            refl,
                                                            (
                                                            refl,
                                                            (
                                                            refl,
                                                            (
                                                            refl,
                                                            (
                                                            Concrete-if
                                                            (normalize_operator_name
                                                            (node_tvf_name node)
                                                            == "search query conversion")
                                                            "search_query_conversion_tvf" "tvf" refl
                                                            refl,
                                                            (refl, (refl, tt)),
                                                            ),
                                                            ),
                                                            ),
                                                            ),
                                                            ),
                                                            ),
                                                            ),
                                                            ),
                                                            ),
                                                            ),
                                                            ),
                                                            ),
                                                            ),
                                                            ),
                                                            ),
                                                            ),
                                                            ),
                                                            ),
                                                            ),
                                                            ),
                                                          ),
                                                        ),
                                                      ),
                                                    ),
                                                  ),
                                                ),
                                              ),
                                            ),
                                          ),
                                        ),
                                      ),
                                    ),
                                  ),
                                ),
                              ),
                            ),
                          ),
                        ),
                      ),
                    ),
                  ),
                ),
              ),
            ),
          ),
        ),
      )
      (Concrete-guessed_family name (normalize_operator_name node.description))

Concrete-operator_family_with_context :
    (node : PlanNode) (context : OperatorContext)
    → Concrete (operator_family_with_context node context)
unfolding operator_family_with_context operator_family concrete_operator_families
Concrete-operator_family_with_context node context =
    first_case_all Concrete (internal_families (normalize_operator_name node.display_name) context)
      (operator_family node) (refl, (refl, (refl, (refl, tt))))
      (Concrete-named_family node (normalize_operator_name node.display_name))

Concrete-scalar : Concrete "scalar"
unfolding concrete_operator_families
Concrete-scalar = refl

-- Every node is classified into a concrete family: one of `ConcreteOperatorFamilies`, whatever its
-- names, metadata, kind and context are. So no operator of a plan has an umbrella family.
pub node_operator_family-Concrete :
    (node : PlanNode) (context : OperatorContext) → Concrete (node_operator_family node context)
unfolding node_operator_family
node_operator_family-Concrete node context =
    Concrete-if (operator_family_with_context node context == "unknown" && is_scalar node.kind)
      "scalar" (operator_family_with_context node context) Concrete-scalar
      (Concrete-operator_family_with_context node context)
