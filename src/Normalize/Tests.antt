-- ===== src/Normalize/Tests.antt =====
-- Runs of the normalization on small plans.
use spanalyzer.Prelude.{
  List, [], ◌∷◌, ◌≡◌, ◌↔◌, refl, true, false, some, Distinct, contains, count_if, Bool, ◌==◌,
}
use spanalyzer.Prelude.Int.{ℤ, pos, int_eq}
use spanalyzer.Prelude.Order.{int_ord}
use spanalyzer.Prelude.Maps.{Map}
use spanalyzer.Prelude.Sorting.{IsSorted}
use spanalyzer.PlanContract.Plan.{PlanNode, QueryPlan, relational}
use spanalyzer.Normalize.Classify.{no_context, node_operator_family}
use spanalyzer.Normalize.Classify.Laws.{Concrete, node_operator_family-Concrete}
use spanalyzer.Normalize.Walk.{descendant_indexes}
use spanalyzer.Normalize.Walk.Descendants.{
  Reaches, descendant_indexes-Distinct, descendant_indexes-Reaches,
}
use spanalyzer.Normalize.Operators.{normalize_operators}
use spanalyzer.Normalize.Operators.Laws.{
  Taken, taken_by, taken_from_node, normalize_operators-IsSorted,
}

-- Links with a cycle between 0 and 1.
abbrev sample_links : Map ℤ (List ℤ)
sample_links = (pos 0, pos 1 ∷ pos 2 ∷ []) ∷ (pos 1, pos 2 ∷ pos 0 ∷ []) ∷ (pos 2, []) ∷ []

sample_descendants : descendant_indexes (pos 0) sample_links ≡ pos 1 ∷ pos 2 ∷ []
unfolding descendant_indexes
sample_descendants = refl

descendant_indexes-Distinct_example :
    Distinct (descendant_indexes (pos 0) sample_links)
    × (contains (descendant_indexes (pos 0) sample_links) (pos 0) ≡ false)
descendant_indexes-Distinct_example = descendant_indexes-Distinct (pos 0) sample_links

descendant_indexes-Reaches_example :
    (contains (descendant_indexes (pos 0) sample_links) (pos 2) ≡ true)
    ↔ (Reaches sample_links (pos 0) (pos 2) × ((pos 0 == pos 2) ≡ false))
descendant_indexes-Reaches_example = descendant_indexes-Reaches (pos 0) sample_links (pos 2)

abbrev sort_node : PlanNode
sort_node = record {
  index = pos 1;
  kind = relational;
  display_name = "Sort";
  child_links = [];
  description = "";
  metadata = [];
}

abbrev limit_node : PlanNode
limit_node = record sort_node {
  index = pos 0;
  display_name = "Limit";
  child_links = record { child_index = pos 1; type_name = ""; variable = "" } ∷ [];
}

abbrev sample_plan : QueryPlan
sample_plan = record { plan_nodes = sort_node ∷ limit_node ∷ [] }

node_operator_family-Concrete_example : Concrete (node_operator_family sort_node no_context)
node_operator_family-Concrete_example = node_operator_family-Concrete sort_node no_context

normalize_operators-IsSorted_example :
    IsSorted (λ o. o.index) (normalize_operators (some sample_plan))
    × ((asked : Taken → Bool)
        → count_if (λ o. asked (taken_by o)) (normalize_operators (some sample_plan))
          ≡ count_if (λ node. asked (taken_from_node node)) sample_plan.plan_nodes)
normalize_operators-IsSorted_example = normalize_operators-IsSorted sample_plan
