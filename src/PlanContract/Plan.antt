-- ===== src/PlanContract/Plan.antt =====
-- The parts of `google.spanner.v1.QueryPlan` that the source reads, as its generated getters give
-- them. A nil node has the getters' zero values, which are also what the source answers for it.
use spanalyzer.Prelude.{String, Option, List}
use spanalyzer.Prelude.Int.{ℤ}
use spanalyzer.Prelude.Maps.{Map}

-- `PlanNode_Kind`, an open enumeration
pub data Kind : Type 0 where
  kind_unspecified relational scalar : Kind
  other_kind : ℤ → Kind

pub record ChildLink : Type 0 where
  pub child_index : ℤ
  pub type_name : String
  pub variable : String

-- A metadata field is here by what `fmt.Sprint(value.AsInterface())` prints, and `none` where the
-- value is nil or the interface is.
pub record PlanNode : Type 0 where
  pub index : ℤ
  pub kind : Kind
  pub display_name : String
  pub child_links : List ChildLink
  pub description : String
  pub metadata : Map String (Option String)

pub record QueryPlan : Type 0 where
  pub plan_nodes : List PlanNode
