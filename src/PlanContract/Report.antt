-- ===== src/PlanContract/Report.antt =====
-- plancontract/plancontract.go: the evaluator's input, a report with its queries and operators.
use spanalyzer.Prelude.{String, Option, List, ℕ, Bool}
use spanalyzer.Prelude.Int.{ℤ}
use spanalyzer.Prelude.Maps.{Map}
use spanalyzer.PlanContract.Plan.{QueryPlan}

pub record Operator : Type 0 where
  pub index : ℤ
  pub display_name : String
  pub family : String
  pub execution_method : String
  pub iterator_type : String
  pub scan_method : String
  pub scan_format : String
  pub scan_type : String
  pub scan_target : String
  pub seekable_key_size : String
  pub join_type : String
  pub join_configuration : String
  pub call_type : String
  pub distribution_table : String
  pub subquery_cluster_node : String
  pub spool_name : String
  pub tvf_name : String
  pub scalar_aggregate : Bool
  pub full_scan : Bool
  pub child_indexes : List ℤ
  pub descendant_indexes : List ℤ
  pub subtree_family_counts : Map String ℕ

-- `Operator{}`
abbrev pub zero_operator : Operator
zero_operator = record {
  index = ℤ.pos 0;
  display_name = "";
  family = "";
  execution_method = "";
  iterator_type = "";
  scan_method = "";
  scan_format = "";
  scan_type = "";
  scan_target = "";
  seekable_key_size = "";
  join_type = "";
  join_configuration = "";
  call_type = "";
  distribution_table = "";
  subquery_cluster_node = "";
  spool_name = "";
  tvf_name = "";
  scalar_aggregate = Bool.false;
  full_scan = Bool.false;
  child_indexes = List.[];
  descendant_indexes = List.[];
  subtree_family_counts = List.[];
}

pub record OperatorEdge : Type 0 where
  pub parent_index : ℤ
  pub child_index : ℤ
  pub type_name : String
  pub variable : String

pub record Diagnostic : Type 0 where
  pub id : String
  pub message : String

pub record BackendIdentity : Type 0 where
  pub kind : String
  pub version : String
  pub image_digest : String
  pub source : String

pub record OptimizerEnvironment : Type 0 where
  pub version : String
  pub statistics_package : String

pub record OptimizerEffective : Type 0 where
  pub version : String
  pub statistics_package : String

pub record Optimizer : Type 0 where
  pub requested : OptimizerEnvironment
  pub effective : OptimizerEffective

pub record Query : Type 0 where
  pub target_id : String
  pub name : String
  pub catalog : String
  pub scope : String
  pub kind : String
  pub status : String
  pub sql_sha256 : String
  pub ddl_sha256 : String
  pub proto_descriptor_sha256 : String
  pub operator_tree_sha256 : String
  pub operator_families : List String
  pub operator_family_counts : Map String ℕ
  pub normalized_operators : List Operator
  pub operator_edges : List OperatorEdge
  pub error : String
  pub optimizer_not_pinned : Bool
  pub plan_environment_notes : List String
  pub classification_notes : List Diagnostic
  pub raw_plan : Option QueryPlan

pub record Report : Type 0 where
  pub backend : String
  pub backend_identity : BackendIdentity
  pub optimizer : Optimizer
  pub queries : List Query
