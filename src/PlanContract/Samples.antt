-- ===== src/PlanContract/Samples.antt =====
-- A report and a contract file to run the evaluator on.
use spanalyzer.Prelude.{[], ◌∷◌, Bool, true, none, some, if◌then◌else◌, ◌==◌, string_eq}
use spanalyzer.Prelude.Int.{pos}
use spanalyzer.PlanContract.Report.{Operator, zero_operator, OperatorEdge, Query, Report}
use spanalyzer.PlanContract.Cel.{Cel, constant, issues, compiled, bool_type, bool_value}
use spanalyzer.PlanContract.Contract.{Contract, File, ResolvedPredicate}

-- A limit over a sort over a full scan, which owns a timestamp condition.
abbrev pub limit_operator : Operator
limit_operator = record zero_operator {
  display_name = "Limit";
  family = "limit";
  child_indexes = pos 1 ∷ [];
  descendant_indexes = pos 1 ∷ pos 2 ∷ [];
}

abbrev pub sort_operator : Operator
sort_operator = record zero_operator {
  index = pos 1;
  display_name = "Sort";
  family = "full_sort";
  child_indexes = pos 2 ∷ [];
  descendant_indexes = pos 2 ∷ [];
}

abbrev pub scan_operator : Operator
scan_operator = record zero_operator {
  index = pos 2;
  display_name = "Table Scan";
  family = "scan";
  full_scan = true;
}

abbrev pub filter_operator : Operator
filter_operator = record zero_operator {
  index = pos 3;
  display_name = "Filter Scan";
  family = "filter_scan";
  full_scan = true;
}

abbrev pub sample_edge : OperatorEdge
sample_edge = record {
  parent_index = pos 2;
  child_index = pos 3;
  type_name = "Timestamp Condition";
  variable = "";
}

abbrev pub sample_query : Query
sample_query = record {
  target_id = "";
  name = "recent";
  catalog = "";
  scope = "query";
  kind = "select";
  status = "ok";
  sql_sha256 = "";
  ddl_sha256 = "";
  proto_descriptor_sha256 = "";
  operator_tree_sha256 = "";
  operator_families = [];
  operator_family_counts = [];
  normalized_operators = limit_operator ∷ sort_operator ∷ scan_operator ∷ filter_operator ∷ [];
  operator_edges = sample_edge ∷ [];
  error = "";
  optimizer_not_pinned = true;
  plan_environment_notes = [];
  classification_notes = [];
  raw_plan = none;
}

abbrev pub sample_report : Report
sample_report = record {
  backend = "emulator";
  backend_identity = record {
    kind = "emulator";
    version = "not_recorded";
    image_digest = "";
    source = "";
  };
  optimizer = record {
    requested = record { version = "7"; statistics_package = "latest" };
    effective = record { version = "7"; statistics_package = "latest" };
  };
  queries = sample_query ∷ [];
}

abbrev pub no_full_sort : Contract
no_full_sort = record {
  name = "NoFullSort";
  target = "query/recent";
  uses = "no_full_sort" ∷ [];
  forbid = [];
  cel = "";
}

abbrev pub few_scans : Contract
few_scans = record {
  name = "FewScans";
  target = "query/recent";
  uses = [];
  forbid = record { operator_family = "scan"; max_count = pos 1 } ∷ [];
  cel = "";
}

abbrev pub sample_file : File
sample_file = record {
  version = "v1alpha-plan-contracts";
  contracts = no_full_sort ∷ few_scans ∷ [];
}

-- A library that knows the expression `true` and no other.
abbrev pub toy_cel : Cel
toy_cel = record {
  Ast = Bool;
  Program = Bool;
  compile = λ expression. if expression == "true" then compiled true else issues;
  ast_to_checked_expr = λ ast. some constant;
  output_type = λ ast. bool_type;
  program = λ ast. some ast;
  eval = λ program report query. some (bool_value program);
}

abbrev pub forbid_full_sort : ResolvedPredicate
forbid_full_sort = record {
  operator_family = "full_sort";
  max_count = pos 0;
  rule = "forbid_operator_family";
  source = "use/no_full_sort";
  predefined = "no_full_sort";
}

abbrev pub forbid_scan : ResolvedPredicate
forbid_scan = record {
  operator_family = "scan";
  max_count = pos 1;
  rule = "forbid_operator_family";
  source = "forbid[0]";
  predefined = "";
}
