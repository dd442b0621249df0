-- ===== src/OptParam/Tests.antt =====
-- Runs of the enumeration on small templates.
use spanalyzer.Prelude.{
  String, List, [], ◌∷◌, ◌≤◌, ◌≡◌, refl, not, ◌&&◌, ◌||◌, none, some, All, Distinct, contains, any,
  ◌==◌, string_eq, arith, map,
}
use spanalyzer.Prelude.Order.{string_ord, str_le}
use spanalyzer.Prelude.Sorting.{sort}
use spanalyzer.Prelude.Results.{ok}
use spanalyzer.Text.{trim_space, to_upper, join, cut_prefix, is_identifier_start, identifier_byte}
use spanalyzer.OptParam.Plan.{clone_choices, to_plan_query_variants}
use spanalyzer.OptParam.Plan.Laws.{own_variant, to_plan_query_variants-own_variant}
use spanalyzer.OptParam.Param.{
  mode_null_is_null, Param, mode_omit_when_null, mode_beq, mode_required, Segment, fixed_segment,
  seg_omit_when_null, seg_order_by_choice, Variant,
}
use spanalyzer.OptParam.NullIsNull.{Lexer}
use spanalyzer.OptParam.Markers.{find_all_markers}
use spanalyzer.OptParam.Markers.Leftmost.{Leftmost}
use spanalyzer.OptParam.Markers.Laws.{show_found, find_all_markers-show_found}
use spanalyzer.OptParam.Template.{
  segment_template, index_params, marker_segments, marker_segment, marker_expected_mode,
  block_segment, check_markers,
}
use spanalyzer.OptParam.Template.Laws.{segment_template-HasKeys}
use spanalyzer.OptParam.Compose.{segment_axes, key, compose_variant}
use spanalyzer.OptParam.Enumerate.{
  enumerate_segments, enumerate_variants, max_enumerated_variants, presence_total, choice_total,
  choice_axes, all_variants, variant_at, present_names, assign_choices,
}
use spanalyzer.OptParam.Enumerate.Laws.{enumerate_segments-verify}
use spanalyzer.OptParam.Enumerate.Limit.{
  HasKeys, axes_of, size_of, enumerate_segments-size, enumerate_segments-within,
}
use spanalyzer.OptParam.Verify.{
  RowTypes, verify_all, agree_with, verify_builder_round_trip, verify_variants, PlanVariant,
}
use spanalyzer.OptParam.Verify.Laws.{HasRowType, verify_variants-HasRowType}
use spanalyzer.OptParam.Fields.{
  params_on_segments, required_params, go_pointer_type, is_fixed, struct_fields, export_ident,
}
use spanalyzer.OptParam.Fields.Struct.{declared_params, struct_fields-Distinct}

abbrev sample_sql : String
sample_sql = "SELECT 1/*?optional:id*/ WHERE id = @id/*?end*/"

abbrev id_param : Param
id_param = record {
  name = "id";
  type_spec = "INT64";
  mode = mode_omit_when_null;
  choices = [];
  default = "";
}

-- A lexer that accepts nothing: the sample has no null_is_null block.
abbrev no_lexer : Lexer
no_lexer = record { lex = λ text. none }

abbrev id_segment : Segment
id_segment = record (fixed_segment " WHERE id = @id") { kind = seg_omit_when_null; param = "id" }

abbrev order_segment : Segment
order_segment = record (fixed_segment "ORDER BY id") {
  kind = seg_order_by_choice;
  param = "order";
  choices = ("up", " ORDER BY id") ∷ ("down", " ORDER BY id DESC") ∷ [];
  default = "up";
}

abbrev sample_segments : List Segment
sample_segments = fixed_segment "SELECT 1" ∷ id_segment ∷ []

sample_segmented : segment_template no_lexer sample_sql (id_param ∷ []) ≡ ok sample_segments
unfolding segment_template index_params marker_segments find_all_markers cut_prefix
    is_identifier_start identifier_byte marker_segment marker_expected_mode block_segment
    check_markers
sample_segmented = refl

find_all_markers-show_found_example :
    show_found (find_all_markers sample_sql).0 (find_all_markers sample_sql).1 ≡ sample_sql
find_all_markers-show_found_example = find_all_markers-show_found sample_sql

segment_template-HasKeys_example : All HasKeys (axes_of sample_segments)
segment_template-HasKeys_example =
    segment_template-HasKeys no_lexer sample_sql (id_param ∷ []) sample_segments sample_segmented

abbrev absent_variant : Variant
absent_variant = record {
  sql = "SELECT 1";
  present_params = [];
  absent_params = "id" ∷ [];
  choice_assignments = [];
}

abbrev present_variant : Variant
present_variant = record {
  sql = "SELECT 1 WHERE id = @id";
  present_params = "id" ∷ [];
  absent_params = [];
  choice_assignments = [];
}

sample_enumerated : enumerate_segments sample_segments ≡ ok (absent_variant ∷ present_variant ∷ [])
unfolding enumerate_segments presence_total segment_axes sort choice_total choice_axes all_variants
    str_le key variant_at present_names assign_choices join compose_variant
sample_enumerated = refl

enumerate_segments-verify_example :
    verify_builder_round_trip sample_segments (absent_variant ∷ present_variant ∷ []) ≡ none
enumerate_segments-verify_example =
    enumerate_segments-verify sample_segments (absent_variant ∷ present_variant ∷ [])
      sample_enumerated

enumerate_segments-size_example :
    (2 ≡ size_of sample_segments) × (size_of sample_segments ≤ max_enumerated_variants)
enumerate_segments-size_example =
    enumerate_segments-size sample_segments (absent_variant ∷ present_variant ∷ [])
      (segment_template-HasKeys no_lexer sample_sql (id_param ∷ []) sample_segments
        sample_segmented)
      sample_enumerated

order_HasKeys : All HasKeys (axes_of (order_segment ∷ id_segment ∷ []))
unfolding choice_axes segment_axes sort str_le
order_HasKeys = (omega arith, tt)

order_small : size_of (order_segment ∷ id_segment ∷ []) ≤ max_enumerated_variants
unfolding choice_axes segment_axes sort str_le
order_small = omega arith

enumerate_segments-within_example :
    (variants : List Variant) × (enumerate_segments (order_segment ∷ id_segment ∷ []) ≡ ok variants)
enumerate_segments-within_example =
    enumerate_segments-within (order_segment ∷ id_segment ∷ []) order_HasKeys order_small

-- A frontend that gives every statement the same row type.
abbrev toy_frontend : RowTypes
toy_frontend = record { RowType = String; row_type = λ sql. some "INT64"; same = λ a b. a == b }

sample_verified :
    verify_variants toy_frontend no_lexer sample_sql (id_param ∷ [])
    ≡ ok (absent_variant ∷ present_variant ∷ [], "INT64")
unfolding verify_variants enumerate_variants verify_all agree_with segment_template index_params
    marker_segments find_all_markers cut_prefix is_identifier_start identifier_byte marker_segment
    marker_expected_mode block_segment check_markers enumerate_segments presence_total segment_axes
    sort choice_total choice_axes all_variants str_le key variant_at present_names assign_choices
    join compose_variant
sample_verified = refl

verify_variants-HasRowType_example :
    (enumerate_variants no_lexer sample_sql (id_param ∷ [])
      ≡ ok (absent_variant ∷ present_variant ∷ []))
    × (toy_frontend.row_type absent_variant.sql ≡ some "INT64")
    × All (HasRowType toy_frontend "INT64") (present_variant ∷ [])
verify_variants-HasRowType_example =
    verify_variants-HasRowType toy_frontend no_lexer sample_sql (id_param ∷ []) absent_variant
      (present_variant ∷ []) "INT64" sample_verified

abbrev short_candidate : PlanVariant
short_candidate = record { label = "(none)"; sql = "SELECT 1"; present_params = [] }

abbrev full_candidate : PlanVariant
full_candidate = record {
  label = "id";
  sql = "SELECT 1 WHERE id = @id";
  present_params = "id" ∷ [];
}

abbrev note_param : Param
note_param = record id_param { name = "note_text"; mode = mode_null_is_null; type_spec = "INT64" }

abbrev sample_fields : List (String × String)
sample_fields = ("Id", "*int64") ∷ ("NoteText", "spanner.NullInt64") ∷ []

struct_written : struct_fields sample_segments (id_param ∷ note_param ∷ []) ≡ ok sample_fields
unfolding struct_fields sort str_le to_upper trim_space params_on_segments required_params
    go_pointer_type
struct_written = refl

-- Two parameters may have fields of one name.
exported_names_collide : export_ident "a_b" ≡ export_ident "aB"
unfolding export_ident
exported_names_collide = refl

struct_fields-Distinct_example :
    (map (λ (f : String × String). f.0) sample_fields
      ≡ map export_ident (declared_params sample_segments (id_param ∷ note_param ∷ [])))
    × Distinct (declared_params sample_segments (id_param ∷ note_param ∷ []))
    × ((name : String)
        → contains (declared_params sample_segments (id_param ∷ note_param ∷ [])) name ≡ (
            any (λ s. not (is_fixed s.kind) && s.param == name) sample_segments
            || any
                (λ p. mode_beq p.mode mode_required && p.name == name)
                (id_param ∷ note_param ∷ [])
            || any
                (λ p. mode_beq p.mode mode_null_is_null && p.name == name)
                (id_param ∷ note_param ∷ [])))
struct_fields-Distinct_example =
    struct_fields-Distinct sample_segments (id_param ∷ note_param ∷ []) {fields = sample_fields}
      (refl, (refl, tt)) struct_written

abbrev plus_in_choice : Variant
plus_in_choice = record absent_variant { choice_assignments = ("a", "x+b") ∷ [] }

abbrev present_and_choice : Variant
present_and_choice = record absent_variant {
  present_params = "b" ∷ [];
  choice_assignments = ("a", "x") ∷ [];
}

-- Two variants of one product that have the same key.
key_collision : key plus_in_choice ≡ key present_and_choice
unfolding key sort str_le join
key_collision = refl

-- The second variant is given the choices of the first.
choices_collide :
    clone_choices (plus_in_choice ∷ present_and_choice ∷ []) (key present_and_choice)
    ≡ ("a", "x+b") ∷ []
unfolding clone_choices key sort str_le join
choices_collide = refl

abbrev other_choice : Variant
other_choice = record absent_variant { choice_assignments = ("a", "y") ∷ [] }

sample_keys-Distinct : Distinct (map key (present_and_choice ∷ other_choice ∷ []))
unfolding key sort str_le join
sample_keys-Distinct = (refl, (refl, tt))

to_plan_query_variants-own_variant_example :
    to_plan_query_variants (λ sql. sql) (present_and_choice ∷ other_choice ∷ [])
    ≡ map (own_variant (λ sql. sql)) (present_and_choice ∷ other_choice ∷ [])
to_plan_query_variants-own_variant_example =
    to_plan_query_variants-own_variant (λ sql. sql) (present_and_choice ∷ other_choice ∷ [])
      sample_keys-Distinct
