-- ===== src/OptParam/Param.antt =====
-- internal/optparam/optparam.go: parameters, segments, variants and errors.
use spanalyzer.Prelude.{String, List, [], Bool, true, false, string_eq}
use spanalyzer.Prelude.Maps.{Map}

pub data Mode : Type 0 where
  mode_required mode_null_is_null mode_omit_when_null mode_omit_when_empty : Mode
  mode_order_by_choice : Mode

pub record Param : Type 0 where
  pub name : String
  pub type_spec : String
  pub mode : Mode
  pub choices : Map String String
  pub default : String

pub data SegmentKind : Type 0 where
  seg_fixed seg_omit_when_null seg_omit_when_empty seg_order_by_choice : SegmentKind

pub record Segment : Type 0 where
  pub kind : SegmentKind
  pub text : String
  pub param : String
  pub choices : Map String String
  pub default : String

-- `Segment{Kind: SegFixed, Text: text}`
abbrev pub fixed_segment : String → Segment
fixed_segment text = record {
  kind = seg_fixed;
  text = text;
  param = "";
  choices = [];
  default = "";
}

pub record Variant : Type 0 where
  pub sql : String
  pub present_params : List String
  pub absent_params : List String
  pub choice_assignments : Map String String

pub data Error : Type 0 where
  name_required variant_limit no_variants : Error
  duplicate_param choices_empty default_required lex_error : String → Error
  unknown_param default_not_in_choices null_is_null_missing : String → String → Error
  unknown_marker_kind : String → Error
  mode_mismatch : String → String → Mode → Mode → Error
  marker_missing : String → Mode → Error
  round_trip_mismatch : String → Error
  analysis_failed row_type_mismatch : String → Error
  unmapped_type unsupported_mode not_an_array no_param_entry : String → Error

abbrev pub mode_beq : Mode → Mode → Bool
mode_beq mode_required mode_required = true
mode_beq mode_null_is_null mode_null_is_null = true
mode_beq mode_omit_when_null mode_omit_when_null = true
mode_beq mode_omit_when_empty mode_omit_when_empty = true
mode_beq mode_order_by_choice mode_order_by_choice = true
mode_beq _ _ = false
