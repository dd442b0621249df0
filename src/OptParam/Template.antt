-- ===== src/OptParam/Template.antt =====
-- internal/optparam/optparam.go: `SegmentTemplate`.
pub mod Laws
use spanalyzer.Prelude.{
  String, List, [], ◌∷◌, ◌++◌, Bool, true, false, not, ◌||◌, Option, none, some, if◌then◌else◌,
  ◌==◌, string_eq, contains,
}
use spanalyzer.Prelude.Maps.{Map, lookup, insert}
use spanalyzer.Prelude.Results.{Result, ok, err, ◌>>=◌, ◌>>◌, fail_if}
use spanalyzer.OptParam.Param.{
  Mode, mode_required, mode_null_is_null, mode_omit_when_null, mode_omit_when_empty,
  mode_order_by_choice, Param, SegmentKind, seg_fixed, seg_omit_when_null, seg_omit_when_empty,
  seg_order_by_choice, Segment, fixed_segment, Error, name_required, duplicate_param, choices_empty,
  default_required, unknown_param, default_not_in_choices, unknown_marker_kind, mode_mismatch,
  marker_missing, mode_beq,
}
use spanalyzer.OptParam.Markers.{Marker, find_all_markers}
use spanalyzer.OptParam.NullIsNull.{Lexer, rewrite_null_is_null}

abbrev pub is_present {ℓ} : {A : Type ℓ} → Option A → Bool
is_present none = false
is_present (some a) = true

-- The loop that fills `byName`.
unfoldable pub index_params : Map String Param → List Param → Result Error (Map String Param)
index_params by_name [] = ok by_name
index_params by_name (p ∷ params) = do
  fail_if (p.name == "") name_required
  fail_if (is_present (lookup p.name by_name)) (duplicate_param p.name)
  index_params (insert p.name p by_name) params

unfoldable pub marker_expected_mode : String → Result Error (Mode × SegmentKind)
marker_expected_mode kind =
    if kind == "optional"
    then ok (mode_omit_when_null, seg_omit_when_null)
    else if kind == "empty"
    then ok (mode_omit_when_empty, seg_omit_when_empty)
    else if kind == "null_is_null"
    then ok (mode_null_is_null, seg_fixed)
    else if kind == "orderby"
    then ok (mode_order_by_choice, seg_order_by_choice)
    else err (unknown_marker_kind kind)

abbrev is_empty {ℓ} : {A : Type ℓ} → List A → Bool
is_empty [] = true
is_empty (x ∷ xs) = false

abbrev pub find_param : Map String Param → Marker → Result Error Param
find_param by_name marker = elim (lookup marker.name by_name) [
  | none ↦ err (unknown_param marker.kind marker.name)
  | some p ↦ ok p
]

-- `if m[0] > prev { … }`, and the same for the text behind the last match
abbrev pub fixed_part : String → List Segment
fixed_part text = if text == "" then [] else fixed_segment text ∷ []

abbrev needs_marker : Mode → Bool
needs_marker mode_omit_when_null = true
needs_marker mode_omit_when_empty = true
needs_marker mode_order_by_choice = true
needs_marker _ = false

-- `seenBlock`
abbrev pub marker_names : List (String × Marker) → List String
marker_names [] = []
marker_names ((before, marker) ∷ markers) = marker.name ∷ marker_names markers

-- The last loop: a mode that changes the SQL needs its marker.
unfoldable pub check_markers : List String → List Param → Result Error (Unit {0})
check_markers seen [] = ok tt
check_markers seen (p ∷ params) = do
  fail_if (if needs_marker p.mode then not (contains seen p.name) else false)
      (marker_missing p.name p.mode)
  check_markers seen params

module _ (lexer : Lexer) where
  -- The `switch segKind`.
  unfoldable pub block_segment : SegmentKind → Param → Marker → Result Error Segment
  block_segment seg_omit_when_null p marker =
      ok (record (fixed_segment marker.body) { kind = seg_omit_when_null; param = marker.name })
  block_segment seg_omit_when_empty p marker =
      ok (record (fixed_segment marker.body) { kind = seg_omit_when_empty; param = marker.name })
  block_segment seg_order_by_choice p marker = do
    fail_if (is_empty p.choices) (choices_empty marker.name)
    fail_if (p.default == "") (default_required marker.name)
    fail_if (not (is_present (lookup p.default p.choices)))
        (default_not_in_choices marker.name p.default)
    ok (record {
      kind = seg_order_by_choice;
      text = marker.body;
      param = marker.name;
      choices = p.choices;
      default = p.default;
    })
  block_segment seg_fixed p marker = do
    text ← rewrite_null_is_null lexer marker.body marker.name
    ok (fixed_segment text)

  -- The body of the loop over the matches.
  unfoldable pub marker_segment : Map String Param → Marker → Result Error Segment
  marker_segment by_name marker = do
    p ← find_param by_name marker
    (expected, kind) ← marker_expected_mode marker.kind
    fail_if (not (mode_beq p.mode expected)) (mode_mismatch marker.kind marker.name expected p.mode)
    block_segment kind p marker

  unfoldable pub marker_segments :
      Map String Param → List (String × Marker) → Result Error (List Segment)
  marker_segments by_name [] = ok []
  marker_segments by_name ((before, marker) ∷ markers) = do
    segment ← marker_segment by_name marker
    rest ← marker_segments by_name markers
    ok (fixed_part before ++ segment ∷ rest)

  unfoldable pub segment_template : String → List Param → Result Error (List Segment)
  segment_template sql params = do
    by_name ← index_params [] params
    let found = find_all_markers sql
    segments ← marker_segments by_name found.0
    check_markers (marker_names found.0) params
    ok (segments ++ fixed_part found.1)
