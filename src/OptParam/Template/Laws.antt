-- ===== src/OptParam/Template/Laws.antt =====
-- What the segments of a template hold: a choice segment has its default among its choices.
use spanalyzer.Prelude.{
  String, List, [], ◌∷◌, ◌++◌, ◌<◌, ◌≡◌, ◌∙◌, Bool, true, not, ◌&&◌, ◌||◌, ◌==◌, string_eq, arith,
  contains, any, All, All-append, Bool-cases, inl, inr, length, map, contains-add_new, beq_refl,
}
use spanalyzer.Prelude.Maps.{Map, lookup, keys}
use spanalyzer.Prelude.Order.{string_ord}
use spanalyzer.Prelude.Sorting.{sort, any-sort, length-sort}
use spanalyzer.Prelude.Results.{ok, fail_if, bind-eq-ok, ok_injective, fail_if-eq-ok}
use spanalyzer.OptParam.Param.{
  Param, SegmentKind, seg_fixed, seg_omit_when_null, seg_omit_when_empty, seg_order_by_choice,
  Segment, choices_empty, default_required, default_not_in_choices, mode_beq, mode_mismatch,
}
use spanalyzer.OptParam.Markers.{Marker, find_all_markers}
use spanalyzer.OptParam.NullIsNull.{Lexer, rewrite_null_is_null}
use spanalyzer.OptParam.Template.{
  is_present, is_empty, find_param, block_segment, fixed_part, marker_segment, marker_segments,
  segment_template, index_params, marker_expected_mode, check_markers, marker_names,
}
use spanalyzer.OptParam.Compose.{Axes, add_axis, collect_axes, segment_axes}
use spanalyzer.OptParam.Enumerate.{is_choice, choices_of, choice_axes}
use spanalyzer.OptParam.Enumerate.Limit.{HasKeys, axes_of}

-- A choice segment's default is one of its choices.
abbrev pub HasDefault : Segment → Type 0
HasDefault s = is_choice s.kind ≡ true → is_present (lookup s.default s.choices) ≡ true

fixed_part-HasDefault : (text : String) → All HasDefault (fixed_part text)
fixed_part-HasDefault text = elim (Bool-cases (text == "")) [
  | inl blank ↦ rw blank tt
  | inr given ↦ rw given ((λ h. cc), tt)
]

module _ (lexer : Lexer) where
  block_segment-HasDefault :
      (kind : SegmentKind) (p : Param) (marker : Marker) (s : Segment)
      → block_segment lexer kind p marker ≡ ok s
      → HasDefault s
  unfolding block_segment
  block_segment-HasDefault seg_omit_when_null p marker s e = rw (← ok_injective _ s e) (λ h. cc)
  block_segment-HasDefault seg_omit_when_empty p marker s e = rw (← ok_injective _ s e) (λ h. cc)
  block_segment-HasDefault seg_order_by_choice p marker s e =
      let (_, _, e₁) = bind-eq-ok (fail_if (is_empty p.choices) (choices_empty marker.name)) _ e in
      let (_, _, e₂) = bind-eq-ok (fail_if (p.default == "") (default_required marker.name)) _ e₁ in
      let (_, there, e₃) =
        bind-eq-ok
          (fail_if (not (is_present (lookup p.default p.choices)))
            (default_not_in_choices marker.name p.default))
          _ e₂ in
      let found = fail_if-eq-ok (not (is_present (lookup p.default p.choices))) _ there in
      rw (← ok_injective _ s e₃) (λ h. ground arith)
  block_segment-HasDefault seg_fixed p marker s e =
      let (text, _, e₁) = bind-eq-ok (rewrite_null_is_null lexer marker.body marker.name) _ e in
      rw (← ok_injective _ s e₁) (λ h. cc)

  marker_segment-HasDefault :
      (by_name : Map String Param) (marker : Marker) (s : Segment)
      → marker_segment lexer by_name marker ≡ ok s
      → HasDefault s
  unfolding marker_segment
  marker_segment-HasDefault by_name marker s e =
      let (p, _, e₁) = bind-eq-ok (find_param by_name marker) _ e in
      let ((expected, kind), _, e₂) = bind-eq-ok (marker_expected_mode marker.kind) _ e₁ in
      let (_, _, e₃) =
        bind-eq-ok
          (fail_if (not (mode_beq p.mode expected))
            (mode_mismatch marker.kind marker.name expected p.mode))
          _ e₂ in
      block_segment-HasDefault kind p marker s e₃

  marker_segments-HasDefault :
      (by_name : Map String Param) (markers : List (String × Marker)) (ss : List Segment)
      → marker_segments lexer by_name markers ≡ ok ss
      → All HasDefault ss
  unfolding marker_segments
  marker_segments-HasDefault by_name [] ss e = rw (← ok_injective [] ss e) tt
  marker_segments-HasDefault by_name ((before, marker) ∷ markers) ss e =
      let (s, here, e₁) = bind-eq-ok (marker_segment lexer by_name marker) _ e in
      let (rest, more, e₂) = bind-eq-ok (marker_segments lexer by_name markers) _ e₁ in
      rw (← ok_injective (fixed_part before ++ s ∷ rest) ss e₂) (
        All-append HasDefault (fixed_part before) (s ∷ rest) (fixed_part-HasDefault before) (
          marker_segment-HasDefault by_name marker s here,
          marker_segments-HasDefault by_name markers rest more,
        ))

  -- The choice segments of a template that is accepted have their default among their choices, so that an
  -- absent choice composes to a declared snippet.
  pub segment_template-HasDefault :
      (sql : String) (params : List Param) (segments : List Segment)
      → segment_template lexer sql params ≡ ok segments
      → All HasDefault segments
  unfolding segment_template
  segment_template-HasDefault sql params segments e =
      let found = find_all_markers sql in
      let (by_name, _, e₁) = bind-eq-ok (index_params [] params) _ e in
      let (ss, made, e₂) = bind-eq-ok (marker_segments lexer by_name found.0) _ e₁ in
      let (_, _, e₃) = bind-eq-ok (check_markers (marker_names found.0) params) _ e₂ in
      rw (← ok_injective (ss ++ fixed_part found.1) segments e₃) (
        All-append HasDefault ss (fixed_part found.1)
          (marker_segments-HasDefault by_name found.0 ss made) (fixed_part-HasDefault found.1))

-- A parameter has a choice segment.
abbrev has_choice : List Segment → String → Bool
has_choice segments name = any (λ s. is_choice s.kind && s.param == name) segments

add_axis-choiceable :
    (kind : SegmentKind) (param : String) (axes : Axes) (name : String)
    → contains (add_axis kind param axes).choiceable name
      ≡ (contains axes.choiceable name || (is_choice kind && param == name))
add_axis-choiceable seg_fixed param axes name = ground arith
add_axis-choiceable seg_omit_when_null param axes name = ground arith
add_axis-choiceable seg_omit_when_empty param axes name = ground arith
add_axis-choiceable seg_order_by_choice param axes name =
    contains-add_new axes.choiceable param name

collect_axes-choiceable :
    (segments : List Segment) (axes : Axes) (name : String)
    → contains (collect_axes segments axes).choiceable name
      ≡ (contains axes.choiceable name || has_choice segments name)
unfolding collect_axes
collect_axes-choiceable [] axes name = ground arith
collect_axes-choiceable (s ∷ segments) axes name =
    collect_axes-choiceable segments (add_axis s.kind s.param axes) name
    ∙ ground (arith, add_axis-choiceable s.kind s.param axes name)

present-keys :
    (k : String) (m : Map String String) → is_present (lookup k m) ≡ true → 0 < length (keys m)
present-keys k [] h = cc
present-keys k (p ∷ m) h = omega arith

choices_of-keys :
    (segments : List Segment) (name : String)
    → All HasDefault segments
    → has_choice segments name ≡ true
    → 0 < length (keys (choices_of segments name))
unfolding choices_of
choices_of-keys [] name all h = cc
choices_of-keys (s ∷ segments) name (one, all) h =
    elim (Bool-cases (is_choice s.kind && s.param == name)) [
      | inl here ↦ rw here (present-keys s.default s.choices (one (ground arith)))
      | inr other ↦ rw other (choices_of-keys segments name all (ground arith))
    ]

All-map_of {ℓ} :
    {B : Type ℓ} (P : B → Type 0) (f : String → B) (names : List String)
    → ((name : String) → contains names name ≡ true → P (f name))
    → All P (map f names)
All-map_of P f [] h = tt
All-map_of P f (n ∷ names) h = (
  h n (ground (arith, beq_refl n)),
  All-map_of P f names (λ name found. h name (ground (arith, found))),
)

-- The axes of an accepted template all have a choice.
axes_of-HasKeys :
    (segments : List Segment) → All HasDefault segments → All HasKeys (axes_of segments)
unfolding choice_axes segment_axes
axes_of-HasKeys segments all =
    let names = (collect_axes segments (record { gateable = []; choiceable = [] })).choiceable in
    All-map_of HasKeys _ (sort names) (λ name found.
      rw (length-sort (keys (choices_of segments name))) (
        choices_of-keys segments name all (
          ground (
            arith,
            any-sort (λ x. x == name) names,
            collect_axes-choiceable segments (record { gateable = []; choiceable = [] }) name,
            found,
          ))))

-- The axes that a template gives each have a choice, so that the number of variants is never divided by
-- zero.
pub segment_template-HasKeys :
    (lexer : Lexer) (sql : String) (params : List Param) (segments : List Segment)
    → segment_template lexer sql params ≡ ok segments
    → All HasKeys (axes_of segments)
segment_template-HasKeys lexer sql params segments e =
    axes_of-HasKeys segments (segment_template-HasDefault lexer sql params segments e)
