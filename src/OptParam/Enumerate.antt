-- ===== src/OptParam/Enumerate.antt =====
-- internal/optparam/optparam.go: `EnumerateVariants`, the product of all presences and all choices.
pub mod Laws
pub mod Limit
use spanalyzer.Prelude.{
  String, List, [], ◌∷◌, ◌++◌, ℕ, zero, suc, ◌+◌, ◌*◌, ◌/◌, ◌%◌, ◌^◌, Bool, true, false, not, ◌&&◌,
  map, if◌then◌else◌, ◌==◌, string_eq, contains, select, length, ltb, nat_beq,
}
use spanalyzer.Prelude.Maps.{Map, insert, keys}
use spanalyzer.Prelude.Order.{string_ord}
use spanalyzer.Prelude.Sorting.{sort, sort_by}
use spanalyzer.Prelude.Results.{Result, ok, err, ◌>>=◌, ◌>>◌, fail_if}
use spanalyzer.OptParam.Param.{
  Param, SegmentKind, seg_order_by_choice, seg_fixed, Segment, Variant, Error, variant_limit,
}
use spanalyzer.OptParam.NullIsNull.{Lexer}
use spanalyzer.OptParam.Template.{segment_template}
use spanalyzer.OptParam.Compose.{Presence, compose_variant, key, Axes, segment_axes}

abbrev pub max_enumerated_variants : ℕ
max_enumerated_variants = 4096

pub record ChoiceAxis : Type 0 where
  pub param : String
  pub keys : List String

abbrev pub is_choice : SegmentKind → Bool
is_choice seg_order_by_choice = true
is_choice _ = false

-- The choices of the first choice segment of a parameter; there is one for every name in use.
unfoldable pub choices_of : List Segment → String → Map String String
choices_of [] name = []
choices_of (s ∷ segments) name =
    let rest = choices_of segments name in
    if is_choice s.kind && s.param == name then s.choices else rest

unfoldable pub choice_axes : List Segment → List String → List ChoiceAxis
unfolding choices_of
choice_axes segments names =
    map (λ name. record { param = name; keys = sort (keys (choices_of segments name)) }) names

-- The loop that doubles `presenceTotal`.
unfoldable pub presence_total : List String → ℕ → Result Error ℕ
presence_total [] total = ok total
presence_total (name ∷ names) total = do
  fail_if (ltb (max_enumerated_variants / 2) total) variant_limit
  presence_total names (total * 2)

-- The loop that multiplies `choiceTotal`.
unfoldable pub choice_total : List ChoiceAxis → ℕ → Result Error ℕ
choice_total [] total = ok total
choice_total (axis ∷ axes) total = do
  fail_if (ltb (max_enumerated_variants / length axis.keys) total) variant_limit
  choice_total axes (total * length axis.keys)

-- `present`: the names whose bit is set in `mask`, from bit 0 on.
unfoldable pub present_names : List String → ℕ → List String
present_names [] mask = []
present_names (name ∷ names) mask =
    let rest = present_names names (mask / 2) in if nat_beq (mask % 2) 1 then name ∷ rest else rest

nth_key : List String → ℕ → String
nth_key [] n = ""
nth_key (k ∷ ks) zero = k
nth_key (k ∷ ks) (suc n) = nth_key ks n

-- The mixed-radix digits of `c`.
unfoldable pub assign_choices : List ChoiceAxis → ℕ → Map String String → Map String String
unfolding nth_key
assign_choices [] c choices = choices
assign_choices (axis ∷ axes) c choices =
    assign_choices axes (c / length axis.keys)
      (insert axis.param (nth_key axis.keys (c % length axis.keys)) choices)

-- The variant of one product point.
unfoldable pub variant_at : List Segment → List String → List ChoiceAxis → ℕ → ℕ → Variant
variant_at segments gateable axes mask c =
    let present = present_names gateable mask in
    let choices = assign_choices axes c [] in
    record {
      sql = compose_variant segments (record { present = present; choices = choices });
      present_params = select (λ name. contains present name) gateable;
      absent_params = select (λ name. not (contains present name)) gateable;
      choice_assignments = choices;
    }

-- `for c := range choiceTotal`, counting up to `n` from the last.
unfoldable pub variants_for : (ℕ → Variant) → ℕ → List Variant
variants_for f zero = []
variants_for f (suc n) = variants_for f n ++ f n ∷ []

unfoldable pub all_variants : (ℕ → ℕ → Variant) → ℕ → ℕ → List Variant
unfolding variants_for
all_variants f zero choice_total = []
all_variants f (suc n) choice_total =
    all_variants f n choice_total ++ variants_for (f n) choice_total

-- The product behind the limit.
unfoldable pub enumerate_segments : List Segment → Result Error (List Variant)
enumerate_segments segments = do
  let axes = segment_axes segments
  let choices = choice_axes segments axes.choiceable
  presences ← presence_total axes.gateable 1
  combinations ← choice_total choices 1
  fail_if (ltb (max_enumerated_variants / combinations) presences) variant_limit
  ok (sort_by key (all_variants (variant_at segments axes.gateable choices) presences combinations))

unfoldable pub enumerate_variants : Lexer → String → List Param → Result Error (List Variant)
enumerate_variants lexer sql params = do
  segments ← segment_template lexer sql params
  enumerate_segments segments
