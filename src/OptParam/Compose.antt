-- ===== src/OptParam/Compose.antt =====
-- internal/optparam/optparam.go: `ComposeVariant`, `segmentAxes` and a variant's key.
pub mod Laws
use Prim.Native.String
use spanalyzer.Prelude.{
  String, List, [], ◌∷◌, ◌++◌, Bool, true, false, Option, none, some, map, if◌then◌else◌, ◌==◌,
  string_eq, contains, add_new,
}
use spanalyzer.Prelude.Maps.{Map, lookup_or}
use spanalyzer.Prelude.Order.{string_ord}
use spanalyzer.Prelude.Sorting.{sort}
use spanalyzer.Text.{join}
use spanalyzer.PlanContract.Target.{◌+++◌}
use spanalyzer.OptParam.Param.{
  seg_fixed, seg_omit_when_null, seg_omit_when_empty, seg_order_by_choice, SegmentKind, Segment,
  Variant,
}

-- `Present` is the set of the names that map to true.
pub record Presence : Type 0 where
  pub present : List String
  pub choices : Map String String

-- The key that selects a choice.
unfoldable pub chosen_key : Segment → Presence → String
chosen_key s p = let key = lookup_or "" s.param p.choices in if key == "" then s.default else key

-- What one segment writes.
abbrev by_kind : SegmentKind → Segment → Presence → String
by_kind seg_fixed s p = s.text
by_kind seg_omit_when_null s p = if contains p.present s.param then s.text else ""
by_kind seg_omit_when_empty s p = if contains p.present s.param then s.text else ""
by_kind seg_order_by_choice s p = lookup_or "" (chosen_key s p) s.choices

unfoldable pub compose_segment : Segment → Presence → String
compose_segment s p = by_kind s.kind s p

unfoldable pub compose_variant : List Segment → Presence → String
unfolding compose_segment chosen_key
compose_variant [] p = ""
compose_variant (s ∷ segments) p = compose_segment s p +++ compose_variant segments p

label_of : List String → String
label_of [] = "(none)"
label_of (part ∷ parts) = join (part ∷ parts) "+"

-- `Variant.Key`
unfoldable pub key : Variant → String
unfolding label_of
key v =
    label_of (
      sort (v.present_params ++ map (λ choice. choice.0 +++ "=" +++ choice.1) v.choice_assignments))

-- `gateable` and `choiceable`, before they are sorted.
pub record Axes : Type 0 where
  pub gateable : List String
  pub choiceable : List String

abbrev pub add_axis : SegmentKind → String → Axes → Axes
add_axis seg_fixed name axes = axes
add_axis seg_omit_when_null name axes = record axes { gateable = add_new axes.gateable name }
add_axis seg_omit_when_empty name axes = record axes { gateable = add_new axes.gateable name }
add_axis seg_order_by_choice name axes = record axes { choiceable = add_new axes.choiceable name }

unfoldable pub collect_axes : List Segment → Axes → Axes
collect_axes [] axes = axes
collect_axes (s ∷ segments) axes = collect_axes segments (add_axis s.kind s.param axes)

unfoldable pub segment_axes : List Segment → Axes
unfolding collect_axes
segment_axes segments =
    let axes = collect_axes segments (record { gateable = []; choiceable = [] }) in
    record { gateable = sort axes.gateable; choiceable = sort axes.choiceable }
