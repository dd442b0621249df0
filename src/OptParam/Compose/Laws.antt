-- ===== src/OptParam/Compose/Laws.antt =====
-- What a composition depends on.
use spanalyzer.Prelude.{String, List, [], ◌∷◌, ◌≡◌, refl, ap₂, string_eq, contains}
use spanalyzer.Prelude.Maps.{Map}
use spanalyzer.PlanContract.Target.{◌+++◌}
use spanalyzer.OptParam.Param.{
  SegmentKind, seg_fixed, seg_omit_when_null, seg_omit_when_empty, seg_order_by_choice, Segment,
}
use spanalyzer.OptParam.Compose.{Presence, by_kind, chosen_key, compose_segment, compose_variant}

-- Two presences that agree on which names are present, with the same choices.
module _ (p q : List String) (choices : Map String String)
    (agree : (name : String) → contains p name ≡ contains q name) where
  abbrev with_choices : List String → Presence
  with_choices present = record { present = present; choices = choices }

  by_kind-cong :
      (kind : SegmentKind) (s : Segment)
      → by_kind kind s (with_choices p) ≡ by_kind kind s (with_choices q)
  unfolding chosen_key
  by_kind-cong seg_fixed s = refl
  by_kind-cong seg_omit_when_null s = rw (agree s.param) refl
  by_kind-cong seg_omit_when_empty s = rw (agree s.param) refl
  by_kind-cong seg_order_by_choice s = refl

  pub compose_variant-cong :
      (segments : List Segment)
      → compose_variant segments (with_choices p) ≡ compose_variant segments (with_choices q)
  unfolding compose_variant compose_segment
  compose_variant-cong [] = refl
  compose_variant-cong (s ∷ segments) =
      ap₂ ◌+++◌ (by_kind-cong s.kind s) (compose_variant-cong segments)
