-- ===== src/Text/Laws.antt =====
-- What the text functions guarantee.
use spanalyzer.Prelude.{String, ◌≡◌, refl, true, [], ◌∷◌, arith, string_eq, ap, ◌∙◌}
use text.Mathlib.TextEquality.{eq_iff}
use spanalyzer.Text.{trim_left, trim_right, trim_space, to_lower, fields, equal_fold}

trim_left_idem : (s : String) → trim_left (trim_left s) ≡ trim_left s
unfolding trim_left
trim_left_idem String.[] = refl
trim_left_idem (String.◌∷◌ c s) = ground (arith, trim_left_idem s)

trim_right_idem : (s : String) → trim_right (trim_right s) ≡ trim_right s
unfolding trim_right
trim_right_idem String.[] = refl
trim_right_idem (String.◌∷◌ c s) = ground (arith, trim_right_idem s, eq_iff (trim_right s) "")

trim_left-trim_right :
    (s : String) → trim_left (trim_right (trim_left s)) ≡ trim_right (trim_left s)
unfolding trim_left trim_right
trim_left-trim_right String.[] = refl
trim_left-trim_right (String.◌∷◌ c s) = ground (arith, trim_left-trim_right s)

pub trim_space_idem : (s : String) → trim_space (trim_space s) ≡ trim_space s
unfolding trim_space
trim_space_idem s = ap trim_right (trim_left-trim_right s) ∙ trim_right_idem (trim_left s)

tests :
    (trim_space "  a b\t\n" ≡ "a b")
    × (fields " a  b " ≡ "a" ∷ "b" ∷ [])
    × (to_lower "Hash Join" ≡ "hash join")
    × (equal_fold "mAp" "Map" ≡ true)
unfolding trim_space fields to_lower equal_fold
tests = (refl, refl, refl, refl)
