-- ===== src/OptParam/Enumerate/Limit.antt =====
-- How many variants there are, and when there are too many.
use spanalyzer.Prelude.{
  String, List, [], ◌∷◌, ℕ, zero, suc, ◌*◌, ◌/◌, ◌<◌, ◌≤◌, ◌≡◌, refl, sym, ◌∙◌, ap, ap₂, false,
  arith, length, length-append, ltb, All,
}
use native.Mathlib.Nat.{le-div_iff_mul-le, le_trans, mul-pos, le-mul_of_pos_right}
use spanalyzer.Prelude.Order.{string_ord}
use spanalyzer.Prelude.Sorting.{length-sort_by}
use spanalyzer.Prelude.Results.{ok, fail_if, bind-eq-ok, ok_injective, fail_if-eq-ok}
use spanalyzer.OptParam.Param.{Segment, Variant, variant_limit}
use spanalyzer.OptParam.Compose.{key, segment_axes}
use spanalyzer.OptParam.Enumerate.{
  max_enumerated_variants, ChoiceAxis, choice_axes, presence_total, choice_total, variant_at,
  variants_for, all_variants, enumerate_segments,
}

-- The sizes of the two factors.
abbrev pub product_of : List ChoiceAxis → ℕ
product_of [] = 1
product_of (axis ∷ axes) = length axis.keys * product_of axes

abbrev pub subsets_of : List String → ℕ
subsets_of [] = 1
subsets_of (name ∷ names) = 2 * subsets_of names

abbrev pub size_of : List Segment → ℕ
size_of segments =
    subsets_of (segment_axes segments).gateable
    * product_of (choice_axes segments (segment_axes segments).choiceable)

presence_total-value :
    (names : List String) (total n : ℕ)
    → presence_total names total ≡ ok n
    → n ≡ total * subsets_of names
unfolding presence_total
presence_total-value [] total n e = ground (arith, ok_injective total n e)
presence_total-value (name ∷ names) total n e =
    let (_, _, e₁) =
      bind-eq-ok (fail_if (ltb (max_enumerated_variants / 2) total) variant_limit) _ e in
    presence_total-value names (total * 2) n e₁ ∙ omega arith

choice_total-value :
    (axes : List ChoiceAxis) (total n : ℕ)
    → choice_total axes total ≡ ok n
    → n ≡ total * product_of axes
unfolding choice_total
choice_total-value [] total n e = ground (arith, ok_injective total n e)
choice_total-value (axis ∷ axes) total n e =
    let (_, _, e₁) =
      bind-eq-ok (fail_if (ltb (max_enumerated_variants / length axis.keys) total) variant_limit) _
        e in
    choice_total-value axes (total * length axis.keys) n e₁ ∙ omega arith

length-variants_for : (f : ℕ → Variant) (n : ℕ) → length (variants_for f n) ≡ n
unfolding variants_for
length-variants_for f zero = refl
length-variants_for f (suc n) =
    length-append (variants_for f n) (f n ∷ []) ∙ omega (arith, length-variants_for f n)

length-all_variants :
    (f : ℕ → ℕ → Variant) (n choices : ℕ) → length (all_variants f n choices) ≡ n * choices
unfolding all_variants
length-all_variants f zero choices = omega arith
length-all_variants f (suc n) choices =
    length-append (all_variants f n choices) (variants_for (f n) choices)
    ∙ omega (arith, length-all_variants f n choices, length-variants_for (f n) choices)

-- An axis with a choice; `SegmentTemplate` makes no other.
abbrev pub HasKeys : ChoiceAxis → Type 0
HasKeys axis = 0 < length axis.keys

subsets_positive : (names : List String) → 0 < subsets_of names
subsets_positive [] = omega arith
subsets_positive (name ∷ names) = omega (arith, subsets_positive names)

product_positive : (axes : List ChoiceAxis) → All HasKeys axes → 0 < product_of axes
product_positive [] all = omega arith
product_positive (axis ∷ axes) (one, all) = mul-pos one (product_positive axes all)

presence_total-within :
    (names : List String) (total : ℕ)
    → total * subsets_of names ≤ max_enumerated_variants
    → presence_total names total ≡ ok (total * subsets_of names)
unfolding presence_total
presence_total-within [] total h = ap ok (omega arith)
presence_total-within (name ∷ names) total h =
    let bound : total * 2 * subsets_of names ≤ max_enumerated_variants = omega (arith, h) in
    let small : total * 2 ≤ max_enumerated_variants =
      le_trans (le-mul_of_pos_right (total * 2) (subsets_positive names)) bound in
    let test : ltb (max_enumerated_variants / 2) total ≡ false = ground (arith, small) in
    rw test (presence_total-within names (total * 2) bound ∙ ap ok (omega arith))

choice_total-within :
    (axes : List ChoiceAxis) (total : ℕ)
    → All HasKeys axes
    → total * product_of axes ≤ max_enumerated_variants
    → choice_total axes total ≡ ok (total * product_of axes)
unfolding choice_total
choice_total-within [] total all h = ap ok (omega arith)
choice_total-within (axis ∷ axes) total (one, all) h =
    let n = length axis.keys in
    let bound : total * n * product_of axes ≤ max_enumerated_variants = omega (arith, h) in
    let small : total * n ≤ max_enumerated_variants =
      le_trans (le-mul_of_pos_right (total * n) (product_positive axes all)) bound in
    let below : total ≤ max_enumerated_variants / n = (le-div_iff_mul-le one).1 small in
    let test : ltb (max_enumerated_variants / n) total ≡ false = ground (arith, below) in
    rw test (choice_total-within axes (total * n) all bound ∙ ap ok (omega arith))

-- The choices of some segments by parameter, as `EnumerateVariants` multiplies them.
abbrev pub axes_of : List Segment → List ChoiceAxis
axes_of segments = choice_axes segments (segment_axes segments).choiceable

-- Where every axis has a choice and `EnumerateVariants` succeeds, it gives as many variants as there are
-- subsets of the optional parameters times choices of snippets, and these are within the limit.
pub enumerate_segments-size :
    (segments : List Segment) (variants : List Variant)
    → All HasKeys (axes_of segments)
    → enumerate_segments segments ≡ ok variants
    → (length variants ≡ size_of segments) × (size_of segments ≤ max_enumerated_variants)
unfolding enumerate_segments
enumerate_segments-size segments variants all e =
    let gateable = (segment_axes segments).gateable in
    let axes = axes_of segments in
    let (presences, p, e₁) = bind-eq-ok (presence_total gateable 1) _ e in
    let (combinations, c, e₂) = bind-eq-ok (choice_total axes 1) _ e₁ in
    let (_, small, e₃) =
      bind-eq-ok (fail_if (ltb (max_enumerated_variants / combinations) presences) variant_limit) _
        e₂ in
    let products = all_variants (variant_at segments gateable axes) presences combinations in
    let count =
      length-sort_by key products
      ∙ length-all_variants (variant_at segments gateable axes) presences combinations in
    let pv = presence_total-value gateable 1 presences p in
    let cv = choice_total-value axes 1 combinations c in
    let test =
      fail_if-eq-ok (ltb (max_enumerated_variants / combinations) presences) variant_limit small in
    let positive : 0 < combinations = omega (arith, cv, product_positive axes all) in
    let below : presences ≤ max_enumerated_variants / combinations = ground (arith, test) in
    let bound = (le-div_iff_mul-le positive).0 below in
    let whole : presences * combinations ≡ size_of segments =
      ap₂ ◌*◌ (pv ∙ omega arith) (cv ∙ omega arith) in
    (ap length (sym (ok_injective _ variants e₃)) ∙ count ∙ whole, omega (arith, bound, whole))

-- Where every axis has a choice and the number of points is within the limit, `EnumerateVariants`
-- succeeds: no partial product exceeds the limit where the whole does not.
pub enumerate_segments-within :
    (segments : List Segment)
    → All HasKeys (axes_of segments)
    → size_of segments ≤ max_enumerated_variants
    → (variants : List Variant) × (enumerate_segments segments ≡ ok variants)
unfolding enumerate_segments
enumerate_segments-within segments all h =
    let gateable = (segment_axes segments).gateable in
    let axes = axes_of segments in
    let many = subsets_positive gateable in
    let positive = product_positive axes all in
    let first : 1 * subsets_of gateable ≤ max_enumerated_variants =
      omega (arith, le_trans (le-mul_of_pos_right (subsets_of gateable) positive) h) in
    let second : 1 * product_of axes ≤ max_enumerated_variants =
      omega (arith, h, le-mul_of_pos_right (product_of axes) many) in
    let one : 0 < 1 * product_of axes = omega (arith, positive) in
    let below : 1 * subsets_of gateable ≤ max_enumerated_variants / (1 * product_of axes) =
      (le-div_iff_mul-le one).1 (omega (arith, h)) in
    let test : ltb (max_enumerated_variants / (1 * product_of axes)) (1 * subsets_of gateable)
        ≡ false =
      ground (arith, below) in
    rw (presence_total-within gateable 1 first, choice_total-within axes 1 all second, test)
      (_, refl)
