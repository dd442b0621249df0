-- ===== src/OptParam/Plan/Laws.antt =====
-- When the variants of the plan have their own choices.
use spanalyzer.Prelude.{
  String, List, [], ◌∷◌, ◌≡◌, refl, ◌∙◌, ap, ap₂, true, false, ◌==◌, string_eq, map, arith,
  contains, Distinct, beq_refl, beq_comm, All,
}
use spanalyzer.OptParam.Param.{Variant}
use spanalyzer.OptParam.Compose.{key}
use spanalyzer.OptParam.Plan.{
  CodegenVariant, clone_choices, plan_variant, codegen_variant, build_plan_variants,
  to_plan_query_variants,
}

-- A variant with the choices that it was made with.
abbrev pub own_variant : (String → String) → Variant → CodegenVariant
own_variant sha256_hex v = record {
  label = key v;
  sql = v.sql;
  sql_sha256 = sha256_hex v.sql;
  present_params = v.present_params;
  absent_params = v.absent_params;
  choice_assignments = v.choice_assignments;
}

clone_choices_head :
    (v : Variant) (variants : List Variant) (label : String)
    → (key v == label) ≡ true
    → clone_choices (v ∷ variants) label ≡ v.choice_assignments
unfolding clone_choices
clone_choices_head v variants label h = rw h refl

clone_choices_tail :
    (v : Variant) (variants : List Variant) (label : String)
    → (key v == label) ≡ false
    → clone_choices (v ∷ variants) label ≡ clone_choices variants label
unfolding clone_choices
clone_choices_tail v variants label h = rw h refl

-- The variants of a list find their own choices in a longer one that has no other of their keys.
abbrev Finds : List Variant → List Variant → Type 0
Finds all variants = All (λ v. clone_choices all (key v) ≡ v.choice_assignments) variants

Finds-cons :
    (v : Variant) (all variants : List Variant)
    → contains (map key variants) (key v) ≡ false
    → Finds all variants
    → Finds (v ∷ all) variants
Finds-cons v all [] h f = tt
Finds-cons v all (w ∷ variants) h (f, fs) = (
  clone_choices_tail v all (key w) (ground (arith, beq_comm (key v) (key w))) ∙ f,
  Finds-cons v all variants (ground arith) fs,
)

Finds-self : (variants : List Variant) → Distinct (map key variants) → Finds variants variants
Finds-self [] d = tt
Finds-self (v ∷ variants) (h, d) = (
  clone_choices_head v variants (key v) (beq_refl (key v)),
  Finds-cons v variants variants h (Finds-self variants d),
)

map-Finds :
    (sha256_hex : String → String) (all variants : List Variant)
    → Finds all variants
    → map (codegen_variant sha256_hex all) (map (plan_variant sha256_hex) variants)
      ≡ map (own_variant sha256_hex) variants
map-Finds sha256_hex all [] f = refl
map-Finds sha256_hex all (v ∷ variants) (f, fs) =
    ap₂ ◌∷◌ (ap (λ c. record (own_variant sha256_hex v) { choice_assignments = c }) f)
      (map-Finds sha256_hex all variants fs)

-- Where the variants of a query have distinct keys, the plan has one entry for each, in order, with
-- its own text, digest, parameters and choices.
pub to_plan_query_variants-own_variant :
    (sha256_hex : String → String) (variants : List Variant)
    → Distinct (map key variants)
    → to_plan_query_variants sha256_hex variants ≡ map (own_variant sha256_hex) variants
unfolding to_plan_query_variants build_plan_variants
to_plan_query_variants-own_variant sha256_hex variants d =
    map-Finds sha256_hex variants variants (Finds-self variants d)
