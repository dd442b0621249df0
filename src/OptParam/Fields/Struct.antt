-- ===== src/OptParam/Fields/Struct.antt =====
-- Each parameter has at most one field in the generated struct.
use spanalyzer.Prelude.{
  String, List, [], ◌∷◌, ◌++◌, ◌≡◌, refl, sym, ◌∙◌, ap, ap₂, subst, Bool, true, false, not, ◌&&◌,
  ◌||◌, ◌==◌, string_eq, Option, none, some, map, arith, contains, any, any-append, All, Bool-cases,
  Option-cases, inl, inr, Distinct, eq_of_beq,
}
use spanalyzer.Prelude.Order.{string_ord}
use spanalyzer.Prelude.Sorting.{sort, any-sort, Distinct-sort}
use spanalyzer.Prelude.Results.{Result, ok, traverse, bind-eq-ok, ok_injective}
use spanalyzer.OptParam.Param.{
  Param, Segment, Error, Mode, mode_beq, mode_required, mode_null_is_null, mode_omit_when_null,
  mode_omit_when_empty, mode_order_by_choice,
}
use spanalyzer.OptParam.Fields.{
  is_fixed, field_names, null_is_null_params, go_field_type, go_nullable_type, type_by_mode,
  export_ident, param_named, declare, struct_fields,
}
use spanalyzer.OptParam.Fields.Laws.{Distinct-append, field_names-Distinct}

abbrev names_of : List Param → List String
names_of params = map (λ p. p.name) params

abbrev is_nullable : Param → Bool
is_nullable p = mode_beq p.mode mode_null_is_null

contains-null_is_null_params :
    (params : List Param) (name : String)
    → contains (null_is_null_params params) name ≡ any (λ p. is_nullable p && p.name == name) params
unfolding null_is_null_params
contains-null_is_null_params [] name = refl
contains-null_is_null_params (p ∷ params) name =
    ground (arith, contains-null_is_null_params params name)

named-null_is_null_params :
    (params : List Param) (name : String)
    → contains (null_is_null_params params) name ≡ true
    → contains (names_of params) name ≡ true
unfolding null_is_null_params
named-null_is_null_params [] name h = cc
named-null_is_null_params (p ∷ params) name h =
    ground (arith, named-null_is_null_params params name)

null_is_null_params-Distinct :
    (params : List Param) → Distinct (names_of params) → Distinct (null_is_null_params params)
unfolding null_is_null_params
null_is_null_params-Distinct [] d = tt
null_is_null_params-Distinct (p ∷ params) (new, d) = elim (Bool-cases (is_nullable p)) [
  | inl nullable ↦ rw nullable (
    ground (arith, new, named-null_is_null_params params p.name),
    null_is_null_params-Distinct params d,
  )
  | inr other ↦ rw other (null_is_null_params-Distinct params d)
]

param_named-none :
    (name : String) (params : List Param)
    → contains (names_of params) name ≡ false
    → param_named name params ≡ none
unfolding param_named
param_named-none name [] h = refl
param_named-none name (p ∷ params) h =
    rw (param_named-none name params (ground arith)) (ground arith)

-- A nullable parameter is the one that its name leads to.
param_named-nullable :
    (name : String) (params : List Param)
    → Distinct (names_of params)
    → contains (null_is_null_params params) name ≡ true
    → (p : Param) × (param_named name params ≡ some p) × (is_nullable p ≡ true)
unfolding param_named null_is_null_params
param_named-nullable name [] d h = cc
param_named-nullable name (p ∷ params) (new, d) h = elim (Bool-cases (p.name == name)) [
  | inl same ↦
      let gone : contains (names_of params) name ≡ false =
        subst (λ n. contains (names_of params) n ≡ false) (eq_of_beq p.name name same) new in
      (
        p,
        rw (param_named-none name params gone, same) refl,
        ground (arith, gone, named-null_is_null_params params name),
      )
  | inr other ↦
      let (q, found, nullable) = param_named-nullable name params d (ground (arith, other)) in
      (q, rw found refl, nullable)
]

-- A field with a type of the first loop is not that of a nullable parameter.
type_by_mode-not_nullable :
    (mode : Mode) (p : Param) {go_type : String}
    → type_by_mode mode p ≡ ok go_type
    → mode_beq mode mode_null_is_null ≡ false
type_by_mode-not_nullable mode_required p h = refl
type_by_mode-not_nullable mode_null_is_null p h = cc
type_by_mode-not_nullable mode_omit_when_null p h = refl
type_by_mode-not_nullable mode_omit_when_empty p h = refl
type_by_mode-not_nullable mode_order_by_choice p h = refl

go_field_type-not_nullable :
    (p : Param) {go_type : String} → go_field_type p ≡ ok go_type → is_nullable p ≡ false
unfolding go_field_type
go_field_type-not_nullable p {go_type} h = type_by_mode-not_nullable p.mode p {go_type = go_type} h

-- What the loops declare: the exported names, in order, of parameters that have a type.
abbrev IsDeclared : (Param → Result Error String) → List Param → String → Type 0
IsDeclared type_of params name =
    (p : Param) × (go_type : String) × (param_named name params ≡ some p) × (type_of p ≡ ok go_type)

declare-IsDeclared :
    (type_of : Param → Result Error String) (params : List Param) (name : String)
    (field : String × String)
    → declare type_of params name ≡ ok field
    → (field.0 ≡ export_ident name) × IsDeclared type_of params name
unfolding declare
declare-IsDeclared type_of params name field h = elim (Option-cases (param_named name params)) [
  | inl missing ↦ absurd (cc (rw missing at h))
  | inr (p, found) ↦
      let (go_type, typed, made) = bind-eq-ok (type_of p) _ (rw found at h) in
      (
        ap (λ f. f.0) (sym (ok_injective (export_ident name, go_type) field made)),
        (p, go_type, found, typed),
      )
]

traverse-IsDeclared :
    (type_of : Param → Result Error String) (params : List Param) (names : List String)
    {fields : List (String × String)}
    → traverse (declare type_of params) names ≡ ok fields
    → (map (λ f. f.0) fields ≡ map export_ident names) × All (IsDeclared type_of params) names
traverse-IsDeclared type_of params [] {fields} h =
    (ap (map (λ f. f.0)) (sym (ok_injective [] fields h)), tt)
traverse-IsDeclared type_of params (name ∷ names) {fields} h =
    let (field, here, more) = bind-eq-ok (declare type_of params name) _ h in
    let (rest, later, whole) = bind-eq-ok (traverse (declare type_of params) names) _ more in
    let (same, one) = declare-IsDeclared type_of params name field here in
    let (others, all) = traverse-IsDeclared type_of params names {fields = rest} later in
    (
      ap (map (λ f. f.0)) (sym (ok_injective (field ∷ rest) fields whole)) ∙ ap₂ ◌∷◌ same others,
      (one, all),
    )

some_injective : {A : Type 0} (x y : A) → ◌≡◌ {A = Option A} (some x) (some y) → x ≡ y
some_injective x y e = cc

All-at :
    (P : String → Type 0) (names : List String) (name : String)
    → All P names
    → contains names name ≡ true
    → P name
All-at P [] name all h = cc
All-at P (x ∷ names) name (here, all) h = elim (Bool-cases (x == name)) [
  | inl same ↦ subst P (eq_of_beq x name same) here
  | inr other ↦ All-at P names name all (rw other at h)
]

not_both : {A : Type 0} (b : Bool) → b ≡ true → b ≡ false → A
not_both b h k = absurd (cc)

-- No parameter has a field of both loops.
apart :
    (params : List Param) (gated : List String) (name : String)
    → Distinct (names_of params)
    → All (IsDeclared go_field_type params) gated
    → contains (null_is_null_params params) name ≡ true
    → contains gated name ≡ false
apart params gated name d all h = elim (Bool-cases (contains gated name)) [
  | inr away ↦ away
  | inl there ↦
      let (p, go_type, found, typed) =
        All-at (IsDeclared go_field_type params) gated name all there in
      let (q, known, nullable) = param_named-nullable name params d h in
      let same = some_injective p q (sym found ∙ known) in
      not_both (is_nullable p) (subst (λ r. is_nullable r ≡ true) (sym same) nullable)
        (go_field_type-not_nullable p {go_type = go_type} typed)
]

map-append : {A B : Type 0} (f : A → B) (xs ys : List A) → map f (xs ++ ys) ≡ map f xs ++ map f ys
map-append f [] ys = refl
map-append f (x ∷ xs) ys = ap (◌∷◌ (f x)) (map-append f xs ys)

-- The parameters of the fields, in the order of the fields.
abbrev pub declared_params : List Segment → List Param → List String
declared_params segments params = field_names segments params ++ sort (null_is_null_params params)

-- Where the struct is written and the parameters' names differ, its fields have the exported names
-- of parameters that stand in it once each, and a parameter is among these exactly if an optional
-- segment has its name or it is required or nullable. (Exported names may agree for two parameters.)
pub struct_fields-Distinct :
    (segments : List Segment) (params : List Param) {fields : List (String × String)}
    → Distinct (map (λ p. p.name) params)
    → struct_fields segments params ≡ ok fields
    → (map (λ f. f.0) fields ≡ map export_ident (declared_params segments params))
      × Distinct (declared_params segments params)
      × ((name : String)
          → contains (declared_params segments params) name ≡ (
              any (λ s. not (is_fixed s.kind) && s.param == name) segments
              || any (λ p. mode_beq p.mode mode_required && p.name == name) params
              || any (λ p. mode_beq p.mode mode_null_is_null && p.name == name) params))
unfolding struct_fields
struct_fields-Distinct segments params {fields} d h =
    let gated = field_names segments params in
    let nullable = sort (null_is_null_params params) in
    let (first, e₁, more) = bind-eq-ok (traverse (declare go_field_type params) gated) _ h in
    let (second, e₂, made) =
      bind-eq-ok (traverse (declare go_nullable_type params) nullable) _ more in
    let (named, typed) = traverse-IsDeclared go_field_type params gated {fields = first} e₁ in
    let (others, _) = traverse-IsDeclared go_nullable_type params nullable {fields = second} e₂ in
    let (_, distinct, exact) = field_names-Distinct segments params in
    let within : (name : String)
        → contains nullable name ≡ contains (null_is_null_params params) name =
      λ name. any-sort (λ x. x == name) (null_is_null_params params) in
    (
      ap (map (λ f. f.0)) (sym (ok_injective (first ++ second) fields made))
          ∙ map-append (λ f. f.0) first second
          ∙ ap₂ ◌++◌ named others
          ∙ sym (map-append export_ident gated nullable),
      Distinct-append gated nullable distinct
          (Distinct-sort (null_is_null_params params) (null_is_null_params-Distinct params d))
          (λ name k. apart params gated name d typed (sym (within name) ∙ k)),
      λ name.
          any-append (λ x. x == name) gated nullable
          ∙ ground (arith, exact name, within name, contains-null_is_null_params params name),
    )
