-- ===== src/QueryGen/Required/Params.antt =====
-- What merging parameters keeps.
use mathlib.Core.List.{append-nil, append_assoc, head-eq_of_cons-eq, tail-eq_of_cons-eq}
use spanalyzer.Prelude.{
  String, List, [], ◌∷◌, ◌++◌, ◌≡◌, refl, sym, ◌∙◌, ap, ap₂, Bool, ◌||◌, ◌==◌, string_eq, arith,
  any, any-append, map, Bool-cases, inl, inr, if◌then◌else◌, eq_of_beq, contains,
}
use spanalyzer.Prelude.Results.{ok, fail_if, ◌>>◌, with_ok, ok_injective}
use spanalyzer.Text.{to_lower}
use spanalyzer.OptParam.Plan.{QueryParam, param_name_required, duplicate_override}
use spanalyzer.QueryGen.Required.{
  param_key, replace_param, check_names, override_params, merge_query_codegen_params,
}

abbrev pub has_param : String → List QueryParam → Bool
has_param key params = any (λ p. param_key p == key) params

abbrev pub names_of : List QueryParam → List String
names_of params = map (λ p. p.name) params

names_of-replace_param :
    (new : QueryParam) (params : List QueryParam)
    → names_of (replace_param new params) ≡ names_of params
unfolding replace_param
names_of-replace_param new [] = refl
names_of-replace_param new (old ∷ params) = elim (Bool-cases (has_param (param_key new) params)) [
  | inl later ↦ rw later (ap (◌∷◌ old.name) (names_of-replace_param new params))
  | inr here ↦ elim (Bool-cases (param_key old == param_key new)) [
    | inl same ↦ rw (here, same) refl
    | inr other ↦ rw (here, other) refl
  ]
]

names_of-append : (xs ys : List QueryParam) → names_of (xs ++ ys) ≡ names_of xs ++ names_of ys
names_of-append [] ys = refl
names_of-append (x ∷ xs) ys = ap (◌∷◌ x.name) (names_of-append xs ys)

-- Whether a key is there depends on the names alone.
has_param-names_of :
    (key : String) (xs ys : List QueryParam)
    → names_of xs ≡ names_of ys
    → has_param key xs ≡ has_param key ys
has_param-names_of key [] [] e = refl
has_param-names_of key [] (y ∷ ys) e = absurd (cc)
has_param-names_of key (x ∷ xs) [] e = absurd (cc)
has_param-names_of key (x ∷ xs) (y ∷ ys) e =
    ap₂ ◌||◌ (ap (λ name. to_lower name == key) (head-eq_of_cons-eq e))
      (has_param-names_of key xs ys (tail-eq_of_cons-eq e))

-- The names so far stay where they are, others come behind them, and every key is one of the two.
abbrev pub Extends : List QueryParam → List QueryParam → List QueryParam → Type 0
Extends old new out =
    ((more : List String) × (names_of out ≡ names_of old ++ more))
    × ((key : String) → has_param key out ≡ (has_param key old || has_param key new))

step-Extends :
    (out : List QueryParam) (new : QueryParam)
    → Extends out
        (new ∷ [])
        (if has_param (param_key new) out then replace_param new out else out ++ new ∷ [])
step-Extends out new = elim (Bool-cases (has_param (param_key new) out)) [
  | inl known ↦ rw known (
    ([], names_of-replace_param new out ∙ sym (append-nil (names_of out))),
    λ key.
        has_param-names_of key (replace_param new out) out (names_of-replace_param new out)
        ∙ ground (arith, known, eq_of_beq (param_key new) key),
  )
  | inr fresh ↦ rw fresh (
    (new.name ∷ [], names_of-append out (new ∷ [])),
    λ key. any-append (λ p. param_key p == key) out (new ∷ []),
  )
]

override_params-Extends :
    (out : List QueryParam) (seen : List String) (overrides : List QueryParam)
    {last : List QueryParam}
    → override_params out seen overrides ≡ ok last
    → Extends out overrides last
unfolding override_params
override_params-Extends out seen [] {last} e =
    rw (← ok_injective out last e) (([], sym (append-nil (names_of out))), λ key. ground arith)
override_params-Extends out seen (new ∷ overrides) {last} e =
    let key = param_key new in
    let out' = if has_param key out then replace_param new out else out ++ new ∷ [] in
    with_ok
      (fail_if (key == "") param_name_required
        >> fail_if (contains seen key) (duplicate_override new.name))
      _ e
      (λ _ _ e.
        let ((more, n), h) = step-Extends out new in
        let ((more', n'), h') =
          override_params-Extends out' (key ∷ seen) overrides {last = last} e in
        (
          (more ++ more', n' ∙ ap (λ xs. xs ++ more') n ∙ append_assoc (names_of out) more more'),
          λ k. ground (arith, h k, h' k),
        ))

-- Where the parameters of a query merge with generated ones, each generated parameter keeps its
-- name and its place, new ones come behind, and a parameter is there, ignoring case, exactly if it
-- was generated or the query has it.
pub merge_query_codegen_params-Extends :
    (defaults overrides : List QueryParam) {out : List QueryParam}
    → merge_query_codegen_params defaults overrides ≡ ok out
    → Extends defaults overrides out
unfolding merge_query_codegen_params
merge_query_codegen_params-Extends defaults overrides e =
    with_ok (check_names defaults) _ e (λ _ _ e. override_params-Extends defaults [] overrides e)
