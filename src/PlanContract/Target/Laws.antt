-- ===== src/PlanContract/Target/Laws.antt =====
-- Scopes and target identifiers.
use text.Mathlib.TextEquality.{eq_iff}
use text.Mathlib.TextLemmas.{nil-append, cons-append, cons-ne-nil}
use spanalyzer.Prelude.{
  String, List, [], ◌∷◌, ◌≡◌, refl, ◌∙◌, ap, sym, ◌⊎◌, Bool, true, false, Option, none, some,
  if◌then◌else◌, eq_of_beq, ◌==◌, string_eq, arith, contains, any, Bool-cases, inl, inr,
}
use spanalyzer.Prelude.Switch.{switch, switch_all}
use spanalyzer.Text.{
  trim_space, to_lower, after_identifier, cut_prefix, skip_identifier_bytes, identifier_byte,
  is_identifier_start,
}
use spanalyzer.Text.Laws.{trim_space_idem}
use spanalyzer.PlanContract.Report.{Query, Report}
use spanalyzer.PlanContract.Target.{
  ◌+++◌, is_identifier, is_target_id, is_target_tail, canonical_scope, target_id, query_target_id,
  find_query, find_target,
}

abbrev scopes : List (List String × String)
scopes =
    ("" ∷ "query" ∷ [], "") ∷ ("inner" ∷ "external_query.inner" ∷ [], "external_query.inner") ∷ []

canonical_scope_blank : canonical_scope "" ≡ ""
unfolding canonical_scope trim_space to_lower
canonical_scope_blank = refl

canonical_scope_inner : canonical_scope "external_query.inner" ≡ "external_query.inner"
unfolding canonical_scope trim_space to_lower
canonical_scope_inner = refl

switch-scopes :
    (k d : String)
    → (switch k scopes d ≡ "")
      ⊎ ((switch k scopes d ≡ "external_query.inner") ⊎ ((e : String) → switch k scopes e ≡ e))
switch-scopes k d = elim (Bool-cases (contains ("" ∷ "query" ∷ []) k)) [
  | inl blank ↦ inl (rw blank refl)
  | inr other ↦ elim (Bool-cases (contains ("inner" ∷ "external_query.inner" ∷ []) k)) [
    | inl inner ↦ inr (inl (rw (other, inner) refl))
    | inr free ↦ inr (inr (λ e. rw (other, free) refl))
  ]
]

-- A canonical scope is its own canonical form.
pub canonical_scope_idem :
    (scope : String) → canonical_scope (canonical_scope scope) ≡ canonical_scope scope
unfolding canonical_scope
canonical_scope_idem scope =
    let k = to_lower (trim_space scope) in
    elim (switch-scopes k (trim_space scope)) [
      | inl blank ↦ ap canonical_scope blank ∙ canonical_scope_blank ∙ sym blank
      | inr (inl inner) ↦ ap canonical_scope inner ∙ canonical_scope_inner ∙ sym inner
      | inr (inr free) ↦
          ap canonical_scope (free (trim_space scope))
          ∙ ap (λ u. switch (to_lower u) scopes u) (trim_space_idem scope)
    ]

cut_prefix_nil : (s : String) → cut_prefix s "" ≡ some s
unfolding cut_prefix
cut_prefix_nil s = refl

cut_prefix-append : (t s : String) → cut_prefix (t +++ s) t ≡ some s
unfolding cut_prefix
cut_prefix-append String.[] s = rw nil-append (cut_prefix_nil s)
cut_prefix-append (String.◌∷◌ c t) s = rw cons-append (ground (arith, cut_prefix-append t s))

skip-append :
    (s t : String)
    → skip_identifier_bytes s ≡ ""
    → skip_identifier_bytes (s +++ t) ≡ skip_identifier_bytes t
unfolding skip_identifier_bytes
skip-append String.[] t h = rw nil-append refl
skip-append (String.◌∷◌ c s) t h = elim (Bool-cases (identifier_byte c)) [
  | inl part ↦ rw cons-append (rw part (skip-append s t (rw part at h)))
  | inr other ↦ absurd (cons-ne-nil c s (rw other at h))
]

inner_rest : skip_identifier_bytes "#inner" ≡ "#inner"
unfolding skip_identifier_bytes identifier_byte
inner_rest = refl

not-true : false ≡ true → ⊥
not-true h = cc

inner_tail : is_target_tail (some "#inner") ≡ true
inner_tail = refl

-- The identifier of what a lookup gives.
abbrev found_id : Option Query → Option String
found_id none = none
found_id (some query) = some (query_target_id query)

-- Whether some query has an identifier.
abbrev has_target : List Query → String → Bool
has_target queries id = any (λ query. query_target_id query == id) queries

find_query-found_id :
    (queries : List Query) (id : String)
    → found_id (find_query queries id) ≡ (if has_target queries id then some id else none)
unfolding find_query
find_query-found_id [] id = refl
find_query-found_id (q ∷ qs) id = elim (Bool-cases (query_target_id q == id)) [
  | inl same ↦ rw same (ap some (eq_of_beq (query_target_id q) id same))
  | inr other ↦ rw other (find_query-found_id qs id)
]

after_identifier-inner :
    (name : String)
    → is_identifier name ≡ true
    → after_identifier (name +++ "#inner") ≡ some "#inner"
unfolding is_identifier after_identifier
after_identifier-inner String.[] h = cc
after_identifier-inner (String.◌∷◌ c s) h = elim (Bool-cases (is_identifier_start c)) [
  | inl start ↦
      let whole : skip_identifier_bytes s ≡ "" =
        (eq_iff _ "").0 (rw (start, is_identifier, after_identifier) at h) in
      rw cons-append (rw start (ap some (skip-append s "#inner" whole ∙ inner_rest)))
  | inr other ↦ absurd (not-true (rw (other, is_identifier, after_identifier) at h))
]

is_target_id_of_tail :
    (rest : String)
    → is_target_tail (after_identifier rest) ≡ true
    → is_target_id ("query/" +++ rest) ≡ true
unfolding is_target_id
is_target_id_of_tail rest h = rw (cut_prefix-append "query/" rest) h

is_target_tail_of_identifier :
    (name : String) → is_identifier name ≡ true → is_target_tail (after_identifier name) ≡ true
unfolding is_identifier
is_target_tail_of_identifier name h = ground arith

-- The identifier that `TargetID` gives to a query whose name is an identifier is one that contracts
-- may name: `targetIDRegexp` accepts it, whatever the scope is.
pub target_id-is_target_id :
    (name scope : String) → is_identifier name ≡ true → is_target_id (target_id name scope) ≡ true
unfolding target_id
target_id-is_target_id name scope h =
    switch_all (λ id. is_target_id id ≡ true) (canonical_scope scope)
      (("external_query.inner" ∷ [], "query/" +++ name +++ "#inner") ∷ []) ("query/" +++ name)
      (is_target_id_of_tail (name +++ "#inner") (rw (after_identifier-inner name h) inner_tail), tt)
      (is_target_id_of_tail name (is_target_tail_of_identifier name h))

-- `FindTarget` gives a query whenever the report has one with the identifier that is asked for, and the
-- query that it gives has that identifier.
find_target_exact :
    (report : Report) (id : String)
    → found_id (find_target report id) ≡ (if has_target report.queries id then some id else none)
unfolding find_target
find_target_exact report id = find_query-found_id report.queries id
