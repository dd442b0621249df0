-- ===== src/PlanVocab/Catalog/Laws.antt =====
-- What a catalog that loads guarantees.
use spanalyzer.Prelude.{
  String, List, [], ◌∷◌, ◌≡◌, refl, sym, ◌∙◌, ap, subst, true, false, not, ◌||◌, ◌==◌, some,
  string_eq, arith, All, contains, nonempty, Distinct, Bool-cases, inl, inr, eq_of_beq, beq_refl,
}
use spanalyzer.Prelude.Maps.{
  Map, lookup, insert, keys, lookup-insert, Distinct-keys-insert, lookup-none_of_keys,
}
use spanalyzer.Prelude.Results.{ok, fail_if, ◌>>=◌, ◌>>◌, bind-eq-ok, fail_if-eq-ok, ok_injective}
use spanalyzer.PlanVocab.Shapes.{normalize_token}
use spanalyzer.PlanVocab.Catalog.{
  EmbeddedCatalog, OperatorRule, ChildRule, is_variable_policy, check_policies, load_names,
  load_operators, must_load_catalog, missing_info, missing_kind_or_names, missing_provenance,
  duplicate_operator, invalid_variable_policy,
}

-- Whatever the smaller map has the larger has too.
abbrev Extends : Map String OperatorRule → Map String OperatorRule → Type 0
Extends m n = (k : String) (rule : OperatorRule) → lookup k m ≡ some rule → lookup k n ≡ some rule

abbrev pub HasNames : Map String OperatorRule → OperatorRule → Type 0
HasNames m operator = All (λ name. lookup (normalize_token name) m ≡ some operator) operator.names

abbrev pub IsComplete : OperatorRule → Type 0
IsComplete operator =
    ((operator.kind == "" || not (nonempty operator.names)) ≡ false)
    × All (λ child. is_variable_policy child.variable ≡ true) operator.child_links

All-Extends :
    (m n : Map String OperatorRule) (operator : OperatorRule) (names : List String)
    → Extends m n
    → All (λ name. lookup (normalize_token name) m ≡ some operator) names
    → All (λ name. lookup (normalize_token name) n ≡ some operator) names
All-Extends m n operator [] e h = tt
All-Extends m n operator (name ∷ names) e (h, hs) =
    (e (normalize_token name) operator h, All-Extends m n operator names e hs)

insert-Extends :
    (k : String) (rule : OperatorRule) (m : Map String OperatorRule)
    → contains (keys m) k ≡ false
    → Extends m (insert k rule m)
insert-Extends k rule m h j other e = elim (Bool-cases (k == j)) [
  | inl same ↦ absurd (ground (arith, eq_of_beq k j same, lookup-none_of_keys k m h))
  | inr apart ↦ lookup-insert k j rule m ∙ rw apart e
]

-- What the loop over the names of an operator keeps and reaches.
abbrev Grows : Map String OperatorRule → Map String OperatorRule → Type 0
Grows m n = Extends m n × (Distinct (keys m) → Distinct (keys n))

load_names-Grows :
    (operator : OperatorRule) (names : List String) (m : Map String OperatorRule)
    {n : Map String OperatorRule}
    → load_names operator names m ≡ ok n
    → Grows m n × All (λ name. lookup (normalize_token name) n ≡ some operator) names
unfolding load_names
load_names-Grows operator [] m {n} e =
    let same = ok_injective m n e in
    ((λ k rule h. ap (lookup k) (sym same) ∙ h, λ d. subst (λ x. Distinct (keys x)) same d), tt)
load_names-Grows operator (name ∷ names) m {n} e =
    let k = normalize_token name in
    let (_, fresh, e₁) = bind-eq-ok (fail_if (contains (keys m) k) (duplicate_operator name)) _ e in
    let new = fail_if-eq-ok (contains (keys m) k) (duplicate_operator name) fresh in
    let ((extends, distinct), found) =
      load_names-Grows operator names (insert k operator m) {n = n} e₁ in
    (
      (
        λ j rule h. extends j rule (insert-Extends k operator m new j rule h),
        λ d. distinct (Distinct-keys-insert k operator m d),
      ),
      (extends k operator (lookup-insert k k operator m ∙ rw (beq_refl k) refl), found),
    )

check_policies-All :
    (children : List ChildRule)
    → check_policies children ≡ ok tt
    → All (λ child. is_variable_policy child.variable ≡ true) children
unfolding check_policies
check_policies-All [] e = tt
check_policies-All (child ∷ children) e =
    let bad = not (is_variable_policy child.variable) in
    let (_, good, e₁) = bind-eq-ok (fail_if bad (invalid_variable_policy child.variable)) _ e in
    (
      ground (arith, fail_if-eq-ok bad (invalid_variable_policy child.variable) good),
      check_policies-All children e₁,
    )

load_operators-Grows :
    (operators : List OperatorRule) (m : Map String OperatorRule) {n : Map String OperatorRule}
    → load_operators operators m ≡ ok n
    → Grows m n × All (λ operator. HasNames n operator × IsComplete operator) operators
unfolding load_operators
load_operators-Grows [] m {n} e =
    let same = ok_injective m n e in
    ((λ k rule h. ap (lookup k) (sym same) ∙ h, λ d. subst (λ x. Distinct (keys x)) same d), tt)
load_operators-Grows (operator ∷ operators) m {n} e =
    let bad = operator.kind == "" || not (nonempty operator.names) in
    let checks = fail_if bad missing_kind_or_names >> check_policies operator.child_links in
    let (_, checked, loaded) =
      bind-eq-ok checks (λ _. load_names operator operator.names m >>= load_operators operators)
        e in
    let (_, named, policies) =
      bind-eq-ok (fail_if bad missing_kind_or_names) (λ _. check_policies operator.child_links)
        checked in
    let (middle, first, others) =
      bind-eq-ok (load_names operator operator.names m) (load_operators operators) loaded in
    let ((extends, distinct), found) =
      load_names-Grows operator operator.names m {n = middle} first in
    let ((extends', distinct'), rest) = load_operators-Grows operators middle {n = n} others in
    (
      (λ k rule h. extends' k rule (extends k rule h), λ d. distinct' (distinct d)),
      (
        (
          All-Extends middle n operator operator.names extends' found,
          (
            fail_if-eq-ok bad missing_kind_or_names named,
            check_policies-All operator.child_links policies,
          ),
        ),
        rest,
      ),
    )

-- A catalog that `mustLoadCatalog` accepts keeps its rules and finds them: every name of every
-- operator leads, by its normalized form, to that operator and to no other, no normalized name
-- stands twice, and every operator has a kind, a name and links with a known policy on variables.
pub must_load_catalog-HasNames :
    (catalog : EmbeddedCatalog) {loaded : EmbeddedCatalog}
    → must_load_catalog catalog ≡ ok loaded
    → (loaded ≡ record catalog { by_name = loaded.by_name })
      × Distinct (keys loaded.by_name)
      × All (λ operator. HasNames loaded.by_name operator × IsComplete operator) catalog.operators
unfolding must_load_catalog
must_load_catalog-HasNames catalog {loaded} e =
    let (_, _, e₁) = bind-eq-ok (fail_if (missing_info catalog) missing_provenance) _ e in
    let (by_name, built, e₂) =
      bind-eq-ok (load_operators catalog.operators [])
        (λ by_name. ok (record catalog { by_name = by_name })) e₁ in
    let same = ok_injective (record catalog { by_name = by_name }) loaded e₂ in
    let ((_, distinct), found) = load_operators-Grows catalog.operators [] {n = by_name} built in
    rw (← same) (refl, distinct tt, found)
