-- ===== src/PlanContract/Target.antt =====
-- plancontract/plancontract.go: scopes, target identifiers and the lookup of a contract's target.
pub mod Laws
use Prim.Native.String
use spanalyzer.Prelude.{
  String, List, [], ◌∷◌, Bool, true, false, Option, none, some, if◌then◌else◌, ◌==◌, string_eq, not,
  ◌||◌,
}
use spanalyzer.Prelude.Switch.{switch}
use spanalyzer.Text.{trim_space, to_lower, after_identifier, cut_prefix}
use spanalyzer.PlanContract.Report.{Query, Report}

infixr 65 ◌+++◌
abbrev pub ◌+++◌ : String → String → String
s +++ t = String.◌++◌ s t

-- `identifierRegexp.MatchString`
unfoldable pub is_identifier : String → Bool
is_identifier s = elim (after_identifier s) [ none ↦ false | some rest ↦ rest == "" ]

-- `(#inner)?$` behind the identifier of a target
abbrev pub is_target_tail : Option String → Bool
is_target_tail none = false
is_target_tail (some rest) = rest == "" || rest == "#inner"

abbrev pub is_target_name : Option String → Bool
is_target_name none = false
is_target_name (some rest) = is_target_tail (after_identifier rest)

-- `targetIDRegexp.MatchString`
unfoldable pub is_target_id : String → Bool
is_target_id s = is_target_name (cut_prefix s "query/")

-- `Scope`
unfoldable pub canonical_scope : String → String
canonical_scope scope =
    switch (to_lower (trim_space scope))
      (("" ∷ "query" ∷ [], "")
        ∷ ("inner" ∷ "external_query.inner" ∷ [], "external_query.inner")
        ∷ [])
      (trim_space scope)

-- `TargetID`
unfoldable pub target_id : String → String → String
target_id query_name scope =
    switch (canonical_scope scope)
      (("external_query.inner" ∷ [], "query/" +++ query_name +++ "#inner") ∷ [])
      ("query/" +++ query_name)

unfoldable pub query_target_id : Query → String
query_target_id query =
    if not (trim_space query.target_id == "")
    then query.target_id
    else target_id query.name query.scope

-- The loop of `FindTarget`.
unfoldable pub find_query : List Query → String → Option Query
find_query [] id = none
find_query (query ∷ queries) id =
    if query_target_id query == id then some query else find_query queries id

unfoldable pub find_target : Report → String → Option Query
unfolding find_query
find_target report id = find_query report.queries id
