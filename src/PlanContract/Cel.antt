-- ===== src/PlanContract/Cel.antt =====
-- plancontract/plancontract.go: what the evaluator does with CEL. The CEL library compiles and runs
-- expressions; it is the record `Cel`. The traversal of checked expressions and the textual search
-- for identifiers are the source's own.
use spanalyzer.Prelude.{
  String, List, ℕ, suc, ◌-◌, Bool, true, false, ◌&&◌, not, Option, none, some, if◌then◌else◌, ◌==◌,
  string_eq, add_new,
}
use spanalyzer.Text.{cut_prefix, identifier_byte}
use spanalyzer.PlanContract.Report.{Query, Report}

-- `exprpb.Expr`; `absent` is a nil expression, `constant` any other kind of node.
mutual
  pub data Expr : Type 0 where
    absent : Expr
    ident : String → Expr
    select : String → Expr → Expr
    call : Expr → Exprs → Expr
    list : Exprs → Expr
    struct : Entries → Expr
    comprehension : Expr → Expr → Expr → Expr → Expr → Expr
    constant : Expr

  pub data Exprs : Type 0 where
    nil : Exprs
    cons : Expr → Exprs → Exprs

  -- The key, `absent` for a message field, and the value of each entry.
  pub data Entries : Type 0 where
    end : Entries
    entry : Expr → Expr → Entries → Entries

unfoldable mutual
  pub collect_cel_identifiers : Expr → List String → List String
  collect_cel_identifiers absent found = found
  collect_cel_identifiers (ident name) found = add_new found name
  collect_cel_identifiers (select field operand) found =
      collect_cel_identifiers operand (add_new found field)
  collect_cel_identifiers (call target args) found =
      collect_exprs args (collect_cel_identifiers target found)
  collect_cel_identifiers (list elements) found = collect_exprs elements found
  collect_cel_identifiers (struct entries) found = collect_entries entries found
  collect_cel_identifiers (comprehension range init condition step result) found =
      collect_cel_identifiers result (
        collect_cel_identifiers step (
          collect_cel_identifiers condition
            (collect_cel_identifiers init (collect_cel_identifiers range found))))
  collect_cel_identifiers constant found = found

  pub collect_exprs : Exprs → List String → List String
  collect_exprs nil found = found
  collect_exprs (cons e es) found = collect_exprs es (collect_cel_identifiers e found)

  pub collect_entries : Entries → List String → List String
  collect_entries end found = found
  collect_entries (entry key value es) found =
      collect_entries es (collect_cel_identifiers value (collect_cel_identifiers key found))

pub data OutputType : Type 0 where
  bool_type dyn_type : OutputType
  other_type : String → OutputType

pub data CelValue : Type 0 where
  bool_value : Bool → CelValue
  other_value : String → CelValue

-- The outcome of `newCELEnv` and `env.Compile`.
pub data Compilation (Ast : Type 0) : Type 0 where
  env_error issues : Compilation Ast
  compiled : Ast → Compilation Ast

-- The CEL library under the environment of `newCELEnv`; `none` is an error of the library. `eval`
-- runs a program on `celActivation(report, query)`.
pub record Cel : Type 1 where
  pub Ast : Type 0
  pub Program : Type 0
  pub compile : String → Compilation Ast
  pub ast_to_checked_expr : Ast → Option Expr
  pub output_type : Ast → OutputType
  pub program : Ast → Option Program
  pub eval : Program → Report → Query → Option CelValue

text_length : String → ℕ
text_length String.[] = 0
text_length (String.◌∷◌ c s) = suc (text_length s)

-- `afterOK`
abbrev pub ends_identifier : String → Bool
ends_identifier String.[] = true
ends_identifier (String.◌∷◌ c s) = not (identifier_byte c)

-- Whether an occurrence that leaves `rest` behind it stands alone.
abbrev pub stands_alone : Bool → Option String → Bool
stands_alone inside none = false
stands_alone inside (some rest) = not inside && ends_identifier rest

abbrev pub occurs_here : Option String → Bool
occurs_here none = false
occurs_here (some rest) = true

-- The loop of `referencesIdentifier`, a character at a time. `inside` says that the character before
-- is an identifier byte, `skip` how many characters of a refused occurrence are still to pass.
references_from : String → Bool → ℕ → String → Bool
references_from identifier inside skip String.[] = false
references_from identifier inside ℕ.zero (String.◌∷◌ c s) =
    let rest = cut_prefix (String.◌∷◌ c s) identifier in
    let skipped = references_from identifier (identifier_byte c) (text_length identifier - 1) s in
    let next = references_from identifier (identifier_byte c) 0 s in
    if stands_alone inside rest then true else if occurs_here rest then skipped else next
references_from identifier inside (ℕ.suc skip) (String.◌∷◌ c s) =
    references_from identifier (identifier_byte c) skip s

unfoldable pub references_identifier : String → String → Bool
unfolding references_from text_length identifier_byte
references_identifier expression identifier =
    if identifier == "" then false else references_from identifier false 0 expression
