-- ===== src/OptParam/NullIsNull.antt =====
-- internal/optparam/optparam.go: `rewriteNullIsNull`. The lexer is memefish's: `Lexer.lex` is what
-- the loop of `lexSQLFragment` collects, or nothing where it meets an error or a bad token.
use Prim.Native.String.{slice, len}
use Prim.Native.Char.{Char, code}
use spanalyzer.Prelude.{
  String, List, [], ◌∷◌, ℕ, ◌-◌, Bool, true, false, not, ◌&&◌, ◌||◌, Option, none, some,
  if◌then◌else◌, string_eq, ltb, nat_beq,
}
use spanalyzer.Prelude.Results.{Result, ok, err}
use spanalyzer.Text.{equal_fold}
use spanalyzer.PlanContract.Target.{◌+++◌}
use spanalyzer.OptParam.Param.{Error, lex_error, null_is_null_missing}

-- Positions count bytes. `is_equals` is `Kind == "="`, `is_param` is `Kind == token.TokenParam`.
pub record Token : Type 0 where
  pub is_equals : Bool
  pub is_param : Bool
  pub as_string : String
  pub start : ℕ
  pub stop : ℕ

pub record Lexer : Type 0 where
  pub lex : String → Option (List Token)

unfoldable pub sql_param_token : Token → String → Bool
sql_param_token token name = token.is_param && equal_fold token.as_string name

unfoldable pub is_sql_space : Char → Bool
is_sql_space c =
    let n = code c in
    nat_beq n 0x20 || nat_beq n 0x09 || nat_beq n 0x0a || nat_beq n 0x0d || nat_beq n 0x0c

unfoldable pub contains_sql_space : String → Bool
unfolding is_sql_space
contains_sql_space String.[] = false
contains_sql_space (String.◌∷◌ c s) = is_sql_space c || contains_sql_space s

-- `if start > 0 && !isSQLSpace(body[start-1]) { b.WriteByte(' ') }`: the byte before is a space
-- exactly if the character that it ends is.
space_before : String → ℕ → String
unfolding contains_sql_space
space_before body start =
    if ltb 0 start && not (contains_sql_space (slice body (start - 1) start)) then " " else ""

-- What replaces one comparison: from `last` to the end of the parameter's token.
unfoldable pub rewritten : String → String → ℕ → Token → Token → String
unfolding space_before contains_sql_space
rewritten body name last equals param =
    let between = slice body equals.stop param.start in
    slice body last equals.start
    +++ space_before body equals.start
    +++ "IS NOT DISTINCT FROM"
    +++ (if contains_sql_space between then "" else " ")
    +++ between
    +++ "@"
    +++ name

-- The loop: what is written, the end of the last replacement, and whether there was one.
pub record Rewrite : Type 0 where
  pub written : String
  pub last : ℕ
  pub replaced : Bool

abbrev next_is_param : List Token → String → Bool
next_is_param [] name = false
next_is_param (param ∷ tokens) name = sql_param_token param name

replace_with : String → String → Token → List Token → Rewrite → Rewrite
unfolding rewritten
replace_with body name equals [] state = state
replace_with body name equals (param ∷ tokens) state = record {
  written = state.written +++ rewritten body name state.last equals param;
  last = param.stop;
  replaced = true;
}

rewrite_tokens : String → String → List Token → Rewrite → Rewrite
unfolding replace_with
rewrite_tokens body name [] state = state
rewrite_tokens body name (token ∷ tokens) state = rewrite_tokens body name tokens (
    if token.is_equals && next_is_param tokens name
    then replace_with body name token tokens state
    else state)

unfoldable pub rewrite_null_is_null : Lexer → String → String → Result Error String
unfolding rewrite_tokens
rewrite_null_is_null lexer body name = elim (lexer.lex body) [
  | none ↦ err (lex_error body)
  | some tokens ↦
      let state =
        rewrite_tokens body name tokens (record { written = ""; last = 0; replaced = false }) in
      if state.replaced
      then ok (state.written +++ slice body state.last (len body))
      else err (null_is_null_missing body name)
]
