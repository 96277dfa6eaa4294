-- ===== src/Grammar.antt =====
-- The parse entries of include/peglib/Grammar.h.
pub mod Table
pub mod Refs
pub mod Names
pub mod Reach
pub mod Handles
pub mod Factories
pub mod Build
pub mod Dot
use peglib.Prelude.{ℕ, Bool, true, false, List, [], ◌∷◌, Option, none, some, if◌then◌else◌}
use peglib.ParseError.{Bytes, bytes_eq, ParseError}
use peglib.Context.{Context, ParseResult, from_range, internal_set_skipper}
use peglib.Expr.{Grammar}
use peglib.Engine.{Outcome, ok, throw, fault, diverged, too_deep, Parser, ◌>>=◌, ◌>>◌, pure, modify}
use peglib.Engine.Combinators.{run_skipper}
use peglib.Engine.Rules.{nonterminal_parse}
use peglib.Engine.Run.{parse}

-- A call ends by itself, or throws the standard exception named.
pub data Call (A : Type 0) : Type 0 where
  outcome : Outcome A → Call A
  logic_error out_of_range : Call A

-- `m_rules.find`
unfoldable pub find_rule : List (Bytes × ℕ) → Bytes → Option ℕ
find_rule [] name = none
find_rule ((key, id) ∷ rules) name = if bytes_eq key name then some id else find_rule rules name

-- `try { return it->second->parse(ctx)... } catch (const ParseError&) { return ...; }`
abbrev pub caught : {A : Type 0} → A → (ParseResult → A) → Outcome ParseResult → Outcome A
caught on_error read (ok r c) = ok (read r) c
caught on_error read (throw e c) = ok on_error c
caught on_error read fault = fault
caught on_error read diverged = diverged
caught on_error read too_deep = too_deep

-- From the skipper at the boundary on. The skipper runs outside of the `try`.
unfoldable pub run_rule : {A : Type 0} → ℕ → Grammar → A → (ParseResult → A) → ℕ → Parser A
run_rule depth g on_error read id = do
  modify (internal_set_skipper g.m_skipper)
  run_skipper (nonterminal_parse g (parse depth g))
  λ c. caught on_error read (nonterminal_parse g (parse depth g) id c)

abbrev pub found : {A : Type 0} → Option ℕ → (ℕ → Outcome A) → Call A
found none k = out_of_range
found (some id) k = outcome (k id)

-- `Grammar::parse(rule, ctx)`, with calls at most `depth` deep.
unfoldable pub parse_rule : ℕ → Grammar → Bytes → Context → Call Bool
unfolding find_rule run_rule
parse_rule depth g name c =
    found (find_rule g.m_rules name) λ id. run_rule depth g false (λ r. r.success) id c

unfoldable pub parse_tree : ℕ → Grammar → Bytes → Context → Call (Option ℕ)
unfolding find_rule run_rule
parse_tree depth g name c =
    found (find_rule g.m_rules name) λ id. run_rule depth g none (λ r. r.tree) id c

abbrev pub is_empty_name : Bytes → Bool
is_empty_name [] = true
is_empty_name (x ∷ xs) = false

-- `Grammar::parse(ctx)`
unfoldable pub parse_start : ℕ → Grammar → Context → Call Bool
unfolding parse_rule
parse_start depth g c =
    if is_empty_name g.m_start then logic_error else parse_rule depth g g.m_start c

unfoldable pub parse_string : ℕ → Grammar → List ℕ → Call Bool
unfolding parse_start
parse_string depth g input = parse_start depth g (from_range input)
