-- ===== src/Grammar/Factories.antt =====
-- The members of `Grammar` in include/peglib/Grammar.h that make the leaves of an expression. The
-- overloads of `make_matcher` are the constructors of `TerminalValue`.
use peglib.Prelude.{ℕ, Bool, List, Option}
use peglib.Context.{Context, Span}
use peglib.Expr.{Expr, TerminalValue, value, set, range, predicate}

-- `make_matcher`
abbrev pub of_predicate : (ℕ → Bool) → TerminalValue
of_predicate f = predicate f

abbrev pub of_value : ℕ → TerminalValue
of_value v = value v

abbrev pub of_set : List ℕ → TerminalValue
of_set values = set values

abbrev pub of_pair : ℕ → ℕ → TerminalValue
of_pair value_min value_max = range value_min value_max

-- `terminal`
abbrev pub terminal : TerminalValue → Expr
terminal v = Expr.terminal v

abbrev pub terminal_between : ℕ → ℕ → Expr
terminal_between value_min value_max = terminal (of_pair value_min value_max)

-- `token`
abbrev pub token : TerminalValue → Expr
token v = Expr.token v

abbrev pub token_between : ℕ → ℕ → Expr
token_between value_min value_max = token (of_pair value_min value_max)

-- `terminalSeq`
abbrev pub terminal_seq : List ℕ → Expr
terminal_seq values = Expr.terminal_seq values

-- `empty`, `cut`, `lexeme` and `matcher`
abbrev pub empty : Expr
empty = Expr.empty

abbrev pub cut : Expr
cut = Expr.cut_expr

abbrev pub lexeme : Expr → Expr
lexeme e = Expr.lexeme e

abbrev pub matcher : (Context → Span → Option Span) → Expr
matcher fn = Expr.matcher fn
