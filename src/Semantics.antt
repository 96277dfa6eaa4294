-- ===== src/Semantics.antt =====
-- What the expressions of include/peglib/Combinators.h and Terminals.h mean: the big-step semantics
-- of parsing expression grammars on an input, with automatic skipping. There is no context here, no
-- memo table, no tree and no depth.
pub mod Plan
pub mod State
pub mod Terminals
pub mod Clear
pub mod Scopes
pub mod Choices
pub mod Sequences
pub mod Repeat
pub mod Entries
pub mod Grow
pub mod Rules
pub mod Run
pub mod Unique
pub mod Entry
pub mod Language
use peglib.Prelude.{
  ℕ, zero, suc, ◌≡◌, Bool, true, false, List, [], ◌∷◌, Option, none, some, ltb, leb, ◌==◌, ◌&&◌,
  ◌||◌, not, if◌then◌else◌, get_elem?,
}
use peglib.ParseError.{Bytes}
use peglib.Context.{Context, Span, from_range}
use peglib.Expr.{
  TerminalValue, value, symbol_consumable, Expr, Exprs, nil, cons, terminal, terminal_seq, token,
  matcher, empty, sequence, alternation, zero_or_more, one_or_more, n_times, optional, not_expr,
  and_expr, cut_expr, lexeme, rule, NonTerminal, Grammar,
}

-- An expression ends at a position, or fails.
abbrev pub End : Type 0
End = Option ℕ

abbrev pub accepts : TerminalValue → Option ℕ → Bool
accepts v none = false
accepts v (some x) = symbol_consumable x v

abbrev pub symbol_end : List ℕ → TerminalValue → ℕ → End
symbol_end t v i = if accepts v (get_elem? t i) then some (suc i) else none

unfoldable pub symbols_end : List ℕ → List ℕ → ℕ → End
symbols_end t [] i = some i
symbols_end t (v ∷ vs) i =
    if accepts (value v) (get_elem? t i) then symbols_end t vs (suc i) else none

abbrev pub span_end : Option Span → End
span_end none = none
span_end (some s) = some s.end

abbrev pub matcher_end : List ℕ → (Context → Span → Option Span) → ℕ → End
matcher_end t fn i = span_end (fn (from_range t) (record { start = i; end = i }))

-- A predicate consumes nothing.
abbrev pub negated : ℕ → End → End
negated i none = some i
negated i (some j) = none

abbrev pub required : ℕ → End → End
required i none = none
required i (some j) = some i

abbrev pub end_or : ℕ → End → ℕ
end_or i none = i
end_or i (some j) = j

-- Whether one has been read already.
abbrev pub begun : ℕ → Bool
begun zero = false
begun (suc count) = true

-- The most rounds that a repetition takes, if there is a limit.
abbrev pub is_full : Option ℕ → ℕ → Bool
is_full none count = false
is_full (some n) count = leb n count

abbrev pub at_least : ℕ → ℕ → ℕ → End
at_least n count j = if ltb count n then none else some j

-- `Matches g t b e i o`: on the input `t` at `i`, with skipping on if `b`, the expression ends as
-- `o` says.
mutual
  pub data Matches (g : Grammar) (t : List ℕ) : Bool → Expr → ℕ → End → Type 0 where
    symbol :
        {b : Bool} {v : TerminalValue} {i : ℕ} {o : End}
        → o ≡ symbol_end t v i
        → Matches g t b (terminal v) i o
    symbols :
        {b : Bool} {vs : List ℕ} {i : ℕ} {o : End}
        → o ≡ symbols_end t vs i
        → Matches g t b (terminal_seq vs) i o
    one_token :
        {b : Bool} {v : TerminalValue} {i : ℕ} {o : End}
        → o ≡ symbol_end t v i
        → Matches g t b (token v) i o
    custom :
        {b : Bool} {fn : Context → Span → Option Span} {i : ℕ} {o : End}
        → o ≡ matcher_end t fn i
        → Matches g t b (matcher fn) i o
    nothing : {b : Bool} {i : ℕ} → Matches g t b empty i (some i)
    committed : {b : Bool} {i : ℕ} → Matches g t b cut_expr i (some i)
    all_of :
        {b : Bool} {es : Exprs} {i : ℕ} {o : End}
        → MatchesSeq g t false b es i o
        → Matches g t b (sequence es) i o
    one_of :
        {b : Bool} {es : Exprs} {i : ℕ} {o : End}
        → MatchesAlt g t b es i o
        → Matches g t b (alternation es) i o
    many :
        {b : Bool} {e : Expr} {i count j : ℕ}
        → Repeats g t none b e 0 i count j
        → Matches g t b (zero_or_more e) i (some j)
    once_or_more :
        {b : Bool} {e : Expr} {i count j : ℕ} {o : End}
        → Repeats g t none b e 0 i count j
        → o ≡ at_least 1 count j
        → Matches g t b (one_or_more e) i o
    counted :
        {b : Bool} {e : Expr} {n i count j : ℕ} {o : End}
        → Repeats g t (some n) b e 0 i count j
        → o ≡ at_least n count j
        → Matches g t b (n_times e n) i o
    perhaps :
        {b : Bool} {e : Expr} {i count j : ℕ}
        → Repeats g t (some 1) b e 0 i count j
        → Matches g t b (optional e) i (some j)
    forbids :
        {b : Bool} {e : Expr} {i : ℕ} {o o' : End}
        → Matches g t b e i o
        → o' ≡ negated i o
        → Matches g t b (not_expr e) i o'
    requires :
        {b : Bool} {e : Expr} {i : ℕ} {o o' : End}
        → Matches g t b e i o
        → o' ≡ required i o
        → Matches g t b (and_expr e) i o'
    unskipped :
        {b : Bool} {e : Expr} {i : ℕ} {o : End}
        → Matches g t false e i o
        → Matches g t b (lexeme e) i o
    called :
        {b : Bool} {id : ℕ} {name : Bytes} {nt : NonTerminal} {e : Expr} {i : ℕ} {o : End}
        → get_elem? g.non_terminals id ≡ some nt
        → nt.m_rule ≡ some e
        → Matches g t b e i o
        → Matches g t b (rule id name) i o

  -- The operands of a sequence; between two of them the input is skipped. The first flag says
  -- whether one has been read.
  pub data MatchesSeq (g : Grammar) (t : List ℕ) : Bool → Bool → Exprs → ℕ → End → Type 0 where
    end : {later b : Bool} {i : ℕ} → MatchesSeq g t later b nil i (some i)
    stop :
        {later b : Bool} {e : Expr} {es : Exprs} {i j : ℕ}
        → Skips g t (later && b) i j
        → Matches g t b e j none
        → MatchesSeq g t later b (cons e es) i none
    next :
        {later b : Bool} {e : Expr} {es : Exprs} {i j k : ℕ} {o : End}
        → Skips g t (later && b) i j
        → Matches g t b e j (some k)
        → MatchesSeq g t true b es k o
        → MatchesSeq g t later b (cons e es) i o

  -- The first alternative that matches.
  pub data MatchesAlt (g : Grammar) (t : List ℕ) : Bool → Exprs → ℕ → End → Type 0 where
    no_more : {b : Bool} {i : ℕ} → MatchesAlt g t b nil i none
    first :
        {b : Bool} {e : Expr} {es : Exprs} {i j : ℕ}
        → Matches g t b e i (some j)
        → MatchesAlt g t b (cons e es) i (some j)
    other :
        {b : Bool} {e : Expr} {es : Exprs} {i : ℕ} {o : End}
        → Matches g t b e i none
        → MatchesAlt g t b es i o
        → MatchesAlt g t b (cons e es) i o

  -- The rounds of a repetition from a number of rounds and a position on: how many there are in
  -- the end, and where the last one ends. A round that consumes nothing is the last.
  pub data Repeats (g : Grammar) (t : List ℕ)
      : Option ℕ → Bool → Expr → ℕ → ℕ → ℕ → ℕ → Type 0 where
    fails :
        {most : Option ℕ} {b : Bool} {e : Expr} {count i j : ℕ}
        → Skips g t (begun count && b) i j
        → Matches g t b e j none
        → Repeats g t most b e count i count i
    last :
        {most : Option ℕ} {b : Bool} {e : Expr} {count i j k total : ℕ}
        → Skips g t (begun count && b) i j
        → Matches g t b e j (some k)
        → (is_full most (suc count) || (k == j)) ≡ true
        → total ≡ suc count
        → Repeats g t most b e count i total k
    again :
        {most : Option ℕ} {b : Bool} {e : Expr} {count i j k total end : ℕ}
        → Skips g t (begun count && b) i j
        → Matches g t b e j (some k)
        → (is_full most (suc count) || (k == j)) ≡ false
        → Repeats g t most b e (suc count) k total end
        → Repeats g t most b e count i total end

  -- What is skipped if the flag is on: a match of the skipper, if there is one, in which nothing
  -- is skipped in turn.
  pub data Skips (g : Grammar) (t : List ℕ) : Bool → ℕ → ℕ → Type 0 where
    off : {i : ℕ} → Skips g t false i i
    no_skipper : {i : ℕ} → g.m_skipper ≡ none → Skips g t true i i
    skipper :
        {i j s : ℕ} {name : Bytes} {o : End}
        → g.m_skipper ≡ some s
        → Matches g t false (rule s name) i o
        → j ≡ end_or i o
        → Skips g t true i j
