-- ===== src/Invariant/Run.antt =====
-- The invariant over `parse`, on every expression of a closed grammar.
use peglib.Prelude.{ℕ, zero, suc, true, false, pos, negsuc, arith}
use peglib.Context.{Context, ParseResult}
use peglib.Expr.{
  Expr, terminal, terminal_seq, token, matcher, empty, sequence, alternation, zero_or_more,
  one_or_more, n_times, optional, not_expr, and_expr, cut_expr, lexeme, rule, Grammar,
  int64_of_size,
}
use peglib.Engine.{Parser}
use peglib.Engine.Combinators.{run_skipper}
use peglib.Engine.Rules.{nonterminal_parse}
use peglib.Engine.Run.{step, parse}
use peglib.Invariant.{IsSound, IsClosed, IsValid, Safe, Moves}
use peglib.Invariant.Relations.{Keeps-refl}
use peglib.Invariant.Terminals.{
  terminal_parse-Safe, token_parse-Safe, terminal_seq_parse-Safe, matcher_parse-Safe,
}
use peglib.Invariant.Skipper.{ExprSafe, run_skipper-SkipSafe, lexeme_parse-Safe}
use peglib.Invariant.Combinators.{
  sequence_parse-Safe, alternation_parse-Safe, predicate_parse_impl-Safe, cut_parse-Safe,
}
use peglib.Invariant.Repeat.{repeat_parse_impl-Safe}
use peglib.Invariant.Rules.{nonterminal_parse-RuleSafe}

module _ (g : Grammar) (closed : IsClosed g) where
  step-ExprSafe : (p : Expr → Parser ParseResult) → ExprSafe g p → ExprSafe g (step g p)
  unfolding step
  step-ExprSafe p safe (terminal t) s c v = terminal_parse-Safe g c v g.byte_sized t s
  step-ExprSafe p safe (terminal_seq vs) s c v = terminal_seq_parse-Safe g c v g.byte_sized vs
  step-ExprSafe p safe (token t) s c v = token_parse-Safe g c v g.byte_sized t s
  step-ExprSafe p safe (matcher fn) s c v = matcher_parse-Safe g c v fn s
  step-ExprSafe p safe empty s c v = (v, Keeps-refl c, (omega arith, λ e. cc))
  step-ExprSafe p safe (sequence es) s c v =
      sequence_parse-Safe g p safe (run_skipper (nonterminal_parse g p))
        (run_skipper-SkipSafe g _ (nonterminal_parse-RuleSafe g p closed safe)) es s c v
  step-ExprSafe p safe (alternation es) s c v = alternation_parse-Safe g p safe es s c v
  step-ExprSafe p safe (zero_or_more e) s c v =
      repeat_parse_impl-Safe g (p e) (safe e s) (run_skipper (nonterminal_parse g p))
        (run_skipper-SkipSafe g _ (nonterminal_parse-RuleSafe g p closed safe)) 0 (negsuc 0) c v
  step-ExprSafe p safe (one_or_more e) s c v =
      repeat_parse_impl-Safe g (p e) (safe e s) (run_skipper (nonterminal_parse g p))
        (run_skipper-SkipSafe g _ (nonterminal_parse-RuleSafe g p closed safe)) 1 (negsuc 0) c v
  step-ExprSafe p safe (n_times e n) s c v =
      repeat_parse_impl-Safe g (p e) (safe e s) (run_skipper (nonterminal_parse g p))
        (run_skipper-SkipSafe g _ (nonterminal_parse-RuleSafe g p closed safe)) n (int64_of_size n)
        c v
  step-ExprSafe p safe (optional e) s c v =
      repeat_parse_impl-Safe g (p e) (safe e s) (run_skipper (nonterminal_parse g p))
        (run_skipper-SkipSafe g _ (nonterminal_parse-RuleSafe g p closed safe)) 0 (pos 1) c v
  step-ExprSafe p safe (not_expr e) s c v = predicate_parse_impl-Safe g (p e) (safe e s) true c v
  step-ExprSafe p safe (and_expr e) s c v = predicate_parse_impl-Safe g (p e) (safe e s) false c v
  step-ExprSafe p safe cut_expr s c v = cut_parse-Safe g c v
  step-ExprSafe p safe (lexeme e) s c v = lexeme_parse-Safe g (p e) (safe e s) c v
  step-ExprSafe p safe (rule id name) s c v = nonterminal_parse-RuleSafe g p closed safe id s c v

  pub parse-ExprSafe : (depth : ℕ) → ExprSafe g (parse depth g)
  unfolding parse
  parse-ExprSafe zero e s c v = tt
  parse-ExprSafe (suc depth) e s c v = step-ExprSafe (parse depth g) (parse-ExprSafe depth) e s c v

-- In a closed grammar every sound expression (its rules are assigned, its ranges have min <= max
-- and its matchers stay inside the input), parsed to any depth on a valid context, fails none of
-- the assertions on ranges (min <= max), on reset, on lr_pop and on rules without a body, and
-- runs no loop for ever. When it returns, the context is valid (memo entries, cut stack, expected
-- set and positions) and the caller's input, flags, frames, cut stack below its top and
-- diagnostics are kept; it ends at or after its start, and at its start if it failed. When it
-- throws, the exception carries the furthest failure.
pub parse-Safe :
    (g : Grammar) (closed : IsClosed g) (depth : ℕ) (e : Expr) (sound : IsSound g e) (c : Context)
    (v : IsValid g c)
    → Safe g c (Moves c.m_position) (parse depth g e c)
parse-Safe g closed depth e sound c v = parse-ExprSafe g closed depth e sound c v
