-- ===== src/Engine/Run.antt =====
-- The virtual `parse` of an expression, which dispatches on its type, run to a depth of calls.
use peglib.Prelude.{ℕ, zero, suc, true, false, none, pos, negsuc}
use peglib.Context.{ParseResult}
use peglib.Expr.{
  Expr, terminal, terminal_seq, token, matcher, empty, sequence, alternation, zero_or_more,
  one_or_more, n_times, optional, not_expr, and_expr, cut_expr, lexeme, rule, Grammar,
  int64_of_size,
}
use peglib.Engine.{too_deep, Parser, pure}
use peglib.Engine.Terminals.{terminal_parse, token_parse, terminal_seq_parse, matcher_parse}
use peglib.Engine.Combinators.{
  run_skipper, sequence_parse, alternation_parse, repeat_parse_impl, predicate_parse_impl,
  cut_parse, lexeme_parse,
}
use peglib.Engine.Rules.{nonterminal_parse}

-- One level of calls: `p` parses the operands. The bounds of a repetition are those that its
-- constructor sets.
unfoldable pub step : Grammar → (Expr → Parser ParseResult) → Expr → Parser ParseResult
step g p (terminal v) = terminal_parse g.byte_sized v
step g p (terminal_seq vs) = terminal_seq_parse g.byte_sized vs
step g p (token v) = token_parse g.byte_sized v
step g p (matcher fn) = matcher_parse fn
step g p empty = pure (record { success = true; tree = none })
step g p (sequence es) = sequence_parse p (run_skipper (nonterminal_parse g p)) es
step g p (alternation es) = alternation_parse p es
step g p (zero_or_more e) =
    repeat_parse_impl (p e) (run_skipper (nonterminal_parse g p)) 0 (negsuc 0)
step g p (one_or_more e) =
    repeat_parse_impl (p e) (run_skipper (nonterminal_parse g p)) 1 (negsuc 0)
step g p (n_times e n) =
    repeat_parse_impl (p e) (run_skipper (nonterminal_parse g p)) n (int64_of_size n)
step g p (optional e) = repeat_parse_impl (p e) (run_skipper (nonterminal_parse g p)) 0 (pos 1)
step g p (not_expr e) = predicate_parse_impl (p e) true
step g p (and_expr e) = predicate_parse_impl (p e) false
step g p cut_expr = cut_parse
step g p (lexeme e) = lexeme_parse (p e)
step g p (rule id name) = nonterminal_parse g p id

unfoldable pub parse : ℕ → Grammar → Expr → Parser ParseResult
parse zero g e c = too_deep
parse (suc depth) g e c = step g (parse depth g) e c
