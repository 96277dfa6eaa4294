-- ===== src/Witnesses/Nodes.antt =====
-- The theorem about a rule's tree node at a concrete input.
use peglib.Prelude.{ℕ, ◌≡◌, refl, ◌∙◌, sym, true, List, [], ◌∷◌, none, some, get_elem?}
use peglib.Context.{Context, ParseResult, ParseTreeNode, from_range}
use peglib.Expr.{rule, terminal, range, NonTerminal}
use peglib.Engine.{ok}
use peglib.Engine.Rules.{nonterminal_parse}
use peglib.Engine.Run.{parse, step}
use peglib.Engine.Nodes.{Spans, nonterminal_parse-Spans}
use peglib.Samples.{sums, rule_of, num_name, run_expr, final}

abbrev one_digit : List ℕ
one_digit = b'1' ∷ b'+' ∷ []

abbrev after_digit : Context
after_digit = final (run_expr 9 sums (rule 1 num_name) one_digit)

abbrev with_node : ParseResult
with_node = record { success = true; tree = some 0 }

abbrev digit_node : ParseTreeNode
digit_node = record {
  name = num_name;
  start_offset = 0;
  end_offset = 1;
  children = [];
  producer = some 1;
  alt_winner = none;
}

abbrev digits : NonTerminal
digits = rule_of num_name (terminal (range b'0' b'9'))

digit_run : run_expr 9 sums (rule 1 num_name) one_digit ≡ ok with_node after_digit
unfolding run_expr
digit_run = refl

digit_call :
    run_expr 9 sums (rule 1 num_name) one_digit
    ≡ nonterminal_parse sums (parse 8 sums) 1 (from_range one_digit)
unfolding run_expr parse step
digit_call = refl

digit_stands : get_elem? after_digit.m_node_arena 0 ≡ some digit_node
unfolding run_expr
digit_stands = refl

nonterminal_parse-Spans_example : Spans digits 1 0 digit_node after_digit
unfolding run_expr
nonterminal_parse-Spans_example =
    nonterminal_parse-Spans sums (parse 8 sums) 1 digits (from_range one_digit) after_digit
      with_node 0 digit_node refl refl (sym digit_call ∙ digit_run) refl digit_stands
