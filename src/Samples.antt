-- ===== src/Samples.antt =====
-- Grammars and runs: the inputs at which the theorems are applied, and tests.
pub mod Fold
pub mod Skipping
pub mod Sharing
use peglib.Prelude.{ℕ, Bool, true, false, List, [], ◌∷◌, Option, none, some, ◌≡◌, refl}
use peglib.ParseError.{Bytes, bytes_eq, bytes_lt, item_eq, item_lt, lower_bound, insert_at, insert}
use peglib.ParseError.Escape.{
  integral_to_display, escape_default, escape_element, escape_char_for_expected,
  escape_string_for_expected,
}
use peglib.Context.{
  Context, ParseResult, failed, from_range, ended, next, rule_state, update_rule_state, memo_get,
  in_progress, set_growing_head, clear_growing_head, clear_siblings_at, pop_cut, record_failure,
}
use peglib.Expr.{
  Expr, nil, cons, terminal, sequence, alternation, n_times, not_expr, cut_expr, rule, range, value,
  RecoverSpec, NonTerminal, Grammar, symbol_consumable,
}
use peglib.Engine.{Outcome, ok, throw, fault, diverged, too_deep}
use peglib.Engine.Terminals.{
  terminal_expected, record_terminal_expected, consumable, terminal_parse, token_parse, consume_all,
  record_expected, terminal_seq_parse, matcher_parse,
}
use peglib.Engine.Combinators.{
  run_skipper, parse_seq, sequence_parse, parse_alt, alternation_parse, repeat_loop, resize,
  repeat_end, repeat_body, repeat_parse_impl, predicate_parse_impl, cut_parse, lexeme_parse,
}
use peglib.Engine.Rules.{
  mark_head, become_head, memo_hit, grow_loop, parse_impl, record_rule_failure, sync_scan,
  resume_at, recover, fail_rule, finish_rule, first_parse, nonterminal_parse,
}
use peglib.Engine.Run.{step, parse}
use peglib.Grammar.{Call, outcome, parse_string}

abbrev pub no_recovery : RecoverSpec
no_recovery = record { is_sync_token = none; label = [] }

abbrev pub rule_of : Bytes → Expr → NonTerminal
rule_of name body = record {
  m_rule = some body;
  m_name = name;
  m_label = [];
  m_recover = no_recovery;
  has_typed_fold = false;
}

abbrev pub e_name : Bytes
e_name = b'e' ∷ []

abbrev pub num_name : Bytes
num_name = b'n' ∷ []

-- e = e '+' n | n;  n = [0-9]
abbrev pub sums : Grammar
sums = record {
  non_terminals =
      rule_of e_name (
        alternation (
          cons
            (sequence
              (cons (rule 0 e_name) (cons (terminal (value b'+')) (cons (rule 1 num_name) nil))))
            (cons (rule 1 num_name) nil)))
      ∷ rule_of num_name (terminal (range b'0' b'9'))
      ∷ [];
  m_rules = (e_name, 0) ∷ (num_name, 1) ∷ [];
  m_start = e_name;
  m_skipper = none;
  byte_sized = true;
}

-- How a run ended, and where.
data Ending : Type 0 where
  returned : Bool → ℕ → Ending
  thrown : ℕ → Ending
  broken deep refused : Ending

abbrev ending : Call Bool → Ending
ending (outcome (ok b c)) = returned b c.m_position
ending (outcome (throw e c)) = thrown e.m_pos
ending (outcome too_deep) = deep
ending (outcome fault) = broken
ending (outcome diverged) = broken
ending _ = refused

-- `parse_string`, with all that it calls.
run_string : ℕ → Grammar → List ℕ → Ending
unfolding bytes_eq bytes_lt item_eq item_lt lower_bound insert_at insert integral_to_display
    escape_default escape_element escape_char_for_expected escape_string_for_expected from_range
    ended next rule_state update_rule_state memo_get in_progress set_growing_head clear_growing_head
    clear_siblings_at pop_cut record_failure symbol_consumable terminal_expected
    record_terminal_expected consumable terminal_parse token_parse consume_all record_expected
    terminal_seq_parse matcher_parse run_skipper parse_seq sequence_parse parse_alt
    alternation_parse repeat_loop resize repeat_end repeat_body repeat_parse_impl
    predicate_parse_impl cut_parse lexeme_parse mark_head become_head memo_hit grow_loop parse_impl
    record_rule_failure sync_scan resume_at recover fail_rule finish_rule first_parse
    nonterminal_parse step parse parse_string
run_string depth g input = ending (parse_string depth g input)

-- `parse` of an expression on an input, with all that it calls.
unfoldable pub run_expr : ℕ → Grammar → Expr → List ℕ → Outcome ParseResult
unfolding bytes_eq bytes_lt item_eq item_lt lower_bound insert_at insert integral_to_display
    escape_default escape_element escape_char_for_expected escape_string_for_expected from_range
    ended next rule_state update_rule_state memo_get in_progress set_growing_head clear_growing_head
    clear_siblings_at pop_cut record_failure symbol_consumable terminal_expected
    record_terminal_expected consumable terminal_parse token_parse consume_all record_expected
    terminal_seq_parse matcher_parse run_skipper parse_seq sequence_parse parse_alt
    alternation_parse repeat_loop resize repeat_end repeat_body repeat_parse_impl
    predicate_parse_impl cut_parse lexeme_parse mark_head become_head memo_hit grow_loop parse_impl
    record_rule_failure sync_scan resume_at recover fail_rule finish_rule first_parse
    nonterminal_parse step parse
run_expr depth g e input = parse depth g e (from_range input)

abbrev pub sum_text : Bytes
sum_text = b'1' ∷ b'+' ∷ b'2' ∷ []

abbrev pub bad_text : Bytes
bad_text = b'x' ∷ []

-- The context that a call returned.
abbrev pub final : {A : Type 0} → Outcome A → Context
final (ok a c) = c
final (throw e c) = c
final _ = from_range []

abbrev pub num_on_x : Outcome ParseResult
num_on_x = nonterminal_parse sums (parse 3 sums) 1 (from_range bad_text)

pub num_on_x-fails : num_on_x ≡ ok failed (final num_on_x)
unfolding bytes_eq bytes_lt item_eq item_lt lower_bound insert_at insert integral_to_display
    escape_default escape_element escape_char_for_expected escape_string_for_expected from_range
    ended next rule_state update_rule_state memo_get in_progress set_growing_head clear_growing_head
    clear_siblings_at pop_cut record_failure symbol_consumable terminal_expected
    record_terminal_expected consumable terminal_parse token_parse consume_all record_expected
    terminal_seq_parse matcher_parse run_skipper parse_seq sequence_parse parse_alt
    alternation_parse repeat_loop resize repeat_end repeat_body repeat_parse_impl
    predicate_parse_impl cut_parse lexeme_parse mark_head become_head memo_hit grow_loop parse_impl
    record_rule_failure sync_scan resume_at recover fail_rule finish_rule first_parse
    nonterminal_parse step parse
num_on_x-fails = refl

left_recursion : run_string 12 sums (b'1' ∷ b'+' ∷ b'2' ∷ b'+' ∷ b'3' ∷ b')' ∷ []) ≡ returned true 5
unfolding run_string
left_recursion = refl

-- a = (('x' cut | 'y') 'z') | a 'q'
abbrev cut_in_recursion : Grammar
cut_in_recursion = record {
  non_terminals =
      rule_of e_name (
        alternation (
          cons
            (sequence (
              cons
                (alternation (
                  cons (sequence (cons (terminal (value b'x')) (cons cut_expr nil)))
                    (cons (terminal (value b'y')) nil)))
                (cons (terminal (value b'z')) nil)))
            (cons (sequence (cons (rule 0 e_name) (cons (terminal (value b'q')) nil))) nil)))
      ∷ [];
  m_rules = (e_name, 0) ∷ [];
  m_start = e_name;
  m_skipper = none;
  byte_sized = true;
}

endless : run_string 200 cut_in_recursion (b'x' ∷ []) ≡ deep
unfolding run_string
endless = refl

-- 0 * 'x'
abbrev zero_times : Grammar
zero_times = record {
  non_terminals = rule_of e_name (n_times (terminal (value b'x')) 0) ∷ [];
  m_rules = (e_name, 0) ∷ [];
  m_start = e_name;
  m_skipper = none;
  byte_sized = true;
}

zero_times_consumes : run_string 9 zero_times (b'x' ∷ b'x' ∷ []) ≡ returned true 2
unfolding run_string
zero_times_consumes = refl

-- a = ('x' cut !'y') | 'z'
abbrev silent : Grammar
silent = record {
  non_terminals =
      rule_of e_name (
        alternation (
          cons
            (sequence (
              cons (terminal (value b'x'))
                (cons cut_expr (cons (not_expr (terminal (value b'y'))) nil))))
            (cons (terminal (value b'z')) nil)))
      ∷ [];
  m_rules = (e_name, 0) ∷ [];
  m_start = e_name;
  m_skipper = none;
  byte_sized = true;
}

abbrev has_told : Call Bool → Option (Bool × Bool)
has_told (outcome (ok matched c)) = some (matched, c.m_has_error)
has_told _ = none

told_of : ℕ → Grammar → List ℕ → Option (Bool × Bool)
unfolding bytes_eq bytes_lt item_eq item_lt lower_bound insert_at insert integral_to_display
    escape_default escape_element escape_char_for_expected escape_string_for_expected from_range
    ended next rule_state update_rule_state memo_get in_progress set_growing_head clear_growing_head
    clear_siblings_at pop_cut record_failure symbol_consumable terminal_expected
    record_terminal_expected consumable terminal_parse token_parse consume_all record_expected
    terminal_seq_parse matcher_parse run_skipper parse_seq sequence_parse parse_alt
    alternation_parse repeat_loop resize repeat_end repeat_body repeat_parse_impl
    predicate_parse_impl cut_parse lexeme_parse mark_head become_head memo_hit grow_loop parse_impl
    record_rule_failure sync_scan resume_at recover fail_rule finish_rule first_parse
    nonterminal_parse step parse parse_string
told_of depth g input = has_told (parse_string depth g input)

-- The parse fails, and there is no error to take.
silent_failure : told_of 9 silent (b'x' ∷ b'y' ∷ []) ≡ some (false, false)
unfolding told_of
silent_failure = refl
