-- ===== src/Samples/Skipping.antt =====
-- Grammars with a skipper, and repetitions of what matches nothing.
use peglib.Prelude.{ℕ, true, false, List, [], ◌∷◌, some, none, ◌≡◌, refl}
use peglib.ParseError.{Bytes}
use peglib.Expr.{
  Expr, nil, cons, terminal, sequence, alternation, zero_or_more, n_times, empty, lexeme, rule,
  value, Grammar,
}
use peglib.Samples.{returned, rule_of, run_string, e_name}

abbrev pub list_name : Bytes
list_name = b'l' ∷ []

abbrev pub space_name : Bytes
space_name = b's' ∷ []

abbrev pub list_body : Expr
list_body = sequence (
    cons (terminal (value b'('))
      (cons (zero_or_more (rule 0 list_name)) (cons (terminal (value b')')) nil)))

abbrev pub space_body : Expr
space_body = zero_or_more (terminal (value b' '))

-- l = '(' l* ')', with spaces skipped
abbrev pub lists : Grammar
lists = record {
  non_terminals = rule_of list_name list_body ∷ rule_of space_name space_body ∷ [];
  m_rules = (list_name, 0) ∷ (space_name, 1) ∷ [];
  m_start = list_name;
  m_skipper = some 1;
  byte_sized = true;
}

-- " (( )())"
abbrev pub list_text : List ℕ
list_text = b' ' ∷ b'(' ∷ b'(' ∷ b' ' ∷ b')' ∷ b'(' ∷ b')' ∷ b')' ∷ []

nested_lists : run_string 20 lists list_text ≡ returned true 8
unfolding run_string
nested_lists = refl

abbrev pair_name : Bytes
pair_name = b'p' ∷ []

-- The rule p = 'x' 'y', called by a start rule with the given body; spaces are skipped.
abbrev pairs : Expr → Grammar
pairs body = record {
  non_terminals =
      rule_of e_name body
      ∷ rule_of pair_name
          (sequence (cons (terminal (value b'x')) (cons (terminal (value b'y')) nil)))
      ∷ rule_of space_name space_body
      ∷ [];
  m_rules = (e_name, 0) ∷ (pair_name, 1) ∷ (space_name, 2) ∷ [];
  m_start = e_name;
  m_skipper = some 2;
  byte_sized = true;
}

-- "x yw"
abbrev pair_text : List ℕ
pair_text = b'x' ∷ b' ' ∷ b'y' ∷ b'w' ∷ []

-- e = p 'w'
pair_matches :
    run_string 20
      (pairs (sequence (cons (rule 1 pair_name) (cons (terminal (value b'w')) nil))))
      pair_text
    ≡ returned true 4
unfolding run_string
pair_matches = refl

-- e = lexeme(p) 'z' | p 'w': the answer of p without skipping is replayed where skipping is on.
skipping_forgotten :
    run_string 20
      (pairs (
        alternation (
          cons
            (sequence (cons (lexeme (rule 1 pair_name)) (cons (terminal (value b'z')) nil)))
            (cons (sequence (cons (rule 1 pair_name) (cons (terminal (value b'w')) nil))) nil))))
      pair_text
    ≡ returned false 0
unfolding run_string
skipping_forgotten = refl

abbrev nothings : ℕ → Grammar
nothings n = record {
  non_terminals = rule_of e_name (n_times empty n) ∷ [];
  m_rules = (e_name, 0) ∷ [];
  m_start = e_name;
  m_skipper = none;
  byte_sized = true;
}

-- 2 * empty fails, and 1 * empty does not.
two_nothings : run_string 9 (nothings 2) [] ≡ returned false 0
unfolding run_string
two_nothings = refl

one_nothing : run_string 9 (nothings 1) [] ≡ returned true 0
unfolding run_string
one_nothing = refl
