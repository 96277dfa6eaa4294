-- ===== src/Samples/Sharing.antt =====
-- Tree nodes that the memo table shares between alternatives.
use peglib.Prelude.{ℕ, true, List, [], ◌∷◌, Option, none, some, ◌≡◌, refl, get_elem?}
use peglib.ParseError.{Bytes}
use peglib.Context.{Context, ParseResult, ParseTreeNode}
use peglib.Expr.{
  Expr, nil, cons, terminal, sequence, alternation, rule, value, range, NonTerminal, Grammar,
}
use peglib.Engine.{Outcome, ok}
use peglib.Samples.{rule_of, run_expr, e_name}

abbrev child_of : Context → ℕ → Option ParseTreeNode → Option ParseTreeNode
child_of c i none = none
child_of c i (some n) = elim (get_elem? n.children i) [
  | some (some k) ↦ get_elem? c.m_node_arena k
  | _ ↦ none
]

-- The node at the end of a path of child numbers, the last one first.
abbrev node_at : Context → Option ℕ → List ℕ → Option ParseTreeNode
node_at c none path = none
node_at c (some k) [] = get_elem? c.m_node_arena k
node_at c (some k) (i ∷ path) = child_of c i (node_at c (some k) path)

abbrev name_in : Option ParseTreeNode → Option Bytes
name_in none = none
name_in (some n) = some n.name

abbrev winner_in : Option ParseTreeNode → Option ℕ
winner_in none = none
winner_in (some n) = n.alt_winner

abbrev tree_of : List ℕ → Outcome ParseResult → Option ParseTreeNode
tree_of path (ok r c) = node_at c r.tree path
tree_of path _ = none

abbrev a_name : Bytes
a_name = b'a' ∷ []

abbrev n_name : Bytes
n_name = b'n' ∷ []

abbrev followed : Expr → ℕ → Expr
followed e c = sequence (cons e (cons (terminal (value c)) nil))

-- e = body;  a = n;  n = [0-9]
abbrev renaming : Expr → Grammar
renaming body = record {
  non_terminals =
      rule_of e_name body
      ∷ rule_of a_name (rule 2 n_name)
      ∷ rule_of n_name (terminal (range b'0' b'9'))
      ∷ [];
  m_rules = (e_name, 0) ∷ (a_name, 1) ∷ (n_name, 2) ∷ [];
  m_start = e_name;
  m_skipper = none;
  byte_sized = true;
}

-- The name of the first child, in the tree that the start rule makes of "1y".
first_name : Expr → Option Bytes
unfolding run_expr
first_name body =
    name_in (tree_of (0 ∷ []) (run_expr 20 (renaming body) (rule 0 e_name) (b'1' ∷ b'y' ∷ [])))

-- e = n 'y'
named_n : first_name (followed (rule 2 n_name) b'y') ≡ some n_name
unfolding first_name
named_n = refl

-- e = a 'x' | n 'y': the node of n bears the name of a, which adopted it in the branch that failed.
renamed :
    first_name (
      alternation (cons (followed (rule 1 a_name) b'x') (cons (followed (rule 2 n_name) b'y') nil)))
    ≡ some a_name
unfolding first_name
renamed = refl

abbrev x_name : Bytes
x_name = b'x' ∷ []

abbrev y_name : Bytes
y_name = b'y' ∷ []

abbrev typed_rule : Bytes → Expr → NonTerminal
typed_rule name body = record (rule_of name body) { has_typed_fold = true }

abbrev quote_or : Expr → Expr → Expr
quote_or e f = alternation (cons e (cons f nil))

-- e = body;  x = n | 'q';  y = 'q' | n;  n = [0-9]; each but e with an action
abbrev stamping : Expr → Grammar
stamping body = record {
  non_terminals =
      rule_of e_name body
      ∷ typed_rule x_name (quote_or (rule 3 n_name) (terminal (value b'q')))
      ∷ typed_rule y_name (quote_or (terminal (value b'q')) (rule 3 n_name))
      ∷ typed_rule n_name (terminal (range b'0' b'9'))
      ∷ [];
  m_rules = (e_name, 0) ∷ (x_name, 1) ∷ (y_name, 2) ∷ (n_name, 3) ∷ [];
  m_start = e_name;
  m_skipper = none;
  byte_sized = true;
}

-- The branch that the node below x records, in the tree that the start rule makes of "1c".
branch_of_x : Expr → Option ℕ
unfolding run_expr
branch_of_x body =
    winner_in
      (tree_of (0 ∷ 0 ∷ []) (run_expr 20 (stamping body) (rule 0 e_name) (b'1' ∷ b'c' ∷ [])))

-- e = x 'c'
first_branch : branch_of_x (followed (rule 1 x_name) b'c') ≡ some 0
unfolding branch_of_x
first_branch = refl

-- e = x 'a' | y 'b' | x 'c': the branch that y took stays on the node, which x has from the memo
-- table.
stamped_over :
    branch_of_x (
      alternation (
        cons
          (followed (rule 1 x_name) b'a')
          (cons (followed (rule 2 y_name) b'b') (cons (followed (rule 1 x_name) b'c') nil))))
    ≡ some 1
unfolding branch_of_x
stamped_over = refl
