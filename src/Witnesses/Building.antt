-- ===== src/Witnesses/Building.antt =====
-- The theorems about building and printing grammars at concrete inputs.
use peglib.Prelude.{ℕ, ◌≡◌, ◌↔◌, refl, true, List, [], ◌∷◌, ◌++◌, none, some}
use peglib.ParseError.{Bytes}
use peglib.Expr.{Expr, nil, cons, terminal, sequence, cut_expr, rule, range, Grammar}
use peglib.Invariant.{IsDefined, IsSound}
use peglib.Grammar.{find_rule}
use peglib.Grammar.Refs.{collect_rule_refs, refs_of}
use peglib.Grammar.Names.{In}
use peglib.Grammar.Table.{get_or_create, assign_rule}
use peglib.Grammar.Build.{IsBuilt, define_rule, define_rule-IsBuilt}
use peglib.Grammar.Dot.{dot_escape, dot_edges}
use peglib.Grammar.Dot.Escape.{read_quoted, read_quoted-dot_escape}
use peglib.Grammar.Dot.Edges.{IsEdge, dot_edges_lem}
use peglib.Operators.{in_sequence, either}
use peglib.Operators.Laws.{in_sequence_assoc, either_assoc, collect_rule_refs-in_sequence}
use peglib.Samples.{sums, e_name}

abbrev letter : Expr
letter = terminal (range b'a' b'z')

abbrev call_e : Expr
call_e = rule 0 e_name

in_sequence_assoc_example :
    in_sequence (in_sequence letter call_e) (sequence (cons letter (cons cut_expr nil)))
    ≡ in_sequence letter (in_sequence call_e (sequence (cons letter (cons cut_expr nil))))
in_sequence_assoc_example =
    in_sequence_assoc letter call_e (sequence (cons letter (cons cut_expr nil)))

either_assoc_example : either (either letter call_e) letter ≡ either letter (either call_e letter)
either_assoc_example = either_assoc letter call_e letter

collect_rule_refs-in_sequence_example :
    (collect_rule_refs (in_sequence call_e letter) []
      ≡ collect_rule_refs letter (collect_rule_refs call_e []))
    × (collect_rule_refs (either call_e letter) []
        ≡ collect_rule_refs letter (collect_rule_refs call_e []))
collect_rule_refs-in_sequence_example = collect_rule_refs-in_sequence call_e letter []

read_quoted-dot_escape_example :
    read_quoted (dot_escape (b'a' ∷ b'"' ∷ b'\n' ∷ []) ++ b'"' ∷ b';' ∷ [])
    ≡ some (b'a' ∷ b'"' ∷ b'\n' ∷ [], b';' ∷ [])
read_quoted-dot_escape_example = read_quoted-dot_escape (b'a' ∷ b'"' ∷ b'\n' ∷ []) (b';' ∷ [])

dot_edges_lem_example :
    (edges : List (Bytes × Bytes)) × (dot_edges sums ≡ some edges)
    × ((a b : Bytes) → IsEdge a b edges ↔ In b (refs_of sums a))
dot_edges_lem_example = dot_edges_lem sums

abbrev blank_grammar : Grammar
blank_grammar = record {
  non_terminals = [];
  m_rules = [];
  m_start = [];
  m_skipper = none;
  byte_sized = true;
}

blank-IsBuilt : IsBuilt blank_grammar
unfolding find_rule
blank-IsBuilt = record {
  closed = record { bodies = λ id nt e found body. absurd cc };
  table = λ name id found. absurd cc;
}

-- e = [a-z] e, which refers to itself
abbrev looping : Expr
looping = sequence (cons letter (cons call_e nil))

looping-IsSound : IsSound (define_rule e_name looping blank_grammar) looping
unfolding get_or_create find_rule assign_rule
looping-IsSound = (refl, ((_, _, refl, refl), tt))

define_rule-IsBuilt_example :
    IsBuilt (define_rule e_name looping blank_grammar)
    × ((id : ℕ) × (find_rule (define_rule e_name looping blank_grammar).m_rules e_name ≡ some id)
        × IsDefined (define_rule e_name looping blank_grammar) id)
define_rule-IsBuilt_example =
    define_rule-IsBuilt e_name looping blank_grammar blank-IsBuilt looping-IsSound
