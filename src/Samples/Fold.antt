-- ===== src/Samples/Fold.antt =====
-- Folds of the trees that parses build.
use peglib.Prelude.{
  ℕ, ◌+◌, Bool, true, List, [], ◌∷◌, Option, none, some, ◌≡◌, refl, if◌then◌else◌, ltb,
}
use peglib.Context.{Context, ParseResult, input_size}
use peglib.Expr.{
  Expr, nil, cons, terminal, token, matcher, sequence, alternation, zero_or_more, not_expr, lexeme,
  rule, value, range, Grammar,
}
use peglib.ResultType.{
  ContextTypes, result_of, results_of, rep_of, opt_of, filter_void, collapse, all_same, is_same,
  are_same,
}
use peglib.Fold.{
  Folded, folded, pure, Value, element, done, ◌▹◌, TypedFold, fold_each, fold_rep, fold_expr,
  dispatch, fold_seq,
}
use peglib.Fold.Actions.{fold, Action, fold_and_invoke}
use peglib.Engine.{Outcome, ok}
use peglib.Operators.{bang}
use peglib.Samples.{sums, run_expr, rule_of, e_name, final}

-- The nodes of the syntax tree are numbers.
abbrev pub number_nodes : ContextTypes
number_nodes = record { value_type = 0; node_type = 1 }

abbrev pub no_folds : ℕ → Option (TypedFold ℕ)
no_folds id = none

abbrev value_in : Folded (Value ℕ) → Option (Value ℕ)
value_in (folded v c) = some v
value_in _ = none

abbrev fold_outcome : Expr → Outcome ParseResult → Option (Value ℕ)
unfolding fold result_of results_of rep_of opt_of filter_void collapse all_same is_same are_same
    fold_each fold_rep fold_expr dispatch fold_seq
fold_outcome e (ok r c) = value_in (fold number_nodes no_folds 0 e r.tree c)
fold_outcome e _ = none

-- The typed value of an expression that is matched against an input.
value_of : Expr → List ℕ → Option (Value ℕ)
unfolding run_expr fold_outcome
value_of e input = fold_outcome e (run_expr 9 sums e input)

abbrev pub digit : Expr
digit = token (range b'0' b'9')

-- 'x' digit
abbrev pub marked : Expr
marked = sequence (cons (terminal (value b'x')) (cons digit nil))

marked_value : value_of marked (b'x' ∷ b'5' ∷ []) ≡ some (element b'5')
unfolding value_of
marked_value = refl

-- *'x' digit: the repetition has pushed a node, which the fold takes for the digit's.
starred_value :
    value_of
      (sequence (cons (zero_or_more (terminal (value b'x'))) (cons digit nil)))
      (b'x' ∷ b'x' ∷ b'5' ∷ [])
    ≡ some (element b'x')
unfolding value_of
starred_value = refl

-- A matcher of any element.
abbrev any : Expr
any = matcher (λ c s.
    if ltb s.start (input_size c)
    then some (record { start = s.start; end = s.start + 1 })
    else none)

-- (any digit) | ('b' any), where the 'b' is a token
abbrev swapped : Expr
swapped = alternation (
    cons (sequence (cons any (cons digit nil)))
      (cons (sequence (cons (token (value b'b')) (cons any nil))) nil))

swapped_value : value_of swapped (b'b' ∷ b'c' ∷ []) ≡ some (element b'b')
unfolding value_of
swapped_value = refl

-- The same in a lexeme, as the first branch of another alternation, which stamps its own index on
-- the node.
stamped_twice :
    value_of (alternation (cons (lexeme swapped) (cons digit nil))) (b'b' ∷ b'c' ∷ [])
    ≡ some (element b'c')
unfolding value_of
stamped_twice = refl

abbrev ending_of : Outcome ParseResult → Option (Bool × ℕ)
ending_of (ok r c) = some (r.success, c.m_position)
ending_of _ = none

-- Where an expression ends, if it matches.
match_of : Expr → List ℕ → Option (Bool × ℕ)
unfolding run_expr bang
match_of e input = ending_of (run_expr 9 sums e input)

abbrev an_x : Expr
an_x = terminal (value b'x')

not_not : match_of (not_expr (not_expr an_x)) (b'x' ∷ []) ≡ some (true, 0)
unfolding match_of
not_not = refl

-- `!!x` is `x`, and takes the element.
double_bang : match_of (bang (bang an_x)) (b'x' ∷ []) ≡ some (true, 1)
unfolding match_of
double_bang = refl

-- The marked digit as a rule with an action.
abbrev pub marks : Grammar
marks = record {
  non_terminals = record (rule_of e_name marked) { has_typed_fold = true } ∷ [];
  m_rules = (e_name, 0) ∷ [];
  m_start = e_name;
  m_skipper = none;
  byte_sized = true;
}

-- The context after a match of the rule. The loop of a rule runs its body twice, for two nodes each,
-- so the rule's own node is the fifth.
abbrev pub marks_end : Context
marks_end = final (run_expr 9 marks (rule 0 e_name) (b'x' ∷ b'5' ∷ []))

-- An action on one element.
abbrev pub take_element : Action ℕ
take_element sp (element y ▹ done) = pure y
take_element sp _ = pure 0

abbrev number_in : Folded ℕ → Option ℕ
number_in (folded n c) = some n
number_in _ = none

invoked :
    number_in (fold_and_invoke number_nodes no_folds 0 take_element marked (some 4) marks_end)
    ≡ some b'5'
unfolding run_expr fold_and_invoke fold result_of results_of rep_of opt_of filter_void collapse
    all_same is_same are_same fold_each fold_rep fold_expr dispatch fold_seq
invoked = refl
