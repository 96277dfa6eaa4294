-- ===== src/Operators.antt =====
-- include/peglib/Rule.h: the operators that build expressions. An overload on a type of expression is
-- a clause.
pub mod Laws
use peglib.Prelude.{ℕ}
use peglib.Expr.{
  Expr, Exprs, nil, cons, terminal, sequence, alternation, zero_or_more, one_or_more, n_times,
  optional, not_expr, and_expr, value,
}

-- `std::tuple_cat`
unfoldable pub tuple_cat : Exprs → Exprs → Exprs
tuple_cat nil fs = fs
tuple_cat (cons e es) fs = cons e (tuple_cat es fs)

-- `expr1 >> expr2`
unfoldable pub in_sequence : Expr → Expr → Expr
unfolding tuple_cat
in_sequence (sequence es) (sequence fs) = sequence (tuple_cat es fs)
in_sequence (sequence es) e = sequence (tuple_cat es (cons e nil))
in_sequence e (sequence fs) = sequence (tuple_cat (cons e nil) fs)
in_sequence e f = sequence (cons e (cons f nil))

-- `expr >> value` and `value >> expr`
abbrev pub in_sequence_value : Expr → ℕ → Expr
in_sequence_value e v = in_sequence e (terminal (value v))

abbrev pub value_in_sequence : ℕ → Expr → Expr
value_in_sequence v e = in_sequence (terminal (value v)) e

-- `expr1 | expr2`
unfoldable pub either : Expr → Expr → Expr
unfolding tuple_cat
either (alternation es) (alternation fs) = alternation (tuple_cat es fs)
either (alternation es) e = alternation (tuple_cat es (cons e nil))
either e (alternation fs) = alternation (tuple_cat (cons e nil) fs)
either e f = alternation (cons e (cons f nil))

-- `expr | value` and `value | expr`
abbrev pub either_value : Expr → ℕ → Expr
either_value e v = either e (terminal (value v))

abbrev pub value_either : ℕ → Expr → Expr
value_either v e = either (terminal (value v)) e

-- `*expr`
unfoldable pub star : Expr → Expr
star (zero_or_more e) = zero_or_more e
star e = zero_or_more e

-- `n_rep * expr`
abbrev pub times : ℕ → Expr → Expr
times n e = n_times e n

-- `+expr`
unfoldable pub plus : Expr → Expr
plus (one_or_more e) = one_or_more e
plus e = one_or_more e

-- `-expr`
unfoldable pub minus : Expr → Expr
minus (optional e) = optional e
minus e = optional e

-- `!expr`
unfoldable pub bang : Expr → Expr
bang (not_expr e) = e
bang e = not_expr e

-- `&expr`
unfoldable pub ampersand : Expr → Expr
ampersand (and_expr e) = e
ampersand e = and_expr e
