-- ===== src/Expr.antt =====
-- The expression types of include/peglib/Terminals.h and Combinators.h, the rules of
-- NonTerminal.h and the members of Grammar.h that a parse reads. A static C++ expression tree is a
-- value of `Expr`; the children of a tuple are `Exprs`.
use peglib.Prelude.{
  ℕ, ◌-◌, ◌^◌, Bool, true, false, List, [], ◌∷◌, Option, ltb, leb, ◌==◌, ◌&&◌, ◌||◌, if◌then◌else◌,
  ℤ, pos, negsuc,
}
use peglib.ParseError.{Bytes}
use peglib.Context.{Context, Span}

-- The four kinds of value that `symbolConsumable` is overloaded for.
pub data TerminalValue : Type 0 where
  value : ℕ → TerminalValue
  set : List ℕ → TerminalValue
  range : ℕ → ℕ → TerminalValue
  predicate : (ℕ → Bool) → TerminalValue

unfoldable pub contains : List ℕ → ℕ → Bool
contains [] v = false
contains (x ∷ xs) v = (v == x) || contains xs v

-- What `symbolConsumable` asserts of its second argument.
abbrev pub is_proper : TerminalValue → Bool
is_proper (range lo hi) = leb lo hi
is_proper _ = true

-- The answer, where the assertion holds.
unfoldable pub symbol_consumable : ℕ → TerminalValue → Bool
unfolding contains
symbol_consumable v (value x) = v == x
symbol_consumable v (set xs) = contains xs v
symbol_consumable v (range lo hi) = leb lo v && leb v hi
symbol_consumable v (predicate f) = f v

-- `rule` is a Rule handle: the NonTerminal it points to and its name. `matcher` holds the user's
-- function, which reads the context.
mutual
  pub data Expr : Type 0 where
    terminal : TerminalValue → Expr
    terminal_seq : List ℕ → Expr
    token : TerminalValue → Expr
    matcher : (Context → Span → Option Span) → Expr
    empty : Expr
    sequence : Exprs → Expr
    alternation : Exprs → Expr
    zero_or_more : Expr → Expr
    one_or_more : Expr → Expr
    n_times : Expr → ℕ → Expr
    optional : Expr → Expr
    not_expr : Expr → Expr
    and_expr : Expr → Expr
    cut_expr : Expr
    lexeme : Expr → Expr
    rule : ℕ → Bytes → Expr

  pub data Exprs : Type 0 where
    nil : Exprs
    cons : Expr → Exprs → Exprs

-- `static_cast<std::int64_t>` of a `std::size_t`.
abbrev pub int64_of_size : ℕ → ℤ
int64_of_size n = if ltb n (2 ^ 63) then pos n else negsuc (2 ^ 64 - n - 1)

-- include/peglib/Recover.h: an empty `std::function` is `none`.
pub record RecoverSpec : Type 0 where
  pub is_sync_token : Option (ℕ → Bool)
  pub label : Bytes

-- A rule's members. `has_typed_fold` tells whether `m_typed_fold` holds a function.
pub record NonTerminal : Type 0 where
  pub m_rule : Option Expr
  pub m_name : Bytes
  pub m_label : Bytes
  pub m_recover : RecoverSpec
  pub has_typed_fold : Bool

-- `m_rules` maps a name to a pointer into `non_terminals`, the objects that the grammar owns.
-- `byte_sized` is `sizeof(CharT) == 1`.
pub record Grammar : Type 0 where
  pub non_terminals : List NonTerminal
  pub m_rules : List (Bytes × ℕ)
  pub m_start : Bytes
  pub m_skipper : Option ℕ
  pub byte_sized : Bool
