-- ===== src/Grammar/Handles.antt =====
-- The handles of rules, `Rule` and `RuleHandle` of include/peglib/NonTerminal.h, and the members of
-- `NonTerminal` that they set. A handle is the rule that it points to and its copy of the name.
use peglib.Prelude.{ℕ, Bool, true, false, List, [], ◌∷◌, none, some, if◌then◌else◌, get_or, set}
use peglib.ParseError.{Bytes}
use peglib.Expr.{Expr, rule, RecoverSpec, NonTerminal, Grammar}
use peglib.Grammar.Table.{blank_rule, get_or_create, assign_rule}

pub record Handle : Type 0 where
  pub m_impl : ℕ
  pub m_name : Bytes

-- `grammar[name]`
abbrev pub handle_of : Bytes → Grammar → Grammar × Handle
handle_of name g =
    ((get_or_create name g).0, record { m_impl = (get_or_create name g).1; m_name = name })

-- Writing through the pointer of a handle.
abbrev pub update_rule : ℕ → (NonTerminal → NonTerminal) → Grammar → Grammar
update_rule id f g = record g {
  non_terminals = set g.non_terminals id (f (get_or g.non_terminals id blank_rule));
}

-- A handle in an expression.
abbrev pub as_expr : Handle → Expr
as_expr h = rule h.m_impl h.m_name

-- `handle = expr`
abbrev pub assign : Handle → Expr → Grammar → Grammar
assign h body g = assign_rule h.m_impl h.m_name body g

-- `handle = rhs`, with a handle on the right; `same_object` is `this == &rhs`.
abbrev pub assign_alias : Bool → Handle → Handle → Grammar → Grammar
assign_alias same_object h rhs g = if same_object then g else assign h (as_expr rhs) g

abbrev pub set_label : Handle → Bytes → Grammar → Grammar
set_label h label g = update_rule h.m_impl (λ nt. record nt { m_label = label }) g

abbrev pub set_recovery : Handle → RecoverSpec → Grammar → Grammar
set_recovery h spec g = update_rule h.m_impl (λ nt. record nt { m_recover = spec }) g

-- `peg::recover(rule, spec)`: the handle is passed on.
abbrev pub recover_rule : Handle → RecoverSpec → Grammar → Grammar × Handle
recover_rule h spec g = (set_recovery h spec g, h)

abbrev pub set_typed_fold : Handle → Grammar → Grammar
set_typed_fold h g = update_rule h.m_impl (λ nt. record nt { has_typed_fold = true }) g

-- `m_recover.configured()`
abbrev pub has_recovery : Handle → Grammar → Bool
has_recovery h g = elim (get_or g.non_terminals h.m_impl blank_rule).m_recover.is_sync_token [
  | none ↦ false
  | some f ↦ true
]

-- `clear_body_for_debug`, which a debug build calls on every rule of the table when the grammar is
-- destroyed.
abbrev pub clear_body : ℕ → Grammar → Grammar
clear_body id g = update_rule id (λ nt. record nt { m_rule = none }) g

unfoldable pub poison : List (Bytes × ℕ) → Grammar → Grammar
poison [] g = g
poison ((name, id) ∷ rules) g = poison rules (clear_body id g)

abbrev pub destroy : Grammar → Grammar
unfolding poison
destroy g = poison g.m_rules g
