-- ===== src/Termination/Terminals.antt =====
-- The terminals of include/peglib/Terminals.h on a calm context.
use peglib.Prelude.{
  leb, ◌≡◌, true, Bool, List, [], ◌∷◌, ℕ, Option, none, some, Bool-cases, inl, inr,
}
use peglib.Context.{input_size, Context, Span, next, set_state}
use peglib.Expr.{TerminalValue, value, is_proper}
use peglib.Engine.Terminals.{
  record_terminal_expected, consumable, terminal_parse, token_parse, consume_all, record_expected,
  terminal_seq_parse, accept_span, matcher_parse,
}
use peglib.Termination.{IsCalm, Ends}
use peglib.Termination.Calm.{IsCalm-Untouched, next-Untouched, record_failure-Untouched}

module _ (c : Context) (calm : IsCalm c) where
  next-IsCalm : IsCalm (next c)
  next-IsCalm = IsCalm-Untouched c (next c) (next-Untouched c) calm

  pub terminal_parse-Ends :
      (byte_sized : Bool) (t : TerminalValue)
      → is_proper t ≡ true
      → Ends (terminal_parse byte_sized t c)
  unfolding terminal_parse record_terminal_expected
  terminal_parse-Ends byte_sized t proper = rw proper elim (Bool-cases (consumable t c)) [
    | inl h ↦ rw h next-IsCalm
    | inr h ↦ rw h (IsCalm-Untouched c _ (record_failure-Untouched c.m_position _ c) calm)
  ]

  pub token_parse-Ends :
      (byte_sized : Bool) (t : TerminalValue)
      → is_proper t ≡ true
      → Ends (token_parse byte_sized t c)
  unfolding token_parse record_terminal_expected
  token_parse-Ends byte_sized t proper = rw proper elim (Bool-cases (consumable t c)) [
    | inl h ↦ rw h (assumption next-IsCalm)
    | inr h ↦ rw h (IsCalm-Untouched c _ (record_failure-Untouched c.m_position _ c) calm)
  ]

  accept_span-Ends : (consumed : Option Span) → Ends (accept_span c.m_position consumed c)
  unfolding accept_span
  accept_span-Ends none = calm
  accept_span-Ends (some s) = elim (Bool-cases (leb s.end (input_size c))) [
    | inl h ↦ rw h (assumption calm)
    | inr h ↦ rw h tt
  ]

  pub matcher_parse-Ends : (fn : Context → Span → Option Span) → Ends (matcher_parse fn c)
  unfolding matcher_parse
  matcher_parse-Ends fn =
      accept_span-Ends (fn c (record { start = c.m_position; end = c.m_position }))

consume_all-IsCalm : (vs : List ℕ) (c : Context) → IsCalm c → IsCalm (consume_all vs c).0
unfolding consume_all
consume_all-IsCalm [] c calm = calm
consume_all-IsCalm (x ∷ xs) c calm = elim (Bool-cases (consumable (value x) c)) [
  | inl h ↦ rw h (consume_all-IsCalm xs (next c) (next-IsCalm c calm))
  | inr h ↦ rw h calm
]

pub terminal_seq_parse-Ends :
    (byte_sized : Bool) (vs : List ℕ) (c : Context)
    → IsCalm c
    → Ends (terminal_seq_parse byte_sized vs c)
unfolding terminal_seq_parse record_expected
terminal_seq_parse-Ends byte_sized vs c calm =
    let consumed = consume_all-IsCalm vs c calm in
    let back = set_state c.m_position (consume_all vs c).0 in
    let kept : IsCalm back = assumption consumed in
    elim (Bool-cases (consume_all vs c).1) [
      | inl h ↦ rw h consumed
      | inr h ↦ rw h (IsCalm-Untouched back _ (record_failure-Untouched c.m_position _ back) kept)
    ]
