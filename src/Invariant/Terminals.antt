-- ===== src/Invariant/Terminals.antt =====
-- The invariant over the terminals of include/peglib/Terminals.h.
use peglib.Prelude.{
  ℕ, ◌≤◌, ◌≡◌, refl, Bool, true, List, [], ◌∷◌, Option, none, some, arith, leb, le→leb, Bool-cases,
  inl, inr,
}
use peglib.ParseError.{ExpectedItem}
use peglib.Context.{Context, Span, input_size, next, set_state, record_failure}
use peglib.Expr.{TerminalValue, value, Grammar, is_proper}
use peglib.Engine.Terminals.{
  record_terminal_expected, consumable, terminal_parse, token_parse, consume_all, record_expected,
  terminal_seq_parse, accept_span, matcher_parse,
}
use peglib.Invariant.{StaysInside, IsValid, Safe, Moves}
use peglib.Invariant.Relations.{Keeps-refl, Keeps-trans}
use peglib.Invariant.Operations.{
  Goes, position-Goes, make_node-Goes, update_node-Goes, next-Goes, record_failure-Goes,
}

next-le : (c : Context) → c.m_position ≤ (next c).m_position
unfolding next
next-le c = ground arith

pub record_failure-position :
    (pos : ℕ) (item : ExpectedItem) (c : Context)
    → (record_failure pos item c).m_position ≡ c.m_position
unfolding record_failure
record_failure-position pos item c = ground arith

module _ (g : Grammar) (c : Context) (v : IsValid g c) where
  then-Goes : {d e : Context} → Goes g c d → (IsValid g d → Goes g d e) → Goes g c e
  then-Goes h k = let after = k h.0 in (after.0, Keeps-trans h.1 after.1)

  pub terminal_parse-Safe :
      (byte_sized : Bool) (t : TerminalValue)
      → is_proper t ≡ true
      → Safe g c (Moves c.m_position) (terminal_parse byte_sized t c)
  unfolding terminal_parse record_terminal_expected
  terminal_parse-Safe byte_sized t proper = rw proper elim (Bool-cases (consumable t c)) [
    | inl h ↦ rw h (let n = next-Goes v in (n.0, n.1, (next-le c, λ e. cc)))
    | inr h ↦ rw h (
        let n = record_failure-Goes v c.m_position _ v.position in
        (
          n.0,
          n.1,
          (
            omega (arith, record_failure-position c.m_position _ c),
            λ _. record_failure-position c.m_position _ c,
          ),
        ))
  ]

  pub token_parse-Safe :
      (byte_sized : Bool) (t : TerminalValue)
      → is_proper t ≡ true
      → Safe g c (Moves c.m_position) (token_parse byte_sized t c)
  unfolding token_parse record_terminal_expected
  token_parse-Safe byte_sized t proper = rw proper elim (Bool-cases (consumable t c)) [
    | inl h ↦ rw h (
        let n =
          then-Goes (then-Goes (next-Goes v) (λ w. make_node-Goes w))
            (λ w. update_node-Goes w _ _) in
        (n.0, n.1, (next-le c, λ e. cc)))
    | inr h ↦ rw h (
        let n = record_failure-Goes v c.m_position _ v.position in
        (
          n.0,
          n.1,
          (
            omega (arith, record_failure-position c.m_position _ c),
            λ _. record_failure-position c.m_position _ c,
          ),
        ))
  ]

  accept_span-Safe :
      (consumed : Option Span)
      → ((s : Span) → consumed ≡ some s → c.m_position ≤ s.end × (s.end ≤ input_size c))
      → Safe g c (Moves c.m_position) (accept_span c.m_position consumed c)
  unfolding accept_span
  accept_span-Safe none h = (v, Keeps-refl c, (omega arith, λ _. refl))
  accept_span-Safe (some s) h =
      let n =
        then-Goes (then-Goes (position-Goes v s.end (h s refl).1) (λ w. make_node-Goes w))
          (λ w. update_node-Goes w _ _) in
      let inside : leb s.end (input_size c) ≡ true = le→leb _ _ (h s refl).1 in
      rw inside (n.0, n.1, ((h s refl).0, λ e. cc))

  pub matcher_parse-Safe :
      (fn : Context → Span → Option Span)
      → StaysInside fn
      → Safe g c (Moves c.m_position) (matcher_parse fn c)
  unfolding matcher_parse
  matcher_parse-Safe fn h =
      let start : Span = record { start = c.m_position; end = c.m_position } in
      accept_span-Safe (fn c start) (h c start)

consume_all-Goes :
    (g : Grammar) (vs : List ℕ) (c : Context)
    → IsValid g c
    → Goes g c (consume_all vs c).0 × (c.m_position ≤ (consume_all vs c).0.m_position)
unfolding consume_all
consume_all-Goes g [] c v = ((v, Keeps-refl c), omega arith)
consume_all-Goes g (x ∷ xs) c v = elim (Bool-cases (consumable (value x) c)) [
  | inl h ↦ rw h (
      let n = next-Goes v in
      let rest = consume_all-Goes g xs (next c) n.0 in
      ((rest.0.0, Keeps-trans n.1 rest.0.1), omega (arith, next-le c, rest.1)))
  | inr h ↦ rw h ((v, Keeps-refl c), omega arith)
]

pub terminal_seq_parse-Safe :
    (g : Grammar) (c : Context) (v : IsValid g c) (byte_sized : Bool) (vs : List ℕ)
    → Safe g c (Moves c.m_position) (terminal_seq_parse byte_sized vs c)
unfolding terminal_seq_parse record_expected
terminal_seq_parse-Safe g c v byte_sized vs =
    let (goes, forward) = consume_all-Goes g vs c v in
    elim (Bool-cases (consume_all vs c).1) [
      | inl h ↦ rw h (goes.0, goes.1, (forward, λ e. cc))
      | inr h ↦ rw h (
          let d = (consume_all vs c).0 in
          let back = position-Goes goes.0 c.m_position (rw (← goes.1.input) v.position) in
          let n = record_failure-Goes back.0 c.m_position _ (rw (← goes.1.input) v.position) in
          (
            n.0,
            Keeps-trans goes.1 (Keeps-trans back.1 n.1),
            (
              omega (arith, record_failure-position c.m_position _ (set_state c.m_position d)),
              λ _. record_failure-position c.m_position _ (set_state c.m_position d),
            ),
          ))
    ]
