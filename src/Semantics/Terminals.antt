-- ===== src/Semantics/Terminals.antt =====
-- The terminals of include/peglib/Terminals.h answer as the semantics says.
use peglib.Prelude.{
  leb, ℕ, suc, ◌+◌, ◌≤◌, ◌<◌, ◌≡◌, refl, sym, ◌∙◌, Bool, true, false, List, [], ◌∷◌, Option, none,
  some, inl, inr, Bool-cases, Option-cases, not, ◌||◌, ◌==◌, ltb, length, get_elem?, get_elem?-lt,
  if◌then◌else◌, arith,
}
use peglib.ParseError.{ExpectedItem}
use peglib.Context.{
  Context, Span, LrFrame, input_size, ended, next, set_state, record_failure, from_range,
}
use peglib.Expr.{TerminalValue, value, is_proper, Grammar, terminal, terminal_seq, token, matcher}
use peglib.Engine.Terminals.{
  record_terminal_expected, consumable, terminal_parse, token_parse, consume_all, record_expected,
  terminal_seq_parse, accept_span, matcher_parse,
}
use peglib.Invariant.{StaysInside}
use peglib.Invariant.Terminals.{record_failure-position}
use peglib.Semantics.{
  symbol, symbols, one_token, custom, accepts, symbol_end, symbols_end, span_end,
}
use peglib.Semantics.Plan.{Plan, is_consuming, ReadsInput}
use peglib.Semantics.State.{StateOf, State, Tells, Answer}

-- An operation that leaves alone all that a state speaks of.
pub record Stays (c d : Context) : Type 0 where
  pub input : d.m_input ≡ c.m_input
  pub enabled : d.m_skip_enabled ≡ c.m_skip_enabled
  pub skipper : d.m_skipper ≡ c.m_skipper
  pub frames : d.m_lr_stack ≡ c.m_lr_stack
  pub heads : d.m_growing_head ≡ c.m_growing_head
  pub mem : d.m_mem ≡ c.m_mem

pub Stays-refl : (c : Context) → Stays c c
Stays-refl c = record {
  input = refl;
  enabled = refl;
  skipper = refl;
  frames = refl;
  heads = refl;
  mem = refl;
}

pub StateOf-Stays :
    (g : Grammar) (w : Plan) (t : List ℕ) (b : Bool) (fs hs : List LrFrame) (c d : Context)
    → Stays c d
    → StateOf g w t b fs hs c
    → StateOf g w t b fs hs d
StateOf-Stays g w t b fs hs c d s h = record {
  input_is = s.input ∙ h.input_is;
  enabled_is = s.enabled ∙ h.enabled_is;
  skipper_is = s.skipper ∙ h.skipper_is;
  frames_are = s.frames ∙ h.frames_are;
  no_heads = rw (s.heads) h.no_heads;
  memo = rw (s.mem) h.memo;
}

pub record_failure-Stays :
    (pos : ℕ) (item : ExpectedItem) (c : Context) → Stays c (record_failure pos item c)
unfolding record_failure
record_failure-Stays pos item c =
    elim (Bool-cases (not c.m_has_error || ltb c.m_furthest_failure_pos pos)) [
      | inl p ↦ rw p (assumption (Stays-refl c))
      | inr p ↦ rw p (elim (Bool-cases (pos == c.m_furthest_failure_pos)) [
        | inl q ↦ rw q (assumption (Stays-refl c))
        | inr q ↦ rw q (Stays-refl c)
      ])
    ]

consumable-accepts :
    (v : TerminalValue) (c : Context)
    → consumable v c ≡ accepts v (get_elem? c.m_input c.m_position)
unfolding consumable ended
consumable-accepts v c = elim (Option-cases (get_elem? c.m_input c.m_position)) [
  | inl e ↦ rw e (ground arith)
  | inr (x, e) ↦ let inside = get_elem?-lt c.m_input c.m_position x e in rw e (ground arith)
]

next-consumable :
    (v : TerminalValue) (c : Context)
    → consumable v c ≡ true
    → next c ≡ record c { m_position = suc c.m_position }
unfolding consumable ended next
next-consumable v c h =
    let inside : ltb c.m_position (input_size c) ≡ true = ground arith in
    let more : c.m_position + 1 ≡ suc c.m_position = omega arith in rw (inside, more) refl

-- A span that is given ends at or after the position.
abbrev EndsFrom : ℕ → Option Span → Type 0
EndsFrom i none = Unit
EndsFrom i (some s) = i ≤ s.end

spans : {i : ℕ} (o : Option Span) → ((s : Span) → o ≡ some s → i ≤ s.end) → EndsFrom i o
spans none f = tt
spans (some s) f = f s refl

module _ (g : Grammar) (w : Plan) (t : List ℕ) (b : Bool) (fs : List LrFrame) (c : Context)
    (h : State g w t b fs c) where
  accepts-State : (v : TerminalValue) → accepts v (get_elem? t c.m_position) ≡ consumable v c
  accepts-State v = rw (consumable-accepts v c, h.input_is) refl

  -- A failure that is recorded at the position of the call.
  failed-State :
      (pos : ℕ) (item : ExpectedItem)
      → State g w t b fs (record_failure pos item c)
        × ((record_failure pos item c).m_position ≡ c.m_position)
  failed-State pos item = (
    StateOf-Stays g w t b fs fs c _ (record_failure-Stays pos item c) h,
    record_failure-position pos item c,
  )

  pub terminal_parse-Tells :
      (byte_sized : Bool) (v : TerminalValue)
      → Tells g w t b fs
          (λ r j. Answer g w t b (terminal v) c.m_position r.success j)
          (terminal_parse byte_sized v c)
  unfolding terminal_parse record_terminal_expected
  terminal_parse-Tells byte_sized v = elim (Bool-cases (is_proper v || ended c)) [
    | inr fails ↦ rw fails tt
    | inl holds ↦ rw holds (elim (Bool-cases (consumable v c)) [
      | inl p ↦
          let taken : accepts v (get_elem? t c.m_position) ≡ true = accepts-State v ∙ p in
          rw (p, next-consumable v c p) (h, (symbol (rw taken refl), omega arith, λ _. omega arith))
      | inr p ↦
          let refused : accepts v (get_elem? t c.m_position) ≡ false = accepts-State v ∙ p in
          let missed : symbol_end t v c.m_position ≡ none = rw refused refl in
          let (kept, same) = failed-State c.m_position _ in rw p (kept, (symbol (sym missed), same))
    ])
  ]

  pub token_parse-Tells :
      (byte_sized : Bool) (v : TerminalValue)
      → Tells g w t b fs
          (λ r j. Answer g w t b (token v) c.m_position r.success j)
          (token_parse byte_sized v c)
  unfolding token_parse record_terminal_expected
  token_parse-Tells byte_sized v = elim (Bool-cases (is_proper v || ended c)) [
    | inr fails ↦ rw fails tt
    | inl holds ↦ rw holds (elim (Bool-cases (consumable v c)) [
      | inl p ↦
          let taken : accepts v (get_elem? t c.m_position) ≡ true = accepts-State v ∙ p in
          rw (p, next-consumable v c p)
            (h, (one_token (rw taken refl), omega arith, λ _. omega arith))
      | inr p ↦
          let refused : accepts v (get_elem? t c.m_position) ≡ false = accepts-State v ∙ p in
          let missed : symbol_end t v c.m_position ≡ none = rw refused refl in
          let (kept, same) = failed-State c.m_position _ in
          rw p (kept, (one_token (sym missed), same))
    ])
  ]

  accept_span-Tells :
      (fn : Context → Span → Option Span) (o : Option Span)
      → EndsFrom c.m_position o
      → span_end o
        ≡ span_end (fn (from_range t) (record { start = c.m_position; end = c.m_position }))
      → Tells g w t b fs
          (λ r j. Answer g w t b (matcher fn) c.m_position r.success j)
          (accept_span c.m_position o c)
  unfolding accept_span
  accept_span-Tells fn none f e = (h, (custom e, refl))
  accept_span-Tells fn (some s) f e = elim (Bool-cases (leb s.end (input_size c))) [
    | inl inside ↦ rw inside (h, (custom e, f, λ x. cc))
    | inr outside ↦ rw outside tt
  ]

  pub matcher_parse-Tells :
      (fn : Context → Span → Option Span)
      → StaysInside fn
      → ReadsInput fn
      → Tells g w t b fs
          (λ r j. Answer g w t b (matcher fn) c.m_position r.success j)
          (matcher_parse fn c)
  unfolding matcher_parse
  matcher_parse-Tells fn inside reads =
      let here : Span = record { start = c.m_position; end = c.m_position } in
      accept_span-Tells fn (fn c here) (spans (fn c here) (λ s e. (inside c here s e).0))
        (rw (reads c here, h.input_is) refl)

module _ (g : Grammar) (w : Plan) (t : List ℕ) (b : Bool) (fs : List LrFrame) where
  consume_all-State :
      (vs : List ℕ) (c : Context)
      → State g w t b fs c
      → State g w t b fs (consume_all vs c).0
        × (symbols_end t vs c.m_position
            ≡ (if (consume_all vs c).1 then some (consume_all vs c).0.m_position else none))
        × ((consume_all vs c).1 ≡ true → (consume_all vs c).0.m_position ≡ c.m_position + length vs)
  unfolding consume_all symbols_end
  consume_all-State [] c h = (h, refl, λ _. omega arith)
  consume_all-State (v ∷ vs) c h = elim (Bool-cases (consumable (value v) c)) [
    | inl p ↦
        let taken : accepts (value v) (get_elem? t c.m_position) ≡ true =
          accepts-State g w t b fs c h (value v) ∙ p in
        let (kept, ends, far) =
          consume_all-State vs (record c { m_position = suc c.m_position }) h in
        rw (p, taken, next-consumable (value v) c p) (kept, ends, λ m. omega (arith, far m))
    | inr p ↦
        let refused : accepts (value v) (get_elem? t c.m_position) ≡ false =
          accepts-State g w t b fs c h (value v) ∙ p in
        rw (p, refused) (h, refl, λ m. cc)
  ]

  is_consuming-length : (vs : List ℕ) → is_consuming w (terminal_seq vs) ≡ true → 0 < length vs
  is_consuming-length [] e = cc
  is_consuming-length (v ∷ vs) e = omega arith

  pub terminal_seq_parse-Tells :
      (byte_sized : Bool) (vs : List ℕ) (c : Context)
      → State g w t b fs c
      → Tells g w t b fs
          (λ r j. Answer g w t b (terminal_seq vs) c.m_position r.success j)
          (terminal_seq_parse byte_sized vs c)
  unfolding terminal_seq_parse record_expected
  terminal_seq_parse-Tells byte_sized vs c h =
      let (kept, ends, far) = consume_all-State vs c h in
      elim (Bool-cases (consume_all vs c).1) [
        | inl p ↦
            let all : symbols_end t vs c.m_position ≡ some (consume_all vs c).0.m_position =
              rw p at ends in
            rw p (
              kept,
              (
                symbols (sym all),
                omega (arith, far p),
                λ e. omega (arith, far p, is_consuming-length vs e),
              ),
            )
        | inr p ↦
            let none_left : symbols_end t vs c.m_position ≡ none = rw p at ends in
            let back = set_state c.m_position (consume_all vs c).0 in
            let kept' : State g w t b fs back = kept in
            let (done, same) = failed-State g w t b fs back kept' c.m_position _ in
            rw p (done, (symbols (sym none_left), same))
      ]
