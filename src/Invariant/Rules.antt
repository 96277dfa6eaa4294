-- ===== src/Invariant/Rules.antt =====
-- The invariant over a call of a rule.
use peglib.Prelude.{
  leb, le→leb, ==_iff, ℕ, suc, ◌≡◌, refl, ap, ◌∙◌, true, false, List, [], ◌∷◌, some, arith, inl,
  inr, Bool-cases, Option-cases, ◌==◌, ◌&&◌, length, get_elem?,
}
use peglib.Context.{
  set_state, pop_top, Context, ParseResult, failed, RuleState, MemoTable, LrFrame,
  default_rule_state, put_entry, input_size, is_some, rule_state, update_rule_state, below_top,
  clear_growing_head,
}
use peglib.Expr.{Expr, NonTerminal, Grammar}
use peglib.Engine.{Outcome, ok, throw, fault, diverged, too_deep, Parser, after, ◌>>◌, pure}
use peglib.Engine.Rules.{
  clear_if_head, reset_to_frame, frame, Grown, parse_impl, leave_frame, first_parse, finish_rule,
  fail_rule, parse_body, nonterminal_parse,
}
use peglib.Invariant.{IsClosed, IsEntry, IsMemo, IsValid, SameFrames, Keeps, Safe, Moves}
use peglib.Invariant.Relations.{Keeps-refl, Keeps-trans}
use peglib.Invariant.Operations.{position-Goes}
use peglib.Invariant.Safe.{Safe-via}
use peglib.Invariant.Skipper.{ExprSafe, RuleSafe}
use peglib.Invariant.Hits.{memo_hit-Safe}
use peglib.Invariant.Grow.{pushed, GrowSafe, grow_loop-GrowSafe, frame-last}
use peglib.Invariant.Finish.{fail_rule-Safe, finish_rule-Safe}

-- The entry that a miss has put in the table is overwritten by the seed.
put_entry_self :
    (pos rule : ℕ) (s : RuleState) (mem : MemoTable)
    → is_some (put_entry pos rule s mem pos rule) ≡ true
put_entry_self pos rule s mem = ground arith

put_entry_twice-IsMemo :
    (size pos rule : ℕ) (s t : RuleState) (mem : MemoTable)
    → IsMemo size mem
    → IsEntry size pos t
    → IsMemo size (put_entry pos rule t (put_entry pos rule s mem))
put_entry_twice-IsMemo size pos rule s t mem m h p r u e =
    elim (Bool-cases ((p == pos) && (r == rule))) [
      | inl q ↦
          let at_pos : p ≡ pos = ground arith in
          let same : t ≡ u = ground arith in rw (at_pos, ← same) h
      | inr q ↦ m p r u (rw q at e)
    ]

module _ (g : Grammar) (c : Context) (v : IsValid g c) (rule : ℕ) where
  abbrev pub seed : RuleState
  seed = record { m_last_pos = c.m_position; m_cached_result = failed }

  abbrev entered : Context
  entered = record (pushed rule c.m_position c.m_position c) {
    m_mem = put_entry c.m_position rule default_rule_state c.m_mem;
  }

  abbrev pub planted : Context
  planted = record (pushed rule c.m_position c.m_position c) {
    m_mem =
        put_entry c.m_position rule seed (put_entry c.m_position rule default_rule_state c.m_mem);
  }

  pub plant : (update_rule_state rule c.m_position seed entered).0 ≡ planted
  unfolding update_rule_state
  plant = rw put_entry_self

  pub planted-IsValid : IsValid g planted
  planted-IsValid =
      let memo =
        put_entry_twice-IsMemo (input_size c) c.m_position rule default_rule_state seed c.m_mem
          v.memo (record { from = omega arith; within = v.position; stays = λ e. refl }) in
      assumption (memo, v)

  planted-Keeps : Keeps (pushed rule c.m_position c.m_position c) planted
  planted-Keeps = assumption (Keeps-refl (pushed rule c.m_position c.m_position c))

-- The end of the rule's own frame: the caller's frames are on top again.
below_top-SameFrames :
    (f : LrFrame) (below fs : List LrFrame)
    → SameFrames (f ∷ below) fs
    → SameFrames below (below_top fs)
below_top-SameFrames f below [] h = absurd h
below_top-SameFrames f below (h ∷ hs) p = p.4

-- The context behind `leave_frame`, if its assertion holds.
abbrev pub left_frame : ℕ → Context → Context
left_frame start d = clear_if_head (frame d).is_head start (pop_top d)

SameFrames-length : (fs hs : List LrFrame) → SameFrames fs hs → length hs ≡ length fs
SameFrames-length [] [] h = refl
SameFrames-length [] (x ∷ hs) h = absurd h
SameFrames-length (f ∷ fs) [] h = absurd h
SameFrames-length (f ∷ fs) (x ∷ hs) h = ap suc (SameFrames-length fs hs h.4)

module _ (g : Grammar) (rule start last : ℕ) (c d : Context) (v : IsValid g d)
    (k : Keeps (pushed rule start last c) d) where
  left_frame-Goes : IsValid g (left_frame start d) × Keeps c (left_frame start d)
  unfolding clear_growing_head
  left_frame-Goes =
      let frames = below_top-SameFrames _ c.m_lr_stack d.m_lr_stack k.frames in
      elim (Bool-cases (frame d).is_head) [
        | inl h ↦ rw h (
            assumption (
              v, frames, k.input, k.skipper, k.skip_enabled, k.cuts, k.errors, k.diagnostics,
              k.arena,
            ))
        | inr h ↦ rw h (
            assumption (
              v, frames, k.input, k.skipper, k.skip_enabled, k.cuts, k.errors, k.diagnostics,
              k.arena,
            ))
      ]

left_frame-position : (start : ℕ) (d : Context) → (left_frame start d).m_position ≡ d.m_position
unfolding clear_growing_head
left_frame-position start d = elim (Bool-cases (frame d).is_head) [ inl h ↦ rw h | inr h ↦ rw h ]

module _ (g : Grammar) (nt : NonTerminal) (rule : ℕ) (c : Context) where
  -- From the end of the loop to the end of the rule.
  rule_end-Safe :
      (o : Outcome Grown)
      → GrowSafe g rule c.m_position c o
      → Safe g c (Moves c.m_position) (
          after (after o (λ grown. reset_to_frame >> pure grown)) (λ inner.
            leave_frame (suc (length c.m_lr_stack)) c.m_position >> (elim inner.best.success [
              | true ↦ finish_rule nt rule c.m_position inner
              | false ↦ fail_rule nt rule c.m_position inner.state
            ])))
  rule_end-Safe (ok inner d) (last, v, k, h) =
      let at_last = frame-last rule c.m_position last c.m_lr_stack d.m_lr_stack k.frames in
      let size = ap length k.input in
      let back = position-Goes v (frame d).last_pos (omega (arith, at_last, h.within, size)) in
      let d' = set_state (frame d).last_pos d in
      let left = left_frame-Goes g rule c.m_position last c d' back.0 (Keeps-trans k back.1) in
      let z = left_frame c.m_position d' in
      let here : z.m_position ≡ last = left_frame-position c.m_position d' ∙ at_last in
      let inside : leb (frame d).last_pos (input_size d) ≡ true =
        le→leb _ _ (omega (arith, at_last, h.within, size)) in
      let frames : (length d.m_lr_stack == suc (length c.m_lr_stack)) ≡ true =
        (==_iff _ _).1
          (SameFrames-length (pushed rule c.m_position last c).m_lr_stack d.m_lr_stack k.frames) in
      rw (inside, frames)
        (Safe-via g c z (Moves c.m_position) _ left.1 (elim (Bool-cases inner.best.success) [
          | inl q ↦ rw q (
              finish_rule-Safe g z left.0 nt rule c.m_position inner (omega (arith, here, h.from))
                h.state_from (omega (arith, h.state_within, ap length left.1.input)))
          | inr q ↦ rw q (
              fail_rule-Safe g z left.0 nt rule c.m_position inner.state (here ∙ (h.ungrown q).0)
                (h.ungrown q).1)
        ]))
  rule_end-Safe (throw e d) s = s
  rule_end-Safe fault s = s
  rule_end-Safe diverged s = s
  rule_end-Safe too_deep s = s

  first_parse-Safe :
      (p : Parser ParseResult)
      → ((d : Context) → IsValid g d → Safe g d (Moves d.m_position) (p d))
      → IsValid g c
      → Safe g c (Moves c.m_position) (
          first_parse nt p rule c.m_position
            (record c { m_mem = put_entry c.m_position rule default_rule_state c.m_mem }))
  unfolding first_parse parse_impl
  first_parse-Safe p safe v = rw (plant g c v rule) (
      rule_end-Safe _ (
        grow_loop-GrowSafe g p safe rule c.m_position c (suc (suc (input_size c))) c.m_position
          (planted g c v rule) failed (seed g c v rule) (planted-IsValid g c v rule)
          (planted-Keeps g c v rule)
          (record {
            from = omega arith;
            within = v.position;
            state_from = omega arith;
            state_within = v.position;
            ungrown = λ e. (refl, refl);
          })
          (omega arith)))

pub parse_body-Safe :
    (g : Grammar) (p : Expr → Parser ParseResult) (safe : ExprSafe g p) (closed : IsClosed g)
    (id : ℕ) (nt : NonTerminal) (e : Expr)
    → get_elem? g.non_terminals id ≡ some nt
    → nt.m_rule ≡ some e
    → (c : Context) → IsValid g c
    → Safe g c (Moves c.m_position) (parse_body p nt.m_rule c)
parse_body-Safe g p safe closed id nt e found body c v =
    rw body (safe e (closed.bodies id nt e found body) c v)

pub nonterminal_parse-RuleSafe :
    (g : Grammar) (p : Expr → Parser ParseResult)
    → IsClosed g
    → ExprSafe g p
    → RuleSafe g (nonterminal_parse g p)
unfolding nonterminal_parse rule_state
nonterminal_parse-RuleSafe g p closed safe id (nt, e, found, body) c v =
    rw found (elim (Option-cases (c.m_mem c.m_position id)) [
      | inr (s, hit) ↦ rw hit (memo_hit-Safe g c v id c.m_position s hit)
      | inl miss ↦ rw miss (
          first_parse-Safe g nt id c (parse_body p nt.m_rule)
            (parse_body-Safe g p safe closed id nt e found body) v)
    ])
