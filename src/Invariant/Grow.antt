-- ===== src/Invariant/Grow.antt =====
-- The invariant over the seed-grow loop, and the loop's bound.
use peglib.Prelude.{
  leb, le→leb, ℕ, zero, suc, ◌+◌, ◌≤◌, ◌<◌, ◌≡◌, refl, sym, ap, Bool, true, false, List, [], ◌∷◌,
  arith, inl, inr, Bool-cases, ltb, ltb→lt, ◌&&◌, if◌then◌else◌, length,
}
use peglib.Context.{
  Context, ParseResult, RuleState, LrFrame, input_size, set_state, update_rule_state,
  clear_siblings_at,
}
use peglib.Expr.{Grammar}
use peglib.Engine.{Outcome, ok, throw, fault, diverged, too_deep, Parser, after}
use peglib.Engine.Rules.{
  frame, top_frame, advance_top, set_last_pos, Grown, clear_if_growing, grow_loop,
}
use peglib.Invariant.{IsEntry, IsValid, SameFrames, Keeps, Unwinds, Carries, Safe, Moves}
use peglib.Invariant.Relations.{Keeps-refl, Keeps-trans, Unwinds-after, Buried-push}
use peglib.Invariant.Operations.{Goes, position-Goes}
use peglib.Invariant.Memo.{update_rule_state-Goes, clear_siblings_at-Goes}

-- The caller's context under the frame of the running rule.
abbrev pub pushed : ℕ → ℕ → ℕ → Context → Context
pushed rule start last c = record c {
  m_lr_stack = record { rule = rule; pos = start; last_pos = last; is_head = false } ∷ c.m_lr_stack;
}

-- `last` is how far the rule has grown. As long as nothing has matched, that is the start.
pub record HasGrown (size start last : ℕ) (best : ParseResult) (state : RuleState) : Type 0 where
  pub from : start ≤ last
  pub within : last ≤ size
  pub state_from : start ≤ state.m_last_pos
  pub state_within : state.m_last_pos ≤ size
  pub ungrown : best.success ≡ false → (last ≡ start) × (state.m_last_pos ≡ start)

-- The safety of the loop, which moves the frame's marker and so is no call from `c` by itself.
abbrev pub GrowSafe : Grammar → ℕ → ℕ → Context → Outcome Grown → Type 0
GrowSafe g rule start c (ok a d) =
    (last : ℕ) × IsValid g d
    × Keeps (pushed rule start last c) d
    × HasGrown (input_size c) start last a.best a.state
GrowSafe g rule start c (throw e d) = Unwinds c d × Carries e d
GrowSafe g rule start c fault = ⊥
GrowSafe g rule start c diverged = ⊥
GrowSafe g rule start c too_deep = Unit

pushed-Unwinds :
    (rule start last : ℕ) (c d : Context) → Unwinds (pushed rule start last c) d → Unwinds c d
pushed-Unwinds rule start last c d u =
    let buried = Buried-push _ c.m_lr_stack d.m_lr_stack u.frames in
    assumption (u.input, u.skipper, u.cuts, u.errors, u.diagnostics, buried)

GrowSafe-bind :
    (g : Grammar) (rule start last : ℕ) (c d : Context) (Q : ParseResult → Context → Type 0)
    (o : Outcome ParseResult) (f : ParseResult → Parser Grown)
    → Keeps (pushed rule start last c) d
    → Safe g d Q o
    → ((r : ParseResult) (z : Context)
        → IsValid g z
        → Keeps (pushed rule start last c) z
        → Q r z
        → GrowSafe g rule start c (f r z))
    → GrowSafe g rule start c (after o f)
GrowSafe-bind g rule start last c d Q (ok r z) f k (v, k', q) h = h r z v (Keeps-trans k k') q
GrowSafe-bind g rule start last c d Q (throw e z) f k (u, carried) h =
    (pushed-Unwinds rule start last c z (Unwinds-after k u), carried)
GrowSafe-bind g rule start last c d Q fault f k s h = s
GrowSafe-bind g rule start last c d Q diverged f k s h = s
GrowSafe-bind g rule start last c d Q too_deep f k s h = s

-- The marker that the loop reads is the one in the frame of the running rule.
pub frame-last :
    (rule start last : ℕ) (below fs : List LrFrame)
    → SameFrames (record { rule = rule; pos = start; last_pos = last; is_head = false } ∷ below) fs
    → (top_frame fs).last_pos ≡ last
frame-last rule start last below [] h = absurd h
frame-last rule start last below (f ∷ fs) h = sym h.2

advance_top-SameFrames :
    (rule start last end : ℕ) (below fs : List LrFrame)
    → SameFrames (record { rule = rule; pos = start; last_pos = last; is_head = false } ∷ below) fs
    → SameFrames
        (record { rule = rule; pos = start; last_pos = end; is_head = false } ∷ below)
        (advance_top end fs)
advance_top-SameFrames rule start last end below [] h = absurd h
advance_top-SameFrames rule start last end below (f ∷ fs) (a, b, c, d, h) = (a, b, refl, d, h)

pub set_last_pos-IsValid :
    {g : Grammar} {d : Context} (end : ℕ) → IsValid g d → IsValid g (set_last_pos end d)
set_last_pos-IsValid end v = assumption v

pub set_last_pos-Keeps :
    (rule start last end : ℕ) (c d : Context)
    → Keeps (pushed rule start last c) d
    → Keeps (pushed rule start end c) (set_last_pos end d)
set_last_pos-Keeps rule start last end c d k =
    let frames = advance_top-SameFrames rule start last end c.m_lr_stack d.m_lr_stack k.frames in
    assumption
      (frames, k.input, k.skipper, k.skip_enabled, k.cuts, k.errors, k.diagnostics, k.arena)

pub clear_if_growing-Goes :
    (g : Grammar) (d : Context) (v : IsValid g d) (rule start : ℕ) (b : Bool)
    → Goes g d (clear_if_growing rule start b d)
clear_if_growing-Goes g d v rule start b = elim (Bool-cases ((frame d).is_head && b)) [
  | inl h ↦ rw h (clear_siblings_at-Goes v start rule)
  | inr h ↦ rw h (v, Keeps-refl d)
]

pub clear_if_growing-position :
    (d : Context) (rule start : ℕ) (b : Bool)
    → (clear_if_growing rule start b d).m_position ≡ d.m_position
unfolding clear_siblings_at
clear_if_growing-position d rule start b = elim (Bool-cases ((frame d).is_head && b)) [
  | inl h ↦ rw h
  | inr h ↦ rw h
]

kept_success :
    (best r : ParseResult) → r.success ≡ true → (if best.success then best else r).success ≡ true
kept_success best r e = ground arith

module _ (g : Grammar) (p : Parser ParseResult)
    (safe : (c : Context) → IsValid g c → Safe g c (Moves c.m_position) (p c)) (rule start : ℕ)
    (c : Context) where
  -- What the loop does with a match that has not got further.
  fixed-GrowSafe :
      (last mark : ℕ) (z : Context) (best r : ParseResult) (state : RuleState)
      → mark ≡ last
      → IsValid g z
      → Keeps (pushed rule start last c) z
      → HasGrown (input_size c) start last best state
      → r.success ≡ true
      → let kept : ParseResult = if best.success then best else r in
        let fixed : RuleState = record { m_last_pos = mark; m_cached_result = kept } in
        GrowSafe g rule start c
          (ok (record { best = kept; state = fixed }) (update_rule_state rule start fixed z).0)
  fixed-GrowSafe last mark z best r state at v k h e =
      let kept : ParseResult = if best.success then best else r in
      let fixed : RuleState = record { m_last_pos = mark; m_cached_result = kept } in
      let matched : kept.success ≡ true = kept_success best r e in
      let size = ap length k.input in
      let entry : IsEntry (input_size z) start fixed = record {
        from = omega (arith, h.from);
        within = omega (arith, h.within, size);
        stays = λ q. cc;
      } in
      let n = update_rule_state-Goes v rule start fixed entry in
      (
        last,
        n.0,
        Keeps-trans k n.1,
        record {
          from = h.from;
          within = h.within;
          state_from = omega (arith, h.from);
          state_within = omega (arith, h.within);
          ungrown = λ q. cc;
        },
      )

  pub grow_loop-GrowSafe :
      (bound last : ℕ) (d : Context) (best : ParseResult) (state : RuleState)
      → IsValid g d
      → Keeps (pushed rule start last c) d
      → HasGrown (input_size c) start last best state
      → input_size c < bound + last
      → GrowSafe g rule start c (grow_loop bound p rule start best state d)
  unfolding grow_loop
  grow_loop-GrowSafe zero last d best state v k h b = absurd (omega (arith, h.within))
  grow_loop-GrowSafe (suc bound) last d best state v k h b =
      let size = ap length k.input in
      let back = position-Goes v start (omega (arith, h.from, h.within, size)) in
      let d' = set_state start d in
      let cleared = clear_if_growing-Goes g d' back.0 rule start best.success in
      let d'' = clear_if_growing rule start best.success d' in
      let k'' = Keeps-trans k (Keeps-trans back.1 cleared.1) in
      let inside : leb start (input_size d) ≡ true =
        le→leb _ _ (omega (arith, h.from, h.within, size)) in
      rw inside (
        GrowSafe-bind g rule start last c d'' (Moves d''.m_position) (p d'') _ k''
          (safe d'' cleared.0)
          λ r z w kz m.
            let at_last = frame-last rule start last c.m_lr_stack z.m_lr_stack kz.frames in
            let forward : start ≤ z.m_position =
              omega (arith, m.0, clear_if_growing-position d' rule start best.success) in
            elim (Bool-cases r.success) [
              | inr q ↦ rw q (last, w, kz, h)
              | inl q ↦ rw q (elim (Bool-cases (ltb (frame z).last_pos z.m_position)) [
                | inr stuck ↦
                    rw (stuck, GrowSafe)
                      (fixed-GrowSafe last (frame z).last_pos z best r state at_last w kz h q)
                | inl further ↦
                    rw (further, GrowSafe)
                      (let end = z.m_position in
                        let inside : end ≤ input_size c =
                          omega (arith, w.position, ap length kz.input) in
                        let longer : last < end = omega (arith, ltb→lt _ _ further, at_last) in
                        let grown : RuleState = record { m_last_pos = end; m_cached_result = r } in
                        let y = set_last_pos end z in
                        let ky = set_last_pos-Keeps rule start last end c z kz in
                        let entry : IsEntry (input_size z) start grown = record {
                          from = forward;
                          within = w.position;
                          stays = λ e. cc;
                        } in
                        let n =
                          update_rule_state-Goes (set_last_pos-IsValid end w) rule start grown
                            entry in
                        let x = (update_rule_state rule start grown y).0 in
                        let grew : HasGrown (input_size c) start end r grown = record {
                          from = entry.from;
                          within = inside;
                          state_from = entry.from;
                          state_within = inside;
                          ungrown = λ e. cc;
                        } in
                        elim (Bool-cases (update_rule_state rule start grown y).1) [
                          | inr u ↦ rw u (end, n.0, Keeps-trans ky n.1, grew)
                          | inl u ↦ rw u (
                              grow_loop-GrowSafe bound end x r grown n.0 (Keeps-trans ky n.1) grew
                                (omega (arith, b, longer)))
                        ])
              ])
            ])
