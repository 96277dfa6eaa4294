-- ===== src/Semantics/Grow.antt =====
-- The seed-grow loop of include/peglib/NonTerminal.h, over a body that answers as the semantics says and
-- does not come back to the rule.
use peglib.Prelude.{
  leb, ℕ, zero, suc, ◌≡◌, refl, Bool, true, false, List, ◌∷◌, inl, inr, Bool-cases, ltb,
  if◌then◌else◌, arith,
}
use peglib.Context.{
  Context, ParseResult, failed, RuleState, LrFrame, input_size, set_state, update_rule_state,
}
use peglib.Expr.{Grammar}
use peglib.Engine.{Parser}
use peglib.Engine.Rules.{frame, Grown, set_last_pos, grow_loop, parse_impl}
use peglib.Semantics.Plan.{Plan}
use peglib.Semantics.State.{RuleAnswer, State, Returns, Tells, Returns-bind}
use peglib.Semantics.Entries.{
  running, update_rule_state-State, set_last_pos-State, clear_if_growing_lem,
}

-- The answer of the seed-grow loop, with the rule's frame on top.
module _ (g : Grammar) (w : Plan) (t : List ℕ) (id start : ℕ) (fs : List LrFrame) where
  abbrev pub GrownAnswer : Grown → Context → Type 0
  GrownAnswer grown d =
      State g w t (w.skips id) (running id start grown.state.m_last_pos ∷ fs) d
      × RuleAnswer g w t id start grown.best.success grown.state.m_last_pos

module _ (g : Grammar) (w : Plan) (t : List ℕ) (id start : ℕ) (fs : List LrFrame)
    (body : Parser ParseResult)
    (tells : (last : ℕ) (c : Context)
      → c.m_position ≡ start
      → State g w t (w.skips id) (running id start last ∷ fs) c
      → Tells g w t
          (w.skips id)
          (running id start last ∷ fs)
          (λ r j. RuleAnswer g w t id start r.success j)
          (body c)) where
  -- What the loop has so far: a success that is true, or none yet.
  abbrev SoFar : Bool → ℕ → Type 0
  SoFar true last = RuleAnswer g w t id start true last
  SoFar false last = last ≡ start

  -- The body failed: the best answer stands, or the failure is the answer.
  settled :
      (best : Bool) (last j : ℕ)
      → SoFar best last
      → RuleAnswer g w t id start false j
      → RuleAnswer g w t id start best last
  settled true last j so ans = so
  settled false last j so (m, same) = (m, so)

  -- The body got no further.
  kept :
      (best result : ParseResult) (last j : ℕ)
      → result.success ≡ true
      → SoFar best.success last
      → RuleAnswer g w t id start true j
      → ltb last j ≡ false
      → RuleAnswer g w t id start (if best.success then best else result).success last
  kept best result last j q so (m, le, lt) stay = elim (Bool-cases best.success) [
    | inl p ↦ let so' : RuleAnswer g w t id start true last = rw p at so in rw p so'
    | inr p ↦
        let same : last ≡ start = rw p at so in
        let here : j ≡ last = ground arith in rw (p, q, ← here) (m, le, lt)
  ]

  grow_loop-Returns :
      (bound : ℕ) (best : ParseResult) (state : RuleState) (c : Context)
      → SoFar best.success state.m_last_pos
      → State g w t (w.skips id) (running id start state.m_last_pos ∷ fs) c
      → Returns (GrownAnswer g w t id start fs) (grow_loop bound body id start best state c)
  unfolding grow_loop
  grow_loop-Returns zero best state c so h = tt
  grow_loop-Returns (suc bound) best state c so h =
      let last = state.m_last_pos in
      elim (Bool-cases (leb start (input_size c))) [
        | inr outside ↦ rw outside tt
        | inl inside ↦ rw inside (
            rw
              (clear_if_growing_lem g w t id start fs (w.skips id) last best.success
                (set_state start c) h.frames_are)
              (Returns-bind _ _ (body (set_state start c)) _ (tells last (set_state start c) refl h)
                λ result d (h', ans).
                  let at : (frame d).last_pos ≡ last = rw (h'.frames_are) refl in
                  elim (Bool-cases result.success) [
                    | inr q ↦ rw q (h', settled best.success last d.m_position so (rw q at ans))
                    | inl q ↦
                        let ans' : RuleAnswer g w t id start true d.m_position = rw q at ans in
                        elim (Bool-cases (ltb last d.m_position)) [
                          | inr stay ↦
                              let last' = (frame d).last_pos in
                              let fixed : RuleState = record {
                                m_last_pos = last';
                                m_cached_result = if best.success then best else result;
                              } in
                              let (h3, same) =
                                update_rule_state-State g w t id start fs (w.skips id) last' fixed d
                                  (rw at h') in
                              let stay' : ltb last' d.m_position ≡ false = rw at stay in
                              rw (q, stay')
                                (h3, kept best result last' d.m_position q (rw at so) ans' stay')
                          | inl further ↦
                              let j = d.m_position in
                              let moved =
                                set_last_pos-State g w t id start fs (w.skips id) last j d h' in
                              let grown : RuleState = record {
                                m_last_pos = j;
                                m_cached_result = result;
                              } in
                              let (h3, same) =
                                update_rule_state-State g w t id start fs (w.skips id) j grown
                                  (set_last_pos j d) moved in
                              rw (q, at, further)
                                (elim (Bool-cases
                                  (update_rule_state id start grown (set_last_pos j d)).1) [
                                    | inl stored ↦
                                        rw (stored, Returns)
                                          (grow_loop-Returns bound result grown
                                            (update_rule_state id start grown (set_last_pos j d)).0
                                            (rw q ans') h3)
                                    | inr lost ↦ rw (lost, Returns) (h3, rw q ans')
                                  ])
                        ]
                  ]))
      ]

  -- The loop is over: its position is put back to the end of the answer.
  pub parse_impl-Returns :
      (c : Context)
      → State g w t (w.skips id) (running id start start ∷ fs) c
      → Returns
          (λ grown d.
            GrownAnswer g w t id start fs grown d × (d.m_position ≡ grown.state.m_last_pos))
          (parse_impl body id start c)
  unfolding parse_impl
  parse_impl-Returns c h =
      let seed : RuleState = record { m_last_pos = start; m_cached_result = failed } in
      let d = set_last_pos start c in
      let (h', same) =
        update_rule_state-State g w t id start fs (w.skips id) start seed d
          (set_last_pos-State g w t id start fs (w.skips id) start start c h) in
      let z = (update_rule_state id start seed d).0 in
      Returns-bind _ _ (grow_loop (suc (suc (input_size z))) body id start failed seed z) _
        (grow_loop-Returns (suc (suc (input_size z))) failed seed z refl h')
        λ grown y (h'', ans).
          let at : (frame y).last_pos ≡ grown.state.m_last_pos = rw (h''.frames_are) refl in
          elim (Bool-cases (leb (frame y).last_pos (input_size y))) [
            | inl inside ↦ rw inside ((h'', ans), at)
            | inr outside ↦ rw outside tt
          ]
