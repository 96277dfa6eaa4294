-- ===== src/Invariant/Repeat.antt =====
-- The invariant over the loop behind the repetitions, and the loop's bound.
use peglib.Prelude.{
  ℕ, zero, suc, ◌+◌, ◌≤◌, ◌<◌, ◌≡◌, ◌≢◌, refl, ap, ◌∙◌, Bool, false, arith, inl, inr, Bool-cases,
  ◌||◌, ◌&&◌, ltb, ◌==◌, ℤ, length,
}
use peglib.Context.{Context, ParseResult, input_size, make_node, set_cut, get_cut, init_cut}
use peglib.Expr.{Grammar}
use peglib.Engine.{Parser}
use peglib.Engine.Combinators.{
  skip_between, push_child, start_at, reached, is_unbounded, LoopEnd, repeat_loop, rewind,
  repeat_end, repeat_body, repeat_parse_impl,
}
use peglib.Invariant.{IsValid, Safe, Moves}
use peglib.Invariant.Relations.{Keeps-refl, Keeps-trans}
use peglib.Invariant.Operations.{
  Goes, position-Goes, make_node-Goes, update_node-Goes, set_cut-Goes,
}
use peglib.Invariant.Scope.{init_cut-IsValid}
use peglib.Invariant.Safe.{Safe-via, Safe-bind, Safe-scope}
use peglib.Invariant.Skipper.{SkipSafe}
use peglib.Invariant.Combinators.{
  Forward, push_child-Goes, push_child-position, skip_between-SkipSafe, throw_cut-Safe,
}

-- Where the loop is left: not before its start, and its last success between the two.
abbrev EndsWell : ℕ → LoopEnd → Context → Type 0
EndsWell start l d = (start ≤ l.last_success_state) × (l.last_success_state ≤ d.m_position)

moved : (stop : Bool) (end start : ℕ) → (stop || (end == start)) ≡ false → end ≢ start
moved stop end start h = ground arith

module _ (g : Grammar) (p : Parser ParseResult)
    (safe : (c : Context) → IsValid g c → Safe g c (Moves c.m_position) (p c))
    (skip : Parser (Unit {0})) (skips : SkipSafe g skip) (max_rep : ℤ) (node : ℕ) where
  -- A round that does not stop the loop has moved forward, so the bound outlasts the input.
  repeat_loop-Safe :
      (bound count start last : ℕ) (c : Context)
      → IsValid g c
      → start ≤ last
      → last ≤ c.m_position
      → input_size c < bound + c.m_position
      → Safe g c (EndsWell start) (repeat_loop bound p skip max_rep node count last c)
  unfolding repeat_loop
  repeat_loop-Safe zero count start last c v h h' b = absurd (omega (arith, v.position))
  repeat_loop-Safe (suc bound) count start last c v h h' b =
      Safe-bind g c (Forward c.m_position) (EndsWell start) (skip_between count skip c) _
        (skip_between-SkipSafe g skip skips count c v)
        λ _ d w k f.
          let cleared = set_cut-Goes w false in
          let d' = set_cut false d in
          Safe-via g d d' (EndsWell start) _ cleared.1 (
            Safe-bind g d' (Moves d'.m_position) (EndsWell start) (p d') _ (safe d' cleared.0)
              λ r z x k' m. elim (Bool-cases r.success) [
                | inr q ↦ rw q (x, Keeps-refl z, (h, omega (arith, h', f, m.0)))
                | inl q ↦ rw q (
                    let pushed = push_child-Goes g z x node r.tree in
                    let y = push_child node r.tree z in
                    let here = push_child-position node r.tree z in
                    Safe-via g z y (EndsWell start) _ pushed.1
                      (elim (Bool-cases
                        (reached max_rep (suc count) || (z.m_position == d.m_position))) [
                          | inl stop ↦ rw stop (
                            pushed.0,
                            Keeps-refl y,
                            (omega (arith, h, h', f, m.0), omega (arith, here)),
                          )
                          | inr more ↦ rw more (
                              repeat_loop-Safe bound (suc count) start z.m_position y pushed.0
                                (omega (arith, h, h', f, m.0)) (omega (arith, here))
                                (omega (
                                  arith,
                                  b,
                                  f,
                                  m.0,
                                  here,
                                  ap length (k.input ∙ k'.input ∙ pushed.1.input),
                                  moved (reached max_rep (suc count)) z.m_position d.m_position
                                      more,
                                )))
                        ]))
              ])

module _ (g : Grammar) (max_rep : ℤ) (node : ℕ) (d : Context) (v : IsValid g d) (start : ℕ)
    (l : LoopEnd) (ends : EndsWell start l d) where
  rewind-Goes : Goes g d (rewind node l d) × (start ≤ (rewind node l d).m_position)
  rewind-Goes = elim (Bool-cases l.exited_via_failure) [
    | inl h ↦ rw h (
        let back = position-Goes v l.last_success_state (omega (arith, ends.1, v.position)) in
        let resized = update_node-Goes back.0 node _ in
        ((resized.0, Keeps-trans back.1 resized.1), ends.0))
    | inr h ↦ rw h ((v, Keeps-refl d), omega (arith, ends.0, ends.1))
  ]

  repeat_end-Safe :
      (min_rep : ℕ) → Safe g d (Moves start) (repeat_end min_rep max_rep start node l d)
  unfolding repeat_end
  repeat_end-Safe min_rep = elim (Bool-cases (ltb l.loop_count min_rep)) [
    | inl h ↦
        rw (h, Safe)
          (let n = position-Goes v start (omega (arith, ends.0, ends.1, v.position)) in
            (n.0, n.1, (omega arith, λ _. refl)))
    | inr h ↦
        rw (h, Safe)
          (let (goes, forward) = rewind-Goes in
            let z = rewind node l d in
            Safe-via g d z (Moves start) _ goes.1
              (elim (Bool-cases (is_unbounded max_rep && (l.exited_via_failure && get_cut z))) [
                | inl q ↦ rw (q, Safe) (throw_cut-Safe g z (Moves start))
                | inr q ↦
                    rw (q, Safe)
                      (let n = update_node-Goes goes.0 node _ in (n.0, n.1, (forward, λ e. cc)))
              ]))
  ]

module _ (g : Grammar) (p : Parser ParseResult)
    (safe : (c : Context) → IsValid g c → Safe g c (Moves c.m_position) (p c))
    (skip : Parser (Unit {0})) (skips : SkipSafe g skip) (min_rep : ℕ) (max_rep : ℤ) where
  repeat_body-Safe :
      (c : Context)
      → IsValid g c
      → Safe g c (Moves c.m_position) (repeat_body p skip min_rep max_rep c)
  unfolding repeat_body
  repeat_body-Safe c v =
      let made = make_node-Goes v in
      let node = (make_node c).1 in
      let d = start_at node (make_node c).0 in
      let started = update_node-Goes made.0 node _ in
      Safe-via g c d (Moves c.m_position) _ (Keeps-trans made.1 started.1) (
        Safe-bind g d (EndsWell c.m_position) (Moves c.m_position)
          (repeat_loop (suc (suc (input_size c))) p skip max_rep node 0 c.m_position d) _
          (repeat_loop-Safe g p safe skip skips max_rep node (suc (suc (input_size c))) 0
            c.m_position c.m_position d started.0 (omega arith) (omega arith) (omega arith))
          λ l z w k ends. repeat_end-Safe g max_rep node z w c.m_position l ends min_rep)

  pub repeat_parse_impl-Safe :
      (c : Context)
      → IsValid g c
      → Safe g c (Moves c.m_position) (repeat_parse_impl p skip min_rep max_rep c)
  unfolding repeat_parse_impl
  repeat_parse_impl-Safe c v =
      Safe-scope g c (λ r end. (c.m_position ≤ end) × (r.success ≡ false → end ≡ c.m_position))
        (repeat_body p skip min_rep max_rep (init_cut c))
        (repeat_body-Safe (init_cut c) (init_cut-IsValid v))
