-- ===== src/Semantics/Repeat.antt =====
-- The repetitions of include/peglib/Combinators.h, all by `repeat_parse_impl`, answer as the
-- semantics says, over an operand that does.
use peglib.Prelude.{
  ℕ, zero, suc, ◌≤◌, ◌<◌, ◌≡◌, refl, sym, Bool, true, false, List, Option, some, inl, inr,
  Bool-cases, ltb, ◌==◌, ◌&&◌, ◌||◌, ℤ, arith,
}
use peglib.Context.{
  Context, ParseResult, LrFrame, input_size, make_node, set_cut, get_cut, init_cut,
}
use peglib.Expr.{Expr, Grammar}
use peglib.Engine.{Parser}
use peglib.Engine.Combinators.{
  run_skipper, skip_between, push_child, start_at, reached, is_unbounded, LoopEnd, repeat_loop,
  rewind, repeat_end, repeat_body, repeat_parse_impl,
}
use peglib.Semantics.{Matches, Repeats, fails, last, again, begun, is_full, at_least}
use peglib.Semantics.Plan.{Plan, is_consuming, IsUnder, IsClear}
use peglib.Semantics.State.{
  Answer, State, Returns, Tells, Returns-bind, Returns-map, ExprsTell, RulesTell,
}
use peglib.Semantics.Clear.{IsClear-forward, MaySkip, MaySkip-past, skip_between-Tells}
use peglib.Semantics.Scopes.{push_child-State, scope-Tells}

-- How the loop is left.
record LoopAnswer (g : Grammar) (w : Plan) (t : List ℕ) (most : Option ℕ) (b : Bool) (e : Expr)
    (count i : ℕ) (l : LoopEnd) (j : ℕ) : Type 0 where
  rounds : Repeats g t most b e count i l.loop_count l.last_success_state
  ahead : i ≤ l.last_success_state
  further : is_consuming w e ≡ true → count < l.loop_count → i < l.last_success_state
  ends : l.exited_via_failure ≡ false → j ≡ l.last_success_state

moved : (full : Bool) (j i : ℕ) → (full || (j == i)) ≡ false → i ≤ j → i < j
moved true j i h le = cc
moved false j i h le = ground arith

module _ (g : Grammar) (w : Plan) (t : List ℕ) (p : Expr → Parser ParseResult)
    (tells : ExprsTell g w t p) (unskip : (s : ℕ) → g.m_skipper ≡ some s → w.skips s ≡ false)
    (r : ℕ → Parser ParseResult) (rules : RulesTell g w t r) (most : Option ℕ) (max_rep : ℤ)
    (limit : (n : ℕ) → reached max_rep n ≡ is_full most n) (e : Expr) (k : ℕ) (b : Bool)
    (under : IsUnder g w b k e) (fs : List LrFrame) where
  repeat_loop-Tells :
      (bound node count from : ℕ) (c : Context)
      → from ≡ c.m_position
      → IsClear w k fs c.m_position
      → MaySkip g w (begun count && b) fs c.m_position
      → State g w t b fs c
      → Tells g w t b fs
          (λ l j. LoopAnswer g w t most b e count c.m_position l j)
          (repeat_loop bound (p e) (run_skipper r) max_rep node count from c)
  unfolding repeat_loop
  repeat_loop-Tells zero node count from c is clear may h = tt
  repeat_loop-Tells (suc bound) node count from c is clear may h =
      Returns-bind _ _ (skip_between count (run_skipper r) c) _
        (skip_between-Tells g w t unskip r rules fs count b c may h)
        λ _ d (h', (skips, ahead)).
          let clear' = IsClear-forward w k fs c.m_position d.m_position ahead clear in
          Returns-bind _ _ (p e (set_cut false d)) _
            (tells e b k fs (set_cut false d) under clear' h')
            λ result z (h'', ans). elim (Bool-cases result.success) [
              | inr q ↦
                  let (m, same) = (rw q at ans) in
                  rw (q, is)
                    (
                      h'',
                      record {
                        rounds = fails skips m;
                        ahead = omega arith;
                        further = λ a lt. absurd (omega arith);
                        ends = λ a. cc;
                      },
                    )
              | inl q ↦
                  let (m, le, lt) = (rw q at ans) in
                  let y = push_child node result.tree z in
                  let (h3, same) = push_child-State g w t b fs node result.tree z h'' in
                  rw q
                    (elim (Bool-cases
                      (reached max_rep (suc count) || (z.m_position == d.m_position))) [
                        | inl full ↦
                            let full' : (is_full most (suc count) || (z.m_position == d.m_position))
                                ≡ true =
                              rw (limit (suc count)) at full in
                            rw full (
                              h3,
                              record {
                                rounds = last skips m full' refl;
                                ahead = omega arith;
                                further = λ a _. omega (arith, lt a);
                                ends = λ a. same;
                              },
                            )
                        | inr more ↦
                            let more' : (is_full most (suc count) || (z.m_position == d.m_position))
                                ≡ false =
                              rw (limit (suc count)) at more in
                            let further =
                              moved (is_full most (suc count)) z.m_position d.m_position more' le in
                            rw more (
                              Returns-map _ _
                                (repeat_loop bound (p e) (run_skipper r) max_rep node (suc count)
                                  z.m_position y)
                                (repeat_loop-Tells bound node (suc count) z.m_position y (sym same)
                                  (rw same
                                    (IsClear-forward w k fs d.m_position z.m_position le clear'))
                                  (rw same (
                                    MaySkip-past g w b k fs d.m_position z.m_position further
                                      clear'))
                                  h3)
                                λ l x (h4, rest). (
                                  h4,
                                  record {
                                    rounds = again skips m more' (rw same at rest.rounds);
                                    ahead = omega (arith, rest.ahead);
                                    further = λ a n. omega (arith, rest.ahead);
                                    ends = rest.ends;
                                  },
                                ))
                      ])
            ]

  rewind-State :
      (node i : ℕ) (l : LoopEnd) (c : Context)
      → LoopAnswer g w t most b e 0 i l c.m_position
      → State g w t b fs c
      → State g w t b fs (rewind node l c) × ((rewind node l c).m_position ≡ l.last_success_state)
  rewind-State node i l c ans h = elim (Bool-cases l.exited_via_failure) [
    | inl q ↦ rw q (h, refl)
    | inr q ↦ rw q (h, ans.ends q)
  ]

  -- Below the loop, for an expression that means the rounds, at least so many.
  module _ (whole : Expr) (min_rep : ℕ)
      (meaning : (i count j : ℕ)
        → Repeats g t most b e 0 i count j
        → Matches g t b whole i (at_least min_rep count j))
      (strict : is_consuming w whole ≡ true → (is_consuming w e ≡ true) × (0 < min_rep)) where
    repeat_end-Tells :
        (i node : ℕ) (l : LoopEnd) (c : Context)
        → LoopAnswer g w t most b e 0 i l c.m_position
        → State g w t b fs c
        → Tells g w t b fs
            (λ result j. Answer g w t b whole i result.success j)
            (repeat_end min_rep max_rep i node l c)
    unfolding repeat_end
    repeat_end-Tells i node l c ans h =
        let m = meaning i l.loop_count l.last_success_state ans.rounds in
        elim (Bool-cases (ltb l.loop_count min_rep)) [
          | inl few ↦ rw (few, Returns) (h, (rw few at m, refl))
          | inr enough ↦
              let (h', at) = rewind-State node i l c ans h in
              let m' : Matches g t b whole i (some l.last_success_state) = rw enough at m in
              rw (enough, Returns)
                (elim (Bool-cases
                  (is_unbounded max_rep && (l.exited_via_failure && get_cut (rewind node l c)))) [
                    | inl q ↦ rw (q, Returns) tt
                    | inr q ↦
                        rw (q, Returns)
                          (
                            h',
                            rw at (
                              m',
                              ans.ahead,
                              λ a.
                                  let (consumes, some_rounds) = strict a in
                                  ans.further consumes (ground arith),
                            ),
                          )
                  ])
        ]

    pub repeat_parse_impl-Tells :
        (c : Context)
        → IsClear w k fs c.m_position
        → State g w t b fs c
        → Tells g w t b fs
            (λ result j. Answer g w t b whole c.m_position result.success j)
            (repeat_parse_impl (p e) (run_skipper r) min_rep max_rep c)
    unfolding repeat_parse_impl repeat_body
    repeat_parse_impl-Tells c clear h =
        let d = init_cut c in
        let z = start_at (make_node d).1 (make_node d).0 in
        scope-Tells g w t b fs _ _ (
          Returns-bind _ _
            (repeat_loop (suc (suc (input_size d))) (p e) (run_skipper r) max_rep (make_node d).1 0
              d.m_position z)
            _
            (repeat_loop-Tells (suc (suc (input_size d))) (make_node d).1 0 d.m_position z refl
              clear tt h)
            λ l y (h', ans). repeat_end-Tells d.m_position (make_node d).1 l y ans h')
