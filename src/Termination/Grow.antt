-- ===== src/Termination/Grow.antt =====
-- The seed-grow loop of include/peglib/NonTerminal.h, over a body that ends.
use peglib.Prelude.{
  leb, le→leb, ℕ, zero, suc, ◌≤◌, ◌≡◌, refl, ap, ◌∙◌, true, Bool, List, [], ◌∷◌, All, arith, inl,
  inr, Bool-cases, ltb, ◌&&◌, length,
}
use peglib.Context.{
  Context, ParseResult, RuleState, MemoTable, LrFrame, input_size, is_some, in_progress, set_state,
  update_rule_state,
}
use peglib.Expr.{Grammar}
use peglib.Engine.{Parser}
use peglib.Engine.Rules.{frame, advance_top, set_last_pos, clear_if_growing, grow_loop}
use peglib.Invariant.{IsEntry, IsValid, Safe, Moves}
use peglib.Invariant.Operations.{position-Goes}
use peglib.Invariant.Memo.{update_rule_state-Goes}
use peglib.Invariant.Grow.{set_last_pos-IsValid, clear_if_growing-Goes, clear_if_growing-position}
use peglib.Termination.{IsCalm, IsReady, Ends, free, places}
use peglib.Termination.Calm.{update_rule_state-IsCalm, clear_siblings_at-IsCalm, Ends-bind}
use peglib.Termination.Combinators.{EndsOn, IsReady-Goes}

advance_top-framed :
    (end : ℕ) (mem : MemoTable) (fs : List LrFrame)
    → All (λ f. is_some (mem f.pos f.rule) ≡ true) fs
    → All (λ f. is_some (mem f.pos f.rule) ≡ true) (advance_top end fs)
advance_top-framed end mem [] h = tt
advance_top-framed end mem (f ∷ fs) h = h

advance_top-free :
    (end : ℕ) (ps : List (ℕ × ℕ)) (fs : List LrFrame) → free ps (advance_top end fs) ≡ free ps fs
unfolding free in_progress
advance_top-free end ps [] = refl
advance_top-free end [] (f ∷ fs) = refl
advance_top-free end (p ∷ ps) (f ∷ fs) = rw (advance_top-free end ps (f ∷ fs)) refl

set_last_pos-IsReady :
    {g : Grammar} {left : ℕ} {d : Context} (end : ℕ)
    → IsReady g left d
    → IsReady g left (set_last_pos end d)
set_last_pos-IsReady {g} {left} {d} end r = record {
  valid = set_last_pos-IsValid end r.valid;
  calm = record {
    framed = advance_top-framed end d.m_mem d.m_lr_stack r.calm.framed;
    uncut = r.calm.uncut;
  };
  room_left =
      advance_top-free end (places (length g.non_terminals) (input_size d)) d.m_lr_stack
      ∙ r.room_left;
}

clear_if_growing-IsCalm :
    (d : Context) (id start : ℕ) (b : Bool) → IsCalm d → IsCalm (clear_if_growing id start b d)
clear_if_growing-IsCalm d id start b calm = elim (Bool-cases ((frame d).is_head && b)) [
  | inl h ↦ rw h (clear_siblings_at-IsCalm start id d calm)
  | inr h ↦ rw h calm
]

module _ (g : Grammar) (left : ℕ) (p : Parser ParseResult) (ends : EndsOn g left p)
    (safe : (c : Context) → IsValid g c → Safe g c (Moves c.m_position) (p c)) (id start : ℕ) where
  pub grow_loop-Ends :
      (bound : ℕ) (best : ParseResult) (state : RuleState) (d : Context)
      → IsReady g left d
      → start ≤ input_size d
      → Ends (grow_loop bound p id start best state d)
  unfolding grow_loop
  grow_loop-Ends zero best state d ready inside = tt
  grow_loop-Ends (suc bound) best state d ready inside =
      let d' = set_state start d in
      let back : IsReady g left d' =
        IsReady-Goes ready (position-Goes ready.valid start inside) (assumption ready.calm) in
      let d'' = clear_if_growing id start best.success d' in
      let cleared : IsReady g left d'' =
        IsReady-Goes back (clear_if_growing-Goes g d' back.valid id start best.success)
          (clear_if_growing-IsCalm d' id start best.success back.calm) in
      let holds : leb start (input_size d) ≡ true = le→leb _ _ inside in
      rw holds (
        Ends-bind g left d'' (Moves d''.m_position) (p d'') _ cleared.room_left
          (safe d'' cleared.valid) (ends d'' cleared)
          λ r z ready' k m.
            let forward : start ≤ z.m_position =
              omega (arith, m.0, clear_if_growing-position d' id start best.success) in
            elim (Bool-cases r.success) [
              | inr q ↦ rw q ready'.calm
              | inl q ↦ rw q (elim (Bool-cases (ltb (frame z).last_pos z.m_position)) [
                | inr stuck ↦ rw (stuck, Ends) (update_rule_state-IsCalm id start _ z ready'.calm)
                | inl further ↦
                    rw (further, Ends)
                      (let end = z.m_position in
                        let grown : RuleState = record { m_last_pos = end; m_cached_result = r } in
                        let y = set_last_pos end z in
                        let ready_y = set_last_pos-IsReady end ready' in
                        let entry : IsEntry (input_size z) start grown = record {
                          from = forward;
                          within = ready'.valid.position;
                          stays = λ e. cc;
                        } in
                        let x = (update_rule_state id start grown y).0 in
                        let n = update_rule_state-Goes ready_y.valid id start grown entry in
                        let calm = update_rule_state-IsCalm id start grown y ready_y.calm in
                        elim (Bool-cases (update_rule_state id start grown y).1) [
                          | inr u ↦ rw u calm
                          | inl u ↦ rw u (
                              grow_loop-Ends bound r grown x (IsReady-Goes ready_y n calm) (
                                omega (arith, forward, ready'.valid.position, ap length n.1.input)))
                        ])
              ])
            ])
