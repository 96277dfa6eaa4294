-- ===== src/Termination/Recovery.antt =====
-- Rules with recovery in grammars without cuts: `NonTerminal::parse` of include/peglib/NonTerminal.h.
use peglib.Prelude.{
  leb, ℕ, suc, ◌*◌, ◌≤◌, ◌<◌, ◌≡◌, refl, true, false, Bool, Option, none, some, arith, inl, inr,
  Bool-cases, length, get_elem?-lt, get_elem?,
}
use peglib.Context.{Context, ParseResult, RuleState, input_size, get_cut, rule_state}
use peglib.Expr.{Expr, NonTerminal, Grammar}
use peglib.Engine.{Outcome, ok, throw, fault, diverged, too_deep, Parser, after, ◌>>◌, pure}
use peglib.Engine.Rules.{
  reset_to_frame, resume_at, Grown, parse_impl, record_rule_failure, recover, give_up, recover_or,
  fail_rule, build_node, finish_rule, leave_frame, first_parse, parse_body, nonterminal_parse,
}
use peglib.Engine.Run.{parse}
use peglib.Invariant.{IsClosed, IsValid, Safe, Moves}
use peglib.Invariant.Rules.{plant, parse_body-Safe, nonterminal_parse-RuleSafe}
use peglib.Invariant.Run.{parse-ExprSafe}
use peglib.Termination.{IsCutFreeUpTo, IsCalm, IsReady, Ends, room}
use peglib.Termination.Room.{room-le}
use peglib.Termination.Calm.{Ends-then}
use peglib.Termination.Combinators.{EndsOn, get_cut-calm}
use peglib.Termination.Rules.{
  leave_frame-Ends, reset_to_frame-Ends, record_rule_failure-IsCalm, build_node-Ends,
  first_loop-Ends,
}
use peglib.Termination.Run.{mul_mono, bodies_end}

-- The call is not cut off and throws nothing, and what it returns is a success.
abbrev Recovers : Outcome ParseResult → Type 0
Recovers (ok r d) = r.success ≡ true
Recovers (throw e d) = ⊥
Recovers fault = Unit
Recovers diverged = Unit
Recovers too_deep = ⊥

Recovers-then :
    {A : Type 0} (o : Outcome A) (f : A → Parser ParseResult)
    → Ends o
    → ((a : A) (d : Context) → IsCalm d → Recovers (f a d))
    → Recovers (after o f)
Recovers-then (ok a d) f e h = h a d e
Recovers-then (throw x d) f e h = e
Recovers-then fault f e h = e
Recovers-then diverged f e h = e
Recovers-then too_deep f e h = e

module _ (nt : NonTerminal) (id start : ℕ) (fn : ℕ → Bool)
    (recovers : nt.m_recover.is_sync_token ≡ some fn) where
  recover_or-Recovers :
      (spec : Option (ℕ → Bool)) (committed : Bool) (state : RuleState) (c : Context)
      → spec ≡ some fn
      → committed ≡ false
      → Recovers (recover_or spec committed (λ f. recover nt f id start) (give_up id start state) c)
  unfolding recover
  recover_or-Recovers (some f) false state c h k =
      elim (Bool-cases (leb (resume_at f start c) (input_size c))) [
        | inl q ↦ rw q refl
        | inr q ↦ rw q tt
      ]
  recover_or-Recovers (some f) true state c h k = absurd cc
  recover_or-Recovers none b state c h k = absurd cc

  fail_rule-Recovers :
      (state : RuleState) (c : Context) → IsCalm c → Recovers (fail_rule nt id start state c)
  unfolding fail_rule
  fail_rule-Recovers state c calm =
      let d = record_rule_failure nt start c in
      recover_or-Recovers nt.m_recover.is_sync_token (get_cut d) state d recovers
        (get_cut-calm d (record_rule_failure-IsCalm nt start c calm))

  finish_rule-Recovers :
      (inner : Grown) (c : Context) → IsCalm c → Recovers (finish_rule nt id start inner c)
  unfolding finish_rule
  finish_rule-Recovers inner c calm =
      Recovers-then (build_node nt.has_typed_fold nt id start inner.best.tree c) _
        (build_node-Ends nt id start nt.has_typed_fold inner.best.tree c calm)
        (λ node d calm'. refl)

  rule_end-Recovers :
      (frames : ℕ) (o : Outcome Grown)
      → Ends o
      → Recovers (
          after (after o (λ grown. reset_to_frame >> pure grown)) (λ inner.
            leave_frame frames start >> (elim inner.best.success [
              | true ↦ finish_rule nt id start inner
              | false ↦ fail_rule nt id start inner.state
            ])))
  rule_end-Recovers frames o ends =
      Recovers-then (after o (λ grown. reset_to_frame >> pure grown)) _
        (Ends-then o _ ends (λ grown d calm. reset_to_frame-Ends grown d calm))
        λ inner d calm.
          Recovers-then (leave_frame frames start d) _ (leave_frame-Ends frames start d calm)
            λ _ z left. elim (Bool-cases inner.best.success) [
              | inl q ↦ rw q (finish_rule-Recovers inner z left)
              | inr q ↦ rw q (fail_rule-Recovers inner.state z left)
            ]

recovered :
    (g : Grammar) (c : Context) (o : Outcome ParseResult)
    → Safe g c (Moves c.m_position) o
    → Recovers o
    → (r : ParseResult) × (d : Context) × (o ≡ ok r d)
      × (r.success ≡ true)
      × (c.m_position ≤ d.m_position)
recovered g c (ok r d) s h = (r, d, refl, h, s.2.0)
recovered g c (throw e d) s h = absurd h
recovered g c fault s h = absurd s
recovered g c diverged s h = absurd s
recovered g c too_deep s h = absurd h

-- In a closed grammar without cuts, the first parse of a rule with recovery at a position (there
-- is no memo entry for it), on a valid context where every running rule has its entry and no
-- scope is committed, ends within (elements + 1) * rules * (tallest + 1) nested calls and
-- succeeds, whatever the input is: the parse goes on at or after the position.
pub nonterminal_parse-Recovers :
    (g : Grammar) (tallest depth id : ℕ) (nt : NonTerminal) (e : Expr) (fn : ℕ → Bool) (c : Context)
    → IsClosed g
    → IsCutFreeUpTo tallest g
    → get_elem? g.non_terminals id ≡ some nt
    → nt.m_rule ≡ some e
    → nt.m_recover.is_sync_token ≡ some fn
    → IsValid g c
    → IsCalm c
    → c.m_mem c.m_position id ≡ none
    → suc (input_size c) * length g.non_terminals * suc tallest ≤ depth
    → (r : ParseResult) × (d : Context) × (nonterminal_parse g (parse depth g) id c ≡ ok r d)
      × (r.success ≡ true)
      × (c.m_position ≤ d.m_position)
unfolding nonterminal_parse rule_state first_parse parse_impl
nonterminal_parse-Recovers g tallest depth id nt e fn c closed cut_free found body spec valid calm
      miss enough =
    let b = room g c in
    let p = parse depth g in
    let ready : IsReady g b c = record { valid = valid; calm = calm; room_left = refl } in
    let fits : b * suc tallest ≤ depth = omega (
      arith,
      enough,
      mul_mono b (suc (input_size c) * length g.non_terminals) (suc tallest) (room-le g c),
    ) in
    let safe = parse_body-Safe g p (parse-ExprSafe g closed depth) closed id nt e found body in
    let ends : (left : ℕ) → left < b → EndsOn g left (parse_body p nt.m_rule) = λ left h d r.
      rw body (
        bodies_end g tallest closed cut_free depth b fits e left (closed.bodies id nt e found body)
          (cut_free.bodies id nt e found body).0 (cut_free.bodies id nt e found body).1 h d r) in
    recovered g c (nonterminal_parse g p id c)
      (nonterminal_parse-RuleSafe g p closed (parse-ExprSafe g closed depth) id (nt, e, found, body)
        c valid)
      (rw (found, miss, plant g c valid id)
        (rule_end-Recovers nt id c.m_position fn spec (suc (length c.m_lr_stack)) _ (
          first_loop-Ends g c b ready id nt (parse_body p nt.m_rule) safe ends
            (get_elem?-lt g.non_terminals id nt found) miss)))
