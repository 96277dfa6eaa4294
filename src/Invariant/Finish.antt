-- ===== src/Invariant/Finish.antt =====
-- The invariant where a rule ends: recovery, the cached answer and the tree node.
use peglib.Prelude.{
  leb, le→leb, ℕ, zero, suc, ◌+◌, ◌≤◌, ◌≡◌, refl, ap, ◌∙◌, Bool, true, false, List, [], ◌∷◌, Option,
  none, some, arith, inl, inr, Bool-cases, not, length, drop,
}
use peglib.ParseError.{rule_label, rule_name}
use peglib.Context.{Context, failed, RuleState, input_size, get_cut, update_rule_state}
use peglib.Expr.{NonTerminal, Grammar}
use peglib.Engine.Rules.{
  Grown, is_empty, record_rule_failure, sync_scan, resume_at, recover, give_up, recover_or,
  fail_rule, build_node, finish_rule,
}
use peglib.Invariant.{IsEntry, IsValid, Safe, Moves}
use peglib.Invariant.Relations.{Keeps-refl, Keeps-trans}
use peglib.Invariant.Operations.{
  Goes, position-Goes, make_node-Goes, update_node-Goes, record_failure-Goes, diagnostic-Goes,
}
use peglib.Invariant.Memo.{update_rule_state-Goes}
use peglib.Invariant.Safe.{Safe-via, Safe-bind}
use peglib.Invariant.Terminals.{record_failure-position}

pub update_rule_state-position :
    (rule pos : ℕ) (s : RuleState) (c : Context)
    → (update_rule_state rule pos s c).0.m_position ≡ c.m_position
unfolding update_rule_state
update_rule_state-position rule pos s c = ground arith

-- The scan stops between its start and the end of what it reads.
sync_scan_bounds :
    (f : ℕ → Bool) (scan : ℕ) (xs : List ℕ)
    → (scan ≤ sync_scan f scan xs) × (sync_scan f scan xs ≤ scan + length xs)
unfolding sync_scan
sync_scan_bounds f scan [] = (omega arith, omega arith)
sync_scan_bounds f scan (x ∷ xs) = ground (arith, sync_scan_bounds f (suc scan) xs)

length-drop : (n : ℕ) (xs : List ℕ) → n ≤ length xs → n + length (drop n xs) ≡ length xs
length-drop zero xs h = omega arith
length-drop (suc n) [] h = absurd (omega arith)
length-drop (suc n) (x ∷ xs) h = omega (arith, length-drop n xs)

resume_at_bounds :
    (f : ℕ → Bool) (start : ℕ) (c : Context)
    → start ≤ input_size c
    → (start ≤ resume_at f start c) × (resume_at f start c ≤ input_size c)
unfolding resume_at
resume_at_bounds f start c h =
    ground (arith, sync_scan_bounds f start (drop start c.m_input), length-drop start c.m_input)

record_rule_failure-position :
    (nt : NonTerminal) (start : ℕ) (c : Context)
    → (record_rule_failure nt start c).m_position ≡ c.m_position
unfolding record_rule_failure
record_rule_failure-position nt start c = elim (Bool-cases (not (is_empty nt.m_label))) [
  | inl h ↦ rw h (record_failure-position start (record { kind = rule_label; text = nt.m_label }) c)
  | inr h ↦ rw h (elim (Bool-cases (not (is_empty nt.m_name))) [
    | inl q ↦ rw q (record_failure-position start (record { kind = rule_name; text = nt.m_name }) c)
    | inr q ↦ rw q
  ])
]

module _ (g : Grammar) (c : Context) (v : IsValid g c) (nt : NonTerminal) (rule start : ℕ) where
  record_rule_failure-Goes : start ≤ input_size c → Goes g c (record_rule_failure nt start c)
  unfolding record_rule_failure
  record_rule_failure-Goes h = elim (Bool-cases (not (is_empty nt.m_label))) [
    | inl p ↦ rw p (record_failure-Goes v start _ h)
    | inr p ↦ rw p (elim (Bool-cases (not (is_empty nt.m_name))) [
      | inl q ↦ rw q (record_failure-Goes v start _ h)
      | inr q ↦ rw q (v, Keeps-refl c)
    ])
  ]

  recover-Safe :
      (f : ℕ → Bool) → start ≤ input_size c → Safe g c (Moves start) (recover nt f rule start c)
  unfolding recover
  recover-Safe f h =
      let inside = resume_at_bounds f start c h in
      let resume = resume_at f start c in
      let moved = position-Goes v resume inside.1 in
      let told = diagnostic-Goes moved.0 _ in
      let n =
        update_rule_state-Goes told.0 rule start
          (record { m_last_pos = resume; m_cached_result = record { success = true; tree = none } })
          (record { from = inside.0; within = inside.1; stays = λ e. cc }) in
      let holds : leb resume (input_size c) ≡ true = le→leb _ _ inside.1 in
      rw holds (
        n.0,
        Keeps-trans moved.1 (Keeps-trans told.1 n.1),
        (omega (arith, inside.0, update_rule_state-position rule start _ _), λ e. cc),
      )

  give_up-Safe :
      (state : RuleState)
      → c.m_position ≡ start
      → state.m_last_pos ≡ start
      → Safe g c (Moves start) (give_up rule start state c)
  give_up-Safe state at stays =
      let n =
        update_rule_state-Goes v rule start (record state { m_cached_result = failed })
          (record { from = omega arith; within = omega (arith, v.position); stays = λ e. stays }) in
      let same =
        update_rule_state-position rule start (record state { m_cached_result = failed }) c in
      (n.0, n.1, (omega (arith, same), λ e. same ∙ at))

  recover_or-Safe :
      (spec : Option (ℕ → Bool)) (b : Bool) (state : RuleState)
      → c.m_position ≡ start
      → state.m_last_pos ≡ start
      → Safe g c
          (Moves start)
          (recover_or spec b (λ f. recover nt f rule start) (give_up rule start state) c)
  recover_or-Safe (some f) false state at stays = recover-Safe f (omega (arith, v.position))
  recover_or-Safe _ _ state at stays = give_up-Safe state at stays

module _ (g : Grammar) (c : Context) (v : IsValid g c) (nt : NonTerminal) (rule start : ℕ) where
  pub fail_rule-Safe :
      (state : RuleState)
      → c.m_position ≡ start
      → state.m_last_pos ≡ start
      → Safe g c (Moves start) (fail_rule nt rule start state c)
  unfolding fail_rule
  fail_rule-Safe state at stays =
      let d = record_rule_failure nt start c in
      let n = record_rule_failure-Goes g c v nt rule start (omega (arith, v.position)) in
      Safe-via g c d (Moves start) _ n.1 (
        recover_or-Safe g d n.0 nt rule start nt.m_recover.is_sync_token (get_cut d) state
          (record_rule_failure-position nt start c ∙ at) stays)

  build_node-Safe :
      (folds : Bool) (tree : Option ℕ)
      → Safe g c (λ _ d. d.m_position ≡ c.m_position) (build_node folds nt rule start tree c)
  build_node-Safe true tree =
      let made = make_node-Goes v in
      let n = update_node-Goes made.0 _ _ in (n.0, Keeps-trans made.1 n.1, refl)
  build_node-Safe false none =
      let made = make_node-Goes v in
      let n = update_node-Goes made.0 _ _ in (n.0, Keeps-trans made.1 n.1, refl)
  build_node-Safe false (some t) = let n = update_node-Goes v t _ in (n.0, n.1, refl)

  pub finish_rule-Safe :
      (inner : Grown)
      → start ≤ c.m_position
      → start ≤ inner.state.m_last_pos
      → inner.state.m_last_pos ≤ input_size c
      → Safe g c (Moves start) (finish_rule nt rule start inner c)
  unfolding finish_rule
  finish_rule-Safe inner forward from within =
      Safe-bind g c (λ _ d. d.m_position ≡ c.m_position) (Moves start)
        (build_node nt.has_typed_fold nt rule start inner.best.tree c) _
        (build_node-Safe nt.has_typed_fold inner.best.tree)
        λ node d w k at.
          let cached : RuleState = record inner.state {
            m_cached_result = record { success = true; tree = some node };
          } in
          let entry : IsEntry (input_size d) start cached = record {
            from = from;
            within = omega (arith, within, ap length k.input);
            stays = λ e. cc;
          } in
          let n = update_rule_state-Goes w rule start cached entry in
          (
            n.0,
            n.1,
            (omega (arith, forward, at, update_rule_state-position rule start cached d), λ e. cc),
          )
