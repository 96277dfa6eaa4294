-- ===== src/Termination/Rules.antt =====
-- A call of a rule, over a body that ends on the contexts with less room.
use peglib.Prelude.{
  leb, ℕ, suc, ◌≤◌, ◌<◌, ◌≡◌, refl, true, false, Bool, List, [], ◌∷◌, All, Option, none, some,
  arith, inl, inr, Bool-cases, Option-cases, not, ◌&&◌, ◌==◌, length, get_elem?-lt,
}
use peglib.Context.{
  Context, ParseResult, failed, RuleState, MemoTable, LrFrame, default_rule_state, put_entry,
  input_size, is_some, get_cut, in_progress, lr_in_progress, growing_head, set_growing_head,
  clear_growing_head, below_top, rule_state,
}
use peglib.Expr.{Expr, NonTerminal, Grammar}
use peglib.Engine.{reset, Outcome, Parser, after, ◌>>◌, pure}
use peglib.Engine.Rules.{
  replay, reset_to_frame, resume_at, mark_head, become_head, grow_loop, is_involved, memo_hit,
  frame, Grown, parse_impl, is_empty, record_rule_failure, recover, give_up, recover_or, fail_rule,
  build_node, finish_rule, leave_frame, first_parse, parse_body, nonterminal_parse,
}
use peglib.Invariant.{IsClosed, IsSound, IsValid, Safe, Moves}
use peglib.Invariant.Skipper.{ExprSafe}
use peglib.Invariant.Rules.{left_frame, seed, planted, plant, planted-IsValid, parse_body-Safe}
use peglib.Termination.{IsCutFree, IsCutFreeUpTo, height, IsCalm, IsReady, Ends, free, room}
use peglib.Termination.Room.{room-push}
use peglib.Termination.Calm.{
  IsCalm-Untouched, record_failure-Untouched, update_rule_state-IsCalm, put-IsCalm, push-IsCalm,
  Ends-then,
}
use peglib.Termination.Combinators.{EndsOn, RulesEnd}
use peglib.Termination.Grow.{grow_loop-Ends}

mark_head-framed :
    (id pos : ℕ) (mem : MemoTable) (fs : List LrFrame)
    → All (λ f. is_some (mem f.pos f.rule) ≡ true) fs
    → All (λ f. is_some (mem f.pos f.rule) ≡ true) (mark_head fs id pos).0
unfolding mark_head
mark_head-framed id pos mem [] h = tt
mark_head-framed id pos mem (f ∷ fs) (a, h) = elim (Bool-cases ((f.pos == pos) && (f.rule == id))) [
  | inl q ↦ rw q (a, h)
  | inr q ↦ rw q (a, mark_head-framed id pos mem fs h)
]

become_head-IsCalm : (id pos : ℕ) (c : Context) → IsCalm c → IsCalm (become_head id pos c)
unfolding become_head set_growing_head
become_head-IsCalm id pos c calm =
    let marked = mark_head-framed id pos c.m_mem c.m_lr_stack calm.framed in
    elim (Bool-cases (mark_head c.m_lr_stack id pos).1) [
      | inl h ↦ rw h (record { framed = marked; uncut = calm.uncut })
      | inr h ↦ rw h (record { framed = marked; uncut = calm.uncut })
    ]

pub reset-Ends : (pos : ℕ) (c : Context) → IsCalm c → Ends (reset pos c)
reset-Ends pos c calm = elim (Bool-cases (leb pos (input_size c))) [
  | inl h ↦ rw h (assumption calm)
  | inr h ↦ rw h tt
]

replay-Ends : (s : RuleState) (c : Context) → IsCalm c → Ends (replay s c)
replay-Ends s c calm =
    Ends-then (reset s.m_last_pos c) _ (reset-Ends s.m_last_pos c calm) (λ _ d calm'. calm')

memo_hit-Ends : (id pos : ℕ) (s : RuleState) (c : Context) → IsCalm c → Ends (memo_hit id pos s c)
unfolding memo_hit
memo_hit-Ends id pos s c calm = elim (Bool-cases (lr_in_progress id pos c)) [
  | inl h ↦ rw h (replay-Ends _ _ (become_head-IsCalm id pos c calm))
  | inr h ↦ rw h (elim (Bool-cases (is_involved (growing_head pos c) id)) [
    | inl q ↦ rw q (replay-Ends _ c calm)
    | inr q ↦ rw q (replay-Ends _ c calm)
  ])
]

below_top-framed :
    (mem : MemoTable) (fs : List LrFrame)
    → All (λ f. is_some (mem f.pos f.rule) ≡ true) fs
    → All (λ f. is_some (mem f.pos f.rule) ≡ true) (below_top fs)
below_top-framed mem [] h = tt
below_top-framed mem (f ∷ fs) h = h.1

left_frame-IsCalm : (start : ℕ) (c : Context) → IsCalm c → IsCalm (left_frame start c)
unfolding clear_growing_head
left_frame-IsCalm start c calm =
    let popped = below_top-framed c.m_mem c.m_lr_stack calm.framed in
    elim (Bool-cases (frame c).is_head) [
      | inl h ↦ rw h (record { framed = popped; uncut = calm.uncut })
      | inr h ↦ rw h (record { framed = popped; uncut = calm.uncut })
    ]

pub reset_to_frame-Ends :
    (inner : Grown) (c : Context) → IsCalm c → Ends ((reset_to_frame >> pure inner) c)
reset_to_frame-Ends inner c calm =
    Ends-then (reset_to_frame c) _ (reset-Ends (frame c).last_pos c calm) (λ _ d calm'. calm')

pub leave_frame-Ends :
    (frames start : ℕ) (c : Context) → IsCalm c → Ends (leave_frame frames start c)
leave_frame-Ends frames start c calm = elim (Bool-cases (length c.m_lr_stack == frames)) [
  | inl h ↦ rw h (left_frame-IsCalm start c calm)
  | inr h ↦ rw h tt
]

pub record_rule_failure-IsCalm :
    (nt : NonTerminal) (start : ℕ) (c : Context)
    → IsCalm c
    → IsCalm (record_rule_failure nt start c)
unfolding record_rule_failure
record_rule_failure-IsCalm nt start c calm = elim (Bool-cases (not (is_empty nt.m_label))) [
  | inl h ↦ rw h (IsCalm-Untouched c _ (record_failure-Untouched start _ c) calm)
  | inr h ↦ rw h (elim (Bool-cases (not (is_empty nt.m_name))) [
    | inl q ↦ rw q (IsCalm-Untouched c _ (record_failure-Untouched start _ c) calm)
    | inr q ↦ rw q calm
  ])
]

module _ (nt : NonTerminal) (id start : ℕ) where
  recover_or-Ends :
      (spec : Option (ℕ → Bool)) (b : Bool) (state : RuleState) (c : Context)
      → IsCalm c
      → Ends (recover_or spec b (λ f. recover nt f id start) (give_up id start state) c)
  unfolding recover
  recover_or-Ends (some f) false state c calm =
      Ends-then (reset (resume_at f start c) c) _ (reset-Ends (resume_at f start c) c calm)
        λ _ d calm'. update_rule_state-IsCalm id start _ _ (assumption calm')
  recover_or-Ends (some f) true state c calm = update_rule_state-IsCalm id start _ c calm
  recover_or-Ends none b state c calm = update_rule_state-IsCalm id start _ c calm

  fail_rule-Ends :
      (state : RuleState) (c : Context) → IsCalm c → Ends (fail_rule nt id start state c)
  unfolding fail_rule
  fail_rule-Ends state c calm =
      let d = record_rule_failure nt start c in
      recover_or-Ends nt.m_recover.is_sync_token (get_cut d) state d
        (record_rule_failure-IsCalm nt start c calm)

  pub build_node-Ends :
      (folds : Bool) (tree : Option ℕ) (c : Context)
      → IsCalm c
      → Ends (build_node folds nt id start tree c)
  build_node-Ends true tree c calm = assumption calm
  build_node-Ends false none c calm = assumption calm
  build_node-Ends false (some t) c calm = assumption calm

  finish_rule-Ends :
      (inner : Grown) (c : Context) → IsCalm c → Ends (finish_rule nt id start inner c)
  unfolding finish_rule
  finish_rule-Ends inner c calm =
      Ends-then (build_node nt.has_typed_fold nt id start inner.best.tree c) _
        (build_node-Ends nt.has_typed_fold inner.best.tree c calm)
        (λ node d calm'. update_rule_state-IsCalm id start _ d calm')

  rule_end-Ends :
      (frames : ℕ) (o : Outcome Grown)
      → Ends o
      → Ends (
          after (after o (λ grown. reset_to_frame >> pure grown)) (λ inner.
            leave_frame frames start >> (elim inner.best.success [
              | true ↦ finish_rule nt id start inner
              | false ↦ fail_rule nt id start inner.state
            ])))
  rule_end-Ends frames o ends =
      Ends-then (after o (λ grown. reset_to_frame >> pure grown)) _
        (Ends-then o _ ends (λ grown d calm. reset_to_frame-Ends grown d calm))
        λ inner d calm.
          Ends-then (leave_frame frames start d) _ (leave_frame-Ends frames start d calm)
            λ _ z left. elim (Bool-cases inner.best.success) [
              | inl q ↦ rw q (finish_rule-Ends inner z left)
              | inr q ↦ rw q (fail_rule-Ends inner.state z left)
            ]

-- A rule without an entry is not running.
framed-in_progress :
    (mem : MemoTable) (fs : List LrFrame) (id pos : ℕ)
    → All (λ f. is_some (mem f.pos f.rule) ≡ true) fs
    → mem pos id ≡ none
    → in_progress fs id pos ≡ false
unfolding in_progress
framed-in_progress mem [] id pos h miss = refl
framed-in_progress mem (f ∷ fs) id pos (a, h) miss =
    let rest = framed-in_progress mem fs id pos h miss in
    elim (Bool-cases ((f.pos == pos) && (f.rule == id))) [
      | inl q ↦
          let p : f.pos ≡ pos = ground arith in
          let r : f.rule ≡ id = ground arith in
          let running : is_some none ≡ true = rw (p, r, miss) at a in absurd cc
      | inr q ↦ rw (q, rest) refl
    ]

module _ (g : Grammar) (c : Context) (b : ℕ) (ready : IsReady g b c) (id : ℕ) where
  planted-IsCalm : IsCalm (planted g c ready.valid id)
  planted-IsCalm =
      let entered = put-IsCalm c.m_position id default_rule_state c ready.calm in
      let seeded = put-IsCalm c.m_position id (seed g c ready.valid id) _ entered in
      push-IsCalm _ _ seeded (ground arith)

  planted-room :
      id < length g.non_terminals
      → c.m_mem c.m_position id ≡ none
      → room g (planted g c ready.valid id) < b
  planted-room h miss = omega (
    arith,
    ready.room_left,
    room-push g c
        (record { rule = id; pos = c.m_position; last_pos = c.m_position; is_head = false })
        (framed-in_progress c.m_mem c.m_lr_stack id c.m_position ready.calm.framed miss) h
        ready.valid.position,
  )

  module _ (nt : NonTerminal) (p : Parser ParseResult)
      (safe : (d : Context) → IsValid g d → Safe g d (Moves d.m_position) (p d))
      (ends : (left : ℕ) → left < b → EndsOn g left p) where
    -- The loop of the first parse.
    pub first_loop-Ends :
        id < length g.non_terminals
        → c.m_mem c.m_position id ≡ none
        → Ends (
            grow_loop
              (suc (suc (input_size c)))
              p
              id
              c.m_position
              failed
              (seed g c ready.valid id)
              (planted g c ready.valid id))
    first_loop-Ends h miss =
        let d = planted g c ready.valid id in
        grow_loop-Ends g (room g d) p (ends (room g d) (planted-room h miss)) safe id c.m_position
          (suc (suc (input_size c))) failed (seed g c ready.valid id) d
          (record {
            valid = planted-IsValid g c ready.valid id;
            calm = planted-IsCalm;
            room_left = refl;
          })
          ready.valid.position

    first_parse-Ends :
        id < length g.non_terminals
        → c.m_mem c.m_position id ≡ none
        → Ends (
            first_parse nt p id c.m_position
              (record c { m_mem = put_entry c.m_position id default_rule_state c.m_mem }))
    unfolding first_parse parse_impl
    first_parse-Ends h miss =
        rw (plant g c ready.valid id)
          (rule_end-Ends nt id c.m_position (suc (length c.m_lr_stack)) _ (first_loop-Ends h miss))

-- The operands' parser ends on the contexts that have less room than `b`.
abbrev pub BodiesEnd : Grammar → ℕ → ℕ → (Expr → Parser ParseResult) → Type 0
BodiesEnd g tallest b p =
    (e : Expr) (left : ℕ)
    → IsSound g e
    → IsCutFree e
    → height e ≤ tallest
    → left < b
    → EndsOn g left (p e)

pub nonterminal_parse-RulesEnd :
    (g : Grammar) (tallest b : ℕ) (p : Expr → Parser ParseResult)
    → IsClosed g
    → IsCutFreeUpTo tallest g
    → ExprSafe g p
    → BodiesEnd g tallest b p
    → RulesEnd g b (nonterminal_parse g p)
unfolding nonterminal_parse rule_state
nonterminal_parse-RulesEnd g tallest b p closed free safe ends id (nt, e, found, body) c ready =
    rw found (elim (Option-cases (c.m_mem c.m_position id)) [
      | inr (s, hit) ↦ rw hit (memo_hit-Ends id c.m_position s c ready.calm)
      | inl miss ↦ rw miss (
          first_parse-Ends g c b ready id nt (parse_body p nt.m_rule)
            (parse_body-Safe g p safe closed id nt e found body)
            (λ left h d r. rw body (
              ends e left (closed.bodies id nt e found body) (free.bodies id nt e found body).0
                (free.bodies id nt e found body).1 h d r))
            (get_elem?-lt g.non_terminals id nt found) miss)
    ])
