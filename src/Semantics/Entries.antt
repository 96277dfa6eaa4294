-- ===== src/Semantics/Entries.antt =====
-- The memo entries of a rule while it runs and when it ends: `update_rule_state`, the frame and the
-- rule's node of include/peglib/NonTerminal.h and Context.h.
use peglib.Invariant.Rules.{left_frame}
use peglib.Prelude.{
  ℕ, ◌≤◌, ◌<◌, ◌≡◌, refl, Bool, true, false, List, [], ◌∷◌, Option, none, some, inl, inr,
  Bool-cases, not, ◌&&◌, ◌==◌, subst, arith,
}
use peglib.Context.{
  Context, RuleState, MemoTable, LrFrame, put_entry, is_some, in_progress, update_rule_state,
}
use peglib.Expr.{NonTerminal, Grammar}
use peglib.Engine.Rules.{
  frame, is_empty, record_rule_failure, build_node, set_last_pos, clear_if_growing,
}
use peglib.Semantics.Plan.{Plan, IsClear}
use peglib.Semantics.State.{with_memo, RuleAnswer, IsTrue, StateOf, State, Returns}
use peglib.Semantics.Terminals.{StateOf-Stays, record_failure-Stays}
use peglib.Invariant.Terminals.{record_failure-position}

-- A running frame that is no head.
abbrev pub running : ℕ → ℕ → ℕ → LrFrame
running id start last = record { rule = id; pos = start; last_pos = last; is_head = false }

-- A rule that may be called at a position is not running there.
pub IsClear-in_progress :
    (w : Plan) (k id i : ℕ) (fs : List LrFrame)
    → w.rank id < k
    → IsClear w k fs i
    → in_progress fs id i ≡ false
unfolding in_progress
IsClear-in_progress w k id i [] below clear = refl
IsClear-in_progress w k id i (f ∷ fs) below ((at, above), clear) =
    let rest = IsClear-in_progress w k id i fs below clear in
    elim (Bool-cases ((f.pos == i) && (f.rule == id))) [
      | inr q ↦ rw (q, rest) refl
      | inl q ↦
          let here : f.pos ≡ i = ground arith in
          let same : f.rule ≡ id = ground arith in
          let high : k ≤ w.rank id = rw same at (above here) in absurd (omega arith)
    ]

in_progress_self :
    (id start last : ℕ) (fs : List LrFrame)
    → in_progress (running id start last ∷ fs) id start ≡ true
unfolding in_progress
in_progress_self id start last fs = ground arith

in_progress_weaken :
    (id start last r p : ℕ) (fs : List LrFrame)
    → in_progress fs r p ≡ true
    → in_progress (running id start last ∷ fs) r p ≡ true
unfolding in_progress
in_progress_weaken id start last r p fs h = elim (Bool-cases ((start == p) && (id == r))) [
  | inl q ↦ rw q refl
  | inr q ↦ rw (q, h) refl
]

in_progress_below :
    (id start last r p : ℕ) (fs : List LrFrame)
    → ((p == start) && (r == id)) ≡ false
    → in_progress (running id start last ∷ fs) r p ≡ true
    → in_progress fs r p ≡ true
unfolding in_progress
in_progress_below id start last r p fs other h =
    let no : ((start == p) && (id == r)) ≡ false = ground arith in rw no at h

module _ (g : Grammar) (w : Plan) (t : List ℕ) (id start : ℕ) (fs : List LrFrame) where
  -- While the rule runs, its own entry may hold anything.
  put_entry-IsTrue :
      (last : ℕ) (s : RuleState) (mem : MemoTable)
      → IsTrue g w t (running id start last ∷ fs) mem
      → IsTrue g w t (running id start last ∷ fs) (put_entry start id s mem)
  put_entry-IsTrue last s mem h p r x e = elim (Bool-cases ((p == start) && (r == id))) [
    | inl q ↦
        let at : p ≡ start = ground arith in
        let same : r ≡ id = ground arith in inl (rw (at, same) (in_progress_self id start last fs))
    | inr q ↦ h p r x (rw q at e)
  ]

  -- When it begins, the entries are as true as before.
  pub begun-IsTrue :
      (last : ℕ) (s : RuleState) (mem : MemoTable)
      → IsTrue g w t fs mem
      → IsTrue g w t (running id start last ∷ fs) (put_entry start id s mem)
  begun-IsTrue last s mem h = put_entry-IsTrue last s mem λ p r x e. elim (h p r x e) [
    | inl on ↦ inl (in_progress_weaken id start last r p fs on)
    | inr true_ ↦ inr true_
  ]

  -- When it ends, its entry is a true answer.
  ended-IsTrue :
      (last : ℕ) (s : RuleState) (mem : MemoTable)
      → RuleAnswer g w t id start s.m_cached_result.success s.m_last_pos
      → IsTrue g w t (running id start last ∷ fs) mem
      → IsTrue g w t fs (put_entry start id s mem)
  ended-IsTrue last s mem ans h p r x e = elim (Bool-cases ((p == start) && (r == id))) [
    | inl q ↦
        let at : p ≡ start = ground arith in
        let same : r ≡ id = ground arith in
        let is : some s ≡ some x = rw q at e in
        inr (
          rw (at, same)
            (subst
              (λ (y : Option RuleState). elim y [
                | none ↦ Unit {0}
                | some z ↦ RuleAnswer g w t id start z.m_cached_result.success z.m_last_pos
              ])
              is ans))
    | inr q ↦ elim (h p r x (rw q at e)) [
      | inl on ↦ inl (in_progress_below id start last r p fs q on)
      | inr true_ ↦ inr true_
    ]
  ]

  missing-IsTrue :
      (last : ℕ) (mem : MemoTable)
      → is_some (mem start id) ≡ false
      → IsTrue g w t (running id start last ∷ fs) mem
      → IsTrue g w t fs mem
  missing-IsTrue last mem miss h p r x e = elim (Bool-cases ((p == start) && (r == id))) [
    | inl q ↦
        let at : p ≡ start = ground arith in
        let same : r ≡ id = ground arith in
        let own : mem start id ≡ some x = rw (at, same) at e in
        let present : is_some (mem start id) ≡ true = rw own refl in absurd (cc)
    | inr q ↦ elim (h p r x e) [
      | inl on ↦ inl (in_progress_below id start last r p fs q on)
      | inr true_ ↦ inr true_
    ]
  ]

  module _ (b : Bool) where
    -- An update of the running rule's entry.
    pub update_rule_state-State :
        (last : ℕ) (s : RuleState) (c : Context)
        → State g w t b (running id start last ∷ fs) c
        → State g w t b (running id start last ∷ fs) (update_rule_state id start s c).0
          × ((update_rule_state id start s c).0.m_position ≡ c.m_position)
    unfolding update_rule_state
    update_rule_state-State last s c h = elim (Bool-cases (is_some (c.m_mem start id))) [
      | inl q ↦ rw q (
        with_memo g w t b (running id start last ∷ fs) (running id start last ∷ fs)
            (running id start last ∷ fs) c _ h (put_entry-IsTrue last s c.m_mem h.memo),
        refl,
      )
      | inr q ↦ rw q (h, refl)
    ]

    pub set_last_pos-State :
        (last new : ℕ) (c : Context)
        → State g w t b (running id start last ∷ fs) c
        → State g w t b (running id start new ∷ fs) (set_last_pos new c)
    unfolding in_progress
    set_last_pos-State last new c h = record {
      input_is = h.input_is;
      enabled_is = h.enabled_is;
      skipper_is = h.skipper_is;
      frames_are = rw (h.frames_are) refl;
      no_heads = h.no_heads;
      memo = h.memo;
    }

    -- The last update, with the frame popped.
    pub update_rule_state-closed :
        (last : ℕ) (s : RuleState) (c : Context)
        → RuleAnswer g w t id start s.m_cached_result.success s.m_last_pos
        → StateOf g w t b fs (running id start last ∷ fs) c
        → State g w t b fs (update_rule_state id start s c).0
          × ((update_rule_state id start s c).0.m_position ≡ c.m_position)
    unfolding update_rule_state
    update_rule_state-closed last s c ans h = elim (Bool-cases (is_some (c.m_mem start id))) [
      | inl q ↦ rw q (
        with_memo g w t b fs (running id start last ∷ fs) fs c _ h
            (ended-IsTrue last s c.m_mem ans h.memo),
        refl,
      )
      | inr q ↦ rw q (
        with_memo g w t b fs (running id start last ∷ fs) fs c _ h
            (missing-IsTrue last c.m_mem q h.memo),
        refl,
      )
    ]

    -- A frame that is no head clears nothing.
    pub clear_if_growing_lem :
        (last : ℕ) (success : Bool) (c : Context)
        → c.m_lr_stack ≡ running id start last ∷ fs
        → clear_if_growing id start success c ≡ c
    clear_if_growing_lem last success c h =
        let no_head : (frame c).is_head ≡ false = rw h refl in rw no_head refl

    pub left_frame_lem :
        (last : ℕ) (c : Context)
        → State g w t b (running id start last ∷ fs) c
        → StateOf g w t b fs (running id start start ∷ fs) (left_frame start c)
          × ((left_frame start c).m_position ≡ c.m_position)
    unfolding in_progress
    left_frame_lem last c h =
        let no_head : (frame c).is_head ≡ false = rw (h.frames_are) refl in
        rw no_head (
          record {
            input_is = h.input_is;
            enabled_is = h.enabled_is;
            skipper_is = h.skipper_is;
            frames_are = rw (h.frames_are) refl;
            no_heads = h.no_heads;
            memo = h.memo;
          },
          refl,
        )

    pub record_rule_failure-State :
        (hs : List LrFrame) (nt : NonTerminal) (c : Context)
        → StateOf g w t b fs hs c
        → StateOf g w t b fs hs (record_rule_failure nt start c)
          × ((record_rule_failure nt start c).m_position ≡ c.m_position)
    unfolding record_rule_failure
    record_rule_failure-State hs nt c h = elim (Bool-cases (not (is_empty nt.m_label))) [
      | inl q ↦ rw q (
        StateOf-Stays g w t b fs hs c _ (record_failure-Stays start _ c) h,
        record_failure-position start _ c,
      )
      | inr q ↦ rw q (elim (Bool-cases (not (is_empty nt.m_name))) [
        | inl q' ↦ rw q' (
          StateOf-Stays g w t b fs hs c _ (record_failure-Stays start _ c) h,
          record_failure-position start _ c,
        )
        | inr q' ↦ rw q' (h, refl)
      ])
    ]

    pub build_node-Returns :
        (hs : List LrFrame) (folds : Bool) (nt : NonTerminal) (tree : Option ℕ) (c : Context)
        → StateOf g w t b fs hs c
        → Returns
            (λ _ d. StateOf g w t b fs hs d × (d.m_position ≡ c.m_position))
            (build_node folds nt id start tree c)
    build_node-Returns hs true nt tree c h = (h, refl)
    build_node-Returns hs false nt none c h = (h, refl)
    build_node-Returns hs false nt (some n) c h = (h, refl)
