-- ===== src/Semantics/Rules.antt =====
-- `NonTerminal::parse` of include/peglib/NonTerminal.h, in a grammar without left recursion: a memo
-- hit and a first parse both answer as the semantics says.
use peglib.Invariant.Rules.{left_frame}
use peglib.Prelude.{
  leb, length, ◌==◌, suc, ℕ, ◌<◌, ◌≡◌, refl, sym, ◌∙◌, Bool, true, false, List, ◌∷◌, Option, none,
  some, inl, inr, Bool-cases, Option-cases, get_elem?, subst, arith,
}
use peglib.Context.{
  input_size, Context, ParseResult, failed, RuleState, LrFrame, default_rule_state, put_entry,
  in_progress, rule_state, lr_in_progress, lr_push,
}
use peglib.Expr.{Expr, NonTerminal, Grammar}
use peglib.Engine.{Outcome, Parser}
use peglib.Engine.Rules.{
  replay, memo_hit, Grown, parse_impl, record_rule_failure, fail_rule, build_node, finish_rule,
  first_parse, parse_body, nonterminal_parse,
}
use peglib.Semantics.{called}
use peglib.Semantics.Plan.{Plan, IsClear, IsOrdered}
use peglib.Semantics.Clear.{IsClear-below}
use peglib.Semantics.State.{
  Answer, RuleAnswer, StateOf, State, Returns, Tells, Returns-bind, Returns-map, ExprsTell,
  RulesTell,
}
use peglib.Semantics.Grow.{parse_impl-Returns}
use peglib.Semantics.Entries.{
  running, IsClear-in_progress, begun-IsTrue, update_rule_state-closed, left_frame_lem,
  record_rule_failure-State, build_node-Returns,
}

module _ (g : Grammar) (w : Plan) (t : List ℕ) (id start : ℕ) (fs : List LrFrame) where
  abbrev Popped : Context → Type 0
  Popped d = StateOf g w t (w.skips id) fs (running id start start ∷ fs) d

  abbrev Answered : Outcome ParseResult → Type 0
  Answered = Tells g w t (w.skips id) fs (λ r j. RuleAnswer g w t id start r.success j)

  finish_rule-Tells :
      (nt : NonTerminal) (inner : Grown) (d : Context)
      → Popped d
      → RuleAnswer g w t id start true inner.state.m_last_pos
      → d.m_position ≡ inner.state.m_last_pos
      → Answered (finish_rule nt id start inner d)
  unfolding finish_rule
  finish_rule-Tells nt inner d h ans at =
      Returns-bind _ _ (build_node nt.has_typed_fold nt id start inner.best.tree d) _
        (build_node-Returns g w t id start fs (w.skips id) (running id start start ∷ fs)
          nt.has_typed_fold nt inner.best.tree d h)
        λ node z (h', same).
          let result : ParseResult = record { success = true; tree = some node } in
          let (h'', same') =
            update_rule_state-closed g w t id start fs (w.skips id) start
              (record inner.state { m_cached_result = result }) z ans h' in
          (h'', rw (same' ∙ same ∙ at) ans)

  fail_rule-Tells :
      (nt : NonTerminal) (state : RuleState) (d : Context)
      → nt.m_recover.is_sync_token ≡ none
      → Popped d
      → RuleAnswer g w t id start false state.m_last_pos
      → d.m_position ≡ state.m_last_pos
      → Answered (fail_rule nt id start state d)
  unfolding fail_rule
  fail_rule-Tells nt state d plain h ans at =
      let (h', same) =
        record_rule_failure-State g w t id start fs (w.skips id) (running id start start ∷ fs) nt d
          h in
      let (h'', same') =
        update_rule_state-closed g w t id start fs (w.skips id) start
          (record state { m_cached_result = failed }) (record_rule_failure nt start d) ans h' in
      simp plain (h'', rw (same' ∙ same ∙ at) ans)

  module _ (body : Parser ParseResult)
      (tells : (last : ℕ) (c : Context)
        → c.m_position ≡ start
        → State g w t (w.skips id) (running id start last ∷ fs) c
        → Tells g w t
            (w.skips id)
            (running id start last ∷ fs)
            (λ r j. RuleAnswer g w t id start r.success j)
            (body c)) where
    first_parse-Tells :
        (nt : NonTerminal) (c : Context)
        → nt.m_recover.is_sync_token ≡ none
        → State g w t
            (w.skips id)
            (running id start start ∷ fs)
            (lr_push (running id start start) c)
        → Answered (first_parse nt body id start c)
    unfolding first_parse
    first_parse-Tells nt c plain h =
        let d = lr_push (running id start start) c in
        Returns-bind _ _ (parse_impl body id start d) _
          (parse_impl-Returns g w t id start fs body tells d h)
          λ inner z ((h', ans), at).
            let last = inner.state.m_last_pos in
            elim (Bool-cases (length z.m_lr_stack == suc (length c.m_lr_stack))) [
              | inr other ↦ rw (other, Returns) tt
              | inl own ↦ rw own (
                  let (popped, same) = left_frame_lem g w t id start fs (w.skips id) last z h' in
                  elim (Bool-cases inner.best.success) [
                    | inl q ↦
                        rw (q, Returns)
                          (finish_rule-Tells nt inner (left_frame start z) popped (rw q at ans)
                            (same ∙ at))
                    | inr q ↦
                        rw (q, Returns)
                          (fail_rule-Tells nt inner.state (left_frame start z) plain popped
                            (rw q at ans) (same ∙ at))
                  ])
            ]

replay-Tells :
    (g : Grammar) (w : Plan) (t : List ℕ) (id start : ℕ) (b : Bool) (fs : List LrFrame)
    (s : RuleState) (c : Context)
    → State g w t b fs c
    → RuleAnswer g w t id start s.m_cached_result.success s.m_last_pos
    → Tells g w t b fs (λ r j. RuleAnswer g w t id start r.success j) (replay s c)
replay-Tells g w t id start b fs s c h ans = elim (Bool-cases (leb s.m_last_pos (input_size c))) [
  | inl inside ↦ rw inside (h, ans)
  | inr outside ↦ rw outside tt
]

-- A memo hit on a rule that is not running replays a true answer.
memo_hit-Tells :
    (g : Grammar) (w : Plan) (t : List ℕ) (id : ℕ) (fs : List LrFrame) (s : RuleState) (c : Context)
    → in_progress fs id c.m_position ≡ false
    → c.m_mem c.m_position id ≡ some s
    → State g w t (w.skips id) fs c
    → Tells g w t
        (w.skips id)
        fs
        (λ r j. RuleAnswer g w t id c.m_position r.success j)
        (memo_hit id c.m_position s c)
unfolding memo_hit
memo_hit-Tells g w t id fs s c idle hit h =
    let idle' : lr_in_progress id c.m_position c ≡ false = rw (h.frames_are) idle in
    simp (idle', h.no_heads c.m_position)
      (replay-Tells g w t id c.m_position (w.skips id) fs s c h
        (elim (h.memo c.m_position id s hit) [ inl on ↦ absurd (cc) | inr ans ↦ ans ]))

module _ (g : Grammar) (w : Plan) (t : List ℕ) (ordered : IsOrdered g w)
    (p : Expr → Parser ParseResult) (tells : ExprsTell g w t p) where
  as_rule :
      (id start : ℕ) (nt : NonTerminal) (e : Expr) (s : Bool) (j : ℕ)
      → get_elem? g.non_terminals id ≡ some nt
      → nt.m_rule ≡ some e
      → Answer g w t (w.skips id) e start s j
      → RuleAnswer g w t id start s j
  as_rule id start nt e true j found body (m, le, lt) =
      (called found body m, le, λ a. lt ((ordered.bodies id nt e found body).1 a))
  as_rule id start nt e false j found body (m, same) = (called found body m, same)

  body-Tells :
      (id k : ℕ) (fs : List LrFrame) (start : ℕ) (nt : NonTerminal) (e : Expr)
      → get_elem? g.non_terminals id ≡ some nt
      → nt.m_rule ≡ some e
      → w.rank id < k
      → IsClear w k fs start
      → (last : ℕ) (c : Context) → c.m_position ≡ start
      → State g w t (w.skips id) (running id start last ∷ fs) c
      → Tells g w t
          (w.skips id)
          (running id start last ∷ fs)
          (λ r j. RuleAnswer g w t id start r.success j)
          (p e c)
  body-Tells id k fs start nt e found body below clear last c at h =
      Returns-map _ _ (p e c)
        (tells e (w.skips id) (w.rank id) (running id start last ∷ fs) c
          (ordered.bodies id nt e found body).0
          (
            (omega arith, λ _. omega arith),
            subst (λ (i : ℕ). IsClear w (w.rank id) fs i) (sym at)
                (IsClear-below w k (w.rank id) fs start (omega arith) clear),
          )
          h)
        λ r d (h', ans).
          (h', as_rule id start nt e r.success d.m_position found body (rw at at ans))

  parse_body-Tells :
      (id k : ℕ) (fs : List LrFrame) (start : ℕ) (nt : NonTerminal) (o : Option Expr)
      → get_elem? g.non_terminals id ≡ some nt
      → nt.m_rule ≡ o
      → w.rank id < k
      → IsClear w k fs start
      → (last : ℕ) (c : Context) → c.m_position ≡ start
      → State g w t (w.skips id) (running id start last ∷ fs) c
      → Tells g w t
          (w.skips id)
          (running id start last ∷ fs)
          (λ r j. RuleAnswer g w t id start r.success j)
          (parse_body p o c)
  parse_body-Tells id k fs start nt none found body below clear last c at h = tt
  parse_body-Tells id k fs start nt (some e) found body below clear last c at h =
      body-Tells id k fs start nt e found body below clear last c at h

  pub nonterminal_parse-RulesTell : RulesTell g w t (nonterminal_parse g p)
  unfolding nonterminal_parse rule_state
  nonterminal_parse-RulesTell id k fs c below clear h =
      elim (Option-cases (get_elem? g.non_terminals id)) [
        | inl missing ↦ rw missing tt
        | inr (nt, found) ↦ rw found (elim (Option-cases (c.m_mem c.m_position id)) [
          | inr (s, hit) ↦ rw hit (
              memo_hit-Tells g w t id fs s c
                (IsClear-in_progress w k id c.m_position fs below clear) hit h)
          | inl miss ↦ rw miss (
              first_parse-Tells g w t id c.m_position fs (parse_body p nt.m_rule)
                (parse_body-Tells id k fs c.m_position nt nt.m_rule found refl below clear) nt
                (record c { m_mem = put_entry c.m_position id default_rule_state c.m_mem })
                (ordered.plain id nt found)
                (record {
                  input_is = h.input_is;
                  enabled_is = h.enabled_is;
                  skipper_is = h.skipper_is;
                  frames_are = rw (h.frames_are) refl;
                  no_heads = h.no_heads;
                  memo =
                      begun-IsTrue g w t id c.m_position fs c.m_position default_rule_state c.m_mem
                        h.memo;
                }))
        ])
      ]
