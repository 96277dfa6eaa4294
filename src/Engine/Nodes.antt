-- ===== src/Engine/Nodes.antt =====
-- The tree node of a rule in include/peglib/NonTerminal.h.
use peglib.Prelude.{
  length, leb, ◌==◌, Bool-cases, ℕ, zero, suc, ◌≡◌, ◌⊎◌, inl, inr, refl, Bool, true, false, List,
  [], ◌∷◌, Option, none, some, get_elem?, set, arith,
}
use peglib.Context.{
  input_size, Context, ParseResult, ParseTreeNode, RuleState, update_rule_state, lr_push,
  rule_state,
}
use peglib.Expr.{Expr, NonTerminal, Grammar}
use peglib.Engine.{ok, throw, fault, diverged, too_deep, Parser, after, ◌>>=◌, ◌>>◌, pure, method}
use peglib.Engine.Rules.{
  resume_at, Grown, build_node, finish_rule, fail_rule, recover, give_up, recover_or, parse_impl,
  first_parse, leave_frame, parse_body, nonterminal_parse,
}

-- The node bears the rule's name, from the start to where the context stands, and a rule with a
-- typed action has produced it.
abbrev pub Spans : NonTerminal → ℕ → ℕ → ParseTreeNode → Context → Type 0
Spans nt rule start_pos n d =
    (n.name ≡ nt.m_name)
    × (n.start_offset ≡ start_pos)
    × (n.end_offset ≡ d.m_position)
    × ((n.producer ≡ some rule) ⊎ (nt.has_typed_fold ≡ false))

written :
    (ns : List ParseTreeNode) (k : ℕ) (v n : ParseTreeNode)
    → get_elem? (set ns k v) k ≡ some n
    → v ≡ n
written [] k v n h = absurd (cc)
written (x ∷ ns) zero v n h = cc
written (x ∷ ns) (suc k) v n h = written ns k v n h

update_rule_state-same :
    (rule pos : ℕ) (s : RuleState) (c : Context)
    → ((update_rule_state rule pos s c).0.m_position ≡ c.m_position)
      × ((update_rule_state rule pos s c).0.m_node_arena ≡ c.m_node_arena)
unfolding update_rule_state
update_rule_state-same rule pos s c = ground arith

-- The end of `NonTerminal::parse`, for the node that was built.
abbrev store : ℕ → ℕ → RuleState → ℕ → Parser ParseResult
store rule start_pos state node = do
  let result : ParseResult = record { success = true; tree = some node }
  _ ← method (update_rule_state rule start_pos (record state { m_cached_result = result }))
  pure result

module _ (nt : NonTerminal) (rule start_pos : ℕ) (state : RuleState) (d : Context) (r : ParseResult)
    (k : ℕ) (n : ParseTreeNode) (tree : r.tree ≡ some k)
    (at : get_elem? d.m_node_arena k ≡ some n) where
  store-Spans :
      (node : ℕ) (c : Context) (ns : List ParseTreeNode) (v : ParseTreeNode)
      → c.m_node_arena ≡ set ns node v
      → Spans nt rule start_pos v c
      → store rule start_pos state node c ≡ ok r d
      → Spans nt rule start_pos n d
  store-Spans node c ns v is (name, begins, ends, produced) e =
      let result : ParseResult = record { success = true; tree = some node } in
      let (stays, same) =
        update_rule_state-same rule start_pos (record state { m_cached_result = result }) c in
      let there : node ≡ k = cc in
      let read : get_elem? (set ns node v) node ≡ some n = cc in
      let is_n : v ≡ n = written ns node v n read in (cc, cc, cc, rw is_n at produced)

  build_node-Spans :
      (own : Bool) (body : Option ℕ) (c : Context)
      → nt.has_typed_fold ≡ own
      → after (build_node own nt rule start_pos body c) (store rule start_pos state) ≡ ok r d
      → Spans nt rule start_pos n d
  build_node-Spans true none c own e = store-Spans _ _ _ _ refl (refl, refl, refl, inl refl) e
  build_node-Spans true (some t) c own e = store-Spans _ _ _ _ refl (refl, refl, refl, inl refl) e
  build_node-Spans false none c own e = store-Spans _ _ _ _ refl (refl, refl, refl, inr own) e
  build_node-Spans false (some t) c own e = store-Spans _ _ _ _ refl (refl, refl, refl, inr own) e

  finish_rule-Spans :
      (body : ParseResult)
      → (c : Context)
      → finish_rule nt rule start_pos (record { best = body; state = state }) c ≡ ok r d
      → Spans nt rule start_pos n d
  unfolding finish_rule
  finish_rule-Spans body c e = build_node-Spans nt.has_typed_fold body.tree c refl e

abbrev finish_or_fail : NonTerminal → ℕ → ℕ → Grown → Bool → Parser ParseResult
finish_or_fail nt rule start_pos inner success = elim success [
  | true ↦ finish_rule nt rule start_pos inner
  | false ↦ fail_rule nt rule start_pos inner.state
]

abbrev finish : NonTerminal → ℕ → ℕ → ℕ → Grown → Parser ParseResult
finish nt rule start_pos frames inner =
    leave_frame frames start_pos >> finish_or_fail nt rule start_pos inner inner.best.success

-- A rule that fails has no node, recovered or not.
recover_or-tree :
    (nt : NonTerminal) (rule start_pos : ℕ) (state : RuleState) (spec : Option (ℕ → Bool))
    (committed : Bool) (c d : Context) (r : ParseResult)
    → recover_or spec committed (λ f. recover nt f rule start_pos) (give_up rule start_pos state) c
      ≡ ok r d
    → r.tree ≡ none
unfolding recover
recover_or-tree nt rule start_pos state (some f) false c d r e =
    elim (Bool-cases (leb (resume_at f start_pos c) (input_size c))) [
      | inl q ↦ let returned = rw q at e in cc
      | inr q ↦ let stopped = rw q at e in absurd (cc)
    ]
recover_or-tree nt rule start_pos state (some f) true c d r e = cc
recover_or-tree nt rule start_pos state none committed c d r e = cc

fail_rule-tree :
    (nt : NonTerminal) (rule start_pos : ℕ) (state : RuleState) (c d : Context) (r : ParseResult)
    → fail_rule nt rule start_pos state c ≡ ok r d
    → r.tree ≡ none
unfolding fail_rule
fail_rule-tree nt rule start_pos state c d r e =
    recover_or-tree nt rule start_pos state nt.m_recover.is_sync_token _ _ d r e

first_parse-Spans :
    (nt : NonTerminal) (p : Parser ParseResult) (rule start_pos : ℕ) (c d : Context)
    (r : ParseResult) (k : ℕ) (n : ParseTreeNode)
    → first_parse nt p rule start_pos c ≡ ok r d
    → r.tree ≡ some k
    → get_elem? d.m_node_arena k ≡ some n
    → Spans nt rule start_pos n d
unfolding first_parse
first_parse-Spans nt p rule start_pos c d r k n e tree at =
    elim (parse_impl p rule start_pos (
          lr_push (record { rule = rule; pos = start_pos; last_pos = start_pos; is_head = false })
            c))
        as (λ o.
          after o (finish nt rule start_pos (suc (length c.m_lr_stack))) ≡ ok r d
          → Spans nt rule start_pos n d) [
            | ok inner z ↦
                λ q. left inner z (Bool-cases (length z.m_lr_stack == suc (length c.m_lr_stack))) q
            | throw x z ↦ λ q. absurd (cc)
            | fault ↦ λ q. absurd (cc)
            | diverged ↦ λ q. absurd (cc)
            | too_deep ↦ λ q. absurd (cc)
          ]
      e
  where
    ended :
        (inner : Grown) (z : Context) (b : Bool)
        → finish_or_fail nt rule start_pos inner b z ≡ ok r d
        → Spans nt rule start_pos n d
    ended inner z true q =
        finish_rule-Spans nt rule start_pos inner.state d r k n tree at inner.best z q
    ended inner z false q =
        let no : r.tree ≡ none = fail_rule-tree nt rule start_pos inner.state z d r q in absurd (cc)

    left :
        (inner : Grown) (z : Context)
        (o : ((length z.m_lr_stack == suc (length c.m_lr_stack)) ≡ true)
          ⊎ ((length z.m_lr_stack == suc (length c.m_lr_stack)) ≡ false))
        → finish nt rule start_pos (suc (length c.m_lr_stack)) inner z ≡ ok r d
        → Spans nt rule start_pos n d
    left inner z (inl own) q = ended inner _ inner.best.success (rw own at q)
    left inner z (inr other) q = let stopped = rw other at q in absurd (cc)

-- If a rule is parsed at a position where it has no memo entry, whatever its body's parse does,
-- and the result points to a node of the arena, then that node bears the rule's name, starts at
-- the position and ends where the parse ended, and the rule is its producer or has no typed
-- action.
pub nonterminal_parse-Spans :
    (g : Grammar) (p : Expr → Parser ParseResult) (rule : ℕ) (nt : NonTerminal) (c d : Context)
    (r : ParseResult) (k : ℕ) (n : ParseTreeNode)
    → get_elem? g.non_terminals rule ≡ some nt
    → c.m_mem c.m_position rule ≡ none
    → nonterminal_parse g p rule c ≡ ok r d
    → r.tree ≡ some k
    → get_elem? d.m_node_arena k ≡ some n
    → Spans nt rule c.m_position n d
unfolding nonterminal_parse rule_state
nonterminal_parse-Spans g p rule nt c d r k n found new e tree at =
    first_parse-Spans nt (parse_body p nt.m_rule) rule c.m_position _ d r k n (rw (found, new) at e)
      tree at
