-- ===== src/Semantics/Sequences.antt =====
-- Sequences of include/peglib/Combinators.h answer as the semantics says, over operands that do.
use peglib.Prelude.{
  ℕ, suc, ◌≤◌, ◌<◌, ◌≡◌, refl, Bool, true, false, List, none, some, inl, inr, Bool-cases,
  ||-eq_true, ◌&&◌, if◌then◌else◌, arith,
}
use peglib.Context.{Context, ParseResult, LrFrame, make_node}
use peglib.Expr.{Expr, Exprs, nil, cons, sequence, Grammar}
use peglib.Engine.{Parser}
use peglib.Engine.Combinators.{
  run_skipper, skip_between, push_child, start_at, parse_seq, sequence_parse,
}
use peglib.Semantics.{Matches, MatchesSeq, all_of, end, stop, next, begun, Skips}
use peglib.Semantics.Plan.{Plan, is_consuming, any_consuming, AreInOrder, IsClear}
use peglib.Semantics.Scopes.{push_child-State}
use peglib.Semantics.State.{Answer, Returns-map, State, Tells, Returns-bind, ExprsTell, RulesTell}
use peglib.Semantics.Clear.{IsClear-forward, IsClear-after, MaySkip-of_below, skip_between-Tells}

abbrev SeqAnswer : Grammar → Plan → List ℕ → Bool → Bool → Exprs → ℕ → Bool → ℕ → Type 0
SeqAnswer g w t later b es i true j =
    MatchesSeq g t later b es i (some j) × (i ≤ j) × (any_consuming w es ≡ true → i < j)
SeqAnswer g w t later b es i false j = MatchesSeq g t later b es i none

seq_next :
    (g : Grammar) (w : Plan) (t : List ℕ) (later b : Bool) (e : Expr) (es : Exprs) (i m n n' j : ℕ)
    (s : Bool)
    → n' ≡ n
    → Skips g t (later && b) i m
    → i ≤ m
    → Matches g t b e m (some n)
    → m ≤ n
    → (is_consuming w e ≡ true → m < n)
    → SeqAnswer g w t true b es n' s j
    → SeqAnswer g w t later b (cons e es) i s j
seq_next g w t later b e es i m n n' j true same skips ahead matches le lt ans =
    let (rest, le', lt') = (rw same at ans) in
    (
      next skips matches rest,
      omega arith,
      λ a. elim (||-eq_true (is_consuming w e) _ a) [
        | inl q ↦ omega (arith, lt q)
        | inr q ↦ omega (arith, lt' q)
      ],
    )
seq_next g w t later b e es i m n n' j false same skips ahead matches le lt ans =
    next skips matches (rw same at ans)

module _ (g : Grammar) (w : Plan) (t : List ℕ) (p : Expr → Parser ParseResult)
    (tells : ExprsTell g w t p) where
  module _ (unskip : (s : ℕ) → g.m_skipper ≡ some s → w.skips s ≡ false)
      (r : ℕ → Parser ParseResult) (rules : RulesTell g w t r) where
    parse_seq-Tells :
        (es : Exprs) (index node k : ℕ) (b : Bool) (fs : List LrFrame) (c : Context)
        → AreInOrder g w (begun index) b k es
        → IsClear w k fs c.m_position
        → State g w t b fs c
        → Tells g w t b fs
            (λ m j. SeqAnswer g w t (begun index) b es c.m_position m j)
            (parse_seq p (run_skipper r) index es node c)
    unfolding parse_seq
    parse_seq-Tells nil index node k b fs c under clear h = (h, (end, omega arith, λ a. cc))
    parse_seq-Tells (cons e es) index node k b fs c (below, under, unders) clear h =
        Returns-bind _ _ (skip_between index (run_skipper r) c) _
          (skip_between-Tells g w t unskip r rules fs index b c
            (MaySkip-of_below g w (begun index && b) k fs c.m_position below clear) h)
          λ _ d (h', (skips, ahead)).
            let clear' = IsClear-forward w k fs c.m_position d.m_position ahead clear in
            Returns-bind _ _ (p e d) _ (tells e b k fs d under clear' h') λ result z (h'', ans).
              elim (Bool-cases result.success) [
                | inr q ↦ let (m, same) = (rw q at ans) in rw q (h'', stop skips m)
                | inl q ↦
                    let (m, le, lt) = (rw q at ans) in
                    let (h3, same) = push_child-State g w t b fs node result.tree z h'' in
                    let clear3 =
                      IsClear-after w (is_consuming w e) k w.top fs d.m_position z.m_position le lt
                        clear' in
                    rw q (
                      Returns-map _ _
                        (parse_seq p (run_skipper r) (suc index) es node
                          (push_child node result.tree z))
                        (parse_seq-Tells es (suc index) node (if is_consuming w e then w.top else k)
                          b fs (push_child node result.tree z) unders (rw same clear3) h3)
                        λ m' y (h4, rest). (
                          h4,
                          seq_next g w t (begun index) b e es _ _ _ _ _ m' same skips ahead m le lt
                              rest,
                        ))
              ]

    pub sequence_parse-Tells :
        (es : Exprs) (k : ℕ) (b : Bool) (fs : List LrFrame) (c : Context)
        → AreInOrder g w false b k es
        → IsClear w k fs c.m_position
        → State g w t b fs c
        → Tells g w t b fs
            (λ result j. Answer g w t b (sequence es) c.m_position result.success j)
            (sequence_parse p (run_skipper r) es c)
    unfolding sequence_parse
    sequence_parse-Tells es k b fs c under clear h =
        let d = start_at (make_node c).1 (make_node c).0 in
        Returns-bind _ _ (parse_seq p (run_skipper r) 0 es (make_node c).1 d) _
          (parse_seq-Tells es 0 (make_node c).1 k b fs d under clear h)
          λ matched z (h', ans). elim (Bool-cases matched) [
            | inl q ↦ let (m, le, lt) = (rw q at ans) in rw q (h', (all_of m, le, lt))
            | inr q ↦ let m = (rw q at ans) in rw q (h', (all_of m, refl))
          ]
