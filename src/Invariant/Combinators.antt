-- ===== src/Invariant/Combinators.antt =====
-- The invariant over sequences, alternations and predicates (include/peglib/Combinators.h).
use peglib.Prelude.{
  ℕ, zero, suc, ◌≤◌, ◌≡◌, refl, ◌∙◌, Bool, true, false, Option, none, some, arith, inl, inr,
  Bool-cases,
}
use peglib.Context.{Context, ParseResult, failed, set_state, make_node, get_cut, init_cut}
use peglib.Expr.{Expr, Exprs, nil, cons, Grammar}
use peglib.Engine.{Parser, ◌>>◌, pure, modify}
use peglib.Engine.Combinators.{
  skip_between, push_child, start_at, end_at, parse_seq, sequence_parse, stamp_winner, parse_alt,
  alternation_parse, predicate_parse_impl, cut_parse, throw_cut,
}
use peglib.Invariant.{AreSound, IsValid, Keeps, Safe, Moves}
use peglib.Invariant.Relations.{Keeps-refl, Keeps-trans, Unwinds-of_Keeps}
use peglib.Invariant.Operations.{
  Goes, position-Goes, make_node-Goes, update_node-Goes, set_cut-Goes,
}
use peglib.Invariant.Scope.{init_cut-IsValid}
use peglib.Invariant.Safe.{Safe-via, Safe-map, Safe-bind, Safe-scope}
use peglib.Invariant.Skipper.{ExprSafe, SkipSafe}

pub throw_cut-Safe :
    {A : Type 0} (g : Grammar) (c : Context) (R : A → Context → Type 0)
    → Safe g c R (throw_cut {A = A} c)
throw_cut-Safe g c R = (Unwinds-of_Keeps (Keeps-refl c), (refl, refl))

module _ (g : Grammar) (c : Context) (v : IsValid g c) where
  pub push_child-Goes : (node : ℕ) (t : Option ℕ) → Goes g c (push_child node t c)
  push_child-Goes node none = (v, Keeps-refl c)
  push_child-Goes node (some t) = update_node-Goes v node _

  stamp_winner-Goes : (index : ℕ) (t : Option ℕ) → Goes g c (stamp_winner index t c)
  stamp_winner-Goes index none = (v, Keeps-refl c)
  stamp_winner-Goes index (some t) = update_node-Goes v t _

pub push_child-position :
    (node : ℕ) (t : Option ℕ) (c : Context) → (push_child node t c).m_position ≡ c.m_position
push_child-position node none c = refl
push_child-position node (some t) c = refl

stamp_winner-position :
    (index : ℕ) (t : Option ℕ) (c : Context) → (stamp_winner index t c).m_position ≡ c.m_position
stamp_winner-position index none c = refl
stamp_winner-position index (some t) c = refl

-- `Forward start` of a call: it ends at or after `start`.
abbrev pub Forward : {A : Type 0} → ℕ → A → Context → Type 0
Forward start a d = start ≤ d.m_position

module _ (g : Grammar) (skip : Parser (Unit {0})) (skips : SkipSafe g skip) where
  pub skip_between-SkipSafe : (i : ℕ) → SkipSafe g (skip_between i skip)
  skip_between-SkipSafe zero c v = (v, Keeps-refl c, omega arith)
  skip_between-SkipSafe (suc i) c v = skips c v

module _ (g : Grammar) (p : Expr → Parser ParseResult) (safe : ExprSafe g p) where
  parse_alt-Safe :
      (es : Exprs) (index : ℕ)
      → AreSound g es
      → (c : Context) → IsValid g c
      → Safe g c (Moves c.m_position) (parse_alt p index es c)
  unfolding parse_alt
  parse_alt-Safe nil index s c v = (v, Keeps-refl c, (omega arith, λ _. refl))
  parse_alt-Safe (cons e es) index (se, ses) c v =
      Safe-bind g c (Moves c.m_position) (Moves c.m_position) (p e c) _ (safe e se c v) λ r d w k m.
        elim (Bool-cases r.success) [
          | inl h ↦ rw h (
              let n = stamp_winner-Goes g d w index r.tree in
              (n.0, n.1, (omega (arith, m.0, stamp_winner-position index r.tree d), λ e. cc)))
          | inr h ↦ rw h (elim (Bool-cases (get_cut d)) [
            | inl q ↦ rw q (throw_cut-Safe g d (Moves c.m_position))
            | inr q ↦ rw q (
                Safe-map g d (Moves d.m_position) (Moves c.m_position) _
                  (λ _ z n. (omega (arith, n.0, m.0), λ e. n.1 e ∙ m.1 h))
                  (parse_alt-Safe es (suc index) ses d w))
          ])
        ]

  pub alternation_parse-Safe :
      (es : Exprs)
      → AreSound g es
      → (c : Context) → IsValid g c
      → Safe g c (Moves c.m_position) (alternation_parse p es c)
  unfolding alternation_parse
  alternation_parse-Safe es s c v =
      Safe-scope g c (λ r end. (c.m_position ≤ end) × (r.success ≡ false → end ≡ c.m_position))
        (parse_alt p 0 es (init_cut c)) (parse_alt-Safe es 0 s (init_cut c) (init_cut-IsValid v))

  module _ (skip : Parser (Unit {0})) (skips : SkipSafe g skip) where
    parse_seq-Safe :
        (es : Exprs) (index node : ℕ)
        → AreSound g es
        → (c : Context) → IsValid g c
        → Safe g c (Forward c.m_position) (parse_seq p skip index es node c)
    unfolding parse_seq
    parse_seq-Safe nil index node s c v = (v, Keeps-refl c, omega arith)
    parse_seq-Safe (cons e es) index node (se, ses) c v =
        Safe-bind g c (Forward c.m_position) (Forward c.m_position) (skip_between index skip c) _
          (skip_between-SkipSafe g skip skips index c v)
          λ _ d w k f.
            Safe-bind g d (Moves d.m_position) (Forward c.m_position) (p e d) _ (safe e se d w)
              λ r d' w' k' m. elim (Bool-cases r.success) [
                | inl h ↦ rw h (
                    let d'' = push_child node r.tree d' in
                    let n = push_child-Goes g d' w' node r.tree in
                    Safe-via g d' d'' (Forward c.m_position) _ n.1 (
                      Safe-map g d'' (Forward d''.m_position) (Forward c.m_position) _
                        (λ _ z fw. omega (arith, fw, f, m.0, push_child-position node r.tree d'))
                        (parse_seq-Safe es (suc index) node ses d'' n.0)))
                | inr h ↦ rw h (w', Keeps-refl d', omega (arith, f, m.0))
              ]

    pub sequence_parse-Safe :
        (es : Exprs)
        → AreSound g es
        → (c : Context) → IsValid g c
        → Safe g c (Moves c.m_position) (sequence_parse p skip es c)
    unfolding sequence_parse
    sequence_parse-Safe es s c v =
        let made = make_node-Goes v in
        let started = update_node-Goes made.0 _ _ in
        let d = start_at (make_node c).1 (make_node c).0 in
        Safe-via g c d (Moves c.m_position) _ (Keeps-trans made.1 started.1) (
          Safe-bind g d (Forward c.m_position) (Moves c.m_position)
            (parse_seq p skip 0 es (make_node c).1 d) _
            (parse_seq-Safe es 0 (make_node c).1 s d started.0)
            λ b d' w k f. matched_end b d' w k f)
      where
        matched_end :
            (b : Bool) (d' : Context)
            → IsValid g d'
            → Keeps (start_at (make_node c).1 (make_node c).0) d'
            → c.m_position ≤ d'.m_position
            → Safe g d' (Moves c.m_position) (
                (elim b as (λ _. Parser ParseResult) [
                  | true ↦
                      modify (end_at (make_node c).1)
                      >> pure (record { success = true; tree = some (make_node c).1 })
                  | false ↦ modify (set_state c.m_position) >> pure failed
                ])
                  d')
        matched_end true d' w k f =
            let n = update_node-Goes w (make_node c).1 _ in (n.0, n.1, (f, λ e. cc))
        matched_end false d' w k f =
            let n = position-Goes w c.m_position (rw (← k.input) v.position) in
            (n.0, n.1, (omega arith, λ _. refl))

module _ (g : Grammar) (p : Parser ParseResult)
    (safe : (c : Context) → IsValid g c → Safe g c (Moves c.m_position) (p c)) where
  pub predicate_parse_impl-Safe :
      (negate : Bool) (c : Context)
      → IsValid g c
      → Safe g c (Moves c.m_position) (predicate_parse_impl p negate c)
  unfolding predicate_parse_impl
  predicate_parse_impl-Safe negate c v =
      Safe-bind g c (Moves c.m_position) (Moves c.m_position) (p c) _ (safe c v) λ r d w k m.
        let n = position-Goes w c.m_position (rw (← k.input) v.position) in
        (n.0, n.1, (omega arith, λ _. refl))

pub cut_parse-Safe :
    (g : Grammar) (c : Context) → IsValid g c → Safe g c (Moves c.m_position) (cut_parse c)
unfolding cut_parse
cut_parse-Safe g c v = let n = set_cut-Goes v true in (n.0, n.1, (omega arith, λ e. cc))
