-- ===== src/Semantics/Choices.antt =====
-- Alternations, predicates and lexemes of include/peglib/Combinators.h answer as the semantics says,
-- over operands that do.
use peglib.Prelude.{
  ℕ, suc, ◌≤◌, ◌<◌, ◌≡◌, refl, Bool, true, false, List, none, some, inl, inr, Bool-cases,
  &&-eq_true, arith,
}
use peglib.Context.{Context, ParseResult, LrFrame, get_cut, init_cut, set_skip_enabled}
use peglib.Expr.{Expr, Exprs, nil, cons, alternation, not_expr, and_expr, lexeme, Grammar}
use peglib.Engine.{Parser}
use peglib.Engine.Combinators.{parse_alt, alternation_parse, predicate_parse_impl, lexeme_parse}
use peglib.Semantics.{
  Matches, MatchesAlt, one_of, forbids, requires, unskipped, no_more, first, other,
}
use peglib.Semantics.Plan.{Plan, all_consuming, IsUnder, AreUnder, IsClear}
use peglib.Semantics.Scopes.{stamp_winner-State, scope-Tells}
use peglib.Semantics.State.{
  switched, Answer, Returns-map, State, Tells, Returns-bind, Returns-cleaned, ExprsTell,
}

abbrev AltAnswer : Grammar → Plan → List ℕ → Bool → Exprs → ℕ → Bool → ℕ → Type 0
AltAnswer g w t b es i true j =
    MatchesAlt g t b es i (some j) × (i ≤ j) × (all_consuming w es ≡ true → i < j)
AltAnswer g w t b es i false j = MatchesAlt g t b es i none × (j ≡ i)

alt_other :
    (g : Grammar) (w : Plan) (t : List ℕ) (b : Bool) (e : Expr) (es : Exprs) (i i' j : ℕ) (s : Bool)
    → i' ≡ i
    → Matches g t b e i none
    → AltAnswer g w t b es i' s j
    → AltAnswer g w t b (cons e es) i s j
alt_other g w t b e es i i' j true back m ans =
    let (rest, le, lt) = (rw back at ans) in (other m rest, le, λ a. lt (&&-eq_true _ _ a).1)
alt_other g w t b e es i i' j false back m ans =
    let (rest, same) = (rw back at ans) in (other m rest, same)

module _ (g : Grammar) (w : Plan) (t : List ℕ) (p : Expr → Parser ParseResult)
    (tells : ExprsTell g w t p) where
  parse_alt-Tells :
      (es : Exprs) (index k : ℕ) (b : Bool) (fs : List LrFrame) (c : Context)
      → AreUnder g w b k es
      → IsClear w k fs c.m_position
      → State g w t b fs c
      → Tells g w t b fs
          (λ r j. AltAnswer g w t b es c.m_position r.success j)
          (parse_alt p index es c)
  unfolding parse_alt
  parse_alt-Tells nil index k b fs c under clear h = (h, (no_more, refl))
  parse_alt-Tells (cons e es) index k b fs c (under, unders) clear h =
      Returns-bind _ _ (p e c) _ (tells e b k fs c under clear h) λ r d (kept, ans).
        elim (Bool-cases r.success) [
          | inl q ↦
              let (m, le, lt) = (rw q at ans) in
              let (done, same) = stamp_winner-State g w t b fs index r.tree d kept in
              rw q (done, rw (q, same) (first m, le, λ a. lt (&&-eq_true _ _ a).0))
          | inr q ↦
              let (m, back) = (rw q at ans) in
              elim (Bool-cases (get_cut d)) [
                | inl cut ↦ rw (q, cut) tt
                | inr free ↦
                    rw (q, free)
                      (Returns-map _ _ (parse_alt p (suc index) es d)
                        (parse_alt-Tells es (suc index) k b fs d unders (rw back clear) kept)
                        λ a z (kept', rest).
                          (kept', alt_other g w t b e es _ _ _ a.success back m rest))
              ]
        ]

  pub alternation_parse-Tells :
      (es : Exprs) (k : ℕ) (b : Bool) (fs : List LrFrame) (c : Context)
      → AreUnder g w b k es
      → IsClear w k fs c.m_position
      → State g w t b fs c
      → Tells g w t b fs
          (λ r j. Answer g w t b (alternation es) c.m_position r.success j)
          (alternation_parse p es c)
  unfolding alternation_parse
  alternation_parse-Tells es k b fs c under clear h = scope-Tells g w t b fs _ _ (
      Returns-map _ _ (parse_alt p 0 es (init_cut c))
        (parse_alt-Tells es 0 k b fs (init_cut c) under clear h)
        λ r d (kept, ans). (kept, as_answer r.success _ ans))
    where
      as_answer :
          (s : Bool) (j : ℕ)
          → AltAnswer g w t b es c.m_position s j
          → Answer g w t b (alternation es) c.m_position s j
      as_answer true j (m, le, lt) = (one_of m, le, lt)
      as_answer false j (m, same) = (one_of m, same)

  pub not-Tells :
      (e : Expr) (k : ℕ) (b : Bool) (fs : List LrFrame) (c : Context)
      → IsUnder g w b k e
      → IsClear w k fs c.m_position
      → State g w t b fs c
      → Tells g w t b fs
          (λ r j. Answer g w t b (not_expr e) c.m_position r.success j)
          (predicate_parse_impl (p e) true c)
  unfolding predicate_parse_impl
  not-Tells e k b fs c under clear h =
      Returns-bind _ _ (p e c) _ (tells e b k fs c under clear h) λ r d (h', ans).
        elim (Bool-cases r.success) [
          | inl q ↦ let (m, le, lt) = (rw q at ans) in rw q (h', (forbids m refl, refl))
          | inr q ↦
              let (m, same) = (rw q at ans) in rw q (h', (forbids m refl, omega arith, λ a. cc))
        ]

  pub and-Tells :
      (e : Expr) (k : ℕ) (b : Bool) (fs : List LrFrame) (c : Context)
      → IsUnder g w b k e
      → IsClear w k fs c.m_position
      → State g w t b fs c
      → Tells g w t b fs
          (λ r j. Answer g w t b (and_expr e) c.m_position r.success j)
          (predicate_parse_impl (p e) false c)
  unfolding predicate_parse_impl
  and-Tells e k b fs c under clear h =
      Returns-bind _ _ (p e c) _ (tells e b k fs c under clear h) λ r d (h', ans).
        elim (Bool-cases r.success) [
          | inl q ↦
              let (m, le, lt) = (rw q at ans) in rw q (h', (requires m refl, omega arith, λ a. cc))
          | inr q ↦ let (m, same) = (rw q at ans) in rw q (h', (requires m refl, refl))
        ]

  pub lexeme_parse-Tells :
      (e : Expr) (k : ℕ) (b : Bool) (fs : List LrFrame) (c : Context)
      → IsUnder g w false k e
      → IsClear w k fs c.m_position
      → State g w t b fs c
      → Tells g w t b fs
          (λ r j. Answer g w t b (lexeme e) c.m_position r.success j)
          (lexeme_parse (p e) c)
  unfolding lexeme_parse
  lexeme_parse-Tells e k b fs c under clear h =
      Returns-cleaned _ _ (set_skip_enabled c.m_skip_enabled) (p e (set_skip_enabled false c))
        (tells e false k fs (set_skip_enabled false c) under clear (switched g w t b fs false c h))
        λ r d (h', ans).
          (rw (h.enabled_is) (switched g w t false fs b d h'), as_answer r.success _ ans)
    where
      as_answer :
          (s : Bool) (j : ℕ)
          → Answer g w t false e c.m_position s j
          → Answer g w t b (lexeme e) c.m_position s j
      as_answer true j (m, le, lt) = (unskipped m, le, lt)
      as_answer false j (m, same) = (unskipped m, same)
