-- ===== src/Semantics/Plan.antt =====
-- Grammars without left recursion, as a certificate that is checked expression by expression.
use peglib.Prelude.{
  ℕ, ◌^◌, ◌≤◌, ◌<◌, ◌≡◌, Bool, true, false, List, [], ◌∷◌, Option, none, some, All, ◌&&◌, ◌||◌,
  if◌then◌else◌, get_elem?,
}
use peglib.Context.{Context, Span, LrFrame, from_range}
use peglib.Expr.{
  Expr, Exprs, nil, cons, terminal, terminal_seq, token, matcher, sequence, alternation,
  zero_or_more, one_or_more, n_times, optional, not_expr, and_expr, lexeme, rule, NonTerminal,
  Grammar,
}
use peglib.Invariant.{StaysInside}

-- Each rule has a rank; `consumes` names rules that never match without consuming, and `skips` the
-- rules that are parsed with skipping on. Every rank is below `top`.
pub record Plan : Type 0 where
  pub rank : ℕ → ℕ
  pub consumes : ℕ → Bool
  pub skips : ℕ → Bool
  pub top : ℕ

-- The expression never matches without consuming.
abbrev mutual
  pub is_consuming : Plan → Expr → Bool
  is_consuming w (terminal v) = true
  is_consuming w (terminal_seq []) = false
  is_consuming w (terminal_seq (v ∷ vs)) = true
  is_consuming w (token v) = true
  is_consuming w (sequence es) = any_consuming w es
  is_consuming w (alternation es) = all_consuming w es
  is_consuming w (one_or_more e) = is_consuming w e
  is_consuming w (n_times e n) = is_consuming w e
  is_consuming w (lexeme e) = is_consuming w e
  is_consuming w (rule id name) = w.consumes id
  is_consuming w _ = false

  pub any_consuming : Plan → Exprs → Bool
  any_consuming w nil = false
  any_consuming w (cons e es) = is_consuming w e || any_consuming w es

  pub all_consuming : Plan → Exprs → Bool
  all_consuming w nil = true
  all_consuming w (cons e es) = is_consuming w e && all_consuming w es

-- A matcher reads nothing of the context but its input.
abbrev pub ReadsInput : (Context → Span → Option Span) → Type 0
ReadsInput fn = (c : Context) (s : Span) → fn c s ≡ fn (from_range c.m_input) s

abbrev pub SkipperBelow : Grammar → Plan → Bool → ℕ → Type 0
SkipperBelow g w false k = Unit
SkipperBelow g w true k = (s : ℕ) → g.m_skipper ≡ some s → w.rank s < k

-- Each rule that the expression may call before it has consumed anything has a rank below `k`, the
-- skipper too, and each rule is called with skipping on or off as the plan has it. A counted
-- repetition has a count, and one that fits a signed word.
abbrev mutual
  pub IsUnder : Grammar → Plan → Bool → ℕ → Expr → Type 0
  IsUnder g w b k (matcher fn) = StaysInside fn × ReadsInput fn
  IsUnder g w b k (sequence es) = AreInOrder g w false b k es
  IsUnder g w b k (alternation es) = AreUnder g w b k es
  IsUnder g w b k (zero_or_more e) = IsUnder g w b k e
  IsUnder g w b k (one_or_more e) = IsUnder g w b k e
  IsUnder g w b k (n_times e n) = (0 < n) × (n < 2 ^ 63) × IsUnder g w b k e
  IsUnder g w b k (optional e) = IsUnder g w b k e
  IsUnder g w b k (not_expr e) = IsUnder g w b k e
  IsUnder g w b k (and_expr e) = IsUnder g w b k e
  IsUnder g w b k (lexeme e) = IsUnder g w false k e
  IsUnder g w b k (rule id name) = (w.rank id < k) × (w.skips id ≡ b)
  IsUnder g w b k _ = Unit

  pub AreUnder : Grammar → Plan → Bool → ℕ → Exprs → Type 0
  AreUnder g w b k nil = Unit
  AreUnder g w b k (cons e es) = IsUnder g w b k e × AreUnder g w b k es

  pub AreInOrder : Grammar → Plan → Bool → Bool → ℕ → Exprs → Type 0
  AreInOrder g w begun b k nil = Unit
  AreInOrder g w begun b k (cons e es) =
      SkipperBelow g w (begun && b) k
      × IsUnder g w b k e
      × AreInOrder g w true b (if is_consuming w e then w.top else k) es

-- The bodies follow the plan: no rule reaches itself without consuming. No rule has recovery, and
-- the skipper is a rule that is parsed with skipping off.
pub record IsOrdered (g : Grammar) (w : Plan) : Type 0 where
  pub bodies :
      (id : ℕ) (nt : NonTerminal) (e : Expr)
      → get_elem? g.non_terminals id ≡ some nt
      → nt.m_rule ≡ some e
      → IsUnder g w (w.skips id) (w.rank id) e × (w.consumes id ≡ true → is_consuming w e ≡ true)
  pub plain :
      (id : ℕ) (nt : NonTerminal)
      → get_elem? g.non_terminals id ≡ some nt
      → nt.m_recover.is_sync_token ≡ none
  pub skipper : (s : ℕ) → g.m_skipper ≡ some s → w.skips s ≡ false

-- The rules that run at the position have at least the rank `k`, and none runs ahead of it.
abbrev pub IsClear : Plan → ℕ → List LrFrame → ℕ → Type 0
IsClear w k fs i = All (λ f. (f.pos ≤ i) × (f.pos ≡ i → k ≤ w.rank f.rule)) fs
