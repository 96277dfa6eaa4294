-- ===== src/Termination.antt =====
-- Grammars without cuts: the measure by which their parses end, and what a context keeps meanwhile.
pub mod Room
pub mod Calm
pub mod Terminals
pub mod Combinators
pub mod Grow
pub mod Rules
pub mod Run
pub mod Recovery
use Prim.Native.Nat.{max}
use peglib.Prelude.{
  ℕ, zero, suc, ◌+◌, ◌*◌, ◌≤◌, ◌≡◌, Bool, true, false, List, [], ◌∷◌, ◌++◌, some, All,
  if◌then◌else◌, length, get_elem?,
}
use peglib.Context.{Context, LrFrame, is_some, input_size, in_progress}
use peglib.Expr.{
  Expr, Exprs, nil, cons, terminal, terminal_seq, token, matcher, empty, sequence, alternation,
  zero_or_more, one_or_more, n_times, optional, not_expr, and_expr, cut_expr, lexeme, rule,
  NonTerminal, Grammar,
}
use peglib.Engine.{Outcome, ok, throw, fault, diverged, too_deep}
use peglib.Invariant.{IsValid}

-- No cut stands in the expression.
abbrev mutual
  pub IsCutFree : Expr → Type 0
  IsCutFree (sequence es) = AreCutFree es
  IsCutFree (alternation es) = AreCutFree es
  IsCutFree (zero_or_more e) = IsCutFree e
  IsCutFree (one_or_more e) = IsCutFree e
  IsCutFree (n_times e n) = IsCutFree e
  IsCutFree (optional e) = IsCutFree e
  IsCutFree (not_expr e) = IsCutFree e
  IsCutFree (and_expr e) = IsCutFree e
  IsCutFree (lexeme e) = IsCutFree e
  IsCutFree cut_expr = ⊥
  IsCutFree _ = Unit

  pub AreCutFree : Exprs → Type 0
  AreCutFree nil = Unit
  AreCutFree (cons e es) = IsCutFree e × AreCutFree es

-- How deep the expression nests, a rule counted as a leaf.
unfoldable mutual
  pub height : Expr → ℕ
  height (sequence es) = suc (heights es)
  height (alternation es) = suc (heights es)
  height (zero_or_more e) = suc (height e)
  height (one_or_more e) = suc (height e)
  height (n_times e n) = suc (height e)
  height (optional e) = suc (height e)
  height (not_expr e) = suc (height e)
  height (and_expr e) = suc (height e)
  height (lexeme e) = suc (height e)
  height _ = 0

  pub heights : Exprs → ℕ
  heights nil = 0
  heights (cons e es) = max (height e) (heights es)

-- Every assigned body is free of cuts and nests at most so deep.
pub record IsCutFreeUpTo (tallest : ℕ) (g : Grammar) : Type 0 where
  pub bodies :
      (id : ℕ) (nt : NonTerminal) (e : Expr)
      → get_elem? g.non_terminals id ≡ some nt
      → nt.m_rule ≡ some e
      → IsCutFree e × (height e ≤ tallest)

-- The rule has no frame at the position: it may be entered there.
unfoldable pub free : List (ℕ × ℕ) → List LrFrame → ℕ
free [] frames = 0
free ((id, pos) ∷ places) frames =
    if in_progress frames id pos then free places frames else suc (free places frames)

-- The rules below `n` at one position, and at all positions up to one.
unfoldable pub places_at : ℕ → ℕ → List (ℕ × ℕ)
places_at zero pos = []
places_at (suc n) pos = (n, pos) ∷ places_at n pos

unfoldable pub places : ℕ → ℕ → List (ℕ × ℕ)
places n zero = places_at n zero
places n (suc pos) = places_at n (suc pos) ++ places n pos

abbrev pub room : Grammar → Context → ℕ
room g c = free (places (length g.non_terminals) (input_size c)) c.m_lr_stack

-- Every running rule has its memo entry, so that its re-entry is a hit, and no scope is committed.
pub record IsCalm (c : Context) : Type 0 where
  pub framed : All (λ f. is_some (c.m_mem f.pos f.rule) ≡ true) c.m_lr_stack
  pub uncut : All (λ r. r.cut ≡ false) c.m_cut

pub record IsReady (g : Grammar) (left : ℕ) (c : Context) : Type 0 where
  pub valid : IsValid g c
  pub calm : IsCalm c
  pub room_left : room g c ≡ left

-- The call is not cut off by the depth and throws nothing.
abbrev pub Ends : {A : Type 0} → Outcome A → Type 0
Ends (ok a d) = IsCalm d
Ends (throw e d) = ⊥
Ends fault = Unit
Ends diverged = Unit
Ends too_deep = ⊥
