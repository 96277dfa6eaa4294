-- ===== src/Invariant/Memo.antt =====
-- The memo table's entries under its operations.
use peglib.Prelude.{ℕ, ◌≡◌, some, ◌==◌, ◌&&◌, arith, Bool-cases, inl, inr}
use peglib.Context.{
  Context, RuleState, MemoTable, input_size, put_entry, forget_before, update_rule_state, is_some,
  clear_siblings_at, memo_get,
}
use peglib.Expr.{Grammar}
use peglib.Invariant.{IsEntry, IsMemo, IsValid}
use peglib.Invariant.Relations.{Keeps-refl}
use peglib.Invariant.Operations.{Goes, memo-Goes}

pub put_entry-IsMemo :
    (size pos rule : ℕ) (s : RuleState) (mem : MemoTable)
    → IsMemo size mem
    → IsEntry size pos s
    → IsMemo size (put_entry pos rule s mem)
put_entry-IsMemo size pos rule s mem m h p r t e = elim (Bool-cases ((p == pos) && (r == rule))) [
  | inl q ↦
      let at_pos : p ≡ pos = ground arith in
      let same : s ≡ t = ground arith in rw (at_pos, ← same) h
  | inr q ↦ m p r t (rw q at e)
]

-- A table with fewer entries.
IsMemo-fewer :
    (size : ℕ) (mem mem' : MemoTable)
    → ((p r : ℕ) (t : RuleState) → mem' p r ≡ some t → mem p r ≡ some t)
    → IsMemo size mem
    → IsMemo size mem'
IsMemo-fewer size mem mem' h m p r t e = m p r t (h p r t e)

pub forget_before-IsMemo :
    (size last_cut : ℕ) (mem : MemoTable)
    → IsMemo size mem
    → IsMemo size (forget_before last_cut mem)
forget_before-IsMemo size last_cut mem =
    IsMemo-fewer size mem (forget_before last_cut mem) λ p r t e. ground arith

module _ {g : Grammar} {c : Context} (v : IsValid g c) where
  pub update_rule_state-Goes :
      (rule pos : ℕ) (s : RuleState)
      → IsEntry (input_size c) pos s
      → Goes g c (update_rule_state rule pos s c).0
  unfolding update_rule_state
  update_rule_state-Goes rule pos s h = elim (Bool-cases (is_some (c.m_mem pos rule))) [
    | inl p ↦ rw p (memo-Goes v _ (put_entry-IsMemo _ pos rule s c.m_mem v.memo h))
    | inr p ↦ rw p (v, Keeps-refl c)
  ]

  pub clear_siblings_at-Goes : (pos keep : ℕ) → Goes g c (clear_siblings_at pos keep c)
  unfolding clear_siblings_at
  clear_siblings_at-Goes pos keep =
      memo-Goes v _ (IsMemo-fewer (input_size c) c.m_mem _ (λ p r t e. ground arith) v.memo)

  -- What `memo_get` reads of a live entry.
  pub memo_get-IsEntry :
      (rule pos : ℕ) (s : RuleState)
      → c.m_mem pos rule ≡ some s
      → IsEntry (input_size c) pos (memo_get rule pos c)
  unfolding memo_get
  memo_get-IsEntry rule pos s e = rw e (v.memo pos rule s e)
