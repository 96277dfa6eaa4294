-- ===== src/Semantics/Scopes.antt =====
-- The scope of cuts of include/peglib/Context.h and the children of a node keep the state.
use peglib.Prelude.{
  ℕ, ◌≡◌, refl, Bool, List, [], ◌∷◌, Option, none, some, inl, inr, Bool-cases, ltb,
}
use peglib.Context.{Context, LrFrame, pop_cut, remove_cut, CutRecord, MemoTable, forget_before}
use peglib.Expr.{Grammar}
use peglib.Engine.{Outcome, cleaned}
use peglib.Engine.Combinators.{push_child, stamp_winner}
use peglib.Semantics.Plan.{Plan}
use peglib.Semantics.State.{with_memo, IsTrue, State, Tells, Returns-cleaned}

module _ (g : Grammar) (w : Plan) (t : List ℕ) (b : Bool) (fs : List LrFrame) where
  pub push_child-State :
      (node : ℕ) (tree : Option ℕ) (c : Context)
      → State g w t b fs c
      → State g w t b fs (push_child node tree c)
        × ((push_child node tree c).m_position ≡ c.m_position)
  push_child-State node none c h = (h, refl)
  push_child-State node (some n) c h = (h, refl)

  pub stamp_winner-State :
      (index : ℕ) (tree : Option ℕ) (c : Context)
      → State g w t b fs c
      → State g w t b fs (stamp_winner index tree c)
        × ((stamp_winner index tree c).m_position ≡ c.m_position)
  stamp_winner-State index none c h = (h, refl)
  stamp_winner-State index (some n) c h = (h, refl)

  forget_before-IsTrue :
      (last : ℕ) (mem : MemoTable) → IsTrue g w t fs mem → IsTrue g w t fs (forget_before last mem)
  forget_before-IsTrue last mem h pos id s e = elim (Bool-cases (ltb pos last)) [
    | inl p ↦ let gone : none ≡ some s = rw p at e in absurd (cc)
    | inr p ↦ h pos id s (rw p at e)
  ]

  -- Leaving a scope drops entries, and those that stay are true.
  pop_cut-State :
      (rs : List CutRecord) (c : Context)
      → State g w t b fs c
      → State g w t b fs (pop_cut rs c) × ((pop_cut rs c).m_position ≡ c.m_position)
  unfolding pop_cut
  pop_cut-State [] c h = (h, refl)
  pop_cut-State (r ∷ rs) c h = elim (Bool-cases r.cut) [
    | inl p ↦
        rw p (with_memo g w t b fs fs fs c _ h (forget_before-IsTrue r.pos c.m_mem h.memo), refl)
    | inr p ↦ rw p (h, refl)
  ]

  -- The scope that an alternation or a repetition opens and leaves.
  pub scope-Tells :
      {A : Type 0} (Q : A → ℕ → Type 0) (o : Outcome A)
      → Tells g w t b fs Q o
      → Tells g w t b fs Q (cleaned remove_cut o)
  scope-Tells Q o q =
      Returns-cleaned _ _ remove_cut o q
        λ a d (h, ans). let (kept, same) = pop_cut-State d.m_cut d h in (kept, rw same ans)
