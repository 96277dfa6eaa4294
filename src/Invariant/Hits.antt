-- ===== src/Invariant/Hits.antt =====
-- The invariant over a memo hit, in each of its three cases.
use peglib.Prelude.{
  true, leb, le→leb, ℕ, ◌≡◌, refl, List, [], ◌∷◌, some, inl, inr, Bool-cases, ◌&&◌, ◌==◌,
}
use peglib.Context.{
  Context, RuleState, LrFrame, input_size, memo_get, lr_in_progress, growing_head, set_growing_head,
}
use peglib.Expr.{Grammar}
use peglib.Engine.Rules.{mark_head, become_head, replay, is_involved, memo_hit}
use peglib.Invariant.{IsEntry, IsValid, SameFrames, Safe, Moves}
use peglib.Invariant.Relations.{Keeps-trans, SameFrames-refl}
use peglib.Invariant.Operations.{Goes, position-Goes, frames-Goes, heads-Goes}
use peglib.Invariant.Memo.{memo_get-IsEntry}
use peglib.Invariant.Safe.{Safe-via}

mark_head-SameFrames : (fs : List LrFrame) (rule pos : ℕ) → SameFrames fs (mark_head fs rule pos).0
unfolding mark_head
mark_head-SameFrames [] rule pos = tt
mark_head-SameFrames (f ∷ fs) rule pos = elim (Bool-cases ((f.pos == pos) && (f.rule == rule))) [
  | inl h ↦ rw h (refl, refl, refl, (λ _. refl), SameFrames-refl fs)
  | inr h ↦ rw h (refl, refl, refl, (λ e. e), mark_head-SameFrames fs rule pos)
]

module _ (g : Grammar) (c : Context) (v : IsValid g c) where
  become_head-Goes : (rule pos : ℕ) → Goes g c (become_head rule pos c)
  unfolding become_head set_growing_head
  become_head-Goes rule pos =
      let marked =
        frames-Goes v (mark_head c.m_lr_stack rule pos).0
          (mark_head-SameFrames c.m_lr_stack rule pos) in
      elim (Bool-cases (mark_head c.m_lr_stack rule pos).1) [
        | inl h ↦ rw h (let n = heads-Goes marked.0 _ in (n.0, Keeps-trans marked.1 n.1))
        | inr h ↦ rw h marked
      ]

  pub replay-Safe :
      (s : RuleState) (start : ℕ)
      → IsEntry (input_size c) start s
      → Safe g c (Moves start) (replay s c)
  replay-Safe s start e =
      let n = position-Goes v s.m_last_pos e.within in
      let inside : leb s.m_last_pos (input_size c) ≡ true = le→leb _ _ e.within in
      rw inside (n.0, n.1, (e.from, e.stays))

become_head-mem : (rule pos : ℕ) (c : Context) → (become_head rule pos c).m_mem ≡ c.m_mem
unfolding become_head set_growing_head
become_head-mem rule pos c = elim (Bool-cases (mark_head c.m_lr_stack rule pos).1) [
  | inl h ↦ rw h
  | inr h ↦ rw h
]

-- The entry that was found is read again, and still stands.
pub memo_hit-Safe :
    (g : Grammar) (c : Context) (v : IsValid g c) (rule start : ℕ) (s : RuleState)
    → c.m_mem start rule ≡ some s
    → Safe g c (Moves start) (memo_hit rule start s c)
unfolding memo_hit
memo_hit-Safe g c v rule start s e = elim (Bool-cases (lr_in_progress rule start c)) [
  | inl h ↦ rw h (
      let d = become_head rule start c in
      let n = become_head-Goes g c v rule start in
      let found : d.m_mem start rule ≡ some s = rw become_head-mem e in
      Safe-via g c d (Moves start) (replay (memo_get rule start d) d) n.1 (
        replay-Safe g d n.0 (memo_get rule start d) start
          (memo_get-IsEntry n.0 rule start s found)))
  | inr h ↦ rw h (elim (Bool-cases (is_involved (growing_head start c) rule)) [
    | inl q ↦
        rw q (replay-Safe g c v (memo_get rule start c) start (memo_get-IsEntry v rule start s e))
    | inr q ↦ rw q (replay-Safe g c v s start (v.memo start rule s e))
  ])
]
