-- ===== src/Invariant/Operations.antt =====
-- The invariant over the context's operations.
use peglib.Prelude.{
  ℕ, ◌+◌, ◌≤◌, ◌≡◌, refl, Bool, true, List, [], ◌∷◌, ◌++◌, Option, inl, inr, All, length,
  length-append, length-set, set, ltb, ◌==◌, ◌||◌, not, arith, Bool-cases,
}
use peglib.ParseError.{ExpectedItem, insert, Diagnostic}
use peglib.ParseError.Insert.{IsAscending, insert-IsAscending}
use peglib.Context.{
  Context, ParseTreeNode, MemoTable, LrFrame, CutRecord, input_size, mark, blank_node, next,
  make_node, record_failure, set_top, set_cut, record_diagnostic,
}
use peglib.Expr.{Grammar}
use peglib.Invariant.{IsMemo, IsValid, SameBelow, SameFrames, DiagnosticsGrow, Keeps}
use peglib.Invariant.Relations.{Keeps-refl}

set_top-SameBelow : (b : Bool) (pos : ℕ) (rs : List CutRecord) → SameBelow rs (set_top b pos rs)
set_top-SameBelow b pos [] = tt
set_top-SameBelow b pos (r ∷ rs) = refl

set_top-All :
    (b : Bool) (pos size : ℕ) (rs : List CutRecord)
    → pos ≤ size
    → All (λ r. r.pos ≤ size) rs
    → All (λ r. r.pos ≤ size) (set_top b pos rs)
set_top-All b pos size [] h hs = tt
set_top-All b pos size (r ∷ rs) h hs = (h, hs.1)

-- The invariant, and what `c` may rely on.
abbrev pub Goes : Grammar → Context → Context → Type 0
Goes g c d = IsValid g d × Keeps c d

module _ {g : Grammar} {c : Context} (v : IsValid g c) where
  pub position-Goes : (pos : ℕ) → pos ≤ input_size c → Goes g c (record c { m_position = pos })
  position-Goes pos h = assumption (Keeps-refl c)

  pub arena-Goes :
      (arena : List ParseTreeNode)
      → length c.m_node_arena ≤ length arena
      → Goes g c (record c { m_node_arena = arena })
  arena-Goes arena h = assumption (Keeps-refl c)

  pub make_node-Goes : Goes g c (make_node c).0
  make_node-Goes =
      arena-Goes (c.m_node_arena ++ blank_node ∷ [])
        (omega (arith, length-append c.m_node_arena (blank_node ∷ [])))

  -- Writing a node.
  pub update_node-Goes :
      (n : ℕ) (node : ParseTreeNode)
      → Goes g c (record c { m_node_arena = set c.m_node_arena n node })
  update_node-Goes n node =
      arena-Goes (set c.m_node_arena n node) (omega (arith, length-set c.m_node_arena n node))

  pub memo-Goes :
      (mem : MemoTable) → IsMemo (input_size c) mem → Goes g c (record c { m_mem = mem })
  memo-Goes mem h = assumption (Keeps-refl c)

  pub heads-Goes : (heads : ℕ → Option ℕ) → Goes g c (record c { m_growing_head = heads })
  heads-Goes heads = assumption (Keeps-refl c)

  pub frames-Goes :
      (frames : List LrFrame)
      → SameFrames c.m_lr_stack frames
      → Goes g c (record c { m_lr_stack = frames })
  frames-Goes frames h = assumption (Keeps-refl c)

  pub set_cut-Goes : (b : Bool) → Goes g c (set_cut b c)
  set_cut-Goes b =
      let same = Keeps-refl c in
      let below : SameBelow c.m_cut (set_top b (mark c) c.m_cut) =
        set_top-SameBelow b (mark c) c.m_cut in
      let inside : All (λ r. r.pos ≤ input_size c) (set_top b (mark c) c.m_cut) =
        set_top-All b (mark c) (input_size c) c.m_cut v.position v.cuts in
      assumption (same, below, inside)

  pub next-Goes : Goes g c (next c)
  unfolding next
  next-Goes = elim (Bool-cases (ltb c.m_position (input_size c))) [
    | inl h ↦ rw h (position-Goes (c.m_position + 1) (ground arith))
    | inr h ↦ rw h (v, Keeps-refl c)
  ]

  pub record_failure-Goes :
      (pos : ℕ) (item : ExpectedItem) → pos ≤ input_size c → Goes g c (record_failure pos item c)
  unfolding record_failure
  record_failure-Goes pos item h =
      let fresh : IsAscending (insert [] item).0 = insert-IsAscending [] item tt in
      let more : IsAscending (insert c.m_expected item).0 =
        insert-IsAscending c.m_expected item v.ascending in
      elim (Bool-cases (not c.m_has_error || ltb c.m_furthest_failure_pos pos)) [
        | inl p ↦ rw p (
            let grows : (c.m_has_error ≡ true) → (true ≡ true) × (c.m_furthest_failure_pos ≤ pos) =
              λ e. (refl, ground arith) in
            assumption (Keeps-refl c, fresh, grows))
        | inr p ↦ rw p (elim (Bool-cases (pos == c.m_furthest_failure_pos)) [
          | inl q ↦ rw q (assumption (Keeps-refl c, more))
          | inr q ↦ rw q (v, Keeps-refl c)
        ])
      ]

  pub diagnostic-Goes : (d : Diagnostic) → Goes g c (record_diagnostic d c)
  diagnostic-Goes d =
      let grows : DiagnosticsGrow c (record_diagnostic d c) = (d ∷ [], refl) in
      assumption (Keeps-refl c, grows)
