-- ===== src/Invariant/Scope.antt =====
-- Leaving the scope of an alternation or a repetition: the cut record on top is taken off, and the
-- records below it are those of the caller.
use peglib.Prelude.{◌≡◌, refl, List, [], ◌∷◌, arith, Bool-cases, inl, inr}
use peglib.ParseError.{ParseError}
use peglib.Context.{Context, CutRecord, input_size, init_cut, remove_cut, pop_cut}
use peglib.Expr.{Grammar}
use peglib.Invariant.{IsValid, SameBelow, Keeps, Unwinds, Carries}
use peglib.Invariant.Relations.{SameBelow-refl}
use peglib.Invariant.Memo.{forget_before-IsMemo}

pub init_cut-IsValid : {g : Grammar} {c : Context} → IsValid g c → IsValid g (init_cut c)
init_cut-IsValid v = assumption (v.position, v.cuts)

pop_cut-Keeps :
    (c d : Context) (rs : List CutRecord)
    → d.m_cut ≡ rs
    → Keeps (init_cut c) d
    → Keeps c (pop_cut rs d)
unfolding pop_cut
pop_cut-Keeps c d [] e k = absurd (rw e at k.cuts)
pop_cut-Keeps c d (r ∷ rs) e k =
    let rest : c.m_cut ≡ rs = rw e at k.cuts in
    let below : SameBelow c.m_cut rs = rw (← rest) (SameBelow-refl c.m_cut) in
    elim (Bool-cases r.cut) [
      | inl p ↦ rw p (
          assumption
            (k.input, k.skipper, k.skip_enabled, k.frames, k.errors, k.diagnostics, k.arena, below))
      | inr p ↦ rw p (
          assumption
            (k.input, k.skipper, k.skip_enabled, k.frames, k.errors, k.diagnostics, k.arena, below))
    ]

pop_cut-Unwinds :
    (c d : Context) (rs : List CutRecord)
    → d.m_cut ≡ rs
    → Unwinds (init_cut c) d
    → Unwinds c (pop_cut rs d)
unfolding pop_cut
pop_cut-Unwinds c d [] e k = absurd (rw e at k.cuts)
pop_cut-Unwinds c d (r ∷ rs) e k =
    let rest : c.m_cut ≡ rs = rw e at k.cuts in
    let below : SameBelow c.m_cut rs = rw (← rest) (SameBelow-refl c.m_cut) in
    elim (Bool-cases r.cut) [
      | inl p ↦ rw p (assumption (k.input, k.skipper, k.frames, k.errors, k.diagnostics, below))
      | inr p ↦ rw p (assumption (k.input, k.skipper, k.frames, k.errors, k.diagnostics, below))
    ]

pop_cut-IsValid :
    (g : Grammar) (d : Context) (rs : List CutRecord)
    → d.m_cut ≡ rs
    → IsValid g d
    → IsValid g (pop_cut rs d)
unfolding pop_cut
pop_cut-IsValid g d [] e v = v
pop_cut-IsValid g d (r ∷ rs) e v =
    let (at_top, below) = (rw e at v.cuts) in
    elim (Bool-cases r.cut) [
      | inl p ↦ rw p (
          let memo = forget_before-IsMemo (input_size d) r.pos d.m_mem v.memo in
          assumption (memo, at_top, below, v.position, v.furthest, v.ascending, v.skipper))
      | inr p ↦ rw p (
          assumption
            (at_top, below, v.position, v.memo, v.furthest, v.ascending, v.last_cut, v.skipper))
    ]

pop_cut-position : (d : Context) (rs : List CutRecord) → (pop_cut rs d).m_position ≡ d.m_position
unfolding pop_cut
pop_cut-position d [] = refl
pop_cut-position d (r ∷ rs) = ground arith

pub remove_cut-Keeps : (c d : Context) → Keeps (init_cut c) d → Keeps c (remove_cut d)
remove_cut-Keeps c d = pop_cut-Keeps c d d.m_cut refl

pub remove_cut-Unwinds : (c d : Context) → Unwinds (init_cut c) d → Unwinds c (remove_cut d)
remove_cut-Unwinds c d = pop_cut-Unwinds c d d.m_cut refl

pub remove_cut-IsValid : (g : Grammar) (d : Context) → IsValid g d → IsValid g (remove_cut d)
remove_cut-IsValid g d = pop_cut-IsValid g d d.m_cut refl

pub remove_cut-position : (d : Context) → (remove_cut d).m_position ≡ d.m_position
remove_cut-position d = pop_cut-position d d.m_cut

pop_cut-Carries :
    (e : ParseError) (d : Context) (rs : List CutRecord) → Carries e d → Carries e (pop_cut rs d)
unfolding pop_cut
pop_cut-Carries e d [] h = h
pop_cut-Carries e d (r ∷ rs) h = elim (Bool-cases r.cut) [ inl p ↦ rw p h | inr p ↦ rw p h ]

pub remove_cut-Carries : (e : ParseError) (d : Context) → Carries e d → Carries e (remove_cut d)
remove_cut-Carries e d = pop_cut-Carries e d d.m_cut
