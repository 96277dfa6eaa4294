-- ===== src/Termination/Room.antt =====
-- The places where a rule may still be entered: how a new frame takes one.
use peglib.Prelude.{
  ℕ, zero, suc, ◌*◌, ◌≤◌, ◌<◌, ◌≡◌, refl, sym, ap, false, List, [], ◌∷◌, ◌++◌, ◌⊎◌, inl, inr, arith,
  Bool-cases, ◌==◌, length, length-append,
}
use peglib.Context.{Context, LrFrame, input_size, in_progress}
use peglib.Expr.{Grammar}
use peglib.Invariant.{SameFrames, Keeps}
use peglib.Termination.{free, places_at, places, room}

in_progress-same :
    (fs hs : List LrFrame) (rule pos : ℕ)
    → SameFrames fs hs
    → in_progress fs rule pos ≡ in_progress hs rule pos
unfolding in_progress
in_progress-same [] [] rule pos h = refl
in_progress-same [] (h ∷ hs) rule pos s = absurd s
in_progress-same (f ∷ fs) [] rule pos s = absurd s
in_progress-same (f ∷ fs) (h ∷ hs) rule pos (a, b, c, d, s) =
    rw (a, b, in_progress-same fs hs rule pos s) refl

free-same : (ps : List (ℕ × ℕ)) (fs hs : List LrFrame) → SameFrames fs hs → free ps fs ≡ free ps hs
unfolding free
free-same [] fs hs s = refl
free-same ((rule, pos) ∷ ps) fs hs s =
    rw (in_progress-same fs hs rule pos s, free-same ps fs hs s) refl

pub room-Keeps : (g : Grammar) (c d : Context) → Keeps c d → room g d ≡ room g c
room-Keeps g c d k = rw (← k.input) (
    sym (
      free-same (places (length g.non_terminals) (input_size c)) c.m_lr_stack d.m_lr_stack
        k.frames))

-- The place stands in the list.
abbrev IsPlace : ℕ → ℕ → List (ℕ × ℕ) → Type 0
IsPlace rule pos [] = ⊥
IsPlace rule pos (p ∷ ps) = ((p.0 ≡ rule) × (p.1 ≡ pos)) ⊎ IsPlace rule pos ps

IsPlace-append-left :
    (rule pos : ℕ) (ps qs : List (ℕ × ℕ)) → IsPlace rule pos ps → IsPlace rule pos (ps ++ qs)
IsPlace-append-left rule pos [] qs h = absurd h
IsPlace-append-left rule pos (p ∷ ps) qs (inl h) = inl h
IsPlace-append-left rule pos (p ∷ ps) qs (inr h) = inr (IsPlace-append-left rule pos ps qs h)

IsPlace-append-right :
    (rule pos : ℕ) (ps qs : List (ℕ × ℕ)) → IsPlace rule pos qs → IsPlace rule pos (ps ++ qs)
IsPlace-append-right rule pos [] qs h = h
IsPlace-append-right rule pos (p ∷ ps) qs h = inr (IsPlace-append-right rule pos ps qs h)

places_at-IsPlace : (n rule pos : ℕ) → rule < n → IsPlace rule pos (places_at n pos)
unfolding places_at
places_at-IsPlace zero rule pos h = absurd (omega arith)
places_at-IsPlace (suc n) rule pos h = elim (Bool-cases (n == rule)) [
  | inl q ↦ inl (ground arith, refl)
  | inr q ↦ inr (places_at-IsPlace n rule pos (ground arith))
]

places-IsPlace : (n size rule pos : ℕ) → rule < n → pos ≤ size → IsPlace rule pos (places n size)
unfolding places
places-IsPlace n zero rule pos h k =
    let e : pos ≡ 0 = omega arith in rw e (places_at-IsPlace n rule 0 h)
places-IsPlace n (suc size) rule pos h k = elim (Bool-cases (pos == suc size)) [
  | inl q ↦
      let e : pos ≡ suc size = ground arith in
      rw e (
        IsPlace-append-left rule (suc size) (places_at n (suc size)) (places n size)
          (places_at-IsPlace n rule (suc size) h))
  | inr q ↦
      IsPlace-append-right rule pos (places_at n (suc size)) (places n size)
        (places-IsPlace n size rule pos h (ground arith))
]

free-push-le : (ps : List (ℕ × ℕ)) (f : LrFrame) (fs : List LrFrame) → free ps (f ∷ fs) ≤ free ps fs
unfolding free in_progress
free-push-le [] f fs = omega arith
free-push-le ((rule, pos) ∷ ps) f fs = ground (arith, free-push-le ps f fs)

-- A frame at a free place takes it.
free-push-lt :
    (ps : List (ℕ × ℕ)) (f : LrFrame) (fs : List LrFrame)
    → in_progress fs f.rule f.pos ≡ false
    → IsPlace f.rule f.pos ps
    → free ps (f ∷ fs) < free ps fs
unfolding free in_progress
free-push-lt [] f fs h i = absurd i
free-push-lt ((rule, pos) ∷ ps) f fs h (inl (a, b)) =
    let less = free-push-le ps f fs in rw (a, b, h) (ground (arith, less))
free-push-lt ((rule, pos) ∷ ps) f fs h (inr i) =
    let less = free-push-lt ps f fs h i in ground (arith, less)

pub room-push :
    (g : Grammar) (c : Context) (f : LrFrame)
    → in_progress c.m_lr_stack f.rule f.pos ≡ false
    → f.rule < length g.non_terminals
    → f.pos ≤ input_size c
    → free (places (length g.non_terminals) (input_size c)) (f ∷ c.m_lr_stack) < room g c
room-push g c f h k l =
    free-push-lt _ f c.m_lr_stack h
      (places-IsPlace (length g.non_terminals) (input_size c) f.rule f.pos k l)

length-places_at : (n pos : ℕ) → length (places_at n pos) ≡ n
unfolding places_at
length-places_at zero pos = refl
length-places_at (suc n) pos = ap suc (length-places_at n pos)

length-places : (n size : ℕ) → length (places n size) ≡ suc size * n
unfolding places
length-places n zero = omega (arith, length-places_at n zero)
length-places n (suc size) = omega (
  arith,
  length-append (places_at n (suc size)) (places n size),
  length-places_at n (suc size),
  length-places n size,
)

free-le-length : (ps : List (ℕ × ℕ)) (fs : List LrFrame) → free ps fs ≤ length ps
unfolding free
free-le-length [] fs = omega arith
free-le-length ((rule, pos) ∷ ps) fs = ground (arith, free-le-length ps fs)

pub room-le : (g : Grammar) (c : Context) → room g c ≤ suc (input_size c) * length g.non_terminals
room-le g c = omega (
  arith,
  free-le-length (places (length g.non_terminals) (input_size c)) c.m_lr_stack,
  length-places (length g.non_terminals) (input_size c),
)
