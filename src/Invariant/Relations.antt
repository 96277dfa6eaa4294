-- ===== src/Invariant/Relations.antt =====
-- The relations between a caller's context and the context after a call, composed.
use mathlib.Core.List.{append-nil, append_assoc}
use peglib.Prelude.{refl, sym, ◌∙◌, ap, List, [], ◌∷◌, ◌++◌, inl, inr, arith}
use peglib.Context.{Context, LrFrame, CutRecord}
use peglib.Invariant.{SameBelow, SameFrames, Buried, ErrorGrows, DiagnosticsGrow, Keeps, Unwinds}

pub SameBelow-refl : (rs : List CutRecord) → SameBelow rs rs
SameBelow-refl [] = tt
SameBelow-refl (r ∷ rs) = refl

SameBelow-trans : (rs ss ts : List CutRecord) → SameBelow rs ss → SameBelow ss ts → SameBelow rs ts
SameBelow-trans [] [] [] p q = tt
SameBelow-trans [] [] (t ∷ ts) p q = q
SameBelow-trans [] (s ∷ ss) ts p q = absurd p
SameBelow-trans (r ∷ rs) [] ts p q = absurd p
SameBelow-trans (r ∷ rs) (s ∷ ss) [] p q = q
SameBelow-trans (r ∷ rs) (s ∷ ss) (t ∷ ts) p q = p ∙ q

pub SameFrames-refl : (fs : List LrFrame) → SameFrames fs fs
SameFrames-refl [] = tt
SameFrames-refl (f ∷ fs) = (refl, refl, refl, λ h. h, SameFrames-refl fs)

pub SameFrames-trans :
    (fs gs hs : List LrFrame) → SameFrames fs gs → SameFrames gs hs → SameFrames fs hs
SameFrames-trans [] [] [] p q = tt
SameFrames-trans [] [] (h ∷ hs) p q = q
SameFrames-trans [] (g ∷ gs) hs p q = absurd p
SameFrames-trans (f ∷ fs) [] hs p q = absurd p
SameFrames-trans (f ∷ fs) (g ∷ gs) [] p q = q
SameFrames-trans (f ∷ fs) (g ∷ gs) (h ∷ hs) (a, b, c, d, p) (a', b', c', d', q) =
    (a ∙ a', b ∙ b', c ∙ c', (λ e. d' (d e)), SameFrames-trans fs gs hs p q)

Buried-of_same : (fs gs hs : List LrFrame) → SameFrames fs gs → Buried gs hs → Buried fs hs
Buried-of_same fs gs [] p q = SameFrames-trans fs gs [] p q
Buried-of_same fs gs (h ∷ hs) p (inl q) = inl (SameFrames-trans fs gs (h ∷ hs) p q)
Buried-of_same fs gs (h ∷ hs) p (inr q) = inr (Buried-of_same fs gs hs p q)

SameFrames→Buried : (fs gs : List LrFrame) → SameFrames fs gs → Buried fs gs
SameFrames→Buried fs [] p = p
SameFrames→Buried fs (g ∷ gs) p = inl p

-- A stack that lies under more frames lies under fewer of its own.
pub Buried-push : (f : LrFrame) (fs hs : List LrFrame) → Buried (f ∷ fs) hs → Buried fs hs
Buried-push f fs [] p = absurd p
Buried-push f fs (h ∷ hs) (inl p) = inr (SameFrames→Buried fs hs p.4)
Buried-push f fs (h ∷ hs) (inr p) = inr (Buried-push f fs hs p)

pub ErrorGrows-trans : (c d e : Context) → ErrorGrows c d → ErrorGrows d e → ErrorGrows c e
ErrorGrows-trans c d e p q h =
    let (had, first) = p h in let (has, second) = q had in (has, omega (arith, first, second))

DiagnosticsGrow-refl : (c : Context) → DiagnosticsGrow c c
DiagnosticsGrow-refl c = ([], sym (append-nil c.m_diagnostics))

DiagnosticsGrow-trans :
    (c d e : Context) → DiagnosticsGrow c d → DiagnosticsGrow d e → DiagnosticsGrow c e
DiagnosticsGrow-trans c d e (xs, p) (ys, q) =
    (xs ++ ys, q ∙ ap (λ l. l ++ ys) p ∙ append_assoc c.m_diagnostics xs ys)

pub Keeps-refl : (c : Context) → Keeps c c
Keeps-refl c = record {
  input = refl;
  skipper = refl;
  skip_enabled = refl;
  cuts = SameBelow-refl c.m_cut;
  frames = SameFrames-refl c.m_lr_stack;
  errors = λ h. (h, omega arith);
  diagnostics = DiagnosticsGrow-refl c;
  arena = omega arith;
}

pub Keeps-trans : {c d e : Context} → Keeps c d → Keeps d e → Keeps c e
Keeps-trans {c} {d} {e} p q = record {
  input = p.input ∙ q.input;
  skipper = p.skipper ∙ q.skipper;
  skip_enabled = p.skip_enabled ∙ q.skip_enabled;
  cuts = SameBelow-trans c.m_cut d.m_cut e.m_cut p.cuts q.cuts;
  frames = SameFrames-trans c.m_lr_stack d.m_lr_stack e.m_lr_stack p.frames q.frames;
  errors = ErrorGrows-trans c d e p.errors q.errors;
  diagnostics = DiagnosticsGrow-trans c d e p.diagnostics q.diagnostics;
  arena = omega (arith, p.arena, q.arena);
}

pub Unwinds-after : {c d e : Context} → Keeps c d → Unwinds d e → Unwinds c e
Unwinds-after {c} {d} {e} p q = record {
  input = p.input ∙ q.input;
  skipper = p.skipper ∙ q.skipper;
  cuts = SameBelow-trans c.m_cut d.m_cut e.m_cut p.cuts q.cuts;
  frames = Buried-of_same c.m_lr_stack d.m_lr_stack e.m_lr_stack p.frames q.frames;
  errors = ErrorGrows-trans c d e p.errors q.errors;
  diagnostics = DiagnosticsGrow-trans c d e p.diagnostics q.diagnostics;
}

pub Unwinds-of_Keeps : {c d : Context} → Keeps c d → Unwinds c d
Unwinds-of_Keeps {c} {d} p = record {
  input = p.input;
  skipper = p.skipper;
  cuts = p.cuts;
  frames = SameFrames→Buried c.m_lr_stack d.m_lr_stack p.frames;
  errors = p.errors;
  diagnostics = p.diagnostics;
}
