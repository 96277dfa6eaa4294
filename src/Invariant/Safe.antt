-- ===== src/Invariant/Safe.antt =====
-- The rules by which the safety of a call follows from that of its parts.
use peglib.Prelude.{ℕ}
use peglib.Context.{Context, init_cut, remove_cut}
use peglib.Expr.{Grammar}
use peglib.Engine.{Outcome, ok, throw, fault, diverged, too_deep, Parser, after, cleaned}
use peglib.Invariant.{IsValid, Keeps, Safe}
use peglib.Invariant.Relations.{Keeps-trans, Unwinds-after}
use peglib.Invariant.Scope.{
  remove_cut-Keeps, remove_cut-Unwinds, remove_cut-IsValid, remove_cut-Carries, remove_cut-position,
}

module _ {A : Type 0} (g : Grammar) where
  pub Safe-via :
      (c d : Context) (R : A → Context → Type 0) (o : Outcome A)
      → Keeps c d
      → Safe g d R o
      → Safe g c R o
  Safe-via c d R (ok a e) k (v, kept, q) = (v, Keeps-trans k kept, q)
  Safe-via c d R (throw x e) k (u, carried) = (Unwinds-after k u, carried)
  Safe-via c d R fault k s = s
  Safe-via c d R diverged k s = s
  Safe-via c d R too_deep k s = s

  pub Safe-map :
      (c : Context) (Q R : A → Context → Type 0) (o : Outcome A)
      → ((a : A) (d : Context) → Q a d → R a d)
      → Safe g c Q o
      → Safe g c R o
  Safe-map c Q R (ok a e) h (v, kept, q) = (v, kept, h a e q)
  Safe-map c Q R (throw x e) h s = s
  Safe-map c Q R fault h s = s
  Safe-map c Q R diverged h s = s
  Safe-map c Q R too_deep h s = s

  -- The scope that an alternation or a repetition opens and leaves.
  pub Safe-scope :
      (c : Context) (R : A → ℕ → Type 0) (o : Outcome A)
      → Safe g (init_cut c) (λ a d. R a d.m_position) o
      → Safe g c (λ a d. R a d.m_position) (cleaned remove_cut o)
  Safe-scope c R (ok a d) (v, k, q) =
      (remove_cut-IsValid g d v, remove_cut-Keeps c d k, rw remove_cut-position q)
  Safe-scope c R (throw e d) (u, carried) =
      (remove_cut-Unwinds c d u, remove_cut-Carries e d carried)
  Safe-scope c R fault s = s
  Safe-scope c R diverged s = s
  Safe-scope c R too_deep s = s

module _ {A B : Type 0} (g : Grammar) where
  pub Safe-bind :
      (c : Context) (Q : A → Context → Type 0) (R : B → Context → Type 0) (o : Outcome A)
      (f : A → Parser B)
      → Safe g c Q o
      → ((a : A) (d : Context) → IsValid g d → Keeps c d → Q a d → Safe g d R (f a d))
      → Safe g c R (after o f)
  Safe-bind c Q R (ok a d) f (v, k, q) h = Safe-via g c d R (f a d) k (h a d v k q)
  Safe-bind c Q R (throw e d) f s h = s
  Safe-bind c Q R fault f s h = s
  Safe-bind c Q R diverged f s h = s
  Safe-bind c Q R too_deep f s h = s
