-- ===== src/Fold/Arguments.antt =====
-- The types of folded values, and of the arguments that include/peglib/ResultType.h makes of them.
use peglib.Prelude.{ℕ, ◌≡◌, refl, Option, some}
use peglib.Context.{Context}
use peglib.Expr.{Expr}
use peglib.ResultType.{
  Ty, void, tuple, TypeList, stop, ◌▸◌, ContextTypes, filter_void, collapse, result_of, flat_args,
}
use peglib.Fold.{TypedFold, fold_expr}
use peglib.Fold.Types.{HasType, Yields, Yields-bind}
use peglib.Fold.Types.Run.{fold_expr-IsOf}
use peglib.Fold.Actions.{fold}

-- If an expression has a result type, the fold of any tree by it gives, if it gives a value, a
-- value of that type.
pub fold-HasType :
    {N : Type 0} (k : ContextTypes) (folds : ℕ → Option (TypedFold N)) (blank : N) (e : Expr)
    (t : Ty) (tree : Option ℕ) (c : Context)
    → result_of k e ≡ some t
    → Yields (λ v. HasType k v t) (fold k folds blank e tree c)
unfolding fold
fold-HasType k folds blank e t tree c h =
    Yields-bind (λ v. HasType k v t) (λ r. HasType k r.0 t) (fold_expr k folds blank e tree 0 c) _
      (fold_expr-IsOf k folds blank e t h tree 0 c) (λ r d y. y)

-- A list of one type, which is a tuple.
abbrev pub IsLoneTuple : TypeList → Type 0
IsLoneTuple (tuple ts ▸ stop) = Unit
IsLoneTuple _ = ⊥

abbrev StartsVoid : TypeList → Type 0
StartsVoid (void ▸ ts) = Unit
StartsVoid _ = ⊥

filter_void-not_void : (ts : TypeList) → StartsVoid (filter_void ts) → ⊥
unfolding filter_void
filter_void-not_void stop h = h
filter_void-not_void (void ▸ ts) h = filter_void-not_void ts h
filter_void-not_void (t ▸ ts) h = h

flat_args-collapse_of :
    (ts : TypeList) → (StartsVoid ts → ⊥) → (IsLoneTuple ts → ⊥) → flat_args (collapse ts) ≡ ts
unfolding flat_args collapse
flat_args-collapse_of stop nv nt = refl
flat_args-collapse_of (void ▸ stop) nv nt = absurd (nv tt)
flat_args-collapse_of (tuple ts ▸ stop) nv nt = absurd (nt tt)
flat_args-collapse_of (t ▸ stop) nv nt = refl
flat_args-collapse_of (s ▸ (t ▸ ts)) nv nt = refl

-- If the types of a sequence's children, without void, are not one std::tuple alone, flat_args
-- gives them back from the sequence's result type.
pub flat_args-collapse :
    (ts : TypeList)
    → (IsLoneTuple (filter_void ts) → ⊥)
    → flat_args (collapse (filter_void ts)) ≡ filter_void ts
flat_args-collapse ts h = flat_args-collapse_of (filter_void ts) (filter_void-not_void ts) h
