-- ===== src/Fold/Invoke.antt =====
-- What the bridge of include/peglib/ResultType.h calls an action with.
use peglib.Prelude.{ℕ, ◌≡◌, refl, false, [], ◌∷◌, Option, some, get_elem?}
use peglib.Context.{Context, ParseTreeNode}
use peglib.Expr.{Expr}
use peglib.ResultType.{Ty, void, tuple, ContextTypes, result_of, flat_args}
use peglib.Fold.{Value, tuple_of, is_void, TypedFold, folded, deref}
use peglib.Fold.Types.{HasType, HaveTypes}
use peglib.Fold.Actions.{fold, arguments, Action, fold_and_invoke}
use peglib.Fold.Shape.{Shape}
use peglib.Fold.Shape.Run.{fold-Shape}

arguments-HaveTypes :
    {N : Type 0} (k : ContextTypes) (t : Ty) (v : Value N)
    → is_void (some t) ≡ false
    → HasType k v t
    → HaveTypes k (arguments (some t) v) (flat_args t)
unfolding flat_args
arguments-HaveTypes k void v h y = absurd cc
arguments-HaveTypes k (tuple ts) (tuple_of vs) h y = y
arguments-HaveTypes k (tuple ts) v h y = absurd y
arguments-HaveTypes k t v h y = (y, tt)

invoked :
    {N : Type 0} (k : ContextTypes) (folds : ℕ → Option (TypedFold N)) (blank : N) (f : Action N)
    (e : Expr) (t : Ty) (own body : ℕ) (n : ParseTreeNode) (c : Context) (v : Value N) (d : Context)
    → result_of k e ≡ some t
    → is_void (some t) ≡ false
    → get_elem? c.m_node_arena own ≡ some n
    → n.children ≡ some body ∷ []
    → fold k folds blank e (some body) c ≡ folded v d
    → fold_and_invoke k folds blank f e (some own) c
      ≡ f (record { start = n.start_offset; end = n.end_offset }) (arguments (some t) v) d
unfolding fold_and_invoke
invoked k folds blank f e t own body n c v d typed valued stands child value =
    let found : deref (some own) c ≡ folded n c = rw (stands, deref) refl in
    rw (found, typed, valued, child, value) refl

-- If the body of a rule with an action has a result type other than void, the rule's node has the
-- body's node as its one child and the body's tree has the shape that the fold reads, then the
-- bridge folds the body's node, with a value, calls the action once, with the span of the rule's
-- node and the fold's value unpacked to arguments of the types that flat_args gives, on the tree
-- as it was, and answers what the action answers.
pub fold_and_invoke-Shape :
    {N : Type 0} (k : ContextTypes) (folds : ℕ → Option (TypedFold N)) (blank : N) (f : Action N)
    (e : Expr) (t : Ty) (own body : ℕ) (n : ParseTreeNode) (c : Context)
    → result_of k e ≡ some t
    → is_void (some t) ≡ false
    → get_elem? c.m_node_arena own ≡ some n
    → n.children ≡ some body ∷ []
    → Shape k folds blank c.m_node_arena c.m_input e (some body)
    → (v : Value N) × (d : Context) × (fold k folds blank e (some body) c ≡ folded v d)
      × (fold_and_invoke k folds blank f e (some own) c
          ≡ f (record { start = n.start_offset; end = n.end_offset }) (arguments (some t) v) d)
      × HaveTypes k (arguments (some t) v) (flat_args t)
      × (d.m_node_arena ≡ c.m_node_arena)
fold_and_invoke-Shape k folds blank f e t own body n c typed valued stands child shape =
    let (v, d, value, has, same) = fold-Shape k folds blank e t (some body) c typed valued shape in
    (
      v,
      d,
      value,
      invoked k folds blank f e t own body n c v d typed valued stands child value,
      arguments-HaveTypes k t v valued has,
      same,
    )
