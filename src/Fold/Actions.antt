-- ===== src/Fold/Actions.antt =====
-- include/peglib/ResultType.h and NonTerminal.h: the bridge from a rule's action to its typed fold,
-- the walk that fires the match hooks, and `Grammar::parse_ast`.
use peglib.Prelude.{ℕ, zero, suc, List, [], ◌∷◌, Option, none, some}
use peglib.ParseError.{Bytes}
use peglib.Context.{Context, Span}
use peglib.Expr.{Expr, Grammar}
use peglib.Engine.{ok, throw, fault, diverged, too_deep}
use peglib.Grammar.{Call, outcome, logic_error, out_of_range, find_rule, parse_tree}
use peglib.ResultType.{Ty, tuple, ContextTypes, result_of}
use peglib.Fold.{
  Folded, too_nested, Fold, ◌>>=◌, pure, deref, Value, Values, done, ◌▹◌, tuple_of, is_void,
  when_void, TypedFold, fold_start, fold_expr,
}

unfoldable pub fold :
    {N : Type 0} → ContextTypes → (ℕ → Option (TypedFold N)) → N → Expr → Option ℕ → Fold (Value N)
unfolding fold_expr
fold k folds blank e tree = do (v, _) ← fold_expr k folds blank e tree 0; pure v

-- `std::apply` on a tuple, else one argument.
abbrev pub arguments : {N : Type 0} → Option Ty → Value N → Values N
arguments (some (tuple ts)) (tuple_of vs) = vs
arguments _ v = v ▹ done

-- `node->children.empty() ? node : node->children[0]`
abbrev pub body_node : Option ℕ → List (Option ℕ) → Option ℕ
body_node tree [] = tree
body_node tree (child ∷ children) = child

-- The action of a rule: what the user gives to `set_action`, on a span and the arguments.
abbrev pub Action : Type 0 → Type 0
Action N = Span → Values N → Fold N

unfoldable pub fold_and_invoke :
    {N : Type 0} → ContextTypes → (ℕ → Option (TypedFold N)) → N → Action N → Expr → TypedFold N
unfolding fold
fold_and_invoke k folds blank f e tree = do
  n ← deref tree
  let sp : Span = record { start = n.start_offset; end = n.end_offset }
  when_void (is_void (result_of k e)) (f sp done)
      (do v ← fold k folds blank e (body_node tree n.children); f sp (arguments (result_of k e) v))

-- A rule with an action holds the expression type that its handle had when the action was set.
pub record Bridge (N : Type 0) : Type 0 where
  pub action : Action N
  pub body : Expr

abbrev too_deep_fold : {N : Type 0} → Option (Bridge N) → Option (TypedFold N)
too_deep_fold none = none
too_deep_fold (some b) = some (λ tree c. too_nested)

abbrev bridged :
    {N : Type 0}
    → ContextTypes
    → (ℕ → Option (TypedFold N))
    → N
    → Option (Bridge N)
    → Option (TypedFold N)
unfolding fold_and_invoke
bridged k folds blank none = none
bridged k folds blank (some b) = some (fold_and_invoke k folds blank b.action b.body)

-- The typed folds that `set_action` has left in the rules, to so many nested rules.
unfoldable pub typed_folds :
    {N : Type 0} → ℕ → ContextTypes → N → (ℕ → Option (Bridge N)) → ℕ → Option (TypedFold N)
unfolding bridged
typed_folds zero k blank actions id = too_deep_fold (actions id)
typed_folds (suc fuel) k blank actions id =
    bridged k (typed_folds fuel k blank actions) blank (actions id)

abbrev pub OnMatch : Type 0
OnMatch = Option ℕ → Fold (Unit {0})

abbrev pub hook_of : (ℕ → Option OnMatch) → Option ℕ → Option OnMatch
hook_of hooks none = none
hook_of hooks (some id) = hooks id

-- The start rule's hook, else the producer's.
abbrev pub run_hook : Option OnMatch → Option OnMatch → OnMatch
run_hook (some f) g tree = f tree
run_hook none (some f) tree = f tree
run_hook none none tree = pure tt

unfoldable pub for_children : (Option ℕ → Fold (Unit {0})) → List (Option ℕ) → Fold (Unit {0})
for_children f [] = pure tt
for_children f (t ∷ ts) = do _ ← f t; for_children f ts

abbrev pub unless_null : Option ℕ → Fold (Unit {0}) → Fold (Unit {0})
unless_null none m = pure tt
unless_null (some t) m = m

unfoldable pub fire_on_match : ℕ → (ℕ → Option OnMatch) → Option ℕ → Option ℕ → Fold (Unit {0})
unfolding for_children
fire_on_match zero hooks start tree c = too_nested
fire_on_match (suc fuel) hooks start tree c =
    unless_null tree
      (do
        n ← deref tree
        _ ← run_hook (hook_of hooks start) (hook_of hooks n.producer) tree
        after ← deref tree
        for_children (fire_on_match fuel hooks none) after.children)
      c

-- What `parse_ast` does with the tree of the parse: nothing without one.
abbrev pub ast_of :
    {N : Type 0}
    → (ℕ → Option OnMatch)
    → (ℕ → Option (TypedFold N))
    → N
    → ℕ
    → ℕ
    → Option ℕ
    → Fold (Option N)
unfolding fire_on_match
ast_of hooks folds blank fuel id none = pure none
ast_of hooks folds blank fuel id (some t) = do
  _ ← fire_on_match fuel hooks (some id) (some t)
  v ← fold_start folds blank (some t) (some id)
  pure (some v)

abbrev on_tree :
    {N : Type 0} → Call (Option ℕ) → (Option ℕ → Fold (Option N)) → Call (Folded (Option N))
on_tree (outcome (ok tree c)) f = outcome (ok (f tree c) c)
on_tree (outcome (throw e c)) f = outcome (throw e c)
on_tree (outcome fault) f = outcome fault
on_tree (outcome diverged) f = outcome diverged
on_tree (outcome too_deep) f = outcome too_deep
on_tree logic_error f = logic_error
on_tree out_of_range f = out_of_range

abbrev ast_from :
    {N : Type 0}
    → Option ℕ
    → Call (Option ℕ)
    → (ℕ → Option ℕ → Fold (Option N))
    → Call (Folded (Option N))
ast_from none tree f = out_of_range
ast_from (some id) tree f = on_tree tree (f id)

-- `Grammar::parse_ast`, with calls at most `depth` deep and folds at most `fuel` rules deep.
unfoldable pub parse_ast :
    {N : Type 0}
    → (ℕ → Option OnMatch)
    → (ℕ → Option (TypedFold N))
    → N
    → ℕ
    → ℕ
    → Grammar
    → Bytes
    → Context
    → Call (Folded (Option N))
unfolding ast_of
parse_ast hooks folds blank fuel depth g name c =
    ast_from (find_rule g.m_rules name) (parse_tree depth g name c) (ast_of hooks folds blank fuel)
