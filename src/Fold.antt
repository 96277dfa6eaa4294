-- ===== src/Fold.antt =====
-- include/peglib/ResultType.h, the fold: the walk of a parse tree that builds a rule's typed value.
-- A pointer to a tree node is its index in the context's arena.
pub mod Types
pub mod Actions
pub mod Arguments
pub mod Invoke
pub mod Shape
use peglib.Prelude.{
  ℕ, zero, suc, ◌+◌, Bool, true, false, List, [], ◌∷◌, Option, none, some, ltb, ◌==◌, if◌then◌else◌,
  length, drop, get_elem?,
}
use peglib.Context.{Context, Span, ParseTreeNode, at}
use peglib.Expr.{
  Expr, Exprs, nil, cons, terminal, terminal_seq, token, matcher, empty, sequence, alternation,
  zero_or_more, one_or_more, n_times, optional, not_expr, and_expr, cut_expr, lexeme, rule,
}
use peglib.ResultType.{
  Ty, void, tuple, ContextTypes, filter_void, collapse, all_same, is_same, are_same, rep_of, opt_of,
  result_of,
}

-- How a step of the fold ends: with a value, by std::out_of_range, by a null pointer dereferenced or
-- an assertion failed, or cut off by the bound on nested rules.
pub data Folded (A : Type 0) : Type 0 where
  folded : A → Context → Folded A
  bad_index undefined too_nested : Folded A

-- The user's functions get the context by reference, so it is passed on.
abbrev pub Fold : Type 0 → Type 0
Fold A = Context → Folded A

abbrev pub next_with : {A B : Type 0} → Folded A → (A → Fold B) → Folded B
next_with (folded a c) f = f a c
next_with bad_index f = bad_index
next_with undefined f = undefined
next_with too_nested f = too_nested

infixl 1 ◌>>=◌
abbrev pub ◌>>=◌ : {A B : Type 0} → Fold A → (A → Fold B) → Fold B
(m >>= f) c = next_with (m c) f

abbrev pub pure : {A : Type 0} → A → Fold A
pure a c = folded a c

-- `*node`
abbrev pub deref : Option ℕ → Fold ParseTreeNode
deref none c = undefined
deref (some n) c = elim (get_elem? c.m_node_arena n) [ none ↦ undefined | some t ↦ folded t c ]

-- `ctx.at(offset)`, with its assertion.
abbrev pub element_at : ℕ → Fold ℕ
element_at offset c = elim (at offset c) [ none ↦ undefined | some x ↦ folded x c ]

-- The typed values: an element of the input, a node `N` of the user's tree, and the standard
-- containers. `nothing` is the value that a void function does not have.
mutual
  pub data Value (N : Type 0) : Type 0 where
    nothing nullopt : Value N
    element : ℕ → Value N
    ast : N → Value N
    just : Value N → Value N
    vector_of tuple_of : Values N → Value N

  pub data Values (N : Type 0) : Type 0 where
    done : Values N
    ◌▹◌ : Value N → Values N → Values N

infixr 5 ◌▹◌
-- `std::is_void_v<result_of_t<E>>`
abbrev pub is_void : Option Ty → Bool
is_void (some void) = true
is_void _ = false

abbrev pub pushes_node : Expr → Bool
pushes_node (matcher fn) = true
pushes_node _ = false

-- `if constexpr (std::is_void_v<R>)`
abbrev pub when_void : {A : Type 0} → Bool → Fold A → Fold A → Fold A
when_void true x y = x
when_void false x y = y

-- `node->alt_winner == I`
abbrev pub is_winner : Option ℕ → ℕ → Bool
is_winner none index = false
is_winner (some i) index = i == index

-- `children.at(index)`
abbrev pub child_at : List (Option ℕ) → ℕ → Fold (Option ℕ)
child_at children index c = elim (get_elem? children index) [
  | none ↦ bad_index
  | some t ↦ folded t c
]

-- The children that are still ahead of the cursor are folded by `f`, each with a cursor of its own.
unfoldable pub fold_each :
    {N : Type 0} → (Option ℕ → Fold (Value N)) → List (Option ℕ) → Fold (Values N)
fold_each f [] = pure done
fold_each f (t ∷ ts) = do v ← f t; vs ← fold_each f ts; pure (v ▹ vs)

-- `f` folds the repeated expression, whose result is void or not. The cursor ends behind the
-- children.
unfoldable pub fold_rep :
    {N : Type 0} → Bool → (Option ℕ → Fold (Value N × ℕ)) → Option ℕ → ℕ → Fold (Value N × ℕ)
unfolding fold_each
fold_rep true f tree cur = do n ← deref tree; pure (nothing, length n.children)
fold_rep false f tree cur = do
  n ← deref tree
  vs ← fold_each (λ t. f t >>= λ r. pure r.0) (drop cur n.children)
  pure (vector_of vs, cur + length (drop cur n.children))

-- The child under the cursor, if there is one and it is not null.
abbrev pub fold_present :
    {N : Type 0} → (Option ℕ → Fold (Value N × ℕ)) → Option (Option ℕ) → ℕ → Fold (Value N × ℕ)
fold_present f (some (some t)) cur = do (v, _) ← f (some t); pure (just v, suc cur)
fold_present f _ cur = pure (nullopt, cur)

abbrev pub fold_optional :
    {N : Type 0} → Bool → (Option ℕ → Fold (Value N × ℕ)) → Option ℕ → ℕ → Fold (Value N × ℕ)
fold_optional true f tree cur = do
  n ← deref tree
  pure (nothing, (if ltb cur (length n.children) then suc cur else cur))
fold_optional false f tree cur = do n ← deref tree; fold_present f (get_elem? n.children cur) cur

-- The last `else` of the fold of a sequence: `std::get<0>(acc)` for one value.
abbrev pub pack : {N : Type 0} → Values N → Value N
pack done = tuple_of done
pack (v ▹ done) = v
pack (v ▹ (w ▹ vs)) = tuple_of (v ▹ (w ▹ vs))

abbrev pub TypedFold : Type 0 → Type 0
TypedFold N = Option ℕ → Fold N

-- A producer that folds, else `NodeType{}`.
abbrev pub run_typed_fold : {N : Type 0} → Option (TypedFold N) → N → Option ℕ → Fold N
run_typed_fold none blank tree = pure blank
run_typed_fold (some f) blank tree = f tree

abbrev pub typed_fold_of :
    {N : Type 0} → (ℕ → Option (TypedFold N)) → Option ℕ → Option (TypedFold N)
typed_fold_of folds none = none
typed_fold_of folds (some id) = folds id

abbrev pub fold_rule : {N : Type 0} → (ℕ → Option (TypedFold N)) → N → Option ℕ → Fold N
fold_rule folds blank tree = do
  n ← deref tree
  run_typed_fold (typed_fold_of folds n.producer) blank tree

abbrev pub fold_start : {N : Type 0} → (ℕ → Option (TypedFold N)) → N → Option ℕ → Option ℕ → Fold N
fold_start folds blank tree start c = elim (typed_fold_of folds start) [
  | some f ↦ f tree c
  | none ↦ fold_rule folds blank tree c
]

module _ {N : Type 0} (k : ContextTypes) (folds : ℕ → Option (TypedFold N)) (blank : N) where
  -- The value, and the caller's cursor afterwards. The dispatch of an alternation is on the
  -- branches from the one with the given index on; the last of them is not tested. A sequence folds
  -- its children from the cursor on.
  unfoldable mutual
    unfolding result_of fold_rep

    pub fold_expr : Expr → Option ℕ → ℕ → Fold (Value N × ℕ)
    fold_expr (terminal v) tree cur = pure (nothing, cur)
    fold_expr (terminal_seq vs) tree cur = pure (nothing, cur)
    fold_expr empty tree cur = pure (nothing, cur)
    fold_expr cut_expr tree cur = pure (nothing, cur)
    fold_expr (not_expr e) tree cur = pure (nothing, cur)
    fold_expr (and_expr e) tree cur = pure (nothing, cur)
    fold_expr (matcher fn) tree cur = pure (nothing, cur)
    fold_expr (token v) tree cur = do
      n ← deref tree
      x ← element_at n.start_offset
      pure (element x, cur)
    fold_expr (lexeme e) tree cur = fold_expr e tree cur
    fold_expr (alternation es) tree cur = dispatch 0 es tree cur
    fold_expr (zero_or_more e) tree cur =
        fold_rep (is_void (result_of k e)) (λ t. fold_expr e t 0) tree cur
    fold_expr (one_or_more e) tree cur =
        fold_rep (is_void (result_of k e)) (λ t. fold_expr e t 0) tree cur
    fold_expr (n_times e n) tree cur =
        fold_rep (is_void (result_of k e)) (λ t. fold_expr e t 0) tree cur
    fold_expr (optional e) tree cur =
        fold_optional (is_void (result_of k e)) (λ t. fold_expr e t 0) tree cur
    fold_expr (sequence es) tree cur = do
      (vs, end) ← fold_seq es tree cur
      pure ((if is_void (result_of k (sequence es)) then nothing else pack vs), end)
    fold_expr (rule id name) tree cur = do v ← fold_rule folds blank tree; pure (ast v, cur)

    pub dispatch : ℕ → Exprs → Option ℕ → ℕ → Fold (Value N × ℕ)
    dispatch index nil tree cur = pure (nothing, cur)
    dispatch index (cons e nil) tree cur = fold_expr e tree cur
    dispatch index (cons e (cons e' es)) tree cur = do
      n ← deref tree
      elim (is_winner n.alt_winner index) [
        | true ↦ fold_expr e tree cur
        | false ↦ dispatch (suc index) (cons e' es) tree cur
      ]

    pub fold_seq : Exprs → Option ℕ → ℕ → Fold (Values N × ℕ)
    fold_seq nil tree cur = pure (done, cur)
    fold_seq (cons e es) tree cur =
        when_void (is_void (result_of k e))
          (fold_seq es tree (if pushes_node e then suc cur else cur))
          (do
            n ← deref tree
            child ← child_at n.children cur
            (v, _) ← fold_expr e child 0
            (vs, end) ← fold_seq es tree (suc cur)
            pure (v ▹ vs, end))
