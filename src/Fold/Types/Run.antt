-- ===== src/Fold/Types/Run.antt =====
-- The fold of include/peglib/ResultType.h, step by step, with the types of its values.
use peglib.Prelude.{
  ℕ, suc, ◌≡◌, refl, ◌∙◌, true, false, List, [], ◌∷◌, Option, none, some, inl, inr, Bool-cases,
  if◌then◌else◌, drop, get_elem?,
}
use peglib.Context.{Context}
use peglib.Expr.{
  Expr, Exprs, nil, cons, terminal, terminal_seq, token, matcher, empty, sequence, alternation,
  zero_or_more, one_or_more, n_times, optional, not_expr, and_expr, cut_expr, lexeme, rule,
}
use peglib.ResultType.{
  Ty, void, other, vector, optional_of, TypeList, stop, ◌▸◌, ContextTypes, filter_void, collapse,
  all_same, head, rep_of, opt_of, result_of, results_of,
}
use peglib.Fold.{
  Fold, next_with, ◌>>=◌, pure, Value, nothing, element, ast, Values, done, ◌▹◌, deref, element_at,
  is_void, when_void, is_winner, child_at, pushes_node, fold_each, fold_rep, fold_present,
  fold_optional, pack, TypedFold, fold_rule, fold_expr, dispatch, fold_seq,
}
use peglib.Fold.Types.{
  HasType, AllHave, HaveTypes, Yields, Yields-bind, Yields-then, lift-inv, push-inv, seq_of-inv,
  alt_of-inv, all_same-inv,
}

module _ {N : Type 0} (k : ContextTypes) where
  -- The value of a step with a cursor.
  abbrev pub IsOf : Ty → Value N × ℕ → Type 0
  IsOf t r = HasType k r.0 t

  abbrev pub FoldsTo : (Option ℕ → Fold (Value N × ℕ)) → Ty → Type 0
  FoldsTo f t = (tree : Option ℕ) (c : Context) → Yields (IsOf t) (f tree c)

  module _ (f : Option ℕ → Fold (Value N × ℕ)) (t : Ty) (typed : FoldsTo f t) where
    fold_each-AllHave :
        (trees : List (Option ℕ)) (c : Context)
        → Yields (λ vs. AllHave k vs t) (fold_each (λ tree. f tree >>= λ r. pure r.0) trees c)
    unfolding fold_each
    fold_each-AllHave [] c = tt
    fold_each-AllHave (tree ∷ trees) c =
        Yields-bind (λ vs. AllHave k vs t) (λ v. HasType k v t)
          (next_with (f tree c) (λ r. pure r.0)) _
          (Yields-bind (λ v. HasType k v t) (IsOf t) (f tree c) _ (typed tree c) (λ r d h. h))
          λ v d h.
            Yields-bind (λ vs. AllHave k vs t) (λ vs. AllHave k vs t)
              (fold_each (λ tree. f tree >>= λ r. pure r.0) trees d) _ (fold_each-AllHave trees d)
              λ vs d hs. (h, hs)

    fold_vector-IsOf :
        (tree : Option ℕ) (cur : ℕ) (c : Context)
        → Yields (IsOf (vector t)) (fold_rep false f tree cur c)
    unfolding fold_rep
    fold_vector-IsOf tree cur c = Yields-then (IsOf (vector t)) (deref tree c) _ λ n d.
        Yields-bind (IsOf (vector t)) (λ vs. AllHave k vs t)
          (fold_each (λ tree. f tree >>= λ r. pure r.0) (drop cur n.children) d) _
          (fold_each-AllHave (drop cur n.children) d) (λ vs d h. h)

    fold_present-IsOf :
        (child : Option (Option ℕ)) (cur : ℕ) (c : Context)
        → Yields (IsOf (optional_of t)) (fold_present f child cur c)
    fold_present-IsOf (some (some id)) cur c =
        Yields-bind (IsOf (optional_of t)) (IsOf t) (f (some id) c) _ (typed (some id) c)
          (λ r d h. h)
    fold_present-IsOf (some none) cur c = tt
    fold_present-IsOf none cur c = tt

    fold_maybe-IsOf :
        (tree : Option ℕ) (cur : ℕ) (c : Context)
        → Yields (IsOf (optional_of t)) (fold_optional false f tree cur c)
    fold_maybe-IsOf tree cur c =
        Yields-then (IsOf (optional_of t)) (deref tree c) _
          λ n d. fold_present-IsOf (get_elem? n.children cur) cur d

  fold_rep-IsOf :
      (f : Option ℕ → Fold (Value N × ℕ)) (t : Ty)
      → FoldsTo f t
      → (tree : Option ℕ) (cur : ℕ) (c : Context)
      → Yields (IsOf (rep_of t)) (fold_rep (is_void (some t)) f tree cur c)
  unfolding rep_of fold_rep
  fold_rep-IsOf f void typed tree cur c = Yields-then (IsOf void) (deref tree c) _ (λ n d. tt)
  fold_rep-IsOf f t typed tree cur c = fold_vector-IsOf f t typed tree cur c

  fold_optional-IsOf :
      (f : Option ℕ → Fold (Value N × ℕ)) (t : Ty)
      → FoldsTo f t
      → (tree : Option ℕ) (cur : ℕ) (c : Context)
      → Yields (IsOf (opt_of t)) (fold_optional (is_void (some t)) f tree cur c)
  unfolding opt_of
  fold_optional-IsOf f void typed tree cur c = Yields-then (IsOf void) (deref tree c) _ (λ n d. tt)
  fold_optional-IsOf f t typed tree cur c = fold_maybe-IsOf f t typed tree cur c

  -- The values of a sequence's children that are not void.
  abbrev AreOf : TypeList → Values N × ℕ → Type 0
  AreOf ts r = HaveTypes k r.0 ts

  seq_step-AreOf :
      (s : Ty) (ts : TypeList) (x y : Fold (Values N × ℕ)) (c : Context)
      → Yields (AreOf (filter_void ts)) (x c)
      → Yields (AreOf (s ▸ filter_void ts)) (y c)
      → Yields (AreOf (filter_void (s ▸ ts))) (when_void (is_void (some s)) x y c)
  unfolding filter_void
  seq_step-AreOf void ts x y c hx hy = hx
  seq_step-AreOf s ts x y c hx hy = hy

  pack-HasType :
      (vs : Values N) (ts : TypeList)
      → HaveTypes k vs ts
      → HasType k (if is_void (some (collapse ts)) then nothing else pack vs) (collapse ts)
  unfolding collapse
  pack-HasType done stop h = tt
  pack-HasType (v ▹ done) (void ▸ stop) h = tt
  pack-HasType (v ▹ done) (t ▸ stop) h = h.0
  pack-HasType (v ▹ (w ▹ vs)) (s ▸ (t ▸ ts)) h = h
  pack-HasType done (t ▸ ts) h = absurd h
  pack-HasType (v ▹ vs) stop h = absurd h
  pack-HasType (v ▹ done) (s ▸ (t ▸ ts)) h = absurd h.1
  pack-HasType (v ▹ (w ▹ vs)) (t ▸ stop) h = absurd h.1

  is_of : (v : Value N) (s t : Ty) → some s ≡ some t → HasType k v s → HasType k v t
  is_of v s t h y = let e : s ≡ t = cc in rw (← e) y

  module _ (folds : ℕ → Option (TypedFold N)) (blank : N) where
    mutual
      unfolding fold_expr dispatch fold_seq result_of results_of filter_void

      pub fold_expr-IsOf :
          (e : Expr) (t : Ty)
          → result_of k e ≡ some t
          → (tree : Option ℕ) (cur : ℕ) (c : Context)
          → Yields (IsOf t) (fold_expr k folds blank e tree cur c)
      fold_expr-IsOf (terminal v) t h tree cur c = is_of nothing void t h tt
      fold_expr-IsOf (terminal_seq vs) t h tree cur c = is_of nothing void t h tt
      fold_expr-IsOf empty t h tree cur c = is_of nothing void t h tt
      fold_expr-IsOf cut_expr t h tree cur c = is_of nothing void t h tt
      fold_expr-IsOf (not_expr e) t h tree cur c = is_of nothing void t h tt
      fold_expr-IsOf (and_expr e) t h tree cur c = is_of nothing void t h tt
      fold_expr-IsOf (matcher fn) t h tree cur c = is_of nothing void t h tt
      fold_expr-IsOf (token v) t h tree cur c = Yields-then (IsOf t) (deref tree c) _ λ n d.
          Yields-then (IsOf t) (element_at n.start_offset d) _
            λ x d'. is_of (element x) (other k.value_type) t h refl
      fold_expr-IsOf (lexeme e) t h tree cur c = fold_expr-IsOf e t h tree cur c
      fold_expr-IsOf (alternation es) t h tree cur c =
          let (ts, items, same, first) = alt_of-inv (results_of k es) t h in
          dispatch-IsOf 0 es ts t items same first tree cur c
      fold_expr-IsOf (zero_or_more e) t h tree cur c =
          let (s, body, e_t) = lift-inv rep_of (result_of k e) t h in
          rw (body, ← e_t)
            (fold_rep-IsOf (λ child. fold_expr k folds blank e child 0) s
              (λ child d. fold_expr-IsOf e s body child 0 d) tree cur c)
      fold_expr-IsOf (one_or_more e) t h tree cur c =
          let (s, body, e_t) = lift-inv rep_of (result_of k e) t h in
          rw (body, ← e_t)
            (fold_rep-IsOf (λ child. fold_expr k folds blank e child 0) s
              (λ child d. fold_expr-IsOf e s body child 0 d) tree cur c)
      fold_expr-IsOf (n_times e n) t h tree cur c =
          let (s, body, e_t) = lift-inv rep_of (result_of k e) t h in
          rw (body, ← e_t)
            (fold_rep-IsOf (λ child. fold_expr k folds blank e child 0) s
              (λ child d. fold_expr-IsOf e s body child 0 d) tree cur c)
      fold_expr-IsOf (optional e) t h tree cur c =
          let (s, body, e_t) = lift-inv opt_of (result_of k e) t h in
          rw (body, ← e_t)
            (fold_optional-IsOf (λ child. fold_expr k folds blank e child 0) s
              (λ child d. fold_expr-IsOf e s body child 0 d) tree cur c)
      fold_expr-IsOf (sequence es) t h tree cur c =
          let (ts, items, e_t) = seq_of-inv (results_of k es) t h in
          rw (h, ← e_t)
            (Yields-bind (IsOf (collapse (filter_void ts))) (AreOf (filter_void ts))
              (fold_seq k folds blank es tree cur c) _ (fold_seq-AreOf es ts items tree cur c)
              (λ r d hs. pack-HasType r.0 (filter_void ts) hs))
      fold_expr-IsOf (rule id name) t h tree cur c =
          Yields-then (IsOf t) (fold_rule folds blank tree c) _
            λ a d. is_of (ast a) (other k.node_type) t h refl

      fold_seq-AreOf :
          (es : Exprs) (ts : TypeList)
          → results_of k es ≡ some ts
          → (tree : Option ℕ) (cur : ℕ) (c : Context)
          → Yields (AreOf (filter_void ts)) (fold_seq k folds blank es tree cur c)
      fold_seq-AreOf nil ts h tree cur c = let e : stop ≡ ts = cc in rw (← e) tt
      fold_seq-AreOf (cons e es) ts h tree cur c =
          let (s, ss, body, items, both) = push-inv (result_of k e) (results_of k es) ts h in
          rw (body, ← both)
            (seq_step-AreOf s ss _ _ c
              (fold_seq-AreOf es ss items tree (if pushes_node e then suc cur else cur) c)
              (Yields-then (AreOf (s ▸ filter_void ss)) (deref tree c) _ λ n d.
                Yields-then (AreOf (s ▸ filter_void ss)) (child_at n.children cur d) _ λ child d'.
                  Yields-bind (AreOf (s ▸ filter_void ss)) (IsOf s)
                    (fold_expr k folds blank e child 0 d') _ (fold_expr-IsOf e s body child 0 d')
                    λ r d'' y.
                      Yields-bind (AreOf (s ▸ filter_void ss)) (AreOf (filter_void ss))
                        (fold_seq k folds blank es tree (suc cur) d'') _
                        (fold_seq-AreOf es ss items tree (suc cur) d'') (λ q z hs. (y, hs))))

      dispatch-IsOf :
          (index : ℕ) (es : Exprs) (ts : TypeList) (t : Ty)
          → results_of k es ≡ some ts
          → all_same ts ≡ true
          → head ts ≡ some t
          → (tree : Option ℕ) (cur : ℕ) (c : Context)
          → Yields (IsOf t) (dispatch k folds blank index es tree cur c)
      dispatch-IsOf index nil ts t h same first tree cur c =
          let e : stop ≡ ts = cc in let no : none ≡ some t = rw (← e) at first in absurd cc
      dispatch-IsOf index (cons e nil) ts t h same first tree cur c =
          let (s, ss, body, items, both) = push-inv (result_of k e) (some stop) ts h in
          fold_expr-IsOf e t (body ∙ (rw (← both) at first)) tree cur c
      dispatch-IsOf index (cons e (cons e' es)) ts t h same first tree cur c =
          let (s, ss, body, items, both) =
            push-inv (result_of k e) (results_of k (cons e' es)) ts h in
          let (s', ss', body', items', both') =
            push-inv (result_of k e') (results_of k es) ss items in
          let (one, more) = all_same-inv s s' ss' (rw (← both, ← both') at same) in
          let here : some s ≡ some t = rw (← both) at first in
          let next : head ss ≡ some t = rw (← both', ← one) here in
          Yields-then (IsOf t) (deref tree c) _ λ n d.
            elim (Bool-cases (is_winner n.alt_winner index)) [
              | inl q ↦ rw q (fold_expr-IsOf e t (body ∙ here) tree cur d)
              | inr q ↦ rw q (
                  dispatch-IsOf (suc index) (cons e' es) ss t items (rw (← both') more) next tree
                    cur d)
            ]
