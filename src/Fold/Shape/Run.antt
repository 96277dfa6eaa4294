-- ===== src/Fold/Shape/Run.antt =====
-- The fold of include/peglib/ResultType.h on trees of the shape that it reads.
use peglib.Prelude.{
  ℕ, zero, suc, ◌+◌, ◌<◌, ◌≡◌, refl, sym, ap, ◌∙◌, subst, Bool, true, false, List, [], ◌∷◌, All,
  Option, none, some, inl, inr, Bool-cases, ◌==◌, if◌then◌else◌, arith, drop, length, get_elem?,
}
use peglib.Context.{Context, ParseTreeNode}
use peglib.Expr.{
  Expr, Exprs, nil, cons, token, sequence, alternation, zero_or_more, one_or_more, n_times,
  optional, lexeme, rule,
}
use peglib.ResultType.{
  Ty, void, TypeList, stop, ContextTypes, all_same, head, rep_of, opt_of, result_of, results_of,
}
use peglib.Fold.{
  Folded, folded, bad_index, undefined, too_nested, Fold, next_with, Value, element_at, is_void,
  child_at, pushes_node, TypedFold, fold_rule, fold_expr, dispatch, fold_seq,
}
use peglib.Fold.Actions.{fold}
use peglib.Fold.Arguments.{fold-HasType}
use peglib.Fold.Types.{HasType, Yields, lift-inv, push-inv, seq_of-inv, alt_of-inv, all_same-inv}
use peglib.Fold.Shape.{Holds, Gives, tail, Shape, SeqShape, AltShape}
use peglib.Fold.Shape.Steps.{
  Gives-then, Gives-deref, FoldsAt, fold_rep-Gives, fold_optional-Gives, get_elem?-below, drop-tail,
  get_elem?-drop, lift-has_value,
}

module _ {N : Type 0} (k : ContextTypes) (folds : ℕ → Option (TypedFold N)) (blank : N)
    (ns : List ParseTreeNode) (xs : List ℕ) where
  abbrev GivesExpr : Expr → Type 0
  GivesExpr e =
      (tree : Option ℕ)
      → Shape k folds blank ns xs e tree
      → (c : Context) → Holds ns xs c
      → Gives ns xs (fold_expr k folds blank e tree 0 c)

  no_value : (t : Ty) → some void ≡ some t → is_void (some t) ≡ false → ⊥
  no_value t h valued =
      let same : void ≡ t = cc in let wrong : true ≡ false = rw (← same) at valued in absurd cc

  Gives-child :
      {B : Type 0} (ts : List (Option ℕ)) (cur : ℕ) (t : Option ℕ) (c : Context)
      (f : Option ℕ → Fold B)
      → get_elem? ts cur ≡ some t
      → Gives ns xs (f t c)
      → Gives ns xs (next_with (child_at ts cur c) f)
  Gives-child ts cur t c f found g = rw (found, Gives) g

  -- The cursor after a child without a value.
  SeqShape-void :
      (es : Exprs) (b : Bool) (cur : ℕ) (ts : List (Option ℕ))
      → SeqShape k folds blank ns xs es (if b then tail (drop cur ts) else drop cur ts)
      → SeqShape k folds blank ns xs es (drop (if b then suc cur else cur) ts)
  SeqShape-void es true cur ts h = subst (SeqShape k folds blank ns xs es) (drop-tail ts cur) h
  SeqShape-void es false cur ts h = h

  -- The children of a repetition or an option, each by the expression's own fold.
  children_FoldsAt :
      (e : Expr) (ts : List (Option ℕ))
      → GivesExpr e
      → All (λ t. Shape k folds blank ns xs e t) ts
      → All (FoldsAt ns xs (λ t. fold_expr k folds blank e t 0)) ts
  children_FoldsAt e [] h all = tt
  children_FoldsAt e (t ∷ ts) h (one, all) = (h t one, children_FoldsAt e ts h all)

  element-Gives :
      (offset : ℕ) (c : Context)
      → Holds ns xs c
      → offset < length xs
      → Gives ns xs (element_at offset c)
  element-Gives offset c holds h =
      let (x, found) = get_elem?-below xs offset h in
      let at : get_elem? c.m_input offset ≡ some x =
        ap (λ (a : List ℕ). get_elem? a offset) holds.input ∙ found in
      rw (at, Gives) holds

  mutual
    unfolding fold_expr dispatch fold_seq result_of results_of

    fold_expr-Gives :
        (e : Expr) (t : Ty) → result_of k e ≡ some t → is_void (some t) ≡ false → GivesExpr e
    fold_expr-Gives (token v) t h valued (some id) (n, found, inside) c holds =
        Gives-deref ns xs id n c _ found holds (
          Gives-then ns xs (element_at n.start_offset c) _
            (element-Gives n.start_offset c holds inside) (λ x d h. h))
    fold_expr-Gives (lexeme e) t h valued tree shape c holds =
        fold_expr-Gives e t h valued tree shape c holds
    fold_expr-Gives (sequence es) t h valued (some id) (n, found, shape) c holds =
        let (ts, items, same) = seq_of-inv (results_of k es) t h in
        Gives-then ns xs (fold_seq k folds blank es (some id) 0 c) _
          (fold_seq-Gives es ts items id n found 0 shape c holds) (λ r d h. h)
    fold_expr-Gives (alternation es) t h valued (some id) (n, found, (i, won, shape)) c holds =
        let (ts, items, same, first) = alt_of-inv (results_of k es) t h in
        dispatch-Gives 0 i es ts t items same first valued id i n found won (omega arith) shape c
          holds
    fold_expr-Gives (zero_or_more e) t h valued (some id) (n, found, all) c holds =
        let (s, body, same) = lift-inv rep_of (result_of k e) t h in
        let inner : is_void (some s) ≡ false = (lift-has_value s).0 (rw same valued) in
        fold_rep-Gives ns xs (λ child. fold_expr k folds blank e child 0) (is_void (result_of k e))
          id n found (children_FoldsAt e n.children (fold_expr-Gives e s body inner) all) c holds
    fold_expr-Gives (one_or_more e) t h valued (some id) (n, found, all) c holds =
        let (s, body, same) = lift-inv rep_of (result_of k e) t h in
        let inner : is_void (some s) ≡ false = (lift-has_value s).0 (rw same valued) in
        fold_rep-Gives ns xs (λ child. fold_expr k folds blank e child 0) (is_void (result_of k e))
          id n found (children_FoldsAt e n.children (fold_expr-Gives e s body inner) all) c holds
    fold_expr-Gives (n_times e m) t h valued (some id) (n, found, all) c holds =
        let (s, body, same) = lift-inv rep_of (result_of k e) t h in
        let inner : is_void (some s) ≡ false = (lift-has_value s).0 (rw same valued) in
        fold_rep-Gives ns xs (λ child. fold_expr k folds blank e child 0) (is_void (result_of k e))
          id n found (children_FoldsAt e n.children (fold_expr-Gives e s body inner) all) c holds
    fold_expr-Gives (optional e) t h valued (some id) (n, found, all) c holds =
        let (s, body, same) = lift-inv opt_of (result_of k e) t h in
        let inner : is_void (some s) ≡ false = (lift-has_value s).1 (rw same valued) in
        fold_optional-Gives ns xs (λ child. fold_expr k folds blank e child 0)
          (is_void (result_of k e)) id n found
          (children_FoldsAt e n.children (fold_expr-Gives e s body inner) all) c holds
    fold_expr-Gives (rule rid name) t h valued tree shape c holds =
        Gives-then ns xs (fold_rule folds blank tree c) _ (shape c holds) (λ v d h. h)
    fold_expr-Gives (token v) t h valued none shape c holds = absurd shape
    fold_expr-Gives (sequence es) t h valued none shape c holds = absurd shape
    fold_expr-Gives (alternation es) t h valued none shape c holds = absurd shape
    fold_expr-Gives (zero_or_more e) t h valued none shape c holds = absurd shape
    fold_expr-Gives (one_or_more e) t h valued none shape c holds = absurd shape
    fold_expr-Gives (n_times e m) t h valued none shape c holds = absurd shape
    fold_expr-Gives (optional e) t h valued none shape c holds = absurd shape
    fold_expr-Gives e t h valued tree shape c holds = absurd (no_value t h valued)

    fold_seq-Gives :
        (es : Exprs) (ts : TypeList)
        → results_of k es ≡ some ts
        → (id : ℕ) (n : ParseTreeNode) → get_elem? ns id ≡ some n
        → (cur : ℕ) → SeqShape k folds blank ns xs es (drop cur n.children)
        → (c : Context) → Holds ns xs c
        → Gives ns xs (fold_seq k folds blank es (some id) cur c)
    fold_seq-Gives nil ts h id n found cur shape c holds = holds
    fold_seq-Gives (cons e es) ts h id n found cur shape c holds =
        let (s, ss, body, items, both) = push-inv (result_of k e) (results_of k es) ts h in
        elim (Bool-cases (is_void (result_of k e))) [
          | inl q ↦
              let behind : SeqShape k folds blank ns xs es
                  (if pushes_node e then tail (drop cur n.children) else drop cur n.children) =
                rw q at shape in
              rw (q, Gives)
                (fold_seq-Gives es ss items id n found (if pushes_node e then suc cur else cur)
                  (SeqShape-void es (pushes_node e) cur n.children behind) c holds)
          | inr q ↦
              let ahead : (t : Option ℕ) × (get_elem? (drop cur n.children) 0 ≡ some t)
                  × Shape k folds blank ns xs e t
                  × SeqShape k folds blank ns xs es (tail (drop cur n.children)) =
                rw q at shape in
              let (t, at, one, rest) = ahead in
              let next = subst (SeqShape k folds blank ns xs es) (drop-tail n.children cur) rest in
              let valued : is_void (some s) ≡ false = rw body at q in
              rw (q, Gives)
                (Gives-deref ns xs id n c _ found holds (
                  Gives-child n.children cur t c _ (sym (get_elem?-drop n.children cur) ∙ at) (
                    Gives-then ns xs (fold_expr k folds blank e t 0 c) _
                      (fold_expr-Gives e s body valued t one c holds)
                      λ r d hd.
                        Gives-then ns xs (fold_seq k folds blank es (some id) (suc cur) d) _
                          (fold_seq-Gives es ss items id n found (suc cur) next d hd)
                          (λ r' d' h'. h'))))
        ]

    dispatch-Gives :
        (index i : ℕ) (es : Exprs) (ts : TypeList) (t : Ty)
        → results_of k es ≡ some ts
        → all_same ts ≡ true
        → head ts ≡ some t
        → is_void (some t) ≡ false
        → (id winner : ℕ) (n : ParseTreeNode) → get_elem? ns id ≡ some n
        → n.alt_winner ≡ some winner
        → winner ≡ index + i
        → AltShape k folds blank ns xs i es (some id)
        → (c : Context) → Holds ns xs c
        → Gives ns xs (dispatch k folds blank index es (some id) 0 c)
    dispatch-Gives index zero nil ts t items same first valued id winner n found won at shape c
          holds =
        absurd shape
    dispatch-Gives index (suc i) nil ts t items same first valued id winner n found won at shape c
          holds =
        absurd shape
    dispatch-Gives index zero (cons e nil) ts t items same first valued id winner n found won at
          shape c holds =
        let (s, ss, body, rest, both) = push-inv (result_of k e) (some stop) ts items in
        fold_expr-Gives e t (body ∙ (rw (← both) at first)) valued (some id) shape c holds
    dispatch-Gives index (suc i) (cons e nil) ts t items same first valued id winner n found won at
          shape c holds =
        absurd shape
    dispatch-Gives index zero (cons e (cons e' es)) ts t items same first valued id winner n found
          won at shape c holds =
        let (s, ss, body, rest, both) =
          push-inv (result_of k e) (results_of k (cons e' es)) ts items in
        let here : (winner == index) ≡ true = ground arith in
        Gives-deref ns xs id n c _ found holds (
          rw (won, here)
            (fold_expr-Gives e t (body ∙ (rw (← both) at first)) valued (some id) shape c holds))
    dispatch-Gives index (suc i) (cons e (cons e' es)) ts t items same first valued id winner n
          found won at shape c holds =
        let (s, ss, body, rest, both) =
          push-inv (result_of k e) (results_of k (cons e' es)) ts items in
        let (s', ss', body', rest', both') = push-inv (result_of k e') (results_of k es) ss rest in
        let (one, more) = all_same-inv s s' ss' (rw (← both, ← both') at same) in
        let here : some s ≡ some t = rw (← both) at first in
        let next : head ss ≡ some t = rw (← both', ← one) here in
        let further : (winner == index) ≡ false = ground arith in
        Gives-deref ns xs id n c _ found holds (
          rw (won, further)
            (dispatch-Gives (suc index) i (cons e' es) ss t rest (rw (← both') more) next valued id
              winner n found won (omega arith) shape c holds))

-- The fold's value and the context it leaves.
returned :
    {A : Type 0} (P : A → Type 0) (ns : List ParseTreeNode) (xs : List ℕ) (o : Folded A)
    → Gives ns xs o
    → Yields P o
    → (a : A) × (d : Context) × (o ≡ folded a d) × P a × (d.m_node_arena ≡ ns)
returned P ns xs (folded a d) g y = (a, d, refl, y, g.arena)
returned P ns xs bad_index g y = absurd g
returned P ns xs undefined g y = absurd g
returned P ns xs too_nested g y = absurd g

-- If an expression has a result type other than void and the tree has the shape that the fold
-- reads (each node is in the arena, tokens start inside the input, an alternation's node holds
-- the branch that its tree is of, a child without a value has a node just if it is a matcher, and
-- the folds of the rules in it return and leave the tree alone), the fold returns a value of that
-- type, with no index out of range and no null pointer read, and leaves the tree alone.
pub fold-Shape :
    {N : Type 0} (k : ContextTypes) (folds : ℕ → Option (TypedFold N)) (blank : N) (e : Expr)
    (t : Ty) (tree : Option ℕ) (c : Context)
    → result_of k e ≡ some t
    → is_void (some t) ≡ false
    → Shape k folds blank c.m_node_arena c.m_input e tree
    → (v : Value N) × (d : Context) × (fold k folds blank e tree c ≡ folded v d)
      × HasType k v t
      × (d.m_node_arena ≡ c.m_node_arena)
unfolding fold
fold-Shape k folds blank e t tree c typed valued shape =
    let holds : Holds c.m_node_arena c.m_input c = record { arena = refl; input = refl } in
    returned (λ v. HasType k v t) c.m_node_arena c.m_input (fold k folds blank e tree c)
      (Gives-then c.m_node_arena c.m_input (fold_expr k folds blank e tree 0 c) _
        (fold_expr-Gives k folds blank c.m_node_arena c.m_input e t typed valued tree shape c holds)
        (λ r d h. h))
      (fold-HasType k folds blank e t tree c typed)
