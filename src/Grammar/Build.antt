-- ===== src/Grammar/Build.antt =====
-- Building a grammar through handles keeps it closed.
use peglib.Prelude.{
  ℕ, zero, suc, ◌≤◌, ◌<◌, ◌≡◌, refl, sym, ap, ◌∙◌, ◌⊎◌, subst, List, [], ◌∷◌, ◌++◌, Option, none,
  some, Bool-cases, inl, inr, arith, length, length-append, length-set, get_elem?, get_or, set,
}
use peglib.ParseError.{Bytes, bytes_eq}
use peglib.ParseError.Order.{bytes_eq_iff}
use peglib.Expr.{
  terminal, token, Expr, Exprs, nil, cons, matcher, sequence, alternation, zero_or_more,
  one_or_more, n_times, optional, not_expr, and_expr, lexeme, rule, NonTerminal, Grammar,
}
use peglib.Grammar.{find_rule}
use peglib.Grammar.Table.{blank_rule, entry_at, get_or_create, assign_rule, get_or_create_lem}
use peglib.Grammar.Handles.{Handle, handle_of, assign}
use peglib.Invariant.{IsDefined, IsSound, AreSound, IsClosed}

-- What is defined in the first grammar is so in the second.
abbrev DefinesMore : Grammar → Grammar → Type 0
DefinesMore g h = (id : ℕ) → IsDefined g id → IsDefined h id

mutual
  IsSound-more : (g h : Grammar) → DefinesMore g h → (e : Expr) → IsSound g e → IsSound h e
  IsSound-more g h m (terminal v) s = s
  IsSound-more g h m (token v) s = s
  IsSound-more g h m (matcher fn) s = s
  IsSound-more g h m (sequence es) s = AreSound-more g h m es s
  IsSound-more g h m (alternation es) s = AreSound-more g h m es s
  IsSound-more g h m (zero_or_more e) s = IsSound-more g h m e s
  IsSound-more g h m (one_or_more e) s = IsSound-more g h m e s
  IsSound-more g h m (n_times e n) s = IsSound-more g h m e s
  IsSound-more g h m (optional e) s = IsSound-more g h m e s
  IsSound-more g h m (not_expr e) s = IsSound-more g h m e s
  IsSound-more g h m (and_expr e) s = IsSound-more g h m e s
  IsSound-more g h m (lexeme e) s = IsSound-more g h m e s
  IsSound-more g h m (rule id name) s = m id s
  IsSound-more g h m _ s = tt

  AreSound-more : (g h : Grammar) → DefinesMore g h → (es : Exprs) → AreSound g es → AreSound h es
  AreSound-more g h m nil s = tt
  AreSound-more g h m (cons e es) (s, ss) = (IsSound-more g h m e s, AreSound-more g h m es ss)

-- A read after a write gives what was written, or what was there.
get_elem?-set :
    {A : Type 0} (xs : List A) (i j : ℕ) (v : A)
    → (get_elem? (set xs i v) j ≡ get_elem? xs j)
      ⊎ ((i ≡ j) × (j < length xs) × (get_elem? (set xs i v) j ≡ some v))
get_elem?-set [] i j v = inl refl
get_elem?-set (x ∷ xs) zero zero v = inr (refl, omega arith, refl)
get_elem?-set (x ∷ xs) zero (suc j) v = inl refl
get_elem?-set (x ∷ xs) (suc i) zero v = inl refl
get_elem?-set (x ∷ xs) (suc i) (suc j) v = elim (get_elem?-set xs i j v) [
  | inl h ↦ inl h
  | inr h ↦ inr (omega (arith, h.0), omega (arith, h.1), h.2)
]

-- The body of the object that was written is the one read.
body_written :
    (w nt : NonTerminal) (body e : Expr)
    → some w ≡ some nt
    → w.m_rule ≡ some body
    → nt.m_rule ≡ some e
    → body ≡ e
body_written w nt body e h b b' = let same : w ≡ nt = cc in cc

module _ (g : Grammar) (h : Handle) (body : Expr) where
  abbrev written : NonTerminal
  written = record (get_or g.non_terminals h.m_impl blank_rule) {
    m_rule = some body;
    m_name = h.m_name;
  }

  assign-DefinesMore : DefinesMore g (assign h body g)
  unfolding assign_rule
  assign-DefinesMore id (nt, e, found, b) =
      elim (get_elem?-set g.non_terminals h.m_impl id written) [
        | inl same ↦ (nt, e, same ∙ found, b)
        | inr (at, inside, new) ↦ (written, body, new, refl)
      ]

  assign-IsClosed : IsClosed g → IsSound (assign h body g) body → IsClosed (assign h body g)
  unfolding assign_rule
  assign-IsClosed closed sound = record { bodies = sound_bodies }
    where
      sound_bodies :
          (id : ℕ) (nt : NonTerminal) (e : Expr)
          → get_elem? (assign h body g).non_terminals id ≡ some nt
          → nt.m_rule ≡ some e
          → IsSound (assign h body g) e
      sound_bodies id nt e found b = elim (get_elem?-set g.non_terminals h.m_impl id written) [
        | inl same ↦
            IsSound-more g (assign h body g) assign-DefinesMore e
              (closed.bodies id nt e (sym same ∙ found) b)
        | inr (at, inside, new) ↦
            let same : body ≡ e = body_written written nt body e (sym new ∙ found) refl b in
            subst (IsSound (assign h body g)) same sound
      ]

get_elem?-append_left :
    {A : Type 0} (xs : List A) (v : A) (i : ℕ) (x : A)
    → get_elem? xs i ≡ some x
    → get_elem? (xs ++ v ∷ []) i ≡ some x
get_elem?-append_left [] v i x h = absurd cc
get_elem?-append_left (y ∷ ys) v zero x h = h
get_elem?-append_left (y ∷ ys) v (suc i) x h = get_elem?-append_left ys v i x h

-- What is read behind an append is what was appended, or was there.
get_elem?-append_cases :
    (xs : List NonTerminal) (v : NonTerminal) (i : ℕ) (x : NonTerminal)
    → get_elem? (xs ++ v ∷ []) i ≡ some x
    → (get_elem? xs i ≡ some x) ⊎ (v ≡ x)
get_elem?-append_cases [] v zero x h = inr cc
get_elem?-append_cases [] v (suc i) x h = absurd cc
get_elem?-append_cases (y ∷ ys) v zero x h = inl h
get_elem?-append_cases (y ∷ ys) v (suc i) x h = get_elem?-append_cases ys v i x h

-- The rules of the table are objects of the grammar.
abbrev pub IsTable : Grammar → Type 0
IsTable g =
    (name : Bytes) (id : ℕ) → find_rule g.m_rules name ≡ some id → id < length g.non_terminals

pub record IsBuilt (g : Grammar) : Type 0 where
  pub closed : IsClosed g
  pub table : IsTable g

module _ (name : Bytes) (g : Grammar) where
  abbrev entered : Grammar
  entered = (handle_of name g).0

  -- The handle's rule is a new object behind the others, or one of the table.
  handle_of_cases :
      ((entered.non_terminals ≡ g.non_terminals ++ blank_rule ∷ [])
        × ((handle_of name g).1.m_impl ≡ length g.non_terminals))
      ⊎ ((entered.non_terminals ≡ g.non_terminals)
          × (find_rule g.m_rules name ≡ some (handle_of name g).1.m_impl))
  unfolding get_or_create
  handle_of_cases = by_entry (find_rule g.m_rules name) refl
    where
      by_entry :
          (o : Option ℕ)
          → find_rule g.m_rules name ≡ o
          → (((entry_at name g o).0.non_terminals ≡ g.non_terminals ++ blank_rule ∷ [])
              × ((entry_at name g o).1 ≡ length g.non_terminals))
            ⊎ (((entry_at name g o).0.non_terminals ≡ g.non_terminals)
                × (find_rule g.m_rules name ≡ some (entry_at name g o).1))
      by_entry none h = inl (refl, refl)
      by_entry (some id) h = inr (refl, h)

  handle_of-DefinesMore : DefinesMore g entered
  handle_of-DefinesMore id (nt, e, found, b) = elim handle_of_cases [
    | inl (new, at) ↦ (
      nt,
      e,
      ap (λ (xs : List NonTerminal). get_elem? xs id) new
          ∙ get_elem?-append_left g.non_terminals blank_rule id nt found,
      b,
    )
    | inr (same, there) ↦ (nt, e, ap (λ (xs : List NonTerminal). get_elem? xs id) same ∙ found, b)
  ]

  handle_of-IsClosed : IsClosed g → IsClosed entered
  handle_of-IsClosed closed = record { bodies = sound_bodies }
    where
      sound_bodies :
          (id : ℕ) (nt : NonTerminal) (e : Expr)
          → get_elem? entered.non_terminals id ≡ some nt
          → nt.m_rule ≡ some e
          → IsSound entered e
      sound_bodies id nt e found b = elim handle_of_cases [
        | inl (new, at) ↦
            let shifted = sym (ap (λ (xs : List NonTerminal). get_elem? xs id) new) ∙ found in
            elim (get_elem?-append_cases g.non_terminals blank_rule id nt shifted) [
              | inl old ↦
                  IsSound-more g entered handle_of-DefinesMore e (closed.bodies id nt e old b)
              | inr blank ↦
                  let no : none ≡ some e = ap (λ (x : NonTerminal). x.m_rule) blank ∙ b in absurd cc
            ]
        | inr (same, there) ↦
            let old = sym (ap (λ (xs : List NonTerminal). get_elem? xs id) same) ∙ found in
            IsSound-more g entered handle_of-DefinesMore e (closed.bodies id nt e old b)
      ]

  handle_of-impl :
      IsTable g
      → ((handle_of name g).1.m_impl < length entered.non_terminals)
        × (length g.non_terminals ≤ length entered.non_terminals)
  handle_of-impl table = elim handle_of_cases [
    | inl (new, at) ↦
        let longer = length-append g.non_terminals (blank_rule ∷ []) in
        let size = ap (length {A = NonTerminal}) new in
        (omega (arith, longer, size, at), omega (arith, longer, size))
    | inr (same, there) ↦
        let size = ap (length {A = NonTerminal}) same in
        (omega (arith, size, table name (handle_of name g).1.m_impl there), omega (arith, size))
  ]

  handle_of-IsTable : IsTable g → IsTable entered
  handle_of-IsTable table other id found =
      let (here, elsewhere, again) = get_or_create_lem name g in
      let (fits, longer) = handle_of-impl table in
      elim (Bool-cases (bytes_eq name other)) [
        | inl q ↦
            let same : name ≡ other = (bytes_eq_iff name other).0 q in
            let at : some (handle_of name g).1.m_impl ≡ some id =
              sym here ∙ (ap (λ (x : Bytes). find_rule entered.m_rules x) same ∙ found) in
            let ids : (handle_of name g).1.m_impl ≡ id = cc in omega (arith, fits, ids)
        | inr q ↦ omega (arith, longer, table other id (sym (elsewhere other q) ∙ found))
      ]

-- `grammar[name] = body`
abbrev pub define_rule : Bytes → Expr → Grammar → Grammar
define_rule name body g = assign (handle_of name g).1 body (handle_of name g).0

get_elem?-written :
    {A : Type 0} (xs : List A) (i : ℕ) (v : A) → i < length xs → get_elem? (set xs i v) i ≡ some v
get_elem?-written [] i v h = absurd (omega arith)
get_elem?-written (x ∷ xs) zero v h = refl
get_elem?-written (x ∷ xs) (suc i) v h = get_elem?-written xs i v (omega arith)

-- If a grammar is closed, its table holds its own rules only and the body is sound in the grammar
-- that results, then grammar[name] = body leaves the grammar closed and the table so, and the
-- name is in the table at an assigned rule.
pub define_rule-IsBuilt :
    (name : Bytes) (body : Expr) (g : Grammar)
    → IsBuilt g
    → IsSound (define_rule name body g) body
    → IsBuilt (define_rule name body g)
      × ((id : ℕ) × (find_rule (define_rule name body g).m_rules name ≡ some id)
          × IsDefined (define_rule name body g) id)
unfolding assign_rule
define_rule-IsBuilt name body g built sound =
    let g' = (handle_of name g).0 in
    let h = (handle_of name g).1 in
    let (fits, longer) = handle_of-impl name g built.table in
    let kept = length-set g'.non_terminals h.m_impl (written g' h body) in
    (
      record {
        closed = assign-IsClosed g' h body (handle_of-IsClosed name g built.closed) sound;
        table = λ other id found.
            omega (arith, kept, handle_of-IsTable name g built.table other id found);
      },
      (
        h.m_impl,
        (get_or_create_lem name g).0,
        (
          written g' h body,
          body,
          get_elem?-written g'.non_terminals h.m_impl (written g' h body) fits,
          refl,
        ),
      ),
    )
