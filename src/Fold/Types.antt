-- ===== src/Fold/Types.antt =====
-- The types of the values that the fold builds.
pub mod Run
use peglib.Prelude.{
  ℕ, suc, ◌≡◌, refl, ap, ◌∙◌, true, false, List, [], ◌∷◌, Option, none, some, inl, inr, Bool-cases,
  if◌then◌else◌, arith, drop, get_elem?,
}
use peglib.Context.{Context}
use peglib.Expr.{
  Expr, Exprs, nil, cons, terminal, terminal_seq, token, matcher, empty, sequence, alternation,
  zero_or_more, one_or_more, n_times, optional, not_expr, and_expr, cut_expr, lexeme, rule,
}
use peglib.ResultType.{
  Ty, void, other, vector, optional_of, tuple, TypeList, stop, ◌▸◌, ContextTypes, filter_void,
  collapse, all_same, head, is_same, are_same, rep_of, opt_of, lift, push, seq_of, alt_of,
  result_of, results_of,
}
use peglib.Fold.{
  Folded, folded, bad_index, undefined, too_nested, Fold, next_with, ◌>>=◌, pure, Value, nothing,
  nullopt, element, ast, just, vector_of, tuple_of, Values, done, ◌▹◌, deref, element_at, is_void,
  when_void, is_winner, child_at, pushes_node, fold_each, fold_rep, fold_present, fold_optional,
  pack, TypedFold, fold_rule, fold_expr, dispatch, fold_seq,
}

module _ {N : Type 0} (k : ContextTypes) where
  abbrev mutual
    pub HasType : Value N → Ty → Type 0
    HasType nothing void = Unit
    HasType (element x) (other n) = n ≡ k.value_type
    HasType (ast a) (other n) = n ≡ k.node_type
    HasType nullopt (optional_of t) = Unit
    HasType (just v) (optional_of t) = HasType v t
    HasType (vector_of vs) (vector t) = AllHave vs t
    HasType (tuple_of vs) (tuple ts) = HaveTypes vs ts
    HasType _ _ = ⊥

    pub AllHave : Values N → Ty → Type 0
    AllHave done t = Unit
    AllHave (v ▹ vs) t = HasType v t × AllHave vs t

    pub HaveTypes : Values N → TypeList → Type 0
    HaveTypes done stop = Unit
    HaveTypes (v ▹ vs) (t ▸ ts) = HasType v t × HaveTypes vs ts
    HaveTypes _ _ = ⊥

-- What holds of the value, if there is one.
abbrev pub Yields : {A : Type 0} → (A → Type 0) → Folded A → Type 0
Yields P (folded a d) = P a
Yields P bad_index = Unit
Yields P undefined = Unit
Yields P too_nested = Unit

module _ {A B : Type 0} (P : B → Type 0) where
  pub Yields-bind :
      (Q : A → Type 0) (o : Folded A) (f : A → Fold B)
      → Yields Q o
      → ((a : A) (d : Context) → Q a → Yields P (f a d))
      → Yields P (next_with o f)
  Yields-bind Q (folded a d) f y h = h a d y
  Yields-bind Q bad_index f y h = tt
  Yields-bind Q undefined f y h = tt
  Yields-bind Q too_nested f y h = tt

  pub Yields-then :
      (o : Folded A) (f : A → Fold B)
      → ((a : A) (d : Context) → Yields P (f a d))
      → Yields P (next_with o f)
  Yields-then (folded a d) f h = h a d
  Yields-then bad_index f h = tt
  Yields-then undefined f h = tt
  Yields-then too_nested f h = tt

mutual
  unfolding is_same

  is_same-≡ : (s t : Ty) → is_same s t ≡ true → s ≡ t
  is_same-≡ void void h = refl
  is_same-≡ (other n) (other m) h = let e : n ≡ m = ground arith in rw e refl
  is_same-≡ (vector s) (vector t) h = ap vector (is_same-≡ s t h)
  is_same-≡ (optional_of s) (optional_of t) h = ap optional_of (is_same-≡ s t h)
  is_same-≡ (tuple ss) (tuple ts) h = ap tuple (are_same-≡ ss ts h)
  is_same-≡ _ _ h = absurd cc

  are_same-≡ : (ss ts : TypeList) → are_same ss ts ≡ true → ss ≡ ts
  are_same-≡ stop stop h = refl
  are_same-≡ (s ▸ ss) (t ▸ ts) h =
      let one : is_same s t ≡ true = ground arith in
      let more : are_same ss ts ≡ true = ground arith in
      rw (is_same-≡ s t one, are_same-≡ ss ts more) refl
  are_same-≡ _ _ h = absurd cc

pub lift-inv :
    (f : Ty → Ty) (o : Option Ty) (t : Ty) → lift f o ≡ some t → (s : Ty) × (o ≡ some s) × (f s ≡ t)
lift-inv f none t h = absurd cc
lift-inv f (some s) t h = (s, refl, cc)

pub push-inv :
    (o : Option Ty) (os : Option TypeList) (ts : TypeList)
    → push o os ≡ some ts
    → (s : Ty) × (ss : TypeList) × (o ≡ some s) × (os ≡ some ss) × (s ▸ ss ≡ ts)
push-inv none none ts h = absurd cc
push-inv none (some ss) ts h = absurd cc
push-inv (some s) none ts h = absurd cc
push-inv (some s) (some ss) ts h = (s, ss, refl, refl, cc)

pub seq_of-inv :
    (o : Option TypeList) (t : Ty)
    → seq_of o ≡ some t
    → (ts : TypeList) × (o ≡ some ts) × (collapse (filter_void ts) ≡ t)
seq_of-inv none t h = absurd cc
seq_of-inv (some ts) t h = (ts, refl, cc)

pub alt_of-inv :
    (o : Option TypeList) (t : Ty)
    → alt_of o ≡ some t
    → (ts : TypeList) × (o ≡ some ts) × (all_same ts ≡ true) × (head ts ≡ some t)
alt_of-inv none t h = absurd cc
alt_of-inv (some ts) t h = elim (Bool-cases (all_same ts)) [
  | inl q ↦ (ts, refl, q, rw q at h)
  | inr q ↦ let no : none ≡ some t = rw q at h in absurd cc
]

pub all_same-inv :
    (s t : Ty) (ts : TypeList)
    → all_same (s ▸ (t ▸ ts)) ≡ true
    → (s ≡ t) × (all_same (t ▸ ts) ≡ true)
unfolding all_same
all_same-inv s t ts h =
    let one : is_same s t ≡ true = ground arith in (is_same-≡ s t one, ground arith)
