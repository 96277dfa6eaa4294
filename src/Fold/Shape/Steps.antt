-- ===== src/Fold/Shape/Steps.antt =====
-- The steps of the fold of include/peglib/ResultType.h on nodes that are there.
use peglib.Prelude.{
  ℕ, zero, suc, ◌<◌, ◌≡◌, refl, ap, ◌∙◌, Bool, true, false, List, [], ◌∷◌, All, Option, none, some,
  arith, drop, length, get_elem?,
}
use peglib.Context.{Context, ParseTreeNode}
use peglib.ResultType.{Ty, void, rep_of, opt_of}
use peglib.Fold.{
  Folded, folded, bad_index, undefined, too_nested, Fold, next_with, ◌>>=◌, pure, Value, deref,
  is_void, fold_each, fold_rep, fold_present, fold_optional,
}
use peglib.Fold.Shape.{Holds, Gives, tail}

module _ (ns : List ParseTreeNode) (xs : List ℕ) where
  pub Gives-then :
      {A B : Type 0} (o : Folded A) (f : A → Fold B)
      → Gives ns xs o
      → ((a : A) (d : Context) → Holds ns xs d → Gives ns xs (f a d))
      → Gives ns xs (next_with o f)
  Gives-then (folded a d) f g h = h a d g
  Gives-then bad_index f g h = g
  Gives-then undefined f g h = g
  Gives-then too_nested f g h = g

  pub Gives-deref :
      {B : Type 0} (t : ℕ) (n : ParseTreeNode) (c : Context) (f : ParseTreeNode → Fold B)
      → get_elem? ns t ≡ some n
      → Holds ns xs c
      → Gives ns xs (f n c)
      → Gives ns xs (next_with (deref (some t) c) f)
  Gives-deref t n c f found holds g =
      let at : get_elem? c.m_node_arena t ≡ some n =
        ap (λ (a : List ParseTreeNode). get_elem? a t) holds.arena ∙ found in
      rw (at, Gives) g

  module _ {N : Type 0} (f : Option ℕ → Fold (Value N × ℕ)) where
    -- The fold of the child returns.
    abbrev pub FoldsAt : Option ℕ → Type 0
    FoldsAt t = (c : Context) → Holds ns xs c → Gives ns xs (f t c)

    fold_each-Gives :
        (ts : List (Option ℕ))
        → All FoldsAt ts
        → (c : Context) → Holds ns xs c
        → Gives ns xs (fold_each (λ t. f t >>= λ r. pure r.0) ts c)
    unfolding fold_each
    fold_each-Gives [] all c holds = holds
    fold_each-Gives (t ∷ ts) (one, all) c holds =
        Gives-then (next_with (f t c) (λ r. pure r.0)) _
          (Gives-then (f t c) _ (one c holds) (λ r d h. h))
          λ v d h.
            Gives-then (fold_each (λ t. f t >>= λ r. pure r.0) ts d) _ (fold_each-Gives ts all d h)
              (λ vs d h. h)

    pub fold_rep-Gives :
        (b : Bool) (t : ℕ) (n : ParseTreeNode)
        → get_elem? ns t ≡ some n
        → All FoldsAt n.children
        → (c : Context) → Holds ns xs c
        → Gives ns xs (fold_rep b f (some t) 0 c)
    unfolding fold_rep
    fold_rep-Gives true t n found all c holds = Gives-deref t n c _ found holds holds
    fold_rep-Gives false t n found all c holds = Gives-deref t n c _ found holds (
        Gives-then (fold_each (λ t. f t >>= λ r. pure r.0) n.children c) _
          (fold_each-Gives n.children all c holds) (λ vs d h. h))

    fold_present-Gives :
        (ts : List (Option ℕ))
        → All FoldsAt ts
        → (c : Context) → Holds ns xs c
        → Gives ns xs (fold_present f (get_elem? ts 0) 0 c)
    fold_present-Gives [] all c holds = holds
    fold_present-Gives (none ∷ ts) all c holds = holds
    fold_present-Gives (some t ∷ ts) all c holds =
        Gives-then (f (some t) c) _ (all.0 c holds) (λ r d h. h)

    pub fold_optional-Gives :
        (b : Bool) (t : ℕ) (n : ParseTreeNode)
        → get_elem? ns t ≡ some n
        → All FoldsAt n.children
        → (c : Context) → Holds ns xs c
        → Gives ns xs (fold_optional b f (some t) 0 c)
    fold_optional-Gives true t n found all c holds = Gives-deref t n c _ found holds holds
    fold_optional-Gives false t n found all c holds =
        Gives-deref t n c _ found holds (fold_present-Gives n.children all c holds)

pub get_elem?-below : (xs : List ℕ) (i : ℕ) → i < length xs → (x : ℕ) × (get_elem? xs i ≡ some x)
get_elem?-below [] i h = absurd (omega arith)
get_elem?-below (x ∷ xs) zero h = (x, refl)
get_elem?-below (x ∷ xs) (suc i) h = get_elem?-below xs i (omega arith)

pub drop-tail : (ts : List (Option ℕ)) (cur : ℕ) → tail (drop cur ts) ≡ drop (suc cur) ts
drop-tail [] zero = refl
drop-tail [] (suc cur) = refl
drop-tail (t ∷ ts) zero = refl
drop-tail (t ∷ ts) (suc cur) = drop-tail ts cur

pub get_elem?-drop : (ts : List (Option ℕ)) (cur : ℕ) → get_elem? (drop cur ts) 0 ≡ get_elem? ts cur
get_elem?-drop [] zero = refl
get_elem?-drop [] (suc cur) = refl
get_elem?-drop (t ∷ ts) zero = refl
get_elem?-drop (t ∷ ts) (suc cur) = get_elem?-drop ts cur

-- A repetition or an option that has a value repeats an expression that has one.
pub lift-has_value :
    (s : Ty)
    → (is_void (some (rep_of s)) ≡ false → is_void (some s) ≡ false)
      × (is_void (some (opt_of s)) ≡ false → is_void (some s) ≡ false)
unfolding rep_of opt_of
lift-has_value void = (λ h. h, λ h. h)
lift-has_value s = (λ h. refl, λ h. refl)
