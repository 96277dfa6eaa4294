-- ===== src/ParseError/Insert.antt =====
-- `ExpectedSet::insert` of include/peglib/ParseError.h as a set operation.
use peglib.Prelude.{
  true, false, [], ◌∷◌, ◌≡◌, refl, ◌⊎◌, inl, inr, ◌↔◌, All, if◌then◌else◌, arith, Bool-cases,
}
use peglib.ParseError.{ExpectedItem, ExpectedSet, item_eq, item_lt, lower_bound, insert_at, insert}
use peglib.ParseError.Order.{item_eq_iff, item_lt_trans, item_lt_total}

-- Strictly ascending, hence with no item twice.
abbrev pub IsAscending : ExpectedSet → Type 0
IsAscending [] = Unit
IsAscending (x ∷ xs) = All (λ y. item_lt x y ≡ true) xs × IsAscending xs

-- The item is in the set.
abbrev pub Has : ExpectedItem → ExpectedSet → Type 0
Has a [] = ⊥
Has a (x ∷ xs) = (x ≡ a) ⊎ Has a xs

-- `insert`, read as one recursion over the vector.
unfoldable pub insert_rec : ExpectedSet → ExpectedItem → ExpectedSet
insert_rec [] item = item ∷ []
insert_rec (x ∷ xs) item =
    if item_lt x item
    then x ∷ insert_rec xs item
    else if item_eq x item
    then x ∷ xs
    else item ∷ x ∷ xs

pub insert-eq-insert_rec :
    (s : ExpectedSet) (item : ExpectedItem) → (insert s item).0 ≡ insert_rec s item
unfolding insert insert_rec lower_bound insert_at
insert-eq-insert_rec [] item = refl
insert-eq-insert_rec (x ∷ xs) item = ground (arith, insert-eq-insert_rec xs item)

All-insert_rec :
    (a : ExpectedItem) (s : ExpectedSet) (item : ExpectedItem)
    → item_lt a item ≡ true
    → All (λ y. item_lt a y ≡ true) s
    → All (λ y. item_lt a y ≡ true) (insert_rec s item)
unfolding insert_rec
All-insert_rec a [] item p h = (p, tt)
All-insert_rec a (x ∷ xs) item p h = ground (arith, All-insert_rec a xs item)

All-item_lt_trans :
    (a b : ExpectedItem) (s : ExpectedSet)
    → item_lt a b ≡ true
    → All (λ y. item_lt b y ≡ true) s
    → All (λ y. item_lt a y ≡ true) s
All-item_lt_trans a b [] p h = tt
All-item_lt_trans a b (x ∷ xs) p h = (item_lt_trans a b x p h.0, All-item_lt_trans a b xs p h.1)

insert_rec-IsAscending :
    (s : ExpectedSet) (item : ExpectedItem) → IsAscending s → IsAscending (insert_rec s item)
unfolding insert_rec
insert_rec-IsAscending [] item h = (tt, tt)
insert_rec-IsAscending (x ∷ xs) item h = elim (Bool-cases (item_lt x item)) [
  | inl p ↦ rw p (All-insert_rec x xs item p h.0, insert_rec-IsAscending xs item h.1)
  | inr p ↦ rw p (elim (Bool-cases (item_eq x item)) [
    | inl q ↦ rw q h
    | inr q ↦ rw q ((below x item p q, All-item_lt_trans item x xs (below x item p q) h.0), h)
  ])
]
  where
    below :
        (x item : ExpectedItem)
        → item_lt x item ≡ false
        → item_eq x item ≡ false
        → item_lt item x ≡ true
    below x item p q = elim (Bool-cases (item_lt item x)) [
      | inl r ↦ r
      | inr r ↦ cc ((item_eq_iff x item).1 (item_lt_total x item p r))
    ]

-- Inserting into a strictly ascending expected set gives a strictly ascending one, so it is
-- sorted and free of duplicates.
pub insert-IsAscending :
    (s : ExpectedSet) (item : ExpectedItem) → IsAscending s → IsAscending (insert s item).0
insert-IsAscending s item h = rw insert-eq-insert_rec (insert_rec-IsAscending s item h)

Has-insert_rec :
    (s : ExpectedSet) (item a : ExpectedItem) → Has a (insert_rec s item) ↔ ((item ≡ a) ⊎ Has a s)
unfolding insert_rec
Has-insert_rec [] item a = ground arith
Has-insert_rec (x ∷ xs) item a = ground (arith, Has-insert_rec xs item a, item_eq_iff x item)

-- An expected set after an insert holds the item and what it held before, and nothing else.
pub Has-insert :
    (s : ExpectedSet) (item a : ExpectedItem) → Has a (insert s item).0 ↔ ((item ≡ a) ⊎ Has a s)
Has-insert s item a = rw insert-eq-insert_rec (Has-insert_rec s item a)
