-- ===== src/ParseError/FromList.antt =====
-- The constructors of `ExpectedSet` in include/peglib/ParseError.h that take the items at once.
use peglib.Prelude.{
  ◌≡◌, refl, sym, ap, ◌∙◌, true, false, [], ◌∷◌, if◌then◌else◌, arith, inl, inr, Bool-cases,
}
use peglib.ParseError.{ExpectedItem, ExpectedSet, item_eq, item_lt, insert}
use peglib.ParseError.Order.{item_eq_iff, item_lt_irrefl}
use peglib.ParseError.Insert.{insert_rec, insert-eq-insert_rec}

-- `std::sort`
unfoldable pub place : ExpectedItem → ExpectedSet → ExpectedSet
place item [] = item ∷ []
place item (x ∷ xs) = if item_lt x item then x ∷ place item xs else item ∷ x ∷ xs

unfoldable pub sort : ExpectedSet → ExpectedSet
unfolding place
sort [] = []
sort (x ∷ xs) = place x (sort xs)

-- `std::unique`, behind an item that is kept.
unfoldable pub unique_after : ExpectedItem → ExpectedSet → ExpectedSet
unique_after item [] = []
unique_after item (x ∷ xs) = if item_eq item x then unique_after item xs else x ∷ unique_after x xs

unfoldable pub unique : ExpectedSet → ExpectedSet
unfolding unique_after
unique [] = []
unique (x ∷ xs) = x ∷ unique_after x xs

-- The constructor from a list sorts and drops what stands twice.
unfoldable pub from_list : ExpectedSet → ExpectedSet
from_list items = unique (sort items)

-- `from_sorted_unique` takes its argument as it is.
abbrev pub from_sorted_unique : ExpectedSet → ExpectedSet
from_sorted_unique items = items

-- The items inserted one by one into an empty set, from the last on.
unfoldable pub insert_all : ExpectedSet → ExpectedSet
unfolding insert
insert_all [] = []
insert_all (x ∷ xs) = (insert (insert_all xs) x).0

item_lt-not_eq : (a b : ExpectedItem) → item_lt a b ≡ true → item_eq a b ≡ false
item_lt-not_eq a b h = elim (Bool-cases (item_eq a b)) [
  | inl q ↦
      let same : a ≡ b = (item_eq_iff a b).0 q in
      let self : item_lt b b ≡ true = rw same at h in absurd (cc (item_lt_irrefl b))
  | inr q ↦ q
]

-- An item in front of one that is not less.
front :
    (x z : ExpectedItem) (zs : ExpectedSet)
    → item_lt z x ≡ false
    → x ∷ unique_after x (z ∷ zs) ≡ insert_rec (z ∷ unique_after z zs) x
unfolding unique_after insert_rec
front x z zs h = elim (Bool-cases (item_eq x z)) [
  | inl q ↦
      let same : x ≡ z = (item_eq_iff x z).0 q in
      let back : item_eq z x ≡ true = (item_eq_iff z x).1 (sym same) in
      rw (h, q, back) (ap (λ (y : ExpectedItem). y ∷ unique_after y zs) same)
  | inr q ↦
      let apart : item_eq z x ≡ false = ground (arith, item_eq_iff z x, item_eq_iff x z) in
      rw (h, q, apart) refl
]

-- Behind a smaller item.
unique_after-place :
    (y x : ExpectedItem) (zs : ExpectedSet)
    → item_lt y x ≡ true
    → unique_after y (place x zs) ≡ insert_rec (unique_after y zs) x
unfolding unique_after place insert_rec
unique_after-place y x [] h = rw (item_lt-not_eq y x h) refl
unique_after-place y x (z ∷ zs) h = elim (Bool-cases (item_lt z x)) [
  | inl p ↦ elim (Bool-cases (item_eq y z)) [
    | inl q ↦ rw (p, q) (unique_after-place y x zs h)
    | inr q ↦
        let left : unique_after y (place x (z ∷ zs)) ≡ z ∷ unique_after z (place x zs) =
          rw (p, q) refl in
        let right : z ∷ insert_rec (unique_after z zs) x ≡ insert_rec (unique_after y (z ∷ zs)) x =
          rw (q, p) refl in
        left ∙ ap (λ (s : ExpectedSet). z ∷ s) (unique_after-place z x zs p) ∙ right
  ]
  | inr p ↦
      let not_x = item_lt-not_eq y x h in
      let not_z : item_eq y z ≡ false = elim (Bool-cases (item_eq y z)) [
        | inl q ↦
            let same : y ≡ z = (item_eq_iff y z).0 q in
            let less : item_lt z x ≡ true = rw same at h in absurd cc
        | inr q ↦ q
      ] in
      let left : unique_after y (place x (z ∷ zs)) ≡ x ∷ unique_after x (z ∷ zs) =
        rw (p, not_x) refl in
      let right : insert_rec (z ∷ unique_after z zs) x ≡ insert_rec (unique_after y (z ∷ zs)) x =
        rw not_z refl in
      left ∙ front x z zs p ∙ right
]

unique-place :
    (x : ExpectedItem) (ys : ExpectedSet) → unique (place x ys) ≡ insert_rec (unique ys) x
unfolding unique place insert_rec
unique-place x [] = refl
unique-place x (y ∷ ys) = elim (Bool-cases (item_lt y x)) [
  | inl p ↦ rw (p, unique_after-place y x ys p) refl
  | inr p ↦
      let left : unique (place x (y ∷ ys)) ≡ x ∷ unique_after x (y ∷ ys) = rw p refl in
      left ∙ front x y ys p
]

-- The constructor of an expected set from a list, which sorts and drops what stands twice, builds
-- the set that inserting the items one by one builds.
pub from_list-insert_all : (items : ExpectedSet) → from_list items ≡ insert_all items
unfolding from_list sort unique insert_all
from_list-insert_all [] = refl
from_list-insert_all (x ∷ xs) =
    rw (unique-place x (sort xs), insert-eq-insert_rec (insert_all xs) x)
      (ap (λ (s : ExpectedSet). insert_rec s x) (from_list-insert_all xs))
