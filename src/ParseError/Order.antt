-- ===== src/ParseError/Order.antt =====
-- The order on expected items (include/peglib/ParseError.h).
use peglib.Prelude.{true, false, [], ◌∷◌, ◌≡◌, refl, arith, ◌↔◌}
use peglib.ParseError.{
  Bytes, ExpectedKind, ExpectedItem, rank, bytes_eq, bytes_lt, item_eq, item_lt, rule_label,
  rule_name, literal, range,
}

pub bytes_eq_iff : (s t : Bytes) → (bytes_eq s t ≡ true) ↔ (s ≡ t)
unfolding bytes_eq
bytes_eq_iff [] [] = ground arith
bytes_eq_iff [] (b ∷ t) = ground arith
bytes_eq_iff (a ∷ s) [] = ground arith
bytes_eq_iff (a ∷ s) (b ∷ t) = ground (arith, bytes_eq_iff s t)

bytes_lt_irrefl : (s : Bytes) → bytes_lt s s ≡ false
unfolding bytes_lt
bytes_lt_irrefl [] = refl
bytes_lt_irrefl (a ∷ s) = ground (arith, bytes_lt_irrefl s)

bytes_lt_trans : (s t u : Bytes) → bytes_lt s t ≡ true → bytes_lt t u ≡ true → bytes_lt s u ≡ true
unfolding bytes_lt
bytes_lt_trans [] [] u p q = cc
bytes_lt_trans [] (b ∷ t) [] p q = cc
bytes_lt_trans [] (b ∷ t) (c ∷ u) p q = refl
bytes_lt_trans (a ∷ s) [] u p q = cc
bytes_lt_trans (a ∷ s) (b ∷ t) [] p q = cc
bytes_lt_trans (a ∷ s) (b ∷ t) (c ∷ u) p q = ground (arith, bytes_lt_trans s t u)

bytes_lt_total : (s t : Bytes) → bytes_lt s t ≡ false → bytes_lt t s ≡ false → s ≡ t
unfolding bytes_lt
bytes_lt_total [] [] p q = refl
bytes_lt_total [] (b ∷ t) p q = cc
bytes_lt_total (a ∷ s) [] p q = cc
bytes_lt_total (a ∷ s) (b ∷ t) p q = ground (arith, bytes_lt_total s t)

rank-injective : (a b : ExpectedKind) → rank a ≡ rank b → a ≡ b
rank-injective rule_label b p = ground arith
rank-injective rule_name b p = ground arith
rank-injective literal b p = ground arith
rank-injective range b p = ground arith

pub item_eq_iff : (a b : ExpectedItem) → (item_eq a b ≡ true) ↔ (a ≡ b)
unfolding item_eq
item_eq_iff a b = ground (arith, bytes_eq_iff a.text b.text, rank-injective a.kind b.kind)

pub item_lt_irrefl : (a : ExpectedItem) → item_lt a a ≡ false
unfolding item_lt
item_lt_irrefl a = ground (arith, bytes_lt_irrefl a.text)

pub item_lt_trans :
    (a b c : ExpectedItem) → item_lt a b ≡ true → item_lt b c ≡ true → item_lt a c ≡ true
unfolding item_lt
item_lt_trans a b c p q = ground (arith, bytes_lt_trans a.text b.text c.text)

pub item_lt_total : (a b : ExpectedItem) → item_lt a b ≡ false → item_lt b a ≡ false → a ≡ b
unfolding item_lt
item_lt_total a b p q = ground (arith, bytes_lt_total a.text b.text, rank-injective a.kind b.kind)
