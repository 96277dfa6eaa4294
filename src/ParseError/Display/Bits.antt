-- ===== src/ParseError/Display/Bits.antt =====
-- The bytes of a sequence in UTF-8, as include/peglib/ParseError.h puts them together from bits.
use Prim.Native.Nat.{bit_and, bit_or, bit_and-bitwise, digits, min}
use peglib.Prelude.{
  ℕ, zero, suc, ◌+◌, ◌*◌, ◌/◌, ◌%◌, ◌≤◌, ◌<◌, ◌≡◌, refl, ◌∙◌, Bool, true, ◌==◌, ==_iff, ◌&&◌, arith,
}
use peglib.ParseError.Escape.{to_char, continuation}

-- The mask of that many ones.
ones : ℕ → ℕ
ones zero = 0
ones (suc w) = suc (ones w * 2)

-- That many digits of the number.
low_digits : ℕ → ℕ → ℕ
low_digits zero a = 0
low_digits (suc w) a = low_digits w (a / 2) * 2 + a % 2

low_digits-zero : (w : ℕ) → low_digits w 0 ≡ 0
unfolding low_digits
low_digits-zero zero = refl
low_digits-zero (suc w) = omega (arith, low_digits-zero w)

abbrev masked : ℕ → ℕ → ℕ → ℕ
masked n a mask = digits (λ b. zero) min n a mask

masked-ones : (w n a : ℕ) → a ≤ n → masked n a (ones w) ≡ low_digits w a
unfolding ones low_digits
masked-ones zero zero a h = refl
masked-ones zero (suc n) zero h = refl
masked-ones zero (suc n) (suc a) h = omega (arith, masked-ones zero n (suc a / 2) (omega arith))
masked-ones (suc w) zero zero h = omega (arith, low_digits-zero w)
masked-ones (suc w) zero (suc a) h = absurd (omega arith)
masked-ones (suc w) (suc n) zero h = omega (arith, low_digits-zero w)
masked-ones (suc w) (suc n) (suc a) h =
    let half : suc (ones w * 2) / 2 ≡ ones w = omega arith in
    rw half (omega (arith, masked-ones w n (suc a / 2) (omega arith)))

low_digits-six : (a : ℕ) → low_digits 6 a ≡ a % 64
unfolding low_digits
low_digits-six a = omega arith

bit_and-63 : (a : ℕ) → bit_and a 0x3F ≡ a % 64
unfolding ones
bit_and-63 a = (λ i. bit_and-bitwise a 0x3F i) ∙ masked-ones 6 a a (omega arith) ∙ low_digits-six a

-- Over a small range, a table of all values.
holds_below : ℕ → (ℕ → Bool) → Bool
holds_below zero p = true
holds_below (suc n) p = p n && holds_below n p

holds_below_sound : (n : ℕ) (p : ℕ → Bool) (x : ℕ) → holds_below n p ≡ true → x < n → p x ≡ true
unfolding holds_below
holds_below_sound zero p x h lt = absurd (omega arith)
holds_below_sound (suc n) p x h lt = ground (arith, holds_below_sound n p x)

tail_table : holds_below 64 (λ x. to_char (bit_or 0x80 x) == 0x80 + x) ≡ true
unfolding holds_below
tail_table = refl

two_table : holds_below 32 (λ x. to_char (bit_or 0xC0 x) == 0xC0 + x) ≡ true
unfolding holds_below
two_table = refl

three_table : holds_below 16 (λ x. to_char (bit_or 0xE0 x) == 0xE0 + x) ≡ true
unfolding holds_below
three_table = refl

four_table : holds_below 8 (λ x. to_char (bit_or 0xF0 x) == 0xF0 + x) ≡ true
unfolding holds_below
four_table = refl

pub two_lead : (x : ℕ) → x < 32 → to_char (bit_or 0xC0 x) ≡ 0xC0 + x
two_lead x h = (==_iff _ _).0 (holds_below_sound 32 _ x two_table h)

pub three_lead : (x : ℕ) → x < 16 → to_char (bit_or 0xE0 x) ≡ 0xE0 + x
three_lead x h = (==_iff _ _).0 (holds_below_sound 16 _ x three_table h)

pub four_lead : (x : ℕ) → x < 8 → to_char (bit_or 0xF0 x) ≡ 0xF0 + x
four_lead x h = (==_iff _ _).0 (holds_below_sound 8 _ x four_table h)

pub continuation_lem : (v : ℕ) → continuation v ≡ 0x80 + v % 64
continuation_lem v =
    rw (bit_and-63 v) ((==_iff _ _).0 (holds_below_sound 64 _ (v % 64) tail_table (omega arith)))
