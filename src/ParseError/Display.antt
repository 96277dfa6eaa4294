-- ===== src/ParseError/Display.antt =====
-- `integral_to_display` of include/peglib/ParseError.h against a decoder of UTF-8.
mod Bits
use peglib.Prelude.{
  ℕ, zero, suc, ◌+◌, ◌-◌, ◌*◌, ◌/◌, ◌%◌, ◌^◌, ◌≤◌, ◌<◌, ◌≡◌, refl, ap, Bool, true, false, List, [],
  ◌∷◌, ◌++◌, Option, none, some, inl, inr, Bool-cases, ltb, leb, ◌&&◌, ◌||◌, if◌then◌else◌, arith,
}
use peglib.ParseError.{Bytes}
use peglib.ParseError.Escape.{to_char, continuation, integral_to_display}
use peglib.ParseError.Display.Bits.{two_lead, three_lead, four_lead, continuation_lem}

-- A byte that continues a sequence.
abbrev is_tail : ℕ → Bool
is_tail b = leb 0x80 b && ltb b 0xC0

-- A Unicode scalar value: a code point that is no surrogate.
unfoldable pub is_scalar : ℕ → Bool
is_scalar c = ltb c 0xD800 || (leb 0xE000 c && ltb c 0x110000)

-- The number is a scalar value and needs a sequence of that length.
unfoldable pub admit : ℕ → ℕ → Bytes → Option (ℕ × Bytes)
admit least c rest = if leb least c && is_scalar c then some (c, rest) else none

abbrev two_bytes : ℕ → Bytes → Option (ℕ × Bytes)
two_bytes a (b ∷ rest) = if is_tail b then admit 0x80 ((a - 0xC0) * 64 + (b - 0x80)) rest else none
two_bytes a _ = none

abbrev three_bytes : ℕ → Bytes → Option (ℕ × Bytes)
three_bytes a (b ∷ c ∷ rest) =
    if is_tail b && is_tail c
    then admit 0x800 (((a - 0xE0) * 64 + (b - 0x80)) * 64 + (c - 0x80)) rest
    else none
three_bytes a _ = none

abbrev four_bytes : ℕ → Bytes → Option (ℕ × Bytes)
four_bytes a (b ∷ c ∷ d ∷ rest) =
    if is_tail b && (is_tail c && is_tail d)
    then admit 0x10000 ((((a - 0xF0) * 64 + (b - 0x80)) * 64 + (c - 0x80)) * 64 + (d - 0x80)) rest
    else none
four_bytes a _ = none

-- The first scalar value of a text in well-formed UTF-8, and the text after it. Overlong forms,
-- surrogates and numbers above 0x10FFFF are refused.
unfoldable pub decode_utf8 : Bytes → Option (ℕ × Bytes)
decode_utf8 [] = none
decode_utf8 (a ∷ rest) =
    if ltb a 0x80
    then some (a, rest)
    else if ltb a 0xC0
    then none
    else if ltb a 0xE0
    then two_bytes a rest
    else if ltb a 0xF0
    then three_bytes a rest
    else if ltb a 0xF8
    then four_bytes a rest
    else none

is_tail_lem : (v : ℕ) → v < 64 → is_tail (0x80 + v) ≡ true
is_tail_lem v h = ground arith

two_bytes_lem :
    (v x : ℕ) (rest : Bytes)
    → x < 64
    → two_bytes (0xC0 + v) ((0x80 + x) ∷ rest) ≡ admit 0x80 (v * 64 + x) rest
two_bytes_lem v x rest hx = rw (is_tail_lem x hx) (ap (λ y. admit 0x80 y rest) (omega arith))

three_bytes_lem :
    (v x y : ℕ) (rest : Bytes)
    → x < 64
    → y < 64
    → three_bytes (0xE0 + v) ((0x80 + x) ∷ (0x80 + y) ∷ rest)
      ≡ admit 0x800 ((v * 64 + x) * 64 + y) rest
three_bytes_lem v x y rest hx hy =
    rw (is_tail_lem x hx, is_tail_lem y hy) (ap (λ z. admit 0x800 z rest) (omega arith))

four_bytes_lem :
    (v x y z : ℕ) (rest : Bytes)
    → x < 64
    → y < 64
    → z < 64
    → four_bytes (0xF0 + v) ((0x80 + x) ∷ (0x80 + y) ∷ (0x80 + z) ∷ rest)
      ≡ admit 0x10000 (((v * 64 + x) * 64 + y) * 64 + z) rest
four_bytes_lem v x y z rest hx hy hz =
    rw (is_tail_lem x hx, is_tail_lem y hy, is_tail_lem z hz)
      (ap (λ w. admit 0x10000 w rest) (omega arith))

decode_utf8-two :
    (v : ℕ) (rest : Bytes) → v < 32 → decode_utf8 ((0xC0 + v) ∷ rest) ≡ two_bytes (0xC0 + v) rest
unfolding decode_utf8
decode_utf8-two v rest h =
    let p : ltb (0xC0 + v) 0x80 ≡ false = ground arith in
    let q : ltb (0xC0 + v) 0xC0 ≡ false = ground arith in
    let r : ltb (0xC0 + v) 0xE0 ≡ true = ground arith in rw (p, q, r) refl

decode_utf8-three :
    (v : ℕ) (rest : Bytes) → v < 16 → decode_utf8 ((0xE0 + v) ∷ rest) ≡ three_bytes (0xE0 + v) rest
unfolding decode_utf8
decode_utf8-three v rest h =
    let p : ltb (0xE0 + v) 0x80 ≡ false = ground arith in
    let q : ltb (0xE0 + v) 0xC0 ≡ false = ground arith in
    let r : ltb (0xE0 + v) 0xE0 ≡ false = ground arith in
    let t : ltb (0xE0 + v) 0xF0 ≡ true = ground arith in rw (p, q, r, t) refl

decode_utf8-four :
    (v : ℕ) (rest : Bytes) → v < 8 → decode_utf8 ((0xF0 + v) ∷ rest) ≡ four_bytes (0xF0 + v) rest
unfolding decode_utf8
decode_utf8-four v rest h =
    let p : ltb (0xF0 + v) 0x80 ≡ false = ground arith in
    let q : ltb (0xF0 + v) 0xC0 ≡ false = ground arith in
    let r : ltb (0xF0 + v) 0xE0 ≡ false = ground arith in
    let t : ltb (0xF0 + v) 0xF0 ≡ false = ground arith in
    let u : ltb (0xF0 + v) 0xF8 ≡ true = ground arith in rw (p, q, r, t, u) refl

is_scalar_ascii : (c : ℕ) → leb c 0x7F ≡ true → is_scalar c ≡ true
unfolding is_scalar
is_scalar_ascii c h = ground arith

one_byte :
    (c : ℕ) (rest : Bytes)
    → leb c 0x7F ≡ true
    → decode_utf8 (integral_to_display false c ++ rest) ≡ some (c, rest)
unfolding decode_utf8 integral_to_display
one_byte c rest small =
    let low : c % 256 ≡ c = ground arith in
    let ascii : ltb c 0x80 ≡ true = ground arith in rw (small, low, ascii) refl

encode_two :
    (c : ℕ)
    → leb c 0x7F ≡ false
    → leb c 0x7FF ≡ true
    → integral_to_display false c ≡ (0xC0 + c / 64) ∷ (0x80 + c % 64) ∷ []
unfolding integral_to_display
encode_two c p q = rw (p, q, two_lead (c / 64) (ground arith), continuation_lem c) refl

encode_three :
    (c : ℕ)
    → leb c 0x7FF ≡ false
    → leb c 0xFFFF ≡ true
    → integral_to_display false c
      ≡ (0xE0 + c / 4096) ∷ (0x80 + (c / 64) % 64) ∷ (0x80 + c % 64) ∷ []
unfolding integral_to_display
encode_three c p q =
    let above : leb c 0x7F ≡ false = ground arith in
    rw
      (
        above,
        p,
        q,
        three_lead (c / 4096) (ground arith),
        continuation_lem (c / 64),
        continuation_lem c,
      )
      refl

encode_four :
    (c : ℕ)
    → leb c 0xFFFF ≡ false
    → c < 2 ^ 21
    → integral_to_display false c
      ≡ (0xF0 + c / 262144)
        ∷ (0x80 + (c / 4096) % 64)
        ∷ (0x80 + (c / 64) % 64)
        ∷ (0x80 + c % 64)
        ∷ []
unfolding integral_to_display
encode_four c p small =
    let above : leb c 0x7F ≡ false = ground arith in
    let above' : leb c 0x7FF ≡ false = ground arith in
    rw
      (
        above,
        above',
        p,
        four_lead (c / 262144) (omega arith),
        continuation_lem (c / 4096),
        continuation_lem (c / 64),
        continuation_lem c,
      )
      refl

admit_lem :
    (least c v : ℕ) (rest : Bytes)
    → v ≡ c
    → leb least c ≡ true
    → admit least v rest ≡ (if is_scalar c then some (c, rest) else none)
unfolding admit
admit_lem least c v rest same long = rw (same, long) refl

-- A decoder of well-formed UTF-8, which refuses overlong forms, surrogates and numbers above
-- 0x10FFFF, reads the text that integral_to_display makes of a wide element below 2 ^ 21,
-- whatever text follows it, as the element, if that is a Unicode scalar value, and refuses it
-- otherwise.
pub integral_to_display-decode_utf8 :
    (c : ℕ) (rest : Bytes)
    → c < 2 ^ 21
    → decode_utf8 (integral_to_display false c ++ rest)
      ≡ (if is_scalar c then some (c, rest) else none)
integral_to_display-decode_utf8 c rest h = elim (Bool-cases (leb c 0x7F)) [
  | inl p ↦ rw (is_scalar_ascii c p) (one_byte c rest p)
  | inr p ↦ elim (Bool-cases (leb c 0x7FF)) [
    | inl q ↦
        rw
          (
            encode_two c p q,
            decode_utf8-two (c / 64) ((0x80 + c % 64) ∷ rest) (ground arith),
            two_bytes_lem (c / 64) (c % 64) rest (omega arith),
          )
          (admit_lem 0x80 c _ rest (omega arith) (ground arith))
    | inr q ↦ elim (Bool-cases (leb c 0xFFFF)) [
      | inl r ↦
          rw
            (
              encode_three c q r,
              decode_utf8-three (c / 4096) _ (ground arith),
              three_bytes_lem (c / 4096) ((c / 64) % 64) (c % 64) rest (omega arith) (omega arith),
            )
            (admit_lem 0x800 c _ rest (omega arith) (ground arith))
      | inr r ↦
          rw
            (
              encode_four c r h,
              decode_utf8-four (c / 262144) _ (omega arith),
              four_bytes_lem (c / 262144) ((c / 4096) % 64) ((c / 64) % 64) (c % 64) rest
                  (omega arith) (omega arith) (omega arith),
            )
            (admit_lem 0x10000 c _ rest (omega arith) (ground arith))
    ]
  ]
]
