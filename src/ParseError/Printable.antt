-- ===== src/ParseError/Printable.antt =====
-- The escapes of include/peglib/ParseError.h and printable ASCII.
use peglib.Prelude.{
  ℕ, zero, suc, ◌/◌, ◌%◌, ◌^◌, ◌≤◌, Bool, true, false, [], ◌∷◌, ◌++◌, All, arith, leb, ◌&&◌,
  if◌then◌else◌, inl, inr, Bool-cases,
}
use peglib.ParseError.{Bytes}
use peglib.ParseError.Escape.{
  hex_digit, hex, backslash, escape_default, escape_element, single_quote, double_quote,
  escape_char_for_expected, escape_bytes, escape_string_for_expected, escape_units,
  escape_wide_string,
}

abbrev pub IsPrintable : Bytes → Type 0
IsPrintable s = All (λ b. 0x20 ≤ b × (b ≤ 0x7E)) s

pub IsPrintable-append : (s t : Bytes) → IsPrintable s → IsPrintable t → IsPrintable (s ++ t)
IsPrintable-append [] t p q = q
IsPrintable-append (b ∷ s) t p q = (p.0, IsPrintable-append s t p.1 q)

hex-IsPrintable : (w v : ℕ) → IsPrintable (hex w v)
unfolding hex hex_digit
hex-IsPrintable zero v = tt
hex-IsPrintable (suc w) v =
    IsPrintable-append (hex w (v / 16)) _ (hex-IsPrintable w (v / 16)) (ground arith)

escape_default-IsPrintable : (byte_sized : Bool) (v : ℕ) → IsPrintable (escape_default byte_sized v)
unfolding escape_default
escape_default-IsPrintable byte_sized v = elim (Bool-cases (leb 0x20 v && leb v 0x7E)) [
  | inl p ↦ rw p (ground arith)
  | inr p ↦ rw p (escaped byte_sized)
]
  where
    escaped :
        (b : Bool)
        → IsPrintable (
            if b
            then backslash ∷ b'x' ∷ hex 2 (v % 2 ^ 8)
            else backslash ∷ b'U' ∷ hex 8 (v % 2 ^ 32))
    escaped true = (omega arith, (omega arith, hex-IsPrintable 2 (v % 2 ^ 8)))
    escaped false = (omega arith, (omega arith, hex-IsPrintable 8 (v % 2 ^ 32)))

escape_element-IsPrintable :
    (byte_sized : Bool) (quote v : ℕ)
    → IsPrintable (quote ∷ [])
    → IsPrintable (escape_element byte_sized quote v)
unfolding escape_element
escape_element-IsPrintable byte_sized quote v q =
    ground (arith, escape_default-IsPrintable byte_sized v)

-- The text of one element is printable.
pub escape_char_for_expected-IsPrintable :
    (byte_sized : Bool) (c : ℕ) → IsPrintable (escape_char_for_expected byte_sized c)
unfolding escape_char_for_expected
escape_char_for_expected-IsPrintable byte_sized c =
    let mark : IsPrintable (single_quote ∷ []) = omega arith in
    (
      omega arith,
      IsPrintable-append (escape_element byte_sized single_quote c) (single_quote ∷ [])
          (escape_element-IsPrintable byte_sized single_quote c mark) mark,
    )

escape_bytes-IsPrintable : (s : Bytes) → IsPrintable (escape_bytes s)
unfolding escape_bytes
escape_bytes-IsPrintable [] = tt
escape_bytes-IsPrintable (c ∷ s) =
    IsPrintable-append (escape_element true double_quote c) (escape_bytes s)
      (escape_element-IsPrintable true double_quote c (omega arith)) (escape_bytes-IsPrintable s)

escape_units-IsPrintable : (s : Bytes) → IsPrintable (escape_units s)
unfolding escape_units
escape_units-IsPrintable [] = tt
escape_units-IsPrintable (c ∷ s) =
    IsPrintable-append (escape_element false double_quote (c % 2 ^ 32)) (escape_units s)
      (escape_element-IsPrintable false double_quote (c % 2 ^ 32) (omega arith))
      (escape_units-IsPrintable s)

-- Between quotation marks.
quoted-IsPrintable :
    (s : Bytes) → IsPrintable s → IsPrintable (double_quote ∷ s ++ double_quote ∷ [])
quoted-IsPrintable s h =
    let mark : IsPrintable (double_quote ∷ []) = omega arith in
    (omega arith, IsPrintable-append s (double_quote ∷ []) h mark)

-- The escaped text of any string, of bytes or of wider elements, is printable ASCII.
pub escape_string_for_expected-IsPrintable :
    (s : Bytes) → IsPrintable (escape_string_for_expected s) × IsPrintable (escape_wide_string s)
unfolding escape_string_for_expected escape_wide_string
escape_string_for_expected-IsPrintable s = (
  quoted-IsPrintable (escape_bytes s) (escape_bytes-IsPrintable s),
  quoted-IsPrintable (escape_units s) (escape_units-IsPrintable s),
)
