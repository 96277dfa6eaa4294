-- ===== src/ParseError/Escape.antt =====
-- The rendering of elements in expected items: `to_display` and the two escape functions, at an
-- integral CharT. An element is its code unit; `byte_sized` is `sizeof(CharT) == 1`.
use Prim.Native.Nat.{bit_and, bit_or}
use peglib.Prelude.{
  ℕ, zero, suc, ◌+◌, ◌-◌, ◌/◌, ◌%◌, ◌^◌, Bool, true, false, [], ◌∷◌, ◌++◌, leb, ltb, ◌==◌, ◌&&◌,
  if◌then◌else◌,
}
use peglib.ParseError.{Bytes}

-- `static_cast<char>`
abbrev pub to_char : ℕ → ℕ
to_char v = v % 256

-- `0x80 | (v & 0x3F)`
abbrev pub continuation : ℕ → ℕ
continuation v = to_char (bit_or 0x80 (bit_and v 0x3F))

-- `cp` is below 2 ^ 32.
unfoldable pub integral_to_display : Bool → ℕ → Bytes
integral_to_display byte_sized c =
    if byte_sized
    then to_char c ∷ []
    else if leb c 0x7F
    then to_char c ∷ []
    else if leb c 0x7FF
    then to_char (bit_or 0xC0 (c / 2 ^ 6)) ∷ continuation c ∷ []
    else if leb c 0xFFFF
    then to_char (bit_or 0xE0 (c / 2 ^ 12)) ∷ continuation (c / 2 ^ 6) ∷ continuation c ∷ []
    else to_char (bit_or 0xF0 (c / 2 ^ 18))
      ∷ continuation (c / 2 ^ 12)
      ∷ continuation (c / 2 ^ 6)
      ∷ continuation c
      ∷ []

unfoldable pub hex_digit : ℕ → ℕ
hex_digit d = if ltb d 10 then b'0' + d else b'A' + (d - 10)

-- `%0wX` of a number below 16 ^ w.
unfoldable pub hex : ℕ → ℕ → Bytes
unfolding hex_digit
hex zero v = []
hex (suc w) v = hex w (v / 16) ++ hex_digit (v % 16) ∷ []

abbrev pub backslash : ℕ
backslash = 92

-- The default case of the switches: printable ASCII, else a numeric escape.
unfoldable pub escape_default : Bool → ℕ → Bytes
unfolding hex
escape_default byte_sized v =
    if leb 0x20 v && leb v 0x7E
    then v ∷ []
    else if byte_sized
    then backslash ∷ b'x' ∷ hex 2 (v % 2 ^ 8)
    else backslash ∷ b'U' ∷ hex 8 (v % 2 ^ 32)

-- The switch on `v`, for either quotation mark.
unfoldable pub escape_element : Bool → ℕ → ℕ → Bytes
unfolding escape_default
escape_element byte_sized quote v =
    if v == 9
    then backslash ∷ b't' ∷ []
    else if v == 10
    then backslash ∷ b'n' ∷ []
    else if v == 13
    then backslash ∷ b'r' ∷ []
    else if v == backslash
    then backslash ∷ backslash ∷ []
    else if v == quote
    then backslash ∷ quote ∷ []
    else escape_default byte_sized v

abbrev pub single_quote : ℕ
single_quote = 39

abbrev pub double_quote : ℕ
double_quote = 34

unfoldable pub escape_char_for_expected : Bool → ℕ → Bytes
unfolding escape_element
escape_char_for_expected byte_sized c =
    single_quote ∷ escape_element byte_sized single_quote c ++ single_quote ∷ []

-- The loop of `escape_string_for_expected` over a `std::string`.
unfoldable pub escape_bytes : Bytes → Bytes
escape_bytes [] = []
escape_bytes (c ∷ s) = escape_element true double_quote c ++ escape_bytes s

unfoldable pub escape_string_for_expected : Bytes → Bytes
unfolding escape_bytes escape_element
escape_string_for_expected s = double_quote ∷ escape_bytes s ++ double_quote ∷ []

-- The same over a string of another CharT: `static_cast<std::uint32_t>` of every element.
unfoldable pub escape_units : Bytes → Bytes
escape_units [] = []
escape_units (c ∷ s) = escape_element false double_quote (c % 2 ^ 32) ++ escape_units s

unfoldable pub escape_wide_string : Bytes → Bytes
unfolding escape_units escape_element
escape_wide_string s = double_quote ∷ escape_units s ++ double_quote ∷ []
