-- ===== src/ParseError/Custom.antt =====
-- The rendering of elements of any type in include/peglib/ParseError.h: `to_display_cpo` and the two
-- escape functions at the element types, of which a non-integral one can bring a hook.
use peglib.Prelude.{ℕ, Bool, true, List, [], ◌∷◌, ◌++◌, Option, none, some}
use peglib.ParseError.{Bytes}
use peglib.ParseError.Escape.{
  integral_to_display, double_quote, escape_char_for_expected, escape_string_for_expected,
  escape_wide_string,
}

-- `char`; another integral type, with `sizeof(CharT) == 1`; a type with or without `to_display`.
pub data ElementType : Type 0 where
  char : ElementType
  integral : Bool → ElementType
  custom : Option (ℕ → Bytes) → ElementType

abbrev pub custom_or_placeholder : Option (ℕ → Bytes) → ℕ → Bytes
custom_or_placeholder (some to_display) c = to_display c
custom_or_placeholder none c = b'<' ∷ b't' ∷ b'o' ∷ b'k' ∷ b'e' ∷ b'n' ∷ b'>' ∷ []

unfoldable pub to_display_cpo : ElementType → ℕ → Bytes
to_display_cpo char c = integral_to_display true c
to_display_cpo (integral byte_sized) c = integral_to_display byte_sized c
to_display_cpo (custom hook) c = custom_or_placeholder hook c

unfoldable pub escape_char : ElementType → ℕ → Bytes
escape_char char c = escape_char_for_expected true c
escape_char (integral byte_sized) c = escape_char_for_expected byte_sized c
escape_char (custom hook) c = b'<' ∷ custom_or_placeholder hook c ++ b'>' ∷ []

-- The loop of `escape_string_for_expected` over elements of a non-integral type.
unfoldable pub display_elements : Option (ℕ → Bytes) → List ℕ → Bytes
display_elements hook [] = []
display_elements hook (c ∷ s) = custom_or_placeholder hook c ++ display_elements hook s

unfoldable pub escape_string : ElementType → List ℕ → Bytes
escape_string char s = escape_string_for_expected s
escape_string (integral byte_sized) s = escape_wide_string s
escape_string (custom hook) s = double_quote ∷ display_elements hook s ++ double_quote ∷ []
