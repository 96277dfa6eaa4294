-- ===== src/Diagnostics.antt =====
-- The texts of include/peglib/ParseError.h: `Diagnostic::format` and `ParseError::what`.
use peglib.Prelude.{ℕ, zero, suc, ◌+◌, ◌/◌, ◌%◌, [], ◌∷◌, ◌++◌, ltb, if◌then◌else◌}
use peglib.ParseError.{Bytes, ExpectedSet, Diagnostic, ParseError}
use peglib.SourceMap.{SourceMap, locate}

-- A number as a stream writes it, of at most so many digits.
unfoldable pub decimal : ℕ → ℕ → Bytes
decimal zero n = []
decimal (suc digits) n =
    if ltb n 10 then (b'0' + n) ∷ [] else decimal digits (n / 10) ++ (b'0' + n % 10) ∷ []

-- A std::size_t has at most twenty digits.
abbrev pub size_text : ℕ → Bytes
size_text n = decimal 20 n

abbrev expected_text : Bytes
expected_text = b'e' ∷ b'x' ∷ b'p' ∷ b'e' ∷ b'c' ∷ b't' ∷ b'e' ∷ b'd' ∷ b' ' ∷ []

abbrev or_text : Bytes
or_text = b' ' ∷ b'o' ∷ b'r' ∷ b' ' ∷ []

abbrev error_text : Bytes
error_text = b':' ∷ b' ' ∷ b'e' ∷ b'r' ∷ b'r' ∷ b'o' ∷ b'r' ∷ b':' ∷ b' ' ∷ []

abbrev unexpected_text : Bytes
unexpected_text = b'u' ∷ b'n' ∷ expected_text ++ b'i' ∷ b'n' ∷ b'p' ∷ b'u' ∷ b't' ∷ []

abbrev offset_text : Bytes
offset_text =
    b'p' ∷ b'a' ∷ b'r' ∷ b's' ∷ b'e' ∷ b' ' ∷ b'e' ∷ b'r' ∷ b'r' ∷ b'o' ∷ b'r' ∷ b' ' ∷ b'a' ∷ b't'
    ∷ b' ' ∷ b'o' ∷ b'f' ∷ b'f' ∷ b's' ∷ b'e' ∷ b't' ∷ b' ' ∷ []

-- The items, the last behind " or " and the others behind ", ".
unfoldable pub listed : ExpectedSet → Bytes
listed [] = []
listed (x ∷ []) = x.text
listed (x ∷ y ∷ []) = x.text ++ or_text ++ y.text
listed (x ∷ xs) = x.text ++ b',' ∷ b' ' ∷ listed xs

abbrev message : ExpectedSet → Bytes
message [] = unexpected_text
message (x ∷ xs) = expected_text ++ listed (x ∷ xs)

unfoldable pub format : Diagnostic → SourceMap → Bytes → Bytes
format d map filename =
    let loc = locate map d.m_pos in
    filename
    ++ b':' ∷ size_text loc.line
    ++ b':' ∷ size_text loc.column
    ++ error_text
    ++ message d.m_expected

-- The items behind one another with " or ".
unfoldable pub alternatives : ExpectedSet → Bytes
alternatives [] = []
alternatives (x ∷ []) = x.text
alternatives (x ∷ xs) = x.text ++ or_text ++ alternatives xs

abbrev reason : ExpectedSet → Bytes
reason [] = []
reason (x ∷ xs) = b':' ∷ b' ' ∷ expected_text ++ alternatives (x ∷ xs)

-- `m_what`, which the constructor builds.
unfoldable pub what : ParseError → Bytes
what e = offset_text ++ size_text e.m_pos ++ reason e.m_expected
