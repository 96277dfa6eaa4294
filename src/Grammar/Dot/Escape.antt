-- ===== src/Grammar/Dot/Escape.antt =====
-- The escaped names of a dot text, read back.
use peglib.Prelude.{
  ℕ, ◌≡◌, refl, Bool-cases, inl, inr, false, [], ◌∷◌, ◌++◌, Option, none, some, arith, ◌==◌,
  if◌then◌else◌,
}
use peglib.ParseError.{Bytes}
use peglib.Grammar.Dot.{dot_char, dot_escape}

-- A backslash and the character behind it are one.
abbrev unescaped : ℕ → ℕ
unescaped c = if c == b'n' then b'\n' else c

abbrev put_char : ℕ → Option (Bytes × Bytes) → Option (Bytes × Bytes)
put_char c none = none
put_char c (some (s, rest)) = some (c ∷ s, rest)

-- A string of a dot text behind its first quote: what it says, and the text behind its last quote.
-- A line break in it is refused.
unfoldable pub read_quoted : Bytes → Option (Bytes × Bytes)
read_quoted [] = none
read_quoted (c ∷ []) = if c == b'"' then some ([], []) else none
read_quoted (c ∷ (d ∷ s)) =
    let escaped = read_quoted s in
    let plain = read_quoted (d ∷ s) in
    if c == b'"'
    then some ([], d ∷ s)
    else if c == b'\n'
    then none
    else if c == b'\\'
    then put_char (unescaped d) escaped
    else put_char c plain

plain_head :
    (c : ℕ) (s : Bytes)
    → (c == b'"') ≡ false
    → (c == b'\n') ≡ false
    → (c == b'\\') ≡ false
    → read_quoted (c ∷ s) ≡ put_char c (read_quoted s)
unfolding read_quoted
plain_head c [] q n b = rw q refl
plain_head c (d ∷ s) q n b = rw (q, n, b) refl

read_quoted_end : (rest : Bytes) → read_quoted (b'"' ∷ rest) ≡ some ([], rest)
unfolding read_quoted
read_quoted_end [] = refl
read_quoted_end (d ∷ s) = refl

-- A rule name that dot_escape has escaped, put between quotation marks, is read back: a reader of
-- dot strings that ends at the first quotation mark not escaped, and that refuses a line break,
-- gives the name and the text behind the string.
pub read_quoted-dot_escape :
    (s rest : Bytes) → read_quoted (dot_escape s ++ b'"' ∷ rest) ≡ some (s, rest)
unfolding dot_escape dot_char read_quoted
read_quoted-dot_escape [] rest = read_quoted_end rest
read_quoted-dot_escape (c ∷ s) rest =
    let further = read_quoted-dot_escape s rest in
    elim (Bool-cases (c == b'"')) [
      | inl q ↦ let is : c ≡ b'"' = ground arith in rw (is, further) refl
      | inr q ↦ elim (Bool-cases (c == b'\\')) [
        | inl p ↦ let is : c ≡ b'\\' = ground arith in rw (is, further) refl
        | inr p ↦ elim (Bool-cases (c == b'\n')) [
          | inl r ↦ let is : c ≡ b'\n' = ground arith in rw (is, further) refl
          | inr r ↦ rw (q, p, r, plain_head c (dot_escape s ++ b'"' ∷ rest) q r p, further) refl
        ]
      ]
    ]
