-- ===== src/SourceMap/Locate.antt =====
-- `locate` and `offset_of` of include/peglib/SourceMap.h against the line ends of the source.
use peglib.Prelude.{
  ℕ, zero, suc, ◌+◌, ◌-◌, ◌%◌, ◌≤◌, ◌<◌, ◌≡◌, refl, [], ◌∷◌, arith, length, get_or, take,
}
use peglib.ParseError.{Bytes}
use peglib.SourceMap.{size_mod, scan, of_string, upper_bound, locate, offset_of}
use peglib.SourceMap.Scan.{newlines, since_newline, upper_bound-scan}

-- The start of the line that holds the offset, counted from there.
line_start_lem :
    (base acc i : ℕ) (s : Bytes) (n : ℕ)
    → base + acc ≡ i
    → get_or (base ∷ scan i s) (newlines (take n s)) 0
        + since_newline acc (take n s)
        + (n - length s)
      ≡ i + n
unfolding scan newlines since_newline
line_start_lem base acc i [] zero h = omega arith
line_start_lem base acc i [] (suc n) h = omega arith
line_start_lem base acc i (c ∷ cs) zero h = omega arith
line_start_lem base acc i (c ∷ cs) (suc n) h =
    ground
      (arith, line_start_lem (suc i) 0 (suc i) cs n, line_start_lem base (suc acc) (suc i) cs n)

newlines-le-scan : (i : ℕ) (s : Bytes) (n : ℕ) → newlines (take n s) ≤ length (scan i s)
unfolding scan newlines
newlines-le-scan i [] zero = omega arith
newlines-le-scan i [] (suc n) = omega arith
newlines-le-scan i (c ∷ cs) zero = omega arith
newlines-le-scan i (c ∷ cs) (suc n) = ground (arith, newlines-le-scan (suc i) cs n)

abbrev line_start : Bytes → ℕ → ℕ
line_start s offset = get_or (0 ∷ scan 0 s) (newlines (take offset s)) 0

line_start_offset :
    (s : Bytes) (offset : ℕ)
    → line_start s offset + since_newline 0 (take offset s) + (offset - length s) ≡ offset
line_start_offset s offset = omega (arith, line_start_lem 0 0 0 s offset refl)

upper_bound-starts :
    (s : Bytes) (offset : ℕ) → upper_bound (0 ∷ scan 0 s) offset - 1 ≡ newlines (take offset s)
unfolding upper_bound
upper_bound-starts s offset = ground (arith, upper_bound-scan 0 s offset)

locate-starts :
    (s : Bytes) (offset : ℕ)
    → locate (of_string s) offset ≡ record {
      offset = offset;
      line = newlines (take offset s) + 1;
      column = (offset - line_start s offset + 1) % size_mod;
    }
unfolding locate of_string
locate-starts s offset = rw upper_bound-starts

-- The line that locate gives is one more than the line ends before the offset, and the column one
-- more, as a machine word, than the elements since the last of them; an offset past the end stays
-- on the last line with its column not clamped.
pub locate_lem :
    (s : Bytes) (offset : ℕ)
    → locate (of_string s) offset ≡ record {
      offset = offset;
      line = newlines (take offset s) + 1;
      column = (since_newline 0 (take offset s) + (offset - length s) + 1) % size_mod;
    }
locate_lem s offset =
    let column : offset - line_start s offset
        ≡ since_newline 0 (take offset s) + (offset - length s) =
      omega (arith, line_start_offset s offset) in
    rw (locate-starts s offset, column)

-- An offset that fits a machine word is recovered by offset_of from the line and column that
-- locate gives.
pub offset_of-locate :
    (s : Bytes) (offset : ℕ)
    → offset < size_mod
    → offset_of
        (of_string s)
        (locate (of_string s) offset).line
        (locate (of_string s) offset).column
      ≡ offset
unfolding offset_of of_string
offset_of-locate s offset h =
    rw (locate-starts s offset)
      (ground (arith, newlines-le-scan 0 s offset, line_start_offset s offset))
