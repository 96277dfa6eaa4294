-- ===== src/SourceMap/Scan.antt =====
-- The line starts that the prescan finds.
use peglib.Prelude.{ℕ, zero, suc, ◌+◌, ◌<◌, ◌≡◌, refl, [], ◌∷◌, arith, ◌==◌, if◌then◌else◌, take}
use peglib.ParseError.{Bytes}
use peglib.SourceMap.{newline, scan, upper_bound}

-- How many of the elements end a line.
unfoldable pub newlines : Bytes → ℕ
newlines [] = 0
newlines (c ∷ cs) = if c == newline then suc (newlines cs) else newlines cs

-- The number of elements after the last line end, at the end of a text whose lines before have
-- left `acc`.
unfoldable pub since_newline : ℕ → Bytes → ℕ
since_newline acc [] = acc
since_newline acc (c ∷ cs) = if c == newline then since_newline 0 cs else since_newline (suc acc) cs

-- A start at or before `offset` for each line end before it.
pub upper_bound-scan :
    (i : ℕ) (s : Bytes) (n : ℕ) → upper_bound (scan i s) (i + n) ≡ newlines (take n s)
unfolding upper_bound scan newlines
upper_bound-scan i [] zero = refl
upper_bound-scan i [] (suc n) = refl
upper_bound-scan i (c ∷ cs) zero = ground (arith, scan_above (suc i) cs i)
  where
    scan_above : (j : ℕ) (s : Bytes) (k : ℕ) → k < j → upper_bound (scan j s) k ≡ 0
    scan_above j [] k h = refl
    scan_above j (d ∷ ds) k h = ground (arith, scan_above (suc j) ds k)
upper_bound-scan i (c ∷ cs) (suc n) = ground (arith, upper_bound-scan (suc i) cs n)
