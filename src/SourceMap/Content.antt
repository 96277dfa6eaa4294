-- ===== src/SourceMap/Content.antt =====
-- The lines of a map of a file (include/peglib/SourceMap.h) against those of the string in it.
use peglib.Prelude.{
  ℕ, zero, suc, ◌+◌, ◌-◌, ◌≤◌, ◌<◌, ◌≡◌, refl, ap, ◌∙◌, [], ◌∷◌, arith, inl, inr, Bool-cases, ltb,
  ◌==◌, ◌||◌, if◌then◌else◌, length, get_or, take, drop,
}
use peglib.ParseError.{Bytes}
use peglib.SourceMap.{
  FileAccess, newline, scan, of_string, scan_file, of_file, line_end, line_view, read_file,
  line_content,
}

-- The file holds the string.
pub record Reads (f : FileAccess) (s : Bytes) : Type 0 where
  pub size : f.m_file_size ≡ length s
  pub elements : (i : ℕ) → i < length s → f.m_file_at i ≡ get_or s i 0

-- The same, of the elements from `i` on.
abbrev ReadsFrom : (ℕ → ℕ) → ℕ → Bytes → Type 0
ReadsFrom at i s = (k : ℕ) → k < length s → at (i + k) ≡ get_or s k 0

ReadsFrom-tail :
    (at : ℕ → ℕ) (i c : ℕ) (cs : Bytes) → ReadsFrom at i (c ∷ cs) → ReadsFrom at (suc i) cs
ReadsFrom-tail at i c cs h k lt =
    let e : i + suc k ≡ suc i + k = omega arith in rw (← e) (h (suc k) (omega arith))

ReadsFrom-head : (at : ℕ → ℕ) (i c : ℕ) (cs : Bytes) → ReadsFrom at i (c ∷ cs) → at i ≡ c
ReadsFrom-head at i c cs h = let e : i + 0 ≡ i = omega arith in rw e at (h 0 (omega arith))

scan_file-eq-scan :
    (at : ℕ → ℕ) (i : ℕ) (s : Bytes) → ReadsFrom at i s → scan_file at (length s) i ≡ scan i s
unfolding scan_file scan
scan_file-eq-scan at i [] h = refl
scan_file-eq-scan at i (c ∷ cs) h = ground (
  arith,
  ReadsFrom-head at i c cs h,
  scan_file-eq-scan at (suc i) cs (ReadsFrom-tail at i c cs h),
)

drop_step : (s : Bytes) (i : ℕ) → i < length s → drop i s ≡ get_or s i 0 ∷ drop (suc i) s
drop_step [] i h = elim h [ ]
drop_step (c ∷ cs) zero h = refl
drop_step (c ∷ cs) (suc i) h = drop_step cs i (omega arith)

read_file-eq-take :
    (f : FileAccess) (s : Bytes)
    → Reads f s
    → (n i : ℕ) → i + n ≤ length s
    → read_file f.m_file_at n i ≡ take n (drop i s)
unfolding read_file
read_file-eq-take f s r zero i h = refl
read_file-eq-take f s r (suc n) i h =
    rw (drop_step s i (omega arith), r.elements i (omega arith))
      (rw (read_file-eq-take f s r n (suc i) (omega arith)))

-- Every line starts inside the source, or at its end.
starts-le :
    (base i : ℕ) (s : Bytes) (k : ℕ) → base ≤ i → get_or (base ∷ scan i s) k 0 ≤ i + length s
unfolding scan
starts-le base i [] zero h = omega arith
starts-le base i [] (suc k) h = omega arith
starts-le base i (c ∷ cs) zero h = omega arith
starts-le base i (c ∷ cs) (suc k) h = elim (Bool-cases (c == newline)) [
  | inl p ↦ rw p (omega (arith, starts-le (suc i) (suc i) cs k (omega arith)))
  | inr p ↦ rw p (omega (arith, starts-le base (suc i) cs (suc k) (omega arith)))
]

module _ (f : FileAccess) (s : Bytes) (r : Reads f s) where
  starts_agree : scan_file f.m_file_at f.m_file_size 0 ≡ scan 0 s
  starts_agree =
      let from_start : ReadsFrom f.m_file_at 0 s =
        λ k h. let e : 0 + k ≡ k = omega arith in rw e (r.elements k h) in
      rw r.size (scan_file-eq-scan f.m_file_at 0 s from_start)

  abbrev end_by : (ℕ → ℕ) → ℕ → ℕ
  end_by at line = line_end (0 ∷ scan 0 s) (length s) at line

  ends_agree :
      (line : ℕ)
      → (end_by f.m_file_at line ≡ end_by (λ i. get_or s i 0) line)
        × (end_by f.m_file_at line ≤ length s)
  unfolding line_end
  ends_agree line =
      let start = get_or (0 ∷ scan 0 s) (line - 1) 0 in
      let end =
        if ltb line (length (0 ∷ scan 0 s)) then get_or (0 ∷ scan 0 s) line 0 - 1 else length s in
      let inside : end ≤ length s = ground (arith, starts-le 0 0 s line) in
      elim (Bool-cases (ltb start end)) [
        | inl p ↦
            let same = r.elements (end - 1) (ground arith) in rw same (refl, ground (arith, inside))
        | inr p ↦ ground (arith, inside)
      ]

  -- A map of a file that holds a string yields the lines that the map of the string yields.
  pub line_content-of_file :
      (line : ℕ) → line_content (of_file f) line ≡ line_content (of_string s) line
  unfolding line_content of_file of_string line_view
  line_content-of_file line =
      rw starts_agree (elim (Bool-cases ((line == 0) || ltb (length (0 ∷ scan 0 s)) line)) [
        | inl p ↦ rw p
        | inr p ↦
            rw (p, r.size)
              (let start = get_or (0 ∷ scan 0 s) (line - 1) 0 in
                let ends = ends_agree line in
                let end = end_by f.m_file_at line in
                read_file-eq-take f s r (end - start) start
                  (omega (arith, ends.1, starts-le 0 0 s (line - 1)))
                ∙ ap (λ (e : ℕ). take (e - start) (drop start s)) ends.0)
      ])
