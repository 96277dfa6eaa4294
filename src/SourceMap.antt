-- ===== src/SourceMap.antt =====
-- include/peglib/SourceMap.h: byte offsets and (line, column) pairs. A `std::size_t` wraps at
-- 2 ^ 64 where the source adds or subtracts without a check.
pub mod Scan
pub mod Locate
pub mod Content
use peglib.Prelude.{
  ℕ, zero, suc, ◌+◌, ◌-◌, ◌%◌, ◌^◌, Bool, List, [], ◌∷◌, ◌++◌, Option, none, some, ltb, leb, ◌==◌,
  ◌&&◌, ◌||◌, if◌then◌else◌, length, get_or, take, drop,
}
use peglib.ParseError.{Bytes}

pub record SourceLocation : Type 0 where
  pub offset : ℕ
  pub line : ℕ
  pub column : ℕ

-- The type-erased accessors of a file source.
pub record FileAccess : Type 0 where
  pub m_file_size : ℕ
  pub m_file_at : ℕ → ℕ

pub record SourceMap : Type 0 where
  pub m_line_starts : List ℕ
  pub m_contiguous : Bytes
  pub m_file_source : Option FileAccess

abbrev pub size_mod : ℕ
size_mod = 2 ^ 64

abbrev pub npos : ℕ
npos = size_mod - 1

abbrev pub newline : ℕ
newline = 10

abbrev pub carriage_return : ℕ
carriage_return = 13

-- The loop of `prescan`, at index `i` of the source and the elements from there on.
unfoldable pub scan : ℕ → Bytes → List ℕ
scan i [] = []
scan i (c ∷ cs) = if c == newline then suc i ∷ scan (suc i) cs else scan (suc i) cs

unfoldable pub of_string : Bytes → SourceMap
of_string source = record {
  m_line_starts = 0 ∷ scan 0 source;
  m_contiguous = source;
  m_file_source = none;
}

-- The loop of `prescan_file`, with `left` rounds to go.
unfoldable pub scan_file : (ℕ → ℕ) → ℕ → ℕ → List ℕ
scan_file file_at zero i = []
scan_file file_at (suc left) i =
    if file_at i == newline
    then suc i ∷ scan_file file_at left (suc i)
    else scan_file file_at left (suc i)

unfoldable pub of_file : FileAccess → SourceMap
of_file f = record {
  m_line_starts = 0 ∷ scan_file f.m_file_at f.m_file_size 0;
  m_contiguous = [];
  m_file_source = some f;
}

-- `std::upper_bound`: the index of the first element above the offset.
unfoldable pub upper_bound : List ℕ → ℕ → ℕ
upper_bound [] offset = 0
upper_bound (x ∷ xs) offset = if ltb offset x then 0 else suc (upper_bound xs offset)

unfoldable pub locate : SourceMap → ℕ → SourceLocation
locate m offset =
    let line_idx = upper_bound m.m_line_starts offset - 1 in
    let line_start = get_or m.m_line_starts line_idx 0 in
    record { offset = offset; line = line_idx + 1; column = (offset - line_start + 1) % size_mod }

unfoldable pub offset_of : SourceMap → ℕ → ℕ → ℕ
offset_of m line column =
    if (line == 0) || ltb (length m.m_line_starts) line
    then npos
    else (get_or m.m_line_starts (line - 1) 0 + (column + npos)) % size_mod

-- Where a line ends, its terminator taken off. `at` reads the source.
unfoldable pub line_end : List ℕ → ℕ → (ℕ → ℕ) → ℕ → ℕ
line_end line_starts size at line =
    let start = get_or line_starts (line - 1) 0 in
    let end = if ltb line (length line_starts) then get_or line_starts line 0 - 1 else size in
    if ltb start end && (at (end - 1) == carriage_return) then end - 1 else end

-- A contiguous map only; past the last line the view is empty.
unfoldable pub line_view : SourceMap → ℕ → Bytes
line_view m line =
    if (line == 0) || ltb (length m.m_line_starts) line
    then []
    else let start = get_or m.m_line_starts (line - 1) 0 in
      let end =
        line_end m.m_line_starts (length m.m_contiguous) (λ i. get_or m.m_contiguous i 0) line in
      take (end - start) (drop start m.m_contiguous)

-- The loop that reads the elements from `i` on, `left` of them.
unfoldable pub read_file : (ℕ → ℕ) → ℕ → ℕ → Bytes
read_file file_at zero i = []
read_file file_at (suc left) i = file_at i ∷ read_file file_at left (suc i)

abbrev pub file_line : SourceMap → ℕ → Option FileAccess → Bytes
file_line m line none = line_view m line
file_line m line (some f) =
    let start = get_or m.m_line_starts (line - 1) 0 in
    let end = line_end m.m_line_starts f.m_file_size f.m_file_at line in
    read_file f.m_file_at (end - start) start

unfoldable pub line_content : SourceMap → ℕ → Bytes
line_content m line =
    if (line == 0) || ltb (length m.m_line_starts) line
    then []
    else file_line m line m.m_file_source

unfoldable pub num_lines : SourceMap → ℕ
num_lines m = length m.m_line_starts
