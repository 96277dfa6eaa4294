-- ===== src/Grammar/Dot.antt =====
-- `Grammar::to_dot` and `dot_escape` of include/peglib/Grammar.h. The back of the queue is the head of
-- its list.
pub mod Escape
pub mod Edges
use peglib.Prelude.{
  ℕ, zero, suc, ◌+◌, Bool, true, false, List, [], ◌∷◌, ◌++◌, Option, none, some, ◌==◌,
  if◌then◌else◌, length,
}
use peglib.ParseError.{Bytes, bytes_eq}
use peglib.Expr.{Grammar}
use peglib.Grammar.{find_rule}
use peglib.Grammar.Refs.{insert_name, has_name, refs_of, all_refs, is_defined}

-- One case of the switch.
unfoldable pub dot_char : ℕ → Bytes
dot_char c =
    if c == b'"'
    then b'\\' ∷ b'"' ∷ []
    else if c == b'\\'
    then b'\\' ∷ b'\\' ∷ []
    else if c == b'\n'
    then b'\\' ∷ b'n' ∷ []
    else c ∷ []

unfoldable pub dot_escape : Bytes → Bytes
unfolding dot_char
dot_escape [] = []
dot_escape (c ∷ s) = dot_char c ++ dot_escape s

-- `m_rules.count(ref)`
abbrev is_known : Option ℕ → Bool
is_known none = false
is_known (some id) = true

-- The references that are rules of the table go to the queue.
unfoldable pub push_known : Grammar → List Bytes → List Bytes → List Bytes
push_known g [] queue = queue
push_known g (r ∷ refs) queue =
    if is_known (find_rule g.m_rules r)
    then push_known g refs (r ∷ queue)
    else push_known g refs queue

-- The edges from one rule.
unfoldable pub edges_from : Bytes → List Bytes → List (Bytes × Bytes)
edges_from name [] = []
edges_from name (r ∷ refs) = (name, r) ∷ edges_from name refs

abbrev pub with_edges :
    List (Bytes × Bytes) → Option (List (Bytes × Bytes)) → Option (List (Bytes × Bytes))
with_edges es none = none
with_edges es (some fs) = some (es ++ fs)

-- The loop over the queue, of so many rounds at most, as the list of the edges that it draws; `none`
-- if they do not suffice. A name without an entry has no references.
unfoldable pub draw : ℕ → Grammar → List Bytes → List Bytes → Option (List (Bytes × Bytes))
unfolding push_known edges_from
draw zero g visited [] = some []
draw zero g visited (name ∷ queue) = none
draw (suc rounds) g visited [] = some []
draw (suc rounds) g visited (name ∷ queue) =
    let refs = refs_of g name in
    let skipped = draw rounds g visited queue in
    let drawn = draw rounds g (insert_name name visited) (push_known g refs queue) in
    if has_name visited name then skipped else with_edges (edges_from name refs) drawn

-- The names of the defined rules, the last first.
unfoldable pub defined_queue : Grammar → List (Bytes × ℕ) → List Bytes → List Bytes
defined_queue g [] queue = queue
defined_queue g ((name, id) ∷ rules) queue =
    if is_defined g id then defined_queue g rules (name ∷ queue) else defined_queue g rules queue

-- Every rule is queued at first once, and again for a reference to it.
abbrev pub dot_rounds : Grammar → ℕ
dot_rounds g = length g.m_rules + length (all_refs g g.m_rules)

unfoldable pub dot_edges : Grammar → Option (List (Bytes × Bytes))
unfolding draw defined_queue
dot_edges g = draw (dot_rounds g) g [] (defined_queue g g.m_rules [])

-- `  "name"`, with what stands behind it.
abbrev quoted : Bytes → Bytes → Bytes
unfolding dot_escape
quoted name behind = b'"' ∷ dot_escape name ++ b'"' ∷ behind

abbrev start_mark : Bytes
start_mark =
    b' ' ∷ b'[' ∷ b'p' ∷ b'e' ∷ b'r' ∷ b'i' ∷ b'p' ∷ b'h' ∷ b'e' ∷ b'r' ∷ b'i' ∷ b'e' ∷ b's' ∷ b'='
    ∷ b'2' ∷ b']' ∷ []

unfoldable pub node_lines : Grammar → List (Bytes × ℕ) → Bytes
unfolding quoted
node_lines g [] = []
node_lines g ((name, id) ∷ rules) =
    if is_defined g id
    then b' '
      ∷ b' '
      ∷ quoted name (
          (if bytes_eq name g.m_start then start_mark else []) ++ b';' ∷ b'\n' ∷ node_lines g rules)
    else node_lines g rules

unfoldable pub edge_lines : List (Bytes × Bytes) → Bytes
unfolding quoted
edge_lines [] = []
edge_lines ((a, b) ∷ edges) =
    b' ' ∷ b' ' ∷ quoted a (b' ' ∷ b'-' ∷ b'>' ∷ b' ' ∷ quoted b (b';' ∷ b'\n' ∷ edge_lines edges))

abbrev preamble : Bytes
preamble =
    b'd' ∷ b'i' ∷ b'g' ∷ b'r' ∷ b'a' ∷ b'p' ∷ b'h' ∷ b' ' ∷ b'p' ∷ b'e' ∷ b'g' ∷ b'l' ∷ b'i' ∷ b'b'
    ∷ b'_' ∷ b'g' ∷ b'r' ∷ b'a' ∷ b'm' ∷ b'm' ∷ b'a' ∷ b'r' ∷ b' ' ∷ b'{' ∷ b'\n' ∷ b' ' ∷ b' '
    ∷ b'n' ∷ b'o' ∷ b'd' ∷ b'e' ∷ b' ' ∷ b'[' ∷ b's' ∷ b'h' ∷ b'a' ∷ b'p' ∷ b'e' ∷ b'=' ∷ b'b'
    ∷ b'o' ∷ b'x' ∷ b']' ∷ b';' ∷ b'\n' ∷ b' ' ∷ b' ' ∷ b'r' ∷ b'a' ∷ b'n' ∷ b'k' ∷ b'd' ∷ b'i'
    ∷ b'r' ∷ b'=' ∷ b'L' ∷ b'R' ∷ b';' ∷ b'\n' ∷ []

abbrev dot_text : Grammar → Option (List (Bytes × Bytes)) → Option Bytes
unfolding node_lines edge_lines
dot_text g none = none
dot_text g (some edges) =
    some (preamble ++ node_lines g g.m_rules ++ edge_lines edges ++ b'}' ∷ b'\n' ∷ [])

unfoldable pub to_dot : Grammar → Option Bytes
unfolding dot_text dot_edges
to_dot g = dot_text g (dot_edges g)
