-- ===== src/ParseError.antt =====
-- include/peglib/ParseError.h: what was expected at a failure, the sorted set of such items, and
-- the two carriers of a failure. Texts are lists of bytes.
pub mod Order
pub mod Insert
pub mod FromList
pub mod Escape
pub mod Display
pub mod Printable
pub mod Custom
use peglib.Prelude.{
  ℕ, zero, suc, Bool, true, false, List, [], ◌∷◌, Option, none, some, ltb, ◌==◌, ◌&&◌, not,
  if◌then◌else◌, get_elem?,
}

abbrev pub Bytes : Type 0
Bytes = List ℕ

pub data ExpectedKind : Type 0 where
  rule_label rule_name literal range : ExpectedKind

pub record ExpectedItem : Type 0 where
  pub kind : ExpectedKind
  pub text : Bytes

-- The value of the enumerator, by which the enum is ordered.
abbrev pub rank : ExpectedKind → ℕ
rank rule_label = 0
rank rule_name = 1
rank literal = 2
rank range = 3

-- `std::string`'s `==` and `<`.
unfoldable pub bytes_eq : Bytes → Bytes → Bool
bytes_eq [] [] = true
bytes_eq (a ∷ s) (b ∷ t) = (a == b) && bytes_eq s t
bytes_eq _ _ = false

unfoldable pub bytes_lt : Bytes → Bytes → Bool
bytes_lt [] [] = false
bytes_lt [] (b ∷ t) = true
bytes_lt (a ∷ s) [] = false
bytes_lt (a ∷ s) (b ∷ t) = if a == b then bytes_lt s t else ltb a b

unfoldable pub item_eq : ExpectedItem → ExpectedItem → Bool
item_eq a b = (rank a.kind == rank b.kind) && bytes_eq a.text b.text

unfoldable pub item_lt : ExpectedItem → ExpectedItem → Bool
item_lt a b =
    if not (rank a.kind == rank b.kind)
    then ltb (rank a.kind) (rank b.kind)
    else bytes_lt a.text b.text

-- The vector `m_items`.
abbrev pub ExpectedSet : Type 0
ExpectedSet = List ExpectedItem

-- `std::lower_bound`: the first position whose item is not less.
unfoldable pub lower_bound : ExpectedSet → ExpectedItem → ℕ
lower_bound [] item = 0
lower_bound (x ∷ xs) item = if item_lt x item then suc (lower_bound xs item) else 0

-- `std::vector::insert` before a position.
unfoldable pub insert_at : ExpectedSet → ℕ → ExpectedItem → ExpectedSet
insert_at xs zero item = item ∷ xs
insert_at [] (suc i) item = item ∷ []
insert_at (x ∷ xs) (suc i) item = x ∷ insert_at xs i item

abbrev pub holds_at : Option ExpectedItem → ExpectedItem → Bool
holds_at none item = false
holds_at (some x) item = item_eq x item

-- `ExpectedSet::insert`: the set, the position of the item, and whether it was inserted.
unfoldable pub insert : ExpectedSet → ExpectedItem → ExpectedSet × ℕ × Bool
insert s item =
    let it = lower_bound s item in
    if holds_at (get_elem? s it) item then (s, it, false) else (insert_at s it item, it, true)

pub record Diagnostic : Type 0 where
  pub m_pos : ℕ
  pub m_expected : ExpectedSet

-- Thrown when a cut-committed branch fails.
pub record ParseError : Type 0 where
  pub m_pos : ℕ
  pub m_expected : ExpectedSet

unfoldable pub to_diagnostic : ParseError → Diagnostic
to_diagnostic e = record { m_pos = e.m_pos; m_expected = e.m_expected }
