-- ===== src/FileSource/Iterators.antt =====
-- The iterators of include/peglib/FileSource.h, and its move constructor. An iterator is a position; the
-- source it points to is the one that is passed along.
use peglib.Prelude.{
  ℕ, zero, suc, ◌+◌, ◌≤◌, ◌<◌, ◌≡◌, refl, sym, ap, Bool, true, false, not, List, [], ◌∷◌, Option,
  none, some, ltb, leb, ◌==◌, arith, inl, inr, Bool-cases, length, get_elem?, drop, if◌then◌else◌,
}
use peglib.FileSource.{FileSource, get}
use peglib.FileSource.Reads.{IsSource, get_lem}

pub record Iterator : Type 0 where
  pub m_pos : ℕ

abbrev pub seek : ℕ → Iterator
seek pos = record { m_pos = pos }

abbrev pub begin : Iterator
begin = seek 0

abbrev pub end_of : FileSource → Iterator
end_of s = seek s.m_filesize

-- `operator++`
abbrev pub increment : Iterator → Iterator
increment it = record { m_pos = it.m_pos + 1 }

-- `operator++(int)`: the old iterator, and the new one.
abbrev pub post_increment : Iterator → Iterator × Iterator
post_increment it = (it, increment it)

abbrev pub is_less : Iterator → Iterator → Bool
is_less a b = ltb a.m_pos b.m_pos

abbrev pub is_greater : Iterator → Iterator → Bool
is_greater a b = ltb b.m_pos a.m_pos

abbrev pub is_less_equal : Iterator → Iterator → Bool
is_less_equal a b = leb a.m_pos b.m_pos

abbrev pub is_greater_equal : Iterator → Iterator → Bool
is_greater_equal a b = leb b.m_pos a.m_pos

abbrev pub is_equal : Iterator → Iterator → Bool
is_equal a b = a.m_pos == b.m_pos

abbrev pub differs : Iterator → Iterator → Bool
differs a b = not (is_equal a b)

-- `*it`, and `at(pos)`
abbrev pub dereference : ℕ → Iterator → FileSource → FileSource × Option ℕ
dereference page_size it s = get page_size it.m_pos s

abbrev pub item_at : ℕ → ℕ → FileSource → FileSource × Option ℕ
item_at page_size pos s = dereference page_size (seek pos) s

-- A loop from an iterator to the end, of so many rounds at most: what `*it` answers in each. `none` if
-- the rounds do not suffice.
unfoldable pub walk : ℕ → ℕ → Iterator → FileSource → Option (List (Option ℕ))
walk page_size zero it s = if is_equal it (end_of s) then some [] else none
walk page_size (suc rounds) it s =
    let (s', x) = dereference page_size it s in
    let rest = walk page_size rounds (increment it) s' in
    if is_equal it (end_of s) then some [] else elim rest [ none ↦ none | some xs ↦ some (x ∷ xs) ]

-- The source that is constructed, and what is left of the other: no file, so nothing is closed twice.
pub record Moved : Type 0 where
  pub source : FileSource
  pub left_filesize : ℕ
  pub left_on_second : Bool
  pub left_has_file : Bool

abbrev pub move : FileSource → Moved
move s = record { source = s; left_filesize = 0; left_on_second = false; left_has_file = false }

-- The items as answers.
unfoldable pub answers : List ℕ → List (Option ℕ)
answers [] = []
answers (x ∷ xs) = some x ∷ answers xs

answers-drop :
    (items : List ℕ) (pos : ℕ)
    → pos < length items
    → answers (drop pos items) ≡ get_elem? items pos ∷ answers (drop (suc pos) items)
unfolding answers
answers-drop [] pos h = absurd (omega arith)
answers-drop (x ∷ xs) zero h = refl
answers-drop (x ∷ xs) (suc pos) h = answers-drop xs pos (omega arith)

answers-drop_end : (items : List ℕ) (pos : ℕ) → pos ≡ length items → answers (drop pos items) ≡ []
unfolding answers
answers-drop_end [] zero h = refl
answers-drop_end [] (suc pos) h = absurd (omega arith)
answers-drop_end (x ∷ xs) zero h = absurd (omega arith)
answers-drop_end (x ∷ xs) (suc pos) h = answers-drop_end xs pos (omega arith)

-- On a source whose buffers hold parts of the file, with a page size above zero, a loop from an
-- iterator inside the file up to the end, with as many rounds as items are ahead, reaches the end
-- and reads these items in order.
pub walk_lem :
    (page_size rounds pos : ℕ) (items : List ℕ) (s : FileSource)
    → 0 < page_size
    → IsSource items s
    → pos ≤ length items
    → length items ≤ pos + rounds
    → walk page_size rounds (seek pos) s ≡ some (answers (drop pos items))
unfolding walk
walk_lem page_size zero pos items s positive v inside enough =
    let at_end : pos ≡ length items = omega arith in
    let same : (pos == s.m_filesize) ≡ true = ground (arith, v.measured) in
    rw (same, answers-drop_end items pos at_end) refl
walk_lem page_size (suc rounds) pos items s positive v inside enough =
    elim (Bool-cases (pos == s.m_filesize)) [
      | inl same ↦
          let at_end : pos ≡ length items = ground (arith, v.measured) in
          rw (same, answers-drop_end items pos at_end) refl
      | inr apart ↦
          let further : pos < length items = ground (arith, v.measured) in
          let (found, v') = get_lem page_size items pos s positive v in
          let step : pos + 1 ≡ suc pos = omega arith in
          let rest =
            walk_lem page_size rounds (suc pos) items (get page_size pos s).0 positive v' further
              (omega arith) in
          rw (apart, step, rest, found) (ap some (sym (answers-drop items pos further)))
    ]
