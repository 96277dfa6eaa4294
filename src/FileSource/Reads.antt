-- ===== src/FileSource/Reads.antt =====
-- The accesses of include/peglib/FileSource.h against the file in memory.
use peglib.Prelude.{
  ℕ, zero, suc, ◌-◌, ◌%◌, ◌≤◌, ◌<◌, ◌≡◌, refl, ap, ◌∙◌, sym, subst, Bool, true, false, List, [],
  ◌∷◌, none, some, arith, inl, inr, Bool-cases, ltb, leb, leb→le, ◌==◌, length, get_elem?, get_or,
}
use peglib.FileSource.{
  File, Buffer, fresh_buffer, read, is_in, get_unchecked, FileSource, fseek, buffer_of, not_on,
  open_source, read_to, get, release, release_before, Access, fetch, release_to, run_file, run_span,
}
use peglib.FileSource.Buffers.{Holds, read-Holds, clear-Holds, fresh_buffer-Holds, length-take-drop}

-- The file has not changed since it was measured, and both buffers hold parts of it.
pub record IsSource (items : List ℕ) (s : FileSource) : Type 0 where
  pub measured : s.m_filesize ≡ length items
  pub unchanged : s.m_fp.items ≡ items
  pub first_holds : Holds items s.first
  pub second_holds : Holds items s.second

get_elem?-out : (items : List ℕ) (i : ℕ) → length items ≤ i → get_elem? items i ≡ none
get_elem?-out [] i h = refl
get_elem?-out (x ∷ xs) zero h = absurd (omega arith)
get_elem?-out (x ∷ xs) (suc i) h = get_elem?-out xs i (omega arith)

get_elem?-in :
    (items : List ℕ) (i : ℕ) → i < length items → get_elem? items i ≡ some (get_or items i 0)
get_elem?-in [] i h = absurd (omega arith)
get_elem?-in (x ∷ xs) zero h = refl
get_elem?-in (x ∷ xs) (suc i) h = get_elem?-in xs i (omega arith)

buffer_of-Holds :
    (items : List ℕ) (s : FileSource) (on : Bool) → IsSource items s → Holds items (buffer_of on s)
buffer_of-Holds items s true v = v.second_holds
buffer_of-Holds items s false v = v.first_holds

-- What a buffer that claims a position answers for it.
buffer_lem :
    (items : List ℕ) (b : Buffer) (i : ℕ)
    → Holds items b
    → is_in b i ≡ true
    → some (get_unchecked b i) ≡ get_elem? items i
unfolding is_in
buffer_lem items b i v h =
    let from : b.m_buf_from ≤ i = ground arith in
    let to : i < b.m_buf_to = ground arith in
    ap some (v.same i from to) ∙ sym (get_elem?-in items i (omega (arith, v.inside)))

abbrev page_of : ℕ → ℕ → FileSource → File × Buffer × ℕ
page_of page_size i s = read page_size (fseek (i - i % page_size) s.m_fp) s.first

read_to-in :
    (page_size : ℕ) (i : ℕ) (s : FileSource)
    → i < s.m_filesize
    → read_to page_size i s ≡ (
      record s { first = (page_of page_size i s).1; m_fp = (page_of page_size i s).0 },
      ltb 0 (page_of page_size i s).2,
    )
unfolding read_to
read_to-in page_size i s h = let e : leb s.m_filesize i ≡ false = ground arith in rw e

-- A page read for a position inside the file holds the position.
page_of_lem :
    (page_size : ℕ) (items : List ℕ) (i : ℕ) (s : FileSource)
    → 0 < page_size
    → i < length items
    → IsSource items s
    → (ltb 0 (page_of page_size i s).2 ≡ true)
      × ((page_of page_size i s).0.items ≡ items)
      × Holds items (page_of page_size i s).1
      × (is_in (page_of page_size i s).1 i ≡ true)
unfolding read is_in
page_of_lem page_size items i s positive h v =
    let e : s.m_fp.items ≡ items = v.unchanged in
    let size = length-take-drop page_size (i - i % page_size) s.m_fp.items in
    let held : Holds items (page_of page_size i s).1 =
      subst (λ (xs : List ℕ). Holds xs (page_of page_size i s).1) e
        (read-Holds page_size (fseek (i - i % page_size) s.m_fp) s.first
          (omega (arith, ap (length {A = ℕ}) e))) in
    let size' : length s.m_fp.items ≡ length items = ap length e in
    (ground (arith, size, size'), e, held, ground (arith, size, size'))

-- On a source whose buffers hold parts of the file, with a page size above zero, get answers as
-- the file does, positions out of range included, and the buffers still hold parts of the file.
pub get_lem :
    (page_size : ℕ) (items : List ℕ) (i : ℕ) (s : FileSource)
    → 0 < page_size
    → IsSource items s
    → ((get page_size i s).1 ≡ get_elem? items i) × IsSource items (get page_size i s).0
unfolding get
get_lem page_size items i s positive v = elim (Bool-cases (leb s.m_filesize i)) [
  | inl out ↦
      let beyond = leb→le s.m_filesize i out in
      rw out (sym (get_elem?-out items i (omega (arith, beyond, v.measured))), v)
  | inr within ↦
      let i_in : i < length items = ground (arith, v.measured) in
      rw within elim (Bool-cases (is_in (buffer_of s.on_second s) i)) [
        | inl here ↦ rw here (
          buffer_lem items (buffer_of s.on_second s) i (buffer_of-Holds items s s.on_second v) here,
          v,
        )
        | inr gone ↦ rw gone elim (Bool-cases (is_in (buffer_of (not_on s.on_second) s) i)) [
          | inl there ↦ rw there (
            buffer_lem items (buffer_of (not_on s.on_second) s) i
                (buffer_of-Holds items s (not_on s.on_second) v) there,
            record {
              measured = v.measured;
              unchanged = v.unchanged;
              first_holds = v.first_holds;
              second_holds = v.second_holds;
            },
          )
          | inr neither ↦
              let (found, kept, holds, has) = page_of_lem page_size items i s positive i_in v in
              let read_in = read_to-in page_size i s (omega (arith, v.measured)) in
              rw (neither, read_in, found)
                (
                  buffer_lem items (page_of page_size i s).1 i holds has,
                  record {
                    measured = v.measured;
                    unchanged = kept;
                    first_holds = holds;
                    second_holds = v.second_holds;
                  },
                )
        ]
      ]
]

release-Holds :
    (items : List ℕ) (pos : ℕ) (b : Buffer) → Holds items b → Holds items (release pos b)
release-Holds items pos b v = elim (Bool-cases (leb b.m_buf_to pos)) [
  | inl past ↦ rw past (clear-Holds items b)
  | inr ahead ↦ rw ahead v
]

pub release_before-IsSource :
    (items : List ℕ) (pos : ℕ) (s : FileSource)
    → IsSource items s
    → IsSource items (release_before pos s)
unfolding release_before
release_before-IsSource items pos s v = record {
  measured = v.measured;
  unchanged = v.unchanged;
  first_holds = release-Holds items pos s.first v.first_holds;
  second_holds = release-Holds items pos s.second v.second_holds;
}

pub open_source-IsSource :
    (page_size : ℕ) (items : List ℕ) → IsSource items (open_source page_size items)
unfolding open_source read
open_source-IsSource page_size items =
    let f : File = record { items = items; position = 0 } in
    let size = length-take-drop page_size 0 items in
    let f' : File = (read page_size f (fresh_buffer page_size)).0 in
    let one : Holds items (read page_size f (fresh_buffer page_size)).1 =
      read-Holds page_size f (fresh_buffer page_size) (omega arith) in
    let two : Holds items (read page_size f' (fresh_buffer page_size)).1 =
      read-Holds page_size f' (fresh_buffer page_size) (omega (arith, size)) in
    elim (Bool-cases ((read page_size f (fresh_buffer page_size)).2 == page_size)) [
      | inl full ↦
          rw full
            (record { measured = refl; unchanged = refl; first_holds = one; second_holds = two })
      | inr part ↦ rw part (record {
        measured = refl;
        unchanged = refl;
        first_holds = one;
        second_holds = fresh_buffer-Holds items page_size;
      })
    ]

-- Every item that is fetched is one of the file.
abbrev pub IsInside : List ℕ → List Access → Type 0
IsInside items [] = Unit
IsInside items (fetch i ∷ ops) = i < length items × IsInside items ops
IsInside items (release_to pos ∷ ops) = IsInside items ops

run_lem :
    (page_size : ℕ) (items : List ℕ) (ops : List Access) (s : FileSource)
    → 0 < page_size
    → IsSource items s
    → IsInside items ops
    → run_file page_size ops s ≡ run_span ops items
unfolding run_file run_span
run_lem page_size items [] s positive v inside = refl
run_lem page_size items (fetch i ∷ ops) s positive v (i_in, inside) =
    let (answer, v') = get_lem page_size items i s positive v in
    let here : (get page_size i s).1 ≡ some (get_or items i 0) =
      answer ∙ get_elem?-in items i i_in in
    rw (here, run_lem page_size items ops (get page_size i s).0 positive v' inside)
run_lem page_size items (release_to pos ∷ ops) s positive v inside =
    run_lem page_size items ops (release_before pos s) positive
      (release_before-IsSource items pos s v) inside

-- A FileSource just opened, with a page size above zero, answers every sequence of accesses and
-- releases as the items of the file in memory do, if all accesses are inside the file; also an
-- access before an earlier release.
pub run_file-run_span :
    (page_size : ℕ) (items : List ℕ) (ops : List Access)
    → 0 < page_size
    → IsInside items ops
    → run_file page_size ops (open_source page_size items) ≡ run_span ops items
run_file-run_span page_size items ops positive inside =
    run_lem page_size items ops (open_source page_size items) positive
      (open_source-IsSource page_size items) inside
