-- ===== src/FileSource/Opening.antt =====
-- The constructor and the destructor of include/peglib/FileSource.h with their error paths, and
-- `slice` of include/peglib/InputSource.h. What `fopen` and `file_size` answer are arguments.
use peglib.Prelude.{
  ℕ, zero, suc, ◌+◌, ◌-◌, ◌/◌, ◌≤◌, ◌<◌, ◌≡◌, ◌≢◌, refl, ◌∙◌, List, [], ◌∷◌, Option, none, some,
  length, take, drop, get_elem?, arith,
}
use peglib.FileSource.{File, FileSource, open_source, get}
use peglib.FileSource.Reads.{IsSource, open_source-IsSource, get_lem}

-- What the constructor throws.
pub data OpenError : Type 0 where
  failed_to_open filesystem_error : OpenError

-- How the construction ends, with the number of files that are open then.
pub record Construction : Type 0 where
  pub result : Option FileSource
  pub error : Option OpenError
  pub open_files : ℕ

-- `FileSource(path)`: `opened` are the items of the file, if it can be opened, and `file_bytes` its
-- size, if `file_size` does not throw.
unfoldable pub construct : ℕ → ℕ → Option (List ℕ) → Option ℕ → Construction
construct page_size item_size none file_bytes = record {
  result = none;
  error = some failed_to_open;
  open_files = 0;
}
construct page_size item_size (some items) none = record {
  result = none;
  error = some filesystem_error;
  open_files = 0;
}
construct page_size item_size (some items) (some file_bytes) = record {
  result = some (record (open_source page_size items) { m_filesize = file_bytes / item_size });
  error = none;
  open_files = 1;
}

-- A constructor that throws leaves no file open.
construct_error :
    (page_size item_size : ℕ) (opened : Option (List ℕ)) (file_bytes : Option ℕ)
    → (construct page_size item_size opened file_bytes).error ≢ none
    → ((construct page_size item_size opened file_bytes).result ≡ none)
      × ((construct page_size item_size opened file_bytes).open_files ≡ 0)
unfolding construct
construct_error page_size item_size none file_bytes e = (refl, refl)
construct_error page_size item_size (some items) none e = (refl, refl)
construct_error page_size item_size (some items) (some file_bytes) e = absurd (e refl)

-- If the file is as long as it was measured, the source holds it.
construct-IsSource :
    (page_size item_size : ℕ) (items : List ℕ) (file_bytes : ℕ)
    → file_bytes / item_size ≡ length items
    → (s : FileSource) × ((construct page_size item_size (some items) (some file_bytes)).result
        ≡ some s)
      × IsSource items s
unfolding construct
construct-IsSource page_size item_size items file_bytes measured =
    let v = open_source-IsSource page_size items in
    (
      _,
      refl,
      record {
        measured = measured;
        unchanged = v.unchanged;
        first_holds = v.first_holds;
        second_holds = v.second_holds;
      },
    )

-- The destructor: a source that was moved from has no file any more.
unfoldable pub close : Option File → ℕ → ℕ
close none open_files = open_files
close (some f) open_files = open_files - 1

-- `slice` of a contiguous source, inside of it.
unfoldable pub slice_span : ℕ → ℕ → List ℕ → List ℕ
slice_span offset count items = take count (drop offset items)

abbrev pub put_front : Option ℕ → FileSource × Option (List ℕ) → FileSource × Option (List ℕ)
put_front none (s, rest) = (s, none)
put_front (some x) (s, none) = (s, none)
put_front (some x) (s, some xs) = (s, some (x ∷ xs))

-- `slice` of a paged source: one access for each item. `none` is a failed assertion.
unfoldable pub slice_file : ℕ → ℕ → ℕ → FileSource → FileSource × Option (List ℕ)
slice_file page_size offset zero s = (s, some [])
slice_file page_size offset (suc count) s =
    let (s', x) = get page_size offset s in put_front x (slice_file page_size (suc offset) count s')

put_front_lem :
    (x : ℕ) (xs : List ℕ) (o : Option ℕ) (r : FileSource × Option (List ℕ))
    → o ≡ some x
    → r.1 ≡ some xs
    → ((put_front o r).1 ≡ some (x ∷ xs)) × ((put_front o r).0 ≡ r.0)
put_front_lem x xs none r is rest = absurd (cc)
put_front_lem x xs (some y) (s, none) is rest = absurd (cc)
put_front_lem x xs (some y) (s, some ys) is rest = (cc, refl)

drop-get_elem? :
    (items : List ℕ) (i : ℕ)
    → i < length items
    → (x : ℕ) × (get_elem? items i ≡ some x) × (drop i items ≡ x ∷ drop (suc i) items)
drop-get_elem? [] i h = absurd (omega arith)
drop-get_elem? (x ∷ xs) zero h = (x, refl, refl)
drop-get_elem? (x ∷ xs) (suc i) h = drop-get_elem? xs i (omega arith)

-- A slice inside the file, from a source whose buffers hold parts of the file and with a page
-- size above zero, is the slice of the file in memory, and the buffers still hold parts of the
-- file.
pub slice_file-slice_span :
    (page_size : ℕ) (items : List ℕ) (offset count : ℕ) (s : FileSource)
    → 0 < page_size
    → IsSource items s
    → offset + count ≤ length items
    → ((slice_file page_size offset count s).1 ≡ some (slice_span offset count items))
      × IsSource items (slice_file page_size offset count s).0
unfolding slice_file slice_span
slice_file-slice_span page_size items offset zero s positive v inside = (refl, v)
slice_file-slice_span page_size items offset (suc count) s positive v inside =
    let (here, v') = get_lem page_size items offset s positive v in
    let (x, is, tail) = drop-get_elem? items offset (omega arith) in
    let s' = (get page_size offset s).0 in
    let (rest, v'') =
      slice_file-slice_span page_size items (suc offset) count s' positive v' (omega arith) in
    let (front, kept) =
      put_front_lem x (slice_span (suc offset) count items) _
        (slice_file page_size (suc offset) count s') (here ∙ is) rest in
    (rw tail front, rw kept v'')
