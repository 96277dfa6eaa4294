-- ===== src/FileSource.antt =====
-- include/peglib/FileSource.h, and the two adapters of include/peglib/InputSource.h. An open FILE
-- is the items of the file (its bytes in groups of `sizeof(value_type)`, an incomplete last group
-- left out) with a position counted in items; `fread` and `fseek` are those of C.
pub mod Buffers
pub mod Reads
pub mod Iterators
pub mod Opening
use Prim.Native.Nat.{min}
use peglib.Prelude.{
  ℕ, zero, suc, ◌+◌, ◌-◌, ◌%◌, Bool, true, false, List, [], ◌∷◌, ◌++◌, Option, none, some, ltb, leb,
  ◌==◌, ◌&&◌, if◌then◌else◌, length, get_elem?, get_or, take, drop, replicate,
}

pub record File : Type 0 where
  pub items : List ℕ
  pub position : ℕ

-- The items read and the file after `fread` of at most `n`.
abbrev pub fread : ℕ → File → File × List ℕ
fread n f =
    let got = take n (drop f.position f.items) in
    (record f { position = f.position + length got }, got)

abbrev pub fseek : ℕ → File → File
fseek pos f = record f { position = pos }

-- `m_buf` is the whole array; `[m_buf_from, m_buf_to)` tells which part of the file it holds.
pub record Buffer : Type 0 where
  pub m_buf : List ℕ
  pub m_valid_count : ℕ
  pub m_buf_from : ℕ
  pub m_buf_to : ℕ

abbrev pub fresh_buffer : ℕ → Buffer
fresh_buffer page_size = record {
  m_buf = replicate page_size 0;
  m_valid_count = 0;
  m_buf_from = 0;
  m_buf_to = 0;
}

-- `buffer::read`: the items overwrite the front of the array.
unfoldable pub read : ℕ → File → Buffer → File × Buffer × ℕ
read n_items f b =
    let (f', got) = fread n_items f in
    let read_items = length got in
    (
      f',
      record {
        m_buf = got ++ drop read_items b.m_buf;
        m_valid_count = read_items;
        m_buf_from = f.position;
        m_buf_to = f.position + read_items;
      },
      read_items,
    )

unfoldable pub clear : Buffer → Buffer
clear b = record b { m_valid_count = 0; m_buf_from = 0; m_buf_to = 0 }

-- `in`
unfoldable pub is_in : Buffer → ℕ → Bool
is_in b i = leb b.m_buf_from i && ltb i b.m_buf_to

abbrev pub get_unchecked : Buffer → ℕ → ℕ
get_unchecked b i = get_or b.m_buf (i - b.m_buf_from) 0

-- `m_current_buf` is 1 if `on_second`.
pub record FileSource : Type 0 where
  pub m_filesize : ℕ
  pub first : Buffer
  pub second : Buffer
  pub on_second : Bool
  pub m_fp : File

abbrev pub buffer_of : Bool → FileSource → Buffer
buffer_of true s = s.second
buffer_of false s = s.first

-- The constructor, on a file just opened.
unfoldable pub open_source : ℕ → List ℕ → FileSource
open_source page_size items =
    let f : File = record { items = items; position = 0 } in
    let (f', b, n) = read page_size f (fresh_buffer page_size) in
    let (f'', b', m) = read page_size f' (fresh_buffer page_size) in
    if n == page_size
    then record { m_filesize = length items; first = b; second = b'; on_second = false; m_fp = f'' }
    else record {
      m_filesize = length items;
      first = b;
      second = fresh_buffer page_size;
      on_second = false;
      m_fp = f';
    }

-- `read_to(item_pos, 0)`: the page of the item is read into the first buffer.
unfoldable pub read_to : ℕ → ℕ → FileSource → FileSource × Bool
read_to page_size item_pos s =
    let buf_pos = item_pos - item_pos % page_size in
    let (f, b, n) = read page_size (fseek buf_pos s.m_fp) s.first in
    if leb s.m_filesize item_pos then (s, false) else (record s { first = b; m_fp = f }, ltb 0 n)

abbrev pub not_on : Bool → Bool
not_on true = false
not_on false = true

-- `get`; `none` is a failed assertion.
unfoldable pub get : ℕ → ℕ → FileSource → FileSource × Option ℕ
get page_size i s =
    if leb s.m_filesize i
    then (s, none)
    else if is_in (buffer_of s.on_second s) i
    then (s, some (get_unchecked (buffer_of s.on_second s) i))
    else if is_in (buffer_of (not_on s.on_second) s) i
    then (
      record s { on_second = not_on s.on_second },
      some (get_unchecked (buffer_of (not_on s.on_second) s) i),
    )
    else let (s', found) = read_to page_size i s in
      if found
      then (record s' { on_second = false }, some (get_unchecked s'.first i))
      else (s', none)

abbrev release : ℕ → Buffer → Buffer
release pos b = if leb b.m_buf_to pos then clear b else b

unfoldable pub release_before : ℕ → FileSource → FileSource
release_before pos s = record s { first = release pos s.first; second = release pos s.second }

-- The calls that a Context makes of its input source.
pub data Access : Type 0 where
  fetch : ℕ → Access
  release_to : ℕ → Access

-- What a run of calls answers; `none` is a failed assertion.
unfoldable pub run_file : ℕ → List Access → FileSource → List (Option ℕ)
run_file page_size [] s = []
run_file page_size (fetch i ∷ ops) s =
    let (s', x) = get page_size i s in x ∷ run_file page_size ops s'
run_file page_size (release_to pos ∷ ops) s = run_file page_size ops (release_before pos s)

-- A SpanSource reads its memory unchecked: it is modelled for offsets below its size only.
unfoldable pub run_span : List Access → List ℕ → List (Option ℕ)
run_span [] items = []
run_span (fetch i ∷ ops) items = some (get_or items i 0) ∷ run_span ops items
run_span (release_to pos ∷ ops) items = run_span ops items
