-- ===== src/Witnesses/Files.antt =====
-- The theorems about file sources, expected sets and rendered elements at concrete inputs.
use peglib.Prelude.{ℕ, ◌≡◌, false, List, [], ◌∷◌, ◌++◌, none, some, if◌then◌else◌, arith}
use peglib.ParseError.{ExpectedItem, literal}
use peglib.ParseError.FromList.{from_list, insert_all, from_list-insert_all}
use peglib.ParseError.Escape.{integral_to_display}
use peglib.ParseError.Display.{decode_utf8, is_scalar, integral_to_display-decode_utf8}
use peglib.FileSource.{open_source}
use peglib.FileSource.Opening.{slice_file, slice_span, slice_file-slice_span}
use peglib.FileSource.Reads.{IsSource, open_source-IsSource}
use peglib.FileSource.Iterators.{begin, walk, answers, walk_lem}

abbrev five : List ℕ
five = 5 ∷ 6 ∷ 7 ∷ 8 ∷ 9 ∷ []

walk_lem_example : walk 2 5 begin (open_source 2 five) ≡ some (answers five)
walk_lem_example =
    walk_lem 2 5 0 five (open_source 2 five) (omega arith) (open_source-IsSource 2 five)
      (omega arith) (omega arith)

abbrev item_of : ℕ → ExpectedItem
item_of c = record { kind = literal; text = c ∷ [] }

from_list-insert_all_example :
    from_list (item_of b'b' ∷ item_of b'a' ∷ item_of b'b' ∷ [])
    ≡ insert_all (item_of b'b' ∷ item_of b'a' ∷ item_of b'b' ∷ [])
from_list-insert_all_example =
    from_list-insert_all (item_of b'b' ∷ item_of b'a' ∷ item_of b'b' ∷ [])

slice_file-slice_span_example :
    ((slice_file 2 1 3 (open_source 2 five)).1 ≡ some (slice_span 1 3 five))
    × IsSource five (slice_file 2 1 3 (open_source 2 five)).0
slice_file-slice_span_example =
    slice_file-slice_span 2 five 1 3 (open_source 2 five) (omega arith)
      (open_source-IsSource 2 five) (omega arith)

-- The euro sign.
integral_to_display-decode_utf8_example :
    decode_utf8 (integral_to_display false 0x20AC ++ b'!' ∷ [])
    ≡ (if is_scalar 0x20AC then some (0x20AC, b'!' ∷ []) else none)
integral_to_display-decode_utf8_example =
    integral_to_display-decode_utf8 0x20AC (b'!' ∷ []) (omega arith)
