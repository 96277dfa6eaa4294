-- ===== src/Witnesses.antt =====
-- The theorems applied at concrete inputs.
mod Fold
mod Building
mod Recovery
mod Meaning
mod Nodes
mod Files
use peglib.Prelude.{
  ℕ, zero, suc, get_or, ◌↔◌, ◌≤◌, ◌<◌, ◌==◌, ◌⊎◌, ◌+◌, true, false, List, [], ◌∷◌, none, some, ◌≡◌,
  refl, subst, arith, get_elem?,
}
use peglib.ParseError.{Bytes, ExpectedItem, literal, rule_name, bytes_eq, insert, Diagnostic}
use peglib.ParseError.Insert.{Has, IsAscending, insert-IsAscending, Has-insert}
use peglib.Context.{failed, input_size, from_range, take_error}
use peglib.Context.Errors.{IsFurthest, record_all, take_error-record_all}
use peglib.FileSource.{fetch, release_to, open_source, run_file, run_span, get}
use peglib.FileSource.Reads.{IsSource, open_source-IsSource, get_lem, run_file-run_span}
use peglib.SourceMap.{of_string, locate, offset_of, of_file, line_content, FileAccess}
use peglib.SourceMap.Scan.{newlines, since_newline}
use peglib.SourceMap.Locate.{locate_lem, offset_of-locate}
use peglib.SourceMap.Content.{line_content-of_file}
use peglib.Expr.{Expr, rule, NonTerminal}
use peglib.Engine.Run.{parse}
use peglib.Grammar.{find_rule, parse_rule}
use peglib.Grammar.Refs.{unreachable_rules}
use peglib.Grammar.Names.{In}
use peglib.Grammar.Reach.{Reaches, IsListed, unreachable_rules_lem}
use peglib.Grammar.Table.{find, get_or_create, get_or_create_lem}
use peglib.Engine.Rules.{resume_at}
use peglib.Engine.Recovery.{IsSyncAt, resume_at_lem}
use peglib.Invariant.{IsDefined, IsSound, IsClosed, Safe, Moves}
use peglib.Invariant.Run.{parse-Safe}
use peglib.Invariant.Entries.{Answers, parse_rule-Answers, from_range-IsValid}
use peglib.Termination.{IsCutFree, IsCutFreeUpTo, height}
use peglib.Termination.Run.{Returns, parse_rule-Returns}
use peglib.Engine.{Outcome, too_deep}
use peglib.Engine.Reports.{nonterminal_parse-Reports}
use peglib.ParseError.Escape.{escape_string_for_expected, escape_wide_string}
use peglib.ParseError.Printable.{IsPrintable, escape_string_for_expected-IsPrintable}
use peglib.Samples.{bad_text, final, num_on_x, num_on_x-fails, sum_text, e_name, num_name, sums}

some-inj : {A : Type 0} (x y : A) → some x ≡ some y → x ≡ y
some-inj x y h = cc

-- A grammar's entry read back.
body_of :
    (nt nt' : NonTerminal) (e e' : Expr)
    → some nt' ≡ some nt
    → nt.m_rule ≡ some e
    → nt'.m_rule ≡ some e'
    → e' ≡ e
body_of nt nt' e e' h b b' = let same : nt' ≡ nt = some-inj nt' nt h in cc

sums-IsDefined_e : IsDefined sums 0
sums-IsDefined_e = (_, _, refl, refl)

sums-IsDefined_num : IsDefined sums 1
sums-IsDefined_num = (_, _, refl, refl)

sums_bodies :
    (id : ℕ) (nt : NonTerminal) (e : Expr)
    → get_elem? sums.non_terminals id ≡ some nt
    → nt.m_rule ≡ some e
    → IsSound sums e
sums_bodies zero nt e h b =
    subst (IsSound sums) (body_of nt _ e _ h b refl)
      ((sums-IsDefined_e, (refl, (sums-IsDefined_num, tt))), (sums-IsDefined_num, tt))
sums_bodies (suc zero) nt e h b = subst (IsSound sums) (body_of nt _ e _ h b refl) refl
sums_bodies (suc (suc id)) nt e h b = absurd cc

sums-IsClosed : IsClosed sums
sums-IsClosed = record { bodies = sums_bodies }

parse-Safe_example :
    Safe sums (from_range sum_text) (Moves 0) (parse 9 sums (rule 0 e_name) (from_range sum_text))
unfolding from_range
parse-Safe_example =
    parse-Safe sums sums-IsClosed 9 (rule 0 e_name) sums-IsDefined_e (from_range sum_text)
      (from_range-IsValid sums sum_text)

parse_rule-Answers_example :
    Answers sums (from_range sum_text) (parse_rule 9 sums e_name (from_range sum_text))
unfolding find_rule bytes_eq
parse_rule-Answers_example =
    parse_rule-Answers sums 9 e_name 0 (from_range sum_text) sums-IsClosed tt refl sums-IsDefined_e
      (from_range-IsValid sums sum_text)

abbrev plus_item : ExpectedItem
plus_item = record { kind = literal; text = b'+' ∷ [] }

abbrev n_item : ExpectedItem
n_item = record { kind = rule_name; text = num_name }

take_error-record_all_example :
    ((d : Diagnostic) × ((take_error
          (record_all ((1, plus_item) ∷ (0, n_item) ∷ []) (from_range sum_text))).1
        ≡ some d)
      × IsFurthest ((1, plus_item) ∷ (0, n_item) ∷ []) d)
    × ((take_error
          (take_error (record_all ((1, plus_item) ∷ (0, n_item) ∷ []) (from_range sum_text))).0).1
        ≡ none)
unfolding from_range
take_error-record_all_example =
    take_error-record_all (1, plus_item) ((0, n_item) ∷ []) (from_range sum_text) refl

-- Back and forth over three pages of two, with a release.
run_file-run_span_example :
    run_file 2
      (fetch 0 ∷ fetch 4 ∷ release_to 2 ∷ fetch 1 ∷ fetch 3 ∷ [])
      (open_source 2 (5 ∷ 6 ∷ 7 ∷ 8 ∷ 9 ∷ []))
    ≡ run_span (fetch 0 ∷ fetch 4 ∷ release_to 2 ∷ fetch 1 ∷ fetch 3 ∷ []) (5 ∷ 6 ∷ 7 ∷ 8 ∷ 9 ∷ [])
run_file-run_span_example =
    run_file-run_span 2 (5 ∷ 6 ∷ 7 ∷ 8 ∷ 9 ∷ [])
      (fetch 0 ∷ fetch 4 ∷ release_to 2 ∷ fetch 1 ∷ fetch 3 ∷ []) (omega arith) (omega arith)

get_lem_example :
    ((get 2 4 (open_source 2 (5 ∷ 6 ∷ 7 ∷ 8 ∷ 9 ∷ []))).1 ≡ some 9)
    × IsSource (5 ∷ 6 ∷ 7 ∷ 8 ∷ 9 ∷ []) (get 2 4 (open_source 2 (5 ∷ 6 ∷ 7 ∷ 8 ∷ 9 ∷ []))).0
get_lem_example =
    get_lem 2 (5 ∷ 6 ∷ 7 ∷ 8 ∷ 9 ∷ []) 4 (open_source 2 (5 ∷ 6 ∷ 7 ∷ 8 ∷ 9 ∷ [])) (omega arith)
      (open_source-IsSource 2 (5 ∷ 6 ∷ 7 ∷ 8 ∷ 9 ∷ []))

abbrev two_lines : Bytes
two_lines = b'a' ∷ b'b' ∷ 13 ∷ 10 ∷ b'c' ∷ []

locate_lem_example : locate (of_string two_lines) 4 ≡ record { offset = 4; line = 2; column = 1 }
unfolding newlines since_newline
locate_lem_example = locate_lem two_lines 4

offset_of-locate_example :
    offset_of
      (of_string two_lines)
      (locate (of_string two_lines) 2).line
      (locate (of_string two_lines) 2).column
    ≡ 2
offset_of-locate_example = offset_of-locate two_lines 2 (omega arith)

abbrev two_lines_file : FileAccess
two_lines_file = record { m_file_size = 5; m_file_at = λ i. get_or two_lines i 0 }

line_content-of_file_example :
    line_content (of_file two_lines_file) 1 ≡ line_content (of_string two_lines) 1
line_content-of_file_example =
    line_content-of_file two_lines_file two_lines (record { size = refl; elements = λ i h. refl }) 1

insert-IsAscending_example : IsAscending (insert (n_item ∷ []) plus_item).0
insert-IsAscending_example = insert-IsAscending (n_item ∷ []) plus_item (tt, tt)

Has-insert_example :
    Has n_item (insert (n_item ∷ []) plus_item).0
    ↔ ((plus_item ≡ n_item) ⊎ Has n_item (n_item ∷ []))
Has-insert_example = Has-insert (n_item ∷ []) plus_item n_item

unreachable_rules_lem_example :
    (names : List Bytes) × (unreachable_rules sums ≡ some names)
    × ((name : Bytes) → In name names ↔ (IsListed sums name sums.m_rules × (Reaches sums name → ⊥)))
unfolding find_rule bytes_eq
unreachable_rules_lem_example = unreachable_rules_lem sums 0 refl refl

get_or_create_lem_example :
    (find e_name (get_or_create e_name sums).0 ≡ some (get_or_create e_name sums).1)
    × ((other : Bytes)
        → bytes_eq e_name other ≡ false
        → find other (get_or_create e_name sums).0 ≡ find other sums)
    × (get_or_create e_name (get_or_create e_name sums).0 ≡ get_or_create e_name sums)
get_or_create_lem_example = get_or_create_lem e_name sums

-- Recovery at the start of "1+2" with `+` as the sync token.
resume_at_lem_example :
    ((i : ℕ) × (resume_at (λ x. x == b'+') 0 (from_range sum_text) ≡ i + 1)
      × (0 ≤ i)
      × (i < input_size (from_range sum_text))
      × IsSyncAt (λ x. x == b'+') (from_range sum_text) i true
      × ((k : ℕ) → 0 ≤ k → k < i → IsSyncAt (λ x. x == b'+') (from_range sum_text) k false))
    ⊎ ((resume_at (λ x. x == b'+') 0 (from_range sum_text) ≡ input_size (from_range sum_text))
        × ((k : ℕ)
            → 0 ≤ k
            → k < input_size (from_range sum_text)
            → IsSyncAt (λ x. x == b'+') (from_range sum_text) k false))
resume_at_lem_example = resume_at_lem (λ x. x == b'+') 0 (from_range sum_text) (omega arith)

nonterminal_parse-Reports_example :
    ((final num_on_x).m_has_error ≡ true) × (0 ≤ (final num_on_x).m_furthest_failure_pos)
unfolding from_range
nonterminal_parse-Reports_example =
    nonterminal_parse-Reports sums (parse 3 sums) 1 _ (from_range bad_text) (final num_on_x) failed
      refl refl refl num_on_x-fails refl

escape_string_for_expected-IsPrintable_example :
    IsPrintable (escape_string_for_expected (0 ∷ 10 ∷ 34 ∷ 200 ∷ []))
    × IsPrintable (escape_wide_string (0 ∷ 10 ∷ 34 ∷ 200 ∷ []))
escape_string_for_expected-IsPrintable_example =
    escape_string_for_expected-IsPrintable (0 ∷ 10 ∷ 34 ∷ 200 ∷ [])

sums-IsCutFreeUpTo : IsCutFreeUpTo 2 sums
unfolding height
sums-IsCutFreeUpTo = record { bodies = cut_free_bodies }
  where
    cut_free_bodies :
        (id : ℕ) (nt : NonTerminal) (e : Expr)
        → get_elem? sums.non_terminals id ≡ some nt
        → nt.m_rule ≡ some e
        → IsCutFree e × (height e ≤ 2)
    cut_free_bodies zero nt e h b =
        subst (λ x. IsCutFree x × (height x ≤ 2)) (body_of nt _ e _ h b refl)
          ((((tt, (tt, (tt, tt)))), (tt, tt)), omega arith)
    cut_free_bodies (suc zero) nt e h b =
        subst (λ x. IsCutFree x × (height x ≤ 2)) (body_of nt _ e _ h b refl) (tt, omega arith)
    cut_free_bodies (suc (suc id)) nt e h b = absurd cc

parse_rule-Returns_example : Returns (parse_rule 60 sums e_name (from_range sum_text))
unfolding find_rule bytes_eq
parse_rule-Returns_example =
    parse_rule-Returns sums 2 60 e_name 0 sum_text sums-IsClosed sums-IsCutFreeUpTo tt refl
      sums-IsDefined_e (omega arith)
