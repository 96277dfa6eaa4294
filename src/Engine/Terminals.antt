-- ===== src/Engine/Terminals.antt =====
-- The `parse` members of include/peglib/Terminals.h, and `record_terminal_expected` of ParserFwd.h.
-- A `std::set` is the ascending list of its elements.
use peglib.Prelude.{
  ℕ, ◌-◌, Bool, true, false, List, [], ◌∷◌, ◌++◌, Option, none, some, ◌&&◌, ◌||◌, not,
  if◌then◌else◌,
}
use peglib.ParseError.{Bytes, ExpectedItem, literal, range}
use peglib.ParseError.Escape.{
  integral_to_display, escape_char_for_expected, escape_string_for_expected,
}
use peglib.Context.{
  Context, Span, ParseResult, failed, mark, set_state, ended, current, next, make_node, update_node,
  record_failure,
}
use peglib.Expr.{TerminalValue, value, set, predicate, symbol_consumable, is_proper}
use peglib.Engine.{ok, Parser, ◌>>=◌, ◌>>◌, pure, modify, method, asserting, reset}

-- `", "`-joined escapes.
unfoldable pub joined : Bool → List ℕ → Bytes
joined byte_sized [] = []
joined byte_sized (v ∷ []) = escape_char_for_expected byte_sized v
joined byte_sized (v ∷ vs) =
    escape_char_for_expected byte_sized v ++ b',' ∷ b' ' ∷ joined byte_sized vs

unfoldable pub terminal_expected : Bool → TerminalValue → Bytes → ExpectedItem
unfolding joined
terminal_expected byte_sized (value v) fallback = record {
  kind = literal;
  text = escape_char_for_expected byte_sized v;
}
terminal_expected byte_sized (TerminalValue.range lo hi) fallback = record {
  kind = range;
  text =
      escape_char_for_expected byte_sized lo
      ++ b'.' ∷ b'.' ∷ escape_char_for_expected byte_sized hi;
}
terminal_expected byte_sized (set vs) fallback = record {
  kind = range;
  text = joined byte_sized vs;
}
terminal_expected byte_sized (predicate f) fallback = record { kind = literal; text = fallback }

unfoldable pub record_terminal_expected : Bool → TerminalValue → Bytes → Context → Context
record_terminal_expected byte_sized v fallback c =
    record_failure (mark c) (terminal_expected byte_sized v fallback) c

abbrev pub element_consumable : Option ℕ → TerminalValue → Bool
element_consumable none v = false
element_consumable (some x) v = symbol_consumable x v

-- `!context.ended() && symbolConsumable(context.current(), value)`
unfoldable pub consumable : TerminalValue → Context → Bool
consumable v c = not (ended c) && element_consumable (current c) v

-- The assertion of `symbolConsumable`, which is not called at the end of the input.
abbrev pub asserted : {A : Type 0} → TerminalValue → Parser A → Parser A
asserted v m c = asserting (is_proper v || ended c) m c

-- The fallbacks `<terminal>` and `<token>`.
abbrev terminal_fallback : Bytes
terminal_fallback = b'<' ∷ b't' ∷ b'e' ∷ b'r' ∷ b'm' ∷ b'i' ∷ b'n' ∷ b'a' ∷ b'l' ∷ b'>' ∷ []

abbrev token_fallback : Bytes
token_fallback = b'<' ∷ b't' ∷ b'o' ∷ b'k' ∷ b'e' ∷ b'n' ∷ b'>' ∷ []

unfoldable pub terminal_parse : Bool → TerminalValue → Parser ParseResult
terminal_parse byte_sized v = asserted v λ c.
    if consumable v c
    then ok (record { success = true; tree = none }) (next c)
    else ok failed (record_terminal_expected byte_sized v terminal_fallback c)

-- The node brackets the one element that was consumed.
abbrev pub bracket : ℕ → Context → Context
bracket node c =
    update_node node (λ n. record n { start_offset = mark c - 1; end_offset = mark c }) c

unfoldable pub token_parse : Bool → TerminalValue → Parser ParseResult
token_parse byte_sized v = asserted v λ c.
    if consumable v c
    then (do
      modify next
      node ← method make_node
      modify (bracket node)
      pure (record { success = true; tree = some node }))
        c
    else ok failed (record_terminal_expected byte_sized v token_fallback c)

-- The loop over the values: where it stops, and whether all were consumed.
unfoldable pub consume_all : List ℕ → Context → Context × Bool
consume_all [] c = (c, true)
consume_all (v ∷ vs) c = if consumable (value v) c then consume_all vs (next c) else (c, false)

display_all : Bool → List ℕ → Bytes
display_all byte_sized [] = []
display_all byte_sized (v ∷ vs) = integral_to_display byte_sized v ++ display_all byte_sized vs

-- `TerminalSeqExpr::record_expected`
unfoldable pub record_expected : Bool → List ℕ → Context → Context
unfolding display_all
record_expected byte_sized vs c =
    record_failure (mark c)
      (record { kind = literal; text = escape_string_for_expected (display_all byte_sized vs) }) c

unfoldable pub terminal_seq_parse : Bool → List ℕ → Parser ParseResult
terminal_seq_parse byte_sized vs c =
    let (c', matched) = consume_all vs c in
    if matched
    then ok (record { success = true; tree = none }) c'
    else ok failed (record_expected byte_sized vs (set_state (mark c) c'))

-- The node of a match spans what the user's function consumed.
unfoldable pub accept_span : ℕ → Option Span → Parser ParseResult
accept_span start none = pure failed
accept_span start (some consumed) = do
  reset consumed.end
  node ← method make_node
  modify (update_node node (λ n. record n { start_offset = start; end_offset = consumed.end }))
  pure (record { success = true; tree = some node })

unfoldable pub matcher_parse : (Context → Span → Option Span) → Parser ParseResult
unfolding accept_span
matcher_parse fn c = accept_span (mark c) (fn c (record { start = mark c; end = mark c })) c
