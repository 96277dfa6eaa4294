-- ===== src/Engine/Rules.antt =====
-- `NonTerminal::parse` of include/peglib/NonTerminal.h: packrat memoisation, the seed-grow loop for
-- left recursion, error recovery and the rule's tree node. `p` parses the rule's body.
use peglib.Prelude.{
  ℕ, zero, suc, ◌+◌, Bool, true, false, List, [], ◌∷◌, ◌++◌, Option, none, some, not, ◌&&◌, ltb,
  ◌==◌, if◌then◌else◌, drop, get_elem?, length,
}
use peglib.ParseError.{Bytes, rule_label, rule_name}
use peglib.Context.{
  Context, ParseResult, failed, RuleState, LrFrame, input_size, mark, make_node, update_node,
  rule_state, update_rule_state, memo_get, lr_push, lr_in_progress, growing_head, set_growing_head,
  clear_growing_head, clear_siblings_at, get_cut, record_failure, record_diagnostic,
}
use peglib.Expr.{Expr, NonTerminal, Grammar}
use peglib.Engine.{reset, lr_pop, fault, diverged, Parser, ◌>>=◌, ◌>>◌, pure, gets, modify, method}

-- The scan for the first frame of the rule at the position; `true` if it was not yet a head.
unfoldable pub mark_head : List LrFrame → ℕ → ℕ → List LrFrame × Bool
mark_head [] rule pos = ([], false)
mark_head (f ∷ fs) rule pos =
    let (fs', marked) = mark_head fs rule pos in
    if (f.pos == pos) && (f.rule == rule)
    then (record f { is_head = true } ∷ fs, not f.is_head)
    else (f ∷ fs', marked)

unfoldable pub become_head : ℕ → ℕ → Context → Context
become_head rule start_pos c =
    let (frames, marked) = mark_head c.m_lr_stack rule start_pos in
    let c' = record c { m_lr_stack = frames } in
    if marked then set_growing_head start_pos rule c' else c'

-- Return a cached result from its end position.
abbrev pub replay : RuleState → Parser ParseResult
replay s = reset s.m_last_pos >> pure s.m_cached_result

-- `head != nullptr && head != this`
abbrev pub is_involved : Option ℕ → ℕ → Bool
is_involved none rule = false
is_involved (some head) rule = not (head == rule)

-- The three cases of a memo hit.
unfoldable pub memo_hit : ℕ → ℕ → RuleState → Parser ParseResult
memo_hit rule start_pos state c =
    if lr_in_progress rule start_pos c
    then (do
      modify (become_head rule start_pos)
      seed ← gets (memo_get rule start_pos)
      replay seed)
        c
    else if is_involved (growing_head start_pos c) rule
    then replay (memo_get rule start_pos c) c
    else replay state c

-- The frame of the running call is the top of the stack.
abbrev pub top_frame : List LrFrame → LrFrame
top_frame [] = record { rule = 0; pos = 0; last_pos = 0; is_head = false }
top_frame (f ∷ fs) = f

abbrev pub frame : Context → LrFrame
frame c = top_frame c.m_lr_stack

abbrev pub advance_top : ℕ → List LrFrame → List LrFrame
advance_top pos [] = []
advance_top pos (f ∷ fs) = record f { last_pos = pos } ∷ fs

abbrev pub set_last_pos : ℕ → Context → Context
set_last_pos pos c = record c { m_lr_stack = advance_top pos c.m_lr_stack }

-- What `parseImpl` leaves in its variables: `best` and the caller's `rule_state`.
pub record Grown : Type 0 where
  pub best : ParseResult
  pub state : RuleState

abbrev pub clear_if_growing : ℕ → ℕ → Bool → Context → Context
clear_if_growing rule start_pos best_success c =
    if (frame c).is_head && best_success then clear_siblings_at start_pos rule c else c

unfoldable pub grow_loop : ℕ → Parser ParseResult → ℕ → ℕ → ParseResult → RuleState → Parser Grown
grow_loop zero p rule start_pos best state c = diverged
grow_loop (suc bound) p rule start_pos best state c =
    (do
      reset start_pos
      modify (clear_if_growing rule start_pos best.success)
      result ← p
      end_pos ← gets mark
      last_pos ← gets (λ c. (frame c).last_pos)
      elim result.success [
        | true ↦ elim (ltb last_pos end_pos) [
          | true ↦ do
            modify (set_last_pos end_pos)
            let grown : RuleState = record { m_last_pos = end_pos; m_cached_result = result }
            updated ← method (update_rule_state rule start_pos grown)
            elim updated [
              | true ↦ grow_loop bound p rule start_pos result grown
              | false ↦ pure (record { best = result; state = grown })
            ]
          | false ↦ do
            let kept : ParseResult = if best.success then best else result
            let fixed : RuleState = record { m_last_pos = last_pos; m_cached_result = kept }
            _ ← method (update_rule_state rule start_pos fixed)
            pure (record { best = kept; state = fixed })
        ]
        | false ↦ pure (record { best = best; state = state })
      ])
      c

abbrev pub reset_to_frame : Parser (Unit {0})
reset_to_frame c = reset (frame c).last_pos c

-- Each round but the last gets further in the input.
unfoldable pub parse_impl : Parser ParseResult → ℕ → ℕ → Parser Grown
parse_impl p rule start_pos = do
  modify (set_last_pos start_pos)
  let seed : RuleState = record { m_last_pos = start_pos; m_cached_result = failed }
  _ ← method (update_rule_state rule start_pos seed)
  bound ← gets (λ c. suc (suc (input_size c)))
  grown ← grow_loop bound p rule start_pos failed seed
  reset_to_frame
  pure grown

abbrev pub is_empty : Bytes → Bool
is_empty [] = true
is_empty (x ∷ xs) = false

unfoldable pub record_rule_failure : NonTerminal → ℕ → Context → Context
record_rule_failure nt start_pos c =
    if not (is_empty nt.m_label)
    then record_failure start_pos (record { kind = rule_label; text = nt.m_label }) c
    else if not (is_empty nt.m_name)
    then record_failure start_pos (record { kind = rule_name; text = nt.m_name }) c
    else c

-- The scan for a sync token, over the elements from `scan` on.
unfoldable pub sync_scan : (ℕ → Bool) → ℕ → List ℕ → ℕ
sync_scan is_sync_token scan [] = scan
sync_scan is_sync_token scan (x ∷ xs) =
    if is_sync_token x then scan else sync_scan is_sync_token (suc scan) xs

unfoldable pub resume_at : (ℕ → Bool) → ℕ → Context → ℕ
unfolding sync_scan
resume_at is_sync_token start_pos c =
    let scan = sync_scan is_sync_token start_pos (drop start_pos c.m_input) in
    if ltb scan (input_size c) then scan + 1 else input_size c

-- Recovered success, with a null tree.
unfoldable pub recover : NonTerminal → (ℕ → Bool) → ℕ → ℕ → Parser ParseResult
recover nt is_sync_token rule start_pos = do
  resume ← gets (resume_at is_sync_token start_pos)
  reset resume
  let label = if is_empty nt.m_recover.label then nt.m_name else nt.m_recover.label
  modify (
      record_diagnostic (record {
        m_pos = start_pos;
        m_expected = record { kind = rule_label; text = label } ∷ [];
      }))
  let recovered : ParseResult = record { success = true; tree = none }
  _ ← method (
      update_rule_state rule start_pos
        (record { m_last_pos = resume; m_cached_result = recovered }))
  pure recovered

abbrev pub give_up : ℕ → ℕ → RuleState → Parser ParseResult
give_up rule start_pos state = do
  _ ← method (update_rule_state rule start_pos (record state { m_cached_result = failed }))
  pure failed

-- `m_recover.configured() && !context.cut()`
abbrev pub recover_or :
    Option (ℕ → Bool)
    → Bool
    → ((ℕ → Bool) → Parser ParseResult)
    → Parser ParseResult
    → Parser ParseResult
recover_or (some f) false recovered otherwise = recovered f
recover_or _ _ recovered otherwise = otherwise

unfoldable pub fail_rule : NonTerminal → ℕ → ℕ → RuleState → Parser ParseResult
fail_rule nt rule start_pos state = do
  modify (record_rule_failure nt start_pos)
  committed ← gets get_cut
  recover_or nt.m_recover.is_sync_token committed (λ f. recover nt f rule start_pos)
      (give_up rule start_pos state)

abbrev pub or_rule : Option ℕ → ℕ → Option ℕ
or_rule none rule = some rule
or_rule (some r) rule = some r

-- A node of the rule's own, around the body's node.
abbrev pub wrap_node : NonTerminal → ℕ → ℕ → Option ℕ → Parser ℕ
wrap_node nt rule start_pos tree = do
  node ← method make_node
  modify (λ c.
      update_node node
        (λ n. record n {
          name = nt.m_name;
          producer = some rule;
          start_offset = start_pos;
          end_offset = mark c;
          children = elim tree [ none ↦ n.children | some t ↦ n.children ++ some t ∷ [] ];
        })
        c)
  pure node

abbrev pub own_or_new : Option ℕ → Parser ℕ
own_or_new none = method make_node
own_or_new (some t) = pure t

-- The body's node, adopted: the innermost producer stays.
abbrev pub adopt_node : NonTerminal → ℕ → ℕ → Option ℕ → Parser ℕ
adopt_node nt rule start_pos tree = do
  node ← own_or_new tree
  modify (λ c.
      update_node node
        (λ n. record n {
          name = nt.m_name;
          producer = or_rule n.producer rule;
          start_offset = start_pos;
          end_offset = mark c;
        })
        c)
  pure node

abbrev pub build_node : Bool → NonTerminal → ℕ → ℕ → Option ℕ → Parser ℕ
build_node true nt rule start_pos tree = wrap_node nt rule start_pos tree
build_node false nt rule start_pos tree = adopt_node nt rule start_pos tree

unfoldable pub finish_rule : NonTerminal → ℕ → ℕ → Grown → Parser ParseResult
finish_rule nt rule start_pos inner = do
  node ← build_node nt.has_typed_fold nt rule start_pos inner.best.tree
  let result : ParseResult = record { success = true; tree = some node }
  _ ← method (update_rule_state rule start_pos (record inner.state { m_cached_result = result }))
  pure result

-- `if (frame.is_head) context.clear_growing_head(start_pos)`
abbrev pub clear_if_head : Bool → ℕ → Context → Context
clear_if_head is_head start_pos c = if is_head then clear_growing_head start_pos c else c

abbrev pub leave_frame : ℕ → ℕ → Parser (Unit {0})
leave_frame frames start_pos c =
    let is_head = (frame c).is_head in (lr_pop frames >> modify (clear_if_head is_head start_pos)) c

-- The first parse of the rule at the position. An exception leaves the frame on the stack.
unfoldable pub first_parse : NonTerminal → Parser ParseResult → ℕ → ℕ → Parser ParseResult
first_parse nt p rule start_pos = do
  modify (lr_push (record { rule = rule; pos = start_pos; last_pos = start_pos; is_head = false }))
  frames ← gets (λ c. length c.m_lr_stack)
  inner ← parse_impl p rule start_pos
  leave_frame frames start_pos
  elim inner.best.success [
    | true ↦ finish_rule nt rule start_pos inner
    | false ↦ fail_rule nt rule start_pos inner.state
  ]

-- `assert(m_rule)`
abbrev pub parse_body : (Expr → Parser ParseResult) → Option Expr → Parser ParseResult
parse_body p none c = fault
parse_body p (some e) c = p e c

abbrev pub with_rule : Option NonTerminal → (NonTerminal → Parser ParseResult) → Parser ParseResult
with_rule none k c = fault
with_rule (some nt) k c = k nt c

unfoldable pub nonterminal_parse : Grammar → (Expr → Parser ParseResult) → ℕ → Parser ParseResult
nonterminal_parse g p rule = with_rule (get_elem? g.non_terminals rule) λ nt. do
  start_pos ← gets mark
  (is_new, state) ← method (rule_state rule start_pos)
  elim is_new [
    | true ↦ first_parse nt (parse_body p nt.m_rule) rule start_pos
    | false ↦ memo_hit rule start_pos state
  ]
