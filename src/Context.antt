-- ===== src/Context.antt =====
-- include/peglib/Context.h: the parse state, constructed from a contiguous range, and its
-- operations. A pointer to a tree node is its index in the arena, and a pointer to a NonTerminal is
-- its index in the grammar's table of rules.
pub mod Errors
use peglib.Prelude.{
  ℕ, zero, suc, ◌+◌, Bool, true, false, List, [], ◌∷◌, ◌++◌, Option, none, some, not, ◌&&◌, ◌||◌,
  ltb, leb, ◌==◌, if◌then◌else◌, length, get_elem?, get_or, set,
}
use peglib.ParseError.{Bytes, ExpectedItem, ExpectedSet, insert, Diagnostic}

pub record Span : Type 0 where
  pub start : ℕ
  pub end : ℕ

-- A child is a pointer, which is null where `resize` padded the vector. `alt_winner = none` is
-- the source's SIZE_MAX.
pub record ParseTreeNode : Type 0 where
  pub name : Bytes
  pub start_offset : ℕ
  pub end_offset : ℕ
  pub children : List (Option ℕ)
  pub producer : Option ℕ
  pub alt_winner : Option ℕ

abbrev pub blank_node : ParseTreeNode
blank_node = record {
  name = [];
  start_offset = 0;
  end_offset = 0;
  children = [];
  producer = none;
  alt_winner = none;
}

pub record ParseResult : Type 0 where
  pub success : Bool
  pub tree : Option ℕ

abbrev pub failed : ParseResult
failed = record { success = false; tree = none }

pub record RuleState : Type 0 where
  pub m_last_pos : ℕ
  pub m_cached_result : ParseResult

abbrev pub default_rule_state : RuleState
default_rule_state = record { m_last_pos = 0; m_cached_result = failed }

-- The frame's `next` is the rest of the stack.
pub record LrFrame : Type 0 where
  pub rule : ℕ
  pub pos : ℕ
  pub last_pos : ℕ
  pub is_head : Bool

pub record CutRecord : Type 0 where
  pub pos : ℕ
  pub cut : Bool

-- The two-level table of RuleStates by position and rule. An empty inner table is never told
-- apart from one that is missing.
abbrev pub MemoTable : Type 0
MemoTable = ℕ → ℕ → Option RuleState

pub record Context : Type 0 where
  pub m_input : List ℕ
  pub m_position : ℕ
  pub m_last_cut : ℕ
  pub m_node_arena : List ParseTreeNode
  pub m_mem : MemoTable
  pub m_cut : List CutRecord
  pub m_lr_stack : List LrFrame
  pub m_growing_head : ℕ → Option ℕ
  pub m_furthest_failure_pos : ℕ
  pub m_expected : ExpectedSet
  pub m_has_error : Bool
  pub m_diagnostics : List Diagnostic
  pub m_skipper : Option ℕ
  pub m_skip_enabled : Bool

-- `Context(const Range&)`: every other member has its initialiser.
unfoldable pub from_range : List ℕ → Context
from_range t = record {
  m_input = t;
  m_position = 0;
  m_last_cut = 0;
  m_node_arena = [];
  m_mem = λ pos rule. none;
  m_cut = [];
  m_lr_stack = [];
  m_growing_head = λ pos. none;
  m_furthest_failure_pos = 0;
  m_expected = [];
  m_has_error = false;
  m_diagnostics = [];
  m_skipper = none;
  m_skip_enabled = true;
}

abbrev pub input_size : Context → ℕ
input_size c = length c.m_input

-- `state()` and `mark()` both read the position; `state(s)` sets it with no assertion.
abbrev pub mark : Context → ℕ
mark c = c.m_position

abbrev pub set_state : ℕ → Context → Context
set_state pos c = record c { m_position = pos }

unfoldable pub ended : Context → Bool
ended c = leb (input_size c) c.m_position

-- `at` and `current`, for offsets below the size; `none` is the failed assertion.
abbrev pub at : ℕ → Context → Option ℕ
at offset c = get_elem? c.m_input offset

abbrev pub current : Context → Option ℕ
current c = at c.m_position c

unfoldable pub next : Context → Context
next c = if ltb c.m_position (input_size c) then record c { m_position = c.m_position + 1 } else c

-- The arena and the pointer to the new node.
abbrev pub make_node : Context → Context × ℕ
make_node c = (record c { m_node_arena = c.m_node_arena ++ blank_node ∷ [] }, length c.m_node_arena)

-- Writing through a node pointer.
abbrev pub update_node : ℕ → (ParseTreeNode → ParseTreeNode) → Context → Context
update_node n f c = record c {
  m_node_arena = set c.m_node_arena n (f (get_or c.m_node_arena n blank_node));
}

abbrev pub put_entry : ℕ → ℕ → RuleState → MemoTable → MemoTable
put_entry pos rule s mem p r = if (p == pos) && (r == rule) then some s else mem p r

abbrev pub or_default : Option RuleState → RuleState
or_default none = default_rule_state
or_default (some s) = s

abbrev pub is_some : Option RuleState → Bool
is_some none = false
is_some (some s) = true

-- `rule_state`: whether the entry is new, the state, and the context with the entry in place.
unfoldable pub rule_state : ℕ → ℕ → Context → Context × (Bool × RuleState)
rule_state rule pos c =
    let entry = c.m_mem pos rule in
    (
      record c {
        m_mem = if is_some entry then c.m_mem else put_entry pos rule default_rule_state c.m_mem;
      },
      (not (is_some entry), or_default entry),
    )

unfoldable pub update_rule_state : ℕ → ℕ → RuleState → Context → Context × Bool
update_rule_state rule start_pos s c =
    if is_some (c.m_mem start_pos rule)
    then (record c { m_mem = put_entry start_pos rule s c.m_mem }, true)
    else (c, false)

unfoldable pub memo_get : ℕ → ℕ → Context → RuleState
memo_get rule pos c = or_default (c.m_mem pos rule)

abbrev pub lr_push : LrFrame → Context → Context
lr_push frame c = record c { m_lr_stack = frame ∷ c.m_lr_stack }

abbrev pub below_top : List LrFrame → List LrFrame
below_top [] = []
below_top (f ∷ fs) = fs

abbrev pub pop_top : Context → Context
pop_top c = record c { m_lr_stack = below_top c.m_lr_stack }

unfoldable pub in_progress : List LrFrame → ℕ → ℕ → Bool
in_progress [] rule pos = false
in_progress (f ∷ fs) rule pos = ((f.pos == pos) && (f.rule == rule)) || in_progress fs rule pos

abbrev pub lr_in_progress : ℕ → ℕ → Context → Bool
lr_in_progress rule pos c = in_progress c.m_lr_stack rule pos

abbrev pub growing_head : ℕ → Context → Option ℕ
growing_head pos c = c.m_growing_head pos

unfoldable pub set_growing_head : ℕ → ℕ → Context → Context
set_growing_head pos rule c = record c {
  m_growing_head = λ p. if p == pos then some rule else c.m_growing_head p;
}

unfoldable pub clear_growing_head : ℕ → Context → Context
clear_growing_head pos c = record c {
  m_growing_head = λ p. if p == pos then none else c.m_growing_head p;
}

unfoldable pub clear_siblings_at : ℕ → ℕ → Context → Context
clear_siblings_at pos keep c = record c {
  m_mem = λ p rule.
      if (p == pos) && not ((rule == keep) || lr_in_progress rule pos c)
      then none
      else c.m_mem p rule;
}

abbrev pub set_top : Bool → ℕ → List CutRecord → List CutRecord
set_top b pos [] = []
set_top b pos (r ∷ rs) = record { pos = pos; cut = b } ∷ rs

-- `cut(bool)`: no-op on an empty stack.
abbrev pub set_cut : Bool → Context → Context
set_cut b c = record c { m_cut = set_top b (mark c) c.m_cut }

abbrev pub top_cut : List CutRecord → Bool
top_cut [] = false
top_cut (r ∷ rs) = r.cut

-- `cut()`
abbrev pub get_cut : Context → Bool
get_cut c = top_cut c.m_cut

abbrev pub init_cut : Context → Context
init_cut c = record c { m_cut = record { pos = mark c; cut = false } ∷ c.m_cut }

-- The `std::erase_if` of `remove_cut`.
abbrev pub forget_before : ℕ → MemoTable → MemoTable
forget_before last_cut mem pos rule = if ltb pos last_cut then none else mem pos rule

-- `remove_cut` of a context whose stack is the first argument. A contiguous source's
-- `release_before` does nothing.
unfoldable pub pop_cut : List CutRecord → Context → Context
pop_cut [] c = c
pop_cut (r ∷ rs) c =
    if r.cut
    then record c { m_last_cut = r.pos; m_mem = forget_before r.pos c.m_mem; m_cut = rs }
    else record c { m_cut = rs }

abbrev pub remove_cut : Context → Context
remove_cut c = pop_cut c.m_cut c

abbrev pub internal_set_skipper : Option ℕ → Context → Context
internal_set_skipper s c = record c { m_skipper = s }

abbrev pub set_skip_enabled : Bool → Context → Context
set_skip_enabled e c = record c { m_skip_enabled = e }

-- `record_failure`; `record_failure_lazy` retains the same items and differs in when the text of
-- the item is built.
unfoldable pub record_failure : ℕ → ExpectedItem → Context → Context
record_failure pos item c =
    if not c.m_has_error || ltb c.m_furthest_failure_pos pos
    then record c {
      m_furthest_failure_pos = pos;
      m_expected = (insert [] item).0;
      m_has_error = true;
    }
    else if pos == c.m_furthest_failure_pos
    then record c { m_expected = (insert c.m_expected item).0 }
    else c

-- The context after the error has been moved out, and the error.
unfoldable pub take_error : Context → Context × Option Diagnostic
take_error c = if not c.m_has_error then (c, none) else (
  record c { m_has_error = false; m_expected = []; m_furthest_failure_pos = 0 },
  some (record { m_pos = c.m_furthest_failure_pos; m_expected = c.m_expected }),
)

abbrev pub record_diagnostic : Diagnostic → Context → Context
record_diagnostic d c = record c { m_diagnostics = c.m_diagnostics ++ d ∷ [] }

unfoldable pub take_diagnostics : Context → Context × List Diagnostic
take_diagnostics c = (record c { m_diagnostics = [] }, c.m_diagnostics)
