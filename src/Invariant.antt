-- ===== src/Invariant.antt =====
-- What holds of a context between calls, and how a call leaves its caller's context.
pub mod Relations
pub mod Operations
pub mod Memo
pub mod Scope
pub mod Safe
pub mod Terminals
pub mod Skipper
pub mod Combinators
pub mod Repeat
pub mod Hits
pub mod Grow
pub mod Finish
pub mod Rules
pub mod Run
pub mod Entries
use peglib.Prelude.{
  ℕ, ◌≤◌, ◌≡◌, true, false, List, [], ◌∷◌, ◌++◌, Option, none, some, ◌⊎◌, All, length, get_elem?,
}
use peglib.ParseError.{ExpectedSet, Diagnostic, ParseError}
use peglib.ParseError.Insert.{IsAscending}
use peglib.Context.{
  Context, Span, RuleState, MemoTable, LrFrame, CutRecord, ParseResult, input_size,
}
use peglib.Expr.{
  Expr, Exprs, nil, cons, terminal, terminal_seq, token, matcher, empty, sequence, alternation,
  zero_or_more, one_or_more, n_times, optional, not_expr, and_expr, cut_expr, lexeme, rule,
  NonTerminal, Grammar, is_proper,
}
use peglib.Engine.{Outcome, ok, throw, fault, diverged, too_deep}

-- A rule handle points to an object of the grammar whose body has been assigned.
abbrev pub IsDefined : Grammar → ℕ → Type 0
IsDefined g id =
    (nt : NonTerminal) × (e : Expr) × (get_elem? g.non_terminals id ≡ some nt)
    × (nt.m_rule ≡ some e)

-- A matcher returns spans that begin where it was called and lie inside the input.
abbrev pub StaysInside : (Context → Span → Option Span) → Type 0
StaysInside fn =
    (c : Context) (start s : Span)
    → fn c start ≡ some s
    → start.start ≤ s.end × (s.end ≤ input_size c)

abbrev mutual
  pub IsSound : Grammar → Expr → Type 0
  IsSound g (terminal v) = is_proper v ≡ true
  IsSound g (token v) = is_proper v ≡ true
  IsSound g (matcher fn) = StaysInside fn
  IsSound g (sequence es) = AreSound g es
  IsSound g (alternation es) = AreSound g es
  IsSound g (zero_or_more e) = IsSound g e
  IsSound g (one_or_more e) = IsSound g e
  IsSound g (n_times e n) = IsSound g e
  IsSound g (optional e) = IsSound g e
  IsSound g (not_expr e) = IsSound g e
  IsSound g (and_expr e) = IsSound g e
  IsSound g (lexeme e) = IsSound g e
  IsSound g (rule id name) = IsDefined g id
  IsSound g _ = Unit

  pub AreSound : Grammar → Exprs → Type 0
  AreSound g nil = Unit
  AreSound g (cons e es) = IsSound g e × AreSound g es

-- Every assigned body refers to assigned rules only, its ranges have min <= max, and its matchers
-- stay inside the input.
pub record IsClosed (g : Grammar) : Type 0 where
  pub bodies :
      (id : ℕ) (nt : NonTerminal) (e : Expr)
      → get_elem? g.non_terminals id ≡ some nt
      → nt.m_rule ≡ some e
      → IsSound g e

-- A cached answer ends at or after its key's position, inside the input, and at that position if
-- it is a failure.
pub record IsEntry (size pos : ℕ) (s : RuleState) : Type 0 where
  pub from : pos ≤ s.m_last_pos
  pub within : s.m_last_pos ≤ size
  pub stays : s.m_cached_result.success ≡ false → s.m_last_pos ≡ pos

abbrev pub IsMemo : ℕ → MemoTable → Type 0
IsMemo size mem = (pos rule : ℕ) (s : RuleState) → mem pos rule ≡ some s → IsEntry size pos s

abbrev pub HasSkipper : Grammar → Option ℕ → Type 0
HasSkipper g none = Unit
HasSkipper g (some id) = IsDefined g id

pub record IsValid (g : Grammar) (c : Context) : Type 0 where
  pub position : c.m_position ≤ input_size c
  pub memo : IsMemo (input_size c) c.m_mem
  pub furthest : c.m_furthest_failure_pos ≤ input_size c
  pub ascending : IsAscending c.m_expected
  pub last_cut : c.m_last_cut ≤ input_size c
  pub cuts : All (λ r. r.pos ≤ input_size c) c.m_cut
  pub skipper : HasSkipper g c.m_skipper

-- The cut stack below its top is untouched.
abbrev pub SameBelow : List CutRecord → List CutRecord → Type 0
SameBelow [] [] = Unit
SameBelow (r ∷ rs) (s ∷ ss) = rs ≡ ss
SameBelow _ _ = ⊥

-- The frames are the same, except that some have become heads.
abbrev pub SameFrames : List LrFrame → List LrFrame → Type 0
SameFrames [] [] = Unit
SameFrames (f ∷ fs) (h ∷ hs) =
    (f.rule ≡ h.rule)
    × (f.pos ≡ h.pos)
    × (f.last_pos ≡ h.last_pos)
    × (f.is_head ≡ true → h.is_head ≡ true)
    × SameFrames fs hs
SameFrames _ _ = ⊥

-- The same below frames that an exception left behind.
abbrev pub Buried : List LrFrame → List LrFrame → Type 0
Buried fs [] = SameFrames fs []
Buried fs (h ∷ hs) = SameFrames fs (h ∷ hs) ⊎ Buried fs hs

-- A recorded failure stays recorded, and its position never moves back.
abbrev pub ErrorGrows : Context → Context → Type 0
ErrorGrows c d =
    c.m_has_error ≡ true
    → (d.m_has_error ≡ true) × (c.m_furthest_failure_pos ≤ d.m_furthest_failure_pos)

abbrev pub DiagnosticsGrow : Context → Context → Type 0
DiagnosticsGrow c d = (ds : List Diagnostic) × (d.m_diagnostics ≡ c.m_diagnostics ++ ds)

-- How a call that returns leaves the context.
pub record Keeps (c d : Context) : Type 0 where
  pub input : c.m_input ≡ d.m_input
  pub skipper : c.m_skipper ≡ d.m_skipper
  pub skip_enabled : c.m_skip_enabled ≡ d.m_skip_enabled
  pub cuts : SameBelow c.m_cut d.m_cut
  pub frames : SameFrames c.m_lr_stack d.m_lr_stack
  pub errors : ErrorGrows c d
  pub diagnostics : DiagnosticsGrow c d
  pub arena : length c.m_node_arena ≤ length d.m_node_arena

-- How a call that throws leaves it.
pub record Unwinds (c d : Context) : Type 0 where
  pub input : c.m_input ≡ d.m_input
  pub skipper : c.m_skipper ≡ d.m_skipper
  pub cuts : SameBelow c.m_cut d.m_cut
  pub frames : Buried c.m_lr_stack d.m_lr_stack
  pub errors : ErrorGrows c d
  pub diagnostics : DiagnosticsGrow c d

abbrev pub Carries : ParseError → Context → Type 0
Carries e d = (e.m_pos ≡ d.m_furthest_failure_pos) × (e.m_expected ≡ d.m_expected)

-- A call from `c` that returns keeps the invariant and meets `Q`; one that throws carries the
-- furthest failure; none fails an assertion or loops for ever.
abbrev pub Safe : {A : Type 0} → Grammar → Context → (A → Context → Type 0) → Outcome A → Type 0
Safe g c Q (ok a d) = IsValid g d × Keeps c d × Q a d
Safe g c Q (throw e d) = Unwinds c d × Carries e d
Safe g c Q fault = ⊥
Safe g c Q diverged = ⊥
Safe g c Q too_deep = Unit

-- A match ends at or after its start, and a failed one at its start.
abbrev pub Moves : ℕ → ParseResult → Context → Type 0
Moves start r d = (start ≤ d.m_position) × (r.success ≡ false → d.m_position ≡ start)
