-- ===== src/Engine.antt =====
-- Running an expression on a context: the outcome of a call, and the monad of calls.
pub mod Terminals
pub mod Combinators
pub mod Rules
pub mod Recovery
pub mod Texts
pub mod Reports
pub mod Nodes
pub mod Run
use peglib.Prelude.{ℕ, Bool, true, false, length, leb, ◌==◌}
use peglib.ParseError.{ParseError}
use peglib.Context.{Context, input_size, set_state, pop_top}

-- `throw` is a C++ exception on its way up. `fault` is a failed assertion or a null dereference,
-- and `diverged` a loop that outran the bound its model gives it. `too_deep` means that the calls
-- nest deeper than the fuel of the run.
pub data Outcome (A : Type 0) : Type 0 where
  ok : A → Context → Outcome A
  throw : ParseError → Context → Outcome A
  fault diverged too_deep : Outcome A

abbrev pub Parser : Type 0 → Type 0
Parser A = Context → Outcome A

abbrev pub after : {A B : Type 0} → Outcome A → (A → Parser B) → Outcome B
after (ok a c) f = f a c
after (throw e c) f = throw e c
after fault f = fault
after diverged f = diverged
after too_deep f = too_deep

infixl 5 ◌>>=◌ ◌>>◌
abbrev pub ◌>>=◌ : {A B : Type 0} → Parser A → (A → Parser B) → Parser B
◌>>=◌ m f c = after (m c) f

abbrev pub ◌>>◌ : {A B : Type 0} → Parser A → Parser B → Parser B
m >> k = m >>= λ _. k

abbrev pub pure : {A : Type 0} → A → Parser A
pure a c = ok a c

abbrev pub gets : {A : Type 0} → (Context → A) → Parser A
gets f c = ok (f c) c

abbrev pub modify : (Context → Context) → Parser (Unit {0})
modify f c = ok tt (f c)

-- A method that returns a value and changes the context.
abbrev pub method : {A : Type 0} → (Context → Context × A) → Parser A
method f c = let (c', a) = f c in ok a c'

-- `assert(holds)` in front of a call.
abbrev pub asserting : {A : Type 0} → Bool → Parser A → Parser A
asserting true m c = m c
asserting false m c = fault

abbrev pub reset : ℕ → Parser (Unit {0})
reset pos c = asserting (leb pos (input_size c)) (modify (set_state pos)) c

-- A frame is known by how many there were when it was pushed.
abbrev pub lr_pop : ℕ → Parser (Unit {0})
lr_pop frames c = asserting (length c.m_lr_stack == frames) (modify pop_top) c

-- A `ScopeGuard`: the cleanup runs when the scope is left, by a return or by an exception.
abbrev pub cleaned : {A : Type 0} → (Context → Context) → Outcome A → Outcome A
cleaned cleanup (ok a c) = ok a (cleanup c)
cleaned cleanup (throw e c) = throw e (cleanup c)
cleaned cleanup fault = fault
cleaned cleanup diverged = diverged
cleaned cleanup too_deep = too_deep

abbrev pub guarded : {A : Type 0} → (Context → Context) → Parser A → Parser A
guarded cleanup m c = cleaned cleanup (m c)
