-- ===== src/Semantics/State.antt =====
-- What a context holds between calls when every finished memo entry is a true answer, and the rules
-- by which an answer follows from those of the parts.
use peglib.Prelude.{ℕ, ◌≤◌, ◌<◌, ◌≡◌, refl, Bool, true, false, List, [], Option, none, some, ◌⊎◌}
use peglib.Context.{
  Context, ParseResult, RuleState, MemoTable, LrFrame, in_progress, set_skip_enabled,
}
use peglib.Expr.{Expr, rule, Grammar}
use peglib.Engine.{Outcome, ok, throw, fault, diverged, too_deep, Parser, after, cleaned}
use peglib.Semantics.{Matches}
use peglib.Semantics.Plan.{Plan, is_consuming, IsUnder, IsClear}

-- A success at `j` or a failure is what the expression means at `i`.
abbrev pub Answer : Grammar → Plan → List ℕ → Bool → Expr → ℕ → Bool → ℕ → Type 0
Answer g w t b e i true j = Matches g t b e i (some j) × (i ≤ j) × (is_consuming w e ≡ true → i < j)
Answer g w t b e i false j = Matches g t b e i none × (j ≡ i)

abbrev pub RuleAnswer : Grammar → Plan → List ℕ → ℕ → ℕ → Bool → ℕ → Type 0
RuleAnswer g w t id = Answer g w t (w.skips id) (rule id [])

-- Every entry of a rule that is not running is a true answer.
abbrev pub IsTrue : Grammar → Plan → List ℕ → List LrFrame → MemoTable → Type 0
IsTrue g w t fs mem =
    (pos id : ℕ) (s : RuleState)
    → mem pos id ≡ some s
    → (in_progress fs id pos ≡ true)
      ⊎ RuleAnswer g w t id pos s.m_cached_result.success s.m_last_pos

-- The running rules are `fs`, and the entries of those of `hs` are still open.
pub record Holds (g : Grammar) (w : Plan) (t : List ℕ) (b : Bool) (fs hs : List LrFrame)
    (input : List ℕ) (enabled : Bool) (skipper : Option ℕ) (frames : List LrFrame)
    (heads : ℕ → Option ℕ) (mem : MemoTable) : Type 0 where
  pub input_is : input ≡ t
  pub enabled_is : enabled ≡ b
  pub skipper_is : skipper ≡ g.m_skipper
  pub frames_are : frames ≡ fs
  pub no_heads : (pos : ℕ) → heads pos ≡ none
  pub memo : IsTrue g w t hs mem

abbrev pub StateOf : Grammar → Plan → List ℕ → Bool → List LrFrame → List LrFrame → Context → Type 0
StateOf g w t b fs hs c =
    Holds g w t b fs hs c.m_input c.m_skip_enabled c.m_skipper c.m_lr_stack c.m_growing_head c.m_mem

abbrev pub State : Grammar → Plan → List ℕ → Bool → List LrFrame → Context → Type 0
State g w t b fs = StateOf g w t b fs fs

-- What holds if the call returns.
abbrev pub Returns : {A : Type 0} → (A → Context → Type 0) → Outcome A → Type 0
Returns Q (ok a d) = Q a d
Returns Q _ = Unit

abbrev pub Tells :
    {A : Type 0}
    → Grammar
    → Plan
    → List ℕ
    → Bool
    → List LrFrame
    → (A → ℕ → Type 0)
    → Outcome A
    → Type 0
Tells g w t b fs Q = Returns (λ a d. State g w t b fs d × Q a d.m_position)

module _ {A B : Type 0} where
  pub Returns-bind :
      (Q : A → Context → Type 0) (R : B → Context → Type 0) (o : Outcome A) (f : A → Parser B)
      → Returns Q o
      → ((a : A) (d : Context) → Q a d → Returns R (f a d))
      → Returns R (after o f)
  Returns-bind Q R (ok a d) f q h = h a d q
  Returns-bind Q R (throw e d) f q h = tt
  Returns-bind Q R fault f q h = tt
  Returns-bind Q R diverged f q h = tt
  Returns-bind Q R too_deep f q h = tt

module _ {A : Type 0} where
  pub Returns-map :
      (Q R : A → Context → Type 0) (o : Outcome A)
      → Returns Q o
      → ((a : A) (d : Context) → Q a d → R a d)
      → Returns R o
  Returns-map Q R (ok a d) q h = h a d q
  Returns-map Q R (throw e d) q h = tt
  Returns-map Q R fault q h = tt
  Returns-map Q R diverged q h = tt
  Returns-map Q R too_deep q h = tt

  pub Returns-cleaned :
      (Q R : A → Context → Type 0) (cleanup : Context → Context) (o : Outcome A)
      → Returns Q o
      → ((a : A) (d : Context) → Q a d → R a (cleanup d))
      → Returns R (cleaned cleanup o)
  Returns-cleaned Q R cleanup (ok a d) q h = h a d q
  Returns-cleaned Q R cleanup (throw e d) q h = tt
  Returns-cleaned Q R cleanup fault q h = tt
  Returns-cleaned Q R cleanup diverged q h = tt
  Returns-cleaned Q R cleanup too_deep q h = tt

-- The parser of the operands, of the rules and of the input between tokens.
abbrev pub ExprsTell : Grammar → Plan → List ℕ → (Expr → Parser ParseResult) → Type 0
ExprsTell g w t p =
    (e : Expr) (b : Bool) (k : ℕ) (fs : List LrFrame) (c : Context)
    → IsUnder g w b k e
    → IsClear w k fs c.m_position
    → State g w t b fs c
    → Tells g w t b fs (λ r j. Answer g w t b e c.m_position r.success j) (p e c)

abbrev pub RulesTell : Grammar → Plan → List ℕ → (ℕ → Parser ParseResult) → Type 0
RulesTell g w t r =
    (id k : ℕ) (fs : List LrFrame) (c : Context)
    → w.rank id < k
    → IsClear w k fs c.m_position
    → State g w t (w.skips id) fs c
    → Tells g w t (w.skips id) fs (λ r j. RuleAnswer g w t id c.m_position r.success j) (r id c)

module _ (g : Grammar) (w : Plan) (t : List ℕ) (b : Bool) (fs : List LrFrame) where
  -- Skipping switched on or off.
  pub switched :
      (b' : Bool) (c : Context) → State g w t b fs c → State g w t b' fs (set_skip_enabled b' c)
  switched b' c h = record {
    input_is = h.input_is;
    enabled_is = refl;
    skipper_is = h.skipper_is;
    frames_are = h.frames_are;
    no_heads = h.no_heads;
    memo = h.memo;
  }

  -- Another memo table.
  pub with_memo :
      (hs hs' : List LrFrame) (c : Context) (mem : MemoTable)
      → StateOf g w t b fs hs c
      → IsTrue g w t hs' mem
      → StateOf g w t b fs hs' (record c { m_mem = mem })
  with_memo hs hs' c mem h memo = record {
    input_is = h.input_is;
    enabled_is = h.enabled_is;
    skipper_is = h.skipper_is;
    frames_are = h.frames_are;
    no_heads = h.no_heads;
    memo = memo;
  }
