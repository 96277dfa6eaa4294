-- ===== src/Invariant/Skipper.antt =====
-- The invariant over the skipper and the body of a lexeme, with the flag of auto-skip.
use peglib.Prelude.{ℕ, ◌≤◌, ◌≡◌, refl, Bool, true, false, Option, some, arith}
use peglib.Context.{Context, ParseResult, set_skip_enabled}
use peglib.Expr.{Expr, Grammar}
use peglib.Engine.{Outcome, ok, throw, fault, diverged, too_deep, Parser, after, cleaned, modify}
use peglib.Engine.Combinators.{run_with_skipper, run_skipper, lexeme_parse}
use peglib.Invariant.{IsDefined, IsSound, HasSkipper, IsValid, Keeps, Unwinds, Safe, Moves}
use peglib.Invariant.Relations.{Keeps-refl}

-- What a call of one rule, and of one expression, promises.
abbrev pub RuleSafe : Grammar → (ℕ → Parser ParseResult) → Type 0
RuleSafe g parse_rule =
    (id : ℕ)
    → IsDefined g id
    → (c : Context) → IsValid g c
    → Safe g c (Moves c.m_position) (parse_rule id c)

abbrev pub ExprSafe : Grammar → (Expr → Parser ParseResult) → Type 0
ExprSafe g p =
    (e : Expr) → IsSound g e → (c : Context) → IsValid g c → Safe g c (Moves c.m_position) (p e c)

-- Skipping only moves forward.
abbrev pub SkipSafe : Grammar → Parser (Unit {0}) → Type 0
SkipSafe g skip =
    (c : Context) → IsValid g c → Safe g c (λ _ d. c.m_position ≤ d.m_position) (skip c)

flag-IsValid :
    {g : Grammar} {c : Context} (b : Bool) → IsValid g c → IsValid g (set_skip_enabled b c)
flag-IsValid b v = assumption v

flag-Keeps :
    (b : Bool) (c d : Context)
    → Keeps (set_skip_enabled b c) d
    → Keeps c (set_skip_enabled c.m_skip_enabled d)
flag-Keeps b c d k =
    assumption (refl, k.input, k.skipper, k.cuts, k.frames, k.errors, k.diagnostics, k.arena)

flag-Unwinds : (b : Bool) (c d : Context) → Unwinds (set_skip_enabled b c) d → Unwinds c d
flag-Unwinds b c d u = assumption u

flag_cleaned-Unwinds :
    (b : Bool) (c d : Context)
    → Unwinds (set_skip_enabled b c) d
    → Unwinds c (set_skip_enabled c.m_skip_enabled d)
flag_cleaned-Unwinds b c d u = assumption u

skipped-Safe :
    (g : Grammar) (c : Context) (o : Outcome ParseResult)
    → true ≡ c.m_skip_enabled
    → Safe g (set_skip_enabled false c) (Moves c.m_position) o
    → Safe g c (λ _ d. c.m_position ≤ d.m_position) (after o (λ _. modify (set_skip_enabled true)))
skipped-Safe g c (ok r d) e (v, k, m) = (flag-IsValid true v, rw e (flag-Keeps false c d k), m.0)
skipped-Safe g c (throw x d) e (u, carried) = (flag-Unwinds false c d u, carried)
skipped-Safe g c fault e s = s
skipped-Safe g c diverged e s = s
skipped-Safe g c too_deep e s = s

run_with_skipper-Safe :
    (g : Grammar) (parse_rule : ℕ → Parser ParseResult) (rules : RuleSafe g parse_rule)
    (c : Context) (v : IsValid g c) (s : Option ℕ) (b : Bool)
    → HasSkipper g s
    → b ≡ c.m_skip_enabled
    → Safe g c (λ _ d. c.m_position ≤ d.m_position) (run_with_skipper s b parse_rule c)
run_with_skipper-Safe g parse_rule rules c v (some s) true h e =
    skipped-Safe g c (parse_rule s (set_skip_enabled false c)) e
      (rules s h (set_skip_enabled false c) (flag-IsValid false v))
run_with_skipper-Safe g parse_rule rules c v _ _ h e = (v, Keeps-refl c, omega arith)

pub run_skipper-SkipSafe :
    (g : Grammar) (parse_rule : ℕ → Parser ParseResult)
    → RuleSafe g parse_rule
    → SkipSafe g (run_skipper parse_rule)
unfolding run_skipper
run_skipper-SkipSafe g parse_rule rules c v =
    run_with_skipper-Safe g parse_rule rules c v c.m_skipper c.m_skip_enabled v.skipper refl

lexeme_end-Safe :
    (g : Grammar) (c : Context) (o : Outcome ParseResult)
    → Safe g (set_skip_enabled false c) (Moves c.m_position) o
    → Safe g c (Moves c.m_position) (cleaned (set_skip_enabled c.m_skip_enabled) o)
lexeme_end-Safe g c (ok r d) (v, k, m) =
    (flag-IsValid c.m_skip_enabled v, flag-Keeps false c d k, m)
lexeme_end-Safe g c (throw x d) (u, carried) = (flag_cleaned-Unwinds false c d u, carried)
lexeme_end-Safe g c fault s = s
lexeme_end-Safe g c diverged s = s
lexeme_end-Safe g c too_deep s = s

pub lexeme_parse-Safe :
    (g : Grammar) (p : Parser ParseResult)
    → ((c : Context) → IsValid g c → Safe g c (Moves c.m_position) (p c))
    → (c : Context) → IsValid g c
    → Safe g c (Moves c.m_position) (lexeme_parse p c)
unfolding lexeme_parse
lexeme_parse-Safe g p safe c v =
    lexeme_end-Safe g c (p (set_skip_enabled false c))
      (safe (set_skip_enabled false c) (flag-IsValid false v))
