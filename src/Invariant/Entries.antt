-- ===== src/Invariant/Entries.antt =====
-- The parse entries of the grammar, on a closed grammar and a valid context.
use peglib.Prelude.{
  ℕ, ◌≤◌, ◌≡◌, refl, sym, ap, ◌∙◌, Bool, true, false, List, Option, length, none, some, arith, inl,
  inr, ◌⊎◌,
}
use peglib.ParseError.{Bytes}
use peglib.Context.{Context, ParseResult, input_size, from_range, internal_set_skipper}
use peglib.Expr.{Grammar}
use peglib.Engine.{Outcome, ok, throw, fault, diverged, too_deep, after}
use peglib.Engine.Combinators.{run_skipper}
use peglib.Engine.Rules.{nonterminal_parse}
use peglib.Engine.Run.{parse}
use peglib.Grammar.{
  Call, outcome, logic_error, out_of_range, find_rule, caught, run_rule, parse_rule,
}
use peglib.Invariant.{
  IsDefined, IsClosed, HasSkipper, IsValid, SameBelow, ErrorGrows, DiagnosticsGrow, Keeps, Unwinds,
  Carries, Safe, Moves,
}
use peglib.Invariant.Relations.{Keeps-trans, Unwinds-after, Unwinds-of_Keeps}
use peglib.Invariant.Skipper.{run_skipper-SkipSafe}
use peglib.Invariant.Rules.{nonterminal_parse-RuleSafe}
use peglib.Invariant.Run.{parse-ExprSafe}

-- How an entry leaves the caller's context, whatever it answers.
pub record Leaves (c d : Context) : Type 0 where
  pub input : c.m_input ≡ d.m_input
  pub cuts : SameBelow c.m_cut d.m_cut
  pub errors : ErrorGrows c d
  pub diagnostics : DiagnosticsGrow c d

-- A call that returns leaves the context so, and a match ends at or after its start, inside the
-- input. Only a grammar with a skipper throws.
abbrev pub Answers : Grammar → Context → Call Bool → Type 0
Answers g c (outcome (ok matched d)) =
    Leaves c d × (matched ≡ true → c.m_position ≤ d.m_position × (d.m_position ≤ input_size c))
Answers g c (outcome (throw e d)) = Leaves c d × Carries e d × (g.m_skipper ≡ none → ⊥)
Answers g c (outcome fault) = ⊥
Answers g c (outcome diverged) = ⊥
Answers g c (outcome too_deep) = Unit
Answers g c logic_error = ⊥
Answers g c out_of_range = ⊥

inside :
    (c e : Context)
    → e.m_position ≤ input_size e
    → c.m_input ≡ e.m_input
    → e.m_position ≤ input_size c
inside c e h same = omega (arith, ap (length {A = ℕ}) same)

module _ (g : Grammar) (c : Context) where
  abbrev begun : Context
  begun = internal_set_skipper g.m_skipper c

  begun-IsValid : HasSkipper g g.m_skipper → IsValid g c → IsValid g begun
  begun-IsValid h v =
      assumption (h, v.position, v.memo, v.furthest, v.ascending, v.last_cut, v.cuts)

  Leaves-Unwinds : (d : Context) → Unwinds begun d → Leaves c d
  Leaves-Unwinds d u = assumption (u.input, u.cuts, u.errors, u.diagnostics)

  caught-Answers :
      (d : Context) (o : Outcome ParseResult)
      → Keeps begun d
      → c.m_position ≤ d.m_position
      → Safe g d (Moves d.m_position) o
      → Answers g c (outcome (caught false (λ r. r.success) o))
  caught-Answers d (ok r e) k start (v, k', (moved, stays)) =
      let both = Keeps-trans k k' in
      let same : c.m_input ≡ e.m_input = both.input in
      (
        Leaves-Unwinds e (Unwinds-of_Keeps both),
        λ matched. (omega arith, inside c e v.position same),
      )
  caught-Answers d (throw x e) k start (u, carried) =
      (Leaves-Unwinds e (Unwinds-after k u), λ h. absurd cc)
  caught-Answers d fault k start s = s
  caught-Answers d diverged k start s = s
  caught-Answers d too_deep k start s = s

  skipped-Answers :
      (parse_rule : ℕ → Context → Outcome ParseResult) (skipper : Option ℕ) (o : Outcome (Unit {0}))
      (id : ℕ)
      → ((e : Context) → IsValid g e → Safe g e (Moves e.m_position) (parse_rule id e))
      → ((skipper ≡ none → ⊥) ⊎ (o ≡ ok tt begun))
      → g.m_skipper ≡ skipper
      → Safe g begun (λ _ d. c.m_position ≤ d.m_position) o
      → Answers g c (outcome (after o (λ _ d. caught false (λ r. r.success) (parse_rule id d))))
  skipped-Answers parse_rule skipper (ok a d) id safe set e (v, k, start) =
      caught-Answers d (parse_rule id d) k start (safe d v)
  skipped-Answers parse_rule skipper (throw x d) id safe (inl set) e (u, carried) =
      (Leaves-Unwinds d u, carried, λ h. set (sym e ∙ h))
  skipped-Answers parse_rule skipper (throw x d) id safe (inr same) e s = absurd cc
  skipped-Answers parse_rule skipper fault id safe set e s = s
  skipped-Answers parse_rule skipper diverged id safe set e s = s
  skipped-Answers parse_rule skipper too_deep id safe set e s = tt

  skipper_set :
      (parse_rule : ℕ → Context → Outcome ParseResult) (skipper : Option ℕ)
      → g.m_skipper ≡ skipper
      → (skipper ≡ none → ⊥) ⊎ (run_skipper parse_rule begun ≡ ok tt begun)
  unfolding run_skipper
  skipper_set parse_rule none e = inr (rw e refl)
  skipper_set parse_rule (some s) e = inl (λ h. cc)

-- If the grammar is closed (every assigned body refers to assigned rules only, its ranges have
-- min <= max and its matchers stay inside the input), its skipper, if there is one, is assigned,
-- the name is in the table at an assigned rule and the context is valid, then
-- Grammar::parse(rule, ctx), run to any depth, fails none of the assertions on ranges (min <=
-- max), on reset, on lr_pop and on rules without a body, and runs no loop for ever. When it
-- returns or throws, the caller's input, the cut stack below its top, the recorded error and the
-- diagnostics are kept, the error never moving back; a match ends at or after its start, inside
-- the input; and it throws only if there is a skipper.
pub parse_rule-Answers :
    (g : Grammar) (depth : ℕ) (name : Bytes) (id : ℕ) (c : Context)
    → IsClosed g
    → HasSkipper g g.m_skipper
    → find_rule g.m_rules name ≡ some id
    → IsDefined g id
    → IsValid g c
    → Answers g c (parse_rule depth g name c)
unfolding parse_rule run_rule
parse_rule-Answers g depth name id c closed skips named defined v =
    let p = nonterminal_parse g (parse depth g) in
    let safe =
      nonterminal_parse-RuleSafe g (parse depth g) closed (parse-ExprSafe g closed depth) in
    rw named (
      skipped-Answers g c p g.m_skipper (run_skipper p (begun g c)) id (λ e. safe id defined e)
        (skipper_set g c p g.m_skipper refl) refl
        (run_skipper-SkipSafe g p safe (begun g c) (begun-IsValid g c skips v)))

pub from_range-IsValid : (g : Grammar) (t : List ℕ) → IsValid g (from_range t)
unfolding from_range
from_range-IsValid g t = record {
  position = omega arith;
  memo = λ pos rule s h. cc;
  furthest = omega arith;
  ascending = tt;
  last_cut = omega arith;
  cuts = tt;
  skipper = tt;
}
