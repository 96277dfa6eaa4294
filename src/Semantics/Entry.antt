-- ===== src/Semantics/Entry.antt =====
-- The parse entry of include/peglib/Grammar.h decides what the semantics says.
use peglib.Prelude.{
  ℕ, suc, ◌*◌, ◌≤◌, ◌≡◌, refl, Bool, true, false, List, [], none, some, length, if◌then◌else◌,
  arith,
}
use peglib.ParseError.{Bytes}
use peglib.Context.{Context, ParseResult, from_range}
use peglib.Expr.{rule, Grammar}
use peglib.Engine.{Outcome, ok, throw, fault, diverged, too_deep, Parser, after}
use peglib.Engine.Combinators.{run_skipper}
use peglib.Engine.Rules.{nonterminal_parse}
use peglib.Engine.Run.{parse}
use peglib.Grammar.{outcome, find_rule, caught, run_rule, parse_rule}
use peglib.Invariant.{IsDefined, IsClosed, HasSkipper}
use peglib.Termination.{IsCutFreeUpTo, Ends}
use peglib.Termination.Run.{begun, uncaught, uncaught-Ends, parse_rule-Returns}
use peglib.Semantics.{Matches, Skips}
use peglib.Semantics.Plan.{Plan, IsOrdered}
use peglib.Semantics.State.{Answer, RuleAnswer, State, Returns, Returns-bind, Returns-map}
use peglib.Semantics.Clear.{run_skipper-Tells}
use peglib.Semantics.Rules.{nonterminal_parse-RulesTell}
use peglib.Semantics.Unique.{Matches-unique, Skips-unique}
use peglib.Semantics.Run.{as_handle, parse-ExprsTell}

-- The input is skipped up to some position, and there the rule ends or fails.
abbrev pub Decides : Grammar → List ℕ → ℕ → Bytes → Bool → ℕ → Type 0
Decides g t id name matched j =
    (i : ℕ) × Skips g t true 0 i
    × Matches g t true (rule id name) i (if matched then some j else none)

module _ (g : Grammar) (w : Plan) (t : List ℕ) (ordered : IsOrdered g w) (depth id : ℕ)
    (name : Bytes) (skipped : w.skips id ≡ true) where
  as_decision :
      (i : ℕ) (s : Bool) (j : ℕ)
      → Skips g t true 0 i
      → RuleAnswer g w t id i s j
      → Decides g t id name s j
  as_decision i s j skips ans =
      let m : Answer g w t true (rule id []) i s j = rw skipped at ans in
      decision s (as_handle g w t ordered id name true i s j m)
    where
      decision : (s : Bool) → Answer g w t true (rule id name) i s j → Decides g t id name s j
      decision true (m, le, lt) = (i, skips, m)
      decision false (m, same) = (i, skips, m)

  begun-State : State g w t true [] (begun g t)
  unfolding from_range
  begun-State = record {
    input_is = refl;
    enabled_is = refl;
    skipper_is = refl;
    frames_are = refl;
    no_heads = λ pos. refl;
    memo = λ pos id s e. absurd (cc);
  }

  pub uncaught-Returns :
      Returns (λ r d. Decides g t id name r.success d.m_position) (uncaught depth g id (begun g t))
  unfolding from_range
  uncaught-Returns =
      let p = nonterminal_parse g (parse depth g) in
      let rules =
        nonterminal_parse-RulesTell g w t ordered (parse depth g)
          (parse-ExprsTell g w t ordered depth) in
      Returns-bind _ _ (run_skipper p (begun g t)) _
        (run_skipper-Tells g w t ordered.skipper p rules [] true (begun g t)
          (λ s e. (suc (w.rank s), omega arith, tt)) begun-State)
        λ _ d (h, (skips, le)).
          Returns-map _ _ (p id d) (rules id (suc (w.rank id)) [] d (omega arith) tt (rw skipped h))
            λ r z (h', ans). as_decision d.m_position r.success z.m_position skips ans

ok_inj : {A : Type 0} (a b : A) (c d : Context) → ok a c ≡ ok b d → (a ≡ b) × (c ≡ d)
ok_inj a b c d h = (cc, cc)

module _ (D : Bool → ℕ → Type 0) where
  -- A success that the entry returns is the success of the call in its `try`.
  success-Returns :
      {A : Type 0} (o : Outcome A) (k : A → Parser ParseResult) (d : Context)
      → Returns (λ r z. D r.success z.m_position) (after o k)
      → after o (λ a z. caught false (λ r. r.success) (k a z)) ≡ ok true d
      → D true d.m_position
  success-Returns (ok a c) k d q e =
      elim (k a c)
          as (λ o.
            Returns (λ r z. D r.success z.m_position) o
            → caught false (λ r. r.success) o ≡ ok true d
            → D true d.m_position) [
              | ok r z ↦
                  λ q' e'. let (s, same) = ok_inj r.success true z d e' in rw (← same) (rw s at q')
              | throw x z ↦ λ q' e'. absurd (cc)
              | fault ↦ λ q' e'. absurd (cc)
              | diverged ↦ λ q' e'. absurd (cc)
              | too_deep ↦ λ q' e'. absurd (cc)
            ]
        q e
  success-Returns (throw x c) k d q e = absurd (cc)
  success-Returns fault k d q e = absurd (cc)
  success-Returns diverged k d q e = absurd (cc)
  success-Returns too_deep k d q e = absurd (cc)

  -- So is a failure, if nothing is thrown.
  ends-Returns :
      {A : Type 0} (o : Outcome A) (k : A → Parser ParseResult) (b : Bool) (d : Context)
      → Ends (after o k)
      → Returns (λ r z. D r.success z.m_position) (after o k)
      → after o (λ a z. caught false (λ r. r.success) (k a z)) ≡ ok b d
      → D b d.m_position
  ends-Returns (ok a c) k b d h q e =
      elim (k a c)
          as (λ o.
            Ends o
            → Returns (λ r z. D r.success z.m_position) o
            → caught false (λ r. r.success) o ≡ ok b d
            → D b d.m_position) [
              | ok r z ↦
                  λ h' q' e'. let (s, same) = ok_inj r.success b z d e' in rw (← same) (rw s at q')
              | throw x z ↦ λ h' q' e'. absurd h'
              | fault ↦ λ h' q' e'. absurd (cc)
              | diverged ↦ λ h' q' e'. absurd (cc)
              | too_deep ↦ λ h' q' e'. absurd (cc)
            ]
        h q e
  ends-Returns (throw x c) k b d h q e = absurd h
  ends-Returns fault k b d h q e = absurd (cc)
  ends-Returns diverged k b d h q e = absurd (cc)
  ends-Returns too_deep k b d h q e = absurd (cc)

outcome_inj : {A : Type 0} (o o' : Outcome A) → outcome o ≡ outcome o' → o ≡ o'
outcome_inj o o' h = cc

-- Let a plan order the grammar: it ranks the rules, and each rule, the skipper too, that a body
-- calls where it is not sure to have consumed anything yet has a lower rank than the body's rule;
-- every call of a rule is made in the one skipping mode that the plan gives to it, which is off
-- for the skipper; no rule has recovery; matchers read nothing but the input and stay inside it;
-- and 0 < n < 2 ^ 63 in every n * e. If the plan parses the named rule with skipping on and
-- Grammar::parse(rule, ctx) on a fresh context, run to any depth, returns true, then the big-step
-- semantics skips the input up to some position from which it matches the rule, ending where the
-- parse ended. The grammar may have cuts.
pub parse_rule_sound :
    (g : Grammar) (w : Plan) (depth : ℕ) (name : Bytes) (id : ℕ) (t : List ℕ) (d : Context)
    → IsOrdered g w
    → find_rule g.m_rules name ≡ some id
    → w.skips id ≡ true
    → parse_rule depth g name (from_range t) ≡ outcome (ok true d)
    → Decides g t id name true d.m_position
unfolding parse_rule run_rule
parse_rule_sound g w depth name id t d ordered named skipped e =
    success-Returns (Decides g t id name)
      (run_skipper (nonterminal_parse g (parse depth g)) (begun g t)) _ d
      (uncaught-Returns g w t ordered depth id name skipped) (outcome_inj _ _ (rw named at e))

-- Let a plan order the grammar: it ranks the rules, and each rule, the skipper too, that a body
-- calls where it is not sure to have consumed anything yet has a lower rank than the body's rule;
-- every call of a rule is made in the one skipping mode that the plan gives to it, which is off
-- for the skipper; no rule has recovery; matchers read nothing but the input and stay inside it;
-- and 0 < n < 2 ^ 63 in every n * e. If the plan parses the named rule with skipping on, the
-- grammar is closed and without cuts, no body nests deeper than `tallest`, its skipper, if any,
-- is assigned, the name is in the table at an assigned rule and the depth is at least (elements +
-- 1) * rules * (tallest + 1), then Grammar::parse(rule, ctx) on a fresh context over any input
-- returns, and it decides the big-step semantics: the input is skipped up to some position, from
-- which the rule matches up to the position where the parse ended, if the answer is true, and
-- fails, if it is false.
pub parse_rule-Decides :
    (g : Grammar) (w : Plan) (tallest depth : ℕ) (name : Bytes) (id : ℕ) (t : List ℕ)
    → IsOrdered g w
    → w.skips id ≡ true
    → IsClosed g
    → IsCutFreeUpTo tallest g
    → HasSkipper g g.m_skipper
    → find_rule g.m_rules name ≡ some id
    → IsDefined g id
    → suc (length t) * length g.non_terminals * suc tallest ≤ depth
    → (matched : Bool) × (d : Context) × (parse_rule depth g name (from_range t)
        ≡ outcome (ok matched d))
      × Decides g t id name matched d.m_position
unfolding parse_rule run_rule
parse_rule-Decides g w tallest depth name id t ordered skipped closed free skips named defined
      enough =
    let (matched, d, e) =
      parse_rule-Returns g tallest depth name id t closed free skips named defined enough in
    (
      matched,
      d,
      e,
      ends-Returns (Decides g t id name)
          (run_skipper (nonterminal_parse g (parse depth g)) (begun g t)) _ matched d
          (uncaught-Ends g tallest depth id t closed free skips defined enough)
          (uncaught-Returns g w t ordered depth id name skipped) (outcome_inj _ _ (rw named at e)),
    )

-- A decision for one end is the decision for that end only.
pub decision_unique :
    (g : Grammar) (t : List ℕ) (id : ℕ) (name : Bytes) (i j j' : ℕ) (b : Bool)
    → Skips g t true 0 i
    → Matches g t true (rule id name) i (some j)
    → Decides g t id name b j'
    → (b ≡ true) × (j' ≡ j)
decision_unique g t id name i j j' true skips m (i', skips', m') =
    let at = Skips-unique g t skips skips' in
    let same = Matches-unique g t m (rw (← at) at m') in (refl, cc)
decision_unique g t id name i j j' false skips m (i', skips', m') =
    let at = Skips-unique g t skips skips' in
    let same = Matches-unique g t m (rw (← at) at m') in absurd (cc)

-- Let a plan order the grammar: it ranks the rules, and each rule, the skipper too, that a body
-- calls where it is not sure to have consumed anything yet has a lower rank than the body's rule;
-- every call of a rule is made in the one skipping mode that the plan gives to it, which is off
-- for the skipper; no rule has recovery; matchers read nothing but the input and stay inside it;
-- and 0 < n < 2 ^ 63 in every n * e. If the plan parses the named rule with skipping on, the
-- grammar is closed and without cuts, no body nests deeper than `tallest`, its skipper, if any,
-- is assigned, the name is in the table at an assigned rule and the depth is at least (elements +
-- 1) * rules * (tallest + 1), and if by the big-step semantics the input is skipped up to some
-- position from which the rule matches up to another, then Grammar::parse(rule, ctx) on a fresh
-- context over the input returns true and ends there.
pub parse_rule_complete :
    (g : Grammar) (w : Plan) (tallest depth : ℕ) (name : Bytes) (id : ℕ) (t : List ℕ) (i j : ℕ)
    → IsOrdered g w
    → w.skips id ≡ true
    → IsClosed g
    → IsCutFreeUpTo tallest g
    → HasSkipper g g.m_skipper
    → find_rule g.m_rules name ≡ some id
    → IsDefined g id
    → suc (length t) * length g.non_terminals * suc tallest ≤ depth
    → Skips g t true 0 i
    → Matches g t true (rule id name) i (some j)
    → (d : Context) × (parse_rule depth g name (from_range t) ≡ outcome (ok true d))
      × (d.m_position ≡ j)
parse_rule_complete g w tallest depth name id t i j ordered skipped closed free skips named defined
      enough begins m =
    let (matched, d, e, decides) =
      parse_rule-Decides g w tallest depth name id t ordered skipped closed free skips named defined
        enough in
    let (yes_, there) = decision_unique g t id name i j d.m_position matched begins m decides in
    (d, rw yes_ at e, there)
