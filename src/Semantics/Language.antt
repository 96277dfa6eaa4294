-- ===== src/Semantics/Language.antt =====
-- The language of a grammar: the inputs that `Grammar::parse_string` of include/peglib/Grammar.h accepts.
use peglib.Prelude.{ℕ, suc, ◌*◌, ◌≤◌, ◌≡◌, refl, Bool, true, false, List, some, length, ◌↔◌}
use peglib.Context.{Context}
use peglib.Expr.{rule, Grammar}
use peglib.Engine.{ok}
use peglib.Grammar.{outcome, find_rule, parse_start, parse_string, is_empty_name}
use peglib.Invariant.{IsDefined, IsClosed, HasSkipper}
use peglib.Termination.{IsCutFreeUpTo}
use peglib.Semantics.{Matches, Skips}
use peglib.Semantics.Plan.{Plan, IsOrdered}
use peglib.Semantics.Entry.{Decides, parse_rule-Decides, decision_unique}

-- The semantics skips the input up to some position from which it matches the rule.
abbrev pub Accepts : Grammar → List ℕ → ℕ → Type 0
Accepts g t id = (i j : ℕ) × Skips g t true 0 i × Matches g t true (rule id g.m_start) i (some j)

decision-Accepts :
    (g : Grammar) (t : List ℕ) (id : ℕ) (matched : Bool) (j : ℕ)
    → Decides g t id g.m_start matched j
    → (matched ≡ true) ↔ Accepts g t id
decision-Accepts g t id true j (i, skips, m) = (λ e. (i, j, skips, m), λ a. refl)
decision-Accepts g t id false j d = (
  λ e. absurd (cc),
  λ (i, j', skips, m). (decision_unique g t id g.m_start i j' j false skips m d).0,
)

-- Let a plan order the grammar: it ranks the rules, and each rule, the skipper too, that a body
-- calls where it is not sure to have consumed anything yet has a lower rank than the body's rule;
-- every call of a rule is made in the one skipping mode that the plan gives to it, which is off
-- for the skipper; no rule has recovery; matchers read nothing but the input and stay inside it;
-- and 0 < n < 2 ^ 63 in every n * e. If the start rule is set, in the table, assigned and parsed
-- with skipping on by the plan, the grammar is closed and without cuts, no body nests deeper than
-- `tallest`, its skipper, if any, is assigned, and the depth is at least (elements + 1) * rules *
-- (tallest + 1), then Grammar::parse_string returns, and it returns true exactly when, by the
-- big-step semantics, the input is skipped up to some position from which the start rule matches.
pub parse_string-Accepts :
    (g : Grammar) (w : Plan) (tallest depth id : ℕ) (t : List ℕ)
    → IsOrdered g w
    → w.skips id ≡ true
    → IsClosed g
    → IsCutFreeUpTo tallest g
    → HasSkipper g g.m_skipper
    → is_empty_name g.m_start ≡ false
    → find_rule g.m_rules g.m_start ≡ some id
    → IsDefined g id
    → suc (length t) * length g.non_terminals * suc tallest ≤ depth
    → (matched : Bool) × (d : Context) × (parse_string depth g t ≡ outcome (ok matched d))
      × ((matched ≡ true) ↔ Accepts g t id)
unfolding parse_string parse_start
parse_string-Accepts g w tallest depth id t ordered skipped closed free skips started named defined
      enough =
    let (matched, d, e, decides) =
      parse_rule-Decides g w tallest depth g.m_start id t ordered skipped closed free skips named
        defined enough in
    (matched, d, rw started e, decision-Accepts g t id matched d.m_position decides)
