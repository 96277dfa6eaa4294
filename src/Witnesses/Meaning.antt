-- ===== src/Witnesses/Meaning.antt =====
-- The theorems about the big-step semantics at concrete inputs.
use peglib.Prelude.{
  ℕ, zero, suc, ◌≤◌, ◌<◌, ◌≡◌, refl, subst, ◌↔◌, Bool, true, false, List, [], ◌∷◌, some, none,
  arith, get_elem?,
}
use peglib.ParseError.{bytes_eq}
use peglib.Context.{Context, from_range}
use peglib.Expr.{Expr, rule, value, NonTerminal, symbol_consumable}
use peglib.Engine.{ok}
use peglib.Grammar.{outcome, find_rule, parse_rule, parse_string}
use peglib.Invariant.{IsSound, IsClosed}
use peglib.Termination.{IsCutFree, IsCutFreeUpTo, height}
use peglib.Semantics.{
  Matches, Skips, symbol_end, symbol, all_of, many, called, end, stop, next, fails, off, skipper,
}
use peglib.Semantics.Plan.{Plan, IsUnder, is_consuming, IsOrdered}
use peglib.Semantics.Entry.{Decides, parse_rule_sound, parse_rule-Decides, parse_rule_complete}
use peglib.Semantics.Language.{Accepts, parse_string-Accepts}
use peglib.Samples.Skipping.{list_name, space_name, list_body, space_body, lists, list_text}

abbrev rank_of : ℕ → ℕ
rank_of zero = 1
rank_of (suc id) = 0

rank_of-lt : (id : ℕ) → rank_of id < 2
rank_of-lt zero = omega arith
rank_of-lt (suc id) = omega arith

abbrev is_list : ℕ → Bool
is_list zero = true
is_list (suc id) = false

abbrev list_plan : Plan
list_plan = record { rank = rank_of; consumes = is_list; skips = is_list; top = 2 }

some_inj : {A : Type 0} (x y : A) → some x ≡ some y → x ≡ y
some_inj x y h = cc

-- A statement about the bodies holds if it does of the two.
lists_bodies :
    (P : ℕ → Expr → Type 0)
    → P 0 list_body
    → P 1 space_body
    → (id : ℕ) (nt : NonTerminal) (e : Expr) → get_elem? lists.non_terminals id ≡ some nt
    → nt.m_rule ≡ some e
    → P id e
lists_bodies P l s zero nt e found body =
    let same : some list_body ≡ nt.m_rule = cc in
    subst (P 0) (some_inj list_body e (rw body at same)) l
lists_bodies P l s (suc zero) nt e found body =
    let same : some space_body ≡ nt.m_rule = cc in
    subst (P 1) (some_inj space_body e (rw body at same)) s
lists_bodies P l s (suc (suc id)) nt e found body = absurd (cc)

lists-IsClosed : IsClosed lists
lists-IsClosed = record {
  bodies = lists_bodies (λ id e. IsSound lists e) (refl, ((_, _, refl, refl), (refl, tt))) refl;
}

lists-IsCutFreeUpTo : IsCutFreeUpTo 2 lists
unfolding height
lists-IsCutFreeUpTo = record {
  bodies =
      lists_bodies (λ id e. IsCutFree e × (height e ≤ 2)) ((tt, (tt, (tt, tt))), omega arith)
        (tt, omega arith);
}

lists_plain :
    (id : ℕ) (nt : NonTerminal)
    → get_elem? lists.non_terminals id ≡ some nt
    → nt.m_recover.is_sync_token ≡ none
lists_plain zero nt found = cc
lists_plain (suc zero) nt found = cc
lists_plain (suc (suc id)) nt found = absurd (cc)

lists_skipper : (s : ℕ) → some 1 ≡ some s → is_list s ≡ false
lists_skipper s e = rw (← some_inj 1 s e) refl

lists-IsOrdered : IsOrdered lists list_plan
lists-IsOrdered = record {
  bodies =
      lists_bodies
        (λ id e.
          IsUnder lists list_plan (is_list id) (rank_of id) e
          × (is_list id ≡ true → is_consuming list_plan e ≡ true))
        (
          (tt, tt, ((λ s e. rank_of-lt s), (omega arith, refl), ((λ s e. rank_of-lt s), tt, tt))),
          λ a. refl,
        )
        (tt, λ a. cc);
  plain = lists_plain;
  skipper = lists_skipper;
}

parse_rule-Decides_example :
    (matched : Bool) × (d : Context) × (parse_rule 54 lists list_name (from_range list_text)
      ≡ outcome (ok matched d))
    × Decides lists list_text 0 list_name matched d.m_position
unfolding find_rule bytes_eq
parse_rule-Decides_example =
    parse_rule-Decides lists list_plan 2 54 list_name 0 list_text lists-IsOrdered refl
      lists-IsClosed lists-IsCutFreeUpTo (_, _, refl, refl) refl (_, _, refl, refl) (omega arith)

-- "()"
abbrev pair_text : List ℕ
pair_text = b'(' ∷ b')' ∷ []

no_spaces : (i : ℕ) → none ≡ symbol_end pair_text (value b' ') i → Skips lists pair_text true i i
no_spaces i h =
    skipper {name = space_name} refl (called refl refl (many (fails off (symbol h)))) refl

pair-Matches : Matches lists pair_text true (rule 0 list_name) 0 (some 2)
unfolding symbol_consumable
pair-Matches = called refl refl (
    all_of (
      next off (symbol refl) (
        next (no_spaces 1 refl)
          (many (fails off (called refl refl (all_of (stop off (symbol refl))))))
          (next (no_spaces 1 refl) (symbol refl) end))))

parse_rule_complete_example :
    (d : Context) × (parse_rule 18 lists list_name (from_range pair_text) ≡ outcome (ok true d))
    × (d.m_position ≡ 2)
unfolding find_rule bytes_eq symbol_consumable
parse_rule_complete_example =
    parse_rule_complete lists list_plan 2 18 list_name 0 pair_text 0 2 lists-IsOrdered refl
      lists-IsClosed lists-IsCutFreeUpTo (_, _, refl, refl) refl (_, _, refl, refl) (omega arith)
      (no_spaces 0 refl) pair-Matches

-- A run that succeeds, for the theorem that takes one.
pair_run :
    (d : Context) × (parse_rule 18 lists list_name (from_range pair_text) ≡ outcome (ok true d))
    × (d.m_position ≡ 2)
unfolding find_rule bytes_eq symbol_consumable
pair_run =
    parse_rule_complete lists list_plan 2 18 list_name 0 pair_text 0 2 lists-IsOrdered refl
      lists-IsClosed lists-IsCutFreeUpTo (_, _, refl, refl) refl (_, _, refl, refl) (omega arith)
      (no_spaces 0 refl) pair-Matches

parse_rule_sound_example : Decides lists pair_text 0 list_name true pair_run.0.m_position
unfolding find_rule bytes_eq
parse_rule_sound_example =
    parse_rule_sound lists list_plan 18 list_name 0 pair_text pair_run.0 lists-IsOrdered refl refl
      pair_run.1

parse_string-Accepts_example :
    (matched : Bool) × (d : Context) × (parse_string 54 lists list_text ≡ outcome (ok matched d))
    × ((matched ≡ true) ↔ Accepts lists list_text 0)
unfolding find_rule bytes_eq
parse_string-Accepts_example =
    parse_string-Accepts lists list_plan 2 54 0 list_text lists-IsOrdered refl lists-IsClosed
      lists-IsCutFreeUpTo (_, _, refl, refl) refl refl (_, _, refl, refl) (omega arith)
