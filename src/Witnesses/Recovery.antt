-- ===== src/Witnesses/Recovery.antt =====
-- The theorem about recovery at a concrete input.
use peglib.Prelude.{
  ℕ, suc, zero, ◌≤◌, ◌==◌, ◌≡◌, refl, subst, true, [], ◌∷◌, none, some, arith, get_elem?,
}
use peglib.Context.{Context, ParseResult, from_range}
use peglib.Expr.{Expr, terminal, range, NonTerminal, Grammar}
use peglib.Engine.{ok}
use peglib.Engine.Rules.{nonterminal_parse}
use peglib.Engine.Run.{parse}
use peglib.Invariant.{IsSound, IsClosed}
use peglib.Invariant.Entries.{from_range-IsValid}
use peglib.Termination.{IsCutFree, IsCutFreeUpTo, height, IsCalm}
use peglib.Termination.Recovery.{nonterminal_parse-Recovers}
use peglib.Samples.{rule_of, num_name, bad_text}

abbrev digit : Expr
digit = terminal (range b'0' b'9')

abbrev mending_rule : NonTerminal
mending_rule = record (rule_of num_name digit) {
  m_recover = record { is_sync_token = some (λ x. x == b';'); label = [] };
}

-- n = [0-9], which resumes behind a semicolon
abbrev mending : Grammar
mending = record {
  non_terminals = mending_rule ∷ [];
  m_rules = (num_name, 0) ∷ [];
  m_start = num_name;
  m_skipper = none;
  byte_sized = true;
}

mending_body :
    (id : ℕ) (nt : NonTerminal) (e : Expr)
    → get_elem? mending.non_terminals id ≡ some nt
    → nt.m_rule ≡ some e
    → digit ≡ e
mending_body zero nt e found body = let same : mending_rule ≡ nt = cc in cc
mending_body (suc id) nt e found body = absurd cc

mending-IsClosed : IsClosed mending
mending-IsClosed = record {
  bodies = λ id nt e found body. subst (IsSound mending) (mending_body id nt e found body) refl;
}

mending-IsCutFreeUpTo : IsCutFreeUpTo 0 mending
unfolding height
mending-IsCutFreeUpTo = record {
  bodies = λ id nt e found body.
      subst (λ x. IsCutFree x × (height x ≤ 0)) (mending_body id nt e found body) (tt, omega arith);
}

fresh-IsCalm : IsCalm (from_range bad_text)
unfolding from_range
fresh-IsCalm = record { framed = tt; uncut = tt }

nonterminal_parse-Recovers_example :
    (r : ParseResult) × (d : Context) × (nonterminal_parse mending
        (parse 2 mending)
        0
        (from_range bad_text)
      ≡ ok r d)
    × (r.success ≡ true)
    × (0 ≤ d.m_position)
unfolding from_range
nonterminal_parse-Recovers_example =
    nonterminal_parse-Recovers mending 0 2 0 mending_rule digit (λ x. x == b';')
      (from_range bad_text) mending-IsClosed mending-IsCutFreeUpTo refl refl refl
      (from_range-IsValid mending bad_text) fresh-IsCalm refl (omega arith)
