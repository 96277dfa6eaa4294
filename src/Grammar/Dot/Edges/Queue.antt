-- ===== src/Grammar/Dot/Edges/Queue.antt =====
-- The first queue of `to_dot` of include/peglib/Grammar.h: the rules with a body.
use peglib.Prelude.{
  ℕ, ◌+◌, ◌≤◌, ◌≡◌, refl, true, List, [], ◌∷◌, Option, none, some, inl, inr, arith, Bool-cases,
  Option-cases, length, get_elem?,
}
use peglib.ParseError.{Bytes, bytes_eq}
use peglib.Expr.{Expr, NonTerminal, Grammar}
use peglib.Grammar.{find_rule}
use peglib.Grammar.Refs.{
  has_name, refs_of_id, refs_of, is_defined, rule_refs, body_refs, has_rule_body, has_body,
}
use peglib.Grammar.Names.{In}
use peglib.Grammar.Dot.{defined_queue}

defined_queue-In :
    (g : Grammar) (rules : List (Bytes × ℕ)) (queue : List Bytes) (x : Bytes)
    → In x queue
    → In x (defined_queue g rules queue)
unfolding defined_queue has_name
defined_queue-In g [] queue x i = i
defined_queue-In g ((name, id) ∷ rules) queue x i =
    ground (arith, defined_queue-In g rules (name ∷ queue) x, defined_queue-In g rules queue x i)

defined_queue-found :
    (g : Grammar) (rules : List (Bytes × ℕ)) (queue : List Bytes) (x : Bytes) (id : ℕ)
    → find_rule rules x ≡ some id
    → is_defined g id ≡ true
    → In x (defined_queue g rules queue)
unfolding defined_queue find_rule has_name
defined_queue-found g [] queue x id found defined = absurd cc
defined_queue-found g ((name, other) ∷ rules) queue x id found defined =
    elim (Bool-cases (bytes_eq name x)) [
      | inl q ↦
          let here : some other ≡ some id = rw q at found in
          let ids : other ≡ id = cc in
          rw (ids, defined) (defined_queue-In g rules (name ∷ queue) x (rw q refl))
      | inr q ↦
          let further : find_rule rules x ≡ some id = rw q at found in
          ground (
            arith,
            defined_queue-found g rules (name ∷ queue) x id further defined,
            defined_queue-found g rules queue x id further defined,
          )
    ]

pub defined_queue-length :
    (g : Grammar) (rules : List (Bytes × ℕ)) (queue : List Bytes)
    → length (defined_queue g rules queue) ≤ length rules + length queue
unfolding defined_queue
defined_queue-length g [] queue = omega arith
defined_queue-length g ((name, id) ∷ rules) queue =
    ground (arith, defined_queue-length g rules (name ∷ queue), defined_queue-length g rules queue)

-- A rule with a reference has a body.
rule_refs-defined :
    (o : Option NonTerminal) (b : Bytes) → In b (rule_refs o) → has_rule_body o ≡ true
unfolding has_name
rule_refs-defined none b i = absurd cc
rule_refs-defined (some nt) b i = by_body nt.m_rule i
  where
    by_body : (o : Option Expr) → In b (body_refs o) → has_body o ≡ true
    by_body none i = absurd cc
    by_body (some e) i = refl

refs_of_id-defined :
    (g : Grammar) (id : ℕ) (b : Bytes) → In b (refs_of_id g id) → is_defined g id ≡ true
unfolding refs_of_id is_defined
refs_of_id-defined g id b i = rule_refs-defined (get_elem? g.non_terminals id) b i

pub refs_of-queued :
    (g : Grammar) (a b : Bytes) → In b (refs_of g a) → In a (defined_queue g g.m_rules [])
unfolding refs_of has_name
refs_of-queued g a b i = elim (Option-cases (find_rule g.m_rules a)) [
  | inl missing ↦ let no : In b [] = rw missing at i in absurd cc
  | inr (id, found) ↦
      let here : In b (refs_of_id g id) = rw found at i in
      defined_queue-found g g.m_rules [] a id found (refs_of_id-defined g id b here)
]
