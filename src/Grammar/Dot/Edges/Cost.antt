-- ===== src/Grammar/Dot/Edges/Cost.antt =====
-- The rounds that the loop of `to_dot` of include/peglib/Grammar.h can still take.
use peglib.Prelude.{
  ℕ, ◌+◌, ◌≤◌, ◌≡◌, refl, sym, true, false, List, [], ◌∷◌, some, inl, inr, arith, Bool-cases,
  Option-cases, length, length-append, if◌then◌else◌,
}
use peglib.ParseError.{Bytes, bytes_eq}
use peglib.ParseError.Order.{bytes_eq_iff}
use peglib.Expr.{Grammar}
use peglib.Grammar.{find_rule}
use peglib.Grammar.Refs.{insert_name, has_name, refs_of_id, refs_of, all_refs}
use peglib.Grammar.Names.{has-insert_name}

-- The references of the rules that are not visited.
pub unvisited : Grammar → List Bytes → List (Bytes × ℕ) → ℕ
unvisited g visited [] = 0
unvisited g visited ((key, id) ∷ rules) =
    (if has_name visited key then 0 else length (refs_of_id g id)) + unvisited g visited rules

unvisited-insert :
    (g : Grammar) (visited : List Bytes) (name : Bytes) (rules : List (Bytes × ℕ))
    → unvisited g (insert_name name visited) rules ≤ unvisited g visited rules
unfolding unvisited
unvisited-insert g visited name [] = omega arith
unvisited-insert g visited name ((key, id) ∷ rules) =
    ground (arith, unvisited-insert g visited name rules, has-insert_name name key visited)

unvisited-found :
    (g : Grammar) (visited : List Bytes) (name : Bytes) (id : ℕ) (rules : List (Bytes × ℕ))
    → has_name visited name ≡ false
    → find_rule rules name ≡ some id
    → length (refs_of_id g id) + unvisited g (insert_name name visited) rules
      ≤ unvisited g visited rules
unfolding unvisited find_rule
unvisited-found g visited name id [] new found = absurd cc
unvisited-found g visited name id ((key, other) ∷ rules) new found =
    let fewer = unvisited-insert g visited name rules in
    let member = has-insert_name name key visited in
    elim (Bool-cases (bytes_eq key name)) [
      | inl q ↦
          let same : key ≡ name = (bytes_eq_iff key name).0 q in
          let old : has_name visited key ≡ false = cc in
          let added : has_name (insert_name name visited) key ≡ true = member.1 (inl (sym same)) in
          let here : some other ≡ some id = rw q at found in
          let ids : other ≡ id = cc in rw (old, added, ids) (omega (arith, fewer))
      | inr q ↦
          let further : find_rule rules name ≡ some id = rw q at found in
          let rest = unvisited-found g visited name id rules new further in
          ground (arith, rest, member)
    ]

pub visit-cost :
    (g : Grammar) (visited : List Bytes) (name : Bytes)
    → has_name visited name ≡ false
    → length (refs_of g name) + unvisited g (insert_name name visited) g.m_rules
      ≤ unvisited g visited g.m_rules
unfolding refs_of
visit-cost g visited name new = elim (Option-cases (find_rule g.m_rules name)) [
  | inl missing ↦ rw missing (omega (arith, unvisited-insert g visited name g.m_rules))
  | inr (id, found) ↦ rw found (unvisited-found g visited name id g.m_rules new found)
]

pub unvisited-nil :
    (g : Grammar) (rules : List (Bytes × ℕ)) → unvisited g [] rules ≡ length (all_refs g rules)
unfolding unvisited all_refs has_name
unvisited-nil g [] = refl
unvisited-nil g ((name, id) ∷ rules) =
    omega (arith, unvisited-nil g rules, length-append (refs_of_id g id) (all_refs g rules))
