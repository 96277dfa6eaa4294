-- ===== src/Grammar/Names.antt =====
-- Sets of rule names: membership, and how many names are not yet in a set.
use peglib.Prelude.{
  ℕ, suc, ◌≤◌, ◌<◌, ◌≡◌, sym, true, false, List, [], ◌∷◌, ◌++◌, ◌⊎◌, inl, inr, ◌↔◌, arith,
  if◌then◌else◌, Bool-cases, length,
}
use peglib.ParseError.{Bytes, bytes_eq}
use peglib.ParseError.Order.{bytes_eq_iff}
use peglib.Grammar.Refs.{insert_name, has_name}

abbrev pub In : Bytes → List Bytes → Type 0
In name names = has_name names name ≡ true

pub has-insert_name :
    (name x : Bytes) (names : List Bytes)
    → In x (insert_name name names) ↔ ((name ≡ x) ⊎ In x names)
unfolding insert_name has_name
has-insert_name name x [] = ground (arith, bytes_eq_iff name x)
has-insert_name name x (y ∷ names) = ground (
  arith,
  has-insert_name name x names,
  bytes_eq_iff y name,
  bytes_eq_iff y x,
  bytes_eq_iff name x,
)

pub has-append : (x : Bytes) (xs ys : List Bytes) → In x (xs ++ ys) ↔ (In x xs ⊎ In x ys)
unfolding has_name
has-append x [] ys = ground arith
has-append x (y ∷ xs) ys = ground (arith, has-append x xs ys)

-- How many of the names are not yet in the set.
unfoldable pub fresh : List Bytes → List Bytes → ℕ
fresh [] set = 0
fresh (u ∷ us) set = if has_name set u then fresh us set else suc (fresh us set)

pub fresh-le-length : (us set : List Bytes) → fresh us set ≤ length us
unfolding fresh
fresh-le-length [] set = omega arith
fresh-le-length (u ∷ us) set = ground (arith, fresh-le-length us set)

fresh-insert_le :
    (us set : List Bytes) (name : Bytes) → fresh us (insert_name name set) ≤ fresh us set
unfolding fresh
fresh-insert_le [] set name = omega arith
fresh-insert_le (u ∷ us) set name =
    ground (arith, fresh-insert_le us set name, has-insert_name name u set)

pub fresh-insert_lt :
    (us set : List Bytes) (name : Bytes)
    → In name us
    → has_name set name ≡ false
    → fresh us (insert_name name set) < fresh us set
unfolding fresh has_name
fresh-insert_lt [] set name h new = absurd cc
fresh-insert_lt (u ∷ us) set name h new =
    let member = has-insert_name name u set in
    let less = fresh-insert_le us set name in
    elim (Bool-cases (bytes_eq u name)) [
      | inl p ↦
          let same : u ≡ name = (bytes_eq_iff u name).0 p in
          let old : has_name set u ≡ false = cc in
          let added : has_name (insert_name name set) u ≡ true = member.1 (inl (sym same)) in
          rw (old, added) (omega (arith, less))
      | inr p ↦
          let rest : has_name us name ≡ true = ground arith in
          ground (arith, fresh-insert_lt us set name rest new, member)
    ]
