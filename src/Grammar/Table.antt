-- ===== src/Grammar/Table.antt =====
-- The table of rules of include/peglib/Grammar.h: access by name, and the assignment of a body
-- (`Rule::operator=` of include/peglib/NonTerminal.h).
use peglib.Prelude.{
  ℕ, ◌≡◌, refl, Bool, true, false, List, [], ◌∷◌, ◌++◌, Option, none, some, arith, if◌then◌else◌,
  Option-cases, inl, inr, length, get_or, set,
}
use peglib.ParseError.{Bytes, bytes_eq, bytes_lt}
use peglib.ParseError.Order.{bytes_eq_iff}
use peglib.Expr.{Expr, NonTerminal, Grammar}
use peglib.Grammar.{find_rule}

-- `std::make_shared<NonTerminalType>()`
abbrev pub blank_rule : NonTerminal
blank_rule = record {
  m_rule = none;
  m_name = [];
  m_label = [];
  m_recover = record { is_sync_token = none; label = [] };
  has_typed_fold = false;
}

-- `std::map::try_emplace` of a missing key.
unfoldable pub insert_rule : Bytes → ℕ → List (Bytes × ℕ) → List (Bytes × ℕ)
insert_rule name id [] = (name, id) ∷ []
insert_rule name id ((key, other) ∷ rules) =
    if bytes_lt key name
    then (key, other) ∷ insert_rule name id rules
    else (name, id) ∷ (key, other) ∷ rules

abbrev pub entry_at : Bytes → Grammar → Option ℕ → Grammar × ℕ
entry_at name g (some id) = (g, id)
entry_at name g none = (
  record g {
    non_terminals = g.non_terminals ++ blank_rule ∷ [];
    m_rules = insert_rule name (length g.non_terminals) g.m_rules;
  },
  length g.non_terminals,
)

-- `operator[]`: the grammar and the rule that the handle points to.
unfoldable pub get_or_create : Bytes → Grammar → Grammar × ℕ
get_or_create name g = entry_at name g (find_rule g.m_rules name)

-- `find`
abbrev pub find : Bytes → Grammar → Option ℕ
find name g = find_rule g.m_rules name

abbrev is_found : Option ℕ → Bool
is_found none = false
is_found (some id) = true

abbrev pub has_rule : Bytes → Grammar → Bool
has_rule name g = is_found (find name g)

unfoldable pub names_of : List (Bytes × ℕ) → List Bytes
names_of [] = []
names_of ((name, id) ∷ rules) = name ∷ names_of rules

unfoldable pub rule_names : Grammar → List Bytes
rule_names g = names_of g.m_rules

abbrev pub set_start : Bytes → Grammar → Grammar
set_start name g = record g { m_start = name }

-- `set_skipper`; `none` is the thrown `std::invalid_argument`.
unfoldable pub set_skipper : ℕ → Grammar → Option Grammar
set_skipper id g = elim (get_or g.non_terminals id blank_rule).m_rule [
  | none ↦ none
  | some e ↦ some (record g { m_skipper = some id })
]

abbrev pub clear_skipper : Grammar → Grammar
clear_skipper g = record g { m_skipper = none }

-- `Rule::operator=` of a handle: the body, and the rule's name.
unfoldable pub assign_rule : ℕ → Bytes → Expr → Grammar → Grammar
assign_rule id name body g = record g {
  non_terminals =
      set g.non_terminals id
        (record (get_or g.non_terminals id blank_rule) { m_rule = some body; m_name = name });
}

find_rule-insert_rule :
    (name : Bytes) (id : ℕ) (rules : List (Bytes × ℕ))
    → find_rule rules name ≡ none
    → find_rule (insert_rule name id rules) name ≡ some id
unfolding find_rule insert_rule
find_rule-insert_rule name id [] h =
    let same : bytes_eq name name ≡ true = (bytes_eq_iff name name).1 refl in rw same
find_rule-insert_rule name id ((key, other) ∷ rules) h =
    let same : bytes_eq name name ≡ true = (bytes_eq_iff name name).1 refl in
    ground (arith, find_rule-insert_rule name id rules, same)

find_rule-insert_rule_other :
    (name other : Bytes) (id : ℕ) (rules : List (Bytes × ℕ))
    → bytes_eq name other ≡ false
    → find_rule (insert_rule name id rules) other ≡ find_rule rules other
unfolding find_rule insert_rule
find_rule-insert_rule_other name other id [] h = rw h
find_rule-insert_rule_other name other id ((key, id') ∷ rules) h =
    ground (arith, find_rule-insert_rule_other name other id rules h)

-- After operator[] the name is found at the rule whose handle was given, every other name is
-- found as before, and a second access gives the same rule and changes nothing.
pub get_or_create_lem :
    (name : Bytes) (g : Grammar)
    → (find name (get_or_create name g).0 ≡ some (get_or_create name g).1)
      × ((other : Bytes)
          → bytes_eq name other ≡ false
          → find other (get_or_create name g).0 ≡ find other g)
      × (get_or_create name (get_or_create name g).0 ≡ get_or_create name g)
unfolding get_or_create
get_or_create_lem name g = elim (Option-cases (find_rule g.m_rules name)) [
  | inl missing ↦
      let added = find_rule-insert_rule name (length g.non_terminals) g.m_rules missing in
      rw (missing, added)
        (
          refl,
          (λ other h. find_rule-insert_rule_other name other (length g.non_terminals) g.m_rules h),
          refl,
        )
  | inr (id, present) ↦ rw (present, present) (refl, (λ other h. refl), refl)
]
