-- ===== src/Grammar/Refs.antt =====
-- The validation helpers of include/peglib/Grammar.h, and the `collect_rule_refs` members of the
-- expression types. A `std::set<std::string>` is the ascending list of its names.
use peglib.Prelude.{
  ℕ, zero, suc, Bool, true, false, List, [], ◌∷◌, ◌++◌, Option, none, some, not, ◌&&◌, ◌||◌,
  if◌then◌else◌, length, get_elem?,
}
use peglib.ParseError.{Bytes, bytes_eq, bytes_lt}
use peglib.Expr.{
  Expr, Exprs, nil, cons, sequence, alternation, zero_or_more, one_or_more, n_times, optional,
  not_expr, and_expr, lexeme, rule, NonTerminal, Grammar,
}
use peglib.Grammar.{find_rule, is_empty_name}

-- `std::set::insert`, and whether `find` finds the name.
unfoldable pub insert_name : Bytes → List Bytes → List Bytes
insert_name name [] = name ∷ []
insert_name name (x ∷ xs) =
    if bytes_lt x name
    then x ∷ insert_name name xs
    else if bytes_eq x name
    then x ∷ xs
    else name ∷ x ∷ xs

unfoldable pub has_name : List Bytes → Bytes → Bool
has_name [] name = false
has_name (x ∷ xs) name = bytes_eq x name || has_name xs name

-- A rule handle adds its name; the other leaves add nothing.
unfoldable mutual
  pub collect_rule_refs : Expr → List Bytes → List Bytes
  collect_rule_refs (sequence es) refs = collect_all es refs
  collect_rule_refs (alternation es) refs = collect_all es refs
  collect_rule_refs (zero_or_more e) refs = collect_rule_refs e refs
  collect_rule_refs (one_or_more e) refs = collect_rule_refs e refs
  collect_rule_refs (n_times e n) refs = collect_rule_refs e refs
  collect_rule_refs (optional e) refs = collect_rule_refs e refs
  collect_rule_refs (not_expr e) refs = collect_rule_refs e refs
  collect_rule_refs (and_expr e) refs = collect_rule_refs e refs
  collect_rule_refs (lexeme e) refs = collect_rule_refs e refs
  collect_rule_refs (rule id name) refs = insert_name name refs
  collect_rule_refs _ refs = refs

  pub collect_all : Exprs → List Bytes → List Bytes
  collect_all nil refs = refs
  collect_all (cons e es) refs = collect_all es (collect_rule_refs e refs)

-- `NonTerminal::collect_rule_refs`, into an empty set.
abbrev pub body_refs : Option Expr → List Bytes
body_refs none = []
body_refs (some e) = collect_rule_refs e []

abbrev pub rule_refs : Option NonTerminal → List Bytes
rule_refs none = []
rule_refs (some nt) = body_refs nt.m_rule

unfoldable pub refs_of_id : Grammar → ℕ → List Bytes
refs_of_id g id = rule_refs (get_elem? g.non_terminals id)

abbrev pub refs_of_entry : Grammar → Option ℕ → List Bytes
refs_of_entry g none = []
refs_of_entry g (some id) = refs_of_id g id

-- A name without an entry is passed over.
unfoldable pub refs_of : Grammar → Bytes → List Bytes
refs_of g name = refs_of_entry g (find_rule g.m_rules name)

-- The loop over the references of one rule; the back of the queue is the head of its list.
unfoldable pub push_new : List Bytes → List Bytes → List Bytes → List Bytes × List Bytes
push_new [] reachable queue = (reachable, queue)
push_new (r ∷ refs) reachable queue =
    if has_name reachable r
    then push_new refs reachable queue
    else push_new refs (insert_name r reachable) (r ∷ queue)

-- The loop over the queue, of so many rounds at most; `none` if they do not suffice.
unfoldable pub visit : ℕ → Grammar → List Bytes → List Bytes → Option (List Bytes)
visit zero g reachable [] = some reachable
visit zero g reachable (name ∷ queue) = none
visit (suc rounds) g reachable [] = some reachable
visit (suc rounds) g reachable (name ∷ queue) =
    let (reachable', queue') = push_new (refs_of g name) reachable queue in
    visit rounds g reachable' queue'

-- The references of all rules in the table.
unfoldable pub all_refs : Grammar → List (Bytes × ℕ) → List Bytes
all_refs g [] = []
all_refs g ((name, id) ∷ rules) = refs_of_id g id ++ all_refs g rules

abbrev pub has_body : Option Expr → Bool
has_body none = false
has_body (some e) = true

abbrev pub has_rule_body : Option NonTerminal → Bool
has_rule_body none = false
has_rule_body (some nt) = has_body nt.m_rule

unfoldable pub is_defined : Grammar → ℕ → Bool
is_defined g id = has_rule_body (get_elem? g.non_terminals id)

unfoldable pub undefined_names : Grammar → List (Bytes × ℕ) → List Bytes
undefined_names g [] = []
undefined_names g ((name, id) ∷ rules) =
    if not (is_defined g id) then name ∷ undefined_names g rules else undefined_names g rules

unfoldable pub undefined_rules : Grammar → List Bytes
unfolding undefined_names
undefined_rules g = undefined_names g g.m_rules

unfoldable pub unreachable_names : Grammar → List Bytes → List (Bytes × ℕ) → List Bytes
unreachable_names g reachable [] = []
unreachable_names g reachable ((name, id) ∷ rules) =
    if is_defined g id && not (has_name reachable name)
    then name ∷ unreachable_names g reachable rules
    else unreachable_names g reachable rules

abbrev pub names_outside : Grammar → Option (List Bytes) → Option (List Bytes)
names_outside g none = none
names_outside g (some reachable) = some (unreachable_names g reachable g.m_rules)

-- Every name that enters the queue, but the start rule, is a reference of some rule.
abbrev pub rounds_of : Grammar → ℕ
rounds_of g = suc (length (all_refs g g.m_rules))

abbrev pub search_from : Grammar → Option ℕ → Option (List Bytes)
search_from g none = some []
search_from g (some id) =
    names_outside g (visit (rounds_of g) g (insert_name g.m_start []) (g.m_start ∷ []))

unfoldable pub unreachable_rules : Grammar → Option (List Bytes)
unreachable_rules g =
    if is_empty_name g.m_start then some [] else search_from g (find_rule g.m_rules g.m_start)
