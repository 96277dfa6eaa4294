-- ===== src/Grammar/Reach.antt =====
-- `unreachable_rules` of include/peglib/Grammar.h against the relation of being reachable.
use peglib.Prelude.{
  ℕ, zero, suc, ◌+◌, ◌≤◌, ◌≡◌, refl, subst, true, false, List, [], ◌∷◌, some, ◌⊎◌, inl, inr, ◌↔◌,
  arith, Bool-cases, length,
}
use peglib.ParseError.{Bytes, bytes_eq}
use peglib.ParseError.Order.{bytes_eq_iff}
use peglib.Expr.{Grammar}
use peglib.Grammar.{find_rule, is_empty_name}
use peglib.Grammar.Refs.{
  insert_name, has_name, refs_of_id, refs_of_entry, refs_of, push_new, visit, all_refs, is_defined,
  unreachable_names, rounds_of, unreachable_rules,
}
use peglib.Grammar.Names.{In, has-insert_name, has-append, fresh, fresh-le-length, fresh-insert_lt}

-- A rule is reachable if it is the start rule or a reachable rule refers to it.
pub data Reaches (g : Grammar) : Bytes → Type 0 where
  start : Reaches g g.m_start
  via : (name ref : Bytes) → Reaches g name → In ref (refs_of g name) → Reaches g ref

-- The name has an entry in the table whose rule has a body.
abbrev pub IsListed : Grammar → Bytes → List (Bytes × ℕ) → Type 0
IsListed g name [] = ⊥
IsListed g name ((key, id) ∷ rules) =
    ((key ≡ name) × (is_defined g id ≡ true)) ⊎ IsListed g name rules

-- What the loop over the references of a rule does to the set and the queue.
record Pushes (us refs set queue set' queue' : List Bytes) : Type 0 where
  kept : (x : Bytes) → In x set → In x set'
  added : (x : Bytes) → In x refs → In x set'
  queued : (x : Bytes) → In x queue → In x queue'
  new : (x : Bytes) → In x set' → In x set ⊎ (In x refs × In x queue')
  pending : (x : Bytes) → In x queue' → In x queue ⊎ In x refs
  less : length queue' + fresh us set' ≤ length queue + fresh us set

push_new-Pushes :
    (us refs set queue : List Bytes)
    → ((x : Bytes) → In x refs → In x us)
    → Pushes us refs set queue (push_new refs set queue).0 (push_new refs set queue).1
unfolding push_new has_name
push_new-Pushes us [] set queue h = record {
  kept = λ x i. i;
  added = λ x i. absurd cc;
  queued = λ x i. i;
  new = λ x i. inl i;
  pending = λ x i. inl i;
  less = omega arith;
}
push_new-Pushes us (r ∷ refs) set queue h =
    let known : In r us =
      h r (let same : bytes_eq r r ≡ true = (bytes_eq_iff r r).1 refl in rw same) in
    let h' : (x : Bytes) → In x refs → In x us = λ x i. h x (ground arith) in
    elim (Bool-cases (has_name set r)) [
      | inl p ↦
          let v = push_new-Pushes us refs set queue h' in
          rw p (record {
            kept = v.kept;
            added = λ x i.
                let eq = bytes_eq_iff r x in
                let old = v.kept x in
                let later = v.added x in let first : r ≡ x → In x set = λ e. cc in ground arith;
            queued = v.queued;
            new = λ x i. let cases = v.new x i in ground arith;
            pending = λ x i. let cases = v.pending x i in ground arith;
            less = v.less;
          })
      | inr p ↦
          let v = push_new-Pushes us refs (insert_name r set) (r ∷ queue) h' in
          rw p (record {
            kept = λ x i. v.kept x ((has-insert_name r x set).1 (inr i));
            added = λ x i.
                let eq = bytes_eq_iff r x in
                let member = has-insert_name r x set in
                let old = v.kept x in let later = v.added x in ground arith;
            queued = λ x i. let old = v.queued x in ground arith;
            new = λ x i.
                let cases = v.new x i in
                let eq = bytes_eq_iff r x in
                let member = has-insert_name r x set in let front = v.queued x in ground arith;
            pending = λ x i. let cases = v.pending x i in ground arith;
            less = let fewer = fresh-insert_lt us set r known p in omega (arith, v.less);
          })
    ]

-- The set and the queue between two rounds: all is reachable, and what is not in the queue has its
-- references in the set.
record Searches (g : Grammar) (set queue : List Bytes) : Type 0 where
  sound : (x : Bytes) → In x set → Reaches g x
  queue_sound : (x : Bytes) → In x queue → Reaches g x
  frontier : (x ref : Bytes) → In x set → In ref (refs_of g x) → In x queue ⊎ In ref set

push_new-Searches :
    (g : Grammar) (us set queue : List Bytes) (name : Bytes)
    → Searches g set (name ∷ queue)
    → Pushes us
        (refs_of g name)
        set
        queue
        (push_new (refs_of g name) set queue).0
        (push_new (refs_of g name) set queue).1
    → Searches g (push_new (refs_of g name) set queue).0 (push_new (refs_of g name) set queue).1
unfolding has_name
push_new-Searches g us set queue name v p =
    let here : Reaches g name =
      v.queue_sound name (let e = (bytes_eq_iff name name).1 refl in rw e) in
    record {
      sound =
          λ x i. elim (p.new x i) [ inl old ↦ v.sound x old | inr found ↦ via name x here found.0 ];
      queue_sound = λ x i. elim (p.pending x i) [
        | inl old ↦ v.queue_sound x (ground arith)
        | inr found ↦ via name x here found
      ];
      frontier = λ x ref i r. elim (p.new x i) [
        | inl old ↦ elim (v.frontier x ref old r) [
          | inl waiting ↦ elim (Bool-cases (bytes_eq name x)) [
            | inl q ↦
                let same : name ≡ x = (bytes_eq_iff name x).0 q in
                let mine : In ref (refs_of g name) = cc in inr (p.added ref mine)
            | inr q ↦ inl (p.queued x (ground arith))
          ]
          | inr known ↦ inr (p.kept ref known)
        ]
        | inr found ↦ inl found.1
      ];
    }

visit_lem :
    (g : Grammar) (us : List Bytes) (rounds : ℕ) (set queue : List Bytes)
    → ((x ref : Bytes) → In ref (refs_of g x) → In ref us)
    → length queue + fresh us set ≤ rounds
    → Searches g set queue
    → (set' : List Bytes) × (visit rounds g set queue ≡ some set')
      × ((x : Bytes) → In x set → In x set')
      × Searches g set' []
unfolding visit
visit_lem g us zero set [] known h v = (set, refl, (λ x i. i), v)
visit_lem g us zero set (name ∷ queue) known h v = absurd (omega arith)
visit_lem g us (suc rounds) set [] known h v = (set, refl, (λ x i. i), v)
visit_lem g us (suc rounds) set (name ∷ queue) known h v =
    let p = push_new-Pushes us (refs_of g name) set queue (λ ref i. known name ref i) in
    let (set', e, grows, v') =
      visit_lem g us rounds (push_new (refs_of g name) set queue).0
        (push_new (refs_of g name) set queue).1 known (omega (arith, p.less))
        (push_new-Searches g us set queue name v p) in
    (set', e, (λ x i. grows x (p.kept x i)), v')

refs_of_entry-known :
    (g : Grammar) (rules : List (Bytes × ℕ)) (name ref : Bytes)
    → In ref (refs_of_entry g (find_rule rules name))
    → In ref (all_refs g rules)
unfolding find_rule all_refs has_name
refs_of_entry-known g [] name ref h = absurd cc
refs_of_entry-known g ((key, id) ∷ rules) name ref h =
    let member = has-append ref (refs_of_id g id) (all_refs g rules) in
    elim (Bool-cases (bytes_eq key name)) [
      | inl p ↦ member.1 (inl (rw p at h))
      | inr p ↦ member.1 (inr (refs_of_entry-known g rules name ref (rw p at h)))
    ]

refs_of-known :
    (g : Grammar) (name ref : Bytes) → In ref (refs_of g name) → In ref (all_refs g g.m_rules)
unfolding refs_of
refs_of-known g name ref h = refs_of_entry-known g g.m_rules name ref h

-- A set with nothing left to visit holds all that is reachable from it.
Searches-complete :
    (g : Grammar) (set : List Bytes) (name : Bytes)
    → Searches g set []
    → In g.m_start set
    → Reaches g name
    → In name set
unfolding has_name
Searches-complete g set name v h start = h
Searches-complete g set name v h (via from ref r i) =
    elim (v.frontier from name (Searches-complete g set from v h r) i) [
      | inl waiting ↦ absurd cc
      | inr known ↦ known
    ]

unreachable_names_lem :
    (g : Grammar) (set : List Bytes) (rules : List (Bytes × ℕ)) (name : Bytes)
    → In name (unreachable_names g set rules)
      ↔ (IsListed g name rules × (has_name set name ≡ false))
unfolding unreachable_names has_name
unreachable_names_lem g set [] name = ground arith
unreachable_names_lem g set ((key, id) ∷ rules) name =
    ground (arith, unreachable_names_lem g set rules name, bytes_eq_iff key name)

outside_lem :
    (g : Grammar) (set : List Bytes) (name : Bytes)
    → Searches g set []
    → In g.m_start set
    → (has_name set name ≡ false) ↔ (Reaches g name → ⊥)
outside_lem g set name v begun = (
  λ out r. let i = Searches-complete g set name v begun r in absurd cc,
  λ not_reached. elim (Bool-cases (has_name set name)) [
    | inl i ↦ absurd (not_reached (v.sound name i))
    | inr out ↦ out
  ],
)

start-Searches : (g : Grammar) → Searches g (insert_name g.m_start []) (g.m_start ∷ [])
unfolding has_name insert_name
start-Searches g = record {
  sound = λ x i.
      let same : g.m_start ≡ x = (bytes_eq_iff g.m_start x).0 (ground arith) in
      subst (Reaches g) same start;
  queue_sound = λ x i.
      let same : g.m_start ≡ x = (bytes_eq_iff g.m_start x).0 (ground arith) in
      subst (Reaches g) same start;
  frontier = λ x ref i r. inl i;
}

-- If the start rule has a name and is in the table, the worklist loop of unreachable_rules ends,
-- and the names it gives are those of the table's assigned rules that no chain of rule references
-- from the start rule reaches.
pub unreachable_rules_lem :
    (g : Grammar) (id : ℕ)
    → is_empty_name g.m_start ≡ false
    → find_rule g.m_rules g.m_start ≡ some id
    → (names : List Bytes) × (unreachable_rules g ≡ some names)
      × ((name : Bytes) → In name names ↔ (IsListed g name g.m_rules × (Reaches g name → ⊥)))
unfolding unreachable_rules
unreachable_rules_lem g id named found =
    let us = all_refs g g.m_rules in
    let one = has-insert_name g.m_start in
    let first : Searches g (insert_name g.m_start []) (g.m_start ∷ []) = start-Searches g in
    let (set, e, grows, v) =
      visit_lem g us (rounds_of g) (insert_name g.m_start []) (g.m_start ∷ []) (refs_of-known g)
        (omega (arith, fresh-le-length us (insert_name g.m_start []))) first in
    let started : In g.m_start set = grows g.m_start ((one g.m_start []).1 (inl refl)) in
    rw (named, found, e)
      (
        unreachable_names g set g.m_rules,
        refl,
        λ name.
            let listed = unreachable_names_lem g set g.m_rules name in
            let (to, from) = outside_lem g set name v started in
            (λ i. ((listed.0 i).0, to (listed.0 i).1), λ i. listed.1 (i.0, from i.1)),
      )
