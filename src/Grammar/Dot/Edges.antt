-- ===== src/Grammar/Dot/Edges.antt =====
-- The edges that `to_dot` of include/peglib/Grammar.h draws, against the references of the rules.
mod Cost
mod Queue
use peglib.Prelude.{
  ℕ, zero, suc, ◌+◌, ◌≤◌, ◌≡◌, refl, sym, subst, true, false, List, [], ◌∷◌, ◌++◌, Option, none,
  some, ◌⊎◌, inl, inr, ◌↔◌, arith, Bool-cases, Option-cases, length, length-append, get_elem?,
  if◌then◌else◌,
}
use peglib.ParseError.{Bytes, bytes_eq}
use peglib.ParseError.Order.{bytes_eq_iff}
use peglib.Expr.{Expr, NonTerminal, Grammar}
use peglib.Grammar.{find_rule}
use peglib.Grammar.Refs.{
  insert_name, has_name, refs_of_id, refs_of, all_refs, is_defined, rule_refs, body_refs,
  has_rule_body, has_body,
}
use peglib.Grammar.Names.{In, has-insert_name}
use peglib.Grammar.Dot.{push_known, edges_from, draw, defined_queue, dot_rounds, dot_edges}
use peglib.Grammar.Dot.Edges.Cost.{unvisited, visit-cost, unvisited-nil}
use peglib.Grammar.Dot.Edges.Queue.{defined_queue-length, refs_of-queued}

-- The edge stands in the list.
abbrev pub IsEdge : Bytes → Bytes → List (Bytes × Bytes) → Type 0
IsEdge a b [] = ⊥
IsEdge a b ((x, y) ∷ es) = ((x ≡ a) × (y ≡ b)) ⊎ IsEdge a b es

IsEdge-append :
    (a b : Bytes) (es fs : List (Bytes × Bytes))
    → IsEdge a b (es ++ fs) ↔ (IsEdge a b es ⊎ IsEdge a b fs)
IsEdge-append a b [] fs = (λ h. inr h, λ h. elim h [ inl n ↦ absurd n | inr y ↦ y ])
IsEdge-append a b ((x, y) ∷ es) fs =
    let rest = IsEdge-append a b es fs in
    (
      λ h. elim h [
        | inl e ↦ inl (inl e)
        | inr i ↦ elim (rest.0 i) [ inl j ↦ inl (inr j) | inr j ↦ inr j ]
      ],
      λ h. elim h [
        | inl i ↦ elim i [ inl e ↦ inl e | inr j ↦ inr (rest.1 (inl j)) ]
        | inr j ↦ inr (rest.1 (inr j))
      ],
    )

IsEdge-edges_from :
    (a b name : Bytes) (refs : List Bytes)
    → IsEdge a b (edges_from name refs) ↔ ((name ≡ a) × In b refs)
unfolding edges_from has_name
IsEdge-edges_from a b name [] = (λ h. absurd h, λ h. absurd cc)
IsEdge-edges_from a b name (r ∷ refs) =
    let rest = IsEdge-edges_from a b name refs in ground (arith, rest, bytes_eq_iff r b)

push_known-In :
    (g : Grammar) (refs queue : List Bytes) (x : Bytes)
    → In x queue
    → In x (push_known g refs queue)
unfolding push_known has_name
push_known-In g [] queue x i = i
push_known-In g (r ∷ refs) queue x i =
    ground (arith, push_known-In g refs (r ∷ queue) x, push_known-In g refs queue x i)

push_known-length :
    (g : Grammar) (refs queue : List Bytes)
    → length (push_known g refs queue) ≤ length refs + length queue
unfolding push_known
push_known-length g [] queue = omega arith
push_known-length g (r ∷ refs) queue =
    ground (arith, push_known-length g refs (r ∷ queue), push_known-length g refs queue)

-- What the loop draws from a set and a queue.
record Draws (g : Grammar) (visited queue : List Bytes) (o : Option (List (Bytes × Bytes)))
    : Type 0 where
  edges : List (Bytes × Bytes)
  ends : o ≡ some edges
  sound : (a b : Bytes) → IsEdge a b edges → In b (refs_of g a)
  complete :
      (a b : Bytes)
      → In a queue
      → has_name visited a ≡ false
      → In b (refs_of g a)
      → IsEdge a b edges

draw-Draws :
    (rounds : ℕ) (g : Grammar) (visited queue : List Bytes)
    → length queue + unvisited g visited g.m_rules ≤ rounds
    → Draws g visited queue (draw rounds g visited queue)
unfolding draw has_name
draw-Draws zero g visited [] h = record {
  edges = [];
  ends = refl;
  sound = λ a b e. absurd e;
  complete = λ a b i n r. absurd cc;
}
draw-Draws (suc rounds) g visited [] h = record {
  edges = [];
  ends = refl;
  sound = λ a b e. absurd e;
  complete = λ a b i n r. absurd cc;
}
draw-Draws zero g visited (name ∷ queue) h = absurd (omega arith)
draw-Draws (suc rounds) g visited (name ∷ queue) h = elim (Bool-cases (has_name visited name)) [
  | inl old ↦
      let rest = draw-Draws rounds g visited queue (omega arith) in
      rw old (record {
        edges = rest.edges;
        ends = rest.ends;
        sound = rest.sound;
        complete = λ a b i n r. rest.complete a b (ground (arith, bytes_eq_iff name a)) n r;
      })
  | inr new ↦
      let refs = refs_of g name in
      let cost = visit-cost g visited name new in
      let longer = push_known-length g refs queue in
      let rest =
        draw-Draws rounds g (insert_name name visited) (push_known g refs queue)
          (omega (arith, cost, longer)) in
      rw (new, rest.ends)
        (record {
          edges = edges_from name refs ++ rest.edges;
          ends = refl;
          sound = λ a b e. elim ((IsEdge-append a b (edges_from name refs) rest.edges).0 e) [
            | inl here ↦
                let (same, i) = (IsEdge-edges_from a b name refs).0 here in
                subst (λ (n : Bytes). In b (refs_of g n)) same i
            | inr further ↦ rest.sound a b further
          ];
          complete = λ a b i n r.
              (IsEdge-append a b (edges_from name refs) rest.edges).1
                (elim (Bool-cases (bytes_eq name a)) [
                  | inl q ↦
                      let same : name ≡ a = (bytes_eq_iff name a).0 q in
                      inl (
                        (IsEdge-edges_from a b name refs).1
                          (same, subst (λ (n : Bytes). In b (refs_of g n)) (sym same) r))
                  | inr q ↦
                      let waiting = push_known-In g refs queue a (ground arith) in
                      let unseen : has_name (insert_name name visited) a ≡ false =
                        ground (arith, has-insert_name name a visited, bytes_eq_iff name a) in
                      inr (rest.complete a b waiting unseen r)
                ]);
        })
]

-- The loop of to_dot over its queue ends, and the edges it draws are those from the rules of the
-- table to the names that their bodies refer to.
pub dot_edges_lem :
    (g : Grammar)
    → (edges : List (Bytes × Bytes)) × (dot_edges g ≡ some edges)
      × ((a b : Bytes) → IsEdge a b edges ↔ In b (refs_of g a))
unfolding dot_edges has_name
dot_edges_lem g =
    let queued = defined_queue-length g g.m_rules [] in
    let drawn =
      draw-Draws (dot_rounds g) g [] (defined_queue g g.m_rules [])
        (omega (arith, queued, unvisited-nil g g.m_rules)) in
    (
      drawn.edges,
      drawn.ends,
      λ a b. (drawn.sound a b, λ r. drawn.complete a b (refs_of-queued g a b r) refl r),
    )
