-- ===== src/Engine/Combinators.antt =====
-- The `parse` members of include/peglib/Combinators.h, over a parser `p` of their children, and
-- `Context::run_skipper`.
use peglib.Prelude.{
  ℕ, zero, suc, Bool, true, false, List, [], ◌∷◌, ◌++◌, Option, none, some, not, ◌&&◌, ◌||◌, ltb,
  leb, ◌==◌, if◌then◌else◌, ℤ, pos, negsuc,
}
use peglib.Context.{
  Context, ParseResult, failed, input_size, mark, set_state, make_node, update_node, set_cut,
  get_cut, init_cut, remove_cut, set_skip_enabled,
}
use peglib.Expr.{Expr, Exprs, nil, cons}
use peglib.Engine.{throw, diverged, Parser, ◌>>=◌, ◌>>◌, pure, gets, modify, method, guarded}

-- `throw ParseError{context.furthest_failure_pos(), context.expected()}`
abbrev pub throw_cut : {A : Type 0} → Parser A
throw_cut c = throw (record { m_pos = c.m_furthest_failure_pos; m_expected = c.m_expected }) c

abbrev pub run_with_skipper : Option ℕ → Bool → (ℕ → Parser ParseResult) → Parser (Unit {0})
run_with_skipper (some s) true parse_rule = do
  modify (set_skip_enabled false)
  _ ← parse_rule s
  modify (set_skip_enabled true)
run_with_skipper _ _ parse_rule = pure tt

-- `parse_rule` is `NonTerminal::parse`. The flag is put back on a return only.
unfoldable pub run_skipper : (ℕ → Parser ParseResult) → Parser (Unit {0})
run_skipper parse_rule c = run_with_skipper c.m_skipper c.m_skip_enabled parse_rule c

abbrev pub start_at : ℕ → Context → Context
start_at node c = update_node node (λ n. record n { start_offset = mark c }) c

abbrev pub end_at : ℕ → Context → Context
end_at node c = update_node node (λ n. record n { end_offset = mark c }) c

-- `if (result.tree) node->children.push_back(result.tree)`
abbrev pub push_child : ℕ → Option ℕ → Context → Context
push_child node none c = c
push_child node (some t) c =
    update_node node (λ n. record n { children = n.children ++ some t ∷ [] }) c

abbrev pub skip_between : ℕ → Parser (Unit {0}) → Parser (Unit {0})
skip_between zero skip = pure tt
skip_between (suc i) skip = skip

-- `parseSeq<Index>` on the children from `Index` on.
unfoldable pub parse_seq :
    (Expr → Parser ParseResult) → Parser (Unit {0}) → ℕ → Exprs → ℕ → Parser Bool
parse_seq p skip index nil node = pure true
parse_seq p skip index (cons e es) node = do
  skip_between index skip
  result ← p e
  elim result.success [
    | true ↦ modify (push_child node result.tree) >> parse_seq p skip (suc index) es node
    | false ↦ pure false
  ]

unfoldable pub sequence_parse :
    (Expr → Parser ParseResult) → Parser (Unit {0}) → Exprs → Parser ParseResult
sequence_parse p skip es = do
  state ← gets mark
  node ← method make_node
  modify (start_at node)
  matched ← parse_seq p skip 0 es node
  elim matched [
    | true ↦ modify (end_at node) >> pure (record { success = true; tree = some node })
    | false ↦ modify (set_state state) >> pure failed
  ]

abbrev pub stamp_winner : ℕ → Option ℕ → Context → Context
stamp_winner index none c = c
stamp_winner index (some t) c = update_node t (λ n. record n { alt_winner = some index }) c

-- `parseAlt<Index>` on the children from `Index` on.
unfoldable pub parse_alt : (Expr → Parser ParseResult) → ℕ → Exprs → Parser ParseResult
parse_alt p index nil = pure failed
parse_alt p index (cons e es) = do
  result ← p e
  elim result.success [
    | true ↦ modify (stamp_winner index result.tree) >> pure result
    | false ↦ do
      committed ← gets get_cut
      elim committed [ true ↦ throw_cut | false ↦ parse_alt p (suc index) es ]
  ]

unfoldable pub alternation_parse : (Expr → Parser ParseResult) → Exprs → Parser ParseResult
alternation_parse p es = modify init_cut >> guarded remove_cut (parse_alt p 0 es)

-- `(max_rep > 0) && (loopCount >= static_cast<std::size_t>(max_rep))`
abbrev pub reached : ℤ → ℕ → Bool
reached (pos zero) count = false
reached (pos (suc m)) count = leb (suc m) count
reached (negsuc m) count = false

-- `max_rep < 0`
abbrev pub is_unbounded : ℤ → Bool
is_unbounded (pos m) = false
is_unbounded (negsuc m) = true

-- The variables of the loop when it is left.
pub record LoopEnd : Type 0 where
  pub loop_count : ℕ
  pub last_success_state : ℕ
  pub exited_via_failure : Bool

unfoldable pub repeat_loop :
    ℕ → Parser ParseResult → Parser (Unit {0}) → ℤ → ℕ → ℕ → ℕ → Parser LoopEnd
repeat_loop zero p skip max_rep node count last c = diverged
repeat_loop (suc bound) p skip max_rep node count last c =
    (do
      skip_between count skip
      start_state ← gets mark
      modify (set_cut false)
      result ← p
      elim result.success [
        | true ↦ do
          state ← gets mark
          modify (push_child node result.tree)
          elim (reached max_rep (suc count) || (state == start_state)) [
            | true ↦ pure (record {
              loop_count = suc count;
              last_success_state = state;
              exited_via_failure = false;
            })
            | false ↦ repeat_loop bound p skip max_rep node (suc count) state
          ]
        | false ↦
            pure
              (record { loop_count = count; last_success_state = last; exited_via_failure = true })
      ])
      c

-- `children.resize(n)`, which pads with null pointers.
unfoldable pub resize : ℕ → List (Option ℕ) → List (Option ℕ)
resize zero xs = []
resize (suc n) [] = none ∷ resize n []
resize (suc n) (x ∷ xs) = x ∷ resize n xs

-- `if (exited_via_failure)`
abbrev pub rewind : ℕ → LoopEnd → Context → Context
rewind node l c =
    if l.exited_via_failure
    then update_node node (λ n. record n { children = resize l.loop_count n.children })
        (set_state l.last_success_state c)
    else c

-- What `repeat_parse_impl` does below its loop.
unfoldable pub repeat_end : ℕ → ℤ → ℕ → ℕ → LoopEnd → Parser ParseResult
repeat_end min_rep max_rep init_state node l = elim (ltb l.loop_count min_rep) [
  | true ↦ modify (set_state init_state) >> pure failed
  | false ↦ do
    modify (rewind node l)
    committed ← gets get_cut
    elim (is_unbounded max_rep && (l.exited_via_failure && committed)) [
      | true ↦ throw_cut
      | false ↦ modify (end_at node) >> pure (record { success = true; tree = some node })
    ]
]

-- The loop goes round at most once more than there are elements left, and one round more to stop.
unfoldable pub repeat_body : Parser ParseResult → Parser (Unit {0}) → ℕ → ℤ → Parser ParseResult
repeat_body p skip min_rep max_rep = do
  init_state ← gets mark
  node ← method make_node
  modify (start_at node)
  bound ← gets (λ c. suc (suc (input_size c)))
  l ← repeat_loop bound p skip max_rep node 0 init_state
  repeat_end min_rep max_rep init_state node l

unfoldable pub repeat_parse_impl :
    Parser ParseResult → Parser (Unit {0}) → ℕ → ℤ → Parser ParseResult
repeat_parse_impl p skip min_rep max_rep =
    modify init_cut >> guarded remove_cut (repeat_body p skip min_rep max_rep)

unfoldable pub predicate_parse_impl : Parser ParseResult → Bool → Parser ParseResult
predicate_parse_impl p negate = do
  init_state ← gets mark
  result ← p
  modify (set_state init_state)
  pure (record { success = if negate then not result.success else result.success; tree = none })

unfoldable pub cut_parse : Parser ParseResult
cut_parse = modify (set_cut true) >> pure (record { success = true; tree = none })

unfoldable pub lexeme_parse : Parser ParseResult → Parser ParseResult
lexeme_parse p = do
  prev ← gets (λ c. c.m_skip_enabled)
  modify (set_skip_enabled false)
  guarded (set_skip_enabled prev) p
