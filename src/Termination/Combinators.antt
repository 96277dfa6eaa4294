-- ===== src/Termination/Combinators.antt =====
-- The combinators of include/peglib/Combinators.h, over operands that end.
use peglib.Prelude.{
  ℕ, zero, suc, ◌≡◌, refl, Bool, true, false, Option, none, some, inl, inr, List, [], ◌∷◌, All, ◌∙◌,
  arith, Bool-cases, ◌||◌, ◌&&◌, ◌==◌, ltb, ℤ,
}
use peglib.Context.{
  Context, input_size, CutRecord, ParseResult, make_node, set_cut, get_cut, top_cut, init_cut,
  remove_cut, set_skip_enabled,
}
use peglib.Expr.{Expr, Exprs, nil, cons, Grammar}
use peglib.Engine.{Parser}
use peglib.Engine.Combinators.{
  run_with_skipper, run_skipper, skip_between, push_child, start_at, parse_seq, sequence_parse,
  stamp_winner, parse_alt, alternation_parse, predicate_parse_impl, lexeme_parse, reached,
  is_unbounded, LoopEnd, repeat_loop, rewind, repeat_end, repeat_body, repeat_parse_impl,
}
use peglib.Invariant.{IsDefined, AreSound, HasSkipper, IsValid, Safe, Moves}
use peglib.Invariant.Relations.{Keeps-trans}
use peglib.Invariant.Operations.{Goes, make_node-Goes, update_node-Goes, set_cut-Goes}
use peglib.Invariant.Scope.{init_cut-IsValid}
use peglib.Invariant.Skipper.{ExprSafe, SkipSafe}
use peglib.Invariant.Combinators.{Forward, push_child-Goes, skip_between-SkipSafe}
use peglib.Termination.{IsCalm, IsReady, Ends}
use peglib.Termination.Room.{room-Keeps}
use peglib.Termination.Calm.{
  init_cut-IsCalm, set_cut-IsCalm, remove_cut-IsCalm, Ends-cleaned, Ends-bind, Ends-then,
}

-- The parser ends on every context that is ready.
abbrev pub EndsOn : {A : Type 0} → Grammar → ℕ → Parser A → Type 0
EndsOn g left p = (c : Context) → IsReady g left c → Ends (p c)

abbrev pub RulesEnd : Grammar → ℕ → (ℕ → Parser ParseResult) → Type 0
RulesEnd g left r = (id : ℕ) → IsDefined g id → EndsOn g left (r id)

abbrev pub AllEnd : Grammar → ℕ → (Expr → Parser ParseResult) → Exprs → Type 0
AllEnd g left p nil = Unit
AllEnd g left p (cons e es) = EndsOn g left (p e) × AllEnd g left p es

uncut_top : (rs : List CutRecord) → All (λ r. r.cut ≡ false) rs → top_cut rs ≡ false
uncut_top [] h = refl
uncut_top (r ∷ rs) h = h.0

pub get_cut-calm : (c : Context) → IsCalm c → get_cut c ≡ false
get_cut-calm c calm = uncut_top c.m_cut calm.uncut

pub IsReady-Goes :
    {g : Grammar} {left : ℕ} {c d : Context}
    → IsReady g left c
    → Goes g c d
    → IsCalm d
    → IsReady g left d
IsReady-Goes {g} {left} {c} {d} r goes calm = record {
  valid = goes.0;
  calm = calm;
  room_left = room-Keeps g c d goes.1 ∙ r.room_left;
}

init_cut-IsReady :
    {g : Grammar} {left : ℕ} {c : Context} → IsReady g left c → IsReady g left (init_cut c)
init_cut-IsReady {g} {left} {c} r = record {
  valid = init_cut-IsValid r.valid;
  calm = init_cut-IsCalm c r.calm;
  room_left = r.room_left;
}

unskipped-IsReady :
    {g : Grammar} {left : ℕ} {c : Context}
    → IsReady g left c
    → IsReady g left (set_skip_enabled false c)
unskipped-IsReady {g} {left} {c} r = record {
  valid = assumption r.valid;
  calm = assumption r.calm;
  room_left = r.room_left;
}

push_child-IsCalm :
    (node : ℕ) (t : Option ℕ) (c : Context) → IsCalm c → IsCalm (push_child node t c)
push_child-IsCalm node none c calm = calm
push_child-IsCalm node (some t) c calm = assumption calm

stamp_winner-IsCalm :
    (index : ℕ) (t : Option ℕ) (c : Context) → IsCalm c → IsCalm (stamp_winner index t c)
stamp_winner-IsCalm index none c calm = calm
stamp_winner-IsCalm index (some t) c calm = assumption calm

module _ (g : Grammar) (left : ℕ) (r : ℕ → Parser ParseResult) (ends : RulesEnd g left r) where
  run_with_skipper-Ends :
      (skipper : Option ℕ) (enabled : Bool) (c : Context)
      → HasSkipper g skipper
      → IsReady g left c
      → Ends (run_with_skipper skipper enabled r c)
  run_with_skipper-Ends none enabled c h ready = ready.calm
  run_with_skipper-Ends (some id) false c h ready = ready.calm
  run_with_skipper-Ends (some id) true c h ready =
      Ends-then (r id (set_skip_enabled false c)) _ (ends id h _ (unskipped-IsReady ready))
        (λ result d calm. assumption calm)

  pub run_skipper-Ends : EndsOn g left (run_skipper r)
  unfolding run_skipper
  run_skipper-Ends c ready =
      run_with_skipper-Ends c.m_skipper c.m_skip_enabled c ready.valid.skipper ready

module _ (g : Grammar) (left : ℕ) (skip : Parser (Unit {0})) (ends : EndsOn g left skip) where
  skip_between-Ends : (index : ℕ) → EndsOn g left (skip_between index skip)
  skip_between-Ends zero c ready = ready.calm
  skip_between-Ends (suc i) c ready = ends c ready

module _ (g : Grammar) (left : ℕ) (p : Expr → Parser ParseResult) (safe : ExprSafe g p) where
  parse_alt-Ends :
      (es : Exprs) (index : ℕ)
      → AreSound g es
      → AllEnd g left p es
      → EndsOn g left (parse_alt p index es)
  unfolding parse_alt
  parse_alt-Ends nil index s ends c ready = ready.calm
  parse_alt-Ends (cons e es) index (se, ses) (end, ends) c ready =
      Ends-bind g left c (Moves c.m_position) (p e c) _ ready.room_left (safe e se c ready.valid)
        (end c ready)
        λ r d ready' k m. elim (Bool-cases r.success) [
          | inl h ↦ rw h (stamp_winner-IsCalm index r.tree d ready'.calm)
          | inr h ↦
              rw (h, get_cut-calm d ready'.calm) (parse_alt-Ends es (suc index) ses ends d ready')
        ]

  pub alternation_parse-Ends :
      (es : Exprs) → AreSound g es → AllEnd g left p es → EndsOn g left (alternation_parse p es)
  unfolding alternation_parse
  alternation_parse-Ends es s ends c ready =
      Ends-cleaned remove_cut _ remove_cut-IsCalm
        (parse_alt-Ends es 0 s ends (init_cut c) (init_cut-IsReady ready))

  module _ (skip : Parser (Unit {0})) (skips : SkipSafe g skip)
      (skip_ends : EndsOn g left skip) where
    parse_seq-Ends :
        (es : Exprs) (index node : ℕ)
        → AreSound g es
        → AllEnd g left p es
        → EndsOn g left (parse_seq p skip index es node)
    unfolding parse_seq
    parse_seq-Ends nil index node s ends c ready = ready.calm
    parse_seq-Ends (cons e es) index node (se, ses) (end, ends) c ready =
        Ends-bind g left c (Forward c.m_position) (skip_between index skip c) _ ready.room_left
          (skip_between-SkipSafe g skip skips index c ready.valid)
          (skip_between-Ends g left skip skip_ends index c ready)
          λ _ d ready' k f.
            Ends-bind g left d (Moves d.m_position) (p e d) _ ready'.room_left
              (safe e se d ready'.valid) (end d ready')
              λ r z ready'' k' m. elim (Bool-cases r.success) [
                | inl h ↦ rw h (
                    parse_seq-Ends es (suc index) node ses ends (push_child node r.tree z) (
                      IsReady-Goes ready'' (push_child-Goes g z ready''.valid node r.tree)
                        (push_child-IsCalm node r.tree z ready''.calm)))
                | inr h ↦ rw h ready''.calm
              ]

    pub sequence_parse-Ends :
        (es : Exprs) → AreSound g es → AllEnd g left p es → EndsOn g left (sequence_parse p skip es)
    unfolding sequence_parse
    sequence_parse-Ends es s ends c ready =
        let d = start_at (make_node c).1 (make_node c).0 in
        let calm : IsCalm d = assumption ready.calm in
        let made = make_node-Goes ready.valid in
        let started = update_node-Goes made.0 _ _ in
        Ends-then (parse_seq p skip 0 es (make_node c).1 d) _
          (parse_seq-Ends es 0 (make_node c).1 s ends d
            (IsReady-Goes ready (started.0, Keeps-trans made.1 started.1) calm))
          λ matched z calm. elim (Bool-cases matched) [
            | inl h ↦ rw h (assumption calm)
            | inr h ↦ rw h (assumption calm)
          ]

module _ (g : Grammar) (left : ℕ) (p : Parser ParseResult) (ends : EndsOn g left p) where
  pub predicate_parse_impl-Ends : (negate : Bool) → EndsOn g left (predicate_parse_impl p negate)
  unfolding predicate_parse_impl
  predicate_parse_impl-Ends negate c ready =
      Ends-then (p c) _ (ends c ready) (λ r d calm. assumption calm)

  pub lexeme_parse-Ends : EndsOn g left (lexeme_parse p)
  unfolding lexeme_parse
  lexeme_parse-Ends c ready =
      Ends-cleaned (set_skip_enabled c.m_skip_enabled) _ (λ d calm. assumption calm)
        (ends _ (unskipped-IsReady ready))

  module _ (safe : (c : Context) → IsValid g c → Safe g c (Moves c.m_position) (p c))
      (skip : Parser (Unit {0})) (skips : SkipSafe g skip) (skip_ends : EndsOn g left skip) where
    repeat_loop-Ends :
        (bound : ℕ) (max_rep : ℤ) (node count last : ℕ)
        → EndsOn g left (repeat_loop bound p skip max_rep node count last)
    unfolding repeat_loop
    repeat_loop-Ends zero max_rep node count last c ready = tt
    repeat_loop-Ends (suc bound) max_rep node count last c ready =
        Ends-bind g left c (Forward c.m_position) (skip_between count skip c) _ ready.room_left
          (skip_between-SkipSafe g skip skips count c ready.valid)
          (skip_between-Ends g left skip skip_ends count c ready)
          λ _ d ready' k f.
            let cleared =
              IsReady-Goes ready' (set_cut-Goes ready'.valid false)
                (set_cut-IsCalm d ready'.calm) in
            Ends-bind g left (set_cut false d) (Moves d.m_position) (p (set_cut false d)) _
              cleared.room_left (safe (set_cut false d) cleared.valid)
              (ends (set_cut false d) cleared)
              λ r z ready'' k' m. elim (Bool-cases r.success) [
                | inr q ↦ rw q ready''.calm
                | inl q ↦ rw q (
                    let y = push_child node r.tree z in
                    let calm = push_child-IsCalm node r.tree z ready''.calm in
                    elim (Bool-cases
                      (reached max_rep (suc count) || (z.m_position == d.m_position))) [
                        | inl stop ↦ rw stop calm
                        | inr more ↦ rw more (
                            repeat_loop-Ends bound max_rep node (suc count) z.m_position y (
                              IsReady-Goes ready'' (push_child-Goes g z ready''.valid node r.tree)
                                calm))
                      ])
              ]

    rewind-IsCalm : (node : ℕ) (l : LoopEnd) (d : Context) → IsCalm d → IsCalm (rewind node l d)
    rewind-IsCalm node l d calm = elim (Bool-cases l.exited_via_failure) [
      | inl h ↦ rw h (assumption calm)
      | inr h ↦ rw h calm
    ]

    repeat_end-Ends :
        (min_rep : ℕ) (max_rep : ℤ) (start node : ℕ) (l : LoopEnd) (d : Context)
        → IsCalm d
        → Ends (repeat_end min_rep max_rep start node l d)
    unfolding repeat_end
    repeat_end-Ends min_rep max_rep start node l d calm =
        elim (Bool-cases (ltb l.loop_count min_rep)) [
          | inl h ↦ rw (h, Ends) (assumption calm)
          | inr h ↦
              let rewound = rewind-IsCalm node l d calm in
              rw (h, Ends)
                (elim (Bool-cases
                  (is_unbounded max_rep && (l.exited_via_failure && get_cut (rewind node l d)))) [
                    | inl q ↦
                        let quiet = get_cut-calm (rewind node l d) rewound in absurd (ground arith)
                    | inr q ↦ rw (q, Ends) (assumption rewound)
                  ])
        ]

    pub repeat_parse_impl-Ends :
        (min_rep : ℕ) (max_rep : ℤ) → EndsOn g left (repeat_parse_impl p skip min_rep max_rep)
    unfolding repeat_parse_impl repeat_body
    repeat_parse_impl-Ends min_rep max_rep c ready =
        let inner = init_cut-IsReady ready in
        let b = init_cut c in
        let d = start_at (make_node b).1 (make_node b).0 in
        let calm : IsCalm d = assumption inner.calm in
        let made = make_node-Goes inner.valid in
        let started = update_node-Goes made.0 _ _ in
        Ends-cleaned remove_cut _ remove_cut-IsCalm (
          Ends-then
            (repeat_loop (suc (suc (input_size b))) p skip max_rep (make_node b).1 0 b.m_position d)
            _
            (repeat_loop-Ends (suc (suc (input_size b))) max_rep (make_node b).1 0 b.m_position d
              (IsReady-Goes inner (started.0, Keeps-trans made.1 started.1) calm))
            λ l z calm. repeat_end-Ends min_rep max_rep b.m_position (make_node b).1 l z calm)
