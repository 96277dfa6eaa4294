-- ===== src/Termination/Run.antt =====
-- `parse` on grammars without cuts, and the depth of calls that is enough.
use peglib.Prelude.{
  ℕ, zero, suc, ◌+◌, ◌*◌, ◌≤◌, ◌<◌, ◌≡◌, refl, Bool, true, false, List, some, arith, pos, negsuc,
  length,
}
use peglib.ParseError.{Bytes}
use peglib.Context.{Context, ParseResult, from_range, internal_set_skipper}
use peglib.Expr.{
  Expr, Exprs, nil, cons, terminal, terminal_seq, token, matcher, empty, sequence, alternation,
  zero_or_more, one_or_more, n_times, optional, not_expr, and_expr, cut_expr, lexeme, rule, Grammar,
  int64_of_size,
}
use peglib.Engine.{Outcome, ok, throw, fault, diverged, too_deep, Parser, after, ◌>>◌}
use peglib.Engine.Combinators.{run_skipper}
use peglib.Engine.Rules.{nonterminal_parse}
use peglib.Engine.Run.{step, parse}
use peglib.Grammar.{Call, outcome, find_rule, caught, run_rule, parse_rule}
use peglib.Invariant.{IsDefined, IsClosed, IsSound, AreSound, HasSkipper}
use peglib.Invariant.Skipper.{ExprSafe, run_skipper-SkipSafe}
use peglib.Invariant.Rules.{nonterminal_parse-RuleSafe}
use peglib.Invariant.Run.{parse-ExprSafe}
use peglib.Invariant.Entries.{Answers, parse_rule-Answers, from_range-IsValid}
use peglib.Termination.{IsCutFree, AreCutFree, IsCutFreeUpTo, height, heights, IsReady, Ends, room}
use peglib.Termination.Room.{room-le}
use peglib.Termination.Calm.{Ends-bind}
use peglib.Termination.Terminals.{
  terminal_parse-Ends, token_parse-Ends, matcher_parse-Ends, terminal_seq_parse-Ends,
}
use peglib.Termination.Combinators.{
  EndsOn, RulesEnd, AllEnd, run_skipper-Ends, alternation_parse-Ends, sequence_parse-Ends,
  predicate_parse_impl-Ends, lexeme_parse-Ends, repeat_parse_impl-Ends,
}
use peglib.Termination.Rules.{BodiesEnd, nonterminal_parse-RulesEnd}

-- Depth for an expression under rules that may still be entered `b` times.
abbrev needed : ℕ → ℕ → ℕ → ℕ
needed tallest b h = h + b * suc tallest

-- The parser ends on every expression that the depth is enough for.
abbrev EndsWithin : Grammar → ℕ → ℕ → (Expr → Parser ParseResult) → Type 0
EndsWithin g tallest depth p =
    (e : Expr) (b : ℕ)
    → IsSound g e
    → IsCutFree e
    → needed tallest b (height e) < depth
    → EndsOn g b (p e)

pub mul_mono : (a b c : ℕ) → a ≤ b → a * c ≤ b * c
mul_mono zero b c h = omega arith
mul_mono (suc a) zero c h = absurd (omega arith)
mul_mono (suc a) (suc b) c h = omega (arith, mul_mono a b c (omega arith))

needed-less :
    (tallest left b h : ℕ) → h ≤ tallest → left < b → suc (needed tallest left h) ≤ b * suc tallest
needed-less tallest left b h low less = omega (arith, mul_mono (suc left) b (suc tallest) less)

module _ (g : Grammar) (tallest : ℕ) (closed : IsClosed g) (free : IsCutFreeUpTo tallest g)
    (depth : ℕ) (p : Expr → Parser ParseResult) (safe : ExprSafe g p)
    (within : EndsWithin g tallest depth p) where
  bodies : (b : ℕ) → b * suc tallest ≤ depth → BodiesEnd g tallest b p
  bodies b enough e left s f low less =
      within e left s f (omega (arith, enough, needed-less tallest left b (height e) low less))

  rules : (b : ℕ) → b * suc tallest ≤ depth → RulesEnd g b (nonterminal_parse g p)
  rules b enough = nonterminal_parse-RulesEnd g tallest b p closed free safe (bodies b enough)

  skips : (b : ℕ) → b * suc tallest ≤ depth → EndsOn g b (run_skipper (nonterminal_parse g p))
  skips b enough = run_skipper-Ends g b (nonterminal_parse g p) (rules b enough)

  all :
      (es : Exprs) (b : ℕ)
      → AreSound g es
      → AreCutFree es
      → needed tallest b (heights es) < depth
      → AllEnd g b p es
  unfolding heights
  all nil b s f enough = tt
  all (cons e es) b (s, ss) (f, fs) enough =
      (within e b s f (omega arith), all es b ss fs (omega arith))

  step-Ends : EndsWithin g tallest (suc depth) (step g p)
  unfolding step height
  step-Ends (terminal t) b s f enough c ready = terminal_parse-Ends c ready.calm g.byte_sized t s
  step-Ends (terminal_seq vs) b s f enough c ready =
      terminal_seq_parse-Ends g.byte_sized vs c ready.calm
  step-Ends (token t) b s f enough c ready = token_parse-Ends c ready.calm g.byte_sized t s
  step-Ends (matcher fn) b s f enough c ready = matcher_parse-Ends c ready.calm fn
  step-Ends empty b s f enough c ready = ready.calm
  step-Ends (sequence es) b s f enough c ready =
      sequence_parse-Ends g b p safe (run_skipper (nonterminal_parse g p))
        (run_skipper-SkipSafe g _ (nonterminal_parse-RuleSafe g p closed safe))
        (skips b (omega arith)) es s (all es b s f (omega arith)) c ready
  step-Ends (alternation es) b s f enough c ready =
      alternation_parse-Ends g b p safe es s (all es b s f (omega arith)) c ready
  step-Ends (zero_or_more e) b s f enough c ready =
      repeat_parse_impl-Ends g b (p e) (within e b s f (omega arith)) (safe e s)
        (run_skipper (nonterminal_parse g p))
        (run_skipper-SkipSafe g _ (nonterminal_parse-RuleSafe g p closed safe))
        (skips b (omega arith)) 0 (negsuc 0) c ready
  step-Ends (one_or_more e) b s f enough c ready =
      repeat_parse_impl-Ends g b (p e) (within e b s f (omega arith)) (safe e s)
        (run_skipper (nonterminal_parse g p))
        (run_skipper-SkipSafe g _ (nonterminal_parse-RuleSafe g p closed safe))
        (skips b (omega arith)) 1 (negsuc 0) c ready
  step-Ends (n_times e n) b s f enough c ready =
      repeat_parse_impl-Ends g b (p e) (within e b s f (omega arith)) (safe e s)
        (run_skipper (nonterminal_parse g p))
        (run_skipper-SkipSafe g _ (nonterminal_parse-RuleSafe g p closed safe))
        (skips b (omega arith)) n (int64_of_size n) c ready
  step-Ends (optional e) b s f enough c ready =
      repeat_parse_impl-Ends g b (p e) (within e b s f (omega arith)) (safe e s)
        (run_skipper (nonterminal_parse g p))
        (run_skipper-SkipSafe g _ (nonterminal_parse-RuleSafe g p closed safe))
        (skips b (omega arith)) 0 (pos 1) c ready
  step-Ends (not_expr e) b s f enough c ready =
      predicate_parse_impl-Ends g b (p e) (within e b s f (omega arith)) true c ready
  step-Ends (and_expr e) b s f enough c ready =
      predicate_parse_impl-Ends g b (p e) (within e b s f (omega arith)) false c ready
  step-Ends cut_expr b s f enough c ready = absurd f
  step-Ends (lexeme e) b s f enough c ready =
      lexeme_parse-Ends g b (p e) (within e b s f (omega arith)) c ready
  step-Ends (rule id name) b s f enough c ready = rules b (omega arith) id s c ready

module _ (g : Grammar) (tallest : ℕ) (closed : IsClosed g) (free : IsCutFreeUpTo tallest g) where
  parse-Ends : (depth : ℕ) → EndsWithin g tallest depth (parse depth g)
  unfolding parse
  parse-Ends zero e b s f enough = absurd (omega arith)
  parse-Ends (suc depth) e b s f enough =
      step-Ends g tallest closed free depth (parse depth g) (parse-ExprSafe g closed depth)
        (parse-Ends depth) e b s f enough

  pub bodies_end : (depth b : ℕ) → b * suc tallest ≤ depth → BodiesEnd g tallest b (parse depth g)
  bodies_end depth b enough =
      bodies g tallest closed free depth (parse depth g) (parse-ExprSafe g closed depth)
        (parse-Ends depth) b enough

module _ (g : Grammar) (t : List ℕ) where
  -- The context at the boundary, with the grammar's skipper.
  abbrev pub begun : Context
  begun = internal_set_skipper g.m_skipper (from_range t)

  begun-IsReady : HasSkipper g g.m_skipper → IsReady g (room g begun) begun
  unfolding from_range
  begun-IsReady h =
      let valid = from_range-IsValid g t in
      record {
        valid = assumption (h, valid);
        calm = record { framed = tt; uncut = tt };
        room_left = refl;
      }

  begun-room : room g begun ≤ suc (length t) * length g.non_terminals
  unfolding from_range
  begun-room = room-le g begun

-- The call of a rule behind the skipper, its exception not yet caught.
abbrev pub uncaught : ℕ → Grammar → ℕ → Parser ParseResult
uncaught depth g id =
    run_skipper (nonterminal_parse g (parse depth g)) >> nonterminal_parse g (parse depth g) id

caught-Ends :
    {A B : Type 0} (on_error : B) (read : ParseResult → B) (o : Outcome A)
    (k : A → Parser ParseResult)
    → Ends (after o k)
    → Ends (after o (λ a d. caught on_error read (k a d)))
caught-Ends on_error read (ok a d) k h =
    elim (k a d) as (λ o. Ends o → Ends (caught on_error read o)) [
      | ok r z ↦ λ e. e
      | throw x z ↦ λ e. absurd e
      | fault ↦ λ e. e
      | diverged ↦ λ e. e
      | too_deep ↦ λ e. e
    ]
      h
caught-Ends on_error read (throw e d) k h = absurd h
caught-Ends on_error read fault k h = h
caught-Ends on_error read diverged k h = h
caught-Ends on_error read too_deep k h = h

pub uncaught-Ends :
    (g : Grammar) (tallest depth id : ℕ) (t : List ℕ)
    → IsClosed g
    → IsCutFreeUpTo tallest g
    → HasSkipper g g.m_skipper
    → IsDefined g id
    → suc (length t) * length g.non_terminals * suc tallest ≤ depth
    → Ends (uncaught depth g id (begun g t))
uncaught-Ends g tallest depth id t closed free skips defined enough =
    let c = begun g t in
    let b = room g c in
    let p = nonterminal_parse g (parse depth g) in
    let safe =
      nonterminal_parse-RuleSafe g (parse depth g) closed (parse-ExprSafe g closed depth) in
    let fits : b * suc tallest ≤ depth = omega (
      arith,
      enough,
      mul_mono b (suc (length t) * length g.non_terminals) (suc tallest) (begun-room g t),
    ) in
    let ends =
      rules g tallest closed free depth (parse depth g) (parse-ExprSafe g closed depth)
        (parse-Ends g tallest closed free depth) b fits in
    let ready = begun-IsReady g t skips in
    Ends-bind g b c (λ _ d. c.m_position ≤ d.m_position) (run_skipper p c) _ refl
      (run_skipper-SkipSafe g p safe c ready.valid) (run_skipper-Ends g b p ends c ready)
      λ _ d ready' k f. ends id defined d ready'

-- The entry returns, with an answer.
abbrev pub Returns : Call Bool → Type 0
Returns call = (matched : Bool) × (d : Context) × (call ≡ outcome (ok matched d))

answered :
    (g : Grammar) (c : Context) (o : Outcome Bool)
    → Answers g c (outcome o)
    → Ends o
    → Returns (outcome o)
answered g c (ok b d) a e = (b, d, refl)
answered g c (throw x d) a e = absurd e
answered g c fault a e = absurd a
answered g c diverged a e = absurd a
answered g c too_deep a e = absurd e

-- If the grammar is closed (every assigned body refers to assigned rules only, its ranges have
-- min <= max and its matchers stay inside the input), its skipper, if there is one, is assigned,
-- no assigned body has a cut or nests deeper than `tallest` and the name is in the table at an
-- assigned rule, then Grammar::parse(rule, ctx) on a fresh context over any input returns an
-- answer within (elements + 1) * rules * (tallest + 1) nested calls: left recursion included, the
-- parse ends, throws nothing and fails none of the assertions on ranges (min <= max), on reset,
-- on lr_pop and on rules without a body.
pub parse_rule-Returns :
    (g : Grammar) (tallest depth : ℕ) (name : Bytes) (id : ℕ) (t : List ℕ)
    → IsClosed g
    → IsCutFreeUpTo tallest g
    → HasSkipper g g.m_skipper
    → find_rule g.m_rules name ≡ some id
    → IsDefined g id
    → suc (length t) * length g.non_terminals * suc tallest ≤ depth
    → Returns (parse_rule depth g name (from_range t))
unfolding parse_rule run_rule
parse_rule-Returns g tallest depth name id t closed free skips named defined enough =
    let answers =
      parse_rule-Answers g depth name id (from_range t) closed skips named defined
        (from_range-IsValid g t) in
    rw named (
      answered g (from_range t) _ (rw named at answers) (
        caught-Ends false (λ r. r.success)
          (run_skipper (nonterminal_parse g (parse depth g)) (begun g t)) _
          (uncaught-Ends g tallest depth id t closed free skips defined enough)))
