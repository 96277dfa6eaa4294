-- ===== src/Semantics/Clear.antt =====
-- Which rules run at a position: how that changes as a call gets further, and the skipper.
use peglib.Prelude.{
  ℕ, zero, suc, ◌≤◌, ◌<◌, ◌≡◌, refl, Bool, true, false, List, [], ◌∷◌, Option, none, some, ◌&&◌,
  if◌then◌else◌, arith,
}
use peglib.ParseError.{Bytes}
use peglib.Context.{Context, ParseResult, LrFrame, set_skip_enabled}
use peglib.Expr.{Expr, rule, Grammar}
use peglib.Engine.{Parser}
use peglib.Engine.Combinators.{run_with_skipper, run_skipper, skip_between}
use peglib.Semantics.{Matches, called, End, end_or, begun, Skips, off, no_skipper, skipper}
use peglib.Semantics.Plan.{Plan, SkipperBelow, IsClear}
use peglib.Semantics.State.{Answer, State, Tells, Returns-bind, RulesTell}

module _ (w : Plan) where
  pub IsClear-forward :
      (k : ℕ) (fs : List LrFrame) (i j : ℕ) → i ≤ j → IsClear w k fs i → IsClear w k fs j
  IsClear-forward k [] i j le h = tt
  IsClear-forward k (f ∷ fs) i j le ((at, above), h) =
      ((omega arith, λ e. above (omega arith)), IsClear-forward k fs i j le h)

  -- Once something has been consumed, every rule may be called.
  pub IsClear-past :
      (k top : ℕ) (fs : List LrFrame) (i j : ℕ) → i < j → IsClear w k fs i → IsClear w top fs j
  IsClear-past k top [] i j lt h = tt
  IsClear-past k top (f ∷ fs) i j lt ((at, above), h) =
      ((omega arith, λ e. absurd (omega arith)), IsClear-past k top fs i j lt h)

  pub IsClear-after :
      (consuming : Bool) (k top : ℕ) (fs : List LrFrame) (i j : ℕ)
      → i ≤ j
      → (consuming ≡ true → i < j)
      → IsClear w k fs i
      → IsClear w (if consuming then top else k) fs j
  IsClear-after true k top fs i j le lt h = IsClear-past k top fs i j (lt refl) h
  IsClear-after false k top fs i j le lt h = IsClear-forward k fs i j le h

  -- The bound for a rule that is to be called.
  pub IsClear-below :
      (k m : ℕ) (fs : List LrFrame) (i : ℕ) → m ≤ k → IsClear w k fs i → IsClear w m fs i
  IsClear-below k m [] i le h = tt
  IsClear-below k m (f ∷ fs) i le ((at, above), h) =
      ((at, λ e. omega (arith, above e)), IsClear-below k m fs i le h)

-- The name in a handle does not matter.
pub Matches-renamed :
    {g : Grammar} {t : List ℕ} {b : Bool} {id i : ℕ} {o : End} (name name' : Bytes)
    → Matches g t b (rule id name) i o
    → Matches g t b (rule id name') i o
Matches-renamed name name' (called found body m) = called found body m

-- An answer as the end that it stands for.
pub Answer-end :
    {g : Grammar} (w : Plan) {t : List ℕ} {b : Bool} {e : Expr} {i j : ℕ} (s : Bool)
    → Answer g w t b e i s j
    → (o : End) × Matches g t b e i o × (j ≡ end_or i o) × (i ≤ j)
Answer-end w true (m, le, lt) = (some _, m, refl, le)
Answer-end w false (m, same) = (none, m, same, omega arith)

-- The skipper, if there is one, may be called at the position.
abbrev pub MaySkip : Grammar → Plan → Bool → List LrFrame → ℕ → Type 0
MaySkip g w false fs i = Unit
MaySkip g w true fs i = (s : ℕ) → g.m_skipper ≡ some s → (k : ℕ) × (w.rank s < k) × IsClear w k fs i

module _ (g : Grammar) (w : Plan) where
  pub MaySkip-of_below :
      (b : Bool) (k : ℕ) (fs : List LrFrame) (i : ℕ)
      → SkipperBelow g w b k
      → IsClear w k fs i
      → MaySkip g w b fs i
  MaySkip-of_below false k fs i below clear = tt
  MaySkip-of_below true k fs i below clear = λ s e. (k, below s e, clear)

  pub MaySkip-past :
      (b : Bool) (k : ℕ) (fs : List LrFrame) (i j : ℕ)
      → i < j
      → IsClear w k fs i
      → MaySkip g w b fs j
  MaySkip-past false k fs i j lt clear = tt
  MaySkip-past true k fs i j lt clear =
      λ s e. (suc (w.rank s), omega arith, IsClear-past w k (suc (w.rank s)) fs i j lt clear)

abbrev pub SkipAnswer : Grammar → List ℕ → Bool → ℕ → ℕ → Type 0
SkipAnswer g t b i j = Skips g t b i j × (i ≤ j)

module _ (g : Grammar) (w : Plan) (t : List ℕ)
    (unskipped : (s : ℕ) → g.m_skipper ≡ some s → w.skips s ≡ false) (r : ℕ → Parser ParseResult)
    (tells : RulesTell g w t r) (fs : List LrFrame) where
  run_with_skipper-Tells :
      (o : Option ℕ) (b : Bool) (c : Context)
      → g.m_skipper ≡ o
      → MaySkip g w b fs c.m_position
      → State g w t b fs c
      → Tells g w t b fs (λ _ j. SkipAnswer g t b c.m_position j) (run_with_skipper o b r c)
  run_with_skipper-Tells none false c is may h = (h, (off, omega arith))
  run_with_skipper-Tells (some s) false c is may h = (h, (off, omega arith))
  run_with_skipper-Tells none true c is may h = (h, (no_skipper is, omega arith))
  run_with_skipper-Tells (some s) true c is may h =
      let (k, below, clear) = may s is in
      let quiet = unskipped s is in
      let inner : State g w t (w.skips s) fs (set_skip_enabled false c) = rw quiet (record {
        input_is = h.input_is;
        enabled_is = refl;
        skipper_is = h.skipper_is;
        frames_are = h.frames_are;
        no_heads = h.no_heads;
        memo = h.memo;
      }) in
      Returns-bind _ _ (r s (set_skip_enabled false c)) _
        (tells s k fs (set_skip_enabled false c) below clear inner)
        λ result d (kept, answer).
          let (o, m, ends, le) = Answer-end w result.success answer in
          let m' : Matches g t false (rule s []) c.m_position o = rw quiet at m in
          (
            record {
              input_is = kept.input_is;
              enabled_is = refl;
              skipper_is = kept.skipper_is;
              frames_are = kept.frames_are;
              no_heads = kept.no_heads;
              memo = kept.memo;
            },
            (skipper is m' ends, le),
          )

  pub run_skipper-Tells :
      (b : Bool) (c : Context)
      → MaySkip g w b fs c.m_position
      → State g w t b fs c
      → Tells g w t b fs (λ _ j. SkipAnswer g t b c.m_position j) (run_skipper r c)
  unfolding run_skipper
  run_skipper-Tells b c may h =
      simp (h.enabled_is, h.skipper_is) (run_with_skipper-Tells g.m_skipper b c refl may h)

  pub skip_between-Tells :
      (index : ℕ) (b : Bool) (c : Context)
      → MaySkip g w (begun index && b) fs c.m_position
      → State g w t b fs c
      → Tells g w t b fs
          (λ _ j. SkipAnswer g t (begun index && b) c.m_position j)
          (skip_between index (run_skipper r) c)
  skip_between-Tells zero b c may h = (h, (off, omega arith))
  skip_between-Tells (suc i) b c may h = run_skipper-Tells b c may h
