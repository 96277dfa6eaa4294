-- ===== src/Termination/Calm.antt =====
-- The context's operations on a calm context, and the rules for calls one after the other.
use peglib.Prelude.{
  ℕ, ◌≡◌, refl, subst, ◌∙◌, true, false, List, [], ◌∷◌, All, none, inl, inr, Bool-cases, not, ◌&&◌,
  ◌||◌, ◌==◌, ltb, if◌then◌else◌, arith,
}
use peglib.ParseError.{ExpectedItem}
use peglib.Context.{
  Context, input_size, RuleState, LrFrame, CutRecord, MemoTable, is_some, put_entry, in_progress,
  next, update_rule_state, set_top, set_cut, init_cut, pop_cut, remove_cut, record_failure,
  clear_siblings_at,
}
use peglib.Expr.{Grammar}
use peglib.Engine.{Outcome, ok, throw, fault, diverged, too_deep, Parser, after, cleaned}
use peglib.Invariant.{Keeps, Safe}
use peglib.Termination.{IsCalm, IsReady, Ends, room}
use peglib.Termination.Room.{room-Keeps}

-- The operation leaves the memo table, the frames and the cut stack alone.
pub record Untouched (c d : Context) : Type 0 where
  pub mem : d.m_mem ≡ c.m_mem
  pub frames : d.m_lr_stack ≡ c.m_lr_stack
  pub cuts : d.m_cut ≡ c.m_cut

pub Untouched-refl : (c : Context) → Untouched c c
Untouched-refl c = record { mem = refl; frames = refl; cuts = refl }

pub IsCalm-Untouched : (c d : Context) → Untouched c d → IsCalm c → IsCalm d
IsCalm-Untouched c d u calm = record {
  framed = rw (u.mem, u.frames) calm.framed;
  uncut = rw (u.cuts) calm.uncut;
}

pub next-Untouched : (c : Context) → Untouched c (next c)
unfolding next
next-Untouched c = elim (Bool-cases (ltb c.m_position (input_size c))) [
  | inl h ↦ rw h (record { mem = refl; frames = refl; cuts = refl })
  | inr h ↦ rw h (Untouched-refl c)
]

pub record_failure-Untouched :
    (pos : ℕ) (item : ExpectedItem) (c : Context) → Untouched c (record_failure pos item c)
unfolding record_failure
record_failure-Untouched pos item c =
    elim (Bool-cases (not c.m_has_error || ltb c.m_furthest_failure_pos pos)) [
      | inl p ↦ rw p (record { mem = refl; frames = refl; cuts = refl })
      | inr p ↦ rw p (elim (Bool-cases (pos == c.m_furthest_failure_pos)) [
        | inl q ↦ rw q (record { mem = refl; frames = refl; cuts = refl })
        | inr q ↦ rw q (Untouched-refl c)
      ])
    ]

abbrev IsFramed : MemoTable → List LrFrame → Type 0
IsFramed mem frames = All (λ f. is_some (mem f.pos f.rule) ≡ true) frames

put_entry-IsFramed :
    (pos id : ℕ) (s : RuleState) (mem : MemoTable) (fs : List LrFrame)
    → IsFramed mem fs
    → IsFramed (put_entry pos id s mem) fs
put_entry-IsFramed pos id s mem [] h = tt
put_entry-IsFramed pos id s mem (f ∷ fs) (a, h) =
    (ground arith, put_entry-IsFramed pos id s mem fs h)

-- Writing an entry.
pub put-IsCalm :
    (pos id : ℕ) (s : RuleState) (c : Context)
    → IsCalm c
    → IsCalm (record c { m_mem = put_entry pos id s c.m_mem })
put-IsCalm pos id s c calm = record {
  framed = put_entry-IsFramed pos id s c.m_mem c.m_lr_stack calm.framed;
  uncut = calm.uncut;
}

pub update_rule_state-IsCalm :
    (id pos : ℕ) (s : RuleState) (c : Context) → IsCalm c → IsCalm (update_rule_state id pos s c).0
unfolding update_rule_state
update_rule_state-IsCalm id pos s c calm = elim (Bool-cases (is_some (c.m_mem pos id))) [
  | inl p ↦ rw p (put-IsCalm pos id s c calm)
  | inr p ↦ rw p calm
]

-- A frame over the others, with its entry.
pub push-IsCalm :
    (f : LrFrame) (c : Context)
    → IsCalm c
    → is_some (c.m_mem f.pos f.rule) ≡ true
    → IsCalm (record c { m_lr_stack = f ∷ c.m_lr_stack })
push-IsCalm f c calm h = record { framed = (h, calm.framed); uncut = calm.uncut }

-- The clearing spares what is running.
cleared-IsFramed :
    (pos keep : ℕ) (mem : MemoTable) (all fs : List LrFrame)
    → IsFramed mem fs
    → All (λ f. in_progress all f.rule f.pos ≡ true) fs
    → IsFramed
        (λ p id.
          if (p == pos) && not ((id == keep) || in_progress all id pos) then none else mem p id)
        fs
cleared-IsFramed pos keep mem all [] h k = tt
cleared-IsFramed pos keep mem all (f ∷ fs) (a, h) (b, k) =
    let at : f.pos ≡ pos → in_progress all f.rule pos ≡ true =
      λ e. subst (λ (p : ℕ). in_progress all f.rule p ≡ true) e b in
    let rest = cleared-IsFramed pos keep mem all fs h k in
    elim (Bool-cases (f.pos == pos)) [
      | inl q ↦
          let here : in_progress all f.rule pos ≡ true = at (ground arith) in
          rw (q, here) (ground arith, rest)
      | inr q ↦ rw q (a, rest)
    ]

in_progress-weaken :
    (f : LrFrame) (all fs : List LrFrame)
    → All (λ h. in_progress all h.rule h.pos ≡ true) fs
    → All (λ h. in_progress (f ∷ all) h.rule h.pos ≡ true) fs
unfolding in_progress
in_progress-weaken f all [] k = tt
in_progress-weaken f all (h ∷ fs) (b, k) = (ground arith, in_progress-weaken f all fs k)

in_progress-All : (fs : List LrFrame) → All (λ f. in_progress fs f.rule f.pos ≡ true) fs
unfolding in_progress
in_progress-All [] = tt
in_progress-All (f ∷ fs) = (ground arith, in_progress-weaken f fs fs (in_progress-All fs))

pub clear_siblings_at-IsCalm :
    (pos keep : ℕ) (c : Context) → IsCalm c → IsCalm (clear_siblings_at pos keep c)
unfolding clear_siblings_at
clear_siblings_at-IsCalm pos keep c calm = record {
  framed =
      cleared-IsFramed pos keep c.m_mem c.m_lr_stack c.m_lr_stack calm.framed
        (in_progress-All c.m_lr_stack);
  uncut = calm.uncut;
}

pub init_cut-IsCalm : (c : Context) → IsCalm c → IsCalm (init_cut c)
init_cut-IsCalm c calm = record { framed = calm.framed; uncut = (refl, calm.uncut) }

set_top-uncut :
    (pos : ℕ) (rs : List CutRecord)
    → All (λ r. r.cut ≡ false) rs
    → All (λ r. r.cut ≡ false) (set_top false pos rs)
set_top-uncut pos [] h = tt
set_top-uncut pos (r ∷ rs) h = (refl, h.1)

pub set_cut-IsCalm : (c : Context) → IsCalm c → IsCalm (set_cut false c)
set_cut-IsCalm c calm = record {
  framed = calm.framed;
  uncut = set_top-uncut c.m_position c.m_cut calm.uncut;
}

pop_cut-IsCalm :
    (rs : List CutRecord) (c : Context)
    → All (λ r. r.cut ≡ false) rs
    → IsCalm c
    → IsCalm (pop_cut rs c)
unfolding pop_cut
pop_cut-IsCalm [] c h calm = calm
pop_cut-IsCalm (r ∷ rs) c (a, h) calm = rw a (record { framed = calm.framed; uncut = h })

pub remove_cut-IsCalm : (c : Context) → IsCalm c → IsCalm (remove_cut c)
remove_cut-IsCalm c calm = pop_cut-IsCalm c.m_cut c calm.uncut calm

module _ {A : Type 0} where
  pub Ends-cleaned :
      (f : Context → Context) (o : Outcome A)
      → ((c : Context) → IsCalm c → IsCalm (f c))
      → Ends o
      → Ends (cleaned f o)
  Ends-cleaned f (ok a c) h e = h c e
  Ends-cleaned f (throw x c) h e = e
  Ends-cleaned f fault h e = e
  Ends-cleaned f diverged h e = e
  Ends-cleaned f too_deep h e = e

module _ {A B : Type 0} where
  -- After a call that may be followed by more calls.
  pub Ends-bind :
      (g : Grammar) (left : ℕ) (c : Context) (Q : A → Context → Type 0) (o : Outcome A)
      (f : A → Parser B)
      → room g c ≡ left
      → Safe g c Q o
      → Ends o
      → ((a : A) (d : Context) → IsReady g left d → Keeps c d → Q a d → Ends (f a d))
      → Ends (after o f)
  Ends-bind g left c Q (ok a d) f r (v, k, q) e h =
      h a d (record { valid = v; calm = e; room_left = room-Keeps g c d k ∙ r }) k q
  Ends-bind g left c Q (throw x d) f r s e h = e
  Ends-bind g left c Q fault f r s e h = e
  Ends-bind g left c Q diverged f r s e h = e
  Ends-bind g left c Q too_deep f r s e h = e

  -- After the last call.
  pub Ends-then :
      (o : Outcome A) (f : A → Parser B)
      → Ends o
      → ((a : A) (d : Context) → IsCalm d → Ends (f a d))
      → Ends (after o f)
  Ends-then (ok a d) f e h = h a d e
  Ends-then (throw x d) f e h = e
  Ends-then fault f e h = e
  Ends-then diverged f e h = e
  Ends-then too_deep f e h = e
