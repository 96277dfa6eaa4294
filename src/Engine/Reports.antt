-- ===== src/Engine/Reports.antt =====
-- The error that a failed rule of include/peglib/NonTerminal.h leaves to report.
use peglib.Prelude.{
  length, suc, ℕ, ◌≤◌, ◌≡◌, refl, subst, Bool, true, false, Option, none, some, arith, not, ◌||◌,
  ltb, ◌==◌, inl, inr, Bool-cases, get_elem?,
}
use peglib.ParseError.{ExpectedItem}
use peglib.Context.{
  Context, ParseResult, failed, RuleState, default_rule_state, put_entry, is_some, get_cut,
  rule_state, update_rule_state, record_failure,
}
use peglib.Expr.{Expr, NonTerminal, Grammar}
use peglib.Engine.{
  reset, Outcome, ok, throw, fault, diverged, too_deep, Parser, after, ◌>>◌, pure, method,
}
use peglib.Engine.Rules.{
  resume_at, Grown, is_empty, record_rule_failure, recover, recover_or, give_up, fail_rule,
  finish_rule, build_node, first_parse, parse_body, nonterminal_parse, leave_frame, parse_impl,
}

-- An error is recorded, at the position or further on.
abbrev pub Reports : ℕ → Context → Type 0
Reports pos c = (c.m_has_error ≡ true) × (pos ≤ c.m_furthest_failure_pos)

record_failure-Reports :
    (pos : ℕ) (item : ExpectedItem) (c : Context) → Reports pos (record_failure pos item c)
unfolding record_failure
record_failure-Reports pos item c =
    elim (Bool-cases (not c.m_has_error || ltb c.m_furthest_failure_pos pos)) [
      | inl p ↦ rw p (refl, omega arith)
      | inr p ↦
          let has : c.m_has_error ≡ true = ground arith in
          let further : pos ≤ c.m_furthest_failure_pos = ground arith in
          rw p (elim (Bool-cases (pos == c.m_furthest_failure_pos)) [
            | inl q ↦ rw q (has, further)
            | inr q ↦ rw q (has, further)
          ])
    ]

record_rule_failure-Reports :
    (nt : NonTerminal) (pos : ℕ) (c : Context)
    → is_empty nt.m_name ≡ false
    → Reports pos (record_rule_failure nt pos c)
unfolding record_rule_failure
record_rule_failure-Reports nt pos c named = elim (Bool-cases (is_empty nt.m_label)) [
  | inl p ↦ rw (p, named) (record_failure-Reports pos _ c)
  | inr p ↦ rw p (record_failure-Reports pos _ c)
]

update_rule_state-Reports :
    (pos rule start : ℕ) (s : RuleState) (c : Context)
    → Reports pos c
    → Reports pos (update_rule_state rule start s c).0
unfolding update_rule_state
update_rule_state-Reports pos rule start s c h = elim (Bool-cases (is_some (c.m_mem start rule))) [
  | inl p ↦ rw p h
  | inr p ↦ rw p h
]

-- A returned failure is reported.
abbrev Told : ℕ → Outcome ParseResult → Type 0
Told pos (ok r d) = r.success ≡ false → Reports pos d
Told pos _ = Unit

Told-after :
    {A : Type 0} (pos : ℕ) (o : Outcome A) (f : A → Parser ParseResult)
    → ((a : A) (d : Context) → Told pos (f a d))
    → Told pos (after o f)
Told-after pos (ok a d) f h = h a d
Told-after pos (throw e d) f h = tt
Told-after pos fault f h = tt
Told-after pos diverged f h = tt
Told-after pos too_deep f h = tt

Told-recover_or :
    (pos : ℕ) (spec : Option (ℕ → Bool)) (committed : Bool)
    (recovered : (ℕ → Bool) → Parser ParseResult) (otherwise : Parser ParseResult) (c : Context)
    → ((f : ℕ → Bool) → Told pos (recovered f c))
    → Told pos (otherwise c)
    → Told pos (recover_or spec committed recovered otherwise c)
Told-recover_or pos none committed recovered otherwise c h k = k
Told-recover_or pos (some f) true recovered otherwise c h k = k
Told-recover_or pos (some f) false recovered otherwise c h k = h f

fail_rule-Told :
    (nt : NonTerminal) (rule pos : ℕ) (state : RuleState) (c : Context)
    → is_empty nt.m_name ≡ false
    → Told pos (fail_rule nt rule pos state c)
unfolding fail_rule recover
fail_rule-Told nt rule pos state c named =
    let d = record_rule_failure nt pos c in
    Told-recover_or pos nt.m_recover.is_sync_token (get_cut d) (λ f. recover nt f rule pos)
      (give_up rule pos state) d
      (λ f. Told-after pos (reset (resume_at f pos d) d) _ (λ _ z e. absurd cc))
      (λ e.
        update_rule_state-Reports pos rule pos (record state { m_cached_result = failed }) d
          (record_rule_failure-Reports nt pos c named))

finish_rule-Told :
    (nt : NonTerminal) (rule pos : ℕ) (inner : Grown) (c : Context)
    → Told pos (finish_rule nt rule pos inner c)
unfolding finish_rule
finish_rule-Told nt rule pos inner c =
    Told-after pos (build_node nt.has_typed_fold nt rule pos inner.best.tree c)
      (λ node.
        let result : ParseResult = record { success = true; tree = some node } in
        method (update_rule_state rule pos (record inner.state { m_cached_result = result }))
        >> pure result)
      (λ node d e. absurd cc)

first_parse-Told :
    (nt : NonTerminal) (p : Parser ParseResult) (rule pos : ℕ) (c : Context)
    → is_empty nt.m_name ≡ false
    → Told pos (first_parse nt p rule pos c)
unfolding first_parse
first_parse-Told nt p rule pos c named = Told-after pos (parse_impl p rule pos _) _ λ inner d.
    Told-after pos (leave_frame (suc (length c.m_lr_stack)) pos d) _
      λ _ z. branch inner z inner.best.success
  where
    branch :
        (inner : Grown) (d : Context) (b : Bool)
        → Told pos (
            (elim b as (λ _. Parser ParseResult) [
              | true ↦ finish_rule nt rule pos inner
              | false ↦ fail_rule nt rule pos inner.state
            ])
              d)
    branch inner d true = finish_rule-Told nt rule pos inner d
    branch inner d false = fail_rule-Told nt rule pos inner.state d named

-- If a rule with a name is parsed for the first time at a position (there is no memo entry for
-- it) and the call returns a failure, an error is recorded, at that position or further on.
pub nonterminal_parse-Reports :
    (g : Grammar) (p : Expr → Parser ParseResult) (rule : ℕ) (nt : NonTerminal) (c d : Context)
    (r : ParseResult)
    → get_elem? g.non_terminals rule ≡ some nt
    → is_empty nt.m_name ≡ false
    → c.m_mem c.m_position rule ≡ none
    → nonterminal_parse g p rule c ≡ ok r d
    → r.success ≡ false
    → (d.m_has_error ≡ true) × (c.m_position ≤ d.m_furthest_failure_pos)
unfolding nonterminal_parse rule_state
nonterminal_parse-Reports g p rule nt c d r found named fresh e f =
    let entered : Context = record c {
      m_mem = put_entry c.m_position rule default_rule_state c.m_mem;
    } in
    let first : first_parse nt (parse_body p nt.m_rule) rule c.m_position entered ≡ ok r d =
      rw (found, fresh) at e in
    subst (Told c.m_position) first
      (first_parse-Told nt (parse_body p nt.m_rule) rule c.m_position entered named) f
