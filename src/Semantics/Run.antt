-- ===== src/Semantics/Run.antt =====
-- `parse`, in a grammar without left recursion, answers as the semantics says.
use peglib.Prelude.{
  ℕ, zero, suc, ◌^◌, ◌<◌, ◌≡◌, refl, Bool, true, false, List, [], none, some, lt→ltb, pos, negsuc,
  subst, arith,
}
use peglib.Context.{ParseResult}
use peglib.Expr.{
  Expr, terminal, terminal_seq, token, matcher, empty, sequence, alternation, zero_or_more,
  one_or_more, n_times, optional, not_expr, and_expr, cut_expr, lexeme, rule, Grammar,
  int64_of_size,
}
use peglib.Engine.{Parser}
use peglib.Engine.Combinators.{reached, cut_parse}
use peglib.Engine.Rules.{nonterminal_parse}
use peglib.Engine.Run.{step, parse}
use peglib.Semantics.{
  Matches, nothing, committed, many, once_or_more, counted, perhaps, is_full, at_least,
}
use peglib.Semantics.Plan.{Plan, IsOrdered}
use peglib.Semantics.State.{Answer, Returns-map, ExprsTell}
use peglib.Semantics.Clear.{Matches-renamed}
use peglib.Semantics.Terminals.{
  terminal_parse-Tells, token_parse-Tells, terminal_seq_parse-Tells, matcher_parse-Tells,
}
use peglib.Semantics.Choices.{alternation_parse-Tells, not-Tells, and-Tells, lexeme_parse-Tells}
use peglib.Semantics.Sequences.{sequence_parse-Tells}
use peglib.Semantics.Repeat.{repeat_parse_impl-Tells}
use peglib.Semantics.Rules.{nonterminal_parse-RulesTell}

at_least_zero : (count j : ℕ) → some j ≡ at_least 0 count j
at_least_zero count j = ground arith

reached-suc : (n count : ℕ) → 0 < n → reached (pos n) count ≡ is_full (some n) count
reached-suc zero count h = absurd (omega arith)
reached-suc (suc n) count h = refl

-- A count that fits a signed word is the limit.
reached-int64_of_size :
    (n : ℕ)
    → 0 < n
    → n < 2 ^ 63
    → (count : ℕ) → reached (int64_of_size n) count ≡ is_full (some n) count
reached-int64_of_size n some_ fits count = rw (lt→ltb n (2 ^ 63) fits) (reached-suc n count some_)

module _ (g : Grammar) (w : Plan) (t : List ℕ) (ordered : IsOrdered g w) where
  pub as_handle :
      (id : ℕ) (name : List ℕ) (b : Bool) (start : ℕ) (s : Bool) (j : ℕ)
      → Answer g w t b (rule id []) start s j
      → Answer g w t b (rule id name) start s j
  as_handle id name b start true j (m, le, lt) = (Matches-renamed [] name m, le, lt)
  as_handle id name b start false j (m, same) = (Matches-renamed [] name m, same)

  step-ExprsTell : (p : Expr → Parser ParseResult) → ExprsTell g w t p → ExprsTell g w t (step g p)
  unfolding step cut_parse
  step-ExprsTell p tells (terminal v) b k fs c under clear h =
      terminal_parse-Tells g w t b fs c h g.byte_sized v
  step-ExprsTell p tells (terminal_seq vs) b k fs c under clear h =
      terminal_seq_parse-Tells g w t b fs g.byte_sized vs c h
  step-ExprsTell p tells (token v) b k fs c under clear h =
      token_parse-Tells g w t b fs c h g.byte_sized v
  step-ExprsTell p tells (matcher fn) b k fs c (inside, reads) clear h =
      matcher_parse-Tells g w t b fs c h fn inside reads
  step-ExprsTell p tells empty b k fs c under clear h = (h, (nothing, omega arith, λ a. cc))
  step-ExprsTell p tells cut_expr b k fs c under clear h = (h, (committed, omega arith, λ a. cc))
  step-ExprsTell p tells (sequence es) b k fs c under clear h =
      sequence_parse-Tells g w t p tells ordered.skipper (nonterminal_parse g p)
        (nonterminal_parse-RulesTell g w t ordered p tells) es k b fs c under clear h
  step-ExprsTell p tells (alternation es) b k fs c under clear h =
      alternation_parse-Tells g w t p tells es k b fs c under clear h
  step-ExprsTell p tells (not_expr e) b k fs c under clear h =
      not-Tells g w t p tells e k b fs c under clear h
  step-ExprsTell p tells (and_expr e) b k fs c under clear h =
      and-Tells g w t p tells e k b fs c under clear h
  step-ExprsTell p tells (lexeme e) b k fs c under clear h =
      lexeme_parse-Tells g w t p tells e k b fs c under clear h
  step-ExprsTell p tells (zero_or_more e) b k fs c under clear h =
      repeat_parse_impl-Tells g w t p tells ordered.skipper (nonterminal_parse g p)
        (nonterminal_parse-RulesTell g w t ordered p tells) none (negsuc 0) (λ n. refl) e k b under
        fs (zero_or_more e) 0
        (λ i count j reps.
          subst (Matches g t b (zero_or_more e) i) (at_least_zero count j) (many reps))
        (λ a. cc) c clear h
  step-ExprsTell p tells (one_or_more e) b k fs c under clear h =
      repeat_parse_impl-Tells g w t p tells ordered.skipper (nonterminal_parse g p)
        (nonterminal_parse-RulesTell g w t ordered p tells) none (negsuc 0) (λ n. refl) e k b under
        fs (one_or_more e) 1 (λ i count j reps. once_or_more reps refl) (λ a. (a, omega arith)) c
        clear h
  step-ExprsTell p tells (n_times e n) b k fs c (some_, fits, under) clear h =
      repeat_parse_impl-Tells g w t p tells ordered.skipper (nonterminal_parse g p)
        (nonterminal_parse-RulesTell g w t ordered p tells) (some n) (int64_of_size n)
        (reached-int64_of_size n some_ fits) e k b under fs (n_times e n) n
        (λ i count j reps. counted reps refl) (λ a. (a, some_)) c clear h
  step-ExprsTell p tells (optional e) b k fs c under clear h =
      repeat_parse_impl-Tells g w t p tells ordered.skipper (nonterminal_parse g p)
        (nonterminal_parse-RulesTell g w t ordered p tells) (some 1) (pos 1) (λ n. refl) e k b under
        fs (optional e) 0
        (λ i count j reps.
          subst (Matches g t b (optional e) i) (at_least_zero count j) (perhaps reps))
        (λ a. cc) c clear h
  step-ExprsTell p tells (rule id name) b k fs c (below, mode) clear h = rw (← mode) (
      Returns-map _ _ (nonterminal_parse g p id c)
        (nonterminal_parse-RulesTell g w t ordered p tells id k fs c below clear (rw mode h))
        λ r d (h', ans). (h', as_handle id name (w.skips id) c.m_position r.success _ ans))

  pub parse-ExprsTell : (depth : ℕ) → ExprsTell g w t (parse depth g)
  unfolding parse
  parse-ExprsTell zero e b k fs c under clear h = tt
  parse-ExprsTell (suc depth) e b k fs c under clear h =
      step-ExprsTell (parse depth g) (parse-ExprsTell depth) e b k fs c under clear h
