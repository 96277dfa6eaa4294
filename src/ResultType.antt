-- ===== src/ResultType.antt =====
-- include/peglib/ResultType.h, its computation of types: the result type of an expression, and the
-- list of arguments that a rule's action takes.
use peglib.Prelude.{ℕ, Bool, true, false, Option, none, some, ◌&&◌, ◌==◌, if◌then◌else◌}
use peglib.Expr.{
  Expr, Exprs, nil, cons, terminal, terminal_seq, token, matcher, empty, sequence, alternation,
  zero_or_more, one_or_more, n_times, optional, not_expr, and_expr, cut_expr, lexeme, rule,
}

-- The C++ types that occur as results. `other` is a type of the user's, by a number.
mutual
  pub data Ty : Type 0 where
    void : Ty
    other : ℕ → Ty
    vector optional_of : Ty → Ty
    tuple : TypeList → Ty

  pub data TypeList : Type 0 where
    stop : TypeList
    ◌▸◌ : Ty → TypeList → TypeList

infixr 5 ◌▸◌
-- `std::is_same_v`
unfoldable mutual
  pub is_same : Ty → Ty → Bool
  is_same void void = true
  is_same (other n) (other m) = n == m
  is_same (vector s) (vector t) = is_same s t
  is_same (optional_of s) (optional_of t) = is_same s t
  is_same (tuple ss) (tuple ts) = are_same ss ts
  is_same _ _ = false

  pub are_same : TypeList → TypeList → Bool
  are_same stop stop = true
  are_same (s ▸ ss) (t ▸ ts) = is_same s t && are_same ss ts
  are_same _ _ = false

unfoldable pub filter_void : TypeList → TypeList
filter_void stop = stop
filter_void (void ▸ ts) = filter_void ts
filter_void (t ▸ ts) = t ▸ filter_void ts

unfoldable pub collapse : TypeList → Ty
collapse stop = void
collapse (t ▸ stop) = t
collapse (s ▸ (t ▸ ts)) = tuple (s ▸ (t ▸ ts))

unfoldable pub all_same : TypeList → Bool
unfolding is_same
all_same stop = true
all_same (t ▸ stop) = true
all_same (s ▸ (t ▸ ts)) = is_same s t && all_same (t ▸ ts)

-- An empty list has no head: the type is ill-formed.
abbrev pub head : TypeList → Option Ty
head stop = none
head (t ▸ ts) = some t

unfoldable pub rep_of : Ty → Ty
rep_of void = void
rep_of t = vector t

unfoldable pub opt_of : Ty → Ty
opt_of void = void
opt_of t = optional_of t

-- The two types that the context's template parameters fix: an element of the input and the node of
-- the user's syntax tree. Neither is a std::tuple, a std::vector or a std::optional.
pub record ContextTypes : Type 0 where
  pub value_type : ℕ
  pub node_type : ℕ

abbrev pub lift : (Ty → Ty) → Option Ty → Option Ty
lift f none = none
lift f (some t) = some (f t)

abbrev pub push : Option Ty → Option TypeList → Option TypeList
push (some t) (some ts) = some (t ▸ ts)
push _ _ = none

abbrev pub seq_of : Option TypeList → Option Ty
seq_of none = none
seq_of (some ts) = some (collapse (filter_void ts))

-- The static assertion of `result_of<AlternationExpr>`.
abbrev pub alt_of : Option TypeList → Option Ty
alt_of none = none
alt_of (some ts) = if all_same ts then head ts else none

-- `none` is an expression that does not compile.
unfoldable mutual
  pub result_of : ContextTypes → Expr → Option Ty
  result_of k (terminal v) = some void
  result_of k (terminal_seq vs) = some void
  result_of k (token v) = some (other k.value_type)
  result_of k (matcher fn) = some void
  result_of k empty = some void
  result_of k (sequence es) = seq_of (results_of k es)
  result_of k (alternation es) = alt_of (results_of k es)
  result_of k (zero_or_more e) = lift rep_of (result_of k e)
  result_of k (one_or_more e) = lift rep_of (result_of k e)
  result_of k (n_times e n) = lift rep_of (result_of k e)
  result_of k (optional e) = lift opt_of (result_of k e)
  result_of k (not_expr e) = some void
  result_of k (and_expr e) = some void
  result_of k cut_expr = some void
  result_of k (lexeme e) = result_of k e
  result_of k (rule id name) = some (other k.node_type)

  pub results_of : ContextTypes → Exprs → Option TypeList
  results_of k nil = some stop
  results_of k (cons e es) = push (result_of k e) (results_of k es)

-- The arguments of an action, besides the context and the span.
unfoldable pub flat_args : Ty → TypeList
flat_args void = stop
flat_args (tuple ts) = ts
flat_args t = t ▸ stop
