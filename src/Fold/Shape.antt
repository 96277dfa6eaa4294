-- ===== src/Fold/Shape.antt =====
-- The trees on which the fold of include/peglib/ResultType.h goes through.
pub mod Steps
pub mod Run
use peglib.Prelude.{
  ℕ, zero, suc, ◌+◌, ◌<◌, ◌≡◌, refl, sym, ap, ◌∙◌, subst, Bool, true, false, List, [], ◌∷◌, All,
  Option, none, some, inl, inr, Bool-cases, ◌==◌, if◌then◌else◌, arith, drop, length, get_elem?,
}
use peglib.Context.{Context, ParseTreeNode}
use peglib.Expr.{
  Expr, Exprs, nil, cons, token, sequence, alternation, zero_or_more, one_or_more, n_times,
  optional, lexeme, rule,
}
use peglib.ResultType.{
  Ty, void, TypeList, stop, ContextTypes, all_same, head, rep_of, opt_of, result_of, results_of,
}
use peglib.Fold.{
  Folded, folded, bad_index, undefined, too_nested, Fold, next_with, ◌>>=◌, pure, Value, deref,
  element_at, is_void, child_at, pushes_node, fold_each, fold_rep, fold_present, fold_optional,
  TypedFold, fold_rule, fold_expr, dispatch, fold_seq,
}
use peglib.Fold.Actions.{fold}
use peglib.Fold.Arguments.{fold-HasType}
use peglib.Fold.Types.{HasType, Yields, lift-inv, push-inv, seq_of-inv, alt_of-inv, all_same-inv}

-- The context still holds the nodes and the input of the tree.
pub record Holds (ns : List ParseTreeNode) (xs : List ℕ) (c : Context) : Type 0 where
  pub arena : c.m_node_arena ≡ ns
  pub input : c.m_input ≡ xs

-- The fold returns, with the tree as it was.
abbrev pub Gives : {A : Type 0} → List ParseTreeNode → List ℕ → Folded A → Type 0
Gives ns xs (folded a d) = Holds ns xs d
Gives ns xs bad_index = ⊥
Gives ns xs undefined = ⊥
Gives ns xs too_nested = ⊥

abbrev pub Choose : Bool → Type 0 → Type 0 → Type 0
Choose true A B = A
Choose false A B = B

abbrev pub tail : List (Option ℕ) → List (Option ℕ)
tail [] = []
tail (t ∷ ts) = ts

module _ {N : Type 0} (k : ContextTypes) (folds : ℕ → Option (TypedFold N)) (blank : N)
    (ns : List ParseTreeNode) (xs : List ℕ) where
  -- The pointer is to a node.
  abbrev pub AtNode : Option ℕ → (ParseTreeNode → Type 0) → Type 0
  AtNode none Q = ⊥
  AtNode (some t) Q = (n : ParseTreeNode) × (get_elem? ns t ≡ some n) × Q n

  -- The node of a rule, whose producer's fold returns.
  abbrev pub IsRuleNode : Option ℕ → Type 0
  IsRuleNode tree = (c : Context) → Holds ns xs c → Gives ns xs (fold_rule folds blank tree c)

  abbrev mutual
    -- What the fold of an expression reads of a tree. A child of a sequence without a value has a node
    -- only if it is a matcher.
    pub Shape : Expr → Option ℕ → Type 0
    Shape (token v) tree = AtNode tree (λ n. n.start_offset < length xs)
    Shape (lexeme e) tree = Shape e tree
    Shape (sequence es) tree = AtNode tree (λ n. SeqShape es n.children)
    Shape (alternation es) tree =
        AtNode tree (λ n. (i : ℕ) × (n.alt_winner ≡ some i) × AltShape i es tree)
    Shape (zero_or_more e) tree = AtNode tree (λ n. All (λ t. Shape e t) n.children)
    Shape (one_or_more e) tree = AtNode tree (λ n. All (λ t. Shape e t) n.children)
    Shape (n_times e m) tree = AtNode tree (λ n. All (λ t. Shape e t) n.children)
    Shape (optional e) tree = AtNode tree (λ n. All (λ t. Shape e t) n.children)
    Shape (rule id name) tree = IsRuleNode tree
    Shape _ tree = Unit

    pub SeqShape : Exprs → List (Option ℕ) → Type 0
    SeqShape nil ts = Unit
    SeqShape (cons e es) ts =
        Choose (is_void (result_of k e)) (SeqShape es (if pushes_node e then tail ts else ts))
          ((t : Option ℕ) × (get_elem? ts 0 ≡ some t) × Shape e t × SeqShape es (tail ts))

    pub AltShape : ℕ → Exprs → Option ℕ → Type 0
    AltShape i nil tree = ⊥
    AltShape zero (cons e es) tree = Shape e tree
    AltShape (suc i) (cons e es) tree = AltShape i es tree
