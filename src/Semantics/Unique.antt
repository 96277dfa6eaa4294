-- ===== src/Semantics/Unique.antt =====
-- The semantics gives an expression at most one end.
use peglib.Prelude.{ℕ, ◌≡◌, refl, sym, ap, ◌∙◌, Bool, List, Option, some}
use peglib.Expr.{Expr, Exprs, NonTerminal, Grammar}
use peglib.Semantics.Clear.{Matches-renamed}
use peglib.Semantics.{
  Matches, MatchesSeq, MatchesAlt, Repeats, Skips, End, symbol, symbols, one_token, custom, nothing,
  committed, all_of, one_of, many, once_or_more, counted, perhaps, forbids, requires, unskipped,
  called, end, stop, next, no_more, first, other, fails, last, again, off, no_skipper, skipper,
}

some_inj : {A : Type 0} (x y : A) → some x ≡ some y → x ≡ y
some_inj x y h = cc

module _ (g : Grammar) (t : List ℕ) where
  mutual
    pub Matches-unique :
        {b : Bool} {e : Expr} {i : ℕ} {o o' : End}
        → Matches g t b e i o
        → Matches g t b e i o'
        → o ≡ o'
    Matches-unique (symbol h) (symbol h') = h ∙ sym h'
    Matches-unique (symbols h) (symbols h') = h ∙ sym h'
    Matches-unique (one_token h) (one_token h') = h ∙ sym h'
    Matches-unique (custom h) (custom h') = h ∙ sym h'
    Matches-unique nothing nothing = refl
    Matches-unique committed committed = refl
    Matches-unique (all_of m) (all_of m') = MatchesSeq-unique m m'
    Matches-unique (one_of m) (one_of m') = MatchesAlt-unique m m'
    Matches-unique (many m) (many m') = ap some (Repeats-unique m m').1
    Matches-unique (once_or_more m h) (once_or_more m' h') =
        let (n, j) = Repeats-unique m m' in h ∙ rw (n, j) (sym h')
    Matches-unique (counted m h) (counted m' h') =
        let (n, j) = Repeats-unique m m' in h ∙ rw (n, j) (sym h')
    Matches-unique (perhaps m) (perhaps m') = ap some (Repeats-unique m m').1
    Matches-unique (forbids m h) (forbids m' h') =
        let same = Matches-unique m m' in h ∙ rw same (sym h')
    Matches-unique (requires m h) (requires m' h') =
        let same = Matches-unique m m' in h ∙ rw same (sym h')
    Matches-unique (unskipped m) (unskipped m') = Matches-unique m m'
    Matches-unique (called found body m) (called found' body' m') =
        let nt = some_inj _ _ (sym found ∙ found') in
        let e = some_inj _ _ (sym body ∙ ap (λ (x : NonTerminal). x.m_rule) nt ∙ body') in
        Matches-unique m (rw (← e) at m')

    MatchesSeq-unique :
        {later b : Bool} {es : Exprs} {i : ℕ} {o o' : End}
        → MatchesSeq g t later b es i o
        → MatchesSeq g t later b es i o'
        → o ≡ o'
    MatchesSeq-unique end end = refl
    MatchesSeq-unique (stop s m) (stop s' m') = refl
    MatchesSeq-unique (stop s m) (next s' m' r') =
        let j = Skips-unique s s' in let same = Matches-unique m (rw (← j) at m') in absurd (cc)
    MatchesSeq-unique (next s m r) (stop s' m') =
        let j = Skips-unique s s' in let same = Matches-unique m (rw (← j) at m') in absurd (cc)
    MatchesSeq-unique (next s m r) (next s' m' r') =
        let j = Skips-unique s s' in
        let same = Matches-unique m (rw (← j) at m') in
        let k = some_inj _ _ same in MatchesSeq-unique r (rw (← k) at r')

    MatchesAlt-unique :
        {b : Bool} {es : Exprs} {i : ℕ} {o o' : End}
        → MatchesAlt g t b es i o
        → MatchesAlt g t b es i o'
        → o ≡ o'
    MatchesAlt-unique no_more no_more = refl
    MatchesAlt-unique (first m) (first m') = Matches-unique m m'
    MatchesAlt-unique (first m) (other m' r') = let same = Matches-unique m m' in absurd (cc)
    MatchesAlt-unique (other m r) (first m') = let same = Matches-unique m m' in absurd (cc)
    MatchesAlt-unique (other m r) (other m' r') = MatchesAlt-unique r r'

    Repeats-unique :
        {most : Option ℕ} {b : Bool} {e : Expr} {count i n n' j j' : ℕ}
        → Repeats g t most b e count i n j
        → Repeats g t most b e count i n' j'
        → (n ≡ n') × (j ≡ j')
    Repeats-unique (fails s m) (fails s' m') = (refl, refl)
    Repeats-unique (fails s m) (last s' m' h' n') =
        let j = Skips-unique s s' in let same = Matches-unique m (rw (← j) at m') in absurd (cc)
    Repeats-unique (fails s m) (again s' m' h' r') =
        let j = Skips-unique s s' in let same = Matches-unique m (rw (← j) at m') in absurd (cc)
    Repeats-unique (last s m h n) (fails s' m') =
        let j = Skips-unique s s' in let same = Matches-unique m (rw (← j) at m') in absurd (cc)
    Repeats-unique (last s m h n) (last s' m' h' n') =
        let j = Skips-unique s s' in
        let same = Matches-unique m (rw (← j) at m') in let k = some_inj _ _ same in (n ∙ sym n', k)
    Repeats-unique (last s m h n) (again s' m' h' r') =
        let j = Skips-unique s s' in
        let same = Matches-unique m (rw (← j) at m') in
        let k = some_inj _ _ same in let full = (rw (← k, ← j) at h') in absurd (cc)
    Repeats-unique (again s m h r) (fails s' m') =
        let j = Skips-unique s s' in let same = Matches-unique m (rw (← j) at m') in absurd (cc)
    Repeats-unique (again s m h r) (last s' m' h' n') =
        let j = Skips-unique s s' in
        let same = Matches-unique m (rw (← j) at m') in
        let k = some_inj _ _ same in let full = (rw (← k, ← j) at h') in absurd (cc)
    Repeats-unique (again s m h r) (again s' m' h' r') =
        let j = Skips-unique s s' in
        let same = Matches-unique m (rw (← j) at m') in
        let k = some_inj _ _ same in Repeats-unique r (rw (← k) at r')

    pub Skips-unique : {b : Bool} {i j j' : ℕ} → Skips g t b i j → Skips g t b i j' → j ≡ j'
    Skips-unique off off = refl
    Skips-unique (no_skipper h) (no_skipper h') = refl
    Skips-unique (no_skipper h) (skipper is m e) = absurd (cc)
    Skips-unique (skipper is m e) (no_skipper h) = absurd (cc)
    Skips-unique (skipper is m e) (skipper is' m' e') =
        let s = some_inj _ _ (sym is ∙ is') in
        let same = Matches-unique m (Matches-renamed _ _ (rw (← s) at m')) in e ∙ rw same (sym e')
