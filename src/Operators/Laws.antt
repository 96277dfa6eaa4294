-- ===== src/Operators/Laws.antt =====
-- Laws of the operators that build expressions.
use peglib.Prelude.{◌≡◌, refl, ap, List}
use peglib.ParseError.{Bytes}
use peglib.Expr.{Expr, Exprs, nil, cons, sequence, alternation, Grammar}
use peglib.Invariant.{IsSound, AreSound}
use peglib.Grammar.Refs.{collect_rule_refs, collect_all}
use peglib.Operators.{tuple_cat, in_sequence, either}

-- What an operand adds to the tuple of a sequence, or of an alternation.
items : Expr → Exprs
items (sequence es) = es
items e = cons e nil

branches : Expr → Exprs
branches (alternation es) = es
branches e = cons e nil

tuple_cat-nil : (es : Exprs) → tuple_cat es nil ≡ es
unfolding tuple_cat
tuple_cat-nil nil = refl
tuple_cat-nil (cons e es) = ap (cons e) (tuple_cat-nil es)

tuple_cat_assoc :
    (es fs gs : Exprs) → tuple_cat (tuple_cat es fs) gs ≡ tuple_cat es (tuple_cat fs gs)
unfolding tuple_cat
tuple_cat_assoc nil fs gs = refl
tuple_cat_assoc (cons e es) fs gs = ap (cons e) (tuple_cat_assoc es fs gs)

in_sequence-items : (e f : Expr) → in_sequence e f ≡ sequence (tuple_cat (items e) (items f))
unfolding in_sequence items tuple_cat
in_sequence-items (sequence es) (sequence fs) = refl
in_sequence-items (sequence es) f = refl
in_sequence-items e (sequence fs) = refl
in_sequence-items e f = refl

either-branches : (e f : Expr) → either e f ≡ alternation (tuple_cat (branches e) (branches f))
unfolding either branches tuple_cat
either-branches (alternation es) (alternation fs) = refl
either-branches (alternation es) f = refl
either-branches e (alternation fs) = refl
either-branches e f = refl

-- The operator >> is associative: both ways to group three operands build the same expression.
pub in_sequence_assoc :
    (e f h : Expr) → in_sequence (in_sequence e f) h ≡ in_sequence e (in_sequence f h)
unfolding items
in_sequence_assoc e f h =
    rw
      (
        in_sequence-items e f,
        in_sequence-items f h,
        in_sequence-items (sequence (tuple_cat (items e) (items f))) h,
        in_sequence-items e (sequence (tuple_cat (items f) (items h))),
      )
      (ap sequence (tuple_cat_assoc (items e) (items f) (items h)))

-- The operator | is associative: both ways to group three operands build the same expression.
pub either_assoc : (e f h : Expr) → either (either e f) h ≡ either e (either f h)
unfolding branches
either_assoc e f h =
    rw
      (
        either-branches e f,
        either-branches f h,
        either-branches (alternation (tuple_cat (branches e) (branches f))) h,
        either-branches e (alternation (tuple_cat (branches f) (branches h))),
      )
      (ap alternation (tuple_cat_assoc (branches e) (branches f) (branches h)))

collect_all-tuple_cat :
    (es fs : Exprs) (refs : List Bytes)
    → collect_all (tuple_cat es fs) refs ≡ collect_all fs (collect_all es refs)
unfolding tuple_cat collect_all
collect_all-tuple_cat nil fs refs = refl
collect_all-tuple_cat (cons e es) fs refs = collect_all-tuple_cat es fs (collect_rule_refs e refs)

collect_all-items :
    (e : Expr) (refs : List Bytes) → collect_all (items e) refs ≡ collect_rule_refs e refs
unfolding items collect_all collect_rule_refs
collect_all-items (sequence es) refs = refl
collect_all-items e refs = refl

collect_all-branches :
    (e : Expr) (refs : List Bytes) → collect_all (branches e) refs ≡ collect_rule_refs e refs
unfolding branches collect_all collect_rule_refs
collect_all-branches (alternation es) refs = refl
collect_all-branches e refs = refl

-- The rule references that collect_rule_refs adds for an expression built by >> or by | are those
-- of the first operand and then those of the second.
pub collect_rule_refs-in_sequence :
    (e f : Expr) (refs : List Bytes)
    → (collect_rule_refs (in_sequence e f) refs ≡ collect_rule_refs f (collect_rule_refs e refs))
      × (collect_rule_refs (either e f) refs ≡ collect_rule_refs f (collect_rule_refs e refs))
unfolding collect_rule_refs
collect_rule_refs-in_sequence e f refs = (
  rw
      (
        in_sequence-items e f,
        collect_all-tuple_cat (items e) (items f) refs,
        collect_all-items e refs,
        collect_all-items f (collect_rule_refs e refs),
      )
      refl,
  rw
      (
        either-branches e f,
        collect_all-tuple_cat (branches e) (branches f) refs,
        collect_all-branches e refs,
        collect_all-branches f (collect_rule_refs e refs),
      )
      refl,
)

AreSound-tuple_cat :
    (g : Grammar) (es fs : Exprs) → AreSound g es → AreSound g fs → AreSound g (tuple_cat es fs)
unfolding tuple_cat
AreSound-tuple_cat g nil fs s t = t
AreSound-tuple_cat g (cons e es) fs (a, s) t = (a, AreSound-tuple_cat g es fs s t)

items-AreSound : (g : Grammar) (e : Expr) → IsSound g e → AreSound g (items e)
unfolding items
items-AreSound g (sequence es) s = s
items-AreSound g e s = (s, tt)

branches-AreSound : (g : Grammar) (e : Expr) → IsSound g e → AreSound g (branches e)
unfolding branches
branches-AreSound g (alternation es) s = s
branches-AreSound g e s = (s, tt)

pub in_sequence-IsSound :
    (g : Grammar) (e f : Expr)
    → IsSound g e
    → IsSound g f
    → IsSound g (in_sequence e f) × IsSound g (either e f)
in_sequence-IsSound g e f s t = (
  rw (in_sequence-items e f)
      (AreSound-tuple_cat g (items e) (items f) (items-AreSound g e s) (items-AreSound g f t)),
  rw (either-branches e f) (
      AreSound-tuple_cat g (branches e) (branches f) (branches-AreSound g e s)
        (branches-AreSound g f t)),
)
