-- ===== src/Context/Errors.antt =====
-- The furthest failure: `record_failure` and `take_error` of include/peglib/Context.h, called in a row.
use peglib.Prelude.{
  ℕ, ◌≤◌, ◌<◌, ◌≡◌, refl, true, false, List, [], ◌∷◌, none, some, ◌⊎◌, inl, inr, ◌↔◌, All, arith,
  ltb, ◌==◌, Bool-cases,
}
use peglib.ParseError.{ExpectedItem, insert, Diagnostic}
use peglib.ParseError.Insert.{IsAscending, Has, insert-IsAscending, Has-insert}
use peglib.Context.{Context, record_failure, take_error}

-- A position and what was expected there.
abbrev pub Failure : Type 0
Failure = ℕ × ExpectedItem

-- The failures recorded one after the other, the latest at the head.
unfoldable pub record_all : List Failure → Context → Context
record_all [] c = c
record_all ((pos, item) ∷ fs) c = record_failure pos item (record_all fs c)

abbrev pub Occurs : ℕ → ExpectedItem → List Failure → Type 0
Occurs pos a [] = ⊥
Occurs pos a (f ∷ fs) = ((f.0 ≡ pos) × (f.1 ≡ a)) ⊎ Occurs pos a fs

-- The diagnostic is of the furthest position, and expects just what failed there.
pub record IsFurthest (fs : List Failure) (d : Diagnostic) : Type 0 where
  pub furthest : All (λ f. f.0 ≤ d.m_pos) fs
  pub expected : (a : ExpectedItem) → Has a d.m_expected ↔ Occurs d.m_pos a fs
  pub witnessed : (a : ExpectedItem) × Occurs d.m_pos a fs
  pub ascending : IsAscending d.m_expected

-- What `take_error` would take.
abbrev error_of : Context → Diagnostic
error_of c = record { m_pos = c.m_furthest_failure_pos; m_expected = c.m_expected }

All-le : (m n : ℕ) (fs : List Failure) → m ≤ n → All (λ f. f.0 ≤ m) fs → All (λ f. f.0 ≤ n) fs
All-le m n [] h all = tt
All-le m n (f ∷ fs) h (first, rest) = (omega arith, All-le m n fs h rest)

not-Occurs :
    (m pos : ℕ) (a : ExpectedItem) (fs : List Failure)
    → m < pos
    → All (λ f. f.0 ≤ m) fs
    → Occurs pos a fs
    → ⊥
not-Occurs m pos a [] h all o = o
not-Occurs m pos a (f ∷ fs) h (first, rest) (inl o) = let e = o.0 in omega arith
not-Occurs m pos a (f ∷ fs) h (first, rest) (inr o) = not-Occurs m pos a fs h rest o

module _ (fs : List Failure) (c : Context) (pos : ℕ) (item : ExpectedItem) where
  later_lem :
      c.m_furthest_failure_pos < pos
      → IsFurthest fs (error_of c)
      → IsFurthest ((pos, item) ∷ fs) (record { m_pos = pos; m_expected = (insert [] item).0 })
  later_lem h v = record {
    furthest = (omega arith, All-le c.m_furthest_failure_pos pos fs (omega arith) v.furthest);
    expected = λ a.
        let set = Has-insert [] item a in
        let old = not-Occurs c.m_furthest_failure_pos pos a fs h v.furthest in
        ground (arith, set, old);
    witnessed = (item, inl (refl, refl));
    ascending = insert-IsAscending [] item tt;
  }

  same_lem :
      pos ≡ c.m_furthest_failure_pos
      → IsFurthest fs (error_of c)
      → IsFurthest
          ((pos, item) ∷ fs)
          (record { m_pos = c.m_furthest_failure_pos; m_expected = (insert c.m_expected item).0 })
  same_lem h v = record {
    furthest = (omega arith, v.furthest);
    expected = λ a.
        let set = Has-insert c.m_expected item a in
        let old = v.expected a in ground (arith, set, old);
    witnessed = (v.witnessed.0, inr v.witnessed.1);
    ascending = insert-IsAscending c.m_expected item v.ascending;
  }

  earlier_lem :
      pos < c.m_furthest_failure_pos
      → IsFurthest fs (error_of c)
      → IsFurthest ((pos, item) ∷ fs) (error_of c)
  earlier_lem h v = record {
    furthest = (omega arith, v.furthest);
    expected = λ a. let old = v.expected a in ground (arith, old);
    witnessed = (v.witnessed.0, inr v.witnessed.1);
    ascending = v.ascending;
  }

abbrev Tracks : List Failure → Context → Type 0
Tracks fs c = (c.m_has_error ≡ true) × IsFurthest fs (error_of c)

record_failure-Tracks :
    (fs : List Failure) (c : Context) (pos : ℕ) (item : ExpectedItem)
    → Tracks fs c
    → Tracks ((pos, item) ∷ fs) (record_failure pos item c)
unfolding record_failure
record_failure-Tracks fs c pos item (has, v) =
    rw has (elim (Bool-cases (ltb c.m_furthest_failure_pos pos)) [
      | inl p ↦ rw p (refl, later_lem fs c pos item (ground arith) v)
      | inr p ↦ rw p (elim (Bool-cases (pos == c.m_furthest_failure_pos)) [
        | inl q ↦ rw q (refl, same_lem fs c pos item (ground arith) v)
        | inr q ↦ rw q (refl, earlier_lem fs c pos item (ground arith) v)
      ])
    ])

first-Tracks :
    (c : Context) (f : Failure) → c.m_has_error ≡ false → Tracks (f ∷ []) (record_failure f.0 f.1 c)
unfolding record_failure
first-Tracks c (pos, item) h = rw h (
  refl,
  record {
    furthest = (omega arith, tt);
    expected = λ a. let set = Has-insert [] item a in ground (arith, set);
    witnessed = (item, inl (refl, refl));
    ascending = insert-IsAscending [] item tt;
  },
)

record_all-Tracks :
    (f : Failure) (fs : List Failure) (c : Context)
    → c.m_has_error ≡ false
    → Tracks (f ∷ fs) (record_all (f ∷ fs) c)
unfolding record_all
record_all-Tracks f [] c h = first-Tracks c f h
record_all-Tracks f (f' ∷ fs) c h =
    record_failure-Tracks (f' ∷ fs) (record_all (f' ∷ fs) c) f.0 f.1 (record_all-Tracks f' fs c h)

-- After any failures, one at least, recorded on a context without an error, take_error gives the
-- furthest of their positions with just the items that failed there, in ascending order, and a
-- second call gives nothing.
pub take_error-record_all :
    (f : Failure) (fs : List Failure) (c : Context)
    → c.m_has_error ≡ false
    → ((d : Diagnostic) × ((take_error (record_all (f ∷ fs) c)).1 ≡ some d) × IsFurthest (f ∷ fs) d)
      × ((take_error (take_error (record_all (f ∷ fs) c)).0).1 ≡ none)
unfolding take_error
take_error-record_all f fs c h =
    let (has, v) = record_all-Tracks f fs c h in
    rw has ((error_of (record_all (f ∷ fs) c), refl, v), refl)
