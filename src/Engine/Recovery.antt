-- ===== src/Engine/Recovery.antt =====
-- include/peglib/Recover.h, and where the recovery of include/peglib/NonTerminal.h resumes.
use peglib.Prelude.{
  ℕ, zero, suc, ◌+◌, ◌-◌, ◌≤◌, ◌<◌, ◌≡◌, refl, ap, ◌∙◌, Bool, true, false, List, [], ◌∷◌, some, ◌⊎◌,
  inl, inr, ◌==◌, arith, ltb, Bool-cases, length, get_or, drop,
}
use peglib.ParseError.{Bytes}
use peglib.Context.{Context, input_size}
use peglib.Expr.{RecoverSpec, contains}
use peglib.Engine.Rules.{sync_scan, resume_at}

-- The builders: a set of sync tokens, the line end, nothing but the end of the input, a predicate.
abbrev pub recover_set : List ℕ → Bytes → RecoverSpec
recover_set sync label = record { is_sync_token = some (contains sync); label = label }

abbrev pub recover_eol : Bytes → RecoverSpec
recover_eol label = record { is_sync_token = some (λ c. c == 10); label = label }

abbrev pub recover_eof : Bytes → RecoverSpec
recover_eof label = record { is_sync_token = some (λ c. false); label = label }

abbrev pub recover_predicate : (ℕ → Bool) → Bytes → RecoverSpec
recover_predicate pred label = record { is_sync_token = some pred; label = label }

-- The scan, counted from its first element: what it passes, and where it stops.
record Scans (is_sync : ℕ → Bool) (pos : ℕ) (xs : List ℕ) (stop : ℕ) : Type 0 where
  from : pos ≤ stop
  within : stop ≤ pos + length xs
  passed : (k : ℕ) → pos + k < stop → is_sync (get_or xs k 0) ≡ false
  found : stop < pos + length xs → is_sync (get_or xs (stop - pos) 0) ≡ true

later_passed :
    (is_sync : ℕ → Bool) (pos x stop : ℕ) (xs : List ℕ)
    → is_sync x ≡ false
    → Scans is_sync (suc pos) xs stop
    → (k : ℕ) → pos + k < stop
    → is_sync (get_or (x ∷ xs) k 0) ≡ false
later_passed is_sync pos x stop xs p v zero h = p
later_passed is_sync pos x stop xs p v (suc k) h = v.passed k (omega arith)

sync_scan-Scans :
    (is_sync : ℕ → Bool) (pos : ℕ) (xs : List ℕ) → Scans is_sync pos xs (sync_scan is_sync pos xs)
unfolding sync_scan
sync_scan-Scans is_sync pos [] = record {
  from = omega arith;
  within = omega arith;
  passed = λ k h. absurd (omega arith);
  found = λ h. absurd (omega arith);
}
sync_scan-Scans is_sync pos (x ∷ xs) = elim (Bool-cases (is_sync x)) [
  | inl p ↦ rw p (record {
    from = omega arith;
    within = omega arith;
    passed = λ k h. absurd (omega arith);
    found = λ h. let e : pos - pos ≡ 0 = omega arith in rw e p;
  })
  | inr p ↦
      let v = sync_scan-Scans is_sync (suc pos) xs in
      rw p (record {
        from = omega (arith, v.from);
        within = omega (arith, v.within);
        passed = λ k h. later_passed is_sync pos x (sync_scan is_sync (suc pos) xs) xs p v k h;
        found = λ h.
            let stop = sync_scan is_sync (suc pos) xs in
            let e : stop - pos ≡ suc (stop - suc pos) = omega (arith, v.from) in
            rw e (v.found (omega arith));
      })
]

get_or-drop_at : (n : ℕ) (xs : List ℕ) (k : ℕ) → get_or (drop n xs) k 0 ≡ get_or xs (n + k) 0
get_or-drop_at zero xs k = let e : 0 + k ≡ k = omega arith in rw e
get_or-drop_at (suc n) [] k = refl
get_or-drop_at (suc n) (x ∷ xs) k =
    let e : suc n + k ≡ suc (n + k) = omega arith in rw e (get_or-drop_at n xs k)

length-drop_at : (n : ℕ) (xs : List ℕ) → n + length (drop n xs) ≡ n + (length xs - n)
length-drop_at zero xs = omega arith
length-drop_at (suc n) [] = omega arith
length-drop_at (suc n) (x ∷ xs) = omega (arith, length-drop_at n xs)

-- Whether recovery at the position skips, or stops at, an element of the input.
abbrev pub IsSyncAt : (ℕ → Bool) → Context → ℕ → Bool → Type 0
IsSyncAt is_sync c i b = is_sync (get_or c.m_input i 0) ≡ b

at_offset :
    (is_sync : ℕ → Bool) (start i : ℕ) (c : Context) (b : Bool)
    → start ≤ i
    → is_sync (get_or (drop start c.m_input) (i - start) 0) ≡ b
    → IsSyncAt is_sync c i b
at_offset is_sync start i c b h found =
    let e : start + (i - start) ≡ i = omega arith in
    let same : get_or (drop start c.m_input) (i - start) 0 ≡ get_or c.m_input i 0 =
      get_or-drop_at start c.m_input (i - start) ∙ ap (λ (j : ℕ). get_or c.m_input j 0) e in
    rw same at found

-- Recovery from a position inside the input resumes either behind the first sync token at or
-- after the position, or, if there is none, at the end of the input.
pub resume_at_lem :
    (is_sync : ℕ → Bool) (start : ℕ) (c : Context)
    → start ≤ input_size c
    → ((i : ℕ) × (resume_at is_sync start c ≡ i + 1)
        × (start ≤ i)
        × (i < input_size c)
        × IsSyncAt is_sync c i true
        × ((k : ℕ) → start ≤ k → k < i → IsSyncAt is_sync c k false))
      ⊎ ((resume_at is_sync start c ≡ input_size c)
          × ((k : ℕ) → start ≤ k → k < input_size c → IsSyncAt is_sync c k false))
unfolding resume_at
resume_at_lem is_sync start c h =
    let rest = drop start c.m_input in
    let v = sync_scan-Scans is_sync start rest in
    let stop = sync_scan is_sync start rest in
    let size : start + length rest ≡ input_size c = omega (arith, length-drop_at start c.m_input) in
    let passed : (k : ℕ) → start ≤ k → k < stop → IsSyncAt is_sync c k false =
      λ k from to. at_offset is_sync start k c false from (v.passed (k - start) (omega arith)) in
    elim (Bool-cases (ltb stop (input_size c))) [
      | inl p ↦ rw p (
          inl (
            stop,
            refl,
            v.from,
            ground arith,
            at_offset is_sync start stop c true v.from (v.found (ground arith)),
            passed,
          ))
      | inr p ↦ rw p (inr (refl, λ k from to. passed k from (ground arith)))
    ]
