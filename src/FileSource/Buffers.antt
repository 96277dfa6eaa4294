-- ===== src/FileSource/Buffers.antt =====
-- The buffers of include/peglib/FileSource.h and the part of the file that they hold.
use Prim.Native.Nat.{min}
use peglib.Prelude.{
  ℕ, zero, suc, ◌+◌, ◌-◌, ◌≤◌, ◌<◌, ◌≡◌, refl, ap, ◌∙◌, List, [], ◌∷◌, ◌++◌, arith, length, get_or,
  take, drop,
}
use peglib.FileSource.{File, Buffer, fresh_buffer, read, clear, get_unchecked}

-- Every position that the buffer claims is inside the file, and the array has its item.
pub record Holds (items : List ℕ) (b : Buffer) : Type 0 where
  pub inside : b.m_buf_to ≤ length items
  pub same : (i : ℕ) → b.m_buf_from ≤ i → i < b.m_buf_to → get_unchecked b i ≡ get_or items i 0

get_or-append : (xs ys : List ℕ) (k : ℕ) → k < length xs → get_or (xs ++ ys) k 0 ≡ get_or xs k 0
get_or-append [] ys k h = elim h [ ]
get_or-append (x ∷ xs) ys zero h = refl
get_or-append (x ∷ xs) ys (suc k) h = get_or-append xs ys k (omega arith)

get_or-take : (n : ℕ) (xs : List ℕ) (k : ℕ) → k < n → get_or (take n xs) k 0 ≡ get_or xs k 0
get_or-take zero xs k h = elim h [ ]
get_or-take (suc n) [] k h = refl
get_or-take (suc n) (x ∷ xs) zero h = refl
get_or-take (suc n) (x ∷ xs) (suc k) h = get_or-take n xs k (omega arith)

get_or-drop : (n : ℕ) (xs : List ℕ) (k : ℕ) → get_or (drop n xs) k 0 ≡ get_or xs (n + k) 0
get_or-drop zero xs k = let e : 0 + k ≡ k = omega arith in rw e
get_or-drop (suc n) [] k = refl
get_or-drop (suc n) (x ∷ xs) k =
    let e : suc n + k ≡ suc (n + k) = omega arith in rw e (get_or-drop n xs k)

pub length-take-drop :
    (n pos : ℕ) (xs : List ℕ) → length (take n (drop pos xs)) ≡ min n (length xs - pos)
length-take-drop zero pos xs = omega arith
length-take-drop (suc n) zero [] = omega arith
length-take-drop (suc n) (suc pos) [] = omega arith
length-take-drop (suc n) zero (x ∷ xs) = omega (arith, length-take-drop n zero xs)
length-take-drop (suc n) (suc pos) (x ∷ xs) = omega (arith, length-take-drop (suc n) pos xs)

-- A buffer just read holds the file's items from where the file stood.
pub read-Holds :
    (n : ℕ) (f : File) (b : Buffer) → f.position ≤ length f.items → Holds f.items (read n f b).1
unfolding read
read-Holds n f b h =
    let got = take n (drop f.position f.items) in
    let size = length-take-drop n f.position f.items in
    record {
      inside = omega (arith, size);
      same = λ i from to.
          let k = i - f.position in
          let within : k < length got = omega arith in
          let e : f.position + k ≡ i = omega arith in
          get_or-append got (drop (length got) b.m_buf) k within
          ∙ get_or-take n (drop f.position f.items) k (omega (arith, size))
          ∙ get_or-drop f.position f.items k
          ∙ ap (λ (j : ℕ). get_or f.items j 0) e;
    }

pub clear-Holds : (items : List ℕ) (b : Buffer) → Holds items (clear b)
unfolding clear
clear-Holds items b = record { inside = omega arith; same = λ i from to. absurd (omega arith) }

pub fresh_buffer-Holds : (items : List ℕ) (page_size : ℕ) → Holds items (fresh_buffer page_size)
fresh_buffer-Holds items page_size = record {
  inside = omega arith;
  same = λ i from to. absurd (omega arith);
}
