-- ===== src/Cfs/Bytes.antt =====
-- Files and memory as lists of bytes: a range of them, and writing over a range. A write past the
-- end of a file fills the gap with zeros.
use ece566_project.Prelude.{
  ℕ, zero, suc, ◌+◌, ◌-◌, ◌≤◌, ◌≡◌, refl, ap, sym, ◌∙◌, ◌⊎◌, inl, inr, List, [], ◌∷◌, ◌++◌, arith,
  length, take, drop, length-append, length-take,
}
use Prim.Native.Nat.add
use native.Mathlib.Nat.{suc-add}

abbrev pub slice : ℕ → ℕ → List ℕ → List ℕ
slice n off xs = take n (drop off xs)

unfoldable pub overwrite : List ℕ → ℕ → List ℕ → List ℕ
overwrite xs zero bytes = bytes ++ drop (length bytes) xs
overwrite [] (suc off) bytes = 0 ∷ overwrite [] off bytes
overwrite (x ∷ xs) (suc off) bytes = x ∷ overwrite xs off bytes

take-append_self : (b xs : List ℕ) → take (length b) (b ++ xs) ≡ b
take-append_self [] xs = refl
take-append_self (x ∷ b) xs = ap (◌∷◌ x) (take-append_self b xs)

drop-nil : (o : ℕ) → drop {A = ℕ} o [] ≡ []
drop-nil zero = refl
drop-nil (suc o) = refl

drop-append : (b xs : List ℕ) (o : ℕ) → length b ≤ o → drop o (b ++ drop (length b) xs) ≡ drop o xs
drop-append [] xs o h = refl
drop-append (x ∷ b) xs zero h = absurd (omega arith)
drop-append (x ∷ b) [] (suc o) h =
    ap (λ (t : List ℕ). drop o (b ++ t)) (sym (drop-nil (length b)))
    ∙ drop-append b [] o (omega arith)
    ∙ drop-nil o
drop-append (x ∷ b) (y ∷ xs) (suc o) h = drop-append b xs o (omega arith)

pub length-drop : (xs : List ℕ) (n : ℕ) → length (drop n xs) ≡ length xs - n
length-drop xs zero = omega arith
length-drop [] (suc n) = omega arith
length-drop (x ∷ xs) (suc n) = omega (arith, length-drop xs n)

take-nil : (n : ℕ) → take {A = ℕ} n [] ≡ []
take-nil zero = refl
take-nil (suc n) = refl

take-add : (a n : ℕ) (xs : List ℕ) → take (a + n) xs ≡ take a xs ++ take n (drop a xs)
take-add zero n xs = rw add.zero
take-add (suc a) n [] = rw (take-nil (suc a + n), take-nil n)
take-add (suc a) n (x ∷ xs) = rw suc-add (ap (◌∷◌ x) (take-add a n xs))

-- What was written is read back.
pub slice-overwrite_self :
    (xs : List ℕ) (off : ℕ) (b : List ℕ) → slice (length b) off (overwrite xs off b) ≡ b
unfolding overwrite
slice-overwrite_self xs zero b = take-append_self b _
slice-overwrite_self [] (suc off) b = slice-overwrite_self [] off b
slice-overwrite_self (x ∷ xs) (suc off) b = slice-overwrite_self xs off b

drop-overwrite :
    (xs : List ℕ) (off : ℕ) (b : List ℕ) (o : ℕ)
    → off + length b ≤ o
    → drop o (overwrite xs off b) ≡ drop o xs
unfolding overwrite
drop-overwrite xs zero b o h = drop-append b xs o (omega arith)
drop-overwrite [] (suc off) b zero h = absurd (omega arith)
drop-overwrite [] (suc off) b (suc o) h = drop-overwrite [] off b o (omega arith) ∙ drop-nil o
drop-overwrite (x ∷ xs) (suc off) b zero h = absurd (omega arith)
drop-overwrite (x ∷ xs) (suc off) b (suc o) h = drop-overwrite xs off b o (omega arith)

take-overwrite :
    (xs : List ℕ) (off : ℕ) (b : List ℕ) (n : ℕ)
    → n ≤ length xs
    → n ≤ off
    → take n (overwrite xs off b) ≡ take n xs
unfolding overwrite
take-overwrite xs off b zero h k = refl
take-overwrite [] off b (suc n) h k = absurd (omega arith)
take-overwrite (x ∷ xs) zero b (suc n) h k = absurd (omega arith)
take-overwrite (x ∷ xs) (suc off) b (suc n) h k =
    ap (◌∷◌ x) (take-overwrite xs off b n (omega arith) (omega arith))

slice-overwrite_before :
    (xs : List ℕ) (off : ℕ) (b : List ℕ) (n o : ℕ)
    → o + n ≤ length xs
    → o + n ≤ off
    → slice n o (overwrite xs off b) ≡ slice n o xs
unfolding overwrite
slice-overwrite_before xs off b n zero h k = take-overwrite xs off b n (omega arith) (omega arith)
slice-overwrite_before [] off b n (suc o) h k = absurd (omega arith)
slice-overwrite_before (x ∷ xs) zero b n (suc o) h k = absurd (omega arith)
slice-overwrite_before (x ∷ xs) (suc off) b n (suc o) h k =
    slice-overwrite_before xs off b n o (omega arith) (omega arith)

-- Behind what was written, and before it within the file, nothing changes.
pub slice-overwrite_ne :
    (xs : List ℕ) (off : ℕ) (b : List ℕ) (n o : ℕ)
    → o + n ≤ length xs
    → (off + length b ≤ o) ⊎ (o + n ≤ off)
    → slice n o (overwrite xs off b) ≡ slice n o xs
slice-overwrite_ne xs off b n o h (inl after) = ap (take n) (drop-overwrite xs off b o after)
slice-overwrite_ne xs off b n o h (inr before) = slice-overwrite_before xs off b n o h before

-- In memory, writing within the block keeps its length.
pub length-overwrite :
    (xs : List ℕ) (off : ℕ) (b : List ℕ)
    → off + length b ≤ length xs
    → length (overwrite xs off b) ≡ length xs
unfolding overwrite
length-overwrite xs zero b h =
    omega (arith, length-append {0} b (drop (length b) xs), length-drop xs (length b))
length-overwrite [] (suc off) b h = absurd (omega arith)
length-overwrite (x ∷ xs) (suc off) b h = omega (arith, length-overwrite xs off b)

-- Memory that is filled from its start on.
pub take-overwrite_next :
    (xs : List ℕ) (off : ℕ) (b : List ℕ)
    → off ≤ length xs
    → take (off + length b) (overwrite xs off b) ≡ take off xs ++ b
unfolding overwrite
take-overwrite_next xs zero b h = rw add.zero (take-append_self b _)
take-overwrite_next [] (suc off) b h = absurd (omega arith)
take-overwrite_next (x ∷ xs) (suc off) b h =
    rw suc-add (ap (◌∷◌ x) (take-overwrite_next xs off b (omega arith)))

pub length-slice : (n o : ℕ) (xs : List ℕ) → o + n ≤ length xs → length (slice n o xs) ≡ n
length-slice n o xs h = omega (arith, length-take {0} n (drop o xs), length-drop xs o)

-- Neighbouring ranges join.
pub slice-add : (a n o : ℕ) (xs : List ℕ) → slice (a + n) o xs ≡ slice a o xs ++ slice n (o + a) xs
slice-add a n zero xs = rw add.zero (take-add a n xs)
slice-add a n (suc o) [] = rw (take-nil (a + n), take-nil a, drop-nil (suc o + a), take-nil n)
slice-add a n (suc o) (x ∷ xs) = rw suc-add (slice-add a n o xs)

take-take : (n k : ℕ) (xs : List ℕ) → n ≤ k → take n (take k xs) ≡ take n xs
take-take zero k xs h = refl
take-take (suc n) zero xs h = absurd (omega arith)
take-take (suc n) (suc k) [] h = refl
take-take (suc n) (suc k) (x ∷ xs) h = ap (◌∷◌ x) (take-take n k xs (omega arith))

slice-take : (n o k : ℕ) (xs : List ℕ) → o + n ≤ k → slice n o (take k xs) ≡ slice n o xs
slice-take n zero k xs h = take-take n k xs (omega arith)
slice-take n (suc o) zero xs h = absurd (omega arith)
slice-take n (suc o) (suc k) [] h = refl
slice-take n (suc o) (suc k) (x ∷ xs) h = slice-take n o k xs (omega arith)

drop-drop : (o l : ℕ) (xs : List ℕ) → drop o (drop l xs) ≡ drop (l + o) xs
drop-drop o zero xs = rw add.zero
drop-drop o (suc l) [] = drop-nil o ∙ sym (drop-nil (suc l + o))
drop-drop o (suc l) (x ∷ xs) = rw suc-add (drop-drop o l xs)

-- A range of a range.
pub slice-slice :
    (n o k l : ℕ) (xs : List ℕ) → o + n ≤ k → slice n o (slice k l xs) ≡ slice n (l + o) xs
slice-slice n o k l xs h = slice-take n o k (drop l xs) h ∙ ap (take n) (drop-drop o l xs)

pub take_all : (n : ℕ) (xs : List ℕ) → length xs ≤ n → take n xs ≡ xs
take_all zero [] h = refl
take_all zero (x ∷ xs) h = absurd (omega arith)
take_all (suc n) [] h = refl
take_all (suc n) (x ∷ xs) h = ap (◌∷◌ x) (take_all n xs (omega arith))
