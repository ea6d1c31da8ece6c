-- ===== src/Prelude/Slices.antt =====
-- Slices of lists: cut in two, and inside a list that is appended.
use Prim.Native.Nat.{ℕ, zero, suc, ◌+◌, ◌-◌, ◌≤◌}
use mathlib.Core.Path.{◌≡◌, refl, ap, ◌∙◌}
use mathlib.Core.List.{List, [], ◌∷◌, ◌++◌}
use native.Mathlib.Omega.{arith}
use libchdman_rs.Prelude.Lists.{length, take, drop, length-take, length-drop}
use libchdman_rs.Prelude.Blocks.{slice, blit, overwrite}

module _ {ℓ} {A : Type ℓ} where
  take_split : (xs : List A) (m l k : ℕ) → k ≡ m + l → take k xs ≡ take m xs ++ take l (drop m xs)
  take_split xs zero l k h = let e : k ≡ l = omega arith in rw e
  take_split [] (suc m) zero zero h = refl
  take_split [] (suc m) (suc l) zero h = refl
  take_split [] (suc m) zero (suc k) h = refl
  take_split [] (suc m) (suc l) (suc k) h = refl
  take_split (x ∷ xs) (suc m) l zero h = absurd (omega arith)
  take_split (x ∷ xs) (suc m) l (suc k) h = ap (λ ys. x ∷ ys) (take_split xs m l k (omega arith))

  pub drop-drop : (xs : List A) (i m j : ℕ) → j ≡ i + m → drop m (drop i xs) ≡ drop j xs
  drop-drop xs zero m j h = let e : m ≡ j = omega arith in rw e
  drop-drop [] (suc i) zero zero h = refl
  drop-drop [] (suc i) (suc m) zero h = refl
  drop-drop [] (suc i) zero (suc j) h = refl
  drop-drop [] (suc i) (suc m) (suc j) h = refl
  drop-drop (x ∷ xs) (suc i) m zero h = absurd (omega arith)
  drop-drop (x ∷ xs) (suc i) m (suc j) h = drop-drop xs i m j (omega arith)

  -- A slice is the slice of its front and that of the rest.
  pub slice_split :
      (xs : List A) (i m l j k : ℕ)
      → j ≡ i + m
      → k ≡ m + l
      → slice xs i k ≡ slice xs i m ++ slice xs j l
  slice_split xs i m l j k hj hk = rw (take_split (drop i xs) m l k hk, drop-drop xs i m j hj) refl

  pub slice-append_front :
      (xs ys : List A) (i n : ℕ) → i + n ≤ length xs → slice (xs ++ ys) i n ≡ slice xs i n
  slice-append_front xs ys zero zero h = refl
  slice-append_front [] ys zero (suc n) h = absurd (omega arith)
  slice-append_front (x ∷ xs) ys zero (suc n) h =
      ap (λ zs. x ∷ zs) (slice-append_front xs ys 0 n (omega arith))
  slice-append_front [] ys (suc i) n h = absurd (omega arith)
  slice-append_front (x ∷ xs) ys (suc i) n h = slice-append_front xs ys i n (omega arith)

  pub slice-append_back :
      (xs ys : List A) (i j n : ℕ) → j ≡ length xs + i → slice (xs ++ ys) j n ≡ slice ys i n
  slice-append_back [] ys i j n h = let e : j ≡ i = omega arith in rw e
  slice-append_back (x ∷ xs) ys i zero n h = absurd (omega arith)
  slice-append_back (x ∷ xs) ys i (suc j) n h = slice-append_back xs ys i j n (omega arith)

  pub length-slice : (xs : List A) (i n : ℕ) → i + n ≤ length xs → length (slice xs i n) ≡ n
  length-slice xs i n h = omega (arith, length-take n (drop i xs), length-drop i xs)

  take-overwrite_end :
      (xs ys : List A) (k : ℕ) → k ≡ length ys → k ≤ length xs → take k (overwrite xs ys) ≡ ys
  take-overwrite_end xs [] zero e h = refl
  take-overwrite_end xs [] (suc k) e h = absurd (omega arith)
  take-overwrite_end xs (y ∷ ys) zero e h = absurd (omega arith)
  take-overwrite_end [] (y ∷ ys) (suc k) e h = absurd (omega arith)
  take-overwrite_end (x ∷ xs) (y ∷ ys) (suc k) e h =
      ap (λ zs. y ∷ zs) (take-overwrite_end xs ys k (omega arith) (omega arith))

  -- Up to the end of a written block stand what was before it and the block.
  pub take-blit :
      (xs : List A) (i : ℕ) (ys : List A) (k : ℕ)
      → k ≡ i + length ys
      → k ≤ length xs
      → take k (blit xs i ys) ≡ take i xs ++ ys
  take-blit xs zero ys k e h = take-overwrite_end xs ys k (omega arith) h
  take-blit [] (suc i) ys zero e h = absurd (omega arith)
  take-blit [] (suc i) ys (suc k) e h = absurd (omega arith)
  take-blit (x ∷ xs) (suc i) ys zero e h = absurd (omega arith)
  take-blit (x ∷ xs) (suc i) ys (suc k) e h =
      ap (λ zs. x ∷ zs) (take-blit xs i ys k (omega arith) (omega arith))

  drop-take : (n j k : ℕ) (xs : List A) → n ≡ j + k → drop j (take n xs) ≡ take k (drop j xs)
  drop-take n zero k xs h = let e : n ≡ k = omega arith in rw e
  drop-take zero (suc j) k xs h = absurd (omega arith)
  drop-take (suc n) (suc j) zero [] h = refl
  drop-take (suc n) (suc j) (suc k) [] h = refl
  drop-take (suc n) (suc j) k (x ∷ xs) h = drop-take n j k xs (omega arith)

  pub take-take : (m n : ℕ) (xs : List A) → m ≤ n → take m (take n xs) ≡ take m xs
  take-take zero n xs h = refl
  take-take (suc m) zero xs h = absurd (omega arith)
  take-take (suc m) (suc n) [] h = refl
  take-take (suc m) (suc n) (x ∷ xs) h = ap (λ l. x ∷ l) (take-take m n xs (omega arith))

  pub slice-slice :
      (xs : List A) (i n j m k : ℕ)
      → j + m ≤ n
      → k ≡ i + j
      → slice (slice xs i n) j m ≡ slice xs k m
  slice-slice xs i n j m k h e =
      ap (take m) (drop-take n j (n - j) (drop i xs) (omega arith))
      ∙ take-take m (n - j) (drop j (drop i xs)) (omega arith)
      ∙ ap (take m) (drop-drop xs i j k e)
