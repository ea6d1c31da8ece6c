-- ===== src/Prelude/Blocks.antt =====
-- Blocks of bytes: writing one list over another, as memcpy does, and reading it back.
use Prim.Native.Nat.{ℕ, zero, suc, ◌+◌, ◌≤◌}
use mathlib.Core.Path.{◌≡◌, refl, ap}
use mathlib.Core.Logic.{◌⊎◌, inl, inr}
use mathlib.Core.List.{List, [], ◌∷◌}
use native.Mathlib.Omega.{arith}
use libchdman_rs.Prelude.Lists.{length, take, drop}

module _ {ℓ} {A : Type ℓ} where
  -- `ys` over the front of `xs`; what would run past the end is dropped.
  abbrev pub overwrite : List A → List A → List A
  overwrite [] ys = []
  overwrite (x ∷ xs) [] = x ∷ xs
  overwrite (x ∷ xs) (y ∷ ys) = y ∷ overwrite xs ys

  -- `ys` over `xs` from index `i` on: memcpy(&xs[i], ys, |ys|).
  abbrev pub blit : List A → ℕ → List A → List A
  blit xs zero ys = overwrite xs ys
  blit [] (suc i) ys = []
  blit (x ∷ xs) (suc i) ys = x ∷ blit xs i ys

  -- The `n` items from index `i` on.
  abbrev pub slice : List A → ℕ → ℕ → List A
  slice xs i n = take n (drop i xs)

  pub length-overwrite : (xs ys : List A) → length (overwrite xs ys) ≡ length xs
  length-overwrite [] ys = refl
  length-overwrite (x ∷ xs) [] = refl
  length-overwrite (x ∷ xs) (y ∷ ys) = ap suc (length-overwrite xs ys)

  pub length-blit : (xs : List A) (i : ℕ) (ys : List A) → length (blit xs i ys) ≡ length xs
  length-blit xs zero ys = length-overwrite xs ys
  length-blit [] (suc i) ys = refl
  length-blit (x ∷ xs) (suc i) ys = ap suc (length-blit xs i ys)

  take-overwrite :
      (xs ys : List A) → length ys ≤ length xs → take (length ys) (overwrite xs ys) ≡ ys
  take-overwrite xs [] h = refl
  take-overwrite [] (y ∷ ys) h = absurd (omega arith)
  take-overwrite (x ∷ xs) (y ∷ ys) h = ap (λ l. y ∷ l) (take-overwrite xs ys (omega arith))

  -- What was written is read back.
  pub slice-blit_self :
      (xs : List A) (i : ℕ) (ys : List A)
      → i + length ys ≤ length xs
      → slice (blit xs i ys) i (length ys) ≡ ys
  slice-blit_self xs zero ys h = take-overwrite xs ys (omega arith)
  slice-blit_self [] (suc i) [] h = refl
  slice-blit_self [] (suc i) (y ∷ ys) h = absurd (omega arith)
  slice-blit_self (x ∷ xs) (suc i) ys h = slice-blit_self xs i ys (omega arith)

  pub overwrite_same : (xs ys : List A) → length ys ≡ length xs → overwrite xs ys ≡ ys
  overwrite_same [] [] h = refl
  overwrite_same [] (y ∷ ys) h = absurd (omega arith)
  overwrite_same (x ∷ xs) [] h = absurd (omega arith)
  overwrite_same (x ∷ xs) (y ∷ ys) h = ap (λ l. y ∷ l) (overwrite_same xs ys (omega arith))

  pub take_all : (n : ℕ) (xs : List A) → length xs ≤ n → take n xs ≡ xs
  take_all zero [] h = refl
  take_all zero (x ∷ xs) h = absurd (omega arith)
  take_all (suc n) [] h = refl
  take_all (suc n) (x ∷ xs) h = ap (λ l. x ∷ l) (take_all n xs (omega arith))

  drop_past : (n : ℕ) (xs : List A) → length xs ≤ n → drop n xs ≡ []
  drop_past zero [] h = refl
  drop_past zero (x ∷ xs) h = absurd (omega arith)
  drop_past (suc n) [] h = refl
  drop_past (suc n) (x ∷ xs) h = drop_past n xs (omega arith)

  -- A read that ends before the written block, or begins behind it, sees no change.
  slice-overwrite_past :
      (xs ys : List A) (j n : ℕ) → length ys ≤ j → slice (overwrite xs ys) j n ≡ slice xs j n
  slice-overwrite_past [] ys j n h = refl
  slice-overwrite_past (x ∷ xs) [] j n h = refl
  slice-overwrite_past (x ∷ xs) (y ∷ ys) zero n h = absurd (omega arith)
  slice-overwrite_past (x ∷ xs) (y ∷ ys) (suc j) n h = slice-overwrite_past xs ys j n (omega arith)

  slice_cons_zero : (x : A) (xs : List A) (n : ℕ) → slice (x ∷ xs) 0 (suc n) ≡ x ∷ slice xs 0 n
  slice_cons_zero x xs n = refl

  pub slice-blit_other :
      (xs : List A) (i : ℕ) (ys : List A) (j n : ℕ)
      → (j + n ≤ i) ⊎ (i + length ys ≤ j)
      → slice (blit xs i ys) j n ≡ slice xs j n
  slice-blit_other xs zero ys zero zero h = refl
  slice-blit_other xs zero ys zero (suc n) (inl h) = absurd (omega arith)
  slice-blit_other xs zero [] zero (suc n) (inr h) = slice-overwrite_past xs [] 0 (suc n) h
  slice-blit_other xs zero (y ∷ ys) zero (suc n) (inr h) = absurd (omega arith)
  slice-blit_other xs zero ys (suc j) n (inl h) = absurd (omega arith)
  slice-blit_other xs zero ys (suc j) n (inr h) = slice-overwrite_past xs ys (suc j) n (omega arith)
  slice-blit_other [] (suc i) ys j n h = refl
  slice-blit_other (x ∷ xs) (suc i) ys zero zero h = refl
  slice-blit_other (x ∷ xs) (suc i) ys zero (suc n) (inl h) =
      ap (λ l. x ∷ l) (slice-blit_other xs i ys 0 n (inl (omega arith)))
  slice-blit_other (x ∷ xs) (suc i) ys zero (suc n) (inr h) = absurd (omega arith)
  slice-blit_other (x ∷ xs) (suc i) ys (suc j) n (inl h) =
      slice-blit_other xs i ys j n (inl (omega arith))
  slice-blit_other (x ∷ xs) (suc i) ys (suc j) n (inr h) =
      slice-blit_other xs i ys j n (inr (omega arith))
