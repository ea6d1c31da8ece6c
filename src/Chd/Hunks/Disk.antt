-- ===== src/Chd/Hunks/Disk.antt =====
-- What the code relies on of the file behind a chd_file: it holds bytes, a read inside them delivers
-- them, and a write puts them there and extends the file where it runs past its end.
use libchdman_rs.Prelude.{
  ℕ, zero, suc, ◌+◌, ◌-◌, ◌≡◌, ◌≤◌, refl, ap, ◌∙◌, none, some, [], ◌∷◌, ◌++◌, ◌⊎◌, ◌==◌, ==_iff,
  true, length, length-append, length-replicate, replicate, slice, blit, length-blit,
  slice-blit_other, slice-blit_self, slice-append_front, length-slice, arith,
}
use libchdman_rs.Bytes.{Buffer}
use libchdman_rs.Errors.{ok}
use libchdman_rs.Chd.Hunks.{Device, File, file_read, file_write, file_append, pad_loop}

-- `ys` written over `xs` from index `i` on, past the end of `xs` where it is longer.
unfoldable pub write_over : Buffer → ℕ → Buffer → Buffer
write_over xs i ys = blit (xs ++ replicate (i + length ys - length xs) 0) i ys

pub length-write_over :
    (xs : Buffer) (i : ℕ) (ys : Buffer) (n : ℕ) → n ≤ length xs → n ≤ length (write_over xs i ys)
unfolding write_over
length-write_over xs i ys n h = omega (
  arith,
  length-blit (xs ++ replicate (i + length ys - length xs) 0) i ys,
  length-append xs (replicate (i + length ys - length xs) 0),
)

pub length-write_over_end :
    (xs : Buffer) (i : ℕ) (ys : Buffer) → i + length ys ≤ length (write_over xs i ys)
unfolding write_over
length-write_over_end xs i ys = omega (
  arith,
  length-blit (xs ++ replicate (i + length ys - length xs) 0) i ys,
  length-append xs (replicate (i + length ys - length xs) 0),
  length-replicate {A = ℕ} (i + length ys - length xs) 0,
)

pub length-write_over_inside :
    (xs : Buffer) (i : ℕ) (ys : Buffer)
    → i + length ys ≤ length xs
    → length (write_over xs i ys) ≡ length xs
unfolding write_over
length-write_over_inside xs i ys h = omega (
  arith,
  length-blit (xs ++ replicate (i + length ys - length xs) 0) i ys,
  length-append xs (replicate (i + length ys - length xs) 0),
  length-replicate {A = ℕ} (i + length ys - length xs) 0,
)

-- What was written is read back, and the rest is as it was.
pub slice-write_over :
    (xs : Buffer) (i : ℕ) (ys : Buffer) → slice (write_over xs i ys) i (length ys) ≡ ys
unfolding write_over
slice-write_over xs i ys = slice-blit_self (xs ++ replicate (i + length ys - length xs) 0) i ys (
    omega (
      arith,
      length-append xs (replicate (i + length ys - length xs) 0),
      length-replicate {A = ℕ} (i + length ys - length xs) 0,
    ))

pub slice-write_over_other :
    (xs : Buffer) (i : ℕ) (ys : Buffer) (j n : ℕ)
    → (j + n ≤ i) ⊎ (i + length ys ≤ j)
    → j + n ≤ length xs
    → slice (write_over xs i ys) j n ≡ slice xs j n
unfolding write_over
slice-write_over_other xs i ys j n apart inside =
    slice-blit_other (xs ++ replicate (i + length ys - length xs) 0) i ys j n apart
    ∙ slice-append_front xs (replicate (i + length ys - length xs) 0) j n inside

blit_end :
    (xs ys : Buffer) (n k : ℕ)
    → n ≡ length xs
    → k ≡ length ys
    → blit (xs ++ replicate k 0) n ys ≡ xs ++ ys
blit_end [] ys (suc n) k h e = absurd (omega arith)
blit_end (x ∷ xs) ys zero k h e = absurd (omega arith)
blit_end (x ∷ xs) ys (suc n) k h e = ap (λ zs. x ∷ zs) (blit_end xs ys n k (omega arith) e)
blit_end [] [] zero zero h e = refl
blit_end [] [] zero (suc k) h e = absurd (omega arith)
blit_end [] (y ∷ ys) zero zero h e = absurd (omega arith)
blit_end [] (y ∷ ys) zero (suc k) h e = ap (λ zs. y ∷ zs) (blit_end [] ys zero k refl (omega arith))

pub write_over_end : (xs ys : Buffer) → write_over xs (length xs) ys ≡ xs ++ ys
unfolding write_over
write_over_end xs ys =
    blit_end xs ys (length xs) (length xs + length ys - length xs) refl (omega arith)

-- The device does not fail, and `contents` are the bytes that it holds.
pub record Disk {S : Type 0} (device : Device S) (contents : S → Buffer) : Type 0 where
  pub reads :
      (o n : ℕ) (s : S)
      → o + n ≤ length (contents s)
      → device.read_at o n s ≡ (none, slice (contents s) o n)
  pub writes :
      (o : ℕ) (ys : Buffer) (s : S)
      → o ≤ length (contents s)
      → ((device.write_at o ys s).0 ≡ none)
        × (contents (device.write_at o ys s).1 ≡ write_over (contents s) o ys)
  pub sizes : (s : S) → device.size s ≡ ok (length (contents s))

module _ {S : Type 0} (device : Device S) (contents : S → Buffer) (disk : Disk device contents)
    (f : File S) (s : S) (opened : f.m_file ≡ some s) where
  pub file_read-slice :
      (o n : ℕ)
      → o + n ≤ length (contents s)
      → file_read device f o n ≡ (none, slice (contents s) o n)
  unfolding file_read
  file_read-slice o n h =
      let delivered = disk.reads o n s h in
      let full : (length (device.read_at o n s).1 == n) ≡ true =
        (==_iff _ n).1 (ap (λ r. length (r.1)) delivered ∙ length-slice (contents s) o n h) in
      rw (opened, file_read, ap (λ r. r.0) delivered, full) (ap (λ r. (none, r.1)) delivered)

  pub file_write-write_over :
      (o : ℕ) (ys : Buffer)
      → o ≤ length (contents s)
      → (t : S) × (file_write device f o ys ≡ (none, record f { m_file = some t }))
        × (contents t ≡ write_over (contents s) o ys)
  unfolding file_write
  file_write-write_over o ys h = (
    (device.write_at o ys s).1,
    rw (opened, file_write, (disk.writes o ys s h).0) refl,
    (disk.writes o ys s h).1,
  )

  pub file_append-append :
      (ys : Buffer)
      → (t : S) × (file_append device f ys 0
          ≡ (ok (length (contents s)), record f { m_file = some t }))
        × (contents t ≡ contents s ++ ys)
  unfolding file_append pad_loop
  file_append-append ys =
      let at_end : length (contents s) + 0 ≡ length (contents s) = omega arith in
      let fine = disk.writes (length (contents s) + 0) ys s (omega arith) in
      let t : S = (device.write_at (length (contents s) + 0) ys s).1 in
      (
        t,
        rw (opened, file_append, disk.sizes s, fine.0)
            (ap (λ n. (ok n, record f { m_file = some t })) at_end),
        fine.1 ∙ ap (λ n. write_over (contents s) n ys) at_end ∙ write_over_end (contents s) ys,
      )
