-- ===== src/Cdrom/Ecc/Generate.antt =====
-- cdrom_file::ecc_verify after cdrom_file::ecc_generate.
use libchdman_rs.Prelude.{
  ℕ, suc, ◌+◌, ◌*◌, ◌≡◌, ◌<◌, ◌≤◌, refl, ap, ◌∙◌, sym, Bool, true, false, not, ◌&&◌, ◌||◌, List, [],
  ◌∷◌, ◌⊎◌, inl, inr, if◌then◌else◌, ◌==◌, ==_iff, length, arith,
}
use libchdman_rs.Bytes.{Buffer, byte}
use libchdman_rs.Cdrom.Ecc.{
  compute_bytes, compute_in_place, verify_rows, generate_rows, ecc_verify, ecc_generate,
}
use libchdman_rs.Cdrom.Ecc.Poffsets.{poffsets}
use libchdman_rs.Cdrom.Ecc.Qoffsets.{qoffsets}
use libchdman_rs.Cdrom.Ecc.InPlace.{
  below, Agree, compute_bytes-Agree, Differs, compute_in_place-Differs,
}

abbrev pub all_below : ℕ → List (List ℕ) → Bool
all_below bound [] = true
all_below bound (row ∷ rows) = below bound row && all_below bound rows

-- The bytes that the rows from number `n` on do not write.
abbrev pub Kept : ℕ → ℕ → ℕ → ℕ → ℕ → Type 0
Kept base count n rows k =
    (k < base + n)
    ⊎ ((base + n + rows ≤ k) × (k < base + count + n))
    ⊎ (base + count + n + rows ≤ k)

abbrev test : ℕ × ℕ → ℕ → ℕ → Bool → Bool
test v b1 b2 rest = if not (b1 == v.0) || not (b2 == v.1) then false else rest

module _ (base count : ℕ) (mode : 15 < base) where
  pub row-Differs :
      (n : ℕ) (s : Buffer) (row : List ℕ)
      → n < count
      → base + 2 * count ≤ length s
      → below base row ≡ true
      → Differs
          (base + n)
          (base + count + n)
          s
          (compute_in_place s row (base + n) (base + count + n))
          (compute_bytes s row)
  row-Differs n s row small inside low =
      compute_in_place-Differs base (base + n) (base + count + n) mode (omega arith) (omega arith)
        (λ e. omega (arith, e, small)) s (omega (arith, small, inside))
        (omega (arith, small, inside)) row low

  pub length-generate_rows :
      (n : ℕ) (s : Buffer) (rows : List (List ℕ))
      → n + length rows ≤ count
      → base + 2 * count ≤ length s
      → all_below base rows ≡ true
      → length (generate_rows base count n s rows) ≡ length s
  unfolding generate_rows
  length-generate_rows n s [] small inside low = refl
  length-generate_rows n s (row ∷ rows) small inside low =
      let d = row-Differs n s row (omega (arith, small)) inside (ground (arith, low)) in
      length-generate_rows (suc n) (compute_in_place s row (base + n) (base + count + n)) rows
        (omega (arith, small)) (omega (arith, inside, d.same_length)) (ground (arith, low))
      ∙ d.same_length

  pub generate_rows-Kept :
      (n : ℕ) (s : Buffer) (rows : List (List ℕ)) (k : ℕ)
      → n + length rows ≤ count
      → base + 2 * count ≤ length s
      → all_below base rows ≡ true
      → Kept base count n (length rows) k
      → byte (generate_rows base count n s rows) k ≡ byte s k
  unfolding generate_rows
  generate_rows-Kept n s [] k small inside low kept = refl
  generate_rows-Kept n s (row ∷ rows) k small inside low kept =
      let d = row-Differs n s row (omega (arith, small)) inside (ground (arith, low)) in
      generate_rows-Kept (suc n) (compute_in_place s row (base + n) (base + count + n)) rows k
        (omega (arith, small)) (omega (arith, inside, d.same_length)) (ground (arith, low))
        (ground (arith, kept, small))
      ∙ d.rest k (ground (arith, kept, small)) (ground (arith, kept, small))

  verify_rows-generate_rows :
      (n : ℕ) (s : Buffer) (rows : List (List ℕ))
      → n + length rows ≤ count
      → base + 2 * count ≤ length s
      → all_below base rows ≡ true
      → verify_rows base count n (generate_rows base count n s rows) rows ≡ true
  unfolding verify_rows generate_rows
  verify_rows-generate_rows n s [] small inside low = refl
  verify_rows-generate_rows n s (row ∷ rows) small inside low =
      let i : ℕ = base + n in
      let j : ℕ = base + count + n in
      let d = row-Differs n s row (omega (arith, small)) inside (ground (arith, low)) in
      let s1 : Buffer = compute_in_place s row i j in
      let t : Buffer = generate_rows base count (suc n) s1 rows in
      let small' : suc n + length rows ≤ count = omega (arith, small) in
      let inside' : base + 2 * count ≤ length s1 = omega (arith, inside, d.same_length) in
      let low' : all_below base rows ≡ true = ground (arith, low) in
      let kept : (k : ℕ) → Kept base count (suc n) (length rows) k → byte t k ≡ byte s1 k =
        λ k h. generate_rows-Kept (suc n) s1 rows k small' inside' low' h in
      let same : Agree base t s =
        λ k h. kept k (ground (arith, h)) ∙ d.rest k (omega (arith, h)) (omega (arith, h)) in
      let values : compute_bytes t row ≡ compute_bytes s row =
        compute_bytes-Agree base t s row mode (ground (arith, low)) same in
      let at_i : byte t i ≡ (compute_bytes t row).0 =
        kept i (ground (arith, small)) ∙ d.at_i ∙ ap (λ v. v.0) (sym values) in
      let at_j : byte t j ≡ (compute_bytes t row).1 =
        kept j (ground (arith, small)) ∙ d.at_j ∙ ap (λ v. v.1) (sym values) in
      rw ((==_iff _ _).1 at_i, (==_iff _ _).1 at_j)
        (verify_rows-generate_rows (suc n) s1 rows small' inside' low')

  verify_rows-Agree :
      (bound n : ℕ) (s t : Buffer) (rows : List (List ℕ))
      → n + length rows ≤ count
      → base + 2 * count ≤ bound
      → all_below bound rows ≡ true
      → Agree bound s t
      → verify_rows base count n s rows ≡ verify_rows base count n t rows
  unfolding verify_rows
  verify_rows-Agree bound n s t [] small inside low same = refl
  verify_rows-Agree bound n s t (row ∷ rows) small inside low same =
      let values : compute_bytes s row ≡ compute_bytes t row =
        compute_bytes-Agree bound s t row (omega (arith, mode, inside)) (ground (arith, low))
          same in
      let rest =
        verify_rows-Agree bound (suc n) s t rows (omega (arith, small)) inside (ground (arith, low))
          same in
      let at_i = same (base + n) (omega (arith, small, inside)) in
      let at_j = same (base + count + n) (omega (arith, small, inside)) in
      ap
        (λ v.
          test v (byte s (base + n)) (byte s (base + count + n))
            (verify_rows base count (suc n) s rows))
        values
      ∙ ap
          (λ b.
            test (compute_bytes t row) b (byte s (base + count + n))
              (verify_rows base count (suc n) s rows))
          at_i
      ∙ ap
          (λ b.
            test (compute_bytes t row) (byte t (base + n)) b
              (verify_rows base count (suc n) s rows))
          at_j
      ∙ ap (test (compute_bytes t row) (byte t (base + n)) (byte t (base + count + n))) rest

pub poffsets_below : all_below 2076 poffsets ≡ true
unfolding poffsets
poffsets_below = refl

poffsets_lower : all_below 2248 poffsets ≡ true
unfolding poffsets
poffsets_lower = refl

pub qoffsets_below : all_below 2248 qoffsets ≡ true
unfolding qoffsets
qoffsets_below = refl

pub poffsets_number : 0 + length poffsets ≤ 86
unfolding poffsets
poffsets_number = omega arith

pub qoffsets_number : 0 + length qoffsets ≤ 52
unfolding qoffsets
qoffsets_number = omega arith

outside_rows :
    (base count rows k : ℕ)
    → 0 + rows ≤ count
    → 2076 ≤ base
    → base + 2 * count ≤ 2352
    → (k < 2076) ⊎ (2352 ≤ k)
    → Kept base count 0 rows k
outside_rows base count rows k fit front back (inl h) = inl (omega (arith, h, front))
outside_rows base count rows k fit front back (inr h) = inr (inr (omega (arith, h, fit, back)))

both : (a b : Bool) → a ≡ true → b ≡ true → (if a then b else false) ≡ true
both a b p q = rw p q

verified : (sector : Buffer) → 2352 ≤ length sector → ecc_verify (ecc_generate sector) ≡ true
unfolding ecc_verify ecc_generate
verified sector whole =
    let p : Buffer = generate_rows 2076 86 0 sector poffsets in
    let q : Buffer = generate_rows 2248 52 0 p qoffsets in
    let longer : length p ≡ length sector =
      length-generate_rows 2076 86 (omega arith) 0 sector poffsets poffsets_number
        (omega (arith, whole)) poffsets_below in
    let kept : Agree 2248 q p = λ k h.
      generate_rows-Kept 2248 52 (omega arith) 0 p qoffsets k qoffsets_number
        (omega (arith, whole, longer)) qoffsets_below (inl (omega (arith, h))) in
    let first : verify_rows 2076 86 0 q poffsets ≡ true =
      verify_rows-Agree 2076 86 (omega arith) 2248 0 q p poffsets poffsets_number (omega arith)
        poffsets_lower kept
      ∙ verify_rows-generate_rows 2076 86 (omega arith) 0 sector poffsets poffsets_number
          (omega (arith, whole)) poffsets_below in
    both _ _ first (
      verify_rows-generate_rows 2248 52 (omega arith) 0 p qoffsets qoffsets_number
        (omega (arith, whole, longer)) qoffsets_below)

kept_data :
    (sector : Buffer) (k : ℕ)
    → 2352 ≤ length sector
    → (k < 2076) ⊎ (2352 ≤ k)
    → byte (ecc_generate sector) k ≡ byte sector k
unfolding ecc_generate
kept_data sector k whole outside =
    let p : Buffer = generate_rows 2076 86 0 sector poffsets in
    let longer : length p ≡ length sector =
      length-generate_rows 2076 86 (omega arith) 0 sector poffsets poffsets_number
        (omega (arith, whole)) poffsets_below in
    generate_rows-Kept 2248 52 (omega arith) 0 p qoffsets k qoffsets_number
      (omega (arith, whole, longer)) qoffsets_below
      (outside_rows 2248 52 (length qoffsets) k qoffsets_number (omega arith) (omega arith) outside)
    ∙ generate_rows-Kept 2076 86 (omega arith) 0 sector poffsets k poffsets_number
        (omega (arith, whole)) poffsets_below
        (outside_rows 2076 86 (length poffsets) k poffsets_number (omega arith) (omega arith)
          outside)

-- For a sector of 2352 bytes or more, ecc_verify accepts what ecc_generate makes of it, and
-- ecc_generate changes no byte below 2076 or from 2352 on.
pub ecc_verify-ecc_generate :
    (sector : Buffer)
    → 2352 ≤ length sector
    → (ecc_verify (ecc_generate sector) ≡ true)
      × ((k : ℕ) → (k < 2076) ⊎ (2352 ≤ k) → byte (ecc_generate sector) k ≡ byte sector k)
ecc_verify-ecc_generate sector whole = (verified sector whole, λ k. kept_data sector k whole)
