-- ===== src/Cdrom/Ecc/Restore.antt =====
-- cdrom_file::ecc_generate after cdrom_file::ecc_clear, on a sector that cdrom_file::ecc_verify accepts.
use libchdman_rs.Prelude.{
  ℕ, suc, ◌+◌, ◌*◌, ◌≡◌, ◌<◌, ◌≤◌, refl, ap, ◌∙◌, sym, Bool, true, false, not, ◌||◌, List, [], ◌∷◌,
  ◌⊎◌, inl, inr, if◌then◌else◌, ==_iff, length, arith,
}
use libchdman_rs.Bytes.{Buffer, byte}
use libchdman_rs.Cdrom.Ecc.{
  compute_bytes, compute_in_place, verify_rows, generate_rows, ecc_verify, ecc_generate,
}
use libchdman_rs.Cdrom.Ecc.Poffsets.{poffsets}
use libchdman_rs.Cdrom.Ecc.Qoffsets.{qoffsets}
use libchdman_rs.Cdrom.Ecc.InPlace.{Agree, compute_bytes-Agree}
use libchdman_rs.Cdrom.Ecc.Generate.{
  Kept, all_below, row-Differs, generate_rows-Kept, length-generate_rows, poffsets_below,
  qoffsets_below, poffsets_number, qoffsets_number,
}

-- Two sectors of the same length with the same bytes are the same.
pub byte_ext :
    (xs ys : Buffer)
    → length xs ≡ length ys
    → ((k : ℕ) → k < length xs → byte xs k ≡ byte ys k)
    → xs ≡ ys
byte_ext [] [] h same = refl
byte_ext [] (y ∷ ys) h same = absurd (omega (arith, h))
byte_ext (x ∷ xs) [] h same = absurd (omega (arith, h))
byte_ext (x ∷ xs) (y ∷ ys) h same =
    ap (λ z. z ∷ xs) (same 0 (omega arith))
    ∙ ap (λ zs. y ∷ zs)
        (byte_ext xs ys (omega (arith, h)) (λ k lt. same (suc k) (omega (arith, lt))))

-- The bytes that the rows from number `n` on write.
abbrev Wrote : ℕ → ℕ → ℕ → ℕ → ℕ → Type 0
Wrote base count n rows k =
    ((base + n ≤ k) × (k < base + n + rows))
    ⊎ ((base + count + n ≤ k) × (k < base + count + n + rows))

Wrote-cases :
    (base count n rows k : ℕ)
    → n + suc rows ≤ count
    → Wrote base count n (suc rows) k
    → (k ≡ base + n) ⊎ (k ≡ base + count + n) ⊎ Wrote base count (suc n) rows k
Wrote-cases base count n rows k small h = ground (arith, small, h)

all_three :
    (a b r : Bool)
    → (if not a || not b then false else r) ≡ true
    → (a ≡ true) × (b ≡ true) × (r ≡ true)
all_three a b r h = ground (arith, h)

-- What one row of verify_rows says.
verify_row :
    (base count n : ℕ) (s : Buffer) (row : List ℕ) (rows : List (List ℕ))
    → verify_rows base count n s (row ∷ rows) ≡ true
    → (byte s (base + n) ≡ (compute_bytes s row).0)
      × (byte s (base + count + n) ≡ (compute_bytes s row).1)
      × (verify_rows base count (suc n) s rows ≡ true)
unfolding verify_rows
verify_row base count n s row rows h =
    let (first, second, rest) = all_three _ _ _ h in
    ((==_iff _ _).0 first, (==_iff _ _).0 second, rest)

module _ (base count : ℕ) (mode : 15 < base) (s : Buffer) where
  -- From a sector with the same bytes below the codes, generate_rows makes the codes that verify_rows
  -- accepts.
  regenerated :
      (n : ℕ) (t : Buffer) (rows : List (List ℕ)) (k : ℕ)
      → n + length rows ≤ count
      → base + 2 * count ≤ length t
      → all_below base rows ≡ true
      → Agree base t s
      → verify_rows base count n s rows ≡ true
      → Wrote base count n (length rows) k
      → byte (generate_rows base count n t rows) k ≡ byte s k
  unfolding generate_rows
  regenerated n t [] k small inside low same valid wrote = absurd (ground (arith, wrote))
  regenerated n t (row ∷ rows) k small inside low same valid wrote =
      let i : ℕ = base + n in
      let j : ℕ = base + count + n in
      let d =
        row-Differs base count mode n t row (omega (arith, small)) inside (ground (arith, low)) in
      let t1 : Buffer = compute_in_place t row i j in
      let small' : suc n + length rows ≤ count = omega (arith, small) in
      let inside' : base + 2 * count ≤ length t1 = omega (arith, inside, d.same_length) in
      let low' : all_below base rows ≡ true = ground (arith, low) in
      let values : compute_bytes t row ≡ compute_bytes s row =
        compute_bytes-Agree base t s row mode (ground (arith, low)) same in
      let (at_i, at_j, rest) = verify_row base count n s row rows valid in
      let kept : (k : ℕ)
          → Kept base count (suc n) (length rows) k
          → byte (generate_rows base count (suc n) t1 rows) k ≡ byte t1 k =
        λ k h. generate_rows-Kept base count mode (suc n) t1 rows k small' inside' low' h in
      elim (Wrote-cases base count n (length rows) k small wrote) [
        | inl first ↦
            ap (byte (generate_rows base count (suc n) t1 rows)) first
            ∙ kept i (ground (arith, small))
            ∙ d.at_i
            ∙ ap (λ v. v.0) values
            ∙ sym at_i
            ∙ ap (byte s) (sym first)
        | inr (inl second) ↦
            ap (byte (generate_rows base count (suc n) t1 rows)) second
            ∙ kept j (ground (arith, small))
            ∙ d.at_j
            ∙ ap (λ v. v.1) values
            ∙ sym at_j
            ∙ ap (byte s) (sym second)
        | inr (inr later) ↦
            regenerated (suc n) t1 rows k small' inside' low'
              (λ m h. d.rest m (omega (arith, h)) (omega (arith, h)) ∙ same m h) rest later
      ]

poffsets_length : length poffsets ≡ 86
unfolding poffsets
poffsets_length = refl

qoffsets_length : length qoffsets ≡ 52
unfolding qoffsets
qoffsets_length = refl

both_hold : (a b : Bool) → (if a then b else false) ≡ true → (a ≡ true) × (b ≡ true)
both_hold a b h = ground (arith, h)

all_written :
    (base count rows k : ℕ)
    → rows ≡ count
    → base ≤ k
    → k < base + 2 * count
    → Wrote base count 0 rows k
all_written base count rows k h low high = ground (arith, h, low, high)

pub length-ecc_generate : (t : Buffer) → length t ≡ 2352 → length (ecc_generate t) ≡ 2352
unfolding ecc_generate
length-ecc_generate t whole =
    let longer : length (generate_rows 2076 86 0 t poffsets) ≡ length t =
      length-generate_rows 2076 86 (omega arith) 0 t poffsets poffsets_number (omega (arith, whole))
        poffsets_below in
    length-generate_rows 2248 52 (omega arith) 0 (generate_rows 2076 86 0 t poffsets) qoffsets
      qoffsets_number (omega (arith, whole, longer)) qoffsets_below
    ∙ longer
    ∙ whole

-- For a sector s of 2352 bytes that ecc_verify accepts, ecc_generate makes s of each sector of 2352
-- bytes that has the first 2076 bytes of s.
pub ecc_generate-restores :
    (s t : Buffer)
    → length s ≡ 2352
    → length t ≡ 2352
    → Agree 2076 t s
    → ecc_verify s ≡ true
    → ecc_generate t ≡ s
unfolding ecc_verify ecc_generate
ecc_generate-restores s t whole whole' same valid =
    let (valid_p, valid_q) =
      both_hold (verify_rows 2076 86 0 s poffsets) (verify_rows 2248 52 0 s qoffsets) valid in
    let p : Buffer = generate_rows 2076 86 0 t poffsets in
    let q : Buffer = generate_rows 2248 52 0 p qoffsets in
    let longer : length p ≡ length t =
      length-generate_rows 2076 86 (omega arith) 0 t poffsets poffsets_number
        (omega (arith, whole')) poffsets_below in
    let codes : (k : ℕ) → 2076 ≤ k → k < 2248 → byte p k ≡ byte s k = λ k low high.
      regenerated 2076 86 (omega arith) s 0 t poffsets k poffsets_number (omega (arith, whole'))
        poffsets_below same valid_p
        (all_written 2076 86 (length poffsets) k poffsets_length low (omega (arith, high))) in
    let front : (k : ℕ) → k < 2076 → byte p k ≡ byte s k = λ k low.
      generate_rows-Kept 2076 86 (omega arith) 0 t poffsets k poffsets_number
        (omega (arith, whole')) poffsets_below (inl (omega (arith, low)))
      ∙ same k low in
    let agree : Agree 2248 p s =
      λ k h. elim (split k 2076) [ inl low ↦ front k low | inr high ↦ codes k high h ] in
    byte_ext q s (length-ecc_generate t whole' ∙ sym whole) (λ k inside. elim (split k 2248) [
      | inl low ↦
          generate_rows-Kept 2248 52 (omega arith) 0 p qoffsets k qoffsets_number
            (omega (arith, whole', longer)) qoffsets_below (inl (omega (arith, low)))
          ∙ agree k low
      | inr high ↦
          regenerated 2248 52 (omega arith) s 0 p qoffsets k qoffsets_number
            (omega (arith, whole', longer)) qoffsets_below agree valid_q
            (all_written 2248 52 (length qoffsets) k qoffsets_length high
              (omega (arith, inside, length-ecc_generate t whole')))
    ])
  where
    split : (k n : ℕ) → (k < n) ⊎ (n ≤ k)
    split k n = ground arith
