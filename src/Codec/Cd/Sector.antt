-- ===== src/Codec/Cd/Sector.antt =====
-- chd_cd_compressor: a sector whose sync header and codes were cleared is made again.
use libchdman_rs.Prelude.{
  ℕ, zero, suc, ◌≡◌, ◌<◌, ◌≤◌, refl, ◌∙◌, true, [], ◌∷◌, ◌⊎◌, inl, inr, length, blit, overwrite,
  length-blit, replicate, arith,
}
use libchdman_rs.Bytes.{Buffer, byte}
use libchdman_rs.Cdrom.Ecc.{ecc_verify, ecc_clear}
use libchdman_rs.Cdrom.Ecc.Restore.{ecc_generate-restores}
use libchdman_rs.Codec.Cd.{cd_sync_header, same_bytes, can_clear, cleared, reconstituted}

byte-overwrite_past :
    (xs ys : Buffer) (k : ℕ) → length ys ≤ k → byte (overwrite xs ys) k ≡ byte xs k
byte-overwrite_past [] ys k h = refl
byte-overwrite_past (x ∷ xs) [] k h = refl
byte-overwrite_past (x ∷ xs) (y ∷ ys) zero h = absurd (omega (arith, h))
byte-overwrite_past (x ∷ xs) (y ∷ ys) (suc k) h = byte-overwrite_past xs ys k (omega (arith, h))

byte-blit_before :
    (xs : Buffer) (i : ℕ) (ys : Buffer) (k : ℕ) → k < i → byte (blit xs i ys) k ≡ byte xs k
byte-blit_before xs zero ys k h = absurd (omega (arith, h))
byte-blit_before [] (suc i) ys k h = refl
byte-blit_before (x ∷ xs) (suc i) ys zero h = refl
byte-blit_before (x ∷ xs) (suc i) ys (suc k) h = byte-blit_before xs i ys k (omega (arith, h))

-- The bytes of the header in a sector that begins with it.
byte-overwrite_same :
    (xs s h : Buffer) (k : ℕ)
    → same_bytes s h ≡ true
    → length xs ≡ length s
    → k < length h
    → byte (overwrite xs h) k ≡ byte s k
unfolding same_bytes
byte-overwrite_same xs s [] k same long lt = absurd (omega (arith, lt))
byte-overwrite_same xs [] (y ∷ h) k same long lt = absurd (ground (arith, same))
byte-overwrite_same [] (z ∷ s) (y ∷ h) k same long lt = absurd (omega (arith, long))
byte-overwrite_same (x ∷ xs) (z ∷ s) (y ∷ h) zero same long lt = ground (arith, same)
byte-overwrite_same (x ∷ xs) (z ∷ s) (y ∷ h) (suc k) same long lt =
    byte-overwrite_same xs s h k (ground (arith, same)) (omega (arith, long)) (omega (arith, lt))

length-ecc_clear : (s : Buffer) → length (ecc_clear s) ≡ length s
unfolding ecc_clear
length-ecc_clear s =
    length-blit (blit s 2076 (replicate 172 0)) 2248 (replicate 104 0)
    ∙ length-blit s 2076 (replicate 172 0)

byte-ecc_clear : (s : Buffer) (k : ℕ) → k < 2076 → byte (ecc_clear s) k ≡ byte s k
unfolding ecc_clear
byte-ecc_clear s k h =
    byte-blit_before (blit s 2076 (replicate 172 0)) 2248 (replicate 104 0) k (omega (arith, h))
    ∙ byte-blit_before s 2076 (replicate 172 0) k h

pub length-cleared : (s : Buffer) → length (cleared s) ≡ length s
unfolding cleared
length-cleared s = length-ecc_clear (blit s 0 (replicate 12 0)) ∙ length-blit s 0 (replicate 12 0)

split : (k n : ℕ) → (k < n) ⊎ (n ≤ k)
split k n = ground arith

-- What compress clears of a sector is what decompress computes again.
pub reconstituted-cleared :
    (s : Buffer) → length s ≡ 2352 → can_clear s ≡ true → reconstituted (cleared s) ≡ s
unfolding can_clear cleared reconstituted
reconstituted-cleared s whole can =
    let sync : same_bytes s cd_sync_header ≡ true = ground (arith, can) in
    let valid : ecc_verify s ≡ true = ground (arith, can) in
    let c : Buffer = ecc_clear (blit s 0 (replicate 12 0)) in
    let long : length c ≡ length s = length-cleared s in
    ecc_generate-restores s (blit c 0 cd_sync_header) whole
      (length-blit c 0 cd_sync_header ∙ long ∙ whole)
      (λ k h. elim (split k 12) [
        | inl front ↦ byte-overwrite_same c s cd_sync_header k sync long front
        | inr back ↦
            byte-overwrite_past c cd_sync_header k back
            ∙ byte-ecc_clear (blit s 0 (replicate 12 0)) k h
            ∙ byte-overwrite_past s (replicate 12 0) k back
      ])
      valid
