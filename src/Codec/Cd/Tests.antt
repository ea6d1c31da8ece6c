-- ===== src/Codec/Cd/Tests.antt =====
-- The front end for CDs on one frame, and the codes put back by ecc_generate.
use libchdman_rs.Prelude.{
  ℕ, zero, suc, inl, ◌<◌, ◌∙◌, ◌+◌, ◌≡◌, refl, sym, ap, ◌++◌, ◌∷◌, replicate, arith,
}
use libchdman_rs.Bytes.{Buffer, byte}
use libchdman_rs.Errors.{ok}
use libchdman_rs.Codec.{Coder}
use libchdman_rs.Codec.Cd.{compress, decompress}
use libchdman_rs.Codec.Cd.Hunk.{decompress-compress}
use libchdman_rs.Cdrom.Ecc.{ecc_generate}
use libchdman_rs.Cdrom.Ecc.Restore.{ecc_generate-restores, length-ecc_generate}
use libchdman_rs.Cdrom.Ecc.Generate.{ecc_verify-ecc_generate}

-- A codec that stores.
abbrev stored : Coder
stored = record { compress = λ x. ok x; decompress = λ x n. ok x }

abbrev audio_frame : Buffer
audio_frame = replicate 2352 7 ++ replicate 96 3

abbrev audio_packed : Buffer
audio_packed = 0 ∷ 9 ∷ 48 ∷ audio_frame

decompress-compress_example : decompress stored stored audio_packed 2448 ≡ ok audio_frame
unfolding compress libchdman_rs.Codec.Cd.same_bytes
decompress-compress_example =
    decompress-compress stored stored 1 audio_frame audio_packed (λ x y h. sym h) (λ x y h. sym h)
      refl (omega arith) refl (omega arith)

abbrev sevens : Buffer
sevens = replicate 2352 7

abbrev damaged : Buffer
damaged = replicate 2076 7 ++ replicate 276 9

suc-plus : (n m : ℕ) → suc (n + m) ≡ suc n + m
suc-plus n m = omega arith

byte-front :
    (n m k : ℕ) (rest : Buffer)
    → k < n
    → byte (replicate n 7 ++ rest) k ≡ byte (replicate (n + m) 7) k
byte-front zero m k rest h = absurd (omega arith)
byte-front (suc n) m zero rest h = ap (λ x. byte (replicate x 7) 0) (suc-plus n m)
byte-front (suc n) m (suc k) rest h =
    byte-front n m k rest (omega (arith, h)) ∙ ap (λ x. byte (replicate x 7) (suc k)) (suc-plus n m)

ecc_generate-restores_example : ecc_generate damaged ≡ ecc_generate sevens
ecc_generate-restores_example =
    ecc_generate-restores (ecc_generate sevens) damaged (length-ecc_generate sevens refl) refl
      (λ k lt.
        let (valid, kept) = ecc_verify-ecc_generate sevens (omega arith) in
        byte-front 2076 276 k (replicate 276 9) lt ∙ sym (kept k (inl lt)))
      (let (valid, kept) = ecc_verify-ecc_generate sevens (omega arith) in valid)
