-- ===== src/Cdrom/Ecc.antt =====
-- mame-chd-src/src/lib/util/cdrom.cpp: the error correction codes P and Q of a sector, cdrom_file::ecc_verify,
-- ecc_generate and ecc_clear.
pub mod Logs
pub mod Poffsets
pub mod Qoffsets
pub mod InPlace
pub mod Generate
pub mod Restore
use Prim.Native.Nat.{bit_xor}
use libchdman_rs.Prelude.{
  ℕ, zero, suc, ◌+◌, ◌-◌, ◌*◌, Bool, true, false, not, ◌&&◌, ◌||◌, List, [], ◌∷◌, if◌then◌else◌,
  ltb, ◌==◌, get_or, blit, replicate,
}
use libchdman_rs.Bytes.{Buffer, byte}
use Logs.{ecclow, ecchigh}
use Poffsets.{poffsets}
use Qoffsets.{qoffsets}

abbrev pub ecc_p_offset : ℕ
ecc_p_offset = 2076

abbrev pub ecc_p_num_bytes : ℕ
ecc_p_num_bytes = 86

abbrev pub ecc_q_offset : ℕ
ecc_q_offset = 2248

abbrev pub ecc_q_num_bytes : ℕ
ecc_q_num_bytes = 52

-- cdrom_file::ecc_source_byte.
unfoldable pub ecc_source_byte : Buffer → ℕ → ℕ
ecc_source_byte sector offset =
    if byte sector 15 == 2 && ltb offset 4 then 0 else byte sector (12 + offset)

unfoldable pub low : ℕ → ℕ
unfolding ecclow
low n = get_or ecclow n 0

unfoldable pub high : ℕ → ℕ
unfolding ecchigh
high n = get_or ecchigh n 0

-- cdrom_file::ecc_compute_bytes, where val1 and val2 are variables of the caller.
unfoldable pub compute_loop : Buffer → List ℕ → ℕ → ℕ → ℕ × ℕ
unfolding ecc_source_byte
compute_loop sector [] val1 val2 = (val1, val2)
compute_loop sector (offset ∷ row) val1 val2 =
    let source = ecc_source_byte sector offset in
    compute_loop sector row (low (bit_xor val1 source)) (bit_xor val2 source)

abbrev pub finish : ℕ × ℕ → ℕ × ℕ
finish (val1, val2) = let val = high (bit_xor (low val1) val2) in (val, bit_xor val2 val)

unfoldable pub compute_bytes : Buffer → List ℕ → ℕ × ℕ
unfolding compute_loop
compute_bytes sector row = finish (compute_loop sector row 0 0)

-- sector[i] = v.
abbrev pub put : Buffer → ℕ → ℕ → Buffer
put sector i v = blit sector i (v ∷ [])

-- cdrom_file::ecc_compute_bytes, where val1 and val2 are the bytes i and j of the sector itself.
unfoldable pub compute_step : ℕ → ℕ → Buffer → ℕ → Buffer
unfolding ecc_source_byte
compute_step i j sector offset =
    let s = put sector i (bit_xor (byte sector i) (ecc_source_byte sector offset)) in
    let s' = put s j (bit_xor (byte s j) (ecc_source_byte s offset)) in put s' i (low (byte s' i))

unfoldable pub compute_steps : ℕ → ℕ → Buffer → List ℕ → Buffer
unfolding compute_step
compute_steps i j sector [] = sector
compute_steps i j sector (offset ∷ row) = compute_steps i j (compute_step i j sector offset) row

unfoldable pub compute_in_place : Buffer → List ℕ → ℕ → ℕ → Buffer
unfolding compute_steps
compute_in_place sector row i j =
    let s = compute_steps i j (put (put sector j 0) i 0) row in
    let s' = put s i (high (bit_xor (low (byte s i)) (byte s j))) in
    put s' j (bit_xor (byte s' j) (byte s' i))

-- A loop of ecc_verify: the bytes from number `n` on of `count` at `base`.
unfoldable pub verify_rows : ℕ → ℕ → ℕ → Buffer → List (List ℕ) → Bool
unfolding compute_bytes
verify_rows base count n sector [] = true
verify_rows base count n sector (row ∷ rows) =
    let (val1, val2) = compute_bytes sector row in
    if not (byte sector (base + n) == val1) || not (byte sector (base + count + n) == val2)
    then false
    else verify_rows base count (suc n) sector rows

unfoldable pub ecc_verify : Buffer → Bool
unfolding verify_rows poffsets qoffsets
ecc_verify sector =
    if verify_rows ecc_p_offset ecc_p_num_bytes 0 sector poffsets
    then verify_rows ecc_q_offset ecc_q_num_bytes 0 sector qoffsets
    else false

-- A loop of ecc_generate.
unfoldable pub generate_rows : ℕ → ℕ → ℕ → Buffer → List (List ℕ) → Buffer
unfolding compute_in_place
generate_rows base count n sector [] = sector
generate_rows base count n sector (row ∷ rows) =
    generate_rows base count (suc n) (compute_in_place sector row (base + n) (base + count + n))
      rows

unfoldable pub ecc_generate : Buffer → Buffer
unfolding generate_rows poffsets qoffsets
ecc_generate sector =
    generate_rows ecc_q_offset ecc_q_num_bytes 0
      (generate_rows ecc_p_offset ecc_p_num_bytes 0 sector poffsets) qoffsets

-- cdrom_file::ecc_clear.
unfoldable pub ecc_clear : Buffer → Buffer
ecc_clear sector =
    blit (blit sector ecc_p_offset (replicate (2 * ecc_p_num_bytes) 0)) ecc_q_offset
      (replicate (2 * ecc_q_num_bytes) 0)
