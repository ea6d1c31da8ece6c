-- ===== src/Codec/Cd/Hunk.antt =====
-- chd_cd_decompressor after chd_cd_compressor: a whole hunk.
use native.Mathlib.Nat.{mod-eq_of_lt}
use mathlib.Core.Path.{subst}
use libchdman_rs.Prelude.{
  ℕ, zero, suc, ◌+◌, ◌*◌, ◌/◌, ◌^◌, ◌≡◌, ◌<◌, ◌≤◌, refl, ap, ◌∙◌, sym, Bool, false, [], ◌∷◌, ◌++◌,
  ◌⊎◌, inl, inr, if◌then◌else◌, ltb, leb, Bool-cases, length, length-append, length-replicate,
  slice, drop, replicate, slice-append_back, slice-append_front, take_all, arith,
}
use libchdman_rs.Bytes.{Buffer, byte, put_u16be, put_u24be}
use libchdman_rs.Bytes.Laws.{get_u16be-put_u16be, get_u24be-put_u24be}
use libchdman_rs.Errors.{Result, ErrorCondition, ok, err, chd, compression_error}
use libchdman_rs.Codec.{Coder}
use libchdman_rs.Codec.Cd.{
  test_bit, complen_bytes, ecc_bytes, put_complen, get_complen, compress, decompress_loop,
  decompress, remaining,
}
use libchdman_rs.Codec.Cd.Bits.{test_bit-same, test_bit_zero}
use libchdman_rs.Codec.Cd.RoundTrip.{
  header, sectors_of, subcodes_of, length-header, length-sectors_of, length-subcodes_of, loops,
  drop-length,
}

-- What a codec without loss promises.
abbrev pub Lossless : Coder → Type 0
Lossless c = (x y : Buffer) → c.compress x ≡ ok y → c.decompress y (length x) ≡ ok x

Result-cases :
    (r : Result Buffer) → ((b : Buffer) × (r ≡ ok b)) ⊎ ((e : ErrorCondition) × (r ≡ err e))
Result-cases (ok b) = inl (b, refl)
Result-cases (err e) = inr (e, refl)

failed : {A : Type 0} → (e : ErrorCondition) (b : Buffer) → Path (Result Buffer) (err e) (ok b) → A
failed e b h = absurd (subst (λ (r : Result Buffer). elim r [ ok x ↦ ⊥ | err x ↦ Unit {0} ]) h tt)

delivered : (x y : Buffer) → Path (Result Buffer) (ok x) (ok y) → x ≡ y
delivered x y h = ap (λ (r : Result Buffer). elim r [ ok z ↦ z | err e ↦ [] ]) h

byte-replicate : (n k : ℕ) → byte (replicate n 0) k ≡ 0
byte-replicate zero k = refl
byte-replicate (suc n) zero = refl
byte-replicate (suc n) (suc k) = byte-replicate n k

blank_bits : (n m : ℕ) → test_bit (replicate n 0) m ≡ false
blank_bits n m = test_bit_zero (replicate n 0) m (byte-replicate n (m / 8))

byte-append : (xs ys : Buffer) (k : ℕ) → k < length xs → byte (xs ++ ys) k ≡ byte xs k
byte-append [] ys k h = absurd (omega (arith, h))
byte-append (x ∷ xs) ys zero h = refl
byte-append (x ∷ xs) ys (suc k) h = byte-append xs ys k (omega (arith, h))

length-put_complen : (srclen n : ℕ) → length (put_complen srclen n) ≡ complen_bytes srclen
unfolding put_u16be put_u24be
length-put_complen srclen n = elim (Bool-cases (ltb srclen 65536)) [
  | inl short ↦ rw short refl
  | inr long ↦ rw long refl
]

get_complen-put_complen :
    (srclen n : ℕ) (rest : Buffer)
    → n < srclen
    → srclen ≤ 2 ^ 24
    → get_complen srclen (put_complen srclen n ++ rest) ≡ n
get_complen-put_complen srclen n rest small fits = elim (Bool-cases (ltb srclen 65536)) [
  | inl short ↦ rw short (get_u16be-put_u16be n rest ∙ mod-eq_of_lt (ground (arith, short, small)))
  | inr long ↦ rw long (get_u24be-put_u24be n rest ∙ mod-eq_of_lt (omega (arith, small, fits)))
]

-- What compress gives where both codecs succeed.
abbrev packed_hunk : ℕ → Buffer → Buffer → Buffer → Buffer
packed_hunk frames src packed packed_subcode =
    header frames 0 src (replicate (ecc_bytes frames) 0)
    ++ (put_complen (length src) (length packed) ++ (packed ++ packed_subcode))

-- The two steps of decompress behind the decoding of the sectors and of the subcode.
abbrev with_subcodes : Buffer → ℕ → Buffer → Result Buffer → Result Buffer
with_subcodes out frames sectors r = elim r [
  | err e ↦ err e
  | ok subcodes ↦ ok (decompress_loop frames 0 out sectors subcodes)
]

abbrev with_sectors : Coder → Buffer → ℕ → ℕ → ℕ → Result Buffer → Result Buffer
with_sectors subcode out frames start count r = elim r [
  | err e ↦ err e
  | ok sectors ↦
      with_subcodes out frames sectors (subcode.decompress (slice out start count) (frames * 96))
]

abbrev with_frames : Coder → Coder → Buffer → ℕ → ℕ → Result Buffer
with_frames base subcode out destlen frames =
    let header_bytes = ecc_bytes frames + complen_bytes destlen in
    let complen_base = get_complen destlen (drop (ecc_bytes frames) out) in
    with_sectors subcode out frames (header_bytes + complen_base)
      (remaining (length out) complen_base header_bytes)
      (base.decompress (slice out header_bytes complen_base) (frames * 2352))

-- The steps of compress behind the codecs of the sectors and of the subcode.
abbrev after_subcode : ℕ → Buffer → Buffer → Result Buffer → Result Buffer
after_subcode frames src packed r = elim r [
  | err e ↦ err e
  | ok packed_subcode ↦ ok (packed_hunk frames src packed packed_subcode)
]

abbrev after_length : Coder → ℕ → Buffer → Buffer → Bool → Result Buffer
after_length subcode frames src packed long =
    if long
    then err (chd compression_error)
    else after_subcode frames src packed
        (subcode.compress (subcodes_of frames 0 src (replicate (ecc_bytes frames) 0)))

abbrev after_sectors : Coder → ℕ → Buffer → Result Buffer → Result Buffer
after_sectors subcode frames src r = elim r [
  | err e ↦ err e
  | ok packed ↦ after_length subcode frames src packed (leb (length src) (length packed))
]

abbrev compress_frames : Coder → Coder → Buffer → ℕ → Result Buffer
compress_frames base subcode src frames =
    after_sectors subcode frames src
      (base.compress (sectors_of frames 0 src (replicate (ecc_bytes frames) 0)))

-- decompress of what compress gives.
unpacked_hunk :
    (base subcode : Coder) (frames : ℕ) (src packed packed_subcode : Buffer)
    → length src ≡ frames * 2448
    → length src ≤ 2 ^ 24
    → length packed < length src
    → length (packed_hunk frames src packed packed_subcode) < 2 ^ 32
    → base.decompress packed (frames * 2352)
      ≡ ok (sectors_of frames 0 src (replicate (ecc_bytes frames) 0))
    → subcode.decompress packed_subcode (frames * 96)
      ≡ ok (subcodes_of frames 0 src (replicate (ecc_bytes frames) 0))
    → decompress base subcode (packed_hunk frames src packed packed_subcode) (length src) ≡ ok src
unfolding decompress
unpacked_hunk base subcode frames src packed packed_subcode whole fits small below sectors_back
      subcodes_back =
    let blank : Buffer = replicate (ecc_bytes frames) 0 in
    let h : Buffer = header frames 0 src blank in
    let c : Buffer = put_complen (length src) (length packed) in
    let out : Buffer = packed_hunk frames src packed packed_subcode in
    let frames_eq : length src / 2448 ≡ frames = omega (arith, whole) in
    let long_h : length h ≡ ecc_bytes frames =
      length-header frames 0 src blank ∙ length-replicate {A = ℕ} (ecc_bytes frames) 0 in
    let long_c : length c ≡ complen_bytes (length src) =
      length-put_complen (length src) (length packed) in
    let number : get_complen (length src) (drop (ecc_bytes frames) out) ≡ length packed =
      ap (get_complen (length src))
        (drop-length h (c ++ (packed ++ packed_subcode)) (ecc_bytes frames) long_h)
      ∙ get_complen-put_complen (length src) (length packed) (packed ++ packed_subcode) small
          fits in
    let front : ℕ = ecc_bytes frames + complen_bytes (length src) in
    let first : slice out front (length packed) ≡ packed =
      slice-append_back h (c ++ (packed ++ packed_subcode)) (complen_bytes (length src)) front
        (length packed) (omega (arith, long_h))
      ∙ slice-append_back c (packed ++ packed_subcode) 0 (complen_bytes (length src))
          (length packed) (omega (arith, long_c))
      ∙ slice-append_front packed packed_subcode 0 (length packed) (omega arith)
      ∙ take_all (length packed) packed (omega arith) in
    let rest : ℕ = remaining (length out) (length packed) front in
    let rest_eq : rest ≡ length packed_subcode = omega (
      arith,
      long_h,
      long_c,
      below,
      length-append h (c ++ (packed ++ packed_subcode)),
      length-append c (packed ++ packed_subcode),
      length-append packed packed_subcode,
    ) in
    let second : slice out (front + length packed) rest ≡ packed_subcode =
      slice-append_back h (c ++ (packed ++ packed_subcode))
        (complen_bytes (length src) + length packed) (front + length packed) rest
        (omega (arith, long_h))
      ∙ slice-append_back c (packed ++ packed_subcode) (length packed)
          (complen_bytes (length src) + length packed) rest (omega (arith, long_c))
      ∙ slice-append_back packed packed_subcode 0 (length packed) rest (omega arith)
      ∙ take_all rest packed_subcode (omega (arith, rest_eq)) in
    let again : decompress_loop frames 0 out (sectors_of frames 0 src blank)
          (subcodes_of frames 0 src blank)
        ≡ src =
      loops frames 0 src blank out whole
        (omega (arith, length-replicate {A = ℕ} (ecc_bytes frames) 0))
        (λ k. omega (arith, byte-replicate (ecc_bytes frames) k))
        (λ m low. blank_bits (ecc_bytes frames) m)
        (λ m lt.
          test_bit-same out h m (
            byte-append h (c ++ (packed ++ packed_subcode)) (m / 8) (omega (arith, lt, long_h)))) in
    ap (with_frames base subcode out (length src)) frames_eq
    ∙ ap
        (λ n.
          with_sectors subcode out frames (front + n) (remaining (length out) n front)
            (base.decompress (slice out front n) (frames * 2352)))
        number
    ∙ ap
        (λ x.
          with_sectors subcode out frames (front + length packed) rest
            (base.decompress x (frames * 2352)))
        first
    ∙ ap (with_sectors subcode out frames (front + length packed) rest) sectors_back
    ∙ ap
        (λ x.
          with_subcodes out frames (sectors_of frames 0 src blank)
            (subcode.decompress x (frames * 96)))
        second
    ∙ ap (with_subcodes out frames (sectors_of frames 0 src blank)) subcodes_back
    ∙ ap ok again

-- chd_cd_decompressor gives back each hunk of whole frames, of 2 ^ 24 bytes at most, that
-- chd_cd_compressor compresses to less than 2 ^ 32 bytes, where the codecs of the sectors and of
-- the subcode lose nothing.
pub decompress-compress :
    (base subcode : Coder) (frames : ℕ) (src out : Buffer)
    → Lossless base
    → Lossless subcode
    → length src ≡ frames * 2448
    → length src ≤ 2 ^ 24
    → compress base subcode src ≡ ok out
    → length out < 2 ^ 32
    → decompress base subcode out (length src) ≡ ok src
unfolding compress sectors_of subcodes_of
decompress-compress base subcode frames src out lossless lossless' whole fits done below =
    let blank : Buffer = replicate (ecc_bytes frames) 0 in
    let sectors : Buffer = sectors_of frames 0 src blank in
    let subcodes : Buffer = subcodes_of frames 0 src blank in
    let frames_eq : length src / 2448 ≡ frames = omega (arith, whole) in
    let done' : compress_frames base subcode src frames ≡ ok out =
      sym (ap (compress_frames base subcode src) frames_eq) ∙ done in
    elim (Result-cases (base.compress sectors)) [
      | inr (e, h) ↦ failed e out (sym (ap (after_sectors subcode frames src) h) ∙ done')
      | inl (packed, h) ↦
          let done1 : after_length subcode frames src packed (leb (length src) (length packed))
              ≡ ok out =
            sym (ap (after_sectors subcode frames src) h) ∙ done' in
          elim (Bool-cases (leb (length src) (length packed))) [
            | inl long ↦
                failed (chd compression_error) out
                  (sym (ap (after_length subcode frames src packed) long) ∙ done1)
            | inr short ↦
                let done2 : after_subcode frames src packed (subcode.compress subcodes) ≡ ok out =
                  sym (ap (after_length subcode frames src packed) short) ∙ done1 in
                elim (Result-cases (subcode.compress subcodes)) [
                  | inr (e, h') ↦
                      failed e out (sym (ap (after_subcode frames src packed) h') ∙ done2)
                  | inl (packed_subcode, h') ↦
                      let made : packed_hunk frames src packed packed_subcode ≡ out =
                        delivered (packed_hunk frames src packed packed_subcode) out
                          (sym (ap (after_subcode frames src packed) h') ∙ done2) in
                      ap (λ o. decompress base subcode o (length src)) (sym made)
                      ∙ unpacked_hunk base subcode frames src packed packed_subcode whole fits
                          (ground (arith, short)) (subst (λ o. length o < 2 ^ 32) (sym made) below)
                          (ap (base.decompress packed)
                              (sym (length-sectors_of frames 0 src blank whole))
                            ∙ lossless sectors packed h)
                          (ap (subcode.decompress packed_subcode)
                              (sym (length-subcodes_of frames 0 src blank whole))
                            ∙ lossless' subcodes packed_subcode h')
                ]
          ]
    ]
