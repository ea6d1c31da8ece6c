-- ===== src/Codec/Cd/RoundTrip.antt =====
-- chd_cd_decompressor after chd_cd_compressor.
use libchdman_rs.Prelude.{
  ℕ, zero, suc, ◌+◌, ◌*◌, ◌/◌, ◌≡◌, ◌≢◌, ◌<◌, ◌≤◌, refl, ap, ◌∙◌, sym, Bool, true, false, [], ◌∷◌,
  ◌++◌, inl, inr, if◌then◌else◌, Bool-cases, length, length-append, length-drop, slice, take, drop,
  take-append-drop, drop-drop, length-slice, arith,
}
use libchdman_rs.Bytes.{Buffer}
use libchdman_rs.Codec.Cd.{
  set_bit, test_bit, can_clear, cleared, reconstituted, compress_loop, decompress_loop,
}
use libchdman_rs.Codec.Cd.Bits.{
  AllBytes, set_bit-AllBytes, length-set_bit, test_bit-set_bit, test_bit-set_bit_other,
}
use libchdman_rs.Codec.Cd.Sector.{length-cleared, reconstituted-cleared}

-- The header behind a frame, and the sector that m_buffer gets.
abbrev marked : Bool → Buffer → ℕ → Buffer
marked clear dest n = if clear then set_bit dest n else dest

abbrev kept_sector : Bool → Buffer → Buffer
kept_sector clear sector = if clear then cleared sector else sector

length-marked : (b : Bool) (dest : Buffer) (n : ℕ) → length (marked b dest n) ≡ length dest
length-marked true dest n = length-set_bit dest n
length-marked false dest n = refl

marked-AllBytes :
    (b : Bool) (dest : Buffer) (n : ℕ)
    → n / 8 < length dest
    → AllBytes dest
    → AllBytes (marked b dest n)
marked-AllBytes true dest n inside bytes = set_bit-AllBytes dest n inside bytes
marked-AllBytes false dest n inside bytes = bytes

marked_own :
    (b : Bool) (dest : Buffer) (n : ℕ)
    → n / 8 < length dest
    → AllBytes dest
    → test_bit dest n ≡ false
    → test_bit (marked b dest n) n ≡ b
marked_own true dest n inside bytes clear = test_bit-set_bit dest n inside bytes
marked_own false dest n inside bytes clear = clear

marked_other :
    (b : Bool) (dest : Buffer) (n m : ℕ)
    → n / 8 < length dest
    → AllBytes dest
    → m ≢ n
    → test_bit (marked b dest n) m ≡ test_bit dest m
marked_other true dest n m inside bytes apart = test_bit-set_bit_other dest n m inside bytes apart
marked_other false dest n m inside bytes apart = refl

length-kept_sector : (b : Bool) (s : Buffer) → length (kept_sector b s) ≡ length s
length-kept_sector true s = length-cleared s
length-kept_sector false s = refl

-- The header that the loop leaves.
abbrev pub header : ℕ → ℕ → Buffer → Buffer → Buffer
header k n src dest = (compress_loop k n src dest).2

abbrev step : ℕ → Buffer → Buffer → Buffer
step n src dest = marked (can_clear (slice src 0 2352)) dest n

pub length-header : (k n : ℕ) (src dest : Buffer) → length (header k n src dest) ≡ length dest
unfolding compress_loop
length-header zero n src dest = refl
length-header (suc k) n src dest =
    length-header k (suc n) (drop 2448 src) (step n src dest) ∙ length-marked _ dest n

header-earlier :
    (k n : ℕ) (src dest : Buffer) (m : ℕ)
    → n + k ≤ 8 * length dest
    → AllBytes dest
    → m < n
    → test_bit (header k n src dest) m ≡ test_bit dest m
unfolding compress_loop
header-earlier zero n src dest m room bytes before = refl
header-earlier (suc k) n src dest m room bytes before =
    let long = length-marked (can_clear (slice src 0 2352)) dest n in
    header-earlier k (suc n) (drop 2448 src) (step n src dest) m (omega (arith, room, long))
      (marked-AllBytes _ dest n (omega (arith, room)) bytes) (omega (arith, before))
    ∙ marked_other _ dest n m (omega (arith, room)) bytes (λ e. omega (arith, e, before))

take-length : (xs ys : Buffer) (n : ℕ) → length xs ≡ n → take n (xs ++ ys) ≡ xs
take-length [] ys zero h = refl
take-length [] ys (suc n) h = absurd (omega (arith, h))
take-length (x ∷ xs) ys zero h = absurd (omega (arith, h))
take-length (x ∷ xs) ys (suc n) h = ap (λ l. x ∷ l) (take-length xs ys n (omega (arith, h)))

pub drop-length : (xs ys : Buffer) (n : ℕ) → length xs ≡ n → drop n (xs ++ ys) ≡ ys
drop-length [] ys zero h = refl
drop-length [] ys (suc n) h = absurd (omega (arith, h))
drop-length (x ∷ xs) ys zero h = absurd (omega (arith, h))
drop-length (x ∷ xs) ys (suc n) h = drop-length xs ys n (omega (arith, h))

-- What decompress puts in place of a sector.
abbrev restored : Bool → Buffer → Buffer
restored b sector = if b then reconstituted sector else sector

restored-kept_sector :
    (s : Buffer) → length s ≡ 2352 → restored (can_clear s) (kept_sector (can_clear s) s) ≡ s
restored-kept_sector s whole = elim (Bool-cases (can_clear s)) [
  | inl can ↦ rw can (reconstituted-cleared s whole can)
  | inr cannot ↦ rw cannot refl
]

frame_parts : (src : Buffer) → slice src 0 2352 ++ (slice src 2352 96 ++ drop 2448 src) ≡ src
frame_parts src =
    ap (λ l. take 2352 src ++ (slice src 2352 96 ++ l)) (sym (drop-drop src 2352 96 2448 refl))
    ∙ ap (λ l. take 2352 src ++ l) (take-append-drop 96 (drop 2352 src))
    ∙ take-append-drop 2352 src

unfoldable pub sectors_of : ℕ → ℕ → Buffer → Buffer → Buffer
unfolding compress_loop
sectors_of k n src dest = (compress_loop k n src dest).0

unfoldable pub subcodes_of : ℕ → ℕ → Buffer → Buffer → Buffer
unfolding compress_loop
subcodes_of k n src dest = (compress_loop k n src dest).1

pub length-sectors_of :
    (k n : ℕ) (src dest : Buffer)
    → length src ≡ k * 2448
    → length (sectors_of k n src dest) ≡ k * 2352
unfolding compress_loop sectors_of
length-sectors_of zero n src dest h = refl
length-sectors_of (suc k) n src dest h =
    let sector : Buffer = slice src 0 2352 in
    omega (
      arith,
      length-append (kept_sector (can_clear sector) sector)
          (sectors_of k (suc n) (drop 2448 src) (step n src dest)),
      length-kept_sector (can_clear sector) sector,
      length-slice src 0 2352 (omega (arith, h)),
      length-sectors_of k (suc n) (drop 2448 src) (step n src dest)
          (omega (arith, h, length-drop 2448 src)),
    )

pub length-subcodes_of :
    (k n : ℕ) (src dest : Buffer)
    → length src ≡ k * 2448
    → length (subcodes_of k n src dest) ≡ k * 96
unfolding compress_loop subcodes_of
length-subcodes_of zero n src dest h = refl
length-subcodes_of (suc k) n src dest h = omega (
  arith,
  length-append (slice src 2352 96) (subcodes_of k (suc n) (drop 2448 src) (step n src dest)),
  length-slice src 2352 96 (omega (arith, h)),
  length-subcodes_of k (suc n) (drop 2448 src) (step n src dest)
      (omega (arith, h, length-drop 2448 src)),
)

-- decompress_loop puts together what compress_loop took apart.
pub loops :
    (k n : ℕ) (src dest out : Buffer)
    → length src ≡ k * 2448
    → n + k ≤ 8 * length dest
    → AllBytes dest
    → ((m : ℕ) → n ≤ m → test_bit dest m ≡ false)
    → ((m : ℕ) → m < n + k → test_bit out m ≡ test_bit (header k n src dest) m)
    → decompress_loop k n out (sectors_of k n src dest) (subcodes_of k n src dest) ≡ src
unfolding compress_loop decompress_loop sectors_of subcodes_of
loops zero n [] dest out long room bytes blank same = refl
loops zero n (x ∷ src) dest out long room bytes blank same = absurd (omega (arith, long))
loops (suc k) n src dest out long room bytes blank same =
    let sector : Buffer = slice src 0 2352 in
    let subcode : Buffer = slice src 2352 96 in
    let clear : Bool = can_clear sector in
    let dest' : Buffer = step n src dest in
    let src' : Buffer = drop 2448 src in
    let s' : Buffer = sectors_of k (suc n) src' dest' in
    let u' : Buffer = subcodes_of k (suc n) src' dest' in
    let whole : length sector ≡ 2352 = length-slice src 0 2352 (omega (arith, long)) in
    let kept : Buffer = kept_sector clear sector in
    let long_kept : length kept ≡ 2352 = length-kept_sector clear sector ∙ whole in
    let long_sub : length subcode ≡ 96 = length-slice src 2352 96 (omega (arith, long)) in
    let long' = length-marked clear dest n in
    let bytes' : AllBytes dest' = marked-AllBytes clear dest n (omega (arith, room)) bytes in
    let own : test_bit out n ≡ clear =
      same n (omega arith)
      ∙ header-earlier k (suc n) src' dest' n (omega (arith, room, long')) bytes' (omega arith)
      ∙ marked_own clear dest n (omega (arith, room)) bytes (blank n (omega arith)) in
    let rest : decompress_loop k (suc n) out s' u' ≡ src' =
      loops k (suc n) src' dest' out (omega (arith, long, length-drop 2448 src))
        (omega (arith, room, long')) bytes'
        (λ m h.
          marked_other clear dest n m (omega (arith, room)) bytes (λ e. omega (arith, e, h))
          ∙ blank m (omega (arith, h)))
        (λ m h. same m (omega (arith, h))) in
    ap
      (λ b.
        restored b (take 2352 (kept ++ s'))
        ++ (take 96 (subcode ++ u')
            ++ decompress_loop k (suc n) out (drop 2352 (kept ++ s')) (drop 96 (subcode ++ u'))))
      own
    ∙ ap
        (λ x.
          restored clear x
          ++ (take 96 (subcode ++ u')
              ++ decompress_loop k (suc n) out (drop 2352 (kept ++ s')) (drop 96 (subcode ++ u'))))
        (take-length kept s' 2352 long_kept)
    ∙ ap
        (λ x.
          x
          ++ (take 96 (subcode ++ u')
              ++ decompress_loop k (suc n) out (drop 2352 (kept ++ s')) (drop 96 (subcode ++ u'))))
        (restored-kept_sector sector whole)
    ∙ ap
        (λ x.
          sector
          ++ (x
              ++ decompress_loop k (suc n) out (drop 2352 (kept ++ s')) (drop 96 (subcode ++ u'))))
        (take-length subcode u' 96 long_sub)
    ∙ ap (λ x. sector ++ (subcode ++ decompress_loop k (suc n) out x (drop 96 (subcode ++ u'))))
        (drop-length kept s' 2352 long_kept)
    ∙ ap (λ x. sector ++ (subcode ++ decompress_loop k (suc n) out s' x))
        (drop-length subcode u' 96 long_sub)
    ∙ ap (λ x. sector ++ (subcode ++ x)) rest
    ∙ frame_parts src
