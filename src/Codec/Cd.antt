-- ===== src/Codec/Cd.antt =====
-- mame-chd-src/src/lib/util/chdcodec.cpp: chd_cd_compressor and chd_cd_decompressor, the front end of the
-- codecs for CDs. A frame of 2448 bytes is a sector of 2352 and subcode of 96; the sectors and the
-- subcode of a hunk are compressed apart, the sectors without what can be computed again.
pub mod Bits
pub mod Sector
pub mod RoundTrip
pub mod Hunk
pub mod Tests
use Prim.Native.Nat.{bit_and, bit_or}
use libchdman_rs.Prelude.{
  ℕ, zero, suc, ◌+◌, ◌-◌, ◌*◌, ◌/◌, ◌%◌, ◌^◌, Bool, true, false, not, ◌&&◌, ◌||◌, List, [], ◌∷◌,
  ◌++◌, if◌then◌else◌, ltb, leb, ◌==◌, length, slice, blit, take, drop, replicate,
}
use libchdman_rs.Bytes.{Buffer, byte, get_u16be, get_u24be, put_u16be, put_u24be}
use libchdman_rs.Errors.{Result, ok, err, chd, compression_error}
use libchdman_rs.Cdrom.Ecc.{put, ecc_verify, ecc_generate, ecc_clear}
use libchdman_rs.Codec.{Coder}

abbrev pub cd_sync_header : Buffer
cd_sync_header = 0 ∷ 255 ∷ 255 ∷ 255 ∷ 255 ∷ 255 ∷ 255 ∷ 255 ∷ 255 ∷ 255 ∷ 255 ∷ 0 ∷ []

-- memcmp(a, b, n) == 0 for the n bytes of b.
unfoldable pub same_bytes : Buffer → Buffer → Bool
same_bytes a [] = true
same_bytes [] (y ∷ b) = false
same_bytes (x ∷ a) (y ∷ b) = x == y && same_bytes a b

-- The bit of a frame in the header.
unfoldable pub set_bit : Buffer → ℕ → Buffer
set_bit dest framenum =
    put dest (framenum / 8) (bit_or (byte dest (framenum / 8)) (2 ^ (framenum % 8)))

unfoldable pub test_bit : Buffer → ℕ → Bool
test_bit src framenum = not (bit_and (byte src (framenum / 8)) (2 ^ (framenum % 8)) == 0)

-- Whether the sync header and the codes of a sector can be computed again, and the sector without them.
unfoldable pub can_clear : Buffer → Bool
can_clear sector = same_bytes sector cd_sync_header && ecc_verify sector

unfoldable pub cleared : Buffer → Buffer
cleared sector = ecc_clear (blit sector 0 (replicate 12 0))

unfoldable pub reconstituted : Buffer → Buffer
reconstituted sector = ecc_generate (blit sector 0 cd_sync_header)

-- The loop of compress over the frames from number `framenum` on: the sectors and the subcode in m_buffer,
-- and the header. `src` is the data from the frame on.
unfoldable pub compress_loop : ℕ → ℕ → Buffer → Buffer → Buffer × Buffer × Buffer
unfolding can_clear cleared set_bit
compress_loop zero framenum src dest = ([], [], dest)
compress_loop (suc frames) framenum src dest =
    let sector = slice src 0 2352 in
    let subcode = slice src 2352 96 in
    let clear = can_clear sector in
    let (sectors, subcodes, dest') =
      compress_loop frames (suc framenum) (drop 2448 src)
        (if clear then set_bit dest framenum else dest) in
    ((if clear then cleared sector else sector) ++ sectors, subcode ++ subcodes, dest')

-- The number of bytes of the compressed length.
abbrev pub complen_bytes : ℕ → ℕ
complen_bytes srclen = if ltb srclen 65536 then 2 else 3

abbrev pub ecc_bytes : ℕ → ℕ
ecc_bytes frames = (frames + 7) / 8

abbrev pub put_complen : ℕ → ℕ → Buffer
put_complen srclen complen =
    if ltb 2 (complen_bytes srclen) then put_u24be complen else put_u16be complen

unfoldable pub compress : Coder → Coder → Buffer → Result Buffer
unfolding compress_loop put_u16be put_u24be
compress base subcode src =
    let srclen = length src in
    let frames = srclen / 2448 in
    let (sectors, subcodes, header) = compress_loop frames 0 src (replicate (ecc_bytes frames) 0) in
    elim (base.compress sectors) [
      | err e ↦ err e
      | ok packed ↦
          if leb srclen (length packed)
          then err (chd compression_error)
          else elim (subcode.compress subcodes) [
            | err e ↦ err e
            | ok packed_subcode ↦
                ok (header ++ (put_complen srclen (length packed) ++ (packed ++ packed_subcode)))
          ]
    ]

-- The loop of decompress that puts the frames together again.
unfoldable pub decompress_loop : ℕ → ℕ → Buffer → Buffer → Buffer → Buffer
unfolding test_bit reconstituted
decompress_loop zero framenum src sectors subcodes = []
decompress_loop (suc frames) framenum src sectors subcodes =
    let sector = slice sectors 0 2352 in
    let rest = decompress_loop frames (suc framenum) src (drop 2352 sectors) (drop 96 subcodes) in
    (if test_bit src framenum then reconstituted sector else sector)
    ++ (slice subcodes 0 96 ++ rest)

abbrev pub get_complen : ℕ → Buffer → ℕ
get_complen destlen b = if ltb 2 (complen_bytes destlen) then get_u24be b else get_u16be b

-- complen - complen_base - header_bytes in 32 bits. Nothing checks that it is not below 0; a slice stops at
-- the end of the data, where the code reads on.
abbrev pub remaining : ℕ → ℕ → ℕ → ℕ
remaining complen complen_base header_bytes =
    (complen + 2 ^ 33 - complen_base - header_bytes) % 2 ^ 32

unfoldable pub decompress : Coder → Coder → Buffer → ℕ → Result Buffer
unfolding decompress_loop get_u16be get_u24be
decompress base subcode src destlen =
    let frames = destlen / 2448 in
    let header_bytes = ecc_bytes frames + complen_bytes destlen in
    let complen_base = get_complen destlen (drop (ecc_bytes frames) src) in
    let rest = remaining (length src) complen_base header_bytes in
    elim (base.decompress (slice src header_bytes complen_base) (frames * 2352)) [
      | err e ↦ err e
      | ok sectors ↦
          elim (subcode.decompress (slice src (header_bytes + complen_base) rest) (frames * 96)) [
            | err e ↦ err e
            | ok subcodes ↦ ok (decompress_loop frames 0 src sectors subcodes)
          ]
    ]
