-- ===== src/Chd/Header/RoundTrip.antt =====
-- chd_file::create_common and parse_v5_header: the header is read back.
use libchdman_rs.Prelude.{
  ℕ, ◌%◌, ◌^◌, ◌≡◌, ◌<◌, refl, ◌∙◌, false, not, some, [], ◌∷◌, ◌++◌, if◌then◌else◌, ◌==◌, ◌||◌,
  length, slice, take_all, arith,
}
use native.Mathlib.Nat.{mod-eq_of_lt}
use libchdman_rs.Bytes.{Buffer, get_u32be, get_u64be, put_u32be, put_u64be}
use libchdman_rs.Bytes.Laws.{get_u32be-put_u32be, get_u64be-put_u64be}
use libchdman_rs.Chd.Header.{Header, parsed, parse_v5_header, v5_header, v5_header_size, round_up}

abbrev pub written : ℕ → ℕ → ℕ → ℕ → ℕ → ℕ → ℕ → Buffer → Header
written c0 c1 c2 c3 logicalbytes hunkbytes unitbytes parent = record {
  m_logicalbytes = logicalbytes;
  m_mapoffset = if not (c0 == 0) then 0 else 124;
  m_metaoffset = 0;
  m_hunkbytes = hunkbytes;
  m_hunkcount = round_up logicalbytes hunkbytes % 2 ^ 32;
  m_unitbytes = unitbytes;
  m_unitcount = round_up logicalbytes unitbytes;
  m_compression = c0 ∷ c1 ∷ c2 ∷ c3 ∷ [];
  m_allow_writes = c0 == 0;
  m_mapoffset_offset = 40;
  m_metaoffset_offset = 48;
  m_sha1_offset = 84;
  m_rawsha1_offset = 64;
  m_parentsha1_offset = 104;
  m_mapentrybytes = if not (c0 == 0) then 12 else 4;
  parentsha1 = some parent;
}

word : (x : ℕ) (rest : Buffer) → x < 2 ^ 32 → get_u32be (put_u32be x ++ rest) ≡ x
word x rest h = get_u32be-put_u32be x rest ∙ mod-eq_of_lt h

long_word : (x : ℕ) (rest : Buffer) → x < 2 ^ 64 → get_u64be (put_u64be x ++ rest) ≡ x
long_word x rest h = get_u64be-put_u64be x rest ∙ mod-eq_of_lt h

-- The header that create_common writes, for codecs, a hunk size and a unit size that fit 32 bits, the
-- two sizes not 0, and a logical size that fits 64 bits, is parsed by parse_v5_header to exactly these
-- numbers, the codecs and the parent's SHA-1, with the map behind the header where the first codec is
-- none, and otherwise not yet written.
pub parse_v5_header-v5_header :
    (c0 c1 c2 c3 logicalbytes hunkbytes unitbytes : ℕ) (parent : Buffer)
    → c0 < 2 ^ 32
    → c1 < 2 ^ 32
    → c2 < 2 ^ 32
    → c3 < 2 ^ 32
    → logicalbytes < 2 ^ 64
    → 0 < hunkbytes
    → hunkbytes < 2 ^ 32
    → 0 < unitbytes
    → unitbytes < 2 ^ 32
    → length parent ≡ 20
    → parse_v5_header (v5_header c0 c1 c2 c3 logicalbytes hunkbytes unitbytes parent)
      ≡ parsed (written c0 c1 c2 c3 logicalbytes hunkbytes unitbytes parent)
unfolding parse_v5_header v5_header put_u32be put_u64be
parse_v5_header-v5_header c0 c1 c2 c3 logicalbytes hunkbytes unitbytes parent h0 h1 h2 h3 hl ph hh
      pu hu hp =
    let mapoffset : ℕ = if not (c0 == 0) then 0 else v5_header_size in
    let no_zero : (hunkbytes == 0) || (unitbytes == 0) ≡ false = ground (arith, ph, pu) in
    let sha : slice parent 0 20 ≡ parent = take_all 20 parent (omega (arith, hp)) in
    rw
      (
        word 124 _ (omega arith),
        word c0 _ h0,
        word c1 _ h1,
        word c2 _ h2,
        word c3 _ h3,
        long_word logicalbytes _ hl,
        long_word mapoffset _ (ground arith),
        long_word 0 _ (omega arith),
        word hunkbytes _ hh,
        word unitbytes _ hu,
        no_zero,
        sha,
      )
      refl
