-- ===== src/Chd/Header.antt =====
-- mame-chd-src/src/lib/util/chd.cpp: parse_v3_header, parse_v4_header, parse_v5_header, and the header
-- that create_common writes.
pub mod RoundTrip
pub mod Checks
mod Tests
use libchdman_rs.Prelude.{
  ℕ, ◌+◌, ◌-◌, ◌*◌, ◌/◌, ◌%◌, ◌^◌, Bool, true, false, not, ◌&&◌, ◌||◌, Option, none, some, List, [],
  ◌∷◌, ◌++◌, if◌then◌else◌, ltb, ◌==◌, drop, slice, replicate, get_or,
}
use libchdman_rs.Bytes.{Buffer, get_u32be, get_u64be, put_u32be, put_u64be}
use libchdman_rs.Chd.Hunks.{codec_zlib}
use libchdman_rs.Errors.{
  ChdError, invalid_file, unknown_compression, unsupported_version, Status, chd, generic,
  invalid_argument,
}

-- What a header tells: the members of chd_file that the parsers set. `parentsha1` is none where the
-- parser leaves it as it was.
pub record Header : Type 0 where
  pub m_logicalbytes : ℕ
  pub m_mapoffset : ℕ
  pub m_metaoffset : ℕ
  pub m_hunkbytes : ℕ
  pub m_hunkcount : ℕ
  pub m_unitbytes : ℕ
  pub m_unitcount : ℕ
  pub m_compression : List ℕ
  pub m_allow_writes : Bool
  pub m_mapoffset_offset : ℕ
  pub m_metaoffset_offset : ℕ
  pub m_sha1_offset : ℕ
  pub m_rawsha1_offset : ℕ
  pub m_parentsha1_offset : ℕ
  pub m_mapentrybytes : ℕ
  pub parentsha1 : Option Buffer

-- A parser returns, or throws, or divides by zero.
pub data Parsed : Type 0 where
  parsed : Header → Parsed
  throws : ChdError → Parsed
  divides_by_zero : Parsed

abbrev pub v3_header_size : ℕ
v3_header_size = 120

abbrev pub v4_header_size : ℕ
v4_header_size = 108

abbrev pub v5_header_size : ℕ
v5_header_size = 124

abbrev pub codec_avhuff : ℕ
codec_avhuff = 1635149941

-- (total + unit - 1) / unit, in 64 bits, for a unit that is not 0.
unfoldable pub round_up : ℕ → ℕ → ℕ
round_up total unit = (total + unit - 1) % 2 ^ 64 / unit

-- The codec of the compression of a version 3 or 4 header.
unfoldable pub old_codec : ℕ → Option ℕ
old_codec n =
    if n == 0
    then some 0
    else if n == 1 || (n == 2)
    then some codec_zlib
    else if n == 3
    then some codec_avhuff
    else none

-- The common part of parse_v3_header and parse_v4_header, from the places in which they differ;
-- `unitbytes` is what guess_unitbytes gives.
unfoldable pub parse_old : ℕ → ℕ → ℕ → ℕ → ℕ → ℕ → ℕ → Buffer → Parsed
unfolding round_up old_codec
parse_old size hunkbytes_at mapoffset sha1 rawsha1 parent unitbytes raw =
    let flags = get_u32be (drop 16 raw) in
    let logicalbytes = get_u64be (drop 28 raw) in
    if not (get_u32be (drop 8 raw) == size)
    then throws invalid_file
    else elim (old_codec (get_u32be (drop 20 raw))) [
      | none ↦ throws unknown_compression
      | some codec ↦
          if unitbytes == 0
          then divides_by_zero
          else parsed (record {
            m_logicalbytes = logicalbytes;
            m_mapoffset = mapoffset;
            m_metaoffset = get_u64be (drop 36 raw);
            m_hunkbytes = get_u32be (drop hunkbytes_at raw);
            m_hunkcount = get_u32be (drop 24 raw);
            m_unitbytes = unitbytes;
            m_unitcount = round_up logicalbytes unitbytes;
            m_compression = codec ∷ 0 ∷ 0 ∷ 0 ∷ [];
            m_allow_writes = flags / 2 % 2 == 0;
            m_mapoffset_offset = 0;
            m_metaoffset_offset = 36;
            m_sha1_offset = sha1;
            m_rawsha1_offset = rawsha1;
            m_parentsha1_offset = parent;
            m_mapentrybytes = 16;
            parentsha1 = if flags % 2 == 1 then some (slice raw parent 20) else none;
          })
    ]

unfoldable pub parse_v3_header : ℕ → Buffer → Parsed
unfolding parse_old
parse_v3_header unitbytes raw = parse_old v3_header_size 76 120 80 0 100 unitbytes raw

unfoldable pub parse_v4_header : ℕ → Buffer → Parsed
unfolding parse_old
parse_v4_header unitbytes raw = parse_old v4_header_size 44 108 48 88 68 unitbytes raw

unfoldable pub parse_v5_header : Buffer → Parsed
unfolding round_up
parse_v5_header raw =
    let logicalbytes = get_u64be (drop 32 raw) in
    let hunkbytes = get_u32be (drop 56 raw) in
    let unitbytes = get_u32be (drop 60 raw) in
    let codec = get_u32be (drop 16 raw) in
    let header : Header = record {
      m_logicalbytes = logicalbytes;
      m_mapoffset = get_u64be (drop 40 raw);
      m_metaoffset = get_u64be (drop 48 raw);
      m_hunkbytes = hunkbytes;
      m_hunkcount = round_up logicalbytes hunkbytes % 2 ^ 32;
      m_unitbytes = unitbytes;
      m_unitcount = round_up logicalbytes unitbytes;
      m_compression =
          codec ∷ get_u32be (drop 20 raw) ∷ get_u32be (drop 24 raw) ∷ get_u32be (drop 28 raw) ∷ [];
      m_allow_writes = codec == 0;
      m_mapoffset_offset = 40;
      m_metaoffset_offset = 48;
      m_sha1_offset = 84;
      m_rawsha1_offset = 64;
      m_parentsha1_offset = 104;
      m_mapentrybytes = if not (codec == 0) then 12 else 4;
      parentsha1 = some (slice raw 104 20);
    } in
    if not (get_u32be (drop 8 raw) == v5_header_size)
    then throws invalid_file
    else if hunkbytes == 0 || (unitbytes == 0)
    then divides_by_zero
    else parsed header

-- "MComprHD".
abbrev pub magic : Buffer
magic = 77 ∷ 67 ∷ 111 ∷ 109 ∷ 112 ∷ 114 ∷ 72 ∷ 68 ∷ []

-- The header that create_common writes; `parent` is the SHA-1 of the parent, or zeros.
unfoldable pub v5_header : ℕ → ℕ → ℕ → ℕ → ℕ → ℕ → ℕ → Buffer → Buffer
v5_header c0 c1 c2 c3 logicalbytes hunkbytes unitbytes parent =
    magic
    ++ (put_u32be v5_header_size
        ++ (put_u32be 5
            ++ (put_u32be c0
                ++ (put_u32be c1
                    ++ (put_u32be c2
                        ++ (put_u32be c3
                            ++ (put_u64be logicalbytes
                                ++ (put_u64be (if not (c0 == 0) then 0 else v5_header_size)
                                    ++ (put_u64be 0
                                        ++ (put_u32be hunkbytes
                                            ++ (put_u32be unitbytes
                                                ++ (replicate 40 0 ++ parent))))))))))))

-- guess_unitbytes: `sector` is the number that the hard disk metadata tells, where there is such
-- metadata and it can be read, and `is_cd` tells whether there is metadata of a CD or GD track.
unfoldable pub guess_unitbytes : Option ℕ → Bool → ℕ → ℕ
guess_unitbytes (some bytes) is_cd hunkbytes = bytes
guess_unitbytes none true hunkbytes = 2448
guess_unitbytes none false hunkbytes = hunkbytes

-- The check of create_common of the compression types: none behind an empty slot, and each known.
unfoldable pub check_codecs : (ℕ → Bool) → Bool → List ℕ → Status
check_codecs codec_exists found_zero [] = none
check_codecs codec_exists found_zero (c ∷ cs) =
    let empty = check_codecs codec_exists true cs in
    let rest = check_codecs codec_exists found_zero cs in
    if c == 0
    then empty
    else if found_zero
    then some (generic invalid_argument)
    else if not (codec_exists c)
    then some (chd unknown_compression)
    else rest

-- The checks of create_common; `parent` is the version and the unit size of the parent, where there is
-- one. A unit size of 0 divides by zero: the program ends, and there is no result (none).
unfoldable pub create_checks : (ℕ → Bool) → Option (ℕ × ℕ) → ℕ → ℕ → List ℕ → Option Status
unfolding check_codecs
create_checks codec_exists parent hunkbytes unitbytes codecs =
    let old_parent : Bool = elim parent [ none ↦ false | some p ↦ ltb p.0 3 ] in
    let other_units : Bool = elim parent [ none ↦ false | some p ↦ not (unitbytes == p.1) ] in
    if old_parent
    then some (some (chd unsupported_version))
    else if unitbytes == 0
    then none
    else if not (hunkbytes % unitbytes == 0)
    then some (some (generic invalid_argument))
    else if other_units
    then some (some (generic invalid_argument))
    else some (check_codecs codec_exists false codecs)
