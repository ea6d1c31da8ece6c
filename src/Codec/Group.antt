-- ===== src/Codec/Group.antt =====
-- mame-chd-src/src/lib/util/chdcodec.cpp: the list of codecs, and chd_compressor_group, which compresses a
-- hunk with each compressor of a CHD and keeps the shortest result.
pub mod Best
pub mod Built
pub mod Tests
use libchdman_rs.Prelude.{
  ℕ, zero, suc, ◌+◌, Bool, true, false, ◌||◌, ◌&&◌, not, ◌%◌, Option, none, some, List, [], ◌∷◌,
  if◌then◌else◌, ltb, ◌==◌, length, blit, slice,
}
use libchdman_rs.Bytes.{Buffer}
use libchdman_rs.Errors.{Result, ok, err, chd, unknown_compression, codec_error, ◌>>=◌}
use libchdman_rs.Codec.{Coder}

-- The types of f_codec_list: zlib, zstd, lzma, huff, flac, cdzl, cdzs, cdlz, cdfl and avhu.
abbrev pub codec_list : List ℕ
codec_list =
    2053925218 ∷ 2054386788 ∷ 1819962721 ∷ 1752524390 ∷ 1718378851 ∷ 1667529324 ∷ 1667529331
    ∷ 1667525754 ∷ 1667524204 ∷ 1635149941 ∷ []

unfoldable pub find_in_list : ℕ → List ℕ → Bool
find_in_list type_ [] = false
find_in_list type_ (c ∷ cs) = c == type_ || find_in_list type_ cs

unfoldable pub codec_exists : ℕ → Bool
unfolding find_in_list
codec_exists type_ = find_in_list type_ codec_list

-- The types whose codec is chd_cd_compressor or chd_cd_flac_compressor: cdzl, cdzs, cdlz and cdfl.
abbrev pub is_cd : ℕ → Bool
is_cd type_ = find_in_list type_ (1667529324 ∷ 1667529331 ∷ 1667525754 ∷ 1667524204 ∷ [])

-- new_compressor for hunks of `hunkbytes`: none for a type that is not in the list. `make` is the
-- constructor of the codec of each type, which may throw; the two for CDs throw where the hunk is not
-- whole frames.
unfoldable pub new_compressor : (ℕ → Result Coder) → ℕ → ℕ → Option (Result Coder)
unfolding codec_exists
new_compressor make hunkbytes type_ =
    if codec_exists type_
    then some (
        make type_ >>= (λ c.
          if is_cd type_ && not (hunkbytes % 2448 == 0) then err (chd codec_error) else ok c))
    else none

-- m_compressor, made by the constructor of the group.
unfoldable pub compressors : (ℕ → Result Coder) → ℕ → List ℕ → Result (List (Option Coder))
unfolding new_compressor
compressors make hunkbytes [] = ok []
compressors make hunkbytes (type_ ∷ types) =
    let rest = compressors make hunkbytes types in
    if type_ == 0
    then rest >>= (λ slots. ok (none ∷ slots))
    else elim (new_compressor make hunkbytes type_) [
      | none ↦ err (chd unknown_compression)
      | some (err e) ↦ err e
      | some (ok c) ↦ rest >>= (λ slots. ok (some c ∷ slots))
    ]

-- What find_best_compressor keeps: `compression` (none is -1), `complen` and the buffer `compressed`.
pub record Found : Type 0 where
  pub compression : Option ℕ
  pub complen : ℕ
  pub compressed : Buffer

-- The compressor of a slot on the hunk; an empty slot and one that throws offer nothing.
unfoldable pub attempt : Option Coder → Buffer → Option Buffer
attempt none src = none
attempt (some c) src = elim (c.compress src) [ ok b ↦ some b | err e ↦ none ]

unfoldable pub consider : Option Buffer → ℕ → Found → Found
consider none codecnum s = s
consider (some b) codecnum s =
    if ltb (length b) s.complen
    then record {
      compression = some codecnum;
      complen = length b;
      compressed = blit s.compressed 0 b;
    }
    else s

unfoldable pub best_loop : List (Option Coder) → ℕ → Buffer → Found → Found
unfolding attempt consider
best_loop [] codecnum src s = s
best_loop (slot ∷ slots) codecnum src s =
    best_loop slots (suc codecnum) src (consider (attempt slot src) codecnum s)

-- The raw hunk, where there is no compressor.
abbrev pub or_copy : Buffer → ℕ → Found → Option ℕ → Found
or_copy src hunkbytes s (some codecnum) = s
or_copy src hunkbytes s none = record {
  compression = none;
  complen = s.complen;
  compressed = blit s.compressed 0 (slice src 0 hunkbytes);
}

-- find_best_compressor; `compressed` is the buffer of the caller.
unfoldable pub find_best : List (Option Coder) → ℕ → Buffer → Buffer → Found
unfolding best_loop
find_best slots hunkbytes src compressed =
    let s =
      best_loop slots 0 src
        (record { compression = none; complen = hunkbytes; compressed = compressed }) in
    or_copy src hunkbytes s s.compression
