-- ===== src/Chd/Hunks.antt =====
-- mame-chd-src/src/lib/util/chd.cpp, class chd_file: hunks and bytes. The file behind a chd_file is
-- met through `Device`, the codecs and checksums through `Codecs`. A chd_file and its parents are a
-- list, the nearest first.

pub mod Access
pub mod Disk
pub mod Image
pub mod ReadBytes
pub mod Plain
pub mod WriteOnce
pub mod WriteLater
pub mod Tests
use libchdman_rs.Prelude.{
  ℕ, zero, suc, ◌+◌, ◌-◌, ◌*◌, ◌/◌, ◌%◌, ◌^◌, ◌≡◌, Bool, true, false, not, ◌&&◌, ◌||◌, Option, none,
  some, List, [], ◌∷◌, ◌++◌, if◌then◌else◌, ltb, leb, ◌==◌, min, length, get_or, drop, slice, blit,
  overwrite, replicate,
}
use libchdman_rs.Errors.{
  ErrorCondition, Status, Result, ok, err, chd, generic, io_error, not_open, hunk_out_of_range,
  file_not_writeable, compression_error, decompression_error, requires_parent, invalid_data,
  unknown_compression,
}
use libchdman_rs.Bytes.{
  Buffer, byte, get_u16be, get_u24be, get_u32be, get_u48be, get_u64be, put_u16be, put_u24be,
  put_u32be, put_u48be, put_u64be,
}

-- util::random_read_write, as chd_file uses it: a seek and a read, which tells what was delivered; a
-- seek and a write; and a seek to the end with a tell.
pub record Device (S : Type 0) : Type 0 where
  pub read_at : ℕ → ℕ → S → Status × Buffer
  pub write_at : ℕ → Buffer → S → Status × S
  pub size : S → Result ℕ

-- The decompressor of a codec tag, and whether it is lossy: it leaves a buffer of the wanted length,
-- and it may throw. The two checksums.
pub record Codecs : Type 0 where
  pub decompress : ℕ → Buffer → ℕ → Status × Buffer
  pub lossy : ℕ → Bool
  pub crc16 : Buffer → ℕ
  pub crc32 : Buffer → ℕ

-- Where the header has the numbers that are changed later, and where the metadata begins.
pub record Places : Type 0 where
  pub m_metaoffset : ℕ
  pub m_metaoffset_offset : ℕ
  pub m_sha1_offset : ℕ
  pub m_rawsha1_offset : ℕ
  pub m_parentsha1_offset : ℕ

-- The members of chd_file; `m_file` is none where no file is open.
pub record File (S : Type 0) : Type 0 where
  pub m_file : Option S
  pub m_allow_writes : Bool
  pub m_version : ℕ
  pub m_hunkbytes : ℕ
  pub m_hunkcount : ℕ
  pub m_unitbytes : ℕ
  pub m_compression : List ℕ
  pub m_mapoffset : ℕ
  pub m_mapentrybytes : ℕ
  pub m_rawmap : Buffer
  pub m_parent_missing : Bool
  pub m_cache : Buffer
  pub m_cachehunk : ℕ
  pub m_places : Places

-- A call that returns; one that uses a null pointer; one that has no fuel left.
pub data Run {ℓ} (A : Type ℓ) : Type ℓ where
  returns : A → Run A
  null_pointer out_of_fuel : Run A

abbrev pub codec_zlib : ℕ
codec_zlib = 2053925218

-- CHD_CODEC_SELF, CHD_CODEC_PARENT and CHD_CODEC_MINI.
abbrev pub codec_self : ℕ
codec_self = 1

abbrev pub codec_parent : ℕ
codec_parent = 2

abbrev pub codec_mini : ℕ
codec_mini = 3

abbrev pub u32 : ℕ → ℕ
u32 n = n % 2 ^ 32

abbrev pub u64 : ℕ → ℕ
u64 n = n % 2 ^ 64

abbrev pub codec : {S : Type 0} → File S → ℕ → ℕ
codec f i = get_or f.m_compression i 0

-- m_compression[0] != CHD_CODEC_NONE.
abbrev pub compressed : {S : Type 0} → File S → Bool
compressed f = not (codec f 0 == 0)

-- The bytes of the map from the entry of a hunk on.
abbrev pub map_entry : {S : Type 0} → File S → ℕ → Buffer
map_entry f hunknum = drop (u32 (f.m_mapentrybytes * hunknum)) f.m_rawmap

-- hunk_info: the compressor and the size of a hunk.
unfoldable pub hunk_info : {S : Type 0} → File S → ℕ → ℕ × ℕ → Result (ℕ × ℕ)
hunk_info f hunknum before =
    let old = drop (16 * hunknum) f.m_rawmap in
    let kind = byte old 15 % 16 in
    let entry = map_entry f hunknum in
    let version4 =
      if kind == 1
      then ok (codec_zlib, get_u16be (drop 12 old) + byte old 14 * 2 ^ 16)
      else if kind == 2
      then ok (0, f.m_hunkbytes)
      else if kind == 3
      then ok (codec_mini, 0)
      else if kind == 4
      then ok (codec_self, 0)
      else if kind == 5
      then ok (codec_parent, 0)
      else ok before in
    let plain = if get_u32be entry == 0 then ok (codec_parent, 0) else ok (0, f.m_hunkbytes) in
    let packed =
      if ltb (byte entry 0) 4
      then ok (codec f (byte entry 0), get_u24be (drop 1 entry))
      else if byte entry 0 == 4
      then ok (0, f.m_hunkbytes)
      else if byte entry 0 == 5
      then ok (codec_self, 0)
      else if byte entry 0 == 6
      then ok (codec_parent, 0)
      else err (chd unknown_compression) in
    if leb f.m_hunkcount hunknum
    then err (chd hunk_out_of_range)
    else if f.m_version == 3 || (f.m_version == 4)
    then version4
    else if f.m_version == 5
    then (if not (compressed f) then plain else packed)
    else ok before

module _ {S : Type 0} (device : Device S) where
  open device use {read_at, write_at, size}

  -- file_read: the status and the bytes that reached the destination.
  unfoldable pub file_read : File S → ℕ → ℕ → Status × Buffer
  file_read f offset count = elim f.m_file [
    | none ↦ (some (chd not_open), [])
    | some s ↦ elim (read_at offset count s).0 [
      | some e ↦ (some e, (read_at offset count s).1)
      | none ↦
          if length (read_at offset count s).1 == count
          then (none, (read_at offset count s).1)
          else (some (generic io_error), (read_at offset count s).1)
    ]
  ]

  unfoldable pub file_write : File S → ℕ → Buffer → Status × File S
  file_write f offset source = elim f.m_file [
    | none ↦ (some (chd not_open), f)
    | some s ↦
        ((write_at offset source s).0, record f { m_file = some (write_at offset source s).1 })
  ]

  -- The padding loop of file_append, in pieces of at most 1024 bytes; each round writes one byte at
  -- least, so `delta` rounds are enough.
  unfoldable pub pad_loop : ℕ → ℕ → ℕ → S → Status × S
  pad_loop zero offset delta s = (none, s)
  pad_loop (suc fuel) offset delta s =
      let bytes_to_write = min 1024 delta in
      let (e, s') = write_at offset (replicate bytes_to_write 0) s in
      let rest = pad_loop fuel (offset + bytes_to_write) (delta - bytes_to_write) s' in
      if delta == 0 then (none, s) else elim e [ none ↦ rest | some x ↦ (some x, s') ]

  -- file_append: where the data begins, or what it throws.
  unfoldable pub file_append : File S → Buffer → ℕ → Result ℕ × File S
  file_append f source alignment = elim f.m_file [
    | none ↦ (err (chd not_open), f)
    | some s ↦ elim (size s) [
      | err e ↦ (err e, f)
      | ok offset ↦
          let part = offset % alignment in
          let delta = if alignment == 0 || (part == 0) then 0 else alignment - part in
          let (padded, s') = pad_loop delta offset delta s in
          elim padded [
            | some e ↦ (err e, record f { m_file = some s' })
            | none ↦
                let (e, s'') = write_at (offset + delta) source s' in
                elim e [
                  | some x ↦ (err x, record f { m_file = some s'' })
                  | none ↦ (ok (offset + delta), record f { m_file = some s'' })
                ]
          ]
    ]
  ]

  -- The test for a hunk that need not be allocated: the first m_hunkbytes / 4 words are zero.
  unfoldable pub all_zeros : Buffer → ℕ → Bool
  all_zeros buffer zero = true
  all_zeros [] (suc n) = true
  all_zeros (x ∷ xs) (suc n) = (x == 0) && all_zeros xs n

  -- write_hunk; `from_cache` tells that the buffer is the cache itself.
  unfoldable pub write_hunk : File S → ℕ → Buffer → Bool → Status × File S
  unfolding all_zeros
  write_hunk f hunknum buffer from_cache =
      let entry = get_u32be (drop (hunknum * 4) f.m_rawmap) in
      let allocated = file_append f buffer f.m_hunkbytes in
      let new_entry : ℕ → Buffer = λ at_. put_u32be (u32 (at_ / f.m_hunkbytes)) in
      let mapped : ℕ → File S =
        λ at_. record allocated.1 { m_rawmap = blit f.m_rawmap (hunknum * 4) (new_entry at_) } in
      let written : ℕ → Status × File S =
        λ at_. file_write (mapped at_) (f.m_mapoffset + hunknum * 4) (new_entry at_) in
      let cached : File S → File S = λ g.
        if (hunknum == f.m_cachehunk) && not from_cache
        then record g { m_cache = blit g.m_cache 0 buffer }
        else g in
      let allocate : Status × File S = elim allocated.0 [
        | err e ↦ (some e, allocated.1)
        | ok at_ ↦ elim (written at_).0 [
          | some e ↦ (some e, (written at_).1)
          | none ↦ (none, cached (written at_).1)
        ]
      ] in
      elim f.m_file [
        | none ↦ (some (chd not_open), f)
        | some s ↦
            if leb f.m_hunkcount hunknum
            then (some (chd hunk_out_of_range), f)
            else if not f.m_allow_writes
            then (some (chd file_not_writeable), f)
            else if compressed f
            then (some (chd file_not_writeable), f)
            else if entry == 0
            then if all_zeros buffer (f.m_hunkbytes / 4 * 4) then (none, f) else allocate
            else file_write f (entry * f.m_hunkbytes) buffer
      ]

  -- verify_proper_compression_append. The entry of a hunk that is not yet written begins with 0xff.
  unfoldable pub verify_proper_compression_append : File S → ℕ → Status
  verify_proper_compression_append f hunknum = elim f.m_file [
    | none ↦ some (chd not_open)
    | some s ↦
        if leb f.m_hunkcount hunknum
        then some (chd hunk_out_of_range)
        else if not f.m_allow_writes
        then some (chd file_not_writeable)
        else if not (compressed f)
        then some (chd file_not_writeable)
        else if not (byte f.m_rawmap (hunknum * 12) == 255)
        then some (chd compression_error)
        else if not (hunknum == 0) && (byte f.m_rawmap ((hunknum - 1) * 12) == 255)
        then some (chd compression_error)
        else none
  ]

  -- The 12 bytes of an entry, written over the map.
  unfoldable pub put_entry : File S → ℕ → ℕ → ℕ → ℕ → ℕ → File S
  put_entry f hunknum comp complength offset crc =
      let bytes = (comp ∷ []) ++ put_u24be complength ++ put_u48be offset ++ put_u16be crc in
      record f { m_rawmap = blit f.m_rawmap (hunknum * 12) bytes }

  -- hunk_write_compressed; `none` is the compression -1.
  unfoldable pub hunk_write_compressed : File S → ℕ → Option ℕ → Buffer → ℕ → Status × File S
  unfolding put_entry
  hunk_write_compressed f hunknum compression data_ crc16 =
      let appended = file_append f data_ 0 in
      let comp : ℕ = elim compression [ none ↦ 4 | some c ↦ c ] in
      let done : ℕ → File S =
        λ offset. put_entry appended.1 hunknum comp (length data_) offset crc16 in
      elim (verify_proper_compression_append f hunknum) [
        | some e ↦ (some e, f)
        | none ↦ elim appended.0 [ err e ↦ (some e, appended.1) | ok offset ↦ (none, done offset) ]
      ]

  unfoldable pub hunk_copy_from_self : File S → ℕ → ℕ → Status × File S
  unfolding put_entry
  hunk_copy_from_self f hunknum otherhunk = elim (verify_proper_compression_append f hunknum) [
    | some e ↦ (some e, f)
    | none ↦
        if leb hunknum otherhunk
        then (some (chd hunk_out_of_range), f)
        else (none, put_entry f hunknum 5 0 otherhunk 0)
  ]

  unfoldable pub hunk_copy_from_parent : File S → ℕ → ℕ → Status × File S
  unfolding put_entry
  hunk_copy_from_parent f hunknum parentunit = elim (verify_proper_compression_append f hunknum) [
    | some e ↦ (some e, f)
    | none ↦ (none, put_entry f hunknum 6 0 parentunit 0)
  ]
