-- ===== src/Chd/Metadata.antt =====
-- mame-chd-src/src/lib/util/chd.cpp, class chd_file: the metadata, a linked list of entries in the
-- file. An entry is a header of 16 bytes (a tag, flags, the length of the data, the offset of the next
-- entry) with the data behind it.
pub mod Writing
pub mod Chain
pub mod Search
pub mod Relink
pub mod Edits
pub mod Additions
pub mod Overwrite
pub mod Written
pub mod Readback
pub mod Tests
use libchdman_rs.Prelude.{
  ℕ, zero, suc, ◌+◌, ◌-◌, ◌*◌, ◌/◌, ◌%◌, ◌^◌, Bool, true, false, not, ◌&&◌, ◌||◌, Option, none,
  some, List, [], ◌∷◌, ◌++◌, if◌then◌else◌, ltb, leb, ◌==◌, min, length, drop, replicate,
}
use libchdman_rs.Errors.{
  ErrorCondition, Status, Result, ok, err, chd, generic, invalid_argument, metadata_not_found,
  value, invalid_file,
}
use libchdman_rs.Bytes.{
  Buffer, byte, get_u24be, get_u32be, get_u64be, put_u24be, put_u32be, put_u64be,
}
use libchdman_rs.Chd.Hunks.{
  Device, File, Run, returns, null_pointer, out_of_fuel, compressed, file_read, file_write,
  file_append, u32, u64,
}

-- chd_file::metadata_entry.
pub record MetadataEntry : Type 0 where
  pub offset : ℕ
  pub next : ℕ
  pub prev : ℕ
  pub length : ℕ
  pub metatag : ℕ
  pub flags : ℕ

-- An entry before a search sets it.
abbrev pub no_entry : MetadataEntry
no_entry = record { offset = 0; next = 0; prev = 0; length = 0; metatag = 0; flags = 0 }

abbrev pub metadata_header_size : ℕ
metadata_header_size = 16

abbrev pub wildcard : ℕ
wildcard = 0

-- What metadata_find takes from a raw header.
unfoldable pub extract : Buffer → MetadataEntry → MetadataEntry
extract raw m = record m {
  metatag = get_u32be raw;
  flags = byte raw 4;
  length = get_u24be (drop 5 raw);
  next = get_u64be (drop 8 raw);
}

abbrev pub follow : MetadataEntry → MetadataEntry
follow m = record m { prev = m.offset; offset = m.next }

-- `err == error::METADATA_NOT_FOUND`.
abbrev pub is_not_found : ErrorCondition → Bool
is_not_found (chd e) = value e == 14
is_not_found (generic e) = false

-- The header that write_metadata builds.
unfoldable pub raw_meta_header : ℕ → ℕ → ℕ → ℕ → Buffer
raw_meta_header metatag flags inputlen next =
    put_u32be metatag ++ (flags ∷ (put_u24be inputlen ++ put_u64be next))

module _ {S : Type 0} (device : Device S) where
  -- The loop of metadata_find. `metaindex` is the bit pattern of an int32_t. `fuel` bounds the entries
  -- that are read: the source has no bound, and runs for ever on a list that is a cycle.
  unfoldable pub find_loop : ℕ → File S → ℕ → ℕ → MetadataEntry → Run (Status × MetadataEntry)
  unfolding extract
  find_loop zero f metatag metaindex m = out_of_fuel
  find_loop (suc fuel) f metatag metaindex m =
      let (e, raw) = file_read device f m.offset metadata_header_size in
      let m' = extract raw m in
      let later = find_loop fuel f metatag (u32 (metaindex + (2 ^ 32 - 1))) (follow m') in
      let same = find_loop fuel f metatag metaindex (follow m') in
      let step : Run (Status × MetadataEntry) = elim e [
        | some x ↦ returns (some x, m)
        | none ↦
            if metatag == wildcard || (m'.metatag == metatag)
            then if metaindex == 0 then returns (none, m') else later
            else same
      ] in
      if m.offset == 0 then returns (some (chd metadata_not_found), m) else step

  unfoldable pub metadata_find :
      ℕ → File S → ℕ → ℕ → MetadataEntry → Bool → Run (Status × MetadataEntry)
  unfolding find_loop
  metadata_find fuel f metatag metaindex m resume =
      let start = record m { offset = f.m_places.m_metaoffset; prev = 0 } in
      find_loop fuel f metatag metaindex (if resume then follow m else start)

  unfoldable pub metadata_set_previous_next : File S → ℕ → ℕ → Status × File S
  metadata_set_previous_next f prevoffset nextoffset =
      let places = record f.m_places { m_metaoffset = nextoffset } in
      if prevoffset == 0
      then file_write device (record f { m_places = places }) f.m_places.m_metaoffset_offset
          (put_u64be nextoffset)
      else file_write device f (u64 (prevoffset + 8)) (put_u64be nextoffset)

  -- The four forms of read_metadata: the entry, and the status and bytes of the data, of which the third
  -- form wants `outputlen` at most.
  unfoldable pub read_found :
      File S → Option ℕ → Run (Status × MetadataEntry) → Run (Status × MetadataEntry × Buffer)
  read_found f outputlen (returns (some e, m)) = returns (some e, m, [])
  read_found f outputlen (returns (none, m)) =
      let count : ℕ = elim outputlen [ none ↦ m.length | some n ↦ min n m.length ] in
      let (e, bytes) = file_read device f (u64 (m.offset + metadata_header_size)) count in
      returns (e, m, bytes)
  read_found f outputlen null_pointer = null_pointer
  read_found f outputlen out_of_fuel = out_of_fuel

  unfoldable pub read_metadata :
      ℕ → File S → ℕ → ℕ → Option ℕ → Run (Status × MetadataEntry × Buffer)
  unfolding read_found metadata_find
  read_metadata fuel f searchtag searchindex outputlen =
      read_found f outputlen (metadata_find fuel f searchtag searchindex no_entry false)

  unfoldable pub delete_metadata : ℕ → File S → ℕ → ℕ → Run (Status × File S)
  unfolding metadata_set_previous_next metadata_find
  delete_metadata fuel f metatag metaindex =
      elim (metadata_find fuel f metatag metaindex no_entry false) [
        | returns (some e, m) ↦ returns (some e, f)
        | returns (none, m) ↦ returns (metadata_set_previous_next f m.prev m.next)
        | null_pointer ↦ null_pointer
        | out_of_fuel ↦ out_of_fuel
      ]
