-- ===== src/Chd/Metadata/Writing.antt =====
-- mame-chd-src/src/lib/util/chd.cpp, class chd_file: write_metadata, clone_all_metadata, and the hashes
-- over the metadata.
use libchdman_rs.Prelude.{
  ℕ, zero, suc, ◌+◌, ◌-◌, ◌*◌, ◌%◌, ◌^◌, true, false, not, ◌||◌, none, some, List, [], ◌∷◌, ◌++◌,
  if◌then◌else◌, ltb, leb, ◌==◌, length, replicate,
}
use libchdman_rs.Errors.{Status, Result, ok, err, chd, generic, invalid_argument, invalid_file}
use libchdman_rs.Bytes.{Buffer, put_u24be, put_u32be}
use libchdman_rs.Chd.Hunks.{
  Device, File, Run, returns, null_pointer, out_of_fuel, compressed, file_read, file_write,
  file_append, u64,
}
use libchdman_rs.Chd.Metadata.{
  MetadataEntry, no_entry, metadata_header_size, wildcard, is_not_found, raw_meta_header,
  metadata_find, metadata_set_previous_next,
}

-- SHA-1 of the bytes that are appended, and qsort by metadata_hash_compare.
pub record Hashes : Type 0 where
  pub sha1 : Buffer → Buffer
  pub sort : List Buffer → List Buffer

module _ {S : Type 0} (device : Device S) (hashes : Hashes) where
  open hashes use {sha1, sort}

  abbrev pub concat : List Buffer → Buffer
  concat [] = []
  concat (b ∷ bs) = b ++ concat bs

  -- The loop of compute_overall_sha1: the hash of each entry whose flags ask for it. `rounds` bounds
  -- the entries, and `fuel` those that one search reads.
  unfoldable pub hash_loop :
      ℕ → ℕ → File S → Run (Status × MetadataEntry) → Run (Result (List Buffer))
  unfolding metadata_find
  hash_loop zero fuel f found = out_of_fuel
  hash_loop (suc rounds) fuel f null_pointer = null_pointer
  hash_loop (suc rounds) fuel f out_of_fuel = out_of_fuel
  hash_loop (suc rounds) fuel f (returns (some e, m)) =
      if is_not_found e then returns (ok []) else returns (err e)
  hash_loop (suc rounds) fuel f (returns (none, m)) =
      let rest = hash_loop rounds fuel f (metadata_find device fuel f wildcard 0 m true) in
      let (e, bytes) = file_read device f (u64 (m.offset + metadata_header_size)) m.length in
      let entry = put_u32be m.metatag ++ sha1 bytes in
      let hashed : Run (Result (List Buffer)) = elim e [
        | some x ↦ returns (err x)
        | none ↦ elim rest [
          | returns (ok es) ↦ returns (ok (entry ∷ es))
          | returns (err x) ↦ returns (err x)
          | null_pointer ↦ null_pointer
          | out_of_fuel ↦ out_of_fuel
        ]
      ] in
      if m.flags % 2 == 0 then rest else hashed

  unfoldable pub compute_overall_sha1 : ℕ → File S → Buffer → Run (Result Buffer)
  unfolding hash_loop
  compute_overall_sha1 fuel f rawsha1 =
      let found = metadata_find device fuel f wildcard 0 no_entry false in
      let overall : Run (Result Buffer) = elim (hash_loop fuel fuel f found) [
        | returns (ok es) ↦ returns (ok (sha1 (rawsha1 ++ concat (sort es))))
        | returns (err x) ↦ returns (err x)
        | null_pointer ↦ null_pointer
        | out_of_fuel ↦ out_of_fuel
      ] in
      if ltb f.m_version 4 then returns (ok rawsha1) else overall

  abbrev pub null_sha1 : Buffer
  null_sha1 = replicate 20 0

  -- sha1, raw_sha1 and parent_sha1: a read at a place in the header; `null_sha1` where it fails.
  unfoldable pub read_sha1 : File S → ℕ → Buffer
  read_sha1 f offset =
      let (e, bytes) = file_read device f offset 20 in elim e [ some x ↦ null_sha1 | none ↦ bytes ]

  unfoldable pub raw_sha1 : File S → Buffer
  unfolding read_sha1
  raw_sha1 f =
      if f.m_places.m_rawsha1_offset == 0
      then null_sha1
      else read_sha1 f f.m_places.m_rawsha1_offset

  -- metadata_update_hash; what it throws is the status.
  unfoldable pub metadata_update_hash : ℕ → File S → Run (Status × File S)
  unfolding compute_overall_sha1 raw_sha1
  metadata_update_hash fuel f =
      let update : Run (Status × File S) = elim (compute_overall_sha1 fuel f (raw_sha1 f)) [
        | returns (ok fullsha1) ↦ returns (file_write device f f.m_places.m_sha1_offset fullsha1)
        | returns (err x) ↦ returns (some x, f)
        | null_pointer ↦ null_pointer
        | out_of_fuel ↦ out_of_fuel
      ] in
      if ltb f.m_version 4 || not (compressed f) then returns (none, f) else update

  -- set_raw_sha1 and set_parent_sha1.
  unfoldable pub set_raw_sha1 : ℕ → File S → Buffer → Run (Status × File S)
  unfolding metadata_update_hash
  set_raw_sha1 fuel f rawdata =
      let separate = not (f.m_places.m_rawsha1_offset == 0) in
      let offset = if separate then f.m_places.m_rawsha1_offset else f.m_places.m_sha1_offset in
      let (e, g) = file_write device f offset rawdata in
      elim e [
        | some x ↦ returns (some x, g)
        | none ↦ if separate then metadata_update_hash fuel g else returns (none, g)
      ]

  unfoldable pub set_parent_sha1 : File S → Buffer → Status × File S
  set_parent_sha1 f parent = elim f.m_file [
    | none ↦ (some (chd invalid_file), f)
    | some s ↦ file_write device f f.m_places.m_parentsha1_offset parent
  ]

  -- The end of write_metadata, where no entry is overwritten: a new entry is appended, and the entry
  -- before it, or the header, points to it.
  unfoldable pub append_entry : ℕ → File S → ℕ → ℕ → ℕ → Buffer → Run (Status × File S)
  unfolding metadata_set_previous_next metadata_update_hash raw_meta_header
  append_entry fuel f prev metatag flags inputbuf =
      let (o, g) = file_append device f (raw_meta_header metatag flags (length inputbuf) 0) 0 in
      elim o [
        | err x ↦ returns (some x, g)
        | ok offset ↦
            let (p, h) = file_append device g inputbuf 0 in
            elim p [
              | err x ↦ returns (some x, h)
              | ok _ ↦
                  let (e, k) = metadata_set_previous_next device h prev offset in
                  elim e [ some x ↦ returns (some x, k) | none ↦ metadata_update_hash fuel k ]
            ]
      ]

  -- The data over the data of an entry that has room for it, and the length where it differs.
  unfoldable pub overwrite_entry : ℕ → File S → MetadataEntry → Buffer → Run (Status × File S)
  unfolding metadata_update_hash
  overwrite_entry fuel f m inputbuf =
      let (e, g) = file_write device f (u64 (m.offset + metadata_header_size)) inputbuf in
      let (e', h) = file_write device g (u64 (m.offset + 5)) (put_u24be (length inputbuf)) in
      elim e [
        | some x ↦ returns (some x, g)
        | none ↦
            if length inputbuf == m.length
            then metadata_update_hash fuel g
            else elim e' [ some x ↦ returns (some x, h) | none ↦ metadata_update_hash fuel h ]
      ]

  unfoldable pub write_metadata : ℕ → File S → ℕ → ℕ → Buffer → ℕ → Run (Status × File S)
  unfolding append_entry overwrite_entry
  write_metadata fuel f metatag metaindex inputbuf flags =
      let inputlen = length inputbuf in
      let replace : MetadataEntry → Run (Status × File S) = λ m.
        let (e, g) = metadata_set_previous_next device f m.prev m.next in
        elim e [
          | some x ↦ returns (some x, g)
          | none ↦ append_entry fuel g m.prev metatag flags inputbuf
        ] in
      let write : Run (Status × File S) =
        elim (metadata_find device fuel f metatag metaindex no_entry false) [
          | returns (none, m) ↦
              if leb inputlen m.length then overwrite_entry fuel f m inputbuf else replace m
          | returns (some e, m) ↦
              if is_not_found e
              then append_entry fuel f m.prev metatag flags inputbuf
              else returns (some e, f)
          | null_pointer ↦ null_pointer
          | out_of_fuel ↦ out_of_fuel
        ] in
      if ltb inputlen 1 || leb (16 * 1024 * 1024) inputlen
      then returns (some (generic invalid_argument), f)
      else write

  -- clone_all_metadata: the loop over the entries of the source.
  unfoldable pub clone_loop :
      ℕ → ℕ → File S → Run (Status × MetadataEntry) → File S → Run (Status × File S)
  unfolding write_metadata
  clone_loop zero fuel source found f = out_of_fuel
  clone_loop (suc rounds) fuel source null_pointer f = null_pointer
  clone_loop (suc rounds) fuel source out_of_fuel f = out_of_fuel
  clone_loop (suc rounds) fuel source (returns (some e, m)) f =
      if is_not_found e then returns (none, f) else returns (some e, f)
  clone_loop (suc rounds) fuel source (returns (none, m)) f =
      let (e, bytes) = file_read device source (u64 (m.offset + metadata_header_size)) m.length in
      let next = metadata_find device fuel source wildcard 0 m true in
      elim e [
        | some x ↦ returns (some x, f)
        | none ↦ elim (write_metadata fuel f m.metatag (2 ^ 32 - 1) bytes m.flags) [
          | returns (some x, g) ↦ returns (some x, g)
          | returns (none, g) ↦ clone_loop rounds fuel source next g
          | null_pointer ↦ null_pointer
          | out_of_fuel ↦ out_of_fuel
        ]
      ]

  unfoldable pub clone_all_metadata : ℕ → File S → File S → Run (Status × File S)
  unfolding clone_loop
  clone_all_metadata fuel source f =
      clone_loop fuel fuel source (metadata_find device fuel source wildcard 0 no_entry false) f
