-- ===== src/Chd/Metadata/Tests.antt =====
-- chd_file: the metadata of a file with two entries, behind a header of 8 bytes that holds the offset of
-- the first one.
use libchdman_rs.Prelude.{◌≡◌, refl, true, false, none, some, List, [], ◌∷◌, length, slice, arith}
use libchdman_rs.Bytes.{Buffer, put_u24be, put_u32be, put_u64be}
use libchdman_rs.Errors.{ok}
use libchdman_rs.Chd.Hunks.{Device, File, returns, out_of_fuel}
use libchdman_rs.Chd.Hunks.Disk.{Disk, write_over}
use libchdman_rs.Chd.Metadata.{
  MetadataEntry, no_entry, raw_meta_header, metadata_find, delete_metadata, read_metadata,
}
use libchdman_rs.Chd.Metadata.Chain.{Meta, Link, Linked}
use libchdman_rs.Chd.Metadata.Search.{locate, as_entry, metadata_find-Finds, metadata_find-cycle}
use libchdman_rs.Chd.Metadata.Relink.{Stored}
use libchdman_rs.Chd.Metadata.Edits.{Edited, delete_metadata-Edited}
use libchdman_rs.Chd.Metadata.Writing.{Hashes, write_metadata}
use libchdman_rs.Chd.Metadata.Written.{Written, write_metadata-Written}
use libchdman_rs.Chd.Metadata.Readback.{read_metadata-write_metadata}

-- A file in memory.
abbrev memory : Device Buffer
memory = record {
  read_at = λ offset count s. (none, slice s offset count);
  write_at = λ offset source s. (none, write_over s offset source);
  size = λ s. ok (length s);
}

abbrev itself : Buffer → Buffer
itself b = b

memory-Disk : Disk memory itself
memory-Disk = record {
  reads = λ o n s h. refl;
  writes = λ o ys s h. (refl, refl);
  sizes = λ s. refl;
}

abbrev bytes : Buffer
bytes =
    0 ∷ 0 ∷ 0 ∷ 0 ∷ 0 ∷ 0 ∷ 0 ∷ 8 ∷ 0 ∷ 0 ∷ 0 ∷ 1 ∷ 1 ∷ 0 ∷ 0 ∷ 4 ∷ 0 ∷ 0 ∷ 0 ∷ 0 ∷ 0 ∷ 0 ∷ 0 ∷ 28
    ∷ 10 ∷ 11 ∷ 12 ∷ 13 ∷ 0 ∷ 0 ∷ 0 ∷ 2 ∷ 0 ∷ 0 ∷ 0 ∷ 2 ∷ 0 ∷ 0 ∷ 0 ∷ 0 ∷ 0 ∷ 0 ∷ 0 ∷ 0 ∷ 20 ∷ 21
    ∷ []

abbrev first : Meta
first = record { place = 8; metatag = 1; flags = 1; payload = 10 ∷ 11 ∷ 12 ∷ 13 ∷ [] }

abbrev second : Meta
second = record { place = 28; metatag = 2; flags = 0; payload = 20 ∷ 21 ∷ [] }

abbrev entries : List Meta
entries = first ∷ second ∷ []

abbrev hashes : Hashes
hashes = record { sha1 = λ b. b; sort = λ l. l }

abbrev file : File Buffer
file = record {
  m_file = some bytes;
  m_allow_writes = true;
  m_version = 5;
  m_hunkbytes = 4;
  m_hunkcount = 1;
  m_unitbytes = 1;
  m_compression = [];
  m_mapoffset = 0;
  m_mapentrybytes = 4;
  m_rawmap = [];
  m_parent_missing = false;
  m_cache = [];
  m_cachehunk = 0;
  m_places = record {
    m_metaoffset = 8;
    m_metaoffset_offset = 0;
    m_sha1_offset = 84;
    m_rawsha1_offset = 64;
    m_parentsha1_offset = 104;
  };
}

second-Link : Link bytes 28 28 0 second
unfolding raw_meta_header put_u24be put_u32be put_u64be
second-Link = record {
  here = refl;
  behind = omega arith;
  some_ = omega arith;
  off_fits = omega arith;
  tag_fits = omega arith;
  flags_fits = omega arith;
  length_fits = omega arith;
  next_fits = omega arith;
  header = refl;
  held = refl;
  inside = omega arith;
}

first-Link : Link bytes 8 8 28 first
unfolding raw_meta_header put_u24be put_u32be put_u64be
first-Link = record {
  here = refl;
  behind = omega arith;
  some_ = omega arith;
  off_fits = omega arith;
  tag_fits = omega arith;
  flags_fits = omega arith;
  length_fits = omega arith;
  next_fits = omega arith;
  header = refl;
  held = refl;
  inside = omega arith;
}

entries-Linked : Linked bytes 8 8 entries
entries-Linked = (28, first-Link, (0, second-Link, refl))

file-Stored : Stored memory itself memory-Disk 8 file bytes entries
file-Stored = record {
  opened = refl;
  list = entries-Linked;
  positive = omega arith;
  pointer = omega arith;
  header = omega arith;
  unhashed = refl;
}

metadata_find-Finds_example :
    metadata_find memory 5 file 2 0 no_entry false ≡ returns (none, as_entry 8 second 0)
unfolding locate
metadata_find-Finds_example =
    metadata_find-Finds memory itself memory-Disk file bytes refl entries 5 2 0 8 no_entry
      (omega arith) (omega arith) entries-Linked

delete_metadata-Edited_example :
    Edited memory itself memory-Disk 8 (some (second ∷ [])) file (delete_metadata memory 5 file 1 0)
unfolding locate
delete_metadata-Edited_example =
    delete_metadata-Edited memory itself memory-Disk 8 file bytes entries 5 1 0 file-Stored
      (omega arith) (omega arith)

-- Three bytes over the four of the first entry.
write_metadata-Written_example :
    Written memory itself memory-Disk 8 file false
      (record { place = 8; metatag = 1; flags = 1; payload = 7 ∷ 8 ∷ 9 ∷ [] } ∷ second ∷ [])
      (write_metadata memory hashes 5 file 1 0 (7 ∷ 8 ∷ 9 ∷ []) 0)
unfolding locate
write_metadata-Written_example =
    write_metadata-Written memory itself memory-Disk 8 hashes file bytes 5 1 0 (7 ∷ 8 ∷ 9 ∷ []) 0
      (omega arith) (omega arith) (omega arith) (omega arith) entries file-Stored (omega arith)

-- Five bytes do not fit into the first entry: the second one is lost.
growing_entry_loses_later :
    Written memory itself memory-Disk 8 file false
      (record { place = 46; metatag = 1; flags = 0; payload = 5 ∷ 6 ∷ 7 ∷ 8 ∷ 9 ∷ [] } ∷ [])
      (write_metadata memory hashes 5 file 1 0 (5 ∷ 6 ∷ 7 ∷ 8 ∷ 9 ∷ []) 0)
unfolding locate
growing_entry_loses_later =
    write_metadata-Written memory itself memory-Disk 8 hashes file bytes 5 1 0
      (5 ∷ 6 ∷ 7 ∷ 8 ∷ 9 ∷ []) 0 (omega arith) (omega arith) (omega arith) (omega arith) entries
      file-Stored (omega arith)

read_metadata-write_metadata_example :
    (g : File Buffer) × (m : MetadataEntry) × (write_metadata memory hashes 5 file 2 0
        (7 ∷ 8 ∷ 9 ∷ [])
        0
      ≡ returns (none, g))
    × (read_metadata memory 5 g 2 0 none ≡ returns (none, m, 7 ∷ 8 ∷ 9 ∷ []))
unfolding locate
read_metadata-write_metadata_example =
    read_metadata-write_metadata memory itself memory-Disk 8 hashes file bytes entries 5 2 0
      (7 ∷ 8 ∷ 9 ∷ []) 0 file-Stored (omega arith) (omega arith) (omega arith) (omega arith)
      (omega arith) refl tt

-- One entry, whose next entry is itself.
abbrev cycle_bytes : Buffer
cycle_bytes =
    0 ∷ 0 ∷ 0 ∷ 0 ∷ 0 ∷ 0 ∷ 0 ∷ 8 ∷ 0 ∷ 0 ∷ 0 ∷ 1 ∷ 1 ∷ 0 ∷ 0 ∷ 1 ∷ 0 ∷ 0 ∷ 0 ∷ 0 ∷ 0 ∷ 0 ∷ 0 ∷ 8
    ∷ 10 ∷ []

abbrev only : Meta
only = record { place = 8; metatag = 1; flags = 1; payload = 10 ∷ [] }

only-Link : Link cycle_bytes 8 8 8 only
unfolding raw_meta_header put_u24be put_u32be put_u64be
only-Link = record {
  here = refl;
  behind = omega arith;
  some_ = omega arith;
  off_fits = omega arith;
  tag_fits = omega arith;
  flags_fits = omega arith;
  length_fits = omega arith;
  next_fits = omega arith;
  header = refl;
  held = refl;
  inside = omega arith;
}

metadata_find-cycle_example :
    metadata_find memory 100 (record file { m_file = some cycle_bytes }) 2 0 no_entry false
    ≡ out_of_fuel
metadata_find-cycle_example =
    metadata_find-cycle memory itself memory-Disk (record file { m_file = some cycle_bytes })
      cycle_bytes refl 100 2 0 8 only no_entry only-Link refl
