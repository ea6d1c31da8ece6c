-- ===== src/Chd/Hunks/Access.antt =====
-- mame-chd-src/src/lib/util/chd.cpp, chd_file::read_hunk, read_bytes and write_bytes. A buffer that
-- is read into is passed and given back, since a failed read may leave a part of it changed.
use libchdman_rs.Prelude.{
  ℕ, zero, suc, ◌+◌, ◌-◌, ◌*◌, ◌/◌, ◌%◌, ◌^◌, Bool, true, false, not, ◌&&◌, ◌||◌, none, some, List,
  [], ◌∷◌, if◌then◌else◌, ltb, leb, ◌==◌, drop, slice, blit, get_or, replicate,
}
use libchdman_rs.Errors.{
  Status, chd, not_open, hunk_out_of_range, decompression_error, requires_parent, invalid_data,
}
use libchdman_rs.Bytes.{
  Buffer, byte, get_u16be, get_u24be, get_u32be, get_u48be, get_u64be, put_u64be,
}
use libchdman_rs.Chd.Hunks.{
  Device, Codecs, File, Run, returns, null_pointer, out_of_fuel, codec, compressed, map_entry,
  file_read, write_hunk, u32, u64,
}

-- The loop of a mini hunk: each byte is the one 8 before it.
unfoldable pub mini_loop : ℕ → ℕ → Buffer → Buffer
mini_loop zero bytes dest = dest
mini_loop (suc fuel) bytes dest =
    mini_loop fuel (bytes + 1) (blit dest bytes (get_or dest (bytes - 8) 0 ∷ []))

-- The status of a call, and the buffer and the files behind it.
abbrev pub Outcome : Type 0 → Type 0
Outcome S = Run (Status × Buffer × List (File S))

abbrev pub ReadHunk : Type 0 → Type 0
ReadHunk S = List (File S) → ℕ → Buffer → Outcome S

abbrev pub set_cache : {S : Type 0} → List (File S) → Buffer → ℕ → List (File S)
set_cache [] block n = []
set_cache (f ∷ fs) block n = record f { m_cache = block; m_cachehunk = n } ∷ fs

-- The parents change; the file in front of them stays.
abbrev pub behind : {S : Type 0} → File S → Outcome S → Outcome S
behind f (returns (e, dest, fs)) = returns (e, dest, f ∷ fs)
behind f null_pointer = null_pointer
behind f out_of_fuel = out_of_fuel

-- The part of the hunk `curhunk` that lies in bytes `offset` to `offset + bytes`: its first and last
-- byte, and the number of hunks of the loop.
unfoldable pub start_offs : ℕ → ℕ → ℕ → ℕ
start_offs hunkbytes offset curhunk =
    if curhunk == u32 (offset / hunkbytes) then offset % hunkbytes else 0

abbrev pub last_byte : ℕ → ℕ → ℕ
last_byte offset bytes = u64 (offset + bytes + (2 ^ 64 - 1))

unfoldable pub end_offs : ℕ → ℕ → ℕ → ℕ → ℕ
end_offs hunkbytes offset bytes curhunk =
    if curhunk == u32 (last_byte offset bytes / hunkbytes)
    then last_byte offset bytes % hunkbytes
    else hunkbytes - 1

abbrev pub hunks_in : ℕ → ℕ → ℕ → ℕ
hunks_in hunkbytes offset bytes =
    u32 (last_byte offset bytes / hunkbytes) + 1 - u32 (offset / hunkbytes)

module _ {S : Type 0} (read_hunk : ReadHunk S) where
  -- The loop of read_bytes, with `count` hunks to come; `at_` is the place in the buffer.
  unfoldable pub read_loop : ℕ → ℕ → ℕ → ℕ → ℕ → ℕ → List (File S) → Buffer → Outcome S
  unfolding start_offs end_offs
  read_loop zero hunkbytes offset bytes curhunk at_ fs dest = returns (none, dest, fs)
  read_loop (suc count) hunkbytes offset bytes curhunk at_ [] dest = null_pointer
  read_loop (suc count) hunkbytes offset bytes curhunk at_ (f ∷ fs) dest =
      let startoffs = start_offs hunkbytes offset curhunk in
      let endoffs = end_offs hunkbytes offset bytes curhunk in
      let size = endoffs + 1 - startoffs in
      let full = (startoffs == 0) && (endoffs == hunkbytes - 1) && not (curhunk == f.m_cachehunk) in
      let rest : List (File S) → Buffer → Outcome S =
        λ gs buffer. read_loop count hunkbytes offset bytes (curhunk + 1) (at_ + size) gs buffer in
      let cached = rest (f ∷ fs) (blit dest at_ (slice f.m_cache startoffs size)) in
      let directly : Outcome S = elim (read_hunk (f ∷ fs) curhunk (slice dest at_ hunkbytes)) [
        | returns (some e, block, gs) ↦ returns (some e, blit dest at_ block, gs)
        | returns (none, block, gs) ↦ rest gs (blit dest at_ block)
        | null_pointer ↦ null_pointer
        | out_of_fuel ↦ out_of_fuel
      ] in
      let filled : Outcome S = elim (read_hunk (f ∷ fs) curhunk f.m_cache) [
        | returns (some e, block, gs) ↦ returns (some e, dest, set_cache gs block f.m_cachehunk)
        | returns (none, block, gs) ↦
            rest (set_cache gs block curhunk) (blit dest at_ (slice block startoffs size))
        | null_pointer ↦ null_pointer
        | out_of_fuel ↦ out_of_fuel
      ] in
      if full then directly else if curhunk == f.m_cachehunk then cached else filled

  unfoldable pub read_bytes : List (File S) → ℕ → Buffer → ℕ → Outcome S
  unfolding read_loop
  read_bytes [] offset dest bytes = null_pointer
  read_bytes (f ∷ fs) offset dest bytes =
      read_loop (hunks_in f.m_hunkbytes offset bytes) f.m_hunkbytes offset bytes
        (u32 (offset / f.m_hunkbytes)) 0 (f ∷ fs) dest

module _ {S : Type 0} (device : Device S) (codecs : Codecs) where
  open codecs use {decompress, lossy, crc16, crc32}

  -- What a read of the file and a check of the data give.
  unfoldable pub checked : Status × Buffer → Buffer → (Buffer → Bool) → Status × Buffer
  checked (some e, bytes) dest good = (some e, blit dest 0 bytes)
  checked (none, bytes) dest good =
      if good bytes
      then (none, blit dest 0 bytes)
      else (some (chd decompression_error), blit dest 0 bytes)

  -- A read of compressed data of `blocklen` bytes, which `tag` decompresses.
  unfoldable pub unpack : File S → ℕ → ℕ → ℕ → Buffer → (Buffer → Buffer → Bool) → Status × Buffer
  unfolding checked
  unpack f tag blockoffs blocklen dest good =
      let (e, packed) = file_read device f blockoffs blocklen in
      elim e [
        | some x ↦ (some x, dest)
        | none ↦ checked (decompress tag packed f.m_hunkbytes) dest (good packed)
      ]

  -- read_hunk for versions 3 and 4.
  unfoldable pub read_hunk_v4 : ReadHunk S → File S → List (File S) → ℕ → Buffer → Outcome S
  unfolding mini_loop unpack checked
  read_hunk_v4 again f fs hunknum dest =
      let rawmap = drop (16 * hunknum) f.m_rawmap in
      let blockoffs = get_u64be rawmap in
      let blockcrc = get_u32be (drop 8 rawmap) in
      let nocrc = byte rawmap 15 / 16 % 2 == 1 in
      let kind = byte rawmap 15 % 16 in
      let blocklen = get_u16be (drop 12 rawmap) + byte rawmap 14 * 2 ^ 16 in
      let good : Buffer → Bool = λ b. nocrc || (crc32 b == blockcrc) in
      let unpacked = unpack f (codec f 0) blockoffs blocklen dest (λ _. good) in
      let plain = checked (file_read device f blockoffs f.m_hunkbytes) dest good in
      let mini = mini_loop (f.m_hunkbytes - 8) 8 (blit dest 0 (put_u64be blockoffs)) in
      let parents : Outcome S = elim fs [
        | [] ↦ null_pointer
        | (p ∷ ps) ↦ behind f (again (p ∷ ps) (u32 blockoffs) dest)
      ] in
      if kind == 1
      then if codec f 0 == 0 then null_pointer else returns (unpacked.0, unpacked.1, f ∷ fs)
      else if kind == 2
      then returns (plain.0, plain.1, f ∷ fs)
      else if kind == 3
      then if good mini
        then returns (none, mini, f ∷ fs)
        else returns (some (chd decompression_error), mini, f ∷ fs)
      else if kind == 4
      then again (f ∷ fs) (u32 blockoffs) dest
      else if kind == 5
      then if f.m_parent_missing
        then returns (some (chd requires_parent), dest, f ∷ fs)
        else parents
      else returns (some (chd invalid_data), dest, f ∷ fs)

  -- read_hunk for an uncompressed file of version 5.
  unfoldable pub read_hunk_plain : ReadHunk S → File S → List (File S) → ℕ → Buffer → Outcome S
  read_hunk_plain again f fs hunknum dest =
      let blockoffs = get_u32be (map_entry f hunknum) * f.m_hunkbytes in
      let (e, bytes) = file_read device f blockoffs f.m_hunkbytes in
      let parents : Outcome S = elim fs [
        | [] ↦ returns (none, blit dest 0 (replicate f.m_hunkbytes 0), f ∷ [])
        | (p ∷ ps) ↦ behind f (again (p ∷ ps) hunknum dest)
      ] in
      if not (blockoffs == 0)
      then returns (e, blit dest 0 bytes, f ∷ fs)
      else if f.m_parent_missing
      then returns (some (chd requires_parent), dest, f ∷ fs)
      else parents

  -- read_hunk for a compressed file of version 5.
  unfoldable pub read_hunk_packed : ReadHunk S → File S → List (File S) → ℕ → Buffer → Outcome S
  unfolding unpack checked read_bytes
  read_hunk_packed again f fs hunknum dest =
      let rawmap = map_entry f hunknum in
      let blocklen = get_u24be (drop 1 rawmap) in
      let blockoffs = get_u48be (drop 4 rawmap) in
      let blockcrc = get_u16be (drop 10 rawmap) in
      let tag = codec f (byte rawmap 0) in
      let unpacked =
        unpack f tag blockoffs blocklen dest
          (λ packed b. (if lossy tag then crc16 packed else crc16 b) == blockcrc) in
      let plain =
        checked (file_read device f blockoffs f.m_hunkbytes) dest (λ b. crc16 b == blockcrc) in
      let parents : Outcome S = elim fs [
        | [] ↦ null_pointer
        | (p ∷ ps) ↦
            behind f
              (read_bytes again (p ∷ ps) (u64 (blockoffs * p.m_unitbytes)) dest f.m_hunkbytes)
      ] in
      if ltb (byte rawmap 0) 4
      then if tag == 0 then null_pointer else returns (unpacked.0, unpacked.1, f ∷ fs)
      else if byte rawmap 0 == 4
      then returns (plain.0, plain.1, f ∷ fs)
      else if byte rawmap 0 == 5
      then again (f ∷ fs) (u32 blockoffs) dest
      else if byte rawmap 0 == 6
      then if f.m_parent_missing
        then returns (some (chd requires_parent), dest, f ∷ fs)
        else parents
      else returns (some (chd invalid_data), dest, f ∷ fs)

  -- read_hunk; `fuel` bounds the depth of the calls that follow references.
  unfoldable pub read_hunk : ℕ → ReadHunk S
  unfolding read_hunk_v4 read_hunk_plain read_hunk_packed
  read_hunk zero fs hunknum dest = out_of_fuel
  read_hunk (suc fuel) [] hunknum dest = null_pointer
  read_hunk (suc fuel) (f ∷ fs) hunknum dest =
      let again : ReadHunk S = read_hunk fuel in
      elim f.m_file [
        | none ↦ returns (some (chd not_open), dest, f ∷ fs)
        | some s ↦
            if leb f.m_hunkcount hunknum
            then returns (some (chd hunk_out_of_range), dest, f ∷ fs)
            else if f.m_version == 3 || (f.m_version == 4)
            then read_hunk_v4 again f fs hunknum dest
            else if f.m_version == 5
            then if not (compressed f)
              then read_hunk_plain again f fs hunknum dest
              else read_hunk_packed again f fs hunknum dest
            else returns (some (chd invalid_data), dest, f ∷ fs)
      ]

  -- write_hunk on the nearest file, within a list of files.
  abbrev pub write_front : List (File S) → ℕ → Buffer → Bool → Status × List (File S)
  write_front [] hunknum buffer from_cache = (none, [])
  write_front (f ∷ fs) hunknum buffer from_cache =
      let (e, f') = write_hunk device f hunknum buffer from_cache in (e, f' ∷ fs)

  -- The loop of write_bytes; `fuel` is that of the reads.
  unfoldable pub write_loop :
      ℕ → ℕ → ℕ → ℕ → ℕ → ℕ → ℕ → List (File S) → Buffer → Run (Status × List (File S))
  unfolding read_hunk start_offs end_offs
  write_loop fuel zero hunkbytes offset bytes curhunk at_ fs source = returns (none, fs)
  write_loop fuel (suc count) hunkbytes offset bytes curhunk at_ [] source = null_pointer
  write_loop fuel (suc count) hunkbytes offset bytes curhunk at_ (f ∷ fs) source =
      let startoffs = start_offs hunkbytes offset curhunk in
      let endoffs = end_offs hunkbytes offset bytes curhunk in
      let size = endoffs + 1 - startoffs in
      let full = (startoffs == 0) && (endoffs == hunkbytes - 1) && not (curhunk == f.m_cachehunk) in
      let rest : Status × List (File S) → Run (Status × List (File S)) = λ w. elim w.0 [
        | some e ↦ returns w
        | none ↦ write_loop fuel count hunkbytes offset bytes (curhunk + 1) (at_ + size) w.1 source
      ] in
      let patched : Buffer → Buffer = λ block. blit block startoffs (slice source at_ size) in
      let through : List (File S) → Buffer → Run (Status × List (File S)) = λ gs block.
        rest (write_front (set_cache gs (patched block) curhunk) curhunk (patched block) true) in
      let filled : Run (Status × List (File S)) = elim (read_hunk fuel (f ∷ fs) curhunk f.m_cache) [
        | returns (some e, block, gs) ↦ returns (some e, set_cache gs block f.m_cachehunk)
        | returns (none, block, gs) ↦ through gs block
        | null_pointer ↦ null_pointer
        | out_of_fuel ↦ out_of_fuel
      ] in
      if full
      then rest (write_front (f ∷ fs) curhunk (slice source at_ hunkbytes) false)
      else if curhunk == f.m_cachehunk
      then through (f ∷ fs) f.m_cache
      else filled

  unfoldable pub write_bytes : ℕ → List (File S) → ℕ → Buffer → ℕ → Run (Status × List (File S))
  unfolding write_loop
  write_bytes fuel [] offset source bytes = null_pointer
  write_bytes fuel (f ∷ fs) offset source bytes =
      write_loop fuel (hunks_in f.m_hunkbytes offset bytes) f.m_hunkbytes offset bytes
        (u32 (offset / f.m_hunkbytes)) 0 (f ∷ fs) source
