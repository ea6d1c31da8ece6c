-- ===== src/Cdrom/Read.antt =====
-- mame-chd-src/src/lib/util/cdrom.cpp: cdrom_file::read_partial_sector, read_data and read_subcode, and
-- the addresses in minutes, seconds and frames of cdrom.h.
use Prim.Native.Nat.{bit_and, bit_or}
use libchdman_rs.Prelude.{
  ℕ, ◌+◌, ◌-◌, ◌*◌, ◌/◌, ◌%◌, ◌^◌, Bool, true, false, not, ◌&&◌, ◌||◌, Option, none, some, List, [],
  ◌∷◌, ◌++◌, if◌then◌else◌, ltb, ◌==◌, replicate, overwrite, get_or, drop,
}
use libchdman_rs.Bytes.{Buffer, put_u24be}
use libchdman_rs.Errors.{Status}
use libchdman_rs.Sys.CdImage.{
  TrackInfo, TrackInput, no_track, no_input, u32, u64, swap_pairs, frame_size,
}
use libchdman_rs.Cdrom.{Offsets, last_offsets, sub32, physical_to_chd_lba, logical_to_chd_lba}

abbrev pub mode1 : ℕ
mode1 = 0

abbrev pub mode1_raw : ℕ
mode1_raw = 1

abbrev pub mode2 : ℕ
mode2 = 2

abbrev pub mode2_form1 : ℕ
mode2_form1 = 3

abbrev pub mode2_form2 : ℕ
mode2_form2 = 4

abbrev pub mode2_form_mix : ℕ
mode2_form_mix = 5

abbrev pub mode2_raw : ℕ
mode2_raw = 6

abbrev pub audio : ℕ
audio = 7

abbrev pub raw_dontcare : ℕ
raw_dontcare = 8

-- A read at an offset, of a length, into a buffer.
abbrev pub RandomRead : Type 0
RandomRead = ℕ → ℕ → Buffer → Status × Buffer

-- cdrom_file: its table of contents, with the entry behind the last track, and the CHD or the source files
-- of the tracks.
pub record Disc : Type 0 where
  pub flags : ℕ
  pub tracks : List TrackInfo
  pub offsets : List Offsets
  pub chd : Option RandomRead
  pub fhandle : ℕ → RandomRead
  pub inputs : List TrackInput

abbrev pub track_at : Disc → ℕ → TrackInfo
track_at disc n = get_or disc.tracks n no_track

abbrev pub offsets_at : Disc → ℕ → Offsets
offsets_at disc n = get_or disc.offsets n (last_offsets 0 0 0)

-- Swaps the bytes of each pair up to byte 2352 of the sector.
abbrev pub swap_from : ℕ → Buffer → Buffer
swap_from startoffs dest = swap_pairs ((2352 - startoffs + 1) / 2) dest

abbrev pub swap_if : Bool → ℕ → Status × Buffer → Status × Buffer
swap_if needswap startoffs (e, dest) = (e, if needswap then swap_from startoffs dest else dest)

unfoldable pub read_partial_sector : Disc → Buffer → ℕ → ℕ → ℕ → ℕ → ℕ → Bool → Status × Buffer
read_partial_sector disc dest lbasector chdsector tracknum startoffs length_ phys =
    let t = track_at disc tracknum in
    let i = get_or disc.inputs tracknum no_input in
    let blank =
      not phys && (t.pgdatasize == 0 && ltb lbasector (offsets_at disc tracknum).logframeofs) in
    let played =
      if not phys && not (t.pgdatasize == 0) then u32 (chdsector + t.pregap) else chdsector in
    let filed = if not (t.pgdatasize == 0) then u32 (chdsector + t.pregap) else chdsector in
    let place = u64 (i.offset + u32 (filed * u32 (t.datasize + t.subsize) + startoffs)) in
    let little = not (bit_and disc.flags 2 == 0) && (t.trktype == audio) in
    let from_source : Status × Buffer = elim disc.chd [
      | some read ↦
          swap_if little startoffs (read (u64 (played * frame_size + startoffs)) length_ dest)
      | none ↦ swap_if i.swap startoffs (disc.fhandle tracknum place length_ dest)
    ] in
    if blank then (none, overwrite dest (replicate length_ 0)) else from_source

-- lba_to_msf: minutes, seconds and frames, two decimal digits each.
unfoldable pub lba_to_msf : ℕ → ℕ
lba_to_msf lba =
    let m = lba / 4500 % 256 in
    let lba' = sub32 lba (m * 4500) in
    let s = lba' / 75 % 256 in
    let f = lba' % 75 in
    bit_or
      (bit_or
        (bit_or (bit_or (bit_or (m / 10 * 2 ^ 20) (m % 10 * 2 ^ 16)) (s / 10 * 2 ^ 12))
          (s % 10 * 2 ^ 8))
        (f / 10 * 2 ^ 4))
      (f % 10)

abbrev pub syncbytes : Buffer
syncbytes = 0 ∷ 255 ∷ 255 ∷ 255 ∷ 255 ∷ 255 ∷ 255 ∷ 255 ∷ 255 ∷ 255 ∷ 255 ∷ 0 ∷ []

-- `!read_partial_sector(...)`.
abbrev pub succeeded : Status × Buffer → Bool × Buffer
succeeded (none, dest) = (true, dest)
succeeded (some e, dest) = (false, dest)

abbrev pub sector_of : Disc → ℕ → Bool → ℕ × ℕ
sector_of disc lbasector phys =
    if phys
    then physical_to_chd_lba 0 lbasector disc.offsets
    else logical_to_chd_lba 0 lbasector disc.offsets

-- The header of a promoted sector, and the data behind it.
abbrev pub promoted : Buffer → Bool × Buffer → Bool × Buffer
promoted header (ok, data_) = (ok, header ++ data_)

-- read_data and read_subcode behind the choice of the sector and the track.
unfoldable pub sector_data : Disc → ℕ → Buffer → ℕ → Bool → ℕ × ℕ → Bool × Buffer
unfolding read_partial_sector lba_to_msf
sector_data disc lbasector buffer datatype phys (chdsector, tracknum) =
    let tracktype = (track_at disc tracknum).trktype in
    let part : ℕ → ℕ → Buffer → Bool × Buffer = λ startoffs length_ dest.
      succeeded
        (read_partial_sector disc dest lbasector chdsector tracknum startoffs length_ phys) in
    let header = syncbytes ++ (put_u24be (lba_to_msf lbasector) ++ (1 ∷ [])) in
    if (datatype == tracktype) || (datatype == raw_dontcare)
    then part 0 (track_at disc tracknum).datasize buffer
    else if (datatype == mode1) && (tracktype == mode1_raw)
    then part 16 2048 buffer
    else if (datatype == mode1_raw) && (tracktype == mode1)
    then promoted header (part 0 2048 (drop 16 buffer))
    else if (datatype == mode1) && ((tracktype == mode2_form1) || (tracktype == mode2_raw))
    then part 24 2048 buffer
    else if (datatype == mode1) && (tracktype == mode2_form_mix)
    then part 8 2048 buffer
    else if (datatype == mode2) && ((tracktype == mode1_raw) || (tracktype == mode2_raw))
    then part 16 2336 buffer
    else (false, buffer)

unfoldable pub read_data : Disc → ℕ → Buffer → ℕ → Bool → Bool × Buffer
unfolding sector_data
read_data disc lbasector buffer datatype phys =
    sector_data disc lbasector buffer datatype phys (sector_of disc lbasector phys)

unfoldable pub sector_subcode : Disc → ℕ → Buffer → Bool → ℕ × ℕ → Bool × Buffer
unfolding read_partial_sector
sector_subcode disc lbasector buffer phys (chdsector, tracknum) =
    let t = track_at disc tracknum in
    if t.subsize == 0
    then (false, buffer)
    else succeeded
        (read_partial_sector disc buffer lbasector chdsector tracknum t.datasize t.subsize phys)

unfoldable pub read_subcode : Disc → ℕ → Buffer → Bool → Bool × Buffer
unfolding sector_subcode
read_subcode disc lbasector buffer phys =
    sector_subcode disc lbasector buffer phys (sector_of disc lbasector phys)
