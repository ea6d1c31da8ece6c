-- ===== src/Sys/CdImage.antt =====
-- sys/cd_shim.cpp: the table of contents that the bridge pads and measures, and CdCompressor, which
-- reads the frames of a disc image for the compressor. The tables are those of
-- mame-chd-src/src/lib/util/cdrom.h, cut to the fields that the bridge reads.
pub mod Padding
pub mod Frames
pub mod Disc
pub mod FrameBytes
pub mod DiscBytes
pub mod Tests
use text.Mathlib.Text.{◌==◌ as str_eq}
use Prim.Native.String.{String}
use libchdman_rs.Prelude.{
  ℕ, zero, suc, ◌+◌, ◌-◌, ◌*◌, ◌/◌, ◌%◌, ◌^◌, Bool, true, false, not, ◌&&◌, ◌||◌, Option, none,
  some, List, [], ◌∷◌, ◌++◌, map, if◌then◌else◌, ltb, leb, ◌==◌, length, replicate, overwrite,
  get_or, take,
}
use libchdman_rs.Bytes.{Buffer}

-- cdrom_file::track_info.
pub record TrackInfo : Type 0 where
  pub trktype : ℕ
  pub subtype : ℕ
  pub datasize : ℕ
  pub subsize : ℕ
  pub frames : ℕ
  pub extraframes : ℕ
  pub pregap : ℕ
  pub postgap : ℕ
  pub pgtype : ℕ
  pub pgsub : ℕ
  pub pgdatasize : ℕ
  pub pgsubsize : ℕ
  pub padframes : ℕ
  pub splitframes : ℕ

-- cdrom_file::track_input_entry.
pub record TrackInput : Type 0 where
  pub fname : String
  pub offset : ℕ
  pub swap : Bool

-- chd_shim_toc_t: the tracks below numtrks, each with its source.
pub record Toc : Type 0 where
  pub numsessions : ℕ
  pub flags : ℕ
  pub tracks : List (TrackInfo × TrackInput)

abbrev pub frame_size : ℕ
frame_size = 2448

abbrev pub track_padding : ℕ
track_padding = 4

abbrev pub u32 : ℕ → ℕ
u32 n = n % 2 ^ 32

abbrev pub u64 : ℕ → ℕ
u64 n = n % 2 ^ 64

-- a - b on uint64_t.
abbrev pub sub64 : ℕ → ℕ → ℕ
sub64 a b = (a % 2 ^ 64 + 2 ^ 64 - b % 2 ^ 64) % 2 ^ 64

-- One round of chd_shim_toc_pad_tracks.
unfoldable pub pad_track : TrackInfo → TrackInfo
pad_track t =
    let padded = u32 (t.frames + track_padding - 1) / track_padding in
    record t { extraframes = u32 (u32 (padded * track_padding) + 2 ^ 32 - t.frames) }

-- chd_shim_toc_pad_tracks.
unfoldable pub pad_tracks : Toc → Toc
unfolding pad_track
pad_tracks toc = record toc { tracks = map (λ e. (pad_track e.0, e.1)) toc.tracks }

-- (uint64_t)(t.frames + t.extraframes) * FRAME_SIZE; the sum is a uint32_t.
unfoldable pub track_bytes : TrackInfo → ℕ
track_bytes t = u32 (t.frames + t.extraframes) * frame_size

-- The loop of chd_shim_toc_logical_bytes.
unfoldable pub sum_bytes : ℕ → List (TrackInfo × TrackInput) → ℕ
sum_bytes total [] = total
sum_bytes total (e ∷ es) = sum_bytes (u64 (total + track_bytes e.0)) es

unfoldable pub logical_bytes : Toc → ℕ
unfolding sum_bytes track_bytes
logical_bytes toc = sum_bytes 0 toc.tracks

-- The files of a disc image: core_file::open by name, and a seek to an offset followed by a read of a
-- number of bytes, which may deliver fewer (the end of the file, or an error).
abbrev pub Files : Type 0
Files = String → Option (ℕ → ℕ → Buffer)

-- `for (swapindex = 0; swapindex < 2 * k; swapindex += 2)`: swaps the two bytes of each pair.
unfoldable pub swap_pairs : ℕ → Buffer → Buffer
swap_pairs zero b = b
swap_pairs (suc k) [] = []
swap_pairs (suc k) (x ∷ []) = x ∷ []
swap_pairs (suc k) (x ∷ y ∷ b) = y ∷ x ∷ swap_pairs k b

-- The places of a track in its source, as CdCompressor::read_data computes them.
unfoldable pub bytes_per_frame : TrackInfo → ℕ
bytes_per_frame t = u32 (t.datasize + t.subsize)

unfoldable pub src_track_end : TrackInfo → TrackInput → ℕ
src_track_end t i = u64 (i.offset + bytes_per_frame t * t.frames)

unfoldable pub split_offset : TrackInfo → TrackInput → ℕ
split_offset t i = sub64 (src_track_end t i) (t.splitframes * bytes_per_frame t)

unfoldable pub split_track_start : TrackInfo → TrackInput → ℕ
split_track_start t i = if t.splitframes == 0 then 2 ^ 64 - 1 else split_offset t i

unfoldable pub pad_track_start : TrackInfo → TrackInput → ℕ
pad_track_start t i = sub64 (split_offset t i) (t.padframes * bytes_per_frame t)

-- The source offset of the frame at `index` in the track.
unfoldable pub src_frame_start : TrackInfo → TrackInput → ℕ → ℕ
src_frame_start t i index = u64 (i.offset + index * bytes_per_frame t)

-- Whether the frame that starts there is one of the split frames, which the next track's file holds.
unfoldable pub in_split : TrackInfo → TrackInput → ℕ → Bool
in_split t i start = leb (split_track_start t i) start && ltb start (src_track_end t i)

-- The file with that name is the one that is open.
abbrev pub is_open : String → Option String → Bool
is_open name none = false
is_open name (some last) = str_eq last name

-- Leaves `name` as the open file (m_file with m_lastfile); `none` where it does not open.
unfoldable pub open_file : Files → String → Option String → Option String
open_file files name opened =
    if is_open name opened
    then some name
    else elim (files name) [ none ↦ none | some _ ↦ some name ]

-- A frame as memset left it.
unfoldable pub blank : Buffer
blank = replicate frame_size 0

-- seek and read from the open file; nothing is read where either fails.
unfoldable pub fetch : Files → String → ℕ → ℕ → Buffer
fetch files name offset count = elim (files name) [
  | none ↦ []
  | some read ↦ take count (read offset count)
]

-- What the loop leaves in the frame of `dest`, reading from the file `name`. This is so where the
-- frames of the track take at most 2448 bytes (cdrom.h has none longer): the source does not check
-- this, and would write a longer frame into the next one.
unfoldable pub content : Files → TrackInfo → TrackInput → ℕ → String → Buffer
content files t i start name =
    if ltb start (src_track_end t i)
    then (let split = split_track_start t i in
        let raw =
          if leb (pad_track_start t i) start && ltb start split
          then blank
          else overwrite blank (
              fetch files name (if leb split start then start - split else start)
                (bytes_per_frame t)) in
        if i.swap then swap_pairs 1176 raw else raw)
    else blank

-- One round of the loop over the frames of a track: the frame and the file that is open after it.
-- `next` is the source of the next track, and `index` the frame's number in the track.
unfoldable pub read_frame :
    Files → TrackInfo → TrackInput → TrackInput → ℕ → String → Option (Buffer × String)
read_frame files t i next index name =
    let start = src_frame_start t i index in
    if in_split t i start
    then elim (open_file files next.fname (some name)) [
      | none ↦ none
      | some other ↦ some (content files t i start other, other)
    ]
    else some (content files t i start name, name)

-- What a loop of read_data has done: the frames that it wrote, how many are left (in frames), the
-- offset that it reached, the file that is open, and whether it returned because a file did not open.
pub record Outcome : Type 0 where
  pub out : Buffer
  pub left : ℕ
  pub offset : ℕ
  pub opened : Option String
  pub failed : Bool

abbrev pub prepend : Buffer → Outcome → Outcome
prepend b r = record r { out = b ++ r.out }

-- `while (length_remaining != 0 && offset < endoffs)`, with `k` frames remaining.
unfoldable pub frames_loop :
    Files → TrackInfo → TrackInput → TrackInput → ℕ → ℕ → ℕ → ℕ → String → Outcome
frames_loop files t i next startoffs endoffs zero offset name = record {
  out = [];
  left = 0;
  offset = offset;
  opened = some name;
  failed = false;
}
frames_loop files t i next startoffs endoffs (suc k) offset name =
    if ltb offset endoffs
    then elim (read_frame files t i next ((offset - startoffs) / frame_size) name) [
      | none ↦ record { out = []; left = suc k; offset = offset; opened = none; failed = true }
      | some (frame, name') ↦
          prepend frame
            (frames_loop files t i next startoffs endoffs k (u64 (offset + frame_size)) name')
    ]
    else record { out = []; left = suc k; offset = offset; opened = some name; failed = false }

-- A track_input_entry after its reset().
abbrev pub no_input : TrackInput
no_input = record { fname = ""; offset = 0; swap = false }

-- m_info.track[tracknum + 1].
abbrev pub next_input : List (TrackInfo × TrackInput) → TrackInput
next_input [] = no_input
next_input (e ∷ es) = e.1

-- The loop over the tracks.
unfoldable pub tracks_loop :
    Files → List (TrackInfo × TrackInput) → ℕ → ℕ → ℕ → Option String → Outcome
tracks_loop files [] startoffs k offset opened = record {
  out = [];
  left = k;
  offset = offset;
  opened = opened;
  failed = false;
}
tracks_loop files (e ∷ es) startoffs k offset opened =
    let endoffs = u64 (startoffs + track_bytes e.0) in
    let skipped = tracks_loop files es endoffs k offset opened in
    if leb startoffs offset && ltb offset endoffs
    then elim (open_file files e.1.fname opened) [
      | none ↦ record { out = []; left = k; offset = offset; opened = none; failed = true }
      | some name ↦
          let r = frames_loop files e.0 e.1 (next_input es) startoffs endoffs k offset name in
          let rest = tracks_loop files es endoffs r.left r.offset r.opened in
          if r.failed then r else prepend r.out rest
    ]
    else skipped

-- What CdCompressor::read_data returns and leaves in `dest`, with the file that stays open.
pub record ReadData : Type 0 where
  pub count : ℕ
  pub dest : Buffer
  pub opened : Option String

-- CdCompressor::read_data. A call that it refuses leaves `dest` alone.
unfoldable pub read_data : Files → Toc → Option String → Buffer → ℕ → ℕ → ReadData
read_data files toc opened dest offset length =
    if not (offset % frame_size == 0) || not (length % frame_size == 0)
    then record { count = 0; dest = dest; opened = opened }
    else (let r = tracks_loop files toc.tracks 0 (length / frame_size) offset opened in
        record {
          count = length - r.left * frame_size;
          dest = r.out ++ replicate (r.left * frame_size) 0;
          opened = r.opened;
        })

-- What chd_shim_toc_get_track writes for a track that is not there.
abbrev pub no_track : TrackInfo
no_track = record {
  trktype = 0;
  subtype = 0;
  datasize = 0;
  subsize = 0;
  frames = 0;
  extraframes = 0;
  pregap = 0;
  postgap = 0;
  pgtype = 0;
  pgsub = 0;
  pgdatasize = 0;
  pgsubsize = 0;
  padframes = 0;
  splitframes = 0;
}

-- chd_shim_toc_get_track, with copy_track, which copies the fields of TrackInfo.
unfoldable pub get_track : List (TrackInfo × TrackInput) → ℕ → TrackInfo
get_track [] i = no_track
get_track (e ∷ es) zero = e.0
get_track (e ∷ es) (suc i) = get_track es i
