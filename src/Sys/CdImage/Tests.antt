-- ===== src/Sys/CdImage/Tests.antt =====
-- sys/cd_shim.cpp: a small disc, and the theorems at it.
use libchdman_rs.Prelude.{
  ℕ, ◌+◌, ◌*◌, ◌/◌, ◌%◌, ◌<◌, ◌≡◌, refl, true, false, none, some, [], ◌∷◌, arith,
}
use libchdman_rs.Sys.CdImage.{
  TrackInfo, TrackInput, Toc, Files, pad_track, pad_tracks, logical_bytes, read_data,
  bytes_per_frame,
}
use libchdman_rs.Sys.CdImage.Padding.{pad_track_aligned, total_frames, logical_bytes_lem}
use libchdman_rs.Sys.CdImage.Frames.{Opens}
use libchdman_rs.Bytes.{byte}
use libchdman_rs.Sys.CdImage.DiscBytes.{disc_byte, read_data-disc_byte}

-- Each read delivers two bytes that tell its place.
abbrev files : Files
files name = some (λ offset count. offset / 2352 ∷ 7 ∷ [])

opens : Opens files
opens name = (λ offset count. offset / 2352 ∷ 7 ∷ [], refl)

abbrev track : ℕ → TrackInfo
track n = record {
  trktype = 1;
  subtype = 2;
  datasize = 2352;
  subsize = 0;
  frames = n;
  extraframes = 0;
  pregap = 0;
  postgap = 0;
  pgtype = 0;
  pgsub = 2;
  pgdatasize = 0;
  pgsubsize = 0;
  padframes = 0;
  splitframes = 0;
}

abbrev audio : TrackInput
audio = record { fname = "audio.bin"; offset = 0; swap = true }

abbrev cooked : TrackInput
cooked = record { fname = "data.bin"; offset = 2352; swap = false }

abbrev disc : Toc
disc = record { numsessions = 1; flags = 0; tracks = (track 3, audio) ∷ (track 5, cooked) ∷ [] }

padded_size : logical_bytes (pad_tracks disc) ≡ 12 * 2448
unfolding logical_bytes pad_tracks
padded_size = refl

pad_track_aligned_example :
    ((pad_track (track 5)).extraframes < 4)
    × ((5 + (pad_track (track 5)).extraframes) % 4 ≡ 0)
    × (pad_track (pad_track (track 5)) ≡ pad_track (track 5))
pad_track_aligned_example = pad_track_aligned (track 5) (omega arith)

logical_bytes_lem_example : logical_bytes disc ≡ total_frames disc.tracks * 2448
logical_bytes_lem_example = logical_bytes_lem disc (omega arith) (omega arith)

-- Two frames across the end of the first track.
read_data-disc_byte_example :
    let r = read_data files disc none [] (2 * 2448) (2 * 2448) in
    (r.count ≡ 2 * 2448)
    × ((j i : ℕ)
        → j < 2
        → i < 2448
        → byte r.dest (j * 2448 + i) ≡ disc_byte files disc.tracks (2 + j) i)
unfolding bytes_per_frame
read_data-disc_byte_example =
    read_data-disc_byte files opens disc none [] 2 2 (omega arith, (omega arith, tt))
      (omega arith, (omega arith, tt))
      (
        record { some_bytes = omega arith; frame_fits = omega arith; parts = omega arith },
        (record { some_bytes = omega arith; frame_fits = omega arith; parts = omega arith }, tt),
      )
      (omega arith) (omega arith)
