-- ===== src/Sys/CdImage/Padding.antt =====
-- sys/cd_shim.cpp: what padding does to the tracks and to the size of the disc.
use libchdman_rs.Prelude.{ℕ, ◌+◌, ◌*◌, ◌%◌, ◌^◌, ◌<◌, ◌≤◌, ◌≡◌, refl, List, [], ◌∷◌, ◌∙◌, arith}
use libchdman_rs.Sys.CdImage.{
  TrackInfo, TrackInput, Toc, pad_track, track_bytes, sum_bytes, logical_bytes, u64,
}

-- For a track of at most 2 ^ 32 - 4 frames, padding brings a track to a multiple of 4 frames with
-- fewer than 4 extra frames, and padding again changes nothing.
pub pad_track_aligned :
    (t : TrackInfo)
    → t.frames + 4 ≤ 2 ^ 32
    → ((pad_track t).extraframes < 4)
      × ((t.frames + (pad_track t).extraframes) % 4 ≡ 0)
      × (pad_track (pad_track t) ≡ pad_track t)
unfolding pad_track
pad_track_aligned t h = (omega arith, omega arith, refl)

abbrev pub All {ℓ κ} : {A : Type ℓ} → (A → Type κ) → List A → Type κ
All P [] = Unit
All P (x ∷ xs) = P x × All P xs

-- The frames of the tracks, padding included.
abbrev pub total_frames : List (TrackInfo × TrackInput) → ℕ
total_frames [] = 0
total_frames (e ∷ es) = e.0.frames + e.0.extraframes + total_frames es

-- No track has 2 ^ 32 frames.
abbrev pub IsCounted : TrackInfo × TrackInput → Type 0
IsCounted e = e.0.frames + e.0.extraframes < 2 ^ 32

sum_bytes_lem :
    (total : ℕ) (es : List (TrackInfo × TrackInput))
    → All IsCounted es
    → total + total_frames es * 2448 < 2 ^ 64
    → sum_bytes total es ≡ total + total_frames es * 2448
unfolding sum_bytes track_bytes
sum_bytes_lem total [] c h = omega arith
sum_bytes_lem total (e ∷ es) c h =
    let moved : u64 (total + track_bytes e.0) ≡ total + (e.0.frames + e.0.extraframes) * 2448 =
      omega arith in
    rw moved (
      sum_bytes_lem (total + (e.0.frames + e.0.extraframes) * 2448) es c.1 (omega arith)
      ∙ omega arith)

-- Where no track has 2 ^ 32 frames or more with its extra frames, and the sum is below 2 ^ 64, the
-- logical size is 2448 bytes for each frame, padding included.
pub logical_bytes_lem :
    (toc : Toc)
    → All IsCounted toc.tracks
    → total_frames toc.tracks * 2448 < 2 ^ 64
    → logical_bytes toc ≡ total_frames toc.tracks * 2448
unfolding logical_bytes
logical_bytes_lem toc c h = omega (arith, sum_bytes_lem 0 toc.tracks c (omega arith))
