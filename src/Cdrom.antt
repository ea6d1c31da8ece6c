-- ===== src/Cdrom.antt =====
-- mame-chd-src/src/lib/util/cdrom.cpp and cdrom.h, class cdrom_file: the frames of the tracks of a disc
-- and where a CHD or a source file holds them.
pub mod Layout
pub mod Read
pub mod Frames
pub mod Ecc
pub mod Types
pub mod Toc
pub mod Tests
use libchdman_rs.Prelude.{
  ℕ, zero, suc, ◌+◌, ◌-◌, ◌*◌, ◌/◌, ◌%◌, ◌^◌, Bool, true, false, not, ◌&&◌, ◌||◌, List, [], ◌∷◌,
  if◌then◌else◌, ltb, leb, ◌==◌,
}
use libchdman_rs.Sys.CdImage.{TrackInfo, u32}

-- a - b on uint32_t.
abbrev pub sub32 : ℕ → ℕ → ℕ
sub32 a b = (a + 2 ^ 32 - b % 2 ^ 32) % 2 ^ 32

-- The fields of cdrom_file::track_info that the constructors fill.
pub record Offsets : Type 0 where
  pub logframeofs : ℕ
  pub physframeofs : ℕ
  pub chdframeofs : ℕ
  pub logframes : ℕ

-- What the frames of a track add to logofs in front of it, and to its own logframeofs.
abbrev pub gap_outside : TrackInfo → ℕ
gap_outside t = if t.pgdatasize == 0 then t.pregap else 0

abbrev pub gap_inside : TrackInfo → ℕ
gap_inside t = if t.pgdatasize == 0 then 0 else t.pregap

-- The entry behind the last track.
abbrev pub last_offsets : ℕ → ℕ → ℕ → Offsets
last_offsets physofs chdofs logofs = record {
  logframeofs = logofs;
  physframeofs = physofs;
  chdframeofs = chdofs;
  logframes = 0;
}

-- The loop of the constructor for a CHD, and the entry behind the last track.
unfoldable pub place_tracks : ℕ → ℕ → ℕ → List TrackInfo → List Offsets
place_tracks physofs chdofs logofs [] = last_offsets physofs chdofs logofs ∷ []
place_tracks physofs chdofs logofs (t ∷ ts) =
    let logofs' = u32 (logofs + gap_outside t) in
    record {
      logframeofs = u32 (gap_inside t + logofs');
      physframeofs = physofs;
      chdframeofs = chdofs;
      logframes = sub32 t.frames t.pregap;
    }
    ∷ place_tracks (u32 (physofs + t.frames)) (u32 (u32 (chdofs + t.frames) + t.extraframes))
        (u32 (u32 (logofs' + t.postgap) + t.frames)) ts

-- cdrom_file::physical_to_chd_lba and the track it sets, which stays `tracknum` where none is found.
-- `track` counts the tracks of the list.
unfoldable pub physical_loop : ℕ → ℕ → ℕ → List Offsets → ℕ × ℕ
physical_loop tracknum track physlba [] = (physlba, tracknum)
physical_loop tracknum track physlba (o ∷ []) = (physlba, tracknum)
physical_loop tracknum track physlba (o ∷ next ∷ os) =
    if ltb physlba next.physframeofs
    then (u32 (sub32 physlba o.physframeofs + o.chdframeofs), track)
    else physical_loop tracknum (suc track) physlba (next ∷ os)

unfoldable pub physical_to_chd_lba : ℕ → ℕ → List Offsets → ℕ × ℕ
unfolding physical_loop
physical_to_chd_lba tracknum physlba tracks = physical_loop tracknum 0 physlba tracks

-- cdrom_file::logical_to_chd_lba.
unfoldable pub logical_loop : ℕ → ℕ → ℕ → List Offsets → ℕ × ℕ
logical_loop tracknum track loglba [] = (loglba, tracknum)
logical_loop tracknum track loglba (o ∷ []) = (loglba, tracknum)
logical_loop tracknum track loglba (o ∷ next ∷ os) =
    let physlba = u32 (o.physframeofs + sub32 loglba o.logframeofs) in
    if ltb loglba next.logframeofs
    then (u32 (sub32 physlba o.physframeofs + o.chdframeofs), track)
    else logical_loop tracknum (suc track) loglba (next ∷ os)

unfoldable pub logical_to_chd_lba : ℕ → ℕ → List Offsets → ℕ × ℕ
unfolding logical_loop
logical_to_chd_lba tracknum loglba tracks = logical_loop tracknum 0 loglba tracks

-- cdrom_file::get_track.
unfoldable pub track_of : ℕ → List Offsets → ℕ
unfolding logical_to_chd_lba
track_of frame tracks = (logical_to_chd_lba 0 frame tracks).1
