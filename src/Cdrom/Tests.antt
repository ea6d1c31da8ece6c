-- ===== src/Cdrom/Tests.antt =====
-- cdrom_file: a disc of a data track and an audio track with a pregap in the file, and a sector.
use libchdman_rs.Prelude.{
  ℕ, ◌<◌, ◌≤◌, ◌≡◌, ◌⊎◌, refl, true, false, none, List, [], ◌∷◌, replicate, arith,
}
use libchdman_rs.Bytes.{byte}
use libchdman_rs.Sys.CdImage.{TrackInfo, no_track}
use libchdman_rs.Cdrom.{place_tracks, physical_to_chd_lba, logical_to_chd_lba}
use libchdman_rs.Cdrom.Layout.{physical_to_chd_lba-place_tracks, logical_to_chd_lba-place_tracks}
use libchdman_rs.Cdrom.Read.{RandomRead, read_data}
use libchdman_rs.Cdrom.Frames.{chd_disc, read_data-frame}
use libchdman_rs.Cdrom.Ecc.{compute_bytes, compute_in_place, ecc_verify, ecc_generate}
use libchdman_rs.Cdrom.Ecc.InPlace.{Differs, compute_in_place-Differs}
use libchdman_rs.Cdrom.Ecc.Generate.{ecc_verify-ecc_generate}
use libchdman_rs.Cdrom.Types.{
  get_type_string, convert_type_string_to_track_info, track_info-type_string,
}

abbrev data_track : TrackInfo
data_track = record no_track {
  trktype = 0;
  datasize = 2048;
  frames = 5;
  extraframes = 3;
  postgap = 1;
}

abbrev audio_track : TrackInfo
audio_track = record no_track {
  trktype = 7;
  datasize = 2352;
  frames = 6;
  extraframes = 2;
  pregap = 2;
  pgdatasize = 2352;
}

abbrev tracks : List TrackInfo
tracks = data_track ∷ audio_track ∷ []

physical_to_chd_lba-place_tracks_example :
    physical_to_chd_lba 0 6 (place_tracks 0 0 0 tracks) ≡ (9, 1)
physical_to_chd_lba-place_tracks_example =
    physical_to_chd_lba-place_tracks 0 1 (data_track ∷ []) audio_track [] (omega arith)
      (omega arith) (omega arith)

logical_to_chd_lba-place_tracks_example :
    logical_to_chd_lba 0 9 (place_tracks 0 0 0 tracks) ≡ (9, 1)
logical_to_chd_lba-place_tracks_example =
    logical_to_chd_lba-place_tracks 0 1 (data_track ∷ []) audio_track [] (omega arith, tt)
      (omega arith) (omega arith) (omega arith) (omega arith)

-- A CHD whose bytes are their offsets.
abbrev read : RandomRead
read offset length_ dest = (none, offset ∷ length_ ∷ [])

read_data-frame_example :
    read_data (chd_disc 0 tracks read) 9 [] 7 false ≡ (true, 26928 ∷ 2352 ∷ [])
read_data-frame_example =
    read_data-frame 0 (data_track ∷ []) audio_track [] read 1 [] 7 (omega arith, tt) (omega arith)
      (omega arith) (omega arith) (omega arith) refl

ecc_verify-ecc_generate_example :
    (ecc_verify (ecc_generate (replicate 2352 7)) ≡ true)
    × ((k : ℕ)
        → (k < 2076) ⊎ (2352 ≤ k)
        → byte (ecc_generate (replicate 2352 7)) k ≡ byte (replicate 2352 7) k)
ecc_verify-ecc_generate_example = ecc_verify-ecc_generate (replicate 2352 7) (omega arith)

track_info-type_string_example :
    convert_type_string_to_track_info (get_type_string 4) no_track
    ≡ record no_track { trktype = 4; datasize = 2324 }
track_info-type_string_example = track_info-type_string 4 no_track (omega arith)

-- A code of the first three source bytes.
compute_in_place-Differs_example :
    Differs 2076 2162
      (replicate 2352 7)
      (compute_in_place (replicate 2352 7) (0 ∷ 1 ∷ 2 ∷ []) 2076 2162)
      (compute_bytes (replicate 2352 7) (0 ∷ 1 ∷ 2 ∷ []))
compute_in_place-Differs_example =
    compute_in_place-Differs 2076 2076 2162 (omega arith) (omega arith) (omega arith)
      (λ e. omega (arith, e)) (replicate 2352 7) (omega arith) (omega arith) (0 ∷ 1 ∷ 2 ∷ []) refl
