-- ===== src/Cdrom/Frames.antt =====
-- cdrom_file::read_data on a CHD, for each logical frame of the disc.
use Prim.Native.Nat.{bit_and}
use libchdman_rs.Prelude.{
  ℕ, ◌+◌, ◌*◌, ◌^◌, ◌≡◌, ◌<◌, ◌≤◌, refl, ap, ◌∙◌, true, false, not, ◌&&◌, ◌||◌, none, some, List,
  [], ◌∷◌, ◌++◌, if◌then◌else◌, ltb, ◌==◌, length, get_or, arith,
}
use libchdman_rs.Bytes.{Buffer}
use libchdman_rs.Sys.CdImage.{TrackInfo, no_track, u32, u64}
use libchdman_rs.Cdrom.{Offsets, last_offsets, gap_inside, gap_outside, place_tracks}
use libchdman_rs.Cdrom.Layout.{
  disc_frames, chd_frames, log_frames, PregapsFit, next_pregap, logical_to_chd_lba-place_tracks,
}
use libchdman_rs.Cdrom.Read.{
  RandomRead, Disc, track_at, offsets_at, swap_if, audio, raw_dontcare, read_partial_sector,
  succeeded, sector_data, read_data,
}

-- The disc that the constructor for a CHD makes of its table of contents.
abbrev pub chd_disc : ℕ → List TrackInfo → RandomRead → Disc
chd_disc flags tracks read = record {
  flags = flags;
  tracks = tracks;
  offsets = place_tracks 0 0 0 tracks;
  chd = some read;
  fhandle = λ n offset length_ dest. (none, dest);
  inputs = [];
}

get_or-length :
    (pre : List TrackInfo) (t : TrackInfo) (post : List TrackInfo) (d : TrackInfo)
    → get_or (pre ++ (t ∷ post)) (length pre) d ≡ t
get_or-length [] t post d = refl
get_or-length (s ∷ pre) t post d = get_or-length pre t post d

offsets_lem :
    (p c l : ℕ) (pre : List TrackInfo) (t : TrackInfo) (post : List TrackInfo) (d : Offsets)
    → l + log_frames pre + gap_outside t + gap_inside t < 2 ^ 32
    → (get_or (place_tracks p c l (pre ++ (t ∷ post))) (length pre) d).logframeofs
      ≤ l + log_frames pre + gap_outside t + gap_inside t
unfolding place_tracks
offsets_lem p c l [] t post d h = omega (arith, h)
offsets_lem p c l (s ∷ pre) t post d h =
    let l' : ℕ = u32 (u32 (u32 (l + gap_outside s) + s.postgap) + s.frames) in
    omega (
      arith,
      h,
      offsets_lem (u32 (p + s.frames)) (u32 (u32 (c + s.frames) + s.extraframes)) l' pre t post d
          (omega (arith, h)),
    )

-- A sector of the type that is asked for.
matching :
    (disc : Disc) (lba : ℕ) (buffer : Buffer) (datatype c n : ℕ)
    → (datatype == (track_at disc n).trktype) || (datatype == raw_dontcare) ≡ true
    → sector_data disc lba buffer datatype false (c, n)
      ≡ succeeded (read_partial_sector disc buffer lba c n 0 (track_at disc n).datasize false)
unfolding sector_data
matching disc lba buffer datatype c n same = rw (same, sector_data) refl

-- A sector that is not blank.
read_chd :
    (flags : ℕ) (tracks : List TrackInfo) (read : RandomRead) (buffer : Buffer)
    (lba c n length_ : ℕ)
    → (offsets_at (chd_disc flags tracks read) n).logframeofs ≤ lba
    → c + gap_inside (get_or tracks n no_track) < 2 ^ 32
    → read_partial_sector (chd_disc flags tracks read) buffer lba c n 0 length_ false
      ≡ swap_if
          (not (bit_and flags 2 == 0) && ((get_or tracks n no_track).trktype == audio))
          0
          (read ((c + gap_inside (get_or tracks n no_track)) * 2448) length_ buffer)
unfolding read_partial_sector
read_chd flags tracks read buffer lba c n length_ start fits =
    let t : TrackInfo = get_or tracks n no_track in
    let blank : (t.pgdatasize == 0
          && ltb lba (offsets_at (chd_disc flags tracks read) n).logframeofs)
        ≡ false =
      ground (arith, start) in
    let place : u64 ((if not (t.pgdatasize == 0) then u32 (c + t.pregap) else c) * 2448 + 0)
        ≡ (c + gap_inside t) * 2448 =
      ground (arith, fits) in
    rw blank (
      ap
        (λ q.
          swap_if (not (bit_and flags 2 == 0) && (t.trktype == audio)) 0 (read q length_ buffer))
        place)

-- On a CHD whose table of contents has the tracks pre, t and post, with numbers that fit 32 bits
-- and pregaps in the file that fit their tracks, read_data of a logical frame that lies j frames
-- behind index 1 of t inside the data of t (no frame of its postgap or of a pregap of the next
-- track), for the type of t or for any type, is one read of the size of its data at the frame of
-- the CHD that lies behind the frames and extra frames of pre and behind the pregap of t in the
-- file, with the bytes swapped for the audio of a little-endian GD-ROM.
pub read_data-frame :
    (flags : ℕ) (pre : List TrackInfo) (t : TrackInfo) (post : List TrackInfo) (read : RandomRead)
    (j : ℕ) (buffer : Buffer) (datatype : ℕ)
    → PregapsFit pre
    → disc_frames pre + j < 2 ^ 32
    → chd_frames pre + gap_inside t + j < 2 ^ 32
    → log_frames pre + gap_outside t + t.postgap + t.frames + next_pregap post < 2 ^ 32
    → gap_inside t + j < t.frames
    → (datatype == t.trktype) || (datatype == raw_dontcare) ≡ true
    → read_data
        (chd_disc flags (pre ++ (t ∷ post)) read)
        (log_frames pre + gap_outside t + gap_inside t + j)
        buffer
        datatype
        false
      ≡ succeeded (
          swap_if
            (not (bit_and flags 2 == 0) && (t.trktype == audio))
            0
            (read ((chd_frames pre + gap_inside t + j) * 2448) t.datasize buffer))
unfolding read_data
read_data-frame flags pre t post read j buffer datatype fit hp hc hl hj same =
    let tracks : List TrackInfo = pre ++ (t ∷ post) in
    let lba : ℕ = log_frames pre + gap_outside t + gap_inside t + j in
    let disc : Disc = chd_disc flags tracks read in
    let sector =
      logical_to_chd_lba-place_tracks 0 j pre t post fit hp (omega (arith, hc)) hl
        (omega (arith, hj)) in
    let track : get_or tracks (length pre) no_track ≡ t = get_or-length pre t post no_track in
    let start : (offsets_at disc (length pre)).logframeofs ≤ lba =
      omega (arith, offsets_lem 0 0 0 pre t post (last_offsets 0 0 0) (omega (arith, hl, hj))) in
    let c : ℕ = chd_frames pre + j in
    let order : (c + gap_inside t) * 2448 ≡ (chd_frames pre + gap_inside t + j) * 2448 =
      omega arith in
    let fits : c + gap_inside (get_or tracks (length pre) no_track) < 2 ^ 32 =
      rw track (omega (arith, hc)) in
    ap (sector_data disc lba buffer datatype false) sector
    ∙ matching disc lba buffer datatype c (length pre) (rw track same)
    ∙ ap succeeded (
        read_chd flags tracks read buffer lba c (length pre) _ start fits
        ∙ ap
            (λ (u : TrackInfo).
              swap_if (not (bit_and flags 2 == 0) && (u.trktype == audio)) 0
                (read ((c + gap_inside u) * 2448) u.datasize buffer))
            track
        ∙ ap
            (λ q.
              swap_if (not (bit_and flags 2 == 0) && (t.trktype == audio)) 0
                (read q t.datasize buffer))
            order)
