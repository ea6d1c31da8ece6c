-- ===== src/Cdrom/Layout.antt =====
-- cdrom_file: where the frames of the tracks stand on the CHD.
use libchdman_rs.Prelude.{
  ℕ, suc, ◌+◌, ◌^◌, ◌≡◌, ◌<◌, ◌≤◌, refl, ap, ◌∙◌, true, false, List, [], ◌∷◌, ◌++◌, if◌then◌else◌,
  ltb, length, arith,
}
use libchdman_rs.Sys.CdImage.{TrackInfo, u32}
use libchdman_rs.Cdrom.{
  sub32, gap_inside, gap_outside, place_tracks, physical_loop, physical_to_chd_lba, logical_loop,
  logical_to_chd_lba,
}

-- What a list of tracks takes of the disc, of the CHD, and of the logical frames.
abbrev pub disc_frames : List TrackInfo → ℕ
disc_frames [] = 0
disc_frames (t ∷ ts) = t.frames + disc_frames ts

abbrev pub chd_frames : List TrackInfo → ℕ
chd_frames [] = 0
chd_frames (t ∷ ts) = t.frames + t.extraframes + chd_frames ts

abbrev pub log_frames : List TrackInfo → ℕ
log_frames [] = 0
log_frames (t ∷ ts) = gap_outside t + t.postgap + t.frames + log_frames ts

physical_step :
    (tracknum track lba p c l : ℕ) (t : TrackInfo) (ts : List TrackInfo)
    → physical_loop tracknum track lba (place_tracks p c l (t ∷ ts)) ≡ (
        if ltb lba (u32 (p + t.frames))
        then (u32 (sub32 lba p + c), track)
        else physical_loop tracknum (suc track) lba (
            place_tracks
              (u32 (p + t.frames))
              (u32 (u32 (c + t.frames) + t.extraframes))
              (u32 (u32 (u32 (l + gap_outside t) + t.postgap) + t.frames))
              ts))
unfolding place_tracks physical_loop
physical_step tracknum track lba p c l t [] = refl
physical_step tracknum track lba p c l t (s ∷ ts) = refl

-- The place of a track behind the first one, counted from the first one.
end :
    (track c j : ℕ) (s : TrackInfo) (pre : List TrackInfo)
    → Path
        (ℕ × ℕ)
        (c + s.frames + s.extraframes + chd_frames pre + j, suc track + length pre)
        (c + chd_frames (s ∷ pre) + j, track + length (s ∷ pre))
end track c j s pre =
    let place : c + s.frames + s.extraframes + chd_frames pre + j ≡ c + chd_frames (s ∷ pre) + j =
      omega arith in
    let number : suc track + length pre ≡ track + length (s ∷ pre) = omega arith in
    ap (λ q. (q, suc track + length pre)) place ∙ ap (λ q. (c + chd_frames (s ∷ pre) + j, q)) number

physical_lem :
    (tracknum track p c l j : ℕ) (pre : List TrackInfo) (t : TrackInfo) (post : List TrackInfo)
    → p + disc_frames pre + t.frames < 2 ^ 32
    → c + chd_frames pre + t.frames < 2 ^ 32
    → j < t.frames
    → physical_loop tracknum track
        (p + disc_frames pre + j)
        (place_tracks p c l (pre ++ (t ∷ post)))
      ≡ (c + chd_frames pre + j, track + length pre)
physical_lem tracknum track p c l j [] t post hp hc hj =
    let here : ltb (p + 0 + j) (u32 (p + t.frames)) ≡ true = ground (arith, hp, hj) in
    let place : u32 (sub32 (p + 0 + j) p + c) ≡ c + 0 + j = omega (arith, hp, hc, hj) in
    let number : track ≡ track + 0 = omega arith in
    physical_step tracknum track (p + 0 + j) p c l t post
    ∙ rw (here, place) (ap (λ n. (c + 0 + j, n)) number)
physical_lem tracknum track p c l j (s ∷ pre) t post hp hc hj =
    let lba : ℕ = p + (s.frames + disc_frames pre) + j in
    let later : ltb lba (u32 (p + s.frames)) ≡ false = ground (arith, hp, hj) in
    let p_eq : u32 (p + s.frames) ≡ p + s.frames = omega (arith, hp) in
    let c_eq : u32 (u32 (c + s.frames) + s.extraframes) ≡ c + s.frames + s.extraframes =
      omega (arith, hc) in
    let l' : ℕ = u32 (u32 (u32 (l + gap_outside s) + s.postgap) + s.frames) in
    let rest =
      physical_lem tracknum (suc track) (p + s.frames) (c + s.frames + s.extraframes) l' j pre t
        post (omega (arith, hp)) (omega (arith, hc)) hj in
    let lba_eq : lba ≡ p + s.frames + disc_frames pre + j = omega arith in
    physical_step tracknum track lba p c l s (pre ++ (t ∷ post))
    ∙ rw later (
        ap
          (λ q.
            physical_loop tracknum (suc track) lba
              (place_tracks q (u32 (u32 (c + s.frames) + s.extraframes)) l' (pre ++ (t ∷ post))))
          p_eq
        ∙ ap
            (λ q.
              physical_loop tracknum (suc track) lba
                (place_tracks (p + s.frames) q l' (pre ++ (t ∷ post))))
            c_eq
        ∙ ap
            (λ q.
              physical_loop tracknum (suc track) q
                (place_tracks (p + s.frames) (c + s.frames + s.extraframes) l' (pre ++ (t ∷ post))))
            lba_eq
        ∙ rest
        ∙ end track c j s pre)

-- For a table of contents with the tracks pre, t and post, whose sums fit 32 bits,
-- physical_to_chd_lba takes frame j of t, which lies behind all frames of pre, to the frame of the
-- CHD behind all frames and extra frames of pre, and tells the number of t.
pub physical_to_chd_lba-place_tracks :
    (tracknum j : ℕ) (pre : List TrackInfo) (t : TrackInfo) (post : List TrackInfo)
    → disc_frames pre + t.frames < 2 ^ 32
    → chd_frames pre + t.frames < 2 ^ 32
    → j < t.frames
    → physical_to_chd_lba tracknum (disc_frames pre + j) (place_tracks 0 0 0 (pre ++ (t ∷ post)))
      ≡ (chd_frames pre + j, length pre)
unfolding physical_to_chd_lba
physical_to_chd_lba-place_tracks tracknum j pre t post hp hc hj =
    let lba : disc_frames pre + j ≡ 0 + disc_frames pre + j = omega arith in
    let place : 0 + chd_frames pre + j ≡ chd_frames pre + j = omega arith in
    let number : 0 + length pre ≡ length pre = omega arith in
    ap (λ q. physical_loop tracknum 0 q (place_tracks 0 0 0 (pre ++ (t ∷ post)))) lba
    ∙ physical_lem tracknum 0 0 0 0 j pre t post (omega (arith, hp)) (omega (arith, hc)) hj
    ∙ ap (λ q. (q, 0 + length pre)) place
    ∙ ap (λ q. (chd_frames pre + j, q)) number

-- The first logical frame of the tracks from `l` on.
abbrev first_logical : ℕ → List TrackInfo → ℕ
first_logical l [] = l
first_logical l (t ∷ ts) = u32 (gap_inside t + u32 (l + gap_outside t))

-- A pregap that the file holds is a part of the frames of its track.
abbrev pub PregapsFit : List TrackInfo → Type 0
PregapsFit [] = Unit {0}
PregapsFit (t ∷ ts) = (gap_inside t ≤ t.frames) × PregapsFit ts

-- The pregap of the track that follows.
abbrev pub next_pregap : List TrackInfo → ℕ
next_pregap [] = 0
next_pregap (t ∷ ts) = gap_inside t + gap_outside t

logical_step :
    (tracknum track lba p c l : ℕ) (t : TrackInfo) (ts : List TrackInfo)
    → logical_loop tracknum track lba (place_tracks p c l (t ∷ ts)) ≡ (
        if ltb lba (first_logical (u32 (u32 (u32 (l + gap_outside t) + t.postgap) + t.frames)) ts)
        then (
          u32 (sub32 (u32 (p + sub32 lba (u32 (gap_inside t + u32 (l + gap_outside t))))) p + c),
          track,
        )
        else logical_loop tracknum (suc track) lba (
            place_tracks
              (u32 (p + t.frames))
              (u32 (u32 (c + t.frames) + t.extraframes))
              (u32 (u32 (u32 (l + gap_outside t) + t.postgap) + t.frames))
              ts))
unfolding place_tracks logical_loop
logical_step tracknum track lba p c l t [] = refl
logical_step tracknum track lba p c l t (s ∷ ts) = refl

-- The first logical frame of tracks is not behind a frame of one of them.
first_logical-le :
    (l j : ℕ) (pre : List TrackInfo) (t : TrackInfo) (post : List TrackInfo)
    → PregapsFit pre
    → first_logical l (pre ++ (t ∷ post)) ≤ l + log_frames pre + gap_outside t + gap_inside t + j
first_logical-le l j [] t post h = omega arith
first_logical-le l j (s ∷ pre) t post h = omega (arith, h.0)

first_logical_lem :
    (l : ℕ) (ts : List TrackInfo)
    → l + next_pregap ts < 2 ^ 32
    → first_logical l ts ≡ l + next_pregap ts
first_logical_lem l [] h = omega arith
first_logical_lem l (t ∷ ts) h = omega (arith, h)

logical_lem :
    (tracknum track p c l j : ℕ) (pre : List TrackInfo) (t : TrackInfo) (post : List TrackInfo)
    → PregapsFit pre
    → p + disc_frames pre + j < 2 ^ 32
    → c + chd_frames pre + j < 2 ^ 32
    → l + log_frames pre + gap_outside t + t.postgap + t.frames + next_pregap post < 2 ^ 32
    → gap_inside t + j < t.frames + t.postgap + next_pregap post
    → logical_loop tracknum track
        (l + log_frames pre + gap_outside t + gap_inside t + j)
        (place_tracks p c l (pre ++ (t ∷ post)))
      ≡ (c + chd_frames pre + j, track + length pre)
logical_lem tracknum track p c l j [] t post fit hp hc hl hj =
    let lba : ℕ = l + 0 + gap_outside t + gap_inside t + j in
    let l' : ℕ = u32 (u32 (u32 (l + gap_outside t) + t.postgap) + t.frames) in
    let l_eq : l' ≡ l + gap_outside t + t.postgap + t.frames = omega (arith, hl) in
    let here : ltb lba (first_logical l' post) ≡ true =
      ground (arith, hl, hj, l_eq, first_logical_lem l' post (omega (arith, hl, l_eq))) in
    let place : u32
          (sub32 (u32 (p + sub32 lba (u32 (gap_inside t + u32 (l + gap_outside t))))) p + c)
        ≡ c + 0 + j =
      omega (arith, hp, hc, hl, hj) in
    let number : track ≡ track + 0 = omega arith in
    logical_step tracknum track lba p c l t post
    ∙ rw (here, place) (ap (λ n. (c + 0 + j, n)) number)
logical_lem tracknum track p c l j (s ∷ pre) t post fit hp hc hl hj =
    let lba : ℕ = l + log_frames (s ∷ pre) + gap_outside t + gap_inside t + j in
    let l' : ℕ = u32 (u32 (u32 (l + gap_outside s) + s.postgap) + s.frames) in
    let l_eq : l' ≡ l + gap_outside s + s.postgap + s.frames = omega (arith, hl) in
    let p_eq : u32 (p + s.frames) ≡ p + s.frames = omega (arith, hp) in
    let c_eq : u32 (u32 (c + s.frames) + s.extraframes) ≡ c + s.frames + s.extraframes =
      omega (arith, hc) in
    let lba_eq : lba ≡ l' + log_frames pre + gap_outside t + gap_inside t + j =
      omega (arith, l_eq) in
    let later : ltb lba (first_logical l' (pre ++ (t ∷ post))) ≡ false =
      ground (arith, lba_eq, first_logical-le l' j pre t post fit.1) in
    let rest =
      logical_lem tracknum (suc track) (p + s.frames) (c + s.frames + s.extraframes) l' j pre t post
        fit.1 (omega (arith, hp)) (omega (arith, hc)) (omega (arith, hl, l_eq)) hj in
    logical_step tracknum track lba p c l s (pre ++ (t ∷ post))
    ∙ rw later (
        ap
          (λ q.
            logical_loop tracknum (suc track) lba
              (place_tracks q (u32 (u32 (c + s.frames) + s.extraframes)) l' (pre ++ (t ∷ post))))
          p_eq
        ∙ ap
            (λ q.
              logical_loop tracknum (suc track) lba
                (place_tracks (p + s.frames) q l' (pre ++ (t ∷ post))))
            c_eq
        ∙ ap
            (λ q.
              logical_loop tracknum (suc track) q
                (place_tracks (p + s.frames) (c + s.frames + s.extraframes) l' (pre ++ (t ∷ post))))
            lba_eq
        ∙ rest
        ∙ end track c j s pre)

-- For a table of contents with the tracks pre, t and post, whose sums fit 32 bits and whose pregaps
-- in the file fit their tracks, logical_to_chd_lba takes each logical frame from index 1 of t to
-- the first frame of the next track, j frames behind index 1, to frame j behind the frames and
-- extra frames of pre on the CHD, and tells the number of t.
pub logical_to_chd_lba-place_tracks :
    (tracknum j : ℕ) (pre : List TrackInfo) (t : TrackInfo) (post : List TrackInfo)
    → PregapsFit pre
    → disc_frames pre + j < 2 ^ 32
    → chd_frames pre + j < 2 ^ 32
    → log_frames pre + gap_outside t + t.postgap + t.frames + next_pregap post < 2 ^ 32
    → gap_inside t + j < t.frames + t.postgap + next_pregap post
    → logical_to_chd_lba tracknum
        (log_frames pre + gap_outside t + gap_inside t + j)
        (place_tracks 0 0 0 (pre ++ (t ∷ post)))
      ≡ (chd_frames pre + j, length pre)
unfolding logical_to_chd_lba
logical_to_chd_lba-place_tracks tracknum j pre t post fit hp hc hl hj =
    let lba : log_frames pre + gap_outside t + gap_inside t + j
        ≡ 0 + log_frames pre + gap_outside t + gap_inside t + j =
      omega arith in
    let place : 0 + chd_frames pre + j ≡ chd_frames pre + j = omega arith in
    let number : 0 + length pre ≡ length pre = omega arith in
    ap (λ q. logical_loop tracknum 0 q (place_tracks 0 0 0 (pre ++ (t ∷ post)))) lba
    ∙ logical_lem tracknum 0 0 0 0 j pre t post fit (omega (arith, hp)) (omega (arith, hc))
        (omega (arith, hl)) hj
    ∙ ap (λ q. (q, 0 + length pre)) place
    ∙ ap (λ q. (chd_frames pre + j, q)) number
