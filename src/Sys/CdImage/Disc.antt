-- ===== src/Sys/CdImage/Disc.antt =====
-- sys/cd_shim.cpp: CdCompressor::read_data delivers the frames of the disc, track after track.
use Prim.Native.String.{String}
use libchdman_rs.Prelude.{
  ℕ, zero, suc, ◌+◌, ◌-◌, ◌*◌, ◌/◌, ◌%◌, ◌^◌, ◌<◌, ◌≤◌, ◌≡◌, refl, ap, ◌∙◌, sym, true, false, ◌&&◌,
  Option, some, List, [], ◌∷◌, ◌++◌, ◌⊎◌, inl, inr, ltb, leb, ◌==◌, Bool-cases, lt→ltb, arith,
}
use mathlib.Core.List.{append_assoc, append-nil}
use native.Mathlib.Decide.{dec_lt, dec_le}
use libchdman_rs.Bytes.{Buffer}
use libchdman_rs.Sys.CdImage.{
  TrackInfo, TrackInput, Toc, Files, u64, Outcome, prepend, frames_loop, tracks_loop, next_input,
  track_bytes, read_data,
}
use libchdman_rs.Sys.CdImage.Padding.{All, total_frames, IsCounted}
use libchdman_rs.Sys.CdImage.Frames.{
  track_frame, disc_frame, disc_frames, Opens, IsPlaced, open_file_lem, track_frames, Ran,
  frames_loop-Ran,
}

abbrev Tracks : Type 0
Tracks = List (TrackInfo × TrackInput)

module _ (files : Files) where
  -- Reading `m` frames and then `l` is reading them together.
  pub disc_frames-append :
      (es : Tracks) (k m l f g : ℕ)
      → k ≡ m + l
      → g ≡ f + m
      → disc_frames files es f k ≡ disc_frames files es f m ++ disc_frames files es g l
  unfolding disc_frames
  disc_frames-append es k zero l f g e e' =
      let l_eq : l ≡ k = omega arith in let g_eq : g ≡ f = omega arith in rw (l_eq, g_eq)
  disc_frames-append es zero (suc m) l f g e e' = absurd (omega arith)
  disc_frames-append es (suc k) (suc m) l f g e e' =
      ap (λ b. disc_frame files es f ++ b)
        (disc_frames-append es k m l (f + 1) g (omega arith) (omega arith))
      ∙ sym (
          append_assoc (disc_frame files es f) (disc_frames files es (f + 1) m)
            (disc_frames files es g l))

  module _ (opens : Opens files) (e : TrackInfo × TrackInput) (es : Tracks) where
    disc_frames_inside :
        (m j : ℕ)
        → j + m ≤ e.0.frames + e.0.extraframes
        → disc_frames files (e ∷ es) j m ≡ track_frames files opens e.0 e.1 (next_input es) j m
    unfolding disc_frames track_frames
    disc_frames_inside zero j h = refl
    disc_frames_inside (suc m) j h = rw (lt→ltb j (e.0.frames + e.0.extraframes) (omega arith)) (
        ap (λ b. track_frame files e.0 e.1 (next_input es) j ++ b)
          (disc_frames_inside m (j + 1) (omega arith)))

    disc_frame_past :
        (f g : ℕ)
        → f ≡ e.0.frames + e.0.extraframes + g
        → disc_frame files (e ∷ es) f ≡ disc_frame files es g
    unfolding disc_frame
    disc_frame_past f g h =
        let g_eq : f - (e.0.frames + e.0.extraframes) ≡ g = omega arith in
        let past : ltb f (e.0.frames + e.0.extraframes) ≡ false = ground arith in rw (past, g_eq)

    disc_frames_past :
        (l f g : ℕ)
        → f ≡ e.0.frames + e.0.extraframes + g
        → disc_frames files (e ∷ es) f l ≡ disc_frames files es g l
    unfolding disc_frames
    disc_frames_past zero f g h = refl
    disc_frames_past (suc l) f g h =
        rw (disc_frame_past f g h, disc_frames_past l (f + 1) (g + 1) (omega arith))

  -- What the loop over the tracks leaves: the frames, and nothing to do.
  record Filled (r : Outcome) (expected : Buffer) : Type 0 where
    out : r.out ≡ expected
    left : r.left ≡ 0
    failed : r.failed ≡ false

  module _ (opens : Opens files) where
    -- The offset where the next track starts.
    abbrev next_start : TrackInfo × TrackInput → ℕ → ℕ
    next_start e s = u64 (s + track_bytes e.0)

    next_start_lem :
        (e : TrackInfo × TrackInput) (s : ℕ)
        → IsCounted e
        → s + (e.0.frames + e.0.extraframes) * 2448 < 2 ^ 64
        → next_start e s ≡ s + (e.0.frames + e.0.extraframes) * 2448
    unfolding track_bytes
    next_start_lem e s c h = omega arith

    -- The loop over the frames of track `e`.
    abbrev inner : TrackInfo × TrackInput → Tracks → ℕ → ℕ → ℕ → Outcome
    inner e es s k o = frames_loop files e.0 e.1 (next_input es) s (next_start e s) k o e.1.fname

    enter :
        (e : TrackInfo × TrackInput) (es : Tracks) (s k o : ℕ) (opened : Option String)
        → (leb s o && ltb o (next_start e s)) ≡ true
        → (inner e es s k o).failed ≡ false
        → tracks_loop files (e ∷ es) s k o opened
          ≡ prepend (inner e es s k o).out (
              tracks_loop files es
                (next_start e s)
                (inner e es s k o).left
                (inner e es s k o).offset
                (inner e es s k o).opened)
    unfolding tracks_loop
    enter e es s k o opened here kept = rw (here, open_file_lem files opens e.1.fname opened, kept)

    skip :
        (e : TrackInfo × TrackInput) (es : Tracks) (s k o : ℕ) (opened : Option String)
        → (leb s o && ltb o (next_start e s)) ≡ false
        → tracks_loop files (e ∷ es) s k o opened ≡ tracks_loop files es (next_start e s) k o opened
    unfolding tracks_loop
    skip e es s k o opened out = rw out

    -- With nothing left, the loop opens files at most.
    tracks_done :
        (es : Tracks) (s o : ℕ) (opened : Option String)
        → All IsCounted es
        → s + total_frames es * 2448 < 2 ^ 64
        → o ≤ s
        → Filled (tracks_loop files es s 0 o opened) []
    unfolding tracks_loop frames_loop
    tracks_done [] s o opened c fits h = record { out = refl; left = refl; failed = refl }
    tracks_done (e ∷ es) s o opened c fits h =
        let moved = next_start_lem e s c.0 (omega arith) in
        elim (Bool-cases (leb s o && ltb o (next_start e s))) [
          | inl here ↦
              rw (enter e es s 0 o opened here refl)
                (tracks_done es (next_start e s) o (some e.1.fname) c.1 (omega arith) (omega arith))
          | inr out ↦
              rw (skip e es s 0 o opened out)
                (tracks_done es (next_start e s) o opened c.1 (omega arith) (omega arith))
        ]

    inner-Ran :
        (e : TrackInfo × TrackInput) (es : Tracks) (s k m l f o : ℕ)
        → IsCounted e
        → IsPlaced e
        → s + (e.0.frames + e.0.extraframes) * 2448 < 2 ^ 64
        → o ≡ s + f * 2448
        → k ≡ m + l
        → (f + m ≡ e.0.frames + e.0.extraframes)
          ⊎ ((l ≡ 0) × (f + m ≤ e.0.frames + e.0.extraframes))
        → Ran files opens e.0 e.1 (next_input es) (inner e es s k o) f m l s
    inner-Ran e es s k m l f o c p fits at sum room = rw (next_start_lem e s c fits) (
        frames_loop-Ran files opens e.0 e.1 (next_input es) (e.0.frames + e.0.extraframes) s p fits
          k m l f o e.1.fname at sum room (inl refl))

    -- The frames of one track, then those of the tracks behind it.
    join :
        (e : TrackInfo × TrackInput) (es : Tracks) (s k m l f o : ℕ) (opened : Option String)
        → (leb s o && ltb o (next_start e s)) ≡ true
        → Ran files opens e.0 e.1 (next_input es) (inner e es s k o) f m l s
        → k ≡ m + l
        → (f + m ≡ e.0.frames + e.0.extraframes)
          ⊎ ((l ≡ 0) × (f + m ≤ e.0.frames + e.0.extraframes))
        → Filled
            (tracks_loop files es (next_start e s) l (s + (f + m) * 2448) (inner e es s k o).opened)
            (disc_frames files es 0 l)
        → Filled (tracks_loop files (e ∷ es) s k o opened) (disc_frames files (e ∷ es) f k)
    join e es s k m l f o opened here ran sum room rest =
        rw (enter e es s k o opened here ran.failed, ran.left, ran.offset)
          (record {
            out =
                rw
                  (
                    ran.out,
                    rest.out,
                    disc_frames-append (e ∷ es) k m l f (f + m) sum refl,
                    disc_frames_inside opens e es m f (omega arith),
                  )
                  (ap (λ b. track_frames files opens e.0 e.1 (next_input es) f m ++ b)
                    (behind room));
            left = rest.left;
            failed = rest.failed;
          })
      where
        behind :
            (f + m ≡ e.0.frames + e.0.extraframes)
              ⊎ ((l ≡ 0) × (f + m ≤ e.0.frames + e.0.extraframes))
            → disc_frames files es 0 l ≡ disc_frames files (e ∷ es) (f + m) l
        behind (inl full) = sym (disc_frames_past opens e es l (f + m) 0 (omega arith))
        behind (inr (none_left, _)) = rw none_left (unfold disc_frames in refl)

    nothing :
        (s k f o : ℕ) (opened : Option String)
        → k ≡ 0
        → Filled (tracks_loop files [] s k o opened) (disc_frames files [] f k)
    unfolding tracks_loop disc_frames
    nothing s k f o opened h = rw h (record { out = refl; left = refl; failed = refl })

    tracks_loop-Filled :
        (es : Tracks) (s f k o : ℕ) (opened : Option String)
        → All IsCounted es
        → All IsPlaced es
        → s + total_frames es * 2448 < 2 ^ 64
        → o ≡ s + f * 2448
        → f + k ≤ total_frames es
        → Filled (tracks_loop files es s k o opened) (disc_frames files es f k)
    tracks_loop-Filled [] s f k o opened c p fits at h = nothing s k f o opened (omega arith)
    tracks_loop-Filled (e ∷ es) s f k o opened c p fits at h =
        let moved = next_start_lem e s c.0 (omega arith) in
        elim (dec_lt f (e.0.frames + e.0.extraframes)) [
          | yes inside ↦
              let n : ℕ = e.0.frames + e.0.extraframes in
              let here : (leb s o && ltb o (next_start e s)) ≡ true = ground arith in
              elim (dec_le (f + k) n) [
                | yes all ↦
                    join e es s k k 0 f o opened here
                      (inner-Ran e es s k k 0 f o c.0 p.0 (omega arith) at (omega arith)
                        (inr (refl, all)))
                      (omega arith) (inr (refl, all))
                      (unfold disc_frames in
                        tracks_done es (next_start e s) (s + (f + k) * 2448) _ c.1 (omega arith)
                          (omega arith))
                | no more ↦
                    let m : ℕ = n - f in
                    let l : ℕ = k - m in
                    join e es s k m l f o opened here
                      (inner-Ran e es s k m l f o c.0 p.0 (omega arith) at (omega arith)
                        (inl (omega arith)))
                      (omega arith) (inl (omega arith))
                      (tracks_loop-Filled es (next_start e s) 0 l (s + (f + m) * 2448) _ c.1 p.1
                        (omega arith) (omega arith) (omega arith))
              ]
          | no past ↦
              let g : ℕ = f - (e.0.frames + e.0.extraframes) in
              rw
                (
                  skip e es s k o opened (ground arith),
                  disc_frames_past opens e es k f g (omega arith),
                )
                (tracks_loop-Filled es (next_start e s) g k o opened c.1 p.1 (omega arith)
                  (omega arith) (omega arith))
        ]

-- If every file opens, no track has 2 ^ 32 frames or data beyond 2 ^ 64 in its source, and the disc
-- fits 64 bits, then a read of `k` frames from frame `f` on, inside the disc, delivers all its bytes,
-- and they are the frames `f` to `f + k - 1` of the disc in order, whichever file an earlier call left
-- open: so the result does not depend on how the compressor cuts its reads.
pub read_data-disc_frames :
    (files : Files)
    → Opens files
    → (toc : Toc) (opened : Option String) (dest : Buffer) (f k : ℕ) → All IsCounted toc.tracks
    → All IsPlaced toc.tracks
    → total_frames toc.tracks * 2448 < 2 ^ 64
    → f + k ≤ total_frames toc.tracks
    → ((read_data files toc opened dest (f * 2448) (k * 2448)).count ≡ k * 2448)
      × ((read_data files toc opened dest (f * 2448) (k * 2448)).dest
          ≡ disc_frames files toc.tracks f k)
unfolding read_data
read_data-disc_frames files opens toc opened dest f k c p fits h =
    let aligned : (f * 2448 % 2448 == 0) ≡ true = ground arith in
    let whole : (k * 2448 % 2448 == 0) ≡ true = ground arith in
    let count : k * 2448 / 2448 ≡ k = omega arith in
    let filled =
      tracks_loop-Filled files opens toc.tracks 0 f k (f * 2448) opened c p (omega arith)
        (omega arith) h in
    (
      rw (aligned, whole, count, filled.left) (omega arith),
      rw (aligned, whole, count, filled.left, filled.out) (append-nil _),
    )
