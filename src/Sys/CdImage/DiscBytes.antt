-- ===== src/Sys/CdImage/DiscBytes.antt =====
-- sys/cd_shim.cpp: what CdCompressor::read_data delivers, byte by byte.
use Prim.Native.String.{String}
use libchdman_rs.Prelude.{
  ℕ, zero, suc, ◌+◌, ◌-◌, ◌*◌, ◌^◌, ◌<◌, ◌≤◌, ◌≡◌, refl, sym, ap, ◌∙◌, true, false, Option, List,
  [], ◌∷◌, ◌++◌, if◌then◌else◌, ltb, leb, ◌==◌, length, length-replicate, replicate, arith,
}
use native.Mathlib.Nat.{add-mul}
use native.Mathlib.Decide.{dec_lt}
use libchdman_rs.Bytes.{Buffer, byte}
use libchdman_rs.Sys.CdImage.{
  TrackInfo, TrackInput, Toc, Files, bytes_per_frame, split_track_start, src_frame_start, in_split,
  blank, fetch, content, next_input, read_data,
}
use libchdman_rs.Sys.CdImage.Padding.{All, total_frames, IsCounted}
use libchdman_rs.Sys.CdImage.Frames.{
  frame_file, track_frame, disc_frame, disc_frames, Opens, IsPlaced,
}
use libchdman_rs.Sys.CdImage.FrameBytes.{
  track_byte, IsStored, filled, maybe_swap, byte-filled, byte-blank, length-maybe_swap,
  length-filled, size, stored, own, size_lem, start_place, split_place, in_track, in_padding,
  is_split, is_own,
}
use libchdman_rs.Sys.CdImage.Disc.{read_data-disc_frames}

-- Byte `i` of frame `f` of the disc: its tracks' frames, with their padding, one track after another.
unfoldable pub disc_byte : Files → List (TrackInfo × TrackInput) → ℕ → ℕ → ℕ
unfolding track_byte
disc_byte files [] f i = 0
disc_byte files (e ∷ es) f i =
    let n = e.0.frames + e.0.extraframes in
    if ltb f n then track_byte files e.0 e.1 (next_input es) f i else disc_byte files es (f - n) i

module _ (files : Files) (t : TrackInfo) (i next : TrackInput) (f : ℕ) (kept : IsStored (t, i))
    (placed : i.offset + (t.frames + t.extraframes) * bytes_per_frame t < 2 ^ 64)
    (inside : f < t.frames + t.extraframes) where
  abbrev s : ℕ
  s = stored t i f kept placed inside

  abbrev n : ℕ
  n = size t i f kept placed inside

  frame_own :
      f < own t i f kept placed inside
      → track_frame files t i next f
        ≡ maybe_swap i.swap (filled (fetch files i.fname (i.offset + f * n) n))
  unfolding track_frame frame_file in_split content blank
  frame_own h =
      let here : ltb f t.frames ≡ true = ground (arith, h) in
      let unpadded : leb (own t i f kept placed inside) f ≡ false = ground (arith, h) in
      let unsplit : leb s f ≡ false = ground (arith, h) in
      rw
        (
          in_track t i f kept placed inside,
          in_padding t i f kept placed inside,
          is_split t i f kept placed inside (omega (arith, h)),
          size_lem t i f kept placed inside,
          here,
          unpadded,
          unsplit,
          start_place t i f kept placed inside,
        )
        refl

  frame_padding :
      ¬ (f < own t i f kept placed inside)
      → f < s
      → track_frame files t i next f ≡ maybe_swap i.swap (replicate 2448 0)
  unfolding track_frame content blank
  frame_padding far h =
      let here : ltb f t.frames ≡ true = ground (arith, h) in
      let padded : leb (own t i f kept placed inside) f ≡ true = ground (arith, far) in
      let unsplit : ltb f s ≡ true = ground (arith, h) in
      rw
        (
          in_track t i f kept placed inside,
          in_padding t i f kept placed inside,
          is_own t i f kept placed inside (omega (arith, h)),
          here,
          padded,
          unsplit,
        )
        refl

  split_start :
      f < t.frames → ¬ (f < s) → leb (split_track_start t i) (src_frame_start t i f) ≡ true
  split_start h far = is_split t i f kept placed inside h ∙ ground (arith, far)

  behind_split :
      f < t.frames → ¬ (f < s) → src_frame_start t i f - split_track_start t i ≡ (f - s) * n
  unfolding split_track_start
  behind_split h far =
      let some_split : (t.splitframes == 0) ≡ false = ground (arith, far, h) in
      let parts : (f - s) * n + s * n ≡ f * n =
        sym (add-mul (f - s) s n) ∙ ap (λ x. x * n) (omega (arith, far)) in
      rw some_split (
        omega (
          arith,
          start_place t i f kept placed inside,
          split_place t i f kept placed inside,
          parts,
        ))

  frame_split :
      f < t.frames
      → ¬ (f < s)
      → track_frame files t i next f
        ≡ maybe_swap i.swap (filled (fetch files next.fname ((f - s) * n) n))
  unfolding track_frame frame_file in_split content blank
  frame_split h far =
      let here : ltb f t.frames ≡ true = ground (arith, h) in
      let past : ltb f s ≡ false = ground (arith, far) in
      let padded : leb (own t i f kept placed inside) f ≡ true = ground (arith, far) in
      rw
        (
          in_track t i f kept placed inside,
          in_padding t i f kept placed inside,
          split_start h far,
          is_own t i f kept placed inside h,
          size_lem t i f kept placed inside,
          here,
          past,
          padded,
          behind_split h far,
        )
        refl

  frame_behind : ¬ (f < t.frames) → track_frame files t i next f ≡ replicate 2448 0
  unfolding track_frame content blank
  frame_behind far =
      let past : ltb f t.frames ≡ false = ground (arith, far) in
      rw (in_track t i f kept placed inside, past) refl

  -- A frame has 2448 bytes, and they are those of the description.
  abbrev pub Described : Buffer → Type 0
  Described b = (length b ≡ 2448) × ((k : ℕ) → k < 2448 → byte b k ≡ track_byte files t i next f k)

  pub frame-Described : Described (track_frame files t i next f)
  unfolding track_byte
  frame-Described = elim (dec_lt f (own t i f kept placed inside)) [
    | yes in_own ↦
        let test : ltb f (own t i f kept placed inside) ≡ true = ground (arith, in_own) in
        let b = fetch files i.fname (i.offset + f * n) n in
        rw (frame_own in_own, test)
          (
            length-maybe_swap i.swap (filled b) ∙ length-filled 2448 b,
            λ k h. byte-filled i.swap b k h,
          )
    | no past_own ↦
        let test : ltb f (own t i f kept placed inside) ≡ false = ground (arith, past_own) in
        elim (dec_lt f s) [
          | yes in_pad ↦
              let test' : ltb f s ≡ true = ground (arith, in_pad) in
              rw (frame_padding past_own in_pad, test, test')
                (
                  length-maybe_swap i.swap (replicate 2448 0) ∙ length-replicate {A = ℕ} 2448 0,
                  λ k h. byte-blank i.swap k,
                )
          | no past_pad ↦
              let test' : ltb f s ≡ false = ground (arith, past_pad) in
              elim (dec_lt f t.frames) [
                | yes in_track' ↦
                    let test'' : ltb f t.frames ≡ true = ground (arith, in_track') in
                    let b = fetch files next.fname ((f - s) * n) n in
                    rw (frame_split in_track' past_pad, test, test', test'')
                      (
                        length-maybe_swap i.swap (filled b) ∙ length-filled 2448 b,
                        λ k h. byte-filled i.swap b k h,
                      )
                | no behind ↦
                    let test'' : ltb f t.frames ≡ false = ground (arith, behind) in
                    rw (frame_behind behind, test, test', test'')
                      (length-replicate {A = ℕ} 2448 0, λ k h. byte-blank false k)
              ]
        ]
  ]

byte-front : (xs ys : Buffer) (i : ℕ) → i < length xs → byte (xs ++ ys) i ≡ byte xs i
byte-front [] ys i h = absurd (omega (arith, h))
byte-front (x ∷ xs) ys zero h = refl
byte-front (x ∷ xs) ys (suc i) h = byte-front xs ys i (omega (arith, h))

byte-behind : (xs ys : Buffer) (i j : ℕ) → i ≡ length xs + j → byte (xs ++ ys) i ≡ byte ys j
byte-behind [] ys i j h = ap (byte ys) (omega (arith, h))
byte-behind (x ∷ xs) ys zero j h = absurd (omega (arith, h))
byte-behind (x ∷ xs) ys (suc i) j h = byte-behind xs ys i j (omega (arith, h))

module _ (files : Files) where
  disc_frame-bytes :
      (es : List (TrackInfo × TrackInput)) (f : ℕ)
      → All IsStored es
      → All IsPlaced es
      → f < total_frames es
      → (length (disc_frame files es f) ≡ 2448)
        × ((k : ℕ) → k < 2448 → byte (disc_frame files es f) k ≡ disc_byte files es f k)
  unfolding disc_frame disc_byte
  disc_frame-bytes [] f kept placed h = absurd (omega (arith, h))
  disc_frame-bytes (e ∷ es) f (kept, rest) (placed, places) h =
      let n : ℕ = e.0.frames + e.0.extraframes in
      elim (dec_lt f n) [
        | yes inside ↦
            let test : ltb f n ≡ true = ground (arith, inside) in
            rw test (frame-Described files e.0 e.1 (next_input es) f kept placed inside)
        | no past ↦
            let test : ltb f n ≡ false = ground (arith, past) in
            rw test (disc_frame-bytes es (f - n) rest places (omega (arith, past, h)))
      ]

  disc_frames-bytes :
      (es : List (TrackInfo × TrackInput)) (f k j i : ℕ)
      → All IsStored es
      → All IsPlaced es
      → f + k ≤ total_frames es
      → j < k
      → i < 2448
      → byte (disc_frames files es f k) (j * 2448 + i) ≡ disc_byte files es (f + j) i
  unfolding disc_frames
  disc_frames-bytes es f zero j i kept placed h jk small = absurd (omega (arith, jk))
  disc_frames-bytes es f (suc k) zero i kept placed h jk small =
      let (size, bytes) = disc_frame-bytes es f kept placed (omega (arith, h)) in
      let place : 0 * 2448 + i ≡ i = omega arith in
      let here : f + 0 ≡ f = omega arith in
      rw (place, here)
        (byte-front (disc_frame files es f) (disc_frames files es (f + 1) k) i
            (omega (arith, size, small))
          ∙ bytes i small)
  disc_frames-bytes es f (suc k) (suc j) i kept placed h jk small =
      let (size, bytes) = disc_frame-bytes es f kept placed (omega (arith, h)) in
      byte-behind (disc_frame files es f) (disc_frames files es (f + 1) k) (suc j * 2448 + i)
        (j * 2448 + i) (omega (arith, size))
      ∙ disc_frames-bytes es (f + 1) k j i kept placed (omega (arith, h)) (omega (arith, jk)) small
      ∙ ap (λ g. disc_byte files es g i) (omega arith)

-- If every file opens, and each track has fewer than 2 ^ 32 frames, data below 2 ^ 64 in its
-- source, 1 to 2448 bytes in a frame, and its padding and split frames inside it, and the disc fits
-- 64 bits, then CdCompressor::read_data of k frames from frame f on, inside the disc, delivers all
-- their bytes, whatever file an earlier call left open, and byte i of the j-th of them is byte i of
-- frame f + j of the disc: the tracks one after another, each with the frames of its own file, then
-- its blank padding, then the split frames from the start of the next file, then blank extra
-- frames, with the bytes of each pair swapped in the first 2352 of a frame of a track that is to be
-- swapped, and 0 where a file gives no byte.
pub read_data-disc_byte :
    (files : Files)
    → Opens files
    → (toc : Toc) (opened : Option String) (dest : Buffer) (f k : ℕ) → All IsCounted toc.tracks
    → All IsPlaced toc.tracks
    → All IsStored toc.tracks
    → total_frames toc.tracks * 2448 < 2 ^ 64
    → f + k ≤ total_frames toc.tracks
    → let r = read_data files toc opened dest (f * 2448) (k * 2448) in
      (r.count ≡ k * 2448)
      × ((j i : ℕ)
          → j < k
          → i < 2448
          → byte r.dest (j * 2448 + i) ≡ disc_byte files toc.tracks (f + j) i)
read_data-disc_byte files opens toc opened dest f k counted placed kept fits h =
    let (count, frames) =
      read_data-disc_frames files opens toc opened dest f k counted placed fits h in
    (
      count,
      λ j i jk small.
          ap (λ b. byte b (j * 2448 + i)) frames
          ∙ disc_frames-bytes files toc.tracks f k j i kept placed h jk small,
    )
