-- ===== src/Sys/CdImage/Frames.antt =====
-- sys/cd_shim.cpp: CdCompressor::read_data against a description of the disc frame by frame.
use Prim.Native.String.{String}
use libchdman_rs.Prelude.{
  ℕ, zero, suc, ◌+◌, ◌-◌, ◌*◌, ◌/◌, ◌^◌, ◌<◌, ◌≤◌, ◌≡◌, refl, ap, true, false, Option, some, List,
  [], ◌∷◌, ◌++◌, ◌⊎◌, inl, inr, if◌then◌else◌, ltb, Bool-cases, lt→ltb, arith,
}
use libchdman_rs.Bytes.{Buffer}
use libchdman_rs.Sys.CdImage.{
  TrackInfo, TrackInput, Files, frame_size, u64, bytes_per_frame, split_track_start,
  src_frame_start, in_split, is_open, open_file, content, read_frame, Outcome, prepend, frames_loop,
  next_input,
}

-- The file that holds a frame: the track's own, or the next track's for a split frame.
unfoldable pub frame_file : TrackInfo → TrackInput → TrackInput → ℕ → String
frame_file t i next index = if in_split t i (src_frame_start t i index) then next.fname else i.fname

-- Frame `index` of a track.
unfoldable pub track_frame : Files → TrackInfo → TrackInput → TrackInput → ℕ → Buffer
unfolding frame_file
track_frame files t i next index =
    content files t i (src_frame_start t i index) (frame_file t i next index)

-- Frame `f` of the disc.
unfoldable pub disc_frame : Files → List (TrackInfo × TrackInput) → ℕ → Buffer
disc_frame files [] f = []
disc_frame files (e ∷ es) f =
    let n = e.0.frames + e.0.extraframes in
    if ltb f n then track_frame files e.0 e.1 (next_input es) f else disc_frame files es (f - n)

-- `k` frames of the disc from frame `f` on.
unfoldable pub disc_frames : Files → List (TrackInfo × TrackInput) → ℕ → ℕ → Buffer
unfolding disc_frame
disc_frames files es f zero = []
disc_frames files es f (suc k) = disc_frame files es f ++ disc_frames files es (f + 1) k

-- Every file opens.
abbrev pub Opens : Files → Type 0
Opens files = (name : String) → (read : ℕ → ℕ → Buffer) × (files name ≡ some read)

-- The track's data lies below 2 ^ 64 in its source.
abbrev pub IsPlaced : TrackInfo × TrackInput → Type 0
IsPlaced e = e.1.offset + (e.0.frames + e.0.extraframes) * bytes_per_frame e.0 < 2 ^ 64

pub open_file_lem :
    (files : Files)
    → Opens files
    → (name : String) (opened : Option String) → open_file files name opened ≡ some name
unfolding open_file
open_file_lem files opens name opened =
    let (read, e) = opens name in
    elim (Bool-cases (is_open name opened)) [ inl same ↦ rw same | inr other ↦ rw (other, e) ]

in_split-le :
    (t : TrackInfo) (i : TrackInput) (s : ℕ) → in_split t i s ≡ true → split_track_start t i ≤ s
unfolding in_split
in_split-le t i s h = ground arith

module _ (files : Files) (opens : Opens files) (t : TrackInfo) (i next : TrackInput) where
  pub start : ℕ → ℕ
  start = src_frame_start t i

  -- The file that is open before frame `j`.
  abbrev pub IsReady : ℕ → String → Type 0
  IsReady j name = (name ≡ i.fname) ⊎ ((name ≡ next.fname) × (split_track_start t i ≤ start j))

  start_mono : (j : ℕ) → i.offset + (j + 1) * bytes_per_frame t < 2 ^ 64 → start j ≤ start (j + 1)
  unfolding start src_frame_start
  start_mono j h = omega arith

  content_past :
      (s : ℕ) (a b : String)
      → in_split t i s ≡ false
      → split_track_start t i ≤ s
      → content files t i s a ≡ content files t i s b
  unfolding in_split content
  content_past s a b h le = ground arith

  read_frame_lem :
      (j : ℕ) (name : String)
      → i.offset + (j + 1) * bytes_per_frame t < 2 ^ 64
      → IsReady j name
      → (name' : String) × (read_frame files t i next j name
          ≡ some (track_frame files t i next j, name'))
        × IsReady (j + 1) name'
  unfolding read_frame track_frame start
  read_frame_lem j name h ready = elim (Bool-cases (in_split t i (start j))) [
    | inl split ↦ (
      next.fname,
      rw (split, open_file_lem files opens next.fname (some name)),
      inr (refl, omega (arith, in_split-le t i (start j) split, start_mono j h)),
    )
    | inr own ↦ unsplit own ready
  ]
    where
      unsplit :
          in_split t i (start j) ≡ false
          → IsReady j name
          → (name' : String) × (read_frame files t i next j name
              ≡ some (track_frame files t i next j, name'))
            × IsReady (j + 1) name'
      unsplit own (inl same) = (name, rw (own, same), inl same)
      unsplit own (inr (same, le)) = (
        name,
        rw own (ap (λ b. some (b, name)) (content_past (start j) name i.fname own le)),
        inr (same, omega (arith, start_mono j h)),
      )

  unfoldable pub track_frames : ℕ → ℕ → Buffer
  track_frames j zero = []
  track_frames j (suc m) = track_frame files t i next j ++ track_frames (j + 1) m

  -- What the loop over the frames does from frame `j` on: it takes `m` frames and leaves `l`.
  pub record Ran (r : Outcome) (j m l startoffs : ℕ) : Type 0 where
    pub out : r.out ≡ track_frames j m
    pub left : r.left ≡ l
    pub offset : r.offset ≡ startoffs + (j + m) * 2448
    pub failed : r.failed ≡ false

  module _ (n startoffs : ℕ) (placed : i.offset + n * bytes_per_frame t < 2 ^ 64)
      (fits : startoffs + n * 2448 < 2 ^ 64) where
    abbrev pub loop : ℕ → ℕ → String → Outcome
    loop k offset name = frames_loop files t i next startoffs (startoffs + n * 2448) k offset name

    placed_at : (j : ℕ) → j < n → i.offset + (j + 1) * bytes_per_frame t < 2 ^ 64
    placed_at j h = grind arith

    -- One round inside the track.
    loop_step :
        (k j o : ℕ) (name : String)
        → o ≡ startoffs + j * 2448
        → j < n
        → IsReady j name
        → (name' : String) × (loop (suc k) o name
            ≡ prepend (track_frame files t i next j) (loop k (u64 (o + frame_size)) name'))
          × IsReady (j + 1) name'
    unfolding frames_loop
    loop_step k j o name at inside ready =
        let (name', frame, ready') = read_frame_lem j name (placed_at j inside) ready in
        let index : (o - startoffs) / frame_size ≡ j = omega arith in
        let below : ltb o (startoffs + n * 2448) ≡ true =
          lt→ltb o (startoffs + n * 2448) (omega arith) in
        (name', rw (below, index, frame), ready')

    pub frames_loop-Ran :
        (k m l j o : ℕ) (name : String)
        → o ≡ startoffs + j * 2448
        → k ≡ m + l
        → (j + m ≡ n) ⊎ ((l ≡ 0) × (j + m ≤ n))
        → IsReady j name
        → Ran (loop k o name) j m l startoffs
    unfolding frames_loop track_frames
    frames_loop-Ran zero zero l j o name at e room ready = record {
      out = refl;
      left = omega arith;
      offset = omega arith;
      failed = refl;
    }
    frames_loop-Ran zero (suc m) l j o name at e room ready = absurd (omega arith)
    frames_loop-Ran (suc k) zero l j o name at e room ready = record {
      out = ground arith;
      left = ground arith;
      offset = ground arith;
      failed = ground arith;
    }
    frames_loop-Ran (suc k) (suc m) l j o name at e room ready =
        let (name', round, ready') = loop_step k j o name at (omega arith) ready in
        let rest =
          frames_loop-Ran k m l (j + 1) (u64 (o + frame_size)) name' (omega arith) (omega arith)
            (omega arith) ready' in
        rw round (record {
          out = ap (λ b. track_frame files t i next j ++ b) rest.out;
          left = rest.left;
          offset = omega (arith, rest.offset);
          failed = rest.failed;
        })
