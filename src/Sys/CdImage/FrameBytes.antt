-- ===== src/Sys/CdImage/FrameBytes.antt =====
-- sys/cd_shim.cpp: the bytes of a frame that CdCompressor::read_data leaves, by their place.
use native.Mathlib.Nat.{add-mul, mul-le-mul_right, mod-eq_of_lt, mul_comm}
use mathlib.Core.Path.{subst}
use libchdman_rs.Prelude.{
  ℕ, zero, suc, ◌+◌, ◌-◌, ◌*◌, ◌%◌, ◌^◌, ◌<◌, ◌≤◌, ◌≡◌, refl, sym, ap, ◌∙◌, Bool, true, false, ◌&&◌,
  [], ◌∷◌, inl, inr, if◌then◌else◌, ltb, leb, ◌==◌, Bool-cases, length, replicate, overwrite,
  length-overwrite, length-replicate, get_or, arith,
}
use native.Mathlib.Decide.{dec_lt}
use libchdman_rs.Bytes.{Buffer, byte}
use libchdman_rs.Sys.CdImage.{
  TrackInfo, TrackInput, Files, bytes_per_frame, src_track_end, split_offset, split_track_start,
  pad_track_start, src_frame_start, swap_pairs, fetch,
}

-- The byte that the swap of a frame's 2352 bytes of audio puts at a place.
abbrev pub swapped : Bool → ℕ → ℕ
swapped swap i = if swap && ltb i 2352 then (if i % 2 == 0 then i + 1 else i - 1) else i

-- Byte `i` of frame `f` of a track, in words of its source: the frames of the track's own file come
-- first, then `padframes` blank ones, then `splitframes` from the start of the next track's file, then
-- blank ones.
unfoldable pub track_byte : Files → TrackInfo → TrackInput → TrackInput → ℕ → ℕ → ℕ
track_byte files t input next f i =
    let size = t.datasize + t.subsize in
    let stored = t.frames - t.splitframes in
    let own = stored - t.padframes in
    let place = swapped input.swap i in
    if ltb f own
    then byte (fetch files input.fname (input.offset + f * size) size) place
    else if ltb f stored
    then 0
    else if ltb f t.frames
    then byte (fetch files next.fname ((f - stored) * size) size) place
    else 0

-- The track's frames fit 2448 bytes, and its padding and the split frames lie inside it.
pub record IsStored (e : TrackInfo × TrackInput) : Type 0 where
  pub some_bytes : 0 < e.0.datasize + e.0.subsize
  pub frame_fits : e.0.datasize + e.0.subsize ≤ 2448
  pub parts : e.0.splitframes + e.0.padframes ≤ e.0.frames

-- Bytes of buffers.
byte-replicate : (n i : ℕ) → byte (replicate n 0) i ≡ 0
byte-replicate zero i = refl
byte-replicate (suc n) zero = refl
byte-replicate (suc n) (suc i) = byte-replicate n i

byte-overwrite :
    (n : ℕ) (ys : Buffer) (i : ℕ) → i < n → byte (overwrite (replicate n 0) ys) i ≡ byte ys i
byte-overwrite zero ys i h = absurd (omega (arith, h))
byte-overwrite (suc n) [] i h = byte-replicate (suc n) i
byte-overwrite (suc n) (y ∷ ys) zero h = refl
byte-overwrite (suc n) (y ∷ ys) (suc i) h = byte-overwrite n ys i (omega (arith, h))

-- The place that the swap of `k` pairs takes a byte from.
abbrev partner : ℕ → ℕ → ℕ
partner k i = if ltb i (2 * k) then (if i % 2 == 0 then i + 1 else i - 1) else i

byte-swap_pairs :
    (k : ℕ) (b : Buffer) (i : ℕ)
    → 2 * k ≤ length b
    → get_or (swap_pairs k b) i 0 ≡ get_or b (partner k i) 0
unfolding swap_pairs
byte-swap_pairs zero b i h = let same : partner 0 i ≡ i = ground arith in rw same refl
byte-swap_pairs (suc k) [] i h = absurd (omega (arith, h))
byte-swap_pairs (suc k) (x ∷ []) i h = absurd (omega (arith, h))
byte-swap_pairs (suc k) (x ∷ y ∷ b) zero h =
    let other : partner (suc k) 0 ≡ 1 = ground arith in rw other refl
byte-swap_pairs (suc k) (x ∷ y ∷ b) (suc zero) h =
    let other : partner (suc k) 1 ≡ 0 = ground arith in rw other refl
byte-swap_pairs (suc k) (x ∷ y ∷ b) (suc (suc i)) h =
    let other : partner (suc k) (suc (suc i)) ≡ suc (suc (partner k i)) = ground arith in
    rw other (byte-swap_pairs k b i (omega (arith, h)))

length-swap_pairs : (k : ℕ) (b : Buffer) → length (swap_pairs k b) ≡ length b
unfolding swap_pairs
length-swap_pairs zero b = refl
length-swap_pairs (suc k) [] = refl
length-swap_pairs (suc k) (x ∷ []) = refl
length-swap_pairs (suc k) (x ∷ y ∷ b) = ap (λ n. suc (suc n)) (length-swap_pairs k b)

-- Places in the source, compared by their frames.
module _ (o d a b : ℕ) (pos : 0 < d) where
  ltb_scaled : ltb (o + a * d) (o + b * d) ≡ ltb a b
  ltb_scaled = elim (dec_lt a b) [
    | yes less ↦
        let step : (a + 1) * d ≤ b * d = mul-le-mul_right d (omega (arith, less)) in
        ground (arith, less, pos, step, add-mul a 1 d)
    | no more ↦
        let step : b * d ≤ a * d = mul-le-mul_right d (omega (arith, more)) in
        ground (arith, more, step)
  ]

  leb_scaled : leb (o + a * d) (o + b * d) ≡ leb a b
  leb_scaled = elim (dec_lt b a) [
    | yes less ↦
        let step : (b + 1) * d ≤ a * d = mul-le-mul_right d (omega (arith, less)) in
        ground (arith, less, pos, step, add-mul b 1 d)
    | no more ↦
        let step : a * d ≤ b * d = mul-le-mul_right d (omega (arith, more)) in
        ground (arith, more, step)
  ]

-- What blank bytes become under a read, before the swap.
abbrev pub filled : Buffer → Buffer
filled b = overwrite (replicate 2448 0) b

abbrev pub maybe_swap : Bool → Buffer → Buffer
maybe_swap swap raw = if swap then swap_pairs 1176 raw else raw

swapped_below : (swap : Bool) (i : ℕ) → i < 2448 → swapped swap i < 2448
swapped_below swap i h = ground (arith, h)

byte-maybe_swap :
    (swap : Bool) (raw : Buffer) (i : ℕ)
    → length raw ≡ 2448
    → byte (maybe_swap swap raw) i ≡ byte raw (swapped swap i)
byte-maybe_swap false raw i h = refl
byte-maybe_swap true raw i h = byte-swap_pairs 1176 raw i (omega (arith, h))

pub length-maybe_swap : (swap : Bool) (raw : Buffer) → length (maybe_swap swap raw) ≡ length raw
length-maybe_swap false raw = refl
length-maybe_swap true raw = length-swap_pairs 1176 raw

pub length-filled : (n : ℕ) (b : Buffer) → length (overwrite (replicate n 0) b) ≡ n
length-filled n b = length-overwrite (replicate n 0) b ∙ length-replicate n 0

pub byte-filled :
    (swap : Bool) (b : Buffer) (i : ℕ)
    → i < 2448
    → byte (maybe_swap swap (filled b)) i ≡ byte b (swapped swap i)
byte-filled swap b i h =
    byte-maybe_swap swap (filled b) i (length-filled 2448 b)
    ∙ byte-overwrite 2448 b (swapped swap i) (swapped_below swap i h)

pub byte-blank : (swap : Bool) (i : ℕ) → byte (maybe_swap swap (replicate 2448 0)) i ≡ 0
byte-blank swap i =
    byte-maybe_swap swap (replicate 2448 0) i (length-replicate {A = ℕ} 2448 0)
    ∙ byte-replicate 2448 (swapped swap i)

-- The places of frame `f` of a track.
module _ (t : TrackInfo) (i : TrackInput) (f : ℕ) (stored_in : IsStored (t, i))
    (placed : i.offset + (t.frames + t.extraframes) * bytes_per_frame t < 2 ^ 64)
    (inside : f < t.frames + t.extraframes) where
  abbrev pub size : ℕ
  size = t.datasize + t.subsize

  abbrev pub stored : ℕ
  stored = t.frames - t.splitframes

  abbrev pub own : ℕ
  own = stored - t.padframes

  pub size_lem : bytes_per_frame t ≡ size
  unfolding bytes_per_frame
  size_lem = omega (arith, stored_in.frame_fits)

  below : (n : ℕ) → n ≤ t.frames + t.extraframes → i.offset + n * size < 2 ^ 64
  below n le =
      let whole : i.offset + (t.frames + t.extraframes) * size < 2 ^ 64 =
        subst (λ d. i.offset + (t.frames + t.extraframes) * d < 2 ^ 64) size_lem placed in
      let step : n * size ≤ (t.frames + t.extraframes) * size = mul-le-mul_right size le in
      omega (arith, whole, step)

  pub start_place : src_frame_start t i f ≡ i.offset + f * size
  unfolding src_frame_start
  start_place = rw size_lem (mod-eq_of_lt (below f (omega (arith, inside))))

  end_place : src_track_end t i ≡ i.offset + t.frames * size
  unfolding src_track_end
  end_place = rw size_lem (
      ap (λ x. (i.offset + x) % 2 ^ 64) (mul_comm size t.frames)
      ∙ mod-eq_of_lt (below t.frames (omega arith)))

  pub split_place : split_offset t i ≡ i.offset + stored * size
  unfolding split_offset
  split_place =
      let parts : stored * size + t.splitframes * size ≡ t.frames * size =
        sym (add-mul stored t.splitframes size)
        ∙ ap (λ n. n * size) (omega (arith, stored_in.parts)) in
      rw (end_place, size_lem) (omega (arith, parts, below t.frames (omega arith)))

  pad_place : pad_track_start t i ≡ i.offset + own * size
  unfolding pad_track_start
  pad_place =
      let parts : own * size + t.padframes * size ≡ stored * size =
        sym (add-mul own t.padframes size) ∙ ap (λ n. n * size) (omega (arith, stored_in.parts)) in
      rw (split_place, size_lem) (omega (arith, parts, below stored (omega arith)))

  pub in_track : ltb (src_frame_start t i f) (src_track_end t i) ≡ ltb f t.frames
  in_track = rw (start_place, end_place) (ltb_scaled i.offset size f t.frames stored_in.some_bytes)

  pub in_padding : leb (pad_track_start t i) (src_frame_start t i f) ≡ leb own f
  in_padding = rw (start_place, pad_place) (leb_scaled i.offset size own f stored_in.some_bytes)

  pub is_split : f < t.frames → leb (split_track_start t i) (src_frame_start t i f) ≡ leb stored f
  unfolding split_track_start
  is_split h =
      let next : i.offset + (f + 1) * size < 2 ^ 64 = below (f + 1) (omega (arith, inside)) in
      elim (Bool-cases (t.splitframes == 0)) [
        | inl whole ↦
            rw (whole, start_place)
              (ground (arith, whole, h, next, add-mul f 1 size, stored_in.some_bytes))
        | inr some_split ↦
            rw (some_split, start_place, split_place)
              (leb_scaled i.offset size stored f stored_in.some_bytes)
      ]

  pub is_own : f < t.frames → ltb (src_frame_start t i f) (split_track_start t i) ≡ ltb f stored
  is_own h = let e = is_split h in ground (arith, e)
