-- ===== src/Bitstream/Writing.antt =====
-- bitstream_out keeps what was written: the bytes that went out and the bits of the accumulator are one number.
use native.Mathlib.Nat.{
  mul_assoc, add-mul, mul_comm, mod-lt, mod-eq_of_lt, div-add-mod, mul-div-mul_right,
  div-lt_iff_lt-mul,
}
use mathlib.Core.Path.{subst}
use libchdman_rs.Prelude.{
  ℕ, zero, suc, ◌+◌, ◌-◌, ◌*◌, ◌/◌, ◌%◌, ◌^◌, ◌≡◌, ◌<◌, ◌≤◌, refl, sym, ap, ◌∙◌, inl, inr, true,
  ltb, leb, Bool-cases, if◌then◌else◌, length, arith,
}
use libchdman_rs.Bytes.{Buffer}
use libchdman_rs.Cdrom.Ecc.{put}
use libchdman_rs.Cdrom.Ecc.InPlace.{byte-put, byte-put_other, length-put}
use libchdman_rs.Bitstream.{BitsOut, put_byte, drain}
use libchdman_rs.Bitstream.Window.{window, window-split, window-byte, window-same}
use libchdman_rs.Bitstream.Filling.{powers, pow_pos, masked}

-- The stream has written the number c, in the bytes that went out and v in the accumulator.
pub record Holds (s : BitsOut) (c : ℕ) : Type 0 where
  pub v : ℕ
  pub fits : s.m_bits ≤ 32
  pub below : v < 2 ^ s.m_bits
  pub buffer : s.m_buffer ≡ v * 2 ^ (32 - s.m_bits)
  pub short : length s.m_write < 2 ^ 32
  pub content : c ≡ window s.m_write 0 (8 * s.m_doffset) * 2 ^ s.m_bits + v

abbrev pub written : BitsOut → ℕ
written s = 8 * s.m_doffset + s.m_bits

-- A number as its high and low bits.
pub high_low : (v k : ℕ) → v ≡ v / 2 ^ k * 2 ^ k + v % 2 ^ k
high_low v k = omega (arith, div-add-mod v (2 ^ k), mul_comm (2 ^ k) (v / 2 ^ k))

pub high_below : (v k n : ℕ) → v < 2 ^ (n + k) → v / 2 ^ k < 2 ^ n
high_below v k n h =
    (div-lt_iff_lt-mul (pow_pos k)).1 (subst (λ x. v < x) (sym (powers n k (n + k) refl)) h)

-- High bits above the place e.
pub high_of : (v k e : ℕ) → v * 2 ^ e / 2 ^ (k + e) ≡ v / 2 ^ k
high_of v k e =
    ap (λ x. v * 2 ^ e / x) (sym (powers k e (k + e) refl))
    ∙ mul-div-mul_right v (2 ^ k) (pow_pos e)

-- The bytes behind a put at the end.
pub window-put :
    (w : Buffer) (d b : ℕ) (n : ℕ)
    → d < length w
    → n ≤ 8
    → window (put w d b) 0 (8 * d + n) ≡ window w 0 (8 * d) * 2 ^ n + b / 2 ^ (8 - n) % 2 ^ n
window-put w d b n inside small =
    let start : 0 + 8 * d ≡ 8 * d + 0 = omega arith in
    let none : 0 + n ≡ n = omega arith in
    let old : window (put w d b) 0 (8 * d) ≡ window w 0 (8 * d) =
      window-same (put w d b) w d 0 (8 * d) (λ i lt. byte-put_other w d b i (omega (arith, lt)))
        (omega arith) in
    let new : window (put w d b) (0 + 8 * d) n ≡ b / 2 ^ (8 - n) % 2 ^ n =
      ap (λ x. window (put w d b) x n) start
      ∙ window-byte (put w d b) d 0 n (omega (arith, small))
      ∙ ap (λ x. x / 2 ^ (8 - (0 + n)) % 2 ^ n) (byte-put w d b inside)
      ∙ ap (λ x. b / 2 ^ (8 - x) % 2 ^ n) none in
    window-split (put w d b) 0 (8 * d) n ∙ omega (arith, new, ap (λ x. x * 2 ^ n) old)

-- The byte that goes out.
module _ (s : BitsOut) (c : ℕ) (h : Holds s c) (whole : 8 ≤ s.m_bits)
    (room : written s ≤ 8 * length s.m_write) where
  abbrev rest_bits : ℕ
  rest_bits = s.m_bits - 8

  out_byte : s.m_buffer / 2 ^ 24 % 2 ^ 8 ≡ h.v / 2 ^ rest_bits
  out_byte =
      let place : rest_bits + (32 - s.m_bits) ≡ 24 = omega (arith, whole, h.fits) in
      let more : 8 + rest_bits ≡ s.m_bits = omega (arith, whole) in
      ap (λ x. x / 2 ^ 24 % 2 ^ 8) h.buffer
      ∙ ap (λ x. h.v * 2 ^ (32 - s.m_bits) / 2 ^ x % 2 ^ 8) (sym place)
      ∙ ap (λ x. x % 2 ^ 8) (high_of h.v rest_bits (32 - s.m_bits))
      ∙ mod-eq_of_lt (high_below h.v rest_bits 8 (subst (λ x. h.v < 2 ^ x) (sym more) h.below))

  put_out : (put_byte s).m_write ≡ put s.m_write s.m_doffset (h.v / 2 ^ rest_bits)
  unfolding put_byte
  put_out =
      let inside : ltb s.m_doffset (length s.m_write) ≡ true = ground (arith, whole, room) in
      ap (λ t. if t then put s.m_write s.m_doffset (s.m_buffer / 2 ^ 24 % 2 ^ 8) else s.m_write)
        inside
      ∙ ap (put s.m_write s.m_doffset) out_byte

  byte_size : h.v / 2 ^ rest_bits < 2 ^ 8
  byte_size =
      let more : s.m_bits ≡ 8 + rest_bits = omega (arith, whole) in
      high_below h.v rest_bits 8 (subst (λ x. h.v < 2 ^ x) more h.below)

  put_window :
      window (put_byte s).m_write 0 (8 * (s.m_doffset + 1))
      ≡ window s.m_write 0 (8 * s.m_doffset) * 2 ^ 8 + h.v / 2 ^ rest_bits
  put_window =
      let place : 8 * (s.m_doffset + 1) ≡ 8 * s.m_doffset + 8 = omega arith in
      let hi : ℕ = h.v / 2 ^ rest_bits in
      ap (λ x. window x 0 (8 * (s.m_doffset + 1))) put_out
      ∙ ap (window (put s.m_write s.m_doffset hi) 0) place
      ∙ window-put s.m_write s.m_doffset hi 8 (omega (arith, whole, room)) (omega arith)
      ∙ ap (λ x. window s.m_write 0 (8 * s.m_doffset) * 2 ^ 8 + x) (omega (arith, byte_size))

  put_content :
      c
      ≡ window (put_byte s).m_write 0 (8 * (s.m_doffset + 1)) * 2 ^ rest_bits + h.v % 2 ^ rest_bits
  put_content =
      let w : ℕ = window s.m_write 0 (8 * s.m_doffset) in
      let hi : ℕ = h.v / 2 ^ rest_bits in
      h.content
      ∙ sym (
          ap (λ x. x * 2 ^ rest_bits + h.v % 2 ^ rest_bits) put_window
          ∙ ap (λ x. x + h.v % 2 ^ rest_bits) (add-mul (w * 2 ^ 8) hi (2 ^ rest_bits))
          ∙ omega (
            arith,
            high_low h.v rest_bits,
            mul_assoc w (2 ^ 8) (2 ^ rest_bits),
            ap (λ x. w * x) (powers 8 rest_bits s.m_bits (omega (arith, whole))),
          ))

  put_buffer : s.m_buffer * 2 ^ 8 % 2 ^ 32 ≡ h.v % 2 ^ rest_bits * 2 ^ (32 - rest_bits)
  put_buffer =
      let kept : 32 - (32 - rest_bits) ≡ rest_bits = omega (arith, h.fits) in
      ap (λ x. x * 2 ^ 8 % 2 ^ 32) h.buffer
      ∙ ap (λ x. x % 2 ^ 32)
          (mul_assoc h.v (2 ^ (32 - s.m_bits)) (2 ^ 8)
            ∙ ap (λ x. h.v * x)
                (powers (32 - s.m_bits) 8 (32 - rest_bits) (omega (arith, whole, h.fits))))
      ∙ masked 32 h.v (32 - rest_bits) (omega arith)
      ∙ ap (λ x. h.v % 2 ^ x * 2 ^ (32 - rest_bits)) kept

  pub put_byte-length : length (put_byte s).m_write ≡ length s.m_write
  put_byte-length = ap length put_out ∙ length-put s.m_write s.m_doffset (h.v / 2 ^ rest_bits)

  pub advanced : (s.m_doffset + 1) % 2 ^ 32 ≡ s.m_doffset + 1
  advanced = omega (arith, whole, room, h.short)

  pub written_same : written (put_byte s) ≡ written s
  unfolding put_byte
  written_same = omega (arith, advanced, whole)

  pub put_byte-Holds : Holds (put_byte s) c
  unfolding put_byte
  put_byte-Holds = record {
    v = h.v % 2 ^ rest_bits;
    fits = omega (arith, h.fits);
    below = mod-lt h.v (pow_pos rest_bits);
    buffer = put_buffer;
    short = subst (λ n. n < 2 ^ 32) (sym put_byte-length) h.short;
    content =
        subst (λ d. c ≡ window (put_byte s).m_write 0 (8 * d) * 2 ^ rest_bits + h.v % 2 ^ rest_bits)
          (sym advanced) put_content;
  }

fewer :
    (s : BitsOut) (fuel : ℕ) → s.m_bits < 8 * (suc fuel + 1) → (put_byte s).m_bits < 8 * (fuel + 1)
unfolding put_byte
fewer s fuel few = omega (arith, few)

abbrev pub Drained : BitsOut → ℕ → BitsOut → Type 0
Drained s c s' = Holds s' c × (written s' ≡ written s) × (length s'.m_write ≡ length s.m_write)

pub drain-Drained :
    (fuel : ℕ) (s : BitsOut) (c : ℕ)
    → Holds s c
    → written s ≤ 8 * length s.m_write
    → s.m_bits < 8 * (fuel + 1)
    → Drained s c (drain 8 fuel s) × ((drain 8 fuel s).m_bits < 8)
unfolding drain
drain-Drained zero s c h room few = ((h, refl, refl), omega (arith, few))
drain-Drained (suc fuel) s c h room few = elim (Bool-cases (leb 8 s.m_bits)) [
  | inl whole ↦
      let long : 8 ≤ s.m_bits = ground (arith, whole) in
      let next : drain 8 (suc fuel) s ≡ drain 8 fuel (put_byte s) =
        ap (λ t. if t then drain 8 fuel (put_byte s) else s) whole in
      let same : written (put_byte s) ≡ written s = written_same s c h long room in
      let longer : length (put_byte s).m_write ≡ length s.m_write =
        put_byte-length s c h long room in
      let ((h', place, size), less) =
        drain-Drained fuel (put_byte s) c (put_byte-Holds s c h long room)
          (omega (arith, room, same, longer)) (fewer s fuel few) in
      subst (λ q. Drained s c q × (q.m_bits < 8)) (sym next)
        ((h', place ∙ same, size ∙ longer), less)
  | inr part ↦
      subst (λ q. Drained s c q × (q.m_bits < 8))
        (sym (ap (λ t. if t then drain 8 fuel (put_byte s) else s) part))
        ((h, refl, refl), ground (arith, part))
]
