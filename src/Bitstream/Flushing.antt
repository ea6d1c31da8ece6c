-- ===== src/Bitstream/Flushing.antt =====
-- bitstream_out::flush: the bytes that are out at the end.
use native.Mathlib.Nat.{mul_assoc, mod-eq_of_lt, mul-div_left, mul-lt-mul_of_pos_right}
use mathlib.Core.Path.{subst}
use libchdman_rs.Prelude.{
  ℕ, zero, suc, ◌+◌, ◌-◌, ◌*◌, ◌/◌, ◌%◌, ◌^◌, ◌≡◌, ◌<◌, ◌≤◌, refl, sym, ap, ◌∙◌, ◌⊎◌, inl, inr,
  true, false, ltb, leb, if◌then◌else◌, length, arith,
}
use libchdman_rs.Cdrom.Ecc.{put}
use libchdman_rs.Cdrom.Ecc.InPlace.{length-put}
use libchdman_rs.Bitstream.{BitsOut, put_byte, drain, flush_out}
use libchdman_rs.Bitstream.Window.{window}
use libchdman_rs.Bitstream.Filling.{powers, pow_pos}
use libchdman_rs.Bitstream.Writing.{
  Holds, written, written_same, window-put, put_byte-Holds, put_byte-length,
}

-- The stream `end` has all that s holds in its bytes.
abbrev pub Flushed : BitsOut → ℕ → BitsOut → Type 0
Flushed s c end =
    (window end.m_write 0 (written s) ≡ c)
    × (end.m_doffset ≡ (written s + 7) / 8)
    × (length end.m_write ≡ length s.m_write)

nothing_left : (s : BitsOut) (c : ℕ) → Holds s c → s.m_bits ≡ 0 → Flushed s c s
nothing_left s c h none =
    let empty : h.v < 1 = subst (λ n. h.v < 2 ^ n) none h.below in
    let all : written s ≡ 8 * s.m_doffset = omega (arith, none) in
    (
      ap (window s.m_write 0) all
          ∙ sym (
              h.content
              ∙ ap (λ n. window s.m_write 0 (8 * s.m_doffset) * 2 ^ n + h.v) none
              ∙ omega (arith, empty)),
      omega (arith, none),
      refl,
    )

drain_stop : (fuel : ℕ) (s : BitsOut) → s.m_bits ≡ 0 → drain 1 fuel s ≡ s
unfolding drain
drain_stop zero s none = refl
drain_stop (suc fuel) s none =
    let stop : leb 1 s.m_bits ≡ false = ground (arith, none) in
    ap (λ t. if t then drain 1 fuel (put_byte s) else s) stop

-- The last byte, of less than 8 bits.
last_byte :
    (s : BitsOut) (c : ℕ)
    → Holds s c
    → 0 < s.m_bits
    → s.m_bits < 8
    → written s ≤ 8 * length s.m_write
    → Flushed s c (put_byte s)
unfolding put_byte
last_byte s c h some_left few room =
    let n : ℕ = s.m_bits in
    let b : ℕ = s.m_buffer / 2 ^ 24 % 2 ^ 8 in
    let inside : ltb s.m_doffset (length s.m_write) ≡ true = ground (arith, some_left, room) in
    let out : (put_byte s).m_write ≡ put s.m_write s.m_doffset b =
      ap (λ t. if t then put s.m_write s.m_doffset b else s.m_write) inside in
    let small : h.v * 2 ^ (8 - n) < 2 ^ 8 =
      subst (λ x. h.v * 2 ^ (8 - n) < x) (powers n (8 - n) 8 (omega (arith, few)))
        (mul-lt-mul_of_pos_right h.below (pow_pos (8 - n))) in
    let value : b ≡ h.v * 2 ^ (8 - n) =
      ap (λ x. x / 2 ^ 24 % 2 ^ 8) h.buffer
      ∙ ap (λ x. h.v * x / 2 ^ 24 % 2 ^ 8) (sym (powers (8 - n) 24 (32 - n) (omega (arith, few))))
      ∙ ap (λ x. x / 2 ^ 24 % 2 ^ 8) (sym (mul_assoc h.v (2 ^ (8 - n)) (2 ^ 24)))
      ∙ ap (λ x. x % 2 ^ 8) (mul-div_left (h.v * 2 ^ (8 - n)) (pow_pos 24))
      ∙ mod-eq_of_lt small in
    let top : b / 2 ^ (8 - n) % 2 ^ n ≡ h.v =
      ap (λ x. x / 2 ^ (8 - n) % 2 ^ n) value
      ∙ ap (λ x. x % 2 ^ n) (mul-div_left h.v (pow_pos (8 - n)))
      ∙ mod-eq_of_lt h.below in
    (
      ap (λ x. window x 0 (written s)) out
          ∙ window-put s.m_write s.m_doffset b n (omega (arith, some_left, room))
              (omega (arith, few))
          ∙ ap (λ x. window s.m_write 0 (8 * s.m_doffset) * 2 ^ n + x) top
          ∙ sym h.content,
      omega (arith, some_left, few, room, h.short),
      ap length out ∙ length-put s.m_write s.m_doffset b,
    )

step : (fuel : ℕ) (s : BitsOut) → 0 < s.m_bits → drain 1 (suc fuel) s ≡ drain 1 fuel (put_byte s)
unfolding drain
step fuel s some_left =
    let more : leb 1 s.m_bits ≡ true = ground (arith, some_left) in
    ap (λ t. if t then drain 1 fuel (put_byte s) else s) more

emptied : (s : BitsOut) → s.m_bits < 8 → (put_byte s).m_bits ≡ 0
unfolding put_byte
emptied s part = omega (arith, part)

fewer : (s : BitsOut) (fuel : ℕ) → s.m_bits ≤ 8 * suc fuel → (put_byte s).m_bits ≤ 8 * fuel
unfolding put_byte
fewer s fuel few = omega (arith, few)

drain-Flushed :
    (fuel : ℕ) (s : BitsOut) (c : ℕ)
    → Holds s c
    → s.m_bits ≤ 8 * fuel
    → written s ≤ 8 * length s.m_write
    → Flushed s c (drain 1 fuel s)
drain-Flushed zero s c h few room =
    let none : s.m_bits ≡ 0 = omega (arith, few) in
    subst (Flushed s c) (sym (drain_stop 0 s none)) (nothing_left s c h none)
drain-Flushed (suc fuel) s c h few room = elim (parts s.m_bits) [
  | inl none ↦ subst (Flushed s c) (sym (drain_stop (suc fuel) s none)) (nothing_left s c h none)
  | inr (inl (some_left, part)) ↦
      subst (Flushed s c)
        (sym (step fuel s some_left ∙ drain_stop fuel (put_byte s) (emptied s part)))
        (last_byte s c h some_left part room)
  | inr (inr whole) ↦
      let same : written (put_byte s) ≡ written s = written_same s c h whole room in
      let longer : length (put_byte s).m_write ≡ length s.m_write =
        put_byte-length s c h whole room in
      let (all, offset, size) =
        drain-Flushed fuel (put_byte s) c (put_byte-Holds s c h whole room) (fewer s fuel few)
          (omega (arith, room, same, longer)) in
      subst (Flushed s c) (sym (step fuel s (omega (arith, whole)))) (
        ap (window (drain 1 fuel (put_byte s)).m_write 0) (sym same) ∙ all,
        offset ∙ ap (λ x. (x + 7) / 8) same,
        size ∙ longer,
      )
]
  where
    parts : (n : ℕ) → (n ≡ 0) ⊎ (((0 < n) × (n < 8)) ⊎ (8 ≤ n))
    parts n = ground arith

-- flush writes out what is held.
pub flush_out-Flushed :
    (s : BitsOut) (c : ℕ)
    → Holds s c
    → written s ≤ 8 * length s.m_write
    → Flushed s c (flush_out s).1 × ((flush_out s).0 ≡ (written s + 7) / 8)
unfolding flush_out
flush_out-Flushed s c h room =
    let (all, offset, size) = drain-Flushed 4 s c h h.fits room in ((all, offset, size), offset)
