-- ===== src/Bitstream/Offload.antt =====
-- bitstream_out::write: the number that the stream holds, and bits that move into the accumulator.
use native.Mathlib.Nat.{mul_assoc, add-mul, mod-lt, mul-le-mul_right, mul-lt-mul_of_pos_right}
use mathlib.Core.Path.{subst}
use Prim.Native.Nat.{bit_or}
use libchdman_rs.Prelude.{
  ℕ, ◌+◌, ◌-◌, ◌*◌, ◌/◌, ◌%◌, ◌^◌, ◌≡◌, ◌<◌, ◌≤◌, refl, sym, ap, ◌∙◌, length, arith,
}
use libchdman_rs.Bitstream.{BitsOut, Pending, moved}
use libchdman_rs.Bitstream.Or.{bit_or_disjoint}
use libchdman_rs.Bitstream.Window.{window}
use libchdman_rs.Bitstream.Filling.{powers, pow_pos, masked}
use libchdman_rs.Bitstream.Writing.{Holds, written, high_low, high_below, high_of}

-- The stream and the bits that are to go make the number c.
pub record Pend (q : Pending) (c : ℕ) : Type 0 where
  pub base : ℕ
  pub holds : Holds q.out base
  pub u : ℕ
  pub narrow : q.numbits ≤ 32
  pub below : u < 2 ^ q.numbits
  pub bits : q.newbits ≡ u * 2 ^ (32 - q.numbits)
  pub content : c ≡ base * 2 ^ q.numbits + u
  pub room : written q.out + q.numbits ≤ 8 * length q.out.m_write

abbrev pub extended : BitsOut → ℕ → ℕ → BitsOut
extended s y n = record s { m_buffer = bit_or s.m_buffer y; m_bits = s.m_bits + n }

-- More bits behind those of the accumulator.
module _ (s : BitsOut) (c x y n : ℕ) (h : Holds s c) (small : x < 2 ^ n) (room : s.m_bits + n ≤ 32)
    (placed : y ≡ x * 2 ^ (32 - (s.m_bits + n))) where
  joined_below : h.v * 2 ^ n + x < 2 ^ (s.m_bits + n)
  joined_below =
      let next : (h.v + 1) * 2 ^ n ≤ 2 ^ s.m_bits * 2 ^ n =
        mul-le-mul_right (2 ^ n) (omega (arith, h.below)) in
      omega (arith, small, next, add-mul h.v 1 (2 ^ n), powers s.m_bits n (s.m_bits + n) refl)

  joined_buffer : bit_or s.m_buffer y ≡ (h.v * 2 ^ n + x) * 2 ^ (32 - (s.m_bits + n))
  joined_buffer =
      let e : ℕ = 32 - (s.m_bits + n) in
      let together : 2 ^ n * 2 ^ e ≡ 2 ^ (32 - s.m_bits) =
        powers n e (32 - s.m_bits) (omega (arith, room)) in
      let below : y < 2 ^ (32 - s.m_bits) =
        subst (λ z. z < 2 ^ (32 - s.m_bits)) (sym placed)
          (subst (λ z. x * 2 ^ e < z) together (mul-lt-mul_of_pos_right small (pow_pos e))) in
      ap (λ z. bit_or z y) h.buffer
      ∙ bit_or_disjoint (32 - s.m_bits) h.v y below
      ∙ sym (
          add-mul (h.v * 2 ^ n) x (2 ^ e)
          ∙ omega (arith, placed, mul_assoc h.v (2 ^ n) (2 ^ e), ap (λ z. h.v * z) together))

  joined_content :
      c * 2 ^ n + x ≡ window s.m_write 0 (8 * s.m_doffset) * 2 ^ (s.m_bits + n) + (h.v * 2 ^ n + x)
  joined_content =
      let w : ℕ = window s.m_write 0 (8 * s.m_doffset) in
      ap (λ z. z * 2 ^ n + x) h.content
      ∙ omega (
        arith,
        add-mul (w * 2 ^ s.m_bits) h.v (2 ^ n),
        mul_assoc w (2 ^ s.m_bits) (2 ^ n),
        ap (λ z. w * z) (powers s.m_bits n (s.m_bits + n) refl),
      )

  pub joined : Holds (extended s y n) (c * 2 ^ n + x)
  joined = record {
    v = h.v * 2 ^ n + x;
    fits = room;
    below = joined_below;
    buffer = joined_buffer;
    short = h.short;
    content = joined_content;
  }

pub moved-Pend :
    (q : Pending) (c rem : ℕ)
    → Pend q c
    → rem ≡ 32 - q.out.m_bits
    → rem ≤ q.numbits
    → Pend (moved q rem) c
moved-Pend q c rem h whole part =
    let n : ℕ = q.numbits in
    let bits : ℕ = q.out.m_bits in
    let left : ℕ = n - rem in
    let x : ℕ = h.u / 2 ^ left in
    let place : left + (32 - n) ≡ bits = omega (arith, whole, part, h.narrow, h.holds.fits) in
    let parts : n ≡ rem + left = omega (arith, part) in
    let end : 32 - (bits + rem) ≡ 0 = omega (arith, whole, h.holds.fits) in
    let top : q.newbits / 2 ^ bits ≡ x * 2 ^ (32 - (bits + rem)) =
      ap (λ z. z / 2 ^ bits) h.bits
      ∙ ap (λ z. h.u * 2 ^ (32 - n) / 2 ^ z) (sym place)
      ∙ high_of h.u left (32 - n)
      ∙ sym (ap (λ z. x * 2 ^ z) end ∙ omega arith) in
    let small : x < 2 ^ rem = high_below h.u left rem (subst (λ z. h.u < 2 ^ z) parts h.below) in
    let kept : 32 - (32 - left) ≡ left = omega (arith, h.narrow) in
    let rest : q.newbits * 2 ^ rem % 2 ^ 32 ≡ h.u % 2 ^ left * 2 ^ (32 - left) =
      ap (λ z. z * 2 ^ rem % 2 ^ 32) h.bits
      ∙ ap (λ z. z % 2 ^ 32)
          (mul_assoc h.u (2 ^ (32 - n)) (2 ^ rem)
            ∙ ap (λ z. h.u * z) (powers (32 - n) rem (32 - left) (omega (arith, h.narrow, part))))
      ∙ masked 32 h.u (32 - left) (omega arith)
      ∙ ap (λ z. h.u % 2 ^ z * 2 ^ (32 - left)) kept in
    record {
      base = h.base * 2 ^ rem + x;
      holds =
          joined q.out h.base x (q.newbits / 2 ^ bits) rem h.holds small
            (omega (arith, whole, h.holds.fits)) top;
      u = h.u % 2 ^ left;
      narrow = omega (arith, h.narrow);
      below = mod-lt h.u (pow_pos left);
      bits = rest;
      content =
          h.content
          ∙ omega (
            arith,
            high_low h.u left,
            add-mul (h.base * 2 ^ rem) x (2 ^ left),
            mul_assoc h.base (2 ^ rem) (2 ^ left),
            ap (λ z. h.base * z) (powers rem left n (sym parts)),
          );
      room = omega (arith, h.room, part);
    }
