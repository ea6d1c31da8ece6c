-- ===== src/Bitstream/RoundTrip.antt =====
-- bitstream_in behind bitstream_out.
use native.Mathlib.Nat.{
  mul_assoc, add-mul, mul-le-mul_right, mod-lt, mul-add-div_right, div-eq_of_lt,
}
use mathlib.Core.Path.{subst}
use libchdman_rs.Prelude.{
  ℕ, ◌+◌, ◌*◌, ◌/◌, ◌%◌, ◌^◌, ◌≡◌, ◌<◌, ◌≤◌, refl, sym, ap, ◌∙◌, List, [], ◌∷◌, length, arith,
}
use libchdman_rs.Bytes.{Buffer}
use libchdman_rs.Bitstream.{BitsOut, bits_in, bits_out, write, flush_out}
use libchdman_rs.Bitstream.Window.{window, window_below, window-split}
use libchdman_rs.Bitstream.Filling.{powers, pow_pos}
use libchdman_rs.Bitstream.Reading.{read_fields, windows, total, AtMost, read_fields-windows}
use libchdman_rs.Bitstream.Writing.{Holds, written}
use libchdman_rs.Bitstream.Rounds.{Wrote, write-Wrote}
use libchdman_rs.Bitstream.Flushing.{flush_out-Flushed}

-- Fields with their widths, written one behind the other.
unfoldable pub write_fields : BitsOut → List (ℕ × ℕ) → BitsOut
write_fields s [] = s
write_fields s ((x, n) ∷ fields) = write_fields (write s x n) fields

unfoldable pub widths : List (ℕ × ℕ) → List ℕ
widths [] = []
widths ((x, n) ∷ fields) = n ∷ widths fields

-- The values that fit the widths.
unfoldable pub low_bits : List (ℕ × ℕ) → List ℕ
low_bits [] = []
low_bits ((x, n) ∷ fields) = x % 2 ^ n ∷ low_bits fields

-- The fields as one number.
value : List (ℕ × ℕ) → ℕ
value [] = 0
value ((x, n) ∷ fields) = x % 2 ^ n * 2 ^ total (widths fields) + value fields

value_below : (fields : List (ℕ × ℕ)) → value fields < 2 ^ total (widths fields)
unfolding value widths total
value_below [] = omega arith
value_below ((x, n) ∷ fields) =
    let t : ℕ = total (widths fields) in
    let next : (x % 2 ^ n + 1) * 2 ^ t ≤ 2 ^ n * 2 ^ t =
      mul-le-mul_right (2 ^ t) (omega (arith, mod-lt x (pow_pos n))) in
    omega (arith, next, value_below fields, add-mul (x % 2 ^ n) 1 (2 ^ t), powers n t (n + t) refl)

write_fields-Wrote :
    (s : BitsOut) (c : ℕ) (fields : List (ℕ × ℕ))
    → Holds s c
    → AtMost 32 (widths fields)
    → written s + total (widths fields) ≤ 8 * length s.m_write
    → Wrote s
        (c * 2 ^ total (widths fields) + value fields)
        (total (widths fields))
        (write_fields s fields)
unfolding write_fields value widths total AtMost
write_fields-Wrote s c [] h narrow room = (subst (Holds s) (omega arith) h, omega arith, refl)
write_fields-Wrote s c ((x, n) ∷ fields) h (narrow, rest) room =
    let t : ℕ = total (widths fields) in
    let (holds, place, size) = write-Wrote s c x n h narrow (omega (arith, room)) in
    let (holds', place', size') =
      write_fields-Wrote (write s x n) (c * 2 ^ n + x % 2 ^ n) fields holds rest
        (omega (arith, room, place, size)) in
    let number : (c * 2 ^ n + x % 2 ^ n) * 2 ^ t + value fields
        ≡ c * 2 ^ (n + t) + (x % 2 ^ n * 2 ^ t + value fields) =
      omega (
        arith,
        add-mul (c * 2 ^ n) (x % 2 ^ n) (2 ^ t),
        mul_assoc c (2 ^ n) (2 ^ t),
        ap (λ z. c * z) (powers n t (n + t) refl),
      ) in
    (
      subst (Holds (write_fields (write s x n) fields)) number holds',
      omega (arith, place, place'),
      size' ∙ size,
    )

-- Quotient and rest are unique.
high_same : (a b r q m : ℕ) → r < m → q < m → a * m + r ≡ b * m + q → a ≡ b
high_same a b r q m small small' same =
    let left : (a * m + r) / m ≡ a + r / m = mul-add-div_right (omega (arith, small)) a r in
    let right : (b * m + q) / m ≡ b + q / m = mul-add-div_right (omega (arith, small)) b q in
    omega (arith, left, right, ap (λ z. z / m) same, div-eq_of_lt small, div-eq_of_lt small')

fields_back :
    (src : Buffer) (p : ℕ) (fields : List (ℕ × ℕ))
    → window src p (total (widths fields)) ≡ value fields
    → windows src p (widths fields) ≡ low_bits fields
unfolding value widths total windows low_bits
fields_back src p [] same = refl
fields_back src p ((x, n) ∷ fields) same =
    let t : ℕ = total (widths fields) in
    let parts : window src p n * 2 ^ t + window src (p + n) t ≡ x % 2 ^ n * 2 ^ t + value fields =
      sym (window-split src p n t) ∙ same in
    let first : window src p n ≡ x % 2 ^ n =
      high_same (window src p n) (x % 2 ^ n) (window src (p + n) t) (value fields) (2 ^ t)
        (window_below src (p + n) t) (value_below fields) parts in
    let rest : window src (p + n) t ≡ value fields =
      omega (arith, parts, ap (λ z. z * 2 ^ t) first) in
    ap (λ z. z ∷ windows src (p + n) (widths fields)) first
    ∙ ap (λ zs. x % 2 ^ n ∷ zs) (fields_back src (p + n) fields rest)

bits_out-Holds : (dest : Buffer) → length dest < 2 ^ 32 → Holds (bits_out dest) 0
unfolding window
bits_out-Holds dest short = record {
  v = 0;
  fits = omega arith;
  below = omega arith;
  buffer = omega arith;
  short = short;
  content = omega arith;
}

-- Where fields of at most 32 bits each, which fit a buffer of fewer than 2 ^ 32 bytes together, are
-- written to a new bitstream_out, flush gives the number of bytes that are begun, and the buffer
-- holds the lowest bits of each value, as many as its field has, one field behind the other, and
-- keeps its length.
pub write_fields-windows :
    (dest : Buffer) (fields : List (ℕ × ℕ))
    → AtMost 32 (widths fields)
    → total (widths fields) ≤ 8 * length dest
    → length dest < 2 ^ 32
    → let (size, end) = flush_out (write_fields (bits_out dest) fields) in
      (size ≡ (total (widths fields) + 7) / 8)
      × (windows end.m_write 0 (widths fields) ≡ low_bits fields)
      × (length end.m_write ≡ length dest)
write_fields-windows dest fields narrow room short =
    let t : ℕ = total (widths fields) in
    let (holds, place, size) =
      write_fields-Wrote (bits_out dest) 0 fields (bits_out-Holds dest short) narrow
        (omega (arith, room)) in
    let last : BitsOut = write_fields (bits_out dest) fields in
    let all_bits : written last ≡ t = omega (arith, place) in
    let ((all, offset, size'), told) =
      flush_out-Flushed last (0 * 2 ^ t + value fields) holds (omega (arith, place, size, room)) in
    let number : window (flush_out last).1.m_write 0 t ≡ value fields =
      ap (window (flush_out last).1.m_write 0) (sym all_bits) ∙ all ∙ omega arith in
    (
      told ∙ ap (λ z. (z + 7) / 8) all_bits,
      fields_back (flush_out last).1.m_write 0 fields number,
      size' ∙ size,
    )

wider : (ns : List ℕ) → AtMost 25 ns → AtMost 32 ns
unfolding AtMost
wider [] narrow = tt
wider (n ∷ ns) (narrow, rest) = (omega (arith, narrow), wider ns rest)

-- Where fields of at most 25 bits each, which fit a buffer of at most 2 ^ 32 - 8 bytes together,
-- are written one behind the other to a new bitstream_out and flushed, a new bitstream_in on the
-- buffer reads the lowest bits of each value, as many as its field has, in order.
pub read_fields-write_fields :
    (dest : Buffer) (fields : List (ℕ × ℕ))
    → AtMost 25 (widths fields)
    → total (widths fields) ≤ 8 * length dest
    → length dest + 8 ≤ 2 ^ 32
    → let (size, end) = flush_out (write_fields (bits_out dest) fields) in
      (read_fields end.m_write bits_in (widths fields)).0 ≡ low_bits fields
read_fields-write_fields dest fields narrow room short =
    let (size, back, same) =
      write_fields-windows dest fields (wider (widths fields) narrow) room (omega (arith, short)) in
    let (values, offset, past) =
      read_fields-windows (flush_out (write_fields (bits_out dest) fields)).1.m_write
        (widths fields) narrow (omega (arith, room, short)) in
    values ∙ back
