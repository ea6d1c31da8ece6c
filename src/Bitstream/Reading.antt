-- ===== src/Bitstream/Reading.antt =====
-- bitstream_in against the bits of the data.
use native.Mathlib.Nat.{
  mul_assoc, add-mul, mul_comm, mod-eq_of_lt, add-mul-mod_self_left, mul-add-div, div-eq_of_lt,
  mul_right_comm, mul-lt-mul_of_pos_right,
}
use mathlib.Core.Path.{subst}
use libchdman_rs.Prelude.{
  ℕ, zero, suc, ◌+◌, ◌-◌, ◌*◌, ◌/◌, ◌%◌, ◌^◌, ◌≡◌, ◌<◌, ◌≤◌, refl, sym, ap, ◌∙◌, ◌⊎◌, inl, inr,
  Bool, true, false, ltb, leb, ◌==◌, Bool-cases, if◌then◌else◌, length, List, [], ◌∷◌, arith,
}
use libchdman_rs.Bytes.{Buffer}
use libchdman_rs.Bitstream.{
  BitsIn, bits_in, fill, fetch, peek, remove, read, overflow, read_offset, back_loop, begun,
}
use libchdman_rs.Bitstream.Window.{window, window_below, window-split}
use libchdman_rs.Bitstream.Filling.{At, fill-At, powers, pow_pos}

fetch-At :
    (src : Buffer) (p : ℕ) (s : BitsIn) (n : ℕ)
    → At src p s
    → n ≤ 25
    → At src p (fetch src s n) × (n ≤ (fetch src s n).m_bits)
unfolding fetch
fetch-At src p s n at narrow = elim (Bool-cases (ltb s.m_bits n)) [
  | inl more ↦
      let (filled, full) =
        fill-At 5 src p s at (inl (ground (arith, more, narrow))) (omega (arith, at.small)) in
      subst
        (λ t.
          At src p (if t then fill 5 src s else s) × (n ≤ (if t then fill 5 src s else s).m_bits))
        (sym more) (filled, omega (arith, full, narrow))
  | inr there ↦
      subst
        (λ t.
          At src p (if t then fill 5 src s else s) × (n ≤ (if t then fill 5 src s else s).m_bits))
        (sym there) (at, ground (arith, there))
]

-- The accumulator as the next n bits and the bits behind them.
module _ (src : Buffer) (p : ℕ) (s : BitsIn) (n : ℕ) (at : At src p s) (held : n ≤ s.m_bits) where
  abbrev behind : ℕ
  behind = window src (p + n) (s.m_bits - n)

  behind_below : behind * 2 ^ (32 - s.m_bits) < 2 ^ (32 - n)
  behind_below =
      subst (λ x. behind * 2 ^ (32 - s.m_bits) < x)
        (powers (s.m_bits - n) (32 - s.m_bits) (32 - n) (omega (arith, held, at.fits)))
        (mul-lt-mul_of_pos_right (window_below src (p + n) (s.m_bits - n))
          (pow_pos (32 - s.m_bits)))

  front_and_behind : s.m_buffer ≡ 2 ^ (32 - n) * window src p n + behind * 2 ^ (32 - s.m_bits)
  front_and_behind =
      let w : ℕ = window src p n in
      let parts : n + (s.m_bits - n) ≡ s.m_bits = omega (arith, held) in
      at.held
      ∙ ap (λ x. x * 2 ^ (32 - s.m_bits))
          (ap (window src p) (sym parts) ∙ window-split src p n (s.m_bits - n))
      ∙ add-mul (w * 2 ^ (s.m_bits - n)) behind (2 ^ (32 - s.m_bits))
      ∙ ap (λ x. x + behind * 2 ^ (32 - s.m_bits))
          (mul_assoc w (2 ^ (s.m_bits - n)) (2 ^ (32 - s.m_bits))
            ∙ ap (λ x. w * x)
                (powers (s.m_bits - n) (32 - s.m_bits) (32 - n) (omega (arith, held, at.fits)))
            ∙ mul_comm w (2 ^ (32 - n)))

  front : s.m_buffer / 2 ^ (32 - n) ≡ window src p n
  front =
      ap (λ x. x / 2 ^ (32 - n)) front_and_behind
      ∙ mul-add-div (pow_pos (32 - n)) (window src p n) (behind * 2 ^ (32 - s.m_bits))
      ∙ ap (λ x. window src p n + x) (div-eq_of_lt behind_below)
      ∙ omega arith

  pub remove-At : p + n + 40 ≤ 2 ^ 35 → At src (p + n) (remove s n)
  unfolding remove
  remove-At near =
      let rest : ℕ = behind * 2 ^ (32 - s.m_bits) * 2 ^ n in
      let shifted : s.m_buffer * 2 ^ n ≡ rest + 2 ^ 32 * window src p n =
        ap (λ x. x * 2 ^ n) front_and_behind
        ∙ add-mul (2 ^ (32 - n) * window src p n) (behind * 2 ^ (32 - s.m_bits)) (2 ^ n)
        ∙ omega (
          arith,
          mul_right_comm (2 ^ (32 - n)) (window src p n) (2 ^ n),
          ap (λ x. x * window src p n) (powers (32 - n) n 32 (omega (arith, held, at.fits))),
        ) in
      let below : rest < 2 ^ 32 =
        subst (λ x. rest < x) (powers (32 - n) n 32 (omega (arith, held, at.fits)))
          (mul-lt-mul_of_pos_right behind_below (pow_pos n)) in
      let place : rest ≡ behind * 2 ^ (32 - (s.m_bits - n)) =
        mul_assoc behind (2 ^ (32 - s.m_bits)) (2 ^ n)
        ∙ ap (λ x. behind * x)
            (powers (32 - s.m_bits) n (32 - (s.m_bits - n)) (omega (arith, held, at.fits))) in
      record {
        fits = omega (arith, at.fits);
        small = at.small;
        place = omega (arith, at.place, held);
        near = near;
        held =
            ap (λ x. x % 2 ^ 32) shifted
            ∙ add-mul-mod_self_left rest (2 ^ 32) (window src p n)
            ∙ mod-eq_of_lt below
            ∙ place;
      }

abbrev answer : BitsIn → BitsIn → ℕ → Bool → ℕ × BitsIn
answer s s' n empty = if empty then (0, s) else (s'.m_buffer / 2 ^ (32 - n), s')

-- What peek delivers.
pub peek-At :
    (src : Buffer) (p : ℕ) (s : BitsIn) (n : ℕ)
    → At src p s
    → n ≤ 25
    → ((peek src s n).0 ≡ window src p n)
      × At src p (peek src s n).1
      × (n ≤ (peek src s n).1.m_bits)
unfolding peek window
peek-At src p s n at narrow = elim (Bool-cases (n == 0)) [
  | inl empty ↦
      let zero_bits : n ≡ 0 = ground (arith, empty) in
      subst
        (λ t.
          ((answer s (fetch src s n) n t).0 ≡ window src p n)
          × At src p (answer s (fetch src s n) n t).1
          × (n ≤ (answer s (fetch src s n) n t).1.m_bits))
        (sym empty) (sym (ap (window src p) zero_bits), at, omega (arith, zero_bits))
  | inr some_bits ↦
      let (filled, there) = fetch-At src p s n at narrow in
      subst
        (λ t.
          ((answer s (fetch src s n) n t).0 ≡ window src p n)
          × At src p (answer s (fetch src s n) n t).1
          × (n ≤ (answer s (fetch src s n) n t).1.m_bits))
        (sym some_bits) (front src p (fetch src s n) n filled there, filled, there)
]

-- read.
pub read-At :
    (src : Buffer) (p : ℕ) (s : BitsIn) (n : ℕ)
    → At src p s
    → n ≤ 25
    → p + n + 40 ≤ 2 ^ 35
    → ((read src s n).0 ≡ window src p n) × At src (p + n) (read src s n).1
unfolding read
read-At src p s n at narrow near =
    let (value, after, there) = peek-At src p s n at narrow in
    (value, remove-At src p (peek src s n).1 n after there near)

pub bits_in-At : (src : Buffer) → At src 0 bits_in
unfolding window
bits_in-At src = record {
  fits = omega arith;
  small = omega arith;
  place = omega arith;
  near = omega arith;
  held = omega arith;
}

pair : {a b c d : ℕ} → a ≡ c → b ≡ d → Path (ℕ × ℕ) (a, b) (c, d)
pair {a} {b} {c} {d} first second = ap (λ x. (x, b)) first ∙ ap (λ y. (c, y)) second

back_loop_lem :
    (fuel offset bits : ℕ)
    → bits ≤ 8 * fuel + 7
    → (back_loop fuel offset bits ≡ (offset - bits / 8, bits % 8))
unfolding back_loop
back_loop_lem zero offset bits h = pair (omega (arith, h)) (omega (arith, h))
back_loop_lem (suc fuel) offset bits h = elim (Bool-cases (leb 8 bits)) [
  | inl whole ↦
      ap (λ t. if t then back_loop fuel (offset - 1) (bits - 8) else (offset, bits)) whole
      ∙ back_loop_lem fuel (offset - 1) (bits - 8) (omega (arith, h))
      ∙ pair (ground (arith, whole)) (ground (arith, whole))
  | inr part ↦
      ap (λ t. if t then back_loop fuel (offset - 1) (bits - 8) else (offset, bits)) part
      ∙ pair (ground (arith, part)) (ground (arith, part))
]

-- read_offset.
pub read_offset-At : (src : Buffer) (p : ℕ) (s : BitsIn) → At src p s → read_offset s ≡ (p + 7) / 8
unfolding read_offset
read_offset-At src p s at =
    let taken : ℕ = s.m_doffset - s.m_bits / 8 in
    ap (begun s.m_dbitoffs) (back_loop_lem 4 s.m_doffset s.m_bits (omega (arith, at.fits)))
    ∙ elim (Bool-cases (ltb (s.m_bits % 8) s.m_dbitoffs)) [
      | inl more ↦
          ap (λ t. if t then (taken + 1) % 2 ^ 32 else taken) more
          ∙ ground (arith, more, at.place, at.small, at.fits, at.near)
      | inr even ↦
          ap (λ t. if t then (taken + 1) % 2 ^ 32 else taken) even
          ∙ ground (arith, even, at.place, at.small, at.fits)
    ]

-- Fields of the given widths, one behind the other.
unfoldable pub read_fields : Buffer → BitsIn → List ℕ → List ℕ × BitsIn
unfolding read
read_fields src s [] = ([], s)
read_fields src s (n ∷ widths) =
    let (result, s') = read src s n in
    let (results, end) = read_fields src s' widths in (result ∷ results, end)

unfoldable pub windows : Buffer → ℕ → List ℕ → List ℕ
unfolding window
windows src p [] = []
windows src p (n ∷ widths) = window src p n ∷ windows src (p + n) widths

unfoldable pub total : List ℕ → ℕ
total [] = 0
total (n ∷ widths) = n + total widths

unfoldable pub AtMost : ℕ → List ℕ → Type 0
AtMost bound [] = Unit
AtMost bound (n ∷ widths) = (n ≤ bound) × AtMost bound widths

pub read_fields-At :
    (src : Buffer) (p : ℕ) (s : BitsIn) (widths : List ℕ)
    → At src p s
    → AtMost 25 widths
    → p + total widths + 40 ≤ 2 ^ 35
    → ((read_fields src s widths).0 ≡ windows src p widths)
      × At src (p + total widths) (read_fields src s widths).1
unfolding read_fields windows total AtMost
read_fields-At src p s [] at narrow near = (refl, subst (λ q. At src q s) (omega arith) at)
read_fields-At src p s (n ∷ widths) at (narrow, rest) near =
    let (value, after) = read-At src p s n at narrow (omega (arith, near)) in
    let (values, end) =
      read_fields-At src (p + n) (read src s n).1 widths after rest (omega (arith, near)) in
    (
      ap (λ v. v ∷ (read_fields src (read src s n).1 widths).0) value
          ∙ ap (λ vs. window src p n ∷ vs) values,
      subst (λ q. At src q (read_fields src (read src s n).1 widths).1) (omega arith) end,
    )

overflow-At :
    (src : Buffer) (p t : ℕ) (s : BitsIn)
    → p ≡ t
    → At src p s
    → ((overflow src s ≡ true) × (8 * length src < t))
      ⊎ ((overflow src s ≡ false) × (t < 8 * length src + 8))
overflow-At src p t s same at = elim (Bool-cases (overflow src s)) [
  | inl past ↦ inl (past, ground (arith, past, same, at.place, at.small, at.fits))
  | inr inside ↦ inr (inside, ground (arith, inside, same, at.place, at.small, at.fits))
]

-- On any data, reads of fields of at most 25 bits each, and of at most 2 ^ 35 - 40 bits together,
-- from a new bitstream_in deliver the bits of the data one field behind the other, the highest bit
-- first and zeros behind the end; read_offset is then the number of bytes that are begun, and
-- overflow tells only reads past the end, and each that is 8 bits or more past it.
pub read_fields-windows :
    (src : Buffer) (widths : List ℕ)
    → AtMost 25 widths
    → total widths + 40 ≤ 2 ^ 35
    → let (results, end) = read_fields src bits_in widths in
      (results ≡ windows src 0 widths)
      × (read_offset end ≡ (total widths + 7) / 8)
      × (((overflow src end ≡ true) × (8 * length src < total widths))
          ⊎ ((overflow src end ≡ false) × (total widths < 8 * length src + 8)))
read_fields-windows src widths narrow near =
    let (values, at) =
      read_fields-At src 0 bits_in widths (bits_in-At src) narrow (omega (arith, near)) in
    (
      values,
      read_offset-At src (0 + total widths) (read_fields src bits_in widths).1 at ∙ omega arith,
      overflow-At src (0 + total widths) (total widths) (read_fields src bits_in widths).1
          (omega arith) at,
    )
