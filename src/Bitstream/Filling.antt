-- ===== src/Bitstream/Filling.antt =====
-- The loop of bitstream_in::peek keeps the bits of the data in the accumulator.
use native.Mathlib.Nat.{
  mul_assoc, add-mul, mul_comm, mod-lt, mod-eq_of_lt, div-add-mod, add-mul-mod_self_left,
  mul-add-div, one-le-pow, pow-le-pow_right, mul-lt-mul_of_pos_right, div-lt_iff_lt-mul, zero-mod,
  div-one,
}
use mathlib.Core.Path.{subst}
use libchdman_rs.Prelude.{
  ℕ, zero, suc, ◌+◌, ◌-◌, ◌*◌, ◌/◌, ◌%◌, ◌^◌, ◌≡◌, ◌<◌, ◌≤◌, refl, sym, ap, ◌∙◌, ◌⊎◌, inl, inr,
  false, ltb, Bool-cases, if◌then◌else◌, length, [], ◌∷◌, arith,
}
use libchdman_rs.Bytes.{Buffer, byte}
use libchdman_rs.Bitstream.{BitsIn, newbits_at, last_round, byte_round, fill_round, fill}
use Prim.Native.Nat.{bit_or}
use libchdman_rs.Bitstream.Or.{bit_or_disjoint}
use libchdman_rs.Bitstream.Window.{window, pow_add, window-split, window-byte}

-- The accumulator holds the m_bits bits of the data from bit p on, and m_doffset is far from its
-- wrap-around.
pub record At (src : Buffer) (p : ℕ) (s : BitsIn) : Type 0 where
  pub fits : s.m_bits ≤ 32
  pub small : s.m_dbitoffs < 8
  pub place : 8 * s.m_doffset + s.m_dbitoffs ≡ p + s.m_bits
  pub near : p + 40 ≤ 2 ^ 35
  pub held : s.m_buffer ≡ window src p s.m_bits * 2 ^ (32 - s.m_bits)

pub pow_pos : (n : ℕ) → 0 < 2 ^ n
pow_pos n = one-le-pow n 2 (omega arith)

pub powers : (a b c : ℕ) → a + b ≡ c → 2 ^ a * 2 ^ b ≡ 2 ^ c
powers a b c h = sym (pow_add a b) ∙ ap (λ x. 2 ^ x) h

pow_le : (a b : ℕ) → a ≤ b → 2 ^ a ≤ 2 ^ b
pow_le a b h = pow-le-pow_right (omega arith) h

pub masked : (w b o : ℕ) → o ≤ w → b * 2 ^ o % 2 ^ w ≡ b % 2 ^ (w - o) * 2 ^ o
masked w b o h =
    let q : ℕ = b / 2 ^ (w - o) in
    let r : ℕ = b % 2 ^ (w - o) in
    let full : 2 ^ (w - o) * 2 ^ o ≡ 2 ^ w = powers (w - o) o w (omega (arith, h)) in
    let whole : b ≡ q * 2 ^ (w - o) + r =
      omega (arith, div-add-mod b (2 ^ (w - o)), mul_comm q (2 ^ (w - o))) in
    let scaled : b * 2 ^ o ≡ r * 2 ^ o + 2 ^ w * q =
      ap (λ x. x * 2 ^ o) whole
      ∙ add-mul (q * 2 ^ (w - o)) r (2 ^ o)
      ∙ omega
          (arith, mul_assoc q (2 ^ (w - o)) (2 ^ o), ap (λ x. q * x) full, mul_comm q (2 ^ w)) in
    let below : r * 2 ^ o < 2 ^ w =
      subst (λ x. r * 2 ^ o < x) full
        (mul-lt-mul_of_pos_right (mod-lt b (pow_pos (w - o))) (pow_pos o)) in
    ap (λ x. x % 2 ^ w) scaled ∙ add-mul-mod_self_left (r * 2 ^ o) (2 ^ w) q ∙ mod-eq_of_lt below

top_of_byte : (b a c : ℕ) → a + c ≡ 8 → b % 2 ^ 8 / 2 ^ a ≡ b / 2 ^ a % 2 ^ c
top_of_byte b a c h =
    let full : 2 ^ a * 2 ^ c ≡ 2 ^ 8 = sym (pow_add a c) ∙ ap (λ x. 2 ^ x) h in
    let q : ℕ = b / 2 ^ 8 in
    let r : ℕ = b % 2 ^ 8 in
    let whole : b ≡ 2 ^ a * (2 ^ c * q) + r =
      omega (arith, div-add-mod b (2 ^ 8), mul_assoc (2 ^ a) (2 ^ c) q, ap (λ x. x * q) full) in
    let above : b / 2 ^ a ≡ r / 2 ^ a + 2 ^ c * q =
      ap (λ x. x / 2 ^ a) whole ∙ mul-add-div (pow_pos a) (2 ^ c * q) r ∙ omega arith in
    let below : r / 2 ^ a < 2 ^ c =
      (div-lt_iff_lt-mul (pow_pos a)).1
        (subst (λ x. r < x) (sym full ∙ mul_comm (2 ^ a) (2 ^ c)) (mod-lt b (pow_pos 8))) in
    sym
      (ap (λ x. x % 2 ^ c) above ∙ add-mul-mod_self_left (r / 2 ^ a) (2 ^ c) q ∙ mod-eq_of_lt below)

byte-past : (src : Buffer) (k : ℕ) → length src ≤ k → byte src k ≡ 0
byte-past [] k h = refl
byte-past (x ∷ xs) zero h = absurd (omega arith)
byte-past (x ∷ xs) (suc k) h = byte-past xs k (omega arith)

newbits :
    (src : Buffer) (s : BitsIn)
    → s.m_dbitoffs < 8
    → newbits_at src s ≡ byte src s.m_doffset % 2 ^ (8 - s.m_dbitoffs) * 2 ^ s.m_dbitoffs
unfolding newbits_at
newbits src s h = elim (Bool-cases (ltb s.m_doffset (length src))) [
  | inl inside ↦ rw inside (masked 8 (byte src s.m_doffset) s.m_dbitoffs (omega (arith, h)))
  | inr past ↦ rw past (
      sym (
        ap (λ x. x % 2 ^ (8 - s.m_dbitoffs) * 2 ^ s.m_dbitoffs)
          (byte-past src s.m_doffset (ground (arith, past)))
        ∙ ap (λ x. x * 2 ^ s.m_dbitoffs) (zero-mod (2 ^ (8 - s.m_dbitoffs)))
        ∙ omega arith))
]

newbits_below : (src : Buffer) (s : BitsIn) → s.m_dbitoffs < 8 → newbits_at src s < 2 ^ 8
newbits_below src s h =
    subst (λ x. x < 2 ^ 8) (sym (newbits src s h))
      (subst (λ x. byte src s.m_doffset % 2 ^ (8 - s.m_dbitoffs) * 2 ^ s.m_dbitoffs < x)
        (powers (8 - s.m_dbitoffs) s.m_dbitoffs 8 (omega (arith, h)))
        (mul-lt-mul_of_pos_right (mod-lt (byte src s.m_doffset) (pow_pos (8 - s.m_dbitoffs)))
          (pow_pos s.m_dbitoffs)))

-- A number under the accumulator's bits.
placed :
    (src : Buffer) (p : ℕ) (s : BitsIn) (added n r : ℕ)
    → At src p s
    → s.m_bits + n ≤ 32
    → window src (p + s.m_bits) n ≡ r
    → added ≡ r * 2 ^ (32 - (s.m_bits + n))
    → added < 2 ^ (32 - s.m_bits)
    → bit_or s.m_buffer added ≡ window src p (s.m_bits + n) * 2 ^ (32 - (s.m_bits + n))
placed src p s added n r at room taken value below =
    let bits : ℕ = s.m_bits in
    let w : ℕ = window src p bits in
    let e : ℕ = 32 - (bits + n) in
    let wider : window src p (bits + n) * 2 ^ e ≡ w * 2 ^ (32 - bits) + added =
      ap (λ x. x * 2 ^ e) (window-split src p bits n)
      ∙ add-mul (w * 2 ^ n) (window src (p + bits) n) (2 ^ e)
      ∙ omega (
        arith,
        mul_assoc w (2 ^ n) (2 ^ e),
        ap (λ x. w * x) (powers n e (32 - bits) (omega (arith, room))),
        ap (λ x. x * 2 ^ e) taken,
        value,
      ) in
    ap (λ x. bit_or x added) at.held ∙ bit_or_disjoint (32 - bits) w added below ∙ sym wider

-- A round that takes the rest of a byte.
byte_round-At :
    (src : Buffer) (p : ℕ) (s : BitsIn) → At src p s → s.m_bits ≤ 24 → At src p (byte_round src s)
unfolding byte_round
byte_round-At src p s at room =
    let o : ℕ = s.m_dbitoffs in
    let bits : ℕ = s.m_bits in
    let b : ℕ = byte src s.m_doffset in
    let r : ℕ = b % 2 ^ (8 - o) in
    let added : ℕ = newbits_at src s * 2 ^ (24 - bits) in
    let below : added < 2 ^ (32 - bits) =
      subst (λ x. added < x) (powers 8 (24 - bits) (32 - bits) (omega (arith, room)))
        (mul-lt-mul_of_pos_right (newbits_below src s at.small) (pow_pos (24 - bits))) in
    let kept : added % 2 ^ 32 ≡ added =
      mod-eq_of_lt (omega (arith, below, pow_le (32 - bits) 32 (omega arith))) in
    let whole : 8 - (o + (8 - o)) ≡ 0 = omega (arith, at.small) in
    let taken : window src (p + bits) (8 - o) ≡ r =
      ap (λ x. window src x (8 - o)) (sym at.place)
      ∙ window-byte src s.m_doffset o (8 - o) (omega (arith, at.small))
      ∙ ap (λ x. b / 2 ^ x % 2 ^ (8 - o)) whole
      ∙ ap (λ x. x % 2 ^ (8 - o)) (div-one b) in
    let value : added ≡ r * 2 ^ (32 - (bits + (8 - o))) =
      ap (λ x. x * 2 ^ (24 - bits)) (newbits src s at.small)
      ∙ mul_assoc r (2 ^ o) (2 ^ (24 - bits))
      ∙ ap (λ x. r * x)
          (powers o (24 - bits) (32 - (bits + (8 - o))) (omega (arith, room, at.small))) in
    record {
      fits = omega (arith, room);
      small = omega arith;
      place = omega (arith, at.place, at.small, at.near, room);
      near = at.near;
      held =
          ap (bit_or s.m_buffer) kept
          ∙ placed src p s added (8 - o) r at (omega (arith, room)) taken value below;
    }

-- The round that fills the accumulator.
last_round-At :
    (src : Buffer) (p : ℕ) (s : BitsIn)
    → At src p s
    → 24 < s.m_bits
    → s.m_bits < 32
    → s.m_dbitoffs ≡ 0
    → At src p (last_round src s)
unfolding last_round
last_round-At src p s at long short aligned =
    let bits : ℕ = s.m_bits in
    let off : ℕ = 32 - bits in
    let b : ℕ = byte src s.m_doffset in
    let r : ℕ = b / 2 ^ (8 - off) % 2 ^ off in
    let added : ℕ = newbits_at src s / 2 ^ (8 - off) in
    let full : newbits_at src s ≡ b % 2 ^ 8 =
      newbits src s at.small ∙ ap (λ o. b % 2 ^ (8 - o) * 2 ^ o) aligned ∙ omega arith in
    let cut : added ≡ r =
      ap (λ x. x / 2 ^ (8 - off)) full ∙ top_of_byte b (8 - off) off (omega (arith, long)) in
    let from_zero : 0 + off ≡ off = omega arith in
    let taken : window src (p + bits) off ≡ r =
      ap (λ x. window src x off) (sym at.place)
      ∙ ap (λ o. window src (8 * s.m_doffset + o) off) aligned
      ∙ window-byte src s.m_doffset 0 off (omega (arith, long))
      ∙ ap (λ x. b / 2 ^ (8 - x) % 2 ^ off) from_zero in
    let none_left : 32 - (bits + off) ≡ 0 = omega (arith, short) in
    let value : added ≡ r * 2 ^ (32 - (bits + off)) =
      cut ∙ sym (ap (λ x. r * 2 ^ x) none_left ∙ omega arith) in
    record {
      fits = omega (arith, short);
      small = omega (arith, long);
      place = omega (arith, at.place, aligned, short);
      near = at.near;
      held =
          placed src p s added off r at (omega (arith, short)) taken value
            (subst (λ x. x < 2 ^ off) (sym cut) (mod-lt (b / 2 ^ (8 - off)) (pow_pos off)));
    }

fill_done : (fuel : ℕ) (src : Buffer) (s : BitsIn) → 32 ≤ s.m_bits → fill fuel src s ≡ s
unfolding fill
fill_done zero src s full = refl
fill_done (suc fuel) src s full =
    let test : ltb s.m_bits 32 ≡ false = ground (arith, full) in
    ap (λ t. if t then fill fuel src (fill_round src s) else s) test

-- The loop fills the accumulator.
pub fill-At :
    (fuel : ℕ) (src : Buffer) (p : ℕ) (s : BitsIn)
    → At src p s
    → (s.m_bits ≤ 24) ⊎ (s.m_dbitoffs ≡ 0)
    → 32 + s.m_dbitoffs ≤ s.m_bits + 8 * fuel
    → At src p (fill fuel src s) × ((fill fuel src s).m_bits ≡ 32)
unfolding fill fill_round
fill-At zero src p s at ready enough = (at, omega (arith, at.fits, enough))
fill-At (suc fuel) src p s at ready enough = elim (Bool-cases (ltb s.m_bits 32)) [
  | inr full ↦
      subst (λ q. At src p q × (q.m_bits ≡ 32))
        (sym (fill_done (suc fuel) src s (ground (arith, full))))
        (at, ground (arith, full, at.fits))
  | inl short ↦
      let step : fill (suc fuel) src s ≡ fill fuel src (fill_round src s) =
        ap (λ t. if t then fill fuel src (fill_round src s) else s) short in
      elim (Bool-cases (ltb 32 (s.m_bits + 8))) [
        | inl last ↦
            let end : fill (suc fuel) src s ≡ last_round src s =
              step
              ∙ ap (fill fuel src) (ap (λ t. if t then last_round src s else byte_round src s) last)
              ∙ fill_done fuel src (last_round src s) (omega arith) in
            subst (λ q. At src p q × (q.m_bits ≡ 32)) (sym end)
              (
                last_round-At src p s at (ground (arith, last)) (ground (arith, short))
                    (elim ready [
                      | inl room ↦ absurd (ground (arith, last, room))
                      | inr aligned ↦ aligned
                    ]),
                ground (arith, short),
              )
        | inr whole ↦
            let next : fill (suc fuel) src s ≡ fill fuel src (byte_round src s) =
              step
              ∙ ap (fill fuel src)
                  (ap (λ t. if t then last_round src s else byte_round src s) whole) in
            subst (λ q. At src p q × (q.m_bits ≡ 32)) (sym next)
              (fill-At fuel src p (byte_round src s)
                (byte_round-At src p s at (ground (arith, whole))) (inr refl)
                (omega (arith, enough, at.small)))
      ]
]
