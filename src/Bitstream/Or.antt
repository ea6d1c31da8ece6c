-- ===== src/Bitstream/Or.antt =====
-- The bitwise or of numbers without common bits is their sum.
use Prim.Native.Nat.{bit_or, bit_or-bitwise, digits}
use native.Mathlib.Nat.{mul_assoc, pow-suc}
use libchdman_rs.Prelude.{
  ℕ, zero, suc, ◌+◌, ◌*◌, ◌/◌, ◌%◌, ◌^◌, ◌≡◌, ◌<◌, ◌≤◌, refl, sym, ap, ◌∙◌, max, arith,
}

-- The fuel of `digits` does not matter once there is enough.
enough : (m n a b : ℕ) → a ≤ m → a ≤ n → digits (λ y. y) max m a b ≡ digits (λ y. y) max n a b
enough zero n (suc a) b hm hn = absurd (omega arith)
enough m zero (suc a) b hm hn = absurd (omega arith)
enough zero zero zero b hm hn = refl
enough zero (suc n) zero b hm hn = refl
enough (suc m) zero zero b hm hn = refl
enough (suc m) (suc n) zero b hm hn = refl
enough (suc m) (suc n) (suc a) b hm hn =
    rw (enough m n (suc a / 2) (b / 2) (omega arith) (omega arith))

last_bit : (a b : ℕ) → bit_or a b ≡ bit_or (a / 2) (b / 2) * 2 + max (a % 2) (b % 2)
last_bit zero b = simp bit_or-bitwise (omega arith)
last_bit (suc a) b =
    simp bit_or-bitwise
      (omega (arith, enough a (suc a / 2) (suc a / 2) (b / 2) (omega arith) (omega arith)))

left_zero : (b : ℕ) → bit_or 0 b ≡ b
left_zero b = simp bit_or-bitwise refl

right_zero : (fuel a : ℕ) → a ≤ fuel → bit_or a 0 ≡ a
right_zero fuel zero h = left_zero 0
right_zero zero (suc a) h = absurd (omega arith)
right_zero (suc fuel) (suc a) h =
    omega (arith, last_bit (suc a) 0, right_zero fuel (suc a / 2) (omega arith))

pub bit_or_disjoint : (k q r : ℕ) → r < 2 ^ k → bit_or (q * 2 ^ k) r ≡ q * 2 ^ k + r
bit_or_disjoint zero q zero small = ground (arith, right_zero (q * 1) (q * 1) (omega arith))
bit_or_disjoint zero q (suc r) small = absurd (omega (arith, small))
bit_or_disjoint (suc k) q r small =
    let doubled : q * 2 ^ suc k ≡ q * 2 ^ k * 2 =
      ap (λ x. q * x) (pow-suc 2 k) ∙ sym (mul_assoc q (2 ^ k) 2) in
    let half : q * 2 ^ suc k / 2 ≡ q * 2 ^ k = omega (arith, doubled) in
    omega (
      arith,
      doubled,
      last_bit (q * 2 ^ suc k) r,
      ap (λ x. bit_or x (r / 2)) half,
      bit_or_disjoint k q (r / 2) (omega (arith, small, pow-suc 2 k)),
    )
