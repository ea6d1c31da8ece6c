-- ===== src/Bitstream/Window.antt =====
-- The bits of a buffer as a number, the highest first; behind the end of the buffer are zeros.
use native.Mathlib.Nat.{
  mul_assoc, pow-suc, mul_right_comm, add-mul-mod_self_left, mod-eq_of_lt, mod-lt, div-add-mod,
  div-div-eq-div-mul, one-le-pow,
}
use libchdman_rs.Prelude.{
  ℕ, zero, suc, ◌+◌, ◌-◌, ◌*◌, ◌/◌, ◌%◌, ◌^◌, ◌≡◌, ◌<◌, ◌≤◌, refl, sym, ap, ◌∙◌, arith,
}
use libchdman_rs.Bytes.{Buffer, byte}

unfoldable pub bit : Buffer → ℕ → ℕ
bit src p = byte src (p / 8) / 2 ^ (7 - p % 8) % 2

-- The n bits from bit p on.
unfoldable pub window : Buffer → ℕ → ℕ → ℕ
unfolding bit
window src p zero = 0
window src p (suc n) = window src p n * 2 + bit src (p + n)

pub pow_add : (m n : ℕ) → 2 ^ (m + n) ≡ 2 ^ m * 2 ^ n
pow_add m zero = let same : m + 0 ≡ m = omega arith in ap (λ x. 2 ^ x) same ∙ omega arith
pow_add m (suc n) =
    let next : m + suc n ≡ suc (m + n) = omega arith in
    ap (λ x. 2 ^ x) next
    ∙ pow-suc 2 (m + n)
    ∙ ap (λ x. x * 2) (pow_add m n)
    ∙ mul_assoc (2 ^ m) (2 ^ n) 2
    ∙ ap (λ x. 2 ^ m * x) (sym (pow-suc 2 n))

pub window_below : (src : Buffer) (p n : ℕ) → window src p n < 2 ^ n
unfolding window
window_below src p zero = omega arith
window_below src p (suc n) = omega (arith, window_below src p n, pow-suc 2 n)

pub window-split :
    (src : Buffer) (p m n : ℕ)
    → window src p (m + n) ≡ window src p m * 2 ^ n + window src (p + m) n
unfolding window
window-split src p m zero =
    let same : m + 0 ≡ m = omega arith in ap (window src p) same ∙ omega arith
window-split src p m (suc n) =
    let next : m + suc n ≡ suc (m + n) = omega arith in
    let doubled : window src p m * 2 ^ n * 2 ≡ window src p m * 2 ^ suc n =
      mul_assoc (window src p m) (2 ^ n) 2 ∙ ap (λ x. window src p m * x) (sym (pow-suc 2 n)) in
    let place : p + (m + n) ≡ p + m + n = omega arith in
    ap (window src p) next ∙ omega (arith, window-split src p m n, doubled, ap (bit src) place)

-- The bits of a number in 8 bits.
digits_step : (c m : ℕ) → 0 < m → c / 2 % m * 2 + c % 2 ≡ c % (m * 2)
digits_step c m pos =
    let low : ℕ = c / 2 % m * 2 + c % 2 in
    let small : low < m * 2 = omega (arith, mod-lt (c / 2) pos) in
    let whole : c ≡ low + m * 2 * (c / 2 / m) =
      omega (arith, div-add-mod (c / 2) m, mul_right_comm m 2 (c / 2 / m)) in
    sym (
      ap (λ x. x % (m * 2)) whole
      ∙ add-mul-mod_self_left low (m * 2) (c / 2 / m)
      ∙ mod-eq_of_lt small)

pub window-byte :
    (src : Buffer) (k o n : ℕ)
    → o + n ≤ 8
    → window src (8 * k + o) n ≡ byte src k / 2 ^ (8 - (o + n)) % 2 ^ n
unfolding window
window-byte src k o zero h = omega arith
window-byte src k o (suc n) h =
    let b : ℕ = byte src k in
    let e : 8 - (o + n) ≡ suc (8 - (o + suc n)) = omega (arith, h) in
    let deeper : b / 2 ^ (8 - (o + n)) ≡ b / 2 ^ (8 - (o + suc n)) / 2 =
      ap (λ x. b / 2 ^ x) e
      ∙ ap (λ x. b / x) (pow-suc 2 (8 - (o + suc n)))
      ∙ sym (div-div-eq-div-mul b (2 ^ (8 - (o + suc n))) 2) in
    let index : (8 * k + o + n) / 8 ≡ k = omega (arith, h) in
    let at : byte src ((8 * k + o + n) / 8) ≡ b = ap (byte src) index in
    let place : 7 - (8 * k + o + n) % 8 ≡ 8 - (o + suc n) = omega (arith, h) in
    let last : bit src (8 * k + o + n) ≡ b / 2 ^ (8 - (o + suc n)) % 2 =
      ap (λ x. x / 2 ^ (7 - (8 * k + o + n) % 8) % 2) at ∙ ap (λ x. b / 2 ^ x % 2) place in
    omega (
      arith,
      last,
      window-byte src k o n (omega (arith, h)),
      ap (λ x. x % 2 ^ n) deeper,
      digits_step (b / 2 ^ (8 - (o + suc n))) (2 ^ n) (one-le-pow n 2 (omega arith)),
      ap (λ x. b / 2 ^ (8 - (o + suc n)) % x) (pow-suc 2 n),
    )

-- Two buffers with the same bytes below byte k have the same bits there.
pub window-same :
    (a b : Buffer) (k p n : ℕ)
    → ((i : ℕ) → i < k → byte a i ≡ byte b i)
    → p + n ≤ 8 * k
    → window a p n ≡ window b p n
unfolding window
window-same a b k p zero same h = refl
window-same a b k p (suc n) same h =
    let last : bit a (p + n) ≡ bit b (p + n) =
      ap (λ x. x / 2 ^ (7 - (p + n) % 8) % 2) (same ((p + n) / 8) (omega (arith, h))) in
    omega (arith, last, window-same a b k p n same (omega (arith, h)))
