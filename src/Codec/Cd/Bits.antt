-- ===== src/Codec/Cd/Bits.antt =====
-- chd_cd_compressor: the bits of the frames in the header.
use Prim.Native.Nat.{bit_and, bit_or}
use libchdman_rs.Prelude.{
  ℕ, zero, suc, ◌/◌, ◌%◌, ◌^◌, ◌≡◌, ◌≢◌, ◌<◌, refl, ap, ◌∙◌, sym, Bool, true, false, not, ◌&&◌,
  ◌||◌, inl, inr, ltb, ◌==◌, ==_iff, Bool-cases, length, arith,
}
use libchdman_rs.Bytes.{Buffer, byte}
use libchdman_rs.Cdrom.Ecc.{put}
use libchdman_rs.Cdrom.Ecc.InPlace.{byte-put, byte-put_other, length-put}
use libchdman_rs.Codec.Cd.{set_bit, test_bit}

-- A test of each number below a bound, by evaluation.
abbrev every : ℕ → (ℕ → Bool) → Bool
every zero p = true
every (suc n) p = p n && every n p

every-lt : (n : ℕ) (p : ℕ → Bool) (k : ℕ) → every n p ≡ true → k < n → p k ≡ true
every-lt zero p k h lt = absurd (omega (arith, lt))
every-lt (suc n) p k h lt = ground (arith, every-lt n p k)

-- The laws of a bit in a byte.
abbrev own_bit : ℕ → ℕ → Bool
own_bit b k = not (bit_and (bit_or b (2 ^ k)) (2 ^ k) == 0) && ltb (bit_or b (2 ^ k)) 256

abbrev other_bit : ℕ → ℕ → ℕ → Bool
other_bit b k j = (j == k) || (bit_and (bit_or b (2 ^ k)) (2 ^ j) == bit_and b (2 ^ j))

own_table : every 256 (λ b. every 8 (λ k. own_bit b k)) ≡ true
own_table = refl

other_table : every 256 (λ b. every 8 (λ k. every 8 (λ j. other_bit b k j))) ≡ true
other_table = refl

abbrev pub AllBytes : Buffer → Type 0
AllBytes s = (k : ℕ) → byte s k < 256

own : (b k : ℕ) → b < 256 → k < 8 → own_bit b k ≡ true
own b k hb hk = every-lt 8 (own_bit b) k (every-lt 256 (λ c. every 8 (own_bit c)) b own_table hb) hk

other : (b k j : ℕ) → b < 256 → k < 8 → j < 8 → other_bit b k j ≡ true
other b k j hb hk hj =
    every-lt 8 (other_bit b k) j
      (every-lt 8 (λ i. every 8 (other_bit b i)) k
        (every-lt 256 (λ c. every 8 (λ i. every 8 (other_bit c i))) b other_table hb) hk)
      hj

and_both : (a b : Bool) → a && b ≡ true → (a ≡ true) × (b ≡ true)
and_both a b h = ground (arith, h)

own_set : (b k : ℕ) → b < 256 → k < 8 → not (bit_and (bit_or b (2 ^ k)) (2 ^ k) == 0) ≡ true
own_set b k hb hk = (and_both _ _ (own b k hb hk)).0

own_byte : (b k : ℕ) → b < 256 → k < 8 → bit_or b (2 ^ k) < 256
own_byte b k hb hk =
    let h : ltb (bit_or b (2 ^ k)) 256 ≡ true =
      (and_both (not (bit_and (bit_or b (2 ^ k)) (2 ^ k) == 0)) _ (own b k hb hk)).1 in
    ground (arith, h)

other_same :
    (b k j : ℕ)
    → b < 256
    → k < 8
    → j < 8
    → j ≢ k
    → bit_and (bit_or b (2 ^ k)) (2 ^ j) ≡ bit_and b (2 ^ j)
other_same b k j hb hk hj apart = let h = other b k j hb hk hj in ground (arith, h, apart)

pub set_bit-AllBytes : (s : Buffer) (n : ℕ) → n / 8 < length s → AllBytes s → AllBytes (set_bit s n)
unfolding set_bit
set_bit-AllBytes s n inside bytes k = elim (Bool-cases (k == n / 8)) [
  | inl same ↦
      let e : k ≡ n / 8 = (==_iff _ _).0 same in
      let here : byte (set_bit s n) (n / 8) ≡ bit_or (byte s (n / 8)) (2 ^ (n % 8)) =
        byte-put s (n / 8) _ inside in
      omega (
        arith,
        ap (byte (set_bit s n)) e,
        here,
        own_byte (byte s (n / 8)) (n % 8) (bytes (n / 8)) (omega arith),
      )
  | inr apart ↦ omega (
    arith,
    byte-put_other s (n / 8) (bit_or (byte s (n / 8)) (2 ^ (n % 8))) k (ground (arith, apart)),
    bytes k,
  )
]

pub length-set_bit : (s : Buffer) (n : ℕ) → length (set_bit s n) ≡ length s
unfolding set_bit
length-set_bit s n = length-put s (n / 8) _

pub test_bit-set_bit :
    (s : Buffer) (n : ℕ) → n / 8 < length s → AllBytes s → test_bit (set_bit s n) n ≡ true
unfolding test_bit set_bit
test_bit-set_bit s n inside bytes =
    ap (λ b. not (bit_and b (2 ^ (n % 8)) == 0))
      (byte-put s (n / 8) (bit_or (byte s (n / 8)) (2 ^ (n % 8))) inside)
    ∙ own_set (byte s (n / 8)) (n % 8) (bytes (n / 8)) (omega arith)

pub test_bit-set_bit_other :
    (s : Buffer) (n m : ℕ)
    → n / 8 < length s
    → AllBytes s
    → m ≢ n
    → test_bit (set_bit s n) m ≡ test_bit s m
unfolding test_bit set_bit
test_bit-set_bit_other s n m inside bytes apart =
    let new : ℕ = bit_or (byte s (n / 8)) (2 ^ (n % 8)) in
    elim (Bool-cases (m / 8 == n / 8)) [
      | inr elsewhere ↦
          ap (λ b. not (bit_and b (2 ^ (m % 8)) == 0))
            (byte-put_other s (n / 8) new (m / 8) (ground (arith, elsewhere)))
      | inl same ↦
          let e : m / 8 ≡ n / 8 = (==_iff _ _).0 same in
          ap (λ b. not (bit_and b (2 ^ (m % 8)) == 0))
            (ap (byte (put s (n / 8) new)) e ∙ byte-put s (n / 8) new inside)
          ∙ ap (λ c. not (c == 0))
              (other_same (byte s (n / 8)) (n % 8) (m % 8) (bytes (n / 8)) (omega arith)
                (omega arith) (λ f. apart (omega (arith, e, f))))
          ∙ ap (λ k. not (bit_and (byte s k) (2 ^ (m % 8)) == 0)) (sym e)
    ]

-- Two headers with the same bytes have the same bits.
pub test_bit-same :
    (s t : Buffer) (m : ℕ) → byte s (m / 8) ≡ byte t (m / 8) → test_bit s m ≡ test_bit t m
unfolding test_bit
test_bit-same s t m same = ap (λ b. not (bit_and b (2 ^ (m % 8)) == 0)) same

zero_table : every 8 (λ k. bit_and 0 (2 ^ k) == 0) ≡ true
zero_table = refl

-- A byte that is 0 has no bit.
pub test_bit_zero : (s : Buffer) (m : ℕ) → byte s (m / 8) ≡ 0 → test_bit s m ≡ false
unfolding test_bit
test_bit_zero s m blank =
    let none_ = every-lt 8 (λ k. bit_and 0 (2 ^ k) == 0) (m % 8) zero_table (omega arith) in
    ap (λ b. not (bit_and b (2 ^ (m % 8)) == 0)) blank ∙ ap not none_
