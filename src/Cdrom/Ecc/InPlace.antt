-- ===== src/Cdrom/Ecc/InPlace.antt =====
-- cdrom_file::ecc_compute_bytes with its results inside the sector.
use Prim.Native.Nat.{bit_xor}
use libchdman_rs.Prelude.{
  ℕ, zero, suc, ◌+◌, ◌≡◌, ◌≢◌, ◌<◌, ◌≤◌, refl, ap, ◌∙◌, sym, Bool, true, ◌&&◌, List, [], ◌∷◌,
  if◌then◌else◌, ltb, ◌==◌, length, arith,
}
use libchdman_rs.Bytes.{Buffer, byte}
use libchdman_rs.Cdrom.Ecc.{
  ecc_source_byte, low, high, compute_loop, finish, compute_bytes, put, compute_step, compute_steps,
  compute_in_place,
}

pub byte-put : (s : Buffer) (i v : ℕ) → i < length s → byte (put s i v) i ≡ v
byte-put [] i v h = absurd (omega arith)
byte-put (x ∷ s) zero v h = refl
byte-put (x ∷ s) (suc i) v h = byte-put s i v (omega arith)

pub byte-put_other : (s : Buffer) (i v k : ℕ) → k ≢ i → byte (put s i v) k ≡ byte s k
byte-put_other [] zero v k h = refl
byte-put_other [] (suc i) v k h = refl
byte-put_other (x ∷ s) zero v zero h = absurd (h refl)
byte-put_other (x ∷ []) zero v (suc k) h = refl
byte-put_other (x ∷ y ∷ s) zero v (suc k) h = refl
byte-put_other (x ∷ s) (suc i) v zero h = refl
byte-put_other (x ∷ s) (suc i) v (suc k) h = byte-put_other s i v k (λ e. h (ap suc e))

pub length-put : (s : Buffer) (i v : ℕ) → length (put s i v) ≡ length s
length-put [] zero v = refl
length-put [] (suc i) v = refl
length-put (x ∷ []) zero v = refl
length-put (x ∷ y ∷ s) zero v = refl
length-put (x ∷ s) (suc i) v = omega (arith, length-put s i v)

-- Every byte that a row asks for is below the bound.
abbrev pub below : ℕ → List ℕ → Bool
below bound [] = true
below bound (offset ∷ row) = ltb (12 + offset) bound && below bound row

-- Two sectors that have the same bytes below a bound.
abbrev pub Agree : ℕ → Buffer → Buffer → Type 0
Agree bound s t = (k : ℕ) → k < bound → byte s k ≡ byte t k

source-Agree :
    (bound : ℕ) (s t : Buffer) (offset : ℕ)
    → 15 < bound
    → 12 + offset < bound
    → Agree bound s t
    → ecc_source_byte s offset ≡ ecc_source_byte t offset
unfolding ecc_source_byte
source-Agree bound s t offset mode inside same =
    ap (λ b. if b == 2 && ltb offset 4 then 0 else byte s (12 + offset)) (same 15 mode)
    ∙ ap (λ b. if byte t 15 == 2 && ltb offset 4 then 0 else b) (same (12 + offset) inside)

loop-Agree :
    (bound : ℕ) (s t : Buffer) (row : List ℕ) (v1 v2 : ℕ)
    → 15 < bound
    → below bound row ≡ true
    → Agree bound s t
    → compute_loop s row v1 v2 ≡ compute_loop t row v1 v2
unfolding compute_loop
loop-Agree bound s t [] v1 v2 mode inside same = refl
loop-Agree bound s t (offset ∷ row) v1 v2 mode inside same =
    loop-Agree bound s t row _ _ mode (ground (arith, inside)) same
    ∙ ap (λ b. compute_loop t row (low (bit_xor v1 b)) (bit_xor v2 b))
        (source-Agree bound s t offset mode (ground (arith, inside)) same)

pub compute_bytes-Agree :
    (bound : ℕ) (s t : Buffer) (row : List ℕ)
    → 15 < bound
    → below bound row ≡ true
    → Agree bound s t
    → compute_bytes s row ≡ compute_bytes t row
unfolding compute_bytes
compute_bytes-Agree bound s t row mode inside same =
    ap finish (loop-Agree bound s t row 0 0 mode inside same)

-- The sector `t` is `s` but for the bytes i and j, which are v1 and v2.
pub record Differs (i j : ℕ) (s t : Buffer) (v : ℕ × ℕ) : Type 0 where
  pub rest : (k : ℕ) → k ≢ i → k ≢ j → byte t k ≡ byte s k
  pub at_i : byte t i ≡ v.0
  pub at_j : byte t j ≡ v.1
  pub same_length : length t ≡ length s

module _ (bound i j : ℕ) (mode : 15 < bound) (behind_i : bound ≤ i) (behind_j : bound ≤ j)
    (apart : i ≢ j) where
  agree : (s t : Buffer) (v : ℕ × ℕ) → Differs i j s t v → Agree bound t s
  agree s t v d k inside = d.rest k (omega arith) (omega arith)

  put_i :
      (s t : Buffer) (v : ℕ × ℕ) (w : ℕ)
      → i < length s
      → Differs i j s t v
      → Differs i j s (put t i w) (w, v.1)
  put_i s t v w inside d = record {
    rest = λ k ni nj. byte-put_other t i w k ni ∙ d.rest k ni nj;
    at_i = byte-put t i w (omega (arith, d.same_length));
    at_j = byte-put_other t i w j (λ e. apart (sym e)) ∙ d.at_j;
    same_length = length-put t i w ∙ d.same_length;
  }

  put_j :
      (s t : Buffer) (v : ℕ × ℕ) (w : ℕ)
      → j < length s
      → Differs i j s t v
      → Differs i j s (put t j w) (v.0, w)
  put_j s t v w inside d = record {
    rest = λ k ni nj. byte-put_other t j w k nj ∙ d.rest k ni nj;
    at_i = byte-put_other t j w i apart ∙ d.at_i;
    at_j = byte-put t j w (omega (arith, d.same_length));
    same_length = length-put t j w ∙ d.same_length;
  }

  module _ (s : Buffer) (inside_i : i < length s) (inside_j : j < length s) where
    step-Differs :
        (t : Buffer) (v : ℕ × ℕ) (offset : ℕ)
        → 12 + offset < bound
        → Differs i j s t v
        → Differs i j s
            (compute_step i j t offset)
            (low (bit_xor v.0 (ecc_source_byte s offset)), bit_xor v.1 (ecc_source_byte s offset))
    unfolding compute_step
    step-Differs t v offset low_ d =
        let a : ℕ = ecc_source_byte s offset in
        let w1 : ℕ = bit_xor (byte t i) (ecc_source_byte t offset) in
        let t1 : Buffer = put t i w1 in
        let d1 = put_i s t v w1 inside_i d in
        let w2 : ℕ = bit_xor (byte t1 j) (ecc_source_byte t1 offset) in
        let t2 : Buffer = put t1 j w2 in
        let d2 = put_j s t1 (w1, v.1) w2 inside_j d1 in
        let d3 = put_i s t2 (w1, w2) (low (byte t2 i)) inside_i d2 in
        let e1 : w1 ≡ bit_xor v.0 a =
          ap (λ b. bit_xor b (ecc_source_byte t offset)) d.at_i
          ∙ ap (bit_xor v.0) (source-Agree bound t s offset mode low_ (agree s t v d)) in
        let e2 : w2 ≡ bit_xor v.1 a =
          ap (λ b. bit_xor b (ecc_source_byte t1 offset)) d1.at_j
          ∙ ap (bit_xor v.1) (source-Agree bound t1 s offset mode low_ (agree s t1 (w1, v.1) d1)) in
        let e3 : low (byte t2 i) ≡ low (bit_xor v.0 a) = ap low (d2.at_i ∙ e1) in
        record {
          rest = d3.rest;
          at_i = d3.at_i ∙ e3;
          at_j = d3.at_j ∙ e2;
          same_length = d3.same_length;
        }

    steps-Differs :
        (row : List ℕ) (t : Buffer) (v : ℕ × ℕ)
        → below bound row ≡ true
        → Differs i j s t v
        → Differs i j s (compute_steps i j t row) (compute_loop s row v.0 v.1)
    unfolding compute_steps compute_loop
    steps-Differs [] t v low_ d = d
    steps-Differs (offset ∷ row) t v low_ d =
        steps-Differs row (compute_step i j t offset) _ (ground (arith, low_))
          (step-Differs t v offset (ground (arith, low_)) d)

    -- Where a row reads only bytes below a bound above 15, and two different places from this bound
    -- on lie inside the sector, ecc_compute_bytes with these two bytes of the sector as its results
    -- puts there what it gives with results outside the sector, and changes no other byte.
    pub compute_in_place-Differs :
        (row : List ℕ)
        → below bound row ≡ true
        → Differs i j s (compute_in_place s row i j) (compute_bytes s row)
    unfolding compute_in_place compute_bytes
    compute_in_place-Differs row low_ =
        let itself : Differs i j s s (byte s i, byte s j) = record {
          rest = λ k ni nj. refl;
          at_i = refl;
          at_j = refl;
          same_length = refl;
        } in
        let d0 =
          put_i s (put s j 0) (byte s i, 0) 0 inside_i
            (put_j s s (byte s i, byte s j) 0 inside_j itself) in
        let t : Buffer = compute_steps i j (put (put s j 0) i 0) row in
        let v : ℕ × ℕ = compute_loop s row 0 0 in
        let d = steps-Differs row (put (put s j 0) i 0) (0, 0) low_ d0 in
        let w1 : ℕ = high (bit_xor (low (byte t i)) (byte t j)) in
        let d1 = put_i s t v w1 inside_i d in
        let t1 : Buffer = put t i w1 in
        let w2 : ℕ = bit_xor (byte t1 j) (byte t1 i) in
        let d2 = put_j s t1 (w1, v.1) w2 inside_j d1 in
        let e1 : w1 ≡ high (bit_xor (low v.0) v.1) =
          ap (λ b. high (bit_xor (low b) (byte t j))) d.at_i
          ∙ ap (λ b. high (bit_xor (low v.0) b)) d.at_j in
        let e2 : w2 ≡ bit_xor v.1 (high (bit_xor (low v.0) v.1)) =
          ap (λ b. bit_xor b (byte t1 i)) d1.at_j ∙ ap (bit_xor v.1) (d1.at_i ∙ e1) in
        record {
          rest = d2.rest;
          at_i = d2.at_i ∙ e1;
          at_j = d2.at_j ∙ e2;
          same_length = d2.same_length;
        }
