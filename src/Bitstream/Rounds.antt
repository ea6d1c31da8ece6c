-- ===== src/Bitstream/Rounds.antt =====
-- bitstream_out::write: its loop and the call as a whole.
use native.Mathlib.Nat.{mul_assoc, mod-lt, mul-div_left}
use mathlib.Core.Path.{subst}
use libchdman_rs.Prelude.{
  ℕ, zero, suc, ◌+◌, ◌-◌, ◌*◌, ◌/◌, ◌%◌, ◌^◌, ◌≡◌, ◌<◌, ◌≤◌, min, refl, sym, ap, ◌∙◌, ◌⊎◌, inl, inr,
  Bool, true, ◌&&◌, ltb, leb, ◌==◌, Bool-cases, if◌then◌else◌, length, arith,
}
use libchdman_rs.Bitstream.{
  BitsOut, drain, Pending, offload, offloaded, write_loop, last_bits, write,
}
use libchdman_rs.Bitstream.Filling.{powers, pow_pos, masked}
use libchdman_rs.Bitstream.Writing.{Holds, written, drain-Drained}
use libchdman_rs.Bitstream.Offload.{Pend, extended, joined, moved-Pend}

-- The stream s' is s with k bits more and holds c.
abbrev pub Wrote : BitsOut → ℕ → ℕ → BitsOut → Type 0
Wrote s c k s' = Holds s' c × (written s' ≡ written s + k) × (length s'.m_write ≡ length s.m_write)

abbrev Settled : Pending → Type 0
Settled q = (q.numbits ≡ 0) ⊎ (q.out.m_bits + q.numbits < 32)

-- The rest that fits into the accumulator.
last_bits-Wrote :
    (q : Pending) (c : ℕ) → Pend q c → Settled q → Wrote q.out c q.numbits (last_bits q)
last_bits-Wrote q c h ready = elim (Bool-cases (q.numbits == 0)) [
  | inl none ↦
      let zero_bits : q.numbits ≡ 0 = ground (arith, none) in
      let empty : h.u < 1 = subst (λ n. h.u < 2 ^ n) zero_bits h.below in
      let same : h.base ≡ c =
        sym (h.content ∙ ap (λ n. h.base * 2 ^ n + h.u) zero_bits ∙ omega (arith, empty)) in
      subst (λ t. Wrote q.out c q.numbits (if t then q.out else extended q.out top q.numbits))
        (sym none) (subst (Holds q.out) same h.holds, omega (arith, zero_bits), refl)
  | inr more ↦
      let fitting : q.out.m_bits + q.numbits < 32 = elim ready [
        | inl none ↦ absurd (ground (arith, more, none))
        | inr fitting ↦ fitting
      ] in
      let e : ℕ = 32 - (q.out.m_bits + q.numbits) in
      let place : e + q.out.m_bits ≡ 32 - q.numbits = omega (arith, fitting) in
      let aligned : top ≡ h.u * 2 ^ e =
        ap (λ z. z / 2 ^ q.out.m_bits) h.bits
        ∙ ap (λ z. h.u * z / 2 ^ q.out.m_bits) (sym (powers e q.out.m_bits (32 - q.numbits) place))
        ∙ ap (λ z. z / 2 ^ q.out.m_bits) (sym (mul_assoc h.u (2 ^ e) (2 ^ q.out.m_bits)))
        ∙ mul-div_left (h.u * 2 ^ e) (pow_pos q.out.m_bits) in
      subst (λ t. Wrote q.out c q.numbits (if t then q.out else extended q.out top q.numbits))
        (sym more)
        (
          subst (Holds (extended q.out top q.numbits)) (sym h.content) (
              joined q.out h.base h.u top q.numbits h.holds h.below (omega (arith, fitting))
                aligned),
          omega arith,
          refl,
        )
]
  where
    top : ℕ
    top = q.newbits / 2 ^ q.out.m_bits

-- The bits that are to go are kept by a round, and less than 8 are left or all fit.
abbrev Kept : Pending → ℕ → Pending → Type 0
Kept q c q' =
    Pend q' c
    × (written q'.out + q'.numbits ≡ written q.out + q.numbits)
    × (length q'.out.m_write ≡ length q.out.m_write)

abbrev Progress : Pending → Pending → Type 0
Progress q q' = (q'.out.m_bits + q'.numbits < 32) ⊎ ((q'.numbits < 8) × (24 < q.numbits))

offload-Kept : (q : Pending) (c : ℕ) → Pend q c → Kept q c (offload q) × Progress q (offload q)
unfolding offload
offload-Kept q c h =
    let ((holds, place, size), few) =
      drain-Drained 4 q.out h.base h.holds (omega (arith, h.room)) (omega (arith, h.holds.fits)) in
    let drained : Pending = record q { out = drain 8 4 q.out } in
    let pend : Pend drained c = record {
      base = h.base;
      holds = holds;
      u = h.u;
      narrow = h.narrow;
      below = h.below;
      bits = h.bits;
      content = h.content;
      room = omega (arith, h.room, place, size);
    } in
    elim (Bool-cases (leb 32 (drained.out.m_bits + drained.numbits))) [
      | inl over ↦
          let long : 32 ≤ drained.out.m_bits + drained.numbits = ground (arith, over) in
          let rem : ℕ = min (32 - drained.out.m_bits) drained.numbits in
          let whole : rem ≡ 32 - drained.out.m_bits = omega (arith, long) in
          subst
            (λ t.
              Kept q c (if t then offloaded drained else drained)
              × Progress q (if t then offloaded drained else drained))
            (sym over)
            (
              (
                moved-Pend drained c rem pend whole (omega (arith, long, whole)),
                omega (arith, long, whole, place, few),
                size,
              ),
              inr (omega (arith, whole, h.narrow, few), omega (arith, long, few)),
            )
      | inr fitting ↦
          subst
            (λ t.
              Kept q c (if t then offloaded drained else drained)
              × Progress q (if t then offloaded drained else drained))
            (sym fitting) ((pend, omega (arith, place), size), inl (ground (arith, fitting)))
    ]

-- What the loop on `fuel` needs.
Rounds : ℕ → Pending → Type 0
Rounds zero q = Settled q
Rounds (suc zero) q = Settled q ⊎ (q.numbits < 8)
Rounds (suc (suc fuel)) q = Unit

abbrev goes_on : Pending → Bool
goes_on q = leb 32 (q.out.m_bits + q.numbits) && ltb 0 q.numbits

next-Rounds :
    (fuel : ℕ) (q q' : Pending)
    → goes_on q ≡ true
    → Rounds (suc fuel) q
    → Progress q q'
    → Rounds fuel q'
unfolding Rounds
next-Rounds zero q q' more (inl (inl none)) progress = absurd (ground (arith, more, none))
next-Rounds zero q q' more (inl (inr fits)) progress = absurd (ground (arith, more, fits))
next-Rounds zero q q' more (inr few) (inl fits) = inr fits
next-Rounds zero q q' more (inr few) (inr (less, many)) = absurd (omega (arith, few, many))
next-Rounds (suc zero) q q' more ready (inl fits) = inl (inr fits)
next-Rounds (suc zero) q q' more ready (inr (less, many)) = inr less
next-Rounds (suc (suc fuel)) q q' more ready progress = tt

-- The loop ends with a rest that fits.
rounds :
    (fuel : ℕ) (q : Pending) (c : ℕ)
    → Pend q c
    → Rounds fuel q
    → Kept q c (write_loop fuel q) × Settled (write_loop fuel q)
unfolding write_loop Rounds
rounds zero q c h ready = ((h, refl, refl), ready)
rounds (suc fuel) q c h ready = elim (Bool-cases (goes_on q)) [
  | inl more ↦
      let ((pend, place, size), progress) = offload-Kept q c h in
      let ((pend', place', size'), settled) =
        rounds fuel (offload q) c pend (next-Rounds fuel q (offload q) more ready progress) in
      subst
        (λ t.
          Kept q c (if t then write_loop fuel (offload q) else q)
          × Settled (if t then write_loop fuel (offload q) else q))
        (sym more) ((pend', place' ∙ place, size' ∙ size), settled)
  | inr end ↦
      subst
        (λ t.
          Kept q c (if t then write_loop fuel (offload q) else q)
          × Settled (if t then write_loop fuel (offload q) else q))
        (sym end) ((h, refl, refl), ground (arith, end))
]

-- write puts the lowest n bits of x behind what the stream holds.
pub write-Wrote :
    (s : BitsOut) (c x n : ℕ)
    → Holds s c
    → n ≤ 32
    → written s + n ≤ 8 * length s.m_write
    → Wrote s (c * 2 ^ n + x % 2 ^ n) n (write s x n)
unfolding write Rounds
write-Wrote s c x n h narrow room =
    let q : Pending = record { out = s; newbits = x * 2 ^ (32 - n) % 2 ^ 32; numbits = n } in
    let kept : 32 - (32 - n) ≡ n = omega (arith, narrow) in
    let pend : Pend q (c * 2 ^ n + x % 2 ^ n) = record {
      base = c;
      holds = h;
      u = x % 2 ^ n;
      narrow = narrow;
      below = mod-lt x (pow_pos n);
      bits = masked 32 x (32 - n) (omega arith) ∙ ap (λ z. x % 2 ^ z * 2 ^ (32 - n)) kept;
      content = refl;
      room = room;
    } in
    let ((pend', place, size), settled) = rounds 2 q (c * 2 ^ n + x % 2 ^ n) pend tt in
    let (holds, place', size') =
      last_bits-Wrote (write_loop 2 q) (c * 2 ^ n + x % 2 ^ n) pend' settled in
    (holds, place' ∙ place, size' ∙ size)
