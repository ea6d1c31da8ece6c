-- ===== src/Chd/V5Map/Types.antt =====
-- chd_file::compress_v5_map and decompress_v5_map: the run-length code of the types.
use libchdman_rs.Prelude.{
  ℕ, zero, suc, ◌+◌, ◌-◌, ◌*◌, ◌/◌, ◌%◌, ◌<◌, ◌≤◌, ◌≡◌, ◌≢◌, refl, ap, ◌∙◌, false, List, [], ◌∷◌,
  ◌++◌, ◌==◌, Bool-cases, length, replicate, min, ==_iff, inl, inr, arith,
}
use native.Mathlib.Decide.{dec_lt, dec_le}
use libchdman_rs.Chd.V5Map.{flush_loop, flush_repeats, rle, Reader, decode_types}

abbrev pub All {ℓ κ} : {A : Type ℓ} → (A → Type κ) → List A → Type κ
All P [] = Unit
All P (x ∷ xs) = P x × All P xs

-- A type that is not one of the two run-length marks.
abbrev pub IsType : ℕ → Type 0
IsType c = (c ≢ 7) × (c ≢ 8)

replicate_snoc :
    (n k x : ℕ) (xs : List ℕ) → k ≡ n + 1 → replicate k x ++ xs ≡ replicate n x ++ (x ∷ xs)
replicate_snoc n zero x xs h = absurd (omega arith)
replicate_snoc zero (suc k) x xs h = let e : k ≡ 0 = omega arith in rw e
replicate_snoc (suc n) (suc k) x xs h = ap (λ l. x ∷ l) (replicate_snoc n k x xs (omega arith))

-- The rounds of the flush, by the number of repeats.
module _ (fuel count c : ℕ) where
  flush_few : suc count < 3 → flush_loop (suc fuel) (suc count) c ≡ c ∷ flush_loop fuel count c
  unfolding flush_loop
  flush_few h = let e : suc count - 1 ≡ count = omega arith in rw e (ground arith)

  flush_small :
      ¬ (suc count < 3)
      → suc count ≤ 18
      → flush_loop (suc fuel) (suc count) c ≡ 7 ∷ (suc count - 3) ∷ []
  unfolding flush_loop
  flush_small many small = ground arith

  -- How many repeats a long mark takes.
  abbrev long : ℕ
  long = min (suc count) 274

  flush_large :
      ¬ (suc count ≤ 18)
      → flush_loop (suc fuel) (suc count) c
        ≡ 8 ∷ (long - 19) / 16 ∷ (long - 19) % 16 ∷ flush_loop fuel (suc count - long) c
  unfolding flush_loop
  flush_large large =
      let e : min (suc count) 274 - 3 - 16 ≡ min (suc count) 274 - 19 = omega arith in
      rw e (ground arith)

module _ {B : Type 0} (reader : Reader B) where
  open reader use {decode_one}

  -- From `b` the symbols `ss` are read, and `b'` is left.
  abbrev pub Yields : B → List ℕ → B → Type 0
  Yields b [] b' = b ≡ b'
  Yields b (s ∷ ss) b' = ((decode_one b).0 ≡ s) × Yields (decode_one b).1 ss b'

  pub Yields-append :
      (b : B) (xs ys : List ℕ) (b' : B)
      → Yields b (xs ++ ys) b'
      → (m : B) × Yields b xs m × Yields m ys b'
  Yields-append b [] ys b' h = (b, refl, h)
  Yields-append b (x ∷ xs) ys b' h =
      let (m, front, back) = Yields-append (decode_one b).1 xs ys b' h.1 in (m, (h.0, front), back)

  abbrev push : List ℕ → List ℕ × B → List ℕ × B
  push xs p = (xs ++ p.0, p.1)

  push_repeats :
      (k r d c : ℕ) (p : List ℕ × B)
      → k ≡ r + d
      → push (replicate r c) (push (replicate d c) p) ≡ push (replicate k c) p
  push_repeats k zero d c p h = let e : d ≡ k = omega arith in rw e
  push_repeats zero (suc r) d c p h = absurd (omega arith)
  push_repeats (suc k) (suc r) d c p h = ap (push (c ∷ [])) (push_repeats k r d c p (omega arith))

  decode_plain :
      (n : ℕ) (b : B) (last v : ℕ)
      → (decode_one b).0 ≡ v
      → IsType v
      → decode_types reader (suc n) b last 0
        ≡ push (v ∷ []) (decode_types reader n (decode_one b).1 v 0)
  unfolding decode_types
  decode_plain n b last v e t =
      let not7 : (v == 7) ≡ false = ground (arith, t.0) in
      let not8 : (v == 8) ≡ false = ground (arith, t.1) in rw (e, not7, not8)

  decode_small :
      (n : ℕ) (b : B) (last x : ℕ)
      → (decode_one b).0 ≡ 7
      → (decode_one (decode_one b).1).0 ≡ x
      → decode_types reader (suc n) b last 0
        ≡ push (last ∷ []) (decode_types reader n (decode_one (decode_one b).1).1 last (2 + x))
  unfolding decode_types
  decode_small n b last x e e' = rw (e, e')

  decode_large :
      (n : ℕ) (b : B) (last x y : ℕ)
      → (decode_one b).0 ≡ 8
      → (decode_one (decode_one b).1).0 ≡ x
      → (decode_one (decode_one (decode_one b).1).1).0 ≡ y
      → decode_types reader (suc n) b last 0
        ≡ push (last ∷ []) (
            decode_types reader n
              (decode_one (decode_one (decode_one b).1).1).1
              last
              (2 + 16 + x * 16 + y))
  unfolding decode_types
  decode_large n b last x y e e' e'' = rw (e, e', e'')

  -- Repeats that are already counted are given without a read.
  decode_repeats :
      (k r n : ℕ) (b : B) (c : ℕ)
      → k ≡ r + n
      → decode_types reader k b c r ≡ push (replicate r c) (decode_types reader n b c 0)
  unfolding decode_types
  decode_repeats k zero n b c h = let e : n ≡ k = omega arith in rw e
  decode_repeats zero (suc r) n b c h = absurd (omega arith)
  decode_repeats (suc k) (suc r) n b c h =
      ap (push (c ∷ [])) (decode_repeats k r n b c (omega arith))

  -- A run that was flushed is read back, and the types behind it follow.
  decode_flush :
      (fuel count n k : ℕ) (b m : B) (c : ℕ)
      → count ≤ fuel
      → k ≡ count + n
      → IsType c
      → Yields b (flush_loop fuel count c) m
      → decode_types reader k b c 0 ≡ push (replicate count c) (decode_types reader n m c 0)
  unfolding flush_loop
  decode_flush zero count n k b m c le h t y =
      let none : count ≡ 0 = omega arith in let same : k ≡ n = omega arith in rw (none, same, y)
  decode_flush (suc fuel) zero n k b m c le h t y = let same : k ≡ n = omega arith in rw (same, y)
  decode_flush (suc fuel) (suc count) n zero b m c le h t y = absurd (omega arith)
  decode_flush (suc fuel) (suc count) n (suc k) b m c le h t y = elim (dec_lt (suc count) 3) [
    | yes few ↦
        let read = rw (flush_few fuel count c few) at y in
        decode_plain k b c c read.0 t
        ∙ ap (push (c ∷ []))
            (decode_flush fuel count n k (decode_one b).1 m c (omega arith) (omega arith) t read.1)
    | no many ↦ elim (dec_le (suc count) 18) [
      | yes small ↦
          let read = rw (flush_small fuel count c many small) at y in
          let rep : 2 + (suc count - 3) ≡ count = omega arith in
          decode_small k b c (suc count - 3) read.0 read.1.0
          ∙ ap (push (c ∷ [])) (rw (rep, read.1.1) (decode_repeats k count n m c (omega arith)))
      | no many' ↦
          let read = rw (flush_large fuel count c many') at y in
          let l : ℕ = min (suc count) 274 in
          let rep : 2 + 16 + (l - 19) / 16 * 16 + (l - 19) % 16 ≡ l - 1 = omega arith in
          let rest : ℕ = suc count - l + n in
          decode_large k b c ((l - 19) / 16) ((l - 19) % 16) read.0 read.1.0 read.1.1.0
          ∙ ap (push (c ∷ [])) (
              rw rep (decode_repeats k (l - 1) rest _ c (omega arith))
              ∙ ap (push (replicate (l - 1) c))
                  (decode_flush fuel (suc count - l) n rest _ m c (omega arith) refl t read.1.1.1)
              ∙ push_repeats count (l - 1) (suc count - l) c _ (omega arith))
    ]
  ]

  -- A type behind a run of another type.
  decode_changed :
      (cs : List ℕ) (last count k c : ℕ) (b b' : B)
      → k ≡ count + suc (length cs)
      → IsType last
      → IsType c
      → Yields b (flush_repeats count last ++ (c ∷ rle cs c 0)) b'
      → ((m : B) → Yields m (rle cs c 0) b' → decode_types reader (length cs) m c 0 ≡ (cs, b'))
      → decode_types reader k b last 0 ≡ push (replicate count last) (c ∷ cs, b')
  unfolding flush_repeats
  decode_changed cs last count k c b b' e t tc y rest =
      let (m, front, back) = Yields-append b (flush_loop count count last) (c ∷ rle cs c 0) b' y in
      decode_flush count count (suc (length cs)) k b m last (omega arith) e t front
      ∙ ap (push (replicate count last))
          (decode_plain (length cs) m last c back.0 tc ∙ ap (push (c ∷ [])) (rest _ back.1))

  -- A run that the end of the map closes.
  decode_ended :
      (last count k : ℕ) (b b' : B)
      → k ≡ count + 1
      → IsType last
      → Yields b (flush_repeats (count + 1) last ++ []) b'
      → decode_types reader k b last 0 ≡ push (replicate count last) (last ∷ [], b')
  unfolding flush_repeats decode_types
  decode_ended last count k b b' e t y =
      let (m, front, back) = Yields-append b (flush_loop (count + 1) (count + 1) last) [] b' y in
      decode_flush (count + 1) (count + 1) 0 k b m last (omega arith) (omega arith) t front
      ∙ rw (back, replicate_snoc count (count + 1) last [] (omega arith))

  -- The types that are still to come: `count` repeats of `last` that are not yet flushed, then `cs`.
  decode_rle :
      (cs : List ℕ) (last count k : ℕ) (b b' : B)
      → k ≡ count + length cs
      → IsType last
      → All IsType cs
      → (cs ≡ [] → count ≡ 0)
      → Yields b (rle cs last count) b'
      → decode_types reader k b last 0 ≡ push (replicate count last) (cs, b')
  unfolding rle decode_types
  decode_rle [] last count k b b' e t ts z y =
      let none : count ≡ 0 = z refl in let done : k ≡ 0 = omega arith in rw (none, done, y)
  decode_rle (c ∷ []) last count k b b' e t ts z y = elim (Bool-cases (c == last)) [
    | inl same ↦
        let eq : c ≡ last = (==_iff c last).0 same in
        rw eq (decode_ended last count k b b' e t (rw (same) at y))
    | inr other ↦
        decode_changed [] last count k c b b' e t ts.0 (rw other at y)
          (λ m h. decode_rle [] c 0 0 m b' (omega arith) ts.0 ts.1 (λ _. refl) h)
  ]
  decode_rle (c ∷ d ∷ cs) last count k b b' e t ts z y = elim (Bool-cases (c == last)) [
    | inl same ↦
        let eq : c ≡ last = (==_iff c last).0 same in
        decode_rle (d ∷ cs) last (count + 1) k b b' (omega arith) t ts.1 (λ h. absurd (cc h))
          (rw same at y)
        ∙ rw (eq, replicate_snoc count (count + 1) last (d ∷ cs) (omega arith))
    | inr other ↦ decode_changed (d ∷ cs) last count k c b b' e t ts.0 (rw other at y) (λ m h.
        decode_rle (d ∷ cs) c 0 (suc (length cs)) m b' (omega arith) ts.0 ts.1 (λ q. refl) h)
  ]

  -- The run-length code of the types is decoded to the same types, with exactly its symbols read.
  pub decode_types-rle :
      (cs : List ℕ) (b b' : B)
      → All IsType cs
      → Yields b (rle cs 0 0) b'
      → decode_types reader (length cs) b 0 0 ≡ (cs, b')
  decode_types-rle cs b b' ts y =
      decode_rle cs 0 0 (length cs) b b' (omega arith) (omega arith) ts (λ _. refl) y
