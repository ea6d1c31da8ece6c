-- ===== src/Codec/Group/Best.antt =====
-- chd_compressor_group::find_best_compressor against what the slots offer.
use libchdman_rs.Prelude.{
  ℕ, zero, suc, ◌+◌, ◌≡◌, ◌<◌, ◌≤◌, refl, ap, ◌∙◌, sym, false, Option, none, some, List, [], ◌∷◌,
  ◌⊎◌, inl, inr, Option-cases, ltb, ltb→lt, take_all, if◌then◌else◌, Bool-cases, length, blit,
  slice, length-blit, slice-blit_self, arith,
}
use mathlib.Core.Path.{subst}
use libchdman_rs.Bytes.{Buffer}
use libchdman_rs.Codec.{Coder}
use libchdman_rs.Codec.Group.{Found, attempt, consider, best_loop, or_copy, find_best}

-- What the compressor in slot k offers for the hunk.
unfoldable pub offer : List (Option Coder) → ℕ → Buffer → Option Buffer
offer [] k src = none
offer (slot ∷ slots) zero src = attempt slot src
offer (slot ∷ slots) (suc k) src = offer slots k src

-- No offer is shorter than n; no offer in front of slot k is as short as n.
abbrev pub NoneBelow : List (Option Coder) → Buffer → ℕ → Type 0
NoneBelow slots src n = (k : ℕ) (b : Buffer) → offer slots k src ≡ some b → n ≤ length b

abbrev pub NoneBefore : List (Option Coder) → Buffer → ℕ → ℕ → Type 0
NoneBefore slots src k n = (j : ℕ) (b : Buffer) → j < k → offer slots j src ≡ some b → n < length b

-- The state r is the one that the shortest offer below s.complen leaves, the first among equals, where
-- the slots have the numbers from i on; without such an offer it is s.
abbrev Shortest : List (Option Coder) → ℕ → Buffer → Found → Found → Type 0
Shortest slots i src s r =
    ((r ≡ s) × NoneBelow slots src s.complen)
    ⊎ ((k : ℕ) × (b : Buffer) × (offer slots k src ≡ some b)
        × (length b < s.complen)
        × (r.compression ≡ some (i + k))
        × (r.complen ≡ length b)
        × (slice r.compressed 0 (length b) ≡ b)
        × NoneBelow slots src (length b)
        × NoneBefore slots src k (length b))

ltb_not : (a b : ℕ) → ltb a b ≡ false → b ≤ a
ltb_not a b h = ground (arith, h)

some_injective : (x y : Buffer) → Path (Option Buffer) (some x) (some y) → x ≡ y
some_injective x y h = ap (λ (o : Option Buffer). elim o [ none ↦ x | some z ↦ z ]) h

none-some : (y : Buffer) → Path (Option Buffer) none (some y) → ⊥
none-some y h = subst (λ (o : Option Buffer). elim o [ none ↦ Unit {0} | some z ↦ ⊥ ]) h tt

module _ (slot : Option Coder) (slots : List (Option Coder)) (src : Buffer) where
  below :
      (n : ℕ)
      → ((b : Buffer) → attempt slot src ≡ some b → n ≤ length b)
      → NoneBelow slots src n
      → NoneBelow (slot ∷ slots) src n
  unfolding offer
  below n first rest zero b h = first b h
  below n first rest (suc k) b h = rest k b h

  before :
      (k n : ℕ)
      → ((b : Buffer) → attempt slot src ≡ some b → n < length b)
      → NoneBefore slots src k n
      → NoneBefore (slot ∷ slots) src (suc k) n
  unfolding offer
  before k n first rest zero b lt h = first b h
  before k n first rest (suc j) b lt h = rest j b (omega (arith, lt)) h

  -- The first slot changes nothing.
  passed :
      (i : ℕ) (s r : Found)
      → ((b : Buffer) → attempt slot src ≡ some b → s.complen ≤ length b)
      → Shortest slots (suc i) src s r
      → Shortest (slot ∷ slots) i src s r
  unfolding offer
  passed i s r first (inl (same, rest)) = inl (same, below s.complen first rest)
  passed i s r first (inr (k, b, offered, lt, number, len, content, rest, earlier)) = inr (
    suc k,
    b,
    offered,
    lt,
    number ∙ ap some (omega arith),
    len,
    content,
    below (length b) (λ b' h. omega (arith, first b' h, lt)) rest,
    before k (length b) (λ b' h. omega (arith, first b' h, lt)) earlier,
  )

  -- The first slot offers b, which is shorter.
  taken :
      (i : ℕ) (s r : Found) (b : Buffer)
      → attempt slot src ≡ some b
      → length b < s.complen
      → s.complen ≤ length s.compressed
      → Shortest slots
          (suc i)
          src
          (record { compression = some i; complen = length b; compressed = blit s.compressed 0 b })
          r
      → Shortest (slot ∷ slots) i src s r
  unfolding offer
  taken i s r b h lt room (inl (same, rest)) = inr (
    0,
    b,
    h,
    lt,
    ap (λ q. q.compression) same ∙ ap some (omega arith),
    ap (λ q. q.complen) same,
    ap (λ q. slice q.compressed 0 (length b)) same
        ∙ slice-blit_self s.compressed 0 b (omega (arith, lt, room)),
    below (length b) (λ b' h'. omega (arith, ap length (some_injective b b' (sym h ∙ h')))) rest,
    λ j b' lt' h'. absurd (omega (arith, lt')),
  )
  taken i s r b h lt room (inr (k, b2, offered, lt2, number, len, content, rest, earlier)) = inr (
    suc k,
    b2,
    offered,
    omega (arith, lt, lt2),
    number ∙ ap some (omega arith),
    len,
    content,
    below (length b2) (λ b' h'. omega (arith, lt2, ap length (some_injective b b' (sym h ∙ h'))))
        rest,
    before k (length b2) (λ b' h'. omega (arith, lt2, ap length (some_injective b b' (sym h ∙ h'))))
        earlier,
  )

best_loop-Shortest :
    (slots : List (Option Coder)) (i : ℕ) (src : Buffer) (s : Found)
    → s.complen ≤ length s.compressed
    → Shortest slots i src s (best_loop slots i src s)
unfolding best_loop offer consider
best_loop-Shortest [] i src s room = inl (refl, λ k b h. absurd (none-some b h))
best_loop-Shortest (slot ∷ slots) i src s room = elim (Option-cases (attempt slot src)) [
  | inl nothing ↦
      subst (λ o. Shortest (slot ∷ slots) i src s (best_loop slots (suc i) src (consider o i s)))
        (sym nothing)
        (passed slot slots src i s (best_loop slots (suc i) src s)
          (λ b h. absurd (none-some b (sym nothing ∙ h)))
          (best_loop-Shortest slots (suc i) src s room))
  | inr (b, offered) ↦ elim (Bool-cases (ltb (length b) s.complen)) [
    | inl shorter ↦
        let s' : Found = record {
          compression = some i;
          complen = length b;
          compressed = blit s.compressed 0 b;
        } in
        subst (λ o. Shortest (slot ∷ slots) i src s (best_loop slots (suc i) src o))
          (sym (ap (λ o. consider o i s) offered ∙ ap (λ t. if t then s' else s) shorter))
          (taken slot slots src i s (best_loop slots (suc i) src s') b offered
            (ground (arith, shorter)) room
            (best_loop-Shortest slots (suc i) src s' (
              omega
                (arith, length-blit s.compressed 0 b, ltb→lt (length b) s.complen shorter, room))))
    | inr longer ↦
        let s' : Found = record {
          compression = some i;
          complen = length b;
          compressed = blit s.compressed 0 b;
        } in
        subst (λ o. Shortest (slot ∷ slots) i src s (best_loop slots (suc i) src o))
          (sym (ap (λ o. consider o i s) offered ∙ ap (λ t. if t then s' else s) longer))
          (passed slot slots src i s (best_loop slots (suc i) src s)
            (λ b' h. omega (
              arith,
              ltb_not (length b) s.complen longer,
              ap length (some_injective b b' (sym offered ∙ h)),
            ))
            (best_loop-Shortest slots (suc i) src s room))
  ]
]

-- The raw hunk where no offer is shorter, else the first of the shortest offers.
abbrev pub IsBest : List (Option Coder) → ℕ → Buffer → Found → Type 0
IsBest slots hunkbytes src r =
    ((r.compression ≡ none)
      × (r.complen ≡ hunkbytes)
      × (slice r.compressed 0 hunkbytes ≡ src)
      × NoneBelow slots src hunkbytes)
    ⊎ ((k : ℕ) × (b : Buffer) × (offer slots k src ≡ some b)
        × (length b < hunkbytes)
        × (r.compression ≡ some k)
        × (r.complen ≡ length b)
        × (slice r.compressed 0 (length b) ≡ b)
        × NoneBelow slots src (length b)
        × NoneBefore slots src k (length b))

copied :
    (src compressed : Buffer)
    → length src ≤ length compressed
    → slice (blit compressed 0 (slice src 0 (length src))) 0 (length src) ≡ src
copied src compressed room =
    ap (λ b. slice (blit compressed 0 b) 0 (length src)) (take_all (length src) src (omega arith))
    ∙ slice-blit_self compressed 0 src (omega (arith, room))

-- For a hunk that fits the buffer of the result, find_best_compressor gives the number and the
-- bytes of the first of the shortest results that the compressors in the slots offer, where one is
-- shorter than the hunk, and otherwise the hunk itself; empty slots and compressors that throw
-- offer nothing.
pub find_best-IsBest :
    (slots : List (Option Coder)) (src compressed : Buffer)
    → length src ≤ length compressed
    → IsBest slots (length src) src (find_best slots (length src) src compressed)
unfolding find_best
find_best-IsBest slots src compressed room =
    let start : Found = record {
      compression = none;
      complen = length src;
      compressed = compressed;
    } in
    let from_zero : (k : ℕ) → Path (Option ℕ) (some (0 + k)) (some k) =
      λ k. ap some {y = k} (omega arith) in
    let end : Found = best_loop slots 0 src start in
    elim (best_loop-Shortest slots 0 src start room) [
      | inl (same, rest) ↦
          subst (λ q. IsBest slots (length src) src (or_copy src (length src) q q.compression))
            (sym same) (inl (refl, refl, copied src compressed room, rest))
      | inr (k, b, offered, lt, number, len, content, rest, earlier) ↦
          subst (λ c. IsBest slots (length src) src (or_copy src (length src) end c))
            (sym (number ∙ from_zero k))
            (inr (k, b, offered, lt, number ∙ from_zero k, len, content, rest, earlier))
    ]
