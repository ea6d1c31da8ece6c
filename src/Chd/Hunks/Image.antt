-- ===== src/Chd/Hunks/Image.antt =====
-- chd_file::read_bytes: the bytes of the image that a chd_file holds, whose hunk `n` is `image n`.
use native.Mathlib.Nat.{mul-suc, mul-le-mul_left}
use native.Mathlib.Decide.{dec_lt}
use libchdman_rs.Prelude.{
  ℕ, zero, suc, ◌+◌, ◌-◌, ◌*◌, ◌≡◌, ◌<◌, ◌≤◌, refl, ap, ◌∙◌, sym, Bool, true, not, ◌&&◌, none, List,
  [], ◌∷◌, ◌++◌, inl, inr, if◌then◌else◌, ◌==◌, Bool-cases, ==_iff, length, take, slice, blit,
  slice_split, slice-append_front, slice-append_back, length-slice, take-blit, length-blit,
  take_all, arith,
}
use libchdman_rs.Bytes.{Buffer}
use libchdman_rs.Chd.Hunks.{File, returns}
use libchdman_rs.Chd.Hunks.Access.{Outcome, ReadHunk, set_cache, start_offs, end_offs, read_loop}

-- The hunks from `n` on, `count` of them, one behind the other.
unfoldable pub hunks : (ℕ → Buffer) → ℕ → ℕ → Buffer
hunks image n zero = []
hunks image n (suc count) = image n ++ hunks image (n + 1) count

module _ (image : ℕ → Buffer) (size : ℕ) (sized : (n : ℕ) → length (image n) ≡ size) where
  -- A part of one hunk is a part of the image.
  pub slice-hunks :
      (count n j s l at_ cur : ℕ)
      → j < count
      → s + l ≤ size
      → at_ ≡ size * j + s
      → cur ≡ n + j
      → slice (hunks image n count) at_ l ≡ slice (image cur) s l
  unfolding hunks
  slice-hunks zero n j s l at_ cur h le e f = absurd (omega arith)
  slice-hunks (suc count) n zero s l at_ cur h le e f =
      let at_eq : s ≡ at_ = omega arith in
      let cur_eq : n ≡ cur = omega arith in
      rw (sym at_eq, sym cur_eq)
        (slice-append_front (image n) (hunks image (n + 1) count) s l (omega (arith, sized n)))
  slice-hunks (suc count) n (suc j) s l at_ cur h le e f =
      slice-append_back (image n) (hunks image (n + 1) count) (size * j + s) at_ l
        (omega (arith, sized n, mul-suc size j))
      ∙ slice-hunks count (n + 1) j s l (size * j + s) cur (omega arith) le refl (omega arith)

-- In the states that `P` holds of, read_hunk gives the hunks of the image, and the cache holds the
-- hunk that it is said to hold.
pub record Serves {S : Type 0} (read_hunk : ReadHunk S) (size count : ℕ) (image : ℕ → Buffer)
    (P : List (File S) → Type 0) : Type 0 where
  pub sized : (n : ℕ) → length (image n) ≡ size
  pub opened : ¬ (P [])
  pub hunkbytes : {f : File S} {fs : List (File S)} → P (f ∷ fs) → f.m_hunkbytes ≡ size
  pub reads :
      (gs : List (File S)) (n : ℕ) (dest : Buffer)
      → P gs
      → n < count
      → length dest ≡ size
      → (hs : List (File S)) × (read_hunk gs n dest ≡ returns (none, image n, hs)) × P hs
  pub fills : (gs : List (File S)) (n : ℕ) → P gs → n < count → P (set_cache gs (image n) n)
  pub cached :
      {f : File S} {fs : List (File S)}
      → P (f ∷ fs)
      → f.m_cachehunk < count
      → f.m_cache ≡ image f.m_cachehunk
  pub allocated : {f : File S} {fs : List (File S)} → P (f ∷ fs) → length f.m_cache ≡ size

whole_hunk :
    (size : ℕ)
    → 0 < size
    → (a b : ℕ) (c : Bool) → (a == 0) && (b == size - 1) && c ≡ true
    → (a ≡ 0) × (b + 1 - a ≡ size)
whole_hunk size pos a b c h = (ground arith, ground arith)

slice_whole : (xs : Buffer) (i n : ℕ) → i ≡ 0 → length xs ≤ n → slice xs i n ≡ xs
slice_whole xs i n e h = rw e (take_all n xs h)

module _ {S : Type 0} (read_hunk : ReadHunk S) (size count : ℕ) (image : ℕ → Buffer)
    (P : List (File S) → Type 0) (serves : Serves read_hunk size count image P) (pos : 0 < size)
    (offset bytes : ℕ) where
  abbrev st : ℕ → ℕ
  st cur = start_offs size offset cur

  abbrev en : ℕ → ℕ
  en cur = end_offs size offset bytes cur

  abbrev span : ℕ → ℕ
  span cur = en cur + 1 - st cur

  -- One round copies the part of the hunk.
  round :
      (k cur at_ : ℕ) (gs : List (File S)) (dest : Buffer)
      → P gs
      → cur < count
      → at_ + span cur ≤ length dest
      → (hs : List (File S)) × (read_loop read_hunk (suc k) size offset bytes cur at_ gs dest
          ≡ read_loop read_hunk k size offset bytes
              (cur + 1)
              (at_ + span cur)
              hs
              (blit dest at_ (slice (image cur) (st cur) (span cur))))
        × P hs
  unfolding read_loop
  round k cur at_ [] dest p small room = absurd (serves.opened p)
  round k cur at_ (f ∷ fs) dest p small room =
      elim (Bool-cases ((st cur == 0) && (en cur == size - 1) && not (cur == f.m_cachehunk))) [
        | inl full ↦
            let whole = whole_hunk size pos (st cur) (en cur) (not (cur == f.m_cachehunk)) full in
            let room' : length (slice dest at_ size) ≡ size =
              length-slice dest at_ size (omega (arith, whole.1, room)) in
            let block : image cur ≡ slice (image cur) (st cur) (span cur) = sym (
              slice_whole (image cur) (st cur) (span cur) whole.0
                (omega (arith, whole.1, serves.sized cur))) in
            let (hs, e, q) = serves.reads (f ∷ fs) cur (slice dest at_ size) p small room' in
            (hs, rw (full, e) (ap (λ b. go hs (blit dest at_ b)) block), q)
        | inr part ↦ elim (Bool-cases (cur == f.m_cachehunk)) [
          | inl here ↦
              let same : cur ≡ f.m_cachehunk = (==_iff cur f.m_cachehunk).0 here in
              let held : f.m_cache ≡ image cur =
                serves.cached p (omega (arith, same)) ∙ ap image (sym same) in
              (
                f ∷ fs,
                rw (part, here)
                    (ap (λ c. go (f ∷ fs) (blit dest at_ (slice c (st cur) (span cur)))) held),
                p,
              )
          | inr other ↦
              let (hs, e, q) = serves.reads (f ∷ fs) cur f.m_cache p small (serves.allocated p) in
              (set_cache hs (image cur) cur, rw (part, other, e) refl, serves.fills hs cur q small)
        ]
      ]
    where
      go : List (File S) → Buffer → Outcome S
      go hs buffer = read_loop read_hunk k size offset bytes (cur + 1) (at_ + span cur) hs buffer

-- Where the bytes lie: the first and the last byte, as a hunk and a place in it.
pub record Part (size count offset bytes q1 r1 q2 r2 : ℕ) : Type 0 where
  pub some_ : 0 < bytes
  pub first : offset ≡ size * q1 + r1
  pub first_in : r1 < size
  pub last : offset + bytes ≡ size * q2 + r2 + 1
  pub last_in : r2 < size
  pub inside : q2 < count
  pub begins : (cur : ℕ) → start_offs size offset cur ≡ (if cur == q1 then r1 else 0)
  pub ends : (cur : ℕ) → end_offs size offset bytes cur ≡ (if cur == q2 then r2 else size - 1)

module _ {S : Type 0} (read_hunk : ReadHunk S) (size count : ℕ) (image : ℕ → Buffer)
    (P : List (File S) → Type 0) (serves : Serves read_hunk size count image P) (pos : 0 < size)
    (offset bytes q1 r1 q2 r2 : ℕ) (part : Part size count offset bytes q1 r1 q2 r2) where
  abbrev span' : ℕ → ℕ
  span' cur = end_offs size offset bytes cur + 1 - start_offs size offset cur

  -- Where the round for a hunk stands, with `k` rounds to come.
  pub record At (k cur at_ : ℕ) : Type 0 where
    pub begun : q1 ≤ cur
    pub rounds_left : cur + k ≡ q2 + 1
    pub done : k ≡ 0 → at_ ≡ bytes
    pub here : 0 < k → offset + at_ ≡ size * cur + start_offs size offset cur

  record Advanced (k cur at_ : ℕ) : Type 0 where
    next : At k (cur + 1) (at_ + span' cur)
    within : start_offs size offset cur + span' cur ≤ size
    room : at_ + span' cur ≤ bytes
    known : cur < count

  advance : (k cur at_ : ℕ) → At (suc k) cur at_ → Advanced k cur at_
  advance k cur at_ h =
      let placed : offset + at_ ≡ size * cur + start_offs size offset cur = h.here (omega arith) in
      let b = part.begins cur in
      let b' : start_offs size offset (cur + 1) ≡ 0 =
        part.begins (cur + 1) ∙ ground (arith, h.begun) in
      let e = part.ends cur in
      let step : size * (cur + 1) ≡ size * cur + size = omega arith in
      elim (dec_lt cur q2) [
        | yes before ↦
            let e' : end_offs size offset bytes cur ≡ size - 1 = e ∙ ground (arith, before) in
            let mono : size * (cur + 1) ≤ size * q2 =
              mul-le-mul_left size (omega (arith, before)) in
            let small : start_offs size offset cur < size = ground (arith, b, part.first_in, pos) in
            record {
              next = record {
                begun = omega (arith, h.begun);
                rounds_left = omega (arith, h.rounds_left);
                done = λ z. absurd (omega (arith, z, h.rounds_left, before));
                here = λ _. omega (arith, placed, b', e', step, small, pos);
              };
              within = omega (arith, e', small, pos);
              room = omega (arith, placed, e', step, mono, small, part.last);
              known = omega (arith, before, part.inside);
            }
        | no past ↦
            let final : cur ≡ q2 = omega (arith, h.rounds_left, past) in
            let e' : end_offs size offset bytes cur ≡ r2 = e ∙ ground (arith, final) in
            let same : size * cur ≡ size * q2 = ap (λ x. size * x) final in
            let small : start_offs size offset cur ≤ r2 = elim (dec_lt q1 cur) [
              | yes later ↦ ground (arith, b, later)
              | no only ↦
                  let one : cur ≡ q1 = omega (arith, h.begun, only) in
                  let same' : size * cur ≡ size * q1 = ap (λ x. size * x) one in
                  let b1 : start_offs size offset cur ≡ r1 = b ∙ ground (arith, one) in
                  omega (arith, b1, same, same', part.first, part.last, part.some_)
            ] in
            record {
              next = record {
                begun = omega (arith, h.begun);
                rounds_left = omega (arith, h.rounds_left);
                done = λ z. omega (arith, placed, same, e', small, part.last);
                here = λ z. absurd (omega (arith, z, h.rounds_left, final));
              };
              within = omega (arith, e', small, part.last_in);
              room = omega (arith, placed, same, e', small, part.last);
              known = omega (arith, final, part.inside);
            }
      ]

  abbrev whole : Buffer
  whole = hunks image 0 count

  -- After its rounds the loop has copied the bytes.
  pub rounds :
      (k cur at_ : ℕ) (gs : List (File S)) (dest : Buffer)
      → P gs
      → At k cur at_
      → length dest ≡ bytes
      → take at_ dest ≡ slice whole offset at_
      → (hs : List (File S)) × (read_loop read_hunk k size offset bytes cur at_ gs dest
          ≡ returns (none, slice whole offset bytes, hs))
        × P hs
  unfolding read_loop
  rounds zero cur at_ gs dest p h l copied =
      let end_ : at_ ≡ bytes = h.done refl in
      let all_ : dest ≡ slice whole offset bytes =
        sym (take_all at_ dest (omega (arith, end_, l))) ∙ copied ∙ ap (slice whole offset) end_ in
      (gs, ap (λ d. returns (none, d, gs)) all_, p)
  rounds (suc k) cur at_ gs dest p h l copied =
      let a = advance k cur at_ h in
      let n : ℕ = span' cur in
      let piece : Buffer = slice (image cur) (start_offs size offset cur) n in
      let piece_len : length piece ≡ n =
        length-slice (image cur) (start_offs size offset cur) n
          (omega (arith, a.within, serves.sized cur)) in
      let (hs, e, q) =
        round read_hunk size count image P serves pos offset bytes k cur at_ gs dest p a.known
          (omega (arith, a.room, l)) in
      let copied' : take (at_ + n) (blit dest at_ piece) ≡ slice whole offset (at_ + n) =
        take-blit dest at_ piece (at_ + n) (omega (arith, piece_len)) (omega (arith, a.room, l))
        ∙ ap (λ x. x ++ piece) copied
        ∙ ap (λ x. slice whole offset at_ ++ x)
            (sym (
              slice-hunks image size serves.sized count 0 cur (start_offs size offset cur) n
                (offset + at_) cur a.known a.within (h.here (omega arith)) (omega arith)))
        ∙ sym (slice_split whole offset at_ n (offset + at_) (at_ + n) refl refl) in
      let (gs', e', q') =
        rounds k (cur + 1) (at_ + n) hs (blit dest at_ piece) q a.next
          (length-blit dest at_ piece ∙ l) copied' in
      (gs', e ∙ e', q')
