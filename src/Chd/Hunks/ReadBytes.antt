-- ===== src/Chd/Hunks/ReadBytes.antt =====
-- chd_file::read_bytes delivers the bytes of the image.
use native.Mathlib.Nat.{mul-le-mul_left, div-add-mod, mod-lt, mod-eq_of_lt}
use native.Mathlib.Decide.{dec_lt}
use libchdman_rs.Prelude.{
  ℕ, ◌+◌, ◌-◌, ◌*◌, ◌/◌, ◌%◌, ◌^◌, ◌≡◌, ◌<◌, ◌≤◌, refl, ap, ◌∙◌, sym, none, List, [], ◌∷◌,
  if◌then◌else◌, ◌==◌, length, slice, arith,
}
use libchdman_rs.Bytes.{Buffer}
use libchdman_rs.Chd.Hunks.{File, returns, u32}
use libchdman_rs.Chd.Hunks.Access.{
  ReadHunk, start_offs, end_offs, last_byte, hunks_in, read_loop, read_bytes,
}
use libchdman_rs.Chd.Hunks.Image.{hunks, Serves, Part, At, rounds}

div-lt : (x size count : ℕ) → x < size * count → x / size < count
div-lt x size count h = elim (dec_lt (x / size) count) [
  | yes less ↦ less
  | no more ↦
      let le : size * count ≤ size * (x / size) = mul-le-mul_left size (omega (arith, more)) in
      absurd (omega (arith, le, h, div-add-mod x size))
]

div_mono : (x y size : ℕ) → 0 < size → x ≤ y → x / size ≤ y / size
div_mono x y size pos h = elim (dec_lt (y / size) (x / size)) [
  | no fine ↦ omega (arith, fine)
  | yes less ↦
      let le : size * (y / size + 1) ≤ size * (x / size) =
        mul-le-mul_left size (omega (arith, less)) in
      absurd (omega (arith, le, h, div-add-mod x size, div-add-mod y size, mod-lt y pos))
]

last_byte_lem :
    (offset bytes : ℕ)
    → 0 < bytes
    → offset + bytes < 2 ^ 64
    → last_byte offset bytes ≡ offset + bytes - 1
last_byte_lem offset bytes some_ fits = omega arith

module _ (size count offset bytes : ℕ) (pos : 0 < size) (few : count ≤ 2 ^ 32) (some_ : 0 < bytes)
    (inside : offset + bytes ≤ size * count) (fits : offset + bytes < 2 ^ 64) where
  abbrev last : ℕ
  last = offset + bytes - 1

  u32_first : u32 (offset / size) ≡ offset / size
  u32_first =
      mod-eq_of_lt (omega (arith, few, div-lt offset size count (omega (arith, inside, some_))))

  u32_last : u32 (last_byte offset bytes / size) ≡ last / size
  u32_last =
      ap (λ x. u32 (x / size)) (last_byte_lem offset bytes some_ fits)
      ∙ mod-eq_of_lt (omega (arith, few, div-lt last size count (omega (arith, inside, some_))))

  part : Part size count offset bytes (offset / size) (offset % size) (last / size) (last % size)
  unfolding start_offs end_offs
  part = record {
    some_ = some_;
    first = sym (div-add-mod offset size);
    first_in = mod-lt offset pos;
    last = omega (arith, some_, div-add-mod last size);
    last_in = mod-lt last pos;
    inside = div-lt last size count (omega (arith, inside, some_));
    begins = λ cur. ap (λ q. if cur == q then offset % size else 0) u32_first;
    ends = λ cur.
        ap (λ q. if cur == q then last_byte offset bytes % size else size - 1) u32_last
        ∙ ap (λ x. if cur == last / size then x % size else size - 1)
            (last_byte_lem offset bytes some_ fits);
  }

rounds_lem : {a b c d : ℕ} → a ≡ c → b ≡ d → a + 1 - b ≡ c + 1 - d
rounds_lem h h' = omega (arith, h, h')

same_loop :
    {S : Type 0} (read_hunk : ReadHunk S) (n n' h h' c c' offset bytes : ℕ) (fs : List (File S))
    (dest : Buffer)
    → n ≡ n'
    → h ≡ h'
    → c ≡ c'
    → read_loop read_hunk n h offset bytes c 0 fs dest
      ≡ read_loop read_hunk n' h' offset bytes c' 0 fs dest
same_loop read_hunk n n' h h' c c' offset bytes fs dest p q r = rw (p, q, r) refl

-- If read_hunk serves an image (in each state that `P` holds of it gives the hunks of the image, and
-- the cache holds the hunk that it is said to hold), then a read_bytes of one byte or more inside the
-- image, of at most 2 ^ 32 hunks and below 2 ^ 64 bytes, succeeds, delivers exactly the bytes of the
-- image from `offset` on, and leaves the files in such a state.
pub read_bytes-hunks :
    {S : Type 0} (read_hunk : ReadHunk S) (size count : ℕ) (image : ℕ → Buffer)
    (P : List (File S) → Type 0)
    → Serves read_hunk size count image P
    → (offset bytes : ℕ) (gs : List (File S)) (dest : Buffer) → 0 < size
    → count ≤ 2 ^ 32
    → 0 < bytes
    → offset + bytes ≤ size * count
    → offset + bytes < 2 ^ 64
    → length dest ≡ bytes
    → P gs
    → (hs : List (File S)) × (read_bytes read_hunk gs offset dest bytes
        ≡ returns (none, slice (hunks image 0 count) offset bytes, hs))
      × P hs
unfolding read_bytes
read_bytes-hunks read_hunk size count image P serves offset bytes [] dest pos few some_ inside fits
      l p =
    absurd (serves.opened p)
read_bytes-hunks read_hunk size count image P serves offset bytes (f ∷ fs) dest pos few some_ inside
      fits l p =
    let ends : ℕ = (offset + bytes - 1) / size in
    let here : Part size count offset bytes (offset / size) (offset % size) ends
        ((offset + bytes - 1) % size) =
      part size count offset bytes pos few some_ inside fits in
    let order : offset / size ≤ ends =
      div_mono offset (offset + bytes - 1) size pos (omega arith) in
    let begun : start_offs size offset (offset / size) ≡ offset % size =
      here.begins (offset / size) ∙ ground arith in
    let k : ℕ = ends + 1 - offset / size in
    let start : At read_hunk size count image P serves pos offset bytes (offset / size)
        (offset % size) ends ((offset + bytes - 1) % size) here k (offset / size) 0 =
      record {
        begun = omega arith;
        rounds_left = omega (arith, order);
        done = λ z. absurd (omega (arith, z, order));
        here = λ _. omega (arith, here.first, begun);
      } in
    let (hs, e, q) =
      rounds read_hunk size count image P serves pos offset bytes (offset / size) (offset % size)
        ends ((offset + bytes - 1) % size) here k (offset / size) 0 (f ∷ fs) dest p start l refl in
    let wide : f.m_hunkbytes ≡ size = serves.hunkbytes p in
    let counted : hunks_in f.m_hunkbytes offset bytes ≡ k =
      ap (λ h. hunks_in h offset bytes) wide
      ∙ rounds_lem (u32_last size count offset bytes pos few some_ inside fits)
          (u32_first size count offset bytes pos few some_ inside fits) in
    let from_ : u32 (offset / f.m_hunkbytes) ≡ offset / size =
      ap (λ h. u32 (offset / h)) wide
      ∙ u32_first size count offset bytes pos few some_ inside fits in
    (hs, same_loop read_hunk _ _ _ _ _ _ offset bytes (f ∷ fs) dest counted wide from_ ∙ e, q)
