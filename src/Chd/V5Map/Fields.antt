-- ===== src/Chd/V5Map/Fields.antt =====
-- chd_file::compress_v5_map and decompress_v5_map: the bit fields of the entries.
use libchdman_rs.Prelude.{
  ℕ, ◌+◌, ◌/◌, ◌%◌, ◌^◌, ◌<◌, ◌≤◌, ◌≡◌, true, List, [], ◌∷◌, ◌⊎◌, inl, inr, if◌then◌else◌, ltb, leb,
  ◌==◌, Bool-cases, lt→ltb, arith,
}
use native.Mathlib.Decide.{dec_lt}
use native.Mathlib.Nat.{mod-eq_of_lt}
use libchdman_rs.Chd.V5Map.{
  MapEntry, Geometry, u32, Tracked, same_unit, promote_self, promote_parent, promote, Field, Widths,
  entry_fields, Reader, Cursor, unpacked, decode_entry,
}

-- An entry as the writers of a hunk leave it (hunk_write_compressed, hunk_copy_from_self,
-- hunk_copy_from_parent), where the next stored data begins at `cur`. A reference is below 2 ^ 32.
pub record IsEntry (g : Geometry) (cur : ℕ) (e : MapEntry) : Type 0 where
  pub kind : e.compression ≤ 6
  pub length_fits : e.length < 2 ^ 24
  pub crc_fits : e.crc < 2 ^ 16
  pub cur_fits : e.compression ≤ 4 → cur < 2 ^ 48
  pub stored : e.compression ≤ 4 → e.offset ≡ cur
  pub whole : e.compression ≡ 4 → e.length ≡ g.hunkbytes
  pub refers :
      5 ≤ e.compression
      → record { length_0 : e.length ≡ 0; crc_0 : e.crc ≡ 0; small : e.offset < 2 ^ 32 }

-- Where the next stored data begins.
abbrev pub next_offset : ℕ → MapEntry → ℕ
next_offset cur e = if leb e.compression 4 then cur + e.length else cur

-- The widths are enough for the fields of the entry, promoted to `comp`.
abbrev pub Suffices : Widths → ℕ → MapEntry → Type 0
Suffices w comp e =
    (comp < 4 → e.length < 2 ^ w.lengthbits)
    × (comp ≡ 5 → e.offset < 2 ^ w.selfbits)
    × (comp ≡ 6 → e.offset < 2 ^ w.parentbits)

module _ {B : Type 0} (reader : Reader B) where
  open reader use {read}

  -- From `b` the fields are read, each cut to its width, and `b'` is left.
  abbrev pub YieldsFields : B → List Field → B → Type 0
  YieldsFields b [] b' = b ≡ b'
  YieldsFields b ((v, n) ∷ fs) b' = ((read n b).0 ≡ v % 2 ^ n) × YieldsFields (read n b).1 fs b'

-- How an entry is promoted: the type that stands for it, and the references that are kept.
pub data Form (g : Geometry) (hunknum : ℕ) (e : MapEntry) (s : Tracked) (c self parent : ℕ)
    : Type 0 where
  stored :
      e.compression ≤ 4
      → c ≡ e.compression
      → self ≡ s.last_self
      → parent ≡ s.last_parent
      → Form g hunknum e s c self parent
  to_self :
      e.compression ≡ 5
      → self ≡ e.offset
      → parent ≡ s.last_parent
      → (c ≡ 5)
        ⊎ ((c ≡ 9) × (e.offset ≡ s.last_self))
        ⊎ ((c ≡ 10) × (e.offset ≡ u32 (s.last_self + 1)))
      → Form g hunknum e s c self parent
  to_parent :
      e.compression ≡ 6
      → self ≡ s.last_self
      → parent ≡ e.offset
      → (c ≡ 6)
        ⊎ ((c ≡ 11) × (e.offset ≡ same_unit g hunknum))
        ⊎ ((c ≡ 12) × (e.offset ≡ s.last_parent))
        ⊎ ((c ≡ 13) × (e.offset ≡ s.last_parent + g.hunkbytes / g.unitbytes))
      → Form g hunknum e s c self parent

module _ (g : Geometry) (hunknum cur : ℕ) (e : MapEntry) (s : Tracked)
    (entry : IsEntry g cur e) where
  pub promote-Form :
      Form g hunknum e s
        (promote g hunknum e s).0
        (promote g hunknum e s).1.last_self
        (promote g hunknum e s).1.last_parent
  unfolding promote promote_self promote_parent
  promote-Form = elim (Bool-cases (e.compression == 5)) [
    | inl is_self ↦
        to_self (ground arith) (ground (arith, entry.refers)) (ground arith)
          (ground (arith, entry.refers))
    | inr other ↦ elim (Bool-cases (e.compression == 6)) [
      | inl is_parent ↦
          to_parent (ground arith) (ground arith) (ground (arith, entry.refers))
            (ground (arith, entry.refers))
      | inr data_ ↦ stored (ground (arith, entry.kind)) (ground arith) (ground arith) (ground arith)
    ]
  ]

-- The entry that decode_entry builds, where what it reads is known.
module _ (comp : ℕ) (e : MapEntry) where
  unpacked_same :
      (n o c : ℕ)
      → comp ≡ e.compression
      → n ≡ e.length
      → o ≡ e.offset
      → c ≡ e.crc
      → e.length < 2 ^ 24
      → e.offset < 2 ^ 48
      → e.crc < 2 ^ 16
      → unpacked comp n o c ≡ e
  unfolding unpacked
  unpacked_same n o c p q r t hn ho hc = ground arith

module _ {B : Type 0} (reader : Reader B) (g : Geometry) (w : Widths) (hunknum : ℕ) (e : MapEntry)
    (s : Tracked) (d : Cursor) (b m : B) (entry : IsEntry g d.curoffset e)
    (last_self : d.last_self ≡ s.last_self) (last_parent : d.last_parent ≡ s.last_parent) where
  open reader use {read}

  abbrev Decoded : ℕ → ℕ → ℕ → Type 0
  Decoded c self parent = decode_entry reader g w hunknum c b d ≡ (
    e,
    m,
    record { curoffset = next_offset d.curoffset e; last_self = self; last_parent = parent },
  )

  decode_stored :
      e.compression < 4
      → Suffices w e.compression e
      → YieldsFields reader b (entry_fields w e.compression e) m
      → Decoded e.compression s.last_self s.last_parent
  unfolding decode_entry entry_fields
  decode_stored small fit y =
      let test : ltb e.compression 4 ≡ true = lt→ltb e.compression 4 small in
      let y' = rw test at y in
      let cut : e.length % 2 ^ w.lengthbits ≡ e.length = mod-eq_of_lt (fit.0 small) in
      rw (test, y'.0, y'.1.0, y'.1.1, last_self, last_parent, cut) (ground (arith, entry.stored))

  decode_whole :
      (c : ℕ)
      → c ≡ 4
      → e.compression ≡ 4
      → YieldsFields reader b (entry_fields w c e) m
      → Decoded c s.last_self s.last_parent
  unfolding decode_entry entry_fields
  decode_whole c h k y =
      let y' = rw h at y in
      rw (h, y'.0, y'.1, last_self, last_parent) (ground (arith, entry.stored, entry.whole))

  decode_self :
      (c : ℕ)
      → e.compression ≡ 5
      → (c ≡ 5)
        ⊎ ((c ≡ 9) × (e.offset ≡ s.last_self))
        ⊎ ((c ≡ 10) × (e.offset ≡ u32 (s.last_self + 1)))
      → Suffices w c e
      → YieldsFields reader b (entry_fields w c e) m
      → Decoded c e.offset s.last_parent
  unfolding decode_entry entry_fields
  decode_self c k (inl h) fit y =
      let y' = rw h at y in
      let cut : e.offset % 2 ^ w.selfbits ≡ e.offset = mod-eq_of_lt (fit.1 h) in
      rw (h, y'.0, y'.1, last_parent, cut) (ground (arith, entry.refers))
  decode_self c k (inr (inl (h, same))) fit y =
      let y' = rw h at y in rw (h, y', last_self, last_parent) (ground (arith, entry.refers))
  decode_self c k (inr (inr (h, following))) fit y =
      let y' = rw h at y in rw (h, y', last_self, last_parent) (ground (arith, entry.refers))

  decode_parent :
      (c : ℕ)
      → e.compression ≡ 6
      → (c ≡ 6)
        ⊎ ((c ≡ 11) × (e.offset ≡ same_unit g hunknum))
        ⊎ ((c ≡ 12) × (e.offset ≡ s.last_parent))
        ⊎ ((c ≡ 13) × (e.offset ≡ s.last_parent + g.hunkbytes / g.unitbytes))
      → Suffices w c e
      → YieldsFields reader b (entry_fields w c e) m
      → Decoded c s.last_self e.offset
  unfolding decode_entry entry_fields
  decode_parent c k (inl h) fit y =
      let y' = rw h at y in
      let cut : e.offset % 2 ^ w.parentbits ≡ e.offset = mod-eq_of_lt (fit.2 h) in
      rw (h, y'.0, y'.1, last_self, cut) (ground (arith, entry.refers))
  decode_parent c k (inr (inl (h, same))) fit y =
      let y' = rw h at y in rw (h, y', last_self) (ground (arith, entry.refers))
  decode_parent c k (inr (inr (inl (h, same)))) fit y =
      let y' = rw h at y in rw (h, y', last_self, last_parent) (ground (arith, entry.refers))
  decode_parent c k (inr (inr (inr (h, following)))) fit y =
      let y' = rw h at y in rw (h, y', last_self, last_parent) (ground (arith, entry.refers))

  -- The entry is read back, and the cursor follows.
  pub decode-Form :
      (c self parent : ℕ)
      → Form g hunknum e s c self parent
      → Suffices w c e
      → YieldsFields reader b (entry_fields w c e) m
      → Decoded c self parent
  decode-Form c self parent (stored k h p q) fit y =
      rw (p, q)
        (elim (dec_lt e.compression 4) [
          | yes small ↦ rw h (decode_stored small (rw h at fit) (rw h at y))
          | no big ↦ decode_whole c (omega arith) (omega arith) y
        ])
  decode-Form c self parent (to_self k p q f) fit y = rw (p, q) (decode_self c k f fit y)
  decode-Form c self parent (to_parent k p q f) fit y = rw (p, q) (decode_parent c k f fit y)
