-- ===== src/Chd/V5Map/WholeMap.antt =====
-- chd_file::compress_v5_map and decompress_v5_map: the two are inverse to each other.
use mathlib.Core.Path.{subst}
use libchdman_rs.Prelude.{
  ℕ, ◌+◌, ◌<◌, ◌≤◌, ◌≡◌, ◌≢◌, refl, ap, ◌∙◌, sym, true, false, ◌&&◌, List, [], ◌∷◌, leb, ◌==◌,
  Bool-cases, length, if◌then◌else◌, inl, inr, arith,
}
use libchdman_rs.Errors.{ok, err, chd, decompression_error}
use libchdman_rs.Chd.V5Map.{
  MapEntry, Geometry, Tracked, tracked_start, promote, promote_self, promote_parent, promote_all,
  first_offset, Reader, Cursor, expand, compress, rle_reader, decode_types, rle, Packed, all_fields,
  widths_for,
}
use libchdman_rs.Chd.V5Map.Types.{Yields, decode_types-rle}
use libchdman_rs.Chd.V5Map.Fields.{IsEntry, YieldsFields}
use libchdman_rs.Chd.V5Map.RoundTrip.{
  WellFormed, IsSmall, promote_all-IsSmall, promote_all-length, promote_all-IsType,
  decode_entries-all,
}

-- Once it is found, the first offset stays.
first_offset-found : (f : ℕ) (cs : List ℕ) (es : List MapEntry) → f ≢ 0 → first_offset f cs es ≡ f
unfolding first_offset
first_offset-found f [] es h = refl
first_offset-found f (c ∷ cs) [] h = refl
first_offset-found f (c ∷ cs) (e ∷ es) h =
    let not_yet : leb c 4 && (f == 0) ≡ false = ground (arith, h) in
    rw not_yet (first_offset-found f cs es h)

promote-stored :
    (g : Geometry) (n cur : ℕ) (e : MapEntry) (s : Tracked)
    → IsEntry g cur e
    → leb (promote g n e s).0 4 ≡ leb e.compression 4
unfolding promote promote_self promote_parent
promote-stored g n cur e s h = ground (arith, h.kind)

module _ (c : ℕ) (cs : List ℕ) (e : MapEntry) (es : List MapEntry) where
  first_offset-here :
      (k : ℕ) → leb c 4 ≡ true → e.offset ≡ k → k ≢ 0 → first_offset 0 (c ∷ cs) (e ∷ es) ≡ k
  unfolding first_offset
  first_offset-here k h o pos = rw (h, o) (first_offset-found k cs es pos)

  first_offset-later : leb c 4 ≡ false → first_offset 0 (c ∷ cs) (e ∷ es) ≡ first_offset 0 cs es
  unfolding first_offset
  first_offset-later h = rw h refl

-- A reference does not care where the stored data goes on.
IsEntry-moved :
    (g : Geometry) (cur f : ℕ) (e : MapEntry)
    → leb e.compression 4 ≡ false
    → IsEntry g cur e
    → IsEntry g f e
IsEntry-moved g cur f e other h =
    let big : 5 ≤ e.compression = ground (arith, other) in
    record {
      kind = h.kind;
      length_fits = h.length_fits;
      crc_fits = h.crc_fits;
      cur_fits = λ k. absurd (omega (arith, big));
      stored = λ k. absurd (omega (arith, big));
      whole = h.whole;
      refers = h.refers;
    }

-- The stored data begins where the header of the map says.
first_offset-WellFormed :
    (g : Geometry) (n cur : ℕ) (es : List MapEntry) (s : Tracked)
    → 0 < cur
    → WellFormed g cur es
    → WellFormed g (first_offset 0 (promote_all g n es s).0 es) es
unfolding first_offset promote_all
first_offset-WellFormed g n cur [] s pos h = tt
first_offset-WellFormed g n cur (e ∷ es) s pos h = elim (Bool-cases (leb e.compression 4)) [
  | inl kept ↦
      let at_ : e.offset ≡ cur = h.0.stored (ground arith) in
      let cs = (promote_all g (n + 1) es (promote g n e s).1).0 in
      let known =
        first_offset-here (promote g n e s).0 cs e es cur (promote-stored g n cur e s h.0 ∙ kept)
          at_ (omega (arith, pos)) in
      rw known h
  | inr other ↦
      let rest : WellFormed g cur es = rw other at h.1 in
      let c : ℕ = (promote g n e s).0 in
      let cs = (promote_all g (n + 1) es (promote g n e s).1).0 in
      let later : WellFormed g (first_offset 0 cs es) es =
        first_offset-WellFormed g (n + 1) cur es (promote g n e s).1 pos rest in
      rw (first_offset-later c cs e es (promote-stored g n cur e s h.0 ∙ other), other)
        (IsEntry-moved g cur (first_offset 0 cs es) e other h.0, later)
]

-- What compress_v5_map writes, with the types `cs` in its second loop.
abbrev packed_with : (List MapEntry → ℕ) → Geometry → List MapEntry → List ℕ → Packed
packed_with crc16 g es cs =
    let (promoted, s) = promote_all g 0 es tracked_start in
    record {
      symbols = rle promoted 0 0;
      fields = all_fields (widths_for s) cs es;
      firstoffs = first_offset 0 cs es;
      mapcrc = crc16 es;
      widths = widths_for s;
    }

-- The run-length symbols give themselves.
symbols-Yields : (ss : List ℕ) → Yields rle_reader ss ss []
symbols-Yields [] = refl
symbols-Yields (s ∷ ss) = (refl, symbols-Yields ss)

-- The second loop of compress_v5_map finds the types of the first.
same_types :
    (g : Geometry) (start : ℕ) (es : List MapEntry)
    → WellFormed g start es
    → decode_types rle_reader (length es) (rle (promote_all g 0 es tracked_start).0 0 0) 0 0
      ≡ ((promote_all g 0 es tracked_start).0, [])
same_types g start es form =
    let cs = (promote_all g 0 es tracked_start).0 in
    rw (sym (promote_all-length g 0 es tracked_start)) (
      decode_types-rle rle_reader cs (rle cs 0 0) []
        (promote_all-IsType g 0 start es tracked_start form) (symbols-Yields (rle cs 0 0)))

module _ {B : Type 0} (reader : Reader B) (crc16 : List MapEntry → ℕ) (g : Geometry) (start : ℕ)
    (es : List MapEntry) (b m b' : B) (pos : 0 < start) (form : WellFormed g start es)
    (types : Yields reader b (compress crc16 g es).symbols m)
    (fields : YieldsFields reader m (compress crc16 g es).fields b') where
  same :
      Path Packed
        (compress crc16 g es)
        (packed_with crc16 g es (promote_all g 0 es tracked_start).0)
  unfolding compress
  same = ap (λ p. packed_with crc16 g es p.0) (same_types g start es form)

  -- If the entries of the map are as the writers of a hunk leave them, with consecutive stored data
  -- from an offset `start` above 0 on and references below 2 ^ 32, and the reader yields the symbols
  -- and then the fields that compress_v5_map writes, then decompress_v5_map gives exactly these
  -- entries back where the CRC in the header is theirs, and a decompression error where it is not.
  pub expand-compress :
      (mapcrc : ℕ)
      → expand reader crc16 g
          (compress crc16 g es).widths
          (length es)
          (compress crc16 g es).firstoffs
          mapcrc
          b
        ≡ (if crc16 es == mapcrc then ok es else err (chd decompression_error))
  unfolding expand
  expand-compress mapcrc =
      let p = promote_all g 0 es tracked_start in
      let small : IsSmall p.1 =
        promote_all-IsSmall g 0 start es tracked_start form
          record { self = omega arith; parent = omega arith; complen = omega arith } in
      let first =
        decode_types-rle reader p.0 b m (promote_all-IsType g 0 start es tracked_start form)
          (subst (λ q. Yields reader b q.symbols m) same types) in
      let f : ℕ = first_offset 0 p.0 es in
      let d : Cursor = record { curoffset = f; last_self = 0; last_parent = 0 } in
      let second =
        decode_entries-all reader g p.1 es 0 tracked_start d m b'
          (first_offset-WellFormed g 0 start es tracked_start pos form) refl refl
          record { self = omega arith; parent = omega arith; complen = omega arith } small
          (subst (λ q. YieldsFields reader m q.fields b') same fields) in
      rw (same, sym (promote_all-length g 0 es tracked_start), first, second) refl
