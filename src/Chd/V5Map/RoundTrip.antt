-- ===== src/Chd/V5Map/RoundTrip.antt =====
-- chd_file::compress_v5_map and decompress_v5_map: the whole map is read back.
use native.Mathlib.Nat.{pow-suc}
use libchdman_rs.Prelude.{
  ℕ, zero, suc, ◌+◌, ◌/◌, ◌^◌, ◌<◌, ◌≤◌, ◌≡◌, refl, ap, List, [], ◌∷◌, ◌++◌, inl, inr, ◌==◌,
  Bool-cases, length, arith,
}
use libchdman_rs.Chd.V5Map.{
  MapEntry, Geometry, Tracked, promote, promote_all, bits_loop, bits_for_value, Field, widths_for,
  entry_fields, all_fields, Reader, Cursor, decode_entries, promote_self, promote_parent,
}
use libchdman_rs.Chd.V5Map.Types.{All, IsType}
use libchdman_rs.Chd.V5Map.Fields.{
  IsEntry, next_offset, Suffices, YieldsFields, promote-Form, decode-Form,
}

-- A map whose stored data is consecutive from `cur` on.
abbrev pub WellFormed : Geometry → ℕ → List MapEntry → Type 0
WellFormed g cur [] = Unit
WellFormed g cur (e ∷ es) = IsEntry g cur e × WellFormed g (next_offset cur e) es

lt-bits_loop : (fuel v : ℕ) → v < 2 ^ fuel → v < 2 ^ bits_loop fuel v
unfolding bits_loop
lt-bits_loop zero v h = h
lt-bits_loop (suc fuel) v h = elim (Bool-cases (v == 0)) [
  | inl none ↦ rw (none, bits_loop) (ground arith)
  | inr some_ ↦
      let h' = rw pow-suc at h in
      let half = lt-bits_loop fuel (v / 2) (omega (arith, h')) in
      rw (some_, bits_loop, pow-suc) (omega (arith, half))
]

-- bits_for_value gives enough bits for all the numbers up to a 64-bit value.
pub lt-bits_for_value : (n v : ℕ) → v < 2 ^ 64 → n ≤ v → n < 2 ^ bits_for_value v
unfolding bits_for_value
lt-bits_for_value n v h le = omega (arith, lt-bits_loop 64 v h)

-- The maxima only grow, and they stay below 2 ^ 64.
pub record Grows (s t : Tracked) : Type 0 where
  pub self : s.max_self ≤ t.max_self
  pub parent : s.max_parent ≤ t.max_parent
  pub complen : s.max_complen ≤ t.max_complen

pub record IsSmall (s : Tracked) : Type 0 where
  pub self : s.max_self < 2 ^ 64
  pub parent : s.max_parent < 2 ^ 64
  pub complen : s.max_complen < 2 ^ 64

-- The maxima cover the entry.
record Covers (t : Tracked) (c : ℕ) (e : MapEntry) : Type 0 where
  complen : c < 4 → e.length ≤ t.max_complen
  self : c ≡ 5 → e.offset ≤ t.max_self
  parent : c ≡ 6 → e.offset ≤ t.max_parent

module _ (g : Geometry) (hunknum cur : ℕ) (e : MapEntry) (s : Tracked)
    (entry : IsEntry g cur e) where
  promote-Grows : Grows s (promote g hunknum e s).1
  unfolding promote promote_self promote_parent
  promote-Grows = ground arith

  promote-IsSmall : IsSmall s → IsSmall (promote g hunknum e s).1
  unfolding promote promote_self promote_parent
  promote-IsSmall h = ground (arith, entry.length_fits)

  promote-Covers : Covers (promote g hunknum e s).1 (promote g hunknum e s).0 e
  unfolding promote promote_self promote_parent
  promote-Covers = ground (arith, entry.kind, entry.refers)

Grows-trans : (s t r : Tracked) → Grows s t → Grows t r → Grows s r
Grows-trans s t r f h = record {
  self = omega (arith, f.self, h.self);
  parent = omega (arith, f.parent, h.parent);
  complen = omega (arith, f.complen, h.complen);
}

promote_all-Grows :
    (g : Geometry) (n cur : ℕ) (es : List MapEntry) (s : Tracked)
    → WellFormed g cur es
    → Grows s (promote_all g n es s).1
unfolding promote_all
promote_all-Grows g n cur [] s h = record {
  self = omega arith;
  parent = omega arith;
  complen = omega arith;
}
promote_all-Grows g n cur (e ∷ es) s h =
    Grows-trans s _ _ (promote-Grows g n cur e s h.0)
      (promote_all-Grows g (n + 1) (next_offset cur e) es (promote g n e s).1 h.1)

pub promote_all-IsSmall :
    (g : Geometry) (n cur : ℕ) (es : List MapEntry) (s : Tracked)
    → WellFormed g cur es
    → IsSmall s
    → IsSmall (promote_all g n es s).1
unfolding promote_all
promote_all-IsSmall g n cur [] s h small = small
promote_all-IsSmall g n cur (e ∷ es) s h small =
    promote_all-IsSmall g (n + 1) (next_offset cur e) es (promote g n e s).1 h.1
      (promote-IsSmall g n cur e s h.0 small)

pub promote_all-length :
    (g : Geometry) (n : ℕ) (es : List MapEntry) (s : Tracked)
    → length (promote_all g n es s).0 ≡ length es
unfolding promote_all
promote_all-length g n [] s = refl
promote_all-length g n (e ∷ es) s = ap suc (promote_all-length g (n + 1) es (promote g n e s).1)

promote-IsType :
    (g : Geometry) (n cur : ℕ) (e : MapEntry) (s : Tracked)
    → IsEntry g cur e
    → IsType (promote g n e s).0
unfolding promote promote_self promote_parent
promote-IsType g n cur e s h = (ground (arith, h.kind), ground (arith, h.kind))

pub promote_all-IsType :
    (g : Geometry) (n cur : ℕ) (es : List MapEntry) (s : Tracked)
    → WellFormed g cur es
    → All IsType (promote_all g n es s).0
unfolding promote_all
promote_all-IsType g n cur [] s h = tt
promote_all-IsType g n cur (e ∷ es) s h = (
  promote-IsType g n cur e s h.0,
  promote_all-IsType g (n + 1) (next_offset cur e) es (promote g n e s).1 h.1,
)

-- Widths that are taken from the final maxima are enough for each entry on the way.
Covers-Suffices :
    (s t : Tracked) (c : ℕ) (e : MapEntry)
    → Covers s c e
    → Grows s t
    → IsSmall t
    → Suffices (widths_for t) c e
unfolding widths_for
Covers-Suffices s t c e h grows small = (
  λ k.
      lt-bits_for_value e.length t.max_complen small.complen
        (omega (arith, h.complen k, grows.complen)),
  λ k. lt-bits_for_value e.offset t.max_self small.self (omega (arith, h.self k, grows.self)),
  λ k.
      lt-bits_for_value e.offset t.max_parent small.parent
        (omega (arith, h.parent k, grows.parent)),
)

module _ {B : Type 0} (reader : Reader B) where
  open reader use {read}

  YieldsFields-append :
      (b : B) (xs ys : List Field) (b' : B)
      → YieldsFields reader b (xs ++ ys) b'
      → (m : B) × YieldsFields reader b xs m × YieldsFields reader m ys b'
  YieldsFields-append b [] ys b' h = (b, refl, h)
  YieldsFields-append b ((v, n) ∷ xs) ys b' h =
      let (m, front, back) = YieldsFields-append (read n b).1 xs ys b' h.1 in
      (m, (h.0, front), back)

  -- The second loop gives the entries back.
  pub decode_entries-all :
      (g : Geometry) (t : Tracked) (es : List MapEntry) (n : ℕ) (s : Tracked) (d : Cursor) (b m : B)
      → WellFormed g d.curoffset es
      → d.last_self ≡ s.last_self
      → d.last_parent ≡ s.last_parent
      → Grows (promote_all g n es s).1 t
      → IsSmall t
      → YieldsFields reader b (all_fields (widths_for t) (promote_all g n es s).0 es) m
      → decode_entries reader g (widths_for t) n (promote_all g n es s).0 b d ≡ (es, m)
  unfolding promote_all all_fields decode_entries
  decode_entries-all g t [] n s d b m h p q grows small y = rw y
  decode_entries-all g t (e ∷ es) n s d b m h p q grows small y =
      let s' = (promote g n e s).1 in
      let c = (promote g n e s).0 in
      let now : Grows s' t = Grows-trans s' _ t (promote_all-Grows g (n + 1) _ es s' h.1) grows in
      let fit : Suffices (widths_for t) c e =
        Covers-Suffices s' t c e (promote-Covers g n d.curoffset e s h.0) now small in
      let (k, front, back) = YieldsFields-append b (entry_fields (widths_for t) c e) _ m y in
      let one =
        decode-Form reader g (widths_for t) n e s d b k h.0 p q c s'.last_self s'.last_parent
          (promote-Form g n d.curoffset e s h.0) fit front in
      let next : Cursor = record {
        curoffset = next_offset d.curoffset e;
        last_self = s'.last_self;
        last_parent = s'.last_parent;
      } in
      rw one (
        ap (λ r. (e ∷ r.0, r.1))
          (decode_entries-all g t es (n + 1) s' next k m h.1 refl refl grows small back))
