-- ===== src/Chd/Metadata/Relink.antt =====
-- chd_file::metadata_set_previous_next: the list behind an entry is replaced.
use libchdman_rs.Prelude.{
  ℕ, ◌+◌, ◌^◌, ◌≡◌, ◌<◌, ◌≤◌, refl, ap, ◌∙◌, sym, true, false, not, ◌||◌, none, some, List, [], ◌∷◌,
  ◌++◌, inl, inr, ltb, ◌==◌, length, slice, take, drop, slice_split, take-take, arith,
}
use mathlib.Core.Path.{subst}
use libchdman_rs.Bytes.{Buffer, put_u24be, put_u32be, put_u64be}
use libchdman_rs.Chd.Hunks.{Device, File, u64, compressed, file_write}
use libchdman_rs.Chd.Hunks.Disk.{
  Disk, write_over, length-write_over, length-write_over_inside, slice-write_over,
  slice-write_over_other, file_write-write_over,
}
use libchdman_rs.Chd.Metadata.{raw_meta_header, metadata_set_previous_next}
use libchdman_rs.Chd.Metadata.Chain.{
  Meta, Linked, end_of, last_place, Link-moved, Link-write_over, Linked-write_over,
}

-- A header with another next entry.
relinked :
    (b b' : Buffer) (off tag flags n next next' : ℕ)
    → slice b off 16 ≡ raw_meta_header tag flags n next
    → slice b' off 8 ≡ slice b off 8
    → slice b' (off + 8) 8 ≡ put_u64be next'
    → slice b' off 16 ≡ raw_meta_header tag flags n next'
unfolding raw_meta_header put_u32be put_u24be put_u64be
relinked b b' off tag flags n next next' old front back =
    slice_split b' off 8 8 (off + 8) 16 refl refl
    ∙ ap (λ x. x ++ slice b' (off + 8) 8)
        (front ∙ sym (take-take 8 16 (drop off b) (omega arith)) ∙ ap (take 8) old)
    ∙ ap (λ x. take 8 (raw_meta_header tag flags n next) ++ x) back

-- Where the data of the last entry ends; `lo` where there is no entry.
abbrev pub last_end : ℕ → List Meta → ℕ
last_end lo [] = lo
last_end lo (e ∷ es) = last_end (end_of e) es

pub last_place_bounds :
    (b : Buffer) (lo off : ℕ) (e : Meta) (pre es : List Meta)
    → Linked b lo off (e ∷ pre ++ es)
    → (lo ≤ last_place e.place pre)
      × (last_place e.place pre + 16 ≤ length b)
      × (0 < last_place e.place pre)
      × (last_place e.place pre < 2 ^ 63)
      × (last_place e.place pre + 16 ≤ last_end (end_of e) pre)
last_place_bounds b lo off e [] es (next, l, r) =
    ground (arith, l.here, l.behind, l.inside, l.some_, l.off_fits)
last_place_bounds b lo off e (d ∷ pre) es (next, l, r) =
    let later = last_place_bounds b (end_of e) next d pre es r in
    (omega (arith, l.here, l.behind, later.0), later.1, later.2, later.3, later.4)

-- The link of the last entry in front is set to `new`, where another list begins.
pub Linked-relink :
    (b : Buffer) (lo off new : ℕ) (e : Meta) (pre es es' : List Meta)
    → new < 2 ^ 64
    → Linked b lo off (e ∷ pre ++ es)
    → Linked b (last_end (end_of e) pre) new es'
    → Linked (write_over b (last_place e.place pre + 8) (put_u64be new)) lo off (e ∷ pre ++ es')
unfolding put_u64be
Linked-relink b lo off new e [] es es' fits (next, l, r) h =
    let b' : Buffer = write_over b (e.place + 8) (put_u64be new) in
    (
      new,
      Link-moved b b' lo lo off next new e l l.behind fits
          (relinked b b' off e.metatag e.flags (length e.payload) next new l.header
            (slice-write_over_other b (e.place + 8) (put_u64be new) off 8
              (inl (omega (arith, l.here))) (omega (arith, l.here, l.inside)))
            (ap (λ o. slice b' (o + 8) 8) l.here
              ∙ slice-write_over b (e.place + 8) (put_u64be new)))
          (slice-write_over_other b (e.place + 8) (put_u64be new) (off + 16) (length e.payload)
            (inr (omega (arith, l.here))) (omega (arith, l.here, l.inside)))
          (length-write_over b (e.place + 8) (put_u64be new) (end_of e) l.inside),
      Linked-write_over b (end_of e) new es' (e.place + 8) (put_u64be new) (inl (omega arith)) h,
    )
Linked-relink b lo off new e (d ∷ pre) es es' fits (next, l, r) h =
    let later = last_place_bounds b (end_of e) next d pre es r in
    (
      next,
      Link-write_over b lo off next e (last_place d.place pre + 8) (put_u64be new)
          (inr (omega (arith, later.0))) l,
      Linked-relink b (end_of e) next new d pre es es' fits r h,
    )

-- The list behind its first entries.
pub Linked-tail :
    (b : Buffer) (lo off : ℕ) (pre es : List Meta)
    → Linked b lo off (pre ++ es)
    → (next : ℕ) × Linked b (last_end lo pre) next es
Linked-tail b lo off [] es h = (off, h)
Linked-tail b lo off (e ∷ pre) es (next, l, r) = Linked-tail b (end_of e) next pre es r

module _ {S : Type 0} (device : Device S) (contents : S → Buffer) (disk : Disk device contents)
    (lo : ℕ) where
  -- The open file holds the list of entries, behind the header of `lo` bytes, and no hash over the
  -- metadata has to be kept.
  pub record Stored (f : File S) (s : S) (es : List Meta) : Type 0 where
    pub opened : f.m_file ≡ some s
    pub list : Linked (contents s) lo f.m_places.m_metaoffset es
    pub positive : 0 < lo
    pub pointer : f.m_places.m_metaoffset_offset + 8 ≤ lo
    pub header : lo ≤ length (contents s)
    pub unhashed : ltb f.m_version 4 || not (compressed f) ≡ true

  -- The entries behind `pre` become the list that begins at `new`.
  pub set_previous_next-Stored :
      (f : File S) (s : S) (pre es es' : List Meta) (new : ℕ)
      → Stored f s (pre ++ es)
      → new < 2 ^ 64
      → Linked (contents s) (last_end lo pre) new es'
      → (g : File S) × (t : S) × (metadata_set_previous_next device f (last_place 0 pre) new
          ≡ (none, g))
        × Stored g t (pre ++ es')
        × (length (contents t) ≡ length (contents s))
  unfolding metadata_set_previous_next put_u64be
  set_previous_next-Stored f s [] es es' new h fits l =
      let f' : File S = record f { m_places = record f.m_places { m_metaoffset = new } } in
      let (t, e, c) =
        file_write-write_over device contents disk f' s h.opened f.m_places.m_metaoffset_offset
          (put_u64be new) (omega (arith, h.pointer, h.header)) in
      let grown : length (contents t) ≡ length (contents s) =
        ap length c
        ∙ length-write_over_inside (contents s) f.m_places.m_metaoffset_offset (put_u64be new)
            (omega (arith, h.pointer, h.header)) in
      (
        record f' { m_file = some t },
        t,
        e,
        record {
          opened = refl;
          list =
              subst (λ b. Linked b lo new es') (sym c)
                (Linked-write_over (contents s) lo new es' f.m_places.m_metaoffset_offset
                  (put_u64be new) (inl h.pointer) l);
          positive = h.positive;
          pointer = h.pointer;
          header = omega (arith, h.header, grown);
          unhashed = h.unhashed;
        },
        grown,
      )
  set_previous_next-Stored f s (d ∷ pre) es es' new h fits l =
      let bounds = last_place_bounds (contents s) lo f.m_places.m_metaoffset d pre es h.list in
      let p : ℕ = last_place d.place pre in
      let somewhere : (p == 0) ≡ false = ground (arith, bounds.2) in
      let exact : u64 (p + 8) ≡ p + 8 = omega (arith, bounds.3) in
      let (t, e, c) =
        file_write-write_over device contents disk f s h.opened (p + 8) (put_u64be new)
          (omega (arith, bounds.1)) in
      let grown : length (contents t) ≡ length (contents s) =
        ap length c
        ∙ length-write_over_inside (contents s) (p + 8) (put_u64be new) (omega (arith, bounds.1)) in
      (
        record f { m_file = some t },
        t,
        rw somewhere (ap (λ o. file_write device f o (put_u64be new)) exact ∙ e),
        record {
          opened = refl;
          list =
              subst (λ b. Linked b lo f.m_places.m_metaoffset (d ∷ pre ++ es')) (sym c)
                (Linked-relink (contents s) lo f.m_places.m_metaoffset new d pre es es' fits h.list
                  l);
          positive = h.positive;
          pointer = h.pointer;
          header = omega (arith, h.header, grown);
          unhashed = h.unhashed;
        },
        grown,
      )
