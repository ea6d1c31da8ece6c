-- ===== src/Chd/Metadata/Chain.antt =====
-- The list of metadata entries that a file holds, and what a write elsewhere leaves of it.
use native.Mathlib.Nat.{mod-eq_of_lt}
use libchdman_rs.Prelude.{
  ℕ, ◌+◌, ◌^◌, ◌≡◌, ◌<◌, ◌≤◌, refl, ◌∙◌, List, [], ◌∷◌, ◌++◌, ◌⊎◌, length, slice, arith,
}
use libchdman_rs.Bytes.{Buffer, put_u24be, put_u32be, put_u64be}
use libchdman_rs.Bytes.Laws.{get_u24be-put_u24be, get_u32be-put_u32be, get_u64be-put_u64be}
use libchdman_rs.Chd.Hunks.Disk.{write_over, length-write_over, slice-write_over_other}
use libchdman_rs.Chd.Metadata.{MetadataEntry, extract, raw_meta_header}

-- An entry of the list: where it stands, its tag, flags and data.
pub record Meta : Type 0 where
  pub place : ℕ
  pub metatag : ℕ
  pub flags : ℕ
  pub payload : Buffer

-- Where the next entry may begin.
abbrev pub end_of : Meta → ℕ
end_of e = e.place + 16 + length e.payload

-- At offset `off`, not before `lo`, the bytes `b` hold the entry `e`, whose next entry is at `next`.
pub record Link (b : Buffer) (lo off next : ℕ) (e : Meta) : Type 0 where
  pub here : off ≡ e.place
  pub behind : lo ≤ off
  pub some_ : 0 < off
  pub off_fits : end_of e < 2 ^ 63
  pub tag_fits : e.metatag < 2 ^ 32
  pub flags_fits : e.flags < 2 ^ 8
  pub length_fits : length e.payload < 2 ^ 24
  pub next_fits : next < 2 ^ 64
  pub header : slice b off 16 ≡ raw_meta_header e.metatag e.flags (length e.payload) next
  pub held : slice b (off + 16) (length e.payload) ≡ e.payload
  pub inside : end_of e ≤ length b

-- From `off` on, not before `lo`, the bytes `b` hold the list of entries, in the order of their places.
abbrev pub Linked : Buffer → ℕ → ℕ → List Meta → Type 0
Linked b lo off [] = off ≡ 0
Linked b lo off (e ∷ es) = (next : ℕ) × Link b lo off next e × Linked b (end_of e) next es

-- The place of the first entry, and of the last one; 0 where there is none.
abbrev pub first_place : List Meta → ℕ
first_place [] = 0
first_place (e ∷ es) = e.place

abbrev pub last_place : ℕ → List Meta → ℕ
last_place p [] = p
last_place p (e ∷ es) = last_place e.place es

pub Linked-first :
    (b : Buffer) (lo off : ℕ) (es : List Meta) → Linked b lo off es → off ≡ first_place es
Linked-first b lo off [] h = h
Linked-first b lo off (e ∷ es) (next, l, r) = l.here

-- An entry whose data is as it was, with a header that may name another next entry.
pub Link-moved :
    (b b' : Buffer) (lo lo' off next next' : ℕ) (e : Meta)
    → Link b lo off next e
    → lo' ≤ off
    → next' < 2 ^ 64
    → slice b' off 16 ≡ raw_meta_header e.metatag e.flags (length e.payload) next'
    → slice b' (off + 16) (length e.payload) ≡ slice b (off + 16) (length e.payload)
    → end_of e ≤ length b'
    → Link b' lo' off next' e
Link-moved b b' lo lo' off next next' e l le fits header same inside = record {
  here = l.here;
  behind = le;
  some_ = l.some_;
  off_fits = l.off_fits;
  tag_fits = l.tag_fits;
  flags_fits = l.flags_fits;
  length_fits = l.length_fits;
  next_fits = fits;
  header = header;
  held = same ∙ l.held;
  inside = inside;
}

pub Linked-lower :
    (b : Buffer) (lo lo' off : ℕ) (es : List Meta)
    → lo' ≤ lo
    → Linked b lo off es
    → Linked b lo' off es
Linked-lower b lo lo' off [] le h = h
Linked-lower b lo lo' off (e ∷ es) le (next, l, r) = (
  next,
  Link-moved b b lo lo' off next next e l (omega (arith, l.behind)) l.next_fits l.header refl
      l.inside,
  r,
)

-- A write of `ys` at `o`, apart from the entry, leaves the entry.
pub Link-write_over :
    (b : Buffer) (lo off next : ℕ) (e : Meta) (o : ℕ) (ys : Buffer)
    → (o + length ys ≤ off) ⊎ (end_of e ≤ o)
    → Link b lo off next e
    → Link (write_over b o ys) lo off next e
Link-write_over b lo off next e o ys apart l =
    Link-moved b (write_over b o ys) lo lo off next next e l l.behind l.next_fits
      (slice-write_over_other b o ys off 16 (ground (arith, l.here))
          (omega (arith, l.here, l.inside))
        ∙ l.header)
      (slice-write_over_other b o ys (off + 16) (length e.payload) (ground (arith, l.here))
        (omega (arith, l.here, l.inside)))
      (length-write_over b o ys (end_of e) l.inside)

-- A write of `ys` at `o`, before the list or behind the end of the bytes, leaves the list.
pub Linked-write_over :
    (b : Buffer) (lo off : ℕ) (es : List Meta) (o : ℕ) (ys : Buffer)
    → (o + length ys ≤ lo) ⊎ (length b ≤ o)
    → Linked b lo off es
    → Linked (write_over b o ys) lo off es
Linked-write_over b lo off [] o ys apart h = h
Linked-write_over b lo off (e ∷ es) o ys apart (next, l, r) = (
  next,
  Link-write_over b lo off next e o ys (ground (arith, l.behind, l.inside)) l,
  Linked-write_over b (end_of e) next es o ys (ground (arith, l.here, l.behind)) r,
)

-- What metadata_find takes from the header of an entry.
pub extract_lem :
    (metatag flags inputlen next : ℕ) (m : MetadataEntry)
    → metatag < 2 ^ 32
    → inputlen < 2 ^ 24
    → next < 2 ^ 64
    → extract (raw_meta_header metatag flags inputlen next) m
      ≡ record m { metatag = metatag; flags = flags; length = inputlen; next = next }
unfolding extract raw_meta_header put_u32be put_u24be put_u64be
extract_lem metatag flags inputlen next m ht hl hn =
    let rest = flags ∷ (put_u24be inputlen ++ put_u64be next) in
    let tag_eq = get_u32be-put_u32be metatag rest ∙ mod-eq_of_lt ht in
    let len_eq = get_u24be-put_u24be inputlen (put_u64be next) ∙ mod-eq_of_lt hl in
    let next_eq = get_u64be-put_u64be next [] ∙ mod-eq_of_lt hn in rw (tag_eq, len_eq, next_eq) refl
