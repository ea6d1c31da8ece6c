-- ===== src/Chd/Metadata/Overwrite.antt =====
-- chd_file::write_metadata where the new data has room in the entry that is there.
use libchdman_rs.Prelude.{
  ℕ, ◌+◌, ◌≡◌, ◌≤◌, refl, ap, ◌∙◌, sym, List, [], ◌∷◌, ◌++◌, ◌⊎◌, inl, inr, length, slice,
  slice_split, slice-slice, arith,
}
use libchdman_rs.Bytes.{Buffer, put_u24be, put_u32be, put_u64be}
use libchdman_rs.Chd.Hunks.Disk.{
  write_over, length-write_over, slice-write_over, slice-write_over_other,
}
use libchdman_rs.Chd.Metadata.{raw_meta_header}
use libchdman_rs.Chd.Metadata.Chain.{Meta, Link, Linked, end_of, Link-moved, Linked-lower}

-- What the bytes `b` and `b'` hold outside the entry `e` is the same.
abbrev pub Apart : Meta → Buffer → Buffer → Type 0
Apart e b b' =
    (length b ≤ length b')
    × ((j n : ℕ)
        → j + n ≤ length b
        → (j + n ≤ e.place) ⊎ (end_of e ≤ j)
        → slice b' j n ≡ slice b j n)

Link-Apart :
    (b b' : Buffer) (lo off next : ℕ) (d e : Meta)
    → Apart e b b'
    → (end_of d ≤ e.place) ⊎ (end_of e ≤ off)
    → Link b lo off next d
    → Link b' lo off next d
Link-Apart b b' lo off next d e (longer, same) apart l =
    Link-moved b b' lo lo off next next d l l.behind l.next_fits
      (same off 16 (omega (arith, l.here, l.inside)) (ground (arith, l.here)) ∙ l.header)
      (same (off + 16) (length d.payload) (omega (arith, l.here, l.inside))
        (ground (arith, l.here)))
      (omega (arith, l.inside, longer))

Linked-Apart :
    (b b' : Buffer) (lo off : ℕ) (es : List Meta) (e : Meta)
    → Apart e b b'
    → end_of e ≤ lo
    → Linked b lo off es
    → Linked b' lo off es
Linked-Apart b b' lo off [] e same behind h = h
Linked-Apart b b' lo off (d ∷ es) e same behind (next, l, r) = (
  next,
  Link-Apart b b' lo off next d e same (inr (omega (arith, l.behind))) l,
  Linked-Apart b b' (end_of d) next es e same (omega (arith, l.here, l.behind)) r,
)

lower_place :
    (b : Buffer) (lo off : ℕ) (pre : List Meta) (e : Meta) (post : List Meta)
    → Linked b lo off (pre ++ (e ∷ post))
    → lo ≤ e.place
lower_place b lo off [] e post (next, l, r) = omega (arith, l.here, l.behind)
lower_place b lo off (d ∷ pre) e post (next, l, r) =
    omega (arith, l.here, l.behind, lower_place b (end_of d) next pre e post r)

-- One entry of the list is replaced by one that is no longer.
pub Linked-replace :
    (b b' : Buffer) (lo off : ℕ) (pre : List Meta) (e e' : Meta) (post : List Meta)
    → Apart e b b'
    → end_of e' ≤ end_of e
    → ((l o next : ℕ) → Link b l o next e → Link b' l o next e')
    → Linked b lo off (pre ++ (e ∷ post))
    → Linked b' lo off (pre ++ (e' ∷ post))
Linked-replace b b' lo off [] e e' post same shorter new (next, l, r) = (
  next,
  new lo off next l,
  Linked-lower b' (end_of e) (end_of e') next post shorter
      (Linked-Apart b b' (end_of e) next post e same (omega arith) r),
)
Linked-replace b b' lo off (d ∷ pre) e e' post same shorter new (next, l, r) = (
  next,
  Link-Apart b b' lo off next d e same (inl (lower_place b (end_of d) next pre e post r)) l,
  Linked-replace b b' (end_of d) next pre e e' post same shorter new r,
)

-- A header with another length.
relengthened :
    (b b' : Buffer) (off tag flags n n' next : ℕ)
    → slice b off 16 ≡ raw_meta_header tag flags n next
    → slice b' off 5 ≡ slice b off 5
    → slice b' (off + 5) 3 ≡ put_u24be n'
    → slice b' (off + 8) 8 ≡ slice b (off + 8) 8
    → slice b' off 16 ≡ raw_meta_header tag flags n' next
unfolding raw_meta_header put_u32be put_u24be put_u64be
relengthened b b' off tag flags n n' next old front middle back =
    let raw : Buffer = raw_meta_header tag flags n next in
    let front' : slice b' off 5 ≡ slice raw 0 5 =
      front
      ∙ sym (slice-slice b off 16 0 5 off (omega arith) (omega arith))
      ∙ ap (λ x. slice x 0 5) old in
    let back' : slice b' (off + 8) 8 ≡ slice raw 8 8 =
      back
      ∙ sym (slice-slice b off 16 8 8 (off + 8) (omega arith) refl)
      ∙ ap (λ x. slice x 8 8) old in
    slice_split b' off 8 8 (off + 8) 16 refl refl
    ∙ ap (λ x. x ++ slice b' (off + 8) 8)
        (slice_split b' off 5 3 (off + 5) 8 refl refl
          ∙ ap (λ x. x ++ slice b' (off + 5) 3) front'
          ∙ ap (λ x. slice raw 0 5 ++ x) middle)
    ∙ ap (λ x. (slice raw 0 5 ++ put_u24be n') ++ x) back'

-- The entry with other data.
abbrev pub refilled : Meta → Buffer → Meta
refilled e inputbuf = record e { payload = inputbuf }

-- The bytes behind the first write of overwrite_entry, and behind both.
abbrev pub data_over : Buffer → Meta → Buffer → Buffer
data_over b e inputbuf = write_over b (e.place + 16) inputbuf

abbrev pub length_over : Buffer → Meta → Buffer → Buffer
length_over b e inputbuf =
    write_over (data_over b e inputbuf) (e.place + 5) (put_u24be (length inputbuf))

pub data_over-Apart :
    (b : Buffer) (e : Meta) (inputbuf : Buffer)
    → length inputbuf ≤ length e.payload
    → Apart e b (data_over b e inputbuf)
data_over-Apart b e inputbuf fit = (
  length-write_over b (e.place + 16) inputbuf (length b) (omega arith),
  λ j n inside apart.
      slice-write_over_other b (e.place + 16) inputbuf j n (ground (arith, fit)) inside,
)

pub length_over-Apart :
    (b : Buffer) (e : Meta) (inputbuf : Buffer)
    → length inputbuf ≤ length e.payload
    → Apart e b (length_over b e inputbuf)
unfolding put_u24be
length_over-Apart b e inputbuf fit =
    let (longer, same) = data_over-Apart b e inputbuf fit in
    (
      length-write_over (data_over b e inputbuf) (e.place + 5) (put_u24be (length inputbuf))
          (length b) longer,
      λ j n inside apart.
          slice-write_over_other (data_over b e inputbuf) (e.place + 5)
            (put_u24be (length inputbuf)) j n (ground arith) (omega (arith, longer))
          ∙ same j n inside apart,
    )

pub data_over-Link :
    (b : Buffer) (e : Meta) (inputbuf : Buffer) (l o next : ℕ)
    → length inputbuf ≡ length e.payload
    → Link b l o next e
    → Link (data_over b e inputbuf) l o next (refilled e inputbuf)
data_over-Link b e inputbuf l o next same k = record {
  here = k.here;
  behind = k.behind;
  some_ = k.some_;
  off_fits = omega (arith, same, k.off_fits);
  tag_fits = k.tag_fits;
  flags_fits = k.flags_fits;
  length_fits = omega (arith, same, k.length_fits);
  next_fits = k.next_fits;
  header =
      slice-write_over_other b (e.place + 16) inputbuf o 16 (inl (omega (arith, k.here)))
        (omega (arith, k.here, k.inside))
      ∙ k.header
      ∙ ap (λ n. raw_meta_header e.metatag e.flags n next) (sym same);
  held =
      ap (λ p. slice (data_over b e inputbuf) (p + 16) (length inputbuf)) k.here
      ∙ slice-write_over b (e.place + 16) inputbuf;
  inside =
      length-write_over b (e.place + 16) inputbuf (end_of (refilled e inputbuf))
        (omega (arith, same, k.inside));
}

pub length_over-Link :
    (b : Buffer) (e : Meta) (inputbuf : Buffer) (l o next : ℕ)
    → length inputbuf ≤ length e.payload
    → Link b l o next e
    → Link (length_over b e inputbuf) l o next (refilled e inputbuf)
unfolding put_u24be
length_over-Link b e inputbuf l o next fit k =
    let c : Buffer = data_over b e inputbuf in
    let longer : length b ≤ length c =
      length-write_over b (e.place + 16) inputbuf (length b) (omega arith) in
    let lower : (j n : ℕ)
        → (j + n ≤ e.place + 5) ⊎ (e.place + 8 ≤ j)
        → j + n ≤ e.place + 16
        → slice (length_over b e inputbuf) j n ≡ slice b j n =
      λ j n apart front.
        slice-write_over_other c (e.place + 5) (put_u24be (length inputbuf)) j n (ground arith)
          (omega (arith, longer, k.inside))
        ∙ slice-write_over_other b (e.place + 16) inputbuf j n (inl front)
            (omega (arith, k.inside)) in
    record {
      here = k.here;
      behind = k.behind;
      some_ = k.some_;
      off_fits = omega (arith, fit, k.off_fits);
      tag_fits = k.tag_fits;
      flags_fits = k.flags_fits;
      length_fits = omega (arith, fit, k.length_fits);
      next_fits = k.next_fits;
      header =
          relengthened b (length_over b e inputbuf) o e.metatag e.flags (length e.payload)
            (length inputbuf) next k.header
            (lower o 5 (inl (omega (arith, k.here))) (omega (arith, k.here)))
            (ap (λ p. slice (length_over b e inputbuf) (p + 5) 3) k.here
              ∙ slice-write_over c (e.place + 5) (put_u24be (length inputbuf)))
            (lower (o + 8) 8 (inr (omega (arith, k.here))) (omega (arith, k.here)));
      held =
          ap (λ p. slice (length_over b e inputbuf) (p + 16) (length inputbuf)) k.here
          ∙ slice-write_over_other c (e.place + 5) (put_u24be (length inputbuf)) (e.place + 16)
              (length inputbuf) (inr (omega arith)) (omega (arith, longer, fit, k.inside, k.here))
          ∙ slice-write_over b (e.place + 16) inputbuf;
      inside =
          length-write_over c (e.place + 5) (put_u24be (length inputbuf))
            (end_of (refilled e inputbuf)) (omega (arith, fit, longer, k.inside));
    }
