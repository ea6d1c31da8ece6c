-- ===== src/Chd/Metadata/Additions.antt =====
-- The end of chd_file::write_metadata: a new entry at the end of the file, to which the entry before it
-- points.
use mathlib.Core.Path.{subst}
use libchdman_rs.Prelude.{
  ℕ, ◌+◌, ◌^◌, ◌≡◌, ◌<◌, ◌≤◌, refl, ap, ◌∙◌, sym, true, not, ◌||◌, none, some, List, [], ◌∷◌, ◌++◌,
  inr, ltb, length, length-append, slice-append_back, slice-append_front, take_all, arith,
}
use libchdman_rs.Bytes.{Buffer, put_u24be, put_u32be, put_u64be}
use libchdman_rs.Errors.{Status, Result, ok, err}
use libchdman_rs.Chd.Hunks.{Device, File, Run, returns, compressed, file_append}
use libchdman_rs.Chd.Hunks.Disk.{Disk, write_over_end, file_append-append}
use libchdman_rs.Chd.Metadata.{raw_meta_header, metadata_set_previous_next}
use libchdman_rs.Chd.Metadata.Chain.{Meta, Linked, end_of, last_place, Linked-write_over}
use libchdman_rs.Chd.Metadata.Relink.{last_end, Stored, set_previous_next-Stored}
use libchdman_rs.Chd.Metadata.Writing.{Hashes, append_entry, metadata_update_hash}

module _ {S : Type 0} (device : Device S) (contents : S → Buffer) (disk : Disk device contents)
    (lo : ℕ) where
  -- A new entry behind the end of the file.
  abbrev pub new_entry : S → ℕ → ℕ → Buffer → Meta
  new_entry s metatag flags inputbuf = record {
    place = length (contents s);
    metatag = metatag;
    flags = flags;
    payload = inputbuf;
  }

  last_end-le :
      (b : Buffer) (l off : ℕ) (pre es : List Meta)
      → l ≤ length b
      → Linked b l off (pre ++ es)
      → last_end l pre ≤ length b
  last_end-le b l off [] es le h = le
  last_end-le b l off (e ∷ pre) es le (next, k, r) = last_end-le b (end_of e) next pre es k.inside r

  -- Bytes behind the end leave the list.
  Linked-append :
      (b : Buffer) (l off : ℕ) (es : List Meta) (ys : Buffer)
      → Linked b l off es
      → Linked (b ++ ys) l off es
  Linked-append b l off es ys h =
      subst (λ c. Linked c l off es) (write_over_end b ys)
        (Linked-write_over b l off es (length b) ys (inr (omega arith)) h)

  -- The new entry as a list of its own.
  new_entry-Linked :
      (b : Buffer) (l metatag flags : ℕ) (inputbuf : Buffer)
      → 0 < length b
      → l ≤ length b
      → length b + 16 + length inputbuf < 2 ^ 63
      → metatag < 2 ^ 32
      → flags < 2 ^ 8
      → length inputbuf < 2 ^ 24
      → Linked
          ((b ++ raw_meta_header metatag flags (length inputbuf) 0) ++ inputbuf)
          l
          (length b)
          (record { place = length b; metatag = metatag; flags = flags; payload = inputbuf } ∷ [])
  unfolding raw_meta_header put_u32be put_u24be put_u64be
  new_entry-Linked b l metatag flags inputbuf pos le fit ht hf hl =
      let raw : Buffer = raw_meta_header metatag flags (length inputbuf) 0 in
      (
        0,
        record {
          here = refl;
          behind = le;
          some_ = pos;
          off_fits = fit;
          tag_fits = ht;
          flags_fits = hf;
          length_fits = hl;
          next_fits = omega arith;
          header =
              slice-append_front (b ++ raw) inputbuf (length b) 16
                (omega (arith, length-append b raw))
              ∙ slice-append_back b raw 0 (length b) 16 (omega arith);
          held =
              slice-append_back (b ++ raw) inputbuf 0 (length b + 16) (length inputbuf)
                (omega (arith, length-append b raw))
              ∙ take_all (length inputbuf) inputbuf (omega arith);
          inside = omega (arith, length-append b raw, length-append (b ++ raw) inputbuf);
        },
        refl,
      )

-- append_entry where no step fails and no hash over the metadata has to be kept.
append_done :
    {S : Type 0}
    → (device : Device S) (hashes : Hashes) (fuel : ℕ) (f g1 g2 g : File S)
      (prev metatag flags offset n : ℕ) (inputbuf : Buffer)
    → file_append device f (raw_meta_header metatag flags (length inputbuf) 0) 0 ≡ (ok offset, g1)
    → file_append device g1 inputbuf 0 ≡ (ok n, g2)
    → metadata_set_previous_next device g2 prev offset ≡ (none, g)
    → ltb g.m_version 4 || not (compressed g) ≡ true
    → append_entry device hashes fuel f prev metatag flags inputbuf ≡ returns (none, g)
unfolding append_entry metadata_update_hash
append_done {S = S} device hashes fuel f g1 g2 g prev metatag flags offset n inputbuf header body
      linked unhashed =
    ap
      (λ r. elim r.0 [
        | err x ↦ returns (some x, r.1)
        | ok o ↦ with_body o (file_append device r.1 inputbuf 0)
      ])
      header
    ∙ ap (with_body offset) body
    ∙ ap with_link linked
    ∙ rw unhashed refl
  where
    with_link : Status × File S → Run (Status × File S)
    with_link r = elim r.0 [
      | some x ↦ returns (some x, r.1)
      | none ↦ metadata_update_hash device hashes fuel r.1
    ]

    with_body : ℕ → Result ℕ × File S → Run (Status × File S)
    with_body o r = elim r.0 [
      | err x ↦ returns (some x, r.1)
      | ok _ ↦ with_link (metadata_set_previous_next device r.1 prev o)
    ]

module _ {S : Type 0} (device : Device S) (contents : S → Buffer) (disk : Disk device contents)
    (lo : ℕ) (hashes : Hashes) where
  -- The entries behind `pre` make room for the new entry.
  pub append_entry-Stored :
      (f : File S) (s : S) (pre es : List Meta) (fuel metatag flags : ℕ) (inputbuf : Buffer)
      → Stored device contents disk lo f s (pre ++ es)
      → length (contents s) + 16 + length inputbuf < 2 ^ 63
      → metatag < 2 ^ 32
      → flags < 2 ^ 8
      → length inputbuf < 2 ^ 24
      → (g : File S) × (t : S) × (append_entry device hashes fuel f
            (last_place 0 pre)
            metatag
            flags
            inputbuf
          ≡ returns (none, g))
        × Stored device contents disk lo g t (
            pre
            ++ (record {
              place = length (contents s);
              metatag = metatag;
              flags = flags;
              payload = inputbuf;
            }
                ∷ []))
  append_entry-Stored f s pre es fuel metatag flags inputbuf h fit ht hf hl =
      let b : Buffer = contents s in
      let raw : Buffer = raw_meta_header metatag flags (length inputbuf) 0 in
      let (t1, e1, c1) = file_append-append device contents disk f s h.opened raw in
      let g1 : File S = record f { m_file = some t1 } in
      let (t2, e2, c2) = file_append-append device contents disk g1 t1 refl inputbuf in
      let g2 : File S = record f { m_file = some t2 } in
      let c : contents t2 ≡ (b ++ raw) ++ inputbuf = c2 ∙ ap (λ x. x ++ inputbuf) c1 in
      let kept : Linked (contents t2) lo f.m_places.m_metaoffset (pre ++ es) =
        subst (λ x. Linked x lo f.m_places.m_metaoffset (pre ++ es)) (sym c)
          (Linked-append device contents disk lo (b ++ raw) lo _ (pre ++ es) inputbuf
            (Linked-append device contents disk lo b lo _ (pre ++ es) raw h.list)) in
      let stored : Stored device contents disk lo g2 t2 (pre ++ es) = record {
        opened = refl;
        list = kept;
        positive = h.positive;
        pointer = h.pointer;
        header =
            omega (
              arith,
              h.header,
              ap length c,
              length-append b raw,
              length-append (b ++ raw) inputbuf,
            );
        unhashed = h.unhashed;
      } in
      let added =
        subst
          (λ x.
            Linked x (last_end lo pre) (length b)
              (new_entry device contents disk lo s metatag flags inputbuf ∷ []))
          (sym c)
          (new_entry-Linked device contents disk lo b (last_end lo pre) metatag flags inputbuf
            (omega (arith, h.positive, h.header))
            (last_end-le device contents disk lo b lo _ pre es h.header h.list) fit ht hf hl) in
      let (g, t, e, result, _) =
        set_previous_next-Stored device contents disk lo g2 t2 pre es
          (new_entry device contents disk lo s metatag flags inputbuf ∷ []) (length b) stored
          (omega (arith, fit)) added in
      (
        g,
        t,
        append_done device hashes fuel f g1 g2 g (last_place 0 pre) metatag flags _ _ inputbuf e1 e2
            e result.unhashed,
        result,
      )
