-- ===== src/Chd/Metadata/Written.antt =====
-- chd_file::write_metadata as an edit of the list of entries.
use mathlib.Core.Path.{subst}
use mathlib.Core.List.{append-nil}
use libchdman_rs.Prelude.{
  ℕ, ◌+◌, ◌*◌, ◌^◌, ◌≡◌, ◌<◌, ◌≤◌, refl, ap, ◌∙◌, sym, Bool, true, false, not, ◌||◌, Option, none,
  some, List, [], ◌∷◌, ◌++◌, inl, inr, if◌then◌else◌, ltb, leb, ◌==◌, ==_iff, Bool-cases, length,
  arith,
}
use libchdman_rs.Bytes.{Buffer, put_u24be}
use libchdman_rs.Errors.{Status, chd, value, generic, invalid_argument, metadata_not_found}
use libchdman_rs.Chd.Hunks.{Device, File, Run, returns, u64, compressed, file_write}
use libchdman_rs.Chd.Hunks.Disk.{Disk, write_over, file_write-write_over}
use libchdman_rs.Chd.Metadata.{MetadataEntry, no_entry, metadata_find, metadata_set_previous_next}
use libchdman_rs.Chd.Metadata.Chain.{
  Meta, Linked, end_of, first_place, last_place, Linked-first, Linked-lower,
}
use libchdman_rs.Chd.Metadata.Search.{Place, locate, as_entry, metadata_find-Finds}
use libchdman_rs.Chd.Metadata.Relink.{last_end, Linked-tail, Stored, set_previous_next-Stored}
use libchdman_rs.Chd.Metadata.Edits.{place_cases, locate-Parts}
use libchdman_rs.Chd.Metadata.Additions.{append_entry-Stored}
use libchdman_rs.Chd.Metadata.Overwrite.{
  refilled, data_over, length_over, data_over-Apart, length_over-Apart, data_over-Link,
  length_over-Link, Linked-replace,
}
use libchdman_rs.Chd.Metadata.Writing.{
  Hashes, overwrite_entry, append_entry, metadata_update_hash, write_metadata,
}

module _ {S : Type 0} (device : Device S) (hashes : Hashes) (fuel : ℕ) where
  -- overwrite_entry where no write fails and no hash over the metadata has to be kept.
  abbrev overwrite_rest : MetadataEntry → Buffer → Status × File S → Run (Status × File S)
  overwrite_rest m inputbuf r =
      let (e', h) = file_write device r.1 (u64 (m.offset + 5)) (put_u24be (length inputbuf)) in
      elim r.0 [
        | some x ↦ returns (some x, r.1)
        | none ↦
            if length inputbuf == m.length
            then metadata_update_hash device hashes fuel r.1
            else elim e' [
              | some x ↦ returns (some x, h)
              | none ↦ metadata_update_hash device hashes fuel h
            ]
      ]

  abbrev update : Status × File S → Run (Status × File S)
  update r = elim r.0 [
    | some x ↦ returns (some x, r.1)
    | none ↦ metadata_update_hash device hashes fuel r.1
  ]

  overwrite_same :
      (f g : File S) (m : MetadataEntry) (inputbuf : Buffer)
      → length inputbuf ≡ m.length
      → file_write device f (u64 (m.offset + 16)) inputbuf ≡ (none, g)
      → ltb g.m_version 4 || not (compressed g) ≡ true
      → overwrite_entry device hashes fuel f m inputbuf ≡ returns (none, g)
  unfolding overwrite_entry metadata_update_hash
  overwrite_same f g m inputbuf same data_written unhashed =
      ap (overwrite_rest m inputbuf) data_written ∙ rw ((==_iff _ _).1 same, unhashed) refl

  overwrite_shorter :
      (f g h : File S) (m : MetadataEntry) (inputbuf : Buffer)
      → (length inputbuf == m.length) ≡ false
      → file_write device f (u64 (m.offset + 16)) inputbuf ≡ (none, g)
      → file_write device g (u64 (m.offset + 5)) (put_u24be (length inputbuf)) ≡ (none, h)
      → ltb h.m_version 4 || not (compressed h) ≡ true
      → overwrite_entry device hashes fuel f m inputbuf ≡ returns (none, h)
  unfolding overwrite_entry metadata_update_hash
  overwrite_shorter f g h m inputbuf differ data_written length_written unhashed =
      let end : update (file_write device g (u64 (m.offset + 5)) (put_u24be (length inputbuf)))
          ≡ returns (none, h) =
        ap update length_written ∙ rw unhashed refl in
      let step : overwrite_rest m inputbuf (none, g) ≡ returns (none, h) = rw differ end in
      ap (overwrite_rest m inputbuf) data_written ∙ step

-- The list after write_metadata puts `new` at a place: in the room of the entry that is there, or as a
-- new entry behind the entries in front of it, the last of the list.
abbrev pub edited : Meta → List Meta → Option Place → List Meta
edited new es none = es ++ (new ∷ [])
edited new es (some (pre, e, post)) =
    if leb (length new.payload) (length e.payload)
    then pre ++ (refilled e new.payload ∷ post)
    else pre ++ (new ∷ [])

module _ {S : Type 0} (device : Device S) (contents : S → Buffer) (disk : Disk device contents)
    (lo : ℕ) where
  abbrev Leaves : Run (Status × File S) → List Meta → Type 0
  Leaves r es =
      (g : File S) × (t : S) × (r ≡ returns (none, g)) × Stored device contents disk lo g t es

  overwrite_entry-Leaves :
      (hashes : Hashes) (fuel : ℕ) (f : File S) (s : S) (pre : List Meta) (e : Meta)
      (post : List Meta) (inputbuf : Buffer)
      → Stored device contents disk lo f s (pre ++ (e ∷ post))
      → length inputbuf ≤ length e.payload
      → Leaves
          (overwrite_entry device hashes fuel f
            (as_entry (last_place 0 pre) e (first_place post))
            inputbuf)
          (pre ++ (refilled e inputbuf ∷ post))
  overwrite_entry-Leaves hashes fuel f s pre e post inputbuf h fit =
      let (off, (next, l, r)) =
        Linked-tail (contents s) lo f.m_places.m_metaoffset pre (e ∷ post) h.list in
      let m : MetadataEntry = as_entry (last_place 0 pre) e (first_place post) in
      let at_data : u64 (e.place + 16) ≡ e.place + 16 = omega (arith, l.off_fits) in
      let at_length : u64 (e.place + 5) ≡ e.place + 5 = omega (arith, l.off_fits) in
      let (t, w, c) =
        file_write-write_over device contents disk f s h.opened (e.place + 16) inputbuf
          (omega (arith, l.inside)) in
      let g : File S = record f { m_file = some t } in
      let first = data_over-Apart (contents s) e inputbuf fit in
      let (t', w', c') =
        file_write-write_over device contents disk g t refl (e.place + 5)
          (put_u24be (length inputbuf)) (omega (arith, l.inside, first.0, ap length c)) in
      let g' : File S = record f { m_file = some t' } in
      let both = length_over-Apart (contents s) e inputbuf fit in
      let held : contents t' ≡ length_over (contents s) e inputbuf =
        c' ∙ ap (λ b. write_over b (e.place + 5) (put_u24be (length inputbuf))) c in
      let wrote : file_write device f (u64 (e.place + 16)) inputbuf ≡ (none, g) =
        ap (λ o. file_write device f o inputbuf) at_data ∙ w in
      let wrote' : file_write device g (u64 (e.place + 5)) (put_u24be (length inputbuf))
          ≡ (none, g') =
        ap (λ o. file_write device g o (put_u24be (length inputbuf))) at_length ∙ w' in
      elim (Bool-cases (length inputbuf == length e.payload)) [
        | inl same ↦ (
          g,
          t,
          overwrite_same device hashes fuel f g m inputbuf ((==_iff _ _).0 same) wrote h.unhashed,
          record {
            opened = refl;
            list =
                subst
                  (λ b. Linked b lo f.m_places.m_metaoffset (pre ++ (refilled e inputbuf ∷ post)))
                  (sym c)
                  (Linked-replace (contents s) (data_over (contents s) e inputbuf) lo
                    f.m_places.m_metaoffset pre e (refilled e inputbuf) post first
                    (omega (arith, fit))
                    (λ k o n. data_over-Link (contents s) e inputbuf k o n ((==_iff _ _).0 same))
                    h.list);
            positive = h.positive;
            pointer = h.pointer;
            header = omega (arith, h.header, first.0, ap length c);
            unhashed = h.unhashed;
          },
        )
        | inr differ ↦ (
          g',
          t',
          overwrite_shorter device hashes fuel f g g' m inputbuf differ wrote wrote' h.unhashed,
          record {
            opened = refl;
            list =
                subst
                  (λ b. Linked b lo f.m_places.m_metaoffset (pre ++ (refilled e inputbuf ∷ post)))
                  (sym held)
                  (Linked-replace (contents s) (length_over (contents s) e inputbuf) lo
                    f.m_places.m_metaoffset pre e (refilled e inputbuf) post both
                    (omega (arith, fit))
                    (λ k o n. length_over-Link (contents s) e inputbuf k o n fit) h.list);
            positive = h.positive;
            pointer = h.pointer;
            header = omega (arith, h.header, both.0, ap length held);
            unhashed = h.unhashed;
          },
        )
      ]

-- The lengths of data that write_metadata takes.
abbrev pub bad_length : ℕ → Bool
bad_length inputlen = ltb inputlen 1 || leb (16 * 1024 * 1024) inputlen

valid-lt : (n : ℕ) → bad_length n ≡ false → n < 2 ^ 24
valid-lt n valid = ground (arith, valid)

module _ {S : Type 0} (device : Device S) (hashes : Hashes) (fuel : ℕ) (f : File S)
    (metatag index : ℕ) (inputbuf : Buffer) (flags : ℕ) (m : MetadataEntry)
    (valid : bad_length (length inputbuf) ≡ false) where
  write_absent :
      metadata_find device fuel f metatag index no_entry false
        ≡ returns (some (chd metadata_not_found), m)
      → write_metadata device hashes fuel f metatag index inputbuf flags
        ≡ append_entry device hashes fuel f m.prev metatag flags inputbuf
  unfolding write_metadata value
  write_absent found = rw (valid, write_metadata, found) refl

  write_fits :
      metadata_find device fuel f metatag index no_entry false ≡ returns (none, m)
      → leb (length inputbuf) m.length ≡ true
      → write_metadata device hashes fuel f metatag index inputbuf flags
        ≡ overwrite_entry device hashes fuel f m inputbuf
  unfolding write_metadata
  write_fits found fits = rw (valid, write_metadata, found, fits) refl

  write_grows :
      (g : File S)
      → metadata_find device fuel f metatag index no_entry false ≡ returns (none, m)
      → leb (length inputbuf) m.length ≡ false
      → metadata_set_previous_next device f m.prev m.next ≡ (none, g)
      → write_metadata device hashes fuel f metatag index inputbuf flags
        ≡ append_entry device hashes fuel g m.prev metatag flags inputbuf
  unfolding write_metadata
  write_grows g found grows unlinked =
      rw (valid, write_metadata, found, grows)
        (ap
          (λ (r : Status × File S). elim r.0 [
            | some x ↦ returns (some x, r.1)
            | none ↦ append_entry device hashes fuel r.1 m.prev metatag flags inputbuf
          ])
          unlinked)

module _ {S : Type 0} (device : Device S) (contents : S → Buffer) (disk : Disk device contents)
    (lo : ℕ) where
  -- What write_metadata gives: INVALID_ARGUMENT and the old file, or the file with the new list.
  abbrev pub Written : File S → Bool → List Meta → Run (Status × File S) → Type 0
  Written f true es r = r ≡ returns (some (generic invalid_argument), f)
  Written f false es r = Leaves device contents disk lo r es

  Leaves-≡ :
      (r r' : Run (Status × File S)) (es : List Meta)
      → r ≡ r'
      → Leaves device contents disk lo r' es
      → Leaves device contents disk lo r es
  Leaves-≡ r r' es same (g, t, e, h) = (g, t, same ∙ e, h)

  write_refused :
      (hashes : Hashes) (fuel : ℕ) (f : File S) (metatag index : ℕ) (inputbuf : Buffer) (flags : ℕ)
      → bad_length (length inputbuf) ≡ true
      → write_metadata device hashes fuel f metatag index inputbuf flags
        ≡ returns (some (generic invalid_argument), f)
  unfolding write_metadata
  write_refused hashes fuel f metatag index inputbuf flags bad = rw (bad, write_metadata) refl

  module _ (hashes : Hashes) (f : File S) (s : S) (fuel metatag index : ℕ) (inputbuf : Buffer)
      (flags : ℕ) (ht : metatag < 2 ^ 32) (small : index < 2 ^ 32) (hf : flags < 2 ^ 8)
      (room : length (contents s) + 16 + length inputbuf < 2 ^ 63) where
    abbrev new : Meta
    new = record {
      place = length (contents s);
      metatag = metatag;
      flags = flags;
      payload = inputbuf;
    }

    abbrev run : Run (Status × File S)
    run = write_metadata device hashes fuel f metatag index inputbuf flags

    -- No entry is there: the new one is the last of the list.
    run_absent :
        (es : List Meta) (m : MetadataEntry)
        → bad_length (length inputbuf) ≡ false
        → Stored device contents disk lo f s es
        → metadata_find device fuel f metatag index no_entry false
          ≡ returns (some (chd metadata_not_found), m)
        → m.prev ≡ last_place 0 es
        → Leaves device contents disk lo run (es ++ (new ∷ []))
    run_absent es m valid h found prev =
        let (g, t, e, stored) =
          append_entry-Stored device contents disk lo hashes f s es [] fuel metatag flags inputbuf
            (subst (Stored device contents disk lo f s) (sym (append-nil es)) h) room ht hf
            (valid-lt (length inputbuf) valid) in
        (
          g,
          t,
          write_absent device hashes fuel f metatag index inputbuf flags m valid found
              ∙ ap (λ p. append_entry device hashes fuel f p metatag flags inputbuf) prev
              ∙ e,
          stored,
        )

    -- The entry that is there has no room: it goes, the new one follows the entries in front of it, and
    -- is the last.
    run_grows :
        (pre : List Meta) (e : Meta) (post : List Meta)
        → bad_length (length inputbuf) ≡ false
        → Stored device contents disk lo f s (pre ++ (e ∷ post))
        → metadata_find device fuel f metatag index no_entry false
          ≡ returns (none, as_entry (last_place 0 pre) e (first_place post))
        → leb (length inputbuf) (length e.payload) ≡ false
        → Leaves device contents disk lo run (pre ++ (new ∷ []))
    run_grows pre e post valid h found grows =
        let (off, (next, l, r)) =
          Linked-tail (contents s) lo f.m_places.m_metaoffset pre (e ∷ post) h.list in
        let first : next ≡ first_place post = Linked-first _ _ _ post r in
        let rest : Linked (contents s) (last_end lo pre) (first_place post) post =
          subst (λ n. Linked (contents s) (last_end lo pre) n post) first
            (Linked-lower (contents s) (end_of e) (last_end lo pre) next post
              (omega (arith, l.here, l.behind)) r) in
        let (g, t, unlinked, stored, same) =
          set_previous_next-Stored device contents disk lo f s pre (e ∷ post) post
            (first_place post) h (omega (arith, first, l.next_fits)) rest in
        let (g', t', added, stored') =
          append_entry-Stored device contents disk lo hashes g t pre post fuel metatag flags
            inputbuf stored (omega (arith, same, room)) ht hf (valid-lt (length inputbuf) valid) in
        (
          g',
          t',
          write_grows device hashes fuel f metatag index inputbuf flags
                (as_entry (last_place 0 pre) e (first_place post)) valid g found grows unlinked
              ∙ added,
          subst
              (λ n. Stored device contents disk lo g' t' (pre ++ ((record new { place = n }) ∷ [])))
              same stored',
        )

    -- Where a file of a version below 4 or without compression, on a device that does not fail,
    -- holds a list of metadata entries, fewer than the fuel, with arguments that fit their fields
    -- and an end below 2 ^ 63, write_metadata refuses a length of 0 or of 2 ^ 24 and above and
    -- changes nothing; otherwise the file holds the edited list: where the tag and the index tell
    -- an entry that is as long or longer, its data is replaced and its tag and flags stay; where
    -- they tell a shorter entry, the list ends with the new entry behind the entries in front of
    -- that one; where they tell none, the new entry is added at the end.
    pub write_metadata-Written :
        (es : List Meta)
        → Stored device contents disk lo f s es
        → length es < fuel
        → Written f (bad_length (length inputbuf)) (edited new es (locate metatag index es)) run
    write_metadata-Written es h enough =
        let found =
          metadata_find-Finds device contents disk f s h.opened es fuel metatag index lo no_entry
            enough small h.list in
        elim (Bool-cases (bad_length (length inputbuf))) [
          | inl bad ↦ rw bad (write_refused hashes fuel f metatag index inputbuf flags bad)
          | inr valid ↦ rw valid (elim (place_cases (locate metatag index es)) [
            | inl absent ↦
                let (m, e, z, p) = rw absent at found in rw absent (run_absent es m valid h e p)
            | inr ((pre, x, post), there) ↦
                let parts : es ≡ pre ++ (x ∷ post) = rw there at (locate-Parts metatag index es) in
                let h' : Stored device contents disk lo f s (pre ++ (x ∷ post)) =
                  subst (Stored device contents disk lo f s) parts h in
                let got = rw there at found in
                rw there (elim (Bool-cases (leb (length inputbuf) (length x.payload))) [
                  | inr grows ↦ rw grows (run_grows pre x post valid h' got grows)
                  | inl fits ↦ rw fits (
                      Leaves-≡ _ _ _
                        (write_fits device hashes fuel f metatag index inputbuf flags
                          (as_entry (last_place 0 pre) x (first_place post)) valid got fits)
                        (overwrite_entry-Leaves device contents disk lo hashes fuel f s pre x post
                          inputbuf h' (ground (arith, fits))))
                ])
          ])
        ]
