-- ===== src/Chd/Metadata/Readback.antt =====
-- chd_file::read_metadata after chd_file::write_metadata.
use mathlib.Core.Path.{subst}
use libchdman_rs.Prelude.{
  ℕ, suc, ◌+◌, ◌-◌, ◌^◌, ◌≡◌, ◌<◌, refl, ap, ◌∙◌, sym, true, false, Option, none, some, List, [],
  ◌∷◌, ◌++◌, inl, inr, leb, ◌==◌, ==_iff, Bool-cases, length, length-append, slice, arith,
}
use libchdman_rs.Bytes.{Buffer}
use libchdman_rs.Chd.Hunks.{Device, File, returns, u64, file_read}
use libchdman_rs.Chd.Hunks.Disk.{Disk, file_read-slice}
use libchdman_rs.Chd.Metadata.{MetadataEntry, no_entry, read_metadata, read_found}
use libchdman_rs.Chd.Metadata.Chain.{Meta, Linked, first_place, last_place}
use libchdman_rs.Chd.Metadata.Search.{
  Place, behind_one, fits, locate, as_entry, metadata_find-Finds,
}
use libchdman_rs.Chd.Metadata.Relink.{Linked-tail, Stored}
use libchdman_rs.Chd.Metadata.Edits.{locate-Parts}
use libchdman_rs.Chd.Metadata.Written.{edited, bad_length, write_metadata-Written}
use libchdman_rs.Chd.Metadata.Writing.{Hashes, write_metadata}
use libchdman_rs.Chd.Metadata.Overwrite.{refilled}

-- A place whose entry has the data.
abbrev Holds : Buffer → Option Place → Type 0
Holds inputbuf p =
    (pre : List Meta) × (e : Meta) × (post : List Meta) × (p ≡ some (pre, e, post))
    × (e.payload ≡ inputbuf)

Holds-behind_one :
    (inputbuf : Buffer) (d : Meta) (p : Option Place)
    → Holds inputbuf p
    → Holds inputbuf (behind_one d p)
Holds-behind_one inputbuf d p (pre, e, post, there, same) =
    (d ∷ pre, e, post, ap (behind_one d) there, same)

edited-behind_one :
    (new : Meta) (d : Meta) (es : List Meta) (p : Option Place)
    → edited new (d ∷ es) (behind_one d p) ≡ d ∷ edited new es p
edited-behind_one new d es none = refl
edited-behind_one new d es (some (pre, e, post)) =
    elim (Bool-cases (leb (length new.payload) (length e.payload))) [
      | inl fit ↦ rw fit refl
      | inr grow ↦ rw grow refl
    ]

-- Whether a search is for an entry that is there or for the first one.
abbrev pub Reachable : ℕ → Option Place → Type 0
Reachable index none = index ≡ 0
Reachable index (some p) = Unit {0}

Reachable-front :
    (index : ℕ) (e : Meta) (p : Option Place) → Reachable index (behind_one e p) → Reachable index p
Reachable-front index e none h = h
Reachable-front index e (some p) h = h

Reachable-earlier : (index : ℕ) (p : Option Place) → Reachable index p → Reachable (index - 1) p
Reachable-earlier index none h = omega (arith, h)
Reachable-earlier index (some p) h = h

fits_own : (new : Meta) (metatag : ℕ) → new.metatag ≡ metatag → fits metatag new ≡ true
fits_own new metatag tag_eq = ground (arith, tag_eq)

-- The new data is where it was written.
edited-Holds :
    (new : Meta) (es : List Meta) (metatag index : ℕ)
    → new.metatag ≡ metatag
    → Reachable index (locate metatag index es)
    → Holds new.payload (locate metatag index (edited new es (locate metatag index es)))
unfolding locate
edited-Holds new [] metatag index tag_eq first =
    ([], new, [], rw (fits_own new metatag tag_eq, (==_iff index 0).1 first) refl, refl)
edited-Holds new (e ∷ es) metatag index tag_eq first = elim (Bool-cases (fits metatag e)) [
  | inr other ↦
      let first' : Reachable index (locate metatag index es) =
        Reachable-front index e _ (rw other at first) in
      let p : Option Place = locate metatag index es in
      rw other (
        subst (λ l. Holds new.payload (locate metatag index l)) (sym (edited-behind_one new e es p))
          (rw other
            (Holds-behind_one new.payload e _ (edited-Holds new es metatag index tag_eq first'))))
  | inl match ↦ elim (Bool-cases (index == 0)) [
    | inl now ↦
        rw (match, now)
          (elim (Bool-cases (leb (length new.payload) (length e.payload))) [
            | inl fit ↦ rw (fit, match, now) ([], refilled e new.payload, es, refl, refl)
            | inr grow ↦ rw (grow, fits_own new metatag tag_eq, now) ([], new, [], refl, refl)
          ])
    | inr later ↦
        let first' : Reachable (index - 1) (locate metatag (index - 1) es) =
          Reachable-earlier index (locate metatag (index - 1) es)
            (Reachable-front index e _ (rw (match, later) at first)) in
        let p : Option Place = locate metatag (index - 1) es in
        rw (match, later)
          (subst (λ l. Holds new.payload (locate metatag index l))
            (sym (edited-behind_one new e es p))
            (rw (match, later)
              (Holds-behind_one new.payload e _
                (edited-Holds new es metatag (index - 1) tag_eq first'))))
  ]
]

length-edited :
    (new : Meta) (es : List Meta) (p : Option Place) (n : ℕ)
    → suc (length es) < n
    → ((pre : List Meta) (e : Meta) (post : List Meta)
        → p ≡ some (pre, e, post)
        → es ≡ pre ++ (e ∷ post))
    → length (edited new es p) < n
length-edited new es none n h parts = omega (arith, h, length-append es (new ∷ []))
length-edited new es (some (pre, e, post)) n h parts =
    let whole = ap length (parts pre e post refl) ∙ length-append pre (e ∷ post) in
    elim (Bool-cases (leb (length new.payload) (length e.payload))) [
      | inl fit ↦
          rw fit (omega (arith, h, whole, length-append pre (refilled e new.payload ∷ post)))
      | inr grow ↦ rw grow (omega (arith, h, whole, length-append pre (new ∷ [])))
    ]

module _ {S : Type 0} (device : Device S) (contents : S → Buffer) (disk : Disk device contents)
    (lo : ℕ) where
  -- read_metadata delivers the data of the entry that the tag and the index tell.
  pub read_metadata-payload :
      (f : File S) (s : S) (es : List Meta) (fuel metatag index : ℕ) (pre : List Meta) (e : Meta)
      (post : List Meta)
      → Stored device contents disk lo f s es
      → length es < fuel
      → index < 2 ^ 32
      → locate metatag index es ≡ some (pre, e, post)
      → read_metadata device fuel f metatag index none
        ≡ returns (none, as_entry (last_place 0 pre) e (first_place post), e.payload)
  unfolding read_metadata read_found
  read_metadata-payload f s es fuel metatag index pre e post h enough small there =
      let found = rw there at (
        metadata_find-Finds device contents disk f s h.opened es fuel metatag index lo no_entry
          enough small h.list) in
      let parts : es ≡ pre ++ (e ∷ post) = rw there at (locate-Parts metatag index es) in
      let (off, (next, l, r)) =
        Linked-tail (contents s) lo f.m_places.m_metaoffset pre (e ∷ post)
          (subst (Linked (contents s) lo f.m_places.m_metaoffset) parts h.list) in
      let at_data : u64 (e.place + 16) ≡ e.place + 16 = omega (arith, l.off_fits) in
      let bytes : file_read device f (u64 (e.place + 16)) (length e.payload) ≡ (none, e.payload) =
        ap (λ o. file_read device f o (length e.payload)) at_data
        ∙ file_read-slice device contents disk f s h.opened (e.place + 16) (length e.payload)
            (omega (arith, l.inside))
        ∙ ap (λ b. (none, b))
            (ap (λ o. slice (contents s) (o + 16) (length e.payload)) (sym l.here) ∙ l.held) in
      ap (read_found device f none) found
      ∙ ap (λ r. returns (r.0, as_entry (last_place 0 pre) e (first_place post), r.1)) bytes

  -- After write_metadata of data of 1 to 2 ^ 24 - 1 bytes for an entry that is there, or for index
  -- 0, read_metadata with the same tag and index delivers the data, on a device that does not fail,
  -- for a file of a version below 4 or without compression that holds a list of metadata entries,
  -- at least two fewer than the fuel, with arguments that fit their fields and an end below 2 ^ 63.
  pub read_metadata-write_metadata :
      (hashes : Hashes) (f : File S) (s : S) (es : List Meta) (fuel metatag index : ℕ)
      (inputbuf : Buffer) (flags : ℕ)
      → Stored device contents disk lo f s es
      → suc (length es) < fuel
      → metatag < 2 ^ 32
      → index < 2 ^ 32
      → flags < 2 ^ 8
      → length (contents s) + 16 + length inputbuf < 2 ^ 63
      → bad_length (length inputbuf) ≡ false
      → Reachable index (locate metatag index es)
      → (g : File S) × (m : MetadataEntry) × (write_metadata device hashes fuel f metatag index
            inputbuf flags
          ≡ returns (none, g))
        × (read_metadata device fuel g metatag index none ≡ returns (none, m, inputbuf))
  read_metadata-write_metadata hashes f s es fuel metatag index inputbuf flags h enough ht small hf
        room valid first =
      let new : Meta = record {
        place = length (contents s);
        metatag = metatag;
        flags = flags;
        payload = inputbuf;
      } in
      let (g, t, e, stored) = rw valid at (
        write_metadata-Written device contents disk lo hashes f s fuel metatag index inputbuf flags
          ht small hf room es h (omega (arith, enough))) in
      let (pre, x, post, there, same) = edited-Holds new es metatag index refl first in
      (
        g,
        as_entry (last_place 0 pre) x (first_place post),
        e,
        read_metadata-payload g t (edited new es (locate metatag index es)) fuel metatag index pre x
              post stored
              (length-edited new es (locate metatag index es) fuel enough
                (λ a b c place. rw place at (locate-Parts metatag index es)))
              small there
            ∙ ap (λ b. returns (none, as_entry (last_place 0 pre) x (first_place post), b)) same,
      )
