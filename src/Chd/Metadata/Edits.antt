-- ===== src/Chd/Metadata/Edits.antt =====
-- chd_file::delete_metadata and write_metadata as edits of the list of entries.
use mathlib.Core.Path.{subst}
use libchdman_rs.Prelude.{
  ℕ, ◌-◌, ◌^◌, ◌≡◌, ◌<◌, refl, ap, Option, none, some, List, [], ◌∷◌, ◌++◌, ◌⊎◌, inl, inr, ◌==◌,
  Bool-cases, length, arith,
}
use libchdman_rs.Bytes.{Buffer}
use libchdman_rs.Errors.{Status, chd, metadata_not_found}
use libchdman_rs.Chd.Hunks.{Device, File, Run, returns}
use libchdman_rs.Chd.Hunks.Disk.{Disk}
use libchdman_rs.Chd.Metadata.{no_entry, delete_metadata}
use libchdman_rs.Chd.Metadata.Chain.{Meta, Linked, end_of, first_place, Linked-first, Linked-lower}
use libchdman_rs.Chd.Metadata.Search.{Place, behind_one, fits, locate, metadata_find-Finds}
use libchdman_rs.Chd.Metadata.Relink.{last_end, Linked-tail, Stored, set_previous_next-Stored}

pub place_cases : (p : Option Place) → (p ≡ none) ⊎ ((x : Place) × (p ≡ some x))
place_cases none = inl refl
place_cases (some x) = inr (x, refl)

-- The three parts of a place are the list.
abbrev Parts : List Meta → Option Place → Type 0
Parts es none = Unit {0}
Parts es (some (pre, e, post)) = es ≡ pre ++ (e ∷ post)

Parts-behind_one :
    (e : Meta) (es : List Meta) (p : Option Place) → Parts es p → Parts (e ∷ es) (behind_one e p)
Parts-behind_one e es none h = tt
Parts-behind_one e es (some (pre, x, post)) h = ap (λ l. e ∷ l) h

pub locate-Parts : (tag index : ℕ) (es : List Meta) → Parts es (locate tag index es)
unfolding locate
locate-Parts tag index [] = tt
locate-Parts tag index (e ∷ es) = elim (Bool-cases (fits tag e)) [
  | inr other ↦ rw other (Parts-behind_one e es (locate tag index es) (locate-Parts tag index es))
  | inl match ↦ elim (Bool-cases (index == 0)) [
    | inl now ↦ rw (match, now) refl
    | inr later ↦
        rw (match, later)
          (Parts-behind_one e es (locate tag (index - 1) es) (locate-Parts tag (index - 1) es))
  ]
]

-- The list without the entry at a place.
abbrev pub without : Option Place → Option (List Meta)
without none = none
without (some (pre, e, post)) = some (pre ++ post)

module _ {S : Type 0} (device : Device S) (contents : S → Buffer) (disk : Disk device contents)
    (lo : ℕ) where
  -- What an edit gives: the file with the new list, or the old file and METADATA_NOT_FOUND.
  abbrev pub Edited : Option (List Meta) → File S → Run (Status × File S) → Type 0
  Edited none f r = r ≡ returns (some (chd metadata_not_found), f)
  Edited (some es) f r =
      (g : File S) × (t : S) × (r ≡ returns (none, g)) × Stored device contents disk lo g t es

  -- Where a file of a version below 4 or without compression holds a list of metadata entries,
  -- fewer than the fuel, on a device that does not fail, delete_metadata takes the entry that the
  -- tag and the index tell out of the list and leaves the others in their order, or, where they
  -- tell none, reports METADATA_NOT_FOUND and changes nothing.
  pub delete_metadata-Edited :
      (f : File S) (s : S) (es : List Meta) (fuel metatag index : ℕ)
      → Stored device contents disk lo f s es
      → length es < fuel
      → index < 2 ^ 32
      → Edited (without (locate metatag index es)) f (delete_metadata device fuel f metatag index)
  unfolding delete_metadata
  delete_metadata-Edited f s es fuel metatag index h enough small =
      let found =
        metadata_find-Finds device contents disk f s h.opened es fuel metatag index lo no_entry
          enough small h.list in
      elim (place_cases (locate metatag index es)) [
        | inl absent ↦ let (m, e, z, p) = rw absent at found in rw (absent, delete_metadata, e) refl
        | inr ((pre, x, post), there) ↦
            let parts : es ≡ pre ++ (x ∷ post) = rw there at (locate-Parts metatag index es) in
            let h' : Stored device contents disk lo f s (pre ++ (x ∷ post)) =
              subst (Stored device contents disk lo f s) parts h in
            let (off, (next, l, r)) =
              Linked-tail (contents s) lo f.m_places.m_metaoffset pre (x ∷ post) h'.list in
            let first : next ≡ first_place post = Linked-first _ _ _ post r in
            let rest : Linked (contents s) (last_end lo pre) (first_place post) post =
              subst (λ n. Linked (contents s) (last_end lo pre) n post) first
                (Linked-lower (contents s) (end_of x) (last_end lo pre) next post
                  (omega (arith, l.here, l.behind)) r) in
            let (g, t, e, stored, _) =
              set_previous_next-Stored device contents disk lo f s pre (x ∷ post) post
                (first_place post) h' (omega (arith, first, l.next_fits)) rest in
            let done = rw there at found in
            rw there (g, t, rw (done, delete_metadata, e) refl, stored)
      ]
