-- ===== src/Chd/Metadata/Search.antt =====
-- chd_file::metadata_find on a file that holds a list of entries.
use libchdman_rs.Prelude.{
  ℕ, zero, suc, ◌+◌, ◌-◌, ◌^◌, ◌≡◌, ◌<◌, refl, ap, ◌∙◌, Bool, false, ◌||◌, Option, none, some, List,
  [], ◌∷◌, inl, inr, if◌then◌else◌, ◌==◌, Bool-cases, length, arith,
}
use libchdman_rs.Bytes.{Buffer}
use libchdman_rs.Errors.{Status, chd, metadata_not_found}
use libchdman_rs.Chd.Hunks.{Device, File, Run, returns, out_of_fuel, u32, file_read}
use libchdman_rs.Chd.Hunks.Disk.{Disk, file_read-slice}
use libchdman_rs.Chd.Metadata.{MetadataEntry, extract, follow, find_loop, metadata_find, wildcard}
use libchdman_rs.Chd.Metadata.Chain.{
  Meta, Link, Linked, end_of, first_place, last_place, Linked-first, extract_lem,
}

-- The entries in front of the one that is searched for, this one, and those behind it.
abbrev pub Place : Type 0
Place = List Meta × Meta × List Meta

abbrev pub behind_one : Meta → Option Place → Option Place
behind_one e none = none
behind_one e (some (pre, found, post)) = some (e ∷ pre, found, post)

abbrev pub fits : ℕ → Meta → Bool
fits metatag e = metatag == wildcard || (e.metatag == metatag)

-- The entry number `index` among those with the tag, or among all for the wildcard.
unfoldable pub locate : ℕ → ℕ → List Meta → Option Place
locate metatag index [] = none
locate metatag index (e ∷ es) =
    let later = locate metatag (index - 1) es in
    let same = locate metatag index es in
    if fits metatag e
    then if index == 0 then some ([], e, es) else behind_one e later
    else behind_one e same

-- An entry as metadata_find gives it.
abbrev pub as_entry : ℕ → Meta → ℕ → MetadataEntry
as_entry prev e next = record {
  offset = e.place;
  next = next;
  prev = prev;
  length = length e.payload;
  metatag = e.metatag;
  flags = e.flags;
}

-- What a search has to give where `prev` is the place of the entry in front of the list.
abbrev pub Finds : ℕ → List Meta → Option Place → Run (Status × MetadataEntry) → Type 0
Finds prev es none r =
    (m : MetadataEntry) × (r ≡ returns (some (chd metadata_not_found), m))
    × (m.offset ≡ 0)
    × (m.prev ≡ last_place prev es)
Finds prev es (some (pre, e, post)) r =
    r ≡ returns (none, as_entry (last_place prev pre) e (first_place post))

Finds-behind_one :
    (prev : ℕ) (e : Meta) (es : List Meta) (p : Option Place) (r : Run (Status × MetadataEntry))
    → Finds e.place es p r
    → Finds prev (e ∷ es) (behind_one e p) r
Finds-behind_one prev e es none r h = h
Finds-behind_one prev e es (some (pre, found, post)) r h = h

module _ {S : Type 0} (device : Device S) (contents : S → Buffer) (disk : Disk device contents)
    (f : File S) (s : S) (opened : f.m_file ≡ some s) where
  -- The entry that a search stands at.
  abbrev at_ : ℕ → ℕ → MetadataEntry → MetadataEntry
  at_ off prev m = record m { offset = off; prev = prev }

  find_step :
      (fuel metatag index lo off next prev : ℕ) (e : Meta) (m : MetadataEntry)
      → Link (contents s) lo off next e
      → find_loop device (suc fuel) f metatag index (at_ off prev m) ≡ (
          if fits metatag e
          then if index == 0
            then returns (none, as_entry prev e next)
            else find_loop device fuel f metatag
                (u32 (index + (2 ^ 32 - 1)))
                (follow (as_entry prev e next))
          else find_loop device fuel f metatag index (follow (as_entry prev e next)))
  unfolding find_loop
  find_step fuel metatag index lo off next prev e m l =
      let there : (off == 0) ≡ false = ground (arith, l.some_) in
      let raw =
        file_read-slice device contents disk f s opened off 16 (omega (arith, l.here, l.inside)) in
      let got : extract (file_read device f off 16).1 (at_ off prev m) ≡ as_entry prev e next =
        ap (λ b. extract b.1 (at_ off prev m)) raw
        ∙ ap (λ b. extract b (at_ off prev m)) l.header
        ∙ extract_lem e.metatag e.flags (length e.payload) next (at_ off prev m) l.tag_fits
            l.length_fits l.next_fits
        ∙ ap (λ o. as_entry_at o prev e next) l.here in
      rw (there, ap (λ b. b.0) raw)
        (ap
          (λ (m' : MetadataEntry).
            if metatag == wildcard || (m'.metatag == metatag)
            then if index == 0
              then returns (none, m')
              else find_loop device fuel f metatag (u32 (index + (2 ^ 32 - 1))) (follow m')
            else find_loop device fuel f metatag index (follow m'))
          got)
    where
      as_entry_at : ℕ → ℕ → Meta → ℕ → MetadataEntry
      as_entry_at o prev e next = record (as_entry prev e next) { offset = o }

  -- The search finds what `locate` tells.
  pub find_loop-Finds :
      (es : List Meta) (fuel metatag index lo off prev : ℕ) (m : MetadataEntry)
      → length es < fuel
      → index < 2 ^ 32
      → Linked (contents s) lo off es
      → Finds prev es
          (locate metatag index es)
          (find_loop device fuel f metatag index (at_ off prev m))
  unfolding locate find_loop
  find_loop-Finds es zero metatag index lo off prev m enough small h = absurd (omega arith)
  find_loop-Finds [] (suc fuel) metatag index lo off prev m enough small h =
      (at_ off prev m, rw h refl, h, refl)
  find_loop-Finds (e ∷ es) (suc fuel) metatag index lo off prev m enough small (next, l, r) =
      rw (find_step fuel metatag index lo off next prev e m l) (elim (Bool-cases (fits metatag e)) [
        | inl match ↦ elim (Bool-cases (index == 0)) [
          | inl now ↦
              rw (match, now)
                (ap (λ n. returns (none, as_entry prev e n)) (Linked-first _ _ _ es r))
          | inr later ↦
              let before : u32 (index + (2 ^ 32 - 1)) ≡ index - 1 = ground (arith, small, later) in
              rw (match, later, before)
                (Finds-behind_one prev e es (locate metatag (index - 1) es) _ (
                  find_loop-Finds es fuel metatag (index - 1) (end_of e) next e.place
                    (as_entry prev e next) (omega (arith, enough)) (omega (arith, small)) r))
        ]
        | inr other ↦ rw other (
            Finds-behind_one prev e es (locate metatag index es) _ (
              find_loop-Finds es fuel metatag index (end_of e) next e.place (as_entry prev e next)
                (omega (arith, enough)) small r))
      ])

  -- Where a file holds a list of metadata entries, on a device that does not fail, metadata_find
  -- with fuel above the number of entries finishes and gives the entry number `index` among those
  -- with the tag (among all for the wildcard), with the places of its neighbours, or
  -- METADATA_NOT_FOUND with the place of the last entry.
  pub metadata_find-Finds :
      (es : List Meta) (fuel metatag index lo : ℕ) (m : MetadataEntry)
      → length es < fuel
      → index < 2 ^ 32
      → Linked (contents s) lo f.m_places.m_metaoffset es
      → Finds 0 es (locate metatag index es) (metadata_find device fuel f metatag index m false)
  unfolding metadata_find
  metadata_find-Finds es fuel metatag index lo m enough small h =
      find_loop-Finds es fuel metatag index lo f.m_places.m_metaoffset 0 m enough small h

  stays :
      (fuel metatag index lo off prev : ℕ) (e : Meta) (m : MetadataEntry)
      → Link (contents s) lo off off e
      → fits metatag e ≡ false
      → find_loop device fuel f metatag index (at_ off prev m) ≡ out_of_fuel
  unfolding find_loop
  stays zero metatag index lo off prev e m l other = refl
  stays (suc fuel) metatag index lo off prev e m l other =
      rw (find_step fuel metatag index lo off off prev e m l, other)
        (stays fuel metatag index lo off e.place e (as_entry prev e off) l other)

  -- metadata_find does not finish, whatever the fuel, where the first entry is its own next entry
  -- and has another tag, on a device that does not fail.
  pub metadata_find-cycle :
      (fuel metatag index lo : ℕ) (e : Meta) (m : MetadataEntry)
      → Link (contents s) lo f.m_places.m_metaoffset f.m_places.m_metaoffset e
      → fits metatag e ≡ false
      → metadata_find device fuel f metatag index m false ≡ out_of_fuel
  unfolding metadata_find
  metadata_find-cycle fuel metatag index lo e m l other =
      stays fuel metatag index lo f.m_places.m_metaoffset 0 e m l other
