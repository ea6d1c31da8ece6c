-- ===== src/Chd/Hunks/WriteOnce.antt =====
-- chd_file::verify_proper_compression_append and the three writes of a compressed file.
use libchdman_rs.Prelude.{
  ℕ, zero, suc, ◌+◌, ◌-◌, ◌*◌, ◌≡◌, ◌<◌, refl, ap, ◌∙◌, Bool, true, false, not, ◌&&◌, Option, none,
  some, [], ◌∷◌, ◌++◌, ◌⊎◌, inl, inr, if◌then◌else◌, leb, ◌==◌, Bool-cases, length, get_or, blit,
  arith,
}
use libchdman_rs.Bytes.{Buffer, byte, put_u16be, put_u24be, put_u48be}
use libchdman_rs.Errors.{
  Status, Result, ErrorCondition, ok, err, chd, compression_error, not_open, hunk_out_of_range,
  file_not_writeable,
}
use libchdman_rs.Chd.Hunks.{
  Device, File, compressed, verify_proper_compression_append, put_entry, hunk_write_compressed,
  hunk_copy_from_self, hunk_copy_from_parent, file_append, pad_loop,
}

pub byte-blit :
    (xs : Buffer) (i y : ℕ) (ys : Buffer) → i < length xs → get_or (blit xs i (y ∷ ys)) i 0 ≡ y
byte-blit [] i y ys h = absurd (omega arith)
byte-blit (x ∷ xs) zero y ys h = refl
byte-blit (x ∷ xs) (suc i) y ys h = byte-blit xs i y ys (omega arith)

pub status_cases : (e : Status) → (e ≡ none) ⊎ ((x : ErrorCondition) × (e ≡ some x))
status_cases none = inl refl
status_cases (some x) = inr (x, refl)

pub result_cases :
    {A : Type 0} (r : Result A) → ((a : A) × (r ≡ ok a)) ⊎ ((x : ErrorCondition) × (r ≡ err x))
result_cases (ok a) = inl (a, refl)
result_cases (err x) = inr (x, refl)

-- The guards of the append, from what they test.
abbrev pub guards {ℓ} : {S : Type ℓ} → Option S → Bool → Bool → Bool → Bool → Bool → Status
guards m past allowed packed fresh gap = elim m [
  | none ↦ some (chd not_open)
  | some s ↦
      if past
      then some (chd hunk_out_of_range)
      else if not allowed
      then some (chd file_not_writeable)
      else if not packed
      then some (chd file_not_writeable)
      else if not fresh
      then some (chd compression_error)
      else if gap
      then some (chd compression_error)
      else none
]

-- Where the guards passed once, they fail for an entry that is no longer fresh.
guards_again :
    {S : Type 0} (m m' : Option S) (s' : S) (past allowed packed fresh gap gap' : Bool)
    → m' ≡ some s'
    → guards m past allowed packed fresh gap ≡ none
    → guards m' past allowed packed false gap' ≡ some (chd compression_error)
guards_again none m' s' past allowed packed fresh gap gap' e h = absurd (cc h)
guards_again (some s) m' s' true allowed packed fresh gap gap' e h = absurd (cc h)
guards_again (some s) m' s' false false packed fresh gap gap' e h = absurd (cc h)
guards_again (some s) m' s' false true false fresh gap gap' e h = absurd (cc h)
guards_again (some s) m' s' false true true fresh gap gap' e h = rw e refl

some_file :
    {S : Type 0} (m : Option S) (past allowed packed fresh gap : Bool)
    → guards m past allowed packed fresh gap ≡ none
    → (s : S) × (m ≡ some s)
some_file none past allowed packed fresh gap h = absurd (cc h)
some_file (some s) past allowed packed fresh gap h = (s, refl)

module _ {S : Type 0} (device : Device S) (f : File S) (n : ℕ) where
  -- A hunk whose entry was written is refused.
  refused :
      (m' : Option S) (s' : S) (comp complength offset crc : ℕ)
      → m' ≡ some s'
      → n * 12 < length f.m_rawmap
      → comp < 255
      → verify_proper_compression_append device f n ≡ none
      → verify_proper_compression_append device
          (put_entry device (record f { m_file = m' }) n comp complength offset crc)
          n
        ≡ some (chd compression_error)
  unfolding verify_proper_compression_append put_entry
  refused m' s' comp complength offset crc open_ inside small h =
      let bytes : Buffer = put_u24be complength ++ put_u48be offset ++ put_u16be crc in
      let gap : Bool =
        not (n == 0) && (byte (blit f.m_rawmap (n * 12) (comp ∷ bytes)) ((n - 1) * 12) == 255) in
      let written : (byte (blit f.m_rawmap (n * 12) (comp ∷ bytes)) (n * 12) == 255) ≡ false =
        ap (λ b. b == 255) (byte-blit f.m_rawmap (n * 12) comp bytes inside)
        ∙ ground (arith, small) in
      ap (λ fresh. guards m' (leb f.m_hunkcount n) f.m_allow_writes (compressed f) fresh gap)
        written
      ∙ guards_again f.m_file m' s' (leb f.m_hunkcount n) f.m_allow_writes (compressed f)
          (byte f.m_rawmap (n * 12) == 255)
          (not (n == 0) && (byte f.m_rawmap ((n - 1) * 12) == 255)) gap open_ h

  -- file_append changes nothing but the file behind.
  pub file_append-keeps :
      (P : File S → Type 0) (m : Option S) (source : Buffer)
      → P (record f { m_file = m })
      → ((x : S) → P (record f { m_file = some x }))
      → P (file_append device (record f { m_file = m }) source 0).1
  unfolding file_append pad_loop
  file_append-keeps P none source same other = same
  file_append-keeps P (some s) source same other = elim (result_cases (device.size s)) [
    | inr (e, bad) ↦ rw (bad, file_append) same
    | inl (o, good) ↦
        rw (good, file_append)
          (elim (status_cases (device.write_at (o + 0) source s).0) [
            | inl fine ↦ rw fine (other _)
            | inr (e, bad) ↦ rw bad (other _)
          ])
  ]

-- The three writes of a hunk of a compressed file.
pub data Write : Type 0 where
  compressed_as : Option ℕ → Buffer → ℕ → Write  -- hunk_write_compressed
  from_self : ℕ → Write  -- hunk_copy_from_self
  from_parent : ℕ → Write  -- hunk_copy_from_parent

-- A codec is a byte, and not the mark of an entry that is not written.
abbrev pub IsWrite : Write → Type 0
IsWrite (compressed_as none data_ crc) = Unit
IsWrite (compressed_as (some c) data_ crc) = c < 255
IsWrite (from_self other) = Unit
IsWrite (from_parent unit) = Unit

module _ {S : Type 0} (device : Device S) where
  abbrev pub run : File S → ℕ → Write → Status × File S
  run f n (compressed_as c data_ crc) = hunk_write_compressed device f n c data_ crc
  run f n (from_self other) = hunk_copy_from_self device f n other
  run f n (from_parent unit) = hunk_copy_from_parent device f n unit

  pub run_refused :
      (f : File S) (n : ℕ) (w : Write) (e : ErrorCondition)
      → verify_proper_compression_append device f n ≡ some e
      → run f n w ≡ (some e, f)
  unfolding hunk_write_compressed hunk_copy_from_self hunk_copy_from_parent
  run_refused f n (compressed_as c data_ crc) e h = rw (h, hunk_write_compressed) refl
  run_refused f n (from_self other) e h = rw (h, hunk_copy_from_self) refl
  run_refused f n (from_parent unit) e h = rw (h, hunk_copy_from_parent) refl

  pub run_allowed :
      (f : File S) (n : ℕ) (w : Write)
      → (run f n w).0 ≡ none
      → verify_proper_compression_append device f n ≡ none
  run_allowed f n w h = elim (status_cases (verify_proper_compression_append device f n)) [
    | inl fine ↦ fine
    | inr (e, bad) ↦ absurd (cc (ap (λ r. r.0) (run_refused f n w e bad), h))
  ]

  opened :
      (f : File S) (n : ℕ)
      → verify_proper_compression_append device f n ≡ none
      → (s : S) × (f.m_file ≡ some s)
  unfolding verify_proper_compression_append
  opened f n h =
      some_file f.m_file (leb f.m_hunkcount n) f.m_allow_writes (compressed f)
        (byte f.m_rawmap (n * 12) == 255) (not (n == 0) && (byte f.m_rawmap ((n - 1) * 12) == 255))
        h

  abbrev code : Option ℕ → ℕ
  code none = 4
  code (some c) = c

  code_lt :
      (c : Option ℕ) (data_ : Buffer) (crc : ℕ) → IsWrite (compressed_as c data_ crc) → code c < 255
  code_lt none data_ crc h = omega arith
  code_lt (some c) data_ crc h = h

  refused_compressed :
      (f : File S) (n : ℕ) (c : Option ℕ) (data_ : Buffer) (crc o : ℕ)
      → n * 12 < length f.m_rawmap
      → IsWrite (compressed_as c data_ crc)
      → verify_proper_compression_append device f n ≡ none
      → verify_proper_compression_append device
          (put_entry device (file_append device f data_ 0).1 n (code c) (length data_) o crc)
          n
        ≡ some (chd compression_error)
  refused_compressed f n c data_ crc o inside is fine =
      let (s, open_) = opened f n fine in
      file_append-keeps device f n
        (λ g.
          verify_proper_compression_append device
            (put_entry device g n (code c) (length data_) o crc) n
          ≡ some (chd compression_error))
        f.m_file data_
        (refused device f n f.m_file s (code c) (length data_) o crc open_ inside
          (code_lt c data_ crc is) fine)
        (λ x.
          refused device f n (some x) x (code c) (length data_) o crc refl inside
            (code_lt c data_ crc is) fine)

  compressed_done :
      (f : File S) (n : ℕ) (c : Option ℕ) (data_ : Buffer) (crc o : ℕ)
      → verify_proper_compression_append device f n ≡ none
      → (file_append device f data_ 0).0 ≡ ok o
      → (hunk_write_compressed device f n c data_ crc).1
        ≡ put_entry device (file_append device f data_ 0).1 n (code c) (length data_) o crc
  unfolding hunk_write_compressed
  compressed_done f n none data_ crc o fine e = rw (fine, hunk_write_compressed, e) refl
  compressed_done f n (some c) data_ crc o fine e = rw (fine, hunk_write_compressed, e) refl

  compressed_failed :
      (f : File S) (n : ℕ) (c : Option ℕ) (data_ : Buffer) (crc : ℕ) (x : ErrorCondition)
      → verify_proper_compression_append device f n ≡ none
      → (file_append device f data_ 0).0 ≡ err x
      → (hunk_write_compressed device f n c data_ crc).0 ≡ some x
  unfolding hunk_write_compressed
  compressed_failed f n c data_ crc x fine e = rw (fine, hunk_write_compressed, e) refl

  refused_after :
      (f : File S) (n : ℕ) (w : Write)
      → n * 12 < length f.m_rawmap
      → IsWrite w
      → (run f n w).0 ≡ none
      → verify_proper_compression_append device (run f n w).1 n ≡ some (chd compression_error)
  unfolding hunk_copy_from_self hunk_copy_from_parent hunk_write_compressed
  refused_after f n (compressed_as c data_ crc) inside is h =
      let fine = run_allowed f n (compressed_as c data_ crc) h in
      elim (result_cases (file_append device f data_ 0).0) [
        | inl (o, e) ↦
            rw (compressed_done f n c data_ crc o fine e)
              (refused_compressed f n c data_ crc o inside is fine)
        | inr (x, e) ↦ absurd (cc (compressed_failed f n c data_ crc x fine e, h))
      ]
  refused_after f n (from_self other) inside is h =
      let fine = run_allowed f n (from_self other) h in
      let (s, open_) = opened f n fine in
      elim (Bool-cases (leb n other)) [
        | inl later ↦ absurd (cc (rw (fine, later, hunk_copy_from_self) at h))
        | inr before ↦
            rw (fine, before, hunk_copy_from_self)
              (refused device f n f.m_file s 5 0 other 0 open_ inside (omega arith) fine)
      ]
  refused_after f n (from_parent unit) inside is h =
      let fine = run_allowed f n (from_parent unit) h in
      let (s, open_) = opened f n fine in
      rw (fine, hunk_copy_from_parent)
        (refused device f n f.m_file s 6 0 unit 0 open_ inside (omega arith) fine)

  -- A hunk of a compressed file is written once: where one of the three writes of a hunk inside the map
  -- succeeds, a next one of the same hunk fails with a compression error and changes nothing.
  pub run-run :
      (f : File S) (n : ℕ) (w v : Write)
      → n * 12 < length f.m_rawmap
      → IsWrite w
      → (run f n w).0 ≡ none
      → run (run f n w).1 n v ≡ (some (chd compression_error), (run f n w).1)
  run-run f n w v inside is h =
      run_refused (run f n w).1 n v (chd compression_error) (refused_after f n w inside is h)
