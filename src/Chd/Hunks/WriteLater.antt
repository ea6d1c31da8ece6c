-- ===== src/Chd/Hunks/WriteLater.antt =====
-- The writes of the hunks of a compressed file, one after the other.
use libchdman_rs.Prelude.{
  ℕ, zero, suc, ◌+◌, ◌-◌, ◌*◌, ◌&&◌, ◌≡◌, ◌≢◌, ◌<◌, ◌≤◌, refl, ap, ◌∙◌, sym, Bool, true, false, not,
  Option, none, some, List, [], ◌∷◌, ◌++◌, ◌⊎◌, inl, inr, leb, ◌==◌, ==_iff, Bool-cases, length,
  get_or, blit, slice, slice-blit_other, arith,
}
use mathlib.Core.Path.{subst}
use libchdman_rs.Bytes.{Buffer, byte, put_u16be, put_u24be, put_u48be}
use libchdman_rs.Errors.{Status, ErrorCondition, chd, compression_error}
use libchdman_rs.Chd.Hunks.{
  Device, File, compressed, verify_proper_compression_append, put_entry, hunk_write_compressed,
  hunk_copy_from_self, hunk_copy_from_parent, file_append,
}
use libchdman_rs.Chd.Hunks.WriteOnce.{
  byte-blit, status_cases, result_cases, guards, file_append-keeps, Write, compressed_as, from_self,
  from_parent, IsWrite, run, run_refused,
}

get_or-slice : (xs : Buffer) (j : ℕ) → get_or xs j 0 ≡ get_or (slice xs j 1) 0 0
get_or-slice [] zero = refl
get_or-slice [] (suc j) = refl
get_or-slice (x ∷ xs) zero = refl
get_or-slice (x ∷ xs) (suc j) = get_or-slice xs j

byte-blit_other :
    (xs : Buffer) (i : ℕ) (ys : Buffer) (j : ℕ)
    → (j + 1 ≤ i) ⊎ (i + length ys ≤ j)
    → byte (blit xs i ys) j ≡ byte xs j
byte-blit_other xs i ys j apart =
    get_or-slice (blit xs i ys) j
    ∙ ap (λ l. get_or l 0 0) (slice-blit_other xs i ys j 1 apart)
    ∙ sym (get_or-slice xs j)

-- The guards that a hunk inside an open compressed file passes.
guards_pass :
    {S : Type 0} (m : Option S) (past allowed packed fresh gap : Bool)
    → guards m past allowed packed fresh gap ≡ none
    → ((s : S) × (m ≡ some s)) × (past ≡ false) × (allowed ≡ true) × (packed ≡ true)
guards_pass none past allowed packed fresh gap h = absurd (cc h)
guards_pass (some s) true allowed packed fresh gap h = absurd (cc h)
guards_pass (some s) false false packed fresh gap h = absurd (cc h)
guards_pass (some s) false true false fresh gap h = absurd (cc h)
guards_pass (some s) false true true fresh gap h = ((s, refl), refl, refl, refl)

-- A hunk whose entry is written, in a file that is open for compressed writes.
record Locked {S : Type 0} (f : File S) (n : ℕ) : Type 0 where
  opened : (s : S) × (f.m_file ≡ some s)
  inside : leb f.m_hunkcount n ≡ false
  allowed : f.m_allow_writes ≡ true
  packed : compressed f ≡ true
  done : (byte f.m_rawmap (n * 12) == 255) ≡ false

module _ {S : Type 0} (device : Device S) where
  Locked-refused :
      (f : File S) (n : ℕ)
      → Locked f n
      → verify_proper_compression_append device f n ≡ some (chd compression_error)
  unfolding verify_proper_compression_append
  Locked-refused f n h = let (s, e) = h.opened in rw (e, h.inside, h.allowed, h.packed, h.done) refl

  Locked-put :
      (f : File S) (n k comp complength offset crc : ℕ)
      → k ≢ n
      → Locked f n
      → Locked (put_entry device f k comp complength offset crc) n
  unfolding put_entry put_u24be put_u48be put_u16be
  Locked-put f n k comp complength offset crc other h =
      let bytes : Buffer = comp ∷ (put_u24be complength ++ put_u48be offset ++ put_u16be crc) in
      let long : length bytes ≡ 12 = refl in
      record {
        opened = h.opened;
        inside = h.inside;
        allowed = h.allowed;
        packed = h.packed;
        done =
            ap (λ b. b == 255)
              (byte-blit_other f.m_rawmap (k * 12) bytes (n * 12) (ground (arith, other, long)))
            ∙ h.done;
      }

  Locked-append :
      (f : File S) (n : ℕ) (source : Buffer)
      → Locked f n
      → Locked (file_append device f source 0).1 n
  Locked-append f n source h =
      file_append-keeps device f n (λ g. Locked g n) f.m_file source h
        (λ x. record {
          opened = (x, refl);
          inside = h.inside;
          allowed = h.allowed;
          packed = h.packed;
          done = h.done;
        })

  -- What the three writes of a hunk return and leave.
  run-keeps :
      (P : Status × File S → Type 0) (f : File S) (n : ℕ) (w : Write)
      → IsWrite w
      → ((e : ErrorCondition) → P (some e, f))
      → ((e : ErrorCondition) (source : Buffer) → P (some e, (file_append device f source 0).1))
      → ((source : Buffer) (comp complength offset crc : ℕ)
          → comp < 255
          → verify_proper_compression_append device f n ≡ none
          → P (
            none,
            put_entry device (file_append device f source 0).1 n comp complength offset crc,
          ))
      → ((comp complength offset crc : ℕ)
          → comp < 255
          → verify_proper_compression_append device f n ≡ none
          → P (none, put_entry device f n comp complength offset crc))
      → P (run device f n w)
  unfolding hunk_write_compressed hunk_copy_from_self hunk_copy_from_parent
  run-keeps P f n w is same appended packed put =
      elim (status_cases (verify_proper_compression_append device f n)) [
        | inr (e, bad) ↦ subst P (sym (run_refused device f n w e bad)) (same e)
        | inl fine ↦ allowed w is fine
      ]
    where
      allowed :
          (w : Write)
          → IsWrite w
          → verify_proper_compression_append device f n ≡ none
          → P (run device f n w)
      allowed (compressed_as none data_ crc) is fine =
          elim (result_cases (file_append device f data_ 0).0) [
            | inl (o, e) ↦
                rw (fine, hunk_write_compressed, e)
                  (packed data_ 4 (length data_) o crc (omega arith) fine)
            | inr (x, e) ↦ rw (fine, hunk_write_compressed, e) (appended x data_)
          ]
      allowed (compressed_as (some c) data_ crc) is fine =
          elim (result_cases (file_append device f data_ 0).0) [
            | inl (o, e) ↦
                rw (fine, hunk_write_compressed, e) (packed data_ c (length data_) o crc is fine)
            | inr (x, e) ↦ rw (fine, hunk_write_compressed, e) (appended x data_)
          ]
      allowed (from_self other) is fine = elim (Bool-cases (leb n other)) [
        | inl later ↦ rw (fine, later, hunk_copy_from_self) (same _)
        | inr before ↦ rw (fine, before, hunk_copy_from_self) (put 5 0 other 0 (omega arith) fine)
      ]
      allowed (from_parent unit) is fine =
          rw (fine, hunk_copy_from_parent) (put 6 0 unit 0 (omega arith) fine)

  Locked-run :
      (f : File S) (n k : ℕ) (w : Write) → IsWrite w → Locked f n → Locked (run device f k w).1 n
  Locked-run f n k w is h = elim (Bool-cases (k == n)) [
    | inl e ↦
        let here : k ≡ n = (==_iff k n).0 e in
        subst (λ i. Locked (run device f i w).1 n) (sym here)
          (subst (λ r. Locked r n)
            (sym (ap (λ r. r.1) (run_refused device f n w _ (Locked-refused f n h)))) h)
    | inr e ↦
        let other : k ≢ n = λ same. absurd (ground (arith, e, same)) in
        run-keeps (λ r. Locked r.1 n) f k w is (λ e. h) (λ e source. Locked-append f n source h)
          (λ source comp l o crc lt fine.
            Locked-put (file_append device f source 0).1 n k comp l o crc other
              (Locked-append f n source h))
          (λ comp l o crc lt fine. Locked-put f n k comp l o crc other h)
  ]

  -- An entry that is put where the guards passed.
  Locked-own :
      (f : File S) (n : ℕ) (m : Option S) (comp complength offset crc : ℕ)
      → n * 12 < length f.m_rawmap
      → comp < 255
      → ((s : S) × (m ≡ some s))
      → verify_proper_compression_append device f n ≡ none
      → Locked (put_entry device (record f { m_file = m }) n comp complength offset crc) n
  unfolding put_entry verify_proper_compression_append
  Locked-own f n m comp complength offset crc inside small opened fine =
      let bytes : Buffer = put_u24be complength ++ put_u48be offset ++ put_u16be crc in
      let (was, there, writes, packed) =
        guards_pass f.m_file (leb f.m_hunkcount n) f.m_allow_writes (compressed f)
          (byte f.m_rawmap (n * 12) == 255)
          (not (n == 0) && (byte f.m_rawmap ((n - 1) * 12) == 255)) fine in
      record {
        opened = opened;
        inside = there;
        allowed = writes;
        packed = packed;
        done =
            ap (λ b. b == 255) (byte-blit f.m_rawmap (n * 12) comp bytes inside)
            ∙ ground (arith, small);
      }

  was_open :
      (f : File S) (n : ℕ)
      → verify_proper_compression_append device f n ≡ none
      → (s : S) × (f.m_file ≡ some s)
  unfolding verify_proper_compression_append
  was_open f n fine =
      (guards_pass f.m_file (leb f.m_hunkcount n) f.m_allow_writes (compressed f)
        (byte f.m_rawmap (n * 12) == 255) (not (n == 0) && (byte f.m_rawmap ((n - 1) * 12) == 255))
        fine).0

  Locked-first :
      (f : File S) (n : ℕ) (w : Write)
      → n * 12 < length f.m_rawmap
      → IsWrite w
      → (run device f n w).0 ≡ none
      → Locked (run device f n w).1 n
  Locked-first f n w inside is =
      run-keeps (λ r. r.0 ≡ none → Locked r.1 n) f n w is (λ e bad. absurd (cc bad))
        (λ e source bad. absurd (cc bad))
        (λ source comp l o crc lt fine good.
          file_append-keeps device f n (λ g. Locked (put_entry device g n comp l o crc) n) f.m_file
            source (Locked-own f n f.m_file comp l o crc inside lt (was_open f n fine) fine)
            (λ x. Locked-own f n (some x) comp l o crc inside lt (x, refl) fine))
        (λ comp l o crc lt fine good.
          Locked-own f n f.m_file comp l o crc inside lt (was_open f n fine) fine)

  -- Writes of any hunks, one after the other.
  unfoldable pub run_all : File S → List (ℕ × Write) → File S
  run_all f [] = f
  run_all f ((k, w) ∷ ws) = run_all (run device f k w).1 ws

  unfoldable pub AreWrites : List (ℕ × Write) → Type 0
  AreWrites [] = Unit
  AreWrites ((k, w) ∷ ws) = IsWrite w × AreWrites ws

  Locked-run_all :
      (f : File S) (n : ℕ) (ws : List (ℕ × Write))
      → AreWrites ws
      → Locked f n
      → Locked (run_all f ws) n
  unfolding run_all AreWrites
  Locked-run_all f n [] are h = h
  Locked-run_all f n ((k, w) ∷ ws) (is, are) h =
      Locked-run_all (run device f k w).1 n ws are (Locked-run f n k w is h)

  -- In a compressed file, once a hunk inside the map is written successfully, and any list of
  -- writes of any hunks has followed, with codec bytes below 255, each write of that hunk fails
  -- with a compression error and changes nothing.
  pub run-run_all :
      (f : File S) (n : ℕ) (w : Write) (ws : List (ℕ × Write)) (v : Write)
      → n * 12 < length f.m_rawmap
      → IsWrite w
      → (run device f n w).0 ≡ none
      → AreWrites ws
      → let g = run_all (run device f n w).1 ws in
        run device g n v ≡ (some (chd compression_error), g)
  run-run_all f n w ws v inside is done are =
      run_refused device (run_all (run device f n w).1 ws) n v (chd compression_error) (
        Locked-refused (run_all (run device f n w).1 ws) n
          (Locked-run_all (run device f n w).1 n ws are (Locked-first f n w inside is done)))
