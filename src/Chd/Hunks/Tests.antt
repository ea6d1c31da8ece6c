-- ===== src/Chd/Hunks/Tests.antt =====
-- chd_file: an uncompressed file of three hunks of 4 bytes, the second of which is not allocated; and
-- a new compressed file.
use libchdman_rs.Prelude.{
  ℕ, zero, suc, ◌*◌, ◌≡◌, refl, true, false, none, some, List, [], ◌∷◌, length, slice, blit, drop,
  replicate, arith,
}
use libchdman_rs.Bytes.{Buffer, get_u32be}
use libchdman_rs.Errors.{ok, chd, compression_error}
use libchdman_rs.Chd.Hunks.{
  Device, Codecs, File, Places, returns, codec_zlib, hunk_write_compressed,
  verify_proper_compression_append, file_append, pad_loop,
}
use libchdman_rs.Chd.Hunks.WriteOnce.{compressed_as, from_parent, from_self, run, Write}
use libchdman_rs.Chd.Hunks.WriteLater.{run_all, run-run_all}
use libchdman_rs.Chd.Hunks.Access.{read_hunk, read_bytes}
use libchdman_rs.Chd.Hunks.Image.{hunks}
use libchdman_rs.Chd.Hunks.Plain.{
  plain_file, plain_image, IsReadable, IsPlain, read_bytes-plain_file,
}

-- A file in memory, which is not extended.
abbrev memory : Device Buffer
memory = record {
  read_at = λ offset count s. (none, slice s offset count);
  write_at = λ offset source s. (none, blit s offset source);
  size = λ s. ok (length s);
}

abbrev no_codecs : Codecs
no_codecs = record {
  decompress = λ tag packed size. (none, packed);
  lossy = λ tag. false;
  crc16 = λ b. 0;
  crc32 = λ b. 0;
}

abbrev rawmap : Buffer
rawmap = 0 ∷ 0 ∷ 0 ∷ 2 ∷ 0 ∷ 0 ∷ 0 ∷ 0 ∷ 0 ∷ 0 ∷ 0 ∷ 1 ∷ []

abbrev places : Places
places = record {
  m_metaoffset = 0;
  m_metaoffset_offset = 48;
  m_sha1_offset = 84;
  m_rawsha1_offset = 64;
  m_parentsha1_offset = 104;
}

abbrev contents : Buffer
contents = 0 ∷ 0 ∷ 0 ∷ 0 ∷ 21 ∷ 22 ∷ 23 ∷ 24 ∷ 11 ∷ 12 ∷ 13 ∷ 14 ∷ []

drop_nil : (n : ℕ) → drop {A = ℕ} n [] ≡ []
drop_nil zero = refl
drop_nil (suc n) = refl

past_map :
    (n k : ℕ)
    → k ≡ suc (suc (suc (suc (suc (suc (suc (suc (suc (suc (suc (suc (4 * n))))))))))))
    → get_u32be (drop k rawmap) * 4 ≡ 0
unfolding get_u32be
past_map n k e = rw (e, drop_nil (4 * n)) refl

readable : IsReadable memory no_codecs contents 4 3 1 124 true [] rawmap places
unfolding get_u32be
readable zero stored = (refl, refl)
readable (suc zero) stored = absurd (stored refl)
readable (suc (suc zero)) stored = (refl, refl)
readable (suc (suc (suc n))) stored =
    absurd (stored (past_map n (4 * suc (suc (suc n))) (omega arith)))

-- Six bytes from the last of the first hunk on, with nothing in the cache.
read_bytes-plain_file_example :
    (hs : List (File Buffer)) × (read_bytes
        (read_hunk memory no_codecs 1)
        (plain_file memory no_codecs contents 4 3 1 124 true [] rawmap places
            (0 ∷ 0 ∷ 0 ∷ 0 ∷ [])
            4294967295
          ∷ [])
        3
        (0 ∷ 0 ∷ 0 ∷ 0 ∷ 0 ∷ 0 ∷ [])
        6
      ≡ returns (
        none,
        slice
            (hunks (plain_image memory no_codecs contents 4 3 1 124 true [] rawmap places) 0 3)
            3
            6,
        hs,
      ))
    × IsPlain memory no_codecs contents 4 3 1 124 true [] rawmap places hs
read_bytes-plain_file_example =
    read_bytes-plain_file memory no_codecs contents 4 3 1 124 true [] rawmap places readable 0
      (omega arith) 3 6 (0 ∷ 0 ∷ 0 ∷ 0 ∷ 0 ∷ 0 ∷ []) (0 ∷ 0 ∷ 0 ∷ 0 ∷ []) 4294967295 (omega arith)
      (omega arith) (omega arith) (omega arith) refl refl (λ h. absurd (omega arith))

-- And these are the bytes.
six_bytes :
    slice (hunks (plain_image memory no_codecs contents 4 3 1 124 true [] rawmap places) 0 3) 3 6
    ≡ 14 ∷ 0 ∷ 0 ∷ 0 ∷ 0 ∷ 21 ∷ []
unfolding hunks get_u32be
six_bytes = refl

-- A compressed file of two hunks, neither of which is written yet.
abbrev new_file : File Buffer
new_file = record {
  m_file = some contents;
  m_allow_writes = true;
  m_version = 5;
  m_hunkbytes = 4;
  m_hunkcount = 2;
  m_unitbytes = 1;
  m_compression = codec_zlib ∷ [];
  m_mapoffset = 0;
  m_mapentrybytes = 12;
  m_rawmap = replicate 24 255;
  m_parent_missing = false;
  m_cache = 0 ∷ 0 ∷ 0 ∷ 0 ∷ [];
  m_cachehunk = 4294967295;
  m_places = places;
}

run_new : (run memory new_file 0 (compressed_as (some 0) (5 ∷ 6 ∷ []) 99)).0 ≡ none
unfolding hunk_write_compressed verify_proper_compression_append file_append pad_loop
run_new = refl

abbrev two_writes : List (ℕ × Write)
two_writes = (0, from_parent 3) ∷ (1, from_self 0) ∷ []

run-run_all_example :
    let g =
      run_all memory
        (run memory new_file 0 (compressed_as (some 0) (5 ∷ 6 ∷ []) 99)).1
        two_writes in
    run memory g 0 (from_parent 7) ≡ (some (chd compression_error), g)
unfolding libchdman_rs.Chd.Hunks.WriteLater.AreWrites
run-run_all_example =
    run-run_all memory new_file 0 (compressed_as (some 0) (5 ∷ 6 ∷ []) 99) two_writes
      (from_parent 7) (omega arith) (omega arith) run_new (tt, (tt, tt))
