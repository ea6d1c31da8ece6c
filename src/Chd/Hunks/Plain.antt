-- ===== src/Chd/Hunks/Plain.antt =====
-- chd_file::read_hunk and read_bytes on an uncompressed file of version 5 that has no parent.
use libchdman_rs.Prelude.{
  ℕ, suc, ◌+◌, ◌*◌, ◌%◌, ◌^◌, ◌≡◌, ◌≢◌, ◌<◌, ◌≤◌, refl, ap, ◌∙◌, sym, Bool, true, false, none, some,
  List, [], ◌∷◌, if◌then◌else◌, leb, ◌==◌, Bool-cases, ==_iff, length, slice, replicate, drop,
  overwrite_same, length-replicate, inl, inr, arith,
}
use libchdman_rs.Bytes.{Buffer, get_u32be}
use libchdman_rs.Chd.Hunks.{Device, Codecs, File, Places, returns, file_read}
use libchdman_rs.Chd.Hunks.Access.{set_cache, read_hunk, read_hunk_plain, read_bytes}
use libchdman_rs.Chd.Hunks.Image.{hunks, Serves}
use libchdman_rs.Chd.Hunks.ReadBytes.{read_bytes-hunks}

module _ {S : Type 0} (device : Device S) (codecs : Codecs) (s : S)
    (size count unitbytes mapoffset : ℕ) (writes : Bool) (others : List ℕ) (rawmap : Buffer)
    (places : Places) where
  open device use {read_at}

  -- Such a file: its first codec is CHD_CODEC_NONE, and it lacks no parent.
  abbrev pub plain_file : Buffer → ℕ → File S
  plain_file cache cachehunk = record {
    m_file = some s;
    m_allow_writes = writes;
    m_version = 5;
    m_hunkbytes = size;
    m_hunkcount = count;
    m_unitbytes = unitbytes;
    m_compression = 0 ∷ others;
    m_mapoffset = mapoffset;
    m_mapentrybytes = 4;
    m_rawmap = rawmap;
    m_parent_missing = false;
    m_cache = cache;
    m_cachehunk = cachehunk;
    m_places = places;
  }

  abbrev pub block_at : ℕ → ℕ
  block_at n = get_u32be (drop (4 * n) rawmap) * size

  -- The hunks of the file: zeros where none is allocated, and else what the device holds.
  abbrev pub plain_image : ℕ → Buffer
  plain_image n = if block_at n == 0 then replicate size 0 else (read_at (block_at n) size s).1

  -- The device delivers every hunk that is allocated.
  abbrev pub IsReadable : Type 0
  IsReadable =
      (n : ℕ)
      → block_at n ≢ 0
      → ((read_at (block_at n) size s).0 ≡ none) × (length (read_at (block_at n) size s).1 ≡ size)

  -- The states of the file between reads: the cache holds the hunk that it is said to hold.
  pub data IsPlain : List (File S) → Type 0 where
    kept :
        (cache : Buffer) (cachehunk : ℕ)
        → length cache ≡ size
        → (cachehunk < count → cache ≡ plain_image cachehunk)
        → IsPlain (plain_file cache cachehunk ∷ [])

  module _ (readable : IsReadable) (fuel : ℕ) (short_map : count ≤ 2 ^ 30) where
    plain_image-length : (n : ℕ) → length (plain_image n) ≡ size
    plain_image-length n = elim (Bool-cases (block_at n == 0)) [
      | inl none_ ↦ rw none_ (length-replicate size 0)
      | inr some_ ↦ rw some_ (readable n (λ e. absurd (ground (arith, e, some_)))).1
    ]

    file_read-block :
        (cache : Buffer) (cachehunk n : ℕ)
        → block_at n ≢ 0
        → file_read device (plain_file cache cachehunk) (block_at n) size
          ≡ (none, (read_at (block_at n) size s).1)
    unfolding file_read
    file_read-block cache cachehunk n stored =
        let full : (length (read_at (block_at n) size s).1 == size) ≡ true =
          (==_iff _ size).1 (readable n stored).1 in
        rw ((readable n stored).0, full) refl

    reads_hunk :
        (gs : List (File S)) (n : ℕ) (dest : Buffer)
        → IsPlain gs
        → n < count
        → length dest ≡ size
        → (hs : List (File S)) × (read_hunk device codecs (suc fuel) gs n dest
            ≡ returns (none, plain_image n, hs))
          × IsPlain hs
    unfolding read_hunk read_hunk_plain
    reads_hunk gs n dest (kept cache cachehunk l c) h len =
        let valid : leb count n ≡ false = ground (arith, h) in
        let narrow : 4 * n % 2 ^ 32 ≡ 4 * n = omega (arith, h, short_map) in
        (
          plain_file cache cachehunk ∷ [],
          elim (Bool-cases (block_at n == 0)) [
            | inl none_ ↦
                rw (valid, read_hunk_plain, narrow, none_)
                  (ap (λ b. returns (none, b, plain_file cache cachehunk ∷ []))
                    (overwrite_same dest (replicate size 0) (length-replicate size 0 ∙ sym len)))
            | inr some_ ↦
                let stored : block_at n ≢ 0 = λ e. absurd (ground (arith, e, some_)) in
                rw (valid, read_hunk_plain, narrow, some_, file_read-block cache cachehunk n stored)
                  (ap (λ b. returns (none, b, plain_file cache cachehunk ∷ []))
                    (overwrite_same dest (read_at (block_at n) size s).1
                      ((readable n stored).1 ∙ sym len)))
          ],
          kept cache cachehunk l c,
        )

    fills_cache :
        (gs : List (File S)) (n : ℕ)
        → IsPlain gs
        → n < count
        → IsPlain (set_cache gs (plain_image n) n)
    fills_cache gs n (kept cache cachehunk l c) h =
        kept (plain_image n) n (plain_image-length n) (λ _. refl)

    not_empty : ¬ (IsPlain [])
    not_empty p = elim p [ ]

    same_size : {f : File S} {fs : List (File S)} → IsPlain (f ∷ fs) → f.m_hunkbytes ≡ size
    same_size (kept cache cachehunk l c) = refl

    cache_held :
        {f : File S} {fs : List (File S)}
        → IsPlain (f ∷ fs)
        → f.m_cachehunk < count
        → f.m_cache ≡ plain_image f.m_cachehunk
    cache_held (kept cache cachehunk l c) h = c h

    cache_size : {f : File S} {fs : List (File S)} → IsPlain (f ∷ fs) → length f.m_cache ≡ size
    cache_size (kept cache cachehunk l c) = l

    read_hunk-Serves : Serves (read_hunk device codecs (suc fuel)) size count plain_image IsPlain
    read_hunk-Serves = record {
      sized = plain_image-length;
      opened = not_empty;
      hunkbytes = same_size;
      reads = reads_hunk;
      fills = fills_cache;
      cached = cache_held;
      allocated = cache_size;
    }

    -- read_bytes of one byte or more inside an uncompressed file of version 5 without a parent, of
    -- at most 2 ^ 30 hunks, whose allocated hunks the device delivers, where the cache holds the
    -- hunk that it is said to hold, or is said to hold none of the file, gives exactly the bytes of
    -- its hunks one behind the other, and leaves such a cache.
    pub read_bytes-plain_file :
        (offset bytes : ℕ) (dest cache : Buffer) (cachehunk : ℕ)
        → 0 < size
        → 0 < bytes
        → offset + bytes ≤ size * count
        → offset + bytes < 2 ^ 64
        → length dest ≡ bytes
        → length cache ≡ size
        → (cachehunk < count → cache ≡ plain_image cachehunk)
        → (hs : List (File S)) × (read_bytes
              (read_hunk device codecs (suc fuel))
              (plain_file cache cachehunk ∷ [])
              offset
              dest
              bytes
            ≡ returns (none, slice (hunks plain_image 0 count) offset bytes, hs))
          × IsPlain hs
    read_bytes-plain_file offset bytes dest cache cachehunk pos some_ inside fits l lc c =
        read_bytes-hunks (read_hunk device codecs (suc fuel)) size count plain_image IsPlain
          read_hunk-Serves offset bytes (plain_file cache cachehunk ∷ []) dest pos
          (omega (arith, short_map)) some_ inside fits l (kept cache cachehunk lc c)
