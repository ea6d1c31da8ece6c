-- ===== src/Chd/V5Map.antt =====
-- mame-chd-src/src/lib/util/chd.cpp, chd_file::compress_v5_map and chd_file::decompress_v5_map: the
-- compressed form of a version 5 map. The types of the hunks go through a run-length code and then a
-- Huffman code; the numbers that a type needs follow as bit fields. Here both are met through the
-- interface `Reader`, and what they carry is a list of symbols and of fields; Streams puts the Huffman
-- code of Huffman and the bit streams of Bitstream in its place.
pub mod Types
pub mod TypeBounds
pub mod Fields
pub mod RoundTrip
pub mod WholeMap
pub mod Huffman
pub mod Streams
pub mod Tests
use libchdman_rs.Prelude.{
  ℕ, zero, suc, ◌+◌, ◌-◌, ◌*◌, ◌/◌, ◌%◌, ◌^◌, ◌≡◌, Bool, true, false, not, ◌&&◌, ◌||◌, List, [],
  ◌∷◌, ◌++◌, if◌then◌else◌, ltb, leb, ◌==◌, min, max, length,
}
use libchdman_rs.Errors.{Result, ok, err, chd, decompression_error}

-- The compression types of a version 5 map, and the pseudo-types of its compressed form.
abbrev pub compression_none : ℕ
compression_none = 4

abbrev pub compression_self : ℕ
compression_self = 5

abbrev pub compression_parent : ℕ
compression_parent = 6

abbrev pub compression_rle_small : ℕ
compression_rle_small = 7

abbrev pub compression_rle_large : ℕ
compression_rle_large = 8

abbrev pub compression_self_0 : ℕ
compression_self_0 = 9

abbrev pub compression_self_1 : ℕ
compression_self_1 = 10

abbrev pub compression_parent_self : ℕ
compression_parent_self = 11

abbrev pub compression_parent_0 : ℕ
compression_parent_0 = 12

abbrev pub compression_parent_1 : ℕ
compression_parent_1 = 13

-- The 12 bytes of a hunk in m_rawmap: a type, a 24-bit length, a 48-bit offset and a CRC-16.
pub record MapEntry : Type 0 where
  pub compression : ℕ
  pub length : ℕ
  pub offset : ℕ
  pub crc : ℕ

-- m_hunkbytes and m_unitbytes.
pub record Geometry : Type 0 where
  pub hunkbytes : ℕ
  pub unitbytes : ℕ

abbrev pub u32 : ℕ → ℕ
u32 n = n % 2 ^ 32

-- bits_for_value; `fuel` bounds the number of bits.
unfoldable pub bits_loop : ℕ → ℕ → ℕ
bits_loop zero value = 0
bits_loop (suc fuel) value = elim (value == 0) [
  | true ↦ 0
  | false ↦ suc (bits_loop fuel (value / 2))
]

unfoldable pub bits_for_value : ℕ → ℕ
unfolding bits_loop
bits_for_value value = bits_loop 64 value

-- What the first loop of compress_v5_map tracks from hunk to hunk.
pub record Tracked : Type 0 where
  pub max_self : ℕ
  pub last_self : ℕ
  pub max_parent : ℕ
  pub last_parent : ℕ
  pub max_complen : ℕ

abbrev pub tracked_start : Tracked
tracked_start = record {
  max_self = 0;
  last_self = 0;
  max_parent = 0;
  last_parent = 0;
  max_complen = 0;
}

-- The unit of the parent at the place of a hunk: mulu_32x32(hunknum, m_hunkbytes) / m_unitbytes.
abbrev pub same_unit : Geometry → ℕ → ℕ
same_unit g hunknum = hunknum * g.hunkbytes / g.unitbytes

-- The first loop of compress_v5_map, for one hunk: the type, promoted to a shorter form where there is
-- one, and the new state. The reference is cut to a uint32_t.
unfoldable pub promote_self : MapEntry → Tracked → ℕ × Tracked
promote_self e s =
    let refhunk = u32 e.offset in
    let next = record s { last_self = refhunk } in
    if refhunk == s.last_self
    then (compression_self_0, next)
    else if refhunk == u32 (s.last_self + 1)
    then (compression_self_1, next)
    else (compression_self, record next { max_self = max s.max_self refhunk })

unfoldable pub promote_parent : Geometry → ℕ → MapEntry → Tracked → ℕ × Tracked
promote_parent g hunknum e s =
    let refunit = u32 e.offset in
    let next = record s { last_parent = refunit } in
    if refunit == same_unit g hunknum
    then (compression_parent_self, next)
    else if refunit == s.last_parent
    then (compression_parent_0, next)
    else if refunit == s.last_parent + g.hunkbytes / g.unitbytes
    then (compression_parent_1, next)
    else (compression_parent, record next { max_parent = max s.max_parent refunit })

unfoldable pub promote : Geometry → ℕ → MapEntry → Tracked → ℕ × Tracked
unfolding promote_self promote_parent
promote g hunknum e s =
    if e.compression == compression_self
    then promote_self e s
    else if e.compression == compression_parent
    then promote_parent g hunknum e s
    else (e.compression, record s { max_complen = max s.max_complen e.length })

-- The promoted types of the hunks from `hunknum` on, and the final state.
unfoldable pub promote_all : Geometry → ℕ → List MapEntry → Tracked → List ℕ × Tracked
unfolding promote
promote_all g hunknum [] s = ([], s)
promote_all g hunknum (e ∷ es) s =
    let (c, s') = promote g hunknum e s in
    let (cs, s'') = promote_all g (hunknum + 1) es s' in (c ∷ cs, s'')

-- `while (count != 0)`: the symbols for `count` repeats of `lastcomp`. Each round takes one repeat at
-- least, so `count` rounds are enough.
unfoldable pub flush_loop : ℕ → ℕ → ℕ → List ℕ
flush_loop zero count lastcomp = []
flush_loop (suc fuel) count lastcomp =
    let one = lastcomp ∷ flush_loop fuel (count - 1) lastcomp in
    let this_count = min count (3 + 16 + 255) in
    let large =
      compression_rle_large
      ∷ (this_count - 3 - 16) / 16
      ∷ (this_count - 3 - 16) % 16
      ∷ flush_loop fuel (count - this_count) lastcomp in
    if count == 0
    then []
    else if ltb count 3
    then one
    else if leb count (3 + 15)
    then compression_rle_small ∷ (count - 3) ∷ []
    else large

unfoldable pub flush_repeats : ℕ → ℕ → List ℕ
flush_repeats count lastcomp = flush_loop count count lastcomp

abbrev pub is_nil {ℓ} : {A : Type ℓ} → List A → Bool
is_nil [] = true
is_nil (x ∷ xs) = false

-- The run-length code of the types: `lastcomp` and `count` are the state of the loop.
unfoldable pub rle : List ℕ → ℕ → ℕ → List ℕ
rle [] lastcomp count = []
rle (c ∷ cs) lastcomp count =
    let count' = if c == lastcomp then count + 1 else count in
    let changed = flush_repeats count' lastcomp ++ (c ∷ rle cs c 0) in
    let ended = flush_repeats count' lastcomp ++ rle cs lastcomp 0 in
    let running = rle cs lastcomp count' in
    if not (c == lastcomp) then changed else if is_nil cs then ended else running

-- A bit field: its value and its width.
abbrev pub Field : Type 0
Field = ℕ × ℕ

-- lengthbits, selfbits and parentbits.
pub record Widths : Type 0 where
  pub lengthbits : ℕ
  pub selfbits : ℕ
  pub parentbits : ℕ

unfoldable pub widths_for : Tracked → Widths
unfolding bits_for_value
widths_for s = record {
  lengthbits = bits_for_value s.max_complen;
  selfbits = bits_for_value s.max_self;
  parentbits = bits_for_value s.max_parent;
}

-- The second loop of compress_v5_map, for one hunk: the fields that follow the types.
unfoldable pub entry_fields : Widths → ℕ → MapEntry → List Field
entry_fields w comp e =
    if ltb comp compression_none
    then (e.length, w.lengthbits) ∷ (e.crc, 16) ∷ []
    else if comp == compression_none
    then (e.crc, 16) ∷ []
    else if comp == compression_self
    then (e.offset, w.selfbits) ∷ []
    else if comp == compression_parent
    then (e.offset, w.parentbits) ∷ []
    else []

unfoldable pub all_fields : Widths → List ℕ → List MapEntry → List Field
unfolding entry_fields
all_fields w [] es = []
all_fields w (c ∷ cs) [] = []
all_fields w (c ∷ cs) (e ∷ es) = entry_fields w c e ++ all_fields w cs es

-- `firstoffs`: the first offset of stored data that is not 0.
unfoldable pub first_offset : ℕ → List ℕ → List MapEntry → ℕ
first_offset firstoffs [] es = firstoffs
first_offset firstoffs (c ∷ cs) [] = firstoffs
first_offset firstoffs (c ∷ cs) (e ∷ es) =
    first_offset (if leb c compression_none && (firstoffs == 0) then e.offset else firstoffs) cs es

-- What a stream of Huffman symbols and bit fields gives its reader: decode_one and read.
pub record Reader (B : Type 0) : Type 0 where
  pub decode_one : B → ℕ × B
  pub read : ℕ → B → ℕ × B

-- curoffset, last_self and last_parent of the second loop of decompress_v5_map.
pub record Cursor : Type 0 where
  pub curoffset : ℕ
  pub last_self : ℕ
  pub last_parent : ℕ

abbrev pub u64 : ℕ → ℕ
u64 n = n % 2 ^ 64

-- An entry as put_u24be, put_u48be and put_u16be store it.
unfoldable pub unpacked : ℕ → ℕ → ℕ → ℕ → MapEntry
unpacked comp length offset crc = record {
  compression = comp;
  length = length % 2 ^ 24;
  offset = offset % 2 ^ 48;
  crc = crc % 2 ^ 16;
}

module _ {B : Type 0} (reader : Reader B) where
  open reader use {decode_one, read}

  -- The first loop of decompress_v5_map, for `n` hunks: their types.
  unfoldable pub decode_types : ℕ → B → ℕ → ℕ → List ℕ × B
  decode_types zero b lastcomp repcount = ([], b)
  decode_types (suc n) b lastcomp (suc repcount) =
      let (cs, b') = decode_types n b lastcomp repcount in (lastcomp ∷ cs, b')
  decode_types (suc n) b lastcomp zero =
      let (val, b₁) = decode_one b in
      let (x, b₂) = decode_one b₁ in
      let (y, b₃) = decode_one b₂ in
      let small = decode_types n b₂ lastcomp (2 + x) in
      let large = decode_types n b₃ lastcomp (2 + 16 + x * 16 + y) in
      let plain = decode_types n b₁ val 0 in
      if val == compression_rle_small
      then (lastcomp ∷ small.0, small.1)
      else if val == compression_rle_large
      then (lastcomp ∷ large.0, large.1)
      else (val ∷ plain.0, plain.1)

  -- The second loop of decompress_v5_map, for one hunk of type `comp`.
  unfoldable pub decode_entry : Geometry → Widths → ℕ → ℕ → B → Cursor → MapEntry × B × Cursor
  unfolding unpacked
  decode_entry g w hunknum comp b s =
      let (length, b₁) = read w.lengthbits b in
      let (crc, b₂) = read 16 b₁ in
      let (crc', b₁') = read 16 b in
      let (self, bₛ) = read w.selfbits b in
      let (parent, bₚ) = read w.parentbits b in
      let next_self = u32 (s.last_self + 1) in
      let next_parent = u64 (s.last_parent + g.hunkbytes / g.unitbytes) in
      if ltb comp compression_none
      then (
        unpacked comp length s.curoffset crc,
        b₂,
        record s { curoffset = u64 (s.curoffset + length) },
      )
      else if comp == compression_none
      then (
        unpacked comp g.hunkbytes s.curoffset crc',
        b₁',
        record s { curoffset = u64 (s.curoffset + g.hunkbytes) },
      )
      else if comp == compression_self
      then (unpacked compression_self 0 self 0, bₛ, record s { last_self = self })
      else if comp == compression_parent
      then (unpacked compression_parent 0 parent 0, bₚ, record s { last_parent = parent })
      else if comp == compression_self_1
      then (unpacked compression_self 0 next_self 0, b, record s { last_self = next_self })
      else if comp == compression_self_0
      then (unpacked compression_self 0 s.last_self 0, b, s)
      else if comp == compression_parent_self
      then (
        unpacked compression_parent 0 (same_unit g hunknum) 0,
        b,
        record s { last_parent = same_unit g hunknum },
      )
      else if comp == compression_parent_1
      then (unpacked compression_parent 0 next_parent 0, b, record s { last_parent = next_parent })
      else if comp == compression_parent_0
      then (unpacked compression_parent 0 s.last_parent 0, b, s)
      else (unpacked comp 0 s.curoffset 0, b, s)

  unfoldable pub decode_entries : Geometry → Widths → ℕ → List ℕ → B → Cursor → List MapEntry × B
  decode_entries g w hunknum [] b s = ([], b)
  decode_entries g w hunknum (c ∷ cs) b s =
      let (e, b', s') = decode_entry g w hunknum c b s in
      let (es, b'') = decode_entries g w (hunknum + 1) cs b' s' in (e ∷ es, b'')

  -- decompress_v5_map behind the header of the map: the types, the entries, and the check of the
  -- map's CRC, which `crc16` computes from the entries.
  unfoldable pub expand :
      (List MapEntry → ℕ) → Geometry → Widths → ℕ → ℕ → ℕ → B → Result (List MapEntry)
  expand crc16 g w hunkcount firstoffs mapcrc b =
      let (cs, b') = decode_types hunkcount b 0 0 in
      let start : Cursor = record { curoffset = firstoffs; last_self = 0; last_parent = 0 } in
      let (es, _) = decode_entries g w 0 cs b' start in
      if crc16 es == mapcrc then ok es else err (chd decompression_error)

-- What compress_v5_map writes: the symbols, the fields behind them, and the header's numbers.
pub record Packed : Type 0 where
  pub symbols : List ℕ
  pub fields : List Field
  pub firstoffs : ℕ
  pub mapcrc : ℕ
  pub widths : Widths

-- The bytes that `*src++` reads of compression_rle.
abbrev pub next_symbol : List ℕ → ℕ × List ℕ
next_symbol [] = (0, [])
next_symbol (x ∷ xs) = (x, xs)

abbrev pub rle_reader : Reader (List ℕ)
rle_reader = record { decode_one = next_symbol; read = λ n b. (0, b) }

-- compress_v5_map, up to the Huffman code, the bit stream and the write to the file. Its second loop
-- gets the types again from the run-length symbols, with the same steps as decompress_v5_map.
unfoldable pub compress : (List MapEntry → ℕ) → Geometry → List MapEntry → Packed
compress crc16 g es =
    let (promoted, s) = promote_all g 0 es tracked_start in
    let compression_rle = rle promoted 0 0 in
    let (cs, _) = decode_types rle_reader (length es) compression_rle 0 0 in
    let w = widths_for s in
    record {
      symbols = compression_rle;
      fields = all_fields w cs es;
      firstoffs = first_offset 0 cs es;
      mapcrc = crc16 es;
      widths = w;
    }
