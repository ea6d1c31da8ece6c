-- ===== src/Chd/V5Map/Streams.antt =====
-- chd_file::compress_v5_map and decompress_v5_map over the streams of bitstream.h: the run-length
-- symbols go through encode_one and decode_one of huffman.h, the fields behind them through write and
-- read. What export_tree_rle writes in front, and import_tree_rle reads, are any fields.
use mathlib.Core.Path.{subst}
use libchdman_rs.Prelude.{
  ℕ, ◌^◌, ◌+◌, ◌*◌, ◌<◌, ◌≤◌, ◌≡◌, refl, sym, ap, ◌∙◌, List, [], ◌∷◌, ◌++◌, length, if◌then◌else◌,
  ◌==◌, arith,
}
use libchdman_rs.Bytes.{Buffer}
use libchdman_rs.Errors.{ok, err, chd, decompression_error}
use libchdman_rs.Bitstream.{BitsIn, BitsOut, bits_in, bits_out, read, write, flush_out}
use libchdman_rs.Bitstream.Filling.{At}
use libchdman_rs.Bitstream.Reading.{
  read_fields, windows, total, AtMost, read-At, bits_in-At, read_fields-At,
}
use libchdman_rs.Bitstream.RoundTrip.{write_fields, widths, low_bits, write_fields-windows}
use libchdman_rs.Chd.V5Map.{MapEntry, Geometry, Field, Reader, Packed, expand, compress}
use libchdman_rs.Chd.V5Map.Types.{All, Yields}
use libchdman_rs.Chd.V5Map.Fields.{YieldsFields}
use libchdman_rs.Chd.V5Map.RoundTrip.{WellFormed}
use libchdman_rs.Chd.V5Map.WholeMap.{expand-compress}
use libchdman_rs.Chd.V5Map.Huffman.{
  Context, encode_all, encode_one, decode_one, IsLookup, decode_one-coded,
}

-- decoder.decode_one(bitbuf) and bitbuf.read(numbits).
abbrev pub bit_reader : Context → Buffer → Reader BitsIn
bit_reader h src = record { decode_one = decode_one h src; read = λ n s. read src s n }

-- The writes of compress_v5_map to its bitstream_out, and the flush: the tree, the symbols, the fields.
unfoldable pub write_map : Context → Buffer → List Field → Packed → ℕ × BitsOut
write_map h dest tree p =
    flush_out (write_fields (encode_all h (write_fields (bits_out dest) tree) p.symbols) p.fields)

module _ (h : Context) where
  -- The symbols as fields: their codes.
  abbrev pub codes : List ℕ → List Field
  codes [] = []
  codes (x ∷ xs) = ((h.m_huffnode x).m_bits, (h.m_huffnode x).m_numbits) ∷ codes xs

  encode_all-codes : (s : BitsOut) (xs : List ℕ) → encode_all h s xs ≡ write_fields s (codes xs)
  unfolding encode_all encode_one write_fields
  encode_all-codes s [] = refl
  encode_all-codes s (x ∷ xs) = encode_all-codes (encode_one h s x) xs

write_fields-append :
    (xs ys : List Field) (s : BitsOut)
    → write_fields (write_fields s xs) ys ≡ write_fields s (xs ++ ys)
unfolding write_fields
write_fields-append [] ys s = refl
write_fields-append ((x, n) ∷ xs) ys s = write_fields-append xs ys (write s x n)

-- The data at p holds the fields one behind the other.
abbrev AtFields : Buffer → ℕ → List Field → Type 0
AtFields src p fields = windows src p (widths fields) ≡ low_bits fields

head_same : {x y : ℕ} {xs ys : List ℕ} → Path (List ℕ) (x ∷ xs) (y ∷ ys) → x ≡ y
head_same e = cc e

tail_same : {x y : ℕ} {xs ys : List ℕ} → Path (List ℕ) (x ∷ xs) (y ∷ ys) → xs ≡ ys
tail_same e = cc e

fields_behind :
    (src : Buffer) (p : ℕ) (xs ys : List Field)
    → AtFields src p (xs ++ ys)
    → AtFields src (p + total (widths xs)) ys
unfolding windows widths low_bits total
fields_behind src p [] ys same = subst (λ q. AtFields src q ys) (omega arith) same
fields_behind src p ((x, n) ∷ xs) ys same =
    subst (λ q. AtFields src q ys) (omega arith) (fields_behind src (p + n) xs ys (tail_same same))

total-widths :
    (xs ys : List Field) → total (widths (xs ++ ys)) ≡ total (widths xs) + total (widths ys)
unfolding widths total
total-widths [] ys = omega arith
total-widths ((x, n) ∷ xs) ys = omega (arith, total-widths xs ys)

AtMost-append :
    (k : ℕ) (xs ys : List Field)
    → AtMost k (widths xs)
    → AtMost k (widths ys)
    → AtMost k (widths (xs ++ ys))
unfolding widths AtMost
AtMost-append k [] ys a b = b
AtMost-append k ((x, n) ∷ xs) ys (a, rest) b = (a, AtMost-append k xs ys rest b)

AtMost-wider : (j k : ℕ) (ns : List ℕ) → j ≤ k → AtMost j ns → AtMost k ns
unfolding AtMost
AtMost-wider j k [] le a = tt
AtMost-wider j k (n ∷ ns) le (a, rest) = (omega (arith, a, le), AtMost-wider j k ns le rest)

module _ (h : Context) (src : Buffer) where
  codes_narrow : (xs : List ℕ) → All (IsLookup h) xs → AtMost 32 (widths (codes h xs))
  unfolding widths AtMost
  codes_narrow [] tables = tt
  codes_narrow (x ∷ xs) (table, tables) = (omega (arith, table.fits), codes_narrow xs tables)

  symbols_back :
      (p : ℕ) (s : BitsIn) (xs : List ℕ) (ys : List Field)
      → At src p s
      → All (IsLookup h) xs
      → AtFields src p (codes h xs ++ ys)
      → p + total (widths (codes h xs)) + 40 ≤ 2 ^ 35
      → (m : BitsIn) × Yields (bit_reader h src) s xs m × At src (p + total (widths (codes h xs))) m
  unfolding windows widths low_bits total
  symbols_back p s [] ys at tables same near = (s, refl, subst (λ q. At src q s) (omega arith) at)
  symbols_back p s (x ∷ xs) ys at (table, tables) same near =
      let (value, after) =
        decode_one-coded h src p s x at table (head_same same) (omega (arith, near)) in
      let n : ℕ = (h.m_huffnode x).m_numbits in
      let (m, yields, end) =
        symbols_back (p + n) (decode_one h src s).1 xs ys after tables (tail_same same)
          (omega (arith, near)) in
      (m, (value, yields), subst (λ q. At src q m) (omega arith) end)

  fields_back :
      (p : ℕ) (s : BitsIn) (ys : List Field)
      → At src p s
      → AtMost 25 (widths ys)
      → AtFields src p ys
      → p + total (widths ys) + 40 ≤ 2 ^ 35
      → (m : BitsIn) × YieldsFields (bit_reader h src) s ys m
  unfolding windows widths low_bits AtMost total
  fields_back p s [] at narrow same near = (s, refl)
  fields_back p s ((v, n) ∷ ys) at (narrow, rest) same near =
      let (value, after) = read-At src p s n at narrow (omega (arith, near)) in
      let (m, yields) =
        fields_back (p + n) (read src s n).1 ys after rest (tail_same same) (omega (arith, near)) in
      (m, (value ∙ head_same same, yields))

-- What stands in the buffer after the writes of the map.
write_map-fields :
    (h : Context) (dest : Buffer) (tree : List Field) (p : Packed)
    → AtMost 32 (widths (tree ++ (codes h p.symbols ++ p.fields)))
    → total (widths (tree ++ (codes h p.symbols ++ p.fields))) ≤ 8 * length dest
    → length dest < 2 ^ 32
    → AtFields (write_map h dest tree p).1.m_write 0 (tree ++ (codes h p.symbols ++ p.fields))
unfolding write_map
write_map-fields h dest tree p narrow room short =
    let t = write_fields (bits_out dest) tree in
    let as_fields : write_fields (encode_all h t p.symbols) p.fields
        ≡ write_fields (bits_out dest) (tree ++ (codes h p.symbols ++ p.fields)) =
      ap (λ s. write_fields s p.fields) (encode_all-codes h t p.symbols)
      ∙ write_fields-append (codes h p.symbols) p.fields t
      ∙ write_fields-append tree (codes h p.symbols ++ p.fields) (bits_out dest) in
    let (size, back, same) =
      write_fields-windows dest (tree ++ (codes h p.symbols ++ p.fields)) narrow room short in
    subst (λ s. AtFields (flush_out s).1.m_write 0 (tree ++ (codes h p.symbols ++ p.fields)))
      (sym as_fields) back

-- For a map whose entries are as the writers of hunks leave them, with consecutive stored data from
-- an offset above 0 on and references below 2 ^ 32, where each field that follows the types, and
-- each field of the tree, has 25 bits at most (so the references that are written are below 2 ^
-- 25), the lookup table of the decoder, of 25 bits at most, has each symbol of the map and the
-- length of its code, below 32, wherever the code stands in front, and all fits the buffer, of at
-- most 2 ^ 32 - 8 bytes: from what compress_v5_map writes to its bit stream, the fields of the
-- tree, the codes of the symbols and the fields, decompress_v5_map behind the reads of the fields
-- of the tree gives exactly the entries of the map back where the CRC in the header is theirs, and
-- a decompression error where it is not.
pub expand-write_map :
    (h : Context) (crc16 : List MapEntry → ℕ) (g : Geometry) (start : ℕ) (es : List MapEntry)
    (dest : Buffer) (tree : List Field) (mapcrc : ℕ)
    → 0 < start
    → WellFormed g start es
    → AtMost 25 (widths tree)
    → All (IsLookup h) (compress crc16 g es).symbols
    → AtMost 25 (widths (compress crc16 g es).fields)
    → total (widths tree)
        + total (widths (codes h (compress crc16 g es).symbols))
        + total (widths (compress crc16 g es).fields)
      ≤ 8 * length dest
    → length dest + 8 ≤ 2 ^ 32
    → let packed = compress crc16 g es in
      let src = (write_map h dest tree packed).1.m_write in
      expand
        (bit_reader h src)
        crc16
        g
        packed.widths
        (length es)
        packed.firstoffs
        mapcrc
        (read_fields src bits_in (widths tree)).1
      ≡ (if crc16 es == mapcrc then ok es else err (chd decompression_error))
expand-write_map h crc16 g start es dest tree mapcrc pos form narrow tables narrow' room short =
    let p = compress crc16 g es in
    let cs = codes h p.symbols in
    let src = (write_map h dest tree p).1.m_write in
    let t : ℕ = total (widths tree) in
    let held : AtFields src 0 (tree ++ (cs ++ p.fields)) =
      write_map-fields h dest tree p
        (AtMost-append 32 tree (cs ++ p.fields)
          (AtMost-wider 25 32 (widths tree) (omega arith) narrow)
          (AtMost-append 32 cs p.fields (codes_narrow h src p.symbols tables)
            (AtMost-wider 25 32 (widths p.fields) (omega arith) narrow')))
        (omega (arith, room, total-widths tree (cs ++ p.fields), total-widths cs p.fields))
        (omega (arith, short)) in
    let behind_tree : AtFields src (0 + t) (cs ++ p.fields) =
      fields_behind src 0 tree (cs ++ p.fields) held in
    let (values, ready) =
      read_fields-At src 0 bits_in (widths tree) (bits_in-At src) narrow
        (omega (arith, room, short)) in
    let (m, types, middle) =
      symbols_back h src (0 + t) (read_fields src bits_in (widths tree)).1 p.symbols p.fields ready
        tables behind_tree (omega (arith, room, short)) in
    let (b', fields) =
      fields_back h src (0 + t + total (widths cs)) m p.fields middle narrow'
        (fields_behind src (0 + t) cs p.fields behind_tree) (omega (arith, room, short)) in
    expand-compress (bit_reader h src) crc16 g start es (read_fields src bits_in (widths tree)).1 m
      b' pos form types fields mapcrc
