-- ===== src/Chd/V5Map/Tests.antt =====
-- chd_file::compress_v5_map and decompress_v5_map: a map of five hunks, and the theorems at it.
use libchdman_rs.Prelude.{
  ℕ, zero, suc, ◌<◌, ◌*◌, replicate, ◌+◌, ◌%◌, ◌^◌, ◌≤◌, ◌≡◌, refl, List, [], ◌∷◌, length,
  if◌then◌else◌, ◌==◌, arith,
}
use libchdman_rs.Errors.{ok, err, chd, decompression_error}
use libchdman_rs.Chd.V5Map.{
  MapEntry, Geometry, Field, Reader, rle, flush_loop, flush_repeats, decode_types, expand, compress,
  promote_all, promote, promote_self, promote_parent, all_fields, entry_fields, widths_for,
  bits_for_value, bits_loop,
}
use libchdman_rs.Chd.V5Map.Types.{IsType, All, decode_types-rle}
use libchdman_rs.Chd.V5Map.TypeBounds.{length-rle}
use libchdman_rs.Chd.V5Map.RoundTrip.{WellFormed}
use libchdman_rs.Chd.V5Map.Huffman.{Node, Context, IsLookup}
use libchdman_rs.Chd.V5Map.Streams.{bit_reader, write_map, expand-write_map}
use libchdman_rs.Bytes.{byte}
use libchdman_rs.Bitstream.{bits_in}
use libchdman_rs.Bitstream.Reading.{read_fields, total, AtMost}
use libchdman_rs.Bitstream.RoundTrip.{widths}

-- A stream of numbers; a read cuts the number to the width.
abbrev take_one : List ℕ → ℕ × List ℕ
take_one [] = (0, [])
take_one (x ∷ xs) = (x, xs)

abbrev numbers : Reader (List ℕ)
numbers = record { decode_one = take_one; read = λ n b. ((take_one b).0 % 2 ^ n, (take_one b).1) }

abbrev geometry : Geometry
geometry = record { hunkbytes = 4096; unitbytes = 512 }

abbrev whole : MapEntry
whole = record { compression = 4; length = 4096; offset = 4096; crc = 77 }

abbrev packed : MapEntry
packed = record { compression = 1; length = 900; offset = 8192; crc = 78 }

abbrev again : MapEntry
again = record { compression = 5; length = 0; offset = 0; crc = 0 }

abbrev above : MapEntry
above = record { compression = 6; length = 0; offset = 32; crc = 0 }

abbrev entries : List MapEntry
entries = whole ∷ packed ∷ again ∷ again ∷ above ∷ []

abbrev sum_crc : List MapEntry → ℕ
sum_crc [] = 0
sum_crc (e ∷ es) = e.crc + sum_crc es

types-IsType : All IsType (4 ∷ 4 ∷ 4 ∷ 4 ∷ 5 ∷ [])
types-IsType = (
  (omega arith, omega arith),
  (
    (omega arith, omega arith),
    ((omega arith, omega arith), ((omega arith, omega arith), ((omega arith, omega arith), tt))),
  ),
)

symbols_lem : rle (4 ∷ 4 ∷ 4 ∷ 4 ∷ 5 ∷ []) 0 0 ≡ 4 ∷ 7 ∷ 0 ∷ 5 ∷ []
unfolding rle flush_repeats flush_loop
symbols_lem = refl

decode_types-rle_example :
    decode_types numbers 5 (4 ∷ 7 ∷ 0 ∷ 5 ∷ 9 ∷ []) 0 0 ≡ (4 ∷ 4 ∷ 4 ∷ 4 ∷ 5 ∷ [], 9 ∷ [])
decode_types-rle_example =
    decode_types-rle numbers (4 ∷ 4 ∷ 4 ∷ 4 ∷ 5 ∷ []) (4 ∷ 7 ∷ 0 ∷ 5 ∷ 9 ∷ []) (9 ∷ []) types-IsType
      (rw symbols_lem (refl, (refl, (refl, (refl, refl)))))

length-rle_example : length (rle (4 ∷ 4 ∷ 4 ∷ 4 ∷ 5 ∷ []) 0 0) ≤ 5
length-rle_example = length-rle (4 ∷ 4 ∷ 4 ∷ 4 ∷ 5 ∷ [])

entries-WellFormed : WellFormed geometry 4096 entries
entries-WellFormed = (
  record {
    kind = omega arith;
    length_fits = omega arith;
    crc_fits = omega arith;
    cur_fits = λ k. omega arith;
    stored = λ k. refl;
    whole = λ k. refl;
    refers = λ k. absurd (omega arith);
  },
  (
    record {
      kind = omega arith;
      length_fits = omega arith;
      crc_fits = omega arith;
      cur_fits = λ k. omega arith;
      stored = λ k. refl;
      whole = λ k. absurd (omega arith);
      refers = λ k. absurd (omega arith);
    },
    (
      record {
        kind = omega arith;
        length_fits = omega arith;
        crc_fits = omega arith;
        cur_fits = λ k. omega arith;
        stored = λ k. absurd (omega arith);
        whole = λ k. absurd (omega arith);
        refers = λ k. record { length_0 = refl; crc_0 = refl; small = omega arith };
      },
      (
        record {
          kind = omega arith;
          length_fits = omega arith;
          crc_fits = omega arith;
          cur_fits = λ k. omega arith;
          stored = λ k. absurd (omega arith);
          whole = λ k. absurd (omega arith);
          refers = λ k. record { length_0 = refl; crc_0 = refl; small = omega arith };
        },
        (
          record {
            kind = omega arith;
            length_fits = omega arith;
            crc_fits = omega arith;
            cur_fits = λ k. omega arith;
            stored = λ k. absurd (omega arith);
            whole = λ k. absurd (omega arith);
            refers = λ k. record { length_0 = refl; crc_0 = refl; small = omega arith };
          },
          tt,
        ),
      ),
    ),
  ),
)

symbols_entries : (compress sum_crc geometry entries).symbols ≡ 4 ∷ 1 ∷ 9 ∷ 9 ∷ 11 ∷ []
unfolding compress decode_types rle flush_repeats flush_loop promote_all promote promote_self
    promote_parent
symbols_entries = refl

fields_entries : (compress sum_crc geometry entries).fields ≡ (77, 16) ∷ (900, 13) ∷ (78, 16) ∷ []
unfolding compress decode_types rle flush_repeats flush_loop all_fields entry_fields widths_for
    bits_for_value bits_loop promote_all promote promote_self promote_parent
fields_entries = refl

-- A prefix code of the four symbols of this map, its lookup table, and two fields for the tree.
abbrev some_node : ℕ → Node
some_node x =
    if x == 4
    then record { m_bits = 0; m_numbits = 1 }
    else if x == 1
    then record { m_bits = 2; m_numbits = 2 }
    else if x == 9
    then record { m_bits = 6; m_numbits = 3 }
    else record { m_bits = 7; m_numbits = 3 }

abbrev some_code : Context
some_code = record {
  m_huffnode = some_node;
  m_lookup = 129 ∷ 129 ∷ 129 ∷ 129 ∷ 34 ∷ 34 ∷ 291 ∷ 355 ∷ [];
  m_maxbits = 3;
}

abbrev some_tree : List Field
some_tree = (5, 3) ∷ (9, 4) ∷ []

found_4 : (r : ℕ) → r < 2 ^ 2 → byte some_code.m_lookup (0 % 2 ^ 1 * 2 ^ 2 + r) ≡ 129
found_4 zero small = refl
found_4 (suc zero) small = refl
found_4 (suc (suc zero)) small = refl
found_4 (suc (suc (suc zero))) small = refl
found_4 (suc (suc (suc (suc r)))) small = absurd (omega (arith, small))

found_1 : (r : ℕ) → r < 2 ^ 1 → byte some_code.m_lookup (2 % 2 ^ 2 * 2 ^ 1 + r) ≡ 34
found_1 zero small = refl
found_1 (suc zero) small = refl
found_1 (suc (suc r)) small = absurd (omega (arith, small))

found_9 : (r : ℕ) → r < 2 ^ 0 → byte some_code.m_lookup (6 % 2 ^ 3 * 2 ^ 0 + r) ≡ 291
found_9 zero small = refl
found_9 (suc r) small = absurd (omega (arith, small))

found_11 : (r : ℕ) → r < 2 ^ 0 → byte some_code.m_lookup (7 % 2 ^ 3 * 2 ^ 0 + r) ≡ 355
found_11 zero small = refl
found_11 (suc r) small = absurd (omega (arith, small))

tables : All (IsLookup some_code) (4 ∷ 1 ∷ 9 ∷ 9 ∷ 11 ∷ [])
tables = (
  record { short = omega arith; brief = omega arith; fits = omega arith; found = found_4 },
  (
    record { short = omega arith; brief = omega arith; fits = omega arith; found = found_1 },
    (
      record { short = omega arith; brief = omega arith; fits = omega arith; found = found_9 },
      (
        record { short = omega arith; brief = omega arith; fits = omega arith; found = found_9 },
        (
          record { short = omega arith; brief = omega arith; fits = omega arith; found = found_11 },
          tt,
        ),
      ),
    ),
  ),
)

expand-write_map_example :
    let packed = compress sum_crc geometry entries in
    let src = (write_map some_code (replicate 8 0) some_tree packed).1.m_write in
    expand
      (bit_reader some_code src)
      sum_crc
      geometry
      packed.widths
      5
      packed.firstoffs
      155
      (read_fields src bits_in (widths some_tree)).1
    ≡ (if sum_crc entries == 155 then ok entries else err (chd decompression_error))
unfolding widths AtMost total
expand-write_map_example =
    expand-write_map some_code sum_crc geometry 4096 entries (replicate 8 0) some_tree 155
      (omega arith) entries-WellFormed (omega arith, (omega arith, tt)) (rw symbols_entries tables)
      (rw fields_entries (omega arith, (omega arith, (omega arith, tt))))
      (rw (symbols_entries, fields_entries) (omega arith)) (omega arith)
