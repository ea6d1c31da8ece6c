-- ===== src/Bitstream/Tests.antt =====
-- The bit streams on a few fields.
use libchdman_rs.Prelude.{
  ℕ, ◌+◌, ◌*◌, ◌/◌, ◌≡◌, ◌<◌, ◌⊎◌, refl, true, false, List, [], ◌∷◌, length, replicate, arith,
}
use libchdman_rs.Bytes.{Buffer}
use libchdman_rs.Bitstream.{bits_in, bits_out, flush_out, read_offset, overflow}
use libchdman_rs.Bitstream.Reading.{read_fields, windows, total, read_fields-windows}
use libchdman_rs.Bitstream.RoundTrip.{
  write_fields, widths, low_bits, write_fields-windows, read_fields-write_fields,
}

abbrev some_data : Buffer
some_data = 165 ∷ 60 ∷ 15 ∷ 129 ∷ 126 ∷ 85 ∷ 195 ∷ 154 ∷ 178 ∷ 52 ∷ []

abbrev some_fields : List (ℕ × ℕ)
some_fields = (5, 3) ∷ (1000, 10) ∷ (70000, 24) ∷ (1, 1) ∷ []

read_fields-windows_example :
    let (results, end) = read_fields some_data bits_in (3 ∷ 10 ∷ 24 ∷ 25 ∷ []) in
    (results ≡ windows some_data 0 (3 ∷ 10 ∷ 24 ∷ 25 ∷ []))
    × (read_offset end ≡ (62 + 7) / 8)
    × (((overflow some_data end ≡ true) × (8 * 10 < 62))
        ⊎ ((overflow some_data end ≡ false) × (62 < 8 * 10 + 8)))
unfolding total libchdman_rs.Bitstream.Reading.AtMost
read_fields-windows_example =
    read_fields-windows some_data (3 ∷ 10 ∷ 24 ∷ 25 ∷ [])
      (omega arith, (omega arith, (omega arith, (omega arith, tt)))) (omega arith)

write_fields-windows_example :
    let (size, end) = flush_out (write_fields (bits_out (replicate 5 0)) some_fields) in
    (size ≡ 5)
    × (windows end.m_write 0 (3 ∷ 10 ∷ 24 ∷ 1 ∷ []) ≡ 5 ∷ 1000 ∷ 70000 ∷ 1 ∷ [])
    × (length end.m_write ≡ 5)
unfolding total widths low_bits libchdman_rs.Bitstream.Reading.AtMost
write_fields-windows_example =
    write_fields-windows (replicate 5 0) some_fields
      (omega arith, (omega arith, (omega arith, (omega arith, tt)))) (omega arith) (omega arith)

read_fields-write_fields_example :
    let (size, end) = flush_out (write_fields (bits_out (replicate 5 0)) some_fields) in
    (read_fields end.m_write bits_in (3 ∷ 10 ∷ 24 ∷ 1 ∷ [])).0 ≡ 5 ∷ 1000 ∷ 70000 ∷ 1 ∷ []
unfolding total widths low_bits libchdman_rs.Bitstream.Reading.AtMost
read_fields-write_fields_example =
    read_fields-write_fields (replicate 5 0) some_fields
      (omega arith, (omega arith, (omega arith, (omega arith, tt)))) (omega arith) (omega arith)

-- A read of 29 bits where a byte is begun: the field behind it does not hold the bits of the data.
wide_read :
    ((read_fields some_data bits_in (3 ∷ 25 ∷ 5 ∷ 29 ∷ 16 ∷ [])).0
      ≡ 5 ∷ 5488888 ∷ 2 ∷ 529887462 ∷ 35528 ∷ [])
    × (windows some_data 0 (3 ∷ 25 ∷ 5 ∷ 29 ∷ 16 ∷ []) ≡ 5 ∷ 5488888 ∷ 2 ∷ 529887462 ∷ 44173 ∷ [])
unfolding read_fields windows
wide_read = (refl, refl)
