-- ===== src/Bitstream.antt =====
-- mame-chd-src/src/lib/util/bitstream.h: bitstream_in and bitstream_out, which read and write fields of bits,
-- the highest bit first, through an accumulator of 32 bits.
pub mod Or
pub mod Window
pub mod Filling
pub mod Reading
pub mod Writing
pub mod Offload
pub mod Rounds
pub mod Flushing
pub mod RoundTrip
pub mod Tests
use Prim.Native.Nat.{bit_or}
use libchdman_rs.Prelude.{
  ℕ, zero, suc, ◌+◌, ◌-◌, ◌*◌, ◌/◌, ◌%◌, ◌^◌, min, Bool, true, false, ◌&&◌, List, [], ◌∷◌,
  if◌then◌else◌, ltb, leb, ◌==◌, length,
}
use libchdman_rs.Bytes.{Buffer, byte}
use libchdman_rs.Cdrom.Ecc.{put}

-- bitstream_in; the data, whose length is m_dlength, is an argument of the operations.
pub record BitsIn : Type 0 where
  pub m_buffer : ℕ
  pub m_bits : ℕ
  pub m_doffset : ℕ
  pub m_dbitoffs : ℕ

abbrev pub bits_in : BitsIn
bits_in = record { m_buffer = 0; m_bits = 0; m_doffset = 0; m_dbitoffs = 0 }

unfoldable pub newbits_at : Buffer → BitsIn → ℕ
newbits_at src s =
    if ltb s.m_doffset (length src) then byte src s.m_doffset * 2 ^ s.m_dbitoffs % 2 ^ 8 else 0

-- A round of the loop of peek: the bits that still fit, or the rest of a byte.
unfoldable pub last_round : Buffer → BitsIn → BitsIn
unfolding newbits_at
last_round src s = record {
  m_buffer = bit_or s.m_buffer (newbits_at src s / 2 ^ (8 - (32 - s.m_bits)));
  m_bits = s.m_bits + (32 - s.m_bits);
  m_doffset = s.m_doffset;
  m_dbitoffs = 32 - s.m_bits;
}

unfoldable pub byte_round : Buffer → BitsIn → BitsIn
unfolding newbits_at
byte_round src s = record {
  m_buffer = bit_or s.m_buffer (newbits_at src s * 2 ^ (24 - s.m_bits) % 2 ^ 32);
  m_bits = s.m_bits + (8 - s.m_dbitoffs);
  m_doffset = (s.m_doffset + 1) % 2 ^ 32;
  m_dbitoffs = 0;
}

unfoldable pub fill_round : Buffer → BitsIn → BitsIn
unfolding last_round byte_round
fill_round src s = if ltb 32 (s.m_bits + 8) then last_round src s else byte_round src s

-- The loop; each round but the first and the last adds 8 bits.
unfoldable pub fill : ℕ → Buffer → BitsIn → BitsIn
unfolding fill_round
fill zero src s = s
fill (suc fuel) src s =
    let rest = fill fuel src (fill_round src s) in if ltb s.m_bits 32 then rest else s

unfoldable pub fetch : Buffer → BitsIn → ℕ → BitsIn
unfolding fill
fetch src s numbits = if ltb s.m_bits numbits then fill 5 src s else s

unfoldable pub peek : Buffer → BitsIn → ℕ → ℕ × BitsIn
unfolding fetch
peek src s numbits =
    let s' = fetch src s numbits in
    if numbits == 0 then (0, s) else (s'.m_buffer / 2 ^ (32 - numbits), s')

unfoldable pub remove : BitsIn → ℕ → BitsIn
remove s numbits = record s {
  m_buffer = s.m_buffer * 2 ^ numbits % 2 ^ 32;
  m_bits = s.m_bits - numbits;
}

unfoldable pub read : Buffer → BitsIn → ℕ → ℕ × BitsIn
unfolding peek remove
read src s numbits = let (result, s') = peek src s numbits in (result, remove s' numbits)

abbrev pub overflow : Buffer → BitsIn → Bool
overflow src s = ltb (length src) (s.m_doffset - s.m_bits / 8)

-- The loops of read_offset and flush take whole bytes back.
unfoldable pub back_loop : ℕ → ℕ → ℕ → ℕ × ℕ
back_loop zero offset bits = (offset, bits)
back_loop (suc fuel) offset bits =
    let rest = back_loop fuel (offset - 1) (bits - 8) in if leb 8 bits then rest else (offset, bits)

-- A byte that is begun counts.
abbrev pub begun : ℕ → ℕ × ℕ → ℕ
begun dbitoffs (result, bits) = if ltb bits dbitoffs then (result + 1) % 2 ^ 32 else result

unfoldable pub read_offset : BitsIn → ℕ
unfolding back_loop
read_offset s = begun s.m_dbitoffs (back_loop 4 s.m_doffset s.m_bits)

unfoldable pub flush : BitsIn → ℕ × BitsIn
unfolding read_offset
flush s =
    let offset = read_offset s in
    (offset, record { m_buffer = 0; m_bits = 0; m_doffset = offset; m_dbitoffs = 0 })

-- bitstream_out; m_dlength is the length of m_write.
pub record BitsOut : Type 0 where
  pub m_buffer : ℕ
  pub m_bits : ℕ
  pub m_write : Buffer
  pub m_doffset : ℕ

abbrev pub bits_out : Buffer → BitsOut
bits_out dest = record { m_buffer = 0; m_bits = 0; m_write = dest; m_doffset = 0 }

-- A round of the loops of write and of bitstream_out::flush: the highest byte goes out.
unfoldable pub put_byte : BitsOut → BitsOut
put_byte s = record {
  m_buffer = s.m_buffer * 2 ^ 8 % 2 ^ 32;
  m_bits = s.m_bits - 8;
  m_write =
      if ltb s.m_doffset (length s.m_write)
      then put s.m_write s.m_doffset (s.m_buffer / 2 ^ 24 % 2 ^ 8)
      else s.m_write;
  m_doffset = (s.m_doffset + 1) % 2 ^ 32;
}

-- while (m_bits >= least); 32 bits are at most 4 bytes.
unfoldable pub drain : ℕ → ℕ → BitsOut → BitsOut
unfolding put_byte
drain least zero s = s
drain least (suc fuel) s =
    let rest = drain least fuel (put_byte s) in if leb least s.m_bits then rest else s

-- The state of a call of write: the stream and the bits that are still to go.
pub record Pending : Type 0 where
  pub out : BitsOut
  pub newbits : ℕ
  pub numbits : ℕ

-- The highest `rem` bits that are to go move into the accumulator.
abbrev pub moved : Pending → ℕ → Pending
moved q rem = record {
  out = record q.out {
    m_buffer = bit_or q.out.m_buffer (q.newbits / 2 ^ q.out.m_bits);
    m_bits = q.out.m_bits + rem;
  };
  newbits = q.newbits * 2 ^ rem % 2 ^ 32;
  numbits = q.numbits - rem;
}

abbrev pub offloaded : Pending → Pending
offloaded q = moved q (min (32 - q.out.m_bits) q.numbits)

-- A round of the loop of write.
unfoldable pub offload : Pending → Pending
unfolding drain
offload q =
    let drained = record q { out = drain 8 4 q.out } in
    if leb 32 (drained.out.m_bits + drained.numbits) then offloaded drained else drained

-- Each round leaves less than 8 bits to go, or room for all.
unfoldable pub write_loop : ℕ → Pending → Pending
unfolding offload
write_loop zero q = q
write_loop (suc fuel) q =
    let rest = write_loop fuel (offload q) in
    if leb 32 (q.out.m_bits + q.numbits) && ltb 0 q.numbits then rest else q

abbrev pub last_bits : Pending → BitsOut
last_bits q = if q.numbits == 0 then q.out else record q.out {
  m_buffer = bit_or q.out.m_buffer (q.newbits / 2 ^ q.out.m_bits);
  m_bits = q.out.m_bits + q.numbits;
}

unfoldable pub write : BitsOut → ℕ → ℕ → BitsOut
unfolding write_loop
write s newbits numbits = last_bits (
    write_loop 2
      (record { out = s; newbits = newbits * 2 ^ (32 - numbits) % 2 ^ 32; numbits = numbits }))

unfoldable pub flush_out : BitsOut → ℕ × BitsOut
unfolding drain
flush_out s = let end = drain 1 4 s in (end.m_doffset, record end { m_buffer = 0; m_bits = 0 })
