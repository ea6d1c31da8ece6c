-- ===== src/Chd/V5Map/TypeBounds.antt =====
-- chd_file::compress_v5_map: the run-length code fits its buffer.
use libchdman_rs.Prelude.{
  ℕ, zero, suc, ◌+◌, ◌-◌, ◌≤◌, List, [], ◌∷◌, length, length-append, min, arith,
}
use libchdman_rs.Chd.V5Map.{flush_loop, flush_repeats, rle}

length-flush_loop-le : (fuel count c : ℕ) → length (flush_loop fuel count c) ≤ count
unfolding flush_loop
length-flush_loop-le zero count c = omega arith
length-flush_loop-le (suc fuel) count c = ground (
  arith,
  length-flush_loop-le fuel (count - 1) c,
  length-flush_loop-le fuel (count - min count 274) c,
)

length-rle-le : (cs : List ℕ) (last count : ℕ) → length (rle cs last count) ≤ count + length cs
unfolding rle flush_repeats
length-rle-le [] last count = omega arith
length-rle-le (c ∷ cs) last count = ground (
  arith,
  length-append (flush_loop count count last) (c ∷ rle cs c 0),
  length-flush_loop-le count count last,
  length-flush_loop-le (count + 1) (count + 1) last,
  length-append (flush_loop (count + 1) (count + 1) last) (rle cs last 0),
  length-rle-le cs c 0,
  length-rle-le cs last 0,
  length-rle-le cs last (count + 1),
)

-- The run-length code of n types fits the buffer of n bytes.
pub length-rle : (cs : List ℕ) → length (rle cs 0 0) ≤ length cs
length-rle cs = omega (arith, length-rle-le cs 0 0)
