-- ===== src/Codec.antt =====
-- mame-chd-src/src/lib/util/chdcodec.cpp: the codecs of a CHD.
pub mod Cd
pub mod Group
use libchdman_rs.Prelude.{ℕ}
use libchdman_rs.Bytes.{Buffer}
use libchdman_rs.Errors.{Result}

-- A compressor and its decompressor, which is told the length of what it has to deliver; what they throw
-- is the error.
pub record Coder : Type 0 where
  pub compress : Buffer → Result Buffer
  pub decompress : Buffer → ℕ → Result Buffer
