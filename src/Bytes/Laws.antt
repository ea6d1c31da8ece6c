-- ===== src/Bytes/Laws.antt =====
-- Reading back the big-endian integers of multibyte.h.
use libchdman_rs.Prelude.{ℕ, ◌%◌, ◌^◌, ◌≡◌, ◌++◌, arith}
use libchdman_rs.Bytes.{
  Buffer, get_u16be, get_u24be, get_u32be, get_u48be, get_u64be, put_u16be, put_u24be, put_u32be,
  put_u48be, put_u64be,
}

module _ (x : ℕ) (rest : Buffer) where
  pub get_u16be-put_u16be : get_u16be (put_u16be x ++ rest) ≡ x % 2 ^ 16
  unfolding get_u16be put_u16be
  get_u16be-put_u16be = omega arith

  pub get_u24be-put_u24be : get_u24be (put_u24be x ++ rest) ≡ x % 2 ^ 24
  unfolding get_u24be put_u24be
  get_u24be-put_u24be = omega arith

  pub get_u32be-put_u32be : get_u32be (put_u32be x ++ rest) ≡ x % 2 ^ 32
  unfolding get_u32be put_u32be
  get_u32be-put_u32be = omega arith

  pub get_u48be-put_u48be : get_u48be (put_u48be x ++ rest) ≡ x % 2 ^ 48
  unfolding get_u48be put_u48be
  get_u48be-put_u48be = omega arith

  pub get_u64be-put_u64be : get_u64be (put_u64be x ++ rest) ≡ x % 2 ^ 64
  unfolding get_u64be put_u64be
  get_u64be-put_u64be = omega arith
