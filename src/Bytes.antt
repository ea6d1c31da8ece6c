-- ===== src/Bytes.antt =====
-- mame-chd-src/src/lib/util/multibyte.h: big-endian integers in a byte buffer. A buffer is a list of
-- bytes; a byte that is read past its end is 0.
pub mod Laws
use libchdman_rs.Prelude.{ℕ, zero, suc, ◌+◌, ◌*◌, ◌/◌, ◌%◌, ◌^◌, List, [], ◌∷◌, get_or}

abbrev pub Buffer : Type 0
Buffer = List ℕ

abbrev pub byte : Buffer → ℕ → ℕ
byte b i = get_or b i 0

-- `x >> 8 * k`, cut to a uint8_t.
abbrev pub byte_of : ℕ → ℕ → ℕ
byte_of x k = x / 2 ^ (8 * k) % 256

unfoldable pub get_u16be : Buffer → ℕ
get_u16be b = byte b 0 * 2 ^ 8 + byte b 1

unfoldable pub get_u24be : Buffer → ℕ
get_u24be b = byte b 0 * 2 ^ 16 + byte b 1 * 2 ^ 8 + byte b 2

unfoldable pub get_u32be : Buffer → ℕ
get_u32be b = byte b 0 * 2 ^ 24 + byte b 1 * 2 ^ 16 + byte b 2 * 2 ^ 8 + byte b 3

unfoldable pub get_u48be : Buffer → ℕ
get_u48be b =
    byte b 0 * 2 ^ 40
    + byte b 1 * 2 ^ 32
    + byte b 2 * 2 ^ 24
    + byte b 3 * 2 ^ 16
    + byte b 4 * 2 ^ 8
    + byte b 5

unfoldable pub get_u64be : Buffer → ℕ
get_u64be b =
    byte b 0 * 2 ^ 56
    + byte b 1 * 2 ^ 48
    + byte b 2 * 2 ^ 40
    + byte b 3 * 2 ^ 32
    + byte b 4 * 2 ^ 24
    + byte b 5 * 2 ^ 16
    + byte b 6 * 2 ^ 8
    + byte b 7

unfoldable pub put_u16be : ℕ → Buffer
put_u16be x = byte_of x 1 ∷ byte_of x 0 ∷ []

unfoldable pub put_u24be : ℕ → Buffer
put_u24be x = byte_of x 2 ∷ byte_of x 1 ∷ byte_of x 0 ∷ []

unfoldable pub put_u32be : ℕ → Buffer
put_u32be x = byte_of x 3 ∷ byte_of x 2 ∷ byte_of x 1 ∷ byte_of x 0 ∷ []

unfoldable pub put_u48be : ℕ → Buffer
put_u48be x = byte_of x 5 ∷ byte_of x 4 ∷ byte_of x 3 ∷ byte_of x 2 ∷ byte_of x 1 ∷ byte_of x 0 ∷ []

unfoldable pub put_u64be : ℕ → Buffer
put_u64be x =
    byte_of x 7
    ∷ byte_of x 6
    ∷ byte_of x 5
    ∷ byte_of x 4
    ∷ byte_of x 3
    ∷ byte_of x 2
    ∷ byte_of x 1
    ∷ byte_of x 0
    ∷ []
