-- ===== src/Errors.antt =====
-- mame-chd-src/src/lib/util/chd.h (chd_file::error) and the std::errc values that the code
-- returns: the error conditions, and how an operation that fails reports one.
use libchdman_rs.Prelude.{ℕ, Option, some, none}

-- chd_file::error, numbered from 1.
pub data ChdError : Type 0 where
  no_interface not_open already_open invalid_file invalid_data : ChdError
  requires_parent file_not_writeable codec_error invalid_parent : ChdError
  hunk_out_of_range decompression_error compression_error cant_verify : ChdError
  metadata_not_found invalid_metadata_size unsupported_version : ChdError
  verify_incomplete invalid_metadata invalid_state operation_pending : ChdError
  unsupported_format unknown_compression walking_parent compressing : ChdError

-- The numeric value of the enumerator.
unfoldable pub value : ChdError → ℕ
value no_interface = 1
value not_open = 2
value already_open = 3
value invalid_file = 4
value invalid_data = 5
value requires_parent = 6
value file_not_writeable = 7
value codec_error = 8
value invalid_parent = 9
value hunk_out_of_range = 10
value decompression_error = 11
value compression_error = 12
value cant_verify = 13
value metadata_not_found = 14
value invalid_metadata_size = 15
value unsupported_version = 16
value verify_incomplete = 17
value invalid_metadata = 18
value invalid_state = 19
value operation_pending = 20
value unsupported_format = 21
value unknown_compression = 22
value walking_parent = 23
value compressing = 24

-- std::errc; `os n` is any other code that the system reports.
pub data Errno : Type 0 where
  invalid_argument io_error not_enough_memory not_supported : Errno
  os : ℕ → Errno

-- A std::error_condition that is set: its category and value.
pub data ErrorCondition : Type 0 where
  chd : ChdError → ErrorCondition
  generic : Errno → ErrorCondition

-- A std::error_condition that may be empty; the empty one is success.
abbrev pub Status : Type 0
Status = Option ErrorCondition

pub data Result {ℓ} (A : Type ℓ) : Type ℓ where
  ok : A → Result A
  err : ErrorCondition → Result A

infixl 5 ◌>>=◌
abbrev pub ◌>>=◌ {ℓ κ} : {A : Type ℓ} {B : Type κ} → Result A → (A → Result B) → Result B
ok a >>= f = f a
err e >>= f = err e

-- to_chd_error of sys/cd_shim.cpp: the code that the shim gives to Rust.
unfoldable pub to_chd_error : Status → ℕ
unfolding value
to_chd_error none = 0
to_chd_error (some (chd e)) = value e
to_chd_error (some (generic e)) = value invalid_file
