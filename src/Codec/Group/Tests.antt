-- ===== src/Codec/Group/Tests.antt =====
-- The group of compressors on small hunks.
use libchdman_rs.Prelude.{ℕ, ◌≡◌, refl, true, Option, none, some, List, [], ◌∷◌, arith}
use libchdman_rs.Bytes.{Buffer}
use libchdman_rs.Errors.{ok, err, chd, compression_error, unknown_compression, codec_error}
use libchdman_rs.Codec.{Coder}
use libchdman_rs.Codec.Group.{codec_exists, compressors, find_best}
use libchdman_rs.Chd.Header.{create_checks}
use libchdman_rs.Codec.Group.Built.{compressors-create_checks}
use libchdman_rs.Codec.Group.Best.{IsBest, find_best-IsBest}

-- A compressor whose result is always b, and one that throws.
abbrev constant : Buffer → Coder
constant b = record { compress = λ x. ok b; decompress = λ x n. ok x }

abbrev throwing : Coder
throwing = record {
  compress = λ x. err (chd compression_error);
  decompress = λ x n. err (chd compression_error);
}

abbrev four_slots : List (Option Coder)
four_slots = some throwing ∷ some (constant (5 ∷ 6 ∷ [])) ∷ some (constant (7 ∷ 8 ∷ [])) ∷ none ∷ []

second_of_four :
    find_best four_slots 4 (1 ∷ 2 ∷ 3 ∷ 4 ∷ []) (0 ∷ 0 ∷ 0 ∷ 0 ∷ [])
    ≡ record { compression = some 1; complen = 2; compressed = 5 ∷ 6 ∷ 0 ∷ 0 ∷ [] }
unfolding find_best
second_of_four = refl

find_best-IsBest_example :
    IsBest four_slots 4
      (1 ∷ 2 ∷ 3 ∷ 4 ∷ [])
      (find_best four_slots 4 (1 ∷ 2 ∷ 3 ∷ 4 ∷ []) (0 ∷ 0 ∷ 0 ∷ 0 ∷ []))
find_best-IsBest_example =
    find_best-IsBest four_slots (1 ∷ 2 ∷ 3 ∷ 4 ∷ []) (0 ∷ 0 ∷ 0 ∷ 0 ∷ []) (omega arith)

cd_lzma_exists : codec_exists 1667525754 ≡ true
unfolding codec_exists
cd_lzma_exists = refl

unknown_type :
    compressors (λ c. ok (constant [])) 512 (2053925218 ∷ 77 ∷ 0 ∷ 0 ∷ [])
    ≡ err (chd unknown_compression)
unfolding compressors
unknown_type = refl

abbrev two_codecs : List ℕ
two_codecs = 1667525754 ∷ 1667529324 ∷ 0 ∷ 0 ∷ []

compressors-create_checks_example :
    compressors (λ c. ok (constant (c ∷ []))) 19584 two_codecs
    ≡ ok (some (constant (1667525754 ∷ [])) ∷ some (constant (1667529324 ∷ [])) ∷ none ∷ none ∷ [])
unfolding create_checks codec_exists
compressors-create_checks_example =
    compressors-create_checks (λ c. ok (constant (c ∷ []))) (λ c. constant (c ∷ [])) none 19584 2448
      two_codecs (λ c. refl) refl

-- The checks do not ask for whole frames.
half_frame : compressors (λ c. ok (constant (c ∷ []))) 4096 two_codecs ≡ err (chd codec_error)
unfolding compressors
half_frame = refl
