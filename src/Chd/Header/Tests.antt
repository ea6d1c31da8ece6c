-- ===== src/Chd/Header/Tests.antt =====
-- chd_file::create_common and parse_v5_header: the header of a small file.
use libchdman_rs.Prelude.{ℕ, ◌%◌, ◌==◌, ◌↔◌, some, none, [], ◌∷◌, ◌≡◌, ◌≢◌, refl, replicate, arith}
use libchdman_rs.Chd.Header.{create_checks, parsed, parse_v5_header, v5_header}
use libchdman_rs.Chd.Header.Checks.{FitsParent, Slots, create_checks_iff}
use libchdman_rs.Chd.Header.RoundTrip.{written, parse_v5_header-v5_header}

-- Two codecs in the first two slots.
create_checks_iff_example :
    (create_checks (λ c. c == 7) (some (5, 512)) 4096 512 (7 ∷ 7 ∷ 0 ∷ 0 ∷ []) ≡ some none) ↔ (
      FitsParent 512 (some (5, 512))
      × (◌≢◌ {A = ℕ} 512 0)
      × (4096 % 512 ≡ 0)
      × Slots (λ c. c == 7) (7 ∷ 7 ∷ 0 ∷ 0 ∷ []))
create_checks_iff_example =
    create_checks_iff (λ c. c == 7) (some (5, 512)) 4096 512 (7 ∷ 7 ∷ 0 ∷ 0 ∷ [])

parse_v5_header-v5_header_example :
    parse_v5_header (v5_header 0 0 0 0 1000000 4096 512 (replicate 20 7))
    ≡ parsed (written 0 0 0 0 1000000 4096 512 (replicate 20 7))
parse_v5_header-v5_header_example =
    parse_v5_header-v5_header 0 0 0 0 1000000 4096 512 (replicate 20 7) (omega arith) (omega arith)
      (omega arith) (omega arith) (omega arith) (omega arith) (omega arith) (omega arith)
      (omega arith) refl
