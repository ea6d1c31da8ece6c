-- ===== src/Cdrom/Toc/Tests.antt =====
-- cdrom_file: an audio track with a pregap inside the file, and what parse_metadata makes of its entry.
use libchdman_rs.Prelude.{◌^◌, ◌-◌, ◌≡◌, refl, some, none, arith}
use libchdman_rs.Sys.CdImage.{no_track}
use libchdman_rs.Cdrom.Toc.{arguments2, scanned2, parse_text, spillage}
use libchdman_rs.Cdrom.Toc.Text.{inside, track, parse_text-arguments2}

parse_text-arguments2_example :
    parse_text (scanned2 (arguments2 1 (track 7 0 6 3 (inside 1 7 1)))) (λ i. no_track)
    ≡ some (1, track 7 0 6 3 (inside 1 7 1))
parse_text-arguments2_example =
    parse_text-arguments2 1 7 0 6 3 (inside 1 7 1) (λ i. no_track) (omega arith) (omega arith)
      (omega arith) (omega arith) (omega arith, omega arith) refl

-- A track number of 100 is refused.
too_many :
    parse_text (scanned2 (arguments2 99 (track 7 0 6 3 (inside 1 7 1)))) (λ i. no_track) ≡ none
unfolding parse_text arguments2 scanned2
too_many = refl

-- The sums are on 32 bits.
spillage_wraps : spillage (2 ^ 32 - 5) ≡ 1
unfolding spillage
spillage_wraps = refl
