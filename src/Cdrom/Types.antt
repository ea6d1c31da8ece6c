-- ===== src/Cdrom/Types.antt =====
-- mame-chd-src/src/lib/util/cdrom.cpp: the names of the types of tracks and subcode.
use text.Mathlib.Text.{◌==◌ as str_eq}
use Prim.Native.String.{String}
use libchdman_rs.Prelude.{ℕ, zero, suc, ◌≡◌, ◌<◌, refl, if◌then◌else◌, ◌==◌, arith}
use libchdman_rs.Sys.CdImage.{TrackInfo}

-- cdrom_file::get_info_from_type_string: the type and the size of the data, which stay as they are for an
-- unknown name.
unfoldable pub get_info_from_type_string : String → ℕ × ℕ → ℕ × ℕ
get_info_from_type_string name old =
    if str_eq name "MODE1"
    then (0, 2048)
    else if str_eq name "MODE1/2048"
    then (0, 2048)
    else if str_eq name "MODE1_RAW"
    then (1, 2352)
    else if str_eq name "MODE1/2352"
    then (1, 2352)
    else if str_eq name "MODE2"
    then (2, 2336)
    else if str_eq name "MODE2/2336"
    then (2, 2336)
    else if str_eq name "MODE2_FORM1"
    then (3, 2048)
    else if str_eq name "MODE2/2048"
    then (3, 2048)
    else if str_eq name "MODE2_FORM2"
    then (4, 2324)
    else if str_eq name "MODE2/2324"
    then (4, 2324)
    else if str_eq name "MODE2_FORM_MIX"
    then (5, 2336)
    else if str_eq name "MODE2_RAW"
    then (6, 2352)
    else if str_eq name "MODE2/2352"
    then (6, 2352)
    else if str_eq name "CDI/2352"
    then (6, 2352)
    else if str_eq name "AUDIO"
    then (7, 2352)
    else old

unfoldable pub convert_type_string_to_track_info : String → TrackInfo → TrackInfo
unfolding get_info_from_type_string
convert_type_string_to_track_info name info =
    let (trktype, datasize) = get_info_from_type_string name (info.trktype, info.datasize) in
    record info { trktype = trktype; datasize = datasize }

unfoldable pub convert_type_string_to_pregap_info : String → TrackInfo → TrackInfo
unfolding get_info_from_type_string
convert_type_string_to_pregap_info name info =
    let (pgtype, pgdatasize) = get_info_from_type_string name (info.pgtype, info.pgdatasize) in
    record info { pgtype = pgtype; pgdatasize = pgdatasize }

-- The type of the subcode and its size.
unfoldable pub subtype_info : String → ℕ × ℕ → ℕ × ℕ
subtype_info name old =
    if str_eq name "RW" then (0, 96) else if str_eq name "RW_RAW" then (1, 96) else old

unfoldable pub convert_subtype_string_to_track_info : String → TrackInfo → TrackInfo
unfolding subtype_info
convert_subtype_string_to_track_info name info =
    let (subtype, subsize) = subtype_info name (info.subtype, info.subsize) in
    record info { subtype = subtype; subsize = subsize }

unfoldable pub convert_subtype_string_to_pregap_info : String → TrackInfo → TrackInfo
unfolding subtype_info
convert_subtype_string_to_pregap_info name info =
    let (pgsub, pgsubsize) = subtype_info name (info.pgsub, info.pgsubsize) in
    record info { pgsub = pgsub; pgsubsize = pgsubsize }

unfoldable pub get_type_string : ℕ → String
get_type_string trktype =
    if trktype == 0
    then "MODE1"
    else if trktype == 1
    then "MODE1_RAW"
    else if trktype == 2
    then "MODE2"
    else if trktype == 3
    then "MODE2_FORM1"
    else if trktype == 4
    then "MODE2_FORM2"
    else if trktype == 5
    then "MODE2_FORM_MIX"
    else if trktype == 6
    then "MODE2_RAW"
    else if trktype == 7
    then "AUDIO"
    else "UNKNOWN"

unfoldable pub get_subtype_string : ℕ → String
get_subtype_string subtype =
    if subtype == 0 then "RW" else if subtype == 1 then "RW_RAW" else "NONE"

-- The bytes of data in a sector of each type, from the comments at the types in cdrom.h.
abbrev pub data_bytes : ℕ → ℕ
data_bytes zero = 2048
data_bytes (suc zero) = 2352
data_bytes (suc (suc zero)) = 2336
data_bytes (suc (suc (suc zero))) = 2048
data_bytes (suc (suc (suc (suc zero)))) = 2324
data_bytes (suc (suc (suc (suc (suc zero))))) = 2336
data_bytes (suc (suc (suc (suc (suc (suc n)))))) = 2352

-- For each of the eight track types, convert_type_string_to_track_info of its name by
-- get_type_string sets that type, and the size of data that cdrom.h names for it.
pub track_info-type_string :
    (trktype : ℕ) (info : TrackInfo)
    → trktype < 8
    → convert_type_string_to_track_info (get_type_string trktype) info
      ≡ record info { trktype = trktype; datasize = data_bytes trktype }
unfolding convert_type_string_to_track_info get_type_string
track_info-type_string zero info h = refl
track_info-type_string (suc zero) info h = refl
track_info-type_string (suc (suc zero)) info h = refl
track_info-type_string (suc (suc (suc zero))) info h = refl
track_info-type_string (suc (suc (suc (suc zero)))) info h = refl
track_info-type_string (suc (suc (suc (suc (suc zero))))) info h = refl
track_info-type_string (suc (suc (suc (suc (suc (suc zero)))))) info h = refl
track_info-type_string (suc (suc (suc (suc (suc (suc (suc zero))))))) info h = refl
track_info-type_string (suc (suc (suc (suc (suc (suc (suc (suc n)))))))) info h =
    absurd (omega (arith, h))
