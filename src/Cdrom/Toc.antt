-- ===== src/Cdrom/Toc.antt =====
-- mame-chd-src/src/lib/util/cdrom.cpp: what cdrom_file::write_metadata says of a track in an entry of
-- metadata, and the track that cdrom_file::parse_metadata makes of such an entry.
pub mod Text
pub mod Tests
use text.Mathlib.Text.{starts_with}
use Prim.Native.Nat.{bit_and, bit_or}
use Prim.Native.String.{String, slice as str_slice, len as str_len, ◌++◌ as str_append}
use libchdman_rs.Prelude.{
  ℕ, zero, suc, ◌+◌, ◌-◌, ◌*◌, ◌/◌, ◌%◌, ◌^◌, Bool, true, false, not, ◌&&◌, ◌||◌, Option, none,
  some, List, [], ◌∷◌, if◌then◌else◌, ltb, ◌==◌, get_or, blit, replicate,
}
use libchdman_rs.Errors.{ErrorCondition, Status, Result, ok, err, chd, invalid_data}
use libchdman_rs.Sys.CdImage.{TrackInfo, no_track, u32}
use libchdman_rs.Cdrom.Types.{
  convert_type_string_to_track_info, convert_type_string_to_pregap_info,
  convert_subtype_string_to_track_info, convert_subtype_string_to_pregap_info, get_type_string,
  get_subtype_string,
}

-- The local variables of parse_metadata that sscanf fills.
pub record TrackText : Type 0 where
  pub tracknum : ℕ
  pub trktype : String
  pub subtype : String
  pub frames : ℕ
  pub padframes : ℕ
  pub pregap : ℕ
  pub pgtype : String
  pub pgsub : String
  pub postgap : ℕ

-- The frames up to the next multiple of TRACK_PADDING, which makes the sums unsigned.
unfoldable pub spillage : ℕ → ℕ
spillage frames = u32 (u32 (u32 (frames + 4 - 1) / 4 * 4) + 2 ^ 32 - frames)

-- The part of parse_metadata that fills a track from the values of its text; none is INVALID_DATA.
unfoldable pub parse_pregap : TrackText → TrackInfo → TrackInfo
parse_pregap text info =
    let blank = record info {
      pregap = text.pregap;
      pgtype = 0;
      pgsub = 2;
      pgdatasize = 0;
      pgsubsize = 0;
    } in
    let typed : TrackInfo =
      if starts_with text.pgtype "V"
      then convert_type_string_to_pregap_info (str_slice text.pgtype 1 (str_len text.pgtype)) blank
      else blank in
    if text.pregap == 0 then blank else convert_subtype_string_to_pregap_info text.pgsub typed

unfoldable pub parse_track : TrackText → TrackInfo → Option TrackInfo
unfolding parse_pregap spillage
parse_track text old =
    let typed =
      convert_type_string_to_track_info text.trktype (record old { trktype = 0; datasize = 0 }) in
    let sub =
      convert_subtype_string_to_track_info text.subtype
        (record typed { subtype = 2; subsize = 0 }) in
    let sized = record sub {
      frames = text.frames;
      padframes = text.padframes;
      extraframes = spillage text.frames;
    } in
    if typed.datasize == 0
    then none
    else some (record (parse_pregap text sized) { postgap = text.postgap })

-- The type of the pregap as write_metadata names it: with the letter V where the file holds its data.
abbrev pub submode : TrackInfo → String
submode t =
    if not (t.pgdatasize == 0)
    then str_append "V" (get_type_string t.pgtype)
    else get_type_string t.pgtype

-- The values behind CDROM_TRACK_METADATA2_FORMAT, in the order of the format.
abbrev pub Arguments2 : Type 0
Arguments2 = ℕ × String × String × ℕ × ℕ × String × String × ℕ

-- The arguments of string_format in write_metadata for track number `i`, from 0 on, of a disc that is
-- no GD-ROM.
unfoldable pub arguments2 : ℕ → TrackInfo → Arguments2
arguments2 i t = (
  i + 1,
  get_type_string t.trktype,
  get_subtype_string t.subtype,
  t.frames,
  t.pregap,
  submode t,
  get_subtype_string t.pgsub,
  t.postgap,
)

-- The variables of parse_metadata behind the call of sscanf, which stores through its pointers in
-- order.
unfoldable pub scanned2 : Arguments2 → TrackText
scanned2 (tracknum, trktype, subtype, frames, pregap, pgtype, pgsub, postgap) = record {
  tracknum = tracknum;
  trktype = trktype;
  subtype = subtype;
  frames = frames;
  padframes = 0;
  pregap = pregap;
  pgtype = pgtype;
  pgsub = pgsub;
  postgap = postgap;
}

-- parse_metadata behind the call of sscanf: the place of the track in toc.tracks, and the track; none
-- is INVALID_DATA.
unfoldable pub parse_text : TrackText → (ℕ → TrackInfo) → Option (ℕ × TrackInfo)
unfolding parse_track
parse_text text tracks =
    if (text.tracknum == 0) || ltb 99 text.tracknum
    then none
    else elim (parse_track text (tracks (text.tracknum - 1))) [
      | none ↦ none
      | some info ↦ some (text.tracknum - 1, info)
    ]
