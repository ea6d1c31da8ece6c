-- ===== src/Cdrom/Toc/Text.antt =====
-- cdrom_file: the text that write_metadata makes of a track, and the track that parse_metadata makes of it.
use text.Mathlib.Text.{starts_with}
use Prim.Native.String.{String, slice as str_slice, len as str_len, ◌++◌ as str_append}
use libchdman_rs.Prelude.{
  ℕ, zero, suc, ◌+◌, ◌-◌, ◌*◌, ◌/◌, ◌^◌, ◌≡◌, ◌<◌, refl, ap, ◌∙◌, Bool, false, not, ◌||◌, ltb,
  Option, none, some, if◌then◌else◌, ◌==◌, arith,
}
use libchdman_rs.Sys.CdImage.{TrackInfo, no_track}
use libchdman_rs.Cdrom.Types.{
  convert_type_string_to_pregap_info, convert_subtype_string_to_track_info,
  convert_subtype_string_to_pregap_info, get_type_string, get_subtype_string, data_bytes,
  track_info-type_string,
}
use libchdman_rs.Cdrom.Toc.{
  TrackText, spillage, parse_pregap, parse_track, arguments2, scanned2, parse_text, submode,
}

-- The pregap of a track: none; one that the file does not hold; one of a type that the file holds.
pub data Pregap : Type 0 where
  no_pregap : Pregap
  outside : ℕ → ℕ → Pregap
  inside : ℕ → ℕ → ℕ → Pregap

-- The bytes of subcode in a sector of each kind.
abbrev pub subcode_bytes : ℕ → ℕ
subcode_bytes zero = 96
subcode_bytes (suc zero) = 96
subcode_bytes (suc (suc n)) = 0

abbrev pub gap_frames : Pregap → ℕ
gap_frames no_pregap = 0
gap_frames (outside pregap pgsub) = suc pregap
gap_frames (inside pregap pgtype pgsub) = suc pregap

abbrev gap_type : Pregap → ℕ
gap_type no_pregap = 0
gap_type (outside pregap pgsub) = 0
gap_type (inside pregap pgtype pgsub) = pgtype

abbrev gap_bytes : Pregap → ℕ
gap_bytes no_pregap = 0
gap_bytes (outside pregap pgsub) = 0
gap_bytes (inside pregap pgtype pgsub) = data_bytes pgtype

abbrev gap_sub : Pregap → ℕ
gap_sub no_pregap = 2
gap_sub (outside pregap pgsub) = pgsub
gap_sub (inside pregap pgtype pgsub) = pgsub

-- The track of the table of contents that these values describe.
abbrev pub track : ℕ → ℕ → ℕ → ℕ → Pregap → TrackInfo
track trktype subtype frames postgap gap = record no_track {
  trktype = trktype;
  subtype = subtype;
  datasize = data_bytes trktype;
  subsize = subcode_bytes subtype;
  frames = frames;
  extraframes = (frames + 3) / 4 * 4 - frames;
  pregap = gap_frames gap;
  postgap = postgap;
  pgtype = gap_type gap;
  pgdatasize = gap_bytes gap;
  pgsub = gap_sub gap;
  pgsubsize = subcode_bytes (gap_sub gap);
}

abbrev pub IsPregap : Pregap → Type 0
IsPregap no_pregap = Unit {0}
IsPregap (outside pregap pgsub) = pgsub < 3
IsPregap (inside pregap pgtype pgsub) = (pgtype < 8) × (pgsub < 3)

track_info-subtype_string :
    (subtype : ℕ) (info : TrackInfo)
    → subtype < 3
    → convert_subtype_string_to_track_info
        (get_subtype_string subtype)
        (record info { subtype = 2; subsize = 0 })
      ≡ record info { subtype = subtype; subsize = subcode_bytes subtype }
unfolding convert_subtype_string_to_track_info get_subtype_string
track_info-subtype_string zero info h = refl
track_info-subtype_string (suc zero) info h = refl
track_info-subtype_string (suc (suc zero)) info h = refl
track_info-subtype_string (suc (suc (suc n))) info h = absurd (omega (arith, h))

pregap_info-subtype_string :
    (subtype : ℕ) (info : TrackInfo)
    → subtype < 3
    → convert_subtype_string_to_pregap_info
        (get_subtype_string subtype)
        (record info { pgsub = 2; pgsubsize = 0 })
      ≡ record info { pgsub = subtype; pgsubsize = subcode_bytes subtype }
unfolding convert_subtype_string_to_pregap_info get_subtype_string
pregap_info-subtype_string zero info h = refl
pregap_info-subtype_string (suc zero) info h = refl
pregap_info-subtype_string (suc (suc zero)) info h = refl
pregap_info-subtype_string (suc (suc (suc n))) info h = absurd (omega (arith, h))

-- The type of a pregap with the letter V before it.
abbrev typed_pregap : String → TrackInfo → TrackInfo
typed_pregap name blank =
    if starts_with name "V"
    then convert_type_string_to_pregap_info (str_slice name 1 (str_len name)) blank
    else blank

typed_pregap_lem :
    (pgtype : ℕ) (info : TrackInfo)
    → pgtype < 8
    → typed_pregap (str_append "V" (get_type_string pgtype)) info
      ≡ record info { pgtype = pgtype; pgdatasize = data_bytes pgtype }
unfolding convert_type_string_to_pregap_info get_type_string
typed_pregap_lem zero info h = refl
typed_pregap_lem (suc zero) info h = refl
typed_pregap_lem (suc (suc zero)) info h = refl
typed_pregap_lem (suc (suc (suc zero))) info h = refl
typed_pregap_lem (suc (suc (suc (suc zero)))) info h = refl
typed_pregap_lem (suc (suc (suc (suc (suc zero))))) info h = refl
typed_pregap_lem (suc (suc (suc (suc (suc (suc zero)))))) info h = refl
typed_pregap_lem (suc (suc (suc (suc (suc (suc (suc zero))))))) info h = refl
typed_pregap_lem (suc (suc (suc (suc (suc (suc (suc (suc n)))))))) info h =
    absurd (omega (arith, h))

abbrev blank_pregap : ℕ → TrackInfo → TrackInfo
blank_pregap pregap info = record info {
  pregap = pregap;
  pgtype = 0;
  pgsub = 2;
  pgdatasize = 0;
  pgsubsize = 0;
}

-- parse_pregap on the values that it reads.
abbrev pregap_values : ℕ → String → String → TrackInfo → TrackInfo
pregap_values pregap name sub info =
    if pregap == 0
    then blank_pregap pregap info
    else convert_subtype_string_to_pregap_info sub (typed_pregap name (blank_pregap pregap info))

otherwise : {A : Type 0} → (b : Bool) (x y : A) → b ≡ false → (if b then x else y) ≡ y
otherwise b x y h = rw h refl

some_pregap : (pregap : ℕ) → (suc pregap == 0) ≡ false
some_pregap pregap = ground arith

pregap_inside :
    (pregap pgtype pgsub : ℕ) (info : TrackInfo)
    → pgtype < 8
    → pgsub < 3
    → pregap_values
        (suc pregap)
        (str_append "V" (get_type_string pgtype))
        (get_subtype_string pgsub)
        info
      ≡ record info {
        pregap = suc pregap;
        pgtype = pgtype;
        pgdatasize = data_bytes pgtype;
        pgsub = pgsub;
        pgsubsize = subcode_bytes pgsub;
      }
pregap_inside pregap pgtype pgsub info ht hs =
    otherwise _ _ _ (some_pregap pregap)
    ∙ ap (convert_subtype_string_to_pregap_info (get_subtype_string pgsub))
        (typed_pregap_lem pgtype (blank_pregap (suc pregap) info) ht)
    ∙ pregap_info-subtype_string pgsub
        (record info { pregap = suc pregap; pgtype = pgtype; pgdatasize = data_bytes pgtype }) hs

pregap_outside :
    (pregap pgsub : ℕ) (info : TrackInfo)
    → pgsub < 3
    → pregap_values (suc pregap) (get_type_string 0) (get_subtype_string pgsub) info ≡ record info {
      pregap = suc pregap;
      pgtype = 0;
      pgdatasize = 0;
      pgsub = pgsub;
      pgsubsize = subcode_bytes pgsub;
    }
unfolding get_type_string
pregap_outside pregap pgsub info hs =
    otherwise _ _ _ (some_pregap pregap)
    ∙ pregap_info-subtype_string pgsub
        (record info { pregap = suc pregap; pgtype = 0; pgdatasize = 0 }) hs

data_bytes_some : (n : ℕ) → (data_bytes n == 0) ≡ false
data_bytes_some zero = refl
data_bytes_some (suc zero) = refl
data_bytes_some (suc (suc zero)) = refl
data_bytes_some (suc (suc (suc zero))) = refl
data_bytes_some (suc (suc (suc (suc zero)))) = refl
data_bytes_some (suc (suc (suc (suc (suc zero))))) = refl
data_bytes_some (suc (suc (suc (suc (suc (suc n)))))) = refl

-- What parse_track makes of the values behind the type of the track.
abbrev parse_rest : TrackText → TrackInfo → Option TrackInfo
parse_rest text typed =
    let sub =
      convert_subtype_string_to_track_info text.subtype
        (record typed { subtype = 2; subsize = 0 }) in
    let sized = record sub {
      frames = text.frames;
      padframes = text.padframes;
      extraframes = spillage text.frames;
    } in
    if typed.datasize == 0
    then none
    else some
        (record (pregap_values text.pregap text.pgtype text.pgsub sized) { postgap = text.postgap })

parse_rest_lem :
    (text : TrackText) (info done : TrackInfo) (subtype : ℕ)
    → subtype < 3
    → (info.datasize == 0) ≡ false
    → text.subtype ≡ get_subtype_string subtype
    → pregap_values text.pregap text.pgtype text.pgsub (record info {
      subtype = subtype;
      subsize = subcode_bytes subtype;
      frames = text.frames;
      padframes = text.padframes;
      extraframes = spillage text.frames;
    })
      ≡ done
    → parse_rest text info ≡ some (record done { postgap = text.postgap })
parse_rest_lem text info done subtype small sized named gap =
    otherwise _ _ _ sized
    ∙ ap
        (λ (sub : TrackInfo).
          some
            (record (pregap_values text.pregap text.pgtype text.pgsub (record sub {
              frames = text.frames;
              padframes = text.padframes;
              extraframes = spillage text.frames;
            })) { postgap = text.postgap }))
        (ap
            (λ name.
              convert_subtype_string_to_track_info name (record info { subtype = 2; subsize = 0 }))
            named
          ∙ track_info-subtype_string subtype info small)
    ∙ ap (λ (d : TrackInfo). some (record d { postgap = text.postgap })) gap

spillage_lem : (frames : ℕ) → frames < 2 ^ 31 → spillage frames ≡ (frames + 3) / 4 * 4 - frames
unfolding spillage
spillage_lem frames h = ground (arith, h)

-- The values of a track before its pregap is known.
abbrev bare : ℕ → ℕ → ℕ → TrackInfo
bare trktype subtype frames = record no_track {
  trktype = trktype;
  datasize = data_bytes trktype;
  subtype = subtype;
  subsize = subcode_bytes subtype;
  frames = frames;
  extraframes = spillage frames;
}

-- parse_pregap of what write_metadata says of a pregap.
gap_lem :
    (t : TrackInfo) (info : TrackInfo) (gap : Pregap)
    → IsPregap gap
    → t.pgdatasize ≡ gap_bytes gap
    → t.pgtype ≡ gap_type gap
    → pregap_values (gap_frames gap) (submode t) (get_subtype_string (gap_sub gap)) info
      ≡ record info {
        pregap = gap_frames gap;
        pgtype = gap_type gap;
        pgdatasize = gap_bytes gap;
        pgsub = gap_sub gap;
        pgsubsize = subcode_bytes (gap_sub gap);
      }
gap_lem t info no_pregap ok bytes type_ = refl
gap_lem t info (outside pregap pgsub) ok bytes type_ =
    let some_ : (if not (t.pgdatasize == 0)
          then str_append "V" (get_type_string t.pgtype)
          else get_type_string t.pgtype)
        ≡ get_type_string 0 =
      rw (bytes, type_) refl in
    ap (λ name. pregap_values (suc pregap) name (get_subtype_string pgsub) info) some_
    ∙ pregap_outside pregap pgsub info ok
gap_lem t info (inside pregap pgtype pgsub) (ok, ok') bytes type_ =
    let some_ : (if not (t.pgdatasize == 0)
          then str_append "V" (get_type_string t.pgtype)
          else get_type_string t.pgtype)
        ≡ str_append "V" (get_type_string pgtype) =
      rw (bytes, type_, data_bytes_some pgtype) refl in
    ap (λ name. pregap_values (suc pregap) name (get_subtype_string pgsub) info) some_
    ∙ pregap_inside pregap pgtype pgsub info ok ok'

parse_track_lem :
    (n trktype subtype frames postgap : ℕ) (gap : Pregap)
    → trktype < 8
    → subtype < 3
    → frames < 2 ^ 31
    → IsPregap gap
    → parse_track (scanned2 (arguments2 n (track trktype subtype frames postgap gap))) no_track
      ≡ some (track trktype subtype frames postgap gap)
unfolding parse_track parse_pregap arguments2 scanned2
parse_track_lem n trktype subtype frames postgap gap ht hs hf hg =
    let t : TrackInfo = track trktype subtype frames postgap gap in
    let text : TrackText = scanned2 (arguments2 n t) in
    ap (parse_rest text)
      (track_info-type_string trktype (record no_track { trktype = 0; datasize = 0 }) ht)
    ∙ parse_rest_lem text (record no_track { trktype = trktype; datasize = data_bytes trktype })
        (record t { extraframes = spillage frames; postgap = 0 }) subtype hs
        (data_bytes_some trktype) refl (gap_lem t (bare trktype subtype frames) gap hg refl refl)
    ∙ ap (λ n. some (record t { extraframes = n })) (spillage_lem frames hf)

-- For track number n, below 99, of a disc that is no GD-ROM, with one of the types and subtypes,
-- fewer than 2 ^ 31 frames, the extra frames up to the next multiple of 4, and no pregap, one
-- outside the file or one of a type inside it: where sscanf stores, in the order of the format, the
-- values that write_metadata gives string_format, and the place n of the table is blank,
-- parse_metadata makes exactly this track of them and puts it at place n.
pub parse_text-arguments2 :
    (n trktype subtype frames postgap : ℕ) (gap : Pregap) (tracks : ℕ → TrackInfo)
    → n < 99
    → trktype < 8
    → subtype < 3
    → frames < 2 ^ 31
    → IsPregap gap
    → tracks n ≡ no_track
    → parse_text (scanned2 (arguments2 n (track trktype subtype frames postgap gap))) tracks
      ≡ some (n, track trktype subtype frames postgap gap)
unfolding parse_text arguments2 scanned2
parse_text-arguments2 n trktype subtype frames postgap gap tracks small ht hs hf hg empty =
    let at_ : n + 1 - 1 ≡ n = omega arith in
    let valid : (n + 1 == 0) || ltb 99 (n + 1) ≡ false = ground (arith, small) in
    rw (valid, at_, empty, parse_track_lem n trktype subtype frames postgap gap ht hs hf hg)
      (ap (λ j. some (j, track trktype subtype frames postgap gap)) at_)
