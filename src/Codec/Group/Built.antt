-- ===== src/Codec/Group/Built.antt =====
-- The constructor of chd_compressor_group behind the checks of create_common.
use libchdman_rs.Prelude.{
  Bool, true, false, ◌||◌, ◌&&◌, not, ◌%◌, ℕ, zero, suc, ◌≡◌, refl, sym, ap, ◌∙◌, true, false,
  Option, none, some, List, [], ◌∷◌, ◌++◌, map, if◌then◌else◌, ◌==◌, replicate, arith,
}
use libchdman_rs.Errors.{Result, ok, err, chd, codec_error, unknown_compression, ◌>>=◌}
use libchdman_rs.Chd.Header.{create_checks}
use libchdman_rs.Chd.Header.Checks.{AllExist, create_checks_iff}
use libchdman_rs.Codec.{Coder}
use libchdman_rs.Codec.Group.{codec_exists, find_in_list, is_cd, new_compressor, compressors}

-- The compressor of a slot.
abbrev pub slot : (ℕ → Coder) → ℕ → Option Coder
slot coder type_ = if type_ == 0 then none else some (coder type_)

-- Whether a slot has a codec for CDs.
abbrev pub any_cd : List ℕ → Bool
any_cd [] = false
any_cd (c ∷ cs) = is_cd c || any_cd cs

-- Hunks of whole frames, where a codec asks for them.
abbrev pub frames_fit : ℕ → List ℕ → Bool
frames_fit hunkbytes codecs = hunkbytes % 2448 == 0 || not (any_cd codecs)

-- The group, or what its constructor throws.
abbrev pub group : Bool → (ℕ → Coder) → List ℕ → Result (List (Option Coder))
group fit coder codecs = if fit then ok (map (slot coder) codecs) else err (chd codec_error)

abbrev more : Option Coder → Result (List (Option Coder)) → Result (List (Option Coder))
more s rest = rest >>= (λ slots. ok (s ∷ slots))

-- A slot in front.
abbrev in_front :
    Option (Result Coder) → Result (List (Option Coder)) → Result (List (Option Coder))
in_front made rest = elim made [
  | none ↦ err (chd unknown_compression)
  | some (err e) ↦ err e
  | some (ok c) ↦ more (some c) rest
]

more_fit :
    (fit : Bool) (s : Option Coder) (coder : ℕ → Coder) (c : ℕ) (cs : List ℕ)
    → s ≡ slot coder c
    → more s (group fit coder cs) ≡ group fit coder (c ∷ cs)
more_fit true s coder c cs same = ap (λ t. ok (t ∷ map (slot coder) cs)) same
more_fit false s coder c cs same = refl

module _ (make : ℕ → Result Coder) (coder : ℕ → Coder) (hunkbytes : ℕ)
    (made : (c : ℕ) → make c ≡ ok (coder c)) where
  empty_slot :
      (types : List ℕ)
      → compressors make hunkbytes (0 ∷ types) ≡ more none (compressors make hunkbytes types)
  unfolding compressors
  empty_slot types = refl

  used_slot :
      (types : List ℕ) (c : ℕ)
      → (c == 0) ≡ false
      → compressors make hunkbytes (c ∷ types)
        ≡ in_front (new_compressor make hunkbytes c) (compressors make hunkbytes types)
  unfolding compressors
  used_slot types c used = rw used refl

  new_slot :
      (c : ℕ)
      → codec_exists c ≡ true
      → new_compressor make hunkbytes c
        ≡ some
            (if is_cd c && not (hunkbytes % 2448 == 0) then err (chd codec_error) else ok (coder c))
  unfolding new_compressor
  new_slot c known = rw (known, made c) refl

  empty_any : (k : ℕ) → any_cd (replicate k 0) ≡ false
  unfolding find_in_list
  empty_any zero = refl
  empty_any (suc k) = empty_any k

  all_empty :
      (k : ℕ) → compressors make hunkbytes (replicate k 0) ≡ group true coder (replicate k 0)
  unfolding compressors
  all_empty zero = refl
  all_empty (suc k) =
      empty_slot (replicate k 0)
      ∙ ap (more none) (all_empty k)
      ∙ more_fit true none coder 0 (replicate k 0) refl

  frames_fit_empty : (k : ℕ) → frames_fit hunkbytes (replicate k 0) ≡ true
  frames_fit_empty k = ap (λ b. hunkbytes % 2448 == 0 || not b) (empty_any k) ∙ ground arith

  -- A slot whose codec does not throw, and one that throws.
  all_known :
      (used rest : List ℕ)
      → AllExist codec_exists used
      → compressors make hunkbytes rest ≡ group (frames_fit hunkbytes rest) coder rest
      → compressors make hunkbytes (used ++ rest)
        ≡ group (frames_fit hunkbytes (used ++ rest)) coder (used ++ rest)
  all_known [] rest fine done = done
  all_known (c ∷ used) rest (other, known, fine) done =
      let full : (c == 0) ≡ false = ground (arith, other) in
      let tail : List ℕ = used ++ rest in
      let here : slot coder c ≡ some (coder c) =
        ap (λ t. if t then none else some (coder c)) full in
      let rec = all_known used rest fine done in
      let first : compressors make hunkbytes (c ∷ tail)
          ≡ in_front
              (some (
                if is_cd c && not (hunkbytes % 2448 == 0)
                then err (chd codec_error)
                else ok (coder c)))
              (group (frames_fit hunkbytes tail) coder tail) =
        used_slot tail c full
        ∙ ap (λ n. in_front n (compressors make hunkbytes tail)) (new_slot c known)
        ∙ ap
            (in_front (
              some (
                if is_cd c && not (hunkbytes % 2448 == 0)
                then err (chd codec_error)
                else ok (coder c))))
            rec in
      first ∙ step (is_cd c) (hunkbytes % 2448 == 0) (any_cd tail) c tail (sym here)
    where
      step :
          (cd whole any : Bool) (c : ℕ) (tail : List ℕ)
          → some (coder c) ≡ slot coder c
          → in_front
              (some (if cd && not whole then err (chd codec_error) else ok (coder c)))
              (group (whole || not any) coder tail)
            ≡ group (whole || not (cd || any)) coder (c ∷ tail)
      step true true any c tail same = more_fit true (some (coder c)) coder c tail same
      step true false any c tail same = refl
      step false true any c tail same = more_fit true (some (coder c)) coder c tail same
      step false false true c tail same = refl
      step false false false c tail same = more_fit true (some (coder c)) coder c tail same

-- Where the checks of create_common pass with the codecs of the list, and no constructor of an
-- underlying codec throws, the constructor of chd_compressor_group makes a compressor for each slot
-- that is not empty, and none for the others, if the hunk is whole frames of a CD or no slot has a
-- codec for CDs, and otherwise throws CODEC_ERROR.
pub compressors-create_checks :
    (make : ℕ → Result Coder) (coder : ℕ → Coder) (parent : Option (ℕ × ℕ))
    (hunkbytes unitbytes : ℕ) (codecs : List ℕ)
    → ((c : ℕ) → make c ≡ ok (coder c))
    → create_checks codec_exists parent hunkbytes unitbytes codecs ≡ some none
    → compressors make hunkbytes codecs ≡ group (frames_fit hunkbytes codecs) coder codecs
compressors-create_checks make coder parent hunkbytes unitbytes codecs made passed =
    let (fits, some_units, whole, (used, k, parts, fine)) =
      (create_checks_iff codec_exists parent hunkbytes unitbytes codecs).0 passed in
    let rest : compressors make hunkbytes (replicate k 0)
        ≡ group (frames_fit hunkbytes (replicate k 0)) coder (replicate k 0) =
      all_empty make coder hunkbytes made k
      ∙ ap (λ b. group b coder (replicate k 0))
          (sym (frames_fit_empty make coder hunkbytes made k)) in
    ap (compressors make hunkbytes) parts
    ∙ all_known make coder hunkbytes made used (replicate k 0) fine rest
    ∙ ap (λ cs. group (frames_fit hunkbytes cs) coder cs) (sym parts)
