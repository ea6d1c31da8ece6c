-- ===== src/Chd/Header/Checks.antt =====
-- chd_file::create_common: which values its checks accept.
use mathlib.Core.Path.{subst}
use libchdman_rs.Prelude.{
  ℕ, zero, suc, ◌%◌, ◌≡◌, ◌≢◌, ◌↔◌, ◌≤◌, refl, ap, ◌∙◌, Bool, true, false, Option, none, some, List,
  [], ◌∷◌, ◌++◌, inl, inr, ltb, ◌==◌, ==_iff, Bool-cases, length, replicate, arith,
}
use libchdman_rs.Errors.{ErrorCondition, Status}
use libchdman_rs.Chd.Header.{check_codecs, create_checks}

-- Codecs that are not empty and that exist.
abbrev pub AllExist : (ℕ → Bool) → List ℕ → Type 0
AllExist codec_exists [] = Unit {0}
AllExist codec_exists (c ∷ cs) = (c ≢ 0) × (codec_exists c ≡ true) × AllExist codec_exists cs

-- Slots that begin with codecs that exist and are empty behind them.
abbrev pub Slots : (ℕ → Bool) → List ℕ → Type 0
Slots codec_exists codecs =
    (used : List ℕ) × (k : ℕ) × (codecs ≡ used ++ replicate k 0) × AllExist codec_exists used

-- A parent of version 3 or above with the same units.
abbrev pub FitsParent : ℕ → Option (ℕ × ℕ) → Type 0
FitsParent unitbytes none = Unit {0}
FitsParent unitbytes (some (version, units)) = (3 ≤ version) × (unitbytes ≡ units)

refused : {A : Type 0} → (e : ErrorCondition) → Path Status (some e) none → A
refused e h = absurd (subst (λ (s : Status). elim s [ none ↦ ⊥ | some x ↦ Unit {0} ]) h tt)

crashed : {A : Type 0} → Path (Option Status) none (some none) → A
crashed h = absurd (subst (λ (r : Option Status). elim r [ none ↦ Unit {0} | some x ↦ ⊥ ]) h tt)

passed : (r : Status) → Path (Option Status) (some r) (some none) → r ≡ none
passed r h = ap (λ (o : Option Status). elim o [ none ↦ r | some x ↦ x ]) h

empty_slots :
    (codec_exists : ℕ → Bool) (cs : List ℕ)
    → check_codecs codec_exists true cs ≡ none
    → cs ≡ replicate (length cs) 0
unfolding check_codecs
empty_slots codec_exists [] h = refl
empty_slots codec_exists (c ∷ cs) h = elim (Bool-cases (c == 0)) [
  | inl zero_ ↦
      ap (λ d. d ∷ cs) ((==_iff c 0).0 zero_)
      ∙ ap (λ l. 0 ∷ l) (empty_slots codec_exists cs (rw zero_ at h))
  | inr other ↦ refused _ (rw other at h)
]

check-Slots :
    (codec_exists : ℕ → Bool) (cs : List ℕ)
    → check_codecs codec_exists false cs ≡ none
    → Slots codec_exists cs
unfolding check_codecs
check-Slots codec_exists [] h = ([], 0, refl, tt)
check-Slots codec_exists (c ∷ cs) h = elim (Bool-cases (c == 0)) [
  | inl zero_ ↦ (
    [],
    suc (length cs),
    ap (λ d. d ∷ cs) ((==_iff c 0).0 zero_)
        ∙ ap (λ l. 0 ∷ l) (empty_slots codec_exists cs (rw zero_ at h)),
    tt,
  )
  | inr other ↦ elim (Bool-cases (codec_exists c)) [
    | inr unknown ↦ refused _ (rw (other, unknown) at h)
    | inl known ↦
        let (used, k, parts, fine) = check-Slots codec_exists cs (rw (other, known) at h) in
        (c ∷ used, k, ap (λ l. c ∷ l) parts, (ground (arith, other), known, fine))
  ]
]

check_empty :
    (codec_exists : ℕ → Bool) (found_zero : Bool) (k : ℕ)
    → check_codecs codec_exists found_zero (replicate k 0) ≡ none
unfolding check_codecs
check_empty codec_exists found_zero zero = refl
check_empty codec_exists found_zero (suc k) = check_empty codec_exists true k

check_used :
    (codec_exists : ℕ → Bool) (used : List ℕ) (k : ℕ)
    → AllExist codec_exists used
    → check_codecs codec_exists false (used ++ replicate k 0) ≡ none
unfolding check_codecs
check_used codec_exists [] k fine = check_empty codec_exists false k
check_used codec_exists (c ∷ used) k (some_, known, fine) =
    let other : (c == 0) ≡ false = ground (arith, some_) in
    rw (other, known) (check_used codec_exists used k fine)

-- The checks of create_common end, without a division by 0, and pass exactly where the parent, if
-- there is one, has version 3 or above and the same unit size, the unit size is not 0, the hunk
-- size is a multiple of the unit size, and the slots of codecs begin with codecs that exist and are
-- empty behind them.
pub create_checks_iff :
    (codec_exists : ℕ → Bool) (parent : Option (ℕ × ℕ)) (hunkbytes unitbytes : ℕ) (codecs : List ℕ)
    → (create_checks codec_exists parent hunkbytes unitbytes codecs ≡ some none) ↔ (
        FitsParent unitbytes parent
        × (unitbytes ≢ 0)
        × (hunkbytes % unitbytes ≡ 0)
        × Slots codec_exists codecs)
unfolding create_checks
create_checks_iff codec_exists none hunkbytes unitbytes codecs = (
  λ h. elim (Bool-cases (unitbytes == 0)) [
    | inl zero_ ↦ crashed (rw zero_ at h)
    | inr some_ ↦ elim (Bool-cases (hunkbytes % unitbytes == 0)) [
      | inl whole ↦ (
        tt,
        ground (arith, some_),
        (==_iff _ 0).0 whole,
        check-Slots codec_exists codecs (passed _ (rw (some_, whole) at h)),
      )
      | inr part ↦ refused _ (passed _ (rw (some_, part) at h))
    ]
  ],
  λ h.
      let (used, k, parts, fine) = h.3 in
      let some_ : (unitbytes == 0) ≡ false = ground (arith, h.1) in
      rw (some_, (==_iff _ 0).1 h.2, parts) (ap some (check_used codec_exists used k fine)),
)
create_checks_iff codec_exists (some (version, units)) hunkbytes unitbytes codecs = (
  λ h. elim (Bool-cases (ltb version 3)) [
    | inl old ↦ refused _ (passed _ (rw old at h))
    | inr new ↦ elim (Bool-cases (unitbytes == 0)) [
      | inl zero_ ↦ crashed (rw (new, zero_) at h)
      | inr some_ ↦ elim (Bool-cases (hunkbytes % unitbytes == 0)) [
        | inr part ↦ refused _ (passed _ (rw (new, some_, part) at h))
        | inl whole ↦ elim (Bool-cases (unitbytes == units)) [
          | inr other ↦ refused _ (passed _ (rw (new, some_, whole, other) at h))
          | inl same ↦ (
            (ground (arith, new), (==_iff _ _).0 same),
            ground (arith, some_),
            (==_iff _ 0).0 whole,
            check-Slots codec_exists codecs (passed _ (rw (new, some_, whole, same) at h)),
          )
        ]
      ]
    ]
  ],
  λ h.
      let (used, k, parts, fine) = h.3 in
      let new : ltb version 3 ≡ false = ground (arith, h.0) in
      let some_ : (unitbytes == 0) ≡ false = ground (arith, h.1) in
      rw (new, some_, (==_iff _ 0).1 h.2, (==_iff unitbytes units).1 h.0.1, parts)
        (ap some (check_used codec_exists used k fine)),
)
