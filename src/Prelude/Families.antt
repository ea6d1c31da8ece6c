-- ===== src/Prelude/Families.antt =====
-- One value for each thread, item or client: a function on ℕ. How it changes at one place, and how
-- much its first `size` values weigh together.
use Prim.Native.Nat.{ℕ, zero, suc, ◌+◌, ◌≤◌, ◌<◌}
use mathlib.Core.Path.{◌≡◌, refl}
use native.Mathlib.Decide.{dec_lt}
use native.Mathlib.Omega.{arith}
use libchdman_rs.Prelude.Tests.{◌==◌, if◌then◌else◌}

abbrev pub update {ℓ} : {V : Type ℓ} → (ℕ → V) → ℕ → V → ℕ → V
update values place new k = if place == k then new else values k

module _ {ℓ} {V : Type ℓ} (weigh : V → ℕ) where
  pub total : ℕ → (ℕ → V) → ℕ
  total zero values = 0
  total (suc size) values = weigh (values size) + total size values

  -- A value weighs no more than all of them.
  pub le-total :
      (size : ℕ) (values : ℕ → V) (k : ℕ) → k < size → weigh (values k) ≤ total size values
  unfolding total
  le-total zero values k inside = absurd (omega arith)
  le-total (suc size) values k inside = elim (dec_lt k size) [
    | no final ↦ ground arith
    | yes early ↦ omega (arith, le-total size values k early)
  ]

  pub total-congr :
      (size : ℕ) (values others : ℕ → V)
      → ((k : ℕ) → weigh (values k) ≡ weigh (others k))
      → total size values ≡ total size others
  unfolding total
  total-congr zero values others same = refl
  total-congr (suc size) values others same =
      omega (arith, total-congr size values others same, same size)

  pub total_zero :
      (size : ℕ) (values : ℕ → V) → ((k : ℕ) → weigh (values k) ≡ 0) → total size values ≡ 0
  unfolding total
  total_zero zero values light = refl
  total_zero (suc size) values light = omega (arith, total_zero size values light, light size)

  -- A change behind the counted part is not seen.
  unseen :
      (size : ℕ) (values : ℕ → V) (place : ℕ) (new : V)
      → size ≤ place
      → total size values ≡ total size (update values place new)
  unfolding total
  unseen zero values place new behind = refl
  unseen (suc size) values place new behind = ground (unseen size values place new, arith)

  -- A change in the counted part changes the total by the difference of the two weights.
  pub total-update :
      (size : ℕ) (values : ℕ → V) (place : ℕ) (new : V)
      → place < size
      → total size (update values place new) + weigh (values place) ≡ total size values + weigh new
  unfolding total
  total-update zero values place new inside = absurd (omega arith)
  total-update (suc size) values place new inside = elim (dec_lt place size) [
    | no final ↦ ground (unseen size values place new, arith)
    | yes early ↦ ground (total-update size values place new early, arith)
  ]

pub total_mono {ℓ} :
    {V : Type ℓ} (light heavy : V → ℕ)
    → ((x : V) → light x ≤ heavy x)
    → (size : ℕ) (values : ℕ → V) → total light size values ≤ total heavy size values
unfolding total
total_mono light heavy le zero values = omega arith
total_mono light heavy le (suc size) values =
    omega (arith, total_mono light heavy le size values, le (values size))
