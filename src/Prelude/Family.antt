-- ===== src/Prelude/Family.antt =====
-- What the first `n` members of a family have together, when one member changes.
use Prim.Native.Nat.{ℕ, zero, suc, ◌+◌, ◌≤◌, ◌<◌}
use mathlib.Core.Path.{◌≡◌, refl}
use native.Mathlib.Omega.{arith}
use trading_simulation.Prelude.Update.{update}

module _ {ℓ} {A : Type ℓ} (weight : A → ℕ) where
  abbrev pub sum_of : ℕ → (ℕ → A) → ℕ
  sum_of zero f = 0
  sum_of (suc n) f = weight (f n) + sum_of n f

  sum_of-update_above : (n i : ℕ) (f : ℕ → A) (a : A) → n ≤ i → sum_of n (update f i a) ≡ sum_of n f
  sum_of-update_above zero i f a h = refl
  sum_of-update_above (suc n) i f a h =
      ground (arith, sum_of-update_above n i f a (omega (arith, h)), h)

  pub sum_of-update :
      (n i : ℕ) (f : ℕ → A) (a : A)
      → i < n
      → sum_of n (update f i a) + weight (f i) ≡ sum_of n f + weight a
  sum_of-update zero i f a h = absurd (omega (arith, h))
  sum_of-update (suc n) i f a h =
      ground (arith, sum_of-update n i f a, sum_of-update_above n i f a, h)

  pub sum_of-none : (n : ℕ) (f : ℕ → A) → ((i : ℕ) → i < n → weight (f i) ≡ 0) → sum_of n f ≡ 0
  sum_of-none zero f h = refl
  sum_of-none (suc n) f h =
      omega (arith, h n (omega arith), sum_of-none n f (λ i l. h i (omega (arith, l))))
