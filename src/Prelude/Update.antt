-- ===== src/Prelude/Update.antt =====
-- A write at one index of an array or a memory that is modelled as a function.
use Prim.Native.Nat.{ℕ}
use mathlib.Core.Path.{◌≡◌}
use mathlib.Core.Logic.{◌≢◌}
use native.Mathlib.Omega.{arith}
use trading_simulation.Prelude.Tests.{◌==◌, if◌then◌else◌}

module _ {ℓ} {A : Type ℓ} where
  abbrev pub update : (ℕ → A) → ℕ → A → ℕ → A
  update f i v j = if j == i then v else f j

  pub update_self : (f : ℕ → A) (i : ℕ) (v : A) → update f i v i ≡ v
  update_self f i v = ground arith

  pub update_ne : (f : ℕ → A) (i j : ℕ) (v : A) → j ≢ i → update f i v j ≡ f j
  update_ne f i j v h = ground arith

  pub update_at : (f : ℕ → A) (i j : ℕ) (v : A) → j ≡ i → update f i v j ≡ v
  update_at f i j v e = ground (arith, e)
