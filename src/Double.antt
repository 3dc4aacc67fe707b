-- ===== src/Double.antt =====
-- C++ `double`, as far as the program computes with it. antt has no floating-point numbers, so the
-- type and its operations are a parameter of every component that uses them; a theorem that relies
-- on more than the operations' existence names what it relies on.
use trading_simulation.Prelude.{ℕ, Bool}
use trading_simulation.Prelude.Int.{ℤ}

pub record Double : Type 1 where
  pub Carrier : Type 0
  -- The literal `m * 10 ^ -k`: 0.01 is `decimal 1 2`.
  pub decimal : ℕ → ℕ → Carrier
  -- Conversion of an integer.
  pub of_int : ℤ → Carrier
  -- `static_cast<int>`.
  pub to_int : Carrier → ℤ
  -- `static_cast<uint64_t>`.
  pub to_uint : Carrier → ℕ
  pub add : Carrier → Carrier → Carrier
  pub sub : Carrier → Carrier → Carrier
  pub mul : Carrier → Carrier → Carrier
  pub div : Carrier → Carrier → Carrier
  pub neg : Carrier → Carrier
  -- The comparison `<`.
  pub lt : Carrier → Carrier → Bool
  -- The comparisons `<=` and `==`.
  pub le : Carrier → Carrier → Bool
  pub eq : Carrier → Carrier → Bool
