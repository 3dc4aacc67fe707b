-- ===== src/PositionManager/Exact.antt =====
-- What the accounts rely on of `double`: integers up to 2 ^ 53 are exact.
use trading_simulation.Prelude.{◌+◌, ◌^◌, ◌≤◌, ◌≡◌, not}
use trading_simulation.Prelude.Int.{ℤ, pos, ltb_ℤ, eqb_ℤ, ◌+ℤ◌, ◌-ℤ◌, pos_part, neg_part}
use trading_simulation.Double.{Double}

-- Its absolute value is at most 2 ^ 53.
abbrev pub IsSmall : ℤ → Type 0
IsSmall a = pos_part a + neg_part a ≤ 2 ^ 53

-- `denotes x a`: the double `x` has the value `a`; 0 has two such doubles. Sums, differences and
-- negations whose value is small have it, and comparisons compare the values (IEEE 754).
pub record IsExact (F : Double) (Denotes : F.Carrier → ℤ → Type 0) : Type 0 where
  pub naught : Denotes (F.decimal 0 0) (pos 0)
  pub add :
      (x y : F.Carrier) (a b : ℤ)
      → Denotes x a
      → Denotes y b
      → IsSmall (a +ℤ b)
      → Denotes (F.add x y) (a +ℤ b)
  pub sub :
      (x y : F.Carrier) (a b : ℤ)
      → Denotes x a
      → Denotes y b
      → IsSmall (a -ℤ b)
      → Denotes (F.sub x y) (a -ℤ b)
  pub neg : (x : F.Carrier) (a : ℤ) → Denotes x a → Denotes (F.neg x) (pos 0 -ℤ a)
  pub lt : (x y : F.Carrier) (a b : ℤ) → Denotes x a → Denotes y b → F.lt x y ≡ ltb_ℤ a b
  pub le : (x y : F.Carrier) (a b : ℤ) → Denotes x a → Denotes y b → F.le x y ≡ not (ltb_ℤ b a)
  pub eq : (x y : F.Carrier) (a b : ℤ) → Denotes x a → Denotes y b → F.eq x y ≡ eqb_ℤ a b
