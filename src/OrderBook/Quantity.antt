-- ===== src/OrderBook/Quantity.antt =====
-- Quantities as the `int` arithmetic of the matching loop needs them: from 1 to 2 ^ 31 - 1.
use trading_simulation.Prelude.{◌^◌, ◌<◌, ◌≤◌, ◌≡◌, arith, false}
use trading_simulation.Prelude.Int.{ℤ, pos, negsuc, pos_part, ◌-ℤ◌, eqb_ℤ, min_ℤ}

abbrev pub IsQuantity : ℤ → Type 0
IsQuantity q = (0 < pos_part q) × (pos_part q < 2 ^ 31)

pub min_ℤ-IsQuantity : (a b : ℤ) → IsQuantity a → IsQuantity b → IsQuantity (min_ℤ a b)
min_ℤ-IsQuantity a b h k = ground (arith, h, k)

-- What is left of a quantity, if anything is, when one that is not larger is taken away.
pub left-IsQuantity :
    (a q : ℤ)
    → IsQuantity a
    → IsQuantity q
    → pos_part q ≤ pos_part a
    → eqb_ℤ (a -ℤ q) (pos 0) ≡ false
    → IsQuantity (a -ℤ q)
unfolding ◌-ℤ◌
left-IsQuantity (pos a) (pos q) h k l e = ground (arith, h, k, l, e)
left-IsQuantity (negsuc a) q h k l e = absurd (omega (arith, h.0))
left-IsQuantity a (negsuc q) h k l e = absurd (omega (arith, k.0))

pub min_ℤ-le_left : (a b : ℤ) → IsQuantity a → IsQuantity b → pos_part (min_ℤ a b) ≤ pos_part a
min_ℤ-le_left a b h k = ground (arith, h, k)

pub min_ℤ-le_right : (a b : ℤ) → IsQuantity a → IsQuantity b → pos_part (min_ℤ a b) ≤ pos_part b
min_ℤ-le_right a b h k = ground (arith, h, k)
