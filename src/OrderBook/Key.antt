-- ===== src/OrderBook/Key.antt =====
-- The key of a symbol tells symbols apart.
use trading_simulation.Prelude.{ℕ, ◌<◌, ◌≡◌, refl, ap₂, List, [], ◌∷◌, arith, length, All}
use trading_simulation.OrderBook.{sym_key}

-- Two arrays of bytes of one length have the same key only if they are equal.
pub sym_key_injective :
    (xs ys : List ℕ)
    → All (λ c. c < 256) xs
    → All (λ c. c < 256) ys
    → length xs ≡ length ys
    → sym_key xs ≡ sym_key ys
    → xs ≡ ys
unfolding sym_key
sym_key_injective [] [] bx bys l e = refl
sym_key_injective [] (y ∷ ys) bx bys l e = absurd (omega arith)
sym_key_injective (x ∷ xs) [] bx bys l e = absurd (omega arith)
sym_key_injective (x ∷ xs) (y ∷ ys) bx bys l e =
    ap₂ ◌∷◌ (omega (arith, bx.0, bys.0))
      (sym_key_injective xs ys bx.1 bys.1 (omega arith) (omega (arith, bx.0, bys.0)))
