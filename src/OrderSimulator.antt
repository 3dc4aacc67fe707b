-- ===== src/OrderSimulator.antt =====
-- src/tools/fix_order_simulator.cpp: the random walk of the prices and the lines of the file. What the
-- random generators draw is a list of draws; how integers and prices are written is a parameter.
pub mod Lines
pub mod File
use trading_simulation.Prelude.{
  ℕ, zero, suc, ◌-◌, List, [], ◌∷◌, ◌++◌, Option, none, some, ◌==◌, if◌then◌else◌, length,
  replicate, get_elem?, set,
}
use trading_simulation.Prelude.Text.{codes}
use trading_simulation.Double.{Double}

pub record SimSymbol (D : Type 0) : Type 0 where
  pub symbol : List ℕ
  pub current_price : D
  pub vol : D

pub record Draw (D : Type 0) : Type 0 where
  pub index : ℕ
  pub noise : D
  pub side : ℕ
  pub quantity : ℕ

-- `setw(w) << setfill('0')`
abbrev pub zero_filled : ℕ → List ℕ → List ℕ
zero_filled w s = replicate (w - length s) 48 ++ s

module _ (F : Double) (show : ℕ → List ℕ) (money : F.Carrier → List ℕ) where
  open F use {Carrier as D, decimal, add, mul, lt}

  -- The step of a price, with its floor.
  unfoldable pub walked : SimSymbol D → D → SimSymbol D
  walked s noise =
      let price = add s.current_price (mul noise s.vol) in
      record s { current_price = if lt price (decimal 1 2) then decimal 1 2 else price }

  -- A line without its end.
  unfoldable pub order_line : ℕ → SimSymbol D → ℕ → ℕ → List ℕ
  order_line i s side quantity =
      codes "11=ORD"
      ++ (zero_filled 5 (show i)
          ++ (codes "|35=D"
              ++ (codes "|55="
                  ++ (s.symbol
                      ++ (codes "|54="
                          ++ ((if side == 0 then codes "1" else codes "2")
                              ++ (codes "|44="
                                  ++ (money s.current_price
                                      ++ (codes "|38=" ++ show quantity)))))))))

  -- The loop from order `i` on: an index outside the table does not come.
  unfoldable pub simulate : ℕ → List (SimSymbol D) → List (Draw D) → Option (List ℕ)
  simulate i table [] = some []
  simulate i table (d ∷ draws) = elim (get_elem? table d.index) [
    | none ↦ none
    | some s ↦
        let s' = walked s d.noise in
        (elim (simulate (suc i) (set table d.index s') draws) [
          | none ↦ none
          | some rest ↦ some (order_line i s' d.side d.quantity ++ 10 ∷ rest)
        ])
  ]
