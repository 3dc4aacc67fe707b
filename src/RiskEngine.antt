-- ===== src/RiskEngine.antt =====
-- libs/risk_engine: `RiskEngine`. What a report prints is its result, as numbers.
-- `sqrt` is a parameter.
pub mod Var
use trading_simulation.Prelude.{
  ℕ, zero, suc, List, [], ◌∷◌, ◌++◌, Option, none, some, Bool, if◌then◌else◌, map,
}
use trading_simulation.StringMap.{c_string, lookup, assign}
use trading_simulation.Prelude.Int.{ℤ, pos, ltb_ℤ}
use trading_simulation.Double.{Double}
use trading_simulation.PositionManager.{Position, Positions}
use trading_simulation.Dispatcher.{Tick}
use trading_simulation.VolatilitySurface.{Surface, get_vol}

module _ (F : Double) where
  open F use {Carrier as D, sub, mul}

  -- `onTick`
  unfoldable pub on_tick : List (List ℕ × D) → Tick D → List (List ℕ × D)
  on_tick prices tick = assign (c_string tick.symbol) tick.last prices

  unfoldable pub current_price : List (List ℕ × D) → List ℕ → Position D → D
  current_price prices symbol p = elim (lookup symbol prices) [
    | none ↦ p.average_entry_price
    | some price ↦ price
  ]

  -- A line of the report: symbol, quantity, price, unrealised and realised profit.
  pub record Line : Type 0 where
    pub symbol : List ℕ
    pub quantity : D
    pub price : D
    pub unrealised_pnl : D
    pub realised_pnl : D

  unfoldable pub report_line : List (List ℕ × D) → List ℕ × Position D → Line
  report_line prices (symbol, p) =
      let price = current_price prices symbol p in
      record {
        symbol = symbol;
        quantity = p.quantity;
        price = price;
        unrealised_pnl = mul (sub price p.average_entry_price) p.quantity;
        realised_pnl = p.realised_pnl;
      }

  unfoldable pub run_report : List (List ℕ × D) → Positions D → List Line
  run_report prices [] = []
  run_report prices (e ∷ ps) = report_line prices e ∷ run_report prices ps

module _ (F : Double) (sqrt : F.Carrier → F.Carrier) where
  open F use {Carrier as D, decimal, add, mul, div}

  -- The loop of `computeVar`.
  unfoldable pub sum_var : Surface D → List (List ℕ × D) → D → Positions D → Option D
  sum_var surface prices var [] = some var
  sum_var surface prices var ((symbol, p) ∷ ps) =
      let price = current_price F prices symbol p in
      elim (get_vol F surface price (pos 30)) [
        | none ↦ none
        | some annual ↦
            let daily = div annual (sqrt (decimal 252 0)) in
            sum_var surface prices (add var (mul (mul p.quantity price) daily)) ps
      ]

  unfoldable pub compute_var : Surface D → List (List ℕ × D) → Positions D → Option D
  compute_var surface prices ps = elim (sum_var surface prices (decimal 0 0) ps) [
    | none ↦ none
    | some var ↦ some (mul var (decimal 1645 3))
  ]
