-- ===== src/PositionManager.antt =====
-- libs/position_manager: `Position` (include/position.h) and `PositionManager`
-- (src/position_manager.cpp). A `std::string` is the list of its bytes, and an unordered map the list
-- of its entries, in the order in which they were made.
pub mod Exact
pub mod Net
use trading_simulation.Prelude.{
  ℕ, zero, suc, ◌&&◌, List, [], ◌∷◌, Option, none, some, Bool, true, false, ◌==◌, if◌then◌else◌,
}
use trading_simulation.StringMap.{c_string, lookup, assign}
use trading_simulation.Prelude.Int.{ℤ, pos}
use trading_simulation.Double.{Double}
use trading_simulation.Order.{Side, Execution}

pub record Position (D : Type 0) : Type 0 where
  pub symbol : List ℕ
  pub quantity : D
  pub average_entry_price : D
  pub realised_pnl : D
  pub unrealised_pnl : D

-- `positions_`
abbrev pub Positions : Type 0 → Type 0
Positions D = List (List ℕ × Position D)

-- What `positions_[sym]` finds or makes.
abbrev pub found_or_new : {D : Type 0} → D → Option (Position D) → Position D
found_or_new z none = record {
  symbol = [];
  quantity = z;
  average_entry_price = z;
  realised_pnl = z;
  unrealised_pnl = z;
}
found_or_new z (some p) = p

-- `if (position.symbol.empty()) position.symbol = sym;`, the present symbol given.
abbrev pub named_at : {D : Type 0} → List ℕ → List ℕ → Position D → Position D
named_at sym [] p = record p { symbol = sym }
named_at sym (c ∷ cs) p = p

abbrev pub named : {D : Type 0} → List ℕ → Position D → Position D
named sym p = named_at sym p.symbol p

module _ (F : Double) where
  open F use {Carrier as D, decimal, add, sub, mul, div, neg, lt, le, eq}

  abbrev pub naught : D
  naught = decimal 0 0

  -- A BUY: it covers a short position, or adds to a long one.
  unfoldable pub apply_buy : Position D → D → D → Position D
  apply_buy p qty price =
      if lt p.quantity naught
      then (let cover_qty = if lt (neg p.quantity) qty then neg p.quantity else qty in
          let bought = add p.quantity qty in
          record p {
            quantity = bought;
            average_entry_price = if lt naught bought then price else p.average_entry_price;
            realised_pnl = add p.realised_pnl (mul cover_qty (sub p.average_entry_price price));
          })
      else record p {
        quantity = add p.quantity qty;
        average_entry_price =
            div (add (mul p.quantity p.average_entry_price) (mul qty price)) (add p.quantity qty);
      }

  -- A SELL: it closes a long position wholly or in part, opens a short one or adds to it.
  unfoldable pub apply_sell : Position D → D → D → Position D
  apply_sell p qty price =
      if lt naught p.quantity
      then (if le p.quantity qty
          then (let remainder = sub qty p.quantity in
              record p {
                quantity = neg remainder;
                average_entry_price = if lt naught remainder then price else naught;
                realised_pnl =
                    add p.realised_pnl (mul p.quantity (sub price p.average_entry_price));
              })
          else record p {
            quantity = sub p.quantity qty;
            realised_pnl = add p.realised_pnl (mul qty (sub price p.average_entry_price));
          })
      else if eq p.quantity naught
      then record p { quantity = neg qty; average_entry_price = price }
      else (let existing_short = neg p.quantity in
          let total_short = add existing_short qty in
          record p {
            quantity = sub p.quantity qty;
            average_entry_price =
                div (add (mul existing_short p.average_entry_price) (mul qty price)) total_short;
          })

  unfoldable pub apply_side : Side → Position D → D → D → Position D
  apply_side Side.buy p qty price = apply_buy p qty price
  apply_side Side.sell p qty price = apply_sell p qty price

  -- `onExecution`
  unfoldable pub on_execution : Positions D → Execution D → Positions D
  on_execution ps exec =
      let sym = c_string exec.symbol in
      let p = named sym (found_or_new naught (lookup sym ps)) in
      assign sym (apply_side exec.side p exec.quantity exec.trade_price) ps
