-- ===== src/Dispatcher.antt =====
-- libs/market_data: `Tick` (include/tick.h) and `MarketDispatcher` (include/market_dispatcher.h and
-- src/market_dispatcher.cpp). A callback is a value of any type, and `dispatch` gives the callbacks
-- that it calls, in order.
pub mod Routes
use trading_simulation.Prelude.{
  ℕ, ◌-◌, List, [], ◌∷◌, ◌++◌, Option, none, some, ◌==◌, if◌then◌else◌, take, replicate, length,
  min, update,
}
use trading_simulation.Prelude.Int.{ℤ}
use trading_simulation.OrderBook.{sym_key}

pub record Tick (D : Type 0) : Type 0 where
  pub symbol : List ℕ
  pub bid : D
  pub ask : D
  pub last : D
  pub timestamp_ns : ℤ

-- `callbacks_`: the callbacks of each key, if it has an entry.
abbrev pub Dispatcher : Type 0 → Type 0
Dispatcher C = ℕ → Option (List C)

-- `sym8`: eight bytes of the symbol, with zeros behind it.
unfoldable pub padded : List ℕ → List ℕ
padded symbol = let n = min (length symbol) 8 in take n symbol ++ replicate (8 - n) 0

-- `callbacks_[key]`, an entry being made where none is.
abbrev pub entry_of : {C : Type 0} → Option (List C) → List C
entry_of none = []
entry_of (some cs) = cs

-- `if (it == callbacks_.end()) return;`, and the loop over the callbacks.
abbrev pub called : {C : Type 0} → Option (List C) → List C
called none = []
called (some cs) = cs

module _ {C : Type 0} where
  unfoldable pub subscribe : Dispatcher C → List ℕ → C → Dispatcher C
  subscribe d [] callback = d
  subscribe d (c ∷ cs) callback =
      let key = sym_key (padded (c ∷ cs)) in update d key (some (entry_of (d key) ++ callback ∷ []))

  unfoldable pub dispatch : {D : Type 0} → Dispatcher C → Tick D → List C
  dispatch d tick = called (d (sym_key tick.symbol))

  unfoldable pub subscriber_count : Dispatcher C → List ℕ → ℕ
  subscriber_count d symbol = elim (d (sym_key (padded symbol))) [ none ↦ 0 | some cs ↦ length cs ]
