-- ===== src/OrderBook/Priority.antt =====
-- Price and time priority, on the queues of resting orders: what `matchOrders`
-- (libs/order-book/src/order_book.cpp) promises of its trades.
pub mod Accept
pub mod Best
pub mod Bounds
pub mod Entry
pub mod Levels
pub mod Loop
pub mod Others
pub mod Round
pub mod Sized
pub mod Tops
use trading_simulation.Prelude.{
  ℕ, zero, suc, ◌<◌, ◌≤◌, ◌≡◌, ◌≢◌, List, [], ◌∷◌, ◌++◌, Option, none, some, if◌then◌else◌, ◌==◌,
}
use trading_simulation.Prelude.Int.{ℤ, pos, ◌-ℤ◌, eqb_ℤ, min_ℤ}
use trading_simulation.Double.{Double}
use trading_simulation.Order.{Order, OrderType, Execution}
use trading_simulation.PriceLevel.{Memory}
use trading_simulation.PriceLevel.Queue.{Linked}
use trading_simulation.SymbolBook.{SymbolBook}
use trading_simulation.OrderBook.{build_execution}

-- The orders that rest in a book, oldest first at each tick; an order is without its link.
pub record View (D : Type 0) : Type 0 where
  pub bids : ℕ → List (Order D)
  pub asks : ℕ → List (Order D)

abbrev pub unlinked : {D : Type 0} → Order D → Order D
unlinked o = record o { next = none }

abbrev pub orders : {D : Type 0} → Memory D → List ℕ → List (Order D)
orders m [] = []
orders m (x ∷ xs) = unlinked (m x) ∷ orders m xs

-- The links of a book lead through these orders.
abbrev pub Shows : {D : Type 0} → Memory D → SymbolBook → View D → Type 0
Shows m book v =
    ((t : ℕ) → (xs : List ℕ) × Linked m (book.bids t).head xs × (v.bids t ≡ orders m xs))
    × ((t : ℕ) → (xs : List ℕ) × Linked m (book.asks t).head xs × (v.asks t ≡ orders m xs))

-- The oldest order less a quantity: it leaves when none is left.
abbrev pub reduced : {D : Type 0} → ℤ → List (Order D) → List (Order D)
reduced qty [] = []
reduced qty (o ∷ os) =
    let left = o.quantity -ℤ qty in
    if eqb_ℤ left (pos 0) then os else record o { quantity = left } ∷ os

-- Of the two orders of a trade, the one that did not come in with the call.
abbrev pub resting_of : {D : Type 0} → OrderType → Order D → Order D → Order D
resting_of OrderType.buy buyer seller = seller
resting_of OrderType.sell buyer seller = buyer

-- No bid at or above an ask.
abbrev pub IsUncrossed : {D : Type 0} → View D → Type 0
IsUncrossed v = (b a : ℕ) → v.bids b ≢ [] → v.asks a ≢ [] → b < a

module _ (F : Double) (clock : ℕ → ℤ) (symbol : List ℕ) (aggressor : OrderType) where
  -- The oldest order at the highest bid meets the oldest order at the lowest ask: both lose the smaller
  -- of their quantities, and the execution is made from the two at reading `n` of the clock.
  pub record Trade (n : ℕ) (v w : View F.Carrier) (e : Execution F.Carrier) : Type 0 where
    pub bid_tick : ℕ
    pub ask_tick : ℕ
    pub buyer : Order F.Carrier
    pub seller : Order F.Carrier
    pub buyers : List (Order F.Carrier)
    pub sellers : List (Order F.Carrier)
    pub meet : ask_tick ≤ bid_tick
    pub oldest_bid : v.bids bid_tick ≡ buyer ∷ buyers
    pub oldest_ask : v.asks ask_tick ≡ seller ∷ sellers
    pub highest : (t : ℕ) → bid_tick < t → v.bids t ≡ []
    pub lowest : (t : ℕ) → t < ask_tick → v.asks t ≡ []
    pub execution :
        e
        ≡ build_execution F clock
            (min_ℤ seller.quantity buyer.quantity)
            seller
            buyer
            symbol
            aggressor
            n
    -- The price is that of the order that was there before.
    pub price : e.trade_price ≡ (resting_of aggressor buyer seller).price
    pub traded : e.quantity ≡ F.of_int (min_ℤ seller.quantity buyer.quantity)
    pub bids_left :
        (t : ℕ)
        → w.bids t ≡ (
            if t == bid_tick
            then reduced (min_ℤ seller.quantity buyer.quantity) (v.bids t)
            else v.bids t)
    pub asks_left :
        (t : ℕ)
        → w.asks t ≡ (
            if t == ask_tick
            then reduced (min_ℤ seller.quantity buyer.quantity) (v.asks t)
            else v.asks t)

  -- Trades one after the other.
  pub data Trades : ℕ → View F.Carrier → View F.Carrier → List (Execution F.Carrier) → Type 0 where
    no_trade : {n : ℕ} {v : View F.Carrier} → Trades n v v []
    a_trade :
        {n : ℕ} {v w u : View F.Carrier} {e : Execution F.Carrier} {es : List (Execution F.Carrier)}
        → Trade n v w e
        → Trades (suc n) w u es
        → Trades n v u (e ∷ es)

-- An order that comes in stands behind those of its tick.
abbrev pub Entered : {D : Type 0} → OrderType → Order D → ℕ → View D → View D → Type 0
Entered OrderType.buy o tick v w =
    ((t : ℕ) → w.bids t ≡ (if t == tick then v.bids t ++ o ∷ [] else v.bids t))
    × ((t : ℕ) → w.asks t ≡ v.asks t)
Entered OrderType.sell o tick v w =
    ((t : ℕ) → w.bids t ≡ v.bids t)
    × ((t : ℕ) → w.asks t ≡ (if t == tick then v.asks t ++ o ∷ [] else v.asks t))
