-- ===== src/SymbolBook.antt =====
-- `SymbolBook` of libs/order-book/include/order_book.h, and the parts of `acceptNewOrder` and
-- `matchOrders` (libs/order-book/src/order_book.cpp) that work on one side of it.
pub mod Side
pub mod Best
pub mod Valid
use trading_simulation.Prelude.{ℕ, Option, none, some, update, ltb, ◌==◌, if◌then◌else◌, ◌≡◌, refl}
use trading_simulation.Prelude.Int.{ℤ, pos, negsuc, ltb_ℤ}
use trading_simulation.Bitset.{Bits, max_ticks, bit_set, bit_clear, highest_bid, lowest_ask}
use trading_simulation.PriceLevel.{Memory, PriceLevel, empty_level, push, pop_front, is_empty}

-- The vectors are functions from the tick; only ticks below `max_ticks` are used.
pub record SymbolBook : Type 0 where
  pub bids : ℕ → PriceLevel
  pub asks : ℕ → PriceLevel
  pub bid_bits : Bits
  pub ask_bits : Bits
  pub best_bid_tick : ℤ
  pub best_ask_tick : ℕ

-- The constructor.
abbrev pub new_book : SymbolBook
new_book = record {
  bids = λ _. empty_level;
  asks = λ _. empty_level;
  bid_bits = λ _. 0;
  ask_bits = λ _. 0;
  best_bid_tick = negsuc 0;
  best_ask_tick = max_ticks;
}

-- The branch of `acceptNewOrder` for a BUY: queue the order, mark the level, raise the best bid.
unfoldable pub enter_bid : {D : Type 0} → Memory D → SymbolBook → ℕ → ℕ → Memory D × SymbolBook
enter_bid m book tick o =
    let (m', level) = push m (book.bids tick) o in
    (
      m',
      record book {
        bids = update book.bids tick level;
        bid_bits = bit_set book.bid_bits tick;
        best_bid_tick =
            if ltb_ℤ book.best_bid_tick (pos tick) then pos tick else book.best_bid_tick;
      },
    )

-- The branch for a SELL.
unfoldable pub enter_ask : {D : Type 0} → Memory D → SymbolBook → ℕ → ℕ → Memory D × SymbolBook
enter_ask m book tick o =
    let (m', level) = push m (book.asks tick) o in
    (
      m',
      record book {
        asks = update book.asks tick level;
        ask_bits = bit_set book.ask_bits tick;
        best_ask_tick = if ltb tick book.best_ask_tick then tick else book.best_ask_tick;
      },
    )

-- `pop_front` at the best bid and, if that empties the level, the search for the next best.
unfoldable pub drop_bid : {D : Type 0} → Memory D → SymbolBook → ℕ → SymbolBook
drop_bid m book tick =
    let level = (pop_front m (book.bids tick)).1 in
    let popped : SymbolBook = record book { bids = update book.bids tick level } in
    let bits = bit_clear book.bid_bits tick in
    if is_empty level
    then record popped { bid_bits = bits; best_bid_tick = highest_bid bits (pos tick) }
    else popped

-- The same at the best ask.
unfoldable pub drop_ask : {D : Type 0} → Memory D → SymbolBook → ℕ → SymbolBook
drop_ask m book tick =
    let level = (pop_front m (book.asks tick)).1 in
    let popped : SymbolBook = record book { asks = update book.asks tick level } in
    let bits = bit_clear book.ask_bits tick in
    if is_empty level
    then record popped { ask_bits = bits; best_ask_tick = lowest_ask bits tick }
    else popped

-- The two guards at the head of the loop of `matchOrders`: the best ticks, if they cross. A negative
-- best bid is below every ask, so both guards return at it.
unfoldable pub crossed : SymbolBook → Option (ℕ × ℕ)
crossed book = elim book.best_bid_tick [
  | negsuc n ↦ none
  | pos b ↦
      if book.best_ask_tick == max_ticks
      then none
      else if ltb b book.best_ask_tick
      then none
      else some (b, book.best_ask_tick)
]
