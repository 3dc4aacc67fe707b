-- ===== src/Tests/Books.antt =====
-- The order book.
use trading_simulation.Prelude.{
  ℕ, ◌*◌, ◌/◌, ◌%◌, ◌≡◌, refl, List, [], ◌∷◌, none, true, arith, replicate, update, false, ◌≢◌, sym,
  ap, ◌∙◌, subst, length,
}
use trading_simulation.Prelude.Int.{ℤ, pos, negsuc, ◌+ℤ◌, ◌-ℤ◌, ◌*ℤ◌}
use trading_simulation.Word64.{test_bit, shift_left, sub_word, complement, clzll, ctzll}
use trading_simulation.Word64.Bits.{test_bit-zero}
use trading_simulation.Order.{Order, OrderType, Execution}
use trading_simulation.ObjectPool
use trading_simulation.Bitset.{
  Bits, IsWords, occupied, bit_set, bit_clear, descend, from_top, highest_bid, ascend, from_bottom,
  lowest_ask,
}
use trading_simulation.Bitset.Highest.{IsHighest, highest_bid-IsHighest}
use trading_simulation.Bitset.Lowest.{IsInTicks, IsLeastTick, lowest_ask-IsLeastTick}
use trading_simulation.PriceLevel.{push, pop_front, is_empty}
use trading_simulation.SymbolBook.{enter_bid, enter_ask, drop_bid, drop_ask, crossed}
use trading_simulation.OrderBook.{
  find_or_new, OrderBook, Outcome, done, fault, out_of_fuel, pool_capacity, accept_new_order,
  new_order_book, set_execution_callback, sym_key, strncpy, exchange, settle_bid, settle_ask,
  price_to_tick, build_execution, report, trade, round_at, round, match_orders, enter, entered,
  place_order, best_bid, best_ask, string_key, tick_to_price, pool_available,
}
use trading_simulation.OrderBook.Accept.{
  IsValid, Returns, accept_new_order-Returns, new_order_book-IsValid,
}
use trading_simulation.ObjectPool.Laws.{free_list, length-entries}
use trading_simulation.OrderBook.Priority.{View, Shows}
use trading_simulation.OrderBook.Priority.Accept.{Obeys, accept_new_order-Obeys}
use trading_simulation.OrderBook.Priority.Best.{IsBestBid, IsBestAsk, best_prices_lem}
use trading_simulation.Tests.Fixed.{fixed, clock}

abbrev pub order : ℕ → OrderType → ℕ → ℕ → Order ℤ
order name side cents qty = record {
  id = name ∷ replicate 15 0;
  symbol = 65 ∷ replicate 7 0;
  price = pos (cents * 10);
  order_type = side;
  quantity = pos qty;
  arrival_ns = pos 7;
  next = none;
}

abbrev fresh : OrderBook ℤ
fresh = new_order_book (pos 0) true

-- The callback set after the construction.
set_execution_callback-fresh : set_execution_callback (new_order_book (pos 0) false) ≡ fresh
unfolding set_execution_callback new_order_book
set_execution_callback-fresh = refl

abbrev then_accept : Outcome (OrderBook ℤ) → Order ℤ → Outcome (OrderBook ℤ)
then_accept (done ob) o = accept_new_order fixed clock ob o
then_accept fault o = fault
then_accept out_of_fuel o = out_of_fuel

-- A sale of 100 at 150.00, and a purchase of 60 with a limit of 151.00.
abbrev session : Outcome (OrderBook ℤ)
session =
    then_accept (then_accept (done fresh) (order 1 OrderType.sell 15000 100))
      (order 2 OrderType.buy 15100 60)

-- What a session shows: the trades, as quantity and price, the best prices and the free slots.
abbrev shown : Outcome (OrderBook ℤ) → List (ℤ × ℤ) × ℤ × ℤ × ℕ
shown (done ob) = (
  trades ob.emitted,
  best_bid fixed clock ob (65 ∷ []),
  best_ask fixed clock ob (65 ∷ []),
  pool_available ob,
)
  where
    trades : List (Execution ℤ) → List (ℤ × ℤ)
    trades [] = []
    trades (e ∷ es) = (e.quantity, e.trade_price) ∷ trades es
shown fault = ([], pos 0, pos 0, 0)
shown out_of_fuel = ([], pos 0, pos 0, 1)

session-shown : shown session ≡ ((pos 60_000, pos 150_000) ∷ [], pos 0, pos 150_000, 65535)
unfolding ◌+ℤ◌ ◌-ℤ◌ ◌*ℤ◌ test_bit shift_left sub_word complement clzll ctzll ObjectPool.alloc
    ObjectPool.init ObjectPool.release ObjectPool.available occupied bit_set bit_clear descend
    from_top highest_bid ascend from_bottom lowest_ask push pop_front is_empty enter_bid enter_ask
    drop_bid drop_ask crossed accept_new_order new_order_book sym_key strncpy exchange settle_bid
    settle_ask price_to_tick build_execution report trade round_at round match_orders enter entered
    place_order best_bid best_ask string_key tick_to_price pool_available
session-shown = refl

accept_new_order-Returns_example :
    Returns pool_capacity (accept_new_order fixed clock fresh (order 1 OrderType.sell 15000 100))
accept_new_order-Returns_example =
    accept_new_order-Returns fixed clock fresh (order 1 OrderType.sell 15000 100)
      (new_order_book-IsValid (pos 0) true)

abbrev book_of : Outcome (OrderBook ℤ) → OrderBook ℤ
book_of (done ob) = ob
book_of fault = fresh
book_of out_of_fuel = fresh

-- A sale rests.
abbrev pub after_sale : OrderBook ℤ
after_sale = book_of (accept_new_order fixed clock fresh (order 1 OrderType.sell 15000 100))

pub after_sale-IsValid : IsValid pool_capacity after_sale
after_sale-IsValid =
    let (ob', e, v) =
      accept_new_order-Returns fixed clock fresh (order 1 OrderType.sell 15000 100)
        (new_order_book-IsValid (pos 0) true) in
    subst (IsValid pool_capacity) (ap book_of (sym e)) v

after_sale_available : pool_available after_sale ≡ 65535
unfolding ◌+ℤ◌ ◌-ℤ◌ ◌*ℤ◌ test_bit shift_left sub_word complement clzll ctzll ObjectPool.alloc
    ObjectPool.init ObjectPool.release ObjectPool.available occupied bit_set bit_clear descend
    from_top highest_bid ascend from_bottom lowest_ask push pop_front is_empty enter_bid enter_ask
    drop_bid drop_ask crossed accept_new_order new_order_book sym_key strncpy exchange settle_bid
    settle_ask price_to_tick build_execution report trade round_at round match_orders enter entered
    place_order pool_available
after_sale_available = refl

after_sale_room : free_list after_sale.pool ≢ []
unfolding pool_available ObjectPool.available
after_sale_room e =
    let free = after_sale.pool.free_stack in
    let none_free : after_sale.pool.top ≡ 0 =
      sym (length-entries free after_sale.pool.top) ∙ ap length e in
    omega (arith, none_free, after_sale_available)

tick-bid : price_to_tick fixed clock (pos 151000) ≡ pos 15100
unfolding price_to_tick ◌+ℤ◌ ◌*ℤ◌
tick-bid = refl

-- A purchase that meets the sale.
accept_new_order-Obeys_example :
    Obeys fixed clock after_sale
      (order 2 OrderType.buy 15100 60)
      15100
      (accept_new_order fixed clock after_sale (order 2 OrderType.buy 15100 60))
accept_new_order-Obeys_example =
    accept_new_order-Obeys fixed clock after_sale (order 2 OrderType.buy 15100 60) 15100
      after_sale-IsValid tick-bid (omega arith) after_sale_room

best_prices_lem_example :
    (v : View ℤ) × Shows after_sale.memory
      (find_or_new (after_sale.books (string_key fixed clock (65 ∷ []))))
      v
    × IsBestBid fixed clock v (best_bid fixed clock after_sale (65 ∷ []))
    × IsBestAsk fixed clock v (best_ask fixed clock after_sale (65 ∷ []))
best_prices_lem_example = best_prices_lem fixed clock after_sale (65 ∷ []) after_sale-IsValid

-- Ticks 3 and 70 are marked.
abbrev two_levels : Bits
two_levels = update (update (λ _. 0) 0 8) 1 64

two_levels-IsWords : IsWords two_levels
two_levels-IsWords w = ground arith

highest_bid-IsHighest_example : IsHighest (occupied two_levels) 69 (highest_bid two_levels (pos 69))
highest_bid-IsHighest_example = highest_bid-IsHighest two_levels 69 two_levels-IsWords

highest_bid_runs :
    (highest_bid two_levels (pos 69) ≡ pos 3) × (highest_bid two_levels (pos 2) ≡ negsuc 0)
unfolding highest_bid descend from_top sub_word shift_left clzll
highest_bid_runs = (refl, refl)

two_levels-IsInTicks : IsInTicks two_levels
unfolding occupied
two_levels-IsInTicks j above =
    let no_word : two_levels (j / 64) ≡ 0 = ground (arith, above) in
    rw no_word (test_bit-zero (j % 64))

lowest_ask-IsLeastTick_example : IsLeastTick (occupied two_levels) 4 (lowest_ask two_levels 4)
lowest_ask-IsLeastTick_example =
    lowest_ask-IsLeastTick two_levels 4 two_levels-IsWords two_levels-IsInTicks (omega arith)
