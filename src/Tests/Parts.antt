-- ===== src/Tests/Parts.antt =====
-- The pool, the price level, one book, the matching loop and the queue.
use trading_simulation.Prelude.{
  ℕ, ◌≡◌, ◌≢◌, ◌<◌, refl, List, [], ◌∷◌, true, arith, update, inl, inr, ◌∈◌,
}
use trading_simulation.Prelude.Int.{ℤ, pos}
use trading_simulation.Order.{OrderType, zero_order}
use trading_simulation.ObjectPool
use trading_simulation.ObjectPool.{ObjectPool}
use trading_simulation.ObjectPool.Laws
use trading_simulation.ObjectPool.Laws.{
  free_list, Allocates, alloc-Allocates, release-IsValid, init-IsValid,
}
use trading_simulation.PriceLevel.{Memory, PriceLevel, empty_level, push}
use trading_simulation.PriceLevel.Queue.{Holds, empty_level-Holds, push-Holds}
use trading_simulation.SymbolBook.{SymbolBook, new_book, enter_bid, enter_ask}
use trading_simulation.SymbolBook.Side.{Place, idle, resting}
use trading_simulation.SymbolBook.Valid.{
  BookHolds, new_book-BookHolds, enter_bid-BookHolds, enter_ask-BookHolds,
}
use trading_simulation.OrderBook.{Matching, match_orders}
use trading_simulation.OrderBook.Invariant.{MatchingHolds}
use trading_simulation.OrderBook.Loop.{Ends, match_orders-Ends}
use trading_simulation.Tests.Fixed.{fixed, clock}

-- Slots 1 and 0 are free, 2 and 3 are in use.
abbrev half_used : ObjectPool
half_used = record { free_stack = λ i. i; top = 2 }

half_used-IsValid : Laws.IsValid 4 half_used
half_used-IsValid = record { distinct = omega arith; in_slab = omega arith }

alloc-Allocates_example : Allocates 4 half_used (ObjectPool.alloc half_used)
alloc-Allocates_example = alloc-Allocates half_used half_used-IsValid

release-IsValid_example : Laws.IsValid 4 (ObjectPool.release half_used 3) × (half_used.top < 4)
release-IsValid_example = release-IsValid half_used 3 half_used-IsValid (omega arith) (omega arith)

abbrev memory : Memory ℤ
memory _ = zero_order (pos 0)

abbrev one_queued : Memory ℤ × PriceLevel
one_queued = push memory empty_level 2

one_queued-Holds : Holds one_queued.0 one_queued.1 (2 ∷ [])
one_queued-Holds = push-Holds memory empty_level 2 [] (empty_level-Holds memory) tt

abbrev nowhere : ℕ → Place
nowhere _ = idle

-- A bid on slot 3 at tick 5.
abbrev bid_entered : Memory ℤ × SymbolBook
bid_entered = enter_bid memory new_book 5 3

abbrev bid_placed : ℕ → Place
bid_placed = update nowhere 3 (resting 9 OrderType.buy 5)

abbrev bid_queues : ℕ → List ℕ
bid_queues = update (λ _. []) 5 (3 ∷ [])

enter_bid-BookHolds_example :
    BookHolds bid_entered.0 bid_placed 9 bid_entered.1 bid_queues (λ _. [])
enter_bid-BookHolds_example =
    enter_bid-BookHolds (new_book-BookHolds memory nowhere 9) 5 3 refl (omega arith)

-- An ask on slot 2 at the same tick: the two cross.
abbrev both_entered : Memory ℤ × SymbolBook
both_entered = enter_ask bid_entered.0 bid_entered.1 5 2

abbrev both_placed : ℕ → Place
both_placed = update bid_placed 2 (resting 9 OrderType.sell 5)

abbrev crossing : Matching ℤ
crossing = record {
  memory = both_entered.0;
  pool = half_used;
  book = both_entered.1;
  emitted = [];
  readings = 0;
}

crossing-MatchingHolds :
    MatchingHolds 4 9 crossing both_placed bid_queues (update (λ _. []) 5 (2 ∷ []))
crossing-MatchingHolds = record {
  book =
      enter_ask-BookHolds
        (enter_bid-BookHolds (new_book-BookHolds memory nowhere 9) 5 3 refl (omega arith)) 5 2 refl
        (omega arith);
  pool = record { valid = half_used-IsValid; free_idle = free_idle; in_slab = λ x n. in_slab x n };
}
  where
    free_idle : (x : ℕ) → x ∈ free_list half_used → both_placed x ≡ idle
    free_idle x (inl e) = rw e
    free_idle x (inr (inl e)) = rw e
    free_idle x (inr (inr e)) = absurd e

    in_slab : (x : ℕ) → both_placed x ≢ idle → x < 4
    in_slab x n = ground arith

match_orders-Ends_example :
    Ends 4 9 crossing both_placed (match_orders fixed clock true 2 OrderType.sell 3 crossing)
match_orders-Ends_example =
    match_orders-Ends fixed clock true 2 OrderType.sell 4 9 3 crossing both_placed bid_queues
      (update (λ _. []) 5 (2 ∷ [])) crossing-MatchingHolds (omega arith)
