-- ===== src/OrderBook.antt =====
-- `OrderBook` of libs/order-book/include/order_book.h and libs/order-book/src/order_book.cpp: the
-- pool, the books by symbol key and the matching loop. The slab of the pool is the memory. The
-- execution callback is the list of the executions that it was called with. The clock is a
-- parameter, `clock n` being its n-th reading, and so is the arithmetic of `double`.
pub mod Invariant
pub mod Trade
pub mod Loop
pub mod Priority
pub mod Start
pub mod Accept
pub mod Key
pub mod Frame
pub mod Serial
pub mod Quantity
use trading_simulation.Prelude.{
  ℕ, zero, suc, ◌+◌, ◌*◌, List, [], ◌∷◌, ◌++◌, Option, none, some, Bool, true, update, leb, ◌==◌,
  if◌then◌else◌, replicate,
}
use trading_simulation.Prelude.Int.{ℤ, pos, negsuc, ◌-ℤ◌, eqb_ℤ, min_ℤ}
use trading_simulation.Double.{Double}
use trading_simulation.Order.{Order, zero_order, OrderType, Side, Execution}
use trading_simulation.ObjectPool
use trading_simulation.ObjectPool.{ObjectPool}
use trading_simulation.Bitset.{max_ticks}
use trading_simulation.PriceLevel.{Memory}
use trading_simulation.SymbolBook.{
  SymbolBook, new_book, enter_bid, enter_ask, drop_bid, drop_ask, crossed,
}

abbrev pub pool_capacity : ℕ
pool_capacity = 65536

-- `memcpy` of the eight bytes of a symbol into a `uint64_t`, lowest byte first.
unfoldable pub sym_key : List ℕ → ℕ
sym_key [] = 0
sym_key (c ∷ cs) = c + 256 * sym_key cs

-- `strncpy` of `n` bytes: up to the terminator of the source, and zeros behind it.
unfoldable pub strncpy : ℕ → List ℕ → List ℕ
strncpy zero src = []
strncpy (suc n) [] = 0 ∷ strncpy n []
strncpy (suc n) (c ∷ cs) = if c == 0 then replicate (suc n) 0 else c ∷ strncpy n cs

abbrev pub set_quantity : {D : Type 0} → Memory D → ℕ → ℤ → Memory D
set_quantity m p q = update m p (record (m p) { quantity = q })

-- What the matching loop reads and writes.
pub record Matching (D : Type 0) : Type 0 where
  pub memory : Memory D
  pub pool : ObjectPool
  pub book : SymbolBook
  pub emitted : List (Execution D)
  pub readings : ℕ

pub record OrderBook (D : Type 0) : Type 0 where
  pub memory : Memory D
  pub pool : ObjectPool
  pub books : ℕ → Option SymbolBook
  pub has_callback : Bool
  pub emitted : List (Execution D)
  pub readings : ℕ

-- How a call ends: `fault` is a read through a null pointer, `out_of_fuel` a loop cut short.
pub data Outcome (A : Type 0) : Type 0 where
  done : A → Outcome A
  fault : Outcome A
  out_of_fuel : Outcome A

-- One round of the loop: return, a fault, or the next state.
pub data Round (A : Type 0) : Type 0 where
  stop : Round A
  null_read : Round A
  again : A → Round A

module _ {D : Type 0} where
  -- `bid->quantity -= tradeQty; ask->quantity -= tradeQty;`
  unfoldable pub exchange : Memory D → ℕ → ℕ → ℤ → Memory D
  exchange m bid ask qty =
      let paid = set_quantity m bid ((m bid).quantity -ℤ qty) in
      set_quantity paid ask ((paid ask).quantity -ℤ qty)

  -- `if (bid->quantity == 0) { pop_front; release; … }`
  unfoldable pub settle_bid : Matching D → ℕ → ℕ → Matching D
  settle_bid s tick bid =
      if eqb_ℤ (s.memory bid).quantity (pos 0)
      then record s { pool = ObjectPool.release s.pool bid; book = drop_bid s.memory s.book tick }
      else s

  unfoldable pub settle_ask : Matching D → ℕ → ℕ → Matching D
  settle_ask s tick ask =
      if eqb_ℤ (s.memory ask).quantity (pos 0)
      then record s { pool = ObjectPool.release s.pool ask; book = drop_ask s.memory s.book tick }
      else s

-- `books_[key]`: a missing book is made.
abbrev pub find_or_new : Option SymbolBook → SymbolBook
find_or_new none = new_book
find_or_new (some book) = book

module _ {D : Type 0} where
  unfoldable pub pool_available : OrderBook D → ℕ
  pool_available ob = ObjectPool.available ob.pool

  unfoldable pub enter : OrderType → Memory D → SymbolBook → ℕ → ℕ → Memory D × SymbolBook
  enter OrderType.buy m book tick o = enter_bid m book tick o
  enter OrderType.sell m book tick o = enter_ask m book tick o

  -- The state in which the loop starts: `*o = order; o->next = nullptr;`, and the order queued.
  unfoldable pub entered : OrderBook D → ObjectPool → Order D → ℕ → ℕ → Matching D
  unfolding enter
  entered ob pool order tick o =
      let m = update ob.memory o (record order { next = none }) in
      let (m', book) =
        enter (m o).order_type m (find_or_new (ob.books (sym_key (m o).symbol))) tick o in
      record { memory = m'; pool = pool; book = book; emitted = ob.emitted; readings = ob.readings }

  -- The book that the loop worked on goes back under its key.
  abbrev pub written_back : OrderBook D → ℕ → Outcome (Matching D) → Outcome (OrderBook D)
  written_back ob key fault = fault
  written_back ob key out_of_fuel = out_of_fuel
  written_back ob key (done s) = done (record ob {
    memory = s.memory;
    pool = s.pool;
    books = update ob.books key (some s.book);
    emitted = s.emitted;
    readings = s.readings;
  })

module _ (F : Double) (clock : ℕ → ℤ) where
  open F use {Carrier as D, decimal, of_int, to_int, add, mul, div}

  -- `static_cast<int>(p * 100.0 + 0.5)`
  unfoldable pub price_to_tick : D → ℤ
  price_to_tick p = to_int (add (mul p (decimal 100 0)) (decimal 5 1))

  -- `chrono::steady_clock::now()` is reading `n` of the clock.
  unfoldable pub build_execution : ℤ → Order D → Order D → List ℕ → OrderType → ℕ → Execution D
  build_execution qty ask bid symbol aggressor n = record {
    buy_id = strncpy 15 bid.id ++ 0 ∷ [];
    sell_id = strncpy 15 ask.id ++ 0 ∷ [];
    symbol = strncpy 7 symbol ++ 0 ∷ [];
    trade_price = elim aggressor [ OrderType.buy ↦ ask.price | OrderType.sell ↦ bid.price ];
    quantity = of_int qty;
    side = elim aggressor [ OrderType.buy ↦ Side.buy | OrderType.sell ↦ Side.sell ];
    arrival_ns = clock n;
    order_arrival_ns = elim aggressor [
      | OrderType.buy ↦ bid.arrival_ns
      | OrderType.sell ↦ ask.arrival_ns
    ];
  }

  module _ (has_callback : Bool) (taker : ℕ) (aggressor : OrderType) where
    -- The execution, its report to the callback and the two subtractions. `taker` is the slot whose
    -- symbol the loop was given.
    unfoldable pub report : Matching D → ℕ → ℕ → Matching D
    report s bid ask =
        let qty = min_ℤ (s.memory ask).quantity (s.memory bid).quantity in
        let exec =
          build_execution qty (s.memory ask) (s.memory bid) (s.memory taker).symbol aggressor
            s.readings in
        record s {
          memory = exchange s.memory bid ask qty;
          emitted = if has_callback then s.emitted ++ exec ∷ [] else s.emitted;
          readings = s.readings + 1;
        }

    -- The body of the loop at the ticks `b` and `a` with the orders at their fronts.
    unfoldable pub trade : Matching D → ℕ → ℕ → ℕ → ℕ → Matching D
    trade s b a bid ask = settle_ask (settle_bid (report s bid ask) b bid) a ask

    unfoldable pub round_at : Matching D → ℕ → ℕ → Option ℕ → Option ℕ → Round (Matching D)
    round_at s b a none ask = null_read
    round_at s b a (some bid) none = null_read
    round_at s b a (some bid) (some ask) = again (trade s b a bid ask)

    unfoldable pub round : Matching D → Round (Matching D)
    round s = elim (crossed s.book) [
      | none ↦ stop
      | some (b, a) ↦ round_at s b a (s.book.bids b).head (s.book.asks a).head
    ]

    -- The loop, with fuel.
    unfoldable pub match_orders : ℕ → Matching D → Outcome (Matching D)
    match_orders zero s = out_of_fuel
    match_orders (suc fuel) s = elim (round s) [
      | stop ↦ done s
      | null_read ↦ fault
      | again t ↦ match_orders fuel t
    ]

  -- From the allocation on; a pool with no free slot drops the order.
  unfoldable pub place_order : ℕ → OrderBook D → Order D → ℕ → Outcome (OrderBook D)
  place_order fuel ob order tick =
      let (slot, pool) = ObjectPool.alloc ob.pool in
      elim slot [
        | none ↦ done ob
        | some o ↦
            written_back ob (sym_key order.symbol)
              (match_orders ob.has_callback o order.order_type fuel (entered ob pool order tick o))
      ]

  -- A tick outside the book drops the order. The loop gets one round for each slot of the pool,
  -- and one to find that nothing crosses.
  unfoldable pub accept_new_order : OrderBook D → Order D → Outcome (OrderBook D)
  accept_new_order ob order = elim (price_to_tick order.price) [
    | negsuc n ↦ done ob
    | pos tick ↦
        if leb max_ticks tick then done ob else place_order (suc pool_capacity) ob order tick
  ]

  -- `t / 100.0`
  unfoldable pub tick_to_price : ℤ → D
  tick_to_price t = div (of_int t) (decimal 100 0)

  -- The key of a caller's string: seven of its characters at most.
  unfoldable pub string_key : List ℕ → ℕ
  string_key symbol = sym_key (strncpy 7 symbol ++ 0 ∷ [])

  unfoldable pub best_bid : OrderBook D → List ℕ → D
  best_bid ob symbol = elim (ob.books (string_key symbol)) [
    | none ↦ decimal 0 0
    | some book ↦
        if eqb_ℤ book.best_bid_tick (negsuc 0)
        then decimal 0 0
        else tick_to_price book.best_bid_tick
  ]

  unfoldable pub best_ask : OrderBook D → List ℕ → D
  best_ask ob symbol = elim (ob.books (string_key symbol)) [
    | none ↦ decimal 0 0
    | some book ↦
        if book.best_ask_tick == max_ticks
        then decimal 0 0
        else tick_to_price (pos book.best_ask_tick)
  ]

-- A new `OrderBook`; the callback is set before the first order.
unfoldable pub new_order_book : {D : Type 0} → D → Bool → OrderBook D
new_order_book z has_callback = record {
  memory = λ _. zero_order z;
  pool = ObjectPool.init pool_capacity;
  books = λ _. none;
  has_callback = has_callback;
  emitted = [];
  readings = 0;
}

-- `setExecutionCallback`, with a callback that is not empty.
unfoldable pub set_execution_callback : {D : Type 0} → OrderBook D → OrderBook D
set_execution_callback ob = record ob { has_callback = true }
