-- ===== src/Order.antt =====
-- libs/order-book/include/order.h and execution.h: the records that the matching engine moves. A
-- `char` array is the list of its bytes, a pointer into the pool's slab is the index of its slot,
-- and `D` is the type of `double`.
use trading_simulation.Prelude.{ℕ, List, Option, none, replicate}
use trading_simulation.Prelude.Int.{ℤ, pos}

-- `OrderType` of order.h; `Side` of execution.h has the same two values.
pub data OrderType : Type 0 where
  buy sell : OrderType

pub data Side : Type 0 where
  buy sell : Side

pub record Order (D : Type 0) : Type 0 where
  pub id : List ℕ
  pub symbol : List ℕ
  pub price : D
  pub order_type : OrderType
  pub quantity : ℤ
  pub arrival_ns : ℤ
  pub next : Option ℕ

pub record Execution (D : Type 0) : Type 0 where
  pub buy_id : List ℕ
  pub sell_id : List ℕ
  pub symbol : List ℕ
  pub trade_price : D
  pub quantity : D
  pub side : Side
  pub arrival_ns : ℤ
  pub order_arrival_ns : ℤ

-- `Order{}`: every byte is zero, and the type is the enumerator of value 0.
abbrev pub zero_order : {D : Type 0} → D → Order D
zero_order z = record {
  id = replicate 16 0;
  symbol = replicate 8 0;
  price = z;
  order_type = OrderType.buy;
  quantity = pos 0;
  arrival_ns = pos 0;
  next = none;
}
