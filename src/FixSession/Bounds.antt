-- ===== src/FixSession/Bounds.antt =====
-- A file whose orders have quantities in range.
use trading_simulation.Prelude.{ℕ, ◌≡◌, ◌∙◌, List, [], Bool, true, All}
use trading_simulation.Prelude.Int.{ℤ}
use trading_simulation.Double.{Double}
use trading_simulation.Order.{Order}
use trading_simulation.OrderBook.{OrderBook, done, accept_new_order, new_order_book}
use trading_simulation.OrderBook.Priority.Sized.{OrderIsSized, IsTraded}
use trading_simulation.OrderBook.Priority.Bounds.{
  BooksAreSized, each-InRange, new_order_book-InRange,
}
use trading_simulation.FixSession.{start}
use trading_simulation.FixSession.Replay.{replay_orders}
use trading_simulation.FixSession.Orders.{kept, start-kept}

-- Replaying a file into a new order book, where each order of the file has a quantity from 1 to
-- 2 ^ 31 - 1: the replay returns, every execution on the way has such a quantity, and so has every
-- order that rests at the end.
pub replay_orders-sized :
    (F : Double) (clock : ℕ → ℤ) (atof : List ℕ → F.Carrier) (z : F.Carrier) (now : ℕ → ℤ)
    (running : ℕ → Bool) (data_ : List ℕ) (os : List (Order F.Carrier))
    → start atof kept z now running [] data_ ≡ done os
    → All OrderIsSized os
    → (ob : OrderBook F.Carrier) × (replay_orders F clock atof z now running
          (new_order_book z true)
          data_
        ≡ done ob)
      × All (IsTraded F) ob.emitted
      × BooksAreSized ob
replay_orders-sized F clock atof z now running data_ os h sized =
    let (ob, e, fine) =
      each-InRange F clock (new_order_book z true) os (new_order_book-InRange F clock z true)
        sized in
    (
      ob,
      start-kept atof z now running (OrderBook F.Carrier) (accept_new_order F clock)
            (new_order_book z true) data_ os h
          ∙ e,
      fine.reported,
      fine.books,
    )
