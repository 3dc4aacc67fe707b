-- ===== src/OrderBook/Priority/Accept.antt =====
-- `acceptNewOrder` trades by price and time priority.
use trading_simulation.Prelude.{
  ℕ, suc, ◌<◌, ◌≡◌, ◌≢◌, sym, ap, ◌∙◌, List, [], some, arith, inl, inr, subst, ==_refl,
}
use trading_simulation.Prelude.Int.{ℤ, pos}
use trading_simulation.Double.{Double}
use trading_simulation.Order.{Order, Execution}
use trading_simulation.ObjectPool
use trading_simulation.ObjectPool.{ObjectPool}
use trading_simulation.ObjectPool.Laws.{free_list, Allocates, alloc-Allocates}
use trading_simulation.Bitset.{max_ticks}
use trading_simulation.OrderBook.{
  OrderBook, Outcome, done, sym_key, pool_capacity, find_or_new, written_back, match_orders,
  place_order, price_to_tick, accept_new_order,
}
use trading_simulation.OrderBook.Accept.{IsValid, alloc_result, place_matched}
use trading_simulation.OrderBook.Priority.{View, Shows, Entered, Trades, IsUncrossed, unlinked}
use trading_simulation.OrderBook.Priority.Round.{view-Shows}
use trading_simulation.OrderBook.Priority.Loop.{told, match_orders-Plays}
use trading_simulation.OrderBook.Priority.Entry.{
  started, entered-started, started-MatchingHolds, started-Entered, symbol-started,
}

module _ (F : Double) (clock : ℕ → ℤ) where
  -- A call that queues the order behind those of its tick and then trades by priority, until no bid is
  -- at or above an ask; the callback gets the executions of the trades, in order.
  abbrev pub Obeys :
      OrderBook F.Carrier → Order F.Carrier → ℕ → Outcome (OrderBook F.Carrier) → Type 0
  Obeys ob order t out =
      (ob' : OrderBook F.Carrier) × (v : View F.Carrier) × (u : View F.Carrier) × (w : View
        F.Carrier)
      × (es : List (Execution F.Carrier)) × (out ≡ done ob')
      × Shows ob.memory (find_or_new (ob.books (sym_key order.symbol))) v
      × Entered order.order_type (unlinked order) t v u
      × Trades F clock order.symbol order.order_type ob.readings u w es
      × Shows ob'.memory (find_or_new (ob'.books (sym_key order.symbol))) w
      × (ob'.emitted ≡ told ob.has_callback ob.emitted es)
      × IsUncrossed w

  started_plays :
      (capacity fuel : ℕ) (ob : OrderBook F.Carrier) (v : IsValid capacity ob)
      (order : Order F.Carrier) (t o : ℕ) (q : ObjectPool) (low : t < max_ticks)
      (got : Allocates capacity ob.pool (some o, q))
      → capacity < fuel
      → Obeys ob order t (
          written_back ob (sym_key order.symbol) (
            match_orders F clock ob.has_callback o order.order_type fuel
              (started capacity ob v order t o q low got order.order_type)))
  started_plays capacity fuel ob v order t o q low got enough =
      let key = sym_key order.symbol in
      let (s, w, es, out, shows, trades, emitted, free) =
        match_orders-Plays F clock ob.has_callback o order.order_type capacity key fuel
          (started capacity ob v order t o q low got order.order_type) _ _ _ order.symbol
          (started-MatchingHolds capacity ob v order t o q low got order.order_type)
          (omega (arith, enough))
          (symbol-started capacity ob v order t o q low got order.order_type) in
      (
        _,
        _,
        _,
        w,
        es,
        ap (written_back ob key) out,
        view-Shows (v.book key),
        started-Entered capacity ob v order t o q low got order.order_type,
        trades,
        rw (==_refl key) shows,
        emitted,
        free,
      )

  pub place_order-Obeys :
      (capacity fuel : ℕ) (ob : OrderBook F.Carrier) (order : Order F.Carrier) (t : ℕ)
      → IsValid capacity ob
      → capacity < fuel
      → t < max_ticks
      → free_list ob.pool ≢ []
      → Obeys ob order t (place_order F clock fuel ob order t)
  place_order-Obeys capacity fuel ob order t v enough low room =
      elim (alloc_result capacity ob.pool (ObjectPool.alloc ob.pool)
        (alloc-Allocates ob.pool v.pool.valid)) [
          | inl (e, full) ↦ absurd (room full)
          | inr (o, e, got) ↦
              let q = (ObjectPool.alloc ob.pool).1 in
              subst (Obeys ob order t)
                (sym (
                  place_matched F clock fuel ob order t o e
                  ∙ ap
                      (λ s.
                        written_back ob (sym_key order.symbol)
                          (match_orders F clock ob.has_callback o order.order_type fuel s))
                      (entered-started capacity ob v order t o q low got)))
                (started_plays capacity fuel ob v order t o q low got enough)
        ]

  accept_placed :
      (ob : OrderBook F.Carrier) (order : Order F.Carrier) (t : ℕ)
      → price_to_tick F clock order.price ≡ pos t
      → t < max_ticks
      → accept_new_order F clock ob order ≡ place_order F clock (suc pool_capacity) ob order t
  unfolding accept_new_order
  accept_placed ob order t at low = ground (arith, at)

  -- An order for a tick of the book, in a valid order book with a free slot, goes behind the orders of its
  -- tick. Then the oldest order at the highest bid trades with the oldest order at the lowest ask, again and
  -- again, each time by the smaller of the two quantities and as the execution says, until every bid is
  -- below every ask; the callback, if it is set, gets these executions in this order.
  pub accept_new_order-Obeys :
      (ob : OrderBook F.Carrier) (order : Order F.Carrier) (t : ℕ)
      → IsValid pool_capacity ob
      → price_to_tick F clock order.price ≡ pos t
      → t < max_ticks
      → free_list ob.pool ≢ []
      → Obeys ob order t (accept_new_order F clock ob order)
  accept_new_order-Obeys ob order t v at low room =
      subst (Obeys ob order t) (sym (accept_placed ob order t at low))
        (place_order-Obeys pool_capacity (suc pool_capacity) ob order t v (omega arith) low room)
