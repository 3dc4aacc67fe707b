-- ===== src/OrderBook/Accept.antt =====
-- `acceptNewOrder` on a valid order book.
pub use trading_simulation.OrderBook.Start.{IsValid, IsApart, Returns, ReturnsApart, rest-PoolHolds}
use trading_simulation.OrderBook.Start.{start_valid, back-IsValid, back-IsApart, same_book}
use trading_simulation.Prelude.{
  ℕ, suc, ◌≤◌, ◌<◌, ◌≡◌, refl, ap, ◌∙◌, List, [], Option, none, some, Bool, arith, ◌⊎◌, inl, inr,
  leb, Bool-cases,
}
use trading_simulation.Prelude.Int.{ℤ, pos, negsuc}
use trading_simulation.Double.{Double}
use trading_simulation.Order.{zero_order, Order}
use trading_simulation.ObjectPool
use trading_simulation.ObjectPool.{ObjectPool}
use trading_simulation.ObjectPool.Laws.{
  free_list, Allocates, alloc-Allocates, alloc_refines, pop_list, init-IsValid,
}
use trading_simulation.Bitset.{max_ticks}
use trading_simulation.SymbolBook.Side.{idle}
use trading_simulation.SymbolBook.Valid.{new_book-BookHolds, crossed-new_book}
use trading_simulation.OrderBook.{
  OrderBook, done, sym_key, pool_capacity, entered, written_back, match_orders, place_order,
  price_to_tick, accept_new_order, new_order_book,
}
use trading_simulation.OrderBook.Loop.{match_orders-Ends}

pub alloc_result :
    (capacity : ℕ) (p : ObjectPool) (out : Option ℕ × ObjectPool)
    → Allocates capacity p out
    → ((out.0 ≡ none) × (free_list p ≡ []))
      ⊎ ((o : ℕ) × (out.0 ≡ some o) × Allocates capacity p (some o, out.1))
alloc_result capacity p (none, q) a = inl (refl, a.0)
alloc_result capacity p (some o, q) a = inr (o, refl, a)

module _ (F : Double) (clock : ℕ → ℤ) where
  place_dropped :
      (fuel : ℕ) (ob : OrderBook F.Carrier) (order : Order F.Carrier) (t : ℕ)
      → (ObjectPool.alloc ob.pool).0 ≡ none
      → place_order F clock fuel ob order t ≡ done ob
  unfolding place_order
  place_dropped fuel ob order t e = ground arith

  pub place_matched :
      (fuel : ℕ) (ob : OrderBook F.Carrier) (order : Order F.Carrier) (t o : ℕ)
      → (ObjectPool.alloc ob.pool).0 ≡ some o
      → place_order F clock fuel ob order t
        ≡ written_back ob (sym_key order.symbol) (
            match_orders F clock ob.has_callback o order.order_type fuel
              (entered ob (ObjectPool.alloc ob.pool).1 order t o))
  unfolding place_order
  place_matched fuel ob order t o e = ground arith

  pub place_order-Returns :
      (capacity fuel : ℕ) (ob : OrderBook F.Carrier) (order : Order F.Carrier) (t : ℕ)
      (v : IsValid capacity ob)
      → capacity < fuel
      → t < max_ticks
      → ReturnsApart capacity ob v (sym_key order.symbol) (place_order F clock fuel ob order t)
  place_order-Returns capacity fuel ob order t v enough low =
      elim (alloc_result capacity ob.pool (ObjectPool.alloc ob.pool)
        (alloc-Allocates ob.pool v.pool.valid)) [
          | inl (e, full) ↦ (ob, place_dropped fuel ob order t e, v, same_book ob v _)
          | inr (o, e, got) ↦
              let pool = (ObjectPool.alloc ob.pool).1 in
              let (bq, aq, h) = start_valid capacity ob v order t o pool low got in
              let (s, out, f, ends) =
                match_orders-Ends F clock ob.has_callback o order.order_type capacity
                  (sym_key order.symbol) fuel (entered ob pool order t o) _ _ _ h (omega arith) in
              (
                _,
                place_matched fuel ob order t o e ∙ ap (written_back ob (sym_key order.symbol)) out,
                back-IsValid capacity ob v order t o pool low got s f ends,
                back-IsApart capacity ob v order t o pool low got s f ends,
              )
        ]

  accept_at :
      (ob : OrderBook F.Carrier) (order : Order F.Carrier) (tick : ℤ)
      → price_to_tick F clock order.price ≡ tick
      → (v : IsValid pool_capacity ob)
      → ReturnsApart pool_capacity ob v (sym_key order.symbol) (accept_new_order F clock ob order)
  unfolding accept_new_order
  accept_at ob order (negsuc n) e v = (ob, ground (arith, e), v, same_book ob v _)
  accept_at ob order (pos t) e v = elim (Bool-cases (leb max_ticks t)) [
    | inl out ↦ (ob, ground (arith, e), v, same_book ob v _)
    | inr in_range ↦
        let (ob', r, v', apart) =
          place_order-Returns pool_capacity (suc pool_capacity) ob order t v (omega arith)
            (ground arith) in
        (ob', ground (arith, e, r), v', apart)
  ]

  -- `acceptNewOrder` on a valid order book returns, in a valid state in which the books of the other
  -- symbols, and every order that rests in them, are as they were.
  pub accept_new_order-ReturnsApart :
      (ob : OrderBook F.Carrier) (order : Order F.Carrier) (v : IsValid pool_capacity ob)
      → ReturnsApart pool_capacity ob v (sym_key order.symbol) (accept_new_order F clock ob order)
  accept_new_order-ReturnsApart ob order v =
      accept_at ob order (price_to_tick F clock order.price) refl v

  -- `acceptNewOrder` on a valid order book returns (it meets no null pointer and its loop ends within
  -- the rounds given), and leaves a valid order book, in which no book crosses.
  pub accept_new_order-Returns :
      (ob : OrderBook F.Carrier) (order : Order F.Carrier)
      → IsValid pool_capacity ob
      → Returns pool_capacity (accept_new_order F clock ob order)
  accept_new_order-Returns ob order v =
      let (ob', e, v', apart) = accept_new_order-ReturnsApart ob order v in (ob', e, v')

  -- The orders that are dropped: a tick below 0 or not below `max_ticks`, or no free slot.
  abbrev pub IsDropped : OrderBook F.Carrier → Order F.Carrier → Type 0
  IsDropped ob order =
      ((n : ℕ) × (price_to_tick F clock order.price ≡ negsuc n))
      ⊎ ((t : ℕ) × (price_to_tick F clock order.price ≡ pos t) × (max_ticks ≤ t))
      ⊎ (free_list ob.pool ≡ [])

  full_at :
      (ob : OrderBook F.Carrier) (order : Order F.Carrier) (tick : ℤ)
      → price_to_tick F clock order.price ≡ tick
      → (ObjectPool.alloc ob.pool).0 ≡ none
      → accept_new_order F clock ob order ≡ done ob
  unfolding accept_new_order
  full_at ob order (negsuc n) p e = ground arith
  full_at ob order (pos t) p e = ground (arith, place_dropped (suc pool_capacity) ob order t e)

  -- A dropped order (a tick below 0 or not below `max_ticks`, or no free slot) leaves the order book
  -- as it was: nothing is queued, matched or reported.
  pub accept_new_order_dropped :
      (ob : OrderBook F.Carrier) (order : Order F.Carrier)
      → IsDropped ob order
      → accept_new_order F clock ob order ≡ done ob
  unfolding accept_new_order
  accept_new_order_dropped ob order (inl (n, e)) = ground arith
  accept_new_order_dropped ob order (inr (inl (t, e, high))) = ground arith
  accept_new_order_dropped ob order (inr (inr empty)) =
      full_at ob order (price_to_tick F clock order.price) refl (
        ap (λ (r : Option ℕ × List ℕ). r.0) (alloc_refines ob.pool)
        ∙ ap (λ xs. (pop_list xs).0) empty)

-- A new order book is valid.
pub new_order_book-IsValid :
    {D : Type 0} (z : D) (has_callback : Bool)
    → IsValid pool_capacity (new_order_book z has_callback)
unfolding new_order_book
new_order_book-IsValid z has_callback = record {
  owner = λ _. idle;
  bids = λ _ _. [];
  asks = λ _ _. [];
  pool = record {
    valid = init-IsValid pool_capacity;
    free_idle = λ x i. refl;
    in_slab = λ x n. absurd (n refl);
  };
  book = λ k. new_book-BookHolds (λ _. zero_order z) (λ _. idle) k;
  uncrossed = λ k. crossed-new_book;
}
