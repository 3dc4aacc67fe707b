-- ===== src/OrderBook/Priority/Entry.antt =====
-- The entry of an order, on what the levels show.
use trading_simulation.Prelude.{
  ℕ, ◌<◌, ◌≡◌, ◌≢◌, refl, sym, ap, ap₂, ◌∙◌, List, [], ◌∷◌, ◌++◌, none, some, inl, inr, subst,
  update, update_self, update_ne, ◌∈◌, ℕ-cases, ==_refl, ==_ne,
}
use trading_simulation.Order.{Order, OrderType}
use trading_simulation.ObjectPool.{ObjectPool}
use trading_simulation.ObjectPool.Laws.{Allocates}
use trading_simulation.Bitset.{max_ticks}
use trading_simulation.PriceLevel.{Memory}
use trading_simulation.PriceLevel.Queue.{push-IsRelinked}
use trading_simulation.SymbolBook.{enter_bid, enter_ask}
use trading_simulation.SymbolBook.Side.{idle, resting}
use trading_simulation.SymbolBook.Valid.{
  BookHolds, BookHolds-frame, enter_bid-BookHolds, enter_ask-BookHolds,
}
use trading_simulation.OrderBook.{OrderBook, Matching, sym_key, find_or_new, enter, entered}
use trading_simulation.OrderBook.Invariant.{MatchingHolds}
use trading_simulation.OrderBook.Accept.{IsValid, rest-PoolHolds}
use trading_simulation.OrderBook.Priority.{Entered, orders, unlinked}
use trading_simulation.OrderBook.Priority.Levels.{orders-frame}
use trading_simulation.OrderBook.Priority.Round.{view}

orders-append :
    {D : Type 0} (m : Memory D) (xs ys : List ℕ) → orders m (xs ++ ys) ≡ orders m xs ++ orders m ys
orders-append m [] ys = refl
orders-append m (x ∷ xs) ys = ap (λ os. unlinked (m x) ∷ os) (orders-append m xs ys)

module _ {D : Type 0} (capacity : ℕ) (ob : OrderBook D) (v : IsValid capacity ob) (order : Order D)
    (t o : ℕ) (q : ObjectPool) (low : t < max_ticks)
    (got : Allocates capacity ob.pool (some o, q)) where
  abbrev key : ℕ
  key = sym_key order.symbol

  abbrev placed : Memory D
  placed = update ob.memory o (record order { next = none })

  free : v.owner o ≡ idle
  free = v.pool.free_idle o (subst (λ xs. o ∈ xs) (sym got.0) (inl refl))

  used_ne : (k : ℕ) (s : OrderType) (tick x : ℕ) → v.owner x ≡ resting k s tick → x ≢ o
  used_ne k s tick x r e = cc (ap v.owner e, free)

  placed_other : (x : ℕ) → x ≢ o → placed x ≡ ob.memory x
  placed_other x n = update_ne ob.memory o x _ n

  book_placed : BookHolds placed v.owner key (find_or_new (ob.books key)) (v.bids key) (v.asks key)
  book_placed =
      BookHolds-frame (v.book key) placed v.owner (λ s tick x r.
        (ap (λ (p : Order D). p.next) (placed_other x (used_ne key s tick x r)), refl))

  -- The start of the loop, by the side of the order.
  abbrev pub started : OrderType → Matching D
  started side =
      let (m, book) = enter side placed (find_or_new (ob.books key)) t o in
      record { memory = m; pool = q; book = book; emitted = ob.emitted; readings = ob.readings }

  pub entered-started : entered ob q order t o ≡ started order.order_type
  unfolding entered
  entered-started = rw (==_refl o)

  abbrev pub start_bids : OrderType → ℕ → List ℕ
  start_bids OrderType.buy = update (v.bids key) t (v.bids key t ++ o ∷ [])
  start_bids OrderType.sell = v.bids key

  abbrev pub start_asks : OrderType → ℕ → List ℕ
  start_asks OrderType.buy = v.asks key
  start_asks OrderType.sell = update (v.asks key) t (v.asks key t ++ o ∷ [])

  pub started-MatchingHolds :
      (side : OrderType)
      → MatchingHolds capacity key
          (started side)
          (update v.owner o (resting key side t))
          (start_bids side)
          (start_asks side)
  unfolding enter
  started-MatchingHolds OrderType.buy = record {
    book = enter_bid-BookHolds book_placed t o free low;
    pool = rest-PoolHolds capacity ob.pool q v.owner o (resting key OrderType.buy t) v.pool got;
  }
  started-MatchingHolds OrderType.sell = record {
    book = enter_ask-BookHolds book_placed t o free low;
    pool = rest-PoolHolds capacity ob.pool q v.owner o (resting key OrderType.sell t) v.pool got;
  }

  -- The entry writes links only.
  relinked : (side : OrderType) (x : ℕ) → unlinked ((started side).memory x) ≡ unlinked (placed x)
  unfolding enter enter_bid enter_ask
  relinked OrderType.buy x =
      ap unlinked (push-IsRelinked placed ((find_or_new (ob.books key)).bids t) o x)
  relinked OrderType.sell x =
      ap unlinked (push-IsRelinked placed ((find_or_new (ob.books key)).asks t) o x)

  own : (side : OrderType) → unlinked ((started side).memory o) ≡ unlinked order
  own side = relinked side o ∙ ap unlinked (update_self ob.memory o _)

  pub symbol-started : (side : OrderType) → ((started side).memory o).symbol ≡ order.symbol
  symbol-started side = ap (λ (p : Order D). p.symbol) (own side)

  kept :
      (side s : OrderType) (tick : ℕ) (xs : List ℕ)
      → ((x : ℕ) → x ∈ xs → v.owner x ≡ resting key s tick)
      → orders (started side).memory xs ≡ orders ob.memory xs
  kept side s tick xs owned =
      orders-frame ob.memory (started side).memory xs
        (λ x i. relinked side x ∙ ap unlinked (placed_other x (used_ne key s tick x (owned x i))))

  -- The level that the order joins.
  joined :
      (side s : OrderType) (xs : List ℕ)
      → ((x : ℕ) → x ∈ xs → v.owner x ≡ resting key s t)
      → orders (started side).memory (xs ++ o ∷ []) ≡ orders ob.memory xs ++ unlinked order ∷ []
  joined side s xs owned =
      orders-append (started side).memory xs (o ∷ [])
      ∙ ap₂ ◌++◌ (kept side s t xs owned) (ap (λ p. p ∷ []) (own side))

  pub started-Entered :
      (side : OrderType)
      → Entered side
          (unlinked order)
          t
          (view ob.memory (v.bids key) (v.asks key))
          (view (started side).memory (start_bids side) (start_asks side))
  started-Entered OrderType.buy = (
    λ k. elim (ℕ-cases k t) [
      | inl same ↦
          rw (same, ==_refl t)
            (joined OrderType.buy OrderType.buy (v.bids key t) ((v.book key).bids.owned t))
      | inr apart ↦
          rw (==_ne k t apart)
            (kept OrderType.buy OrderType.buy k (v.bids key k) ((v.book key).bids.owned k))
    ],
    λ k. kept OrderType.buy OrderType.sell k (v.asks key k) ((v.book key).asks.owned k),
  )
  started-Entered OrderType.sell = (
    λ k. kept OrderType.sell OrderType.buy k (v.bids key k) ((v.book key).bids.owned k),
    λ k. elim (ℕ-cases k t) [
      | inl same ↦
          rw (same, ==_refl t)
            (joined OrderType.sell OrderType.sell (v.asks key t) ((v.book key).asks.owned t))
      | inr apart ↦
          rw (==_ne k t apart)
            (kept OrderType.sell OrderType.sell k (v.asks key k) ((v.book key).asks.owned k))
    ],
  )
