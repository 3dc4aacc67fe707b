-- ===== src/OrderBook/Priority/Best.antt =====
-- What `bestBid` and `bestAsk` return.
use trading_simulation.Prelude.{
  ℕ, ◌-◌, ◌<◌, ◌≡◌, ◌≢◌, refl, ap, List, [], ◌∷◌, arith, ◌⊎◌, inl, inr, subst, ◌==◌, if◌then◌else◌,
  Option-cases, ℕ-cases,
}
use trading_simulation.Prelude.Int.{ℤ, pos, negsuc, eqb_ℤ}
use trading_simulation.Double.{Double}
use trading_simulation.Bitset.{max_ticks, occupied}
use trading_simulation.Bitset.Highest.{IsHighest}
use trading_simulation.PriceLevel.{Memory}
use trading_simulation.SymbolBook.{SymbolBook}
use trading_simulation.SymbolBook.Side.{Place}
use trading_simulation.SymbolBook.Valid.{BookHolds, best_bid_rests, best_ask_rests}
use trading_simulation.OrderBook.{
  OrderBook, find_or_new, string_key, best_bid, best_ask, tick_to_price, pool_capacity,
}
use trading_simulation.OrderBook.Accept.{IsValid}
use trading_simulation.OrderBook.Loop.{cons_of}
use trading_simulation.OrderBook.Priority.{View, Shows, orders}
use trading_simulation.OrderBook.Priority.Round.{view, view-Shows}
use trading_simulation.OrderBook.Priority.Tops.{
  best_bid_top, best_ask_top, no_bid_above, no_ask_below, nil_cases,
}

module _ (F : Double) (clock : ℕ → ℤ) where
  open F use {Carrier as D, decimal}

  -- The price of the highest tick with a bid, or 0 where there is none.
  abbrev pub IsBestBid : View D → D → Type 0
  IsBestBid v price =
      ((price ≡ decimal 0 0) × ((t : ℕ) → v.bids t ≡ []))
      ⊎ ((b : ℕ) × (price ≡ tick_to_price F clock (pos b))
          × (v.bids b ≢ [])
          × ((t : ℕ) → b < t → v.bids t ≡ []))

  abbrev pub IsBestAsk : View D → D → Type 0
  IsBestAsk v price =
      ((price ≡ decimal 0 0) × ((t : ℕ) → v.asks t ≡ []))
      ⊎ ((a : ℕ) × (price ≡ tick_to_price F clock (pos a))
          × (v.asks a ≢ [])
          × ((t : ℕ) → t < a → v.asks t ≡ []))

  abbrev bid_quote : ℤ → D
  bid_quote best = if eqb_ℤ best (negsuc 0) then decimal 0 0 else tick_to_price F clock best

  abbrev ask_quote : ℕ → D
  ask_quote best = if best == max_ticks then decimal 0 0 else tick_to_price F clock (pos best)

  best_bid_quote :
      (ob : OrderBook D) (symbol : List ℕ)
      → best_bid F clock ob symbol
        ≡ bid_quote (find_or_new (ob.books (string_key F clock symbol))).best_bid_tick
  unfolding best_bid
  best_bid_quote ob symbol = elim (Option-cases (ob.books (string_key F clock symbol))) [
    | inl e ↦ ground (arith, e)
    | inr (book, e) ↦ ground (arith, e)
  ]

  best_ask_quote :
      (ob : OrderBook D) (symbol : List ℕ)
      → best_ask F clock ob symbol
        ≡ ask_quote (find_or_new (ob.books (string_key F clock symbol))).best_ask_tick
  unfolding best_ask
  best_ask_quote ob symbol = elim (Option-cases (ob.books (string_key F clock symbol))) [
    | inl e ↦ ground (arith, e)
    | inr (book, e) ↦ ground (arith, e)
  ]

  module _ {m : Memory D} {owner : ℕ → Place} {key : ℕ} {book : SymbolBook} {bq aq : ℕ → List ℕ}
      (h : BookHolds m owner key book bq aq) where
    orders_cons : (xs : List ℕ) (x : ℕ) (ys : List ℕ) → xs ≡ x ∷ ys → orders m xs ≢ []
    orders_cons xs x ys e f = cc (ap (orders m) e)

    no_bids : (best : ℤ) (k : ℕ) → book.best_bid_tick ≡ best → best ≡ negsuc k → (t : ℕ) → bq t ≡ []
    no_bids best k e f t = elim (nil_cases (bq t)) [
      | inl gone ↦ gone
      | inr n ↦ let (b, g, l) = best_bid_top h t n in cc
    ]

    bid_quote-IsBestBid :
        (best : ℤ) → book.best_bid_tick ≡ best → IsBestBid (view m bq aq) (bid_quote best)
    bid_quote-IsBestBid (pos b) e =
        let (x, xs, f) = cons_of (bq b) (best_bid_rests h b e).1 in
        inr (
          b,
          ground arith,
          orders_cons (bq b) x xs f,
          λ t l. ap (orders m) (no_bid_above h b t e l),
        )
    bid_quote-IsBestBid (negsuc k) e =
        let first = (subst (IsHighest (occupied book.bid_bits) (max_ticks - 1)) e h.best_bid).0 in
        inl (ground (arith, first), λ t. ap (orders m) (no_bids (negsuc k) k e refl t))

    ask_quote-IsBestAsk : IsBestAsk (view m bq aq) (ask_quote book.best_ask_tick)
    ask_quote-IsBestAsk = elim (ℕ-cases book.best_ask_tick max_ticks) [
      | inl e ↦ inl (ap ask_quote e, λ t. ap (orders m) (no_ask_at e t))
      | inr n ↦
          let (x, xs, f) =
            cons_of (aq book.best_ask_tick) (best_ask_rests h book.best_ask_tick refl n) in
          inr (
            book.best_ask_tick,
            ground (arith, n),
            orders_cons (aq book.best_ask_tick) x xs f,
            λ t l. ap (orders m) (no_ask_below h book.best_ask_tick t refl l),
          )
    ]
      where
        no_ask_at : book.best_ask_tick ≡ max_ticks → (t : ℕ) → aq t ≡ []
        no_ask_at e t = elim (nil_cases (aq t)) [
          | inl gone ↦ gone
          | inr n ↦ let (l, k) = best_ask_top h t n in absurd (omega (arith, e, l, k))
        ]

  -- In a valid order book `bestBid` returns the price of the highest tick at which a bid of the symbol
  -- rests and `bestAsk` that of the lowest tick at which an ask rests, and each returns 0 where none rests.
  pub best_prices_lem :
      (ob : OrderBook D) (symbol : List ℕ)
      → IsValid pool_capacity ob
      → (v : View D) × Shows ob.memory (find_or_new (ob.books (string_key F clock symbol))) v
        × IsBestBid v (best_bid F clock ob symbol)
        × IsBestAsk v (best_ask F clock ob symbol)
  best_prices_lem ob symbol v =
      let h = v.book (string_key F clock symbol) in
      (
        _,
        view-Shows h,
        rw (best_bid_quote ob symbol) (bid_quote-IsBestBid h _ refl),
        rw (best_ask_quote ob symbol) (ask_quote-IsBestAsk h),
      )
