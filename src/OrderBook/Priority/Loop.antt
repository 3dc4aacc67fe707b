-- ===== src/OrderBook/Priority/Loop.antt =====
-- The matching loop is a run of trades by priority, until nothing crosses.
use trading_simulation.Prelude.{
  ℕ, zero, suc, ◌+◌, ◌<◌, ◌≡◌, ◌≢◌, refl, sym, ap, ◌∙◌, List, [], ◌∷◌, ◌++◌, append_assoc,
  append-nil, Bool, true, false, arith, subst, Option-cases, inl, inr, if◌then◌else◌,
}
use trading_simulation.Prelude.Int.{ℤ}
use trading_simulation.Double.{Double}
use trading_simulation.Order.{Order, OrderType, Execution}
use trading_simulation.ObjectPool.Laws.{top-le}
use trading_simulation.PriceLevel.Queue.{head_of, head-Holds}
use trading_simulation.SymbolBook.{crossed}
use trading_simulation.SymbolBook.Side.{Place}
use trading_simulation.SymbolBook.Valid.{crossed-Crossing, best_bid_rests, best_ask_rests}
use trading_simulation.OrderBook.{Matching, Outcome, done, trade, match_orders}
use trading_simulation.OrderBook.Invariant.{MatchingHolds}
use trading_simulation.OrderBook.Trade.{trade_releases}
use trading_simulation.OrderBook.Loop.{cons_of, round_stops, round_trades}
use trading_simulation.OrderBook.Priority.{
  View, Shows, orders, Trade, Trades, no_trade, a_trade, IsUncrossed,
}
use trading_simulation.OrderBook.Priority.Tops.{tops_apart}
use trading_simulation.OrderBook.Priority.Round.{
  view, view-Shows, made, fronts-Trade, emitted-trade, readings-trade, symbol-trade,
  trade-MatchingHolds,
}

-- What the callback has got.
abbrev pub told : {A : Type 0} → Bool → List A → List A → List A
told has_callback before new = if has_callback then before ++ new else before

told-nil : {A : Type 0} (c : Bool) (xs : List A) → xs ≡ told c xs []
told-nil true xs = sym (append-nil xs)
told-nil false xs = refl

told-cons :
    {A : Type 0} (c : Bool) (xs ys : List A) (x : A)
    → told c (told c xs (x ∷ [])) ys ≡ told c xs (x ∷ ys)
told-cons true xs ys x = append_assoc xs (x ∷ []) ys
told-cons false xs ys x = refl

orders_ne : {D : Type 0} (m : ℕ → Order D) (xs : List ℕ) → orders m xs ≢ [] → xs ≢ []
orders_ne m xs n e = n (ap (orders m) e)

module _ (F : Double) (clock : ℕ → ℤ) (aggressor : OrderType) where
  Trade-named :
      {symbol symbol' : List ℕ} {n : ℕ} {v w : View F.Carrier} {e : Execution F.Carrier}
      → symbol ≡ symbol'
      → Trade F clock symbol aggressor n v w e
      → Trade F clock symbol' aggressor n v w e
  Trade-named {n} {v} {w} {e} p t = subst (λ s. Trade F clock s aggressor n v w e) p t

  Trades-from :
      {symbol : List ℕ} {n m : ℕ} {v w : View F.Carrier} {es : List (Execution F.Carrier)}
      → n ≡ m
      → Trades F clock symbol aggressor n v w es
      → Trades F clock symbol aggressor m v w es
  Trades-from {symbol} {v} {w} {es} p t = subst (λ k. Trades F clock symbol aggressor k v w es) p t

module _ (F : Double) (clock : ℕ → ℤ) (has_callback : Bool) (taker : ℕ)
    (aggressor : OrderType) where
  -- The loop ends after trades that lead from the view `v` to that of its end, where nothing crosses.
  abbrev pub Plays :
      List ℕ → Matching F.Carrier → View F.Carrier → Outcome (Matching F.Carrier) → Type 0
  Plays symbol s v out =
      (t : Matching F.Carrier) × (w : View F.Carrier) × (es : List (Execution F.Carrier)) × (out
        ≡ done t)
      × Shows t.memory t.book w
      × Trades F clock symbol aggressor s.readings v w es
      × (t.emitted ≡ told has_callback s.emitted es)
      × IsUncrossed w

  pub match_orders-Plays :
      (capacity key fuel : ℕ) (s : Matching F.Carrier) (owner : ℕ → Place) (bq aq : ℕ → List ℕ)
      (symbol : List ℕ)
      → MatchingHolds capacity key s owner bq aq
      → capacity < fuel + s.pool.top
      → (s.memory taker).symbol ≡ symbol
      → Plays symbol s
          (view s.memory bq aq)
          (match_orders F clock has_callback taker aggressor fuel s)
  unfolding match_orders
  match_orders-Plays capacity key zero s owner bq aq symbol h enough named =
      absurd (omega (arith, top-le s.pool h.pool.valid))
  match_orders-Plays capacity key (suc fuel) s owner bq aq symbol h enough named =
      elim (Option-cases (crossed s.book)) [
        | inl e ↦ (
          s,
          view s.memory bq aq,
          [],
          ground (arith, round_stops F clock has_callback taker aggressor s e),
          view-Shows h.book,
          no_trade,
          told-nil has_callback s.emitted,
          λ b a p q.
              tops_apart h.book e b a (orders_ne s.memory (bq b) p) (orders_ne s.memory (aq a) q),
        )
        | inr ((b, a), e) ↦
            let c = crossed-Crossing s.book b a e in
            let (bid, xs, fb) = cons_of (bq b) (best_bid_rests h.book b c.0).1 in
            let (ask, ys, fa) = cons_of (aq a) (best_ask_rests h.book a c.1 c.3) in
            let hb =
              head-Holds s.memory (s.book.bids b) (bq b) (h.book.bids.level b) ∙ ap head_of fb in
            let ha =
              head-Holds s.memory (s.book.asks a) (aq a) (h.book.asks.level a) ∙ ap head_of fa in
            let (owner', h') =
              trade-MatchingHolds F clock has_callback taker aggressor h b a bid ask xs ys c fb
                fa in
            let more =
              trade_releases F clock has_callback taker aggressor h b a bid ask xs ys c fb fa in
            let (t, w, es, out, shows, trades, emitted, free) =
              match_orders-Plays capacity key fuel
                (trade F clock has_callback taker aggressor s b a bid ask) owner' _ _ symbol h'
                (omega arith)
                (symbol-trade F clock has_callback taker aggressor h b a bid ask xs ys c fb fa
                  ∙ named) in
            (
              t,
              w,
              made F clock has_callback taker aggressor h b a bid ask xs ys c fb fa ∷ es,
              ground (
                arith,
                round_trades F clock has_callback taker aggressor s b a bid ask e hb ha,
                out,
              ),
              shows,
              a_trade
                  (Trade-named F clock aggressor named
                    (fronts-Trade F clock has_callback taker aggressor h b a bid ask xs ys c fb fa))
                  (Trades-from F clock aggressor
                    (readings-trade F clock has_callback taker aggressor h b a bid ask xs ys c fb
                      fa)
                    trades),
              emitted
                  ∙ ap (λ l. told has_callback l es)
                      (emitted-trade F clock has_callback taker aggressor h b a bid ask xs ys c fb
                        fa)
                  ∙ told-cons has_callback s.emitted es _,
              free,
            )
      ]
