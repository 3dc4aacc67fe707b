-- ===== src/OrderBook/Loop.antt =====
-- The matching loop ends, meets no null pointer and leaves a valid book that does not cross.
use trading_simulation.Prelude.{
  ℕ, zero, suc, ◌+◌, ◌<◌, ◌≡◌, refl, ap, ◌∙◌, List, [], ◌∷◌, none, some, Bool, false, arith,
  Option-cases, inl, inr,
}
use trading_simulation.Prelude.Int.{ℤ}
use trading_simulation.Double.{Double}
use trading_simulation.Order.{OrderType}
use trading_simulation.ObjectPool.Laws.{top-le}
use trading_simulation.PriceLevel.Queue.{is_nil, head_of, head-Holds}
use trading_simulation.SymbolBook.{crossed}
use trading_simulation.SymbolBook.Side.{Place}
use trading_simulation.SymbolBook.Valid.{crossed-Crossing, best_bid_rests, best_ask_rests}
use trading_simulation.OrderBook.{
  Matching, Outcome, done, Round, again, stop, trade, round_at, round, match_orders,
}
use trading_simulation.OrderBook.Invariant.{MatchingHolds}
use trading_simulation.OrderBook.Trade.{Follows, trade-Follows, trade_releases}

pub cons_of : (xs : List ℕ) → is_nil xs ≡ false → (x : ℕ) × (ys : List ℕ) × (xs ≡ x ∷ ys)
cons_of [] e = cc
cons_of (x ∷ ys) e = (x, ys, refl)

module _ {D : Type 0} {capacity key : ℕ} where
  Follows-refl :
      {s : Matching D} {owner : ℕ → Place} {bq aq : ℕ → List ℕ}
      → MatchingHolds capacity key s owner bq aq
      → Follows capacity key s owner s
  Follows-refl {s} {owner} {bq} {aq} h = record {
    owner' = owner;
    bids' = bq;
    asks' = aq;
    holds = h;
    others = λ k side tick x n r. refl;
    links = λ x. refl;
    apart = λ k side tick x n r. refl;
  }

  Follows-trans :
      {s t u : Matching D} {owner : ℕ → Place}
      → (f : Follows capacity key s owner t) → Follows capacity key t f.owner' u
      → Follows capacity key s owner u
  Follows-trans f g = record {
    owner' = g.owner';
    bids' = g.bids';
    asks' = g.asks';
    holds = g.holds;
    others = λ k side tick x n r.
        g.others k side tick x n (f.others k side tick x n r ∙ r) ∙ f.others k side tick x n r;
    links = λ x. g.links x ∙ f.links x;
    apart = λ k side tick x n r.
        g.apart k side tick x n (f.others k side tick x n r ∙ r) ∙ f.apart k side tick x n r;
  }

-- The loop returns, in a state that follows from `s` and in which nothing crosses.
abbrev pub Ends :
    {D : Type 0} (capacity key : ℕ) → Matching D → (ℕ → Place) → Outcome (Matching D) → Type 0
Ends {D} capacity key s owner out =
    (t : Matching D) × (out ≡ done t) × Follows capacity key s owner t × (crossed t.book ≡ none)

module _ (F : Double) (clock : ℕ → ℤ) (has_callback : Bool) (taker : ℕ)
    (aggressor : OrderType) where
  abbrev pub next_round : Matching F.Carrier → Round (Matching F.Carrier)
  next_round = round F clock has_callback taker aggressor

  abbrev pub traded : Matching F.Carrier → ℕ → ℕ → ℕ → ℕ → Matching F.Carrier
  traded = trade F clock has_callback taker aggressor

  pub round_stops : (s : Matching F.Carrier) → crossed s.book ≡ none → next_round s ≡ stop
  unfolding round
  round_stops s e = ground arith

  pub round_trades :
      (s : Matching F.Carrier) (b a bid ask : ℕ)
      → crossed s.book ≡ some (b, a)
      → (s.book.bids b).head ≡ some bid
      → (s.book.asks a).head ≡ some ask
      → next_round s ≡ again (traded s b a bid ask)
  unfolding round round_at
  round_trades s b a bid ask e p q = ground arith

  -- From a valid state, with more rounds than slots in use, `matchOrders` returns without reading
  -- through a null pointer; the state is valid again, the best ticks do not cross, every order
  -- keeps its link, and the orders of the other books stay where and as they are.
  pub match_orders-Ends :
      (capacity key fuel : ℕ) (s : Matching F.Carrier) (owner : ℕ → Place) (bq aq : ℕ → List ℕ)
      → MatchingHolds capacity key s owner bq aq
      → capacity < fuel + s.pool.top
      → Ends capacity key s owner (match_orders F clock has_callback taker aggressor fuel s)
  unfolding match_orders
  match_orders-Ends capacity key zero s owner bq aq h enough =
      absurd (omega (arith, top-le s.pool h.pool.valid))
  match_orders-Ends capacity key (suc fuel) s owner bq aq h enough =
      elim (Option-cases (crossed s.book)) [
        | inl e ↦ (s, ground (arith, round_stops s e), Follows-refl h, e)
        | inr ((b, a), e) ↦
            let c = crossed-Crossing s.book b a e in
            let (bid, xs, fb) = cons_of (bq b) (best_bid_rests h.book b c.0).1 in
            let (ask, ys, fa) = cons_of (aq a) (best_ask_rests h.book a c.1 c.3) in
            let hb =
              head-Holds s.memory (s.book.bids b) (bq b) (h.book.bids.level b) ∙ ap head_of fb in
            let ha =
              head-Holds s.memory (s.book.asks a) (aq a) (h.book.asks.level a) ∙ ap head_of fa in
            let f =
              trade-Follows F clock has_callback taker aggressor h b a bid ask xs ys c fb fa in
            let more =
              trade_releases F clock has_callback taker aggressor h b a bid ask xs ys c fb fa in
            let (t, out, g, free) =
              match_orders-Ends capacity key fuel (traded s b a bid ask) f.owner' f.bids' f.asks'
                f.holds (omega arith) in
            (t, ground (arith, round_trades s b a bid ask e hb ha, out), Follows-trans f g, free)
      ]
