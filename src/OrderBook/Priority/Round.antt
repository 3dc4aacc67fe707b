-- ===== src/OrderBook/Priority/Round.antt =====
-- One round of the matching loop is a trade by priority.
use trading_simulation.Prelude.{
  ℕ, suc, ◌≡◌, ◌≢◌, refl, sym, ap, ◌∙◌, inr, List, [], ◌∷◌, ◌++◌, Bool, arith, subst, if◌then◌else◌,
  ◌==◌, update, ◌∈◌, not_mem_ne, IsDistinct,
}
use trading_simulation.Prelude.Int.{ℤ, pos, eqb_ℤ, min_ℤ}
use trading_simulation.Double.{Double}
use trading_simulation.Order.{Order, OrderType, Execution}
use trading_simulation.PriceLevel.{Memory}
use trading_simulation.SymbolBook.{SymbolBook}
use trading_simulation.SymbolBook.Side.{Place, resting}
use trading_simulation.SymbolBook.Valid.{BookHolds, Crossing}
use trading_simulation.OrderBook.{Matching, build_execution, exchange, report, trade}
use trading_simulation.OrderBook.Invariant.{MatchingHolds}
use trading_simulation.OrderBook.Trade.{
  bid_settled, bid_filled, ask_filled, after_ask, bid_owned, ask_owned, two_orders,
  memory-settle_bid, memory-settle_ask,
}
use trading_simulation.OrderBook.Priority.{
  View, Shows, unlinked, orders, reduced, resting_of, Trade,
}
use trading_simulation.OrderBook.Priority.Levels.{
  side_reduced, exchange_other, exchange_bid, exchange_ask, symbol-exchange, emitted-settle_bid,
  emitted-settle_ask, readings-settle_bid, readings-settle_ask,
}
use trading_simulation.OrderBook.Priority.Tops.{no_bid_above, no_ask_below}

abbrev pub view : {D : Type 0} → Memory D → (ℕ → List ℕ) → (ℕ → List ℕ) → View D
view m bq aq = record { bids = λ t. orders m (bq t); asks = λ t. orders m (aq t) }

pub view-Shows :
    {D : Type 0} {m : Memory D} {owner : ℕ → Place} {key : ℕ} {book : SymbolBook}
    {bq aq : ℕ → List ℕ}
    → BookHolds m owner key book bq aq
    → Shows m book (view m bq aq)
view-Shows {bq} {aq} h =
    (λ t. (bq t, (h.bids.level t).linked, refl), λ t. (aq t, (h.asks.level t).linked, refl))

module _ (F : Double) (clock : ℕ → ℤ) (has_callback : Bool) (taker : ℕ) (aggressor : OrderType)
    {capacity key : ℕ} {s : Matching F.Carrier} {owner : ℕ → Place} {bq aq : ℕ → List ℕ}
    (h : MatchingHolds capacity key s owner bq aq) (b a bid ask : ℕ) (xs ys : List ℕ)
    (c : Crossing s.book b a) (fb : bq b ≡ bid ∷ xs) (fa : aq a ≡ ask ∷ ys) where
  abbrev pub qty : ℤ
  qty = min_ℤ (s.memory ask).quantity (s.memory bid).quantity

  abbrev pub after : Matching F.Carrier
  after = trade F clock has_callback taker aggressor s b a bid ask

  abbrev half : Matching F.Carrier
  half = bid_settled F clock has_callback taker aggressor h b a bid ask xs ys c fb fa

  memory-half : half.memory ≡ exchange s.memory bid ask qty
  unfolding report
  memory-half = memory-settle_bid (report F clock has_callback taker aggressor s bid ask) b bid

  pub memory-trade : after.memory ≡ exchange s.memory bid ask qty
  unfolding trade report
  memory-trade = memory-settle_ask half a ask ∙ memory-half

  abbrev pub trade_bids : ℕ → List ℕ
  trade_bids =
      if bid_filled F clock has_callback taker aggressor h b a bid ask xs ys c fb fa
      then update bq b xs
      else bq

  abbrev pub trade_asks : ℕ → List ℕ
  trade_asks =
      if ask_filled F clock has_callback taker aggressor h b a bid ask xs ys c fb fa
      then update aq a ys
      else aq

  apart : ask ≢ bid
  apart = two_orders F clock has_callback taker aggressor h b a bid ask xs ys c fb fa

  -- The slots other than the two keep their orders.
  kept :
      (x : ℕ)
      → x ≢ bid
      → x ≢ ask
      → unlinked (exchange s.memory bid ask qty x) ≡ unlinked (s.memory x)
  kept x p q = ap unlinked (exchange_other s.memory bid ask x qty p q)

  bid_at : owner bid ≡ resting key OrderType.buy b
  bid_at = bid_owned F clock has_callback taker aggressor h b a bid ask xs ys c fb fa

  ask_at : owner ask ≡ resting key OrderType.sell a
  ask_at = ask_owned F clock has_callback taker aggressor h b a bid ask xs ys c fb fa

  bids-IsDistinct : IsDistinct (bid ∷ xs)
  bids-IsDistinct = subst IsDistinct fb (h.book.bids.level b).distinct

  asks-IsDistinct : IsDistinct (ask ∷ ys)
  asks-IsDistinct = subst IsDistinct fa (h.book.asks.level a).distinct

  bid_ne_bid : (t x : ℕ) → t ≢ b → x ∈ bq t → x ≢ bid
  bid_ne_bid t x n i e = n (ground (arith, ap owner e, bid_at, h.book.bids.owned t x i))

  bid_ne_ask : (t x : ℕ) → x ∈ bq t → x ≢ ask
  bid_ne_ask t x i e = cc (ap owner e, ask_at, h.book.bids.owned t x i)

  ask_ne_bid : (t x : ℕ) → x ∈ aq t → x ≢ bid
  ask_ne_bid t x i e = cc (ap owner e, bid_at, h.book.asks.owned t x i)

  ask_ne_ask : (t x : ℕ) → t ≢ a → x ∈ aq t → x ≢ ask
  ask_ne_ask t x n i e = n (ground (arith, ap owner e, ask_at, h.book.asks.owned t x i))

  bids_reduced :
      (t : ℕ)
      → orders (exchange s.memory bid ask qty) (trade_bids t)
        ≡ (if t == b then reduced qty (orders s.memory (bq t)) else orders s.memory (bq t))
  unfolding report
  bids_reduced =
      side_reduced s.memory (exchange s.memory bid ask qty) bq b bid xs qty _ fb
        (ap (λ (o : Order F.Carrier). eqb_ℤ o.quantity (pos 0))
          (exchange_bid s.memory bid ask qty apart))
        (ap unlinked (exchange_bid s.memory bid ask qty apart))
        (λ x i.
          kept x (λ e. not_mem_ne xs bid x bids-IsDistinct.0 i (sym e))
            (bid_ne_ask b x (subst (λ zs. x ∈ zs) (sym fb) (inr i))))
        (λ t x n i. kept x (bid_ne_bid t x n i) (bid_ne_ask t x i))

  asks_reduced :
      (t : ℕ)
      → orders (exchange s.memory bid ask qty) (trade_asks t)
        ≡ (if t == a then reduced qty (orders s.memory (aq t)) else orders s.memory (aq t))
  unfolding report
  asks_reduced =
      side_reduced s.memory (exchange s.memory bid ask qty) aq a ask ys qty _ fa
        (ap (λ (m : Memory F.Carrier). eqb_ℤ (m ask).quantity (pos 0)) memory-half
          ∙ ap (λ (o : Order F.Carrier). eqb_ℤ o.quantity (pos 0))
              (exchange_ask s.memory bid ask qty apart))
        (ap unlinked (exchange_ask s.memory bid ask qty apart))
        (λ x i.
          kept x (ask_ne_bid a x (subst (λ zs. x ∈ zs) (sym fa) (inr i)))
            (λ e. not_mem_ne ys ask x asks-IsDistinct.0 i (sym e)))
        (λ t x n i. kept x (ask_ne_bid t x i) (ask_ne_ask t x n i))

  abbrev pub made : Execution F.Carrier
  made =
      build_execution F clock qty (s.memory ask) (s.memory bid) (s.memory taker).symbol aggressor
        s.readings

  price_of :
      (side : OrderType)
      → (build_execution F clock qty
          (s.memory ask)
          (s.memory bid)
          (s.memory taker).symbol
          side
          s.readings).trade_price
        ≡ (resting_of side (unlinked (s.memory bid)) (unlinked (s.memory ask))).price
  unfolding build_execution
  price_of OrderType.buy = refl
  price_of OrderType.sell = refl

  -- The round, on what the levels show.
  pub fronts-Trade :
      Trade F clock
        (s.memory taker).symbol
        aggressor
        s.readings
        (view s.memory bq aq)
        (view after.memory trade_bids trade_asks)
        made
  unfolding build_execution
  fronts-Trade = record {
    bid_tick = b;
    ask_tick = a;
    buyer = unlinked (s.memory bid);
    seller = unlinked (s.memory ask);
    buyers = orders s.memory xs;
    sellers = orders s.memory ys;
    meet = c.2;
    oldest_bid = ap (orders s.memory) fb;
    oldest_ask = ap (orders s.memory) fa;
    highest = λ t l. ap (orders s.memory) (no_bid_above h.book b t c.0 l);
    lowest = λ t l. ap (orders s.memory) (no_ask_below h.book a t c.1 l);
    execution = refl;
    price = price_of aggressor;
    traded = refl;
    bids_left = λ t. ap (λ m. orders m (trade_bids t)) memory-trade ∙ bids_reduced t;
    asks_left = λ t. ap (λ m. orders m (trade_asks t)) memory-trade ∙ asks_reduced t;
  }

  pub emitted-trade : after.emitted ≡ (if has_callback then s.emitted ++ made ∷ [] else s.emitted)
  unfolding trade report
  emitted-trade =
      emitted-settle_ask half a ask
      ∙ emitted-settle_bid (report F clock has_callback taker aggressor s bid ask) b bid

  pub readings-trade : after.readings ≡ suc s.readings
  unfolding trade report
  readings-trade =
      readings-settle_ask half a ask
      ∙ readings-settle_bid (report F clock has_callback taker aggressor s bid ask) b bid
      ∙ omega arith

  pub symbol-trade : (after.memory taker).symbol ≡ (s.memory taker).symbol
  symbol-trade =
      ap (λ (m : Memory F.Carrier). (m taker).symbol) memory-trade
      ∙ symbol-exchange s.memory bid ask taker qty

  pub trade-MatchingHolds :
      (owner' : ℕ → Place) × MatchingHolds capacity key after owner' trade_bids trade_asks
  unfolding trade report
  trade-MatchingHolds =
      (_, after_ask F clock has_callback taker aggressor h b a bid ask xs ys c fb fa)
