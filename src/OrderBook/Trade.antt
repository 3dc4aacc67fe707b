-- ===== src/OrderBook/Trade.antt =====
-- One round of the matching loop keeps the book valid and gives a slot back.
use trading_simulation.Prelude.{
  ℕ, ◌+◌, ◌≤◌, ◌<◌, ◌≡◌, ◌≢◌, refl, sym, ap, ◌∙◌, inl, inr, List, ◌∷◌, Bool, true, false, arith,
  update, update_ne, Bool-cases, if◌then◌else◌, ◌∈◌, ◌⊎◌, subst,
}
use trading_simulation.Prelude.Int.{ℤ, pos, ◌-ℤ◌, eqb_ℤ, min_ℤ}
use trading_simulation.Double.{Double}
use trading_simulation.Order.{OrderType}
use trading_simulation.ObjectPool.Laws.{top-release}
use trading_simulation.PriceLevel.{Memory}
use trading_simulation.Bitset.{max_ticks}
use trading_simulation.SymbolBook.Valid.{best_ask-drop_bid}
use trading_simulation.SymbolBook.Side.{Place, idle, resting}
use trading_simulation.SymbolBook.Valid.{BookHolds-frame, Crossing, best_bid_rests}
use trading_simulation.OrderBook.{Matching, settle_bid, settle_ask, exchange, report, trade}
use trading_simulation.OrderBook.Invariant.{
  MatchingHolds, settle_bid-MatchingHolds, settle_ask-MatchingHolds,
}

-- What the loop has done to a valid state when it is at `t`: the state is valid again, for some
-- account of the slots that agrees with the old one about the other books.
pub record Follows {D : Type 0} (capacity key : ℕ) (s : Matching D) (owner : ℕ → Place)
    (t : Matching D) : Type 0 where
  pub owner' : ℕ → Place
  pub bids' : ℕ → List ℕ
  pub asks' : ℕ → List ℕ
  pub holds : MatchingHolds capacity key t owner' bids' asks'
  pub others :
      (k : ℕ) (side : OrderType) (tick x : ℕ)
      → k ≢ key
      → owner x ≡ resting k side tick
      → owner' x ≡ owner x
  pub links : (x : ℕ) → (t.memory x).next ≡ (s.memory x).next
  pub apart :
      (k : ℕ) (side : OrderType) (tick x : ℕ)
      → k ≢ key
      → owner x ≡ resting k side tick
      → t.memory x ≡ s.memory x

-- After the subtraction of the smaller quantity one of the two is zero.
min_settles :
    (a b : ℤ) → (eqb_ℤ (b -ℤ min_ℤ a b) (pos 0) ≡ true) ⊎ (eqb_ℤ (a -ℤ min_ℤ a b) (pos 0) ≡ true)
unfolding ◌-ℤ◌
min_settles a b = elim (Bool-cases (eqb_ℤ (b -ℤ min_ℤ a b) (pos 0))) [
  | inl e ↦ inl e
  | inr e ↦ inr (ground arith)
]

-- Freeing one slot of a book leaves the account of the other books.
freed_other :
    (owner : ℕ → Place) (z : Bool) (o key k : ℕ) (side s : OrderType) (tick t x : ℕ)
    → owner o ≡ resting key side tick
    → k ≢ key
    → owner x ≡ resting k s t
    → (if z then update owner o idle else owner) x ≡ owner x
freed_other owner true o key k side s tick t x e n r =
    update_ne owner o x idle (λ d. n (ground (arith, ap owner d, e, r)))
freed_other owner false o key k side s tick t x e n r = refl

module _ {D : Type 0} where
  pub memory-settle_bid : (s : Matching D) (b x : ℕ) → (settle_bid s b x).memory ≡ s.memory
  unfolding settle_bid
  memory-settle_bid s b x = ground arith

  pub memory-settle_ask : (s : Matching D) (a x : ℕ) → (settle_ask s a x).memory ≡ s.memory
  unfolding settle_ask
  memory-settle_ask s a x = ground arith

  best_ask-settle_bid :
      (s : Matching D) (b x : ℕ) → (settle_bid s b x).book.best_ask_tick ≡ s.book.best_ask_tick
  unfolding settle_bid
  best_ask-settle_bid s b x = ground (arith, best_ask-drop_bid s.memory s.book b)

  top-settle_bid :
      (s : Matching D) (b x : ℕ)
      → (settle_bid s b x).pool.top
        ≡ (if eqb_ℤ (s.memory x).quantity (pos 0) then s.pool.top + 1 else s.pool.top)
  unfolding settle_bid
  top-settle_bid s b x = ground (arith, top-release s.pool x)

  top-settle_ask :
      (s : Matching D) (a x : ℕ)
      → (settle_ask s a x).pool.top
        ≡ (if eqb_ℤ (s.memory x).quantity (pos 0) then s.pool.top + 1 else s.pool.top)
  unfolding settle_ask
  top-settle_ask s a x = ground (arith, top-release s.pool x)

  next-exchange :
      (m : Memory D) (bid ask x : ℕ) (qty : ℤ) → (exchange m bid ask qty x).next ≡ (m x).next
  unfolding exchange
  next-exchange m bid ask x qty = ground arith

  exchange_apart :
      (m : Memory D) (bid ask x : ℕ) (qty : ℤ) → x ≢ bid → x ≢ ask → exchange m bid ask qty x ≡ m x
  unfolding exchange
  exchange_apart m bid ask x qty p q = ground arith

  quantity-exchange_ask :
      (m : Memory D) (bid ask : ℕ) (qty : ℤ)
      → ask ≢ bid
      → (exchange m bid ask qty ask).quantity ≡ (m ask).quantity -ℤ qty
  unfolding exchange
  quantity-exchange_ask m bid ask qty n = ground arith

  quantity-exchange_bid :
      (m : Memory D) (bid ask : ℕ) (qty : ℤ)
      → ask ≢ bid
      → (exchange m bid ask qty bid).quantity ≡ (m bid).quantity -ℤ qty
  unfolding exchange
  quantity-exchange_bid m bid ask qty n = ground arith

module _ (F : Double) (clock : ℕ → ℤ) (has_callback : Bool) (taker : ℕ) (aggressor : OrderType)
    {capacity key : ℕ} {s : Matching F.Carrier} {owner : ℕ → Place} {bq aq : ℕ → List ℕ}
    (h : MatchingHolds capacity key s owner bq aq) where
  report-MatchingHolds :
      (bid ask : ℕ)
      → MatchingHolds capacity key
          (report F clock has_callback taker aggressor s bid ask)
          owner
          bq
          aq
  unfolding report
  report-MatchingHolds bid ask = record {
    book =
        BookHolds-frame h.book (exchange s.memory bid ask _) owner
          (λ side t x r. (next-exchange s.memory bid ask x _, refl));
    pool = h.pool;
  }

  module _ (b a bid ask : ℕ) (xs ys : List ℕ) (c : Crossing s.book b a) (fb : bq b ≡ bid ∷ xs)
      (fa : aq a ≡ ask ∷ ys) where
    abbrev pub reported : Matching F.Carrier
    reported = report F clock has_callback taker aggressor s bid ask

    abbrev pub bid_settled : Matching F.Carrier
    bid_settled = settle_bid reported b bid

    abbrev pub bid_filled : Bool
    bid_filled = eqb_ℤ (reported.memory bid).quantity (pos 0)

    abbrev pub ask_filled : Bool
    ask_filled = eqb_ℤ (bid_settled.memory ask).quantity (pos 0)

    pub bid_owned : owner bid ≡ resting key OrderType.buy b
    bid_owned = h.book.bids.owned b bid (subst (λ zs. bid ∈ zs) (sym fb) (inl refl))

    pub ask_owned : owner ask ≡ resting key OrderType.sell a
    ask_owned = h.book.asks.owned a ask (subst (λ zs. ask ∈ zs) (sym fa) (inl refl))

    pub two_orders : ask ≢ bid
    two_orders e = cc (ap owner e, bid_owned, ask_owned)

    some_filled : (bid_filled ≡ true) ⊎ (ask_filled ≡ true)
    unfolding report
    some_filled =
        let m = s.memory in
        let qty = min_ℤ (m ask).quantity (m bid).quantity in
        rw
          (
            memory-settle_bid reported b bid,
            quantity-exchange_bid m bid ask qty two_orders,
            quantity-exchange_ask m bid ask qty two_orders,
          )
          (min_settles (m ask).quantity (m bid).quantity)

    after_bid :
        MatchingHolds capacity key bid_settled
          (if bid_filled then update owner bid idle else owner)
          (if bid_filled then update bq b xs else bq)
          aq
    unfolding report
    after_bid = settle_bid-MatchingHolds (report-MatchingHolds bid ask) b bid xs c.0 fb

    low : a ≤ max_ticks
    low = omega (arith, c.2, (best_bid_rests h.book b c.0).0)

    pub after_ask :
        MatchingHolds capacity key
          (settle_ask bid_settled a ask)
          (if ask_filled
            then update (if bid_filled then update owner bid idle else owner) ask idle
            else if bid_filled
            then update owner bid idle
            else owner)
          (if bid_filled then update bq b xs else bq)
          (if ask_filled then update aq a ys else aq)
    unfolding report
    after_ask =
        settle_ask-MatchingHolds after_bid a ask ys (best_ask-settle_bid reported b bid ∙ c.1) low
          fa

    -- A round leaves a valid state.
    pub trade-Follows :
        Follows capacity key s owner (trade F clock has_callback taker aggressor s b a bid ask)
    unfolding trade report
    trade-Follows = record {
      owner' = _;
      bids' = _;
      asks' = _;
      holds = after_ask;
      others = others;
      links = λ x. links x;
      apart = λ k side tick x n r. apart k side tick x n r;
    }
      where
        owner_between : ℕ → Place
        owner_between = if bid_filled then update owner bid idle else owner

        ask_still : owner_between ask ≡ resting key OrderType.sell a
        ask_still = after_bid.book.asks.owned a ask (subst (λ zs. ask ∈ zs) (sym fa) (inl refl))

        others :
            (k : ℕ) (side : OrderType) (tick x : ℕ)
            → k ≢ key
            → owner x ≡ resting k side tick
            → (if ask_filled then update owner_between ask idle else owner_between) x ≡ owner x
        others k side tick x n r =
            let first : owner_between x ≡ owner x =
              freed_other owner bid_filled bid key k OrderType.buy side b tick x bid_owned n r in
            freed_other owner_between ask_filled ask key k OrderType.sell side a tick x ask_still n
              (first ∙ r)
            ∙ first

        links : (x : ℕ) → ((settle_ask bid_settled a ask).memory x).next ≡ (s.memory x).next
        links x =
            rw (memory-settle_ask bid_settled a ask, memory-settle_bid reported b bid)
              (next-exchange s.memory bid ask x _)

        apart :
            (k : ℕ) (side : OrderType) (tick x : ℕ)
            → k ≢ key
            → owner x ≡ resting k side tick
            → (settle_ask bid_settled a ask).memory x ≡ s.memory x
        apart k side tick x n r =
            rw (memory-settle_ask bid_settled a ask, memory-settle_bid reported b bid)
              (exchange_apart s.memory bid ask x _
                (λ e. n (ground (arith, ap owner e, bid_owned, r)))
                (λ e. n (ground (arith, ap owner e, ask_owned, r))))

    -- A round gives at least one slot back.
    pub trade_releases :
        s.pool.top < (trade F clock has_callback taker aggressor s b a bid ask).pool.top
    unfolding trade report
    trade_releases =
        ground (arith, top-settle_bid reported b bid, top-settle_ask bid_settled a ask, some_filled)
