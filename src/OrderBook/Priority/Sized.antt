-- ===== src/OrderBook/Priority/Sized.antt =====
-- The quantities of the orders that rest and of the executions, when those of the orders are in range.
use trading_simulation.Prelude.{
  ℕ, ◌≡◌, ◌≤◌, refl, sym, ap, ◌∙◌, List, [], ◌∷◌, ◌++◌, inl, inr, subst, All, All-append,
  Bool-cases, ℕ-cases, ==_refl, ==_ne, if◌then◌else◌, ◌==◌,
}
use trading_simulation.Prelude.Int.{ℤ, pos, pos_part, ◌-ℤ◌, eqb_ℤ, min_ℤ}
use trading_simulation.Double.{Double}
use trading_simulation.Order.{Order, OrderType, Execution}
use trading_simulation.OrderBook.Quantity.{
  IsQuantity, min_ℤ-IsQuantity, left-IsQuantity, min_ℤ-le_left, min_ℤ-le_right,
}
use trading_simulation.OrderBook.Priority.{View, reduced, Trade, Trades, no_trade, a_trade, Entered}

abbrev pub OrderIsSized : {D : Type 0} → Order D → Type 0
OrderIsSized o = IsQuantity o.quantity

-- Every order of the two sides.
abbrev pub IsSized : {D : Type 0} → View D → Type 0
IsSized v = ((t : ℕ) → All OrderIsSized (v.bids t)) × ((t : ℕ) → All OrderIsSized (v.asks t))

-- The quantity of an execution is such an integer, as a `double`.
abbrev pub IsTraded : (F : Double) → Execution F.Carrier → Type 0
IsTraded F e = (q : ℤ) × IsQuantity q × (e.quantity ≡ F.of_int q)

module _ {D : Type 0} where
  reduced-sized :
      (q : ℤ) (o : Order D) (os : List (Order D))
      → IsQuantity q
      → pos_part q ≤ pos_part o.quantity
      → All OrderIsSized (o ∷ os)
      → All OrderIsSized (reduced q (o ∷ os))
  reduced-sized q o os k l h = elim (Bool-cases (eqb_ℤ (o.quantity -ℤ q) (pos 0))) [
    | inl e ↦ rw e h.1
    | inr e ↦ rw e (left-IsQuantity o.quantity q h.0 k l e, h.1)
  ]

  -- A side where the queue at one tick is reduced.
  side-sized :
      (v w : ℕ → List (Order D)) (tick : ℕ) (q : ℤ) (o : Order D) (os : List (Order D))
      → v tick ≡ o ∷ os
      → IsQuantity q
      → pos_part q ≤ pos_part o.quantity
      → ((t : ℕ) → w t ≡ (if t == tick then reduced q (v t) else v t))
      → ((t : ℕ) → All OrderIsSized (v t))
      → (t : ℕ) → All OrderIsSized (w t)
  side-sized v w tick q o os front k l left h t = elim (ℕ-cases t tick) [
    | inl e ↦
        subst (All OrderIsSized) (sym (left t ∙ rw (e, ==_refl tick) (ap (reduced q) front)))
          (reduced-sized q o os k l (subst (All OrderIsSized) front (h tick)))
    | inr n ↦ subst (All OrderIsSized) (sym (left t ∙ rw (==_ne t tick n) refl)) (h t)
  ]

  side_joined :
      (v w : ℕ → List (Order D)) (tick : ℕ) (o : Order D)
      → OrderIsSized o
      → ((t : ℕ) → w t ≡ (if t == tick then v t ++ o ∷ [] else v t))
      → ((t : ℕ) → All OrderIsSized (v t))
      → (t : ℕ) → All OrderIsSized (w t)
  side_joined v w tick o k joined h t = elim (ℕ-cases t tick) [
    | inl e ↦
        subst (All OrderIsSized) (sym (joined t ∙ rw (e, ==_refl tick) refl))
          (All-append OrderIsSized (v tick) (o ∷ []) (h tick) (k, tt))
    | inr n ↦ subst (All OrderIsSized) (sym (joined t ∙ rw (==_ne t tick n) refl)) (h t)
  ]

  same_side :
      (v w : ℕ → List (Order D))
      → ((t : ℕ) → w t ≡ v t)
      → ((t : ℕ) → All OrderIsSized (v t))
      → (t : ℕ) → All OrderIsSized (w t)
  same_side v w same h t = subst (All OrderIsSized) (sym (same t)) (h t)

  pub Entered-IsSized :
      (side : OrderType) (o : Order D) (tick : ℕ) (v w : View D)
      → OrderIsSized o
      → Entered side o tick v w
      → IsSized v
      → IsSized w
  Entered-IsSized OrderType.buy o tick v w k e h =
      (side_joined v.bids w.bids tick o k e.0 h.0, same_side v.asks w.asks e.1 h.1)
  Entered-IsSized OrderType.sell o tick v w k e h =
      (same_side v.bids w.bids e.0 h.0, side_joined v.asks w.asks tick o k e.1 h.1)

module _ (F : Double) (clock : ℕ → ℤ) (symbol : List ℕ) (aggressor : OrderType) where
  Trade-IsSized :
      {n : ℕ} {v w : View F.Carrier} {e : Execution F.Carrier}
      → Trade F clock symbol aggressor n v w e
      → IsSized v
      → IsSized w × IsTraded F e
  Trade-IsSized {n} {v} {w} {e} t h =
      let buyer : OrderIsSized t.buyer =
        (subst (All OrderIsSized) t.oldest_bid (h.0 t.bid_tick)).0 in
      let seller : OrderIsSized t.seller =
        (subst (All OrderIsSized) t.oldest_ask (h.1 t.ask_tick)).0 in
      let q = min_ℤ t.seller.quantity t.buyer.quantity in
      let fine : IsQuantity q = min_ℤ-IsQuantity t.seller.quantity t.buyer.quantity seller buyer in
      (
        (
          side-sized v.bids w.bids t.bid_tick q t.buyer t.buyers t.oldest_bid fine
              (min_ℤ-le_right t.seller.quantity t.buyer.quantity seller buyer) t.bids_left h.0,
          side-sized v.asks w.asks t.ask_tick q t.seller t.sellers t.oldest_ask fine
              (min_ℤ-le_left t.seller.quantity t.buyer.quantity seller buyer) t.asks_left h.1,
        ),
        (q, fine, t.traded),
      )

  pub Trades-IsSized :
      {n : ℕ} {v w : View F.Carrier} {es : List (Execution F.Carrier)}
      → Trades F clock symbol aggressor n v w es
      → IsSized v
      → IsSized w × All (IsTraded F) es
  Trades-IsSized no_trade h = (h, tt)
  Trades-IsSized (a_trade t ts) h =
      let (between, traded) = Trade-IsSized t h in
      let (end, more) = Trades-IsSized ts between in (end, (traded, more))
