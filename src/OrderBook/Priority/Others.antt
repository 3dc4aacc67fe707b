-- ===== src/OrderBook/Priority/Others.antt =====
-- An order for one symbol leaves the books of the other symbols as they are.
use trading_simulation.Prelude.{
  ℕ, ◌≡◌, ◌≢◌, refl, sym, ap, ap₂, ◌∙◌, List, [], ◌∷◌, Option, none, some, subst, ◌∈◌,
}
use trading_simulation.Prelude.Int.{ℤ}
use trading_simulation.Double.{Double}
use trading_simulation.Order.{Order, OrderType}
use trading_simulation.PriceLevel.{Memory}
use trading_simulation.PriceLevel.Queue.{Linked, Linked-frame}
use trading_simulation.OrderBook.{
  OrderBook, done, sym_key, pool_capacity, find_or_new, accept_new_order,
}
use trading_simulation.OrderBook.Accept.{IsValid, IsApart, accept_new_order-ReturnsApart}
use trading_simulation.OrderBook.Priority.{View, Shows, unlinked, orders}
use trading_simulation.OrderBook.Priority.Levels.{orders-frame}

module _ {D : Type 0} where
  -- The links lead through one list only.
  pub Linked-unique :
      (m : Memory D) (p : Option ℕ) (xs ys : List ℕ) → Linked m p xs → Linked m p ys → xs ≡ ys
  Linked-unique m p [] [] h k = refl
  Linked-unique m p [] (y ∷ ys) h k = cc (h, k.0)
  Linked-unique m p (x ∷ xs) [] h k = cc (h.0, k)
  Linked-unique m p (x ∷ xs) (y ∷ ys) h k =
      let same : x ≡ y = ap (λ o. elim o [ none ↦ x | some z ↦ z ]) (sym h.0 ∙ k.0) in
      ap₂ ◌∷◌ same
        (Linked-unique m (m x).next xs ys h.1 (subst (λ z. Linked m (m z).next ys) (sym same) k.1))

  -- One level, where the memory of its orders is the same.
  level_kept :
      (m n : Memory D) (p : Option ℕ) (xs : List ℕ) (os : List (Order D))
      → Linked m p xs
      → ((x : ℕ) → x ∈ xs → n x ≡ m x)
      → ((ys : List ℕ) × Linked m p ys × (os ≡ orders m ys))
      → (ys : List ℕ) × Linked n p ys × (os ≡ orders n ys)
  level_kept m n p xs os l same (ys, k, e) =
      let there : xs ≡ ys = Linked-unique m p xs ys l k in
      (
        xs,
        Linked-frame m n xs p (λ x i. ap (λ (o : Order D). o.next) (same x i)) l,
        e ∙ ap (orders m) (sym there) ∙ sym (orders-frame m n xs (λ x i. ap unlinked (same x i))),
      )

  pub apart-Shows :
      {capacity : ℕ} (ob : OrderBook D) (v : IsValid capacity ob) (key : ℕ) (ob' : OrderBook D)
      → IsApart ob v key ob'
      → (k : ℕ) → k ≢ key
      → (w : View D) → Shows ob.memory (find_or_new (ob.books k)) w
      → Shows ob'.memory (find_or_new (ob'.books k)) w
  apart-Shows ob v key ob' apart k n w shows =
      let (book, kept) = apart k n in
      rw book (
        λ t.
            level_kept ob.memory ob'.memory ((find_or_new (ob.books k)).bids t).head (v.bids k t)
              (w.bids t) ((v.book k).bids.level t).linked
              (λ x i. kept OrderType.buy t x ((v.book k).bids.owned t x i)) (shows.0 t),
        λ t.
            level_kept ob.memory ob'.memory ((find_or_new (ob.books k)).asks t).head (v.asks k t)
              (w.asks t) ((v.book k).asks.level t).linked
              (λ x i. kept OrderType.sell t x ((v.book k).asks.owned t x i)) (shows.1 t),
      )

-- An order for one symbol, in a valid order book, leaves the orders that rest in the book of every
-- symbol with another key as they are: each queue has the same orders in the same sequence.
pub accept_new_order-others :
    (F : Double) (clock : ℕ → ℤ) (ob : OrderBook F.Carrier) (order : Order F.Carrier) (k : ℕ)
    (w : View F.Carrier)
    → IsValid pool_capacity ob
    → k ≢ sym_key order.symbol
    → Shows ob.memory (find_or_new (ob.books k)) w
    → (ob' : OrderBook F.Carrier) × (accept_new_order F clock ob order ≡ done ob')
      × Shows ob'.memory (find_or_new (ob'.books k)) w
accept_new_order-others F clock ob order k w v n shows =
    let (ob', e, v', apart) = accept_new_order-ReturnsApart F clock ob order v in
    (ob', e, apart-Shows ob v (sym_key order.symbol) ob' apart k n w shows)
