-- ===== src/OrderBook/Priority/Bounds.antt =====
-- Orders whose quantities are in range keep the arithmetic of `acceptNewOrder` in range.
use trading_simulation.Prelude.{
  ℕ, ◌≡◌, ◌≢◌, ◌<◌, refl, sym, ap, ◌∙◌, List, [], ◌∷◌, inl, inr, subst, All, All-append, Bool, true,
  false, ℕ-cases, ◌⊎◌, lt-cases,
}
use trading_simulation.Prelude.Int.{ℤ, pos, negsuc}
use trading_simulation.Double.{Double}
use trading_simulation.Order.{Order, Execution, zero_order}
use trading_simulation.ObjectPool.Laws.{free_list}
use trading_simulation.Bitset.{max_ticks}
use trading_simulation.PriceLevel.{Memory}
use trading_simulation.SymbolBook.{SymbolBook, new_book}
use trading_simulation.SymbolBook.Side.{idle}
use trading_simulation.SymbolBook.Valid.{new_book-BookHolds}
use trading_simulation.OrderBook.{
  OrderBook, Outcome, done, fault, out_of_fuel, sym_key, pool_capacity, find_or_new,
  accept_new_order, new_order_book, price_to_tick,
}
use trading_simulation.OrderBook.Accept.{
  IsValid, IsDropped, accept_new_order-ReturnsApart, accept_new_order_dropped,
  new_order_book-IsValid,
}
use trading_simulation.OrderBook.Serial.{each, followed}
use trading_simulation.OrderBook.Priority.{View, Shows, unlinked, orders}
use trading_simulation.OrderBook.Priority.Round.{view-Shows}
use trading_simulation.OrderBook.Priority.Loop.{told}
use trading_simulation.OrderBook.Priority.Accept.{Obeys, accept_new_order-Obeys}
use trading_simulation.OrderBook.Priority.Others.{Linked-unique, apart-Shows}
use trading_simulation.OrderBook.Priority.Sized.{
  OrderIsSized, IsSized, IsTraded, Entered-IsSized, Trades-IsSized,
}

module _ {D : Type 0} where
  side_unique :
      (m : Memory D) (book : SymbolBook) (v w : View D)
      → Shows m book v
      → Shows m book w
      → ((t : ℕ) → w.bids t ≡ v.bids t) × ((t : ℕ) → w.asks t ≡ v.asks t)
  side_unique m book v w s r = (
    λ t.
        let (xs, k, e) = s.0 t in
        let (ys, l, f) = r.0 t in
        f ∙ ap (orders m) (Linked-unique m (book.bids t).head ys xs l k) ∙ sym e,
    λ t.
        let (xs, k, e) = s.1 t in
        let (ys, l, f) = r.1 t in
        f ∙ ap (orders m) (Linked-unique m (book.asks t).head ys xs l k) ∙ sym e,
  )

  -- A book shows one view only.
  pub shown-IsSized :
      (m : Memory D) (book : SymbolBook) (v w : View D)
      → Shows m book v
      → Shows m book w
      → IsSized v
      → IsSized w
  shown-IsSized m book v w s r h =
      let (bids, asks) = side_unique m book v w s r in
      (
        λ t. subst (All OrderIsSized) (sym (bids t)) (h.0 t),
        λ t. subst (All OrderIsSized) (sym (asks t)) (h.1 t),
      )

  -- Every order that rests in the order book has a quantity in range.
  abbrev pub BooksAreSized : OrderBook D → Type 0
  BooksAreSized ob = (k : ℕ) (w : View D) → Shows ob.memory (find_or_new (ob.books k)) w → IsSized w

nil_or_not : (xs : List ℕ) → (xs ≡ []) ⊎ (xs ≢ [])
nil_or_not [] = inl refl
nil_or_not (x ∷ xs) = inr (λ e. cc e)

-- The order is dropped, or queued in a free slot.
how_handled :
    (F : Double) (clock : ℕ → ℤ) (ob : OrderBook F.Carrier) (order : Order F.Carrier) (tick : ℤ)
    → price_to_tick F clock order.price ≡ tick
    → IsDropped F clock ob order
      ⊎ ((t : ℕ) × (price_to_tick F clock order.price ≡ pos t)
          × (t < max_ticks)
          × (free_list ob.pool ≢ []))
how_handled F clock ob order (negsuc n) e = inl (inl (n, e))
how_handled F clock ob order (pos t) e = elim (lt-cases t max_ticks) [
  | inr high ↦ inl (inr (inl (t, e, high)))
  | inl low ↦ elim (nil_or_not (free_list ob.pool)) [
    | inl full ↦ inl (inr (inr full))
    | inr room ↦ inr (t, e, low, room)
  ]
]

module _ (F : Double) (clock : ℕ → ℤ) where
  told-All :
      (P : Execution F.Carrier → Type 0) (c : Bool) (xs ys : List (Execution F.Carrier))
      → All P xs
      → All P ys
      → All P (told c xs ys)
  told-All P true xs ys h k = All-append P xs ys h k
  told-All P false xs ys h k = h

  -- An order book with every quantity in range, and the executions that it reported.
  pub record InRange (ob : OrderBook F.Carrier) : Type 0 where
    pub valid : IsValid pool_capacity ob
    pub books : BooksAreSized ob
    pub reported : All (IsTraded F) ob.emitted

  -- The book that an order was queued in, and what was reported.
  abbrev PlacedInRange : ℕ → OrderBook F.Carrier → Type 0
  PlacedInRange key ob' =
      ((w : View F.Carrier) → Shows ob'.memory (find_or_new (ob'.books key)) w → IsSized w)
      × All (IsTraded F) ob'.emitted

  result_of : OrderBook F.Carrier → Outcome (OrderBook F.Carrier) → OrderBook F.Carrier
  result_of ob (done ob') = ob'
  result_of ob fault = ob
  result_of ob out_of_fuel = ob

  placed_in_range :
      (ob ob' : OrderBook F.Carrier) (order : Order F.Carrier) (t : ℕ)
      → OrderIsSized order
      → InRange ob
      → Obeys F clock ob order t (done ob')
      → PlacedInRange (sym_key order.symbol) ob'
  unfolding result_of
  placed_in_range ob ob' order t k h
        (ob'', v, u, w, es, e, shows, enters, trades, end, emitted, free) =
      let key = sym_key order.symbol in
      let entered =
        Entered-IsSized order.order_type (unlinked order) t v u k enters (h.books key v shows) in
      let (sized, traded) = Trades-IsSized F clock order.symbol order.order_type trades entered in
      subst (PlacedInRange key) (sym (ap (result_of ob') e)) (
        (λ w' shows'.
            shown-IsSized ob''.memory (find_or_new (ob''.books key)) w w' end shows' sized),
        subst (All (IsTraded F)) (sym emitted)
            (told-All (IsTraded F) ob.has_callback ob.emitted es h.reported traded),
      )

  abbrev ReturnsInRange : Outcome (OrderBook F.Carrier) → Type 0
  ReturnsInRange out = (ob' : OrderBook F.Carrier) × (out ≡ done ob') × InRange ob'

  -- A call with an order whose quantity is from 1 to 2 ^ 31 - 1 keeps every resting quantity there, and
  -- every execution that it reports has such a quantity.
  pub accept_new_order-InRange :
      (ob : OrderBook F.Carrier) (order : Order F.Carrier)
      → InRange ob
      → OrderIsSized order
      → ReturnsInRange (accept_new_order F clock ob order)
  accept_new_order-InRange ob order h k =
      elim (how_handled F clock ob order (price_to_tick F clock order.price) refl) [
        | inl dropped ↦ (ob, accept_new_order_dropped F clock ob order dropped, h)
        | inr (t, at, low, room) ↦
            let (ob', e, v', apart) = accept_new_order-ReturnsApart F clock ob order h.valid in
            let (placed, told) = placed_in_range ob ob' order t k h (
              subst (Obeys F clock ob order t) e
                (accept_new_order-Obeys F clock ob order t h.valid at low room)) in
            (
              ob',
              e,
              record {
                valid = v';
                books = λ key. elim (ℕ-cases key (sym_key order.symbol)) [
                  | inl same ↦
                      subst
                        (λ c.
                          (w : View F.Carrier)
                          → Shows ob'.memory (find_or_new (ob'.books c)) w
                          → IsSized w)
                        (sym same) placed
                  | inr other ↦ λ w shows.
                      shown-IsSized ob'.memory (find_or_new (ob'.books key)) _ w
                        (apart-Shows ob h.valid (sym_key order.symbol) ob' apart key other _
                          (view-Shows (h.valid.book key)))
                        shows (h.books key _ (view-Shows (h.valid.book key)))
                ];
                reported = told;
              },
            )
      ]

  pub each-InRange :
      (ob : OrderBook F.Carrier) (orders : List (Order F.Carrier))
      → InRange ob
      → All OrderIsSized orders
      → ReturnsInRange (each (accept_new_order F clock) ob orders)
  each-InRange ob [] h k = (ob, refl, h)
  each-InRange ob (order ∷ orders) h k =
      let (ob', e, h') = accept_new_order-InRange ob order h k.0 in
      let (ob'', f, h'') = each-InRange ob' orders h' k.1 in
      (ob'', ap (λ out. followed out (λ b. each (accept_new_order F clock) b orders)) e ∙ f, h'')

  pub new_order_book-InRange :
      (z : F.Carrier) (has_callback : Bool) → InRange (new_order_book z has_callback)
  unfolding new_order_book
  new_order_book-InRange z has_callback = record {
    valid = new_order_book-IsValid z has_callback;
    books = λ k w shows.
        shown-IsSized (λ _. zero_order z) new_book _ w
          (view-Shows (new_book-BookHolds (λ _. zero_order z) (λ _. idle) k)) shows
          (λ t. tt, λ t. tt);
    reported = tt;
  }
