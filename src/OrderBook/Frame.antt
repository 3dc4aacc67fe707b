-- ===== src/OrderBook/Frame.antt =====
-- What the callback got before a call of `acceptNewOrder` has no part in the call.
use trading_simulation.Prelude.{
  ℕ, zero, suc, ◌≡◌, refl, sym, ap, ◌∙◌, List, [], ◌∷◌, ◌++◌, append_assoc, Option, none, some,
  Bool, true, false, arith, inl, inr, Bool-cases, Option-cases, if◌then◌else◌,
}
use trading_simulation.Prelude.Int.{ℤ, pos, negsuc, eqb_ℤ}
use trading_simulation.Double.{Double}
use trading_simulation.Order.{Order, OrderType, Execution}
use trading_simulation.ObjectPool
use trading_simulation.ObjectPool.{ObjectPool}
use trading_simulation.SymbolBook.{crossed}
use trading_simulation.OrderBook.{
  OrderBook, Matching, Outcome, done, fault, out_of_fuel, Round, stop, null_read, again, sym_key,
  settle_bid, settle_ask, report, trade, round_at, round, match_orders, entered, written_back,
  place_order, price_to_tick, pool_capacity, accept_new_order,
}

-- The same state, the callback having got `xs` before.
abbrev pub behind : {D : Type 0} → List (Execution D) → Matching D → Matching D
behind xs s = record s { emitted = xs ++ s.emitted }

abbrev pub behind_book : {D : Type 0} → List (Execution D) → OrderBook D → OrderBook D
behind_book xs ob = record ob { emitted = xs ++ ob.emitted }

abbrev pub in_outcome : {A B : Type 0} → (A → B) → Outcome A → Outcome B
in_outcome f (done a) = done (f a)
in_outcome f fault = fault
in_outcome f out_of_fuel = out_of_fuel

abbrev in_round : {A : Type 0} → (A → A) → Round A → Round A
in_round f stop = stop
in_round f null_read = null_read
in_round f (again a) = again (f a)

module _ {D : Type 0} (xs : List (Execution D)) where
  settle_bid-behind :
      (s : Matching D) (t x : ℕ) → settle_bid (behind xs s) t x ≡ behind xs (settle_bid s t x)
  unfolding settle_bid
  settle_bid-behind s t x = elim (Bool-cases (eqb_ℤ (s.memory x).quantity (pos 0))) [
    | inl e ↦ rw e refl
    | inr e ↦ rw e refl
  ]

  settle_ask-behind :
      (s : Matching D) (t x : ℕ) → settle_ask (behind xs s) t x ≡ behind xs (settle_ask s t x)
  unfolding settle_ask
  settle_ask-behind s t x = elim (Bool-cases (eqb_ℤ (s.memory x).quantity (pos 0))) [
    | inl e ↦ rw e refl
    | inr e ↦ rw e refl
  ]

module _ (F : Double) (clock : ℕ → ℤ) (has_callback : Bool) (taker : ℕ) (aggressor : OrderType)
    (xs : List (Execution F.Carrier)) where
  emitted-behind :
      {A : Type 0} (c : Bool) (ps es : List A) (e : A)
      → (if c then (ps ++ es) ++ e ∷ [] else ps ++ es) ≡ ps ++ (if c then es ++ e ∷ [] else es)
  emitted-behind true ps es e = append_assoc ps es (e ∷ [])
  emitted-behind false ps es e = refl

  report-behind :
      (s : Matching F.Carrier) (bid ask : ℕ)
      → report F clock has_callback taker aggressor (behind xs s) bid ask
        ≡ behind xs (report F clock has_callback taker aggressor s bid ask)
  unfolding report
  report-behind s bid ask =
      ap (λ es. record (report F clock has_callback taker aggressor s bid ask) { emitted = es })
        (emitted-behind has_callback xs s.emitted _)

  trade-behind :
      (s : Matching F.Carrier) (b a bid ask : ℕ)
      → trade F clock has_callback taker aggressor (behind xs s) b a bid ask
        ≡ behind xs (trade F clock has_callback taker aggressor s b a bid ask)
  unfolding trade
  trade-behind s b a bid ask =
      ap (λ t. settle_ask (settle_bid t b bid) a ask) (report-behind s bid ask)
      ∙ ap (λ t. settle_ask t a ask) (settle_bid-behind xs _ b bid)
      ∙ settle_ask-behind xs _ a ask

  round_at-behind :
      (s : Matching F.Carrier) (b a : ℕ) (bid ask : Option ℕ)
      → round_at F clock has_callback taker aggressor (behind xs s) b a bid ask
        ≡ in_round (behind xs) (round_at F clock has_callback taker aggressor s b a bid ask)
  unfolding round_at
  round_at-behind s b a none ask = refl
  round_at-behind s b a (some bid) none = refl
  round_at-behind s b a (some bid) (some ask) = ap again (trade-behind s b a bid ask)

  round-behind :
      (s : Matching F.Carrier)
      → round F clock has_callback taker aggressor (behind xs s)
        ≡ in_round (behind xs) (round F clock has_callback taker aggressor s)
  unfolding round
  round-behind s = elim (Option-cases (crossed s.book)) [
    | inl e ↦ ground (arith, e)
    | inr ((b, a), e) ↦
        ground (arith, e, round_at-behind s b a (s.book.bids b).head (s.book.asks a).head)
  ]

  abbrev carried_on :
      ℕ → Matching F.Carrier → Round (Matching F.Carrier) → Outcome (Matching F.Carrier)
  carried_on fuel s stop = done s
  carried_on fuel s null_read = fault
  carried_on fuel s (again t) = match_orders F clock has_callback taker aggressor fuel t

  match_orders-unfolds :
      (fuel : ℕ) (s : Matching F.Carrier)
      → match_orders F clock has_callback taker aggressor (suc fuel) s
        ≡ carried_on fuel s (round F clock has_callback taker aggressor s)
  unfolding match_orders
  match_orders-unfolds fuel s = elim (round F clock has_callback taker aggressor s) [
    | stop ↦ refl
    | null_read ↦ refl
    | again t ↦ refl
  ]

  carried_on-behind :
      (fuel : ℕ) (s : Matching F.Carrier)
      → ((t : Matching F.Carrier)
          → match_orders F clock has_callback taker aggressor fuel (behind xs t)
            ≡ in_outcome (behind xs) (match_orders F clock has_callback taker aggressor fuel t))
      → (r : Round (Matching F.Carrier))
      → carried_on fuel (behind xs s) (in_round (behind xs) r)
        ≡ in_outcome (behind xs) (carried_on fuel s r)
  carried_on-behind fuel s h stop = refl
  carried_on-behind fuel s h null_read = refl
  carried_on-behind fuel s h (again t) = h t

  pub match_orders-behind :
      (fuel : ℕ) (s : Matching F.Carrier)
      → match_orders F clock has_callback taker aggressor fuel (behind xs s)
        ≡ in_outcome (behind xs) (match_orders F clock has_callback taker aggressor fuel s)
  unfolding match_orders
  match_orders-behind zero s = refl
  match_orders-behind (suc fuel) s =
      match_orders-unfolds fuel (behind xs s)
      ∙ ap (carried_on fuel (behind xs s)) (round-behind s)
      ∙ carried_on-behind fuel s (match_orders-behind fuel)
          (round F clock has_callback taker aggressor s)
      ∙ ap (in_outcome (behind xs)) (sym (match_orders-unfolds fuel s))

module _ (F : Double) (clock : ℕ → ℤ) (xs : List (Execution F.Carrier)) where
  written_back-behind :
      (ob : OrderBook F.Carrier) (key : ℕ) (out : Outcome (Matching F.Carrier))
      → written_back (behind_book xs ob) key (in_outcome (behind xs) out)
        ≡ in_outcome (behind_book xs) (written_back ob key out)
  written_back-behind ob key (done s) = refl
  written_back-behind ob key fault = refl
  written_back-behind ob key out_of_fuel = refl

  entered-behind :
      (ob : OrderBook F.Carrier) (q : ObjectPool) (order : Order F.Carrier) (t o : ℕ)
      → entered (behind_book xs ob) q order t o ≡ behind xs (entered ob q order t o)
  unfolding entered
  entered-behind ob q order t o = refl

  place_order-behind :
      (fuel : ℕ) (ob : OrderBook F.Carrier) (order : Order F.Carrier) (t : ℕ)
      → place_order F clock fuel (behind_book xs ob) order t
        ≡ in_outcome (behind_book xs) (place_order F clock fuel ob order t)
  unfolding place_order
  place_order-behind fuel ob order t = elim (Option-cases (ObjectPool.alloc ob.pool).0) [
    | inl e ↦ ground (arith, e)
    | inr (o, e) ↦ ground (
      arith,
      e,
      ap
            (λ s.
              written_back (behind_book xs ob) (sym_key order.symbol)
                (match_orders F clock ob.has_callback o order.order_type fuel s))
            (entered-behind ob (ObjectPool.alloc ob.pool).1 order t o)
          ∙ ap (written_back (behind_book xs ob) (sym_key order.symbol)) (
              match_orders-behind F clock ob.has_callback o order.order_type xs fuel
                (entered ob (ObjectPool.alloc ob.pool).1 order t o))
          ∙ written_back-behind ob (sym_key order.symbol) (
              match_orders F clock ob.has_callback o order.order_type fuel
                (entered ob (ObjectPool.alloc ob.pool).1 order t o)),
    )
  ]

  accept_at-behind :
      (ob : OrderBook F.Carrier) (order : Order F.Carrier) (tick : ℤ)
      → price_to_tick F clock order.price ≡ tick
      → accept_new_order F clock (behind_book xs ob) order
        ≡ in_outcome (behind_book xs) (accept_new_order F clock ob order)
  unfolding accept_new_order
  accept_at-behind ob order (negsuc n) e = ground (arith, e)
  accept_at-behind ob order (pos t) e =
      ground (arith, e, place_order-behind (suc pool_capacity) ob order t)

  -- A call does the same whatever the callback got before, and what it reports comes behind that.
  pub accept_new_order-behind :
      (ob : OrderBook F.Carrier) (order : Order F.Carrier)
      → accept_new_order F clock (behind_book xs ob) order
        ≡ in_outcome (behind_book xs) (accept_new_order F clock ob order)
  accept_new_order-behind ob order =
      accept_at-behind ob order (price_to_tick F clock order.price) refl
