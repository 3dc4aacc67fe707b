-- ===== src/OrderBook/Priority/Levels.antt =====
-- The queues of orders when two of them lose a quantity.
use trading_simulation.Prelude.{
  ℕ, ◌≡◌, ◌≢◌, refl, sym, ap₂, inl, inr, List, [], ◌∷◌, Bool, if◌then◌else◌, ◌==◌, ==_refl, ==_ne,
  update, ◌∈◌, ℕ-cases, arith, true, false,
}
use trading_simulation.Prelude.Int.{ℤ, pos, ◌-ℤ◌, eqb_ℤ}
use trading_simulation.PriceLevel.{Memory}
use trading_simulation.OrderBook.{Matching, exchange, settle_bid, settle_ask}
use trading_simulation.OrderBook.Priority.{unlinked, orders, reduced}

module _ {D : Type 0} where
  pub orders-frame :
      (m n : Memory D) (xs : List ℕ)
      → ((x : ℕ) → x ∈ xs → unlinked (n x) ≡ unlinked (m x))
      → orders n xs ≡ orders m xs
  orders-frame m n [] h = refl
  orders-frame m n (x ∷ xs) h = ap₂ ◌∷◌ (h x (inl refl)) (orders-frame m n xs (λ y i. h y (inr i)))

  pub exchange_other :
      (m : Memory D) (bid ask x : ℕ) (qty : ℤ) → x ≢ bid → x ≢ ask → exchange m bid ask qty x ≡ m x
  unfolding exchange
  exchange_other m bid ask x qty p q = ground arith

  pub exchange_bid :
      (m : Memory D) (bid ask : ℕ) (qty : ℤ)
      → ask ≢ bid
      → exchange m bid ask qty bid ≡ record (m bid) { quantity = (m bid).quantity -ℤ qty }
  unfolding exchange
  exchange_bid m bid ask qty p = ground arith

  pub exchange_ask :
      (m : Memory D) (bid ask : ℕ) (qty : ℤ)
      → ask ≢ bid
      → exchange m bid ask qty ask ≡ record (m ask) { quantity = (m ask).quantity -ℤ qty }
  unfolding exchange
  exchange_ask m bid ask qty p = ground arith

  pub symbol-exchange :
      (m : Memory D) (bid ask x : ℕ) (qty : ℤ) → (exchange m bid ask qty x).symbol ≡ (m x).symbol
  unfolding exchange
  symbol-exchange m bid ask x qty = ground arith

  pub emitted-settle_bid : (s : Matching D) (b x : ℕ) → (settle_bid s b x).emitted ≡ s.emitted
  unfolding settle_bid
  emitted-settle_bid s b x = ground arith

  pub emitted-settle_ask : (s : Matching D) (a x : ℕ) → (settle_ask s a x).emitted ≡ s.emitted
  unfolding settle_ask
  emitted-settle_ask s a x = ground arith

  pub readings-settle_bid : (s : Matching D) (b x : ℕ) → (settle_bid s b x).readings ≡ s.readings
  unfolding settle_bid
  readings-settle_bid s b x = ground arith

  pub readings-settle_ask : (s : Matching D) (a x : ℕ) → (settle_ask s a x).readings ≡ s.readings
  unfolding settle_ask
  readings-settle_ask s a x = ground arith

  -- A level whose oldest order loses a quantity, and the others.
  pub side_reduced :
      (m n : Memory D) (q : ℕ → List ℕ) (b o : ℕ) (xs : List ℕ) (qty : ℤ) (filled : Bool)
      → q b ≡ o ∷ xs
      → filled ≡ eqb_ℤ ((m o).quantity -ℤ qty) (pos 0)
      → unlinked (n o) ≡ unlinked (record (m o) { quantity = (m o).quantity -ℤ qty })
      → ((x : ℕ) → x ∈ xs → unlinked (n x) ≡ unlinked (m x))
      → ((t x : ℕ) → t ≢ b → x ∈ q t → unlinked (n x) ≡ unlinked (m x))
      → (t : ℕ)
      → orders n ((if filled then update q b xs else q) t)
        ≡ (if t == b then reduced qty (orders m (q t)) else orders m (q t))
  side_reduced m n q b o xs qty true f e paid behind others t = elim (ℕ-cases t b) [
    | inl same ↦ rw (same, ==_refl b, f, sym e) (orders-frame m n xs behind)
    | inr apart ↦ rw (==_ne t b apart) (orders-frame m n (q t) (λ x i. others t x apart i))
  ]
  side_reduced m n q b o xs qty false f e paid behind others t = elim (ℕ-cases t b) [
    | inl same ↦ rw (same, ==_refl b, f, sym e) (ap₂ ◌∷◌ paid (orders-frame m n xs behind))
    | inr apart ↦ rw (==_ne t b apart) (orders-frame m n (q t) (λ x i. others t x apart i))
  ]
