-- ===== src/OrderBook/Priority/Tops.antt =====
-- The best ticks of a valid book, on its queues.
use trading_simulation.Prelude.{
  ℕ, ◌-◌, ◌<◌, ◌≤◌, ◌≡◌, ◌≢◌, refl, inl, inr, ◌⊎◌, List, [], ◌∷◌, none, arith, true, false,
  lt-cases,
}
use trading_simulation.Prelude.Int.{ℤ, pos, negsuc}
use trading_simulation.Bitset.{max_ticks, occupied}
use trading_simulation.Bitset.Highest.{IsHighest}
use trading_simulation.PriceLevel.{Memory}
use trading_simulation.PriceLevel.Queue.{is_nil}
use trading_simulation.SymbolBook.{SymbolBook, crossed}
use trading_simulation.SymbolBook.Side.{Place}
use trading_simulation.SymbolBook.Valid.{BookHolds}

nil_of : (xs : List ℕ) → is_nil xs ≡ true → xs ≡ []
nil_of [] e = refl
nil_of (x ∷ xs) e = cc

pub nil_cases : (xs : List ℕ) → (xs ≡ []) ⊎ (xs ≢ [])
nil_cases [] = inl refl
nil_cases (x ∷ xs) = inr (λ e. cc)

module _ {D : Type 0} {m : Memory D} {owner : ℕ → Place} {key : ℕ} {book : SymbolBook}
    {bq aq : ℕ → List ℕ} (h : BookHolds m owner key book bq aq) where
  bid_gone : (t : ℕ) → occupied book.bid_bits t ≡ false → bq t ≡ []
  bid_gone t e = nil_of (bq t) (ground (arith, h.bids.bit t))

  ask_gone : (t : ℕ) → occupied book.ask_bits t ≡ false → aq t ≡ []
  ask_gone t e = nil_of (aq t) (ground (arith, h.asks.bit t))

  highest_at :
      (r : ℤ) (t : ℕ)
      → IsHighest (occupied book.bid_bits) (max_ticks - 1) r
      → bq t ≢ []
      → (b : ℕ) × (r ≡ pos b) × (t ≤ b)
  highest_at (negsuc k) t best n = elim (lt-cases t max_ticks) [
    | inl l ↦ absurd (n (bid_gone t (best.1 t (omega arith))))
    | inr g ↦ absurd (n (h.bids.inside t (omega arith)))
  ]
  highest_at (pos b) t best n = elim (lt-cases b t) [
    | inl up ↦ elim (lt-cases t max_ticks) [
      | inl l ↦ absurd (n (bid_gone t (best.2 t up (omega arith))))
      | inr g ↦ absurd (n (h.bids.inside t (omega arith)))
    ]
    | inr low ↦ (b, refl, omega arith)
  ]

  -- No order rests above the best bid.
  pub best_bid_top : (t : ℕ) → bq t ≢ [] → (b : ℕ) × (book.best_bid_tick ≡ pos b) × (t ≤ b)
  best_bid_top t n = highest_at book.best_bid_tick t h.best_bid n

  -- No order rests below the best ask.
  pub best_ask_top : (t : ℕ) → aq t ≢ [] → (book.best_ask_tick ≤ t) × (t < max_ticks)
  best_ask_top t n = elim (lt-cases t max_ticks) [
    | inr g ↦ absurd (n (h.asks.inside t (omega arith)))
    | inl l ↦ elim (lt-cases t book.best_ask_tick) [
      | inl below ↦ absurd (n (ask_gone t (h.best_ask.2 t (omega arith) below)))
      | inr up ↦ (omega arith, l)
    ]
  ]

  pub no_bid_above : (b t : ℕ) → book.best_bid_tick ≡ pos b → b < t → bq t ≡ []
  no_bid_above b t e l = elim (nil_cases (bq t)) [
    | inl none_there ↦ none_there
    | inr n ↦ let (c, f, m) = best_bid_top t n in absurd (ground (arith, e, f, l, m))
  ]

  pub no_ask_below : (a t : ℕ) → book.best_ask_tick ≡ a → t < a → aq t ≡ []
  no_ask_below a t e l = elim (nil_cases (aq t)) [
    | inl none_there ↦ none_there
    | inr n ↦ let (m, k) = best_ask_top t n in absurd (omega (arith, e, l, m))
  ]

crossed_at :
    (book : SymbolBook) (best : ℤ) (b t a : ℕ)
    → crossed (record book { best_bid_tick = best }) ≡ none
    → best ≡ pos b
    → t ≤ b
    → book.best_ask_tick ≤ a
    → a < max_ticks
    → t < a
unfolding crossed
crossed_at book (pos c) b t a e f l m n = ground arith
crossed_at book (negsuc c) b t a e f l m n = cc

-- Where the loop stops, every bid is below every ask.
pub tops_apart :
    {D : Type 0} {m : Memory D} {owner : ℕ → Place} {key : ℕ} {book : SymbolBook}
    {bq aq : ℕ → List ℕ}
    → BookHolds m owner key book bq aq
    → crossed book ≡ none
    → (t a : ℕ) → bq t ≢ []
    → aq a ≢ []
    → t < a
tops_apart {book} h e t a p q =
    let (b, f, l) = best_bid_top h t p in
    let (m, n) = best_ask_top h a q in crossed_at book book.best_bid_tick b t a e f l m n
