-- ===== src/SymbolBook/Valid.antt =====
-- A whole book: both sides, and the best ticks that `matchOrders` reads.
use trading_simulation.Prelude.{
  ℕ, ◌-◌, ◌≤◌, ◌<◌, ◌≡◌, ◌≢◌, refl, sym, ap, inl, inr, List, [], ◌∷◌, ◌++◌, true, false, arith,
  update, update_ne, Bool-cases, ◌⊎◌, some, none, ◌∈◌, subst,
}
use trading_simulation.Prelude.Int.{ℤ, pos, negsuc}
use trading_simulation.Order.{OrderType}
use trading_simulation.Bitset.{max_ticks, occupied, bit_set, bit_clear, highest_bid, lowest_ask}
use trading_simulation.Bitset.Update.{
  occupied-zero, occupied-bit_set, occupied-bit_clear, bit_clear-IsWords,
}
use trading_simulation.Bitset.Highest.{IsHighest, highest_bid-IsHighest}
use trading_simulation.Bitset.Lowest.{IsLowest, lowest_ask-IsLowest}
use trading_simulation.PriceLevel.{Memory, push, pop_front, is_empty}
use trading_simulation.PriceLevel.Queue.{is_nil}
use trading_simulation.SymbolBook.{
  SymbolBook, new_book, enter_bid, enter_ask, drop_bid, drop_ask, crossed,
}
use trading_simulation.SymbolBook.Side.{
  Place, idle, resting, SideHolds, SideHolds-frame, push-SideHolds, pop-SideHolds, push_next,
  empty-SideHolds,
}
use trading_simulation.SymbolBook.Best.{
  mark-IsHighest, mark-IsLowest, extend-IsHighest, extend-IsLowest,
}

-- The book with key `key` rests on the slots `bq t` and `aq t`, and its best ticks are the highest
-- bid and the lowest ask.
pub record BookHolds {D : Type 0} (m : Memory D) (owner : ℕ → Place) (key : ℕ) (book : SymbolBook)
    (bq aq : ℕ → List ℕ) : Type 0 where
  pub bids : SideHolds m owner key OrderType.buy book.bids book.bid_bits bq
  pub asks : SideHolds m owner key OrderType.sell book.asks book.ask_bits aq
  pub best_bid : IsHighest (occupied book.bid_bits) (max_ticks - 1) book.best_bid_tick
  pub best_ask : IsLowest (occupied book.ask_bits) 0 book.best_ask_tick

module _ {D : Type 0} {m : Memory D} {owner : ℕ → Place} {key : ℕ} {book : SymbolBook}
    {bq aq : ℕ → List ℕ} (h : BookHolds m owner key book bq aq) where
  -- What leaves the slots of this book alone leaves the book valid.
  pub BookHolds-frame :
      (n : Memory D) (owner' : ℕ → Place)
      → ((s : OrderType) (t x : ℕ)
          → owner x ≡ resting key s t
          → ((n x).next ≡ (m x).next) × (owner' x ≡ owner x))
      → BookHolds n owner' key book bq aq
  BookHolds-frame n owner' same = record {
    bids = SideHolds-frame h.bids n owner' (same OrderType.buy);
    asks = SideHolds-frame h.asks n owner' (same OrderType.sell);
    best_bid = h.best_bid;
    best_ask = h.best_ask;
  }

  -- In a valid book, a BUY on a free slot at a tick of the book goes to the end of that tick's queue;
  -- the book stays valid, its bits and its best bid included, and the other queues are unchanged.
  pub enter_bid-BookHolds :
      (t o : ℕ)
      → owner o ≡ idle
      → t < max_ticks
      → let (n, book') = enter_bid m book t o in
        BookHolds n
          (update owner o (resting key OrderType.buy t))
          key
          book'
          (update bq t (bq t ++ o ∷ []))
          aq
  unfolding enter_bid
  enter_bid-BookHolds t o free low = record {
    bids = push-SideHolds h.bids t o free low;
    asks =
        SideHolds-frame h.asks (push m (book.bids t) o).0
          (update owner o (resting key OrderType.buy t))
          (λ s x r. (
            push_next h.bids t o x free (λ e. cc) (λ e. cc (ap owner e)),
            update_ne owner o x (resting key OrderType.buy t) (λ e. cc (ap owner e)),
          ));
    best_bid =
        mark-IsHighest (occupied book.bid_bits) (occupied (bit_set book.bid_bits t)) (max_ticks - 1)
          t (occupied-bit_set book.bid_bits t) book.best_bid_tick (omega arith) h.best_bid;
    best_ask = h.best_ask;
  }

  pub enter_ask-BookHolds :
      (t o : ℕ)
      → owner o ≡ idle
      → t < max_ticks
      → let (n, book') = enter_ask m book t o in
        BookHolds n
          (update owner o (resting key OrderType.sell t))
          key
          book'
          bq
          (update aq t (aq t ++ o ∷ []))
  unfolding enter_ask
  enter_ask-BookHolds t o free low = record {
    bids =
        SideHolds-frame h.bids (push m (book.asks t) o).0
          (update owner o (resting key OrderType.sell t))
          (λ s x r. (
            push_next h.asks t o x free (λ e. cc) (λ e. cc (ap owner e)),
            update_ne owner o x (resting key OrderType.sell t) (λ e. cc (ap owner e)),
          ));
    asks = push-SideHolds h.asks t o free low;
    best_bid = h.best_bid;
    best_ask =
        mark-IsLowest (occupied book.ask_bits) (occupied (bit_set book.ask_bits t)) 0 t
          (occupied-bit_set book.ask_bits t) book.best_ask_tick (omega arith) h.best_ask;
  }

  bids_above :
      (t : ℕ)
      → book.best_bid_tick ≡ pos t
      → (t ≤ max_ticks - 1)
        × ((j : ℕ) → t < j → j ≤ max_ticks - 1 → occupied book.bid_bits j ≡ false)
  bids_above t e =
      let best = subst (IsHighest (occupied book.bid_bits) (max_ticks - 1)) e h.best_bid in
      (best.0, best.2)

  -- In a valid book, dropping the front of the queue at the best bid takes its oldest slot out; the
  -- book stays valid, with the next best bid found, and the other queues are unchanged.
  pub drop_bid-BookHolds :
      (t x : ℕ) (xs : List ℕ)
      → book.best_bid_tick ≡ pos t
      → bq t ≡ x ∷ xs
      → BookHolds m (update owner x idle) key (drop_bid m book t) (update bq t xs) aq
  unfolding drop_bid
  drop_bid-BookHolds t x xs e f = elim (Bool-cases (is_empty (pop_front m (book.bids t)).1)) [
    | inl emptied ↦
        let popped = pop-SideHolds h.bids t x xs f in
        rw emptied (record {
          bids = rw emptied at popped;
          asks = others;
          best_bid =
              let above = bids_above t e in
              extend-IsHighest (occupied (bit_clear book.bid_bits t)) t (max_ticks - 1)
                (highest_bid (bit_clear book.bid_bits t) (pos t)) above.0
                (λ j a c. ground (arith, occupied-bit_clear book.bid_bits t j, above.1 j a c))
                (highest_bid-IsHighest (bit_clear book.bid_bits t) t
                  (bit_clear-IsWords book.bid_bits t h.bids.words));
          best_ask = h.best_ask;
        })
    | inr kept ↦
        let popped = pop-SideHolds h.bids t x xs f in
        rw kept (record {
          bids = rw kept at popped;
          asks = others;
          best_bid = h.best_bid;
          best_ask = h.best_ask;
        })
  ]
    where
      others : SideHolds m (update owner x idle) key OrderType.sell book.asks book.ask_bits aq
      others = SideHolds-frame h.asks m (update owner x idle) (λ s y r. (
        refl,
        update_ne owner x y idle
            (λ d. cc (ap owner d, h.bids.owned t x (subst (λ ys. x ∈ ys) (sym f) (inl refl)))),
      ))

  asks_below :
      (t : ℕ) → book.best_ask_tick ≡ t → (j : ℕ) → 0 ≤ j → j < t → occupied book.ask_bits j ≡ false
  asks_below t e = (subst (IsLowest (occupied book.ask_bits) 0) e h.best_ask).2

  -- The oldest order at the best ask leaves, and its slot is free.
  pub drop_ask-BookHolds :
      (t x : ℕ) (xs : List ℕ)
      → book.best_ask_tick ≡ t
      → t ≤ max_ticks
      → aq t ≡ x ∷ xs
      → BookHolds m (update owner x idle) key (drop_ask m book t) bq (update aq t xs)
  unfolding drop_ask
  drop_ask-BookHolds t x xs e low f = elim (Bool-cases (is_empty (pop_front m (book.asks t)).1)) [
    | inl emptied ↦
        let popped = pop-SideHolds h.asks t x xs f in
        rw emptied (record {
          bids = others;
          asks = rw emptied at popped;
          best_bid = h.best_bid;
          best_ask =
              extend-IsLowest (occupied (bit_clear book.ask_bits t)) t 0
                (lowest_ask (bit_clear book.ask_bits t) t) (omega arith)
                (λ j a c.
                  ground (arith, occupied-bit_clear book.ask_bits t j, asks_below t e j a c))
                (lowest_ask-IsLowest (bit_clear book.ask_bits t) t
                  (bit_clear-IsWords book.ask_bits t h.asks.words) low);
        })
    | inr kept ↦
        let popped = pop-SideHolds h.asks t x xs f in
        rw kept (record {
          bids = others;
          asks = rw kept at popped;
          best_bid = h.best_bid;
          best_ask = h.best_ask;
        })
  ]
    where
      others : SideHolds m (update owner x idle) key OrderType.buy book.bids book.bid_bits bq
      others = SideHolds-frame h.bids m (update owner x idle) (λ s y r. (
        refl,
        update_ne owner x y idle
            (λ d. cc (ap owner d, h.asks.owned t x (subst (λ ys. x ∈ ys) (sym f) (inl refl)))),
      ))

-- A new book rests on nothing.
pub new_book-BookHolds :
    {D : Type 0} (m : Memory D) (owner : ℕ → Place) (key : ℕ)
    → BookHolds m owner key new_book (λ _. []) (λ _. [])
new_book-BookHolds m owner key = record {
  bids = empty-SideHolds m owner key OrderType.buy;
  asks = empty-SideHolds m owner key OrderType.sell;
  best_bid = (refl, λ j l. occupied-zero j);
  best_ask = (omega arith, inl refl, λ j l r. occupied-zero j);
}

-- What the guards of the loop let through.
abbrev pub Crossing : SymbolBook → ℕ → ℕ → Type 0
Crossing book b a =
    (book.best_bid_tick ≡ pos b) × (book.best_ask_tick ≡ a) × (a ≤ b) × (a ≢ max_ticks)

crossing_at :
    (book : SymbolBook) (best : ℤ) (b a : ℕ)
    → crossed (record book { best_bid_tick = best }) ≡ some (b, a)
    → (best ≡ pos b) × (book.best_ask_tick ≡ a) × (a ≤ b) × (a ≢ max_ticks)
unfolding crossed
crossing_at book (pos t) b a e = ground arith
crossing_at book (negsuc t) b a e = cc

pub crossed-Crossing :
    (book : SymbolBook) (b a : ℕ) → crossed book ≡ some (b, a) → Crossing book b a
crossed-Crossing book b a e = crossing_at book book.best_bid_tick b a e

module _ {D : Type 0} {m : Memory D} {owner : ℕ → Place} {key : ℕ} {book : SymbolBook}
    {bq aq : ℕ → List ℕ} (h : BookHolds m owner key book bq aq) where
  -- An order rests at the best bid, and one at the best ask, and both ticks are below `max_ticks`.
  pub best_bid_rests :
      (b : ℕ) → book.best_bid_tick ≡ pos b → (b < max_ticks) × (is_nil (bq b) ≡ false)
  best_bid_rests b e =
      let best = subst (IsHighest (occupied book.bid_bits) (max_ticks - 1)) e h.best_bid in
      (omega (arith, best.0), ground (arith, best.1, h.bids.bit b))

  pub best_ask_rests : (a : ℕ) → book.best_ask_tick ≡ a → a ≢ max_ticks → is_nil (aq a) ≡ false
  best_ask_rests a e n =
      let best = subst (IsLowest (occupied book.ask_bits) 0) e h.best_ask in found best.1
    where
      found : (a ≡ max_ticks) ⊎ (occupied book.ask_bits a ≡ true) → is_nil (aq a) ≡ false
      found (inl p) = absurd (n p)
      found (inr p) = ground (arith, p, h.asks.bit a)

pub best_ask-drop_bid :
    {D : Type 0} (m : Memory D) (book : SymbolBook) (t : ℕ)
    → (drop_bid m book t).best_ask_tick ≡ book.best_ask_tick
unfolding drop_bid
best_ask-drop_bid m book t = ground arith

module _ {D : Type 0} {m : Memory D} {owner : ℕ → Place} {key : ℕ} {book : SymbolBook}
    {bq aq : ℕ → List ℕ} (h : BookHolds m owner key book bq aq) (t o x : ℕ) (free : owner o ≡ idle)
    (apart : x ≢ o) where
  -- The entry of a free slot leaves the links of the slots that do not rest at its tick.
  pub next-enter_bid :
      owner x ≢ resting key OrderType.buy t → ((enter_bid m book t o).0 x).next ≡ (m x).next
  unfolding enter_bid
  next-enter_bid r = push_next h.bids t o x free r apart

  pub next-enter_ask :
      owner x ≢ resting key OrderType.sell t → ((enter_ask m book t o).0 x).next ≡ (m x).next
  unfolding enter_ask
  next-enter_ask r = push_next h.asks t o x free r apart

pub crossed-new_book : crossed new_book ≡ none
unfolding crossed
crossed-new_book = refl
