-- ===== src/OrderBook/Start.antt =====
-- What a valid order book is, and what the entry of an order leaves of it.
use trading_simulation.Prelude.{
  ℕ, ◌<◌, ◌≡◌, ◌≢◌, refl, sym, ap, ◌∙◌, List, none, some, arith, inl, inr, subst, update, update_ne,
  ◌∈◌, ℕ-cases, ◌==◌, ==_refl, ==_ne, if◌then◌else◌, not_mem_ne,
}
use trading_simulation.Order.{Order, OrderType}
use trading_simulation.ObjectPool.{ObjectPool}
use trading_simulation.ObjectPool.Laws.{free_list, Allocates}
use trading_simulation.Bitset.{max_ticks}
use trading_simulation.PriceLevel.{Memory, push}
use trading_simulation.PriceLevel.Queue.{push-IsRelinked}
use trading_simulation.SymbolBook.{SymbolBook, crossed, enter_bid, enter_ask}
use trading_simulation.SymbolBook.Side.{Place, idle, resting}
use trading_simulation.SymbolBook.Valid.{
  BookHolds, BookHolds-frame, enter_bid-BookHolds, enter_ask-BookHolds, next-enter_bid,
  next-enter_ask,
}
use trading_simulation.OrderBook.{
  OrderBook, Matching, Outcome, done, sym_key, find_or_new, enter, entered,
}
use trading_simulation.OrderBook.Invariant.{PoolHolds, MatchingHolds}
use trading_simulation.OrderBook.Trade.{Follows}

-- Every book is valid and does not cross, every slot of the pool is free or rests in one level of
-- one book, and the account of the slots says where.
pub record IsValid {D : Type 0} (capacity : ℕ) (ob : OrderBook D) : Type 0 where
  pub owner : ℕ → Place
  pub bids : ℕ → ℕ → List ℕ
  pub asks : ℕ → ℕ → List ℕ
  pub pool : PoolHolds capacity ob.pool owner
  pub book : (k : ℕ) → BookHolds ob.memory owner k (find_or_new (ob.books k)) (bids k) (asks k)
  pub uncrossed : (k : ℕ) → crossed (find_or_new (ob.books k)) ≡ none

-- The books under the other keys, and the orders that rest in them, are the same.
abbrev pub IsApart :
    {D : Type 0} {capacity : ℕ} (ob : OrderBook D) → IsValid capacity ob → ℕ → OrderBook D → Type 0
IsApart ob v key ob' =
    (k : ℕ)
    → k ≢ key
    → (ob'.books k ≡ ob.books k)
      × ((side : OrderType) (tick x : ℕ)
          → v.owner x ≡ resting k side tick
          → ob'.memory x ≡ ob.memory x)

-- A call that returns, in a valid state.
abbrev pub Returns : {D : Type 0} → ℕ → Outcome (OrderBook D) → Type 0
Returns {D} capacity out = (ob' : OrderBook D) × (out ≡ done ob') × IsValid capacity ob'

abbrev pub ReturnsApart :
    {D : Type 0} (capacity : ℕ) (ob : OrderBook D)
    → IsValid capacity ob
    → ℕ
    → Outcome (OrderBook D)
    → Type 0
ReturnsApart {D} capacity ob v key out =
    (ob' : OrderBook D) × (out ≡ done ob') × IsValid capacity ob' × IsApart ob v key ob'

pub same_book :
    {D : Type 0} {capacity : ℕ} (ob : OrderBook D) (v : IsValid capacity ob) (key : ℕ)
    → IsApart ob v key ob
same_book ob v key = λ k n. (refl, λ side tick x r. refl)

module _ {D : Type 0} {m : Memory D} {owner : ℕ → Place} {key : ℕ} {book : SymbolBook}
    {bq aq : ℕ → List ℕ} (h : BookHolds m owner key book bq aq) where
  -- Either branch of the entry leaves a valid book, and the orders of the other slots in use.
  abbrev Enters : OrderType → ℕ → ℕ → Memory D × SymbolBook → Type 0
  Enters side t o (n, book') =
      (bq' : ℕ → List ℕ) × (aq' : ℕ → List ℕ) × BookHolds n (update owner o (resting key side t))
        key book' bq' aq'
      × ((x : ℕ) → owner x ≢ resting key side t → x ≢ o → n x ≡ m x)

  relinked_same :
      (n : Memory D) (x : ℕ)
      → n x ≡ record (m x) { next = (n x).next }
      → (n x).next ≡ (m x).next
      → n x ≡ m x
  relinked_same n x e f = e ∙ (λ i. record (m x) { next = f i })

  enter-Enters :
      (side : OrderType) (t o : ℕ)
      → owner o ≡ idle
      → t < max_ticks
      → Enters side t o (enter side m book t o)
  unfolding enter enter_bid enter_ask
  enter-Enters OrderType.buy t o free low = (
    _,
    _,
    enter_bid-BookHolds h t o free low,
    λ x r n.
        relinked_same (push m (book.bids t) o).0 x (push-IsRelinked m (book.bids t) o x)
          (next-enter_bid h t o x free n r),
  )
  enter-Enters OrderType.sell t o free low = (
    _,
    _,
    enter_ask-BookHolds h t o free low,
    λ x r n.
        relinked_same (push m (book.asks t) o).0 x (push-IsRelinked m (book.asks t) o x)
          (next-enter_ask h t o x free n r),
  )

-- A slot that is handed out and rests is accounted for.
pub rest-PoolHolds :
    (capacity : ℕ) (p q : ObjectPool) (owner : ℕ → Place) (o : ℕ) (place : Place)
    → PoolHolds capacity p owner
    → Allocates capacity p (some o, q)
    → PoolHolds capacity q (update owner o place)
rest-PoolHolds capacity p q owner o place h a = record {
  valid = a.3;
  free_idle = λ x i.
      update_ne owner o x place (λ e. not_mem_ne (free_list q) o x a.2 i (sym e))
      ∙ h.free_idle x (subst (λ xs. x ∈ xs) (sym a.0) (inr i));
  in_slab = λ x n. in_slab x n;
}
  where
    in_slab : (x : ℕ) → update owner o place x ≢ idle → x < capacity
    in_slab x n = elim (ℕ-cases x o) [
      | inl e ↦ rw e a.1
      | inr d ↦ h.in_slab x (λ e. n (update_ne owner o x place d ∙ e))
    ]

-- What the entry of an order leaves, for every book.
module _ {D : Type 0} (capacity : ℕ) (ob : OrderBook D) (v : IsValid capacity ob) (order : Order D)
    (t o : ℕ) (q : ObjectPool) (low : t < max_ticks)
    (got : Allocates capacity ob.pool (some o, q)) where
  abbrev key : ℕ
  key = sym_key order.symbol

  abbrev start : Matching D
  start = entered ob q order t o

  abbrev claimed : ℕ → Place
  claimed = update v.owner o (resting key order.order_type t)

  free : v.owner o ≡ idle
  free = v.pool.free_idle o (subst (λ xs. o ∈ xs) (sym got.0) (inl refl))

  -- `*o = order` writes a free slot.
  written : Memory D
  written = update ob.memory o (record order { next = none })

  written_other : (x : ℕ) → x ≢ o → written x ≡ ob.memory x
  unfolding written
  written_other x n = update_ne ob.memory o x _ n

  used_ne : (k : ℕ) (s : OrderType) (tick x : ℕ) → v.owner x ≡ resting k s tick → x ≢ o
  used_ne k s tick x r e = cc (ap v.owner e, free)

  books_written :
      (k : ℕ) → BookHolds written v.owner k (find_or_new (ob.books k)) (v.bids k) (v.asks k)
  books_written k =
      BookHolds-frame (v.book k) written v.owner (λ s tick x r.
        (ap (λ (p : Order D). p.next) (written_other x (used_ne k s tick x r)), refl))

  entry :
      Enters
        (books_written key)
        order.order_type
        t
        o
        (enter order.order_type written (find_or_new (ob.books key)) t o)
  entry = enter-Enters (books_written key) order.order_type t o free low

  start-MatchingHolds : MatchingHolds capacity key start claimed entry.0 entry.1
  unfolding entered written
  start-MatchingHolds = rw (==_refl o) (record {
    book = entry.2;
    pool = rest-PoolHolds capacity ob.pool q v.owner o (resting key order.order_type t) v.pool got;
  })

  pub start_valid :
      (bq : ℕ → List ℕ) × (aq : ℕ → List ℕ) × MatchingHolds capacity key start claimed bq aq
  start_valid = (entry.0, entry.1, start-MatchingHolds)

  -- The other books keep their slots and the orders in them.
  start_others :
      (k : ℕ) (s : OrderType) (tick x : ℕ)
      → k ≢ key
      → v.owner x ≡ resting k s tick
      → (start.memory x ≡ ob.memory x) × (claimed x ≡ v.owner x)
  unfolding entered written
  start_others k s tick x n r =
      let apart = used_ne k s tick x r in
      (
        rw (==_refl o) (entry.3 x (λ e. n (ground (arith, e, r))) apart) ∙ written_other x apart,
        update_ne v.owner o x (resting key order.order_type t) apart,
      )

  -- Putting back the book of a state that follows gives a valid order book.
  module _ (s : Matching D) (f : Follows capacity key start claimed s)
      (ends : crossed s.book ≡ none) where
    abbrev back : OrderBook D
    back = record ob {
      memory = s.memory;
      pool = s.pool;
      books = update ob.books key (some s.book);
      emitted = s.emitted;
      readings = s.readings;
    }

    abbrev bids_back : ℕ → ℕ → List ℕ
    bids_back k = if k == key then f.bids' else v.bids k

    abbrev asks_back : ℕ → ℕ → List ℕ
    asks_back k = if k == key then f.asks' else v.asks k

    book_back :
        (k : ℕ)
        → BookHolds s.memory f.owner' k (find_or_new (back.books k)) (bids_back k) (asks_back k)
    book_back k = elim (ℕ-cases k key) [
      | inl e ↦ rw (e, ==_refl key) f.holds.book
      | inr n ↦ rw (==_ne k key n) (
          BookHolds-frame (v.book k) s.memory f.owner' (λ side tick x r.
            let (kept, same) = start_others k side tick x n r in
            (
              f.links x ∙ ap (λ (p : Order D). p.next) kept,
              f.others k side tick x n (same ∙ r) ∙ same,
            )))
    ]

    pub back-IsApart : IsApart ob v key back
    back-IsApart = λ k n. (
      update_ne ob.books key k (some s.book) n,
      λ side tick x r.
          let (kept, same) = start_others k side tick x n r in
          f.apart k side tick x n (same ∙ r) ∙ kept,
    )

    uncrossed_back : (k : ℕ) → crossed (find_or_new (back.books k)) ≡ none
    uncrossed_back k = elim (ℕ-cases k key) [
      | inl e ↦ rw (e, ==_refl key) ends
      | inr n ↦ rw (==_ne k key n) (v.uncrossed k)
    ]

    pub back-IsValid : IsValid capacity back
    back-IsValid = record {
      owner = f.owner';
      bids = bids_back;
      asks = asks_back;
      pool = f.holds.pool;
      book = book_back;
      uncrossed = uncrossed_back;
    }
