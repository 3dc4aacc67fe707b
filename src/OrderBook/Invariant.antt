-- ===== src/OrderBook/Invariant.antt =====
-- What the matching loop keeps: a valid book, a valid pool, and no slot both free and resting.
use trading_simulation.Prelude.{
  ℕ, ◌≤◌, ◌<◌, ◌≡◌, ◌≢◌, refl, sym, ◌∙◌, inl, inr, List, ◌∷◌, update, update_self, update_ne,
  Bool-cases, if◌then◌else◌, ◌∈◌, not_mem_of, subst, ℕ-cases,
}
use trading_simulation.Prelude.Int.{pos, eqb_ℤ}
use trading_simulation.ObjectPool
use trading_simulation.ObjectPool.{ObjectPool}
use trading_simulation.ObjectPool.Laws.{free_list, release_refines, release-IsValid}
use trading_simulation.ObjectPool.Laws
use trading_simulation.Bitset.{max_ticks}
use trading_simulation.SymbolBook.Side.{Place, idle}
use trading_simulation.SymbolBook.Valid.{BookHolds, drop_bid-BookHolds, drop_ask-BookHolds}
use trading_simulation.OrderBook.{Matching, settle_bid, settle_ask}

-- The free slots are idle, and a slot that is not idle lies in the slab.
pub record PoolHolds (capacity : ℕ) (pool : ObjectPool) (owner : ℕ → Place) : Type 0 where
  pub valid : Laws.IsValid capacity pool
  pub free_idle : (x : ℕ) → x ∈ free_list pool → owner x ≡ idle
  pub in_slab : (x : ℕ) → owner x ≢ idle → x < capacity

pub record MatchingHolds {D : Type 0} (capacity key : ℕ) (s : Matching D) (owner : ℕ → Place)
    (bq aq : ℕ → List ℕ) : Type 0 where
  pub book : BookHolds s.memory owner key s.book bq aq
  pub pool : PoolHolds capacity s.pool owner

-- A slot in use goes back to the pool.
pub release-PoolHolds :
    (capacity : ℕ) (pool : ObjectPool) (owner : ℕ → Place) (x : ℕ)
    → owner x ≢ idle
    → PoolHolds capacity pool owner
    → PoolHolds capacity (ObjectPool.release pool x) (update owner x idle)
release-PoolHolds capacity pool owner x used h = record {
  valid =
      (release-IsValid pool x h.valid (h.in_slab x used)
        (not_mem_of (free_list pool) x (λ i. used (h.free_idle x i)))).0;
  free_idle = λ y i. freed y (subst (λ xs. y ∈ xs) (release_refines pool x) i);
  in_slab = λ y n. kept y n;
}
  where
    freed : (y : ℕ) → y ∈ (x ∷ free_list pool) → update owner x idle y ≡ idle
    freed y i = elim (ℕ-cases y x) [
      | inl e ↦ rw e (update_self owner x idle)
      | inr d ↦ update_ne owner x y idle d ∙ h.free_idle y (tail_of i d)
    ]
      where
        tail_of : y ∈ (x ∷ free_list pool) → y ≢ x → y ∈ free_list pool
        tail_of (inl e) d = absurd (d e)
        tail_of (inr k) d = k

    kept : (y : ℕ) → update owner x idle y ≢ idle → y < capacity
    kept y n = elim (ℕ-cases y x) [
      | inl e ↦ absurd (n (rw e (update_self owner x idle)))
      | inr d ↦ h.in_slab y (λ e. n (update_ne owner x y idle d ∙ e))
    ]

module _ {D : Type 0} {capacity key : ℕ} {s : Matching D} {owner : ℕ → Place} {bq aq : ℕ → List ℕ}
    (h : MatchingHolds capacity key s owner bq aq) where
  -- Settling the oldest order at the best bid: a filled order leaves, any other stays.
  pub settle_bid-MatchingHolds :
      (b x : ℕ) (xs : List ℕ)
      → s.book.best_bid_tick ≡ pos b
      → bq b ≡ x ∷ xs
      → let filled = eqb_ℤ (s.memory x).quantity (pos 0) in
        MatchingHolds capacity key
          (settle_bid s b x)
          (if filled then update owner x idle else owner)
          (if filled then update bq b xs else bq)
          aq
  unfolding settle_bid
  settle_bid-MatchingHolds b x xs e f = elim (Bool-cases (eqb_ℤ (s.memory x).quantity (pos 0))) [
    | inl filled ↦ rw filled (record {
      book = drop_bid-BookHolds h.book b x xs e f;
      pool = release-PoolHolds capacity s.pool owner x used h.pool;
    })
    | inr open_still ↦ rw open_still (record { book = h.book; pool = h.pool })
  ]
    where
      used : owner x ≢ idle
      used d = cc (h.book.bids.owned b x (subst (λ ys. x ∈ ys) (sym f) (inl refl)))

  pub settle_ask-MatchingHolds :
      (a x : ℕ) (xs : List ℕ)
      → s.book.best_ask_tick ≡ a
      → a ≤ max_ticks
      → aq a ≡ x ∷ xs
      → let filled = eqb_ℤ (s.memory x).quantity (pos 0) in
        MatchingHolds capacity key
          (settle_ask s a x)
          (if filled then update owner x idle else owner)
          bq
          (if filled then update aq a xs else aq)
  unfolding settle_ask
  settle_ask-MatchingHolds a x xs e low f =
      elim (Bool-cases (eqb_ℤ (s.memory x).quantity (pos 0))) [
        | inl filled ↦ rw filled (record {
          book = drop_ask-BookHolds h.book a x xs e low f;
          pool = release-PoolHolds capacity s.pool owner x used h.pool;
        })
        | inr open_still ↦ rw open_still (record { book = h.book; pool = h.pool })
      ]
    where
      used : owner x ≢ idle
      used d = cc (h.book.asks.owned a x (subst (λ ys. x ∈ ys) (sym f) (inl refl)))
