-- ===== src/SymbolBook/Side.antt =====
-- One side of a book: its levels as queues of slots, its bitset, and which slot rests where.
use trading_simulation.Prelude.{
  ℕ, ◌≤◌, ◌<◌, ◌≡◌, ◌≢◌, refl, sym, ap, subst, ◌∙◌, inl, inr, List, [], ◌∷◌, ◌++◌, false, not,
  arith, update, update_self, update_ne, ◌∈◌, ◌∉◌, mem_snoc, not_mem_of, not_mem_ne, IsDistinct,
  ℕ-cases, if◌then◌else◌, ==_ne, ==_refl,
}
use trading_simulation.Order.{OrderType}
use trading_simulation.Bitset.{Bits, IsWords, max_ticks, occupied, bit_set, bit_clear}
use trading_simulation.Bitset.Update.{
  occupied-zero, occupied-bit_set, occupied-bit_clear, bit_set-IsWords, bit_clear-IsWords,
}
use trading_simulation.PriceLevel.{empty_level, Memory, PriceLevel, push, pop_front, is_empty}
use trading_simulation.PriceLevel.Queue.{
  empty_level-Holds, Holds, Holds-frame, is_nil, is_empty_lem, push-Holds, next-push,
  pop_front-Holds,
}

-- Where a slot of the pool is: free, or in a level of a book.
pub data Place : Type 0 where
  idle : Place
  resting : ℕ → OrderType → ℕ → Place

-- The side `side` of the book with key `key` rests on the slots `q t` at tick `t`.
pub record SideHolds {D : Type 0} (m : Memory D) (owner : ℕ → Place) (key : ℕ) (side : OrderType)
    (levels : ℕ → PriceLevel) (bits : Bits) (q : ℕ → List ℕ) : Type 0 where
  pub level : (t : ℕ) → Holds m (levels t) (q t)
  pub bit : (t : ℕ) → occupied bits t ≡ not (is_nil (q t))
  pub words : IsWords bits
  pub inside : (t : ℕ) → max_ticks ≤ t → q t ≡ []
  pub owned : (t x : ℕ) → x ∈ q t → owner x ≡ resting key side t

snoc_is_nil : (xs : List ℕ) (x : ℕ) → is_nil (xs ++ x ∷ []) ≡ false
snoc_is_nil [] x = refl
snoc_is_nil (y ∷ ys) x = refl

module _ {D : Type 0} {m : Memory D} {owner : ℕ → Place} {key : ℕ} {side : OrderType}
    {levels : ℕ → PriceLevel} {bits : Bits} {q : ℕ → List ℕ}
    (h : SideHolds m owner key side levels bits q) where
  -- A free slot is in no level.
  pub idle_not_mem : (t o : ℕ) → owner o ≡ idle → o ∉ q t
  idle_not_mem t o e = not_mem_of (q t) o (λ i. cc (h.owned t o i))

  -- A slot is in one level only.
  pub other_not_mem : (s t x : ℕ) → x ∈ q s → s ≢ t → x ∉ q t
  other_not_mem s t x i n =
      not_mem_of (q t) x (λ k. n (ground (arith, h.owned s x i, h.owned t x k)))

  -- Another memory and another account of the slots do as well if they agree on this side.
  pub SideHolds-frame :
      (n : Memory D) (owner' : ℕ → Place)
      → ((t x : ℕ)
          → owner x ≡ resting key side t
          → ((n x).next ≡ (m x).next) × (owner' x ≡ owner x))
      → SideHolds n owner' key side levels bits q
  SideHolds-frame n owner' same = record {
    level = λ t. Holds-frame m n (levels t) (q t) (λ x i. (same t x (h.owned t x i)).0) (h.level t);
    bit = h.bit;
    words = h.words;
    inside = h.inside;
    owned = λ t x i. (same t x (h.owned t x i)).1 ∙ h.owned t x i;
  }

  push_level :
      (t o s : ℕ)
      → owner o ≡ idle
      → let (n, l) = push m (levels t) o in
        Holds n (update levels t l s) (update q t (q t ++ o ∷ []) s)
  push_level t o s free = elim (ℕ-cases s t) [
    | inl e ↦
        rw (e, ==_refl t) (push-Holds m (levels t) o (q t) (h.level t) (idle_not_mem t o free))
    | inr d ↦ rw (==_ne s t d) (
        Holds-frame m (push m (levels t) o).0 (levels s) (q s)
          (λ x i.
            next-push m (levels t) o x (q t) (h.level t) (λ e. cc (h.owned s x i, free, ap owner e))
              (other_not_mem s t x i d))
          (h.level s))
  ]

  still_owned :
      (p : Place) (o s x : ℕ) → owner o ≡ idle → x ∈ q s → update owner o p x ≡ resting key side s
  still_owned p o s x free i =
      let apart : x ≢ o = λ e. cc (h.owned s x i, free, ap owner e) in
      update_ne owner o x p apart ∙ h.owned s x i

  push_owned :
      (t o s x : ℕ)
      → owner o ≡ idle
      → x ∈ update q t (q t ++ o ∷ []) s
      → update owner o (resting key side t) x ≡ resting key side s
  push_owned t o s x free i = elim (ℕ-cases s t) [
    | inl e ↦ elim (mem_snoc (q t) o x (rw (e, ==_refl t) at i)) [
      | inl old ↦ rw e (still_owned (resting key side t) o t x free old)
      | inr new ↦ rw (e, new) (update_self owner o (resting key side t))
    ]
    | inr d ↦ still_owned (resting key side t) o s x free (rw (==_ne s t d) at i)
  ]

  -- Queueing a free slot at a tick.
  pub push-SideHolds :
      (t o : ℕ)
      → owner o ≡ idle
      → t < max_ticks
      → let (n, l) = push m (levels t) o in
        SideHolds n
          (update owner o (resting key side t))
          key
          side
          (update levels t l)
          (bit_set bits t)
          (update q t (q t ++ o ∷ []))
  push-SideHolds t o free low = record {
    level = λ s. push_level t o s free;
    bit = λ s. ground (arith, occupied-bit_set bits t s, h.bit s, snoc_is_nil (q t) o);
    words = bit_set-IsWords bits t h.words;
    inside = λ s a. ground (arith, h.inside s a);
    owned = λ s x i. push_owned t o s x free i;
  }

  pop_level :
      (t s x : ℕ) (xs : List ℕ)
      → q t ≡ x ∷ xs
      → Holds m (update levels t (pop_front m (levels t)).1 s) (update q t xs s)
  pop_level t s x xs e = elim (ℕ-cases s t) [
    | inl p ↦
        rw (p, ==_refl t)
          (pop_front-Holds m (levels t) x xs (subst (Holds m (levels t)) e (h.level t))).1
    | inr d ↦ rw (==_ne s t d) (h.level s)
  ]

  pop_owned :
      (t s x y : ℕ) (xs : List ℕ)
      → q t ≡ x ∷ xs
      → y ∈ update q t xs s
      → update owner x idle y ≡ resting key side s
  pop_owned t s x y xs e i = elim (ℕ-cases s t) [
    | inl p ↦ rw p (same_level (rw (p, ==_refl t) at i))
    | inr d ↦ other_level d (rw (==_ne s t d) at i)
  ]
    where
      front : x ∈ q t
      front = subst (λ ys. x ∈ ys) (sym e) (inl refl)

      distinct : IsDistinct (x ∷ xs)
      distinct = subst IsDistinct e (h.level t).distinct

      same_level : y ∈ xs → update owner x idle y ≡ resting key side t
      same_level k =
          update_ne owner x y idle (λ a. not_mem_ne xs x y distinct.0 k (sym a))
          ∙ h.owned t y (subst (λ ys. y ∈ ys) (sym e) (inr k))

      other_level : s ≢ t → y ∈ q s → update owner x idle y ≡ resting key side s
      other_level d k =
          update_ne owner x y idle
            (λ a. d (ground (arith, h.owned s y k, h.owned t x front, ap owner a)))
          ∙ h.owned s y k

  pop_bit :
      (t s x : ℕ) (xs : List ℕ)
      → q t ≡ x ∷ xs
      → occupied (if is_nil xs then bit_clear bits t else bits) s ≡ not (is_nil (update q t xs s))
  pop_bit t s x [] e = ground (arith, occupied-bit_clear bits t s, h.bit s)
  pop_bit t s x (y ∷ ys) e = elim (ℕ-cases s t) [
    | inl p ↦ rw (p, ==_refl t) (h.bit t ∙ ground (arith, e))
    | inr d ↦ rw (==_ne s t d) (h.bit s)
  ]

  pop-IsWords : (t : ℕ) (xs : List ℕ) → IsWords (if is_nil xs then bit_clear bits t else bits)
  pop-IsWords t [] = bit_clear-IsWords bits t h.words
  pop-IsWords t (y ∷ ys) = h.words

  -- Taking the oldest slot of a tick, which becomes free; an emptied level loses its bit.
  pub pop-SideHolds :
      (t x : ℕ) (xs : List ℕ)
      → q t ≡ x ∷ xs
      → let l = (pop_front m (levels t)).1 in
        SideHolds m
          (update owner x idle)
          key
          side
          (update levels t l)
          (if is_empty l then bit_clear bits t else bits)
          (update q t xs)
  pop-SideHolds t x xs e = record {
    level = λ s. pop_level t s x xs e;
    bit = λ s. rw emptied (pop_bit t s x xs e);
    words = rw emptied (pop-IsWords t xs);
    inside = λ s a. ground (arith, h.inside s a);
    owned = λ s y i. pop_owned t s x y xs e i;
  }
    where
      emptied : is_empty (pop_front m (levels t)).1 ≡ is_nil xs
      emptied =
          is_empty_lem m (pop_front m (levels t)).1 xs
            (pop_front-Holds m (levels t) x xs (subst (Holds m (levels t)) e (h.level t))).1

  -- The links of the other slots in use stay as they are when a free slot is queued.
  pub push_next :
      (t o x : ℕ)
      → owner o ≡ idle
      → owner x ≢ resting key side t
      → x ≢ o
      → ((push m (levels t) o).0 x).next ≡ (m x).next
  push_next t o x free r n =
      next-push m (levels t) o x (q t) (h.level t) n (not_mem_of (q t) x (λ i. r (h.owned t x i)))

-- The side of a new book.
pub empty-SideHolds :
    {D : Type 0} (m : Memory D) (owner : ℕ → Place) (key : ℕ) (side : OrderType)
    → SideHolds m owner key side (λ _. empty_level) (λ _. 0) (λ _. [])
empty-SideHolds m owner key side = record {
  level = λ t. empty_level-Holds m;
  bit = λ t. occupied-zero t;
  words = λ w. omega arith;
  inside = λ t a. refl;
  owned = λ t x i. absurd i;
}
