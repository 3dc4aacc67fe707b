-- ===== src/PriceLevel/Queue.antt =====
-- A price level is a queue of slots: `push` adds at the end, `pop_front` takes the oldest, and
-- neither touches what another level holds.
use trading_simulation.Prelude.{
  ℕ, ◌%◌, ◌^◌, ◌≡◌, ◌≢◌, refl, sym, ◌∙◌, inl, inr, List, [], ◌∷◌, ◌++◌, Option, none, some, Bool,
  true, false, arith, update_ne, length, length-append, last?, last?-snoc, ◌∈◌, ◌∉◌, IsDistinct,
  IsDistinct-snoc, not_mem_ne, mem_last?,
}
use trading_simulation.PriceLevel.{
  Memory, PriceLevel, empty_level, set_next, push, tail_under, pop_front, is_empty,
}

-- From `p` the `next` fields lead through the slots of the list, and then to null.
abbrev pub Linked : {D : Type 0} → Memory D → Option ℕ → List ℕ → Type 0
Linked m p [] = p ≡ none
Linked m p (x ∷ xs) = (p ≡ some x) × Linked m (m x).next xs

-- The level holds the slots of the list, oldest first; `count` is a `uint32_t`.
pub record Holds {D : Type 0} (m : Memory D) (l : PriceLevel) (xs : List ℕ) : Type 0 where
  pub linked : Linked m l.head xs
  pub ends : l.tail ≡ last? xs
  pub counted : l.count ≡ length xs % 2 ^ 32
  pub distinct : IsDistinct xs

abbrev pub is_nil : List ℕ → Bool
is_nil [] = true
is_nil (x ∷ xs) = false

abbrev pub head_of : List ℕ → Option ℕ
head_of [] = none
head_of (x ∷ xs) = some x

ends_some : (x : ℕ) (xs : List ℕ) → none ≢ last? (x ∷ xs)
ends_some x [] e = cc
ends_some x (y ∷ ys) e = ends_some y ys e

-- The second memory differs from the first in links only.
abbrev pub IsRelinked : {D : Type 0} → Memory D → Memory D → Type 0
IsRelinked m n = (x : ℕ) → n x ≡ record (m x) { next = (n x).next }

module _ {D : Type 0} where
  pub empty_level-Holds : (m : Memory D) → Holds m empty_level []
  empty_level-Holds m = record { linked = refl; ends = refl; counted = refl; distinct = tt }

  -- A chain depends on the links of its own slots only.
  pub Linked-frame :
      (m n : Memory D) (xs : List ℕ) (p : Option ℕ)
      → ((x : ℕ) → x ∈ xs → (n x).next ≡ (m x).next)
      → Linked m p xs
      → Linked n p xs
  Linked-frame m n [] p same h = h
  Linked-frame m n (x ∷ xs) p same h =
      (h.0, rw (same x (inl refl)) (Linked-frame m n xs (m x).next (λ y i. same y (inr i)) h.1))

  pub Holds-frame :
      (m n : Memory D) (l : PriceLevel) (xs : List ℕ)
      → ((x : ℕ) → x ∈ xs → (n x).next ≡ (m x).next)
      → Holds m l xs
      → Holds n l xs
  Holds-frame m n l xs same h = record {
    linked = Linked-frame m n xs l.head same h.linked;
    ends = h.ends;
    counted = h.counted;
    distinct = h.distinct;
  }

  set_next_next :
      (m : Memory D) (p : ℕ) (q : Option ℕ) (x : ℕ) → x ≢ p → (set_next m p q x).next ≡ (m x).next
  set_next_next m p q x h = ground (arith, update_ne m p x (record (m p) { next = q }))

  -- The two writes of `push` on a level that is not empty.
  abbrev extended : Memory D → ℕ → ℕ → Memory D
  extended m o t = set_next (set_next m o none) t (some o)

  extended_next : (m : Memory D) (o t x : ℕ) → x ≢ o → x ≢ t → (extended m o t x).next ≡ (m x).next
  extended_next m o t x a b = ground arith

  Linked-extended :
      (m : Memory D) (o t x : ℕ) (xs : List ℕ) (p : Option ℕ)
      → Linked m p (x ∷ xs)
      → o ∉ (x ∷ xs)
      → IsDistinct (x ∷ xs)
      → last? (x ∷ xs) ≡ some t
      → Linked (extended m o t) p ((x ∷ xs) ++ o ∷ [])
  Linked-extended m o t x [] p h fresh d e = (h.0, (ground arith, ground arith))
  Linked-extended m o t x (y ∷ ys) p h fresh d e =
      let rest = Linked-extended m o t y ys (m x).next h.1 fresh.1 d.1 e in
      let apart = not_mem_ne (y ∷ ys) x t d.0 (mem_last? y ys t e) in
      (h.0, (extended_next m o t x (λ q. fresh.0 (sym q)) apart ∙ rest.0, rest.1))

  push_at :
      (m : Memory D) (head tail : Option ℕ) (count o : ℕ) (xs : List ℕ)
      → Holds m (record { head = head; tail = tail; count = count }) xs
      → o ∉ xs
      → let (n, l) = push m (record { head = head; tail = tail; count = count }) o in
        Holds n l (xs ++ o ∷ [])
  unfolding push
  push_at m none tail count o [] h fresh = record {
    linked = (refl, ground arith);
    ends = refl;
    counted = omega (arith, h.counted);
    distinct = (tt, tt);
  }
  push_at m none tail count o (x ∷ xs) h fresh = cc (h.linked.0)
  push_at m (some a) tail count o [] h fresh = cc (h.linked)
  push_at m (some a) none count o (x ∷ xs) h fresh = absurd (ends_some x xs h.ends)
  push_at m (some a) (some t) count o (x ∷ xs) h fresh = record {
    linked = Linked-extended m o t x xs (some a) h.linked fresh h.distinct (sym h.ends);
    ends = sym (last?-snoc (x ∷ xs) o);
    counted = omega (arith, h.counted, length-append (x ∷ xs) (o ∷ []));
    distinct = IsDistinct-snoc (x ∷ xs) o h.distinct fresh;
  }

  -- On a level that holds a queue, `push` appends a slot that the queue does not have: the links, the
  -- ends and the count are those of the longer queue.
  pub push-Holds :
      (m : Memory D) (l : PriceLevel) (o : ℕ) (xs : List ℕ)
      → Holds m l xs
      → o ∉ xs
      → Holds (push m l o).0 (push m l o).1 (xs ++ o ∷ [])
  push-Holds m l o xs h fresh = push_at m l.head l.tail l.count o xs h fresh

  next_at :
      (m : Memory D) (head tail : Option ℕ) (count o x : ℕ) (xs : List ℕ)
      → Holds m (record { head = head; tail = tail; count = count }) xs
      → x ≢ o
      → x ∉ xs
      → ((push m (record { head = head; tail = tail; count = count }) o).0 x).next ≡ (m x).next
  unfolding push
  next_at m none tail count o x xs h n fresh = set_next_next m o none x n
  next_at m (some a) none count o x xs h n fresh = set_next_next m o none x n
  next_at m (some a) (some t) count o x [] h n fresh = cc (h.linked)
  next_at m (some a) (some t) count o x (y ∷ ys) h n fresh =
      extended_next m o t x n (not_mem_ne (y ∷ ys) x t fresh (mem_last? y ys t (sym h.ends)))

  -- The links that `push` writes are those of the new slot and of the level's last.
  pub next-push :
      (m : Memory D) (l : PriceLevel) (o x : ℕ) (xs : List ℕ)
      → Holds m l xs
      → x ≢ o
      → x ∉ xs
      → ((push m l o).0 x).next ≡ (m x).next
  next-push m l o x xs h n fresh = next_at m l.head l.tail l.count o x xs h n fresh

  IsRelinked-at :
      (m : Memory D) (head tail : Option ℕ) (count o : ℕ)
      → IsRelinked m (push m (record { head = head; tail = tail; count = count }) o).0
  unfolding push
  IsRelinked-at m none tail count o x = ground arith
  IsRelinked-at m (some a) none count o x = ground arith
  IsRelinked-at m (some a) (some t) count o x = ground arith

  -- `push` writes no field of an order but `next`.
  pub push-IsRelinked : (m : Memory D) (l : PriceLevel) (o : ℕ) → IsRelinked m (push m l o).0
  push-IsRelinked m l o = IsRelinked-at m l.head l.tail l.count o

  pop_at :
      (m : Memory D) (head tail : Option ℕ) (count x : ℕ) (xs : List ℕ)
      → Holds m (record { head = head; tail = tail; count = count }) (x ∷ xs)
      → let (r, l) = pop_front m (record { head = head; tail = tail; count = count }) in
        (r ≡ some x) × Holds m l xs
  unfolding pop_front
  pop_at m none tail count x xs h = cc (h.linked.0)
  pop_at m (some a) tail count x xs h =
      let e : a ≡ x = ground (arith, h.linked.0) in
      let next : Linked m (m a).next xs = rw e h.linked.1 in
      (
        h.linked.0,
        record {
          linked = next;
          ends = tail_at (m a).next tail xs next h.ends;
          counted = omega (arith, h.counted);
          distinct = h.distinct.1;
        },
      )
    where
      tail_at :
          (p tail : Option ℕ) (xs : List ℕ)
          → Linked m p xs
          → tail ≡ last? (x ∷ xs)
          → tail_under p tail ≡ last? xs
      tail_at none tail [] k e = refl
      tail_at none tail (y ∷ ys) k e = cc (k.0)
      tail_at (some b) tail [] k e = cc (k)
      tail_at (some b) tail (y ∷ ys) k e = e

  -- On a level that holds a queue with an item, `pop_front` returns the oldest slot, and the level
  -- holds the rest.
  pub pop_front-Holds :
      (m : Memory D) (l : PriceLevel) (x : ℕ) (xs : List ℕ)
      → Holds m l (x ∷ xs)
      → ((pop_front m l).0 ≡ some x) × Holds m (pop_front m l).1 xs
  pop_front-Holds m l x xs h = pop_at m l.head l.tail l.count x xs h

  -- On an empty level it returns null and changes nothing.
  pub pop_front-empty : (m : Memory D) (l : PriceLevel) → Holds m l [] → pop_front m l ≡ (none, l)
  unfolding pop_front
  pop_front-empty m l h = ground (arith, h.linked)

  pub is_empty_lem :
      (m : Memory D) (l : PriceLevel) (xs : List ℕ) → Holds m l xs → is_empty l ≡ is_nil xs
  unfolding is_empty
  is_empty_lem m l [] h = ground (arith, h.linked)
  is_empty_lem m l (x ∷ xs) h = ground (arith, h.linked.0)

  -- The head of a level is its oldest slot.
  pub head-Holds :
      (m : Memory D) (l : PriceLevel) (xs : List ℕ) → Holds m l xs → l.head ≡ head_of xs
  head-Holds m l [] h = h.linked
  head-Holds m l (x ∷ xs) h = h.linked.0
