-- ===== src/SpscQueue/Refine.antt =====
-- The queue is a FIFO of at most `capacity - 1` items.
use trading_simulation.Prelude.{
  ℕ, suc, ◌^◌, ◌≡◌, ◌≢◌, ◌≤◌, ◌<◌, refl, ap, sym, ◌∙◌, inl, inr, List, [], ◌∷◌, ◌++◌, Option, none,
  some, Bool, true, false, arith, ◌==◌, if◌then◌else◌, update, length, ℕ-cases, ==_refl, ==_ne,
}
use trading_simulation.SpscQueue.{SpscQueue, new_queue, following, push, pop, size}
use trading_simulation.SpscQueue.Ring.{
  succ_in, distance, following-succ_in, window, length-window, window-update, window_snoc,
  distance_grow, distance_shrink, distance_full, distance_room,
}

pub record IsValid {A : Type 0} (q : SpscQueue A) : Type 0 where
  pub head_in : q.head < q.capacity
  pub tail_in : q.tail < q.capacity
  pub small : q.capacity ≤ 2 ^ 63

-- The unconsumed items, oldest first.
abbrev pub contents : {A : Type 0} → SpscQueue A → List A
contents q = window q.capacity q.buffer q.head (distance q.capacity q.head q.tail)

-- The abstract queue: an item is refused when `capacity - 1` are waiting.
abbrev pub push_list : {A : Type 0} → ℕ → List A → A → Bool × List A
push_list capacity xs x = if suc (length xs) == capacity then (false, xs) else (true, xs ++ x ∷ [])

abbrev pub pop_list : {A : Type 0} → List A → Option A × List A
pop_list [] = (none, [])
pop_list (x ∷ xs) = (some x, xs)

module _ {A : Type 0} where
  pub new_queue-IsValid :
      (capacity : ℕ) (fill : A)
      → 0 < capacity
      → capacity ≤ 2 ^ 63
      → IsValid (new_queue capacity fill) × (contents (new_queue capacity fill) ≡ [])
  unfolding new_queue
  new_queue-IsValid capacity fill h small =
      (record { head_in = h; tail_in = h; small = small }, refl)

  module _ (q : SpscQueue A) (v : IsValid q) where
    pub following-tail : following q.capacity q.tail ≡ succ_in q.capacity q.tail
    following-tail = following-succ_in q.capacity q.tail v.tail_in v.small

    pub following-head : following q.capacity q.head ≡ succ_in q.capacity q.head
    following-head = following-succ_in q.capacity q.head v.head_in v.small

    pub length-contents : length (contents q) ≡ distance q.capacity q.head q.tail
    length-contents = length-window q.capacity q.buffer q.head (distance q.capacity q.head q.tail)

    -- On a valid queue `size` is the number of unconsumed items.
    pub size-length : size q ≡ length (contents q)
    unfolding size
    size-length = sym length-contents

    -- An item written behind the last and the tail moved on: it is the last item.
    pub contents_grow :
        (x : A)
        → succ_in q.capacity q.tail ≢ q.head
        → contents
            (record q { buffer = update q.buffer q.tail x; tail = succ_in q.capacity q.tail })
          ≡ contents q ++ x ∷ []
    contents_grow x n =
        let d = distance q.capacity q.head q.tail in
        let new = update q.buffer q.tail x in
        rw (distance_grow q.capacity q.head q.tail v.head_in v.tail_in n) (
          window_snoc q.capacity new q.tail d q.head v.head_in v.tail_in refl
          ∙ rw (
            window-update q.capacity q.buffer x q.tail d q.head v.head_in v.tail_in refl,
            ==_refl q.tail,
          ))

    -- The head moved on: the oldest item is gone.
    pub contents_shrink :
        q.head ≢ q.tail
        → contents q ≡ q.buffer q.head ∷ contents (record q { head = succ_in q.capacity q.head })
    contents_shrink n = rw (distance_shrink q.capacity q.head q.tail v.head_in v.tail_in n)

    pub contents_empty : q.head ≡ q.tail → contents q ≡ []
    contents_empty e =
        let none_left : distance q.capacity q.head q.tail ≡ 0 = ground arith in rw none_left

    pub pushed_full : (x : A) → succ_in q.capacity q.tail ≡ q.head → push q x ≡ (false, q)
    unfolding push
    pushed_full x e = ground (arith, following-tail)

    pub pushed :
        (x : A)
        → succ_in q.capacity q.tail ≢ q.head
        → push q x
          ≡ (true, record q { buffer = update q.buffer q.tail x; tail = succ_in q.capacity q.tail })
    unfolding push
    pushed x n = ground (arith, following-tail)

    pub popped_empty : q.head ≡ q.tail → pop q ≡ (none, q)
    unfolding pop
    popped_empty e = ground arith

    pub popped :
        q.head ≢ q.tail
        → pop q ≡ (some (q.buffer q.head), record q { head = succ_in q.capacity q.head })
    unfolding pop
    popped n = ground (arith, following-head)

    -- On a valid queue `push` is the bounded queue's: it refuses exactly when `capacity - 1` items wait, leaving the
    -- queue as it is, and otherwise appends the item.
    pub push_refines :
        (x : A) → let (ok, q') = push q x in (ok, contents q') ≡ push_list q.capacity (contents q) x
    push_refines x = elim (ℕ-cases (succ_in q.capacity q.tail) q.head) [
      | inl full ↦
          let wait : suc (length (contents q)) ≡ q.capacity =
            ap suc length-contents
            ∙ distance_full q.capacity q.head q.tail v.head_in v.tail_in full in
          rw (pushed_full x full) (sym (accepts_not wait))
      | inr room ↦
          let wait : suc (length (contents q)) ≢ q.capacity = λ e. absurd (
            omega (
              arith,
              e,
              length-contents,
              distance_room q.capacity q.head q.tail v.head_in v.tail_in room,
            )) in
          rw (pushed x room, contents_grow x room) (sym (accepts wait))
    ]
      where
        accepts_not :
            suc (length (contents q)) ≡ q.capacity
            → push_list q.capacity (contents q) x ≡ (false, contents q)
        accepts_not e = rw (e, ==_refl q.capacity)

        accepts :
            suc (length (contents q)) ≢ q.capacity
            → push_list q.capacity (contents q) x ≡ (true, contents q ++ x ∷ [])
        accepts n = rw (==_ne (suc (length (contents q))) q.capacity n)

    -- On a valid queue `pop` takes the oldest item, and returns false exactly on the empty queue.
    pub pop_refines : let (r, q') = pop q in (r, contents q') ≡ pop_list (contents q)
    pop_refines = elim (ℕ-cases q.head q.tail) [
      | inl e ↦ rw (popped_empty e, contents_empty e)
      | inr n ↦ rw (popped n, contents_shrink n)
    ]

    pub push-IsValid : (x : A) → IsValid (push q x).1
    push-IsValid x = elim (ℕ-cases (succ_in q.capacity q.tail) q.head) [
      | inl full ↦ rw (pushed_full x full) v
      | inr room ↦
          rw (pushed x room)
            (record { head_in = v.head_in; tail_in = ground (arith, v.tail_in); small = v.small })
    ]

    pub pop-IsValid : IsValid (pop q).1
    pop-IsValid = elim (ℕ-cases q.head q.tail) [
      | inl e ↦ rw (popped_empty e) v
      | inr n ↦
          rw (popped n)
            (record { head_in = ground (arith, v.head_in); tail_in = v.tail_in; small = v.small })
    ]
