-- ===== src/SpscQueue.antt =====
-- libs/utils/include/spsc_queue.h: the ring buffer between a hot thread and the cold path. `size_t`
-- is 64 bits wide; the indices stay below the capacity, so that no addition wraps.
pub mod Ring
pub mod Refine
pub mod Threads
use trading_simulation.Prelude.{
  ℕ, zero, suc, ◌+◌, ◌-◌, ◌%◌, ◌^◌, Bool, true, false, Option, none, some, ◌==◌, leb, if◌then◌else◌,
  update, ◌≡◌,
}

pub record SpscQueue (A : Type 0) : Type 0 where
  pub capacity : ℕ
  pub buffer : ℕ → A
  pub head : ℕ
  pub tail : ℕ

-- `(index + 1) % capacity_` on `size_t`.
abbrev pub following : ℕ → ℕ → ℕ
following capacity i = ((i + 1) % 2 ^ 64) % capacity

module _ {A : Type 0} where
  -- The constructor; `fill` is what the vector's slots hold at first.
  unfoldable pub new_queue : ℕ → A → SpscQueue A
  new_queue capacity fill = record { capacity = capacity; buffer = λ _. fill; head = 0; tail = 0 }

  unfoldable pub push : SpscQueue A → A → Bool × SpscQueue A
  push q item = if following q.capacity q.tail == q.head then (false, q) else (
    true,
    record q { buffer = update q.buffer q.tail item; tail = following q.capacity q.tail },
  )

  -- What `pop` writes through its reference is `some`.
  unfoldable pub pop : SpscQueue A → Option A × SpscQueue A
  pop q =
      if q.head == q.tail
      then (none, q)
      else (some (q.buffer q.head), record q { head = following q.capacity q.head })

  unfoldable pub size : SpscQueue A → ℕ
  size q = if leb q.head q.tail then q.tail - q.head else q.capacity - q.head + q.tail
