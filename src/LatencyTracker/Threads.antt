-- ===== src/LatencyTracker/Threads.antt =====
-- `LatencyTracker::record` as any number of threads run it on one tracker: one step is one atomic
-- operation, or the test that ends a loop, and the steps of the threads interleave in any order. A
-- `compare_exchange_weak` may also fail where it finds the value that it expects.
pub mod Moves
pub mod Owed
pub mod Runs
pub mod Agree
pub mod Alone
use trading_simulation.Prelude.{
  ℕ, ◌+◌, ◌%◌, ◌^◌, ◌≤◌, ◌<◌, ◌≡◌, List, [], ◌∷◌, ◌==◌, if◌then◌else◌, update,
}
use trading_simulation.Prelude.Int.{ℤ, pos, negsuc}
use trading_simulation.Word64.{word_mod}
use trading_simulation.LatencyTracker.{LatencyTracker, bucket_of, reset, record_sample}

-- Where a thread is in `record`: the operation it comes to, with `ns` and, in a loop, `cur`.
pub data Place : Type 0 where
  outside : Place
  add_bucket : ℕ → Place
  add_count : ℕ → Place
  add_sum : ℕ → Place
  load_max : ℕ → Place
  swap_max : ℕ → ℕ → Place
  load_min : ℕ → Place
  swap_min : ℕ → ℕ → Place

-- The start of a call, up to the first atomic operation.
abbrev pub begun : ℤ → Place
begun (negsuc n) = outside
begun (pos n) = add_bucket (if n == 0 then 1 else n)

pub data Move (t : LatencyTracker) : Place → LatencyTracker → Place → Type 0 where
  -- `buckets_[bucket_of(uns)].fetch_add(1)`
  bucket_added :
      {x : ℕ}
      → Move t
          (add_bucket x)
          (record t {
            buckets = update t.buckets (bucket_of x) ((t.buckets (bucket_of x) + 1) % word_mod);
          })
          (add_count x)
  -- `count_.fetch_add(1)`
  count_added :
      {x : ℕ} → Move t (add_count x) (record t { count = (t.count + 1) % word_mod }) (add_sum x)
  -- `sum_ns_.fetch_add(ns)`
  sum_added :
      {x : ℕ} → Move t (add_sum x) (record t { sum_ns = (t.sum_ns + x) % word_mod }) (load_max x)
  -- `cur = max_ns_.load()`
  max_loaded : {x : ℕ} → Move t (load_max x) t (swap_max x t.max_ns)
  -- `ns > cur` is false
  max_kept : {x cur : ℕ} → x ≤ cur → Move t (swap_max x cur) t (load_min x)
  -- `ns > cur`, and the exchange succeeds
  max_swapped :
      {x cur : ℕ}
      → cur < x
      → t.max_ns ≡ cur
      → Move t (swap_max x cur) (record t { max_ns = x }) (load_min x)
  -- `ns > cur`, and the exchange fails and loads `cur` again
  max_missed : {x cur : ℕ} → cur < x → Move t (swap_max x cur) t (swap_max x t.max_ns)
  -- `cur = min_ns_.load()`
  min_loaded : {x : ℕ} → Move t (load_min x) t (swap_min x t.min_ns)
  -- `ns < cur` is false, and `record` returns
  min_kept : {x cur : ℕ} → cur ≤ x → Move t (swap_min x cur) t outside
  min_swapped :
      {x cur : ℕ}
      → x < cur
      → t.min_ns ≡ cur
      → Move t (swap_min x cur) (record t { min_ns = x }) outside
  min_missed : {x cur : ℕ} → x < cur → Move t (swap_min x cur) t (swap_min x t.min_ns)

-- The tracker, the place of each thread, and the arguments of the calls begun, the latest first.
pub record Recorders : Type 0 where
  pub tracker : LatencyTracker
  pub places : ℕ → Place
  pub calls : List ℤ

-- A step of one of the `n` threads: it calls `record` with an `int64_t`, or goes on in its call.
pub data Step (n : ℕ) (s : Recorders) : Recorders → Type 0 where
  call :
      (i : ℕ) (ns : ℤ)
      → i < n
      → s.places i ≡ outside
      → ((m : ℕ) → ns ≡ pos m → m < 2 ^ 63)
      → Step n s (record s { places = update s.places i (begun ns); calls = ns ∷ s.calls })
  move :
      (i : ℕ) {t : LatencyTracker} {p : Place}
      → i < n
      → Move s.tracker (s.places i) t p
      → Step n s (record s { tracker = t; places = update s.places i p })

-- A new tracker, with every thread outside.
abbrev pub no_calls : Recorders
no_calls = record { tracker = reset; places = λ i. outside; calls = [] }

pub data Reach (n : ℕ) : Recorders → Type 0 where
  start : Reach n no_calls
  later : {s u : Recorders} → Reach n s → Step n s u → Reach n u

-- One thread making the calls one after another, the latest first.
abbrev pub recorded : List ℤ → LatencyTracker
recorded [] = reset
recorded (ns ∷ calls) = record_sample (recorded calls) ns
