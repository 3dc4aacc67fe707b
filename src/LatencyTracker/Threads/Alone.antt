-- ===== src/LatencyTracker/Threads/Alone.antt =====
-- A thread that the others leave alone for seven steps comes out of `record`.
use trading_simulation.Prelude.{
  ℕ, zero, suc, ◌+◌, ◌%◌, ◌≡◌, ◌≢◌, ◌⊎◌, inl, inr, refl, ap, ◌∙◌, ltb, ◌==◌, if◌then◌else◌, update,
  true, ==_iff, ltb-false, lt→ltb, lt-cases, ==_refl, ==_ne, ℕ-cases,
}
use trading_simulation.Word64.{word_mod}
use trading_simulation.LatencyTracker.{LatencyTracker, bucket_of}
use trading_simulation.LatencyTracker.Threads.{
  Place, Move, outside, add_bucket, add_count, add_sum, load_max, swap_max, load_min, swap_min,
}

-- The thread's next step, where an exchange fails only if it finds another value than it expects.
abbrev pub advance : LatencyTracker → Place → LatencyTracker × Place
advance t outside = (t, outside)
advance t (add_bucket x) = (
  record t { buckets = update t.buckets (bucket_of x) ((t.buckets (bucket_of x) + 1) % word_mod) },
  add_count x,
)
advance t (add_count x) = (record t { count = (t.count + 1) % word_mod }, add_sum x)
advance t (add_sum x) = (record t { sum_ns = (t.sum_ns + x) % word_mod }, load_max x)
advance t (load_max x) = (t, swap_max x t.max_ns)
advance t (swap_max x cur) =
    if ltb cur x
    then if t.max_ns == cur then (record t { max_ns = x }, load_min x) else (t, swap_max x t.max_ns)
    else (t, load_min x)
advance t (load_min x) = (t, swap_min x t.min_ns)
advance t (swap_min x cur) =
    if ltb x cur
    then if t.min_ns == cur then (record t { min_ns = x }, outside) else (t, swap_min x t.min_ns)
    else (t, outside)

abbrev pub advanced : ℕ → LatencyTracker × Place → LatencyTracker × Place
advanced zero s = s
advanced (suc k) s = advanced k (advance s.0 s.1)

==_at : (a b : ℕ) → a ≡ b → (a == b) ≡ true
==_at a b e = (==_iff a b).1 e

-- `advance` is a step of the thread.
pub advance-Move :
    (t : LatencyTracker) (p : Place) → p ≢ outside → Move t p (advance t p).0 (advance t p).1
advance-Move t outside n = absurd (n refl)
advance-Move t (add_bucket x) n = Move.bucket_added
advance-Move t (add_count x) n = Move.count_added
advance-Move t (add_sum x) n = Move.sum_added
advance-Move t (load_max x) n = Move.max_loaded
advance-Move t (swap_max x cur) n = elim (lt-cases cur x) [
  | inl l ↦ elim (ℕ-cases t.max_ns cur) [
    | inl e ↦ rw (lt→ltb cur x l, ==_at t.max_ns cur e) (Move.max_swapped l e)
    | inr d ↦ rw (lt→ltb cur x l, ==_ne t.max_ns cur d) (Move.max_missed l)
  ]
  | inr l ↦ rw (ltb-false cur x l) (Move.max_kept l)
]
advance-Move t (load_min x) n = Move.min_loaded
advance-Move t (swap_min x cur) n = elim (lt-cases x cur) [
  | inl l ↦ elim (ℕ-cases t.min_ns cur) [
    | inl e ↦ rw (lt→ltb x cur l, ==_at t.min_ns cur e) (Move.min_swapped l e)
    | inr d ↦ rw (lt→ltb x cur l, ==_ne t.min_ns cur d) (Move.min_missed l)
  ]
  | inr l ↦ rw (ltb-false x cur l) (Move.min_kept l)
]

stays : (k : ℕ) (t : LatencyTracker) → (advanced k (t, outside)).1 ≡ outside
stays zero t = refl
stays (suc k) t = stays k t

-- A turn of either loop, where `cur` is what the thread has just loaded, leads out of the loop.
min_turn :
    (t : LatencyTracker) (x : ℕ)
    → (t' : LatencyTracker) × (advance t (swap_min x t.min_ns) ≡ (t', outside))
min_turn t x = elim (lt-cases x t.min_ns) [
  | inl l ↦ (record t { min_ns = x }, rw (lt→ltb x t.min_ns l, ==_refl t.min_ns) refl)
  | inr l ↦ (t, rw (ltb-false x t.min_ns l) refl)
]

max_turn :
    (t : LatencyTracker) (x : ℕ)
    → (t' : LatencyTracker) × (advance t (swap_max x t.max_ns) ≡ (t', load_min x))
max_turn t x = elim (lt-cases t.max_ns x) [
  | inl l ↦ (record t { max_ns = x }, rw (lt→ltb t.max_ns x l, ==_refl t.max_ns) refl)
  | inr l ↦ (t, rw (ltb-false t.max_ns x l) refl)
]

-- With any other `cur` there may be one turn more.
min_first :
    (t : LatencyTracker) (x cur : ℕ)
    → ((t' : LatencyTracker) × (advance t (swap_min x cur) ≡ (t', outside)))
      ⊎ (advance t (swap_min x cur) ≡ (t, swap_min x t.min_ns))
min_first t x cur = elim (lt-cases x cur) [
  | inl l ↦ elim (ℕ-cases t.min_ns cur) [
    | inl e ↦ inl (record t { min_ns = x }, rw (lt→ltb x cur l, ==_at t.min_ns cur e) refl)
    | inr d ↦ inr (rw (lt→ltb x cur l, ==_ne t.min_ns cur d) refl)
  ]
  | inr l ↦ inl (t, rw (ltb-false x cur l) refl)
]

max_first :
    (t : LatencyTracker) (x cur : ℕ)
    → ((t' : LatencyTracker) × (advance t (swap_max x cur) ≡ (t', load_min x)))
      ⊎ (advance t (swap_max x cur) ≡ (t, swap_max x t.max_ns))
max_first t x cur = elim (lt-cases cur x) [
  | inl l ↦ elim (ℕ-cases t.max_ns cur) [
    | inl e ↦ inl (record t { max_ns = x }, rw (lt→ltb cur x l, ==_at t.max_ns cur e) refl)
    | inr d ↦ inr (rw (lt→ltb cur x l, ==_ne t.max_ns cur d) refl)
  ]
  | inr l ↦ inl (t, rw (ltb-false cur x l) refl)
]

-- From `k + 1` steps on, where the first leads to `s`, `k` steps from `s` lead to the same place.
after :
    (k : ℕ) (t : LatencyTracker) (p : Place) (s : LatencyTracker × Place)
    → advance t p ≡ s
    → (advanced k s).1 ≡ outside
    → (advanced (suc k) (t, p)).1 ≡ outside
after k t p s e h = ap (λ r. (advanced k r).1) e ∙ h

leaves_min_turn :
    (k : ℕ) (t : LatencyTracker) (x : ℕ) → (advanced (suc k) (t, swap_min x t.min_ns)).1 ≡ outside
leaves_min_turn k t x =
    let (t', e) = min_turn t x in after k t (swap_min x t.min_ns) (t', outside) e (stays k t')

leaves_load_min :
    (k : ℕ) (t : LatencyTracker) (x : ℕ) → (advanced (suc (suc k)) (t, load_min x)).1 ≡ outside
leaves_load_min k t x = leaves_min_turn k t x

leaves_min :
    (k : ℕ) (t : LatencyTracker) (x cur : ℕ)
    → (advanced (suc (suc k)) (t, swap_min x cur)).1 ≡ outside
leaves_min k t x cur = elim (min_first t x cur) [
  | inl (t', e) ↦ after (suc k) t (swap_min x cur) (t', outside) e (stays (suc k) t')
  | inr e ↦ after (suc k) t (swap_min x cur) (t, swap_min x t.min_ns) e (leaves_min_turn k t x)
]

leaves_max_turn :
    (k : ℕ) (t : LatencyTracker) (x : ℕ)
    → (advanced (suc (suc (suc k))) (t, swap_max x t.max_ns)).1 ≡ outside
leaves_max_turn k t x =
    let (t', e) = max_turn t x in
    after (suc (suc k)) t (swap_max x t.max_ns) (t', load_min x) e (leaves_load_min k t' x)

leaves_max :
    (k : ℕ) (t : LatencyTracker) (x cur : ℕ)
    → (advanced (suc (suc (suc (suc k)))) (t, swap_max x cur)).1 ≡ outside
leaves_max k t x cur = elim (max_first t x cur) [
  | inl (t', e) ↦
      after (suc (suc (suc k))) t (swap_max x cur) (t', load_min x) e (leaves_load_min (suc k) t' x)
  | inr e ↦
      after (suc (suc (suc k))) t (swap_max x cur) (t, swap_max x t.max_ns) e
        (leaves_max_turn k t x)
]

-- Wherever a thread is in `record`, and whatever it has loaded before, seven steps of its own with no
-- other thread's between them and no exchange failing without cause bring it out: neither loop goes on
-- without end.
pub advanced-outside : (t : LatencyTracker) (p : Place) → (advanced 7 (t, p)).1 ≡ outside
advanced-outside t outside = stays 7 t
advanced-outside t (add_bucket x) = leaves_max_turn 0 _ x
advanced-outside t (add_count x) = leaves_max_turn 1 _ x
advanced-outside t (add_sum x) = leaves_max_turn 2 _ x
advanced-outside t (load_max x) = leaves_max_turn 3 t x
advanced-outside t (swap_max x cur) = leaves_max 3 t x cur
advanced-outside t (load_min x) = leaves_load_min 5 t x
advanced-outside t (swap_min x cur) = leaves_min 5 t x cur
