-- ===== src/Tests/Concurrent.antt =====
-- The theorems on the threads of the tracker and of the feed, each at a concrete input.
use trading_simulation.Prelude.{
  ℕ, zero, suc, ◌+◌, ◌≤◌, ◌<◌, ◌≡◌, refl, List, [], ◌∷◌, true, false, ap, arith, replicate, ◌^◌,
}
use trading_simulation.Prelude.Int.{pos, pos_part}
use trading_simulation.LatencyTracker.{reset}
use trading_simulation.LatencyTracker.Threads.{
  Recorders, Step, Reach, start, later, call, move, recorded, outside, swap_max, bucket_added,
  count_added, sum_added, max_loaded, max_swapped, max_missed, min_loaded, min_swapped, min_missed,
  min_kept, max_kept,
}
use trading_simulation.LatencyTracker.Threads.Agree.{IsQuiet, Reach-recorded}
use trading_simulation.LatencyTracker.Threads.Alone.{advanced, advanced-outside}
use trading_simulation.Feed.Threads.Stop.{own_steps, Goes, stopped_ends}
use trading_simulation.Feed.Threads.{
  IsAccounted, Reaches-IsAccounted, Subscriber, Reaches, here, more, new_subscriber, socket_made,
  socket_bound, flag_set, goes_on, received, stopped, dispatch_tick, leaves,
}

-- What a new tracker's maximum and minimum say of the two samples.
max_ns-reset : (reset.max_ns < 5) × (reset.max_ns < 9)
unfolding reset
max_ns-reset = (omega arith, omega arith)

min_ns-reset : (5 < reset.min_ns) × (9 < reset.min_ns)
unfolding reset
min_ns-reset = (omega arith, omega arith)

zero_in : 0 < 2
zero_in = omega arith

one_in : 1 < 2
one_in = omega arith

five_le : 5 ≤ 9
five_le = omega arith

int64_five : (m : ℕ) → pos 5 ≡ pos m → m < 2 ^ 63
int64_five m e = ground (arith, ap pos_part e)

int64_nine : (m : ℕ) → pos 9 ≡ pos m → m < 2 ^ 63
int64_nine m e = ground (arith, ap pos_part e)

-- Some number of threads, and a state that they reach.
abbrev Reached : Type 0
Reached = (s : Recorders) × Reach 2 s

abbrev two_calls : Reached
two_calls = (
  _,
  later (later start (call 0 (pos 5) zero_in refl int64_five))
      (call 1 (pos 9) one_in refl int64_nine),
)

-- One step more.
abbrev and_then : {t : Recorders} (r : Reached) → Step 2 r.0 t → Reached
and_then {t} (s, r) st = (t, later r st)

-- The second thread's exchange for the maximum comes between the load and the exchange of the first,
-- which fails, and its exchange for the minimum fails in turn.
abbrev finished : Reached
finished =
    let r0 = two_calls in
    let r1 = and_then r0 (move 0 zero_in bucket_added) in
    let r2 = and_then r1 (move 0 zero_in count_added) in
    let r3 = and_then r2 (move 0 zero_in sum_added) in
    let r4 = and_then r3 (move 0 zero_in max_loaded) in
    let r5 = and_then r4 (move 1 one_in bucket_added) in
    let r6 = and_then r5 (move 1 one_in count_added) in
    let r7 = and_then r6 (move 1 one_in sum_added) in
    let r8 = and_then r7 (move 1 one_in max_loaded) in
    let r9 = and_then r8 (move 1 one_in (max_swapped max_ns-reset.1 refl)) in
    let r10 = and_then r9 (move 0 zero_in (max_missed max_ns-reset.0)) in
    let r11 = and_then r10 (move 0 zero_in (max_kept five_le)) in
    let r12 = and_then r11 (move 0 zero_in min_loaded) in
    let r13 = and_then r12 (move 1 one_in min_loaded) in
    let r14 = and_then r13 (move 0 zero_in (min_swapped min_ns-reset.0 refl)) in
    let r15 = and_then r14 (move 1 one_in (min_missed min_ns-reset.1)) in
    let r16 = and_then r15 (move 1 one_in (min_kept five_le)) in r16

finished-IsQuiet : IsQuiet 2 finished.0
finished-IsQuiet zero l = refl
finished-IsQuiet (suc zero) l = refl
finished-IsQuiet (suc (suc n)) l = absurd (omega (arith, l))

Reach-recorded_example : finished.0.tracker ≡ recorded (pos 9 ∷ pos 5 ∷ [])
Reach-recorded_example = Reach-recorded 2 finished.0 finished.1 finished-IsQuiet

-- What the two calls leave, computed.
finished-tracker : (finished.0.tracker.max_ns ≡ 9) × (finished.0.tracker.min_ns ≡ 5)
finished-tracker = (refl, refl)

advanced-outside_example : (advanced 7 (reset, swap_max 5 3)).1 ≡ outside
advanced-outside_example = advanced-outside reset (swap_max 5 3)

-- The flag is set, a datagram comes, and `stop` is called before it is dispatched.
abbrev whole : List ℕ
whole = replicate 40 65

abbrev stopping : (s : Subscriber) × Reaches new_subscriber s
stopping = (
  _,
  more
      (more
        (more (more (more (more here (socket_made refl)) (socket_bound refl)) (flag_set refl))
          (goes_on refl refl))
        (received whole refl refl))
      stopped,
)

abbrev drained : (s : Subscriber) × Reaches stopping.0 s
drained = (_, more (more here (dispatch_tick whole refl)) (leaves refl refl))

Reaches-IsAccounted_example : IsAccounted stopping.0
Reaches-IsAccounted_example = Reaches-IsAccounted stopping.0 stopping.1

stopped_ends_example :
    (drained.0.running ≡ false) × (1 ≤ 0 + 1) × (own_steps drained.1 ≤ 4) × Goes drained.0
stopped_ends_example = stopped_ends stopping.0 drained.0 drained.1 refl tt

-- A `stop` before the thread has set the flag is lost.
stop_lost : (s : Subscriber) × Reaches new_subscriber s × (s.running ≡ true)
stop_lost = (
  _,
  more (more (more (more here stopped) (socket_made refl)) (socket_bound refl)) (flag_set refl),
  refl,
)
