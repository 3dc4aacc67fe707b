-- ===== src/ColdPath.antt =====
-- The callbacks and the main loop of src/main.cpp, without what they print. A drain runs with the
-- queue as it finds it; the producers' steps beside it are those of `SpscQueue.Threads`. `sleep_for`
-- and `CPU_PAUSE` do nothing to the state.
pub mod Drain
use trading_simulation.Prelude.{
  ℕ, zero, suc, ◌+◌, ◌%◌, ◌||◌, List, [], ◌∷◌, Option, none, some, Bool, true, false, ltb, ◌==◌,
  if◌then◌else◌,
}
use trading_simulation.Prelude.Int.{ℤ, ◌-ℤ◌}
use trading_simulation.Word64.{word_mod}
use trading_simulation.Double.{Double}
use trading_simulation.Order.{Execution}
use trading_simulation.SpscQueue
use trading_simulation.SpscQueue.{SpscQueue}
use trading_simulation.LatencyTracker.{LatencyTracker, record_sample}
use trading_simulation.PositionManager.{Positions, on_execution}
use trading_simulation.Dispatcher.{Tick}
use trading_simulation.RiskEngine.{on_tick}

-- `tickCallback`: the latency of the tick, and the push, whose failure is counted.
unfoldable pub tick_callback :
    {D : Type 0}
    → ℤ
    → LatencyTracker × SpscQueue (Tick D) × ℕ
    → Tick D
    → LatencyTracker × SpscQueue (Tick D) × ℕ
tick_callback now (tracker, q, dropped) t =
    let (ok, q') = SpscQueue.push q t in
    (
      record_sample tracker (now -ℤ t.timestamp_ns),
      q',
      if ok then dropped else (dropped + 1) % word_mod,
    )

-- The execution callback.
unfoldable pub exec_callback :
    {D : Type 0} → SpscQueue (Execution D) × ℕ → Execution D → SpscQueue (Execution D) × ℕ
exec_callback (q, dropped) e =
    let (ok, q') = SpscQueue.push q e in (q', if ok then dropped else (dropped + 1) % word_mod)

-- `while (queue.pop(item)) { …; ++batch; }`, with fuel; `f` is the work on an item.
unfoldable pub drain :
    {A S : Type 0} → (S → A → S) → ℕ → SpscQueue A → S → ℕ → Option (SpscQueue A × S × ℕ)
drain f zero q s batch = none
drain f (suc fuel) q s batch =
    let (item, q') = SpscQueue.pop q in
    elim item [
      | none ↦ some (q', s, batch)
      | some a ↦ drain f fuel q' (f s a) ((batch + 1) % word_mod)
    ]

-- What the thread owns, and the two queues.
pub record ColdPath (D : Type 0) : Type 0 where
  pub tick_queue : SpscQueue (Tick D)
  pub exec_queue : SpscQueue (Execution D)
  pub prices : List (List ℕ × D)
  pub match_latency : LatencyTracker
  pub positions : Positions D
  pub total_drain_cycles : ℕ
  pub max_tick_batch : ℕ
  pub max_exec_batch : ℕ
  pub max_tick_queue_depth : ℕ
  pub max_exec_queue_depth : ℕ
  pub spin : ℕ

-- `if (value > best) best = value;`
abbrev pub raise : ℕ → ℕ → ℕ
raise best value = if ltb best value then value else best

abbrev pub spin_max : ℕ
spin_max = 500

-- The adaptive spin.
abbrev pub next_spin : Bool → ℕ → ℕ
next_spin did_work spin = if did_work then 0 else if ltb spin spin_max then suc spin else 0

module _ (F : Double) where
  open F use {Carrier as D}

  unfoldable pub take_execution :
      LatencyTracker × Positions D → Execution D → LatencyTracker × Positions D
  take_execution (tracker, ps) e =
      (record_sample tracker (e.arrival_ns -ℤ e.order_arrival_ns), on_execution F ps e)

  -- The state after both drains.
  unfoldable pub drained :
      ColdPath D
      → SpscQueue (Tick D) × List (List ℕ × D) × ℕ
      → SpscQueue (Execution D) × (LatencyTracker × Positions D) × ℕ
      → ColdPath D
  drained c (ticks, prices, tick_batch) (execs, (tracker, ps), exec_batch) = record {
    tick_queue = ticks;
    exec_queue = execs;
    prices = prices;
    match_latency = tracker;
    positions = ps;
    total_drain_cycles = (c.total_drain_cycles + 1) % word_mod;
    max_tick_batch = raise c.max_tick_batch tick_batch;
    max_exec_batch = raise c.max_exec_batch exec_batch;
    max_tick_queue_depth = raise c.max_tick_queue_depth (SpscQueue.size c.tick_queue);
    max_exec_queue_depth = raise c.max_exec_queue_depth (SpscQueue.size c.exec_queue);
    spin = next_spin (ltb 0 tick_batch || ltb 0 exec_batch) c.spin;
  }

  -- One pass of the main loop, each drain with as many rounds as its queue has slots.
  unfoldable pub cycle : ColdPath D → Option (ColdPath D)
  cycle c = elim (drain (on_tick F) c.tick_queue.capacity c.tick_queue c.prices 0) [
    | none ↦ none
    | some ticks ↦
        (elim (drain take_execution c.exec_queue.capacity c.exec_queue
          (c.match_latency, c.positions) 0) [
            | none ↦ none
            | some execs ↦ some (drained c ticks execs)
          ])
  ]
