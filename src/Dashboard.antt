-- ===== src/Dashboard.antt =====
-- What src/main.cpp reports: the snapshot for the metrics server, the dashboard that is printed every
-- five seconds, and the lines of the final report. A report is the numbers that it shows.
use trading_simulation.Prelude.{ℕ, ◌/◌, ◌^◌, List, [], ◌∷◌, Option, Bool, leb}
use trading_simulation.Prelude.Int.{ℤ, pos, pos_part, ◌-ℤ◌}
use trading_simulation.Double.{Double}
use trading_simulation.SpscQueue
use trading_simulation.SpscQueue.{SpscQueue}
use trading_simulation.LatencyTracker.{LatencyTracker, percentile, Report, report}
use trading_simulation.PositionManager.{Position, Positions}
use trading_simulation.VolatilitySurface.{Surface}
use trading_simulation.RiskEngine.{Line, run_report, compute_var}
use trading_simulation.ColdPath.{ColdPath}
use trading_simulation.MetricsServer.{MetricsSnapshot}

-- `duration_cast<seconds>(now - last).count() >= 5`, in nanoseconds; a difference below 0 is not.
abbrev pub report_due : ℤ → ℤ → Bool
report_due now last = leb 5 (pos_part (now -ℤ last) / 10 ^ 9)

module _ (F : Double) where
  open F use {Carrier as D, decimal, of_int, mul, div}

  -- The lambda that the metrics server calls: the tracker of the ticks and the counters of dropped
  -- items belong to the hot threads.
  unfoldable pub snapshot : LatencyTracker → ℕ → ℕ → ColdPath D → MetricsSnapshot
  snapshot ticks dropped_ticks dropped_execs c = record {
    tick_p50 = percentile F ticks (decimal 50 0);
    tick_p99 = percentile F ticks (decimal 99 0);
    tick_p999 = percentile F ticks (decimal 999 1);
    tick_max = pos ticks.max_ns;
    tick_count = ticks.count;
    match_p50 = percentile F c.match_latency (decimal 50 0);
    match_p99 = percentile F c.match_latency (decimal 99 0);
    match_p999 = percentile F c.match_latency (decimal 999 1);
    match_max = pos c.match_latency.max_ns;
    match_count = c.match_latency.count;
    dropped_ticks = dropped_ticks;
    dropped_execs = dropped_execs;
    tick_queue_depth = SpscQueue.size c.tick_queue;
    exec_queue_depth = SpscQueue.size c.exec_queue;
    tick_queue_capacity = c.tick_queue.capacity;
    exec_queue_capacity = c.exec_queue.capacity;
  }

  pub record Dashboard : Type 0 where
    pub tick_report : Report F
    pub match_report : Report F
    pub tick_fill : D
    pub exec_fill : D
    pub max_tick_queue_depth : ℕ
    pub max_exec_queue_depth : ℕ
    pub dropped_ticks : ℕ
    pub dropped_execs : ℕ
    pub cycles : ℕ
    pub max_tick_batch : ℕ
    pub max_exec_batch : ℕ
    pub lines : List (Line F)
    pub var : Option D

  -- `100.0 * depth / capacity`
  abbrev pub fill_of : ℕ → ℕ → D
  fill_of depth capacity = div (mul (decimal 100 0) (of_int (pos depth))) (of_int (pos capacity))

  unfoldable pub dashboard :
      (D → D) → (D → ℤ) → Surface D → LatencyTracker → ℕ → ℕ → ColdPath D → Dashboard
  dashboard sqrt to_int64 surface ticks dropped_ticks dropped_execs c = record {
    tick_report = report F to_int64 ticks;
    match_report = report F to_int64 c.match_latency;
    tick_fill = fill_of c.max_tick_queue_depth c.tick_queue.capacity;
    exec_fill = fill_of c.max_exec_queue_depth c.exec_queue.capacity;
    max_tick_queue_depth = c.max_tick_queue_depth;
    max_exec_queue_depth = c.max_exec_queue_depth;
    dropped_ticks = dropped_ticks;
    dropped_execs = dropped_execs;
    cycles = c.total_drain_cycles;
    max_tick_batch = c.max_tick_batch;
    max_exec_batch = c.max_exec_batch;
    lines = run_report F c.prices c.positions;
    var = compute_var F sqrt surface c.prices c.positions;
  }

  -- A line of `final_pnl_report.txt`: symbol, quantity, average price, realised profit.
  abbrev pub final_line : List ℕ × Position D → List ℕ × D × D × D
  final_line (symbol, p) = (symbol, p.quantity, p.average_entry_price, p.realised_pnl)

  -- The lines stand in the order of the list; the source's map has no order that a reader may rely on.
  unfoldable pub final_report : Positions D → List (List ℕ × D × D × D)
  final_report [] = []
  final_report (e ∷ ps) = final_line e ∷ final_report ps
