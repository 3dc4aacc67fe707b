-- ===== src/Trading.antt =====
-- The whole program of src/main.cpp: the two hot threads, the main loop and what they share. A schedule
-- is a list of events, each of them a piece of one thread's work: a datagram's tick with the clock's
-- reading, an order of the file, or a pass of the main loop with the clock's reading at its end. The
-- interleaving inside a piece is that of `SpscQueue.Threads`.
pub mod Execs
pub mod Log
pub mod Run
pub mod Schedule
pub mod Startup
use trading_simulation.Prelude.{
  ℕ, zero, suc, List, [], ◌∷◌, ◌++◌, Option, none, some, Bool, true, false, if◌then◌else◌,
  fold_list,
}
use trading_simulation.Prelude.Int.{ℤ, pos}
use trading_simulation.Prelude.Text.{codes}
use trading_simulation.Double.{Double}
use trading_simulation.Order.{Order, Execution}
use trading_simulation.OrderBook.{
  OrderBook, Outcome, done, fault, out_of_fuel, accept_new_order, new_order_book,
}
use trading_simulation.SpscQueue.{SpscQueue, new_queue}
use trading_simulation.LatencyTracker.{LatencyTracker, reset}
use trading_simulation.Dispatcher.{Tick, Dispatcher, subscribe, dispatch}
use trading_simulation.VolatilitySurface.{Surface}
use trading_simulation.ColdPath.{ColdPath, tick_callback, exec_callback, cycle}
use trading_simulation.Dashboard.{report_due, Dashboard, dashboard}

-- The six subscriptions; the only callback is `tickCallback`.
unfoldable pub subscriptions : Dispatcher (Unit {0})
subscriptions =
    let d0 : Dispatcher (Unit {0}) = λ key. none in
    let d1 = subscribe d0 (codes "AAPL") tt in
    let d2 = subscribe d1 (codes "MSFT") tt in
    let d3 = subscribe d2 (codes "GOOGL") tt in
    let d4 = subscribe d3 (codes "TSLA") tt in
    let d5 = subscribe d4 (codes "ESZ4") tt in subscribe d5 (codes "GBPUSD") tt

abbrev pub queue_capacity : ℕ
queue_capacity = 100_000

pub data Event (D : Type 0) : Type 0 where
  tick_in : ℤ → Tick D → Event D
  order_in : Order D → Event D
  pass : ℤ → Event D

pub record Trading (F : Double) : Type 0 where
  pub order_book : OrderBook F.Carrier
  pub dispatcher : Dispatcher (Unit {0})
  pub tick_latency : LatencyTracker
  pub dropped_ticks : ℕ
  pub dropped_execs : ℕ
  pub cold : ColdPath F.Carrier
  pub surface : Surface F.Carrier
  pub last_report : ℤ
  pub printed : List (Dashboard F)

module _ (F : Double) (clock : ℕ → ℤ) (sqrt : F.Carrier → F.Carrier)
    (to_int64 : F.Carrier → ℤ) where
  open F use {Carrier as D}

  -- One call of the tick callback.
  unfoldable pub take_tick : ℤ → Tick D → Trading F → Unit {0} → Trading F
  take_tick now t s u =
      let (tracker, q, dropped) =
        tick_callback now (s.tick_latency, s.cold.tick_queue, s.dropped_ticks) t in
      record s {
        tick_latency = tracker;
        dropped_ticks = dropped;
        cold = record (s.cold) { tick_queue = q };
      }

  -- The executions that a call reports go to the execution callback, in order.
  unfoldable pub take_executions : Trading F → List (Execution D) → Trading F
  take_executions s es =
      let (q, dropped) = fold_list exec_callback (s.cold.exec_queue, s.dropped_execs) es in
      record s { dropped_execs = dropped; cold = record (s.cold) { exec_queue = q } }

  abbrev pub book_with : Trading F → Outcome (OrderBook D) → Outcome (Trading F)
  book_with s fault = fault
  book_with s out_of_fuel = out_of_fuel
  book_with s (done ob) =
      done (take_executions (record s { order_book = record ob { emitted = [] } }) ob.emitted)

  -- The report, where it is due: it resets the two trackers and the two depths.
  unfoldable pub report_at : ℤ → Trading F → Trading F
  report_at now s =
      if report_due now s.last_report
      then record s {
        printed =
            s.printed
            ++ dashboard F sqrt to_int64 s.surface s.tick_latency s.dropped_ticks s.dropped_execs
                s.cold
              ∷ [];
        tick_latency = reset;
        cold = record (s.cold) {
          match_latency = reset;
          max_tick_queue_depth = 0;
          max_exec_queue_depth = 0;
        };
        last_report = now;
      }
      else s

  abbrev pub passed : ℤ → Trading F → Option (ColdPath D) → Outcome (Trading F)
  passed now s none = out_of_fuel
  passed now s (some c) = done (report_at now (record s { cold = c }))

  unfoldable pub step : Trading F → Event D → Outcome (Trading F)
  step s (tick_in now t) = done (fold_list (take_tick now t) s (dispatch s.dispatcher t))
  step s (order_in order) = book_with s (accept_new_order F clock s.order_book order)
  step s (pass now) = passed now s (cycle F s.cold)

  abbrev pub and_then :
      Outcome (Trading F) → (Trading F → Outcome (Trading F)) → Outcome (Trading F)
  and_then (done s) f = f s
  and_then fault f = fault
  and_then out_of_fuel f = out_of_fuel

  unfoldable pub run : Trading F → List (Event D) → Outcome (Trading F)
  run s [] = done s
  run s (e ∷ es) = and_then (step s e) (λ s'. run s' es)

  -- The start of `main`: a tick and an execution fill the slots of the two queues.
  unfoldable pub begin : D → Tick D → Execution D → Surface D → ℤ → Trading F
  begin z no_tick no_execution surface now = record {
    order_book = new_order_book z true;
    dispatcher = subscriptions;
    tick_latency = reset;
    dropped_ticks = 0;
    dropped_execs = 0;
    cold = record {
      tick_queue = new_queue queue_capacity no_tick;
      exec_queue = new_queue queue_capacity no_execution;
      prices = [];
      match_latency = reset;
      positions = [];
      total_drain_cycles = 0;
      max_tick_batch = 0;
      max_exec_batch = 0;
      max_tick_queue_depth = 0;
      max_exec_queue_depth = 0;
      spin = 0;
    };
    surface = surface;
    last_report = now;
    printed = [];
  }
