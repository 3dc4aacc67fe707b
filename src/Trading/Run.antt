-- ===== src/Trading/Run.antt =====
-- A run of the program by any schedule.
use trading_simulation.Prelude.{
  ℕ, ◌≡◌, refl, sym, ap, ◌∙◌, subst, List, [], ◌∷◌, ◌++◌, append-nil, append_assoc, true, arith,
}
use trading_simulation.Prelude.Int.{ℤ}
use trading_simulation.Double.{Double}
use trading_simulation.Order.{Order, Execution}
use trading_simulation.OrderBook.{
  OrderBook, Outcome, done, fault, out_of_fuel, accept_new_order, new_order_book,
}
use trading_simulation.OrderBook.Accept.{accept_new_order-Returns, new_order_book-IsValid}
use trading_simulation.SpscQueue.Refine.{new_queue-IsValid}
use trading_simulation.Dispatcher.{Tick, dispatch}
use trading_simulation.VolatilitySurface.{Surface}
use trading_simulation.ColdPath.Drain.{cycle-Passed}
use trading_simulation.Trading.{
  queue_capacity, Event, Trading, take_executions, report_at, step, run, begin, tick_in, order_in,
  pass, book_with, passed, and_then,
}
use trading_simulation.Trading.Execs.{LeftOut}
use trading_simulation.Trading.Log.{
  Accounts, take_ticks-Accounts, take_executions-Accounts, report_at-Accounts, cycle-Accounts,
}

-- The executions that a call of the order book reported.
abbrev pub reported_by : {D : Type 0} → Outcome (OrderBook D) → List (Execution D)
reported_by (done ob) = ob.emitted
reported_by fault = []
reported_by out_of_fuel = []

module _ (F : Double) (clock : ℕ → ℤ) (sqrt : F.Carrier → F.Carrier)
    (to_int64 : F.Carrier → ℤ) where
  abbrev pub log_step : Trading F → Event F.Carrier → List (Execution F.Carrier)
  log_step s (tick_in now t) = []
  log_step s (order_in order) = reported_by (accept_new_order F clock s.order_book order)
  log_step s (pass now) = []

  abbrev pub log_after :
      Outcome (Trading F) → (Trading F → List (Execution F.Carrier)) → List (Execution F.Carrier)
  log_after (done s) f = f s
  log_after fault f = []
  log_after out_of_fuel f = []

  -- What the order book reports in a run, in order.
  abbrev pub run_log : Trading F → List (Event F.Carrier) → List (Execution F.Carrier)
  run_log s [] = []
  run_log s (e ∷ es) =
      log_step s e ++ log_after (step F clock sqrt to_int64 s e) (λ s'. run_log s' es)

  -- A run that ends, with accounts that agree with what was reported.
  abbrev pub Runs : Outcome (Trading F) → List (Execution F.Carrier) → Type 0
  Runs out log = (s' : Trading F) × (out ≡ done s') × Accounts F s' log

  tick-Runs :
      (s : Trading F) (log : List (Execution F.Carrier)) (now : ℤ) (t : Tick F.Carrier)
      → Accounts F s log
      → Runs (step F clock sqrt to_int64 s (tick_in now t)) (log ++ [])
  unfolding step
  tick-Runs s log now t a = (
    _,
    refl,
    subst (Accounts F _) (sym (append-nil log))
        (take_ticks-Accounts F clock sqrt to_int64 now t s (dispatch s.dispatcher t) log a),
  )

  order-Runs :
      (s : Trading F) (log : List (Execution F.Carrier)) (order : Order F.Carrier)
      → Accounts F s log
      → Runs
          (step F clock sqrt to_int64 s (order_in order))
          (log ++ reported_by (accept_new_order F clock s.order_book order))
  unfolding step
  order-Runs s log order a =
      let (ob, e, v) = accept_new_order-Returns F clock s.order_book order a.book in
      (
        take_executions F clock sqrt to_int64 (record s { order_book = record ob { emitted = [] } })
            ob.emitted,
        ap (book_with F clock sqrt to_int64 s) e,
        subst
            (λ es.
              Accounts F
                (take_executions F clock sqrt to_int64
                  (record s { order_book = record ob { emitted = [] } }) ob.emitted)
                (log ++ es))
            (ap reported_by (sym e))
            (take_executions-Accounts F clock sqrt to_int64 s ob log ob.emitted a v),
      )

  pass-Runs :
      (s : Trading F) (log : List (Execution F.Carrier)) (now : ℤ)
      → Accounts F s log
      → Runs (step F clock sqrt to_int64 s (pass now)) (log ++ [])
  unfolding step
  pass-Runs s log now a =
      let (c, e, p) = cycle-Passed F s.cold a.ticks a.execs in
      (
        report_at F clock sqrt to_int64 now (record s { cold = c }),
        ap (passed F clock sqrt to_int64 now s) e,
        subst (Accounts F _) (sym (append-nil log)) (
            report_at-Accounts F clock sqrt to_int64 now (record s { cold = c }) log
              (cycle-Accounts F clock sqrt to_int64 s c log a p)),
      )

  pub step-Runs :
      (s : Trading F) (log : List (Execution F.Carrier)) (e : Event F.Carrier)
      → Accounts F s log
      → Runs (step F clock sqrt to_int64 s e) (log ++ log_step s e)
  step-Runs s log (tick_in now t) a = tick-Runs s log now t a
  step-Runs s log (order_in order) a = order-Runs s log order a
  step-Runs s log (pass now) a = pass-Runs s log now a

  run-Runs :
      (s : Trading F) (log : List (Execution F.Carrier)) (es : List (Event F.Carrier))
      → Accounts F s log
      → Runs (run F clock sqrt to_int64 s es) (log ++ run_log s es)
  unfolding run
  run-Runs s log [] a = (s, refl, subst (Accounts F s) (sym (append-nil log)) a)
  run-Runs s log (e ∷ es) a =
      let (s', f, a') = step-Runs s log e a in
      let (s'', g, a'') = run-Runs s' (log ++ log_step s e) es a' in
      (
        s'',
        ap (λ o. and_then F clock sqrt to_int64 o (λ t. run F clock sqrt to_int64 t es)) f ∙ g,
        subst (Accounts F s'')
            (append_assoc log (log_step s e) (run_log s' es)
              ∙ ap (λ o. log ++ (log_step s e ++ log_after o (λ t. run_log t es))) (sym f))
            a'',
      )

  pub begin-Accounts :
      (z : F.Carrier) (no_tick : Tick F.Carrier) (no_execution : Execution F.Carrier)
      (surface : Surface F.Carrier) (now : ℤ)
      → Accounts F (begin F clock sqrt to_int64 z no_tick no_execution surface now) []
  unfolding begin new_order_book
  begin-Accounts z no_tick no_execution surface now =
      let (ticks, no_ticks) =
        new_queue-IsValid queue_capacity no_tick (omega arith) (omega arith) in
      let (execs, no_execs) =
        new_queue-IsValid queue_capacity no_execution (omega arith) (omega arith) in
      record {
        book = new_order_book-IsValid z true;
        nothing_left = refl;
        ticks = ticks;
        execs = execs;
        taken = [];
        left_out = 0;
        split = subst (λ xs. LeftOut [] xs 0) (sym no_execs) LeftOut.nil;
        counted = refl;
        positions = refl;
      }

  -- From the start, by any schedule of datagrams, orders and passes of the main loop, the program comes to
  -- the end of the schedule, with its invariants, and accounts for every execution that the order book
  -- reported: each is booked into the positions in the order of the report, or waits in the queue behind
  -- those, or is one of those that the counter of dropped executions counts.
  pub run-Accounts :
      (z : F.Carrier) (no_tick : Tick F.Carrier) (no_execution : Execution F.Carrier)
      (surface : Surface F.Carrier) (now : ℤ) (es : List (Event F.Carrier))
      → (s' : Trading F) × (run F clock sqrt to_int64
            (begin F clock sqrt to_int64 z no_tick no_execution surface now)
            es
          ≡ done s')
        × Accounts F s'
            (run_log (begin F clock sqrt to_int64 z no_tick no_execution surface now) es)
  run-Accounts z no_tick no_execution surface now es =
      run-Runs (begin F clock sqrt to_int64 z no_tick no_execution surface now) [] es
        (begin-Accounts z no_tick no_execution surface now)
