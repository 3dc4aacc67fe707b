-- ===== src/Trading/Startup.antt =====
-- `main` from its start to its end (src/main.cpp): the two files that it loads, whose exceptions nothing
-- catches, the run up to the handler of SIGINT, the stopping and joining of the threads, and the report at
-- the end. The events of the run are a schedule, those of the threads up to their end included; behind its
-- last pass the loop reads the flag as off. Whether a wait for a thread ends is a parameter: a `recvfrom`
-- on a quiet socket does not return.
use trading_simulation.Prelude.{
  ℕ, ◌%◌, ◌≡◌, ap, ◌∙◌, subst, List, [], ◌++◌, Option, Bool, true, ◌&&◌, if◌then◌else◌,
}
use trading_simulation.Word64.{word_mod}
use trading_simulation.Prelude.Int.{ℤ}
use trading_simulation.Double.{Double}
use trading_simulation.Order.{Execution}
use trading_simulation.OrderBook.{OrderBook, Outcome, done, fault, out_of_fuel, new_order_book}
use trading_simulation.OrderBook.Serial.{accept_all}
use trading_simulation.Result.{Exception, Result, ok, throw, out_of_range}
use trading_simulation.InstrumentStore.{load_from_csv}
use trading_simulation.VolatilitySurface.{Surface, load_surface}
use trading_simulation.SpscQueue.Refine.{contents}
use trading_simulation.Dispatcher.{Tick}
use trading_simulation.Dashboard.{final_report}
use trading_simulation.Trading.{Trading, Event, begin, run}
use trading_simulation.Trading.Execs.{LeftOut}
use trading_simulation.Trading.Log.{booked}
use trading_simulation.Trading.Run.{run-Accounts}
use trading_simulation.Trading.Schedule.{orders_of, run-accept_all}

-- Which of the waits behind the loop end: that of `metricsServer.stop` for the accept thread, that for the
-- thread of the feed behind `subscriber.stop`, which does not wait, and that for the thread of the orders.
pub record Joins : Type 0 where
  pub server_stops : Bool
  pub udp_joins : Bool
  pub execution_joins : Bool

abbrev pub all_join : Joins → Bool
all_join j = j.server_stops && j.udp_joins && j.execution_joins

-- How `main` ends: an exception that nothing catches, a read outside a vector, a run that does not end
-- well, a wait for a thread that does not end, or with the lines of the report.
pub data Ending (L : Type 0) : Type 0 where
  uncaught : Exception → Ending L
  undefined : Ending L
  broken : Ending L
  stuck : Ending L
  finished : List L → Ending L

module _ (F : Double) (clock : ℕ → ℤ) (sqrt : F.Carrier → F.Carrier) (to_int64 : F.Carrier → ℤ)
    (stod : List ℕ → Option F.Carrier) (stoi : List ℕ → Option ℤ) (z : F.Carrier)
    (no_tick : Tick F.Carrier) (no_execution : Execution F.Carrier) (now : ℤ) where
  open F use {Carrier as D}

  abbrev pub FinalLine : Type 0
  FinalLine = List ℕ × D × D × D

  -- Behind the loop: the waits, and the report of the positions.
  abbrev pub report_of_run : Joins → Outcome (Trading F) → Ending FinalLine
  report_of_run joins (done s) =
      if all_join joins then finished (final_report F s.cold.positions) else stuck
  report_of_run joins fault = broken
  report_of_run joins out_of_fuel = broken

  -- From the end of the loading of the surface on.
  abbrev pub after_surface :
      Joins → List (Event D) → Surface D × Result (Unit {0}) → Ending FinalLine
  after_surface joins es (surface, throw e) = uncaught e
  after_surface joins es (surface, out_of_range) = undefined
  after_surface joins es (surface, ok u) = report_of_run joins (
      run F clock sqrt to_int64 (begin F clock sqrt to_int64 z no_tick no_execution surface now) es)

  -- From the end of the loading of the instruments on.
  abbrev pub after_instruments :
      Joins → List ℕ → List (Event D) → Result (Unit {0}) → Ending FinalLine
  after_instruments joins surface_file es (throw e) = uncaught e
  after_instruments joins surface_file es out_of_range = undefined
  after_instruments joins surface_file es (ok u) =
      after_surface joins es (load_surface F stod stoi [] surface_file)

  unfoldable pub main_program : Joins → List ℕ → List ℕ → List (Event D) → Ending FinalLine
  main_program joins instruments_file surface_file es =
      after_instruments joins surface_file es (load_from_csv stod stoi [] instruments_file).1

  abbrev pub at_start : Surface D → Trading F
  at_start surface = begin F clock sqrt to_int64 z no_tick no_execution surface now

  loaded :
      (joins : Joins) (instruments_file surface_file : List ℕ) (es : List (Event D))
      → (load_from_csv stod stoi [] instruments_file).1 ≡ ok tt
      → (load_surface F stod stoi [] surface_file).1 ≡ ok tt
      → main_program joins instruments_file surface_file es
        ≡ report_of_run joins
            (run F clock sqrt to_int64 (at_start (load_surface F stod stoi [] surface_file).0) es)
  unfolding main_program
  loaded joins instruments_file surface_file es a b =
      ap (after_instruments joins surface_file es) a
      ∙ ap (λ r. after_surface joins es ((load_surface F stod stoi [] surface_file).0, r)) b

  -- If the two files are loaded without an exception, then for any schedule the run comes to its end, and
  -- `main` reports positions if each of the waits for the threads ends, and waits for good if one does
  -- not. The positions are those that some executions make: of those that an order book alone reports of
  -- the schedule's orders, these are at the front, behind them are those that still wait in the queue, and
  -- the others are as many as the counter of dropped executions counts, modulo 2 ^ 64.
  pub main_program-reports :
      (joins : Joins) (instruments_file surface_file : List ℕ) (es : List (Event D))
      → (load_from_csv stod stoi [] instruments_file).1 ≡ ok tt
      → (load_surface F stod stoi [] surface_file).1 ≡ ok tt
      → (s : Trading F) × (ob : OrderBook D) × (taken : List (Execution D)) × (refused : ℕ) × (run F
            clock sqrt to_int64
            (at_start (load_surface F stod stoi [] surface_file).0)
            es
          ≡ done s)
        × (accept_all F clock (new_order_book z true) (orders_of es) ≡ done ob)
        × LeftOut ob.emitted (taken ++ contents s.cold.exec_queue) refused
        × (s.dropped_execs ≡ refused % word_mod)
        × (main_program joins instruments_file surface_file es
            ≡ (if all_join joins then finished (final_report F (booked F taken)) else stuck))
  main_program-reports joins instruments_file surface_file es a b =
      let surface = (load_surface F stod stoi [] surface_file).0 in
      let (s', ob, r, o, same, log) =
        run-accept_all F clock sqrt to_int64 z no_tick no_execution surface now es in
      let (s'', r', accounts) =
        run-Accounts F clock sqrt to_int64 z no_tick no_execution surface now es in
      (
        s'',
        ob,
        accounts.taken,
        accounts.left_out,
        r',
        o,
        subst (λ l. LeftOut l (accounts.taken ++ contents s''.cold.exec_queue) accounts.left_out)
            log accounts.split,
        accounts.counted,
        loaded joins instruments_file surface_file es a b
            ∙ ap (report_of_run joins) r'
            ∙ ap (λ ps. if all_join joins then finished (final_report F ps) else stuck)
                accounts.positions,
      )
