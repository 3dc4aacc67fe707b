-- ===== src/Trading/Schedule.antt =====
-- The order book in a run of the program: ticks and passes of the main loop have no part in it.
use trading_simulation.Prelude.{
  ℕ, ◌≡◌, refl, sym, ap, ◌∙◌, List, [], ◌∷◌, ◌++◌, Option, none, some, Bool, true, arith, fold_list,
}
use trading_simulation.Prelude.Int.{ℤ}
use trading_simulation.Double.{Double}
use trading_simulation.Order.{Order, Execution}
use trading_simulation.OrderBook.{
  OrderBook, Outcome, done, fault, out_of_fuel, accept_new_order, new_order_book,
}
use trading_simulation.OrderBook.Accept.{accept_new_order-Returns}
use trading_simulation.OrderBook.Frame.{behind_book}
use trading_simulation.OrderBook.Serial.{followed, accept_all, told_all, behind_told}
use trading_simulation.FixSession.{start}
use trading_simulation.FixSession.Replay.{replay_orders}
use trading_simulation.FixSession.Orders.{kept, start-kept}
use trading_simulation.Dispatcher.{Tick, dispatch}
use trading_simulation.VolatilitySurface.{Surface}
use trading_simulation.ColdPath.{ColdPath, cycle}
use trading_simulation.Trading.{
  Event, Trading, take_tick, take_executions, report_at, step, run, begin, tick_in, order_in, pass,
  book_with, passed, and_then,
}
use trading_simulation.Trading.Log.{Accounts}
use trading_simulation.Trading.Run.{
  log_step, run_log, reported_by, step-Runs, log_after, begin-Accounts,
}

-- The orders of a schedule.
abbrev pub orders_of : {D : Type 0} → List (Event D) → List (Order D)
orders_of [] = []
orders_of (tick_in now t ∷ es) = orders_of es
orders_of (order_in order ∷ es) = order ∷ orders_of es
orders_of (pass now ∷ es) = orders_of es

module _ (F : Double) (clock : ℕ → ℤ) (sqrt : F.Carrier → F.Carrier)
    (to_int64 : F.Carrier → ℤ) where
  -- The order book at the end of a step.
  abbrev book_after : OrderBook F.Carrier → Outcome (Trading F) → OrderBook F.Carrier
  book_after ob (done s) = s.order_book
  book_after ob fault = ob
  book_after ob out_of_fuel = ob

  ticks_keep :
      (now : ℤ) (t : Tick F.Carrier) (us : List Unit) (s : Trading F)
      → (fold_list (take_tick F clock sqrt to_int64 now t) s us).order_book ≡ s.order_book
  unfolding take_tick
  ticks_keep now t [] s = refl
  ticks_keep now t (u ∷ us) s = ticks_keep now t us (take_tick F clock sqrt to_int64 now t s u)

  report_keeps :
      (now : ℤ) (s : Trading F) → (report_at F clock sqrt to_int64 now s).order_book ≡ s.order_book
  unfolding report_at
  report_keeps now s = ground arith

  pass_keeps :
      (now : ℤ) (s : Trading F) (c : Option (ColdPath F.Carrier))
      → book_after s.order_book (passed F clock sqrt to_int64 now s c) ≡ s.order_book
  pass_keeps now s none = refl
  pass_keeps now s (some c) = report_keeps now (record s { cold = c })

  -- Where a run ends in a state whose order book is that of the orders by themselves.
  abbrev pub Follows :
      OrderBook F.Carrier
      → List (Order F.Carrier)
      → Outcome (Trading F)
      → List (Execution F.Carrier)
      → Type 0
  Follows ob orders out log =
      (s' : Trading F) × (ob' : OrderBook F.Carrier) × (out ≡ done s')
      × (accept_all F clock ob orders ≡ done ob')
      × (s'.order_book ≡ told_all ob')
      × (log ≡ ob'.emitted)

  told_already : (ob : OrderBook F.Carrier) → ob.emitted ≡ [] → ob ≡ told_all ob
  told_already ob e = λ i. record ob { emitted = e i }

  -- A step that leaves the order book as it is, and reports nothing.
  after_quiet :
      (s s1 : Trading F) (e : Event F.Carrier) (es : List (Event F.Carrier))
      → step F clock sqrt to_int64 s e ≡ done s1
      → book_after s.order_book (step F clock sqrt to_int64 s e) ≡ s.order_book
      → log_step F clock sqrt to_int64 s e ≡ []
      → Follows s1.order_book
          (orders_of es)
          (run F clock sqrt to_int64 s1 es)
          (run_log F clock sqrt to_int64 s1 es)
      → Follows s.order_book
          (orders_of es)
          (run F clock sqrt to_int64 s (e ∷ es))
          (run_log F clock sqrt to_int64 s (e ∷ es))
  unfolding run
  after_quiet s s1 e es f k l (s', ob', r, o, b, g) = (
    s',
    ob',
    ap (λ out. and_then F clock sqrt to_int64 out (λ t. run F clock sqrt to_int64 t es)) f ∙ r,
    ap (λ ob. accept_all F clock ob (orders_of es)) (sym k ∙ ap (book_after s.order_book) f) ∙ o,
    b,
    ap
          (λ xs.
            xs
            ++ log_after F clock sqrt to_int64 (step F clock sqrt to_int64 s e)
                (λ t. run_log F clock sqrt to_int64 t es))
          l
        ∙ ap (λ out. log_after F clock sqrt to_int64 out (λ t. run_log F clock sqrt to_int64 t es))
            f
        ∙ g,
  )

  after_order :
      (s s1 : Trading F) (ob : OrderBook F.Carrier) (order : Order F.Carrier)
      (es : List (Event F.Carrier))
      → accept_new_order F clock s.order_book order ≡ done ob
      → step F clock sqrt to_int64 s (order_in order) ≡ done s1
      → s1.order_book ≡ told_all ob
      → Follows s1.order_book
          (orders_of es)
          (run F clock sqrt to_int64 s1 es)
          (run_log F clock sqrt to_int64 s1 es)
      → Follows s.order_book
          (order ∷ orders_of es)
          (run F clock sqrt to_int64 s (order_in order ∷ es))
          (run_log F clock sqrt to_int64 s (order_in order ∷ es))
  unfolding run
  after_order s s1 ob order es a f k (s', ob', r, o, b, g) = (
    s',
    behind_book ob.emitted ob',
    ap (λ out. and_then F clock sqrt to_int64 out (λ t. run F clock sqrt to_int64 t es)) f ∙ r,
    ap (λ out. followed out (λ b. accept_all F clock b (orders_of es))) a
        ∙ behind_told F clock ob ob' (orders_of es)
            (ap (λ b. accept_all F clock b (orders_of es)) (sym k) ∙ o),
    b,
    ap
          (λ xs.
            xs
            ++ log_after F clock sqrt to_int64 (step F clock sqrt to_int64 s (order_in order))
                (λ t. run_log F clock sqrt to_int64 t es))
          (ap reported_by a)
        ∙ ap
            (λ out.
              ob.emitted
              ++ log_after F clock sqrt to_int64 out (λ t. run_log F clock sqrt to_int64 t es))
            f
        ∙ ap (λ xs. ob.emitted ++ xs) g,
  )

  quiet_tick :
      (s : Trading F) (now : ℤ) (t : Tick F.Carrier)
      → book_after s.order_book (step F clock sqrt to_int64 s (tick_in now t)) ≡ s.order_book
  unfolding step
  quiet_tick s now t = ticks_keep now t (dispatch s.dispatcher t) s

  quiet_pass :
      (s : Trading F) (now : ℤ)
      → book_after s.order_book (step F clock sqrt to_int64 s (pass now)) ≡ s.order_book
  unfolding step
  quiet_pass s now = pass_keeps now s (cycle F s.cold)

  order_told :
      (s : Trading F) (order : Order F.Carrier) (ob : OrderBook F.Carrier)
      → accept_new_order F clock s.order_book order ≡ done ob
      → book_after s.order_book (step F clock sqrt to_int64 s (order_in order)) ≡ told_all ob
  unfolding step take_executions
  order_told s order ob e =
      ap (λ out. book_after s.order_book (book_with F clock sqrt to_int64 s out)) e

  run-Follows :
      (s : Trading F) (log : List (Execution F.Carrier)) (es : List (Event F.Carrier))
      → Accounts F s log
      → Follows s.order_book
          (orders_of es)
          (run F clock sqrt to_int64 s es)
          (run_log F clock sqrt to_int64 s es)
  unfolding run
  run-Follows s log [] a =
      (s, s.order_book, refl, refl, told_already s.order_book a.nothing_left, sym a.nothing_left)
  run-Follows s log (tick_in now t ∷ es) a =
      let (s1, f, a1) = step-Runs F clock sqrt to_int64 s log (tick_in now t) a in
      after_quiet s s1 (tick_in now t) es f (quiet_tick s now t) refl (run-Follows s1 _ es a1)
  run-Follows s log (order_in order ∷ es) a =
      let (s1, f, a1) = step-Runs F clock sqrt to_int64 s log (order_in order) a in
      let (ob, e, v) = accept_new_order-Returns F clock s.order_book order a.book in
      after_order s s1 ob order es e f
        (ap (book_after s.order_book) (sym f) ∙ order_told s order ob e) (run-Follows s1 _ es a1)
  run-Follows s log (pass now ∷ es) a =
      let (s1, f, a1) = step-Runs F clock sqrt to_int64 s log (pass now) a in
      after_quiet s s1 (pass now) es f (quiet_pass s now) refl (run-Follows s1 _ es a1)

  -- From the start, by any schedule, the program comes to the end of the schedule, and its order book and
  -- all that it reported are those of an order book alone that is given the orders of the schedule one
  -- after another: the datagrams and the passes of the main loop between them make no difference.
  pub run-accept_all :
      (z : F.Carrier) (no_tick : Tick F.Carrier) (no_execution : Execution F.Carrier)
      (surface : Surface F.Carrier) (now : ℤ) (es : List (Event F.Carrier))
      → (s' : Trading F) × (ob : OrderBook F.Carrier) × (run F clock sqrt to_int64
            (begin F clock sqrt to_int64 z no_tick no_execution surface now)
            es
          ≡ done s')
        × (accept_all F clock (new_order_book z true) (orders_of es) ≡ done ob)
        × (s'.order_book ≡ told_all ob)
        × (run_log F clock sqrt to_int64
              (begin F clock sqrt to_int64 z no_tick no_execution surface now)
              es
            ≡ ob.emitted)
  unfolding begin
  run-accept_all z no_tick no_execution surface now es =
      run-Follows (begin F clock sqrt to_int64 z no_tick no_execution surface now) [] es
        (begin-Accounts F clock sqrt to_int64 z no_tick no_execution surface now)

  -- Replaying a file into an order book alone, and running the program by any schedule whose orders are
  -- those read from the file, with datagrams and passes of the main loop anywhere between them: both
  -- return, and the program's order book, and all the executions that it reported on the way, are those
  -- of the replay.
  pub run-replay_orders :
      (atof : List ℕ → F.Carrier) (z : F.Carrier) (no_tick : Tick F.Carrier)
      (no_execution : Execution F.Carrier) (surface : Surface F.Carrier) (now : ℤ) (times : ℕ → ℤ)
      (running : ℕ → Bool) (data_ : List ℕ) (es : List (Event F.Carrier))
      → start atof kept z times running [] data_ ≡ done (orders_of es)
      → (s' : Trading F) × (ob : OrderBook F.Carrier) × (run F clock sqrt to_int64
            (begin F clock sqrt to_int64 z no_tick no_execution surface now)
            es
          ≡ done s')
        × (replay_orders F clock atof z times running (new_order_book z true) data_ ≡ done ob)
        × (s'.order_book ≡ told_all ob)
        × (run_log F clock sqrt to_int64
              (begin F clock sqrt to_int64 z no_tick no_execution surface now)
              es
            ≡ ob.emitted)
  run-replay_orders atof z no_tick no_execution surface now times running data_ es h =
      let (s', ob, r, o, b, l) = run-accept_all z no_tick no_execution surface now es in
      (
        s',
        ob,
        r,
        start-kept atof z times running (OrderBook F.Carrier) (accept_new_order F clock)
              (new_order_book z true) data_ (orders_of es) h
            ∙ o,
        b,
        l,
      )
