-- ===== src/Trading/Log.antt =====
-- The accounts of a run: what was booked, what waits and what was counted as dropped is what the order
-- book reported.
use trading_simulation.Prelude.{
  ℕ, ◌+◌, ◌%◌, ◌≡◌, refl, sym, ap, ◌∙◌, subst, inl, inr, List, [], ◌∷◌, ◌++◌, append-nil,
  append_assoc, arith, fold_list, Bool-cases,
}
use trading_simulation.Prelude.Int.{ℤ}
use trading_simulation.Word64.{word_mod}
use trading_simulation.Double.{Double}
use trading_simulation.Order.{Execution}
use trading_simulation.OrderBook.{OrderBook, pool_capacity}
use trading_simulation.OrderBook.Accept
use trading_simulation.OrderBook.Accept.{accept_new_order-Returns, new_order_book-IsValid}
use trading_simulation.SpscQueue.Refine.{IsValid, contents, push-IsValid}
use trading_simulation.LatencyTracker.{LatencyTracker}
use trading_simulation.PositionManager.{Positions, on_execution}
use trading_simulation.Dispatcher.{Tick}
use trading_simulation.ColdPath.{ColdPath, tick_callback, take_execution}
use trading_simulation.ColdPath.Drain.{Passed}
use trading_simulation.Dashboard.{report_due}
use trading_simulation.Trading.{Trading, take_tick, take_executions, report_at}
use trading_simulation.Trading.Execs.{LeftOut, LeftOut-append, callbacks-Takes}

fold_list-append :
    {A S : Type 0} (f : S → A → S) (s : S) (xs ys : List A)
    → fold_list f s (xs ++ ys) ≡ fold_list f (fold_list f s xs) ys
fold_list-append f s [] ys = refl
fold_list-append f s (x ∷ xs) ys = fold_list-append f (f s x) xs ys

module _ (F : Double) where
  -- The positions that some executions make.
  abbrev pub booked : List (Execution F.Carrier) → Positions F.Carrier
  booked es = fold_list (on_execution F) [] es

  take_execution-positions :
      (es : List (Execution F.Carrier)) (tracker : LatencyTracker) (ps : Positions F.Carrier)
      → (fold_list (take_execution F) (tracker, ps) es).1 ≡ fold_list (on_execution F) ps es
  unfolding take_execution
  take_execution-positions [] tracker ps = refl
  take_execution-positions (e ∷ es) tracker ps = take_execution-positions es _ (on_execution F ps e)

  -- `log` is what the order book reported: the positions are those of the executions taken, the others
  -- that were let in wait in the queue in order, and the rest were counted.
  pub record Accounts (s : Trading F) (log : List (Execution F.Carrier)) : Type 0 where
    pub book : Accept.IsValid pool_capacity s.order_book
    pub nothing_left : s.order_book.emitted ≡ []
    pub ticks : IsValid s.cold.tick_queue
    pub execs : IsValid s.cold.exec_queue
    pub taken : List (Execution F.Carrier)
    pub left_out : ℕ
    pub split : LeftOut log (taken ++ contents s.cold.exec_queue) left_out
    pub counted : s.dropped_execs ≡ left_out % word_mod
    pub positions : s.cold.positions ≡ booked taken

  without_emitted :
      (ob : OrderBook F.Carrier)
      → Accept.IsValid pool_capacity ob
      → Accept.IsValid pool_capacity (record ob { emitted = [] })
  without_emitted ob v = record {
    owner = v.owner;
    bids = v.bids;
    asks = v.asks;
    pool = v.pool;
    book = v.book;
    uncrossed = v.uncrossed;
  }

  module _ (clock : ℕ → ℤ) (sqrt : F.Carrier → F.Carrier) (to_int64 : F.Carrier → ℤ) where
    take_tick-Accounts :
        (now : ℤ) (t : Tick F.Carrier) (s : Trading F) (u : Unit {0})
        (log : List (Execution F.Carrier))
        → Accounts s log
        → Accounts (take_tick F clock sqrt to_int64 now t s u) log
    unfolding take_tick tick_callback
    take_tick-Accounts now t s u log a = record {
      book = a.book;
      nothing_left = a.nothing_left;
      ticks = push-IsValid s.cold.tick_queue a.ticks t;
      execs = a.execs;
      taken = a.taken;
      left_out = a.left_out;
      split = a.split;
      counted = a.counted;
      positions = a.positions;
    }

    pub take_ticks-Accounts :
        (now : ℤ) (t : Tick F.Carrier) (s : Trading F) (us : List (Unit {0}))
        (log : List (Execution F.Carrier))
        → Accounts s log
        → Accounts (fold_list (take_tick F clock sqrt to_int64 now t) s us) log
    take_ticks-Accounts now t s [] log a = a
    take_ticks-Accounts now t s (u ∷ us) log a =
        take_ticks-Accounts now t (take_tick F clock sqrt to_int64 now t s u) us log
          (take_tick-Accounts now t s u log a)

    pub take_executions-Accounts :
        (s : Trading F) (ob : OrderBook F.Carrier) (log es : List (Execution F.Carrier))
        → Accounts s log
        → Accept.IsValid pool_capacity ob
        → Accounts
            (take_executions F clock sqrt to_int64
              (record s { order_book = record ob { emitted = [] } })
              es)
            (log ++ es)
    unfolding take_executions
    take_executions-Accounts s ob log es a v =
        let (n, new, more, left, counted, w) =
          callbacks-Takes s.cold.exec_queue s.dropped_execs es a.execs (omega (arith, a.counted)) in
        record {
          book = without_emitted ob v;
          nothing_left = refl;
          ticks = a.ticks;
          execs = w;
          taken = a.taken;
          left_out = a.left_out + n;
          split =
              subst (λ xs. LeftOut (log ++ es) xs (a.left_out + n))
                (append_assoc a.taken (contents s.cold.exec_queue) new
                  ∙ ap (λ xs. a.taken ++ xs) (sym more))
                (LeftOut-append a.split left);
          counted = omega (arith, counted, a.counted);
          positions = a.positions;
        }

    pub report_at-Accounts :
        (now : ℤ) (s : Trading F) (log : List (Execution F.Carrier))
        → Accounts s log
        → Accounts (report_at F clock sqrt to_int64 now s) log
    unfolding report_at
    report_at-Accounts now s log a = elim (Bool-cases (report_due now s.last_report)) [
      | inl due ↦ rw due (record {
        book = a.book;
        nothing_left = a.nothing_left;
        ticks = a.ticks;
        execs = a.execs;
        taken = a.taken;
        left_out = a.left_out;
        split = a.split;
        counted = a.counted;
        positions = a.positions;
      })
      | inr early ↦ rw early a
    ]

    pub cycle-Accounts :
        (s : Trading F) (c : ColdPath F.Carrier) (log : List (Execution F.Carrier))
        → Accounts s log
        → Passed F s.cold c
        → Accounts (record s { cold = c }) log
    cycle-Accounts s c log a p = record {
      book = a.book;
      nothing_left = a.nothing_left;
      ticks = p.ticks_valid;
      execs = p.execs_valid;
      taken = a.taken ++ contents s.cold.exec_queue;
      left_out = a.left_out;
      split =
          subst (λ xs. LeftOut log xs a.left_out)
            (sym (append-nil (a.taken ++ contents s.cold.exec_queue))
              ∙ ap (λ xs. (a.taken ++ contents s.cold.exec_queue) ++ xs) (sym p.no_execs))
            a.split;
      counted = a.counted;
      positions =
          ap (λ (r : LatencyTracker × Positions F.Carrier). r.1) p.accounted
          ∙ take_execution-positions (contents s.cold.exec_queue) s.cold.match_latency
              s.cold.positions
          ∙ ap (λ ps. fold_list (on_execution F) ps (contents s.cold.exec_queue)) a.positions
          ∙ sym (fold_list-append (on_execution F) [] a.taken (contents s.cold.exec_queue));
    }
