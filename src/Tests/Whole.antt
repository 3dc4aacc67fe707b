-- ===== src/Tests/Whole.antt =====
-- The theorems that join several components, each at a concrete input.
use trading_simulation.Prelude.{
  ℕ, zero, suc, ◌%◌, ◌≡◌, ◌≢◌, refl, List, [], ◌∷◌, ◌++◌, Option, none, some, true, arith, length,
  replicate, All,
}
use trading_simulation.Prelude.Int.{ℤ, pos, negsuc, ◌+ℤ◌, ◌*ℤ◌}
use trading_simulation.Prelude.Text.{codes}
use trading_simulation.Order.{Order, OrderType, Execution}
use trading_simulation.Result.{ok}
use trading_simulation.Csv.{pieces}
use trading_simulation.OrderBook.{
  OrderBook, Outcome, done, sym_key, find_or_new, accept_new_order, new_order_book,
}
use trading_simulation.OrderBook.Serial.{accept_all, told_all}
use trading_simulation.OrderBook.Priority.{View, Shows}
use trading_simulation.OrderBook.Priority.Round.{view, view-Shows}
use trading_simulation.OrderBook.Priority.Others.{accept_new_order-others}
use trading_simulation.OrderBook.Priority.Sized.{IsTraded}
use trading_simulation.OrderBook.Priority.Bounds.{BooksAreSized}
use trading_simulation.FixSession.{
  start, replay, handle_line, call_back, until, parse_fix_line, parse_fields, set_field, set_known,
  break_at, parse_quantity, digit_of, parse_side, stamped,
}
use trading_simulation.FixSession.Orders.{kept}
use trading_simulation.FixSession.Replay.{replay_orders}
use trading_simulation.FixSession.Bounds.{replay_orders-sized}
use trading_simulation.FixSession.Files.{Files, GivesBack, EndsIn, start_file, start_file-GivesBack}
use trading_simulation.Dispatcher.{Tick}
use trading_simulation.Feed.{failed, receive}
use trading_simulation.Feed.Whole.{datagrams}
use trading_simulation.InstrumentStore.{load_from_csv, load_lines}
use trading_simulation.VolatilitySurface.{load_surface, load_surface_lines}
use trading_simulation.Word64.{word_mod}
use trading_simulation.SpscQueue.Refine.{contents}
use trading_simulation.Trading.{Trading, Event, tick_in, order_in, pass, run, begin}
use trading_simulation.Trading.Execs.{LeftOut}
use trading_simulation.Trading.Log.{booked}
use trading_simulation.Trading.Run.{run_log}
use trading_simulation.Trading.Schedule.{orders_of, run-replay_orders}
use trading_simulation.Trading.Startup.{Joins, main_program, finished, main_program-reports}
use trading_simulation.Dashboard.{final_report}
use trading_simulation.TickSimulator.{TickDraw, symbols, ticks_made, send_loop}
use trading_simulation.TickSimulator.Delivery.{IsDelivered, receive-send_loop}
use trading_simulation.Tests.Fixed.{fixed, clock}
use trading_simulation.Tests.Books.{order, after_sale, after_sale-IsValid}
use trading_simulation.Tests.Program.{quote, nothing, schedule}

abbrev atof : List ℕ → ℤ
atof bytes = pos 10

-- A file with one order, a purchase of 7.
abbrev file : List ℕ
file = codes "54=1|38=7"

abbrev purchase : Order ℤ
purchase = record (stamped (pos 0) (pos 1000)) { order_type = OrderType.buy; quantity = pos 7 }

file-kept : start atof kept (pos 0) clock (λ r. true) [] file ≡ done (purchase ∷ [])
unfolding start replay handle_line call_back until parse_fix_line parse_fields set_field set_known
    break_at parse_quantity digit_of parse_side stamped ◌+ℤ◌ ◌*ℤ◌
file-kept = refl

-- The order between a tick and a pass of the main loop.
abbrev around : List (Event ℤ)
around = tick_in (pos 5) quote ∷ order_in purchase ∷ pass (pos 6) ∷ []

abbrev at_start : Trading fixed
at_start = begin fixed clock (λ x. x) (λ x. x) (pos 0) quote nothing [] (pos 0)

run-replay_orders_example :
    (s' : Trading fixed) × (ob : OrderBook ℤ) × (run fixed clock (λ x. x) (λ x. x) at_start around
      ≡ done s')
    × (replay_orders fixed clock atof (pos 0) clock (λ r. true) (new_order_book (pos 0) true) file
        ≡ done ob)
    × (s'.order_book ≡ told_all ob)
    × (run_log fixed clock (λ x. x) (λ x. x) at_start around ≡ ob.emitted)
run-replay_orders_example =
    run-replay_orders fixed clock (λ x. x) (λ x. x) atof (pos 0) quote nothing [] (pos 0) clock
      (λ r. true) file around file-kept

replay_orders-sized_example :
    (ob : OrderBook ℤ) × (replay_orders fixed clock atof
        (pos 0)
        clock
        (λ r. true)
        (new_order_book (pos 0) true)
        file
      ≡ done ob)
    × All (IsTraded fixed) ob.emitted
    × BooksAreSized ob
replay_orders-sized_example =
    replay_orders-sized fixed clock atof (pos 0) clock (λ r. true) file (purchase ∷ []) file-kept
      ((omega arith, omega arith), tt)

-- The sale that rests is for another symbol than the purchase.
abbrev other_symbol : Order ℤ
other_symbol = record (order 2 OrderType.buy 15100 60) { symbol = 66 ∷ replicate 7 0 }

abbrev resting_view : View ℤ
resting_view = view after_sale.memory (after_sale-IsValid.bids 65) (after_sale-IsValid.asks 65)

key_apart : 65 ≢ sym_key other_symbol.symbol
unfolding sym_key
key_apart = omega arith

accept_new_order-others_example :
    (ob' : OrderBook ℤ) × (accept_new_order fixed clock after_sale other_symbol ≡ done ob')
    × Shows ob'.memory (find_or_new (ob'.books 65)) resting_view
accept_new_order-others_example =
    accept_new_order-others fixed clock after_sale other_symbol 65 resting_view after_sale-IsValid
      key_apart (view-Shows (after_sale-IsValid.book 65))

abbrev no_mapping : Files
no_mapping = record { descriptor = pos 3; stat_size = some 9; mapping = λ n. some file }

abbrev counted : ℕ → Order ℤ → Outcome ℕ
counted n o = done (suc n)

start_file-GivesBack_example :
    GivesBack atof counted
      (pos 0)
      clock
      (λ r. true)
      (start_file atof counted (pos 0) clock (λ r. true) no_mapping 0).1
    × EndsIn atof counted
        (pos 0)
        clock
        (λ r. true)
        (λ n. Unit)
        (λ s o h. (suc s, refl, tt))
        (start_file atof counted (pos 0) clock (λ r. true) no_mapping 0).0
start_file-GivesBack_example =
    start_file-GivesBack atof counted (pos 0) clock (λ r. true) (λ n. Unit)
      (λ s o h. (suc s, refl, tt)) no_mapping 0 tt

abbrev unreadable : List ℕ → Option ℤ
unreadable text = none

no_instruments : (load_from_csv unreadable unreadable [] []).1 ≡ ok tt
unfolding load_from_csv load_lines pieces
no_instruments = refl

no_surface : (load_surface fixed unreadable unreadable [] []).1 ≡ ok tt
unfolding load_surface load_surface_lines pieces
no_surface = refl

-- Every thread ends.
abbrev joined : Joins
joined = record { server_stops = true; udp_joins = true; execution_joins = true }

main_program-reports_example :
    (s : Trading fixed) × (ob : OrderBook ℤ) × (taken : List (Execution ℤ)) × (refused : ℕ) × (run
        fixed clock
        (λ x. x)
        (λ x. x)
        (begin fixed clock
          (λ x. x)
          (λ x. x)
          (pos 0)
          quote
          nothing
          (load_surface fixed unreadable unreadable [] []).0
          (pos 0))
        schedule
      ≡ done s)
    × (accept_all fixed clock (new_order_book (pos 0) true) (orders_of schedule) ≡ done ob)
    × LeftOut ob.emitted (taken ++ contents s.cold.exec_queue) refused
    × (s.dropped_execs ≡ refused % word_mod)
    × (main_program fixed clock
          (λ x. x)
          (λ x. x)
          unreadable
          unreadable
          (pos 0)
          quote
          nothing
          (pos 0)
          joined
          []
          []
          schedule
        ≡ finished (final_report fixed (booked fixed taken)))
main_program-reports_example =
    main_program-reports fixed clock (λ x. x) (λ x. x) unreadable unreadable (pos 0) quote nothing
      (pos 0) joined [] [] schedule no_instruments no_surface

-- A sign and a magnitude, in eight numbers.
abbrev write : ℤ → List ℕ
write (pos n) = 0 ∷ n ∷ replicate 6 0
write (negsuc n) = 1 ∷ n ∷ replicate 6 0

abbrev read : List ℕ → ℤ
read (zero ∷ n ∷ rest) = pos n
read (suc s ∷ n ∷ rest) = negsuc n
read bytes = pos 0

eight : (d : ℤ) → length (write d) ≡ 8
eight (pos n) = refl
eight (negsuc n) = refl

read-write : (d : ℤ) → read (write d) ≡ d
read-write (pos n) = refl
read-write (negsuc n) = refl

-- AAPL goes up, and TSLA falls below the floor.
abbrev draws : List (TickDraw ℤ)
draws =
    record { index = 0; noise = pos 500; now = pos 7 }
    ∷ record { index = 3; noise = negsuc 9_999_999; now = pos 8 }
    ∷ []

receive-send_loop_example :
    (sent : List (List ℕ)) × (ticks : List (Tick ℤ)) × (send_loop fixed write (symbols fixed) draws
      ≡ some sent)
    × (ticks_made fixed (symbols fixed) draws ≡ some ticks)
    × (length ticks ≡ 2)
    × (receive read (λ k. true) 0 (datagrams sent ++ failed ∷ []) ≡ ticks)
    × All (IsDelivered fixed) ticks
receive-send_loop_example =
    receive-send_loop fixed write read (λ k. true) draws [] eight read-write
      ((omega arith, (omega arith, omega arith)), ((omega arith, (omega arith, omega arith)), tt))
      (λ k l. refl)
