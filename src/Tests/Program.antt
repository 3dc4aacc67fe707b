-- ===== src/Tests/Program.antt =====
-- The theorems on the whole program and on the metrics server, each at a concrete input.
use trading_simulation.Prelude.{
  ℕ, zero, suc, ◌*◌, ◌==◌, if◌then◌else◌, ◌≤◌, ◌≡◌, ◌≢◌, refl, ap, ◌⊎◌, List, [], ◌∷◌, ◌++◌, Option,
  none, some, false, arith, replicate, length,
}
use trading_simulation.Prelude.Int.{ℤ, pos, negsuc}
use trading_simulation.Prelude.Text.{codes}
use trading_simulation.Order.{Order, OrderType, Execution, Side}
use trading_simulation.OrderBook.{done}
use trading_simulation.Dispatcher.{Tick}
use trading_simulation.Csv.{Lacks}
use trading_simulation.Trading.{Trading, Event, tick_in, order_in, pass, run, begin}
use trading_simulation.Trading.Log.{Accounts}
use trading_simulation.Trading.Run.{run_log, run-Accounts}
use trading_simulation.MetricsServer.{MetricsSnapshot, to_json}
use trading_simulation.MetricsServer.Json.{Writes, read_json, read_json-to_json}
use trading_simulation.MetricsServer.Threads.{
  Caller, Acceptor, Client, AcceptLoop, Server, Reaches, Serves, no_server, listening,
  start_running, start_bound, start_thread, stop_running, stop_close, accept_step, test_true, here,
  more, sleeping, leaving, gone, wakes, stopped_asleep, joining, aborted, stop_join, accepting,
}
use trading_simulation.MetricsServer.Threads.Stop.{stay, go_on, reached_stopped}
use trading_simulation.MetricsServer.Threads.Clients.{client_ends, ServesFor}
use trading_simulation.Tests.Fixed.{fixed, clock}

abbrev pub nothing : Execution ℤ
nothing = record {
  buy_id = [];
  sell_id = [];
  symbol = [];
  trade_price = pos 0;
  quantity = pos 0;
  side = Side.buy;
  arrival_ns = pos 0;
  order_arrival_ns = pos 0;
}

abbrev pub quote : Tick ℤ
quote = record {
  symbol = codes "AAPL" ++ replicate 4 0;
  bid = pos 1;
  ask = pos 2;
  last = pos 3;
  timestamp_ns = pos 4;
}

abbrev pub an_order : ℕ → OrderType → ℕ → Order ℤ
an_order name side cents = record {
  id = name ∷ replicate 15 0;
  symbol = codes "AAPL" ++ replicate 4 0;
  price = pos (cents * 10);
  order_type = side;
  quantity = pos 100;
  arrival_ns = pos 7;
  next = none;
}

-- A sale, a tick and a purchase that meets the sale, with a pass of the main loop between and behind.
abbrev pub schedule : List (Event ℤ)
schedule =
    order_in (an_order 1 OrderType.sell 15000)
    ∷ tick_in (pos 5) quote
    ∷ pass (pos 6)
    ∷ order_in (an_order 2 OrderType.buy 15100)
    ∷ pass (pos 6000000000)
    ∷ []

abbrev start_of_day : Trading fixed
start_of_day = begin fixed clock (λ x. x) (λ x. x) (pos 0) quote nothing [] (pos 0)

run-Accounts_example :
    (s' : Trading fixed) × (run fixed clock (λ x. x) (λ x. x) start_of_day schedule ≡ done s')
    × Accounts fixed s' (run_log fixed clock (λ x. x) (λ x. x) start_of_day schedule)
run-Accounts_example =
    run-Accounts fixed clock (λ x. x) (λ x. x) (pos 0) quote nothing [] (pos 0) schedule

-- Numbers in strokes, with a sign in front.
abbrev show : ℤ → List ℕ
show (pos n) = 43 ∷ replicate n 73
show (negsuc n) = 45 ∷ replicate n 73

abbrev read : List ℕ → Option ℤ
read [] = none
read (c ∷ cs) = if c == 43 then some (pos (length cs)) else some (negsuc (length cs))

length-strokes : (n : ℕ) → length {A = ℕ} (replicate n 73) ≡ n
length-strokes zero = refl
length-strokes (suc n) = ap suc (length-strokes n)

strokes-Lacks : (c n : ℕ) → 73 ≢ c → Lacks c (replicate n 73)
strokes-Lacks c zero h = tt
strokes-Lacks c (suc n) h = (h, strokes-Lacks c n h)

read-show : (a : ℤ) → read (show a) ≡ some a
read-show (pos n) = ap (λ m. some (pos m)) (length-strokes n)
read-show (negsuc n) = ap (λ m. some (negsuc m)) (length-strokes n)

show-Lacks : (c : ℕ) (a : ℤ) → 73 ≢ c → 43 ≢ c → 45 ≢ c → Lacks c (show a)
show-Lacks c (pos n) h k l = (k, strokes-Lacks c n h)
show-Lacks c (negsuc n) h k l = (l, strokes-Lacks c n h)

writes : Writes show read
writes = record {
  reads = read-show;
  no_comma = λ a. show-Lacks 44 a (omega arith) (omega arith) (omega arith);
  no_brace = λ a. show-Lacks 125 a (omega arith) (omega arith) (omega arith);
}

abbrev metrics : MetricsSnapshot
metrics = record {
  tick_p50 = pos 3;
  tick_p99 = pos 4;
  tick_p999 = pos 4;
  tick_max = negsuc 0;
  tick_count = 2;
  match_p50 = pos 0;
  match_p99 = pos 0;
  match_p999 = pos 0;
  match_max = pos 0;
  match_count = 0;
  dropped_ticks = 1;
  dropped_execs = 0;
  tick_queue_depth = 5;
  exec_queue_depth = 0;
  tick_queue_capacity = 8;
  exec_queue_capacity = 8;
}

read_json-to_json_example : read_json read (to_json show metrics) ≡ some metrics
read_json-to_json_example = read_json-to_json show read writes metrics

abbrev at_join : Server
at_join = record {
  running = false;
  acceptor = Acceptor.closed;
  accept_thread = some AcceptLoop.accepting;
  clients = [];
  caller = joining;
}

-- Started, with the accept thread in its wait, and in `stop` up to the wait for the thread.
to_join : Reaches no_server at_join
to_join =
    more
      (more
        (more
          (more (more (more here (start_running refl refl)) (start_bound refl refl))
            (start_thread refl refl refl))
          (accept_step AcceptLoop.testing accepting [] (λ e. cc) refl (test_true refl) refl))
        (stop_running refl refl refl))
      (stop_close refl refl)

abbrev at_rest : Server
at_rest = record at_join { accept_thread = none; caller = Caller.outside }

to_rest : Reaches no_server at_rest
to_rest =
    more
      (more to_join
        (accept_step accepting AcceptLoop.ended [] (λ e. cc) refl (aborted (λ e. cc)) refl))
      (stop_join refl refl refl)

reached_stopped_example : (at_rest.acceptor ≢ listening) × (at_rest.accept_thread ≡ none)
reached_stopped_example = reached_stopped at_rest to_rest refl refl

client_ends_example : (2 ≤ 3) × ((leaving ≡ gone) ⊎ ((c : Client) × Serves false leaving c))
client_ends_example =
    client_ends 2 sleeping leaving
      (ServesFor.go_on wakes (ServesFor.go_on (stopped_asleep refl) ServesFor.stay))
