-- ===== src/Tests/Session.antt =====
-- The theorems on the session, the accounts and the main loop, each at a concrete input.
use trading_simulation.Prelude.{
  ℕ, ◌+◌, ◌*◌, ◌≡◌, refl, List, [], ◌∷◌, ◌++◌, some, true, arith, Option, none, ◌-◌,
}
use trading_simulation.Prelude.Int.{ℤ, pos, pos_part, neg_part, ◌+ℤ◌, ◌-ℤ◌}
use trading_simulation.Order.{Side, Execution}
use trading_simulation.OrderBook.{OrderBook, done, new_order_book, pool_capacity}
use trading_simulation.OrderBook.Accept.{IsValid, new_order_book-IsValid}
use trading_simulation.FixSession.{parse_fix_line, stamped}
use trading_simulation.FixSession.Lines.{render, Field, store_fields, parse_fix_line-render}
use trading_simulation.FixSession.Replay.{replay_orders, replay_orders-Returns}
use trading_simulation.LatencyTracker.{reset, record_sample, percentile_at}
use trading_simulation.LatencyTracker.Samples.{Tracks, reset-Tracks, record_sample-Tracks}
use trading_simulation.LatencyTracker.Percentile.{IsRank, percentile_at-IsRank}
use trading_simulation.PositionManager.Exact.{IsExact}
use trading_simulation.PositionManager.Net.{ledger, net, holding, ledger-net}
use trading_simulation.Dispatcher.{Tick, dispatch}
use trading_simulation.Dispatcher.Routes.{subscribed, routed, dispatch-subscribed}
use trading_simulation.RiskEngine.{compute_var}
use trading_simulation.VolatilitySurface.{load_surface}
use trading_simulation.Prelude.Text.{codes}
use trading_simulation.RiskEngine.Var.{compute_var_answers}
use trading_simulation.ColdPath.{ColdPath, cycle}
use trading_simulation.ColdPath.Drain.{Passed, cycle-Passed}
use trading_simulation.Tests.Fixed.{fixed, clock}

-- `11=AB|54=1|38=50`
abbrev fields : List Field
fields = (49 ∷ 49 ∷ [], 65 ∷ 66 ∷ []) ∷ (53 ∷ 52 ∷ [], 49 ∷ []) ∷ (51 ∷ 56 ∷ [], 53 ∷ 48 ∷ []) ∷ []

abbrev line : List ℕ
line = render fields

abbrev atof : List ℕ → ℤ
atof bytes = pos 0

parse_fix_line-render_example :
    parse_fix_line atof (pos 0) (pos 7) line
    ≡ some (store_fields atof (stamped (pos 0) (pos 7)) fields)
parse_fix_line-render_example = parse_fix_line-render atof (pos 0) (pos 7) fields (
  (omega arith, (omega arith, tt)),
  (omega arith, (omega arith, tt)),
  (
    (omega arith, (omega arith, tt)),
    (omega arith, tt),
    ((omega arith, (omega arith, tt)), (omega arith, (omega arith, tt)), tt),
  ),
)

replay_orders-Returns_example :
    (ob' : OrderBook ℤ) × (replay_orders fixed clock atof
        (pos 0)
        clock
        (λ _. true)
        (new_order_book (pos 0) true)
        (line ++ 10 ∷ line)
      ≡ done ob')
    × IsValid pool_capacity ob'
replay_orders-Returns_example =
    replay_orders-Returns fixed clock atof (pos 0) clock (λ _. true) (new_order_book (pos 0) true)
      (line ++ 10 ∷ line) (new_order_book-IsValid (pos 0) true)

record_sample-Tracks_example : Tracks (record_sample reset (pos 300)) (300 ∷ [])
record_sample-Tracks_example =
    record_sample-Tracks reset [] (pos 300) reset-Tracks (λ n e. ground (arith, e))

percentile_at-IsRank_example : IsRank (300 ∷ []) 1 (percentile_at (record_sample reset (pos 300)) 1)
percentile_at-IsRank_example =
    percentile_at-IsRank (record_sample reset (pos 300)) (300 ∷ []) record_sample-Tracks_example
      (omega arith) 1 (omega arith) (omega arith)

abbrev eight_bytes : List ℕ
eight_bytes = 65 ∷ 66 ∷ 0 ∷ 0 ∷ 0 ∷ 0 ∷ 0 ∷ 0 ∷ []

abbrev tick : Tick ℤ
tick = record { symbol = eight_bytes; bid = pos 1; ask = pos 2; last = pos 3; timestamp_ns = pos 4 }

abbrev subscriptions : List (List ℕ × ℕ)
subscriptions = (65 ∷ 66 ∷ [], 2) ∷ (65 ∷ [], 1) ∷ []

dispatch-subscribed_example :
    dispatch (subscribed subscriptions) tick ≡ routed eight_bytes subscriptions
dispatch-subscribed_example =
    dispatch-subscribed eight_bytes refl
      (
        omega arith,
        (
          omega arith,
          (
            omega arith,
            (omega arith, (omega arith, (omega arith, (omega arith, (omega arith, tt))))),
          ),
        ),
      )
      tick subscriptions refl ((omega arith, (omega arith, tt)), ((omega arith, tt), tt))

-- A reader of whole numbers, in the place of `stod` and `stoi`.
abbrev read_whole : List ℕ → Option ℤ
read_whole [] = none
read_whole (c ∷ cs) = some (pos (sum_digits 0 (c ∷ cs)))
  where
    sum_digits : ℕ → List ℕ → ℕ
    sum_digits n [] = n
    sum_digits n (d ∷ ds) = sum_digits (n * 10 + (d - 48)) ds

abbrev surface_file : List ℕ
surface_file = codes "strike,expiry,vol\n150,30,1\n\n160,60,2\n"

compute_var_answers_example :
    (v : ℤ) × (compute_var fixed
        (λ x. x)
        (load_surface fixed read_whole read_whole [] surface_file).0
        []
        []
      ≡ some v)
compute_var_answers_example =
    compute_var_answers fixed (λ x. x) read_whole read_whole surface_file [] []

-- A fixed-point number has the value of an integer.
abbrev IsWhole : ℤ → ℤ → Type 0
IsWhole x a = pos_part x + neg_part a * 1000 ≡ pos_part a * 1000 + neg_part x

fixed-IsExact : IsExact fixed IsWhole
unfolding ◌+ℤ◌ ◌-ℤ◌
fixed-IsExact = record {
  naught = refl;
  add = λ x y a b h k s. ground arith;
  sub = λ x y a b h k s. ground arith;
  neg = λ x a h. ground arith;
  lt = λ x y a b h k. ground arith;
  le = λ x y a b h k. ground arith;
  eq = λ x y a b h k. ground arith;
}

abbrev execution : Side → ℕ → Execution ℤ
execution side units = record {
  buy_id = [];
  sell_id = [];
  symbol = 65 ∷ 0 ∷ [];
  trade_price = pos 150000;
  quantity = pos (units * 1000);
  side = side;
  arrival_ns = pos 9;
  order_arrival_ns = pos 7;
}

-- Bought 50, then sold 80.
abbrev fills : List (Execution ℤ × ℕ)
fills = (execution Side.sell 80, 80) ∷ (execution Side.buy 50, 50) ∷ []

ledger-net_example :
    IsWhole
      (holding fixed IsWhole fixed-IsExact (ledger fixed IsWhole fixed-IsExact fills) (65 ∷ []))
      (net fixed IsWhole fixed-IsExact fills (65 ∷ []))
ledger-net_example =
    ledger-net fixed IsWhole fixed-IsExact fills (65 ∷ []) (refl, (refl, tt)) (omega arith)

abbrev waiting : ColdPath ℤ
waiting = record {
  tick_queue = record { capacity = 4; buffer = λ _. tick; head = 3; tail = 1 };
  exec_queue = record { capacity = 4; buffer = λ _. execution Side.buy 50; head = 0; tail = 1 };
  prices = [];
  match_latency = reset;
  positions = [];
  total_drain_cycles = 0;
  max_tick_batch = 0;
  max_exec_batch = 0;
  max_tick_queue_depth = 0;
  max_exec_queue_depth = 0;
  spin = 0;
}

cycle-Passed_example : (c' : ColdPath ℤ) × (cycle fixed waiting ≡ some c') × Passed fixed waiting c'
cycle-Passed_example =
    cycle-Passed fixed waiting
      (record { head_in = omega arith; tail_in = omega arith; small = omega arith })
      (record { head_in = omega arith; tail_in = omega arith; small = omega arith })
