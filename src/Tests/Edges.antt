-- ===== src/Tests/Edges.antt =====
-- The theorems on the feed and on the simulator of orders, each at a concrete input.
use trading_simulation.Prelude.{ℕ, ◌≡◌, refl, List, [], ◌∷◌, ◌++◌, some, true, arith, replicate}
use trading_simulation.Prelude.Int.{ℤ, pos, pos_part, ◌+ℤ◌, ◌-ℤ◌, ◌*ℤ◌}
use trading_simulation.Prelude.Text.{codes}
use trading_simulation.OrderBook.{done}
use trading_simulation.OrderBook.{sym_key}
use trading_simulation.FixSession.{start}
use trading_simulation.InstrumentStore.Print.{digits}
use trading_simulation.OrderSimulator.{SimSymbol, Draw, walked, simulate}
use trading_simulation.OrderSimulator.Lines.{IsDecimal}
use trading_simulation.OrderSimulator.File.{Fits, collect, orders_made, start-simulate}
use trading_simulation.Feed.{failed, datagram, receive}
use trading_simulation.Feed.Whole.{datagrams, ticks_of, receive-ticks_of}
use trading_simulation.Tests.Fixed.{fixed, clock}

-- A datagram of a tick, one that is cut off, and one with bytes behind the tick.
abbrev arrived : List (List ℕ)
arrived = replicate 40 65 ∷ (1 ∷ 2 ∷ []) ∷ replicate 41 66 ∷ []

receive-ticks_of_example :
    receive sym_key (λ _. true) 0 (datagrams arrived ++ failed ∷ datagram (replicate 40 67) ∷ [])
    ≡ ticks_of sym_key arrived
receive-ticks_of_example =
    receive-ticks_of sym_key (λ _. true) 0 arrived (datagram (replicate 40 67) ∷ []) (λ k l m. refl)

abbrev nine_digits : ℕ → List ℕ
nine_digits n = digits 9 n

nine_digits-IsDecimal : IsDecimal nine_digits
nine_digits-IsDecimal n h = (9, omega arith, h, refl)

abbrev cents : ℤ → List ℕ
cents p = digits 6 (pos_part p)

abbrev first_byte : List ℕ → ℤ
first_byte [] = pos 0
first_byte (c ∷ cs) = pos c

abbrev table : List (SimSymbol ℤ)
table =
    record { symbol = codes "AAPL"; current_price = pos 150_000; vol = pos 100 }
    ∷ record { symbol = codes "TSLA"; current_price = pos 200_000; vol = pos 200 }
    ∷ []

-- A purchase of 30 of the second, and a sale of 55 of it.
abbrev draws : List (Draw ℤ)
draws =
    record { index = 1; noise = pos 500; side = 0; quantity = 30 }
    ∷ record { index = 1; noise = pos 2000; side = 1; quantity = 55 }
    ∷ []

draws-Fits : Fits fixed nine_digits cents first_byte clock table draws
unfolding walked ◌+ℤ◌ ◌-ℤ◌ ◌*ℤ◌
draws-Fits = (
  (omega arith, omega arith, omega arith, omega arith, omega arith, omega arith, omega arith),
  ((omega arith, omega arith, omega arith, omega arith, omega arith, omega arith, omega arith), tt),
)

start-simulate_example :
    (file : List ℕ) × (simulate fixed nine_digits cents 1 table draws ≡ some file)
    × (start first_byte
          (collect fixed nine_digits cents first_byte clock)
          (pos 0)
          clock
          (λ r. true)
          []
          file
        ≡ done (orders_made fixed nine_digits cents first_byte clock 1 0 table draws))
start-simulate_example =
    start-simulate fixed nine_digits cents first_byte clock nine_digits-IsDecimal table draws
      (omega arith) draws-Fits
