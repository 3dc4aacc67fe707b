-- ===== src/TickSimulator.antt =====
-- src/tools/udp_tick_simulator.cpp: the random walk of the prices and the datagrams. What the random
-- generators draw and what the clock reads is a list of draws. How a `double` makes eight bytes is a
-- parameter; an integer has its lowest byte first. `sendto` is the list of the datagrams.
pub mod Bytes
pub mod Delivery
use trading_simulation.Prelude.{
  ℕ, zero, suc, ◌+◌, ◌-◌, ◌*◌, ◌/◌, ◌%◌, List, [], ◌∷◌, ◌++◌, map, Option, none, some,
  if◌then◌else◌, get_elem?, set,
}
use trading_simulation.Prelude.Int.{ℤ, pos, negsuc}
use trading_simulation.Prelude.Text.{codes}
use trading_simulation.Word64.{word_mod}
use trading_simulation.Double.{Double}
use trading_simulation.OrderBook.{strncpy}
use trading_simulation.Dispatcher.{Tick}

pub record SimSymbol (D : Type 0) : Type 0 where
  pub symbol : List ℕ
  pub base_price : D
  pub current_price : D
  pub vol : D

-- What one round draws and reads.
pub record TickDraw (D : Type 0) : Type 0 where
  pub index : ℕ
  pub noise : D
  pub now : ℤ

-- The bytes of a word, `n` being left.
unfoldable pub word_bytes : ℕ → ℕ → List ℕ
word_bytes zero w = []
word_bytes (suc n) w = w % 256 ∷ word_bytes n (w / 256)

-- An `int64_t` as a word.
unfoldable pub as_word : ℤ → ℕ
as_word (pos n) = n % word_mod
as_word (negsuc n) = word_mod - 1 - n % word_mod

module _ (F : Double) where
  open F use {Carrier as D, decimal, add, sub, mul, lt}

  unfoldable pub symbols : List (SimSymbol D)
  symbols =
      let sim : List ℕ → D → D → SimSymbol D = λ symbol price vol. record {
        symbol = symbol;
        base_price = price;
        current_price = price;
        vol = vol;
      } in
      sim (codes "AAPL") (decimal 15000 2) (decimal 15 2)
      ∷ sim (codes "MSFT") (decimal 30000 2) (decimal 20 2)
      ∷ sim (codes "GOOGL") (decimal 14000 2) (decimal 12 2)
      ∷ sim (codes "TSLA") (decimal 20000 2) (decimal 25 2)
      ∷ sim (codes "ESZ4") (decimal 450000 2) (decimal 150 2)
      ∷ sim (codes "GBPUSD") (decimal 125 2) (decimal 2 3)
      ∷ []

  -- The step of a price: one below 0.01 goes back to the base price.
  unfoldable pub moved : SimSymbol D → D → SimSymbol D
  moved s noise =
      let price = add s.current_price (mul noise s.vol) in
      record s { current_price = if lt price (decimal 1 2) then s.base_price else price }

  -- `Tick tick{}` and the writes of its fields.
  unfoldable pub make_tick : SimSymbol D → ℤ → Tick D
  make_tick s now = record {
    symbol = strncpy 7 s.symbol ++ 0 ∷ [];
    bid = sub s.current_price (decimal 1 2);
    ask = add s.current_price (decimal 1 2);
    last = s.current_price;
    timestamp_ns = now;
  }

  -- `reinterpret_cast<const char*>(&tick)`, `sizeof(Tick)` bytes of it.
  unfoldable pub encode : (D → List ℕ) → Tick D → List ℕ
  encode write_double t =
      t.symbol
      ++ (write_double t.bid
          ++ (write_double t.ask ++ (write_double t.last ++ word_bytes 8 (as_word t.timestamp_ns))))

  -- The ticks of the loop, in order: an index outside the table does not come.
  unfoldable pub ticks_made : List (SimSymbol D) → List (TickDraw D) → Option (List (Tick D))
  ticks_made table [] = some []
  ticks_made table (d ∷ draws) = elim (get_elem? table d.index) [
    | none ↦ none
    | some s ↦
        let s' = moved s d.noise in
        (elim (ticks_made (set table d.index s') draws) [
          | none ↦ none
          | some rest ↦ some (make_tick s' d.now ∷ rest)
        ])
  ]

  -- What the loop sends.
  unfoldable pub send_loop :
      (D → List ℕ) → List (SimSymbol D) → List (TickDraw D) → Option (List (List ℕ))
  send_loop write_double table draws = elim (ticks_made table draws) [
    | none ↦ none
    | some ticks ↦ some (map (encode write_double) ticks)
  ]
