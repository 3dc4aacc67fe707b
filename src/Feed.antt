-- ===== src/Feed.antt =====
-- libs/market_data/src/udp_feed_subscriber.cpp: the loop of `start` over what `recvfrom` returns. A
-- datagram longer than the buffer is cut off by `recvfrom`. How eight bytes make a `double` is a parameter;
-- an integer has its lowest byte first.
pub mod Whole
pub mod Threads
use trading_simulation.Prelude.{
  ℕ, zero, suc, List, [], ◌∷◌, Bool, ltb, if◌then◌else◌, take, drop, length,
}
use trading_simulation.OrderBook.{sym_key}
use trading_simulation.LatencyTracker.{signed}
use trading_simulation.Dispatcher.{Tick}

-- `sizeof(Tick)`
abbrev pub tick_size : ℕ
tick_size = 40

-- What one call of `recvfrom` brings.
pub data Received : Type 0 where
  failed : Received
  datagram : List ℕ → Received

module _ {D : Type 0} (read_double : List ℕ → D) where
  -- `*reinterpret_cast<const Tick*>(buffer)`
  unfoldable pub decode : List ℕ → Tick D
  decode bytes = record {
    symbol = take 8 bytes;
    bid = read_double (take 8 (drop 8 bytes));
    ask = read_double (take 8 (drop 16 bytes));
    last = read_double (take 8 (drop 24 bytes));
    timestamp_ns = signed (sym_key (take 8 (drop 32 bytes)));
  }

  -- The ticks that the loop dispatches; `running n` is what round `n` reads of the flag. Where the list of
  -- results ends, the loop waits for the next one.
  unfoldable pub receive : (ℕ → Bool) → ℕ → List Received → List (Tick D)
  receive running n [] = []
  receive running n (failed ∷ results) = []
  receive running n (datagram bytes ∷ results) =
      let rest = receive running (suc n) results in
      let buffer = take tick_size bytes in
      if running n
      then (if ltb (length buffer) tick_size then rest else decode buffer ∷ rest)
      else []
