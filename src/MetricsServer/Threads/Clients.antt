-- ===== src/MetricsServer/Threads/Clients.antt =====
-- The client threads when the flag is off.
use trading_simulation.Prelude.{ℕ, suc, ◌+◌, ◌≤◌, ◌<◌, ◌≡◌, refl, inl, inr, ◌⊎◌, false, arith}
use trading_simulation.MetricsServer.Threads.{
  Client, Serves, handshaking, sleeping, checking, writing, leaving, gone, upgraded, refused,
  goes_on, stops, wakes, still_runs, stopped_asleep, wrote, disconnected, left,
}

-- How many steps a client thread still takes when the flag is off.
abbrev rank : Client → ℕ
rank handshaking = 3
rank Client.testing = 2
rank sleeping = 3
rank checking = 2
rank writing = 3
rank leaving = 1
rank gone = 0

rank-Serves : {a b : Client} → Serves false a b → rank b < rank a
rank-Serves upgraded = omega arith
rank-Serves refused = omega arith
rank-Serves (goes_on on) = absurd cc
rank-Serves (stops off) = omega arith
rank-Serves wakes = omega arith
rank-Serves (still_runs on) = absurd cc
rank-Serves (stopped_asleep off) = omega arith
rank-Serves wrote = omega arith
rank-Serves disconnected = omega arith
rank-Serves left = omega arith

client_goes : (a : Client) → (a ≡ gone) ⊎ ((b : Client) × Serves false a b)
client_goes handshaking = inr (gone, refused)
client_goes Client.testing = inr (leaving, stops refl)
client_goes sleeping = inr (checking, wakes)
client_goes checking = inr (leaving, stopped_asleep refl)
client_goes writing = inr (leaving, disconnected)
client_goes leaving = inr (gone, left)
client_goes gone = inl refl

-- A run of a client thread by so many steps while the flag is off.
pub data ServesFor : ℕ → Client → Client → Type 0 where
  stay : {a : Client} → ServesFor 0 a a
  go_on : {n : ℕ} {a b c : Client} → Serves false a b → ServesFor n b c → ServesFor (suc n) a c

rank-ServesFor : {n : ℕ} {a b : Client} → ServesFor n a b → n + rank b ≤ rank a
rank-ServesFor stay = omega arith
rank-ServesFor (go_on st r) = omega (arith, rank-Serves st, rank-ServesFor r)

rank_le : (a : Client) → rank a ≤ 3
rank_le handshaking = omega arith
rank_le Client.testing = omega arith
rank_le sleeping = omega arith
rank_le checking = omega arith
rank_le writing = omega arith
rank_le leaving = omega arith
rank_le gone = omega arith

-- With the flag off a client thread takes at most three steps, from wherever it is, and it can take the
-- next one until it has ended.
pub client_ends :
    (n : ℕ) (a b : Client)
    → ServesFor n a b
    → (n ≤ 3) × ((b ≡ gone) ⊎ ((c : Client) × Serves false b c))
client_ends n a b r = (omega (arith, rank-ServesFor r, rank_le a), client_goes b)
