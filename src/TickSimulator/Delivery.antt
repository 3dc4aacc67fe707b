-- ===== src/TickSimulator/Delivery.antt =====
-- Every tick that the simulator sends, from its socket to the callback of the program.
use trading_simulation.Prelude.{
  ℕ, zero, suc, ◌<◌, ◌≡◌, refl, sym, ap, ◌∙◌, subst, List, [], ◌∷◌, ◌++◌, map, Option, some, Bool,
  true, length, length-append, arith, All, get_elem?, set, inl, inr, length-set, length-replicate,
  ◌==◌, Bool-cases,
}
use trading_simulation.Prelude.Int.{ℤ}
use trading_simulation.Prelude.Text.{codes}
use trading_simulation.Double.{Double}
use trading_simulation.OrderBook.{strncpy, sym_key}
use trading_simulation.Dispatcher.{Tick, dispatch, subscribe, padded}
use trading_simulation.Feed.{failed, receive, Received}
use trading_simulation.Feed.Whole.{datagrams, receive-ticks_of}
use trading_simulation.Trading.{subscriptions}
use trading_simulation.TickSimulator.{
  SimSymbol, TickDraw, symbols, moved, make_tick, encode, ticks_made, send_loop,
}
use trading_simulation.TickSimulator.Bytes.{IsInt64, IsWireTick, ticks_of-encode}

length-strncpy : (n : ℕ) (src : List ℕ) → length (strncpy n src) ≡ n
unfolding strncpy
length-strncpy zero src = refl
length-strncpy (suc n) [] = ap suc (length-strncpy n [])
length-strncpy (suc n) (c ∷ cs) = elim (Bool-cases (c == 0)) [
  | inl e ↦ rw e (length-replicate (suc n) 0)
  | inr e ↦ rw e (ap suc (length-strncpy n cs))
]

-- The program has one subscription for the symbol.
abbrev IsHeard : List ℕ → Type 0
IsHeard symbol = subscriptions (sym_key (strncpy 7 symbol ++ 0 ∷ [])) ≡ some (tt ∷ [])

names-IsHeard :
    IsHeard (codes "AAPL")
    × IsHeard (codes "MSFT")
    × IsHeard (codes "GOOGL")
    × IsHeard (codes "TSLA")
    × IsHeard (codes "ESZ4")
    × IsHeard (codes "GBPUSD")
unfolding subscriptions subscribe sym_key strncpy padded
names-IsHeard = (refl, refl, refl, refl, refl, refl)

-- An index of a list whose members have a property.
All_get :
    {A : Type 0} (P : A → Type 0) (xs : List A) (i : ℕ)
    → All P xs
    → i < length xs
    → (x : A) × (get_elem? xs i ≡ some x) × P x
All_get P [] i h l = absurd (omega (arith, l))
All_get P (y ∷ ys) zero h l = (y, refl, h.0)
All_get P (y ∷ ys) (suc i) h l = All_get P ys i h.1 (omega (arith, l))

All-set :
    {A : Type 0} (P : A → Type 0) (xs : List A) (i : ℕ) (x : A)
    → All P xs
    → P x
    → All P (set xs i x)
All-set P [] i x h k = tt
All-set P (y ∷ ys) zero x h k = (k, h.1)
All-set P (y ∷ ys) (suc i) x h k = (h.0, All-set P ys i x h.1 k)

module _ (F : Double) where
  abbrev pub IsDelivered : Tick F.Carrier → Type 0
  IsDelivered t = dispatch subscriptions t ≡ tt ∷ []

  abbrev Hears : SimSymbol F.Carrier → Type 0
  Hears s = IsHeard s.symbol

  -- A draw of an index of the table, at a time that an `int64_t` holds.
  abbrev pub IsDrawn : ℕ → TickDraw F.Carrier → Type 0
  IsDrawn n d = (d.index < n) × IsInt64 d.now

  make_tick-IsDelivered :
      (s : SimSymbol F.Carrier) (now : ℤ) → Hears s → IsDelivered (make_tick F s now)
  unfolding make_tick dispatch
  make_tick-IsDelivered s now h = rw h refl

  make_tick-IsWire :
      (s : SimSymbol F.Carrier) (now : ℤ) → IsInt64 now → IsWireTick (make_tick F s now)
  unfolding make_tick
  make_tick-IsWire s now h =
      (length-append (strncpy 7 s.symbol) (0 ∷ []) ∙ omega (arith, length-strncpy 7 s.symbol), h)

  -- The ticks of some draws.
  abbrev Makes : List (TickDraw F.Carrier) → Option (List (Tick F.Carrier)) → Type 0
  Makes draws out =
      (ticks : List (Tick F.Carrier)) × (out ≡ some ticks)
      × (length ticks ≡ length draws)
      × All IsWireTick ticks
      × All IsDelivered ticks

  made_behind :
      (table table' : List (SimSymbol F.Carrier)) (d : TickDraw F.Carrier)
      (draws : List (TickDraw F.Carrier)) (s : SimSymbol F.Carrier) (ticks : List (Tick F.Carrier))
      → get_elem? table d.index ≡ some s
      → ticks_made F (set table d.index (moved F s d.noise)) draws ≡ some ticks
      → ticks_made F table (d ∷ draws) ≡ some (make_tick F (moved F s d.noise) d.now ∷ ticks)
  unfolding ticks_made
  made_behind table table' d draws s ticks e f = ground (arith, e, f)

  ticks_made-Makes :
      (table : List (SimSymbol F.Carrier)) (draws : List (TickDraw F.Carrier))
      → All Hears table
      → All (IsDrawn (length table)) draws
      → Makes draws (ticks_made F table draws)
  unfolding ticks_made moved
  ticks_made-Makes table [] h k = ([], refl, refl, tt, tt)
  ticks_made-Makes table (d ∷ draws) h k =
      let (s, e, heard) = All_get Hears table d.index h k.0.0 in
      let s' = moved F s d.noise in
      let table' = set table d.index s' in
      let (ticks, made, long, wire, delivered) =
        ticks_made-Makes table' draws (All-set Hears table d.index s' h heard)
          (subst (λ n. All (IsDrawn n) draws) (sym (length-set table d.index s')) k.1) in
      (
        make_tick F s' d.now ∷ ticks,
        made_behind table table' d draws s ticks e made,
        ap suc long,
        (make_tick-IsWire s' d.now k.0.1, wire),
        (make_tick-IsDelivered s' d.now heard, delivered),
      )

  symbols-Hears : All Hears (symbols F)
  unfolding symbols
  symbols-Hears = let (a, b, c, d, e, f) = names-IsHeard in (a, (b, (c, (d, (e, (f, tt))))))

  length-symbols : length (symbols F) ≡ 6
  unfolding symbols
  length-symbols = refl

  sent_ticks :
      (write_double : F.Carrier → List ℕ) (draws : List (TickDraw F.Carrier))
      (ticks : List (Tick F.Carrier))
      → ticks_made F (symbols F) draws ≡ some ticks
      → send_loop F write_double (symbols F) draws ≡ some (map (encode F write_double) ticks)
  unfolding send_loop
  sent_ticks write_double draws ticks e = ground (arith, e)

  length-map :
      (f : Tick F.Carrier → List ℕ) (ticks : List (Tick F.Carrier))
      → length (map f ticks) ≡ length ticks
  length-map f [] = refl
  length-map f (t ∷ ticks) = ap suc (length-map f ticks)

  -- For any draws of the simulator's table, at times that an int64_t holds, the loop sends one datagram for
  -- each draw. If these arrive in order while the flag of the feed is on, up to a failure, the feed
  -- dispatches exactly the ticks that were made, in order, and each of them calls the program's tick
  -- callback exactly once; a double is taken to be read back from the eight bytes that are written of it.
  pub receive-send_loop :
      (write_double : F.Carrier → List ℕ) (read_double : List ℕ → F.Carrier) (running : ℕ → Bool)
      (draws : List (TickDraw F.Carrier)) (behind : List Received)
      → ((d : F.Carrier) → length (write_double d) ≡ 8)
      → ((d : F.Carrier) → read_double (write_double d) ≡ d)
      → All (IsDrawn 6) draws
      → ((k : ℕ) → k < length draws → running k ≡ true)
      → (sent : List (List ℕ)) × (ticks : List (Tick F.Carrier)) × (send_loop F write_double
            (symbols F)
            draws
          ≡ some sent)
        × (ticks_made F (symbols F) draws ≡ some ticks)
        × (length ticks ≡ length draws)
        × (receive read_double running 0 (datagrams sent ++ failed ∷ behind) ≡ ticks)
        × All IsDelivered ticks
  receive-send_loop write_double read_double running draws behind eight reads drawn on =
      let (ticks, made, long, wire, delivered) =
        ticks_made-Makes (symbols F) draws symbols-Hears
          (subst (λ n. All (IsDrawn n) draws) (sym length-symbols) drawn) in
      let sent = map (encode F write_double) ticks in
      (
        sent,
        ticks,
        sent_ticks write_double draws ticks made,
        made,
        long,
        receive-ticks_of read_double running 0 sent behind
              (λ k z l. on k (omega (arith, l, long, length-map (encode F write_double) ticks)))
            ∙ ticks_of-encode F write_double read_double eight reads ticks wire,
        delivered,
      )
