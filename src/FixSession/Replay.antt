-- ===== src/FixSession/Replay.antt =====
-- The loop over the lines of the file, and the replay of a file into the order book.
use trading_simulation.Prelude.{
  ℕ, zero, suc, ◌<◌, ◌≡◌, refl, ◌∙◌, List, [], ◌∷◌, Bool, true, false, arith, length, Bool-cases,
  inl, inr,
}
use trading_simulation.Prelude.Int.{ℤ}
use trading_simulation.Double.{Double}
use trading_simulation.Order.{Order}
use trading_simulation.OrderBook.{OrderBook, Outcome, done, pool_capacity, accept_new_order}
use trading_simulation.OrderBook.Accept.{IsValid, accept_new_order-Returns}
use trading_simulation.FixSession.{until, call_back, handle_line, replay, start}
use trading_simulation.FixSession.Scan.{until_passes}
use trading_simulation.FixSession.Lines.{parse_fix_line_ends}

module _ {D S : Type 0} (atof : List ℕ → D) (callback : S → Order D → Outcome S) (z : D)
    (now : ℕ → ℤ) (running : ℕ → Bool) (P : S → Type 0)
    (kept : (s : S) (o : Order D) → P s → (s' : S) × (callback s o ≡ done s') × P s') where
  -- A run that returns, in a state with the property.
  abbrev Keeps : Outcome S → Type 0
  Keeps out = (s' : S) × (out ≡ done s') × P s'

  handle_line-Keeps :
      (i : ℕ) (s : S) (line : List ℕ)
      → P s
      → Keeps (handle_line atof callback z now running i s line)
  unfolding handle_line call_back
  handle_line-Keeps i s [] h = (s, refl, h)
  handle_line-Keeps i s (c ∷ cs) h =
      let (o, e) = parse_fix_line_ends atof z (now i) (c ∷ cs) in
      let (s', f, h') = kept s o h in (s', rw e f, h')

  replay_stopped :
      (fuel i : ℕ) (s : S) (c : ℕ) (cs : List ℕ)
      → running i ≡ false
      → replay atof callback z now running (suc fuel) i s (c ∷ cs) ≡ done s
  unfolding replay
  replay_stopped fuel i s c cs e = ground (arith, e)

  pub replay_handled :
      (fuel i : ℕ) (s s' : S) (c : ℕ) (cs : List ℕ)
      → running i ≡ true
      → handle_line atof callback z now running i s (until 10 (c ∷ cs)).0 ≡ done s'
      → replay atof callback z now running (suc fuel) i s (c ∷ cs)
        ≡ replay atof callback z now running fuel (suc i) s' (until 10 (c ∷ cs)).1
  unfolding replay
  replay_handled fuel i s s' c cs e f = ground (arith, e, f)

  pub replay-Keeps :
      (fuel i : ℕ) (s : S) (p : List ℕ)
      → P s
      → length p < fuel
      → Keeps (replay atof callback z now running fuel i s p)
  unfolding replay
  replay-Keeps zero i s p h l = absurd (omega arith)
  replay-Keeps (suc fuel) i s [] h l = (s, refl, h)
  replay-Keeps (suc fuel) i s (c ∷ cs) h l = elim (Bool-cases (running i)) [
    | inr e ↦ (s, replay_stopped fuel i s c cs e, h)
    | inl e ↦
        let (s', f, h') = handle_line-Keeps i s (until 10 (c ∷ cs)).0 h in
        let (s'', g, h'') =
          replay-Keeps fuel (suc i) s' (until 10 (c ∷ cs)).1 h'
            (omega (arith, until_passes 10 c cs)) in
        (s'', replay_handled fuel i s s' c cs e f ∙ g, h'')
  ]

  -- A property of the state that the callback keeps, in calls that return, is kept by the reading of
  -- any file, stopped early or not; the reading returns.
  pub start_keeps :
      (s : S) (data_ : List ℕ)
      → P s
      → (s' : S) × (start atof callback z now running s data_ ≡ done s') × P s'
  unfolding start
  start_keeps s data_ h = replay-Keeps (suc (length data_)) 0 s data_ h (omega arith)

-- The file replayed into the order book, whose executions read the clock `clock`.
abbrev pub replay_orders :
    (F : Double)
    → (ℕ → ℤ)
    → (List ℕ → F.Carrier)
    → F.Carrier
    → (ℕ → ℤ)
    → (ℕ → Bool)
    → OrderBook F.Carrier
    → List ℕ
    → Outcome (OrderBook F.Carrier)
replay_orders F clock atof z now running ob data_ =
    start atof (accept_new_order F clock) z now running ob data_

-- Replaying any bytes into a valid order book, stopped early or not, returns (no null pointer is met
-- and no loop goes on for ever), and leaves a valid order book, in which no book crosses.
pub replay_orders-Returns :
    (F : Double) (clock : ℕ → ℤ) (atof : List ℕ → F.Carrier) (z : F.Carrier) (now : ℕ → ℤ)
    (running : ℕ → Bool) (ob : OrderBook F.Carrier) (data_ : List ℕ)
    → IsValid pool_capacity ob
    → (ob' : OrderBook F.Carrier) × (replay_orders F clock atof z now running ob data_ ≡ done ob')
      × IsValid pool_capacity ob'
replay_orders-Returns F clock atof z now running ob data_ v =
    start_keeps atof (accept_new_order F clock) z now running (IsValid pool_capacity)
      (λ s o h. accept_new_order-Returns F clock s o h) ob data_ v
