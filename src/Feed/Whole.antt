-- ===== src/Feed/Whole.antt =====
-- Which datagrams of the feed are dispatched.
use trading_simulation.Prelude.{
  ℕ, zero, suc, ◌+◌, ◌≤◌, ◌<◌, ◌≡◌, refl, ap, inl, inr, List, [], ◌∷◌, ◌++◌, Bool, true, leb,
  if◌then◌else◌, take, length, arith, Bool-cases,
}
use trading_simulation.Dispatcher.{Tick}
use trading_simulation.Feed.{Received, failed, datagram, tick_size, decode, receive}

abbrev pub datagrams : List (List ℕ) → List Received
datagrams [] = []
datagrams (bytes ∷ rest) = datagram bytes ∷ datagrams rest

-- The ticks of the datagrams with the bytes of a tick at least.
abbrev pub ticks_of : {D : Type 0} → (List ℕ → D) → List (List ℕ) → List (Tick D)
ticks_of read_double [] = []
ticks_of read_double (bytes ∷ rest) =
    if leb tick_size (length bytes)
    then decode read_double (take tick_size bytes) ∷ ticks_of read_double rest
    else ticks_of read_double rest

length-take_full : (n : ℕ) (xs : List ℕ) → n ≤ length xs → length (take n xs) ≡ n
length-take_full zero xs h = refl
length-take_full (suc n) [] h = absurd (omega (arith, h))
length-take_full (suc n) (x ∷ xs) h = ap suc (length-take_full n xs (omega (arith, h)))

length-take_short : (n : ℕ) (xs : List ℕ) → length xs < n → length (take n xs) ≡ length xs
length-take_short zero xs h = absurd (omega (arith, h))
length-take_short (suc n) [] h = refl
length-take_short (suc n) (x ∷ xs) h = ap suc (length-take_short n xs (omega (arith, h)))

module _ {D : Type 0} (read_double : List ℕ → D) (running : ℕ → Bool) where
  -- While the flag is on and the datagrams come, each with the bytes of a tick at least is dispatched as the
  -- tick of its first bytes, the others are passed over, and at the first failure the loop ends: what comes
  -- behind it is not read.
  pub receive-ticks_of :
      (n : ℕ) (ds : List (List ℕ)) (behind : List Received)
      → ((k : ℕ) → n ≤ k → k < n + length ds → running k ≡ true)
      → receive read_double running n (datagrams ds ++ failed ∷ behind) ≡ ticks_of read_double ds
  unfolding receive
  receive-ticks_of n [] behind on = refl
  receive-ticks_of n (bytes ∷ ds) behind on =
      let rest =
        receive-ticks_of (suc n) ds behind (λ k l m. on k (omega (arith, l)) (omega (arith, m))) in
      let now : running n ≡ true = on n (omega arith) (omega arith) in
      elim (Bool-cases (leb tick_size (length bytes))) [
        | inl whole ↦
            let full = length-take_full tick_size bytes (ground (arith, whole)) in
            ground (arith, now, full, whole, rest)
        | inr cut ↦
            let short = length-take_short tick_size bytes (ground (arith, cut)) in
            ground (arith, now, short, cut, rest)
      ]
