-- ===== src/FixSession/Orders.antt =====
-- The orders of a file: what `start` does with a callback is to call it with each of them.
use trading_simulation.Prelude.{
  ℕ, zero, suc, ◌<◌, ◌≡◌, refl, sym, ap, ◌∙◌, List, [], ◌∷◌, ◌++◌, append_assoc, append-nil, Bool,
  true, arith, length, fun_ext, Bool-cases, inl, inr,
}
use trading_simulation.Prelude.Int.{ℤ}
use trading_simulation.Order.{Order}
use trading_simulation.OrderBook.{Outcome, done, fault, out_of_fuel}
use trading_simulation.OrderBook.Serial.{followed, followed_done, each, each-append}
use trading_simulation.FixSession.{until, call_back, handle_line, replay, start}
use trading_simulation.FixSession.Scan.{until_passes}
use trading_simulation.FixSession.Lines.{parse_fix_line_ends}

-- The callback that keeps the orders.
abbrev pub kept : {D : Type 0} → List (Order D) → Order D → Outcome (List (Order D))
kept os o = done (os ++ o ∷ [])

module _ {D : Type 0} (atof : List ℕ → D) (z : D) (now : ℕ → ℤ) (running : ℕ → Bool) where
  -- What every callback is called with.
  abbrev Calls : ℕ → ℕ → List ℕ → List (Order D) → Type 1
  Calls fuel i p os =
      (S : Type 0) (f : S → Order D → Outcome S) (s : S)
      → replay atof f z now running fuel i s p ≡ each f s os

  line_calls :
      (i : ℕ) (line : List ℕ)
      → (os : List (Order D)) × ((S : Type 0) (f : S → Order D → Outcome S) (s : S)
          → handle_line atof f z now running i s line ≡ each f s os)
  unfolding handle_line call_back
  line_calls i [] = ([], λ S f s. refl)
  line_calls i (c ∷ cs) =
      let (o, e) = parse_fix_line_ends atof z (now i) (c ∷ cs) in
      (o ∷ [], λ S f s. rw e (sym (followed_done (f s o))))

  replay_goes_at :
      (S : Type 0) (f : S → Order D → Outcome S) (fuel i : ℕ) (s : S) (c : ℕ) (cs : List ℕ)
      (out : Outcome S)
      → running i ≡ true
      → handle_line atof f z now running i s (until 10 (c ∷ cs)).0 ≡ out
      → replay atof f z now running (suc fuel) i s (c ∷ cs)
        ≡ followed out (λ s'. replay atof f z now running fuel (suc i) s' (until 10 (c ∷ cs)).1)
  unfolding replay
  replay_goes_at S f fuel i s c cs (done s') e h = ground (arith, e, h)
  replay_goes_at S f fuel i s c cs fault e h = ground (arith, e, h)
  replay_goes_at S f fuel i s c cs out_of_fuel e h = ground (arith, e, h)

  orders_read :
      (fuel i : ℕ) (p : List ℕ) → length p < fuel → (os : List (Order D)) × Calls fuel i p os
  unfolding replay
  orders_read zero i p l = absurd (omega (arith, l))
  orders_read (suc fuel) i [] l = ([], λ S f s. refl)
  orders_read (suc fuel) i (c ∷ cs) l = elim (Bool-cases (running i)) [
    | inr e ↦ ([], λ S f s. ground (arith, e))
    | inl e ↦
        let (os, h) = line_calls i (until 10 (c ∷ cs)).0 in
        let (more, k) =
          orders_read fuel (suc i) (until 10 (c ∷ cs)).1 (omega (arith, l, until_passes 10 c cs)) in
        (
          os ++ more,
          λ S f s.
              replay_goes_at S f fuel i s c cs (each f s os) e (h S f s)
              ∙ ap (followed (each f s os)) (fun_ext (λ s'. k S f s'))
              ∙ sym (each-append f s os more),
        )
  ]

  keeps_all : (seen os : List (Order D)) → each kept seen os ≡ done (seen ++ os)
  keeps_all seen [] = ap done (sym (append-nil seen))
  keeps_all seen (o ∷ os) = keeps_all (seen ++ o ∷ []) os ∙ ap done (append_assoc seen (o ∷ []) os)

  -- A file is read as a list of orders, which does not depend on the callback: a callback that keeps the
  -- orders gets this list, and with any callback, one that fails included, `start` does what calling it
  -- with each order of the list does, up to the first call that does not return.
  pub start-each :
      (data_ : List ℕ)
      → (os : List (Order D)) × (start atof kept z now running [] data_ ≡ done os)
        × ((S : Type 0) (f : S → Order D → Outcome S) (s : S)
            → start atof f z now running s data_ ≡ each f s os)
  unfolding start
  start-each data_ =
      let (os, h) = orders_read (suc (length data_)) 0 data_ (omega arith) in
      (os, h (List (Order D)) kept [] ∙ keeps_all [] os, h)

  kept_of : Outcome (List (Order D)) → List (Order D)
  kept_of (done os) = os
  kept_of fault = []
  kept_of out_of_fuel = []

  -- The same, for a list that the file is known to be read as.
  pub start-kept :
      (S : Type 0) (f : S → Order D → Outcome S) (s : S) (data_ : List ℕ) (os : List (Order D))
      → start atof kept z now running [] data_ ≡ done os
      → start atof f z now running s data_ ≡ each f s os
  unfolding kept_of
  start-kept S f s data_ os h =
      let (os', e, k) = start-each data_ in k S f s ∙ ap (each f s) (ap kept_of (sym e ∙ h))
