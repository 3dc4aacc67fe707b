-- ===== src/ColdPath/Drain.antt =====
-- A drain handles the waiting items in order and empties the queue.
use trading_simulation.Prelude.{
  ℕ, zero, suc, ◌+◌, ◌%◌, ◌<◌, ◌≡◌, refl, ap, ◌∙◌, subst, inl, inr, [], Option, none, some, arith,
  length, fold_list, ℕ-cases,
}
use trading_simulation.Word64.{word_mod}
use trading_simulation.Double.{Double}
use trading_simulation.SpscQueue
use trading_simulation.SpscQueue.{SpscQueue}
use trading_simulation.SpscQueue.Ring.{succ_in}
use trading_simulation.SpscQueue.Refine.{
  IsValid, contents, length-contents, contents_shrink, contents_empty, popped, popped_empty,
  pop-IsValid,
}
use trading_simulation.RiskEngine.{on_tick}
use trading_simulation.ColdPath.{drain, ColdPath, drained, take_execution, cycle}

module _ {A S : Type 0} (f : S → A → S) where
  -- The queue is left empty, and its items went through the work in order.
  abbrev pub Drains : SpscQueue A → S → ℕ → Option (SpscQueue A × S × ℕ) → Type 0
  Drains q s batch out =
      (q' : SpscQueue A) × (out
        ≡ some (q', fold_list f s (contents q), (batch + length (contents q)) % word_mod))
      × IsValid q'
      × (contents q' ≡ [])

  drain_stop :
      (fuel : ℕ) (q : SpscQueue A) (s : S) (batch : ℕ)
      → SpscQueue.pop q ≡ (none, q)
      → drain f (suc fuel) q s batch ≡ some (q, s, batch)
  unfolding drain
  drain_stop fuel q s batch e = ground (arith, e)

  drain_next :
      (fuel : ℕ) (q q' : SpscQueue A) (a : A) (s : S) (batch : ℕ)
      → SpscQueue.pop q ≡ (some a, q')
      → drain f (suc fuel) q s batch ≡ drain f fuel q' (f s a) ((batch + 1) % word_mod)
  unfolding drain
  drain_next fuel q q' a s batch e = ground (arith, e)

  pub drain-Drains :
      (fuel : ℕ) (q : SpscQueue A) (s : S) (batch : ℕ)
      → IsValid q
      → length (contents q) < fuel
      → batch < word_mod
      → Drains q s batch (drain f fuel q s batch)
  drain-Drains zero q s batch v l b = absurd (omega arith)
  drain-Drains (suc fuel) q s batch v l b = elim (ℕ-cases q.head q.tail) [
    | inl e ↦
        let nothing = contents_empty q v e in
        (
          q,
          drain_stop fuel q s batch (popped_empty q v e)
              ∙ rw nothing (ap (λ n. some (q, s, n)) (omega arith)),
          v,
          nothing,
        )
    | inr n ↦
        let q' : SpscQueue A = record q { head = succ_in q.capacity q.head } in
        let a = q.buffer q.head in
        let e = popped q v n in
        let v' = subst (λ (r : Option A × SpscQueue A). IsValid r.1) e (pop-IsValid q v) in
        let shrunk = contents_shrink q v n in
        let (q'', g, w, empty) =
          drain-Drains fuel q' (f s a) ((batch + 1) % word_mod) v' (omega (arith, ap length shrunk))
            (omega arith) in
        (
          q'',
          drain_next fuel q q' a s batch e
              ∙ g
              ∙ rw shrunk
                  (ap (λ k. some (q'', fold_list f (f s a) (contents q'), k)) (omega arith)),
          w,
          empty,
        )
  ]

few_waiting : {A : Type 0} (q : SpscQueue A) → IsValid q → length (contents q) < q.capacity
few_waiting q v = ground (arith, length-contents q v, v.head_in, v.tail_in)

module _ (F : Double) where
  -- What a pass leaves: both queues empty, the prices and the accounts as their items make them.
  pub record Passed (c c' : ColdPath F.Carrier) : Type 0 where
    pub no_ticks : contents c'.tick_queue ≡ []
    pub no_execs : contents c'.exec_queue ≡ []
    pub ticks_valid : IsValid c'.tick_queue
    pub execs_valid : IsValid c'.exec_queue
    pub priced : c'.prices ≡ fold_list (on_tick F) c.prices (contents c.tick_queue)
    pub accounted :
        (c'.match_latency, c'.positions)
        ≡ fold_list (take_execution F) (c.match_latency, c.positions) (contents c.exec_queue)

  -- On valid queues a pass of the main loop returns, each drain within as many rounds as its queue has
  -- slots; both queues are empty and valid, every waiting tick has set its price, and every waiting
  -- execution has been measured and booked, in the order of the queues.
  pub cycle-Passed :
      (c : ColdPath F.Carrier)
      → IsValid c.tick_queue
      → IsValid c.exec_queue
      → (c' : ColdPath F.Carrier) × (cycle F c ≡ some c') × Passed c c'
  unfolding cycle drained
  cycle-Passed c v w =
      let (ticks, e, tv, te) =
        drain-Drains (on_tick F) c.tick_queue.capacity c.tick_queue c.prices 0 v
          (few_waiting c.tick_queue v) (omega arith) in
      let (execs, g, xv, xe) =
        drain-Drains (take_execution F) c.exec_queue.capacity c.exec_queue
          (c.match_latency, c.positions) 0 w (few_waiting c.exec_queue w) (omega arith) in
      let after =
        drained F c
          (
            ticks,
            fold_list (on_tick F) c.prices (contents c.tick_queue),
            (0 + length (contents c.tick_queue)) % word_mod,
          )
          (
            execs,
            fold_list (take_execution F) (c.match_latency, c.positions) (contents c.exec_queue),
            (0 + length (contents c.exec_queue)) % word_mod,
          ) in
      (
        after,
        ground (arith, e, g),
        record {
          no_ticks = te;
          no_execs = xe;
          ticks_valid = tv;
          execs_valid = xv;
          priced = refl;
          accounted = refl;
        },
      )
