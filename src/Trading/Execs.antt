-- ===== src/Trading/Execs.antt =====
-- What the execution callback makes of the executions reported to it.
use trading_simulation.Prelude.{
  Bool, ℕ, zero, suc, ◌+◌, ◌%◌, ◌<◌, ◌≡◌, ◌≢◌, refl, sym, ap, ◌∙◌, subst, inl, inr, List, [], ◌∷◌,
  ◌++◌, append-nil, append_assoc, arith, fold_list, ℕ-cases,
}
use trading_simulation.Word64.{word_mod}
use trading_simulation.Order.{Execution}
use trading_simulation.SpscQueue
use trading_simulation.SpscQueue.{SpscQueue}
use trading_simulation.SpscQueue.Ring.{succ_in}
use trading_simulation.SpscQueue.Refine.{
  IsValid, contents, contents_grow, pushed, pushed_full, push-IsValid,
}
use trading_simulation.ColdPath.{exec_callback}

-- The second list is the first with `n` items left out.
pub data LeftOut {A : Type 0} : List A → List A → ℕ → Type 0 where
  nil : LeftOut [] [] zero
  keep : {x : A} {xs ys : List A} {n : ℕ} → LeftOut xs ys n → LeftOut (x ∷ xs) (x ∷ ys) n
  drop : {x : A} {xs ys : List A} {n : ℕ} → LeftOut xs ys n → LeftOut (x ∷ xs) ys (suc n)

pub LeftOut-append :
    {A : Type 0} {xs ys zs ws : List A} {n m : ℕ}
    → LeftOut xs ys n
    → LeftOut zs ws m
    → LeftOut (xs ++ zs) (ys ++ ws) (n + m)
LeftOut-append {zs} {ws} {m} nil k = subst (LeftOut zs ws) (omega arith) k
LeftOut-append (keep h) k = keep (LeftOut-append h k)
LeftOut-append {xs} {ys} {zs} {ws} {m} (drop {n} h) k =
    subst (LeftOut (xs ++ zs) (ys ++ ws)) (omega arith) (drop (LeftOut-append h k))

pub LeftOut-none : {A : Type 0} {xs ys : List A} {n : ℕ} → LeftOut xs ys n → n ≡ 0 → xs ≡ ys
LeftOut-none nil e = refl
LeftOut-none (keep {x} h) e = ap (λ l. x ∷ l) (LeftOut-none h e)
LeftOut-none (drop h) e = absurd (omega arith)

module _ {D : Type 0} where
  -- The queue has its items and those that it took, and each other one was counted.
  abbrev pub Takes :
      SpscQueue (Execution D) → ℕ → List (Execution D) → SpscQueue (Execution D) × ℕ → Type 0
  Takes q dropped es out =
      (n : ℕ) × (new : List (Execution D)) × (contents out.0 ≡ contents q ++ new)
      × LeftOut es new n
      × (out.1 ≡ (dropped + n) % word_mod)
      × IsValid out.0

  pub callback_full :
      (q : SpscQueue (Execution D)) (v : IsValid q) (dropped : ℕ) (e : Execution D)
      → succ_in q.capacity q.tail ≡ q.head
      → exec_callback (q, dropped) e ≡ (q, (dropped + 1) % word_mod)
  unfolding exec_callback
  callback_full q v dropped e full = rw (pushed_full q v e full)

  pub callback_room :
      (q : SpscQueue (Execution D)) (v : IsValid q) (dropped : ℕ) (e : Execution D)
      → succ_in q.capacity q.tail ≢ q.head
      → exec_callback (q, dropped) e ≡ ((SpscQueue.push q e).1, dropped)
  unfolding exec_callback
  callback_room q v dropped e room = rw (pushed q v e room)

  pub callbacks-Takes :
      (q : SpscQueue (Execution D)) (dropped : ℕ) (es : List (Execution D))
      → IsValid q
      → dropped < word_mod
      → Takes q dropped es (fold_list exec_callback (q, dropped) es)
  callbacks-Takes q dropped [] v b =
      (0, [], sym (append-nil (contents q)), LeftOut.nil, omega arith, v)
  callbacks-Takes q dropped (e ∷ es) v b = elim (ℕ-cases (succ_in q.capacity q.tail) q.head) [
    | inl full ↦
        let (n, new, more, left, counted, v') =
          callbacks-Takes q ((dropped + 1) % word_mod) es v (omega arith) in
        after_callback (callback_full q v dropped e full)
          (suc n, new, more, drop left, omega (arith, counted), v')
    | inr room ↦
        let q1 = (SpscQueue.push q e).1 in
        let (n, new, more, left, counted, v') =
          callbacks-Takes q1 dropped es (push-IsValid q v e) b in
        let grown : contents q1 ≡ contents q ++ e ∷ [] =
          ap (λ (r : Bool × SpscQueue (Execution D)). contents r.1) (pushed q v e room)
          ∙ contents_grow q v e room in
        after_callback (callback_room q v dropped e room) (
          n,
          e ∷ new,
          more ∙ ap (λ xs. xs ++ new) grown ∙ append_assoc (contents q) (e ∷ []) new,
          keep left,
          counted,
          v',
        )
  ]
    where
      after_callback :
          {r : SpscQueue (Execution D) × ℕ}
          → exec_callback (q, dropped) e ≡ r
          → Takes q dropped (e ∷ es) (fold_list exec_callback r es)
          → Takes q dropped (e ∷ es) (fold_list exec_callback (exec_callback (q, dropped) e) es)
      after_callback {r} f h =
          subst (λ a. Takes q dropped (e ∷ es) (fold_list exec_callback a es)) (sym f) h
