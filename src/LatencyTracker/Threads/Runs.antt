-- ===== src/LatencyTracker/Threads/Runs.antt =====
-- What the threads still owe, in every run of them.
use trading_simulation.Prelude.{
  ℕ, ◌+◌, ◌%◌, ◌^◌, ◌≤◌, ◌<◌, ◌≡◌, inl, inr, refl, ap, ◌∙◌, arith, List, [], ◌∷◌, ◌==◌,
  if◌then◌else◌, update, update_at, lt-cases, length,
}
use trading_simulation.Prelude.Family.{sum_of, sum_of-update, sum_of-none}
use trading_simulation.Prelude.Int.{ℤ, pos, negsuc}
use trading_simulation.Word64.{word_mod}
use trading_simulation.LatencyTracker.{LatencyTracker, reset}
use trading_simulation.LatencyTracker.Samples.{count_in, total, max_of, min_of}
use trading_simulation.LatencyTracker.Threads.{
  Place, Recorders, Step, Reach, begun, outside, add_bucket, call, move, start, later,
}
use trading_simulation.LatencyTracker.Threads.Moves.{
  owed_count, owed_bucket, owed_sum, owed_max, owed_min, Knows, Move-Pays, outside-Pays,
}
use trading_simulation.LatencyTracker.Threads.Owed.{
  Owed, sampled, IsSample, all_updated, some_updated, move-Owed,
}

module _ (n : ℕ) where
  -- A counter after the start of a call.
  owes :
      (w : Place → ℕ) (c k i : ℕ) (f : ℕ → Place) (p : Place)
      → i < n
      → f i ≡ outside
      → w outside ≡ 0
      → (c + sum_of w n f) % word_mod ≡ k % word_mod
      → (c + sum_of w n (update f i p)) % word_mod ≡ (w p + k) % word_mod
  owes w c k i f p l e z h = omega (arith, ap w e, z, h, sum_of-update w n i f p l)

  enter-Owed :
      (t : LatencyTracker) (f : ℕ → Place) (i x : ℕ) (xs : List ℕ)
      → i < n
      → f i ≡ outside
      → IsSample x
      → Owed n t f xs
      → Owed n t (update f i (add_bucket x)) (x ∷ xs)
  enter-Owed t f i x xs l e s o = record {
    known = all_updated n (Knows t) f i (add_bucket x) s o.known;
    in_words = o.in_words;
    counted =
        owes owed_count t.count (length xs) i f (add_bucket x) l e refl o.counted ∙ omega arith;
    bucketed = λ b.
        owes (owed_bucket b) (t.buckets b) (count_in b xs) i f (add_bucket x) l e refl
          (o.bucketed b)
        ∙ ground arith;
    summed = owes owed_sum t.sum_ns (total xs) i f (add_bucket x) l e refl o.summed;
    max_in = ground (arith, o.max_in);
    max_owed =
        all_updated n (λ q. owed_max q ≤ max_of (x ∷ xs)) f i (add_bucket x) (ground arith)
          (λ j. ground (arith, o.max_owed j));
    max_covered = elim (lt-cases (max_of xs) x) [
      | inl m ↦ inr (i, l, rw (update_at f i i (add_bucket x) refl) (ground (arith, m)))
      | inr m ↦ elim o.max_covered [
        | inl h ↦ inl (ground (arith, h, m))
        | inr (j, k, h) ↦
            some_updated n (λ q. max_of (x ∷ xs) ≤ owed_max q) f i (add_bucket x)
              (λ b. inr (ground (arith, b, m, ap owed_max e, s.0))) l (j, k, ground (arith, h, m))
      ]
    ];
    min_in = ground (arith, o.min_in);
    min_small = o.min_small;
    min_owed =
        all_updated n (λ q. min_of (x ∷ xs) ≤ owed_min q) f i (add_bucket x) (ground arith)
          (λ j. ground (arith, o.min_owed j));
    min_covered = elim (lt-cases x (min_of xs)) [
      | inl m ↦ inr (i, l, rw (update_at f i i (add_bucket x) refl) (ground (arith, m)))
      | inr m ↦ elim o.min_covered [
        | inl h ↦ inl (ground (arith, h, m))
        | inr (j, k, h) ↦
            some_updated n (λ q. owed_min q ≤ min_of (x ∷ xs)) f i (add_bucket x)
              (λ b. inr (ground (arith, b, m, ap owed_min e, s.1))) l (j, k, ground (arith, h, m))
      ]
    ];
    samples = (s, o.samples);
  }

  call-Owed :
      (s : Recorders) (i : ℕ) (ns : ℤ)
      → i < n
      → s.places i ≡ outside
      → ((m : ℕ) → ns ≡ pos m → m < 2 ^ 63)
      → Owed n s.tracker s.places (sampled s.calls)
      → Owed n s.tracker (update s.places i (begun ns)) (sampled (ns ∷ s.calls))
  call-Owed s i (negsuc m) l e w o =
      move-Owed n s.tracker s.tracker s.places i outside (sampled s.calls) l
        (outside-Pays s.tracker (s.places i) e) o
  call-Owed s i (pos m) l e w o =
      enter-Owed s.tracker s.places i (if m == 0 then 1 else m) (sampled s.calls) l e
        (ground arith, ground (arith, w m refl)) o

  Step-Owed :
      {s u : Recorders}
      → Step n s u
      → Owed n s.tracker s.places (sampled s.calls)
      → Owed n u.tracker u.places (sampled u.calls)
  Step-Owed {s} (call i ns l e w) o = call-Owed s i ns l e w o
  Step-Owed {s} (move i {t} {p} l m) o =
      move-Owed n s.tracker t s.places i p (sampled s.calls) l (Move-Pays m (o.known i)) o

  no_calls-Owed : Owed n reset (λ i. outside) []
  unfolding reset
  no_calls-Owed = record {
    known = λ i. tt;
    in_words = (omega arith, omega arith, λ b. omega arith);
    counted = ap (λ k. (0 + k) % word_mod) (sum_of-none owed_count n (λ i. outside) (λ i l. refl));
    bucketed = λ b.
        ap (λ k. (0 + k) % word_mod) (sum_of-none (owed_bucket b) n (λ i. outside) (λ i l. refl));
    summed = ap (λ k. (0 + k) % word_mod) (sum_of-none owed_sum n (λ i. outside) (λ i l. refl));
    max_in = omega arith;
    max_owed = λ i. omega arith;
    max_covered = inl (omega arith);
    min_in = omega arith;
    min_small = omega arith;
    min_owed = λ i. omega arith;
    min_covered = inl (omega arith);
    samples = tt;
  }

  -- In every interleaving the counters, with what the threads still owe them, are those of the samples.
  pub Reach-Owed : {s : Recorders} → Reach n s → Owed n s.tracker s.places (sampled s.calls)
  Reach-Owed start = no_calls-Owed
  Reach-Owed (later r st) = Step-Owed st (Reach-Owed r)
