-- ===== src/LatencyTracker/Threads/Agree.antt =====
-- Threads that record at the same time leave the tracker that one thread would leave.
use trading_simulation.Prelude.{
  ℕ, ◌%◌, ◌<◌, ◌≡◌, ◌+◌, inl, inr, refl, sym, ap, ◌∙◌, fun_ext, arith, List,
}
use trading_simulation.Prelude.Family.{sum_of, sum_of-none}
use trading_simulation.Word64.{word_mod}
use trading_simulation.LatencyTracker.{LatencyTracker}
use trading_simulation.LatencyTracker.Samples.{Tracks, record_sample-Tracks, reset-Tracks}
use trading_simulation.LatencyTracker.Threads.{
  Place, Recorders, Reach, outside, call, move, start, later, recorded,
}
use trading_simulation.LatencyTracker.Threads.Moves.{
  owed_count, owed_bucket, owed_sum, owed_max, owed_min,
}
use trading_simulation.LatencyTracker.Threads.Owed.{Owed, sampled}
use trading_simulation.LatencyTracker.Threads.Runs.{Reach-Owed}

-- Every one of the `n` threads is outside `record`.
abbrev pub IsQuiet : ℕ → Recorders → Type 0
IsQuiet n s = (i : ℕ) → i < n → s.places i ≡ outside

paid :
    (n : ℕ) (s : Recorders) (w : Place → ℕ) (c k : ℕ)
    → IsQuiet n s
    → w outside ≡ 0
    → c < word_mod
    → (c + sum_of w n s.places) % word_mod ≡ k
    → c ≡ k
paid n s w c k q z l h = omega (arith, l, h, sum_of-none w n s.places (λ i m. ap w (q i m) ∙ z))

Owed-Tracks :
    (n : ℕ) (s : Recorders) (xs : List ℕ)
    → IsQuiet n s
    → Owed n s.tracker s.places xs
    → Tracks s.tracker xs
Owed-Tracks n s xs q o = record {
  counted = paid n s owed_count s.tracker.count _ q refl o.in_words.0 o.counted;
  bucketed =
      λ b. paid n s (owed_bucket b) (s.tracker.buckets b) _ q refl (o.in_words.2 b) (o.bucketed b);
  summed = paid n s owed_sum s.tracker.sum_ns _ q refl o.in_words.1 o.summed;
  largest = elim o.max_covered [
    | inl h ↦ omega (arith, h, o.max_in)
    | inr (i, l, h) ↦ omega (arith, h, o.max_in, ap owed_max (q i l))
  ];
  least = elim o.min_covered [
    | inl h ↦ omega (arith, h, o.min_in)
    | inr (i, l, h) ↦ omega (arith, h, o.min_in, o.min_small, ap owed_min (q i l))
  ];
  samples = o.samples;
}

-- The samples determine the tracker.
Tracks-unique : (t u : LatencyTracker) (xs : List ℕ) → Tracks t xs → Tracks u xs → t ≡ u
Tracks-unique t u xs a b = λ i. record {
  buckets = fun_ext (λ k. a.bucketed k ∙ sym (b.bucketed k)) i;
  count = (a.counted ∙ sym b.counted) i;
  sum_ns = (a.summed ∙ sym b.summed) i;
  max_ns = (a.largest ∙ sym b.largest) i;
  min_ns = (a.least ∙ sym b.least) i;
}

recorded-Tracks : {n : ℕ} {s : Recorders} → Reach n s → Tracks (recorded s.calls) (sampled s.calls)
recorded-Tracks start = reset-Tracks
recorded-Tracks (later r (call i ns l e w)) = record_sample-Tracks _ _ ns (recorded-Tracks r) w
recorded-Tracks (later r (move i l m)) = recorded-Tracks r

pub Reach-recorded :
    (n : ℕ) (s : Recorders) → Reach n s → IsQuiet n s → s.tracker ≡ recorded s.calls
Reach-recorded n s r q =
    Tracks-unique s.tracker (recorded s.calls) (sampled s.calls)
      (Owed-Tracks n s (sampled s.calls) q (Reach-Owed n r)) (recorded-Tracks r)
