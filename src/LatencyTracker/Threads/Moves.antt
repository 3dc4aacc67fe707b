-- ===== src/LatencyTracker/Threads/Moves.antt =====
-- What one step inside `record` does to the tracker and to what its thread still owes it.
use trading_simulation.Prelude.{
  ℕ, ◌+◌, ◌%◌, ◌^◌, ◌≤◌, ◌<◌, ◌≡◌, ◌⊎◌, inl, inr, refl, ap, ◌∙◌, arith, if◌then◌else◌, update,
  update_at, update_ne, ℕ-cases,
}
use trading_simulation.Word64.{word_mod}
use trading_simulation.LatencyTracker.{LatencyTracker, bucket_of, int64_max}
use trading_simulation.LatencyTracker.Samples.{in_bucket, in_bucket-bucket_of, in_bucket_other}
use trading_simulation.LatencyTracker.Threads.{
  Place, Move, outside, add_bucket, add_count, add_sum, load_max, swap_max, load_min, swap_min,
  bucket_added, count_added, sum_added, max_loaded, max_kept, max_swapped, max_missed, min_loaded,
  min_kept, min_swapped, min_missed,
}

-- What a thread still owes each counter.
abbrev pub owed_count : Place → ℕ
owed_count (add_bucket x) = 1
owed_count (add_count x) = 1
owed_count p = 0

abbrev pub owed_bucket : ℕ → Place → ℕ
owed_bucket b (add_bucket x) = if in_bucket b x then 1 else 0
owed_bucket b p = 0

abbrev pub owed_sum : Place → ℕ
owed_sum (add_bucket x) = x
owed_sum (add_count x) = x
owed_sum (add_sum x) = x
owed_sum p = 0

abbrev pub owed_max : Place → ℕ
owed_max (add_bucket x) = x
owed_max (add_count x) = x
owed_max (add_sum x) = x
owed_max (load_max x) = x
owed_max (swap_max x cur) = x
owed_max p = 0

abbrev pub owed_min : Place → ℕ
owed_min outside = int64_max
owed_min (add_bucket x) = x
owed_min (add_count x) = x
owed_min (add_sum x) = x
owed_min (load_max x) = x
owed_min (swap_max x cur) = x
owed_min (load_min x) = x
owed_min (swap_min x cur) = x

-- What a thread's local variables say of the tracker.
abbrev pub Knows : LatencyTracker → Place → Type 0
Knows t (add_bucket x) = (0 < x) × (x < 2 ^ 63)
Knows t (swap_max x cur) = cur ≤ t.max_ns
Knows t (swap_min x cur) = t.min_ns ≤ cur
Knows t p = Unit

-- The counters that wrap hold words.
abbrev pub InWords : LatencyTracker → Type 0
InWords t = (t.count < word_mod) × (t.sum_ns < word_mod) × ((b : ℕ) → t.buckets b < word_mod)

-- A step pays what it takes off the thread's debt.
pub record Pays (t : LatencyTracker) (p : Place) (t' : LatencyTracker) (p' : Place) : Type 0 where
  pub counted : (t'.count + owed_count p') % word_mod ≡ (t.count + owed_count p) % word_mod
  pub bucketed :
      (b : ℕ)
      → (t'.buckets b + owed_bucket b p') % word_mod ≡ (t.buckets b + owed_bucket b p) % word_mod
  pub summed : (t'.sum_ns + owed_sum p') % word_mod ≡ (t.sum_ns + owed_sum p) % word_mod
  pub in_words : InWords t → InWords t'
  pub max_grows : t.max_ns ≤ t'.max_ns
  pub max_from : (t'.max_ns ≡ t.max_ns) ⊎ (t'.max_ns ≡ owed_max p)
  pub max_owed : owed_max p' ≤ owed_max p
  pub max_paid : (owed_max p ≤ t'.max_ns) ⊎ (owed_max p ≤ owed_max p')
  pub min_falls : t'.min_ns ≤ t.min_ns
  pub min_from : (t'.min_ns ≡ t.min_ns) ⊎ (t'.min_ns ≡ owed_min p)
  pub min_owed : (owed_min p ≤ owed_min p') ⊎ (p' ≡ outside)
  pub min_paid : (t'.min_ns ≤ owed_min p) ⊎ (owed_min p' ≤ owed_min p)
  pub knows : Knows t' p'

bucket_pays :
    (t : LatencyTracker) (x b : ℕ)
    → (0 < x) × (x < 2 ^ 63)
    → (update t.buckets (bucket_of x) ((t.buckets (bucket_of x) + 1) % word_mod) b + 0) % word_mod
      ≡ (t.buckets b + owed_bucket b (add_bucket x)) % word_mod
bucket_pays t x b k = elim (ℕ-cases b (bucket_of x)) [
  | inl e ↦
      rw
        (
          update_at t.buckets (bucket_of x) b ((t.buckets (bucket_of x) + 1) % word_mod) e,
          ap (λ c. in_bucket c x) e ∙ in_bucket-bucket_of x k.0 k.1,
        )
        (omega (arith, ap t.buckets e))
  | inr n ↦
      rw
        (
          update_ne t.buckets (bucket_of x) b ((t.buckets (bucket_of x) + 1) % word_mod) n,
          in_bucket_other x b k.0 k.1 n,
        )
        refl
]

-- A step that leaves the tracker alone and owes the same.
idle-Pays :
    {t : LatencyTracker} {p p' : Place}
    → owed_count p' ≡ owed_count p
    → ((b : ℕ) → owed_bucket b p' ≡ owed_bucket b p)
    → owed_sum p' ≡ owed_sum p
    → owed_max p' ≤ owed_max p
    → (owed_max p ≤ t.max_ns) ⊎ (owed_max p ≤ owed_max p')
    → (owed_min p ≤ owed_min p') ⊎ (p' ≡ outside)
    → (t.min_ns ≤ owed_min p) ⊎ (owed_min p' ≤ owed_min p)
    → Knows t p'
    → Pays t p t p'
idle-Pays {t} counted bucketed summed max_owed max_paid min_owed min_paid knows = record {
  counted = ap (λ k. (t.count + k) % word_mod) counted;
  bucketed = λ b. ap (λ k. (t.buckets b + k) % word_mod) (bucketed b);
  summed = ap (λ k. (t.sum_ns + k) % word_mod) summed;
  in_words = λ w. w;
  max_grows = omega arith;
  max_from = inl refl;
  max_owed = max_owed;
  max_paid = max_paid;
  min_falls = omega arith;
  min_from = inl refl;
  min_owed = min_owed;
  min_paid = min_paid;
  knows = knows;
}

-- A step that adds to one of the counters.
adds-Pays :
    {t t' : LatencyTracker} {p p' : Place}
    → (t'.max_ns ≡ t.max_ns) × (t'.min_ns ≡ t.min_ns)
    → (owed_max p' ≡ owed_max p) × (owed_min p' ≡ owed_min p)
    → ((t'.count + owed_count p') % word_mod ≡ (t.count + owed_count p) % word_mod)
    → ((b : ℕ)
        → (t'.buckets b + owed_bucket b p') % word_mod ≡ (t.buckets b + owed_bucket b p) % word_mod)
    → ((t'.sum_ns + owed_sum p') % word_mod ≡ (t.sum_ns + owed_sum p) % word_mod)
    → (InWords t → InWords t')
    → Knows t' p'
    → Pays t p t' p'
adds-Pays same owed counted bucketed summed in_words knows = record {
  counted = counted;
  bucketed = bucketed;
  summed = summed;
  in_words = in_words;
  max_grows = omega (arith, same.0);
  max_from = inl same.0;
  max_owed = omega (arith, owed.0);
  max_paid = inr (omega (arith, owed.0));
  min_falls = omega (arith, same.1);
  min_from = inl same.1;
  min_owed = inl (omega (arith, owed.1));
  min_paid = inr (omega (arith, owed.1));
  knows = knows;
}

-- Every step pays what it takes off its thread's debt.
pub Move-Pays : {t t' : LatencyTracker} {p p' : Place} → Move t p t' p' → Knows t p → Pays t p t' p'
Move-Pays {t} (bucket_added {x}) k =
    adds-Pays (refl, refl) (refl, refl) refl (λ b. bucket_pays t x b k) refl
      (λ w. (w.0, w.1, λ b. ground (arith, w.2 b))) tt
Move-Pays (count_added) k =
    adds-Pays (refl, refl) (refl, refl) (omega arith) (λ b. refl) refl
      (λ w. (omega arith, w.1, w.2)) tt
Move-Pays (sum_added) k =
    adds-Pays (refl, refl) (refl, refl) refl (λ b. refl) (omega arith)
      (λ w. (w.0, omega arith, w.2)) tt
Move-Pays max_loaded k =
    idle-Pays refl (λ b. refl) refl (omega arith) (inr (omega arith)) (inl (omega arith))
      (inr (omega arith)) (omega arith)
Move-Pays (max_kept h) k =
    idle-Pays refl (λ b. refl) refl (omega arith) (inl (omega (arith, h, k))) (inl (omega arith))
      (inr (omega arith)) tt
Move-Pays {t} (max_swapped h e) k = record {
  counted = refl;
  bucketed = λ b. refl;
  summed = refl;
  in_words = λ w. w;
  max_grows = omega (arith, h, e);
  max_from = inr refl;
  max_owed = omega arith;
  max_paid = inl (omega arith);
  min_falls = omega arith;
  min_from = inl refl;
  min_owed = inl (omega arith);
  min_paid = inr (omega arith);
  knows = tt;
}
Move-Pays (max_missed h) k =
    idle-Pays refl (λ b. refl) refl (omega arith) (inr (omega arith)) (inl (omega arith))
      (inr (omega arith)) (omega arith)
Move-Pays min_loaded k =
    idle-Pays refl (λ b. refl) refl (omega arith) (inr (omega arith)) (inl (omega arith))
      (inr (omega arith)) (omega arith)
Move-Pays (min_kept h) k =
    idle-Pays refl (λ b. refl) refl (omega arith) (inr (omega arith)) (inr refl)
      (inl (omega (arith, h, k))) tt
Move-Pays {t} (min_swapped h e) k = record {
  counted = refl;
  bucketed = λ b. refl;
  summed = refl;
  in_words = λ w. w;
  max_grows = omega arith;
  max_from = inl refl;
  max_owed = omega arith;
  max_paid = inr (omega arith);
  min_falls = omega (arith, h, e);
  min_from = inr refl;
  min_owed = inr refl;
  min_paid = inl (omega arith);
  knows = tt;
}
Move-Pays (min_missed h) k =
    idle-Pays refl (λ b. refl) refl (omega arith) (inr (omega arith)) (inl (omega arith))
      (inr (omega arith)) (omega arith)

-- A call with a negative argument.
pub outside-Pays : (t : LatencyTracker) (p : Place) → p ≡ outside → Pays t p t outside
outside-Pays t p e = rw e (
    idle-Pays refl (λ b. refl) refl (omega arith) (inr (omega arith)) (inr refl) (inr (omega arith))
      tt)
