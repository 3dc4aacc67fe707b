-- ===== src/LatencyTracker/Samples.antt =====
-- The histogram as an account of the samples recorded.
use native.Mathlib.Nat.{pow-le-pow_right}
use trading_simulation.Prelude.{
  ℕ, suc, ◌+◌, ◌%◌, ◌^◌, ◌≤◌, ◌<◌, ◌≡◌, ◌≢◌, refl, ap, ◌∙◌, inl, inr, List, [], ◌∷◌, Bool, true,
  false, ◌&&◌, arith, ltb, leb, ◌==◌, if◌then◌else◌, update_at, update_ne, length, All, ℕ-cases,
  lt-cases,
}
use trading_simulation.Prelude.Int.{ℤ, pos, negsuc}
use trading_simulation.Word64.{word_mod}
use trading_simulation.LatencyTracker.{
  LatencyTracker, int64_max, bucket_of, reset, record_positive, record_sample,
}
use trading_simulation.LatencyTracker.Bucket.{bucket_of_bounds}

-- Whether a sample lies in [2 ^ b, 2 ^ (b + 1)).
abbrev pub in_bucket : ℕ → ℕ → Bool
in_bucket b x = leb (2 ^ b) x && ltb x (2 ^ suc b)

abbrev pub count_in : ℕ → List ℕ → ℕ
count_in b [] = 0
count_in b (x ∷ xs) = if in_bucket b x then suc (count_in b xs) else count_in b xs

abbrev pub total : List ℕ → ℕ
total [] = 0
total (x ∷ xs) = x + total xs

abbrev pub max_of : List ℕ → ℕ
max_of [] = 0
max_of (x ∷ xs) = if ltb (max_of xs) x then x else max_of xs

abbrev pub min_of : List ℕ → ℕ
min_of [] = int64_max
min_of (x ∷ xs) = if ltb x (min_of xs) then x else min_of xs

-- The tracker's counters are those of the samples `xs`, the latest first.
pub record Tracks (t : LatencyTracker) (xs : List ℕ) : Type 0 where
  pub counted : t.count ≡ length xs % word_mod
  pub bucketed : (b : ℕ) → t.buckets b ≡ count_in b xs % word_mod
  pub summed : t.sum_ns ≡ total xs % word_mod
  pub largest : t.max_ns ≡ max_of xs
  pub least : t.min_ns ≡ min_of xs
  pub samples : All (λ x. (0 < x) × (x < 2 ^ 63)) xs

-- The samples after a call: a negative one is passed over, and 0 counts as 1.
abbrev pub noted : ℤ → List ℕ → List ℕ
noted (negsuc n) xs = xs
noted (pos n) xs = (if n == 0 then 1 else n) ∷ xs

pub in_bucket-bucket_of : (x : ℕ) → 0 < x → x < 2 ^ 63 → in_bucket (bucket_of x) x ≡ true
in_bucket-bucket_of x p l =
    let (small, lo, hi) = bucket_of_bounds x p (omega (arith, l)) in ground (arith, lo, hi)

pow_mono : (i j : ℕ) → i ≤ j → 2 ^ i ≤ 2 ^ j
pow_mono i j h = pow-le-pow_right {n = 2} (omega arith) {i = i} {j = j} h

pub in_bucket_other : (x b : ℕ) → 0 < x → x < 2 ^ 63 → b ≢ bucket_of x → in_bucket b x ≡ false
in_bucket_other x b p l n =
    let (small, lo, hi) = bucket_of_bounds x p (omega (arith, l)) in
    elim (lt-cases b (bucket_of x)) [
      | inl below ↦ ground (arith, lo, pow_mono (suc b) (bucket_of x) (omega (arith, below)))
      | inr above ↦ ground (arith, hi, pow_mono (suc (bucket_of x)) b (omega (arith, above, n)))
    ]

record_positive-Tracks :
    (t : LatencyTracker) (xs : List ℕ) (x : ℕ)
    → Tracks t xs
    → 0 < x
    → x < 2 ^ 63
    → Tracks (record_positive t x) (x ∷ xs)
unfolding record_positive
record_positive-Tracks t xs x h p l = record {
  counted = omega (arith, h.counted);
  bucketed = λ b. elim (ℕ-cases b (bucket_of x)) [
    | inl e ↦
        update_at t.buckets (bucket_of x) b ((t.buckets (bucket_of x) + 1) % word_mod) e
        ∙ rw (ap (λ c. in_bucket c x) e ∙ in_bucket-bucket_of x p l)
            (omega (arith, h.bucketed b, ap t.buckets e))
    | inr n ↦
        rw
          (
            update_ne t.buckets (bucket_of x) b ((t.buckets (bucket_of x) + 1) % word_mod) n,
            in_bucket_other x b p l n,
          )
          (h.bucketed b)
  ];
  summed = omega (arith, h.summed);
  largest = rw h.largest;
  least = rw h.least;
  samples = ((p, l), h.samples);
}

-- On a tracker that tracks a list of samples, `record` of any 64-bit integer leaves one that tracks
-- the list with the sample noted: counts, buckets, sum, maximum and minimum.
pub record_sample-Tracks :
    (t : LatencyTracker) (xs : List ℕ) (ns : ℤ)
    → Tracks t xs
    → ((n : ℕ) → ns ≡ pos n → n < 2 ^ 63)
    → Tracks (record_sample t ns) (noted ns xs)
unfolding record_sample
record_sample-Tracks t xs (negsuc n) h l = h
record_sample-Tracks t xs (pos n) h l =
    record_positive-Tracks t xs (if n == 0 then 1 else n) h (ground arith)
      (ground (arith, l n refl))

pub reset-Tracks : Tracks reset []
unfolding reset
reset-Tracks = record {
  counted = refl;
  bucketed = λ b. refl;
  summed = refl;
  largest = refl;
  least = refl;
  samples = tt;
}
