-- ===== src/LatencyTracker/Percentile.antt =====
-- What `percentile` returns.
use native.Mathlib.Nat.{pow-le-pow_right}
use trading_simulation.Prelude.{
  ℕ, zero, suc, ◌+◌, ◌%◌, ◌^◌, ◌≤◌, ◌<◌, ◌≡◌, refl, sym, ℕ-cases, inl, inr, ◌⊎◌, List, [], ◌∷◌,
  false, arith, ltb, leb, ◌==◌, if◌then◌else◌, length, All, Bool-cases,
}
use trading_simulation.Prelude.Int.{ℤ, pos}
use trading_simulation.Word64.{word_mod}
use trading_simulation.Word64.Bits.{shift_left-one}
use trading_simulation.LatencyTracker.{LatencyTracker, signed, bucket_value, walk, percentile_at}
use trading_simulation.LatencyTracker.Samples.{Tracks, count_in}

abbrev pub count_below : ℕ → List ℕ → ℕ
count_below k [] = 0
count_below k (x ∷ xs) = if ltb x k then suc (count_below k xs) else count_below k xs

count_below_step :
    (b : ℕ) (xs : List ℕ) → count_below (2 ^ b) xs + count_in b xs ≡ count_below (2 ^ suc b) xs
count_below_step b [] = refl
count_below_step b (x ∷ xs) = ground (arith, count_below_step b xs)

count_below-le : (k : ℕ) (xs : List ℕ) → count_below k xs ≤ length xs
count_below-le k [] = omega arith
count_below-le k (x ∷ xs) = ground (arith, count_below-le k xs)

count_below-one : (xs : List ℕ) → All (λ x. (0 < x) × (x < 2 ^ 63)) xs → count_below 1 xs ≡ 0
count_below-one [] h = refl
count_below-one (x ∷ xs) h = ground (arith, h.0, count_below-one xs h.1)

count_below-length :
    (xs : List ℕ) → All (λ x. (0 < x) × (x < 2 ^ 63)) xs → count_below (2 ^ 63) xs ≡ length xs
count_below-length [] h = refl
count_below-length (x ∷ xs) h = ground (arith, h.0, count_below-length xs h.1)

bucket_value_lem : (b : ℕ) → b < 63 → bucket_value b ≡ pos (2 ^ b)
unfolding bucket_value signed
bucket_value_lem b l =
    let low : 2 ^ b ≤ 2 ^ 62 =
      pow-le-pow_right {n = 2} (omega arith) {i = b} {j = 62} (omega arith) in
    ground (arith, low, shift_left-one b (omega arith))

-- `v` is the lower bound of the bucket in which the `target`-th smallest sample lies.
abbrev pub IsRank : List ℕ → ℕ → ℤ → Type 0
IsRank xs target v =
    (b : ℕ) × (v ≡ pos (2 ^ b))
    × (target ≤ count_below (2 ^ suc b) xs)
    × ((b ≡ 0) ⊎ (count_below (2 ^ b) xs < target))

module _ (t : LatencyTracker) (xs : List ℕ) (h : Tracks t xs) (few : length xs < word_mod)
    (target : ℕ) (enough : target ≤ length xs) where
  sum_at :
      (b cum : ℕ)
      → cum ≡ count_below (2 ^ b) xs
      → (cum + t.buckets b) % word_mod ≡ count_below (2 ^ suc b) xs
  sum_at b cum e = omega (arith, h.bucketed b, count_below_step b xs, count_below-le (2 ^ suc b) xs)

  -- All samples are below the last bucket, so that the walk does not reach it.
  reached : (b cum : ℕ) → b ≡ 63 → cum ≡ count_below (2 ^ b) xs → (b ≡ 0) ⊎ (cum < target) → ⊥
  reached b cum last e (inl z) = omega arith
  reached b cum last e (inr low) =
      let all : count_below (2 ^ b) xs ≡ length xs = rw last (count_below-length xs h.samples) in
      omega (arith, all, e, low)

  before :
      (b cum : ℕ)
      → cum ≡ count_below (2 ^ b) xs
      → (b ≡ 0) ⊎ (cum < target)
      → (b ≡ 0) ⊎ (count_below (2 ^ b) xs < target)
  before b cum e (inl z) = inl z
  before b cum e (inr low) = inr (omega (arith, e, low))

  walk-IsRank :
      (n b cum : ℕ)
      → n + b ≡ 64
      → b < 64
      → cum ≡ count_below (2 ^ b) xs
      → (b ≡ 0) ⊎ (cum < target)
      → IsRank xs target (walk t target n b cum)
  unfolding walk
  walk-IsRank zero b cum s l e low = absurd (omega arith)
  walk-IsRank (suc n) b cum s l e low = elim (ℕ-cases b 63) [
    | inl last ↦ absurd (reached b cum last e low)
    | inr n63 ↦ elim (Bool-cases (leb target ((cum + t.buckets b) % word_mod))) [
      | inl stop ↦
          rw stop (
            b,
            bucket_value_lem b (omega arith),
            ground (arith, sum_at b cum e),
            before b cum e low,
          )
      | inr on ↦ rw on (
          walk-IsRank n (suc b) _ (omega arith) (omega arith) (sum_at b cum e) (inr (ground arith)))
    ]
  ]

  -- On a tracker of some samples, fewer than 2 ^ 64, and for a target up to their number,
  -- `percentile` returns 2 ^ b for the bucket b at which the samples counted from the smallest
  -- reach the target: the samples below 2 ^ (b + 1) do, and those below 2 ^ b do not, if b > 0.
  pub percentile_at-IsRank : 0 < length xs → IsRank xs target (percentile_at t target)
  unfolding percentile_at
  percentile_at-IsRank p =
      let some_samples : (t.count == 0) ≡ false = ground (arith, h.counted) in
      rw some_samples
        (walk-IsRank 64 0 0 refl (omega arith) (sym (count_below-one xs h.samples)) (inl refl))
