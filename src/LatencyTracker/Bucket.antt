-- ===== src/LatencyTracker/Bucket.antt =====
-- The bucket of a sample is the exponent of the power of two at or below it.
use trading_simulation.Prelude.{
  ℕ, zero, suc, ◌+◌, ◌/◌, ◌^◌, ◌≤◌, ◌<◌, ◌≡◌, inl, inr, arith, Bool-cases, leb,
}
use trading_simulation.Word64.{test_bit, clz_from, clzll, word_mod}
use trading_simulation.LatencyTracker.{bucket_of}

-- The top bit of a number that fits says whether it reaches the top power.
test_bit-top : (n w : ℕ) → w < 2 ^ suc n → test_bit w n ≡ leb (2 ^ n) w
unfolding test_bit
test_bit-top zero w h = ground arith
test_bit-top (suc n) w h = ground (arith, test_bit-top n (w / 2) (omega arith))

clz_from-bounds :
    (n w : ℕ)
    → 0 < w
    → w < 2 ^ n
    → (h : ℕ) × (clz_from n w + suc h ≡ n) × (2 ^ h ≤ w) × (w < 2 ^ suc h)
unfolding clz_from
clz_from-bounds zero w p l = absurd (omega arith)
clz_from-bounds (suc n) w p l = elim (Bool-cases (test_bit w n)) [
  | inl e ↦ rw e (n, omega arith, ground (arith, e, test_bit-top n w l), l)
  | inr e ↦
      let (h, c, lo, hi) = clz_from-bounds n w p (ground (arith, e, test_bit-top n w l)) in
      rw e (h, omega arith, lo, hi)
]

clzll-bounds :
    (w : ℕ)
    → 0 < w
    → w < word_mod
    → (h : ℕ) × (clzll w + suc h ≡ 64) × (2 ^ h ≤ w) × (w < 2 ^ suc h)
unfolding clzll
clzll-bounds w p l = clz_from-bounds 64 w p l

bucket_at : (ns h : ℕ) → 0 < ns → clzll ns + suc h ≡ 64 → bucket_of ns ≡ h
unfolding bucket_of
bucket_at ns h p c = ground (arith, p, c)

-- A 64-bit sample above 0 lies in [2 ^ b, 2 ^ (b + 1)) for its bucket b, which is below 64.
pub bucket_of_bounds :
    (ns : ℕ)
    → 0 < ns
    → ns < word_mod
    → (bucket_of ns < 64) × (2 ^ bucket_of ns ≤ ns) × (ns < 2 ^ suc (bucket_of ns))
bucket_of_bounds ns p l =
    let (h, c, lo, hi) = clzll-bounds ns p l in rw (bucket_at ns h p c) (omega (arith, c), lo, hi)
