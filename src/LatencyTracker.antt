-- ===== src/LatencyTracker.antt =====
-- `LatencyTracker` of libs/utils/include/latency_tracker.h, as one thread uses it: a compare-and-swap
-- loop that no other thread disturbs is one comparison and one store. The counters are 64-bit words.
-- `max_ns_` and `min_ns_` only ever hold samples, 0 and `INT64_MAX`, so that they are natural numbers.
pub mod Bucket
pub mod Samples
pub mod Percentile
pub mod Clock
pub mod Text
pub mod Threads
use trading_simulation.Prelude.{
  ℕ, zero, suc, ◌+◌, ◌-◌, ◌%◌, ◌^◌, Bool, ◌==◌, ltb, leb, if◌then◌else◌, update,
}
use trading_simulation.Prelude.Int.{ℤ, pos, negsuc, ◌-ℤ◌}
use trading_simulation.Word64.{word_mod, clzll, shift_left}
use trading_simulation.Double.{Double}

pub record LatencyTracker : Type 0 where
  pub buckets : ℕ → ℕ
  pub count : ℕ
  pub sum_ns : ℕ
  pub max_ns : ℕ
  pub min_ns : ℕ

-- `BUCKETS`
abbrev pub bucket_count : ℕ
bucket_count = 64

abbrev pub int64_max : ℕ
int64_max = 2 ^ 63 - 1

-- A word read as an `int64_t`.
unfoldable pub signed : ℕ → ℤ
signed w = if ltb w (2 ^ 63) then pos w else negsuc (word_mod - 1 - w)

unfoldable pub bucket_of : ℕ → ℕ
bucket_of ns =
    if ns == 0
    then 0
    else let b = 63 - clzll ns in if ltb b bucket_count then b else bucket_count - 1

-- `reset`, which the constructor calls.
unfoldable pub reset : LatencyTracker
reset = record { buckets = λ _. 0; count = 0; sum_ns = 0; max_ns = 0; min_ns = int64_max }

-- `record` of a sample that is not 0.
unfoldable pub record_positive : LatencyTracker → ℕ → LatencyTracker
record_positive t ns =
    let b = bucket_of ns in
    record {
      buckets = update t.buckets b ((t.buckets b + 1) % word_mod);
      count = (t.count + 1) % word_mod;
      sum_ns = (t.sum_ns + ns) % word_mod;
      max_ns = if ltb t.max_ns ns then ns else t.max_ns;
      min_ns = if ltb ns t.min_ns then ns else t.min_ns;
    }

-- `record`
unfoldable pub record_sample : LatencyTracker → ℤ → LatencyTracker
record_sample t (negsuc n) = t
record_sample t (pos ns) = record_positive t (if ns == 0 then 1 else ns)

-- `(b == 0) ? 1LL : (1LL << b)`
unfoldable pub bucket_value : ℕ → ℤ
bucket_value b = if b == 0 then pos 1 else signed (shift_left 1 b)

-- The loop of `percentile` from bucket `b` on, `n` buckets being left.
unfoldable pub walk : LatencyTracker → ℕ → ℕ → ℕ → ℕ → ℤ
walk t target zero b cum = pos t.max_ns
walk t target (suc n) b cum =
    let sum = (cum + t.buckets b) % word_mod in
    let rest = walk t target n (suc b) sum in if leb target sum then bucket_value b else rest

-- `percentile` from the target on.
unfoldable pub percentile_at : LatencyTracker → ℕ → ℤ
percentile_at t target = if t.count == 0 then pos 0 else walk t target bucket_count 0 0

-- `min()`
unfoldable pub smallest : LatencyTracker → ℕ
smallest t = if t.min_ns == int64_max then 0 else t.min_ns

module _ (F : Double) where
  unfoldable pub percentile : LatencyTracker → F.Carrier → ℤ
  percentile t pct =
      percentile_at t (F.to_uint (F.div (F.mul (F.of_int (pos t.count)) pct) (F.decimal 100 0)))

  unfoldable pub mean : LatencyTracker → F.Carrier
  mean t =
      if t.count == 0
      then F.decimal 0 0
      else F.div (F.of_int (signed t.sum_ns)) (F.of_int (pos t.count))

  -- The numbers that `report` prints, where there are samples.
  pub record Report : Type 0 where
    pub samples : ℕ
    pub p50 : ℤ
    pub p75 : ℤ
    pub p95 : ℤ
    pub p99 : ℤ
    pub p999 : ℤ
    pub p9999 : ℤ
    pub largest : ℕ
    pub average : ℤ
    pub jitter : ℤ
    pub least : ℕ

  -- `static_cast<int64_t>` of the mean is the parameter `to_int64`.
  unfoldable pub report : (F.Carrier → ℤ) → LatencyTracker → Report
  report to_int64 t =
      let p50 = percentile t (F.decimal 50 0) in
      let p99 = percentile t (F.decimal 99 0) in
      record {
        samples = t.count;
        p50 = p50;
        p75 = percentile t (F.decimal 75 0);
        p95 = percentile t (F.decimal 95 0);
        p99 = p99;
        p999 = percentile t (F.decimal 999 1);
        p9999 = percentile t (F.decimal 9999 2);
        largest = t.max_ns;
        average = to_int64 (mean t);
        jitter = p99 -ℤ p50;
        least = smallest t;
      }
