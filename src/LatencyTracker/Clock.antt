-- ===== src/LatencyTracker/Clock.antt =====
-- The clocks of libs/utils/include/latency_tracker.h: `fast_now_ns` on its two platforms and the loop of
-- `calibrate_tsc`. What the counters and `clock_gettime` read is a parameter, by the number of the reading.
use trading_simulation.Prelude.{
  ℕ, zero, suc, ◌+◌, ◌≤◌, ◌<◌, ◌≡◌, refl, ap, ◌∙◌, Option, none, some, Bool, true, false,
  if◌then◌else◌, inl, inr, arith, ℕ-cases, Bool-cases,
}
use trading_simulation.Prelude.Int.{ℤ, pos, ◌-ℤ◌}
use trading_simulation.Word64.{sub_word}
use trading_simulation.Double.{Double}

-- `struct timespec`
pub record Timespec : Type 0 where
  pub seconds : ℤ
  pub nanoseconds : ℤ

module _ (F : Double) (to_int64 : F.Carrier → ℤ) where
  open F use {Carrier as D, decimal, of_int, add, mul, div, le}

  unfoldable pub mach_to_ns : ℕ → ℕ → D
  mach_to_ns numer denom = div (of_int (pos numer)) (of_int (pos denom))

  -- `fast_now_ns` on macOS, `mach_to_ns` being that of the start.
  unfoldable pub fast_now_mach : D → ℕ → ℤ
  fast_now_mach to_ns ticks = to_int64 (mul (of_int (pos ticks)) to_ns)

  -- `fast_now_ns` on x86_64, `ghz` being `kTscGhz`.
  unfoldable pub fast_now_tsc : D → ℕ → ℤ
  fast_now_tsc ghz counter = to_int64 (div (of_int (pos counter)) ghz)

  unfoldable pub elapsed_ns : Timespec → Timespec → D
  elapsed_ns t1 t2 =
      add (mul (of_int (t2.seconds -ℤ t1.seconds)) (decimal 1_000_000_000 0))
        (of_int (t2.nanoseconds -ℤ t1.nanoseconds))

  module _ (clock : ℕ → Timespec) (counter : ℕ → ℕ) where
    -- At least 2 ms after the first reading.
    abbrev pub is_long : ℕ → Bool
    is_long i = le (decimal 2_000_000 0) (elapsed_ns (clock 0) (clock i))

    -- The loop from reading `i` on, with fuel; the counter is read once before it and once at its end.
    unfoldable pub calibrate_tsc : ℕ → ℕ → Option D
    calibrate_tsc zero i = none
    calibrate_tsc (suc fuel) i =
        let rest = calibrate_tsc fuel (suc i) in
        if is_long i
        then some
            (div (of_int (pos (sub_word (counter 1) (counter 0)))) (elapsed_ns (clock 0) (clock i)))
        else rest

    -- With a round for each reading up to one that is 2 ms late, the calibration ends, at the first such
    -- reading.
    calibrate_tsc-ends :
        (n i : ℕ)
        → is_long (i + n) ≡ true
        → (k : ℕ) × (i ≤ k)
          × (k ≤ i + n)
          × (is_long k ≡ true)
          × ((j : ℕ) → i ≤ j → j < k → is_long j ≡ false)
          × (calibrate_tsc (suc n) i
              ≡ some (
                  div
                    (of_int (pos (sub_word (counter 1) (counter 0))))
                    (elapsed_ns (clock 0) (clock k))))
    unfolding calibrate_tsc
    calibrate_tsc-ends zero i h =
        let long : is_long i ≡ true = ap is_long (omega arith) ∙ h in
        (i, omega arith, omega arith, long, λ j l m. absurd (omega (arith, l, m)), rw long refl)
    calibrate_tsc-ends (suc m) i h = elim (Bool-cases (is_long i)) [
      | inl e ↦ (i, omega arith, omega arith, e, λ j l q. absurd (omega (arith, l, q)), rw e refl)
      | inr e ↦
          let (k, lo, hi, long, before, found) =
            calibrate_tsc-ends m (suc i) (ap is_long (omega arith) ∙ h) in
          (
            k,
            omega (arith, lo),
            omega (arith, hi),
            long,
            λ j l q. elim (ℕ-cases j i) [
              | inl same ↦ ap is_long same ∙ e
              | inr other ↦ before j (omega (arith, l, other)) q
            ],
            rw e found,
          )
    ]
