-- ===== src/LatencyTracker/Text.antt =====
-- What the tracker prints (`fmt_ns` and `report`), and the scope timer `ScopedLatency`. How `snprintf` writes
-- a `double` with two digits behind the point, and how an integer is written, are parameters.
use trading_simulation.Prelude.{ℕ, List, [], ◌∷◌, ◌++◌, if◌then◌else◌, ◌==◌}
use trading_simulation.Prelude.Int.{ℤ, pos, ◌-ℤ◌, ltb_ℤ}
use trading_simulation.Prelude.Text.{codes}
use trading_simulation.Double.{Double}
use trading_simulation.LatencyTracker.{LatencyTracker, report, record_sample}

-- Texts one after another.
abbrev written : List (List ℕ) → List ℕ
written [] = []
written (text ∷ texts) = text ++ written texts

abbrev line_end : List ℕ
line_end = 10 ∷ []

-- `start` is the clock's reading in the constructor, `now` that in the destructor.
unfoldable pub scoped : LatencyTracker → ℤ → ℤ → LatencyTracker
scoped tracker start now = record_sample tracker (now -ℤ start)

module _ (F : Double) (show : ℤ → List ℕ) (two_places : F.Carrier → List ℕ) where
  open F use {Carrier as D, decimal, of_int, div}

  -- The micro sign is two bytes.
  unfoldable pub fmt_ns : ℤ → List ℕ
  fmt_ns ns =
      if ltb_ℤ ns (pos 1000)
      then show ns ++ codes " ns"
      else if ltb_ℤ ns (pos 1_000_000)
      then two_places (div (of_int ns) (decimal 1000 0)) ++ (32 ∷ 194 ∷ 181 ∷ codes "s")
      else two_places (div (of_int ns) (decimal 1_000_000 0)) ++ codes " ms"

  -- What `report` writes: the parts in order.
  unfoldable pub report_text : (D → ℤ) → List ℕ → LatencyTracker → List ℕ
  report_text to_int64 name t =
      let r = report F to_int64 t in
      if t.count == 0
      then written (codes "  " ∷ name ∷ codes ": no samples yet" ∷ line_end ∷ [])
      else written (
          codes "  "
          ∷ name
          ∷ codes "  ("
          ∷ show (pos r.samples)
          ∷ codes " samples)"
          ∷ line_end
          ∷ codes "    p50="
          ∷ fmt_ns r.p50
          ∷ codes "   p75="
          ∷ fmt_ns r.p75
          ∷ codes "   p95="
          ∷ fmt_ns r.p95
          ∷ codes "   p99="
          ∷ fmt_ns r.p99
          ∷ line_end
          ∷ codes "    p99.9="
          ∷ fmt_ns r.p999
          ∷ codes "  p99.99="
          ∷ fmt_ns r.p9999
          ∷ codes "   max="
          ∷ fmt_ns (pos r.largest)
          ∷ codes "   mean="
          ∷ fmt_ns r.average
          ∷ line_end
          ∷ codes "    jitter(p99-p50)="
          ∷ fmt_ns r.jitter
          ∷ codes "   min="
          ∷ fmt_ns (pos r.least)
          ∷ line_end
          ∷ [])
