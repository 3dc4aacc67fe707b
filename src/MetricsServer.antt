-- ===== src/MetricsServer.antt =====
-- libs/metrics_server: `MetricsSnapshot` (include/metrics_server.h) and the text and the threads of
-- src/metrics_server.cpp. What `operator<<` writes of an integer is a parameter.
pub mod Json
pub mod Threads
use trading_simulation.Prelude.{ℕ, List, [], ◌∷◌, ◌++◌}
use trading_simulation.Prelude.Int.{ℤ, pos}
use trading_simulation.Prelude.Text.{codes}

pub record MetricsSnapshot : Type 0 where
  pub tick_p50 : ℤ
  pub tick_p99 : ℤ
  pub tick_p999 : ℤ
  pub tick_max : ℤ
  pub tick_count : ℕ
  pub match_p50 : ℤ
  pub match_p99 : ℤ
  pub match_p999 : ℤ
  pub match_max : ℤ
  pub match_count : ℕ
  pub dropped_ticks : ℕ
  pub dropped_execs : ℕ
  pub tick_queue_depth : ℕ
  pub exec_queue_depth : ℕ
  pub tick_queue_capacity : ℕ
  pub exec_queue_capacity : ℕ

-- A number and a comma, behind what names it, and the rest.
abbrev pub member : List ℕ → List ℕ → List ℕ → List ℕ
member name value rest = name ++ (value ++ 44 ∷ rest)

-- `toJson`
unfoldable pub to_json : (ℤ → List ℕ) → MetricsSnapshot → List ℕ
to_json show s = member (codes "{\"tick_p50\":") (show s.tick_p50) (
    member (codes "\"tick_p99\":") (show s.tick_p99) (
      member (codes "\"tick_p999\":") (show s.tick_p999) (
        member (codes "\"tick_max\":") (show s.tick_max) (
          member (codes "\"tick_count\":") (show (pos s.tick_count)) (
            member (codes "\"match_p50\":") (show s.match_p50) (
              member (codes "\"match_p99\":") (show s.match_p99) (
                member (codes "\"match_p999\":") (show s.match_p999) (
                  member (codes "\"match_max\":") (show s.match_max) (
                    member (codes "\"match_count\":") (show (pos s.match_count)) (
                      member (codes "\"dropped_ticks\":") (show (pos s.dropped_ticks)) (
                        member (codes "\"dropped_execs\":") (show (pos s.dropped_execs)) (
                          member (codes "\"tick_queue_depth\":") (show (pos s.tick_queue_depth)) (
                            member (codes "\"exec_queue_depth\":") (show (pos s.exec_queue_depth)) (
                              member (codes "\"tick_queue_capacity\":")
                                (show (pos s.tick_queue_capacity))
                                (codes "\"exec_queue_capacity\":"
                                  ++ (show (pos s.exec_queue_capacity) ++ codes "}"))))))))))))))))
