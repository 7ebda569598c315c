-- ===== src/Examples/Delays.antt =====
-- The restart delays and the reports of statistics at concrete inputs.
use mavrouter.Prelude.{ℕ, some, List, [], arith, ◌*◌, ◌≡◌, ◌∷◌, nat_eq}
use mavrouter.Routing.Time.{Duration}
use mavrouter.StatsReporter.{Tick, sampled, cancelled, spawn_stats_reporter}
use mavrouter.StatsReporter.Reports.{expected, spawn_stats_reporter-expected}
use mavrouter.Endpoint.{new_stats}
use mavrouter.Examples.Tables.{learned}

abbrev pub scale : Duration → ℕ → Duration
scale d multiplier = d * multiplier

abbrev ticks : List Tick
ticks =
    sampled learned (some 10) [] ∷ sampled learned (some 70) ((0, new_stats) ∷ []) ∷ cancelled ∷ []

spawn_stats_reporter-expected_example :
    spawn_stats_reporter 1 3600 60 ticks ≡ some (expected 3600 60 [] 0 ticks)
spawn_stats_reporter-expected_example =
    spawn_stats_reporter-expected 1 3600 60 ticks (omega arith) (omega arith)
      (omega arith, (omega arith, tt))
