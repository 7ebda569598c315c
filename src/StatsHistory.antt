-- ===== src/StatsHistory.antt =====
-- src/orchestration/stats_history.rs: the samples of the routing statistics, oldest first. The
-- average is the sum of the routes with the number of samples that divides it.
pub mod Retention
pub mod Aggregation
use mavrouter.Prelude.{
  ℕ, min, max, Option, none, some, List, [], ltb, usize_max, length, get_last?, ◌+◌, ◌%◌, ◌^◌, ◌-◌,
  ◌&&◌, ◌∷◌, ◌++◌, ◌==◌, if◌then◌else◌, nat_eq,
}
use mavrouter.Routing.Table.{RoutingStats}

pub record StatsHistory : Type 0 where
  pub samples : List RoutingStats
  pub max_age_secs : ℕ

unfoldable pub new : ℕ → StatsHistory
new max_age_secs = record { samples = []; max_age_secs = max_age_secs }

-- `while let Some(oldest) = samples.front()`.
unfoldable pub drop_before : ℕ → List RoutingStats → List RoutingStats
drop_before cutoff [] = []
drop_before cutoff (oldest ∷ samples) =
    let rest = drop_before cutoff samples in
    if ltb oldest.timestamp cutoff then rest else oldest ∷ samples

unfoldable pub push : StatsHistory → RoutingStats → StatsHistory
unfolding drop_before
push history stats = record history {
  samples = drop_before (stats.timestamp - history.max_age_secs) (history.samples ++ (stats ∷ []));
}

pub record AggregatedStats : Type 0 where
  pub sum_routes : ℕ
  pub max_routes : ℕ
  pub min_routes : ℕ
  pub sample_count : ℕ

-- The fold over the window: the sum, which wraps, the smallest and the largest number of routes.
unfoldable pub fold_routes : ℕ × ℕ × ℕ → List RoutingStats → ℕ × ℕ × ℕ
fold_routes acc [] = acc
fold_routes (sum, low, high) (s ∷ window) =
    fold_routes ((sum + s.total_routes) % 2 ^ 64, min low s.total_routes, max high s.total_routes)
      window

-- From the latest sample on. The samples are in the order of time, so `partition_point` is the
-- index of the first that is not before the cutoff, and the window is what stands from there on.
unfoldable pub aggregate_since :
    List RoutingStats → ℕ → Option RoutingStats → Option AggregatedStats
aggregate_since samples window_secs none = none
aggregate_since samples window_secs (some latest) =
    let window = drop_before (latest.timestamp - window_secs) samples in
    let (sum_routes, min_routes, max_routes) = fold_routes (0, usize_max, 0) window in
    if length window == 0
    then none
    else if max_routes == 0 && min_routes == usize_max
    then none
    else some (record {
      sum_routes = sum_routes;
      max_routes = max_routes;
      min_routes = min_routes;
      sample_count = length window;
    })

unfoldable pub aggregate : StatsHistory → ℕ → Option AggregatedStats
unfolding aggregate_since
aggregate history window_secs =
    aggregate_since history.samples window_secs (get_last? history.samples)
