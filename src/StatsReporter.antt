-- ===== src/StatsReporter.antt =====
-- src/orchestration/stats_reporter.rs: the task that samples the routing table and reports. A report
-- is what is logged; what the sleeps end in is a list.
pub mod Reports
use mavrouter.Prelude.{
  ℕ, Bool, Option, none, some, List, [], leb, ◌-◌, ◌||◌, ◌∷◌, ◌==◌, if◌then◌else◌, nat_eq,
}
use mavrouter.Routing.Table.{RoutingTable, RoutingStats, stats}
use mavrouter.Endpoint.{EndpointStats}
use mavrouter.StatsHistory.{StatsHistory, AggregatedStats, push, aggregate}
use mavrouter.StatsHistory

-- A sample finds a table, the seconds since the epoch unless the clock is before it, and the
-- counters of the endpoints.
pub data Tick : Type 0 where
  cancelled : Tick
  sampled :
      (rt : RoutingTable) (unix_secs : Option ℕ) (endpoint_stats : List (ℕ × EndpointStats)) → Tick

-- The aggregations of a minute, of an hour and of all that is kept, the latest sample, and the
-- counters.
pub record Report : Type 0 where
  pub min1 : Option AggregatedStats
  pub hour1 : Option AggregatedStats
  pub all : Option AggregatedStats
  pub latest : RoutingStats
  pub endpoints : List (ℕ × EndpointStats)

abbrev pub since_epoch : Option ℕ → ℕ
since_epoch none = 0
since_epoch (some secs) = secs

unfoldable pub report : StatsHistory → ℕ → RoutingStats → List (ℕ × EndpointStats) → Report
report history retention latest endpoint_stats = record {
  min1 = aggregate history 60;
  hour1 = aggregate history 3600;
  all = aggregate history retention;
  latest = latest;
  endpoints = endpoint_stats;
}

-- The reports of the loop.
unfoldable pub report_loop : ℕ → ℕ → List Tick → StatsHistory → ℕ → List Report
report_loop retention log_interval [] history last_log_time = []
report_loop retention log_interval (cancelled ∷ ticks) history last_log_time = []
report_loop retention log_interval (sampled rt unix_secs endpoint_stats ∷ ticks) history
      last_log_time =
    let latest = stats rt (since_epoch unix_secs) in
    let after = push history latest in
    let current_timestamp = latest.timestamp in
    let due = leb log_interval (current_timestamp - last_log_time) in
    let rest =
      report_loop retention log_interval ticks after
        (if due then current_timestamp else last_log_time) in
    if due then report after retention latest endpoint_stats ∷ rest else rest

abbrev pub is_disabled : ℕ → ℕ → Bool
is_disabled sample_interval retention = sample_interval == 0 || retention == 0

unfoldable pub spawn_stats_reporter : ℕ → ℕ → ℕ → List Tick → Option (List Report)
spawn_stats_reporter sample_interval retention log_interval ticks =
    if is_disabled sample_interval retention
    then none
    else some (report_loop retention log_interval ticks (StatsHistory.new retention) 0)
