-- ===== src/StatsHistory/Aggregation.antt =====
-- What the history tells of a window.
use mavrouter.Prelude.{
  ℕ, min, max, refl, ap, false, some, List, [], arith, usize_max, length, get_last?, ◌+◌, ◌%◌, ◌^◌,
  ◌-◌, ◌≤◌, ◌<◌, ◌≡◌, ◌∙◌, ◌&&◌, ◌∷◌, ◌++◌, ◌==◌, nat_eq,
}
use mavrouter.Routing.Table.{RoutingStats}
use mavrouter.StatsHistory.{AggregatedStats, drop_before, fold_routes, aggregate, aggregate_since}
use mavrouter.StatsHistory.Retention.{IsOrdered, IsOrdered-append, recent, drop_before-recent}

unfoldable pub sum_of : List RoutingStats → ℕ
sum_of [] = 0
sum_of (s ∷ window) = s.total_routes + sum_of window

unfoldable pub largest : List RoutingStats → ℕ
largest [] = 0
largest (s ∷ window) = max s.total_routes (largest window)

unfoldable pub smallest : List RoutingStats → ℕ
smallest [] = usize_max
smallest (s ∷ window) = min s.total_routes (smallest window)

-- The sum as a 64-bit number, the extremes and the size of a window.
abbrev pub summary : List RoutingStats → AggregatedStats
summary window = record {
  sum_routes = sum_of window % 2 ^ 64;
  max_routes = largest window;
  min_routes = smallest window;
  sample_count = length window;
}

fold_routes_lem :
    (window : List RoutingStats) (sum low high : ℕ)
    → low ≤ usize_max
    → fold_routes (sum % 2 ^ 64, low, high) window
      ≡ ((sum + sum_of window) % 2 ^ 64, min low (smallest window), max high (largest window))
unfolding fold_routes sum_of largest smallest
fold_routes_lem [] sum low high h = ground arith
fold_routes_lem (s ∷ window) sum low high h =
    let rest =
      fold_routes_lem window (sum + s.total_routes) (min low s.total_routes)
        (max high s.total_routes) (omega arith) in
    let wraps : (sum % 2 ^ 64 + s.total_routes) % 2 ^ 64 ≡ (sum + s.total_routes) % 2 ^ 64 =
      omega arith in
    let total : sum + s.total_routes + sum_of window ≡ sum + (s.total_routes + sum_of window) =
      omega arith in
    let least : min (min low s.total_routes) (smallest window)
        ≡ min low (min s.total_routes (smallest window)) =
      omega arith in
    let most : max (max high s.total_routes) (largest window)
        ≡ max high (max s.total_routes (largest window)) =
      omega arith in
    rw (wraps, rest, total, least, most) refl

smallest-le : (window : List RoutingStats) → smallest window ≤ usize_max
unfolding smallest
smallest-le [] = omega arith
smallest-le (s ∷ window) = omega (arith, smallest-le window)

get_last?-append :
    (older : List RoutingStats) (latest : RoutingStats)
    → get_last? (older ++ (latest ∷ [])) ≡ some latest
get_last?-append [] latest = refl
get_last?-append (s ∷ []) latest = refl
get_last?-append (s ∷ t ∷ older) latest = get_last?-append (t ∷ older) latest

-- The latest sample is in its window.
recent-latest :
    (cutoff : ℕ) (older : List RoutingStats) (latest : RoutingStats)
    → cutoff ≤ latest.timestamp
    → 0 < length (recent cutoff (older ++ (latest ∷ [])))
unfolding recent
recent-latest cutoff [] latest h = ground arith
recent-latest cutoff (s ∷ older) latest h = ground (arith, recent-latest cutoff older latest h)

extremes :
    (window : List RoutingStats)
    → 0 < length window
    → (largest window == 0 && smallest window == usize_max) ≡ false
unfolding largest smallest
extremes [] h = absurd (omega (arith, h))
extremes (s ∷ window) h = ground (arith, smallest-le window)

-- For samples in the order of time, an aggregation is defined as soon as there is a sample, and
-- gives the sum as a 64-bit number that wraps, the largest, the smallest and the number of the routes over exactly the samples
-- that are not more than the window older than the latest.
pub aggregate-summary :
    (older : List RoutingStats) (latest : RoutingStats) (max_age_secs window_secs : ℕ)
    → IsOrdered older latest.timestamp
    → aggregate
        (record { samples = older ++ (latest ∷ []); max_age_secs = max_age_secs })
        window_secs
      ≡ some (summary (recent (latest.timestamp - window_secs) (older ++ (latest ∷ []))))
unfolding aggregate
aggregate-summary older latest max_age_secs window_secs h =
    let samples = older ++ (latest ∷ []) in
    let cutoff = latest.timestamp - window_secs in
    let window = recent cutoff samples in
    let same : drop_before cutoff samples ≡ window =
      drop_before-recent cutoff latest.timestamp samples (IsOrdered-append older latest h) in
    let some_sample : 0 < length window = recent-latest cutoff older latest (omega arith) in
    let not_empty : (length window == 0) ≡ false = ground (arith, some_sample) in
    let zero_sum : 0 + sum_of window ≡ sum_of window = omega arith in
    let low : min usize_max (smallest window) ≡ smallest window =
      omega (arith, smallest-le window) in
    let high : max 0 (largest window) ≡ largest window = omega arith in
    ap (aggregate_since samples window_secs) (get_last?-append older latest)
    ∙ rw
        (
          same,
          fold_routes_lem window 0 usize_max 0 (omega arith),
          zero_sum,
          low,
          high,
          not_empty,
          extremes window some_sample,
        )
        refl
