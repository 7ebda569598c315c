-- ===== src/StatsReporter/Reports.antt =====
-- What the reports tell.
use mavrouter.Prelude.{
  ℕ, refl, sym, ap, subst, inl, inr, false, Option, some, List, [], arith, leb, Bool-cases, All,
  ◌-◌, ◌≤◌, ◌<◌, ◌≡◌, ◌∙◌, ◌∷◌, ◌++◌, ◌==◌, if◌then◌else◌, nat_eq,
}
use mavrouter.Routing.Table.{RoutingStats, stats}
use mavrouter.Endpoint.{EndpointStats}
use mavrouter.StatsHistory.{AggregatedStats, StatsHistory, push, aggregate}
use mavrouter.StatsHistory.Retention.{IsOrdered, recent, IsOrdered-append, push-recent}
use mavrouter.StatsHistory.Aggregation.{summary, aggregate-summary}
use mavrouter.StatsReporter.{
  Tick, cancelled, sampled, Report, since_epoch, report_loop, report, spawn_stats_reporter,
}
use mavrouter.StatsHistory

-- The clock does not go back.
abbrev pub IsMonotone : ℕ → List Tick → Type 0
IsMonotone last [] = Unit
IsMonotone last (cancelled ∷ ticks) = IsMonotone last ticks
IsMonotone last (sampled rt unix_secs endpoint_stats ∷ ticks) =
    (last ≤ since_epoch unix_secs) × IsMonotone (since_epoch unix_secs) ticks

-- The reports from all samples since the start: `taken` are those so far.
abbrev pub expected : ℕ → ℕ → List RoutingStats → ℕ → List Tick → List Report
expected retention log_interval taken last_log_time [] = []
expected retention log_interval taken last_log_time (cancelled ∷ ticks) = []
expected retention log_interval taken last_log_time (sampled rt unix_secs endpoints ∷ ticks) =
    let now = since_epoch unix_secs in
    let all_taken = taken ++ (stats rt now ∷ []) in
    let kept = recent (now - retention) all_taken in
    let due = leb log_interval (now - last_log_time) in
    let rest =
      expected retention log_interval all_taken (if due then now else last_log_time) ticks in
    let made : Report = record {
      min1 = some (summary (recent (now - 60) kept));
      hour1 = some (summary (recent (now - 3600) kept));
      all = some (summary kept);
      latest = stats rt now;
      endpoints = endpoints;
    } in
    if due then made ∷ rest else rest

recent-recent :
    (a b : ℕ) (xs ys : List RoutingStats)
    → a ≤ b
    → recent b (recent a xs ++ ys) ≡ recent b (xs ++ ys)
unfolding recent
recent-recent a b [] ys h = refl
recent-recent a b (x ∷ xs) ys h = ground (arith, recent-recent a b xs ys h)

recent-append :
    (a : ℕ) (xs : List RoutingStats) (x : RoutingStats)
    → a ≤ x.timestamp
    → recent a (xs ++ (x ∷ [])) ≡ recent a xs ++ (x ∷ [])
unfolding recent
recent-append a [] x h = ground arith
recent-append a (y ∷ xs) x h = ground (arith, recent-append a xs x h)

recent-again : (a : ℕ) (xs : List RoutingStats) → recent a (recent a xs) ≡ recent a xs
unfolding recent
recent-again a [] = refl
recent-again a (x ∷ xs) = ground (arith, recent-again a xs)

recent-later :
    (a b : ℕ) (xs : List RoutingStats)
    → All (λ r. b ≤ r.timestamp) xs
    → All (λ r. b ≤ r.timestamp) (recent a xs)
unfolding recent
recent-later a b [] all = tt
recent-later a b (x ∷ xs) all = elim (Bool-cases (leb a x.timestamp)) [
  | inl young ↦ rw young (all.0, recent-later a b xs all.1)
  | inr old ↦ rw old (recent-later a b xs all.1)
]

recent-IsOrdered :
    (a last : ℕ) (xs : List RoutingStats) → IsOrdered xs last → IsOrdered (recent a xs) last
unfolding recent
recent-IsOrdered a last [] h = tt
recent-IsOrdered a last (x ∷ xs) (early, later, rest) = elim (Bool-cases (leb a x.timestamp)) [
  | inl young ↦
      rw young (early, recent-later a x.timestamp xs later, recent-IsOrdered a last xs rest)
  | inr old ↦ rw old (recent-IsOrdered a last xs rest)
]

IsOrdered-later : (a b : ℕ) (xs : List RoutingStats) → a ≤ b → IsOrdered xs a → IsOrdered xs b
IsOrdered-later a b [] h k = tt
IsOrdered-later a b (x ∷ xs) h (early, later, rest) =
    (omega (arith, h, early), later, IsOrdered-later a b xs h rest)

aggregate-kept :
    (history : StatsHistory) (older : List RoutingStats) (latest : RoutingStats) (window : ℕ)
    → IsOrdered older latest.timestamp
    → history.samples ≡ older ++ (latest ∷ [])
    → aggregate history window ≡ some (summary (recent (latest.timestamp - window) history.samples))
aggregate-kept history older latest window h e =
    ap {A = List RoutingStats}
      (λ xs. aggregate (record { samples = xs; max_age_secs = history.max_age_secs }) window) e
    ∙ aggregate-summary older latest history.max_age_secs window h
    ∙ ap (λ xs. some (summary (recent (latest.timestamp - window) xs))) (sym e)

-- A push keeps of all samples what is recent.
push-taken :
    (history : StatsHistory) (taken : List RoutingStats) (latest : RoutingStats) (last : ℕ)
    → last ≤ latest.timestamp
    → IsOrdered taken last
    → history.samples ≡ recent (last - history.max_age_secs) taken
    → (push history latest).samples
      ≡ recent (latest.timestamp - history.max_age_secs) (taken ++ (latest ∷ []))
push-taken history taken latest last h ordered e =
    let retention = history.max_age_secs in
    let now = latest.timestamp in
    let early =
      IsOrdered-later last now (recent (last - retention) taken) h
        (recent-IsOrdered (last - retention) last taken ordered) in
    push-recent history latest (subst (λ xs. IsOrdered xs now) (sym e) early)
    ∙ ap (λ xs. recent (now - retention) (xs ++ (latest ∷ []))) e
    ∙ recent-recent (last - retention) (now - retention) taken (latest ∷ []) (omega (arith, h))

aggregate-recent :
    (history : StatsHistory) (all_taken older : List RoutingStats) (latest : RoutingStats)
    (cutoff window : ℕ)
    → IsOrdered older latest.timestamp
    → history.samples ≡ recent cutoff all_taken
    → history.samples ≡ older ++ (latest ∷ [])
    → aggregate history window
      ≡ some (summary (recent (latest.timestamp - window) (recent cutoff all_taken)))
aggregate-recent history all_taken older latest cutoff window h kept split =
    aggregate-kept history older latest window h split
    ∙ ap (λ xs. some (summary (recent (latest.timestamp - window) xs))) kept

-- A report of these aggregations.
abbrev made :
    RoutingStats
    → List (ℕ × EndpointStats)
    → Option AggregatedStats
    → Option AggregatedStats
    → Option AggregatedStats
    → Report
made latest endpoints min1 hour1 all = record {
  min1 = min1;
  hour1 = hour1;
  all = all;
  latest = latest;
  endpoints = endpoints;
}

made-ap :
    {a a' b b' c c' : Option AggregatedStats} (latest : RoutingStats)
    (endpoints : List (ℕ × EndpointStats))
    → a ≡ a'
    → b ≡ b'
    → c ≡ c'
    → made latest endpoints a b c ≡ made latest endpoints a' b' c'
made-ap {a} {a'} {b} {b'} {c} {c'} latest endpoints p q r =
    ap (λ x. made latest endpoints x b c) p
    ∙ ap (λ x. made latest endpoints a' x c) q
    ∙ ap (λ x. made latest endpoints a' b' x) r

cons-ap {ℓ} : {A : Type ℓ} {x y : A} {xs ys : List A} → x ≡ y → xs ≡ ys → x ∷ xs ≡ y ∷ ys
cons-ap {y = y} {xs = xs} p q = ap (λ z. z ∷ xs) p ∙ ap (◌∷◌ y) q

loop-expected :
    (retention log_interval : ℕ) (ticks : List Tick) (history : StatsHistory)
    (taken : List RoutingStats) (last last_log_time : ℕ)
    → IsMonotone last ticks
    → IsOrdered taken last
    → history.max_age_secs ≡ retention
    → history.samples ≡ recent (last - retention) taken
    → report_loop retention log_interval ticks history last_log_time
      ≡ expected retention log_interval taken last_log_time ticks
unfolding report_loop report stats push
loop-expected retention log_interval [] history taken last last_log_time mono ordered age e = refl
loop-expected retention log_interval (cancelled ∷ ticks) history taken last last_log_time mono
      ordered age e =
    refl
loop-expected retention log_interval (sampled rt unix_secs endpoints ∷ ticks) history taken last
      last_log_time mono ordered age e =
    let now = since_epoch unix_secs in
    let latest = stats rt now in
    let after = push history latest in
    let same_samples : history.samples ≡ recent (last - history.max_age_secs) taken =
      e ∙ ap (λ r. recent (last - r) taken) (sym age) in
    let kept : after.samples ≡ recent (now - retention) (taken ++ (latest ∷ [])) =
      push-taken history taken latest last mono.0 ordered same_samples
      ∙ ap (λ r. recent (now - r) (taken ++ (latest ∷ []))) age in
    let split = kept ∙ recent-append (now - retention) taken latest (omega arith) in
    let before =
      recent-IsOrdered (now - retention) now taken
        (IsOrdered-later last now taken mono.0 ordered) in
    let all_taken = taken ++ (latest ∷ []) in
    let in_window =
      aggregate-recent after all_taken (recent (now - retention) taken) latest (now - retention) in
    let min1 = in_window 60 before kept split in
    let hour1 = in_window 3600 before kept split in
    let whole =
      in_window retention before kept split
      ∙ ap (λ xs. some (summary xs)) (recent-again (now - retention) all_taken) in
    let rest =
      loop-expected retention log_interval ticks after (taken ++ (latest ∷ [])) now
        (if leb log_interval (now - last_log_time) then now else last_log_time) mono.1
        (IsOrdered-append taken latest (IsOrdered-later last now taken mono.0 ordered)) age kept in
    elim (Bool-cases (leb log_interval (now - last_log_time))) [
      | inl due ↦ rw due (cons-ap (made-ap latest endpoints min1 hour1 whole) (rw due at rest))
      | inr early ↦ rw early (rw early at rest)
    ]

-- With a sample interval and a retention above zero, and while the clock does not go back, there is
-- a report at each sample that comes at least the log interval after the last report (after the
-- epoch, for the first), and it tells the sum as a 64-bit number that wraps, the extremes and the number of the routes over
-- exactly the samples of the last minute, of the last hour, and of the retention time, those
-- older than the retention time left out of all three.
pub spawn_stats_reporter-expected :
    (sample_interval retention log_interval : ℕ) (ticks : List Tick)
    → 0 < sample_interval
    → 0 < retention
    → IsMonotone 0 ticks
    → spawn_stats_reporter sample_interval retention log_interval ticks
      ≡ some (expected retention log_interval [] 0 ticks)
unfolding spawn_stats_reporter StatsHistory.new recent
spawn_stats_reporter-expected sample_interval retention log_interval ticks some_interval kept mono =
    let interval : (sample_interval == 0) ≡ false = ground (arith, some_interval) in
    let age : (retention == 0) ≡ false = ground (arith, kept) in
    rw (interval, age)
      (ap some (
        loop-expected retention log_interval ticks (StatsHistory.new retention) [] 0 0 mono tt refl
          refl))
