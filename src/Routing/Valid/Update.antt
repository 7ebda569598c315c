-- ===== src/Routing/Valid/Update.antt =====
-- `update` keeps a shard valid.
use mavrouter.Prelude.{
  ℕ, Bool, true, false, arith, one_if, usize_max, ◌+◌, ◌≤◌, ◌<◌, ◌≡◌, ◌&&◌, ◌==◌, if◌then◌else◌,
  nat_eq, pair_eq,
}
use mavrouter.Prelude.Maps.{DistinctKeys}
use mavrouter.Routing.Time.{Instant}
use mavrouter.Routing.Shard.{Shard, Counts, bump}
use mavrouter.Routing.Shard.Counts.{count, Positive, count-bump, bump-DistinctKeys, bump-Positive}
use mavrouter.Routing.Table.{touch, record_route}
use mavrouter.Routing.Table.Touch.{touch-DistinctKeys, touch-Clean, touch-keys, presence-touch}
use mavrouter.Routing.Valid.{InShard, RouteKey, IsValid, presence-bound, presence}

-- A counter raised if a flag is set.
abbrev raised : Bool → ℕ → Counts → Counts
raised fresh ep counts = if fresh then bump ep counts else counts

count-raised :
    (fresh : Bool) (ep x : ℕ) (c : Counts)
    → count x c < usize_max
    → count x (raised fresh ep c) ≡ count x c + one_if (fresh && ep == x)
count-raised fresh ep x c h = ground (arith, count-bump ep x c)

raised-DistinctKeys :
    (fresh : Bool) (ep : ℕ) (c : Counts) → DistinctKeys c → DistinctKeys (raised fresh ep c)
raised-DistinctKeys true ep c d = bump-DistinctKeys ep c d
raised-DistinctKeys false ep c d = d

raised-Positive : (fresh : Bool) (ep : ℕ) (c : Counts) → Positive c → Positive (raised fresh ep c)
raised-Positive true ep c d = bump-Positive ep c d
raised-Positive false ep c d = d

module _ (ep sysid compid : ℕ) (now : Instant) {k : ℕ} {shard : Shard} where
  -- Both counters of the endpoint follow the two flags.
  counts-record_route :
      (x : ℕ)
      → IsValid k shard
      → let routes = touch (sysid, compid) ep now shard.routes in
        let systems = touch sysid ep now shard.sys_routes in
        count x (raised systems.1 ep (raised routes.1 ep shard.endpoint_counts))
        ≡ presence x routes.0 + presence x systems.0
  counts-record_route x v =
      let routes = touch (sysid, compid) ep now shard.routes in
      let systems = touch sysid ep now shard.sys_routes in
      let first = raised routes.1 ep shard.endpoint_counts in
      let room : count x shard.endpoint_counts ≤ 4112 =
        omega (arith, v.exact x, presence-bound v x) in
      let in_routes = count-raised routes.1 ep x shard.endpoint_counts (omega arith) in
      let flag : one_if (routes.1 && ep == x) ≤ 1 = ground arith in
      let in_systems = count-raised systems.1 ep x first (omega arith) in
      omega (
        arith,
        v.exact x,
        in_routes,
        in_systems,
        presence-touch (sysid, compid) ep now x shard.routes,
        presence-touch sysid ep now x shard.sys_routes,
      )

  pub record_route-IsValid :
      InShard k sysid
      → compid < 256
      → IsValid k shard
      → IsValid k (record_route ep sysid compid now shard)
  unfolding record_route
  record_route-IsValid s c v =
      let route_flag = (touch (sysid, compid) ep now shard.routes).1 in
      let system_flag = (touch sysid ep now shard.sys_routes).1 in
      let counts = shard.endpoint_counts in
      let first = raised route_flag ep counts in
      record {
        routes_distinct = touch-DistinctKeys (sysid, compid) ep now shard.routes v.routes_distinct;
        systems_distinct = touch-DistinctKeys sysid ep now shard.sys_routes v.systems_distinct;
        routes_keys =
            touch-keys (sysid, compid) ep now (RouteKey k) shard.routes (s, c) v.routes_keys;
        systems_keys = touch-keys sysid ep now (InShard k) shard.sys_routes s v.systems_keys;
        routes_clean = touch-Clean (sysid, compid) ep now shard.routes v.routes_clean;
        systems_clean = touch-Clean sysid ep now shard.sys_routes v.systems_clean;
        counts_distinct =
            raised-DistinctKeys system_flag ep first
              (raised-DistinctKeys route_flag ep counts v.counts_distinct);
        counts_positive =
            raised-Positive system_flag ep first
              (raised-Positive route_flag ep counts v.counts_positive);
        exact = λ x. counts-record_route x v;
      }
