-- ===== src/Routing/Table.antt =====
-- src/routing/table.rs, update.rs and stats.rs: the routing table over sixteen shards. The locks
-- and the atomic snapshot make each operation one step on the state; `Instant::now()` and
-- `SystemTime::now()` are arguments.
pub mod Touch
use Prim.Native.String.{String}
use mavrouter.Prelude.{
  ℕ, bit_and, Bool, true, false, not, Option, none, some, List, [], map, leb, saturating_add,
  length, get_or, modify, replicate, Eq, ◌||◌, ◌∷◌, ◌==◌, if◌then◌else◌, nat_eq, string_eq, pair_eq,
}
use mavrouter.Prelude.Sets.{contains, insert, collect}
use mavrouter.Prelude.Maps.{lookup, put}
use mavrouter.Routing.Time.{Instant, Duration, from_secs, duration_since}
use mavrouter.Routing.Groups.{GroupConfig, default_config, any_in_same_group}
use mavrouter.Routing.Shard.{
  RouteEntry, Counts, Shard, default_shard, shard_count, shard_mask, bump, shard_prune,
  shard_remove_oldest_system, max_routes_per_shard, max_systems_per_shard,
}

pub record RoutingTable : Type 0 where
  pub shards : List Shard
  pub config : GroupConfig

unfoldable pub new : RoutingTable
new = record { shards = replicate shard_count default_shard; config = default_config }

abbrev pub shard_index : ℕ → ℕ
shard_index sys_id = bit_and sys_id shard_mask

-- The index is always in bounds, so the default is never read.
unfoldable pub shard_for : RoutingTable → ℕ → Shard
shard_for t sys_id = get_or t.shards (shard_index sys_id) default_shard

unfoldable pub rcu_config : RoutingTable → (GroupConfig → GroupConfig) → RoutingTable
rcu_config t edit = record t { config = edit t.config }

-- `group_members.entry(group).or_default().insert(id)`
unfoldable pub add_member : String → ℕ → List (String × List ℕ) → List (String × List ℕ)
add_member group id [] = (group, (insert [] id).0) ∷ []
add_member group id ((g, members) ∷ m) =
    if g == group then (g, (insert members id).0) ∷ m else (g, members) ∷ add_member group id m

-- `HashMap::insert` puts the new value under the key.
unfoldable pub set_endpoint_group : RoutingTable → ℕ → String → RoutingTable
unfolding rcu_config add_member
set_endpoint_group t id group = rcu_config t λ cfg. record cfg {
  endpoint_groups = put id group cfg.endpoint_groups;
  group_members = add_member group id cfg.group_members;
}

unfoldable pub set_sniffer_sysids : RoutingTable → List ℕ → RoutingTable
unfolding rcu_config
set_sniffer_sysids t sysids = rcu_config t λ cfg. record cfg { sniffer_sysids = collect sysids }

unfoldable pub entry_has : Option RouteEntry → ℕ → Bool
entry_has none endpoint_id = false
entry_has (some entry) endpoint_id = contains entry.endpoints endpoint_id

unfoldable pub seen_on_any : RoutingTable → List ℕ → ℕ → Bool
unfolding shard_for entry_has
seen_on_any t [] endpoint_id = false
seen_on_any t (sysid ∷ rest) endpoint_id =
    entry_has (lookup sysid (shard_for t sysid).sys_routes) endpoint_id
    || seen_on_any t rest endpoint_id

unfoldable pub is_sniffer_endpoint : RoutingTable → ℕ → Bool
unfolding seen_on_any
is_sniffer_endpoint t endpoint_id = seen_on_any t t.config.sniffer_sysids endpoint_id

-- `entry(key).and_modify(…).or_insert_with(…)`: the map, and the flag that the closures set.
unfoldable pub touch {ℓ} :
    {K : Type ℓ} ⦃e : Eq K⦄ → K → ℕ → Instant → List (K × RouteEntry) → List (K × RouteEntry) × Bool
touch k endpoint_id now [] =
    ((k, record { endpoints = endpoint_id ∷ []; last_seen = now }) ∷ [], true)
touch k endpoint_id now ((j, e) ∷ m) =
    let (eps, fresh) = insert e.endpoints endpoint_id in
    let (rest, below) = touch k endpoint_id now m in
    if j == k
    then ((j, record { endpoints = eps; last_seen = now }) ∷ m, fresh)
    else ((j, e) ∷ rest, below)

-- The two capacity checks at the head of `update`; `clock` is what `shard_prune` reads.
unfoldable pub enforce_routes : Instant → Shard → Shard
enforce_routes clock shard =
    if leb max_routes_per_shard (length shard.routes)
    then shard_prune shard (from_secs 60) clock
    else shard

unfoldable pub enforce_systems : Shard → Shard
enforce_systems shard =
    if leb max_systems_per_shard (length shard.sys_routes)
    then shard_remove_oldest_system shard
    else shard

-- The rest of `update`: the component route, the system route, and a counter for each new one.
unfoldable pub record_route : ℕ → ℕ → ℕ → Instant → Shard → Shard
unfolding touch
record_route endpoint_id sysid compid now shard =
    let (routes, in_routes) = touch (sysid, compid) endpoint_id now shard.routes in
    let counts =
      if in_routes then bump endpoint_id shard.endpoint_counts else shard.endpoint_counts in
    let (sys_routes, in_sys) = touch sysid endpoint_id now shard.sys_routes in
    record {
      routes = routes;
      sys_routes = sys_routes;
      endpoint_counts = if in_sys then bump endpoint_id counts else counts;
    }

unfoldable pub update_shard : ℕ → ℕ → ℕ → Instant → Instant → Shard → Shard
unfolding enforce_routes enforce_systems record_route
update_shard endpoint_id sysid compid now clock shard =
    record_route endpoint_id sysid compid now (enforce_systems (enforce_routes clock shard))

unfoldable pub update : RoutingTable → ℕ → ℕ → ℕ → Instant → Instant → RoutingTable
unfolding update_shard
update t endpoint_id sysid compid now clock = record t {
  shards = modify t.shards (shard_index sysid) (update_shard endpoint_id sysid compid now clock);
}

unfoldable pub entry_needs_update : Option RouteEntry → ℕ → Instant → Bool
entry_needs_update none endpoint_id now = true
entry_needs_update (some e) endpoint_id now =
    not (contains e.endpoints endpoint_id) || leb (from_secs 1) (duration_since now e.last_seen)

unfoldable pub needs_update_for_endpoint : RoutingTable → ℕ → ℕ → ℕ → Instant → Bool
unfolding entry_needs_update shard_for
needs_update_for_endpoint t endpoint_id sysid compid now =
    let shard = shard_for t sysid in
    let comp_needs_update =
      entry_needs_update (lookup (sysid, compid) shard.routes) endpoint_id now in
    let sys_needs_update = entry_needs_update (lookup sysid shard.sys_routes) endpoint_id now in
    comp_needs_update || sys_needs_update

-- update.rs: an observation that waits for the updater.
pub record RouteUpdate : Type 0 where
  pub endpoint_id : ℕ
  pub sys_id : ℕ
  pub comp_id : ℕ
  pub now : Instant

-- The endpoint, or another of its group, is on the entry.
unfoldable pub reaches : GroupConfig → RouteEntry → ℕ → Bool
reaches cfg entry endpoint_id =
    contains entry.endpoints endpoint_id || any_in_same_group cfg entry.endpoints endpoint_id

-- Below the broadcast check of `should_send`.
unfoldable pub route_decision : RoutingTable → ℕ → ℕ → ℕ → Bool
unfolding shard_for reaches
route_decision t endpoint_id target_sysid target_compid =
    let shard = shard_for t target_sysid in
    elim (lookup target_sysid shard.sys_routes) [
      | none ↦ false
      | some entry ↦
          if target_compid == 0
          then reaches t.config entry endpoint_id
          else elim (lookup (target_sysid, target_compid) shard.routes) [
            | some comp_entry ↦ reaches t.config comp_entry endpoint_id
            | none ↦ reaches t.config entry endpoint_id
          ]
    ]

unfoldable pub should_send : RoutingTable → ℕ → ℕ → ℕ → Bool
unfolding is_sniffer_endpoint route_decision
should_send t endpoint_id target_sysid target_compid =
    if is_sniffer_endpoint t endpoint_id
    then true
    else if target_sysid == 0
    then true
    else route_decision t endpoint_id target_sysid target_compid

-- The source reads the clock once for each shard; here all shards get one reading.
unfoldable pub prune : RoutingTable → Duration → Instant → RoutingTable
prune t max_age now = record t { shards = map (λ shard. shard_prune shard max_age now) t.shards }

pub record RoutingStats : Type 0 where
  pub total_systems : ℕ
  pub total_routes : ℕ
  pub total_endpoints : ℕ
  pub timestamp : ℕ

-- `for ep_id in shard.endpoint_counts.keys()`
unfoldable pub collect_keys : Counts → List ℕ → List ℕ
collect_keys [] ids = ids
collect_keys ((ep, n) ∷ m) ids = collect_keys m (insert ids ep).0

unfoldable pub stats_loop : List Shard → ℕ → ℕ → List ℕ → ℕ × ℕ × List ℕ
unfolding collect_keys
stats_loop [] systems routes ids = (systems, routes, ids)
stats_loop (s ∷ ss) systems routes ids =
    stats_loop ss (saturating_add systems (length s.sys_routes))
      (saturating_add routes (length s.routes)) (collect_keys s.endpoint_counts ids)

unfoldable pub stats : RoutingTable → ℕ → RoutingStats
unfolding stats_loop
stats t unix_secs =
    let (systems, routes, ids) = stats_loop t.shards 0 0 [] in
    record {
      total_systems = systems;
      total_routes = routes;
      total_endpoints = length ids;
      timestamp = unix_secs;
    }
