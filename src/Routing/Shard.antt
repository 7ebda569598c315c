-- ===== src/Routing/Shard.antt =====
-- src/routing/shard.rs: one shard of the routing table, its TTL prune and its eviction.
pub mod Counts
pub mod Presence
use mavrouter.Prelude.{
  ℕ, Bool, Option, none, some, List, [], ltb, saturating_add, ◌-◌, ◌/◌, ◌∷◌, ◌==◌, if◌then◌else◌,
  nat_eq, string_eq, pair_eq,
}
use mavrouter.Prelude.Sets.{contains, insert}
use mavrouter.Prelude.Maps.{lookup, remove}
use mavrouter.Routing.Time.{Instant, Duration, duration_since}

abbrev pub shard_count : ℕ
shard_count = 16

abbrev pub shard_mask : ℕ
shard_mask = shard_count - 1

abbrev pub max_routes_per_shard : ℕ
max_routes_per_shard = 100_000 / shard_count

abbrev pub max_systems_per_shard : ℕ
max_systems_per_shard = 1_000 / shard_count

pub record RouteEntry : Type 0 where
  pub endpoints : List ℕ
  pub last_seen : Instant

-- How many route entries name each endpoint.
abbrev pub Counts : Type 0
Counts = List (ℕ × ℕ)

abbrev pub Entries : Type 0 → Type 0
Entries K = List (K × RouteEntry)

pub record Shard : Type 0 where
  pub routes : Entries (ℕ × ℕ)
  pub sys_routes : Entries ℕ
  pub endpoint_counts : Counts

abbrev pub default_shard : Shard
default_shard = record { routes = []; sys_routes = []; endpoint_counts = [] }

-- `*entry(ep).or_insert(0)` raised by one.
unfoldable pub bump : ℕ → Counts → Counts
bump ep [] = (ep, saturating_add 0 1) ∷ []
bump ep ((j, c) ∷ m) = if j == ep then (j, saturating_add c 1) ∷ m else (j, c) ∷ bump ep m

-- An occupied entry lowered by `n`, and removed when it reaches zero.
unfoldable pub decrement : ℕ → ℕ → Counts → Counts
decrement ep n [] = []
decrement ep n ((j, c) ∷ m) =
    if j == ep then (if c - n == 0 then m else (j, c - n) ∷ m) else (j, c) ∷ decrement ep n m

-- The endpoints of an expired entry, counted as removed.
unfoldable pub tally : List ℕ → Counts → Counts
unfolding bump
tally [] removed = removed
tally (ep ∷ eps) removed = tally eps (bump ep removed)

abbrev pub is_expired {ℓ} : {K : Type ℓ} → Instant → Duration → K × RouteEntry → Bool
is_expired now max_age (k, e) = ltb max_age (duration_since now e.last_seen)

-- `retain` over one of the maps: what stays, and the counts of what went.
unfoldable pub retain_fresh {ℓ} :
    {K : Type ℓ}
    → Instant
    → Duration
    → List (K × RouteEntry)
    → Counts
    → List (K × RouteEntry) × Counts
unfolding tally
retain_fresh now max_age [] removed = ([], removed)
retain_fresh now max_age (x ∷ m) removed =
    let expired = is_expired now max_age x in
    let (kept, after) =
      retain_fresh now max_age m (if expired then tally (x.1).endpoints removed else removed) in
    (if expired then kept else x ∷ kept, after)

-- The last loop of `shard_prune`.
unfoldable pub subtract_all : Counts → Counts → Counts
unfolding decrement
subtract_all [] counts = counts
subtract_all ((ep, n) ∷ removed) counts = subtract_all removed (decrement ep n counts)

unfoldable pub shard_prune : Shard → Duration → Instant → Shard
unfolding retain_fresh subtract_all
shard_prune shard max_age now =
    let (routes, removed) = retain_fresh now max_age shard.routes [] in
    let (sys_routes, removed_all) = retain_fresh now max_age shard.sys_routes removed in
    record {
      routes = routes;
      sys_routes = sys_routes;
      endpoint_counts = subtract_all removed_all shard.endpoint_counts;
    }

-- `min_by_key` on `last_seen`: the first of the least.
unfoldable pub oldest_from : ℕ × RouteEntry → Entries ℕ → ℕ × RouteEntry
oldest_from best [] = best
oldest_from best (x ∷ m) =
    oldest_from (if ltb (x.1).last_seen (best.1).last_seen then x else best) m

unfoldable pub oldest : Entries ℕ → Option (ℕ × RouteEntry)
unfolding oldest_from
oldest [] = none
oldest (x ∷ m) = some (oldest_from x m)

-- Each endpoint of a removed entry loses one route.
unfoldable pub release : List ℕ → Counts → Counts
unfolding decrement
release [] counts = counts
release (ep ∷ eps) counts = release eps (decrement ep 1 counts)

-- `retain` over the component routes of an evicted system.
unfoldable pub drop_system : ℕ → Entries (ℕ × ℕ) → Counts → Entries (ℕ × ℕ) × Counts
unfolding release
drop_system sysid [] counts = ([], counts)
drop_system sysid (x ∷ m) counts =
    let gone = (x.0).0 == sysid in
    let (kept, after) =
      drop_system sysid m (if gone then release (x.1).endpoints counts else counts) in
    (if gone then kept else x ∷ kept, after)

-- The counts after `sys_routes.remove`.
unfoldable pub release_removed : Option RouteEntry → Counts → Counts
unfolding release
release_removed none counts = counts
release_removed (some e) counts = release e.endpoints counts

unfoldable pub evict : ℕ → Shard → Shard
unfolding release_removed drop_system
evict sysid shard =
    let counts = release_removed (lookup sysid shard.sys_routes) shard.endpoint_counts in
    let (routes, after) = drop_system sysid shard.routes counts in
    record { routes = routes; sys_routes = remove sysid shard.sys_routes; endpoint_counts = after }

unfoldable pub shard_remove_oldest_system : Shard → Shard
unfolding oldest evict
shard_remove_oldest_system shard = elim (oldest shard.sys_routes) [
  | none ↦ shard
  | some (sysid, _) ↦ evict sysid shard
]
