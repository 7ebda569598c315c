-- ===== src/Routing/Valid.antt =====
-- What every shard of the routing table satisfies: keys of its own only, each once, and counters
-- that are exact.
pub mod Update
pub mod Removal
use mavrouter.Prelude.{
  ℕ, refl, [], arith, length, All, ◌+◌, ◌*◌, ◌/◌, ◌%◌, ◌≤◌, ◌<◌, ◌≡◌, ◌∷◌, nat_eq, pair_eq,
}
use mavrouter.Prelude.Maps.{lookup, DistinctKeys}
use mavrouter.Prelude.Pigeonhole.{length-le_of_codes}
use mavrouter.Routing.Shard.{Shard, RouteEntry, Entries, default_shard}
use mavrouter.Routing.Shard.Counts.{count, Positive}
use mavrouter.Routing.Shard.Presence.{presence, Clean, presence-le-length}

-- The system ids of the shard with index `k`.
abbrev pub InShard : ℕ → ℕ → Type 0
InShard k sysid = (sysid < 256) × (sysid % 16 ≡ k)

abbrev pub RouteKey : ℕ → ℕ × ℕ → Type 0
RouteKey k key = InShard k key.0 × (key.1 < 256)

pub record IsValid (k : ℕ) (shard : Shard) : Type 0 where
  pub routes_distinct : DistinctKeys shard.routes
  pub systems_distinct : DistinctKeys shard.sys_routes
  pub routes_keys : All (λ x. RouteKey k x.0) shard.routes
  pub systems_keys : All (λ x. InShard k x.0) shard.sys_routes
  pub routes_clean : Clean shard.routes
  pub systems_clean : Clean shard.sys_routes
  pub counts_distinct : DistinctKeys shard.endpoint_counts
  pub counts_positive : Positive shard.endpoint_counts
  pub exact :
      (ep : ℕ)
      → count ep shard.endpoint_counts ≡ presence ep shard.routes + presence ep shard.sys_routes

pub default_shard-IsValid : (k : ℕ) → IsValid k default_shard
unfolding presence lookup
default_shard-IsValid k = record {
  routes_distinct = tt;
  systems_distinct = tt;
  routes_keys = tt;
  systems_keys = tt;
  routes_clean = tt;
  systems_clean = tt;
  counts_distinct = tt;
  counts_positive = tt;
  exact = λ ep. refl;
}

route_code : ℕ × ℕ → ℕ
route_code (s, c) = s / 16 * 256 + c

route_code_injective :
    (k : ℕ) (a b : ℕ × ℕ) → RouteKey k a → RouteKey k b → route_code a ≡ route_code b → a ≡ b
unfolding route_code
route_code_injective k (s, c) (t, d) p q h =
    let e : s ≡ t = omega arith in let f : c ≡ d = omega arith in ground arith

system_code_injective : (k a b : ℕ) → InShard k a → InShard k b → a / 16 ≡ b / 16 → a ≡ b
system_code_injective k a b p q h = omega arith

routes_below :
    (k : ℕ) (m : Entries (ℕ × ℕ)) → All (λ x. RouteKey k x.0) m → All (λ x. route_code x.0 < 4096) m
unfolding route_code
routes_below k [] all = tt
routes_below k (((s, c), e) ∷ m) all = (omega arith, routes_below k m all.1)

systems_below : (k : ℕ) (m : Entries ℕ) → All (λ x. InShard k x.0) m → All (λ x. x.0 / 16 < 16) m
systems_below k [] all = tt
systems_below k ((s, e) ∷ m) all = (omega arith, systems_below k m all.1)

module _ {k : ℕ} {shard : Shard} (v : IsValid k shard) where
  -- A shard owns sixteen system ids, so it holds at most sixteen systems and 4096 routes.
  pub length-systems-le : length shard.sys_routes ≤ 16
  length-systems-le =
      length-le_of_codes (InShard k) (λ s. s / 16) (system_code_injective k) 16 shard.sys_routes
        v.systems_keys v.systems_distinct (systems_below k shard.sys_routes v.systems_keys)

  pub length-routes-le : length shard.routes ≤ 4096
  length-routes-le =
      length-le_of_codes (RouteKey k) route_code (route_code_injective k) 4096 shard.routes
        v.routes_keys v.routes_distinct (routes_below k shard.routes v.routes_keys)

  -- So no counter ever saturates.
  pub presence-bound : (ep : ℕ) → presence ep shard.routes + presence ep shard.sys_routes ≤ 4112
  presence-bound ep = omega (
    arith,
    presence-le-length ep shard.routes,
    presence-le-length ep shard.sys_routes,
    length-routes-le,
    length-systems-le,
  )
