-- ===== src/Routing/Reach.antt =====
-- The tables that the router can reach: from the empty one, by the calls that change it.
use Prim.Native.String.{String}
use mavrouter.Prelude.{
  ℕ, false, List, arith, leb, length, length-modify, length-map, length-replicate, Indexed,
  Indexed-get_or, Indexed-modify, Indexed-map, Indexed-replicate, ◌+◌, ◌%◌, ◌<◌, ◌≡◌, ◌∙◌, nat_eq,
  pair_eq,
}
use mavrouter.Prelude.Bits.{bit_and-fifteen}
use mavrouter.Routing.Time.{Instant, Duration}
use mavrouter.Routing.Shard.{Shard, default_shard, max_routes_per_shard, max_systems_per_shard}
use mavrouter.Routing.Table.{
  RoutingTable, RouteUpdate, new, shard_index, shard_for, set_endpoint_group, set_sniffer_sysids,
  record_route, update_shard, update, prune,
}
use mavrouter.Routing.Valid
use mavrouter.Routing.Valid.{InShard, length-routes-le, length-systems-le}
use mavrouter.Routing.Valid.Update.{record_route-IsValid}
use mavrouter.Routing.Valid.Removal.{shard_prune-IsValid}

pub record IsValid (t : RoutingTable) : Type 0 where
  pub sixteen : length t.shards ≡ 16
  pub each : Indexed Valid.IsValid 0 t.shards

-- The header of a message gives its system and component id as bytes.
pub record IsBytes (u : RouteUpdate) : Type 0 where
  pub sys_byte : u.sys_id < 256
  pub comp_byte : u.comp_id < 256

pub data Step : RoutingTable → RoutingTable → Type 0 where
  groups : (t : RoutingTable) (id : ℕ) (group : String) → Step t (set_endpoint_group t id group)
  sniffs : (t : RoutingTable) (sysids : List ℕ) → Step t (set_sniffer_sysids t sysids)
  observes :
      (t : RoutingTable) (u : RouteUpdate) (clock : Instant)
      → IsBytes u
      → Step t (update t u.endpoint_id u.sys_id u.comp_id u.now clock)
  prunes : (t : RoutingTable) (max_age : Duration) (now : Instant) → Step t (prune t max_age now)

pub data Reach : RoutingTable → Type 0 where
  start : Reach new
  next : {t u : RoutingTable} → Reach t → Step t u → Reach u

pub shard_index_lem : (sys_id : ℕ) → shard_index sys_id ≡ sys_id % 16
shard_index_lem sys_id = bit_and-fifteen sys_id

pub shard_index-lt : (sys_id : ℕ) {n : ℕ} → n ≡ 16 → shard_index sys_id < n
shard_index-lt sys_id e = omega (arith, shard_index_lem sys_id)

-- The shard that serves a system id is a valid shard with that id's index.
pub shard_for-IsValid :
    (t : RoutingTable) (sys_id : ℕ) → IsValid t → Valid.IsValid (sys_id % 16) (shard_for t sys_id)
unfolding shard_for
shard_for-IsValid t sys_id v =
    Indexed-get_or Valid.IsValid 0 t.shards (shard_index sys_id) (sys_id % 16) default_shard
      (shard_index-lt sys_id v.sixteen) (omega (arith, shard_index_lem sys_id)) v.each

-- The two capacity checks of `update` find nothing to do on a valid shard.
pub update_shard-record_route :
    (ep sysid compid : ℕ) (now clock : Instant) {k : ℕ} {shard : Shard}
    → Valid.IsValid k shard
    → update_shard ep sysid compid now clock shard ≡ record_route ep sysid compid now shard
unfolding update_shard
update_shard-record_route ep sysid compid now clock {k} {shard} v =
    let routes : leb max_routes_per_shard (length shard.routes) ≡ false =
      ground (arith, length-routes-le v) in
    let systems : leb max_systems_per_shard (length shard.sys_routes) ≡ false =
      ground (arith, length-systems-le v) in
    rw (routes, systems)

update-IsValid :
    (t : RoutingTable) (u : RouteUpdate) (clock : Instant)
    → IsBytes u
    → IsValid t
    → IsValid (update t u.endpoint_id u.sys_id u.comp_id u.now clock)
unfolding update
update-IsValid t u clock b v = record {
  sixteen = length-modify t.shards _ _ ∙ v.sixteen;
  each =
      Indexed-modify Valid.IsValid 0 t.shards _ _
        (λ shard h.
          let own : InShard (0 + shard_index u.sys_id) u.sys_id =
            (b.sys_byte, omega (arith, shard_index_lem u.sys_id)) in
          rw (update_shard-record_route _ _ _ _ clock h)
            (record_route-IsValid u.endpoint_id u.sys_id u.comp_id u.now own b.comp_byte h))
        v.each;
}

pub Step-IsValid : {t u : RoutingTable} → Step t u → IsValid t → IsValid u
unfolding set_endpoint_group set_sniffer_sysids prune
Step-IsValid (groups t id group) v = record { sixteen = v.sixteen; each = v.each }
Step-IsValid (sniffs t sysids) v = record { sixteen = v.sixteen; each = v.each }
Step-IsValid (observes t u clock b) v = update-IsValid t u clock b v
Step-IsValid (prunes t max_age now) v = record {
  sixteen = length-map t.shards _ ∙ v.sixteen;
  each =
      Indexed-map Valid.IsValid 0 t.shards _ (λ j shard h. shard_prune-IsValid max_age now h)
        v.each;
}

-- Every table that the router reaches from the empty one, by registering groups, setting sniffer
-- ids, updates with byte-sized ids, and prunes, has sixteen valid shards.
pub Reach-IsValid : {t : RoutingTable} → Reach t → IsValid t
unfolding new
Reach-IsValid start = record {
  sixteen = length-replicate 16 default_shard;
  each = Indexed-replicate Valid.IsValid 0 16 default_shard Valid.default_shard-IsValid;
}
Reach-IsValid (next r s) = Step-IsValid s (Reach-IsValid r)
