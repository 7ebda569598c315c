-- ===== src/Examples/Tables.antt =====
-- The routing table at concrete inputs: a table that has heard one component.
use mavrouter.Prelude.{
  ℕ, refl, inl, true, false, List, [], arith, ltb, leb, length, ◌≡◌, ◌↔◌, ◌⊎◌, ◌∷◌, nat_eq, pair_eq,
  string_eq,
}
use mavrouter.Prelude.Sets.{contains, Distinct}
use mavrouter.Routing.Time.{from_secs, duration_since}
use mavrouter.Routing.Shard.{default_shard}
use mavrouter.Routing.Table.{
  RoutingTable, RouteUpdate, new, record_route, update_shard, update, needs_update_for_endpoint,
  should_send, prune, stats,
}
use mavrouter.Routing.Valid
use mavrouter.Routing.Reach.{
  IsValid, Reach, start, next, observes, Reach-IsValid, update_shard-record_route,
}
use mavrouter.Routing.View.{view, observe, expire, view-update, view-prune}
use mavrouter.Routing.Decisions.{IsSniffer, Routed, should_send_iff}
use mavrouter.Routing.Learning.{should_send-update}
use mavrouter.Routing.Freshness.{should_send_skipped, needs_update-update}
use mavrouter.Routing.Census.{total_systems, total_routes, total_presence, stats-census}

-- Component 1 of system 1, heard on endpoint 7, and component 1 of system 2 on endpoint 8.
abbrev pub heartbeat : RouteUpdate
heartbeat = record { endpoint_id = 7; sys_id = 1; comp_id = 1; now = 1000 }

abbrev second : RouteUpdate
second = record { endpoint_id = 8; sys_id = 2; comp_id = 1; now = 2000 }

abbrev pub learned : RoutingTable
learned = update new 7 1 1 1000 1000

learned-Reach : Reach learned
learned-Reach =
    next start
      (observes new heartbeat 1000 (record { sys_byte = omega arith; comp_byte = omega arith }))

new-IsValid : IsValid new
new-IsValid = Reach-IsValid start

learned-IsValid : IsValid learned
learned-IsValid = Reach-IsValid learned-Reach

view-update_example : view (update learned 8 2 1 2000 2000) ≡ observe (view learned) second
view-update_example = view-update learned second 2000 learned-IsValid

view-prune_example : view (prune learned 10 5000) ≡ expire (view learned) 10 5000
view-prune_example = view-prune learned 10 5000 learned-IsValid

Reach-IsValid_example : IsValid learned
Reach-IsValid_example = Reach-IsValid learned-Reach

abbrev system_one : ℕ
system_one = 1

should_send_iff_example :
    (should_send learned 7 system_one 1 ≡ true)
    ↔ (IsSniffer (view learned) 7 ⊎ (system_one ≡ 0) ⊎ Routed (view learned) 7 system_one 1)
should_send_iff_example = should_send_iff learned 7 system_one 1

should_send-update_example :
    (should_send (update new 8 2 1 2000 2000) 8 2 0 ≡ true)
    × ((1 ≡ second.sys_id)
        ⊎ (contains new.config.sniffer_sysids 2 ≡ true)
        ⊎ (should_send (update new 8 2 1 2000 2000) 7 1 1 ≡ should_send new 7 1 1))
should_send-update_example = should_send-update new second 2000 0 7 1 1 new-IsValid (inl refl)

abbrev ground_station : List ℕ
ground_station = 255 ∷ []

sniffer_listed : contains ground_station 255 ≡ true
unfolding contains
sniffer_listed = refl

abbrev sniffed : RouteUpdate
sniffed = record { endpoint_id = 9; sys_id = 255; comp_id = 190; now = 1000 }

needs_update-update_example :
    needs_update_for_endpoint (update new 7 1 1 1000 1000) 7 1 1 1500
    ≡ leb (from_secs 1) (duration_since 1500 1000)
needs_update-update_example = needs_update-update new heartbeat 1000 1500 new-IsValid

abbrev again : RouteUpdate
again = record { endpoint_id = 7; sys_id = 1; comp_id = 1; now = 1500 }

held_back : needs_update_for_endpoint learned 7 1 1 1500 ≡ false
held_back = needs_update-update new heartbeat 1000 1500 new-IsValid

should_send_skipped_example :
    should_send (update learned 7 1 1 1500 1500) 7 1 1 ≡ should_send learned 7 1 1
should_send_skipped_example = should_send_skipped learned again 1500 7 1 1 learned-IsValid held_back

stats-census_example :
    ((stats learned 1_700_000_000).total_systems ≡ total_systems learned.shards)
    × ((stats learned 1_700_000_000).total_routes ≡ total_routes learned.shards)
    × ((ids : List ℕ) × Distinct ids
        × ((stats learned 1_700_000_000).total_endpoints ≡ length ids)
        × ((x : ℕ) → contains ids x ≡ ltb 0 (total_presence x learned.shards)))
stats-census_example = stats-census learned 1_700_000_000 learned-IsValid

update_shard-record_route_example :
    update_shard 7 1 1 1000 1000 default_shard ≡ record_route 7 1 1 1000 default_shard
update_shard-record_route_example =
    update_shard-record_route 7 1 1 1000 1000 (Valid.default_shard-IsValid 1)
