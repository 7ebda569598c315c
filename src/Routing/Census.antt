-- ===== src/Routing/Census.antt =====
-- `stats`: the totals count what the shards hold, and each endpoint that stands on a route once.
use mavrouter.Prelude.{
  ℕ, suc, refl, List, [], arith, ltb, usize_max, saturating_add, length, Indexed, ◌+◌, ◌*◌, ◌≤◌,
  ◌≡◌, ◌∙◌, ◌||◌, ◌∷◌, nat_eq, pair_eq,
}
use mavrouter.Prelude.Sets.{contains, insert, Distinct, contains-insert, insert-Distinct}
use mavrouter.Prelude.Maps.{lookup}
use mavrouter.Routing.Shard.{Shard, Counts}
use mavrouter.Routing.Shard.Counts.{count, Positive}
use mavrouter.Routing.Shard.Presence.{presence}
use mavrouter.Routing.Table.{RoutingTable, collect_keys, stats_loop, stats}
use mavrouter.Routing.Valid
use mavrouter.Routing.Valid.{length-routes-le, length-systems-le}
use mavrouter.Routing.Reach.{IsValid}

-- On how many entries of all shards an endpoint stands.
pub total_presence : ℕ → List Shard → ℕ
total_presence x [] = 0
total_presence x (s ∷ ss) = presence x s.routes + presence x s.sys_routes + total_presence x ss

pub total_systems : List Shard → ℕ
total_systems [] = 0
total_systems (s ∷ ss) = length s.sys_routes + total_systems ss

pub total_routes : List Shard → ℕ
total_routes [] = 0
total_routes (s ∷ ss) = length s.routes + total_routes ss

contains-collect_keys :
    (c : Counts) (ids : List ℕ) (x : ℕ)
    → Positive c
    → contains (collect_keys c ids) x ≡ (ltb 0 (count x c) || contains ids x)
unfolding collect_keys lookup
contains-collect_keys [] ids x p = refl
contains-collect_keys ((j, n) ∷ m) ids x p =
    ground (arith, contains-insert ids j x, contains-collect_keys m (insert ids j).0 x p.1)

collect_keys-Distinct : (c : Counts) (ids : List ℕ) → Distinct ids → Distinct (collect_keys c ids)
unfolding collect_keys
collect_keys-Distinct [] ids d = d
collect_keys-Distinct ((j, n) ∷ m) ids d =
    collect_keys-Distinct m (insert ids j).0 (insert-Distinct ids j d)

loop-Distinct :
    (ss : List Shard) (a b : ℕ) (ids : List ℕ) → Distinct ids → Distinct (stats_loop ss a b ids).2
unfolding stats_loop
loop-Distinct [] a b ids d = d
loop-Distinct (s ∷ ss) a b ids d =
    loop-Distinct ss _ _ (collect_keys s.endpoint_counts ids)
      (collect_keys-Distinct s.endpoint_counts ids d)

loop-contains :
    (k : ℕ) (ss : List Shard) (a b : ℕ) (ids : List ℕ) (x : ℕ)
    → Indexed Valid.IsValid k ss
    → contains (stats_loop ss a b ids).2 x ≡ (ltb 0 (total_presence x ss) || contains ids x)
unfolding stats_loop total_presence
loop-contains k [] a b ids x v = refl
loop-contains k (s ∷ ss) a b ids x v =
    let next = collect_keys s.endpoint_counts ids in
    ground (
      arith,
      (v.0).exact x,
      contains-collect_keys s.endpoint_counts ids x (v.0).counts_positive,
      loop-contains (suc k) ss (saturating_add a (length s.sys_routes))
          (saturating_add b (length s.routes)) next x v.1,
    )

loop-systems :
    (ss : List Shard) (a b : ℕ) (ids : List ℕ)
    → a + total_systems ss ≤ usize_max
    → (stats_loop ss a b ids).0 ≡ a + total_systems ss
unfolding stats_loop total_systems
loop-systems [] a b ids h = omega arith
loop-systems (s ∷ ss) a b ids h = omega (
  arith,
  loop-systems ss (saturating_add a (length s.sys_routes)) (saturating_add b (length s.routes))
      (collect_keys s.endpoint_counts ids) (omega arith),
)

loop-routes :
    (ss : List Shard) (a b : ℕ) (ids : List ℕ)
    → b + total_routes ss ≤ usize_max
    → (stats_loop ss a b ids).1 ≡ b + total_routes ss
unfolding stats_loop total_routes
loop-routes [] a b ids h = omega arith
loop-routes (s ∷ ss) a b ids h = omega (
  arith,
  loop-routes ss (saturating_add a (length s.sys_routes)) (saturating_add b (length s.routes))
      (collect_keys s.endpoint_counts ids) (omega arith),
)

total_systems-le :
    (k : ℕ) (ss : List Shard) → Indexed Valid.IsValid k ss → total_systems ss ≤ 16 * length ss
unfolding total_systems
total_systems-le k [] v = omega arith
total_systems-le k (s ∷ ss) v =
    omega (arith, length-systems-le v.0, total_systems-le (suc k) ss v.1)

total_routes-le :
    (k : ℕ) (ss : List Shard) → Indexed Valid.IsValid k ss → total_routes ss ≤ 4096 * length ss
unfolding total_routes
total_routes-le k [] v = omega arith
total_routes-le k (s ∷ ss) v = omega (arith, length-routes-le v.0, total_routes-le (suc k) ss v.1)

-- The statistics of a valid table: the systems and routes of all shards, and as many endpoints as
-- there are distinct ids that stand on at least one entry.
pub stats-census :
    (t : RoutingTable) (unix_secs : ℕ)
    → IsValid t
    → ((stats t unix_secs).total_systems ≡ total_systems t.shards)
      × ((stats t unix_secs).total_routes ≡ total_routes t.shards)
      × ((ids : List ℕ) × Distinct ids
          × ((stats t unix_secs).total_endpoints ≡ length ids)
          × ((x : ℕ) → contains ids x ≡ ltb 0 (total_presence x t.shards)))
unfolding stats contains
stats-census t unix_secs v =
    let few = total_systems-le 0 t.shards v.each in
    let bound = total_routes-le 0 t.shards v.each in
    (
      loop-systems t.shards 0 0 [] (omega (arith, few, v.sixteen)) ∙ omega arith,
      loop-routes t.shards 0 0 [] (omega (arith, bound, v.sixteen)) ∙ omega arith,
      (
        (stats_loop t.shards 0 0 []).2,
        loop-Distinct t.shards 0 0 [] tt,
        refl,
        λ x. ground (arith, loop-contains 0 t.shards 0 0 [] x v.each),
      ),
    )
