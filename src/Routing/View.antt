-- ===== src/Routing/View.antt =====
-- The routing table without its shards: one map of systems and one of component routes. Each
-- operation on the sharded table is the plain operation on these maps.
use mavrouter.Prelude.{
  ℕ, refl, ap, subst, inl, inr, true, false, not, Option, none, some, List, [], arith, ltb,
  nat_beq_iff, Bool-cases, Option-cases, get_or, modify, get_or-modify_self, get_or-modify_ne,
  get_or-map, Eq, ◌≡◌, ◌∙◌, ◌&&◌, ◌==◌, if◌then◌else◌, nat_eq, pair_eq,
}
use mavrouter.Prelude.Maps.{lookup, retain, lookup-retain, lookup-retain_absent, DistinctKeys}
use mavrouter.Routing.Time.{Instant, Duration, duration_since}
use mavrouter.Routing.Groups.{GroupConfig}
use mavrouter.Routing.Shard.{RouteEntry, default_shard, is_expired, retain_fresh, shard_prune}
use mavrouter.Routing.Shard.Presence.{retain_fresh-kept}
use mavrouter.Routing.Table.{
  RoutingTable, RouteUpdate, shard_index, shard_for, record_route, update_shard, update, prune,
}
use mavrouter.Routing.Table.Touch.{touched, lookup-touch}
use mavrouter.Routing.Reach.{IsValid, shard_index-lt, shard_for-IsValid, update_shard-record_route}

pub record View : Type 0 where
  pub systems : ℕ → Option RouteEntry
  pub routes : ℕ → ℕ → Option RouteEntry
  pub config : GroupConfig

abbrev pub view : RoutingTable → View
view t = record {
  systems = λ s. lookup s (shard_for t s).sys_routes;
  routes = λ s c. lookup (s, c) (shard_for t s).routes;
  config = t.config;
}

-- An observation on the plain maps.
abbrev pub observe : View → RouteUpdate → View
observe v u = record v {
  systems = λ s.
      if u.sys_id == s
      then some (touched (v.systems u.sys_id) u.endpoint_id u.now)
      else v.systems s;
  routes = λ s c.
      if u.sys_id == s && u.comp_id == c
      then some (touched (v.routes u.sys_id u.comp_id) u.endpoint_id u.now)
      else v.routes s c;
}

-- An entry that was last seen longer ago than `max_age` is dropped.
abbrev pub unexpired : Instant → Duration → Option RouteEntry → Option RouteEntry
unexpired now max_age none = none
unexpired now max_age (some e) =
    if ltb max_age (duration_since now e.last_seen) then none else some e

abbrev pub expire : View → Duration → Instant → View
expire v max_age now = record v {
  systems = λ s. unexpired now max_age (v.systems s);
  routes = λ s c. unexpired now max_age (v.routes s c);
}

-- The shard of every system id after `update` wrote the one of `u`.
shard_for-update :
    (t : RoutingTable) (u : RouteUpdate) (clock : Instant) (s : ℕ)
    → IsValid t
    → shard_for (update t u.endpoint_id u.sys_id u.comp_id u.now clock) s ≡ (
        if shard_index u.sys_id == shard_index s
        then record_route u.endpoint_id u.sys_id u.comp_id u.now (shard_for t s)
        else shard_for t s)
unfolding shard_for update
shard_for-update t u clock s v =
    let i = shard_index u.sys_id in
    let j = shard_index s in
    let f = update_shard u.endpoint_id u.sys_id u.comp_id u.now clock in
    elim (Bool-cases (i == j)) [
      | inl same ↦
          let e : i ≡ j = (nat_beq_iff i j).0 same in
          let here : get_or (modify t.shards i f) i default_shard
              ≡ f (get_or t.shards i default_shard) =
            get_or-modify_self t.shards i f default_shard (shard_index-lt u.sys_id v.sixteen) in
          rw same (
            subst
              (λ k.
                get_or (modify t.shards i f) k default_shard ≡ f (get_or t.shards k default_shard))
              e here
            ∙ update_shard-record_route _ _ _ _ clock (unfold shard_for in shard_for-IsValid t s v))
      | inr other ↦ rw other (
          get_or-modify_ne t.shards i j f default_shard
            (λ e. ground (arith, (nat_beq_iff i j).1 e)))
    ]

shard_for_same :
    (t : RoutingTable) (a b : ℕ)
    → (shard_index a == shard_index b) ≡ true
    → shard_for t a ≡ shard_for t b
unfolding shard_for
shard_for_same t a b h =
    ap (λ i. get_or t.shards i default_shard) ((nat_beq_iff (shard_index a) (shard_index b)).0 h)

ids_differ : (a b : ℕ) → (shard_index a == shard_index b) ≡ false → (a == b) ≡ false
ids_differ a b h = elim (Bool-cases (a == b)) [
  | inl e ↦ let same = ap shard_index ((nat_beq_iff a b).0 e) in absurd (ground (arith, same))
  | inr e ↦ e
]

module _ (t : RoutingTable) (u : RouteUpdate) (clock : Instant) (v : IsValid t) where
  systems-update :
      (s : ℕ)
      → (view (update t u.endpoint_id u.sys_id u.comp_id u.now clock)).systems s
        ≡ (observe (view t) u).systems s
  unfolding record_route
  systems-update s = elim (Bool-cases (shard_index u.sys_id == shard_index s)) [
    | inl same ↦
        rw (shard_for-update t u clock s v, same, shard_for_same t u.sys_id s same)
          (lookup-touch u.sys_id u.endpoint_id u.now s (shard_for t s).sys_routes)
    | inr other ↦ rw (shard_for-update t u clock s v, other, ids_differ u.sys_id s other) refl
  ]

  routes-update :
      (s c : ℕ)
      → (view (update t u.endpoint_id u.sys_id u.comp_id u.now clock)).routes s c
        ≡ (observe (view t) u).routes s c
  unfolding record_route
  routes-update s c = elim (Bool-cases (shard_index u.sys_id == shard_index s)) [
    | inl same ↦
        rw (shard_for-update t u clock s v, same, shard_for_same t u.sys_id s same)
          (lookup-touch (u.sys_id, u.comp_id) u.endpoint_id u.now (s, c) (shard_for t s).routes)
    | inr other ↦ rw (shard_for-update t u clock s v, other, ids_differ u.sys_id s other) refl
  ]

  -- On a valid table, `update` is the observation on the plain maps: nothing is evicted, and no
  -- other key changes.
  pub view-update :
      view (update t u.endpoint_id u.sys_id u.comp_id u.now clock) ≡ observe (view t) u
  unfolding update
  view-update = λ i. record {
    systems = λ s. systems-update s i;
    routes = λ s c. routes-update s c i;
    config = t.config;
  }

lookup-retain_fresh {ℓ} :
    {K : Type ℓ} ⦃e : Eq K⦄ (k : K) (now : Instant) (max_age : Duration) (m : List (K × RouteEntry))
    → DistinctKeys m
    → lookup k (retain (λ x. not (is_expired now max_age x)) m) ≡ unexpired now max_age (lookup k m)
lookup-retain_fresh k now max_age m d = elim (Option-cases (lookup k m)) [
  | inl absent ↦ rw absent (lookup-retain_absent _ k m absent)
  | inr (x, found) ↦ rw found (lookup-retain _ k m x d found ∙ ground arith)
]

shard_for-prune :
    (t : RoutingTable) (max_age : Duration) (now : Instant) (s : ℕ)
    → IsValid t
    → shard_for (prune t max_age now) s ≡ shard_prune (shard_for t s) max_age now
unfolding shard_for prune
shard_for-prune t max_age now s v =
    get_or-map t.shards (shard_index s) (λ shard. shard_prune shard max_age now) default_shard
      (shard_index-lt s v.sixteen)

module _ (t : RoutingTable) (max_age : Duration) (now : Instant) (v : IsValid t) where
  systems-prune :
      (s : ℕ) → (view (prune t max_age now)).systems s ≡ (expire (view t) max_age now).systems s
  unfolding shard_prune
  systems-prune s =
      let shard = shard_for t s in
      let routes = retain_fresh now max_age shard.routes [] in
      rw
        (shard_for-prune t max_age now s v, retain_fresh-kept now max_age shard.sys_routes routes.1)
        (lookup-retain_fresh s now max_age shard.sys_routes
          (shard_for-IsValid t s v).systems_distinct)

  routes-prune :
      (s c : ℕ) → (view (prune t max_age now)).routes s c ≡ (expire (view t) max_age now).routes s c
  unfolding shard_prune
  routes-prune s c =
      let shard = shard_for t s in
      rw (shard_for-prune t max_age now s v, retain_fresh-kept now max_age shard.routes [])
        (lookup-retain_fresh (s, c) now max_age shard.routes
          (shard_for-IsValid t s v).routes_distinct)

  -- On a valid table, `prune` drops the entries older than the limit from the plain maps, and
  -- nothing else.
  pub view-prune : view (prune t max_age now) ≡ expire (view t) max_age now
  unfolding prune
  view-prune = λ i. record {
    systems = λ s. systems-prune s i;
    routes = λ s c. routes-prune s c i;
    config = t.config;
  }
