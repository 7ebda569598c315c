-- ===== src/Routing/Valid/Removal.antt =====
-- `shard_prune` and `shard_remove_oldest_system` keep a shard valid.
use mavrouter.Prelude.{
  ℕ, refl, sym, subst, inl, inr, not, Option, none, some, [], arith, one_if, Bool-cases,
  Option-cases, All, ◌+◌, ◌-◌, ◌≡◌, ◌∷◌, ◌==◌, nat_eq, pair_eq,
}
use mavrouter.Prelude.Sets.{contains}
use mavrouter.Prelude.Maps.{
  lookup, remove, DistinctKeys, retain-DistinctKeys, retain-All, remove-DistinctKeys,
}
use mavrouter.Routing.Time.{Instant, Duration}
use mavrouter.Routing.Shard.{
  Shard, RouteEntry, Entries, Counts, is_expired, retain_fresh, shard_prune, subtract_all,
  release_removed, drop_system, evict, oldest, shard_remove_oldest_system,
}
use mavrouter.Routing.Shard.Counts.{
  count, Positive, count-subtract_all, subtract_all-DistinctKeys, subtract_all-Positive,
  count-release, release-DistinctKeys, release-Positive,
}
use mavrouter.Routing.Shard.Presence.{
  presence, Clean, retain_fresh-kept, retain_fresh-DistinctKeys, count-retain_fresh,
  drop_system-kept, drop_system-DistinctKeys, drop_system-Positive, count-drop_system,
}
use mavrouter.Routing.Valid.{InShard, RouteKey, IsValid, presence-bound}

module _ (max_age : Duration) (now : Instant) {k : ℕ} {shard : Shard} where
  counts-shard_prune :
      (x : ℕ)
      → IsValid k shard
      → let routes = retain_fresh now max_age shard.routes [] in
        let systems = retain_fresh now max_age shard.sys_routes routes.1 in
        count x (subtract_all systems.1 shard.endpoint_counts)
        ≡ presence x routes.0 + presence x systems.0
  unfolding lookup
  counts-shard_prune x v =
      let routes = retain_fresh now max_age shard.routes [] in
      let systems = retain_fresh now max_age shard.sys_routes routes.1 in
      let none_yet : count x [] ≡ 0 = refl in
      let bound = presence-bound v x in
      let first = count-retain_fresh now max_age shard.routes [] x v.routes_clean (omega arith) in
      let second =
        count-retain_fresh now max_age shard.sys_routes routes.1 x v.systems_clean (omega arith) in
      let distinct =
        retain_fresh-DistinctKeys now max_age shard.sys_routes routes.1
          (retain_fresh-DistinctKeys now max_age shard.routes [] tt) in
      let final = count-subtract_all systems.1 x shard.endpoint_counts distinct v.counts_distinct in
      omega (arith, v.exact x, first, second, final, none_yet)

  pub shard_prune-IsValid : IsValid k shard → IsValid k (shard_prune shard max_age now)
  unfolding shard_prune
  shard_prune-IsValid v =
      let keep_route = λ (x : (ℕ × ℕ) × RouteEntry). not (is_expired now max_age x) in
      let keep_system = λ (x : ℕ × RouteEntry). not (is_expired now max_age x) in
      let routes = retain_fresh now max_age shard.routes [] in
      let systems = retain_fresh now max_age shard.sys_routes routes.1 in
      let er = sym (retain_fresh-kept now max_age shard.routes []) in
      let es = sym (retain_fresh-kept now max_age shard.sys_routes routes.1) in
      record {
        routes_distinct =
            subst DistinctKeys er (retain-DistinctKeys keep_route shard.routes v.routes_distinct);
        systems_distinct =
            subst DistinctKeys es
              (retain-DistinctKeys keep_system shard.sys_routes v.systems_distinct);
        routes_keys =
            subst (All (λ x. RouteKey k x.0)) er
              (retain-All _ keep_route shard.routes v.routes_keys);
        systems_keys =
            subst (All (λ x. InShard k x.0)) es
              (retain-All _ keep_system shard.sys_routes v.systems_keys);
        routes_clean = subst Clean er (retain-All _ keep_route shard.routes v.routes_clean);
        systems_clean = subst Clean es (retain-All _ keep_system shard.sys_routes v.systems_clean);
        counts_distinct =
            subtract_all-DistinctKeys systems.1 shard.endpoint_counts v.counts_distinct;
        counts_positive = subtract_all-Positive systems.1 shard.endpoint_counts v.counts_positive;
        exact = λ x. counts-shard_prune x v;
      }

remove-All : (P : ℕ × RouteEntry → Type 0) (s : ℕ) (m : Entries ℕ) → All P m → All P (remove s m)
unfolding remove
remove-All P s [] all = tt
remove-All P s (x ∷ m) all = elim (Bool-cases (x.0 == s)) [
  | inl hit ↦ rw hit all.1
  | inr miss ↦ rw miss (all.0, remove-All P s m all.1)
]

-- The presence that an optional entry stands for.
abbrev presence_of : ℕ → Option RouteEntry → ℕ
presence_of x none = 0
presence_of x (some e) = one_if (contains e.endpoints x)

presence-remove :
    (s x : ℕ) (m : Entries ℕ) → presence x m ≡ presence x (remove s m) + presence_of x (lookup s m)
unfolding presence remove lookup
presence-remove s x [] = refl
presence-remove s x (y ∷ m) = ground (arith, presence-remove s x m)

lookup-Clean :
    (s : ℕ) (m : Entries ℕ) (e : RouteEntry) → Clean m → lookup s m ≡ some e → Clean ((s, e) ∷ [])
unfolding lookup
lookup-Clean s [] e c h = cc
lookup-Clean s (y ∷ m) e c h = elim (Bool-cases (y.0 == s)) [
  | inl hit ↦ let same : y.1 ≡ e = ground arith in (subst (λ t. Clean ((s, t) ∷ [])) same (c.0, tt))
  | inr miss ↦ lookup-Clean s m e c.1 (ground arith)
]

count-release_removed :
    (o : Option RouteEntry) (x s : ℕ) (c : Counts) (m : Entries ℕ)
    → Clean m
    → lookup s m ≡ o
    → DistinctKeys c
    → count x (release_removed o c) ≡ count x c - presence_of x o
unfolding release_removed
count-release_removed none x s c m clean h d = omega arith
count-release_removed (some e) x s c m clean h d =
    count-release e.endpoints x c (lookup-Clean s m e clean h).0 d

release_removed-DistinctKeys :
    (o : Option RouteEntry) (c : Counts) → DistinctKeys c → DistinctKeys (release_removed o c)
unfolding release_removed
release_removed-DistinctKeys none c d = d
release_removed-DistinctKeys (some e) c d = release-DistinctKeys e.endpoints c d

release_removed-Positive :
    (o : Option RouteEntry) (c : Counts) → Positive c → Positive (release_removed o c)
unfolding release_removed
release_removed-Positive none c d = d
release_removed-Positive (some e) c d = release-Positive e.endpoints c d

module _ (s : ℕ) {k : ℕ} {shard : Shard} where
  counts-evict :
      (x : ℕ)
      → IsValid k shard
      → let counts = release_removed (lookup s shard.sys_routes) shard.endpoint_counts in
        count x (drop_system s shard.routes counts).1
        ≡ presence x (drop_system s shard.routes counts).0 + presence x (remove s shard.sys_routes)
  counts-evict x v =
      let found = lookup s shard.sys_routes in
      let counts = release_removed found shard.endpoint_counts in
      let released =
        count-release_removed found x s shard.endpoint_counts shard.sys_routes v.systems_clean refl
          v.counts_distinct in
      count-drop_system s shard.routes counts x (presence x (remove s shard.sys_routes))
        v.routes_clean (release_removed-DistinctKeys found shard.endpoint_counts v.counts_distinct)
        (omega (arith, v.exact x, released, presence-remove s x shard.sys_routes))

  pub evict-IsValid : IsValid k shard → IsValid k (evict s shard)
  unfolding evict
  evict-IsValid v =
      let keep = λ (x : (ℕ × ℕ) × RouteEntry). not ((x.0).0 == s) in
      let found = lookup s shard.sys_routes in
      let counts = release_removed found shard.endpoint_counts in
      let er = sym (drop_system-kept s shard.routes counts) in
      let distinct = release_removed-DistinctKeys found shard.endpoint_counts v.counts_distinct in
      let positive = release_removed-Positive found shard.endpoint_counts v.counts_positive in
      record {
        routes_distinct =
            subst DistinctKeys er (retain-DistinctKeys keep shard.routes v.routes_distinct);
        systems_distinct = remove-DistinctKeys s shard.sys_routes v.systems_distinct;
        routes_keys =
            subst (All (λ x. RouteKey k x.0)) er (retain-All _ keep shard.routes v.routes_keys);
        systems_keys = remove-All (λ x. InShard k x.0) s shard.sys_routes v.systems_keys;
        routes_clean = subst Clean er (retain-All _ keep shard.routes v.routes_clean);
        systems_clean = remove-All _ s shard.sys_routes v.systems_clean;
        counts_distinct = drop_system-DistinctKeys s shard.routes counts distinct;
        counts_positive = drop_system-Positive s shard.routes counts positive;
        exact = λ x. counts-evict x v;
      }

pub shard_remove_oldest_system-IsValid :
    {k : ℕ} {shard : Shard} → IsValid k shard → IsValid k (shard_remove_oldest_system shard)
unfolding shard_remove_oldest_system
shard_remove_oldest_system-IsValid {k} {shard} v = elim (Option-cases (oldest shard.sys_routes)) [
  | inl empty ↦ rw (empty, shard_remove_oldest_system) v
  | inr (x, found) ↦ rw (found, shard_remove_oldest_system) (evict-IsValid x.0 v)
]
