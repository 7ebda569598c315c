-- ===== src/Routing/Shard/Presence.antt =====
-- In how many entries of a map an endpoint stands, and how the two prunes change that number
-- together with the counters.
use mavrouter.Prelude.{
  ℕ, refl, inl, inr, Bool, not, [], arith, one_if, Bool-cases, usize_max, length, All, ◌+◌, ◌≤◌,
  ◌≡◌, ◌∷◌, ◌==◌, if◌then◌else◌, nat_eq, pair_eq,
}
use mavrouter.Prelude.Sets.{contains, Distinct}
use mavrouter.Prelude.Maps.{retain, DistinctKeys}
use mavrouter.Routing.Time.{Instant, Duration}
use mavrouter.Routing.Shard.{
  RouteEntry, Counts, Entries, tally, is_expired, retain_fresh, release, drop_system,
}
use mavrouter.Routing.Shard.Counts.{
  count, Positive, count-tally, tally-DistinctKeys, count-release, release-DistinctKeys,
  release-Positive,
}

module _ {K : Type 0} where
  unfoldable pub presence : ℕ → Entries K → ℕ
  presence ep [] = 0
  presence ep (x ∷ m) = one_if (contains (x.1).endpoints ep) + presence ep m

  -- Every set of endpoints is a set.
  abbrev pub Clean : Entries K → Type 0
  Clean = All (λ (x : K × RouteEntry). Distinct (x.1).endpoints)

  pub presence-le-length : (ep : ℕ) (m : Entries K) → presence ep m ≤ length m
  unfolding presence
  presence-le-length ep [] = omega arith
  presence-le-length ep (x ∷ m) = ground (arith, presence-le-length ep m)

  pub presence-retain-le :
      (ep : ℕ) (p : K × RouteEntry → Bool) (m : Entries K)
      → presence ep (retain p m) ≤ presence ep m
  unfolding presence retain
  presence-retain-le ep p [] = omega arith
  presence-retain-le ep p (x ∷ m) = ground (arith, presence-retain-le ep p m)

  -- What `retain` keeps are the entries that are not expired.
  pub retain_fresh-kept :
      (now : Instant) (max_age : Duration) (m : Entries K) (removed : Counts)
      → (retain_fresh now max_age m removed).0 ≡ retain (λ x. not (is_expired now max_age x)) m
  unfolding retain_fresh retain
  retain_fresh-kept now max_age [] removed = refl
  retain_fresh-kept now max_age (x ∷ m) removed =
      let next = if is_expired now max_age x then tally (x.1).endpoints removed else removed in
      ground (arith, retain_fresh-kept now max_age m next)

  pub retain_fresh-DistinctKeys :
      (now : Instant) (max_age : Duration) (m : Entries K) (removed : Counts)
      → DistinctKeys removed
      → DistinctKeys (retain_fresh now max_age m removed).1
  unfolding retain_fresh
  retain_fresh-DistinctKeys now max_age [] removed d = d
  retain_fresh-DistinctKeys now max_age (x ∷ m) removed d =
      retain_fresh-DistinctKeys now max_age m _
        (ground (arith, tally-DistinctKeys (x.1).endpoints removed))

  -- The counters of what went make up the difference, while they stay below the maximum.
  pub count-retain_fresh :
      (now : Instant) (max_age : Duration) (m : Entries K) (removed : Counts) (ep : ℕ)
      → Clean m
      → count ep removed + presence ep m ≤ usize_max
      → count ep (retain_fresh now max_age m removed).1
          + presence ep (retain_fresh now max_age m removed).0
        ≡ count ep removed + presence ep m
  unfolding retain_fresh presence
  count-retain_fresh now max_age [] removed ep clean h = refl
  count-retain_fresh now max_age (x ∷ m) removed ep clean h =
      elim (Bool-cases (is_expired now max_age x)) [
        | inl old ↦ rw old (
            ground (
              arith,
              count-tally (x.1).endpoints ep removed clean.0,
              count-retain_fresh now max_age m (tally (x.1).endpoints removed) ep clean.1,
            ))
        | inr fresh ↦ rw fresh (ground (arith, count-retain_fresh now max_age m removed ep clean.1))
      ]

pub drop_system-kept :
    (sysid : ℕ) (m : Entries (ℕ × ℕ)) (c : Counts)
    → (drop_system sysid m c).0 ≡ retain (λ x. not ((x.0).0 == sysid)) m
unfolding drop_system retain
drop_system-kept sysid [] c = refl
drop_system-kept sysid (x ∷ m) c =
    let next = if (x.0).0 == sysid then release (x.1).endpoints c else c in
    ground (arith, drop_system-kept sysid m next)

pub drop_system-Positive :
    (sysid : ℕ) (m : Entries (ℕ × ℕ)) (c : Counts) → Positive c → Positive (drop_system sysid m c).1
unfolding drop_system
drop_system-Positive sysid [] c p = p
drop_system-Positive sysid (x ∷ m) c p =
    drop_system-Positive sysid m _ (ground (arith, release-Positive (x.1).endpoints c))

pub drop_system-DistinctKeys :
    (sysid : ℕ) (m : Entries (ℕ × ℕ)) (c : Counts)
    → DistinctKeys c
    → DistinctKeys (drop_system sysid m c).1
unfolding drop_system
drop_system-DistinctKeys sysid [] c p = p
drop_system-DistinctKeys sysid (x ∷ m) c p =
    drop_system-DistinctKeys sysid m _ (ground (arith, release-DistinctKeys (x.1).endpoints c))

-- An exact counter stays exact over the component routes that an eviction drops.
pub count-drop_system :
    (sysid : ℕ) (m : Entries (ℕ × ℕ)) (c : Counts) (ep rest : ℕ)
    → Clean m
    → DistinctKeys c
    → count ep c ≡ presence ep m + rest
    → count ep (drop_system sysid m c).1 ≡ presence ep (drop_system sysid m c).0 + rest
unfolding drop_system presence
count-drop_system sysid [] c ep rest clean d h = h
count-drop_system sysid (x ∷ m) c ep rest clean d h = elim (Bool-cases ((x.0).0 == sysid)) [
  | inl gone ↦
      let d' = release-DistinctKeys (x.1).endpoints c d in
      let e = count-release (x.1).endpoints ep c clean.0 d in
      rw gone (
        count-drop_system sysid m (release (x.1).endpoints c) ep rest clean.1 d'
          (omega (arith, e, h)))
  | inr stays ↦
      let k = one_if (contains (x.1).endpoints ep) in
      let ih = count-drop_system sysid m c ep (k + rest) clean.1 d (omega arith) in
      rw stays (omega (arith, ih))
]
