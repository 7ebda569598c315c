-- ===== src/Routing/Cover.antt =====
-- With a clock that does not go back, the system route covers every component route: what may be
-- sent to a component may be sent to its system, and no prune can part the two.
use mavrouter.Prelude.{
  ℕ, refl, ap, subst, inl, inr, true, Option, none, some, arith, nat_beq_iff, Bool-cases, ◌-◌, ◌≤◌,
  ◌≡◌, ◌==◌, nat_eq, pair_eq,
}
use mavrouter.Prelude.Sets.{contains}
use mavrouter.Routing.Time.{Instant, Duration}
use mavrouter.Routing.Shard.{RouteEntry}
use mavrouter.Routing.Table.{RouteUpdate, entry_has}
use mavrouter.Routing.Table.Touch.{touched, touched-has, touched-last_seen}
use mavrouter.Routing.View.{View, observe, expire, unexpired}

-- `f` names every endpoint of `e`, and was seen no earlier.
pub record CoveredBy (e f : RouteEntry) : Type 0 where
  pub names : (x : ℕ) → contains e.endpoints x ≡ true → contains f.endpoints x ≡ true
  pub later : e.last_seen ≤ f.last_seen

-- Each component route is covered by its system's route, and nothing was seen after `now`.
pub record IsCovered (now : Instant) (v : View) : Type 0 where
  pub covered :
      (s c : ℕ) (e : RouteEntry)
      → v.routes s c ≡ some e
      → (f : RouteEntry) × (v.systems s ≡ some f) × CoveredBy e f
  pub past : (s : ℕ) (f : RouteEntry) → v.systems s ≡ some f → f.last_seen ≤ now

names-touched :
    (r o : Option RouteEntry) (ep : ℕ) (now : Instant)
    → ((e : RouteEntry) → r ≡ some e → (f : RouteEntry) × (o ≡ some f) × CoveredBy e f)
    → (x : ℕ) → contains (touched r ep now).endpoints x ≡ true
    → contains (touched o ep now).endpoints x ≡ true
unfolding entry_has
names-touched none o ep now cover x h =
    ground (arith, touched-has none ep x now, touched-has o ep x now)
names-touched (some e) o ep now cover x h =
    let (f, at, by) = cover e refl in
    ground (arith, by.names x, at, touched-has (some e) ep x now, touched-has o ep x now)

module _ (v : View) (u : RouteUpdate) where
  observe-past :
      {now : Instant}
      → IsCovered now v
      → now ≤ u.now
      → (s : ℕ) (f : RouteEntry) → (observe v u).systems s ≡ some f
      → f.last_seen ≤ u.now
  observe-past k h s f e = elim (Bool-cases (u.sys_id == s)) [
    | inl hit ↦ ground (arith, touched-last_seen (v.systems u.sys_id) u.endpoint_id u.now)
    | inr miss ↦ ground (arith, k.past s f)
  ]

  -- The entries that the observation writes cover one another.
  touched-CoveredBy :
      {now : Instant}
      → IsCovered now v
      → CoveredBy
          (touched (v.routes u.sys_id u.comp_id) u.endpoint_id u.now)
          (touched (v.systems u.sys_id) u.endpoint_id u.now)
  touched-CoveredBy k = record {
    names =
        names-touched (v.routes u.sys_id u.comp_id) (v.systems u.sys_id) u.endpoint_id u.now
          (k.covered u.sys_id u.comp_id);
    later = omega (
      arith,
      touched-last_seen (v.systems u.sys_id) u.endpoint_id u.now,
      touched-last_seen (v.routes u.sys_id u.comp_id) u.endpoint_id u.now,
    );
  }

  -- An older entry of the system stays covered by the new system entry.
  older-CoveredBy :
      {now : Instant} (c : ℕ) (e : RouteEntry)
      → IsCovered now v
      → now ≤ u.now
      → v.routes u.sys_id c ≡ some e
      → CoveredBy e (touched (v.systems u.sys_id) u.endpoint_id u.now)
  unfolding entry_has
  older-CoveredBy c e k h found =
      let (f, at, by) = k.covered u.sys_id c e found in
      record {
        names = λ x inside.
            ground
              (arith, by.names x inside, touched-has (v.systems u.sys_id) u.endpoint_id x u.now);
        later = omega (
          arith,
          by.later,
          k.past u.sys_id f at,
          touched-last_seen (v.systems u.sys_id) u.endpoint_id u.now,
        );
      }

  observe-covered :
      {now : Instant}
      → IsCovered now v
      → now ≤ u.now
      → (s c : ℕ) (e : RouteEntry) → (observe v u).routes s c ≡ some e
      → (f : RouteEntry) × ((observe v u).systems s ≡ some f) × CoveredBy e f
  observe-covered k h s c e found = elim (Bool-cases (u.sys_id == s)) [
    | inl hit ↦ elim (Bool-cases (u.comp_id == c)) [
      | inl own ↦
          let same : touched (v.routes u.sys_id u.comp_id) u.endpoint_id u.now ≡ e = ground arith in
          (
            touched (v.systems u.sys_id) u.endpoint_id u.now,
            rw hit refl,
            subst (λ z. CoveredBy z (touched (v.systems u.sys_id) u.endpoint_id u.now)) same
                (touched-CoveredBy k),
          )
      | inr other ↦
          let moved : v.routes u.sys_id c ≡ some e =
            rw ((nat_beq_iff u.sys_id s).0 hit) (ground arith) in
          (
            touched (v.systems u.sys_id) u.endpoint_id u.now,
            rw hit refl,
            older-CoveredBy c e k h moved,
          )
    ]
    | inr miss ↦ let (f, at, by) = k.covered s c e (ground arith) in (f, rw miss at, by)
  ]

  pub observe-IsCovered :
      {now : Instant} → IsCovered now v → now ≤ u.now → IsCovered u.now (observe v u)
  observe-IsCovered k h = record { covered = observe-covered k h; past = observe-past k h }

unexpired_young :
    (now : Instant) (max_age : Duration) (o : Option RouteEntry) (e : RouteEntry)
    → unexpired now max_age o ≡ some e
    → (o ≡ some e) × (now - e.last_seen ≤ max_age)
unexpired_young now max_age none e h = absurd (ground arith)
unexpired_young now max_age (some x) e h =
    let same : x ≡ e = ground arith in (ap some same, ground arith)

young_unexpired :
    (now : Instant) (max_age : Duration) (o : Option RouteEntry) (e : RouteEntry)
    → o ≡ some e
    → now - e.last_seen ≤ max_age
    → unexpired now max_age o ≡ some e
young_unexpired now max_age o e at young = rw at (ground arith)

pub expire-IsCovered :
    (v : View) (max_age : Duration) (clock : Instant) {now : Instant}
    → IsCovered now v
    → IsCovered now (expire v max_age clock)
expire-IsCovered v max_age clock k = record {
  covered = λ s c e found.
      let (old, young) = unexpired_young clock max_age (v.routes s c) e found in
      let (f, at, by) = k.covered s c e old in
      (f, young_unexpired clock max_age (v.systems s) f at (omega (arith, by.later)), by);
  past = λ s f found. k.past s f (unexpired_young clock max_age (v.systems s) f found).0;
}
