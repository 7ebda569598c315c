-- ===== src/Routing/Decisions.antt =====
-- What `should_send` decides, in terms of the plain maps of systems and routes.
use mavrouter.Prelude.{
  ℕ, refl, sym, subst, inl, inr, true, false, Option, none, some, List, [], arith, nat_beq_iff,
  Bool-cases, Option-cases, ◌≡◌, ◌↔◌, ◌⊎◌, ◌∷◌, ◌==◌, if◌then◌else◌, nat_eq, pair_eq, string_eq,
}
use Prim.Native.String.{String}
use mavrouter.Prelude.Sets.{contains, beq_refl}
use mavrouter.Prelude.Maps.{lookup}
use mavrouter.Routing.Groups.{GroupConfig, any_member, any_in_same_group}
use mavrouter.Routing.Shard.{RouteEntry}
use mavrouter.Routing.Table.{
  RoutingTable, entry_has, seen_on_any, is_sniffer_endpoint, reaches, route_decision, should_send,
}
use mavrouter.Routing.View.{View, view}

-- The endpoint has seen a sniffer's system id.
abbrev pub IsSniffer : View → ℕ → Type 0
IsSniffer v ep =
    (s : ℕ) × (contains v.config.sniffer_sysids s ≡ true) × (entry_has (v.systems s) ep ≡ true)

-- An endpoint of the list is a member of the group of `ep`.
abbrev pub SharesGroup : GroupConfig → List ℕ → ℕ → Type 0
SharesGroup cfg endpoints ep =
    (group : String) × (members : List ℕ) × (x : ℕ) × (lookup ep cfg.endpoint_groups ≡ some group)
    × (lookup group cfg.group_members ≡ some members)
    × (contains endpoints x ≡ true)
    × (contains members x ≡ true)

-- The most specific route that the table has for a target.
abbrev pub most_specific : Option RouteEntry → Option RouteEntry → ℕ → Option RouteEntry
most_specific none route c = none
most_specific (some e) none c = some e
most_specific (some e) (some r) c = if c == 0 then some e else some r

abbrev pub route_to : View → ℕ → ℕ → Option RouteEntry
route_to v s c = most_specific (v.systems s) (v.routes s c) c

abbrev pub Reaches : GroupConfig → RouteEntry → ℕ → Type 0
Reaches cfg e ep = (contains e.endpoints ep ≡ true) ⊎ SharesGroup cfg e.endpoints ep

seen_on_any→ :
    (t : RoutingTable) (xs : List ℕ) (ep : ℕ)
    → seen_on_any t xs ep ≡ true
    → (s : ℕ) × (contains xs s ≡ true) × (entry_has ((view t).systems s) ep ≡ true)
unfolding seen_on_any contains
seen_on_any→ t [] ep h = absurd (ground arith)
seen_on_any→ t (x ∷ xs) ep h = elim (Bool-cases (entry_has ((view t).systems x) ep)) [
  | inl hit ↦ (x, rw (beq_refl x) refl, hit)
  | inr miss ↦ let (s, inside, has) = seen_on_any→ t xs ep (ground arith) in (s, ground arith, has)
]

→seen_on_any :
    (t : RoutingTable) (xs : List ℕ) (ep s : ℕ)
    → contains xs s ≡ true
    → entry_has ((view t).systems s) ep ≡ true
    → seen_on_any t xs ep ≡ true
unfolding seen_on_any contains
→seen_on_any t [] ep s h k = absurd (ground arith)
→seen_on_any t (x ∷ xs) ep s h k = elim (Bool-cases (x == s)) [
  | inl hit ↦
      let has =
        subst (λ i. entry_has ((view t).systems i) ep ≡ true) (sym ((nat_beq_iff x s).0 hit)) k in
      ground (arith, has)
  | inr miss ↦ ground (arith, →seen_on_any t xs ep s)
]

any_member→ :
    (members xs : List ℕ)
    → any_member members xs ≡ true
    → (x : ℕ) × (contains xs x ≡ true) × (contains members x ≡ true)
unfolding any_member contains
any_member→ members [] h = absurd (ground arith)
any_member→ members (y ∷ xs) h = elim (Bool-cases (contains members y)) [
  | inl hit ↦ (y, rw (beq_refl y) refl, hit)
  | inr miss ↦ let (x, k, l) = any_member→ members xs (ground arith) in (x, ground arith, l)
]

→any_member :
    (members xs : List ℕ) (x : ℕ)
    → contains xs x ≡ true
    → contains members x ≡ true
    → any_member members xs ≡ true
unfolding any_member contains
→any_member members [] x k l = absurd (ground arith)
→any_member members (y ∷ xs) x k l = elim (Bool-cases (y == x)) [
  | inl hit ↦
      let e = subst (λ i. contains members i ≡ true) (sym ((nat_beq_iff y x).0 hit)) l in
      ground (arith, e)
  | inr miss ↦ ground (arith, →any_member members xs x)
]

shares_group→ :
    (cfg : GroupConfig) (xs : List ℕ) (ep : ℕ)
    → any_in_same_group cfg xs ep ≡ true
    → SharesGroup cfg xs ep
unfolding any_in_same_group
shares_group→ cfg xs ep h = elim (Option-cases (lookup ep cfg.endpoint_groups)) [
  | inl absent ↦ absurd (ground arith)
  | inr (group, g) ↦ elim (Option-cases (lookup group cfg.group_members)) [
    | inl absent ↦ absurd (ground arith)
    | inr (members, m) ↦
        let (x, k, l) = any_member→ members xs (ground arith) in (group, members, x, g, m, k, l)
  ]
]

→shares_group :
    (cfg : GroupConfig) (xs : List ℕ) (ep : ℕ)
    → SharesGroup cfg xs ep
    → any_in_same_group cfg xs ep ≡ true
unfolding any_in_same_group
→shares_group cfg xs ep (group, members, x, g, m, k, l) =
    ground (arith, →any_member members xs x k l)

pub reaches→ :
    (cfg : GroupConfig) (e : RouteEntry) (ep : ℕ) → reaches cfg e ep ≡ true → Reaches cfg e ep
unfolding reaches
reaches→ cfg e ep h = elim (Bool-cases (contains e.endpoints ep)) [
  | inl hit ↦ inl hit
  | inr miss ↦ inr (shares_group→ cfg e.endpoints ep (ground arith))
]

pub →reaches :
    (cfg : GroupConfig) (e : RouteEntry) (ep : ℕ) → Reaches cfg e ep → reaches cfg e ep ≡ true
unfolding reaches
→reaches cfg e ep (inl h) = ground arith
→reaches cfg e ep (inr h) = ground (arith, →shares_group cfg e.endpoints ep h)

-- The decision is the reach of the most specific route.
pub route_decision_lem :
    (t : RoutingTable) (ep s c : ℕ)
    → route_decision t ep s c
      ≡ (elim (route_to (view t) s c) [ none ↦ false | some e ↦ reaches t.config e ep ])
unfolding route_decision
route_decision_lem t ep s c = ground arith

abbrev pub Routed : View → ℕ → ℕ → ℕ → Type 0
Routed v ep s c = (e : RouteEntry) × (route_to v s c ≡ some e) × Reaches v.config e ep

route_decision→ :
    (t : RoutingTable) (ep s c : ℕ) → route_decision t ep s c ≡ true → Routed (view t) ep s c
route_decision→ t ep s c h = elim (Option-cases (route_to (view t) s c)) [
  | inl absent ↦ absurd (ground (arith, rw (route_decision_lem t ep s c, absent) at h))
  | inr (e, found) ↦
      (e, found, reaches→ t.config e ep (rw (route_decision_lem t ep s c, found) at h))
]

→route_decision :
    (t : RoutingTable) (ep s c : ℕ) → Routed (view t) ep s c → route_decision t ep s c ≡ true
→route_decision t ep s c (e, found, r) =
    rw (route_decision_lem t ep s c, found) (→reaches t.config e ep r)

should_send→ :
    (t : RoutingTable) (ep s c : ℕ)
    → should_send t ep s c ≡ true
    → IsSniffer (view t) ep ⊎ (s ≡ 0) ⊎ Routed (view t) ep s c
unfolding should_send is_sniffer_endpoint
should_send→ t ep s c h = elim (Bool-cases (is_sniffer_endpoint t ep)) [
  | inl sniffer ↦ inl (seen_on_any→ t t.config.sniffer_sysids ep sniffer)
  | inr plain ↦ elim (Bool-cases (s == 0)) [
    | inl broadcast ↦ inr (inl (ground arith))
    | inr targeted ↦ inr (inr (route_decision→ t ep s c (ground arith)))
  ]
]

→should_send :
    (t : RoutingTable) (ep s c : ℕ)
    → IsSniffer (view t) ep ⊎ (s ≡ 0) ⊎ Routed (view t) ep s c
    → should_send t ep s c ≡ true
unfolding should_send is_sniffer_endpoint
→should_send t ep s c (inl (i, inside, has)) =
    ground (arith, →seen_on_any t t.config.sniffer_sysids ep i inside has)
→should_send t ep s c (inr (inl zero_target)) = ground arith
→should_send t ep s c (inr (inr r)) = ground (arith, →route_decision t ep s c r)

-- A message is sent to an endpoint exactly when the endpoint has seen a sniffer system, or the
-- target is the broadcast system 0, or the most specific route to the target names the endpoint or
-- a member of the endpoint's group.
pub should_send_iff :
    (t : RoutingTable) (ep s c : ℕ)
    → (should_send t ep s c ≡ true) ↔ (IsSniffer (view t) ep ⊎ (s ≡ 0) ⊎ Routed (view t) ep s c)
should_send_iff t ep s c = (should_send→ t ep s c, →should_send t ep s c)
