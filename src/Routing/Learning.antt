-- ===== src/Routing/Learning.antt =====
-- What an observation does to later decisions, and that it does nothing to others.
use mavrouter.Prelude.{
  ℕ, refl, sym, ap, subst, inl, inr, true, false, Option, none, List, arith, Bool-cases, ◌≡◌, ◌∙◌,
  ◌≢◌, ◌⊎◌, ◌==◌, nat_eq, pair_eq,
}
use native.Mathlib.Decide.{ℕ_discrete}
use mavrouter.Prelude.Sets.{contains, contains-collect}
use mavrouter.Routing.Time.{Instant}
use mavrouter.Routing.Shard.{RouteEntry}
use mavrouter.Routing.Table.{
  RoutingTable, RouteUpdate, entry_has, should_send, update, set_sniffer_sysids,
}
use mavrouter.Routing.Table.Touch.{touched, touched-has}
use mavrouter.Routing.Endpoints.{ends, decide_same, decide_view, should_send-decide_view}
use mavrouter.Routing.Reach.{IsValid}
use mavrouter.Routing.View.{View, view, observe, view-update}
use mavrouter.Routing.Decisions.{IsSniffer, Routed, should_send_iff}

module _ (u : RouteUpdate) where
  touched-names :
      (o : Option RouteEntry)
      → contains (touched o u.endpoint_id u.now).endpoints u.endpoint_id ≡ true
  touched-names o = ground (arith, touched-has o u.endpoint_id u.endpoint_id u.now)

  -- The route that serves the target after the observation names the endpoint.
  observe-Routed :
      (v : View) (c : ℕ)
      → (c ≡ 0) ⊎ (c ≡ u.comp_id) ⊎ (v.routes u.sys_id c ≡ none)
      → Routed (observe v u) u.endpoint_id u.sys_id c
  observe-Routed v c which =
      let system = touched (v.systems u.sys_id) u.endpoint_id u.now in
      let route = touched (v.routes u.sys_id u.comp_id) u.endpoint_id u.now in
      elim (Bool-cases (c == 0)) [
        | inl wide ↦ (system, ground arith, inl (touched-names (v.systems u.sys_id)))
        | inr narrow ↦ elim (Bool-cases (u.comp_id == c)) [
          | inl own ↦ (route, ground arith, inl (touched-names (v.routes u.sys_id u.comp_id)))
          | inr other ↦ (system, ground arith, inl (touched-names (v.systems u.sys_id)))
        ]
      ]

should_send-observed :
    (t : RoutingTable) (u : RouteUpdate) (clock : Instant) (c : ℕ)
    → IsValid t
    → (c ≡ 0) ⊎ (c ≡ u.comp_id) ⊎ ((view t).routes u.sys_id c ≡ none)
    → should_send (update t u.endpoint_id u.sys_id u.comp_id u.now clock) u.endpoint_id u.sys_id c
      ≡ true
should_send-observed t u clock c v which =
    let after = update t u.endpoint_id u.sys_id u.comp_id u.now clock in
    (should_send_iff after u.endpoint_id u.sys_id c).1 (
      inr (
        inr (
          subst (λ w. Routed w u.endpoint_id u.sys_id c) (sym (view-update t u clock v))
            (observe-Routed u (view t) c which))))

decide-observe :
    (v : View) (u : RouteUpdate) (ep s c : ℕ)
    → s ≢ u.sys_id
    → contains v.config.sniffer_sysids u.sys_id ≡ false
    → decide_view (observe v u) ep s c ≡ decide_view v ep s c
decide-observe v u ep s c other plain =
    decide_same v.config _ _ _ _ u.sys_id ep s c (λ i h. ap ends (systems i h))
      (λ i j h. ap ends (routes i j h)) other plain
  where
    away : (i : ℕ) → i ≢ u.sys_id → (u.sys_id == i) ≡ false
    away i h = ground arith

    systems : (i : ℕ) → i ≢ u.sys_id → (observe v u).systems i ≡ v.systems i
    systems i h = rw (away i h) refl

    routes : (i j : ℕ) → i ≢ u.sys_id → (observe v u).routes i j ≡ v.routes i j
    routes i j h = rw (away i h) refl

should_send-others :
    (t : RoutingTable) (u : RouteUpdate) (clock : Instant) (ep s c : ℕ)
    → IsValid t
    → s ≢ u.sys_id
    → contains t.config.sniffer_sysids u.sys_id ≡ false
    → should_send (update t u.endpoint_id u.sys_id u.comp_id u.now clock) ep s c
      ≡ should_send t ep s c
should_send-others t u clock ep s c v other plain =
    should_send-decide_view (update t u.endpoint_id u.sys_id u.comp_id u.now clock) ep s c
    ∙ ap (λ w. decide_view w ep s c) (view-update t u clock v)
    ∙ decide-observe (view t) u ep s c other plain
    ∙ sym (should_send-decide_view t ep s c)

-- After an observation of a component on an endpoint in a valid table, that endpoint is sent what
-- targets the component, what targets its whole system, and what targets a component of the system
-- that no route is known for; and no decision about another system has changed, unless the observed
-- system is a sniffer's.
pub should_send-update :
    (t : RoutingTable) (u : RouteUpdate) (clock : Instant) (c ep s d : ℕ)
    → IsValid t
    → (c ≡ 0) ⊎ (c ≡ u.comp_id) ⊎ ((view t).routes u.sys_id c ≡ none)
    → let after = update t u.endpoint_id u.sys_id u.comp_id u.now clock in
      (should_send after u.endpoint_id u.sys_id c ≡ true)
      × ((s ≡ u.sys_id)
          ⊎ (contains t.config.sniffer_sysids u.sys_id ≡ true)
          ⊎ (should_send after ep s d ≡ should_send t ep s d))
should_send-update t u clock c ep s d v which = (
  should_send-observed t u clock c v which,
  elim (ℕ_discrete s u.sys_id) [
    | yes own ↦ inl own
    | no other ↦ elim (Bool-cases (contains t.config.sniffer_sysids u.sys_id)) [
      | inl sniffer ↦ inr (inl sniffer)
      | inr plain ↦ inr (inr (should_send-others t u clock ep s d v other plain))
    ]
  ],
)

-- Once a configured sniffer id is observed on an endpoint in a valid table, that endpoint is sent
-- every message.
should_send-sniffer :
    (t : RoutingTable) (sysids : List ℕ) (u : RouteUpdate) (clock : Instant) (s c : ℕ)
    → IsValid t
    → contains sysids u.sys_id ≡ true
    → should_send
        (update (set_sniffer_sysids t sysids) u.endpoint_id u.sys_id u.comp_id u.now clock)
        u.endpoint_id
        s
        c
      ≡ true
unfolding set_sniffer_sysids entry_has
should_send-sniffer t sysids u clock s c v inside =
    let before = set_sniffer_sysids t sysids in
    let valid : IsValid before = record { sixteen = v.sixteen; each = v.each } in
    let after = update before u.endpoint_id u.sys_id u.comp_id u.now clock in
    let here : entry_has ((observe (view before) u).systems u.sys_id) u.endpoint_id ≡ true =
      ground (arith, touched-names u ((view before).systems u.sys_id)) in
    (should_send_iff after u.endpoint_id s c).1 (
      inl (
        subst (λ w. IsSniffer w u.endpoint_id) (sym (view-update before u clock valid))
          (u.sys_id, contains-collect sysids u.sys_id ∙ inside, here)))
