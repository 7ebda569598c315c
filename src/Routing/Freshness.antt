-- ===== src/Routing/Freshness.antt =====
-- `needs_update_for_endpoint`: the observations that the ingress path skips. Skipping one changes
-- no decision, since decisions depend on the sets of endpoints alone.
use mathlib.Core.Path.{ap₂, fun_ext}
use mavrouter.Prelude.{
  ℕ, refl, sym, ap, inl, inr, true, false, Option, none, some, arith, leb, nat_beq_iff, Bool-cases,
  ◌<◌, ◌≡◌, ◌∙◌, ◌&&◌, ◌||◌, ◌==◌, nat_eq, pair_eq, string_eq,
}
use mavrouter.Prelude.Sets.{contains, insert}
use mavrouter.Routing.Time.{Instant, from_secs, duration_since}
use mavrouter.Routing.Shard.{RouteEntry}
use mavrouter.Routing.Table.{
  RoutingTable, RouteUpdate, entry_needs_update, needs_update_for_endpoint, should_send, update,
}
use mavrouter.Routing.Table.Touch.{touched, touched-has, touched-last_seen}
use mavrouter.Routing.Endpoints.{ends, decide, decide_view, should_send-decide_view}
use mavrouter.Routing.Reach.{IsValid}
use mavrouter.Routing.View.{View, view, observe, view-update}

-- An entry that names the endpoint and was seen less than a second ago.
abbrev pub IsFresh : Option RouteEntry → ℕ → Instant → Type 0
IsFresh o ep now =
    (e : RouteEntry) × (o ≡ some e)
    × (contains e.endpoints ep ≡ true)
    × (duration_since now e.last_seen < from_secs 1)

entry_needs_update-IsFresh :
    (o : Option RouteEntry) (ep : ℕ) (now : Instant)
    → entry_needs_update o ep now ≡ false
    → IsFresh o ep now
unfolding entry_needs_update
entry_needs_update-IsFresh none ep now h = absurd (ground arith)
entry_needs_update-IsFresh (some e) ep now h = (e, refl, ground arith, ground arith)

-- No update is needed only while both entries of the sender name the endpoint and are younger than
-- a second.
pub needs_update-IsFresh :
    (t : RoutingTable) (ep s c : ℕ) (now : Instant)
    → needs_update_for_endpoint t ep s c now ≡ false
    → IsFresh ((view t).routes s c) ep now × IsFresh ((view t).systems s) ep now
unfolding needs_update_for_endpoint
needs_update-IsFresh t ep s c now h = (
  entry_needs_update-IsFresh ((view t).routes s c) ep now (ground arith),
  entry_needs_update-IsFresh ((view t).systems s) ep now (ground arith),
)

entry_needs_update-touched :
    (o : Option RouteEntry) (ep : ℕ) (now later : Instant)
    → entry_needs_update (some (touched o ep now)) ep later
      ≡ leb (from_secs 1) (duration_since later now)
unfolding entry_needs_update
entry_needs_update-touched o ep now later =
    ground (arith, touched-has o ep ep now, touched-last_seen o ep now)

-- After an update of a valid table for an endpoint, a further one is needed for the same sender
-- exactly when at least a second has passed, which one of exactly a second has.
pub needs_update-update :
    (t : RoutingTable) (u : RouteUpdate) (clock later : Instant)
    → IsValid t
    → needs_update_for_endpoint
        (update t u.endpoint_id u.sys_id u.comp_id u.now clock)
        u.endpoint_id
        u.sys_id
        u.comp_id
        later
      ≡ leb (from_secs 1) (duration_since later u.now)
unfolding needs_update_for_endpoint
needs_update-update t u clock later v =
    let after = update t u.endpoint_id u.sys_id u.comp_id u.now clock in
    let stale = λ (w : View).
      entry_needs_update (w.routes u.sys_id u.comp_id) u.endpoint_id later
      || entry_needs_update (w.systems u.sys_id) u.endpoint_id later in
    let same : stale (view after) ≡ stale (observe (view t) u) =
      ap stale (view-update t u clock v) in
    same
    ∙ ground (
      arith,
      entry_needs_update-touched ((view t).routes u.sys_id u.comp_id) u.endpoint_id u.now later,
      entry_needs_update-touched ((view t).systems u.sys_id) u.endpoint_id u.now later,
    )

ends-touched :
    (o : Option RouteEntry) (ep : ℕ) (now : Instant)
    → IsFresh o ep now
    → ends (some (touched o ep now)) ≡ ends o
unfolding touched insert
ends-touched o ep now (e, found, inside, young) = rw (found, inside) refl

module _ (v : View) (u : RouteUpdate) where
  ends-systems :
      (i : ℕ)
      → IsFresh (v.systems u.sys_id) u.endpoint_id u.now
      → ends ((observe v u).systems i) ≡ ends (v.systems i)
  ends-systems i fresh = elim (Bool-cases (u.sys_id == i)) [
    | inl hit ↦ rw hit (
        ends-touched (v.systems u.sys_id) u.endpoint_id u.now fresh
        ∙ ap (λ k. ends (v.systems k)) ((nat_beq_iff u.sys_id i).0 hit))
    | inr miss ↦ rw miss refl
  ]

  ends-routes :
      (i j : ℕ)
      → IsFresh (v.routes u.sys_id u.comp_id) u.endpoint_id u.now
      → ends ((observe v u).routes i j) ≡ ends (v.routes i j)
  ends-routes i j fresh = elim (Bool-cases (u.sys_id == i && u.comp_id == j)) [
    | inl hit ↦ rw hit (
        ends-touched (v.routes u.sys_id u.comp_id) u.endpoint_id u.now fresh
        ∙ ap₂ (λ k l. ends (v.routes k l)) (ground arith) (ground arith))
    | inr miss ↦ rw miss refl
  ]

-- On a valid table, an observation that `needs_update_for_endpoint` holds back changes no decision.
pub should_send_skipped :
    (t : RoutingTable) (u : RouteUpdate) (clock : Instant) (ep s c : ℕ)
    → IsValid t
    → needs_update_for_endpoint t u.endpoint_id u.sys_id u.comp_id u.now ≡ false
    → should_send (update t u.endpoint_id u.sys_id u.comp_id u.now clock) ep s c
      ≡ should_send t ep s c
should_send_skipped t u clock ep s c v h =
    let (route, system) = needs_update-IsFresh t u.endpoint_id u.sys_id u.comp_id u.now h in
    should_send-decide_view (update t u.endpoint_id u.sys_id u.comp_id u.now clock) ep s c
    ∙ ap (λ w. decide_view w ep s c) (view-update t u clock v)
    ∙ ap₂ (λ a b. decide t.config a b ep s c) (fun_ext (λ i. ends-systems (view t) u i system))
        (fun_ext (λ i. fun_ext (λ j. ends-routes (view t) u i j route)))
    ∙ sym (should_send-decide_view t ep s c)
