-- ===== src/Relay/Accounts.antt =====
-- What becomes of the messages of the bus at one endpoint.
use mavrouter.Prelude.{
  ℕ, suc, Bool, true, false, sym, subst, length-append, List, [], arith, refl, ap, length, ◌∙◌, ◌%◌,
  ◌^◌, ◌+◌, ◌≡◌, ◌≢◌, ◌⊎◌, ◌∷◌, ◌++◌, nat_eq,
}
use mavrouter.Filter.{PassesOutgoing}
use mavrouter.Routing.Table.{RoutingTable}
use mavrouter.Routing.View.{view}
use mavrouter.Routing.Decisions.{IsSniffer, Routed}
use mathlib.Core.List.{append_assoc}
use mavrouter.Endpoint.{RoutedMessage, EndpointCore, EndpointStats, new_stats, fetch_add}
use mavrouter.Relay.{Event, arrive, rotate, reroute, forward}

-- A message that is for an endpoint, with a routing table.
abbrev pub IsFor : RoutingTable → EndpointCore → RoutedMessage → Type 0
IsFor rt core msg =
    (msg.source_id ≢ core.id)
    × PassesOutgoing core.filters msg.header msg.message_id
    × (IsSniffer (view rt) core.id
        ⊎ (msg.target.system_id ≡ 0)
        ⊎ Routed (view rt) core.id msg.target.system_id msg.target.component_id)

-- A pass of the endpoint's loop in the course of some events, from a table on: the table that the
-- router has then, and which of the endpoint's addresses take what is written.
abbrev pub IsPass : ℕ → RoutingTable → List Event → RoutingTable → List Bool → Type 0
IsPass j now [] rt sends = ⊥
IsPass j now (arrive clock i frame ∷ events) rt sends = IsPass j now events rt sends
IsPass j now (rotate ∷ events) rt sends = IsPass j now events rt sends
IsPass j now (reroute table ∷ events) rt sends = IsPass j table events rt sends
IsPass j now (forward i given ∷ events) rt sends =
    ((i ≡ j) × (rt ≡ now) × (sends ≡ given)) ⊎ IsPass j now events rt sends

-- A message as often as it was taken, and how often it was not.
abbrev pub copies : RoutedMessage → List Bool → List RoutedMessage
copies msg [] = []
copies msg (true ∷ sends) = msg ∷ copies msg sends
copies msg (false ∷ sends) = copies msg sends

abbrev pub failures : List Bool → ℕ
failures [] = 0
failures (true ∷ sends) = failures sends
failures (false ∷ sends) = suc (failures sends)

-- The messages that an endpoint has taken from the bus, on top of those from before it listened,
-- and those written to its addresses, newest first both; how many it has missed; and how many
-- writes failed. `Had` holds for the passes: for the table that decides, and the writes.
pub data Accounts (Had : RoutingTable → List Bool → Type 0) (core : EndpointCore)
    (earlier : List RoutedMessage) : List RoutedMessage → List RoutedMessage → ℕ → ℕ → Type 0 where
  none_yet : Accounts Had core earlier earlier [] 0 0
  wrote :
      {taken out : List RoutedMessage} {lagged failed : ℕ}
      → (rt : RoutingTable) (sends : List Bool) (msg : RoutedMessage) → Had rt sends
      → IsFor rt core msg
      → Accounts Had core earlier taken out lagged failed
      → Accounts Had core earlier
          (msg ∷ taken)
          (copies msg sends ++ out)
          lagged
          (failures sends + failed)
  withheld :
      {taken out : List RoutedMessage} {lagged failed : ℕ}
      → (rt : RoutingTable) (sends : List Bool) (msg : RoutedMessage) → Had rt sends
      → ¬ IsFor rt core msg
      → Accounts Had core earlier taken out lagged failed
      → Accounts Had core earlier (msg ∷ taken) out lagged failed
  lost :
      {taken out : List RoutedMessage} {lagged failed : ℕ}
      → (msg : RoutedMessage) → Accounts Had core earlier taken out lagged failed
      → Accounts Had core earlier (msg ∷ taken) out (suc lagged) failed

-- The counters of an endpoint, which wrap.
abbrev pub Counts : EndpointStats → ℕ → ℕ → ℕ → Type 0
Counts stats out lagged failed =
    (stats.msgs_out ≡ out % 2 ^ 64)
    × (stats.bus_lagged ≡ lagged % 2 ^ 64)
    × (stats.errors ≡ failed % 2 ^ 64)

-- What was sent on the bus is what the endpoint has taken and what is pending for it; and its
-- counters tell how much was written, missed and not written.
abbrev pub Accounted :
    (Had : RoutingTable → List Bool → Type 0) (core : EndpointCore)
    (earlier sent pending out : List RoutedMessage)
    → EndpointStats
    → Type 0
Accounted Had core earlier sent pending out stats =
    (taken : List RoutedMessage) × (lagged : ℕ) × (failed : ℕ) × (sent ≡ pending ++ taken)
    × Accounts Had core earlier taken out lagged failed
    × Counts stats (length out) lagged failed

-- The counters of what goes out are the same.
abbrev pub SameOut : EndpointStats → EndpointStats → Type 0
SameOut stats stats' =
    (stats'.msgs_out ≡ stats.msgs_out)
    × (stats'.bus_lagged ≡ stats.bus_lagged)
    × (stats'.errors ≡ stats.errors)

module _ {Had : RoutingTable → List Bool → Type 0} {core : EndpointCore}
    {earlier : List RoutedMessage} where
  -- Many messages that are missed at once.
  pub lost_all :
      (msgs : List RoutedMessage) {taken out : List RoutedMessage} {lagged failed : ℕ}
      → Accounts Had core earlier taken out lagged failed
      → (n : ℕ) × Accounts Had core earlier (msgs ++ taken) out n failed
        × (n ≡ length msgs + lagged)
  lost_all [] {lagged = lagged} account = (lagged, account, omega arith)
  lost_all (msg ∷ msgs) account =
      let (n, more, counted) = lost_all msgs account in
      (suc n, lost msg more, omega (arith, counted))

moved :
    {sent pending : List RoutedMessage} (pending' msgs taken : List RoutedMessage)
    → sent ≡ pending ++ taken
    → pending ≡ pending' ++ msgs
    → sent ≡ pending' ++ (msgs ++ taken)
moved pending' msgs taken e p = e ∙ ap (λ ms. ms ++ taken) p ∙ append_assoc pending' msgs taken

module _ (Had : RoutingTable → List Bool → Type 0) (core : EndpointCore)
    (earlier sent pending out : List RoutedMessage) (stats : EndpointStats) where
  pub SameOut-Accounted :
      (stats' : EndpointStats)
      → SameOut stats stats'
      → Accounted Had core earlier sent pending out stats
      → Accounted Had core earlier sent pending out stats'
  SameOut-Accounted stats' (o, l, f) (taken, lagged, failed, e, accounts, (out, lag, fail)) =
      (taken, lagged, failed, e, accounts, (o ∙ out, l ∙ lag, f ∙ fail))

  pub grown-Accounted :
      (msg : RoutedMessage)
      → Accounted Had core earlier sent pending out stats
      → Accounted Had core earlier (msg ∷ sent) (msg ∷ pending) out stats
  grown-Accounted msg (taken, lagged, failed, e, accounts, counts) =
      (taken, lagged, failed, ap (◌∷◌ msg) e, accounts, counts)

-- An endpoint that has just begun to listen.
pub start-Accounted :
    (Had : RoutingTable → List Bool → Type 0) (core : EndpointCore)
    (sent pending out : List RoutedMessage) (stats : EndpointStats)
    → pending ≡ []
    → out ≡ []
    → stats ≡ new_stats
    → Accounted Had core sent sent pending out stats
start-Accounted Had core sent pending out stats p o s =
    rw (p, o, s) (sent, 0, 0, refl, none_yet, (refl, refl, refl))

-- One message that the endpoint takes from the bus, or some that it misses.
module _ (Had : RoutingTable → List Bool → Type 0) (core : EndpointCore)
    (earlier sent pending pending' out : List RoutedMessage) (stats : EndpointStats) where
  pub wrote-Accounted :
      (rt : RoutingTable) (sends : List Bool) (msg : RoutedMessage) (stats' : EndpointStats)
      → Had rt sends
      → IsFor rt core msg
      → pending ≡ pending' ++ (msg ∷ [])
      → ((o l f : ℕ)
          → Counts stats o l f
          → Counts stats' (length (copies msg sends) + o) l (failures sends + f))
      → Accounted Had core earlier sent pending out stats
      → Accounted Had core earlier sent pending' (copies msg sends ++ out) stats'
  wrote-Accounted rt sends msg stats' had for p count (taken, lagged, failed, e, accounts, counts) =
      (
        msg ∷ taken,
        lagged,
        failures sends + failed,
        moved pending' (msg ∷ []) taken e p,
        wrote rt sends msg had for accounts,
        subst (λ n. Counts stats' n lagged (failures sends + failed))
            (sym (length-append (copies msg sends) out)) (count (length out) lagged failed counts),
      )

  pub withheld-Accounted :
      (rt : RoutingTable) (sends : List Bool) (msg : RoutedMessage)
      → Had rt sends
      → ¬ IsFor rt core msg
      → pending ≡ pending' ++ (msg ∷ [])
      → Accounted Had core earlier sent pending out stats
      → Accounted Had core earlier sent pending' out stats
  withheld-Accounted rt sends msg had not_for p (taken, lagged, failed, e, accounts, counts) = (
    msg ∷ taken,
    lagged,
    failed,
    moved pending' (msg ∷ []) taken e p,
    withheld rt sends msg had not_for accounts,
    counts,
  )

  pub lost-Accounted :
      (n : ℕ) (skipped : List RoutedMessage)
      → length skipped ≡ n
      → pending ≡ pending' ++ skipped
      → Accounted Had core earlier sent pending out stats
      → Accounted Had core earlier sent pending' out
          (record stats { bus_lagged = fetch_add stats.bus_lagged n })
  lost-Accounted n skipped h p (taken, lagged, failed, e, accounts, (o, l, f)) =
      let (total, more, counted) = lost_all skipped accounts in
      (
        skipped ++ taken,
        total,
        failed,
        moved pending' skipped taken e p,
        more,
        (o, omega (arith, l, h, counted), f),
      )
