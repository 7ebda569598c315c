-- ===== src/Relay/Invariant.antt =====
-- What holds at every time of a run, for one of the endpoints.
use mavrouter.Prelude.{ℕ, List, ap, sym, Bool, ◌<◌, ◌≡◌, ◌∙◌, nat_eq}
use native.Mathlib.Decide.{ℕ_discrete}
use mavrouter.Routing.Table.{RoutingTable}
use mavrouter.Dedup.Window.{Window}
use mavrouter.Dedup.Sharded.{Follows}
use mavrouter.Endpoint.{RoutedMessage, EndpointCore, EndpointStats}
use mavrouter.Relay.{Relay, Delivery, set_at, set_at_self, set_at_ne}
use mavrouter.Relay.Broadcast.{IsBroadcast}
use mavrouter.Relay.Accounts.{Accounted}

-- Of the endpoints, only the counters change.
abbrev pub OnlyCounts : (ℕ → EndpointCore) → (ℕ → EndpointCore) → Type 0
OnlyCounts first cores =
    (i : ℕ) → (stats : EndpointStats) × (cores i ≡ record (first i) { stats = stats })

pub set_at-OnlyCounts :
    (first cores : ℕ → EndpointCore) (i : ℕ) (stats : EndpointStats) (core : EndpointCore)
    → core ≡ record (first i) { stats = stats }
    → OnlyCounts first cores
    → OnlyCounts first (set_at cores i core)
set_at-OnlyCounts first cores i stats core e same k = elim (ℕ_discrete k i) [
  | yes here ↦ (
    stats,
    ap (set_at cores i core) here
        ∙ set_at_self cores i core
        ∙ e
        ∙ ap (λ n. record (first n) { stats = stats }) (sym here),
  )
  | no elsewhere ↦ let (old, kept) = same k in (old, set_at_ne cores i k core elsewhere ∙ kept)
]

-- For the endpoint `j`, which has listened since `earlier` was on the bus.
pub record Inv {Bus Queue : Type 0} {send : Bus → RoutedMessage → Bus × Bool}
    {recv : Bus → ℕ → Bus × Delivery} (bc : IsBroadcast send recv)
    (Had : RoutingTable → List Bool → Type 0) (first : ℕ → EndpointCore)
    (earlier : List RoutedMessage) (j : ℕ) (w : Window) (r : Relay Bus Queue) : Type 0 where
  pub follows : Follows r.shared.dedup w
  pub listening : 0 < bc.bus.receivers r.shared.bus_tx
  pub same : OnlyCounts first r.cores
  pub account :
      Accounted Had
        (first j)
        earlier
        (bc.bus.sent r.shared.bus_tx)
        (bc.pending r.shared.bus_tx j)
        (r.written j)
        (r.cores j).stats
