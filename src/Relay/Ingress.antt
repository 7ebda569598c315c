-- ===== src/Relay/Ingress.antt =====
-- A frame that comes in at one of the endpoints.
use mavrouter.Prelude.{
  ℕ, refl, sym, ap, subst, inl, inr, Bool, not, List, arith, Bool-cases, ◌<◌, ◌≡◌, ◌⊎◌, ◌∙◌, ◌&&◌,
  ◌∷◌, if◌then◌else◌, nat_eq,
}
use native.Mathlib.Decide.{ℕ_discrete}
use mavrouter.Mavlink.{MavMessage}
use mavrouter.Framing.{MavlinkFrame}
use mavrouter.Routing.Table.{RouteUpdate, RoutingTable}
use mavrouter.Dedup.{check_and_insert_concurrent}
use mavrouter.Dedup.Window.{Window, accept}
use mavrouter.Dedup.Sharded.{Follows}
use mavrouter.Endpoint.{
  RoutedMessage, EndpointCore, EndpointStats, Shared, TrySend, Clock, accept_frame, observe_route,
  publish_frame, handle_incoming_frame, routed_message,
}
use mavrouter.Endpoint.Bus.{IsBus}
use mavrouter.Endpoint.Ingress.{
  observe_route-others, handle_rejected, handle_duplicate, handle_published,
}
use mavrouter.Endpoint.Runs.{arrive-sent}
use mavrouter.StreamLoop.Published.{handle-core}
use mavrouter.Relay.{Relay, Delivery, Event, arrive, step, set_at, set_at_self, set_at_ne}
use mavrouter.Relay.Broadcast.{IsBroadcast}
use mavrouter.Relay.Accounts.{Accounted, SameOut, SameOut-Accounted, grown-Accounted}
use mavrouter.Relay.Invariant.{set_at-OnlyCounts, Inv}

module _ {Bus Queue : Type 0} (ahash_hash : List ℕ → ℕ) (message_id_of : MavMessage → ℕ)
    (send : Bus → RoutedMessage → Bus × Bool)
    (try_send : Queue → RouteUpdate → Queue × TrySend) where
  abbrev handled :
      Clock → Shared Bus Queue → EndpointCore → MavlinkFrame → Shared Bus Queue × EndpointCore
  handled = handle_incoming_frame ahash_hash message_id_of send try_send

  -- The counters of what goes out stay.
  handled-SameOut :
      (clock : Clock) (shared : Shared Bus Queue) (core : EndpointCore) (frame : MavlinkFrame)
      → SameOut core.stats (handled clock shared core frame).1.stats
  unfolding handle_incoming_frame publish_frame
  handled-SameOut clock shared core frame = (ground arith, ground arith, ground arith)

  published-bus :
      (clock : Clock) (shared : Shared Bus Queue) (core : EndpointCore) (frame : MavlinkFrame)
      (id : ℕ)
      → let after =
          (publish_frame ahash_hash message_id_of send try_send clock shared core frame id).0 in
        (after.routing_table ≡ shared.routing_table)
        × (after.bus_tx ≡ (send shared.bus_tx (routed_message clock core frame id)).0)
  unfolding publish_frame
  published-bus clock shared core frame id = (ground arith, ground arith)

  module _ (bus : IsBus send) where
    -- At most one message is sent.
    handled-bus :
        (clock : Clock) (shared : Shared Bus Queue) (core : EndpointCore) (frame : MavlinkFrame)
        → let after = (handled clock shared core frame).0 in
          (after.routing_table ≡ shared.routing_table)
          × ((after.bus_tx ≡ shared.bus_tx)
              ⊎ ((msg : RoutedMessage) × (after.bus_tx ≡ (send shared.bus_tx msg).0)))
    handled-bus clock shared core frame =
        let id = message_id_of frame.message in
        let reply = check_and_insert_concurrent ahash_hash shared.dedup frame.raw_bytes in
        let asked : Shared Bus Queue = record shared { dedup = reply.0 } in
        let observed =
          observe_route ahash_hash message_id_of send try_send clock asked core frame.header in
        elim (Bool-cases (accept_frame core frame.header id)) [
          | inr rejected ↦
              rw
                (handle_rejected ahash_hash message_id_of send try_send bus clock shared core frame
                  rejected)
                (refl, inl refl)
          | inl accepted ↦ elim (Bool-cases reply.1) [
            | inl duplicate ↦
                rw
                  (handle_duplicate ahash_hash message_id_of send try_send bus clock shared core
                    frame accepted duplicate)
                  (refl, inl refl)
            | inr fresh ↦
                let (bus_same, dedup_same, table_same) =
                  observe_route-others ahash_hash message_id_of send try_send bus clock asked core
                    frame.header in
                let (table, sent) = published-bus clock observed core frame id in
                let msg = routed_message clock core frame id in
                rw
                  (handle_published ahash_hash message_id_of send try_send bus clock shared core
                    frame accepted fresh)
                  (table ∙ table_same, inr (msg, sent ∙ ap (λ b. (send b msg).0) bus_same))
          ]
        ]

module _ {Bus Queue : Type 0} (ahash_hash : List ℕ → ℕ) (message_id_of : MavMessage → ℕ)
    (send : Bus → RoutedMessage → Bus × Bool) (recv : Bus → ℕ → Bus × Delivery)
    (try_send : Queue → RouteUpdate → Queue × TrySend) (bc : IsBroadcast send recv)
    (Had : RoutingTable → List Bool → Type 0) (first : ℕ → EndpointCore)
    (earlier : List RoutedMessage) (j : ℕ) where
  abbrev relayed : Relay Bus Queue → Event → Relay Bus Queue
  relayed = step ahash_hash message_id_of send recv try_send

  -- A message on the bus is pending for each endpoint.
  sent-Accounted :
      (before after : Bus) (out : List RoutedMessage) (stats : EndpointStats)
      → 0 < bc.bus.receivers before
      → (after ≡ before) ⊎ ((msg : RoutedMessage) × (after ≡ (send before msg).0))
      → Accounted Had (first j) earlier (bc.bus.sent before) (bc.pending before j) out stats
      → Accounted Had (first j) earlier (bc.bus.sent after) (bc.pending after j) out stats
  sent-Accounted before after out stats on (inl same) account = rw same account
  sent-Accounted before after out stats on (inr (msg, grown)) account =
      rw (grown, (bc.bus.delivers before msg on).1, bc.appends before msg j on)
        (grown-Accounted Had (first j) earlier (bc.bus.sent before) (bc.pending before j) out stats
          msg account)

  -- At each endpoint the counters of what goes out stay.
  arrive-SameOut :
      (clock : Clock) (r : Relay Bus Queue) (i : ℕ) (frame : MavlinkFrame)
      → SameOut (r.cores j).stats ((relayed r (arrive clock i frame)).cores j).stats
  unfolding step
  arrive-SameOut clock r i frame =
      let out = handled ahash_hash message_id_of send try_send clock r.shared (r.cores i) frame in
      elim (ℕ_discrete j i) [
        | yes here ↦
            let now = ap (set_at r.cores i out.1) here ∙ set_at_self r.cores i out.1 in
            subst (λ c. SameOut (r.cores j).stats c.stats) (sym now)
              (subst (λ k. SameOut (r.cores k).stats out.1.stats) (sym here)
                (handled-SameOut ahash_hash message_id_of send try_send clock r.shared (r.cores i)
                  frame))
        | no elsewhere ↦
            subst (λ c. SameOut (r.cores j).stats c.stats)
              (sym (set_at_ne r.cores i j out.1 elsewhere)) (refl, refl, refl)
      ]

  -- A frame that comes in is published as `arrive-sent` says, and the rest goes on.
  pub arrive-Inv :
      (clock : Clock) (i : ℕ) (frame : MavlinkFrame) (w : Window) (r : Relay Bus Queue)
      → Inv bc Had first earlier j w r
      → let hash = ahash_hash frame.raw_bytes in
        let id = message_id_of frame.message in
        let accepted = accept_frame (first i) frame.header id in
        let after = relayed r (arrive clock i frame) in
        Inv bc Had first earlier j (if accepted then (accept w hash).0 else w) after
        × (after.shared.routing_table ≡ r.shared.routing_table)
        × (bc.bus.sent after.shared.bus_tx ≡ (
            if accepted && not (accept w hash).1
            then routed_message clock (first i) frame id ∷ bc.bus.sent r.shared.bus_tx
            else bc.bus.sent r.shared.bus_tx))
  unfolding step
  arrive-Inv clock i frame w r inv =
      let act = handled ahash_hash message_id_of send try_send clock r.shared in
      let accepted = accept_frame (first i) frame.header (message_id_of frame.message) in
      let w' = if accepted then (accept w (ahash_hash frame.raw_bytes)).0 else w in
      let after = relayed r (arrive clock i frame) in
      let (stats, counts) = inv.same i in
      let (as_first, (now, counted)) =
        handle-core ahash_hash message_id_of send try_send bc.bus clock r.shared (first i) stats
          frame in
      let shared_same : (act (r.cores i) frame).0 ≡ (act (first i) frame).0 =
        ap (λ c. (act c frame).0) counts ∙ as_first in
      let core_same = ap (λ c. (act c frame).1) counts ∙ counted in
      let (ready, grown) =
        arrive-sent ahash_hash message_id_of send try_send bc.bus clock r.shared (first i) frame w
          (inv.follows, inv.listening) in
      let (table, moved) =
        handled-bus ahash_hash message_id_of send try_send bc.bus clock r.shared (r.cores i)
          frame in
      (
        record {
          follows = subst (λ s. Follows s.dedup w') (sym shared_same) ready.0;
          listening = subst (λ s. 0 < bc.bus.receivers s.bus_tx) (sym shared_same) ready.1;
          same = set_at-OnlyCounts first r.cores i now _ core_same inv.same;
          account =
              SameOut-Accounted Had (first j) earlier _ _ _ (r.cores j).stats (after.cores j).stats
                (arrive-SameOut clock r i frame)
                (sent-Accounted r.shared.bus_tx _ (r.written j) (r.cores j).stats inv.listening
                  moved inv.account);
        },
        table,
        ap (λ s. bc.bus.sent s.bus_tx) shared_same ∙ grown,
      )
