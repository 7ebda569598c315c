-- ===== src/Relay/Delivered.antt =====
-- From the frames that come in to the messages that each endpoint writes.
use mavrouter.Prelude.{
  ℕ, refl, sym, ap, subst, inl, inr, Bool, List, [], ◌<◌, ◌≡◌, ◌∙◌, ◌∷◌, if◌then◌else◌, nat_eq,
}
use mavrouter.Mavlink.{MavMessage}
use mavrouter.Routing.Time.{Duration}
use mavrouter.Routing.Table.{RouteUpdate, RoutingTable}
use mavrouter.Dedup.{new_concurrent, bucket_count}
use mavrouter.Dedup.Window.{Window, empty_window, accept, turn}
use mavrouter.Dedup.Sharded.{Follows, rotate_buckets-Follows, new_concurrent-Follows}
use mavrouter.Endpoint.{RoutedMessage, EndpointCore, TrySend, new_stats, accept_frame}
use mavrouter.Endpoint.Runs
use mavrouter.Endpoint.Runs.{published}
use mavrouter.Relay.{Relay, Delivery, Event, arrive, rotate, reroute, forward, run}
use mavrouter.Relay.Broadcast.{IsBroadcast}
use mavrouter.Relay.Accounts.{Accounted, IsPass, start-Accounted}
use mavrouter.Relay.Invariant.{Inv}
use mavrouter.Relay.Ingress.{arrive-Inv}
use mavrouter.Relay.Egress.{forward-Inv}

-- What the events bring to the router.
abbrev pub ingress : (ℕ → EndpointCore) → List Event → List Runs.Event
ingress first [] = []
ingress first (arrive clock i frame ∷ events) =
    Runs.arrive clock (first i) frame ∷ ingress first events
ingress first (rotate ∷ events) = Runs.rotate ∷ ingress first events
ingress first (reroute table ∷ events) = Runs.reroute table ∷ ingress first events
ingress first (forward i sends ∷ events) = ingress first events

module _ {Bus Queue : Type 0} (ahash_hash : List ℕ → ℕ) (message_id_of : MavMessage → ℕ)
    (send : Bus → RoutedMessage → Bus × Bool) (recv : Bus → ℕ → Bus × Delivery)
    (try_send : Queue → RouteUpdate → Queue × TrySend) (bc : IsBroadcast send recv) where
  abbrev ran : Relay Bus Queue → List Event → Relay Bus Queue
  ran = run ahash_hash message_id_of send recv try_send

  -- What is published, and the accounts of an endpoint.
  abbrev Relayed :
      (RoutingTable → List Bool → Type 0)
      → (ℕ → EndpointCore)
      → List RoutedMessage
      → ℕ
      → Window
      → Relay Bus Queue
      → List Event
      → Type 0
  Relayed Had first earlier j w r events =
      let after = ran r events in
      (bc.bus.sent after.shared.bus_tx
        ≡ published ahash_hash message_id_of w (bc.bus.sent r.shared.bus_tx) (ingress first events))
      × Accounted Had (first j) earlier (bc.bus.sent after.shared.bus_tx)
          (bc.pending after.shared.bus_tx j) (after.written j) (after.cores j).stats

  module _ (Had : RoutingTable → List Bool → Type 0) (first : ℕ → EndpointCore)
      (earlier : List RoutedMessage) (j : ℕ) where
    -- `Had` holds for the passes of the endpoint.
    abbrev AreHad : RoutingTable → List Event → Type 0
    AreHad now events =
        (rt : RoutingTable) (sends : List Bool) → IsPass j now events rt sends → Had rt sends

    run-Relayed :
        (events : List Event) (r : Relay Bus Queue) (w : Window)
        → AreHad r.shared.routing_table events
        → Inv bc Had first earlier j w r
        → Relayed Had first earlier j w r events
    unfolding run published
    run-Relayed [] r w had inv = (refl, inv.account)
    run-Relayed (arrive clock i frame ∷ events) r w had inv =
        let (next, table, grown) =
          arrive-Inv ahash_hash message_id_of send recv try_send bc Had first earlier j clock i
            frame w r inv in
        let accepted = accept_frame (first i) frame.header (message_id_of frame.message) in
        let w' = if accepted then (accept w (ahash_hash frame.raw_bytes)).0 else w in
        let (out, accounts) =
          run-Relayed events _ w' (subst (λ rt. AreHad rt events) (sym table) had) next in
        (
          out ∙ ap (λ ms. published ahash_hash message_id_of w' ms (ingress first events)) grown,
          accounts,
        )
    run-Relayed (rotate ∷ events) r w had inv = run-Relayed events _ (turn w) had (record {
      follows = rotate_buckets-Follows r.shared.dedup w inv.follows;
      listening = inv.listening;
      same = inv.same;
      account = inv.account;
    })
    run-Relayed (reroute table ∷ events) r w had inv = run-Relayed events _ w had (record {
      follows = inv.follows;
      listening = inv.listening;
      same = inv.same;
      account = inv.account;
    })
    run-Relayed (forward i sends ∷ events) r w had inv =
        let (next, table, same) =
          forward-Inv ahash_hash message_id_of send recv try_send bc Had first earlier j r sends i w
            (λ here. had r.shared.routing_table sends (inl (sym here, refl, refl))) inv in
        let (out, accounts) =
          run-Relayed events _ w
            (subst (λ rt. AreHad rt events) (sym table) (λ rt given pass. had rt given (inr pass)))
            next in
        (
          out ∙ ap (λ ms. published ahash_hash message_id_of w ms (ingress first events)) same,
          accounts,
        )

  -- From a new deduplicator of a period above zero, on a bus that somebody listens to and as
  -- documented, and for an endpoint that has just begun to listen, with its counters at zero: in
  -- whatever order frames come in at any endpoints, rotations and routing tables come, and any
  -- endpoint makes a pass of its sending loop. What is published are the accepted frames that the
  -- window does not hold. Each published message is, for the endpoint and in this order, taken or
  -- still pending. Each that it has taken was counted as missed, or taken in one of its passes: if
  -- it is for the endpoint by the table that the router had then, it was written to each of the
  -- endpoint's addresses that took it in that pass, and each other address counts as an error; if
  -- it is not for it by that table, it was withheld. The endpoint has written nothing else, and in
  -- the order of publication; and its counters are the numbers of writes, of messages missed and
  -- of failed writes, as 64-bit counters that wrap.
  pub run-Accounted :
      (period : Duration) (j : ℕ) (r : Relay Bus Queue) (events : List Event)
      → 0 < period
      → r.shared.dedup ≡ new_concurrent period
      → 0 < bc.bus.receivers r.shared.bus_tx
      → bc.pending r.shared.bus_tx j ≡ []
      → r.written j ≡ []
      → (r.cores j).stats ≡ new_stats
      → let after = ran r events in
        (bc.bus.sent after.shared.bus_tx
          ≡ published ahash_hash message_id_of
              (empty_window (bucket_count period))
              (bc.bus.sent r.shared.bus_tx)
              (ingress r.cores events))
        × Accounted
            (IsPass j r.shared.routing_table events)
            (r.cores j)
            (bc.bus.sent r.shared.bus_tx)
            (bc.bus.sent after.shared.bus_tx)
            (bc.pending after.shared.bus_tx j)
            (after.written j)
            (after.cores j).stats
  run-Accounted period j r events h e on caught_up none_written zeroed =
      let Had = IsPass j r.shared.routing_table events in
      let sent = bc.bus.sent r.shared.bus_tx in
      run-Relayed Had r.cores sent j events r (empty_window (bucket_count period))
        (λ rt sends pass. pass)
        (record {
          follows =
              subst (λ d. Follows d (empty_window (bucket_count period))) (sym e)
                (new_concurrent-Follows period h);
          listening = on;
          same = λ i. ((r.cores i).stats, refl);
          account =
              start-Accounted Had (r.cores j) sent (bc.pending r.shared.bus_tx j) (r.written j)
                (r.cores j).stats caught_up none_written zeroed;
        })
