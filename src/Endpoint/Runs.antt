-- ===== src/Endpoint/Runs.antt =====
-- A run of the router's ingress: frames at any endpoints, rotations of the deduplicator and changes
-- of the routing table in any order, and what is published.
use mavrouter.Prelude.{
  ℕ, refl, sym, ap, subst, inl, inr, Bool, true, false, not, List, [], Bool-cases, ◌<◌, ◌≡◌, ◌∙◌,
  ◌&&◌, ◌∷◌, if◌then◌else◌, nat_eq,
}
use mavrouter.Mavlink.{MavMessage}
use mavrouter.Framing.{MavlinkFrame}
use mavrouter.Routing.Time.{Duration}
use mavrouter.Routing.Table.{RouteUpdate, RoutingTable}
use mavrouter.Dedup.{new_concurrent, bucket_count, rotate_buckets, check_and_insert_concurrent}
use mavrouter.Dedup.Window.{Window, empty_window, accept, turn}
use mavrouter.Dedup.Sharded.{Follows, check-Follows, rotate_buckets-Follows, new_concurrent-Follows}
use mavrouter.Endpoint.{
  RoutedMessage, EndpointCore, Shared, TrySend, Clock, accept_frame, observe_route, publish_frame,
  handle_incoming_frame, routed_message,
}
use mavrouter.Endpoint.Bus.{IsBus}
use mavrouter.Endpoint.Ingress.{
  observe_route-others, handle_rejected, handle_duplicate, handle_published,
}

-- A frame at an endpoint, a tick of the rotation task, or a routing table that the updater left.
pub data Event : Type 0 where
  arrive : Clock → EndpointCore → MavlinkFrame → Event
  rotate : Event
  reroute : RoutingTable → Event

module _ (ahash_hash : List ℕ → ℕ) (message_id_of : MavMessage → ℕ) where
  -- What is published, newest first: each accepted frame that the window does not hold.
  unfoldable pub published : Window → List RoutedMessage → List Event → List RoutedMessage
  published w out [] = out
  published w out (arrive clock core frame ∷ events) =
      let hash = ahash_hash frame.raw_bytes in
      let id = message_id_of frame.message in
      let message = routed_message clock core frame id in
      let accepted = accept_frame core frame.header id in
      published (if accepted then (accept w hash).0 else w)
        (if accepted && not (accept w hash).1 then message ∷ out else out) events
  published w out (rotate ∷ events) = published (turn w) out events
  published w out (reroute table ∷ events) = published w out events

module _ {Bus Queue : Type 0} (ahash_hash : List ℕ → ℕ) (message_id_of : MavMessage → ℕ)
    (send : Bus → RoutedMessage → Bus × Bool)
    (try_send : Queue → RouteUpdate → Queue × TrySend) where
  unfoldable pub step : Shared Bus Queue → Event → Shared Bus Queue
  step shared (arrive clock core frame) =
      (handle_incoming_frame ahash_hash message_id_of send try_send clock shared core frame).0
  step shared rotate = record shared { dedup = rotate_buckets shared.dedup }
  step shared (reroute table) = record shared { routing_table = table }

  unfoldable pub run : Shared Bus Queue → List Event → Shared Bus Queue
  unfolding step
  run shared [] = shared
  run shared (event ∷ events) = run (step shared event) events

  module _ (bus : IsBus send) where
    -- The deduplicator follows the window, and somebody listens.
    abbrev pub Ready : Shared Bus Queue → Window → Type 0
    Ready shared w = Follows shared.dedup w × (0 < bus.receivers shared.bus_tx)

    publish_frame-sent :
        (clock : Clock) (shared : Shared Bus Queue) (core : EndpointCore) (frame : MavlinkFrame)
        (w : Window)
        → Ready shared w
        → let after =
            (publish_frame ahash_hash message_id_of send try_send clock shared core frame
              (message_id_of frame.message)).0 in
          Ready after w
          × (bus.sent after.bus_tx
              ≡ routed_message clock core frame (message_id_of frame.message)
                ∷ bus.sent shared.bus_tx)
    unfolding publish_frame
    publish_frame-sent clock shared core frame w (f, on) =
        let m = routed_message clock core frame (message_id_of frame.message) in
        let (taken, grown) = bus.delivers shared.bus_tx m on in
        rw taken ((f, rw (bus.keeps shared.bus_tx m) on), grown)

    -- A frame is published exactly if it is accepted and the window does not hold it.
    pub arrive-sent :
        (clock : Clock) (shared : Shared Bus Queue) (core : EndpointCore) (frame : MavlinkFrame)
        (w : Window)
        → Ready shared w
        → let hash = ahash_hash frame.raw_bytes in
          let id = message_id_of frame.message in
          let accepted = accept_frame core frame.header id in
          let after =
            (handle_incoming_frame ahash_hash message_id_of send try_send clock shared core
              frame).0 in
          Ready after (if accepted then (accept w hash).0 else w)
          × (bus.sent after.bus_tx ≡ (
              if accepted && not (accept w hash).1
              then routed_message clock core frame id ∷ bus.sent shared.bus_tx
              else bus.sent shared.bus_tx))
    arrive-sent clock shared core frame w (f, on) =
        let hash = ahash_hash frame.raw_bytes in
        let id = message_id_of frame.message in
        let reply = check_and_insert_concurrent ahash_hash shared.dedup frame.raw_bytes in
        let asked : Shared Bus Queue = record shared { dedup = reply.0 } in
        let observed =
          observe_route ahash_hash message_id_of send try_send clock asked core frame.header in
        let (same_reply, g) = check-Follows ahash_hash shared.dedup w frame.raw_bytes f in
        elim (Bool-cases (accept_frame core frame.header id)) [
          | inr rejected ↦
              rw
                (
                  handle_rejected ahash_hash message_id_of send try_send bus clock shared core frame
                      rejected,
                  rejected,
                )
                ((f, on), refl)
          | inl accepted ↦ elim (Bool-cases reply.1) [
            | inl duplicate ↦
                let told : (accept w hash).1 ≡ true = sym same_reply ∙ duplicate in
                rw
                  (
                    handle_duplicate ahash_hash message_id_of send try_send bus clock shared core
                        frame accepted duplicate,
                    accepted,
                    told,
                  )
                  ((g, on), refl)
            | inr fresh ↦
                let told : (accept w hash).1 ≡ false = sym same_reply ∙ fresh in
                let (bus_same, dedup_same, table_same) =
                  observe_route-others ahash_hash message_id_of send try_send bus clock asked core
                    frame.header in
                let ready : Ready observed (accept w hash).0 = (
                  subst (λ d. Follows d (accept w hash).0) (sym dedup_same) g,
                  subst (λ b. 0 < bus.receivers b) (sym bus_same) on,
                ) in
                let (after, grown) =
                  publish_frame-sent clock observed core frame (accept w hash).0 ready in
                rw
                  (
                    handle_published ahash_hash message_id_of send try_send bus clock shared core
                        frame accepted fresh,
                    accepted,
                    told,
                  )
                  (
                    after,
                    grown ∙ ap (λ b. routed_message clock core frame id ∷ bus.sent b) bus_same,
                  )
          ]
        ]

    run-sent :
        (events : List Event) (shared : Shared Bus Queue) (w : Window)
        → Ready shared w
        → bus.sent (run shared events).bus_tx
          ≡ published ahash_hash message_id_of w (bus.sent shared.bus_tx) events
    unfolding run published
    run-sent [] shared w r = refl
    run-sent (arrive clock core frame ∷ events) shared w r =
        let (ready, out) = arrive-sent clock shared core frame w r in
        run-sent events _ _ ready
        ∙ ap
            (λ xs.
              published ahash_hash message_id_of
                (if accept_frame core frame.header (message_id_of frame.message)
                  then (accept w (ahash_hash frame.raw_bytes)).0
                  else w)
                xs events)
            out
    run-sent (rotate ∷ events) shared w r =
        run-sent events _ (turn w) (rotate_buckets-Follows shared.dedup w r.0, r.1)
    run-sent (reroute table ∷ events) shared w r = run-sent events _ w r

    pub run-published :
        (period : Duration) (shared : Shared Bus Queue) (events : List Event)
        → 0 < period
        → shared.dedup ≡ new_concurrent period
        → 0 < bus.receivers shared.bus_tx
        → bus.sent (run shared events).bus_tx
          ≡ published ahash_hash message_id_of
              (empty_window (bucket_count period))
              (bus.sent shared.bus_tx)
              events
    run-published period shared events h e on = run-sent events shared _ (
      subst (λ d. Follows d (empty_window (bucket_count period))) (sym e)
          (new_concurrent-Follows period h),
      on,
    )
