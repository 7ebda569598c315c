-- ===== src/Endpoint/Ingress.antt =====
-- What the handling of one frame does to the bus, the deduplicator and the counters.
use mavrouter.Prelude.{
  ℕ, refl, subst, inl, inr, Bool, true, false, List, arith, ltb, ltb→lt, Bool-cases, length, ◌≡◌,
  ◌⊎◌, ◌∷◌, nat_eq,
}
use mavrouter.Mavlink.{MavMessage, MavHeader}
use mavrouter.Framing.{MavlinkFrame}
use mavrouter.Routing.Table.{RouteUpdate}
use mavrouter.Dedup.{check_and_insert_concurrent}
use mavrouter.Endpoint.{
  RoutedMessage, EndpointCore, Shared, TrySend, Clock, fetch_add, accept_frame, routed_message,
  observe_route, publish_frame, is_duplicate_frame, handle_incoming_frame,
}
use mavrouter.Endpoint.Bus.{IsBus}

-- One more message that came in, and its bytes.
abbrev pub counted_in : EndpointCore → ℕ → EndpointCore
counted_in core bytes =
    let stats = core.stats in
    record core {
      stats = record stats {
        msgs_in = fetch_add stats.msgs_in 1;
        bytes_in = fetch_add stats.bytes_in bytes;
      };
    }

module _ {Bus Queue : Type 0} (ahash_hash : List ℕ → ℕ) (message_id_of : MavMessage → ℕ)
    (send : Bus → RoutedMessage → Bus × Bool) (try_send : Queue → RouteUpdate → Queue × TrySend)
    (bus : IsBus send) where
  -- The message that the frame would be on the bus.
  abbrev pub message_for : Clock → EndpointCore → MavlinkFrame → RoutedMessage
  message_for clock core frame = routed_message clock core frame (message_id_of frame.message)

  pub observe_route-others :
      (clock : Clock) (shared : Shared Bus Queue) (core : EndpointCore) (header : MavHeader)
      → let after = observe_route ahash_hash message_id_of send try_send clock shared core header in
        (after.bus_tx ≡ shared.bus_tx)
        × (after.dedup ≡ shared.dedup)
        × (after.routing_table ≡ shared.routing_table)
  unfolding observe_route
  observe_route-others clock shared core header = (ground arith, ground arith, ground arith)

  -- The bus and the core after a frame: nothing was published and the core is the same, or exactly
  -- this frame was published and one message and its bytes were counted.
  abbrev pub Counted :
      Clock → Bus → EndpointCore → MavlinkFrame → Shared Bus Queue × EndpointCore → Type 0
  Counted clock before core frame r =
      ((bus.sent r.0.bus_tx ≡ bus.sent before) × (r.1 ≡ core))
      ⊎ ((bus.sent r.0.bus_tx ≡ message_for clock core frame ∷ bus.sent before)
          × (r.1 ≡ counted_in core (length frame.raw_bytes)))

  publish_frame-Counted :
      (clock : Clock) (shared : Shared Bus Queue) (core : EndpointCore) (frame : MavlinkFrame)
      → Counted clock shared.bus_tx core frame (
          publish_frame ahash_hash message_id_of send try_send clock shared core frame
            (message_id_of frame.message))
  unfolding publish_frame
  publish_frame-Counted clock shared core frame =
      let m = message_for clock core frame in
      elim (Bool-cases (ltb 0 (bus.receivers shared.bus_tx))) [
        | inl some_receiver ↦
            let (taken, grown) = bus.delivers shared.bus_tx m (ltb→lt _ _ some_receiver) in
            rw taken (inr (grown, refl))
        | inr no_receiver ↦
            let (refused, same) = bus.refuses shared.bus_tx m (ground arith) in
            rw refused (inl (same, refl))
      ]

  -- The three ways through the pipeline.
  pub handle_rejected :
      (clock : Clock) (shared : Shared Bus Queue) (core : EndpointCore) (frame : MavlinkFrame)
      → accept_frame core frame.header (message_id_of frame.message) ≡ false
      → handle_incoming_frame ahash_hash message_id_of send try_send clock shared core frame
        ≡ (shared, core)
  unfolding handle_incoming_frame
  handle_rejected clock shared core frame e = rw e refl

  pub handle_duplicate :
      (clock : Clock) (shared : Shared Bus Queue) (core : EndpointCore) (frame : MavlinkFrame)
      → accept_frame core frame.header (message_id_of frame.message) ≡ true
      → (check_and_insert_concurrent ahash_hash shared.dedup frame.raw_bytes).1 ≡ true
      → handle_incoming_frame ahash_hash message_id_of send try_send clock shared core frame ≡ (
        record shared {
          dedup = (check_and_insert_concurrent ahash_hash shared.dedup frame.raw_bytes).0;
        },
        core,
      )
  unfolding handle_incoming_frame is_duplicate_frame
  handle_duplicate clock shared core frame e d = rw (e, d) refl

  pub handle_published :
      (clock : Clock) (shared : Shared Bus Queue) (core : EndpointCore) (frame : MavlinkFrame)
      → accept_frame core frame.header (message_id_of frame.message) ≡ true
      → (check_and_insert_concurrent ahash_hash shared.dedup frame.raw_bytes).1 ≡ false
      → handle_incoming_frame ahash_hash message_id_of send try_send clock shared core frame
        ≡ publish_frame ahash_hash message_id_of send try_send clock
            (observe_route ahash_hash message_id_of send try_send clock
              (record shared {
                dedup = (check_and_insert_concurrent ahash_hash shared.dedup frame.raw_bytes).0;
              })
              core
              frame.header)
            core
            frame
            (message_id_of frame.message)
  unfolding handle_incoming_frame is_duplicate_frame
  handle_published clock shared core frame e d = rw (e, d) refl

  -- On every bus that delivers while it has receivers, the counters of an endpoint move with the
  -- bus: a frame that is not published leaves them alone, and a frame that is published counts
  -- once, with its length, as 64-bit counters that wrap; no other counter moves, and nothing else
  -- of the endpoint changes.
  pub handle_incoming_frame-Counted :
      (clock : Clock) (shared : Shared Bus Queue) (core : EndpointCore) (frame : MavlinkFrame)
      → Counted clock shared.bus_tx core frame
          (handle_incoming_frame ahash_hash message_id_of send try_send clock shared core frame)
  handle_incoming_frame-Counted clock shared core frame =
      let id = message_id_of frame.message in
      let reply = check_and_insert_concurrent ahash_hash shared.dedup frame.raw_bytes in
      let asked : Shared Bus Queue = record shared { dedup = reply.0 } in
      let observed =
        observe_route ahash_hash message_id_of send try_send clock asked core frame.header in
      elim (Bool-cases (accept_frame core frame.header id)) [
        | inr rejected ↦ rw (handle_rejected clock shared core frame rejected) (inl (refl, refl))
        | inl accepted ↦ elim (Bool-cases reply.1) [
          | inl duplicate ↦
              rw (handle_duplicate clock shared core frame accepted duplicate) (inl (refl, refl))
          | inr fresh ↦ rw (handle_published clock shared core frame accepted fresh) (
              subst
                (λ b. Counted clock b core frame (
                  publish_frame ahash_hash message_id_of send try_send clock observed core frame
                    id))
                (observe_route-others clock asked core frame.header).0
                (publish_frame-Counted clock observed core frame))
        ]
      ]
