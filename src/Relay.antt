-- ===== src/Relay.antt =====
-- src/router.rs, src/endpoint_core.rs and the loops that send, of src/endpoints/udp.rs: endpoints that
-- share one bus. Each has its receiver on the bus, a `tokio::sync::broadcast` channel, which is a
-- parameter. A message goes to each of an endpoint's addresses, all clients of a server or the one
-- target of a client; whether each write succeeds is given.
pub mod Broadcast
pub mod Accounts
pub mod Invariant
pub mod Ingress
pub mod Egress
pub mod Delivered
use mavrouter.Prelude.{
  ℕ, refl, Bool, List, [], arith, length, ◌≡◌, ◌≢◌, ◌∷◌, ◌==◌, if◌then◌else◌, nat_eq,
}
use mavrouter.Mavlink.{MavMessage}
use mavrouter.Framing.{MavlinkFrame}
use mavrouter.Routing.Table.{RouteUpdate, RoutingTable}
use mavrouter.Dedup.{rotate_buckets}
use mavrouter.StreamLoop.{count_error, count_lagged, count_outgoing}
use mavrouter.Endpoint.{
  RoutedMessage, EndpointCore, Shared, TrySend, Clock, check_outgoing_message,
  handle_incoming_frame,
}

-- What `recv` gives; `nothing` is that it waits.
pub data Delivery : Type 0 where
  got : (msg : RoutedMessage) → Delivery
  missed : (n : ℕ) → Delivery
  nothing : Delivery

-- The endpoints by their numbers, and what was written to the transport of each, newest first.
pub record Relay (Bus Queue : Type 0) : Type 0 where
  pub shared : Shared Bus Queue
  pub cores : ℕ → EndpointCore
  pub written : ℕ → List RoutedMessage

abbrev pub set_at {ℓ} : {A : Type ℓ} → (ℕ → A) → ℕ → A → ℕ → A
set_at f i a k = if k == i then a else f k

-- A frame at an endpoint; a tick of the rotation task; a routing table that the updater left; a
-- pass of an endpoint's sending loop, and whether each of its addresses takes what is written.
pub data Event : Type 0 where
  arrive : (clock : Clock) (i : ℕ) (frame : MavlinkFrame) → Event
  rotate : Event
  reroute : (table : RoutingTable) → Event
  forward : (i : ℕ) (sends : List Bool) → Event

module _ {Bus Queue : Type 0} where
  abbrev with_core : Relay Bus Queue → ℕ → EndpointCore → Relay Bus Queue
  with_core r i core = record r { cores = set_at r.cores i core }

  -- A message to one address: written and counted, or an error.
  abbrev pub write_to : Relay Bus Queue → ℕ → RoutedMessage → Bool → Relay Bus Queue
  write_to r i msg takes =
      if takes
      then record r {
        cores = set_at r.cores i (count_outgoing (r.cores i) (length msg.serialized_bytes));
        written = set_at r.written i (msg ∷ r.written i);
      }
      else with_core r i (count_error (r.cores i))

  -- To all addresses, one after the other.
  unfoldable pub write : Relay Bus Queue → ℕ → RoutedMessage → List Bool → Relay Bus Queue
  write r i msg [] = r
  write r i msg (takes ∷ sends) = write (write_to r i msg takes) i msg sends

  unfoldable pub on_delivery : Relay Bus Queue → ℕ → List Bool → Delivery → Relay Bus Queue
  unfolding write
  on_delivery r i sends (got msg) =
      if check_outgoing_message r.shared.routing_table (r.cores i) msg
      then write r i msg sends
      else r
  on_delivery r i sends (missed n) = with_core r i (count_lagged (r.cores i) n)
  on_delivery r i sends nothing = r

module _ {Bus Queue : Type 0} (ahash_hash : List ℕ → ℕ) (message_id_of : MavMessage → ℕ)
    (send : Bus → RoutedMessage → Bus × Bool) (recv : Bus → ℕ → Bus × Delivery)
    (try_send : Queue → RouteUpdate → Queue × TrySend) where
  unfoldable pub step : Relay Bus Queue → Event → Relay Bus Queue
  step r (arrive clock i frame) =
      let handled =
        handle_incoming_frame ahash_hash message_id_of send try_send clock r.shared (r.cores i)
          frame in
      record r { shared = handled.0; cores = set_at r.cores i handled.1 }
  step r rotate =
      let shared = r.shared in
      record r { shared = record shared { dedup = rotate_buckets shared.dedup } }
  step r (reroute table) =
      let shared = r.shared in record r { shared = record shared { routing_table = table } }
  step r (forward i sends) =
      let shared = r.shared in
      let received = recv shared.bus_tx i in
      on_delivery (record r { shared = record shared { bus_tx = received.0 } }) i sends received.1

  unfoldable pub run : Relay Bus Queue → List Event → Relay Bus Queue
  unfolding step
  run r [] = r
  run r (event ∷ events) = run (step r event) events

pub set_at_self {ℓ} : {A : Type ℓ} (f : ℕ → A) (i : ℕ) (a : A) → set_at f i a i ≡ a
set_at_self f i a = ground arith

pub set_at_ne {ℓ} : {A : Type ℓ} (f : ℕ → A) (i k : ℕ) (a : A) → k ≢ i → set_at f i a k ≡ f k
set_at_ne f i k a h = ground arith
