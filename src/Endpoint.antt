-- ===== src/Endpoint.antt =====
-- src/endpoint_core.rs, its stats and spawn_context, and src/router.rs: what an endpoint does with
-- a frame that comes in, and which messages of the bus it sends out. The bus and the queue of
-- route updates are tokio channels: parameters, as are the crate's message ids and the hash.
pub mod Bus
pub mod Outgoing
pub mod Ingress
pub mod Runs
pub mod Receiving
pub mod Display
use mavrouter.Prelude.{
  ℕ, min, Bool, true, false, not, List, length, ◌+◌, ◌-◌, ◌*◌, ◌/◌, ◌%◌, ◌^◌, ◌==◌, if◌then◌else◌,
  nat_eq,
}
use mavrouter.Mavlink.{MavHeader, MavMessage, MavlinkVersion, MessageTarget, extract_target}
use mavrouter.Filter.{EndpointFilters, check_incoming, check_outgoing}
use mavrouter.Framing.{MavlinkFrame}
use mavrouter.Routing.Time.{Instant, Duration}
use mavrouter.Routing.Table.{RoutingTable, RouteUpdate, needs_update_for_endpoint, should_send}
use mavrouter.Dedup.{ConcurrentDedup, check_and_insert_concurrent}

pub record RoutedMessage : Type 0 where
  pub source_id : ℕ
  pub header : MavHeader
  pub message_id : ℕ
  pub version : MavlinkVersion
  pub timestamp_us : ℕ
  pub serialized_bytes : List ℕ
  pub target : MessageTarget

-- The counters are `AtomicU64`: `fetch_add` wraps.
pub record EndpointStats : Type 0 where
  pub msgs_in : ℕ
  pub msgs_out : ℕ
  pub bytes_in : ℕ
  pub bytes_out : ℕ
  pub errors : ℕ
  pub bus_lagged : ℕ

abbrev pub new_stats : EndpointStats
new_stats = record {
  msgs_in = 0;
  msgs_out = 0;
  bytes_in = 0;
  bytes_out = 0;
  errors = 0;
  bus_lagged = 0;
}

abbrev pub fetch_add : ℕ → ℕ → ℕ
fetch_add counter n = (counter + n) % 2 ^ 64

unfoldable pub record_outgoing : EndpointStats → ℕ → EndpointStats
record_outgoing stats bytes = record stats {
  msgs_out = fetch_add stats.msgs_out 1;
  bytes_out = fetch_add stats.bytes_out bytes;
}

-- What an endpoint has of its own: its id, its filters, its counters.
pub record EndpointCore : Type 0 where
  pub id : ℕ
  pub filters : EndpointFilters
  pub update_routing : Bool
  pub stats : EndpointStats

-- What all endpoints share behind their `Arc`s and channel senders.
pub record Shared (Bus Queue : Type 0) : Type 0 where
  pub bus_tx : Bus
  pub routing_table : RoutingTable
  pub route_update_tx : Queue
  pub dedup : ConcurrentDedup

-- `mpsc::error::TrySendError`, or none.
pub data TrySend : Type 0 where
  sent : TrySend
  full : TrySend
  closed : TrySend

unfoldable pub child_for_client : EndpointCore → ℕ → EndpointStats → EndpointCore
child_for_client core client_id stats = record {
  id = client_id;
  filters = core.filters;
  update_routing = true;
  stats = stats;
}

-- The longest `Duration`, to which `saturating_add` saturates.
abbrev duration_max : Duration
duration_max = (2 ^ 64 - 1) * 1_000_000_000 + 999_999_999

-- The microseconds since the epoch, from the time at which the clock was captured and the time
-- that has elapsed since.
unfoldable pub timestamp_us_fast : Duration → Duration → ℕ
timestamp_us_fast start_unix elapsed =
    min (min (start_unix + elapsed) duration_max / 1_000) (2 ^ 64 - 1)

-- The clocks as the handling of one frame reads them.
pub record Clock : Type 0 where
  pub now : Instant
  pub start_unix : Duration
  pub elapsed : Duration

unfoldable pub accept_frame : EndpointCore → MavHeader → ℕ → Bool
accept_frame core header message_id =
    if header.system_id == 0 then false else check_incoming core.filters header message_id

unfoldable pub routed_message : Clock → EndpointCore → MavlinkFrame → ℕ → RoutedMessage
routed_message clock core frame message_id = record {
  source_id = core.id;
  header = frame.header;
  message_id = message_id;
  version = frame.version;
  timestamp_us = timestamp_us_fast clock.start_unix clock.elapsed;
  serialized_bytes = frame.raw_bytes;
  target = extract_target frame.message;
}

unfoldable pub route_update : Clock → EndpointCore → MavHeader → RouteUpdate
route_update clock core header = record {
  endpoint_id = core.id;
  sys_id = header.system_id;
  comp_id = header.component_id;
  now = clock.now;
}

unfoldable pub check_outgoing_message : RoutingTable → EndpointCore → RoutedMessage → Bool
unfolding check_outgoing should_send
check_outgoing_message rt core msg =
    if msg.source_id == core.id
    then false
    else if not (check_outgoing core.filters msg.header msg.message_id)
    then false
    else if msg.target.system_id == 0
    then true
    else should_send rt core.id msg.target.system_id msg.target.component_id

module _ {Bus Queue : Type 0} (ahash_hash : List ℕ → ℕ) (message_id_of : MavMessage → ℕ)
    (send : Bus → RoutedMessage → Bus × Bool)
    (try_send : Queue → RouteUpdate → Queue × TrySend) where
  -- Whether the frame is a duplicate, and the deduplicator after the question.
  unfoldable pub is_duplicate_frame : Shared Bus Queue → MavlinkFrame → Shared Bus Queue × Bool
  is_duplicate_frame shared frame =
      let reply = check_and_insert_concurrent ahash_hash shared.dedup frame.raw_bytes in
      (record shared { dedup = reply.0 }, reply.1)

  -- A full or a closed queue drops the observation.
  unfoldable pub observe_route :
      Clock → Shared Bus Queue → EndpointCore → MavHeader → Shared Bus Queue
  observe_route clock shared core header =
      if not core.update_routing
      then shared
      else if not (
          needs_update_for_endpoint shared.routing_table core.id header.system_id
            header.component_id clock.now)
      then shared
      else record shared {
        route_update_tx = (try_send shared.route_update_tx (route_update clock core header)).0;
      }

  -- The counters move only if the bus took the message.
  unfoldable pub publish_frame :
      Clock → Shared Bus Queue → EndpointCore → MavlinkFrame → ℕ → Shared Bus Queue × EndpointCore
  publish_frame clock shared core frame message_id =
      let result = send shared.bus_tx (routed_message clock core frame message_id) in
      let published = record shared { bus_tx = result.0 } in
      let stats = core.stats in
      let counted = record stats {
        msgs_in = fetch_add stats.msgs_in 1;
        bytes_in = fetch_add stats.bytes_in (length frame.raw_bytes);
      } in
      if result.1 then (published, record core { stats = counted }) else (published, core)

  unfoldable pub handle_incoming_frame :
      Clock → Shared Bus Queue → EndpointCore → MavlinkFrame → Shared Bus Queue × EndpointCore
  handle_incoming_frame clock shared core frame =
      let message_id = message_id_of frame.message in
      if not (accept_frame core frame.header message_id)
      then (shared, core)
      else let duplicate = is_duplicate_frame shared frame in
        if duplicate.1
        then (duplicate.0, core)
        else publish_frame clock (observe_route clock duplicate.0 core frame.header) core frame
            message_id
