-- ===== src/Udp.antt =====
-- src/endpoints/udp.rs: datagrams in and out, the clients of a server and the peer of a broadcasting
-- client. The socket is tokio's: what it receives, and whether it sends, is in the events of a
-- list, with the times that the handlers read.
pub mod Clients
pub mod Peer
pub mod Opening
use mavrouter.Prelude.{
  ℕ, Bool, true, false, not, Option, none, some, List, [], map, arith, ltb, nat_beq, length, take,
  Eq, ◌-◌, ◌≡◌, ◌↔◌, ◌&&◌, ◌||◌, ◌∷◌, ◌==◌, if◌then◌else◌, nat_eq,
}
use Prim.Native.String.{String}
use mavrouter.Prelude.Maps.{put, retain}
use mavrouter.Mavlink.{MavMessage, v1, v2}
use mavrouter.Framing.{MavlinkFrame, ReadResult}
use mavrouter.Framing
use mavrouter.Routing.Time.{Instant, Duration, from_secs}
use mavrouter.Routing.Table.{RouteUpdate}
use mavrouter.Config.{
  Result, ok, err, EndpointMode, client, server, network, invalid_remote_address,
  unresolved_remote_address, and_then,
}
use mavrouter.Orchestration.{Context, endpoint_core}
use mavrouter.Endpoint.{
  Clock, RoutedMessage, EndpointStats, EndpointCore, Shared, TrySend, fetch_add, record_outgoing,
  check_outgoing_message, handle_incoming_frame,
}

-- `std::net::SocketAddr`.
pub data SocketAddr : Type 0 where
  v4 : (a b c d port : ℕ) → SocketAddr
  v6 : (ip port flowinfo scope_id : ℕ) → SocketAddr

abbrev addr_beq : SocketAddr → SocketAddr → Bool
addr_beq (v4 a b c d port) (v4 a' b' c' d' port') =
    nat_beq a a' && (nat_beq b b' && (nat_beq c c' && (nat_beq d d' && nat_beq port port')))
addr_beq (v4 a b c d port) (v6 ip' port' flow' scope') = false
addr_beq (v6 ip port flow scope) (v4 a' b' c' d' port') = false
addr_beq (v6 ip port flow scope) (v6 ip' port' flow' scope') =
    nat_beq ip ip' && (nat_beq port port' && (nat_beq flow flow' && nat_beq scope scope'))

pub addr_beq_iff : (x y : SocketAddr) → (addr_beq x y ≡ true) ↔ (x ≡ y)
addr_beq_iff (v4 a b c d port) (v4 a' b' c' d' port') = ground arith
addr_beq_iff (v4 a b c d port) (v6 ip' port' flow' scope') = ground arith
addr_beq_iff (v6 ip port flow scope) (v4 a' b' c' d' port') = ground arith
addr_beq_iff (v6 ip port flow scope) (v6 ip' port' flow' scope') = ground arith

instance abbrev pub addr_eq : Eq SocketAddr
addr_eq = record { beq = addr_beq; beq_iff = addr_beq_iff }

unfoldable pub client_bind_addr : SocketAddr → String
client_bind_addr (v4 a b c d port) = "0.0.0.0:0"
client_bind_addr (v6 ip port flow scope) = "[::]:0"

unfoldable pub is_broadcast_addr : SocketAddr → Bool
is_broadcast_addr (v4 a b c d port) =
    ((a == 255) && ((b == 255) && ((c == 255) && (d == 255)))) || (d == 255)
is_broadcast_addr (v6 ip port flow scope) = false

-- The local address and the target; `resolved` is what `to_socket_addrs` gives.
unfoldable pub bind_and_target :
    EndpointMode → String → Option (List SocketAddr) → Result (String × Option SocketAddr)
bind_and_target server address resolved = ok (address, none)
bind_and_target client address none = err (invalid_remote_address address)
bind_and_target client address (some []) = err (unresolved_remote_address address)
bind_and_target client address (some (target ∷ addrs)) = ok (client_bind_addr target, some target)

abbrev pub broadcast_mode : Option SocketAddr → Bool
broadcast_mode none = false
broadcast_mode (some target) = is_broadcast_addr target

pub record Udp : Type 0 where
  pub core : EndpointCore
  pub clients : List (SocketAddr × Instant)
  pub broadcast_peer : Option (SocketAddr × Instant)

-- A datagram with the times at which its sender was noted; an error of `recv_from`; a message of the
-- bus, the time, and to which addresses `send_to` succeeds; so many messages that the bus dropped
-- for the endpoint; the tick of the cleanup; what the other tasks of the program do to what all
-- share.
pub data Event (Bus Queue : Type 0) : Type 0 where
  datagram :
      (addr : SocketAddr) (buf : List ℕ) (seen peer_seen : Instant) (clock : Clock)
      → Event Bus Queue
  recv_error : Event Bus Queue
  outgoing : (msg : RoutedMessage) (now : Instant) (sends : SocketAddr → Bool) → Event Bus Queue
  lagged : (n : ℕ) → Event Bus Queue
  cleanup : (now : Instant) → Event Bus Queue
  elsewhere : (shared : Shared Bus Queue) → Event Bus Queue

-- The peer that answers a broadcast.
unfoldable pub track_peer :
    Option SocketAddr
    → SocketAddr
    → Instant
    → Option (SocketAddr × Instant)
    → Option (SocketAddr × Instant)
track_peer none addr now peer = peer
track_peer (some bcast_addr) addr now peer =
    if is_broadcast_addr bcast_addr
    then if not (addr == bcast_addr) && not (is_broadcast_addr addr) then some (addr, now) else peer
    else peer

unfoldable pub send_addr :
    Duration → Instant → SocketAddr → Option (SocketAddr × Instant) → SocketAddr
send_addr broadcast_timeout now target none = target
send_addr broadcast_timeout now target (some (addr, last_seen)) =
    if ltb (now - last_seen) broadcast_timeout then addr else target

-- Where a message goes.
unfoldable pub targets : Duration → Option SocketAddr → Instant → Udp → List SocketAddr
targets broadcast_timeout none now s = map (λ entry. entry.0) s.clients
targets broadcast_timeout (some target) now s =
    if is_broadcast_addr target
    then send_addr broadcast_timeout now target s.broadcast_peer ∷ []
    else target ∷ []

unfoldable pub send_to_all :
    (SocketAddr → Bool) → ℕ → EndpointStats → List SocketAddr → EndpointStats
send_to_all sends pkt_len stats [] = stats
send_to_all sends pkt_len stats (target ∷ addrs) =
    let counted =
      if sends target
      then record_outgoing stats pkt_len
      else record stats { errors = fetch_add stats.errors 1 } in
    send_to_all sends pkt_len counted addrs

-- `retain` of the cleanup.
unfoldable pub clean :
    Duration → Instant → List (SocketAddr × Instant) → List (SocketAddr × Instant)
clean ttl now clients = retain (λ entry. ltb (now - entry.1) ttl) clients

module _ (read_v2_msg read_v1_msg : List ℕ → ReadResult) where
  -- The frame at the beginning of a datagram: version 2, or else version 1.
  unfoldable pub read_frame : List ℕ → Option MavlinkFrame
  read_frame buf = elim (read_v2_msg buf) [
    | Framing.ok header message packet_len ↦ some (record {
      header = header;
      message = message;
      version = v2;
      raw_bytes = take packet_len buf;
    })
    | Framing.err e ↦ elim (read_v1_msg buf) [
      | Framing.ok header message packet_len ↦ some (record {
        header = header;
        message = message;
        version = v1;
        raw_bytes = take packet_len buf;
      })
      | Framing.err e_v1 ↦ none
    ]
  ]

module _ {Bus Queue : Type 0} (ahash_hash : List ℕ → ℕ) (message_id_of : MavMessage → ℕ)
    (send : Bus → RoutedMessage → Bus × Bool) (try_send : Queue → RouteUpdate → Queue × TrySend)
    (read_v2_msg read_v1_msg : List ℕ → ReadResult) (cleanup_ttl broadcast_timeout : Duration)
    (target_addr : Option SocketAddr) where
  abbrev handle_frame :
      Clock
      → Shared Bus Queue
      → EndpointCore
      → Option MavlinkFrame
      → Shared Bus Queue × EndpointCore
  handle_frame clock shared core none = (shared, core)
  handle_frame clock shared core (some frame) =
      handle_incoming_frame ahash_hash message_id_of send try_send clock shared core frame

  -- One pass of the receiving, the sending or the cleaning loop.
  unfoldable pub handle_event : Shared Bus Queue → Udp → Event Bus Queue → Shared Bus Queue × Udp
  handle_event shared s (datagram addr buf seen peer_seen clock) =
      let handled = handle_frame clock shared s.core (read_frame read_v2_msg read_v1_msg buf) in
      (
        handled.0,
        record {
          core = handled.1;
          clients = put addr seen s.clients;
          broadcast_peer = track_peer target_addr addr peer_seen s.broadcast_peer;
        },
      )
  handle_event shared s recv_error =
      let core = s.core in
      let stats = core.stats in
      let counted = record stats { errors = fetch_add stats.errors 1 } in
      (shared, record s { core = record core { stats = counted } })
  handle_event shared s (outgoing msg now sends) =
      let core = s.core in
      let addrs = targets broadcast_timeout target_addr now s in
      let counted = send_to_all sends (length msg.serialized_bytes) core.stats addrs in
      if check_outgoing_message shared.routing_table core msg
      then (shared, record s { core = record core { stats = counted } })
      else (shared, s)
  handle_event shared s (lagged n) =
      let core = s.core in
      let stats = core.stats in
      let counted = record stats { bus_lagged = fetch_add stats.bus_lagged n } in
      (shared, record s { core = record core { stats = counted } })
  handle_event shared s (cleanup now) =
      (shared, record s { clients = clean cleanup_ttl now s.clients })
  handle_event shared s (elsewhere other) = (other, s)

  unfoldable pub run_events :
      Shared Bus Queue → Udp → List (Event Bus Queue) → Shared Bus Queue × Udp
  run_events shared s [] = (shared, s)
  run_events shared s (event ∷ events) =
      let next = handle_event shared s event in run_events next.0 next.1 events

-- As the endpoint starts.
abbrev pub start : EndpointCore → Udp
start core = record { core = core; clients = []; broadcast_peer = none }

-- What the address resolves to, and whether the calls on the socket succeed.
pub record Host : Type 0 where
  pub resolved : Option (List SocketAddr)
  pub binds : String → Bool
  pub set_broadcast : Bool

-- The socket, up to the loops: what they send to, other than the clients.
unfoldable pub open_socket : Host → EndpointMode → String → Result (Option SocketAddr)
unfolding bind_and_target
open_socket host mode address =
    and_then (bind_and_target mode address host.resolved) λ (bind_addr, target_addr).
      if not (host.binds bind_addr)
      then err (network bind_addr)
      else if broadcast_mode target_addr && not host.set_broadcast
      then err (network address)
      else ok target_addr

module _ {Bus Queue : Type 0} (ahash_hash : List ℕ → ℕ) (message_id_of : MavMessage → ℕ)
    (send : Bus → RoutedMessage → Bus × Bool) (try_send : Queue → RouteUpdate → Queue × TrySend)
    (read_v2_msg read_v1_msg : List ℕ → ReadResult) where
  -- The loops run on an open socket; `ended` is whether one of them ends then, or the cancellation.
  abbrev pub run_loops :
      Shared Bus Queue
      → EndpointCore
      → Duration
      → Duration
      → List (Event Bus Queue)
      → Bool
      → Result (Option SocketAddr)
      → (Shared Bus Queue × Udp) × Option (Result (Unit {0}))
  run_loops shared core ttl broadcast_timeout events ended (err e) =
      ((shared, start core), some (err e))
  run_loops shared core ttl broadcast_timeout events ended (ok target_addr) = (
    run_events ahash_hash message_id_of send try_send read_v2_msg read_v1_msg ttl broadcast_timeout
        target_addr shared (start core) events,
    if ended then some (ok tt) else none,
  )

  unfoldable pub run :
      Host
      → Shared Bus Queue
      → Context
      → String
      → EndpointMode
      → ℕ
      → ℕ
      → List (Event Bus Queue)
      → Bool
      → (Shared Bus Queue × Udp) × Option (Result (Unit {0}))
  unfolding open_socket
  run host shared ctx address mode cleanup_ttl_secs broadcast_timeout_secs events ended =
      run_loops shared (endpoint_core ctx true) (from_secs cleanup_ttl_secs)
        (from_secs broadcast_timeout_secs) events ended (open_socket host mode address)
