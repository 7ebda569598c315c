-- ===== src/Tcp.antt =====
-- src/endpoints/tcp.rs: the server's clients and the client's attempts. Sockets, the loop over a
-- stream and the tasks are tokio's: what they do is the events of a list.
pub mod Clients
pub mod Attempts
pub mod Running
use mavrouter.Prelude.{ℕ, zero, suc, Bool, List, [], leb, length, ◌∷◌, ◌++◌, if◌then◌else◌, nat_eq}
use mavrouter.Routing.Time.{Duration, from_secs}
use Prim.Native.String.{String}
use mavrouter.Config.{Result, ok, err, EndpointMode, client, server, network}
use mavrouter.Backoff
use mavrouter.Backoff.{ExponentialBackoff, next_backoff, reset}
use mavrouter.Endpoint.{EndpointCore, child_for_client, new_stats, fetch_add}

abbrev pub first_tcp_client_id : ℕ
first_tcp_client_id = 10_000

abbrev pub max_tcp_clients : ℕ
max_tcp_clients = 100

-- The counter is shared by all servers of the program; `join_set` holds the cores of the clients
-- that are served.
pub record Server : Type 0 where
  pub next_tcp_client_id : ℕ
  pub join_set : List EndpointCore

abbrev pub start : Server
start = record { next_tcp_client_id = first_tcp_client_id; join_set = [] }

-- A connection or an error of `accept`, the end of the `i`-th client's task, or a connection that
-- another server accepted.
pub data Event : Type 0 where
  accepted : Event
  accept_failed : Event
  joined : (i : ℕ) → Event
  elsewhere : Event

abbrev pub remove_at {ℓ} : {A : Type ℓ} → List A → ℕ → List A
remove_at [] i = []
remove_at (x ∷ xs) zero = xs
remove_at (x ∷ xs) (suc i) = x ∷ remove_at xs i

unfoldable pub serve_event : EndpointCore → Server → Event → Server
serve_event core s accepted =
    if leb max_tcp_clients (length s.join_set)
    then s
    else let client_id = s.next_tcp_client_id in
      record s {
        next_tcp_client_id = fetch_add client_id 1;
        join_set = s.join_set ++ (child_for_client core client_id new_stats ∷ []);
      }
serve_event core s accept_failed = s
serve_event core s (joined i) = record s { join_set = remove_at s.join_set i }
serve_event core s elsewhere = record s { next_tcp_client_id = fetch_add s.next_tcp_client_id 1 }

-- The loop of the server until it is cancelled.
unfoldable pub serve : EndpointCore → Server → List Event → Server
serve core s [] = s
serve core s (event ∷ events) = serve core (serve_event core s event) events

-- The sleep ends, or the cancellation comes first.
pub data Wait : Type 0 where
  slept : Wait
  cancelled_waiting : Wait

-- A pass of the client's loop: it finds itself cancelled, it serves a connection until it is lost,
-- or the connection is refused.
pub data Attempt : Type 0 where
  cancelled : Attempt
  connected : (result : Result (Unit {0})) (wait : Wait) → Attempt
  refused : (wait : Wait) → Attempt

-- What an endpoint does: the clients that it serves, or the delays between its attempts.
pub data Work : Type 0 where
  served : Server → Work
  tried : List Duration → Work

module _ {Multiplier : Type 0} (scale : Duration → Multiplier → Duration) (two : Multiplier) where
  -- `let wait = backoff.next_backoff()` and the `select!` behind it; `rest` is the next pass.
  abbrev pub after_wait : Duration → Wait → List Duration → List Duration
  after_wait wait slept rest = wait ∷ rest
  after_wait wait cancelled_waiting rest = wait ∷ []

  -- The delays between the attempts.
  unfoldable pub connect_loop : ExponentialBackoff Multiplier → List Attempt → List Duration
  connect_loop backoff [] = []
  connect_loop backoff (cancelled ∷ attempts) = []
  connect_loop backoff (connected result wait ∷ attempts) =
      let next = next_backoff scale (reset backoff) in
      after_wait next.1 wait (connect_loop next.0 attempts)
  connect_loop backoff (refused wait ∷ attempts) =
      let next = next_backoff scale backoff in after_wait next.1 wait (connect_loop next.0 attempts)

  unfoldable pub connect : List Attempt → List Duration
  connect attempts = connect_loop (Backoff.new (from_secs 1) (from_secs 60) two) attempts

  -- `binds` is whether the listener can be bound to the address.
  unfoldable pub run :
      EndpointCore → String → EndpointMode → Bool → List Event → List Attempt → Result Work
  run core address server binds events attempts =
      if binds then ok (served (serve core start events)) else err (network address)
  run core address client binds events attempts = ok (tried (connect attempts))
