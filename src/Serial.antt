-- ===== src/Serial.antt =====
-- src/endpoints/serial.rs: a device is opened, in time or not, and then a stream. The blocking open,
-- what the port gives and the buffered writer are parameters.
pub mod Opening
use mavrouter.Prelude.{ℕ, Bool, true, Option, none, some, List, leb, if◌then◌else◌, nat_eq}
use Prim.Native.String.{String}
use mavrouter.Mavlink.{MavMessage}
use mavrouter.Framing.{ReadResult}
use mavrouter.Routing.Time.{Duration, from_secs, as_secs}
use mavrouter.Routing.Table.{RouteUpdate}
use mavrouter.Config.{FlowControl, Result, ok, err, serial_error, serial_timeout}
use mavrouter.Endpoint.{RoutedMessage, EndpointCore, Shared, TrySend}
use mavrouter.Orchestration.{Context, endpoint_core}
use mavrouter.StreamLoop.{Status, returned}
use mavrouter.StreamLoop.Select.{Next, Stream, start, run_stream_loop}

abbrev pub open_timeout : Duration
open_timeout = from_secs 3

-- What the blocking task ends with: the result of the open, or a panic.
pub data Joined (A : Type 0) : Type 0 where
  joined : Option A → Joined A
  panicked : Joined A

-- A future resolves after some time, or never.
abbrev pub Future : Type 0 → Type 0
Future A = Option (Duration × A)

abbrev pub or_serial : {A : Type 0} → String → Option A → Result A
or_serial device none = err (serial_error device)
or_serial device (some opened) = ok opened

unfoldable pub apply_open_timeout : {A : Type 0} → String → Duration → Future (Option A) → Result A
apply_open_timeout device timeout none = err (serial_timeout device (as_secs timeout))
apply_open_timeout device timeout (some (time, opened)) =
    if leb time timeout
    then or_serial device opened
    else err (serial_timeout device (as_secs timeout))

abbrev pub inner : {A : Type 0} → Joined A → Option A
inner (joined opened) = opened
inner panicked = none

abbrev pub open_fut : {A : Type 0} → Future (Joined A) → Future (Option A)
open_fut none = none
open_fut (some (time, result)) = some (time, inner result)

module _ {Bus Queue Writer : Type 0} (ahash_hash : List ℕ → ℕ) (message_id_of : MavMessage → ℕ)
    (send : Bus → RoutedMessage → Bus × Bool) (try_send : Queue → RouteUpdate → Queue × TrySend)
    (memchr2 : ℕ → ℕ → List ℕ → Option ℕ) (read_v2_msg read_v1_msg : List ℕ → ReadResult)
    (write_all : Writer → List ℕ → Writer × Bool) (flush : Writer → Writer × Bool)
    (spawn_blocking : String → ℕ → FlowControl → Future (Joined (List Next))) where
  -- An open port is what comes next then.
  abbrev pub run_port :
      String → Stream Bus Queue Writer → Result (List Next) → Stream Bus Queue Writer × Status
  run_port device s (ok port) =
      run_stream_loop ahash_hash message_id_of send try_send memchr2 read_v2_msg read_v1_msg
        write_all flush device s port
  run_port device s (err e) = (s, returned (err e))

  unfoldable pub open_and_run :
      String → ℕ → FlowControl → Stream Bus Queue Writer → Stream Bus Queue Writer × Status
  open_and_run device baud flow_control s =
      run_port device s (
        apply_open_timeout device open_timeout (open_fut (spawn_blocking device baud flow_control)))

  unfoldable pub run :
      Shared Bus Queue
      → Writer
      → Context
      → String
      → ℕ
      → FlowControl
      → Stream Bus Queue Writer × Status
  run shared writer ctx device baud flow_control =
      open_and_run device baud flow_control (start shared (endpoint_core ctx true) writer)
