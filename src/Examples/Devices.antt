-- ===== src/Examples/Devices.antt =====
-- The stream endpoints at concrete inputs.
use mavrouter.Prelude.{
  ℕ, refl, true, false, Option, none, some, List, [], arith, ltb, length, ◌^◌, ◌≤◌, ◌≡◌, ◌↔◌, ◌⊎◌,
  ◌∷◌, ◌++◌, ◌==◌, if◌then◌else◌, nat_eq,
}
use Prim.Native.String.{String}
use mavrouter.Routing.Time.{from_secs}
use mavrouter.Mavlink.{MavHeader, MavMessage}
use mavrouter.Framing.{ReadResult}
use mavrouter.Framing
use mavrouter.Routing.Table.{new}
use mavrouter.Dedup.{bucket_count}
use mavrouter.Dedup.Window.{empty_window}
use mavrouter.Endpoint.Runs
use mavrouter.Endpoint.Runs.{published}
use mavrouter.Endpoint.{new_stats}
use mavrouter.Config.{
  auto, FlowControl, no_flow_control, RouterError, err, network, serial_error, serial_timeout,
}
use mavrouter.Config.Rates.{
  ℤ, pos, negsuc, Visited, seq, FitsU32, Spells, deserialize, deserialize_iff,
}
use mavrouter.Orchestration.{Context, endpoint_core}
use mavrouter.StreamLoop
use mavrouter.StreamLoop.{Read, Received, Status, returned}
use mavrouter.StreamLoop.Published.{Brings}
use mavrouter.StreamLoop.Writer.{Sent, outgoing}
use mavrouter.StreamLoop.Select.{Next, Stream, start, run_stream_loop}
use mavrouter.StreamLoop.Select
use mavrouter.StreamLoop.Carried.{Takes, run_stream_loop-published}
use mavrouter.Serial.{Joined, joined, Future, run}
use mavrouter.Serial.Opening.{IsLate, Fails, Opens, run-err}
use mavrouter.Examples.Tables.{learned}
use mavrouter.Examples.Traffic.{
  bus, period, Bus, Queue, hash, send, try_send, message_id_of, core, clock, shared,
}
use mavrouter.Examples.Streams.{memchr2, search, read_v2_msg, read_v1_msg, noisy}
use mavrouter.Examples.Transports.{Writer, write_all, flush, writer, heartbeat}

read_v2-consumes :
    (bytes : List ℕ) {header : MavHeader} {message : MavMessage} {len : ℕ}
    → read_v2_msg bytes ≡ Framing.ok header message len
    → (1 ≤ len) × (len ≤ length bytes)
read_v2-consumes [] h = absurd (ground arith)
read_v2-consumes (a ∷ []) h = absurd (ground arith)
read_v2-consumes (a ∷ b ∷ []) h = absurd (ground arith)
read_v2-consumes (a ∷ b ∷ c ∷ rest) h = ground arith

read_v1-consumes :
    (bytes : List ℕ) {header : MavHeader} {message : MavMessage} {len : ℕ}
    → read_v1_msg bytes ≡ Framing.ok header message len
    → (1 ≤ len) × (len ≤ length bytes)
read_v1-consumes bytes h = absurd (ground arith)

abbrev reads : List Read
reads =
    StreamLoop.bytes noisy (λ n. clock) (λ n. [])
    ∷ StreamLoop.elsewhere Runs.rotate
    ∷ StreamLoop.bytes (1 ∷ 2 ∷ []) (λ n. clock) (λ n. Runs.reroute new ∷ [])
    ∷ StreamLoop.eof
    ∷ []

abbrev received : List Received
received =
    StreamLoop.message heartbeat learned false
    ∷ StreamLoop.lagged 2
    ∷ StreamLoop.message heartbeat learned false
    ∷ StreamLoop.empty
    ∷ StreamLoop.closed
    ∷ []

abbrev nexts : List Next
nexts =
    Select.reads (StreamLoop.bytes noisy (λ n. clock) (λ n. Runs.reroute new ∷ []))
    ∷ Select.receives (StreamLoop.message heartbeat learned false)
    ∷ Select.reads (StreamLoop.elsewhere Runs.rotate)
    ∷ Select.receives StreamLoop.empty
    ∷ Select.receives (StreamLoop.lagged 2)
    ∷ Select.reads StreamLoop.eof
    ∷ []

abbrev stream_out : Stream Bus Queue Writer × Status
stream_out =
    run_stream_loop hash message_id_of send try_send memchr2 read_v2_msg read_v1_msg write_all flush
      "tcp" (start shared core ([], 2)) nexts

run_stream_loop-published_example :
    (taken : List Read) × (bus_rx : List Received) × (events : List Runs.Event) × (status : Status)
    × Takes "tcp" nexts taken bus_rx stream_out.1
    × Brings memchr2 read_v2_msg read_v1_msg "tcp" core [] taken events status
    × (stream_out.0.shared.bus_tx.0
        ≡ published hash message_id_of (empty_window (bucket_count period)) [] events)
    × Sent "tcp" stream_out.1 stream_out.0.sender.writer.0 ([] ++ outgoing core bus_rx)
run_stream_loop-published_example =
    run_stream_loop-published hash message_id_of send try_send memchr2 read_v2_msg read_v1_msg
      write_all flush bus search (record { consumes = read_v2-consumes })
      (record { consumes = read_v1-consumes }) writer "tcp" period shared core ([], 2) nexts
      (omega arith) refl (omega arith)

-- At 57,600 baud the device answers, at other rates it hangs.
abbrev spawn_blocking : String → ℕ → FlowControl → Future (Joined (List Next))
spawn_blocking device baud flow =
    if baud == 57_600 then some (from_secs 1, joined (some nexts)) else none

abbrev ctx : Context
ctx = record { id = 7; filters = core.filters; stats = new_stats }

abbrev device_out : Stream Bus Queue Writer × Status
device_out =
    run hash message_id_of send try_send memchr2 read_v2_msg read_v1_msg write_all flush
      spawn_blocking shared ([], 2) ctx "ttyS0" 57_600 no_flow_control

run-err_example :
    let opening = spawn_blocking "ttyS0" 57_600 no_flow_control in
    let stream : Stream Bus Queue Writer = start shared (endpoint_core ctx true) ([], 2) in
    ((device_out.1 ≡ returned (err (serial_timeout "ttyS0" 3))) ↔ IsLate opening)
    × ((device_out.1 ≡ returned (err (serial_error "ttyS0"))) ↔ Fails opening)
    × ((IsLate opening ⊎ Fails opening) → device_out.0 ≡ stream)
    × ((port : List Next)
        → Opens opening port
        → device_out
          ≡ run_stream_loop hash message_id_of send try_send memchr2 read_v2_msg read_v1_msg
              write_all flush "ttyS0" stream port)
    × ((e : RouterError)
        → device_out.1 ≡ returned (err e)
        → (e ≡ serial_timeout "ttyS0" 3)
          ⊎ ((e ≡ serial_error "ttyS0")
              ⊎ ((e ≡ network "ttyS0") × ((port : List Next) × Opens opening port))))
run-err_example =
    run-err hash message_id_of send try_send memchr2 read_v2_msg read_v1_msg write_all flush
      spawn_blocking bus search (record { consumes = read_v2-consumes })
      (record { consumes = read_v1-consumes }) writer shared ([], 2) ctx "ttyS0" 57_600
      no_flow_control

abbrev next_element : ℤ → Option ℕ
next_element (pos value) = if ltb value (2 ^ 32) then some value else none
next_element (negsuc value) = none

next_element-reads : (value : ℕ) → FitsU32 value → next_element (pos value) ≡ some value
next_element-reads value h = ground arith

next_element-inside :
    (z : ℤ) (value : ℕ) → next_element z ≡ some value → (z ≡ pos value) × FitsU32 value
next_element-inside (pos n) value h = ground (arith, h)
next_element-inside (negsuc n) value h = ground (arith, h)

abbrev two_rates : Visited
two_rates = seq (pos 57_600 ∷ pos 115_200 ∷ [])

deserialize_iff_example :
    (deserialize next_element two_rates ≡ some (auto (57_600 ∷ 115_200 ∷ [])))
    ↔ Spells two_rates (auto (57_600 ∷ 115_200 ∷ []))
deserialize_iff_example =
    deserialize_iff next_element
      (record { reads = next_element-reads; inside = next_element-inside }) two_rates
      (auto (57_600 ∷ 115_200 ∷ []))
