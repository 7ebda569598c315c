-- ===== src/StreamLoop.antt =====
-- src/endpoint_core/stream_loop.rs: the two loops over a byte stream, of TCP and of serial endpoints.
-- What the stream and the bus give are lists; the buffered writer is a parameter.
pub mod Reader
pub mod Published
pub mod Writer
pub mod Select
pub mod Passes
pub mod Carried
use mavrouter.Prelude.{
  ℕ, zero, suc, Bool, true, false, Option, none, some, List, [], length, ◌+◌, ◌-◌, ◌∷◌,
  if◌then◌else◌, nat_eq,
}
use Prim.Native.String.{String}
use mavrouter.Mavlink.{MavMessage}
use mavrouter.Framing.{MavlinkFrame, ReadResult, push, parse_next}
use mavrouter.Routing.Table.{RoutingTable, RouteUpdate}
use mavrouter.Config.{Result, ok, err, network}
use mavrouter.Endpoint.Runs
use mavrouter.Endpoint.{
  Clock, RoutedMessage, EndpointStats, EndpointCore, Shared, TrySend, fetch_add, record_outgoing,
  check_outgoing_message, handle_incoming_frame,
}

-- A loop waits, or it has returned; `stuck` is a loop without end.
pub data Status : Type 0 where
  running : Status
  returned : Result (Unit {0}) → Status
  stuck : Status

-- What is next: the rest as long as a loop runs, or its end.
abbrev pub goes_on {ℓ} : {A : Type ℓ} → Status → A → A → A
goes_on running rest end = rest
goes_on (returned result) rest end = end
goes_on stuck rest end = end

-- A pass of the reading loop: the cancellation is seen before the read; a read of no bytes is the end
-- of the stream. While the bytes are handled, each frame has its clock, and before each frame the
-- other tasks may act on what all share; `elsewhere` is what they do while the loop waits.
pub data Read : Type 0 where
  read_cancelled : Read
  eof : Read
  bytes : (buf : List ℕ) (clock : ℕ → Clock) (others : ℕ → List Runs.Event) → Read
  read_error : Read
  elsewhere : Runs.Event → Read

module _ (memchr2 : ℕ → ℕ → List ℕ → Option ℕ) (read_v2_msg read_v1_msg : List ℕ → ReadResult) where
  abbrev add_frame :
      Option (List ℕ × Option MavlinkFrame)
      → Option (List MavlinkFrame × List ℕ)
      → Option (List MavlinkFrame × List ℕ)
  add_frame none rest = none
  add_frame (some (buffer, none)) rest = some ([], buffer)
  add_frame (some (buffer, some frame)) none = none
  add_frame (some (buffer, some frame)) (some (frames, left)) = some (frame ∷ frames, left)

  abbrev left_of : List ℕ → Option (List ℕ × Option MavlinkFrame) → List ℕ
  left_of buffer none = buffer
  left_of buffer (some (left, frame)) = left

  -- `while let Some(frame) = parser.parse_next()`, on fuel: the frames, and what stays in the buffer.
  unfoldable pub drain : ℕ → List ℕ → Option (List MavlinkFrame × List ℕ)
  drain zero buffer = none
  drain (suc fuel) buffer =
      let next = parse_next memchr2 read_v2_msg read_v1_msg buffer in
      add_frame next (drain fuel (left_of buffer next))

  unfoldable pub frames_of : List ℕ → List ℕ → Option (List MavlinkFrame × List ℕ)
  frames_of buffer buf = let filled = push buffer buf in drain (length filled + 1) filled

module _ {Bus Queue : Type 0} (ahash_hash : List ℕ → ℕ) (message_id_of : MavMessage → ℕ)
    (send : Bus → RoutedMessage → Bus × Bool)
    (try_send : Queue → RouteUpdate → Queue × TrySend) where
  -- The frames are handled in order, from the `n`-th of the read on.
  unfoldable pub handle_frames :
      (ℕ → Clock)
      → (ℕ → List Runs.Event)
      → ℕ
      → Shared Bus Queue
      → EndpointCore
      → List MavlinkFrame
      → Shared Bus Queue × EndpointCore
  handle_frames clock others n shared core [] = (shared, core)
  handle_frames clock others n shared core (frame ∷ frames) =
      let before = Runs.run ahash_hash message_id_of send try_send shared (others n) in
      let handled =
        handle_incoming_frame ahash_hash message_id_of send try_send (clock n) before core frame in
      handle_frames clock others (suc n) handled.0 handled.1 frames

  module _ (memchr2 : ℕ → ℕ → List ℕ → Option ℕ)
      (read_v2_msg read_v1_msg : List ℕ → ReadResult) where
    -- The shared state, the core, the parser's buffer, and whether the loop has ended.
    unfoldable pub reader_loop :
        String
        → List Read
        → Shared Bus Queue
        → EndpointCore
        → List ℕ
        → Shared Bus Queue × EndpointCore × List ℕ × Status
    reader_loop name [] shared core buffer = (shared, core, buffer, running)
    reader_loop name (read_cancelled ∷ reads) shared core buffer =
        (shared, core, buffer, returned (ok tt))
    reader_loop name (eof ∷ reads) shared core buffer = (shared, core, buffer, returned (ok tt))
    reader_loop name (read_error ∷ reads) shared core buffer =
        (shared, core, buffer, returned (err (network name)))
    reader_loop name (elsewhere event ∷ reads) shared core buffer =
        reader_loop name reads (Runs.step ahash_hash message_id_of send try_send shared event) core
          buffer
    reader_loop name (bytes buf clock others ∷ reads) shared core buffer =
        elim (frames_of memchr2 read_v2_msg read_v1_msg buffer buf) [
          | none ↦ (shared, core, buffer, stuck)
          | some (frames, left) ↦
              let handled = handle_frames clock others 0 shared core frames in
              reader_loop name reads handled.0 handled.1 left
        ]

-- What the bus gives: a message, with the routing table at that time and whether the task is
-- cancelled by then.
pub data Received : Type 0 where
  message : (msg : RoutedMessage) (rt : RoutingTable) (is_cancelled : Bool) → Received
  lagged : ℕ → Received
  empty : Received
  closed : Received

-- Where the writing loop is: at `recv`, or in a batch with so many passes left after this one.
pub data Place : Type 0 where
  at_recv : Place
  in_batch : (passes : ℕ) → Place

abbrev pub batch_size : ℕ
batch_size = 1024

pub record Sender (Writer : Type 0) : Type 0 where
  pub core : EndpointCore
  pub writer : Writer

abbrev pub count_error : EndpointCore → EndpointCore
count_error core =
    let stats = core.stats in
    let counted : EndpointStats = record stats { errors = fetch_add stats.errors 1 } in
    record core { stats = counted }

abbrev pub count_lagged : EndpointCore → ℕ → EndpointCore
count_lagged core n =
    let stats = core.stats in
    let counted : EndpointStats = record stats { bus_lagged = fetch_add stats.bus_lagged n } in
    record core { stats = counted }

abbrev pub count_outgoing : EndpointCore → ℕ → EndpointCore
count_outgoing core n = record core { stats = record_outgoing core.stats n }

module _ {Writer : Type 0} (write_all : Writer → List ℕ → Writer × Bool)
    (flush : Writer → Writer × Bool) where
  -- A message that is to go out: written and counted, or the write failed.
  unfoldable pub write_message : Sender Writer → RoutedMessage → Sender Writer × Bool
  write_message s msg =
      let wrote = write_all s.writer msg.serialized_bytes in
      if wrote.1
      then (
        record { core = count_outgoing s.core (length msg.serialized_bytes); writer = wrote.0 },
        true,
      )
      else (record { core = count_error s.core; writer = wrote.0 }, false)

  -- The flush behind a batch.
  unfoldable pub flush_batch : Sender Writer → Sender Writer × Bool
  flush_batch s =
      let flushed = flush s.writer in
      if flushed.1
      then (record s { writer = flushed.0 }, true)
      else (record { core = count_error s.core; writer = flushed.0 }, false)

  -- Behind a pass of the batch: the next pass, or the flush.
  unfoldable pub end_pass : ℕ → Sender Writer → Place × Sender Writer × Bool
  end_pass zero s = let flushed = flush_batch s in (at_recv, flushed.0, flushed.1)
  end_pass (suc passes) s = (in_batch passes, s, true)

  -- What one result of the bus makes of the loop: the place and the state, and whether all went well.
  unfoldable pub on_message :
      Place → Sender Writer → RoutedMessage → RoutingTable → Place × Sender Writer × Bool
  on_message at_recv s msg rt =
      let wrote = write_message s msg in
      if check_outgoing_message rt s.core msg
      then (in_batch (batch_size - 1), wrote.0, wrote.1)
      else (at_recv, s, true)
  on_message (in_batch passes) s msg rt =
      let wrote = write_message s msg in
      if check_outgoing_message rt s.core msg
      then if wrote.1 then end_pass passes wrote.0 else (in_batch passes, wrote.0, false)
      else end_pass passes s

  abbrev ends : Place → Bool → Bool
  ends at_recv is_cancelled = is_cancelled
  ends (in_batch passes) is_cancelled = false

  abbrev on_lagged : Place → Sender Writer → Place × Sender Writer × Bool
  on_lagged at_recv s = (at_recv, s, true)
  on_lagged (in_batch passes) s = end_pass passes s

  abbrev on_empty : Place → Sender Writer → Place × Sender Writer × Bool
  on_empty at_recv s = (at_recv, s, true)
  on_empty (in_batch passes) s = let flushed = flush_batch s in (at_recv, flushed.0, flushed.1)

  -- A failed write or flush ends the loop.
  abbrev pub or_fails : String → Place × Sender Writer × Bool → Place × Sender Writer × Status
  or_fails name out = (out.0, out.1, if out.2 then running else returned (err (network name)))

  -- A pass of the loop; a closed bus ends it, at either place.
  unfoldable pub receive :
      String → Received → Place → Sender Writer → Place × Sender Writer × Status
  receive name (message msg rt is_cancelled) place s =
      if ends place is_cancelled
      then (place, s, returned (ok tt))
      else or_fails name (on_message place s msg rt)
  receive name (lagged n) place s =
      or_fails name (on_lagged place (record s { core = count_lagged s.core n }))
  receive name empty place s = or_fails name (on_empty place s)
  receive name closed place s = (place, s, returned (ok tt))
