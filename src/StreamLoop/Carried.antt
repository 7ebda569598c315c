-- ===== src/StreamLoop/Carried.antt =====
-- What a stream carries while both its loops run.
use mavrouter.Prelude.{
  ℕ, refl, sym, ap, subst, Bool, Option, List, [], ◌<◌, ◌≡◌, ◌∙◌, ◌∷◌, ◌++◌, nat_eq,
}
use Prim.Native.String.{String}
use mathlib.Core.List.{append-nil, append_assoc}
use mavrouter.Mavlink.{MavMessage}
use mavrouter.Framing.{ReadResult}
use mavrouter.Framing.Parse.{IsMemchr2}
use mavrouter.Routing.Time.{Duration}
use mavrouter.Routing.Table.{RouteUpdate}
use mavrouter.Dedup.{new_concurrent, bucket_count}
use mavrouter.Dedup.Window.{empty_window}
use mavrouter.Config.{ok, err, network, RouterError}
use mavrouter.Endpoint.{RoutedMessage, EndpointCore, Shared, TrySend}
use mavrouter.Endpoint.Bus.{IsBus}
use mavrouter.Endpoint.Runs
use mavrouter.Endpoint.Runs.{run, step, published, run-published}
use mavrouter.Tlog.Log.{IsWriter}
use mavrouter.StreamLoop.{
  Status, running, returned, stuck, goes_on, Read, read_cancelled, eof, bytes, read_error,
  elsewhere, Received, Place, Sender, reader_loop, receive,
}
use mavrouter.StreamLoop.Reader.{IsReader}
use mavrouter.StreamLoop.Published.{arrivals, Brings, run-append, bytes-ran}
use mavrouter.StreamLoop.Writer.{outgoing, Sent, IsCore}
use mavrouter.StreamLoop.Passes.{Ends, Passed, bytes_in, receive-Passed}
use mavrouter.StreamLoop.Select.{
  Next, reads, receives, is_cancelled, Stream, after_read, after_receive, next_pass,
  run_stream_loop, start,
}

-- The reads behind which the reading loop goes on.
abbrev pub IsOn : Read → Type 0
IsOn read_cancelled = ⊥
IsOn eof = ⊥
IsOn (bytes buf clock others) = Unit
IsOn read_error = ⊥
IsOn (elsewhere event) = Unit

-- Which of what comes next the two loops take, and how this ends.
pub data Takes : String → List Next → List Read → List Received → Status → Type 0 where
  takes_none : {name : String} → Takes name [] [] [] running
  takes_cancel :
      {name : String} {nexts : List Next}
      → Takes name (is_cancelled ∷ nexts) [] [] (returned (ok tt))
  takes_read :
      {name : String} {read : Read} {nexts : List Next} {taken : List Read} {bus_rx : List Received}
      {status : Status}
      → IsOn read
      → Takes name nexts taken bus_rx status
      → Takes name (reads read ∷ nexts) (read ∷ taken) bus_rx status
  takes_received :
      {name : String} {received : Received} {nexts : List Next} {taken : List Read}
      {bus_rx : List Received} {status : Status}
      → Takes name nexts taken bus_rx status
      → Takes name (receives received ∷ nexts) taken (received ∷ bus_rx) status
  takes_read_cancelled :
      {name : String} {nexts : List Next}
      → Takes name (reads read_cancelled ∷ nexts) (read_cancelled ∷ []) [] (returned (ok tt))
  takes_eof :
      {name : String} {nexts : List Next}
      → Takes name (reads eof ∷ nexts) (eof ∷ []) [] (returned (ok tt))
  takes_read_error :
      {name : String} {nexts : List Next}
      → Takes name (reads read_error ∷ nexts) (read_error ∷ []) [] (returned (err (network name)))
  takes_end :
      {name : String} {received : Received} {nexts : List Next}
      → Ends received
      → Takes name (receives received ∷ nexts) [] [] (returned (ok tt))
  takes_write_error :
      {name : String} {received : Received} {nexts : List Next}
      → Takes name (receives received ∷ nexts) [] (received ∷ []) (returned (err (network name)))

Sent-assoc :
    (name : String) (status : Status) (log old out others full : List ℕ)
    → out ++ others ≡ full
    → Sent name status log ((old ++ out) ++ others)
    → Sent name status log (old ++ full)
Sent-assoc name status log old out others full e =
    subst (Sent name status log) (append_assoc old out others ∙ ap (λ bs. old ++ bs) e)

module _ {Bus Queue Writer : Type 0} (ahash_hash : List ℕ → ℕ) (message_id_of : MavMessage → ℕ)
    (send : Bus → RoutedMessage → Bus × Bool) (try_send : Queue → RouteUpdate → Queue × TrySend)
    (memchr2 : ℕ → ℕ → List ℕ → Option ℕ) (read_v2_msg read_v1_msg : List ℕ → ReadResult)
    (write_all : Writer → List ℕ → Writer × Bool) (flush : Writer → Writer × Bool)
    (bus : IsBus send) (m : IsMemchr2 memchr2) (two : IsReader read_v2_msg)
    (one : IsReader read_v1_msg) (w : IsWriter write_all flush) (name : String) where
  abbrev stream_of : Stream Bus Queue Writer → List Next → Stream Bus Queue Writer × Status
  stream_of =
      run_stream_loop ahash_hash message_id_of send try_send memchr2 read_v2_msg read_v1_msg
        write_all flush name

  abbrev ran : Shared Bus Queue → List Runs.Event → Shared Bus Queue
  ran = run ahash_hash message_id_of send try_send

  -- From a state on, with `old` written so far.
  abbrev Carries :
      EndpointCore
      → List ℕ
      → Stream Bus Queue Writer
      → List Next
      → Stream Bus Queue Writer × Status
      → Type 0
  Carries core old s nexts out =
      (taken : List Read) × (bus_rx : List Received) × (events : List Runs.Event)
      × (status : Status) × Takes name nexts taken bus_rx out.1
      × Brings memchr2 read_v2_msg read_v1_msg name core s.buffer taken events status
      × (out.0.shared ≡ ran s.shared events)
      × Sent name out.1 (w.written out.0.sender.writer) (old ++ outgoing core bus_rx)

  abbrev Kept : EndpointCore → List ℕ → Stream Bus Queue Writer → Type 0
  Kept core old s = IsCore write_all flush w core s.sender.core × (w.written s.sender.writer ≡ old)

  nothing_more :
      (core : EndpointCore) (old : List ℕ) (s : Stream Bus Queue Writer)
      → Kept core old s
      → w.written s.sender.writer ≡ old ++ outgoing core []
  nothing_more core old s (c, e) = e ∙ sym (append-nil old)

  -- Behind a pass of the writing loop.
  received-Carries :
      (core : EndpointCore) (old : List ℕ) (s : Stream Bus Queue Writer) (received : Received)
      (nexts : List Next) (place : Place) (after : Sender Writer) (status : Status)
      → w.written s.sender.writer ≡ old
      → Passed write_all flush w core name received s.sender after status
      → let next = after_receive s (place, after, status) in
        ((more : List ℕ)
          → Kept core more next.0
          → Carries core more next.0 nexts (stream_of next.0 nexts))
        → Carries core old s
            (receives received ∷ nexts)
            (goes_on status (stream_of next.0 nexts) next)
  unfolding run
  received-Carries core old s received nexts place after running e (c, wrote, all) rest =
      let written = bytes_in write_all flush w core received in
      let (taken, bus_rx, events, status, takes, brings, final, sent) =
        rest (old ++ written) (c, wrote ∙ ap (λ bs. bs ++ written) e) in
      (
        taken,
        received ∷ bus_rx,
        events,
        status,
        takes_received takes,
        brings,
        final,
        Sent-assoc name _ _ old written (outgoing core bus_rx) _ (all bus_rx) sent,
      )
  received-Carries core old s received nexts place after (returned (ok u)) e (over, same) rest =
      ([], [], [], running, takes_end over, (refl, refl), refl, same ∙ e ∙ sym (append-nil old))
  received-Carries core old s received nexts place after (returned (err e)) h (named, (left, part))
        rest =
      (
        [],
        received ∷ [],
        [],
        running,
        subst (λ e. Takes name (receives received ∷ nexts) [] (received ∷ []) (returned (err e)))
            (sym named) takes_write_error,
        (refl, refl),
        refl,
        (named, (left, part ∙ ap (λ bs. bs ++ outgoing core (received ∷ [])) h)),
      )
  received-Carries core old s received nexts place after stuck e passed rest = absurd passed

  stream-Carries :
      (core : EndpointCore) (nexts : List Next) (old : List ℕ) (s : Stream Bus Queue Writer)
      → Kept core old s
      → Carries core old s nexts (stream_of s nexts)
  unfolding run_stream_loop next_pass reader_loop run
  stream-Carries core [] old s kept =
      ([], [], [], running, takes_none, (refl, refl), refl, nothing_more core old s kept)
  stream-Carries core (is_cancelled ∷ nexts) old s kept =
      ([], [], [], running, takes_cancel, (refl, refl), refl, nothing_more core old s kept)
  stream-Carries core (reads read_cancelled ∷ nexts) old s kept = (
    read_cancelled ∷ [],
    [],
    [],
    returned (ok tt),
    takes_read_cancelled,
    (refl, refl),
    refl,
    nothing_more core old s kept,
  )
  stream-Carries core (reads eof ∷ nexts) old s kept = (
    eof ∷ [],
    [],
    [],
    returned (ok tt),
    takes_eof,
    (refl, refl),
    refl,
    nothing_more core old s kept,
  )
  stream-Carries core (reads read_error ∷ nexts) old s kept = (
    read_error ∷ [],
    [],
    [],
    returned (err (network name)),
    takes_read_error,
    (refl, refl),
    refl,
    (refl, ([], append-nil (w.written s.sender.writer) ∙ nothing_more core old s kept)),
  )
  stream-Carries core (reads (elsewhere event) ∷ nexts) old s kept =
      let next : Stream Bus Queue Writer = record s {
        shared = step ahash_hash message_id_of send try_send s.shared event;
      } in
      let (taken, bus_rx, events, status, takes, brings, final, sent) =
        stream-Carries core nexts old next kept in
      (
        elsewhere event ∷ taken,
        bus_rx,
        event ∷ events,
        status,
        takes_read tt takes,
        (events, refl, brings),
        final,
        sent,
      )
  stream-Carries core (reads (bytes buf clock others) ∷ nexts) old s (c, e) =
      let (frames, left, after, tiles, steps) =
        bytes-ran ahash_hash message_id_of send try_send bus memchr2 read_v2_msg read_v1_msg m two
          one name buf clock others s.shared core c.0 s.buffer in
      let now = arrivals clock others core 0 frames in
      let counted : EndpointCore = record core { stats = after } in
      let next = (after_read s (ran s.shared now, counted, left, running)).0 in
      let step_to =
        ap
          (λ known.
            reader_loop ahash_hash message_id_of send try_send memchr2 read_v2_msg read_v1_msg name
              (bytes buf clock others ∷ []) s.shared known s.buffer)
          c.1
        ∙ steps [] in
      let (taken, bus_rx, events, status, takes, brings, final, sent) =
        stream-Carries core nexts old next ((after, refl), e) in
      subst (Carries core old s (reads (bytes buf clock others) ∷ nexts))
        (sym (
          ap
            (λ out.
              let passed = after_read s out in goes_on passed.1 (stream_of passed.0 nexts) passed)
            step_to))
        (
          bytes buf clock others ∷ taken,
          bus_rx,
          now ++ events,
          status,
          takes_read tt takes,
          (frames, left, events, tiles, refl, brings),
          final ∙ sym (run-append ahash_hash message_id_of send try_send now events s.shared),
          sent,
        )
  stream-Carries core (receives received ∷ nexts) old s (c, e) =
      let out = receive write_all flush name received s.place s.sender in
      received-Carries core old s received nexts out.0 out.1 out.2 e
        (receive-Passed write_all flush w core name received s.place s.sender c)
        (λ more kept. stream-Carries core nexts more (after_receive s out).0 kept)

  -- With a byte search, a bus, readers and a writer as documented, from a new deduplicator of a
  -- period above zero, on a bus that somebody listens to, and however reads, messages of the bus
  -- and the other tasks come between each other: all that comes is taken until the first loop ends,
  -- which is at the cancellation, the end of the stream, the closed bus, or a failed read, write or
  -- flush, with an error that names the stream. What is on the bus then are the messages that the
  -- router publishes for the frames of the bytes that were read, in their order and between what
  -- happens elsewhere, where only bytes are skipped at which no reader would read a frame; and what
  -- the writer has taken are the bytes of the messages received that are for the endpoint, all of
  -- them unless there was an error, else a beginning.
  pub run_stream_loop-published :
      (period : Duration) (shared : Shared Bus Queue) (core : EndpointCore) (writer : Writer)
      (nexts : List Next)
      → 0 < period
      → shared.dedup ≡ new_concurrent period
      → 0 < bus.receivers shared.bus_tx
      → let out =
          run_stream_loop ahash_hash message_id_of send try_send memchr2 read_v2_msg read_v1_msg
            write_all flush name
            (start shared core writer)
            nexts in
        (taken : List Read) × (bus_rx : List Received) × (events : List Runs.Event)
        × (status : Status) × Takes name nexts taken bus_rx out.1
        × Brings memchr2 read_v2_msg read_v1_msg name core [] taken events status
        × (bus.sent out.0.shared.bus_tx
            ≡ published ahash_hash message_id_of
                (empty_window (bucket_count period))
                (bus.sent shared.bus_tx)
                events)
        × Sent name out.1 (w.written out.0.sender.writer) (w.written writer ++ outgoing core bus_rx)
  run_stream_loop-published period shared core writer nexts h new on =
      let (taken, bus_rx, events, status, takes, brings, final, sent) =
        stream-Carries core nexts (w.written writer) (start shared core writer)
          ((core.stats, refl), refl) in
      (
        taken,
        bus_rx,
        events,
        status,
        takes,
        brings,
        ap (λ after. bus.sent after.bus_tx) final
            ∙ run-published ahash_hash message_id_of send try_send bus period shared events h new
                on,
        sent,
      )

  -- An error of the loop is about the stream.
  pub run_stream_loop-err :
      (s : Stream Bus Queue Writer) (nexts : List Next) (e : RouterError)
      → (stream_of s nexts).1 ≡ returned (err e)
      → e ≡ network name
  run_stream_loop-err s nexts e h =
      let (taken, bus_rx, events, status, takes, brings, final, sent) =
        stream-Carries s.sender.core nexts (w.written s.sender.writer) s
          ((s.sender.core.stats, refl), refl) in
      (subst
        (λ status.
          Sent name status (w.written (stream_of s nexts).0.sender.writer)
            (w.written s.sender.writer ++ outgoing s.sender.core bus_rx))
        h sent).0
