-- ===== src/StreamLoop/Published.antt =====
-- From the bytes of a stream to the messages on the bus.
use mavrouter.Prelude.{
  ℕ, suc, refl, sym, ap, inl, inr, Bool, Option, some, List, [], Bool-cases, ◌≡◌, ◌∙◌, ◌∷◌, ◌++◌,
  nat_eq,
}
use Prim.Native.String.{String}
use mavrouter.Mavlink.{MavMessage}
use mavrouter.Framing.{MavlinkFrame, ReadResult, push}
use mavrouter.Framing.Parse.{IsMemchr2}
use mavrouter.Routing.Table.{RouteUpdate}
use mavrouter.Dedup.{check_and_insert_concurrent}
use mavrouter.Config.{ok, err, network}
use mavrouter.Endpoint.{
  RoutedMessage, EndpointStats, EndpointCore, Shared, TrySend, Clock, accept_frame, observe_route,
  publish_frame, handle_incoming_frame, routed_message, route_update,
}
use mavrouter.Endpoint.Bus.{IsBus}
use mavrouter.Endpoint.Ingress.{handle_rejected, handle_duplicate, handle_published}
use mavrouter.Endpoint.Runs
use mavrouter.Endpoint.Runs.{arrive, step, run, published, run-published}
use mavrouter.StreamLoop.{
  frames_of, Status, running, returned, Read, read_cancelled, eof, bytes, read_error, elsewhere,
  handle_frames, reader_loop,
}
use mavrouter.StreamLoop.Reader.{IsReader, Tiles, frames_of-Tiles}

-- The frames of one read as arrivals at the endpoint, with what happens elsewhere before each.
abbrev pub arrivals :
    (ℕ → Clock) → (ℕ → List Runs.Event) → EndpointCore → ℕ → List MavlinkFrame → List Runs.Event
arrivals clock others core n [] = []
arrivals clock others core n (frame ∷ frames) =
    others n ++ (arrive (clock n) core frame ∷ arrivals clock others core (suc n) frames)

-- What a stream brings to the router, from a buffer on, and how its loop ends: each read puts its
-- bytes behind the buffer, the frames that stand there arrive in their order, and the bytes behind
-- them stay for the next read.
abbrev pub Brings :
    (memchr2 : ℕ → ℕ → List ℕ → Option ℕ) (read_v2_msg read_v1_msg : List ℕ → ReadResult)
    → String
    → EndpointCore
    → List ℕ
    → List Read
    → List Runs.Event
    → Status
    → Type 0
Brings m two one name core buffer [] events status = (events ≡ []) × (status ≡ running)
Brings m two one name core buffer (read_cancelled ∷ reads) events status =
    (events ≡ []) × (status ≡ returned (ok tt))
Brings m two one name core buffer (eof ∷ reads) events status =
    (events ≡ []) × (status ≡ returned (ok tt))
Brings m two one name core buffer (read_error ∷ reads) events status =
    (events ≡ []) × (status ≡ returned (err (network name)))
Brings m two one name core buffer (elsewhere event ∷ reads) events status =
    (rest : List Runs.Event) × (events ≡ event ∷ rest)
    × Brings m two one name core buffer reads rest status
Brings m two one name core buffer (bytes buf clock others ∷ reads) events status =
    (frames : List MavlinkFrame) × (left : List ℕ) × (rest : List Runs.Event) × Tiles m two one
      (push buffer buf) frames left
    × (events ≡ arrivals clock others core 0 frames ++ rest)
    × Brings m two one name core left reads rest status

module _ {Bus Queue : Type 0} (ahash_hash : List ℕ → ℕ) (message_id_of : MavMessage → ℕ)
    (send : Bus → RoutedMessage → Bus × Bool)
    (try_send : Queue → RouteUpdate → Queue × TrySend) where
  abbrev ran : Shared Bus Queue → List Runs.Event → Shared Bus Queue
  ran = run ahash_hash message_id_of send try_send

  abbrev handled :
      Clock → Shared Bus Queue → EndpointCore → MavlinkFrame → Shared Bus Queue × EndpointCore
  handled = handle_incoming_frame ahash_hash message_id_of send try_send

  pub run-append :
      (xs ys : List Runs.Event) (shared : Shared Bus Queue)
      → ran shared (xs ++ ys) ≡ ran (ran shared xs) ys
  unfolding run
  run-append [] ys shared = refl
  run-append (x ∷ xs) ys shared = run-append xs ys _

  publish-core :
      (clock : Clock) (shared : Shared Bus Queue) (core : EndpointCore) (stats : EndpointStats)
      (frame : MavlinkFrame) (id : ℕ)
      → let out =
          publish_frame ahash_hash message_id_of send try_send clock shared
            (record core { stats = stats })
            frame
            id in
        (out.0
          ≡ (publish_frame ahash_hash message_id_of send try_send clock shared core frame id).0)
        × ((after : EndpointStats) × (out.1 ≡ record core { stats = after }))
  unfolding publish_frame routed_message
  publish-core clock shared core stats frame id =
      elim (Bool-cases (send shared.bus_tx (routed_message clock core frame id)).1) [
        | inl taken ↦ rw (publish_frame, taken) (refl, (_, refl))
        | inr refused ↦ rw (publish_frame, refused) (refl, (stats, refl))
      ]

  module _ (bus : IsBus send) where
    -- The counters of the core do not matter for what is published, and only they change.
    pub handle-core :
        (clock : Clock) (shared : Shared Bus Queue) (core : EndpointCore) (stats : EndpointStats)
        (frame : MavlinkFrame)
        → ((handled clock shared (record core { stats = stats }) frame).0
            ≡ (handled clock shared core frame).0)
          × ((after : EndpointStats) × ((handled clock shared
                  (record core { stats = stats })
                  frame).1
                ≡ record core { stats = after }))
    unfolding accept_frame observe_route route_update
    handle-core clock shared core stats frame =
        let id = message_id_of frame.message in
        let counted : EndpointCore = record core { stats = stats } in
        let reply = check_and_insert_concurrent ahash_hash shared.dedup frame.raw_bytes in
        let asked : Shared Bus Queue = record shared { dedup = reply.0 } in
        let observed =
          observe_route ahash_hash message_id_of send try_send clock asked core frame.header in
        elim (Bool-cases (accept_frame core frame.header id)) [
          | inr rejected ↦
              rw
                (
                  handle_rejected ahash_hash message_id_of send try_send bus clock shared core frame
                      rejected,
                  handle_rejected ahash_hash message_id_of send try_send bus clock shared counted
                      frame rejected,
                )
                (refl, (stats, refl))
          | inl accepted ↦ elim (Bool-cases reply.1) [
            | inl duplicate ↦
                rw
                  (
                    handle_duplicate ahash_hash message_id_of send try_send bus clock shared core
                        frame accepted duplicate,
                    handle_duplicate ahash_hash message_id_of send try_send bus clock shared counted
                        frame accepted duplicate,
                  )
                  (refl, (stats, refl))
            | inr fresh ↦
                rw
                  (
                    handle_published ahash_hash message_id_of send try_send bus clock shared core
                        frame accepted fresh,
                    handle_published ahash_hash message_id_of send try_send bus clock shared counted
                        frame accepted fresh,
                  )
                  (publish-core clock observed core stats frame id)
          ]
        ]

    frames-ran :
        (clock : ℕ → Clock) (others : ℕ → List Runs.Event) (n : ℕ) (frames : List MavlinkFrame)
        (shared : Shared Bus Queue) (core : EndpointCore) (stats : EndpointStats)
        → let out =
            handle_frames ahash_hash message_id_of send try_send clock others n shared
              (record core { stats = stats })
              frames in
          (out.0 ≡ ran shared (arrivals clock others core n frames))
          × ((after : EndpointStats) × (out.1 ≡ record core { stats = after }))
    unfolding handle_frames run step
    frames-ran clock others n [] shared core stats = (refl, (stats, refl))
    frames-ran clock others n (frame ∷ frames) shared core stats =
        let before = ran shared (others n) in
        let (same, (after, counted)) = handle-core (clock n) before core stats frame in
        let next = handled (clock n) before (record core { stats = stats }) frame in
        let (rest, more) =
          frames-ran clock others (suc n) frames (handled (clock n) before core frame).0 core
            after in
        let step_to =
          ap
            (λ s.
              handle_frames ahash_hash message_id_of send try_send clock others (suc n) s next.1
                frames)
            same
          ∙ ap
              (λ c.
                handle_frames ahash_hash message_id_of send try_send clock others (suc n)
                  (handled (clock n) before core frame).0 c frames)
              counted in
        (
          ap (λ out. out.0) step_to
              ∙ rest
              ∙ sym (
                  run-append (others n)
                    (arrive (clock n) core frame ∷ arrivals clock others core (suc n) frames)
                    shared),
          (more.0, ap (λ out. out.1) step_to ∙ more.1),
        )

    module _ (memchr2 : ℕ → ℕ → List ℕ → Option ℕ) (read_v2_msg read_v1_msg : List ℕ → ReadResult)
        (m : IsMemchr2 memchr2) (two : IsReader read_v2_msg) (one : IsReader read_v1_msg) where
      abbrev looped :
          String
          → List Read
          → Shared Bus Queue
          → EndpointCore
          → List ℕ
          → Shared Bus Queue × EndpointCore × List ℕ × Status
      looped = reader_loop ahash_hash message_id_of send try_send memchr2 read_v2_msg read_v1_msg

      bytes-step :
          (name : String) (buf : List ℕ) (clock : ℕ → Clock) (others : ℕ → List Runs.Event)
          (reads : List Read) (shared : Shared Bus Queue) (core : EndpointCore) (buffer : List ℕ)
          (frames : List MavlinkFrame) (left : List ℕ)
          → frames_of memchr2 read_v2_msg read_v1_msg buffer buf ≡ some (frames, left)
          → let out =
              handle_frames ahash_hash message_id_of send try_send clock others 0 shared core
                frames in
            looped name (bytes buf clock others ∷ reads) shared core buffer
            ≡ looped name reads out.0 out.1 left
      unfolding reader_loop
      bytes-step name buf clock others reads shared core buffer frames left e =
          rw (reader_loop, e) refl

      -- A read handles the frames that stand in the buffer then.
      pub bytes-ran :
          (name : String) (buf : List ℕ) (clock : ℕ → Clock) (others : ℕ → List Runs.Event)
          (shared : Shared Bus Queue) (core : EndpointCore) (stats : EndpointStats)
          (buffer : List ℕ)
          → (frames : List MavlinkFrame) × (left : List ℕ) × (after : EndpointStats) × Tiles memchr2
              read_v2_msg read_v1_msg
              (push buffer buf)
              frames
              left
            × ((reads : List Read)
                → looped name
                    (bytes buf clock others ∷ reads)
                    shared
                    (record core { stats = stats })
                    buffer
                  ≡ looped name reads
                      (ran shared (arrivals clock others core 0 frames))
                      (record core { stats = after })
                      left)
      bytes-ran name buf clock others shared core stats buffer =
          let (frames, left, drained, tiles) =
            frames_of-Tiles memchr2 read_v2_msg read_v1_msg m two one buffer buf in
          let (same, (after, counted)) = frames-ran clock others 0 frames shared core stats in
          let out =
            handle_frames ahash_hash message_id_of send try_send clock others 0 shared
              (record core { stats = stats }) frames in
          (
            frames,
            left,
            after,
            tiles,
            λ reads.
                bytes-step name buf clock others reads shared (record core { stats = stats }) buffer
                  frames left drained
                ∙ ap (λ c. looped name reads out.0 c left) counted
                ∙ ap (λ s. looped name reads s (record core { stats = after }) left) same,
          )
