-- ===== src/StreamLoop/Select.antt =====
-- src/endpoint_core/stream_loop.rs, `run_stream_loop`: both loops at once, up to the end of the first.
use mavrouter.Prelude.{ℕ, Bool, Option, List, [], ◌∷◌, nat_eq}
use Prim.Native.String.{String}
use mavrouter.Mavlink.{MavMessage}
use mavrouter.Framing.{ReadResult}
use mavrouter.Routing.Table.{RouteUpdate}
use mavrouter.Config.{ok}
use mavrouter.Endpoint.{RoutedMessage, EndpointCore, Shared, TrySend}
use mavrouter.StreamLoop.{
  Status, running, returned, goes_on, Read, Received, Place, Sender, reader_loop, receive, at_recv,
}

-- What comes next: to the reading loop, to the writing loop, or the cancellation.
pub data Next : Type 0 where
  reads : Read → Next
  receives : Received → Next
  is_cancelled : Next

-- The two loops have clones of one core, whose counters they share.
pub record Stream (Bus Queue Writer : Type 0) : Type 0 where
  pub shared : Shared Bus Queue
  pub buffer : List ℕ
  pub place : Place
  pub sender : Sender Writer

module _ {Bus Queue Writer : Type 0} where
  -- A new parser, and a writer in front of which nothing is buffered.
  abbrev pub start : Shared Bus Queue → EndpointCore → Writer → Stream Bus Queue Writer
  start shared core writer = record {
    shared = shared;
    buffer = [];
    place = at_recv;
    sender = record { core = core; writer = writer };
  }

  abbrev pub after_read :
      Stream Bus Queue Writer
      → Shared Bus Queue × EndpointCore × List ℕ × Status
      → Stream Bus Queue Writer × Status
  after_read s out =
      let sender = s.sender in
      let counted : Sender Writer = record sender { core = out.1 } in
      (record s { shared = out.0; buffer = out.2; sender = counted }, out.3)

  abbrev pub after_receive :
      Stream Bus Queue Writer → Place × Sender Writer × Status → Stream Bus Queue Writer × Status
  after_receive s out = (record s { place = out.0; sender = out.1 }, out.2)

module _ {Bus Queue Writer : Type 0} (ahash_hash : List ℕ → ℕ) (message_id_of : MavMessage → ℕ)
    (send : Bus → RoutedMessage → Bus × Bool) (try_send : Queue → RouteUpdate → Queue × TrySend)
    (memchr2 : ℕ → ℕ → List ℕ → Option ℕ) (read_v2_msg read_v1_msg : List ℕ → ReadResult)
    (write_all : Writer → List ℕ → Writer × Bool) (flush : Writer → Writer × Bool)
    (name : String) where
  -- A pass of the loop that is next.
  unfoldable pub next_pass : Stream Bus Queue Writer → Next → Stream Bus Queue Writer × Status
  next_pass s (reads read) = after_read s (
      reader_loop ahash_hash message_id_of send try_send memchr2 read_v2_msg read_v1_msg name
        (read ∷ []) s.shared s.sender.core s.buffer)
  next_pass s (receives received) =
      after_receive s (receive write_all flush name received s.place s.sender)
  next_pass s is_cancelled = (s, returned (ok tt))

  unfoldable pub run_stream_loop :
      Stream Bus Queue Writer → List Next → Stream Bus Queue Writer × Status
  run_stream_loop s [] = (s, running)
  run_stream_loop s (next ∷ nexts) =
      let passed = next_pass s next in goes_on passed.1 (run_stream_loop passed.0 nexts) passed
