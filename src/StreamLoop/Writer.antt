-- ===== src/StreamLoop/Writer.antt =====
-- What the writing loop has written.
use mavrouter.Prelude.{
  ℕ, zero, suc, refl, sym, ap, inl, inr, Bool, true, false, List, [], Bool-cases, ◌≡◌, ◌∙◌, ◌∷◌,
  ◌++◌, if◌then◌else◌, nat_eq,
}
use Prim.Native.String.{String}
use mathlib.Core.List.{append-nil}
use mavrouter.Routing.Table.{RoutingTable}
use mavrouter.Config.{ok, err, network}
use mavrouter.Endpoint.{RoutedMessage, EndpointStats, EndpointCore, check_outgoing_message}
use mavrouter.Tlog.Log.{IsWriter}
use mavrouter.StreamLoop.{
  Status, running, returned, stuck, Received, message, lagged, empty, closed, Place, at_recv,
  in_batch, Sender, write_message, flush_batch, end_pass, on_message, on_empty, on_lagged,
}

-- The bytes of the messages that are for the endpoint, up to the end of the bus.
abbrev pub outgoing : EndpointCore → List Received → List ℕ
outgoing core [] = []
outgoing core (message msg rt is_cancelled ∷ bus_rx) =
    let rest = outgoing core bus_rx in
    if check_outgoing_message rt core msg then msg.serialized_bytes ++ rest else rest
outgoing core (lagged n ∷ bus_rx) = outgoing core bus_rx
outgoing core (empty ∷ bus_rx) = outgoing core bus_rx
outgoing core (closed ∷ bus_rx) = []

-- All has been written, or the writing breaks off and the error names the stream.
abbrev pub Sent : String → Status → List ℕ → List ℕ → Type 0
Sent name running log full = log ≡ full
Sent name (returned (ok u)) log full = log ≡ full
Sent name (returned (err e)) log full =
    (e ≡ network name) × ((left : List ℕ) × (log ++ left ≡ full))
Sent name stuck log full = ⊥

module _ {Writer : Type 0} (write_all : Writer → List ℕ → Writer × Bool)
    (flush : Writer → Writer × Bool) (w : IsWriter write_all flush) (core : EndpointCore) where
  -- The core but for its counters.
  abbrev pub IsCore : EndpointCore → Type 0
  IsCore other = (stats : EndpointStats) × (other ≡ record core { stats = stats })

  -- What a handler has written, if all went well or not.
  abbrev pub Wrote : Sender Writer → List ℕ → Sender Writer → Bool → Type 0
  Wrote s bytes after true =
      IsCore after.core × (w.written after.writer ≡ w.written s.writer ++ bytes)
  Wrote s bytes after false =
      (left : List ℕ) × (w.written after.writer ++ left ≡ w.written s.writer ++ bytes)

  IsCore-checks :
      (other : EndpointCore) (rt : RoutingTable) (msg : RoutedMessage)
      → IsCore other
      → check_outgoing_message rt other msg ≡ check_outgoing_message rt core msg
  unfolding check_outgoing_message
  IsCore-checks other rt msg (stats, e) = ap (λ c. check_outgoing_message rt c msg) e

  pub IsCore-counted :
      (other : EndpointCore) (stats : EndpointStats)
      → IsCore other
      → IsCore (record other { stats = stats })
  IsCore-counted other stats (old, e) =
      (stats, ap {A = EndpointCore} (λ c. record c { stats = stats }) e)

  write_message-Wrote :
      (s : Sender Writer) (msg : RoutedMessage)
      → IsCore s.core
      → Wrote s msg.serialized_bytes
          (write_message write_all flush s msg).0
          (write_message write_all flush s msg).1
  unfolding write_message
  write_message-Wrote s msg c = elim (Bool-cases (write_all s.writer msg.serialized_bytes).1) [
    | inl good ↦ rw good (IsCore-counted s.core _ c, w.writes s.writer msg.serialized_bytes good)
    | inr bad ↦ rw bad (w.fails s.writer msg.serialized_bytes)
  ]

  flush_batch-Wrote :
      (s : Sender Writer)
      → IsCore s.core
      → Wrote s [] (flush_batch write_all flush s).0 (flush_batch write_all flush s).1
  unfolding flush_batch
  flush_batch-Wrote s c =
      let same = w.flushes s.writer in
      elim (Bool-cases (flush s.writer).1) [
        | inl good ↦ rw good (c, same ∙ sym (append-nil (w.written s.writer)))
        | inr bad ↦ rw bad ([], ap (λ bs. bs ++ []) same)
      ]

  end_pass-Wrote :
      (passes : ℕ) (s : Sender Writer)
      → IsCore s.core
      → Wrote s [] (end_pass write_all flush passes s).1 (end_pass write_all flush passes s).2
  unfolding end_pass
  end_pass-Wrote zero s c = flush_batch-Wrote s c
  end_pass-Wrote (suc passes) s c = (c, sym (append-nil (w.written s.writer)))

  -- A handler that writes nothing after one that has written all its bytes.
  Wrote-then :
      (s between after : Sender Writer) (bytes : List ℕ) (good : Bool)
      → w.written between.writer ≡ w.written s.writer ++ bytes
      → Wrote between [] after good
      → Wrote s bytes after good
  Wrote-then s between after bytes true e (c, more) =
      (c, more ∙ append-nil (w.written between.writer) ∙ e)
  Wrote-then s between after bytes false e (left, part) =
      (left, part ∙ append-nil (w.written between.writer) ∙ e)

  -- The bytes of one message.
  abbrev pub bytes_of : RoutedMessage → RoutingTable → List ℕ
  bytes_of msg rt = if check_outgoing_message rt core msg then msg.serialized_bytes else []

  pub on_message-Wrote :
      (place : Place) (s : Sender Writer) (msg : RoutedMessage) (rt : RoutingTable)
      → IsCore s.core
      → Wrote s
          (bytes_of msg rt)
          (on_message write_all flush place s msg rt).1
          (on_message write_all flush place s msg rt).2
  unfolding on_message
  on_message-Wrote at_recv s msg rt c =
      let checks = IsCore-checks s.core rt msg c in
      elim (Bool-cases (check_outgoing_message rt core msg)) [
        | inl pass ↦ rw (checks, pass) (write_message-Wrote s msg c)
        | inr stop ↦ rw (checks, stop) (c, sym (append-nil (w.written s.writer)))
      ]
  on_message-Wrote (in_batch passes) s msg rt c =
      let checks = IsCore-checks s.core rt msg c in
      let wrote = write_message write_all flush s msg in
      let first = write_message-Wrote s msg c in
      elim (Bool-cases (check_outgoing_message rt core msg)) [
        | inl pass ↦ elim (Bool-cases wrote.1) [
          | inl good ↦
              let (again, e) = rw good at first in
              rw (checks, pass, good)
                (Wrote-then s wrote.0 _ msg.serialized_bytes _ e
                  (end_pass-Wrote passes wrote.0 again))
          | inr bad ↦ rw (checks, pass, bad) (rw bad at first)
        ]
        | inr stop ↦ rw (checks, stop) (end_pass-Wrote passes s c)
      ]

  pub on_lagged-Wrote :
      (place : Place) (s : Sender Writer)
      → IsCore s.core
      → Wrote s [] (on_lagged write_all flush place s).1 (on_lagged write_all flush place s).2
  on_lagged-Wrote at_recv s c = (c, sym (append-nil (w.written s.writer)))
  on_lagged-Wrote (in_batch passes) s c = end_pass-Wrote passes s c

  pub on_empty-Wrote :
      (place : Place) (s : Sender Writer)
      → IsCore s.core
      → Wrote s [] (on_empty write_all flush place s).1 (on_empty write_all flush place s).2
  on_empty-Wrote at_recv s c = (c, sym (append-nil (w.written s.writer)))
  on_empty-Wrote (in_batch passes) s c = flush_batch-Wrote s c

  pub bytes_of-others :
      (msg : RoutedMessage) (rt : RoutingTable) (is_cancelled : Bool) (bus_rx : List Received)
      → bytes_of msg rt ++ outgoing core bus_rx
        ≡ outgoing core (message msg rt is_cancelled ∷ bus_rx)
  bytes_of-others msg rt is_cancelled bus_rx =
      elim (Bool-cases (check_outgoing_message rt core msg)) [
        | inl pass ↦ rw pass refl
        | inr stop ↦ rw stop refl
      ]
