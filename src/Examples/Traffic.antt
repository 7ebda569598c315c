-- ===== src/Examples/Traffic.antt =====
-- The deduplicator and the endpoints at concrete inputs: a bus that is the list of its messages
-- and a number of receivers, and the length of a payload for its hash.
use mavrouter.Prelude.{
  ℕ, zero, suc, refl, Bool, true, false, List, [], arith, length, ◌<◌, ◌≡◌, ◌≢◌, ◌↔◌, ◌⊎◌, ◌∷◌,
  nat_eq,
}
use mavrouter.Mavlink.{MavMessage, v2, param_request_list}
use mavrouter.Framing.{MavlinkFrame}
use mavrouter.Filter.{PassesOutgoing}
use mavrouter.Routing.Time.{Duration, from_millis}
use mavrouter.Routing.Table.{RouteUpdate}
use mavrouter.Routing.View.{view}
use mavrouter.Routing.Decisions.{IsSniffer, Routed}
use mavrouter.Dedup.{new_concurrent, bucket_count}
use mavrouter.Dedup.Window.{empty_window}
use mavrouter.Dedup.Replies
use mavrouter.Dedup.Replies.{replies, window_replies, replies-window, replies-off}
use mavrouter.Endpoint.{
  RoutedMessage, EndpointCore, Shared, TrySend, sent, Clock, new_stats, check_outgoing_message,
  handle_incoming_frame,
}
use mavrouter.Endpoint.Bus.{IsBus}
use mavrouter.Endpoint.Outgoing.{check_outgoing_message_iff}
use mavrouter.Endpoint.Ingress.{Counted, handle_incoming_frame-Counted}
use mavrouter.Endpoint.Runs.{rotate}
use mavrouter.Examples.Tables.{learned}
use mavrouter.Examples.Settings.{filters, header}

abbrev pub hash : List ℕ → ℕ
hash payload = length payload

abbrev pub period : Duration
period = from_millis 300

abbrev traffic : List Replies.Event
traffic =
    Replies.frame (1 ∷ 2 ∷ [])
    ∷ Replies.rotate
    ∷ Replies.frame (1 ∷ 2 ∷ [])
    ∷ Replies.frame (3 ∷ [])
    ∷ Replies.rotate
    ∷ Replies.rotate
    ∷ Replies.frame (1 ∷ 2 ∷ [])
    ∷ []

replies-window_example :
    replies hash (new_concurrent period) traffic
    ≡ window_replies hash (empty_window (bucket_count period)) traffic
replies-window_example = replies-window hash period traffic (omega arith)

abbrev pub Bus : Type 0
Bus = List RoutedMessage × ℕ

abbrev pub send : Bus → RoutedMessage → Bus × Bool
send (messages, zero) m = ((messages, zero), false)
send (messages, suc n) m = ((m ∷ messages, suc n), true)

abbrev pub Queue : Type 0
Queue = List RouteUpdate

abbrev pub try_send : Queue → RouteUpdate → Queue × TrySend
try_send queue update = (update ∷ queue, sent)

pub send-delivers :
    (b : Bus) (m : RoutedMessage) → 0 < b.1 → ((send b m).1 ≡ true) × ((send b m).0.0 ≡ m ∷ b.0)
send-delivers (messages, zero) m h = elim h [ ]
send-delivers (messages, suc n) m h = (refl, refl)

pub send-refuses :
    (b : Bus) (m : RoutedMessage) → b.1 ≡ 0 → ((send b m).1 ≡ false) × ((send b m).0.0 ≡ b.0)
send-refuses (messages, zero) m h = (refl, refl)
send-refuses (messages, suc n) m h = absurd (omega (arith, h))

pub send-keeps : (b : Bus) (m : RoutedMessage) → (send b m).0.1 ≡ b.1
send-keeps (messages, zero) m = refl
send-keeps (messages, suc n) m = refl

abbrev pub bus : IsBus send
bus = record {
  sent = λ b. b.0;
  receivers = λ b. b.1;
  delivers = send-delivers;
  refuses = send-refuses;
  keeps = send-keeps;
}

abbrev pub message_id_of : MavMessage → ℕ
message_id_of message = 30

abbrev pub core : EndpointCore
core = record { id = 7; filters = filters; update_routing = true; stats = new_stats }

abbrev pub clock : Clock
clock = record { now = 1000; start_unix = 1_700_000_000_000_000_000; elapsed = 1000 }

abbrev pub frame : MavlinkFrame
frame = record {
  header = header;
  message = param_request_list (record { target_system = 1; target_component = 0 });
  version = v2;
  raw_bytes = 0xFD ∷ 2 ∷ 0 ∷ [];
}

abbrev pub shared : Shared Bus Queue
shared = record {
  bus_tx = ([], 3);
  routing_table = learned;
  route_update_tx = [];
  dedup = new_concurrent period;
}

abbrev pub message : RoutedMessage
message = record {
  source_id = 3;
  header = header;
  message_id = 21;
  version = v2;
  timestamp_us = 0;
  serialized_bytes = [];
  target = record { system_id = 1; component_id = 0 };
}

check_outgoing_message_iff_example : (check_outgoing_message learned core message ≡ true) ↔ (
    (message.source_id ≢ core.id)
    × PassesOutgoing core.filters message.header message.message_id
    × (IsSniffer (view learned) core.id
        ⊎ (message.target.system_id ≡ 0)
        ⊎ Routed (view learned) core.id message.target.system_id message.target.component_id))
check_outgoing_message_iff_example = check_outgoing_message_iff learned core message

handle_incoming_frame-Counted_example :
    Counted hash message_id_of send try_send bus clock shared.bus_tx core frame
      (handle_incoming_frame hash message_id_of send try_send clock shared core frame)
handle_incoming_frame-Counted_example =
    handle_incoming_frame-Counted hash message_id_of send try_send bus clock shared core frame
