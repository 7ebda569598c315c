-- ===== src/Examples/Relays.antt =====
-- Endpoints on one bus at concrete inputs: a bus with the lists of what is pending, on which a
-- receiver that is more than two messages behind misses the oldest.
use mavrouter.Prelude.{
  ℕ, suc, refl, sym, ap, Bool, true, false, List, [], arith, length, ltb, ◌<◌, ◌≡◌, ◌∙◌, ◌∷◌, ◌++◌,
  if◌then◌else◌, nat_eq,
}
use mavrouter.Filter.{EndpointFilters}
use mavrouter.Routing.Table.{new}
use mavrouter.Dedup.{new_concurrent, bucket_count}
use mavrouter.Dedup.Window.{empty_window}
use mavrouter.Endpoint.{RoutedMessage}
use mavrouter.Endpoint.Runs.{published}
use mavrouter.Relay.{
  Relay, Delivery, got, missed, nothing, Event, arrive, rotate, reroute, forward, set_at,
  set_at_self, set_at_ne, run,
}
use mavrouter.Relay.Broadcast.{IsBroadcast}
use mavrouter.Relay.Accounts.{Accounted, IsPass}
use mavrouter.Relay.Delivered.{ingress, run-Accounted}
use mavrouter.Examples.Settings.{filters}
use mavrouter.Examples.Tables.{learned}
use mavrouter.Examples.Traffic.{hash, period, message_id_of, Queue, try_send, clock, core, frame}

record Channel : Type 0 where
  log : List RoutedMessage
  listeners : ℕ
  waiting : ℕ → List RoutedMessage

abbrev send : Channel → RoutedMessage → Channel × Bool
send c m =
    if ltb 0 c.listeners
    then (record c { log = m ∷ c.log; waiting = λ i. m ∷ c.waiting i }, true)
    else (c, false)

-- What a receiver gets of what is pending, and what is pending then.
abbrev next : List RoutedMessage → List RoutedMessage × Delivery
next [] = ([], nothing)
next (a ∷ []) = ([], got a)
next (a ∷ b ∷ []) = (a ∷ [], got b)
next (a ∷ b ∷ c ∷ ms) = (a ∷ b ∷ [], missed (suc (length ms)))

abbrev recv : Channel → ℕ → Channel × Delivery
recv c i =
    let given = next (c.waiting i) in (record c { waiting = set_at c.waiting i given.0 }, given.1)

send-delivers :
    (c : Channel) (m : RoutedMessage)
    → 0 < c.listeners
    → ((send c m).1 ≡ true) × ((send c m).0.log ≡ m ∷ c.log)
send-delivers c m h = ground arith

send-refuses :
    (c : Channel) (m : RoutedMessage)
    → c.listeners ≡ 0
    → ((send c m).1 ≡ false) × ((send c m).0.log ≡ c.log)
send-refuses c m h = ground arith

send-keeps : (c : Channel) (m : RoutedMessage) → (send c m).0.listeners ≡ c.listeners
send-keeps c m = ground arith

send-appends :
    (c : Channel) (m : RoutedMessage) (i : ℕ)
    → 0 < c.listeners
    → (send c m).0.waiting i ≡ m ∷ c.waiting i
send-appends c m i h = ground arith

next-gives :
    (ms : List RoutedMessage) (m : RoutedMessage)
    → (next ms).1 ≡ got m
    → ms ≡ (next ms).0 ++ (m ∷ [])
next-gives [] m h = ground (arith, h)
next-gives (a ∷ []) m h = ground (arith, h)
next-gives (a ∷ b ∷ []) m h = ground (arith, h)
next-gives (a ∷ b ∷ c ∷ ms) m h = ground (arith, h)

next-skips :
    (ms : List RoutedMessage) (n : ℕ)
    → (next ms).1 ≡ missed n
    → (skipped : List RoutedMessage) × (ms ≡ (next ms).0 ++ skipped) × (length skipped ≡ n)
next-skips [] n h = ground (arith, h)
next-skips (a ∷ []) n h = ground (arith, h)
next-skips (a ∷ b ∷ []) n h = ground (arith, h)
next-skips (a ∷ b ∷ c ∷ ms) n h = (c ∷ ms, refl, ground (arith, h))

next-waits : (ms : List RoutedMessage) → (next ms).1 ≡ nothing → (ms ≡ []) × ((next ms).0 ≡ [])
next-waits [] h = (refl, refl)
next-waits (a ∷ []) h = ground (arith, h)
next-waits (a ∷ b ∷ []) h = ground (arith, h)
next-waits (a ∷ b ∷ c ∷ ms) h = ground (arith, h)

-- What is pending for a receiver after it has received.
waiting-recv : (c : Channel) (i : ℕ) → (next (c.waiting i)).0 ≡ (recv c i).0.waiting i
waiting-recv c i = sym (set_at_self c.waiting i (next (c.waiting i)).0)

abbrev broadcast : IsBroadcast send recv
broadcast = record {
  bus = record {
    sent = λ c. c.log;
    receivers = λ c. c.listeners;
    delivers = send-delivers;
    refuses = send-refuses;
    keeps = send-keeps;
  };
  pending = λ c i. c.waiting i;
  appends = send-appends;
  gives = λ c i m h. next-gives (c.waiting i) m h ∙ ap (λ ms. ms ++ (m ∷ [])) (waiting-recv c i);
  skips = λ c i n h.
      let (skipped, p, counted) = next-skips (c.waiting i) n h in
      (skipped, p ∙ ap (λ ms. ms ++ skipped) (waiting-recv c i), counted);
  waits = λ c i h.
      let (before, after) = next-waits (c.waiting i) h in (before, sym (waiting-recv c i) ∙ after);
  others = λ c i k ne. set_at_ne c.waiting i k (next (c.waiting i)).0 ne;
  logs = λ c i. refl;
  listens = λ c i. refl;
}

abbrev open_filters : EndpointFilters
open_filters = record filters { block_msg_id_out = [] }

abbrev relay : Relay Channel Queue
relay = record {
  shared = record {
    bus_tx = record { log = []; listeners = 2; waiting = λ i. [] };
    routing_table = learned;
    route_update_tx = [];
    dedup = new_concurrent period;
  };
  cores = λ i. record core { id = i; filters = open_filters };
  written = λ i. [];
}

abbrev events : List Event
events =
    arrive clock 1 frame
    ∷ forward 7 (true ∷ false ∷ true ∷ [])
    ∷ rotate
    ∷ reroute new
    ∷ forward 1 (true ∷ [])
    ∷ forward 7 (false ∷ [])
    ∷ []

run-Accounted_example :
    let after = run hash message_id_of send recv try_send relay events in
    (after.shared.bus_tx.log
      ≡ published hash message_id_of
          (empty_window (bucket_count period))
          []
          (ingress relay.cores events))
    × Accounted
        (IsPass 7 learned events)
        (relay.cores 7)
        []
        after.shared.bus_tx.log
        (after.shared.bus_tx.waiting 7)
        (after.written 7)
        (after.cores 7).stats
run-Accounted_example =
    run-Accounted hash message_id_of send recv try_send broadcast period 7 relay events
      (omega arith) refl (omega arith) refl refl refl
