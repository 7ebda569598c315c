-- ===== src/Examples/Transports.antt =====
-- The transports and the log at concrete inputs: a writer that does so many operations and then fails.
use mavrouter.Prelude.{
  ℕ, zero, suc, refl, sym, ◌∙◌, Bool, true, false, none, some, List, [], map, arith, ltb, length,
  ◌-◌, ◌≡◌, ◌∷◌, ◌++◌, if◌then◌else◌, nat_eq,
}
use mathlib.Core.List.{append-nil}
use mavrouter.Routing.Time.{from_secs}
use mavrouter.Endpoint.{RoutedMessage}
use mavrouter.Tlog
use mavrouter.Tlog.{Logger, run_loop}
use mavrouter.Tlog.Log.{IsWriter, Logged, Synced, synced, taken, records, run_loop-Logged}
use mavrouter.Tlog.Reading.{read_log, entry, frame_size, IsGood, read_log-run_loop}
use mavrouter.Udp
use mavrouter.Config.{client}
use mavrouter.Orchestration.{Context}
use mavrouter.Udp.{
  Host, SocketAddr, v4, Event, datagram, cleanup, is_broadcast_addr, targets, run_events,
}
use mavrouter.Udp.Clients.{heard, occurrences, one_if_some, targets-heard}
use mavrouter.Udp.Opening.{Reported, run-Reported}
use mavrouter.Udp.Peer.{IsAnswer, targets-last_answer}
use mavrouter.Examples.Traffic.{
  Bus, Queue, hash, send, try_send, message_id_of, core, clock, shared, message,
}
use mavrouter.Examples.Streams.{read_v2_msg, read_v1_msg, noisy}

-- What has been written, and how many operations still succeed.
abbrev pub Writer : Type 0
Writer = List ℕ × ℕ

abbrev pub write_all : Writer → List ℕ → Writer × Bool
write_all (bytes, zero) more = ((bytes, zero), false)
write_all (bytes, suc n) more = ((bytes ++ more, n), true)

abbrev pub flush : Writer → Writer × Bool
flush (bytes, zero) = ((bytes, zero), false)
flush (bytes, suc n) = ((bytes, n), true)

pub write_all-appends :
    (w : Writer) (more : List ℕ)
    → (write_all w more).1 ≡ true
    → (write_all w more).0.0 ≡ w.0 ++ more
write_all-appends (bytes, zero) more h = absurd (ground arith)
write_all-appends (bytes, suc n) more h = refl

pub write_all-part :
    (w : Writer) (more : List ℕ) → (left : List ℕ) × ((write_all w more).0.0 ++ left ≡ w.0 ++ more)
write_all-part (bytes, zero) more = (more, refl)
write_all-part (bytes, suc n) more = ([], append-nil (bytes ++ more))

pub flush-same : (w : Writer) → (flush w).0.0 ≡ w.0
flush-same (bytes, zero) = refl
flush-same (bytes, suc n) = refl

pub write_all-stays :
    (w : Writer) (more : List ℕ) → (added : List ℕ) × ((write_all w more).0.0 ≡ w.0 ++ added)
write_all-stays (bytes, zero) more = ([], sym (append-nil bytes))
write_all-stays (bytes, suc n) more = (more, refl)

abbrev pub writer : IsWriter write_all flush
writer = record {
  written = λ w. w.0;
  writes = write_all-appends;
  fails = write_all-part;
  flushes = flush-same;
  file = λ w. w.0;
  reaches = λ w h. flush-same w;
  stays_written = write_all-stays;
  stays_flushed = λ w. ([], flush-same w ∙ sym (append-nil w.0));
}

-- A heartbeat of version 1 with no payload.
abbrev pub heartbeat : RoutedMessage
heartbeat = record message {
  timestamp_us = 1_700_000_000_000_000;
  serialized_bytes = 0xFE ∷ 0 ∷ 7 ∷ 1 ∷ 1 ∷ 0 ∷ 9 ∷ 9 ∷ [];
}

abbrev logged : List Tlog.Event
logged = Tlog.message heartbeat ∷ Tlog.tick ∷ Tlog.lagged 3 ∷ Tlog.message heartbeat ∷ []

abbrev logger : ℕ → Logger Writer
logger operations = record { writer = ([], operations); bus_lagged = 0 }

-- The fifth operation fails: it writes the time stamp of the second message.
run_loop-Logged_example :
    Logged "log"
      (run_loop write_all flush "log" logged (logger 4)).1
      (run_loop write_all flush "log" logged (logger 4)).0.writer.0
      ([] ++ records (taken logged))
    × Synced
        (run_loop write_all flush "log" logged (logger 4)).1
        (run_loop write_all flush "log" logged (logger 4)).0.writer.0
        (synced [] [] logged)
run_loop-Logged_example = run_loop-Logged write_all flush writer "log" logged (logger 4)

framed : frame_size heartbeat.serialized_bytes ≡ length heartbeat.serialized_bytes
unfolding frame_size
framed = refl

good : IsGood (run_loop write_all flush "log" logged (logger 9)).1
unfolding run_loop Tlog.write_message
good = tt

read_log-run_loop_example :
    read_log
      (length (run_loop write_all flush "log" logged (logger 9)).0.writer.0)
      (run_loop write_all flush "log" logged (logger 9)).0.writer.0
    ≡ map entry (taken logged)
read_log-run_loop_example =
    read_log-run_loop write_all flush writer "log" logged (logger 9) refl
      ((omega arith, framed), ((omega arith, framed), tt)) good

abbrev station : SocketAddr
station = v4 192 168 1 7 14_550

abbrev everyone : SocketAddr
everyone = v4 192 168 1 255 14_550

abbrev datagrams : List (Event Bus Queue)
datagrams =
    datagram station noisy 5 5 clock
    ∷ datagram everyone noisy 6 6 clock
    ∷ cleanup 7
    ∷ Udp.lagged 2
    ∷ datagram station noisy 8 8 clock
    ∷ []

targets-heard_example :
    occurrences station (
      targets
        (from_secs 5)
        none
        9
        (run_events hash message_id_of send try_send read_v2_msg read_v1_msg
          (from_secs 300)
          (from_secs 5)
          none
          shared
          (Udp.start core)
          datagrams).1)
    ≡ one_if_some (heard (from_secs 300) station datagrams none)
targets-heard_example =
    targets-heard hash message_id_of send try_send read_v2_msg read_v1_msg (from_secs 300)
      (from_secs 5) datagrams shared core station 9

everyone_broadcasts : is_broadcast_addr everyone ≡ true
unfolding is_broadcast_addr
everyone_broadcasts = refl

station_answers : IsAnswer everyone station
unfolding is_broadcast_addr
station_answers = (refl, refl)

targets-last_answer_example :
    (targets
        (from_secs 5)
        (some everyone)
        9
        (run_events hash message_id_of send try_send read_v2_msg read_v1_msg
          (from_secs 300)
          (from_secs 5)
          (some everyone)
          shared
          (Udp.start core)
          (cleanup 7 ∷ [])).1
      ≡ everyone ∷ [])
    × (targets
          (from_secs 5)
          (some everyone)
          9
          (run_events hash message_id_of send try_send read_v2_msg read_v1_msg
            (from_secs 300)
            (from_secs 5)
            (some everyone)
            shared
            (Udp.start core)
            (datagrams ++ (datagram station noisy 5 5 clock ∷ cleanup 7 ∷ []))).1
        ≡ (if ltb (9 - 5) (from_secs 5) then station else everyone) ∷ [])
targets-last_answer_example =
    targets-last_answer hash message_id_of send try_send read_v2_msg read_v1_msg (from_secs 300)
      (from_secs 5) everyone datagrams (cleanup 7 ∷ []) shared core station noisy 5 5 9 clock
      everyone_broadcasts station_answers (tt, tt)

-- A target that must be broadcast to, on a host that refuses.
abbrev refusing : Host
refusing = record {
  resolved = some (everyone ∷ station ∷ []);
  binds = λ address. true;
  set_broadcast = false;
}

abbrev ctx : Context
ctx = record { id = core.id; filters = core.filters; stats = core.stats }

run-Reported_example :
    Reported hash message_id_of send try_send read_v2_msg read_v1_msg refusing shared ctx
      "192.168.1.255:14550" client 300 5 datagrams true
      (Udp.run hash message_id_of send try_send read_v2_msg read_v1_msg refusing shared ctx
        "192.168.1.255:14550" client 300 5 datagrams true)
run-Reported_example =
    run-Reported hash message_id_of send try_send read_v2_msg read_v1_msg refusing shared ctx
      "192.168.1.255:14550" client 300 5 datagrams true
