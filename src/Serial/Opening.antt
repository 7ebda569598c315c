-- ===== src/Serial/Opening.antt =====
-- How a serial endpoint ends.
use mavrouter.Prelude.{
  ℕ, refl, ap, inl, inr, Bool, true, Option, none, some, List, arith, leb, Bool-cases, ◌≤◌, ◌<◌,
  ◌≡◌, ◌↔◌, ◌⊎◌, nat_eq,
}
use Prim.Native.String.{String}
use mavrouter.Mavlink.{MavMessage}
use mavrouter.Framing.{ReadResult}
use mavrouter.Framing.Parse.{IsMemchr2}
use mavrouter.Routing.Time.{from_secs}
use mavrouter.Routing.Table.{RouteUpdate}
use mavrouter.Config.{
  FlowControl, RouterError, Result, ok, err, network, serial_error, serial_timeout,
}
use mavrouter.Endpoint.{RoutedMessage, Shared, TrySend}
use mavrouter.Endpoint.Bus.{IsBus}
use mavrouter.Orchestration.{Context, endpoint_core}
use mavrouter.Tlog.Log.{IsWriter}
use mavrouter.StreamLoop.{returned}
use mavrouter.StreamLoop.Reader.{IsReader}
use mavrouter.StreamLoop.Select.{Next, start, run_stream_loop}
use mavrouter.StreamLoop.Carried.{run_stream_loop-err}
use mavrouter.Serial.{
  Joined, joined, panicked, Future, inner, open_fut, open_timeout, apply_open_timeout, open_and_run,
  run,
}

-- The open takes more than three seconds; it fails in that time; it gives a port in that time.
abbrev pub IsLate : Future (Joined (List Next)) → Type 0
IsLate none = Unit
IsLate (some (time, result)) = from_secs 3 < time

abbrev pub Fails : Future (Joined (List Next)) → Type 0
Fails none = ⊥
Fails (some (time, result)) = (time ≤ from_secs 3) × (inner result ≡ none)

abbrev pub Opens : Future (Joined (List Next)) → List Next → Type 0
Opens none port = ⊥
Opens (some (time, result)) port = (time ≤ from_secs 3) × (inner result ≡ some port)

module _ (device : String) where
  abbrev opened : Future (Joined (List Next)) → Result (List Next)
  opened opening = apply_open_timeout device open_timeout (open_fut opening)

  -- The three ways in which an open ends.
  open-cases :
      (opening : Future (Joined (List Next)))
      → (IsLate opening × (opened opening ≡ err (serial_timeout device 3)))
        ⊎ ((Fails opening × (opened opening ≡ err (serial_error device)))
            ⊎ ((port : List Next) × Opens opening port × (opened opening ≡ ok port)))
  unfolding apply_open_timeout
  open-cases none = inl (tt, refl)
  open-cases (some (time, panicked)) = elim (Bool-cases (leb time open_timeout)) [
    | inl soon ↦ inr (inl ((ground (arith, soon), refl), rw soon refl))
    | inr late ↦ inl (ground (arith, late), rw late refl)
  ]
  open-cases (some (time, joined none)) = elim (Bool-cases (leb time open_timeout)) [
    | inl soon ↦ inr (inl ((ground (arith, soon), refl), rw soon refl))
    | inr late ↦ inl (ground (arith, late), rw late refl)
  ]
  open-cases (some (time, joined (some port))) = elim (Bool-cases (leb time open_timeout)) [
    | inl soon ↦ inr (inr (port, (ground (arith, soon), refl), rw soon refl))
    | inr late ↦ inl (ground (arith, late), rw late refl)
  ]

late-not-Fails : (opening : Future (Joined (List Next))) → IsLate opening → Fails opening → ⊥
late-not-Fails none late fails = fails
late-not-Fails (some (time, result)) late fails = omega (arith, late, fails.0)

late-not-Opens :
    (opening : Future (Joined (List Next))) (port : List Next)
    → IsLate opening
    → Opens opening port
    → ⊥
late-not-Opens none port late opens = opens
late-not-Opens (some (time, result)) port late opens = omega (arith, late, opens.0)

Fails-not-Opens :
    (opening : Future (Joined (List Next))) (port : List Next)
    → Fails opening
    → Opens opening port
    → ⊥
Fails-not-Opens none port fails opens = fails
Fails-not-Opens (some (time, result)) port fails opens = ground (arith, fails.1, opens.1)

Opens-unique :
    (opening : Future (Joined (List Next))) (port other : List Next)
    → Opens opening port
    → Opens opening other
    → port ≡ other
Opens-unique none port other opens again = absurd opens
Opens-unique (some (time, result)) port other opens again = ground (arith, opens.1, again.1)

module _ {Bus Queue Writer : Type 0} (ahash_hash : List ℕ → ℕ) (message_id_of : MavMessage → ℕ)
    (send : Bus → RoutedMessage → Bus × Bool) (try_send : Queue → RouteUpdate → Queue × TrySend)
    (memchr2 : ℕ → ℕ → List ℕ → Option ℕ) (read_v2_msg read_v1_msg : List ℕ → ReadResult)
    (write_all : Writer → List ℕ → Writer × Bool) (flush : Writer → Writer × Bool)
    (spawn_blocking : String → ℕ → FlowControl → Future (Joined (List Next))) (bus : IsBus send)
    (m : IsMemchr2 memchr2) (two : IsReader read_v2_msg) (one : IsReader read_v1_msg)
    (w : IsWriter write_all flush) where
  -- With the bus, the byte search, the readers and the writer as documented, a serial endpoint
  -- reports a timeout of three seconds exactly if the open takes longer, or never ends, and an
  -- error of the device exactly if the open fails in that time, a panic of its task included; then
  -- nothing of the router has changed. If it gives a port in that time, the endpoint does what the
  -- stream loop does with it; and whatever error it returns is the timeout, the device's error, or
  -- the stream's, which only an open port has.
  pub run-err :
      (shared : Shared Bus Queue) (writer : Writer) (ctx : Context) (device : String) (baud : ℕ)
      (flow_control : FlowControl)
      → let opening = spawn_blocking device baud flow_control in
        let stream = start shared (endpoint_core ctx true) writer in
        let out =
          run ahash_hash message_id_of send try_send memchr2 read_v2_msg read_v1_msg write_all flush
            spawn_blocking shared writer ctx device baud flow_control in
        ((out.1 ≡ returned (err (serial_timeout device 3))) ↔ IsLate opening)
        × ((out.1 ≡ returned (err (serial_error device))) ↔ Fails opening)
        × ((IsLate opening ⊎ Fails opening) → out.0 ≡ stream)
        × ((port : List Next)
            → Opens opening port
            → out
              ≡ run_stream_loop ahash_hash message_id_of send try_send memchr2 read_v2_msg
                  read_v1_msg write_all flush device stream port)
        × ((e : RouterError)
            → out.1 ≡ returned (err e)
            → (e ≡ serial_timeout device 3)
              ⊎ ((e ≡ serial_error device)
                  ⊎ ((e ≡ network device) × ((port : List Next) × Opens opening port))))
  unfolding run open_and_run
  run-err shared writer ctx device baud flow_control =
      let opening = spawn_blocking device baud flow_control in
      let stream = start shared (endpoint_core ctx true) writer in
      elim (open-cases device opening) [
        | inl (late, h) ↦ rw h (
          (λ k. late, λ k. refl),
          (λ k. absurd (ground (arith, k)), λ fails. absurd (late-not-Fails opening late fails)),
          λ either. refl,
          λ port opens. absurd (late-not-Opens opening port late opens),
          λ e k. inl (ground (arith, k)),
        )
        | inr (inl (fails, h)) ↦ rw h (
          (λ k. absurd (ground (arith, k)), λ late. absurd (late-not-Fails opening late fails)),
          (λ k. fails, λ k. refl),
          λ either. refl,
          λ port opens. absurd (Fails-not-Opens opening port fails opens),
          λ e k. inr (inl (ground (arith, k))),
        )
        | inr (inr (port, opens, h)) ↦
            let named =
              run_stream_loop-err ahash_hash message_id_of send try_send memchr2 read_v2_msg
                read_v1_msg write_all flush bus m two one w device stream port in
            rw h (
              (
                λ k. absurd (ground (arith, named (serial_timeout device 3) k)),
                λ late. absurd (late-not-Opens opening port late opens),
              ),
              (
                λ k. absurd (ground (arith, named (serial_error device) k)),
                λ fails. absurd (Fails-not-Opens opening port fails opens),
              ),
              λ either. absurd (elim either [
                | inl late ↦ late-not-Opens opening port late opens
                | inr fails ↦ Fails-not-Opens opening port fails opens
              ]),
              λ other again.
                  ap
                    (run_stream_loop ahash_hash message_id_of send try_send memchr2 read_v2_msg
                      read_v1_msg write_all flush device stream)
                    (Opens-unique opening port other opens again),
              λ e k. inr (inr (named e k, (port, opens))),
            )
      ]
