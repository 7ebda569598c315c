-- ===== src/Udp/Clients.antt =====
-- The clients of a server.
use mavrouter.Prelude.{
  ℕ, refl, sym, ap, subst, inl, inr, Bool, Option, none, some, List, [], map, arith, ltb, one_if,
  Bool-cases, Option-cases, ◌+◌, ◌-◌, ◌≡◌, ◌∙◌, ◌∷◌, ◌==◌, if◌then◌else◌, nat_eq,
}
use mavrouter.Prelude.Maps.{
  DistinctKeys, lookup, put, lookup-put, lookup-retain, lookup-retain_absent, retain-DistinctKeys,
}
use mavrouter.Mavlink.{MavMessage}
use mavrouter.Framing.{ReadResult}
use mavrouter.Routing.Time.{Instant, Duration}
use mavrouter.Routing.Table.{RouteUpdate}
use mavrouter.Endpoint.{RoutedMessage, EndpointCore, Shared, TrySend, check_outgoing_message}
use mavrouter.Udp.{
  SocketAddr, addr_beq_iff, addr_eq, Udp, Event, datagram, recv_error, lagged, outgoing, cleanup,
  elsewhere, start, targets, clean, handle_event, run_events,
}

-- What a cleanup leaves of the time at which an address was heard.
abbrev pub fresh : Duration → Instant → Option Instant → Option Instant
fresh ttl now none = none
fresh ttl now (some seen) = if ltb (now - seen) ttl then some seen else none

-- When one address was last heard: the datagrams of the others do not matter.
abbrev pub heard :
    {Bus Queue : Type 0}
    → Duration
    → SocketAddr
    → List (Event Bus Queue)
    → Option Instant
    → Option Instant
heard ttl addr [] last = last
heard ttl addr (datagram other buf seen peer_seen clock ∷ events) last =
    heard ttl addr events (if other == addr then some seen else last)
heard ttl addr (recv_error ∷ events) last = heard ttl addr events last
heard ttl addr (lagged n ∷ events) last = heard ttl addr events last
heard ttl addr (outgoing msg now sends ∷ events) last = heard ttl addr events last
heard ttl addr (cleanup now ∷ events) last = heard ttl addr events (fresh ttl now last)
heard ttl addr (elsewhere shared ∷ events) last = heard ttl addr events last

abbrev pub occurrences : SocketAddr → List SocketAddr → ℕ
occurrences addr [] = 0
occurrences addr (x ∷ xs) = one_if (x == addr) + occurrences addr xs

abbrev pub one_if_some {ℓ} : {A : Type ℓ} → Option A → ℕ
one_if_some none = 0
one_if_some (some a) = 1

put-DistinctKeys :
    (addr : SocketAddr) (seen : Instant) (m : List (SocketAddr × Instant))
    → DistinctKeys m
    → DistinctKeys (put addr seen m)
unfolding put lookup
put-DistinctKeys addr seen [] d = (refl, tt)
put-DistinctKeys addr seen ((j, w) ∷ m) d = ground (
  arith,
  addr_beq_iff j addr,
  lookup-put addr j seen m,
  addr_beq_iff addr j,
  put-DistinctKeys addr seen m d.1,
)

lookup-clean :
    (ttl : Duration) (now : Instant) (addr : SocketAddr) (m : List (SocketAddr × Instant))
    → DistinctKeys m
    → lookup addr (clean ttl now m) ≡ fresh ttl now (lookup addr m)
unfolding clean
lookup-clean ttl now addr m d =
    let p : SocketAddr × Instant → Bool = λ entry. ltb (now - entry.1) ttl in
    elim (Option-cases (lookup addr m)) [
      | inl h ↦ lookup-retain_absent p addr m h ∙ ap (fresh ttl now) (sym h)
      | inr (seen, h) ↦ lookup-retain p addr m seen d h ∙ ap (fresh ttl now) (sym h)
    ]

absent-occurrences :
    (addr : SocketAddr) (m : List (SocketAddr × Instant))
    → lookup addr m ≡ none
    → occurrences addr (map (λ entry. entry.0) m) ≡ 0
unfolding lookup
absent-occurrences addr [] h = refl
absent-occurrences addr ((j, w) ∷ m) h = ground (arith, absent-occurrences addr m)

occurrences-lookup :
    (addr : SocketAddr) (m : List (SocketAddr × Instant))
    → DistinctKeys m
    → occurrences addr (map (λ entry. entry.0) m) ≡ one_if_some (lookup addr m)
unfolding lookup
occurrences-lookup addr [] d = refl
occurrences-lookup addr ((j, w) ∷ m) d = elim (Bool-cases (j == addr)) [
  | inl same ↦
      let e : j ≡ addr = (addr_beq_iff j addr).0 same in
      let gone : lookup addr m ≡ none = subst (λ k. lookup k m ≡ none) e d.0 in
      rw same (omega (arith, absent-occurrences addr m gone))
  | inr other ↦ rw other (omega (arith, occurrences-lookup addr m d.1))
]

module _ {Bus Queue : Type 0} (ahash_hash : List ℕ → ℕ) (message_id_of : MavMessage → ℕ)
    (send : Bus → RoutedMessage → Bus × Bool) (try_send : Queue → RouteUpdate → Queue × TrySend)
    (read_v2_msg read_v1_msg : List ℕ → ReadResult) (ttl timeout : Duration)
    (target_addr : Option SocketAddr) where
  -- The step and the run with the parameters of the section.
  abbrev step : Shared Bus Queue → Udp → Event Bus Queue → Shared Bus Queue × Udp
  step =
      handle_event ahash_hash message_id_of send try_send read_v2_msg read_v1_msg ttl timeout
        target_addr

  abbrev all_steps : Shared Bus Queue → Udp → List (Event Bus Queue) → Shared Bus Queue × Udp
  all_steps =
      run_events ahash_hash message_id_of send try_send read_v2_msg read_v1_msg ttl timeout
        target_addr

  unchecked :
      (shared : Shared Bus Queue) (s : Udp) (msg : RoutedMessage) (now : Instant)
      (sends : SocketAddr → Bool)
      → (step shared s (outgoing msg now sends)).1.clients ≡ s.clients
  unfolding handle_event
  unchecked shared s msg now sends =
      elim (Bool-cases (check_outgoing_message shared.routing_table s.core msg)) [
        | inl pass ↦ rw pass refl
        | inr stop ↦ rw stop refl
      ]

  run_events-heard :
      (addr : SocketAddr) (events : List (Event Bus Queue)) (shared : Shared Bus Queue) (s : Udp)
      (last : Option Instant)
      → DistinctKeys s.clients
      → lookup addr s.clients ≡ last
      → DistinctKeys (all_steps shared s events).1.clients
        × (lookup addr (all_steps shared s events).1.clients ≡ heard ttl addr events last)
  unfolding run_events handle_event clean
  run_events-heard addr [] shared s last d e = (d, e)
  run_events-heard addr (datagram other buf seen peer_seen clock ∷ events) shared s last d e =
      run_events-heard addr events _ _ _ (put-DistinctKeys other seen s.clients d) (
        lookup-put other addr seen s.clients
        ∙ ap (λ rest. if other == addr then some seen else rest) e)
  run_events-heard addr (recv_error ∷ events) shared s last d e =
      run_events-heard addr events _ _ last d e
  run_events-heard addr (lagged n ∷ events) shared s last d e =
      run_events-heard addr events _ _ last d e
  run_events-heard addr (outgoing msg now sends ∷ events) shared s last d e =
      let same = unchecked shared s msg now sends in
      run_events-heard addr events _ (step shared s (outgoing msg now sends)).1 last
        (subst DistinctKeys (sym same) d) (ap (lookup addr) same ∙ e)
  run_events-heard addr (cleanup now ∷ events) shared s last d e =
      run_events-heard addr events _ _ _ (retain-DistinctKeys _ s.clients d)
        (lookup-clean ttl now addr s.clients d ∙ ap (fresh ttl now) e)
  run_events-heard addr (elsewhere other ∷ events) shared s last d e =
      run_events-heard addr events other s last d e

-- After any events, a server sends a message exactly once to every address that it has heard and
-- that no cleanup since has found silent for the time to live, and to no other address.
pub targets-heard :
    {Bus Queue : Type 0} (ahash_hash : List ℕ → ℕ) (message_id_of : MavMessage → ℕ)
    (send : Bus → RoutedMessage → Bus × Bool) (try_send : Queue → RouteUpdate → Queue × TrySend)
    (read_v2_msg read_v1_msg : List ℕ → ReadResult) (ttl timeout : Duration)
    (events : List (Event Bus Queue)) (shared : Shared Bus Queue) (core : EndpointCore)
    (addr : SocketAddr) (now : Instant)
    → occurrences addr (
        targets timeout none now
          (run_events ahash_hash message_id_of send try_send read_v2_msg read_v1_msg ttl timeout
            none shared
            (start core)
            events).1)
      ≡ one_if_some (heard ttl addr events none)
unfolding targets lookup
targets-heard hash id send try_send read_v2 read_v1 ttl timeout events shared core addr now =
    let (d, e) =
      run_events-heard hash id send try_send read_v2 read_v1 ttl timeout none addr events shared
        (start core) none tt refl in
    occurrences-lookup addr _ d ∙ ap one_if_some e
