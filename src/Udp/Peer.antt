-- ===== src/Udp/Peer.antt =====
-- The peer of a client that broadcasts.
use mavrouter.Prelude.{
  ℕ, refl, ap, inl, inr, Bool, true, false, Option, some, List, [], arith, ltb, Bool-cases, All,
  ◌-◌, ◌≡◌, ◌∙◌, ◌⊎◌, ◌∷◌, ◌++◌, ◌==◌, if◌then◌else◌, nat_eq,
}
use mavrouter.Mavlink.{MavMessage}
use mavrouter.Framing.{ReadResult}
use mavrouter.Routing.Time.{Instant, Duration}
use mavrouter.Routing.Table.{RouteUpdate}
use mavrouter.Endpoint.{RoutedMessage, EndpointCore, Shared, Clock, TrySend, check_outgoing_message}
use mavrouter.Udp.{
  SocketAddr, addr_beq_iff, addr_eq, Udp, Event, datagram, recv_error, lagged, outgoing, cleanup,
  elsewhere, start, targets, track_peer, send_addr, is_broadcast_addr, handle_event, run_events,
}

-- A datagram that answers a broadcast: from another address, which is no broadcast address.
abbrev pub IsAnswer : SocketAddr → SocketAddr → Type 0
IsAnswer target addr = ((addr == target) ≡ false) × (is_broadcast_addr addr ≡ false)

-- No answer.
abbrev pub IsSilent : {Bus Queue : Type 0} → SocketAddr → Event Bus Queue → Type 0
IsSilent target (datagram addr buf seen peer_seen clock) =
    (addr ≡ target) ⊎ (is_broadcast_addr addr ≡ true)
IsSilent target recv_error = Unit
IsSilent target (lagged n) = Unit
IsSilent target (outgoing msg now sends) = Unit
IsSilent target (cleanup now) = Unit
IsSilent target (elsewhere shared) = Unit

track_peer-silent :
    (target addr : SocketAddr) (now : Instant) (peer : Option (SocketAddr × Instant))
    → (addr ≡ target) ⊎ (is_broadcast_addr addr ≡ true)
    → track_peer (some target) addr now peer ≡ peer
unfolding track_peer
track_peer-silent target addr now peer h = ground (arith, addr_beq_iff addr target)

track_peer-answer :
    (target addr : SocketAddr) (now : Instant) (peer : Option (SocketAddr × Instant))
    → is_broadcast_addr target ≡ true
    → IsAnswer target addr
    → track_peer (some target) addr now peer ≡ some (addr, now)
unfolding track_peer
track_peer-answer target addr now peer broadcast answer = rw (broadcast, answer.0, answer.1) refl

module _ {Bus Queue : Type 0} (ahash_hash : List ℕ → ℕ) (message_id_of : MavMessage → ℕ)
    (send : Bus → RoutedMessage → Bus × Bool) (try_send : Queue → RouteUpdate → Queue × TrySend)
    (read_v2_msg read_v1_msg : List ℕ → ReadResult) (ttl timeout : Duration)
    (target : SocketAddr) where
  -- The step and the run with the parameters of the section.
  abbrev step : Shared Bus Queue → Udp → Event Bus Queue → Shared Bus Queue × Udp
  step =
      handle_event ahash_hash message_id_of send try_send read_v2_msg read_v1_msg ttl timeout
        (some target)

  abbrev all_steps : Shared Bus Queue → Udp → List (Event Bus Queue) → Shared Bus Queue × Udp
  all_steps =
      run_events ahash_hash message_id_of send try_send read_v2_msg read_v1_msg ttl timeout
        (some target)

  same_peer :
      (shared : Shared Bus Queue) (s : Udp) (msg : RoutedMessage) (now : Instant)
      (sends : SocketAddr → Bool)
      → (step shared s (outgoing msg now sends)).1.broadcast_peer ≡ s.broadcast_peer
  unfolding handle_event
  same_peer shared s msg now sends =
      elim (Bool-cases (check_outgoing_message shared.routing_table s.core msg)) [
        | inl pass ↦ rw pass refl
        | inr stop ↦ rw stop refl
      ]

  step-silent :
      (shared : Shared Bus Queue) (s : Udp) (event : Event Bus Queue)
      → IsSilent target event
      → (step shared s event).1.broadcast_peer ≡ s.broadcast_peer
  unfolding handle_event
  step-silent shared s (datagram addr buf seen peer_seen clock) silent =
      track_peer-silent target addr peer_seen s.broadcast_peer silent
  step-silent shared s recv_error silent = refl
  step-silent shared s (lagged n) silent = refl
  step-silent shared s (outgoing msg now sends) silent = same_peer shared s msg now sends
  step-silent shared s (cleanup now) silent = refl
  step-silent shared s (elsewhere other) silent = refl

  run_events-silent :
      (events : List (Event Bus Queue)) (shared : Shared Bus Queue) (s : Udp)
      → All (IsSilent target) events
      → (all_steps shared s events).1.broadcast_peer ≡ s.broadcast_peer
  unfolding run_events
  run_events-silent [] shared s silent = refl
  run_events-silent (event ∷ events) shared s silent =
      let next = step shared s event in
      run_events-silent events next.0 next.1 silent.1 ∙ step-silent shared s event silent.0

  run_events-answer :
      (before after : List (Event Bus Queue)) (shared : Shared Bus Queue) (s : Udp)
      (addr : SocketAddr) (buf : List ℕ) (seen peer_seen : Instant) (clock : Clock)
      → is_broadcast_addr target ≡ true
      → IsAnswer target addr
      → All (IsSilent target) after
      → (all_steps shared s
          (before ++ (datagram addr buf seen peer_seen clock ∷ after))).1.broadcast_peer
        ≡ some (addr, peer_seen)
  unfolding run_events handle_event
  run_events-answer [] after shared s addr buf seen peer_seen clock broadcast answer silent =
      run_events-silent after _ _ silent
      ∙ track_peer-answer target addr peer_seen s.broadcast_peer broadcast answer
  run_events-answer (event ∷ before) after shared s addr buf seen peer_seen clock broadcast answer
        silent =
      let next = step shared s event in
      run_events-answer before after next.0 next.1 addr buf seen peer_seen clock broadcast answer
        silent

-- A client whose target is a broadcast address sends each message to one address. Until a datagram
-- comes from another address that is no broadcast address, this is the target; after that, it is
-- the sender of the last such datagram as long as that is more recent than the timeout, and
-- otherwise the target again.
pub targets-last_answer :
    {Bus Queue : Type 0} (ahash_hash : List ℕ → ℕ) (message_id_of : MavMessage → ℕ)
    (send : Bus → RoutedMessage → Bus × Bool) (try_send : Queue → RouteUpdate → Queue × TrySend)
    (read_v2_msg read_v1_msg : List ℕ → ReadResult) (ttl timeout : Duration) (target : SocketAddr)
    (before after : List (Event Bus Queue)) (shared : Shared Bus Queue) (core : EndpointCore)
    (addr : SocketAddr) (buf : List ℕ) (seen peer_seen now : Instant) (clock : Clock)
    → is_broadcast_addr target ≡ true
    → IsAnswer target addr
    → All (IsSilent target) after
    → (targets timeout
          (some target)
          now
          (run_events ahash_hash message_id_of send try_send read_v2_msg read_v1_msg ttl timeout
            (some target)
            shared
            (start core)
            after).1
        ≡ target ∷ [])
      × (targets timeout
            (some target)
            now
            (run_events ahash_hash message_id_of send try_send read_v2_msg read_v1_msg ttl timeout
              (some target)
              shared
              (start core)
              (before ++ (datagram addr buf seen peer_seen clock ∷ after))).1
          ≡ (if ltb (now - peer_seen) timeout then addr else target) ∷ [])
unfolding targets send_addr
targets-last_answer hash id send try_send read_v2 read_v1 ttl timeout target before after shared
      core addr buf seen peer_seen now clock broadcast answer silent =
    let none_yet =
      run_events-silent hash id send try_send read_v2 read_v1 ttl timeout target after shared
        (start core) silent in
    let last =
      run_events-answer hash id send try_send read_v2 read_v1 ttl timeout target before after shared
        (start core) addr buf seen peer_seen clock broadcast answer silent in
    (
      rw broadcast (ap (λ peer. send_addr timeout now target peer ∷ []) none_yet),
      rw broadcast (ap (λ peer. send_addr timeout now target peer ∷ []) last),
    )
