-- ===== src/Udp/Opening.antt =====
-- How an endpoint opens its socket, and what follows.
use mavrouter.Prelude.{
  ℕ, refl, ap, inl, inr, Bool, true, false, not, Option, none, some, List, [], arith, Bool-cases,
  ◌≡◌, ◌≢◌, ◌⊎◌, ◌↔◌, ◌∷◌, ◌&&◌, if◌then◌else◌, nat_eq,
}
use Prim.Native.String.{String}
use mavrouter.Mavlink.{MavMessage}
use mavrouter.Framing.{ReadResult}
use mavrouter.Routing.Time.{from_secs}
use mavrouter.Routing.Table.{RouteUpdate}
use mavrouter.Config.{
  RouterError, Result, ok, err, EndpointMode, client, server, network, invalid_remote_address,
  unresolved_remote_address,
}
use mavrouter.Endpoint.{RoutedMessage, Shared, TrySend}
use mavrouter.Orchestration.{Context, endpoint_core}
use mavrouter.Udp.{
  SocketAddr, Event, Udp, Host, client_bind_addr, is_broadcast_addr, open_socket, run, run_loops,
  run_events, start,
}

-- A client with the address that its name resolves to first: its own socket cannot be bound, or
-- cannot be made to broadcast, which it is only if it has to.
abbrev pub CannotReach : Host → String → SocketAddr → RouterError → Type 0
CannotReach host address target e =
    ((host.binds (client_bind_addr target) ≡ false) × (e ≡ network (client_bind_addr target)))
    ⊎ ((host.binds (client_bind_addr target) ≡ true)
        × (is_broadcast_addr target ≡ true)
        × (host.set_broadcast ≡ false)
        × (e ≡ network address))

abbrev pub ClientFails : Option (List SocketAddr) → Host → String → RouterError → Type 0
ClientFails none host address e = e ≡ invalid_remote_address address
ClientFails (some []) host address e = e ≡ unresolved_remote_address address
ClientFails (some (target ∷ addrs)) host address e = CannotReach host address target e

-- The reasons for which an endpoint cannot open its socket, with their errors.
abbrev pub FailsWith : EndpointMode → Host → String → RouterError → Type 0
FailsWith server host address e = (host.binds address ≡ false) × (e ≡ network address)
FailsWith client host address e = ClientFails host.resolved host address e

-- Where an endpoint sends that has opened its socket: a server to its clients, and a client to the
-- first address that its own resolves to.
abbrev pub FirstOf : Option (List SocketAddr) → Option SocketAddr → Type 0
FirstOf none target = ⊥
FirstOf (some []) target = ⊥
FirstOf (some (first ∷ addrs)) target = target ≡ some first

abbrev pub SendsTo : EndpointMode → Host → Option SocketAddr → Type 0
SendsTo server host target = target ≡ none
SendsTo client host target = FirstOf host.resolved target

abbrev Sends : EndpointMode → Host → Result (Option SocketAddr) → Type 0
Sends mode host (err e) = Unit
Sends mode host (ok target) = SendsTo mode host target

-- The errors of an open, and where its socket sends.
abbrev Opened : EndpointMode → Host → String → Result (Option SocketAddr) → Type 0
Opened mode host address result =
    ((e : RouterError) → (result ≡ err e) ↔ FailsWith mode host address e) × Sends mode host result

abbrev failed : RouterError → Result (Option SocketAddr)
failed e = err e

same_error : (f e : RouterError) → (failed f ≡ failed e) ↔ (e ≡ f)
same_error f e = (λ h. ground (arith, h), λ h. ground (arith, h))

-- An open of three steps: the first bind, the choice to broadcast, and the call that allows it.
abbrev opens :
    Bool → Bool → Bool → RouterError → RouterError → SocketAddr → Result (Option SocketAddr)
opens bound broadcast able e₁ e₂ target =
    if not bound then err e₁ else if broadcast && not able then err e₂ else ok (some target)

reached :
    (bound broadcast able : Bool) (e₁ e₂ : RouterError) (target : SocketAddr) (e : RouterError)
    → (opens bound broadcast able e₁ e₂ target ≡ failed e) ↔ (
        ((bound ≡ false) × (e ≡ e₁))
        ⊎ ((bound ≡ true) × (broadcast ≡ true) × (able ≡ false) × (e ≡ e₂)))
reached false broadcast able e₁ e₂ target e = (λ h. ground (arith, h), λ h. ground (arith, h))
reached true false able e₁ e₂ target e = (λ h. ground (arith, h), λ h. ground (arith, h))
reached true true false e₁ e₂ target e = (λ h. ground (arith, h), λ h. ground (arith, h))
reached true true true e₁ e₂ target e = (λ h. ground (arith, h), λ h. ground (arith, h))

reached-Sends :
    (resolved : Option (List SocketAddr)) (binds : String → Bool) (set_broadcast : Bool)
    (bound broadcast able : Bool) (e₁ e₂ : RouterError) (target : SocketAddr)
    → FirstOf resolved (some target)
    → Sends client
        (record { resolved = resolved; binds = binds; set_broadcast = set_broadcast })
        (opens bound broadcast able e₁ e₂ target)
reached-Sends resolved binds set_broadcast false broadcast able e₁ e₂ target first = tt
reached-Sends resolved binds set_broadcast true false able e₁ e₂ target first = first
reached-Sends resolved binds set_broadcast true true false e₁ e₂ target first = tt
reached-Sends resolved binds set_broadcast true true true e₁ e₂ target first = first

open_socket-Opened :
    (mode : EndpointMode) (resolved : Option (List SocketAddr)) (binds : String → Bool)
    (set_broadcast : Bool) (address : String)
    → let host : Host = record {
      resolved = resolved;
      binds = binds;
      set_broadcast = set_broadcast;
    } in
      Opened mode host address (open_socket host mode address)
unfolding open_socket
open_socket-Opened server resolved binds set_broadcast address = elim (Bool-cases (binds address)) [
  | inl bound ↦
      rw bound (λ e. (λ h. absurd (ground (arith, h)), λ h. absurd (ground (arith, h))), refl)
  | inr unbound ↦ rw unbound (λ e. (λ h. (refl, ground (arith, h)), λ h. ground (arith, h)), tt)
]
open_socket-Opened client none binds set_broadcast address = (same_error _, tt)
open_socket-Opened client (some []) binds set_broadcast address = (same_error _, tt)
open_socket-Opened client (some (target ∷ addrs)) binds set_broadcast address = (
  reached (binds (client_bind_addr target)) (is_broadcast_addr target) set_broadcast _ _ target,
  reached-Sends (some (target ∷ addrs)) binds set_broadcast (binds (client_bind_addr target))
      (is_broadcast_addr target) set_broadcast _ _ target refl,
)

-- How a run ends on an open socket, and on none.
abbrev to_end : Result (Option SocketAddr) → Option (Result (Unit {0}))
to_end (err e) = some (err e)
to_end (ok target) = some (ok tt)

abbrev failed_end : RouterError → Option (Result (Unit {0}))
failed_end e = some (err e)

ended-no_error :
    (ended : Bool) (e : RouterError) → (if ended then some (ok tt) else none) ≢ failed_end e
ended-no_error ended e h = ground (arith, h)

ok-no_error : (target : Option SocketAddr) (e : RouterError) → ok target ≢ failed e
ok-no_error target e h = ground (arith, h)

module _ {Bus Queue : Type 0} (ahash_hash : List ℕ → ℕ) (message_id_of : MavMessage → ℕ)
    (send : Bus → RoutedMessage → Bus × Bool) (try_send : Queue → RouteUpdate → Queue × TrySend)
    (read_v2_msg read_v1_msg : List ℕ → ReadResult) where
  -- What is to be shown of a run: when it fails and with what, and what it does if it does not.
  abbrev pub Reported :
      Host
      → Shared Bus Queue
      → Context
      → String
      → EndpointMode
      → ℕ
      → ℕ
      → List (Event Bus Queue)
      → Bool
      → (Shared Bus Queue × Udp) × Option (Result (Unit {0}))
      → Type 0
  Reported host shared ctx address mode cleanup_ttl_secs broadcast_timeout_secs events ended out =
      let at_start = start (endpoint_core ctx true) in
      ((e : RouterError) → (out.1 ≡ some (err e)) ↔ FailsWith mode host address e)
      × (((e : RouterError) × FailsWith mode host address e × (out.0 ≡ (shared, at_start)))
          ⊎ ((target_addr : Option SocketAddr) × SendsTo mode host target_addr
              × (out.0
                  ≡ run_events ahash_hash message_id_of send try_send read_v2_msg read_v1_msg
                      (from_secs cleanup_ttl_secs) (from_secs broadcast_timeout_secs) target_addr
                      shared at_start events)
              × (out.1 ≡ (if ended then some (ok tt) else none))))

  loops-Reported :
      (host : Host) (shared : Shared Bus Queue) (ctx : Context) (address : String)
      (mode : EndpointMode) (cleanup_ttl_secs broadcast_timeout_secs : ℕ)
      (events : List (Event Bus Queue)) (ended : Bool) (result : Result (Option SocketAddr))
      → Opened mode host address result
      → Reported host shared ctx address mode cleanup_ttl_secs broadcast_timeout_secs events ended (
          run_loops ahash_hash message_id_of send try_send read_v2_msg read_v1_msg shared
            (endpoint_core ctx true)
            (from_secs cleanup_ttl_secs)
            (from_secs broadcast_timeout_secs)
            events
            ended
            result)
  loops-Reported host shared ctx address mode ttl timeout events ended (err f) (fails, sends) = (
    λ e. (λ h. (fails e).0 (ground (arith, h)), λ h. ap to_end ((fails e).1 h)),
    inl (f, (fails f).0 refl, refl),
  )
  loops-Reported host shared ctx address mode ttl timeout events ended (ok target) (fails, sends) =
      (
        λ e. (
          λ h. absurd (ended-no_error ended e h),
          λ h. absurd (ok-no_error target e ((fails e).1 h)),
        ),
        inr (target, sends, refl, refl),
      )

  -- Whatever the address resolves to and whichever calls on the socket fail: an endpoint returns
  -- an error exactly if it is a server whose address cannot be bound, or a client whose address
  -- is invalid or resolves to nothing, whose own socket cannot be bound, or whose target is a
  -- broadcast address and whose socket cannot be made to broadcast; the error tells which, and
  -- nothing of the router has changed then. Otherwise it does what the events make of its loops,
  -- and sends to its clients if it is a server, and to the first address that its own resolves to
  -- if it is a client; and whatever ends its loops, it returns no error.
  pub run-Reported :
      (host : Host) (shared : Shared Bus Queue) (ctx : Context) (address : String)
      (mode : EndpointMode) (cleanup_ttl_secs broadcast_timeout_secs : ℕ)
      (events : List (Event Bus Queue)) (ended : Bool)
      → Reported host shared ctx address mode cleanup_ttl_secs broadcast_timeout_secs events ended (
          run ahash_hash message_id_of send try_send read_v2_msg read_v1_msg host shared ctx address
            mode cleanup_ttl_secs broadcast_timeout_secs events ended)
  unfolding run
  run-Reported host shared ctx address mode cleanup_ttl_secs broadcast_timeout_secs events ended =
      loops-Reported host shared ctx address mode cleanup_ttl_secs broadcast_timeout_secs events
        ended (open_socket host mode address)
        (open_socket-Opened mode host.resolved host.binds host.set_broadcast address)
