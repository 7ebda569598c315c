-- ===== src/Tcp/Clients.antt =====
-- The clients of a server: their number and their ids.
use mavrouter.Prelude.{
  ℕ, zero, suc, refl, inl, inr, true, List, [], arith, leb, Bool-cases, length, All, All-append,
  length-append, ◌+◌, ◌-◌, ◌%◌, ◌^◌, ◌≤◌, ◌<◌, ◌≡◌, ◌∷◌, ◌++◌, nat_eq,
}
use mavrouter.Endpoint.{EndpointCore, child_for_client, new_stats}
use mavrouter.Tcp.{
  Server, Event, accepted, accept_failed, joined, elsewhere, start, serve_event, serve, remove_at,
  first_tcp_client_id, max_tcp_clients,
}

-- The ids increase strictly, from `low` on and below `high`.
abbrev pub Increasing : ℕ → List EndpointCore → ℕ → Type 0
Increasing low [] high = low ≤ high
Increasing low (c ∷ cores) high = (low ≤ c.id) × Increasing (suc c.id) cores high

-- What a client has of its server: its filters, and that it teaches the routing table.
abbrev pub Inherits : EndpointCore → EndpointCore → Type 0
Inherits core client = (client.filters ≡ core.filters) × (client.update_routing ≡ true)

pub record IsServed (core : EndpointCore) (s : Server) : Type 0 where
  pub few : length s.join_set ≤ max_tcp_clients
  pub ids : Increasing first_tcp_client_id s.join_set s.next_tcp_client_id
  pub inherited : All (Inherits core) s.join_set

Increasing-lower :
    (low high : ℕ) (cores : List EndpointCore) (lower : ℕ)
    → lower ≤ low
    → Increasing low cores high
    → Increasing lower cores high
Increasing-lower low high [] lower h k = omega (arith, h, k)
Increasing-lower low high (c ∷ cores) lower h k = (omega (arith, h, k.0), k.1)

Increasing-higher :
    (low high : ℕ) (cores : List EndpointCore)
    → Increasing low cores high
    → Increasing low cores (suc high)
Increasing-higher low high [] k = omega (arith, k)
Increasing-higher low high (c ∷ cores) k = (k.0, Increasing-higher (suc c.id) high cores k.1)

Increasing-append :
    (low high : ℕ) (cores : List EndpointCore) (c : EndpointCore)
    → c.id ≡ high
    → Increasing low cores high
    → Increasing low (cores ++ (c ∷ [])) (suc high)
Increasing-append low high [] c e k = (omega (arith, e, k), omega (arith, e))
Increasing-append low high (d ∷ cores) c e k =
    (k.0, Increasing-append (suc d.id) high cores c e k.1)

Increasing-remove :
    (low high : ℕ) (cores : List EndpointCore) (i : ℕ)
    → Increasing low cores high
    → Increasing low (remove_at cores i) high
Increasing-remove low high [] i k = k
Increasing-remove low high (c ∷ cores) zero k =
    Increasing-lower (suc c.id) high cores low (omega (arith, k.0)) k.1
Increasing-remove low high (c ∷ cores) (suc i) k =
    (k.0, Increasing-remove (suc c.id) high cores i k.1)

length-remove-le {ℓ} : {A : Type ℓ} (xs : List A) (i : ℕ) → length (remove_at xs i) ≤ length xs
length-remove-le [] i = omega arith
length-remove-le (x ∷ xs) zero = omega arith
length-remove-le (x ∷ xs) (suc i) = omega (arith, length-remove-le xs i)

All-remove {ℓ κ} :
    {A : Type ℓ} (P : A → Type κ) (xs : List A) (i : ℕ) → All P xs → All P (remove_at xs i)
All-remove P [] i all = tt
All-remove P (x ∷ xs) zero all = all.1
All-remove P (x ∷ xs) (suc i) all = (all.0, All-remove P xs i all.1)

serve_event-IsServed :
    (core : EndpointCore) (s : Server) (event : Event)
    → suc s.next_tcp_client_id < 2 ^ 64
    → IsServed core s
    → IsServed core (serve_event core s event)
      × ((serve_event core s event).next_tcp_client_id ≤ suc s.next_tcp_client_id)
unfolding serve_event child_for_client
serve_event-IsServed core s accepted room v =
    let next = s.next_tcp_client_id in
    let plain : (next + 1) % 2 ^ 64 ≡ suc next = omega (arith, room) in
    let c = child_for_client core next new_stats in
    elim (Bool-cases (leb max_tcp_clients (length s.join_set))) [
      | inl full ↦ rw full (v, omega arith)
      | inr free ↦
          rw (free, plain)
            (
              record {
                few = ground (arith, length-append s.join_set (c ∷ []), free);
                ids = Increasing-append first_tcp_client_id next s.join_set c refl v.ids;
                inherited =
                    All-append (Inherits core) s.join_set (c ∷ []) v.inherited ((refl, refl), tt);
              },
              omega arith,
            )
    ]
serve_event-IsServed core s accept_failed room v = (v, omega arith)
serve_event-IsServed core s (joined i) room v = (
  record {
    few = omega (arith, v.few, length-remove-le s.join_set i);
    ids = Increasing-remove first_tcp_client_id s.next_tcp_client_id s.join_set i v.ids;
    inherited = All-remove (Inherits core) s.join_set i v.inherited;
  },
  omega arith,
)
serve_event-IsServed core s elsewhere room v =
    let next = s.next_tcp_client_id in
    let plain : (next + 1) % 2 ^ 64 ≡ suc next = omega (arith, room) in
    rw plain (
      record {
        few = v.few;
        ids = Increasing-higher first_tcp_client_id next s.join_set v.ids;
        inherited = v.inherited;
      },
      omega arith,
    )

serve-keeps :
    (core : EndpointCore) (events : List Event) (s : Server)
    → s.next_tcp_client_id + length events + 1 < 2 ^ 64
    → IsServed core s
    → IsServed core (serve core s events)
unfolding serve
serve-keeps core [] s room v = v
serve-keeps core (event ∷ events) s room v =
    let (after, next) = serve_event-IsServed core s event (omega (arith, room)) v in
    serve-keeps core events (serve_event core s event) (omega (arith, room, next)) after

-- Whatever connections come and go, here and at other servers, as long as the 64-bit counter of
-- ids does not wrap: a server serves at most a hundred clients at a time, the ids of its clients
-- increase strictly from 10000 on, so that no two are equal, and each client has the filters of
-- the server and updates the routing table.
pub serve-IsServed :
    (core : EndpointCore) (events : List Event)
    → length events < 2 ^ 64 - 10_001
    → IsServed core (serve core start events)
serve-IsServed core events room =
    serve-keeps core events start (omega (arith, room))
      (record { few = omega arith; ids = omega arith; inherited = tt })
