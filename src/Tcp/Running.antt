-- ===== src/Tcp/Running.antt =====
-- What an endpoint does in each of its modes, and when it fails.
use mavrouter.Prelude.{List, ◌≡◌, nat_eq}
use Prim.Native.String.{String}
use mavrouter.Config.{Result, ok, err, EndpointMode, client, server}
use mavrouter.Backoff.Doubling.{expected}
use mavrouter.Endpoint.{EndpointCore}
use mavrouter.Tcp.{Attempt, Work, served, tried}
use mavrouter.Tcp.Clients.{IsServed}
use mavrouter.Tcp.Attempts.{history}

-- What is to be shown of an endpoint that has not failed.
abbrev pub Works : EndpointCore → EndpointMode → List Attempt → Result Work → Type 0
Works core mode attempts (ok (served s)) = (mode ≡ server) × IsServed core s
Works core mode attempts (ok (tried delays)) =
    (mode ≡ client) × (delays ≡ expected 60 0 (history attempts))
Works core mode attempts (err e) = Unit
