-- ===== src/Examples/Queries.antt =====
-- The statistics server at concrete inputs.
use mavrouter.Prelude.{ℕ, refl, true, none, some, List, [], arith, ◌≡◌, ◌↔◌, ◌∷◌, ◌++◌, nat_eq}
use mavrouter.Prelude.Text.{codes, to_string, digits}
use mavrouter.Routing.Table.{new, stats, stats_loop}
use mavrouter.Config.{RouterError, err}
use mavrouter.Endpoint.{EndpointStats, new_stats}
use mavrouter.Endpoint.Display.{snapshot}
use mavrouter.Orchestration.{Name, udp_endpoint}
use mavrouter.Orchestration.Names.{name_text}
use mavrouter.StatsServer.{
  trim, View, respond, Host, Event, accepted, heard, cancelled, accept_failed, run_stats_server,
}
use mavrouter.StatsServer.Json.{FitsStats, IsPlain, read_stats, read_endpoint_stats}
use mavrouter.StatsServer.Answers.{shown, Fits, respond-read}
use mavrouter.StatsServer.Serving.{
  IsOrderly, file_of, failure, answered, responses, run_stats_server-IsOrderly,
}

abbrev ep_stats : List (ℕ × Name)
ep_stats = (0, udp_endpoint 0 "0.0.0.0:14550") ∷ []

abbrev counted : EndpointStats
counted = record new_stats { msgs_in = 1234; bytes_in = 56_789; errors = 1 }

abbrev view : View
view = record { routing_table = new; unix_secs = 1_700_000_000; counters = λ id. counted }

abbrev host : Host
host = record {
  exists = true;
  removes = true;
  binds = true;
  has_metadata = true;
  sets_permissions = true;
}

abbrev queries : List Event
queries =
    accepted
    ∷ accepted
    ∷ accept_failed
    ∷ heard 1 (some (codes "stats\n")) view
    ∷ accepted
    ∷ cancelled true
    ∷ heard 0 (some (codes "help")) view
    ∷ heard 2 none view
    ∷ []

run_stats_server-IsOrderly_example :
    IsOrderly (file_of true) (run_stats_server "/run/router.sock" ep_stats host queries).0
    × ((e : RouterError)
        → ((run_stats_server "/run/router.sock" ep_stats host queries).1 ≡ some (err e))
          ↔ (failure "/run/router.sock" host ≡ some e))
    × ((k : ℕ)
        → responses k (run_stats_server "/run/router.sock" ep_stats host queries).0
          ≡ answered ep_stats k k queries)
run_stats_server-IsOrderly_example =
    run_stats_server-IsOrderly "/run/router.sock" ep_stats host queries

fits : FitsStats (stats new 1_700_000_000)
unfolding stats stats_loop new
fits = record {
  systems = omega arith;
  routes = omega arith;
  endpoints = omega arith;
  timestamp = omega arith;
}

plain : IsPlain (name_text (udp_endpoint 0 "0.0.0.0:14550"))
unfolding name_text to_string digits
plain = ground arith

fit : Fits view.counters ep_stats
unfolding snapshot
fit = (
  record {
    id_fits = omega arith;
    plain = plain;
    msgs_in = omega arith;
    msgs_out = omega arith;
    bytes_in = omega arith;
    bytes_out = omega arith;
    errors = omega arith;
  },
  tt,
)

respond-read_example :
    (read_stats (respond ep_stats view (trim (codes " " ++ (codes "stats" ++ codes "\r\n"))))
      ≡ some (stats new 1_700_000_000))
    × (read_endpoint_stats
          (respond ep_stats view (trim (codes " " ++ (codes "endpoint_stats" ++ codes "\r\n"))))
        ≡ some (shown view.counters ep_stats, []))
respond-read_example =
    respond-read ep_stats view (codes " ") (codes "\r\n") fits fit (refl, tt) (refl, (refl, tt))
