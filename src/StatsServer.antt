-- ===== src/StatsServer.antt =====
-- src/orchestration/stats_server.rs: the server that answers queries for the statistics. The results
-- of the calls on the socket's file and what clients send are given; a text that is read is what it
-- decodes to.
pub mod Json
pub mod Answers
pub mod Serving
use mavrouter.Prelude.{
  ℕ, suc, Bool, true, false, not, Option, none, some, List, [], leb, ◌&&◌, ◌||◌, ◌∷◌, ◌++◌, ◌==◌,
  if◌then◌else◌, nat_eq,
}
use mavrouter.Prelude.Text.{Text, codes, to_string}
use Prim.Native.String.{String}
use mathlib.Core.List.{reverse}
use mavrouter.Routing.Table.{RoutingTable, RoutingStats, stats}
use mavrouter.Config.{Result, ok, err, filesystem, network}
use mavrouter.Endpoint.{EndpointStats}
use mavrouter.Endpoint.Display.{EndpointStatsSnapshot, snapshot}
use mavrouter.Orchestration.{Name}
use mavrouter.Orchestration.Names.{name_text}

-- `format!` of the routing table's statistics.
unfoldable pub stats_response : RoutingStats → Text
stats_response s =
    codes "{\"total_systems\":"
    ++ (to_string s.total_systems
        ++ (codes ",\"total_routes\":"
            ++ (to_string s.total_routes
                ++ (codes ",\"total_endpoints\":"
                    ++ (to_string s.total_endpoints
                        ++ (codes ",\"timestamp\":" ++ (to_string s.timestamp ++ codes "}")))))))

-- `format!` of one endpoint's counters.
unfoldable pub entry : ℕ → Text → EndpointStatsSnapshot → Text
entry ep_id ep_name snap =
    codes "{\"id\":"
    ++ (to_string ep_id
        ++ (codes ",\"name\":\""
            ++ (ep_name
                ++ (codes "\",\"msgs_in\":"
                    ++ (to_string snap.msgs_in
                        ++ (codes ",\"msgs_out\":"
                            ++ (to_string snap.msgs_out
                                ++ (codes ",\"bytes_in\":"
                                    ++ (to_string snap.bytes_in
                                        ++ (codes ",\"bytes_out\":"
                                            ++ (to_string snap.bytes_out
                                                ++ (codes ",\"errors\":"
                                                    ++ (to_string snap.errors
                                                        ++ codes "}")))))))))))))

-- The rest of `entries.join(",")` behind an entry.
abbrev pub join_rest : List Text → Text
join_rest [] = []
join_rest (e ∷ es) = b',' ∷ (e ++ join_rest es)

abbrev pub join : List Text → Text
join [] = []
join (e ∷ es) = e ++ join_rest es

-- The counters are loaded when the query comes.
abbrev pub entries : (ℕ → EndpointStats) → List (ℕ × Name) → List Text
entries counters [] = []
entries counters ((ep_id, ep_name) ∷ ep_stats) =
    entry ep_id (name_text ep_name) (snapshot (counters ep_id)) ∷ entries counters ep_stats

unfoldable pub endpoint_stats_response : (ℕ → EndpointStats) → List (ℕ × Name) → Text
endpoint_stats_response counters ep_stats =
    codes "[" ++ (join (entries counters ep_stats) ++ codes "]")

-- `char::is_whitespace`.
abbrev pub is_whitespace : ℕ → Bool
is_whitespace c =
    (leb 9 c && leb c 13)
    || (c == 32)
    || (c == 0x85)
    || (c == 0xA0)
    || (c == 0x1680)
    || (leb 0x2000 c && leb c 0x200A)
    || (c == 0x2028)
    || (c == 0x2029)
    || (c == 0x202F)
    || (c == 0x205F)
    || (c == 0x3000)

unfoldable pub trim_start : Text → Text
trim_start [] = []
trim_start (c ∷ s) = let rest = trim_start s in if is_whitespace c then rest else c ∷ s

unfoldable pub trim : Text → Text
trim s = reverse (trim_start (reverse (trim_start s)))

abbrev pub same_text : Text → Text → Bool
same_text [] [] = true
same_text [] (d ∷ t) = false
same_text (c ∷ s) [] = false
same_text (c ∷ s) (d ∷ t) = (c == d) && same_text s t

-- What a client finds: the table, the clock and the counters.
pub record View : Type 0 where
  pub routing_table : RoutingTable
  pub unix_secs : ℕ
  pub counters : ℕ → EndpointStats

unfoldable pub respond : List (ℕ × Name) → View → Text → Text
respond ep_stats view command =
    if same_text command (codes "stats")
    then stats_response (stats view.routing_table view.unix_secs)
    else if same_text command (codes "endpoint_stats")
    then endpoint_stats_response view.counters ep_stats
    else if same_text command (codes "help")
    then codes "Available commands: stats, endpoint_stats, help"
    else codes "Unknown command. Try 'help'"

-- The results of the calls before the loop.
pub record Host : Type 0 where
  pub exists : Bool
  pub removes : Bool
  pub binds : Bool
  pub has_metadata : Bool
  pub sets_permissions : Bool

-- What the loop and the tasks that it spawns for its clients find: a connection; the one read of the
-- n-th client's task, with its text if it does not fail.
pub data Event : Type 0 where
  cancelled : (exists : Bool) → Event
  accepted : Event
  heard : (client : ℕ) (read : Option Text) (view : View) → Event
  accept_failed : Event

pub data Effect : Type 0 where
  remove_file : Effect
  bind : Effect
  set_mode : (mode : ℕ) → Effect
  spawn : (client : ℕ) → Effect
  write_all : (client : ℕ) (response : Text) → Effect

-- A client's task, if it has not read yet.
abbrev pub answer : List (ℕ × Name) → Bool → ℕ → Option Text → View → List Effect
answer ep_stats false client read view = []
answer ep_stats true client none view = []
answer ep_stats true client (some []) view = []
answer ep_stats true client (some (c ∷ s)) view =
    write_all client (respond ep_stats view (trim (c ∷ s))) ∷ []

abbrev pub mark : (ℕ → Bool) → ℕ → Bool → ℕ → Bool
mark reading client b k = if k == client then b else reading k

abbrev pub remove_if : Bool → List Effect
remove_if true = remove_file ∷ []
remove_if false = []

-- The loop, `listening` until it is cancelled, with the number of the next client, and the tasks of
-- the clients, which go on when it has ended; and whether it has ended.
unfoldable pub serve : List (ℕ × Name) → Bool → ℕ → (ℕ → Bool) → List Event → List Effect × Bool
serve ep_stats listening next reading [] = ([], not listening)
serve ep_stats true next reading (cancelled exists ∷ events) =
    let rest = serve ep_stats false next reading events in (remove_if exists ++ rest.0, rest.1)
serve ep_stats true next reading (accepted ∷ events) =
    let rest = serve ep_stats true (suc next) (mark reading next true) events in
    (spawn next ∷ rest.0, rest.1)
serve ep_stats false next reading (cancelled exists ∷ events) =
    serve ep_stats false next reading events
serve ep_stats false next reading (accepted ∷ events) = serve ep_stats false next reading events
serve ep_stats listening next reading (accept_failed ∷ events) =
    serve ep_stats listening next reading events
serve ep_stats listening next reading (heard client read view ∷ events) =
    let rest = serve ep_stats listening next (mark reading client false) events in
    (answer ep_stats (reading client) client read view ++ rest.0, rest.1)

abbrev pub after :
    List Effect
    → List Effect × Option (Result (Unit {0}))
    → List Effect × Option (Result (Unit {0}))
after first rest = (first ++ rest.0, rest.1)

abbrev pub served : List Effect × Bool → List Effect × Option (Result (Unit {0}))
served out = (out.0, if out.1 then some (ok tt) else none)

-- What the server does, and what it returns, if it does; a step that fails ends it.
unfoldable pub run_stats_server :
    String → List (ℕ × Name) → Host → List Event → List Effect × Option (Result (Unit {0}))
run_stats_server socket_path ep_stats host events =
    let failed : List Effect × Option (Result (Unit {0})) =
      ([], some (err (filesystem socket_path))) in
    let loop =
      if host.sets_permissions
      then after (set_mode 0o660 ∷ []) (served (serve ep_stats true 0 (λ client. false) events))
      else failed in
    let permissions = if host.has_metadata then loop else failed in
    let listener =
      if host.binds
      then after (bind ∷ []) permissions
      else ([], some (err (network socket_path))) in
    if host.exists
    then if host.removes then after (remove_file ∷ []) listener else failed
    else listener
