-- ===== src/Orchestration/Spawned.antt =====
-- The endpoints that are spawned.
use mavrouter.Prelude.{
  ℕ, suc, refl, sym, ap, inl, inr, Bool, true, false, Option, none, some, List, [], arith,
  Bool-cases, length, ◌+◌, ◌≤◌, ◌<◌, ◌≡◌, ◌∙◌, ◌⊎◌, ◌∷◌, ◌++◌, nat_eq,
}
use mavrouter.Prelude.Sets.{contains, Distinct}
use mavrouter.Config.{Config, EndpointConfig, udp, tcp, serial}
use mavrouter.Dedup.{is_zero}
use mavrouter.Orchestration.{
  Name, udp_endpoint, tcp_endpoint, serial_endpoint, rotate_every, update_routes, run_tlog,
  report_stats, run_stats_server, run_udp, run_tcp, run_serial, NamedTask, endpoint_runner,
  build_endpoint_context, spawn_endpoints, spawn_all, logger, implicit_server, rotator, updater,
  dedup_of,
}
use mathlib.Core.List.{append_assoc}
use Prim.Native.String.{String}
use mavrouter.Routing.Time.{Duration}

-- The endpoint that a task runs: its id, with the task's name.
abbrev pub endpoint_of : NamedTask → List (ℕ × Name)
endpoint_of task = elim task.handle [
  | rotate_every interval ↦ []
  | update_routes prune_ttl prune_interval ↦ []
  | run_tlog dir ↦ []
  | report_stats sample_interval retention log_interval ↦ []
  | run_stats_server socket_path endpoint_stats ↦ []
  | run_udp ctx address mode cleanup timeout ↦ (ctx.id, task.name) ∷ []
  | run_tcp ctx address mode ↦ (ctx.id, task.name) ∷ []
  | run_serial ctx device bauds flow ↦ (ctx.id, task.name) ∷ []
]

abbrev pub endpoints_of : List NamedTask → List (ℕ × Name)
endpoints_of [] = []
endpoints_of (task ∷ tasks) = endpoint_of task ++ endpoints_of tasks

abbrev pub ids : List (ℕ × Name) → List ℕ
ids [] = []
ids ((id, name) ∷ rest) = id ∷ ids rest

endpoints_of-append :
    (xs ys : List NamedTask) → endpoints_of (xs ++ ys) ≡ endpoints_of xs ++ endpoints_of ys
endpoints_of-append [] ys = refl
endpoints_of-append (x ∷ xs) ys =
    ap (λ es. endpoint_of x ++ es) (endpoints_of-append xs ys)
    ∙ sym (append_assoc (endpoint_of x) (endpoints_of xs) (endpoints_of ys))

endpoints_of-spawn :
    (prune_ttl i : ℕ) (cfgs : List EndpointConfig)
    → endpoints_of (spawn_endpoints prune_ttl i cfgs).0 ≡ (spawn_endpoints prune_ttl i cfgs).1
unfolding spawn_endpoints endpoint_runner build_endpoint_context
endpoints_of-spawn prune_ttl i [] = refl
endpoints_of-spawn prune_ttl i (udp address mode timeout filters name ∷ cfgs) =
    ap (◌∷◌ (i, udp_endpoint i address)) (endpoints_of-spawn prune_ttl (suc i) cfgs)
endpoints_of-spawn prune_ttl i (tcp address mode filters name ∷ cfgs) =
    ap (◌∷◌ (i, tcp_endpoint i address)) (endpoints_of-spawn prune_ttl (suc i) cfgs)
endpoints_of-spawn prune_ttl i (serial device baud flow filters name ∷ cfgs) =
    ap (◌∷◌ (i, serial_endpoint i device)) (endpoints_of-spawn prune_ttl (suc i) cfgs)

-- No id below the first or from the end on.
outside :
    (prune_ttl i : ℕ) (cfgs : List EndpointConfig) (id : ℕ)
    → (id < i) ⊎ (i + length cfgs ≤ id)
    → contains (ids (spawn_endpoints prune_ttl i cfgs).1) id ≡ false
unfolding spawn_endpoints contains build_endpoint_context
outside prune_ttl i [] id h = refl
outside prune_ttl i (cfg ∷ cfgs) id h =
    ground (arith, outside prune_ttl (suc i) cfgs id (ground arith))

spawn-Distinct :
    (prune_ttl i : ℕ) (cfgs : List EndpointConfig)
    → Distinct (ids (spawn_endpoints prune_ttl i cfgs).1)
unfolding spawn_endpoints build_endpoint_context
spawn-Distinct prune_ttl i [] = tt
spawn-Distinct prune_ttl i (cfg ∷ cfgs) =
    (outside prune_ttl (suc i) cfgs i (inl (omega arith)), spawn-Distinct prune_ttl (suc i) cfgs)

rotator-none : (interval : Duration) → endpoints_of (rotator interval) ≡ []
rotator-none interval = elim (Bool-cases (is_zero interval)) [
  | inl off ↦ rw off refl
  | inr on ↦ rw on refl
]

logger-none :
    (log_telemetry : Bool) (log : Option String) → endpoints_of (logger log_telemetry log) ≡ []
logger-none log_telemetry none = refl
logger-none false (some log_dir) = refl
logger-none true (some log_dir) = refl

implicit_server-listed :
    (with_port : String → ℕ → String) (id : ℕ) (port : Option ℕ)
    → endpoints_of (implicit_server with_port id port).0 ≡ (implicit_server with_port id port).1
implicit_server-listed with_port id none = refl
implicit_server-listed with_port id (some port) = refl

with_implicit :
    (with_port : String → ℕ → String) (port : Option ℕ) (prune_ttl : ℕ) (cfgs : List EndpointConfig)
    → Distinct (
        ids (
          (implicit_server with_port (length cfgs) port).1 ++ (spawn_endpoints prune_ttl 0 cfgs).1))
with_implicit with_port none prune_ttl cfgs = spawn-Distinct prune_ttl 0 cfgs
with_implicit with_port (some port) prune_ttl cfgs =
    (outside prune_ttl 0 cfgs (length cfgs) (inr (omega arith)), spawn-Distinct prune_ttl 0 cfgs)

-- The statistics list exactly the endpoints that are spawned, the implicit TCP server included,
-- each under its id and the name of its task, and no two of them have the same id.
pub spawn_all-ids :
    (with_port : String → ℕ → String) (config : Config)
    → (endpoints_of (spawn_all with_port config).tasks
        ≡ (spawn_all with_port config).endpoint_stats)
      × Distinct (ids (spawn_all with_port config).endpoint_stats)
unfolding spawn_all
spawn_all-ids with_port config =
    let general = config.general in
    let implicit = implicit_server with_port (length config.endpoint) general.tcp_port in
    let configured = spawn_endpoints general.routing_table_ttl_secs 0 config.endpoint in
    let log = logger general.log_telemetry general.log in
    let interval = (dedup_of general).bucket_interval in
    let others = updater general ∷ (implicit.0 ++ (log ++ configured.0)) in
    (
      endpoints_of-append (rotator interval) others
          ∙ ap (λ es. es ++ endpoints_of others) (rotator-none interval)
          ∙ endpoints_of-append implicit.0 (log ++ configured.0)
          ∙ ap (λ es. es ++ endpoints_of (log ++ configured.0))
              (implicit_server-listed with_port (length config.endpoint) general.tcp_port)
          ∙ ap (λ es. implicit.1 ++ es)
              (endpoints_of-append log configured.0
                ∙ ap (λ es. es ++ endpoints_of configured.0)
                    (logger-none general.log_telemetry general.log)
                ∙ endpoints_of-spawn general.routing_table_ttl_secs 0 config.endpoint),
      with_implicit with_port general.tcp_port general.routing_table_ttl_secs config.endpoint,
    )
