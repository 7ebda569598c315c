-- ===== src/Orchestration.antt =====
-- src/orchestration.rs: what `spawn_all` makes of a configuration. A task is what it is started with;
-- the shared channels are left out, and the text of a name is the parts that it is made of.
pub mod Spawned
pub mod Grouping
pub mod Bauds
pub mod Names
use mavrouter.Prelude.{
  ℕ, suc, Bool, Option, none, some, List, [], length, get_elem?, ◌%◌, ◌^◌, ◌∷◌, ◌++◌, ◌==◌,
  if◌then◌else◌, nat_eq,
}
use Prim.Native.String.{String}
use mavrouter.Filter.{EndpointFilters}
use mavrouter.Endpoint.{EndpointCore, EndpointStats, new_stats}
use mavrouter.Routing.Time.{Duration, from_secs, from_millis}
use mavrouter.Routing.Table.{RoutingTable, set_endpoint_group, set_sniffer_sysids}
use mavrouter.Routing.Table
use mavrouter.Dedup.{ConcurrentDedup, new_concurrent, is_zero}
use mavrouter.Config.{
  Config, GeneralConfig, EndpointConfig, udp, tcp, serial, EndpointMode, server, FlowControl, rates,
  group, filters_of,
}

pub data Name : Type 0 where
  dedup_rotator : Name
  routing_updater : Name
  implicit_tcp_server : (port : ℕ) → Name
  tlog_logger : (log_dir : String) → Name
  udp_endpoint : (i : ℕ) (address : String) → Name
  tcp_endpoint : (i : ℕ) (address : String) → Name
  serial_endpoint : (i : ℕ) (device : String) → Name
  stats_reporter : Name
  stats_socket : (socket_path : String) → Name

-- `EndpointSpawnContext`, but for what all endpoints share.
pub record Context : Type 0 where
  pub id : ℕ
  pub filters : EndpointFilters
  pub stats : EndpointStats

-- `EndpointSpawnContext::endpoint_core`.
abbrev pub endpoint_core : Context → Bool → EndpointCore
endpoint_core ctx update_routing = record {
  id = ctx.id;
  filters = ctx.filters;
  update_routing = update_routing;
  stats = ctx.stats;
}

-- What a task runs; all but `rotate_every`, `update_routes` and `report_stats` do so under a
-- supervisor.
pub data Runner : Type 0 where
  rotate_every : (interval : Duration) → Runner
  update_routes : (prune_ttl prune_interval : Duration) → Runner
  run_tlog : (dir : String) → Runner
  run_udp :
      (ctx : Context) (address : String) (mode : EndpointMode)
      (cleanup_ttl_secs broadcast_timeout_secs : ℕ)
      → Runner
  run_tcp : (ctx : Context) (address : String) (mode : EndpointMode) → Runner
  run_serial :
      (ctx : Context) (device : String) (bauds : List ℕ) (flow_control : FlowControl) → Runner
  report_stats : (sample_interval retention log_interval : ℕ) → Runner
  run_stats_server : (socket_path : String) (endpoint_stats : List (ℕ × Name)) → Runner

pub record NamedTask : Type 0 where
  pub name : Name
  pub handle : Runner

pub record OrchestratedRouter : Type 0 where
  pub tasks : List NamedTask
  pub routing_table : RoutingTable
  pub dedup : ConcurrentDedup
  pub endpoint_stats : List (ℕ × Name)

-- `EndpointFilters::default()`.
abbrev pub default_filters : EndpointFilters
default_filters = record {
  allow_msg_id_out = [];
  block_msg_id_out = [];
  allow_src_comp_out = [];
  block_src_comp_out = [];
  allow_src_sys_out = [];
  block_src_sys_out = [];
  allow_msg_id_in = [];
  block_msg_id_in = [];
  allow_src_comp_in = [];
  block_src_comp_in = [];
  allow_src_sys_in = [];
  block_src_sys_in = [];
}

abbrev endpoint_name : ℕ → EndpointConfig → Name
endpoint_name i (udp address mode timeout filters name) = udp_endpoint i address
endpoint_name i (tcp address mode filters name) = tcp_endpoint i address
endpoint_name i (serial device baud flow filters name) = serial_endpoint i device

unfoldable pub build_endpoint_context : ℕ → EndpointConfig → Name × Context
build_endpoint_context i cfg =
    (endpoint_name i cfg, record { id = i; filters = filters_of cfg; stats = new_stats })

-- The arms of the `match` on a configured endpoint.
unfoldable pub endpoint_runner : ℕ → Context → EndpointConfig → Runner
endpoint_runner prune_ttl ctx (udp address mode broadcast_timeout_secs filters name) =
    run_udp ctx address mode prune_ttl broadcast_timeout_secs
endpoint_runner prune_ttl ctx (tcp address mode filters name) = run_tcp ctx address mode
endpoint_runner prune_ttl ctx (serial device baud flow_control filters name) =
    run_serial ctx device (rates baud) flow_control

-- `bauds[idx % bauds.len()]` at the start of a run, where `idx` counts the starts and wraps. `none`
-- is a panic: of the remainder, or of the index.
unfoldable pub current_baud : List ℕ → ℕ → Option ℕ
current_baud bauds starts =
    if length bauds == 0 then none else get_elem? bauds (starts % 2 ^ 64 % length bauds)

-- The loop over the configured endpoints, from the `i`-th on.
unfoldable pub spawn_endpoints : ℕ → ℕ → List EndpointConfig → List NamedTask × List (ℕ × Name)
spawn_endpoints prune_ttl i [] = ([], [])
spawn_endpoints prune_ttl i (cfg ∷ cfgs) =
    let (name, ctx) = build_endpoint_context i cfg in
    let rest = spawn_endpoints prune_ttl (suc i) cfgs in
    (
      record { name = name; handle = endpoint_runner prune_ttl ctx cfg } ∷ rest.0,
      (i, name) ∷ rest.1,
    )

abbrev pub set_group : ℕ → Option String → RoutingTable → RoutingTable
set_group i none rt = rt
set_group i (some name) rt = set_endpoint_group rt i name

-- The loop that registers the groups.
unfoldable pub register_groups : ℕ → List EndpointConfig → RoutingTable → RoutingTable
register_groups i [] rt = rt
register_groups i (cfg ∷ cfgs) rt = register_groups (suc i) cfgs (set_group i (group cfg) rt)

abbrev pub rotator : Duration → List NamedTask
rotator interval =
    if is_zero interval
    then []
    else record { name = dedup_rotator; handle = rotate_every interval } ∷ []

-- The server on `0.0.0.0`: the implicit endpoint comes after the configured ones.
abbrev pub implicit_server : (String → ℕ → String) → ℕ → Option ℕ → List NamedTask × List (ℕ × Name)
implicit_server with_port id none = ([], [])
implicit_server with_port id (some port) =
    let ctx : Context = record { id = id; filters = default_filters; stats = new_stats } in
    let name = implicit_tcp_server port in
    (
      record { name = name; handle = run_tcp ctx (with_port "0.0.0.0" port) server } ∷ [],
      (id, name) ∷ [],
    )

abbrev pub logger : Bool → Option String → List NamedTask
logger log_telemetry none = []
logger log_telemetry (some log_dir) =
    if log_telemetry
    then record { name = tlog_logger log_dir; handle = run_tlog log_dir } ∷ []
    else []

unfoldable pub initial_table : Config → RoutingTable
initial_table config =
    let rt = register_groups 0 config.endpoint Table.new in
    let sysids = config.general.sniffer_sysids in
    if length sysids == 0 then rt else set_sniffer_sysids rt sysids

abbrev pub or_zero : Option ℕ → ℕ
or_zero none = 0
or_zero (some n) = n

abbrev pub dedup_of : GeneralConfig → ConcurrentDedup
dedup_of general = new_concurrent (from_millis (or_zero general.dedup_period_ms))

abbrev pub updater : GeneralConfig → NamedTask
updater general = record {
  name = routing_updater;
  handle =
      update_routes (from_secs general.routing_table_ttl_secs)
        (from_secs general.routing_table_prune_interval_secs);
}

-- `with_port` is `format!("{}:{}")`.
unfoldable pub spawn_all : (String → ℕ → String) → Config → OrchestratedRouter
spawn_all with_port config =
    let general = config.general in
    let dedup = dedup_of general in
    let implicit = implicit_server with_port (length config.endpoint) general.tcp_port in
    let configured = spawn_endpoints general.routing_table_ttl_secs 0 config.endpoint in
    record {
      tasks =
          rotator dedup.bucket_interval
          ++ (updater general
              ∷ (implicit.0 ++ (logger general.log_telemetry general.log ++ configured.0)));
      routing_table = initial_table config;
      dedup = dedup;
      endpoint_stats = implicit.1 ++ configured.1;
    }
