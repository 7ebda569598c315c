-- ===== src/Config.antt =====
-- src/config.rs and src/config/: the configuration, its validation, its merge and its loading.
-- The file system, the TOML parser, the parser of socket addresses, the test for the `toml`
-- extension and the sort of file names are parameters.
pub mod Validation
pub mod Merging
pub mod Loading
pub mod Rates
use Prim.Native.String.{String}
use mavrouter.Prelude.{
  ℕ, Bool, false, Option, none, some, List, [], ltb, ◌+◌, ◌||◌, ◌∷◌, ◌==◌, if◌then◌else◌, nat_eq,
  string_eq, name_eq,
}
use mavrouter.Prelude.Sets.{insert}
use mavrouter.Filter.{EndpointFilters}

pub data BaudRate : Type 0 where
  fixed : ℕ → BaudRate
  auto : List ℕ → BaudRate

unfoldable pub rates : BaudRate → List ℕ
rates (fixed rate) = rate ∷ []
rates (auto all) = all

pub data EndpointMode : Type 0 where
  client : EndpointMode
  server : EndpointMode

pub data FlowControl : Type 0 where
  no_flow_control : FlowControl
  hardware : FlowControl
  software : FlowControl

pub data EndpointConfig : Type 0 where
  udp :
      (address : String) (mode : EndpointMode) (broadcast_timeout_secs : ℕ)
      (filters : EndpointFilters) (group : Option String)
      → EndpointConfig
  tcp :
      (address : String) (mode : EndpointMode) (filters : EndpointFilters) (group : Option String)
      → EndpointConfig
  serial :
      (device : String) (baud : BaudRate) (flow_control : FlowControl) (filters : EndpointFilters)
      (group : Option String)
      → EndpointConfig

abbrev pub filters_of : EndpointConfig → EndpointFilters
filters_of (udp address mode timeout filters group) = filters
filters_of (tcp address mode filters group) = filters
filters_of (serial device baud flow filters group) = filters

-- The name of a group, if it is not empty.
abbrev not_empty : Option String → Option String
not_empty none = none
not_empty (some group) = if group == "" then none else some group

unfoldable pub group : EndpointConfig → Option String
group (udp address mode timeout filters name) = not_empty name
group (tcp address mode filters name) = not_empty name
group (serial device baud flow filters name) = not_empty name

pub record GeneralConfig : Type 0 where
  pub tcp_port : Option ℕ
  pub dedup_period_ms : Option ℕ
  pub log : Option String
  pub log_telemetry : Bool
  pub bus_capacity : ℕ
  pub routing_table_ttl_secs : ℕ
  pub routing_table_prune_interval_secs : ℕ
  pub stats_retention_secs : ℕ
  pub stats_sample_interval_secs : ℕ
  pub stats_log_interval_secs : ℕ
  pub stats_socket_path : Option String
  pub sniffer_sysids : List ℕ

abbrev pub default_bus_capacity : ℕ
default_bus_capacity = 5000

abbrev pub default_routing_table_prune_interval_secs : ℕ
default_routing_table_prune_interval_secs = 60

abbrev pub default_routing_table_ttl_secs : ℕ
default_routing_table_ttl_secs = 300

abbrev pub default_stats_retention_secs : ℕ
default_stats_retention_secs = 86_400

abbrev pub default_stats_sample_interval_secs : ℕ
default_stats_sample_interval_secs = 1

abbrev pub default_stats_log_interval_secs : ℕ
default_stats_log_interval_secs = 60

abbrev pub default_general : GeneralConfig
default_general = record {
  tcp_port = none;
  dedup_period_ms = none;
  log = none;
  log_telemetry = false;
  bus_capacity = default_bus_capacity;
  routing_table_ttl_secs = default_routing_table_ttl_secs;
  routing_table_prune_interval_secs = default_routing_table_prune_interval_secs;
  stats_retention_secs = default_stats_retention_secs;
  stats_sample_interval_secs = default_stats_sample_interval_secs;
  stats_log_interval_secs = default_stats_log_interval_secs;
  stats_socket_path = none;
  sniffer_sysids = [];
}

pub record Config : Type 0 where
  pub general : GeneralConfig
  pub endpoint : List EndpointConfig

abbrev pub default_config : Config
default_config = record { general = default_general; endpoint = [] }

-- `RouterError`, without the error of the library underneath; what a `ConfigValidation` is about is
-- a constructor, and so is the start without endpoints.
pub data RouterError : Type 0 where
  filesystem : (path : String) → RouterError
  config_parse : RouterError
  config_parse_file : (path : String) → RouterError
  invalid_address : (index : ℕ) → RouterError
  duplicate_port : (protocol : String) (port index : ℕ) → RouterError
  empty_baud_rates : (index : ℕ) → RouterError
  invalid_baud_rate : (index rate : ℕ) → RouterError
  invalid_msg_id : (list : String) (index msg_id : ℕ) → RouterError
  bus_capacity_too_small : ℕ → RouterError
  bus_capacity_too_large : ℕ → RouterError
  zero_prune_interval : RouterError
  invalid_remote_address : (address : String) → RouterError
  unresolved_remote_address : (address : String) → RouterError
  network : (address : String) → RouterError
  serial_error : (device : String) → RouterError
  serial_timeout : (device : String) (timeout_secs : ℕ) → RouterError
  no_endpoints : RouterError

pub data Result {ℓ} (A : Type ℓ) : Type ℓ where
  ok : A → Result A
  err : RouterError → Result A

-- The operator `?`: the rest runs on the value, an error is returned.
abbrev pub and_then {ℓ κ} : {A : Type ℓ} {B : Type κ} → Result A → (A → Result B) → Result B
and_then (ok a) rest = rest a
and_then (err e) rest = err e

unfoldable pub check_msg_ids : String → ℕ → List ℕ → Result (Unit {0})
check_msg_ids type_str i [] = ok tt
check_msg_ids type_str i (msg_id ∷ ids) =
    if ltb 65535 msg_id
    then err (invalid_msg_id type_str i msg_id)
    else check_msg_ids type_str i ids

unfoldable pub check_rates : ℕ → List ℕ → Result (Unit {0})
check_rates i [] = ok tt
check_rates i (rate ∷ all) =
    if ltb rate 300 || ltb 4_000_000 rate then err (invalid_baud_rate i rate) else check_rates i all

-- The port is added to the ports seen, unless it is there.
abbrev pub claim : ℕ → String → ℕ → List (String × ℕ) → Result (List (String × ℕ))
claim i protocol port ports =
    let added = insert ports (protocol, port) in
    if added.1 then ok added.0 else err (duplicate_port protocol port i)

abbrev pub claim_address : ℕ → String → Option ℕ → List (String × ℕ) → Result (List (String × ℕ))
claim_address i protocol none ports = err (invalid_address i)
claim_address i protocol (some port) ports = claim i protocol port ports

abbrev pub check_all_msg_ids : ℕ → EndpointFilters → Result (Unit {0})
check_all_msg_ids i filters = and_then (check_msg_ids "allow_out" i filters.allow_msg_id_out) (λ u.
    and_then (check_msg_ids "block_out" i filters.block_msg_id_out) (λ v.
      and_then (check_msg_ids "allow_in" i filters.allow_msg_id_in)
        (λ w. check_msg_ids "block_in" i filters.block_msg_id_in)))

unfoldable pub check_general : GeneralConfig → Result (Unit {0})
check_general general =
    if ltb general.bus_capacity 10
    then err (bus_capacity_too_small general.bus_capacity)
    else if ltb 1_000_000 general.bus_capacity
    then err (bus_capacity_too_large general.bus_capacity)
    else if general.routing_table_prune_interval_secs == 0
    then err zero_prune_interval
    else ok tt

-- The port of the general TCP server, if there is one.
abbrev pub first_ports : Option ℕ → List (String × ℕ)
first_ports none = []
first_ports (some port) = ("tcp", port) ∷ []

module _ (parse_port : String → Option ℕ) where
  unfoldable pub validate_endpoint :
      ℕ → EndpointConfig → List (String × ℕ) → Result (List (String × ℕ))
  validate_endpoint i (tcp address mode filters name) ports =
      claim_address i "tcp" (parse_port address) ports
  validate_endpoint i (udp address mode timeout filters name) ports =
      claim_address i "udp" (parse_port address) ports
  validate_endpoint i (serial device (fixed rate) flow filters name) ports =
      and_then (check_rates i (rate ∷ [])) (λ u. ok ports)
  validate_endpoint i (serial device (auto []) flow filters name) ports = err (empty_baud_rates i)
  validate_endpoint i (serial device (auto (rate ∷ all)) flow filters name) ports =
      and_then (check_rates i (rate ∷ all)) (λ u. ok ports)

  unfoldable pub validate_endpoints :
      ℕ → List EndpointConfig → List (String × ℕ) → Result (Unit {0})
  validate_endpoints i [] ports = ok tt
  validate_endpoints i (endpoint ∷ endpoints) ports =
      and_then (validate_endpoint i endpoint ports) (λ claimed.
        and_then (check_all_msg_ids i (filters_of endpoint))
          (λ u. validate_endpoints (i + 1) endpoints claimed))

  unfoldable pub validate : Config → Result (Unit {0})
  validate config =
      and_then (validate_endpoints 0 config.endpoint (first_ports config.general.tcp_port))
        (λ u. check_general config.general)
