-- ===== src/Config/Validation.antt =====
-- What `validate` accepts.
pub mod Stages
pub mod Accepted
use mavrouter.Prelude.{
  ℕ, Option, none, some, List, [], All, ◌≤◌, ◌<◌, ◌≡◌, ◌≢◌, ◌∷◌, nat_eq, string_eq, name_eq,
}
use Prim.Native.String.{String}
use mavrouter.Prelude.Sets.{Distinct}
use mavrouter.Filter.{EndpointFilters}
use mavrouter.Config.{
  BaudRate, fixed, auto, rates, EndpointConfig, tcp, udp, serial, filters_of, GeneralConfig, Config,
  ok, err, Result, RouterError, and_then, check_all_msg_ids, check_general, first_ports,
  validate_endpoint, validate_endpoints, validate,
}

abbrev pub InRange : ℕ → Type 0
InRange rate = (300 ≤ rate) × (rate ≤ 4_000_000)

abbrev pub Short : List ℕ → Type 0
Short ids = All (λ msg_id. msg_id ≤ 65535) ids

-- The four lists of message ids are below 2 ^ 16.
abbrev pub ShortIds : EndpointFilters → Type 0
ShortIds f =
    Short f.allow_msg_id_out
    × Short f.block_msg_id_out
    × Short f.allow_msg_id_in
    × Short f.block_msg_id_in

abbrev pub with_protocol : String → Option ℕ → List (String × ℕ) → List (String × ℕ)
with_protocol protocol none ports = ports
with_protocol protocol (some port) ports = (protocol, port) ∷ ports

module _ (parse_port : String → Option ℕ) where
  -- The address parses, or there is a baud rate and all are in range.
  abbrev pub AddressOk : EndpointConfig → Type 0
  AddressOk (tcp address mode filters name) = (port : ℕ) × (parse_port address ≡ some port)
  AddressOk (udp address mode timeout filters name) = (port : ℕ) × (parse_port address ≡ some port)
  AddressOk (serial device baud flow filters name) = (rates baud ≢ []) × All InRange (rates baud)

  abbrev pub EndpointOk : EndpointConfig → Type 0
  EndpointOk e = AddressOk e × ShortIds (filters_of e)

  -- The ports that are taken, with the endpoint's.
  abbrev pub with_port : EndpointConfig → List (String × ℕ) → List (String × ℕ)
  with_port (tcp address mode filters name) ports = with_protocol "tcp" (parse_port address) ports
  with_port (udp address mode timeout filters name) ports =
      with_protocol "udp" (parse_port address) ports
  with_port (serial device baud flow filters name) ports = ports

  abbrev pub with_ports : List EndpointConfig → List (String × ℕ) → List (String × ℕ)
  with_ports [] ports = ports
  with_ports (e ∷ es) ports = with_ports es (with_port e ports)

  -- A configuration as the documents ask for it.
  abbrev pub IsValid : Config → Type 0
  IsValid c =
      All EndpointOk c.endpoint
      × Distinct (with_ports c.endpoint (first_ports c.general.tcp_port))
      × (10 ≤ c.general.bus_capacity)
      × (c.general.bus_capacity ≤ 1_000_000)
      × (0 < c.general.routing_table_prune_interval_secs)
