-- ===== src/Examples/Settings.antt =====
-- Filters and configurations at concrete inputs.
use Prim.Native.String.{String}
use mavrouter.Prelude.{
  ℕ, refl, Bool, true, Option, none, some, List, [], ◌≡◌, ◌↔◌, ◌∷◌, nat_eq, string_eq, name_eq,
}
use mavrouter.Prelude.Sets.{contains, insert}
use mavrouter.Mavlink.{MavHeader}
use mavrouter.Filter.{EndpointFilters, PassesIncoming, check_incoming, check_incoming_iff}
use mavrouter.Config.{
  Config, default_general, tcp, serial, client, fixed, hardware, ok, check_rates, check_msg_ids,
  check_general, validate_endpoint, validate_endpoints, validate,
}
use mavrouter.Config.Loading.{parse, load, load_merged}

-- Heartbeats and attitudes only, except from component 9.
abbrev pub filters : EndpointFilters
filters = record {
  allow_msg_id_out = [];
  block_msg_id_out = 30 ∷ [];
  allow_src_comp_out = [];
  block_src_comp_out = [];
  allow_src_sys_out = [];
  block_src_sys_out = [];
  allow_msg_id_in = 0 ∷ 30 ∷ [];
  block_msg_id_in = [];
  allow_src_comp_in = [];
  block_src_comp_in = 9 ∷ [];
  allow_src_sys_in = [];
  block_src_sys_in = [];
}

abbrev pub header : MavHeader
header = record { system_id = 1; component_id = 1; sequence = 0 }

check_incoming_iff_example :
    (check_incoming filters header 30 ≡ true) ↔ PassesIncoming filters header 30
check_incoming_iff_example = check_incoming_iff filters header 30

-- Every address has port 5761.
abbrev pub port_5761 : String → Option ℕ
port_5761 address = some 5761

abbrev pub sample : Config
sample = record {
  general = default_general;
  endpoint =
      tcp "127.0.0.1:5761" client filters none
      ∷ serial "/dev/ttyACM0" (fixed 57_600) hardware filters none
      ∷ [];
}

abbrev pub sample_of : String → Option Config
sample_of toml = some sample

abbrev pub contents : String → Option String
contents path = some ""

abbrev pub no_entries : String → Option (List (Option String))
no_entries path = some []

abbrev pub is_toml : String → Bool
is_toml name = true

abbrev pub as_is : List String → List String
as_is names = names

abbrev pub join : String → String → String
join dir name = name

pub loaded :
    load_merged port_5761 sample_of contents no_entries is_toml as_is join (some "router.toml") none
    ≡ ok sample
unfolding load_merged load parse validate validate_endpoints validate_endpoint check_rates
    check_msg_ids check_general insert contains
loaded = refl
