-- ===== src/HighLevel.antt =====
-- src/high_level.rs: the router as a library starts and stops it. How the tasks take the cancellation
-- is a parameter.
pub mod Starting
use mavrouter.Prelude.{ℕ, Bool, true, false, not, Option, List, if◌then◌else◌, nat_eq}
use Prim.Native.String.{String}
use mavrouter.Routing.Time.{Duration, from_secs}
use mavrouter.Config.{Config, Result, ok, err, and_then, no_endpoints}
use mavrouter.Config.Loading
use mavrouter.RunLoop.{has_endpoints}
use mavrouter.Shutdown.{shutdown_with_timeout}
use mavrouter.Orchestration.{NamedTask, OrchestratedRouter, spawn_all}

pub record Router : Type 0 where
  pub orchestrated : OrchestratedRouter
  pub is_cancelled : Bool

-- `Router::start`.
unfoldable pub start : (String → ℕ → String) → Config → Result Router
start with_port config =
    if not (has_endpoints config)
    then err no_endpoints
    else ok (record { orchestrated = spawn_all with_port config; is_cancelled = false })

abbrev pub is_running : Router → Bool
is_running router = not router.is_cancelled

module _ (parse_port : String → Option ℕ) (from_toml : String → Option Config)
    (read_to_string : String → Option String) (read_dir : String → Option (List (Option String)))
    (is_toml : String → Bool) (sort : List String → List String) (join : String → String → String)
    (with_port : String → ℕ → String) where
  -- `Router::from_str`.
  unfoldable pub from_str : String → Result Router
  from_str toml =
      and_then (Loading.parse parse_port from_toml read_to_string read_dir is_toml sort join toml)
        (start with_port)

  unfoldable pub from_file : String → Result Router
  from_file path =
      and_then (Loading.load parse_port from_toml read_to_string read_dir is_toml sort join path)
        (start with_port)

-- `Router::stop`: the router after the cancellation, and the tasks that are aborted.
unfoldable pub stop : (NamedTask → Option Duration) → Router → Router × List NamedTask
stop ends router = (
  record router { is_cancelled = true },
  (shutdown_with_timeout ends router.orchestrated.tasks (from_secs 5)).0,
)
