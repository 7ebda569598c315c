-- ===== src/Main.antt =====
-- src/main.rs: the program, from its command line on. The reader of the command line is a library, and
-- whether the system lets the handlers of the signals be installed is given.
pub mod Failing
use mavrouter.Prelude.{Bool, Option, List, [], if◌then◌else◌, nat_eq, ℕ}
use Prim.Native.String.{String}
use mavrouter.Config.{Config, Result, err, network}
use mavrouter.RunLoop.{Disk, Input, Effect, Outcome, returned, run_with_signals}

pub record Args : Type 0 where
  pub config : String
  pub config_dir : Option String

-- Whether `signal` gives a handler for the hang-up and for the termination.
pub record Handlers : Type 0 where
  pub hangup : Bool
  pub terminate : Bool

module _ (parse_port : String → Option ℕ) (from_str : String → Option Config)
    (is_toml : String → Bool) (sort : List String → List String)
    (join_path : String → String → String) (with_port : String → ℕ → String) where
  unfoldable pub main : Args → Handlers → Disk → List Input → List Effect × Outcome
  main args handlers disk inputs =
      if handlers.hangup
      then if handlers.terminate
        then run_with_signals parse_port from_str is_toml sort join_path with_port args.config
            args.config_dir disk inputs
        else ([], returned (err (network "SIGTERM handler")))
      else ([], returned (err (network "SIGHUP handler")))
