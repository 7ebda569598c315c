-- ===== src/RunLoop.antt =====
-- src/run_loop.rs, `run_with_signals`: the router from its start to its end, with the reloads that a
-- SIGHUP asks for. What `select!` finds is a list; a reload reads the disk as it is at that time.
pub mod Sessions
pub mod Reloads
use mavrouter.Prelude.{
  ℕ, Bool, true, false, not, Option, none, some, List, [], length, ◌||◌, ◌∷◌, ◌++◌, ◌==◌,
  if◌then◌else◌, nat_eq, string_eq,
}
use Prim.Native.String.{String}
use mavrouter.Routing.Time.{Duration, from_secs}
use mavrouter.Config.{Config, GeneralConfig, RouterError, Result, ok, err}
use mavrouter.Config.Loading.{load_merged}
use mavrouter.Orchestration.{
  Name, NamedTask, stats_reporter, stats_socket, report_stats, run_stats_server, spawn_all,
}
use mavrouter.StatsReporter.{is_disabled}
use mavrouter.Shutdown.{is_finished, remaining}

-- What the file system gives.
pub record Disk : Type 0 where
  pub read_to_string : String → Option String
  pub read_dir : String → Option (List (Option String))

-- What `select!` finds. `ends` says how long after the cancellation each task ends, if it does.
pub data Input : Type 0 where
  shutdown : (ends : NamedTask → Option Duration) → Input
  hang_up : (disk : Disk) (ends : NamedTask → Option Duration) → Input
  all_tasks : Input

pub data RunEvent : Type 0 where
  config_loaded : (endpoints : ℕ) → RunEvent
  reload_attempted : RunEvent
  reload_succeeded : RunEvent
  reload_skipped : (reason : RouterError) → RunEvent
  shutdown_started : RunEvent

-- What the loop does: it emits an event, spawns tasks, cancels them, and waits for them until they
-- have ended or are aborted.
pub data Effect : Type 0 where
  emit : RunEvent → Effect
  spawn : (tasks : List NamedTask) → Effect
  cancel : Effect
  join : (finished aborted : List NamedTask) → Effect

-- The loop waits for its next input, or the function has returned.
pub data Outcome : Type 0 where
  waiting : Outcome
  returned : Result (Unit {0}) → Outcome

abbrev pub is_some {ℓ} : {A : Type ℓ} → Option A → Bool
is_some none = false
is_some (some a) = true

unfoldable pub has_endpoints : Config → Bool
has_endpoints config = not (length config.endpoint == 0) || is_some config.general.tcp_port

abbrev pub before : List Effect → List Effect × Outcome → List Effect × Outcome
before first rest = (first ++ rest.0, rest.1)

abbrev pub reporter : GeneralConfig → List NamedTask
reporter general =
    if is_disabled general.stats_sample_interval_secs general.stats_retention_secs
    then []
    else record {
      name = stats_reporter;
      handle =
          report_stats general.stats_sample_interval_secs general.stats_retention_secs
            general.stats_log_interval_secs;
    }
      ∷ []

-- `spawn_stats_socket`, on a system that has such sockets.
abbrev pub spawn_stats_socket : Option String → List (ℕ × Name) → List NamedTask
spawn_stats_socket none endpoint_stats = []
spawn_stats_socket (some socket_path) endpoint_stats =
    if socket_path == ""
    then []
    else record {
      name = stats_socket socket_path;
      handle = run_stats_server socket_path endpoint_stats;
    }
      ∷ []

-- The tasks of a session.
unfoldable pub session_tasks : (String → ℕ → String) → Config → List NamedTask
session_tasks with_port config =
    let general = config.general in
    let orchestrated = spawn_all with_port config in
    orchestrated.tasks
    ++ (reporter general
        ++ spawn_stats_socket general.stats_socket_path orchestrated.endpoint_stats)

abbrev pub finished : (NamedTask → Option Duration) → Duration → List NamedTask → List NamedTask
finished ends timeout_dur [] = []
finished ends timeout_dur (task ∷ tasks) =
    let rest = finished ends timeout_dur tasks in
    if is_finished ends timeout_dur task then task ∷ rest else rest

-- The end of a session: the tasks that are left after five seconds are aborted.
unfoldable pub teardown : (NamedTask → Option Duration) → List NamedTask → List Effect
teardown ends tasks =
    let timeout_dur = from_secs 5 in
    emit shutdown_started
    ∷ cancel
    ∷ join (finished ends timeout_dur tasks) (remaining ends timeout_dur tasks)
    ∷ []

-- All tasks have ended before the cancellation.
abbrev pub at_once : NamedTask → Option Duration
at_once task = some 0

-- The rest of a run, with the tasks that are spawned.
abbrev pub Rest : Type 0
Rest = List NamedTask → List Effect × Outcome

module _ (with_port : String → ℕ → String) where
  -- The outer loop with a configuration; `rest` is what the inner loop does.
  unfoldable pub run_config : Config → Rest → List Effect × Outcome
  run_config config rest =
      let loaded = emit (config_loaded (length config.endpoint)) in
      let tasks = session_tasks with_port config in
      if not (has_endpoints config)
      then (loaded ∷ [], returned (ok tt))
      else before (loaded ∷ spawn tasks ∷ []) (rest tasks)

  -- A reload: the rest runs with the new configuration, or with the old tasks.
  unfoldable pub reload :
      Result Config → List Effect → List NamedTask → Rest → List Effect × Outcome
  reload (ok validated_config) end_of_session tasks rest =
      before (emit reload_attempted ∷ emit reload_succeeded ∷ end_of_session)
        (run_config validated_config rest)
  reload (err e) end_of_session tasks rest =
      before (emit reload_attempted ∷ emit (reload_skipped e) ∷ []) (rest tasks)

module _ (parse_port : String → Option ℕ) (from_str : String → Option Config)
    (is_toml : String → Bool) (sort : List String → List String)
    (join_path : String → String → String) (with_port : String → ℕ → String) (config_path : String)
    (config_dir : Option String) where
  abbrev pub load : Disk → Result Config
  load disk =
      load_merged parse_port from_str disk.read_to_string disk.read_dir is_toml sort join_path
        (some config_path) config_dir

  -- The inner loop.
  unfoldable pub run_inputs : List Input → Rest
  run_inputs [] tasks = ([], waiting)
  run_inputs (shutdown ends ∷ inputs) tasks = (teardown ends tasks, returned (ok tt))
  run_inputs (hang_up disk ends ∷ inputs) tasks =
      reload with_port (load disk) (teardown ends tasks) tasks (run_inputs inputs)
  run_inputs (all_tasks ∷ inputs) tasks = (teardown at_once tasks, returned (ok tt))

  abbrev first_run : Result Config → Rest → List Effect × Outcome
  first_run (ok config) rest = run_config with_port config rest
  first_run (err e) rest = ([], returned (err e))

  unfoldable pub run_with_signals : Disk → List Input → List Effect × Outcome
  run_with_signals disk inputs = first_run (load disk) (run_inputs inputs)
