-- ===== src/RunLoop/Sessions.antt =====
-- One session after the other.
use mavrouter.Prelude.{
  ℕ, refl, inl, inr, Bool, true, false, Option, some, List, [], Bool-cases, length, ◌≡◌, ◌⊎◌, ◌∷◌,
  ◌++◌, nat_eq,
}
use Prim.Native.String.{String}
use mavrouter.Routing.Time.{Duration, from_secs}
use mavrouter.Config.{Config, RouterError, Result, ok, err}
use mavrouter.Config.Loading.{load_merged-IsValid}
use mavrouter.Config.Validation.{IsValid}
use mavrouter.Orchestration.{NamedTask}
use mavrouter.Shutdown.{is_finished, remaining}
use mavrouter.RunLoop.{
  Disk, Input, shutdown, hang_up, all_tasks, config_loaded, reload_attempted, reload_succeeded,
  reload_skipped, shutdown_started, Effect, emit, spawn, cancel, join, Outcome, waiting, returned,
  has_endpoints, session_tasks, finished, teardown, Rest, run_config, reload, load, run_inputs,
  run_with_signals, at_once,
}

-- Each of the tasks has ended or is aborted, in their order.
pub data Splits : List NamedTask → List NamedTask → List NamedTask → Type 0 where
  done : Splits [] [] []
  ends :
      {task : NamedTask} {tasks over left : List NamedTask}
      → Splits tasks over left
      → Splits (task ∷ tasks) (task ∷ over) left
  aborts :
      {task : NamedTask} {tasks over left : List NamedTask}
      → Splits tasks over left
      → Splits (task ∷ tasks) over (task ∷ left)

pub data Stage : Type 0 where
  idle : Stage
  loaded : (config : Config) → Stage
  running reloading restarting stopping cancelled : (tasks : List NamedTask) → Stage

module _ (parse_port : String → Option ℕ) (with_port : String → ℕ → String) where
  -- What one effect makes of the stage.
  pub data Step : Stage → Effect → Stage → Type 0 where
    loads :
        (config : Config)
        → IsValid parse_port config
        → Step idle (emit (config_loaded (length config.endpoint))) (loaded config)
    spawns :
        (config : Config)
        → has_endpoints config ≡ true
        → Step
            (loaded config)
            (spawn (session_tasks with_port config))
            (running (session_tasks with_port config))
    attempts :
        (tasks : List NamedTask) → Step (running tasks) (emit reload_attempted) (reloading tasks)
    skips :
        (tasks : List NamedTask) (e : RouterError)
        → Step (reloading tasks) (emit (reload_skipped e)) (running tasks)
    succeeds :
        (tasks : List NamedTask) → Step (reloading tasks) (emit reload_succeeded) (restarting tasks)
    stops : (tasks : List NamedTask) → Step (running tasks) (emit shutdown_started) (stopping tasks)
    restarts :
        (tasks : List NamedTask) → Step (restarting tasks) (emit shutdown_started) (stopping tasks)
    cancels : (tasks : List NamedTask) → Step (stopping tasks) cancel (cancelled tasks)
    joins :
        {tasks over left : List NamedTask}
        → Splits tasks over left
        → Step (cancelled tasks) (join over left) idle

  -- A run from a stage on: it waits only while tasks run, and it returns without an error only when
  -- none do.
  pub data IsOrdered : Stage → List Effect → Outcome → Type 0 where
    waits : (tasks : List NamedTask) → IsOrdered (running tasks) [] waiting
    returns : (result : Result (Unit {0})) → IsOrdered idle [] (returned result)
    has_none :
        (config : Config)
        → has_endpoints config ≡ false
        → IsOrdered (loaded config) [] (returned (ok tt))
    then :
        {before after : Stage} {effect : Effect} {effects : List Effect} {outcome : Outcome}
        → Step before effect after
        → IsOrdered after effects outcome
        → IsOrdered before (effect ∷ effects) outcome

split :
    (ends_at : NamedTask → Option Duration) (timeout_dur : Duration) (tasks : List NamedTask)
    → Splits tasks (finished ends_at timeout_dur tasks) (remaining ends_at timeout_dur tasks)
unfolding remaining
split ends_at timeout_dur [] = done
split ends_at timeout_dur (task ∷ tasks) =
    let rest = split ends_at timeout_dur tasks in
    elim (Bool-cases (is_finished ends_at timeout_dur task)) [
      | inl over ↦ rw over (ends rest)
      | inr left ↦ rw left (aborts rest)
    ]

pub Result-cases {ℓ} :
    {A : Type ℓ} (r : Result A) → ((a : A) × (r ≡ ok a)) ⊎ ((e : RouterError) × (r ≡ err e))
Result-cases (ok a) = inl (a, refl)
Result-cases (err e) = inr (e, refl)

module _ (parse_port : String → Option ℕ) (from_str : String → Option Config)
    (is_toml : String → Bool) (sort : List String → List String)
    (join_path : String → String → String) (with_port : String → ℕ → String) (config_path : String)
    (config_dir : Option String) where
  abbrev pub loads_of : Disk → Result Config
  loads_of = load parse_port from_str is_toml sort join_path with_port config_path config_dir

  abbrev pub inputs_run : List Input → Rest
  inputs_run =
      run_inputs parse_port from_str is_toml sort join_path with_port config_path config_dir

  abbrev Ordered : Stage → List Effect × Outcome → Type 0
  Ordered stage run = IsOrdered parse_port with_port stage run.0 run.1

  loads_of-IsValid :
      (disk : Disk) (config : Config) → loads_of disk ≡ ok config → IsValid parse_port config
  loads_of-IsValid disk config h =
      load_merged-IsValid parse_port from_str disk.read_to_string disk.read_dir is_toml sort
        join_path (some config_path) config_dir config h

  teardown-IsOrdered :
      (ends_at : NamedTask → Option Duration) (tasks : List NamedTask)
      → Ordered (running tasks) (teardown ends_at tasks, returned (ok tt))
  unfolding teardown
  teardown-IsOrdered ends_at tasks =
      then (stops tasks)
        (then (cancels tasks) (then (joins (split ends_at (from_secs 5) tasks)) (returns (ok tt))))

  restart-IsOrdered :
      (ends_at : NamedTask → Option Duration) (tasks : List NamedTask) (run : List Effect × Outcome)
      → Ordered idle run
      → Ordered (restarting tasks) (teardown ends_at tasks ++ run.0, run.1)
  unfolding teardown
  restart-IsOrdered ends_at tasks run ordered =
      then (restarts tasks)
        (then (cancels tasks) (then (joins (split ends_at (from_secs 5) tasks)) ordered))

  run_config-IsOrdered :
      (config : Config) (rest : Rest)
      → IsValid parse_port config
      → ((tasks : List NamedTask) → Ordered (running tasks) (rest tasks))
      → Ordered idle (run_config with_port config rest)
  unfolding run_config
  run_config-IsOrdered config rest valid ordered = elim (Bool-cases (has_endpoints config)) [
    | inl some_endpoint ↦ rw some_endpoint (
        then (loads config valid)
          (then (spawns config some_endpoint) (ordered (session_tasks with_port config))))
    | inr no_endpoint ↦ rw no_endpoint (then (loads config valid) (has_none config no_endpoint))
  ]

  run_inputs-IsOrdered :
      (inputs : List Input) (tasks : List NamedTask)
      → Ordered (running tasks) (inputs_run inputs tasks)
  unfolding run_inputs reload
  run_inputs-IsOrdered [] tasks = waits tasks
  run_inputs-IsOrdered (shutdown ends_at ∷ inputs) tasks = teardown-IsOrdered ends_at tasks
  run_inputs-IsOrdered (hang_up disk ends_at ∷ inputs) tasks = elim (Result-cases (loads_of disk)) [
    | inl (config, h) ↦ rw h (
        then (attempts tasks) (
          then (succeeds tasks) (
            restart-IsOrdered ends_at tasks (run_config with_port config (inputs_run inputs)) (
              run_config-IsOrdered config (inputs_run inputs) (loads_of-IsValid disk config h)
                (run_inputs-IsOrdered inputs)))))
    | inr (e, h) ↦
        rw h (then (attempts tasks) (then (skips tasks e) (run_inputs-IsOrdered inputs tasks)))
  ]
  run_inputs-IsOrdered (all_tasks ∷ inputs) tasks = teardown-IsOrdered at_once tasks

  -- Whatever signals come and whatever the disk holds when they come: the sessions follow each
  -- other. A configuration that is loaded is valid; its tasks, the reporter and the statistics
  -- socket among them, are spawned if it has an endpoint or a TCP port, and only when no others
  -- run; a reload is skipped, and the tasks go on, or it ends the session; a session ends with one
  -- shutdown event, the cancellation, and a wait after which each of its tasks has ended or is
  -- aborted. The function waits only while tasks run, and returns only when none do.
  pub run_with_signals-IsOrdered :
      (disk : Disk) (inputs : List Input)
      → let run =
          run_with_signals parse_port from_str is_toml sort join_path with_port config_path
            config_dir disk inputs in
        IsOrdered parse_port with_port idle run.0 run.1
  unfolding run_with_signals
  run_with_signals-IsOrdered disk inputs = elim (Result-cases (loads_of disk)) [
    | inl (config, h) ↦ rw h (
        run_config-IsOrdered config (inputs_run inputs) (loads_of-IsValid disk config h)
          (run_inputs-IsOrdered inputs))
    | inr (e, h) ↦ rw h (returns (err e))
  ]
