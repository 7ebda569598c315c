-- ===== src/RunLoop/Reloads.antt =====
-- What a reload changes.
use mavrouter.Prelude.{
  ℕ, refl, sym, ap, inl, inr, Bool, Option, List, [], arith, Bool-cases, length, ◌≡◌, ◌∙◌, ◌≢◌, ◌↔◌,
  ◌∷◌, nat_eq,
}
use Prim.Native.String.{String}
use mavrouter.Routing.Time.{Duration}
use mavrouter.Config.{Config, RouterError, Result, ok, err}
use mavrouter.Orchestration.{NamedTask}
use mavrouter.RunLoop.{
  Disk, Input, shutdown, hang_up, all_tasks, config_loaded, reload_attempted, reload_succeeded,
  reload_skipped, shutdown_started, Effect, emit, spawn, cancel, join, Outcome, returned,
  has_endpoints, session_tasks, teardown, Rest, run_config, reload, run_inputs, run_with_signals,
  before,
}
use mavrouter.RunLoop.Sessions.{Result-cases, loads_of, inputs_run}

-- Without the events of attempted and of skipped reloads.
abbrev pub visible : List Effect → List Effect
visible [] = []
visible (emit (config_loaded n) ∷ effects) = emit (config_loaded n) ∷ visible effects
visible (emit reload_attempted ∷ effects) = visible effects
visible (emit reload_succeeded ∷ effects) = emit reload_succeeded ∷ visible effects
visible (emit (reload_skipped e) ∷ effects) = visible effects
visible (emit shutdown_started ∷ effects) = emit shutdown_started ∷ visible effects
visible (spawn tasks ∷ effects) = spawn tasks ∷ visible effects
visible (cancel ∷ effects) = cancel ∷ visible effects
visible (join finished aborted ∷ effects) = join finished aborted ∷ visible effects

abbrev pub seen : List Effect × Outcome → List Effect × Outcome
seen run = (visible run.0, run.1)

module _ (parse_port : String → Option ℕ) (from_str : String → Option Config)
    (is_toml : String → Bool) (sort : List String → List String)
    (join_path : String → String → String) (with_port : String → ℕ → String) (config_path : String)
    (config_dir : Option String) where
  abbrev loaded_from : Disk → Result Config
  loaded_from = loads_of parse_port from_str is_toml sort join_path with_port config_path config_dir

  abbrev run_of : List Input → Rest
  run_of = inputs_run parse_port from_str is_toml sort join_path with_port config_path config_dir

  abbrev keep : Result Config → Disk → (NamedTask → Option Duration) → List Input → List Input
  keep (ok config) disk ends inputs = hang_up disk ends ∷ inputs
  keep (err e) disk ends inputs = inputs

  -- The inputs without the reloads whose configuration is rejected.
  abbrev pub accepted : List Input → List Input
  accepted [] = []
  accepted (shutdown ends ∷ inputs) = shutdown ends ∷ accepted inputs
  accepted (hang_up disk ends ∷ inputs) = keep (loaded_from disk) disk ends (accepted inputs)
  accepted (all_tasks ∷ inputs) = all_tasks ∷ accepted inputs

  run_config-seen :
      (config : Config) (rest other : Rest)
      → ((tasks : List NamedTask) → seen (rest tasks) ≡ seen (other tasks))
      → seen (run_config with_port config rest) ≡ seen (run_config with_port config other)
  unfolding run_config
  run_config-seen config rest other e = elim (Bool-cases (has_endpoints config)) [
    | inl some_endpoint ↦
        let tasks = session_tasks with_port config in
        rw some_endpoint
          (ap (before (emit (config_loaded (length config.endpoint)) ∷ spawn tasks ∷ [])) (e tasks))
    | inr no_endpoint ↦ rw no_endpoint refl
  ]

  run_inputs-seen :
      (inputs : List Input) (tasks : List NamedTask)
      → seen (run_of inputs tasks) ≡ seen (run_of (accepted inputs) tasks)
  unfolding run_inputs reload teardown
  run_inputs-seen [] tasks = refl
  run_inputs-seen (shutdown ends ∷ inputs) tasks = refl
  run_inputs-seen (hang_up disk ends ∷ inputs) tasks =
      let rest = run_inputs-seen inputs in
      elim (Result-cases (loaded_from disk)) [
        | inl (config, h) ↦
            let again : run_of (hang_up disk ends ∷ accepted inputs) tasks
                ≡ reload with_port (ok config) (teardown ends tasks) tasks
                    (run_of (accepted inputs)) =
              ap (λ r. reload with_port r (teardown ends tasks) tasks (run_of (accepted inputs)))
                h in
            rw h (
              ap (before (emit reload_succeeded ∷ teardown ends tasks))
                (run_config-seen config (run_of inputs) (run_of (accepted inputs)) rest)
              ∙ ap seen (sym again))
        | inr (e, h) ↦ rw h (rest tasks)
      ]
  run_inputs-seen (all_tasks ∷ inputs) tasks = refl

  -- A reload whose configuration is rejected changes nothing: but for the events that report the
  -- attempt, the router does exactly what it does without it, and ends in the same way.
  pub run_with_signals-accepted :
      (disk : Disk) (inputs : List Input)
      → let run =
          run_with_signals parse_port from_str is_toml sort join_path with_port config_path
            config_dir disk in
        seen (run inputs) ≡ seen (run (accepted inputs))
  unfolding run_with_signals
  run_with_signals-accepted disk inputs = elim (Result-cases (loaded_from disk)) [
    | inl (config, h) ↦
        rw h (
          run_config-seen config (run_of inputs) (run_of (accepted inputs))
            (run_inputs-seen inputs))
    | inr (e, h) ↦ rw h refl
  ]

  run_config-no_error :
      (config : Config) (rest : Rest) (e : RouterError)
      → ((tasks : List NamedTask) → (rest tasks).1 ≢ returned (err e))
      → (run_config with_port config rest).1 ≢ returned (err e)
  unfolding run_config
  run_config-no_error config rest e other = ground (arith, other (session_tasks with_port config))

  run_inputs-no_error :
      (inputs : List Input) (tasks : List NamedTask) (e : RouterError)
      → (run_of inputs tasks).1 ≢ returned (err e)
  unfolding run_inputs reload
  run_inputs-no_error [] tasks e = ground arith
  run_inputs-no_error (shutdown ends ∷ inputs) tasks e = ground arith
  run_inputs-no_error (hang_up disk ends ∷ inputs) tasks e =
      elim (Result-cases (loaded_from disk)) [
        | inl (config, h) ↦
            rw h
              (run_config-no_error config (run_of inputs) e λ ts. run_inputs-no_error inputs ts e)
        | inr (failed, h) ↦ rw h (run_inputs-no_error inputs tasks e)
      ]
  run_inputs-no_error (all_tasks ∷ inputs) tasks e = ground arith

  -- The router returns an error exactly if the configuration that it starts with cannot be loaded,
  -- and it is the error of the load: no reload makes it fail.
  pub run_with_signals-err :
      (disk : Disk) (inputs : List Input) (e : RouterError)
      → ((run_with_signals parse_port from_str is_toml sort join_path with_port config_path
            config_dir disk inputs).1
          ≡ returned (err e))
        ↔ (loaded_from disk ≡ err e)
  unfolding run_with_signals
  run_with_signals-err disk inputs e = elim (Result-cases (loaded_from disk)) [
    | inl (config, h) ↦
        let never =
          run_config-no_error config (run_of inputs) e λ ts. run_inputs-no_error inputs ts e in
        rw h (λ k. absurd (never k), λ k. absurd (ground (arith, k)))
    | inr (failed, h) ↦ rw h (λ k. ground (arith, k), λ k. ground (arith, k))
  ]
