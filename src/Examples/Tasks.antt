-- ===== src/Examples/Tasks.antt =====
-- The tasks of the program at concrete inputs.
use mavrouter.Prelude.{
  ℕ, refl, true, false, Option, none, some, List, [], arith, All, length, ◌-◌, ◌≤◌, ◌++◌, ◌≡◌, ◌↔◌,
  ◌∷◌, nat_eq, string_eq,
}
use Prim.Native.String.{String}
use mavrouter.Routing.Time.{Duration, from_secs}
use mavrouter.Routing.Table.{RouteUpdate, new}
use mavrouter.Routing.Reach.{IsBytes, Reach, start}
use mavrouter.Routing.View.{view}
use mavrouter.Updater
use mavrouter.Updater.{run_updater}
use mavrouter.Updater.Order.{InOrder, Action, act, updates, prune_times, ticks, run_updater-InOrder}
use mavrouter.Updater.Progress.{capacity, run_updater-empties}
use mavrouter.Backoff.Doubling.{IsDoubling, expected}
use mavrouter.Supervisor
use mavrouter.Supervisor.{Round, ran, slept, supervise}
use mavrouter.Supervisor.Restarts.{history, supervise-expected}
use mavrouter.Tcp
use mavrouter.Config.{Config, ok, err, network, filesystem}
use mavrouter.Config.Validation.{IsValid}
use mavrouter.HighLevel
use mavrouter.HighLevel.{Router, from_file, is_running, stop}
use mavrouter.HighLevel.Starting.{IsTask, OutlastsFive, IsStarted, from_file-IsStarted}
use mavrouter.Config.{
  check_rates, check_msg_ids, check_general, validate_endpoint, validate_endpoints, validate,
}
use mavrouter.Config.Loading.{parse}
use mavrouter.Config.Loading
use mavrouter.RunLoop.{
  has_endpoints, Disk, Input, shutdown, hang_up, load, run_with_signals, Effect, Outcome,
}
use mavrouter.RunLoop
use mavrouter.RunLoop.Sessions.{IsOrdered, idle, run_with_signals-IsOrdered}
use mavrouter.RunLoop.Reloads.{seen, accepted, run_with_signals-accepted}
use mavrouter.Main.{main}
use mavrouter.Main.Failing.{FailsWith, main-err}
use mavrouter.Routing.Groups.{any_in_same_group}
use mavrouter.Routing.Reach.{Reach}
use mavrouter.Orchestration.{NamedTask, initial_table, spawn_all}
use mavrouter.Orchestration.Spawned.{endpoints_of, ids, spawn_all-ids}
use mavrouter.Orchestration.Grouping.{group_at, initial_table-groups}
use mavrouter.Orchestration.Bauds.{ChoosesBaud, spawn_all-ChoosesBaud}
use mavrouter.Prelude.Sets.{Distinct, insert, contains}
use mavrouter.Config.Loading.{load_merged-IsValid}
use mavrouter.Examples.Delays.{scale}
use mavrouter.Examples.Settings.{
  port_5761, sample, sample_of, contents, no_entries, is_toml, as_is, join, loaded,
}

abbrev observation : ℕ → RouteUpdate
observation sys_id = record { endpoint_id = 1; sys_id = sys_id; comp_id = 1; now = 5 }

abbrev queue : List RouteUpdate
queue = observation 1 ∷ observation 2 ∷ observation 3 ∷ []

abbrev wakes : List Updater.Wake
wakes = Updater.received 1 6 ∷ Updater.tick 7 ∷ Updater.received 0 8 ∷ []

queue-IsBytes : All IsBytes queue
queue-IsBytes = (
  record { sys_byte = omega arith; comp_byte = omega arith },
  (
    record { sys_byte = omega arith; comp_byte = omega arith },
    (record { sys_byte = omega arith; comp_byte = omega arith }, tt),
  ),
)

run_updater-InOrder_example :
    InOrder (from_secs 300) wakes new queue (run_updater (from_secs 300) wakes new queue)
run_updater-InOrder_example =
    run_updater-InOrder (from_secs 300) wakes new queue start queue-IsBytes

run_updater-empties_example :
    let out = run_updater (from_secs 300) wakes new queue in
    (length out.1 ≡ length queue - capacity wakes)
    × (length queue ≤ capacity wakes
        → (out.1 ≡ [])
          × Reach out.0
          × ((actions : List Action) × (served : List Updater.Wake) × (unserved : List Updater.Wake)
              × (view out.0 ≡ act (from_secs 300) (view new) actions)
              × (updates actions ≡ queue)
              × (served ++ unserved ≡ wakes)
              × (prune_times actions ≡ ticks served)))
run_updater-empties_example =
    run_updater-empties (from_secs 300) wakes new queue start queue-IsBytes

scale-doubles : IsDoubling scale 2
scale-doubles k h = omega arith

abbrev rounds : List Round
rounds =
    ran (from_secs 5) (err (network "a")) slept
    ∷ ran (from_secs 5) (ok tt) slept
    ∷ ran (from_secs 90) (ok tt) slept
    ∷ Supervisor.cancelled
    ∷ []

supervise-expected_example : (supervise scale 2 rounds).0 ≡ expected 30 0 (history rounds)
supervise-expected_example = supervise-expected scale 2 rounds scale-doubles

abbrev connections : List Tcp.Event
connections = Tcp.accepted ∷ Tcp.elsewhere ∷ Tcp.accepted ∷ Tcp.joined 0 ∷ Tcp.accept_failed ∷ []

abbrev good_disk : Disk
good_disk = record { read_to_string = contents; read_dir = no_entries }

abbrev bad_disk : Disk
bad_disk = record { read_to_string = λ path. none; read_dir = no_entries }

abbrev with_port : String → ℕ → String
with_port address port = address

abbrev in_a_second : NamedTask → Option Duration
in_a_second task = some (from_secs 1)

abbrev signals : List Input
signals =
    hang_up bad_disk in_a_second ∷ hang_up good_disk in_a_second ∷ shutdown (λ task. none) ∷ []

abbrev run_from : Disk → List Input → List Effect × Outcome
run_from = run_with_signals port_5761 sample_of is_toml as_is join with_port "router.toml" none

run_with_signals-IsOrdered_example :
    IsOrdered port_5761 with_port idle (run_from good_disk signals).0 (run_from good_disk signals).1
run_with_signals-IsOrdered_example =
    run_with_signals-IsOrdered port_5761 sample_of is_toml as_is join with_port "router.toml" none
      good_disk signals

run_with_signals-accepted_example :
    seen (run_from good_disk signals)
    ≡ seen (
        run_from good_disk
          (accepted port_5761 sample_of is_toml as_is join with_port "router.toml" none signals))
run_with_signals-accepted_example =
    run_with_signals-accepted port_5761 sample_of is_toml as_is join with_port "router.toml" none
      good_disk signals

main-err_example :
    let out =
      main port_5761 sample_of is_toml as_is join with_port
        (record { config = "router.toml"; config_dir = none })
        (record { hangup = true; terminate = true })
        bad_disk
        signals in
    (out.1 ≡ RunLoop.returned (err (filesystem "router.toml"))) ↔ (
      FailsWith
        (record { hangup = true; terminate = true })
        (load port_5761 sample_of is_toml as_is join with_port "router.toml" none bad_disk)
        (filesystem "router.toml")
      × (out.0 ≡ []))
main-err_example =
    main-err port_5761 sample_of is_toml as_is join with_port
      (record { config = "router.toml"; config_dir = none })
      (record { hangup = true; terminate = true }) bad_disk signals (filesystem "router.toml")

spawn_all-ids_example :
    (endpoints_of (spawn_all with_port sample).tasks ≡ (spawn_all with_port sample).endpoint_stats)
    × Distinct (ids (spawn_all with_port sample).endpoint_stats)
spawn_all-ids_example = spawn_all-ids with_port sample

initial_table-groups_example :
    Reach (initial_table sample)
    × ((any_in_same_group (initial_table sample).config (1 ∷ []) 0 ≡ true) ↔ (
        (name : String) × (group_at 0 sample.endpoint 0 ≡ some name)
        × (group_at 0 sample.endpoint 1 ≡ some name)))
initial_table-groups_example = initial_table-groups sample 0 1

spawn_all-ChoosesBaud_example : All ChoosesBaud (spawn_all with_port sample).tasks
spawn_all-ChoosesBaud_example = spawn_all-ChoosesBaud port_5761 with_port sample (
    load_merged-IsValid port_5761 sample_of contents no_entries is_toml as_is join
      (some "router.toml") none sample loaded)

abbrev router : Router
router = record { orchestrated = spawn_all with_port sample; is_cancelled = false }

started :
    from_file port_5761 sample_of contents no_entries is_toml as_is join with_port "router.toml"
    ≡ ok router
unfolding from_file HighLevel.start has_endpoints Loading.load parse validate validate_endpoints
    validate_endpoint check_rates check_msg_ids check_general insert contains
started = refl

from_file-IsStarted_example :
    ((config : Config) × (Loading.load port_5761 sample_of contents no_entries is_toml as_is join
          "router.toml"
        ≡ ok config)
      × IsValid port_5761 config
      × (router.orchestrated ≡ spawn_all with_port config))
    × IsStarted router
    × (is_running (stop in_a_second router).0 ≡ false)
    × ((task : NamedTask)
        → IsTask task (stop in_a_second router).1
          ↔ (IsTask task router.orchestrated.tasks × OutlastsFive in_a_second task))
from_file-IsStarted_example =
    from_file-IsStarted port_5761 sample_of contents no_entries is_toml as_is join with_port
      "router.toml" router in_a_second started
