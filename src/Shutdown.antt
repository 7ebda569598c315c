-- ===== src/Shutdown.antt =====
-- src/orchestration/shutdown.rs: the time that tasks get to end. When each task ends is a parameter.
use mavrouter.Prelude.{
  Bool, true, false, Option, none, some, List, [], leb, length, ◌∷◌, ◌==◌, if◌then◌else◌, nat_eq,
}
use mavrouter.Routing.Time.{Duration}
use mavrouter.Orchestration.{NamedTask}

-- Whether a task has ended when the time is over: `ends` says after which time it ends, if it does.
unfoldable pub is_finished : (NamedTask → Option Duration) → Duration → NamedTask → Bool
is_finished ends timeout_dur task = elim (ends task) [
  | none ↦ false
  | some time ↦ leb time timeout_dur
]

unfoldable pub remaining :
    (NamedTask → Option Duration) → Duration → List NamedTask → List NamedTask
remaining ends timeout_dur [] = []
remaining ends timeout_dur (task ∷ tasks) =
    let rest = remaining ends timeout_dur tasks in
    if is_finished ends timeout_dur task then rest else task ∷ rest

-- The tasks that are aborted, and whether all have ended by themselves.
unfoldable pub shutdown_with_timeout :
    (NamedTask → Option Duration) → List NamedTask → Duration → List NamedTask × Bool
shutdown_with_timeout ends [] timeout_dur = ([], true)
shutdown_with_timeout ends (task ∷ tasks) timeout_dur =
    let left = remaining ends timeout_dur (task ∷ tasks) in
    if length left == 0 then ([], true) else (left, false)
