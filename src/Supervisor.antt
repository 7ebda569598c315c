-- ===== src/Supervisor.antt =====
-- src/orchestration/supervisor.rs: a task that is started again whenever it ends. The task, the clock
-- and the cancellation are the rounds of a list; the product of a delay with the multiplier is a
-- parameter.
pub mod Restarts
use mavrouter.Prelude.{List, [], ltb, ◌∷◌, if◌then◌else◌, nat_eq}
use mavrouter.Routing.Time.{Duration, from_secs}
use mavrouter.Config.{Result}
use mavrouter.Backoff
use mavrouter.Backoff.{ExponentialBackoff, next_backoff, reset}

-- The second `select!`: the sleep ends, or the cancellation comes first.
pub data Wait : Type 0 where
  slept : Wait
  cancelled_waiting : Wait

-- The first `select!`: the cancellation, or the task with the time that it ran and its result.
pub data Round : Type 0 where
  cancelled : Round
  ran : (elapsed : Duration) (result : Result (Unit {0})) (wait : Wait) → Round

pub data Status : Type 0 where
  running : Status
  shut_down : Status

module _ {Multiplier : Type 0} (scale : Duration → Multiplier → Duration) (two : Multiplier) where
  -- The delays that are waited for, and whether the supervisor has ended.
  unfoldable pub supervise_loop :
      ExponentialBackoff Multiplier → List Round → List Duration × Status
  supervise_loop backoff [] = ([], running)
  supervise_loop backoff (cancelled ∷ rounds) = ([], shut_down)
  supervise_loop backoff (ran elapsed result slept ∷ rounds) =
      let rested = if ltb (from_secs 60) elapsed then reset backoff else backoff in
      let next = next_backoff scale rested in
      let rest = supervise_loop next.0 rounds in (next.1 ∷ rest.0, rest.1)
  supervise_loop backoff (ran elapsed result cancelled_waiting ∷ rounds) =
      let rested = if ltb (from_secs 60) elapsed then reset backoff else backoff in
      ((next_backoff scale rested).1 ∷ [], shut_down)

  unfoldable pub supervise : List Round → List Duration × Status
  supervise rounds = supervise_loop (Backoff.new (from_secs 1) (from_secs 30) two) rounds
