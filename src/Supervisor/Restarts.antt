-- ===== src/Supervisor/Restarts.antt =====
-- When the task is started again.
use mavrouter.Prelude.{
  suc, refl, ap, inl, inr, List, [], arith, ltb, Bool-cases, length, All, ◌≡◌, ◌∙◌, ◌∷◌,
  if◌then◌else◌, nat_eq,
}
use mavrouter.Routing.Time.{Duration, from_secs}
use mavrouter.Backoff
use mavrouter.Backoff.{ExponentialBackoff, next_backoff, reset, Event, retry, lasted, delays}
use mavrouter.Backoff.Doubling.{IsDoubling, expected, delays-expected}
use mavrouter.Supervisor.{
  slept, cancelled_waiting, Round, cancelled, ran, running, supervise_loop, supervise,
}

-- What each round means for the backoff: a run of more than a minute resets it.
abbrev pub history : List Round → List Event
history [] = []
history (cancelled ∷ rounds) = []
history (ran elapsed result slept ∷ rounds) =
    if ltb (from_secs 60) elapsed then lasted ∷ retry ∷ history rounds else retry ∷ history rounds
history (ran elapsed result cancelled_waiting ∷ rounds) =
    if ltb (from_secs 60) elapsed then lasted ∷ retry ∷ [] else retry ∷ []

abbrev pub IsUncancelled : Round → Type 0
IsUncancelled cancelled = ⊥
IsUncancelled (ran elapsed result slept) = Unit
IsUncancelled (ran elapsed result cancelled_waiting) = ⊥

module _ {Multiplier : Type 0} (scale : Duration → Multiplier → Duration) (two : Multiplier) where
  supervise_loop-delays :
      (rounds : List Round) (b : ExponentialBackoff Multiplier)
      → (supervise_loop scale two b rounds).0 ≡ delays scale b (history rounds)
  unfolding supervise_loop delays
  supervise_loop-delays [] b = refl
  supervise_loop-delays (cancelled ∷ rounds) b = refl
  supervise_loop-delays (ran elapsed result slept ∷ rounds) b =
      elim (Bool-cases (ltb (from_secs 60) elapsed)) [
        | inl long ↦ rw long (
            ap (λ ds. (next_backoff scale (reset b)).1 ∷ ds)
              (supervise_loop-delays rounds (next_backoff scale (reset b)).0))
        | inr short ↦ rw short (
            ap (λ ds. (next_backoff scale b).1 ∷ ds)
              (supervise_loop-delays rounds (next_backoff scale b).0))
      ]
  supervise_loop-delays (ran elapsed result cancelled_waiting ∷ rounds) b =
      elim (Bool-cases (ltb (from_secs 60) elapsed)) [
        | inl long ↦ rw long refl
        | inr short ↦ rw short refl
      ]

  -- If the multiplier doubles whole seconds, the supervisor waits one second before the first
  -- restart and after a run of more than a minute, and twice as long after each further run, up to
  -- thirty seconds, whatever the results of the runs.
  pub supervise-expected :
      (rounds : List Round)
      → IsDoubling scale two
      → (supervise scale two rounds).0 ≡ expected 30 0 (history rounds)
  unfolding supervise
  supervise-expected rounds doubles =
      supervise_loop-delays rounds (Backoff.new (from_secs 1) (from_secs 30) two)
      ∙ delays-expected scale 30 two (history rounds) doubles (omega arith) (omega arith)

  loop-restarts :
      (rounds : List Round) (b : ExponentialBackoff Multiplier)
      → All IsUncancelled rounds
      → ((supervise_loop scale two b rounds).1 ≡ running)
        × (length (supervise_loop scale two b rounds).0 ≡ length rounds)
  unfolding supervise_loop
  loop-restarts [] b on = (refl, refl)
  loop-restarts (cancelled ∷ rounds) b on = absurd on.0
  loop-restarts (ran elapsed result slept ∷ rounds) b on =
      let rested = if ltb (from_secs 60) elapsed then reset b else b in
      let (runs, count) = loop-restarts rounds (next_backoff scale rested).0 on.1 in
      (runs, ap suc count)
  loop-restarts (ran elapsed result cancelled_waiting ∷ rounds) b on = absurd on.0

  -- Until it is cancelled, the supervisor never gives up: after every run, failed or not, it waits
  -- once and goes on.
  supervise-restarts :
      (rounds : List Round)
      → All IsUncancelled rounds
      → ((supervise scale two rounds).1 ≡ running)
        × (length (supervise scale two rounds).0 ≡ length rounds)
  unfolding supervise
  supervise-restarts rounds on = loop-restarts rounds _ on
