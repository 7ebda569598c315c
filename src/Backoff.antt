-- ===== src/Backoff.antt =====
-- src/endpoint_core/backoff.rs: the delays between restarts. The product of a duration and the
-- floating-point multiplier is a parameter.
pub mod Doubling
use mavrouter.Prelude.{min, List, [], arith, All, ◌≤◌, ◌∷◌, nat_eq}
use mavrouter.Routing.Time.{Duration}

pub record ExponentialBackoff (Multiplier : Type 0) : Type 0 where
  pub current : Duration
  pub shortest : Duration
  pub longest : Duration
  pub multiplier : Multiplier

unfoldable pub new :
    {Multiplier : Type 0} → Duration → Duration → Multiplier → ExponentialBackoff Multiplier
new shortest longest multiplier = record {
  current = shortest;
  shortest = shortest;
  longest = longest;
  multiplier = multiplier;
}

unfoldable pub reset :
    {Multiplier : Type 0} → ExponentialBackoff Multiplier → ExponentialBackoff Multiplier
reset b = record b { current = b.shortest }

-- A retry, or a run that lasted.
pub data Event : Type 0 where
  retry : Event
  lasted : Event

module _ {Multiplier : Type 0} (scale : Duration → Multiplier → Duration) where
  -- The state for the next call, and the delay to wait now.
  unfoldable pub next_backoff :
      ExponentialBackoff Multiplier → ExponentialBackoff Multiplier × Duration
  next_backoff b = (record b { current = min b.longest (scale b.current b.multiplier) }, b.current)

  -- The delays waited over a history of retries and resets.
  unfoldable pub delays : ExponentialBackoff Multiplier → List Event → List Duration
  delays b [] = []
  delays b (retry ∷ events) = (next_backoff b).1 ∷ delays (next_backoff b).0 events
  delays b (lasted ∷ events) = delays (reset b) events

  bounded :
      (events : List Event) (b : ExponentialBackoff Multiplier)
      → ((d : Duration) → b.shortest ≤ d → b.shortest ≤ scale d b.multiplier)
      → b.shortest ≤ b.longest
      → b.shortest ≤ b.current
      → b.current ≤ b.longest
      → All (λ d. (b.shortest ≤ d) × (d ≤ b.longest)) (delays b events)
  unfolding delays next_backoff reset
  bounded [] b grows order low high = tt
  bounded (retry ∷ events) b grows order low high = (
    (low, high),
    bounded events (next_backoff b).0 grows order (ground (arith, grows b.current low))
        (ground arith),
  )
  bounded (lasted ∷ events) b grows order low high =
      bounded events (reset b) grows order (omega arith) order

  -- If scaling keeps a delay at least as long as the shortest one, then over any history of
  -- retries and resets every delay waited lies between the shortest and the longest.
  delays-bounded :
      (shortest longest : Duration) (multiplier : Multiplier) (events : List Event)
      → ((d : Duration) → shortest ≤ d → shortest ≤ scale d multiplier)
      → shortest ≤ longest
      → All (λ d. (shortest ≤ d) × (d ≤ longest)) (delays (new shortest longest multiplier) events)
  unfolding new
  delays-bounded shortest longest multiplier events grows order =
      bounded events (new shortest longest multiplier) grows order (omega arith) order
