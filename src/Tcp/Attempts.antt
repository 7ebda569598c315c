-- ===== src/Tcp/Attempts.antt =====
-- The delays of the client.
use mavrouter.Prelude.{refl, ap, List, [], arith, ◌≡◌, ◌∙◌, ◌∷◌, nat_eq}
use mavrouter.Routing.Time.{Duration, from_secs}
use mavrouter.Backoff
use mavrouter.Backoff.{ExponentialBackoff, next_backoff, reset, Event, retry, lasted, delays}
use mavrouter.Backoff.Doubling.{IsDoubling, expected, delays-expected}
use mavrouter.Tcp.{
  slept, cancelled_waiting, Attempt, cancelled, connected, refused, connect_loop, connect,
}

-- A connection resets the backoff.
abbrev pub history : List Attempt → List Event
history [] = []
history (cancelled ∷ attempts) = []
history (connected result slept ∷ attempts) = lasted ∷ retry ∷ history attempts
history (connected result cancelled_waiting ∷ attempts) = lasted ∷ retry ∷ []
history (refused slept ∷ attempts) = retry ∷ history attempts
history (refused cancelled_waiting ∷ attempts) = retry ∷ []

module _ {Multiplier : Type 0} (scale : Duration → Multiplier → Duration) (two : Multiplier) where
  connect_loop-delays :
      (attempts : List Attempt) (b : ExponentialBackoff Multiplier)
      → connect_loop scale two b attempts ≡ delays scale b (history attempts)
  unfolding connect_loop delays
  connect_loop-delays [] b = refl
  connect_loop-delays (cancelled ∷ attempts) b = refl
  connect_loop-delays (connected result slept ∷ attempts) b =
      ap (λ ds. (next_backoff scale (reset b)).1 ∷ ds)
        (connect_loop-delays attempts (next_backoff scale (reset b)).0)
  connect_loop-delays (connected result cancelled_waiting ∷ attempts) b = refl
  connect_loop-delays (refused slept ∷ attempts) b =
      ap (λ ds. (next_backoff scale b).1 ∷ ds)
        (connect_loop-delays attempts (next_backoff scale b).0)
  connect_loop-delays (refused cancelled_waiting ∷ attempts) b = refl

  -- If the multiplier doubles whole seconds, the client waits one second after its first failure
  -- and after each lost connection, and twice as long after each further failure, up to a minute.
  pub connect-expected :
      (attempts : List Attempt)
      → IsDoubling scale two
      → connect scale two attempts ≡ expected 60 0 (history attempts)
  unfolding connect
  connect-expected attempts doubles =
      connect_loop-delays attempts (Backoff.new (from_secs 1) (from_secs 60) two)
      ∙ delays-expected scale 60 two (history attempts) doubles (omega arith) (omega arith)
