-- ===== src/Relay/Broadcast.antt =====
-- What the endpoints rely on of the bus's receivers, as documented for the channel: each receiver
-- gets every message sent since it subscribed, in their order, but where it has fallen too far
-- behind it is told how many of the oldest it has missed.
use mavrouter.Prelude.{ℕ, Bool, List, [], length, ◌<◌, ◌≡◌, ◌≢◌, ◌∷◌, ◌++◌, nat_eq}
use mavrouter.Endpoint.{RoutedMessage}
use mavrouter.Endpoint.Bus.{IsBus}
use mavrouter.Relay.{Delivery, got, missed, nothing}

pub record IsBroadcast {Bus : Type 0} (send : Bus → RoutedMessage → Bus × Bool)
    (recv : Bus → ℕ → Bus × Delivery) : Type 0 where
  pub bus : IsBus send
  -- The messages that a receiver has not been given yet, newest first.
  pub pending : Bus → ℕ → List RoutedMessage
  pub appends :
      (b : Bus) (m : RoutedMessage) (i : ℕ)
      → 0 < bus.receivers b
      → pending (send b m).0 i ≡ m ∷ pending b i
  pub gives :
      (b : Bus) (i : ℕ) (m : RoutedMessage)
      → (recv b i).1 ≡ got m
      → pending b i ≡ pending (recv b i).0 i ++ (m ∷ [])
  pub skips :
      (b : Bus) (i n : ℕ)
      → (recv b i).1 ≡ missed n
      → (skipped : List RoutedMessage) × (pending b i ≡ pending (recv b i).0 i ++ skipped)
        × (length skipped ≡ n)
  pub waits :
      (b : Bus) (i : ℕ)
      → (recv b i).1 ≡ nothing
      → (pending b i ≡ []) × (pending (recv b i).0 i ≡ [])
  pub others : (b : Bus) (i k : ℕ) → k ≢ i → pending (recv b i).0 k ≡ pending b k
  pub logs : (b : Bus) (i : ℕ) → bus.sent (recv b i).0 ≡ bus.sent b
  pub listens : (b : Bus) (i : ℕ) → bus.receivers (recv b i).0 ≡ bus.receivers b
