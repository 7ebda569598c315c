-- ===== src/Endpoint/Bus.antt =====
-- What the endpoints rely on of the bus, a `tokio::sync::broadcast` channel: a send fails only
-- when there is no receiver, and a message that is taken is the newest.
use mavrouter.Prelude.{ℕ, Bool, true, false, List, ◌<◌, ◌≡◌, ◌∷◌, nat_eq}
use mavrouter.Endpoint.{RoutedMessage}

pub record IsBus {Bus : Type 0} (send : Bus → RoutedMessage → Bus × Bool) : Type 0 where
  pub sent : Bus → List RoutedMessage
  pub receivers : Bus → ℕ
  pub delivers :
      (b : Bus) (m : RoutedMessage)
      → 0 < receivers b
      → ((send b m).1 ≡ true) × (sent (send b m).0 ≡ m ∷ sent b)
  pub refuses :
      (b : Bus) (m : RoutedMessage)
      → receivers b ≡ 0
      → ((send b m).1 ≡ false) × (sent (send b m).0 ≡ sent b)
  pub keeps : (b : Bus) (m : RoutedMessage) → receivers (send b m).0 ≡ receivers b
