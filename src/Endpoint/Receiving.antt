-- ===== src/Endpoint/Receiving.antt =====
-- src/endpoint_core.rs, `recv_next_bus_msg`: the next message of the bus for an endpoint that may
-- lag behind it. What the receiver of the channel gives, until it is closed, is a list.
use mavrouter.Prelude.{
  ℕ, sym, ap, Option, none, some, List, [], map, arith, ◌+◌, ◌%◌, ◌^◌, ◌<◌, ◌≡◌, ◌∙◌, ◌∷◌, ◌++◌,
  nat_eq,
}
use mavrouter.Endpoint.{RoutedMessage, EndpointStats, fetch_add}

pub data Received : Type 0 where
  message : RoutedMessage → Received
  lagged : ℕ → Received

-- The message, the counters, and what the receiver has left; `none` when the bus is closed.
unfoldable pub recv_next_bus_msg :
    EndpointStats → List Received → Option RoutedMessage × EndpointStats × List Received
recv_next_bus_msg stats [] = (none, stats, [])
recv_next_bus_msg stats (message m ∷ bus_rx) = (some m, stats, bus_rx)
recv_next_bus_msg stats (lagged n ∷ bus_rx) =
    recv_next_bus_msg (record stats { bus_lagged = fetch_add stats.bus_lagged n }) bus_rx

abbrev pub total : List ℕ → ℕ
total [] = 0
total (n ∷ lags) = n + total lags

-- The counters after the lags.
abbrev pub after_lags : EndpointStats → List ℕ → EndpointStats
after_lags stats lags = record stats { bus_lagged = (stats.bus_lagged + total lags) % 2 ^ 64 }

after_lags-none : (stats : EndpointStats) → stats.bus_lagged < 2 ^ 64 → after_lags stats [] ≡ stats
after_lags-none stats h =
    let same : (stats.bus_lagged + 0) % 2 ^ 64 ≡ stats.bus_lagged = omega (arith, h) in
    ap (λ n. record stats { bus_lagged = n }) same

after_lags-more :
    (stats : EndpointStats) (n : ℕ) (lags : List ℕ)
    → after_lags (record stats { bus_lagged = fetch_add stats.bus_lagged n }) lags
      ≡ after_lags stats (n ∷ lags)
after_lags-more stats n lags =
    let same : ((stats.bus_lagged + n) % 2 ^ 64 + total lags) % 2 ^ 64
        ≡ (stats.bus_lagged + (n + total lags)) % 2 ^ 64 =
      omega arith in
    ap (λ k. record stats { bus_lagged = k }) same

-- However often the receiver reports that it lagged, a call gives the next message of the bus, or
-- nothing if the bus is closed, leaves what comes after, and adds all the messages that were
-- missed to the counter, as a 64-bit number that wraps.
recv_next_bus_msg-lags :
    (lags : List ℕ) (m : RoutedMessage) (bus_rx : List Received) (stats : EndpointStats)
    → stats.bus_lagged < 2 ^ 64
    → (recv_next_bus_msg stats (map lagged lags ++ (message m ∷ bus_rx))
        ≡ (some m, after_lags stats lags, bus_rx))
      × (recv_next_bus_msg stats (map lagged lags) ≡ (none, after_lags stats lags, []))
unfolding recv_next_bus_msg
recv_next_bus_msg-lags [] m bus_rx stats h = (
  ap (λ s. (some m, s, bus_rx)) (sym (after_lags-none stats h)),
  ap (λ s. (none, s, [])) (sym (after_lags-none stats h)),
)
recv_next_bus_msg-lags (n ∷ lags) m bus_rx stats h =
    let more : EndpointStats = record stats { bus_lagged = fetch_add stats.bus_lagged n } in
    let (next, closed) = recv_next_bus_msg-lags lags m bus_rx more (omega arith) in
    let same = after_lags-more stats n lags in
    (next ∙ ap (λ s. (some m, s, bus_rx)) same, closed ∙ ap (λ s. (none, s, [])) same)
