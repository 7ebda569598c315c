-- ===== src/Backoff/Doubling.antt =====
-- The delays in closed form, for a multiplier that doubles whole seconds.
use native.Mathlib.Nat.{two-pow-succ}
use mavrouter.Prelude.{ℕ, suc, min, refl, ap, List, [], arith, ◌*◌, ◌^◌, ◌≤◌, ◌≡◌, ◌∙◌, ◌∷◌, nat_eq}
use mavrouter.Routing.Time.{Duration, from_secs}
use mavrouter.Backoff.{ExponentialBackoff, new, next_backoff, reset, Event, retry, lasted, delays}

-- The `n`-th delay since the last reset: one second doubled `n` times, up to the longest.
abbrev pub nth_delay : ℕ → ℕ → Duration
nth_delay longest n = from_secs (min longest (2 ^ n))

-- The delays of a history of which the last `n` events were retries.
unfoldable pub expected : ℕ → ℕ → List Event → List Duration
expected longest n [] = []
expected longest n (retry ∷ events) = nth_delay longest n ∷ expected longest (suc n) events
expected longest n (lasted ∷ events) = expected longest 0 events

two_power : (n : ℕ) → 2 ^ suc n ≡ 2 * 2 ^ n
two_power n = two-pow-succ n ∙ omega arith

module _ {Multiplier : Type 0} (scale : Duration → Multiplier → Duration) where
  -- The multiplier doubles each whole number of seconds up to a minute.
  abbrev pub IsDoubling : Multiplier → Type 0
  IsDoubling two = (k : ℕ) → k ≤ 60 → scale (from_secs k) two ≡ from_secs (2 * k)

  delays-nth :
      (events : List Event) (two : Multiplier) (longest n : ℕ) (b : ExponentialBackoff Multiplier)
      → IsDoubling two
      → 1 ≤ longest
      → longest ≤ 60
      → b.shortest ≡ from_secs 1
      → b.longest ≡ from_secs longest
      → b.multiplier ≡ two
      → b.current ≡ nth_delay longest n
      → delays scale b events ≡ expected longest n events
  unfolding delays expected next_backoff reset
  delays-nth [] two longest n b doubles low high s l m c = refl
  delays-nth (retry ∷ events) two longest n b doubles low high s l m c =
      let small : min longest (2 ^ n) ≤ 60 = omega (arith, high) in
      let scaled : scale b.current b.multiplier ≡ from_secs (2 * min longest (2 ^ n)) =
        ap (λ d. scale d b.multiplier) c
        ∙ ap (λ k. scale (nth_delay longest n) k) m
        ∙ doubles (min longest (2 ^ n)) small in
      let grown : min b.longest (scale b.current b.multiplier) ≡ nth_delay longest (suc n) =
        omega (arith, l, scaled, two_power n) in
      ap (λ d. d ∷ delays scale (next_backoff scale b).0 events) c
      ∙ ap (λ ds. nth_delay longest n ∷ ds)
          (delays-nth events two longest (suc n) (next_backoff scale b).0 doubles low high s l m
            grown)
  delays-nth (lasted ∷ events) two longest n b doubles low high s l m c =
      delays-nth events two longest 0 (reset b) doubles low high s l m (omega (arith, s, low))

  -- With a multiplier that doubles, a backoff from one second to at most a minute waits one second
  -- after a reset, and then twice as long each time, up to the longest delay.
  pub delays-expected :
      (longest : ℕ) (two : Multiplier) (events : List Event)
      → IsDoubling two
      → 1 ≤ longest
      → longest ≤ 60
      → delays scale (new (from_secs 1) (from_secs longest) two) events ≡ expected longest 0 events
  unfolding new
  delays-expected longest two events doubles low high =
      delays-nth events two longest 0 (new (from_secs 1) (from_secs longest) two) doubles low high
        refl refl refl (omega (arith, low))
