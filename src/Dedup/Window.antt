-- ===== src/Dedup/Window.antt =====
-- The promise of the deduplicator: a sliding window over a log of stamped hashes.
use mavrouter.Prelude.{
  ℕ, Bool, true, false, List, [], ltb, ◌+◌, ◌&&◌, ◌||◌, ◌∷◌, ◌==◌, if◌then◌else◌, nat_eq,
}

-- `tick` counts the rotations, `log` holds each accepted hash with the tick at which it came.
pub record Window : Type 0 where
  pub span : ℕ
  pub tick : ℕ
  pub log : List (ℕ × ℕ)

abbrev pub empty_window : ℕ → Window
empty_window span = record { span = span; tick = 0; log = [] }

-- The hash was accepted fewer than `span` rotations ago.
unfoldable pub recent : ℕ → ℕ → ℕ → List (ℕ × ℕ) → Bool
recent span tick hash [] = false
recent span tick hash ((g, stamp) ∷ log) =
    (g == hash && ltb tick (stamp + span)) || recent span tick hash log

-- A hash is a duplicate if it is recent; otherwise it is logged.
unfoldable pub accept : Window → ℕ → Window × Bool
unfolding recent
accept w hash =
    if recent w.span w.tick hash w.log
    then (w, true)
    else (record w { log = (hash, w.tick) ∷ w.log }, false)

unfoldable pub turn : Window → Window
turn w = record w { tick = w.tick + 1 }
