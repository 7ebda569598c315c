-- ===== src/Routing/Time.antt =====
-- `std::time`: an `Instant` and a `Duration` are numbers of nanoseconds. `duration_since` is the
-- truncated subtraction, since the library's saturates to zero.
use mavrouter.Prelude.{ℕ, ◌-◌, ◌*◌, ◌/◌}

abbrev pub Instant : Type 0
Instant = ℕ

abbrev pub Duration : Type 0
Duration = ℕ

abbrev pub from_secs : ℕ → Duration
from_secs n = n * 1_000_000_000

abbrev pub as_secs : Duration → ℕ
as_secs d = d / 1_000_000_000

abbrev pub from_millis : ℕ → Duration
from_millis n = n * 1_000_000

abbrev pub duration_since : Instant → Instant → Duration
duration_since now earlier = now - earlier
