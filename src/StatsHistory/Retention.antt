-- ===== src/StatsHistory/Retention.antt =====
-- What the history keeps.
use mavrouter.Prelude.{
  ℕ, refl, sym, ap, inl, inr, true, false, List, [], arith, ltb, leb, Bool-cases, All, ◌-◌, ◌≤◌,
  ◌≡◌, ◌∷◌, ◌++◌, if◌then◌else◌, nat_eq,
}
use mavrouter.Routing.Table.{RoutingStats}
use mavrouter.StatsHistory.{StatsHistory, push, drop_before}

-- The samples stand in the order of time, none later than the last.
abbrev pub IsOrdered : List RoutingStats → ℕ → Type 0
IsOrdered [] last = Unit
IsOrdered (s ∷ samples) last =
    (s.timestamp ≤ last) × All (λ r. s.timestamp ≤ r.timestamp) samples × IsOrdered samples last

-- The samples that are not older than the cutoff.
unfoldable pub recent : ℕ → List RoutingStats → List RoutingStats
recent cutoff [] = []
recent cutoff (s ∷ samples) =
    if leb cutoff s.timestamp then s ∷ recent cutoff samples else recent cutoff samples

recent-All :
    (cutoff : ℕ) (samples : List RoutingStats)
    → All (λ r. cutoff ≤ r.timestamp) samples
    → recent cutoff samples ≡ samples
unfolding recent
recent-All cutoff [] h = refl
recent-All cutoff (s ∷ samples) h = rw (le→leb h.0) (ap (◌∷◌ s) (recent-All cutoff samples h.1))
  where
    le→leb : {a b : ℕ} → a ≤ b → leb a b ≡ true
    le→leb k = ground arith

All-weaken :
    (a b : ℕ) (samples : List RoutingStats)
    → a ≤ b
    → All (λ r. b ≤ r.timestamp) samples
    → All (λ r. a ≤ r.timestamp) samples
All-weaken a b [] h k = tt
All-weaken a b (s ∷ samples) h k = (omega (arith, k.0), All-weaken a b samples h k.1)

pub drop_before-recent :
    (cutoff last : ℕ) (samples : List RoutingStats)
    → IsOrdered samples last
    → drop_before cutoff samples ≡ recent cutoff samples
unfolding drop_before recent
drop_before-recent cutoff last [] h = refl
drop_before-recent cutoff last (s ∷ samples) (early, later, rest) =
    elim (Bool-cases (ltb s.timestamp cutoff)) [
      | inl old ↦
          let dropped : leb cutoff s.timestamp ≡ false = ground arith in
          rw (old, dropped) (drop_before-recent cutoff last samples rest)
      | inr young ↦
          let kept : leb cutoff s.timestamp ≡ true = ground arith in
          rw (young, kept)
            (ap (◌∷◌ s) (
              sym (
                recent-All cutoff samples
                  (All-weaken cutoff s.timestamp samples (ground arith) later))))
    ]

All-append :
    (a : ℕ) (samples : List RoutingStats) (new : RoutingStats)
    → All (λ r. a ≤ r.timestamp) samples
    → a ≤ new.timestamp
    → All (λ r. a ≤ r.timestamp) (samples ++ (new ∷ []))
All-append a [] new h k = (k, tt)
All-append a (s ∷ samples) new h k = (h.0, All-append a samples new h.1 k)

pub IsOrdered-append :
    (samples : List RoutingStats) (new : RoutingStats)
    → IsOrdered samples new.timestamp
    → IsOrdered (samples ++ (new ∷ [])) new.timestamp
IsOrdered-append [] new h = (omega arith, tt, tt)
IsOrdered-append (s ∷ samples) new (early, later, rest) =
    (early, All-append s.timestamp samples new later early, IsOrdered-append samples new rest)

-- While the samples come in the order of time, a push adds the new sample at the end and keeps
-- exactly the samples that are not more than the retention time older than it.
pub push-recent :
    (history : StatsHistory) (stats : RoutingStats)
    → IsOrdered history.samples stats.timestamp
    → (push history stats).samples
      ≡ recent (stats.timestamp - history.max_age_secs) (history.samples ++ (stats ∷ []))
unfolding push
push-recent history stats h =
    drop_before-recent (stats.timestamp - history.max_age_secs) stats.timestamp _
      (IsOrdered-append history.samples stats h)
