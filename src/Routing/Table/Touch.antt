-- ===== src/Routing/Table/Touch.antt =====
-- The entry that `update` writes: what the map holds afterwards, and what the flag says.
use mavrouter.Prelude.{
  ℕ, refl, inl, inr, not, Option, none, some, [], arith, one_if, Bool-cases, All, Eq, ◌+◌, ◌≡◌,
  ◌&&◌, ◌||◌, ◌∷◌, ◌==◌, if◌then◌else◌, nat_eq,
}
use mavrouter.Prelude.Sets.{contains, insert, insert-Distinct, contains-insert}
use mavrouter.Prelude.Maps.{lookup, DistinctKeys}
use mavrouter.Routing.Time.{Instant}
use mavrouter.Routing.Shard.{RouteEntry, Entries}
use mavrouter.Routing.Shard.Presence.{presence, Clean}
use mavrouter.Routing.Table.{touch, entry_has}

-- The entry under the key afterwards.
unfoldable pub touched : Option RouteEntry → ℕ → Instant → RouteEntry
touched none ep now = record { endpoints = ep ∷ []; last_seen = now }
touched (some e) ep now = record { endpoints = (insert e.endpoints ep).0; last_seen = now }

pub touched-has :
    (o : Option RouteEntry) (ep x : ℕ) (now : Instant)
    → contains (touched o ep now).endpoints x ≡ (ep == x || entry_has o x)
unfolding touched entry_has contains
touched-has none ep x now = ground arith
touched-has (some e) ep x now = contains-insert e.endpoints ep x

pub touched-last_seen :
    (o : Option RouteEntry) (ep : ℕ) (now : Instant) → (touched o ep now).last_seen ≡ now
unfolding touched
touched-last_seen none ep now = refl
touched-last_seen (some e) ep now = refl

module _ {K : Type 0} ⦃e : Eq K⦄ (k : K) (ep : ℕ) (now : Instant) where
  pub lookup-touch :
      (j : K) (m : Entries K)
      → lookup j (touch k ep now m).0
        ≡ (if k == j then some (touched (lookup k m) ep now) else lookup j m)
  unfolding touch lookup touched
  lookup-touch j [] = refl
  lookup-touch j ((i, x) ∷ m) =
      ground (arith, e.beq_iff k j, e.beq_iff i k, e.beq_iff i j, lookup-touch j m)

  pub touch_fresh : (m : Entries K) → (touch k ep now m).1 ≡ not (entry_has (lookup k m) ep)
  unfolding touch lookup entry_has insert
  touch_fresh [] = refl
  touch_fresh ((i, x) ∷ m) = ground (arith, touch_fresh m)

  pub touch-DistinctKeys : (m : Entries K) → DistinctKeys m → DistinctKeys (touch k ep now m).0
  unfolding touch lookup
  touch-DistinctKeys [] d = (refl, tt)
  touch-DistinctKeys ((i, x) ∷ m) d =
      ground (arith, e.beq_iff i k, e.beq_iff k i, lookup-touch i m, touch-DistinctKeys m d.1)

  pub touch-Clean : (m : Entries K) → Clean m → Clean (touch k ep now m).0
  unfolding touch contains
  touch-Clean [] c = ((refl, tt), tt)
  touch-Clean ((i, x) ∷ m) c = ground (arith, insert-Distinct x.endpoints ep c.0, touch-Clean m c.1)

  pub touch-keys :
      (P : K → Type 0) (m : Entries K)
      → P k
      → All (λ x. P x.0) m
      → All (λ x. P x.0) (touch k ep now m).0
  unfolding touch
  touch-keys P [] h all = (h, tt)
  touch-keys P ((i, x) ∷ m) h all = elim (Bool-cases (i == k)) [
    | inl hit ↦ rw hit all
    | inr miss ↦ rw miss (all.0, touch-keys P m h all.1)
  ]

  -- The flag says whether the endpoint gained an entry.
  pub presence-touch :
      (x : ℕ) (m : Entries K)
      → presence x (touch k ep now m).0 ≡ presence x m + one_if ((touch k ep now m).1 && ep == x)
  unfolding touch presence insert contains
  presence-touch x [] = ground arith
  presence-touch x ((i, y) ∷ m) = ground (arith, presence-touch x m)
