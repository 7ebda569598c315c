-- ===== src/Dedup/Wheel.antt =====
-- The time wheel keeps the window: bucket `i` holds the recent hashes whose stamp is `i` modulo
-- the number of buckets.
use native.Mathlib.Nat.{mod-lt, mod-add-mod, mod-eq_of_lt, mod-eq-sub-mod}
use mavrouter.Prelude.{
  ℕ, suc, sym, inl, inr, Bool, true, false, List, [], arith, ltb, nat_beq_iff, ltb→lt, Bool-cases,
  usize_max, length, All, Indexed, ◌+◌, ◌-◌, ◌%◌, ◌≤◌, ◌<◌, ◌≡◌, ◌∙◌, ◌≢◌, ◌&&◌, ◌||◌, ◌∷◌, ◌==◌,
  nat_eq,
}
use mavrouter.Prelude.Sets.{contains}
use mavrouter.Dedup.{Dedup, any_bucket}
use mavrouter.Dedup.Window.{Window, recent}

-- A recent stamp of the hash stands in residue `i`.
unfoldable pub live : ℕ → ℕ → ℕ → ℕ → List (ℕ × ℕ) → Bool
live span tick hash i [] = false
live span tick hash i ((g, stamp) ∷ log) =
    (g == hash && ltb tick (stamp + span) && (stamp % span == i)) || live span tick hash i log

abbrev pub Stamped : ℕ → List (ℕ × ℕ) → Type 0
Stamped tick = All (λ x. x.1 ≤ tick)

pub Stamped-turn : (tick : ℕ) (log : List (ℕ × ℕ)) → Stamped tick log → Stamped (tick + 1) log
Stamped-turn tick [] p = tt
Stamped-turn tick (x ∷ log) p = (omega arith, Stamped-turn tick log p.1)

-- What the wheel knows of one hash.
pub record Tracks (hash : ℕ) (d : Dedup) (w : Window) : Type 0 where
  pub active : 0 < d.dedup_period
  pub wide : 2 ≤ w.span
  pub narrow : w.span ≤ usize_max
  pub size : d.num_buckets ≡ w.span
  pub buckets_size : length d.buckets ≡ w.span
  pub current : d.current_bucket ≡ w.tick % w.span
  pub past : Stamped w.tick w.log
  pub holds : Indexed (λ i b. contains b hash ≡ live w.span w.tick hash i w.log) 0 d.buckets

residue-lt : (s n : ℕ) → 0 < n → s % n < n
residue-lt s n h = mod-lt s h

-- Stamps less than a turn apart have different residues.
pub residues_differ : (s d n : ℕ) → 0 < d → d < n → s % n ≢ (s + d) % n
residues_differ s d n p q e =
    let r = s % n in
    let small : r < n = mod-lt s (omega arith) in
    let step : (r + d) % n ≡ (s + d) % n = mod-add-mod s n d in
    elim (Bool-cases (ltb (r + d) n)) [
      | inl fits ↦
          let same : (r + d) % n ≡ r + d = mod-eq_of_lt (ltb→lt (r + d) n fits) in
          absurd (omega arith)
      | inr wraps ↦
          let over : n ≤ r + d = ground arith in
          let same : (r + d) % n ≡ r + d - n = mod-eq-sub-mod over ∙ mod-eq_of_lt (omega arith) in
          absurd (omega arith)
    ]

recent→live :
    (span tick hash : ℕ) (log : List (ℕ × ℕ))
    → recent span tick hash log ≡ true
    → (s : ℕ) × (live span tick hash (s % span) log ≡ true)
unfolding recent live
recent→live span tick hash [] h = absurd (ground arith)
recent→live span tick hash ((g, s) ∷ log) h = elim (Bool-cases (g == hash && ltb tick (s + span))) [
  | inl hit ↦ (s, ground arith)
  | inr miss ↦ let (r, k) = recent→live span tick hash log (ground arith) in (r, ground arith)
]

live→recent :
    (span tick hash i : ℕ) (log : List (ℕ × ℕ))
    → live span tick hash i log ≡ true
    → recent span tick hash log ≡ true
unfolding recent live
live→recent span tick hash i [] h = absurd (ground arith)
live→recent span tick hash i ((g, s) ∷ log) h = ground (arith, live→recent span tick hash i log)

any_bucket→ :
    (span tick hash k : ℕ) (log : List (ℕ × ℕ)) (bs : List (List ℕ))
    → Indexed (λ i b. contains b hash ≡ live span tick hash i log) k bs
    → any_bucket bs hash ≡ true
    → recent span tick hash log ≡ true
unfolding any_bucket
any_bucket→ span tick hash k log [] v h = absurd (ground arith)
any_bucket→ span tick hash k log (b ∷ bs) v h = elim (Bool-cases (contains b hash)) [
  | inl hit ↦ live→recent span tick hash k log (sym v.0 ∙ hit)
  | inr miss ↦ any_bucket→ span tick hash (suc k) log bs v.1 (ground arith)
]

→any_bucket :
    (span tick hash k i : ℕ) (log : List (ℕ × ℕ)) (bs : List (List ℕ))
    → Indexed (λ i b. contains b hash ≡ live span tick hash i log) k bs
    → k ≤ i
    → i < k + length bs
    → live span tick hash i log ≡ true
    → any_bucket bs hash ≡ true
unfolding any_bucket
→any_bucket span tick hash k i log [] v p q h = absurd (omega arith)
→any_bucket span tick hash k i log (b ∷ bs) v p q h = elim (Bool-cases (k == i)) [
  | inl hit ↦
      let e : k ≡ i = (nat_beq_iff k i).0 hit in
      let here : live span tick hash k log ≡ true = rw e h in ground (arith, v.0, here)
  | inr miss ↦
      ground (arith, →any_bucket span tick hash (suc k) i log bs v.1 (ground arith) (omega arith) h)
]

-- The wheel flags a hash exactly when it is recent.
pub any_bucket-recent :
    (hash : ℕ) (d : Dedup) (w : Window)
    → Tracks hash d w
    → any_bucket d.buckets hash ≡ recent w.span w.tick hash w.log
any_bucket-recent hash d w t = elim (Bool-cases (recent w.span w.tick hash w.log)) [
  | inl yes_recent ↦
      let (s, k) = recent→live w.span w.tick hash w.log yes_recent in
      let low : s % w.span < w.span = mod-lt s (omega (arith, t.wide)) in
      →any_bucket w.span w.tick hash 0 (s % w.span) w.log d.buckets t.holds (omega arith)
        (omega (arith, t.buckets_size)) k
      ∙ sym yes_recent
  | inr not_recent ↦ elim (Bool-cases (any_bucket d.buckets hash)) [
    | inl flagged ↦ flagged ∙ sym (any_bucket→ w.span w.tick hash 0 w.log d.buckets t.holds flagged)
    | inr quiet ↦ quiet ∙ sym not_recent
  ]
]
