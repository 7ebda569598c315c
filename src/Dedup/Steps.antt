-- ===== src/Dedup/Steps.antt =====
-- How the wheel follows the window: a new wheel, an insertion, a rotation.
use mathlib.Core.Path.{ap₂}
use native.Mathlib.Nat.{mod-lt, mod-add-mod, mod-eq_of_lt, mod-eq-sub-mod}
use mavrouter.Prelude.{
  ℕ, zero, suc, refl, sym, ap, subst, inl, inr, true, false, List, [], arith, ltb, nat_beq,
  nat_beq_iff, Bool-cases, modify, replicate, length-modify, length-replicate, Indexed, ◌+◌, ◌-◌,
  ◌%◌, ◌^◌, ◌≤◌, ◌<◌, ◌≡◌, ◌∙◌, ◌≢◌, ◌&&◌, ◌∷◌, ◌==◌, if◌then◌else◌, nat_eq,
}
use mavrouter.Prelude.Sets.{contains, insert, contains-insert}
use mavrouter.Routing.Time.{Duration}
use mavrouter.Dedup.{Dedup, new, bucket_count, insert_current, rotate_bucket, is_zero}
use mavrouter.Dedup.Window.{Window, empty_window, turn}
use mavrouter.Dedup.Wheel.{Tracks, live, Stamped, Stamped-turn, residues_differ}

insert-live :
    (span tick hash g i : ℕ) (log : List (ℕ × ℕ))
    → 0 < span
    → live span tick hash i ((g, tick) ∷ log)
      ≡ (if g == hash && tick % span == i then true else live span tick hash i log)
unfolding live
insert-live span tick hash g i log h = ground arith

module _ (span tick hash g : ℕ) (log : List (ℕ × ℕ)) (wide : 0 < span) where
  insert-holds :
      (k i : ℕ) (bs : List (List ℕ))
      → k + i ≡ tick % span
      → Indexed (λ j b. contains b hash ≡ live span tick hash j log) k bs
      → Indexed
          (λ j b. contains b hash ≡ live span tick hash j ((g, tick) ∷ log))
          k
          (modify bs i (λ b. (insert b g).0))
  insert-holds k i [] e v = tt
  insert-holds k zero (b ∷ bs) e v = (
    ground (arith, contains-insert b g hash, insert-live span tick hash g k log wide),
    later (suc k) bs (omega arith) v.1,
  )
    where
      later :
          (j : ℕ) (cs : List (List ℕ))
          → tick % span < j
          → Indexed (λ j b. contains b hash ≡ live span tick hash j log) j cs
          → Indexed (λ j b. contains b hash ≡ live span tick hash j ((g, tick) ∷ log)) j cs
      later j [] lt u = tt
      later j (c ∷ cs) lt u = (
        ground (arith, insert-live span tick hash g j log wide),
        later (suc j) cs (omega arith) u.1,
      )
  insert-holds k (suc i) (b ∷ bs) e v = (
    ground (arith, insert-live span tick hash g k log wide),
    insert-holds (suc k) i bs (omega arith) v.1,
  )

-- A logged hash keeps the wheel in step.
pub insert_current-Tracks :
    (hash g : ℕ) (d : Dedup) (w : Window)
    → Tracks hash d w
    → Tracks hash (insert_current d g) (record w { log = (g, w.tick) ∷ w.log })
unfolding insert_current
insert_current-Tracks hash g d w t = record {
  active = t.active;
  wide = t.wide;
  narrow = t.narrow;
  size = t.size;
  buckets_size = length-modify d.buckets _ _ ∙ t.buckets_size;
  current = t.current;
  past = (omega arith, t.past);
  holds =
      insert-holds w.span w.tick hash g w.log (omega (arith, t.wide)) 0 d.current_bucket d.buckets
        (omega (arith, t.current)) t.holds;
}

-- A log entry of another hash does not concern the wheel.
pub other-Tracks :
    (hash g stamp : ℕ) (d : Dedup) (w : Window)
    → (g == hash) ≡ false
    → stamp ≤ w.tick
    → Tracks hash d w
    → Tracks hash d (record w { log = (g, stamp) ∷ w.log })
unfolding live
other-Tracks hash g stamp d w other p t = record {
  active = t.active;
  wide = t.wide;
  narrow = t.narrow;
  size = t.size;
  buckets_size = t.buckets_size;
  current = t.current;
  past = (p, t.past);
  holds = rw other t.holds;
}

-- One turn: the residue of the new tick is empty, every other residue keeps its hashes.
turn-live_next :
    (span tick hash : ℕ) (log : List (ℕ × ℕ))
    → Stamped tick log
    → live span (tick + 1) hash ((tick + 1) % span) log ≡ false
unfolding live
turn-live_next span tick hash [] p = refl
turn-live_next span tick hash ((g, s) ∷ log) p = elim (Bool-cases (ltb (tick + 1) (s + span))) [
  | inl young ↦
      let e : s + (tick + 1 - s) ≡ tick + 1 = omega arith in
      let differ : s % span ≢ (tick + 1) % span =
        rw e at (residues_differ s (tick + 1 - s) span (omega arith) (ground arith)) in
      ground (arith, turn-live_next span tick hash log p.1)
  | inr old ↦ ground (arith, turn-live_next span tick hash log p.1)
]

turn-live_other :
    (span tick hash i : ℕ) (log : List (ℕ × ℕ))
    → 0 < span
    → i ≢ (tick + 1) % span
    → live span (tick + 1) hash i log ≡ live span tick hash i log
unfolding live
turn-live_other span tick hash i [] pos h = refl
turn-live_other span tick hash i ((g, s) ∷ log) pos h =
    elim (Bool-cases (nat_beq (s + span) (tick + 1))) [
      | inl leaving ↦
          let e : s + span ≡ tick + 1 = (nat_beq_iff (s + span) (tick + 1)).0 leaving in
          let below : s + span - span ≡ s = omega arith in
          let over : span ≤ s + span = omega arith in
          let back : (s + span) % span ≡ s % span =
            mod-eq-sub-mod over ∙ ap (λ x. x % span) below in
          let next : s % span ≡ (tick + 1) % span = sym back ∙ ap (λ x. x % span) e in
          let apart : i ≢ s % span = λ q. h (q ∙ next) in
          ground (arith, turn-live_other span tick hash i log pos h)
      | inr stays ↦ ground (arith, turn-live_other span tick hash i log pos h)
    ]

turn-holds :
    (span tick hash k i : ℕ) (log : List (ℕ × ℕ)) (bs : List (List ℕ))
    → 0 < span
    → Stamped tick log
    → k + i ≡ (tick + 1) % span
    → Indexed (λ j b. contains b hash ≡ live span tick hash j log) k bs
    → Indexed (λ j b. contains b hash ≡ live span (tick + 1) hash j log) k (modify bs i (λ b. []))
unfolding contains
turn-holds span tick hash k i log [] pos p e v = tt
turn-holds span tick hash k zero log (b ∷ bs) pos p e v =
    let at : k ≡ (tick + 1) % span = omega arith in
    (
      subst (λ j. false ≡ live span (tick + 1) hash j log) (sym at)
          (sym (turn-live_next span tick hash log p)),
      later (suc k) bs (omega arith) v.1,
    )
  where
    later :
        (j : ℕ) (cs : List (List ℕ))
        → (tick + 1) % span < j
        → Indexed (λ j b. contains b hash ≡ live span tick hash j log) j cs
        → Indexed (λ j b. contains b hash ≡ live span (tick + 1) hash j log) j cs
    later j [] lt u = tt
    later j (c ∷ cs) lt u = (
      u.0 ∙ sym (turn-live_other span tick hash j log pos (omega arith)),
      later (suc j) cs (omega arith) u.1,
    )
turn-holds span tick hash k (suc i) log (b ∷ bs) pos p e v = (
  v.0 ∙ sym (turn-live_other span tick hash k log pos (omega arith)),
  turn-holds span tick hash (suc k) i log bs pos p (omega arith) v.1,
)

-- A rotation is one turn of the window.
pub rotate_bucket-Tracks :
    (hash : ℕ) (d : Dedup) (w : Window) → Tracks hash d w → Tracks hash (rotate_bucket d) (turn w)
unfolding rotate_bucket turn
rotate_bucket-Tracks hash d w t =
    let on : is_zero d.dedup_period ≡ false = ground (arith, t.active) in
    let pos : 0 < w.span = omega (arith, t.wide) in
    let low : w.tick % w.span < w.span = mod-lt w.tick pos in
    let plain : (d.current_bucket + 1) % 2 ^ 64 ≡ w.tick % w.span + 1 =
      omega (arith, t.current, t.narrow, low) in
    let next : (d.current_bucket + 1) % 2 ^ 64 % d.num_buckets ≡ (w.tick + 1) % w.span =
      ap₂ ◌%◌ plain t.size ∙ mod-add-mod w.tick w.span 1 in
    rw on (record {
      active = t.active;
      wide = t.wide;
      narrow = t.narrow;
      size = t.size;
      buckets_size = length-modify d.buckets _ _ ∙ t.buckets_size;
      current = next;
      past = Stamped-turn w.tick w.log t.past;
      holds =
          turn-holds w.span w.tick hash 0 _ w.log d.buckets pos t.past (omega (arith, next))
            t.holds;
    })

replicate-holds :
    (span tick hash k n : ℕ)
    → Indexed (λ i b. contains b hash ≡ live span tick hash i []) k (replicate n [])
unfolding contains live
replicate-holds span tick hash k zero = tt
replicate-holds span tick hash k (suc n) = (refl, replicate-holds span tick hash (suc k) n)

-- A new wheel of a period that is not zero holds the empty window over its buckets.
pub new-Tracks :
    (hash : ℕ) (period : Duration)
    → 0 < period
    → Tracks hash (new period) (empty_window (bucket_count period))
unfolding new bucket_count
new-Tracks hash period h =
    let on : is_zero period ≡ false = ground arith in
    let positive : 0 < bucket_count period = ground arith in
    rw on (record {
      active = h;
      wide = ground arith;
      narrow = ground arith;
      size = refl;
      buckets_size = length-replicate _ _;
      current = sym (mod-eq_of_lt positive);
      past = tt;
      holds = replicate-holds _ 0 hash 0 _;
    })
