-- ===== src/Dedup/Sharded.antt =====
-- Sixteen wheels, chosen by the low bits of the hash, answer as one window does.
use mavrouter.Prelude.{
  ℕ, zero, suc, refl, sym, ap, subst, inl, inr, true, false, List, [], arith, nat_beq, nat_beq_iff,
  Bool-cases, length, get_or, set, replicate, length-map, length-replicate, get_or-map, ◌%◌, ◌<◌,
  ◌≡◌, ◌∙◌, ◌≢◌, ◌∷◌, ◌==◌, nat_eq,
}
use native.Mathlib.Nat.{mod-lt}
use mavrouter.Prelude.Bits.{bit_and-fifteen}
use mavrouter.Routing.Time.{Duration}
use mavrouter.Dedup.{
  ConcurrentDedup, new, new_concurrent, bucket_count, insert_current, is_zero,
  check_and_insert_concurrent, rotate_bucket, rotate_buckets, num_shards,
}
use mavrouter.Dedup.Window.{Window, empty_window, recent, accept, turn}
use mavrouter.Dedup.Wheel.{Tracks, any_bucket-recent}
use mavrouter.Dedup.Steps.{insert_current-Tracks, other-Tracks, rotate_bucket-Tracks, new-Tracks}

-- The shard of each hash follows the window.
pub record Follows (c : ConcurrentDedup) (w : Window) : Type 0 where
  pub on : 0 < c.dedup_period
  pub sixteen : length c.shards ≡ num_shards
  pub each : (hash : ℕ) → Tracks hash (get_or c.shards (hash % 16) (new 0)) w

get_or-set_self {ℓ} :
    {A : Type ℓ} (xs : List A) (i : ℕ) (v d : A) → i < length xs → get_or (set xs i v) i d ≡ v
get_or-set_self [] i v d h = elim h [ ]
get_or-set_self (x ∷ xs) zero v d h = refl
get_or-set_self (x ∷ xs) (suc i) v d h = get_or-set_self xs i v d (omega arith)

get_or-set_ne {ℓ} :
    {A : Type ℓ} (xs : List A) (i j : ℕ) (v d : A) → i ≢ j → get_or (set xs i v) j d ≡ get_or xs j d
get_or-set_ne [] i j v d h = refl
get_or-set_ne (x ∷ xs) zero zero v d h = absurd (h refl)
get_or-set_ne (x ∷ xs) zero (suc j) v d h = refl
get_or-set_ne (x ∷ xs) (suc i) zero v d h = refl
get_or-set_ne (x ∷ xs) (suc i) (suc j) v d h = get_or-set_ne xs i j v d (λ e. h (ap suc e))

get_or-replicate_lt {ℓ} : {A : Type ℓ} (n i : ℕ) (a d : A) → i < n → get_or (replicate n a) i d ≡ a
get_or-replicate_lt zero i a d h = elim h [ ]
get_or-replicate_lt (suc n) zero a d h = refl
get_or-replicate_lt (suc n) (suc i) a d h = get_or-replicate_lt n i a d (omega arith)

length-set {ℓ} : {A : Type ℓ} (xs : List A) (i : ℕ) (v : A) → length (set xs i v) ≡ length xs
length-set [] i v = refl
length-set (x ∷ xs) zero v = refl
length-set (x ∷ xs) (suc i) v = ap suc (length-set xs i v)

set_same {ℓ} : {A : Type ℓ} (xs : List A) (i : ℕ) (d : A) → set xs i (get_or xs i d) ≡ xs
set_same [] i d = refl
set_same (x ∷ xs) zero d = refl
set_same (x ∷ xs) (suc i) d = ap (◌∷◌ x) (set_same xs i d)

-- A hash logged in its own shard: that shard takes it, the others do not hold it.
set-Follows :
    (c : ConcurrentDedup) (w : Window) (hash : ℕ)
    → Follows c w
    → let shard = get_or c.shards (hash % 16) (new 0) in
      Follows
        (record c { shards = set c.shards (hash % 16) (insert_current shard hash) })
        (record w { log = (hash, w.tick) ∷ w.log })
set-Follows c w hash f =
    let shard = get_or c.shards (hash % 16) (new 0) in
    let taken = insert_current shard hash in
    record {
      on = f.on;
      sixteen = length-set c.shards _ _ ∙ f.sixteen;
      each = λ h. elim (Bool-cases (nat_beq (hash % 16) (h % 16))) [
        | inl same ↦
            let e : hash % 16 ≡ h % 16 = (nat_beq_iff _ _).0 same in
            let long : hash % 16 < length c.shards = omega (arith, f.sixteen) in
            let held : Tracks h shard w =
              subst (λ i. Tracks h (get_or c.shards i (new 0)) w) (sym e) (f.each h) in
            subst (λ d. Tracks h d (record w { log = (hash, w.tick) ∷ w.log }))
              (sym (get_or-set_self c.shards (hash % 16) taken (new 0) long)
                ∙ ap (λ i. get_or (set c.shards (hash % 16) taken) i (new 0)) e)
              (insert_current-Tracks h hash shard w held)
        | inr differ ↦
            let ne : hash % 16 ≢ h % 16 = ground (arith, nat_beq_iff (hash % 16) (h % 16)) in
            let other : (hash == h) ≡ false = other_hash hash h ne in
            subst (λ d. Tracks h d (record w { log = (hash, w.tick) ∷ w.log }))
              (sym (get_or-set_ne c.shards (hash % 16) (h % 16) taken (new 0) ne))
              (other-Tracks h hash w.tick _ w other (omega arith) (f.each h))
      ];
    }
  where
    other_hash : (g h : ℕ) → g % 16 ≢ h % 16 → (g == h) ≡ false
    other_hash g h ne = elim (Bool-cases (nat_beq g h)) [
      | inl same ↦ absurd (ne (ap (λ x. x % 16) ((nat_beq_iff g h).0 same)))
      | inr differ ↦ differ
    ]

-- A rotation of every shard is one turn.
pub rotate_buckets-Follows :
    (c : ConcurrentDedup) (w : Window) → Follows c w → Follows (rotate_buckets c) (turn w)
unfolding rotate_buckets
rotate_buckets-Follows c w f =
    let on : is_zero c.dedup_period ≡ false = ground (arith, f.on) in
    rw on (record {
      on = f.on;
      sixteen = length-map c.shards rotate_bucket ∙ f.sixteen;
      each = λ h.
          subst (λ d. Tracks h d (turn w))
            (sym (
              get_or-map c.shards (h % 16) rotate_bucket (new 0)
                (subst (λ n. h % 16 < n) (sym f.sixteen) (mod-lt h (omega arith)))))
            (rotate_bucket-Tracks h _ w (f.each h));
    })

-- The new shards follow the empty window.
pub new_concurrent-Follows :
    (period : Duration)
    → 0 < period
    → Follows (new_concurrent period) (empty_window (bucket_count period))
unfolding new_concurrent
new_concurrent-Follows period h = record {
  on = h;
  sixteen = length-replicate num_shards (new period);
  each = λ hash.
      subst (λ d. Tracks hash d (empty_window (bucket_count period)))
        (sym (
          get_or-replicate_lt num_shards (hash % 16) (new period) (new 0)
            (mod-lt hash (omega arith))))
        (new-Tracks hash period h);
}

module _ (ahash_hash : List ℕ → ℕ) where
  -- What a call does when its hash is held, and when it is not.
  check_held :
      (c : ConcurrentDedup) (w : Window) (payload : List ℕ)
      → Follows c w
      → recent w.span w.tick (ahash_hash payload) w.log ≡ true
      → check_and_insert_concurrent ahash_hash c payload ≡ (c, true)
  unfolding check_and_insert_concurrent
  check_held c w payload f e =
      let hash = ahash_hash payload in
      let shard = get_or c.shards (hash % 16) (new 0) in
      let on : is_zero c.dedup_period ≡ false = ground (arith, f.on) in
      let shard_on : is_zero shard.dedup_period ≡ false = ground (arith, (f.each hash).active) in
      rw (on, bit_and-fifteen hash, shard_on, any_bucket-recent hash shard w (f.each hash), e)
        (ap (λ xs. (record c { shards = xs }, true)) (set_same c.shards (hash % 16) (new 0)))

  check_fresh :
      (c : ConcurrentDedup) (w : Window) (payload : List ℕ)
      → Follows c w
      → recent w.span w.tick (ahash_hash payload) w.log ≡ false
      → let hash = ahash_hash payload in
        check_and_insert_concurrent ahash_hash c payload ≡ (
          record c {
            shards =
                set c.shards
                  (hash % 16)
                  (insert_current (get_or c.shards (hash % 16) (new 0)) hash);
          },
          false,
        )
  unfolding check_and_insert_concurrent insert_current
  check_fresh c w payload f e =
      let hash = ahash_hash payload in
      let shard = get_or c.shards (hash % 16) (new 0) in
      let on : is_zero c.dedup_period ≡ false = ground (arith, f.on) in
      let shard_on : is_zero shard.dedup_period ≡ false = ground (arith, (f.each hash).active) in
      rw (on, bit_and-fifteen hash, shard_on, any_bucket-recent hash shard w (f.each hash), e) refl

  -- A frame's reply is the window's, and the wheels follow the window on.
  pub check-Follows :
      (c : ConcurrentDedup) (w : Window) (payload : List ℕ)
      → Follows c w
      → ((check_and_insert_concurrent ahash_hash c payload).1 ≡ (accept w (ahash_hash payload)).1)
        × Follows
            (check_and_insert_concurrent ahash_hash c payload).0
            (accept w (ahash_hash payload)).0
  unfolding accept
  check-Follows c w payload f =
      let hash = ahash_hash payload in
      elim (Bool-cases (recent w.span w.tick hash w.log)) [
        | inl e ↦ rw (check_held c w payload f e, e) (refl, f)
        | inr e ↦ rw (check_fresh c w payload f e, e) (refl, set-Follows c w hash f)
      ]
