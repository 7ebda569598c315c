-- ===== src/Dedup.antt =====
-- src/dedup.rs: the time wheel of hashed payloads, and the sixteen wheels behind their locks. A
-- lock makes each call one step; the hash of a payload (`ahash`) is a parameter.
pub mod Window
pub mod Wheel
pub mod Steps
pub mod Sharded
pub mod Replies
use mavrouter.Prelude.{
  ℕ, max, bit_and, Bool, true, false, List, [], map, leb, usize_max, get_or, set, modify, replicate,
  ◌+◌, ◌-◌, ◌/◌, ◌%◌, ◌^◌, ◌||◌, ◌∷◌, ◌==◌, if◌then◌else◌, nat_eq,
}
use mavrouter.Prelude.Sets.{contains, insert}
use mavrouter.Routing.Time.{Duration, from_millis}

pub record Dedup : Type 0 where
  pub dedup_period : Duration
  pub buckets : List (List ℕ)
  pub current_bucket : ℕ
  pub bucket_interval : Duration
  pub num_buckets : ℕ

abbrev pub is_zero : Duration → Bool
is_zero d = d == 0

abbrev pub as_millis : Duration → ℕ
as_millis d = d / 1_000_000

-- `usize::try_from(n).unwrap_or(usize::MAX)`
abbrev pub to_usize : ℕ → ℕ
to_usize n = if leb n usize_max then n else usize_max

-- The number of buckets for a period that is not zero.
unfoldable pub bucket_count : Duration → ℕ
bucket_count period = max (to_usize (as_millis period / as_millis (from_millis 100))) 2

unfoldable pub new : Duration → Dedup
unfolding bucket_count
new period =
    if is_zero period
    then record {
      dedup_period = period;
      buckets = [];
      current_bucket = 0;
      bucket_interval = 0;
      num_buckets = 0;
    }
    else record {
      dedup_period = period;
      buckets = replicate (bucket_count period) [];
      current_bucket = 0;
      bucket_interval = from_millis 100;
      num_buckets = bucket_count period;
    }

-- `buckets.iter().any(|b| b.contains(&hash))`
unfoldable pub any_bucket : List (List ℕ) → ℕ → Bool
any_bucket [] hash = false
any_bucket (b ∷ bs) hash = contains b hash || any_bucket bs hash

-- The hash added to the current bucket, if there is one.
unfoldable pub insert_current : Dedup → ℕ → Dedup
insert_current d hash = record d {
  buckets = modify d.buckets d.current_bucket (λ b. (insert b hash).0);
}

unfoldable pub check_and_insert_with_hash : Dedup → ℕ → Dedup × Bool
unfolding any_bucket insert_current
check_and_insert_with_hash d hash =
    if is_zero d.dedup_period
    then (d, false)
    else if any_bucket d.buckets hash
    then (d, true)
    else (insert_current d hash, false)

-- `wrapping_add` on a 64-bit `usize`.
abbrev pub wrapping_add : ℕ → ℕ → ℕ
wrapping_add a b = (a + b) % 2 ^ 64

unfoldable pub rotate_bucket : Dedup → Dedup
rotate_bucket d =
    if is_zero d.dedup_period
    then d
    else let next = wrapping_add d.current_bucket 1 % d.num_buckets in
      record d { buckets = modify d.buckets next (λ b. []); current_bucket = next }

abbrev pub num_shards : ℕ
num_shards = 16

pub record ConcurrentDedup : Type 0 where
  pub shards : List Dedup
  pub dedup_period : Duration
  pub bucket_interval : Duration

unfoldable pub new_concurrent : Duration → ConcurrentDedup
unfolding new
new_concurrent period = record {
  shards = replicate num_shards (new period);
  dedup_period = period;
  bucket_interval = if is_zero period then 0 else from_millis 100;
}

unfoldable pub rotate_buckets : ConcurrentDedup → ConcurrentDedup
unfolding rotate_bucket
rotate_buckets c =
    if is_zero c.dedup_period then c else record c { shards = map rotate_bucket c.shards }

module _ (ahash_hash : List ℕ → ℕ) where
  unfoldable pub is_duplicate : Dedup → List ℕ → Bool
  unfolding any_bucket
  is_duplicate d payload =
      if is_zero d.dedup_period then false else any_bucket d.buckets (ahash_hash payload)

  unfoldable pub insert_payload : Dedup → List ℕ → Dedup
  unfolding insert_current
  insert_payload d payload =
      if is_zero d.dedup_period then d else insert_current d (ahash_hash payload)

  unfoldable pub check_and_insert : Dedup → List ℕ → Dedup × Bool
  unfolding any_bucket insert_current
  check_and_insert d payload =
      if is_zero d.dedup_period
      then (d, false)
      else let hash = ahash_hash payload in
        if any_bucket d.buckets hash then (d, true) else (insert_current d hash, false)

  -- The shard of a hash, its reply, and the shards with it replaced.
  unfoldable pub check_and_insert_concurrent : ConcurrentDedup → List ℕ → ConcurrentDedup × Bool
  unfolding check_and_insert_with_hash new
  check_and_insert_concurrent c payload =
      if is_zero c.dedup_period
      then (c, false)
      else let hash = ahash_hash payload in
        let shard_idx = bit_and hash (num_shards - 1) in
        let reply = check_and_insert_with_hash (get_or c.shards shard_idx (new 0)) hash in
        (record c { shards = set c.shards shard_idx reply.0 }, reply.1)
