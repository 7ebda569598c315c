-- ===== src/Dedup/Replies.antt =====
-- A run of the sharded deduplicator: frames and rotations in any order, and the replies.
use mavrouter.Prelude.{ℕ, refl, Bool, true, false, List, [], arith, All, ◌<◌, ◌≡◌, ◌∷◌, nat_eq}
use mathlib.Core.Path.{ap₂}
use mavrouter.Routing.Time.{Duration}
use mavrouter.Dedup.{
  ConcurrentDedup, new_concurrent, bucket_count, is_zero, check_and_insert_concurrent,
  rotate_buckets,
}
use mavrouter.Dedup.Window.{Window, empty_window, accept, turn}
use mavrouter.Dedup.Sharded.{Follows, check-Follows, rotate_buckets-Follows, new_concurrent-Follows}

-- What reaches the deduplicator: the bytes of a frame, or a tick of the rotation task.
pub data Event : Type 0 where
  frame : List ℕ → Event
  rotate : Event

module _ (ahash_hash : List ℕ → ℕ) where
  -- The replies to the frames, in order.
  unfoldable pub replies : ConcurrentDedup → List Event → List Bool
  replies c [] = []
  replies c (frame payload ∷ events) =
      let reply = check_and_insert_concurrent ahash_hash c payload in
      reply.1 ∷ replies reply.0 events
  replies c (rotate ∷ events) = replies (rotate_buckets c) events

  -- The replies of the window to the hashes of the frames.
  unfoldable pub window_replies : Window → List Event → List Bool
  window_replies w [] = []
  window_replies w (frame payload ∷ events) =
      let reply = accept w (ahash_hash payload) in reply.1 ∷ window_replies reply.0 events
  window_replies w (rotate ∷ events) = window_replies (turn w) events

  replies-Follows :
      (events : List Event) (c : ConcurrentDedup) (w : Window)
      → Follows c w
      → replies c events ≡ window_replies w events
  unfolding replies window_replies
  replies-Follows [] c w f = refl
  replies-Follows (frame payload ∷ events) c w f =
      let step = check-Follows ahash_hash c w payload f in
      ap₂ ◌∷◌ step.0 (replies-Follows events _ _ step.1)
  replies-Follows (rotate ∷ events) c w f =
      replies-Follows events _ _ (rotate_buckets-Follows c w f)

  -- With a period above zero, whatever frames and rotations reach new shards in whatever order,
  -- the replies are those of one sliding window over all hashes, whose span is the number of
  -- buckets: a frame is a duplicate exactly if a frame of the same hash was accepted fewer than
  -- that many rotations ago.
  pub replies-window :
      (period : Duration) (events : List Event)
      → 0 < period
      → replies (new_concurrent period) events
        ≡ window_replies (empty_window (bucket_count period)) events
  replies-window period events h = replies-Follows events _ _ (new_concurrent-Follows period h)

  -- A zero period switches the deduplicator off: no frame is ever called a duplicate.
  pub replies-off :
      (c : ConcurrentDedup) (events : List Event)
      → c.dedup_period ≡ 0
      → All (λ reply. reply ≡ false) (replies c events)
  unfolding replies check_and_insert_concurrent rotate_buckets
  replies-off c [] h = tt
  replies-off c (frame payload ∷ events) h =
      let off : is_zero c.dedup_period ≡ true = ground (arith, h) in
      rw off (refl, replies-off c events h)
  replies-off c (rotate ∷ events) h =
      let off : is_zero c.dedup_period ≡ true = ground (arith, h) in rw off (replies-off c events h)
