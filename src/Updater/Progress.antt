-- ===== src/Updater/Progress.antt =====
-- The queue is emptied.
use mathlib.Core.List.{append-nil}
use mavrouter.Prelude.{
  ℕ, zero, suc, refl, sym, ap, min, List, [], arith, length, All, ◌+◌, ◌-◌, ◌≤◌, ◌≡◌, ◌∙◌, ◌∷◌,
  ◌++◌, nat_eq,
}
use mavrouter.Routing.Time.{Duration}
use mavrouter.Routing.Table.{RoutingTable, RouteUpdate, prune}
use mavrouter.Routing.Reach.{IsBytes, Reach}
use mavrouter.Routing.View.{view}
use mavrouter.Updater.{
  Wake, cancelled, received, tick, drain, apply_batch, run_updater, route_update_batch_size,
}
use mavrouter.Updater.Order.{Action, act, updates, prune_times, ticks, run_updater-InOrder}

-- How many updates the wake-ups find, and have room for in a batch: the first, and those that have
-- arrived by then.
abbrev pub capacity : List Wake → ℕ
capacity [] = 0
capacity (cancelled ∷ wakes) = 0
capacity (received available clock ∷ wakes) =
    min route_update_batch_size (suc available) + capacity wakes
capacity (tick now ∷ wakes) = capacity wakes

length-drain :
    (room available : ℕ) (update_rx : List RouteUpdate)
    → length (drain room available update_rx).1 ≡ length update_rx - min room available
unfolding drain
length-drain zero available update_rx = omega arith
length-drain (suc room) zero update_rx = omega arith
length-drain (suc room) (suc available) [] = omega arith
length-drain (suc room) (suc available) (u ∷ update_rx) =
    omega (arith, length-drain room available update_rx)

-- What is left of the queue.
run_updater-left :
    (prune_ttl : Duration) (wakes : List Wake) (t : RoutingTable) (update_rx : List RouteUpdate)
    → length (run_updater prune_ttl wakes t update_rx).1 ≡ length update_rx - capacity wakes
unfolding run_updater
run_updater-left prune_ttl [] t rx = omega arith
run_updater-left prune_ttl (cancelled ∷ wakes) t rx = omega arith
run_updater-left prune_ttl (received available clock ∷ wakes) t [] = omega arith
run_updater-left prune_ttl (received available clock ∷ wakes) t (first ∷ rx) =
    let drained = drain (route_update_batch_size - 1) available rx in
    omega (
      arith,
      length-drain (route_update_batch_size - 1) available rx,
      run_updater-left prune_ttl wakes (apply_batch clock t (first ∷ drained.0)) drained.1,
    )
run_updater-left prune_ttl (tick now ∷ wakes) t rx =
    run_updater-left prune_ttl wakes (prune t prune_ttl now) rx

empty : (update_rx : List RouteUpdate) → length update_rx ≡ 0 → update_rx ≡ []
empty [] h = refl
empty (u ∷ update_rx) h = absurd (omega (arith, h))

-- From a reachable table and updates with byte-sized ids, the task makes exactly the progress that
-- its batches allow: each wake-up before a cancellation takes the update that woke it and those
-- that have arrived by then, 256 at most together. As soon as that is enough for all updates of
-- the queue, the queue is empty, the table is reachable, and its plain maps are those after every
-- single update of the queue, in its order, with a prune at each tick that was served between them.
pub run_updater-empties :
    (prune_ttl : Duration) (wakes : List Wake) (t : RoutingTable) (update_rx : List RouteUpdate)
    → Reach t
    → All IsBytes update_rx
    → let out = run_updater prune_ttl wakes t update_rx in
      (length out.1 ≡ length update_rx - capacity wakes)
      × (length update_rx ≤ capacity wakes
          → (out.1 ≡ [])
            × Reach out.0
            × ((actions : List Action) × (served : List Wake) × (unserved : List Wake) × (view out.0
                  ≡ act prune_ttl (view t) actions)
                × (updates actions ≡ update_rx)
                × (served ++ unserved ≡ wakes)
                × (prune_times actions ≡ ticks served)))
run_updater-empties prune_ttl wakes t rx r bytes =
    let left = run_updater-left prune_ttl wakes t rx in
    let (reached, (actions, served, unserved, maps, queue, split, times, ends)) =
      run_updater-InOrder prune_ttl wakes t rx r bytes in
    (
      left,
      λ enough.
          let none_left =
            empty (run_updater prune_ttl wakes t rx).1 (omega (arith, left, enough)) in
          (
            none_left,
            reached,
            (
              actions,
              served,
              unserved,
              maps,
              sym (append-nil (updates actions))
                  ∙ ap (λ us. updates actions ++ us) (sym none_left)
                  ∙ queue,
              split,
              times,
            ),
          ),
    )
