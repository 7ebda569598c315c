-- ===== src/Updater/Order.antt =====
-- Batches are invisible: the table is that of the updates one by one, in the order of the queue.
use mathlib.Core.List.{append_assoc}
use mavrouter.Prelude.{
  ℕ, zero, suc, refl, sym, ap, subst, List, [], All, ◌-◌, ◌≡◌, ◌∙◌, ◌∷◌, ◌++◌, nat_eq,
}
use mavrouter.Routing.Time.{Instant, Duration}
use mavrouter.Routing.Table.{RoutingTable, RouteUpdate, update, prune}
use mavrouter.Routing.Reach.{IsBytes, Reach, next, observes, prunes, Reach-IsValid}
use mavrouter.Routing.View.{View, view, observe, expire, view-update, view-prune}
use mavrouter.Updater.{
  Wake, cancelled, received, tick, drain, apply_batch, run_updater, route_update_batch_size,
}

-- What is done to the plain maps, one step at a time.
pub data Action : Type 0 where
  applied : RouteUpdate → Action
  pruned : Instant → Action

abbrev pub act : Duration → View → List Action → View
act prune_ttl v [] = v
act prune_ttl v (applied u ∷ actions) = act prune_ttl (observe v u) actions
act prune_ttl v (pruned now ∷ actions) = act prune_ttl (expire v prune_ttl now) actions

-- The updates of a history, and the times of its prunes.
abbrev pub updates : List Action → List RouteUpdate
updates [] = []
updates (applied u ∷ actions) = u ∷ updates actions
updates (pruned now ∷ actions) = updates actions

abbrev pub prune_times : List Action → List Instant
prune_times [] = []
prune_times (applied u ∷ actions) = prune_times actions
prune_times (pruned now ∷ actions) = now ∷ prune_times actions

abbrev pub ticks : List Wake → List Instant
ticks [] = []
ticks (cancelled ∷ wakes) = ticks wakes
ticks (received available clock ∷ wakes) = ticks wakes
ticks (tick now ∷ wakes) = now ∷ ticks wakes

-- The wake-ups that are not served: none, or those from a cancellation on, or those from the one on
-- that found the queue closed.
abbrev pub IsUnserved : List RouteUpdate → List Wake → Type 0
IsUnserved left [] = Unit
IsUnserved left (cancelled ∷ wakes) = Unit
IsUnserved left (received available clock ∷ wakes) = left ≡ []
IsUnserved left (tick now ∷ wakes) = ⊥

drain_split :
    (room available : ℕ) (update_rx : List RouteUpdate)
    → (drain room available update_rx).0 ++ (drain room available update_rx).1 ≡ update_rx
unfolding drain
drain_split zero available update_rx = refl
drain_split (suc room) zero update_rx = refl
drain_split (suc room) (suc available) [] = refl
drain_split (suc room) (suc available) (u ∷ update_rx) =
    ap (◌∷◌ u) (drain_split room available update_rx)

abbrev applied_all : List RouteUpdate → List Action → List Action
applied_all [] actions = actions
applied_all (u ∷ batch) actions = applied u ∷ applied_all batch actions

updates-applied_all :
    (batch : List RouteUpdate) (actions : List Action)
    → updates (applied_all batch actions) ≡ batch ++ updates actions
updates-applied_all [] actions = refl
updates-applied_all (u ∷ batch) actions = ap (◌∷◌ u) (updates-applied_all batch actions)

prune_times-applied_all :
    (batch : List RouteUpdate) (actions : List Action)
    → prune_times (applied_all batch actions) ≡ prune_times actions
prune_times-applied_all [] actions = refl
prune_times-applied_all (u ∷ batch) actions = prune_times-applied_all batch actions

All-append→ {ℓ κ} :
    {A : Type ℓ} (P : A → Type κ) (xs ys : List A) → All P (xs ++ ys) → All P xs × All P ys
All-append→ P [] ys h = (tt, h)
All-append→ P (x ∷ xs) ys h = let (first, later) = All-append→ P xs ys h.1 in ((h.0, first), later)

-- A batch on a reachable table is its updates on the plain maps, one by one.
batch-act :
    (clock : Instant) (prune_ttl : Duration) (batch : List RouteUpdate) (actions : List Action)
    (t : RoutingTable)
    → Reach t
    → All IsBytes batch
    → Reach (apply_batch clock t batch)
      × (act prune_ttl (view t) (applied_all batch actions)
          ≡ act prune_ttl (view (apply_batch clock t batch)) actions)
unfolding apply_batch
batch-act clock prune_ttl [] actions t r bytes = (r, refl)
batch-act clock prune_ttl (u ∷ batch) actions t r bytes =
    let after = update t u.endpoint_id u.sys_id u.comp_id u.now clock in
    let (reached, same) =
      batch-act clock prune_ttl batch actions after (next r (observes t u clock bytes.0)) bytes.1 in
    (
      reached,
      ap (λ v. act prune_ttl v (applied_all batch actions))
            (sym (view-update t u clock (Reach-IsValid r)))
          ∙ same,
    )

-- What a run of the updater has done, with the history that shows it.
abbrev pub InOrder :
    Duration
    → List Wake
    → RoutingTable
    → List RouteUpdate
    → RoutingTable × List RouteUpdate
    → Type 0
InOrder prune_ttl wakes t update_rx (after, left) =
    Reach after
    × ((actions : List Action) × (served : List Wake) × (unserved : List Wake) × (view after
          ≡ act prune_ttl (view t) actions)
        × (updates actions ++ left ≡ update_rx)
        × (served ++ unserved ≡ wakes)
        × (prune_times actions ≡ ticks served)
        × IsUnserved left unserved)

-- From a reachable table and updates with byte-sized ids, however the wake-ups fall and however the
-- updates are batched: the table stays reachable, its plain maps are those after the updates taken
-- from the queue, one by one and in the order of the queue, with a prune at each tick that was
-- served; what is left of the queue is the rest of it; and only a cancellation or a closed queue
-- ends the task before the wake-ups do.
pub run_updater-InOrder :
    (prune_ttl : Duration) (wakes : List Wake) (t : RoutingTable) (update_rx : List RouteUpdate)
    → Reach t
    → All IsBytes update_rx
    → InOrder prune_ttl wakes t update_rx (run_updater prune_ttl wakes t update_rx)
unfolding run_updater
run_updater-InOrder prune_ttl [] t rx r bytes = (r, ([], [], [], refl, refl, refl, refl, tt))
run_updater-InOrder prune_ttl (cancelled ∷ wakes) t rx r bytes =
    (r, ([], [], cancelled ∷ wakes, refl, refl, refl, refl, tt))
run_updater-InOrder prune_ttl (received available clock ∷ wakes) t [] r bytes =
    (r, ([], [], received available clock ∷ wakes, refl, refl, refl, refl, refl))
run_updater-InOrder prune_ttl (received available clock ∷ wakes) t (first ∷ rx) r bytes =
    let drained = drain (route_update_batch_size - 1) available rx in
    let batch = first ∷ drained.0 in
    let split : drained.0 ++ drained.1 ≡ rx =
      drain_split (route_update_batch_size - 1) available rx in
    let (batch_bytes, left_bytes) =
      All-append→ IsBytes drained.0 drained.1 (subst (All IsBytes) (sym split) bytes.1) in
    let after = apply_batch clock t batch in
    let left = (run_updater prune_ttl wakes after drained.1).1 in
    let reached = (batch-act clock prune_ttl batch [] t r (bytes.0, batch_bytes)).0 in
    let (final, (actions, served, unserved, maps, queue, wakes_split, times, ends)) =
      run_updater-InOrder prune_ttl wakes after drained.1 reached left_bytes in
    (
      final,
      (
        applied_all batch actions,
        received available clock ∷ served,
        unserved,
        maps ∙ sym (batch-act clock prune_ttl batch actions t r (bytes.0, batch_bytes)).1,
        ap (λ us. us ++ left) (updates-applied_all batch actions)
            ∙ append_assoc batch (updates actions) left
            ∙ ap (λ us. batch ++ us) queue
            ∙ ap (◌∷◌ first) split,
        ap (◌∷◌ (received available clock)) wakes_split,
        prune_times-applied_all batch actions ∙ times,
        ends,
      ),
    )
run_updater-InOrder prune_ttl (tick now ∷ wakes) t rx r bytes =
    let after = prune t prune_ttl now in
    let (final, (actions, served, unserved, maps, queue, wakes_split, times, ends)) =
      run_updater-InOrder prune_ttl wakes after rx (next r (prunes t prune_ttl now)) bytes in
    (
      final,
      (
        pruned now ∷ actions,
        tick now ∷ served,
        unserved,
        maps ∙ ap (λ v. act prune_ttl v actions) (view-prune t prune_ttl now (Reach-IsValid r)),
        queue,
        ap (◌∷◌ (tick now)) wakes_split,
        ap (◌∷◌ now) times,
        ends,
      ),
    )
