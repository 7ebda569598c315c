-- ===== src/Updater.antt =====
-- src/orchestration/updater.rs: the one task that writes to the routing table. What the receiver of
-- the queue gives, in order, is a list; a wake-up says how many of these updates have arrived.
pub mod Order
pub mod Progress
use mavrouter.Prelude.{ℕ, zero, suc, List, [], ◌-◌, ◌∷◌, nat_eq}
use mavrouter.Routing.Time.{Instant, Duration}
use mavrouter.Routing.Table.{RoutingTable, RouteUpdate, update, prune}

abbrev pub route_update_batch_size : ℕ
route_update_batch_size = 256

-- The branch that `select!` takes. After the first update of a batch, `available` more can be
-- drained before `try_recv` fails.
pub data Wake : Type 0 where
  cancelled : Wake
  received : (available : ℕ) (clock : Instant) → Wake
  tick : (now : Instant) → Wake

-- `while batch.len() < ROUTE_UPDATE_BATCH_SIZE`, with the room that is left in the batch: the
-- updates drained, and what the receiver holds after them.
unfoldable pub drain : ℕ → ℕ → List RouteUpdate → List RouteUpdate × List RouteUpdate
drain zero available update_rx = ([], update_rx)
drain (suc room) zero update_rx = ([], update_rx)
drain (suc room) (suc available) [] = ([], [])
drain (suc room) (suc available) (u ∷ update_rx) =
    let drained = drain room available update_rx in (u ∷ drained.0, drained.1)

-- `for u in batch.iter()`.
unfoldable pub apply_batch : Instant → RoutingTable → List RouteUpdate → RoutingTable
apply_batch clock t [] = t
apply_batch clock t (u ∷ batch) =
    apply_batch clock (update t u.endpoint_id u.sys_id u.comp_id u.now clock) batch

-- The loop of the task: the table and what is left in the queue when it exits or waits.
unfoldable pub run_updater :
    Duration → List Wake → RoutingTable → List RouteUpdate → RoutingTable × List RouteUpdate
run_updater prune_ttl [] t update_rx = (t, update_rx)
run_updater prune_ttl (cancelled ∷ wakes) t update_rx = (t, update_rx)
run_updater prune_ttl (received available clock ∷ wakes) t [] = (t, [])
run_updater prune_ttl (received available clock ∷ wakes) t (first ∷ update_rx) =
    let drained = drain (route_update_batch_size - 1) available update_rx in
    run_updater prune_ttl wakes (apply_batch clock t (first ∷ drained.0)) drained.1
run_updater prune_ttl (tick now ∷ wakes) t update_rx =
    run_updater prune_ttl wakes (prune t prune_ttl now) update_rx
