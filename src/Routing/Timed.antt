-- ===== src/Routing/Timed.antt =====
-- The updater's tables while observations come in the order of their times: what may be sent to a
-- component may also be sent to its whole system, as far as the component's own route says so.
use mavrouter.Prelude.{
  ℕ, sym, subst, inl, inr, true, some, arith, get_or-replicate, ◌≤◌, ◌≡◌, nat_eq, pair_eq,
}
use mavrouter.Prelude.Sets.{contains}
use mavrouter.Prelude.Maps.{lookup}
use mavrouter.Routing.Time.{Instant, Duration}
use mavrouter.Routing.Shard.{RouteEntry, default_shard}
use mavrouter.Routing.Table.{
  RoutingTable, RouteUpdate, new, shard_for, shard_index, should_send, update, prune,
}
use mavrouter.Routing.Reach.{IsBytes, Reach, Step, Reach-IsValid}
use mavrouter.Routing.View.{view, view-update, view-prune}
use mavrouter.Routing.Cover.{IsCovered, observe-IsCovered, expire-IsCovered}
use mavrouter.Routing.Decisions.{should_send_iff}

-- The tables that the updater reaches while the observations come in the order of their times.
pub data Timed : Instant → RoutingTable → Type 0 where
  start : Timed 0 new
  observes :
      {now : Instant} {t : RoutingTable} (u : RouteUpdate) (clock : Instant)
      → Timed now t
      → IsBytes u
      → now ≤ u.now
      → Timed u.now (update t u.endpoint_id u.sys_id u.comp_id u.now clock)
  prunes :
      {now : Instant} {t : RoutingTable} (max_age : Duration) (clock : Instant)
      → Timed now t
      → Timed now (prune t max_age clock)

Timed-Reach : {now : Instant} {t : RoutingTable} → Timed now t → Reach t
Timed-Reach start = Reach.start
Timed-Reach (observes {t = t} u clock r bytes h) =
    Reach.next (Timed-Reach r) (Step.observes t u clock bytes)
Timed-Reach (prunes {t = t} max_age clock r) =
    Reach.next (Timed-Reach r) (Step.prunes t max_age clock)

shard_for-new : (s : ℕ) → shard_for new s ≡ default_shard
unfolding new shard_for
shard_for-new s = get_or-replicate 16 (shard_index s) default_shard

new-IsCovered : IsCovered 0 (view new)
unfolding lookup
new-IsCovered = record {
  covered = λ s c e found. absurd (ground (arith, rw (shard_for-new s) at found));
  past = λ s f found. absurd (ground (arith, rw (shard_for-new s) at found));
}

-- Every component route of such a table has its system's route beside it, which names all of its
-- endpoints and is at least as recent, whatever was pruned.
pub Timed-IsCovered : {now : Instant} {t : RoutingTable} → Timed now t → IsCovered now (view t)
Timed-IsCovered start = new-IsCovered
Timed-IsCovered (observes {now} {t} u clock r bytes h) =
    subst (IsCovered u.now) (sym (view-update t u clock (Reach-IsValid (Timed-Reach r))))
      (observe-IsCovered (view t) u (Timed-IsCovered r) h)
Timed-IsCovered (prunes {now} {t} max_age clock r) =
    subst (IsCovered now) (sym (view-prune t max_age clock (Reach-IsValid (Timed-Reach r))))
      (expire-IsCovered (view t) max_age clock (Timed-IsCovered r))

-- An endpoint that a component's route names is sent what targets the whole system.
pub should_send_system :
    {now : Instant} {t : RoutingTable} (ep s c : ℕ) (e : RouteEntry)
    → Timed now t
    → (view t).routes s c ≡ some e
    → contains e.endpoints ep ≡ true
    → should_send t ep s 0 ≡ true
should_send_system {t} ep s c e r found inside =
    let (f, at, by) = (Timed-IsCovered r).covered s c e found in
    (should_send_iff t ep s 0).1 (inr (inr (f, ground (arith, at), inl (by.names ep inside))))
