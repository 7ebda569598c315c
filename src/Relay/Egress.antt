-- ===== src/Relay/Egress.antt =====
-- A pass of the sending loop of one of the endpoints.
use mavrouter.Prelude.{
  ℕ, suc, ◌+◌, refl, sym, ap, subst, inl, inr, Bool, true, false, List, [], length, Bool-cases, ◌<◌,
  ◌≡◌, ◌≢◌, ◌↔◌, arith, ◌∙◌, ◌∷◌, ◌++◌, nat_eq,
}
use native.Mathlib.Decide.{ℕ_discrete}
use mavrouter.Mavlink.{MavMessage}
use mavrouter.Routing.Table.{RouteUpdate, RoutingTable}
use mavrouter.Dedup.Window.{Window}
use mavrouter.Dedup.Sharded.{Follows}
use mavrouter.StreamLoop.{count_error, count_lagged, count_outgoing}
use mavrouter.Endpoint.{
  RoutedMessage, EndpointCore, EndpointStats, TrySend, record_outgoing, check_outgoing_message,
}
use mavrouter.Endpoint.Outgoing.{check_outgoing_message_iff}
use mavrouter.Relay.{
  Relay, Delivery, got, missed, nothing, forward, write, write_to, on_delivery, step, set_at,
  set_at_self, set_at_ne,
}
use mavrouter.Relay.Broadcast.{IsBroadcast}
use mavrouter.Relay.Accounts.{
  IsFor, Accounted, Counts, copies, failures, wrote-Accounted, withheld-Accounted, lost-Accounted,
}
use mavrouter.Relay.Invariant.{set_at-OnlyCounts, OnlyCounts, Inv}

copies-later :
    (msg : RoutedMessage) (sends : List Bool) (out : List RoutedMessage)
    → copies msg sends ++ (msg ∷ out) ≡ msg ∷ (copies msg sends ++ out)
copies-later msg [] out = refl
copies-later msg (true ∷ sends) out = ap (◌∷◌ msg) (copies-later msg sends out)
copies-later msg (false ∷ sends) out = copies-later msg sends out

-- What a pass leaves alone, and that it only counts.
module _ {Bus Queue : Type 0} where
  write-shared :
      (sends : List Bool) (r : Relay Bus Queue) (i : ℕ) (msg : RoutedMessage)
      → (write r i msg sends).shared ≡ r.shared
  unfolding write
  write-shared [] r i msg = refl
  write-shared (true ∷ sends) r i msg = write-shared sends _ i msg
  write-shared (false ∷ sends) r i msg = write-shared sends _ i msg

  on_delivery-shared :
      (r : Relay Bus Queue) (i : ℕ) (sends : List Bool) (d : Delivery)
      → (on_delivery r i sends d).shared ≡ r.shared
  unfolding on_delivery
  on_delivery-shared r i sends (got msg) =
      elim (Bool-cases (check_outgoing_message r.shared.routing_table (r.cores i) msg)) [
        | inl goes ↦ rw goes (write-shared sends r i msg)
        | inr stays ↦ rw stays refl
      ]
  on_delivery-shared r i sends (missed n) = refl
  on_delivery-shared r i sends nothing = refl

  abbrev SameAt : ℕ → Relay Bus Queue → Relay Bus Queue → Type 0
  SameAt j r s = (s.cores j ≡ r.cores j) × (s.written j ≡ r.written j)

  write-others :
      (sends : List Bool) (r : Relay Bus Queue) (i : ℕ) (msg : RoutedMessage) (j : ℕ)
      → j ≢ i
      → SameAt j r (write r i msg sends)
  unfolding write
  write-others [] r i msg j ne = (refl, refl)
  write-others (true ∷ sends) r i msg j ne =
      let (core, out) = write-others sends (write_to r i msg true) i msg j ne in
      (core ∙ set_at_ne r.cores i j _ ne, out ∙ set_at_ne r.written i j _ ne)
  write-others (false ∷ sends) r i msg j ne =
      let (core, out) = write-others sends (write_to r i msg false) i msg j ne in
      (core ∙ set_at_ne r.cores i j _ ne, out)

  on_delivery-others :
      (r : Relay Bus Queue) (i : ℕ) (sends : List Bool) (d : Delivery) (j : ℕ)
      → j ≢ i
      → SameAt j r (on_delivery r i sends d)
  unfolding on_delivery
  on_delivery-others r i sends (got msg) j ne =
      elim (Bool-cases (check_outgoing_message r.shared.routing_table (r.cores i) msg)) [
        | inl goes ↦ rw goes (write-others sends r i msg j ne)
        | inr stays ↦ rw stays (refl, refl)
      ]
  on_delivery-others r i sends (missed n) j ne = (set_at_ne r.cores i j _ ne, refl)
  on_delivery-others r i sends nothing j ne = (refl, refl)

  write_to-OnlyCounts :
      (first : ℕ → EndpointCore) (r : Relay Bus Queue) (i : ℕ) (msg : RoutedMessage) (takes : Bool)
      → OnlyCounts first r.cores
      → OnlyCounts first (write_to r i msg takes).cores
  write_to-OnlyCounts first r i msg true same =
      let bytes = length msg.serialized_bytes in
      let (stats, counts) = same i in
      set_at-OnlyCounts first r.cores i _ (count_outgoing (r.cores i) bytes)
        (ap (λ c. count_outgoing c bytes) counts) same
  write_to-OnlyCounts first r i msg false same =
      let (stats, counts) = same i in
      set_at-OnlyCounts first r.cores i _ (count_error (r.cores i)) (ap count_error counts) same

  write-OnlyCounts :
      (first : ℕ → EndpointCore) (sends : List Bool) (r : Relay Bus Queue) (i : ℕ)
      (msg : RoutedMessage)
      → OnlyCounts first r.cores
      → OnlyCounts first (write r i msg sends).cores
  unfolding write
  write-OnlyCounts first [] r i msg same = same
  write-OnlyCounts first (takes ∷ sends) r i msg same =
      write-OnlyCounts first sends (write_to r i msg takes) i msg
        (write_to-OnlyCounts first r i msg takes same)

  write-written :
      (sends : List Bool) (r : Relay Bus Queue) (i : ℕ) (msg : RoutedMessage)
      → (write r i msg sends).written i ≡ copies msg sends ++ r.written i
  unfolding write
  write-written [] r i msg = refl
  write-written (true ∷ sends) r i msg =
      write-written sends (write_to r i msg true) i msg
      ∙ ap (λ out. copies msg sends ++ out) (set_at_self r.written i (msg ∷ r.written i))
      ∙ copies-later msg sends (r.written i)
  write-written (false ∷ sends) r i msg = write-written sends (write_to r i msg false) i msg

  -- The counters after a message to all addresses.
  write-Counts :
      (sends : List Bool) (r : Relay Bus Queue) (i : ℕ) (msg : RoutedMessage) (o l f : ℕ)
      → Counts (r.cores i).stats o l f
      → Counts
          ((write r i msg sends).cores i).stats
          (length (copies msg sends) + o)
          l
          (failures sends + f)
  unfolding write record_outgoing
  write-Counts [] r i msg o l f (out, lag, fail) = (omega (arith, out), lag, omega (arith, fail))
  write-Counts (true ∷ sends) r i msg o l f (out, lag, fail) =
      let bytes = length msg.serialized_bytes in
      let (out', lag', fail') = write-Counts sends (write_to r i msg true) i msg (suc o) l f (
        subst (λ c. Counts c.stats (suc o) l f)
          (sym (set_at_self r.cores i (count_outgoing (r.cores i) bytes)))
          (omega (arith, out), lag, fail)) in
      (omega (arith, out'), lag', fail')
  write-Counts (false ∷ sends) r i msg o l f (out, lag, fail) =
      let (out', lag', fail') = write-Counts sends (write_to r i msg false) i msg o l (suc f) (
        subst (λ c. Counts c.stats o l (suc f))
          (sym (set_at_self r.cores i (count_error (r.cores i))))
          (out, lag, omega (arith, fail))) in
      (out', lag', omega (arith, fail'))

  on_delivery-OnlyCounts :
      (first : ℕ → EndpointCore) (r : Relay Bus Queue) (i : ℕ) (sends : List Bool) (d : Delivery)
      → OnlyCounts first r.cores
      → OnlyCounts first (on_delivery r i sends d).cores
  unfolding on_delivery
  on_delivery-OnlyCounts first r i sends (got msg) same =
      elim (Bool-cases (check_outgoing_message r.shared.routing_table (r.cores i) msg)) [
        | inl goes ↦ rw goes (write-OnlyCounts first sends r i msg same)
        | inr stays ↦ rw stays same
      ]
  on_delivery-OnlyCounts first r i sends (missed n) same =
      let (stats, counts) = same i in
      set_at-OnlyCounts first r.cores i _ (count_lagged (r.cores i) n)
        (ap (λ c. count_lagged c n) counts) same
  on_delivery-OnlyCounts first r i sends nothing same = same

module _ {Bus Queue : Type 0} (Had : RoutingTable → List Bool → Type 0) (first : EndpointCore)
    (earlier sent pending pending' : List RoutedMessage) (r : Relay Bus Queue) (j : ℕ) where
  -- The accounts of the endpoint, with what is pending for it.
  abbrev Account : List RoutedMessage → Relay Bus Queue → Type 0
  Account waiting s = Accounted Had first earlier sent waiting (s.written j) (s.cores j).stats

  core_counted :
      (core : EndpointCore)
      → Accounted Had first earlier sent pending' (r.written j) core.stats
      → Account pending' (record r { cores = set_at r.cores j core })
  core_counted core account =
      subst (λ c. Accounted Had first earlier sent pending' (r.written j) c.stats)
        (sym (set_at_self r.cores j core)) account

  write-Account :
      (msg : RoutedMessage) (sends : List Bool)
      → Had r.shared.routing_table sends
      → IsFor r.shared.routing_table first msg
      → pending ≡ pending' ++ (msg ∷ [])
      → Account pending r
      → Account pending' (write r j msg sends)
  write-Account msg sends had for p account =
      let after = (write r j msg sends).cores j in
      subst (λ out. Accounted Had first earlier sent pending' out after.stats)
        (sym (write-written sends r j msg))
        (wrote-Accounted Had first earlier sent pending pending' (r.written j) (r.cores j).stats
          r.shared.routing_table sends msg after.stats had for p
          (λ o l f. write-Counts sends r j msg o l f) account)

  got-Account :
      (msg : RoutedMessage) (sends : List Bool) (stats : EndpointStats)
      → r.cores j ≡ record first { stats = stats }
      → Had r.shared.routing_table sends
      → pending ≡ pending' ++ (msg ∷ [])
      → Account pending r
      → Account pending' (on_delivery r j sends (got msg))
  unfolding on_delivery
  got-Account msg sends stats counts had p account =
      let rt = r.shared.routing_table in
      let iff : (check_outgoing_message rt (r.cores j) msg ≡ true) ↔ IsFor rt first msg =
        subst (λ c. (check_outgoing_message rt (r.cores j) msg ≡ true) ↔ IsFor rt c msg) counts
          (check_outgoing_message_iff rt (r.cores j) msg) in
      elim (Bool-cases (check_outgoing_message rt (r.cores j) msg)) [
        | inl goes ↦ rw goes (write-Account msg sends had (iff.0 goes) p account)
        | inr stays ↦ rw stays (
            withheld-Accounted Had first earlier sent pending pending' (r.written j)
              (r.cores j).stats rt sends msg had (λ for. cc (iff.1 for)) p account)
      ]

  missed-Account :
      (n : ℕ) (sends : List Bool) (skipped : List RoutedMessage)
      → length skipped ≡ n
      → pending ≡ pending' ++ skipped
      → Account pending r
      → Account pending' (on_delivery r j sends (missed n))
  unfolding on_delivery
  missed-Account n sends skipped h p account = core_counted (count_lagged (r.cores j) n) (
      lost-Accounted Had first earlier sent pending pending' (r.written j) (r.cores j).stats n
        skipped h p account)

module _ {Bus Queue : Type 0} (ahash_hash : List ℕ → ℕ) (message_id_of : MavMessage → ℕ)
    (send : Bus → RoutedMessage → Bus × Bool) (recv : Bus → ℕ → Bus × Delivery)
    (try_send : Queue → RouteUpdate → Queue × TrySend) (bc : IsBroadcast send recv)
    (Had : RoutingTable → List Bool → Type 0) (first : ℕ → EndpointCore)
    (earlier : List RoutedMessage) (j : ℕ) (r : Relay Bus Queue) (sends : List Bool) where
  abbrev bus_tx : Bus
  bus_tx = r.shared.bus_tx

  abbrev received_by : ℕ → Relay Bus Queue
  received_by i =
      let shared = r.shared in record r { shared = record shared { bus_tx = (recv bus_tx i).0 } }

  abbrev forwarded : ℕ → Relay Bus Queue
  forwarded i = on_delivery (received_by i) i sends (recv bus_tx i).1

  -- The accounts of `j` after a pass of `i`.
  abbrev AccountAfter : ℕ → Relay Bus Queue → Type 0
  AccountAfter i s =
      Accounted Had (first j) earlier (bc.bus.sent bus_tx) (bc.pending (recv bus_tx i).0 j)
        (s.written j) (s.cores j).stats

  self-Account :
      (d : Delivery) (w : Window)
      → (recv bus_tx j).1 ≡ d
      → Had r.shared.routing_table sends
      → Inv bc Had first earlier j w r
      → AccountAfter j (on_delivery (received_by j) j sends d)
  unfolding on_delivery
  self-Account (got msg) w e had inv =
      let (stats, counts) = inv.same j in
      got-Account Had (first j) earlier (bc.bus.sent bus_tx) (bc.pending bus_tx j)
        (bc.pending (recv bus_tx j).0 j) (received_by j) j msg sends stats counts had
        (bc.gives bus_tx j msg e) inv.account
  self-Account (missed n) w e had inv =
      let (skipped, p, h) = bc.skips bus_tx j n e in
      missed-Account Had (first j) earlier (bc.bus.sent bus_tx) (bc.pending bus_tx j)
        (bc.pending (recv bus_tx j).0 j) (received_by j) j n sends skipped h p inv.account
  self-Account nothing w e had inv =
      let (before, after) = bc.waits bus_tx j e in
      subst
        (λ p.
          Accounted Had (first j) earlier (bc.bus.sent bus_tx) p (r.written j) (r.cores j).stats)
        (before ∙ sym after) inv.account

  others-Account :
      (i : ℕ) (w : Window) → j ≢ i → Inv bc Had first earlier j w r → AccountAfter i (forwarded i)
  others-Account i w ne inv =
      let (core, out) = on_delivery-others (received_by i) i sends (recv bus_tx i).1 j ne in
      rw (core, out, bc.others bus_tx i j ne) inv.account

  forwarded-Account :
      (i : ℕ) (w : Window)
      → (j ≡ i → Had r.shared.routing_table sends)
      → Inv bc Had first earlier j w r
      → AccountAfter i (forwarded i)
  forwarded-Account i w had inv = elim (ℕ_discrete j i) [
    | yes here ↦
        subst (λ k. AccountAfter k (forwarded k)) here (self-Account _ w refl (had here) inv)
    | no elsewhere ↦ others-Account i w elsewhere inv
  ]

  -- A pass publishes nothing and leaves the table, and the rest goes on.
  pub forward-Inv :
      (i : ℕ) (w : Window)
      → (j ≡ i → Had r.shared.routing_table sends)
      → Inv bc Had first earlier j w r
      → let after = step ahash_hash message_id_of send recv try_send r (forward i sends) in
        Inv bc Had first earlier j w after
        × (after.shared.routing_table ≡ r.shared.routing_table)
        × (bc.bus.sent after.shared.bus_tx ≡ bc.bus.sent r.shared.bus_tx)
  unfolding step
  forward-Inv i w had inv =
      let kept = on_delivery-shared (received_by i) i sends (recv bus_tx i).1 in
      let logs = ap (λ s. bc.bus.sent s.bus_tx) kept ∙ bc.logs bus_tx i in
      let on = ap (λ s. bc.bus.receivers s.bus_tx) kept ∙ bc.listens bus_tx i in
      (
        record {
          follows = subst (λ s. Follows s.dedup w) (sym kept) inv.follows;
          listening = subst (λ n. 0 < n) (sym on) inv.listening;
          same = on_delivery-OnlyCounts first (received_by i) i sends (recv bus_tx i).1 inv.same;
          account =
              subst
                (λ ms.
                  Accounted Had (first j) earlier ms (bc.pending (forwarded i).shared.bus_tx j)
                    ((forwarded i).written j) ((forwarded i).cores j).stats)
                (sym logs)
                (subst
                  (λ b.
                    Accounted Had (first j) earlier (bc.bus.sent bus_tx) (bc.pending b j)
                      ((forwarded i).written j) ((forwarded i).cores j).stats)
                  (sym (ap (λ s. s.bus_tx) kept)) (forwarded-Account i w had inv));
        },
        ap (λ s. s.routing_table) kept,
        logs,
      )
