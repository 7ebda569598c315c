-- ===== src/StreamLoop/Passes.antt =====
-- What a pass of the writing loop writes, and where it ends the loop.
use mavrouter.Prelude.{
  ℕ, refl, sym, ap, inl, inr, Bool, true, false, List, [], arith, Bool-cases, ◌≡◌, ◌∙◌, ◌∷◌, ◌++◌,
  if◌then◌else◌, nat_eq,
}
use Prim.Native.String.{String}
use mathlib.Core.List.{append-nil}
use mavrouter.Config.{ok, err, network}
use mavrouter.Endpoint.{EndpointCore}
use mavrouter.Tlog.Log.{IsWriter}
use mavrouter.StreamLoop.{
  Status, running, returned, stuck, Received, message, lagged, empty, closed, Place, at_recv,
  in_batch, Sender, ends, count_lagged, receive,
}
use mavrouter.StreamLoop.Writer.{
  outgoing, IsCore, IsCore-counted, Wrote, bytes_of, on_message-Wrote, on_lagged-Wrote,
  on_empty-Wrote, bytes_of-others,
}

-- What ends the writing loop without an error.
abbrev pub Ends : Received → Type 0
Ends (message msg rt is_cancelled) = is_cancelled ≡ true
Ends (lagged n) = ⊥
Ends empty = ⊥
Ends closed = Unit

module _ {Writer : Type 0} (write_all : Writer → List ℕ → Writer × Bool)
    (flush : Writer → Writer × Bool) (w : IsWriter write_all flush) (core : EndpointCore) where
  abbrev pub bytes_in : Received → List ℕ
  bytes_in (message msg rt is_cancelled) = bytes_of write_all flush w core msg rt
  bytes_in (lagged n) = []
  bytes_in empty = []
  bytes_in closed = []

  -- All bytes of the message, or none at an end, or a beginning before an error.
  abbrev pub Passed : String → Received → Sender Writer → Sender Writer → Status → Type 0
  Passed name received s after running =
      IsCore write_all flush w core after.core
      × (w.written after.writer ≡ w.written s.writer ++ bytes_in received)
      × ((bus_rx : List Received)
          → bytes_in received ++ outgoing core bus_rx ≡ outgoing core (received ∷ bus_rx))
  Passed name received s after (returned (ok u)) =
      Ends received × (w.written after.writer ≡ w.written s.writer)
  Passed name received s after (returned (err e)) =
      (e ≡ network name)
      × ((left : List ℕ) × (w.written after.writer ++ left
            ≡ w.written s.writer ++ outgoing core (received ∷ [])))
  Passed name received s after stuck = ⊥

  or_fails-Passed :
      (name : String) (received : Received) (s after : Sender Writer) (good : Bool)
      → ((bus_rx : List Received)
          → bytes_in received ++ outgoing core bus_rx ≡ outgoing core (received ∷ bus_rx))
      → Wrote write_all flush w core s (bytes_in received) after good
      → Passed name received s after (if good then running else returned (err (network name)))
  or_fails-Passed name received s after true all (c, wrote) = (c, wrote, all)
  or_fails-Passed name received s after false all (left, part) = (
    refl,
    (
      left,
      part ∙ ap (λ bs. w.written s.writer ++ bs) (sym (append-nil (bytes_in received)) ∙ all []),
    ),
  )

  ends-cancelled :
      (place : Place) (is_cancelled : Bool)
      → ends write_all flush place is_cancelled ≡ true
      → is_cancelled ≡ true
  ends-cancelled at_recv is_cancelled h = h
  ends-cancelled (in_batch passes) is_cancelled h = absurd (ground (arith, h))

  pub receive-Passed :
      (name : String) (received : Received) (place : Place) (s : Sender Writer)
      → IsCore write_all flush w core s.core
      → let out = receive write_all flush name received place s in
        Passed name received s out.1 out.2
  unfolding receive
  receive-Passed name (message msg rt is_cancelled) place s c =
      elim (Bool-cases (ends write_all flush place is_cancelled)) [
        | inl over ↦ rw over (ends-cancelled place is_cancelled over, refl)
        | inr on ↦ rw on (
            or_fails-Passed name (message msg rt is_cancelled) s _ _
              (bytes_of-others write_all flush w core msg rt is_cancelled)
              (on_message-Wrote write_all flush w core place s msg rt c))
      ]
  receive-Passed name (lagged n) place s c =
      let counted : Sender Writer = record s { core = count_lagged s.core n } in
      or_fails-Passed name (lagged n) s _ _ (λ bus_rx. refl)
        (on_lagged-Wrote write_all flush w core place counted
          (IsCore-counted write_all flush w core s.core _ c))
  receive-Passed name empty place s c =
      or_fails-Passed name empty s _ _ (λ bus_rx. refl)
        (on_empty-Wrote write_all flush w core place s c)
  receive-Passed name closed place s c = (tt, refl)
