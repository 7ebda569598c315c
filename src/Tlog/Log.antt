-- ===== src/Tlog/Log.antt =====
-- What is in the log.
use mavrouter.Prelude.{
  ℕ, refl, sym, ap, subst, inl, inr, Bool, true, List, [], arith, Bool-cases, ◌≡◌, ◌∙◌, ◌∷◌, ◌++◌,
  nat_eq,
}
use Prim.Native.String.{String}
use mathlib.Core.List.{append_assoc, append-nil}
use mavrouter.Endpoint.{RoutedMessage}
use mavrouter.Config.{ok, err, filesystem}
use mavrouter.Tlog.{
  Event, cancelled, tick, message, lagged, closed, Status, running, returned, Logger, to_be_bytes,
  write_message, run_loop,
}

-- The buffered writer as documented: a write that succeeds appends its bytes, one that fails may
-- have appended the first of them, and a flush appends nothing, but brings all to the file.
pub record IsWriter {Writer : Type 0} (write_all : Writer → List ℕ → Writer × Bool)
    (flush : Writer → Writer × Bool) : Type 0 where
  pub written : Writer → List ℕ
  pub writes :
      (w : Writer) (bytes : List ℕ)
      → (write_all w bytes).1 ≡ true
      → written (write_all w bytes).0 ≡ written w ++ bytes
  pub fails :
      (w : Writer) (bytes : List ℕ)
      → (left : List ℕ) × (written (write_all w bytes).0 ++ left ≡ written w ++ bytes)
  pub flushes : (w : Writer) → written (flush w).0 ≡ written w
  -- What has reached the file: all, when a flush succeeds; and what has reached it stays.
  pub file : Writer → List ℕ
  pub reaches : (w : Writer) → (flush w).1 ≡ true → file (flush w).0 ≡ written w
  pub stays_written :
      (w : Writer) (bytes : List ℕ)
      → (more : List ℕ) × (file (write_all w bytes).0 ≡ file w ++ more)
  pub stays_flushed : (w : Writer) → (more : List ℕ) × (file (flush w).0 ≡ file w ++ more)

-- The messages that the task takes from the bus before it ends.
abbrev pub taken : List Event → List RoutedMessage
taken [] = []
taken (cancelled ∷ events) = []
taken (tick ∷ events) = taken events
taken (message msg ∷ events) = msg ∷ taken events
taken (lagged n ∷ events) = taken events
taken (closed ∷ events) = []

abbrev pub records : List RoutedMessage → List ℕ
records [] = []
records (msg ∷ msgs) = to_be_bytes msg.timestamp_us ++ (msg.serialized_bytes ++ records msgs)

-- The log is complete, or it breaks off and the error names the file.
abbrev pub Logged : String → Status → List ℕ → List ℕ → Type 0
Logged path_str running log full = log ≡ full
Logged path_str (returned (ok u)) log full = log ≡ full
Logged path_str (returned (err e)) log full =
    (e ≡ filesystem path_str) × ((left : List ℕ) × (log ++ left ≡ full))

-- What had been written at the last tick that was served: `seen` is what has been written so far,
-- and `safe` what had been at the last tick.
abbrev pub synced : List ℕ → List ℕ → List Event → List ℕ
synced seen safe [] = safe
synced seen safe (cancelled ∷ events) = safe
synced seen safe (tick ∷ events) = synced seen seen events
synced seen safe (message msg ∷ events) =
    synced (seen ++ (to_be_bytes msg.timestamp_us ++ msg.serialized_bytes)) safe events
synced seen safe (lagged n ∷ events) = synced seen safe events
synced seen safe (closed ∷ events) = safe

-- The file begins with these bytes, unless there was an error.
abbrev pub Synced : Status → List ℕ → List ℕ → Type 0
Synced running file safe = (more : List ℕ) × (file ≡ safe ++ more)
Synced (returned (ok u)) file safe = (more : List ℕ) × (file ≡ safe ++ more)
Synced (returned (err e)) file safe = Unit

grown :
    (file next safe : List ℕ)
    → (more : List ℕ) × (file ≡ safe ++ more)
    → (more : List ℕ) × (next ≡ file ++ more)
    → (more : List ℕ) × (next ≡ safe ++ more)
grown file next safe (a, p) (b, q) = (a ++ b, q ∙ ap (λ bs. bs ++ b) p ∙ append_assoc safe a b)

module _ {Writer : Type 0} (write_all : Writer → List ℕ → Writer × Bool)
    (flush : Writer → Writer × Bool) (w : IsWriter write_all flush) where
  write_message-all :
      (writer : Writer) (msg : RoutedMessage)
      → (write_message write_all flush writer msg).1 ≡ true
      → w.written (write_message write_all flush writer msg).0
        ≡ w.written writer ++ (to_be_bytes msg.timestamp_us ++ msg.serialized_bytes)
  unfolding write_message
  write_message-all writer msg h =
      let stamp = to_be_bytes msg.timestamp_us in
      elim (Bool-cases (write_all writer stamp).1) [
        | inl good ↦
            let second : (write_all (write_all writer stamp).0 msg.serialized_bytes).1 ≡ true =
              rw good at h in
            rw good (
              w.writes _ msg.serialized_bytes second
              ∙ ap (λ bs. bs ++ msg.serialized_bytes) (w.writes writer stamp good)
              ∙ append_assoc (w.written writer) stamp msg.serialized_bytes)
        | inr bad ↦ absurd (ground (arith, bad, h))
      ]

  write_message-prefix :
      (writer : Writer) (msg : RoutedMessage)
      → (left : List ℕ) × (w.written (write_message write_all flush writer msg).0 ++ left
          ≡ w.written writer ++ (to_be_bytes msg.timestamp_us ++ msg.serialized_bytes))
  unfolding write_message
  write_message-prefix writer msg =
      let stamp = to_be_bytes msg.timestamp_us in
      let bytes = msg.serialized_bytes in
      let old = w.written writer in
      elim (Bool-cases (write_all writer stamp).1) [
        | inl good ↦
            let (left, e) = w.fails (write_all writer stamp).0 bytes in
            rw good (
              left,
              e
                  ∙ ap (λ bs. bs ++ bytes) (w.writes writer stamp good)
                  ∙ append_assoc old stamp bytes,
            )
        | inr bad ↦
            let (left, e) = w.fails writer stamp in
            rw bad (
              left ++ bytes,
              sym (append_assoc (w.written (write_all writer stamp).0) left bytes)
                  ∙ ap (λ bs. bs ++ bytes) e
                  ∙ append_assoc old stamp bytes,
            )
      ]

  -- One more message in front of the log of the others.
  Logged-more :
      (path_str : String) (status : Status) (log old : List ℕ) (msg : RoutedMessage)
      (msgs : List RoutedMessage)
      → Logged path_str status log
          ((old ++ (to_be_bytes msg.timestamp_us ++ msg.serialized_bytes)) ++ records msgs)
      → Logged path_str status log (old ++ records (msg ∷ msgs))
  Logged-more path_str status log old msg msgs k =
      let stamp = to_be_bytes msg.timestamp_us in
      let e =
        append_assoc old (stamp ++ msg.serialized_bytes) (records msgs)
        ∙ ap (λ bs. old ++ bs) (append_assoc stamp msg.serialized_bytes (records msgs)) in
      subst (Logged path_str status log) e k

  Logged-start :
      (path_str : String) (events : List Event) (s : Logger Writer) (old : List ℕ)
      → w.written s.writer ≡ old
      → Logged path_str
          (run_loop write_all flush path_str events s).1
          (w.written (run_loop write_all flush path_str events s).0.writer)
          (old ++ records (taken events))
  unfolding run_loop
  Logged-start path_str [] s old e = e ∙ sym (append-nil old)
  Logged-start path_str (cancelled ∷ events) s old e = w.flushes s.writer ∙ e ∙ sym (append-nil old)
  Logged-start path_str (tick ∷ events) s old e =
      let same = w.flushes s.writer ∙ e in
      elim (Bool-cases (flush s.writer).1) [
        | inl good ↦ rw good (Logged-start path_str events _ old same)
        | inr bad ↦
            rw bad (refl, (records (taken events), ap (λ bs. bs ++ records (taken events)) same))
      ]
  Logged-start path_str (message msg ∷ events) s old e =
      let bytes = to_be_bytes msg.timestamp_us ++ msg.serialized_bytes in
      elim (Bool-cases (write_message write_all flush s.writer msg).1) [
        | inl good ↦
            let wrote = write_message-all s.writer msg good ∙ ap (λ bs. bs ++ bytes) e in
            rw good (
              Logged-more path_str _ _ old msg (taken events)
                (Logged-start path_str events _ (old ++ bytes) wrote))
        | inr bad ↦
            let (left, part) = write_message-prefix s.writer msg in
            rw bad (
              Logged-more path_str (returned (err (filesystem path_str))) _ old msg (taken events) (
                refl,
                (
                  left ++ records (taken events),
                  sym (append_assoc _ left (records (taken events)))
                      ∙ ap (λ bs. bs ++ records (taken events)) (part ∙ ap (λ bs. bs ++ bytes) e),
                ),
              ))
      ]
  Logged-start path_str (lagged n ∷ events) s old e = Logged-start path_str events _ old e
  Logged-start path_str (closed ∷ events) s old e = w.flushes s.writer ∙ e ∙ sym (append-nil old)

  write_message-stays :
      (writer : Writer) (msg : RoutedMessage)
      → (more : List ℕ) × (w.file (write_message write_all flush writer msg).0
          ≡ w.file writer ++ more)
  unfolding write_message
  write_message-stays writer msg =
      let stamp = to_be_bytes msg.timestamp_us in
      let first = w.stays_written writer stamp in
      elim (Bool-cases (write_all writer stamp).1) [
        | inl good ↦ rw good (
            grown _ _ (w.file writer) first
              (w.stays_written (write_all writer stamp).0 msg.serialized_bytes))
        | inr bad ↦ rw bad first
      ]

  Synced-start :
      (path_str : String) (events : List Event) (s : Logger Writer) (seen safe : List ℕ)
      → w.written s.writer ≡ seen
      → (more : List ℕ) × (w.file s.writer ≡ safe ++ more)
      → Synced
          (run_loop write_all flush path_str events s).1
          (w.file (run_loop write_all flush path_str events s).0.writer)
          (synced seen safe events)
  unfolding run_loop
  Synced-start path_str [] s seen safe e kept = kept
  Synced-start path_str (cancelled ∷ events) s seen safe e kept =
      grown _ _ safe kept (w.stays_flushed s.writer)
  Synced-start path_str (tick ∷ events) s seen safe e kept = elim (Bool-cases (flush s.writer).1) [
    | inl good ↦ rw good (
        Synced-start path_str events _ seen seen (w.flushes s.writer ∙ e)
          ([], w.reaches s.writer good ∙ e ∙ sym (append-nil seen)))
    | inr bad ↦ rw bad tt
  ]
  Synced-start path_str (message msg ∷ events) s seen safe e kept =
      let bytes = to_be_bytes msg.timestamp_us ++ msg.serialized_bytes in
      elim (Bool-cases (write_message write_all flush s.writer msg).1) [
        | inl good ↦ rw good (
            Synced-start path_str events _ (seen ++ bytes) safe
              (write_message-all s.writer msg good ∙ ap (λ bs. bs ++ bytes) e)
              (grown _ _ safe kept (write_message-stays s.writer msg)))
        | inr bad ↦ rw bad tt
      ]
  Synced-start path_str (lagged n ∷ events) s seen safe e kept =
      Synced-start path_str events _ seen safe e kept
  Synced-start path_str (closed ∷ events) s seen safe e kept =
      grown _ _ safe kept (w.stays_flushed s.writer)

  -- With a writer as documented, whatever the bus gives and whichever writes and flushes fail:
  -- while the task runs, and when it has ended without an error, the writer has taken exactly the
  -- records of the messages, in their order, behind what it had, and whatever it had taken at the
  -- last tick has reached the file; if the task ends with an error, the error names the file, and
  -- what the writer has taken is the beginning of these records. Of what was taken after the last
  -- tick nothing is said but that the writer has it.
  pub run_loop-Logged :
      (path_str : String) (events : List Event) (s : Logger Writer)
      → Logged path_str
          (run_loop write_all flush path_str events s).1
          (w.written (run_loop write_all flush path_str events s).0.writer)
          (w.written s.writer ++ records (taken events))
        × Synced
            (run_loop write_all flush path_str events s).1
            (w.file (run_loop write_all flush path_str events s).0.writer)
            (synced (w.written s.writer) (w.file s.writer) events)
  run_loop-Logged path_str events s = (
    Logged-start path_str events s (w.written s.writer) refl,
    Synced-start path_str events s (w.written s.writer) (w.file s.writer) refl
        ([], sym (append-nil (w.file s.writer))),
  )
