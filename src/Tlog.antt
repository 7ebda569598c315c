-- ===== src/Tlog.antt =====
-- src/endpoints/tlog.rs: the log of all messages of the bus. The buffered writer over the file is a
-- parameter; what `select!` finds in each pass of the loop is a list.
pub mod Log
pub mod Reading
use mavrouter.Prelude.{
  ℕ, zero, suc, Bool, not, Option, none, some, List, [], ◌/◌, ◌%◌, ◌&&◌, ◌∷◌, ◌++◌, if◌then◌else◌,
  nat_eq,
}
use Prim.Native.String.{String}
use mavrouter.Endpoint.{RoutedMessage, fetch_add}
use mavrouter.Config.{Result, ok, err, filesystem}

-- `timestamp_us.to_be_bytes()`, for any number of bytes: the last byte is the lowest.
unfoldable pub be_bytes : ℕ → ℕ → List ℕ
be_bytes zero n = []
be_bytes (suc count) n = be_bytes count (n / 256) ++ (n % 256 ∷ [])

abbrev pub to_be_bytes : ℕ → List ℕ
to_be_bytes n = be_bytes 8 n

pub data Event : Type 0 where
  cancelled : Event
  tick : Event
  message : RoutedMessage → Event
  lagged : ℕ → Event
  closed : Event

-- The task waits in its loop, or it has returned.
pub data Status : Type 0 where
  running : Status
  returned : Result (Unit {0}) → Status

pub record Logger (Writer : Type 0) : Type 0 where
  pub writer : Writer
  pub bus_lagged : ℕ

module _ {Writer : Type 0} (write_all : Writer → List ℕ → Writer × Bool)
    (flush : Writer → Writer × Bool) where
  -- The time stamp, and then the bytes of the message, unless the first write failed.
  unfoldable pub write_message : Writer → RoutedMessage → Writer × Bool
  write_message writer msg =
      let stamped = write_all writer (to_be_bytes msg.timestamp_us) in
      if stamped.1 then write_all stamped.0 msg.serialized_bytes else stamped

  -- Behind the loop: an error of the last flush is reported in the program's output only.
  abbrev pub finish : Logger Writer → Logger Writer × Status
  finish s = (record s { writer = (flush s.writer).0 }, returned (ok tt))

  unfoldable pub run_loop : String → List Event → Logger Writer → Logger Writer × Status
  run_loop path_str [] s = (s, running)
  run_loop path_str (cancelled ∷ events) s = finish s
  run_loop path_str (tick ∷ events) s =
      let flushed = flush s.writer in
      let after = record s { writer = flushed.0 } in
      let rest = run_loop path_str events after in
      if flushed.1 then rest else (after, returned (err (filesystem path_str)))
  run_loop path_str (message msg ∷ events) s =
      let result = write_message s.writer msg in
      let after = record s { writer = result.0 } in
      let rest = run_loop path_str events after in
      if result.1 then rest else (after, returned (err (filesystem path_str)))
  run_loop path_str (lagged n ∷ events) s =
      run_loop path_str events (record s { bus_lagged = fetch_add s.bus_lagged n })
  run_loop path_str (closed ∷ events) s = finish s

  -- The directory is made unless it is there; `create` is the new file's writer.
  unfoldable pub run :
      Bool → Bool → Option Writer → String → String → ℕ → List Event → Option Writer × Status
  run exists create_dir_all create logs_dir path_str bus_lagged events =
      if not exists && not create_dir_all
      then (none, returned (err (filesystem logs_dir)))
      else elim create [
        | none ↦ (none, returned (err (filesystem path_str)))
        | some writer ↦
            let result =
              run_loop path_str events (record { writer = writer; bus_lagged = bus_lagged }) in
            (some result.0.writer, result.1)
      ]
