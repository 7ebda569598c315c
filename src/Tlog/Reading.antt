-- ===== src/Tlog/Reading.antt =====
-- A reader of the log: the format as it is documented.
use mavrouter.Prelude.{
  ℕ, zero, suc, refl, ap, Bool, List, [], map, arith, length, get_or, take, drop, All,
  length-append, ◌+◌, ◌*◌, ◌/◌, ◌%◌, ◌^◌, ◌≤◌, ◌<◌, ◌≡◌, ◌∙◌, ◌∷◌, ◌++◌, ◌==◌, if◌then◌else◌,
  nat_eq,
}
use native.Mathlib.Nat.{pow-succ'}
use mavrouter.Endpoint.{RoutedMessage}
use mavrouter.Tlog.{Event, Status, running, returned, Logger, be_bytes, to_be_bytes, run_loop}
use mavrouter.Config.{ok, err}
use Prim.Native.String.{String}
use mavrouter.Tlog.Log.{Logged, IsWriter, taken, records, run_loop-Logged}

-- A big-endian number, after the digits that `high` stands for.
abbrev pub from_be : ℕ → List ℕ → ℕ
from_be high [] = high
from_be high (b ∷ bytes) = from_be (high * 256 + b) bytes

-- The number of bytes of a frame, from its first three: the magic number, the length of the
-- payload, and, in version 2, the flag of a signature.
unfoldable pub frame_size : List ℕ → ℕ
frame_size bytes =
    if get_or bytes 0 0 == 0xFE
    then get_or bytes 1 0 + 8
    else if get_or bytes 2 0 % 2 == 1
    then get_or bytes 1 0 + 25
    else get_or bytes 1 0 + 12

-- The entries of a log, each a time stamp and a frame; the fuel bounds their number.
unfoldable pub read_log : ℕ → List ℕ → List (ℕ × List ℕ)
read_log zero bytes = []
read_log (suc fuel) [] = []
read_log (suc fuel) (b ∷ bytes) =
    let rest = drop 8 (b ∷ bytes) in
    (from_be 0 (take 8 (b ∷ bytes)), take (frame_size rest) rest)
    ∷ read_log fuel (drop (frame_size rest) rest)

abbrev pub entry : RoutedMessage → ℕ × List ℕ
entry msg = (msg.timestamp_us, msg.serialized_bytes)

-- A message as the endpoints make it: a 64-bit time stamp, and the bytes of one frame.
abbrev pub IsFramed : RoutedMessage → Type 0
IsFramed msg =
    (msg.timestamp_us < 2 ^ 64) × (frame_size msg.serialized_bytes ≡ length msg.serialized_bytes)

from_be-append :
    (xs : List ℕ) (b high : ℕ) → from_be high (xs ++ (b ∷ [])) ≡ from_be high xs * 256 + b
from_be-append [] b high = refl
from_be-append (x ∷ xs) b high = from_be-append xs b (high * 256 + x)

from_be-be_bytes : (count n : ℕ) → n < 256 ^ count → from_be 0 (be_bytes count n) ≡ n
unfolding be_bytes
from_be-be_bytes zero n h = omega (arith, h)
from_be-be_bytes (suc count) n h =
    let grown : 256 ^ suc count ≡ 256 * 256 ^ count = pow-succ' 256 count in
    let low : n / 256 < 256 ^ count = omega (arith, h, grown) in
    omega (
      arith,
      from_be-append (be_bytes count (n / 256)) (n % 256) 0,
      from_be-be_bytes count (n / 256) low,
    )

length-be_bytes : (count n : ℕ) → length (be_bytes count n) ≡ count
unfolding be_bytes
length-be_bytes zero n = refl
length-be_bytes (suc count) n = omega (
  arith,
  length-append (be_bytes count (n / 256)) (n % 256 ∷ []),
  length-be_bytes count (n / 256),
)

module _ {ℓ} {A : Type ℓ} where
  take-append : (n : ℕ) (xs ys : List A) → length xs ≡ n → take n (xs ++ ys) ≡ xs
  take-append zero [] ys e = refl
  take-append zero (x ∷ xs) ys e = absurd (omega (arith, e))
  take-append (suc n) [] ys e = absurd (omega (arith, e))
  take-append (suc n) (x ∷ xs) ys e = ap (◌∷◌ x) (take-append n xs ys (omega (arith, e)))

  drop-append : (n : ℕ) (xs ys : List A) → length xs ≡ n → drop n (xs ++ ys) ≡ ys
  drop-append zero [] ys e = refl
  drop-append zero (x ∷ xs) ys e = absurd (omega (arith, e))
  drop-append (suc n) [] ys e = absurd (omega (arith, e))
  drop-append (suc n) (x ∷ xs) ys e = drop-append n xs ys (omega (arith, e))

get_or-append : (xs ys : List ℕ) (i : ℕ) → i < length xs → get_or (xs ++ ys) i 0 ≡ get_or xs i 0
get_or-append [] ys i h = absurd (omega (arith, h))
get_or-append (x ∷ xs) ys zero h = refl
get_or-append (x ∷ xs) ys (suc i) h = get_or-append xs ys i (omega (arith, h))

frame_size-low : (bytes : List ℕ) → 8 ≤ frame_size bytes
unfolding frame_size
frame_size-low bytes = ground arith

frame_size-same :
    (xs ys : List ℕ)
    → get_or xs 0 0 ≡ get_or ys 0 0
    → get_or xs 1 0 ≡ get_or ys 1 0
    → get_or xs 2 0 ≡ get_or ys 2 0
    → frame_size xs ≡ frame_size ys
unfolding frame_size
frame_size-same xs ys first second third = rw (first, second, third) refl

frame_size-append : (xs ys : List ℕ) → frame_size xs ≡ length xs → frame_size (xs ++ ys) ≡ length xs
frame_size-append xs ys e =
    let long = frame_size-low xs in
    let first = get_or-append xs ys 0 (omega (arith, e, long)) in
    let second = get_or-append xs ys 1 (omega (arith, e, long)) in
    let third = get_or-append xs ys 2 (omega (arith, e, long)) in
    frame_size-same (xs ++ ys) xs first second third ∙ e

length-records-le : (msgs : List RoutedMessage) → length msgs ≤ length (records msgs)
length-records-le [] = omega arith
length-records-le (msg ∷ msgs) =
    let stamp = to_be_bytes msg.timestamp_us in
    omega (
      arith,
      length-append stamp (msg.serialized_bytes ++ records msgs),
      length-append msg.serialized_bytes (records msgs),
      length-be_bytes 8 msg.timestamp_us,
      length-records-le msgs,
    )

-- One entry in front of the rest of the log.
read_log-entry :
    (fuel : ℕ) (stamp bytes rest : List ℕ)
    → length stamp ≡ 8
    → frame_size bytes ≡ length bytes
    → read_log (suc fuel) (stamp ++ (bytes ++ rest)) ≡ (from_be 0 stamp, bytes) ∷ read_log fuel rest
unfolding read_log
read_log-entry fuel [] bytes rest eight framed = absurd (omega (arith, eight))
read_log-entry fuel (b ∷ stamp) bytes rest eight framed =
    let all = (b ∷ stamp) ++ (bytes ++ rest) in
    let first = take-append 8 (b ∷ stamp) (bytes ++ rest) eight in
    let behind = drop-append 8 (b ∷ stamp) (bytes ++ rest) eight in
    let size = frame_size-append bytes rest framed in
    let frame : take (frame_size (drop 8 all)) (drop 8 all) ≡ bytes =
      rw (behind, size) (take-append (length bytes) bytes rest refl) in
    let left : drop (frame_size (drop 8 all)) (drop 8 all) ≡ rest =
      rw (behind, size) (drop-append (length bytes) bytes rest refl) in
    ap
      (λ xs.
        (from_be 0 xs, take (frame_size (drop 8 all)) (drop 8 all))
        ∷ read_log fuel (drop (frame_size (drop 8 all)) (drop 8 all)))
      first
    ∙ ap
        (λ xs.
          (from_be 0 (b ∷ stamp), xs) ∷ read_log fuel (drop (frame_size (drop 8 all)) (drop 8 all)))
        frame
    ∙ ap (λ xs. (from_be 0 (b ∷ stamp), bytes) ∷ read_log fuel xs) left

read_log-records :
    (fuel : ℕ) (msgs : List RoutedMessage)
    → length msgs ≤ fuel
    → All IsFramed msgs
    → read_log fuel (records msgs) ≡ map entry msgs
unfolding read_log
read_log-records zero [] enough framed = refl
read_log-records zero (msg ∷ msgs) enough framed = absurd (omega (arith, enough))
read_log-records (suc fuel) [] enough framed = refl
read_log-records (suc fuel) (msg ∷ msgs) enough framed =
    let stamp = to_be_bytes msg.timestamp_us in
    let room : msg.timestamp_us < 256 ^ 8 = framed.0.0 in
    read_log-entry fuel stamp msg.serialized_bytes (records msgs)
      (length-be_bytes 8 msg.timestamp_us) framed.0.1
    ∙ ap (λ n. (n, msg.serialized_bytes) ∷ read_log fuel (records msgs))
        (from_be-be_bytes 8 msg.timestamp_us room)
    ∙ ap (λ es. entry msg ∷ es) (read_log-records fuel msgs (omega (arith, enough)) framed.1)

-- No error has ended the task.
abbrev pub IsGood : Status → Type 0
IsGood running = Unit
IsGood (returned (ok u)) = Unit
IsGood (returned (err e)) = ⊥

module _ {Writer : Type 0} (write_all : Writer → List ℕ → Writer × Bool)
    (flush : Writer → Writer × Bool) (w : IsWriter write_all flush) where
  good-log :
      (path_str : String) (status : Status) (log full : List ℕ)
      → IsGood status
      → Logged path_str status log full
      → log ≡ full
  good-log path_str running log full good k = k
  good-log path_str (returned (ok u)) log full good k = k
  good-log path_str (returned (err e)) log full good k = absurd good

  -- What the task writes to a new file, through a writer as documented, can be read back: if each
  -- message has a 64-bit time stamp and the bytes of one frame, and no error ended the task, a
  -- reader that knows the format (eight bytes of time stamp, most significant first, and a frame
  -- that ends where its header says) finds the time stamps and the frames of exactly the messages
  -- that the task took from the bus, in their order.
  pub read_log-run_loop :
      (path_str : String) (events : List Event) (s : Logger Writer)
      → w.written s.writer ≡ []
      → All IsFramed (taken events)
      → IsGood (run_loop write_all flush path_str events s).1
      → read_log
          (length (w.written (run_loop write_all flush path_str events s).0.writer))
          (w.written (run_loop write_all flush path_str events s).0.writer)
        ≡ map entry (taken events)
  read_log-run_loop path_str events s new framed good =
      let result = run_loop write_all flush path_str events s in
      let full = records (taken events) in
      let log : w.written result.0.writer ≡ full =
        good-log path_str result.1 _ _ good (run_loop-Logged write_all flush w path_str events s).0
        ∙ ap (λ old. old ++ full) new in
      ap (λ bs. read_log (length bs) bs) log
      ∙ read_log-records (length full) (taken events) (length-records-le (taken events)) framed
