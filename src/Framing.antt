-- ===== src/Framing.antt =====
-- src/framing.rs: the parser of a byte stream. A buffer is the list of its bytes. The readers of the
-- `mavlink` crate and `memchr2` are parameters; a reader gets the bytes from the cursor on and
-- says how many it consumed.
pub mod Push
pub mod Parse
use mavrouter.Prelude.{
  ℕ, zero, suc, Bool, true, false, Option, none, some, List, [], ltb, leb, saturating_add, length,
  take, drop, ◌+◌, ◌-◌, ◌*◌, ◌||◌, ◌++◌, if◌then◌else◌, nat_eq,
}
use mavrouter.Mavlink.{MavHeader, MavMessage, MavlinkVersion, v1, v2}
use mavrouter.Filter.{is_empty}

abbrev pub max_buffer_size : ℕ
max_buffer_size = 1024 * 1024

pub record MavlinkFrame : Type 0 where
  pub header : MavHeader
  pub message : MavMessage
  pub version : MavlinkVersion
  pub raw_bytes : List ℕ

-- What is kept of the buffer when `overflow` bytes are too many.
abbrev make_room : List ℕ → ℕ → List ℕ
make_room buffer overflow = if leb overflow (length buffer) then drop overflow buffer else []

unfoldable pub push : List ℕ → List ℕ → List ℕ
push buffer bytes =
    let new_len = saturating_add (length buffer) (length bytes) in
    if ltb max_buffer_size new_len
    then make_room buffer (new_len - max_buffer_size) ++ bytes
    else buffer ++ bytes

pub data ErrorKind : Type 0 where
  unexpected_eof : ErrorKind
  other_kind : ErrorKind

-- `mavlink::error::MessageReadError`.
pub data MessageReadError : Type 0 where
  io : ErrorKind → MessageReadError
  parse : MessageReadError

pub data ReadResult : Type 0 where
  ok : (header : MavHeader) (message : MavMessage) (consumed : ℕ) → ReadResult
  err : MessageReadError → ReadResult

unfoldable pub is_eof : MessageReadError → Bool
is_eof (io unexpected_eof) = true
is_eof (io other_kind) = false
is_eof parse = false

-- The frame of the first `len` bytes, and the buffer behind it.
abbrev pub split_frame :
    List ℕ → MavHeader → MavMessage → MavlinkVersion → ℕ → List ℕ × Option MavlinkFrame
split_frame buffer header message version len = (
  drop len buffer,
  some (record {
    header = header;
    message = message;
    version = version;
    raw_bytes = take len buffer;
  }),
)

-- After the reader of version 1: `rest` is the loop's next round.
unfoldable pub after_v1 :
    List ℕ
    → MessageReadError
    → ReadResult
    → Option (List ℕ × Option MavlinkFrame)
    → Option (List ℕ × Option MavlinkFrame)
after_v1 buffer e (ok header message len) rest = some (split_frame buffer header message v1 len)
after_v1 buffer e (err e_v1) rest = if is_eof e || is_eof e_v1 then some (buffer, none) else rest

-- After the reader of version 2.
unfoldable pub after_v2 :
    List ℕ
    → ReadResult
    → ReadResult
    → Option (List ℕ × Option MavlinkFrame)
    → Option (List ℕ × Option MavlinkFrame)
unfolding after_v1
after_v2 buffer (ok header message len) res_v1 rest =
    some (split_frame buffer header message v2 len)
after_v2 buffer (err e) res_v1 rest = after_v1 buffer e res_v1 rest

module _ (memchr2 : ℕ → ℕ → List ℕ → Option ℕ) (read_v2_msg read_v1_msg : List ℕ → ReadResult) where
  -- The loop, on fuel: `none` is a loop that has not ended yet. The bytes before the start byte are
  -- dropped, or all bytes if there is none.
  unfoldable pub parse_loop : ℕ → List ℕ → Option (List ℕ × Option MavlinkFrame)
  unfolding after_v2 is_empty
  parse_loop zero buffer = none
  parse_loop (suc fuel) buffer =
      if is_empty buffer then some (buffer, none) else elim (memchr2 0xFD 0xFE buffer) [
        | none ↦ some ([], none)
        | some idx ↦
            let found = drop idx buffer in
            after_v2 found (read_v2_msg found) (read_v1_msg found) (parse_loop fuel (drop 1 found))
      ]

  unfoldable pub parse_next : List ℕ → Option (List ℕ × Option MavlinkFrame)
  unfolding parse_loop
  parse_next buffer = parse_loop (length buffer + 1) buffer
