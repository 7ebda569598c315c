-- ===== src/StreamLoop/Reader.antt =====
-- The frames of what has been read.
use mavrouter.Prelude.{
  ℕ, zero, suc, refl, ap, inl, inr, Option, none, some, List, [], arith, length, length-append,
  length-take, ◌+◌, ◌≤◌, ◌<◌, ◌≡◌, ◌∷◌, ◌++◌, nat_eq,
}
use mavrouter.Framing.{MavlinkFrame, ReadResult, ok, parse_next, push}
use mavrouter.Mavlink.{MavHeader, MavMessage}
use mavrouter.Framing.Parse.{IsMemchr2, NoFrame, Waits, ReadAt, Takes, parse_next-Takes}
use mavrouter.StreamLoop.{drain, frames_of}

-- A reader that returns a message has consumed a byte at least, and no more than there are.
pub record IsReader (read_msg : List ℕ → ReadResult) : Type 0 where
  pub consumes :
      (bytes : List ℕ) {header : MavHeader} {message : MavMessage} {len : ℕ}
      → read_msg bytes ≡ ok header message len
      → (1 ≤ len) × (len ≤ length bytes)

module _ (memchr2 : ℕ → ℕ → List ℕ → Option ℕ) (read_v2_msg read_v1_msg : List ℕ → ReadResult) where
  -- The frames stand in the buffer in this order, with skipped bytes between them, in which no
  -- reader would read a frame; each is what a reader read at its first byte, and what is left holds
  -- no frame yet.
  abbrev pub Tiles : List ℕ → List MavlinkFrame → List ℕ → Type 0
  Tiles buffer [] left =
      (skipped : List ℕ) × (buffer ≡ skipped ++ left)
      × NoFrame read_v2_msg read_v1_msg skipped left
      × Waits read_v2_msg read_v1_msg left
  Tiles buffer (frame ∷ frames) left =
      (skipped : List ℕ) × (rest : List ℕ) × (buffer ≡ skipped ++ (frame.raw_bytes ++ rest))
      × NoFrame read_v2_msg read_v1_msg skipped (frame.raw_bytes ++ rest)
      × ReadAt read_v2_msg read_v1_msg frame (frame.raw_bytes ++ rest)
      × Tiles rest frames left

  module _ (m : IsMemchr2 memchr2) (two : IsReader read_v2_msg) (one : IsReader read_v1_msg) where
    read-long :
        (frame : MavlinkFrame) (bytes : List ℕ)
        → ReadAt read_v2_msg read_v1_msg frame bytes
        → 1 ≤ length frame.raw_bytes
    read-long frame bytes (len, raw, start, inl (version, h)) =
        let (low, high) = two.consumes bytes h in
        omega (arith, ap length raw, length-take len bytes high, low)
    read-long frame bytes (len, raw, start, inr (version, h, failed)) =
        let (low, high) = one.consumes bytes h in
        omega (arith, ap length raw, length-take len bytes high, low)

    -- The loop ends on the buffer, with frames that stand in it.
    abbrev Drained : ℕ → List ℕ → Type 0
    Drained fuel buffer =
        (frames : List MavlinkFrame) × (left : List ℕ) × (drain memchr2 read_v2_msg read_v1_msg fuel
            buffer
          ≡ some (frames, left))
        × Tiles buffer frames left

    drain-next :
        (fuel : ℕ) (buffer : List ℕ) (out : List ℕ × Option MavlinkFrame)
        → length buffer < suc fuel
        → parse_next memchr2 read_v2_msg read_v1_msg buffer ≡ some out
        → Takes read_v2_msg read_v1_msg buffer out
        → ((rest : List ℕ) → length rest < fuel → Drained fuel rest)
        → Drained (suc fuel) buffer
    unfolding drain
    drain-next fuel buffer (rest, none) enough e takes more = rw e ([], rest, refl, takes)
    drain-next fuel buffer (rest, some frame) enough e (skipped, split, no_frame, read) more =
        let long = read-long frame (frame.raw_bytes ++ rest) read in
        let shorter : length rest < fuel = omega (
          arith,
          enough,
          long,
          ap length split,
          length-append skipped (frame.raw_bytes ++ rest),
          length-append frame.raw_bytes rest,
        ) in
        let (frames, left, drained, tiles) = more rest shorter in
        rw (e, drained) (frame ∷ frames, left, refl, (skipped, rest, split, no_frame, read, tiles))

    drain-Tiles : (fuel : ℕ) (buffer : List ℕ) → length buffer < fuel → Drained fuel buffer
    drain-Tiles zero buffer enough = absurd (omega (arith, enough))
    drain-Tiles (suc fuel) buffer enough =
        let (out, e, takes) = parse_next-Takes memchr2 read_v2_msg read_v1_msg m buffer in
        drain-next fuel buffer out enough e takes (drain-Tiles fuel)

    -- With a byte search as documented and readers that consume at least a byte and no more than
    -- there are: after each read the loop over the parser ends, with the fuel of one round more than the buffer
    -- has bytes: it gives frames that stand in the buffer one after the other, each as a reader
    -- read it, and keeps the bytes behind them, which hold no complete frame.
    pub frames_of-Tiles :
        (buffer buf : List ℕ)
        → (frames : List MavlinkFrame) × (left : List ℕ) × (frames_of memchr2 read_v2_msg
              read_v1_msg buffer buf
            ≡ some (frames, left))
          × Tiles (push buffer buf) frames left
    unfolding frames_of
    frames_of-Tiles buffer buf =
        drain-Tiles (length (push buffer buf) + 1) (push buffer buf) (omega arith)
