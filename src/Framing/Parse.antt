-- ===== src/Framing/Parse.antt =====
-- What a call takes from the buffer.
use mavrouter.Prelude.{
  ℕ, zero, suc, refl, sym, ap, subst, inl, inr, true, false, Option, none, some, List, [], arith,
  Bool-cases, Option-cases, length, get_or, take, drop, length-drop, take-append-drop, ◌+◌, ◌<◌,
  All, ◌≡◌, ◌≢◌, ◌∙◌, ◌⊎◌, ◌||◌, ◌∷◌, ◌++◌, nat_eq,
}
use mathlib.Core.List.{append-nil}
use mavrouter.Mavlink.{v1, v2}
use mavrouter.Filter.{is_empty}
use mavrouter.Framing.{
  MavlinkFrame, ReadResult, ok, err, is_eof, MessageReadError, after_v2, split_frame, parse_loop,
  parse_next,
}

abbrev pub IsNeither : ℕ → ℕ → ℕ → Type 0
IsNeither a b x = (x ≢ a) × (x ≢ b)

-- `memchr2` as documented: the index of the first byte that is one of the two.
pub record IsMemchr2 (memchr2 : ℕ → ℕ → List ℕ → Option ℕ) : Type 0 where
  pub inside : (a b : ℕ) (xs : List ℕ) (i : ℕ) → memchr2 a b xs ≡ some i → i < length xs
  pub hit :
      (a b : ℕ) (xs : List ℕ) (i : ℕ)
      → memchr2 a b xs ≡ some i
      → (get_or xs i 0 ≡ a) ⊎ (get_or xs i 0 ≡ b)
  pub first :
      (a b : ℕ) (xs : List ℕ) (i : ℕ) → memchr2 a b xs ≡ some i → All (IsNeither a b) (take i xs)
  pub absent : (a b : ℕ) (xs : List ℕ) → memchr2 a b xs ≡ none → All (IsNeither a b) xs

-- The start byte of either version.
abbrev pub IsStart : ℕ → Type 0
IsStart b = (b ≡ 0xFD) ⊎ (b ≡ 0xFE)

module _ (read_v2_msg read_v1_msg : List ℕ → ReadResult) where
  -- What is left when there is no frame: nothing, or bytes on which a reader wants more.
  abbrev pub Waits : List ℕ → Type 0
  Waits rest =
      (rest ≡ [])
      ⊎ ((e : MessageReadError) × (e_v1 : MessageReadError) × (read_v2_msg rest ≡ err e)
          × (read_v1_msg rest ≡ err e_v1)
          × ((is_eof e || is_eof e_v1) ≡ true))

  -- The frame is what a reader read at bytes that begin with a start byte: version 2 first.
  abbrev pub ReadAt : MavlinkFrame → List ℕ → Type 0
  ReadAt f bytes =
      (len : ℕ) × (f.raw_bytes ≡ take len bytes)
      × IsStart (get_or bytes 0 0)
      × (((f.version ≡ v2) × (read_v2_msg bytes ≡ ok f.header f.message len))
          ⊎ ((f.version ≡ v1)
              × (read_v1_msg bytes ≡ ok f.header f.message len)
              × ((e : MessageReadError) × (read_v2_msg bytes ≡ err e))))

  -- Bytes that both readers refuse, without wanting more.
  abbrev pub Refused : List ℕ → Type 0
  Refused bytes =
      (e : MessageReadError) × (e_v1 : MessageReadError) × (read_v2_msg bytes ≡ err e)
      × (read_v1_msg bytes ≡ err e_v1)
      × ((is_eof e || is_eof e_v1) ≡ false)

  -- Skipped bytes, in front of others: wherever a start byte stands, both readers refuse.
  abbrev pub NoFrame : List ℕ → List ℕ → Type 0
  NoFrame [] rest = Unit
  NoFrame (b ∷ skipped) rest = (IsStart b → Refused (b ∷ (skipped ++ rest))) × NoFrame skipped rest

  -- What a call returns: the buffer is some skipped bytes, the frame's bytes, and the rest.
  abbrev pub Takes : List ℕ → List ℕ × Option MavlinkFrame → Type 0
  Takes buffer (rest, none) =
      (skipped : List ℕ) × (buffer ≡ skipped ++ rest) × NoFrame skipped rest × Waits rest
  Takes buffer (rest, some f) =
      (skipped : List ℕ) × (buffer ≡ skipped ++ (f.raw_bytes ++ rest))
      × NoFrame skipped (f.raw_bytes ++ rest)
      × ReadAt f (f.raw_bytes ++ rest)

  Takes-cons :
      (b : ℕ) (buffer : List ℕ) (out : List ℕ × Option MavlinkFrame)
      → (IsStart b → Refused (b ∷ buffer))
      → Takes buffer out
      → Takes (b ∷ buffer) out
  Takes-cons b buffer (rest, none) refused (skipped, split, no_frame, waits) = (
    b ∷ skipped,
    ap (◌∷◌ b) split,
    (λ start. subst (λ bs. Refused (b ∷ bs)) split (refused start), no_frame),
    waits,
  )
  Takes-cons b buffer (rest, some f) refused (skipped, split, no_frame, read) = (
    b ∷ skipped,
    ap (◌∷◌ b) split,
    (λ start. subst (λ bs. Refused (b ∷ bs)) split (refused start), no_frame),
    read,
  )

  no_start : (b : ℕ) (bytes : List ℕ) → IsNeither 0xFD 0xFE b → IsStart b → Refused bytes
  no_start b bytes (not_v2, not_v1) (inl start) = absurd (not_v2 start)
  no_start b bytes (not_v2, not_v1) (inr start) = absurd (not_v1 start)

  no_starts : (xs rest : List ℕ) → All (IsNeither 0xFD 0xFE) xs → NoFrame xs rest
  no_starts [] rest all = tt
  no_starts (x ∷ xs) rest all = (no_start x _ all.0, no_starts xs rest all.1)

  Takes-append :
      (xs buffer : List ℕ) (out : List ℕ × Option MavlinkFrame)
      → All (IsNeither 0xFD 0xFE) xs
      → Takes buffer out
      → Takes (xs ++ buffer) out
  Takes-append [] buffer out all t = t
  Takes-append (x ∷ xs) buffer out all t =
      Takes-cons x _ out (no_start x _ all.0) (Takes-append xs buffer out all.1 t)

  -- A round that does not go on ends with what it read; one that goes on ends as the next does.
  round-ends :
      (b : ℕ) (bs : List ℕ) (res_v2 res_v1 : ReadResult) (next : List ℕ × Option MavlinkFrame)
      → IsStart b
      → read_v2_msg (b ∷ bs) ≡ res_v2
      → read_v1_msg (b ∷ bs) ≡ res_v1
      → Takes bs next
      → (out : List ℕ × Option MavlinkFrame) × (after_v2 (b ∷ bs) res_v2 res_v1 (some next)
          ≡ some out)
        × Takes (b ∷ bs) out
  unfolding after_v2
  round-ends b bs (ok header message len) res_v1 next start e2 e1 t = (
    split_frame (b ∷ bs) header message v2 len,
    refl,
    (
      [],
      sym (take-append-drop len (b ∷ bs)),
      tt,
      rw (take-append-drop len (b ∷ bs)) (len, refl, start, inl (refl, e2)),
    ),
  )
  round-ends b bs (err e) (ok header message len) next start e2 e1 t = (
    split_frame (b ∷ bs) header message v1 len,
    refl,
    (
      [],
      sym (take-append-drop len (b ∷ bs)),
      tt,
      rw (take-append-drop len (b ∷ bs)) (len, refl, start, inr (refl, e1, (e, e2))),
    ),
  )
  round-ends b bs (err e) (err e_v1) next start e2 e1 t =
      elim (Bool-cases (is_eof e || is_eof e_v1)) [
        | inl eof ↦ ((b ∷ bs, none), rw eof refl, ([], refl, tt, inr (e, e_v1, e2, e1, eof)))
        | inr bad ↦ (next, rw bad refl, Takes-cons b bs next (λ start. (e, e_v1, e2, e1, bad)) t)
      ]

drop-get_or : (xs : List ℕ) (i : ℕ) → i < length xs → drop i xs ≡ get_or xs i 0 ∷ drop (suc i) xs
drop-get_or [] i h = absurd (omega arith)
drop-get_or (x ∷ xs) zero h = refl
drop-get_or (x ∷ xs) (suc i) h = drop-get_or xs i (omega arith)

module _ (memchr2 : ℕ → ℕ → List ℕ → Option ℕ) (read_v2_msg read_v1_msg : List ℕ → ReadResult)
    (search : IsMemchr2 memchr2) where
  loop-ends :
      (fuel : ℕ) (buffer : List ℕ)
      → length buffer < fuel
      → (out : List ℕ × Option MavlinkFrame) × (parse_loop memchr2 read_v2_msg read_v1_msg fuel
            buffer
          ≡ some out)
        × Takes read_v2_msg read_v1_msg buffer out
  unfolding parse_loop is_empty
  loop-ends zero buffer h = absurd (omega arith)
  loop-ends (suc fuel) [] h = (([], none), refl, ([], refl, tt, inl refl))
  loop-ends (suc fuel) (b ∷ bs) h =
      let buffer = b ∷ bs in
      elim (Option-cases (memchr2 0xFD 0xFE buffer)) [
        | inl e ↦ (
          ([], none),
          rw e refl,
          (
            buffer,
            sym (append-nil buffer),
            no_starts read_v2_msg read_v1_msg buffer [] (search.absent 0xFD 0xFE buffer e),
            inl refl,
          ),
        )
        | inr (i, e) ↦
            let low : i < length buffer = search.inside 0xFD 0xFE buffer i e in
            let first = get_or buffer i 0 in
            let later = drop (suc i) buffer in
            let at : drop i buffer ≡ first ∷ later = drop-get_or buffer i low in
            let (next, ends, t) =
              loop-ends fuel later (omega (arith, length-drop (suc i) buffer, low, h)) in
            let (out, r, u) =
              round-ends read_v2_msg read_v1_msg first later _ _ next
                (search.hit 0xFD 0xFE buffer i e) refl refl t in
            (
              out,
              rw (e, at, ends) r,
              subst (λ xs. Takes read_v2_msg read_v1_msg xs out)
                  (ap (λ xs. take i buffer ++ xs) (sym at) ∙ take-append-drop i buffer)
                  (Takes-append read_v2_msg read_v1_msg (take i buffer) (first ∷ later) out
                    (search.first 0xFD 0xFE buffer i e) u),
            )
      ]

  -- For any two readers, and a byte search that finds the first start byte, the parser's loop ends
  -- on every buffer, within one round more than the buffer has bytes. The buffer is then some
  -- skipped bytes, the bytes of the frame if there is one, and the new buffer, in this order. No
  -- frame is skipped: at each start byte that is, both readers refuse, and neither wants more. A
  -- frame is what the reader of its version read at a start byte, version 1 only where version 2
  -- failed; without a frame the new buffer is empty or holds bytes of which a reader wants more.
  pub parse_next-Takes :
      (buffer : List ℕ)
      → (out : List ℕ × Option MavlinkFrame) × (parse_next memchr2 read_v2_msg read_v1_msg buffer
          ≡ some out)
        × Takes read_v2_msg read_v1_msg buffer out
  unfolding parse_next
  parse_next-Takes buffer = loop-ends (length buffer + 1) buffer (omega arith)
