-- ===== src/Examples/Streams.antt =====
-- The parser at concrete inputs: a byte search by clauses, and readers of a three-byte frame.
use mavrouter.Prelude.{
  ℕ, zero, suc, inl, inr, Option, none, some, List, [], arith, Bool-cases, Option-cases, length,
  get_or, drop, ◌+◌, ◌-◌, ◌≤◌, ◌<◌, ◌≡◌, take, All, ◌⊎◌, ◌||◌, ◌∷◌, ◌==◌, if◌then◌else◌, nat_eq,
}
use mavrouter.Mavlink.{command_ack}
use mavrouter.Framing.{
  MavlinkFrame, ReadResult, ok, err, io, unexpected_eof, parse, max_buffer_size, push, parse_next,
}
use mavrouter.Framing.Push.{push-newest}
use mavrouter.Framing.Parse.{IsNeither, IsMemchr2, Takes, parse_next-Takes}
use mavrouter.Examples.Settings.{header}

abbrev later : Option ℕ → Option ℕ
later none = none
later (some i) = some (i + 1)

unfoldable pub memchr2 : ℕ → ℕ → List ℕ → Option ℕ
memchr2 a b [] = none
memchr2 a b (x ∷ xs) = if x == a || x == b then some 0 else later (memchr2 a b xs)

pub memchr2-inside : (a b : ℕ) (xs : List ℕ) (i : ℕ) → memchr2 a b xs ≡ some i → i < length xs
unfolding memchr2
memchr2-inside a b [] i h = absurd (ground arith)
memchr2-inside a b (x ∷ xs) i h = elim (Option-cases (memchr2 a b xs)) [
  | inl absent ↦ ground arith
  | inr (j, found) ↦ ground (arith, memchr2-inside a b xs j found)
]

pub memchr2-hit :
    (a b : ℕ) (xs : List ℕ) (i : ℕ)
    → memchr2 a b xs ≡ some i
    → (get_or xs i 0 ≡ a) ⊎ (get_or xs i 0 ≡ b)
unfolding memchr2
memchr2-hit a b [] i h = absurd (ground arith)
memchr2-hit a b (x ∷ xs) zero h = elim (Bool-cases (x == a)) [
  | inl first ↦ inl (ground arith)
  | inr not_first ↦ elim (Bool-cases (x == b)) [
    | inl other ↦ inr (ground arith)
    | inr neither ↦ elim (Option-cases (memchr2 a b xs)) [
      | inl absent ↦ absurd (ground arith)
      | inr (j, found) ↦ absurd (ground arith)
    ]
  ]
]
memchr2-hit a b (x ∷ xs) (suc i) h = elim (Bool-cases (x == a || x == b)) [
  | inl hit ↦ absurd (ground arith)
  | inr miss ↦ elim (Option-cases (memchr2 a b xs)) [
    | inl absent ↦ absurd (ground arith)
    | inr (j, found) ↦ memchr2-hit a b xs i (ground arith)
  ]
]

pub memchr2-absent : (a b : ℕ) (xs : List ℕ) → memchr2 a b xs ≡ none → All (IsNeither a b) xs
unfolding memchr2
memchr2-absent a b [] h = tt
memchr2-absent a b (x ∷ xs) h = elim (Bool-cases (x == a || x == b)) [
  | inl hit ↦ absurd (ground arith)
  | inr miss ↦ elim (Option-cases (memchr2 a b xs)) [
    | inl absent ↦ ((ground (arith, miss), ground (arith, miss)), memchr2-absent a b xs absent)
    | inr (j, found) ↦ absurd (ground arith)
  ]
]

pub memchr2-first :
    (a b : ℕ) (xs : List ℕ) (i : ℕ) → memchr2 a b xs ≡ some i → All (IsNeither a b) (take i xs)
unfolding memchr2
memchr2-first a b [] i h = absurd (ground arith)
memchr2-first a b (x ∷ xs) zero h = tt
memchr2-first a b (x ∷ xs) (suc i) h = elim (Bool-cases (x == a || x == b)) [
  | inl hit ↦ absurd (ground arith)
  | inr miss ↦ elim (Option-cases (memchr2 a b xs)) [
    | inl absent ↦ absurd (ground arith)
    | inr (j, found) ↦
        ((ground (arith, miss), ground (arith, miss)), memchr2-first a b xs i (ground arith))
  ]
]

abbrev pub search : IsMemchr2 memchr2
search = record {
  inside = memchr2-inside;
  hit = memchr2-hit;
  first = memchr2-first;
  absent = memchr2-absent;
}

-- A frame of three bytes.
abbrev pub read_v2_msg : List ℕ → ReadResult
read_v2_msg [] = err (io unexpected_eof)
read_v2_msg (a ∷ []) = err (io unexpected_eof)
read_v2_msg (a ∷ b ∷ []) = err (io unexpected_eof)
read_v2_msg (a ∷ b ∷ c ∷ rest) = if a == 0xFD then ok header command_ack 3 else err parse

abbrev pub read_v1_msg : List ℕ → ReadResult
read_v1_msg bytes = err parse

abbrev pub noisy : List ℕ
noisy = 5 ∷ 0xFE ∷ 9 ∷ 0xFD ∷ 1 ∷ 2 ∷ 0xFD ∷ []

parse_next-Takes_example :
    (out : List ℕ × Option MavlinkFrame) × (parse_next memchr2 read_v2_msg read_v1_msg noisy
      ≡ some out)
    × Takes read_v2_msg read_v1_msg noisy out
parse_next-Takes_example = parse_next-Takes memchr2 read_v2_msg read_v1_msg search noisy

push-newest_example :
    (push (1 ∷ 2 ∷ []) (3 ∷ []) ≡ drop (2 + 1 - max_buffer_size) (1 ∷ 2 ∷ 3 ∷ []))
    × (length (push (1 ∷ 2 ∷ []) (3 ∷ [])) ≤ max_buffer_size)
push-newest_example = push-newest (1 ∷ 2 ∷ []) (3 ∷ []) (omega arith) (omega arith)
