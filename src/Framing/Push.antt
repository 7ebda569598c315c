-- ===== src/Framing/Push.antt =====
-- What the buffer holds after a push.
use mavrouter.Prelude.{
  ℕ, zero, suc, refl, List, [], arith, usize_max, length, drop, length-append, length-drop, ◌+◌,
  ◌-◌, ◌≤◌, ◌<◌, ◌≡◌, ◌∷◌, ◌++◌, nat_eq,
}
use mavrouter.Framing.{max_buffer_size, push}

drop-append_lem : (n : ℕ) (xs ys : List ℕ) → n ≤ length xs → drop n (xs ++ ys) ≡ drop n xs ++ ys
drop-append_lem zero xs ys h = refl
drop-append_lem (suc n) [] ys h = absurd (omega arith)
drop-append_lem (suc n) (x ∷ xs) ys h = drop-append_lem n xs ys (omega arith)

-- As long as a chunk is at most one mebibyte long, and the buffer was, a push keeps the newest
-- mebibyte of the buffer followed by the chunk, and drops only the bytes before it.
pub push-newest :
    (buffer bytes : List ℕ)
    → length bytes ≤ max_buffer_size
    → length buffer ≤ max_buffer_size
    → (push buffer bytes ≡ drop (length buffer + length bytes - max_buffer_size) (buffer ++ bytes))
      × (length (push buffer bytes) ≤ max_buffer_size)
unfolding push
push-newest buffer bytes h k =
    let over = length buffer + length bytes - max_buffer_size in
    let kept = length-append (drop over buffer) bytes in
    let all = length-append buffer bytes in
    ground
      (arith, drop-append_lem over buffer bytes (omega arith), length-drop over buffer, kept, all)

-- A chunk longer than one mebibyte replaces the buffer and exceeds the bound.
pub push-oversize :
    (buffer bytes : List ℕ)
    → max_buffer_size < length bytes
    → length buffer + length bytes ≤ usize_max
    → push buffer bytes ≡ bytes
unfolding push
push-oversize buffer bytes h k = ground arith
