-- ===== src/Prelude/Text.antt =====
-- Text as the code points of its characters, and numbers in decimal, as `format!` writes them.
use Prim.Native.Nat.{ℕ, zero, suc, ◌+◌, ◌-◌, ◌*◌, ◌/◌, ◌%◌, ◌^◌, ◌<◌}
use Prim.Native.Char.{code}
use Prim.Native.String.{String}
use mathlib.Core.Path.{◌≡◌, refl, ◌∙◌, ap}
use mathlib.Core.Logic.{inl, inr}
use mathlib.Core.Bool.{Bool, true, false, ◌&&◌}
use mathlib.Core.List.{List, [], ◌∷◌, ◌++◌}
use mathlib.Core.Option.{Option, none, some}
use native.Mathlib.Omega.{arith}
use mavrouter.Prelude.Tests.{leb, ltb, nat_beq, Bool-cases, if◌then◌else◌}

abbrev pub Text : Type 0
Text = List ℕ

abbrev pub codes : String → Text
codes String.[] = []
codes (String.◌∷◌ c s) = code c ∷ codes s

abbrev pub is_digit : ℕ → Bool
is_digit c = leb b'0' c && leb c b'9'

-- The digits of a number in front of a text, the last one first, on fuel: a digit costs one.
unfoldable pub digits : ℕ → ℕ → Text → Text
digits zero n out = out
digits (suc fuel) n out =
    let shown = (b'0' + n % 10) ∷ out in
    let rest = digits fuel (n / 10) shown in if ltb n 10 then shown else rest

-- Twenty digits are enough for 64 bits.
abbrev pub max_digits : ℕ
max_digits = 20

unfoldable pub to_string : ℕ → Text
to_string n = digits max_digits n []

-- The number that starts with `n`, and what stands behind its digits.
unfoldable pub scan : Text → ℕ → ℕ × Text
scan [] n = (n, [])
scan (c ∷ s) n = let rest = scan s (n * 10 + (c - b'0')) in if is_digit c then rest else (n, c ∷ s)

abbrev pub NoDigit : Text → Type 0
NoDigit [] = Unit
NoDigit (c ∷ s) = is_digit c ≡ false

digits-append : (fuel n : ℕ) (out s : Text) → digits fuel n out ++ s ≡ digits fuel n (out ++ s)
unfolding digits
digits-append zero n out s = refl
digits-append (suc fuel) n out s = elim (Bool-cases (ltb n 10)) [
  | inl small ↦ rw small refl
  | inr large ↦ rw large (digits-append fuel (n / 10) ((b'0' + n % 10) ∷ out) s)
]

is_digit-digit : (n : ℕ) → is_digit (b'0' + n % 10) ≡ true
is_digit-digit n = ground arith

scan-digit : (n k : ℕ) (out : Text) → scan ((b'0' + n % 10) ∷ out) k ≡ scan out (k * 10 + n % 10)
unfolding scan
scan-digit n k out =
    let same : k * 10 + (48 + n % 10 - 48) ≡ k * 10 + n % 10 = omega arith in
    rw (is_digit-digit n) (ap (λ m. scan out m) same)

scan-digits : (fuel n : ℕ) (out : Text) → n < 10 ^ fuel → scan (digits fuel n out) 0 ≡ scan out n
unfolding digits
scan-digits zero n out h = ap (λ m. scan out m) (omega (arith, h))
scan-digits (suc fuel) n out h = elim (Bool-cases (ltb n 10)) [
  | inl small ↦
      let all : 0 * 10 + n % 10 ≡ n = ground (arith, small) in
      rw (small, scan-digit n 0 out) (ap (λ m. scan out m) all)
  | inr large ↦
      let fewer : n / 10 < 10 ^ fuel = omega (arith, h) in
      let all : n / 10 * 10 + n % 10 ≡ n = omega arith in
      rw large (
        scan-digits fuel (n / 10) ((b'0' + n % 10) ∷ out) fewer
        ∙ scan-digit n (n / 10) out
        ∙ ap (λ m. scan out m) all)
]

-- The number in front of a text, if there is one.
unfoldable pub read_number : Text → Option (ℕ × Text)
read_number [] = none
read_number (c ∷ s) = if is_digit c then some (scan (c ∷ s) 0) else none

-- `expect p s` drops `p` from the front of `s`.
abbrev pub expect : Text → Text → Option Text
expect [] s = some s
expect (c ∷ p) [] = none
expect (c ∷ p) (d ∷ s) = let rest = expect p s in if nat_beq c d then rest else none

abbrev pub bind_option {ℓ κ} : {A : Type ℓ} {B : Type κ} → Option A → (A → Option B) → Option B
bind_option none f = none
bind_option (some a) f = f a

-- A label, and the number behind it.
unfoldable pub read_field : Text → Text → Option (ℕ × Text)
read_field label s = bind_option (expect label s) read_number

scan-stop : (s : Text) (n : ℕ) → NoDigit s → scan s n ≡ (n, s)
unfolding scan
scan-stop [] n h = refl
scan-stop (c ∷ s) n h = rw h refl

-- The digits start with a digit.
digits-head :
    (fuel n : ℕ) (out : Text)
    → (c : ℕ) × (s : Text) × (digits (suc fuel) n out ≡ c ∷ s) × (is_digit c ≡ true)
unfolding digits
digits-head zero n out = elim (Bool-cases (ltb n 10)) [
  | inl small ↦ (b'0' + n % 10, out, rw small refl, is_digit-digit n)
  | inr large ↦ (b'0' + n % 10, out, rw large refl, is_digit-digit n)
]
digits-head (suc fuel) n out = elim (Bool-cases (ltb n 10)) [
  | inl small ↦ (b'0' + n % 10, out, rw small refl, is_digit-digit n)
  | inr large ↦
      let (c, s, starts, digit) = digits-head fuel (n / 10) ((b'0' + n % 10) ∷ out) in
      (c, s, rw large starts, digit)
]

read_number-starts :
    (t : Text) (c : ℕ) (s : Text) → t ≡ c ∷ s → is_digit c ≡ true → read_number t ≡ some (scan t 0)
unfolding read_number
read_number-starts t c s e digit = rw (e, digit) refl

-- A number of 64 bits is read back from what is written, if no digit follows.
pub read_number-to_string :
    (n : ℕ) (s : Text) → n < 2 ^ 64 → NoDigit s → read_number (to_string n ++ s) ≡ some (n, s)
unfolding to_string
read_number-to_string n s h stop =
    let written = digits-append max_digits n [] s in
    let (c, more, starts, digit) = digits-head 19 n s in
    let value = scan-digits max_digits n s (omega (arith, h)) ∙ scan-stop s n stop in
    rw written (read_number-starts (digits max_digits n s) c more starts digit ∙ ap some value)

pub read_field-to_string :
    (label : Text) (n : ℕ) (s : Text)
    → n < 2 ^ 64
    → NoDigit s
    → read_field label (label ++ (to_string n ++ s)) ≡ some (n, s)
unfolding read_field
read_field-to_string [] n s h stop = read_number-to_string n s h stop
read_field-to_string (c ∷ label) n s h stop =
    let same : nat_beq c c ≡ true = ground arith in rw same (read_field-to_string label n s h stop)
