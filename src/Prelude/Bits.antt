-- ===== src/Prelude/Bits.antt =====
-- The mask 15 is a remainder: from the digit recursion that `&` stands for, one digit at a time.
use Prim.Native.Nat.{ℕ, zero, suc, ◌/◌, ◌%◌, ◌≤◌, min, bit_and, digits, bit_and-bitwise}
use mathlib.Core.Path.{◌≡◌, refl}
use native.Mathlib.Omega.{arith}

-- `a & mask`, with the fuel of the recursion shown.
abbrev masked : ℕ → ℕ → ℕ → ℕ
masked fuel a mask = digits (λ rest. zero) min fuel a mask

masked_nothing : (fuel a : ℕ) → a ≤ fuel → masked fuel a 0 ≡ 0
masked_nothing zero zero h = refl
masked_nothing zero (suc a) h = elim h [ ]
masked_nothing (suc fuel) zero h = refl
masked_nothing (suc fuel) (suc a) h = omega (arith, masked_nothing fuel (suc a / 2) (omega arith))

masked_one : (fuel a : ℕ) → a ≤ fuel → masked fuel a 1 ≡ a % 2
masked_one zero zero h = refl
masked_one zero (suc a) h = elim h [ ]
masked_one (suc fuel) zero h = refl
masked_one (suc fuel) (suc a) h = omega (arith, masked_nothing fuel (suc a / 2) (omega arith))

masked_three : (fuel a : ℕ) → a ≤ fuel → masked fuel a 3 ≡ a % 4
masked_three zero zero h = refl
masked_three zero (suc a) h = elim h [ ]
masked_three (suc fuel) zero h = refl
masked_three (suc fuel) (suc a) h = omega (arith, masked_one fuel (suc a / 2) (omega arith))

masked_seven : (fuel a : ℕ) → a ≤ fuel → masked fuel a 7 ≡ a % 8
masked_seven zero zero h = refl
masked_seven zero (suc a) h = elim h [ ]
masked_seven (suc fuel) zero h = refl
masked_seven (suc fuel) (suc a) h = omega (arith, masked_three fuel (suc a / 2) (omega arith))

masked_fifteen : (fuel a : ℕ) → a ≤ fuel → masked fuel a 15 ≡ a % 16
masked_fifteen zero zero h = refl
masked_fifteen zero (suc a) h = elim h [ ]
masked_fifteen (suc fuel) zero h = refl
masked_fifteen (suc fuel) (suc a) h = omega (arith, masked_seven fuel (suc a / 2) (omega arith))

pub bit_and-fifteen : (a : ℕ) → bit_and a 15 ≡ a % 16
bit_and-fifteen a = omega (arith, bit_and-bitwise a 15, masked_fifteen a a (omega arith))
