-- ===== src/Prelude/Keys.antt =====
-- Types with a Boolean equality: what a hash map or a hash set asks of its keys.
use Prim.Native.Nat.{ℕ}
use Prim.Native.String.{String}
use mathlib.Core.Path.{◌≡◌}
use mathlib.Core.Logic.{◌↔◌}
use mathlib.Core.Bool.{Bool, true, ◌&&◌}
use native.Mathlib.Omega.{arith}
use text.Mathlib.Text.{◌==◌ as str_eq}
use text.Mathlib.TextEquality.{eq_iff}
use mavrouter.Prelude.Tests.{nat_beq, nat_beq_iff}

pub record Eq {ℓ} (A : Type ℓ) : Type ℓ where
  pub beq : A → A → Bool
  pub beq_iff : (a b : A) → (beq a b ≡ true) ↔ (a ≡ b)

-- Pairs of numbers: the keys of the component routes.
abbrev pair_beq : ℕ × ℕ → ℕ × ℕ → Bool
pair_beq (a, b) (c, d) = nat_beq a c && nat_beq b d

pub pair_beq_iff : (p q : ℕ × ℕ) → (pair_beq p q ≡ true) ↔ (p ≡ q)
pair_beq_iff (a, b) (c, d) = ground arith

instance abbrev pub pair_eq : Eq (ℕ × ℕ)
pair_eq = record { beq = pair_beq; beq_iff = pair_beq_iff }

-- System ids, endpoint ids and hashes.
instance abbrev pub nat_eq : Eq ℕ
nat_eq = record { beq = nat_beq; beq_iff = nat_beq_iff }

-- A protocol with a port.
abbrev name_beq : String × ℕ → String × ℕ → Bool
name_beq (a, b) (c, d) = str_eq a c && nat_beq b d

pub name_beq_iff : (p q : String × ℕ) → (name_beq p q ≡ true) ↔ (p ≡ q)
name_beq_iff (a, b) (c, d) = ground (arith, eq_iff a c)

instance abbrev pub name_eq : Eq (String × ℕ)
name_eq = record { beq = name_beq; beq_iff = name_beq_iff }

-- Names of groups.
instance abbrev pub string_eq : Eq String
string_eq = record { beq_iff = eq_iff; beq = str_eq }

infix 50 ◌==◌
abbrev pub ◌==◌ {ℓ} : {A : Type ℓ} ⦃e : Eq A⦄ → A → A → Bool
◌==◌ ⦃e⦄ = e.beq
