-- ===== src/Prelude/Pigeonhole.antt =====
-- How many entries a map can hold whose keys have distinct codes below a bound.
use Prim.Native.Nat.{ℕ, zero, suc, ◌+◌, ◌≤◌, ◌<◌}
use mathlib.Core.Path.{◌≡◌, refl, subst}
use mathlib.Core.Logic.{inl, inr}
use mathlib.Core.Bool.{Bool, not}
use mathlib.Core.List.{List, [], ◌∷◌}
use mathlib.Core.Option.{none}
use native.Mathlib.Omega.{arith}
use mavrouter.Prelude.Keys.{Eq, ◌==◌}
use mavrouter.Prelude.Tests.{Bool-cases, nat_beq, nat_beq_iff}
use mavrouter.Prelude.Lists.{length, All}
use mavrouter.Prelude.Maps.{retain, lookup, DistinctKeys, retain-DistinctKeys, retain-All}

module _ {ℓ} {K V : Type ℓ} ⦃e : Eq K⦄ (P : K → Type 0) (code : K → ℕ)
    (injective : (a b : K) → P a → P b → code a ≡ code b → a ≡ b) where
  abbrev Holds : List (K × V) → Type 0
  Holds = All (λ x. P x.0)

  abbrev differs : ℕ → K × V → Bool
  differs n x = not (nat_beq (code x.0) n)

  -- A key that a map lacks has a code that the map lacks.
  length-retain_absent :
      (k : K) (m : List (K × V))
      → P k
      → Holds m
      → lookup k m ≡ none
      → length (retain (differs (code k)) m) ≡ length m
  unfolding retain lookup
  length-retain_absent k [] p all h = refl
  length-retain_absent k ((j, v) ∷ m) p all h = elim (Bool-cases (j == k)) [
    | inl hit ↦ absurd (ground arith)
    | inr miss ↦ elim (Bool-cases (nat_beq (code j) (code k))) [
      | inl same ↦
          let eq : j ≡ k = injective j k all.0 p (ground arith) in
          absurd (ground (arith, (e.beq_iff j k).1 eq))
      | inr other ↦ ground (arith, length-retain_absent k m p all.1)
    ]
  ]

  length-retain_one :
      (n : ℕ) (m : List (K × V))
      → Holds m
      → DistinctKeys m
      → length m ≤ length (retain (differs n) m) + 1
  unfolding retain
  length-retain_one n [] all d = omega arith
  length-retain_one n ((j, v) ∷ m) all d = elim (Bool-cases (nat_beq (code j) n)) [
    | inl hit ↦
        let alone : length (retain (differs n) m) ≡ length m =
          subst (λ t. length (retain (differs t) m) ≡ length m) ((nat_beq_iff (code j) n).0 hit)
            (length-retain_absent j m all.0 all.1 d.0) in
        ground (arith, alone)
    | inr miss ↦ ground (arith, length-retain_one n m all.1 d.1)
  ]

  retain_below :
      (n : ℕ) (m : List (K × V))
      → All (λ x. code x.0 < suc n) m
      → All (λ x. code x.0 < n) (retain (differs n) m)
  unfolding retain
  retain_below n [] all = tt
  retain_below n ((j, v) ∷ m) all = ground (arith, retain_below n m all.1)

  pub length-le_of_codes :
      (n : ℕ) (m : List (K × V))
      → Holds m
      → DistinctKeys m
      → All (λ x. code x.0 < n) m
      → length m ≤ n
  length-le_of_codes zero [] all d below = omega arith
  length-le_of_codes zero (x ∷ m) all d below = absurd (omega arith)
  length-le_of_codes (suc n) m all d below =
      let rest = retain (differs n) m in
      let ih =
        length-le_of_codes n rest (retain-All (λ x. P x.0) (differs n) m all)
          (retain-DistinctKeys (differs n) m d) (retain_below n m below) in
      omega (arith, ih, length-retain_one n m all d)
