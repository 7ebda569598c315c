-- ===== src/Prelude/Sets.antt =====
-- `HashSet`: a list in the order in which the set iterates. An element is added once.
use mathlib.Core.Path.{◌≡◌, refl, subst}
use mathlib.Core.Logic.{inl, inr}
use mathlib.Core.Bool.{Bool, true, false, not, ◌||◌}
use mathlib.Core.List.{List, [], ◌∷◌}
use native.Mathlib.Omega.{arith}
use mavrouter.Prelude.Keys.{Eq, ◌==◌}
use mavrouter.Prelude.Tests.{if◌then◌else◌, Bool-cases}
use mavrouter.Prelude.Lists.{All}

module _ {ℓ} {A : Type ℓ} ⦃e : Eq A⦄ where
  unfoldable pub contains : List A → A → Bool
  contains [] a = false
  contains (x ∷ xs) a = x == a || contains xs a

  -- The set, and whether the element is new.
  unfoldable pub insert : List A → A → List A × Bool
  insert xs a = if contains xs a then (xs, false) else (a ∷ xs, true)

  -- `iter().copied().collect()`.
  unfoldable pub collect : List A → List A
  unfolding insert
  collect [] = []
  collect (x ∷ xs) = (insert (collect xs) x).0

  -- No element stands twice.
  abbrev pub Distinct : List A → Type 0
  Distinct [] = Unit {0}
  Distinct (x ∷ xs) = (contains xs x ≡ false) × Distinct xs

  pub beq_refl : (a : A) → (a == a) ≡ true
  beq_refl a = (e.beq_iff a a).1 refl

  pub contains-insert :
      (xs : List A) (a b : A) → contains (insert xs a).0 b ≡ (a == b || contains xs b)
  unfolding contains insert
  contains-insert xs a b = ground (arith, e.beq_iff a b)

  pub insert_fresh : (xs : List A) (a : A) → (insert xs a).1 ≡ not (contains xs a)
  unfolding insert
  insert_fresh xs a = ground arith

  pub insert-Distinct : (xs : List A) (a : A) → Distinct xs → Distinct (insert xs a).0
  unfolding insert
  insert-Distinct xs a d = ground arith

  pub contains-collect : (xs : List A) (a : A) → contains (collect xs) a ≡ contains xs a
  unfolding collect contains
  contains-collect [] a = refl
  contains-collect (x ∷ xs) a =
      ground (arith, contains-insert (collect xs) x a, contains-collect xs a)

  pub All-contains {κ} :
      (P : A → Type κ) (xs : List A) (a : A) → All P xs → contains xs a ≡ true → P a
  unfolding contains
  All-contains P [] a all h = absurd (ground arith)
  All-contains P (x ∷ xs) a all h = elim (Bool-cases (x == a)) [
    | inl hit ↦ subst P ((e.beq_iff x a).0 hit) all.0
    | inr miss ↦ All-contains P xs a all.1 (ground arith)
  ]
