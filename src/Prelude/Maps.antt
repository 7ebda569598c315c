-- ===== src/Prelude/Maps.antt =====
-- `HashMap`: an association list in the order in which the map iterates.
use Prim.Native.Nat.{◌≤◌}
use mathlib.Core.Path.{◌≡◌, refl}
use mathlib.Core.Bool.{Bool, true, false}
use mathlib.Core.List.{List, [], ◌∷◌}
use mathlib.Core.Option.{Option, none, some}
use native.Mathlib.Omega.{arith}
use mavrouter.Prelude.Keys.{Eq, ◌==◌}
use mavrouter.Prelude.Tests.{if◌then◌else◌}
use mavrouter.Prelude.Lists.{length, All}

module _ {ℓ κ} {K : Type ℓ} {V : Type κ} where
  -- The first loop of `retain`: the entries that pass, in order.
  unfoldable pub retain : (K × V → Bool) → List (K × V) → List (K × V)
  retain p [] = []
  retain p (x ∷ m) = let rest = retain p m in if p x then x ∷ rest else rest

  pub length-retain-le : (p : K × V → Bool) (m : List (K × V)) → length (retain p m) ≤ length m
  unfolding retain
  length-retain-le p [] = omega arith
  length-retain-le p (x ∷ m) = ground (arith, length-retain-le p m)

  pub retain-All {ι} :
      (P : K × V → Type ι) (p : K × V → Bool) (m : List (K × V)) → All P m → All P (retain p m)
  unfolding retain
  retain-All P p [] all = tt
  retain-All P p (x ∷ m) all =
      elim (p x) as (λ b. All P (if b then x ∷ retain p m else retain p m)) [
        | true ↦ (all.0, retain-All P p m all.1)
        | false ↦ retain-All P p m all.1
      ]

module _ {ℓ κ} {K : Type ℓ} {V : Type κ} ⦃e : Eq K⦄ where
  unfoldable pub lookup : K → List (K × V) → Option V
  lookup k [] = none
  lookup k ((j, v) ∷ m) = if j == k then some v else lookup k m

  unfoldable pub put : K → V → List (K × V) → List (K × V)
  put k v [] = (k, v) ∷ []
  put k v ((j, w) ∷ m) = if j == k then (j, v) ∷ m else (j, w) ∷ put k v m

  unfoldable pub remove : K → List (K × V) → List (K × V)
  remove k [] = []
  remove k ((j, v) ∷ m) = if j == k then m else (j, v) ∷ remove k m

  -- No key stands twice.
  abbrev pub DistinctKeys : List (K × V) → Type κ
  DistinctKeys [] = Unit
  DistinctKeys ((k, v) ∷ m) = (lookup k m ≡ none) × DistinctKeys m

  pub lookup-put :
      (k j : K) (v : V) (m : List (K × V))
      → lookup j (put k v m) ≡ (if k == j then some v else lookup j m)
  unfolding lookup put
  lookup-put k j v [] = refl
  lookup-put k j v ((i, w) ∷ m) =
      ground (arith, e.beq_iff k j, e.beq_iff i k, e.beq_iff i j, lookup-put k j v m)

  pub lookup-remove :
      (k j : K) (m : List (K × V))
      → DistinctKeys m
      → lookup j (remove k m) ≡ (if k == j then none else lookup j m)
  unfolding lookup remove
  lookup-remove k j [] d = ground arith
  lookup-remove k j ((i, w) ∷ m) d =
      ground (arith, e.beq_iff k j, e.beq_iff i k, e.beq_iff i j, lookup-remove k j m d.1)

  pub remove-DistinctKeys : (k : K) (m : List (K × V)) → DistinctKeys m → DistinctKeys (remove k m)
  unfolding remove
  remove-DistinctKeys k [] d = tt
  remove-DistinctKeys k ((i, w) ∷ m) d =
      ground (arith, lookup-remove k i m d.1, remove-DistinctKeys k m d.1)

  pub lookup-retain_absent :
      (p : K × V → Bool) (k : K) (m : List (K × V))
      → lookup k m ≡ none
      → lookup k (retain p m) ≡ none
  unfolding lookup retain
  lookup-retain_absent p k [] h = refl
  lookup-retain_absent p k (x ∷ m) h = ground (arith, lookup-retain_absent p k m)

  pub retain-DistinctKeys :
      (p : K × V → Bool) (m : List (K × V)) → DistinctKeys m → DistinctKeys (retain p m)
  unfolding retain
  retain-DistinctKeys p [] d = tt
  retain-DistinctKeys p (x ∷ m) d =
      ground (arith, lookup-retain_absent p x.0 m, retain-DistinctKeys p m d.1)

  -- With distinct keys, `retain` keeps the value of a key exactly when the entry passes.
  pub lookup-retain :
      (p : K × V → Bool) (k : K) (m : List (K × V)) (v : V)
      → DistinctKeys m
      → lookup k m ≡ some v
      → lookup k (retain p m) ≡ (if p (k, v) then some v else none)
  unfolding lookup retain
  lookup-retain p k [] v d h = absurd (ground arith)
  lookup-retain p k ((j, w) ∷ m) v d h =
      ground (arith, e.beq_iff j k, lookup-retain p k m v d.1, lookup-retain_absent p k m)
