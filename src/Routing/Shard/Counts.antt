-- ===== src/Routing/Shard/Counts.antt =====
-- The maps of counters: what an endpoint's counter is after each operation on them.
use mavrouter.Prelude.{
  ℕ, refl, inl, inr, false, Option, none, some, List, [], arith, leb, nat_beq_iff, one_if,
  Bool-cases, usize_max, saturating_add, All, ◌+◌, ◌-◌, ◌≤◌, ◌<◌, ◌≡◌, ◌&&◌, ◌∷◌, ◌==◌,
  if◌then◌else◌, nat_eq, string_eq, pair_eq,
}
use mavrouter.Prelude.Sets.{contains, Distinct}
use mavrouter.Prelude.Maps.{lookup, DistinctKeys}
use mavrouter.Routing.Shard.{Counts, bump, tally, decrement, subtract_all, release}

abbrev pub value_of : Option ℕ → ℕ
value_of none = 0
value_of (some n) = n

-- An endpoint that has no counter counts zero.
abbrev pub count : ℕ → Counts → ℕ
count ep counts = value_of (lookup ep counts)

-- No counter stands at zero.
abbrev pub Positive : Counts → Type 0
Positive = All (λ x. 0 < x.1)

lookup-bump :
    (ep x : ℕ) (c : Counts)
    → lookup x (bump ep c) ≡ (if ep == x then some (saturating_add (count ep c) 1) else lookup x c)
unfolding lookup bump
lookup-bump ep x [] = ground arith
lookup-bump ep x ((j, n) ∷ m) = ground (arith, lookup-bump ep x m)

pub count-bump :
    (ep x : ℕ) (c : Counts)
    → count x (bump ep c) ≡ (if ep == x then saturating_add (count x c) 1 else count x c)
count-bump ep x c = ground (arith, lookup-bump ep x c)

pub bump-DistinctKeys : (ep : ℕ) (c : Counts) → DistinctKeys c → DistinctKeys (bump ep c)
unfolding bump lookup
bump-DistinctKeys ep [] d = (refl, tt)
bump-DistinctKeys ep ((j, n) ∷ m) d = ground (arith, lookup-bump ep j m, bump-DistinctKeys ep m d.1)

pub bump-Positive : (ep : ℕ) (c : Counts) → Positive c → Positive (bump ep c)
unfolding bump
bump-Positive ep [] p = omega arith
bump-Positive ep ((j, n) ∷ m) p = ground (arith, bump-Positive ep m p.1)

count-tally_absent :
    (xs : List ℕ) (x : ℕ) (c : Counts) → contains xs x ≡ false → count x (tally xs c) ≡ count x c
unfolding tally contains
count-tally_absent [] x c h = refl
count-tally_absent (y ∷ xs) x c h =
    ground (arith, count-bump y x c, count-tally_absent xs x (bump y c))

-- The endpoints of an entry stand once each, so each of their counters rises by one.
pub count-tally :
    (xs : List ℕ) (x : ℕ) (c : Counts)
    → Distinct xs
    → count x c + one_if (contains xs x) ≤ usize_max
    → count x (tally xs c) ≡ count x c + one_if (contains xs x)
unfolding tally contains
count-tally [] x c d h = omega arith
count-tally (y ∷ xs) x c d h = elim (Bool-cases (y == x)) [
  | inl hit ↦
      let e : y ≡ x = (nat_beq_iff y x).0 hit in
      let absent : contains xs x ≡ false = rw e at d.0 in
      ground (arith, count-bump y x c, count-tally_absent xs x (bump y c) absent)
  | inr miss ↦ ground (arith, count-bump y x c, count-tally xs x (bump y c) d.1)
]

pub tally-DistinctKeys : (xs : List ℕ) (c : Counts) → DistinctKeys c → DistinctKeys (tally xs c)
unfolding tally
tally-DistinctKeys [] c d = d
tally-DistinctKeys (x ∷ xs) c d = tally-DistinctKeys xs (bump x c) (bump-DistinctKeys x c d)

lookup-decrement :
    (ep n x : ℕ) (c : Counts)
    → DistinctKeys c
    → lookup x (decrement ep n c) ≡ (
        if ep == x && leb (count x c) n
        then none
        else if ep == x
        then some (count x c - n)
        else lookup x c)
unfolding lookup decrement
lookup-decrement ep n x [] d = ground arith
lookup-decrement ep n x ((j, v) ∷ m) d = ground (arith, lookup-decrement ep n x m d.1)

pub count-decrement :
    (ep n x : ℕ) (c : Counts)
    → DistinctKeys c
    → count x (decrement ep n c) ≡ (if ep == x then count x c - n else count x c)
count-decrement ep n x c d = ground (arith, lookup-decrement ep n x c d)

pub decrement-DistinctKeys :
    (ep n : ℕ) (c : Counts) → DistinctKeys c → DistinctKeys (decrement ep n c)
unfolding decrement lookup
decrement-DistinctKeys ep n [] d = tt
decrement-DistinctKeys ep n ((j, v) ∷ m) d =
    ground (arith, lookup-decrement ep n j m d.1, decrement-DistinctKeys ep n m d.1)

pub decrement-Positive : (ep n : ℕ) (c : Counts) → Positive c → Positive (decrement ep n c)
unfolding decrement
decrement-Positive ep n [] p = tt
decrement-Positive ep n ((j, v) ∷ m) p = ground (arith, decrement-Positive ep n m p.1)

pub count-release :
    (xs : List ℕ) (x : ℕ) (c : Counts)
    → Distinct xs
    → DistinctKeys c
    → count x (release xs c) ≡ count x c - one_if (contains xs x)
unfolding release contains
count-release [] x c d k = omega arith
count-release (y ∷ xs) x c d k = ground (
  arith,
  count-decrement y 1 x c k,
  count-release xs x (decrement y 1 c) d.1 (decrement-DistinctKeys y 1 c k),
)

pub release-DistinctKeys : (xs : List ℕ) (c : Counts) → DistinctKeys c → DistinctKeys (release xs c)
unfolding release
release-DistinctKeys [] c d = d
release-DistinctKeys (x ∷ xs) c d =
    release-DistinctKeys xs (decrement x 1 c) (decrement-DistinctKeys x 1 c d)

pub release-Positive : (xs : List ℕ) (c : Counts) → Positive c → Positive (release xs c)
unfolding release
release-Positive [] c p = p
release-Positive (x ∷ xs) c p = release-Positive xs (decrement x 1 c) (decrement-Positive x 1 c p)

pub count-subtract_all :
    (removed : Counts) (x : ℕ) (c : Counts)
    → DistinctKeys removed
    → DistinctKeys c
    → count x (subtract_all removed c) ≡ count x c - count x removed
unfolding subtract_all lookup
count-subtract_all [] x c d k = omega arith
count-subtract_all ((ep, n) ∷ removed) x c d k = ground (
  arith,
  count-decrement ep n x c k,
  count-subtract_all removed x (decrement ep n c) d.1 (decrement-DistinctKeys ep n c k),
)

pub subtract_all-DistinctKeys :
    (removed c : Counts) → DistinctKeys c → DistinctKeys (subtract_all removed c)
unfolding subtract_all
subtract_all-DistinctKeys [] c d = d
subtract_all-DistinctKeys ((ep, n) ∷ removed) c d =
    subtract_all-DistinctKeys removed (decrement ep n c) (decrement-DistinctKeys ep n c d)

pub subtract_all-Positive : (removed c : Counts) → Positive c → Positive (subtract_all removed c)
unfolding subtract_all
subtract_all-Positive [] c p = p
subtract_all-Positive ((ep, n) ∷ removed) c p =
    subtract_all-Positive removed (decrement ep n c) (decrement-Positive ep n c p)
