-- ===== src/Config/Rates.antt =====
-- src/config/endpoint.rs: how a baud rate is read. What is visited is what the deserializer finds; its
-- reader of a `u32` is a parameter.
use mavrouter.Prelude.{
  ℕ, refl, ap, inl, inr, Option, none, some, List, [], map, arith, ltb, Option-cases, All, ◌^◌, ◌<◌,
  ◌≡◌, ◌∙◌, ◌↔◌, ◌∷◌, if◌then◌else◌, nat_eq,
}
use mavrouter.Config.{BaudRate, fixed, auto}

pub data ℤ : Type 0 where
  pos : ℕ → ℤ
  negsuc : ℕ → ℤ

pub data Visited : Type 0 where
  u64 : (value : ℕ) → Visited
  i64 : (value : ℤ) → Visited
  seq : (values : List ℤ) → Visited
  other : Visited

-- `u32::try_from`, of a `u64` and of an `i64`.
abbrev u32_of : ℕ → Option ℕ
u32_of value = if ltb value (2 ^ 32) then some value else none

abbrev u32_of_signed : ℤ → Option ℕ
u32_of_signed (pos value) = u32_of value
u32_of_signed (negsuc value) = none

abbrev fixed_of : Option ℕ → Option BaudRate
fixed_of none = none
fixed_of (some value) = some (fixed value)

unfoldable pub visit_u64 : ℕ → Option BaudRate
visit_u64 value = fixed_of (u32_of value)

unfoldable pub visit_i64 : ℤ → Option BaudRate
visit_i64 value = fixed_of (u32_of_signed value)

abbrev push_rate : Option ℕ → Option (List ℕ) → Option (List ℕ)
push_rate none rates = none
push_rate (some rate) none = none
push_rate (some rate) (some rates) = some (rate ∷ rates)

abbrev auto_of : Option (List ℕ) → Option BaudRate
auto_of none = none
auto_of (some rates) = some (auto rates)

module _ (next_element : ℤ → Option ℕ) where
  unfoldable pub rates_of : List ℤ → Option (List ℕ)
  rates_of [] = some []
  rates_of (value ∷ values) = push_rate (next_element value) (rates_of values)

  unfoldable pub visit_seq : List ℤ → Option BaudRate
  visit_seq values = auto_of (rates_of values)

  unfoldable pub deserialize : Visited → Option BaudRate
  deserialize (u64 value) = visit_u64 value
  deserialize (i64 value) = visit_i64 value
  deserialize (seq values) = visit_seq values
  deserialize other = none

-- The numbers that a `u32` has room for, and no others.
pub record IsU32 (next_element : ℤ → Option ℕ) : Type 0 where
  pub reads : (value : ℕ) → value < 2 ^ 32 → next_element (pos value) ≡ some value
  pub inside :
      (z : ℤ) (value : ℕ) → next_element z ≡ some value → (z ≡ pos value) × (value < 2 ^ 32)

abbrev pub FitsU32 : ℕ → Type 0
FitsU32 value = value < 2 ^ 32

-- What is visited spells the baud rate.
abbrev pub Spells : Visited → BaudRate → Type 0
Spells (u64 value) (fixed rate) = (value ≡ rate) × FitsU32 rate
Spells (u64 value) (auto rates) = ⊥
Spells (i64 value) (fixed rate) = (value ≡ pos rate) × FitsU32 rate
Spells (i64 value) (auto rates) = ⊥
Spells (seq values) (fixed rate) = ⊥
Spells (seq values) (auto rates) = (values ≡ map pos rates) × All FitsU32 rates
Spells other baud = ⊥

module _ (next_element : ℤ → Option ℕ) (u32 : IsU32 next_element) where
  rates_of-some :
      (values : List ℤ) (rates : List ℕ)
      → rates_of next_element values ≡ some rates
      → (values ≡ map pos rates) × All FitsU32 rates
  unfolding rates_of
  rates_of-some [] rates h = ground (arith, h)
  rates_of-some (value ∷ values) rates h = elim (Option-cases (next_element value)) [
    | inl none_read ↦ absurd (ground (arith, rw (rates_of, none_read) at h))
    | inr (rate, read) ↦ elim (Option-cases (rates_of next_element values)) [
      | inl none_left ↦ absurd (ground (arith, rw (rates_of, read, none_left) at h))
      | inr (more, left) ↦
          let e : rates ≡ rate ∷ more = ground (arith, rw (rates_of, read, left) at h) in
          let (same, fits) = u32.inside value rate read in
          let (all, fit) = rates_of-some values more left in
          rw e (ap (λ z. z ∷ values) same ∙ ap (λ zs. pos rate ∷ zs) all, (fits, fit))
    ]
  ]

  rates_of-map :
      (rates : List ℕ) → All FitsU32 rates → rates_of next_element (map pos rates) ≡ some rates
  unfolding rates_of
  rates_of-map [] all = refl
  rates_of-map (rate ∷ rates) all = rw (u32.reads rate all.0, rates_of-map rates all.1) refl

  seq-some :
      (values : List ℤ) (rates : List ℕ)
      → visit_seq next_element values ≡ some (auto rates)
      → rates_of next_element values ≡ some rates
  unfolding visit_seq
  seq-some values rates h = elim (Option-cases (rates_of next_element values)) [
    | inl none_left ↦ absurd (ground (arith, rw (visit_seq, none_left) at h))
    | inr (more, left) ↦ ground (arith, left, rw (visit_seq, left) at h)
  ]

  -- With a reader of `u32` as documented, a baud rate is read exactly if what stands there is one
  -- integer, or a list of them, each at least zero and below 2 to the 32nd, and it holds these
  -- numbers in their order: none is changed or cut off.
  pub deserialize_iff :
      (visited : Visited) (baud : BaudRate)
      → (deserialize next_element visited ≡ some baud) ↔ Spells visited baud
  unfolding deserialize visit_u64 visit_i64 visit_seq
  deserialize_iff (u64 value) (fixed rate) = (λ h. ground (arith, h), λ h. ground (arith, h))
  deserialize_iff (u64 value) (auto rates) = (λ h. ground (arith, h), λ h. absurd h)
  deserialize_iff (i64 (pos value)) (fixed rate) = (λ h. ground (arith, h), λ h. ground (arith, h))
  deserialize_iff (i64 (negsuc value)) (fixed rate) =
      (λ h. ground (arith, h), λ h. ground (arith, h))
  deserialize_iff (i64 (pos value)) (auto rates) = (λ h. ground (arith, h), λ h. absurd h)
  deserialize_iff (i64 (negsuc value)) (auto rates) = (λ h. ground (arith, h), λ h. absurd h)
  deserialize_iff (seq values) (fixed rate) = (λ h. ground (arith, h), λ h. absurd h)
  deserialize_iff (seq values) (auto rates) = (
    λ h. rates_of-some values rates (seq-some values rates h),
    λ (spelled, all). rw (spelled, rates_of-map rates all) refl,
  )
  deserialize_iff other baud = (λ h. ground (arith, h), λ h. absurd h)
