-- ===== src/Config/Validation/Stages.antt =====
-- The stages of `validate`, each with what it accepts.
use mavrouter.Prelude.{
  ℕ, refl, inl, inr, false, List, [], arith, ltb, Bool-cases, All, ◌≤◌, ◌<◌, ◌≡◌, ◌↔◌, ◌||◌, ◌∷◌,
  nat_eq, string_eq, name_eq,
}
use Prim.Native.String.{String}
use mavrouter.Prelude.Sets.{contains, insert}
use mavrouter.Filter.{EndpointFilters}
use mavrouter.Config.{
  GeneralConfig, ok, err, Result, and_then, check_all_msg_ids, check_general, check_rates,
  check_msg_ids, claim,
}
use mavrouter.Config.Validation.{InRange, Short, ShortIds}

-- A chain that is ok: both parts are.
pub and_then-ok {ℓ κ} :
    {A : Type ℓ} {B : Type κ} (r : Result A) (f : A → Result B) (b : B)
    → and_then r f ≡ ok b
    → (a : A) × (r ≡ ok a) × (f a ≡ ok b)
and_then-ok (ok a) f b h = (a, refl, h)
and_then-ok (err e) f b h = absurd (ground arith)

pub check_rates_iff : (i : ℕ) (all : List ℕ) → (check_rates i all ≡ ok tt) ↔ All InRange all
unfolding check_rates
check_rates_iff i [] = (λ h. tt, λ h. refl)
check_rates_iff i (rate ∷ all) =
    let rest = check_rates_iff i all in
    elim (Bool-cases (ltb rate 300 || ltb 4_000_000 rate)) [
      | inl bad ↦ (λ h. absurd (ground arith), λ h. absurd (ground (arith, h.0)))
      | inr good ↦
          (λ h. ((ground arith, ground arith), rest.0 (ground arith)), λ h. rw good (rest.1 h.1))
    ]

pub check_msg_ids_iff :
    (name : String) (i : ℕ) (ids : List ℕ) → (check_msg_ids name i ids ≡ ok tt) ↔ Short ids
unfolding check_msg_ids
check_msg_ids_iff name i [] = (λ h. tt, λ h. refl)
check_msg_ids_iff name i (x ∷ ids) =
    let rest = check_msg_ids_iff name i ids in
    elim (Bool-cases (ltb 65535 x)) [
      | inl bad ↦ (λ h. absurd (ground arith), λ h. absurd (ground (arith, h.0)))
      | inr good ↦ (λ h. (ground arith, rest.0 (ground arith)), λ h. rw good (rest.1 h.1))
    ]

pub check_all_msg_ids_iff :
    (i : ℕ) (f : EndpointFilters) → (check_all_msg_ids i f ≡ ok tt) ↔ ShortIds f
check_all_msg_ids_iff i f =
    let a = check_msg_ids_iff "allow_out" i f.allow_msg_id_out in
    let b = check_msg_ids_iff "block_out" i f.block_msg_id_out in
    let c = check_msg_ids_iff "allow_in" i f.allow_msg_id_in in
    let d = check_msg_ids_iff "block_in" i f.block_msg_id_in in
    (
      λ h.
          let (u, e1, h1) = and_then-ok _ _ tt h in
          let (v, e2, h2) = and_then-ok _ _ tt h1 in
          let (w, e3, h3) = and_then-ok _ _ tt h2 in (a.0 e1, b.0 e2, c.0 e3, d.0 h3),
      λ h. rw (a.1 h.0, b.1 h.1, c.1 h.2, d.1 h.3) refl,
    )

pub check_general_iff :
    (g : GeneralConfig)
    → (check_general g ≡ ok tt) ↔ (
        (10 ≤ g.bus_capacity)
        × (g.bus_capacity ≤ 1_000_000)
        × (0 < g.routing_table_prune_interval_secs))
unfolding check_general
check_general_iff g =
    (λ h. (ground arith, ground arith, ground arith), λ h. ground (arith, h.0, h.1, h.2))

pub claim_fresh :
    (i : ℕ) (protocol : String) (port : ℕ) (ports claimed : List (String × ℕ))
    → claim i protocol port ports ≡ ok claimed
    → (contains ports (protocol, port) ≡ false) × (claimed ≡ (protocol, port) ∷ ports)
unfolding insert
claim_fresh i protocol port ports claimed h = elim (Bool-cases (contains ports (protocol, port))) [
  | inl held ↦ absurd (ground arith)
  | inr fresh ↦ (fresh, ground arith)
]

pub claim_taken :
    (i : ℕ) (protocol : String) (port : ℕ) (ports : List (String × ℕ))
    → contains ports (protocol, port) ≡ false
    → claim i protocol port ports ≡ ok ((protocol, port) ∷ ports)
unfolding insert
claim_taken i protocol port ports h = rw h refl
