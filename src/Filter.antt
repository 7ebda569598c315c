-- ===== src/Filter.antt =====
-- src/filter.rs: the allow and block lists of an endpoint, one pair for each criterion and
-- direction.
use mavrouter.Prelude.{
  ℕ, refl, sym, inl, inr, Bool, true, false, not, List, [], arith, ◌≡◌, ◌∙◌, ◌↔◌, ◌⊎◌, ◌&&◌, ◌||◌,
  ◌∷◌, if◌then◌else◌, nat_eq,
}
use mavrouter.Prelude.Sets.{contains}
use mavrouter.Mavlink.{MavHeader}

pub record EndpointFilters : Type 0 where
  pub allow_msg_id_out : List ℕ
  pub block_msg_id_out : List ℕ
  pub allow_src_comp_out : List ℕ
  pub block_src_comp_out : List ℕ
  pub allow_src_sys_out : List ℕ
  pub block_src_sys_out : List ℕ
  pub allow_msg_id_in : List ℕ
  pub block_msg_id_in : List ℕ
  pub allow_src_comp_in : List ℕ
  pub block_src_comp_in : List ℕ
  pub allow_src_sys_in : List ℕ
  pub block_src_sys_in : List ℕ

unfoldable pub is_empty : List ℕ → Bool
is_empty [] = true
is_empty (x ∷ xs) = false

unfoldable pub check : MavHeader → ℕ → List ℕ → List ℕ → List ℕ → List ℕ → List ℕ → List ℕ → Bool
unfolding is_empty
check header msg_id allow_msg block_msg allow_comp block_comp allow_sys block_sys =
    if not (is_empty allow_msg) && not (contains allow_msg msg_id)
    then false
    else if contains block_msg msg_id
    then false
    else if not (is_empty allow_comp) && not (contains allow_comp header.component_id)
    then false
    else if contains block_comp header.component_id
    then false
    else if not (is_empty allow_sys) && not (contains allow_sys header.system_id)
    then false
    else if contains block_sys header.system_id
    then false
    else true

unfoldable pub check_incoming : EndpointFilters → MavHeader → ℕ → Bool
unfolding check
check_incoming f header msg_id =
    check header msg_id f.allow_msg_id_in f.block_msg_id_in f.allow_src_comp_in f.block_src_comp_in
      f.allow_src_sys_in f.block_src_sys_in

unfoldable pub check_outgoing : EndpointFilters → MavHeader → ℕ → Bool
unfolding check
check_outgoing f header msg_id =
    check header msg_id f.allow_msg_id_out f.block_msg_id_out f.allow_src_comp_out
      f.block_src_comp_out f.allow_src_sys_out f.block_src_sys_out

-- One criterion: in the allow list, if there is one, and not in the block list.
abbrev pub Passes : List ℕ → List ℕ → ℕ → Type 0
Passes allow block x = ((allow ≡ []) ⊎ (contains allow x ≡ true)) × (contains block x ≡ false)

-- The three criteria that incoming frames meet.
abbrev pub PassesIncoming : EndpointFilters → MavHeader → ℕ → Type 0
PassesIncoming f header msg_id =
    Passes f.allow_msg_id_in f.block_msg_id_in msg_id
    × Passes f.allow_src_comp_in f.block_src_comp_in header.component_id
    × Passes f.allow_src_sys_in f.block_src_sys_in header.system_id

-- The three criteria that outgoing messages meet.
abbrev pub PassesOutgoing : EndpointFilters → MavHeader → ℕ → Type 0
PassesOutgoing f header msg_id =
    Passes f.allow_msg_id_out f.block_msg_id_out msg_id
    × Passes f.allow_src_comp_out f.block_src_comp_out header.component_id
    × Passes f.allow_src_sys_out f.block_src_sys_out header.system_id

-- One criterion as the code tests it.
abbrev passes : List ℕ → List ℕ → ℕ → Bool
passes allow block x = (is_empty allow || contains allow x) && not (contains block x)

passes_iff : (allow block : List ℕ) (x : ℕ) → (passes allow block x ≡ true) ↔ Passes allow block x
unfolding is_empty
passes_iff [] block x = (λ h. (inl refl, ground arith), λ h. ground (arith, h.1))
passes_iff (a ∷ allow) block x = (
  λ h. (inr (ground arith), ground arith),
  λ h. elim h.0 [ inl e ↦ absurd (ground arith) | inr e ↦ ground (arith, h.1) ],
)

check_lem :
    (header : MavHeader) (msg_id : ℕ) (am bm ac bc allow_s block_s : List ℕ)
    → check header msg_id am bm ac bc allow_s block_s ≡ (
        passes am bm msg_id
        && passes ac bc header.component_id
        && passes allow_s block_s header.system_id)
unfolding check
check_lem header msg_id am bm ac bc allow_s block_s = ground arith

check_iff :
    (header : MavHeader) (msg_id : ℕ) (am bm ac bc allow_s block_s : List ℕ)
    → (check header msg_id am bm ac bc allow_s block_s ≡ true) ↔ (
        Passes am bm msg_id
        × Passes ac bc header.component_id
        × Passes allow_s block_s header.system_id)
check_iff header msg_id am bm ac bc allow_s block_s =
    let m = passes_iff am bm msg_id in
    let c = passes_iff ac bc header.component_id in
    let s = passes_iff allow_s block_s header.system_id in
    (
      λ h.
          let all : (passes am bm msg_id
                && passes ac bc header.component_id
                && passes allow_s block_s header.system_id)
              ≡ true =
            sym (check_lem header msg_id am bm ac bc allow_s block_s) ∙ h in
          (m.0 (ground (arith, all)), c.0 (ground (arith, all)), s.0 (ground (arith, all))),
      λ h.
          check_lem header msg_id am bm ac bc allow_s block_s ∙ rw (m.1 h.0, c.1 h.1, s.1 h.2) refl,
    )

-- A frame passes an endpoint's incoming filters exactly if, for its message id, its component and
-- its system alike, the allow list is empty or holds it and the block list does not.
pub check_incoming_iff :
    (f : EndpointFilters) (header : MavHeader) (msg_id : ℕ)
    → (check_incoming f header msg_id ≡ true) ↔ PassesIncoming f header msg_id
unfolding check_incoming
check_incoming_iff f header msg_id = check_iff header msg_id _ _ _ _ _ _

-- A message passes an endpoint's outgoing filters exactly if, for its message id, its component
-- and its system alike, the allow list is empty or holds it and the block list does not.
pub check_outgoing_iff :
    (f : EndpointFilters) (header : MavHeader) (msg_id : ℕ)
    → (check_outgoing f header msg_id ≡ true) ↔ PassesOutgoing f header msg_id
unfolding check_outgoing
check_outgoing_iff f header msg_id = check_iff header msg_id _ _ _ _ _ _
