-- ===== src/Routing/Groups.antt =====
-- src/routing/groups.rs: endpoint groups and sniffer system ids.
use Prim.Native.String.{String}
use mavrouter.Prelude.{ℕ, Bool, false, none, some, List, [], ◌||◌, ◌∷◌, nat_eq, string_eq, pair_eq}
use mavrouter.Prelude.Sets.{contains}
use mavrouter.Prelude.Maps.{lookup}

pub record GroupConfig : Type 0 where
  pub endpoint_groups : List (ℕ × String)
  pub group_members : List (String × List ℕ)
  pub sniffer_sysids : List ℕ

abbrev pub default_config : GroupConfig
default_config = record { endpoint_groups = []; group_members = []; sniffer_sysids = [] }

-- `endpoints.iter().any(|ep| members.contains(ep))`
unfoldable pub any_member : List ℕ → List ℕ → Bool
any_member members [] = false
any_member members (x ∷ xs) = contains members x || any_member members xs

unfoldable pub any_in_same_group : GroupConfig → List ℕ → ℕ → Bool
unfolding any_member
any_in_same_group cfg endpoints endpoint_id = elim (lookup endpoint_id cfg.endpoint_groups) [
  | none ↦ false
  | some group ↦ elim (lookup group cfg.group_members) [
    | none ↦ false
    | some members ↦ any_member members endpoints
  ]
]
