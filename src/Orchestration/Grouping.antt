-- ===== src/Orchestration/Grouping.antt =====
-- The groups of the endpoints in the initial routing table.
use mavrouter.Prelude.{
  ℕ, suc, refl, sym, ap, inl, inr, Bool, true, false, Option, none, some, List, [], arith,
  Bool-cases, Option-cases, length, string_eq, ◌<◌, ◌≡◌, ◌∙◌, ◌↔◌, ◌&&◌, ◌||◌, ◌∷◌, ◌==◌,
  if◌then◌else◌, nat_eq,
}
use Prim.Native.String.{String}
use mavrouter.Prelude.Sets.{contains, contains-insert}
use mavrouter.Prelude.Maps.{lookup, lookup-put}
use mavrouter.Config.{Config, EndpointConfig, group}
use mavrouter.Routing.Groups.{GroupConfig, any_in_same_group, any_member}
use mavrouter.Routing.Table.{
  RoutingTable, set_endpoint_group, add_member, rcu_config, set_sniffer_sysids,
}
use mavrouter.Routing.Table
use mavrouter.Routing.Reach.{Reach, start, next, groups, sniffs}
use mavrouter.Orchestration.{set_group, register_groups, initial_table}

-- The group of the endpoint `j`, where the first has the id `i`.
abbrev pub group_at : ℕ → List EndpointConfig → ℕ → Option String
group_at i [] j = none
group_at i (cfg ∷ cfgs) j = if i == j then group cfg else group_at (suc i) cfgs j

abbrev is_group : Option String → String → Bool
is_group none name = false
is_group (some g) name = g == name

-- Whether the table has the endpoint among the members of the group.
has_name : List (String × List ℕ) → String → ℕ → Bool
has_name m name j = elim (lookup name m) [ none ↦ false | some members ↦ contains members j ]

has_name-add :
    (g name : String) (i j : ℕ) (m : List (String × List ℕ))
    → has_name (add_member g i m) name j ≡ ((g == name && i == j) || has_name m name j)
unfolding has_name lookup add_member contains
has_name-add g name i j [] = ground (arith, string_eq.beq_iff g name, contains-insert [] i j)
has_name-add g name i j ((h, members) ∷ m) = ground (
  arith,
  string_eq.beq_iff h g,
  string_eq.beq_iff h name,
  string_eq.beq_iff g name,
  contains-insert members i j,
  has_name-add g name i j m,
)

early : (i j : ℕ) (cfgs : List EndpointConfig) → j < i → group_at i cfgs j ≡ none
early i j [] h = refl
early i j (cfg ∷ cfgs) h = ground (arith, early (suc i) j cfgs (omega (arith, h)))

-- Whether the table has a group for the endpoint, and which.
abbrev group_in : RoutingTable → ℕ → Option String
group_in rt j = lookup j rt.config.endpoint_groups

abbrev first_of : Option String → Option String → Option String
first_of none other = other
first_of (some name) other = some name

set_group-group :
    (i j : ℕ) (name : Option String) (rt : RoutingTable)
    → group_in (set_group i name rt) j
      ≡ (if i == j then first_of name (group_in rt j) else group_in rt j)
unfolding set_endpoint_group rcu_config
set_group-group i j none rt = ground arith
set_group-group i j (some name) rt = ground (arith, lookup-put i j name rt.config.endpoint_groups)

register_groups-group :
    (i j : ℕ) (cfgs : List EndpointConfig) (rt : RoutingTable)
    → group_in (register_groups i cfgs rt) j ≡ first_of (group_at i cfgs j) (group_in rt j)
unfolding register_groups
register_groups-group i j [] rt = refl
register_groups-group i j (cfg ∷ cfgs) rt =
    let set = set_group i (group cfg) rt in
    let rest = register_groups-group (suc i) j cfgs set in
    let here = set_group-group i j (group cfg) rt in
    elim (Bool-cases (i == j)) [
      | inl same ↦
          let no_later = early (suc i) j cfgs (ground (arith, same)) in
          rw same (rest ∙ ap (λ later. first_of later (group_in set j)) no_later ∙ rw same at here)
      | inr other ↦ rw other (rest ∙ ap (first_of (group_at (suc i) cfgs j)) (rw other at here))
    ]

set_group-member :
    (i j : ℕ) (name : Option String) (g : String) (rt : RoutingTable)
    → has_name (set_group i name rt).config.group_members g j
      ≡ ((is_group name g && i == j) || has_name rt.config.group_members g j)
unfolding set_endpoint_group rcu_config
set_group-member i j none g rt = refl
set_group-member i j (some name) g rt = has_name-add name g i j rt.config.group_members

register_groups-member :
    (i j : ℕ) (cfgs : List EndpointConfig) (g : String) (rt : RoutingTable)
    → has_name (register_groups i cfgs rt).config.group_members g j
      ≡ (is_group (group_at i cfgs j) g || has_name rt.config.group_members g j)
unfolding register_groups
register_groups-member i j [] g rt = refl
register_groups-member i j (cfg ∷ cfgs) g rt =
    let set = set_group i (group cfg) rt in
    let rest = register_groups-member (suc i) j cfgs g set in
    let here = set_group-member i j (group cfg) g rt in
    elim (Bool-cases (i == j)) [
      | inl same ↦
          let no_later = early (suc i) j cfgs (ground (arith, same)) in
          rw same (
            rest
            ∙ ap (λ later. is_group later g || has_name set.config.group_members g j) no_later
            ∙ ground (arith, here, same))
      | inr other ↦ rw other (ground (arith, rest, here, other))
    ]

register_groups-Reach :
    (i : ℕ) (cfgs : List EndpointConfig) (rt : RoutingTable)
    → Reach rt
    → Reach (register_groups i cfgs rt)
unfolding register_groups
register_groups-Reach i [] rt reached = reached
register_groups-Reach i (cfg ∷ cfgs) rt reached = elim (Option-cases (group cfg)) [
  | inl no_group ↦ rw no_group (register_groups-Reach (suc i) cfgs rt reached)
  | inr (name, e) ↦ rw e (register_groups-Reach (suc i) cfgs _ (next reached (groups rt i name)))
]

-- The test of one endpoint is a look at the members of the other's group.
any_in_same_group-has_name :
    (cfg : GroupConfig) (i j : ℕ) (name : String)
    → lookup i cfg.endpoint_groups ≡ some name
    → any_in_same_group cfg (j ∷ []) i ≡ has_name cfg.group_members name j
unfolding any_in_same_group any_member has_name
any_in_same_group-has_name cfg i j name e = elim (Option-cases (lookup name cfg.group_members)) [
  | inl absent ↦ rw (any_in_same_group, has_name, e, absent) refl
  | inr (members, found) ↦ rw (any_in_same_group, has_name, e, found) (ground arith)
]

some-inj : {x y : String} → some x ≡ some y → x ≡ y
some-inj h = ground (arith, h)

first_of-none : (name : Option String) → first_of name none ≡ name
first_of-none none = refl
first_of-none (some name) = refl

or_false : (b : Bool) → (b || false) ≡ b
or_false b = ground arith

same_group_iff :
    (cfg : GroupConfig) (i j : ℕ) (mine other : Option String)
    → lookup i cfg.endpoint_groups ≡ mine
    → ((name : String) → has_name cfg.group_members name j ≡ is_group other name)
    → (any_in_same_group cfg (j ∷ []) i ≡ true)
      ↔ ((name : String) × (mine ≡ some name) × (other ≡ some name))
unfolding any_in_same_group
same_group_iff cfg i j none other e members = (
  λ h. absurd (ground (arith, rw (any_in_same_group, e) at h)),
  λ (name, no_group, k). absurd (ground (arith, no_group)),
)
same_group_iff cfg i j (some g) none e members =
    let test = any_in_same_group-has_name cfg i j g e ∙ members g in
    (
      λ h. absurd (ground (arith, test, h)),
      λ (name, k, no_group). absurd (ground (arith, no_group)),
    )
same_group_iff cfg i j (some g) (some g') e members =
    let test = any_in_same_group-has_name cfg i j g e ∙ members g in
    let decided = string_eq.beq_iff g' g in
    (
      λ h. (g, refl, ap some (decided.0 (sym test ∙ h))),
      λ (name, a, b). test ∙ decided.1 (some-inj (b ∙ sym a)),
    )

register_groups-same :
    (cfgs : List EndpointConfig) (i j : ℕ)
    → (any_in_same_group (register_groups 0 cfgs Table.new).config (j ∷ []) i ≡ true)
      ↔ ((name : String) × (group_at 0 cfgs i ≡ some name) × (group_at 0 cfgs j ≡ some name))
unfolding lookup Table.new has_name
register_groups-same cfgs i j =
    let rt = register_groups 0 cfgs Table.new in
    same_group_iff rt.config i j (group_at 0 cfgs i) (group_at 0 cfgs j)
      (register_groups-group 0 i cfgs Table.new ∙ first_of-none (group_at 0 cfgs i))
      (λ name.
        register_groups-member 0 j cfgs name Table.new
        ∙ or_false (is_group (group_at 0 cfgs j) name))

-- The initial routing table is one that the router reaches, so that it has all the properties of
-- such tables, and in it two endpoints are in the same group exactly if the configuration gives
-- both the same name of a group, which is not empty.
pub initial_table-groups :
    (config : Config) (i j : ℕ)
    → Reach (initial_table config)
      × ((any_in_same_group (initial_table config).config (j ∷ []) i ≡ true) ↔ (
          (name : String) × (group_at 0 config.endpoint i ≡ some name)
          × (group_at 0 config.endpoint j ≡ some name)))
unfolding initial_table set_sniffer_sysids rcu_config any_in_same_group
initial_table-groups config i j =
    let same = register_groups-same config.endpoint i j in
    let reached = register_groups-Reach 0 config.endpoint Table.new start in
    let sysids = config.general.sniffer_sysids in
    elim (Bool-cases (length sysids == 0)) [
      | inl no_sniffers ↦ rw no_sniffers (reached, same)
      | inr some_sniffers ↦ rw some_sniffers (next reached (sniffs _ sysids), same)
    ]
