-- ===== src/Routing/Endpoints.antt =====
-- `should_send` as a function of the sets of endpoints on each route: the times play no part.
use mavrouter.Prelude.{
  ℕ, refl, Bool, true, false, Option, none, some, List, [], arith, ◌≡◌, ◌≢◌, ◌||◌, ◌∷◌, ◌==◌,
  if◌then◌else◌, nat_eq, pair_eq, string_eq,
}
use mavrouter.Prelude.Sets.{contains}
use mavrouter.Routing.Groups.{GroupConfig, any_in_same_group}
use mavrouter.Routing.Shard.{RouteEntry}
use mavrouter.Routing.Table.{
  RoutingTable, entry_has, reaches, seen_on_any, is_sniffer_endpoint, route_decision, should_send,
}
use mavrouter.Routing.View.{View, view}

abbrev pub ends : Option RouteEntry → Option (List ℕ)
ends none = none
ends (some e) = some e.endpoints

abbrev pub names : Option (List ℕ) → ℕ → Bool
names none ep = false
names (some eps) ep = contains eps ep

pub sees : (ℕ → Option (List ℕ)) → List ℕ → ℕ → Bool
sees systems [] ep = false
sees systems (s ∷ rest) ep = names (systems s) ep || sees systems rest ep

abbrev joins : GroupConfig → List ℕ → ℕ → Bool
joins cfg eps ep = contains eps ep || any_in_same_group cfg eps ep

abbrev chosen : GroupConfig → Option (List ℕ) → Option (List ℕ) → ℕ → ℕ → Bool
chosen cfg none route c ep = false
chosen cfg (some eps) none c ep = joins cfg eps ep
chosen cfg (some eps) (some r) c ep = if c == 0 then joins cfg eps ep else joins cfg r ep

-- `should_send` over the sets of endpoints alone.
pub decide : GroupConfig → (ℕ → Option (List ℕ)) → (ℕ → ℕ → Option (List ℕ)) → ℕ → ℕ → ℕ → Bool
decide cfg systems routes ep s c =
    if sees systems cfg.sniffer_sysids ep
    then true
    else if s == 0
    then true
    else chosen cfg (systems s) (routes s c) c ep

sees_same :
    (a b : ℕ → Option (List ℕ)) (xs : List ℕ) (s ep : ℕ)
    → ((i : ℕ) → i ≢ s → a i ≡ b i)
    → contains xs s ≡ false
    → sees a xs ep ≡ sees b xs ep
unfolding sees contains
sees_same a b [] s ep h k = refl
sees_same a b (x ∷ rest) s ep h k =
    let other : x ≢ s = λ e. ground arith in ground (arith, h x other, sees_same a b rest s ep h)

-- The entries of one system matter for that system's targets and for sniffers only.
pub decide_same :
    (cfg : GroupConfig) (a b : ℕ → Option (List ℕ)) (p q : ℕ → ℕ → Option (List ℕ)) (s : ℕ)
    (ep t c : ℕ)
    → ((i : ℕ) → i ≢ s → a i ≡ b i)
    → ((i j : ℕ) → i ≢ s → p i j ≡ q i j)
    → t ≢ s
    → contains cfg.sniffer_sysids s ≡ false
    → decide cfg a p ep t c ≡ decide cfg b q ep t c
unfolding decide
decide_same cfg a b p q s ep t c ha hp other plain =
    ground (arith, sees_same a b cfg.sniffer_sysids s ep ha plain, ha t other, hp t c other)

abbrev pub decide_view : View → ℕ → ℕ → ℕ → Bool
decide_view v = decide v.config (λ s. ends (v.systems s)) (λ s c. ends (v.routes s c))

seen_on_any-sees :
    (t : RoutingTable) (xs : List ℕ) (ep : ℕ)
    → seen_on_any t xs ep ≡ sees (λ s. ends ((view t).systems s)) xs ep
unfolding seen_on_any sees entry_has
seen_on_any-sees t [] ep = refl
seen_on_any-sees t (s ∷ rest) ep = ground (arith, seen_on_any-sees t rest ep)

-- `should_send` reads the route entries through their endpoints only.
pub should_send-decide_view :
    (t : RoutingTable) (ep s c : ℕ) → should_send t ep s c ≡ decide_view (view t) ep s c
unfolding should_send is_sniffer_endpoint decide route_decision reaches
should_send-decide_view t ep s c = ground (arith, seen_on_any-sees t t.config.sniffer_sysids ep)
