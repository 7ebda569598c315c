-- ===== src/HighLevel/Starting.antt =====
-- What a router that has started is.
use mavrouter.Prelude.{
  ℕ, refl, sym, ap, subst, inl, inr, Bool, true, false, not, Option, none, some, List, [], arith,
  Bool-cases, Option-cases, ◌∙◌, ◌⊎◌, ◌↔◌, length, All, ◌<◌, ◌≡◌, ◌||◌, ◌∷◌, ◌++◌, ◌==◌,
  if◌then◌else◌, nat_eq,
}
use Prim.Native.String.{String}
use mavrouter.Prelude.Sets.{Distinct}
use mavrouter.Routing.Time.{Duration, from_secs}
use mavrouter.Routing.Reach.{Reach}
use mavrouter.Config.{Config, EndpointConfig, RouterError, ok, err}
use mavrouter.Config.Loading
use mavrouter.Config.Loading.{load_file-IsValid}
use mavrouter.Config.Validation.{IsValid}
use mavrouter.Config.Validation.Stages.{and_then-ok}
use mavrouter.RunLoop.{is_some, has_endpoints}
use mavrouter.Orchestration.{
  NamedTask, spawn_all, spawn_endpoints, implicit_server, build_endpoint_context,
}
use mavrouter.Orchestration.Spawned.{endpoints_of, ids, spawn_all-ids}
use mavrouter.Orchestration.Grouping.{initial_table-groups}
use mavrouter.Orchestration.Bauds.{ChoosesBaud, spawn_all-ChoosesBaud}
use mavrouter.HighLevel.{Router, start, is_running, from_file, stop}
use mavrouter.Shutdown.{is_finished, remaining, shutdown_with_timeout}

-- It runs, there is an endpoint, the endpoints are those of the statistics, under distinct ids, the
-- routing table is one that the router reaches, and each serial endpoint finds a baud rate.
pub record IsStarted (r : Router) : Type 0 where
  pub runs : is_running r ≡ true
  pub some_endpoint : 0 < length r.orchestrated.endpoint_stats
  pub listed : endpoints_of r.orchestrated.tasks ≡ r.orchestrated.endpoint_stats
  pub distinct : Distinct (ids r.orchestrated.endpoint_stats)
  pub reached : Reach r.orchestrated.routing_table
  pub bauds : All ChoosesBaud r.orchestrated.tasks

some_listed :
    (with_port : String → ℕ → String) (port : Option ℕ) (prune_ttl : ℕ) (cfgs : List EndpointConfig)
    → (not (length cfgs == 0) || is_some port) ≡ true
    → 0
      < length
          ((implicit_server with_port (length cfgs) port).1 ++ (spawn_endpoints prune_ttl 0 cfgs).1)
unfolding spawn_endpoints build_endpoint_context
some_listed with_port (some port) prune_ttl cfgs h = omega arith
some_listed with_port none prune_ttl [] h = absurd (ground (arith, h))
some_listed with_port none prune_ttl (cfg ∷ cfgs) h = omega arith

spawned-IsStarted :
    (parse_port : String → Option ℕ) (with_port : String → ℕ → String) (config : Config)
    → IsValid parse_port config
    → has_endpoints config ≡ true
    → IsStarted (record { orchestrated = spawn_all with_port config; is_cancelled = false })
unfolding has_endpoints spawn_all
spawned-IsStarted parse_port with_port config valid h = record {
  runs = refl;
  some_endpoint =
      some_listed with_port config.general.tcp_port config.general.routing_table_ttl_secs
        config.endpoint h;
  listed = (spawn_all-ids with_port config).0;
  distinct = (spawn_all-ids with_port config).1;
  reached = (initial_table-groups config 0 0).0;
  bauds = spawn_all-ChoosesBaud parse_port with_port config valid;
}

ok-inj : {x y : Router} → ok x ≡ ok y → x ≡ y
ok-inj h = ground (arith, h)

not-ok : {e : RouterError} {r : Router} → err e ≡ ok r → ⊥
not-ok h = ground (arith, h)

start-IsStarted :
    (parse_port : String → Option ℕ) (with_port : String → ℕ → String) (config : Config)
    (r : Router)
    → IsValid parse_port config
    → start with_port config ≡ ok r
    → IsStarted r
unfolding start
start-IsStarted parse_port with_port config r valid h = elim (Bool-cases (has_endpoints config)) [
  | inl some_endpoint ↦
      subst IsStarted (ok-inj (rw (start, some_endpoint) at h))
        (spawned-IsStarted parse_port with_port config valid some_endpoint)
  | inr no_endpoint ↦ absurd (not-ok (rw (start, no_endpoint) at h))
]

start-spawned :
    (with_port : String → ℕ → String) (config : Config) (r : Router)
    → start with_port config ≡ ok r
    → r.orchestrated ≡ spawn_all with_port config
unfolding start
start-spawned with_port config r h = elim (Bool-cases (has_endpoints config)) [
  | inl some_endpoint ↦
      ap (λ router. router.orchestrated) (sym (ok-inj (rw (start, some_endpoint) at h)))
  | inr no_endpoint ↦ absurd (not-ok (rw (start, no_endpoint) at h))
]

true-not_false : true ≡ false → ⊥
true-not_false h = ground (arith, h)

nothing_left :
    (left : List NamedTask)
    → let out : List NamedTask × Bool = if length left == 0 then ([], true) else (left, false) in
      out.0 ≡ left
nothing_left [] = refl
nothing_left (task ∷ left) = ground arith

stopped :
    (ends : NamedTask → Option Duration) (tasks : List NamedTask) (timeout_dur : Duration)
    → (shutdown_with_timeout ends tasks timeout_dur).0 ≡ remaining ends timeout_dur tasks
unfolding shutdown_with_timeout remaining
stopped ends [] timeout_dur = refl
stopped ends (task ∷ tasks) timeout_dur = nothing_left (remaining ends timeout_dur (task ∷ tasks))

-- What a task does in the time that it gets to end.
abbrev pub OutlastsFive : (NamedTask → Option Duration) → NamedTask → Type 0
OutlastsFive ends task = (time : Duration) → ends task ≡ some time → from_secs 5 < time

abbrev pub IsTask : NamedTask → List NamedTask → Type 0
IsTask task [] = ⊥
IsTask task (first ∷ tasks) = (task ≡ first) ⊎ IsTask task tasks

outlasts-is_finished :
    (ends : NamedTask → Option Duration) (task : NamedTask)
    → (is_finished ends (from_secs 5) task ≡ false) ↔ OutlastsFive ends task
unfolding is_finished
outlasts-is_finished ends task = elim (Option-cases (ends task)) [
  | inl never ↦ rw (is_finished, never) (λ h time e. absurd (ground (arith, e)), λ h. refl)
  | inr (time, e) ↦
      rw (is_finished, e)
        (λ h t same. ground (arith, h, same), λ h. let late = h time refl in ground (arith, late))
]

remaining-IsTask :
    (ends : NamedTask → Option Duration) (tasks : List NamedTask) (task : NamedTask)
    → IsTask task (remaining ends (from_secs 5) tasks)
      ↔ (IsTask task tasks × OutlastsFive ends task)
unfolding remaining
remaining-IsTask ends [] task = (λ h. absurd h, λ h. absurd h.0)
remaining-IsTask ends (first ∷ tasks) task =
    let (sound, complete) = remaining-IsTask ends tasks task in
    elim (Bool-cases (is_finished ends (from_secs 5) first)) [
      | inl finished ↦ rw finished (
        λ h. let (later, outlasts) = sound h in (inr later, outlasts),
        λ h. elim h.0 [
          | inl here ↦ absurd (
              true-not_false (
                sym finished
                ∙ ap (is_finished ends (from_secs 5)) (sym here)
                ∙ (outlasts-is_finished ends task).1 h.1))
          | inr later ↦ complete (later, h.1)
        ],
      )
      | inr late ↦ rw late (
        λ h. elim h [
          | inl here ↦ (
            inl here,
            (outlasts-is_finished ends task).0 (ap (is_finished ends (from_secs 5)) here ∙ late),
          )
          | inr left ↦ let (later, outlasts) = sound left in (inr later, outlasts)
        ],
        λ h. elim h.0 [ inl here ↦ inl here | inr later ↦ inr (complete (later, h.1)) ],
      )
    ]

-- A router that is started from a file, whatever the file holds, runs with the configuration that
-- is loaded from it, which is valid: it has at least one endpoint, the endpoints that run are those of the statistics and have
-- distinct ids, its routing table is one that the router reaches, and each serial endpoint finds
-- a baud rate in range at each start. When it is stopped it no longer runs, and the tasks that
-- are aborted are exactly those of its tasks that do not end within five seconds of the
-- cancellation.
pub from_file-IsStarted :
    (parse_port : String → Option ℕ) (from_toml : String → Option Config)
    (read_to_string : String → Option String) (read_dir : String → Option (List (Option String)))
    (is_toml : String → Bool) (sort : List String → List String) (join : String → String → String)
    (with_port : String → ℕ → String) (path : String) (r : Router)
    (ends : NamedTask → Option Duration)
    → from_file parse_port from_toml read_to_string read_dir is_toml sort join with_port path ≡ ok r
    → ((config : Config) × (Loading.load parse_port from_toml read_to_string read_dir is_toml sort
            join path
          ≡ ok config)
        × IsValid parse_port config
        × (r.orchestrated ≡ spawn_all with_port config))
      × IsStarted r
      × (is_running (stop ends r).0 ≡ false)
      × ((task : NamedTask)
          → IsTask task (stop ends r).1
            ↔ (IsTask task r.orchestrated.tasks × OutlastsFive ends task))
unfolding from_file stop
from_file-IsStarted parse_port from_toml read_to_string read_dir is_toml sort join with_port path r
      ends h =
    let (config, loaded, started) =
      and_then-ok (Loading.load parse_port from_toml read_to_string read_dir is_toml sort join path)
        (start with_port) r h in
    let valid =
      load_file-IsValid parse_port from_toml read_to_string read_dir is_toml sort join (some path)
        config loaded in
    (
      (config, loaded, valid, start-spawned with_port config r started),
      start-IsStarted parse_port with_port config r valid started,
      refl,
      λ task.
          subst
            (λ left. IsTask task left ↔ (IsTask task r.orchestrated.tasks × OutlastsFive ends task))
            (sym (stopped ends r.orchestrated.tasks (from_secs 5)))
            (remaining-IsTask ends r.orchestrated.tasks task),
    )
