-- ===== src/Orchestration/Bauds.antt =====
-- The baud rates that a serial endpoint tries.
use mavrouter.Prelude.{
  ℕ, zero, suc, refl, inl, inr, Bool, true, false, Option, none, some, List, [], arith, Bool-cases,
  length, get_elem?, All, All-append, ◌%◌, ◌^◌, ◌<◌, ◌≡◌, ◌≢◌, ◌∷◌, ◌++◌, ◌==◌, nat_eq,
}
use Prim.Native.String.{String}
use mavrouter.Config.{Config, EndpointConfig, udp, tcp, serial, rates}
use mavrouter.Config.Validation.{IsValid, InRange, EndpointOk}
use mavrouter.Orchestration.{
  NamedTask, rotate_every, update_routes, run_tlog, report_stats, run_stats_server, run_udp,
  run_tcp, run_serial, current_baud, endpoint_runner, build_endpoint_context, spawn_endpoints,
  spawn_all, rotator, implicit_server, logger, dedup_of, updater,
}
use mavrouter.Dedup.{is_zero}
use mavrouter.Routing.Time.{Duration}

-- In each run the rate is one in range; a task that is no serial endpoint has none to choose.
abbrev pub ChoosesBaud : NamedTask → Type 0
ChoosesBaud task = elim task.handle [
  | rotate_every interval ↦ Unit
  | update_routes prune_ttl prune_interval ↦ Unit
  | run_tlog dir ↦ Unit
  | report_stats sample_interval retention log_interval ↦ Unit
  | run_stats_server socket_path endpoint_stats ↦ Unit
  | run_udp ctx address mode cleanup timeout ↦ Unit
  | run_tcp ctx address mode ↦ Unit
  | run_serial ctx device bauds flow ↦
      (starts : ℕ) → (baud : ℕ) × (current_baud bauds starts ≡ some baud) × InRange baud
]

All-get_elem? :
    (P : ℕ → Type 0) (xs : List ℕ) (i : ℕ)
    → i < length xs
    → All P xs
    → (x : ℕ) × (get_elem? xs i ≡ some x) × P x
All-get_elem? P [] i h all = absurd (omega (arith, h))
All-get_elem? P (x ∷ xs) zero h all = (x, refl, all.0)
All-get_elem? P (x ∷ xs) (suc i) h all = All-get_elem? P xs i (omega (arith, h)) all.1

chosen :
    (bauds : List ℕ) (starts : ℕ)
    → bauds ≢ []
    → All InRange bauds
    → (baud : ℕ) × (current_baud bauds starts ≡ some baud) × InRange baud
unfolding current_baud
chosen [] starts some_rate all = absurd (some_rate refl)
chosen (b ∷ bauds) starts some_rate all =
    let count = length (b ∷ bauds) in
    let positive : (count == 0) ≡ false = ground arith in
    rw positive (All-get_elem? InRange (b ∷ bauds) (starts % 2 ^ 64 % count) (omega arith) all)

spawn_endpoints-ChoosesBaud :
    (parse_port : String → Option ℕ) (prune_ttl i : ℕ) (cfgs : List EndpointConfig)
    → All (EndpointOk parse_port) cfgs
    → All ChoosesBaud (spawn_endpoints prune_ttl i cfgs).0
unfolding spawn_endpoints endpoint_runner build_endpoint_context
spawn_endpoints-ChoosesBaud parse_port prune_ttl i [] all = tt
spawn_endpoints-ChoosesBaud parse_port prune_ttl i (udp address mode timeout filters name ∷ cfgs)
      all =
    (tt, spawn_endpoints-ChoosesBaud parse_port prune_ttl (suc i) cfgs all.1)
spawn_endpoints-ChoosesBaud parse_port prune_ttl i (tcp address mode filters name ∷ cfgs) all =
    (tt, spawn_endpoints-ChoosesBaud parse_port prune_ttl (suc i) cfgs all.1)
spawn_endpoints-ChoosesBaud parse_port prune_ttl i (serial device baud flow filters name ∷ cfgs)
      all =
    (
      λ starts. chosen (rates baud) starts all.0.0.0 all.0.0.1,
      spawn_endpoints-ChoosesBaud parse_port prune_ttl (suc i) cfgs all.1,
    )

rotator-ChoosesBaud : (interval : Duration) → All ChoosesBaud (rotator interval)
rotator-ChoosesBaud interval = elim (Bool-cases (is_zero interval)) [
  | inl off ↦ rw off tt
  | inr on ↦ rw on (tt, tt)
]

logger-ChoosesBaud :
    (log_telemetry : Bool) (log : Option String) → All ChoosesBaud (logger log_telemetry log)
logger-ChoosesBaud log_telemetry none = tt
logger-ChoosesBaud false (some log_dir) = tt
logger-ChoosesBaud true (some log_dir) = (tt, tt)

implicit_server-ChoosesBaud :
    (with_port : String → ℕ → String) (id : ℕ) (port : Option ℕ)
    → All ChoosesBaud (implicit_server with_port id port).0
implicit_server-ChoosesBaud with_port id none = tt
implicit_server-ChoosesBaud with_port id (some port) = (tt, tt)

-- With a valid configuration, every start of a serial endpoint, however many there were before,
-- finds a baud rate to open the device with, from 300 to 4000000: neither the remainder nor the
-- index can panic.
pub spawn_all-ChoosesBaud :
    (parse_port : String → Option ℕ) (with_port : String → ℕ → String) (config : Config)
    → IsValid parse_port config
    → All ChoosesBaud (spawn_all with_port config).tasks
unfolding spawn_all
spawn_all-ChoosesBaud parse_port with_port config valid =
    let general = config.general in
    let ttl = general.routing_table_ttl_secs in
    let implicit =
      implicit_server-ChoosesBaud with_port (length config.endpoint) general.tcp_port in
    let configured = spawn_endpoints-ChoosesBaud parse_port ttl 0 config.endpoint valid.0 in
    let log = logger-ChoosesBaud general.log_telemetry general.log in
    let interval = (dedup_of general).bucket_interval in
    All-append ChoosesBaud (rotator interval)
      (updater general
        ∷ ((implicit_server with_port (length config.endpoint) general.tcp_port).0
            ++ (logger general.log_telemetry general.log
                ++ (spawn_endpoints ttl 0 config.endpoint).0)))
      (rotator-ChoosesBaud interval)
      (tt, All-append ChoosesBaud _ _ implicit (All-append ChoosesBaud _ _ log configured))
