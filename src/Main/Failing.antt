-- ===== src/Main/Failing.antt =====
-- When the program fails.
use mavrouter.Prelude.{
  ℕ, refl, ap, inl, inr, Bool, true, false, Option, List, [], arith, Bool-cases, ◌≡◌, ◌⊎◌, ◌↔◌,
  nat_eq,
}
use Prim.Native.String.{String}
use mavrouter.Config.{Config, RouterError, Result, err, network}
use mavrouter.RunLoop.{Disk, Input, returned, load, run_with_signals}
use mavrouter.RunLoop.Reloads.{run_with_signals-err}
use mavrouter.Main.{Args, Handlers, main}

-- The first of the three steps that fails.
abbrev pub FailsWith : Handlers → Result Config → RouterError → Type 0
FailsWith handlers loaded e =
    ((handlers.hangup ≡ false) × (e ≡ network "SIGHUP handler"))
    ⊎ ((handlers.hangup ≡ true) × (handlers.terminate ≡ false) × (e ≡ network "SIGTERM handler"))
    ⊎ ((handlers.hangup ≡ true) × (handlers.terminate ≡ true) × (loaded ≡ err e))

-- With both handlers, only the load is left.
third :
    (loaded : Result Config) (e : RouterError)
    → FailsWith (record { hangup = true; terminate = true }) loaded e
    → loaded ≡ err e
third loaded e (inl (off, same)) = cc
third loaded e (inr (inl (on, off, same))) = cc
third loaded e (inr (inr (on, both, failed))) = failed

module _ (parse_port : String → Option ℕ) (from_str : String → Option Config)
    (is_toml : String → Bool) (sort : List String → List String)
    (join_path : String → String → String) (with_port : String → ℕ → String) where
  -- A configuration that cannot be loaded ends the program before it has done anything.
  loaded-err :
      (config : String) (config_dir : Option String) (disk : Disk) (inputs : List Input)
      (e : RouterError)
      → load parse_port from_str is_toml sort join_path with_port config config_dir disk ≡ err e
      → run_with_signals parse_port from_str is_toml sort join_path with_port config config_dir disk
          inputs
        ≡ ([], returned (err e))
  unfolding run_with_signals
  loaded-err config config_dir disk inputs e h = rw h refl

  -- The program returns an error exactly if the handler of the hang-up cannot be installed, or else
  -- that of the termination, or else the configuration that it starts with cannot be loaded; it is
  -- the error of the first of these, and nothing has been done by then: no later reload, task or
  -- signal makes the program fail.
  pub main-err :
      (args : Args) (handlers : Handlers) (disk : Disk) (inputs : List Input) (e : RouterError)
      → let out =
          main parse_port from_str is_toml sort join_path with_port args handlers disk inputs in
        (out.1 ≡ returned (err e)) ↔ (
          FailsWith handlers
            (load parse_port from_str is_toml sort join_path with_port args.config args.config_dir
              disk)
            e
          × (out.0 ≡ []))
  unfolding main
  main-err args handlers disk inputs e = elim (Bool-cases handlers.hangup) [
    | inr off ↦
        rw off
          (λ h. (inl (refl, ground (arith, h)), refl), λ (fails, nothing). ground (arith, fails))
    | inl on ↦ elim (Bool-cases handlers.terminate) [
      | inr off ↦
          rw (on, off)
            (
              λ h. (inr (inl (refl, refl, ground (arith, h))), refl),
              λ (fails, nothing). ground (arith, fails),
            )
      | inl both ↦
          let iff =
            run_with_signals-err parse_port from_str is_toml sort join_path with_port args.config
              args.config_dir disk inputs e in
          let stops = loaded-err args.config args.config_dir disk inputs e in
          rw (on, both)
            (
              λ h. (inr (inr (refl, refl, iff.0 h)), ap (λ out. out.0) (stops (iff.0 h))),
              λ (fails, nothing). iff.1 (third _ e fails),
            )
    ]
  ]
