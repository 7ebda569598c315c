-- ===== src/Config/Loading.antt =====
-- src/config.rs: where a configuration comes from. Each way of loading ends in a valid one.
use Prim.Native.String.{String}
use mavrouter.Prelude.{
  ℕ, subst, Bool, Option, none, some, List, [], arith, ◌≡◌, ◌∷◌, if◌then◌else◌, nat_eq, string_eq,
  name_eq,
}
use mavrouter.Config.{
  Config, default_config, Result, RouterError, ok, err, and_then, validate, filesystem,
  config_parse, config_parse_file,
}
use mavrouter.Config.Merging.{merge}
use mavrouter.Config.Validation.{IsValid}
use mavrouter.Config.Validation.Stages.{and_then-ok}
use mavrouter.Config.Validation.Accepted.{validate_iff}

-- `Option::ok_or`, for what the parameters cannot give.
abbrev required {ℓ} : {A : Type ℓ} → RouterError → Option A → Result A
required e none = err e
required e (some a) = ok a

-- The entries of a directory: a file name, or an error of the iteration.
unfoldable pub toml_names : String → (String → Bool) → List (Option String) → Result (List String)
toml_names dir is_toml [] = ok []
toml_names dir is_toml (none ∷ entries) = err (filesystem dir)
toml_names dir is_toml (some name ∷ entries) =
    and_then (toml_names dir is_toml entries)
      (λ names. ok (if is_toml name then name ∷ names else names))

-- A file name below a directory.
module _ (parse_port : String → Option ℕ) (from_str : String → Option Config)
    (read_to_string : String → Option String) (read_dir : String → Option (List (Option String)))
    (is_toml : String → Bool) (sort : List String → List String)
    (join : String → String → String) where
  unfoldable pub parse : String → Result Config
  parse toml =
      and_then (required config_parse (from_str toml))
        (λ config. and_then (validate parse_port config) (λ u. ok config))

  unfoldable pub load : String → Result Config
  load path = and_then (required (filesystem path) (read_to_string path)) parse

  -- The loop over the sorted names.
  unfoldable pub merge_files : String → Config → List String → Result Config
  merge_files dir merged [] = ok merged
  merge_files dir merged (filename ∷ names) =
      let file_path = join dir filename in
      and_then (required (filesystem file_path) (read_to_string file_path)) (λ content.
        and_then (required (config_parse_file file_path) (from_str content))
          (λ config. merge_files dir (merge merged config) names))

  unfoldable pub load_dir : String → Result Config
  load_dir dir = and_then (required (filesystem dir) (read_dir dir)) (λ entries.
      and_then (toml_names dir is_toml entries) (λ toml_files.
        and_then (merge_files dir default_config (sort toml_files))
          (λ merged. and_then (validate parse_port merged) (λ u. ok merged))))

  -- The file, or the default configuration.
  abbrev pub load_file : Option String → Result Config
  load_file none = ok default_config
  load_file (some path) = load path

  -- The directory on top of it.
  abbrev pub add_dir : Config → Option String → Result Config
  add_dir config none = ok config
  add_dir config (some dir_path) = and_then (load_dir dir_path) (λ dir_config.
      let combined = merge config dir_config in
      and_then (validate parse_port combined) (λ u. ok combined))

  unfoldable pub load_merged : Option String → Option String → Result Config
  load_merged file dir = and_then (load_file file) (λ config. add_dir config dir)

  checked-IsValid :
      (c d : Config) → and_then (validate parse_port c) (λ u. ok c) ≡ ok d → IsValid parse_port d
  checked-IsValid c d h =
      let (u, valid, same) = and_then-ok (validate parse_port c) _ d h in
      let e : c ≡ d = ground (arith, same) in
      subst (IsValid parse_port) e ((validate_iff parse_port c).0 valid)

  default_config-IsValid : IsValid parse_port default_config
  default_config-IsValid = (tt, tt, omega arith, omega arith, omega arith)

  parse-IsValid : (toml : String) (c : Config) → parse toml ≡ ok c → IsValid parse_port c
  unfolding parse
  parse-IsValid toml c h =
      let (config, parsed, checked) = and_then-ok (required config_parse (from_str toml)) _ c h in
      checked-IsValid config c checked

  pub load_file-IsValid :
      (file : Option String) (c : Config) → load_file file ≡ ok c → IsValid parse_port c
  unfolding load
  load_file-IsValid none c h =
      let e : default_config ≡ c = ground (arith, h) in
      subst (IsValid parse_port) e default_config-IsValid
  load_file-IsValid (some path) c h =
      let (content, read, parsed) =
        and_then-ok (required (filesystem path) (read_to_string path)) _ c h in
      parse-IsValid content c parsed

  add_dir-IsValid :
      (config : Config) (dir : Option String) (c : Config)
      → IsValid parse_port config
      → add_dir config dir ≡ ok c
      → IsValid parse_port c
  add_dir-IsValid config none c v h =
      let e : config ≡ c = ground (arith, h) in subst (IsValid parse_port) e v
  add_dir-IsValid config (some dir_path) c v h =
      let (dir_config, loaded, checked) = and_then-ok (load_dir dir_path) _ c h in
      checked-IsValid (merge config dir_config) c checked

  -- Whatever the file system and the TOML parser give, a configuration that the router starts
  -- with, loaded from a file, from a directory, from both merged or from neither, is valid.
  pub load_merged-IsValid :
      (file dir : Option String) (c : Config) → load_merged file dir ≡ ok c → IsValid parse_port c
  unfolding load_merged
  load_merged-IsValid file dir c h =
      let (config, loaded, added) = and_then-ok (load_file file) _ c h in
      add_dir-IsValid config dir c (load_file-IsValid file config loaded) added
