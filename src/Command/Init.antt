-- ===== src/Command/Init.antt =====
-- services/worker/cli/init.go: newInitCmd, which the three other commands repeat word for word. It
-- writes a default configuration file.
pub mod Files
pub mod Defaults
use go_task_flow.Domain.Errors.{Error, Result, ok, err, external, wrap}
use go_task_flow.Prelude.{
  String, ◌<>◌, Bool, true, false, Option, none, some, List, [], ◌∷◌, str_eq, if◌then◌else◌,
}

pub data Entry : Type 0 where
  file : String → Entry
  directory : Entry

-- The file system, by paths.
abbrev pub Disk : Type 0
Disk = String → Option Entry

unfoldable pub put : String → String → Disk → Disk
put path content d q = if str_eq path q then some (file content) else d q

-- What the operating system answers.
pub record Os : Type 0 where
  pub home_dir : Result String
  pub join : List String → String
  pub dir : String → String
  pub mkdir_all : Disk → String → Option Error × Disk
  -- An error of os.Stat other than that there is no such file.
  pub stat_error : Disk → String → Option Error
  -- An error of os.WriteFile, with the content that it leaves if it has truncated or created the
  -- file.
  pub write_error : Disk → String → Option (Error × Option String)

-- A computation on the file system.
abbrev pub F : Type 0
F = Disk → Option Error × Disk

module _ (os : Os) where
  -- An unsuccessful write.
  left_behind : String → Option String → Disk → Disk
  left_behind dest none d = d
  left_behind dest (some content) d = put dest content d

  written : String → String → Option (Error × Option String) → F
  unfolding left_behind
  written dest yaml none d = (none, put dest yaml d)
  written dest yaml (some (e, content)) d =
      (some (wrap "write config" e), left_behind dest content d)

  write_config : String → String → F
  unfolding written
  write_config dest yaml d = written dest yaml (os.write_error d dest) d

  -- os.Stat without --force: an entry, or an error that does not say that there is none.
  stat_entry : String → String → Option Entry → F
  unfolding write_config
  stat_entry dest yaml (some entry) d =
      (some (external (dest <> " already exists (use --force to overwrite)")), d)
  stat_entry dest yaml none d = write_config dest yaml d

  checked : String → String → Option Error → F
  unfolding stat_entry
  checked dest yaml (some e) d = (some (wrap ("stat " <> dest) e), d)
  checked dest yaml none d = stat_entry dest yaml (d dest) d

  guarded : Bool → String → String → F
  unfolding checked
  guarded true dest yaml d = write_config dest yaml d
  guarded false dest yaml d = checked dest yaml (os.stat_error d dest) d

  after_mkdir : Bool → String → String → Option Error → F
  unfolding guarded
  after_mkdir force dest yaml (some e) d = (some (wrap "mkdir" e), d)
  after_mkdir force dest yaml none d = guarded force dest yaml d

  -- ~/.go-task-flow/<service>.yaml, or the path of --config.
  default_path : String → Result String → Result String
  default_path service (err e) = err (wrap "home dir" e)
  default_path service (ok home) = ok (os.join (home ∷ ".go-task-flow" ∷ (service <> ".yaml") ∷ []))

  unfoldable pub destination : String → String → Result String
  unfolding default_path
  destination cfg_file service =
      if str_eq cfg_file "" then default_path service os.home_dir else ok cfg_file

  write_default : Bool → String → Result String → F
  unfolding after_mkdir
  write_default force yaml (err e) d = (some e, d)
  write_default force yaml (ok dest) d =
      let (e, d') = os.mkdir_all d (os.dir dest) in after_mkdir force dest yaml e d'

  -- RunE of init.
  unfoldable pub run_init : Bool → String → String → String → F
  unfolding write_default
  run_init force cfg_file service yaml = write_default force yaml (destination cfg_file service)

  unfoldable pub init_worker : Bool → String → String → F
  init_worker force cfg_file yaml = run_init force cfg_file "worker" yaml

  unfoldable pub init_dispatcher : Bool → String → String → F
  init_dispatcher force cfg_file yaml = run_init force cfg_file "dispatcher" yaml

  unfoldable pub init_scheduler : Bool → String → String → F
  init_scheduler force cfg_file yaml = run_init force cfg_file "scheduler" yaml

  unfoldable pub init_api_gateway : Bool → String → String → F
  init_api_gateway force cfg_file yaml = run_init force cfg_file "api-gateway" yaml
