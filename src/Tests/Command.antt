-- ===== src/Tests/Command.antt =====
-- init and migrate at concrete services.
use go_task_flow.Command.Init.{Entry, file, directory, Disk, destination, put, Os, run_init}
use go_task_flow.Command.Init.Files.{
  Keeps, MakesDirectories, Written, Keeps-run_init, run_init-Written,
}
use go_task_flow.Command.Migrate.{run_migrate}
use go_task_flow.Command.Migrate.Order.{Migrated, run_migrate-Migrated}
use go_task_flow.Domain.Errors.{ok, external}
use go_task_flow.Service.Flags.{Viper}
use go_task_flow.Service.Process.{Process}
use go_task_flow.Tests.Service.{willing}
use go_task_flow.Prelude.Int.{pos}
use go_task_flow.Prelude.{
  String, ◌<>◌, ◌≡◌, refl, true, false, Option, none, some, List, [], ◌∷◌, str_eq, if◌then◌else◌,
  Bool-cases, inl, inr,
}

abbrev pub joined : List String → String
joined [] = ""
joined (s ∷ []) = s
joined (s ∷ t ∷ rest) = s <> ("/" <> joined (t ∷ rest))

-- A directory where there is nothing.
abbrev or_directory : Option Entry → Option Entry
or_directory none = some directory
or_directory (some entry) = some entry

abbrev with_directory : Disk → String → Disk
with_directory d path q = if str_eq path q then or_directory (d q) else d q

-- Every write fails in the middle.
abbrev full_disk : Os
full_disk = record {
  home_dir = ok "/home/u";
  join = joined;
  dir = λ path. "/home/u/.go-task-flow";
  mkdir_all = λ d path. (none, with_directory d path);
  stat_error = λ d path. none;
  write_error = λ d path. some (external "no space left on device", some "");
}

directory-Keeps : (d : Disk) (path : String) → Keeps d (with_directory d path)
directory-Keeps d path q content here = elim (Bool-cases (str_eq path q)) [
  | inl same ↦ rw (same, here) refl
  | inr other ↦ rw other here
]

full_disk-MakesDirectories : MakesDirectories full_disk
full_disk-MakesDirectories = record { keeps = directory-Keeps }

-- A file that stands where --config points.
abbrev one_config : Disk
one_config q = if str_eq "c.yaml" q then some (file "old") else none

Keeps-run_init_example :
    Keeps one_config (run_init full_disk false "c.yaml" "worker" "new" one_config).1
Keeps-run_init_example =
    Keeps-run_init full_disk "c.yaml" "worker" "new" one_config full_disk-MakesDirectories

-- With --force the file is lost when the write fails.
truncated : (run_init full_disk true "c.yaml" "worker" "new" one_config).1 "c.yaml" ≡ some (file "")
unfolding run_init destination put
truncated = refl

run_init-Written_example :
    Written full_disk "c.yaml" "worker" "new" one_config
      (run_init full_disk true "c.yaml" "worker" "new" one_config)
run_init-Written_example =
    run_init-Written full_disk true "c.yaml" "worker" "new" one_config full_disk-MakesDirectories

abbrev database : Viper
database = record { get_string = λ key. "dsn"; get_int = λ key. pos 0; get_duration = λ key. 0 }

abbrev idle : Process
idle = record { history = []; steps = [] }

run_migrate-Migrated_example : Migrated willing "dsn" idle (run_migrate willing database idle)
run_migrate-Migrated_example = run_migrate-Migrated willing database idle
