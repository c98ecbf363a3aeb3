-- ===== src/Command/Migrate.antt =====
-- services/api-gateway/cli/migrate.go, which services/scheduler/cli/migrate.go repeats word for
-- word: the schema of PostgreSQL, one file after the other.
pub mod Order
use go_task_flow.Service.Process.{
  P, Outside, Process, Step, Resource, opened, closed, executed, failed, opening, pool, stepped,
}
use go_task_flow.Service.Process.Closing.{
  IsTidy, Tidy, failed-IsTidy, opening-IsTidy, executing, unchanged,
}
use go_task_flow.Service.Flags.{Viper}
use go_task_flow.Consumer.{Flow, returned}
use go_task_flow.Domain.Errors.{Error, Result, ok, err, wrap}
use go_task_flow.Prelude.{String, ◌<>◌, ◌≡◌, refl, Option, none, some, List, [], ◌∷◌, arith}

abbrev pub files : List String
files = "001_create_tasks.sql" ∷ "002_create_executions.sql" ∷ []

module _ (out : Outside) where
  -- Behind Exec: an error ends the loop.
  executed_file : String → P → String → Option Error → P
  executed_file name rest sql (some e) p =
      failed (wrap ("execute migration " <> name) e) (stepped (executed sql (some e)) p)
  executed_file name rest sql none p = rest (stepped (executed sql none) p)

  read_migration : String → P → Result String → P
  unfolding executed_file
  read_migration name rest (err e) p = failed (wrap ("read migration " <> name) e) p
  read_migration name rest (ok sql) p = executed_file name rest sql (out.exec_error p sql) p

  apply_files : List String → P
  unfolding read_migration
  apply_files [] p = (returned none, p)
  apply_files (name ∷ names) p = read_migration name (apply_files names) (out.read_file name) p

  connected : String → Option Error → P
  unfolding apply_files
  connected dsn (some e) = failed (wrap "connect postgres" e)
  connected dsn none = opening (pool dsn) (apply_files files)

  unfoldable pub run_migrate : Viper → P
  unfolding connected
  run_migrate v p = let dsn = v.get_string "postgres_dsn" in connected dsn (out.pool_error p dsn) p

  -- The command of services/scheduler/cli/migrate.go.
  unfoldable pub run_migrate_scheduler : Viper → P
  unfolding run_migrate
  run_migrate_scheduler v = run_migrate v
