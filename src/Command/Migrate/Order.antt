-- ===== src/Command/Migrate/Order.antt =====
-- services/*/cli/migrate.go: the statements that migrate executes.
use go_task_flow.Command.Migrate.{
  files, executed_file, read_migration, apply_files, connected, run_migrate,
}
use go_task_flow.Service.Process.{
  P, Outside, Process, Step, opened, closed, executed, opening, deferred, closed_after, pool,
  stepped,
}
use go_task_flow.Service.Flags.{Viper}
use go_task_flow.Consumer.{Flow, again, returned}
use go_task_flow.Domain.Errors.{Error, Result, ok, err, wrap}
use go_task_flow.Prelude.{String, ◌<>◌, ◌≡◌, refl, ap, ◌++◌, Option, none, some, List, [], ◌∷◌}

-- The statements that were executed without an error, in their order.
unfoldable pub pushed : List String → List Step → List Step
pushed [] l = l
pushed (sql ∷ sqls) l = pushed sqls (executed sql none ∷ l)

module _ (out : Outside) where
  -- The texts of files.
  pub data Contents : List String → List String → Type 0 where
    no_files : Contents [] []
    one_file :
        {names sqls : List String} (name sql : String)
        → out.read_file name ≡ ok sql
        → Contents names sqls
        → Contents (name ∷ names) (sql ∷ sqls)

  -- The files up to the first that cannot be read or executed, each once and in order.
  pub data Applied (names : List String) (l : List Step) (e : Option Error) (m : List Step)
      : Type 0 where
    complete :
        (sqls : List String)
        → Contents names sqls
        → e ≡ none
        → m ≡ pushed sqls l
        → Applied names l e m
    unread :
        (before after sqls : List String) (name : String) (x : Error)
        → names ≡ before ++ (name ∷ after)
        → Contents before sqls
        → out.read_file name ≡ err x
        → e ≡ some (wrap ("read migration " <> name) x)
        → m ≡ pushed sqls l
        → Applied names l e m
    refused :
        (before after sqls : List String) (name sql : String) (x : Error)
        → names ≡ before ++ (name ∷ after)
        → Contents before sqls
        → out.read_file name ≡ ok sql
        → e ≡ some (wrap ("execute migration " <> name) x)
        → m ≡ executed sql (some x) ∷ pushed sqls l
        → Applied names l e m

  -- One more file in front.
  Applied-cons :
      (name sql : String) (names : List String) (l : List Step) (e : Option Error) (m : List Step)
      → out.read_file name ≡ ok sql
      → Applied names (executed sql none ∷ l) e m
      → Applied (name ∷ names) l e m
  unfolding pushed
  Applied-cons name sql names l e m text (complete sqls c x y) =
      complete (sql ∷ sqls) (one_file name sql text c) x y
  Applied-cons name sql names l e m text (unread before after sqls n x split c bad y z) =
      unread (name ∷ before) after (sql ∷ sqls) n x (ap (λ r. name ∷ r) split)
        (one_file name sql text c) bad y z
  Applied-cons name sql names l e m text (refused before after sqls n s x split c good y z) =
      refused (name ∷ before) after (sql ∷ sqls) n s x (ap (λ r. name ∷ r) split)
        (one_file name sql text c) good y z

  -- What a run over files returns, with what it has executed.
  abbrev pub Ends : List String → Process → Flow × Process → Type 0
  Ends names p r = (e : Option Error) × (r.0 ≡ returned e) × Applied names p.steps e r.1.steps

  executed_file-Ends :
      (name sql : String) (names : List String) (rest : P) (p : Process) (x : Option Error)
      → out.read_file name ≡ ok sql
      → ((q : Process) → Ends names q (rest q))
      → Ends (name ∷ names) p (executed_file out name rest sql x p)
  unfolding executed_file pushed
  executed_file-Ends name sql names rest p (some x) text later =
      (_, refl, refused [] names [] name sql x refl no_files text refl refl)
  executed_file-Ends name sql names rest p none text later =
      let (e, eq, a) = later (stepped (executed sql none) p) in
      (e, eq, Applied-cons name sql names p.steps e _ text a)

  read_migration-Ends :
      (name : String) (names : List String) (rest : P) (p : Process) (r : Result String)
      → out.read_file name ≡ r
      → ((q : Process) → Ends names q (rest q))
      → Ends (name ∷ names) p (read_migration out name rest r p)
  unfolding read_migration pushed
  read_migration-Ends name names rest p (err x) text later =
      (_, refl, unread [] names [] name x refl no_files text refl refl)
  read_migration-Ends name names rest p (ok sql) text later =
      executed_file-Ends name sql names rest p (out.exec_error p sql) text later

  apply_files-Ends : (names : List String) (p : Process) → Ends names p (apply_files out names p)
  unfolding apply_files pushed
  apply_files-Ends [] p = (none, refl, complete [] no_files refl refl)
  apply_files-Ends (name ∷ names) p =
      read_migration-Ends name names (apply_files out names) p (out.read_file name) refl
        (apply_files-Ends names)

  -- A run of migrate: no connection, or the migrations between the opening and the closing of the
  -- pool.
  pub data Migrated (dsn : String) (p : Process) (r : Flow × Process) : Type 0 where
    unconnected :
        (e : Error)
        → out.pool_error p dsn ≡ some e
        → r ≡ (returned (some (wrap "connect postgres" e)), p)
        → Migrated dsn p r
    migrated :
        (e : Option Error) (m : List Step)
        → out.pool_error p dsn ≡ none
        → r.0 ≡ returned e
        → Applied files (opened (pool dsn) ∷ p.steps) e m
        → r.1.steps ≡ closed (pool dsn) ∷ m
        → Migrated dsn p r

  closed-Migrated :
      (dsn : String) (p : Process) (r : Flow × Process)
      → out.pool_error p dsn ≡ none
      → Ends files (stepped (opened (pool dsn)) p) r
      → Migrated dsn p (closed_after (pool dsn) r.0 r.1)
  unfolding closed_after
  closed-Migrated dsn p (again, q) up (e, eq, a) = cc
  closed-Migrated dsn p (returned x, q) up (e, eq, a) = migrated e q.steps up eq a refl

  connected-Migrated :
      (dsn : String) (p : Process) (x : Option Error)
      → out.pool_error p dsn ≡ x
      → Migrated dsn p (connected out dsn x p)
  unfolding connected opening deferred
  connected-Migrated dsn p (some e) down = unconnected e down refl
  connected-Migrated dsn p none up =
      closed-Migrated dsn p (apply_files out files (stepped (opened (pool dsn)) p)) up
        (apply_files-Ends files (stepped (opened (pool dsn)) p))

  -- migrate always returns. Without a pool it returns that error and does nothing. Else it
  -- executes the two files once each and in order up to the first that cannot be read or executed,
  -- whose error it returns; it returns nil exactly where there is none; and the pool is closed at
  -- the end.
  pub run_migrate-Migrated :
      (v : Viper) (p : Process) → Migrated (v.get_string "postgres_dsn") p (run_migrate out v p)
  unfolding run_migrate
  run_migrate-Migrated v p = connected-Migrated (v.get_string "postgres_dsn") p _ refl
