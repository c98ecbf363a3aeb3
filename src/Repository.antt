-- ===== src/Repository.antt =====
-- internal/postgres/repository.go: the tasks and their executions in PostgreSQL.
use go_task_flow.Prelude.{
  ℕ, String, ◌<>◌, Bool, true, false, Option, none, some, List, [], ◌∷◌, if◌then◌else◌, str_eq,
}
use go_task_flow.Domain.{Status, Task, TaskExecution, is_terminal}
use go_task_flow.Domain.Errors.{Error, Result, ok, err, no_rows, task_not_found, wrap, wrap_err}
use go_task_flow.World.{
  Env, M, pure, time_now, new_uuid, pool_exec, query_task, query_tasks, insert_task, update_status,
  insert_execution, ◌>>=◌,
}

-- errors.Is(err, pgx.ErrNoRows).
unfoldable pub is_no_rows : Error → Bool
is_no_rows no_rows = true
is_no_rows (wrap msg e) = is_no_rows e
is_no_rows _ = false

-- The row of a task; an error of Scan becomes TaskNotFoundError or is wrapped.
unfoldable pub scan_task : Result Task → Result Task
unfolding is_no_rows
scan_task (ok task) = ok task
scan_task (err e) =
    if is_no_rows e then err (task_not_found "unknown") else err (wrap "scan task" e)

add_scanned : Result Task → Result (List Task) → Result (List Task)
add_scanned (err e) rest = err e
add_scanned (ok t) (err e) = err e
add_scanned (ok t) (ok ts) = ok (t ∷ ts)

scan_all : List (Result Task) → Result (List Task)
unfolding add_scanned scan_task
scan_all [] = ok []
scan_all (row ∷ rows) = add_scanned (scan_task row) (scan_all rows)

module _ (env : Env) where
  unfoldable pub create : Task → M (Option Error)
  create task = do
    e ← pool_exec env (insert_task task)
    pure (wrap_err ("create task " <> task.id) e)

  unfoldable pub set_row_status : String → Status → M (Option Error)
  unfolding is_terminal
  set_row_status id status = do
    now ← time_now env
    e ← pool_exec env (update_status id status now (if is_terminal status then some now else none))
    pure (wrap_err ("update status for task " <> id) e)

  with_id : TaskExecution → M TaskExecution
  with_id exec =
      if str_eq exec.id "" then (do u ← new_uuid env; pure (record exec { id = u })) else pure exec

  stamped : TaskExecution → Option ℕ → M TaskExecution
  stamped exec none = do now ← time_now env; pure (record exec { executed_at = some now })
  stamped exec (some t) = pure exec

  unfoldable pub record_execution : TaskExecution → M (Option Error)
  unfolding with_id stamped
  record_execution exec = do
    named ← with_id exec
    full ← stamped named named.executed_at
    e ← pool_exec env (insert_execution full)
    pure (wrap_err ("record execution for task " <> full.task_id) e)

  unfoldable pub get_by_id : String → M (Result Task)
  unfolding scan_task
  get_by_id id = do row ← query_task env id; pure (scan_task row)

  -- The loop over the rows: the first error of Scan ends it, then rows.Err() counts.
  listed : Result (List (Result Task) × Option Error) → Result (List Task)
  unfolding scan_all
  listed (err e) = err (wrap "list tasks by status" e)
  listed (ok (rows, none)) = scan_all rows
  listed (ok (rows, some e)) = elim (scan_all rows) [ err f ↦ err f | ok tasks ↦ err e ]

  unfoldable pub list_by_status : Status → ℕ → M (Result (List Task))
  unfolding listed
  list_by_status status limit = do rows ← query_tasks env status limit; pure (listed rows)
