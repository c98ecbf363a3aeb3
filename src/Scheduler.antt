-- ===== src/Scheduler.antt =====
-- services/scheduler/scheduler.go: leader election in Redis and the jobs that are due. Logging is
-- left out.
pub mod Leadership
pub mod Jobs
pub mod Ticks
pub mod Firing
pub mod Sending
pub mod Untracked
use go_task_flow.Prelude.Int.{pos}
use go_task_flow.Domain.Errors.{is_redis_nil, wrap_err, Error, Result, err, ok, wrap}
use go_task_flow.World.{
  new_uuid, M, ◌>>=◌, ◌>>◌, pure, time_now, client_set_nx, run_renew_script, query_due_jobs,
  pool_exec, wait_timer, ScheduledJob, Env, update_job,
}
use go_task_flow.Prelude.{
  ℕ, zero, suc, String, ◌<>◌, Bool, true, false, Option, none, some, List, [], ◌∷◌, ◌==◌,
  if◌then◌else◌,
}
use go_task_flow.Domain.{pending, Task}
use go_task_flow.Producer.{publish}

abbrev pub leader_key : String
leader_key = "scheduler:leader"

-- 30 seconds and 15 seconds, in nanoseconds.
abbrev pub leader_ttl : ℕ
leader_ttl = 30_000_000_000

abbrev pub check_interval : ℕ
check_interval = 15_000_000_000

abbrev pub pending_topic : String
pending_topic = "tasks.pending"

-- leaderTTL.Milliseconds()
abbrev pub leader_ttl_ms : ℕ
leader_ttl_ms = 30_000

-- The task that a job makes at a time.
abbrev pub task_of : ScheduledJob → String → ℕ → Task
task_of job id now = record {
  id = id;
  type = job.task_type;
  payload = job.payload;
  status = pending;
  priority = pos 0;
  attempts = pos 0;
  max_retries = pos 0;
  created_at = now;
  updated_at = now;
  scheduled_at = none;
  completed_at = none;
}

-- `payload, _ := json.Marshal(task)`: no bytes where it fails.
abbrev pub bytes_or_nil : Result String → String
bytes_or_nil (ok bytes) = bytes
bytes_or_nil (err e) = ""

-- The rows of the query: the first error of Scan ends the loop.
add_job : Result ScheduledJob → Result (List ScheduledJob) → Result (List ScheduledJob)
add_job (err e) rest = err (wrap "scan scheduled_job" e)
add_job (ok j) (err e) = err e
add_job (ok j) (ok js) = ok (j ∷ js)

unfoldable pub scan_jobs : List (Result ScheduledJob) → Result (List ScheduledJob)
unfolding add_job
scan_jobs [] = ok []
scan_jobs (row ∷ rows) = add_job row (scan_jobs rows)

-- rows.Err() after the loop: processDueJobs drops the jobs when it is set.
loaded : Result (List (Result ScheduledJob) × Option Error) → Result (List ScheduledJob)
unfolding scan_jobs
loaded (err e) = err (wrap "query scheduled_jobs" e)
loaded (ok (rows, none)) = scan_jobs rows
loaded (ok (rows, some e)) = elim (scan_jobs rows) [ err f ↦ err f | ok jobs ↦ err e ]

module _ (env : Env) (instance_id : String) where
  -- `result == 1`; an error, redis.Nil included, is no leadership.
  unfoldable pub renewed : Result ℕ → Bool
  renewed (err e) = false
  renewed (ok n) = n == 1

  unfoldable pub elected : Option Error → M Bool
  unfolding renewed
  elected none = pure true
  elected (some e) =
      if is_redis_nil e
      then (do r ← run_renew_script env leader_key instance_id leader_ttl_ms; pure (renewed r))
      else pure false

  unfoldable pub acquire_or_renew_leadership : M Bool
  unfolding elected
  acquire_or_renew_leadership = do
    e ← client_set_nx env leader_key instance_id leader_ttl
    elected e

module _ (env : Env) where
  unfoldable pub load_due_jobs : M (Result (List ScheduledJob))
  unfolding loaded
  load_due_jobs = do r ← query_due_jobs env; pure (loaded r)

  unfoldable pub reschedule : ScheduledJob → ℕ → Result (ℕ → ℕ) → M (Option Error)
  reschedule job now (err e) = pure (
      some (
        wrap
          ("parse cron "
            <> env.format.quote job.cron_expr
            <> " for job "
            <> env.format.quote job.name)
          e))
  reschedule job now (ok next) = do
    e ← pool_exec env (update_job now (next now) job.id)
    pure (wrap_err ("update scheduled_job " <> env.format.quote job.name) e)

  unfoldable pub after_publish : ScheduledJob → ℕ → Option Error → M (Option Error)
  unfolding reschedule
  after_publish job now (some e) =
      pure (some (wrap ("publish task for job " <> env.format.quote job.name) e))
  after_publish job now none = reschedule job now (env.cron job.cron_expr)

  unfoldable pub run_job : ScheduledJob → M (Option Error)
  unfolding after_publish
  run_job job = do
    now ← time_now env
    id ← new_uuid env
    e ← publish env pending_topic id (bytes_or_nil (env.encode (task_of job id now)))
    after_publish job now e

  -- The loop over the jobs: an error of one is logged.
  unfoldable pub run_jobs : List ScheduledJob → M Unit
  run_jobs [] = pure tt
  run_jobs (job ∷ jobs) = do run_job job; run_jobs jobs

  unfoldable pub processed : Result (List ScheduledJob) → M (Option Error)
  unfolding run_jobs
  processed (err e) = pure (some e)
  processed (ok jobs) = do run_jobs jobs; pure none

  unfoldable pub process_due_jobs : M (Option Error)
  unfolding processed
  process_due_jobs = do r ← load_due_jobs; processed r

module _ (env : Env) (instance_id : String) where
  unfoldable pub led : Bool → M Unit
  led false = pure tt
  led true = do process_due_jobs env; pure tt

  unfoldable pub tick : M Unit
  unfolding led
  tick = do leader ← acquire_or_renew_leadership env instance_id; led leader

  -- The first n rounds of the loop of Run: true when the context ended it.
  rounds : ℕ → M Bool
  rounds zero h = (false, h)
  rounds (suc n) h =
      let (fired, h₁) = wait_timer env (pos check_interval) h in
      elim fired [ false ↦ (true, h₁) | true ↦ rounds n (tick h₁).1 ]

  unfoldable pub run : ℕ → M Bool
  unfolding rounds
  run n = do tick; rounds n
