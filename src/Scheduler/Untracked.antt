-- ===== src/Scheduler/Untracked.antt =====
-- runJob of services/scheduler/scheduler.go and GetTaskStatus of services/api-
-- gateway/handler/rest.go: the task of a job seen from the gateway.
use go_task_flow.Scheduler.{pending_topic, task_of, bytes_or_nil, run_job}
use go_task_flow.Gateway.Rest.{get_task_status, write_error}
use go_task_flow.StateStore.{meta_key, get_task_meta, read_error}
use go_task_flow.Repository.{get_by_id, scan_task}
use go_task_flow.Producer.{publish}
use go_task_flow.Domain.Errors.{err, redis_nil, no_rows, as_not_found, is_redis_nil, Result-cases}
use go_task_flow.World.{
  Env, History, Outgoing, ScheduledJob, insert_task, sql_exec, clock_read, uuid_made, redis_get,
}
use go_task_flow.World.Views.{value}
use go_task_flow.Prelude.{
  ℕ, String, ◌≡◌, ◌∙◌, Bool, false, ◌||◌, none, [], ◌∷◌, str_eq, arith, inl, inr, Option-cases,
}

-- PostgreSQL acknowledged the row of a task.
unfoldable pub has_row : String → History → Bool
has_row id [] = false
has_row id (sql_exec (insert_task task) none ∷ h) = str_eq task.id id || has_row id h
has_row id (_ ∷ h) = has_row id h

-- Redis and PostgreSQL do not have what they were not given.
pub record IsStore (env : Env) : Type 0 where
  pub misses : (h : History) (k : String) → value k h ≡ none → env.get_answer h k ≡ err redis_nil
  pub absent :
      (h : History) (id : String) → has_row id h ≡ false → env.row_answer h id ≡ err no_rows

module _ (env : Env) where
  -- A job leaves the stores of tasks as they are.
  run_job-stores :
      (job : ScheduledJob) (id : String) (h : History)
      → (value (meta_key id) (run_job env job h).1 ≡ value (meta_key id) h)
        × (has_row id (run_job env job h).1 ≡ has_row id h)
  unfolding run_job publish value has_row
  run_job-stores job id h =
      let now : ℕ = env.now h in
      let minted : String = env.new_uuid (clock_read now ∷ h) in
      let h₁ : History = uuid_made minted ∷ clock_read now ∷ h in
      let m : Outgoing = record {
        topic = pending_topic;
        key = minted;
        value = bytes_or_nil (env.encode (task_of job minted now));
      } in
      elim (Option-cases (env.write_answer h₁ m)) [
        | inr (x, lost) ↦ (ground arith, ground arith)
        | inl taken ↦ elim (Result-cases (env.cron job.cron_expr)) [
          | inl (next, good) ↦ (ground arith, ground arith)
          | inr (e, bad) ↦ (ground arith, ground arith)
        ]
      ]

  get_task_status-missing :
      (id : String) (h : History)
      → IsStore env
      → str_eq id "" ≡ false
      → value (meta_key id) h ≡ none
      → has_row id h ≡ false
      → (get_task_status env id h).0 ≡ write_error 404 "task not found"
  unfolding get_task_status get_task_meta read_error get_by_id scan_task as_not_found is_redis_nil
      has_row
  get_task_status-missing id h store named unset unlisted = ground (
    arith,
    named,
    store.misses h (meta_key id) unset,
    store.absent (redis_get (meta_key id) ∷ h) id unlisted,
  )

  -- The task that a job sends is not known to the gateway: a question for its identifier, right
  -- behind the job, is answered with 404, also where Kafka took the task and the job was moved on.
  -- The identifier is not empty and is new to Redis and PostgreSQL, which do not have what they
  -- were not given.
  pub run_job-untracked :
      (job : ScheduledJob) (h : History)
      → IsStore env
      → let id = env.new_uuid (clock_read (env.now h) ∷ h) in
        str_eq id "" ≡ false
        → value (meta_key id) h ≡ none
        → has_row id h ≡ false
        → (get_task_status env id (run_job env job h).1).0 ≡ write_error 404 "task not found"
  run_job-untracked job h store named unset unlisted =
      let (same_meta, same_row) = run_job-stores job _ h in
      get_task_status-missing _ (run_job env job h).1 store named (same_meta ∙ unset)
        (same_row ∙ unlisted)
