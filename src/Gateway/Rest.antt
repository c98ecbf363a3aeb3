-- ===== src/Gateway/Rest.antt =====
-- services/api-gateway/handler/rest.go: the HTTP handlers. A handler returns the status code and
-- the body that it writes.
pub mod Submission
pub mod Lookup
use go_task_flow.Prelude.Int.{ℤ, pos}
use go_task_flow.Domain.Errors.{as_not_found, Error, Result, err, ok}
use go_task_flow.StateStore.{set_status, get_status, set_task_meta}
use go_task_flow.World.{new_uuid, M, ◌>>=◌, ◌>>◌, pure, emit, time_now, Env, counted, api_submitted}
use go_task_flow.Prelude.{ℕ, String, ◌||◌, Option, none, some, str_eq, if◌then◌else◌}
use go_task_flow.Repository.{create}
use go_task_flow.Domain.{Status, pending, Task}
use go_task_flow.Producer.{publish}
use go_task_flow.Gateway.{pending_topic, is_blank, find_task, with_live_status, duration_ms}

-- The decoded JSON body of POST /api/v1/tasks.
pub record SubmitTaskRequest : Type 0 where
  pub type : String
  pub payload : String
  pub priority : ℤ
  pub scheduled_at : Option ℤ

pub record SubmitTaskResponse : Type 0 where
  pub task_id : String
  pub status : Status
  pub created_at : ℕ

pub record TaskStatusResponse : Type 0 where
  pub task_id : String
  pub type : String
  pub status : Status
  pub priority : ℤ
  pub attempts : ℤ
  pub created_at : ℕ
  pub completed_at : Option ℕ
  pub duration_ms : ℤ

pub data Body : Type 0 where
  error_body : String → Body
  submitted : SubmitTaskResponse → Body
  status_of : TaskStatusResponse → Body
  probe : String → Body

pub record Response : Type 0 where
  pub code : ℕ
  pub body : Body

abbrev pub write_error : ℕ → String → Response
write_error code msg = record { code = code; body = error_body msg }

-- The task that a valid request makes.
abbrev pub new_task : String → ℕ → SubmitTaskRequest → Task
new_task id now req = record {
  id = id;
  type = req.type;
  payload = req.payload;
  status = pending;
  priority = req.priority;
  attempts = pos 0;
  max_retries = pos 3;
  created_at = now;
  updated_at = now;
  scheduled_at = req.scheduled_at;
  completed_at = none;
}

module _ (env : Env) where
  unfoldable pub accepted : Task → Option Error → M Response
  accepted task (some e) = pure (write_error 500 "failed to enqueue task")
  accepted task none = do
    emit (counted (api_submitted task.type))
    pure (record {
      code = 202;
      body =
          submitted (record { task_id = task.id; status = pending; created_at = task.created_at });
    })

  unfoldable pub enqueue : Task → Result String → M Response
  unfolding accepted
  enqueue task (err e) = pure (write_error 500 "failed to serialize task")
  enqueue task (ok bytes) = do e ← publish env pending_topic task.id bytes; accepted task e

  unfoldable pub after_status : Task → Option Error → M Response
  unfolding enqueue
  after_status task (some e) = pure (write_error 500 "failed to create task")
  after_status task none = do create env task; enqueue task (env.encode task)

  unfoldable pub after_meta : Task → Option Error → M Response
  unfolding after_status
  after_meta task (some e) = pure (write_error 500 "failed to create task")
  after_meta task none = do e ← set_status env task.id pending; after_status task e

  unfoldable pub store_and_enqueue : SubmitTaskRequest → M Response
  unfolding after_meta
  store_and_enqueue req = do
    id ← new_uuid env
    now ← time_now env
    let task = new_task id now req
    e ← set_task_meta env task
    after_meta task e

  unfoldable pub validated : Option SubmitTaskRequest → M Response
  unfolding store_and_enqueue
  validated none = pure (write_error 400 "invalid request body")
  validated (some req) =
      if is_blank req.type
      then pure (write_error 400 "field 'type' is required")
      else if str_eq req.payload "" || str_eq req.payload "null"
      then pure (write_error 400 "field 'payload' is required")
      else store_and_enqueue req

  -- POST /api/v1/tasks, with the decoder of its JSON body.
  unfoldable pub submit_task : (String → Option SubmitTaskRequest) → String → M Response
  unfolding validated
  submit_task decode_request body = validated (decode_request body)

  unfoldable pub found : String → Result Task → M Response
  unfolding with_live_status
  found id (err e) = pure (
      if as_not_found e
      then write_error 404 "task not found"
      else write_error 500 "failed to retrieve task")
  found id (ok stored) = do
    task ← with_live_status env id stored
    pure (record {
      code = 200;
      body = status_of (record {
        task_id = task.id;
        type = task.type;
        status = task.status;
        priority = task.priority;
        attempts = task.attempts;
        created_at = task.created_at;
        completed_at = task.completed_at;
        duration_ms = duration_ms task;
      });
    })

  -- GET /api/v1/tasks/{id}
  unfoldable pub get_task_status : String → M Response
  unfolding found find_task
  get_task_status id =
      if str_eq id ""
      then pure (write_error 400 "task ID is required")
      else (do r ← find_task env id; found id r)

  -- GET /healthz
  unfoldable pub healthz : M Response
  healthz = pure (record { code = 200; body = probe "ok" })

  ready : Result Status → Response
  ready (ok s) = record { code = 200; body = probe "ready" }
  ready (err e) =
      if as_not_found e
      then record { code = 200; body = probe "ready" }
      else write_error 503 "redis not ready"

  -- GET /readyz
  unfoldable pub readyz : M Response
  unfolding ready
  readyz = do s ← get_status env "__readyz__"; pure (ready s)
