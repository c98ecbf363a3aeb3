-- ===== src/Gateway/Grpc.antt =====
-- services/api-gateway/handler/grpc.go: the gRPC service, over the same store, repository and
-- producer as the REST handlers.
pub mod Bulk
pub mod Stream
pub mod Submission
use go_task_flow.Prelude.Int.{ℤ, bits32, neg, pos, negsuc}
use go_task_flow.Domain.Errors.{as_not_found, Error, Result, ok, err}
use go_task_flow.StateStore.{set_status, set_task_meta}
use go_task_flow.World.{new_uuid, M, ◌>>=◌, ◌>>◌, pure, time_now, Env}
use go_task_flow.Prelude.{
  ℕ, zero, suc, ◌*◌, ◌/◌, ◌%◌, ◌^◌, String, Option, none, some, str_eq, if◌then◌else◌,
}
use go_task_flow.Repository.{create}
use go_task_flow.Domain.{Status, pending, Task}
use go_task_flow.Producer.{publish}
use go_task_flow.Gateway.{pending_topic, find_task, with_live_status, duration_ms}

-- status.Code of the errors that the service returns.
pub data Code : Type 0 where
  invalid_argument not_found internal : Code

-- A response, or a gRPC status with its message.
pub data Reply {ℓ} (A : Type ℓ) : Type ℓ where
  reply : A → Reply A
  status_error : Code → String → Reply A

-- taskv1.SubmitTaskRequest; `priority` is an int32 and `scheduled_at` is in Unix seconds, 0 for
-- none.
pub record SubmitTaskRequest : Type 0 where
  pub type : String
  pub payload : String
  pub priority : ℤ
  pub scheduled_at : ℤ

pub record SubmitTaskResponse : Type 0 where
  pub task_id : String
  pub status : Status
  pub created_at : ℕ

-- `attempts` is the bit pattern of an int32.
pub record TaskStatusResponse : Type 0 where
  pub task_id : String
  pub type : String
  pub status : Status
  pub attempts : ℕ
  pub created_at : ℕ
  pub completed_at : ℕ
  pub duration_ms : ℤ

abbrev pub nanos : ℕ
nanos = 1_000_000_000

-- time.Unix(req.ScheduledAt, 0), unless it is 0.
unfoldable pub scheduled : ℤ → Option ℤ
unfolding neg
scheduled (pos zero) = none
scheduled (pos (suc s)) = some (pos (suc s * nanos))
scheduled (negsuc s) = some (neg (suc s * nanos))

abbrev pub new_task : String → ℕ → SubmitTaskRequest → Task
new_task id now req = record {
  id = id;
  type = req.type;
  payload = req.payload;
  status = pending;
  priority = req.priority;
  attempts = pos 0;
  max_retries = pos 3;
  created_at = now;
  updated_at = now;
  scheduled_at = scheduled req.scheduled_at;
  completed_at = none;
}

-- `payload, _ := json.Marshal(task)`: no bytes where it fails.
abbrev pub bytes_or_nil : Result String → String
bytes_or_nil (ok bytes) = bytes
bytes_or_nil (err e) = ""

module _ (env : Env) where
  unfoldable pub accepted : Task → Option Error → M (Reply SubmitTaskResponse)
  accepted task (some e) = pure (status_error internal "failed to enqueue task")
  accepted task none =
      pure (
        reply
          (record { task_id = task.id; status = pending; created_at = task.created_at / nanos }))

  unfoldable pub after_status : Task → Option Error → M (Reply SubmitTaskResponse)
  unfolding accepted
  after_status task (some e) = pure (status_error internal "failed to create task")
  after_status task none = do
    create env task
    e ← publish env pending_topic task.id (bytes_or_nil (env.encode task))
    accepted task e

  unfoldable pub after_meta : Task → Option Error → M (Reply SubmitTaskResponse)
  unfolding after_status
  after_meta task (some e) = pure (status_error internal "failed to create task")
  after_meta task none = do e ← set_status env task.id pending; after_status task e

  unfoldable pub store_and_enqueue : SubmitTaskRequest → M (Reply SubmitTaskResponse)
  unfolding after_meta
  store_and_enqueue req = do
    id ← new_uuid env
    now ← time_now env
    let task = new_task id now req
    e ← set_task_meta env task
    after_meta task e

  unfoldable pub submit_task : SubmitTaskRequest → M (Reply SubmitTaskResponse)
  unfolding store_and_enqueue
  submit_task req =
      if str_eq req.type ""
      then pure (status_error invalid_argument "field 'type' is required")
      else if str_eq req.payload ""
      then pure (status_error invalid_argument "field 'payload' is required")
      else store_and_enqueue req

  unfoldable pub found : String → Result Task → M (Reply TaskStatusResponse)
  unfolding with_live_status
  found id (err e) = pure (
      if as_not_found e
      then status_error not_found "task not found"
      else status_error internal "failed to retrieve task")
  found id (ok stored) = do
    task ← with_live_status env id stored
    pure (
        reply (record {
          task_id = task.id;
          type = task.type;
          status = task.status;
          attempts = bits32 task.attempts;
          created_at = task.created_at / nanos;
          completed_at = elim task.completed_at [ none ↦ 0 | some t ↦ t / nanos ];
          duration_ms = duration_ms task;
        }))

  unfoldable pub get_task_status : String → M (Reply TaskStatusResponse)
  unfolding found find_task
  get_task_status id =
      if str_eq id ""
      then pure (status_error invalid_argument "task_id is required")
      else (do r ← find_task env id; found id r)
