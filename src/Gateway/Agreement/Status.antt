-- ===== src/Gateway/Agreement/Status.antt =====
-- The two front ends against each other: GET /api/v1/tasks/{id} and the gRPC GetTaskStatus of the
-- same identifier.
use go_task_flow.Prelude.Int.{bits32}
use go_task_flow.Worker.Delivery.{IsFaithful}
use go_task_flow.Domain.Errors.{Result, ok, err, as_not_found}
use go_task_flow.Domain.{Status, Task}
use go_task_flow.Gateway.{duration_ms, find_task, with_live_status}
use go_task_flow.Gateway.Grpc.{TaskStatusResponse, nanos}
use go_task_flow.Gateway.Rest.{write_error}
use go_task_flow.Gateway.Rest.Lookup.{answer}
use go_task_flow.StateStore.{state_key, meta_key, get_status, get_task_meta}
use go_task_flow.World.{History, Env, redis_get}
use go_task_flow.World.Views.{value}
use go_task_flow.Prelude.{
  ◌/◌, String, ◌≡◌, refl, false, none, some, ◌∷◌, arith, str_eq, inl, inr, Bool-cases,
}
use go_task_flow.Gateway.Rest
use go_task_flow.Gateway.Grpc

-- The gRPC response for a task in a state: times in seconds, attempts as the bits of an int32.
abbrev pub response_for : Task → Status → TaskStatusResponse
response_for task status = record {
  task_id = task.id;
  type = task.type;
  status = status;
  attempts = bits32 task.attempts;
  created_at = task.created_at / nanos;
  completed_at = elim task.completed_at [ none ↦ 0 | some t ↦ t / nanos ];
  duration_ms = duration_ms task;
}

-- The same answer to a question, by calls that are the same.
pub data StatusAgree (rest : Rest.Response × History)
    (grpc : Grpc.Reply TaskStatusResponse × History) : Type 0 where
  both_found :
      (task : Task) (status : Status)
      → rest.0 ≡ answer task status
      → grpc.0 ≡ Grpc.reply (response_for task status)
      → rest.1 ≡ grpc.1
      → StatusAgree rest grpc
  both_missing :
      rest.0 ≡ write_error 404 "task not found"
      → grpc.0 ≡ Grpc.status_error Grpc.not_found "task not found"
      → rest.1 ≡ grpc.1
      → StatusAgree rest grpc
  both_fail :
      rest.0 ≡ write_error 500 "failed to retrieve task"
      → grpc.0 ≡ Grpc.status_error Grpc.internal "failed to retrieve task"
      → rest.1 ≡ grpc.1
      → StatusAgree rest grpc
  both_refuse :
      rest.0 ≡ write_error 400 "task ID is required"
      → grpc.0 ≡ Grpc.status_error Grpc.invalid_argument "task_id is required"
      → rest.1 ≡ grpc.1
      → StatusAgree rest grpc

module _ (env : Env) (id : String) where
  found-StatusAgree :
      (r : Result Task) (h : History) → StatusAgree (Rest.found env id r h) (Grpc.found env id r h)
  unfolding Rest.found Grpc.found duration_ms
  found-StatusAgree (err e) h = elim (Bool-cases (as_not_found e)) [
    | inl missing ↦ rw missing (both_missing refl refl refl)
    | inr failed ↦ rw failed (both_fail refl refl refl)
  ]
  found-StatusAgree (ok stored) h =
      let task : Task = (with_live_status env id stored h).0 in
      both_found task task.status refl refl refl

  -- For every identifier the two questions make the same calls and agree: both answer the same
  -- task in the same state, both say that there is none, both fail, or, for the empty identifier,
  -- both refuse the question.
  pub get_task_status-StatusAgree :
      (h : History) → StatusAgree (Rest.get_task_status env id h) (Grpc.get_task_status env id h)
  unfolding Rest.get_task_status Grpc.get_task_status
  get_task_status-StatusAgree h = elim (Bool-cases (str_eq id "")) [
    | inl absent ↦ rw absent (both_refuse refl refl refl)
    | inr named ↦ rw named (found-StatusAgree (find_task env id h).0 (find_task env id h).1)
  ]

  -- With its metadata and its state in Redis, a task is answered from there.
  pub get_task_status-stored :
      (task : Task) (bytes : String) (s : Status) (h : History)
      → str_eq id "" ≡ false
      → IsFaithful env
      → env.decode bytes ≡ some task
      → value (meta_key id) h ≡ some bytes
      → value (state_key id) h ≡ some s
      → (Grpc.get_task_status env id h).0 ≡ Grpc.reply (response_for task s)
  unfolding Grpc.get_task_status get_task_meta get_status duration_ms value
  get_task_status-stored task bytes s h named faithful decoded meta state = ground (
    arith,
    named,
    faithful.reads h (meta_key id) bytes meta,
    faithful.reads (redis_get (meta_key id) ∷ h) (state_key id) s state,
  )
