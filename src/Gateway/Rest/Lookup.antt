-- ===== src/Gateway/Rest/Lookup.antt =====
-- What GET /api/v1/tasks/{id} answers: the task that was submitted, and which store it comes from.
use go_task_flow.Worker.Delivery.{IsFaithful}
use go_task_flow.World.Views.{value}
use go_task_flow.Gateway.Rest.Submission.{
  enqueued, submit_task-SubmitOutcome, rejected, refused, SubmitOutcome,
}
use go_task_flow.StateStore.RoundTrip.{IsCodec}
use go_task_flow.StateStore.{state_key, meta_key, get_status, get_task_meta}
use go_task_flow.World.{History, Env, redis_get}
use go_task_flow.Prelude.{ℕ, String, ◌≡◌, false, Option, some, ◌∷◌, arith, str_eq}
use go_task_flow.Domain.{Status, pending, Task}
use go_task_flow.Gateway.Rest.{
  duration_ms, new_task, submit_task, get_task_status, SubmitTaskRequest, Response, status_of,
}

-- The answer for a task.
abbrev pub answer : Task → Status → Response
answer task status = record {
  code = 200;
  body = status_of (record {
    task_id = task.id;
    type = task.type;
    status = status;
    priority = task.priority;
    attempts = task.attempts;
    created_at = task.created_at;
    completed_at = task.completed_at;
    duration_ms = duration_ms task;
  });
}

module _ (env : Env) (id : String) (named : str_eq id "" ≡ false) where
  -- With its metadata and its state in Redis, a task is answered from there.
  pub get_task_status-stored :
      (task : Task) (bytes : String) (s : Status) (h : History)
      → IsFaithful env
      → env.decode bytes ≡ some task
      → value (meta_key id) h ≡ some bytes
      → value (state_key id) h ≡ some s
      → (get_task_status env id h).0 ≡ answer task s
  unfolding get_task_status get_task_meta get_status duration_ms value
  get_task_status-stored task bytes s h faithful decoded meta state = ground (
    arith,
    named,
    faithful.reads h (meta_key id) bytes meta,
    faithful.reads (redis_get (meta_key id) ∷ h) (state_key id) s state,
  )

-- The request that a body decodes to is answered for the identifier as a new task in PENDING.
abbrev pub IsFoundNew :
    Env → (String → Option SubmitTaskRequest) → String → String → History → Type 0
IsFoundNew env decode_request body id h =
    (req : SubmitTaskRequest) × (now : ℕ) × (decode_request body ≡ some req)
    × ((get_task_status env id h).0 ≡ answer (new_task id now req) pending)

-- A task that was accepted with 202 is found again by its identifier: the request's type and
-- priority, no attempts, not completed, and the state PENDING. Redis is faithful, JSON decoding
-- inverts encoding up to the payload's layout, and uuid.New does not give the empty text.
pub submitted_is_found :
    (env : Env) (decode_request : String → Option SubmitTaskRequest) (body : String) (h : History)
    → IsFaithful env
    → IsCodec env
    → str_eq (env.new_uuid h) "" ≡ false
    → (submit_task env decode_request body h).0.code ≡ 202
    → IsFoundNew env decode_request body (env.new_uuid h) (submit_task env decode_request body h).1
unfolding duration_ms
submitted_is_found env decode_request body h faithful codec named code =
    of_outcome (submit_task-SubmitOutcome env decode_request body h)
  where
    of_outcome :
        SubmitOutcome env (decode_request body) h (submit_task env decode_request body h)
        → IsFoundNew env decode_request body
            (env.new_uuid h)
            (submit_task env decode_request body h).1
    of_outcome (rejected c same) = absurd (omega arith)
    of_outcome (refused req id now decoded minted dated c topics left) = absurd (omega arith)
    of_outcome
          (enqueued req id now bytes decoded minted dated reply encoded state meta others topics) =
        let (payload, back) =
          codec.round_trip (new_task (env.new_uuid h) now req) bytes (rw (← minted) encoded) in
        (
          req,
          now,
          decoded,
          get_task_status-stored env (env.new_uuid h) named
              (record (new_task (env.new_uuid h) now req) { payload = payload }) bytes pending _
              faithful back (rw (← minted) meta) (rw (← minted) state),
        )
