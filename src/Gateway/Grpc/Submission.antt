-- ===== src/Gateway/Grpc/Submission.antt =====
-- What SubmitTask of the gRPC service leaves behind, for each reply.
use go_task_flow.StateStore.RoundTrip.{meta_key-other-state_key}
use go_task_flow.Prelude.Texts.{str_eq_refl}
use go_task_flow.Domain.Errors.{wrap_err, Error, Result, ok, err}
use go_task_flow.World.Views.{value, messages}
use go_task_flow.Gateway.Grpc.{after_status, after_meta, store_and_enqueue}
use go_task_flow.Gateway.Grpc.{
  nanos, new_task, submit_task, Reply, SubmitTaskRequest, SubmitTaskResponse, status_error,
  invalid_argument, internal, reply,
}
use go_task_flow.StateStore.{state_ttl, state_key, meta_key, set_status, write_meta, set_task_meta}
use go_task_flow.World.{History, Outgoing, Env, uuid_made, redis_set, sql_exec, insert_task}
use go_task_flow.Prelude.{
  ℕ, ◌/◌, String, ◌<>◌, ◌≡◌, refl, inl, inr, Option, none, some, ◌∷◌, arith, str_eq, if◌then◌else◌,
  Bool-cases, Option-cases,
}
use go_task_flow.Repository.{create}
use go_task_flow.Domain.{pending, Task}
use go_task_flow.Producer.{publish}
use go_task_flow.Gateway.{pending_topic}

-- The message of a task in tasks.pending.
abbrev pub pending_message : Task → String → Outgoing
pending_message task bytes = record { topic = pending_topic; key = task.id; value = bytes }

-- The reply to a submission, and what it says of Redis and Kafka.
pub data GrpcOutcome (env : Env) (req : SubmitTaskRequest) (h : History)
    (r : Reply SubmitTaskResponse × History) : Type 0 where
  invalid : (msg : String) → r ≡ (status_error invalid_argument msg, h) → GrpcOutcome env req h r
  refused :
      (msg : String)
      → r.0 ≡ status_error internal msg
      → ((t : String) → messages t r.1 ≡ messages t h)
      → GrpcOutcome env req h r
  enqueued :
      (id : String) (now : ℕ) (bytes : String)
      → id ≡ env.new_uuid h
      → now ≡ env.now (uuid_made id ∷ h)
      → r.0 ≡ reply (record { task_id = id; status = pending; created_at = now / nanos })
      → env.encode (new_task id now req) ≡ ok bytes
      → value (state_key id) r.1 ≡ some pending
      → value (meta_key id) r.1 ≡ some bytes
      → ((t : String)
          → messages t r.1 ≡ (
              if str_eq pending_topic t
              then pending_message (new_task id now req) bytes ∷ messages t h
              else messages t h))
      → GrpcOutcome env req h r

module _ (env : Env) (req : SubmitTaskRequest) (id : String) (now : ℕ) (h : History)
    (minted : id ≡ env.new_uuid h) (dated : now ≡ env.now (uuid_made id ∷ h)) where
  abbrev task : Task
  task = new_task id now req

  after_status-GrpcOutcome :
      (bytes : String) (e : Option Error) (g : History)
      → env.encode task ≡ ok bytes
      → value (meta_key id) g ≡ some bytes
      → ((t : String) → messages t g ≡ messages t h)
      → GrpcOutcome env req h (
          after_status env task
            (wrap_err ("redis set status for " <> id) e)
            (redis_set (state_key id) pending state_ttl e ∷ g))
  unfolding after_status create publish messages value
  after_status-GrpcOutcome bytes (some x) g encoded meta topics = refused _ refl topics
  after_status-GrpcOutcome bytes none g encoded meta topics =
      elim (Option-cases (
        env.write_answer
          (sql_exec (insert_task task) (
              env.exec_answer (redis_set (state_key id) pending state_ttl none ∷ g)
                (insert_task task))
            ∷ redis_set (state_key id) pending state_ttl none
            ∷ g)
          (pending_message task bytes))) [
            | inl taken ↦
                enqueued id now bytes minted dated (ground (arith, encoded)) encoded
                  (ground (arith, encoded, str_eq_refl (state_key id)))
                  (ground (arith, encoded, meta, meta_key-other-state_key id id))
                  (λ t. ground (arith, encoded, topics t))
            | inr (e, lost) ↦
                refused "failed to enqueue task" (ground (arith, encoded))
                  (λ t. ground (arith, encoded, topics t))
          ]

  after_meta-GrpcOutcome :
      (bytes : String) (e : Option Error) (g : History)
      → env.encode task ≡ ok bytes
      → ((t : String) → messages t g ≡ messages t h)
      → GrpcOutcome env req h (
          after_meta env task
            (wrap_err ("redis set meta for " <> id) e)
            (redis_set (meta_key id) bytes state_ttl e ∷ g))
  unfolding after_meta set_status messages value
  after_meta-GrpcOutcome bytes (some x) g encoded topics = refused _ refl topics
  after_meta-GrpcOutcome bytes none g encoded topics =
      after_status-GrpcOutcome bytes _ _ encoded (ground (arith, str_eq_refl (meta_key id))) topics

  meta-GrpcOutcome :
      (r : Result String) (g : History)
      → env.encode task ≡ r
      → ((t : String) → messages t g ≡ messages t h)
      → let m = write_meta env task r g in GrpcOutcome env req h (after_meta env task m.0 m.1)
  unfolding write_meta after_meta
  meta-GrpcOutcome (err e) g encoded topics = refused _ refl topics
  meta-GrpcOutcome (ok bytes) g encoded topics = after_meta-GrpcOutcome bytes _ g encoded topics

module _ (env : Env) where
  store-GrpcOutcome :
      (req : SubmitTaskRequest) (h : History) → GrpcOutcome env req h (store_and_enqueue env req h)
  unfolding store_and_enqueue set_task_meta messages
  store-GrpcOutcome req h =
      meta-GrpcOutcome env req (env.new_uuid h) (env.now (uuid_made (env.new_uuid h) ∷ h)) h refl
        refl _ _ refl (λ t. refl)

  -- Every gRPC submission ends in one of three ways. InvalidArgument: nothing at all was done.
  -- Internal: no topic has a new message. A response: the task of the request was encoded, its
  -- state PENDING and its encoding stand in Redis under the identifier of the response, and
  -- tasks.pending has exactly one new message, the encoding under the task's id, and no other
  -- topic has one.
  pub submit_task-GrpcOutcome :
      (req : SubmitTaskRequest) (h : History) → GrpcOutcome env req h (submit_task env req h)
  unfolding submit_task
  submit_task-GrpcOutcome req h = elim (Bool-cases (str_eq req.type "")) [
    | inl untyped ↦ rw untyped (invalid _ refl)
    | inr typed ↦ elim (Bool-cases (str_eq req.payload "")) [
      | inl empty ↦ rw (typed, empty) (invalid _ refl)
      | inr full ↦ rw (typed, full) (store-GrpcOutcome req h)
    ]
  ]
