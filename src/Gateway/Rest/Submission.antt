-- ===== src/Gateway/Rest/Submission.antt =====
-- What a submission leaves behind, for each code that it is answered with.
use go_task_flow.StateStore.RoundTrip.{meta_key-other-state_key}
use go_task_flow.Prelude.Texts.{str_eq_refl}
use go_task_flow.Domain.Errors.{wrap_err, Error, Result, err, ok}
use go_task_flow.World.Views.{value, messages}
use go_task_flow.Gateway.Rest.{
  SubmitTaskRequest, enqueue, after_status, after_meta, validated, Response, submitted, new_task,
  submit_task, store_and_enqueue,
}
use go_task_flow.StateStore.{state_ttl, state_key, meta_key, set_status, write_meta, set_task_meta}
use go_task_flow.World.{History, Outgoing, Env, redis_set, uuid_made}
use go_task_flow.Prelude.{
  false, ℕ, String, ◌<>◌, if◌then◌else◌, ◌≡◌, refl, inl, inr, Option, none, some, ◌∷◌, arith,
  Option-cases, ◌||◌, str_eq, Bool-cases,
}
use go_task_flow.Repository.{create}
use go_task_flow.Domain.{pending, Task}
use go_task_flow.Producer.{publish}
use go_task_flow.Gateway.{pending_topic, is_blank}

abbrev pub pending_message : Task → String → Outgoing
pending_message task bytes = record { topic = pending_topic; key = task.id; value = bytes }

-- What a submission that fails leaves in Redis, from h to g: nothing, its metadata alone, or its
-- metadata and its state, and no other key is changed.
pub data Left (env : Env) (task : Task) (h g : History) : Type 0 where
  nothing_stored : ((k : String) → value k g ≡ value k h) → Left env task h g
  only_meta :
      (bytes : String)
      → env.encode task ≡ ok bytes
      → value (meta_key task.id) g ≡ some bytes
      → ((k : String) → str_eq (meta_key task.id) k ≡ false → value k g ≡ value k h)
      → Left env task h g
  all_stored :
      (bytes : String)
      → env.encode task ≡ ok bytes
      → value (state_key task.id) g ≡ some pending
      → value (meta_key task.id) g ≡ some bytes
      → ((k : String)
          → str_eq (state_key task.id) k ≡ false
          → str_eq (meta_key task.id) k ≡ false
          → value k g ≡ value k h)
      → Left env task h g

-- The answer to a submission, and what it says of Redis and Kafka.
pub data SubmitOutcome (env : Env) (request : Option SubmitTaskRequest) (h : History)
    (r : Response × History) : Type 0 where
  rejected : r.0.code ≡ 400 → r.1 ≡ h → SubmitOutcome env request h r
  refused :
      (req : SubmitTaskRequest) (id : String) (now : ℕ)
      → request ≡ some req
      → id ≡ env.new_uuid h
      → now ≡ env.now (uuid_made id ∷ h)
      → r.0.code ≡ 500
      → ((t : String) → messages t r.1 ≡ messages t h)
      → Left env (new_task id now req) h r.1
      → SubmitOutcome env request h r
  enqueued :
      (req : SubmitTaskRequest) (id : String) (now : ℕ) (bytes : String)
      → request ≡ some req
      → id ≡ env.new_uuid h
      → now ≡ env.now (uuid_made id ∷ h)
      → r.0 ≡ record {
        code = 202;
        body = submitted (record { task_id = id; status = pending; created_at = now });
      }
      → env.encode (new_task id now req) ≡ ok bytes
      → value (state_key id) r.1 ≡ some pending
      → value (meta_key id) r.1 ≡ some bytes
      → ((k : String)
          → str_eq (state_key id) k ≡ false
          → str_eq (meta_key id) k ≡ false
          → value k r.1 ≡ value k h)
      → ((t : String)
          → messages t r.1 ≡ (
              if str_eq pending_topic t
              then pending_message (new_task id now req) bytes ∷ messages t h
              else messages t h))
      → SubmitOutcome env request h r

module _ (env : Env) (req : SubmitTaskRequest) (id : String) (now : ℕ) (h : History)
    (minted : id ≡ env.new_uuid h) (dated : now ≡ env.now (uuid_made id ∷ h)) where
  abbrev task : Task
  task = new_task id now req

  -- The task's keys are written, and no message has been sent.
  record IsStored (bytes : String) (g : History) : Type 0 where
    state : value (state_key id) g ≡ some pending
    meta : value (meta_key id) g ≡ some bytes
    others :
        (k : String)
        → str_eq (state_key id) k ≡ false
        → str_eq (meta_key id) k ≡ false
        → value k g ≡ value k h
    topics : (t : String) → messages t g ≡ messages t h

  -- A failure, behind what was stored before it.
  failed :
      {r : Response × History}
      → r.0.code ≡ 500
      → ((t : String) → messages t r.1 ≡ messages t h)
      → Left env task h r.1
      → SubmitOutcome env (some req) h r
  failed = refused req id now refl minted dated

  enqueue-SubmitOutcome :
      (bytes : String) (g : History)
      → env.encode task ≡ ok bytes
      → IsStored bytes g
      → SubmitOutcome env (some req) h (enqueue env task (ok bytes) g)
  unfolding enqueue publish messages value
  enqueue-SubmitOutcome bytes g encoded x =
      elim (Option-cases (env.write_answer g (pending_message task bytes))) [
        | inl taken ↦
            enqueued req id now bytes refl minted dated (ground arith) encoded
              (ground (arith, x.state)) (ground (arith, x.meta))
              (λ k s m. ground (arith, x.others k s m)) (λ t. ground (arith, x.topics t))
        | inr (e, lost) ↦
            failed (ground arith) (λ t. ground (arith, x.topics t))
              (all_stored bytes encoded (ground (arith, x.state)) (ground (arith, x.meta))
                (λ k s m. ground (arith, x.others k s m)))
      ]

  after_status-SubmitOutcome :
      (bytes : String) (e : Option Error) (g : History)
      → env.encode task ≡ ok bytes
      → value (meta_key id) g ≡ some bytes
      → ((k : String) → str_eq (meta_key id) k ≡ false → value k g ≡ value k h)
      → ((t : String) → messages t g ≡ messages t h)
      → SubmitOutcome env (some req) h (
          after_status env task
            (wrap_err ("redis set status for " <> id) e)
            (redis_set (state_key id) pending state_ttl e ∷ g))
  unfolding after_status create messages value
  after_status-SubmitOutcome bytes (some x) g encoded meta others topics =
      failed refl topics (only_meta bytes encoded meta others)
  after_status-SubmitOutcome bytes none g encoded meta others topics = rw encoded (
      enqueue-SubmitOutcome bytes _ encoded (record {
        state = ground (arith, str_eq_refl (state_key id));
        meta = ground (arith, meta_key-other-state_key id id);
        others = λ k s m. ground (arith, s, others k m);
        topics = topics;
      }))

  after_meta-SubmitOutcome :
      (bytes : String) (e : Option Error) (g : History)
      → env.encode task ≡ ok bytes
      → ((k : String) → value k g ≡ value k h)
      → ((t : String) → messages t g ≡ messages t h)
      → SubmitOutcome env (some req) h (
          after_meta env task
            (wrap_err ("redis set meta for " <> id) e)
            (redis_set (meta_key id) bytes state_ttl e ∷ g))
  unfolding after_meta set_status messages value
  after_meta-SubmitOutcome bytes (some x) g encoded same topics =
      failed refl topics (nothing_stored same)
  after_meta-SubmitOutcome bytes none g encoded same topics =
      after_status-SubmitOutcome bytes _ _ encoded (ground (arith, str_eq_refl (meta_key id)))
        (λ k m. ground (arith, m, same k)) topics

  meta-SubmitOutcome :
      (r : Result String) (g : History)
      → env.encode task ≡ r
      → ((k : String) → value k g ≡ value k h)
      → ((t : String) → messages t g ≡ messages t h)
      → let m = write_meta env task r g in
        SubmitOutcome env (some req) h (after_meta env task m.0 m.1)
  unfolding write_meta after_meta
  meta-SubmitOutcome (err e) g encoded same topics = failed refl topics (nothing_stored same)
  meta-SubmitOutcome (ok bytes) g encoded same topics =
      after_meta-SubmitOutcome bytes _ g encoded same topics

module _ (env : Env) where
  store-SubmitOutcome :
      (req : SubmitTaskRequest) (h : History)
      → SubmitOutcome env (some req) h (store_and_enqueue env req h)
  unfolding store_and_enqueue set_task_meta messages value
  store-SubmitOutcome req h =
      meta-SubmitOutcome env req (env.new_uuid h) (env.now (uuid_made (env.new_uuid h) ∷ h)) h refl
        refl _ _ refl (λ k. refl) (λ t. refl)

  validated-SubmitOutcome :
      (d : Option SubmitTaskRequest) (h : History) → SubmitOutcome env d h (validated env d h)
  unfolding validated
  validated-SubmitOutcome none h = rejected refl refl
  validated-SubmitOutcome (some req) h = elim (Bool-cases (is_blank req.type)) [
    | inl blank ↦ rw blank (rejected refl refl)
    | inr typed ↦ elim (Bool-cases (str_eq req.payload "" || str_eq req.payload "null")) [
      | inl empty ↦ rw (typed, empty) (rejected refl refl)
      | inr full ↦ rw (typed, full) (store-SubmitOutcome req h)
    ]
  ]

  -- Every submission is answered in one of three ways. 400: nothing at all was done. 500: no topic
  -- has a new message, and in Redis stands nothing of the task that the request makes at the time
  -- of the answer, its encoding alone, or its encoding and its state PENDING. 202: both stand in
  -- Redis, and tasks.pending has exactly one new message, the encoding under the task's id, and no
  -- other topic has one. In all three no other key is changed. What stands in Redis and Kafka is
  -- what they acknowledged.
  pub submit_task-SubmitOutcome :
      (decode_request : String → Option SubmitTaskRequest) (body : String) (h : History)
      → SubmitOutcome env (decode_request body) h (submit_task env decode_request body h)
  unfolding submit_task
  submit_task-SubmitOutcome decode_request body h = validated-SubmitOutcome (decode_request body) h
