-- ===== src/Gateway/Agreement.antt =====
-- The two front ends against each other: a gRPC submission and the REST submission of the same
-- task.
pub mod Status
use go_task_flow.Domain.Errors.{Error, Result, err, ok}
use go_task_flow.Gateway.Rest.{
  SubmitTaskRequest, SubmitTaskResponse, write_error, enqueue, validated, Response,
}
use go_task_flow.Gateway.Grpc.{
  nanos, scheduled, new_task, accepted, after_status, after_meta, store_and_enqueue, submit_task,
  Reply,
}
use go_task_flow.StateStore.{write_meta, set_task_meta}
use go_task_flow.World.{History, Env, counted, api_submitted, uuid_made}
use go_task_flow.Prelude.{ℕ, ◌/◌, String, ◌≡◌, refl, false, Option, none, some, ◌∷◌, str_eq}
use go_task_flow.Domain.{pending, Task}
use go_task_flow.Gateway.{is_blank}
use go_task_flow.Gateway.Grpc
use go_task_flow.Gateway.Rest

-- The REST request that a gRPC request stands for.
abbrev pub rest_request : Grpc.SubmitTaskRequest → Rest.SubmitTaskRequest
rest_request req = record {
  type = req.type;
  payload = req.payload;
  priority = req.priority;
  scheduled_at = Grpc.scheduled req.scheduled_at;
}

-- Both accept the task, and the REST side counts it; or both fail. All other calls are the same.
pub data Agree (type : String) (rest : Rest.Response × History)
    (grpc : Grpc.Reply Grpc.SubmitTaskResponse × History) : Type 0 where
  both_accept :
      (id : String) (created_at : ℕ)
      → rest.0 ≡ record {
        code = 202;
        body = Rest.submitted (record { task_id = id; status = pending; created_at = created_at });
      }
      → grpc.0
        ≡ Grpc.reply
            (record { task_id = id; status = pending; created_at = created_at / Grpc.nanos })
      → rest.1 ≡ counted (api_submitted type) ∷ grpc.1
      → Agree type rest grpc
  both_fail :
      (msg : String)
      → rest.0 ≡ Rest.write_error 500 msg
      → grpc.0 ≡ Grpc.status_error Grpc.internal msg
      → rest.1 ≡ grpc.1
      → Agree type rest grpc

module _ (env : Env) (task : Task) where
  accepted-Agree :
      (e : Option Error) (h : History)
      → Agree task.type (Rest.accepted env task e h) (Grpc.accepted env task e h)
  unfolding Rest.accepted Grpc.accepted
  accepted-Agree (some e) h = both_fail _ refl refl refl
  accepted-Agree none h = both_accept task.id task.created_at refl refl refl

  after_status-Agree :
      (bytes : String) (e : Option Error) (h : History)
      → env.encode task ≡ ok bytes
      → Agree task.type (Rest.after_status env task e h) (Grpc.after_status env task e h)
  unfolding Rest.after_status Grpc.after_status Rest.enqueue
  after_status-Agree bytes (some e) h encoded = both_fail _ refl refl refl
  after_status-Agree bytes none h encoded = rw encoded (accepted-Agree _ _)

  after_meta-Agree :
      (bytes : String) (e : Option Error) (h : History)
      → env.encode task ≡ ok bytes
      → Agree task.type (Rest.after_meta env task e h) (Grpc.after_meta env task e h)
  unfolding Rest.after_meta Grpc.after_meta
  after_meta-Agree bytes (some e) h encoded = both_fail _ refl refl refl
  after_meta-Agree bytes none h encoded = after_status-Agree bytes _ _ encoded

  meta-Agree :
      (r : Result String) (h : History)
      → env.encode task ≡ r
      → let m = write_meta env task r h in
        Agree task.type (Rest.after_meta env task m.0 m.1) (Grpc.after_meta env task m.0 m.1)
  unfolding write_meta Rest.after_meta Grpc.after_meta
  meta-Agree (err e) h encoded = both_fail _ refl refl refl
  meta-Agree (ok bytes) h encoded = after_meta-Agree bytes _ _ encoded

pub store-Agree :
    (env : Env) (req : Grpc.SubmitTaskRequest) (h : History)
    → Agree req.type
        (Rest.store_and_enqueue env (rest_request req) h)
        (Grpc.store_and_enqueue env req h)
unfolding Rest.store_and_enqueue Grpc.store_and_enqueue set_task_meta
store-Agree env req h =
    meta-Agree env (Grpc.new_task (env.new_uuid h) (env.now (uuid_made (env.new_uuid h) ∷ h)) req) _
      _ refl

-- For a request that both front ends take as valid, the two submissions make the same calls with
-- the same arguments and agree on the result: both fail with the same message, or both accept the
-- task under the same identifier. The one difference is the counter of submitted tasks, which only
-- REST increments.
pub submit_task-Agree :
    (env : Env) (decode_request : String → Option Rest.SubmitTaskRequest) (body : String)
    (req : Grpc.SubmitTaskRequest) (h : History)
    → decode_request body ≡ some (rest_request req)
    → str_eq req.type "" ≡ false
    → is_blank req.type ≡ false
    → str_eq req.payload "" ≡ false
    → str_eq req.payload "null" ≡ false
    → Agree req.type (Rest.submit_task env decode_request body h) (Grpc.submit_task env req h)
unfolding Rest.submit_task Rest.validated Grpc.submit_task
submit_task-Agree env decode_request body req h decoded typed solid full real =
    rw (decoded, typed, solid, full, real) (store-Agree env req h)
