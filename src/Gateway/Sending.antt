-- ===== src/Gateway/Sending.antt =====
-- What a submission sends, over REST and over gRPC.
use go_task_flow.World.Sending.{Adds, Adds-none, Adds-one, Adds-trans}
use go_task_flow.Gateway.Rest
use go_task_flow.Gateway.Grpc
use go_task_flow.Gateway.{pending_topic, is_blank}
use go_task_flow.Gateway.Agreement.{rest_request, store-Agree, Agree, both_accept, both_fail}
use go_task_flow.StateStore.{state_key, meta_key, state_ttl, set_status, set_task_meta}
use go_task_flow.Producer.{publish}
use go_task_flow.Repository.{create}
use go_task_flow.Domain.{Task, pending}
use go_task_flow.Domain.Errors.{ok, Result-cases}
use go_task_flow.World.{History, Outgoing, Env, clock_read, uuid_made, redis_set}
use go_task_flow.World.Views.{sent}
use go_task_flow.Prelude.{
  ℕ, String, ◌≡◌, refl, ◌||◌, Option, none, some, ◌∷◌, arith, str_eq, inl, inr, Bool-cases,
  Option-cases,
}

module _ (env : Env) (P : String → Outgoing → Type 0) (req : Rest.SubmitTaskRequest) where
  -- What is asked of the message of a new task.
  abbrev pub AllowsNew : Type 0
  AllowsNew =
      (id : String) (now : ℕ) (bytes : String)
      → env.encode (Rest.new_task id now req) ≡ ok bytes
      → P pending_topic (record { topic = pending_topic; key = id; value = bytes })

  pub store-Adds : (h : History) → AllowsNew → Adds P h (Rest.store_and_enqueue env req h).1
  unfolding Rest.store_and_enqueue Rest.after_meta Rest.after_status Rest.enqueue Rest.accepted
      set_task_meta set_status create publish sent
  store-Adds h allows =
      let id : String = env.new_uuid h in
      let now : ℕ = env.now (uuid_made id ∷ h) in
      let h₁ : History = clock_read now ∷ uuid_made id ∷ h in
      let task : Task = Rest.new_task id now req in
      elim (Result-cases (env.encode task)) [
        | inr (x, bad) ↦ Adds-none P h (Rest.store_and_enqueue env req h).1 (λ t. ground arith)
        | inl (bytes, good) ↦
            let h₂ : History = redis_set (meta_key id) bytes state_ttl none ∷ h₁ in
            elim (Option-cases (env.set_answer h₁ (meta_key id) bytes state_ttl)) [
              | inr (x, lost) ↦
                  Adds-none P h (Rest.store_and_enqueue env req h).1 (λ t. ground arith)
              | inl stored ↦
                  elim (Option-cases (env.set_answer h₂ (state_key id) pending state_ttl)) [
                    | inr (x, lost) ↦
                        Adds-none P h (Rest.store_and_enqueue env req h).1 (λ t. ground arith)
                    | inl set ↦
                        Adds-one P h (Rest.store_and_enqueue env req h).1
                          (record { topic = pending_topic; key = id; value = bytes })
                          (λ t. ground arith) (allows id now bytes good)
                  ]
            ]
      ]

module _ (env : Env) (P : String → Outgoing → Type 0) where
  pub validated-Adds :
      (d : Option Rest.SubmitTaskRequest) (h : History)
      → ((req : Rest.SubmitTaskRequest) → AllowsNew env P req)
      → Adds P h (Rest.validated env d h).1
  unfolding Rest.validated
  validated-Adds none h allows = Adds-none P h h (λ t. refl)
  validated-Adds (some req) h allows = elim (Bool-cases (is_blank req.type)) [
    | inl blank ↦ rw blank (Adds-none P h h (λ t. refl))
    | inr typed ↦ elim (Bool-cases (str_eq req.payload "" || str_eq req.payload "null")) [
      | inl empty ↦ rw (typed, empty) (Adds-none P h h (λ t. refl))
      | inr full ↦ rw (typed, full) (store-Adds env P req h (allows req))
    ]
  ]

  -- The REST submission of the same task sends the same.
  sent-Agree :
      (type : String) {r : Rest.Response × History}
      {g : Grpc.Reply Grpc.SubmitTaskResponse × History}
      → Agree type r g
      → (t : String) → sent t g.1 ≡ sent t r.1
  unfolding sent
  sent-Agree type (both_accept id at_ x y counted_) t = rw counted_ refl
  sent-Agree type (both_fail msg x y same) t = rw same refl

  pub grpc-Adds :
      (req : Grpc.SubmitTaskRequest) (h : History)
      → AllowsNew env P (rest_request req)
      → Adds P h (Grpc.submit_task env req h).1
  unfolding Grpc.submit_task
  grpc-Adds req h allows = elim (Bool-cases (str_eq req.type "")) [
    | inl untyped ↦ rw untyped (Adds-none P h h (λ t. refl))
    | inr typed ↦ elim (Bool-cases (str_eq req.payload "")) [
      | inl empty ↦ rw (typed, empty) (Adds-none P h h (λ t. refl))
      | inr full ↦
          rw (typed, full)
            (Adds-trans P h (Rest.store_and_enqueue env (rest_request req) h).1
              (Grpc.store_and_enqueue env req h).1 (store-Adds env P (rest_request req) h allows)
              (Adds-none P (Rest.store_and_enqueue env (rest_request req) h).1
                (Grpc.store_and_enqueue env req h).1 (sent-Agree req.type (store-Agree env req h))))
    ]
  ]
