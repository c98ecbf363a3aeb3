-- ===== src/Causes/Gateway.antt =====
-- services/api-gateway/handler/rest.go and grpc.go: what a submission writes.
use go_task_flow.Causes.{
  waits, Grows, Grows-same, Grows-refl, Grows-trans, Growing, Growing-bind, publish-Growing,
  create-Growing, set_task_meta-Growing, set_status-Grows,
}
use go_task_flow.Domain.{Task, pending}
use go_task_flow.Domain.Errors.{Error, Result, ok, err}
use go_task_flow.Gateway.{pending_topic, is_blank}
use go_task_flow.Gateway.Agreement.{Agree, both_accept, both_fail, rest_request, store-Agree}
use go_task_flow.Gateway.Rest
use go_task_flow.Gateway.Grpc
use go_task_flow.Producer.{publish}
use go_task_flow.Repository.{create}
use go_task_flow.StateStore.{set_status, set_task_meta}
use go_task_flow.World.{History, Env, new_uuid, time_now}
use go_task_flow.World.Views.{sets, sent, successes}
use go_task_flow.Prelude.{String, refl, ◌||◌, Option, none, some, str_eq, inl, inr, Bool-cases}

module _ (env : Env) where
  pub time_now-Growing : Growing (time_now env)
  unfolding sets sent successes
  time_now-Growing h = Grows-same h _ (λ id. refl) (λ id. refl) (λ t. refl)

  pub new_uuid-Growing : Growing (new_uuid env)
  unfolding sets sent successes
  new_uuid-Growing h = Grows-same h _ (λ id. refl) (λ id. refl) (λ t. refl)

  accepted-Growing : (task : Task) (e : Option Error) → Growing (Rest.accepted env task e)
  unfolding Rest.accepted sets sent successes
  accepted-Growing task (some e) h = Grows-refl h
  accepted-Growing task none h = Grows-same h _ (λ id. refl) (λ id. refl) (λ t. refl)

  enqueue-Growing : (task : Task) (r : Result String) → Growing (Rest.enqueue env task r)
  unfolding Rest.enqueue
  enqueue-Growing task (err e) = Grows-refl
  enqueue-Growing task (ok bytes) =
      Growing-bind (publish env pending_topic task.id bytes) (Rest.accepted env task)
        (publish-Growing env pending_topic task.id bytes) (accepted-Growing task)

  after_status-Growing : (task : Task) (e : Option Error) → Growing (Rest.after_status env task e)
  unfolding Rest.after_status
  after_status-Growing task (some e) = Grows-refl
  after_status-Growing task none =
      Growing-bind (create env task) (λ e. Rest.enqueue env task (env.encode task))
        (create-Growing env task) (λ e. enqueue-Growing task (env.encode task))

  after_meta-Growing : (task : Task) (e : Option Error) → Growing (Rest.after_meta env task e)
  unfolding Rest.after_meta
  after_meta-Growing task (some e) = Grows-refl
  after_meta-Growing task none =
      Growing-bind (set_status env task.id pending) (Rest.after_status env task)
        (λ h. set_status-Grows env task.id pending h (waits refl)) (after_status-Growing task)

  store-Growing : (req : Rest.SubmitTaskRequest) → Growing (Rest.store_and_enqueue env req)
  unfolding Rest.store_and_enqueue
  store-Growing req =
      Growing-bind (new_uuid env)
        (λ id h.
          let (now, g) = time_now env h in
          let (e, k) = set_task_meta env (Rest.new_task id now req) g in
          Rest.after_meta env (Rest.new_task id now req) e k)
        new_uuid-Growing
        (λ id.
          Growing-bind (time_now env)
            (λ now h.
              let (e, k) = set_task_meta env (Rest.new_task id now req) h in
              Rest.after_meta env (Rest.new_task id now req) e k)
            time_now-Growing
            (λ now.
              Growing-bind (set_task_meta env (Rest.new_task id now req))
                (Rest.after_meta env (Rest.new_task id now req))
                (set_task_meta-Growing env (Rest.new_task id now req))
                (after_meta-Growing (Rest.new_task id now req))))

  validated-Growing : (r : Option Rest.SubmitTaskRequest) → Growing (Rest.validated env r)
  unfolding Rest.validated
  validated-Growing none h = Grows-refl h
  validated-Growing (some req) h = elim (Bool-cases (is_blank req.type)) [
    | inl blank ↦ rw blank (Grows-refl h)
    | inr typed ↦ elim (Bool-cases (str_eq req.payload "" || str_eq req.payload "null")) [
      | inl empty ↦ rw (typed, empty) (Grows-refl h)
      | inr full ↦ rw (typed, full) (store-Growing req h)
    ]
  ]

  pub submit_task-Growing :
      (decode_request : String → Option Rest.SubmitTaskRequest) (body : String)
      → Growing (Rest.submit_task env decode_request body)
  unfolding Rest.submit_task
  submit_task-Growing decode_request body = validated-Growing (decode_request body)

  -- The gRPC submission makes the calls of the REST submission, but for a counter.
  agreed-Grows :
      (type : String) (h : History) (r : Rest.Response × History)
      (g : Grpc.Reply Grpc.SubmitTaskResponse × History)
      → Agree type r g
      → Grows h r.1
      → Grows h g.1
  unfolding sets sent successes
  agreed-Grows type h r g (both_accept id at_ x y counted_) grows =
      Grows-trans grows (
        Grows-same r.1 g.1 (λ id. rw counted_ refl) (λ id. rw counted_ refl)
          (λ t. rw counted_ refl))
  agreed-Grows type h r g (both_fail msg x y same) grows =
      Grows-trans grows
        (Grows-same r.1 g.1 (λ id. rw same refl) (λ id. rw same refl) (λ t. rw same refl))

  pub grpc_submit_task-Growing : (req : Grpc.SubmitTaskRequest) → Growing (Grpc.submit_task env req)
  unfolding Grpc.submit_task
  grpc_submit_task-Growing req h = elim (Bool-cases (str_eq req.type "")) [
    | inl untyped ↦ rw untyped (Grows-refl h)
    | inr typed ↦ elim (Bool-cases (str_eq req.payload "")) [
      | inl empty ↦ rw (typed, empty) (Grows-refl h)
      | inr full ↦
          rw (typed, full)
            (agreed-Grows req.type h _ _ (store-Agree env req h)
              (store-Growing (rest_request req) h))
    ]
  ]
