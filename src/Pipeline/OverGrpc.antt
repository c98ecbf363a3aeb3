-- ===== src/Pipeline/OverGrpc.antt =====
-- services/api-gateway/handler/grpc.go, services/dispatcher/dispatcher.go and
-- services/worker/worker.go on the same task, with other clients of Redis and Kafka in between.
use go_task_flow.Dispatcher.{Limiter}
use go_task_flow.Dispatcher.Routing.{Admits}
use go_task_flow.Domain.{Task}
use go_task_flow.Domain.Errors.{ok}
use go_task_flow.Gateway.{pending_topic}
use go_task_flow.Gateway.Grpc.{new_task, submit_task, SubmitTaskRequest, SubmitTaskResponse, reply}
use go_task_flow.Gateway.Grpc.Submission.{
  GrpcOutcome, invalid, refused, enqueued, submit_task-GrpcOutcome,
}
use go_task_flow.Pipeline.{LeavesTask, IsCompleted, passes}
use go_task_flow.Registry.{Handler, get}
use go_task_flow.StateStore.RoundTrip.{IsCodec}
use go_task_flow.Worker.{Worker}
use go_task_flow.Worker.Delivery.{IsFaithful}
use mathlib.Core.Path.{subst}
use go_task_flow.World.{History, Env, Outgoing, uuid_made}
use go_task_flow.World.Views.{IsQuiet}
use go_task_flow.Prelude.{
  ◌∷◌, ℕ, String, ◌≡◌, false, Option, none, some, str_eq, inl, inr, Bool-cases, arith,
}

-- A request that is replied to has a type.
typed_of_reply :
    (env : Env) (req : SubmitTaskRequest) (h : History) (r : SubmitTaskResponse)
    → (submit_task env req h).0 ≡ reply r
    → str_eq req.type "" ≡ false
unfolding submit_task
typed_of_reply env req h r replied = elim (Bool-cases (str_eq req.type "")) [
  | inl untyped ↦ absurd (ground (arith, replied, untyped))
  | inr typed ↦ typed
]

module _ (env : Env) (limiter : Option Limiter) (w : Worker) (others : ℕ → History → History)
    (faithful : IsFaithful env) (codec : IsCodec env)
    (takes : (h : History) (m : Outgoing) → env.write_answer h m ≡ none)
    (quiet_limiter : (l : Limiter) (type : String)
      → limiter ≡ some l
      → IsQuiet (l.allow type)) where
  -- A task that is accepted over gRPC comes to its end as one that is accepted over REST: its
  -- message is announced and forwarded, the handler of its type runs, and a question for it, over
  -- REST or gRPC, is answered with DONE if one of its runs returned nil, and with DEAD if none
  -- did. The conditions are those of a task over REST.
  pub submitted_over_grpc_is_finished :
      (handler : Handler) (req : SubmitTaskRequest) (r : SubmitTaskResponse) (h : History)
      → ((i : ℕ) → LeavesTask (env.new_uuid h) (others i))
      → ((t : Task) → IsQuiet (handler.handle t))
      → get w.registry req.type ≡ ok handler
      → ((x : History) → Admits req.type x limiter)
      → str_eq (env.new_uuid h) "" ≡ false
      → (submit_task env req h).0 ≡ reply r
      → IsCompleted env limiter w others
          (new_task (env.new_uuid h) (env.now (uuid_made (env.new_uuid h) ∷ h)) req)
          h
          (submit_task env req h).1
  submitted_over_grpc_is_finished handler req r h others_leave quiet found admitted named replied =
      of_outcome (submit_task-GrpcOutcome env req h)
    where
      of_outcome :
          GrpcOutcome env req h (submit_task env req h)
          → IsCompleted env limiter w others
              (new_task (env.new_uuid h) (env.now (uuid_made (env.new_uuid h) ∷ h)) req)
              h
              (submit_task env req h).1
      of_outcome (invalid msg e) = absurd (cc (e, replied))
      of_outcome (refused msg e same) = absurd (cc (e, replied))
      of_outcome (enqueued id now bytes minted dated answer encoded state meta topics) =
          let (payload, back) =
            codec.round_trip (new_task (env.new_uuid h) now req) bytes (rw (← minted) encoded) in
          let dated' : now ≡ env.now (uuid_made (env.new_uuid h) ∷ h) = rw (← minted) dated in
          subst
            (λ t.
              IsCompleted env limiter w others (new_task (env.new_uuid h) t req) h
                (submit_task env req h).1)
            dated'
            (passes env limiter w others faithful codec takes quiet_limiter handler
              (new_task (env.new_uuid h) now req) bytes payload h _ (others_leave 0)
              (others_leave 1) (others_leave 2) quiet found admitted named
              (typed_of_reply env req h r replied) back (rw (← minted) meta)
              (rw (← minted) (topics pending_topic)))
