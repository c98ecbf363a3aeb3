-- ===== src/Pipeline.antt =====
-- The services one behind the other: services/api-gateway/handler/rest.go,
-- services/dispatcher/dispatcher.go and services/worker/worker.go on the same task, with other
-- clients of Redis and Kafka in between.
pub mod OverGrpc
use go_task_flow.Worker.Delivery.{IsFaithful}
use go_task_flow.Worker.Final.{final_status}
use go_task_flow.Worker.Lifecycle.{Processed}
use go_task_flow.Worker.Finishing.{process-IsFinished, IsFinished}
use go_task_flow.StateStore.RoundTrip.{IsCodec, IsSame, IsKept}
use go_task_flow.StateStore.{state_key, meta_key}
use go_task_flow.Gateway.Rest.Submission.{
  enqueued, submit_task-SubmitOutcome, rejected, refused, SubmitOutcome, pending_message,
}
use go_task_flow.Gateway.Rest.Lookup.{get_task_status-stored, answer}
use go_task_flow.Gateway.Rest.{
  new_task, submit_task, get_task_status, validated, SubmitTaskRequest, Response,
}
use go_task_flow.Gateway.{pending_topic, is_blank}
use go_task_flow.Gateway.Agreement.Status
use go_task_flow.Gateway.Agreement.Status.{response_for}
use go_task_flow.Gateway.Grpc
use go_task_flow.Gateway.Grpc.{Reply, reply, TaskStatusResponse}
use go_task_flow.Dispatcher.{worker_topic, route, Limiter}
use go_task_flow.Dispatcher.Routing.{Admits}
use go_task_flow.Dispatcher.Forwarding.{route-IsForwarded, routed_message, IsForwarded}
use go_task_flow.Dispatcher.Race.{is_terminal-queued}
use go_task_flow.Domain.Errors.{Error, ok}
use go_task_flow.Domain.{Task, queued}
use go_task_flow.Registry.{Handler, get}
use go_task_flow.World.Views.{value, messages, IsQuiet}
use mathlib.Core.Path.{subst}
use go_task_flow.World.{History, Env, Outgoing, uuid_made}
use go_task_flow.Worker.{Worker, process_message}
use go_task_flow.Prelude.{
  ℕ, String, ◌≡◌, refl, ◌∙◌, sym, true, false, Option, none, some, ◌∷◌, arith, str_eq, inl, inr,
  Bool-cases, eq_iff, ap,
}

-- What others do meanwhile leaves the two keys of a task alone.
pub record LeavesTask (id : String) (others : History → History) : Type 0 where
  pub same_state : (h : History) → value (state_key id) (others h) ≡ value (state_key id) h
  pub same_meta : (h : History) → value (meta_key id) (others h) ≡ value (meta_key id) h

-- A request with an empty type is answered with 400.
untyped_refused :
    (env : Env) (decode_request : String → Option SubmitTaskRequest) (body : String)
    (req : SubmitTaskRequest) (h : History)
    → decode_request body ≡ some req
    → str_eq req.type "" ≡ true
    → (submit_task env decode_request body h).0.code ≡ 400
unfolding submit_task validated is_blank
untyped_refused env decode_request body req h decoded empty =
    rw (decoded, (eq_iff req.type "").0 empty) refl

typed_of_accepted :
    (env : Env) (decode_request : String → Option SubmitTaskRequest) (body : String)
    (req : SubmitTaskRequest) (h : History)
    → decode_request body ≡ some req
    → (submit_task env decode_request body h).0.code ≡ 202
    → str_eq req.type "" ≡ false
typed_of_accepted env decode_request body req h decoded code =
    elim (Bool-cases (str_eq req.type "")) [
      | inl empty ↦
          absurd (omega (arith, code, untyped_refused env decode_request body req h decoded empty))
      | inr typed ↦ typed
    ]

from_some : SubmitTaskRequest → Option SubmitTaskRequest → SubmitTaskRequest
from_some d none = d
from_some d (some r) = r

same_request : (r s : SubmitTaskRequest) → some r ≡ some s → r ≡ s
unfolding from_some
same_request r s e = ap (from_some s) e

-- The services on one message, and what others do in front of each: 0 before the dispatcher, 1
-- before the worker, 2 before the question.
module _ (env : Env) (limiter : Option Limiter) (w : Worker) (others : ℕ → History → History) where
  abbrev dispatched : String → History → Option Error × History
  dispatched bytes g = route env limiter bytes (others 0 g)

  abbrev worked : String → History → Option Error × History
  worked bytes g = process_message env w bytes (others 1 (dispatched bytes g).1)

  abbrev asked : String → String → History → Response
  asked id bytes g = (get_task_status env id (others 2 (worked bytes g).1)).0

  abbrev asked_over_grpc : String → String → History → Reply TaskStatusResponse
  asked_over_grpc id bytes g = (Grpc.get_task_status env id (others 2 (worked bytes g).1)).0

  -- A task that came through all three, from its submission, which led from h to g.
  pub record IsCompleted (task : Task) (h g : History) : Type 0 where
    pub bytes : String
    pub stored : Task
    pub ended : Option Error
    pub ran : ℕ
    pub waited : ℕ
    pub read : Task
    pub announced : messages pending_topic g ≡ pending_message task bytes ∷ messages pending_topic h
    pub dispatched_nil : (dispatched bytes g).0 ≡ none
    pub forwarded :
        messages (worker_topic task.type) (dispatched bytes g).1
        ≡ routed_message task bytes ∷ messages (worker_topic task.type) (others 0 g)
    pub worked_nil : (worked bytes g).0 ≡ none
    pub same_stored : IsSame stored task
    pub processed :
        Processed env w stored bytes ended ran waited
          (others 1 (dispatched bytes g).1)
          (worked bytes g).1
    pub same_read : IsSame read task
    pub answered : asked task.id bytes g ≡ answer read (final_status ended)
    pub answered_over_grpc :
        asked_over_grpc task.id bytes g ≡ reply (response_for read (final_status ended))

  module _ (faithful : IsFaithful env) (codec : IsCodec env)
      (takes : (h : History) (m : Outgoing) → env.write_answer h m ≡ none)
      (quiet_limiter : (l : Limiter) (type : String)
        → limiter ≡ some l
        → IsQuiet (l.allow type)) where
    -- Behind a submission: the message that was announced goes through.
    passes :
        (handler : Handler) (task : Task) (bytes : String) (payload : String) (h g : History)
        → LeavesTask task.id (others 0)
        → LeavesTask task.id (others 1)
        → LeavesTask task.id (others 2)
        → ((t : Task) → IsQuiet (handler.handle t))
        → get w.registry task.type ≡ ok handler
        → ((x : History) → Admits task.type x limiter)
        → str_eq task.id "" ≡ false
        → str_eq task.type "" ≡ false
        → env.decode bytes ≡ some (record task { payload = payload })
        → value (meta_key task.id) g ≡ some bytes
        → messages pending_topic g ≡ pending_message task bytes ∷ messages pending_topic h
        → IsCompleted task h g
    passes handler task bytes payload h g others_0 others_1 others_2 quiet found admitted named
          typed decoded meta announced =
        let stored : Task = record task { payload = payload } in
        let f : IsForwarded stored bytes (others 0 g) (dispatched bytes g) =
          route-IsForwarded env faithful takes limiter stored bytes (others 0 g)
            (λ l. quiet_limiter l task.type) decoded typed (admitted (others 0 g)) in
        let kept : IsKept env stored (others 1 (dispatched bytes g).1) = record {
          bytes = bytes;
          read = stored;
          stored = others_1.same_meta _ ∙ f.same_meta ∙ others_0.same_meta g ∙ meta;
          decoded = decoded;
          same = record {
            same_id = refl;
            same_type = refl;
            same_priority = refl;
            same_creation = refl;
          };
        } in
        let x : IsFinished env faithful codec w stored bytes (others 1 (dispatched bytes g).1)
            (worked bytes g) =
          process-IsFinished env faithful codec w handler stored bytes queued _ quiet decoded found
            (others_1.same_state _ ∙ f.state) is_terminal-queued kept in
        record {
          bytes = bytes;
          stored = stored;
          ended = x.ended;
          ran = x.ran;
          waited = x.waited;
          read = x.kept.read;
          announced = announced;
          dispatched_nil = f.result;
          forwarded = f.sent_on;
          worked_nil = x.result;
          same_stored = record {
            same_id = refl;
            same_type = refl;
            same_priority = refl;
            same_creation = refl;
          };
          processed = x.processed;
          same_read = record {
            same_id = x.kept.same.same_id;
            same_type = x.kept.same.same_type;
            same_priority = x.kept.same.same_priority;
            same_creation = x.kept.same.same_creation;
          };
          answered =
              get_task_status-stored env task.id named x.kept.read x.kept.bytes
                (final_status x.ended) _ faithful x.kept.decoded
                (others_2.same_meta _ ∙ x.kept.stored) (others_2.same_state _ ∙ x.state);
          answered_over_grpc =
              Status.get_task_status-stored env task.id x.kept.read x.kept.bytes
                (final_status x.ended) _ named faithful x.kept.decoded
                (others_2.same_meta _ ∙ x.kept.stored) (others_2.same_state _ ∙ x.state);
        }

    -- A task that is accepted with 202 over REST comes to its end: tasks.pending has its message;
    -- the dispatcher, given that message, returns nil and hands it to the topic of the request's
    -- type; a worker with a handler for the type, given it, returns nil after running the handler
    -- at least once, as often and with the states, rows and dead letter that Processed says; and a
    -- question for the task, over REST or gRPC, is then answered, with 200 over REST, DONE if a
    -- run of the handler returned nil, DEAD if none did, and the submitted type and priority, with
    -- the time that the clock showed at the submission as time of creation. Redis is faithful,
    -- Kafka takes every message, JSON decoding inverts encoding up to the payload's layout, the
    -- identifier is not empty, the limiter lets the type through or is off, limiter and handler
    -- do not write to the queue's own keys and topics, and others leave the task's two keys alone
    -- between the steps.
    pub submitted_is_finished :
        (decode_request : String → Option SubmitTaskRequest) (handler : Handler) (body : String)
        (req : SubmitTaskRequest) (h : History)
        → ((i : ℕ) → LeavesTask (env.new_uuid h) (others i))
        → ((t : Task) → IsQuiet (handler.handle t))
        → decode_request body ≡ some req
        → get w.registry req.type ≡ ok handler
        → ((x : History) → Admits req.type x limiter)
        → str_eq (env.new_uuid h) "" ≡ false
        → (submit_task env decode_request body h).0.code ≡ 202
        → IsCompleted
            (new_task (env.new_uuid h) (env.now (uuid_made (env.new_uuid h) ∷ h)) req)
            h
            (submit_task env decode_request body h).1
    submitted_is_finished decode_request handler body req h others_leave quiet decoded found
          admitted named code =
        of_outcome (submit_task-SubmitOutcome env decode_request body h)
      where
        of_outcome :
            SubmitOutcome env (decode_request body) h (submit_task env decode_request body h)
            → IsCompleted
                (new_task (env.new_uuid h) (env.now (uuid_made (env.new_uuid h) ∷ h)) req)
                h
                (submit_task env decode_request body h).1
        of_outcome (rejected c same) = absurd (omega arith)
        of_outcome (refused req' id now decoded' minted dated c topics left) = absurd (omega arith)
        of_outcome
              (enqueued req' id now bytes decoded' minted dated response encoded state meta
                others_same topics) =
            let p : req' ≡ req = same_request req' req (sym decoded' ∙ decoded) in
            let (payload, back) =
              codec.round_trip (new_task (env.new_uuid h) now req) bytes
                (rw (← minted, ← p) encoded) in
            let dated' : now ≡ env.now (uuid_made (env.new_uuid h) ∷ h) = rw (← minted) dated in
            subst
              (λ t.
                IsCompleted (new_task (env.new_uuid h) t req) h
                  (submit_task env decode_request body h).1)
              dated'
              (passes handler (new_task (env.new_uuid h) now req) bytes payload h _ (others_leave 0)
                (others_leave 1) (others_leave 2) quiet found admitted named
                (typed_of_accepted env decode_request body req h decoded code) back
                (rw (← minted) meta) (rw (← minted) (topics pending_topic)))
