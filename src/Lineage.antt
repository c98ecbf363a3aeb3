-- ===== src/Lineage.antt =====
-- The services together, in any order of their steps: where the messages of Kafka come from. The
-- steps are the handlers of services/api-gateway, services/scheduler, services/dispatcher and
-- services/worker.
pub mod Served
use go_task_flow.Prelude.Int.{pos}
use mathlib.Core.List.{Memᴰ}
use mathlib.Core.Path.{subst}
use go_task_flow.World.Sending.{Adds, Adds-none, Adds-one}
use go_task_flow.Gateway.Sending.{validated-Adds, grpc-Adds, AllowsNew}
use go_task_flow.Gateway.Agreement.{rest_request}
use go_task_flow.Gateway.Rest
use go_task_flow.Gateway.Grpc
use go_task_flow.Scheduler.Sending.{tick-Adds}
use go_task_flow.Scheduler.{tick, bytes_or_nil, task_of}
use go_task_flow.Worker.Sending.{process-Adds}
use go_task_flow.Worker.{Worker, process_message}
use go_task_flow.Dispatcher.{Limiter, worker_topic, topic_pending, topic_dlq, route}
use go_task_flow.Dispatcher.Routing.{
  route-Routed, Routed, Verdict, malformed, untyped, over_limit, accepted,
  worker_topic-ne-topic_pending, worker_topic-ne-topic_dlq, worker_topic-injective,
}
use go_task_flow.Registry.{Handler, get}
use go_task_flow.Domain.{Task, pending}
use go_task_flow.Domain.Errors.{Result, ok, err}
use go_task_flow.World.{History, Outgoing, Env, ScheduledJob}
use go_task_flow.World.Views.{sent, IsQuiet}
use go_task_flow.StateStore.RoundTrip.{IsCodec}
use go_task_flow.Prelude.{ℕ, String, ◌≡◌, refl, sym, ◌∙◌, ap, inl, inr, Option, none, some, []}

-- A task as SubmitTask of a gateway or runJob of the scheduler makes it.
pub data IsMade (task : Task) : Type 0 where
  by_gateway :
      (req : Rest.SubmitTaskRequest) (id : String) (now : ℕ)
      → task ≡ Rest.new_task id now req
      → IsMade task
  by_scheduler :
      (job : ScheduledJob) (id : String) (now : ℕ) → task ≡ task_of job id now → IsMade task

module _ (env : Env) where
  -- One step of one service, which is a whole handler. A message that a dispatcher or a worker is
  -- given was sent to its topic before, maybe more than once ago and maybe without an
  -- acknowledgement; everything that sends nothing is `elsewhere`.
  pub data Step (h : History) : History → Type 0 where
    rest_submitted :
        (decode_request : String → Option Rest.SubmitTaskRequest) (body : String)
        → Step h (Rest.submit_task env decode_request body h).1
    grpc_submitted : (req : Grpc.SubmitTaskRequest) → Step h (Grpc.submit_task env req h).1
    ticked : (instance_id : String) → Step h (tick env instance_id h).1
    dispatched :
        (limiter : Option Limiter) (m : Outgoing)
        → ((l : Limiter) (type : String) → limiter ≡ some l → IsQuiet (l.allow type))
        → Memᴰ m (sent topic_pending h)
        → Step h (route env limiter m.value h).1
    worked :
        (w : Worker) (type : String) (m : Outgoing)
        → ((k : String) (handler : Handler)
            → get w.registry k ≡ ok handler
            → (t : Task) → IsQuiet (handler.handle t))
        → Memᴰ m (sent (worker_topic type) h)
        → Step h (process_message env w m.value h).1
    elsewhere : (g : History) → ((t : String) → sent t g ≡ sent t h) → Step h g

  -- The states that the services reach from the empty history.
  pub data Reaches : History → Type 0 where
    begin : Reaches []
    next : {h g : History} → Reaches h → Step h g → Reaches g

  -- From a state to a later one, by any steps.
  pub data Leads (h : History) : History → Type 0 where
    here : Leads h h
    later : {k g : History} → Leads h k → Step k g → Leads h g

  -- The encoding of such a task, or no bytes where the encoding failed and the scheduler dropped
  -- the error.
  pub data IsMinted (bytes : String) : Type 0 where
    encoded : (task : Task) → env.encode task ≡ ok bytes → IsMade task → IsMinted bytes
    unencoded : bytes ≡ "" → IsMinted bytes

  -- In an earlier state, or in h, a message with these bytes had been sent to tasks.pending; and
  -- the bytes are those of a task that a gateway or the scheduler makes.
  pub record IsAnnounced (bytes : String) (h : History) : Type 0 where
    pub state : History
    pub leads : Leads state h
    pub message : Outgoing
    pub there : Memᴰ message (sent topic_pending state)
    pub same : message.value ≡ bytes
    pub made : IsMinted bytes

  -- The place of a message in a topic, in the state h.
  pub data Origin (h : History) (t : String) (m : Outgoing) : Type 0 where
    announced : t ≡ topic_pending → IsMinted m.value → Origin h t m
    forwarded :
        (task : Task)
        → env.decode m.value ≡ some task
        → t ≡ worker_topic task.type
        → m.key ≡ task.id
        → IsAnnounced m.value h
        → Origin h t m
    dead_lettered : t ≡ topic_dlq → IsAnnounced m.value h → Origin h t m

  later-IsAnnounced :
      {bytes : String} {h g : History} → Step h g → IsAnnounced bytes h → IsAnnounced bytes g
  later-IsAnnounced s x = record {
    state = x.state;
    leads = later x.leads s;
    message = x.message;
    there = x.there;
    same = x.same;
    made = x.made;
  }

  later-Origin :
      {h g : History} {t : String} {m : Outgoing} → Step h g → Origin h t m → Origin g t m
  later-Origin s (announced e x) = announced e x
  later-Origin s (forwarded task d e k x) = forwarded task d e k (later-IsAnnounced s x)
  later-Origin s (dead_lettered e x) = dead_lettered e (later-IsAnnounced s x)

  IsAnnounced-Origin :
      {h : History} {t : String} {m : Outgoing}
      → Memᴰ m (sent t h)
      → Origin h t m
      → IsAnnounced m.value h
  IsAnnounced-Origin {h} {t} {m} x (announced e made) = record {
    state = h;
    leads = here;
    message = m;
    there = subst (λ u. Memᴰ m (sent u h)) e x;
    same = refl;
    made = made;
  }
  IsAnnounced-Origin x (forwarded task d e k y) = y
  IsAnnounced-Origin x (dead_lettered e y) = y

  AllowsNew-Origin : (h : History) (req : Rest.SubmitTaskRequest) → AllowsNew env (Origin h) req
  AllowsNew-Origin h req id now bytes e =
      announced refl (encoded (Rest.new_task id now req) e (by_gateway req id now refl))

  bytes_or_nil-IsMinted :
      (job : ScheduledJob) (id : String) (now : ℕ) (r : Result String)
      → env.encode (task_of job id now) ≡ r
      → IsMinted (bytes_or_nil r)
  bytes_or_nil-IsMinted job id now (ok bytes) e =
      encoded (task_of job id now) e (by_scheduler job id now refl)
  bytes_or_nil-IsMinted job id now (err x) e = unencoded refl

  route-Adds :
      (limiter : Option Limiter) (raw : String) (h : History)
      → IsAnnounced raw h
      → Routed env limiter raw h (route env limiter raw h)
      → Adds (Origin h) h (route env limiter raw h).1
  route-Adds limiter raw h made (m, v, s) =
      Adds-one (Origin h) h (route env limiter raw h).1 m s.one (origin_of v)
    where
      origin_of : {m : Outgoing} → Verdict env limiter raw h m → Origin h m.topic m
      origin_of (malformed d) = dead_lettered refl made
      origin_of (untyped task d e) = dead_lettered refl made
      origin_of (over_limit task l d e f g) = dead_lettered refl made
      origin_of (accepted task d e a) = forwarded task d refl refl made

  -- A step from a state in which every message has its origin.
  step-Adds :
      {h g : History}
      → ((t : String) (m : Outgoing) → Memᴰ m (sent t h) → Origin h t m)
      → Step h g
      → Adds (Origin h) h g
  unfolding Rest.submit_task
  step-Adds {h} origins (rest_submitted decode_request body) =
      validated-Adds env (Origin h) (decode_request body) h (AllowsNew-Origin h)
  step-Adds {h} origins (grpc_submitted req) =
      grpc-Adds env (Origin h) req h (AllowsNew-Origin h (rest_request req))
  step-Adds {h} origins (ticked instance_id) =
      tick-Adds env (Origin h)
        (λ job id now. announced refl (bytes_or_nil-IsMinted job id now _ refl)) instance_id h
  step-Adds {h} origins (dispatched limiter m quiet x) =
      route-Adds limiter m.value h (IsAnnounced-Origin x (origins _ m x))
        (route-Routed env limiter quiet m.value h)
  step-Adds {h} origins (worked w type m quiet x) =
      process-Adds env w (Origin h) m.value
        (λ task d. dead_lettered refl (IsAnnounced-Origin x (origins _ m x))) quiet h
  step-Adds {h} origins (elsewhere g same) = Adds-none (Origin h) h g same

  -- In every state that the services reach, in whatever order they take their steps, each a whole
  -- handler, every message that was ever sent, acknowledged or not, is on tasks.pending, on the
  -- dead-letter topic, or on the topic of the type that it decodes to under the identifier that it
  -- decodes to. On tasks.pending its bytes are the encoding of a task that a gateway or the
  -- scheduler makes, or none where the scheduler dropped a failed encoding; elsewhere they are the
  -- bytes of a message that had been sent to tasks.pending in an earlier state, unchanged. The
  -- handlers and limiters write no topic.
  pub reached-Origin :
      {h : History} → Reaches h → (t : String) (m : Outgoing) → Memᴰ m (sent t h) → Origin h t m
  unfolding sent
  reached-Origin begin t m x = elim x [ ]
  reached-Origin (next {h} {g} r s) t m x = elim (step-Adds (reached-Origin r) s t m x) [
    | inl y ↦ later-Origin s (reached-Origin r t m y)
    | inr p ↦ later-Origin s p
  ]
