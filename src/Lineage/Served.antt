-- ===== src/Lineage/Served.antt =====
-- The messages that the workers are given: services/worker/worker.go behind the other services.
use go_task_flow.Prelude.Int.{pos}
use mathlib.Core.List.{Memᴰ}
use go_task_flow.Dispatcher.{worker_topic}
use go_task_flow.Dispatcher.Routing.{
  worker_topic-ne-topic_pending, worker_topic-ne-topic_dlq, worker_topic-injective,
}
use go_task_flow.Domain.{Task, pending}
use go_task_flow.Domain.Errors.{ok}
use go_task_flow.World.{History, Outgoing, Env}
use go_task_flow.World.Views.{sent}
use go_task_flow.StateStore.RoundTrip.{IsCodec}
use go_task_flow.Prelude.{String, ◌≡◌, sym, ◌∙◌, ap, Option, none, some}
use go_task_flow.Lineage.{
  IsMade, by_gateway, by_scheduler, IsMinted, encoded, unencoded, IsAnnounced, Origin, announced,
  forwarded, dead_lettered, Reaches, reached-Origin,
}

type_of : Task → Option Task → String
type_of default none = default.type
type_of default (some task) = task.type

id_of : Task → Option Task → String
id_of default none = default.id
id_of default (some task) = task.id

module _ (env : Env) where
  -- The task of the message of a worker, in the state h.
  pub record IsServed (h : History) (type : String) (m : Outgoing) : Type 0 where
    pub task : Task
    pub made : IsMade task
    pub encoding : env.encode task ≡ ok m.value
    pub announcement : IsAnnounced env m.value h
    pub typed : task.type ≡ type
    pub keyed : task.id ≡ m.key
    pub waiting : task.status ≡ pending
    pub fresh : task.attempts ≡ pos 0

  waiting-IsMade : {task : Task} → IsMade task → (task.status ≡ pending) × (task.attempts ≡ pos 0)
  waiting-IsMade (by_gateway req id now e) = (ap (λ t. t.status) e, ap (λ t. t.attempts) e)
  waiting-IsMade (by_scheduler job id now e) = (ap (λ t. t.status) e, ap (λ t. t.attempts) e)

  decoded_same :
      (task read : Task) (payload bytes : String)
      → env.decode bytes ≡ some (record task { payload = payload })
      → env.decode bytes ≡ some read
      → (task.type ≡ read.type) × (task.id ≡ read.id)
  unfolding type_of id_of
  decoded_same task read payload bytes d e =
      (ap (type_of task) (sym d ∙ e), ap (id_of task) (sym d ∙ e))

  IsServed-forwarded :
      (h : History) (type : String) (m : Outgoing) (read : Task)
      → IsCodec env
      → env.decode "" ≡ none
      → env.decode m.value ≡ some read
      → worker_topic type ≡ worker_topic read.type
      → m.key ≡ read.id
      → IsAnnounced env m.value h
      → IsMinted env m.value
      → IsServed h type m
  IsServed-forwarded h type m read codec empty d e k x (unencoded none_) =
      absurd (cc (empty, d, none_))
  IsServed-forwarded h type m read codec empty d e k x (encoded task enc made) =
      let (payload, back) = codec.round_trip task m.value enc in
      let (types, ids) = decoded_same task read payload m.value back d in
      record {
        task = task;
        made = made;
        encoding = enc;
        announcement = x;
        typed = types ∙ sym (worker_topic-injective type read.type e);
        keyed = ids ∙ sym k;
        waiting = (waiting-IsMade made).0;
        fresh = (waiting-IsMade made).1;
      }

  IsServed-Origin :
      (h : History) (type : String) (m : Outgoing)
      → IsCodec env
      → env.decode "" ≡ none
      → Origin env h (worker_topic type) m
      → IsServed h type m
  IsServed-Origin h type m codec empty (announced e made) =
      absurd (worker_topic-ne-topic_pending type e)
  IsServed-Origin h type m codec empty (dead_lettered e made) =
      absurd (worker_topic-ne-topic_dlq type e)
  IsServed-Origin h type m codec empty (forwarded read d e k x) =
      IsServed-forwarded h type m read codec empty d e k x x.made

  -- In every state that the services reach, each step a whole handler, a message for the workers of
  -- a type has the bytes of a message that had been sent to tasks.pending before, and they are the
  -- encoding of a task of that type, as a gateway or the scheduler makes it, in PENDING and with no
  -- attempt, under the task's identifier. JSON decoding inverts encoding up to the payload's
  -- layout, and the empty text does not decode.
  pub reached-IsServed :
      {h : History} (type : String) (m : Outgoing)
      → IsCodec env
      → env.decode "" ≡ none
      → Reaches env h
      → Memᴰ m (sent (worker_topic type) h)
      → IsServed h type m
  reached-IsServed {h} type m codec empty r x =
      IsServed-Origin h type m codec empty (reached-Origin env r (worker_topic type) m x)
