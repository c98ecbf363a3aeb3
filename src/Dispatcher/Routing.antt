-- ===== src/Dispatcher/Routing.antt =====
-- Where a message goes: one verdict, one message sent, and a result that says whether it was taken.
use text.Mathlib.TextLemmas.{append_cancel_left}
use go_task_flow.Prelude.Texts.{code-eq_of_fork}
use go_task_flow.Domain.Errors.{Error, Result}
use go_task_flow.World.Views.{messages, sent, IsQuiet}
use go_task_flow.StateStore.{set_status}
use go_task_flow.World.{History, Outgoing, Env}
use go_task_flow.Prelude.{
  String, ◌≡◌, refl, ◌≢◌, true, false, ◌&&◌, Option, none, some, ◌∷◌, arith, str_eq, if◌then◌else◌,
  is_none, Bool, eq_iff,
}
use go_task_flow.Domain.{Task}
use go_task_flow.Producer.{publish}
use go_task_flow.Dispatcher.{
  topic_dlq, topic_pending, worker_topic, to_dlq, forward, Limiter, ok, err, rate_limited,
  after_limit, limited, rejected, routed, route, counted, dispatcher_dlq, dispatcher_rate_limited,
}

-- The topic of a type is its own, and is neither the pending nor the dead-letter topic.
pub worker_topic-injective : (a b : String) → worker_topic a ≡ worker_topic b → a ≡ b
worker_topic-injective a b e = append_cancel_left "tasks.worker." a b e

pub worker_topic-ne-topic_dlq : (a : String) → worker_topic a ≢ topic_dlq
worker_topic-ne-topic_dlq a e = omega (arith, code-eq_of_fork "tasks." "w" "d" "orker." "lq" a "" e)

pub worker_topic-ne-topic_pending : (a : String) → worker_topic a ≢ topic_pending
worker_topic-ne-topic_pending a e =
    omega (arith, code-eq_of_fork "tasks." "w" "p" "orker." "ending" a "" e)

-- The limiter is off, allows the type, or fails.
pub data Admits (type : String) (h : History) : Option Limiter → Type 0 where
  off : Admits type h none
  allows : (l : Limiter) → (l.allow type h).0 ≡ ok true → Admits type h (some l)
  fails : (l : Limiter) (e : Error) → (l.allow type h).0 ≡ err e → Admits type h (some l)

-- The verdict on a message and the message that is sent for it.
pub data Verdict (env : Env) (limiter : Option Limiter) (raw : String) (h : History)
    : Outgoing → Type 0 where
  malformed :
      env.decode raw ≡ none
      → Verdict env limiter raw h (record { topic = topic_dlq; key = ""; value = raw })
  untyped :
      (task : Task)
      → env.decode raw ≡ some task
      → task.type ≡ ""
      → Verdict env limiter raw h (record { topic = topic_dlq; key = ""; value = raw })
  over_limit :
      (task : Task) (l : Limiter)
      → env.decode raw ≡ some task
      → task.type ≢ ""
      → limiter ≡ some l
      → (l.allow task.type h).0 ≡ ok false
      → Verdict env limiter raw h (record { topic = topic_dlq; key = ""; value = raw })
  accepted :
      (task : Task)
      → env.decode raw ≡ some task
      → task.type ≢ ""
      → Admits task.type h limiter
      → Verdict env limiter raw h
          (record { topic = worker_topic task.type; key = task.id; value = raw })

-- One message is sent, and the result is nil exactly when Kafka took it.
pub record SendsOnce (m : Outgoing) (h : History) (r : Option Error × History) : Type 0 where
  pub taken : Option Error
  pub one : (t : String) → sent t r.1 ≡ (if str_eq m.topic t then m ∷ sent t h else sent t h)
  pub acknowledged :
      (t : String)
      → messages t r.1
        ≡ (if is_none taken && str_eq m.topic t then m ∷ messages t h else messages t h)
  pub result : is_none r.0 ≡ is_none taken

abbrev pub Routed : Env → Option Limiter → String → History → Option Error × History → Type 0
Routed env limiter raw h r = (m : Outgoing) × Verdict env limiter raw h m × SendsOnce m h r

module _ (env : Env) (raw : String) where
  to_dlq-SendsOnce :
      (h : History)
      → SendsOnce (record { topic = topic_dlq; key = ""; value = raw }) h (to_dlq env raw h)
  unfolding to_dlq publish sent messages
  to_dlq-SendsOnce h = record {
    taken = env.write_answer h (record { topic = topic_dlq; key = ""; value = raw });
    one = λ t. refl;
    acknowledged = λ t. ground arith;
    result = ground arith;
  }

  pub forward-SendsOnce :
      (task : Task) (h : History)
      → SendsOnce
          (record { topic = worker_topic task.type; key = task.id; value = raw })
          h
          (forward env task raw h)
  unfolding forward publish set_status sent messages
  forward-SendsOnce task h = record {
    taken =
        env.write_answer h (record { topic = worker_topic task.type; key = task.id; value = raw });
    one = λ t. ground arith;
    acknowledged = λ t. ground arith;
    result = ground arith;
  }

  pub over_limit-SendsOnce :
      (h : History)
      → SendsOnce (record { topic = topic_dlq; key = ""; value = raw }) h (rate_limited env raw h)
  unfolding rate_limited to_dlq publish sent messages
  over_limit-SendsOnce h = record {
    taken =
        env.write_answer (counted dispatcher_dlq ∷ counted dispatcher_rate_limited ∷ h)
          (record { topic = topic_dlq; key = ""; value = raw });
    one = λ t. refl;
    acknowledged = λ t. ground arith;
    result = ground arith;
  }

  rejected-SendsOnce :
      (h : History)
      → SendsOnce (record { topic = topic_dlq; key = ""; value = raw }) h (rejected env raw h)
  unfolding rejected to_dlq publish sent messages
  rejected-SendsOnce h = record {
    taken =
        env.write_answer (counted dispatcher_dlq ∷ h)
          (record { topic = topic_dlq; key = ""; value = raw });
    one = λ t. refl;
    acknowledged = λ t. ground arith;
    result = ground arith;
  }

-- What the limiter did first shows in no topic.
pub SendsOnce-before :
    {m : Outgoing} {r : Option Error × History} (h h' : History)
    → ((t : String) → sent t h' ≡ sent t h)
    → ((t : String) → messages t h' ≡ messages t h)
    → SendsOnce m h' r
    → SendsOnce m h r
SendsOnce-before h h' same_sent same_messages x = record {
  taken = x.taken;
  one = λ t. ground (arith, x.one t, same_sent t);
  acknowledged = λ t. ground (arith, x.acknowledged t, same_messages t);
  result = x.result;
}

module _ (env : Env) (raw : String) (task : Task) (decoded : env.decode raw ≡ some task)
    (typed : task.type ≢ "") where
  after_limit-Routed :
      (l : Limiter) (h : History)
      → IsQuiet (l.allow task.type)
      → (a : Result Bool) → (l.allow task.type h).0 ≡ a
      → Routed env (some l) raw h (after_limit env task raw a (l.allow task.type h).1)
  unfolding after_limit
  after_limit-Routed l h quiet (err e) eq = (
    _,
    accepted task decoded typed (Admits.fails l e eq),
    SendsOnce-before h _ (λ t. quiet.sent_same t h) (λ t. quiet.messages_same t h)
        (forward-SendsOnce env raw task _),
  )
  after_limit-Routed l h quiet (ok true) eq = (
    _,
    accepted task decoded typed (Admits.allows l eq),
    SendsOnce-before h _ (λ t. quiet.sent_same t h) (λ t. quiet.messages_same t h)
        (forward-SendsOnce env raw task _),
  )
  after_limit-Routed l h quiet (ok false) eq = (
    _,
    over_limit task l decoded typed refl eq,
    SendsOnce-before h _ (λ t. quiet.sent_same t h) (λ t. quiet.messages_same t h)
        (over_limit-SendsOnce env raw _),
  )

  limited-Routed :
      (limiter : Option Limiter) (h : History)
      → ((l : Limiter) → limiter ≡ some l → IsQuiet (l.allow task.type))
      → Routed env limiter raw h (limited env limiter task raw h)
  unfolding limited
  limited-Routed none h quiet =
      (_, accepted task decoded typed Admits.off, forward-SendsOnce env raw task h)
  limited-Routed (some l) h quiet =
      after_limit-Routed l h (quiet l refl) (l.allow task.type h).0 refl

module _ (env : Env) (limiter : Option Limiter)
    (quiet : (l : Limiter) (type : String) → limiter ≡ some l → IsQuiet (l.allow type)) where
  typed-Routed :
      (raw : String) (task : Task) (h : History)
      → env.decode raw ≡ some task
      → (b : Bool) → str_eq task.type "" ≡ b
      → Routed env limiter raw h ((if b then rejected env raw else limited env limiter task raw) h)
  typed-Routed raw task h decoded true e =
      (_, untyped task decoded ((eq_iff task.type "").0 e), rejected-SendsOnce env raw h)
  typed-Routed raw task h decoded false e =
      limited-Routed env raw task decoded (λ p. cc (e, (eq_iff task.type "").1 p)) limiter h
        (λ l. quiet l task.type)

  routed-Routed :
      (raw : String) (d : Option Task) (h : History)
      → env.decode raw ≡ d
      → Routed env limiter raw h (routed env limiter raw d h)
  unfolding routed
  routed-Routed raw none h decoded = (_, malformed decoded, rejected-SendsOnce env raw h)
  routed-Routed raw (some task) h decoded =
      typed-Routed raw task h decoded (str_eq task.type "") refl

  -- Every message is sent on exactly once, unchanged: to the topic of its task's type under the
  -- task's id if it decodes, has a type, and the limiter is off, allows it or fails; otherwise (it
  -- is malformed, untyped or over the limit) to the dead-letter topic. The result is nil, so that
  -- the offset is committed, exactly when Kafka took that message. The limiter's own calls write
  -- no topic.
  pub route-Routed :
      (raw : String) (h : History) → Routed env limiter raw h (route env limiter raw h)
  unfolding route
  route-Routed raw h = routed-Routed raw (env.decode raw) h refl
