-- ===== src/Dispatcher/Forwarding.antt =====
-- services/dispatcher/dispatcher.go: a message that the limiter lets through.
use go_task_flow.Worker.Delivery.{IsFaithful}
use go_task_flow.StateStore.RoundTrip.{meta_key-other-state_key}
use go_task_flow.Prelude.Texts.{str_eq_refl}
use go_task_flow.Domain.Errors.{Error, Result, ok, err}
use go_task_flow.World.Views.{value, messages, IsQuiet}
use go_task_flow.StateStore.{state_ttl, state_key, meta_key, set_status}
use go_task_flow.World.{History, Env, Outgoing, kafka_write}
use go_task_flow.Prelude.{
  String, ◌≡◌, ◌≢◌, refl, true, false, Bool, Option, none, some, ◌∷◌, arith, str_eq,
}
use go_task_flow.Domain.{Task, queued}
use go_task_flow.Producer.{publish}
use go_task_flow.Dispatcher.{worker_topic, Limiter, forward, after_limit, limited, route}
use go_task_flow.Dispatcher.Routing.{Admits, allows, fails}

-- The message of a task for the workers of its type.
abbrev pub routed_message : Task → String → Outgoing
routed_message task raw = record { topic = worker_topic task.type; key = task.id; value = raw }

-- The message is taken, and the task is QUEUED with its metadata as before.
pub record IsForwarded (task : Task) (raw : String) (h : History) (r : Option Error × History)
    : Type 0 where
  pub result : r.0 ≡ none
  pub sent_on :
      messages (worker_topic task.type) r.1
      ≡ routed_message task raw ∷ messages (worker_topic task.type) h
  pub state : value (state_key task.id) r.1 ≡ some queued
  pub same_meta : value (meta_key task.id) r.1 ≡ value (meta_key task.id) h

ne_refused :
    (l : Limiter) (type : String) (h : History)
    → Admits type h (some l)
    → (l.allow type h).0 ≢ ok false
ne_refused l type h (allows _ admitted) e = cc
ne_refused l type h (fails _ x bad) e = cc

module _ (env : Env) (faithful : IsFaithful env)
    (takes : (h : History) (m : Outgoing) → env.write_answer h m ≡ none) where
  forward-IsForwarded :
      (task : Task) (raw : String) (h g : History)
      → messages (worker_topic task.type) g ≡ messages (worker_topic task.type) h
      → value (meta_key task.id) g ≡ value (meta_key task.id) h
      → IsForwarded task raw h (forward env task raw g)
  unfolding forward publish set_status value messages
  forward-IsForwarded task raw h g topics meta = record {
    result = ground (arith, takes g (routed_message task raw));
    sent_on =
        ground
          (arith, takes g (routed_message task raw), str_eq_refl (worker_topic task.type), topics);
    state = ground (
      arith,
      takes g (routed_message task raw),
      faithful.acks (kafka_write (routed_message task raw) none ∷ g) (state_key task.id) queued
          state_ttl,
      str_eq_refl (state_key task.id),
    );
    same_meta =
        ground (
          arith,
          takes g (routed_message task raw),
          meta_key-other-state_key task.id task.id,
          meta,
        );
  }

  -- An answer that is not a refusal.
  after_limit-IsForwarded :
      (task : Task) (raw : String) (h g : History) (a : Result Bool)
      → a ≢ ok false
      → messages (worker_topic task.type) g ≡ messages (worker_topic task.type) h
      → value (meta_key task.id) g ≡ value (meta_key task.id) h
      → IsForwarded task raw h (after_limit env task raw a g)
  unfolding after_limit
  after_limit-IsForwarded task raw h g (err e) let_through topics meta =
      forward-IsForwarded task raw h g topics meta
  after_limit-IsForwarded task raw h g (ok true) let_through topics meta =
      forward-IsForwarded task raw h g topics meta
  after_limit-IsForwarded task raw h g (ok false) let_through topics meta =
      absurd (let_through refl)

  limited-IsForwarded :
      (limiter : Option Limiter) (task : Task) (raw : String) (h : History)
      → ((l : Limiter) → limiter ≡ some l → IsQuiet (l.allow task.type))
      → Admits task.type h limiter
      → IsForwarded task raw h (limited env limiter task raw h)
  unfolding limited after_limit
  limited-IsForwarded none task raw h quiet admitted = forward-IsForwarded task raw h h refl refl
  limited-IsForwarded (some l) task raw h quiet admitted =
      let q = quiet l refl in
      after_limit-IsForwarded task raw h _ (l.allow task.type h).0
        (ne_refused l task.type h admitted) (q.messages_same _ h) (q.value_same _ h)

  -- A message of a task with a type, that the limiter lets through, is taken by the topic of its
  -- type.
  pub route-IsForwarded :
      (limiter : Option Limiter) (task : Task) (raw : String) (h : History)
      → ((l : Limiter) → limiter ≡ some l → IsQuiet (l.allow task.type))
      → env.decode raw ≡ some task
      → str_eq task.type "" ≡ false
      → Admits task.type h limiter
      → IsForwarded task raw h (route env limiter raw h)
  unfolding route
  route-IsForwarded limiter task raw h quiet decoded typed admitted =
      rw (decoded, typed) (limited-IsForwarded limiter task raw h quiet admitted)
