-- ===== src/Dispatcher/Race.antt =====
-- The dispatcher publishes a task before it writes QUEUED, so a worker may finish the task in
-- between. Its terminal state is then overwritten.
use go_task_flow.Worker.Lifecycle.{process-Processed}
use go_task_flow.Worker.Delivery.{IsFaithful}
use go_task_flow.Prelude.Texts.{str_eq_refl}
use go_task_flow.World.Views.{value, runs, IsQuiet}
use go_task_flow.Worker.{process_message, Worker}
use go_task_flow.Registry.{get, Handler}
use go_task_flow.StateStore.{state_ttl, state_key, set_status}
use go_task_flow.World.{History, Env}
use go_task_flow.Dispatcher.{worker_topic, mark_queued, forward}
use go_task_flow.Domain.Errors.{ok}
use go_task_flow.Prelude.{◌<◌, String, ◌≡◌, refl, false, none, some, arith}
use go_task_flow.Domain.{Status, queued, is_terminal, Task}
use go_task_flow.Producer.{publish}

module _ (env : Env) (task : Task) (raw : String) where
  -- `forward` is the publication, then, if Kafka took the message, the mark: two steps between
  -- which others may act.
  pub forward_steps :
      (h : History)
      → (publish env (worker_topic task.type) task.id raw h).0 ≡ none
      → forward env task raw h
        ≡ mark_queued env task (publish env (worker_topic task.type) task.id raw h).1
  unfolding forward publish
  forward_steps h taken = ground arith

  pub value-mark_queued :
      (h : History)
      → IsFaithful env
      → value (state_key task.id) (mark_queued env task h).1 ≡ some queued
  unfolding mark_queued set_status value
  value-mark_queued h faithful =
      ground (
        arith,
        str_eq_refl (state_key task.id),
        faithful.acks h (state_key task.id) queued state_ttl,
      )

  runs-mark_queued : (h : History) → runs (mark_queued env task h).1 ≡ runs h
  unfolding mark_queued set_status runs
  runs-mark_queued h = refl

pub is_terminal-queued : is_terminal queued ≡ false
unfolding is_terminal
is_terminal-queued = refl

-- The interleaving: the dispatcher publishes, a worker processes the message, and the dispatcher
-- marks it QUEUED.
abbrev pub overtaken : Env → Worker → Task → String → History → History
overtaken env w task raw h =
    (mark_queued env task
      (process_message env w raw (publish env (worker_topic task.type) task.id raw h).1).1).1

-- A worker that finishes a task between the dispatcher's publication and its write of QUEUED loses
-- its result in Redis: the two steps are those of `forward`, the state afterwards is QUEUED, which
-- is not terminal, whatever the worker wrote, and a second delivery of the same message runs the
-- handler again, at least once. Redis is faithful, Kafka takes the message, and the handler does
-- not write to the queue's own keys and topics.
pub overtaken_reruns :
    (env : Env) (w : Worker) (handler : Handler) (task : Task) (raw : String) (h : History)
    → IsFaithful env
    → ((t : Task) → IsQuiet (handler.handle t))
    → env.decode raw ≡ some task
    → get w.registry task.type ≡ ok handler
    → (publish env (worker_topic task.type) task.id raw h).0 ≡ none
    → let h₁ = (publish env (worker_topic task.type) task.id raw h).1 in
      let h₂ = overtaken env w task raw h in
      (forward env task raw h ≡ mark_queued env task h₁)
      × (value (state_key task.id) h₂ ≡ some queued)
      × (runs h₂ ≡ runs (process_message env w raw h₁).1)
      × (runs h₂ < runs (process_message env w raw h₂).1)
overtaken_reruns env w handler task raw h faithful quiet decoded found taken =
    let h₂ = overtaken env w task raw h in
    let kept : value (state_key task.id) h₂ ≡ some queued =
      value-mark_queued env task raw _ faithful in
    let live : (s : Status) → env.get_answer h₂ (state_key task.id) ≡ ok s → is_terminal s ≡ false =
      λ s e.
        ground (arith, e, faithful.reads h₂ (state_key task.id) queued kept, is_terminal-queued) in
    let (_, (e, n, j, p)) =
      process-Processed env w handler task raw quiet h₂ decoded found live
        (faithful.acks _ _ _ _) in
    (
      forward_steps env task raw h taken,
      kept,
      runs-mark_queued env task raw _,
      omega (arith, p.ran, p.some_attempt),
    )
