-- ===== src/Dispatcher.antt =====
-- services/dispatcher/dispatcher.go: a message of tasks.pending goes to the topic of its type, or
-- to the dead-letter topic. Logging and tracing spans are left out.
pub mod Routing
pub mod Race
pub mod Limits
pub mod Forwarding
pub mod Relaying
use go_task_flow.Prelude.Int.{ℤ}
use go_task_flow.World.Views.{value}
use go_task_flow.Consumer.{Flow, subscribe}
use go_task_flow.Domain.Errors.{Error, Result, err, wrap, ok}
use go_task_flow.StateStore.{set_status}
use go_task_flow.World.{
  M, ◌>>=◌, ◌>>◌, pure, emit, Env, counted, dispatcher_dlq, dispatcher_rate_limited,
  dispatcher_routed,
}
use go_task_flow.Prelude.{
  ℕ, String, ◌<>◌, Bool, true, false, Option, none, some, str_eq, if◌then◌else◌,
}
use go_task_flow.Domain.{queued, Task}
use go_task_flow.Producer.{publish}

abbrev pub topic_pending : String
topic_pending = "tasks.pending"

abbrev pub topic_dlq : String
topic_dlq = "tasks.dlq"

abbrev pub worker_topic : String → String
worker_topic type = "tasks.worker." <> type

-- The limiter is an interface; none is nil, a disabled limiter.
pub record Limiter : Type 0 where
  pub allow : String → M (Result Bool)
  pub limit : ℤ

module _ (env : Env) where
  -- toDLQ: the raw message, under the empty key.
  unfoldable pub to_dlq : String → M (Option Error)
  to_dlq raw = do e ← publish env topic_dlq "" raw; pure e

  -- Best-effort: the result of the write is only logged.
  unfoldable pub mark_queued : Task → M (Option Error)
  mark_queued task = do
    set_status env task.id queued
    emit (counted (dispatcher_routed task.type))
    pure none

  unfoldable pub after_publish : Task → Option Error → M (Option Error)
  unfolding mark_queued
  after_publish task none = mark_queued task
  after_publish task (some e) = pure (some (wrap ("publish to " <> worker_topic task.type) e))

  unfoldable pub forward : Task → String → M (Option Error)
  unfolding after_publish
  forward task raw = do e ← publish env (worker_topic task.type) task.id raw; after_publish task e

  unfoldable pub rate_limited : String → M (Option Error)
  unfolding to_dlq
  rate_limited raw = do
    emit (counted dispatcher_rate_limited)
    emit (counted dispatcher_dlq)
    to_dlq raw

  -- A limiter that fails lets the task through.
  unfoldable pub after_limit : Task → String → Result Bool → M (Option Error)
  unfolding rate_limited
  after_limit task raw (err e) = forward task raw
  after_limit task raw (ok true) = forward task raw
  after_limit task raw (ok false) = rate_limited raw

  unfoldable pub limited : Option Limiter → Task → String → M (Option Error)
  unfolding after_limit
  limited none task raw = forward task raw
  limited (some l) task raw = do allowed ← l.allow task.type; after_limit task raw allowed

  unfoldable pub rejected : String → M (Option Error)
  unfolding to_dlq
  rejected raw = do emit (counted dispatcher_dlq); to_dlq raw

  unfoldable pub routed : Option Limiter → String → Option Task → M (Option Error)
  unfolding rejected
  routed limiter raw none = rejected raw
  routed limiter raw (some task) =
      if str_eq task.type "" then rejected raw else limited limiter task raw

  -- The Kafka handler: nil commits the offset.
  unfoldable pub route : Option Limiter → String → M (Option Error)
  unfolding routed
  route limiter raw = routed limiter raw (env.decode raw)

  -- Run: n rounds of the consumer's loop with the handler.
  unfoldable pub run : Option Limiter → ℕ → M Flow
  unfolding route
  run limiter n = subscribe env (λ msg. route limiter msg.value) n
