-- ===== src/Producer.antt =====
-- internal/kafka/producer.go: one message to one topic.
use go_task_flow.Prelude.{String, ◌<>◌, Option}
use go_task_flow.Domain.Errors.{Error, wrap_err}
use go_task_flow.World.{Env, M, pure, write_messages, ◌>>=◌}

-- The trace headers and the time stamp of a message are left out.
unfoldable pub publish : Env → String → String → String → M (Option Error)
publish env topic key value = do
  e ← write_messages env (record { topic = topic; key = key; value = value })
  pure (wrap_err ("kafka publish to " <> topic) e)
