-- ===== src/StateStore.antt =====
-- internal/redis/state_store.go: the live state of tasks in Redis.
pub mod RoundTrip
pub mod Effects
use go_task_flow.Prelude.{ℕ, ◌*◌, String, ◌<>◌, ◌==◌, Option, none, some, if◌then◌else◌}
use go_task_flow.Domain.{Status, Task}
use go_task_flow.Domain.Errors.{
  Error, Result, ok, err, task_not_found, external, wrap, wrap_err, is_redis_nil,
}
use go_task_flow.World.{Env, M, pure, client_set, client_get, ◌>>=◌}

-- In nanoseconds, as time.Duration: 24 hours and one hour.
abbrev pub state_ttl : ℕ
state_ttl = 86_400_000_000_000

abbrev pub result_ttl : ℕ
result_ttl = 3_600_000_000_000

abbrev pub state_key : String → String
state_key id = "task:state:" <> id

abbrev pub meta_key : String → String
meta_key id = "task:meta:" <> id

abbrev pub result_key : String → String
result_key id = "task:result:" <> id

-- The error of a GET: redis.Nil becomes TaskNotFoundError, any other is wrapped.
unfoldable pub read_error : String → String → Error → Error
read_error what id e =
    if is_redis_nil e then task_not_found id else wrap ("redis get " <> what <> " for " <> id) e

module _ (env : Env) where
  unfoldable pub set_status : String → Status → M (Option Error)
  set_status id status = do
    e ← client_set env (state_key id) status state_ttl
    pure (wrap_err ("redis set status for " <> id) e)

  got_status : String → Result String → Result Status
  unfolding read_error
  got_status id (ok val) = ok val
  got_status id (err e) = err (read_error "status" id e)

  unfoldable pub get_status : String → M (Result Status)
  unfolding got_status
  get_status id = do r ← client_get env (state_key id); pure (got_status id r)

  unfoldable pub write_meta : Task → Result String → M (Option Error)
  write_meta task (err e) = pure (some (wrap "marshal task meta" e))
  write_meta task (ok bytes) = do
    e ← client_set env (meta_key task.id) bytes state_ttl
    pure (wrap_err ("redis set meta for " <> task.id) e)

  unfoldable pub set_task_meta : Task → M (Option Error)
  unfolding write_meta
  set_task_meta task = write_meta task (env.encode task)

  decoded : Option Task → Result Task
  decoded none = err (wrap "unmarshal task meta" (external "json"))
  decoded (some task) = ok task

  got_task : String → Result String → Result Task
  unfolding read_error decoded
  got_task id (ok val) = decoded (env.decode val)
  got_task id (err e) = err (read_error "meta" id e)

  unfoldable pub get_task_meta : String → M (Result Task)
  unfolding got_task
  get_task_meta id = do r ← client_get env (meta_key id); pure (got_task id r)

  unfoldable pub set_result : String → String → ℕ → M (Option Error)
  set_result id result ttl = do
    e ← client_set env (result_key id) result (if ttl == 0 then result_ttl else ttl)
    pure (wrap_err ("redis set result for " <> id) e)

  got_result : String → Result String → Result String
  unfolding read_error
  got_result id (ok val) = ok val
  got_result id (err e) = err (read_error "result" id e)

  unfoldable pub get_result : String → M (Result String)
  unfolding got_result
  get_result id = do r ← client_get env (result_key id); pure (got_result id r)
