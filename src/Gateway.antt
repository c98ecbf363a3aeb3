-- ===== src/Gateway.antt =====
-- services/api-gateway/handler: the REST and gRPC front ends, over the same store, repository and
-- producer.
pub mod Rest
pub mod Grpc
pub mod Agreement
pub mod Middleware
pub mod Sending
use go_task_flow.Prelude.Int.{neg, ℤ, pos}
use go_task_flow.Domain.Errors.{as_not_found, Result, ok, err, wrap}
use go_task_flow.StateStore.{get_status, get_task_meta}
use go_task_flow.World.{M, ◌>>=◌, ◌>>◌, pure, Env}
use go_task_flow.Prelude.{
  ℕ, ◌-◌, ◌/◌, String, Bool, true, ◌&&◌, ◌||◌, none, some, [], ◌∷◌, leb, ◌==◌, if◌then◌else◌,
}
use go_task_flow.Repository.{get_by_id}
use go_task_flow.Domain.{Status, Task}
use Prim.Native.Char.{code}

abbrev pub pending_topic : String
pending_topic = "tasks.pending"

-- unicode.IsSpace on a code point.
unfoldable pub is_space : ℕ → Bool
is_space c =
    (leb 9 c && leb c 13)
    || c == 32
    || c == 0x85
    || c == 0xA0
    || c == 0x1680
    || (leb 0x2000 c && leb c 0x200a)
    || c == 0x2028
    || c == 0x2029
    || c == 0x202f
    || c == 0x205f
    || c == 0x3000

-- strings.TrimSpace(s) == ""
unfoldable pub is_blank : String → Bool
unfolding is_space
is_blank String.[] = true
is_blank (String.◌∷◌ c s) = is_space (code c) && is_blank s

-- completed.Sub(created).Milliseconds(), of times in nanoseconds.
unfoldable pub millis_between : ℕ → ℕ → ℤ
unfolding neg
millis_between created completed =
    if leb created completed
    then pos ((completed - created) / 1_000_000)
    else neg ((created - completed) / 1_000_000)

-- `int64(…, omitempty)`: 0 where the task is not completed.
unfoldable pub duration_ms : Task → ℤ
unfolding millis_between
duration_ms task = elim task.completed_at [
  | none ↦ pos 0
  | some t ↦ millis_between task.created_at t
]

-- A task's metadata from Redis, or its row where Redis does not have it.
module _ (env : Env) where
  from_store : String → Result Task → M (Result Task)
  from_store id (ok task) = pure (ok task)
  from_store id (err e) = if as_not_found e then get_by_id env id else pure (err e)

  unfoldable pub find_task : String → M (Result Task)
  unfolding from_store
  find_task id = do r ← get_task_meta env id; from_store id r

  live_state : Task → Result Status → Task
  live_state task (ok s) = record task { status = s }
  live_state task (err e) = task

  -- The live status from Redis, if it is there.
  unfoldable pub with_live_status : String → Task → M Task
  unfolding live_state
  with_live_status id task = do s ← get_status env id; pure (live_state task s)
