-- ===== src/Domain.antt =====
-- internal/domain/task.go: the states of a task, the task and its execution record.
pub mod Errors
use go_task_flow.Prelude.{ℕ, String, Bool, ◌||◌, Option, str_eq}
use go_task_flow.Prelude.Int.{ℤ}

-- Go's `type Status string`: any text is a Status, seven have names.
abbrev pub Status : Type 0
Status = String

abbrev pub pending : Status
pending = "PENDING"

abbrev pub queued : Status
queued = "QUEUED"

abbrev pub running : Status
running = "RUNNING"

abbrev pub done : Status
done = "DONE"

abbrev pub failed : Status
failed = "FAILED"

abbrev pub retrying : Status
retrying = "RETRYING"

abbrev pub dead : Status
dead = "DEAD"

unfoldable pub is_terminal : Status → Bool
is_terminal s = str_eq s done || str_eq s dead || str_eq s failed

-- Times are nanoseconds since 1970, of a clock that is behind it; a schedule may lie before.
pub record Task : Type 0 where
  pub id : String
  pub type : String
  pub payload : String
  pub status : Status
  pub priority : ℤ
  pub attempts : ℤ
  pub max_retries : ℤ
  pub created_at : ℕ
  pub updated_at : ℕ
  pub scheduled_at : Option ℤ
  pub completed_at : Option ℕ

-- `executed_at` is none for the zero time.
pub record TaskExecution : Type 0 where
  pub id : String
  pub task_id : String
  pub worker_id : String
  pub attempt : ℤ
  pub status : Status
  pub duration_ms : ℕ
  pub error : String
  pub executed_at : Option ℕ
