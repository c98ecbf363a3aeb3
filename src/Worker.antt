-- ===== src/Worker.antt =====
-- services/worker/worker.go: a message of a worker topic becomes runs of a handler, with retries,
-- and one final state. Logging and tracing spans are left out.
mod Retries
pub mod Final
pub mod Lifecycle
pub mod Delivery
pub mod Finishing
pub mod Sending
pub mod Growth
pub mod Shutdown
use go_task_flow.World.Views.{value}
use go_task_flow.Consumer.{Flow, subscribe}
use go_task_flow.Gateway.{duration_ms}
use go_task_flow.Prelude.{
  ℕ, ◌+◌, ◌-◌, String, Bool, true, false, Option, none, some, List, [], ◌∷◌, if◌then◌else◌,
}
use go_task_flow.Prelude.Int.{ℤ, pos, add_one}
use go_task_flow.Domain.{Status, Task, TaskExecution, is_terminal, done, dead, running, retrying}
use go_task_flow.Domain.Errors.{Error, Result, ok, err, text, wrap}
use go_task_flow.World.{
  Env, History, M, pure, emit, time_now, wait_timer, handled, counted, in_flight_up, in_flight_down,
  worker_retries, worker_dlq, worker_processed, ◌>>=◌, ◌>>◌,
}
use go_task_flow.StateStore.{set_status, get_status, set_task_meta}
use go_task_flow.Producer.{publish}
use go_task_flow.Registry.{Handler, Registry, get}
use go_task_flow.Repository.{record_execution, set_row_status}
use go_task_flow.Retry.{Config, retry}

abbrev pub topic_dlq : String
topic_dlq = "tasks.dlq"

pub record Worker : Type 0 where
  pub worker_id : String
  pub worker_type : String
  pub registry : Registry
  pub max_retries : ℤ
  pub timeout : ℕ
  pub base_delay : ℕ

-- Option is a function on the worker.
abbrev pub WorkerOption : Type 0
WorkerOption = Worker → Worker

unfoldable pub with_retries : ℤ → WorkerOption
with_retries n w = record w { max_retries = n }

unfoldable pub with_timeout : ℕ → WorkerOption
with_timeout d w = record w { timeout = d }

unfoldable pub with_worker_type : String → WorkerOption
with_worker_type t w = record w { worker_type = t }

unfoldable pub with_base_delay : ℕ → WorkerOption
with_base_delay d w = record w { base_delay = d }

apply_all : List WorkerOption → Worker → Worker
apply_all [] w = w
apply_all (opt ∷ opts) w = apply_all opts (opt w)

-- NewWorker: three retries, 30 seconds, waits from one second.
unfoldable pub new_worker : String → Registry → List WorkerOption → Worker
unfolding apply_all
new_worker id registry opts = apply_all opts (record {
  worker_id = id;
  worker_type = "";
  registry = registry;
  max_retries = pos 3;
  timeout = 30_000_000_000;
  base_delay = 1_000_000_000;
})

-- What finishSuccess and finishFailure write into the task.
abbrev pub mark_done : Task → ℕ → Task
mark_done task now = record task { completed_at = some now; status = done; updated_at = now }

abbrev pub mark_dead : Task → ℕ → Task
mark_dead task now = record task { status = dead; updated_at = now }

-- The state of the closures that retry.Do calls: the variable `attempts` beside the history.
abbrev pub Attempts : Type 0
Attempts = ℕ × History

module _ (env : Env) (w : Worker) where
  pub execution : Task → Status → ℕ → String → ℕ → TaskExecution
  execution task status duration_ms error now = record {
    id = "";
    task_id = task.id;
    worker_id = w.worker_id;
    attempt = task.attempts;
    status = status;
    duration_ms = duration_ms;
    error = error;
    executed_at = some now;
  }

  pub finish_success : Task → ℕ → M Unit
  unfolding execution
  finish_success task duration_ms = do
    now ← time_now env
    let final = mark_done task now
    set_status env task.id done
    set_task_meta env final
    record_execution env (execution final done duration_ms "" now)
    set_row_status env task.id done
    emit (counted (worker_processed w.worker_type "done"))

  pub finish_failure : Task → Error → ℕ → String → M Unit
  unfolding execution
  finish_failure task e duration_ms raw = do
    now ← time_now env
    let final = mark_dead task now
    set_status env task.id dead
    set_task_meta env final
    record_execution env (execution final dead duration_ms (text env.format e) now)
    set_row_status env task.id dead
    publish env topic_dlq task.id raw
    emit (counted (worker_processed w.worker_type "dead"))
    emit (counted (worker_dlq w.worker_type))

  -- The function that is retried: attempts++, then the handler.
  pub attempt_once : Handler → Task → Attempts → Option Error × Attempts
  attempt_once handler task (n, h) =
      let (e, h') = handler.handle task h in (e, (n + 1, handled task e ∷ h'))

  -- OnRetry: attempts = attempt, one count, and the state RETRYING.
  pub note_retry : Task → ℕ → Error → Attempts → Attempts
  note_retry task attempt e (n, h) =
      let (_, h') = set_status env task.id retrying (counted (worker_retries w.worker_type) ∷ h) in
      (attempt, h')

  wait_or_cancel : ℤ → Attempts → Bool × Attempts
  wait_or_cancel d (n, h) = let (fired, h') = wait_timer env d h in (fired, (n, h'))

  pub retry_config : Task → Config Attempts
  unfolding note_retry wait_or_cancel
  retry_config task = record {
    max_attempts = add_one w.max_retries;
    base_delay = w.base_delay;
    on_retry = some (note_retry task);
    wait = wait_or_cancel;
    ctx_err = λ s. env.ctx_error s.1;
  }

  unfoldable pub execute : Handler → Task → M (Option Error × ℕ)
  unfolding attempt_once retry_config
  execute handler task h =
      let (e, s) = retry (retry_config task) (attempt_once handler task) (0, h) in ((e, s.0), s.1)

  pub finish : Task → Option Error → ℕ → String → M Unit
  unfolding finish_success finish_failure
  finish task none duration_ms raw = finish_success task duration_ms
  finish task (some e) duration_ms raw = finish_failure task e duration_ms raw

  -- From the start of the in-flight window to its deferred end.
  unfoldable pub run_task : Handler → Task → String → M (Option Error)
  unfolding execute finish
  run_task handler task raw = do
    emit in_flight_up
    start ← time_now env
    outcome ← execute handler task
    stop ← time_now env
    finish (record task { attempts = pos outcome.1 }) outcome.0 (env.millis (stop - start)) raw
    emit in_flight_down
    pure none

  pub start_task : Handler → Task → String → Option Error → M (Option Error)
  start_task handler task raw (some e) = pure (some (wrap "set running status" e))
  start_task handler task raw none = run_task handler task raw

  pub with_handler : Task → String → Result Handler → M (Option Error)
  unfolding start_task
  with_handler task raw (err e) = do
    set_status env task.id dead
    publish env topic_dlq task.id raw
    emit (counted (worker_dlq w.worker_type))
    pure none
  with_handler task raw (ok handler) = do
    e ← set_status env task.id running
    start_task handler task raw e

  -- Idempotency: a task that is already in a terminal state is skipped.
  pub unless_terminal : Task → String → Result Status → M (Option Error)
  unfolding with_handler is_terminal
  unless_terminal task raw (err e) = with_handler task raw (get w.registry task.type)
  unless_terminal task raw (ok s) =
      if is_terminal s then pure none else with_handler task raw (get w.registry task.type)

  pub on_decoded : String → Option Task → M (Option Error)
  unfolding unless_terminal
  on_decoded raw none = pure none
  on_decoded raw (some task) = do s ← get_status env task.id; unless_terminal task raw s

  -- The Kafka handler: nil commits the offset.
  unfoldable pub process_message : String → M (Option Error)
  unfolding on_decoded
  process_message raw = on_decoded raw (env.decode raw)

  -- Run: n rounds of the consumer's loop with the handler.
  unfoldable pub run : ℕ → M Flow
  run n = subscribe env (λ msg. process_message msg.value) n
