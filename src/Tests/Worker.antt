-- ===== src/Tests/Worker.antt =====
-- The worker at concrete messages.
use go_task_flow.Prelude.Int.{add_one}
use go_task_flow.Retry.{retry}
use go_task_flow.Repository.{set_row_status, record_execution}
use go_task_flow.Worker.Lifecycle.{started}
use go_task_flow.Worker.Delivery.{process-error, redelivery_skipped, unknown_type, NotStarted}
use go_task_flow.Worker.Shutdown.{shutdown_loses_task}
use go_task_flow.Domain.Errors.{Error, external, invalid_task_type, retry_cancelled, wrap}
use go_task_flow.World.Views.{value, sets, messages, statements}
use go_task_flow.Tests.Fixtures.{
  sample, calm, stopping, succeeding, failing, worker_with, failing-IsQuiet, calm-IsFaithful,
  stopping-CancelStops,
}
use go_task_flow.Worker.{topic_dlq, execute, run_task, process_message, Worker}
use go_task_flow.Registry.{get}
use go_task_flow.StateStore.{state_key, set_status, get_status, set_task_meta}
use go_task_flow.World.{Env, redis_get, redis_set}
use go_task_flow.Prelude.{◌≡◌, refl, none, some, [], ◌∷◌}
use go_task_flow.Domain.{running, retrying, dead}
use go_task_flow.Producer.{publish}

-- Two failures, two waits, a third failure.
states_when_exhausted :
    sets (state_key "t1") (process_message calm (worker_with failing) "t1" []).1
    ≡ dead ∷ retrying ∷ retrying ∷ running ∷ []
unfolding process_message run_task get_status set_status publish sets value get retry add_one
    set_row_status record_execution set_task_meta
states_when_exhausted = refl

-- Another task's state is written in between.
redelivery_skipped_example :
    let h' = (process_message calm (worker_with succeeding) "t1" []).1 in
    let g = redis_set "task:state:t2" "QUEUED" 1 none ∷ h' in
    process_message calm (worker_with failing) "t1" g ≡ (none, redis_get (state_key "t1") ∷ g)
unfolding value get
redelivery_skipped_example =
    redelivery_skipped calm (worker_with succeeding) succeeding (sample "t1") "t1" calm-IsFaithful
      (worker_with failing) (sample "t1") "t1" []
      (redis_set "task:state:t2" "QUEUED" 1 none
        ∷ (process_message calm (worker_with succeeding) "t1" []).1)
      refl refl (λ s e. cc) refl refl refl

abbrev refused : Error
refused = wrap "set running status" (wrap "redis set status for t1" (external "connection refused"))

abbrev unreachable : Env
unreachable = record calm { set_answer = λ h k v ttl. some (external "connection refused") }

process-error_example :
    NotStarted unreachable
      (worker_with succeeding)
      "t1"
      refused
      []
      (process_message unreachable (worker_with succeeding) "t1" [])
unfolding process_message get_status set_status value get
process-error_example = process-error unreachable (worker_with succeeding) "t1" [] refused refl

abbrev no_handlers : Worker
no_handlers = record (worker_with failing) { registry = [] }

unknown_type_example : statements (process_message calm no_handlers "t1" []).1 ≡ statements []
unfolding value get
unknown_type_example =
    (unknown_type calm no_handlers "t1" (sample "t1") [] (invalid_task_type "email") refl refl
      (λ s e. cc)).4

shutdown_loses_task_example :
    messages topic_dlq
      (run_task stopping
        (worker_with failing)
        failing
        (sample "t1")
        "t1"
        (started (sample "t1") [])).1
    ≡ []
unfolding execute retry add_one messages
shutdown_loses_task_example =
    (shutdown_loses_task stopping (worker_with failing) failing (sample "t1") "t1" []
        (retry_cancelled 1 (external "context canceled")) stopping-CancelStops failing-IsQuiet refl
        refl).2
      topic_dlq
