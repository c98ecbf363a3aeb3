-- ===== src/Worker/Sending.antt =====
-- services/worker/worker.go: the messages that processMessage sends.
use go_task_flow.Prelude.Int.{pos}
use go_task_flow.World.Sending.{Adds, Adds-none, Adds-one, Adds-trans, publish-Adds}
use go_task_flow.Worker.Lifecycle.{begun}
use go_task_flow.Worker.Retries.{retry-Executed}
use go_task_flow.Worker.{
  Worker, topic_dlq, finish, execute, run_task, start_task, with_handler, unless_terminal,
  on_decoded, process_message,
}
use go_task_flow.StateStore.{state_key, set_status, set_task_meta, get_status}
use go_task_flow.Repository.{record_execution, set_row_status}
use go_task_flow.Registry.{Handler, get}
use go_task_flow.Producer.{publish}
use go_task_flow.Domain.{Task, Status, dead, running, is_terminal}
use go_task_flow.Domain.Errors.{Error, Result, ok, err}
use go_task_flow.World.{History, Outgoing, Env, clock_read, in_flight_up, pure, redis_get}
use go_task_flow.World.Views.{sent, IsQuiet}
use go_task_flow.Prelude.{
  ℕ, ◌-◌, String, ◌≡◌, refl, Bool, true, false, Option, none, some, ◌∷◌, arith, if◌then◌else◌,
}

module _ (env : Env) (w : Worker) (P : String → Outgoing → Type 0) (raw : String)
    (allows : (task : Task)
      → env.decode raw ≡ some task
      → P topic_dlq (record { topic = topic_dlq; key = task.id; value = raw })) where
  finish-Adds :
      (task : Task) (e : Option Error) (d : ℕ) (h : History)
      → P topic_dlq (record { topic = topic_dlq; key = task.id; value = raw })
      → Adds P h (finish env w task e d raw h).1
  unfolding finish set_status set_task_meta record_execution set_row_status publish sent is_terminal
  finish-Adds task none d h p = Adds-none P h (finish env w task none d raw h).1 (λ t. ground arith)
  finish-Adds task (some e) d h p =
      Adds-one P h (finish env w task (some e) d raw h).1
        (record { topic = topic_dlq; key = task.id; value = raw }) (λ t. ground arith) p

  run_task-Adds :
      (handler : Handler) (task : Task) (h : History)
      → ((t : Task) → IsQuiet (handler.handle t))
      → env.decode raw ≡ some task
      → Adds P h (run_task env w handler task raw h).1
  unfolding run_task execute sent
  run_task-Adds handler task h quiet decoded =
      let (n, j, x) = retry-Executed env w handler task quiet (begun env h) in
      let o : (Option Error × ℕ) × History = execute env w handler task (begun env h) in
      let k : History = clock_read (env.now o.1) ∷ o.1 in
      Adds-trans P h k (run_task env w handler task raw h).1 (Adds-none P h k (λ t. x.same_sent t))
        (finish-Adds (record task { attempts = pos o.0.1 }) o.0.0
          (env.millis (env.now o.1 - env.now (in_flight_up ∷ h))) k (allows task decoded))

  start-Adds :
      (handler : Handler) (task : Task) (e : Option Error) (h : History)
      → ((t : Task) → IsQuiet (handler.handle t))
      → env.decode raw ≡ some task
      → Adds P h (start_task env w handler task raw e h).1
  unfolding start_task
  start-Adds handler task (some e) h quiet decoded = Adds-none P h h (λ t. refl)
  start-Adds handler task none h quiet decoded = run_task-Adds handler task h quiet decoded

  with_handler-Adds :
      (task : Task) (found : Result Handler) (h : History)
      → ((handler : Handler) → found ≡ ok handler → (t : Task) → IsQuiet (handler.handle t))
      → env.decode raw ≡ some task
      → Adds P h (with_handler env w task raw found h).1
  unfolding with_handler set_status sent
  with_handler-Adds task (err e) h quiet decoded =
      let g : History = (set_status env task.id dead h).1 in
      Adds-trans P h g (with_handler env w task raw (err e) h).1 (Adds-none P h g (λ t. refl)) (
        Adds-trans P g (publish env topic_dlq task.id raw g).1
          (with_handler env w task raw (err e) h).1
          (publish-Adds env P topic_dlq task.id raw g (allows task decoded))
          (Adds-none P (publish env topic_dlq task.id raw g).1
            (with_handler env w task raw (err e) h).1 (λ t. refl)))
  with_handler-Adds task (ok handler) h quiet decoded =
      let g : History = (set_status env task.id running h).1 in
      Adds-trans P h g (with_handler env w task raw (ok handler) h).1 (Adds-none P h g (λ t. refl))
        (start-Adds handler task (set_status env task.id running h).0 g (quiet handler refl)
          decoded)

  skip-Adds :
      (task : Task) (terminal : Bool) (found : Result Handler) (h : History)
      → ((handler : Handler) → found ≡ ok handler → (t : Task) → IsQuiet (handler.handle t))
      → env.decode raw ≡ some task
      → Adds P h ((if terminal then pure none else with_handler env w task raw found) h).1
  skip-Adds task true found h quiet decoded = Adds-none P h h (λ t. refl)
  skip-Adds task false found h quiet decoded = with_handler-Adds task found h quiet decoded

  module _
      (quiet : (k : String) (handler : Handler)
        → get w.registry k ≡ ok handler
        → (t : Task) → IsQuiet (handler.handle t)) where
    unless_terminal-Adds :
        (task : Task) (s : Result Status) (h : History)
        → env.decode raw ≡ some task
        → Adds P h (unless_terminal env w task raw s h).1
    unfolding unless_terminal
    unless_terminal-Adds task (ok s) h decoded =
        skip-Adds task (is_terminal s) (get w.registry task.type) h (quiet task.type) decoded
    unless_terminal-Adds task (err e) h decoded =
        with_handler-Adds task (get w.registry task.type) h (quiet task.type) decoded

    on_decoded-Adds :
        (d : Option Task) (h : History) → env.decode raw ≡ d → Adds P h (on_decoded env w raw d h).1
    unfolding on_decoded get_status sent
    on_decoded-Adds none h decoded = Adds-none P h h (λ t. refl)
    on_decoded-Adds (some task) h decoded =
        let g : History = redis_get (state_key task.id) ∷ h in
        Adds-trans P h g (on_decoded env w raw (some task) h).1 (Adds-none P h g (λ t. refl))
          (unless_terminal-Adds task (get_status env task.id h).0 g decoded)

    pub process-Adds : (h : History) → Adds P h (process_message env w raw h).1
    unfolding process_message
    process-Adds h = on_decoded-Adds (env.decode raw) h refl
