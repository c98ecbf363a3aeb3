-- ===== src/Worker/Growth.antt =====
-- services/worker/worker.go: DONE is written behind a run that returned nil, and DEAD with a dead
-- letter.
use go_task_flow.Causes.{
  begins, retries, completed, Grows, Grows-same, Grows-refl, Grows-trans, Growing, Growing-bind,
  IsQuiet-Growing, set_task_meta-Growing, set_status-Grows, buried-Grows,
}
use go_task_flow.Causes.Gateway.{time_now-Growing}
use go_task_flow.Domain.{Task, TaskExecution, Status, done, dead, running, retrying, is_terminal}
use go_task_flow.Domain.Errors.{Error, Result, ok, err, text}
use go_task_flow.Prelude.Texts.{str_eq_refl}
use go_task_flow.Registry.{Handler, get}
use go_task_flow.Repository.{record_execution, set_row_status}
use go_task_flow.Retry.{retry}
use go_task_flow.Retry.Outcome.{
  Retrying, start, again, Outcome, succeeded, exhausted, cancelled, wait_after, retry-Outcome,
}
use go_task_flow.StateStore.{set_status, set_task_meta, get_status}
use go_task_flow.Worker.Lifecycle.{begun}
use go_task_flow.Worker.{
  Worker, Attempts, mark_done, mark_dead, execution, finish, attempt_once, note_retry,
  wait_or_cancel, finish_success, finish_failure, retry_config, execute, run_task, start_task,
  with_handler, unless_terminal, on_decoded, process_message,
}
use go_task_flow.World.{
  History, Env, Metric, M, pure, emit, counted, clock_read, in_flight_up, in_flight_down,
  worker_retries, worker_processed, worker_dlq, wait_timer, handled,
}
use go_task_flow.World.Views.{sets, sent, successes, IsQuiet}
use go_task_flow.Prelude.Int.{ℤ, pos}
use go_task_flow.Prelude.{
  ℕ, ◌-◌, ◌<◌, String, ◌≡◌, refl, Option, none, some, ◌∷◌, arith, inl, inr, Bool-cases,
}

module _ (env : Env) where
  record_execution-Growing : (exec : TaskExecution) → Growing (record_execution env exec)
  unfolding record_execution sets sent successes
  record_execution-Growing exec h =
      Grows-same h _ (λ id. ground arith) (λ id. ground arith) (λ t. ground arith)

  set_row_status-Growing : (id : String) (s : Status) → Growing (set_row_status env id s)
  unfolding set_row_status sets sent successes
  set_row_status-Growing id s h = Grows-same h _ (λ i. refl) (λ i. refl) (λ t. refl)

  counted-Growing : (m : Metric) → Growing (emit (counted m))
  unfolding sets sent successes
  counted-Growing m h = Grows-same h _ (λ id. refl) (λ id. refl) (λ t. refl)

  module _ (w : Worker) (handler : Handler) (task : Task)
      (quiet : (t : Task) → IsQuiet (handler.handle t)) where
    handled-Grows : (e : Option Error) (h : History) → Grows h (handled task e ∷ h)
    unfolding sets sent successes
    handled-Grows none h = record {
      wins = λ id. ground arith;
      keeps = λ t m x. x;
      adds = λ id s x. inl x;
    }
    handled-Grows (some e) h = Grows-same h _ (λ id. refl) (λ id. refl) (λ t. refl)

    attempt-Grows : (s : Attempts) → Grows s.1 (attempt_once env w handler task s).1.1
    unfolding attempt_once
    attempt-Grows s =
        Grows-trans (IsQuiet-Growing (handler.handle task) (quiet task) s.1)
          (handled-Grows (handler.handle task s.1).0 (handler.handle task s.1).1)

    attempt-wins :
        (s : Attempts)
        → (attempt_once env w handler task s).0 ≡ none
        → 0 < successes task.id (attempt_once env w handler task s).1.1
    unfolding attempt_once successes
    attempt-wins s good = rw (good, str_eq_refl task.id) (omega arith)

    waited-Grows : (d : ℤ) (h : History) → Grows h (wait_timer env d h).1
    unfolding sets sent successes
    waited-Grows d h = Grows-same h _ (λ id. refl) (λ id. refl) (λ t. refl)

    wait-Grows :
        (k : ℕ) (e : Error) (s : Attempts)
        → Grows s.1
            (wait_after (retry_config env w task) (attempt_once env w handler task) k e s).1.1
    unfolding retry_config note_retry wait_or_cancel
    wait-Grows k e s =
        let g : History = (attempt_once env w handler task s).1.1 in
        let k₁ : History = counted (worker_retries w.worker_type) ∷ g in
        let k₂ : History = (set_status env task.id retrying k₁).1 in
        Grows-trans (attempt-Grows s) (
          Grows-trans (counted-Growing (worker_retries w.worker_type) g) (
            Grows-trans (set_status-Grows env task.id retrying k₁ (retries refl))
              (waited-Grows _ k₂)))

    Retrying-Grows :
        {h : History} {k : ℕ} {s : Attempts}
        → Retrying (retry_config env w task) (attempt_once env w handler task) (0, h) k s
        → Grows h s.1
    Retrying-Grows {h} start = Grows-refl h
    Retrying-Grows (again e r bad fired) = Grows-trans (Retrying-Grows r) (wait-Grows _ e _)

    -- The retries, and what a success among them leaves.
    record Tried (h : History) (r : Option Error × Attempts) : Type 0 where
      grows : Grows h r.1.1
      won : r.0 ≡ none → 0 < successes task.id r.1.1

    Outcome-Tried :
        (h : History) (r : Option Error × Attempts)
        → Outcome (retry_config env w task) (attempt_once env w handler task) (0, h) r
        → Tried h r
    Outcome-Tried h r (succeeded k t before bound good eq) = rw eq (record {
      grows = Grows-trans (Retrying-Grows before) (attempt-Grows t);
      won = λ e. attempt-wins t good;
    })
    Outcome-Tried h r (exhausted k t e before bound bad eq) =
        rw eq
          (record { grows = Grows-trans (Retrying-Grows before) (attempt-Grows t); won = λ q. cc })
    Outcome-Tried h r (cancelled k t e before bound bad stopped eq) =
        rw eq
          (record { grows = Grows-trans (Retrying-Grows before) (wait-Grows k e t); won = λ q. cc })

    retry-Tried :
        (h : History)
        → Tried h (retry (retry_config env w task) (attempt_once env w handler task) (0, h))
    retry-Tried h =
        Outcome-Tried h _
          (retry-Outcome (retry_config env w task) (attempt_once env w handler task) (0, h))

  module _ (w : Worker) where
    -- The metadata, the execution and the row of a task that has ended.
    abbrev recorded : Task → TaskExecution → Status → M (Option Error)
    recorded final exec status h =
        set_row_status env final.id status
          (record_execution env exec (set_task_meta env final h).1).1

    recorded-Growing :
        (final : Task) (exec : TaskExecution) (status : Status)
        → Growing (recorded final exec status)
    recorded-Growing final exec status h =
        Grows-trans (set_task_meta-Growing env final h)
          (Grows-trans (record_execution-Growing exec _) (set_row_status-Growing final.id status _))

    done-Grows :
        (task : Task) (d : ℕ) (h : History)
        → 0 < successes task.id h
        → Grows h (finish_success env w task d h).1
    unfolding finish_success
    done-Grows task d h won =
        let now : ℕ = env.now h in
        let g : History = clock_read now ∷ h in
        Grows-trans (time_now-Growing env h) (
          Grows-trans
            (set_status-Grows env task.id done g
              (completed refl (unfold set_status successes in won)))
            (Grows-trans
              (recorded-Growing (mark_done task now)
                (execution env w (mark_done task now) done d "" now) done _)
              (counted-Growing (worker_processed w.worker_type "done") _)))

    dead-Growing :
        (task : Task) (e : Error) (d : ℕ) (raw : String)
        → Growing (finish_failure env w task e d raw)
    unfolding finish_failure
    dead-Growing task e d raw h =
        let now : ℕ = env.now h in
        Grows-trans (time_now-Growing env h) (
          buried-Grows env task.id raw
            (recorded (mark_dead task now)
              (execution env w (mark_dead task now) dead d (text env.format e) now) dead)
            (λ g.
              emit (counted (worker_dlq w.worker_type))
                (counted (worker_processed w.worker_type "dead") ∷ g))
            (clock_read now ∷ h) (recorded-Growing (mark_dead task now) _ dead)
            (λ g.
              Grows-trans (counted-Growing (worker_processed w.worker_type "dead") g)
                (counted-Growing (worker_dlq w.worker_type) _)))

    finish-Grows :
        (task : Task) (e : Option Error) (d : ℕ) (raw : String) (h : History)
        → (e ≡ none → 0 < successes task.id h)
        → Grows h (finish env w task e d raw h).1
    unfolding finish
    finish-Grows task none d raw h won = done-Grows task d h (won refl)
    finish-Grows task (some e) d raw h won = dead-Growing task e d raw h

    gauge-Grows : (h : History) → Grows h (in_flight_up ∷ h) × Grows h (in_flight_down ∷ h)
    unfolding sets sent successes
    gauge-Grows h = (
      Grows-same h _ (λ id. refl) (λ id. refl) (λ t. refl),
      Grows-same h _ (λ id. refl) (λ id. refl) (λ t. refl),
    )

    run_task-Growing :
        (handler : Handler) (task : Task) (raw : String)
        → ((t : Task) → IsQuiet (handler.handle t))
        → Growing (run_task env w handler task raw)
    unfolding run_task execute successes
    run_task-Growing handler task raw quiet h =
        let x = retry-Tried w handler task quiet (begun env h) in
        let o : (Option Error × ℕ) × History = execute env w handler task (begun env h) in
        let k : History = clock_read (env.now o.1) ∷ o.1 in
        Grows-trans (gauge-Grows h).0 (
          Grows-trans (time_now-Growing env (in_flight_up ∷ h)) (
            Grows-trans x.grows (
              Grows-trans (time_now-Growing env o.1) (
                Grows-trans
                  (finish-Grows (record task { attempts = pos o.0.1 }) o.0.0
                    (env.millis (env.now o.1 - env.now (in_flight_up ∷ h))) raw k x.won)
                  (gauge-Grows _).1))))

    start_task-Growing :
        (handler : Handler) (task : Task) (raw : String) (e : Option Error)
        → ((t : Task) → IsQuiet (handler.handle t))
        → Growing (start_task env w handler task raw e)
    unfolding start_task
    start_task-Growing handler task raw (some e) quiet = Grows-refl
    start_task-Growing handler task raw none quiet = run_task-Growing handler task raw quiet

    with_handler-Growing :
        (task : Task) (raw : String) (found : Result Handler)
        → ((handler : Handler) → found ≡ ok handler → (t : Task) → IsQuiet (handler.handle t))
        → Growing (with_handler env w task raw found)
    unfolding with_handler
    with_handler-Growing task raw (err e) quiet h =
        buried-Grows env task.id raw (pure tt) (emit (counted (worker_dlq w.worker_type))) h
          Grows-refl (counted-Growing (worker_dlq w.worker_type))
    with_handler-Growing task raw (ok handler) quiet h =
        Grows-trans (set_status-Grows env task.id running h (begins refl))
          (start_task-Growing handler task raw _ (quiet handler refl) _)

    module _
        (quiet : (k : String) (handler : Handler)
          → get w.registry k ≡ ok handler
          → (t : Task) → IsQuiet (handler.handle t)) where
      unless_terminal-Growing :
          (task : Task) (raw : String) (s : Result Status)
          → Growing (unless_terminal env w task raw s)
      unfolding unless_terminal
      unless_terminal-Growing task raw (err e) h =
          with_handler-Growing task raw _ (quiet task.type) h
      unless_terminal-Growing task raw (ok s) h = elim (Bool-cases (is_terminal s)) [
        | inl ended ↦ rw ended (Grows-refl h)
        | inr live ↦ rw live (with_handler-Growing task raw _ (quiet task.type) h)
      ]

      get_status-Growing : (id : String) → Growing (get_status env id)
      unfolding get_status sets sent successes
      get_status-Growing id h = Grows-same h _ (λ i. refl) (λ i. refl) (λ t. refl)

      on_decoded-Growing : (raw : String) (d : Option Task) → Growing (on_decoded env w raw d)
      unfolding on_decoded
      on_decoded-Growing raw none = Grows-refl
      on_decoded-Growing raw (some task) =
          Growing-bind (get_status env task.id) (unless_terminal env w task raw)
            (get_status-Growing task.id) (unless_terminal-Growing task raw)

      -- A message that a worker processes, whatever it is, has every status written with its cause.
      pub process-Growing : (raw : String) → Growing (process_message env w raw)
      unfolding process_message
      process-Growing raw = on_decoded-Growing raw (env.decode raw)
