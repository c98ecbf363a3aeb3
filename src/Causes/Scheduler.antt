-- ===== src/Causes/Scheduler.antt =====
-- services/scheduler/scheduler.go: a tick writes no status.
use go_task_flow.Causes.{Grows-same, Grows-refl, Growing, Growing-bind, publish-Growing}
use go_task_flow.Causes.Gateway.{time_now-Growing, new_uuid-Growing}
use go_task_flow.Domain.Errors.{Error, Result, ok, err}
use go_task_flow.Producer.{publish}
use go_task_flow.Scheduler.{
  pending_topic, task_of, bytes_or_nil, run_job, run_jobs, process_due_jobs, load_due_jobs, tick,
  led, processed, elected, acquire_or_renew_leadership, leader_key, leader_ttl, after_publish,
  reschedule,
}
use go_task_flow.World.{Env, ScheduledJob, new_uuid, time_now}
use go_task_flow.World.Views.{sets, sent, successes}
use go_task_flow.Prelude.{
  ℕ, String, refl, Bool, true, false, Option, none, some, List, [], ◌∷◌, arith, inl, inr,
  Option-cases,
}

module _ (env : Env) where
  reschedule-Growing :
      (job : ScheduledJob) (now : ℕ) (r : Result (ℕ → ℕ)) → Growing (reschedule env job now r)
  unfolding reschedule sets sent successes
  reschedule-Growing job now (err e) h = Grows-refl h
  reschedule-Growing job now (ok next) h = Grows-same h _ (λ id. refl) (λ id. refl) (λ t. refl)

  after_publish-Growing :
      (job : ScheduledJob) (now : ℕ) (e : Option Error) → Growing (after_publish env job now e)
  unfolding after_publish
  after_publish-Growing job now (some e) = Grows-refl
  after_publish-Growing job now none = reschedule-Growing job now (env.cron job.cron_expr)

  sent_job-Growing :
      (job : ScheduledJob) (now : ℕ) (id : String)
      → Growing (λ h.
        let (e, g) =
          publish env pending_topic id (bytes_or_nil (env.encode (task_of job id now))) h in
        after_publish env job now e g)
  sent_job-Growing job now id =
      Growing-bind (publish env pending_topic id (bytes_or_nil (env.encode (task_of job id now))))
        (after_publish env job now) (publish-Growing env pending_topic id _)
        (after_publish-Growing job now)

  run_job-Growing : (job : ScheduledJob) → Growing (run_job env job)
  unfolding run_job
  run_job-Growing job =
      Growing-bind (time_now env)
        (λ now h.
          let (id, g) = new_uuid env h in
          let (e, k) =
            publish env pending_topic id (bytes_or_nil (env.encode (task_of job id now))) g in
          after_publish env job now e k)
        (time_now-Growing env)
        (λ now.
          Growing-bind (new_uuid env)
            (λ id h.
              let (e, k) =
                publish env pending_topic id (bytes_or_nil (env.encode (task_of job id now))) h in
              after_publish env job now e k)
            (new_uuid-Growing env) (sent_job-Growing job now))

  run_jobs-Growing : (jobs : List ScheduledJob) → Growing (run_jobs env jobs)
  unfolding run_jobs
  run_jobs-Growing [] = Grows-refl
  run_jobs-Growing (job ∷ jobs) =
      Growing-bind (run_job env job) (λ e. run_jobs env jobs) (run_job-Growing job)
        (λ e. run_jobs-Growing jobs)

  processed-Growing : (r : Result (List ScheduledJob)) → Growing (processed env r)
  unfolding processed
  processed-Growing (err e) = Grows-refl
  processed-Growing (ok jobs) = run_jobs-Growing jobs

  load-Growing : Growing (load_due_jobs env)
  unfolding load_due_jobs sets sent successes
  load-Growing h = Grows-same h _ (λ id. refl) (λ id. refl) (λ t. refl)

  process_due_jobs-Growing : Growing (process_due_jobs env)
  unfolding process_due_jobs
  process_due_jobs-Growing =
      Growing-bind (load_due_jobs env) (processed env) load-Growing processed-Growing

  module _ (instance_id : String) where
    acquire-Growing : Growing (acquire_or_renew_leadership env instance_id)
    unfolding acquire_or_renew_leadership elected sets sent successes
    acquire-Growing h =
        elim (Option-cases (env.set_nx_answer h leader_key instance_id leader_ttl)) [
          | inl won ↦ Grows-same h _ (λ id. ground arith) (λ id. ground arith) (λ t. ground arith)
          | inr (e, held) ↦
              Grows-same h _ (λ id. ground arith) (λ id. ground arith) (λ t. ground arith)
        ]

    led-Growing : (b : Bool) → Growing (led env instance_id b)
    unfolding led
    led-Growing false h = Grows-refl h
    led-Growing true h = process_due_jobs-Growing h

    pub tick-Growing : Growing (tick env instance_id)
    unfolding tick
    tick-Growing =
        Growing-bind (acquire_or_renew_leadership env instance_id) (led env instance_id)
          acquire-Growing led-Growing
