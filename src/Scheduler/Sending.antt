-- ===== src/Scheduler/Sending.antt =====
-- What a tick of the scheduler sends.
use go_task_flow.World.Sending.{Adds, Adds-none, Adds-one, Adds-trans}
use go_task_flow.Scheduler.{
  pending_topic, task_of, bytes_or_nil, run_job, run_jobs, process_due_jobs, load_due_jobs, tick,
  led, processed, elected, acquire_or_renew_leadership, leader_key, leader_ttl,
}
use go_task_flow.Producer.{publish}
use go_task_flow.Domain.Errors.{Result, ok, err, Result-cases}
use go_task_flow.World.{History, Outgoing, Env, ScheduledJob, clock_read, uuid_made}
use go_task_flow.World.Views.{sent}
use go_task_flow.Prelude.{
  ℕ, String, ◌≡◌, refl, Bool, true, false, List, [], ◌∷◌, arith, inl, inr, Option-cases,
}

module _ (env : Env) (P : String → Outgoing → Type 0)
    (allows : (job : ScheduledJob) (id : String) (now : ℕ)
      → P pending_topic (record {
        topic = pending_topic;
        key = id;
        value = bytes_or_nil (env.encode (task_of job id now));
      })) where
  run_job-Adds : (job : ScheduledJob) (h : History) → Adds P h (run_job env job h).1
  unfolding run_job publish sent
  run_job-Adds job h =
      let now : ℕ = env.now h in
      let id : String = env.new_uuid (clock_read now ∷ h) in
      let h₁ : History = uuid_made id ∷ clock_read now ∷ h in
      let m : Outgoing = record {
        topic = pending_topic;
        key = id;
        value = bytes_or_nil (env.encode (task_of job id now));
      } in
      elim (Option-cases (env.write_answer h₁ m)) [
        | inr (x, lost) ↦
            Adds-one P h (run_job env job h).1 m (λ t. ground arith) (allows job id now)
        | inl taken ↦ elim (Result-cases (env.cron job.cron_expr)) [
          | inl (next, good) ↦
              Adds-one P h (run_job env job h).1 m (λ t. ground arith) (allows job id now)
          | inr (e, bad) ↦
              Adds-one P h (run_job env job h).1 m (λ t. ground arith) (allows job id now)
        ]
      ]

  run_jobs-Adds : (jobs : List ScheduledJob) (h : History) → Adds P h (run_jobs env jobs h).1
  unfolding run_jobs
  run_jobs-Adds [] h = Adds-none P h h (λ t. refl)
  run_jobs-Adds (job ∷ jobs) h =
      Adds-trans P h (run_job env job h).1 (run_jobs env jobs (run_job env job h).1).1
        (run_job-Adds job h) (run_jobs-Adds jobs (run_job env job h).1)

  processed-Adds : (r : Result (List ScheduledJob)) (h : History) → Adds P h (processed env r h).1
  unfolding processed
  processed-Adds (err e) h = Adds-none P h h (λ t. refl)
  processed-Adds (ok jobs) h = run_jobs-Adds jobs h

  process-Adds : (h : History) → Adds P h (process_due_jobs env h).1
  unfolding process_due_jobs load_due_jobs sent
  process-Adds h =
      Adds-trans P h (load_due_jobs env h).1 (process_due_jobs env h).1
        (Adds-none P h (load_due_jobs env h).1 (λ t. refl))
        (processed-Adds (load_due_jobs env h).0 (load_due_jobs env h).1)

  module _ (instance_id : String) where
    acquire-sent :
        (h : History) (t : String)
        → sent t (acquire_or_renew_leadership env instance_id h).1 ≡ sent t h
    unfolding acquire_or_renew_leadership elected sent
    acquire-sent h t = elim (Option-cases (env.set_nx_answer h leader_key instance_id leader_ttl)) [
      | inl won ↦ ground arith
      | inr (e, held) ↦ ground arith
    ]

    led-Adds : (b : Bool) (h : History) → Adds P h (led env instance_id b h).1
    unfolding led
    led-Adds false h = Adds-none P h h (λ t. refl)
    led-Adds true h = process-Adds h

    pub tick-Adds : (h : History) → Adds P h (tick env instance_id h).1
    unfolding tick
    tick-Adds h =
        let g : History = (acquire_or_renew_leadership env instance_id h).1 in
        Adds-trans P h g (tick env instance_id h).1 (Adds-none P h g (acquire-sent h))
          (led-Adds (acquire_or_renew_leadership env instance_id h).0 g)
