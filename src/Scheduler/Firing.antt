-- ===== src/Scheduler/Firing.antt =====
-- processDueJobs of services/scheduler/scheduler.go: what a tick sends and moves on, job by job.
use go_task_flow.Domain.Errors.{Error, Result, ok, err, Result-cases}
use go_task_flow.Producer.{publish}
use go_task_flow.Scheduler.{
  pending_topic, task_of, bytes_or_nil, run_job, run_jobs, processed, process_due_jobs,
  load_due_jobs, led, tick, acquire_or_renew_leadership,
}
use go_task_flow.Scheduler.Ticks.{acquire-counts}
use go_task_flow.World.{
  History, Env, Outgoing, ScheduledJob, Statement, update_job, clock_read, uuid_made,
}
use go_task_flow.World.Views.{messages, statements}
use go_task_flow.Prelude.{
  ℕ, String, ◌≡◌, refl, Bool, true, false, some, List, [], ◌∷◌, inl, inr, Option-cases,
}

-- The message of the task that a job makes.
abbrev pub job_message : Env → ScheduledJob → String → ℕ → Outgoing
job_message env job id now = record {
  topic = pending_topic;
  key = id;
  value = bytes_or_nil (env.encode (task_of job id now));
}

module _ (env : Env) where
  -- The jobs in their order, from the messages and the statements before them to those behind
  -- them, ms' and ss', newest first: the task of a job is refused by Kafka, and nothing else is
  -- done for the job; or it is in tasks.pending, and then its row is left where the cron expression
  -- does not parse, and is else moved on to the next time.
  pub data Fired (ms' : List Outgoing) (ss' : List Statement)
      : List ScheduledJob → List Outgoing → List Statement → Type 0 where
    finished :
        {ms : List Outgoing} {ss : List Statement} → ms ≡ ms' → ss ≡ ss' → Fired ms' ss' [] ms ss
    refused :
        {job : ScheduledJob} {jobs : List ScheduledJob} {ms : List Outgoing} {ss : List Statement}
        (g : History) (id : String) (now : ℕ) (e : Error)
        → env.write_answer g (job_message env job id now) ≡ some e
        → Fired ms' ss' jobs ms ss
        → Fired ms' ss' (job ∷ jobs) ms ss
    stuck :
        {job : ScheduledJob} {jobs : List ScheduledJob} {ms : List Outgoing} {ss : List Statement}
        (id : String) (now : ℕ) (e : Error)
        → env.cron job.cron_expr ≡ err e
        → Fired ms' ss' jobs (job_message env job id now ∷ ms) ss
        → Fired ms' ss' (job ∷ jobs) ms ss
    moved :
        {job : ScheduledJob} {jobs : List ScheduledJob} {ms : List Outgoing} {ss : List Statement}
        (id : String) (now : ℕ) (next : ℕ → ℕ)
        → env.cron job.cron_expr ≡ ok next
        → Fired ms' ss' jobs
            (job_message env job id now ∷ ms)
            (update_job now (next now) job.id ∷ ss)
        → Fired ms' ss' (job ∷ jobs) ms ss

  -- Between two states.
  abbrev pub FiredFrom : List ScheduledJob → History → History → Type 0
  FiredFrom jobs h g =
      Fired (messages pending_topic g) (statements g) jobs (messages pending_topic h) (statements h)

  run_job-Fired :
      (job : ScheduledJob) (jobs : List ScheduledJob) (h g : History)
      → FiredFrom jobs (run_job env job h).1 g
      → FiredFrom (job ∷ jobs) h g
  unfolding run_job publish messages statements
  run_job-Fired job jobs h g rest =
      let now : ℕ = env.now h in
      let id : String = env.new_uuid (clock_read now ∷ h) in
      let k : History = uuid_made id ∷ clock_read now ∷ h in
      elim (Option-cases (env.write_answer k (job_message env job id now))) [
        | inr (e, lost) ↦ refused k id now e lost (rw lost at rest)
        | inl taken ↦ elim (Result-cases (env.cron job.cron_expr)) [
          | inl (next, good) ↦ moved id now next good (rw (taken, good) at rest)
          | inr (e, bad) ↦ stuck id now e bad (rw (taken, bad) at rest)
        ]
      ]

  run_jobs-Fired :
      (jobs : List ScheduledJob) (h : History) → FiredFrom jobs h (run_jobs env jobs h).1
  unfolding run_jobs
  run_jobs-Fired [] h = finished refl refl
  run_jobs-Fired (job ∷ jobs) h =
      run_job-Fired job jobs h _ (run_jobs-Fired jobs (run_job env job h).1)

-- How a tick ends.
pub data TickFired (env : Env) (instance_id : String) (h g : History) : Type 0 where
  follows :
      (acquire_or_renew_leadership env instance_id h).0 ≡ false
      → FiredFrom env [] h g
      → TickFired env instance_id h g
  blind :
      (e : Error)
      → (acquire_or_renew_leadership env instance_id h).0 ≡ true
      → (load_due_jobs env (acquire_or_renew_leadership env instance_id h).1).0 ≡ err e
      → FiredFrom env [] h g
      → TickFired env instance_id h g
  leads :
      (jobs : List ScheduledJob)
      → (acquire_or_renew_leadership env instance_id h).0 ≡ true
      → (load_due_jobs env (acquire_or_renew_leadership env instance_id h).1).0 ≡ ok jobs
      → FiredFrom env jobs h g
      → TickFired env instance_id h g

module _ (env : Env) (instance_id : String) where
  from_election :
      (jobs : List ScheduledJob) (h g : History)
      → FiredFrom env jobs (acquire_or_renew_leadership env instance_id h).1 g
      → FiredFrom env jobs h g
  from_election jobs h g x =
      let (sent, rows) = acquire-counts env instance_id h in rw (← sent, ← rows) x

  processed-TickFired :
      (r : Result (List ScheduledJob)) (h : History)
      → let g = (acquire_or_renew_leadership env instance_id h).1 in
        (acquire_or_renew_leadership env instance_id h).0 ≡ true
        → (load_due_jobs env g).0 ≡ r
        → TickFired env instance_id h (processed env r (load_due_jobs env g).1).1
  unfolding processed load_due_jobs messages statements
  processed-TickFired (err e) h won bad =
      let g : History = (acquire_or_renew_leadership env instance_id h).1 in
      blind e won bad (from_election [] h (load_due_jobs env g).1 (finished refl refl))
  processed-TickFired (ok jobs) h won good =
      let g : History = (acquire_or_renew_leadership env instance_id h).1 in
      let k : History = (load_due_jobs env g).1 in
      leads jobs won good (from_election jobs h (run_jobs env jobs k).1 (run_jobs-Fired env jobs k))

  led-TickFired :
      (b : Bool) (h : History)
      → (acquire_or_renew_leadership env instance_id h).0 ≡ b
      → TickFired env instance_id h
          (led env instance_id b (acquire_or_renew_leadership env instance_id h).1).1
  unfolding led process_due_jobs
  led-TickFired false h lost =
      follows lost
        (from_election [] h (acquire_or_renew_leadership env instance_id h).1 (finished refl refl))
  led-TickFired true h won = processed-TickFired _ h won refl

  -- A tick of a follower, and one of a leader that cannot read the jobs, sends no task and touches
  -- no row. The tick of a leader goes through all jobs that it read, in their order, whatever
  -- happens to one of them: for each, either Kafka refuses its task and the row is left alone, or
  -- its task is in tasks.pending, once, and its row is moved on by one statement to the time that
  -- its cron expression gives, or left where the expression does not parse. No other task is sent
  -- and no other row is touched.
  pub tick-TickFired : (h : History) → TickFired env instance_id h (tick env instance_id h).1
  unfolding tick
  tick-TickFired h = led-TickFired _ h refl
