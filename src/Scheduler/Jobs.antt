-- ===== src/Scheduler/Jobs.antt =====
-- The jobs that are due: one task for each, and the row of a job moves on only behind its task.
use go_task_flow.Domain.Errors.{Result-cases, Error, err, ok}
use go_task_flow.World.Views.{messages, statements}
use go_task_flow.World.{History, Outgoing, ScheduledJob, Env, uuid_made, clock_read}
use go_task_flow.Prelude.{
  ℕ, zero, suc, ◌+◌, ◌≡◌, refl, inl, inr, false, Option, none, ◌∷◌, arith, Option-cases, is_none,
  length, ◌∙◌,
}
use go_task_flow.Producer.{publish}
use go_task_flow.Scheduler.{pending_topic, task_of, bytes_or_nil, run_job, update_job}

abbrev pub pending_count : History → ℕ
pending_count h = length (messages pending_topic h)

-- What running a job leaves: nothing sent and no row; a task sent and no row, because the cron
-- expression is wrong; or a task sent, and then the statement that moves the job on.
pub data JobRun (env : Env) (job : ScheduledJob) (h : History) (r : Option Error × History)
    : Type 0 where
  unsent :
      pending_count r.1 ≡ pending_count h
      → statements r.1 ≡ statements h
      → is_none r.0 ≡ false
      → JobRun env job h r
  stuck :
      (e : Error)
      → env.cron job.cron_expr ≡ err e
      → pending_count r.1 ≡ suc (pending_count h)
      → statements r.1 ≡ statements h
      → is_none r.0 ≡ false
      → JobRun env job h r
  moved :
      (next : ℕ → ℕ) (now : ℕ)
      → env.cron job.cron_expr ≡ ok next
      → pending_count r.1 ≡ suc (pending_count h)
      → statements r.1 ≡ update_job now (next now) job.id ∷ statements h
      → JobRun env job h r

module _ (env : Env) where
  -- Every run of a job is one of those: its row is touched only after its task is acknowledged by
  -- Kafka, and an error of the publication or of the cron expression is returned with the row
  -- untouched.
  pub run_job-JobRun : (job : ScheduledJob) (h : History) → JobRun env job h (run_job env job h)
  unfolding run_job publish messages statements
  run_job-JobRun job h =
      elim (Option-cases (
        env.write_answer
          (uuid_made (env.new_uuid (clock_read (env.now h) ∷ h)) ∷ clock_read (env.now h) ∷ h)
          (record {
            topic = pending_topic;
            key = env.new_uuid (clock_read (env.now h) ∷ h);
            value =
                bytes_or_nil (
                  env.encode (task_of job (env.new_uuid (clock_read (env.now h) ∷ h)) (env.now h)));
          }))) [
            | inr (x, lost) ↦ unsent (ground arith) (ground arith) (ground arith)
            | inl taken ↦ elim (Result-cases (env.cron job.cron_expr)) [
              | inl (next, good) ↦ moved next (env.now h) good (ground arith) (ground arith)
              | inr (e, bad) ↦ stuck e bad (ground arith) (ground arith) (ground arith)
            ]
          ]

stuck_once :
    (env : Env) (job : ScheduledJob) (e : Error) (h : History)
    → env.cron job.cron_expr ≡ err e
    → ((g : History) (m : Outgoing) → env.write_answer g m ≡ none)
    → (pending_count (run_job env job h).1 ≡ suc (pending_count h))
      × (statements (run_job env job h).1 ≡ statements h)
unfolding run_job publish messages statements
stuck_once env job e h bad taken = rw (taken _ _, bad) (refl, refl)

-- Runs of one job, one after another, as the ticks make them while the job stays due.
unfoldable pub run_times : Env → ScheduledJob → ℕ → History → History
run_times env job zero h = h
run_times env job (suc n) h = run_times env job n (run_job env job h).1

-- A job whose cron expression does not parse, and whose publications Kafka takes, is never moved
-- on: each of n ticks sends one more task for it and leaves its row as it was, so that it is due
-- again at the next tick.
pub bad_cron_repeats :
    (env : Env) (job : ScheduledJob) (e : Error) (n : ℕ) (h : History)
    → env.cron job.cron_expr ≡ err e
    → ((g : History) (m : Outgoing) → env.write_answer g m ≡ none)
    → (pending_count (run_times env job n h) ≡ pending_count h + n)
      × (statements (run_times env job n h) ≡ statements h)
unfolding run_times
bad_cron_repeats env job e zero h bad taken = (omega arith, refl)
bad_cron_repeats env job e (suc n) h bad taken =
    let once = stuck_once env job e h bad taken in
    let rest = bad_cron_repeats env job e n (run_job env job h).1 bad taken in
    (omega (arith, once.0, rest.0), rest.1 ∙ once.1)
