-- ===== src/Scheduler/Ticks.antt =====
-- A tick of the scheduler: a follower leaves the jobs alone, the leader runs those that are due.
use go_task_flow.Domain.Errors.{is_redis_nil, Error, err, ok, Result}
use go_task_flow.World.Views.{messages, sent, statements}
use go_task_flow.World.{
  History, ◌>>=◌, pure, run_renew_script, ScheduledJob, Env, redis_set_nx, sql_query,
}
use go_task_flow.Prelude.{
  ℕ, ◌+◌, ◌≤◌, String, ◌≡◌, refl, ap, Bool, true, false, Option, none, some, List, [], ◌∷◌, arith,
  if◌then◌else◌, length,
}
use go_task_flow.Domain.{failed}
use go_task_flow.Scheduler.{
  pending_topic, leader_key, leader_ttl, leader_ttl_ms, renewed, elected,
  acquire_or_renew_leadership, load_due_jobs, run_job, run_jobs, process_due_jobs, tick, led,
  processed,
}
use go_task_flow.Scheduler.Jobs.{pending_count, run_job-JobRun, JobRun, unsent, stuck, moved}

abbrev row_count : History → ℕ
row_count h = length (statements h)

-- Between two states: at most n tasks were sent, and no more rows were moved on than tasks sent.
pub record Progressed (n : ℕ) (h g : History) : Type 0 where
  pub bounded : pending_count g ≤ pending_count h + n
  pub grows : pending_count h ≤ pending_count g
  pub behind : row_count g + pending_count h ≤ pending_count g + row_count h

-- How a tick ends: as a follower, as a leader that cannot read the jobs, or as the leader that
-- runs them.
pub data Ticked (env : Env) (instance_id : String) (h g : History) : Type 0 where
  follows :
      (acquire_or_renew_leadership env instance_id h).0 ≡ false
      → g ≡ (acquire_or_renew_leadership env instance_id h).1
      → Progressed 0 h g
      → Ticked env instance_id h g
  blind :
      (e : Error)
      → (acquire_or_renew_leadership env instance_id h).0 ≡ true
      → (load_due_jobs env (acquire_or_renew_leadership env instance_id h).1).0 ≡ err e
      → Progressed 0 h g
      → Ticked env instance_id h g
  leads :
      (jobs : List ScheduledJob)
      → (acquire_or_renew_leadership env instance_id h).0 ≡ true
      → (load_due_jobs env (acquire_or_renew_leadership env instance_id h).1).0 ≡ ok jobs
      → Progressed (length jobs) h g
      → Ticked env instance_id h g

module _ (env : Env) where
  job-Progressed : (job : ScheduledJob) (h : History) → Progressed 1 h (run_job env job h).1
  job-Progressed job h = of_run (run_job-JobRun env job h)
    where
      of_run : {r : Option Error × History} → JobRun env job h r → Progressed 1 h r.1
      of_run (unsent same rows bad) = record {
        bounded = omega (arith, same);
        grows = omega (arith, same);
        behind = omega (arith, same, ap length rows);
      }
      of_run (stuck e bad one rows failed) = record {
        bounded = omega (arith, one);
        grows = omega (arith, one);
        behind = omega (arith, one, ap length rows);
      }
      of_run (moved next now good one rows) = record {
        bounded = omega (arith, one);
        grows = omega (arith, one);
        behind = omega (arith, one, ap length rows);
      }

  run_jobs-Progressed :
      (jobs : List ScheduledJob) (h : History) → Progressed (length jobs) h (run_jobs env jobs h).1
  unfolding run_jobs
  run_jobs-Progressed [] h = record {
    bounded = omega arith;
    grows = omega arith;
    behind = omega arith;
  }
  run_jobs-Progressed (job ∷ jobs) h =
      let x = job-Progressed job h in
      let y = run_jobs-Progressed jobs (run_job env job h).1 in
      record {
        bounded = omega (arith, x.bounded, y.bounded);
        grows = omega (arith, x.grows, y.grows);
        behind = omega (arith, x.behind, y.behind);
      }

module _ (env : Env) (instance_id : String) where
  -- The calls of an election are neither tasks nor rows.
  retried-counts :
      (e : Error) (h : History) (b : Bool)
      → let m =
          if b
          then (do
            r ← run_renew_script env leader_key instance_id leader_ttl_ms
            pure (renewed env instance_id r))
          else pure false in
        let g = redis_set_nx leader_key instance_id leader_ttl (some e) ∷ h in
        (messages pending_topic (m g).1 ≡ messages pending_topic h)
        × (statements (m g).1 ≡ statements h)
  unfolding messages statements
  retried-counts e h true = (refl, refl)
  retried-counts e h false = (refl, refl)

  elected-counts :
      (h : History) (ans : Option Error)
      → let g =
          (elected env instance_id ans
            (redis_set_nx leader_key instance_id leader_ttl ans ∷ h)).1 in
        (messages pending_topic g ≡ messages pending_topic h) × (statements g ≡ statements h)
  unfolding elected messages statements
  elected-counts h none = (refl, refl)
  elected-counts h (some e) = retried-counts e h (is_redis_nil e)

  pub acquire-counts :
      (h : History)
      → let g = (acquire_or_renew_leadership env instance_id h).1 in
        (messages pending_topic g ≡ messages pending_topic h) × (statements g ≡ statements h)
  unfolding acquire_or_renew_leadership
  acquire-counts h = elected-counts h _

  acquire-Progressed :
      (h : History) {n : ℕ} {k : History}
      → let g = (acquire_or_renew_leadership env instance_id h).1 in
        Progressed n g k → Progressed n h k
  acquire-Progressed h x =
      let (sent, rows) = acquire-counts h in
      record {
        bounded = omega (arith, x.bounded, ap length sent);
        grows = omega (arith, x.grows, ap length sent);
        behind = omega (arith, x.behind, ap length sent, ap length rows);
      }

  -- What the leader does with the answer of the query, at the state behind the query.
  processed-Ticked :
      (r : Result (List ScheduledJob)) (h : History)
      → let g = (acquire_or_renew_leadership env instance_id h).1 in
        (acquire_or_renew_leadership env instance_id h).0 ≡ true
        → (load_due_jobs env g).0 ≡ r
        → Ticked env instance_id h (processed env r (load_due_jobs env g).1).1
  unfolding processed load_due_jobs messages statements
  processed-Ticked (err e) h won bad = blind e won bad (
      acquire-Progressed h
        (record { bounded = omega arith; grows = omega arith; behind = omega arith }))
  processed-Ticked (ok jobs) h won good =
      let g = (acquire_or_renew_leadership env instance_id h).1 in
      let x = run_jobs-Progressed env jobs (sql_query "scheduled_jobs" ∷ g) in
      leads jobs won good
        (acquire-Progressed h (record { bounded = x.bounded; grows = x.grows; behind = x.behind }))

  led-Ticked :
      (b : Bool) (h : History)
      → (acquire_or_renew_leadership env instance_id h).0 ≡ b
      → Ticked env instance_id h
          (led env instance_id b (acquire_or_renew_leadership env instance_id h).1).1
  unfolding led process_due_jobs
  led-Ticked false h lost = follows lost refl (
      acquire-Progressed h
        (record { bounded = omega arith; grows = omega arith; behind = omega arith }))
  led-Ticked true h won = processed-Ticked _ h won refl

  -- A tick of an instance that is not the leader makes no call but those of the election. The
  -- leader sends at most one task for each job that is due, none if the jobs cannot be read, and
  -- moves on no more rows than it sent tasks.
  pub tick-Ticked : (h : History) → Ticked env instance_id h (tick env instance_id h).1
  unfolding tick
  tick-Ticked h = led-Ticked _ h refl
