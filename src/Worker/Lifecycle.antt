-- ===== src/Worker/Lifecycle.antt =====
-- What one message does to its task: the states that it goes through, the runs of its handler, the
-- rows that are written and the dead letter.
use go_task_flow.Prelude.Int.{pos}
use go_task_flow.Worker.Final.{
  final_status, dead_letters, Rows, Finished, finish-Finished, finish-Rows,
}
use go_task_flow.Worker.Retries.{wins, Ending, most_attempts, retry-Executed, Executed}
use go_task_flow.Registry.{Handler, get}
use go_task_flow.Prelude.{
  ap, ℕ, String, ◌≡◌, Option, none, some, ◌∷◌, arith, refl, suc, ◌+◌, ◌≤◌, ◌<◌, ◌++◌, replicate,
  ◌∙◌, false, inl, inr,
}
use go_task_flow.Prelude.Texts.{str_eq_refl}
use go_task_flow.Domain.{Status, Task, is_terminal, running, retrying}
use go_task_flow.Domain.Errors.{Error, ok, Result-cases}
use go_task_flow.World.{Env, History, clock_read, redis_set, redis_get}
use go_task_flow.World.Views.{sets, sent, runs, successes, ups, downs, statements, IsQuiet}
use go_task_flow.StateStore.{state_key, set_status, state_ttl, get_status}
use go_task_flow.Worker.{
  Worker, topic_dlq, finish, execute, run_task, in_flight_up, Attempts, process_message,
  in_flight_down,
}

-- The history in which the in-flight window has begun.
abbrev pub begun : Env → History → History
begun env h = clock_read (env.now (in_flight_up ∷ h)) ∷ in_flight_up ∷ h

-- The history after GET has answered and RUNNING is acknowledged.
abbrev pub started : Task → History → History
started task h =
    redis_set (state_key task.id) running state_ttl none ∷ redis_get (state_key task.id) ∷ h

-- How the retries of a task end, and after how many runs of its handler.
abbrev pub outcome : Env → Worker → Handler → Task → History → Option Error × ℕ
outcome env w handler task h = (execute env w handler task (begun env (started task h))).0

-- What a message that is executed does, from the history h to the history h', when the retries end
-- with the error e after n runs of the handler and j waits.
pub record Processed (env : Env) (w : Worker) (task : Task) (raw : String) (e : Option Error)
    (n j : ℕ) (h h' : History) : Type 0 where
  pub ending : Ending (most_attempts w) n j e
  pub some_attempt : 0 < n
  pub attempts_bound : n ≤ most_attempts w
  pub ran : runs h' ≡ runs h + n
  pub won : successes task.id h' ≡ wins e (successes task.id h)
  pub states :
      sets (state_key task.id) h'
      ≡ final_status e ∷ (replicate j retrying ++ running ∷ sets (state_key task.id) h)
  pub letters : sent topic_dlq h' ≡ dead_letters e task raw (sent topic_dlq h)
  pub rows : Rows env w task e (pos n) h h'
  pub one_up : ups h' ≡ suc (ups h)
  pub one_down : downs h' ≡ suc (downs h)

module _ (env : Env) (w : Worker) (handler : Handler) (task : Task) (raw : String) where
  pub process-run_task :
      (h : History)
      → env.decode raw ≡ some task
      → get w.registry task.type ≡ ok handler
      → ((s : Status) → env.get_answer h (state_key task.id) ≡ ok s → is_terminal s ≡ false)
      → env.set_answer (redis_get (state_key task.id) ∷ h) (state_key task.id) running state_ttl
        ≡ none
      → process_message env w raw h ≡ run_task env w handler task raw (started task h)
  unfolding process_message get_status set_status
  process-run_task h decoded found live acked =
      elim (Result-cases (env.get_answer h (state_key task.id))) [
        | inl (s, e) ↦ ground (arith, live s e)
        | inr (x, e) ↦ ground arith
      ]

module _ (env : Env) (w : Worker) (handler : Handler) (task : Task) (raw : String)
    (quiet : (t : Task) → IsQuiet (handler.handle t)) where
  finish-Processed :
      (h : History) (n j d t : ℕ) (r : Option Error × Attempts)
      → Executed env w handler task quiet n j (begun env (started task h)) r
      → Processed env w task raw r.0 n j h (
          in_flight_down
          ∷ (finish env w
              (record task { attempts = pos r.1.0 })
              r.0
              d
              raw
              (clock_read t ∷ r.1.1)).1)
  unfolding runs successes sets sent statements ups downs
  finish-Processed h n j d t r x = record {
    ending = x.ending;
    some_attempt = x.some_attempt;
    attempts_bound = x.attempts_bound;
    ran = ground (arith, f.ran, x.ran);
    won = f.same_successes task.id ∙ x.won;
    states = ground (arith, f.states, x.states, str_eq_refl (state_key task.id));
    letters = ground (arith, f.letters, x.same_sent topic_dlq);
    rows = record {
      row = g.row;
      now = g.now;
      written = ground (arith, g.written, x.same_statements);
      row_task = g.row_task;
      row_worker = g.row_worker;
      row_attempt = g.row_attempt ∙ ap pos x.attempts;
      row_status = g.row_status;
    };
    one_up = ground (arith, f.same_ups, x.same_ups);
    one_down = ground (arith, f.same_downs, x.same_downs);
  }
    where
      task' : Task
      task' = record task { attempts = pos r.1.0 }

      f :
          Finished env w task' r.0 raw
            (clock_read t ∷ r.1.1)
            (finish env w task' r.0 d raw (clock_read t ∷ r.1.1)).1
      f = finish-Finished env w task' r.0 d raw (clock_read t ∷ r.1.1)

      g :
          Rows env w task' r.0
            (pos r.1.0)
            (clock_read t ∷ r.1.1)
            (finish env w task' r.0 d raw (clock_read t ∷ r.1.1)).1
      g = finish-Rows env w task' r.0 d raw (clock_read t ∷ r.1.1)

  pub run_task-Processed :
      (h : History)
      → (n : ℕ) × (j : ℕ) × Processed env w task raw
          (outcome env w handler task h).0
          n
          j
          h
          (run_task env w handler task raw (started task h)).1
  unfolding run_task execute
  run_task-Processed h =
      let (n, j, x) = retry-Executed env w handler task quiet (begun env (started task h)) in
      (n, j, finish-Processed h n j _ _ _ x)

  pub process-Processed :
      (h : History)
      → env.decode raw ≡ some task
      → get w.registry task.type ≡ ok handler
      → ((s : Status) → env.get_answer h (state_key task.id) ≡ ok s → is_terminal s ≡ false)
      → env.set_answer (redis_get (state_key task.id) ∷ h) (state_key task.id) running state_ttl
        ≡ none
      → ((process_message env w raw h).0 ≡ none)
        × ((e : Option Error) × (n : ℕ) × (j : ℕ) × Processed env w task raw e n j h
              (process_message env w raw h).1)
  process-Processed h decoded found live acked =
      rw (process-run_task env w handler task raw h decoded found live acked)
        (let (n, j, x) = run_task-Processed h in (unfold run_task in refl, (_, n, j, x)))
