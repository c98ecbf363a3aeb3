-- ===== src/Worker/Final.antt =====
-- finishSuccess and finishFailure of services/worker/worker.go: the state, the rows and the
-- message.
use go_task_flow.Prelude.Int.{ℤ}
use go_task_flow.StateStore.Effects.{statements-set_task_meta}
use go_task_flow.Prelude.{ℕ, String, ◌≡◌, Option, none, some, List, ◌∷◌, arith, refl}
use go_task_flow.Prelude.Texts.{str_eq_refl}
use go_task_flow.Domain.{Status, Task, TaskExecution, is_terminal, done, dead}
use go_task_flow.Domain.Errors.{Error}
use go_task_flow.World.{Env, History, Outgoing, update_status, insert_execution, clock_read}
use go_task_flow.World.Views.{sets, sent, runs, successes, ups, downs, statements}
use go_task_flow.StateStore.{state_key, set_status, set_task_meta}
use go_task_flow.StateStore.RoundTrip.{state_key-other-meta_key}
use go_task_flow.Producer.{publish}
use go_task_flow.Repository.{record_execution, set_row_status}
use go_task_flow.Worker.{Worker, topic_dlq, finish, mark_done, mark_dead}

abbrev pub final_status : Option Error → Status
final_status none = done
final_status (some e) = dead

-- The message that a task which ends with an error leaves on the dead-letter topic.
abbrev pub dead_letter : Task → String → Outgoing
dead_letter task raw = record { topic = topic_dlq; key = task.id; value = raw }

abbrev pub dead_letters : Option Error → Task → String → List Outgoing → List Outgoing
dead_letters none task raw l = l
dead_letters (some e) task raw l = dead_letter task raw ∷ l

module _ (env : Env) (w : Worker) (task : Task) where
  pub record Finished (e : Option Error) (raw : String) (h h' : History) : Type 0 where
    pub states : sets (state_key task.id) h' ≡ final_status e ∷ sets (state_key task.id) h
    pub ran : runs h' ≡ runs h
    pub letters : sent topic_dlq h' ≡ dead_letters e task raw (sent topic_dlq h)
    pub same_successes : (id : String) → successes id h' ≡ successes id h
    pub same_ups : ups h' ≡ ups h
    pub same_downs : downs h' ≡ downs h

  pub finish-Finished :
      (e : Option Error) (d : ℕ) (raw : String) (h : History)
      → Finished e raw h (finish env w task e d raw h).1
  unfolding finish set_status set_task_meta record_execution set_row_status publish sets sent runs
      successes ups downs is_terminal
  finish-Finished none d raw h = record {
    states =
        ground (arith, str_eq_refl (state_key task.id), state_key-other-meta_key task.id task.id);
    ran = ground arith;
    letters = ground arith;
    same_successes = λ id. ground arith;
    same_ups = ground arith;
    same_downs = ground arith;
  }
  finish-Finished (some e) d raw h = record {
    states =
        ground (arith, str_eq_refl (state_key task.id), state_key-other-meta_key task.id task.id);
    ran = ground arith;
    letters = ground arith;
    same_successes = λ id. ground arith;
    same_ups = ground arith;
    same_downs = ground arith;
  }

  -- The rows of a finished task, for some times and some identifier of the row.
  pub record Rows (e : Option Error) (n : ℤ) (h h' : History) : Type 0 where
    pub row : TaskExecution
    pub now : ℕ
    pub written :
        statements h'
        ≡ update_status task.id (final_status e) now (some now)
          ∷ insert_execution row
          ∷ statements h
    pub row_task : row.task_id ≡ task.id
    pub row_worker : row.worker_id ≡ w.worker_id
    pub row_attempt : row.attempt ≡ n
    pub row_status : row.status ≡ final_status e

  Rows-before :
      {e : Option Error} {n : ℤ} {g h' : History} (h : History)
      → statements g ≡ statements h
      → Rows e n g h'
      → Rows e n h h'
  Rows-before h same r = record {
    row = r.row;
    now = r.now;
    written = ground (arith, r.written);
    row_task = r.row_task;
    row_worker = r.row_worker;
    row_attempt = r.row_attempt;
    row_status = r.row_status;
  }

  pub finish-Rows :
      (e : Option Error) (d : ℕ) (raw : String) (h : History)
      → Rows e task.attempts h (finish env w task e d raw h).1
  unfolding finish set_status record_execution set_row_status publish statements is_terminal
  finish-Rows none d raw h =
      Rows-before
        {g = (set_task_meta env (mark_done task (env.now h))
          (set_status env task.id done (clock_read (env.now h) ∷ h)).1).1}
        h
        (statements-set_task_meta env (mark_done task (env.now h))
          (set_status env task.id done (clock_read (env.now h) ∷ h)).1)
        (record {
          row = _;
          now = _;
          written = refl;
          row_task = refl;
          row_worker = refl;
          row_attempt = refl;
          row_status = refl;
        })
  finish-Rows (some e) d raw h =
      Rows-before
        {g = (set_task_meta env (mark_dead task (env.now h))
          (set_status env task.id dead (clock_read (env.now h) ∷ h)).1).1}
        h
        (statements-set_task_meta env (mark_dead task (env.now h))
          (set_status env task.id dead (clock_read (env.now h) ∷ h)).1)
        (record {
          row = _;
          now = _;
          written = refl;
          row_task = refl;
          row_worker = refl;
          row_attempt = refl;
          row_status = refl;
        })
