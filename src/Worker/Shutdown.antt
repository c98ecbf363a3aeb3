-- ===== src/Worker/Shutdown.antt =====
-- A worker whose consumer context is cancelled while a task waits for its next attempt.
use go_task_flow.Prelude.Int.{pos}
use go_task_flow.Worker.Retries.{retry-Executed}
use go_task_flow.Worker.Lifecycle.{begun, started}
use go_task_flow.Registry.{Handler}
use go_task_flow.Domain.Errors.{Error, Result, err, ok}
use go_task_flow.World.Views.{value, messages, acknowledged, IsQuiet}
use go_task_flow.Worker.{
  finish_failure, Worker, execute, finish, run_task, counted, in_flight_down, mark_dead,
}
use go_task_flow.StateStore.{set_status, set_task_meta, write_meta}
use go_task_flow.World.{
  History, Outgoing, Statement, Event, Env, Metric, clock_read, redis_set, sql_exec, kafka_write,
  uuid_made,
}
use go_task_flow.Prelude.{ℕ, String, ◌≡◌, true, some, ◌∷◌, refl, none, ◌∙◌}
use go_task_flow.Repository.{set_row_status, record_execution}
use go_task_flow.Domain.{is_terminal, Task, failed}
use go_task_flow.Producer.{publish}

-- What a cancelled context does: it stays cancelled, and each call that is given it fails.
pub record CancelStops (env : Env) : Type 0 where
  pub stays : (h : History) (e : Event) → env.cancelled h ≡ true → env.cancelled (e ∷ h) ≡ true
  pub set_fails :
      (h : History) (k v : String) (ttl : ℕ)
      → env.cancelled h ≡ true
      → env.set_answer h k v ttl ≡ some (env.ctx_error h)
  pub exec_fails :
      (h : History) (s : Statement)
      → env.cancelled h ≡ true
      → env.exec_answer h s ≡ some (env.ctx_error h)
  pub write_fails :
      (h : History) (m : Outgoing)
      → env.cancelled h ≡ true
      → env.write_answer h m ≡ some (env.ctx_error h)

-- From h to h', under a cancelled context, nothing is acknowledged.
pub record IsLost (env : Env) (h h' : History) : Type 0 where
  pub still_cancelled : env.cancelled h' ≡ true
  pub values : (k : String) → value k h' ≡ value k h
  pub topics : (t : String) → messages t h' ≡ messages t h
  pub rows : acknowledged h' ≡ acknowledged h

module _ (env : Env) (stops : CancelStops env) {h : History} where
  IsLost-refl : env.cancelled h ≡ true → IsLost env h h
  IsLost-refl c = record {
    still_cancelled = c;
    values = λ k. refl;
    topics = λ t. refl;
    rows = refl;
  }

  IsLost-set :
      {h' : History} (k v : String) (ttl : ℕ)
      → IsLost env h h'
      → IsLost env h (redis_set k v ttl (env.set_answer h' k v ttl) ∷ h')
  unfolding value messages acknowledged
  IsLost-set {h'} k v ttl l = record {
    still_cancelled = stops.stays h' _ l.still_cancelled;
    values = λ j. rw (stops.set_fails h' k v ttl l.still_cancelled) (l.values j);
    topics = l.topics;
    rows = l.rows;
  }

  IsLost-write :
      {h' : History} (m : Outgoing)
      → IsLost env h h'
      → IsLost env h (kafka_write m (env.write_answer h' m) ∷ h')
  unfolding value messages acknowledged
  IsLost-write {h'} m l = record {
    still_cancelled = stops.stays h' _ l.still_cancelled;
    values = l.values;
    topics = λ t. rw (stops.write_fails h' m l.still_cancelled) (l.topics t);
    rows = l.rows;
  }

  IsLost-exec :
      {h' : History} (s : Statement)
      → IsLost env h h'
      → IsLost env h (sql_exec s (env.exec_answer h' s) ∷ h')
  unfolding value messages acknowledged
  IsLost-exec {h'} s l = record {
    still_cancelled = stops.stays h' _ l.still_cancelled;
    values = l.values;
    topics = l.topics;
    rows = rw (stops.exec_fails h' s l.still_cancelled) l.rows;
  }

  IsLost-clock : {h' : History} (t : ℕ) → IsLost env h h' → IsLost env h (clock_read t ∷ h')
  unfolding value messages acknowledged
  IsLost-clock {h'} t l = record {
    still_cancelled = stops.stays h' _ l.still_cancelled;
    values = l.values;
    topics = l.topics;
    rows = l.rows;
  }

  IsLost-uuid : {h' : History} (u : String) → IsLost env h h' → IsLost env h (uuid_made u ∷ h')
  unfolding value messages acknowledged
  IsLost-uuid {h'} u l = record {
    still_cancelled = stops.stays h' _ l.still_cancelled;
    values = l.values;
    topics = l.topics;
    rows = l.rows;
  }

  IsLost-counted : {h' : History} (m : Metric) → IsLost env h h' → IsLost env h (counted m ∷ h')
  unfolding value messages acknowledged
  IsLost-counted {h'} m l = record {
    still_cancelled = stops.stays h' _ l.still_cancelled;
    values = l.values;
    topics = l.topics;
    rows = l.rows;
  }

  IsLost-down : {h' : History} → IsLost env h h' → IsLost env h (in_flight_down ∷ h')
  unfolding value messages acknowledged
  IsLost-down {h'} l = record {
    still_cancelled = stops.stays h' _ l.still_cancelled;
    values = l.values;
    topics = l.topics;
    rows = l.rows;
  }

module _ (env : Env) (stops : CancelStops env) where
  write_meta-IsLost :
      (task : Task) (r : Result String) (h h' : History)
      → IsLost env h h'
      → IsLost env h (write_meta env task r h').1
  unfolding write_meta
  write_meta-IsLost task (err e) h h' l = l
  write_meta-IsLost task (ok bytes) h h' l = IsLost-set env stops _ _ _ l

module _ (env : Env) (w : Worker) (task : Task) (stops : CancelStops env) where
  finish_failure-IsLost :
      (e : Error) (d : ℕ) (raw : String) (h h' : History)
      → IsLost env h h'
      → IsLost env h (finish_failure env w task e d raw h').1
  unfolding finish_failure set_status set_task_meta record_execution set_row_status publish
      is_terminal
  finish_failure-IsLost e d raw h h' l = IsLost-counted env stops _ (
      IsLost-counted env stops _ (
        IsLost-write env stops _ (
          IsLost-exec env stops _ (
            IsLost-clock env stops _ (
              IsLost-exec env stops _ (
                IsLost-uuid env stops _ (
                  write_meta-IsLost env stops (mark_dead task (env.now h'))
                    (env.encode (mark_dead task (env.now h'))) h _
                    (IsLost-set env stops _ _ _ (IsLost-clock env stops (env.now h') l)))))))))

-- When the consumer's context is cancelled by the time that the retries have ended with an error
-- (a shutdown during the wait for the next attempt), the message is acknowledged all the same,
-- although no Kafka topic has gained a message since it came, and, since the retries ended, no
-- Redis key and no row of PostgreSQL has changed: neither DEAD nor a dead letter says what became
-- of the task. Calls with a cancelled context fail, and the handler's own calls show in none of
-- the queue's views.
pub shutdown_loses_task :
    (env : Env) (w : Worker) (handler : Handler) (task : Task) (raw : String) (h : History)
    (e : Error)
    → CancelStops env
    → ((t : Task) → IsQuiet (handler.handle t))
    → (execute env w handler task (begun env (started task h))).0.0 ≡ some e
    → env.cancelled (execute env w handler task (begun env (started task h))).1 ≡ true
    → let r = run_task env w handler task raw (started task h) in
      (r.0 ≡ none)
      × IsLost env (execute env w handler task (begun env (started task h))).1 r.1
      × ((t : String) → messages t r.1 ≡ messages t h)
unfolding run_task finish messages
shutdown_loses_task env w handler task raw h e stops quiet failed c =
    let o = execute env w handler task (begun env (started task h)) in
    let lost : IsLost env o.1 (run_task env w handler task raw (started task h)).1 = rw failed (
      IsLost-down env stops (
        finish_failure-IsLost env w (record task { attempts = pos o.0.1 }) stops e _ raw _ _
          (IsLost-clock env stops _ (IsLost-refl env stops c)))) in
    let (n, j, x) = retry-Executed env w handler task quiet (begun env (started task h)) in
    (refl, lost, λ t. lost.topics t ∙ before t)
  where
    before :
        (t : String)
        → messages t (execute env w handler task (begun env (started task h))).1 ≡ messages t h
    before t =
        (retry-Executed env w handler task quiet (begun env (started task h))).2.same_messages t
