-- ===== src/Worker/Delivery.antt =====
-- At-least-once delivery seen from the worker: what an error result means, what a second delivery
-- of a finished task does, and what becomes of a task whose type has no handler.
use go_task_flow.Prelude.Int.{pos}
use go_task_flow.Worker.Final.{final_status, dead_letter}
use go_task_flow.Worker.Lifecycle.{started, process-run_task, begun}
use go_task_flow.StateStore.RoundTrip.{state_key-other-meta_key}
use go_task_flow.Prelude.Texts.{str_eq_refl}
use go_task_flow.Repository.{set_row_status, record_execution}
use go_task_flow.Domain.Errors.{err, Error, ok, wrap, wrap_err, Result, Result-cases}
use go_task_flow.World.Views.{value, sets, sent, statements, runs}
use go_task_flow.Worker.{
  run_task, unless_terminal, process_message, Worker, finish, start_task, with_handler, on_decoded,
  execute, topic_dlq,
}
use go_task_flow.Registry.{Handler, get}
use go_task_flow.StateStore.{state_ttl, state_key, set_status, get_status, set_task_meta}
use go_task_flow.World.{History, Env, redis_set, redis_get, pure, clock_read}
use go_task_flow.Prelude.{
  ◌∙◌, ℕ, String, ◌<>◌, ◌≡◌, refl, Option, none, some, ◌∷◌, Bool, true, false, arith, if◌then◌else◌,
  inl, inr,
}
use go_task_flow.Domain.{running, Task, Status, done, dead, is_terminal}
use go_task_flow.Producer.{publish}

-- GET answers the value of the newest acknowledged SET, and every SET is acknowledged: Redis as
-- documented, with no other writer, within the 24 hours of the keys' life.
pub record IsFaithful (env : Env) : Type 0 where
  pub reads : (h : History) (k v : String) → value k h ≡ some v → env.get_answer h k ≡ ok v
  pub acks : (h : History) (k v : String) (ttl : ℕ) → env.set_answer h k v ttl ≡ none

module _ (env : Env) (w : Worker) (raw : String) where
  run_task-nil :
      (handler : Handler) (task : Task) (h : History) → (run_task env w handler task raw h).0 ≡ none
  unfolding run_task
  run_task-nil handler task h = refl

  -- What an error result stands for.
  pub record NotStarted (e : Error) (h : History) (r : Option Error × History) : Type 0 where
    pub task : Task
    pub reason : Error
    pub decoded : env.decode raw ≡ some task
    pub only_calls :
        r.1
        ≡ redis_set (state_key task.id) running state_ttl (some reason)
          ∷ redis_get (state_key task.id)
          ∷ h
    pub wrapped : e ≡ wrap "set running status" (wrap ("redis set status for " <> task.id) reason)

  start-NotStarted :
      (task : Task) (handler : Handler) (a : Option Error) (h : History) (e : Error)
      → env.decode raw ≡ some task
      → let h' =
          redis_set (state_key task.id) running state_ttl a ∷ redis_get (state_key task.id) ∷ h in
        let r =
          start_task env w handler task raw (wrap_err ("redis set status for " <> task.id) a) h' in
        r.0 ≡ some e → NotStarted e h r
  unfolding start_task
  start-NotStarted task handler none h e decoded bad = cc (
      run_task-nil handler task
        (redis_set (state_key task.id) running state_ttl none ∷ redis_get (state_key task.id) ∷ h))
  start-NotStarted task handler (some x) h e decoded bad = record {
    task = task;
    reason = x;
    decoded = decoded;
    only_calls = refl;
    wrapped = cc;
  }

  with_handler-NotStarted :
      (task : Task) (found : Result Handler) (h : History) (e : Error)
      → env.decode raw ≡ some task
      → let r = with_handler env w task raw found (redis_get (state_key task.id) ∷ h) in
        r.0 ≡ some e → NotStarted e h r
  unfolding with_handler set_status publish
  with_handler-NotStarted task (ok handler) h e decoded bad =
      start-NotStarted task handler _ h e decoded bad
  with_handler-NotStarted task (err x) h e decoded bad = cc

  skip-NotStarted :
      (task : Task) (terminal : Bool) (h : History) (e : Error)
      → env.decode raw ≡ some task
      → let r =
          (if terminal then pure none else with_handler env w task raw (get w.registry task.type))
            (redis_get (state_key task.id) ∷ h) in
        r.0 ≡ some e → NotStarted e h r
  skip-NotStarted task true h e decoded bad = cc
  skip-NotStarted task false h e decoded bad =
      with_handler-NotStarted task (get w.registry task.type) h e decoded bad

  unless_terminal-NotStarted :
      (task : Task) (s : Result Status) (h : History) (e : Error)
      → env.decode raw ≡ some task
      → let r = unless_terminal env w task raw s (redis_get (state_key task.id) ∷ h) in
        r.0 ≡ some e → NotStarted e h r
  unfolding unless_terminal
  unless_terminal-NotStarted task (ok s) h e decoded bad =
      skip-NotStarted task (is_terminal s) h e decoded bad
  unless_terminal-NotStarted task (err x) h e decoded bad =
      with_handler-NotStarted task (get w.registry task.type) h e decoded bad

  on_decoded-NotStarted :
      (d : Option Task) (h : History) (e : Error)
      → env.decode raw ≡ d
      → (on_decoded env w raw d h).0 ≡ some e
      → NotStarted e h (on_decoded env w raw d h)
  unfolding on_decoded get_status
  on_decoded-NotStarted none h e decoded bad = cc
  on_decoded-NotStarted (some task) h e decoded bad =
      unless_terminal-NotStarted task (get_status env task.id h).0 h e decoded bad

  -- An error result, which leaves the offset uncommitted, comes only from a bad write of
  -- RUNNING, and then the read and that write are all that happened: no handler ran, nothing was
  -- published and no row was written.
  pub process-error :
      (h : History) (e : Error)
      → (process_message env w raw h).0 ≡ some e
      → NotStarted e h (process_message env w raw h)
  unfolding process_message
  process-error h e bad = on_decoded-NotStarted (env.decode raw) h e refl bad

-- The value of a task's state after its last write is acknowledged.
module _ (env : Env) (w : Worker) (task : Task) (faithful : IsFaithful env) where
  pub value-finish :
      (e : Option Error) (d : ℕ) (raw : String) (h : History)
      → value (state_key task.id) (finish env w task e d raw h).1 ≡ some (final_status e)
  unfolding finish set_status set_task_meta record_execution set_row_status publish value
      is_terminal
  value-finish none d raw h = ground (
    arith,
    str_eq_refl (state_key task.id),
    state_key-other-meta_key task.id task.id,
    faithful.acks (clock_read (env.now h) ∷ h) (state_key task.id) done state_ttl,
  )
  value-finish (some e) d raw h = ground (
    arith,
    str_eq_refl (state_key task.id),
    state_key-other-meta_key task.id task.id,
    faithful.acks (clock_read (env.now h) ∷ h) (state_key task.id) dead state_ttl,
  )

is_terminal-final_status : (e : Option Error) → is_terminal (final_status e) ≡ true
unfolding is_terminal
is_terminal-final_status none = refl
is_terminal-final_status (some e) = refl

-- With a terminal state to be read, a message does nothing but read it.
skips_terminal :
    (env : Env) (w : Worker) (raw : String) (task : Task) (h : History) (s : Status)
    → env.decode raw ≡ some task
    → env.get_answer h (state_key task.id) ≡ ok s
    → is_terminal s ≡ true
    → process_message env w raw h ≡ (none, redis_get (state_key task.id) ∷ h)
unfolding process_message get_status
skips_terminal env w raw task h s decoded answer terminal = ground arith

module _ (env : Env) (w : Worker) (handler : Handler) (task : Task) (raw : String)
    (faithful : IsFaithful env) where
  value-run_task :
      (h : History)
      → (e : Option Error) × (value (state_key task.id) (run_task env w handler task raw h).1
          ≡ some (final_status e))
  unfolding run_task value
  value-run_task h =
      let o = execute env w handler task (begun env h) in
      (o.0.0, value-finish env w (record task { attempts = pos o.0.1 }) faithful o.0.0 _ raw _)

  value-process :
      (h : History)
      → env.decode raw ≡ some task
      → get w.registry task.type ≡ ok handler
      → ((s : Status) → env.get_answer h (state_key task.id) ≡ ok s → is_terminal s ≡ false)
      → (e : Option Error) × (value (state_key task.id) (process_message env w raw h).1
          ≡ some (final_status e))
  value-process h decoded found live =
      rw (process-run_task env w handler task raw h decoded found live (faithful.acks _ _ _ _))
        (value-run_task (started task h))

  -- Once a message has been executed to its end, a later message with the same task id, on any
  -- worker, is acknowledged and does nothing but read the task's state, as long as the state that
  -- Redis holds for the task is the same as then: no second run of a handler, no write, no dead
  -- letter. Redis is faithful, as IsFaithful says.
  pub redelivery_skipped :
      (w' : Worker) (task' : Task) (raw' : String) (h g : History)
      → env.decode raw ≡ some task
      → get w.registry task.type ≡ ok handler
      → ((s : Status) → env.get_answer h (state_key task.id) ≡ ok s → is_terminal s ≡ false)
      → env.decode raw' ≡ some task'
      → task'.id ≡ task.id
      → value (state_key task.id) g ≡ value (state_key task.id) (process_message env w raw h).1
      → process_message env w' raw' g ≡ (none, redis_get (state_key task'.id) ∷ g)
  redelivery_skipped w' task' raw' h g decoded found live decoded' same kept =
      let (e, final) = value-process h decoded found live in
      skips_terminal env w' raw' task' g (final_status e) decoded'
        (rw same (faithful.reads _ _ _ (kept ∙ final))) (is_terminal-final_status e)

-- A message whose type has no handler, and whose task is not known to be finished, is
-- acknowledged: the task's state is written DEAD once and the message is sent to the dead-letter
-- topic once, under the task's id; no handler runs and no row of PostgreSQL is written, so that
-- the task's row keeps the state that it had.
pub unknown_type :
    (env : Env) (w : Worker) (raw : String) (task : Task) (h : History) (e : Error)
    → env.decode raw ≡ some task
    → get w.registry task.type ≡ err e
    → ((s : Status) → env.get_answer h (state_key task.id) ≡ ok s → is_terminal s ≡ false)
    → let r = process_message env w raw h in
      (r.0 ≡ none)
      × (sets (state_key task.id) r.1 ≡ dead ∷ sets (state_key task.id) h)
      × (sent topic_dlq r.1 ≡ dead_letter task raw ∷ sent topic_dlq h)
      × (runs r.1 ≡ runs h)
      × (statements r.1 ≡ statements h)
unfolding process_message get_status set_status publish sets sent runs statements
unknown_type env w raw task h e decoded found live =
    elim (Result-cases (env.get_answer h (state_key task.id))) [
      | inl (s, a) ↦ ground (arith, live s a, str_eq_refl (state_key task.id))
      | inr (x, a) ↦ ground (arith, str_eq_refl (state_key task.id))
    ]
