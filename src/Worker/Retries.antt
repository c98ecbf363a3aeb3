-- ===== src/Worker/Retries.antt =====
-- What the retries of one task leave in the history: one run of the handler for each attempt, one
-- RETRYING for each failed attempt that is wait_after for, and nothing else that a view shows.
use go_task_flow.Prelude.{
  ℕ, suc, ◌+◌, ◌<◌, ◌≤◌, String, ◌≡◌, refl, Option, none, some, ◌++◌, replicate, arith, str_eq, ap,
  ◌∙◌, false,
}
use go_task_flow.Prelude.Texts.{str_eq_refl}
use go_task_flow.Domain.{Task, retrying}
use go_task_flow.Domain.Errors.{Error}
use go_task_flow.World.{Env, History}
use go_task_flow.World.Views.{
  value, sets, messages, sent, statements, runs, ups, downs, IsQuiet, successes,
}
use go_task_flow.StateStore.{state_key, set_status}
use go_task_flow.Registry.{Handler}
use go_task_flow.Prelude.Int.{add_one}
use go_task_flow.Retry.{attempts_of, retry}
use go_task_flow.Retry.Outcome.{
  Retrying, start, again, Outcome, succeeded, exhausted, cancelled, wait_after, retry-Outcome,
}
use go_task_flow.Worker.{Worker, Attempts, attempt_once, retry_config}

-- How the retries end, of at most `most` attempts, after n runs of the handler and j writes of
-- RETRYING.
pub data Ending (most n j : ℕ) (r : Option Error) : Type 0 where
  success : r ≡ none → j + 1 ≡ n → Ending most n j r
  exhaustion : (e : Error) → r ≡ some e → j + 1 ≡ n → n ≡ most → Ending most n j r
  cancellation : (e : Error) → r ≡ some e → j ≡ n → n < most → Ending most n j r

-- The successful runs of a handler on a task, when its retries end with e: one more for nil, and
-- none for an error.
abbrev pub wins : Option Error → ℕ → ℕ
wins none n = suc n
wins (some e) n = n

abbrev pub most_attempts : Worker → ℕ
most_attempts w = attempts_of (add_one w.max_retries)

module _ (env : Env) (w : Worker) (handler : Handler) (task : Task)
    (quiet : (t : Task) → IsQuiet (handler.handle t)) where
  abbrev key : String
  key = state_key task.id

  -- What the attempts and their waits add, after k failed attempts from h.
  pub record After (k : ℕ) (h : History) (s : Attempts) : Type 0 where
    pub counted : s.0 ≡ k
    pub same_successes : successes task.id s.1 ≡ successes task.id h
    pub states : sets key s.1 ≡ replicate k retrying ++ sets key h
    pub ran : runs s.1 ≡ runs h + k
    pub same_values : (k : String) → str_eq key k ≡ false → value k s.1 ≡ value k h
    pub same_messages : (t : String) → messages t s.1 ≡ messages t h
    pub same_sent : (t : String) → sent t s.1 ≡ sent t h
    pub same_statements : statements s.1 ≡ statements h
    pub same_ups : ups s.1 ≡ ups h
    pub same_downs : downs s.1 ≡ downs h

  attempt-After :
      (k : ℕ) (h : History) (s : Attempts) (e : Error)
      → (attempt_once env w handler task s).0 ≡ some e
      → After k h s
      → After
          (suc k)
          h
          (wait_after (retry_config env w task) (attempt_once env w handler task) k e s).1
  unfolding attempt_once retry_config set_status sets runs successes value messages sent statements
      ups downs
  attempt-After k h s e bad a = record {
    same_successes = ground (arith, bad, a.same_successes, (quiet task).successes_same task.id s.1);
    counted = ground arith;
    states = ground (arith, a.states, (quiet task).sets_same key s.1, str_eq_refl key);
    ran = ground (arith, a.ran, (quiet task).runs_same s.1);
    same_values = λ k other. ground (arith, a.same_values k other, (quiet task).value_same k s.1);
    same_messages = λ t. ground (arith, a.same_messages t, (quiet task).messages_same t s.1);
    same_sent = λ t. ground (arith, a.same_sent t, (quiet task).sent_same t s.1);
    same_statements = ground (arith, a.same_statements, (quiet task).statements_same s.1);
    same_ups = ground (arith, a.same_ups, (quiet task).ups_same s.1);
    same_downs = ground (arith, a.same_downs, (quiet task).downs_same s.1);
  }

  start-After : (h : History) → After 0 h (0, h)
  start-After h = record {
    counted = refl;
    same_successes = refl;
    states = refl;
    ran = omega arith;
    same_values = λ k other. refl;
    same_messages = λ t. refl;
    same_sent = λ t. refl;
    same_statements = refl;
    same_ups = refl;
    same_downs = refl;
  }

  pub Retrying-After :
      {h : History} {k : ℕ} {s : Attempts}
      → Retrying (retry_config env w task) (attempt_once env w handler task) (0, h) k s
      → After k h s
  Retrying-After {h} start = start-After h
  Retrying-After {h} (again e r bad fired) = attempt-After _ h _ e bad (Retrying-After r)

  pub record Executed (n j : ℕ) (h : History) (r : Option Error × Attempts) : Type 0 where
    pub ending : Ending (most_attempts w) n j r.0
    pub some_attempt : 0 < n
    pub attempts_bound : n ≤ most_attempts w
    pub attempts : r.1.0 ≡ n
    pub won : successes task.id r.1.1 ≡ wins r.0 (successes task.id h)
    pub states : sets key r.1.1 ≡ replicate j retrying ++ sets key h
    pub ran : runs r.1.1 ≡ runs h + n
    pub same_values : (k : String) → str_eq key k ≡ false → value k r.1.1 ≡ value k h
    pub same_messages : (t : String) → messages t r.1.1 ≡ messages t h
    pub same_sent : (t : String) → sent t r.1.1 ≡ sent t h
    pub same_statements : statements r.1.1 ≡ statements h
    pub same_ups : ups r.1.1 ≡ ups h
    pub same_downs : downs r.1.1 ≡ downs h

  -- A run of the handler counts as a success exactly where it returns nil.
  attempt-wins :
      (s : Attempts) (e : Option Error)
      → (attempt_once env w handler task s).0 ≡ e
      → successes task.id (attempt_once env w handler task s).1.1 ≡ wins e (successes task.id s.1)
  unfolding attempt_once successes
  attempt-wins s none good =
      ground (arith, good, str_eq_refl task.id, (quiet task).successes_same task.id s.1)
  attempt-wins s (some x) bad = ground (arith, bad, (quiet task).successes_same task.id s.1)

  -- One more run of the handler, with no wait behind it.
  last-Executed :
      (k : ℕ) (h : History) (s : Attempts) (e : Option Error) (r : Option Error × Attempts)
      → After k h s
      → (attempt_once env w handler task s).0 ≡ e
      → r ≡ (e, (attempt_once env w handler task s).1)
      → Ending (most_attempts w) (k + 1) k e
      → k + 1 ≤ most_attempts w
      → Executed (k + 1) k h r
  unfolding attempt_once sets runs value messages sent statements ups downs
  last-Executed k h s e r a result eq ending bound = rw eq (record {
    won = attempt-wins s e result ∙ ap (wins e) a.same_successes;
    ending = ending;
    some_attempt = omega arith;
    attempts_bound = bound;
    attempts = ground (arith, a.counted);
    states = ground (arith, a.states, (quiet task).sets_same key s.1);
    ran = ground (arith, a.ran, (quiet task).runs_same s.1);
    same_values = λ k other. ground (arith, a.same_values k other, (quiet task).value_same k s.1);
    same_messages = λ t. ground (arith, a.same_messages t, (quiet task).messages_same t s.1);
    same_sent = λ t. ground (arith, a.same_sent t, (quiet task).sent_same t s.1);
    same_statements = ground (arith, a.same_statements, (quiet task).statements_same s.1);
    same_ups = ground (arith, a.same_ups, (quiet task).ups_same s.1);
    same_downs = ground (arith, a.same_downs, (quiet task).downs_same s.1);
  })

  execute-Executed_from :
      (k : ℕ) (h : History) (s : Attempts) (e : Error) (r : Option Error × Attempts)
      → After k h s
      → r ≡ (some e, s)
      → 0 < k
      → k < most_attempts w
      → Executed k k h r
  execute-Executed_from k h s e r a eq positive bound = rw eq (record {
    ending = cancellation e refl refl bound;
    some_attempt = positive;
    attempts_bound = omega arith;
    attempts = a.counted;
    won = a.same_successes;
    states = a.states;
    ran = a.ran;
    same_values = a.same_values;
    same_messages = a.same_messages;
    same_sent = a.same_sent;
    same_statements = a.same_statements;
    same_ups = a.same_ups;
    same_downs = a.same_downs;
  })

  Outcome-Executed :
      (h : History) (r : Option Error × Attempts)
      → Outcome (retry_config env w task) (attempt_once env w handler task) (0, h) r
      → (n : ℕ) × (j : ℕ) × Executed n j h r
  unfolding retry_config
  Outcome-Executed h r (succeeded k t before bound good eq) = (
    k + 1,
    k,
    last-Executed k h t none r (Retrying-After before) good eq (success refl refl) (omega arith),
  )
  Outcome-Executed h r (exhausted k t e before bound bad eq) = (
    k + 1,
    k,
    last-Executed k h t (some e) r (Retrying-After before) bad eq (exhaustion e refl refl bound)
        (omega arith),
  )
  Outcome-Executed h r (cancelled k t e before bound bad stopped eq) = (
    suc k,
    suc k,
    execute-Executed_from (suc k) h _ _ r (attempt-After k h t e bad (Retrying-After before)) eq
        (omega arith) (omega arith),
  )

  -- Every execution of a task is one of those.
  pub retry-Executed :
      (h : History)
      → (n : ℕ) × (j : ℕ) × Executed n j h
          (retry (retry_config env w task) (attempt_once env w handler task) (0, h))
  retry-Executed h =
      Outcome-Executed h _
        (retry-Outcome (retry_config env w task) (attempt_once env w handler task) (0, h))
