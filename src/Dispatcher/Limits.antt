-- ===== src/Dispatcher/Limits.antt =====
-- The dispatcher with the limiter of internal/redis/rate_limiter.go.
use go_task_flow.RateLimiter.{within, window_start, verdict, allow}
use go_task_flow.Prelude.Int.{ℤ}
use go_task_flow.Domain.Errors.{Error, Result, err}
use go_task_flow.World.Views.{
  value, sets, messages, sent, statements, runs, successes, ups, downs, IsQuiet,
}
use go_task_flow.Dispatcher.Routing.{
  forward-SendsOnce, over_limit-SendsOnce, SendsOnce-before, SendsOnce,
}
use go_task_flow.World.{History, Env, clock_read}
use go_task_flow.Dispatcher.{topic_dlq, worker_topic, after_limit, limited, route, Limiter, ok}
use go_task_flow.Prelude.{
  ℕ, ◌*◌, String, ◌<>◌, ◌≡◌, refl, inl, inr, true, false, Option, some, ◌∷◌, str_eq, Bool-cases,
}
use go_task_flow.Domain.{Task}

module _ (env : Env) (limit : ℤ) (window : ℕ) where
  -- NewRateLimiter, as the dispatcher sees it.
  abbrev pub new_rate_limiter : Limiter
  new_rate_limiter = record { allow = allow env limit window; limit = limit }

  -- What Redis answers for the window of a task's type, and the state behind the question.
  abbrev pub window_count : Task → History → Result ℕ
  window_count task h =
      env.window_answer (clock_read (env.now h) ∷ h) ("ratelimit:" <> task.type)
        (window_start window (env.now h)) (env.float64 (env.now h)) (env.now h) (window * 2)

  -- Where a message goes by what Redis answers for the window of its type.
  pub data Limited (raw : String) (task : Task) (h : History) (r : Option Error × History)
      : Type 0 where
    over :
        (n : ℕ)
        → window_count task h ≡ ok n
        → within n limit ≡ false
        → SendsOnce (record { topic = topic_dlq; key = ""; value = raw }) h r
        → Limited raw task h r
    under :
        (n : ℕ)
        → window_count task h ≡ ok n
        → within n limit ≡ true
        → SendsOnce (record { topic = worker_topic task.type; key = task.id; value = raw }) h r
        → Limited raw task h r
    unknown :
        (e : Error)
        → window_count task h ≡ err e
        → SendsOnce (record { topic = worker_topic task.type; key = task.id; value = raw }) h r
        → Limited raw task h r

  pub allow-IsQuiet : (key : String) → IsQuiet (allow env limit window key)
  unfolding allow value sets messages sent statements runs successes ups downs
  allow-IsQuiet key = record {
    value_same = λ k h. refl;
    sets_same = λ k h. refl;
    messages_same = λ t h. refl;
    sent_same = λ t h. refl;
    statements_same = λ h. refl;
    runs_same = λ h. refl;
    successes_same = λ k h. refl;
    ups_same = λ h. refl;
    downs_same = λ h. refl;
  }

  after_limit-Limited :
      (raw : String) (task : Task) (h : History) (answer : Result ℕ)
      → window_count task h ≡ answer
      → Limited raw task h (
          after_limit env task raw
            (verdict env limit window task.type answer)
            (allow env limit window task.type h).1)
  unfolding after_limit verdict
  after_limit-Limited raw task h (err e) eq =
      let q = allow-IsQuiet task.type in
      unknown e eq (
        SendsOnce-before h _ (λ t. q.sent_same t h) (λ t. q.messages_same t h)
          (forward-SendsOnce env raw task _))
  after_limit-Limited raw task h (ok n) eq =
      let q = allow-IsQuiet task.type in
      elim (Bool-cases (within n limit)) [
        | inl fits ↦ under n eq fits (
            rw fits (
              SendsOnce-before h _ (λ t. q.sent_same t h) (λ t. q.messages_same t h)
                (forward-SendsOnce env raw task _)))
        | inr exceeds ↦ over n eq exceeds (
            rw exceeds (
              SendsOnce-before h _ (λ t. q.sent_same t h) (λ t. q.messages_same t h)
                (over_limit-SendsOnce env raw _)))
      ]

  -- With the limiter of Redis, a message of a type is sent once: to the dead-letter topic if the
  -- window of its type holds more requests than the limit, and to the topic of its type, under its
  -- id, if it does not or if Redis fails. One count is asked for, with the request itself in it.
  -- The message decodes and has a type.
  pub route-Limited :
      (raw : String) (task : Task) (h : History)
      → env.decode raw ≡ some task
      → str_eq task.type "" ≡ false
      → Limited raw task h (route env (some new_rate_limiter) raw h)
  unfolding route limited allow
  route-Limited raw task h decoded typed =
      rw (decoded, typed) (after_limit-Limited raw task h (window_count task h) refl)
