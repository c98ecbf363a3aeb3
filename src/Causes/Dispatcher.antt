-- ===== src/Causes/Dispatcher.antt =====
-- services/dispatcher/dispatcher.go: the one status that route writes is QUEUED.
use go_task_flow.Causes.{
  queues, Grows-same, Grows-refl, Growing, Growing-bind, publish-Growing, set_status-Grows,
  IsQuiet-Growing,
}
use go_task_flow.Dispatcher.{
  Limiter, worker_topic, topic_dlq, to_dlq, mark_queued, after_publish, forward, rate_limited,
  after_limit, limited, rejected, routed, route,
}
use go_task_flow.Domain.{Task, queued}
use go_task_flow.Domain.Errors.{Error, Result, ok, err}
use go_task_flow.Producer.{publish}
use go_task_flow.StateStore.{set_status}
use go_task_flow.World.{
  Env, emit, counted, dispatcher_routed, dispatcher_dlq, dispatcher_rate_limited, Metric,
}
use go_task_flow.World.Views.{sets, sent, successes, IsQuiet}
use go_task_flow.Prelude.{
  String, ◌≡◌, refl, Bool, true, false, Option, none, some, str_eq, inl, inr, Bool-cases,
}

module _ (env : Env) where
  counted-Growing : (m : Metric) → Growing (emit (counted m))
  unfolding sets sent successes
  counted-Growing m h = Grows-same h _ (λ id. refl) (λ id. refl) (λ t. refl)

  to_dlq-Growing : (raw : String) → Growing (to_dlq env raw)
  unfolding to_dlq
  to_dlq-Growing raw = publish-Growing env topic_dlq "" raw

  mark_queued-Growing : (task : Task) → Growing (mark_queued env task)
  unfolding mark_queued
  mark_queued-Growing task =
      Growing-bind (set_status env task.id queued)
        (λ e. emit (counted (dispatcher_routed task.type)))
        (λ h. set_status-Grows env task.id queued h (queues refl))
        (λ e. counted-Growing (dispatcher_routed task.type))

  after_publish-Growing : (task : Task) (e : Option Error) → Growing (after_publish env task e)
  unfolding after_publish
  after_publish-Growing task none = mark_queued-Growing task
  after_publish-Growing task (some e) = Grows-refl

  forward-Growing : (task : Task) (raw : String) → Growing (forward env task raw)
  unfolding forward
  forward-Growing task raw =
      Growing-bind (publish env (worker_topic task.type) task.id raw) (after_publish env task)
        (publish-Growing env (worker_topic task.type) task.id raw) (after_publish-Growing task)

  rate_limited-Growing : (raw : String) → Growing (rate_limited env raw)
  unfolding rate_limited
  rate_limited-Growing raw =
      Growing-bind (emit (counted dispatcher_rate_limited))
        (λ u h. to_dlq env raw (emit (counted dispatcher_dlq) h).1)
        (counted-Growing dispatcher_rate_limited)
        (λ u.
          Growing-bind (emit (counted dispatcher_dlq)) (λ v. to_dlq env raw)
            (counted-Growing dispatcher_dlq) (λ v. to_dlq-Growing raw))

  after_limit-Growing :
      (task : Task) (raw : String) (r : Result Bool) → Growing (after_limit env task raw r)
  unfolding after_limit
  after_limit-Growing task raw (err e) = forward-Growing task raw
  after_limit-Growing task raw (ok true) = forward-Growing task raw
  after_limit-Growing task raw (ok false) = rate_limited-Growing raw

  rejected-Growing : (raw : String) → Growing (rejected env raw)
  unfolding rejected
  rejected-Growing raw =
      Growing-bind (emit (counted dispatcher_dlq)) (λ u. to_dlq env raw)
        (counted-Growing dispatcher_dlq) (λ u. to_dlq-Growing raw)

  module _ (limiter : Option Limiter)
      (quiet : (l : Limiter) (type : String) → limiter ≡ some l → IsQuiet (l.allow type)) where
    limited-Growing :
        (l : Option Limiter) (task : Task) (raw : String)
        → limiter ≡ l
        → Growing (limited env l task raw)
    unfolding limited
    limited-Growing none task raw e = forward-Growing task raw
    limited-Growing (some l) task raw e =
        Growing-bind (l.allow task.type) (after_limit env task raw)
          (IsQuiet-Growing (l.allow task.type) (quiet l task.type e)) (after_limit-Growing task raw)

    routed-Growing : (raw : String) (d : Option Task) → Growing (routed env limiter raw d)
    unfolding routed
    routed-Growing raw none h = rejected-Growing raw h
    routed-Growing raw (some task) h = elim (Bool-cases (str_eq task.type "")) [
      | inl untyped ↦ rw untyped (rejected-Growing raw h)
      | inr typed ↦ rw typed (limited-Growing limiter task raw refl h)
    ]

    pub route-Growing : (raw : String) → Growing (route env limiter raw)
    unfolding route
    route-Growing raw = routed-Growing raw (env.decode raw)
