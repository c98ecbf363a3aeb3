-- ===== src/Dispatcher/Relaying.antt =====
-- services/dispatcher/dispatcher.go under the loop of internal/kafka/consumer.go: what Run sends on
-- against what it commits.
use go_task_flow.Domain.Errors.{Error, Result, ok, err}
use go_task_flow.World.{M, History, Env, Outgoing, counted, dispatcher_dlq, dispatcher_rate_limited}
use go_task_flow.World.Views.{taken}
use go_task_flow.Consumer.Rounds.{commits, fetches}
use go_task_flow.Consumer.Relaying.{Relays, Relayed, subscribe-Relayed}
use go_task_flow.Producer.{publish}
use go_task_flow.StateStore.{set_status}
use go_task_flow.Dispatcher.{
  Limiter, to_dlq, mark_queued, after_publish, forward, rate_limited, after_limit, limited,
  rejected, routed, route, run, topic_dlq, worker_topic,
}
use go_task_flow.Domain.{Task}
use go_task_flow.Prelude.{
  ℕ, String, ◌≡◌, refl, Bool, true, false, Option, none, some, ◌∷◌, ◌∙◌, str_eq, arith, ap, inl,
  inr, Option-cases, if◌then◌else◌,
}

-- A computation that neither sends a message nor uses the reader.
pub record LeavesKafka {A : Type 0} (m : M A) : Type 0 where
  pub taken_same : (h : History) → taken (m h).1 ≡ taken h
  pub commits_same : (h : History) → commits (m h).1 ≡ commits h
  pub fetches_same : (h : History) → fetches (m h).1 ≡ fetches h

-- What sending a message on does to Kafka: the reader is left alone, and the result is nil exactly
-- where the content was taken, once.
record SentOn (raw : String) (h : History) (r : Option Error × History) : Type 0 where
  commits_kept : commits r.1 ≡ commits h
  fetches_kept : fetches r.1 ≡ fetches h
  passed : r.0 ≡ none → taken r.1 ≡ raw ∷ taken h
  held : (e : Error) → r.0 ≡ some e → taken r.1 ≡ taken h

module _ (env : Env) (raw : String) where
  publish-SentOn : (topic key : String) (h : History) → SentOn raw h (publish env topic key raw h)
  unfolding publish taken commits fetches
  publish-SentOn topic key h =
      let m : Outgoing = record { topic = topic; key = key; value = raw } in
      elim (Option-cases (env.write_answer h m)) [
        | inl good ↦ record {
          commits_kept = refl;
          fetches_kept = refl;
          passed = λ e. rw good refl;
          held = λ x e. absurd (ground (arith, good, e));
        }
        | inr (x, bad) ↦ record {
          commits_kept = refl;
          fetches_kept = refl;
          passed = λ e. absurd (ground (arith, bad, e));
          held = λ y e. rw bad refl;
        }
      ]

  -- Behind calls that Kafka does not see.
  SentOn-before :
      (h g : History) (r : Option Error × History)
      → taken g ≡ taken h
      → commits g ≡ commits h
      → fetches g ≡ fetches h
      → SentOn raw g r
      → SentOn raw h r
  SentOn-before h g r t c f x = record {
    commits_kept = x.commits_kept ∙ c;
    fetches_kept = x.fetches_kept ∙ f;
    passed = λ e. x.passed e ∙ ap (λ l. raw ∷ l) t;
    held = λ y e. x.held y e ∙ t;
  }

  rejected-SentOn : (h : History) → SentOn raw h (rejected env raw h)
  unfolding rejected to_dlq taken commits fetches
  rejected-SentOn h =
      let g : History = counted dispatcher_dlq ∷ h in
      SentOn-before h g (rejected env raw h) refl refl refl (publish-SentOn topic_dlq "" g)

  rate_limited-SentOn : (h : History) → SentOn raw h (rate_limited env raw h)
  unfolding rate_limited to_dlq taken commits fetches
  rate_limited-SentOn h =
      let g : History = counted dispatcher_dlq ∷ counted dispatcher_rate_limited ∷ h in
      SentOn-before h g (rate_limited env raw h) refl refl refl (publish-SentOn topic_dlq "" g)

  after_publish-SentOn :
      (task : Task) (e : Option Error) (h k : History)
      → SentOn raw h (e, k)
      → SentOn raw h (after_publish env task e k)
  unfolding after_publish mark_queued set_status taken commits fetches
  after_publish-SentOn task none h k x = record {
    commits_kept = x.commits_kept;
    fetches_kept = x.fetches_kept;
    passed = λ e. x.passed refl;
    held = λ y e. absurd (ground (arith, e));
  }
  after_publish-SentOn task (some b) h k x = record {
    commits_kept = x.commits_kept;
    fetches_kept = x.fetches_kept;
    passed = λ e. absurd (ground (arith, e));
    held = λ y e. x.held b refl;
  }

  forward-SentOn : (task : Task) (h : History) → SentOn raw h (forward env task raw h)
  unfolding forward
  forward-SentOn task h =
      let r : Option Error × History = publish env (worker_topic task.type) task.id raw h in
      after_publish-SentOn task r.0 h r.1 (publish-SentOn (worker_topic task.type) task.id h)

  after_limit-SentOn :
      (task : Task) (allowed : Result Bool) (h : History)
      → SentOn raw h (after_limit env task raw allowed h)
  unfolding after_limit
  after_limit-SentOn task (err e) h = forward-SentOn task h
  after_limit-SentOn task (ok true) h = forward-SentOn task h
  after_limit-SentOn task (ok false) h = rate_limited-SentOn h

module _ (env : Env) (limiter : Option Limiter)
    (leaves : (l : Limiter) (type : String) → limiter ≡ some l → LeavesKafka (l.allow type)) where
  limited-SentOn :
      (found : Option Limiter) (raw : String) (task : Task) (h : History)
      → limiter ≡ found
      → SentOn raw h (limited env found task raw h)
  unfolding limited
  limited-SentOn none raw task h is = forward-SentOn env raw task h
  limited-SentOn (some l) raw task h is =
      let x = leaves l task.type is in
      let r : Result Bool × History = l.allow task.type h in
      SentOn-before env raw h r.1 (after_limit env task raw r.0 r.1) (x.taken_same h)
        (x.commits_same h) (x.fetches_same h) (after_limit-SentOn env raw task r.0 r.1)

  typed-SentOn :
      (raw : String) (task : Task) (b : Bool) (h : History)
      → SentOn raw h ((if b then rejected env raw else limited env limiter task raw) h)
  typed-SentOn raw task true h = rejected-SentOn env raw h
  typed-SentOn raw task false h = limited-SentOn limiter raw task h refl

  routed-SentOn :
      (raw : String) (d : Option Task) (h : History) → SentOn raw h (routed env limiter raw d h)
  unfolding routed
  routed-SentOn raw none h = rejected-SentOn env raw h
  routed-SentOn raw (some task) h = typed-SentOn raw task (str_eq task.type "") h

  route-SentOn : (raw : String) (h : History) → SentOn raw h (route env limiter raw h)
  unfolding route
  route-SentOn raw h = routed-SentOn raw (env.decode raw) h

  pub route-Relays : Relays (λ msg. route env limiter msg.value)
  route-Relays = record {
    reader = record {
      commits_same = λ m h. (route-SentOn m.value h).commits_kept;
      fetches_same = λ m h. (route-SentOn m.value h).fetches_kept;
    };
    passes_on = λ m h. (route-SentOn m.value h).passed;
    holds_back = λ m h. (route-SentOn m.value h).held;
  }

  -- In every run of the dispatcher, the contents that Kafka takes are those of the messages that
  -- it commits, in the same order and once each. The limiter does not use Kafka.
  pub run-Relayed :
      (n : ℕ) (h : History)
      → Relayed env (λ msg. route env limiter msg.value) n h (run env limiter n h)
  unfolding run
  run-Relayed n h = subscribe-Relayed env (λ msg. route env limiter msg.value) route-Relays n h
