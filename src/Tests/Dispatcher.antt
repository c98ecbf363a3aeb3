-- ===== src/Tests/Dispatcher.antt =====
-- The dispatcher at concrete messages.
use go_task_flow.Consumer.{Flow, subscribe, round}
use go_task_flow.Consumer.Rounds.{commits, fetches}
use go_task_flow.Consumer.Relaying.{Relayed}
use go_task_flow.RateLimiter.{allow, within}
use go_task_flow.StateStore.{set_status}
use go_task_flow.Service.Dispatcher.{Config, limiter_of}
use go_task_flow.Service.Dispatcher.Relaying.{limiter_of-Relayed}
use go_task_flow.Tests.Consumer.{message_at}
use go_task_flow.Prelude.Int.{pos}
use go_task_flow.Dispatcher.Limits.{new_rate_limiter, route-Limited, Limited}
use go_task_flow.World.{Env, Fetched, History}
use mathlib.Core.Path.{subst}
use go_task_flow.Domain.Errors.{Result, ok, err, external}
use go_task_flow.World.Views.{sent, taken, runs, IsQuiet}
use go_task_flow.Dispatcher.Routing.{Routed, route-Routed}
use go_task_flow.Dispatcher.Race.{overtaken, overtaken_reruns}
use go_task_flow.Tests.Fixtures.{
  sample, calm, succeeding, worker_with, succeeding-IsQuiet, calm-IsFaithful,
}
use go_task_flow.Worker.{process_message}
use go_task_flow.Registry.{get}
use go_task_flow.Dispatcher.{
  forward, topic_dlq, to_dlq, route, run, Limiter, rate_limited, limited, after_limit,
}
use go_task_flow.Prelude.{
  ℕ, zero, suc, none, str_eq, if◌then◌else◌, length, ◌<◌, String, ◌≡◌, refl, false, some, [], ◌∷◌,
}
use go_task_flow.Producer.{publish}

-- Kafka has a message that does not decode and one that does, and refuses dead letters.
abbrev arriving : ℕ → Result Fetched
arriving zero = ok (message_at 7 "bad")
arriving (suc zero) = ok (message_at 8 "t1")
arriving (suc (suc n)) = err (external "closed")

abbrev busy : Env
busy = record calm {
  fetch_answer = λ h. arriving (length (fetches h));
  write_answer = λ h m. if str_eq m.topic topic_dlq then some (external "full") else none;
  decode = λ raw. if str_eq raw "bad" then none else some (sample raw);
}

abbrev limited_config : Config
limited_config = record {
  log_level = "info";
  kafka_brokers = "localhost:9092";
  redis_addr = "localhost:6379";
  rate_limit = pos 100;
  metrics_addr = ":9094";
  otel_endpoint = "";
}

abbrev busy_run : Flow × History
busy_run = run busy (limiter_of busy limited_config) 3 []

busy_run_test : (commits busy_run.1 ≡ (0, 8) ∷ []) × (taken busy_run.1 ≡ "t1" ∷ [])
unfolding limiter_of run route subscribe round fetches commits taken allow limited forward publish
    within set_status
busy_run_test = (refl, refl)

limiter_of-Relayed_example :
    Relayed busy (λ msg. route busy (limiter_of busy limited_config) msg.value) 3 [] busy_run
limiter_of-Relayed_example = limiter_of-Relayed busy limited_config 3 []

abbrev closed : Limiter
closed = record { allow = λ type h. (ok false, h); limit = pos 1 }

same_limiter : {l : Limiter} → some closed ≡ some l → closed ≡ l
same_limiter e = cc

closed-IsQuiet : (l : Limiter) (type : String) → some closed ≡ some l → IsQuiet (l.allow type)
closed-IsQuiet l type e =
    subst (λ l'. IsQuiet (l'.allow type)) (same_limiter e)
      (record {
        value_same = λ k h. refl;
        sets_same = λ k h. refl;
        messages_same = λ k h. refl;
        sent_same = λ k h. refl;
        statements_same = λ h. refl;
        runs_same = λ h. refl;
        successes_same = λ k h. refl;
        ups_same = λ h. refl;
        downs_same = λ h. refl;
      })

route-Routed_example : Routed calm (some closed) "t1" [] (route calm (some closed) "t1" [])
route-Routed_example = route-Routed calm (some closed) closed-IsQuiet "t1" []

-- Over the limit, the message goes to the dead-letter topic.
over_limit_test :
    sent topic_dlq (route calm (some closed) "t1" []).1
    ≡ record { topic = topic_dlq; key = ""; value = "t1" } ∷ []
unfolding route after_limit limited rate_limited to_dlq publish sent
over_limit_test = refl

overtaken_reruns_example :
    runs (overtaken calm (worker_with succeeding) (sample "t1") "t1" [])
    < runs
        (process_message calm
          (worker_with succeeding)
          "t1"
          (overtaken calm (worker_with succeeding) (sample "t1") "t1" [])).1
unfolding publish get
overtaken_reruns_example =
    (overtaken_reruns calm (worker_with succeeding) succeeding (sample "t1") "t1" [] calm-IsFaithful
      succeeding-IsQuiet refl refl refl).3

-- A full window.
abbrev full : Env
full = record calm { window_answer = λ h key from score member ttl. ok 4 }

route-Limited_test :
    Limited full
      (pos 3)
      60
      "t1"
      (sample "t1")
      []
      (route full (some (new_rate_limiter full (pos 3) 60)) "t1" [])
route-Limited_test = route-Limited full (pos 3) 60 "t1" (sample "t1") [] refl refl
