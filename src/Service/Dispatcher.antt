-- ===== src/Service/Dispatcher.antt =====
-- services/dispatcher/cli/serve.go and services/dispatcher/config/config.go.
pub mod Relaying
use go_task_flow.Prelude.Int.{ℤ, pos, negsuc}
use go_task_flow.Dispatcher.Limits.{new_rate_limiter}
use go_task_flow.Service.Flags.{FlagSet, Bindings, Viper, words, whole}
use go_task_flow.Service.Process.{
  P, with_tracer, serving, Outside, opening, consumer, producer, redis_client,
}
use go_task_flow.Service.Brokers.{split_commas}
use go_task_flow.World.{Env}
use go_task_flow.Dispatcher.{topic_pending, run, Limiter}
use go_task_flow.Prelude.{
  ℕ, zero, suc, String, Bool, true, false, Option, none, some, [], ◌∷◌, if◌then◌else◌,
}
use go_task_flow.Dispatcher

pub record Config : Type 0 where
  pub log_level : String
  pub kafka_brokers : String
  pub redis_addr : String
  pub rate_limit : ℤ
  pub metrics_addr : String
  pub otel_endpoint : String

unfoldable pub load : Viper → Config
load v = record {
  log_level = v.get_string "log_level";
  kafka_brokers = v.get_string "kafka_brokers";
  redis_addr = v.get_string "redis_addr";
  rate_limit = v.get_int "rate_limit";
  metrics_addr = v.get_string "metrics_addr";
  otel_endpoint = v.get_string "otel_endpoint";
}

-- The flags of serve, with log-level of the root command.
unfoldable pub declared : FlagSet
declared =
    ("kafka-brokers", words "localhost:9092")
    ∷ ("redis-addr", words "localhost:6379")
    ∷ ("rate-limit", whole (pos 100))
    ∷ ("metrics-addr", words ":9094")
    ∷ ("otel-endpoint", words "")
    ∷ ("log-level", words "info")
    ∷ []

unfoldable pub bindings : Bindings
bindings =
    ("kafka_brokers", "kafka-brokers")
    ∷ ("redis_addr", "redis-addr")
    ∷ ("rate_limit", "rate-limit")
    ∷ ("metrics_addr", "metrics-addr")
    ∷ ("otel_endpoint", "otel-endpoint")
    ∷ ("log_level", "log-level")
    ∷ []

-- `cfg.RateLimit > 0`
abbrev pub is_positive : ℤ → Bool
is_positive (pos zero) = false
is_positive (pos (suc n)) = true
is_positive (negsuc n) = false

-- time.Second
abbrev pub second : ℕ
second = 1_000_000_000

module _ (env : Env) where
  unfoldable pub limiter_of : Config → Option Dispatcher.Limiter
  limiter_of cfg =
      if is_positive cfg.rate_limit then some (new_rate_limiter env cfg.rate_limit second) else none

  unfoldable pub run_dispatcher : Config → ℕ → P
  unfolding limiter_of
  run_dispatcher cfg n =
      serving "dispatcher" cfg.metrics_addr (Dispatcher.run env (limiter_of cfg) n)

  unfoldable pub clients : Config → ℕ → P
  unfolding run_dispatcher
  clients cfg n =
      let brokers = split_commas cfg.kafka_brokers in
      opening (consumer brokers Dispatcher.topic_pending "dispatcher-group")
        (opening (producer brokers) (opening (redis_client cfg.redis_addr) (run_dispatcher cfg n)))

  -- runServe, for n rounds of the consumer's loop.
  unfoldable pub run_serve : Outside → Viper → ℕ → P
  unfolding clients
  run_serve out v n =
      let cfg = load v in with_tracer out "dispatcher" cfg.otel_endpoint (clients cfg n)
