-- ===== src/Service/Reads.antt =====
-- Load of services/*/config/config.go against the flags of services/*/cli/serve.go.
use go_task_flow.Service.Flags.{Viper, ReadsFlags, lookup}
use go_task_flow.Prelude.{◌≡◌, refl}
use go_task_flow.Service.Worker as WorkerService
use go_task_flow.Service.Dispatcher as DispatcherService
use go_task_flow.Service.Scheduler as SchedulerService
use go_task_flow.Service.Gateway as GatewayService

abbrev pub worker_config : Viper → WorkerService.Config
worker_config flags = record {
  log_level = flags.get_string "log-level";
  kafka_brokers = flags.get_string "kafka-brokers";
  redis_addr = flags.get_string "redis-addr";
  postgres_dsn = flags.get_string "postgres-dsn";
  worker_type = flags.get_string "worker-type";
  max_retries = flags.get_int "max-retries";
  task_timeout = flags.get_duration "task-timeout";
  smtp_host = flags.get_string "smtp-host";
  smtp_port = flags.get_int "smtp-port";
  smtp_from = flags.get_string "smtp-from";
  smtp_username = flags.get_string "smtp-username";
  smtp_password = flags.get_string "smtp-password";
  metrics_addr = flags.get_string "metrics-addr";
  otel_endpoint = flags.get_string "otel-endpoint";
}

abbrev pub dispatcher_config : Viper → DispatcherService.Config
dispatcher_config flags = record {
  log_level = flags.get_string "log-level";
  kafka_brokers = flags.get_string "kafka-brokers";
  redis_addr = flags.get_string "redis-addr";
  rate_limit = flags.get_int "rate-limit";
  metrics_addr = flags.get_string "metrics-addr";
  otel_endpoint = flags.get_string "otel-endpoint";
}

abbrev pub scheduler_config : Viper → SchedulerService.Config
scheduler_config flags = record {
  log_level = flags.get_string "log-level";
  kafka_brokers = flags.get_string "kafka-brokers";
  redis_addr = flags.get_string "redis-addr";
  postgres_dsn = flags.get_string "postgres-dsn";
  metrics_addr = flags.get_string "metrics-addr";
  otel_endpoint = flags.get_string "otel-endpoint";
}

abbrev pub gateway_config : Viper → GatewayService.Config
gateway_config flags = record {
  log_level = flags.get_string "log-level";
  http_port = flags.get_string "http-port";
  grpc_port = flags.get_string "grpc-port";
  metrics_addr = flags.get_string "metrics-addr";
  kafka_brokers = flags.get_string "kafka-brokers";
  redis_addr = flags.get_string "redis-addr";
  postgres_dsn = flags.get_string "postgres-dsn";
  jwt_secret = flags.get_string "jwt-secret";
  otel_endpoint = flags.get_string "otel-endpoint";
}

module _ (v flags : Viper) where
  load_worker-flags :
      ReadsFlags v WorkerService.bindings flags → WorkerService.load v ≡ worker_config flags
  unfolding WorkerService.load WorkerService.bindings lookup
  load_worker-flags reads =
      rw
        (
          reads.strings "log_level" _ refl,
          reads.strings "kafka_brokers" _ refl,
          reads.strings "redis_addr" _ refl,
          reads.strings "postgres_dsn" _ refl,
          reads.strings "worker_type" _ refl,
          reads.ints "max_retries" _ refl,
          reads.durations "task_timeout" _ refl,
          reads.strings "smtp_host" _ refl,
          reads.ints "smtp_port" _ refl,
          reads.strings "smtp_from" _ refl,
          reads.strings "smtp_username" _ refl,
          reads.strings "smtp_password" _ refl,
          reads.strings "metrics_addr" _ refl,
          reads.strings "otel_endpoint" _ refl,
        )
        refl

  load_dispatcher-flags :
      ReadsFlags v DispatcherService.bindings flags
      → DispatcherService.load v ≡ dispatcher_config flags
  unfolding DispatcherService.load DispatcherService.bindings lookup
  load_dispatcher-flags reads =
      rw
        (
          reads.strings "log_level" _ refl,
          reads.strings "kafka_brokers" _ refl,
          reads.strings "redis_addr" _ refl,
          reads.ints "rate_limit" _ refl,
          reads.strings "metrics_addr" _ refl,
          reads.strings "otel_endpoint" _ refl,
        )
        refl

  load_scheduler-flags :
      ReadsFlags v SchedulerService.bindings flags
      → SchedulerService.load v ≡ scheduler_config flags
  unfolding SchedulerService.load SchedulerService.bindings lookup
  load_scheduler-flags reads =
      rw
        (
          reads.strings "log_level" _ refl,
          reads.strings "kafka_brokers" _ refl,
          reads.strings "redis_addr" _ refl,
          reads.strings "postgres_dsn" _ refl,
          reads.strings "metrics_addr" _ refl,
          reads.strings "otel_endpoint" _ refl,
        )
        refl

  load_gateway-flags :
      ReadsFlags v GatewayService.bindings flags → GatewayService.load v ≡ gateway_config flags
  unfolding GatewayService.load GatewayService.bindings lookup
  load_gateway-flags reads =
      rw
        (
          reads.strings "log_level" _ refl,
          reads.strings "http_port" _ refl,
          reads.strings "grpc_port" _ refl,
          reads.strings "metrics_addr" _ refl,
          reads.strings "kafka_brokers" _ refl,
          reads.strings "redis_addr" _ refl,
          reads.strings "postgres_dsn" _ refl,
          reads.strings "jwt_secret" _ refl,
          reads.strings "otel_endpoint" _ refl,
        )
        refl

-- Where neither the environment nor a file sets a key, Load of each of the four commands answers
-- the configuration in which every field has the value of its own flag.
pub load-flags :
    (worker worker_flags dispatcher dispatcher_flags : Viper)
    (scheduler scheduler_flags gateway gateway_flags : Viper)
    → ReadsFlags worker WorkerService.bindings worker_flags
    → ReadsFlags dispatcher DispatcherService.bindings dispatcher_flags
    → ReadsFlags scheduler SchedulerService.bindings scheduler_flags
    → ReadsFlags gateway GatewayService.bindings gateway_flags
    → (WorkerService.load worker ≡ worker_config worker_flags)
      × (DispatcherService.load dispatcher ≡ dispatcher_config dispatcher_flags)
      × (SchedulerService.load scheduler ≡ scheduler_config scheduler_flags)
      × (GatewayService.load gateway ≡ gateway_config gateway_flags)
load-flags worker worker_flags dispatcher dispatcher_flags scheduler scheduler_flags gateway
      gateway_flags w d s g =
    (
      load_worker-flags worker worker_flags w,
      load_dispatcher-flags dispatcher dispatcher_flags d,
      load_scheduler-flags scheduler scheduler_flags s,
      load_gateway-flags gateway gateway_flags g,
    )
