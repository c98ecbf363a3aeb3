-- ===== src/Lib.antt =====
-- The task queue of this repository: an API gateway takes tasks over REST and gRPC, a dispatcher
-- routes them by type, workers run them with retries, and a scheduler sends the tasks of cron
-- jobs. The services share Kafka (the topics tasks.pending, tasks.worker.<type> and tasks.dlq),
-- Redis (the state and the metadata of a task, the scheduler's lease) and PostgreSQL (the rows
-- of tasks, executions and jobs).
--
-- World.antt is the boundary. Every call to Redis, Kafka, PostgreSQL, the clock, the uuid
-- library or a metric is an event with its arguments and its answer, and a computation takes the
-- history of events, newest first, to a result and a longer history. What a call answers is an
-- arbitrary function of the history, the record Env: a service may fail at any call, and other
-- processes may have changed what it holds. Encoding and decoding of JSON, the cron parser, the
-- printing of numbers and the rounding to a double are fields of Env too. World/Views.antt reads
-- histories: the value of a Redis key, the messages that Kafka acknowledged, the statements, the
-- runs of handlers.
--
--   Domain, Domain/Errors      internal/domain/task.go, internal/domain/errors.go
--   Retry                      pkg/retry/retry.go: Do
--   StateStore                 internal/redis/state_store.go
--   Repository                 internal/postgres/repository.go
--   Producer, Consumer, Carrier  internal/kafka: Publish, Subscribe, HeaderCarrier
--   Registry, Handlers         internal/handlers: Register, Get, the email and the webhook handler
--   Worker                     services/worker/worker.go: processMessage is process_message
--   RateLimiter                internal/redis/rate_limiter.go: Allow
--   Dispatcher                 services/dispatcher/dispatcher.go: route
--   Gateway, Gateway/Rest, Gateway/Grpc  services/api-gateway/handler: rest.go, grpc.go
--   Gateway/Middleware         services/api-gateway/middleware/logging.go
--   Scheduler                  services/scheduler/scheduler.go: tick is tick, runJob is run_job
--   Service                    services/*/cli/serve.go and services/*/config/config.go: runServe is run_serve
--   Service/Process            what runServe opens and closes; telemetry.InitTracer and postgres.NewPool
--   Service/Clients            internal/kafka: NewConsumer, NewProducer; internal/redis: NewClient
--   Command/Init, Command/Migrate, Command/Version  services/*/cli: init.go, migrate.go, version.go
--   Command/Root               services/*/cli/root.go: initConfig is init_config, Execute is execute
--   Telemetry                  pkg/telemetry/metrics.go, pkg/telemetry/server.go
--   Pipeline                   the gateway, the dispatcher and a worker on the same task
--   Lineage                    all services in any order of their steps, as a relation of steps on histories
--   Causes                     why a status was written: what each computation of a service adds to a history
--
-- The functions keep the source's names in snake case. A function of the source with early
-- returns is a chain of definitions, one for each place where it branches on the answer of a
-- call: process_message goes on in on_decoded, unless_terminal, with_handler, start_task and
-- run_task. The modules below a component (Worker/Lifecycle, Gateway/Rest/Lookup) hold its
-- theorems, Tests holds concrete runs.
--
-- Texts and byte strings are native strings, times are natural numbers of nanoseconds, Go's int
-- is an integer, and the delay between attempts wraps to 64 bits as it does in Go. retry.Do
-- takes the number of attempts that the loop still admits, so it has no bound of its own. The
-- loops that Go runs until the context ends, Subscribe, the scheduler's Run and
-- StreamTaskUpdates, take a number of rounds: a statement for every number covers every finite
-- run. A handler and a rate limiter are computations of their own, of which the theorems ask
-- only that they leave alone what belongs to the queue.
--
-- A command is a computation on a process: the history of its service and the list of what it
-- opened and closed itself. viper is a parameter, and its law is that a bound key has the value
-- of its flag. The servers of the gateway run until a signal; what they do until then is a
-- parameter of run_serve. init is a computation on a disk, a map from paths to entries, where
-- every call of the operating system may fail and a failing write may have truncated its file.
-- initConfig is a function of such a disk, and Execute runs a command behind it.
--
-- Not modelled: logging, tracing spans and the observations of histograms, the JSON and SQL
-- texts, the transports of HTTP and gRPC with the limit that MaxBodySize sets on a request body,
-- and cobra. viper is a parameter: Command/Root says which files it is told to look for, and its
-- laws how it looks. The sorted set behind the rate limiter is a law of Redis, in
-- RateLimiter/Window: scores are doubles, and the rounding to a double is a parameter that keeps
-- the order.
pub mod Prelude
pub mod Domain
pub mod World
pub mod StateStore
pub mod Retry
pub mod Producer
pub mod Consumer
pub mod Carrier
pub mod Registry
pub mod Handlers
pub mod RateLimiter
pub mod Repository
pub mod Worker
pub mod Dispatcher
pub mod Gateway
pub mod Scheduler
pub mod Service
pub mod Command
pub mod Pipeline
pub mod Lineage
pub mod Causes
pub mod Telemetry
pub mod Tests
