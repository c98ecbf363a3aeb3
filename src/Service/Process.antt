-- ===== src/Service/Process.antt =====
-- What a command opens and closes around its service: the resources of runServe, its deferred calls
-- and its early returns.
pub mod Closing
use go_task_flow.Dispatcher.{run}
use go_task_flow.Consumer.{Flow, again, returned}
use go_task_flow.Domain.Errors.{Error, Result, wrap}
use go_task_flow.World.{History, M}
use go_task_flow.Prelude.{String, Option, none, some, List, ◌∷◌, str_eq, if◌then◌else◌}

-- The clients and servers that a command constructs, with what they are constructed for.
pub data Resource : Type 0 where
  tracer : String → String → Resource
  consumer : List String → String → String → Resource
  producer : List String → Resource
  redis_client : String → Resource
  pool : String → Resource

pub data Step : Type 0 where
  opened closed : Resource → Step
  metrics_served : String → Step
  listened : String → Step
  executed : String → Option Error → Step
  grpc_stopped http_shut_down : Step

-- A command's state: the calls of its service, and its own steps, newest first.
pub record Process : Type 0 where
  pub history : History
  pub steps : List Step

-- A computation of a command. `again` means that it has not returned within the rounds given.
abbrev pub P : Type 0
P = Process → Flow × Process

-- What the calls that may fail answer: the OTLP exporter, pgxpool.New, Ping, net.Listen, ReadFile
-- of the embedded migrations, and Exec.
pub record Outside : Type 0 where
  pub exporter_error : Process → String → Option Error
  pub pool_error : Process → String → Option Error
  pub ping_error : Process → Option Error
  pub listen_error : Process → String → Option Error
  pub read_file : String → Result String
  pub exec_error : Process → String → Option Error

abbrev pub stepped : Step → Process → Process
stepped s p = record p { steps = s ∷ p.steps }

abbrev pub failed : Error → P
failed e p = (returned (some e), p)

-- What the deferred Close does when the function returns.
unfoldable pub closed_after : Resource → Flow → P
closed_after r again q = (again, q)
closed_after r (returned e) q = (returned e, stepped (closed r) q)

-- `defer r.Close()` around the rest of the function.
unfoldable pub deferred : Resource → P → P
unfolding closed_after
deferred r rest p = let (flow, q) = rest p in closed_after r flow q

-- A constructor that cannot fail, and its deferred Close.
unfoldable pub opening : Resource → P → P
unfolding deferred
opening r rest p = deferred r rest (stepped (opened r) p)

module _ (out : Outside) where
  exported : String → String → P → Option Error → P
  exported name endpoint rest (some e) = failed (wrap "tracer" (wrap "otlp exporter" e))
  exported name endpoint rest none = opening (tracer name endpoint) rest

  -- telemetry.InitTracer and the deferred shutdown, which does nothing without an endpoint.
  unfoldable pub with_tracer : String → String → P → P
  unfolding exported
  with_tracer name endpoint rest p =
      if str_eq endpoint ""
      then rest p
      else exported name endpoint rest (out.exporter_error p endpoint) p

  -- A pool whose Ping fails is not closed.
  pinged : String → P → Option Error → P
  pinged dsn rest (some e) p =
      failed (wrap "postgres" (wrap "postgres ping" e)) (stepped (opened (pool dsn)) p)
  pinged dsn rest none p = opening (pool dsn) rest p

  pooled : String → P → Option Error → P
  unfolding pinged
  pooled dsn rest (some e) p = failed (wrap "postgres" (wrap "pgxpool.New" e)) p
  pooled dsn rest none p = pinged dsn rest (out.ping_error p) p

  -- postgres.NewPool and the deferred Close.
  unfoldable pub with_pool : String → P → P
  unfolding pooled
  with_pool dsn rest p = pooled dsn rest (out.pool_error p dsn) p

-- The error that the service's Run returned, under the service's name.
abbrev pub named : String → Flow → Flow
named service again = again
named service (returned none) = returned none
named service (returned (some e)) = returned (some (wrap service e))

-- StartMetricsServer, then the service.
unfoldable pub serving : String → String → M Flow → P
serving service addr run p =
    let (flow, h) = run p.history in
    (named service flow, record { history = h; steps = metrics_served addr ∷ p.steps })
