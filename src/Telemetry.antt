-- ===== src/Telemetry.antt =====
-- pkg/telemetry: the instruments that the services register with Prometheus, and the server that
-- shows them.
use go_task_flow.World.{
  Metric, api_submitted, worker_retries, worker_dlq, dispatcher_routed, worker_processed,
  dispatcher_dlq, dispatcher_rate_limited,
}
use go_task_flow.Prelude.{ℕ, String, ◌<>◌, List, [], ◌∷◌, str_eq, if◌then◌else◌}

-- The constructors of promauto: NewCounterVec and NewCounter, NewGaugeVec and NewHistogramVec with
-- its buckets, in milliseconds.
pub data Kind : Type 0 where
  counter gauge : Kind
  histogram : List ℕ → Kind

-- The options of an instrument with the names of its labels; the help texts are left out.
pub record Instrument : Type 0 where
  pub kind : Kind
  pub subsystem : String
  pub name : String
  pub labels : List String

abbrev pub namespace : String
namespace = "taskflow"

-- prometheus.BuildFQName
abbrev pub full_name : Instrument → String
full_name i = namespace <> ("_" <> (i.subsystem <> ("_" <> i.name)))

abbrev pub api_tasks_submitted : Instrument
api_tasks_submitted = record {
  kind = counter;
  subsystem = "api";
  name = "tasks_submitted_total";
  labels = "type" ∷ [];
}

abbrev pub worker_tasks_processed : Instrument
worker_tasks_processed = record {
  kind = counter;
  subsystem = "worker";
  name = "tasks_processed_total";
  labels = "worker_type" ∷ "status" ∷ [];
}

abbrev pub worker_tasks_in_flight : Instrument
worker_tasks_in_flight = record {
  kind = gauge;
  subsystem = "worker";
  name = "tasks_inflight";
  labels = "worker_type" ∷ [];
}

abbrev pub worker_task_duration_seconds : Instrument
worker_task_duration_seconds = record {
  kind = histogram (10 ∷ 50 ∷ 100 ∷ 500 ∷ 1000 ∷ 2000 ∷ 5000 ∷ 10_000 ∷ 30_000 ∷ []);
  subsystem = "worker";
  name = "task_duration_seconds";
  labels = "worker_type" ∷ [];
}

abbrev pub worker_retries_total : Instrument
worker_retries_total = record {
  kind = counter;
  subsystem = "worker";
  name = "retries_total";
  labels = "worker_type" ∷ [];
}

abbrev pub worker_dlq_total : Instrument
worker_dlq_total = record {
  kind = counter;
  subsystem = "worker";
  name = "dlq_total";
  labels = "worker_type" ∷ [];
}

abbrev pub dispatcher_tasks_routed : Instrument
dispatcher_tasks_routed = record {
  kind = counter;
  subsystem = "dispatcher";
  name = "tasks_routed_total";
  labels = "task_type" ∷ [];
}

abbrev pub dispatcher_dlq_total : Instrument
dispatcher_dlq_total = record {
  kind = counter;
  subsystem = "dispatcher";
  name = "dlq_total";
  labels = [];
}

abbrev pub dispatcher_rate_limited_total : Instrument
dispatcher_rate_limited_total = record {
  kind = counter;
  subsystem = "dispatcher";
  name = "rate_limited_total";
  labels = [];
}

-- The variables of metrics.go, which promauto registers when the program starts.
unfoldable pub registered : List Instrument
registered =
    api_tasks_submitted ∷ worker_tasks_processed ∷ worker_tasks_in_flight
    ∷ worker_task_duration_seconds ∷ worker_retries_total ∷ worker_dlq_total
    ∷ dispatcher_tasks_routed ∷ dispatcher_dlq_total ∷ dispatcher_rate_limited_total ∷ []

-- The instrument that a counter event of the services increments, and the values that it gives to
-- WithLabelValues.
unfoldable pub instrument_of : Metric → Instrument
instrument_of (api_submitted type) = api_tasks_submitted
instrument_of (worker_retries type) = worker_retries_total
instrument_of (worker_dlq type) = worker_dlq_total
instrument_of (dispatcher_routed type) = dispatcher_tasks_routed
instrument_of (worker_processed type status) = worker_tasks_processed
instrument_of dispatcher_dlq = dispatcher_dlq_total
instrument_of dispatcher_rate_limited = dispatcher_rate_limited_total

unfoldable pub label_values : Metric → List String
label_values (api_submitted type) = type ∷ []
label_values (worker_retries type) = type ∷ []
label_values (worker_dlq type) = type ∷ []
label_values (dispatcher_routed type) = type ∷ []
label_values (worker_processed type status) = type ∷ status ∷ []
label_values dispatcher_dlq = []
label_values dispatcher_rate_limited = []

-- StartMetricsServer: the timeouts are in nanoseconds.
pub record MetricsServer : Type 0 where
  pub addr : String
  pub read_timeout : ℕ
  pub write_timeout : ℕ

unfoldable pub metrics_server : String → MetricsServer
metrics_server addr = record {
  addr = addr;
  read_timeout = 5_000_000_000;
  write_timeout = 5_000_000_000;
}

-- What its mux answers: the handler of promhttp, a status, or the mux's own 404.
pub data Page : Type 0 where
  metrics_page : Page
  status_page : ℕ → Page

unfoldable pub page : String → Page
page path =
    if str_eq path "/metrics"
    then metrics_page
    else if str_eq path "/healthz"
    then status_page 200
    else if str_eq path "/readyz"
    then status_page 200
    else status_page 404
