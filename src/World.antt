-- ===== src/World.antt =====
-- The boundary of the program: every call that it makes of Redis (go-redis), Kafka (kafka-go),
-- PostgreSQL (pgx), the clock, the uuid library and the metrics is an event with its arguments.
-- What a call answers is a parameter, an arbitrary function of all that happened before it, so the
-- services may fail, lag or be changed by other processes at any call.
pub mod Views
pub mod Sending
use go_task_flow.Prelude.{ℕ, String, Bool, Option, none, some, List, ◌∷◌}
use go_task_flow.Prelude.Int.{ℤ}
use go_task_flow.Domain.{Status, Task, TaskExecution}
use go_task_flow.Domain.Errors.{Error, Format, Result}

-- A message as the producer hands it to the writer.
pub record Outgoing : Type 0 where
  pub topic : String
  pub key : String
  pub value : String

-- kafka.Header of kafka-go.
pub record Header : Type 0 where
  pub key : String
  pub value : String

-- A message as the reader hands it to the consumer.
pub record Fetched : Type 0 where
  pub topic : String
  pub partition : ℕ
  pub offset : ℕ
  pub key : String
  pub value : String
  pub headers : List Header

-- The arguments of smtp.SendMail; the authentication is the user, the password and the host.
pub record Mail : Type 0 where
  pub address : String
  pub auth : Option (String × String × String)
  pub sender : String
  pub recipient : String
  pub content : String

-- An HTTP request with the header fields in the order in which they are set.
pub record HttpRequest : Type 0 where
  pub method : String
  pub url : String
  pub body : Option String
  pub fields : List (String × String)

-- The SQL statements of the program that write, with their arguments.
pub data Statement : Type 0 where
  insert_task : Task → Statement
  update_status : String → Status → ℕ → Option ℕ → Statement
  insert_execution : TaskExecution → Statement
  update_job : ℕ → ℕ → String → Statement

-- The Prometheus counters, with their labels.
pub data Metric : Type 0 where
  api_submitted worker_retries worker_dlq dispatcher_routed : String → Metric
  worker_processed : String → String → Metric
  dispatcher_dlq dispatcher_rate_limited : Metric

pub data Event : Type 0 where
  clock_read : ℕ → Event
  uuid_made : String → Event
  redis_set : String → String → ℕ → Option Error → Event
  redis_get : String → Event
  redis_set_nx : String → String → ℕ → Option Error → Event
  redis_renew : String → String → ℕ → Result ℕ → Event
  kafka_write : Outgoing → Option Error → Event
  kafka_fetch : Result Fetched → Event
  kafka_commit : ℕ → ℕ → Option Error → Event
  sql_exec : Statement → Option Error → Event
  sql_query : String → Event
  handled : Task → Option Error → Event
  waited : ℤ → Bool → Event
  counted : Metric → Event
  windowed : String → ℤ → ℕ → ℕ → ℕ → Result ℕ → Event
  mailed : Mail → Option (Option Error) → Event
  called : HttpRequest → Result ℕ → Event
  streamed : String → Status → Option Error → Event
  in_flight_up in_flight_down : Event

-- services/scheduler/scheduler.go: a row of scheduled_jobs.
pub record ScheduledJob : Type 0 where
  pub id : String
  pub name : String
  pub cron_expr : String
  pub task_type : String
  pub payload : String
  pub enabled : Bool
  pub last_run_at : Option ℕ
  pub next_run_at : Option ℕ

-- All that happened, newest first.
abbrev pub History : Type 0
History = List Event

-- What the services answer. `float64` is the double that a number of nanoseconds is rounded to.
pub record Env : Type 0 where
  pub now : History → ℕ
  pub new_uuid : History → String
  pub cancelled : History → Bool
  pub ctx_error : History → Error
  pub set_answer : History → String → String → ℕ → Option Error
  pub get_answer : History → String → Result String
  pub set_nx_answer : History → String → String → ℕ → Option Error
  pub renew_answer : History → String → String → ℕ → Result ℕ
  pub redis_time : History → ℕ
  pub write_answer : History → Outgoing → Option Error
  pub fetch_answer : History → Result Fetched
  pub commit_answer : History → ℕ → ℕ → Option Error
  pub exec_answer : History → Statement → Option Error
  pub row_answer : History → String → Result Task
  pub rows_answer : History → Status → ℕ → Result (List (Result Task) × Option Error)
  pub jobs_answer : History → Result (List (Result ScheduledJob) × Option Error)
  pub cron : String → Result (ℕ → ℕ)
  pub timer_fires : History → ℤ → Bool
  pub window_answer : History → String → ℤ → ℕ → ℕ → ℕ → Result ℕ
  pub smtp_answer : History → Mail → Option (Option Error)
  pub request_error : String → String → Option Error
  pub http_answer : History → HttpRequest → Result ℕ
  pub encode : Task → Result String
  pub decode : String → Option Task
  pub millis : ℕ → ℕ
  pub float64 : ℕ → ℕ
  pub format : Format

-- A computation that makes calls and returns a value.
abbrev pub M : Type 0 → Type 0
M A = History → A × History

infixl 5 ◌>>=◌ ◌>>◌
abbrev pub ◌>>=◌ : {A B : Type 0} → M A → (A → M B) → M B
◌>>=◌ m f h = let (a, h') = m h in f a h'

abbrev pub ◌>>◌ : {A B : Type 0} → M A → M B → M B
◌>>◌ m k h = let (_, h') = m h in k h'

abbrev pub pure : {A : Type 0} → A → M A
pure a h = (a, h)

-- An event with no answer.
abbrev pub emit : Event → M Unit
emit e h = (tt, e ∷ h)

module _ (env : Env) where
  -- time.Now().UTC()
  abbrev pub time_now : M ℕ
  time_now h = let t = env.now h in (t, clock_read t ∷ h)

  -- uuid.New().String()
  abbrev pub new_uuid : M String
  new_uuid h = let u = env.new_uuid h in (u, uuid_made u ∷ h)

  -- client.Set(ctx, key, value, ttl).Err()
  abbrev pub client_set : String → String → ℕ → M (Option Error)
  client_set key value ttl h =
      let e = env.set_answer h key value ttl in (e, redis_set key value ttl e ∷ h)

  -- client.SetArgs(ctx, key, value, {Mode: "NX", TTL: ttl}).Err()
  abbrev pub client_set_nx : String → String → ℕ → M (Option Error)
  client_set_nx key value ttl h =
      let e = env.set_nx_answer h key value ttl in (e, redis_set_nx key value ttl e ∷ h)

  -- The script that extends the key by ms milliseconds if it holds the value, and answers 1.
  abbrev pub run_renew_script : String → String → ℕ → M (Result ℕ)
  run_renew_script key value ms h =
      let r = env.renew_answer h key value ms in (r, redis_renew key value ms r ∷ h)

  -- reader.FetchMessage(ctx)
  abbrev pub fetch_message : M (Result Fetched)
  fetch_message h = let r = env.fetch_answer h in (r, kafka_fetch r ∷ h)

  -- reader.CommitMessages(context.Background(), m)
  abbrev pub commit_message : Fetched → M (Option Error)
  commit_message m h =
      let e = env.commit_answer h m.partition m.offset in
      (e, kafka_commit m.partition m.offset e ∷ h)

  -- pool.Query(ctx, "SELECT … FROM scheduled_jobs WHERE enabled …")
  abbrev pub query_due_jobs : M (Result (List (Result ScheduledJob) × Option Error))
  query_due_jobs h = (env.jobs_answer h, sql_query "scheduled_jobs" ∷ h)

  -- client.Get(ctx, key).Result()
  abbrev pub client_get : String → M (Result String)
  client_get key h = (env.get_answer h key, redis_get key ∷ h)

  -- writer.WriteMessages(ctx, m)
  abbrev pub write_messages : Outgoing → M (Option Error)
  write_messages m h = let e = env.write_answer h m in (e, kafka_write m e ∷ h)

  -- pool.Exec(ctx, statement)
  abbrev pub pool_exec : Statement → M (Option Error)
  pool_exec s h = let e = env.exec_answer h s in (e, sql_exec s e ∷ h)

  -- pool.QueryRow(ctx, "SELECT … FROM tasks WHERE id = $1", id)
  abbrev pub query_task : String → M (Result Task)
  query_task id h = (env.row_answer h id, sql_query id ∷ h)

  -- pool.Query(ctx, "SELECT … FROM tasks WHERE status = $1 … LIMIT $2", status, limit)
  abbrev pub query_tasks : Status → ℕ → M (Result (List (Result Task) × Option Error))
  query_tasks status limit h = (env.rows_answer h status limit, sql_query status ∷ h)

  -- select { case <-time.After(d): case <-ctx.Done(): }
  abbrev pub wait_timer : ℤ → M Bool
  wait_timer d h = let fired = env.timer_fires h d in (fired, waited d fired ∷ h)

  -- The transaction ZREMRANGEBYSCORE key 0 from, ZADD key score member, ZCARD key, EXPIRE key: its
  -- error, or what ZCARD answered.
  abbrev pub run_window : String → ℤ → ℕ → ℕ → ℕ → M (Result ℕ)
  run_window key from score member ttl h =
      let r = env.window_answer h key from score member ttl in
      (r, windowed key from score member ttl r ∷ h)

  -- smtp.SendMail against the end of the context: none where the context ended first.
  abbrev pub send_mail : Mail → M (Option (Option Error))
  send_mail m h = let r = env.smtp_answer h m in (r, mailed m r ∷ h)

  -- client.Do(req): the status code.
  abbrev pub client_do : HttpRequest → M (Result ℕ)
  client_do req h = let r = env.http_answer h req in (r, called req r ∷ h)
