-- ===== src/World/Views.antt =====
-- What a history says of the services: the writes of a Redis key, the messages of a Kafka topic,
-- the statements sent to PostgreSQL, the runs of handlers and the tasks in flight.
use go_task_flow.Prelude.{
  ℕ, suc, String, ◌≡◌, Option, none, some, List, [], ◌∷◌, if◌then◌else◌, str_eq,
}
use go_task_flow.World.{
  History, Outgoing, Statement, M, redis_set, kafka_write, sql_exec, handled, in_flight_up,
  in_flight_down,
}

-- The value that the newest acknowledged SET gave a key.
unfoldable pub value : String → History → Option String
value k [] = none
value k (redis_set j v ttl none ∷ h) = if str_eq j k then some v else value k h
value k (_ ∷ h) = value k h

-- The values that SETs tried to give a key, newest first, acknowledged or not.
unfoldable pub sets : String → History → List String
sets k [] = []
sets k (redis_set j v ttl e ∷ h) = if str_eq j k then v ∷ sets k h else sets k h
sets k (_ ∷ h) = sets k h

-- The messages that a topic acknowledged, newest first.
unfoldable pub messages : String → History → List Outgoing
messages t [] = []
messages t (kafka_write m none ∷ h) = if str_eq m.topic t then m ∷ messages t h else messages t h
messages t (_ ∷ h) = messages t h

-- The messages that a topic was sent, newest first, acknowledged or not.
unfoldable pub sent : String → History → List Outgoing
sent t [] = []
sent t (kafka_write m e ∷ h) = if str_eq m.topic t then m ∷ sent t h else sent t h
sent t (_ ∷ h) = sent t h

-- The contents that Kafka took, of all topics, newest first.
unfoldable pub taken : History → List String
taken [] = []
taken (kafka_write m none ∷ h) = m.value ∷ taken h
taken (_ ∷ h) = taken h

-- The statements sent to PostgreSQL, newest first.
unfoldable pub statements : History → List Statement
statements [] = []
statements (sql_exec s e ∷ h) = s ∷ statements h
statements (_ ∷ h) = statements h

-- The statements that PostgreSQL acknowledged, newest first.
unfoldable pub acknowledged : History → List Statement
acknowledged [] = []
acknowledged (sql_exec s none ∷ h) = s ∷ acknowledged h
acknowledged (_ ∷ h) = acknowledged h

-- How often a handler ran.
unfoldable pub runs : History → ℕ
runs [] = 0
runs (handled t e ∷ h) = suc (runs h)
runs (_ ∷ h) = runs h

-- How often a handler ran on a task of an identifier and returned nil.
unfoldable pub successes : String → History → ℕ
successes id [] = 0
successes id (handled t none ∷ h) = if str_eq t.id id then suc (successes id h) else successes id h
successes id (_ ∷ h) = successes id h

-- How often the in-flight gauge went up and down.
unfoldable pub ups : History → ℕ
ups [] = 0
ups (in_flight_up ∷ h) = suc (ups h)
ups (_ ∷ h) = ups h

unfoldable pub downs : History → ℕ
downs [] = 0
downs (in_flight_down ∷ h) = suc (downs h)
downs (_ ∷ h) = downs h

-- A computation whose calls no view shows: it writes no key, topic or row of the task queue.
pub record IsQuiet {A : Type 0} (m : M A) : Type 0 where
  pub value_same : (k : String) (h : History) → value k (m h).1 ≡ value k h
  pub sets_same : (k : String) (h : History) → sets k (m h).1 ≡ sets k h
  pub messages_same : (t : String) (h : History) → messages t (m h).1 ≡ messages t h
  pub sent_same : (t : String) (h : History) → sent t (m h).1 ≡ sent t h
  pub statements_same : (h : History) → statements (m h).1 ≡ statements h
  pub runs_same : (h : History) → runs (m h).1 ≡ runs h
  pub successes_same : (id : String) (h : History) → successes id (m h).1 ≡ successes id h
  pub ups_same : (h : History) → ups (m h).1 ≡ ups h
  pub downs_same : (h : History) → downs (m h).1 ≡ downs h
