-- ===== src/Service/Clients.antt =====
-- The settings of the clients that runServe constructs: NewConsumer and NewProducer of
-- internal/kafka and NewClient of internal/redis/state_store.go.
use go_task_flow.Prelude.{ℕ, String, Bool, true, List}

-- kafka.FirstOffset and kafka.LastOffset.
pub data StartOffset : Type 0 where
  first_offset last_offset : StartOffset

-- kafka.ReaderConfig; times are in nanoseconds, and a commit interval of 0 commits at the call.
pub record ReaderConfig : Type 0 where
  pub brokers : List String
  pub topic : String
  pub group_id : String
  pub min_bytes : ℕ
  pub max_bytes : ℕ
  pub max_wait : ℕ
  pub commit_interval : ℕ
  pub start_offset : StartOffset

unfoldable pub new_consumer : List String → String → String → ReaderConfig
new_consumer brokers topic group_id = record {
  brokers = brokers;
  topic = topic;
  group_id = group_id;
  min_bytes = 1;
  max_bytes = 10_000_000;
  max_wait = 500_000_000;
  commit_interval = 0;
  start_offset = first_offset;
}

pub data Balancer : Type 0 where
  hash : Balancer

pub data RequiredAcks : Type 0 where
  require_none require_one require_all : RequiredAcks

-- kafka.Writer.
pub record Writer : Type 0 where
  pub addr : List String
  pub balancer : Balancer
  pub required_acks : RequiredAcks
  pub max_attempts : ℕ
  pub batch_size : ℕ
  pub write_timeout : ℕ
  pub read_timeout : ℕ
  pub allow_auto_topic_creation : Bool

unfoldable pub new_producer : List String → Writer
new_producer brokers = record {
  addr = brokers;
  balancer = hash;
  required_acks = require_one;
  max_attempts = 3;
  batch_size = 1;
  write_timeout = 10_000_000_000;
  read_timeout = 10_000_000_000;
  allow_auto_topic_creation = true;
}

-- redis.Options.
pub record Options : Type 0 where
  pub addr : String
  pub dial_timeout : ℕ
  pub read_timeout : ℕ
  pub write_timeout : ℕ
  pub pool_size : ℕ

unfoldable pub new_client : String → Options
new_client addr = record {
  addr = addr;
  dial_timeout = 2_000_000_000;
  read_timeout = 1_000_000_000;
  write_timeout = 1_000_000_000;
  pool_size = 10;
}
