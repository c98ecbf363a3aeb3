-- ===== src/Consumer.antt =====
-- internal/kafka/consumer.go: the loop that fetches a message, hands it to the service, and commits
-- its offset. The trace context of the headers and the logging are left out.
pub mod Rounds
pub mod Offsets
pub mod Relaying
use go_task_flow.Domain.Errors.{Error, Result, err, wrap, ok}
use go_task_flow.World.{M, ◌>>=◌, ◌>>◌, pure, fetch_message, commit_message, Header, Fetched, Env}
use go_task_flow.Prelude.{ℕ, zero, suc, String, Option, none, some, List, if◌then◌else◌}

-- The message as the services read it.
pub record Message : Type 0 where
  pub topic : String
  pub key : String
  pub value : String
  pub offset : ℕ
  pub headers : List Header

abbrev pub message : Fetched → Message
message m = record {
  topic = m.topic;
  key = m.key;
  value = m.value;
  offset = m.offset;
  headers = m.headers;
}

-- nil commits the offset, an error leaves it.
abbrev pub HandlerFunc : Type 0
HandlerFunc = Message → M (Option Error)

-- How the loop goes on: another round, or the return of Subscribe with nil or an error.
pub data Flow : Type 0 where
  again : Flow
  returned : Option Error → Flow

module _ (env : Env) where
  -- The error of CommitMessages is only logged.
  commit_if : Fetched → Option Error → M Flow
  commit_if m (some e) = pure again
  commit_if m none = do commit_message env m; pure again

  -- A failed fetch is a normal shutdown when the context was cancelled.
  fetched : HandlerFunc → Result Fetched → M Flow
  unfolding commit_if
  fetched handler (err e) h =
      if env.cancelled h then (returned none, h) else (returned (some (wrap "kafka fetch" e)), h)
  fetched handler (ok m) h = let (e, h') = handler (message m) h in commit_if m e h'

  unfoldable pub round : HandlerFunc → M Flow
  unfolding fetched
  round handler = do r ← fetch_message env; fetched handler r

  -- The first n rounds of the loop.
  unfoldable pub subscribe : HandlerFunc → ℕ → M Flow
  subscribe handler zero h = (again, h)
  subscribe handler (suc n) h =
      let (flow, h') = round handler h in
      elim flow [ again ↦ subscribe handler n h' | returned e ↦ (returned e, h') ]
