-- ===== src/Gateway/Grpc/Bulk.antt =====
-- BulkSubmitTasks: a stream of requests, each submitted by itself.
pub mod Counts
use go_task_flow.Domain.Errors.{text, Error}
use go_task_flow.World.{M, ◌>>=◌, pure, Env, ◌>>◌}
use go_task_flow.Prelude.{ℕ, ◌+◌, ◌%◌, ◌^◌, String, ◌<>◌, List, [], ◌∷◌, ◌++◌}
use go_task_flow.Gateway.Grpc.{
  Reply, reply, status_error, internal, SubmitTaskRequest, SubmitTaskResponse, submit_task,
}

pub record BulkSubmitResponse : Type 0 where
  pub submitted : ℕ
  pub failures : ℕ
  pub task_ids : List String

-- What stream.Recv gives: the requests, then io.EOF, or an error.
pub data Incoming : Type 0 where
  eof : Incoming
  broken : Error → Incoming
  next : SubmitTaskRequest → Incoming → Incoming

-- The bit pattern of an int32 counter.
abbrev int32 : ℕ → ℕ
int32 n = n % 2 ^ 32

module _ (env : Env) where
  count_reply : BulkSubmitResponse → Reply SubmitTaskResponse → BulkSubmitResponse
  count_reply acc (status_error c msg) = record acc { failures = int32 (acc.failures + 1) }
  count_reply acc (reply r) = record acc {
    submitted = int32 (acc.submitted + 1);
    task_ids = acc.task_ids ++ r.task_id ∷ [];
  }

  receive : BulkSubmitResponse → Incoming → M (Reply BulkSubmitResponse)
  unfolding count_reply
  receive acc eof = pure (reply acc)
  receive acc (broken e) = pure (status_error internal ("stream recv: " <> text env.format e))
  receive acc (next req rest) = do r ← submit_task env req; receive (count_reply acc r) rest

  -- The error of SendAndClose is the transport's.
  unfoldable pub bulk_submit_tasks : Incoming → M (Reply BulkSubmitResponse)
  unfolding receive
  bulk_submit_tasks = receive (record { submitted = 0; failures = 0; task_ids = [] })
