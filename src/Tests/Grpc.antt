-- ===== src/Tests/Grpc.antt =====
-- The gRPC service at concrete requests.
use go_task_flow.Prelude.Int.{pos}
use go_task_flow.Domain.Errors.{Error}
use go_task_flow.Gateway.Grpc.Stream.Updates.{stream_task_updates-Streamed, Streamed}
use go_task_flow.Gateway.Grpc.Bulk.Counts.{pending_count, stream_of, bulk_submit_tasks-counts}
use go_task_flow.Gateway.Grpc.Stream.{stream_task_updates}
use go_task_flow.Gateway.Grpc.Bulk.{bulk_submit_tasks, BulkSubmitResponse}
use go_task_flow.Gateway.Grpc.Submission.{submit_task-GrpcOutcome, GrpcOutcome}
use go_task_flow.Tests.Fixtures.{calm}
use go_task_flow.World.{History}
use go_task_flow.Prelude.{◌+◌, ◌≡◌, refl, Option, none, [], ◌∷◌, arith, length}
use go_task_flow.Gateway.Grpc.{SubmitTaskRequest, submit_task, TaskStatusResponse, reply}

abbrev remote_request : SubmitTaskRequest
remote_request = record { type = "email"; payload = "{}"; priority = pos 1; scheduled_at = pos 0 }

abbrev invalid_request : SubmitTaskRequest
invalid_request = record { type = ""; payload = "{}"; priority = pos 1; scheduled_at = pos 0 }

submit_task-GrpcOutcome_example :
    GrpcOutcome calm remote_request [] (submit_task calm remote_request [])
submit_task-GrpcOutcome_example = submit_task-GrpcOutcome calm remote_request []

bulk_submit_tasks-counts_example :
    let r = bulk_submit_tasks calm (stream_of (remote_request ∷ invalid_request ∷ [])) [] in
    (response : BulkSubmitResponse) × (r.0 ≡ reply response)
    × (response.submitted + response.failures ≡ 2)
    × (length response.task_ids ≡ response.submitted)
    × (pending_count r.1 ≡ response.submitted + pending_count [])
bulk_submit_tasks-counts_example =
    bulk_submit_tasks-counts calm (remote_request ∷ invalid_request ∷ []) [] (omega arith)

abbrev delivers : TaskStatusResponse → History → Option Error
delivers r h = none

stream_task_updates-Streamed_example : Streamed 2 [] (stream_task_updates calm delivers "t1" 2 [])
stream_task_updates-Streamed_example = stream_task_updates-Streamed calm delivers "t1" 2 [] refl
