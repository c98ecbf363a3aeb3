-- ===== src/Tests/Pipeline.antt =====
-- One task through the three services.
use go_task_flow.Pipeline.{LeavesTask, IsCompleted, submitted_is_finished}
use go_task_flow.Dispatcher.Routing.{Admits}
use go_task_flow.Gateway.Grpc
use go_task_flow.Pipeline.OverGrpc.{submitted_over_grpc_is_finished}
use go_task_flow.Gateway.{is_blank}
use go_task_flow.Gateway.Rest.{new_task, submit_task}
use go_task_flow.Producer.{publish}
use go_task_flow.Registry.{get}
use go_task_flow.StateStore.{set_status, set_task_meta}
use go_task_flow.Tests.Fixtures.{failing, worker_with, failing-IsQuiet}
use go_task_flow.Tests.Gateway.{
  codec, codec-IsCodec, codec-IsFaithful, decode_request, request, remote,
}
use go_task_flow.World.{uuid_made, History, clock_read}
use go_task_flow.World.Views.{value}
use go_task_flow.Prelude.{ℕ, refl, none, [], ◌∷◌}

-- Others that read the clock.
abbrev clocks : ℕ → History → History
clocks i h = clock_read i ∷ h

clocks-LeavesTask : (i : ℕ) → LeavesTask "u" (clocks i)
unfolding value
clocks-LeavesTask i = record { same_state = λ h. refl; same_meta = λ h. refl }

submitted_is_finished_example :
    IsCompleted codec none
      (worker_with failing)
      clocks
      (new_task "u" (codec.now (uuid_made "u" ∷ [])) request)
      []
      (submit_task codec decode_request "body" []).1
unfolding submit_task is_blank set_task_meta set_status publish get
submitted_is_finished_example =
    submitted_is_finished codec none (worker_with failing) clocks codec-IsFaithful codec-IsCodec
      (λ h m. refl) (λ l type e. cc) decode_request failing "body" request [] clocks-LeavesTask
      failing-IsQuiet refl refl (λ x. Admits.off) refl refl

submitted_over_grpc_is_finished_example :
    IsCompleted codec none
      (worker_with failing)
      clocks
      (Grpc.new_task "u" (codec.now (uuid_made "u" ∷ [])) remote)
      []
      (Grpc.submit_task codec remote []).1
unfolding Grpc.submit_task set_task_meta set_status publish get Grpc.scheduled
submitted_over_grpc_is_finished_example =
    submitted_over_grpc_is_finished codec none (worker_with failing) clocks codec-IsFaithful
      codec-IsCodec (λ h m. refl) (λ l type e. cc) failing remote
      (record { task_id = "u"; status = "PENDING"; created_at = 0 }) [] clocks-LeavesTask
      failing-IsQuiet refl (λ x. Admits.off) refl refl
