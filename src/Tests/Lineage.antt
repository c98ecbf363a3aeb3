-- ===== src/Tests/Lineage.antt =====
-- A submission and a dispatcher's step.
use mathlib.Core.List.{Memᴰ}
use go_task_flow.Lineage.{
  Reaches, begin, next, Origin, rest_submitted, dispatched, worked, reached-Origin,
}
use go_task_flow.Lineage.Served.{reached-IsServed, IsServed}
use go_task_flow.Causes.{Cause}
use go_task_flow.Causes.Reached.{
  ReachesAlone, begin as begin_alone, next as next_alone, reached-Cause,
}
use go_task_flow.Registry.{get, Handler}
use go_task_flow.Worker.{process_message, run_task}
use go_task_flow.Tests.Fixtures.{succeeding, worker_with, succeeding-IsQuiet}
use mathlib.Core.Path.{subst}
use go_task_flow.StateStore.{get_status}
use go_task_flow.Retry.{retry}
use go_task_flow.Prelude.Int.{add_one}
use go_task_flow.Repository.{set_row_status, record_execution}
use go_task_flow.Domain.{Task}
use go_task_flow.Domain.Errors.{ok}
use go_task_flow.Dispatcher.{forward, limited, route}
use go_task_flow.Gateway.{is_blank}
use go_task_flow.Gateway.Rest.{submit_task}
use go_task_flow.Producer.{publish}
use go_task_flow.StateStore.{set_status, set_task_meta}
use go_task_flow.Tests.Gateway.{codec, codec-IsCodec, decode_request}
use go_task_flow.World.{History, Outgoing}
use go_task_flow.World.Views.{sets, sent, value, IsQuiet}
use go_task_flow.Prelude.{String, ◌≡◌, str_eq, arith, refl, none, [], Bool-cases, inl, inr}

abbrev submitted_once : History
submitted_once = (submit_task codec decode_request "body" []).1

abbrev announcement : Outgoing
announcement = record { topic = "tasks.pending"; key = "u"; value = "tu" }

announced_first : Memᴰ announcement (sent "tasks.pending" submitted_once)
unfolding submit_task is_blank set_task_meta set_status publish sent
announced_first = Memᴰ.head refl

abbrev dispatched_once : History
dispatched_once = (route codec none "tu" submitted_once).1

dispatched_once-Reaches : Reaches codec dispatched_once
dispatched_once-Reaches =
    next (next begin (rest_submitted decode_request "body"))
      (dispatched none announcement (λ l type e. cc) announced_first)

abbrev for_worker : Outgoing
for_worker = record { topic = "tasks.worker.email"; key = "u"; value = "tu" }

dispatched_second : Memᴰ for_worker (sent "tasks.worker.email" dispatched_once)
unfolding submit_task is_blank set_task_meta set_status publish sent route limited forward
dispatched_second = Memᴰ.head refl

reached-Origin_example : Origin codec dispatched_once "tasks.worker.email" for_worker
reached-Origin_example =
    reached-Origin codec dispatched_once-Reaches "tasks.worker.email" for_worker dispatched_second

reached-IsServed_example : IsServed codec dispatched_once "email" for_worker
reached-IsServed_example =
    reached-IsServed codec "email" for_worker codec-IsCodec refl dispatched_once-Reaches
      dispatched_second

-- The worker's step behind the dispatcher's.
abbrev worked_once : History
worked_once = (process_message codec (worker_with succeeding) "tu" dispatched_once).1

only_succeeding :
    (k : String) (handler : Handler)
    → get (worker_with succeeding).registry k ≡ ok handler
    → succeeding ≡ handler
unfolding get
only_succeeding k handler found = elim (Bool-cases (str_eq "email" k)) [
  | inl here ↦ ground (arith, found, here)
  | inr there ↦ absurd (ground (arith, found, there))
]

worked_once-ReachesAlone : ReachesAlone codec worked_once
worked_once-ReachesAlone =
    next_alone
      (next_alone (next_alone begin_alone (rest_submitted decode_request "body") tt)
        (dispatched none announcement (λ l type e. cc) announced_first) tt)
      (worked (worker_with succeeding) "email" for_worker
        (λ k handler found.
          subst (λ x. (t : Task) → IsQuiet (x.handle t)) (only_succeeding k handler found)
            succeeding-IsQuiet)
        dispatched_second)
      tt

done_there : Memᴰ "DONE" (sets "task:state:u" worked_once)
unfolding submit_task is_blank set_task_meta set_status publish sets sent route limited forward
    process_message get_status value get run_task retry add_one set_row_status record_execution
done_there = Memᴰ.head refl

reached-Cause_example : Cause "u" "DONE" worked_once
reached-Cause_example = reached-Cause codec worked_once-ReachesAlone "u" "DONE" done_there
